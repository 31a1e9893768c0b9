-- ===== src/Reconcile/Link/Kept.antt =====
-- The accounts of the links that `matchDirect` makes stay with the people of those links.
use nuno.Prelude.{
  ℕ, ◌==◌, ◌≡◌, refl, sym, subst, ap, ◌∙◌, inl, inr, some, List, [], ◌∷◌, Memᴰ, All, All-append,
  All-mem, All_of_mem, ℕ_eq, Bool-cases, by_test, length,
}
use nuno.Prelude.Int.{ℤ}
use nuno.Prelude.Text.{Text, Text_eq}
use nuno.Prelude.Dict.{lookup, write, lookup-write_same, lookup-write_other}
use nuno.Core.Model.{User, ExternalAccount, AccountLink, link_matched}
use nuno.Reconcile.Link.{
  ProviderState, report_each, adopt, users_with, accounts_with, match_candidates, match_each,
  match_direct, values_of, key_unset, account_match_value,
}
use nuno.Reconcile.Link.Free.{IsFree}
use nuno.Reconcile.Link.Owners.{IsOwned, AreKept}
use nuno.Reconcile.Link.Pairs.{
  HasIds, ArePaired, IsMatching, IsMatch, report_each-eq, sole_user, unowned,
}
use nuno.Reconcile.Link.Direct.{match_candidates-IsMatching}

-- The external ids of the accounts of a provider differ, as the key of their table makes sure.
abbrev pub HasExternalIds : List ExternalAccount → Type 0
HasExternalIds accounts =
    (a b : ExternalAccount)
    → Memᴰ a accounts
    → Memᴰ b accounts
    → a.external_id ≡ b.external_id
    → a ≡ b

module _ (users : List User) (ids : HasIds users) (now : ℤ) (before : ProviderState)
    (unique : HasExternalIds before.accounts) where
  -- A pair of the same account is of the same person.
  same_owner :
      (value : Text) (u : User) (a : ExternalAccount)
      → users_with before value users ≡ u ∷ []
      → accounts_with before value before.accounts ≡ a ∷ []
      → (n : ℕ) → ArePaired before users n a.external_id
      → n ≡ u.id
  same_owner value u a p q n pair =
      let own = unowned users ids now before value u a p q in
      let account = unique pair.account a pair.is_open.among own.among pair.is_account in
      let values : pair.value ≡ value =
        sym pair.is_open.has_value
        ∙ ap (λ x. account_match_value x before.row.match_key) account
        ∙ own.has_value in
      let person =
        sole_user users ids now before value u a p q pair.person
          (subst (λ v. IsFree before v users pair.person) values pair.is_free) in
      sym pair.is_person ∙ ap (λ (x : User). x.id) person

  adopt_match-AreKept :
      (value : Text) (u : User) (a : ExternalAccount)
      → users_with before value users ≡ u ∷ []
      → accounts_with before value before.accounts ≡ a ∷ []
      → (s : ProviderState) → IsMatching users before s
      → AreKept s
      → AreKept (adopt now u.id a.external_id link_matched s)
  unfolding adopt
  adopt_match-AreKept value u a p q s h k =
      All-append P s.new_links _
        (All_of_mem P s.new_links (λ l m.
          still l (All-mem (IsMatch before users) s.new_links h.matches m) (
            All-mem (λ (x : AccountLink). lookup x.external_id s.owner ≡ some x.user_id) s.new_links
              k m)))
        (lookup-write_same a.external_id u.id s.owner, tt)
    where
      P : AccountLink → Type 0
      P l = lookup l.external_id (write a.external_id u.id s.owner) ≡ some l.user_id

      still :
          (l : AccountLink)
          → IsMatch before users l
          → lookup l.external_id s.owner ≡ some l.user_id
          → P l
      still l (_, _, pair) e = elim (Bool-cases (a.external_id == l.external_id)) [
        | inr differ ↦ lookup-write_other a.external_id l.external_id u.id s.owner differ ∙ e
        | inl same ↦
            let account = (Text_eq.same_iff a.external_id l.external_id).0 same in
            ap (λ x. lookup x (write a.external_id u.id s.owner)) (sym account)
            ∙ lookup-write_same a.external_id u.id s.owner
            ∙ ap some (
                sym (
                  same_owner value u a p q l.user_id
                    (subst (ArePaired before users l.user_id) (sym account) pair)))
      ]

  report-AreKept :
      (n m : ℕ) (value : Text) (people : List User) (s : ProviderState)
      → AreKept s
      → AreKept (report_each n m value people s)
  report-AreKept n m value people s k = subst AreKept (sym (report_each-eq n m value people s)) k

  match_candidates-AreKept :
      (value : Text) (people : List User) (accounts : List ExternalAccount)
      → users_with before value users ≡ people
      → accounts_with before value before.accounts ≡ accounts
      → (s : ProviderState) → IsMatching users before s
      → AreKept s
      → AreKept (match_candidates now value people accounts s)
  unfolding match_candidates
  match_candidates-AreKept value people [] p q s h k = k
  match_candidates-AreKept value [] (a ∷ accounts) p q s h k =
      report-AreKept (length {A = User} []) (length (a ∷ accounts)) value [] s k
  match_candidates-AreKept value (u ∷ []) (a ∷ []) p q s h k =
      adopt_match-AreKept value u a p q s h k
  match_candidates-AreKept value (u ∷ []) (a ∷ b ∷ accounts) p q s h k =
      report-AreKept (length (u ∷ [])) (length (a ∷ b ∷ accounts)) value (u ∷ []) s k
  match_candidates-AreKept value (u ∷ v ∷ people) (a ∷ accounts) p q s h k =
      report-AreKept (length (u ∷ v ∷ people)) (length (a ∷ accounts)) value (u ∷ v ∷ people) s k

  match_each-AreKept :
      (values : List Text) (s : ProviderState)
      → IsMatching users before s
      → AreKept s
      → AreKept (match_each now before users values s)
  unfolding match_each
  match_each-AreKept [] s h k = k
  match_each-AreKept (value ∷ rest) s h k =
      let people = users_with before value users in
      let accounts = accounts_with before value before.accounts in
      match_each-AreKept rest (match_candidates now value people accounts s)
        (match_candidates-IsMatching users ids now before value people accounts refl refl s h)
        (match_candidates-AreKept value people accounts refl refl s h k)

-- Where no link was made before, every link that `matchDirect` makes keeps its account.
pub match_direct-AreKept :
    (users : List User) (now : ℤ) (order : List Text → List Text) (s : ProviderState)
    → HasIds users
    → HasExternalIds s.accounts
    → IsOwned users s
    → s.new_links ≡ []
    → AreKept (match_direct now order users s)
unfolding match_direct
match_direct-AreKept users now order s ids unique h e =
    let none_yet : AreKept s =
      subst (All (λ (l : AccountLink). lookup l.external_id s.owner ≡ some l.user_id)) (sym e) tt in
    by_test AreKept (key_unset s.row.match_key) _ _ (λ _. none_yet)
      (λ _.
        match_each-AreKept users ids now s unique (order (values_of s users [])) s
          (record {
            row = refl;
            accounts = refl;
            by_id = refl;
            slot = refl;
            owners = h;
            links = λ n l k. inl k;
            matches = subst (All (IsMatch s users)) (sym e) tt;
          })
          none_yet)
