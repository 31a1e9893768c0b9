-- ===== src/Reconcile/Link/Direct.antt =====
-- The loop of `matchDirect`.
use nuno.Prelude.{
  ℕ, ◌≡◌, refl, sym, subst, ap, inl, inr, List, [], ◌∷◌, Memᴰ, All, All-append, ℕ_eq, by_test,
  length,
}
use nuno.Prelude.Int.{ℤ}
use nuno.Prelude.Text.{Text, Text_eq}
use nuno.Prelude.Dict.{write, lookup-write_inv, lookup-write_same}
use nuno.Core.Model.{User, ExternalAccount, AccountLink, link_matched}
use nuno.Reconcile.Link.{
  ProviderState, report_each, adopt, users_with, accounts_with, match_candidates, match_each,
  match_direct, values_of, key_unset,
}
use nuno.Reconcile.Link.Owners.{IsOwnership, IsOwned}
use nuno.Reconcile.Link.Pairs.{
  HasIds, ArePaired, IsMatching, IsMatch, report_each-eq, the_pair, free, unowned, kept_owner,
}

abbrev new_link : ℤ → ProviderState → User → ExternalAccount → AccountLink
new_link now s u a = record {
  user_id = u.id;
  provider_id = s.row.id;
  external_id = a.external_id;
  origin = link_matched;
  linked_at = now;
}

module _ (users : List User) (ids : HasIds users) (now : ℤ) (before : ProviderState) where
  adopt-IsMatching :
      (value : Text) (u : User) (a : ExternalAccount)
      → users_with before value users ≡ u ∷ []
      → accounts_with before value before.accounts ≡ a ∷ []
      → (s : ProviderState) → IsMatching users before s
      → IsMatching users before (adopt now u.id a.external_id link_matched s)
  unfolding adopt
  adopt-IsMatching value u a p q s h =
      let l = new_link now s u a in
      let f = free users ids now before value u a p q in
      let o = unowned users ids now before value u a p q in
      let mine : IsOwnership users s.accounts (write u.id l s.linked) a.external_id u.id = record {
        link = l;
        linked = lookup-write_same u.id l s.linked;
        target = refl;
        user = u;
        active = f.among;
        is_user = refl;
        account = a;
        observed = subst (Memᴰ a) (sym h.accounts) o.among;
        is_account = refl;
        is_writable = o.writable;
      } in
      record {
        row = h.row;
        accounts = h.accounts;
        by_id = h.by_id;
        slot = h.slot;
        owners = record {
          owned = λ x n e. elim (lookup-write_inv a.external_id x u.id n s.owner e) [
            | inl (same, person) ↦
                subst (λ k. IsOwnership users s.accounts (write u.id l s.linked) k n) same
                  (subst (IsOwnership users s.accounts (write u.id l s.linked) a.external_id) person
                    mine)
            | inr (other, k) ↦ kept_owner users ids now before value u a p q s h l refl x n k other
          ];
        };
        links = λ n k e. elim (lookup-write_inv u.id n l k s.linked e) [
          | inl (same, link) ↦ inr (
              subst (ArePaired before users n) (ap (λ m. m.external_id) link) (
                subst (λ m. ArePaired before users m a.external_id) same
                  (the_pair users ids now before value u a p q)))
          | inr (_, k2) ↦ h.links n k k2
        ];
        matches =
            All-append (IsMatch before users) s.new_links (l ∷ []) h.matches
              ((refl, ap (λ r. r.id) h.row, the_pair users ids now before value u a p q), tt);
      }

  report-IsMatching :
      (n m : ℕ) (value : Text) (people : List User) (s : ProviderState)
      → IsMatching users before s
      → IsMatching users before (report_each n m value people s)
  report-IsMatching n m value people s h =
      subst (IsMatching users before) (sym (report_each-eq n m value people s)) (record {
        row = h.row;
        accounts = h.accounts;
        by_id = h.by_id;
        slot = h.slot;
        owners = h.owners;
        links = h.links;
        matches = h.matches;
      })

  pub match_candidates-IsMatching :
      (value : Text) (people : List User) (accounts : List ExternalAccount)
      → users_with before value users ≡ people
      → accounts_with before value before.accounts ≡ accounts
      → (s : ProviderState) → IsMatching users before s
      → IsMatching users before (match_candidates now value people accounts s)
  unfolding match_candidates
  match_candidates-IsMatching value people [] p q s h = h
  match_candidates-IsMatching value [] (a ∷ accounts) p q s h =
      report-IsMatching (length {A = User} []) (length (a ∷ accounts)) value [] s h
  match_candidates-IsMatching value (u ∷ []) (a ∷ []) p q s h = adopt-IsMatching value u a p q s h
  match_candidates-IsMatching value (u ∷ []) (a ∷ b ∷ accounts) p q s h =
      report-IsMatching (length (u ∷ [])) (length (a ∷ b ∷ accounts)) value (u ∷ []) s h
  match_candidates-IsMatching value (u ∷ v ∷ people) (a ∷ accounts) p q s h =
      report-IsMatching (length (u ∷ v ∷ people)) (length (a ∷ accounts)) value (u ∷ v ∷ people) s h

  match_each-IsMatching :
      (values : List Text) (s : ProviderState)
      → IsMatching users before s
      → IsMatching users before (match_each now before users values s)
  unfolding match_each
  match_each-IsMatching [] s h = h
  match_each-IsMatching (value ∷ rest) s h =
      let people = users_with before value users in
      let accounts = accounts_with before value before.accounts in
      match_each-IsMatching rest (match_candidates now value people accounts s)
        (match_candidates-IsMatching value people accounts refl refl s h)

-- Where the ids of people differ, from a state whose owners are those that its links name and in
-- which no link was made yet, and in whatever order the values are visited: each link that
-- `matchDirect` makes is of a person without a link on the provider and of a stored account that
-- may be written and has no owner, which have one value of the match key that is not empty and that
-- no other such person and no other such account has. Every link afterwards is one that stood
-- before or one of such a pair, and each owner is a listed person whose link leads to that account.
pub match_direct-IsMatching :
    (users : List User) (now : ℤ) (order : List Text → List Text) (s : ProviderState)
    → HasIds users
    → IsOwned users s
    → s.new_links ≡ []
    → IsMatching users s (match_direct now order users s)
unfolding match_direct
match_direct-IsMatching users now order s ids h e =
    let start : IsMatching users s s = record {
      row = refl;
      accounts = refl;
      by_id = refl;
      slot = refl;
      owners = h;
      links = λ n l k. inl k;
      matches = subst (All (IsMatch s users)) (sym e) tt;
    } in
    by_test (IsMatching users s) (key_unset s.row.match_key) _ _ (λ _. start)
      (λ _. match_each-IsMatching users ids now s (order (values_of s users [])) s start)
