-- ===== src/Reconcile/Link/Pairs.antt =====
-- `matchDirect`: a link comes of exactly one person and exactly one account with a value.
use nuno.Prelude.{
  ℕ, ◌==◌, ◌≡◌, refl, sym, subst, ap, ◌∙◌, ◌⊎◌, inl, inr, false, some, List, [], ◌∷◌, Memᴰ, All,
  ℕ_eq, Bool-cases,
}
use nuno.Prelude.Int.{ℤ}
use nuno.Prelude.Text.{Text, Text_eq}
use nuno.Prelude.Dict.{lookup, write, has-none, lookup-write_other}
use nuno.Core.Model.{User, ExternalAccount, AccountLink, link_matched, issue_ambiguous, shared_key}
use nuno.Reconcile.Link.{
  ProviderState, report_issue, report_each, user_match_value, users_with, accounts_with,
}
use nuno.Reconcile.Link.Free.{
  IsFree, IsOpen, users_with-IsFree, users_with-mem, accounts_with-IsOpen, accounts_with-mem,
}
use nuno.Reconcile.Link.Owners.{IsOwnership, IsOwned}

-- One value of the match key that only this person and only this account have, of those that are
-- free: the person has no link here, the account may be written and has no owner.
pub record ArePaired (before : ProviderState) (users : List User) (user_id : ℕ) (external_id : Text)
    : Type 0 where
  pub value : Text
  pub person : User
  pub account : ExternalAccount
  pub is_person : person.id ≡ user_id
  pub is_account : account.external_id ≡ external_id
  pub is_free : IsFree before value users person
  pub is_open : IsOpen before value before.accounts account
  pub sole_person : (u : User) → IsFree before value users u → u ≡ person
  pub sole_account : (a : ExternalAccount) → IsOpen before value before.accounts a → a ≡ account
  -- Neither occurs twice.
  pub only_person : users_with before value users ≡ person ∷ []
  pub only_account : accounts_with before value before.accounts ≡ account ∷ []

mem_singleton {ℓ} : {A : Type ℓ} (x y : A) → Memᴰ x (y ∷ []) → x ≡ y
mem_singleton x y (Memᴰ.head e) = e
mem_singleton x y (Memᴰ.tail m) = elim m [ ]

-- The ids of people differ, as the primary key of their table makes sure.
abbrev pub HasIds : List User → Type 0
HasIds users = (a b : User) → Memᴰ a users → Memᴰ b users → a.id ≡ b.id → a ≡ b

-- A new link is one of `matchDirect`.
abbrev pub IsMatch : ProviderState → List User → AccountLink → Type 0
IsMatch before users l =
    (l.origin ≡ link_matched)
    × (l.provider_id ≡ before.row.id)
    × ArePaired before users l.user_id l.external_id

-- What holds between two values, `before` being the state in which the two maps were filled.
pub record IsMatching (users : List User) (before s : ProviderState) : Type 0 where
  pub row : s.row ≡ before.row
  pub accounts : s.accounts ≡ before.accounts
  pub by_id : s.by_id ≡ before.by_id
  pub slot : s.slot ≡ before.slot
  pub owners : IsOwned users s
  pub links :
      (user_id : ℕ) (l : AccountLink)
      → lookup user_id s.linked ≡ some l
      → (lookup user_id before.linked ≡ some l) ⊎ ArePaired before users user_id l.external_id
  pub matches : All (IsMatch before users) s.new_links

-- A report changes the issues only.
pub report_each-eq :
    (n m : ℕ) (value : Text) (people : List User) (s : ProviderState)
    → report_each n m value people s ≡ record s { issues = (report_each n m value people s).issues }
unfolding report_each
report_each-eq n m value [] s = refl
report_each-eq n m value (u ∷ people) s =
    report_each-eq n m value people
      (report_issue issue_ambiguous (some u.id) [] (shared_key n m s.row.match_key value) s)

module _ (users : List User) (ids : HasIds users) (now : ℤ) (before : ProviderState) (value : Text)
    (u : User) (a : ExternalAccount) (only_person : users_with before value users ≡ u ∷ [])
    (only_account : accounts_with before value before.accounts ≡ a ∷ []) where
  pub free : IsFree before value users u
  free = users_with-IsFree before value users u (subst (Memᴰ u) (sym only_person) (Memᴰ.head refl))

  pub unowned : IsOpen before value before.accounts a
  unowned =
      accounts_with-IsOpen before value before.accounts a
        (subst (Memᴰ a) (sym only_account) (Memᴰ.head refl))

  pub sole_user : (v : User) → IsFree before value users v → v ≡ u
  sole_user v h =
      mem_singleton v u (subst (Memᴰ v) only_person (users_with-mem before value users v h))

  pub the_pair : ArePaired before users u.id a.external_id
  the_pair = record {
    value = value;
    person = u;
    account = a;
    is_person = refl;
    is_account = refl;
    is_free = free;
    is_open = unowned;
    sole_person = sole_user;
    sole_account = λ b h.
        mem_singleton b a
          (subst (Memᴰ b) only_account (accounts_with-mem before value before.accounts b h));
    only_person = only_person;
    only_account = only_account;
  }

  -- A person of the pair that was linked meanwhile was linked to that account.
  same_target :
      (external_id : Text) → ArePaired before users u.id external_id → external_id ≡ a.external_id
  same_target external_id p =
      let f =
        users_with-IsFree before p.value users p.person
          (subst (Memᴰ p.person) (sym p.only_person) (Memᴰ.head refl)) in
      let person = ids p.person u f.among free.among p.is_person in
      let values : p.value ≡ value =
        sym f.has_value
        ∙ ap (λ x. user_match_value x before.row.match_key) person
        ∙ free.has_value in
      let lists : p.account ∷ [] ≡ a ∷ [] =
        sym p.only_account
        ∙ ap (λ v. accounts_with before v before.accounts) values
        ∙ only_account in
      let account : p.account ≡ a = cc lists in sym p.is_account ∙ ap (λ x. x.external_id) account

  -- A link of the person at this point leads to the account already.
  earlier_link :
      (s : ProviderState)
      → IsMatching users before s
      → (l : AccountLink) → lookup u.id s.linked ≡ some l
      → l.external_id ≡ a.external_id
  earlier_link s h l e = elim (h.links u.id l e) [
    | inl old ↦ absurd (cc (old, has-none u.id before.linked free.not_linked))
    | inr p ↦ same_target l.external_id p
  ]

  -- The owners after the link, at an entry that stays.
  pub kept_owner :
      (s : ProviderState)
      → IsMatching users before s
      → (l : AccountLink) → l.external_id ≡ a.external_id
      → (x : Text) (n : ℕ) → lookup x s.owner ≡ some n
      → (a.external_id == x) ≡ false
      → IsOwnership users s.accounts (write u.id l s.linked) x n
  kept_owner s h l target x n e other =
      let o = h.owners.owned x n e in
      record {
        link = o.link;
        linked = lookup-write_other u.id n l s.linked (not_this o) ∙ o.linked;
        target = o.target;
        user = o.user;
        active = o.active;
        is_user = o.is_user;
        account = o.account;
        observed = o.observed;
        is_account = o.is_account;
        is_writable = o.is_writable;
      }
    where
      not_this : IsOwnership users s.accounts s.linked x n → (u.id == n) ≡ false
      not_this o = elim (Bool-cases (u.id == n)) [
        | inr no_person ↦ no_person
        | inl same ↦
            let k : lookup u.id s.linked ≡ some o.link =
              ap (λ m. lookup m s.linked) ((ℕ_eq.same_iff u.id n).0 same) ∙ o.linked in
            let e2 : a.external_id ≡ x = sym (earlier_link s h o.link k) ∙ o.target in
            absurd (cc (other, (Text_eq.same_iff a.external_id x).1 e2))
      ]
