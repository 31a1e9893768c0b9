-- ===== src/Reconcile/Link/Owners.antt =====
-- Whose account is whose during a pass, and `revalidate`.
use nuno.Prelude.{
  ℕ, ◌≡◌, refl, sym, subst, ap, ◌∙◌, inl, inr, true, not, ◌&&◌, Option, none, some, List, [], ◌∷◌,
  Memᴰ, All, ℕ_eq, Option-cases, by_test, is_empty, arith,
}
use nuno.Prelude.Text.{Text, Text_eq, text_eq}
use nuno.Prelude.Dict.{Dict, lookup, lookup-write_inv, index_by, lookup-index_by}
use nuno.Core.Model.{
  User, ExternalAccount, AccountLink, LinkOrigin, link_matched, link_manual, writable_external,
}
use nuno.Reconcile.Link.{
  ProviderState, own, check_key, check_account, check_user, check_link, revalidate_each, revalidate,
  user_match_value, account_match_value,
}

-- An account of that id may be written and is that person's: the person is active, and the link of
-- that person on the provider, the only one, leads to the account.
pub record IsOwnership (users : List User) (accounts : List ExternalAccount)
    (links : Dict ℕ AccountLink) (external_id : Text) (user_id : ℕ) : Type 0 where
  pub link : AccountLink
  pub linked : lookup user_id links ≡ some link
  pub target : link.external_id ≡ external_id
  pub user : User
  pub active : Memᴰ user users
  pub is_user : user.id ≡ user_id
  pub account : ExternalAccount
  pub observed : Memᴰ account accounts
  pub is_account : account.external_id ≡ external_id
  pub is_writable : writable_external account ≡ true

-- Every entry of `owner` is such a pair.
pub record AreOwners (users : List User) (accounts : List ExternalAccount)
    (links : Dict ℕ AccountLink) (owner : Dict Text ℕ) : Type 0 where
  pub owned :
      (external_id : Text) (user_id : ℕ)
      → lookup external_id owner ≡ some user_id
      → IsOwnership users accounts links external_id user_id

abbrev pub IsOwned : List User → ProviderState → Type 0
IsOwned users s = AreOwners users s.accounts s.linked s.owner

-- Each link that was made leads to an account that is owned by the person of the link.
abbrev pub AreKept : ProviderState → Type 0
AreKept s = All (λ (l : AccountLink). lookup l.external_id s.owner ≡ some l.user_id) s.new_links

-- A state of the same provider over the same accounts.
pub record IsSameProvider (s t : ProviderState) : Type 0 where
  pub slot : t.slot ≡ s.slot
  pub row : t.row ≡ s.row
  pub accounts : t.accounts ≡ s.accounts

-- `byID` holds observed accounts under their ids.
pub record IsIndexed (accounts : List ExternalAccount) (by_id : Dict Text ExternalAccount)
    : Type 0 where
  pub indexed :
      (external_id : Text) (a : ExternalAccount)
      → lookup external_id by_id ≡ some a
      → Memᴰ a accounts × (a.external_id ≡ external_id)

own-IsOwned :
    (users : List User) (s : ProviderState) (external_id : Text) (user_id : ℕ)
    → IsOwned users s
    → IsOwnership users s.accounts s.linked external_id user_id
    → IsOwned users (own external_id user_id s)
own-IsOwned users s external_id user_id h o = record {
  owned = λ x u e. elim (lookup-write_inv external_id x user_id u s.owner e) [
    | inl (p, q) ↦
        subst (λ k. IsOwnership users s.accounts s.linked k u) p
          (subst (λ k. IsOwnership users s.accounts s.linked external_id k) q o)
    | inr (_, k) ↦ h.owned x u k
  ];
}

-- What the checks of an existing link leave: the fields that they read, and the owners.
pub record IsSound (users : List User) (s t : ProviderState) : Type 0 where
  pub slot : t.slot ≡ s.slot
  pub row : t.row ≡ s.row
  pub accounts : t.accounts ≡ s.accounts
  pub by_id : t.by_id ≡ s.by_id
  pub linked : t.linked ≡ s.linked
  pub new_links : t.new_links ≡ s.new_links
  pub owners : IsOwned users t

unchanged :
    (users : List User) (s t : ProviderState)
    → t.slot ≡ s.slot
    → t.row ≡ s.row
    → t.accounts ≡ s.accounts
    → t.by_id ≡ s.by_id
    → t.linked ≡ s.linked
    → t.new_links ≡ s.new_links
    → IsOwned users t
    → IsSound users s t
unchanged users s t p r a b c d o = record {
  slot = p;
  row = r;
  accounts = a;
  by_id = b;
  linked = c;
  new_links = d;
  owners = o;
}

check_key-IsSound :
    (users : List User) (origin : LinkOrigin) (u : User) (a : ExternalAccount) (l : AccountLink)
    (user_id : ℕ) (s : ProviderState)
    → IsOwned users s
    → IsOwnership users s.accounts s.linked l.external_id user_id
    → IsSound users s (check_key origin u a l user_id s)
unfolding check_key
check_key-IsSound users link_manual u a l user_id s h o =
    unchanged users s (own l.external_id user_id s) refl refl refl refl refl refl
      (own-IsOwned users s l.external_id user_id h o)
check_key-IsSound users link_matched u a l user_id s h o =
    let want = user_match_value u s.row.match_key in
    let got = account_match_value a s.row.match_key in
    by_test (IsSound users s) (not (is_empty want) && not (text_eq want got)) _ _
      (λ _. unchanged users s _ refl refl refl refl refl refl h)
      (λ _.
        unchanged users s (own l.external_id user_id s) refl refl refl refl refl refl
          (own-IsOwned users s l.external_id user_id h o))

check_account-IsSound :
    (users : List User) (o : Option ExternalAccount) (u : User) (l : AccountLink)
    (s : ProviderState)
    → IsOwned users s
    → IsIndexed s.accounts s.by_id
    → lookup l.external_id s.by_id ≡ o
    → lookup u.id s.linked ≡ some l
    → Memᴰ u users
    → IsSound users s (check_account o u l u.id s)
unfolding check_account
check_account-IsSound users none u l s h i e k m =
    unchanged users s _ refl refl refl refl refl refl h
check_account-IsSound users (some a) u l s h i e k m =
    by_test (IsSound users s) (not (writable_external a)) _ _
      (λ _. unchanged users s _ refl refl refl refl refl refl h)
      (λ w.
        let (observed, is_account) = i.indexed l.external_id a e in
        check_key-IsSound users l.origin u a l u.id s h (record {
          link = l;
          linked = k;
          target = refl;
          user = u;
          active = m;
          is_user = refl;
          account = a;
          observed = observed;
          is_account = is_account;
          is_writable = ground (arith, w);
        }))

check_link-IsSound :
    (users : List User) (user_id : ℕ) (s : ProviderState)
    → IsOwned users s
    → IsIndexed s.accounts s.by_id
    → IsSound users s
        (check_link (index_by (λ (u : User). u.id) users []) (lookup user_id s.linked) user_id s)
unfolding check_link check_user
check_link-IsSound users user_id s h i = elim (Option-cases (lookup user_id s.linked)) [
  | inl n ↦ rw (n, check_link) (unchanged users s s refl refl refl refl refl refl h)
  | inr (l, k) ↦ elim (Option-cases (lookup user_id (index_by (λ (u : User). u.id) users []))) [
    | inl n ↦ rw (k, check_link, n) (unchanged users s _ refl refl refl refl refl refl h)
    | inr (u, e) ↦ elim (lookup-index_by (λ (u : User). u.id) users [] user_id u e) [
      | inl bad ↦ absurd (unfold lookup in cc bad)
      | inr (m, p) ↦
          rw (k, check_link, e)
            (subst (λ n. IsSound users s (check_account (lookup l.external_id s.by_id) u l n s)) p
              (check_account-IsSound users (lookup l.external_id s.by_id) u l s h i refl
                (ap (λ n. lookup n s.linked) p ∙ k) m))
    ]
  ]
]

revalidate_each-IsSound :
    (users : List User) (order : List ℕ) (s : ProviderState)
    → IsOwned users s
    → IsIndexed s.accounts s.by_id
    → IsSound users s (revalidate_each (index_by (λ (u : User). u.id) users []) order s)
unfolding revalidate_each
revalidate_each-IsSound users [] s h i = unchanged users s s refl refl refl refl refl refl h
revalidate_each-IsSound users (n ∷ order) s h i =
    let t = check_link (index_by (λ (u : User). u.id) users []) (lookup n s.linked) n s in
    let one = check_link-IsSound users n s h i in
    let rest = revalidate_each-IsSound users order t one.owners (rw (one.accounts, one.by_id) i) in
    record {
      slot = rest.slot ∙ one.slot;
      row = rest.row ∙ one.row;
      accounts = rest.accounts ∙ one.accounts;
      by_id = rest.by_id ∙ one.by_id;
      linked = rest.linked ∙ one.linked;
      new_links = rest.new_links ∙ one.new_links;
      owners = rest.owners;
    }

pub no_owner-IsOwned : (users : List User) (s : ProviderState) → s.owner ≡ [] → IsOwned users s
no_owner-IsOwned users s e = record {
  owned = λ x u h. absurd (unfold lookup in cc (sym (ap (lookup x) e) ∙ h));
}

-- The links that exist are checked, and none is changed.
pub revalidate-IsSound :
    (users : List User) (order : List ℕ) (s : ProviderState)
    → s.owner ≡ []
    → IsIndexed s.accounts s.by_id
    → IsSound users s (revalidate order users s)
unfolding revalidate
revalidate-IsSound users order s e i =
    revalidate_each-IsSound users order s (no_owner-IsOwned users s e) i
