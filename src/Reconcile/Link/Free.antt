-- ===== src/Reconcile/Link/Free.antt =====
-- The people and the accounts that `matchDirect` of internal/reconcile/link.go puts into its two maps.
use nuno.Prelude.{
  ◌≡◌, refl, sym, subst, true, false, not, ◌&&◌, List, [], ◌∷◌, Memᴰ, ℕ_eq, by_test, is_empty,
  mem_if, arith,
}
use nuno.Prelude.Text.{Text, Text_eq, text_eq, text_eq_iff}
use nuno.Prelude.Dict.{has}
use nuno.Core.Model.{User, ExternalAccount, writable_external}
use nuno.Reconcile.Link.{
  ProviderState, user_match_value, account_match_value, users_with, accounts_with,
}

-- A person of the list without a link on the provider, whose match key has that value.
pub record IsFree (s : ProviderState) (value : Text) (users : List User) (u : User) : Type 0 where
  pub among : Memᴰ u users
  pub not_linked : has u.id s.linked ≡ false
  pub has_value : user_match_value u s.row.match_key ≡ value
  pub not_empty : is_empty value ≡ false

-- An account of the list that may be written and has no owner, whose match key has that value.
pub record IsOpen (s : ProviderState) (value : Text) (accounts : List ExternalAccount)
    (a : ExternalAccount) : Type 0 where
  pub among : Memᴰ a accounts
  pub writable : writable_external a ≡ true
  pub not_owned : has a.external_id s.owner ≡ false
  pub has_value : account_match_value a s.row.match_key ≡ value
  pub not_empty : is_empty value ≡ false

module _ (s : ProviderState) (value : Text) where
  pub users_with-IsFree :
      (users : List User) (u : User) → Memᴰ u (users_with s value users) → IsFree s value users u
  unfolding users_with
  users_with-IsFree [] u m = elim m [ ]
  users_with-IsFree (x ∷ users) u m =
      let own_value = user_match_value x s.row.match_key in
      mem_if u (not (has x.id s.linked) && (not (is_empty own_value) && text_eq own_value value)) x
        (users_with s value users)
        (λ t e.
          let same = (text_eq_iff own_value value).0 (ground (arith, t)) in
          subst (IsFree s value (x ∷ users)) (sym e) (record {
            among = Memᴰ.head refl;
            not_linked = ground (arith, t);
            has_value = same;
            not_empty = subst (λ v. is_empty v ≡ false) same (ground (arith, t));
          }))
        (λ k.
          let r = users_with-IsFree users u k in
          record {
            among = Memᴰ.tail r.among;
            not_linked = r.not_linked;
            has_value = r.has_value;
            not_empty = r.not_empty;
          })
        m

  listed_user :
      (users : List User) (u : User)
      → Memᴰ u users
      → has u.id s.linked ≡ false
      → user_match_value u s.row.match_key ≡ value
      → is_empty value ≡ false
      → Memᴰ u (users_with s value users)
  unfolding users_with
  listed_user [] u m n h k = elim m [ ]
  listed_user (x ∷ users) u (Memᴰ.head e) n h k =
      let own_value = user_match_value x s.row.match_key in
      let same : own_value ≡ value =
        subst (λ (y : User). user_match_value y s.row.match_key ≡ value) e h in
      let unlinked = subst (λ (y : User). has y.id s.linked ≡ false) e n in
      let some_value = subst (λ v. is_empty v ≡ false) (sym same) k in
      let equal = (text_eq_iff own_value value).1 same in
      by_test (Memᴰ u)
        (not (has x.id s.linked) && (not (is_empty own_value) && text_eq own_value value)) _ _
        (λ _. Memᴰ.head e) (λ t. absurd (ground (arith, t, unlinked, some_value, equal)))
  listed_user (x ∷ users) u (Memᴰ.tail m) n h k =
      let own_value = user_match_value x s.row.match_key in
      by_test (Memᴰ u)
        (not (has x.id s.linked) && (not (is_empty own_value) && text_eq own_value value)) _ _
        (λ _. Memᴰ.tail (listed_user users u m n h k)) (λ _. listed_user users u m n h k)

  pub users_with-mem :
      (users : List User) (u : User) → IsFree s value users u → Memᴰ u (users_with s value users)
  users_with-mem users u h = listed_user users u h.among h.not_linked h.has_value h.not_empty

  pub accounts_with-IsOpen :
      (accounts : List ExternalAccount) (a : ExternalAccount)
      → Memᴰ a (accounts_with s value accounts)
      → IsOpen s value accounts a
  unfolding accounts_with
  accounts_with-IsOpen [] a m = elim m [ ]
  accounts_with-IsOpen (x ∷ accounts) a m =
      let own_value = account_match_value x s.row.match_key in
      mem_if a
        (writable_external x
          && (not (has x.external_id s.owner)
              && (not (is_empty own_value) && text_eq own_value value)))
        x (accounts_with s value accounts)
        (λ t e.
          let same = (text_eq_iff own_value value).0 (ground (arith, t)) in
          subst (IsOpen s value (x ∷ accounts)) (sym e) (record {
            among = Memᴰ.head refl;
            writable = ground (arith, t);
            not_owned = ground (arith, t);
            has_value = same;
            not_empty = subst (λ v. is_empty v ≡ false) same (ground (arith, t));
          }))
        (λ k.
          let r = accounts_with-IsOpen accounts a k in
          record {
            among = Memᴰ.tail r.among;
            writable = r.writable;
            not_owned = r.not_owned;
            has_value = r.has_value;
            not_empty = r.not_empty;
          })
        m

  listed_account :
      (accounts : List ExternalAccount) (a : ExternalAccount)
      → Memᴰ a accounts
      → writable_external a ≡ true
      → has a.external_id s.owner ≡ false
      → account_match_value a s.row.match_key ≡ value
      → is_empty value ≡ false
      → Memᴰ a (accounts_with s value accounts)
  unfolding accounts_with
  listed_account [] a m w n h k = elim m [ ]
  listed_account (x ∷ accounts) a (Memᴰ.head e) w n h k =
      let own_value = account_match_value x s.row.match_key in
      let same : own_value ≡ value =
        subst (λ (y : ExternalAccount). account_match_value y s.row.match_key ≡ value) e h in
      let can = subst (λ (y : ExternalAccount). writable_external y ≡ true) e w in
      let unowned = subst (λ (y : ExternalAccount). has y.external_id s.owner ≡ false) e n in
      let some_value = subst (λ v. is_empty v ≡ false) (sym same) k in
      let equal = (text_eq_iff own_value value).1 same in
      by_test (Memᴰ a)
        (writable_external x
          && (not (has x.external_id s.owner)
              && (not (is_empty own_value) && text_eq own_value value)))
        _ _ (λ _. Memᴰ.head e) (λ t. absurd (ground (arith, t, can, unowned, some_value, equal)))
  listed_account (x ∷ accounts) a (Memᴰ.tail m) w n h k =
      let own_value = account_match_value x s.row.match_key in
      by_test (Memᴰ a)
        (writable_external x
          && (not (has x.external_id s.owner)
              && (not (is_empty own_value) && text_eq own_value value)))
        _ _ (λ _. Memᴰ.tail (listed_account accounts a m w n h k))
        (λ _. listed_account accounts a m w n h k)

  pub accounts_with-mem :
      (accounts : List ExternalAccount) (a : ExternalAccount)
      → IsOpen s value accounts a
      → Memᴰ a (accounts_with s value accounts)
  accounts_with-mem accounts a h =
      listed_account accounts a h.among h.writable h.not_owned h.has_value h.not_empty
