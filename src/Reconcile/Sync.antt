-- ===== src/Reconcile/Sync.antt =====
-- `SyncIdentity` of internal/reconcile/identity.go. The directory is the answer of its `Sync`, which
-- code outside this package gives.
mod Tests
use nuno.Prelude.{
  ℕ, ◌+◌, ◌≡◌, refl, sym, subst, inl, inr, Bool, true, false, ◌&&◌, Option, none, some, List, [],
  ◌∷◌, Result, ok, err, Result-cases, All-mem, Memᴰ, is_empty, ltb, Bool-cases, List-cases,
  if◌then◌else◌, arith,
}
use nuno.Prelude.Table.{exists_row}
use nuno.Core.Model.{User}
use nuno.Store.Identity.{
  UserRow, IdentityDb, IdentitySnapshot, IdentityResult, IdentityError, row_active,
  replace_identity, same_user,
}
use nuno.Store.Identity.Active.{is_person, replace_identity-active}

pub data SyncError (E : Type 0) : Type 0 where
  read_failed : E → SyncError E
  refused : ℕ → SyncError E
  not_stored : IdentityError → SyncError E

-- `countActiveUsers`
pub count_active : List UserRow → ℕ
count_active [] = 0
count_active (row ∷ rest) = (if row_active row then 1 else 0) + count_active rest

module _ {E : Type 0} where
  stored_snapshot :
      Result IdentityError (IdentityResult × IdentityDb)
      → Result (SyncError E) (IdentityResult × IdentityDb)
  stored_snapshot (ok done) = ok done
  stored_snapshot (err e) = err (not_stored e)

  -- `SyncIdentity`; no directory leaves the people as they are.
  pub sync_identity :
      Option (Result E IdentitySnapshot)
      → IdentityDb
      → Result (SyncError E) (IdentityResult × IdentityDb)
  unfolding stored_snapshot count_active
  sync_identity none db = ok (record { users = 0; groups = 0; orphaned = 0; restored = 0 }, db)
  sync_identity (some (err e)) db = err (read_failed e)
  sync_identity (some (ok snap)) db =
      if is_empty snap.users && ltb 0 (count_active db.users)
      then err (refused (count_active db.users))
      else stored_snapshot (replace_identity snap db)

-- Somebody is active.
abbrev pub HasActive : IdentityDb → Type 0
HasActive db = ltb 0 (count_active db.users) ≡ true

count_active-positive :
    (test : UserRow → Bool) (rows : List UserRow)
    → ((row : UserRow) → test row ≡ true → row_active row ≡ true)
    → exists_row test rows ≡ true
    → ltb 0 (count_active rows) ≡ true
unfolding count_active exists_row
count_active-positive test [] f h = absurd (cc h)
count_active-positive test (row ∷ rest) f h =
    ground (arith, h, f row, count_active-positive test rest f)

-- A sync that meets no error never leaves nobody active where somebody was.
pub sync_identity-HasActive :
    {E : Type 0} (directory : Option (Result E IdentitySnapshot)) (db stored : IdentityDb)
    (result : IdentityResult)
    → HasActive db
    → sync_identity directory db ≡ ok (result, stored)
    → HasActive stored
unfolding sync_identity stored_snapshot
sync_identity-HasActive none db stored result a h =
    let same : db ≡ stored = ground (arith, h) in subst HasActive same a
sync_identity-HasActive (some (err e)) db stored result a h = absurd (cc h)
sync_identity-HasActive (some (ok snap)) db stored result a h = elim (List-cases snap.users) [
  | inl none_read ↦ absurd (refusal none_read)
  | inr (u, m) ↦ elim (Result-cases (replace_identity snap db)) [
    | inr (why, bad) ↦ absurd (ground (arith, h, bad))
    | inl (done, good) ↦
        let same : done ≡ (result, stored) = ground (arith, h, good) in
        let put : replace_identity snap db ≡ ok (result, stored) =
          subst (λ d. replace_identity snap db ≡ ok d) same good in
        let (active, _) = replace_identity-active snap db stored result put in
        count_active-positive (is_person snap.source u.source_uuid) stored.users
          (λ row k. ground (arith, k))
          (All-mem
            (λ (x : User). exists_row (is_person snap.source x.source_uuid) stored.users ≡ true)
            snap.users active m)
  ]
]
  where
    refusal : snap.users ≡ [] → ⊥
    refusal e = ground (arith, a, h, e)
