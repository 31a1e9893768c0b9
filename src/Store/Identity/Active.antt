-- ===== src/Store/Identity/Active.antt =====
-- Who is active after a snapshot.
use nuno.Prelude.{
  ◌==◌, ◌≡◌, refl, sym, subst, ap, ◌∙◌, inl, inr, Bool, true, ◌&&◌, List, [], ◌∷◌, ok, Memᴰ, All,
  All_of_mem, contains, ℕ_eq, by_test, mem_append_right, arith,
}
use nuno.Prelude.Text.{Text, text_eq_iff, Text_eq}
use nuno.Prelude.Table.{
  next_id, exists_row, exists_row_of_mem, exists_row-update, exists_row-append, update_where,
  update_where-mem,
}
use nuno.Core.Model.{IdentitySource, source_ldap, source_manual, source_other, User, user_orphaned}
use nuno.Store.Identity.{
  UserRow, IdentityDb, IdentitySnapshot, IdentityResult, source_eq, row_active, same_user, renewed,
  new_user, upsert_user, missing, mark_orphaned, uuids, replace_identity,
}
use nuno.Store.Identity.Kept.{upsert_all, upsert_user-cases, replace_identity-users}

-- A row of an active person.
abbrev pub is_person : IdentitySource → Text → UserRow → Bool
is_person source uuid row = same_user source uuid row && row_active row

source_eq_refl : (s : IdentitySource) → source_eq s s ≡ true
source_eq_refl source_ldap = refl
source_eq_refl source_manual = refl
source_eq_refl (source_other s) = (text_eq_iff s s).1 refl

upsert_user-person :
    (source : IdentitySource) (u : User) (rows : List UserRow)
    → exists_row (is_person source u.source_uuid) (upsert_user source u rows).rows ≡ true
unfolding same_user renewed new_user
upsert_user-person source u rows = elim (upsert_user-cases source u rows) [
  | inl e ↦
      subst (λ l. exists_row (is_person source u.source_uuid) l ≡ true) (sym e)
        (exists_row_of_mem (is_person source u.source_uuid) _
          (new_user (next_id (λ (row : UserRow). row.id) rows) source u)
          (mem_append_right rows _ (Memᴰ.head refl))
          (ground (arith, source_eq_refl source, (text_eq_iff u.source_uuid u.source_uuid).1 refl)))
  | inr (found, there, same, e) ↦
      let own : (found.id == found.id) ≡ true = (ℕ_eq.same_iff found.id found.id).1 refl in
      subst (λ l. exists_row (is_person source u.source_uuid) l ≡ true) (sym e)
        (exists_row_of_mem (is_person source u.source_uuid) _ _
          (update_where-mem (λ (row : UserRow). row.id == found.id) (renewed u) rows found there)
          (by_test (λ r. is_person source u.source_uuid r ≡ true) (found.id == found.id)
            (renewed u found) found (λ _. ground (arith, same)) (λ n. absurd (cc (own, n)))))
]

upsert_user-stays :
    (source : IdentitySource) (u : User) (uuid : Text) (rows : List UserRow)
    → exists_row (is_person source uuid) rows ≡ true
    → exists_row (is_person source uuid) (upsert_user source u rows).rows ≡ true
unfolding same_user renewed
upsert_user-stays source u uuid rows h = elim (upsert_user-cases source u rows) [
  | inl e ↦
      subst (λ l. exists_row (is_person source uuid) l ≡ true) (sym e)
        (ground (
          arith,
          h,
          exists_row-append (is_person source uuid) rows
              (new_user (next_id (λ (row : UserRow). row.id) rows) source u ∷ []),
        ))
  | inr (found, there, same, e) ↦
      subst (λ l. exists_row (is_person source uuid) l ≡ true) (sym e)
        (exists_row-update (is_person source uuid) (λ (row : UserRow). row.id == found.id)
          (renewed u) rows
          (λ row k.
            by_test (λ r. is_person source uuid r ≡ true) (row.id == found.id) (renewed u row) row
              (λ _. ground (arith, k)) (λ _. k))
          h)
]

upsert_all-stays :
    (source : IdentitySource) (l : List User) (uuid : Text) (rows : List UserRow)
    → exists_row (is_person source uuid) rows ≡ true
    → exists_row (is_person source uuid) (upsert_all source l rows) ≡ true
unfolding upsert_all
upsert_all-stays source [] uuid rows h = h
upsert_all-stays source (u ∷ l) uuid rows h =
    upsert_all-stays source l uuid (upsert_user source u rows).rows
      (upsert_user-stays source u uuid rows h)

upsert_all-person :
    (source : IdentitySource) (l : List User) (u : User) (rows : List UserRow)
    → Memᴰ u l
    → exists_row (is_person source u.source_uuid) (upsert_all source l rows) ≡ true
unfolding upsert_all
upsert_all-person source [] u rows m = elim m [ ]
upsert_all-person source (x ∷ l) u rows (Memᴰ.head e) =
    upsert_all-stays source l u.source_uuid (upsert_user source x rows).rows (
      subst
        (λ (y : User).
          exists_row (is_person source y.source_uuid) (upsert_user source x rows).rows ≡ true)
        (sym e) (upsert_user-person source x rows))
upsert_all-person source (x ∷ l) u rows (Memᴰ.tail m) =
    upsert_all-person source l u (upsert_user source x rows).rows m

uuids-contains : (l : List User) (u : User) → Memᴰ u l → contains u.source_uuid (uuids l) ≡ true
unfolding uuids contains
uuids-contains [] u m = elim m [ ]
uuids-contains (x ∷ l) u (Memᴰ.head e) =
    ground (
      arith,
      (text_eq_iff x.source_uuid u.source_uuid).1 (ap (λ (y : User). y.source_uuid) (sym e)),
    )
uuids-contains (x ∷ l) u (Memᴰ.tail m) = ground (arith, uuids-contains l u m)

mark_orphaned-person :
    (source : IdentitySource) (seen : List Text) (uuid : Text) (rows : List UserRow)
    → contains uuid seen ≡ true
    → exists_row (is_person source uuid) rows ≡ true
    → exists_row (is_person source uuid) (mark_orphaned source seen rows).1 ≡ true
unfolding mark_orphaned missing same_user
mark_orphaned-person source seen uuid rows s h =
    exists_row-update (is_person source uuid) (missing source seen)
      (λ row. record row { status = user_orphaned }) rows
      (λ row k.
        by_test (λ r. is_person source uuid r ≡ true) (missing source seen row) _ row
          (λ gone.
            let same : row.source_uuid ≡ uuid =
              (text_eq_iff row.source_uuid uuid).0 (ground (arith, k)) in
            let there : contains row.source_uuid seen ≡ true = ap (λ t. contains t seen) same ∙ s in
            absurd (ground (arith, gone, there)))
          (λ _. k))
      h

mark_orphaned-seen :
    (source : IdentitySource) (seen : List Text) (rows : List UserRow)
    → All
        (λ (row : UserRow).
          (source_eq row.source source && row_active row) ≡ true
          → contains row.source_uuid seen ≡ true)
        (mark_orphaned source seen rows).1
unfolding mark_orphaned missing update_where
mark_orphaned-seen source seen [] = tt
mark_orphaned-seen source seen (row ∷ rows) = (
  by_test
      (λ (r : UserRow).
        (source_eq r.source source && row_active r) ≡ true → contains r.source_uuid seen ≡ true)
      (missing source seen row) _ row (λ _ h. absurd (ground (arith, h)))
      (λ stays h. ground (arith, stays, h)),
  mark_orphaned-seen source seen rows,
)

-- After `ReplaceIdentity` every person of the snapshot is active under that source and uuid, and
-- every active person of the source is one of the snapshot.
pub replace_identity-active :
    (snap : IdentitySnapshot) (db stored : IdentityDb) (result : IdentityResult)
    → replace_identity snap db ≡ ok (result, stored)
    → All
        (λ (u : User). exists_row (is_person snap.source u.source_uuid) stored.users ≡ true)
        snap.users
      × All
          (λ (row : UserRow).
            (source_eq row.source snap.source && row_active row) ≡ true
            → contains row.source_uuid (uuids snap.users) ≡ true)
          stored.users
replace_identity-active snap db stored result h =
    let e = replace_identity-users snap db stored result h in
    (
      All_of_mem
          (λ (u : User). exists_row (is_person snap.source u.source_uuid) stored.users ≡ true)
          snap.users
          λ u m.
            subst (λ l. exists_row (is_person snap.source u.source_uuid) l ≡ true) (sym e)
              (mark_orphaned-person snap.source (uuids snap.users) u.source_uuid
                (upsert_all snap.source snap.users db.users) (uuids-contains snap.users u m)
                (upsert_all-person snap.source snap.users u db.users m)),
      subst
          (All (λ (row : UserRow).
            (source_eq row.source snap.source && row_active row) ≡ true
            → contains row.source_uuid (uuids snap.users) ≡ true))
          (sym e)
          (mark_orphaned-seen snap.source (uuids snap.users)
            (upsert_all snap.source snap.users db.users)),
    )
