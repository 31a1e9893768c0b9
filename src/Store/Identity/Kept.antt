-- ===== src/Store/Identity/Kept.antt =====
-- What becomes of the people that are stored.
use nuno.Prelude.{
  ℕ, suc, ◌==◌, ◌≡◌, refl, sym, subst, ap, ◌∙◌, inl, inr, Bool, true, false, some, List, [], ◌∷◌,
  ◌++◌, ok, Memᴰ, All, All_of_mem, ℕ_eq, Bool-cases, by_test, mem_append_left, mem_append_inv, ◌⊎◌,
  Option-cases, Result-cases, ltb, if◌then◌else◌, is_empty, arith,
}
use nuno.Prelude.Text.{Text, Text_eq}
use nuno.Prelude.Dict.{Dict}
use nuno.Prelude.Table.{
  next_id, next_id-fresh, update_where, update_where-mem, update_where-mem_inv,
}
use nuno.Core.Model.{IdentitySource, User, user_orphaned}
use nuno.Store.Identity.{
  UserRow, IdentityDb, IdentitySnapshot, IdentityResult, Stored, source_eq, same_user, find_user,
  renewed, new_user, upsert_user, missing, mark_orphaned, set_user_groups, store_groups, foreign,
  store_users, uuids, no_name, replace_identity,
}

-- The people after the loop.
unfoldable pub upsert_all : IdentitySource → List User → List UserRow → List UserRow
upsert_all source [] rows = rows
upsert_all source (u ∷ rest) rows = upsert_all source rest (upsert_user source u rows).rows

store_users-rows :
    (source : IdentitySource) (ids : Dict Text ℕ) (l : List User) (s t : Stored)
    → store_users source ids l s ≡ ok t
    → t.rows ≡ upsert_all source l s.rows
unfolding store_users upsert_all
store_users-rows source ids [] s t h = cc h
store_users-rows source ids (u ∷ l) s t h = elim (Bool-cases (is_empty u.source_uuid)) [
  | inl bad ↦ absurd (ground (arith, h, bad))
  | inr named ↦ elim (Bool-cases (foreign source)) [
    | inl bad ↦ absurd (ground (arith, h, named, bad))
    | inr own ↦
        elim (Result-cases
          (set_user_groups (upsert_user source u s.rows).id u.group_uuids ids s.memberships)) [
            | inr (why, bad) ↦ absurd (ground (arith, h, named, own, bad))
            | inl (m, good) ↦
                store_users-rows source ids l
                  (record {
                    restored =
                        if (upsert_user source u s.rows).restored
                        then suc s.restored
                        else s.restored;
                    rows = (upsert_user source u s.rows).rows;
                    memberships = m;
                  })
                  t (ground (arith, h, named, own, good))
          ]
  ]
]

-- The people that a snapshot leaves.
pub replace_identity-users :
    (snap : IdentitySnapshot) (db stored : IdentityDb) (result : IdentityResult)
    → replace_identity snap db ≡ ok (result, stored)
    → stored.users
      ≡ (mark_orphaned snap.source
          (uuids snap.users)
          (upsert_all snap.source snap.users db.users)).1
unfolding replace_identity
replace_identity-users snap db stored result h = elim (Bool-cases (no_name snap.source)) [
  | inl bad ↦ absurd (ground (arith, h, bad))
  | inr named ↦ elim (Result-cases (store_groups snap.source snap.groups [] db.groups)) [
    | inr (why, bad) ↦ absurd (ground (arith, h, named, bad))
    | inl (groups, g) ↦
        let start : Stored = record {
          restored = 0;
          rows = db.users;
          memberships = db.memberships;
        } in
        elim (Result-cases (store_users snap.source groups.0 snap.users start)) [
          | inr (why, bad) ↦ absurd (ground (arith, h, named, g, bad))
          | inl (users, e) ↦
              let same : (mark_orphaned snap.source (uuids snap.users) users.rows).1
                  ≡ stored.users =
                ground (arith, h, named, g, e) in
              sym same
              ∙ ap (λ rows. (mark_orphaned snap.source (uuids snap.users) rows).1)
                  (store_users-rows snap.source groups.0 snap.users start users e)
        ]
  ]
]

pub find_user-some :
    (source : IdentitySource) (uuid : Text) (rows : List UserRow) (found : UserRow)
    → find_user source uuid rows ≡ some found
    → Memᴰ found rows × (same_user source uuid found ≡ true)
unfolding find_user
find_user-some source uuid [] found h = absurd (cc h)
find_user-some source uuid (row ∷ rest) found h = elim (Bool-cases (same_user source uuid row)) [
  | inl same ↦
      let e : row ≡ found = ground (arith, h, same) in
      (Memᴰ.head (sym e), subst (λ r. same_user source uuid r ≡ true) e same)
  | inr other ↦
      let (m, same) = find_user-some source uuid rest found (ground (arith, h, other)) in
      (Memᴰ.tail m, same)
]

other_source :
    (source : IdentitySource) (u : User) (row : UserRow)
    → same_user source u.source_uuid row ≡ true
    → source_eq row.source source ≡ false
    → ⊥
unfolding same_user
other_source source u row h n = absurd (ground (arith, h, n))

-- No two rows have one id.
abbrev pub HasIds : List UserRow → Type 0
HasIds rows = (a b : UserRow) → Memᴰ a rows → Memᴰ b rows → a.id ≡ b.id → a ≡ b

-- A row of the same person; of another source, the same row.
pub record IsSame (source : IdentitySource) (old row : UserRow) : Type 0 where
  pub id : old.id ≡ row.id
  pub of_source : old.source ≡ row.source
  pub source_uuid : old.source_uuid ≡ row.source_uuid
  pub untouched : source_eq old.source source ≡ false → old ≡ row

-- Each row is still there.
abbrev pub AreKept : IdentitySource → List UserRow → List UserRow → Type 0
AreKept source rows later =
    (old : UserRow) → Memᴰ old rows → (row : UserRow) × Memᴰ row later × IsSame source old row

IsSame-refl : (source : IdentitySource) (row : UserRow) → IsSame source row row
IsSame-refl source row = record {
  id = refl;
  of_source = refl;
  source_uuid = refl;
  untouched = λ _. refl;
}

IsSame-trans :
    (source : IdentitySource) (a b c : UserRow)
    → IsSame source a b
    → IsSame source b c
    → IsSame source a c
IsSame-trans source a b c h k = record {
  id = h.id ∙ k.id;
  of_source = h.of_source ∙ k.of_source;
  source_uuid = h.source_uuid ∙ k.source_uuid;
  untouched =
      λ n. h.untouched n ∙ k.untouched (subst (λ s. source_eq s source ≡ false) h.of_source n);
}

AreKept-update :
    (source : IdentitySource) (test : UserRow → Bool) (change : UserRow → UserRow)
    (rows : List UserRow)
    → ((row : UserRow) → Memᴰ row rows → test row ≡ true → IsSame source row (change row))
    → AreKept source rows (update_where test change rows)
AreKept-update source test change rows f old m = (
  _,
  update_where-mem test change rows old m,
  by_test (IsSame source old) (test old) (change old) old (f old m) (λ _. IsSame-refl source old),
)

-- A person is appended, or the rows of the id that was found are renewed.
pub upsert_user-cases :
    (source : IdentitySource) (u : User) (rows : List UserRow)
    → ((upsert_user source u rows).rows
        ≡ rows ++ (new_user (next_id (λ (row : UserRow). row.id) rows) source u ∷ []))
      ⊎ ((found : UserRow) × Memᴰ found rows
          × (same_user source u.source_uuid found ≡ true)
          × ((upsert_user source u rows).rows
              ≡ update_where (λ (row : UserRow). row.id == found.id) (renewed u) rows))
unfolding upsert_user
upsert_user-cases source u rows = elim (Option-cases (find_user source u.source_uuid rows)) [
  | inl new ↦ inl (rw (new, upsert_user) refl)
  | inr (found, e) ↦
      let (there, same) = find_user-some source u.source_uuid rows found e in
      inr (found, there, same, rw (e, upsert_user) refl)
]

renewed-IsSame :
    (source : IdentitySource) (u : User) (rows : List UserRow) (found row : UserRow)
    → HasIds rows
    → Memᴰ found rows
    → same_user source u.source_uuid found ≡ true
    → Memᴰ row rows
    → (row.id == found.id) ≡ true
    → IsSame source row (renewed u row)
unfolding renewed
renewed-IsSame source u rows found row single there same m hit = record {
  id = refl;
  of_source = refl;
  source_uuid = refl;
  untouched = λ n.
      let is_found : row ≡ found =
        single row found m there ((ℕ_eq.same_iff row.id found.id).0 hit) in
      absurd (
        other_source source u found same
          (subst (λ (r : UserRow). source_eq r.source source ≡ false) is_found n));
}

upsert_user-AreKept :
    (source : IdentitySource) (u : User) (rows : List UserRow)
    → HasIds rows
    → AreKept source rows (upsert_user source u rows).rows
upsert_user-AreKept source u rows single = elim (upsert_user-cases source u rows) [
  | inl e ↦
      subst (AreKept source rows) (sym e)
        (λ old m. (old, mem_append_left rows _ m, IsSame-refl source old))
  | inr (found, there, same, e) ↦ subst (AreKept source rows) (sym e) (
      AreKept-update source (λ (row : UserRow). row.id == found.id) (renewed u) rows
        (λ row m hit. renewed-IsSame source u rows found row single there same m hit))
]

-- An update that keeps the ids.
HasIds-update :
    (test : UserRow → Bool) (change : UserRow → UserRow) (rows : List UserRow)
    → ((row : UserRow) → (change row).id ≡ row.id)
    → HasIds rows
    → HasIds (update_where test change rows)
HasIds-update test change rows f single a b m n same =
    let (x, k, e) = update_where-mem_inv test change rows a m in
    let (y, l, d) = update_where-mem_inv test change rows b n in
    let ids = kept x in
    let equal : x ≡ y = single x y k l (
      sym (kept x)
      ∙ (sym (ap (λ (r : UserRow). r.id) e) ∙ (same ∙ (ap (λ (r : UserRow). r.id) d ∙ kept y)))) in
    e ∙ (ap (λ r. if test r then change r else r) equal ∙ sym d)
  where
    kept : (r : UserRow) → (if test r then change r else r).id ≡ r.id
    kept r = by_test (λ (q : UserRow). q.id ≡ r.id) (test r) (change r) r (λ _. f r) (λ _. refl)

pub HasIds-append :
    (rows : List UserRow) (row : UserRow)
    → ((old : UserRow) → Memᴰ old rows → ltb old.id row.id ≡ true)
    → HasIds rows
    → HasIds (rows ++ (row ∷ []))
HasIds-append rows row above single a b m n same = elim (mem_append_inv rows (row ∷ []) m) [
  | inl k ↦ elim (mem_append_inv rows (row ∷ []) n) [
    | inl l ↦ single a b k l same
    | inr (Memᴰ.head e) ↦ absurd (ground (arith, above a k, same, ap (λ (r : UserRow). r.id) e))
    | inr (Memᴰ.tail j) ↦ elim j [ ]
  ]
  | inr (Memᴰ.head e) ↦ elim (mem_append_inv rows (row ∷ []) n) [
    | inl l ↦ absurd (ground (arith, above b l, same, ap (λ (r : UserRow). r.id) e))
    | inr (Memᴰ.head d) ↦ e ∙ sym d
    | inr (Memᴰ.tail k) ↦ elim k [ ]
  ]
  | inr (Memᴰ.tail k) ↦ elim k [ ]
]

upsert_user-HasIds :
    (source : IdentitySource) (u : User) (rows : List UserRow)
    → HasIds rows
    → HasIds (upsert_user source u rows).rows
unfolding renewed new_user
upsert_user-HasIds source u rows single = elim (upsert_user-cases source u rows) [
  | inl e ↦ subst HasIds (sym e) (
      HasIds-append rows (new_user (next_id (λ (row : UserRow). row.id) rows) source u)
        (next_id-fresh (λ (row : UserRow). row.id) rows) single)
  | inr (found, there, same, e) ↦
      subst HasIds (sym e) (
        HasIds-update (λ (row : UserRow). row.id == found.id) (renewed u) rows (λ row. refl) single)
]

upsert_all-AreKept :
    (source : IdentitySource) (l : List User) (rows : List UserRow)
    → HasIds rows
    → AreKept source rows (upsert_all source l rows)
unfolding upsert_all
upsert_all-AreKept source [] rows single old m = (old, m, IsSame-refl source old)
upsert_all-AreKept source (u ∷ l) rows single old m =
    let (row, n, h) = upsert_user-AreKept source u rows single old m in
    let (last, k, j) =
      upsert_all-AreKept source l (upsert_user source u rows).rows
        (upsert_user-HasIds source u rows single) row n in
    (last, k, IsSame-trans source old row last h j)

mark_orphaned-AreKept :
    (source : IdentitySource) (seen : List Text) (rows : List UserRow)
    → AreKept source rows (mark_orphaned source seen rows).1
unfolding mark_orphaned missing
mark_orphaned-AreKept source seen rows =
    AreKept-update source (missing source seen) (λ row. record row { status = user_orphaned }) rows
      λ row m hit. record {
        id = refl;
        of_source = refl;
        source_uuid = refl;
        untouched = λ n. absurd (ground (arith, hit, n));
      }

-- `ReplaceIdentity` keeps a row with the id, the source and the uuid of every person that was
-- stored, and leaves every person of another source exactly as it was, where the ids are unique.
pub replace_identity-IsSame :
    (snap : IdentitySnapshot) (db stored : IdentityDb) (result : IdentityResult)
    → HasIds db.users
    → replace_identity snap db ≡ ok (result, stored)
    → All (λ old. (row : UserRow) × Memᴰ row stored.users × IsSame snap.source old row) db.users
replace_identity-IsSame snap db stored result single h =
    All_of_mem (λ old. (row : UserRow) × Memᴰ row stored.users × IsSame snap.source old row)
      db.users
      (subst (AreKept snap.source db.users) (sym (replace_identity-users snap db stored result h))
        λ old m.
          let (row, n, k) = upsert_all-AreKept snap.source snap.users db.users single old m in
          let (last, j, e) =
            mark_orphaned-AreKept snap.source (uuids snap.users)
              (upsert_all snap.source snap.users db.users) row n in
          (last, j, IsSame-trans snap.source old row last k e))
