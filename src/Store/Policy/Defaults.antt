-- ===== src/Store/Policy/Defaults.antt =====
-- At most one tier is the default.
use nuno.Prelude.{
  ℕ, ◌==◌, ◌≡◌, refl, sym, subst, ap, ◌∙◌, inl, inr, true, false, ◌&&◌, Option, none, some, List,
  [], ◌∷◌, ◌++◌, ok, Result-cases, All, All-append, Bool-cases, ℕ_eq, arith,
}
use nuno.Prelude.Table.{next_id, exists_row, update_where, delete_where}
use nuno.Core.Policy.{Tier, validate}
use nuno.Store.Policy.{
  TierRow, AllocationRow, PolicyDb, other_default, put_tier, find_tier, insert_allocations,
  tier_refused, save_tier, set_default_tier,
}

-- A default tier has that id.
abbrev pub IsSole : ℕ → List TierRow → Type 0
IsSole id rows = All (λ (row : TierRow). row.is_default ≡ true → row.id ≡ id) rows

-- No two tiers are the default.
abbrev pub HasOneDefault : PolicyDb → Type 0
HasOneDefault db = (id : ℕ) × IsSole id db.tiers

abbrev ids : TierRow → ℕ
ids row = row.id

moved :
    (id : ℕ) (rows : List TierRow)
    → All
        (λ (row : TierRow). row.is_default ≡ (row.id == id))
        (update_where
          (λ (row : TierRow). row.id == id)
          (λ row. record row { is_default = true })
          (update_where
            (λ (row : TierRow). row.is_default)
            (λ row. record row { is_default = false })
            rows))
unfolding update_where
moved id [] = tt
moved id (row ∷ rows) = (ground arith, moved id rows)

still_there :
    (id : ℕ) (rows : List TierRow)
    → exists_row (λ (row : TierRow). row.id == id) rows ≡ true
    → exists_row
        (λ (row : TierRow). row.id == id && row.is_default)
        (update_where
          (λ (row : TierRow). row.id == id)
          (λ row. record row { is_default = true })
          rows)
      ≡ true
unfolding exists_row update_where
still_there id [] h = h
still_there id (row ∷ rows) h = ground (arith, h, still_there id rows)

-- After `SetDefaultTier` there is a tier of that id which is the default, and no other is.
pub set_default_tier_lem :
    (id : ℕ) (db stored : PolicyDb)
    → set_default_tier id db ≡ ok stored
    → (exists_row (λ (row : TierRow). row.id == id && row.is_default) stored.tiers ≡ true)
      × All (λ (row : TierRow). row.is_default ≡ (row.id == id)) stored.tiers
unfolding set_default_tier
set_default_tier_lem id db stored h =
    let cleared =
      update_where (λ (row : TierRow). row.is_default) (λ row. record row { is_default = false })
        db.tiers in
    elim (Bool-cases (exists_row (λ (row : TierRow). row.id == id) cleared)) [
      | inr n ↦ absurd (ground (arith, h, n))
      | inl y ↦
          let same : update_where (λ (row : TierRow). row.id == id)
                (λ row. record row { is_default = true }) cleared
              ≡ stored.tiers =
            ground (arith, h, y) in
          (
            ap (exists_row (λ (row : TierRow). row.id == id && row.is_default)) (sym same)
                ∙ still_there id cleared y,
            subst (All (λ (row : TierRow). row.is_default ≡ (row.id == id))) same
                (moved id db.tiers),
          )
    ]

no_other :
    (id : ℕ) (rows : List TierRow) → exists_row (other_default id) rows ≡ false → IsSole id rows
unfolding exists_row other_default
no_other id [] h = tt
no_other id (row ∷ rows) h = (
  (λ d. (ℕ_eq.same_iff row.id id).0 (ground (arith, h, d))),
  no_other id rows (ground (arith, h)),
)

updated-IsSole :
    (id k : ℕ) (t : Tier) (rows : List TierRow)
    → IsSole k rows
    → (t.is_default ≡ true → id ≡ k)
    → IsSole k (
        update_where
          (λ (row : TierRow). row.id == id)
          (λ row. record row { budget = t.budget; is_default = t.is_default })
          rows)
unfolding update_where
updated-IsSole id k t [] h f = tt
updated-IsSole id k t (row ∷ rows) (h, hs) f = (
  (λ d. elim (Bool-cases (row.id == id)) [
    | inl y ↦ ground (arith, d, f, (ℕ_eq.same_iff row.id id).0 y, y)
    | inr n ↦ ground (arith, d, h, n)
  ]),
  updated-IsSole id k t rows hs f,
)

put_tier-IsSole :
    (t : Tier) (o : Option ℕ) (rows stored : List TierRow) (n k : ℕ)
    → put_tier t o rows ≡ ok (n, stored)
    → IsSole k rows
    → (id : ℕ) × IsSole id stored
unfolding put_tier
put_tier-IsSole t none rows stored n k e h = elim (Bool-cases t.is_default) [
  | inl d ↦ elim (Bool-cases (exists_row (other_default (next_id ids rows)) rows)) [
    | inl bad ↦ absurd (ground (arith, e, d, bad))
    | inr free ↦
        let same : rows
              ++ (record {
                id = next_id ids rows;
                name = t.name;
                budget = t.budget;
                is_default = t.is_default;
              }
                  ∷ [])
            ≡ stored =
          ground (arith, e, d, free) in
        (
          next_id ids rows,
          subst (IsSole (next_id ids rows)) same (
              All-append (λ (row : TierRow). row.is_default ≡ true → row.id ≡ next_id ids rows) rows
                _ (no_other (next_id ids rows) rows free) ((λ _. refl), tt)),
        )
  ]
  | inr d ↦
      let same : rows
            ++ (record {
              id = next_id ids rows;
              name = t.name;
              budget = t.budget;
              is_default = t.is_default;
            }
                ∷ [])
          ≡ stored =
        ground (arith, e, d) in
      (
        k,
        subst (IsSole k) same (
            All-append (λ (row : TierRow). row.is_default ≡ true → row.id ≡ k) rows _ h
              ((λ y. absurd (cc (y, d))), tt)),
      )
]
put_tier-IsSole t (some id) rows stored n k e h = elim (Bool-cases t.is_default) [
  | inl d ↦ elim (Bool-cases (exists_row (other_default id) rows)) [
    | inl bad ↦ absurd (ground (arith, e, d, bad))
    | inr free ↦
        let same : update_where (λ (row : TierRow). row.id == id)
              (λ row. record row { budget = t.budget; is_default = t.is_default }) rows
            ≡ stored =
          ground (arith, e, d, free) in
        (
          id,
          subst (IsSole id) same (updated-IsSole id id t rows (no_other id rows free) (λ _. refl)),
        )
  ]
  | inr d ↦
      let same : update_where (λ (row : TierRow). row.id == id)
            (λ row. record row { budget = t.budget; is_default = t.is_default }) rows
          ≡ stored =
        ground (arith, e, d) in
      (k, subst (IsSole k) same (updated-IsSole id k t rows h (λ y. absurd (cc (y, d)))))
]

-- A tier that `SaveTier` stores is valid, and leaves at most one default.
pub save_tier-HasOneDefault :
    (t : Tier) (db stored : PolicyDb) (id : ℕ)
    → save_tier t db ≡ ok (id, stored)
    → HasOneDefault db
    → (validate t ≡ ok tt) × HasOneDefault stored
unfolding save_tier tier_refused
save_tier-HasOneDefault t db stored id e (k, h) = elim (Result-cases (validate t)) [
  | inr (why, bad) ↦ absurd (ground (arith, e, bad))
  | inl (u, valid) ↦ elim (Result-cases (put_tier t (find_tier t.name db.tiers) db.tiers)) [
    | inr (why, bad) ↦ absurd (ground (arith, e, valid, bad))
    | inl (put, p) ↦
        elim (Result-cases (
          insert_allocations put.0 t.allocations
            (delete_where (λ (r : AllocationRow). r.tier_id == put.0) db.allocations))) [
              | inr (why, bad) ↦ absurd (ground (arith, e, valid, p, bad))
              | inl (rows, q) ↦
                  let same : put.1 ≡ stored.tiers = ground (arith, e, valid, p, q) in
                  (
                    valid,
                    put_tier-IsSole t (find_tier t.name db.tiers) db.tiers stored.tiers put.0 k
                        (subst
                          (λ r. put_tier t (find_tier t.name db.tiers) db.tiers ≡ ok (put.0, r))
                          same p)
                        h,
                  )
            ]
  ]
]
