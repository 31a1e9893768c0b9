-- ===== src/Core/Resolve/Effective.antt =====
-- The budget that is reported for a person: `EffectiveBudget` of internal/core/resolve.go against
-- an exact sum.
use nuno.Prelude.{
  ℕ, ◌+◌, ◌^◌, ◌<◌, ◌≡◌, refl, ◌∙◌, Bool, true, false, ◌||◌, ◌&&◌, none, some, List, [], ◌∷◌, All,
  arith, ok, if◌then◌else◌, Bool-cases, inl, inr,
}
use nuno.Prelude.Int.{ℤ, pos, negsuc, pos_part, add64, add64-pos}
use nuno.Core.Quota.{
  Quota, QuotaKind, kind_bytes, unknown, unlimited, valid, bytes_quota, is_unlimited, is_bytes,
}
use nuno.Core.Resolve.{Resolution, add_ceilings, effective_budget}

abbrev pub is_lifted : Resolution → Bool
is_lifted r = r.present && is_unlimited r.ceiling

abbrev pub is_counted : Resolution → Bool
is_counted r = r.present && is_bytes r.ceiling

abbrev pub any_lifted : List Resolution → Bool
any_lifted [] = false
any_lifted (r ∷ rest) = is_lifted r || any_lifted rest

abbrev pub any_counted : List Resolution → Bool
any_counted [] = false
any_counted (r ∷ rest) = is_counted r || any_counted rest

abbrev pub counted : Resolution → ℕ
counted r = if is_counted r then pos_part r.ceiling.bytes else 0

abbrev pub counted_total : List Resolution → ℕ
counted_total [] = 0
counted_total (r ∷ rest) = counted r + counted_total rest

-- Everything, if a ceiling is lifted; the exact sum, if one is in bytes; otherwise unknown.
abbrev pub stated_budget : List Resolution → Quota
stated_budget rs =
    if any_lifted rs
    then unlimited
    else if any_counted rs
    then record { kind = kind_bytes; bytes = pos (counted_total rs) }
    else unknown

abbrev HasValid : Resolution → Type 0
HasValid r = valid r.ceiling ≡ ok tt

add_valid :
    (k : QuotaKind) (b : ℤ) (n : ℕ)
    → let q : Quota = record { kind = k; bytes = b } in
      valid q ≡ ok tt
      → is_bytes q ≡ true
      → n + pos_part b < 2 ^ 63
      → add64 (pos n) b ≡ pos (n + pos_part b)
unfolding valid is_bytes
add_valid kind_bytes (pos m) n v e h = add64-pos n m h
add_valid kind_bytes (negsuc m) n v e h = ground arith
add_valid _ b n v e h = cc

add_ceilings_step :
    (n : ℕ) (found : Bool) (r : Resolution) (rs : List Resolution)
    → HasValid r
    → n + counted r < 2 ^ 63
    → add_ceilings (pos n) found (r ∷ rs) ≡ (
        if is_lifted r then none else add_ceilings (pos (n + counted r)) (found || is_counted r) rs)
unfolding add_ceilings
add_ceilings_step n found r rs v h = elim (Bool-cases r.present) [
  | inr away ↦ rw (away, add_ceilings) (ground arith)
  | inl here ↦ elim (Bool-cases (is_unlimited r.ceiling)) [
    | inl top ↦ rw (here, top, add_ceilings) (ground arith)
    | inr low ↦ elim (Bool-cases (is_bytes r.ceiling)) [
      | inl bytes ↦
          let sum : add64 (pos n) r.ceiling.bytes ≡ pos (n + pos_part r.ceiling.bytes) =
            add_valid r.ceiling.kind r.ceiling.bytes n v bytes (ground arith) in
          rw (here, low, bytes, sum, add_ceilings) (ground arith)
      | inr other ↦ rw (here, low, other, add_ceilings) (ground arith)
    ]
  ]
]

add_ceilings-pos :
    (n : ℕ) (found : Bool) (rs : List Resolution)
    → All HasValid rs
    → n + counted_total rs < 2 ^ 63
    → add_ceilings (pos n) found rs
      ≡ (if any_lifted rs then none else some (pos (n + counted_total rs), found || any_counted rs))
add_ceilings-pos n found [] v h = unfold add_ceilings in ground arith
add_ceilings-pos n found (r ∷ rs) (v, vs) h =
    add_ceilings_step n found r rs v (omega arith) ∙ elim (Bool-cases (is_lifted r)) [
      | inl top ↦ rw top refl
      | inr low ↦ rw low (
          add_ceilings-pos (n + counted r) (found || is_counted r) rs vs (omega arith)
          ∙ ground arith)
    ]

-- The reported budget is unlimited if a ceiling that is present is; else the exact sum of those in
-- bytes, if there is one; else unknown. The ceilings have to be valid, and their sum has to fit an
-- int64.
pub effective_budget-exact :
    (rs : List Resolution)
    → All HasValid rs
    → counted_total rs < 2 ^ 63
    → effective_budget rs ≡ stated_budget rs
unfolding effective_budget bytes_quota
effective_budget-exact rs v h = rw (add_ceilings-pos 0 false rs v (omega arith)) (ground arith)
