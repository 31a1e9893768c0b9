-- ===== src/Core/Policy/Budget.antt =====
-- A tier that is not over-committed never hands out more than its budget: `Overcommitted` and
-- `AllocationFor` of internal/core/policy.go together.
use native.Mathlib.Nat.{mul-le-mul_left}
use nuno.Prelude.{
  ℕ, ◌+◌, ◌-◌, ◌*◌, ◌^◌, ◌≤◌, ◌<◌, ◌≡◌, ◌∙◌, refl, false, List, [], ◌∷◌, All, Memᴰ, arith,
}
use nuno.Prelude.Int.{ℤ, pos, negsuc, pos_part, add64-pos}
use nuno.Core.Policy.{
  AllocationMode, mode_absolute, mode_percent, mode_unlimited, mode_other, Allocation, Tier,
  sum_percent, overcommitted, allocation_for,
}
use nuno.Core.Policy.Validation.{absolute_part, absolute_total, IsSane, IsSaneAllocation, IsHonest}
use nuno.Core.Policy.Stated.{bytes_of, stated_offer, within_bytes, allocation_for-mem}

abbrev percent_part : AllocationMode → ℤ → ℕ
percent_part mode_percent v = pos_part v
percent_part _ v = 0

abbrev pub percent_total : List Allocation → ℕ
percent_total [] = 0
percent_total (a ∷ rest) = percent_part a.mode a.value + percent_total rest

sum_percent_step :
    (p : ℕ) (m : AllocationMode) (v : ℤ) (l : List Allocation) (n : ℕ)
    → IsSane m v
    → n + percent_part m v < 2 ^ 63
    → sum_percent (pos n) (record { provider_id = p; mode = m; value = v } ∷ l)
      ≡ sum_percent (pos (n + percent_part m v)) l
unfolding sum_percent
sum_percent_step p mode_percent (pos k) l n s h = ground (arith, add64-pos n k h)
sum_percent_step p mode_percent (negsuc k) l n s h = absurd s
sum_percent_step p mode_absolute v l n s h = ground arith
sum_percent_step p mode_unlimited v l n s h = ground arith
sum_percent_step p (mode_other x) v l n s h = absurd s

sum_percent-pos :
    (n : ℕ) (l : List Allocation)
    → All IsSaneAllocation l
    → n + percent_total l < 2 ^ 63
    → sum_percent (pos n) l ≡ pos (n + percent_total l)
sum_percent-pos n [] s h = unfold sum_percent in ground arith
sum_percent-pos n (a ∷ l) (s, ss) h =
    sum_percent_step a.provider_id a.mode a.value l n s (omega arith)
    ∙ sum_percent-pos (n + percent_part a.mode a.value) l ss (omega arith)
    ∙ ground arith

-- The byte ceiling that a tier sets for one provider; 0 where it sets none or lifts it.
abbrev pub granted : Tier → ℕ → ℕ
granted t p = pos_part (allocation_for t p).0.bytes

abbrev pub granted_total : Tier → List Allocation → ℕ
granted_total t [] = 0
granted_total t (a ∷ rest) = granted t a.provider_id + granted_total t rest

abbrev stated_bytes : Tier → ℕ → AllocationMode → ℤ → ℕ
stated_bytes t b m v = pos_part (stated_offer t b m v).0.bytes

-- A hundred times what is stated is at most a hundred times the absolute part and the rest's
-- percentage.
stated_bytes-le :
    (t : Tier) (b : ℕ) (m : AllocationMode) (v : ℤ)
    → 100 * stated_bytes t b m v
      ≤ 100 * absolute_part m v + (b - absolute_total t.allocations) * percent_part m v
stated_bytes-le t b mode_absolute v = omega arith
stated_bytes-le t b mode_percent v = omega arith
stated_bytes-le t b mode_unlimited v = omega arith
stated_bytes-le t b (mode_other s) v = omega arith

module _ (t : Tier) (b : ℕ) (h : IsHonest t) (e : t.budget ≡ bytes_of b)
    (k : b * 100 < 2 ^ 63) where
  granted-le :
      (a : Allocation)
      → Memᴰ a t.allocations
      → 100 * granted t a.provider_id
        ≤ 100 * absolute_part a.mode a.value
          + (b - absolute_total t.allocations) * percent_part a.mode a.value
  granted-le a m = rw (allocation_for-mem t b a h e k m) (stated_bytes-le t b a.mode a.value)

  granted_total-le :
      (l : List Allocation)
      → ((a : Allocation) → Memᴰ a l → Memᴰ a t.allocations)
      → 100 * granted_total t l
        ≤ 100 * absolute_total l + (b - absolute_total t.allocations) * percent_total l
  granted_total-le [] inside = omega arith
  granted_total-le (a ∷ l) inside = omega (
    arith,
    granted-le a (inside a (Memᴰ.head refl)),
    granted_total-le l (λ c m. inside c (Memᴰ.tail m)),
  )

-- The byte ceilings of an honest tier with a budget in bytes that is not over-committed add up to at
-- most its budget. A hundred times the budget, and the sum of the percentages, have to fit an int64.
pub granted_total-le-budget :
    (t : Tier) (b : ℕ)
    → IsHonest t
    → t.budget ≡ bytes_of b
    → b * 100 < 2 ^ 63
    → percent_total t.allocations < 2 ^ 63
    → overcommitted t ≡ false
    → granted_total t t.allocations ≤ b
granted_total-le-budget t b h e k p o =
    let few : percent_total t.allocations ≤ 100 =
      unfold overcommitted in
      ground (arith, sum_percent-pos 0 t.allocations h.sane (omega arith)) in
    omega (
      arith,
      granted_total-le t b h e k t.allocations (λ a m. m),
      within_bytes t b h e,
      mul-le-mul_left (b - absolute_total t.allocations) few,
    )
