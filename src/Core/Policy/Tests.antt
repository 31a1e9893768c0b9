-- ===== src/Core/Policy/Tests.antt =====
-- Runs of the tiers, and each theorem at a tier that meets its hypotheses.

use nuno.Prelude.{
  ℕ, ◌≡◌, refl, ◌*◌, ◌^◌, ◌≤◌, ◌<◌, ◌↔◌, true, false, [], ◌∷◌, Memᴰ, arith, ok, err, contains,
}
use nuno.Prelude.Int.{pos, wrap64, add64, sub64, mul64, quot, ◌+ℤ◌, ◌-ℤ◌, ◌*ℤ◌}
use nuno.Prelude.Text.{codes, text_eq, trim_space}
use nuno.Core.Quota.{unknown, valid, is_known, is_bytes, bytes_quota}
use nuno.Core.Policy.{
  Allocation, Tier, mode_absolute, mode_percent, two_allocations, validate, check_allocations,
  mode_valid, overcommitted, sum_percent, allocation_for, first_offer, by_mode, percent_of,
  remaining,
}
use nuno.Core.Policy.Validation.{IsHonest, absolute_total, validate_iff, validate_overflow}
use nuno.Core.Policy.Ceilings.{valid-allocation_for, allocation_for_overflow}
use nuno.Core.Policy.Stated.{bytes_of, stated_offer, allocation_for-mem}
use nuno.Core.Policy.Budget.{granted_total, granted_total-le-budget}

abbrev absolute : ℕ → ℕ → Allocation
absolute p n = record { provider_id = p; mode = mode_absolute; value = pos n }

abbrev percent : ℕ → ℕ → Allocation
percent p n = record { provider_id = p; mode = mode_percent; value = pos n }

-- 1000 bytes: 100 of them for provider 1, a quarter of the rest for 2, the rest for 3.
abbrev family : Tier
family = record {
  id = 7;
  name = codes " family ";
  budget = bytes_of 1000;
  is_default = false;
  allocations = absolute 1 100 ∷ percent 2 25 ∷ percent 3 75 ∷ [];
}

family-validate : validate family ≡ ok tt
unfolding validate check_allocations mode_valid contains text_eq trim_space valid is_bytes add64
    wrap64 ◌+ℤ◌
family-validate = refl

family-percent : allocation_for family 2 ≡ (bytes_of 225, true)
unfolding allocation_for first_offer by_mode percent_of remaining is_bytes bytes_quota sub64 mul64
    quot wrap64 ◌-ℤ◌ ◌*ℤ◌
family-percent = refl

twice-validate :
    validate (record family { allocations = absolute 1 100 ∷ percent 1 25 ∷ [] })
    ≡ err (two_allocations 1)
unfolding validate check_allocations mode_valid contains text_eq trim_space valid is_bytes add64
    wrap64 ◌+ℤ◌
twice-validate = refl

family-fits : absolute_total family.allocations < 2 ^ 63
family-fits = omega arith

family-IsHonest : IsHonest family
family-IsHonest = (validate_iff family family-fits).0 family-validate

family-overcommitted : overcommitted family ≡ false
unfolding overcommitted sum_percent add64 wrap64 ◌+ℤ◌
family-overcommitted = refl

validate_iff_example : (validate family ≡ ok tt) ↔ IsHonest family
validate_iff_example = validate_iff family family-fits

valid-allocation_for_example :
    (valid (allocation_for family 2).0 ≡ ok tt)
    × ((allocation_for family 2).1 ≡ is_known (allocation_for family 2).0)
valid-allocation_for_example = valid-allocation_for family 2

allocation_for-mem_example :
    allocation_for family 2 ≡ stated_offer family 1000 mode_percent (pos 25)
allocation_for-mem_example =
    allocation_for-mem family 1000 (percent 2 25) family-IsHonest refl (omega arith)
      (Memᴰ.tail (Memᴰ.head refl))

granted_total-le-budget_example : granted_total family family.allocations ≤ 1000
granted_total-le-budget_example =
    granted_total-le-budget family 1000 family-IsHonest refl (omega arith) (omega arith)
      family-overcommitted

-- 100 PiB, all of it for one provider.
abbrev huge : Tier
huge = record family { budget = bytes_of (100 * 2 ^ 50); allocations = percent 4 100 ∷ [] }

allocation_for_overflow_example : allocation_for huge 4 ≡ (unknown, false)
allocation_for_overflow_example =
    allocation_for_overflow huge 4 (100 * 2 ^ 50) refl refl (omega arith) (omega arith)

abbrev greedy : Tier
greedy = record family { allocations = absolute 1 (2 ^ 62) ∷ absolute 2 (2 ^ 62) ∷ [] }

greedy-named : text_eq (trim_space greedy.name) [] ≡ false
unfolding text_eq trim_space
greedy-named = refl

validate_overflow_example : validate greedy ≡ ok tt
validate_overflow_example =
    validate_overflow greedy 1 2 (2 ^ 62) (2 ^ 62) 1000 greedy-named (omega arith) refl refl
      (omega arith) (omega arith) (omega arith)
