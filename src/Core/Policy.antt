-- ===== src/Core/Policy.antt =====
-- internal/core/policy.go: tiers and what they allocate. An allocation mode is a string, so a mode
-- outside the three named ones can be read back: `mode_other`. Byte counts are int64s, with the
-- wrap-around of their sums, differences and products written out.
pub mod Validation
pub mod Ceilings
pub mod Stated
pub mod Budget
mod Tests
use nuno.Prelude.{
  ℕ, Bool, true, false, not, ◌&&◌, ◌||◌, List, [], ◌∷◌, Result, ok, err, ◌>>=◌, ◌>>◌, refuse_if,
  ◌==◌, contains, if◌then◌else◌, ℕ_eq,
}
use nuno.Prelude.Int.{ℤ, pos, ltb_ℤ, add64, sub64, mul64, quot}
use nuno.Prelude.Text.{Text, trim_space, text_eq}
use nuno.Core.Quota.{Quota, QuotaError, unknown, unlimited, bytes_quota, valid, is_bytes}

pub data AllocationMode : Type 0 where
  mode_absolute mode_percent mode_unlimited : AllocationMode
  mode_other : Text → AllocationMode

-- `AllocationMode.Valid`
unfoldable pub mode_valid : AllocationMode → Bool
mode_valid (mode_other s) = false
mode_valid _ = true

pub record Allocation : Type 0 where
  pub provider_id : ℕ
  pub mode : AllocationMode
  pub value : ℤ

pub record Tier : Type 0 where
  pub id : ℕ
  pub name : Text
  pub budget : Quota
  pub is_default : Bool
  pub allocations : List Allocation

pub data TierError : Type 0 where
  no_name : TierError
  bad_budget : QuotaError → TierError
  unknown_mode : AllocationMode → TierError
  two_allocations : ℕ → TierError
  negative_allocation : TierError
  bad_percent : ℤ → TierError
  percent_without_budget : Quota → TierError
  over_budget : ℤ → Quota → TierError

-- One allocation's value, added to the absolute total and to whether a percentage was seen.
tally : AllocationMode → ℤ → ℤ → Bool → Result TierError (ℤ × Bool)
tally mode_absolute v absolute has_percent =
    if ltb_ℤ v (pos 0) then err negative_allocation else ok (add64 absolute v, has_percent)
tally mode_percent v absolute has_percent =
    if ltb_ℤ v (pos 0) || ltb_ℤ (pos 100) v then err (bad_percent v) else ok (absolute, true)
tally mode_unlimited v absolute has_percent = ok (absolute, has_percent)
tally (mode_other s) v absolute has_percent = ok (absolute, has_percent)

-- The loop of `Validate`.
check_allocations : List Allocation → List ℕ → ℤ → Bool → Result TierError (ℤ × Bool)
unfolding tally
check_allocations [] seen absolute has_percent = ok (absolute, has_percent)
check_allocations (a ∷ rest) seen absolute has_percent = do
  refuse_if (not (mode_valid a.mode)) (unknown_mode a.mode)
  refuse_if (contains a.provider_id seen) (two_allocations a.provider_id)
  totals ← tally a.mode a.value absolute has_percent
  check_allocations rest (a.provider_id ∷ seen) totals.0 totals.1

check_budget : Result QuotaError (Unit {0}) → Result TierError (Unit {0})
check_budget (ok _) = ok tt
check_budget (err e) = err (bad_budget e)

-- `Tier.Validate`
unfoldable pub validate : Tier → Result TierError (Unit {0})
unfolding check_budget check_allocations
validate t = do
  refuse_if (text_eq (trim_space t.name) []) no_name
  check_budget (valid t.budget)
  totals ← check_allocations t.allocations [] (pos 0) false
  refuse_if (totals.1 && not (is_bytes t.budget)) (percent_without_budget t.budget)
  refuse_if (is_bytes t.budget && ltb_ℤ t.budget.bytes totals.0) (over_budget totals.0 t.budget)

sum_percent : ℤ → List Allocation → ℤ
sum_percent percent [] = percent
sum_percent percent (a ∷ rest) = elim a.mode [
  | mode_percent ↦ sum_percent (add64 percent a.value) rest
  | _ ↦ sum_percent percent rest
]

-- `Tier.Overcommitted`
unfoldable pub overcommitted : Tier → Bool
unfolding sum_percent
overcommitted t = ltb_ℤ (pos 100) (sum_percent (pos 0) t.allocations)

-- A quota and whether the tier made an offer at all.
abbrev pub Offer : Type 0
Offer = Quota × Bool

offer : Result QuotaError Quota → Offer
offer (ok q) = (q, true)
offer (err e) = (unknown, false)

remaining : ℤ → List Allocation → ℤ
remaining remainder [] = remainder
remaining remainder (a ∷ rest) = elim a.mode [
  | mode_absolute ↦ remaining (sub64 remainder a.value) rest
  | _ ↦ remaining remainder rest
]

clamp : ℤ → ℤ
clamp remainder = if ltb_ℤ remainder (pos 0) then pos 0 else remainder

-- `Tier.percentOf`
pub percent_of : Tier → ℤ → Offer
unfolding offer clamp
percent_of t share =
    if is_bytes t.budget
    then offer
        (bytes_quota (quot (mul64 (clamp (remaining t.budget.bytes t.allocations)) share) 100))
    else (unknown, false)

-- The switch of `AllocationFor`; a mode that it does not name goes on to the rest of the loop.
by_mode : Tier → AllocationMode → ℤ → Offer → Offer
unfolding offer
by_mode t mode_unlimited v rest = (unlimited, true)
by_mode t mode_absolute v rest = offer (bytes_quota v)
by_mode t mode_percent v rest = percent_of t v
by_mode t (mode_other s) v rest = rest

first_offer : Tier → ℕ → List Allocation → Offer
first_offer t provider_id [] = (unknown, false)
first_offer t provider_id (a ∷ rest) =
    let later = first_offer t provider_id rest in
    if a.provider_id == provider_id then by_mode t a.mode a.value later else later

-- `Tier.AllocationFor`
unfoldable pub allocation_for : Tier → ℕ → Offer
unfolding first_offer by_mode percent_of remaining
allocation_for t provider_id = first_offer t provider_id t.allocations
