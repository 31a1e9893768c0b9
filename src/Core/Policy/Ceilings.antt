-- ===== src/Core/Policy/Ceilings.antt =====
-- What `Tier.AllocationFor` of internal/core/policy.go offers, on every branch.
use nuno.Prelude.{
  ℕ, ◌-◌, ◌*◌, ◌^◌, ◌≤◌, ◌<◌, ◌≡◌, refl, true, false, List, [], ◌∷◌, arith, ok, inl, inr,
  Bool-cases, ◌==◌, ℕ_eq,
}
use nuno.Prelude.Int.{ℤ, pos, mul64, quot, wrap64, ◌*ℤ◌}
use nuno.Core.Quota.{kind_bytes, unknown, unlimited, bytes_quota, valid, is_known, is_bytes}
use nuno.Core.Policy.{
  AllocationMode, mode_absolute, mode_percent, mode_unlimited, mode_other, Allocation, Tier, Offer,
  remaining, percent_of, offer, by_mode, first_offer, allocation_for,
}

-- An offer is made exactly when its quota is known, and the quota is valid either way.
abbrev IsSoundOffer : Offer → Type 0
IsSoundOffer o = (valid o.0 ≡ ok tt) × (o.1 ≡ is_known o.0)

offer-IsSoundOffer : (n : ℤ) → IsSoundOffer (offer (bytes_quota n))
unfolding offer bytes_quota valid is_known
offer-IsSoundOffer n = ground arith

unknown-IsSoundOffer : IsSoundOffer (unknown, false)
unfolding valid is_known
unknown-IsSoundOffer = (refl, refl)

unlimited-IsSoundOffer : IsSoundOffer (unlimited, true)
unfolding valid is_known
unlimited-IsSoundOffer = (refl, refl)

percent_of-IsSoundOffer : (t : Tier) (share : ℤ) → IsSoundOffer (percent_of t share)
percent_of-IsSoundOffer t share = elim (Bool-cases (is_bytes t.budget)) [
  | inl e ↦ unfold percent_of in rw e (offer-IsSoundOffer _)
  | inr e ↦ unfold percent_of in rw e unknown-IsSoundOffer
]

by_mode-IsSoundOffer :
    (t : Tier) (m : AllocationMode) (v : ℤ) (o : Offer)
    → IsSoundOffer o
    → IsSoundOffer (by_mode t m v o)
unfolding by_mode
by_mode-IsSoundOffer t mode_unlimited v o h = unlimited-IsSoundOffer
by_mode-IsSoundOffer t mode_absolute v o h = offer-IsSoundOffer v
by_mode-IsSoundOffer t mode_percent v o h = percent_of-IsSoundOffer t v
by_mode-IsSoundOffer t (mode_other s) v o h = h

first_offer-IsSoundOffer :
    (t : Tier) (p : ℕ) (l : List Allocation) → IsSoundOffer (first_offer t p l)
unfolding first_offer
first_offer-IsSoundOffer t p [] = unknown-IsSoundOffer
first_offer-IsSoundOffer t p (a ∷ l) = elim (Bool-cases (a.provider_id == p)) [
  | inl e ↦ rw e (by_mode-IsSoundOffer t a.mode a.value _ (first_offer-IsSoundOffer t p l))
  | inr e ↦ rw e (first_offer-IsSoundOffer t p l)
]

-- Whatever a tier holds, validated or not and with any overflow on the way, what it offers is a
-- valid quota, and it makes an offer exactly when that quota is not unknown.
pub valid-allocation_for :
    (t : Tier) (p : ℕ)
    → (valid (allocation_for t p).0 ≡ ok tt)
      × ((allocation_for t p).1 ≡ is_known (allocation_for t p).0)
unfolding allocation_for
valid-allocation_for t p = first_offer-IsSoundOffer t p t.allocations

-- A tier whose only allocation is 100 percent for one provider, of a budget of b bytes with a
-- hundred times b from 2 ^ 63 to below 2 ^ 64 - 100 (about 81.9 to 163.8 PiB), makes no offer
-- there, since the product wraps to a negative.
pub allocation_for_overflow :
    (t : Tier) (p b : ℕ)
    → t.budget ≡ record { kind = kind_bytes; bytes = pos b }
    → t.allocations ≡ record { provider_id = p; mode = mode_percent; value = pos 100 } ∷ []
    → 2 ^ 63 ≤ b * 100
    → b * 100 < 2 ^ 64 - 100
    → allocation_for t p ≡ (unknown, false)
unfolding allocation_for first_offer by_mode percent_of remaining offer
allocation_for_overflow t p b e l lo hi =
    rw (l, e) (unfold is_bytes bytes_quota quot mul64 wrap64 ◌*ℤ◌ in ground arith)
