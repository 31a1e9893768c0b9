-- ===== src/Core/Policy/Stated.antt =====
-- What an honest tier of internal/core/policy.go offers: `AllocationFor` and `percentOf` against the
-- mode and value that the tier states.
use native.Mathlib.Nat.{mul-le-mul_left}
use nuno.Prelude.{
  ℕ, ◌-◌, ◌*◌, ◌/◌, ◌^◌, ◌≤◌, ◌<◌, ◌≡◌, ◌≢◌, refl, sym, ◌∙◌, subst, true, false, List, [], ◌∷◌, All,
  Memᴰ, All-mem, arith, ℕ_eq, nat_eq_iff,
}
use nuno.Prelude.Int.{ℤ, pos, negsuc, pos_part, ◌≤ℤ◌, sub64-pos, mul64-pos, quot}
use nuno.Core.Quota.{Quota, kind_bytes, unknown, unlimited, bytes_quota, is_bytes}
use nuno.Core.Policy.{
  AllocationMode, mode_absolute, mode_percent, mode_unlimited, mode_other, Allocation, Tier, Offer,
  remaining, percent_of, offer, by_mode, first_offer, allocation_for,
}
use nuno.Core.Policy.Validation.{
  absolute_part, absolute_total, IsSane, IsSaneAllocation, IsDistinct, IsHonest,
}

-- Taking sane absolute allocations out of a remainder that covers them is exact.
remaining_step :
    (p : ℕ) (m : AllocationMode) (v : ℤ) (l : List Allocation) (n : ℕ)
    → n < 2 ^ 63
    → IsSane m v
    → absolute_part m v ≤ n
    → remaining (pos n) (record { provider_id = p; mode = m; value = v } ∷ l)
      ≡ remaining (pos (n - absolute_part m v)) l
unfolding remaining
remaining_step p mode_absolute (pos k) l n h s b = ground (arith, sub64-pos n k h b)
remaining_step p mode_absolute (negsuc k) l n h s b = absurd s
remaining_step p mode_percent v l n h s b = ground arith
remaining_step p mode_unlimited v l n h s b = ground arith
remaining_step p (mode_other t) v l n h s b = absurd s

remaining-pos :
    (n : ℕ) (l : List Allocation)
    → n < 2 ^ 63
    → All IsSaneAllocation l
    → absolute_total l ≤ n
    → remaining (pos n) l ≡ pos (n - absolute_total l)
remaining-pos n [] h s k = unfold remaining in ground arith
remaining-pos n (a ∷ l) h (s, ss) k =
    remaining_step a.provider_id a.mode a.value l n h s (omega arith)
    ∙ remaining-pos (n - absolute_part a.mode a.value) l (omega arith) ss (omega arith)
    ∙ ground arith

abbrev pub bytes_of : ℕ → Quota
bytes_of n = record { kind = kind_bytes; bytes = pos n }

-- The share of the rest of the budget, where a hundred times the budget fits an int64.
pub percent_of-pos :
    (t : Tier) (b s : ℕ)
    → t.budget ≡ bytes_of b
    → b * 100 < 2 ^ 63
    → All IsSaneAllocation t.allocations
    → absolute_total t.allocations ≤ b
    → s ≤ 100
    → percent_of t (pos s) ≡ (bytes_of ((b - absolute_total t.allocations) * s / 100), true)
unfolding percent_of
percent_of-pos t b s e h sane fits k =
    let rest : ℕ = b - absolute_total t.allocations in
    let r : remaining (pos b) t.allocations ≡ pos rest =
      remaining-pos b t.allocations (omega arith) sane fits in
    let bound : rest * s < 2 ^ 63 = omega (arith, mul-le-mul_left rest k) in
    rw (e, r) (unfold is_bytes bytes_quota quot in ground (arith, mul64-pos rest s bound))

first_offer-head :
    (t : Tier) (a : Allocation) (l : List Allocation)
    → IsSaneAllocation a
    → first_offer t a.provider_id (a ∷ l) ≡ by_mode t a.mode a.value (unknown, false)
unfolding first_offer
first_offer-head t a l s =
    rw ((nat_eq_iff a.provider_id a.provider_id).1 refl)
      (later a.mode a.value (first_offer t a.provider_id l) s)
  where
    later :
        (m : AllocationMode) (v : ℤ) (o : Offer)
        → IsSane m v
        → by_mode t m v o ≡ by_mode t m v (unknown, false)
    later mode_absolute v o h = unfold by_mode in refl
    later mode_percent v o h = unfold by_mode in refl
    later mode_unlimited v o h = unfold by_mode in refl
    later (mode_other x) v o h = absurd h

first_offer-skip :
    (t : Tier) (p : ℕ) (a : Allocation) (l : List Allocation)
    → a.provider_id ≢ p
    → first_offer t p (a ∷ l) ≡ first_offer t p l
unfolding first_offer
first_offer-skip t p a l ne = ground arith

first_offer-mem :
    (t : Tier) (l : List Allocation) (a : Allocation)
    → Memᴰ a l
    → IsDistinct l
    → All IsSaneAllocation l
    → first_offer t a.provider_id l ≡ by_mode t a.mode a.value (unknown, false)
first_offer-mem t [] a m d s = elim m [ ]
first_offer-mem t (x ∷ l) a (Memᴰ.head e) d s =
    subst (λ b. first_offer t b.provider_id (x ∷ l) ≡ by_mode t b.mode b.value (unknown, false))
      (sym e) (first_offer-head t x l s.0)
first_offer-mem t (x ∷ l) a (Memᴰ.tail m) d s =
    let ne : x.provider_id ≢ a.provider_id = All-mem (λ b. x.provider_id ≢ b.provider_id) l d.0 m in
    first_offer-skip t a.provider_id x l ne ∙ first_offer-mem t l a m d.1 s.1

-- What an allocation says, where the budget is `b` bytes.
abbrev pub stated_offer : Tier → ℕ → AllocationMode → ℤ → Offer
stated_offer t b mode_absolute v = (bytes_of (pos_part v), true)
stated_offer t b mode_percent v =
    (bytes_of ((b - absolute_total t.allocations) * pos_part v / 100), true)
stated_offer t b mode_unlimited v = (unlimited, true)
stated_offer t b (mode_other s) v = (unknown, false)

pub within_bytes :
    (t : Tier) (b : ℕ) → IsHonest t → t.budget ≡ bytes_of b → absolute_total t.allocations ≤ b
unfolding is_bytes
within_bytes t b h e =
    let fits : pos (absolute_total t.allocations) ≤ℤ pos b =
      subst (λ (q : Quota). pos (absolute_total t.allocations) ≤ℤ q.bytes) e
        (h.fits (subst (λ (q : Quota). is_bytes q ≡ true) (sym e) refl)) in
    omega arith

by_mode-stated_offer :
    (t : Tier) (b : ℕ) (m : AllocationMode) (v : ℤ)
    → IsHonest t
    → t.budget ≡ bytes_of b
    → b * 100 < 2 ^ 63
    → IsSane m v
    → by_mode t m v (unknown, false) ≡ stated_offer t b m v
unfolding by_mode
by_mode-stated_offer t b mode_absolute (pos n) h e k s = unfold offer bytes_quota in ground arith
by_mode-stated_offer t b mode_absolute (negsuc n) h e k s = absurd s
by_mode-stated_offer t b mode_percent (pos n) h e k s =
    percent_of-pos t b n e k h.sane (within_bytes t b h e) s
by_mode-stated_offer t b mode_percent (negsuc n) h e k s = absurd s
by_mode-stated_offer t b mode_unlimited v h e k s = refl
by_mode-stated_offer t b (mode_other x) v h e k s = absurd s

-- In an honest tier with a budget in bytes, the offer for an allocation's provider is what that allocation's mode says:
-- its bytes, everything, or its percentage of the budget less the absolute allocations, rounded
-- down. A hundred times the budget has to fit an int64.
pub allocation_for-mem :
    (t : Tier) (b : ℕ) (a : Allocation)
    → IsHonest t
    → t.budget ≡ bytes_of b
    → b * 100 < 2 ^ 63
    → Memᴰ a t.allocations
    → allocation_for t a.provider_id ≡ stated_offer t b a.mode a.value
unfolding allocation_for
allocation_for-mem t b a h e k m =
    first_offer-mem t t.allocations a m h.distinct h.sane
    ∙ by_mode-stated_offer t b a.mode a.value h e k
        (All-mem IsSaneAllocation t.allocations h.sane m)
