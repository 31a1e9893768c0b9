-- ===== src/Core/Resolve/Offers.antt =====
-- The loop of `Resolve` in internal/core/resolve.go, seen through the fields that decide: whether a
-- ceiling is present, which one, and by which rule.
use nuno.Prelude.{
  ℕ, ◌≡◌, refl, sym, ◌∙◌, ap, subst, ◌⊎◌, inl, inr, Bool, true, false, not, ◌||◌, Option, none,
  some, List, [], ◌∷◌, Memᴰ, ok, arith, if◌then◌else◌, Bool-cases, Option-cases, ℕ_eq,
}
use nuno.Prelude.Dict.{lookup}
use nuno.Core.Quota.{Quota, valid, is_known}
use nuno.Core.Policy.{Tier, allocation_for}
use nuno.Core.Policy.Ceilings.{valid-allocation_for}
use nuno.Core.Resolve.{
  Policy, Resolution, ResolutionRule, TierCandidate, more_generous, weigh, consider, consider_all,
}
use nuno.Core.Resolve.Generous.{more_generous_irrefl, more_generous_asymm, not_more_generous_trans}

abbrev pub offered : Quota × Bool → Option Quota
offered (q, true) = some q
offered (q, false) = none

-- What a candidate's tier offers on a provider; nothing if there is no such tier, or it is silent.
pub offer_of : Policy → ℕ → TierCandidate → Option Quota
offer_of policy p c = elim (lookup c.tier_id policy.tiers) [
  | none ↦ none
  | some t ↦ offered (allocation_for t p)
]

valid-offered :
    (t : Tier) (p : ℕ) (o : Quota)
    → offered (allocation_for t p) ≡ some o
    → (valid o ≡ ok tt) × (is_known o ≡ true)
valid-offered t p o e =
    go (allocation_for t p) (valid-allocation_for t p).0 (valid-allocation_for t p).1 e
  where
    go :
        (f : Quota × Bool)
        → valid f.0 ≡ ok tt
        → f.1 ≡ is_known f.0
        → offered f ≡ some o
        → (valid o ≡ ok tt) × (is_known o ≡ true)
    go (q, true) v k s = (cc, cc)
    go (q, false) v k s = cc

-- Whatever a candidate's tier offers is valid and known.
pub valid-offer_of :
    (policy : Policy) (p : ℕ) (c : TierCandidate) (o : Quota)
    → offer_of policy p c ≡ some o
    → (valid o ≡ ok tt) × (is_known o ≡ true)
unfolding offer_of
valid-offer_of policy p c o e = go (lookup c.tier_id policy.tiers) e
  where
    go :
        (found : Option Tier)
        → elim found as (λ _. Option Quota) [ none ↦ none | some t ↦ offered (allocation_for t p) ]
          ≡ some o
        → (valid o ≡ ok tt) × (is_known o ≡ true)
    go none h = cc
    go (some t) h = valid-offered t p o h

pub record Held : Type 0 where
  pub present : Bool
  pub ceiling : Quota
  pub rule : ResolutionRule

abbrev pub held : Resolution → Held
held r = record { present = r.present; ceiling = r.ceiling; rule = r.rule }

hold : ResolutionRule → Option Quota → Held → Held
hold rule none h = h
hold rule (some o) h =
    if not h.present || more_generous o h.ceiling
    then record { present = true; ceiling = o; rule = rule }
    else h

pub hold_all : ResolutionRule → Policy → ℕ → List TierCandidate → Held → Held
hold_all rule policy p [] h = h
hold_all rule policy p (c ∷ rest) h =
    hold_all rule policy p rest (hold rule (offer_of policy p c) h)

held-weigh :
    (rule : ResolutionRule) (p : ℕ) (c : TierCandidate) (t : Tier) (r : Resolution)
    → held (weigh rule p c t r) ≡ hold rule (offered (allocation_for t p)) (held r)
unfolding weigh hold
held-weigh rule p c t r = ground arith

held-consider :
    (rule : ResolutionRule) (p : ℕ) (policy : Policy) (c : TierCandidate) (r : Resolution)
    → held (consider rule p policy c r) ≡ hold rule (offer_of policy p c) (held r)
unfolding consider offer_of
held-consider rule p policy c r = elim (Option-cases (lookup c.tier_id policy.tiers)) [
  | inl e ↦ rw (e, consider, offer_of) (unfold hold in refl)
  | inr (t, e) ↦ rw (e, consider, offer_of) (held-weigh rule p c t r)
]

pub held-consider_all :
    (rule : ResolutionRule) (p : ℕ) (policy : Policy) (l : List TierCandidate) (r : Resolution)
    → held (consider_all rule p policy l r) ≡ hold_all rule policy p l (held r)
unfolding consider_all hold_all
held-consider_all rule p policy [] r = refl
held-consider_all rule p policy (c ∷ l) r =
    held-consider_all rule p policy l (consider rule p policy c r)
    ∙ ap (hold_all rule policy p l) (held-consider rule p policy c r)

-- `h` is at most `k`.
record Below (h k : Held) : Type 0 where
  stays : h.present ≡ true → k.present ≡ true
  above : h.present ≡ true → more_generous h.ceiling k.ceiling ≡ false

Below-hold : (rule : ResolutionRule) (o : Option Quota) (h : Held) → Below h (hold rule o h)
unfolding hold
Below-hold rule none h = record { stays = λ e. e; above = λ e. more_generous_irrefl h.ceiling }
Below-hold rule (some o) h =
    ground (arith, more_generous_irrefl h.ceiling, more_generous_asymm o h.ceiling)

Below-trans : {h k l : Held} → Below h k → Below k l → Below h l
Below-trans {h} {k} {l} a b = record {
  stays = λ e. b.stays (a.stays e);
  above =
      λ e. not_more_generous_trans h.ceiling k.ceiling l.ceiling (a.above e) (b.above (a.stays e));
}

hold_source :
    (rule : ResolutionRule) (o : Option Quota) (h : Held)
    → (hold rule o h ≡ h)
      ⊎ ((o ≡ some (hold rule o h).ceiling)
          × ((hold rule o h).rule ≡ rule)
          × ((hold rule o h).present ≡ true))
unfolding hold
hold_source rule none h = inl refl
hold_source rule (some o) h = elim (Bool-cases (not h.present || more_generous o h.ceiling)) [
  | inl e ↦ inr (rw e refl, rw e refl, rw e refl)
  | inr e ↦ inl (rw e refl)
]

module _ (rule : ResolutionRule) (policy : Policy) (p : ℕ) where
  Below-hold_all : (l : List TierCandidate) (h : Held) → Below h (hold_all rule policy p l h)
  unfolding hold_all
  Below-hold_all [] h = record { stays = λ e. e; above = λ e. more_generous_irrefl h.ceiling }
  Below-hold_all (c ∷ l) h =
      Below-trans (Below-hold rule (offer_of policy p c) h)
        (Below-hold_all l (hold rule (offer_of policy p c) h))

  -- Every offer is matched or beaten by what is held in the end.
  abbrev IsCovered : Quota → Held → Type 0
  IsCovered o k = (k.present ≡ true) × (more_generous o k.ceiling ≡ false)

  IsCovered-Below : (o : Quota) {h k : Held} → IsCovered o h → Below h k → IsCovered o k
  IsCovered-Below o {h} {k} (present, bound) b =
      (b.stays present, not_more_generous_trans o h.ceiling k.ceiling bound (b.above present))

  IsCovered-hold : (o : Quota) (h : Held) → IsCovered o (hold rule (some o) h)
  unfolding hold
  IsCovered-hold o h = ground (arith, more_generous_irrefl o)

  pub hold_all_bound :
      (l : List TierCandidate) (h : Held) (c : TierCandidate) (o : Quota)
      → Memᴰ c l
      → offer_of policy p c ≡ some o
      → IsCovered o (hold_all rule policy p l h)
  unfolding hold_all
  hold_all_bound [] h c o m e = elim m [ ]
  hold_all_bound (x ∷ l) h c o (Memᴰ.head q) e =
      IsCovered-Below o
        (subst (λ f. IsCovered o (hold rule f h))
          (sym (subst (λ y. offer_of policy p y ≡ some o) q e)) (IsCovered-hold o h))
        (Below-hold_all l (hold rule (offer_of policy p x) h))
  hold_all_bound (x ∷ l) h c o (Memᴰ.tail m) e =
      hold_all_bound l (hold rule (offer_of policy p x) h) c o m e

  -- What is held in the end was held at the start, or is one of the offers.
  abbrev IsFrom : List TierCandidate → Held → Type 0
  IsFrom l k =
      (c : TierCandidate) × Memᴰ c l
      × (offer_of policy p c ≡ some k.ceiling)
      × (k.rule ≡ rule)
      × (k.present ≡ true)

  pub hold_all_source :
      (l : List TierCandidate) (h : Held)
      → (hold_all rule policy p l h ≡ h) ⊎ IsFrom l (hold_all rule policy p l h)
  unfolding hold_all
  hold_all_source [] h = inl refl
  hold_all_source (x ∷ l) h =
      join (hold rule (offer_of policy p x) h)
        (hold_all_source l (hold rule (offer_of policy p x) h))
        (hold_source rule (offer_of policy p x) h)
    where
      join :
          (k : Held)
          → (hold_all rule policy p l k ≡ k) ⊎ IsFrom l (hold_all rule policy p l k)
          → (k ≡ h)
            ⊎ ((offer_of policy p x ≡ some k.ceiling) × (k.rule ≡ rule) × (k.present ≡ true))
          → (hold_all rule policy p l k ≡ h) ⊎ IsFrom (x ∷ l) (hold_all rule policy p l k)
      join k (inr (c, m, o, r, s)) first = inr (c, Memᴰ.tail m, o, r, s)
      join k (inl e) (inl f) = inl (e ∙ f)
      join k (inl e) (inr (o, r, s)) =
          inr (subst (IsFrom (x ∷ l)) (sym e) (x, Memᴰ.head refl, o, r, s))
