-- ===== src/Core/Resolve/Chosen.antt =====
-- `Resolve` of internal/core/resolve.go against what it is meant to choose.
use nuno.Prelude.{
  ℕ, ◌≡◌, refl, sym, ap, subst, ◌⊎◌, inl, inr, true, false, none, some, List, Memᴰ, Option-cases,
  ℕ_eq,
}
use nuno.Prelude.Dict.{lookup}
use nuno.Core.Quota.{Quota, unknown}
use nuno.Core.Model.{User}
use nuno.Core.Resolve.{
  Policy, UserPolicy, ResolutionRule, rule_none, TierCandidate, more_generous, candidate_tiers,
  no_resolution, resolve, resolve_tiers,
}
use nuno.Core.Resolve.Offers.{
  Held, held, offer_of, valid-offer_of, hold_all, hold_all_bound, hold_all_source,
  held-consider_all,
}
use nuno.Core.Resolve.Generous.{IsAtMost, more_generous-IsAtMost}

module _ (rule : ResolutionRule) (policy : Policy) (p : ℕ) (cs : List TierCandidate) where
  -- Nobody offers anything on the provider.
  abbrev pub IsSilent : Held → Type 0
  IsSilent h =
      (h.present ≡ false)
      × (h.rule ≡ rule_none)
      × (h.ceiling ≡ unknown)
      × ((c : TierCandidate) → Memᴰ c cs → offer_of policy p c ≡ none)

  -- One of the offers, and every offer is at most that one.
  abbrev pub IsMostGenerous : Held → Type 0
  IsMostGenerous h =
      (h.present ≡ true)
      × (h.rule ≡ rule)
      × ((c : TierCandidate) × Memᴰ c cs × (offer_of policy p c ≡ some h.ceiling))
      × ((c : TierCandidate) (o : Quota)
          → Memᴰ c cs
          → offer_of policy p c ≡ some o
          → IsAtMost o h.ceiling)

  -- The same by the comparison of the code.
  abbrev pub IsChosen : Held → Type 0
  IsChosen h =
      (h.present ≡ true)
      × (h.rule ≡ rule)
      × ((c : TierCandidate) × Memᴰ c cs × (offer_of policy p c ≡ some h.ceiling))
      × ((c : TierCandidate) (o : Quota)
          → Memᴰ c cs
          → offer_of policy p c ≡ some o
          → more_generous o h.ceiling ≡ false)

  abbrev final : Held
  final = hold_all rule policy p cs (held no_resolution)

  silent_start :
      final ≡ held no_resolution → (c : TierCandidate) → Memᴰ c cs → offer_of policy p c ≡ none
  silent_start e c m = elim (Option-cases (offer_of policy p c)) [
    | inl n ↦ n
    | inr (o, s) ↦
        let (present, _) = hold_all_bound rule policy p cs (held no_resolution) c o m s in
        let absent : final.present ≡ false = ap (λ (h : Held). h.present) e in
        absurd (cc (present, absent))
  ]

  IsChosen-IsMostGenerous : (h : Held) → IsChosen h → IsMostGenerous h
  IsChosen-IsMostGenerous h (present, r, (c, m, e), best) = (
    present,
    r,
    (c, m, e),
    λ d o n f.
        let (vo, ko) = valid-offer_of policy p d o f in
        let (vc, kc) = valid-offer_of policy p c h.ceiling e in
        more_generous-IsAtMost o h.ceiling vo vc ko kc (best d o n f),
  )

  pub IsSilent-or : (h : Held) → IsSilent h ⊎ IsChosen h → IsSilent h ⊎ IsMostGenerous h
  IsSilent-or h (inl s) = inl s
  IsSilent-or h (inr c) = inr (IsChosen-IsMostGenerous h c)

  pub hold_all-IsChosen : IsSilent final ⊎ IsChosen final
  hold_all-IsChosen = elim (hold_all_source rule policy p cs (held no_resolution)) [
    | inl e ↦ inl (
      ap (λ (h : Held). h.present) e,
      ap (λ (h : Held). h.rule) e,
      ap (λ (h : Held). h.ceiling) e,
      silent_start e,
    )
    | inr (c, m, o, r, s) ↦ inr (
      s,
      r,
      (c, m, o),
      λ d q n f. (hold_all_bound rule policy p cs (held no_resolution) d q n f).1,
    )
  ]

-- What `Resolve` holds, by the comparison of the code.
pub resolve-IsChosen :
    (user : User) (p : ℕ) (policy : Policy) (up : UserPolicy)
    → lookup p up.provider_overrides ≡ none
    → let (cs, rule) = candidate_tiers user policy up in
      let h = held (resolve user p policy up) in
      IsSilent rule policy p cs h ⊎ IsChosen rule policy p cs h
unfolding resolve resolve_tiers
resolve-IsChosen user p policy up e =
    let (cs, rule) = candidate_tiers user policy up in
    rw (e, resolve)
      (subst (λ h. IsSilent rule policy p cs h ⊎ IsChosen rule policy p cs h)
        (sym (held-consider_all rule p policy cs no_resolution))
        (hold_all-IsChosen rule policy p cs))

-- Without an override for the provider, the ceiling is one of the offers that the tiers of the
-- person's candidates make there, by the candidates' rule, and every offer is at most the ceiling:
-- the ceiling is unlimited, or both are in bytes and the offer has no more of them. If none of the
-- tiers makes an offer, no ceiling is present, its value is unknown, and the rule is none.
pub resolve-IsMostGenerous :
    (user : User) (p : ℕ) (policy : Policy) (up : UserPolicy)
    → lookup p up.provider_overrides ≡ none
    → let (cs, rule) = candidate_tiers user policy up in
      let h = held (resolve user p policy up) in
      IsSilent rule policy p cs h ⊎ IsMostGenerous rule policy p cs h
resolve-IsMostGenerous user p policy up e =
    let (cs, rule) = candidate_tiers user policy up in
    IsSilent-or rule policy p cs (held (resolve user p policy up))
      (resolve-IsChosen user p policy up e)

-- An override is the ceiling.
pub resolve-override :
    (user : User) (p : ℕ) (policy : Policy) (up : UserPolicy) (q : Quota)
    → lookup p up.provider_overrides ≡ some q
    → ((resolve user p policy up).present ≡ true) × ((resolve user p policy up).ceiling ≡ q)
unfolding resolve
resolve-override user p policy up q h = (rw (h, resolve) refl, rw (h, resolve) refl)
