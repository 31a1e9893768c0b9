-- ===== src/Core/Resolve/SameGroups.antt =====
-- The order and repetition of a person's groups do not matter to `Resolve` of
-- internal/core/resolve.go.
use nuno.Prelude.{List-cases, nil_of_no_mem}
use nuno.Prelude.{ℕ, ◌≡◌, sym, ◌∙◌, subst, ap, inl, inr, false, none, [], Memᴰ, Bool-cases, ℕ_eq}
use nuno.Prelude.Dict.{lookup}
use nuno.Core.Quota.{unknown}
use nuno.Core.Model.{User}
use nuno.Core.Resolve.{
  Policy, UserPolicy, TierCandidate, from_groups, or_default, candidate_tiers, resolve,
}
use nuno.Core.Resolve.Generous.{more_generous_antisymm}
use nuno.Core.Resolve.Offers.{Held, held, valid-offer_of}
use nuno.Core.Resolve.Chosen.{resolve-IsMostGenerous}
use nuno.Core.Resolve.Groups.{
  IsWithin, from_groups-IsWithin, candidate_tiers-groups, ceiling_source, ceiling_mono,
}

module _ (policy : Policy) (p : ℕ) (up : UserPolicy)
    (no_quota : lookup p up.provider_overrides ≡ none) (no_tier : up.tier_override ≡ none) where
  abbrev SameCeiling : Held → Held → Type 0
  SameCeiling h k = (h.present ≡ k.present) × (h.ceiling ≡ k.ceiling)

  abbrev held_by : User → Held
  held_by u = held (resolve u p policy up)

  resolve_cong :
      (u v : User)
      → candidate_tiers u policy up ≡ candidate_tiers v policy up
      → held_by u ≡ held_by v
  unfolding resolve
  resolve_cong u v e = rw (no_quota, e, resolve)

  no_groups :
      (u v : User)
      → IsWithin v u
      → from_groups policy u.group_uuids ≡ []
      → SameCeiling (held_by u) (held_by v)
  no_groups u v w e =
      let f : from_groups policy v.group_uuids ≡ [] =
        nil_of_no_mem (from_groups policy v.group_uuids)
          λ x m. elim (subst (Memᴰ x) e (from_groups-IsWithin policy v u x w m)) [ ] in
      let same : held_by u ≡ held_by v = resolve_cong u v (
        candidate_tiers-groups policy u up no_tier
        ∙ ap (or_default policy) (e ∙ sym f)
        ∙ sym (candidate_tiers-groups policy v up no_tier)) in
      (ap (λ (h : Held). h.present) same, ap (λ (h : Held). h.ceiling) same)

  absent_unknown : (u : User) → (held_by u).present ≡ false → (held_by u).ceiling ≡ unknown
  absent_unknown u e = elim (resolve-IsMostGenerous u p policy up no_quota) [
    | inl silent ↦ silent.2
    | inr best ↦ absurd (cc (best.0, e))
  ]

  some_groups :
      (u v : User) (x : TierCandidate)
      → IsWithin u v
      → IsWithin v u
      → Memᴰ x (from_groups policy u.group_uuids)
      → SameCeiling (held_by u) (held_by v)
  some_groups u v x w back mu =
      let mv = from_groups-IsWithin policy u v x w mu in
      elim (Bool-cases (held_by u).present) [
        | inl here ↦
            let (there, le) = ceiling_mono policy p up no_quota no_tier u v x w mu here in
            let (_, ge) = ceiling_mono policy p up no_quota no_tier v u x back mv there in
            let (c, _, ec) = ceiling_source policy p up no_quota no_tier u x mu here in
            let (d, _, ed) = ceiling_source policy p up no_quota no_tier v x mv there in
            let (vc, kc) = valid-offer_of policy p c (held_by u).ceiling ec in
            let (vd, kd) = valid-offer_of policy p d (held_by v).ceiling ed in
            (
              here ∙ sym there,
              more_generous_antisymm (held_by u).ceiling (held_by v).ceiling vc vd kc kd le ge,
            )
        | inr gone ↦ elim (Bool-cases (held_by v).present) [
          | inl there ↦
              absurd (cc (gone, (ceiling_mono policy p up no_quota no_tier v u x back mv there).0))
          | inr away ↦ (gone ∙ sym away, absent_unknown u gone ∙ sym (absent_unknown v away))
        ]
      ]

-- Two people in the same groups, in whatever order and however often each is listed, get the same
-- ceiling, or both get none. It is for a provider with no override, and people with no tier of
-- their own.
pub resolve_same_groups :
    (policy : Policy) (p : ℕ) (up : UserPolicy) (u v : User)
    → lookup p up.provider_overrides ≡ none
    → up.tier_override ≡ none
    → IsWithin u v
    → IsWithin v u
    → ((resolve u p policy up).present ≡ (resolve v p policy up).present)
      × ((resolve u p policy up).ceiling ≡ (resolve v p policy up).ceiling)
resolve_same_groups policy p up u v no_quota no_tier w back =
    elim (List-cases (from_groups policy u.group_uuids)) [
      | inl e ↦ no_groups policy p up no_quota no_tier u v back e
      | inr (x, m) ↦ some_groups policy p up no_quota no_tier u v x w back m
    ]
