-- ===== src/Core/Resolve/Groups.antt =====
-- What a person's groups do to a ceiling: `candidateTiers` and `Resolve` of
-- internal/core/resolve.go together.
use nuno.Prelude.{
  ℕ, ◌≡◌, refl, sym, subst, ◌↔◌, inl, inr, true, false, none, some, List, [], ◌∷◌, Memᴰ,
  Option-cases, ℕ_eq,
}
use nuno.Prelude.Dict.{lookup}
use nuno.Prelude.Sort.{mem-sort_by}
use nuno.Prelude.Text.{Text, Text_eq}
use nuno.Core.Quota.{Quota}
use nuno.Core.Model.{User}
use nuno.Core.Resolve.{
  Policy, UserPolicy, TierCandidate, more_generous, from_groups, by_group, or_default,
  candidate_tiers, resolve,
}
use nuno.Core.Resolve.Offers.{offer_of, valid-offer_of}
use nuno.Core.Resolve.Generous.{IsAtMost, more_generous-IsAtMost}
use nuno.Core.Resolve.Chosen.{resolve-IsChosen}

-- The tier that a group maps to.
abbrev pub MapsTo : Policy → Text → ℕ → Type 0
MapsTo policy g tier_id = lookup g policy.group_tiers ≡ some tier_id

from_groups_mapped :
    (policy : Policy) (g : Text) (gs : List Text) (tier_id : ℕ)
    → MapsTo policy g tier_id
    → from_groups policy (g ∷ gs)
      ≡ record { tier_id = tier_id; group_uuid = g } ∷ from_groups policy gs
unfolding from_groups
from_groups_mapped policy g gs tier_id e = rw (e, from_groups)

from_groups_unmapped :
    (policy : Policy) (g : Text) (gs : List Text)
    → lookup g policy.group_tiers ≡ none
    → from_groups policy (g ∷ gs) ≡ from_groups policy gs
unfolding from_groups
from_groups_unmapped policy g gs e = rw (e, from_groups)

-- Every group that maps to a tier gives a candidate.
from_groups-mem :
    (policy : Policy) (gs : List Text) (g : Text) (tier_id : ℕ)
    → Memᴰ g gs
    → MapsTo policy g tier_id
    → Memᴰ (record { tier_id = tier_id; group_uuid = g }) (from_groups policy gs)
from_groups-mem policy [] g tier_id m e = elim m [ ]
from_groups-mem policy (x ∷ gs) g tier_id (Memᴰ.head q) e =
    rw (from_groups_mapped policy x gs tier_id (subst (λ y. MapsTo policy y tier_id) q e))
      (Memᴰ.head (cc q))
from_groups-mem policy (x ∷ gs) g tier_id (Memᴰ.tail m) e =
    elim (Option-cases (lookup x policy.group_tiers)) [
      | inl n ↦ rw (from_groups_unmapped policy x gs n) (from_groups-mem policy gs g tier_id m e)
      | inr (k, f) ↦
          rw (from_groups_mapped policy x gs k f)
            (Memᴰ.tail (from_groups-mem policy gs g tier_id m e))
    ]

-- Every candidate is a group of the list, with the tier that it maps to.
abbrev IsFromGroup : Policy → List Text → TierCandidate → Type 0
IsFromGroup policy gs c = Memᴰ c.group_uuid gs × MapsTo policy c.group_uuid c.tier_id

IsFromGroup-cons :
    (policy : Policy) (g : Text) (gs : List Text) (c : TierCandidate)
    → IsFromGroup policy gs c
    → IsFromGroup policy (g ∷ gs) c
IsFromGroup-cons policy g gs c (m, e) = (Memᴰ.tail m, e)

from_groups-nil : (policy : Policy) → from_groups policy [] ≡ []
unfolding from_groups
from_groups-nil policy = refl

IsFromGroup-head :
    (policy : Policy) (g : Text) (gs : List Text) (k : ℕ) (l : List TierCandidate)
    (c : TierCandidate)
    → MapsTo policy g k
    → (Memᴰ c l → IsFromGroup policy gs c)
    → Memᴰ c (record { tier_id = k; group_uuid = g } ∷ l)
    → IsFromGroup policy (g ∷ gs) c
IsFromGroup-head policy g gs k l c e rest (Memᴰ.head q) =
    subst (IsFromGroup policy (g ∷ gs)) (sym q) (Memᴰ.head refl, e)
IsFromGroup-head policy g gs k l c e rest (Memᴰ.tail m) = IsFromGroup-cons policy g gs c (rest m)

mem-from_groups :
    (policy : Policy) (gs : List Text) (c : TierCandidate)
    → Memᴰ c (from_groups policy gs)
    → IsFromGroup policy gs c
mem-from_groups policy [] c m = elim (subst (Memᴰ c) (from_groups-nil policy) m) [ ]
mem-from_groups policy (g ∷ gs) c m = elim (Option-cases (lookup g policy.group_tiers)) [
  | inl n ↦
      IsFromGroup-cons policy g gs c
        (mem-from_groups policy gs c (subst (Memᴰ c) (from_groups_unmapped policy g gs n) m))
  | inr (k, f) ↦
      IsFromGroup-head policy g gs k (from_groups policy gs) c f (mem-from_groups policy gs c)
        (subst (Memᴰ c) (from_groups_mapped policy g gs k f) m)
]

-- One person's groups are among the other's.
abbrev pub IsWithin : User → User → Type 0
IsWithin u v = (g : Text) → Memᴰ g u.group_uuids → Memᴰ g v.group_uuids

module _ (policy : Policy) where
  pub from_groups-IsWithin :
      (u v : User) (c : TierCandidate)
      → IsWithin u v
      → Memᴰ c (from_groups policy u.group_uuids)
      → Memᴰ c (from_groups policy v.group_uuids)
  from_groups-IsWithin u v c w m =
      let (k, e) = mem-from_groups policy u.group_uuids c m in
      from_groups-mem policy v.group_uuids c.group_uuid c.tier_id (w c.group_uuid k) e

  -- Where a group gives a candidate, the candidates are those of the groups.
  or_default-mem :
      (l : List TierCandidate) (x c : TierCandidate)
      → Memᴰ x l
      → Memᴰ c l ↔ Memᴰ c (or_default policy l).0
  unfolding or_default
  or_default-mem [] x c m = elim m [ ]
  or_default-mem (y ∷ l) x c m = mem-sort_by by_group c (y ∷ l)

  pub candidate_tiers-groups :
      (u : User) (up : UserPolicy)
      → up.tier_override ≡ none
      → candidate_tiers u policy up ≡ or_default policy (from_groups policy u.group_uuids)
  unfolding candidate_tiers
  candidate_tiers-groups u up e = rw (e, candidate_tiers)

  module _ (p : ℕ) (up : UserPolicy) (no_quota : lookup p up.provider_overrides ≡ none)
      (no_tier : up.tier_override ≡ none) where
    -- An offer to the one is an offer to the other, so it does not beat the other's ceiling.
    offer_covered :
        (v : User) (x c : TierCandidate) (o : Quota)
        → Memᴰ x (from_groups policy v.group_uuids)
        → Memᴰ c (from_groups policy v.group_uuids)
        → offer_of policy p c ≡ some o
        → ((resolve v p policy up).present ≡ true)
          × (more_generous o (resolve v p policy up).ceiling ≡ false)
    offer_covered v x c o mx mc e =
        let inside : Memᴰ c (candidate_tiers v policy up).0 =
          subst (λ r. Memᴰ c r.0) (sym (candidate_tiers-groups v up no_tier))
            ((or_default-mem (from_groups policy v.group_uuids) x c mx).0 mc) in
        elim (resolve-IsChosen v p policy up no_quota) [
          | inl silent ↦ absurd (cc (silent.3 c inside, e))
          | inr best ↦ (best.0, best.3 c o inside e)
        ]

    -- A ceiling that is present is an offer of one of the groups' candidates.
    pub ceiling_source :
        (u : User) (x : TierCandidate)
        → Memᴰ x (from_groups policy u.group_uuids)
        → (resolve u p policy up).present ≡ true
        → (c : TierCandidate) × Memᴰ c (from_groups policy u.group_uuids)
          × (offer_of policy p c ≡ some (resolve u p policy up).ceiling)
    ceiling_source u x mx present = elim (resolve-IsChosen u p policy up no_quota) [
      | inl silent ↦ absurd (cc (silent.0, present))
      | inr best ↦
          let (c, m, e) = best.2 in
          (
            c,
            (or_default-mem (from_groups policy u.group_uuids) x c mx).1
                (subst (λ r. Memᴰ c r.0) (candidate_tiers-groups u up no_tier) m),
            e,
          )
    ]

    pub ceiling_mono :
        (u v : User) (x : TierCandidate)
        → IsWithin u v
        → Memᴰ x (from_groups policy u.group_uuids)
        → (resolve u p policy up).present ≡ true
        → ((resolve v p policy up).present ≡ true)
          × (more_generous (resolve u p policy up).ceiling (resolve v p policy up).ceiling ≡ false)
    ceiling_mono u v x w mx present =
        let (c, m, e) = ceiling_source u x mx present in
        offer_covered v x c (resolve u p policy up).ceiling (from_groups-IsWithin u v x w mx)
          (from_groups-IsWithin u v c w m) e

    -- The ceiling stays, and the earlier one is at most that one.
    pub ceiling-IsAtMost :
        (u v : User) (x : TierCandidate)
        → IsWithin u v
        → Memᴰ x (from_groups policy u.group_uuids)
        → (resolve u p policy up).present ≡ true
        → ((resolve v p policy up).present ≡ true)
          × IsAtMost (resolve u p policy up).ceiling (resolve v p policy up).ceiling
    ceiling-IsAtMost u v x w mx present =
        let (there, least) = ceiling_mono u v x w mx present in
        let (c, _, e) = ceiling_source u x mx present in
        let (d, _, f) = ceiling_source v x (from_groups-IsWithin u v x w mx) there in
        let (vc, kc) = valid-offer_of policy p c (resolve u p policy up).ceiling e in
        let (vd, kd) = valid-offer_of policy p d (resolve v p policy up).ceiling f in
        (
          there,
          more_generous-IsAtMost (resolve u p policy up).ceiling (resolve v p policy up).ceiling vc
              vd kc kd least,
        )

-- Adding groups to a person who has one that maps to a tier never takes a ceiling away, and never
-- shrinks it: the later ceiling is unlimited, or both are in bytes and the later one has at least
-- as many. It is for a provider with no override, and a person with no tier of their own.
pub resolve_mono :
    (policy : Policy) (p : ℕ) (up : UserPolicy) (u v : User) (g : Text) (tier_id : ℕ)
    → lookup p up.provider_overrides ≡ none
    → up.tier_override ≡ none
    → IsWithin u v
    → Memᴰ g u.group_uuids
    → MapsTo policy g tier_id
    → (resolve u p policy up).present ≡ true
    → ((resolve v p policy up).present ≡ true)
      × IsAtMost (resolve u p policy up).ceiling (resolve v p policy up).ceiling
resolve_mono policy p up u v g tier_id no_quota no_tier w m e present =
    ceiling-IsAtMost policy p up no_quota no_tier u v (record { tier_id = tier_id; group_uuid = g })
      w (from_groups-mem policy u.group_uuids g tier_id m e) present
