-- ===== src/Core/Resolve.antt =====
-- internal/core/resolve.go: which ceiling a person gets on one provider, and why. The notes are
-- constructors with what their text shows. `rule_unset` is the empty string of a zero value.
pub mod Generous
pub mod Offers
pub mod Chosen
pub mod Groups
pub mod SameGroups
pub mod Effective
mod Tests
use nuno.Prelude.{
  ℕ, Bool, true, false, not, ◌||◌, Option, none, some, List, [], ◌∷◌, ◌++◌, ok, err, Result,
  contains, if◌then◌else◌, is_empty, Key, ◌==◌, ℕ_eq,
}
use nuno.Prelude.Int.{ℤ, pos, ltb_ℤ, add64}
use nuno.Prelude.Text.{Text, text_lt, text_eq, Text_eq}
use nuno.Prelude.Dict.{Dict, lookup}
use nuno.Prelude.Sort.{sort_by}
use nuno.Core.Quota.{
  Quota, QuotaError, unknown, unlimited, bytes_quota, is_known, is_unlimited, is_bytes,
}
use nuno.Core.Model.{User}
use nuno.Core.Policy.{Tier, allocation_for, overcommitted}

pub data ResolutionRule : Type 0 where
  rule_provider_override rule_user_tier rule_group_tier rule_default_tier rule_none rule_unset :
      ResolutionRule

pub data Note : Type 0 where
  missing_tier : ℕ → Note
  over_committed : Text → Note

pub record Candidate : Type 0 where
  pub tier_id : ℕ
  pub tier_name : Text
  pub group_uuid : Text
  pub offered : Quota
  pub allocates : Bool

pub record Resolution : Type 0 where
  pub present : Bool
  pub ceiling : Quota
  pub rule : ResolutionRule
  pub tier_id : ℕ
  pub tier_name : Text
  pub group_uuid : Text
  pub candidates : List Candidate
  pub notes : List Note

pub record Policy : Type 0 where
  pub tiers : Dict ℕ Tier
  pub group_tiers : Dict Text ℕ
  pub default_tier_id : Option ℕ

pub record UserPolicy : Type 0 where
  pub provider_overrides : Dict ℕ Quota
  pub tier_override : Option ℕ

pub record TierCandidate : Type 0 where
  pub tier_id : ℕ
  pub group_uuid : Text

-- `moreGenerous`
pub more_generous : Quota → Quota → Bool
unfolding is_known is_unlimited
more_generous candidate current =
    if not (is_known candidate)
    then false
    else if is_unlimited current
    then false
    else if is_unlimited candidate
    then true
    else if not (is_known current)
    then true
    else ltb_ℤ current.bytes candidate.bytes

by_group : TierCandidate → TierCandidate → Bool
by_group a b = text_lt a.group_uuid b.group_uuid

pub from_groups : Policy → List Text → List TierCandidate
from_groups policy [] = []
from_groups policy (g ∷ rest) = elim (lookup g policy.group_tiers) [
  | none ↦ from_groups policy rest
  | some tier_id ↦ record { tier_id = tier_id; group_uuid = g } ∷ from_groups policy rest
]

pub or_default : Policy → List TierCandidate → List TierCandidate × ResolutionRule
or_default policy [] = elim policy.default_tier_id [
  | none ↦ ([], rule_none)
  | some tier_id ↦ (record { tier_id = tier_id; group_uuid = [] } ∷ [], rule_default_tier)
]
or_default policy (c ∷ rest) = (sort_by by_group (c ∷ rest), rule_group_tier)

-- `candidateTiers`
pub candidate_tiers : User → Policy → UserPolicy → List TierCandidate × ResolutionRule
unfolding or_default
candidate_tiers user policy up = elim up.tier_override [
  | some tier_id ↦ (record { tier_id = tier_id; group_uuid = [] } ∷ [], rule_user_tier)
  | none ↦ or_default policy (from_groups policy user.group_uuids)
]

has_note : Text → List Note → Bool
has_note name [] = false
has_note name (missing_tier n ∷ rest) = has_note name rest
has_note name (over_committed other ∷ rest) =
    if text_eq other name then true else has_note name rest

note_overcommit : Tier → List Note → List Note
unfolding has_note
note_overcommit tier notes =
    if overcommitted tier
    then (if has_note tier.name notes then notes else notes ++ over_committed tier.name ∷ [])
    else notes

-- The body of the loop of `Resolve` for a tier that exists.
weigh : ResolutionRule → ℕ → TierCandidate → Tier → Resolution → Resolution
unfolding note_overcommit
weigh rule provider_id candidate tier result =
    let (offered, allocates) = allocation_for tier provider_id in
    let entry : Candidate = record {
      tier_id = tier.id;
      tier_name = tier.name;
      group_uuid = candidate.group_uuid;
      offered = offered;
      allocates = allocates;
    } in
    let noted : Resolution = record result {
      candidates = result.candidates ++ entry ∷ [];
      notes = note_overcommit tier result.notes;
    } in
    if not allocates
    then noted
    else if not result.present || more_generous offered result.ceiling
    then record noted {
      present = true;
      ceiling = offered;
      rule = rule;
      tier_id = tier.id;
      tier_name = tier.name;
      group_uuid = candidate.group_uuid;
    }
    else noted

consider : ResolutionRule → ℕ → Policy → TierCandidate → Resolution → Resolution
consider rule provider_id policy candidate result = elim (lookup candidate.tier_id policy.tiers) [
  | none ↦ record result { notes = result.notes ++ missing_tier candidate.tier_id ∷ [] }
  | some tier ↦ weigh rule provider_id candidate tier result
]

pub consider_all : ResolutionRule → ℕ → Policy → List TierCandidate → Resolution → Resolution
consider_all rule provider_id policy [] result = result
consider_all rule provider_id policy (c ∷ rest) result =
    consider_all rule provider_id policy rest (consider rule provider_id policy c result)

by_tier_name : Candidate → Candidate → Bool
by_tier_name a b = text_lt a.tier_name b.tier_name

abbrev pub no_resolution : Resolution
no_resolution = record {
  present = false;
  ceiling = unknown;
  rule = rule_none;
  tier_id = 0;
  tier_name = [];
  group_uuid = [];
  candidates = [];
  notes = [];
}

sort_candidates : Resolution → Resolution
sort_candidates r = record r { candidates = sort_by by_tier_name r.candidates }

resolve_tiers : ℕ → Policy → List TierCandidate × ResolutionRule → Resolution
unfolding sort_candidates
resolve_tiers provider_id policy (candidates, rule) =
    sort_candidates (consider_all rule provider_id policy candidates no_resolution)

-- `Resolve`
pub resolve : User → ℕ → Policy → UserPolicy → Resolution
resolve user provider_id policy up = elim (lookup provider_id up.provider_overrides) [
  | some quota ↦ record no_resolution {
    present = true;
    ceiling = quota;
    rule = rule_provider_override;
  }
  | none ↦ resolve_tiers provider_id policy (candidate_tiers user policy up)
]

collect_names : User → List ℕ → Policy → UserPolicy → List Text → List Text
collect_names user [] policy up names = names
collect_names user (p ∷ rest) policy up names =
    let name = (resolve user p policy up).tier_name in
    collect_names user rest policy up
      (if is_empty name || contains name names then names else names ++ name ∷ [])

-- `TierNames`: the provider overrides are set aside.
pub tier_names : User → List ℕ → Policy → UserPolicy → List Text
unfolding collect_names
tier_names user provider_ids policy up = sort_by text_lt (
    collect_names user provider_ids policy
      (record { provider_overrides = []; tier_override = up.tier_override }) [])

-- The loop of `EffectiveBudget`; `none` is its early return of `Unlimited`.
add_ceilings : ℤ → Bool → List Resolution → Option (ℤ × Bool)
add_ceilings total found [] = some (total, found)
add_ceilings total found (r ∷ rest) = elim r.present [
  | false ↦ add_ceilings total found rest
  | true ↦ elim (is_unlimited r.ceiling) [
    | true ↦ none
    | false ↦ elim (is_bytes r.ceiling) [
      | true ↦ add_ceilings (add64 total r.ceiling.bytes) true rest
      | false ↦ add_ceilings total found rest
    ]
  ]
]

or_unknown : Result QuotaError Quota → Quota
or_unknown (ok q) = q
or_unknown (err e) = unknown

budget_of : Option (ℤ × Bool) → Quota
unfolding or_unknown
budget_of none = unlimited
budget_of (some (total, found)) = if found then or_unknown (bytes_quota total) else unknown

-- `EffectiveBudget`
pub effective_budget : List Resolution → Quota
unfolding budget_of
effective_budget resolutions = budget_of (add_ceilings (pos 0) false resolutions)
