-- ===== src/Core/Resolve/Tests.antt =====
-- Runs of the resolution, and each theorem at people who meet its hypotheses.
use nuno.Prelude.{
  ℕ, ◌≡◌, refl, ◌⊎◌, true, false, none, some, List, [], ◌∷◌, Memᴰ, All, arith, ok, ◌<◌, ◌^◌, ℕ_eq,
}
use nuno.Prelude.Int.{pos, add64, wrap64, ◌+ℤ◌}
use nuno.Prelude.Text.{Text, Text_eq, codes, text_eq, text_lt}
use nuno.Prelude.Dict.{lookup}
use nuno.Prelude.Sort.{sort_by}
use nuno.Core.Quota.{
  Quota, kind_bytes, unknown, is_known, is_unlimited, is_bytes, bytes_quota, valid,
}
use nuno.Core.Model.{User, source_ldap, user_active}
use nuno.Core.Policy.{Tier, mode_absolute, allocation_for, overcommitted}
use nuno.Core.Resolve.{
  Policy, UserPolicy, Resolution, more_generous, candidate_tiers, resolve, effective_budget,
  no_resolution, resolve_tiers, consider_all, from_groups, by_group, consider, weigh, add_ceilings,
}
use nuno.Core.Resolve.Offers.{held}
use nuno.Core.Resolve.Generous.{IsAtMost}
use nuno.Core.Resolve.Chosen.{IsSilent, IsMostGenerous, resolve-IsMostGenerous}
use nuno.Core.Resolve.Groups.{IsWithin, resolve_mono}
use nuno.Core.Resolve.SameGroups.{resolve_same_groups}
use nuno.Core.Resolve.Effective.{effective_budget-exact, stated_budget, counted_total}

abbrev bytes : ℕ → Quota
bytes n = record { kind = kind_bytes; bytes = pos n }

abbrev tier : ℕ → ℕ → Tier
tier id n = record {
  id = id;
  name = id ∷ [];
  budget = unknown;
  is_default = false;
  allocations = record { provider_id = 1; mode = mode_absolute; value = pos n } ∷ [];
}

abbrev policy : Policy
policy = record {
  tiers = (10, tier 10 100) ∷ (20, tier 20 200) ∷ [];
  group_tiers = (codes "kids", 10) ∷ (codes "staff", 20) ∷ (codes "gone", 30) ∷ [];
  default_tier_id = some 10;
}

abbrev person : List Text → User
person groups = record {
  id = 1;
  source = source_ldap;
  source_uuid = codes "u-1";
  uid = codes "ada";
  email = [];
  display_name = [];
  status = user_active;
  group_uuids = groups;
}

abbrev plain : UserPolicy
plain = record { provider_overrides = []; tier_override = none }

abbrev both : User
both = person (codes "staff" ∷ codes "kids" ∷ [])

abbrev swapped : User
swapped = person (codes "kids" ∷ codes "staff" ∷ codes "kids" ∷ [])

abbrev kid : User
kid = person (codes "kids" ∷ [])

both-resolve : (resolve both 1 policy plain).ceiling ≡ bytes 200
unfolding resolve candidate_tiers more_generous allocation_for overcommitted lookup sort_by text_eq
    text_lt is_known is_unlimited bytes_quota resolve_tiers consider_all from_groups by_group
    consider weigh
both-resolve = refl

swapped-resolve : (resolve swapped 1 policy plain).tier_id ≡ 20
unfolding resolve candidate_tiers more_generous allocation_for overcommitted lookup sort_by text_eq
    text_lt is_known is_unlimited bytes_quota resolve_tiers consider_all from_groups by_group
    consider weigh
swapped-resolve = refl

kid-present : (resolve kid 1 policy plain).present ≡ true
unfolding resolve candidate_tiers more_generous allocation_for overcommitted lookup sort_by text_eq
    text_lt is_known is_unlimited bytes_quota resolve_tiers consider_all from_groups by_group
    consider weigh
kid-present = refl

no_override : lookup {V = Quota} 1 plain.provider_overrides ≡ none
unfolding lookup
no_override = refl

kids_map : lookup (codes "kids") policy.group_tiers ≡ some 10
unfolding lookup text_eq
kids_map = refl

kid-IsWithin : IsWithin kid both
kid-IsWithin g (Memᴰ.head e) = Memᴰ.tail (Memᴰ.head e)
kid-IsWithin g (Memᴰ.tail m) = elim m [ ]

both-IsWithin : IsWithin both swapped
both-IsWithin g (Memᴰ.head e) = Memᴰ.tail (Memᴰ.head e)
both-IsWithin g (Memᴰ.tail (Memᴰ.head e)) = Memᴰ.head e
both-IsWithin g (Memᴰ.tail (Memᴰ.tail m)) = elim m [ ]

swapped-IsWithin : IsWithin swapped both
swapped-IsWithin g (Memᴰ.head e) = Memᴰ.tail (Memᴰ.head e)
swapped-IsWithin g (Memᴰ.tail (Memᴰ.head e)) = Memᴰ.head e
swapped-IsWithin g (Memᴰ.tail (Memᴰ.tail (Memᴰ.head e))) = Memᴰ.tail (Memᴰ.head e)
swapped-IsWithin g (Memᴰ.tail (Memᴰ.tail (Memᴰ.tail m))) = elim m [ ]

resolve-IsMostGenerous_example :
    let (cs, rule) = candidate_tiers both policy plain in
    let h = held (resolve both 1 policy plain) in
    IsSilent rule policy 1 cs h ⊎ IsMostGenerous rule policy 1 cs h
resolve-IsMostGenerous_example = resolve-IsMostGenerous both 1 policy plain no_override

resolve_mono_example :
    ((resolve both 1 policy plain).present ≡ true)
    × IsAtMost (resolve kid 1 policy plain).ceiling (resolve both 1 policy plain).ceiling
resolve_mono_example =
    resolve_mono policy 1 plain kid both (codes "kids") 10 no_override refl kid-IsWithin
      (Memᴰ.head refl) kids_map kid-present

resolve_same_groups_example :
    ((resolve both 1 policy plain).present ≡ (resolve swapped 1 policy plain).present)
    × ((resolve both 1 policy plain).ceiling ≡ (resolve swapped 1 policy plain).ceiling)
resolve_same_groups_example =
    resolve_same_groups policy 1 plain both swapped no_override refl both-IsWithin swapped-IsWithin

abbrev granted : Quota → Resolution
granted q = record no_resolution { present = true; ceiling = q }

abbrev three : List Resolution
three = granted (bytes 5) ∷ no_resolution ∷ granted (bytes 7) ∷ []

three-valid : All (λ r. valid r.ceiling ≡ ok tt) three
unfolding valid
three-valid = (refl, (refl, (refl, tt)))

three-fits : counted_total three < 2 ^ 63
unfolding is_bytes
three-fits = omega arith

effective_budget-exact_example : effective_budget three ≡ stated_budget three
effective_budget-exact_example = effective_budget-exact three three-valid three-fits

three-effective_budget : effective_budget three ≡ bytes 12
unfolding effective_budget add_ceilings is_unlimited is_bytes bytes_quota add64 wrap64 ◌+ℤ◌
three-effective_budget = refl
