-- ===== src/Store/Policy.antt =====
-- internal/store/policy.go, with the keys that internal/store/migrations/00003_policy.sql gives its
-- tables: tiers, the tier of a group, and the overrides of a person. The rows hold decoded quotas.
-- A row that refers to a tier needs that tier; the rows of people and of providers stand in other
-- tables, and that they exist is not asked here.
pub mod Defaults
pub mod Overrides
mod Tests
use nuno.Prelude.{
  ℕ, suc, ◌+◌, ◌==◌, Bool, true, false, not, ◌&&◌, ◌||◌, Option, none, some, List, [], ◌∷◌, ◌++◌,
  Result, ok, err, ◌>>=◌, ◌>>◌, refuse_if, if◌then◌else◌, ltb, map, ℕ_eq,
}
use nuno.Prelude.Int.{ℤ, pos, ltb_ℤ}
use nuno.Prelude.Text.{Text, text_lt, text_eq, Text_eq}
use nuno.Prelude.Dict.{Dict, lookup, write}
use nuno.Prelude.Sort.{sort_by}
use nuno.Prelude.Table.{next_id, rows_where, exists_row, update_where, delete_where}
use nuno.Core.Quota.{Quota, QuotaError, valid, is_known}
use nuno.Core.Model.{Group}
use nuno.Core.Policy.{Allocation, Tier, TierError, validate}
use nuno.Core.Resolve.{Policy, UserPolicy}

pub data OverrideOrigin : Type 0 where
  override_manual override_adopted : OverrideOrigin

-- A row of `tiers`; the allocations stand in a table of their own.
pub record TierRow : Type 0 where
  pub id : ℕ
  pub name : Text
  pub budget : Quota
  pub is_default : Bool

pub record AllocationRow : Type 0 where
  pub tier_id : ℕ
  pub allocation : Allocation

pub record OverrideRow : Type 0 where
  pub user_id : ℕ
  pub provider_id : ℕ
  pub quota : Quota
  pub origin : OverrideOrigin

pub record PolicyDb : Type 0 where
  pub tiers : List TierRow
  pub allocations : List AllocationRow
  pub groups : List Group
  pub group_tiers : Dict ℕ ℕ
  pub user_tiers : Dict ℕ ℕ
  pub overrides : List OverrideRow

pub data PolicyError : Type 0 where
  bad_tier : TierError → PolicyError
  two_defaults : Text → PolicyError
  allocation_refused : ℕ → PolicyError
  no_tier : ℕ → PolicyError
  no_group : Text → PolicyError
  bad_override : QuotaError → PolicyError
  unknown_override : PolicyError

unfoldable pub find_tier : Text → List TierRow → Option ℕ
find_tier name [] = none
find_tier name (row ∷ rest) =
    let later = find_tier name rest in if text_eq row.name name then some row.id else later

-- The index of the one default tier: no other row than that of `id` may be the default.
other_default : ℕ → TierRow → Bool
other_default id row = row.is_default && not (row.id == id)

put_tier : Tier → Option ℕ → List TierRow → Result PolicyError (ℕ × List TierRow)
unfolding other_default
put_tier t none rows =
    let id = next_id (λ (row : TierRow). row.id) rows in
    if t.is_default && exists_row (other_default id) rows
    then err (two_defaults t.name)
    else ok (
      id,
      rows
          ++ (record { id = id; name = t.name; budget = t.budget; is_default = t.is_default } ∷ []),
    )
put_tier t (some id) rows =
    if t.is_default && exists_row (other_default id) rows
    then err (two_defaults t.name)
    else ok (
      id,
      update_where (λ row. row.id == id)
          (λ row. record row { budget = t.budget; is_default = t.is_default }) rows,
    )

-- The allocations of a tier are inserted one by one: their values are not negative, and none is of
-- a provider that has one.
insert_allocations :
    ℕ → List Allocation → List AllocationRow → Result PolicyError (List AllocationRow)
insert_allocations id [] rows = ok rows
insert_allocations id (a ∷ rest) rows = do
  refuse_if
      (ltb_ℤ a.value (pos 0)
        || exists_row
            (λ (r : AllocationRow). r.tier_id == id && r.allocation.provider_id == a.provider_id)
            rows)
      (allocation_refused a.provider_id)
  insert_allocations id rest (rows ++ (record { tier_id = id; allocation = a } ∷ []))

tier_refused : Result TierError (Unit {0}) → Result PolicyError (Unit {0})
tier_refused (ok _) = ok tt
tier_refused (err e) = err (bad_tier e)

-- `SaveTier`: one transaction.
unfoldable pub save_tier : Tier → PolicyDb → Result PolicyError (ℕ × PolicyDb)
unfolding put_tier insert_allocations tier_refused
save_tier t db = do
  tier_refused (validate t)
  put ← put_tier t (find_tier t.name db.tiers) db.tiers
  allocations ←
      insert_allocations put.0 t.allocations
        (delete_where (λ (r : AllocationRow). r.tier_id == put.0) db.allocations)
  ok (put.0, record db { tiers = put.1; allocations = allocations })

-- `SetDefaultTier`: one transaction.
unfoldable pub set_default_tier : ℕ → PolicyDb → Result PolicyError PolicyDb
set_default_tier id db =
    let cleared =
      update_where (λ (row : TierRow). row.is_default) (λ row. record row { is_default = false })
        db.tiers in
    if exists_row (λ (row : TierRow). row.id == id) cleared
    then ok (record db {
      tiers =
          update_where (λ (row : TierRow). row.id == id) (λ row. record row { is_default = true })
            cleared;
    })
    else err (no_tier id)

keep_tier : List TierRow → ℕ × ℕ → Bool
keep_tier tiers entry = exists_row (λ (row : TierRow). row.id == entry.1) tiers

-- `DeleteTier`: the rows that refer to it go with it.
unfoldable pub delete_tier : Text → PolicyDb → Bool × PolicyDb
unfolding keep_tier
delete_tier name db =
    let tiers = delete_where (λ (row : TierRow). text_eq row.name name) db.tiers in
    (
      exists_row (λ (row : TierRow). text_eq row.name name) db.tiers,
      record db {
        tiers = tiers;
        allocations =
            rows_where
              (λ (r : AllocationRow). exists_row (λ (row : TierRow). row.id == r.tier_id) tiers)
              db.allocations;
        group_tiers = rows_where (keep_tier tiers) db.group_tiers;
        user_tiers = rows_where (keep_tier tiers) db.user_tiers;
      },
    )

unfoldable pub find_group : Text → List Group → Option ℕ
find_group uuid [] = none
find_group uuid (g ∷ rest) =
    let later = find_group uuid rest in if text_eq g.source_uuid uuid then some g.id else later

-- `MapGroupToTier`
unfoldable pub map_group_to_tier : Text → ℕ → PolicyDb → Result PolicyError PolicyDb
map_group_to_tier uuid tier_id db = elim (find_group uuid db.groups) [
  | none ↦ err (no_group uuid)
  | some group_id ↦
      if exists_row (λ (row : TierRow). row.id == tier_id) db.tiers
      then ok (record db { group_tiers = write group_id tier_id db.group_tiers })
      else err (no_tier tier_id)
]

-- `UnmapGroup`
unfoldable pub unmap_group : Text → PolicyDb → Bool × PolicyDb
unmap_group uuid db = elim (find_group uuid db.groups) [
  | none ↦ (false, db)
  | some group_id ↦ (
    exists_row (λ (entry : ℕ × ℕ). entry.0 == group_id) db.group_tiers,
    record db {
      group_tiers = delete_where (λ (entry : ℕ × ℕ). entry.0 == group_id) db.group_tiers;
    },
  )
]

-- `SetUserTierOverride`
unfoldable pub set_user_tier_override : ℕ → Option ℕ → PolicyDb → Result PolicyError PolicyDb
set_user_tier_override user_id none db =
    ok (record db {
      user_tiers = delete_where (λ (entry : ℕ × ℕ). entry.0 == user_id) db.user_tiers;
    })
set_user_tier_override user_id (some tier_id) db =
    if exists_row (λ (row : TierRow). row.id == tier_id) db.tiers
    then ok (record db { user_tiers = write user_id tier_id db.user_tiers })
    else err (no_tier tier_id)

of_pair : ℕ → ℕ → OverrideRow → Bool
of_pair user_id provider_id row = row.user_id == user_id && row.provider_id == provider_id

override_refused : Result QuotaError (Unit {0}) → Result PolicyError (Unit {0})
override_refused (ok _) = ok tt
override_refused (err e) = err (bad_override e)

put_override : OverrideRow → List OverrideRow → List OverrideRow
unfolding of_pair
put_override row rows =
    if exists_row (of_pair row.user_id row.provider_id) rows
    then update_where (of_pair row.user_id row.provider_id) (λ _. row) rows
    else rows ++ (row ∷ [])

-- `SetProviderOverride`
unfoldable pub set_provider_override :
    ℕ → ℕ → Quota → OverrideOrigin → PolicyDb → Result PolicyError PolicyDb
unfolding override_refused put_override
set_provider_override user_id provider_id quota origin db = do
  override_refused (valid quota)
  refuse_if (not (is_known quota)) unknown_override
  ok (record db {
    overrides =
        put_override
          (record { user_id = user_id; provider_id = provider_id; quota = quota; origin = origin })
          db.overrides;
  })

-- `ClearProviderOverride`
unfoldable pub clear_provider_override : ℕ → ℕ → PolicyDb → Bool × PolicyDb
unfolding of_pair
clear_provider_override user_id provider_id db = (
  exists_row (of_pair user_id provider_id) db.overrides,
  record db { overrides = delete_where (of_pair user_id provider_id) db.overrides },
)

allocation_before : AllocationRow → AllocationRow → Bool
allocation_before a b =
    if ltb a.tier_id b.tier_id
    then true
    else a.tier_id == b.tier_id && ltb a.allocation.provider_id b.allocation.provider_id

load_tiers : List TierRow → Policy → Policy
load_tiers [] p = p
load_tiers (row ∷ rest) p = load_tiers rest (record p {
  tiers =
      write row.id
        (record {
          id = row.id;
          name = row.name;
          budget = row.budget;
          is_default = row.is_default;
          allocations = [];
        })
        p.tiers;
  default_tier_id = if row.is_default then some row.id else p.default_tier_id;
})

load_allocations : List AllocationRow → Policy → Policy
load_allocations [] p = p
load_allocations (r ∷ rest) p = load_allocations rest (elim (lookup r.tier_id p.tiers) [
  | none ↦ p
  | some tier ↦ record p {
    tiers =
        write r.tier_id (record tier { allocations = tier.allocations ++ (r.allocation ∷ []) })
          p.tiers;
  }
])

load_group_tiers : List Group → Dict ℕ ℕ → Policy → Policy
load_group_tiers [] entries p = p
load_group_tiers (g ∷ rest) entries p = load_group_tiers rest entries (elim (lookup g.id entries) [
  | none ↦ p
  | some tier_id ↦ record p { group_tiers = write g.source_uuid tier_id p.group_tiers }
])

-- `LoadPolicy`
unfoldable pub load_policy : PolicyDb → Policy
unfolding load_tiers load_allocations load_group_tiers allocation_before
load_policy db = load_group_tiers db.groups db.group_tiers (
    load_allocations (sort_by allocation_before db.allocations) (
      load_tiers (sort_by (λ a b. text_lt a.name b.name) db.tiers)
        (record { tiers = []; group_tiers = []; default_tier_id = none })))

overrides_of : ℕ → List OverrideRow → Dict ℕ Quota → Dict ℕ Quota
overrides_of user_id [] m = m
overrides_of user_id (row ∷ rest) m =
    overrides_of user_id rest
      (if row.user_id == user_id then write row.provider_id row.quota m else m)

-- `UserPolicy`, without the origins, which are only shown.
unfoldable pub user_policy : ℕ → PolicyDb → UserPolicy
unfolding overrides_of
user_policy user_id db = record {
  provider_overrides = overrides_of user_id db.overrides [];
  tier_override = lookup user_id db.user_tiers;
}
