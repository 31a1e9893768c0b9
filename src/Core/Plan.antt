-- ===== src/Core/Plan.antt =====
-- internal/core/plan.go: what a run would write, and what it may write. A change's explanation is a
-- constructor with what its text shows.
pub mod Guards
pub mod Complete
pub mod Unchanged
pub mod Order
mod Tests
use nuno.Prelude.{
  ℕ, suc, ◌+◌, Bool, true, false, not, ◌&&◌, List, [], ◌∷◌, if◌then◌else◌, length, is_empty,
}
use nuno.Prelude.Int.{pos, ltb_ℤ, leb_ℤ}
use nuno.Prelude.Text.{Text, text_lt, text_eq}
use nuno.Prelude.Sort.{sort_by}
use nuno.Core.Quota.{Quota, is_known, is_bytes, equal}
use nuno.Core.Model.{User}
use nuno.Core.Resolve.{ResolutionRule}

pub data ChangeClass : Type 0 where
  class_safe class_shrink_below_usage class_unknown_state : ChangeClass

-- `ChangeClass.Consentable`
pub consentable : ChangeClass → Bool
consentable class_shrink_below_usage = true
consentable _ = false

-- `==` on classes.
unfoldable pub class_eq : ChangeClass → ChangeClass → Bool
class_eq class_safe class_safe = true
class_eq class_shrink_below_usage class_shrink_below_usage = true
class_eq class_unknown_state class_unknown_state = true
class_eq _ _ = false

pub data Detail : Type 0 where
  no_detail not_read no_quota_reported usage_not_trusted not_expressible : Detail
  at_or_below : Quota → Quota → Detail

pub record Change : Type 0 where
  pub user_id : ℕ
  pub user_uid : Text
  pub provider_id : ℕ
  pub provider : Text
  pub external_id : Text
  pub from : Quota
  pub to : Quota
  pub class : ChangeClass
  pub detail : Detail
  pub rule : ResolutionRule
  pub tier_name : Text

pub record PlanAccount : Type 0 where
  pub user : User
  pub provider_id : ℕ
  pub provider : Text
  pub external_id : Text
  pub desired : Quota
  pub present : Bool
  pub observed : Quota
  pub used : Quota
  pub never_used : Bool
  pub observe_ok : Bool
  pub rule : ResolutionRule
  pub tier_name : Text

pub record Plan : Type 0 where
  pub changes : List Change
  pub unallocated : ℕ

-- `Plan.Empty`
unfoldable pub empty : Plan → Bool
empty p = is_empty p.changes

pub count_class : ChangeClass → List Change → ℕ
unfolding class_eq
count_class k [] = 0
count_class k (c ∷ rest) = (if class_eq c.class k then 1 else 0) + count_class k rest

-- `Plan.CountByClass`: a class that does not occur counts 0, as in a Go map.
unfoldable pub count_by_class : Plan → ChangeClass → ℕ
unfolding count_class
count_by_class p k = count_class k p.changes

pub may_write : ChangeClass → Bool → Bool
may_write class_safe consent_shrink = true
may_write class_shrink_below_usage consent_shrink = consent_shrink
may_write class_unknown_state consent_shrink = false

pub applicable_changes : List Change → Bool → List Change
unfolding may_write
applicable_changes [] consent_shrink = []
applicable_changes (c ∷ rest) consent_shrink =
    let later = applicable_changes rest consent_shrink in
    if may_write c.class consent_shrink then c ∷ later else later

-- `Plan.Applicable`
unfoldable pub applicable : Plan → Bool → List Change
unfolding applicable_changes
applicable p consent_shrink = applicable_changes p.changes consent_shrink

unfoldable pub classify : PlanAccount → ChangeClass × Detail
classify a =
    if not a.observe_ok
    then (class_unknown_state, not_read)
    else if not (is_known a.observed)
    then (class_unknown_state, no_quota_reported)
    else if not (is_known a.used)
    then (class_unknown_state, usage_not_trusted)
    else if not (is_known a.desired)
    then (class_unknown_state, not_expressible)
    else if is_bytes a.desired && (is_bytes a.used && leb_ℤ a.desired.bytes a.used.bytes)
    then (if a.never_used && ltb_ℤ (pos 0) a.desired.bytes
        then (class_safe, no_detail)
        else (class_shrink_below_usage, at_or_below a.desired a.used))
    else (class_safe, no_detail)

-- The change that an account with a ceiling gives rise to.
pub change_of : PlanAccount → Change
change_of a =
    let (class, detail) = classify a in
    record {
      user_id = a.user.id;
      user_uid = a.user.uid;
      provider_id = a.provider_id;
      provider = a.provider;
      external_id = a.external_id;
      from = a.observed;
      to = a.desired;
      class = class;
      detail = detail;
      rule = a.rule;
      tier_name = a.tier_name;
    }

pub is_settled : PlanAccount → Bool
is_settled a = not (class_eq (classify a).0 class_unknown_state) && equal a.desired a.observed

-- The loop of `BuildPlan`.
pub collect : List PlanAccount → Plan
unfolding change_of is_settled
collect [] = record { changes = []; unallocated = 0 }
collect (a ∷ rest) =
    let later = collect rest in
    if not a.present
    then record later { unallocated = suc later.unallocated }
    else if is_settled a
    then later
    else record later { changes = change_of a ∷ later.changes }

-- By person, then by provider.
unfoldable pub change_before : Change → Change → Bool
change_before a b =
    if not (text_eq a.user_uid b.user_uid)
    then text_lt a.user_uid b.user_uid
    else if not (text_eq a.provider b.provider)
    then text_lt a.provider b.provider
    else false

sort_changes : Plan → Plan
unfolding change_before
sort_changes p = record p { changes = sort_by change_before p.changes }

-- `BuildPlan`
unfoldable pub build_plan : List PlanAccount → Plan
unfolding sort_changes collect
build_plan accounts = sort_changes (collect accounts)
