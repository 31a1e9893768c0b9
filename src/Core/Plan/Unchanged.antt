-- ===== src/Core/Plan/Unchanged.antt =====
-- `BuildPlan` of internal/core/plan.go over an account that has its ceiling already.
use nuno.Prelude.{◌≡◌, ◌∙◌, ap, true, arith}
use nuno.Core.Quota.{Quota, equal}
use nuno.Core.Plan.{PlanAccount, class_unknown_state, class_eq, is_settled, classify}
use nuno.Core.Plan.Guards.{gives_change}

equal_refl : (q : Quota) → equal q q ≡ true
unfolding equal
equal_refl q = ground arith

-- A change to what is there already is one of unknown state.
pub class_same :
    (a : PlanAccount)
    → a.desired ≡ a.observed
    → gives_change a ≡ true
    → (classify a).0 ≡ class_unknown_state
unfolding is_settled class_eq
class_same a e h =
    let same : equal a.desired a.observed ≡ true =
      ap (λ q. equal q a.observed) e ∙ equal_refl a.observed in
    ground (arith, same, h)
