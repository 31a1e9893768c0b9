-- ===== src/Core/Plan/Order.antt =====
-- The shape of a plan: `BuildPlan`, `CountByClass` and `Applicable` of internal/core/plan.go. A plan
-- is sorted, loses nothing, and its counts add up.
use mathlib.Core.List.{Perm}
use nuno.Prelude.{
  ℕ, suc, ◌+◌, ◌≡◌, refl, ◌∙◌, ap, Bool, true, false, ◌&&◌, List, [], ◌∷◌, length, arith, All,
  All-mem, All_of_mem, subst, if◌then◌else◌,
}
use nuno.Prelude.Text.{
  Text, text_lt, text_eq_iff, text_lt_asymm, text_ge_trans, text_lt_irrefl, text_lt_total,
}
use nuno.Prelude.Sort.{IsSorted, insert_by, sort_by, sort_by-IsSorted, sort_by-perm}
use nuno.Core.Plan.{
  class_safe, class_shrink_below_usage, class_unknown_state, Change, PlanAccount, Plan, change_of,
  is_settled, collect, count_class, count_by_class, applicable_changes, applicable, change_before,
  build_plan,
}
use nuno.Core.Plan.Guards.{gives_change, collect_step}

change_before_asymm : (a b : Change) → change_before a b ≡ true → change_before b a ≡ false
unfolding change_before
change_before_asymm a b h = ground (
  arith,
  text_eq_iff a.user_uid b.user_uid,
  text_eq_iff b.user_uid a.user_uid,
  text_eq_iff a.provider b.provider,
  text_eq_iff b.provider a.provider,
  text_lt_asymm a.user_uid b.user_uid,
  text_lt_asymm a.provider b.provider,
)

change_before_ge_trans :
    (a b c : Change)
    → change_before b a ≡ false
    → change_before c b ≡ false
    → change_before c a ≡ false
unfolding change_before
change_before_ge_trans a b c h k = ground (
  arith,
  text_eq_iff b.user_uid a.user_uid,
  text_eq_iff c.user_uid b.user_uid,
  text_eq_iff c.user_uid a.user_uid,
  text_eq_iff b.provider a.provider,
  text_eq_iff c.provider b.provider,
  text_eq_iff c.provider a.provider,
  text_ge_trans a.user_uid b.user_uid c.user_uid,
  text_ge_trans a.provider b.provider c.provider,
  text_lt_total b.user_uid a.user_uid,
  text_lt_irrefl a.provider,
  text_lt_irrefl b.provider,
)

-- The changes that the accounts call for, in the order of the accounts.
abbrev pub changes_of : List PlanAccount → List Change
changes_of [] = []
changes_of (a ∷ rest) = if gives_change a then change_of a ∷ changes_of rest else changes_of rest

changes-collect : (l : List PlanAccount) → (collect l).changes ≡ changes_of l
changes-collect [] = unfold collect in refl
changes-collect (a ∷ l) = collect_step a l ∙ rw (changes-collect l) refl

-- The later change is not of a person with a lower uid, and for the same uid not of a provider with
-- a lower name.
abbrev pub IsInOrder : Change → Change → Type 0
IsInOrder earlier later =
    (text_lt later.user_uid earlier.user_uid ≡ false)
    × (later.user_uid ≡ earlier.user_uid → text_lt later.provider earlier.provider ≡ false)

abbrev pub AreInOrder : List Change → Type 0
AreInOrder [] = Unit
AreInOrder (c ∷ rest) = All (IsInOrder c) rest × AreInOrder rest

-- Equal texts are not one before the other.
text_lt_same : (x y : Text) → x ≡ y → text_lt x y ≡ false
text_lt_same x y e = subst (λ z. text_lt x z ≡ false) e (text_lt_irrefl x)

change_before-IsInOrder : (a b : Change) → change_before b a ≡ false → IsInOrder a b
unfolding change_before
change_before-IsInOrder a b h = (
  ground (arith, h, text_eq_iff b.user_uid a.user_uid, text_lt_same b.user_uid a.user_uid),
  λ e. ground (
    arith,
    h,
    (text_eq_iff b.user_uid a.user_uid).1 e,
    text_eq_iff b.provider a.provider,
    text_lt_same b.provider a.provider,
  ),
)

IsSorted-AreInOrder : (l : List Change) → IsSorted change_before l → AreInOrder l
IsSorted-AreInOrder [] s = tt
IsSorted-AreInOrder (c ∷ l) (h, s) = (
  All_of_mem (IsInOrder c) l
      (λ d m. change_before-IsInOrder c d (All-mem (λ x. change_before x c ≡ false) l h m)),
  IsSorted-AreInOrder l s,
)

-- A plan's changes are those that the accounts call for, each as often, in the order of the uids of
-- their people and, for one uid, of the names of their providers.
pub build_plan-IsSorted :
    (l : List PlanAccount)
    → Perm (build_plan l).changes (changes_of l) × AreInOrder (build_plan l).changes
unfolding build_plan
build_plan-IsSorted l = (
  rw (← changes-collect l) (sort_by-perm change_before (collect l).changes),
  IsSorted-AreInOrder (sort_by change_before (collect l).changes) (
      sort_by-IsSorted change_before change_before_asymm change_before_ge_trans
        (collect l).changes),
)

-- The accounts whose state is trusted and whose ceiling is already there.
abbrev pub settled_count : List PlanAccount → ℕ
settled_count [] = 0
settled_count (a ∷ rest) = (if a.present && is_settled a then 1 else 0) + settled_count rest

collect_counts :
    (l : List PlanAccount)
    → length (collect l).changes + (collect l).unallocated + settled_count l ≡ length l
unfolding collect
collect_counts [] = refl
collect_counts (a ∷ l) = ground (arith, collect_counts l)

length-insert_by :
    (x : Change) (l : List Change) → length (insert_by change_before x l) ≡ suc (length l)
unfolding insert_by
length-insert_by x [] = refl
length-insert_by x (y ∷ l) = ground (arith, length-insert_by x l)

length-sort_by : (l : List Change) → length (sort_by change_before l) ≡ length l
unfolding sort_by
length-sort_by [] = refl
length-sort_by (x ∷ l) = length-insert_by x (sort_by change_before l) ∙ ap suc (length-sort_by l)

count_classes :
    (l : List Change)
    → count_class class_safe l
        + count_class class_shrink_below_usage l
        + count_class class_unknown_state l
      ≡ length l
unfolding count_class
count_classes [] = refl
count_classes (c ∷ l) = ground (arith, count_classes l)

-- Every account is a change, is without a ceiling, or is settled; and every change is counted in
-- one of the three classes.
pub build_plan_counts :
    (l : List PlanAccount)
    → (length (build_plan l).changes + (build_plan l).unallocated + settled_count l ≡ length l)
      × (count_by_class (build_plan l) class_safe
            + count_by_class (build_plan l) class_shrink_below_usage
            + count_by_class (build_plan l) class_unknown_state
          ≡ length (build_plan l).changes)
unfolding build_plan count_by_class
build_plan_counts l = (
  omega (arith, collect_counts l, length-sort_by (collect l).changes),
  count_classes (sort_by change_before (collect l).changes),
)

length-applicable :
    (l : List Change) (consent : Bool)
    → length (applicable_changes l consent)
      ≡ count_class class_safe l + (if consent then count_class class_shrink_below_usage l else 0)
unfolding applicable_changes count_class
length-applicable [] consent = ground arith
length-applicable (c ∷ l) consent = ground (arith, length-applicable l consent)

-- What may be written is as much as the plan counts: the safe changes, and with consent those that
-- shrink below usage too.
pub applicable_counts :
    (p : Plan) (consent : Bool)
    → length (applicable p consent)
      ≡ count_by_class p class_safe
        + (if consent then count_by_class p class_shrink_below_usage else 0)
unfolding applicable count_by_class
applicable_counts p consent = length-applicable p.changes consent
