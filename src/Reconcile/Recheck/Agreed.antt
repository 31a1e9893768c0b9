-- ===== src/Reconcile/Recheck/Agreed.antt =====
-- What a recheck that agrees with the plan has seen.
use nuno.Prelude.{
  ◌≡◌, ◌≢◌, refl, sym, ◌∙◌, ap, true, false, [], ◌∷◌, Result, ok, arith, Bool-cases, inl, inr,
}
use nuno.Core.Quota.{Quota, equal}
use nuno.Core.Model.{Account, writable}
use nuno.Core.Plan.{Change, ChangeClass, classify, build_plan}
use nuno.Core.Plan.Guards.{build_plan-single, change_of-IsFor, is_settled_of_differs}
use nuno.Reconcile.Report.{RunError}
use nuno.Reconcile.Recheck.{account_now, first_class, classify_now}

equal_sym : (a b : Quota) → equal a b ≡ false → equal b a ≡ false
unfolding equal
equal_sym a b h = ground arith

ok_class :
    {x : Result RunError (Account × ChangeClass)} {a b : Account} {k l : ChangeClass}
    → x ≡ ok (a, k)
    → x ≡ ok (b, l)
    → k ≡ l
ok_class h g = grind (arith, h, g)

not_writable_refused :
    (c : Change) (fresh : Account)
    → writable fresh ≡ false
    → {a : Account} {k : ChangeClass} → classify_now c (ok fresh) ≢ ok (a, k)
unfolding classify_now
not_writable_refused c fresh n h = ground (arith, n, h)

writable_accepted :
    (c : Change) (fresh : Account)
    → writable fresh ≡ true
    → classify_now c (ok fresh)
      ≡ ok (fresh, first_class c.class (build_plan (account_now c fresh ∷ [])).changes)
unfolding classify_now
writable_accepted c fresh y = ground (arith, y)

class_now :
    (c : Change) (fresh : Account)
    → equal fresh.quota c.to ≡ false
    → first_class c.class (build_plan (account_now c fresh ∷ [])).changes
      ≡ (classify (account_now c fresh)).0
unfolding first_class account_now
class_now c fresh d =
    let a = account_now c fresh in
    let e = build_plan-single a (is_settled_of_differs a (equal_sym fresh.quota c.to d)) refl in
    ap (first_class c.class) e ∙ (change_of-IsFor a).class

-- Where a recheck that agrees finds something to change, the account is writable and classified as
-- the plan had it.
pub classify_now-agrees :
    (c : Change) (fresh : Account)
    → classify_now c (ok fresh) ≡ ok (fresh, c.class)
    → equal fresh.quota c.to ≡ false
    → (writable fresh ≡ true) × ((classify (account_now c fresh)).0 ≡ c.class)
classify_now-agrees c fresh h d = elim (Bool-cases (writable fresh)) [
  | inr n ↦ absurd (not_writable_refused c fresh n h)
  | inl y ↦ (y, sym (class_now c fresh d) ∙ ok_class (writable_accepted c fresh y) h)
]
