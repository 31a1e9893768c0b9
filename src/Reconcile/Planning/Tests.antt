-- ===== src/Reconcile/Planning/Tests.antt =====
-- A plan over one linked account, and the theorem there.
use nuno.Prelude.{[], ◌∷◌, All}
use nuno.Reconcile.Planning.{plan_run}
use nuno.Reconcile.Planning.Pairs.{IsWanted, plan_run-IsWanted}
use nuno.Reconcile.Planning.Sample.{tables, policies, cloud, everything}

plan_run-IsWanted_example :
    All
      (IsWanted tables policies (cloud ∷ []) everything)
      (plan_run tables policies (cloud ∷ []) everything).plan.changes
plan_run-IsWanted_example = plan_run-IsWanted tables policies (cloud ∷ []) everything
