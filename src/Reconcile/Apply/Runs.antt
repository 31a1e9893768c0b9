-- ===== src/Reconcile/Apply/Runs.antt =====
-- Induction over a run of `Apply`: a relation of the writes, the pacers and the stopped providers
-- that every change keeps holds at the end, however the run ends.
use nuno.Prelude.{
  ℕ, refl, List, [], ◌∷◌, Result, ok, err, if◌then◌else◌, Memᴰ, Bool-cases, Option-cases, inl, inr,
  ℕ_eq,
}
use nuno.Prelude.Dict.{Dict}
use nuno.Core.Errors.{CallError}
use nuno.Core.Plan.{
  Change, ChangeClass, class_safe, class_shrink_below_usage, class_unknown_state, Plan, applicable,
}
use nuno.Reconcile.Instance.{Instance, by_provider}
use nuno.Reconcile.Report.{ApplyOptions, run_dry_run, run_apply}
use nuno.Reconcile.Pacer.{Pacer}
use nuno.Reconcile.Process.{Engine, Write, RunState, process}
use nuno.Reconcile.Process.Steps.{Step, process-Step}
use nuno.Reconcile.Apply.{
  ApplyError, stale, run_changes, count_refused, refuse_changes, start_state, finish,
  run_plan_changes, started, apply,
}

module _ {W : Type 0} where
  -- The calls of SetQuota that a run made, the latest first; a refused run made none.
  abbrev pub writes_of : Result ApplyError (RunState W) → List (Write W)
  writes_of (ok s) = s.writes
  writes_of (err _) = []

-- The relation holds of these writes and of some end of the two maps.
abbrev pub Ended :
    {W : Type 0} → (List (Write W) → Dict ℕ Pacer → List ℕ → Type 0) → List (Write W) → Type 0
Ended P ws = (ps : Dict ℕ Pacer) × (st : List ℕ) × P ws ps st

module _ {W : Type 0} (P : List (Write W) → Dict ℕ Pacer → List ℕ → Type 0) where
  abbrev Holds : RunState W → Type 0
  Holds s = P s.writes s.pacers s.stopped

  -- Every change of the list keeps the relation.
  abbrev pub Kept : Engine W → ApplyOptions → Dict ℕ (Instance W) → List Change → Type 0
  Kept e opts instances l =
      (c : Change)
      → Memᴰ c l
      → (s t : RunState W) → Step e opts instances c s t
      → P s.writes s.pacers s.stopped
      → P t.writes t.pacers t.stopped

  run_changes-keeps :
      (e : Engine W) (opts : ApplyOptions) (instances : Dict ℕ (Instance W)) (l : List Change)
      (s : RunState W)
      → Kept e opts instances l
      → Holds s
      → Holds (run_changes e opts instances l s)
  unfolding run_changes
  run_changes-keeps e opts instances [] s k h = h
  run_changes-keeps e opts instances (c ∷ l) s k h = elim (Option-cases s.cause) [
    | inl n ↦
        rw (n, run_changes)
          (run_changes-keeps e opts instances l (process e opts instances c s)
            (λ d m. k d (Memᴰ.tail m))
            (k c (Memᴰ.head refl) s (process e opts instances c s)
              (process-Step e opts instances c s) h))
    | inr (why, n) ↦ rw (n, run_changes) h
  ]

  count_refused-keeps :
      (opts : ApplyOptions) (c : Change) (k : ChangeClass) (s : RunState W)
      → Holds s
      → Holds (count_refused opts c k s)
  unfolding count_refused
  count_refused-keeps opts c class_safe s h = h
  count_refused-keeps opts c class_unknown_state s h = h
  count_refused-keeps opts c class_shrink_below_usage s h = elim (Bool-cases opts.consent_shrink) [
    | inl y ↦ rw (y, count_refused) h
    | inr n ↦ rw (n, count_refused) h
  ]

  refuse_changes-keeps :
      (opts : ApplyOptions) (l : List Change) (s : RunState W)
      → Holds s
      → Holds (refuse_changes opts l s)
  unfolding refuse_changes
  refuse_changes-keeps opts [] s h = h
  refuse_changes-keeps opts (c ∷ l) s h =
      refuse_changes-keeps opts l (count_refused opts c c.class s)
        (count_refused-keeps opts c c.class s h)

  started-keeps :
      (e : Engine W) (opts : ApplyOptions) (instances : Dict ℕ (Instance W)) (plan : Plan)
      (r : Result CallError ℕ × W)
      → P [] [] []
      → Kept e opts instances (applicable plan opts.consent_shrink)
      → Ended P (writes_of (started e opts instances plan r).0)
  unfolding started run_plan_changes finish start_state
  started-keeps e opts instances plan (err why, w) h k = ([], [], h)
  started-keeps e opts instances plan (ok id, w) h k =
      let s = refuse_changes opts plan.changes (start_state opts id w) in
      let t = run_changes e opts instances (applicable plan opts.consent_shrink) s in
      (
        t.pacers,
        t.stopped,
        run_changes-keeps e opts instances (applicable plan opts.consent_shrink) s k
            (refuse_changes-keeps opts plan.changes (start_state opts id w) h),
      )

  pub apply-keeps :
      (e : Engine W) (opts : ApplyOptions) (instances : List (Instance W)) (plan : Plan) (w : W)
      → P [] [] []
      → Kept e opts (by_provider instances) (applicable plan opts.consent_shrink)
      → Ended P (writes_of (apply e opts instances plan w).0)
  unfolding apply
  apply-keeps e opts instances plan w h k = elim (Bool-cases (stale opts (e.now w))) [
    | inl y ↦ rw (y, apply) ([], [], h)
    | inr n ↦
        rw (n, apply)
          (started-keeps e opts (by_provider instances) plan
            (e.start_run (if opts.dry_run then run_dry_run else run_apply) opts.actor
              opts.consent_shrink w)
            h k)
  ]
