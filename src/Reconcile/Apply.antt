-- ===== src/Reconcile/Apply.antt =====
-- `Apply` of internal/reconcile/apply.go: the refusals that are counted first, the loop, and how a
-- run starts and ends.
pub mod Runs
pub mod Safe
pub mod Stopped
pub mod Paced
mod Tests
use nuno.Prelude.{
  ℕ, suc, ◌==◌, Bool, true, false, not, Option, none, some, List, [], ◌∷◌, ◌++◌, Result, ok, err,
  if◌then◌else◌, contains, ℕ_eq,
}
use nuno.Prelude.Int.{ℤ, pos, ltb_ℤ, leb_ℤ, ◌-ℤ◌}
use nuno.Prelude.Text.{Text}
use nuno.Prelude.Dict.{Dict, lookup, write}
use nuno.Core.Quota.{equal}
use nuno.Core.Model.{Account}
use nuno.Core.Errors.{CallError, throttled_by}
use nuno.Core.Plan.{
  Change, ChangeClass, class_safe, class_shrink_below_usage, class_unknown_state, Plan, class_eq,
  applicable,
}
use nuno.Reconcile.Instance.{Instance, degraded, by_provider}
use nuno.Reconcile.Report.{
  RunMode, run_dry_run, run_apply, AuditResult, audit_applied, audit_failed, audit_refused,
  audit_skipped, ApplyOptions, RunError, write_failed, AuditDetail, nothing_to_say, no_consent,
  stopped_earlier, limit_reached, throttled_by_provider, refused_as, refused_degraded, failed_with,
  class_moved, ApplyReport, new_report, finish_status, StoreCall, record_change,
  mark_account_unobserved, update_observed_account, finish_run,
}
use nuno.Reconcile.Pacer.{Pacer, new_pacer, allow}
use nuno.Reconcile.Recheck.{recheck}
use nuno.Reconcile.Process.{Engine, Write, RunState, audit, process}

-- `DefaultPlanWindow`: five minutes.
abbrev pub default_plan_window : ℤ
default_plan_window = pos 300000000000

-- How `Apply` returns: refused before the run starts, or with a report and the error of a cancelled
-- context.
pub data ApplyError : Type 0 where
  plan_too_old : ℤ → ℤ → ApplyError
  run_not_started : CallError → ApplyError

unfoldable pub plan_window : ApplyOptions → ℤ
plan_window opts = if leb_ℤ opts.plan_window (pos 0) then default_plan_window else opts.plan_window

-- How old the plan is, where it says when it was computed.
unfoldable pub stale : ApplyOptions → ℤ → Bool
unfolding plan_window
stale opts now = elim opts.computed_at [
  | none ↦ false
  | some computed ↦ ltb_ℤ (plan_window opts) (now -ℤ computed)
]

module _ {W : Type 0} where
  -- The loop over the applicable changes; a cancelled run takes no further one.
  pub run_changes :
      Engine W → ApplyOptions → Dict ℕ (Instance W) → List Change → RunState W → RunState W
  run_changes e opts instances [] s = s
  run_changes e opts instances (c ∷ rest) s = elim s.cause [
    | some why ↦ s
    | none ↦ run_changes e opts instances rest (process e opts instances c s)
  ]

  count_refused : ApplyOptions → Change → ChangeClass → RunState W → RunState W
  count_refused opts c class_safe s = s
  count_refused opts c class_unknown_state s =
      audit opts.actor c audit_refused (refused_as c.detail)
        (record s { report = record s.report { unknown = suc s.report.unknown } })
  count_refused opts c class_shrink_below_usage s =
      if not opts.consent_shrink
      then audit opts.actor c audit_refused no_consent
          (record s { report = record s.report { guarded = suc s.report.guarded } })
      else s

  -- The classes that the plan refused, counted before anything is written.
  pub refuse_changes : ApplyOptions → List Change → RunState W → RunState W
  unfolding count_refused
  refuse_changes opts [] s = s
  refuse_changes opts (c ∷ rest) s = refuse_changes opts rest (count_refused opts c c.class s)

  pub start_state : ApplyOptions → ℕ → W → RunState W
  start_state opts id w = record {
    report = record (new_report opts.dry_run) { run_id = id };
    pacers = [];
    stopped = [];
    calls = [];
    writes = [];
    cause = none;
    world = w;
  }

  -- `finish`
  pub finish : RunState W → RunState W
  finish s = record s {
    calls = finish_run s.report.run_id (finish_status s.report) s.report ∷ s.calls;
  }

  pub run_plan_changes :
      Engine W → ApplyOptions → Dict ℕ (Instance W) → Plan → RunState W → RunState W
  unfolding run_changes refuse_changes finish process
  run_plan_changes e opts instances plan s = finish (
      run_changes e opts instances (applicable plan opts.consent_shrink)
        (refuse_changes opts plan.changes s))

  started :
      Engine W
      → ApplyOptions
      → Dict ℕ (Instance W)
      → Plan
      → Result CallError ℕ × W
      → Result ApplyError (RunState W) × W
  unfolding run_plan_changes start_state
  started e opts instances plan (err why, w) = (err (run_not_started why), w)
  started e opts instances plan (ok id, w) =
      let s = run_plan_changes e opts instances plan (start_state opts id w) in (ok s, s.world)

  -- `Apply`
  unfoldable pub apply :
      Engine W → ApplyOptions → List (Instance W) → Plan → W → Result ApplyError (RunState W) × W
  unfolding started stale
  apply e opts instances plan w =
      let mode = if opts.dry_run then run_dry_run else run_apply in
      if stale opts (e.now w)
      then (err (plan_too_old (e.now w) (plan_window opts)), w)
      else started e opts (by_provider instances) plan
          (e.start_run mode opts.actor opts.consent_shrink w)
