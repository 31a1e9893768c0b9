-- ===== src/Reconcile/Process.antt =====
-- One change of the loop of `Apply` in internal/reconcile/apply.go. The state of a run is its
-- report, the two maps that the loop keeps, and what it did: the calls of the store and of SetQuota,
-- the latest first.
pub mod Steps
use nuno.Prelude.{
  ℕ, suc, ◌==◌, Bool, true, false, not, Option, none, some, List, [], ◌∷◌, ◌++◌, Result, ok, err,
  if◌then◌else◌, contains, ℕ_eq,
}
use nuno.Prelude.Int.{ℤ, pos, ltb_ℤ, leb_ℤ, ◌-ℤ◌}
use nuno.Prelude.Text.{Text}
use nuno.Prelude.Dict.{Dict, lookup, write}
use nuno.Core.Quota.{equal}
use nuno.Core.Model.{Account}
use nuno.Core.Errors.{CallError, throttled_by}
use nuno.Core.Plan.{
  Change, ChangeClass, class_safe, class_shrink_below_usage, class_unknown_state, Plan, class_eq,
  applicable,
}
use nuno.Reconcile.Instance.{Instance, SetCall, call_set_quota, degraded, by_provider}
use nuno.Reconcile.Report.{
  RunMode, run_dry_run, run_apply, AuditResult, audit_applied, audit_failed, audit_refused,
  audit_skipped, ApplyOptions, RunError, write_failed, AuditDetail, nothing_to_say, no_consent,
  stopped_earlier, limit_reached, throttled_by_provider, refused_as, refused_degraded, failed_with,
  class_moved, ApplyReport, new_report, finish_status, StoreCall, record_change,
  mark_account_unobserved, update_observed_account, finish_run,
}
use nuno.Reconcile.Pacer.{Pacer, new_pacer, allow}
use nuno.Reconcile.Recheck.{recheck}

-- What a run takes from outside: the clock, the pause between two writes, which a cancelled context
-- ends with an error, and the store's `StartRun`.
pub record Engine (W : Type 0) : Type 0 where
  pub now : W → ℤ
  pub sleep : W → Result CallError (Unit {0}) × W
  pub start_run : RunMode → Text → Bool → W → Result CallError ℕ × W

-- A call of SetQuota, the change that it is for, the account as it was just read, and the services
-- at that read.
pub record Write (W : Type 0) : Type 0 where
  pub change : Change
  pub fresh : Account
  pub read_at : W
  pub call : SetCall W

pub record RunState (W : Type 0) : Type 0 where
  pub report : ApplyReport
  pub pacers : Dict ℕ Pacer
  pub stopped : List ℕ
  pub calls : List StoreCall
  pub writes : List (Write W)
  -- The error that ends the run at once.
  pub cause : Option CallError
  pub world : W

-- What the store is told after a write: the account as it was read back, or that it was not.
unfoldable pub store_written : ℤ → Change → Result CallError Account → StoreCall
store_written now c (err e) = mark_account_unobserved c.provider_id c.external_id
store_written now c (ok account) = update_observed_account c.provider_id account now

module _ {W : Type 0} where
  -- `record`
  abbrev pub audit : Text → Change → AuditResult → AuditDetail → RunState W → RunState W
  audit actor c result detail s = record s {
    calls = record_change s.report.run_id actor c result detail ∷ s.calls;
  }

  -- `stopped[change.ProviderID] = true`
  abbrev pub stop : Change → RunState W → RunState W
  stop c s = record s { stopped = c.provider_id ∷ s.stopped }

  abbrev pub skip : RunState W → RunState W
  skip s = record s { report = record s.report { skipped = suc s.report.skipped } }

  abbrev pub throttle : Text → Change → AuditDetail → RunState W → RunState W
  throttle actor c detail s =
      audit actor c audit_skipped detail
        (stop c (record s { report = record s.report { throttled = true } }))

  abbrev pub fail : Text → Change → RunError → RunState W → RunState W
  fail actor c e s = audit actor c audit_failed (failed_with e) (
      stop c (record s {
        report = record s.report {
          failed = suc s.report.failed;
          errors = s.report.errors ++ (e ∷ []);
        };
      }))

  -- `refreshAfterWrite`
  unfoldable pub refresh_after_write : Engine W → Instance W → Change → RunState W → RunState W
  unfolding store_written
  refresh_after_write e i c s =
      let (answer, w) = i.provider.get_account c.external_id s.world in
      record s { world = w; calls = store_written (e.now w) c answer ∷ s.calls }

  after_set_quota :
      Engine W → Text → Instance W → Change → Result CallError (Unit {0}) → RunState W → RunState W
  unfolding refresh_after_write
  after_set_quota e actor i c (ok _) s = refresh_after_write e i c (
      audit actor c audit_applied nothing_to_say
        (record s { report = record s.report { applied = suc s.report.applied } }))
  after_set_quota e actor i c (err why) s = elim (throttled_by why) [
    | some delay ↦ throttle actor c throttled_by_provider s
    | none ↦ fail actor c (write_failed why) s
  ]

  after_sleep :
      Engine W
      → Text
      → Instance W
      → Change
      → Account
      → W
      → Result CallError (Unit {0})
      → RunState W
      → RunState W
  unfolding after_set_quota
  after_sleep e actor i c fresh read_at (err why) s = record s { cause = some why }
  after_sleep e actor i c fresh read_at (ok _) s =
      let call = call_set_quota i c.external_id c.to s.world in
      after_set_quota e actor i c call.answer (record s {
        world = call.after;
        writes = record { change = c; fresh = fresh; read_at = read_at; call = call } ∷ s.writes;
      })

  unfoldable pub pacer_of : Instance W → Option Pacer → Pacer
  pacer_of i none = new_pacer i.provider
  pacer_of i (some pace) = pace

  paced_write : Engine W → Text → Instance W → Change → Account → W → RunState W → RunState W
  unfolding after_sleep pacer_of
  paced_write e actor i c fresh read_at s =
      let (granted, pace) = allow (pacer_of i (lookup c.provider_id s.pacers)) in
      let t = record s { pacers = write c.provider_id pace s.pacers } in
      if not granted
      then throttle actor c limit_reached t
      else let (answer, w) = e.sleep t.world in
        after_sleep e actor i c fresh read_at answer (record t { world = w })

  after_recheck :
      Engine W
      → ApplyOptions
      → Instance W
      → Change
      → W
      → Result RunError (Account × ChangeClass)
      → RunState W
      → RunState W
  unfolding paced_write
  after_recheck e opts i c read_at (err why) s = fail opts.actor c why s
  after_recheck e opts i c read_at (ok (fresh, class)) s =
      if not (class_eq class c.class)
      then audit opts.actor c audit_refused (class_moved c.class class)
          (record s { report = record s.report { moved = suc s.report.moved } })
      else if equal fresh.quota c.to
      then s
      else if opts.dry_run
      then record s { report = record s.report { applied = suc s.report.applied } }
      else paced_write e opts.actor i c fresh read_at s

  on_instance : Engine W → ApplyOptions → Option (Instance W) → Change → RunState W → RunState W
  unfolding after_recheck
  on_instance e opts none c s = skip s
  on_instance e opts (some i) c s =
      if contains c.provider_id s.stopped
      then audit opts.actor c audit_skipped stopped_earlier (skip s)
      else if degraded i.row
      then audit opts.actor c audit_skipped (refused_degraded i.row.degraded_reason) (skip s)
      else let (answer, w) = recheck i c s.world in
        after_recheck e opts i c s.world answer (record s { world = w })

  -- One change of the loop.
  unfoldable pub process :
      Engine W → ApplyOptions → Dict ℕ (Instance W) → Change → RunState W → RunState W
  unfolding on_instance
  process e opts instances c s = on_instance e opts (lookup c.provider_id instances) c s
