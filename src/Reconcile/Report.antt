-- ===== src/Reconcile/Report.antt =====
-- What a run is asked and what it reports: the options and the report of
-- internal/reconcile/apply.go, with the run modes and audit results of internal/store.
use nuno.Prelude.{
  arith, ℕ, ◌≡◌, ◌↔◌, true, ◌==◌, ltb, Bool, false, not, ◌&&◌, ◌||◌, Option, List, [], is_empty,
  if◌then◌else◌, ℕ_eq,
}
use nuno.Prelude.Int.{ℤ}
use nuno.Prelude.Text.{Text}
use nuno.Core.Model.{Account}
use nuno.Core.Errors.{CallError}
use nuno.Core.Plan.{Change, ChangeClass, Detail}

pub data RunMode : Type 0 where
  run_plan run_dry_run run_apply : RunMode

pub data AuditResult : Type 0 where
  audit_applied audit_failed audit_refused audit_skipped : AuditResult

-- Instants and lengths of time are in nanoseconds; `computed_at` is none for the zero time.
pub record ApplyOptions : Type 0 where
  pub consent_shrink : Bool
  pub dry_run : Bool
  pub actor : Text
  pub plan_window : ℤ
  pub computed_at : Option ℤ

-- The errors of a run; a failed read wraps the adapter's.
pub data RunError : Type 0 where
  reread_failed : Text → Text → CallError → RunError
  not_writable_now : Text → Text → RunError
  write_failed : CallError → RunError

-- The explanation of an audit entry.
pub data AuditDetail : Type 0 where
  nothing_to_say no_consent stopped_earlier limit_reached throttled_by_provider : AuditDetail
  refused_as : Detail → AuditDetail
  refused_degraded : Text → AuditDetail
  failed_with : RunError → AuditDetail
  class_moved : ChangeClass → ChangeClass → AuditDetail

pub record ApplyReport : Type 0 where
  pub run_id : ℕ
  pub applied : ℕ
  pub failed : ℕ
  pub guarded : ℕ
  pub unknown : ℕ
  pub moved : ℕ
  pub skipped : ℕ
  pub throttled : Bool
  pub dry_run : Bool
  pub errors : List RunError

abbrev pub new_report : Bool → ApplyReport
new_report dry_run = record {
  run_id = 0;
  applied = 0;
  failed = 0;
  guarded = 0;
  unknown = 0;
  moved = 0;
  skipped = 0;
  throttled = false;
  dry_run = dry_run;
  errors = [];
}

-- `ApplyReport.Clean`
unfoldable pub clean : ApplyReport → Bool
clean r =
    r.failed == 0
    && r.guarded == 0
    && r.unknown == 0
    && r.moved == 0
    && r.skipped == 0
    && not r.throttled
    && is_empty r.errors

-- `ApplyReport.Incomplete`
unfoldable pub incomplete : ApplyReport → Bool
incomplete r = ltb 0 r.guarded || ltb 0 r.unknown || ltb 0 r.moved || ltb 0 r.skipped || r.throttled

pub data RunStatus : Type 0 where
  status_clean status_failed status_incomplete status_dry_run : RunStatus

-- The status that `finish` stores.
unfoldable pub finish_status : ApplyReport → RunStatus
unfolding incomplete
finish_status r =
    if r.dry_run
    then status_dry_run
    else if ltb 0 r.failed || not (is_empty r.errors)
    then status_failed
    else if incomplete r
    then status_incomplete
    else status_clean

-- The calls of the store that a run makes. Their failures are only logged.
pub data StoreCall : Type 0 where
  record_change : ℕ → Text → Change → AuditResult → AuditDetail → StoreCall
  mark_account_unobserved : ℕ → Text → StoreCall
  update_observed_account : ℕ → Account → ℤ → StoreCall
  finish_run : ℕ → RunStatus → ApplyReport → StoreCall

-- But for a dry run, the stored status is clean exactly when the report is, and it is incomplete
-- exactly when the report is and nothing failed.
pub finish_status-clean :
    (r : ApplyReport)
    → r.dry_run ≡ false
    → ((finish_status r ≡ status_clean) ↔ (clean r ≡ true))
      × ((finish_status r ≡ status_incomplete)
          ↔ ((incomplete r ≡ true) × (r.failed ≡ 0) × (r.errors ≡ [])))
unfolding finish_status clean incomplete
finish_status-clean r h = ground arith
