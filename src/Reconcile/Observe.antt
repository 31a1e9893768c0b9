-- ===== src/Reconcile/Observe.antt =====
-- `Observe` of internal/reconcile/observe.go. One reading of the clock stands for those of a cycle,
-- and an error of the database itself is not modelled.
pub mod Kept
mod Tests
use nuno.Prelude.{
  ℕ, suc, ◌+◌, Bool, true, false, not, Option, none, some, List, [], ◌∷◌, ◌++◌, Result, ok, err,
  if◌then◌else◌, length,
}
use nuno.Prelude.Int.{ℤ}
use nuno.Core.Errors.{CallError}
use nuno.Core.Model.{Account, ExternalAccount, writable}
use nuno.Core.Provider.{Provider}
use nuno.Store.Accounts.{AccountError, replace_external_accounts}
use nuno.Store.Links.{LinkError}
use nuno.Store.Providers.{ProviderRecord, save_health, save_observe_result}
use nuno.Store.Db.{Db}
use nuno.Reconcile.Instance.{Instance}
use nuno.Reconcile.Cycle.{
  ObserveError, list_failed, store_failed, ProviderResult, CycleReport, MapOrder, link,
}

pub record ObserveState (W : Type 0) : Type 0 where
  pub world : W
  pub accounts : List ExternalAccount
  pub rows : List (ProviderRecord ObserveError)

-- `result.Skipped`
count_skipped : List Account → ℕ
count_skipped [] = 0
count_skipped (a ∷ rest) = (if not (writable a) then 1 else 0) + count_skipped rest

module _ {W : Type 0} where
  unread : Instance W → Option ObserveError → ProviderResult
  unread i error = record {
    name = i.row.name;
    type_name = i.row.type_name;
    observed = 0;
    skipped = 0;
    linked = 0;
    issues = 0;
    error = error;
  }

  counted : Instance W → List Account → Option ObserveError → ProviderResult
  unfolding unread count_skipped
  counted i accounts error = record (unread i error) {
    observed = length accounts;
    skipped = count_skipped accounts;
  }

  after_replace :
      ℤ
      → Instance W
      → List Account
      → Result AccountError (List ExternalAccount)
      → ObserveState W
      → ProviderResult × ObserveState W
  unfolding counted
  after_replace now i accounts (err e) s = (
    counted i accounts (some (store_failed e)),
    record s { rows = save_observe_result i.row.id now false (some (store_failed e)) s.rows },
  )
  after_replace now i accounts (ok stored) s = (
    counted i accounts none,
    record s { accounts = stored; rows = save_observe_result i.row.id now true none s.rows },
  )

  after_list :
      ℤ
      → Instance W
      → Result CallError (List Account) × W
      → ObserveState W
      → ProviderResult × ObserveState W
  unfolding after_replace
  after_list now i (err e, w) s = (
    unread i (some (list_failed e)),
    record s {
      world = w;
      rows = save_observe_result i.row.id now false (some (list_failed e)) s.rows;
    },
  )
  after_list now i (ok accounts, w) s =
      after_replace now i accounts (replace_external_accounts i.row.id now accounts s.accounts)
        (record s { world = w })

  after_health : Instance W → ObserveState W → ObserveState W
  after_health i s =
      let (health, w) = i.provider.health s.world in
      record s { world = w; rows = save_health list_failed i.row.id health s.rows }

  -- `observeOne`
  unfoldable pub observe_one : ℤ → Instance W → ObserveState W → ProviderResult × ObserveState W
  unfolding after_list after_health
  observe_one now i s =
      let checked = after_health i s in
      if not i.provider.can_read_users
      then (unread i none, checked)
      else after_list now i (i.provider.list_accounts checked.world) checked

  observe_each : ℤ → List (Instance W) → ObserveState W → List ProviderResult × ObserveState W
  unfolding observe_one
  observe_each now [] s = ([], s)
  observe_each now (i ∷ rest) s =
      let first = observe_one now i s in
      let later = observe_each now rest first.1 in (first.0 ∷ later.0, later.1)

  -- `Observe`: the error of `link`, the tables, the report, the rows of the providers and the
  -- services outside.
  unfoldable pub observe :
      ℤ
      → MapOrder
      → List (Instance W)
      → Db
      → ObserveState W
      → Option LinkError × Db × CycleReport × ObserveState W
  unfolding observe_each
  observe now order instances db s =
      let read = observe_each now instances (record s { accounts = db.accounts }) in
      let report : CycleReport = record {
        started_at = now;
        finished_at = now;
        providers = read.0;
      } in
      let (failure, stored, linked) =
        link now order instances (record db { accounts = read.1.accounts }) report in
      (failure, stored, linked, record (read.1) { accounts = stored.accounts })
