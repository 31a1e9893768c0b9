-- ===== src/Reconcile/Observe/Tests.antt =====
-- One read of a provider that reports no accounts any more.
use nuno.Prelude.{refl, [], ◌∷◌, none, false}
use nuno.Prelude.Int.{pos}
use nuno.Prelude.Text.{codes}
use nuno.Core.Model.{match_email}
use nuno.Core.Provider.{write_unproven}
use nuno.Store.Providers.{ProviderRecord}
use nuno.Reconcile.Cycle.{ObserveError}
use nuno.Reconcile.Planning.Sample.{tables, cloud}
use nuno.Reconcile.Observe.{ObserveState, observe_one}
use nuno.Reconcile.Observe.Kept.{IsStoredOrKept, listed_by, observe_one-IsStoredOrKept}

abbrev one_row : ProviderRecord ObserveError
one_row = record {
  id = 1;
  type_name = codes "nextcloud";
  name = codes "cloud";
  match_key = match_email;
  config_ref = [];
  write_access = write_unproven;
  write_probed_at = none;
  version = [];
  reachable = false;
  in_supported = false;
  last_observe_at = none;
  last_observe_ok = false;
  last_error = none;
  degraded_reason = [];
}

abbrev before : ObserveState (Unit {0})
before = record { world = tt; accounts = tables.accounts; rows = one_row ∷ [] }

observe_one-IsStoredOrKept_example :
    IsStoredOrKept
      (pos 9)
      cloud
      tables.accounts
      (listed_by cloud tt)
      (observe_one (pos 9) cloud before)
observe_one-IsStoredOrKept_example = observe_one-IsStoredOrKept (pos 9) cloud before refl
