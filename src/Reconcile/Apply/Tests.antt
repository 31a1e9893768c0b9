-- ===== src/Reconcile/Apply/Tests.antt =====
-- A run over one account, and the theorems of `Apply` there.
use nuno.Prelude.{
  none, arith, ◌≤◌, ◌-◌, ◌/◌, contains, ℕ, ◌≡◌, refl, Bool, true, false, some, List, [], ◌∷◌, map,
  Result, ok, err, All, ◌↔◌,
}
use nuno.Prelude.Int.{pos, ◌-ℤ◌}
use nuno.Prelude.Dict.{lookup, write}
use nuno.Prelude.Sort.{sort_by}
use nuno.Prelude.Text.{codes}
use nuno.Core.Quota.{Quota, kind_bytes, kind_eq, is_known, is_bytes, equal}
use nuno.Core.Model.{Account, writable, match_subject}
use nuno.Core.Errors.{CallError, plain_error, throttled_by}
use nuno.Core.Provider.{Provider}
use nuno.Core.Resolve.{rule_group_tier}
use nuno.Core.Plan.{Change, Plan, class_safe, no_detail, class_eq, applicable, build_plan, classify}
use nuno.Reconcile.Instance.{Instance, by_provider, degraded}
use nuno.Reconcile.Recheck.{recheck}
use nuno.Reconcile.Pacer.{allow, new_pacer}
use nuno.Reconcile.Report.{
  ApplyOptions, ApplyReport, new_report, finish_status, status_clean, status_incomplete, clean,
  incomplete, finish_status-clean,
}
use nuno.Reconcile.Process.{Engine, Write, process}
use nuno.Reconcile.Process.Steps.{accepted}
use nuno.Reconcile.Apply.{apply}
use nuno.Reconcile.Apply.Runs.{writes_of}
use nuno.Reconcile.Apply.Safe.{IsSafeWrite, apply-IsSafe}
use nuno.Reconcile.Apply.Paced.{writes_to, apply-le-limit}
use nuno.Reconcile.Apply.Stopped.{FollowsSuccess, apply-FollowsSuccess}

abbrev bytes : ℕ → Quota
bytes n = record { kind = kind_bytes; bytes = pos n }

-- The service outside holds one account, and can refuse to change it.
abbrev stored : Account
stored = record {
  external_id = codes "ada";
  subject = [];
  username = codes "ada";
  email = [];
  enabled = true;
  deleted = false;
  quota = bytes 10;
  used = bytes 3;
  observed_at = pos 0;
  never_used = false;
}

abbrev set_stored : Bool → Quota → Account → Result CallError (Unit {0}) × Account
set_stored true q a = (ok tt, record a { quota = q })
set_stored false q a = (err (plain_error (codes "no") ∷ []), a)

abbrev service : Bool → Provider Account
service willing = record {
  can_read_users = true;
  can_set_user_quota = true;
  health = λ w. (record { reachable = true; version = []; in_supported = true; error = none }, w);
  list_accounts = λ a. (ok (a ∷ []), a);
  get_account = λ id a. (ok a, a);
  normalize_quota = λ q. q;
  set_quota = λ id q a. set_stored willing q a;
  write_limit = some (pos 20);
}

abbrev configured : Bool → List (Instance Account)
configured willing =
    record {
      row = record {
        id = 1;
        type_name = codes "nextcloud";
        name = codes "cloud";
        match_key = match_subject;
        degraded_reason = [];
      };
      provider = service willing;
    }
    ∷ []

abbrev change_to : ℕ → Change
change_to n = record {
  user_id = 1;
  user_uid = codes "ada";
  provider_id = 1;
  provider = codes "cloud";
  external_id = codes "ada";
  from = bytes 10;
  to = bytes n;
  class = class_safe;
  detail = no_detail;
  rule = rule_group_tier;
  tier_name = codes "family";
}

abbrev two_changes : Plan
two_changes = record { changes = change_to 20 ∷ change_to 30 ∷ []; unallocated = 0 }

abbrev engine : Engine Account
engine = record {
  now = λ a. pos 0;
  sleep = λ a. (ok tt, a);
  start_run = λ mode actor consent a. (ok 7, a);
}

abbrev without_consent : ApplyOptions
without_consent = record {
  consent_shrink = false;
  dry_run = false;
  actor = codes "cli";
  plan_window = pos 0;
  computed_at = some (pos 0);
}

abbrev writes_when : Bool → List (Write Account)
writes_when willing =
    writes_of (apply engine without_consent (configured willing) two_changes stored).0

both_written : map accepted (writes_when true) ≡ true ∷ true ∷ []
unfolding apply ◌-ℤ◌ applicable lookup by_provider write contains degraded recheck writable class_eq
    build_plan sort_by classify is_known is_bytes equal allow new_pacer throttled_by kind_eq process
both_written = refl

-- A service that refuses is asked once.
asked_once : map accepted (writes_when false) ≡ false ∷ []
unfolding apply ◌-ℤ◌ applicable lookup by_provider write contains degraded recheck writable class_eq
    build_plan sort_by classify is_known is_bytes equal allow new_pacer throttled_by kind_eq process
asked_once = refl

apply-IsSafe_example :
    All (IsSafeWrite engine without_consent (configured true) two_changes) (writes_when true)
apply-IsSafe_example = apply-IsSafe engine without_consent (configured true) two_changes stored

apply-FollowsSuccess_example : FollowsSuccess (writes_when false)
apply-FollowsSuccess_example =
    apply-FollowsSuccess engine without_consent (configured false) two_changes stored

abbrev one_moved : ApplyReport
one_moved = record (new_report false) { applied = 2; moved = 1 }

finish_status-clean_example :
    ((finish_status one_moved ≡ status_clean) ↔ (clean one_moved ≡ true))
    × ((finish_status one_moved ≡ status_incomplete)
        ↔ ((incomplete one_moved ≡ true) × (one_moved.failed ≡ 0) × (one_moved.errors ≡ [])))
finish_status-clean_example = finish_status-clean one_moved refl

apply-le-limit_example : writes_to 1 (writes_when true) ≤ 20 - 20 / 10
unfolding by_provider lookup write
apply-le-limit_example =
    apply-le-limit engine without_consent (configured true) two_changes stored 1
      (record {
        row = record {
          id = 1;
          type_name = codes "nextcloud";
          name = codes "cloud";
          match_key = match_subject;
          degraded_reason = [];
        };
        provider = service true;
      })
      20 refl refl (omega arith)
