-- ===== src/Reconcile/Recheck.antt =====
-- `recheck` of internal/reconcile/apply.go: one account is read again and the change is classified
-- against what is there now.
pub mod Agreed
use nuno.Prelude.{ℕ, Bool, true, false, not, List, [], ◌∷◌, Result, ok, err, if◌then◌else◌}
use nuno.Prelude.Text.{Text}
use nuno.Core.Model.{Account, writable, source_other, status_other}
use nuno.Core.Errors.{CallError}
use nuno.Core.Resolve.{rule_unset}
use nuno.Core.Plan.{Change, ChangeClass, PlanAccount, build_plan}
use nuno.Reconcile.Instance.{Instance}
use nuno.Reconcile.Report.{RunError, reread_failed, not_writable_now}

-- The account as the planner sees it, with what it reports now against what the change wants.
unfoldable pub account_now : Change → Account → PlanAccount
account_now change account = record {
  user = record {
    id = change.user_id;
    source = source_other [];
    source_uuid = [];
    uid = change.user_uid;
    email = [];
    display_name = [];
    status = status_other [];
    group_uuids = [];
  };
  provider_id = change.provider_id;
  provider = change.provider;
  external_id = change.external_id;
  desired = change.to;
  present = true;
  observed = account.quota;
  used = account.used;
  never_used = account.never_used;
  observe_ok = true;
  rule = rule_unset;
  tier_name = [];
}

-- Nothing to do any more is the same as a safe change with no effect.
unfoldable pub first_class : ChangeClass → List Change → ChangeClass
first_class agreed [] = agreed
first_class agreed (c ∷ rest) = c.class

unfoldable pub classify_now :
    Change → Result CallError Account → Result RunError (Account × ChangeClass)
unfolding account_now first_class
classify_now change (err e) = err (reread_failed change.external_id change.provider e)
classify_now change (ok account) =
    if not (writable account)
    then err (not_writable_now change.external_id change.provider)
    else ok
        (account, first_class change.class (build_plan (account_now change account ∷ [])).changes)

unfoldable pub recheck :
    {W : Type 0} → Instance W → Change → W → Result RunError (Account × ChangeClass) × W
unfolding classify_now
recheck instance change w =
    let (answer, later) = instance.provider.get_account change.external_id w in
    (classify_now change answer, later)
