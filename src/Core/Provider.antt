-- ===== src/Core/Provider.antt =====
-- internal/core/provider.go: the port that every adapter implements. An adapter is a record of its
-- calls over the state `W` of the services outside; what a call answers is left to the adapter.
use nuno.Prelude.{Bool, Option, List, Result}
use nuno.Prelude.Int.{ℤ}
use nuno.Prelude.Text.{Text}
use nuno.Core.Quota.{Quota}
use nuno.Core.Model.{Account}
use nuno.Core.Errors.{CallError}

pub data WriteAccess : Type 0 where
  write_unproven write_yes write_no : WriteAccess

-- What a read-only health check finds.
pub record HealthResult : Type 0 where
  pub reachable : Bool
  pub version : Text
  pub in_supported : Bool
  pub error : Option CallError

pub record Provider (W : Type 0) : Type 0 where
  pub can_read_users : Bool
  pub can_set_user_quota : Bool
  pub health : W → HealthResult × W
  pub list_accounts : W → Result CallError (List Account) × W
  pub get_account : Text → W → Result CallError Account × W
  pub normalize_quota : Quota → Quota
  pub set_quota : Text → Quota → W → Result CallError (Unit {0}) × W
  -- `WriteLimit` of an adapter that is `RateLimited`: the calls per window.
  pub write_limit : Option ℤ
