-- ===== src/Reconcile/Planning/Sample.antt =====
-- Tables with one linked account.
use nuno.Prelude.{ℕ, true, false, none, some, [], ◌∷◌, ok}
use nuno.Prelude.Int.{pos}
use nuno.Prelude.Text.{Text, codes}
use nuno.Core.Quota.{Quota, kind_bytes}
use nuno.Core.Model.{user_active, source_ldap, Account, link_matched, match_email}
use nuno.Store.Policy.{PolicyDb, override_manual}
use nuno.Store.Db.{Db}
use nuno.Reconcile.Instance.{Instance}
use nuno.Reconcile.Planning.{PlanFilter}

abbrev pub bytes : ℕ → Quota
bytes n = record { kind = kind_bytes; bytes = pos n }

abbrev pub tables : Db
tables = record {
  users =
      record {
        id = 2;
        source = source_ldap;
        source_uuid = codes "b";
        uid = codes "bob";
        email = [];
        display_name = [];
        status = user_active;
        group_uuids = [];
      }
      ∷ [];
  links =
      record {
        user_id = 2;
        provider_id = 1;
        external_id = codes "x";
        origin = link_matched;
        linked_at = pos 5;
      }
      ∷ [];
  accounts =
      record {
        provider_id = 1;
        external_id = codes "x";
        user_id = some 2;
        subject = [];
        username = codes "x";
        email = [];
        enabled = true;
        deleted = false;
        quota = bytes 10;
        used = bytes 3;
        never_used = false;
        observed_at = pos 0;
        observe_ok = true;
      }
      ∷ [];
  issues = [];
}

abbrev pub policies : PolicyDb
policies = record {
  tiers = [];
  allocations = [];
  groups = [];
  group_tiers = [];
  user_tiers = [];
  overrides =
      record { user_id = 2; provider_id = 1; quota = bytes 20; origin = override_manual } ∷ [];
}

abbrev pub found : Text → Account
found id = record {
  external_id = id;
  subject = [];
  username = [];
  email = [];
  enabled = true;
  deleted = false;
  quota = bytes 10;
  used = bytes 3;
  observed_at = pos 0;
  never_used = false;
}

abbrev pub cloud : Instance (Unit {0})
cloud = record {
  row = record {
    id = 1;
    type_name = codes "nextcloud";
    name = codes "cloud";
    match_key = match_email;
    degraded_reason = [];
  };
  provider = record {
    can_read_users = true;
    can_set_user_quota = true;
    health = λ w. (record { reachable = true; version = []; in_supported = true; error = none }, w);
    list_accounts = λ w. (ok [], w);
    get_account = λ id w. (ok (found id), w);
    normalize_quota = λ q. q;
    set_quota = λ id q w. (ok tt, w);
    write_limit = none;
  };
}

abbrev pub everything : PlanFilter
everything = record { uid = []; provider = [] }
