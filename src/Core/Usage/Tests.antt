-- ===== src/Core/Usage/Tests.antt =====
-- The usage of one person with an account on one provider.
use nuno.Prelude.{ℕ, ◌≡◌, refl, true, false, none, some, List, [], ◌∷◌, All}
use nuno.Prelude.Int.{pos}
use nuno.Prelude.Text.{codes, text_lt}
use nuno.Prelude.Sort.{IsSorted}
use nuno.Core.Quota.{Quota, kind_bytes}
use nuno.Core.Model.{User, source_ldap, user_active}
use nuno.Core.Usage.{UsageInput, UsageUser, UsageProvider, usage_of, build_usage}
use nuno.Core.Usage.Total.{IsTotal}
use nuno.Core.Usage.Reported.{
  IsReported, IsFull, usage_of-IsReported, usage_of-IsFull, build_usage-IsSorted,
}

abbrev ann : User
ann = record {
  id = 1;
  source = source_ldap;
  source_uuid = codes "a";
  uid = codes "ann";
  email = [];
  display_name = [];
  status = user_active;
  group_uuids = [];
}

abbrev bytes : ℕ → Quota
bytes n = record { kind = kind_bytes; bytes = pos n }

abbrev input : UsageInput
input = record {
  now = pos 10;
  refresh_interval = pos 0;
  users = ann ∷ [];
  providers =
      record {
        id = 7;
        type_name = codes "nextcloud";
        name = codes "cloud";
        has_observed = true;
        last_observe_ok = true;
      }
      ∷ [];
  accounts =
      record {
        provider_id = 7;
        external_id = codes "x";
        user_id = some 1;
        subject = [];
        username = codes "x";
        email = [];
        enabled = true;
        deleted = false;
        quota = bytes 10;
        used = bytes 3;
        never_used = false;
        observed_at = pos 5;
        observe_ok = true;
      }
      ∷ [];
  policy = record { tiers = []; group_tiers = []; default_tier_id = none };
  user_policies = [];
}

usage_of-IsReported_example :
    All (IsReported input ann) (usage_of input ann).providers × IsTotal (usage_of input ann)
usage_of-IsReported_example = usage_of-IsReported input ann

usage_of-IsFull_example : All IsFull (usage_of input ann).providers
unfolding usage_of nuno.Prelude.Table.rows_where nuno.Prelude.Dict.lookup nuno.Prelude.Dict.index_by
    nuno.Prelude.Dict.write nuno.Core.Usage.usage_for nuno.Core.Quota.is_known
    nuno.Core.Quota.is_bytes
usage_of-IsFull_example = usage_of-IsFull input ann refl

build_usage-IsSorted_example :
    IsSorted (λ (a b : UsageUser). text_lt a.user_uuid b.user_uuid) (build_usage input)
    × All
        (λ (u : UsageUser). IsSorted (λ (a b : UsageProvider). text_lt a.name b.name) u.providers)
        (build_usage input)
build_usage-IsSorted_example = build_usage-IsSorted input
