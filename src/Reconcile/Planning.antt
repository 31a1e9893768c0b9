-- ===== src/Reconcile/Planning.antt =====
-- `Plan` and `SavePlan` of internal/reconcile/plan.go over the tables. The policy of a
-- person is read where it is used: nothing writes to it meanwhile, so the cache is not modelled.
pub mod Pairs
pub mod Sample
mod Tests
use nuno.Prelude.{
  ℕ, suc, ◌+◌, ◌==◌, Bool, true, false, not, ◌&&◌, ◌||◌, Option, none, some, List, [], ◌∷◌, ◌++◌,
  Result, ok, err, is_empty, length, if◌then◌else◌, ℕ_eq,
}
use nuno.Prelude.Text.{Text, codes, equal_fold, text_eq, text_lt, Text_eq}
use nuno.Prelude.Dict.{Dict, lookup, write, index_by}
use nuno.Prelude.Sort.{sort_by}
use nuno.Core.Quota.{Quota, unknown, is_known}
use nuno.Core.Model.{User, UserStatus, user_active, ExternalAccount, AccountLink}
use nuno.Core.Provider.{Provider}
use nuno.Core.Resolve.{Policy, UserPolicy, Resolution, resolve}
use nuno.Core.Plan.{
  Plan, PlanAccount, build_plan, count_by_class, class_safe, class_shrink_below_usage,
  class_unknown_state,
}
use nuno.Store.Links.{list_links}
use nuno.Store.Accounts.{list_external_accounts}
use nuno.Store.Policy.{
  PolicyDb, PolicyError, OverrideOrigin, override_adopted, load_policy, user_policy,
  set_provider_override,
}
use nuno.Store.Db.{Db}
use nuno.Reconcile.Instance.{Instance, degraded, by_provider}

pub record PlanFilter : Type 0 where
  pub uid : Text
  pub provider : Text

filter_empty : PlanFilter → Bool
filter_empty f = is_empty f.uid && is_empty f.provider

-- `PlanFilter.admits`
unfoldable pub admits : PlanFilter → Text → Text → Bool
unfolding filter_empty
admits f uid provider =
    if filter_empty f
    then true
    else if not (is_empty f.uid) && not (equal_fold f.uid uid)
    then false
    else if not (is_empty f.provider) && not (equal_fold f.provider provider)
    then false
    else true

pub record PlanResult : Type 0 where
  pub plan : Plan
  pub considered : ℕ
  pub degraded : List Text
  pub resolutions : Dict Text Resolution

abbrev pub is_active : UserStatus → Bool
is_active user_active = true
is_active _ = false

-- `usersByID`, from `ListUsers`.
abbrev pub users_by_id : Db → Dict ℕ User
users_by_id db =
    index_by (λ (u : User). u.id)
      (sort_by (λ (a b : User). text_lt a.source_uuid b.source_uuid) db.users) []

pub account_at : ℕ → Text → Dict ℕ (Dict Text ExternalAccount) → Option ExternalAccount
account_at provider_id external_id m = elim (lookup provider_id m) [
  | none ↦ none
  | some by_id ↦ lookup external_id by_id
]

module _ {W : Type 0} where
  degraded_names : List (Instance W) → List Text
  degraded_names [] = []
  degraded_names (i ∷ rest) =
      let later = degraded_names rest in if degraded i.row then i.row.name ∷ later else later

  -- `accounts`: those of each configured provider, by their ids.
  pub load_accounts :
      Db
      → List (Instance W)
      → Dict ℕ (Dict Text ExternalAccount)
      → Dict ℕ (Dict Text ExternalAccount)
  load_accounts db [] m = m
  load_accounts db (i ∷ rest) m = load_accounts db rest (
      write i.row.id
        (index_by (λ (a : ExternalAccount). a.external_id)
          (list_external_accounts i.row.id db.accounts) [])
        m)

  -- What a provider would store of the ceiling; unknown where there is none.
  desired : Provider W → Resolution → Quota
  desired p r = if r.present then p.normalize_quota r.ceiling else unknown

  unfoldable pub plan_account :
      Instance W → User → AccountLink → ExternalAccount → Resolution → PlanAccount
  unfolding desired
  plan_account i user link account r = record {
    user = user;
    provider_id = link.provider_id;
    provider = i.row.name;
    external_id = link.external_id;
    desired = desired i.provider r;
    present = r.present;
    observed = account.quota;
    used = account.used;
    never_used = account.never_used;
    observe_ok = account.observe_ok;
    rule = r.rule;
    tier_name = r.tier_name;
  }

-- What the loop over the links gathers.
pub record Gathered : Type 0 where
  pub accounts : List PlanAccount
  pub considered : ℕ
  pub resolutions : Dict Text Resolution

pub record PlanInput (W : Type 0) : Type 0 where
  pub policy : Policy
  pub user_policies : ℕ → UserPolicy
  pub users : Dict ℕ User
  pub providers : Dict ℕ (Instance W)
  pub accounts : Dict ℕ (Dict Text ExternalAccount)
  pub filter : PlanFilter

module _ {W : Type 0} where
  with_account :
      PlanInput W → AccountLink → Instance W → User → Option ExternalAccount → Gathered → Gathered
  with_account input link i user none g = g
  with_account input link i user (some account) g =
      let r = resolve user link.provider_id input.policy (input.user_policies user.id) in
      record {
        accounts = g.accounts ++ (plan_account i user link account r ∷ []);
        considered = suc g.considered;
        resolutions = write (user.uid ++ (codes "/" ++ i.row.name)) r g.resolutions;
      }

  with_user : PlanInput W → AccountLink → Instance W → Option User → Gathered → Gathered
  unfolding with_account
  with_user input link i none g = g
  with_user input link i (some user) g =
      if not (is_active user.status)
      then g
      else if not (admits input.filter user.uid i.row.name)
      then g
      else with_account input link i user
          (account_at link.provider_id link.external_id input.accounts) g

  with_instance : PlanInput W → AccountLink → Option (Instance W) → Gathered → Gathered
  unfolding with_user
  with_instance input link none g = g
  with_instance input link (some i) g = with_user input link i (lookup link.user_id input.users) g

  -- The loop of `Plan`.
  pub gather : PlanInput W → List AccountLink → Gathered → Gathered
  unfolding with_instance
  gather input [] g = g
  gather input (link ∷ rest) g =
      gather input rest (with_instance input link (lookup link.provider_id input.providers) g)

  unfoldable pub plan_input : Db → PolicyDb → List (Instance W) → PlanFilter → PlanInput W
  unfolding load_accounts
  plan_input db policies instances filter = record {
    policy = load_policy policies;
    user_policies = λ id. user_policy id policies;
    users = users_by_id db;
    providers = by_provider instances;
    accounts = load_accounts db instances [];
    filter = filter;
  }

  -- `Plan`
  unfoldable pub plan_run : Db → PolicyDb → List (Instance W) → PlanFilter → PlanResult
  unfolding gather plan_input degraded_names account_at
  plan_run db policies instances filter =
      let g =
        gather (plan_input db policies instances filter) (list_links db.links)
          (record { accounts = []; considered = 0; resolutions = [] }) in
      record {
        plan = build_plan g.accounts;
        considered = g.considered;
        degraded = degraded_names instances;
        resolutions = g.resolutions;
      }

-- What `SavePlan` stores of a plan beside its body.
pub record SavedPlan : Type 0 where
  pub changes : ℕ
  pub safe : ℕ
  pub guarded : ℕ
  pub unknown_state : ℕ
  pub considered : ℕ
  pub pending : Bool

-- `SavePlan`
unfoldable pub saved_plan : PlanResult → SavedPlan
saved_plan r = record {
  changes = length r.plan.changes;
  safe = count_by_class r.plan class_safe;
  guarded = count_by_class r.plan class_shrink_below_usage;
  unknown_state = count_by_class r.plan class_unknown_state;
  considered = r.considered;
  pending = not (is_empty r.plan.changes);
}
