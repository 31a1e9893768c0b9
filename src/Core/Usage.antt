-- ===== src/Core/Usage.antt =====
-- internal/core/usage.go: the numbers of the dashboard. A summary is a constructor with the numbers
-- that its text shows, and a percentage is the pair of which it is the rounded ratio; the floating
-- point of both is not modelled. The letters of a type name are ASCII.
pub mod Rows
pub mod Total
pub mod Reported
mod Tests
use nuno.Prelude.{
  ℕ, ◌+◌, ◌-◌, ◌==◌, Bool, true, false, not, ◌&&◌, ◌||◌, Option, none, some, List, [], ◌∷◌, ◌++◌,
  if◌then◌else◌, leb, is_empty, ℕ_eq, map,
}
use nuno.Prelude.Int.{ℤ, pos, negsuc, ◌-ℤ◌, ltb_ℤ, leb_ℤ, add64}
use nuno.Prelude.Text.{Text, codes, text_lt, Text_eq}
use nuno.Prelude.Dict.{Dict, lookup, write, index_by, keys}
use nuno.Prelude.Table.{rows_where}
use nuno.Prelude.Sort.{sort_by}
use nuno.Core.Quota.{Quota, is_known, is_bytes, is_unlimited}
use nuno.Core.Model.{User, ExternalAccount}
use nuno.Core.Resolve.{Policy, UserPolicy, Resolution, resolve, effective_budget}

pub data UsageStatus : Type 0 where
  status_ok status_stale status_unavailable status_unknown : UsageStatus

pub data Summary : Type 0 where
  shows_unknown : Summary
  shows_unlimited shows_used : ℤ → Summary
  shows_share : ℤ → ℤ → Summary
  shows_status : UsageStatus → Summary
  shows_partial : Summary → Summary

pub record UsageProvider : Type 0 where
  pub type_name : Text
  pub name : Text
  pub quota_bytes : Option ℤ
  pub used_bytes : Option ℤ
  pub used_percent : Option (ℤ × ℤ)
  pub managed : Bool
  pub status : UsageStatus
  pub observed_at : ℤ
  pub summary : Summary

pub record UsageUser : Type 0 where
  pub user : Text
  pub user_uuid : Text
  pub budget_bytes : Option ℤ
  pub used_bytes : Option ℤ
  pub used_percent : Option (ℤ × ℤ)
  pub complete : Bool
  pub summary : Summary
  pub providers : List UsageProvider

pub record ObservedProvider : Type 0 where
  pub id : ℕ
  pub type_name : Text
  pub name : Text
  pub has_observed : Bool
  pub last_observe_ok : Bool

pub record UsageInput : Type 0 where
  pub now : ℤ
  pub refresh_interval : ℤ
  pub users : List User
  pub providers : List ObservedProvider
  pub accounts : List ExternalAccount
  pub policy : Policy
  pub user_policies : Dict ℕ UserPolicy

-- `Time.Sub`, which stops at the ends of a duration.
unfoldable pub elapsed : ℤ → ℤ → ℤ
elapsed now at =
    let d = now -ℤ at in
    if ltb_ℤ (pos 9223372036854775807) d
    then pos 9223372036854775807
    else if ltb_ℤ d (negsuc 9223372036854775807)
    then negsuc 9223372036854775807
    else d

-- `statusFor`
unfoldable pub status_for : UsageInput → ObservedProvider → ExternalAccount → UsageStatus
unfolding elapsed
status_for input p a =
    if not p.has_observed || (not p.last_observe_ok || not a.observe_ok)
    then status_unavailable
    else if not (is_known a.quota) || not (is_known a.used)
    then status_unknown
    else if ltb_ℤ (pos 0) input.refresh_interval
        && ltb_ℤ (add64 input.refresh_interval input.refresh_interval)
            (elapsed input.now a.observed_at)
    then status_stale
    else status_ok

-- `view.Status == StatusOK || view.Status == StatusStale`
abbrev pub is_trusted : UsageStatus → Bool
is_trusted status_ok = true
is_trusted status_stale = true
is_trusted _ = false

-- `percent`
unfoldable pub percent : Option ℤ → Option ℤ → Option (ℤ × ℤ)
percent none ceiling = none
percent (some used) none = none
percent (some used) (some ceiling) = if leb_ℤ ceiling (pos 0) then none else some (used, ceiling)

-- `summarize`
unfoldable pub summarize : Option ℤ → Option ℤ → Summary
summarize none ceiling = shows_unknown
summarize (some used) none = shows_unlimited used
summarize (some used) (some ceiling) =
    if leb_ℤ ceiling (pos 0) then shows_used used else shows_share used ceiling

abbrev pub bytes_of : Quota → Option ℤ
bytes_of q = if is_bytes q then some q.bytes else none

-- `usageFor`
unfoldable pub usage_for : UsageInput → ObservedProvider → ExternalAccount → Bool → UsageProvider
unfolding status_for
usage_for input p a managed =
    let status = status_for input p a in
    if not (is_trusted status)
    then record {
      type_name = p.type_name;
      name = p.name;
      quota_bytes = none;
      used_bytes = none;
      used_percent = none;
      managed = managed;
      status = status;
      observed_at = a.observed_at;
      summary = shows_status status;
    }
    else record {
      type_name = p.type_name;
      name = p.name;
      quota_bytes = bytes_of a.quota;
      used_bytes = bytes_of a.used;
      used_percent = percent (bytes_of a.used) (bytes_of a.quota);
      managed = managed;
      status = status;
      observed_at = a.observed_at;
      summary = summarize (bytes_of a.used) (bytes_of a.quota);
    }

-- `accountsByUser[id]`
owned_by : ℕ → ExternalAccount → Bool
owned_by id a = elim a.user_id [ none ↦ false | some owner ↦ owner == id ]

accounts_of : ℕ → List ExternalAccount → List ExternalAccount
unfolding owned_by
accounts_of id accounts = rows_where (owned_by id) accounts

-- What the loop over a person's accounts has added up.
pub record Tally : Type 0 where
  pub providers : List UsageProvider
  pub complete : Bool
  pub budget : ℤ
  pub used : ℤ
  pub any_unlimited : Bool

abbrev pub or_zero : Option ℤ → ℤ
or_zero none = pos 0
or_zero (some n) = n

abbrev pub is_none : Option ℤ → Bool
is_none none = true
is_none (some _) = false

-- One account of the loop, with its view.
add_view : Bool → ExternalAccount → UsageProvider → Tally → Tally
add_view has_policy a view t = record {
  providers = t.providers ++ (view ∷ []);
  complete =
      t.complete
      && (is_trusted view.status
          && (not (is_none view.quota_bytes && not (is_unlimited a.quota))
              && not (is_none view.used_bytes)));
  budget = if has_policy then t.budget else add64 t.budget (or_zero view.quota_bytes);
  used = add64 t.used (or_zero view.used_bytes);
  any_unlimited =
      t.any_unlimited || (not has_policy && (is_unlimited a.quota && is_trusted view.status));
}

abbrev is_present : Option Resolution → Bool
is_present none = false
is_present (some r) = r.present

add_accounts :
    UsageInput
    → Bool
    → Dict ℕ ObservedProvider
    → Dict ℕ Resolution
    → List ExternalAccount
    → Tally
    → Tally
unfolding add_view
add_accounts input has_policy providers resolutions [] t = t
add_accounts input has_policy providers resolutions (a ∷ rest) t =
    add_accounts input has_policy providers resolutions rest
      (elim (lookup a.provider_id providers) [
        | none ↦ t
        | some p ↦
            add_view has_policy a
              (usage_for input p a (is_present (lookup a.provider_id resolutions))) t
      ])

abbrev no_user_policy : UserPolicy
no_user_policy = record { provider_overrides = []; tier_override = none }

policy_of : ℕ → Dict ℕ UserPolicy → UserPolicy
policy_of id m = elim (lookup id m) [ none ↦ no_user_policy | some up ↦ up ]

-- The resolutions of every configured provider, in order.
resolve_all : UsageInput → User → List ObservedProvider → List (ℕ × Resolution)
unfolding policy_of
resolve_all input user [] = []
resolve_all input user (p ∷ rest) =
    (p.id, resolve user p.id input.policy (policy_of user.id input.user_policies))
    ∷ resolve_all input user rest

resolution_map : List (ℕ × Resolution) → Dict ℕ Resolution → Dict ℕ Resolution
resolution_map [] m = m
resolution_map (r ∷ rest) m = resolution_map rest (write r.0 r.1 m)

-- With a policy the budget is the resolved one.
with_budget : Bool → Quota → Tally → Tally
with_budget has_policy effective t =
    if not has_policy
    then t
    else if is_unlimited effective
    then record t { any_unlimited = true }
    else if is_bytes effective
    then record t { budget = effective.bytes }
    else record t { complete = false }

-- The entry of a person, from what was added up.
entry_of : User → Tally → UsageUser
entry_of user t =
    let budget = if t.any_unlimited then none else some t.budget in
    let summary = summarize (some t.used) budget in
    record {
      user = user.uid;
      user_uuid = user.source_uuid;
      budget_bytes = budget;
      used_bytes = some t.used;
      used_percent = percent (some t.used) budget;
      complete = t.complete;
      summary = if t.complete then summary else shows_partial summary;
      providers = sort_by (λ (a b : UsageProvider). text_lt a.name b.name) t.providers;
    }

unfoldable pub usage_of : UsageInput → User → UsageUser
unfolding accounts_of add_accounts resolve_all resolution_map with_budget entry_of
usage_of input user =
    let has_policy = not (is_empty input.policy.tiers) in
    let ordered = if has_policy then resolve_all input user input.providers else [] in
    entry_of user (
      with_budget has_policy (effective_budget (map {A = ℕ × Resolution} (λ r. r.1) ordered)) (
        add_accounts input has_policy (index_by (λ (p : ObservedProvider). p.id) input.providers [])
          (resolution_map ordered []) (accounts_of user.id input.accounts)
          (record {
            providers = [];
            complete = true;
            budget = pos 0;
            used = pos 0;
            any_unlimited = false;
          })))

-- `BuildUsage`
unfoldable pub build_usage : UsageInput → List UsageUser
build_usage input =
    sort_by (λ (a b : UsageUser). text_lt a.user_uuid b.user_uuid)
      (map (usage_of input) input.users)
