-- ===== src/Store/Providers.antt =====
-- The table of configured providers of internal/store/providers.go. The type of the last error is a
-- parameter, since the row keeps only its text.
use nuno.Prelude.{
  ℕ, ◌==◌, Bool, false, not, ◌||◌, Option, none, some, List, [], ◌∷◌, ◌++◌, Result, ok, err,
  if◌then◌else◌, is_empty, ℕ_eq,
}
use nuno.Prelude.Int.{ℤ}
use nuno.Prelude.Text.{Text, text_lt, text_eq}
use nuno.Prelude.Sort.{sort_by}
use nuno.Prelude.Table.{next_id, update_where}
use nuno.Core.Model.{MatchKey, match_other, ProviderInstance}
use nuno.Core.Provider.{WriteAccess, write_unproven, HealthResult}
use nuno.Core.Errors.{CallError}

pub record ProviderRecord (E : Type 0) : Type 0 where
  pub id : ℕ
  pub type_name : Text
  pub name : Text
  pub match_key : MatchKey
  pub config_ref : Text
  pub write_access : WriteAccess
  pub write_probed_at : Option ℤ
  pub version : Text
  pub reachable : Bool
  pub in_supported : Bool
  pub last_observe_at : Option ℤ
  pub last_observe_ok : Bool
  pub last_error : Option E
  pub degraded_reason : Text

pub data ProviderError : Type 0 where
  no_name_or_type : ProviderError
  type_changed : Text → Text → Text → ProviderError
  bad_match_key : Text → ProviderError

module _ {E : Type 0} where
  find_provider : Text → List (ProviderRecord E) → Option (ProviderRecord E)
  find_provider name [] = none
  find_provider name (row ∷ rest) =
      let later = find_provider name rest in if text_eq row.name name then some row else later

  new_provider : ℕ → ProviderInstance → ProviderRecord E
  new_provider id instance = record {
    id = id;
    type_name = instance.type_name;
    name = instance.name;
    match_key = instance.match_key;
    config_ref = instance.config_ref;
    write_access = write_unproven;
    write_probed_at = none;
    version = [];
    reachable = false;
    in_supported = false;
    last_observe_at = none;
    last_observe_ok = false;
    last_error = none;
    degraded_reason = [];
  }

  put_provider :
      ProviderInstance
      → Option (ProviderRecord E)
      → List (ProviderRecord E)
      → Result ProviderError (ℕ × List (ProviderRecord E))
  unfolding new_provider
  put_provider instance none rows =
      let id = next_id (λ (row : ProviderRecord E). row.id) rows in
      ok (id, rows ++ (new_provider id instance ∷ []))
  put_provider instance (some existing) rows =
      if not (text_eq existing.type_name instance.type_name)
      then err (type_changed instance.name existing.type_name instance.type_name)
      else ok (
        existing.id,
        update_where (λ (row : ProviderRecord E). row.id == existing.id)
            (λ row. record row { match_key = instance.match_key; config_ref = instance.config_ref })
            rows,
      )

  -- The table takes the three named match keys only.
  check_match_key :
      MatchKey
      → Result ProviderError (ℕ × List (ProviderRecord E))
      → Result ProviderError (ℕ × List (ProviderRecord E))
  check_match_key (match_other s) (ok done) = err (bad_match_key s)
  check_match_key _ outcome = outcome

  -- `UpsertProvider`
  unfoldable pub upsert_provider :
      ProviderInstance
      → List (ProviderRecord E)
      → Result ProviderError (ℕ × List (ProviderRecord E))
  unfolding put_provider find_provider check_match_key
  upsert_provider instance rows =
      if is_empty instance.name || is_empty instance.type_name
      then err no_name_or_type
      else check_match_key instance.match_key
          (put_provider instance (find_provider instance.name rows) rows)

  -- `ListProviders`
  unfoldable pub list_providers : List (ProviderRecord E) → List (ProviderRecord E)
  list_providers rows = sort_by (λ (a b : ProviderRecord E). text_lt a.name b.name) rows

  -- `SaveHealth`, with the text of the error as the row keeps it.
  unfoldable pub save_health :
      (CallError → E) → ℕ → HealthResult → List (ProviderRecord E) → List (ProviderRecord E)
  save_health text id h rows =
      update_where (λ (row : ProviderRecord E). row.id == id)
        (λ row. record row {
          version = h.version;
          reachable = h.reachable;
          in_supported = h.in_supported;
          last_error = elim h.error [ none ↦ none | some e ↦ some (text e) ];
        })
        rows

  -- `SaveWriteAccess`
  unfoldable pub save_write_access :
      ℕ → WriteAccess → ℤ → List (ProviderRecord E) → List (ProviderRecord E)
  save_write_access id access at rows =
      update_where (λ (row : ProviderRecord E). row.id == id)
        (λ row. record row { write_access = access; write_probed_at = some at }) rows

  -- `SaveObserveResult`
  unfoldable pub save_observe_result :
      ℕ → ℤ → Bool → Option E → List (ProviderRecord E) → List (ProviderRecord E)
  save_observe_result id at good failure rows =
      update_where (λ (row : ProviderRecord E). row.id == id)
        (λ row. record row {
          last_observe_at = some at;
          last_observe_ok = good;
          last_error = failure;
        })
        rows

  -- `SetDegraded`
  unfoldable pub set_degraded : ℕ → Text → List (ProviderRecord E) → List (ProviderRecord E)
  set_degraded id reason rows =
      update_where (λ (row : ProviderRecord E). row.id == id)
        (λ row. record row { degraded_reason = reason }) rows
