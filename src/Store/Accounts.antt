-- ===== src/Store/Accounts.antt =====
-- The observed accounts of internal/store/accounts.go. A row holds the decoded quotas: the writes
-- refuse what would not decode.
use nuno.Prelude.{
  ℕ, ◌==◌, Bool, true, false, not, ◌&&◌, Option, none, List, [], ◌∷◌, ◌++◌, Result, ok, err, ◌>>◌,
  if◌then◌else◌, ltb, is_empty, contains, ℕ_eq, refuse_if,
}
use nuno.Prelude.Int.{ℤ}
use nuno.Prelude.Text.{Text, text_lt, text_eq, Text_eq}
use nuno.Prelude.Sort.{sort_by}
use nuno.Prelude.Table.{rows_where, exists_row, update_where, delete_where}
use nuno.Core.Quota.{QuotaError, valid, valid_as_usage}
use nuno.Core.Model.{Account, ExternalAccount, is_zero_time}

pub data AccountError : Type 0 where
  no_external_id : ℕ → AccountError
  bad_quota bad_usage : Text → QuotaError → AccountError

or_refuse :
    (QuotaError → AccountError) → Result QuotaError (Unit {0}) → Result AccountError (Unit {0})
or_refuse e (ok _) = ok tt
or_refuse e (err why) = err (e why)

-- What is asked of a reported account before it is stored.
unfoldable pub check_reported : ℕ → Account → Result AccountError (Unit {0})
unfolding or_refuse
check_reported provider_id a = do
  refuse_if (is_empty a.external_id) (no_external_id provider_id)
  or_refuse (bad_quota a.external_id) (valid a.quota)
  or_refuse (bad_usage a.external_id) (valid_as_usage a.used)

unfoldable pub is_row : ℕ → Text → ExternalAccount → Bool
is_row provider_id external_id row =
    row.provider_id == provider_id && text_eq row.external_id external_id

-- The columns that a read fills; the owner is kept.
unfoldable pub observe_row : ℤ → Account → ExternalAccount → ExternalAccount
observe_row observed_at a row = record row {
  subject = a.subject;
  username = a.username;
  email = a.email;
  enabled = a.enabled;
  deleted = a.deleted;
  quota = a.quota;
  used = a.used;
  never_used = a.never_used;
  observed_at = if is_zero_time a.observed_at then observed_at else a.observed_at;
  observe_ok = true;
}

unfoldable pub new_row : ℕ → ℤ → Account → ExternalAccount
new_row provider_id observed_at a = record {
  provider_id = provider_id;
  external_id = a.external_id;
  user_id = none;
  subject = a.subject;
  username = a.username;
  email = a.email;
  enabled = a.enabled;
  deleted = a.deleted;
  quota = a.quota;
  used = a.used;
  never_used = a.never_used;
  observed_at = if is_zero_time a.observed_at then observed_at else a.observed_at;
  observe_ok = true;
}

unfoldable pub upsert_account : ℕ → ℤ → Account → List ExternalAccount → List ExternalAccount
unfolding is_row observe_row new_row
upsert_account provider_id observed_at a rows =
    if exists_row (is_row provider_id a.external_id) rows
    then update_where (is_row provider_id a.external_id) (observe_row observed_at a) rows
    else rows ++ (new_row provider_id observed_at a ∷ [])

pub upsert_accounts :
    ℕ → ℤ → List Account → List ExternalAccount → Result AccountError (List ExternalAccount)
upsert_accounts provider_id observed_at [] rows = ok rows
upsert_accounts provider_id observed_at (a ∷ rest) rows = do
  check_reported provider_id a
  upsert_accounts provider_id observed_at rest (upsert_account provider_id observed_at a rows)

unfoldable pub external_ids : List Account → List Text
external_ids [] = []
external_ids (a ∷ rest) = a.external_id ∷ external_ids rest

-- A row of the provider that the read did not report.
unfoldable pub vanished : ℕ → List Account → ExternalAccount → Bool
vanished provider_id accounts row =
    row.provider_id == provider_id && not (contains row.external_id (external_ids accounts))

delete_vanished :
    ℕ
    → List Account
    → Result AccountError (List ExternalAccount)
    → Result AccountError (List ExternalAccount)
delete_vanished provider_id accounts (err e) = err e
delete_vanished provider_id accounts (ok rows) =
    ok (delete_where (vanished provider_id accounts) rows)

-- `ReplaceExternalAccounts`: one transaction, so an error leaves the rows as they were.
unfoldable pub replace_external_accounts :
    ℕ → ℤ → List Account → List ExternalAccount → Result AccountError (List ExternalAccount)
unfolding delete_vanished
replace_external_accounts provider_id observed_at accounts rows =
    delete_vanished provider_id accounts (upsert_accounts provider_id observed_at accounts rows)

account_before : ExternalAccount → ExternalAccount → Bool
account_before a b =
    if ltb a.provider_id b.provider_id
    then true
    else if a.provider_id == b.provider_id
    then text_lt a.external_id b.external_id
    else false

-- `ListExternalAccounts`
unfoldable pub list_external_accounts : ℕ → List ExternalAccount → List ExternalAccount
list_external_accounts provider_id rows =
    sort_by (λ a b. text_lt a.external_id b.external_id)
      (rows_where (λ row. row.provider_id == provider_id) rows)

-- `ListAllExternalAccounts`
unfoldable pub list_all_external_accounts : List ExternalAccount → List ExternalAccount
unfolding account_before
list_all_external_accounts rows = sort_by account_before rows

-- `SetAccountOwner`
unfoldable pub set_account_owner : ℕ → Text → Option ℕ → List ExternalAccount → List ExternalAccount
set_account_owner provider_id external_id owner rows =
    update_where (is_row provider_id external_id) (λ row. record row { user_id = owner }) rows

-- `UpdateObservedAccount`
unfoldable pub update_observed :
    ℕ → Account → ℤ → List ExternalAccount → Result AccountError (List ExternalAccount)
update_observed provider_id a observed_at rows = do
  check_reported provider_id a
  ok (update_where (is_row provider_id a.external_id) (observe_row observed_at a) rows)

-- `MarkAccountUnobserved`
unfoldable pub mark_unobserved : ℕ → Text → List ExternalAccount → List ExternalAccount
mark_unobserved provider_id external_id rows =
    update_where (is_row provider_id external_id) (λ row. record row { observe_ok = false }) rows
