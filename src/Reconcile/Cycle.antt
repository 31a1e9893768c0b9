-- ===== src/Reconcile/Cycle.antt =====
-- The report of internal/reconcile/reconcile.go, and how `link` of internal/reconcile/link.go loads
-- the state of each provider and stores what it found.
pub mod Loaded
pub mod Owned
mod Tests
use nuno.Prelude.{
  ℕ, zero, suc, ◌+◌, ◌==◌, Bool, true, false, not, ◌&&◌, ◌||◌, Option, none, some, List, [], ◌∷◌,
  ◌++◌, Result, ok, err, if◌then◌else◌, length, ℕ_eq,
}
use nuno.Prelude.Int.{ℤ}
use nuno.Prelude.Text.{Text, text_eq, Text_eq}
use nuno.Prelude.Dict.{Dict, lookup, write, keys, index_by}
use nuno.Prelude.Sort.{sort_by}
use nuno.Prelude.Text.{text_lt}
use nuno.Core.Errors.{CallError}
use nuno.Core.Model.{User, UserStatus, user_active, ExternalAccount, AccountLink, writable_external}
use nuno.Store.Links.{LinkError, upsert_link, list_links, replace_link_issues}
use nuno.Store.Accounts.{AccountError, list_external_accounts, set_account_owner}
use nuno.Store.Db.{Db}
use nuno.Reconcile.Instance.{Instance}
use nuno.Reconcile.Link.{ProviderState, revalidate, match_direct}
use nuno.Reconcile.Subject.{match_by_subject, collect_issues}

pub data ObserveError : Type 0 where
  list_failed : CallError → ObserveError
  store_failed : AccountError → ObserveError

pub record ProviderResult : Type 0 where
  pub name : Text
  pub type_name : Text
  pub observed : ℕ
  pub skipped : ℕ
  pub linked : ℕ
  pub issues : ℕ
  pub error : Option ObserveError

-- `ProviderResult.OK`
unfoldable pub result_ok : ProviderResult → Bool
result_ok r = elim r.error [ none ↦ true | some _ ↦ false ]

pub record CycleReport : Type 0 where
  pub started_at : ℤ
  pub finished_at : ℤ
  pub providers : List ProviderResult

failed_results : List ProviderResult → List ProviderResult
failed_results [] = []
failed_results (r ∷ rest) =
    let later = failed_results rest in if not (result_ok r) then r ∷ later else later

-- `Report.Failed`
unfoldable pub failed : CycleReport → List ProviderResult
unfolding failed_results
failed r = failed_results r.providers

-- `Report.OK`
unfoldable pub report_ok : CycleReport → Bool
report_ok r = elim (failed r) [ [] ↦ true | ◌∷◌ _ _ ↦ false ]

sum_results : List ProviderResult → ℕ → ℕ → ℕ → ℕ × ℕ × ℕ
sum_results [] observed linked issues = (observed, linked, issues)
sum_results (r ∷ rest) observed linked issues =
    sum_results rest (observed + r.observed) (linked + r.linked) (issues + r.issues)

-- `Report.Totals`
unfoldable pub totals : CycleReport → ℕ × ℕ × ℕ
unfolding sum_results
totals r = sum_results r.providers 0 0 0

-- The place of the result of that name; the last of two with one name is meant.
unfoldable pub slot_of : Text → List ProviderResult → ℕ → Option ℕ → Option ℕ
slot_of name [] n found = found
slot_of name (r ∷ rest) n found =
    slot_of name rest (suc n) (if text_eq r.name name then some n else found)

unfoldable pub get_elem? : List ProviderResult → ℕ → Option ProviderResult
get_elem? [] n = none
get_elem? (r ∷ rest) zero = some r
get_elem? (r ∷ rest) (suc n) = get_elem? rest n

unfoldable pub links_of : ℕ → List AccountLink → Dict ℕ AccountLink → Dict ℕ AccountLink
links_of provider_id [] m = m
links_of provider_id (l ∷ rest) m =
    links_of provider_id rest (if l.provider_id == provider_id then write l.user_id l m else m)

-- `linked` of the states: people with status active.
unfoldable pub active_users : List User → List User
active_users [] = []
active_users (u ∷ rest) =
    let later = active_users rest in elim u.status [ user_active ↦ u ∷ later | _ ↦ later ]

module _ {W : Type 0} where
  new_state : ℕ → Instance W → List AccountLink → List ExternalAccount → ProviderState
  new_state slot i existing accounts = record {
    slot = slot;
    row = i.row;
    accounts = accounts;
    by_id = index_by (λ (a : ExternalAccount). a.external_id) accounts [];
    linked = links_of i.row.id existing [];
    owner = [];
    new_links = [];
    issues = [];
    dangling = [];
  }

  usable : Instance W → Option ProviderResult → Bool
  usable i none = false
  usable i (some r) = result_ok r && i.provider.can_read_users

  load_state : Db → CycleReport → Instance W → Option ℕ → List ProviderState → List ProviderState
  unfolding new_state usable
  load_state db report i none later = later
  load_state db report i (some slot) later =
      if usable i (get_elem? report.providers slot)
      then new_state slot i (list_links db.links) (list_external_accounts i.row.id db.accounts)
        ∷ later
      else later

  -- `loadStates`: a provider that was not read now is left out whole.
  pub load_states : Db → CycleReport → List (Instance W) → List ProviderState
  unfolding load_state
  load_states db report [] = []
  load_states db report (i ∷ rest) =
      load_state db report i (slot_of i.row.name report.providers 0 none)
        (load_states db report rest)

-- The orders in which Go ranges over the maps of a pass.
pub record MapOrder : Type 0 where
  pub people : List ℕ → List ℕ
  pub values : List Text → List Text
  pub owned : List Text → List Text

unfoldable pub match_states : ℤ → MapOrder → List User → List ProviderState → List ProviderState
match_states now order users [] = []
match_states now order users (s ∷ rest) =
    match_direct now order.values users (revalidate (order.people (keys s.linked)) users s)
    ∷ match_states now order users rest

-- The three ways to a link, over all providers.
unfoldable pub link_states : ℤ → MapOrder → List User → List ProviderState → List ProviderState
unfolding match_states
link_states now order users states =
    match_by_subject now order.owned (match_states now order users states)

-- The links of a state are stored one by one; one that is refused ends it.
pub store_links :
    ℤ → List User → List AccountLink → List AccountLink → Option LinkError × List AccountLink
store_links now users [] rows = (none, rows)
store_links now users (l ∷ rest) rows = elim (upsert_link now users l rows) [
  | err e ↦ (some e, rows)
  | ok stored ↦ store_links now users rest stored
]

pub store_owners :
    ProviderState → List ExternalAccount → List ExternalAccount → List ExternalAccount
store_owners s [] rows = rows
store_owners s (a ∷ rest) rows =
    store_owners s rest
      (set_account_owner s.row.id a.external_id (lookup a.external_id s.owner) rows)

unfoldable pub set :
    List ProviderResult → ℕ → (ProviderResult → ProviderResult) → List ProviderResult
set [] n f = []
set (r ∷ rest) zero f = f r ∷ rest
set (r ∷ rest) (suc n) f = r ∷ set rest n f

-- `countLinkable`
unfoldable pub count_linkable : List ExternalAccount → ℕ
count_linkable [] = 0
count_linkable (a ∷ rest) = (if writable_external a then 1 else 0) + count_linkable rest

persist_rest :
    ProviderState
    → Option LinkError × List AccountLink
    → Db
    → CycleReport
    → Option LinkError × Db × CycleReport
unfolding store_owners set
persist_rest s (some e, links) db report = (some e, record db { links = links }, report)
persist_rest s (none, links) db report = (
  none,
  record db {
    links = links;
    accounts = store_owners s s.accounts db.accounts;
    issues = replace_link_issues s.row.id s.issues db.issues;
  },
  record report {
    providers =
        set report.providers s.slot
          (λ r. record r { linked = length s.owner; issues = length s.issues });
  },
)

-- `persist`
unfoldable pub persist : ℤ → ProviderState → Db → CycleReport → Option LinkError × Db × CycleReport
unfolding persist_rest store_links
persist now s db report = persist_rest s (store_links now db.users s.new_links db.links) db report

-- The last loop of `link`.
pub persist_all :
    ℤ → List User → List ProviderState → Db → CycleReport → Option LinkError × Db × CycleReport
unfolding persist
persist_all now users [] db report = (none, db, report)
persist_all now users (s ∷ rest) db report =
    let (e, db', report') = persist now (collect_issues users s) db report in
    elim e [ some why ↦ (some why, db', report') | none ↦ persist_all now users rest db' report' ]

module _ {W : Type 0} where
  -- `link`
  unfoldable pub link :
      ℤ → MapOrder → List (Instance W) → Db → CycleReport → Option LinkError × Db × CycleReport
  unfolding link_states load_states persist_all
  link now order instances db report =
      let users = active_users (sort_by (λ a b. text_lt a.source_uuid b.source_uuid) db.users) in
      persist_all now users (link_states now order users (load_states db report instances)) db
        report
