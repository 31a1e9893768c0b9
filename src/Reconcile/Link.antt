-- ===== src/Reconcile/Link.antt =====
-- The matching of internal/reconcile/link.go: which account of a provider is whose. Go ranges over a
-- map in any order, so the keys that a loop visits are an argument.
pub mod Owners
pub mod Free
pub mod Pairs
pub mod Direct
pub mod Kept
use nuno.Prelude.{
  ℕ, ◌==◌, Bool, true, false, not, ◌&&◌, ◌||◌, Option, none, some, List, [], ◌∷◌, ◌++◌, is_empty,
  contains, length, if◌then◌else◌, ℕ_eq,
}
use nuno.Prelude.Int.{ℤ}
use nuno.Prelude.Text.{Text, text_eq, Text_eq}
use nuno.Prelude.Dict.{Dict, lookup, write, has, index_by}
use nuno.Core.Model.{
  User, ExternalAccount, LinkOrigin, link_matched, link_manual, AccountLink, MatchKey,
  match_subject, match_email, match_username, match_other, LinkIssue, LinkIssueKind,
  issue_ambiguous, issue_dangling, issue_stale, IssueDetail, no_longer_reported,
  disabled_or_deleted, key_differs, shared_key, shared_subject, normalize_email, normalize_username,
  writable_external,
}
use nuno.Reconcile.Instance.{ProviderRow}

-- `providerState`; `slot` is the place of its result in the report.
pub record ProviderState : Type 0 where
  pub slot : ℕ
  pub row : ProviderRow
  pub accounts : List ExternalAccount
  pub by_id : Dict Text ExternalAccount
  pub linked : Dict ℕ AccountLink
  pub owner : Dict Text ℕ
  pub new_links : List AccountLink
  pub issues : List LinkIssue
  pub dangling : List ℕ

unfoldable pub user_match_value : User → MatchKey → Text
user_match_value u match_email = normalize_email u.email
user_match_value u match_username = normalize_username u.uid
user_match_value u match_subject = []
user_match_value u (match_other s) = []

unfoldable pub account_match_value : ExternalAccount → MatchKey → Text
account_match_value a match_email = normalize_email a.email
account_match_value a match_username = normalize_username a.username
account_match_value a match_subject = a.subject
account_match_value a (match_other s) = []

abbrev pub report_issue :
    LinkIssueKind → Option ℕ → Text → IssueDetail → ProviderState → ProviderState
report_issue kind user external_id detail s = record s {
  issues =
      s.issues
      ++ (record {
        provider_id = s.row.id;
        kind = kind;
        user_id = user;
        external_id = external_id;
        detail = detail;
      }
          ∷ []);
}

-- The issue of a link whose account can not be used, which is excluded from the cycle.
abbrev exclude : LinkIssueKind → AccountLink → ℕ → IssueDetail → ProviderState → ProviderState
exclude kind link user_id detail s =
    let t = report_issue kind (some user_id) link.external_id detail s in
    record t { dangling = user_id ∷ t.dangling }

abbrev pub own : Text → ℕ → ProviderState → ProviderState
own external_id user_id s = record s { owner = write external_id user_id s.owner }

check_key : LinkOrigin → User → ExternalAccount → AccountLink → ℕ → ProviderState → ProviderState
check_key link_manual user account link user_id s = own link.external_id user_id s
check_key link_matched user account link user_id s =
    let want = user_match_value user s.row.match_key in
    let got = account_match_value account s.row.match_key in
    if not (is_empty want) && not (text_eq want got)
    then exclude issue_stale link user_id (key_differs s.row.match_key user.uid want got) s
    else own link.external_id user_id s

check_account : Option ExternalAccount → User → AccountLink → ℕ → ProviderState → ProviderState
unfolding check_key
check_account none user link user_id s =
    exclude issue_dangling link user_id (no_longer_reported user.uid) s
check_account (some account) user link user_id s =
    if not (writable_external account)
    then exclude issue_dangling link user_id (disabled_or_deleted user.uid) s
    else check_key link.origin user account link user_id s

check_user : Option User → AccountLink → ℕ → ProviderState → ProviderState
unfolding check_account
check_user none link user_id s = record s { dangling = user_id ∷ s.dangling }
check_user (some user) link user_id s =
    check_account (lookup link.external_id s.by_id) user link user_id s

check_link : Dict ℕ User → Option AccountLink → ℕ → ProviderState → ProviderState
unfolding check_user
check_link users none user_id s = s
check_link users (some link) user_id s = check_user (lookup user_id users) link user_id s

-- The loop of `revalidate` over the people that have a link.
pub revalidate_each : Dict ℕ User → List ℕ → ProviderState → ProviderState
unfolding check_link
revalidate_each users [] s = s
revalidate_each users (user_id ∷ rest) s =
    revalidate_each users rest (check_link users (lookup user_id s.linked) user_id s)

-- `revalidate`
unfoldable pub revalidate : List ℕ → List User → ProviderState → ProviderState
unfolding revalidate_each
revalidate order users s = revalidate_each (index_by (λ (u : User). u.id) users []) order s

-- `adopt`
unfoldable pub adopt : ℤ → ℕ → Text → LinkOrigin → ProviderState → ProviderState
adopt now user_id external_id origin s =
    let link : AccountLink = record {
      user_id = user_id;
      provider_id = s.row.id;
      external_id = external_id;
      origin = origin;
      linked_at = now;
    } in
    record s {
      linked = write user_id link s.linked;
      owner = write external_id user_id s.owner;
      new_links = s.new_links ++ (link ∷ []);
    }

-- `usersByKey[value]` as `matchDirect` fills it.
unfoldable pub users_with : ProviderState → Text → List User → List User
users_with s value [] = []
users_with s value (u ∷ rest) =
    let later = users_with s value rest in
    let own_value = user_match_value u s.row.match_key in
    if not (has u.id s.linked) && (not (is_empty own_value) && text_eq own_value value)
    then u ∷ later
    else later

-- `accountsByKey[value]`
unfoldable pub accounts_with : ProviderState → Text → List ExternalAccount → List ExternalAccount
accounts_with s value [] = []
accounts_with s value (a ∷ rest) =
    let later = accounts_with s value rest in
    let own_value = account_match_value a s.row.match_key in
    if writable_external a
      && (not (has a.external_id s.owner) && (not (is_empty own_value) && text_eq own_value value))
    then a ∷ later
    else later

-- The keys of `usersByKey`: each once.
unfoldable pub values_of : ProviderState → List User → List Text → List Text
values_of s [] seen = []
values_of s (u ∷ rest) seen =
    let own_value = user_match_value u s.row.match_key in
    let wanted =
      not (has u.id s.linked) && (not (is_empty own_value) && not (contains own_value seen)) in
    let with_it = own_value ∷ values_of s rest (own_value ∷ seen) in
    let without = values_of s rest seen in if wanted then with_it else without

pub report_each : ℕ → ℕ → Text → List User → ProviderState → ProviderState
report_each people accounts value [] s = s
report_each people accounts value (u ∷ rest) s = report_each people accounts value rest (
    report_issue issue_ambiguous (some u.id) [] (shared_key people accounts s.row.match_key value)
      s)

-- One value of the match key: its people and its accounts.
pub match_candidates : ℤ → Text → List User → List ExternalAccount → ProviderState → ProviderState
unfolding report_each
match_candidates now value people [] s = s
match_candidates now value (u ∷ []) (a ∷ []) s = adopt now u.id a.external_id link_matched s
match_candidates now value people (a ∷ rest) s =
    report_each (length people) (length (a ∷ rest)) value people s

-- The loop over `usersByKey`; the two maps are those of the state before it.
pub match_each : ℤ → ProviderState → List User → List Text → ProviderState → ProviderState
unfolding match_candidates
match_each now before users [] s = s
match_each now before users (value ∷ rest) s = match_each now before users rest (
    match_candidates now value (users_with before value users)
      (accounts_with before value before.accounts) s)

abbrev pub key_unset : MatchKey → Bool
key_unset (match_other s) = is_empty s
key_unset _ = false

-- `matchDirect`
unfoldable pub match_direct :
    ℤ → (List Text → List Text) → List User → ProviderState → ProviderState
unfolding match_each
match_direct now order users s =
    if key_unset s.row.match_key then s else match_each now s users (order (values_of s users [])) s
