-- ===== src/Reconcile/Subject.antt =====
-- `matchBySubject` and `collectIssues` of internal/reconcile/link.go: a link is carried from one
-- provider to another by the OIDC subject, and what is left is reported.
pub mod Active
pub mod Joined
use nuno.Prelude.{
  ℕ, ◌==◌, Bool, true, false, not, ◌&&◌, ◌||◌, Option, none, some, List, [], ◌∷◌, is_empty,
  contains, if◌then◌else◌, ℕ_eq,
}
use nuno.Prelude.Int.{ℤ}
use nuno.Prelude.Text.{Text, Text_eq}
use nuno.Prelude.Dict.{Dict, lookup, write, has, keys}
use nuno.Core.Model.{
  User, ExternalAccount, link_matched, LinkIssue, LinkIssueKind, issue_unlinked, issue_ambiguous,
  issue_unmanaged, shared_subject, no_account, matches_nobody, writable_external,
}
use nuno.Reconcile.Link.{ProviderState, report_issue, adopt}

-- `userBySubject` and `conflicting`.
pub record Subjects : Type 0 where
  pub user_by_subject : Dict Text ℕ
  pub conflicting : List Text

-- The subject of an observed account, which is empty for one that is not there.
abbrev subject_of : Option ExternalAccount → Text
subject_of none = []
subject_of (some a) = a.subject

claim_subject : Text → ℕ → Option ℕ → Subjects → Subjects
claim_subject subject user_id none j = record j {
  user_by_subject = write subject user_id j.user_by_subject;
}
claim_subject subject user_id (some existing) j =
    if not (existing == user_id)
    then record j { conflicting = subject ∷ j.conflicting }
    else record j { user_by_subject = write subject user_id j.user_by_subject }

claim : ProviderState → Text → Option ℕ → Subjects → Subjects
unfolding claim_subject
claim s external_id none j = j
claim s external_id (some user_id) j =
    let subject = subject_of (lookup external_id s.by_id) in
    if is_empty subject
    then j
    else claim_subject subject user_id (lookup subject j.user_by_subject) j

-- The range over `state.owner`, by the account ids that it visits.
pub claim_each : ProviderState → List Text → Subjects → Subjects
unfolding claim
claim_each s [] j = j
claim_each s (external_id ∷ rest) j =
    claim_each s rest (claim s external_id (lookup external_id s.owner) j)

pub claim_all : (List Text → List Text) → List ProviderState → Subjects → Subjects
unfolding claim_each
claim_all order [] j = j
claim_all order (s ∷ rest) j = claim_all order rest (claim_each s (order (keys s.owner)) j)

-- The person of a subject, where only one is known.
unfoldable pub known_user : Subjects → Text → Option ℕ
known_user j subject =
    if contains subject j.conflicting then none else lookup subject j.user_by_subject

join_user : ℤ → ExternalAccount → Option ℕ → ProviderState → ProviderState
join_user now a none s = s
join_user now a (some user_id) s =
    if has user_id s.linked
    then report_issue issue_ambiguous (some user_id) a.external_id shared_subject s
    else adopt now user_id a.external_id link_matched s

join_account : ℤ → Subjects → ExternalAccount → ProviderState → ProviderState
unfolding join_user
join_account now j a s =
    if not (writable_external a) || is_empty a.subject
    then s
    else if has a.external_id s.owner
    then s
    else join_user now a (known_user j a.subject) s

pub join_each : ℤ → Subjects → List ExternalAccount → ProviderState → ProviderState
unfolding join_account
join_each now j [] s = s
join_each now j (a ∷ rest) s = join_each now j rest (join_account now j a s)

pub join_all : ℤ → Subjects → List ProviderState → List ProviderState
unfolding join_each
join_all now j [] = []
join_all now j (s ∷ rest) = join_each now j s.accounts s ∷ join_all now j rest

-- `matchBySubject`
unfoldable pub match_by_subject :
    ℤ → (List Text → List Text) → List ProviderState → List ProviderState
unfolding claim_all join_all
match_by_subject now order states =
    join_all now (claim_all order states (record { user_by_subject = []; conflicting = [] })) states

about_user : ℕ → LinkIssueKind → Option ℕ → Bool
about_user user_id issue_ambiguous (some id) = id == user_id
about_user user_id _ _ = false

-- `hasAmbiguity`
unfoldable pub has_ambiguity : List LinkIssue → ℕ → Bool
unfolding about_user
has_ambiguity [] user_id = false
has_ambiguity (issue ∷ rest) user_id =
    about_user user_id issue.kind issue.user_id || has_ambiguity rest user_id

pub report_unlinked : List User → ProviderState → ProviderState
report_unlinked [] s = s
report_unlinked (u ∷ rest) s = report_unlinked rest (
    if (has u.id s.linked && not (contains u.id s.dangling))
      || contains u.id s.dangling
      || has_ambiguity s.issues u.id
    then s
    else report_issue issue_unlinked (some u.id) [] (no_account u.uid) s)

pub report_unmanaged : List ExternalAccount → ProviderState → ProviderState
report_unmanaged [] s = s
report_unmanaged (a ∷ rest) s = report_unmanaged rest (
    if not (writable_external a) || has a.external_id s.owner
    then s
    else report_issue issue_unmanaged none a.external_id matches_nobody s)

-- `collectIssues`
unfoldable pub collect_issues : List User → ProviderState → ProviderState
unfolding report_unlinked report_unmanaged
collect_issues users s = report_unmanaged s.accounts (report_unlinked users s)
