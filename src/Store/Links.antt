-- ===== src/Store/Links.antt =====
-- The links and their issues of internal/store/accounts.go, with the two unique keys that
-- internal/store/migrations/00001_init.sql gives the table `account_links`. Its reference
-- to the people is modelled; the row of the provider is taken to exist, since its state is loaded
-- from it.
pub mod Keys
use nuno.Prelude.{
  ℕ, ◌==◌, Bool, true, false, not, ◌&&◌, ◌||◌, Option, List, [], ◌∷◌, ◌++◌, Result, ok, err, map,
  if◌then◌else◌, ltb, ℕ_eq,
}
use nuno.Prelude.Int.{ℤ}
use nuno.Prelude.Text.{Text, text_lt, text_eq}
use nuno.Prelude.Sort.{sort_by}
use nuno.Prelude.Table.{rows_where, exists_row, update_where, delete_where}
use nuno.Core.Model.{User, AccountLink, LinkIssue, is_zero_time}

-- The link that could not be stored: of that user, account and provider, where another stands in
-- the way; or of a user without a row.
pub data LinkError : Type 0 where
  link_conflict : ℕ → Text → ℕ → LinkError
  no_such_user : ℕ → LinkError

unfoldable pub same_person : AccountLink → AccountLink → Bool
same_person a b = a.user_id == b.user_id && a.provider_id == b.provider_id

unfoldable pub same_account : AccountLink → AccountLink → Bool
same_account a b = a.provider_id == b.provider_id && text_eq a.external_id b.external_id

dated : ℤ → AccountLink → AccountLink
dated now link = record link {
  linked_at = if is_zero_time link.linked_at then now else link.linked_at;
}

-- `UpsertLink`: the row of that person is replaced; another's account is refused, and so is a person
-- who is not among the people, to whom the new row refers.
unfoldable pub upsert_link :
    ℤ → List User → AccountLink → List AccountLink → Result LinkError (List AccountLink)
unfolding dated
upsert_link now users link links =
    let row = dated now link in
    if exists_row (λ old. same_account old row && not (same_person old row)) links
    then err (link_conflict link.user_id link.external_id link.provider_id)
    else if not (exists_row (λ (u : User). u.id == row.user_id) users)
    then err (no_such_user row.user_id)
    else if exists_row (λ old. same_person old row) links
    then ok (update_where (λ old. same_person old row) (λ _. row) links)
    else ok (links ++ (row ∷ []))

of_person : ℕ → ℕ → AccountLink → Bool
of_person user_id provider_id row = row.user_id == user_id && row.provider_id == provider_id

-- `DeleteLink`: whether there was one, and the rows that stay.
unfoldable pub delete_link : ℕ → ℕ → List AccountLink → Bool × List AccountLink
unfolding of_person
delete_link user_id provider_id links = (
  exists_row (of_person user_id provider_id) links,
  delete_where (of_person user_id provider_id) links,
)

unfoldable pub link_before : AccountLink → AccountLink → Bool
link_before a b =
    if ltb a.provider_id b.provider_id
    then true
    else if a.provider_id == b.provider_id
    then text_lt a.external_id b.external_id
    else false

-- `ListLinks`
unfoldable pub list_links : List AccountLink → List AccountLink
list_links links = sort_by link_before links

-- `ReplaceLinkIssues`
unfoldable pub replace_link_issues : ℕ → List LinkIssue → List LinkIssue → List LinkIssue
replace_link_issues provider_id issues rows =
    delete_where (λ row. row.provider_id == provider_id) rows
    ++ map {A = LinkIssue} (λ issue. record issue { provider_id = provider_id }) issues
