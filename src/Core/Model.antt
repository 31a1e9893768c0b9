-- ===== src/Core/Model.antt =====
-- internal/core/model.go and internal/core/provider.go: people, accounts and links. Row ids are
-- only compared, so they are naturals; instants are nanoseconds. The string types keep a case for a
-- value outside their named ones, the empty string of a zero value among them.
use nuno.Prelude.{◌-◌, [], ◌&&◌, not, ℕ, Bool, Option, List}
use nuno.Prelude.Int.{ℤ, negsuc, eqb_ℤ}
use nuno.Prelude.Text.{Text, to_lower, trim_space}
use nuno.Core.Quota.{Quota}

pub data IdentitySource : Type 0 where
  source_ldap source_manual : IdentitySource
  source_other : Text → IdentitySource

pub data UserStatus : Type 0 where
  user_active user_orphaned : UserStatus
  status_other : Text → UserStatus

pub record User : Type 0 where
  pub id : ℕ
  pub source : IdentitySource
  pub source_uuid : Text
  pub uid : Text
  pub email : Text
  pub display_name : Text
  pub status : UserStatus
  pub group_uuids : List Text

pub record ExternalAccount : Type 0 where
  pub provider_id : ℕ
  pub external_id : Text
  pub user_id : Option ℕ
  pub subject : Text
  pub username : Text
  pub email : Text
  pub enabled : Bool
  pub deleted : Bool
  pub quota : Quota
  pub used : Quota
  pub never_used : Bool
  pub observed_at : ℤ
  pub observe_ok : Bool

pub data MatchKey : Type 0 where
  match_subject match_email match_username : MatchKey
  match_other : Text → MatchKey

pub record ProviderInstance : Type 0 where
  pub id : ℕ
  pub type_name : Text
  pub name : Text
  pub match_key : MatchKey
  pub config_ref : Text

pub data LinkOrigin : Type 0 where
  link_matched link_manual : LinkOrigin

pub record AccountLink : Type 0 where
  pub user_id : ℕ
  pub provider_id : ℕ
  pub external_id : Text
  pub origin : LinkOrigin
  pub linked_at : ℤ

pub record Group : Type 0 where
  pub id : ℕ
  pub source : IdentitySource
  pub source_uuid : Text
  pub name : Text
  pub display_name : Text

pub data LinkIssueKind : Type 0 where
  issue_unlinked issue_ambiguous issue_dangling issue_stale issue_unmanaged : LinkIssueKind

-- The explanation of an issue, with what its text shows.
pub data IssueDetail : Type 0 where
  no_longer_reported disabled_or_deleted : Text → IssueDetail
  key_differs : MatchKey → Text → Text → Text → IssueDetail
  shared_key : ℕ → ℕ → MatchKey → Text → IssueDetail
  shared_subject : IssueDetail
  no_account : Text → IssueDetail
  matches_nobody : IssueDetail

pub record LinkIssue : Type 0 where
  pub provider_id : ℕ
  pub kind : LinkIssueKind
  pub user_id : Option ℕ
  pub external_id : Text
  pub detail : IssueDetail

-- `NormalizeEmail`
unfoldable pub normalize_email : Text → Text
normalize_email email = to_lower (trim_space email)

-- `NormalizeUsername`
unfoldable pub normalize_username : Text → Text
normalize_username name = to_lower (trim_space name)

-- The zero time, January 1 of the year 1, from the Unix epoch.
abbrev pub zero_time : ℤ
zero_time = negsuc (62135596800000000000 - 1)

-- `Time.IsZero`
abbrev pub is_zero_time : ℤ → Bool
is_zero_time at = eqb_ℤ at zero_time

-- What an adapter reports of one account.
pub record Account : Type 0 where
  pub external_id : Text
  pub subject : Text
  pub username : Text
  pub email : Text
  pub enabled : Bool
  pub deleted : Bool
  pub quota : Quota
  pub used : Quota
  pub observed_at : ℤ
  pub never_used : Bool

-- `ExternalAccount.Writable`
unfoldable pub writable_external : ExternalAccount → Bool
writable_external a = a.enabled && not a.deleted

-- `Account.Writable`
unfoldable pub writable : Account → Bool
writable a = a.enabled && not a.deleted

-- `Account.MatchValue`
unfoldable pub match_value : Account → MatchKey → Text
match_value a match_subject = a.subject
match_value a match_email = a.email
match_value a match_username = a.username
match_value a (match_other s) = []
