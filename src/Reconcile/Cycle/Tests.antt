-- ===== src/Reconcile/Cycle/Tests.antt =====
-- Passes of the linker over one provider, and the theorems there.
use nuno.Prelude.{
  contains, ℕ, ◌≡◌, refl, sym, ◌∙◌, true, false, none, some, List, [], ◌∷◌, Memᴰ, ok,
}
use nuno.Prelude.Int.{pos}
use nuno.Prelude.Text.{Text, codes, text_eq, text_lt, to_lower, trim_space}
use nuno.Prelude.Dict.{lookup, write, has, keys, index_by}
use nuno.Prelude.Sort.{sort_by, insert_by}
use nuno.Prelude.Table.{rows_where, exists_row, update_where, delete_where}
use nuno.Core.Quota.{unknown}
use nuno.Core.Model.{
  User, UserStatus, user_active, user_orphaned, source_ldap, ExternalAccount, AccountLink,
  link_matched, match_email, normalize_email, normalize_username, writable_external,
}
use nuno.Store.Links.{
  link_conflict, upsert_link, same_person, same_account, list_links, link_before,
  replace_link_issues,
}
use nuno.Store.Accounts.{list_external_accounts, set_account_owner, is_row}
use nuno.Reconcile.Subject.{match_by_subject, collect_issues, known_user, has_ambiguity}
use nuno.Store.Db.{Db}
use nuno.Reconcile.Instance.{Instance}
use nuno.Reconcile.Link.{
  ProviderState, match_direct, user_match_value, account_match_value, revalidate, users_with,
  accounts_with, values_of, adopt,
}
use nuno.Reconcile.Link.Owners.{no_owner-IsOwned}
use nuno.Reconcile.Link.Pairs.{HasIds, IsMatching}
use nuno.Reconcile.Link.Direct.{match_direct-IsMatching}
use nuno.Reconcile.Cycle.{
  CycleReport, MapOrder, link, link_states, slot_of, get_elem?, result_ok, links_of, active_users,
  persist, set, match_states,
}

abbrev person : ℕ → Text → UserStatus → Text → User
person id uid status email = record {
  id = id;
  source = source_ldap;
  source_uuid = uid;
  uid = uid;
  email = email;
  display_name = [];
  status = status;
  group_uuids = [];
}

abbrev ada : User
ada = person 1 (codes "ada") user_orphaned (codes "box@home")

abbrev bob : User
bob = person 2 (codes "bob") user_active (codes "Box@home ")

abbrev box : ExternalAccount
box = record {
  provider_id = 1;
  external_id = codes "x";
  user_id = none;
  subject = [];
  username = codes "box";
  email = codes "box@home";
  enabled = true;
  deleted = false;
  quota = unknown;
  used = unknown;
  never_used = false;
  observed_at = pos 0;
  observe_ok = true;
}

abbrev link_to_box : ℕ → AccountLink
link_to_box user_id = record {
  user_id = user_id;
  provider_id = 1;
  external_id = codes "x";
  origin = link_matched;
  linked_at = pos 5;
}

abbrev cloud : Instance (Unit {0})
cloud = record {
  row = record {
    id = 1;
    type_name = codes "nextcloud";
    name = codes "cloud";
    match_key = match_email;
    degraded_reason = [];
  };
  provider = record {
    can_read_users = true;
    can_set_user_quota = true;
    health = λ w. (record { reachable = true; version = []; in_supported = true; error = none }, w);
    list_accounts = λ w. (ok [], w);
    get_account = λ id w. (
      ok (record {
        external_id = id;
        subject = [];
        username = [];
        email = [];
        enabled = true;
        deleted = false;
        quota = unknown;
        used = unknown;
        observed_at = pos 0;
        never_used = false;
      }),
      w,
    );
    normalize_quota = λ q. q;
    set_quota = λ id q w. (ok tt, w);
    write_limit = none;
  };
}

abbrev observed : CycleReport
observed = record {
  started_at = pos 0;
  finished_at = pos 0;
  providers =
      record {
        name = codes "cloud";
        type_name = codes "nextcloud";
        observed = 1;
        skipped = 0;
        linked = 0;
        issues = 0;
        error = none;
      }
      ∷ [];
}

abbrev as_they_come : MapOrder
as_they_come = record { people = λ l. l; values = λ l. l; owned = λ l. l }

abbrev tables : List AccountLink → Db
tables links = record { users = ada ∷ bob ∷ []; links = links; accounts = box ∷ []; issues = [] }

-- The one person with the address of the account is linked to it.
fresh_link :
    (link (pos 5) as_they_come (cloud ∷ []) (tables []) observed).1.links ≡ link_to_box 2 ∷ []
unfolding link match_by_subject slot_of text_eq get_elem? result_ok collect_issues match_direct
    revalidate keys links_of list_links sort_by insert_by link_before write lookup has contains
    index_by active_users text_lt user_match_value account_match_value normalize_email
    normalize_username to_lower trim_space writable_external list_external_accounts rows_where
    exists_row update_where delete_where users_with accounts_with values_of adopt known_user
    has_ambiguity upsert_link same_person same_account set_account_owner is_row replace_link_issues
    persist set link_states match_states
fresh_link = refl

-- A person who left the directory keeps the link, and the next person with that address makes every
-- pass fail: the table refuses a second link to the account.
orphan_blocks :
    (link (pos 5) as_they_come (cloud ∷ []) (tables (link_to_box 1 ∷ [])) observed).0
    ≡ some (link_conflict 2 (codes "x") 1)
unfolding link match_by_subject slot_of text_eq get_elem? result_ok collect_issues match_direct
    revalidate keys links_of list_links sort_by insert_by link_before write lookup has contains
    index_by active_users text_lt user_match_value account_match_value normalize_email
    normalize_username to_lower trim_space writable_external list_external_accounts rows_where
    exists_row update_where delete_where users_with accounts_with values_of adopt known_user
    has_ambiguity upsert_link same_person same_account set_account_owner is_row replace_link_issues
    persist set link_states match_states
orphan_blocks = refl

bob-HasIds : HasIds (bob ∷ [])
bob-HasIds a b (Memᴰ.head e) (Memᴰ.head f) same = e ∙ sym f
bob-HasIds a b (Memᴰ.head e) (Memᴰ.tail n) same = elim n [ ]
bob-HasIds a b (Memᴰ.tail m) n same = elim m [ ]

abbrev state : ProviderState
state = record {
  slot = 0;
  row = cloud.row;
  accounts = box ∷ [];
  by_id = (codes "x", box) ∷ [];
  linked = [];
  owner = [];
  new_links = [];
  issues = [];
  dangling = [];
}

match_direct-IsMatching_example :
    IsMatching (bob ∷ []) state (match_direct (pos 5) (λ l. l) (bob ∷ []) state)
match_direct-IsMatching_example =
    match_direct-IsMatching (bob ∷ []) (pos 5) (λ l. l) state bob-HasIds
      (no_owner-IsOwned (bob ∷ []) state refl) refl
