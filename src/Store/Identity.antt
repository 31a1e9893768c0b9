-- ===== src/Store/Identity.antt =====
-- internal/store/identity.go, with the keys that internal/store/migrations/00001_init.sql gives its
-- tables: people, groups and who belongs to which group.
pub mod Kept
pub mod Active
mod Tests
use nuno.Prelude.{
  ℕ, suc, ◌==◌, Bool, true, false, not, ◌&&◌, Option, none, some, List, [], ◌∷◌, ◌++◌, Result, ok,
  err, ◌>>=◌, ◌>>◌, refuse_if, if◌then◌else◌, ltb, is_empty, contains, ℕ_eq, length, map,
}
use nuno.Prelude.Text.{Text, text_lt, text_eq, Text_eq, equal_fold, trim_space}
use nuno.Prelude.Dict.{Dict, lookup, write}
use nuno.Prelude.Sort.{sort_by}
use nuno.Prelude.Table.{next_id, rows_where, exists_row, update_where, delete_where}
use nuno.Core.Model.{
  IdentitySource, source_ldap, source_manual, source_other, UserStatus, user_active, user_orphaned,
  status_other, User, Group,
}

-- A row of `users`; the groups stand in a table of their own.
pub record UserRow : Type 0 where
  pub id : ℕ
  pub source : IdentitySource
  pub source_uuid : Text
  pub uid : Text
  pub email : Text
  pub display_name : Text
  pub status : UserStatus

pub record IdentityDb : Type 0 where
  pub users : List UserRow
  pub groups : List Group
  pub memberships : List (ℕ × ℕ)

pub record IdentitySnapshot : Type 0 where
  pub source : IdentitySource
  pub users : List User
  pub groups : List Group

pub record IdentityResult : Type 0 where
  pub users : ℕ
  pub groups : ℕ
  pub orphaned : ℕ
  pub restored : ℕ

pub data IdentityError : Type 0 where
  no_source no_uid other_source : IdentityError
  group_without_uuid user_without_uuid : Text → IdentityError
  unknown_group : ℕ → Text → IdentityError
  uid_taken : IdentitySource → Text → IdentityError

abbrev pub source_eq : IdentitySource → IdentitySource → Bool
source_eq source_ldap source_ldap = true
source_eq source_manual source_manual = true
source_eq (source_other s) (source_other t) = text_eq s t
source_eq _ _ = false

abbrev pub row_active : UserRow → Bool
row_active row = elim row.status [ user_active ↦ true | _ ↦ false ]

abbrev pub row_orphaned : UserRow → Bool
row_orphaned row = elim row.status [ user_orphaned ↦ true | _ ↦ false ]

same_group : IdentitySource → Text → Group → Bool
same_group source uuid row = source_eq row.source source && text_eq row.source_uuid uuid

first_group : IdentitySource → Text → List Group → Option ℕ
unfolding same_group
first_group source uuid [] = none
first_group source uuid (row ∷ rest) =
    let later = first_group source uuid rest in
    if same_group source uuid row then some row.id else later

-- `upsertGroup`: the id of the row and the table.
upsert_group : IdentitySource → Group → List Group → ℕ × List Group
unfolding first_group
upsert_group source g rows = elim (first_group source g.source_uuid rows) [
  | some id ↦ (
    id,
    update_where (same_group source g.source_uuid)
        (λ row. record row { name = g.name; display_name = g.display_name }) rows,
  )
  | none ↦
      let id = next_id (λ (row : Group). row.id) rows in
      (id, rows ++ (record g { id = id; source = source } ∷ []))
]

pub same_user : IdentitySource → Text → UserRow → Bool
same_user source uuid row = source_eq row.source source && text_eq row.source_uuid uuid

pub find_user : IdentitySource → Text → List UserRow → Option UserRow
unfolding same_user
find_user source uuid [] = none
find_user source uuid (row ∷ rest) =
    let later = find_user source uuid rest in if same_user source uuid row then some row else later

pub renewed : User → UserRow → UserRow
renewed u row = record row {
  uid = u.uid;
  email = u.email;
  display_name = u.display_name;
  status = user_active;
}

pub new_user : ℕ → IdentitySource → User → UserRow
new_user id source u = record {
  id = id;
  source = source;
  source_uuid = u.source_uuid;
  uid = u.uid;
  email = u.email;
  display_name = u.display_name;
  status = user_active;
}

-- What `upsertUser` returns, with the table it leaves.
pub record Upserted : Type 0 where
  pub id : ℕ
  pub restored : Bool
  pub rows : List UserRow

-- `upsertUser`
pub upsert_user : IdentitySource → User → List UserRow → Upserted
unfolding find_user renewed new_user
upsert_user source u rows = elim (find_user source u.source_uuid rows) [
  | some found ↦ record {
    id = found.id;
    restored = row_orphaned found;
    rows = update_where (λ (row : UserRow). row.id == found.id) (renewed u) rows;
  }
  | none ↦
      let id = next_id (λ (row : UserRow). row.id) rows in
      record { id = id; restored = false; rows = rows ++ (new_user id source u ∷ []) }
]

add_membership : ℕ × ℕ → List (ℕ × ℕ) → List (ℕ × ℕ)
add_membership pair rows =
    if exists_row (λ (row : ℕ × ℕ). row.0 == pair.0 && row.1 == pair.1) rows
    then rows
    else rows ++ (pair ∷ [])

join_groups : ℕ → List Text → Dict Text ℕ → List (ℕ × ℕ) → Result IdentityError (List (ℕ × ℕ))
unfolding add_membership
join_groups user_id [] ids rows = ok rows
join_groups user_id (uuid ∷ rest) ids rows = elim (lookup uuid ids) [
  | none ↦ err (unknown_group user_id uuid)
  | some group_id ↦ join_groups user_id rest ids (add_membership (user_id, group_id) rows)
]

-- `setUserGroups`
pub set_user_groups :
    ℕ → List Text → Dict Text ℕ → List (ℕ × ℕ) → Result IdentityError (List (ℕ × ℕ))
unfolding join_groups
set_user_groups user_id uuids ids rows =
    join_groups user_id uuids ids (delete_where (λ (row : ℕ × ℕ). row.0 == user_id) rows)

-- An active person of the source that the snapshot does not have.
pub missing : IdentitySource → List Text → UserRow → Bool
missing source seen row =
    source_eq row.source source && row_active row && not (contains row.source_uuid seen)

-- `markOrphaned`
pub mark_orphaned : IdentitySource → List Text → List UserRow → ℕ × List UserRow
unfolding missing
mark_orphaned source seen rows = (
  length (rows_where (missing source seen) rows),
  update_where (missing source seen) (λ row. record row { status = user_orphaned }) rows,
)

-- The tables take the two named sources only.
pub foreign : IdentitySource → Bool
foreign (source_other s) = true
foreign _ = false

-- The groups of a snapshot: their ids and the table.
pub store_groups :
    IdentitySource
    → List Group
    → Dict Text ℕ
    → List Group
    → Result IdentityError (Dict Text ℕ × List Group)
unfolding upsert_group foreign
store_groups source [] ids rows = ok (ids, rows)
store_groups source (g ∷ rest) ids rows = do
  refuse_if (is_empty g.source_uuid) (group_without_uuid g.name)
  refuse_if (foreign source) other_source
  (let put = upsert_group source g rows in
      store_groups source rest (write g.source_uuid put.0 ids) put.1)

-- How far the loop over the people has come.
pub record Stored : Type 0 where
  pub restored : ℕ
  pub rows : List UserRow
  pub memberships : List (ℕ × ℕ)

pub store_users : IdentitySource → Dict Text ℕ → List User → Stored → Result IdentityError Stored
unfolding upsert_user set_user_groups foreign
store_users source ids [] s = ok s
store_users source ids (u ∷ rest) s = do
  refuse_if (is_empty u.source_uuid) (user_without_uuid u.uid)
  refuse_if (foreign source) other_source
  memberships ← set_user_groups (upsert_user source u s.rows).id u.group_uuids ids s.memberships
  (let put = upsert_user source u s.rows in
      store_users source ids rest (record {
        restored = if put.restored then suc s.restored else s.restored;
        rows = put.rows;
        memberships = memberships;
      }))

pub uuids : List User → List Text
uuids [] = []
uuids (u ∷ rest) = u.source_uuid ∷ uuids rest

pub no_name : IdentitySource → Bool
no_name (source_other s) = is_empty s
no_name _ = false

-- `ReplaceIdentity`: one transaction, so an error leaves the tables as they were.
unfoldable pub replace_identity :
    IdentitySnapshot → IdentityDb → Result IdentityError (IdentityResult × IdentityDb)
unfolding store_groups store_users mark_orphaned uuids no_name
replace_identity snap db = do
  refuse_if (no_name snap.source) no_source
  groups ← store_groups snap.source snap.groups [] db.groups
  users ←
      store_users snap.source groups.0 snap.users
        (record { restored = 0; rows = db.users; memberships = db.memberships })
  (let marked = mark_orphaned snap.source (uuids snap.users) users.rows in
      ok (
        record {
          users = length snap.users;
          groups = length snap.groups;
          orphaned = marked.0;
          restored = users.restored;
        },
        record { users = marked.1; groups = groups.1; memberships = users.memberships },
      ))

abbrev in_group : ℕ → List (ℕ × ℕ) → Group → Bool
in_group user_id memberships g =
    exists_row (λ (row : ℕ × ℕ). row.0 == user_id && row.1 == g.id) memberships

-- The second query of `ListUsers`: the uuids of a person's groups, in their order.
groups_of : ℕ → IdentityDb → List Text
groups_of user_id db =
    map {A = Group} (λ g. g.source_uuid)
      (sort_by (λ a b. text_lt a.source_uuid b.source_uuid)
        (rows_where (in_group user_id db.memberships) db.groups))

-- `ListUsers`
unfoldable pub list_users : IdentityDb → List User
unfolding groups_of
list_users db =
    map {A = UserRow}
      (λ row. record {
        id = row.id;
        source = row.source;
        source_uuid = row.source_uuid;
        uid = row.uid;
        email = row.email;
        display_name = row.display_name;
        status = row.status;
        group_uuids = groups_of row.id db;
      })
      (sort_by (λ a b. text_lt a.source_uuid b.source_uuid) db.users)

-- A person of that uid, in any case of ASCII.
find_uid : Text → List UserRow → Option UserRow
find_uid uid [] = none
find_uid uid (row ∷ rest) =
    let later = find_uid uid rest in if equal_fold row.uid uid then some row else later

-- The person that `AddManualUser` stores; the uuid is a random one where none is given.
manual_user : Text → User → User
manual_user random u = record u {
  source = source_manual;
  status = user_active;
  source_uuid = if is_empty u.source_uuid then random else u.source_uuid;
  display_name = if is_empty u.display_name then u.uid else u.display_name;
}

-- `AddManualUser`
unfoldable pub add_manual_user : Text → User → IdentityDb → Result IdentityError (User × IdentityDb)
unfolding find_uid manual_user
add_manual_user random u db =
    if is_empty (trim_space u.uid) then err no_uid else elim (find_uid u.uid db.users) [
      | some existing ↦ err (uid_taken existing.source u.uid)
      | none ↦
          let put = upsert_user source_manual (manual_user random u) db.users in
          ok (record (manual_user random u) { id = put.id }, record db { users = put.rows })
    ]

-- `DeleteUser`: the memberships go with the person; the rows of other tables are not shown here.
unfoldable pub delete_user : ℕ → IdentityDb → Bool × IdentityDb
delete_user id db = (
  exists_row (λ (row : UserRow). row.id == id) db.users,
  record db {
    users = delete_where (λ (row : UserRow). row.id == id) db.users;
    memberships = delete_where (λ (row : ℕ × ℕ). row.0 == id) db.memberships;
  },
)

-- `ListGroups`
unfoldable pub list_groups : IdentityDb → List Group
list_groups db = sort_by (λ a b. text_lt a.name b.name) db.groups
