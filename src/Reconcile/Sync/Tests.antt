-- ===== src/Reconcile/Sync/Tests.antt =====
-- A sync of a directory with one person.
use nuno.Prelude.{ℕ, ◌≡◌, refl, true, some, List, [], ◌∷◌, ok, ltb}
use nuno.Prelude.Text.{Text, codes}
use nuno.Core.Model.{source_ldap, user_active}
use nuno.Store.Identity.{UserRow, IdentityDb, IdentitySnapshot, IdentityResult}
use nuno.Reconcile.Sync.{count_active, sync_identity, HasActive, sync_identity-HasActive}

abbrev ann : UserRow
ann = record {
  id = 1;
  source = source_ldap;
  source_uuid = codes "a";
  uid = codes "ann";
  email = [];
  display_name = [];
  status = user_active;
}

abbrev read : IdentitySnapshot
read = record {
  source = source_ldap;
  users =
      record {
        id = 0;
        source = source_ldap;
        source_uuid = codes "a";
        uid = codes "anna";
        email = [];
        display_name = [];
        status = user_active;
        group_uuids = [];
      }
      ∷ [];
  groups = [];
}

abbrev before : IdentityDb
before = record { users = ann ∷ []; groups = []; memberships = [] }

abbrev after : IdentityDb
after = record before { users = record ann { uid = codes "anna" } ∷ [] }

sync_identity-HasActive_example : HasActive after
unfolding sync_identity count_active nuno.Store.Identity.replace_identity
    nuno.Prelude.Table.rows_where nuno.Prelude.Text.text_eq nuno.Prelude.Table.update_where
    nuno.Prelude.Table.delete_where nuno.Prelude.contains
sync_identity-HasActive_example =
    sync_identity-HasActive {E = Unit {0}} (some (ok read)) before after
      (record { users = 1; groups = 0; orphaned = 0; restored = 0 }) refl refl
