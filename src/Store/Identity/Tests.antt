-- ===== src/Store/Identity/Tests.antt =====
-- A snapshot over a person of the directory and one that was added by hand.
use nuno.Prelude.{
  ℕ, ◌≡◌, refl, sym, subst, Bool, true, false, ◌&&◌, List, [], ◌∷◌, ok, Memᴰ, All, contains, ltb,
}
use nuno.Prelude.Text.{Text, codes, Text_eq}
use nuno.Prelude.Table.{exists_row}
use nuno.Core.Model.{User, source_ldap, source_manual, user_active, user_orphaned}
use nuno.Store.Identity.{
  UserRow, IdentityDb, IdentitySnapshot, IdentityResult, source_eq, row_active, uuids,
  replace_identity,
}
use nuno.Store.Identity.Kept.{HasIds, HasIds-append, IsSame, replace_identity-IsSame}
use nuno.Store.Identity.Active.{is_person, replace_identity-active}

abbrev gone : UserRow
gone = record {
  id = 1;
  source = source_ldap;
  source_uuid = codes "a";
  uid = codes "ann";
  email = [];
  display_name = [];
  status = user_active;
}

abbrev by_hand : UserRow
by_hand = record gone { id = 2; source = source_manual; source_uuid = codes "b" }

abbrev bob : User
bob = record {
  id = 0;
  source = source_ldap;
  source_uuid = codes "c";
  uid = codes "bob";
  email = [];
  display_name = [];
  status = user_active;
  group_uuids = [];
}

abbrev before : IdentityDb
before = record { users = gone ∷ by_hand ∷ []; groups = []; memberships = [] }

abbrev snapshot : IdentitySnapshot
snapshot = record { source = source_ldap; users = bob ∷ []; groups = [] }

abbrev after : IdentityDb
after = record before {
  users =
      record gone { status = user_orphaned }
      ∷ by_hand
      ∷ record gone { id = 3; source_uuid = codes "c"; uid = codes "bob" }
      ∷ [];
}

abbrev counted : IdentityResult
counted = record { users = 1; groups = 0; orphaned = 1; restored = 0 }

run : replace_identity snapshot before ≡ ok (counted, after)
unfolding replace_identity nuno.Prelude.Table.rows_where nuno.Prelude.Text.text_eq
    nuno.Prelude.Table.update_where nuno.Prelude.Table.delete_where contains
    nuno.Prelude.Table.next_id
run = refl

before-HasIds : HasIds before.users
before-HasIds =
    HasIds-append (gone ∷ []) by_hand
      (λ old m. elim m [
        | Memᴰ.head e ↦ subst (λ (r : UserRow). ltb r.id 2 ≡ true) (sym e) refl
        | Memᴰ.tail k ↦ elim k [ ]
      ])
      (HasIds-append [] gone (λ old m. elim m [ ]) (λ a b m. elim m [ ]))

replace_identity-IsSame_example :
    All (λ old. (row : UserRow) × Memᴰ row after.users × IsSame source_ldap old row) before.users
replace_identity-IsSame_example =
    replace_identity-IsSame snapshot before after counted before-HasIds run

replace_identity-active_example :
    All
      (λ (u : User). exists_row (is_person source_ldap u.source_uuid) after.users ≡ true)
      snapshot.users
    × All
        (λ (row : UserRow).
          (source_eq row.source source_ldap && row_active row) ≡ true
          → contains row.source_uuid (uuids snapshot.users) ≡ true)
        after.users
replace_identity-active_example = replace_identity-active snapshot before after counted run
