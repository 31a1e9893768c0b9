-- ===== src/Core/Plan/Tests.antt =====
-- Runs of the planner, and each theorem at accounts that meet its hypotheses.
use mathlib.Core.List.{Perm}
use nuno.Prelude.{
  ℕ, ◌+◌, ◌≡◌, refl, ◌⊎◌, inl, inr, Bool, true, false, List, [], ◌∷◌, map, Memᴰ, length, arith,
}
use nuno.Prelude.Int.{pos}
use nuno.Prelude.Text.{Text, codes, text_eq, text_lt}
use nuno.Prelude.Sort.{sort_by}
use nuno.Core.Quota.{Quota, kind_bytes, unknown, is_known, is_bytes, equal}
use nuno.Core.Model.{source_ldap, user_active}
use nuno.Core.Resolve.{rule_group_tier}
use nuno.Core.Plan.{
  Change, PlanAccount, class_safe, class_shrink_below_usage, class_unknown_state, count_by_class,
  applicable, build_plan, change_of, classify, class_eq,
}
use nuno.Core.Plan.Guards.{IsTrusted, LeavesRoom, IsFor, applicable-IsTrusted}
use nuno.Core.Plan.Complete.{applicable_complete}
use nuno.Core.Plan.Order.{
  AreInOrder, changes_of, settled_count, build_plan-IsSorted, build_plan_counts, applicable_counts,
}

abbrev bytes : ℕ → Quota
bytes n = record { kind = kind_bytes; bytes = pos n }

abbrev account : Text → Quota → Quota → Quota → PlanAccount
account uid observed desired used = record {
  user = record {
    id = 1;
    source = source_ldap;
    source_uuid = uid;
    uid = uid;
    email = [];
    display_name = [];
    status = user_active;
    group_uuids = [];
  };
  provider_id = 1;
  provider = codes "nextcloud";
  external_id = uid;
  desired = desired;
  present = true;
  observed = observed;
  used = used;
  never_used = false;
  observe_ok = true;
  rule = rule_group_tier;
  tier_name = codes "family";
}

-- A safe raise, a shrink below usage, a state that was not read, and one with nothing to do.
abbrev raise : PlanAccount
raise = account (codes "zoe") (bytes 10) (bytes 20) (bytes 5)

abbrev house : List PlanAccount
house =
    raise
    ∷ account (codes "ada") (bytes 10) (bytes 5) (bytes 5)
    ∷ account (codes "bob") unknown (bytes 5) (bytes 1)
    ∷ account (codes "eve") (bytes 5) (bytes 5) (bytes 1)
    ∷ []

house-counts :
    (count_by_class (build_plan house) class_safe ≡ 1)
    × (count_by_class (build_plan house) class_shrink_below_usage ≡ 1)
    × (count_by_class (build_plan house) class_unknown_state ≡ 1)
unfolding build_plan count_by_class change_of classify class_eq is_known is_bytes equal sort_by
    text_eq text_lt
house-counts = (refl, refl, refl)

abbrev uids : List Change → List Text
uids = map (λ c. c.user_uid)

house-order : uids (build_plan house).changes ≡ codes "ada" ∷ codes "bob" ∷ codes "zoe" ∷ []
unfolding build_plan change_of classify class_eq is_known is_bytes equal sort_by text_eq text_lt
house-order = refl

house-applicable : uids (applicable (build_plan house) false) ≡ codes "zoe" ∷ []
unfolding build_plan applicable change_of classify class_eq is_known is_bytes equal sort_by text_eq
    text_lt
house-applicable = refl

abbrev raised : Change
raised = change_of raise

raised-mem : Memᴰ raised (applicable (build_plan house) false)
unfolding build_plan applicable change_of classify class_eq is_known is_bytes equal sort_by text_eq
    text_lt
raised-mem = Memᴰ.head refl

applicable-IsTrusted_example :
    (a : PlanAccount) × Memᴰ a house
    × IsFor raised a
    × (a.present ≡ true)
    × IsTrusted a
    × (◌≡◌ {A = Bool} false true ⊎ LeavesRoom a)
applicable-IsTrusted_example = applicable-IsTrusted house false raised raised-mem

raise-IsTrusted : IsTrusted raise
unfolding is_known
raise-IsTrusted = record {
  observe_ok = refl;
  observed_known = refl;
  used_known = refl;
  desired_known = refl;
}

raise_differs : equal raise.desired raise.observed ≡ false
unfolding equal
raise_differs = refl

raise-LeavesRoom : LeavesRoom raise
raise-LeavesRoom = inr (inr (inl (omega arith)))

applicable_complete_example :
    (c : Change) × Memᴰ c (applicable (build_plan house) false) × IsFor c raise
applicable_complete_example =
    applicable_complete house false raise (Memᴰ.head refl) refl raise-IsTrusted raise_differs
      (inr raise-LeavesRoom)

build_plan-IsSorted_example :
    Perm (build_plan house).changes (changes_of house) × AreInOrder (build_plan house).changes
build_plan-IsSorted_example = build_plan-IsSorted house

build_plan_counts_example :
    (length (build_plan house).changes + (build_plan house).unallocated + settled_count house
      ≡ length house)
    × (count_by_class (build_plan house) class_safe
          + count_by_class (build_plan house) class_shrink_below_usage
          + count_by_class (build_plan house) class_unknown_state
        ≡ length (build_plan house).changes)
build_plan_counts_example = build_plan_counts house

applicable_counts_example :
    length (applicable (build_plan house) true)
    ≡ count_by_class (build_plan house) class_safe
      + count_by_class (build_plan house) class_shrink_below_usage
applicable_counts_example = applicable_counts (build_plan house) true
