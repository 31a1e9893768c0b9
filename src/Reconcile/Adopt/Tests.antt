-- ===== src/Reconcile/Adopt/Tests.antt =====
-- An account whose override differs from what its provider reports is adopted.
use nuno.Prelude.{◌≡◌, refl, [], ◌∷◌, ok, All, List}
use nuno.Core.Plan.{Change, class_unknown_state}
use nuno.Store.Policy.{PolicyDb, override_adopted}
use nuno.Reconcile.Planning.{plan_run}
use nuno.Reconcile.Planning.Sample.{bytes, tables, policies, cloud, everything}
use nuno.Reconcile.Adopt.{Adoption, adopt_run}
use nuno.Reconcile.Adopt.Settled.{adopt_run-plan}

abbrev adopted : Adoption
adopted = record {
  adopted = 1;
  skipped = [];
  policies = record policies {
    overrides =
        record { user_id = 2; provider_id = 1; quota = bytes 10; origin = override_adopted } ∷ [];
  };
}

adopt_run-plan_example :
    All
      (λ (c : Change). c.class ≡ class_unknown_state)
      (plan_run tables adopted.policies (cloud ∷ []) everything).plan.changes
unfolding adopt_run nuno.Store.Links.list_links nuno.Prelude.Sort.sort_by nuno.Prelude.Dict.lookup
    nuno.Reconcile.Instance.by_provider nuno.Prelude.Dict.write nuno.Prelude.Dict.index_by
    nuno.Reconcile.Planning.admits nuno.Store.Accounts.list_external_accounts
    nuno.Prelude.Table.rows_where nuno.Prelude.Text.text_eq nuno.Core.Quota.is_known
    nuno.Store.Policy.set_provider_override nuno.Core.Quota.valid nuno.Prelude.Table.exists_row
    nuno.Prelude.Table.update_where
adopt_run-plan_example =
    adopt_run-plan tables (cloud ∷ []) everything policies adopted (tt, tt) (((λ e. refl), tt), tt)
      refl
