-- ===== src/Reconcile/Probe/Tests.antt =====
-- A probe of a provider with one linked account.
use nuno.Prelude.{ℕ, ◌≡◌, refl, List, [], ◌∷◌}
use nuno.Reconcile.Planning.Sample.{tables, cloud}
use nuno.Reconcile.Probe.{probe_write}
use nuno.Reconcile.Probe.Harmless.{IsReadBack, probe_write-IsReadBack}

probe_write-IsReadBack_example : IsReadBack cloud tables tt (probe_write cloud tables tt)
unfolding probe_write nuno.Store.Accounts.list_external_accounts nuno.Prelude.Sort.sort_by
    nuno.Prelude.Table.rows_where nuno.Core.Model.writable_external nuno.Core.Quota.is_known
    nuno.Core.Quota.equal
probe_write-IsReadBack_example = probe_write-IsReadBack cloud tables tt refl
