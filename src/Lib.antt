-- ===== src/Lib.antt =====
-- Nuno: a quota and usage control plane. People come from a directory, tiers and overrides say what
-- each of them may store on each provider, and a run compares that with what the providers report
-- and writes the difference.
--
-- The files follow the packages of the program:
--
-- Prelude: shared names. Int is the int64 arithmetic of the program, two's complement with the
--   wrap-around written out; Text is a Go string as its bytes, with white space and letter case of
--   ASCII; Dict is a Go map as an association list; Sort is slices.SortFunc, as an insertion sort.
-- Core.Quota: internal/core/quota.go, the tagged quota; Codec its stored form.
-- Core.Model: the records of internal/core/model.go and internal/core/provider.go.
-- Core.Policy: internal/core/policy.go, tiers and allocations (Validate, AllocationFor, percentOf).
-- Core.Resolve: internal/core/resolve.go, the ceiling of a person on a provider (Resolve,
--   candidateTiers, moreGenerous, EffectiveBudget).
-- Core.Plan: internal/core/plan.go, the planner and its guardrails (classify, BuildPlan,
--   Applicable).
-- Core.Usage: internal/core/usage.go, what the dashboard shows of each person; Rows its flat views, Total and
--   Reported its proofs.
-- Core.Errors, Core.Provider: internal/core/errors.go and the port of internal/core/provider.go. An
--   adapter is a parameter: a record of its calls, each a function of a state of the services outside.
-- Store: internal/store, each query as a function of the rows of its table, with the unique
--   keys that the migrations give the tables where a query runs into one. The reference of a
--   link to its person is modelled; the other references between tables are not (the rows that they
--   lead to are taken to exist), nor is a failure of the database itself.
-- Reconcile.Link, Subject, Cycle: link of internal/reconcile/link.go. Link has the checks of existing
--   links and the match on the key, Subject the join by OIDC subject and the issues, Cycle the states
--   as they are loaded and stored. Their proofs are in Link.Owners, Free, Pairs, Direct and Kept, in
--   Subject.Active and Joined, and in Cycle.Loaded and Owned. The orders in which Go ranges over its maps are parameters.
-- Store.Policy: internal/store/policy.go, the tables of tiers and overrides and what the planner reads
--   of them; Defaults and Overrides have their proofs.
-- Store.Identity: internal/store/identity.go, the people and groups of a snapshot; Kept and Active have
--   the proofs. Reconcile.Sync: SyncIdentity of internal/reconcile/identity.go, which hands it the
--   answer of the directory.
-- Reconcile.Planning, Adopt: internal/reconcile/plan.go. Planning is Plan and SavePlan, with the
--   proofs in Pairs; Adopt the import of the reported quotas, with the proofs in Rounds and Settled.
-- Store.Providers: internal/store/providers.go, the table of configured providers.
-- Reconcile.Observe: internal/reconcile/observe.go, the read of each provider and then link; Kept has
--   the proofs.
-- Reconcile.Probe: the write probe of internal/reconcile/probe.go, with the proofs in Harmless.
-- Core.Registry: internal/core/registry.go, the adapters by type, without its lock.
-- Reconcile.Report, Pacer, Recheck, Process, Apply: Apply of internal/reconcile/apply.go. A run is
--   explicit state passing: the report, the maps of the loop, and the calls that it made of the store
--   and of SetQuota. A call of SetQuota is made and logged by one function of Instance, with its
--   arguments, its answer and the services before and after. Process.Steps sums up one change of the loop as a relation, Apply.Runs is the
--   induction over a run. The notification at its end (notifyOutcome) and the log are not modelled.
--
-- A Go function becomes a function by clauses of the same name in snake case, a method takes its
-- receiver first, a loop is a recursion on the list that it ranges over with the variables that it
-- assigns as arguments, and an error is a value of Result whose constructor carries what the message
-- shows. Row ids are only compared, and are naturals. No loop needs fuel but the decimal printing of
-- a number, whose fuel is above the number.
--
-- slices.SortFunc leaves the order of equal keys open where the model keeps it; no theorem says
-- anything of that order. Sizes for people (FormatIEC) are floating point and are not modelled.
pub mod Prelude
pub mod Core
pub mod Store
pub mod Reconcile
