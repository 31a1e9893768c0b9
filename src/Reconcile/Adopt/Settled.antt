-- ===== src/Reconcile/Adopt/Settled.antt =====
-- What a plan proposes after `Adopt`.
use nuno.Prelude.{
  ◌≡◌, sym, subst, ap, ◌∙◌, inl, inr, true, false, some, List, [], Result, ok, Memᴰ, All, All-mem,
  All_of_mem, ℕ_eq, Bool-cases, if◌then◌else◌, arith,
}
use nuno.Prelude.Text.{Text_eq}
use nuno.Prelude.Dict.{lookup}
use nuno.Prelude.Sort.{mem-sort_by}
use nuno.Core.Quota.{unknown, is_known}
use nuno.Core.Resolve.{resolve}
use nuno.Core.Resolve.Chosen.{resolve-override}
use nuno.Core.Model.{ExternalAccount, AccountLink}
use nuno.Core.Plan.{Change, PlanAccount, class_unknown_state, classify}
use nuno.Core.Plan.Guards.{change_of-IsFor, gives_change}
use nuno.Core.Plan.Unchanged.{class_same}
use nuno.Store.Links.{list_links, link_before}
use nuno.Store.Links.Keys.{HasKeys}
use nuno.Store.Accounts.{list_external_accounts}
use nuno.Store.Policy.{PolicyDb, PolicyError, load_policy, user_policy}
use nuno.Store.Db.{Db}
use nuno.Reconcile.Instance.{Instance, by_provider-mem}
use nuno.Reconcile.Planning.{PlanFilter, plan_account, plan_input, plan_run}
use nuno.Reconcile.Planning.Pairs.{IsPlanned, plan_run-mem, account_at-IsStored, account_at-lookup}
use nuno.Reconcile.Adopt.{Adoption, adopt_run}
use nuno.Reconcile.Adopt.Rounds.{lookup-accounts, user_id, Holds, HasKeys-single, adopt_each-Holds}

class_unread :
    (a : PlanAccount) → is_known a.observed ≡ false → (classify a).0 ≡ class_unknown_state
unfolding classify
class_unread a h = ground (arith, h)

module _ {W : Type 0} (db : Db) (instances : List (Instance W)) (filter : PlanFilter) where
  -- What a configured provider reports is what it would store.
  abbrev pub Reported : Instance W → Type 0
  Reported i =
      All
        (λ (a : ExternalAccount).
          a.provider_id ≡ i.row.id → i.provider.normalize_quota a.quota ≡ a.quota)
        db.accounts

  abbrev pub StoresReported : Type 0
  StoresReported = All Reported instances

  adopt_run-Holds :
      (policies : PolicyDb) (s : Adoption)
      → HasKeys db.links
      → adopt_run db policies instances filter ≡ (s, ok tt)
      → (x : AccountLink) → Memᴰ x (list_links db.links)
      → Holds db instances filter s.policies x
  unfolding adopt_run list_links
  adopt_run-Holds policies s keyed h x m =
      subst
        (λ (r : Adoption × Result PolicyError (Unit {0})). Holds db instances filter r.0.policies x)
        h
        (adopt_each-Holds db instances filter (list_links db.links) [] (list_links db.links)
          (record { adopted = 0; skipped = []; policies = policies })
          (λ a b n k same.
            HasKeys-single db.links a b keyed ((mem-sort_by link_before a db.links).1 n)
              ((mem-sort_by link_before b db.links).1 k) same)
          (λ y n. n) (λ y n. elim n [ ]) (λ y n. elim n [ ]) (ap (λ r. r.1) h) x (inr m))

  -- A planned account whose override is what it reports is settled, or its state is unknown.
  settled :
      (policies : PolicyDb) (link : AccountLink) (a : PlanAccount)
      → StoresReported
      → Holds db instances filter policies link
      → IsPlanned (plan_input db policies instances filter) link a
      → gives_change a ≡ true
      → (classify a).0 ≡ class_unknown_state
  unfolding plan_input plan_account lookup
  settled policies link a faithful holds p gives = elim (Bool-cases (is_known p.account.quota)) [
    | inr unread ↦
        class_unread a (ap (λ (b : PlanAccount). is_known b.observed) p.is_account ∙ unread)
    | inl reported ↦
        let r =
          resolve p.user link.provider_id (load_policy policies) (user_policy p.user.id policies) in
        let stored =
          account_at-IsStored db instances link.provider_id link.external_id p.account p.observed in
        let at =
          sym (
            lookup-accounts link.external_id (list_external_accounts link.provider_id db.accounts)
              [])
          ∙ account_at-lookup db instances link.provider_id link.external_id p.account p.observed in
        let own = holds p.account (record {
          instance = p.instance;
          known = p.known;
          user = p.user;
          found = p.found;
          active = p.active;
          admitted = p.admitted;
          observed = at;
          reported = reported;
        }) in
        let override : lookup link.provider_id (user_policy p.user.id policies).provider_overrides
            ≡ some p.account.quota =
          ap (λ u. lookup link.provider_id (user_policy u policies).provider_overrides)
            (user_id db instances filter link.user_id p.user p.found)
          ∙ own in
        let (present, ceiling) =
          resolve-override p.user link.provider_id (load_policy policies)
            (user_policy p.user.id policies) p.account.quota override in
        let (here, id) = by_provider-mem instances link.provider_id p.instance p.known in
        let kept : p.instance.provider.normalize_quota p.account.quota ≡ p.account.quota =
          All-mem
            (λ (b : ExternalAccount).
              b.provider_id ≡ p.instance.row.id
              → p.instance.provider.normalize_quota b.quota ≡ b.quota)
            db.accounts (All-mem Reported instances faithful here) stored.row
            (stored.of_provider ∙ sym id) in
        let wanted : (plan_account p.instance p.user link p.account r).desired ≡ p.account.quota =
          ap (λ b. if b then p.instance.provider.normalize_quota r.ceiling else unknown) present
          ∙ (ap p.instance.provider.normalize_quota ceiling ∙ kept) in
        class_same a
          (ap (λ (b : PlanAccount). b.desired) p.is_account
            ∙ (wanted ∙ sym (ap (λ (b : PlanAccount). b.observed) p.is_account)))
          gives
  ]

  -- After an `Adopt` that met no error, a plan with the same filter over the same tables proposes
  -- nothing but changes of unknown state, which are never written, where each configured provider
  -- reports what it would store and no person has two links on a provider.
  pub adopt_run-plan :
      (policies : PolicyDb) (s : Adoption)
      → HasKeys db.links
      → StoresReported
      → adopt_run db policies instances filter ≡ (s, ok tt)
      → All
          (λ (c : Change). c.class ≡ class_unknown_state)
          (plan_run db s.policies instances filter).plan.changes
  adopt_run-plan policies s keyed faithful h =
      All_of_mem (λ (c : Change). c.class ≡ class_unknown_state)
        (plan_run db s.policies instances filter).plan.changes
        λ c m.
          let (a, (link, n, p), gives, e) = plan_run-mem db s.policies instances filter c m in
          subst (λ (d : Change). d.class ≡ class_unknown_state) (sym e)
            ((change_of-IsFor a).class
              ∙ settled s.policies link a faithful (adopt_run-Holds policies s keyed h link n) p
                  gives)
