-- ===== src/Reconcile/Planning/Pairs.antt =====
-- Whose accounts `Plan` looks at.
use nuno.Prelude.{
  ℕ, ◌==◌, ◌≡◌, refl, sym, subst, ap, ◌∙◌, ◌⊎◌, inl, inr, true, not, some, List, [], ◌∷◌, Memᴰ, All,
  All-append, All-mem, All_of_mem, ℕ_eq, Option-cases, by_test, arith,
}
use nuno.Prelude.Text.{Text, text_lt, Text_eq}
use nuno.Prelude.Dict.{Dict, lookup, write, index_by, lookup-index_by, lookup-write_inv}
use nuno.Prelude.Sort.{sort_by, mem-sort_by}
use nuno.Prelude.Table.{rows_where, rows_where-mem}
use nuno.Core.Model.{User, ExternalAccount, AccountLink}
use nuno.Core.Resolve.{resolve}
use nuno.Core.Plan.{Change, PlanAccount, change_of}
use nuno.Core.Plan.Guards.{
  build_plan-mem, change_of-IsFor, gives_change, gives_change-present, IsFor,
}
use nuno.Store.Links.{list_links, link_before}
use nuno.Store.Accounts.{list_external_accounts}
use nuno.Store.Policy.{PolicyDb, load_policy, user_policy}
use nuno.Store.Db.{Db}
use nuno.Reconcile.Instance.{Instance, by_provider}
use nuno.Reconcile.Planning.{
  PlanFilter, PlanInput, Gathered, admits, is_active, account_at, load_accounts, plan_account,
  with_account, with_user, with_instance, gather, plan_input, plan_run,
}

abbrev by_account_id : List ExternalAccount → Dict Text ExternalAccount
by_account_id l = index_by (λ (a : ExternalAccount). a.external_id) l []

-- An account that is found is stored, under that provider and that id.
pub record IsStored (db : Db) (p : ℕ) (external_id : Text) (a : ExternalAccount) : Type 0 where
  pub row : Memᴰ a db.accounts
  pub of_provider : a.provider_id ≡ p
  pub has_id : a.external_id ≡ external_id

module _ {W : Type 0} where
  -- What the loop had read of a link when it took its account.
  pub record IsPlanned (input : PlanInput W) (link : AccountLink) (a : PlanAccount) : Type 0 where
    pub instance : Instance W
    pub known : lookup link.provider_id input.providers ≡ some instance
    pub user : User
    pub found : lookup link.user_id input.users ≡ some user
    pub active : is_active user.status ≡ true
    pub admitted : admits input.filter user.uid instance.row.name ≡ true
    pub account : ExternalAccount
    pub observed : account_at link.provider_id link.external_id input.accounts ≡ some account
    pub is_account :
        a
        ≡ plan_account instance user link account
            (resolve user link.provider_id input.policy (input.user_policies user.id))

  abbrev pub Planned : PlanInput W → List AccountLink → PlanAccount → Type 0
  Planned input links a = (link : AccountLink) × Memᴰ link links × IsPlanned input link a

  with_instance-Planned :
      (input : PlanInput W) (links : List AccountLink) (link : AccountLink) (g : Gathered)
      → Memᴰ link links
      → All (Planned input links) g.accounts
      → All
          (Planned input links)
          (with_instance input link (lookup link.provider_id input.providers) g).accounts
  unfolding with_instance with_user with_account
  with_instance-Planned input links link g m h =
      elim (Option-cases (lookup link.provider_id input.providers)) [
        | inl n ↦ rw (n, with_instance) h
        | inr (i, known) ↦ elim (Option-cases (lookup link.user_id input.users)) [
          | inl n ↦ rw (known, with_instance, n) h
          | inr (user, found) ↦
              rw (known, with_instance, found)
                (by_test (λ (r : Gathered). All (Planned input links) r.accounts)
                  (not (is_active user.status)) _ _ (λ _. h)
                  (λ active.
                    by_test (λ (r : Gathered). All (Planned input links) r.accounts)
                      (not (admits input.filter user.uid i.row.name)) _ _ (λ _. h)
                      (λ admitted.
                        elim (Option-cases
                          (account_at link.provider_id link.external_id input.accounts)) [
                            | inl n ↦ rw (n, with_account) h
                            | inr (account, observed) ↦
                                rw (observed, with_account)
                                  (All-append (Planned input links) g.accounts _ h (
                                    (
                                      link,
                                      m,
                                      record {
                                        instance = i;
                                        known = known;
                                        user = user;
                                        found = found;
                                        active = ground (arith, active);
                                        admitted = ground (arith, admitted);
                                        account = account;
                                        observed = observed;
                                        is_account = refl;
                                      },
                                    ),
                                    tt,
                                  ))
                          ])))
        ]
      ]

  gather-Planned :
      (input : PlanInput W) (links l : List AccountLink) (g : Gathered)
      → ((link : AccountLink) → Memᴰ link l → Memᴰ link links)
      → All (Planned input links) g.accounts
      → All (Planned input links) (gather input l g).accounts
  unfolding gather
  gather-Planned input links [] g f h = h
  gather-Planned input links (link ∷ l) g f h =
      gather-Planned input links l
        (with_instance input link (lookup link.provider_id input.providers) g)
        (λ x m. f x (Memᴰ.tail m))
        (with_instance-Planned input links link g (f link (Memᴰ.head refl)) h)

  load_accounts-lookup :
      (db : Db) (instances : List (Instance W)) (m : Dict ℕ (Dict Text ExternalAccount)) (p : ℕ)
      (d : Dict Text ExternalAccount)
      → lookup p (load_accounts db instances m) ≡ some d
      → (lookup p m ≡ some d) ⊎ (by_account_id (list_external_accounts p db.accounts) ≡ d)
  unfolding load_accounts
  load_accounts-lookup db [] m p d h = inl h
  load_accounts-lookup db (i ∷ rest) m p d h =
      let mine = by_account_id (list_external_accounts i.row.id db.accounts) in
      elim (load_accounts-lookup db rest (write i.row.id mine m) p d h) [
        | inr e ↦ inr e
        | inl k ↦ elim (lookup-write_inv i.row.id p mine d m k) [
          | inl (same, e) ↦
              inr (ap (λ n. by_account_id (list_external_accounts n db.accounts)) (sym same) ∙ e)
          | inr (_, old) ↦ inl old
        ]
      ]

  -- An account of the map is the last of its provider with its id.
  pub account_at-lookup :
      (db : Db) (instances : List (Instance W)) (p : ℕ) (x : Text) (a : ExternalAccount)
      → account_at p x (load_accounts db instances []) ≡ some a
      → lookup x (
          index_by
            (λ (b : ExternalAccount). b.external_id)
            (list_external_accounts p db.accounts)
            [])
        ≡ some a
  unfolding account_at lookup
  account_at-lookup db instances p x a h =
      elim (Option-cases (lookup p (load_accounts db instances []))) [
        | inl n ↦ absurd (ground (arith, h, n))
        | inr (d, e) ↦ elim (load_accounts-lookup db instances [] p d e) [
          | inl bad ↦ absurd (cc bad)
          | inr same ↦
              let found : lookup x d ≡ some a = ground (arith, h, e) in ap (lookup x) same ∙ found
        ]
      ]

  pub account_at-IsStored :
      (db : Db) (instances : List (Instance W)) (p : ℕ) (x : Text) (a : ExternalAccount)
      → account_at p x (load_accounts db instances []) ≡ some a
      → IsStored db p x a
  unfolding list_external_accounts lookup
  account_at-IsStored db instances p x a h =
      elim (lookup-index_by (λ (b : ExternalAccount). b.external_id)
        (list_external_accounts p db.accounts) [] x a (account_at-lookup db instances p x a h)) [
          | inl bad ↦ absurd (cc bad)
          | inr (m, id) ↦
              let rows = rows_where (λ (row : ExternalAccount). row.provider_id == p) db.accounts in
              let sorted =
                (mem-sort_by (λ (b c : ExternalAccount). text_lt b.external_id c.external_id) a
                    rows).1
                  m in
              let (row, provider) =
                rows_where-mem (λ (r : ExternalAccount). r.provider_id == p) db.accounts a sorted in
              record {
                row = row;
                of_provider = (ℕ_eq.same_iff a.provider_id p).0 provider;
                has_id = id;
              }
        ]

  -- Why a change stands in a plan.
  pub record IsWanted (db : Db) (policies : PolicyDb) (instances : List (Instance W))
      (filter : PlanFilter) (c : Change) : Type 0 where
    pub link : AccountLink
    pub linked : Memᴰ link db.links
    pub user : User
    pub is_user : Memᴰ user db.users × (user.id ≡ link.user_id)
    pub active : is_active user.status ≡ true
    pub instance : Instance W
    pub known : lookup link.provider_id (by_provider instances) ≡ some instance
    pub admitted : admits filter user.uid instance.row.name ≡ true
    pub account : ExternalAccount
    pub observed : IsStored db link.provider_id link.external_id account
    pub allocated :
        (resolve user link.provider_id
          (load_policy policies)
          (user_policy user.id policies)).present
        ≡ true
    pub is_change : IsFor c (
        plan_account instance user link account
          (resolve user link.provider_id (load_policy policies) (user_policy user.id policies)))

  Planned-IsWanted :
      (db : Db) (policies : PolicyDb) (instances : List (Instance W)) (filter : PlanFilter)
      (c : Change) (a : PlanAccount)
      → Planned (plan_input db policies instances filter) (list_links db.links) a
      → a.present ≡ true
      → IsFor c a
      → IsWanted db policies instances filter c
  unfolding plan_input plan_account list_links lookup
  Planned-IsWanted db policies instances filter c a (link, m, p) present is_for =
      let users = sort_by (λ (x y : User). text_lt x.source_uuid y.source_uuid) db.users in
      elim (lookup-index_by (λ (u : User). u.id) users [] link.user_id p.user p.found) [
        | inl bad ↦ absurd (cc bad)
        | inr (row, id) ↦ record {
          link = link;
          linked = (mem-sort_by link_before link db.links).1 m;
          user = p.user;
          is_user = (
            (mem-sort_by (λ (x y : User). text_lt x.source_uuid y.source_uuid) p.user db.users).1
                row,
            id,
          );
          active = p.active;
          instance = p.instance;
          known = p.known;
          admitted = p.admitted;
          account = p.account;
          observed =
              account_at-IsStored db instances link.provider_id link.external_id p.account
                p.observed;
          allocated = sym (ap (λ (b : PlanAccount). b.present) p.is_account) ∙ present;
          is_change = subst (IsFor c) p.is_account is_for;
        }
      ]

  -- The account behind a change of a plan.
  pub plan_run-mem :
      (db : Db) (policies : PolicyDb) (instances : List (Instance W)) (filter : PlanFilter)
      (c : Change)
      → Memᴰ c (plan_run db policies instances filter).plan.changes
      → (a : PlanAccount) × Planned
          (plan_input db policies instances filter)
          (list_links db.links)
          a
        × (gives_change a ≡ true)
        × (c ≡ change_of a)
  unfolding plan_run
  plan_run-mem db policies instances filter c m =
      let input = plan_input db policies instances filter in
      let start : Gathered = record { accounts = []; considered = 0; resolutions = [] } in
      let g = gather input (list_links db.links) start in
      let planned =
        gather-Planned input (list_links db.links) (list_links db.links) start (λ link k. k) tt in
      let (a, n, gives, e) = build_plan-mem g.accounts c m in
      (a, All-mem (Planned input (list_links db.links)) g.accounts planned n, gives, e)

  -- Every change of a plan is for a stored link of an active person that the filter admits, on a
  -- configured provider, to a stored account, where the policy allocates a ceiling; it goes from
  -- the quota of that account to what the provider would store of the ceiling.
  pub plan_run-IsWanted :
      (db : Db) (policies : PolicyDb) (instances : List (Instance W)) (filter : PlanFilter)
      → All
          (IsWanted db policies instances filter)
          (plan_run db policies instances filter).plan.changes
  plan_run-IsWanted db policies instances filter =
      All_of_mem (IsWanted db policies instances filter)
        (plan_run db policies instances filter).plan.changes
        λ c m.
          let (a, planned, gives, e) = plan_run-mem db policies instances filter c m in
          Planned-IsWanted db policies instances filter c a planned (gives_change-present a gives)
            (subst (λ d. IsFor d a) (sym e) (change_of-IsFor a))
