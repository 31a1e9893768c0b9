-- ===== src/Core/Usage/Reported.antt =====
-- Whose numbers `BuildUsage` shows, and what `complete` says of them.
use nuno.Prelude.{
  ℕ, ◌≡◌, refl, sym, subst, ap, ◌∙◌, inl, inr, Bool, true, false, not, none, some, List, [], ◌∷◌,
  Memᴰ, All, All-append, All-mem, All_of_mem, ℕ_eq, Option-cases, by_test, arith, map, mem_map_inv,
}
use nuno.Prelude.Text.{text_lt, text_lt_asymm, text_ge_trans}
use nuno.Prelude.Dict.{Dict, lookup, index_by, lookup-index_by}
use nuno.Prelude.Table.{rows_where-mem}
use nuno.Prelude.Sort.{sort_by, mem-sort_by, IsSorted, sort_by-IsSorted}
use nuno.Core.Quota.{Quota, is_known}
use nuno.Core.Model.{User, ExternalAccount}
use nuno.Core.Resolve.{Resolution}
use nuno.Core.Usage.Total.{IsTotal, usage_of-IsTotal}
use nuno.Core.Usage.{
  UsageProvider, UsageUser, ObservedProvider, UsageInput, Tally, is_trusted, is_none, is_present,
  bytes_of, status_for, usage_for, owned_by, accounts_of, add_view, add_accounts, with_budget,
  entry_of, usage_of, build_usage,
}

-- The view is of an account of that person on a configured provider. Its numbers are those that were
-- read of the account where its status can be trusted, and are not shown where it cannot.
pub record IsReported (input : UsageInput) (user : User) (p : UsageProvider) : Type 0 where
  pub account : ExternalAccount
  pub read : Memᴰ account input.accounts
  pub owned : account.user_id ≡ some user.id
  pub provider : ObservedProvider
  pub configured : Memᴰ provider input.providers × (provider.id ≡ account.provider_id)
  pub name : p.name ≡ provider.name
  pub status : p.status ≡ status_for input provider account
  -- A trusted status is of an account that was read, with numbers that are known.
  pub trusted :
      is_trusted p.status ≡ true
      → (provider.has_observed ≡ true)
        × (provider.last_observe_ok ≡ true)
        × (account.observe_ok ≡ true)
        × (is_known account.quota ≡ true)
        × (is_known account.used ≡ true)
  pub shown :
      is_trusted p.status ≡ true
      → (p.quota_bytes ≡ bytes_of account.quota) × (p.used_bytes ≡ bytes_of account.used)
  pub hidden :
      is_trusted p.status ≡ false
      → (p.quota_bytes ≡ none) × (p.used_bytes ≡ none) × (p.used_percent ≡ none)

accounts_of-mem :
    (id : ℕ) (l : List ExternalAccount) (a : ExternalAccount)
    → Memᴰ a (accounts_of id l)
    → Memᴰ a l × (a.user_id ≡ some id)
unfolding accounts_of owned_by
accounts_of-mem id l a m =
    let (n, h) = rows_where-mem (owned_by id) l a m in
    elim (Option-cases a.user_id) [
      | inl e ↦ absurd (ground (arith, h, e))
      | inr (owner, e) ↦ (n, e ∙ ap some ((ℕ_eq.same_iff owner id).0 (ground (arith, h, e))))
    ]

status_for-trusted :
    (input : UsageInput) (o : ObservedProvider) (a : ExternalAccount)
    → is_trusted (status_for input o a) ≡ true
    → (o.has_observed ≡ true)
      × (o.last_observe_ok ≡ true)
      × (a.observe_ok ≡ true)
      × (is_known a.quota ≡ true)
      × (is_known a.used ≡ true)
unfolding status_for
status_for-trusted input o a h =
    (ground (arith, h), ground (arith, h), ground (arith, h), ground (arith, h), ground (arith, h))

usage_for-IsReported :
    (input : UsageInput) (user : User) (o : ObservedProvider) (a : ExternalAccount) (managed : Bool)
    → Memᴰ a input.accounts
    → a.user_id ≡ some user.id
    → Memᴰ o input.providers × (o.id ≡ a.provider_id)
    → IsReported input user (usage_for input o a managed)
unfolding usage_for
usage_for-IsReported input user o a managed m e c =
    by_test (IsReported input user) (not (is_trusted (status_for input o a))) _ _
      (λ bad. record {
        account = a;
        read = m;
        owned = e;
        provider = o;
        configured = c;
        name = refl;
        status = refl;
        trusted = status_for-trusted input o a;
        shown = λ good. absurd (ground (arith, bad, good));
        hidden = λ _. (refl, refl, refl);
      })
      (λ good. record {
        account = a;
        read = m;
        owned = e;
        provider = o;
        configured = c;
        name = refl;
        status = refl;
        trusted = status_for-trusted input o a;
        shown = λ _. (refl, refl);
        hidden = λ bad. absurd (ground (arith, bad, good));
      })

module _ (input : UsageInput) (user : User) (has_policy : Bool)
    (resolutions : Dict ℕ Resolution) where
  abbrev providers : Dict ℕ ObservedProvider
  providers = index_by (λ (o : ObservedProvider). o.id) input.providers []

  add_accounts-IsReported :
      (l : List ExternalAccount) (t : Tally)
      → ((a : ExternalAccount) → Memᴰ a l → Memᴰ a input.accounts × (a.user_id ≡ some user.id))
      → All (IsReported input user) t.providers
      → All
          (IsReported input user)
          (add_accounts input has_policy providers resolutions l t).providers
  unfolding add_accounts add_view lookup
  add_accounts-IsReported [] t f h = h
  add_accounts-IsReported (a ∷ l) t f h =
      add_accounts-IsReported l _ (λ b m. f b (Memᴰ.tail m))
        (elim (Option-cases (lookup a.provider_id providers)) [
          | inl n ↦ rw (n) h
          | inr (o, e) ↦
              elim (lookup-index_by (λ (p : ObservedProvider). p.id) input.providers []
                a.provider_id o e) [
                  | inl bad ↦ absurd (cc bad)
                  | inr c ↦
                      let (m, own) = f a (Memᴰ.head refl) in
                      rw (e) (
                        All-append (IsReported input user) t.providers _ h (
                          usage_for-IsReported input user o a
                              (is_present (lookup a.provider_id resolutions)) m own c,
                          tt,
                        ))
                ]
        ])

-- What a complete view has.
abbrev pub IsFull : UsageProvider → Type 0
IsFull p = (is_trusted p.status ≡ true) × (is_none p.used_bytes ≡ false)

add_accounts-IsFull :
    (input : UsageInput) (has_policy : Bool) (providers : Dict ℕ ObservedProvider)
    (resolutions : Dict ℕ Resolution) (l : List ExternalAccount) (t : Tally)
    → (t.complete ≡ true → All IsFull t.providers)
    → (add_accounts input has_policy providers resolutions l t).complete ≡ true
    → All IsFull (add_accounts input has_policy providers resolutions l t).providers
unfolding add_accounts add_view
add_accounts-IsFull input has_policy providers resolutions [] t h c = h c
add_accounts-IsFull input has_policy providers resolutions (a ∷ l) t h c =
    add_accounts-IsFull input has_policy providers resolutions l _
      (elim (Option-cases (lookup a.provider_id providers)) [
        | inl n ↦ rw (n) h
        | inr (p, e) ↦ rw (e) (λ d.
            All-append IsFull t.providers _ (h (ground (arith, d)))
              ((ground (arith, d), ground (arith, d)), tt))
      ])
      c

with_budget-same :
    (has_policy : Bool) (q : Quota) (t : Tally)
    → ((with_budget has_policy q t).providers ≡ t.providers)
      × ((with_budget has_policy q t).complete ≡ true → t.complete ≡ true)
unfolding with_budget
with_budget-same has_policy q t = (ground arith, λ h. ground (arith, h))

All-sorted :
    (P : UsageProvider → Type 0) (l : List UsageProvider)
    → All P l
    → All P (sort_by (λ (a b : UsageProvider). text_lt a.name b.name) l)
All-sorted P l h =
    All_of_mem P _
      λ p m. All-mem P l h ((mem-sort_by (λ (a b : UsageProvider). text_lt a.name b.name) p l).1 m)

-- Each view that `BuildUsage` has for a person is of an account of that person on a configured
-- provider. Where its status can be trusted, the last read of the provider and of the account went
-- well, both numbers of the account are known, and the view has the quota and the usage of the
-- account; where it cannot, it has neither, and no percentage. The used bytes of the person are the
-- int64 sum of the used bytes of the views, where a view without a usage counts nothing.
pub usage_of-IsReported :
    (input : UsageInput) (user : User)
    → All (IsReported input user) (usage_of input user).providers × IsTotal (usage_of input user)
unfolding usage_of entry_of
usage_of-IsReported input user = (
  All-sorted (IsReported input user) _ (
      subst (All (IsReported input user)) (sym (with_budget-same _ _ _).0) (
        add_accounts-IsReported input user _ _ (accounts_of user.id input.accounts) _
          (accounts_of-mem user.id input.accounts) tt)),
  usage_of-IsTotal input user,
)

-- A person whose entry is complete has a trusted status and a usage for each account that is shown.
pub usage_of-IsFull :
    (input : UsageInput) (user : User)
    → (usage_of input user).complete ≡ true
    → All IsFull (usage_of input user).providers
unfolding usage_of entry_of
usage_of-IsFull input user c =
    let same = with_budget-same _ _ _ in
    All-sorted IsFull _ (
      subst (All IsFull) (sym same.0) (
        add_accounts-IsFull input _ _ _ (accounts_of user.id input.accounts) _ (λ _. tt)
          (same.1 c)))

entry-IsSorted :
    (input : UsageInput) (user : User)
    → IsSorted (λ (a b : UsageProvider). text_lt a.name b.name) (usage_of input user).providers
unfolding usage_of entry_of
entry-IsSorted input user =
    sort_by-IsSorted (λ (a b : UsageProvider). text_lt a.name b.name)
      (λ a b. text_lt_asymm a.name b.name) (λ a b c. text_ge_trans a.name b.name c.name) _

-- The entries of `BuildUsage` are in the order of the uuids, and the views of each in that of the
-- providers' names.
pub build_usage-IsSorted :
    (input : UsageInput)
    → IsSorted (λ (a b : UsageUser). text_lt a.user_uuid b.user_uuid) (build_usage input)
      × All
          (λ (u : UsageUser). IsSorted (λ (a b : UsageProvider). text_lt a.name b.name) u.providers)
          (build_usage input)
unfolding build_usage
build_usage-IsSorted input = (
  sort_by-IsSorted (λ (a b : UsageUser). text_lt a.user_uuid b.user_uuid)
      (λ a b. text_lt_asymm a.user_uuid b.user_uuid)
      (λ a b c. text_ge_trans a.user_uuid b.user_uuid c.user_uuid) _,
  All_of_mem _ _ λ u m.
      let (user, _, e) = mem_map_inv (usage_of input) u input.users (
        (mem-sort_by (λ (a b : UsageUser). text_lt a.user_uuid b.user_uuid) u
            (map (usage_of input) input.users)).1
          m) in
      subst
        (λ (v : UsageUser). IsSorted (λ (a b : UsageProvider). text_lt a.name b.name) v.providers)
        (sym e) (entry-IsSorted input user),
)
