-- ===== src/Core/Usage/Total.antt =====
-- What `BuildUsage` of internal/core/usage.go adds up for a person.
use mathlib.Core.List.{Perm}
use nuno.Prelude.{
  ℕ, ◌≡◌, refl, sym, ap, ◌∙◌, inl, inr, Bool, true, false, not, none, some, List, [], ◌∷◌, ◌++◌,
  ℕ_eq, Option-cases, by_test, map, is_empty, if◌then◌else◌,
}
use nuno.Prelude.Int.{ℤ, pos, add64}
use nuno.Prelude.Text.{text_lt}
use nuno.Prelude.Dict.{Dict, lookup, index_by}
use nuno.Prelude.Sort.{sort_by-perm}
use nuno.Core.Quota.{Quota, is_unlimited, is_bytes}
use nuno.Core.Model.{User, ExternalAccount}
use nuno.Core.Resolve.{Resolution, effective_budget}
use nuno.Core.Usage.{
  UsageProvider, UsageUser, ObservedProvider, UsageInput, Tally, or_zero, is_present, usage_for,
  accounts_of, add_view, add_accounts, with_budget, entry_of, usage_of, resolve_all, resolution_map,
}

-- What the views show as used, added up in int64; a view without a usage counts nothing.
abbrev pub used_sum : ℤ → List UsageProvider → ℤ
used_sum n [] = n
used_sum n (p ∷ rest) =
    used_sum (elim p.used_bytes [ none ↦ add64 n (pos 0) | some used ↦ add64 n used ]) rest

used_sum-append :
    (l : List UsageProvider) (n : ℤ) (p : UsageProvider)
    → used_sum n (l ++ (p ∷ [])) ≡ add64 (used_sum n l) (or_zero p.used_bytes)
used_sum-append [] n p = elim (Option-cases p.used_bytes) [
  | inl e ↦ rw (e) refl
  | inr (used, e) ↦ rw (e) refl
]
used_sum-append (q ∷ l) n p =
    used_sum-append l (elim q.used_bytes [ none ↦ add64 n (pos 0) | some used ↦ add64 n used ]) p

add_accounts-used :
    (input : UsageInput) (has_policy : Bool) (providers : Dict ℕ ObservedProvider)
    (resolutions : Dict ℕ Resolution) (l : List ExternalAccount) (t : Tally)
    → t.used ≡ used_sum (pos 0) t.providers
    → let u = add_accounts input has_policy providers resolutions l t in
      u.used ≡ used_sum (pos 0) u.providers
unfolding add_accounts add_view
add_accounts-used input has_policy providers resolutions [] t h = h
add_accounts-used input has_policy providers resolutions (a ∷ l) t h =
    add_accounts-used input has_policy providers resolutions l _
      (elim (Option-cases (lookup a.provider_id providers)) [
        | inl n ↦ rw (n) h
        | inr (p, e) ↦
            let view = usage_for input p a (is_present (lookup a.provider_id resolutions)) in
            rw (e) (
              ap (λ n. add64 n (or_zero view.used_bytes)) h
              ∙ sym (used_sum-append t.providers (pos 0) view))
      ])

with_budget-used :
    (has_policy : Bool) (q : Quota) (t : Tally)
    → t.used ≡ used_sum (pos 0) t.providers
    → (with_budget has_policy q t).used ≡ used_sum (pos 0) (with_budget has_policy q t).providers
unfolding with_budget
with_budget-used has_policy q t h =
    by_test (λ (r : Tally). r.used ≡ used_sum (pos 0) r.providers) (not has_policy) _ _ (λ _. h)
      (λ _.
        by_test (λ (r : Tally). r.used ≡ used_sum (pos 0) r.providers) (is_unlimited q) _ _ (λ _. h)
          (λ _.
            by_test (λ (r : Tally). r.used ≡ used_sum (pos 0) r.providers) (is_bytes q) _ _ (λ _. h)
              (λ _. h)))

-- What was added up is the sum of the views, in the order of the accounts.
abbrev pub IsTotal : UsageUser → Type 0
IsTotal entry =
    (views : List UsageProvider) × Perm entry.providers views
    × (entry.used_bytes ≡ some (used_sum (pos 0) views))

entry-IsTotal :
    (user : User) (t : Tally) → t.used ≡ used_sum (pos 0) t.providers → IsTotal (entry_of user t)
unfolding entry_of
entry-IsTotal user t h = (
  t.providers,
  sort_by-perm (λ (a b : UsageProvider). text_lt a.name b.name) t.providers,
  ap some h,
)

pub usage_of-IsTotal : (input : UsageInput) (user : User) → IsTotal (usage_of input user)
unfolding usage_of
usage_of-IsTotal input user =
    let has_policy = not (is_empty input.policy.tiers) in
    let ordered = if has_policy then resolve_all input user input.providers else [] in
    let start : Tally = record {
      providers = [];
      complete = true;
      budget = pos 0;
      used = pos 0;
      any_unlimited = false;
    } in
    let effective = effective_budget (map {A = ℕ × Resolution} (λ r. r.1) ordered) in
    let providers = index_by (λ (p : ObservedProvider). p.id) input.providers [] in
    let accounts = accounts_of user.id input.accounts in
    let t = add_accounts input has_policy providers (resolution_map ordered []) accounts start in
    entry-IsTotal user (with_budget has_policy effective t) (
      with_budget-used has_policy effective t (
        add_accounts-used input has_policy providers (resolution_map ordered []) accounts start
          refl))
