-- ===== src/Core/Plan/Guards.antt =====
-- What may be written at all: `classify`, `BuildPlan` and `Applicable` of internal/core/plan.go
-- together.
use nuno.Prelude.{
  mem_if, ◌≡◌, ◌≢◌, refl, sym, ◌∙◌, subst, ◌⊎◌, inl, inr, Bool, true, false, not, ◌&&◌, List, [],
  ◌∷◌, Memᴰ, Bool-cases, arith, if◌then◌else◌,
}
use nuno.Prelude.Int.{pos, ◌<ℤ◌}
use nuno.Prelude.Sort.{mem-sort_by, sort_by, insert_by}
use nuno.Core.Quota.{is_known, is_bytes, equal}
use nuno.Core.Plan.{
  ChangeClass, class_safe, class_unknown_state, Change, PlanAccount, change_of, is_settled, collect,
  may_write, applicable_changes, change_before, applicable, classify, build_plan,
}

-- The state that a change is written against was read, the usage too, and the ceiling can be said.
pub record IsTrusted (a : PlanAccount) : Type 0 where
  pub observe_ok : a.observe_ok ≡ true
  pub observed_known : is_known a.observed ≡ true
  pub used_known : is_known a.used ≡ true
  pub desired_known : is_known a.desired ≡ true

-- The new ceiling is above what is stored, or nothing was ever stored and it is above zero; a
-- ceiling or a usage that is no byte count blocks nothing.
abbrev pub LeavesRoom : PlanAccount → Type 0
LeavesRoom a =
    (is_bytes a.desired ≡ false)
    ⊎ (is_bytes a.used ≡ false)
    ⊎ (a.used.bytes <ℤ a.desired.bytes)
    ⊎ ((a.never_used ≡ true) × (pos 0 <ℤ a.desired.bytes))

-- The change is the one for that account: it goes from what was observed to what is desired.
pub record IsFor (c : Change) (a : PlanAccount) : Type 0 where
  pub user_id : c.user_id ≡ a.user.id
  pub provider_id : c.provider_id ≡ a.provider_id
  pub external_id : c.external_id ≡ a.external_id
  pub from : c.from ≡ a.observed
  pub to : c.to ≡ a.desired
  pub class : c.class ≡ (classify a).0

pub change_of-IsFor : (a : PlanAccount) → IsFor (change_of a) a
unfolding change_of
change_of-IsFor a = record {
  user_id = refl;
  provider_id = refl;
  external_id = refl;
  from = refl;
  to = refl;
  class = refl;
}

pub classify-IsTrusted : (a : PlanAccount) → (classify a).0 ≢ class_unknown_state → IsTrusted a
unfolding classify
classify-IsTrusted a h = ground arith

classify-LeavesRoom : (a : PlanAccount) → (classify a).0 ≡ class_safe → LeavesRoom a
unfolding classify
classify-LeavesRoom a h = ground arith

pub classify_of_room : (a : PlanAccount) → IsTrusted a → LeavesRoom a → (classify a).0 ≡ class_safe
unfolding classify
classify_of_room a t r = ground arith

-- One step of each loop.
pub applicable_step :
    (x : Change) (l : List Change) (consent : Bool)
    → applicable_changes (x ∷ l) consent ≡ (
        if may_write x.class consent
        then x ∷ applicable_changes l consent
        else applicable_changes l consent)
unfolding applicable_changes
applicable_step x l consent = refl

abbrev pub gives_change : PlanAccount → Bool
gives_change a = a.present && not (is_settled a)

pub collect_step :
    (a : PlanAccount) (l : List PlanAccount)
    → (collect (a ∷ l)).changes
      ≡ (if gives_change a then change_of a ∷ (collect l).changes else (collect l).changes)
unfolding collect
collect_step a l = ground arith

pub applicable_changes-mem :
    (l : List Change) (consent : Bool) (c : Change)
    → Memᴰ c (applicable_changes l consent)
    → Memᴰ c l × (may_write c.class consent ≡ true)
applicable_changes-mem [] consent c m = absurd (nothing m)
  where
    nothing : Memᴰ c (applicable_changes [] consent) → ⊥
    nothing = unfold applicable_changes in λ k. elim k [ ]
applicable_changes-mem (x ∷ l) consent c m =
    mem_if c (may_write x.class consent) x (applicable_changes l consent)
      (λ e k. (Memᴰ.head k, subst (λ y. may_write y.class consent ≡ true) (sym k) e))
      (λ k. let (n, w) = applicable_changes-mem l consent c k in (Memᴰ.tail n, w))
      (subst (Memᴰ c) (applicable_step x l consent) m)

collect-mem :
    (l : List PlanAccount) (c : Change)
    → Memᴰ c (collect l).changes
    → (a : PlanAccount) × Memᴰ a l × (gives_change a ≡ true) × (c ≡ change_of a)
collect-mem [] c m = absurd (nothing m)
  where
    nothing : Memᴰ c (collect []).changes → ⊥
    nothing = unfold collect in λ k. elim k [ ]
collect-mem (a ∷ l) c m =
    mem_if c (gives_change a) (change_of a) (collect l).changes (λ e k. (a, Memᴰ.head refl, e, k))
      (λ k. let (b, n, p, e) = collect-mem l c k in (b, Memᴰ.tail n, p, e))
      (subst (Memᴰ c) (collect_step a l) m)

pub gives_change-present : (a : PlanAccount) → gives_change a ≡ true → a.present ≡ true
gives_change-present a h = ground arith

pub build_plan-mem :
    (l : List PlanAccount) (c : Change)
    → Memᴰ c (build_plan l).changes
    → (a : PlanAccount) × Memᴰ a l × (gives_change a ≡ true) × (c ≡ change_of a)
unfolding build_plan
build_plan-mem l c m = collect-mem l c ((mem-sort_by change_before c (collect l).changes).1 m)

pub may_write-trusted :
    (k : ChangeClass) (consent : Bool) → may_write k consent ≡ true → k ≢ class_unknown_state
unfolding may_write
may_write-trusted k consent h = ground arith

may_write_unconsented : (k : ChangeClass) → may_write k false ≡ true → k ≡ class_safe
unfolding may_write
may_write_unconsented k h = ground arith

-- Every change that may be written, with or without consent, is for an account that has a ceiling
-- and a trusted state; without consent, that ceiling leaves room above what is stored.
pub applicable-IsTrusted :
    (accounts : List PlanAccount) (consent : Bool) (c : Change)
    → Memᴰ c (applicable (build_plan accounts) consent)
    → (a : PlanAccount) × Memᴰ a accounts
      × IsFor c a
      × (a.present ≡ true)
      × IsTrusted a
      × ((consent ≡ true) ⊎ LeavesRoom a)
unfolding applicable
applicable-IsTrusted accounts consent c m =
    let (n, w) = applicable_changes-mem (build_plan accounts).changes consent c m in
    let (a, k, p, e) = build_plan-mem accounts c n in
    let class : c.class ≡ (classify a).0 =
      subst (λ d. d.class ≡ (classify a).0) (sym e) (change_of-IsFor a).class in
    (
      a,
      k,
      subst (λ d. IsFor d a) (sym e) (change_of-IsFor a),
      gives_change-present a p,
      classify-IsTrusted a (λ f. may_write-trusted c.class consent w (class ∙ f)),
      elim (Bool-cases consent) [
        | inl yes_given ↦ inl yes_given
        | inr refused ↦ inr (
            classify-LeavesRoom a (
              sym class
              ∙ may_write_unconsented c.class (subst (λ b. may_write c.class b ≡ true) refused w)))
      ],
    )

-- The plan of one account that calls for a change.
pub build_plan-single :
    (a : PlanAccount)
    → is_settled a ≡ false
    → a.present ≡ true
    → (build_plan (a ∷ [])).changes ≡ change_of a ∷ []
unfolding build_plan collect sort_by insert_by
build_plan-single a h p = ground arith

-- A change is trusted where its class may be written, and has room where no consent is given.
pub may_write-IsTrusted :
    (a : PlanAccount) (consent : Bool)
    → may_write (classify a).0 consent ≡ true
    → IsTrusted a × ((consent ≡ true) ⊎ LeavesRoom a)
may_write-IsTrusted a consent w = (
  classify-IsTrusted a (may_write-trusted (classify a).0 consent w),
  elim (Bool-cases consent) [
    | inl given ↦ inl given
    | inr refused ↦ inr (
        classify-LeavesRoom a (
          may_write_unconsented (classify a).0
            (subst (λ b. may_write (classify a).0 b ≡ true) refused w)))
  ],
)

pub is_settled_of_differs :
    (a : PlanAccount) → equal a.desired a.observed ≡ false → is_settled a ≡ false
unfolding is_settled
is_settled_of_differs a h = ground (arith, h)
