-- ===== src/Core/Plan/Complete.antt =====
-- Nothing that may be written is left out: `BuildPlan` and `Applicable` of internal/core/plan.go.
use nuno.Prelude.{
  mem_if_head, mem_if_tail, ◌≡◌, refl, sym, subst, ◌⊎◌, inl, inr, Bool, true, false, List, [], ◌∷◌,
  Memᴰ, arith, if◌then◌else◌,
}
use nuno.Prelude.Sort.{sort_by, mem-sort_by}
use nuno.Core.Quota.{equal}
use nuno.Core.Plan.{
  Change, PlanAccount, change_of, is_settled, collect, may_write, applicable_changes, change_before,
  applicable, classify, build_plan,
}
use nuno.Core.Plan.Guards.{
  IsTrusted, LeavesRoom, IsFor, change_of-IsFor, classify_of_room, gives_change, collect_step,
  applicable_step,
}

mem-collect :
    (l : List PlanAccount) (a : PlanAccount)
    → Memᴰ a l
    → gives_change a ≡ true
    → Memᴰ (change_of a) (collect l).changes
mem-collect [] a m h = elim m [ ]
mem-collect (x ∷ l) a (Memᴰ.head e) h = rw collect_step (
    subst
      (λ y.
        Memᴰ (change_of y)
          (if gives_change x then change_of x ∷ (collect l).changes else (collect l).changes))
      (sym e)
      (mem_if_head (gives_change x) (change_of x) (collect l).changes
        (subst (λ y. gives_change y ≡ true) e h)))
mem-collect (x ∷ l) a (Memᴰ.tail m) h = rw collect_step (
    mem_if_tail (gives_change x) (change_of x) (change_of a) (collect l).changes
      (mem-collect l a m h))

mem-applicable_changes :
    (l : List Change) (consent : Bool) (c : Change)
    → Memᴰ c l
    → may_write c.class consent ≡ true
    → Memᴰ c (applicable_changes l consent)
mem-applicable_changes [] consent c m h = elim m [ ]
mem-applicable_changes (x ∷ l) consent c (Memᴰ.head e) h = rw applicable_step (
    subst
      (λ y. Memᴰ y (
        if may_write x.class consent
        then x ∷ applicable_changes l consent
        else applicable_changes l consent))
      (sym e)
      (mem_if_head (may_write x.class consent) x (applicable_changes l consent)
        (subst (λ y. may_write y.class consent ≡ true) e h)))
mem-applicable_changes (x ∷ l) consent c (Memᴰ.tail m) h = rw applicable_step (
    mem_if_tail (may_write x.class consent) x c (applicable_changes l consent)
      (mem-applicable_changes l consent c m h))

trusted_gives_change :
    (a : PlanAccount)
    → a.present ≡ true
    → IsTrusted a
    → equal a.desired a.observed ≡ false
    → gives_change a ≡ true
unfolding is_settled
trusted_gives_change a p t d = ground arith

trusted_may_write :
    (a : PlanAccount) (consent : Bool)
    → IsTrusted a
    → (consent ≡ true) ⊎ LeavesRoom a
    → may_write (classify a).0 consent ≡ true
unfolding may_write
trusted_may_write a consent t (inl given) = unfold classify in ground arith
trusted_may_write a consent t (inr room) = rw (classify_of_room a t room) refl

-- The other way: an account with a ceiling, a trusted state and something to change has its change
-- among those that may be written, if the ceiling leaves room or consent is given.
pub applicable_complete :
    (accounts : List PlanAccount) (consent : Bool) (a : PlanAccount)
    → Memᴰ a accounts
    → a.present ≡ true
    → IsTrusted a
    → equal a.desired a.observed ≡ false
    → (consent ≡ true) ⊎ LeavesRoom a
    → (c : Change) × Memᴰ c (applicable (build_plan accounts) consent) × IsFor c a
unfolding applicable build_plan
applicable_complete accounts consent a m p t d room =
    let inside : Memᴰ (change_of a) (sort_by change_before (collect accounts).changes) =
      (mem-sort_by change_before (change_of a) (collect accounts).changes).0
        (mem-collect accounts a m (trusted_gives_change a p t d)) in
    let class : may_write (change_of a).class consent ≡ true =
      subst (λ k. may_write k consent ≡ true) (sym (change_of-IsFor a).class)
        (trusted_may_write a consent t room) in
    (change_of a, mem-applicable_changes _ consent (change_of a) inside class, change_of-IsFor a)
