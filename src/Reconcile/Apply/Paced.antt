-- ===== src/Reconcile/Apply/Paced.antt =====
-- A run keeps to the limit that a provider publishes for its writes, less a tenth.
use nuno.Prelude.{
  ℕ, suc, ◌+◌, ◌-◌, ◌/◌, ◌≤◌, ◌<◌, ◌≡◌, refl, sym, ◌∙◌, subst, ap, inl, inr, Bool, true, false,
  Option, some, List, [], ◌∷◌, arith, ℕ_eq, ◌==◌, if◌then◌else◌, Bool-cases,
}
use nuno.Prelude.Int.{ℤ, pos}
use nuno.Prelude.Dict.{Dict, lookup, write, lookup-write}
use nuno.Core.Plan.{Change, Plan}
use nuno.Reconcile.Instance.{Instance, by_provider}
use nuno.Reconcile.Report.{ApplyOptions}
use nuno.Reconcile.Pacer.{Pacer, new_pacer, pacer_for, allow}
use nuno.Reconcile.Process.{Engine, Write, RunState, pacer_of}
use nuno.Reconcile.Process.Steps.{Step, no_write, held_back, written, Spent, pacer_before}
use nuno.Reconcile.Apply.{apply}
use nuno.Reconcile.Apply.Runs.{writes_of, apply-keeps}

-- How many of the calls were at that provider.
abbrev pub writes_to : {W : Type 0} → ℕ → List (Write W) → ℕ
writes_to p [] = 0
writes_to p (x ∷ rest) = (if x.change.provider_id == p then 1 else 0) + writes_to p rest

-- What a pacer has left, with what was spent, stays within the budget.
record IsWithin (budget spent : ℕ) (pace : Pacer) : Type 0 where
  limited : pace.unlimited ≡ false
  bounded : spent + pace.remaining ≤ budget

new-IsWithin :
    (limit : Option ℤ) (n : ℕ)
    → limit ≡ some (pos n)
    → 0 < n
    → IsWithin (n - n / 10) 0 (pacer_for limit)
new-IsWithin limit n e h = rw e (record {
  limited = unfold pacer_for in ground (arith, h);
  bounded = unfold pacer_for in ground (arith, h);
})

allow-IsWithin :
    (budget spent : ℕ) (p : Pacer) → IsWithin budget spent p → IsWithin budget spent (allow p).1
unfolding allow
allow-IsWithin budget spent p h = record {
  limited = ground (arith, h.limited);
  bounded = ground (arith, h.limited, h.bounded);
}

spend-IsWithin :
    (budget spent : ℕ) (p : Pacer)
    → IsWithin budget spent p
    → (allow p).0 ≡ true
    → IsWithin budget (suc spent) (allow p).1
unfolding allow
spend-IsWithin budget spent p h g = record {
  limited = ground (arith, h.limited, g);
  bounded = ground (arith, h.limited, h.bounded, g);
}

writes_to_other :
    {W : Type 0} (p : ℕ) (x : Write W) (ws : List (Write W)) (c : Change)
    → x.change ≡ c
    → (c.provider_id == p) ≡ false
    → writes_to p (x ∷ ws) ≡ writes_to p ws
writes_to_other p x ws c e n = rw (e, n) (omega arith)

writes_to_same :
    {W : Type 0} (p : ℕ) (x : Write W) (ws : List (Write W)) (c : Change)
    → x.change ≡ c
    → (c.provider_id == p) ≡ true
    → writes_to p (x ∷ ws) ≡ suc (writes_to p ws)
writes_to_same p x ws c e y = rw (e, y) (omega arith)

spent_le : (budget spent : ℕ) (p : Pacer) → IsWithin budget spent p → spent ≤ budget
spent_le budget spent p h = omega (arith, h.bounded)

module _ {W : Type 0} where
  -- The budget of a provider is kept by what its pacer, or else a new one, has left.
  Kept : Instance W → ℕ → ℕ → List (Write W) → Dict ℕ Pacer → Type 0
  Kept i budget p ws ps = IsWithin budget (writes_to p ws) (pacer_of i (lookup p ps))

  pacer_after :
      (i : Instance W) (p q : ℕ) (pace : Pacer) (ps : Dict ℕ Pacer)
      → pacer_of i (lookup p (write q pace ps))
        ≡ (if q == p then pace else pacer_of i (lookup p ps))
  pacer_after i p q pace ps = ap (pacer_of i) (lookup-write q p pace ps) ∙ opened (q == p)
    where
      opened :
          (b : Bool)
          → pacer_of i (if b then some pace else lookup p ps)
            ≡ (if b then pace else pacer_of i (lookup p ps))
      opened true = unfold pacer_of in refl
      opened false = refl

  -- The instance of a change at that provider is that provider's.
  same_instance :
      (instances : Dict ℕ (Instance W)) (p : ℕ) (i j : Instance W) (c : Change)
      → lookup p instances ≡ some i
      → lookup c.provider_id instances ≡ some j
      → c.provider_id ≡ p
      → j ≡ i
  same_instance instances p i j c h k e = cc (h, k, e)

  -- A change of that provider, whose pacer is spent as far as the call was made.
  spent_here :
      (i : Instance W) (budget : ℕ) (c : Change) (s t : RunState W) (pace : Pacer)
      → t.pacers ≡ write c.provider_id pace s.pacers
      → IsWithin budget (writes_to c.provider_id t.writes) pace
      → Kept i budget c.provider_id t.writes t.pacers
  unfolding Kept
  spent_here i budget c s t pace e h =
      subst (IsWithin budget (writes_to c.provider_id t.writes))
        (sym (
          ap (λ ps. pacer_of i (lookup c.provider_id ps)) e
          ∙ pacer_after i c.provider_id c.provider_id pace s.pacers
          ∙ ap (λ b. if b then pace else pacer_of i (lookup c.provider_id s.pacers))
              ((ℕ_eq.same_iff c.provider_id c.provider_id).1 refl)))
        h

  -- A change of another provider.
  spent_elsewhere :
      (i : Instance W) (budget p : ℕ) (c : Change) (s t : RunState W) (pace : Pacer)
      → t.pacers ≡ write c.provider_id pace s.pacers
      → (c.provider_id == p) ≡ false
      → writes_to p t.writes ≡ writes_to p s.writes
      → Kept i budget p s.writes s.pacers
      → Kept i budget p t.writes t.pacers
  unfolding Kept
  spent_elsewhere i budget p c s t pace e n w h =
      let same : pacer_of i (lookup p t.pacers) ≡ pacer_of i (lookup p s.pacers) =
        ap (λ ps. pacer_of i (lookup p ps)) e
        ∙ pacer_after i p c.provider_id pace s.pacers
        ∙ ap (λ b. if b then pace else pacer_of i (lookup p s.pacers)) n in
      rw (w, same) h

  -- A change of the provider itself: the instance is the same one, and its pacer was asked.
  asked_here :
      (instances : Dict ℕ (Instance W)) (p : ℕ) (i j : Instance W) (budget : ℕ) (c : Change)
      (s t : RunState W)
      → lookup p instances ≡ some i
      → lookup c.provider_id instances ≡ some j
      → (c.provider_id == p) ≡ true
      → Spent j c s t
      → (j ≡ i → IsWithin budget (writes_to p t.writes) (allow (pacer_of i (lookup p s.pacers))).1)
      → Kept i budget p t.writes t.pacers
  asked_here instances p i j budget c s t known k y b f =
      let e : c.provider_id ≡ p = (ℕ_eq.same_iff c.provider_id p).0 y in
      let same = same_instance instances p i j c known k e in
      subst (λ r. Kept i budget r t.writes t.pacers) e
        (spent_here i budget c s t (allow (pacer_before i c s)).1
          (subst (λ l. Spent l c s t) same b)
          (subst
            (λ r. IsWithin budget (writes_to r t.writes) (allow (pacer_of i (lookup r s.pacers))).1)
            (sym e) (f same)))

  Step-Kept :
      (e : Engine W) (opts : ApplyOptions) (instances : Dict ℕ (Instance W)) (p : ℕ)
      (i : Instance W) (budget : ℕ)
      → lookup p instances ≡ some i
      → (c : Change) (s t : RunState W) → Step e opts instances c s t
      → Kept i budget p s.writes s.pacers
      → Kept i budget p t.writes t.pacers
  unfolding Kept
  Step-Kept e opts instances p i budget known c s t (no_write a b d) h = rw (a, b) h
  Step-Kept e opts instances p i budget known c s t (held_back j k a b d) h =
      elim (Bool-cases (c.provider_id == p)) [
        | inr n ↦
            spent_elsewhere i budget p c s t (allow (pacer_before j c s)).1 b n (ap (writes_to p) a)
              h
        | inl y ↦ asked_here instances p i j budget c s t known k y b (λ _.
            rw (a)
              (allow-IsWithin budget (writes_to p s.writes) (pacer_of i (lookup p s.pacers)) h))
      ]
  Step-Kept e opts instances p i budget known c s t (written j x k q a b d) h =
      elim (Bool-cases (c.provider_id == p)) [
        | inr n ↦
            spent_elsewhere i budget p c s t (allow (pacer_before j c s)).1 b n
              (ap (writes_to p) a ∙ writes_to_other p x s.writes c q.change n) h
        | inl y ↦ asked_here instances p i j budget c s t known k y b (λ same.
            let granted =
              subst (λ r. (allow (pacer_of i (lookup r s.pacers))).0 ≡ true)
                ((ℕ_eq.same_iff c.provider_id p).0 y)
                (subst (λ l. (allow (pacer_before l c s)).0 ≡ true) same q.granted) in
            subst (λ n. IsWithin budget n (allow (pacer_of i (lookup p s.pacers))).1)
              (sym (ap (writes_to p) a ∙ writes_to_same p x s.writes c q.change y))
              (spend-IsWithin budget (writes_to p s.writes) (pacer_of i (lookup p s.pacers)) h
                granted))
      ]

  -- At a provider that publishes a limit of `n` writes, a run calls SetQuota at most `n - n / 10`
  -- times, whatever the services answer.
  pub apply-le-limit :
      (e : Engine W) (opts : ApplyOptions) (instances : List (Instance W)) (plan : Plan) (w : W)
      (p : ℕ) (i : Instance W) (n : ℕ)
      → lookup p (by_provider instances) ≡ some i
      → i.provider.write_limit ≡ some (pos n)
      → 0 < n
      → writes_to p (writes_of (apply e opts instances plan w).0) ≤ n - n / 10
  unfolding Kept pacer_of new_pacer lookup
  apply-le-limit e opts instances plan w p i n known limit h =
      let (ps, _, kept) =
        apply-keeps (λ ws ps st. Kept i (n - n / 10) p ws ps) e opts instances plan w
          (new-IsWithin i.provider.write_limit n limit h)
          (λ c m s t step.
            Step-Kept e opts (by_provider instances) p i (n - n / 10) known c s t step) in
      spent_le (n - n / 10) (writes_to p (writes_of (apply e opts instances plan w).0))
        (pacer_of i (lookup p ps)) kept
