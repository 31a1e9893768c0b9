-- ===== src/Reconcile/Apply/Stopped.antt =====
-- A provider is left alone once one of its calls has failed.
use nuno.Prelude.{
  ℕ, ◌≡◌, refl, sym, ◌∙◌, subst, ap, ◌⊎◌, inl, inr, Bool, true, false, List, [], ◌∷◌, All, arith,
  ℕ_eq, contains, if◌then◌else◌, Bool-cases,
}
use nuno.Prelude.Dict.{Dict}
use nuno.Core.Plan.{Change, Plan}
use nuno.Reconcile.Instance.{Instance, by_provider}
use nuno.Reconcile.Report.{ApplyOptions}
use nuno.Reconcile.Process.{Engine, Write, RunState}
use nuno.Reconcile.Process.Steps.{Step, no_write, held_back, written, accepted}
use nuno.Reconcile.Apply.{apply}
use nuno.Reconcile.Apply.Runs.{writes_of, apply-keeps}

-- An earlier call at the same provider was accepted.
abbrev pub WentWell : {W : Type 0} → Write W → Write W → Type 0
WentWell later earlier =
    later.change.provider_id ≡ earlier.change.provider_id → accepted earlier ≡ true

-- The latest call first: each one follows only accepted ones at its provider.
abbrev pub FollowsSuccess : {W : Type 0} → List (Write W) → Type 0
FollowsSuccess [] = Unit
FollowsSuccess (x ∷ earlier) = All (WentWell x) earlier × FollowsSuccess earlier

-- The providers of the refused calls are stopped.
abbrev Barred : {W : Type 0} → List ℕ → Write W → Type 0
Barred st x = accepted x ≡ false → contains x.change.provider_id st ≡ true

Barred-more :
    {W : Type 0} (p : ℕ) (st : List ℕ) (ws : List (Write W))
    → All (Barred st) ws
    → All (Barred (p ∷ st)) ws
unfolding contains
Barred-more p st [] h = h
Barred-more p st (x ∷ ws) (h, k) = ((λ f. ground (arith, h f)), Barred-more p st ws k)

went_well :
    {W : Type 0} (x : Write W) (st : List ℕ) (ws : List (Write W))
    → contains x.change.provider_id st ≡ false
    → All (Barred st) ws
    → All (WentWell x) ws
went_well x st [] n h = h
went_well x st (y ∷ ws) n (h, k) = (
  (λ same. elim (Bool-cases (accepted y)) [
    | inl good ↦ good
    | inr bad ↦ absurd (cc (n, h bad, ap (λ p. contains p st) same))
  ]),
  went_well x st ws n k,
)

contains_head : (p : ℕ) (st : List ℕ) → contains p (p ∷ st) ≡ true
unfolding contains
contains_head p st = ground (arith, ℕ_eq.same_iff p p)

Held : {W : Type 0} → List (Write W) → List ℕ → Type 0
Held ws st = All (Barred st) ws × FollowsSuccess ws

Held-written :
    {W : Type 0} (good : Bool) (x : Write W) (ws : List (Write W)) (st : List ℕ)
    → accepted x ≡ good
    → contains x.change.provider_id st ≡ false
    → Held ws st
    → Held (x ∷ ws) (if good then st else x.change.provider_id ∷ st)
unfolding Held
Held-written true x ws st y n (h, k) = (((λ f. absurd (cc (f, y))), h), (went_well x st ws n h, k))
Held-written false x ws st z n (h, k) = (
  ((λ f. contains_head x.change.provider_id st), Barred-more x.change.provider_id st ws h),
  (went_well x st ws n h, k),
)

module _ {W : Type 0} where
  Held-stop :
      (c : Change) (s t : RunState W)
      → t.writes ≡ s.writes
      → ((t.stopped ≡ s.stopped) ⊎ (t.stopped ≡ c.provider_id ∷ s.stopped))
      → Held s.writes s.stopped
      → Held t.writes t.stopped
  unfolding Held
  Held-stop c s t e (inl f) h = rw (e, f) h
  Held-stop c s t e (inr f) (h, k) = rw (e, f) (Barred-more c.provider_id s.stopped s.writes h, k)

  Step-Held :
      (e : Engine W) (opts : ApplyOptions) (instances : Dict ℕ (Instance W)) (c : Change)
      (s t : RunState W)
      → Step e opts instances c s t
      → Held s.writes s.stopped
      → Held t.writes t.stopped
  Step-Held e opts instances c s t (no_write a b d) h = Held-stop c s t a d h
  Step-Held e opts instances c s t (held_back i k a b d) h = Held-stop c s t a d h
  Step-Held e opts instances c s t (written i x k p a b d) h =
      let n = subst (λ y. contains y.provider_id s.stopped ≡ false) (sym p.change) p.running in
      let stops =
        d ∙ ap (λ y. if accepted x then s.stopped else y.provider_id ∷ s.stopped) (sym p.change) in
      rw (a, stops) (Held-written (accepted x) x s.writes s.stopped refl n h)

  -- Whatever the services answer, a run calls SetQuota of a provider only as long as all its
  -- earlier calls there were accepted: after a failure or a rate limit that provider gets no other.
  pub apply-FollowsSuccess :
      (e : Engine W) (opts : ApplyOptions) (instances : List (Instance W)) (plan : Plan) (w : W)
      → FollowsSuccess (writes_of (apply e opts instances plan w).0)
  unfolding Held
  apply-FollowsSuccess e opts instances plan w =
      let (_, _, held) =
        apply-keeps (λ ws ps st. Held ws st) e opts instances plan w (tt, tt)
          (λ c m s t step. Step-Held e opts (by_provider instances) c s t step) in
      held.1
