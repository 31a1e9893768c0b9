-- ===== src/Reconcile/Process/Steps.antt =====
-- What one change of the loop of `Apply` can do to the writes, the pacers and the stopped
-- providers.
use nuno.Prelude.{
  ℕ, ◌≡◌, refl, sym, ◌∙◌, ap, subst, ◌⊎◌, inl, inr, Bool, true, false, some, ◌∷◌, Result, ok, err,
  if◌then◌else◌, contains, ℕ_eq, Bool-cases, by_test, Option-cases, arith,
}
use nuno.Prelude.Text.{Text}
use nuno.Prelude.Dict.{Dict, lookup, write}
use nuno.Core.Quota.{equal}
use nuno.Core.Model.{Account}
use nuno.Core.Errors.{CallError, throttled_by}
use nuno.Core.Plan.{Change, ChangeClass, class_eq}
use nuno.Reconcile.Instance.{Instance, call_set_quota, degraded}
use nuno.Reconcile.Report.{ApplyOptions, RunError}
use nuno.Reconcile.Pacer.{Pacer, allow}
use nuno.Reconcile.Recheck.{recheck, classify_now}
use nuno.Reconcile.Process.{
  Engine, Write, RunState, after_set_quota, after_sleep, pacer_of, paced_write, after_recheck,
  on_instance, process,
}

abbrev pub accepted : {W : Type 0} → Write W → Bool
accepted x = elim x.call.answer [ ok _ ↦ true | err _ ↦ false ]

same_class : (a b : ChangeClass) → class_eq a b ≡ true → a ≡ b
unfolding class_eq
same_class a b h = ground arith

-- The account that a recheck returns is the one that was read.
classify_now_again :
    (c : Change) (answer : Result CallError Account) (fresh : Account) (class : ChangeClass)
    → classify_now c answer ≡ ok (fresh, class)
    → (answer ≡ ok fresh) × (classify_now c (ok fresh) ≡ ok (fresh, class))
unfolding classify_now
classify_now_again c (err why) fresh class h = ground (arith, h)
classify_now_again c (ok account) fresh class h =
    let same : account ≡ fresh = ground (arith, h) in
    (ap ok same, subst (λ a. classify_now c (ok a) ≡ ok (fresh, class)) same h)

module _ {W : Type 0} where
  -- The pacer that a change of that provider finds.
  abbrev pub pacer_before : Instance W → Change → RunState W → Pacer
  pacer_before i c s = pacer_of i (lookup c.provider_id s.pacers)

  -- What held when SetQuota was called.
  pub record IsAllowed (e : Engine W) (opts : ApplyOptions) (i : Instance W) (c : Change)
      (s : RunState W) (x : Write W) : Type 0 where
    pub running : contains c.provider_id s.stopped ≡ false
    pub not_degraded : degraded i.row ≡ false
    pub not_dry : opts.dry_run ≡ false
    pub change : x.change ≡ c
    pub external_id : x.call.external_id ≡ c.external_id
    pub quota : x.call.quota ≡ c.to
    pub called :
        i.provider.set_quota c.external_id c.to x.call.before ≡ (x.call.answer, x.call.after)
    pub after_read : W
    pub read : i.provider.get_account c.external_id x.read_at ≡ (ok x.fresh, after_read)
    pub slept : e.sleep after_read ≡ (ok tt, x.call.before)
    pub rechecked : classify_now c (ok x.fresh) ≡ ok (x.fresh, c.class)
    pub differs : equal x.fresh.quota c.to ≡ false
    pub granted : (allow (pacer_before i c s)).0 ≡ true

  abbrev pub MayStop : Change → RunState W → RunState W → Type 0
  MayStop c s t = (t.stopped ≡ s.stopped) ⊎ (t.stopped ≡ c.provider_id ∷ s.stopped)

  abbrev pub Spent : Instance W → Change → RunState W → RunState W → Type 0
  Spent i c s t = t.pacers ≡ write c.provider_id (allow (pacer_before i c s)).1 s.pacers

  pub data Step (e : Engine W) (opts : ApplyOptions) (instances : Dict ℕ (Instance W)) (c : Change)
      (s t : RunState W) : Type 0 where
    no_write :
        t.writes ≡ s.writes → t.pacers ≡ s.pacers → MayStop c s t → Step e opts instances c s t
    held_back :
        (i : Instance W)
        → lookup c.provider_id instances ≡ some i
        → t.writes ≡ s.writes
        → Spent i c s t
        → MayStop c s t
        → Step e opts instances c s t
    written :
        (i : Instance W) (x : Write W)
        → lookup c.provider_id instances ≡ some i
        → IsAllowed e opts i c s x
        → t.writes ≡ x ∷ s.writes
        → Spent i c s t
        → t.stopped ≡ (if accepted x then s.stopped else c.provider_id ∷ s.stopped)
        → Step e opts instances c s t

  after_set_quota-effect :
      (e : Engine W) (actor : Text) (i : Instance W) (c : Change)
      (answer : Result CallError (Unit {0})) (s : RunState W)
      → ((after_set_quota e actor i c answer s).writes ≡ s.writes)
        × ((after_set_quota e actor i c answer s).pacers ≡ s.pacers)
        × ((after_set_quota e actor i c answer s).stopped
            ≡ elim answer [ ok _ ↦ s.stopped | err _ ↦ c.provider_id ∷ s.stopped ])
  unfolding after_set_quota
  after_set_quota-effect e actor i c (ok _) s = (refl, refl, refl)
  after_set_quota-effect e actor i c (err why) s = elim (Option-cases (throttled_by why)) [
    | inl h ↦ rw (h, after_set_quota) (refl, refl, refl)
    | inr (d, h) ↦ rw (h, after_set_quota) (refl, refl, refl)
  ]

  -- The call of a change, with what was read.
  record IsCall (i : Instance W) (c : Change) (fresh : Account) (read_at w : W) (x : Write W)
      : Type 0 where
    change : x.change ≡ c
    is_fresh : x.fresh ≡ fresh
    is_read_at : x.read_at ≡ read_at
    external_id : x.call.external_id ≡ c.external_id
    quota : x.call.quota ≡ c.to
    before : x.call.before ≡ w
    called : i.provider.set_quota c.external_id c.to w ≡ (x.call.answer, x.call.after)

  -- A pause that was cancelled leaves the state alone; after it, the call is made.
  after_sleep-effect :
      (e : Engine W) (actor : Text) (i : Instance W) (c : Change) (fresh : Account) (read_at : W)
      (answer : Result CallError (Unit {0})) (s : RunState W)
      → let t = after_sleep e actor i c fresh read_at answer s in
        ((t.writes ≡ s.writes) × (t.pacers ≡ s.pacers) × (t.stopped ≡ s.stopped))
        ⊎ ((x : Write W) × (answer ≡ ok tt)
            × IsCall i c fresh read_at s.world x
            × (t.writes ≡ x ∷ s.writes)
            × (t.pacers ≡ s.pacers)
            × (t.stopped ≡ (if accepted x then s.stopped else c.provider_id ∷ s.stopped)))
  unfolding after_sleep
  after_sleep-effect e actor i c fresh read_at (err why) s = inl (refl, refl, refl)
  after_sleep-effect e actor i c fresh read_at (ok _) s =
      let call = call_set_quota i c.external_id c.to s.world in
      let x : Write W = record { change = c; fresh = fresh; read_at = read_at; call = call } in
      let (a, b, d) =
        after_set_quota-effect e actor i c call.answer
          (record s { world = call.after; writes = x ∷ s.writes }) in
      inr (x, refl, is_call, a, b, d ∙ stops call.answer)
    where
      is_call : IsCall i c fresh read_at s.world (record {
        change = c;
        fresh = fresh;
        read_at = read_at;
        call = call_set_quota i c.external_id c.to s.world;
      })
      is_call = record {
        change = refl;
        is_fresh = refl;
        is_read_at = refl;
        external_id = refl;
        quota = refl;
        before = refl;
        called = refl;
      }

      stops :
          (answer : Result CallError (Unit {0}))
          → elim answer [ ok _ ↦ s.stopped | err _ ↦ c.provider_id ∷ s.stopped ] ≡ (
              if elim answer [ ok _ ↦ true | err _ ↦ false ]
              then s.stopped
              else c.provider_id ∷ s.stopped)
      stops (ok _) = refl
      stops (err _) = refl

  -- A change that passed every test before the pacer.
  record IsReady (opts : ApplyOptions) (instances : Dict ℕ (Instance W)) (i : Instance W)
      (c : Change) (s : RunState W) (w : W) (fresh : Account) : Type 0 where
    known : lookup c.provider_id instances ≡ some i
    running : contains c.provider_id s.stopped ≡ false
    not_degraded : degraded i.row ≡ false
    not_dry : opts.dry_run ≡ false
    read : i.provider.get_account c.external_id s.world ≡ (ok fresh, w)
    rechecked : classify_now c (ok fresh) ≡ ok (fresh, c.class)
    differs : equal fresh.quota c.to ≡ false

  allowed :
      (e : Engine W) (opts : ApplyOptions) (instances : Dict ℕ (Instance W)) (i : Instance W)
      (c : Change) (s : RunState W) (w : W) (fresh : Account) (x : Write W)
      → IsReady opts instances i c s w fresh
      → (allow (pacer_before i c s)).0 ≡ true
      → (e.sleep w).0 ≡ ok tt
      → IsCall i c fresh s.world (e.sleep w).1 x
      → IsAllowed e opts i c s x
  allowed e opts instances i c s w fresh x r g p q = record {
    running = r.running;
    not_degraded = r.not_degraded;
    not_dry = r.not_dry;
    change = q.change;
    external_id = q.external_id;
    quota = q.quota;
    called = ap (i.provider.set_quota c.external_id c.to) q.before ∙ q.called;
    after_read = w;
    read =
        ap (i.provider.get_account c.external_id) q.is_read_at
        ∙ r.read
        ∙ ap (λ f. (ok f, w)) (sym q.is_fresh);
    slept = ap (λ a. (a, (e.sleep w).1)) p ∙ ap (λ v. (ok tt, v)) (sym q.before);
    rechecked = subst (λ f. classify_now c (ok f) ≡ ok (f, c.class)) (sym q.is_fresh) r.rechecked;
    differs = subst (λ f. equal f.quota c.to ≡ false) (sym q.is_fresh) r.differs;
    granted = g;
  }

  paced_write-Step :
      (e : Engine W) (opts : ApplyOptions) (instances : Dict ℕ (Instance W)) (i : Instance W)
      (c : Change) (s : RunState W) (fresh : Account) (w : W)
      → IsReady opts instances i c s w fresh
      → Step e opts instances c s
          (paced_write e opts.actor i c fresh s.world (record s { world = w }))
  unfolding paced_write
  paced_write-Step e opts instances i c s fresh w r =
      elim (Bool-cases (allow (pacer_before i c s)).0) [
        | inl g ↦
            let pace = (allow (pacer_before i c s)).1 in
            let (answer, later) = e.sleep w in
            rw (g, paced_write)
              (elim (after_sleep-effect e opts.actor i c fresh s.world answer
                (record s { pacers = write c.provider_id pace s.pacers; world = later })) [
                  | inl (a, b, d) ↦ held_back i r.known a b (inl d)
                  | inr (x, p, q, a, b, d) ↦
                      written i x r.known (allowed e opts instances i c s w fresh x r g p q) a b d
                ])
        | inr g ↦ rw (g, paced_write) (held_back i r.known refl refl (inr refl))
      ]

  after_recheck-Step :
      (e : Engine W) (opts : ApplyOptions) (instances : Dict ℕ (Instance W)) (i : Instance W)
      (c : Change) (s : RunState W) (w : W) (answer : Result RunError (Account × ChangeClass))
      → lookup c.provider_id instances ≡ some i
      → contains c.provider_id s.stopped ≡ false
      → degraded i.row ≡ false
      → ((fresh : Account) (class : ChangeClass)
          → answer ≡ ok (fresh, class)
          → (i.provider.get_account c.external_id s.world ≡ (ok fresh, w))
            × (classify_now c (ok fresh) ≡ ok (fresh, class)))
      → Step e opts instances c s (after_recheck e opts i c s.world answer (record s { world = w }))
  unfolding after_recheck
  after_recheck-Step e opts instances i c s w (err why) known running sound again =
      no_write refl refl (inr refl)
  after_recheck-Step e opts instances i c s w (ok (fresh, class)) known running sound again =
      elim (Bool-cases (class_eq class c.class)) [
        | inr h ↦ rw (h, after_recheck) (no_write refl refl (inl refl))
        | inl h ↦ elim (Bool-cases (equal fresh.quota c.to)) [
          | inl q ↦ rw (h, q, after_recheck) (no_write refl refl (inl refl))
          | inr q ↦
              rw (h, q, after_recheck)
                (by_test (Step e opts instances c s) opts.dry_run _ _
                  (λ d. no_write refl refl (inl refl))
                  (λ d. paced_write-Step e opts instances i c s fresh w (record {
                    known = known;
                    running = running;
                    not_degraded = sound;
                    not_dry = d;
                    read = (again fresh class refl).0;
                    rechecked =
                        subst (λ k. classify_now c (ok fresh) ≡ ok (fresh, k))
                          (same_class class c.class h) (again fresh class refl).1;
                    differs = q;
                  })))
        ]
      ]

  -- Every change of the loop is such a step.
  pub process-Step :
      (e : Engine W) (opts : ApplyOptions) (instances : Dict ℕ (Instance W)) (c : Change)
      (s : RunState W)
      → Step e opts instances c s (process e opts instances c s)
  unfolding process on_instance recheck
  process-Step e opts instances c s = elim (Option-cases (lookup c.provider_id instances)) [
    | inl n ↦ rw (n, process) (no_write refl refl (inl refl))
    | inr (i, known) ↦ elim (Bool-cases (contains c.provider_id s.stopped)) [
      | inl h ↦ rw (known, process, h) (no_write refl refl (inl refl))
      | inr h ↦ elim (Bool-cases (degraded i.row)) [
        | inl d ↦ rw (known, process, h, d) (no_write refl refl (inl refl))
        | inr d ↦
            let (read, w) = i.provider.get_account c.external_id s.world in
            rw (known, process, h, d)
              (after_recheck-Step e opts instances i c s w (classify_now c read) known h d
                (λ fresh class k.
                  let (same, m) = classify_now_again c read fresh class k in
                  (ap (λ a. (a, w)) same, m)))
      ]
    ]
  ]
