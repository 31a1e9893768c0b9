-- ===== src/Reconcile/Apply/Safe.antt =====
-- What held of an account at the moment that `Apply` wrote to it.
use nuno.Prelude.{ok, Bool, ◌≡◌, sym, ◌∙◌, subst, ap, ◌⊎◌, true, false, some, List, Memᴰ, All, ℕ_eq}
use nuno.Prelude.Dict.{lookup}
use nuno.Prelude.Int.{pos, ◌<ℤ◌}
use nuno.Core.Quota.{is_known, is_bytes}
use nuno.Core.Model.{Account, writable}
use nuno.Core.Plan.{Change, Plan, applicable, classify, may_write}
use nuno.Core.Plan.Guards.{IsTrusted, LeavesRoom, may_write-IsTrusted, applicable_changes-mem}
use nuno.Reconcile.Instance.{Instance, degraded, by_provider}
use nuno.Reconcile.Report.{ApplyOptions}
use nuno.Reconcile.Recheck.{account_now}
use nuno.Reconcile.Recheck.Agreed.{classify_now-agrees}
use nuno.Reconcile.Process.{Engine, Write, RunState}
use nuno.Reconcile.Process.Steps.{Step, no_write, held_back, written, IsAllowed}
use nuno.Reconcile.Apply.{apply}
use nuno.Reconcile.Apply.Runs.{writes_of, apply-keeps}

-- The new ceiling is above what the account stores, or it never stored anything and the ceiling is
-- above zero; a ceiling or a usage that is no byte count blocks nothing.
abbrev pub HasRoom : Change → Account → Type 0
HasRoom c fresh =
    (is_bytes c.to ≡ false)
    ⊎ (is_bytes fresh.used ≡ false)
    ⊎ (fresh.used.bytes <ℤ c.to.bytes)
    ⊎ ((fresh.never_used ≡ true) × (pos 0 <ℤ c.to.bytes))

fresh-HasRoom :
    (consent : Bool) (c : Change) (fresh : Account)
    → ((consent ≡ true) ⊎ LeavesRoom (account_now c fresh))
    → (consent ≡ true) ⊎ HasRoom c fresh
unfolding account_now
fresh-HasRoom consent c fresh h = h

trusted_now :
    (c : Change) (fresh : Account)
    → IsTrusted (account_now c fresh)
    → (is_known fresh.quota ≡ true) × (is_known fresh.used ≡ true) × (is_known c.to ≡ true)
unfolding account_now
trusted_now c fresh h = (h.observed_known, h.used_known, h.desired_known)

module _ {W : Type 0} where
  -- A call of SetQuota of a plan that was agreed to with these options.
  pub record IsSafeWrite (e : Engine W) (opts : ApplyOptions) (instances : List (Instance W))
      (plan : Plan) (x : Write W) : Type 0 where
    -- A real run, on a change that the consent lets through.
    pub not_dry : opts.dry_run ≡ false
    pub agreed : Memᴰ x.change (applicable plan opts.consent_shrink)
    -- On a configured provider with no competing writer.
    pub instance : Instance W
    pub known : lookup x.change.provider_id (by_provider instances) ≡ some instance
    pub not_degraded : degraded instance.row ≡ false
    -- It is called with the account and the ceiling of the change.
    pub external_id : x.call.external_id ≡ x.change.external_id
    pub quota : x.call.quota ≡ x.change.to
    pub called :
        instance.provider.set_quota x.change.external_id x.change.to x.call.before
        ≡ (x.call.answer, x.call.after)
    -- Only the pause stands between the read of the account and the call.
    pub after_read : W
    pub read :
        instance.provider.get_account x.change.external_id x.read_at ≡ (ok x.fresh, after_read)
    pub slept : e.sleep after_read ≡ (ok tt, x.call.before)
    -- The account as it was read just before could be written, its quota and its usage were known,
    -- it still had the class that was agreed to and, without consent, room under the new ceiling.
    pub is_writable : writable x.fresh ≡ true
    pub quota_known : is_known x.fresh.quota ≡ true
    pub used_known : is_known x.fresh.used ≡ true
    pub to_known : is_known x.change.to ≡ true
    pub class : (classify (account_now x.change x.fresh)).0 ≡ x.change.class
    pub room : (opts.consent_shrink ≡ true) ⊎ HasRoom x.change x.fresh

  allowed-IsSafeWrite :
      (e : Engine W) (opts : ApplyOptions) (instances : List (Instance W)) (plan : Plan)
      (i : Instance W) (s : RunState W) (x : Write W)
      → Memᴰ x.change (applicable plan opts.consent_shrink)
      → lookup x.change.provider_id (by_provider instances) ≡ some i
      → IsAllowed e opts i x.change s x
      → IsSafeWrite e opts instances plan x
  unfolding applicable
  allowed-IsSafeWrite e opts instances plan i s x m known a =
      let (w, class) = classify_now-agrees x.change x.fresh a.rechecked a.differs in
      let (_, may) = applicable_changes-mem plan.changes opts.consent_shrink x.change m in
      let (trusted, room) =
        may_write-IsTrusted (account_now x.change x.fresh) opts.consent_shrink
          (ap (λ k. may_write k opts.consent_shrink) class ∙ may) in
      let known_now = trusted_now x.change x.fresh trusted in
      record {
        not_dry = a.not_dry;
        agreed = m;
        instance = i;
        known = known;
        not_degraded = a.not_degraded;
        external_id = a.external_id;
        quota = a.quota;
        called = a.called;
        after_read = a.after_read;
        read = a.read;
        slept = a.slept;
        is_writable = w;
        quota_known = known_now.0;
        used_known = known_now.1;
        to_known = known_now.2;
        class = class;
        room = fresh-HasRoom opts.consent_shrink x.change x.fresh room;
      }

  Step-IsSafeWrite :
      (e : Engine W) (opts : ApplyOptions) (instances : List (Instance W)) (plan : Plan)
      (c : Change)
      → Memᴰ c (applicable plan opts.consent_shrink)
      → (s t : RunState W) → Step e opts (by_provider instances) c s t
      → All (IsSafeWrite e opts instances plan) s.writes
      → All (IsSafeWrite e opts instances plan) t.writes
  Step-IsSafeWrite e opts instances plan c m s t (no_write a b d) h =
      subst (All (IsSafeWrite e opts instances plan)) (sym a) h
  Step-IsSafeWrite e opts instances plan c m s t (held_back i k a b d) h =
      subst (All (IsSafeWrite e opts instances plan)) (sym a) h
  Step-IsSafeWrite e opts instances plan c m s t (written i x k p a b d) h =
      subst (All (IsSafeWrite e opts instances plan)) (sym a) (
        allowed-IsSafeWrite e opts instances plan i s x
            (subst (λ y. Memᴰ y (applicable plan opts.consent_shrink)) (sym p.change) m)
            (subst (λ y. lookup y.provider_id (by_provider instances) ≡ some i) (sym p.change) k)
            (subst (λ y. IsAllowed e opts i y s x) (sym p.change) p),
        h,
      )

  -- Whatever the services answer, every SetQuota of a run is called with the account and the new
  -- ceiling of a change that the consent lets through, not in a dry run and on a configured
  -- provider that is not degraded. GetAccount of that account answered just before, with only the
  -- pause in between, and what it answered is writable, has a known quota and usage, and is still
  -- of the class that was agreed to; without consent to shrink, the new ceiling, where it and the
  -- usage are in bytes, is above that usage, or above zero for an account that was never used.
  pub apply-IsSafe :
      (e : Engine W) (opts : ApplyOptions) (instances : List (Instance W)) (plan : Plan) (w : W)
      → All (IsSafeWrite e opts instances plan) (writes_of (apply e opts instances plan w).0)
  apply-IsSafe e opts instances plan w =
      let (_, _, safe) =
        apply-keeps (λ ws ps st. All (IsSafeWrite e opts instances plan) ws) e opts instances plan w
          tt (Step-IsSafeWrite e opts instances plan) in
      safe
