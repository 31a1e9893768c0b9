-- ===== src/Reconcile/Probe/Harmless.antt =====
-- What the probe may write, and what its answer says.
use nuno.Prelude.{
  ℕ, ◌≡◌, refl, inl, inr, true, not, Option, none, some, [], ◌∷◌, Result, ok, err, Memᴰ, Bool-cases,
  by_test, arith,
}
use nuno.Prelude.Text.{Text}
use nuno.Core.Quota.{Quota, is_known, equal}
use nuno.Core.Errors.{CallError}
use nuno.Core.Model.{Account, ExternalAccount, writable_external}
use nuno.Core.Provider.{write_yes}
use nuno.Store.Db.{Db}
use nuno.Reconcile.Instance.{Instance, SetCall, call_set_quota}
use nuno.Reconcile.Probe.{
  ProbeError, ProbeRun, Target, probe_account, no_account, ProbeDetail, cannot_set_quota, no_detail,
  probe_target, unproven, proven, after_read, after_write, at_target, probe_write,
}

-- The call was made in that world, of what a linked, writable account of the provider is known to
-- have, and the provider would store it as it is.
pub record IsHarmless {W : Type 0} (i : Instance W) (db : Db) (w : W) (write : SetCall W)
    : Type 0 where
  pub account : ExternalAccount
  pub stored : Memᴰ account db.accounts
  pub of_provider : account.provider_id ≡ i.row.id
  pub called :
      i.provider.set_quota account.external_id account.quota w ≡ (write.answer, write.after)
  pub is_account : write.external_id ≡ account.external_id
  pub unchanged : write.quota ≡ account.quota
  pub before : write.before ≡ w
  pub owner : (user : ℕ) × (account.user_id ≡ some user)
  pub may_write : writable_external account ≡ true
  pub known : is_known account.quota ≡ true
  pub normal : equal (i.provider.normalize_quota account.quota) account.quota ≡ true

module _ {W : Type 0} (i : Instance W) (db : Db) where
  abbrev call_of : ExternalAccount → W → SetCall W
  call_of a w = call_set_quota i a.external_id a.quota w

  abbrev way_of : ExternalAccount → W → ProbeRun W
  way_of a w = after_write i a (call_of a w ∷ []) ((call_of a w).answer, (call_of a w).after)

  -- A fact of the probe, from the facts of its ways.
  probe_write-ways :
      (P : ProbeRun W → Type 0) (w : W)
      → ((detail : ProbeDetail) (e : Option ProbeError) → P (unproven i [] detail e [] w))
      → ((a : ExternalAccount) → probe_target i db ≡ ok (probe_account a) → P (way_of a w))
      → P (probe_write i db w)
  unfolding probe_write at_target
  probe_write-ways P w f g =
      by_test P (not i.provider.can_set_user_quota) _ _ (λ _. f cannot_set_quota none)
        (λ _. ways (probe_target i db) refl)
    where
      ways : (t : Result ProbeError Target) → probe_target i db ≡ t → P (at_target i t w)
      ways (err e) h = f no_detail (some e)
      ways (ok (no_account detail)) h = f detail none
      ways (ok (probe_account a)) h = g a h

  -- The write was accepted, and the account then read as what was written.
  pub record IsReadBack (w : W) (run : ProbeRun W) : Type 0 where
    pub external_id : Text
    pub quota : Quota
    pub middle : W
    pub written :
        run.written
        ≡ record {
          external_id = external_id;
          quota = quota;
          before = w;
          answer = ok tt;
          after = middle;
        }
          ∷ []
    pub accepted : i.provider.set_quota external_id quota w ≡ (ok tt, middle)
    pub after : Account
    pub read : i.provider.get_account external_id middle ≡ (ok after, run.world)
    pub same : equal after.quota quota ≡ true
    pub stored : run.saved ≡ ((i.row.id, write_yes) ∷ [])

  abbrev made : W → W → ExternalAccount → Result CallError (Unit {0}) → SetCall W
  made w v a answer = record {
    external_id = a.external_id;
    quota = a.quota;
    before = w;
    answer = answer;
    after = v;
  }

  read_way :
      (w v : W) (a : ExternalAccount) (r : Result CallError Account × W)
      → i.provider.set_quota a.external_id a.quota w ≡ (ok tt, v)
      → i.provider.get_account a.external_id v ≡ r
      → (after_read i a (made w v a (ok tt) ∷ []) r).result.access ≡ write_yes
      → IsReadBack w (after_read i a (made w v a (ok tt) ∷ []) r)
  unfolding after_read unproven proven
  read_way w v a (err e, u) h k answer = absurd (cc answer)
  read_way w v a (ok after, u) h k answer = elim (Bool-cases (equal after.quota a.quota)) [
    | inr differ ↦ absurd (ground (arith, answer, differ))
    | inl same ↦ rw (same) (record {
      external_id = a.external_id;
      quota = a.quota;
      middle = v;
      written = refl;
      accepted = h;
      after = after;
      read = k;
      same = same;
      stored = refl;
    })
  ]

  write_way :
      (w : W) (a : ExternalAccount) (r : Result CallError (Unit {0}) × W)
      → i.provider.set_quota a.external_id a.quota w ≡ r
      → (after_write i a (made w r.1 a r.0 ∷ []) r).result.access ≡ write_yes
      → IsReadBack w (after_write i a (made w r.1 a r.0 ∷ []) r)
  unfolding after_write unproven proven
  write_way w a (err e, u) h answer = absurd (ground (arith, answer))
  write_way w a (ok t, u) h answer =
      read_way w u a (i.provider.get_account a.external_id u) h refl answer

  -- The probe answers that writing works only where its write was accepted and read back the same,
  -- and that answer is stored.
  pub probe_write-IsReadBack :
      (w : W) → (probe_write i db w).result.access ≡ write_yes → IsReadBack w (probe_write i db w)
  unfolding unproven
  probe_write-IsReadBack w =
      probe_write-ways (λ r. r.result.access ≡ write_yes → IsReadBack w r) w
        (λ detail e answer. absurd (cc answer))
        (λ a h. write_way w a (i.provider.set_quota a.external_id a.quota w) refl)
