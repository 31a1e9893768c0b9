-- ===== src/Reconcile/Probe.antt =====
-- The write probe of internal/reconcile/probe.go. A run of it is the result, the services outside
-- afterwards, and the calls that it made of `SetQuota` and of `SaveWriteAccess`.
pub mod Harmless
mod Tests
use nuno.Prelude.{
  ℕ, suc, ◌==◌, Bool, true, false, not, ◌&&◌, Option, none, some, List, [], ◌∷◌, Result, ok, err,
  if◌then◌else◌, ℕ_eq,
}
use nuno.Prelude.Text.{Text}
use nuno.Core.Quota.{Quota, is_known, equal}
use nuno.Core.Errors.{CallError, is_auth, throttled_by}
use nuno.Core.Model.{Account, ExternalAccount, writable_external}
use nuno.Core.Provider.{Provider, WriteAccess, write_unproven, write_yes, write_no}
use nuno.Store.Accounts.{list_external_accounts}
use nuno.Store.Db.{Db}
use nuno.Reconcile.Instance.{Instance, SetCall, call_set_quota}

-- The explanation of a result, with what its text shows.
pub data ProbeDetail : Type 0 where
  no_detail cannot_set_quota throttled : ProbeDetail
  nothing_linked : Text → ProbeDetail
  all_rewritten none_readable : ℕ → ProbeDetail
  denied : CallError → ProbeDetail
  read_back_differs : Quota → Quota → ProbeDetail
  wrote_back : Quota → Text → ProbeDetail

pub data ProbeError : Type 0 where
  not_registered : ProbeError
  write_failed not_read_back : CallError → ProbeError

pub record ProbeResult : Type 0 where
  pub provider : Text
  pub access : WriteAccess
  pub account : Text
  pub detail : ProbeDetail
  pub error : Option ProbeError

pub record ProbeRun (W : Type 0) : Type 0 where
  pub result : ProbeResult
  pub world : W
  pub written : List (SetCall W)
  pub saved : List (ℕ × WriteAccess)

-- What the loop of `probeTarget` makes of an account.
pub data Eligibility : Type 0 where
  not_linked unreadable unnormalized eligible : Eligibility

abbrev is_linked : Option ℕ → Bool
is_linked none = false
is_linked (some _) = true

unfoldable pub eligibility : (Quota → Quota) → ExternalAccount → Eligibility
eligibility normalize a =
    if not (is_linked a.user_id && writable_external a)
    then not_linked
    else if not (is_known a.quota)
    then unreadable
    else if not (equal (normalize a.quota) a.quota)
    then unnormalized
    else eligible

pub data Target : Type 0 where
  probe_account : ExternalAccount → Target
  no_account : ProbeDetail → Target

no_target : Text → ℕ → ℕ → ProbeDetail
no_target name linked rewritten =
    if linked == 0
    then nothing_linked name
    else if rewritten == linked
    then all_rewritten linked
    else none_readable linked

find_target : Text → (Quota → Quota) → List ExternalAccount → ℕ → ℕ → Target
unfolding eligibility no_target
find_target name normalize [] linked rewritten = no_account (no_target name linked rewritten)
find_target name normalize (a ∷ rest) linked rewritten = elim (eligibility normalize a) [
  | not_linked ↦ find_target name normalize rest linked rewritten
  | unreadable ↦ find_target name normalize rest (suc linked) rewritten
  | unnormalized ↦ find_target name normalize rest (suc linked) (suc rewritten)
  | eligible ↦ probe_account a
]

module _ {W : Type 0} where
  -- `probeTarget`
  probe_target : Instance W → Db → Result ProbeError Target
  unfolding find_target
  probe_target i db =
      if i.row.id == 0
      then err not_registered
      else ok (
          find_target i.row.name i.provider.normalize_quota
            (list_external_accounts i.row.id db.accounts) 0 0)

  probed : Instance W → Text → WriteAccess → ProbeDetail → Option ProbeError → ProbeResult
  probed i account access detail error = record {
    provider = i.row.name;
    access = access;
    account = account;
    detail = detail;
    error = error;
  }

  -- A result that is not stored.
  unproven : Instance W → Text → ProbeDetail → Option ProbeError → List (SetCall W) → W → ProbeRun W
  unfolding probed
  unproven i account detail error written w = record {
    result = probed i account write_unproven detail error;
    world = w;
    written = written;
    saved = [];
  }

  -- A result that `persistProbe` stores.
  proven : Instance W → Text → WriteAccess → ProbeDetail → List (SetCall W) → W → ProbeRun W
  unfolding probed
  proven i account access detail written w = record {
    result = probed i account access detail none;
    world = w;
    written = written;
    saved = (i.row.id, access) ∷ [];
  }

  after_read :
      Instance W → ExternalAccount → List (SetCall W) → Result CallError Account × W → ProbeRun W
  unfolding unproven proven
  after_read i a calls (err e, w) =
      unproven i a.external_id no_detail (some (not_read_back e)) calls w
  after_read i a calls (ok after, w) =
      if not (equal after.quota a.quota)
      then proven i a.external_id write_no (read_back_differs a.quota after.quota) calls w
      else proven i a.external_id write_yes (wrote_back a.quota a.external_id) calls w

  after_write :
      Instance W → ExternalAccount → List (SetCall W) → Result CallError (Unit {0}) × W → ProbeRun W
  unfolding after_read
  after_write i a calls (ok _, w) = after_read i a calls (i.provider.get_account a.external_id w)
  after_write i a calls (err e, w) =
      if is_auth e
      then proven i a.external_id write_no (denied e) calls w
      else elim (throttled_by e) [
        | some _ ↦ unproven i a.external_id throttled (some (write_failed e)) calls w
        | none ↦ unproven i a.external_id no_detail (some (write_failed e)) calls w
      ]

  at_target : Instance W → Result ProbeError Target → W → ProbeRun W
  unfolding after_write
  at_target i (err e) w = unproven i [] no_detail (some e) [] w
  at_target i (ok (no_account detail)) w = unproven i [] detail none [] w
  at_target i (ok (probe_account a)) w =
      let call = call_set_quota i a.external_id a.quota w in
      after_write i a (call ∷ []) (call.answer, call.after)

  -- `ProbeWrite`
  unfoldable pub probe_write : Instance W → Db → W → ProbeRun W
  unfolding at_target probe_target
  probe_write i db w =
      if not i.provider.can_set_user_quota
      then unproven i [] cannot_set_quota none [] w
      else at_target i (probe_target i db) w

  -- `ProbeAll`, without what is stored: one provider after another.
  unfoldable pub probe_all : List (Instance W) → Db → W → List ProbeResult × W
  unfolding probe_write
  probe_all [] db w = ([], w)
  probe_all (i ∷ rest) db w =
      let run = probe_write i db w in
      let later = probe_all rest db run.world in (run.result ∷ later.0, later.1)
