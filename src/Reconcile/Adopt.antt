-- ===== src/Reconcile/Adopt.antt =====
-- `Adopt` of internal/reconcile/plan.go: the quotas that the providers report become overrides.
pub mod Rounds
pub mod Settled
mod Tests
use nuno.Prelude.{
  ℕ, suc, ◌==◌, Bool, true, false, not, Option, none, some, List, [], ◌∷◌, ◌++◌, Result, ok, err,
  if◌then◌else◌, ℕ_eq,
}
use nuno.Prelude.Text.{Text, Text_eq}
use nuno.Prelude.Dict.{Dict, lookup}
use nuno.Core.Quota.{is_known}
use nuno.Core.Model.{User, ExternalAccount, AccountLink}
use nuno.Store.Links.{list_links}
use nuno.Store.Accounts.{list_external_accounts}
use nuno.Store.Policy.{PolicyDb, PolicyError, override_adopted, set_provider_override}
use nuno.Store.Db.{Db}
use nuno.Reconcile.Instance.{Instance, by_provider}
use nuno.Reconcile.Planning.{PlanFilter, admits, is_active, users_by_id}

-- How far the loop has come: the number adopted, the person and provider of each account that was
-- skipped, and the stored policy.
pub record Adoption : Type 0 where
  pub adopted : ℕ
  pub skipped : List (Text × Text)
  pub policies : PolicyDb

-- The last of the accounts that has that id.
pub find_account : Text → List ExternalAccount → Option ExternalAccount → Option ExternalAccount
find_account external_id [] account = account
find_account external_id (a ∷ rest) account =
    find_account external_id rest (if a.external_id == external_id then some a else account)

adopted_into : Adoption → Result PolicyError PolicyDb → Adoption × Result PolicyError (Unit {0})
adopted_into s (err e) = (s, err e)
adopted_into s (ok policies) = (record s { adopted = suc s.adopted; policies = policies }, ok tt)

-- A round that fails ends the loop.
pub and_then :
    Adoption × Result PolicyError (Unit {0})
    → (Adoption → Adoption × Result PolicyError (Unit {0}))
    → Adoption × Result PolicyError (Unit {0})
and_then (s, err e) rest = (s, err e)
and_then (s, ok _) rest = rest s

module _ {W : Type 0} where
  adopt_account :
      User
      → Instance W
      → AccountLink
      → Option ExternalAccount
      → Adoption
      → Adoption × Result PolicyError (Unit {0})
  unfolding adopted_into
  adopt_account user i link none s = (s, ok tt)
  adopt_account user i link (some account) s =
      if not (is_known account.quota)
      then (record s { skipped = s.skipped ++ ((user.uid, i.row.name) ∷ []) }, ok tt)
      else adopted_into s
          (set_provider_override user.id link.provider_id account.quota override_adopted s.policies)

  adopt_user :
      Db
      → PlanFilter
      → AccountLink
      → Option (Instance W)
      → Option User
      → Adoption
      → Adoption × Result PolicyError (Unit {0})
  unfolding adopt_account
  adopt_user db filter link none user s = (s, ok tt)
  adopt_user db filter link (some i) none s = (s, ok tt)
  adopt_user db filter link (some i) (some user) s =
      if not (is_active user.status)
      then (s, ok tt)
      else if not (admits filter user.uid i.row.name)
      then (s, ok tt)
      else adopt_account user i link
          (find_account link.external_id (list_external_accounts link.provider_id db.accounts) none)
          s

  -- One round of the loop.
  pub adopt_link :
      Db
      → List (Instance W)
      → PlanFilter
      → AccountLink
      → Adoption
      → Adoption × Result PolicyError (Unit {0})
  unfolding adopt_user find_account
  adopt_link db instances filter link s =
      adopt_user db filter link (lookup link.provider_id (by_provider instances))
        (lookup link.user_id (users_by_id db)) s

  pub adopt_each :
      Db
      → List (Instance W)
      → PlanFilter
      → List AccountLink
      → Adoption
      → Adoption × Result PolicyError (Unit {0})
  unfolding adopt_link and_then
  adopt_each db instances filter [] s = (s, ok tt)
  adopt_each db instances filter (link ∷ rest) s =
      and_then (adopt_link db instances filter link s) (adopt_each db instances filter rest)

  -- `Adopt`: what it reports and leaves in the tables, and the error that ended it.
  unfoldable pub adopt_run :
      Db → PolicyDb → List (Instance W) → PlanFilter → Adoption × Result PolicyError (Unit {0})
  unfolding adopt_each
  adopt_run db policies instances filter =
      adopt_each db instances filter (list_links db.links)
        (record { adopted = 0; skipped = []; policies = policies })
