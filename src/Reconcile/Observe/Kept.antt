-- ===== src/Reconcile/Observe/Kept.antt =====
-- What one read of a provider leaves in the tables.
use nuno.Prelude.{
  ℕ, ◌==◌, ◌≡◌, refl, inl, inr, ◌⊎◌, Bool, true, false, not, Option, none, some, List, [], ◌∷◌,
  Result, ok, err, All, ℕ_eq, by_test, arith, sym, ap,
}
use nuno.Prelude.Int.{ℤ}
use nuno.Prelude.Table.{update_where}
use nuno.Core.Errors.{CallError}
use nuno.Core.Model.{Account, ExternalAccount}
use nuno.Store.Accounts.{AccountError, replace_external_accounts}
use nuno.Store.Providers.{ProviderRecord, save_observe_result}
use nuno.Reconcile.Instance.{Instance}
use nuno.Reconcile.Cycle.{ObserveError, list_failed, store_failed, ProviderResult}
use nuno.Reconcile.Observe.{
  ObserveState, unread, counted, after_replace, after_list, after_health, observe_one,
}

-- The row of that id says whether the last read was good.
abbrev pub Says : ℕ → Bool → List (ProviderRecord ObserveError) → Type 0
Says id good rows =
    All (λ (row : ProviderRecord ObserveError). row.id ≡ id → row.last_observe_ok ≡ good) rows

save_observe_result-Says :
    (id : ℕ) (at : ℤ) (good : Bool) (failure : Option ObserveError)
    (rows : List (ProviderRecord ObserveError))
    → Says id good (save_observe_result id at good failure rows)
unfolding save_observe_result update_where
save_observe_result-Says id at good failure [] = tt
save_observe_result-Says id at good failure (row ∷ rows) = (
  by_test (λ (r : ProviderRecord ObserveError). r.id ≡ id → r.last_observe_ok ≡ good) (row.id == id)
      _ row (λ _ _. refl)
      (λ other e. absurd (ground (arith, other, e, (ℕ_eq.same_iff row.id id).1 e))),
  save_observe_result-Says id at good failure rows,
)

module _ {W : Type 0} (now : ℤ) (i : Instance W) (before : List ExternalAccount)
    (listed : Result CallError (List Account)) where
  -- Why a read failed: the list was not answered, or the table refused what was listed.
  abbrev pub IsFailure : ObserveError → Type 0
  IsFailure e =
      ((why : CallError) × (listed ≡ err why) × (e ≡ list_failed why))
      ⊎ ((accounts : List Account) × (why : AccountError) × (listed ≡ ok accounts)
          × (replace_external_accounts i.row.id now accounts before ≡ err why)
          × (e ≡ store_failed why))

  -- The accounts that were listed replace those that were stored; or the read failed, and the
  -- stored accounts stay. The row of the provider says which.
  abbrev pub IsStoredOrKept : ProviderResult × ObserveState W → Type 0
  IsStoredOrKept (result, s) =
      ((result.error ≡ none)
        × ((accounts : List Account) × (listed ≡ ok accounts)
            × (replace_external_accounts i.row.id now accounts before ≡ ok s.accounts))
        × Says i.row.id true s.rows)
      ⊎ (((e : ObserveError) × (result.error ≡ some e) × IsFailure e)
          × (s.accounts ≡ before)
          × Says i.row.id false s.rows)

  after_replace-IsStoredOrKept :
      (accounts : List Account) (r : Result AccountError (List ExternalAccount))
      (s : ObserveState W)
      → listed ≡ ok accounts
      → s.accounts ≡ before
      → replace_external_accounts i.row.id now accounts before ≡ r
      → IsStoredOrKept (after_replace now i accounts r s)
  unfolding after_replace counted unread
  after_replace-IsStoredOrKept accounts (err e) s l k h = inr (
    (_, refl, inr (accounts, e, l, h, refl)),
    k,
    save_observe_result-Says i.row.id now false _ s.rows,
  )
  after_replace-IsStoredOrKept accounts (ok stored) s l k h =
      inl (refl, (accounts, l, h), save_observe_result-Says i.row.id now true _ s.rows)

  after_list-IsStoredOrKept :
      (r : Result CallError (List Account) × W) (s : ObserveState W)
      → listed ≡ r.0
      → s.accounts ≡ before
      → IsStoredOrKept (after_list now i r s)
  unfolding after_list unread
  after_list-IsStoredOrKept (err e, w) s l k =
      inr ((_, refl, inl (e, l, refl)), k, save_observe_result-Says i.row.id now false _ s.rows)
  after_list-IsStoredOrKept (ok accounts, w) s l k =
      after_replace-IsStoredOrKept accounts _ (record s { world = w }) l k
        (ap (replace_external_accounts i.row.id now accounts) (sym k))

-- What ListAccounts answers after the health was asked for.
abbrev pub listed_by : {W : Type 0} → Instance W → W → Result CallError (List Account)
listed_by i w = (i.provider.list_accounts (i.provider.health w).1).0

-- Of a provider that can list its users, a read has no error, and the accounts that ListAccounts
-- answered replace the stored ones; or it has one, since ListAccounts failed or the table refused
-- what it answered, and the stored accounts stay as they were. The row of the provider says which.
pub observe_one-IsStoredOrKept :
    {W : Type 0} (now : ℤ) (i : Instance W) (s : ObserveState W)
    → i.provider.can_read_users ≡ true
    → IsStoredOrKept now i s.accounts (listed_by i s.world) (observe_one now i s)
unfolding observe_one after_health
observe_one-IsStoredOrKept now i s can =
    by_test (IsStoredOrKept now i s.accounts (listed_by i s.world)) (not i.provider.can_read_users)
      _ _ (λ bad. absurd (ground (arith, bad, can)))
      (λ _.
        after_list-IsStoredOrKept now i s.accounts (listed_by i s.world)
          (i.provider.list_accounts (after_health i s).world) (after_health i s) refl refl)
