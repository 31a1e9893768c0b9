-- ===== src/Reconcile/Instance.antt =====
-- A configured provider with its adapter: internal/reconcile/reconcile.go and
-- internal/store/providers.go.
use nuno.Prelude.{
  ℕ, ◌≡◌, sym, subst, ◌⊎◌, inl, inr, Bool, not, some, is_empty, List, [], ◌∷◌, Memᴰ, ℕ_eq, Result,
}
use nuno.Prelude.Text.{Text}
use nuno.Prelude.Dict.{Dict, lookup, write, lookup-write_inv}
use nuno.Core.Quota.{Quota}
use nuno.Core.Errors.{CallError}
use nuno.Core.Model.{MatchKey}
use nuno.Core.Provider.{Provider}

pub record ProviderRow : Type 0 where
  pub id : ℕ
  pub type_name : Text
  pub name : Text
  pub match_key : MatchKey
  pub degraded_reason : Text

-- `ProviderRow.Degraded`
unfoldable pub degraded : ProviderRow → Bool
degraded row = not (is_empty row.degraded_reason)

pub record Instance (W : Type 0) : Type 0 where
  pub row : ProviderRow
  pub provider : Provider W

module _ {W : Type 0} where
  write_instances : Dict ℕ (Instance W) → List (Instance W) → Dict ℕ (Instance W)
  write_instances m [] = m
  write_instances m (i ∷ rest) = write_instances (write i.row.id i m) rest

  -- The map from a row's id to its instance; the last of two with one id stays.
  unfoldable pub by_provider : List (Instance W) → Dict ℕ (Instance W)
  unfolding write_instances
  by_provider = write_instances []

  write_instances-mem :
      (l : List (Instance W)) (m : Dict ℕ (Instance W)) (p : ℕ) (i : Instance W)
      → lookup p (write_instances m l) ≡ some i
      → (lookup p m ≡ some i) ⊎ (Memᴰ i l × (i.row.id ≡ p))
  unfolding write_instances
  write_instances-mem [] m p i h = inl h
  write_instances-mem (x ∷ rest) m p i h =
      elim (write_instances-mem rest (write x.row.id x m) p i h) [
        | inr (n, e) ↦ inr (Memᴰ.tail n, e)
        | inl k ↦ elim (lookup-write_inv x.row.id p x i m k) [
          | inl (id, e) ↦ inr (Memᴰ.head (sym e), subst (λ (y : Instance W). y.row.id ≡ p) e id)
          | inr (_, old) ↦ inl old
        ]
      ]

  -- What stands under an id is an instance of that id.
  pub by_provider-mem :
      (l : List (Instance W)) (p : ℕ) (i : Instance W)
      → lookup p (by_provider l) ≡ some i
      → Memᴰ i l × (i.row.id ≡ p)
  unfolding by_provider lookup
  by_provider-mem l p i h = elim (write_instances-mem l [] p i h) [
    | inl bad ↦ absurd (cc bad)
    | inr found ↦ found
  ]

-- A call of SetQuota as it was made: its arguments, the services before it, its answer, and the
-- services after it.
pub record SetCall (W : Type 0) : Type 0 where
  pub external_id : Text
  pub quota : Quota
  pub before : W
  pub answer : Result CallError (Unit {0})
  pub after : W

-- Makes the call.
abbrev pub call_set_quota : {W : Type 0} → Instance W → Text → Quota → W → SetCall W
call_set_quota i external_id quota w =
    let (answer, after) = i.provider.set_quota external_id quota w in
    record { external_id = external_id; quota = quota; before = w; answer = answer; after = after }
