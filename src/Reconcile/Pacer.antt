-- ===== src/Reconcile/Pacer.antt =====
-- `pacer` of internal/reconcile/apply.go: how many writes a provider's published limit leaves a run.
use nuno.Prelude.{ℕ, ◌-◌, ◌/◌, ltb, Bool, true, false, Option, none, some, if◌then◌else◌}
use nuno.Prelude.Int.{ℤ, pos, negsuc}
use nuno.Core.Provider.{Provider}

-- The counts are never negative.
pub record Pacer : Type 0 where
  pub limit : ℕ
  pub remaining : ℕ
  pub unlimited : Bool

abbrev pub without_limit : Pacer
without_limit = record { limit = 0; remaining = 0; unlimited = true }

unfoldable pub pacer_for : Option ℤ → Pacer
pacer_for none = without_limit
pacer_for (some (negsuc n)) = without_limit
pacer_for (some (pos calls)) =
    let reserved = calls / 10 in
    if ltb 0 calls
    then record { limit = calls; remaining = calls - reserved; unlimited = false }
    else without_limit

-- `newPacer`
unfoldable pub new_pacer : {W : Type 0} → Provider W → Pacer
unfolding pacer_for
new_pacer provider = pacer_for provider.write_limit

-- `pacer.allow`: the answer, and the pacer afterwards.
unfoldable pub allow : Pacer → Bool × Pacer
allow p =
    if p.unlimited
    then (true, p)
    else if ltb 0 p.remaining
    then (true, record p { remaining = p.remaining - 1 })
    else (false, p)
