-- ===== src/Core/Quota.antt =====
-- internal/core/quota.go: the tagged quota. `QuotaKind` is a uint8, so a value outside the three
-- named kinds can be read back from the database: `kind_other n`. An error is a constructor with
-- what its message shows. Sizes for people (`FormatIEC`) are floats and are not modelled.
pub mod Codec
mod Tests
use nuno.Prelude.{ℕ, Bool, true, false, not, ◌||◌, if◌then◌else◌, Result, ok, err}
use nuno.Prelude.{nat_eq, refuse_if}
use nuno.Prelude.Int.{ℤ, pos, ltb_ℤ, eqb_ℤ}
use nuno.Prelude.Text.{Text}

pub data QuotaKind : Type 0 where
  kind_unknown kind_unlimited kind_bytes : QuotaKind
  kind_other : ℕ → QuotaKind

unfoldable pub kind_eq : QuotaKind → QuotaKind → Bool
kind_eq kind_unknown kind_unknown = true
kind_eq kind_unlimited kind_unlimited = true
kind_eq kind_bytes kind_bytes = true
kind_eq (kind_other m) (kind_other n) = nat_eq m n
kind_eq _ _ = false

pub record Quota : Type 0 where
  pub kind : QuotaKind
  pub bytes : ℤ

pub data QuotaError : Type 0 where
  negative_quota : ℤ → QuotaError
  carries_bytes : QuotaKind → ℤ → QuotaError
  unknown_kind : ℕ → QuotaError
  unlimited_usage : QuotaError
  undecodable : Text → QuotaError

abbrev pub unknown : Quota
unknown = record { kind = kind_unknown; bytes = pos 0 }

abbrev pub unlimited : Quota
unlimited = record { kind = kind_unlimited; bytes = pos 0 }

-- A negative count is refused, never carried.
unfoldable pub bytes_quota : ℤ → Result QuotaError Quota
bytes_quota n =
    if ltb_ℤ n (pos 0) then err (negative_quota n) else ok (record { kind = kind_bytes; bytes = n })

unfoldable pub is_known : Quota → Bool
unfolding kind_eq
is_known q = not (kind_eq q.kind kind_unknown)

unfoldable pub is_unlimited : Quota → Bool
unfolding kind_eq
is_unlimited q = kind_eq q.kind kind_unlimited

unfoldable pub is_bytes : Quota → Bool
unfolding kind_eq
is_bytes q = kind_eq q.kind kind_bytes

valid_kind : QuotaKind → ℤ → Result QuotaError (Unit {0})
valid_kind kind_unknown n = refuse_if (not (eqb_ℤ n (pos 0))) (carries_bytes kind_unknown n)
valid_kind kind_unlimited n = refuse_if (not (eqb_ℤ n (pos 0))) (carries_bytes kind_unlimited n)
valid_kind kind_bytes n = refuse_if (ltb_ℤ n (pos 0)) (negative_quota n)
valid_kind (kind_other k) n = err (unknown_kind k)

-- `Quota.Valid`
unfoldable pub valid : Quota → Result QuotaError (Unit {0})
unfolding valid_kind
valid q = valid_kind q.kind q.bytes

-- `Quota.ValidAsUsage`
unfoldable pub valid_as_usage : Quota → Result QuotaError (Unit {0})
unfolding valid kind_eq
valid_as_usage q = if kind_eq q.kind kind_unlimited then err unlimited_usage else valid q

-- `Quota.Equal`
unfoldable pub equal : Quota → Quota → Bool
unfolding kind_eq
equal q other =
    if kind_eq q.kind other.kind
    then (not (kind_eq q.kind kind_bytes) || eqb_ℤ q.bytes other.bytes)
    else false
