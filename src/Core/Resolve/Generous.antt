-- ===== src/Core/Resolve/Generous.antt =====
-- The order that resolution maximises over: `moreGenerous` of internal/core/resolve.go.
use nuno.Prelude.{◌≡◌, ◌⊎◌, inl, inr, refl, true, false, arith, ok}
use nuno.Prelude.Int.{ℤ, pos, ◌≤ℤ◌}
use nuno.Core.Quota.{
  Quota, QuotaKind, kind_unlimited, kind_bytes, kind_unknown, kind_other, is_unlimited, valid,
  is_known,
}
use nuno.Core.Resolve.{more_generous}

-- The order of what a person gets, written out: nothing is above no limit, and limits in bytes are
-- ordered as numbers.
abbrev pub IsAtMost : Quota → Quota → Type 0
IsAtMost a b =
    (b.kind ≡ kind_unlimited)
    ⊎ ((a.kind ≡ kind_bytes) × (b.kind ≡ kind_bytes) × (a.bytes ≤ℤ b.bytes))

IsAtMost-kind :
    (j k : QuotaKind) (m n : ℤ)
    → let a : Quota = record { kind = j; bytes = m } in
      let b : Quota = record { kind = k; bytes = n } in
      valid a ≡ ok tt
      → valid b ≡ ok tt
      → is_known a ≡ true
      → is_known b ≡ true
      → more_generous a b ≡ false
      → IsAtMost a b
unfolding more_generous valid is_known is_unlimited
IsAtMost-kind j kind_unlimited m n va vb ka kb h = inl refl
IsAtMost-kind kind_unlimited kind_bytes m n va vb ka kb h = absurd (ground (arith, h))
IsAtMost-kind kind_bytes kind_bytes m n va vb ka kb h = inr (refl, refl, ground (arith, h))
IsAtMost-kind kind_unknown kind_bytes m n va vb ka kb h = absurd (ground (arith, ka))
IsAtMost-kind j kind_unknown m n va vb ka kb h = absurd (ground (arith, kb))
IsAtMost-kind (kind_other t) kind_bytes m n va vb ka kb h = absurd (ground (arith, va))
IsAtMost-kind j (kind_other t) m n va vb ka kb h = absurd (ground (arith, vb))

-- Of two valid and known quotas, one that is not more generous is at most the other.
pub more_generous-IsAtMost :
    (a b : Quota)
    → valid a ≡ ok tt
    → valid b ≡ ok tt
    → is_known a ≡ true
    → is_known b ≡ true
    → more_generous a b ≡ false
    → IsAtMost a b
more_generous-IsAtMost a b va vb ka kb h = IsAtMost-kind a.kind b.kind a.bytes b.bytes va vb ka kb h

-- What is not above `q` is not above what beats `q`.
pub more_generous_trans :
    (o q n : Quota)
    → more_generous o q ≡ false
    → more_generous n q ≡ true
    → more_generous o n ≡ false
unfolding more_generous
more_generous_trans o q n h k = ground arith

pub more_generous_irrefl : (q : Quota) → more_generous q q ≡ false
unfolding more_generous
more_generous_irrefl q = ground arith

pub more_generous_asymm : (o q : Quota) → more_generous o q ≡ true → more_generous q o ≡ false
unfolding more_generous
more_generous_asymm o q h = ground arith

antisymm_kind :
    (j k : QuotaKind) (m n : ℤ)
    → let a : Quota = record { kind = j; bytes = m } in
      let b : Quota = record { kind = k; bytes = n } in
      valid a ≡ ok tt
      → valid b ≡ ok tt
      → is_known a ≡ true
      → is_known b ≡ true
      → more_generous a b ≡ false
      → more_generous b a ≡ false
      → a ≡ b
unfolding more_generous valid is_known
antisymm_kind kind_bytes kind_bytes (pos m) (pos n) va vb ka kb h k = ground arith
antisymm_kind kind_unlimited kind_unlimited m n va vb ka kb h k = ground arith
antisymm_kind j k m n va vb ka kb h i = ground arith

-- Two valid quotas that are read, neither of them above the other, are equal.
pub more_generous_antisymm :
    (a b : Quota)
    → valid a ≡ ok tt
    → valid b ≡ ok tt
    → is_known a ≡ true
    → is_known b ≡ true
    → more_generous a b ≡ false
    → more_generous b a ≡ false
    → a ≡ b
more_generous_antisymm a b va vb ka kb h k =
    antisymm_kind a.kind b.kind a.bytes b.bytes va vb ka kb h k

pub not_more_generous_trans :
    (a b c : Quota)
    → more_generous a b ≡ false
    → more_generous b c ≡ false
    → more_generous a c ≡ false
unfolding more_generous
not_more_generous_trans a b c h k = ground arith
