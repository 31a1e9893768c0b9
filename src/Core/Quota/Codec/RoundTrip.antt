-- ===== src/Core/Quota/Codec/RoundTrip.antt =====
-- Encoding and decoding a quota: internal/core/quota.go, `Encode` and `DecodeQuota`.
use nuno.Prelude.{
  ℕ, zero, suc, ◌+◌, ◌-◌, ◌*◌, ◌/◌, ◌%◌, ◌≤◌, ◌<◌, ◌≡◌, refl, sym, ◌∙◌, subst, ◌^◌, Option, none,
  some, [], ◌∷◌, ◌++◌, inl, inr, Bool-cases, Option-cases, ltb, arith, ok,
}
use nuno.Prelude.Int.{ℤ, pos, negsuc, IsInt64}
use nuno.Prelude.Text.{Text, codes, text_eq}
use nuno.Core.Quota.{
  Quota, QuotaKind, kind_unknown, kind_unlimited, kind_bytes, kind_other, valid, unknown, unlimited,
  bytes_quota,
}
use nuno.Core.Quota.Codec.{
  digits, format_int, parse_digits, parse_int, cut_prefix, decode_bytes, encode, decode_quota,
}

abbrev continue : Option ℕ → Text → Option ℕ
continue none t = none
continue (some n) t = parse_digits n t

parse_digits-append :
    (acc : ℕ) (s t : Text) → parse_digits acc (s ++ t) ≡ continue (parse_digits acc s) t
unfolding parse_digits
parse_digits-append acc [] t = refl
parse_digits-append acc (c ∷ s) t = ground (arith, parse_digits-append (acc * 10 + (c - 48)) s t)

parse_digits-digits : (f n : ℕ) → n < f → parse_digits 0 (digits f n) ≡ some n
unfolding digits
parse_digits-digits zero n h = elim h [ ]
parse_digits-digits (suc f) n h = elim (Bool-cases (ltb n 10)) [
  | inl e ↦ rw e (unfold parse_digits in ground arith)
  | inr e ↦ rw e (
      rw parse_digits-append
        (rw (parse_digits-digits f (n / 10) (ground arith)) (unfold parse_digits in ground arith)))
]

-- `digits` is not empty, and starts with no sign.
digits_head : (f n : ℕ) → n < f → (c : ℕ) × (s : Text) × (digits f n ≡ c ∷ s) × (48 ≤ c) × (c ≤ 57)
unfolding digits
digits_head zero n h = elim h [ ]
digits_head (suc f) n h = elim (Bool-cases (ltb n 10)) [
  | inl e ↦ (48 + n, [], rw e, omega arith, ground arith)
  | inr e ↦
      let (c, s, p, lo, hi) = digits_head f (n / 10) (ground arith) in
      (c, s ++ (48 + n % 10) ∷ [], rw e (rw p), lo, hi)
]

-- A first digit is no sign, so the text is read as a magnitude.
parse_int_unsigned :
    (c : ℕ) (s : Text) (n : ℕ)
    → 48 ≤ c
    → c ≤ 57
    → parse_digits 0 (c ∷ s) ≡ some n
    → n < 2 ^ 63
    → parse_int (c ∷ s) ≡ some (pos n)
unfolding parse_int
parse_int_unsigned c s n lo hi e h = ground arith

parse_int_negative :
    (c : ℕ) (s : Text) (n : ℕ)
    → parse_digits 0 (c ∷ s) ≡ some (suc n)
    → n < 2 ^ 63
    → parse_int (b'-' ∷ c ∷ s) ≡ some (negsuc n)
unfolding parse_int
parse_int_negative c s n e h = ground arith

parse_int-format_int : (z : ℤ) → IsInt64 z → parse_int (format_int z) ≡ some z
unfolding format_int
parse_int-format_int (pos n) h =
    let (c, s, p, lo, hi) = digits_head (suc n) n (omega arith) in
    subst (λ t. parse_int t ≡ some (pos n)) (sym p)
      (parse_int_unsigned c s n lo hi
        (subst (λ t. parse_digits 0 t ≡ some n) p (parse_digits-digits (suc n) n (omega arith))) h)
parse_int-format_int (negsuc n) h =
    let (c, s, p, lo, hi) = digits_head (suc (suc n)) (suc n) (omega arith) in
    subst (λ t. parse_int (b'-' ∷ t) ≡ some (negsuc n)) (sym p)
      (parse_int_negative c s n
        (subst (λ t. parse_digits 0 t ≡ some (suc n)) p
          (parse_digits-digits (suc (suc n)) (suc n) (omega arith)))
        h)

decode_bytes_number :
    (s t : Text) (n : ℤ) → parse_int t ≡ some n → decode_bytes s (some t) ≡ bytes_quota n
unfolding decode_bytes
decode_bytes_number s t n h = ground arith

decode_quota-bytes :
    (t : Text) → decode_quota (codes "bytes:" ++ t) ≡ decode_bytes (codes "bytes:" ++ t) (some t)
unfolding decode_quota cut_prefix text_eq
decode_quota-bytes t = refl

decode_kind :
    (k : QuotaKind) (n : ℤ)
    → valid (record { kind = k; bytes = n }) ≡ ok tt
    → IsInt64 n
    → decode_quota (encode (record { kind = k; bytes = n })) ≡ ok (record { kind = k; bytes = n })
unfolding encode valid
decode_kind kind_unknown n h k = unfold decode_quota text_eq in ground arith
decode_kind kind_unlimited n h k = unfold decode_quota text_eq in ground arith
decode_kind kind_bytes n h k =
    decode_quota-bytes (format_int n)
    ∙ decode_bytes_number _ (format_int n) n (parse_int-format_int n k)
    ∙ unfold bytes_quota in ground arith
decode_kind (kind_other m) n h k = ground arith

-- A valid quota whose count fits an int64 is decoded from its stored form unchanged.
pub decode_quota-encode :
    (q : Quota) → valid q ≡ ok tt → IsInt64 q.bytes → decode_quota (encode q) ≡ ok q
decode_quota-encode q h k = decode_kind q.kind q.bytes h k

valid-bytes_quota : (n : ℤ) (q : Quota) → bytes_quota n ≡ ok q → valid q ≡ ok tt
unfolding bytes_quota valid
valid-bytes_quota n q h = ground arith

valid-decode_bytes :
    (s : Text) (o : Option Text) (q : Quota) → decode_bytes s o ≡ ok q → valid q ≡ ok tt
unfolding decode_bytes
valid-decode_bytes s none q h = cc
valid-decode_bytes s (some t) q h = elim (Option-cases (parse_int t)) [
  | inl e ↦ cc (h, e)
  | inr (n, e) ↦ valid-bytes_quota n q (sym (decode_bytes_number s t n e) ∙ h)
]

valid_named : (valid unknown ≡ ok tt) × (valid unlimited ≡ ok tt)
unfolding valid
valid_named = (refl, refl)

-- Whatever text is stored, a quota that is decoded from it is valid.
pub valid-decode_quota : (s : Text) (q : Quota) → decode_quota s ≡ ok q → valid q ≡ ok tt
unfolding decode_quota
valid-decode_quota s q h =
    ground (arith, valid-decode_bytes s (cut_prefix (codes "bytes:") s) q, valid_named)
