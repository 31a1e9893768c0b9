-- ===== src/Core/Quota/Codec.antt =====
-- The stored form of a quota: `Encode` and `DecodeQuota` of internal/core/quota.go, with the
-- decimal printing and reading of the Go library (`FormatInt`, `ParseInt`) that they call.
pub mod RoundTrip
use nuno.Prelude.{
  ℕ, zero, suc, ◌+◌, ◌-◌, ◌*◌, ◌/◌, ◌%◌, ◌^◌, ◌≤◌, ◌<◌, Bool, true, false, ◌&&◌, Option, none, some,
  List, [], ◌∷◌, ◌++◌, ltb, leb, nat_eq, if◌then◌else◌, Result, ok, err,
}
use nuno.Prelude.Int.{ℤ, pos, negsuc, sub_ℕ}
use nuno.Prelude.Text.{Text, codes, text_eq}
use nuno.Core.Quota.{
  Quota, QuotaKind, kind_unknown, kind_unlimited, kind_bytes, kind_other, QuotaError, undecodable,
  unknown, unlimited, bytes_quota,
}

-- Decimal digits; a fuel above the number is enough.
pub digits : ℕ → ℕ → Text
digits zero n = []
digits (suc f) n =
    let more = digits f (n / 10) in if ltb n 10 then (48 + n) ∷ [] else more ++ (48 + n % 10) ∷ []

pub format_nat : ℕ → Text
unfolding digits
format_nat n = digits (suc n) n

-- `strconv.FormatInt(n, 10)`
pub format_int : ℤ → Text
unfolding format_nat
format_int (pos n) = format_nat n
format_int (negsuc n) = b'-' ∷ format_nat (suc n)

pub parse_digits : ℕ → Text → Option ℕ
parse_digits acc [] = some acc
parse_digits acc (c ∷ s) =
    if leb 48 c && leb c 57 then parse_digits (acc * 10 + (c - 48)) s else none

-- The range of an int64, by sign.
in_range : Bool → ℕ → Option ℤ
in_range true n = if leb n (2 ^ 63) then some (sub_ℕ 0 n) else none
in_range false n = if ltb n (2 ^ 63) then some (pos n) else none

parse_magnitude : Bool → Text → Option ℤ
unfolding in_range parse_digits
parse_magnitude negative [] = none
parse_magnitude negative (c ∷ s) = elim (parse_digits 0 (c ∷ s)) [
  | none ↦ none
  | some n ↦ in_range negative n
]

-- `strconv.ParseInt(s, 10, 64)`; `none` is an error.
unfoldable pub parse_int : Text → Option ℤ
unfolding parse_magnitude
parse_int [] = none
parse_int (c ∷ s) =
    if nat_eq c b'-'
    then parse_magnitude true s
    else if nat_eq c b'+'
    then parse_magnitude false s
    else parse_magnitude false (c ∷ s)

-- `strings.CutPrefix`
unfoldable pub cut_prefix : Text → Text → Option Text
cut_prefix [] s = some s
cut_prefix (p ∷ ps) [] = none
cut_prefix (p ∷ ps) (c ∷ s) = if nat_eq p c then cut_prefix ps s else none

kind_string : QuotaKind → Text
unfolding format_nat
kind_string kind_unknown = codes "unknown"
kind_string kind_unlimited = codes "unlimited"
kind_string kind_bytes = codes "bytes"
kind_string (kind_other n) = codes "QuotaKind(" ++ format_nat n ++ codes ")"

encode_kind : QuotaKind → ℤ → Text
unfolding kind_string format_int
encode_kind kind_bytes n = codes "bytes:" ++ format_int n
encode_kind k n = kind_string k

-- `Quota.Encode`
unfoldable pub encode : Quota → Text
unfolding encode_kind
encode q = encode_kind q.kind q.bytes

unfoldable pub decode_bytes : Text → Option Text → Result QuotaError Quota
decode_bytes s none = err (undecodable s)
decode_bytes s (some number) = elim (parse_int number) [
  | none ↦ err (undecodable s)
  | some n ↦ bytes_quota n
]

-- `DecodeQuota`
unfoldable pub decode_quota : Text → Result QuotaError Quota
decode_quota s =
    if text_eq s (codes "unknown")
    then ok unknown
    else if text_eq s (codes "unlimited")
    then ok unlimited
    else decode_bytes s (cut_prefix (codes "bytes:") s)
