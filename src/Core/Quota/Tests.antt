-- ===== src/Core/Quota/Tests.antt =====
-- Runs of the quota.
use nuno.Prelude.{◌≡◌, refl, ok, err, arith}
use nuno.Prelude.Int.{pos, negsuc}
use nuno.Prelude.Text.{codes, text_eq}
use nuno.Core.Quota.Codec.RoundTrip.{decode_quota-encode, valid-decode_quota}
use nuno.Core.Quota.{valid, Quota, kind_bytes, undecodable, negative_quota, bytes_quota}
use nuno.Core.Quota.Codec.{encode, decode_quota, decode_bytes, cut_prefix, parse_int}

abbrev gib : Quota
gib = record { kind = kind_bytes; bytes = pos 1073741824 }

encode-gib : encode gib ≡ codes "bytes:1073741824"
unfolding encode
encode-gib = refl

decode-gib : decode_quota (codes "bytes:+1073741824") ≡ ok gib
unfolding decode_quota decode_bytes cut_prefix text_eq parse_int bytes_quota
decode-gib = refl

decode-negative : decode_quota (codes "bytes:-1") ≡ err (negative_quota (negsuc 0))
unfolding decode_quota decode_bytes cut_prefix text_eq parse_int bytes_quota
decode-negative = refl

decode-junk : decode_quota (codes "bytes:") ≡ err (undecodable (codes "bytes:"))
unfolding decode_quota decode_bytes cut_prefix text_eq parse_int bytes_quota
decode-junk = refl

gib-valid : valid gib ≡ ok tt
unfolding valid
gib-valid = refl

decode_quota-encode_example : decode_quota (encode gib) ≡ ok gib
decode_quota-encode_example = decode_quota-encode gib gib-valid (omega arith)

valid-decode_quota_example : valid gib ≡ ok tt
valid-decode_quota_example = valid-decode_quota (codes "bytes:+1073741824") gib decode-gib
