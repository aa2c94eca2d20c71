-- ===== src/Tests/Codes.antt =====
-- One-time codes.
use vpnhub.Prelude.{◌%◌, ◌^◌, ◌≡◌, refl, inr, arith, codes, length, All}
use vpnhub.Prelude.Decimal.{IsDigit, value}
use vpnhub.Totp.{base32_to_bytes, generate_code, code_of_hmac}
use vpnhub.Totp.Base32.{Spells, padding, blank, same, lower, encode, base32_to_bytes-encode}
use vpnhub.Totp.Codes.{rfc_truncate, generate_code_lem}
use vpnhub.Tests.Data.{desk, digest}

-- "m Z=" is a spelling of the encoding of the letter f, which is "MY".
spelled : Spells (codes "m-Y=") (encode (codes "f"))
unfolding encode
spelled = lower (omega arith) refl (blank (inr refl) (same (omega arith) (padding 1 refl)))

base32_to_bytes-encode_example : base32_to_bytes (codes "m-Y=") ≡ codes "f"
base32_to_bytes-encode_example =
    base32_to_bytes-encode (codes "m-Y=") (codes "f") (omega arith) spelled

rfc_4226_code : code_of_hmac digest 6 ≡ "872921"
unfolding code_of_hmac
rfc_4226_code = refl

generate_code_lem_example :
    let s = codes (generate_code desk.hmac_sha1 "m-Y=" 1_700_000_000_000 6 30) in
    (length s ≡ 6) × All IsDigit s × (value 0 s ≡ rfc_truncate digest % 10 ^ 6)
generate_code_lem_example =
    generate_code_lem desk.hmac_sha1 "m-Y=" 1_700_000_000_000 6 30 {signature = digest}
      (omega arith) (cc) spelled (omega arith) refl refl (omega arith) (omega arith)
