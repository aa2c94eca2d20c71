-- ===== src/Totp/Codes.antt =====
-- `generateCode` against RFC 4226 and RFC 6238, and the window of `getRemainingSeconds`.
use native.Mathlib.Nat.{pow-suc, mod-lt, suc-add, add-zero}
use vpnhub.Prelude.{
  ℕ, zero, suc, ◌+◌, ◌-◌, ◌*◌, ◌/◌, ◌%◌, ◌^◌, ◌<◌, ◌≤◌, ◌≡◌, ◌≢◌, refl, sym, ◌∙◌, ap, String, true,
  false, ◌||◌, inl, inr, none, some, List, [], ◌∷◌, ◌++◌, arith, ◌==◌, Bool-cases, if◌then◌else◌,
  length, length-append, length-drop, drop, All, All-append, All-drop, codes, show,
}
use vpnhub.Prelude.Decimal.{IsDigit, value, value-append, codes-append, show_lem}
use vpnhub.Totp.{
  Hmac, clean_base32, base32_to_bytes, byte_at, counter, counter_buffer, truncate, zeros, pad_start,
  code_of_hmac, all_space, generate_code, get_remaining_seconds,
}
use vpnhub.Totp.Base32.{
  Bytes, IsSymbol, IsLetter, Spells, padding, blank, same, lower, encode, clean_base32-Spells,
  base32_to_bytes-encode, decode_loop-nil,
}

pow_pos : (d : ℕ) → 0 < 10 ^ d
pow_pos zero = omega arith
pow_pos (suc d) = omega (arith, pow-suc 10 d, pow_pos d)

zeros_lem :
    (n : ℕ)
    → (length (codes (zeros n)) ≡ n)
      × (value 0 (codes (zeros n)) ≡ 0)
      × All IsDigit (codes (zeros n))
unfolding zeros
zeros_lem zero = (refl, refl, tt)
zeros_lem (suc n) =
    let (l, v, a) = zeros_lem n in rw (codes-append "0" (zeros n)) (ap suc l, v, (omega arith, a))

-- A one-time code is made of exactly the requested number of digits, and its value is the truncated
-- number modulo the power of ten.
pub code_of_hmac_lem :
    (hmac : List ℕ) (digits : ℕ)
    → 0 < digits
    → (length (codes (code_of_hmac hmac digits)) ≡ digits)
      × All IsDigit (codes (code_of_hmac hmac digits))
      × (value 0 (codes (code_of_hmac hmac digits)) ≡ truncate hmac % 10 ^ digits)
unfolding code_of_hmac pad_start
code_of_hmac_lem hmac digits h =
    let n = truncate hmac % 10 ^ digits in
    let (v, l, a) = show_lem n digits h (mod-lt (truncate hmac) (pow_pos digits)) in
    let (zl, zv, za) = zeros_lem (digits - length (codes (show n))) in
    rw (codes-append (zeros (digits - length (codes (show n)))) (show n)) (
      omega (
        arith,
        l,
        zl,
        length-append (codes (zeros (digits - length (codes (show n))))) (codes (show n)),
      ),
      All-append IsDigit (codes (zeros (digits - length (codes (show n))))) _ za a,
      value-append 0 (codes (zeros (digits - length (codes (show n))))) _ ∙ rw zv v,
    )

-- A number in `k` bytes, the highest first.
abbrev pub big_endian : ℕ → ℕ → List ℕ
big_endian zero n = []
big_endian (suc k) n = big_endian k (n / 256) ++ n % 256 ∷ []

-- The number that bytes spell, the highest first, behind `acc`.
abbrev pub from_bytes : ℕ → List ℕ → ℕ
from_bytes acc [] = acc
from_bytes acc (b ∷ bs) = from_bytes (acc * 256 + b) bs

abbrev pub take_four : List ℕ → List ℕ
take_four (a ∷ b ∷ c ∷ d ∷ s) = a ∷ b ∷ c ∷ d ∷ []
take_four s = []

abbrev pub last_byte : List ℕ → ℕ
last_byte [] = 0
last_byte (b ∷ []) = b
last_byte (b ∷ c ∷ s) = last_byte (c ∷ s)

-- The 31-bit number of RFC 4226: the four bytes at the offset that the last half byte gives.
abbrev pub rfc_truncate : List ℕ → ℕ
rfc_truncate hmac = from_bytes 0 (take_four (drop (last_byte hmac % 16) hmac)) % 2 ^ 31

-- The buffer that is signed is the counter as eight bytes, the highest first, until it passes 2^32.
counter_buffer-big_endian : (n : ℕ) → n < 2 ^ 32 → counter_buffer n ≡ big_endian 8 n
unfolding counter_buffer
counter_buffer-big_endian n h = ground arith

byte_at-drop : (hmac : List ℕ) (o k : ℕ) → byte_at hmac (o + k) ≡ byte_at (drop o hmac) k
unfolding byte_at
byte_at-drop hmac zero k = ap (byte_at hmac) (omega arith)
byte_at-drop [] (suc o) k = refl
byte_at-drop (b ∷ hmac) (suc o) k = rw suc-add (byte_at-drop hmac o k)

last_byte_lem : (b : ℕ) (s : List ℕ) → byte_at (b ∷ s) (length s) ≡ last_byte (b ∷ s)
unfolding byte_at
last_byte_lem b [] = refl
last_byte_lem b (c ∷ s) = last_byte_lem c s

-- The code of four bytes that stand at the head.
truncate_four :
    (s : List ℕ)
    → 4 ≤ length s
    → Bytes s
    → (byte_at s 0 % 128) * 2 ^ 24
        + (byte_at s 1 % 256) * 2 ^ 16
        + (byte_at s 2 % 256) * 2 ^ 8
        + byte_at s 3 % 256
      ≡ from_bytes 0 (take_four s) % 2 ^ 31
unfolding byte_at
truncate_four [] h b = absurd (omega arith)
truncate_four (x ∷ []) h b = absurd (omega arith)
truncate_four (x ∷ y ∷ []) h b = absurd (omega arith)
truncate_four (x ∷ y ∷ z ∷ []) h b = absurd (omega arith)
truncate_four (x ∷ y ∷ z ∷ w ∷ s) h (bx, (by, (bz, (bw, bs)))) = omega arith

truncate-drop :
    (hmac : List ℕ) (o : ℕ)
    → byte_at hmac (length hmac - 1) % 16 ≡ o
    → truncate hmac
      ≡ (byte_at (drop o hmac) 0 % 128) * 2 ^ 24
        + (byte_at (drop o hmac) 1 % 256) * 2 ^ 16
        + (byte_at (drop o hmac) 2 % 256) * 2 ^ 8
        + byte_at (drop o hmac) 3 % 256
unfolding truncate
truncate-drop hmac o e =
    rw
      (
        e,
        ← byte_at-drop hmac o 0,
        ← byte_at-drop hmac o 1,
        ← byte_at-drop hmac o 2,
        ← byte_at-drop hmac o 3,
      )
      (rw add-zero)

-- Dynamic truncation of a 20-byte digest computes the number of RFC 4226: the offset is the last half
-- byte, and the four bytes there, with the top bit cleared, are read with the highest first.
pub truncate_lem :
    (hmac : List ℕ) → length hmac ≡ 20 → Bytes hmac → truncate hmac ≡ rfc_truncate hmac
truncate_lem [] h b = absurd (omega arith)
truncate_lem (x ∷ s) h b =
    truncate-drop (x ∷ s) (last_byte (x ∷ s) % 16)
      (ap (λ n. n % 16) (ap (byte_at (x ∷ s)) (omega arith) ∙ last_byte_lem x s))
    ∙ truncate_four (drop (last_byte (x ∷ s) % 16) (x ∷ s))
        (omega (arith, length-drop (last_byte (x ∷ s) % 16) (x ∷ s)))
        (All-drop (λ c. c < 256) (last_byte (x ∷ s) % 16) (x ∷ s) b)

all_space-tail : (c : ℕ) (s : List ℕ) → all_space (c ∷ s) ≡ true → all_space s ≡ true
unfolding all_space
all_space-tail c s h = ground arith

not-all_space : (x : ℕ) (s : List ℕ) → IsSymbol x → all_space (x ∷ s) ≡ true → ⊥
unfolding all_space
not-all_space x s d h = ground arith

not-all_space_lower : (x : ℕ) (s : List ℕ) → IsLetter x → all_space ((x + 32) ∷ s) ≡ true → ⊥
unfolding all_space
not-all_space_lower x s d h = ground arith

all_space-Spells : {s t : List ℕ} → all_space s ≡ true → Spells s t → t ≡ []
all_space-Spells h (padding k e) = refl
all_space-Spells h (blank {c} {s} d r) = all_space-Spells (all_space-tail c s h) r
all_space-Spells h (same {x} {s} d r) = absurd (not-all_space x s d h)
all_space-Spells h (lower {x} {s} d e r) =
    absurd (not-all_space_lower x s d (ap (λ c. all_space (c ∷ s)) (sym e) ∙ h))

base32_to_bytes-blank : (s : List ℕ) → clean_base32 s ≡ [] → base32_to_bytes s ≡ []
unfolding base32_to_bytes
base32_to_bytes-blank s e = rw e (decode_loop-nil 0 0)

generate_branch :
    (hmac : Hmac) (message : List ℕ) (digits : ℕ) (key : List ℕ) {signature : List ℕ}
    → key ≢ []
    → hmac key message ≡ some signature
    → (if false || length key == 0
        then ""
        else elim (hmac key message) [ none ↦ "" | some t ↦ code_of_hmac t digits ])
      ≡ code_of_hmac signature digits
generate_branch hmac message digits [] n e = absurd (n refl)
generate_branch hmac message digits (k ∷ key) n e = rw e (ground arith)

-- A spelling of some bytes is not blank.
all_space_of-encode :
    (s bytes : List ℕ) → Bytes bytes → bytes ≢ [] → Spells s (encode bytes) → all_space s ≡ false
all_space_of-encode s bytes b n spelled = elim (Bool-cases (all_space s)) [
  | inl blank_text ↦ absurd (
      n (
        sym (base32_to_bytes-encode s bytes b spelled)
        ∙ base32_to_bytes-blank s
            (clean_base32-Spells spelled ∙ all_space-Spells blank_text spelled)))
  | inr other ↦ other
]

generate_code-key :
    (hmac : Hmac) (secret : String) (timestamp_ms digits period : ℕ) {bytes signature : List ℕ}
    → Bytes bytes
    → bytes ≢ []
    → Spells (codes secret) (encode bytes)
    → hmac bytes (counter_buffer (counter timestamp_ms period)) ≡ some signature
    → generate_code hmac secret timestamp_ms digits period ≡ code_of_hmac signature digits
unfolding generate_code
generate_code-key hmac secret timestamp_ms digits period {bytes} b n spelled signed =
    rw
      (
        base32_to_bytes-encode (codes secret) bytes b spelled,
        all_space_of-encode (codes secret) bytes b n spelled,
      )
      (generate_branch hmac _ digits bytes n signed)

-- For the Base32 text of a non-empty key, in any spelling, and a time before the counter's 2^32nd
-- period, the code is that of RFC 6238: the key's HMAC of the period's number, as eight bytes with the
-- highest first, truncated as in RFC 4226, modulo the power of ten, in exactly `digits` digits.
-- `hmac` is assumed to give 20 bytes there.
pub generate_code_lem :
    (hmac : Hmac) (secret : String) (timestamp_ms digits period : ℕ) {bytes signature : List ℕ}
    → Bytes bytes
    → bytes ≢ []
    → Spells (codes secret) (encode bytes)
    → timestamp_ms / 1000 / period < 2 ^ 32
    → hmac bytes (big_endian 8 (timestamp_ms / 1000 / period)) ≡ some signature
    → length signature ≡ 20
    → Bytes signature
    → 0 < digits
    → let s = codes (generate_code hmac secret timestamp_ms digits period) in
      (length s ≡ digits) × All IsDigit s × (value 0 s ≡ rfc_truncate signature % 10 ^ digits)
generate_code_lem hmac secret timestamp_ms digits period {signature} b n spelled early signed l bs
      d =
    let e = counter_buffer-big_endian (counter timestamp_ms period) early in
    let same_code =
      generate_code-key hmac secret timestamp_ms digits period b n spelled
        (ap (hmac _) e ∙ signed) in
    rw (same_code, ← truncate_lem signature l bs) (code_of_hmac_lem signature digits d)

generate_code-counter :
    (hmac : Hmac) (secret : String) (t u digits period : ℕ)
    → counter t period ≡ counter u period
    → generate_code hmac secret t digits period ≡ generate_code hmac secret u digits period
unfolding generate_code
generate_code-counter hmac secret t u digits period e = rw (e, generate_code)

div-within : (e d p : ℕ) → d < p - e % p → (e + d) / p ≡ e / p
div-within e d p h = grind arith

div-next : (e p : ℕ) → 0 < p → (e + (p - e % p)) / p ≡ e / p + 1
div-next e p h = grind arith

seconds-add : (t d : ℕ) → (t + d * 1000) / 1000 ≡ t / 1000 + d
seconds-add t d = omega arith

-- The code lasts as long as `getRemainingSeconds` says, which is at most the period: it is the same
-- after any fewer whole seconds, and after that many seconds the next period starts.
pub get_remaining_seconds_lem :
    (hmac : Hmac) (secret : String) (timestamp_ms digits period d : ℕ)
    → 0 < period
    → d < get_remaining_seconds timestamp_ms period
    → let r = get_remaining_seconds timestamp_ms period in
      (r ≤ period)
      × (generate_code hmac secret (timestamp_ms + d * 1000) digits period
          ≡ generate_code hmac secret timestamp_ms digits period)
      × (counter (timestamp_ms + r * 1000) period ≡ counter timestamp_ms period + 1)
unfolding get_remaining_seconds
get_remaining_seconds_lem hmac secret timestamp_ms digits period d h lt =
    let e = timestamp_ms / 1000 in
    (
      omega arith,
      generate_code-counter hmac secret _ _ digits period
          (ap (λ s. s / period) (seconds-add timestamp_ms d) ∙ div-within e d period lt),
      ap (λ s. s / period) (seconds-add timestamp_ms (period - e % period)) ∙ div-next e period h,
    )
