-- ===== src/Totp.antt =====
-- packages/app/src/utils/totp.ts: one-time codes. A text is the list of its UTF-16 units here, and
-- letter case is that of ASCII. `|` of numbers with no common bit is written `+`, and `& (2^k - 1)`
-- is `% 2^k`. The browser's HMAC-SHA-1 is a parameter; `none` is an exception that it throws.
pub mod Base32
pub mod Codes
use vpnhub.Prelude.{
  ℕ, zero, suc, ◌+◌, ◌-◌, ◌*◌, ◌/◌, ◌%◌, ◌^◌, String, ◌<>◌, Bool, true, false, not, ◌&&◌, ◌||◌,
  Option, none, some, List, [], ◌∷◌, ◌++◌, map, leb, ◌==◌, if◌then◌else◌, length, filter_by,
  replicate, codes, show,
}

to_upper : ℕ → ℕ
to_upper c = if leb b'a' c && leb c b'z' then c - 32 else c

-- What `\s` matches, which is also what `trim` removes.
unfoldable pub is_space : ℕ → Bool
is_space c =
    (leb 9 c && leb c 13)
    || c == 32
    || c == 0xa0
    || c == 0x1680
    || (leb 0x2000 c && leb c 0x200a)
    || c == 0x2028
    || c == 0x2029
    || c == 0x202f
    || c == 0x205f
    || c == 0x3000
    || c == 0xfeff

-- `replace(/=+$/, "")`
strip_padding : List ℕ → List ℕ
strip_padding [] = []
strip_padding (c ∷ s) =
    let rest = strip_padding s in if c == b'=' && length rest == 0 then [] else c ∷ rest

pub clean_base32 : List ℕ → List ℕ
unfolding to_upper is_space strip_padding
clean_base32 s = strip_padding (filter_by (λ c. not (is_space c || c == b'-')) (map to_upper s))

abbrev alphabet : List ℕ
alphabet = codes "ABCDEFGHIJKLMNOPQRSTUVWXYZ234567"

-- `indexOf`, with `none` for -1.
index_of : ℕ → List ℕ → Option ℕ
index_of c [] = none
index_of c (x ∷ xs) =
    if c == x then some 0 else elim (index_of c xs) [ none ↦ none | some i ↦ some (suc i) ]

-- The loop of `base32ToBytes`, with `value` as an unsigned 32-bit pattern. A byte that is pushed
-- stands before those that the rest of the loop pushes.
pub decode_loop : ℕ → ℕ → List ℕ → List ℕ
unfolding index_of
decode_loop bits value [] = []
decode_loop bits value (c ∷ s) = elim (index_of c alphabet) [
  | none ↦ decode_loop bits value s
  | some idx ↦
      let value' = (value * 2 ^ 5) % 2 ^ 32 + idx in
      let push = ((value' / 2 ^ (bits + 5 - 8)) % 256) ∷ decode_loop (bits + 5 - 8) value' s in
      let skip = decode_loop (bits + 5) value' s in if leb 8 (bits + 5) then push else skip
]

unfoldable pub base32_to_bytes : List ℕ → List ℕ
unfolding clean_base32 decode_loop
base32_to_bytes s = decode_loop 0 0 (clean_base32 s)

-- `a[i]` of a byte array, as an operand of `&`: past the end `undefined` counts as 0.
byte_at : List ℕ → ℕ → ℕ
byte_at [] i = 0
byte_at (b ∷ bs) zero = b
byte_at (b ∷ bs) (suc i) = byte_at bs i

abbrev pub counter : ℕ → ℕ → ℕ
counter timestamp_ms period = timestamp_ms / 1000 / period

-- `setUint32(4, counter, false)` on eight zero bytes.
unfoldable pub counter_buffer : ℕ → List ℕ
counter_buffer n =
    0
    ∷ 0
    ∷ 0
    ∷ 0
    ∷ ((n % 2 ^ 32) / 2 ^ 24)
    ∷ ((n % 2 ^ 32) / 2 ^ 16 % 256)
    ∷ ((n % 2 ^ 32) / 2 ^ 8 % 256)
    ∷ (n % 2 ^ 32 % 256)
    ∷ []

-- Dynamic truncation (RFC 4226).
unfoldable pub truncate : List ℕ → ℕ
unfolding byte_at
truncate hmac =
    let offset = byte_at hmac (length hmac - 1) % 16 in
    (byte_at hmac offset % 128) * 2 ^ 24
    + (byte_at hmac (offset + 1) % 256) * 2 ^ 16
    + (byte_at hmac (offset + 2) % 256) * 2 ^ 8
    + byte_at hmac (offset + 3) % 256

zeros : ℕ → String
zeros zero = ""
zeros (suc n) = "0" <> zeros n

-- `s.padStart(n, "0")`
pad_start : ℕ → String → String
unfolding zeros
pad_start n s = zeros (n - length (codes s)) <> s

unfoldable pub code_of_hmac : List ℕ → ℕ → String
unfolding truncate pad_start show
code_of_hmac hmac digits = pad_start digits (show (truncate hmac % 10 ^ digits))

unfoldable pub all_space : List ℕ → Bool
unfolding is_space
all_space [] = true
all_space (c ∷ s) = is_space c && all_space s

-- The arguments of the browser's `sign`: the key and the message.
abbrev pub Hmac : Type 0
Hmac = List ℕ → List ℕ → Option (List ℕ)

unfoldable pub generate_code : Hmac → String → ℕ → ℕ → ℕ → String
unfolding all_space base32_to_bytes counter_buffer code_of_hmac
generate_code hmac secret timestamp_ms digits period =
    let key = base32_to_bytes (codes secret) in
    if all_space (codes secret) || length key == 0
    then ""
    else elim (hmac key (counter_buffer (counter timestamp_ms period))) [
      | none ↦ ""
      | some signature ↦ code_of_hmac signature digits
    ]

unfoldable pub get_remaining_seconds : ℕ → ℕ → ℕ
get_remaining_seconds timestamp_ms period = period - timestamp_ms / 1000 % period
