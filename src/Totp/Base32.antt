-- ===== src/Totp/Base32.antt =====
-- `base32ToBytes` against an encoder of RFC 4648. After every encoded byte the two loops hold 0 or 8
-- bits between them, so they meet in five states.
use vpnhub.Prelude.{
  ℕ, zero, suc, ◌+◌, ◌-◌, ◌*◌, ◌/◌, ◌%◌, ◌^◌, ◌<◌, ◌≤◌, ◌≡◌, refl, ◌∙◌, ap, Bool, true, false, ◌&&◌,
  ◌⊎◌, Option, none, some, List, [], ◌∷◌, arith, leb, ◌==◌, ==_iff, if◌then◌else◌, replicate, codes,
  All,
}
use vpnhub.Totp.{clean_base32, alphabet, index_of, decode_loop, base32_to_bytes}

-- The symbol of a five-bit value.
symbol_in : ℕ → List ℕ → ℕ
symbol_in i [] = b'='
symbol_in zero (x ∷ xs) = x
symbol_in (suc i) (x ∷ xs) = symbol_in i xs

symbol : ℕ → ℕ
unfolding symbol_in
symbol i = symbol_in i alphabet

-- The encoder: `bits` bits are pending, fewer than five, with the value `value`. The last symbol is
-- filled up with zero bits.
encode_loop : ℕ → ℕ → List ℕ → List ℕ
encode_loop bits value [] = if bits == 0 then [] else symbol (value * 2 ^ (5 - bits)) ∷ []
encode_loop bits value (byte ∷ bytes) =
    let v = value * 256 + byte in
    let two =
      symbol (v / 2 ^ (bits + 3))
      ∷ symbol (v % 2 ^ (bits + 3) / 2 ^ (bits - 2))
      ∷ encode_loop (bits - 2) (v % 2 ^ (bits - 2)) bytes in
    let one = symbol (v / 2 ^ (bits + 3)) ∷ encode_loop (bits + 3) (v % 2 ^ (bits + 3)) bytes in
    if leb 2 bits then two else one

unfoldable pub encode : List ℕ → List ℕ
unfolding encode_loop symbol
encode bytes = encode_loop 0 0 bytes

encode_foobar : encode (codes "foobar") ≡ codes "MZXW6YTBOI"
unfolding encode
encode_foobar = refl

decode_foobar : base32_to_bytes (codes "mzxw-6ytb oi======") ≡ codes "foobar"
unfolding base32_to_bytes
decode_foobar = refl

abbrev is_some_of : ℕ → Option ℕ → Bool
is_some_of i none = false
is_some_of i (some j) = j == i

is_some_of_sound : (i : ℕ) (o : Option ℕ) → is_some_of i o ≡ true → o ≡ some i
is_some_of_sound i none h = cc
is_some_of_sound i (some j) h = ap some ((==_iff j i).0 h)

abbrev stands : ℕ → Bool
stands i = is_some_of i (index_of (symbol i) alphabet)

-- `k` symbols, from the value `i` on, stand for their own values.
stand_from : ℕ → ℕ → Bool
stand_from zero i = true
stand_from (suc k) i = stands i && stand_from k (suc i)

stands-stand_from : (k i x : ℕ) → stand_from k i ≡ true → i ≤ x → x < i + k → stands x ≡ true
unfolding stand_from
stands-stand_from zero i x h l u = absurd (omega arith)
stands-stand_from (suc k) i x h l u = grind (arith, stands-stand_from k (suc i) x)

all_stand : stand_from 32 0 ≡ true
unfolding stand_from symbol index_of
all_stand = refl

-- Each symbol stands for its own value.
index_of-symbol : (i : ℕ) → i < 32 → index_of (symbol i) alphabet ≡ some i
index_of-symbol i h =
    is_some_of_sound i _ (stands-stand_from 32 0 i all_stand (omega arith) (omega arith))

-- One round of the decoder on a symbol, while fewer than eight bits are there.
decode_loop_skip :
    (bits value i : ℕ) (s : List ℕ)
    → i < 32
    → bits < 3
    → decode_loop bits value (symbol i ∷ s)
      ≡ decode_loop (bits + 5) ((value * 2 ^ 5) % 2 ^ 32 + i) s
unfolding decode_loop
decode_loop_skip bits value i s h k = rw (index_of-symbol i h, decode_loop) (ground arith)

-- The same, when a byte is complete.
decode_loop_push :
    (bits value i : ℕ) (s : List ℕ)
    → i < 32
    → 3 ≤ bits
    → decode_loop bits value (symbol i ∷ s)
      ≡ (((value * 2 ^ 5) % 2 ^ 32 + i) / 2 ^ (bits + 5 - 8) % 256)
        ∷ decode_loop (bits + 5 - 8) ((value * 2 ^ 5) % 2 ^ 32 + i) s
unfolding decode_loop
decode_loop_push bits value i s h k = rw (index_of-symbol i h, decode_loop) (ground arith)

cons-eq-cons {ℓ} : {A : Type ℓ} {x y : A} {xs ys : List A} → x ≡ y → xs ≡ ys → x ∷ xs ≡ y ∷ ys
cons-eq-cons p q = λ i. p i ∷ q i

pub decode_loop-nil : (bits value : ℕ) → decode_loop bits value [] ≡ []
unfolding decode_loop
decode_loop-nil bits value = refl

abbrev pub Bytes : List ℕ → Type 0
Bytes = All (λ b. b < 256)

-- The five states: `pending` is what the encoder holds, `value` what the decoder has read.
mutual
  unfolding encode_loop

  meet_zero :
      (bytes : List ℕ) (pending value : ℕ)
      → Bytes bytes
      → pending < 1
      → value < 2 ^ 32
      → decode_loop 0 value (encode_loop 0 pending bytes) ≡ bytes
  meet_zero [] pending value h p v = decode_loop-nil _ _
  meet_zero (byte ∷ bytes) pending value (b, h) p v =
      decode_loop_skip 0 value ((pending * 256 + byte) / 2 ^ 3) _ (omega arith) (omega arith)
      ∙ meet_three bytes _ _ h (omega arith) (omega arith)
      ∙ cons-eq-cons (omega arith) refl

  meet_one :
      (bytes : List ℕ) (pending value : ℕ)
      → Bytes bytes
      → pending < 2
      → value < 2 ^ 32
      → decode_loop 7 value (encode_loop 1 pending bytes) ≡ (value % 2 ^ 7 * 2 + pending) ∷ bytes
  meet_one [] pending value h p v =
      decode_loop_push 7 value (pending * 2 ^ 4) _ (omega arith) (omega arith)
      ∙ cons-eq-cons (omega arith) (decode_loop-nil _ _)
  meet_one (byte ∷ bytes) pending value (b, h) p v =
      decode_loop_push 7 value ((pending * 256 + byte) / 2 ^ 4) _ (omega arith) (omega arith)
      ∙ cons-eq-cons (omega arith)
          (meet_four bytes _ _ h (omega arith) (omega arith) ∙ cons-eq-cons (omega arith) refl)

  meet_two :
      (bytes : List ℕ) (pending value : ℕ)
      → Bytes bytes
      → pending < 4
      → value < 2 ^ 32
      → decode_loop 6 value (encode_loop 2 pending bytes) ≡ (value % 2 ^ 6 * 4 + pending) ∷ bytes
  meet_two [] pending value h p v =
      decode_loop_push 6 value (pending * 2 ^ 3) _ (omega arith) (omega arith)
      ∙ cons-eq-cons (omega arith) (decode_loop-nil _ _)
  meet_two (byte ∷ bytes) pending value (b, h) p v =
      decode_loop_push 6 value ((pending * 256 + byte) / 2 ^ 5) _ (omega arith) (omega arith)
      ∙ cons-eq-cons (omega arith) (
          decode_loop_push 3 _ ((pending * 256 + byte) % 2 ^ 5 / 2 ^ 0) _ (omega arith)
            (omega arith)
          ∙ cons-eq-cons (omega arith) (meet_zero bytes _ _ h (omega arith) (omega arith)))

  meet_three :
      (bytes : List ℕ) (pending value : ℕ)
      → Bytes bytes
      → pending < 8
      → value < 2 ^ 32
      → decode_loop 5 value (encode_loop 3 pending bytes) ≡ (value % 2 ^ 5 * 8 + pending) ∷ bytes
  meet_three [] pending value h p v =
      decode_loop_push 5 value (pending * 2 ^ 2) _ (omega arith) (omega arith)
      ∙ cons-eq-cons (omega arith) (decode_loop-nil _ _)
  meet_three (byte ∷ bytes) pending value (b, h) p v =
      decode_loop_push 5 value ((pending * 256 + byte) / 2 ^ 6) _ (omega arith) (omega arith)
      ∙ cons-eq-cons (omega arith) (
          decode_loop_skip 2 _ ((pending * 256 + byte) % 2 ^ 6 / 2 ^ 1) _ (omega arith)
            (omega arith)
          ∙ meet_one bytes _ _ h (omega arith) (omega arith)
          ∙ cons-eq-cons (omega arith) refl)

  meet_four :
      (bytes : List ℕ) (pending value : ℕ)
      → Bytes bytes
      → pending < 16
      → value < 2 ^ 32
      → decode_loop 4 value (encode_loop 4 pending bytes) ≡ (value % 2 ^ 4 * 16 + pending) ∷ bytes
  meet_four [] pending value h p v =
      decode_loop_push 4 value (pending * 2 ^ 1) _ (omega arith) (omega arith)
      ∙ cons-eq-cons (omega arith) (decode_loop-nil _ _)
  meet_four (byte ∷ bytes) pending value (b, h) p v =
      decode_loop_push 4 value ((pending * 256 + byte) / 2 ^ 7) _ (omega arith) (omega arith)
      ∙ cons-eq-cons (omega arith) (
          decode_loop_skip 1 _ ((pending * 256 + byte) % 2 ^ 7 / 2 ^ 2) _ (omega arith)
            (omega arith)
          ∙ meet_two bytes _ _ h (omega arith) (omega arith)
          ∙ cons-eq-cons (omega arith) refl)

abbrev pub IsLetter : ℕ → Type 0
IsLetter x = (b'A' ≤ x) × (x ≤ b'Z')

abbrev pub IsSymbol : ℕ → Type 0
IsSymbol x = IsLetter x ⊎ ((b'2' ≤ x) × (x ≤ b'7'))

-- `Spells s t`: the user may write the symbols `t` as `s`, with letters of either case, with blanks
-- and dashes anywhere, and with any padding at the end.
pub data Spells : List ℕ → List ℕ → Type 0 where
  padding : {s : List ℕ} (k : ℕ) → s ≡ replicate k b'=' → Spells s []
  blank : {c : ℕ} {s t : List ℕ} → (c ≡ b' ') ⊎ (c ≡ b'-') → Spells s t → Spells (c ∷ s) t
  same : {x : ℕ} {s t : List ℕ} → IsSymbol x → Spells s t → Spells (x ∷ s) (x ∷ t)
  lower : {c x : ℕ} {s t : List ℕ} → IsLetter x → c ≡ x + 32 → Spells s t → Spells (c ∷ s) (x ∷ t)

clean_base32-padding : (k : ℕ) → clean_base32 (replicate k b'=') ≡ []
unfolding clean_base32
clean_base32-padding zero = refl
clean_base32-padding (suc k) = ground (arith, clean_base32-padding k)

clean_base32-blank :
    (c : ℕ) (s : List ℕ) → (c ≡ b' ') ⊎ (c ≡ b'-') → clean_base32 (c ∷ s) ≡ clean_base32 s
unfolding clean_base32
clean_base32-blank c s h = ground arith

clean_base32-same : (x : ℕ) (s : List ℕ) → IsSymbol x → clean_base32 (x ∷ s) ≡ x ∷ clean_base32 s
unfolding clean_base32
clean_base32-same x s h = ground arith

clean_base32-lower :
    (x : ℕ) (s : List ℕ) → IsLetter x → clean_base32 ((x + 32) ∷ s) ≡ x ∷ clean_base32 s
unfolding clean_base32
clean_base32-lower x s h = ground arith

pub clean_base32-Spells : {s t : List ℕ} → Spells s t → clean_base32 s ≡ t
clean_base32-Spells (padding k e) = rw e (clean_base32-padding k)
clean_base32-Spells (blank {c} {s} h r) = clean_base32-blank c s h ∙ clean_base32-Spells r
clean_base32-Spells (same {x} {s} h r) =
    clean_base32-same x s h ∙ cons-eq-cons refl (clean_base32-Spells r)
clean_base32-Spells (lower {x} {s} h e r) =
    rw e (clean_base32-lower x s h ∙ cons-eq-cons refl (clean_base32-Spells r))

-- Decoding any spelling of the RFC 4648 encoding of a byte string gives these bytes back.
pub base32_to_bytes-encode :
    (s bytes : List ℕ) → Bytes bytes → Spells s (encode bytes) → base32_to_bytes s ≡ bytes
unfolding base32_to_bytes encode
base32_to_bytes-encode s bytes h spelled =
    rw (clean_base32-Spells spelled) (meet_zero bytes 0 0 h (omega arith) (omega arith))
