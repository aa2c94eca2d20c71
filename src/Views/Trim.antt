-- ===== src/Views/Trim.antt =====
-- `s.trim()` of a text.
use Prim.Native.Char.{Char, code}
use vpnhub.Prelude.{
  ◌≡◌, refl, ap, ◌∙◌, String, false, if◌then◌else◌, Bool-cases, inl, inr, All, codes,
}
use vpnhub.Totp.{is_space}

trim_start : String → String
trim_start String.[] = ""
trim_start (String.◌∷◌ c s) =
    let rest = trim_start s in if is_space (code c) then rest else String.◌∷◌ c s

-- `c`, in front of a text without space at its end.
trim_char : Char → String → String
trim_char c String.[] = if is_space (code c) then "" else String.◌∷◌ c ""
trim_char c (String.◌∷◌ d s) = String.◌∷◌ c (String.◌∷◌ d s)

trim_end : String → String
unfolding trim_char
trim_end String.[] = ""
trim_end (String.◌∷◌ c s) = trim_char c (trim_end s)

unfoldable pub trim : String → String
unfolding trim_start trim_end
trim s = trim_end (trim_start s)

trim_char-end : (c : Char) (s : String) → trim_end s ≡ s → trim_end (trim_char c s) ≡ trim_char c s
unfolding trim_end trim_char
trim_char-end c String.[] h = elim (Bool-cases (is_space (code c))) [
  | inl e ↦ rw e refl
  | inr e ↦ rw (e, e) refl
]
trim_char-end c (String.◌∷◌ d s) h = ap (trim_char c) h

trim_end-twice : (s : String) → trim_end (trim_end s) ≡ trim_end s
unfolding trim_end
trim_end-twice String.[] = refl
trim_end-twice (String.◌∷◌ c s) = trim_char-end c (trim_end s) (trim_end-twice s)

trim_start-char :
    (c : Char) (s : String) → is_space (code c) ≡ false → trim_start (trim_char c s) ≡ trim_char c s
unfolding trim_start trim_char
trim_start-char c String.[] h = rw (h, h) refl
trim_start-char c (String.◌∷◌ d s) h = rw h refl

-- The text without space at its start has none there once its end is cut off.
trim_start-end : (s : String) → trim_start (trim_end (trim_start s)) ≡ trim_end (trim_start s)
unfolding trim_start trim_end
trim_start-end String.[] = refl
trim_start-end (String.◌∷◌ c s) = elim (Bool-cases (is_space (code c))) [
  | inl e ↦ rw e (trim_start-end s)
  | inr e ↦ rw e (trim_start-char c (trim_end s) e)
]

-- A trimmed text is not changed by `trim`.
pub trim-twice : (s : String) → trim (trim s) ≡ trim s
unfolding trim
trim-twice s = ap trim_end (trim_start-end s) ∙ trim_end-twice (trim_start s)

trim_start-unspaced : (s : String) → All (λ c. is_space c ≡ false) (codes s) → trim_start s ≡ s
unfolding trim_start
trim_start-unspaced String.[] h = refl
trim_start-unspaced (String.◌∷◌ c s) (h, hs) = rw h refl

trim_char-unspaced :
    (c : Char) (s : String) → is_space (code c) ≡ false → trim_char c s ≡ String.◌∷◌ c s
unfolding trim_char
trim_char-unspaced c String.[] h = rw h refl
trim_char-unspaced c (String.◌∷◌ d s) h = refl

trim_end-unspaced : (s : String) → All (λ c. is_space c ≡ false) (codes s) → trim_end s ≡ s
unfolding trim_end
trim_end-unspaced String.[] h = refl
trim_end-unspaced (String.◌∷◌ c s) (h, hs) =
    ap (trim_char c) (trim_end-unspaced s hs) ∙ trim_char-unspaced c s h

-- A text without space is not changed.
pub trim-unspaced : (s : String) → All (λ c. is_space c ≡ false) (codes s) → trim s ≡ s
unfolding trim
trim-unspaced s h = ap trim_end (trim_start-unspaced s h) ∙ trim_end-unspaced s h
