-- ===== src/Views/Text.antt =====
-- Letter case, and `includes` of texts, which are lists of UTF-16 units here. Letter case is that
-- of ASCII.
use vpnhub.Prelude.{
  ℕ, ◌+◌, ◌≡◌, refl, sym, ap, ◌∙◌, ◌↔◌, inl, inr, String, Bool, true, false, ◌&&◌, ◌||◌, List, [],
  ◌∷◌, ◌++◌, map, leb, ◌==◌, ==_iff, if◌then◌else◌, codes, arith, Bool-cases,
}

abbrev pub to_lower : ℕ → ℕ
to_lower c = if leb b'A' c && leb c b'Z' then c + 32 else c

-- `s.toLowerCase()`
abbrev pub lower : String → List ℕ
lower s = map to_lower (codes s)

unfoldable pub starts_with : List ℕ → List ℕ → Bool
starts_with [] s = true
starts_with (n ∷ ns) [] = false
starts_with (n ∷ ns) (c ∷ s) = n == c && starts_with ns s

-- `s.includes(needle)`
unfoldable pub includes : List ℕ → List ℕ → Bool
unfolding starts_with
includes needle [] = starts_with needle []
includes needle (c ∷ s) = let rest = includes needle s in starts_with needle (c ∷ s) || rest

-- `needle` stands somewhere in `s`.
pub record Occurs (needle s : List ℕ) : Type 0 where
  pub before : List ℕ
  pub after : List ℕ
  pub whole : s ≡ before ++ needle ++ after

-- `needle` stands at the start of `s`.
abbrev IsPrefix : List ℕ → List ℕ → Type 0
IsPrefix needle s = (after : List ℕ) × (s ≡ needle ++ after)

starts_with-IsPrefix : (n s : List ℕ) → starts_with n s ≡ true → IsPrefix n s
unfolding starts_with
starts_with-IsPrefix [] s h = (s, refl)
starts_with-IsPrefix (n ∷ ns) [] h = cc
starts_with-IsPrefix (n ∷ ns) (c ∷ s) h =
    let e : (n == c) ≡ true = ground (arith, h) in
    let r : starts_with ns s ≡ true = ground (arith, h) in
    let (after, w) = starts_with-IsPrefix ns s r in (after, λ i. sym ((==_iff n c).0 e) i ∷ w i)

==_refl : (n : ℕ) → (n == n) ≡ true
==_refl n = (==_iff n n).1 refl

starts_with-append : (n after : List ℕ) → starts_with n (n ++ after) ≡ true
unfolding starts_with
starts_with-append [] after = refl
starts_with-append (n ∷ ns) after = rw (==_refl n) (starts_with-append ns after)

includes-Occurs : (n s : List ℕ) → includes n s ≡ true → Occurs n s
unfolding includes
includes-Occurs n [] h =
    let (after, w) = starts_with-IsPrefix n [] h in record { before = []; after = after; whole = w }
includes-Occurs n (c ∷ s) h = elim (Bool-cases (starts_with n (c ∷ s))) [
  | inl e ↦
      let (after, w) = starts_with-IsPrefix n (c ∷ s) e in
      record { before = []; after = after; whole = w }
  | inr e ↦
      let r = includes-Occurs n s (ground (arith, h, e)) in
      record { before = c ∷ r.before; after = r.after; whole = λ i. c ∷ r.whole i }
]

starts_with-includes : (n s : List ℕ) → starts_with n s ≡ true → includes n s ≡ true
unfolding includes
starts_with-includes n [] h = h
starts_with-includes n (c ∷ s) h = ground (arith, h)

includes-append : (before n after : List ℕ) → includes n (before ++ n ++ after) ≡ true
unfolding includes
includes-append [] n after = starts_with-includes n (n ++ after) (starts_with-append n after)
includes-append (c ∷ before) n after = ground (arith, includes-append before n after)

-- The test `includes` finds exactly the texts that stand somewhere in the other.
pub includes_iff : (n s : List ℕ) → (includes n s ≡ true) ↔ Occurs n s
includes_iff n s =
    (includes-Occurs n s, λ o. ap (includes n) o.whole ∙ includes-append o.before n o.after)
