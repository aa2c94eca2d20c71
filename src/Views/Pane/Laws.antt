-- ===== src/Views/Pane/Laws.antt =====
-- What holds of the side bar after any events.
use vpnhub.Prelude.{
  ℕ, suc, ◌+◌, ◌-◌, ◌*◌, ◌≤◌, ◌<◌, ◌⊎◌, ◌++◌, ℤ, pos, negsuc, ◌≡◌, refl, ap, ◌∙◌, subst, String,
  true, false, ◌&&◌, Option, none, some, List, [], ◌∷◌, ◌==◌, leb, codes, show, nonempty, All,
  Bool-cases, inl, inr, arith,
}
use vpnhub.Prelude.Decimal.{
  value, IsDigit, IsCons, show_lem, show-IsCons, digits_bound, codes-append,
}
use vpnhub.Totp.{is_space}
use vpnhub.Views.Form.Again.{empty-text}
use vpnhub.Views.Pane.{
  Limits, Storage, Width, Pane, point, print_width, clamp_fraction, saved_width, parsed_width,
  parse_digits, parse_unsigned, parse_signed, skip_spaces, parse_int, clamp, initial_width,
}

-- A text in which `parseInt` reads no further digit.
abbrev IsEnd : List ℕ → Type 0
IsEnd t = (acc : ℕ) → parse_digits acc t ≡ acc

parse_digits-value :
    (acc : ℕ) (s t : List ℕ) → All IsDigit s → IsEnd t → parse_digits acc (s ++ t) ≡ value acc s
unfolding parse_digits
parse_digits-value acc [] t h end = end acc
parse_digits-value acc (c ∷ s) t ((lo, hi), hs) end =
    let e = parse_digits-value (acc * 10 + (c - b'0')) s t hs end in
    let d : (leb b'0' c && leb c b'9') ≡ true = ground arith in rw (d, e) refl

parse_signed-digits :
    (s t : List ℕ)
    → IsCons s
    → All IsDigit s
    → IsEnd t
    → parse_signed (skip_spaces (s ++ t)) ≡ some (pos (value 0 s))
unfolding parse_signed parse_unsigned skip_spaces is_space
parse_signed-digits [] t k h end = elim k [ ]
parse_signed-digits (c ∷ s) t k ((lo, hi), hs) end =
    let space : is_space c ≡ false = ground arith in
    let minus : (c == b'-') ≡ false = ground arith in
    let plus : (c == b'+') ≡ false = ground arith in
    let digit : (leb b'0' c && leb c b'9') ≡ true = ground arith in
    rw (space, minus, plus, digit)
      (ap (λ n. some (pos n)) (parse_digits-value 0 (c ∷ s) t ((lo, hi), hs) end))

point-IsEnd : (fraction : String) → IsEnd (codes (point fraction))
unfolding parse_digits
point-IsEnd fraction acc = elim (Bool-cases (nonempty fraction)) [
  | inl e ↦ rw (e, codes-append "." fraction) refl
  | inr e ↦ rw e refl
]

-- A printed width is read back to the whole pixels.
parse_int-print_width : (w : Width) → parse_int (print_width w) ≡ some (pos w.whole)
unfolding parse_int
parse_int-print_width w =
    let n = w.whole in
    let (v, l, digits) = show_lem n (suc n) (omega arith) (digits_bound n) in
    rw (codes-append (show n) (point w.fraction)) (
      parse_signed-digits (codes (show n)) (codes (point w.fraction)) (show-IsCons n) digits
        (point-IsEnd w.fraction)
      ∙ ap (λ m. some (pos m)) v)

nonempty-IsCons : (s : String) → IsCons (codes s) → nonempty s ≡ true
nonempty-IsCons s h = elim (Bool-cases (nonempty s)) [
  | inl e ↦ e
  | inr e ↦ absurd (subst (λ t. IsCons (codes t)) (empty-text s e) h)
]

-- The properties go together.
abbrev pub IsSound : Limits → Type 0
IsSound l = (l.min_width ≤ l.default_width) × (l.default_width ≤ l.max_width)

abbrev pub IsInRange : Limits → Pane → Type 0
IsInRange l p = (l.min_width ≤ p.expanded_width.whole) × (p.expanded_width.whole ≤ l.max_width)

pub clamp-twice : (l : Limits) (z : ℤ) → IsSound l → clamp l (pos (clamp l z)) ≡ clamp l z
clamp-twice l (pos n) (a, b) = omega arith
clamp-twice l (negsuc n) (a, b) = omega arith

pub clamp-bounds :
    (l : Limits) (z : ℤ) → IsSound l → (l.min_width ≤ clamp l z) × (clamp l z ≤ l.max_width)
clamp-bounds l (pos n) (a, b) = omega arith
clamp-bounds l (negsuc n) (a, b) = omega arith

saved_width-bounds :
    (l : Limits) (s : Option String)
    → IsSound l
    → (l.min_width ≤ saved_width l s) × (saved_width l s ≤ l.max_width)
saved_width-bounds l none h = h
saved_width-bounds l (some s) h = elim (Bool-cases (nonempty s)) [
  | inl e ↦ rw e (parsed_width-bounds (parse_int s))
  | inr e ↦ rw e h
]
  where
    parsed_width-bounds :
        (z : Option ℤ) → (l.min_width ≤ parsed_width l z) × (parsed_width l z ≤ l.max_width)
    parsed_width-bounds none = h
    parsed_width-bounds (some z) = clamp-bounds l z h

pub initial_width-bounds :
    (l : Limits) (s : Storage)
    → IsSound l
    → (l.min_width ≤ initial_width l s) × (initial_width l s ≤ l.max_width)
unfolding initial_width
initial_width-bounds l Storage.unavailable h = h
initial_width-bounds l (Storage.kept width collapsed) h = saved_width-bounds l width h

IsCons-append : (s t : List ℕ) → IsCons s → IsCons (s ++ t)
IsCons-append [] t k = elim k [ ]
IsCons-append (c ∷ s) t k = k

print_width-nonempty : (w : Width) → nonempty (print_width w) ≡ true
print_width-nonempty w = nonempty-IsCons (print_width w) (
    rw (codes-append (show w.whole) (point w.fraction))
      (IsCons-append _ (codes (point w.fraction)) (show-IsCons w.whole)))

pub saved_width-print_width :
    (l : Limits) (w : Width) → saved_width l (some (print_width w)) ≡ clamp l (pos w.whole)
saved_width-print_width l w = rw (print_width-nonempty w, parse_int-print_width w) refl

-- The whole pixels are below the greatest width, or it is reached exactly.
pub clamp_fraction-bound :
    (l : Limits) (z : ℤ) (fraction : String)
    → (clamp_fraction l z fraction ≡ "") ⊎ (clamp l z < l.max_width)
clamp_fraction-bound l (negsuc n) fraction = inl refl
clamp_fraction-bound l (pos n) fraction =
    elim (Bool-cases (leb l.min_width n && leb (n + 1) l.max_width)) [
      | inl e ↦ inr (ground arith)
      | inr e ↦ inl (rw e refl)
    ]
