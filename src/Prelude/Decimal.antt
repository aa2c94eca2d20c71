-- ===== src/Prelude/Decimal.antt =====
-- The decimal print of a number, read back: its value, its length and its digits.
use Prim.Native.Nat.{ℕ, zero, suc, ◌+◌, ◌-◌, ◌*◌, ◌/◌, ◌%◌, ◌^◌, ◌<◌, ◌≤◌}
use Prim.Native.Char.{code}
use Prim.Native.String.{String, ◌++◌ as ◌<>◌}
use Prim.Native.String.append
use mathlib.Core.Path.{◌≡◌, refl, ap, ◌∙◌}
use mathlib.Core.List.{List, [], ◌∷◌, ◌++◌}
use native.Mathlib.Omega.{arith}
use native.Mathlib.Nat.{pow-suc}
use mathlib.Core.Logic.{inl, inr}
use vpnhub.Prelude.Tests.{ltb, ltb→lt, Bool-cases}
use vpnhub.Prelude.Lists.{length, length-append, All, All-append}
use vpnhub.Prelude.Texts.{codes, digit_text, show_fuel, show}

pub codes-append : (s t : String) → codes (s <> t) ≡ codes s ++ codes t
codes-append String.[] t = ap codes (append.nil t)
codes-append (String.◌∷◌ c s) t =
    ap codes (append.cons c s t) ∙ ap (λ r. code c ∷ r) (codes-append s t)

abbrev pub IsDigit : ℕ → Type 0
IsDigit c = (b'0' ≤ c) × (c ≤ b'9')

-- The number that the digits spell behind `acc`.
abbrev pub value : ℕ → List ℕ → ℕ
value acc [] = acc
value acc (c ∷ s) = value (acc * 10 + (c - b'0')) s

pub value-append : (acc : ℕ) (s t : List ℕ) → value acc (s ++ t) ≡ value (value acc s) t
value-append acc [] t = refl
value-append acc (c ∷ s) t = value-append (acc * 10 + (c - b'0')) s t

-- A digit's text is one digit, and its value is the digit.
digit_text_lem : (n : ℕ) → n < 10 → codes (digit_text n) ≡ (b'0' + n) ∷ []
digit_text_lem zero h = refl
digit_text_lem (suc zero) h = refl
digit_text_lem (suc (suc zero)) h = refl
digit_text_lem (suc (suc (suc zero))) h = refl
digit_text_lem (suc (suc (suc (suc zero)))) h = refl
digit_text_lem (suc (suc (suc (suc (suc zero))))) h = refl
digit_text_lem (suc (suc (suc (suc (suc (suc zero)))))) h = refl
digit_text_lem (suc (suc (suc (suc (suc (suc (suc zero))))))) h = refl
digit_text_lem (suc (suc (suc (suc (suc (suc (suc (suc zero)))))))) h = refl
digit_text_lem (suc (suc (suc (suc (suc (suc (suc (suc (suc zero))))))))) h = refl
digit_text_lem (suc (suc (suc (suc (suc (suc (suc (suc (suc (suc n)))))))))) h =
    absurd (omega arith)

abbrev Prints : String → ℕ → ℕ → Type 0
Prints s n d = (value 0 (codes s) ≡ n) × (length (codes s) ≤ d) × All IsDigit (codes s)

Prints-digit : (n d : ℕ) → n < 10 → Prints (digit_text n) n (suc d)
Prints-digit n d h = rw (digit_text_lem n h) (omega arith, omega arith, (omega arith, tt))

Prints-append :
    (s : String) (n m d : ℕ)
    → m < 10
    → Prints s n d
    → Prints (s <> digit_text m) (n * 10 + m) (suc d)
Prints-append s n m d h (v, l, a) =
    rw (codes-append s (digit_text m), digit_text_lem m h)
      (
        value-append 0 (codes s) _ ∙ omega (arith, v),
        omega (arith, length-append (codes s) ((b'0' + m) ∷ [])),
        All-append IsDigit (codes s) _ a (omega arith, tt),
      )

Prints-parts : (s : String) (n d : ℕ) → Prints s (n / 10 * 10 + n % 10) d → Prints s n d
Prints-parts s n d (v, l, a) = (omega (arith, v), l, a)

-- One more digit, behind the print of all but the last.
Prints-next :
    (s : String) (n d : ℕ)
    → 10 ≤ n
    → n < 10 ^ suc d
    → ((e : ℕ) → n / 10 < 10 ^ suc e → Prints s (n / 10) (suc e))
    → Prints (s <> digit_text (n % 10)) n (suc d)
Prints-next s n zero h k ih = absurd (omega arith)
Prints-next s n (suc e) h k ih = Prints-parts _ n _ (
    Prints-append s (n / 10) (n % 10) (suc e) (omega arith)
      (ih e (omega (arith, pow-suc 10 (suc e)))))

Prints-show_fuel : (f n d : ℕ) → n ≤ f → n < 10 ^ suc d → Prints (show_fuel f n) n (suc d)
unfolding show_fuel
Prints-show_fuel zero n d h k =
    let e : n % 10 ≡ n = omega arith in rw e (Prints-digit n d (omega arith))
Prints-show_fuel (suc f) n d h k = elim (Bool-cases (ltb n 10)) [
  | inl small ↦ rw small (Prints-digit n d (ltb→lt n 10 small))
  | inr large ↦ rw large (
      Prints-next (show_fuel f (n / 10)) n d (ground arith) k
        (λ e. Prints-show_fuel f (n / 10) e (omega arith)))
]

-- The print of a number below 10^d, for a positive d, is made of at most d digits and has its value.
pub show_lem :
    (n d : ℕ)
    → 0 < d
    → n < 10 ^ d
    → (value 0 (codes (show n)) ≡ n) × (length (codes (show n)) ≤ d) × All IsDigit (codes (show n))
unfolding show
show_lem n zero h k = absurd (omega arith)
show_lem n (suc d) h k = Prints-show_fuel n n d (omega arith) k

-- A list that is not empty.
abbrev pub IsCons : List ℕ → Type 0
IsCons [] = ⊥
IsCons (x ∷ xs) = Unit

IsCons-append : (xs : List ℕ) (x : ℕ) → IsCons (xs ++ x ∷ [])
IsCons-append [] x = tt
IsCons-append (y ∷ xs) x = tt

IsCons-digit : (n : ℕ) → n < 10 → IsCons (codes (digit_text n))
IsCons-digit n h = rw (digit_text_lem n h) tt

IsCons-last : (s : String) (n : ℕ) → n < 10 → IsCons (codes (s <> digit_text n))
IsCons-last s n h =
    rw (codes-append s (digit_text n), digit_text_lem n h) (IsCons-append (codes s) _)

IsCons-show_fuel : (f n : ℕ) → IsCons (codes (show_fuel f n))
unfolding show_fuel
IsCons-show_fuel zero n = IsCons-digit (n % 10) (omega arith)
IsCons-show_fuel (suc f) n = elim (Bool-cases (ltb n 10)) [
  | inl small ↦ rw small (IsCons-digit n (ltb→lt n 10 small))
  | inr large ↦ rw large (IsCons-last (show_fuel f (n / 10)) (n % 10) (omega arith))
]

-- The print of a number is not empty.
pub show-IsCons : (n : ℕ) → IsCons (codes (show n))
unfolding show
show-IsCons n = IsCons-show_fuel n n

-- A number has no more digits than its value and one.
pub digits_bound : (n : ℕ) → n < 10 ^ suc n
digits_bound zero = omega arith
digits_bound (suc n) = omega (arith, digits_bound n, pow-suc 10 (suc n))
