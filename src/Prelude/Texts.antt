-- ===== src/Prelude/Texts.antt =====
-- Texts: their code points, the print of a number, and the truth tests that the source makes on
-- values which may be absent (`a || b`, `Boolean(a)`, `a ?? b`).
use Prim.Native.Nat.{ℕ, zero, suc, ◌/◌, ◌%◌}
use Prim.Native.Char.{code}
use Prim.Native.String.{String, ◌++◌ as ◌<>◌}
use mathlib.Core.Bool.{Bool, true, false, not}
use mathlib.Core.Option.{Option, none, some}
use mathlib.Core.List.{List, [], ◌∷◌}
use text.Mathlib.Text.{◌==◌ as str_eq}
use vpnhub.Prelude.Tests.{ltb, ◌==◌, if◌then◌else◌}

-- The code points of a text: its UTF-16 units, if it is ASCII.
abbrev pub codes : String → List ℕ
codes String.[] = []
codes (String.◌∷◌ c s) = code c ∷ codes s

-- The text of one decimal digit.
abbrev pub digit_text : ℕ → String
digit_text zero = "0"
digit_text (suc zero) = "1"
digit_text (suc (suc zero)) = "2"
digit_text (suc (suc (suc zero))) = "3"
digit_text (suc (suc (suc (suc zero)))) = "4"
digit_text (suc (suc (suc (suc (suc zero))))) = "5"
digit_text (suc (suc (suc (suc (suc (suc zero)))))) = "6"
digit_text (suc (suc (suc (suc (suc (suc (suc zero))))))) = "7"
digit_text (suc (suc (suc (suc (suc (suc (suc (suc zero)))))))) = "8"
digit_text _ = "9"

-- `String(n)`, on fuel: a number has no more digits than its value plus one.
unfoldable pub show_fuel : ℕ → ℕ → String
show_fuel zero n = digit_text (n % 10)
show_fuel (suc f) n =
    let rest = show_fuel f (n / 10) in
    if ltb n 10 then digit_text n else rest <> digit_text (n % 10)

unfoldable pub show : ℕ → String
unfolding show_fuel
show n = show_fuel n n

-- `Boolean(s)` for a text that may be absent.
abbrev pub nonempty : String → Bool
nonempty s = not (str_eq s "")

abbrev pub truthy : Option String → Bool
truthy none = false
truthy (some s) = nonempty s

abbrev pub is_true : Option Bool → Bool
is_true none = false
is_true (some b) = b

-- `a || b`.
abbrev pub or_opt : Option String → Option String → Option String
or_opt a b = if truthy a then a else b

abbrev pub or_text : Option String → String → String
or_text none b = b
or_text (some a) b = if nonempty a then a else b

abbrev pub truthy_nat : Option ℕ → Bool
truthy_nat none = false
truthy_nat (some n) = if n == 0 then false else true

abbrev pub or_nat : Option ℕ → ℕ → ℕ
or_nat none b = b
or_nat (some a) b = if a == 0 then b else a

-- `a ?? b`.
abbrev pub get_or {ℓ} : {A : Type ℓ} → Option A → A → A
get_or none b = b
get_or (some a) b = a
