-- ===== src/Prelude/Int.antt =====
-- Signed integers over the native numbers, under the library's names (its ℤ stands on the unary ℕ):
-- times and durations, which go below zero when the wall clock is set back.
use Prim.Native.Nat.{ℕ, suc, ◌+◌, ◌-◌, ◌/◌}
use mathlib.Core.Bool.{Bool, true, false}
use vpnhub.Prelude.Tests.{leb, ◌==◌, if◌then◌else◌}

-- `negsuc n` is -(n + 1).
pub data ℤ : Type 0 where
  pos : ℕ → ℤ
  negsuc : ℕ → ℤ

-- a - b, as an integer.
abbrev pub sub_ℕ : ℕ → ℕ → ℤ
sub_ℕ a b = if leb b a then pos (a - b) else negsuc (b - a - 1)

-- n - z.
abbrev pub sub_ℤ : ℕ → ℤ → ℤ
sub_ℤ n (pos m) = sub_ℕ n m
sub_ℤ n (negsuc m) = pos (n + suc m)

-- `Math.floor(z / k)` for a positive `k`.
abbrev pub floor_div : ℤ → ℕ → ℤ
floor_div (pos n) k = pos (n / k)
floor_div (negsuc n) k = negsuc (n / k)

-- `z !== 0`, which is also the truth value of `z`.
abbrev pub nonzero : ℤ → Bool
nonzero (pos n) = if n == 0 then false else true
nonzero (negsuc n) = true
