-- ===== src/Prelude/Int.antt =====
-- Signed integers over the native numbers, under the library's names.
use Prim.Native.Nat.{ℕ, zero, suc, ◌+◌, ◌-◌, ◌%◌, ◌^◌, ◌≤◌, ◌<◌}
use mathlib.Core.Bool.{Bool, true, false}
use mathlib.Core.Path.{◌≡◌}
use native.Mathlib.Omega.{arith}
use zysoft.Prelude.Tests.{ltb, if◌then◌else◌}

-- `negsuc n` is -(n + 1).
pub data ℤ : Type 0 where
  pos : ℕ → ℤ
  negsuc : ℕ → ℤ

-- `z > 0`
abbrev pub is_positive : ℤ → Bool
is_positive (pos zero) = false
is_positive (pos (suc n)) = true
is_positive (negsuc n) = false

-- The value of an integer that is not negative, 0 for the others.
abbrev pub to_ℕ : ℤ → ℕ
to_ℕ (pos n) = n
to_ℕ (negsuc n) = 0

-- `a - b`
unfoldable pub difference : ℕ → ℕ → ℤ
difference a zero = pos a
difference zero (suc b) = negsuc b
difference (suc a) (suc b) = difference a b

-- An unsigned integer converted to a 32-bit `int`.
abbrev pub to_int : ℕ → ℤ
to_int n = let m = n % 2 ^ 32 in if ltb m (2 ^ 31) then pos m else negsuc (2 ^ 32 - 1 - m)

pub to_int_high : (n : ℕ) → 2 ^ 31 ≤ n → n < 2 ^ 32 → to_int n ≡ negsuc (2 ^ 32 - 1 - n)
to_int_high n low high = let m : n % 2 ^ 32 ≡ n = omega arith in rw m (ground arith)

-- `z + n` and `z - n`
abbrev pub add_ℕ : ℤ → ℕ → ℤ
add_ℕ (pos m) n = pos (m + n)
add_ℕ (negsuc m) n = if ltb m n then pos (n - m - 1) else negsuc (m - n)

abbrev pub sub_ℕ : ℤ → ℕ → ℤ
sub_ℕ (pos m) n = if ltb m n then negsuc (n - m - 1) else pos (m - n)
sub_ℕ (negsuc m) n = negsuc (m + n)
