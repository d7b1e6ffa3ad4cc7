-- ===== src/Prelude/Ints.antt =====
-- Integers over the native numbers, for a C `int` that can be negative, and the two conversions
-- between an `int` and the 32-bit pattern of an `unsigned int`.
use Prim.Native.Nat.{ℕ, suc, ◌+◌, ◌-◌, ◌%◌, ◌^◌, ◌≤◌, ◌<◌}
use mathlib.Core.Path.{◌≡◌}
use mathlib.Core.Bool.{Bool, true, false}
use native.Mathlib.Omega.{arith}
use kernel_porting.Prelude.Tests.{ltb, leb, ◌==◌, if◌then◌else◌}

-- `negsuc n` is -(n + 1).
pub data ℤ : Type 0 where
  pos negsuc : ℕ → ℤ

abbrev pub pos_part : ℤ → ℕ
pos_part (pos n) = n
pos_part (negsuc n) = 0

abbrev pub neg_part : ℤ → ℕ
neg_part (pos n) = 0
neg_part (negsuc n) = suc n

abbrev pub sub_ℕ : ℕ → ℕ → ℤ
sub_ℕ a b = if leb b a then pos (a - b) else negsuc (b - a - 1)

infixl 65 ◌-ℤ◌
unfoldable pub ◌-ℤ◌ : ℤ → ℤ → ℤ
a -ℤ b = sub_ℕ (pos_part a + neg_part b) (neg_part a + pos_part b)

pub pos_sub-le : (a b : ℕ) → b ≤ a → pos a -ℤ pos b ≡ pos (a - b)
unfolding ◌-ℤ◌
pos_sub-le a b h = ground arith

pub pos_sub-lt : (a b : ℕ) → a < b → pos a -ℤ pos b ≡ negsuc (b - a - 1)
unfolding ◌-ℤ◌
pos_sub-lt a b h = ground arith

-- `0 <= a`
abbrev pub non_negative : ℤ → Bool
non_negative (pos n) = true
non_negative (negsuc n) = false

-- `a == 0`
abbrev pub is_zero : ℤ → Bool
is_zero (pos n) = n == 0
is_zero (negsuc n) = false

-- The `int` that has a 32-bit pattern, as an `int` variable holds it.
unfoldable pub int_of : ℕ → ℤ
int_of w = if ltb w (2 ^ 31) then pos w else negsuc (2 ^ 32 - 1 - w)

-- The sum of an `unsigned int` and an `int`, which is converted to an `unsigned int`.
unfoldable pub add_int : ℕ → ℤ → ℕ
add_int start (pos n) = (start + n) % 2 ^ 32
add_int start (negsuc n) = (start + (2 ^ 32 - 1 - n % 2 ^ 32)) % 2 ^ 32
