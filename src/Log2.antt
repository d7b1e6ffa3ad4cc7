-- ===== src/Log2.antt =====
-- log2.h: logarithms and powers of two. An `int` is its 32-bit pattern. `known` stands for
-- `__builtin_constant_p(n)`: whether the compiler knows the argument.
pub mod Laws
pub mod Powers
mod Tests
use kernel_porting.Prelude.{
  ℕ, zero, suc, ◌+◌, ◌-◌, ◌*◌, ◌/◌, ◌%◌, ◌^◌, Bool, true, false, not, ◌&&◌, ◌||◌, bit_and, ltb,
  ◌==◌, if◌then◌else◌,
}
use kernel_porting.Word.{shl}
use kernel_porting.Bitops.Fls.{fls, fls64, fls_long}

-- `x - 1` on 32 and on 64 bits
abbrev pub pred_int : ℕ → ℕ
pred_int x = (x + 2 ^ 32 - 1) % 2 ^ 32

abbrev pub pred_long : ℕ → ℕ
pred_long x = (x + 2 ^ 64 - 1) % 2 ^ 64

unfoldable pub __ilog2_u32 : ℕ → ℕ
__ilog2_u32 n = pred_int (fls n)

unfoldable pub __ilog2_u64 : ℕ → ℕ
__ilog2_u64 n = pred_int (fls64 n)

unfoldable pub is_power_of_2 : ℕ → Bool
is_power_of_2 n = not (n == 0) && (bit_and n (pred_long n) == 0)

unfoldable pub __roundup_pow_of_two : ℕ → ℕ
__roundup_pow_of_two n = shl 1 (fls_long (pred_long n))

unfoldable pub __rounddown_pow_of_two : ℕ → ℕ
__rounddown_pow_of_two n = shl 1 (pred_int (fls_long n))

-- The conditionals of `ilog2` from `(n) & (1ULL << k + 1) ? k + 1` down to `(n) & (1ULL << 2) ? 2 : 1`.
unfoldable pub ilog2_chain : ℕ → ℕ → ℕ
ilog2_chain zero n = 1
ilog2_chain (suc k) n =
    let rest = ilog2_chain k n in if bit_and n (2 ^ (k + 2)) == 0 then rest else k + 2

-- `wide` stands for `sizeof(n) > 4`.
unfoldable pub ilog2 : (known wide : Bool) → ℕ → ℕ
ilog2 known wide n =
    if known
    then (if ltb n 2 then 0 else ilog2_chain 62 n)
    else if wide
    then __ilog2_u64 n
    else __ilog2_u32 n

-- `n` is an `unsigned long` in these macros.
unfoldable pub roundup_pow_of_two : (known : Bool) → ℕ → ℕ
roundup_pow_of_two known n =
    if known
    then (if n == 1 then 1 else shl 1 (ilog2 true true (pred_long n) + 1))
    else __roundup_pow_of_two n

unfoldable pub rounddown_pow_of_two : (known : Bool) → ℕ → ℕ
rounddown_pow_of_two known n = if known then shl 1 (ilog2 true true n) else __rounddown_pow_of_two n

unfoldable pub __order_base_2 : ℕ → ℕ
__order_base_2 n = if ltb 1 n then ilog2 false true (pred_long n) + 1 else 0

unfoldable pub order_base_2 : (known : Bool) → ℕ → ℕ
order_base_2 known n =
    if known
    then (if (n == 0) || (n == 1) then 0 else ilog2 true true (pred_long n) + 1)
    else __order_base_2 n
