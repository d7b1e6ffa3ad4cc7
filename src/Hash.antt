-- ===== src/Hash.antt =====
-- hash.h: hashing by multiplication with an odd number. No architecture header replaces the generic
-- functions, and BITS_PER_LONG is 64, so `hash_long` is `hash_64`.
mod Tests
use native.Mathlib.Nat.{mod-le}
use kernel_porting.Prelude.{
  ℕ, ◌+◌, ◌-◌, ◌*◌, ◌/◌, ◌%◌, ◌^◌, ◌≤◌, ◌<◌, ◌≡◌, ◌≢◌, ◌∙◌, sym, ap, arith, bit_xor,
}
use kernel_porting.Bits.{testbit, testbit-shr, testbit-ge, lt_of_bits}

abbrev pub golden_ratio_32 : ℕ
golden_ratio_32 = 0x61C88647

abbrev pub golden_ratio_64 : ℕ
golden_ratio_64 = 0x61C8864680B583EB

unfoldable pub __hash_32_generic : ℕ → ℕ
__hash_32_generic val = val * golden_ratio_32 % 2 ^ 32

unfoldable pub hash_32_generic : (val bits : ℕ) → ℕ
hash_32_generic val bits = __hash_32_generic val / 2 ^ (32 - bits)

unfoldable pub hash_64_generic : (val bits : ℕ) → ℕ
hash_64_generic val bits = val * golden_ratio_64 % 2 ^ 64 / 2 ^ (64 - bits) % 2 ^ 32

unfoldable pub hash_ptr : (ptr bits : ℕ) → ℕ
hash_ptr ptr bits = hash_64_generic ptr bits

unfoldable pub hash32_ptr : ℕ → ℕ
hash32_ptr val = bit_xor val (val / 2 ^ 32) % 2 ^ 32

-- The highest `b` bits of a word of `w` bits.
top_bits : (w b x : ℕ) → b ≤ w → x < 2 ^ w → x / 2 ^ (w - b) < 2 ^ b
top_bits w b x h fits =
    lt_of_bits b _ λ i ge. testbit-shr (w - b) x i ∙ testbit-ge w x (w - b + i) fits (omega arith)

-- For `bits` from 1 to 32, the results of `hash_32` and `hash_64` are below 2^bits, the number of
-- buckets of a table.
pub hash_lem :
    (val ptr bits : ℕ)
    → 0 < bits
    → bits ≤ 32
    → (hash_32_generic val bits < 2 ^ bits) × (hash_64_generic ptr bits < 2 ^ bits)
unfolding hash_32_generic hash_64_generic __hash_32_generic
hash_lem val ptr bits pos h =
    let top = top_bits 64 bits (ptr * golden_ratio_64 % 2 ^ 64) (omega arith) (omega arith) in
    (
      top_bits 32 bits _ h (omega arith),
      omega (arith, top, mod-le (ptr * golden_ratio_64 % 2 ^ 64 / 2 ^ (64 - bits)) (2 ^ 32)),
    )

-- The multiplications behind `hash_32` and `hash_64` map different values of their type to different
-- values, as their factors are odd.
pub products_distinct :
    (v w x y : ℕ)
    → v < 2 ^ 32
    → w < 2 ^ 32
    → v ≢ w
    → x < 2 ^ 64
    → y < 2 ^ 64
    → x ≢ y
    → (__hash_32_generic v ≢ __hash_32_generic w)
      × (x * golden_ratio_64 % 2 ^ 64 ≢ y * golden_ratio_64 % 2 ^ 64)
unfolding __hash_32_generic
products_distinct v w x y hv hw ne hx hy ne' = (λ e. ne (omega arith), λ e. ne' (omega arith))
