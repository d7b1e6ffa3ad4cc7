-- ===== src/Word.antt =====
-- `unsigned long` and the C operators on it, with the macros of bitops.h and bitmap.h that make
-- masks. porting.h defines CONFIG_64BIT, so asm-generic/bitsperlong.h sets BITS_PER_LONG to 64.
use kernel_porting.Prelude.{
  ℕ, ◌+◌, ◌-◌, ◌*◌, ◌/◌, ◌%◌, ◌^◌, ◌<◌, ◌≡◌, not, ◌&&◌, bit_and, arith, ltb, leb, ◌==◌,
}
use kernel_porting.Bits.{
  testbit, testbit-shl, testbit-shr, testbit-mod, testbit-not, testbit_ones, bit_and_ones,
}

abbrev pub bits_per_long : ℕ
bits_per_long = 64

abbrev pub ulong_max : ℕ
ulong_max = 2 ^ 64 - 1

-- `~x`, for `x` below 2^64
abbrev pub lnot : ℕ → ℕ
lnot x = ulong_max - x

-- `x << k` and `x >> k`, for `k` below 64
abbrev pub shl : ℕ → ℕ → ℕ
shl x k = x * 2 ^ k % 2 ^ 64

abbrev pub shr : ℕ → ℕ → ℕ
shr x k = x / 2 ^ k

unfoldable pub bit_mask : ℕ → ℕ
bit_mask nr = shl 1 (nr % bits_per_long)

abbrev pub bit_word : ℕ → ℕ
bit_word nr = nr / bits_per_long

abbrev pub bits_to_longs : ℕ → ℕ
bits_to_longs nr = (nr + bits_per_long - 1) / bits_per_long

unfoldable pub bitmap_first_word_mask : ℕ → ℕ
bitmap_first_word_mask start = shl ulong_max (bit_and start (bits_per_long - 1))

-- `nbits` is an `unsigned int` here, so its negation wraps at 2^32.
unfoldable pub bitmap_last_word_mask : ℕ → ℕ
bitmap_last_word_mask nbits =
    shr ulong_max (bit_and ((2 ^ 32 - nbits) % 2 ^ 32) (bits_per_long - 1))

-- The same macro at an `unsigned long`, as find_last_bit uses it.
unfoldable pub bitmap_last_word_mask_long : ℕ → ℕ
bitmap_last_word_mask_long nbits =
    shr ulong_max (bit_and ((2 ^ 64 - nbits) % 2 ^ 64) (bits_per_long - 1))

pub bit_and_63 : (x : ℕ) → bit_and x 63 ≡ x % 64
bit_and_63 x = bit_and_ones 6 x

pub testbit-lnot : (x i : ℕ) → x < 2 ^ 64 → testbit (lnot x) i ≡ (ltb i 64 && not (testbit x i))
testbit-lnot x i h = testbit-not 64 x i h

pub testbit-bit_mask : (nr i : ℕ) → testbit (bit_mask nr) i ≡ (i == nr % 64)
unfolding bit_mask
testbit-bit_mask nr i = rw (testbit-mod, testbit-shl, testbit_ones 1) (ground arith)

pub bit_mask-lt : (nr : ℕ) → bit_mask nr < 2 ^ 64
unfolding bit_mask
bit_mask-lt nr = omega arith

pub testbit-first_mask :
    (s i : ℕ) → testbit (bitmap_first_word_mask s) i ≡ (leb (s % 64) i && ltb i 64)
unfolding bitmap_first_word_mask
testbit-first_mask s i = rw (bit_and_63 s, testbit-mod, testbit-shl, testbit_ones 64) (ground arith)

pub first_mask-lt : (s : ℕ) → bitmap_first_word_mask s < 2 ^ 64
unfolding bitmap_first_word_mask
first_mask-lt s = omega arith

-- The number of bits that the last word holds of a bitmap with `nbits` bits.
abbrev pub last_bits : ℕ → ℕ
last_bits nbits = 64 - (64 - nbits % 64) % 64

pub testbit-last_mask :
    (n i : ℕ) → n < 2 ^ 32 → testbit (bitmap_last_word_mask n) i ≡ ltb i (last_bits n)
unfolding bitmap_last_word_mask
testbit-last_mask n i h = rw (bit_and_63, testbit-shr, testbit_ones 64) (ground arith)

pub testbit-last_mask_long :
    (n i : ℕ) → n < 2 ^ 64 → testbit (bitmap_last_word_mask_long n) i ≡ ltb i (last_bits n)
unfolding bitmap_last_word_mask_long
testbit-last_mask_long n i h = rw (bit_and_63, testbit-shr, testbit_ones 64) (ground arith)
