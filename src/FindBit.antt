-- ===== src/FindBit.antt =====
-- find_bit.c, with the macros of asm-generic/bitops/find.h that stand in for `find_first_bit` and
-- `find_first_zero_bit`: searching a bit string for a set or a clear bit.
pub mod Next
pub mod Last
pub mod First
use kernel_porting.Prelude.{
  ℕ, zero, suc, ◌+◌, ◌-◌, ◌*◌, ◌/◌, ◌%◌, ◌^◌, min, Bool, Option, none, some, bit_and, bit_xor, ltb,
  leb, ◌==◌, if◌then◌else◌,
}
use kernel_porting.Word.{
  lnot, ulong_max, bits_per_long, bitmap_first_word_mask, bitmap_last_word_mask_long,
}
use kernel_porting.Memory.{Memory}
use kernel_porting.Bitops.Ffs.{__ffs, ffz}
use kernel_porting.Bitops.Fls.{__fls}

-- `round_down` of kernel.h.
unfoldable pub round_down : ℕ → ℕ → ℕ
round_down x y = bit_and x (lnot (y - 1))

-- The `while (!tmp)` loop and the `return` behind it. `start` is an `unsigned long` and wraps.
-- `none` means that the fuel ran out.
unfoldable pub find_loop : ℕ → Memory → (addr nbits invert start tmp : ℕ) → Option ℕ
find_loop zero m addr nbits invert start tmp = none
find_loop (suc fuel) m addr nbits invert start tmp =
    let next = (start + bits_per_long) % 2 ^ 64 in
    let rest =
      find_loop fuel m addr nbits invert next (bit_xor (m (addr + next / bits_per_long)) invert) in
    if tmp == 0
    then (if leb nbits next then some nbits else rest)
    else some (min (start + __ffs tmp) nbits)

-- A search of `nbits` bits looks at `nbits / 64 + 1` words at most.
unfoldable pub _find_next_bit : Memory → (addr nbits start invert : ℕ) → Option ℕ
_find_next_bit m addr nbits start invert =
    let first = bit_xor (m (addr + start / bits_per_long)) invert in
    let tmp = bit_and first (bitmap_first_word_mask start) in
    let search =
      find_loop (nbits / bits_per_long + 1) m addr nbits invert (round_down start bits_per_long)
        tmp in
    if leb nbits start then some nbits else search

unfoldable pub find_next_bit : Memory → (addr size offset : ℕ) → Option ℕ
find_next_bit m addr size offset = _find_next_bit m addr size offset 0

unfoldable pub find_next_zero_bit : Memory → (addr size offset : ℕ) → Option ℕ
find_next_zero_bit m addr size offset = _find_next_bit m addr size offset ulong_max

-- The macros of find.h: CONFIG_GENERIC_FIND_FIRST_BIT is not set.
unfoldable pub find_first_bit : Memory → (addr size : ℕ) → Option ℕ
find_first_bit m addr size = find_next_bit m addr size 0

unfoldable pub find_first_zero_bit : Memory → (addr size : ℕ) → Option ℕ
find_first_zero_bit m addr size = find_next_zero_bit m addr size 0

-- The loops of the functions of the same names, which find_bit.c has for the other configuration:
-- `skip` says that a word lacks the bit wanted, and `pick` finds it.
unfoldable pub first_loop :
    (skip : ℕ → Bool) → (pick : ℕ → ℕ) → ℕ → Memory → (addr size idx : ℕ) → Option ℕ
first_loop skip pick zero m addr size idx = none
first_loop skip pick (suc fuel) m addr size idx =
    let word = m (addr + idx) in
    let rest = first_loop skip pick fuel m addr size (idx + 1) in
    let base = idx * bits_per_long % 2 ^ 64 in
    let found = some (min (base + pick word) size) in
    if ltb base size then (if skip word then rest else found) else some size

unfoldable pub generic_find_first_bit : Memory → (addr size : ℕ) → Option ℕ
generic_find_first_bit m addr size =
    first_loop (λ word. word == 0) __ffs (size / bits_per_long + 2) m addr size 0

unfoldable pub generic_find_first_zero_bit : Memory → (addr size : ℕ) → Option ℕ
generic_find_first_zero_bit m addr size =
    first_loop (λ word. word == ulong_max) ffz (size / bits_per_long + 2) m addr size 0

-- The `do … while (idx--)` loop of `find_last_bit`.
unfoldable pub last_loop : Memory → (addr size idx val : ℕ) → ℕ
last_loop m addr size zero val =
    let val = bit_and val (m (addr + 0)) in if val == 0 then size else 0 * bits_per_long + __fls val
last_loop m addr size (suc idx) val =
    let val = bit_and val (m (addr + suc idx)) in
    let rest = last_loop m addr size idx ulong_max in
    if val == 0 then rest else suc idx * bits_per_long + __fls val

unfoldable pub find_last_bit : Memory → (addr size : ℕ) → ℕ
find_last_bit m addr size =
    if size == 0
    then size
    else last_loop m addr size ((size - 1) / bits_per_long) (bitmap_last_word_mask_long size)
