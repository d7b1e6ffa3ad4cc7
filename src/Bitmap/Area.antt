-- ===== src/Bitmap/Area.antt =====
-- `bitmap_find_next_zero_area_off` of bitmap.c and `bitmap_find_next_zero_area` of bitmap.h: finding
-- an aligned run of clear bits.
use kernel_porting.Prelude.{
  ℕ, zero, suc, ◌+◌, ◌-◌, ◌%◌, ◌^◌, bit_and, if◌then◌else◌, ltb, Option, none, some,
}
use kernel_porting.Word.{lnot}
use kernel_porting.Memory.{Memory}
use kernel_porting.FindBit.{find_next_bit, find_next_zero_bit}

infixl 5 ◌>>=◌
abbrev ◌>>=◌ : Option ℕ → (ℕ → Option ℕ) → Option ℕ
none >>= k = none
some x >>= k = k x

-- `__ALIGN_MASK(x, mask)` of kernel.h, in `unsigned long` arithmetic
unfoldable pub align_mask_up : ℕ → ℕ → ℕ
align_mask_up x mask = bit_and ((x + mask) % 2 ^ 64) (lnot mask)

-- The code from the label `again`; each round is one `goto`. `none` means that the fuel ran out.
unfoldable pub area_loop :
    (fuel : ℕ) → Memory → (map size start nr align_mask align_offset : ℕ) → Option ℕ
area_loop zero m map size start nr align_mask align_offset = none
area_loop (suc fuel) m map size start nr align_mask align_offset = do
  index ← find_next_zero_bit m map size start
  let aligned = align_mask_up ((index + align_offset) % 2 ^ 64) align_mask
  let index = (aligned + 2 ^ 64 - align_offset) % 2 ^ 64
  let end = (index + nr) % 2 ^ 64
  let search = find_next_bit m map end index >>= λ i.
      let again = area_loop fuel m map size (i + 1) nr align_mask align_offset in
      if ltb i end then again else some index
  if ltb size end then some end else search

-- Each round starts behind a bit of the bitmap, so `size + 2` rounds are enough.
unfoldable pub bitmap_find_next_zero_area_off :
    Memory → (map size start nr align_mask align_offset : ℕ) → Option ℕ
bitmap_find_next_zero_area_off m map size start nr align_mask align_offset =
    area_loop (size + 2) m map size start nr align_mask align_offset

unfoldable pub bitmap_find_next_zero_area : Memory → (map size start nr align_mask : ℕ) → Option ℕ
bitmap_find_next_zero_area m map size start nr align_mask =
    bitmap_find_next_zero_area_off m map size start nr align_mask 0
