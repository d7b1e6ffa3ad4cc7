-- ===== src/Bitmap/Tests.antt =====
-- Runs of the searches and of the operations on whole bitmaps.
use kernel_porting.Prelude.{
  ℕ, ◌/◌, ◌%◌, ◌<◌, ◌≡◌, ◌↔◌, inr, true, false, not, ◌&&◌, if◌then◌else◌, ◌==◌, arith, some, refl,
  ltb, pos, ◌-ℤ◌, int_of, add_int, ◌^◌,
}
use kernel_porting.Bits.{testbit-ge}
use kernel_porting.Bits.Count.{tally}
use kernel_porting.Word.{bitmap_first_word_mask, bitmap_last_word_mask, ulong_max}
use kernel_porting.Bitops.Hweight.{hweight_long, __sw_hweight64, pairs, nibbles, bytes, fold}
use kernel_porting.Memory.{Memory, IsMemory, bit}
use kernel_porting.FindBit.{find_next_bit, find_last_bit}
use kernel_porting.FindBit.Next.{IsNext, find_next_bit-IsNext}
use kernel_porting.FindBit.Last.{IsLast, find_last_bit-IsLast}
use kernel_porting.Bitmap.{
  __bitmap_equal, __bitmap_complement, __bitmap_intersects, __bitmap_subset,
}
use kernel_porting.Bitmap.Store.{TailClear, complement_dirty}
use kernel_porting.Bitmap.Compare.{bitmap_tests}
use kernel_porting.Bitmap.Count.{
  weight_loop, weight_pattern, __bitmap_weight, __bitmap_weight-tally,
}
use kernel_porting.Bitmap.Range.{
  range_loop, range_update, __bitmap_set, IsRange, __bitmap_set-IsRange,
}

-- Bitmaps of two words at 0, 2 and 4; the last is clear.
abbrev words : Memory
words a =
    if a == 0
    then 0x8000000000000005
    else if a == 1
    then 6
    else if a == 2
    then 0xf
    else if a == 3
    then 2
    else 0

words-IsMemory : IsMemory words
words-IsMemory a = ground arith

find_next_bit-IsNext_example :
    (r : ℕ) × (find_next_bit words 0 70 3 ≡ some r) × IsNext (bit words 0) 70 3 r
find_next_bit-IsNext_example = find_next_bit-IsNext words words-IsMemory 0 70 (omega arith) 3

find_last_bit-IsLast_example : IsLast (bit words 0) 66 (find_last_bit words 0 66)
find_last_bit-IsLast_example = find_last_bit-IsLast words words-IsMemory 0 66 (omega arith)

words-TailClear : TailClear 0 70 words
words-TailClear i ge lt =
    let q : i / 64 ≡ 1 = omega arith in rw q (testbit-ge 3 6 (i % 64) (omega arith) (omega arith))

complement_dirty_example : ¬ TailClear 4 70 (__bitmap_complement 4 0 70 words)
complement_dirty_example =
    complement_dirty 4 0 70 words words-IsMemory (inr (omega arith)) (omega arith) words-TailClear

bitmap_tests_example :
    ((__bitmap_intersects 0 2 70 words ≡ false)
      ↔ ((i : ℕ) → i < 70 → (bit words 0 i && bit words 2 i) ≡ false))
    × ((__bitmap_subset 0 2 70 words ≡ true)
        ↔ ((i : ℕ) → i < 70 → (bit words 0 i && not (bit words 2 i)) ≡ false))
    × ((__bitmap_equal 0 2 70 words ≡ true) ↔ ((i : ℕ) → i < 70 → bit words 0 i ≡ bit words 2 i))
bitmap_tests_example = bitmap_tests 0 2 70 words words-IsMemory (omega arith)

__bitmap_weight-tally_example :
    __bitmap_weight 0 66 words
    ≡ (let n = tally (bit words 0) 66 in if ltb n (2 ^ 31) then pos n else pos n -ℤ pos (2 ^ 32))
__bitmap_weight-tally_example = __bitmap_weight-tally words words-IsMemory 0 66 (omega arith)

four_set : __bitmap_weight 0 66 words ≡ pos 4
unfolding __bitmap_weight weight_pattern weight_loop hweight_long __sw_hweight64 pairs nibbles bytes
    fold bitmap_last_word_mask int_of
four_set = refl

__bitmap_set-IsRange_example :
    (m : Memory) × (__bitmap_set 0 60 (pos 10) words ≡ some m) × IsRange 0 60 70 true words m
__bitmap_set-IsRange_example =
    __bitmap_set-IsRange 0 60 10 words words-IsMemory (omega arith) (omega arith)

-- `bitmap_set(map, 0, 0x80000040)` passes the length as an `int`, which is then negative: the loop is
-- skipped, and the mask of the last word is all that is set, in the first word.
negative_length :
    (m : Memory) × (__bitmap_set 0 0 (int_of 0x80000040) words ≡ some m)
    × (m 0 ≡ ulong_max)
    × (m 1 ≡ 6)
unfolding __bitmap_set range_update range_loop int_of add_int ◌-ℤ◌ bitmap_first_word_mask
    bitmap_last_word_mask
negative_length = (_, refl, refl, refl)
