-- ===== src/Bitmap/Range.antt =====
-- `__bitmap_set` and `__bitmap_clear` of bitmap.c: setting and clearing a range of bits.
use native.Mathlib.Decide.{dec_le}
use kernel_porting.Prelude.{
  ℕ, zero, suc, ◌+◌, ◌-◌, ◌*◌, ◌/◌, ◌%◌, ◌^◌, ◌≤◌, ◌<◌, ◌≡◌, ◌⊎◌, ◌∙◌, refl, ap₂, inl, inr,
  Bool-cases, bit_and, bit_or, arith, ◌==◌, if◌then◌else◌, ◌&&◌, Bool, true, false, ltb, leb,
  Option, none, some, ℤ, pos, ◌-ℤ◌, pos_sub-le, pos_sub-lt, non_negative, is_zero, pos_part,
  add_int,
}
use kernel_porting.Bits.{
  testbit, testbit-bit_and, testbit-bit_or, testbit_ones, bit_and-lt, bit_or-lt,
}
use kernel_porting.Word.{
  lnot, ulong_max, bits_per_long, bit_word, bitmap_first_word_mask, bitmap_last_word_mask,
  testbit-last_mask, testbit-first_mask, first_mask-lt, testbit-lnot,
}
use kernel_porting.Memory.{Memory, write, write-IsMemory, IsMemory, bit}

-- The `while` loop and the `if (len)` behind it. `todo` is `bits_to_set`, `mask` is `mask_to_set` and
-- `op` the update of `*p`. `len` and `bits_to_set` are `int`. `none` means that the fuel ran out.
-- `len - bits_to_set` leaves the range of `int` only for a `len` below 64 - 2^31, where C leaves it
-- undefined.
unfoldable pub range_loop :
    (op : ℕ → ℕ → ℕ) → (fuel size p : ℕ) → (len todo : ℤ) → (mask : ℕ) → Memory → Option Memory
range_loop op zero size p len todo mask m = none
range_loop op (suc fuel) size p len todo mask m =
    let left = len -ℤ todo in
    let rest =
      range_loop op fuel size (p + 1) left (pos bits_per_long) ulong_max
        (write m p (op (m p) mask)) in
    let last = bit_and mask (bitmap_last_word_mask size) in
    if non_negative left
    then rest
    else if is_zero len
    then some m
    else some (write m p (op (m p) last))

-- A range of `len` bits takes `len / 64 + 2` rounds at most, and a negative `len` one. `size` is an
-- `unsigned int`.
unfoldable pub range_update : (ℕ → ℕ → ℕ) → (map start : ℕ) → (len : ℤ) → Memory → Option Memory
range_update op map start len m =
    range_loop op (pos_part len / bits_per_long + 2) (add_int start len) (map + bit_word start) len
      (pos (bits_per_long - start % bits_per_long)) (bitmap_first_word_mask start) m

unfoldable pub __bitmap_set : (map start : ℕ) → (len : ℤ) → Memory → Option Memory
__bitmap_set map start len m = range_update bit_or map start len m

unfoldable pub __bitmap_clear : (map start : ℕ) → (len : ℤ) → Memory → Option Memory
__bitmap_clear map start len m =
    range_update (λ word mask. bit_and word (lnot mask)) map start len m

-- `op` puts `v` where the mask is set and keeps the other bits.
record IsStamp (op : ℕ → ℕ → ℕ) (v : Bool) : Type 0 where
  each :
      (x mask i : ℕ)
      → mask < 2 ^ 64
      → i < 64
      → testbit (op x mask) i ≡ (if testbit mask i then v else testbit x i)
  fits : (x mask : ℕ) → x < 2 ^ 64 → mask < 2 ^ 64 → op x mask < 2 ^ 64

or-IsStamp : IsStamp bit_or true
or-IsStamp = record {
  each = λ x mask i h lt. ground (arith, testbit-bit_or i x mask);
  fits = λ x mask h g. bit_or-lt 64 x mask h g;
}

clear-IsStamp : IsStamp (λ word mask. bit_and word (lnot mask)) false
clear-IsStamp = record {
  each = λ x mask i h lt. ground (arith, testbit-bit_and i x (lnot mask), testbit-lnot mask i h);
  fits = λ x mask h g. bit_and-lt 64 x (lnot mask) h;
}

-- `m'` is `m` with the bits from `from` to `to - 1` of the bitmap at `map` made `v`; every other bit
-- of the bitmap and every word outside the range keep their value.
pub record IsRange (map from to : ℕ) (v : Bool) (m m' : Memory) : Type 0 where
  pub at : (j : ℕ) → bit m' map j ≡ (if leb from j && ltb j to then v else bit m map j)
  pub around : (a : ℕ) → (a < map + from / 64) ⊎ (map + (to + 63) / 64 ≤ a) → m' a ≡ m a
  pub words : IsMemory m'

module _ (op : ℕ → ℕ → ℕ) (v : Bool) (stamp : IsStamp op v) (map size : ℕ)
    (small : size < 2 ^ 32) where
  -- One word of the range: from `from` to `to`, within one word.
  stamp-IsRange :
      (m : Memory) (from to mask : ℕ)
      → IsMemory m
      → from < to
      → to ≤ from / 64 * 64 + 64
      → mask < 2 ^ 64
      → ((i : ℕ) → i < 64 → testbit mask i ≡ (leb (from % 64) i && ltb (from / 64 * 64 + i) to))
      → IsRange map from to v m (write m (map + from / 64) (op (m (map + from / 64)) mask))
  stamp-IsRange m from to mask words some_bits one_word fits bits =
      let p = map + from / 64 in
      record {
        at = λ j.
            let each = stamp.each (m p) mask (j % 64) fits (omega arith) in
            ground (arith, each, bits (j % 64));
        around = λ a h. ground arith;
        words = write-IsMemory m p _ words (stamp.fits _ _ (words p) fits);
      }

  IsRange-append :
      (from mid to : ℕ) (m m' m'' : Memory)
      → from ≤ mid
      → mid ≤ to
      → mid % 64 ≡ 0
      → IsRange map from mid v m m'
      → IsRange map mid to v m' m''
      → IsRange map from to v m m''
  IsRange-append from mid to m m' m'' h g even a b = record {
    at = λ j. ground (arith, a.at j, b.at j);
    around = λ c out. b.around c (omega arith) ∙ a.around c (omega arith);
    words = b.words;
  }

  range_loop-IsRange :
      (fuel from len mask : ℕ) (m : Memory)
      → IsMemory m
      → from + len ≡ size
      → from % 64 + len < 64 * fuel
      → mask < 2 ^ 64
      → ((i : ℕ) → i < 64 → testbit mask i ≡ leb (from % 64) i)
      → (m' : Memory) × (range_loop op fuel size
            (map + from / 64)
            (pos len)
            (pos (64 - from % 64))
            mask
            m
          ≡ some m')
        × IsRange map from size v m m'
  unfolding range_loop
  range_loop-IsRange zero from len mask m words e enough fits bits = absurd (omega arith)
  range_loop-IsRange (suc fuel) from len mask m words e enough fits bits =
      elim (dec_le (64 - from % 64) len) [
        | yes more ↦
            let next = from / 64 * 64 + 64 in
            let m1 = write m (map + from / 64) (op (m (map + from / 64)) mask) in
            let one : IsRange map from next v m m1 =
              stamp-IsRange m from next mask words (omega arith) (omega arith) fits
                (λ i lt. ground (arith, bits i)) in
            let pointer : map + from / 64 + 1 ≡ map + next / 64 = omega arith in
            let todo : 64 ≡ 64 - next % 64 = omega arith in
            let (m', run, rest) =
              range_loop-IsRange fuel next (len - (64 - from % 64)) ulong_max m1 one.words
                (ground arith) (ground arith) (omega arith)
                (λ i lt. ground (arith, testbit_ones 64 i)) in
            (
              m',
              rw (pos_sub-le len (64 - from % 64) more) (
                  ap₂
                    (λ p t.
                      range_loop op fuel size p (pos (len - (64 - from % 64))) (pos t) ulong_max m1)
                    pointer todo
                  ∙ run),
              IsRange-append from next size m m1 m' (omega arith) (ground arith) (omega arith) one
                  rest,
            )
        | no done ↦ elim (Bool-cases (len == 0)) [
          | inl empty ↦ (
            m,
            rw (pos_sub-lt len (64 - from % 64) (omega arith), empty),
            record { at = λ j. ground arith; around = λ a out. refl; words = words },
          )
          | inr some_left ↦
              let cut = bit_and mask (bitmap_last_word_mask size) in
              let ends : size % 64 ≡ from % 64 + len = ground arith in
              (
                write m (map + from / 64) (op (m (map + from / 64)) cut),
                rw (pos_sub-lt len (64 - from % 64) (omega arith), some_left),
                stamp-IsRange m from size cut words (ground arith) (ground arith)
                    (bit_and-lt 64 mask _ fits)
                    (λ i lt. ground (
                      arith,
                      testbit-bit_and i mask (bitmap_last_word_mask size),
                      testbit-last_mask size i small,
                      bits i,
                    )),
              )
        ]
      ]

range_update-IsRange :
    (op : ℕ → ℕ → ℕ) (v : Bool)
    → IsStamp op v
    → (map start len : ℕ) (m : Memory) → IsMemory m
    → len < 2 ^ 31
    → start + len < 2 ^ 32
    → (m' : Memory) × (range_update op map start (pos len) m ≡ some m')
      × IsRange map start (start + len) v m m'
unfolding range_update add_int
range_update-IsRange op v stamp map start len m words small room =
    let size : (start + len) % 2 ^ 32 ≡ start + len = omega arith in
    rw size (
      range_loop-IsRange op v stamp map (start + len) room (len / 64 + 2) start len
        (bitmap_first_word_mask start) m words refl (omega arith) (first_mask-lt start)
        (λ i lt. ground (arith, testbit-first_mask start i)))

module _ (map start len : ℕ) (m : Memory) (words : IsMemory m) (small : len < 2 ^ 31)
    (room : start + len < 2 ^ 32) where
  -- For a length below 2^31, so that it is no negative `int`, and a range whose end `start + len` fits
  -- an `unsigned int`, `__bitmap_set` ends and sets exactly the bits from
  -- `start` to `start + len - 1`: all other bits and all words outside the range keep their value.
  pub __bitmap_set-IsRange :
      (m' : Memory) × (__bitmap_set map start (pos len) m ≡ some m')
      × IsRange map start (start + len) true m m'
  unfolding __bitmap_set
  __bitmap_set-IsRange =
      range_update-IsRange bit_or true or-IsStamp map start len m words small room

  -- For a length below 2^31, so that it is no negative `int`, and a range whose end `start + len` fits
  -- an `unsigned int`, `__bitmap_clear` ends and clears exactly the bits from
  -- `start` to `start + len - 1`: all other bits and all words outside the range keep their value.
  pub __bitmap_clear-IsRange :
      (m' : Memory) × (__bitmap_clear map start (pos len) m ≡ some m')
      × IsRange map start (start + len) false m m'
  unfolding __bitmap_clear
  __bitmap_clear-IsRange =
      range_update-IsRange (λ word mask. bit_and word (lnot mask)) false clear-IsStamp map start len
        m words small room
