-- ===== src/Bitmap/Count.antt =====
-- `__bitmap_weight` of bitmap.c: how many bits of a bitmap are set.
use native.Mathlib.Nat.{mod-lt, one-le-pow, div-eq_of_lt}
use kernel_porting.Prelude.{
  ℕ, zero, suc, ◌+◌, ◌-◌, ◌*◌, ◌/◌, ◌%◌, ◌^◌, ◌≤◌, ◌<◌, ◌≡◌, ◌≢◌, ◌∙◌, refl, sym, ap, inl, inr,
  Bool-cases, bit_and, arith, ◌==◌, if◌then◌else◌, ℤ, pos, ◌-ℤ◌, int_of, ltb,
}
use kernel_porting.Bits.{
  testbit, testbit-shr, testbit-bit_and, bit_and-lt, testbit-mod, testbit_ext,
}
use kernel_porting.Bits.Count.{count, count-le, count-add, count-mod, count-zero, tally}
use kernel_porting.Word.{bits_per_long, bitmap_last_word_mask, testbit-last_mask}
use kernel_porting.Memory.{Memory, IsMemory, bit}
use kernel_porting.Bitops.Hweight.{hweight_long, __sw_hweight64}
use kernel_porting.Bitops.Hweight.Laws.{__sw_hweight64-count}

-- `for (; left rounds; k++) w += hweight_long(bitmap[k]);`. The sum is an `unsigned long` that is
-- converted to the `int` `w`: here `w` is the 32-bit pattern, which the sign does not change.
unfoldable pub weight_loop : (left k p w : ℕ) → Memory → ℕ
weight_loop zero k p w m = w
weight_loop (suc left) k p w m =
    weight_loop left (k + 1) p ((w + hweight_long (m (p + k))) % 2 ^ 32) m

-- The 32-bit pattern of `w` at its `return`.
unfoldable pub weight_pattern : (p bits : ℕ) → Memory → ℕ
weight_pattern p bits m =
    let lim = bits / bits_per_long in
    let w = weight_loop lim 0 p 0 m in
    let last = hweight_long (bit_and (m (p + lim)) (bitmap_last_word_mask bits)) in
    if bits % bits_per_long == 0 then w else (w + last) % 2 ^ 32

-- The result is the `int` that has this pattern: it is negative from 2^31 on.
unfoldable pub __bitmap_weight : (p bits : ℕ) → Memory → ℤ
__bitmap_weight p bits m = int_of (weight_pattern p bits m)

count-one : (x : ℕ) → count 1 x ≡ x % 2
unfolding count
count-one x = omega arith

pub bit_value : (k x : ℕ) → (if testbit x k then 1 else 0) ≡ x / 2 ^ k % 2
unfolding testbit
bit_value k x = let e : k + 0 ≡ k = omega arith in ground (arith, rw e at (testbit-shr k x 0))

-- The bits of one word, counted one at a time behind the words before it.
tally-word :
    (m : Memory) (p k n : ℕ)
    → n ≤ 64
    → tally (bit m p) (k * 64 + n) ≡ tally (bit m p) (k * 64) + count n (m (p + k))
unfolding tally count
tally-word m p k zero h = let e : k * 64 + 0 ≡ k * 64 = omega arith in rw e (omega arith)
tally-word m p k (suc n) h =
    let e : k * 64 + suc n ≡ suc (k * 64 + n) = omega arith in
    let q : (k * 64 + n) / 64 ≡ k = omega arith in
    let r : (k * 64 + n) % 64 ≡ n = omega arith in
    let split : count (n + 1) (m (p + k)) ≡ count n (m (p + k)) + m (p + k) / 2 ^ n % 2 =
      count-add n 1 (m (p + k)) ∙ ap (λ c. count n (m (p + k)) + c) (count-one _) in
    let next : n + 1 ≡ suc n = omega arith in
    rw (e, q, r)
      (omega (arith, tally-word m p k n (omega arith), bit_value n (m (p + k)), rw next at split))

module _ (m : Memory) (words : IsMemory m) (p : ℕ) where
  tally-le : (n : ℕ) → tally (bit m p) n ≤ n
  unfolding tally
  tally-le zero = omega arith
  tally-le (suc n) = ground (arith, tally-le n)

  weight_loop-tally :
      (left k w : ℕ)
      → (k + left) * 64 < 2 ^ 32
      → w ≡ tally (bit m p) (k * 64)
      → weight_loop left k p w m ≡ tally (bit m p) ((k + left) * 64)
  unfolding weight_loop hweight_long
  weight_loop-tally zero k w room h = let e : k + 0 ≡ k = omega arith in rw e h
  weight_loop-tally (suc left) k w room h =
      let x = m (p + k) in
      let next : k * 64 + 64 ≡ (k + 1) * 64 = omega arith in
      let step = rw next at (tally-word m p k 64 (omega arith)) in
      let counted = __sw_hweight64-count x (words (p + k)) in
      let e : k + suc left ≡ k + 1 + left = omega arith in
      rw e (
        weight_loop-tally left (k + 1) ((w + __sw_hweight64 x) % 2 ^ 32) (omega arith)
          (omega (arith, step, counted, tally-le (k * 64), count-le 64 x)))

  -- Masking a word to its low bits counts just these.
  count-masked :
      (bits x : ℕ)
      → x < 2 ^ 64
      → bits < 2 ^ 32
      → bits % 64 ≢ 0
      → count 64 (bit_and x (bitmap_last_word_mask bits)) ≡ count (bits % 64) x
  count-masked bits x h small odd =
      let r = bits % 64 in
      let cut : bit_and x (bitmap_last_word_mask bits) ≡ x % 2 ^ r = testbit_ext _ _ λ i. ground (
        arith,
        testbit-bit_and i x (bitmap_last_word_mask bits),
        testbit-last_mask bits i small,
        testbit-mod r x i,
      ) in
      let parts : r + (64 - r) ≡ 64 = omega arith in
      let lows = rw parts at (count-add r (64 - r) (x % 2 ^ r)) in
      let high : x % 2 ^ r / 2 ^ r ≡ 0 = div-eq_of_lt (mod-lt x (one-le-pow r 2 (omega arith))) in
      rw cut (omega (arith, rw high at lows, count-mod r x, count-zero (64 - r)))

  weight_pattern-tally : (bits : ℕ) → bits < 2 ^ 32 → weight_pattern p bits m ≡ tally (bit m p) bits
  unfolding weight_pattern hweight_long
  weight_pattern-tally bits small =
      let lim = bits / 64 in
      let r = bits % 64 in
      let x = m (p + lim) in
      let start : 0 + lim ≡ lim = omega arith in
      let whole : weight_loop lim 0 p 0 m ≡ tally (bit m p) (lim * 64) =
        rw start at (weight_loop-tally lim 0 0 (omega arith) (unfold tally in refl)) in
      let parts : lim * 64 + r ≡ bits = omega arith in
      elim (Bool-cases (r == 0)) [
        | inl even ↦
            let all : bits ≡ lim * 64 = ground arith in
            rw even (whole ∙ ap (tally (bit m p)) (sym all))
        | inr odd ↦
            let ne : r ≢ 0 = ground arith in
            let masked = bit_and x (bitmap_last_word_mask bits) in
            let counted =
              __sw_hweight64-count masked (bit_and-lt 64 _ _ (words (p + lim)))
              ∙ count-masked bits x (words (p + lim)) small ne in
            let rest = rw parts at (tally-word m p lim r (omega arith)) in
            rw odd (omega (arith, whole, counted, rest, tally-le bits))
      ]

  -- For a size that fits an `unsigned int`, the `int` that `__bitmap_weight` returns is the number of
  -- positions below `bits` whose bit is set while this is below 2^31, and is that number less 2^32,
  -- which is negative, when 2^31 bits or more are set.
  pub __bitmap_weight-tally :
      (bits : ℕ)
      → bits < 2 ^ 32
      → let n = tally (bit m p) bits in
        __bitmap_weight p bits m ≡ (if ltb n (2 ^ 31) then pos n else pos n -ℤ pos (2 ^ 32))
  unfolding __bitmap_weight int_of ◌-ℤ◌
  __bitmap_weight-tally bits small =
      rw (weight_pattern-tally bits small) (ground (arith, tally-le bits))
