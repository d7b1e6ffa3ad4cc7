-- ===== src/Bitmap/Compare.antt =====
-- `__bitmap_equal`, `__bitmap_intersects` and `__bitmap_subset` decide what their names say.
use kernel_porting.Prelude.{
  ℕ, ◌+◌, ◌*◌, ◌/◌, ◌%◌, ◌^◌, ◌<◌, ◌≡◌, ◌≢◌, ◌↔◌, ◌⊎◌, ◌∙◌, refl, inl, inr, dec_lt, Bool, true,
  false, Bool-cases, bit_and, bit_xor, arith, ltb, ◌==◌, if◌then◌else◌, ◌&&◌, ap, sym, not, xor,
}
use kernel_porting.Bits.{
  testbit, testbit-zero, testbit-bit_and, testbit-bit_xor, testbit_ext, bit_and-lt,
}
use kernel_porting.Word.{bitmap_last_word_mask, testbit-last_mask}
use kernel_porting.Memory.{Memory, IsMemory, bit}
use kernel_porting.Bitmap.{
  test_loop, andnot, differs, __bitmap_equal, __bitmap_intersects, __bitmap_subset,
}
use kernel_porting.Bitmap.Loops.{test_loop_lem}
use kernel_porting.Bitmap.Pointwise.{
  IsBitwise, and-IsBitwise, xor-IsBitwise, andnot-IsBitwise, zero_iff, words_zero_iff,
}

module _ (f : ℕ → ℕ → ℕ) (g : Bool → Bool → Bool) (op : IsBitwise f g) (p q bits : ℕ) (m : Memory)
    (words : IsMemory m) (small : bits < 2 ^ 32) where
  abbrev lim : ℕ
  lim = bits / 64

  abbrev value : ℕ → ℕ
  value k = f (m (p + k)) (m (q + k))

  abbrev last : ℕ
  last = bit_and (value lim) (bitmap_last_word_mask bits)

  value-lt : (k : ℕ) → value k < 2 ^ 64
  value-lt k = op.fits _ _ (words (p + k)) (words (q + k))

  value-bit : (i : ℕ) → testbit (value (i / 64)) (i % 64) ≡ g (bit m p i) (bit m q i)
  value-bit i = op.each _ _ (i % 64) (words (p + i / 64)) (words (q + i / 64)) (omega arith)

  last_bit : bits % 64 ≢ 0 → (i : ℕ) → testbit last i ≡ (testbit (value lim) i && ltb i (bits % 64))
  last_bit odd i =
      testbit-bit_and i (value lim) (bitmap_last_word_mask bits)
      ∙ ap (λ b. testbit (value lim) i && b) (testbit-last_mask bits i small)
      ∙ ground arith

  -- The words that are tested are zero exactly when `g` is false at every bit.
  pub tested_iff :
      (((j : ℕ) → j < lim → value j ≡ 0) × ((bits % 64 ≡ 0) ⊎ (last ≡ 0)))
      ↔ ((i : ℕ) → i < bits → g (bit m p i) (bit m q i) ≡ false)
  tested_iff =
      let by_bits = words_zero_iff value lim value-lt in
      let in_last = zero_iff last (bit_and-lt 64 _ _ (value-lt lim)) in
      (
        λ (whole, rest) i lt. elim (dec_lt i (lim * 64)) [
          | yes early ↦ sym (value-bit i) ∙ by_bits.0 whole i early
          | no late ↦
              let q : i / 64 ≡ lim = omega arith in
              let odd : bits % 64 ≢ 0 = omega arith in
              let none : last ≡ 0 = omega arith in
              let here = rw q at (value-bit i) in
              ground (arith, here, last_bit odd (i % 64), in_last.0 none (i % 64))
        ],
        λ off. (
          by_bits.1 λ i lt. value-bit i ∙ off i (omega arith),
          elim (dec_lt 0 (bits % 64)) [
            | no even ↦ inl (omega arith)
            | yes odd ↦ inr (
                in_last.1 λ j lt. elim (dec_lt j (bits % 64)) [
                  | yes inside ↦
                      let q : (lim * 64 + j) / 64 ≡ lim = omega arith in
                      let r : (lim * 64 + j) % 64 ≡ j = omega arith in
                      let here = rw (q, r) at (value-bit (lim * 64 + j)) in
                      let none = rw (q, r) at (off (lim * 64 + j) (omega arith)) in
                      ground (arith, last_bit (omega arith) j, here, none)
                  | no beyond ↦ ground (arith, last_bit (omega arith) j)
                ])
          ],
        ),
      )

bit_xor-zero : (a b : ℕ) → (bit_xor a b ≡ 0) ↔ (a ≡ b)
unfolding xor
bit_xor-zero a b = (
  λ e.
      testbit_ext a b
        λ i. ground (arith, testbit-bit_xor i a b, ap (λ w. testbit w i) e, testbit-zero i),
  λ e.
      rw e (testbit_ext (bit_xor b b) 0 λ i. ground (arith, testbit-bit_xor i b b, testbit-zero i)),
)

differs_iff : (a b : ℕ) → (differs a b ≡ 0) ↔ (bit_xor a b ≡ 0)
differs_iff a b = (
  λ e. (bit_xor-zero a b).1 (ground arith),
  λ e. let same = (bit_xor-zero a b).0 e in ground arith,
)

-- The common shape of the three functions: whether the loop returned or the last word says so.
abbrev found : Bool → ℕ → ℕ → Bool
found early bits last = if early then true else if bits % 64 == 0 then false else not (last == 0)

found_iff :
    (early : Bool) (bits last : ℕ)
    → (found early bits last ≡ false) ↔ ((early ≡ false) × ((bits % 64 ≡ 0) ⊎ (last ≡ 0)))
found_iff true bits last = ground arith
found_iff false bits last = elim (Bool-cases (bits % 64 == 0)) [
  | inl even ↦ rw even (λ e. (refl, inl (ground arith)), λ h. refl)
  | inr odd ↦ rw odd (
    λ e. (refl, inr (ground arith)),
    λ (e, h). let none : last ≡ 0 = ground arith in ground arith,
  )
]

loop_iff :
    (f : ℕ → ℕ → ℕ) (p q n : ℕ) (m : Memory)
    → (test_loop f n 0 p q m ≡ false) ↔ ((j : ℕ) → j < n → f (m (p + j)) (m (q + j)) ≡ 0)
loop_iff f p q n m =
    let all = test_loop_lem f p q m n 0 in
    (λ e j lt. all.0 e j (omega arith) (omega arith), λ h. all.1 λ j ge lt. h j (omega arith))

module _ (p q bits : ℕ) (m : Memory) (words : IsMemory m) (small : bits < 2 ^ 32) where
  -- For a size that fits an `unsigned int`: `__bitmap_intersects` is false exactly when no position
  -- below `bits` is set in both bitmaps, `__bitmap_subset` is true exactly when each position set in
  -- the first is set in the second, and `__bitmap_equal` is true exactly when the bitmaps agree at
  -- each position. The unused bits of the last words play no part.
  pub bitmap_tests :
      ((__bitmap_intersects p q bits m ≡ false)
        ↔ ((i : ℕ) → i < bits → (bit m p i && bit m q i) ≡ false))
      × ((__bitmap_subset p q bits m ≡ true)
          ↔ ((i : ℕ) → i < bits → (bit m p i && not (bit m q i)) ≡ false))
      × ((__bitmap_equal p q bits m ≡ true) ↔ ((i : ℕ) → i < bits → bit m p i ≡ bit m q i))
  unfolding __bitmap_intersects __bitmap_subset __bitmap_equal xor
  bitmap_tests =
      let lim = bits / 64 in
      let meet = tested_iff bit_and _ and-IsBitwise p q bits m words small in
      let minus = tested_iff andnot _ andnot-IsBitwise p q bits m words small in
      let diff = tested_iff bit_xor _ xor-IsBitwise p q bits m words small in
      let both = found_iff (test_loop bit_and lim 0 p q m) bits _ in
      let only = found_iff (test_loop andnot lim 0 p q m) bits _ in
      let apart = found_iff (test_loop differs lim 0 p q m) bits _ in
      let same = loop_iff differs p q lim m in
      (
        (
          λ e. let (loop, rest) = both.0 e in meet.0 ((loop_iff bit_and p q lim m).0 loop, rest),
          λ off.
              let (whole, rest) = meet.1 off in both.1 ((loop_iff bit_and p q lim m).1 whole, rest),
        ),
        (
          λ e.
              let (loop, rest) = only.0 (ground arith) in
              minus.0 ((loop_iff andnot p q lim m).0 loop, rest),
          λ off.
              let (whole, rest) = minus.1 off in
              let none = only.1 ((loop_iff andnot p q lim m).1 whole, rest) in ground arith,
        ),
        (
          λ e.
              let (loop, rest) = apart.0 (ground arith) in
              let off = diff.0 (λ j lt. (differs_iff _ _).0 (same.0 loop j lt), rest) in
              λ i lt. ground (arith, off i lt),
          λ agree.
              let (whole, rest) = diff.1 (λ i lt. ground (arith, agree i lt)) in
              let none = apart.1 (same.1 (λ j lt. (differs_iff _ _).1 (whole j lt)), rest) in
              ground arith,
        ),
      )
