-- ===== src/Bitmap/Masked.antt =====
-- The body that `__bitmap_and` and `__bitmap_andnot` share, bit by bit: the words it stores, the
-- masked last word and the result.
use kernel_porting.Prelude.{
  ℕ, ◌+◌, ◌*◌, ◌/◌, ◌%◌, ◌^◌, ◌≤◌, ◌<◌, ◌≡◌, ◌≢◌, ◌↔◌, ◌∙◌, inl, inr, dec_lt, Bool, false,
  Bool-cases, bit_and, bit_or, arith, ltb, ◌==◌, ==_iff, ◌&&◌, ap, ap₂, sym,
}
use kernel_porting.Bits.{testbit, testbit-bit_and, bit_and-lt}
use kernel_porting.Word.{bits_to_longs, bitmap_last_word_mask, testbit-last_mask}
use kernel_porting.Memory.{Memory, write, IsMemory, bit}
use kernel_porting.Bitmap.{Outcome, store_or_loop, store_masked}
use kernel_porting.Bitmap.Loops.{CanOverlap, IsStored, store_or_loop_lem, bit_or-zero}
use kernel_porting.Bitmap.Pointwise.{IsBitwise, zero_iff, words_zero_iff, IsPointwise, stored_bit}

-- The outcome of a masked operation: pointwise on the bitmap, the unused bits of the last word
-- clear, and a result that is zero exactly when all bits of the bitmap are.
pub record IsMasked (g : Bool → Bool → Bool) (dst p q bits : ℕ) (m : Memory) (o : Outcome)
    : Type 0 where
  pub pointwise : IsPointwise g dst p q bits m o.memory
  pub tail : (i : ℕ) → bits ≤ i → i < bits_to_longs bits * 64 → bit o.memory dst i ≡ false
  pub zero_result : (o.result ≡ 0) ↔ ((i : ℕ) → i < bits → g (bit m p i) (bit m q i) ≡ false)

module _ (f : ℕ → ℕ → ℕ) (g : Bool → Bool → Bool) (op : IsBitwise f g) (dst p q bits : ℕ)
    (m : Memory) (words : IsMemory m) (over_p : CanOverlap dst p (bits_to_longs bits))
    (over_q : CanOverlap dst q (bits_to_longs bits)) where
  abbrev lim : ℕ
  lim = bits / 64

  abbrev value : ℕ → ℕ
  value k = f (m (p + k)) (m (q + k))

  value-lt : (k : ℕ) → value k < 2 ^ 64
  value-lt k = op.fits _ _ (words (p + k)) (words (q + k))

  value-bit : (i : ℕ) → testbit (value (i / 64)) (i % 64) ≡ g (bit m p i) (bit m q i)
  value-bit i = op.each _ _ (i % 64) (words (p + i / 64)) (words (q + i / 64)) (omega arith)

  -- the outcome of the loop over the whole words
  abbrev whole : Outcome
  whole = store_or_loop f lim 0 dst p q (record { memory = m; result = 0 })

  whole_lem :
      IsStored f lim dst p q m whole.memory
      × ((whole.result ≡ 0) ↔ ((i : ℕ) → i < lim * 64 → g (bit m p i) (bit m q i) ≡ false))
  whole_lem =
      let (is, zeros) =
        store_or_loop_lem f dst p q lim (omega (arith, over_p)) (omega (arith, over_q)) m in
      let by_bits = words_zero_iff value lim value-lt in
      (
        is,
        (
          λ e i lt. sym (value-bit i) ∙ by_bits.0 (zeros.0 e) i lt,
          λ off. zeros.1 (by_bits.1 λ i lt. value-bit i ∙ off i lt),
        ),
      )

  whole-IsMasked : bits % 64 ≡ 0 → IsMasked g dst p q bits m whole
  whole-IsMasked even =
      let (is, zeros) = whole_lem in
      record {
        pointwise = record {
          at =
              λ i lt. stored_bit f g op dst p q bits m words over_p over_q lim _ i is (omega arith);
          around = λ a h. is.around a (omega arith);
        };
        tail = λ i ge lt. absurd (omega arith);
        zero_result =
            (λ e i lt. zeros.0 e i (omega arith), λ off. zeros.1 λ i lt. off i (omega arith));
      }

  -- the last word that is stored, and the outcome with it
  abbrev last : ℕ
  last = bit_and (f (whole.memory (p + lim)) (whole.memory (q + lim))) (bitmap_last_word_mask bits)

  abbrev rest : Outcome
  rest = record { memory = write whole.memory (dst + lim) last; result = bit_or whole.result last }

  module _ (odd : bits % 64 ≢ 0) (small : bits < 2 ^ 32) where
    last-value : last ≡ bit_and (value lim) (bitmap_last_word_mask bits)
    last-value =
        let (is, zeros) = whole_lem in
        let keep_p : whole.memory (p + lim) ≡ m (p + lim) = is.around (p + lim) (omega arith) in
        let keep_q : whole.memory (q + lim) ≡ m (q + lim) = is.around (q + lim) (omega arith) in
        ap₂ (λ a b. bit_and (f a b) (bitmap_last_word_mask bits)) keep_p keep_q

    last_bit : (i : ℕ) → testbit last i ≡ (testbit (value lim) i && ltb i (bits % 64))
    last_bit i = rw last-value (
        testbit-bit_and i (value lim) (bitmap_last_word_mask bits)
        ∙ ap (λ b. testbit (value lim) i && b) (testbit-last_mask bits i small)
        ∙ ground arith)

    last_zero : (last ≡ 0) ↔ ((i : ℕ) → lim * 64 ≤ i → i < bits → g (bit m p i) (bit m q i) ≡ false)
    last_zero =
        let by_bits = zero_iff last (rw last-value (bit_and-lt 64 _ _ (value-lt lim))) in
        (
          λ e i ge lt.
              let q : i / 64 ≡ lim = omega arith in
              let here = rw q at (value-bit i) in
              ground (arith, here, last_bit (i % 64), by_bits.0 e (i % 64) (omega arith)),
          λ off. by_bits.1 λ j lt. elim (dec_lt j (bits % 64)) [
            | yes inside ↦
                let q : (lim * 64 + j) / 64 ≡ lim = omega arith in
                let r : (lim * 64 + j) % 64 ≡ j = omega arith in
                let here = rw (q, r) at (value-bit (lim * 64 + j)) in
                let none = off (lim * 64 + j) (omega arith) (omega arith) in
                ground (arith, last_bit j, here, rw (q, r) at none)
            | no beyond ↦ ground (arith, last_bit j)
          ],
        )

    rest-at : (i : ℕ) → i < bits → bit rest.memory dst i ≡ g (bit m p i) (bit m q i)
    rest-at i lt =
        let (is, zeros) = whole_lem in
        elim (dec_lt i (lim * 64)) [
          | yes early ↦
              let before = stored_bit f g op dst p q bits m words over_p over_q lim _ i is early in
              let apart : dst + i / 64 ≢ dst + lim = omega arith in ground (arith, before, apart)
          | no late ↦
              let e : i / 64 ≡ lim = omega arith in
              let here = rw e at (value-bit i) in rw e (ground (arith, here, last_bit (i % 64)))
        ]

    rest-tail : (i : ℕ) → bits ≤ i → i < bits_to_longs bits * 64 → bit rest.memory dst i ≡ false
    rest-tail i ge lt =
        let e : i / 64 ≡ lim = omega arith in rw e (ground (arith, last_bit (i % 64)))

    rest-IsMasked : IsMasked g dst p q bits m rest
    rest-IsMasked =
        let (is, zeros) = whole_lem in
        record {
          pointwise = record { at = rest-at; around = λ a h. ground (arith, is.around a) };
          tail = rest-tail;
          zero_result = (
            λ e i lt.
                let (first, second) = (bit_or-zero whole.result last).0 e in
                elim (dec_lt i (lim * 64)) [
                  | yes early ↦ zeros.0 first i early
                  | no late ↦ last_zero.0 second i (omega arith) lt
                ],
            λ off.
                (bit_or-zero whole.result last).1
                  (zeros.1 λ i lt. off i (omega arith), last_zero.1 λ i ge lt. off i lt),
          );
        }

  pub store_masked-IsMasked :
      bits < 2 ^ 32 → IsMasked g dst p q bits m (store_masked f dst p q bits m)
  unfolding store_masked
  store_masked-IsMasked small = elim (Bool-cases (bits % 64 == 0)) [
    | inl even ↦ rw even (whole-IsMasked ((==_iff _ _).0 even))
    | inr odd ↦ rw odd (rest-IsMasked (ground arith) small)
  ]
