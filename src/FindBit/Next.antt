-- ===== src/FindBit/Next.antt =====
-- `_find_next_bit` finds the first bit wanted at or after `start`.
use kernel_porting.Prelude.{
  ℕ, zero, suc, ◌+◌, ◌-◌, ◌*◌, ◌/◌, ◌%◌, ◌^◌, ◌≤◌, ◌<◌, ◌≡◌, ◌≢◌, ap, dec_lt, inl, inr, min, Bool,
  true, false, not, xor, ◌&&◌, Bool-cases, some, bit_and, bit_xor, arith, leb, ◌==◌, ==_iff,
  if◌then◌else◌,
}
use kernel_porting.Bits.{
  testbit, testbit-zero, testbit-bit_and, testbit-bit_xor, testbit-shl, testbit-shr, testbit_ones,
  testbit_ext, bit_xor-lt, bit_and-lt, testbit-ge,
}
use kernel_porting.Word.{lnot, ulong_max, bitmap_first_word_mask, testbit-first_mask, testbit-lnot}
use kernel_porting.Memory.{Memory, IsMemory, bit}
use kernel_porting.Bitops.Ffs.{__ffs, __ffs-IsLowest}
use kernel_porting.FindBit.{
  round_down, find_loop, _find_next_bit, find_next_bit, find_next_zero_bit,
}

-- `r` is the least position from `from` on, below `n`, at which `p` holds, or `n` if there is none.
pub record IsNext (p : ℕ → Bool) (n from r : ℕ) : Type 0 where
  pub bound : r ≤ n
  pub hit : r < n → (p r ≡ true) × (from ≤ r)
  pub skipped : (j : ℕ) → from ≤ j → j < r → p j ≡ false

pub round_down-64 : (x : ℕ) → x < 2 ^ 64 → round_down x 64 ≡ x / 64 * 64
unfolding round_down
round_down-64 x h = testbit_ext _ _ λ i.
    let back = testbit-shl 6 (x / 64) i in
    let there : leb 6 i ≡ true → 6 + (i - 6) ≡ i = λ ge. ground arith in
    ground (
      arith,
      testbit-bit_and i x (lnot 63),
      testbit-lnot 63 i (omega arith),
      testbit_ones 6 i,
      back,
      testbit-shr 6 x (i - 6),
      testbit-ge 64 x i h,
      λ (ge : leb 6 i ≡ true). ap (testbit x) (there ge),
    )

module _ (m : Memory) (words : IsMemory m) (addr nbits : ℕ) (flag : Bool) where
  -- what `invert` makes of bit `j`
  abbrev wanted : ℕ → Bool
  wanted j = xor (bit m addr j) flag

  abbrev invert : ℕ
  invert = if flag then ulong_max else 0

  testbit-invert : (i : ℕ) → i < 64 → testbit invert i ≡ flag
  testbit-invert i h = ground (arith, testbit_ones 64 i, testbit-zero i)

  abbrev inverted : ℕ → ℕ
  inverted start = bit_xor (m (addr + start / 64)) invert

  inverted-lt : (start : ℕ) → inverted start < 2 ^ 64
  inverted-lt start = bit_xor-lt 64 _ _ (words (addr + start / 64)) (ground arith)

  testbit-inverted :
      (start i : ℕ) → start % 64 ≡ 0 → i < 64 → testbit (inverted start) i ≡ wanted (start + i)
  unfolding xor
  testbit-inverted start i aligned h =
      let q : (start + i) / 64 ≡ start / 64 = omega arith in
      let r : (start + i) % 64 ≡ i = omega arith in
      rw (q, r)
        (ground (arith, testbit-bit_xor i (m (addr + start / 64)) invert, testbit-invert i h))

  -- `tmp` holds the bits of one word that are wanted and not before `from`; none was found before.
  record AtWord (from start tmp : ℕ) : Type 0 where
    aligned : start % 64 ≡ 0
    early : start < nbits
    near : from < start + 64
    fits : tmp < 2 ^ 64
    holds : (i : ℕ) → i < 64 → testbit tmp i ≡ (leb from (start + i) && wanted (start + i))
    skipped : (j : ℕ) → from ≤ j → j < start → wanted j ≡ false

  -- Nothing is found in a word of which nothing is left.
  empty-skipped :
      (from start tmp : ℕ)
      → AtWord from start tmp
      → tmp ≡ 0
      → (j : ℕ) → from ≤ j
      → j < start + 64
      → wanted j ≡ false
  empty-skipped from start tmp a none_left j ge lt = elim (dec_lt j start) [
    | yes before ↦ a.skipped j ge before
    | no within ↦
        let e : start + (j - start) ≡ j = omega arith in
        let at = a.holds (j - start) (omega arith) in
        ground (arith, rw (e, none_left, testbit-zero) at at)
  ]

  next-AtWord :
      (from start tmp : ℕ)
      → AtWord from start tmp
      → tmp ≡ 0
      → start + 64 < nbits
      → AtWord from (start + 64) (inverted (start + 64))
  next-AtWord from start tmp a none_left more = record {
    aligned = omega (arith, a.aligned);
    early = more;
    near = omega (arith, a.near);
    fits = inverted-lt (start + 64);
    holds = λ i h.
        let here = testbit-inverted (start + 64) i (omega (arith, a.aligned)) h in
        ground (arith, here, a.near);
    skipped = empty-skipped from start tmp a none_left;
  }

  found-IsNext :
      (from start tmp : ℕ)
      → AtWord from start tmp
      → tmp ≢ 0
      → IsNext wanted nbits from (min (start + __ffs tmp) nbits)
  found-IsNext from start tmp a ne =
      let low = __ffs-IsLowest tmp a.fits ne in
      let r = __ffs tmp in
      let small : r < 64 = ground (arith, testbit-ge 64 tmp r a.fits, low.on) in
      let here = a.holds r small in
      record {
        bound = omega arith;
        hit = λ h.
            let e : min (start + r) nbits ≡ start + r = omega arith in
            rw e (ground (arith, here, low.on));
        skipped = λ j ge lt. elim (dec_lt j start) [
          | yes before ↦ a.skipped j ge before
          | no within ↦
              let e : start + (j - start) ≡ j = omega arith in
              let off = low.below (j - start) (omega arith) in
              ground (arith, rw e at (a.holds (j - start) (omega arith)), off)
        ];
      }

  module _ (room : nbits + 64 ≤ 2 ^ 64) where
    find_loop-IsNext :
        (fuel from start tmp : ℕ)
        → AtWord from start tmp
        → nbits < start + 64 * fuel
        → (r : ℕ) × (find_loop fuel m addr nbits invert start tmp ≡ some r)
          × IsNext wanted nbits from r
    unfolding find_loop
    find_loop-IsNext zero from start tmp a enough = absurd (omega (arith, a.early))
    find_loop-IsNext (suc fuel) from start tmp a enough = elim (Bool-cases (tmp == 0)) [
      | inl off ↦
          let none_left : tmp ≡ 0 = (==_iff _ _).0 off in
          let e : (start + 64) % 2 ^ 64 ≡ start + 64 = omega (arith, a.early) in
          elim (Bool-cases (leb nbits (start + 64))) [
            | inl ended ↦ (
              nbits,
              rw (off, e, ended),
              record {
                bound = omega arith;
                hit = λ h. absurd (omega arith);
                skipped = λ j ge lt. empty-skipped from start tmp a none_left j ge (ground arith);
              },
            )
            | inr more ↦
                rw (off, e, more)
                  (find_loop-IsNext fuel from (start + 64) (inverted (start + 64))
                    (next-AtWord from start tmp a none_left (ground arith)) (omega arith))
          ]
      | inr some_left ↦ (
        min (start + __ffs tmp) nbits,
        rw some_left,
        found-IsNext from start tmp a (ground arith),
      )
    ]

    first-AtWord :
        (start : ℕ)
        → start < nbits
        → AtWord start (start / 64 * 64) (bit_and (inverted start) (bitmap_first_word_mask start))
    first-AtWord start h = record {
      aligned = omega arith;
      early = omega arith;
      near = omega arith;
      fits = bit_and-lt 64 _ _ (inverted-lt start);
      holds = λ i lt.
          let e : start / 64 * 64 / 64 ≡ start / 64 = omega arith in
          let here = rw e at (testbit-inverted (start / 64 * 64) i (omega arith) lt) in
          ground (
            arith,
            testbit-bit_and i (inverted start) (bitmap_first_word_mask start),
            testbit-first_mask start i,
            here,
          );
      skipped = λ j ge lt. absurd (omega arith);
    }

    _find_next_bit-IsNext :
        (start : ℕ)
        → (r : ℕ) × (_find_next_bit m addr nbits start invert ≡ some r)
          × IsNext wanted nbits start r
    unfolding _find_next_bit
    _find_next_bit-IsNext start = elim (Bool-cases (leb nbits start)) [
      | inl late ↦ (
        nbits,
        rw late,
        record {
          bound = omega arith;
          hit = λ h. absurd (omega arith);
          skipped = λ j ge lt. absurd (ground arith);
        },
      )
      | inr early ↦
          let before : start < nbits = ground arith in
          rw (early, round_down-64 start (omega arith))
            (find_loop-IsNext (nbits / 64 + 1) start (start / 64 * 64) _ (first-AtWord start before)
              (omega arith))
    ]

module _ (m : Memory) (words : IsMemory m) (addr size : ℕ) (room : size + 64 ≤ 2 ^ 64)
    (offset : ℕ) where
  -- For a size of at most 2^64 - 64, `find_next_bit` returns, whatever the memory
  -- holds, and its result is the first set bit at or after `offset` and below `size`, or `size` if there is none.
  pub find_next_bit-IsNext :
      (r : ℕ) × (find_next_bit m addr size offset ≡ some r) × IsNext (bit m addr) size offset r
  unfolding find_next_bit xor
  find_next_bit-IsNext =
      let (r, e, is) = _find_next_bit-IsNext m words addr size false room offset in
      (
        r,
        e,
        record {
          bound = is.bound;
          hit = λ h. ground (arith, is.hit h);
          skipped = λ j ge lt. ground (arith, is.skipped j ge lt);
        },
      )

  -- For a size of at most 2^64 - 64, `find_next_zero_bit` returns, whatever the memory
  -- holds, and its result is the first clear bit at or after `offset` and below `size`, or `size` if there is none.
  pub find_next_zero_bit-IsNext :
      (r : ℕ) × (find_next_zero_bit m addr size offset ≡ some r)
      × IsNext (λ j. not (bit m addr j)) size offset r
  unfolding find_next_zero_bit xor
  find_next_zero_bit-IsNext =
      let (r, e, is) = _find_next_bit-IsNext m words addr size true room offset in
      (
        r,
        e,
        record {
          bound = is.bound;
          hit = λ h. ground (arith, is.hit h);
          skipped = λ j ge lt. ground (arith, is.skipped j ge lt);
        },
      )
