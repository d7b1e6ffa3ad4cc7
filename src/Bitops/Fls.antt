-- ===== src/Bitops/Fls.antt =====
-- asm-generic/bitops/__fls.h, fls.h and fls64.h, and `fls_long` of bitops.h: the highest set bit of a
-- word, by halving from the top.
use kernel_porting.Prelude.{
  ℕ, suc, ◌+◌, ◌-◌, ◌*◌, ◌%◌, ◌^◌, ◌≤◌, ◌<◌, ◌≡◌, ◌≢◌, ◌⊎◌, ◌∙◌, refl, ap, dec_lt, inl, inr,
  Bool-cases, true, false, ◌&&◌, bit_and, arith, ltb, leb, ◌==◌, ==_iff, if◌then◌else◌,
}
use kernel_porting.Bits.{
  testbit, testbit-zero, testbit-shl, testbit-mod, testbit-bit_and, testbit_ones, testbit-ge,
  has_bit, lt-two-pow, bounds_of_highest,
}
use kernel_porting.Word.{shl, ulong_max}
use kernel_porting.Bitops.Ffs.{Scan}

-- `if (!(word & mask)) { num -= k; word <<= k; }` on words of `n` bits
unfoldable pub rise : ℕ → ℕ → ℕ → Scan → Scan
rise n mask k s =
    if bit_and s.word mask == 0
    then record { num = s.num - k; word = s.word * 2 ^ k % 2 ^ n }
    else s

-- `if (!(word & (~0ul << 63))) num -= 1; return num;`
unfoldable pub finish : Scan → ℕ
finish s = if bit_and s.word (shl ulong_max 63) == 0 then s.num - 1 else s.num

-- `__fls` at BITS_PER_LONG == 64. It is not defined at zero.
unfoldable pub __fls : ℕ → ℕ
__fls word =
    let start : Scan = record { num = 63; word = word } in
    let s = rise 64 (shl ulong_max 48) 16 (rise 64 (shl ulong_max 32) 32 start) in
    let s = rise 64 (shl ulong_max 60) 4 (rise 64 (shl ulong_max 56) 8 s) in
    finish (rise 64 (shl ulong_max 62) 2 s)

-- `fls` of an `int`, whose shifts stay within 32 bits.
unfoldable pub fls : ℕ → ℕ
fls x =
    let start : Scan = record { num = 32; word = x } in
    let s = rise 32 0xff00_0000 8 (rise 32 0xffff_0000 16 start) in
    let s = rise 32 0xc000_0000 2 (rise 32 0xf000_0000 4 s) in
    if x == 0 then 0 else (rise 32 0x8000_0000 1 s).num

unfoldable pub fls64 : ℕ → ℕ
fls64 x = if x == 0 then 0 else __fls x + 1

-- `sizeof(l)` is 8.
unfoldable pub fls_long : ℕ → ℕ
fls_long l = fls64 l

-- `r` is the highest bit that is set in `w`.
pub record IsHighest (w r : ℕ) : Type 0 where
  pub on : testbit w r ≡ true
  pub above : (j : ℕ) → r < j → testbit w j ≡ false

-- What holds of the locals once the highest bit is known to be within `width` bits of the top.
record Raised (n start w width : ℕ) (s : Scan) : Type 0 where
  shifted : ℕ
  counted : s.num + shifted ≡ start
  rest : (i : ℕ) → i < n → testbit s.word i ≡ (leb shifted i && testbit w (i - shifted))
  above : (j : ℕ) → n ≤ j + shifted → j < n → testbit w j ≡ false
  place : ℕ
  inside : place < n
  near : n ≤ place + width
  on : testbit s.word place ≡ true

module _ (n k mask : ℕ) (fits : k ≤ n) (e : mask ≡ (2 ^ k - 1) * 2 ^ (n - k)) where
  testbit-mask : (i : ℕ) → testbit mask i ≡ (leb (n - k) i && ltb i n)
  testbit-mask i = rw (e, testbit-shl, testbit_ones) (ground arith)

  bits_off : (x i : ℕ) → (bit_and x mask == 0) ≡ true → i < n → n ≤ i + k → testbit x i ≡ false
  bits_off x i off h g =
      let none_left = (==_iff _ _).0 off in
      ground (
        arith,
        testbit-bit_and i x mask,
        testbit-mask i,
        ap (λ y. testbit y i) none_left,
        testbit-zero i,
      )

  bit_on :
      (x : ℕ)
      → (bit_and x mask == 0) ≡ false
      → (i : ℕ) × (i < n) × (n ≤ i + k) × (testbit x i ≡ true)
  bit_on x some_left =
      let (i, lt, on) = has_bit _ _ (lt-two-pow (bit_and x mask)) (ground arith) in
      (
        i,
        ground (arith, testbit-bit_and i x mask, testbit-mask i),
        ground (arith, testbit-bit_and i x mask, testbit-mask i),
        ground (arith, testbit-bit_and i x mask, testbit-mask i),
      )

  rise-Raised :
      (start w : ℕ) {s : Scan}
      → n ≤ suc start
      → Raised n start w (k + k) s
      → Raised n start w k (rise n mask k s)
  unfolding rise
  rise-Raised start w {s} enough r = elim (Bool-cases (bit_and s.word mask == 0)) [
    | inl off ↦ rw off (
        let far : r.place + k < n = ground (arith, bits_off s.word r.place off) in
        let deep : r.shifted ≤ r.place = ground (arith, r.rest r.place, r.on) in
        let shifts = λ (i : ℕ). testbit-mod n (s.word * 2 ^ k) i in
        record {
          shifted = r.shifted + k;
          counted = omega arith;
          rest = λ i h.
              let less : i - k - r.shifted ≡ i - (r.shifted + k) = omega arith in
              ground (arith, shifts i, testbit-shl k s.word i, r.rest (i - k), ap (testbit w) less);
          above = λ j g h. elim (dec_lt (j + r.shifted) n) [
            | yes low ↦
                let back : j + r.shifted - r.shifted ≡ j = omega arith in
                ground (
                  arith,
                  r.rest (j + r.shifted),
                  bits_off s.word (j + r.shifted) off,
                  ap (testbit w) back,
                )
            | no high ↦ r.above j (omega arith) h
          ];
          place = r.place + k;
          inside = far;
          near = omega arith;
          on =
              let back : r.place + k - k ≡ r.place = omega arith in
              ground (
                arith,
                shifts (r.place + k),
                testbit-shl k s.word (r.place + k),
                ap (testbit s.word) back,
                r.on,
              );
        })
    | inr some_left ↦ rw some_left (
        let (i, lt, near, on) = bit_on s.word some_left in
        record {
          shifted = r.shifted;
          counted = r.counted;
          rest = r.rest;
          above = r.above;
          place = i;
          inside = lt;
          near = near;
          on = on;
        })
  ]

start-Raised :
    (n start w : ℕ) → w < 2 ^ n → w ≢ 0 → Raised n start w n (record { num = start; word = w })
start-Raised n start w h ne =
    let (i, lt, on) = has_bit n w h ne in
    record {
      shifted = 0;
      counted = omega arith;
      rest = λ i h. let same : i - 0 ≡ i = omega arith in rw same (ground arith);
      above = λ j g h. absurd (omega arith);
      place = i;
      inside = lt;
      near = omega arith;
      on = on;
    }

-- When only the top bit is left, the highest bit of the word is known.
one_left :
    (n start w : ℕ) {s : Scan}
    → w < 2 ^ n
    → Raised n start w 1 s
    → (r : ℕ) × (s.num + n ≡ start + suc r) × (r < n) × IsHighest w r
one_left n start w {s} fits r =
    let top = r.rest r.place r.inside in
    let deep : r.shifted ≤ r.place = ground (arith, top, r.on) in
    (
      r.place - r.shifted,
      omega (arith, r.counted, r.near, r.inside),
      omega (arith, r.inside),
      record {
        on = ground (arith, top, r.on);
        above = λ j h. elim (dec_lt j n) [
          | yes low ↦ r.above j (omega (arith, r.near)) low
          | no high ↦ testbit-ge n w j fits (omega arith)
        ];
      },
    )

finish_lem : (s : Scan) → finish s ≡ (rise 64 (shl ulong_max 63) 1 s).num
unfolding finish rise
finish_lem s = ground arith

__fls_scan : (w : ℕ) → w < 2 ^ 64 → w ≢ 0 → (r : ℕ) × (__fls w ≡ r) × (r < 64) × IsHighest w r
unfolding __fls
__fls_scan w h ne =
    let all =
      rise-Raised 64 32 (shl ulong_max 32) (omega arith) refl 63 w (omega arith)
        (start-Raised 64 63 w h ne) in
    let all = rise-Raised 64 16 (shl ulong_max 48) (omega arith) refl 63 w (omega arith) all in
    let all = rise-Raised 64 8 (shl ulong_max 56) (omega arith) refl 63 w (omega arith) all in
    let all = rise-Raised 64 4 (shl ulong_max 60) (omega arith) refl 63 w (omega arith) all in
    let all = rise-Raised 64 2 (shl ulong_max 62) (omega arith) refl 63 w (omega arith) all in
    let all = rise-Raised 64 1 (shl ulong_max 63) (omega arith) refl 63 w (omega arith) all in
    let (r, counted, lt, highest) = one_left 64 63 w h all in
    (r, finish_lem _ ∙ omega (arith, counted), lt, highest)

-- `__fls` of a word that is not zero is the position of its highest set bit.
pub __fls-IsHighest : (w : ℕ) → w < 2 ^ 64 → w ≢ 0 → (__fls w < 64) × IsHighest w (__fls w)
__fls-IsHighest w h ne = let (r, e, lt, highest) = __fls_scan w h ne in rw e (lt, highest)

-- `fls` of a 32-bit pattern is zero at zero, and else one more than the position of the highest set
-- bit.
pub fls-IsHighest :
    (x : ℕ)
    → x < 2 ^ 32
    → (x ≡ 0) × (fls x ≡ 0) ⊎ (r : ℕ) × (fls x ≡ r + 1) × (r < 32) × IsHighest x r
unfolding fls
fls-IsHighest x h = elim (Bool-cases (x == 0)) [
  | inl none_on ↦ inl ((==_iff _ _).0 none_on, rw none_on)
  | inr some_on ↦
      let all =
        rise-Raised 32 16 0xffff_0000 (omega arith) refl 32 x (omega arith)
          (start-Raised 32 32 x h (ground arith)) in
      let all = rise-Raised 32 8 0xff00_0000 (omega arith) refl 32 x (omega arith) all in
      let all = rise-Raised 32 4 0xf000_0000 (omega arith) refl 32 x (omega arith) all in
      let all = rise-Raised 32 2 0xc000_0000 (omega arith) refl 32 x (omega arith) all in
      let all = rise-Raised 32 1 0x8000_0000 (omega arith) refl 32 x (omega arith) all in
      let (r, counted, lt, highest) = one_left 32 32 x h all in
      inr (r, rw some_on (omega (arith, counted)), lt, highest)
]

-- `fls64` is the number of binary digits of a 64-bit word: the least power of two above it is
-- 2^(fls64 x).
pub fls64_bounds :
    (x : ℕ)
    → x < 2 ^ 64
    → (x ≡ 0) × (fls64 x ≡ 0)
      ⊎ (r : ℕ) × (fls64 x ≡ suc r) × (r < 64) × (2 ^ r ≤ x) × (x < 2 ^ suc r)
unfolding fls64
fls64_bounds x h = elim (Bool-cases (x == 0)) [
  | inl none_on ↦ inl ((==_iff _ _).0 none_on, rw none_on)
  | inr some_on ↦
      let (r, e, lt, highest) = __fls_scan x h (ground arith) in
      let (low, high) = bounds_of_highest r x highest.on highest.above in
      inr (r, rw some_on (omega (arith, e)), lt, low, high)
]
