-- ===== src/Bitops/Hweight/Laws.antt =====
-- The functions of hweight.c and the macros of const_hweight.h count the set bits.
use kernel_porting.Prelude.{
  ℕ, zero, suc, ◌+◌, ◌-◌, ◌*◌, ◌/◌, ◌%◌, ◌^◌, ◌≤◌, ◌<◌, ◌≡◌, ◌∙◌, refl, sym, ap₂, inl, inr,
  Bool-cases, bit_and, arith, ◌==◌, ==_iff,
}
use kernel_porting.Bits.{
  testbit, testbit-zero, testbit-shl, testbit-shr, testbit_one, testbit-bit_and, has_bit,
  lt-two-pow, bit_and_ones,
}
use kernel_porting.Bits.Split.{bit_and-le, bit_and-le_right}
use kernel_porting.Bits.Count.{count, count-le, count-add, count-mod}
use kernel_porting.Bitops.Hweight.{
  pairs, nibbles, bytes, fold, __sw_hweight8, __sw_hweight16, __sw_hweight32, __sw_hweight64, flag,
  __const_hweight8, __const_hweight16, __const_hweight32, __const_hweight64,
}
use kernel_porting.Bitops.Hweight.Fields.{packed, pairs_of, nibbles_of, bytes_of, rounds}

-- The sum of the counts of the bytes.
abbrev total : ℕ → ℕ → ℕ
total zero w = 0
total (suc n) w = count 8 (w % 256) + total n (w / 256)

abbrev bits : ℕ → ℕ
bits zero = 0
bits (suc n) = 8 + bits n

count-total : (n w : ℕ) → count (bits n) w ≡ total n w
unfolding count
count-total zero w = refl
count-total (suc n) w =
    count-add 8 (bits n) w ∙ ap₂ ◌+◌ (sym (count-mod 8 w)) (count-total n (w / 256))

-- At width `k` nothing wraps: the rounds are those of `Fields`.
rounds_64 :
    (m5 m3 mf w : ℕ)
    → w < 2 ^ 64
    → m3 ≤ 0x3333333333333333
    → bytes 64 mf (nibbles 64 m3 (pairs 64 m5 w)) ≡ bytes_of mf (nibbles_of m3 (pairs_of m5 w))
unfolding pairs nibbles bytes
rounds_64 m5 m3 mf w h small =
    let p = pairs_of m5 w in
    let first : (w + 2 ^ 64 - bit_and (w / 2 ^ 1) m5) % 2 ^ 64 ≡ p =
      omega (arith, bit_and-le (w / 2) m5) in
    let n = nibbles_of m3 p in
    let n_small : n ≤ 2 * m3 = omega (arith, bit_and-le_right p m3, bit_and-le_right (p / 4) m3) in
    let second : (bit_and p m3 + bit_and (p / 2 ^ 2) m3) % 2 ^ 64 ≡ n = omega arith in
    let third : (n + n / 2 ^ 4) % 2 ^ 64 ≡ n + n / 16 = omega arith in rw (first, second, third)

rounds_32 :
    (m5 m3 mf w : ℕ)
    → w < 2 ^ 32
    → m3 ≤ 0x33333333
    → bytes 32 mf (nibbles 32 m3 (pairs 32 m5 w)) ≡ bytes_of mf (nibbles_of m3 (pairs_of m5 w))
unfolding pairs nibbles bytes
rounds_32 m5 m3 mf w h small =
    let p = pairs_of m5 w in
    let first : (w + 2 ^ 32 - bit_and (w / 2 ^ 1) m5) % 2 ^ 32 ≡ p =
      omega (arith, bit_and-le (w / 2) m5) in
    let n = nibbles_of m3 p in
    let n_small : n ≤ 2 * m3 = omega (arith, bit_and-le_right p m3, bit_and-le_right (p / 4) m3) in
    let second : (bit_and p m3 + bit_and (p / 2 ^ 2) m3) % 2 ^ 32 ≡ n = omega arith in
    let third : (n + n / 2 ^ 4) % 2 ^ 32 ≡ n + n / 16 = omega arith in rw (first, second, third)

-- Folding a word of small bytes onto itself sums them in the lowest byte. `x1`, `x2`, … are what is
-- left of the word above its first bytes.
fold_64 :
    (b0 b1 b2 b3 b4 b5 b6 b7 : ℕ)
    → b0 ≤ 8
    → b1 ≤ 8
    → b2 ≤ 8
    → b3 ≤ 8
    → b4 ≤ 8
    → b5 ≤ 8
    → b6 ≤ 8
    → b7 ≤ 8
    → let x4 = b4 + 256 * (b5 + 256 * (b6 + 256 * (b7 + 256 * 0))) in
      let x = b0 + 256 * (b1 + 256 * (b2 + 256 * (b3 + 256 * x4))) in
      fold 64 32 (fold 64 16 (fold 64 8 x)) % 2 ^ 8
      ≡ b0 + (b1 + (b2 + (b3 + (b4 + (b5 + (b6 + (b7 + 0)))))))
unfolding fold
fold_64 b0 b1 b2 b3 b4 b5 b6 b7 h0 h1 h2 h3 h4 h5 h6 h7 =
    let x7 = b7 + 256 * 0 in
    let x6 = b6 + 256 * x7 in
    let x5 = b5 + 256 * x6 in
    let x4 = b4 + 256 * x5 in
    let x3 = b3 + 256 * x4 in
    let x2 = b2 + 256 * x3 in
    let x1 = b1 + 256 * x2 in
    let x = b0 + 256 * x1 in
    let down1 : x / 2 ^ 8 ≡ x1 = omega arith in
    let first : (x + x / 2 ^ 8) % 2 ^ 64 ≡ x + x1 = omega arith in
    let down2 : (x + x1) / 2 ^ 16 ≡ x2 + x3 = omega arith in
    let second : (x + x1 + (x + x1) / 2 ^ 16) % 2 ^ 64 ≡ x + x1 + (x2 + x3) = omega arith in
    let down4 : (x + x1 + (x2 + x3)) / 2 ^ 32 ≡ x4 + x5 + (x6 + x7) = omega arith in
    rw (first, second, down4) (omega arith)

fold_32 :
    (b0 b1 b2 b3 : ℕ)
    → b0 ≤ 8
    → b1 ≤ 8
    → b2 ≤ 8
    → b3 ≤ 8
    → fold 32 16 (fold 32 8 (b0 + 256 * (b1 + 256 * (b2 + 256 * (b3 + 256 * 0))))) % 2 ^ 8
      ≡ b0 + (b1 + (b2 + (b3 + 0)))
unfolding fold
fold_32 b0 b1 b2 b3 h0 h1 h2 h3 = omega arith

fold_16 :
    (b0 b1 : ℕ) → b0 ≤ 8 → b1 ≤ 8 → fold 32 8 (b0 + 256 * (b1 + 256 * 0)) % 2 ^ 8 ≡ b0 + (b1 + 0)
unfolding fold
fold_16 b0 b1 h0 h1 = omega arith

byte_count : (x : ℕ) → count 8 x ≤ 8
byte_count x = count-le 8 x

-- `__sw_hweight64` is the number of set bits of a 64-bit word.
pub __sw_hweight64-count : (w : ℕ) → w < 2 ^ 64 → __sw_hweight64 w ≡ count 64 w
unfolding __sw_hweight64
__sw_hweight64-count w h =
    let res : bytes 64 0x0F0F0F0F0F0F0F0F
          (nibbles 64 0x3333333333333333 (pairs 64 0x5555555555555555 w))
        ≡ packed 8 w =
      rounds_64 0x5555555555555555 0x3333333333333333 0x0F0F0F0F0F0F0F0F w h (omega arith)
      ∙ (rounds 8 w h).counted in
    rw (res, bit_and_ones 8)
      (fold_64 _ _ _ _ _ _ _ _ (byte_count _) (byte_count _) (byte_count _) (byte_count _)
          (byte_count _) (byte_count _) (byte_count _) (byte_count _)
        ∙ sym (count-total 8 w))

-- `__sw_hweight32`, `__sw_hweight16` and `__sw_hweight8` count the set bits of a word that fits the
-- width in their name.
pub sw_hweights :
    (w h b : ℕ)
    → w < 2 ^ 32
    → h < 2 ^ 16
    → b < 2 ^ 8
    → (__sw_hweight32 w ≡ count 32 w)
      × (__sw_hweight16 h ≡ count 16 h)
      × (__sw_hweight8 b ≡ count 8 b)
unfolding __sw_hweight32 __sw_hweight16 __sw_hweight8
sw_hweights w h b fits_w fits_h fits_b =
    let res_w =
      rounds_32 0x55555555 0x33333333 0x0F0F0F0F w fits_w (omega arith)
      ∙ (rounds 4 w fits_w).counted in
    let res_h =
      rounds_32 0x5555 0x3333 0x0F0F h (omega arith) (omega arith) ∙ (rounds 2 h fits_h).counted in
    let res_b =
      rounds_32 0x55 0x33 0x0F b (omega arith) (omega arith) ∙ (rounds 1 b fits_b).counted in
    (
      rw (res_w, bit_and_ones 8)
          (fold_32 _ _ _ _ (byte_count _) (byte_count _) (byte_count _) (byte_count _)
            ∙ sym (count-total 4 w)),
      rw (res_h, bit_and_ones 8)
          (fold_16 _ _ (byte_count _) (byte_count _) ∙ sym (count-total 2 h)),
      res_b ∙ omega (arith, count-total 1 b),
    )

testbit-power : (k i : ℕ) → testbit (2 ^ k) i ≡ (i == k)
testbit-power k i =
    let e : 2 ^ k ≡ 1 * 2 ^ k = omega arith in
    rw e (testbit-shl k 1 i ∙ ground (arith, testbit_one (i - k)))

-- `!!(w & (1 << k))` is bit `k`.
pub flag_lem : (w k : ℕ) → flag w k ≡ w / 2 ^ k % 2
unfolding flag testbit
flag_lem w k =
    let here = testbit-shr k w 0 in
    let e : k + 0 ≡ k = omega arith in
    let both = testbit-bit_and k w (2 ^ k) in
    elim (Bool-cases (bit_and w (2 ^ k) == 0)) [
      | inl off ↦
          let none : bit_and w (2 ^ k) ≡ 0 = (==_iff _ _).0 off in
          rw off
            (ground (arith, rw e at here, rw (none, testbit-zero k) at both, testbit-power k k))
      | inr on ↦
          let (i, lt, set) = has_bit _ _ (lt-two-pow (bit_and w (2 ^ k))) (ground arith) in
          rw on (ground (arith, rw e at here, testbit-bit_and i w (2 ^ k), testbit-power k i))
    ]

__const_hweight8-count : (w : ℕ) → __const_hweight8 w ≡ count 8 w
unfolding __const_hweight8 count
__const_hweight8-count w = omega (
  arith,
  flag_lem w 0,
  flag_lem w 1,
  flag_lem w 2,
  flag_lem w 3,
  flag_lem w 4,
  flag_lem w 5,
  flag_lem w 6,
  flag_lem w 7,
)

-- The macros of const_hweight.h count the set bits below the width in their name, whatever stands
-- above.
pub const_hweights :
    (w : ℕ)
    → (__const_hweight8 w ≡ count 8 w)
      × (__const_hweight16 w ≡ count 16 w)
      × (__const_hweight32 w ≡ count 32 w)
      × (__const_hweight64 w ≡ count 64 w)
unfolding __const_hweight16 __const_hweight32 __const_hweight64
const_hweights w =
    let c16 = λ (x : ℕ).
      ap₂ ◌+◌ (__const_hweight8-count x) (__const_hweight8-count (x / 2 ^ 8))
      ∙ sym (count-add 8 8 x) in
    let c32 = λ (x : ℕ). ap₂ ◌+◌ (c16 x) (c16 (x / 2 ^ 16)) ∙ sym (count-add 16 16 x) in
    (
      __const_hweight8-count w,
      c16 w,
      c32 w,
      ap₂ ◌+◌ (c32 w) (c32 (w / 2 ^ 32)) ∙ sym (count-add 32 32 w),
    )
