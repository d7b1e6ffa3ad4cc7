-- ===== src/Log2/Powers.antt =====
-- The powers of two of log2.h, at every argument at which its functions are defined.
use native.Mathlib.Nat.{pow-suc, one-le-pow, mod_self}
use kernel_porting.Prelude.{
  ℕ, suc, ◌+◌, ◌-◌, ◌^◌, ◌≤◌, ◌<◌, ◌≡◌, ◌≢◌, ◌↔◌, ◌∙◌, refl, inl, inr, Bool, true, false,
  Bool-cases, bit_and, arith, ◌==◌, dec_lt,
}
use kernel_porting.Bits.{
  testbit, testbit-ge, testbit-zero, testbit-bit_and, bit_and_ones, lt_of_bits,
}
use kernel_porting.Word.{shl}
use kernel_porting.Bitops.Fls.{fls64, fls_long}
use kernel_porting.Log2.{
  is_power_of_2, __roundup_pow_of_two, __rounddown_pow_of_two, ilog2, roundup_pow_of_two,
  rounddown_pow_of_two, __order_base_2, order_base_2, pred_long, pred_int,
}
use kernel_porting.Log2.Laws.{
  IsLog, pow_le, IsLog-le, fls_long-IsLog, ilog2_known-IsLog, ilog2-IsLog,
}

one_shifted : (k : ℕ) → k < 64 → shl 1 k ≡ 2 ^ k
one_shifted k h = omega (arith, pow_le k 63 (omega arith))

-- For an `unsigned long` that is not zero, `rounddown_pow_of_two` is the greatest power of two that is
-- not above it, whether the argument is known or not.
pub rounddown_lem :
    (known : Bool) (n : ℕ)
    → n ≢ 0
    → n < 2 ^ 64
    → (r : ℕ) × (rounddown_pow_of_two known n ≡ 2 ^ r) × IsLog n r
unfolding rounddown_pow_of_two __rounddown_pow_of_two
rounddown_lem true n ne h =
    let is = ilog2_known-IsLog n ne true h in
    (ilog2 true true n, one_shifted _ (IsLog-le n _ is h), is)
rounddown_lem false n ne h =
    let (r, e, lt, is) = fls_long-IsLog n ne h in
    let same : pred_int (fls_long n) ≡ r = omega arith in (r, rw same (one_shifted r lt), is)

-- For `n` from one to 2^63, `roundup_pow_of_two` is the least power of two that is not below it,
-- whether the argument is known or not.
pub roundup_lem :
    (known : Bool) (n : ℕ)
    → n ≢ 0
    → n ≤ 2 ^ 63
    → (r : ℕ) × (roundup_pow_of_two known n ≡ 2 ^ r) × (n ≤ 2 ^ r) × (2 ^ r < n + n)
unfolding roundup_pow_of_two __roundup_pow_of_two
roundup_lem true n ne h = elim (Bool-cases (n == 1)) [
  | inl one ↦ (0, rw one, ground arith, ground arith)
  | inr many ↦
      let less : pred_long n ≡ n - 1 = omega arith in
      let is = ilog2_known-IsLog (n - 1) (ground arith) true (omega arith) in
      let r = ilog2 true true (n - 1) in
      let room : r < 63 = elim (dec_lt r 63) [
        | yes lt ↦ lt
        | no ge ↦ absurd (omega (arith, is.low, pow_le 63 r (omega arith)))
      ] in
      let next : r + 1 ≡ suc r = omega arith in
      rw (many, less)
        (
          r + 1,
          one_shifted _ (omega arith),
          rw next (omega (arith, is.high)),
          rw next (omega (arith, is.low, pow-suc 2 r)),
        )
]
roundup_lem false n ne h =
    let less : pred_long n ≡ n - 1 = omega arith in
    rw less (elim (dec_lt 1 n) [
      | yes many ↦
          let (r, e, lt, is) = fls_long-IsLog (n - 1) (omega arith) (omega arith) in
          let room : r < 63 = elim (dec_lt r 63) [
            | yes lt ↦ lt
            | no ge ↦ absurd (omega (arith, is.low, pow_le 63 r (omega arith)))
          ] in
          (
            suc r,
            rw e (one_shifted _ (omega arith)),
            omega (arith, is.high),
            omega (arith, is.low, pow-suc 2 r),
          )
      | no one ↦
          let same : n ≡ 1 = omega arith in
          let none : fls_long (n - 1) ≡ 0 = rw same (unfold fls_long fls64 in refl) in
          (0, rw none, omega arith, omega arith)
    ])

-- `order_base_2` is the least exponent of a power of two that is not below the argument (zero for
-- zero), whether the argument is known or not.
pub order_base_2_lem :
    (known : Bool) (n : ℕ)
    → n < 2 ^ 64
    → (n ≤ 2 ^ order_base_2 known n) × ((k : ℕ) → n ≤ 2 ^ k → order_base_2 known n ≤ k)
unfolding order_base_2 __order_base_2
order_base_2_lem known n h = elim (dec_lt 1 n) [
  | yes many ↦
      let less : pred_long n ≡ n - 1 = omega arith in
      let (is, lt, same) = ilog2-IsLog (n - 1) (omega arith) (omega arith) in
      let r = ilog2 false true (n - 1) in
      let next : r + 1 ≡ suc r = omega arith in
      let value : order_base_2 known n ≡ suc r = elim known [
        | true ↦ rw (less, same) (ground arith)
        | false ↦ rw less (ground arith)
      ] in
      rw value (
        omega (arith, is.high),
        λ k le. elim (dec_lt r k) [
          | yes gt ↦ omega arith
          | no ge ↦ absurd (omega (arith, is.low, pow_le k r (omega arith)))
        ],
      )
  | no few ↦
      let value : order_base_2 known n ≡ 0 = elim known [
        | true ↦ ground arith
        | false ↦ ground arith
      ] in
      rw value (omega arith, λ k le. omega arith)
]

testbit-log : (n r : ℕ) → IsLog n r → testbit n r ≡ true
testbit-log n r is = elim (Bool-cases (testbit n r)) [
  | inl on ↦ on
  | inr off ↦
      let small : n < 2 ^ r = lt_of_bits r n λ i g. elim (dec_lt r i) [
        | yes above ↦ testbit-ge (suc r) n i is.high above
        | no here ↦ let same : i ≡ r = omega arith in rw same off
      ] in
      absurd (omega (arith, is.low))
]

-- For an `unsigned long`, `is_power_of_2` is true exactly when the argument is a power of two.
pub is_power_of_2_iff :
    (n : ℕ) → n < 2 ^ 64 → (is_power_of_2 n ≡ true) ↔ ((k : ℕ) × (k < 64) × (n ≡ 2 ^ k))
unfolding is_power_of_2
is_power_of_2_iff n h = (
  λ e.
      let ne : n ≢ 0 = ground arith in
      let (r, _, lt, is) = fls_long-IsLog n ne h in
      let less : pred_long n ≡ n - 1 = omega arith in
      let none : bit_and n (n - 1) ≡ 0 = (let e_at = rw less at e in ground arith) in
      (
        r,
        lt,
        elim (dec_lt (2 ^ r) n) [
          | no le ↦ omega (arith, is.low)
          | yes gt ↦
              let below : IsLog (n - 1) r = record {
                low = omega arith;
                high = omega (arith, is.high);
              } in
              absurd (
                ground (
                  arith,
                  testbit-bit_and r n (n - 1),
                  testbit-log n r is,
                  testbit-log (n - 1) r below,
                  rw none at (testbit-bit_and r n (n - 1)),
                  testbit-zero r,
                ))
        ],
      ),
  λ (k, lt, e). rw e (
      let pos : 0 < 2 ^ k = one-le-pow k 2 (omega arith) in
      let fits = pow_le k 63 (omega arith) in
      let less : pred_long (2 ^ k) ≡ 2 ^ k - 1 = omega arith in
      let none : bit_and (2 ^ k) (2 ^ k - 1) ≡ 0 = bit_and_ones k (2 ^ k) ∙ mod_self (2 ^ k) in
      rw (less, none) (ground arith)),
)
