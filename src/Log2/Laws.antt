-- ===== src/Log2/Laws.antt =====
-- `ilog2` of log2.h, at every argument at which it is defined.
use native.Mathlib.Nat.{pow-le-pow_right}
use kernel_porting.Prelude.{
  ℕ, zero, suc, ◌+◌, ◌^◌, ◌≤◌, ◌<◌, ◌≡◌, ◌≢◌, inl, inr, Bool, true, false, Bool-cases, not, bit_and,
  arith, ltb, ◌==◌, dec_lt,
}
use kernel_porting.Bits.{testbit, testbit-ge, lt_of_bits, bounds_of_highest}
use kernel_porting.Bitmap.Count.{bit_value}
use kernel_porting.Bitops.Fls.{fls, fls64, fls_long, fls-IsHighest, fls64_bounds}
use kernel_porting.Bitops.Hweight.{flag}
use kernel_porting.Bitops.Hweight.Laws.{flag_lem}
use kernel_porting.Log2.{__ilog2_u32, __ilog2_u64, ilog2_chain, ilog2, pred_int}

-- `r` is the logarithm of `n` to base 2, rounded down.
pub record IsLog (n r : ℕ) : Type 0 where
  pub low : 2 ^ r ≤ n
  pub high : n < 2 ^ suc r

pub pow_le : (a b : ℕ) → a ≤ b → 2 ^ a ≤ 2 ^ b
pow_le a b h = pow-le-pow_right (omega arith) h

pub IsLog-unique : (n r s : ℕ) → IsLog n r → IsLog n s → r ≡ s
IsLog-unique n r s a b = elim (dec_lt r s) [
  | yes lt ↦ absurd (omega (arith, a.high, b.low, pow_le (suc r) s lt))
  | no ge ↦ elim (dec_lt s r) [
    | yes gt ↦ absurd (omega (arith, b.high, a.low, pow_le (suc s) r gt))
    | no le ↦ omega arith
  ]
]

pub IsLog-le : (n r : ℕ) → IsLog n r → n < 2 ^ 64 → r < 64
IsLog-le n r is fits = elim (dec_lt r 64) [
  | yes lt ↦ lt
  | no ge ↦ absurd (omega (arith, is.low, pow_le 64 r (omega arith)))
]

pub fls_long-IsLog :
    (n : ℕ) → n ≢ 0 → n < 2 ^ 64 → (r : ℕ) × (fls_long n ≡ suc r) × (r < 64) × IsLog n r
unfolding fls_long
fls_long-IsLog n ne h = elim (fls64_bounds n h) [
  | inl (none, e) ↦ absurd (ne none)
  | inr (r, e, lt, low, high) ↦ (r, e, lt, record { low = low; high = high })
]

fls-IsLog : (n : ℕ) → n ≢ 0 → n < 2 ^ 32 → (r : ℕ) × (fls n ≡ suc r) × (r < 32) × IsLog n r
fls-IsLog n ne h = elim (fls-IsHighest n h) [
  | inl (none, e) ↦ absurd (ne none)
  | inr (r, e, lt, highest) ↦
      let (low, high) = bounds_of_highest r n highest.on highest.above in
      (r, omega arith, lt, record { low = low; high = high })
]

-- `w & (1 << k)` reads bit `k`.
power_reads : (w k : ℕ) → not (bit_and w (2 ^ k) == 0) ≡ testbit w k
unfolding flag
power_reads w k = ground (arith, flag_lem w k, bit_value k w)

-- The chain of conditionals, for a number that fits the bits that it looks at.
ilog2_chain-IsLog : (k n : ℕ) → 2 ≤ n → n < 2 ^ (k + 2) → IsLog n (ilog2_chain k n)
unfolding ilog2_chain
ilog2_chain-IsLog zero n ge h = record { low = omega arith; high = omega arith }
ilog2_chain-IsLog (suc k) n ge h =
    let e : suc k + 2 ≡ suc (k + 2) = omega arith in
    let fits = rw e at h in
    let top = power_reads n (k + 2) in
    elim (Bool-cases (bit_and n (2 ^ (k + 2)) == 0)) [
      | inl off ↦
          let less : n < 2 ^ (k + 2) = lt_of_bits (k + 2) n λ i g. elim (dec_lt (k + 2) i) [
            | yes above ↦ testbit-ge (suc (k + 2)) n i fits (omega arith)
            | no here ↦ let same : i ≡ k + 2 = omega arith in rw same (ground arith)
          ] in
          rw off (ilog2_chain-IsLog k n ge less)
      | inr on ↦ rw on (record {
        low = elim (dec_lt n (2 ^ (k + 2))) [
          | yes small ↦ absurd (ground (arith, testbit-ge (k + 2) n (k + 2) small (omega arith)))
          | no large ↦ omega arith
        ];
        high = fits;
      })
    ]

module _ (n : ℕ) (some_bit : n ≢ 0) where
  ilog2_u64-IsLog : n < 2 ^ 64 → (ilog2 false true n < 64) × IsLog n (ilog2 false true n)
  unfolding ilog2 __ilog2_u64 fls_long
  ilog2_u64-IsLog h =
      let (r, e, lt, is) = fls_long-IsLog n some_bit h in
      let same : pred_int (fls64 n) ≡ r = omega (arith, e) in rw same (lt, is)

  ilog2_u32-IsLog : n < 2 ^ 32 → IsLog n (ilog2 false false n)
  unfolding ilog2 __ilog2_u32
  ilog2_u32-IsLog h =
      let (r, e, lt, is) = fls-IsLog n some_bit h in
      let same : pred_int (fls n) ≡ r = omega (arith, e) in rw same is

  pub ilog2_known-IsLog : (wide : Bool) → n < 2 ^ 64 → IsLog n (ilog2 true wide n)
  unfolding ilog2
  ilog2_known-IsLog wide h = elim (Bool-cases (ltb n 2)) [
    | inl small ↦ rw small (record { low = ground arith; high = ground arith })
    | inr large ↦ rw large (ilog2_chain-IsLog 62 n (ground arith) (omega arith))
  ]

  -- For an `unsigned long` that is not zero, `ilog2` gives the logarithm rounded down, below 64, and
  -- the value that the macro computes from a known argument is the one that it computes at run time.
  pub ilog2-IsLog :
      n < 2 ^ 64
      → IsLog n (ilog2 false true n)
        × (ilog2 false true n < 64)
        × (ilog2 true true n ≡ ilog2 false true n)
  ilog2-IsLog h =
      let (lt, is) = ilog2_u64-IsLog h in (is, lt, IsLog-unique n _ _ (ilog2_known-IsLog true h) is)

  -- For a `u32` that is not zero, the same.
  pub ilog2-IsLog_int :
      n < 2 ^ 32 → IsLog n (ilog2 false false n) × (ilog2 true false n ≡ ilog2 false false n)
  ilog2-IsLog_int h =
      let is = ilog2_u32-IsLog h in
      (is, IsLog-unique n _ _ (ilog2_known-IsLog false (omega arith)) is)
