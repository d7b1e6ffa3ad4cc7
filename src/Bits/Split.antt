-- ===== src/Bits/Split.antt =====
-- `&` on the low and on the high bits of words.
use native.Mathlib.Nat.{pow-suc}
use kernel_porting.Prelude.{ℕ, zero, suc, ◌+◌, ◌*◌, ◌/◌, ◌%◌, ◌^◌, ◌≤◌, ◌≡◌, ap, bit_and, arith}
use kernel_porting.Bits.Step.{and-Splits}
use kernel_porting.Bits.{testbit-zero, testbit-bit_and, testbit_ext, div-two-pow, mod-two-pow}

zero-bit_and : (y : ℕ) → bit_and 0 y ≡ 0
zero-bit_and y = testbit_ext _ 0 λ i. ground (arith, testbit-bit_and i 0 y, testbit-zero i)

-- `&` works on the low `k` bits and on the others apart.
pub bit_and_split :
    (k x y : ℕ)
    → bit_and x y ≡ bit_and (x % 2 ^ k) (y % 2 ^ k) + 2 ^ k * bit_and (x / 2 ^ k) (y / 2 ^ k)
bit_and_split zero x y =
    let a : x % 2 ^ 0 ≡ 0 = omega arith in
    let b : x / 2 ^ 0 ≡ x = omega arith in
    let c : y / 2 ^ 0 ≡ y = omega arith in rw (a, b, c, zero-bit_and _) (omega arith)
bit_and_split (suc k) x y =
    let lows = and-Splits (x % 2 ^ suc k) (y % 2 ^ suc k) in
    let whole = and-Splits x y in
    let a : x % 2 ^ suc k / 2 ≡ x / 2 % 2 ^ k = omega (arith, mod-two-pow x k) in
    let b : y % 2 ^ suc k / 2 ≡ y / 2 % 2 ^ k = omega (arith, mod-two-pow y k) in
    let halves = rw (a, b) at (lows.halves) in
    rw (div-two-pow x k, div-two-pow y k)
      (omega (
        arith,
        halves,
        lows.parity,
        whole.halves,
        whole.parity,
        bit_and_split k (x / 2) (y / 2),
        mod-two-pow x k,
        mod-two-pow y k,
        ap (λ (t : ℕ). t * bit_and (x / 2 / 2 ^ k) (y / 2 / 2 ^ k)) (pow-suc 2 k),
      ))

below : (n x y : ℕ) → x ≤ n → bit_and x y ≤ x
below n zero y h = omega (arith, zero-bit_and y)
below zero (suc x) y h = absurd (omega arith)
below (suc n) (suc x) y h =
    let step = and-Splits (suc x) y in
    omega (arith, step.halves, step.parity, below n (suc x / 2) (y / 2))

pub bit_and-le : (x y : ℕ) → bit_and x y ≤ x
bit_and-le x y = below x x y (omega arith)

pub bit_and-le_right : (x y : ℕ) → bit_and x y ≤ y
bit_and-le_right x y =
    let turned : bit_and x y ≡ bit_and y x =
      testbit_ext _ _ λ i. ground (arith, testbit-bit_and i x y, testbit-bit_and i y x) in
    rw turned (bit_and-le y x)
