-- ===== src/Bits/Step.antt =====
-- One binary digit of the native `bit_and`, `bit_or` and `bit_xor`: what C computes by `&`, `|`, `^`.
use Prim.Native.Nat.{digits, bitwise, differ, bit_and-bitwise, bit_or-bitwise, bit_xor-bitwise}
use kernel_porting.Prelude.{
  ◌≤◌, ◌<◌, ◌≡◌, refl, ap, ◌∙◌, arith, min, max, ℕ, bit_xor, bit_or, bit_and, suc, zero, ◌-◌, ◌+◌,
  ◌%◌, ◌/◌, ◌*◌,
}

-- A run on fuel `k` that covers the left number is not changed by `spare` more.
digits_spare :
    (spare k left right : ℕ) (z : ℕ → ℕ) (op : ℕ → ℕ → ℕ)
    → left ≤ k
    → digits z op (k + spare) left right ≡ digits z op k left right
digits_spare spare (suc k) (suc left) right z op covers =
    let same : suc k + spare ≡ suc (k + spare) = omega arith in
    let tail = digits_spare spare k (suc left / 2) (right / 2) z op (omega arith) in
    rw same (ap (λ high. high * 2 + op (suc left % 2) (right % 2)) tail)
digits_spare spare zero (suc left) right z op covers = absurd (omega arith)
digits_spare spare (suc k) zero right z op covers =
    let same : suc k + spare ≡ suc (k + spare) = omega arith in rw same
digits_spare (suc spare) zero zero right z op covers =
    let same : 0 + suc spare ≡ suc spare = omega arith in rw same
digits_spare zero zero zero right z op covers = refl

-- What one digit of a bitwise operation is, in two parts.
pub record Splits (whole half last : ℕ) : Type 0 where
  pub halves : whole / 2 ≡ half
  pub parity : whole % 2 ≡ last

-- The lowest digit of `bitwise`, when `op` makes digits of digits.
bitwise-Splits :
    (z : ℕ → ℕ) (op : ℕ → ℕ → ℕ) (left right : ℕ)
    → op (suc left % 2) (right % 2) < 2
    → Splits
        (bitwise z op (suc left) right)
        (bitwise z op (suc left / 2) (right / 2))
        (op (suc left % 2) (right % 2))
bitwise-Splits z op left right digit =
    let half = suc left / 2 in
    let refuel : half + (left - half) ≡ left = omega arith in
    let tail = rw refuel at (digits_spare (left - half) half half (right / 2) z op (omega arith)) in
    record { halves = omega (arith, tail); parity = omega (arith, tail) }

pub and-Splits :
    (left right : ℕ)
    → Splits (bit_and left right) (bit_and (left / 2) (right / 2)) (min (left % 2) (right % 2))
and-Splits (suc left) right =
    simp bit_and-bitwise (bitwise-Splits (λ _. 0) min left right (omega arith))
and-Splits zero right = simp bit_and-bitwise (record { halves = refl; parity = omega arith })

pub or-Splits :
    (left right : ℕ)
    → Splits (bit_or left right) (bit_or (left / 2) (right / 2)) (max (left % 2) (right % 2))
or-Splits (suc left) right =
    simp bit_or-bitwise (bitwise-Splits (λ d. d) max left right (omega arith))
or-Splits zero right = simp bit_or-bitwise (record { halves = refl; parity = omega arith })

differ_digits : (x y : ℕ) → x < 2 → y < 2 → differ x y ≡ (x + y) % 2
differ_digits zero y h g = omega arith
differ_digits (suc zero) zero h g = refl
differ_digits (suc zero) (suc zero) h g = refl
differ_digits (suc zero) (suc (suc y)) h g = absurd (omega arith)
differ_digits (suc (suc x)) y h g = absurd (omega arith)

-- Two digits differ exactly when their sum is odd.
pub xor-Splits :
    (left right : ℕ)
    → Splits (bit_xor left right) (bit_xor (left / 2) (right / 2)) ((left % 2 + right % 2) % 2)
xor-Splits (suc left) right =
    let odd = differ_digits (suc left % 2) (right % 2) (omega arith) (omega arith) in
    let is = bitwise-Splits (λ d. d) differ left right (omega (arith, odd)) in
    simp bit_xor-bitwise (record { halves = is.halves; parity = is.parity ∙ odd })
xor-Splits zero right = simp bit_xor-bitwise (record { halves = refl; parity = omega arith })
