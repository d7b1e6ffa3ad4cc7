-- ===== src/Bits.antt =====
-- Machine words as native numbers, and the single bits of one: the vocabulary in which the bit
-- operations of bitops.h, bitmap.h and find_bit.c are specified. `unsigned long` has 64 bits
-- (porting.h defines CONFIG_64BIT).
mod Step
pub mod Split
pub mod Count
use Step.{Splits, and-Splits, or-Splits, xor-Splits}
use native.Mathlib.Nat.{
  pow-suc, one-le-pow, mul_comm, div-div-eq-div-mul, div-add-mod, mod-eq_of_lt, mod-lt,
}
use kernel_porting.Prelude.{
  ℕ, zero, suc, ◌+◌, ◌-◌, ◌*◌, ◌/◌, ◌%◌, ◌^◌, ◌≤◌, ◌<◌, ◌≡◌, ◌≢◌, inl, inr, Bool-cases, refl, sym,
  ap, ◌∙◌, Bool, true, false, not, xor, ◌&&◌, ◌||◌, bit_and, bit_or, bit_xor, arith, ltb, leb, ◌==◌,
  max,
}

-- bit `i` of `x`
unfoldable pub testbit : ℕ → ℕ → Bool
testbit x zero = x % 2 == 1
testbit x (suc i) = testbit (x / 2) i

pub testbit-zero : (i : ℕ) → testbit 0 i ≡ false
unfolding testbit
testbit-zero zero = refl
testbit-zero (suc i) = testbit-zero i

pub testbit-bit_and : (i a b : ℕ) → testbit (bit_and a b) i ≡ (testbit a i && testbit b i)
unfolding testbit
testbit-bit_and zero a b = let is = and-Splits a b in ground (arith, is.parity)
testbit-bit_and (suc i) a b = rw (and-Splits a b).halves (testbit-bit_and i (a / 2) (b / 2))

pub testbit-bit_or : (i a b : ℕ) → testbit (bit_or a b) i ≡ (testbit a i || testbit b i)
unfolding testbit
testbit-bit_or zero a b = let is = or-Splits a b in ground (arith, is.parity)
testbit-bit_or (suc i) a b = rw (or-Splits a b).halves (testbit-bit_or i (a / 2) (b / 2))

pub testbit-bit_xor : (i a b : ℕ) → testbit (bit_xor a b) i ≡ xor (testbit a i) (testbit b i)
unfolding testbit xor
testbit-bit_xor zero a b = let is = xor-Splits a b in ground (arith, is.parity)
testbit-bit_xor (suc i) a b = rw (xor-Splits a b).halves (testbit-bit_xor i (a / 2) (b / 2))

digits_ext : (n a b : ℕ) → a + b ≤ n → ((i : ℕ) → testbit a i ≡ testbit b i) → a ≡ b
unfolding testbit
digits_ext zero a b h e = omega arith
digits_ext (suc n) zero zero h e = refl
digits_ext (suc n) a b h e =
    let half : a / 2 ≡ b / 2 = digits_ext n (a / 2) (b / 2) (omega arith) (λ i. e (suc i)) in
    ground (arith, half, e 0)

-- A number is determined by its bits.
pub testbit_ext : (x y : ℕ) → ((i : ℕ) → testbit x i ≡ testbit y i) → x ≡ y
testbit_ext x y h = digits_ext (x + y) x y (omega arith) h

pub div-two-pow : (x k : ℕ) → x / 2 ^ suc k ≡ x / 2 / 2 ^ k
div-two-pow x k =
    ap (λ d. x / d) (pow-suc 2 k ∙ mul_comm (2 ^ k) 2) ∙ sym (div-div-eq-div-mul x 2 (2 ^ k))

pub mod-two-pow : (x k : ℕ) → x % 2 ^ suc k ≡ x / 2 % 2 ^ k * 2 + x % 2
mod-two-pow x k = omega (
  arith,
  div-two-pow x k,
  div-add-mod x (2 ^ suc k),
  div-add-mod (x / 2) (2 ^ k),
  ap (λ (t : ℕ). t * (x / 2 / 2 ^ k)) (pow-suc 2 k),
  ap (λ (t : ℕ). 2 ^ suc k * t) (div-two-pow x k),
)

mul-two-pow : (x k : ℕ) → x * 2 ^ suc k ≡ x * 2 ^ k * 2
mul-two-pow x k = omega (arith, ap (λ (t : ℕ). x * t) (pow-suc 2 k))

-- `x << k`, before it is cut to a width.
pub testbit-shl : (k x i : ℕ) → testbit (x * 2 ^ k) i ≡ (leb k i && testbit x (i - k))
unfolding testbit
testbit-shl zero x i =
    let same : x * 2 ^ 0 ≡ x = omega arith in
    let start : i - 0 ≡ i = omega arith in rw (same, start) (ground arith)
testbit-shl (suc k) x zero = ground (arith, mul-two-pow x k)
testbit-shl (suc k) x (suc i) =
    let half : x * 2 ^ suc k / 2 ≡ x * 2 ^ k = omega (arith, mul-two-pow x k) in
    let less : suc i - suc k ≡ i - k = omega arith in
    rw (half, less) (testbit-shl k x i ∙ ground arith)

-- `x >> k`.
pub testbit-shr : (k x i : ℕ) → testbit (x / 2 ^ k) i ≡ testbit x (k + i)
unfolding testbit
testbit-shr zero x i =
    let same : x / 2 ^ 0 ≡ x = omega arith in
    let start : 0 + i ≡ i = omega arith in rw (same, start)
testbit-shr (suc k) x i =
    let next : suc k + i ≡ suc (k + i) = omega arith in
    rw (div-two-pow x k, next) (testbit-shr k (x / 2) i)

-- Cutting to `k` bits.
pub testbit-mod : (k x i : ℕ) → testbit (x % 2 ^ k) i ≡ (ltb i k && testbit x i)
unfolding testbit
testbit-mod zero x i =
    let none_left : x % 2 ^ 0 ≡ 0 = omega arith in rw (none_left, testbit-zero) (ground arith)
testbit-mod (suc k) x zero = ground (arith, mod-two-pow x k)
testbit-mod (suc k) x (suc i) =
    let half : x % 2 ^ suc k / 2 ≡ x / 2 % 2 ^ k = omega (arith, mod-two-pow x k) in
    rw half (testbit-mod k (x / 2) i ∙ ground arith)

-- `~x` at width `w`.
pub testbit-not :
    (w x i : ℕ) → x < 2 ^ w → testbit (2 ^ w - 1 - x) i ≡ (ltb i w && not (testbit x i))
unfolding testbit
testbit-not zero x i h =
    let none_left : 2 ^ 0 - 1 - x ≡ 0 = omega arith in rw (none_left, testbit-zero) (ground arith)
testbit-not (suc w) x zero h = ground (arith, pow-suc 2 w)
testbit-not (suc w) x (suc i) h =
    let half : (2 ^ suc w - 1 - x) / 2 ≡ 2 ^ w - 1 - x / 2 = omega (arith, pow-suc 2 w) in
    rw half (testbit-not w (x / 2) i (omega (arith, pow-suc 2 w)) ∙ ground arith)

pub testbit-ge : (w x i : ℕ) → x < 2 ^ w → w ≤ i → testbit x i ≡ false
testbit-ge w x i h g = ground (arith, testbit-mod w x i, mod-eq_of_lt h)

pub testbit_ones : (k i : ℕ) → testbit (2 ^ k - 1) i ≡ ltb i k
testbit_ones k i =
    let none_off : 2 ^ k - 1 ≡ 2 ^ k - 1 - 0 = omega arith in
    rw none_off (testbit-not k 0 i (one-le-pow k 2 (omega arith)) ∙ ground (arith, testbit-zero i))

pub testbit_one : (i : ℕ) → testbit 1 i ≡ (i == 0)
testbit_one i = testbit_ones 1 i ∙ ground arith

-- `x & (2^k - 1)` is a remainder.
pub bit_and_ones : (k x : ℕ) → bit_and x (2 ^ k - 1) ≡ x % 2 ^ k
bit_and_ones k x =
    testbit_ext _ _ λ i. rw (testbit-bit_and, testbit_ones, testbit-mod) (ground arith)

pub lt-two-pow : (x : ℕ) → x < 2 ^ x
lt-two-pow zero = omega arith
lt-two-pow (suc x) = omega (arith, lt-two-pow x, pow-suc 2 x)

-- A number that is not zero has a bit set.
pub has_bit : (w x : ℕ) → x < 2 ^ w → x ≢ 0 → (i : ℕ) × (i < w) × (testbit x i ≡ true)
unfolding testbit
has_bit zero x h ne = absurd (ne (omega arith))
has_bit (suc w) x h ne = elim (Bool-cases (x % 2 == 1)) [
  | inl odd ↦ (0, omega arith, odd)
  | inr even ↦
      let (i, lt, on) = has_bit w (x / 2) (omega (arith, pow-suc 2 w)) (ground arith) in
      (suc i, omega arith, on)
]

-- The highest bit of a number bounds it on both sides.
pub bounds_of_highest :
    (r x : ℕ)
    → testbit x r ≡ true
    → ((j : ℕ) → r < j → testbit x j ≡ false)
    → (2 ^ r ≤ x) × (x < 2 ^ suc r)
unfolding testbit
bounds_of_highest zero x on above =
    let none_left : x / 2 ≡ 0 =
      testbit_ext (x / 2) 0 (λ i. above (suc i) (omega arith) ∙ sym (testbit-zero i)) in
    ground arith
bounds_of_highest (suc r) x on above =
    let half = bounds_of_highest r (x / 2) on (λ j h. above (suc j) (omega arith)) in
    omega (arith, pow-suc 2 r, pow-suc 2 (suc r))

-- A number whose bits all stand below `w` fits `w` bits.
pub lt_of_bits : (w x : ℕ) → ((i : ℕ) → w ≤ i → testbit x i ≡ false) → x < 2 ^ w
lt_of_bits w x h =
    let same : x ≡ x % 2 ^ w = testbit_ext _ _ λ i. ground (arith, testbit-mod w x i, h i) in
    rw same (mod-lt x (one-le-pow w 2 (omega arith)))

pub bit_and-lt : (w x y : ℕ) → x < 2 ^ w → bit_and x y < 2 ^ w
bit_and-lt w x y h = lt_of_bits w _ λ i g. ground (arith, testbit-bit_and i x y, testbit-ge w x i h)

pub bit_and-lt_right : (w x y : ℕ) → y < 2 ^ w → bit_and x y < 2 ^ w
bit_and-lt_right w x y h =
    lt_of_bits w _ λ i g. ground (arith, testbit-bit_and i x y, testbit-ge w y i h)

pub bit_or-lt : (w x y : ℕ) → x < 2 ^ w → y < 2 ^ w → bit_or x y < 2 ^ w
bit_or-lt w x y h k =
    lt_of_bits w _
      λ i g. ground (arith, testbit-bit_or i x y, testbit-ge w x i h, testbit-ge w y i k)

pub bit_xor-lt : (w x y : ℕ) → x < 2 ^ w → y < 2 ^ w → bit_xor x y < 2 ^ w
unfolding xor
bit_xor-lt w x y h k =
    lt_of_bits w _
      λ i g. ground (arith, testbit-bit_xor i x y, testbit-ge w x i h, testbit-ge w y i k)
