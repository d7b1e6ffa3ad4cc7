-- ===== src/Bitops/Rotate.antt =====
-- The rotations of bitops.h. The 16-bit and 8-bit operands are widened to `int` before the shifts, and
-- the result is cut to its type. A shift by the full width is not defined in C.
use native.Mathlib.Nat.{mod-lt, one-le-pow}
use kernel_porting.Prelude.{
  ℕ, ◌+◌, ◌-◌, ◌*◌, ◌/◌, ◌%◌, ◌^◌, ◌<◌, ◌≡◌, ◌∙◌, ap, arith, bit_and, bit_or, ltb, ◌||◌, dec_lt,
  if◌then◌else◌,
}
use kernel_porting.Bits.{
  testbit, testbit_ext, testbit-bit_or, testbit-mod, testbit-shl, testbit-shr, testbit-ge,
  bit_and_ones,
}
use kernel_porting.Word.{shl, shr}

unfoldable pub rol64 : (word shift : ℕ) → ℕ
rol64 word shift = bit_or (shl word shift) (shr word (64 - shift))

unfoldable pub ror64 : (word shift : ℕ) → ℕ
ror64 word shift = bit_or (shr word shift) (shl word (64 - shift))

unfoldable pub rol32 : (word shift : ℕ) → ℕ
rol32 word shift =
    bit_or (word * 2 ^ shift % 2 ^ 32) (word / 2 ^ bit_and ((2 ^ 32 - shift) % 2 ^ 32) 31)

unfoldable pub ror32 : (word shift : ℕ) → ℕ
ror32 word shift = bit_or (word / 2 ^ shift) (word * 2 ^ (32 - shift) % 2 ^ 32)

unfoldable pub rol16 : (word shift : ℕ) → ℕ
rol16 word shift = bit_or (word * 2 ^ shift) (word / 2 ^ (16 - shift)) % 2 ^ 16

unfoldable pub ror16 : (word shift : ℕ) → ℕ
ror16 word shift = bit_or (word / 2 ^ shift) (word * 2 ^ (16 - shift)) % 2 ^ 16

unfoldable pub rol8 : (word shift : ℕ) → ℕ
rol8 word shift = bit_or (word * 2 ^ shift) (word / 2 ^ (8 - shift)) % 2 ^ 8

unfoldable pub ror8 : (word shift : ℕ) → ℕ
ror8 word shift = bit_or (word / 2 ^ shift) (word * 2 ^ (8 - shift)) % 2 ^ 8

-- The bit of the operand that a rotation to the left by `s`, within `w` bits, moves to bit `i`.
abbrev pub origin : (w s i : ℕ) → ℕ
origin w s i = if ltb i s then i + (w - s) else i - s

-- `y` is `x` rotated left by `s` within `w` bits.
pub record IsRotation (w s x y : ℕ) : Type 0 where
  pub bits : (i : ℕ) → i < w → testbit y i ≡ testbit x (origin w s i)
  pub fits : y < 2 ^ w

module _ (w s x : ℕ) (fits : x < 2 ^ w) (inside : s < w) where
  left_bit :
      (i : ℕ)
      → i < w
      → (testbit (x * 2 ^ s) i || testbit (x / 2 ^ (w - s)) i) ≡ testbit x (origin w s i)
  left_bit i h = elim (dec_lt i s) [
    | yes low ↦
        let e : w - s + i ≡ i + (w - s) = omega arith in
        let right = testbit-shr (w - s) x i ∙ ap (testbit x) e in
        ground (arith, testbit-shl s x i, right)
    | no high ↦
        ground (arith, testbit-shl s x i, testbit-shr (w - s) x i, testbit-ge w x (w - s + i) fits)
  ]

  -- Both shifts are cut to the width.
  cut-IsRotation : IsRotation w s x (bit_or (x * 2 ^ s) (x / 2 ^ (w - s)) % 2 ^ w)
  cut-IsRotation = record {
    bits = λ i h.
        testbit-mod w (bit_or (x * 2 ^ s) (x / 2 ^ (w - s))) i
        ∙ ground (arith, testbit-bit_or i (x * 2 ^ s) (x / 2 ^ (w - s)), left_bit i h);
    fits = mod-lt _ (one-le-pow w 2 (omega arith));
  }

  -- The left shift alone is cut, which is no different.
  cut_left :
      bit_or (x * 2 ^ s % 2 ^ w) (x / 2 ^ (w - s)) ≡ bit_or (x * 2 ^ s) (x / 2 ^ (w - s)) % 2 ^ w
  cut_left = testbit_ext _ _ λ i. ground (
    arith,
    testbit-bit_or i (x * 2 ^ s % 2 ^ w) (x / 2 ^ (w - s)),
    testbit-bit_or i (x * 2 ^ s) (x / 2 ^ (w - s)),
    testbit-mod w (x * 2 ^ s) i,
    testbit-mod w (bit_or (x * 2 ^ s) (x / 2 ^ (w - s))) i,
    testbit-shr (w - s) x i,
    testbit-ge w x (w - s + i) fits,
  )

swap_or : (a b : ℕ) → bit_or a b ≡ bit_or b a
swap_or a b = testbit_ext _ _ λ i. ground (arith, testbit-bit_or i a b, testbit-bit_or i b a)

-- A rotation to the right by `s` is one to the left by `w - s`.
module _ (w s x : ℕ) (fits : x < 2 ^ w) (inside : s < w) (moves : 0 < s) where
  right-IsRotation : IsRotation w (w - s) x (bit_or (x / 2 ^ s) (x * 2 ^ (w - s)) % 2 ^ w)
  right-IsRotation =
      let back : w - (w - s) ≡ s = omega arith in
      let is = rw back at (cut-IsRotation w (w - s) x fits (omega arith)) in
      rw (swap_or (x / 2 ^ s) (x * 2 ^ (w - s))) is

  cut_right :
      bit_or (x / 2 ^ s) (x * 2 ^ (w - s) % 2 ^ w) ≡ bit_or (x / 2 ^ s) (x * 2 ^ (w - s)) % 2 ^ w
  cut_right =
      let back : w - (w - s) ≡ s = omega arith in
      let is = rw back at (cut_left w (w - s) x fits (omega arith)) in
      rw (swap_or (x / 2 ^ s) (x * 2 ^ (w - s) % 2 ^ w), swap_or (x / 2 ^ s) (x * 2 ^ (w - s))) is

-- For shifts from one to one less than the width, `rol64` and `rol32` rotate to the left and `ror64`
-- and `ror32` to the right: a rotation to the left by the width less the shift.
pub rotate_long_lem :
    (x s y t : ℕ)
    → x < 2 ^ 64
    → 0 < s
    → s < 64
    → y < 2 ^ 32
    → 0 < t
    → t < 32
    → IsRotation 64 s x (rol64 x s)
      × IsRotation 64 (64 - s) x (ror64 x s)
      × IsRotation 32 t y (rol32 y t)
      × IsRotation 32 (32 - t) y (ror32 y t)
unfolding rol64 ror64 rol32 ror32
rotate_long_lem x s y t fits_x s_pos s_lt fits_y t_pos t_lt =
    let minus : bit_and ((2 ^ 32 - t) % 2 ^ 32) 31 ≡ 32 - t = bit_and_ones 5 _ ∙ omega arith in
    (
      rw (cut_left 64 s x fits_x s_lt) (cut-IsRotation 64 s x fits_x s_lt),
      rw (cut_right 64 s x fits_x s_lt s_pos) (right-IsRotation 64 s x fits_x s_lt s_pos),
      rw (minus, cut_left 32 t y fits_y t_lt) (cut-IsRotation 32 t y fits_y t_lt),
      rw (cut_right 32 t y fits_y t_lt t_pos) (right-IsRotation 32 t y fits_y t_lt t_pos),
    )

-- For shifts from one to one less than the width, `rol16` and `rol8` rotate to the left and `ror16`
-- and `ror8` to the right: a rotation to the left by the width less the shift.
pub rotate_short_lem :
    (x s y t : ℕ)
    → x < 2 ^ 16
    → 0 < s
    → s < 16
    → y < 2 ^ 8
    → 0 < t
    → t < 8
    → IsRotation 16 s x (rol16 x s)
      × IsRotation 16 (16 - s) x (ror16 x s)
      × IsRotation 8 t y (rol8 y t)
      × IsRotation 8 (8 - t) y (ror8 y t)
unfolding rol16 ror16 rol8 ror8
rotate_short_lem x s y t fits_x s_pos s_lt fits_y t_pos t_lt = (
  cut-IsRotation 16 s x fits_x s_lt,
  right-IsRotation 16 s x fits_x s_lt s_pos,
  cut-IsRotation 8 t y fits_y t_lt,
  right-IsRotation 8 t y fits_y t_lt t_pos,
)
