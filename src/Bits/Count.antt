-- ===== src/Bits/Count.antt =====
-- The number of set bits among the lowest bits of a number: what hweight.c and `__bitmap_weight` count.
use kernel_porting.Prelude.{
  ℕ, zero, suc, ◌+◌, ◌/◌, ◌%◌, ◌^◌, ◌≤◌, ◌≡◌, refl, Bool, arith, if◌then◌else◌,
}
use kernel_porting.Bits.{div-two-pow, mod-two-pow}

-- how many of the bits `0` to `w - 1` of `x` are set
unfoldable pub count : ℕ → ℕ → ℕ
count zero x = 0
count (suc w) x = x % 2 + count w (x / 2)

pub count-le : (w x : ℕ) → count w x ≤ w
unfolding count
count-le zero x = omega arith
count-le (suc w) x = omega (arith, count-le w (x / 2))

-- Counting in two parts.
pub count-add : (v w x : ℕ) → count (v + w) x ≡ count v x + count w (x / 2 ^ v)
unfolding count
count-add zero w x =
    let a : 0 + w ≡ w = omega arith in
    let b : x / 2 ^ 0 ≡ x = omega arith in rw (a, b) (omega arith)
count-add (suc v) w x =
    let a : suc v + w ≡ suc (v + w) = omega arith in
    rw (a, div-two-pow x v) (omega (arith, count-add v w (x / 2)))

-- Only the bits that are counted matter.
pub count-mod : (w x : ℕ) → count w (x % 2 ^ w) ≡ count w x
unfolding count
count-mod zero x = refl
count-mod (suc w) x =
    let half : x % 2 ^ suc w / 2 ≡ x / 2 % 2 ^ w = omega (arith, mod-two-pow x w) in
    rw half (omega (arith, mod-two-pow x w, count-mod w (x / 2)))

-- The count bit by bit: the number of positions below `n` at which `p` holds.
unfoldable pub tally : (ℕ → Bool) → ℕ → ℕ
tally p zero = 0
tally p (suc n) = tally p n + (if p n then 1 else 0)

pub count-zero : (w : ℕ) → count w 0 ≡ 0
unfolding count
count-zero zero = refl
count-zero (suc w) = omega (arith, count-zero w)
