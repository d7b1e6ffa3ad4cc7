-- ===== src/Bitmap/Pointwise.antt =====
-- The bitmap operations that store a bitmap do to each bit what their name says.
use kernel_porting.Prelude.{
  ℕ, ◌+◌, ◌*◌, ◌/◌, ◌%◌, ◌^◌, ◌≤◌, ◌<◌, ◌≡◌, ◌↔◌, ◌⊎◌, ◌∙◌, dec_lt, Bool, false, bit_and, bit_or,
  bit_xor, ◌||◌, arith, ◌&&◌, sym, not, xor,
}
use kernel_porting.Bits.{
  testbit, testbit-zero, testbit-bit_and, testbit-bit_or, testbit-bit_xor, testbit-ge, testbit_ext,
  bit_and-lt, bit_or-lt, bit_xor-lt,
}
use kernel_porting.Word.{lnot, bits_to_longs, testbit-lnot}
use kernel_porting.Memory.{Memory, IsMemory, bit}
use kernel_porting.Bitmap.{store_loop, andnot}
use kernel_porting.Bitmap.Loops.{CanOverlap, IsStored, store_loop-IsStored}

-- `f` works on the words as `g` works on each bit.
pub record IsBitwise (f : ℕ → ℕ → ℕ) (g : Bool → Bool → Bool) : Type 0 where
  pub each :
      (a b i : ℕ)
      → a < 2 ^ 64
      → b < 2 ^ 64
      → i < 64
      → testbit (f a b) i ≡ g (testbit a i) (testbit b i)
  pub fits : (a b : ℕ) → a < 2 ^ 64 → b < 2 ^ 64 → f a b < 2 ^ 64

pub and-IsBitwise : IsBitwise bit_and ◌&&◌
and-IsBitwise = record {
  each = λ a b i h k lt. testbit-bit_and i a b;
  fits = λ a b h k. bit_and-lt 64 a b h;
}

pub or-IsBitwise : IsBitwise bit_or ◌||◌
or-IsBitwise = record {
  each = λ a b i h k lt. testbit-bit_or i a b;
  fits = λ a b h k. bit_or-lt 64 a b h k;
}

pub xor-IsBitwise : IsBitwise bit_xor xor
xor-IsBitwise = record {
  each = λ a b i h k lt. testbit-bit_xor i a b;
  fits = λ a b h k. bit_xor-lt 64 a b h k;
}

pub andnot-IsBitwise : IsBitwise andnot (λ x y. x && not y)
andnot-IsBitwise = record {
  each = λ a b i h k lt. ground (arith, testbit-bit_and i a (lnot b), testbit-lnot b i k);
  fits = λ a b h k. bit_and-lt 64 a (lnot b) h;
}

-- A word is zero exactly when its 64 bits are.
pub zero_iff : (v : ℕ) → v < 2 ^ 64 → (v ≡ 0) ↔ ((i : ℕ) → i < 64 → testbit v i ≡ false)
zero_iff v fits = (
  λ e i lt. rw e (testbit-zero i),
  λ off. testbit_ext v 0 λ i. elim (dec_lt i 64) [
    | yes lt ↦ off i lt ∙ sym (testbit-zero i)
    | no ge ↦ testbit-ge 64 v i fits (omega arith) ∙ sym (testbit-zero i)
  ],
)

-- Words are all zero exactly when their bits are.
pub words_zero_iff :
    (v : ℕ → ℕ) (n : ℕ)
    → ((j : ℕ) → v j < 2 ^ 64)
    → ((j : ℕ) → j < n → v j ≡ 0) ↔ ((i : ℕ) → i < n * 64 → testbit (v (i / 64)) (i % 64) ≡ false)
words_zero_iff v n fits = (
  λ off i lt. (zero_iff _ (fits (i / 64))).0 (off (i / 64) (omega arith)) (i % 64) (omega arith),
  λ off j lt. (zero_iff _ (fits j)).1 λ i small.
      let q : (j * 64 + i) / 64 ≡ j = omega arith in
      let r : (j * 64 + i) % 64 ≡ i = omega arith in rw (q, r) at (off (j * 64 + i) (omega arith)),
)

-- The bitmap at `dst` in `m'` is `g` of the bitmaps at `p` and `q` in `m`, bit by bit, and no word
-- outside the bitmap at `dst` has changed.
pub record IsPointwise (g : Bool → Bool → Bool) (dst p q bits : ℕ) (m m' : Memory) : Type 0 where
  pub at : (i : ℕ) → i < bits → bit m' dst i ≡ g (bit m p i) (bit m q i)
  pub around : (a : ℕ) → (a < dst) ⊎ (dst + bits_to_longs bits ≤ a) → m' a ≡ m a

module _ (f : ℕ → ℕ → ℕ) (g : Bool → Bool → Bool) (op : IsBitwise f g) (dst p q bits : ℕ)
    (m : Memory) (words : IsMemory m) (over_p : CanOverlap dst p (bits_to_longs bits))
    (over_q : CanOverlap dst q (bits_to_longs bits)) where
  pub stored_bit :
      (n : ℕ) (m' : Memory) (i : ℕ)
      → IsStored f n dst p q m m'
      → i < n * 64
      → bit m' dst i ≡ g (bit m p i) (bit m q i)
  stored_bit n m' i is lt =
      let at = is.stored (i / 64) (omega arith) in
      rw at (op.each _ _ (i % 64) (words (p + i / 64)) (words (q + i / 64)) (omega arith))

  pub store_loop-IsPointwise :
      IsPointwise g dst p q bits m (store_loop f (bits_to_longs bits) 0 dst p q m)
  store_loop-IsPointwise =
      let is = store_loop-IsStored f dst p q (bits_to_longs bits) over_p over_q m in
      record {
        at = λ i lt. stored_bit (bits_to_longs bits) _ i is (omega arith);
        around = is.around;
      }
