-- ===== src/Bitmap/Store.antt =====
-- The operations that store a bitmap: `__bitmap_and`, `__bitmap_andnot`, `__bitmap_or`, `__bitmap_xor` and `__bitmap_complement`, bit by
-- bit, with the result that the first two return and the bits behind the end of a bitmap.
use kernel_porting.Prelude.{
  ℕ, ◌+◌, ◌*◌, ◌/◌, ◌%◌, ◌^◌, ◌≤◌, ◌<◌, ◌≡◌, ◌≢◌, ◌↔◌, ◌⊎◌, ◌∙◌, inl, inr, Bool, false, Bool-cases,
  bit_and, bit_or, bit_xor, ◌||◌, arith, ◌==◌, ◌&&◌, sym, not, xor,
}
use kernel_porting.Word.{lnot, bits_to_longs, testbit-lnot}
use kernel_porting.Memory.{Memory, IsMemory, bit}
use kernel_porting.Bitmap.{
  store_loop, Outcome, andnot, __bitmap_and, __bitmap_or, __bitmap_xor, __bitmap_andnot,
  __bitmap_complement,
}
use kernel_porting.Bitmap.Loops.{CanOverlap, IsStored, store_loop-IsStored}
use kernel_porting.Bitmap.Pointwise.{
  and-IsBitwise, or-IsBitwise, xor-IsBitwise, andnot-IsBitwise, IsPointwise, store_loop-IsPointwise,
}
use kernel_porting.Bitmap.Masked.{IsMasked, store_masked-IsMasked}

-- `result != 0`
nonzero_iff : (r : ℕ) → (not (r == 0) ≡ false) ↔ (r ≡ 0)
nonzero_iff r = ground arith

-- What `__bitmap_and` and `__bitmap_andnot` promise: every bit of the bitmap at `dst` is `g` of the
-- old bits, the unused bits of the last word are cleared, the words outside the bitmap are
-- unchanged, and the result says whether a bit of the bitmap is set.
pub record IsMeet (g : Bool → Bool → Bool) (dst p q bits : ℕ) (m : Memory) (r : Memory × Bool)
    : Type 0 where
  pub pointwise : IsPointwise g dst p q bits m r.0
  pub tail : (i : ℕ) → bits ≤ i → i < bits_to_longs bits * 64 → bit r.0 dst i ≡ false
  pub empty : (r.1 ≡ false) ↔ ((i : ℕ) → i < bits → bit r.0 dst i ≡ false)

IsMasked-IsMeet :
    (g : Bool → Bool → Bool) (dst p q bits : ℕ) (m : Memory) (o : Outcome)
    → IsMasked g dst p q bits m o
    → IsMeet g dst p q bits m (o.memory, not (o.result == 0))
IsMasked-IsMeet g dst p q bits m o is = record {
  pointwise = is.pointwise;
  tail = is.tail;
  empty = (
    λ e i lt. is.pointwise.at i lt ∙ is.zero_result.0 ((nonzero_iff o.result).0 e) i lt,
    λ off.
        (nonzero_iff o.result).1 (is.zero_result.1 λ i lt. sym (is.pointwise.at i lt) ∙ off i lt),
  );
}

module _ (dst p q bits : ℕ) (m : Memory) (words : IsMemory m)
    (over_p : CanOverlap dst p (bits_to_longs bits))
    (over_q : CanOverlap dst q (bits_to_longs bits)) where
  -- `__bitmap_and` and `__bitmap_andnot`, for a size that fits an `unsigned int` and arrays that may
  -- overlap as `CanOverlap` allows, store `a & b` and `a & ~b` bit by bit, clear the unused bits of the
  -- last word, change nothing else, and return whether the bitmap stored has a bit set.
  pub bitmap_meets :
      bits < 2 ^ 32
      → IsMeet ◌&&◌ dst p q bits m (__bitmap_and dst p q bits m)
        × IsMeet (λ a b. a && not b) dst p q bits m (__bitmap_andnot dst p q bits m)
  unfolding __bitmap_and __bitmap_andnot
  bitmap_meets small = (
    IsMasked-IsMeet _ dst p q bits m _
        (store_masked-IsMasked bit_and _ and-IsBitwise dst p q bits m words over_p over_q small),
    IsMasked-IsMeet _ dst p q bits m _
        (store_masked-IsMasked andnot _ andnot-IsBitwise dst p q bits m words over_p over_q small),
  )

  -- `__bitmap_or` and `__bitmap_xor`, for arrays that may overlap as `CanOverlap` allows, store the
  -- union and the symmetric difference bit by bit and change no word outside the bitmap.
  pub bitmap_joins :
      IsPointwise ◌||◌ dst p q bits m (__bitmap_or dst p q bits m)
      × IsPointwise xor dst p q bits m (__bitmap_xor dst p q bits m)
  unfolding __bitmap_or __bitmap_xor
  bitmap_joins = (
    store_loop-IsPointwise bit_or _ or-IsBitwise dst p q bits m words over_p over_q,
    store_loop-IsPointwise bit_xor _ xor-IsBitwise dst p q bits m words over_p over_q,
  )

module _ (dst p bits : ℕ) (m : Memory) (words : IsMemory m)
    (over : CanOverlap dst p (bits_to_longs bits)) where
  complement-words :
      IsStored (λ a b. lnot a) (bits_to_longs bits) dst p p m (__bitmap_complement dst p bits m)
  unfolding __bitmap_complement
  complement-words =
      let lim = bits / 64 in
      let overlap : CanOverlap dst p lim = omega (arith, over) in
      let is = store_loop-IsStored (λ a b. lnot a) dst p p lim overlap overlap m in
      let m' = store_loop (λ a b. lnot a) lim 0 dst p p m in
      elim (Bool-cases (bits % 64 == 0)) [
        | inl even ↦ rw even (record {
          stored = λ k lt. is.stored k (ground arith);
          around = λ a h. is.around a (ground arith);
        })
        | inr odd ↦
            let ne : bits % 64 ≢ 0 = ground arith in
            let keep : m' (p + lim) ≡ m (p + lim) = is.around (p + lim) (omega arith) in
            rw odd (record {
              stored = λ k lt. ground (arith, is.stored k, keep);
              around = λ a h. ground (arith, is.around a);
            })
      ]

  -- `__bitmap_complement` flips every bit of the words that the bitmap takes up, the unused bits of
  -- the last word included, and changes no other word.
  pub __bitmap_complement_lem :
      ((i : ℕ)
        → i < bits_to_longs bits * 64
        → bit (__bitmap_complement dst p bits m) dst i ≡ not (bit m p i))
      × ((a : ℕ)
          → (a < dst) ⊎ (dst + bits_to_longs bits ≤ a)
          → __bitmap_complement dst p bits m a ≡ m a)
  __bitmap_complement_lem =
      let is = complement-words in
      (
        λ i lt.
            let at = is.stored (i / 64) (omega arith) in
            rw at (testbit-lnot (m (p + i / 64)) (i % 64) (words (p + i / 64)) ∙ ground arith),
        is.around,
      )

-- The unused bits of a bitmap: those of its last word that lie behind its end.
abbrev pub TailClear : (p bits : ℕ) → Memory → Type 0
TailClear p bits m = (i : ℕ) → bits ≤ i → i < bits_to_longs bits * 64 → bit m p i ≡ false

-- When `bits` is no multiple of 64, and the destination starts at or before the source or behind all of
-- the source's words (CanOverlap: so no store reaches a source word that is still to be read),
-- `__bitmap_complement` of a bitmap whose unused bits are all clear is a bitmap with unused bits set.
pub complement_dirty :
    (dst p bits : ℕ) (m : Memory)
    → IsMemory m
    → CanOverlap dst p (bits_to_longs bits)
    → bits % 64 ≢ 0
    → TailClear p bits m
    → ¬ TailClear dst bits (__bitmap_complement dst p bits m)
complement_dirty dst p bits m words over odd clear tail =
    let flips = (__bitmap_complement_lem dst p bits m words over).0 in
    let first_unused : bits < bits_to_longs bits * 64 = omega arith in
    ground (arith, flips bits, clear bits, tail bits)
