-- ===== src/FindBit/Last.antt =====
-- `find_last_bit` finds the last set bit.
use kernel_porting.Prelude.{
  ℕ, zero, suc, ◌+◌, ◌-◌, ◌*◌, ◌/◌, ◌%◌, ◌^◌, ◌≤◌, ◌<◌, ◌≡◌, ◌≢◌, ◌∙◌, inl, inr, dec_lt, Bool, true,
  false, Bool-cases, bit_and, arith, ltb, ◌==◌, ==_iff,
}
use kernel_porting.Bits.{testbit, testbit-zero, testbit_ones, testbit-bit_and, bit_and-lt_right}
use kernel_porting.Word.{ulong_max, bitmap_last_word_mask_long, testbit-last_mask_long}
use kernel_porting.Memory.{Memory, IsMemory, bit}
use kernel_porting.Bitops.Fls.{__fls, __fls-IsHighest}
use kernel_porting.FindBit.{last_loop, find_last_bit}

-- `r` is the greatest position below `n` at which `p` holds, or `n` if there is none.
pub record IsLast (p : ℕ → Bool) (n r : ℕ) : Type 0 where
  pub bound : r ≤ n
  pub hit : r < n → p r ≡ true
  pub none_above : (j : ℕ) → r < j → j < n → p j ≡ false
  pub none_at_all : r ≡ n → (j : ℕ) → j < n → p j ≡ false

module _ (m : Memory) (words : IsMemory m) (addr size : ℕ) where
  -- `val` masks the word `idx`, and no bit beyond that word is set.
  record AtWord (idx val : ℕ) : Type 0 where
    early : idx * 64 < size
    masks : (i : ℕ) → i < 64 → testbit val i ≡ ltb (idx * 64 + i) size
    above : (j : ℕ) → idx * 64 + 64 ≤ j → j < size → bit m addr j ≡ false

  in_word :
      (idx j : ℕ)
      → idx * 64 ≤ j
      → j < idx * 64 + 64
      → bit m addr j ≡ testbit (m (addr + idx)) (j - idx * 64)
  in_word idx j ge lt =
      let q : j / 64 ≡ idx = omega arith in let r : j % 64 ≡ j - idx * 64 = omega arith in rw (q, r)

  none_here :
      (idx val j : ℕ)
      → AtWord idx val
      → bit_and val (m (addr + idx)) ≡ 0
      → idx * 64 ≤ j
      → j < size
      → bit m addr j ≡ false
  none_here idx val j a off ge lt = elim (dec_lt j (idx * 64 + 64)) [
    | yes within ↦
        let i = j - idx * 64 in
        let e : idx * 64 + i ≡ j = omega arith in
        let both = testbit-bit_and i val (m (addr + idx)) in
        ground (
          arith,
          in_word idx j ge within,
          rw (off, testbit-zero i) at both,
          rw e at (a.masks i (omega arith)),
        )
    | no beyond ↦ a.above j (omega arith) lt
  ]

  found-IsLast :
      (idx val : ℕ)
      → AtWord idx val
      → bit_and val (m (addr + idx)) ≢ 0
      → IsLast (bit m addr) size (idx * 64 + __fls (bit_and val (m (addr + idx))))
  found-IsLast idx val a ne =
      let x = bit_and val (m (addr + idx)) in
      let (lt, high) = __fls-IsHighest x (bit_and-lt_right 64 val _ (words (addr + idx))) ne in
      let r = __fls x in
      let at = λ (i : ℕ). testbit-bit_and i val (m (addr + idx)) in
      let inside : idx * 64 + r < size = ground (arith, at r, high.on, a.masks r lt) in
      let d : idx * 64 + r - idx * 64 ≡ r = omega arith in
      let here = rw d at (in_word idx (idx * 64 + r) (omega arith) (omega arith)) in
      record {
        bound = omega arith;
        hit = λ h. ground (arith, here, at r, high.on);
        none_above = λ j gt small. elim (dec_lt j (idx * 64 + 64)) [
          | yes within ↦
              let i = j - idx * 64 in
              let e : idx * 64 + i ≡ j = omega arith in
              ground (
                arith,
                in_word idx j (omega arith) within,
                at i,
                high.above i (omega arith),
                rw e at (a.masks i (omega arith)),
              )
          | no beyond ↦ a.above j (omega arith) small
        ];
        none_at_all = λ e. absurd (omega arith);
      }

  last_loop-IsLast :
      (idx val : ℕ) → AtWord idx val → IsLast (bit m addr) size (last_loop m addr size idx val)
  unfolding last_loop
  last_loop-IsLast zero val a = elim (Bool-cases (bit_and val (m (addr + 0)) == 0)) [
    | inl off ↦
        let none_left : bit_and val (m (addr + 0)) ≡ 0 = (==_iff _ _).0 off in
        rw off (record {
          bound = omega arith;
          hit = λ h. absurd (omega arith);
          none_above = λ j gt small. absurd (omega arith);
          none_at_all = λ e j small. none_here 0 val j a none_left (omega arith) small;
        })
    | inr on ↦ rw on (found-IsLast 0 val a (ground arith))
  ]
  last_loop-IsLast (suc idx) val a = elim (Bool-cases (bit_and val (m (addr + suc idx)) == 0)) [
    | inl off ↦
        let none_left : bit_and val (m (addr + suc idx)) ≡ 0 = (==_iff _ _).0 off in
        let early = a.early in
        rw off (
          last_loop-IsLast idx ulong_max (record {
            early = omega arith;
            masks = λ i h. ground (arith, testbit_ones 64 i);
            above = λ j ge small. none_here (suc idx) val j a none_left (omega arith) small;
          }))
    | inr on ↦ rw on (found-IsLast (suc idx) val a (ground arith))
  ]

  -- For a size that fits an `unsigned long`, `find_last_bit` is the last set bit below `size`, or
  -- `size` if no bit below it is set.
  pub find_last_bit-IsLast : size < 2 ^ 64 → IsLast (bit m addr) size (find_last_bit m addr size)
  unfolding find_last_bit
  find_last_bit-IsLast room = elim (Bool-cases (size == 0)) [
    | inl empty ↦ rw empty (record {
      bound = omega arith;
      hit = λ h. absurd (omega arith);
      none_above = λ j gt small. absurd (omega arith);
      none_at_all = λ e j small. absurd (ground arith);
    })
    | inr some_bits ↦ rw some_bits (
        last_loop-IsLast ((size - 1) / 64) (bitmap_last_word_mask_long size) (record {
          early = ground arith;
          masks = λ i h. testbit-last_mask_long size i room ∙ ground arith;
          above = λ j ge small. absurd (omega arith);
        }))
  ]
