-- ===== src/FindBit/First.antt =====
-- The functions `find_first_bit` and `find_first_zero_bit` of find_bit.c against the macros that the
-- configuration puts in their place.
use kernel_porting.Prelude.{
  ℕ, zero, suc, ◌+◌, ◌-◌, ◌*◌, ◌/◌, ◌%◌, ◌^◌, ◌≤◌, ◌<◌, ◌≡◌, ◌∙◌, ap, inl, inr, min, dec_lt, Bool,
  true, false, not, Bool-cases, some, arith, ltb, ◌==◌, ==_iff,
}
use kernel_porting.Bits.{testbit, testbit-zero, testbit_ones, testbit-ge}
use kernel_porting.Word.{ulong_max}
use kernel_porting.Memory.{Memory, IsMemory, bit}
use kernel_porting.Bitops.Ffs.{__ffs, ffz, __ffs-IsLowest, ffz_lem}
use kernel_porting.FindBit.{
  find_first_bit, find_first_zero_bit, first_loop, generic_find_first_bit,
  generic_find_first_zero_bit,
}
use kernel_porting.FindBit.Next.{IsNext, find_next_bit-IsNext, find_next_zero_bit-IsNext}

-- Two answers to one search are the same.
pub IsNext-unique :
    (p : ℕ → Bool) (n from r s : ℕ) → from ≤ n → IsNext p n from r → IsNext p n from s → r ≡ s
IsNext-unique p n from r s h a b = ground (arith, a.hit, b.hit, a.skipped s, b.skipped r)

-- What `skip` and `pick` have to tell of a word: `g` says which bits are wanted.
record Picks (g : Bool → Bool) (skip : ℕ → Bool) (pick : ℕ → ℕ) (word : ℕ) : Type 0 where
  none_here : skip word ≡ true → (i : ℕ) → i < 64 → g (testbit word i) ≡ false
  some_here :
      skip word ≡ false
      → (pick word < 64)
        × (g (testbit word (pick word)) ≡ true)
        × ((j : ℕ) → j < pick word → g (testbit word j) ≡ false)

module _ (m : Memory) (addr size : ℕ) (room : size + 64 ≤ 2 ^ 64) (g : Bool → Bool)
    (skip : ℕ → Bool) (pick : ℕ → ℕ) (picks : (a : ℕ) → Picks g skip pick (m a)) where
  abbrev wanted : ℕ → Bool
  wanted j = g (bit m addr j)

  in_word :
      (idx j : ℕ)
      → idx * 64 ≤ j
      → j < idx * 64 + 64
      → wanted j ≡ g (testbit (m (addr + idx)) (j - idx * 64))
  in_word idx j ge lt =
      let q : j / 64 ≡ idx = omega arith in let r : j % 64 ≡ j - idx * 64 = omega arith in rw (q, r)

  found-IsNext :
      (idx : ℕ)
      → ((j : ℕ) → j < idx * 64 → j < size → wanted j ≡ false)
      → idx * 64 < size
      → skip (m (addr + idx)) ≡ false
      → IsNext wanted size 0 (min (idx * 64 + pick (m (addr + idx))) size)
  found-IsNext idx before more on =
      let (small, there, below) = (picks (addr + idx)).some_here on in
      let i = pick (m (addr + idx)) in
      record {
        bound = omega arith;
        hit = λ h.
            let e : min (idx * 64 + i) size ≡ idx * 64 + i = omega arith in
            let d : idx * 64 + i - idx * 64 ≡ i = omega arith in
            let here = rw d at (in_word idx (idx * 64 + i) (omega arith) (omega arith)) in
            rw e (here ∙ there, omega arith);
        skipped = λ j ge lt. elim (dec_lt j (idx * 64)) [
          | yes early ↦ before j early (omega arith)
          | no late ↦ in_word idx j (omega arith) (omega arith) ∙ below (j - idx * 64) (omega arith)
        ];
      }

  first_loop-IsNext :
      (fuel idx : ℕ)
      → idx * 64 < size + 64
      → ((j : ℕ) → j < idx * 64 → j < size → wanted j ≡ false)
      → size + 64 ≤ (idx + fuel) * 64
      → (r : ℕ) × (first_loop skip pick fuel m addr size idx ≡ some r) × IsNext wanted size 0 r
  unfolding first_loop
  first_loop-IsNext zero idx near before enough = absurd (omega arith)
  first_loop-IsNext (suc fuel) idx near before enough =
      let base : idx * 64 % 2 ^ 64 ≡ idx * 64 = omega arith in
      elim (Bool-cases (ltb (idx * 64) size)) [
        | inr ended ↦ (
          size,
          rw (base, ended),
          record {
            bound = omega arith;
            hit = λ h. absurd (omega arith);
            skipped = λ j ge lt. before j (ground arith) lt;
          },
        )
        | inl more ↦ elim (Bool-cases (skip (m (addr + idx)))) [
          | inl off ↦
              rw (base, more, off)
                (first_loop-IsNext fuel (idx + 1) (ground arith)
                  (λ j lt small. elim (dec_lt j (idx * 64)) [
                    | yes early ↦ before j early small
                    | no late ↦
                        in_word idx j (omega arith) (omega arith)
                        ∙ (picks (addr + idx)).none_here off (j - idx * 64) (omega arith)
                  ])
                  (omega arith))
          | inr on ↦ (
            min (idx * 64 + pick (m (addr + idx))) size,
            rw (base, more, on),
            found-IsNext idx before (ground arith) on,
          )
        ]
      ]

module _ (m : Memory) (words : IsMemory m) (addr size : ℕ) (room : size + 64 ≤ 2 ^ 64) where
  set-Picks : (a : ℕ) → Picks (λ b. b) (λ word. word == 0) __ffs (m a)
  set-Picks a = record {
    none_here =
        λ off i h. let none_left : m a ≡ 0 = (==_iff _ _).0 off in rw none_left (testbit-zero i);
    some_here = λ on.
        let low = __ffs-IsLowest (m a) (words a) (ground arith) in
        (ground (arith, testbit-ge 64 (m a) (__ffs (m a)) (words a), low.on), low.on, low.below);
  }

  clear-Picks : (a : ℕ) → Picks not (λ word. word == ulong_max) ffz (m a)
  clear-Picks a = record {
    none_here = λ off i h.
        let all_left : m a ≡ ulong_max = (==_iff _ _).0 off in
        rw all_left (ground (arith, testbit_ones 64 i));
    some_here = λ on.
        let small : m a < ulong_max = let lt = words a in ground arith in
        let (there, lt, below) = ffz_lem (m a) small in
        (lt, ground arith, λ j h. ground (arith, below j h));
  }

  -- The function `find_first_bit` of find_bit.c returns, with the result of the macro
  -- `find_first_bit`, and this is the lowest set bit below `size`, or `size` if there is none. The same
  -- holds of `find_first_zero_bit` and the lowest clear bit.
  pub find_first_lem :
      ((r : ℕ) × (generic_find_first_bit m addr size ≡ some r)
        × (find_first_bit m addr size ≡ some r)
        × IsNext (bit m addr) size 0 r)
      × ((r : ℕ) × (generic_find_first_zero_bit m addr size ≡ some r)
          × (find_first_zero_bit m addr size ≡ some r)
          × IsNext (λ j. not (bit m addr j)) size 0 r)
  unfolding generic_find_first_bit generic_find_first_zero_bit find_first_bit find_first_zero_bit
  find_first_lem =
      let (r, e, is) =
        first_loop-IsNext m addr size room (λ b. b) (λ word. word == 0) __ffs set-Picks
          (size / 64 + 2) 0 (omega arith) (λ j h. absurd (omega arith)) (omega arith) in
      let (s, d, is') = find_next_bit-IsNext m words addr size room 0 in
      let (t, f, has) =
        first_loop-IsNext m addr size room not (λ word. word == ulong_max) ffz clear-Picks
          (size / 64 + 2) 0 (omega arith) (λ j h. absurd (omega arith)) (omega arith) in
      let (u, g, has') = find_next_zero_bit-IsNext m words addr size room 0 in
      (
        (r, e, d ∙ ap some (IsNext-unique _ size 0 s r (omega arith) is' is), is),
        (t, f, g ∙ ap some (IsNext-unique _ size 0 u t (omega arith) has' has), has),
      )
