-- ===== src/Bitops/Single/Laws.antt =====
-- What the single-bit operations do to the bit that they name, to the other bits, and to the words
-- around it.
use kernel_porting.Prelude.{
  ℕ, ◌+◌, ◌/◌, ◌%◌, ◌≡◌, ◌≢◌, ◌∙◌, Bool, true, false, not, xor, bit_and, bit_or, bit_xor, arith,
  ◌==◌, if◌then◌else◌, inl, inr, Bool-cases, ==_iff, ap,
}
use kernel_porting.Bits.{
  testbit, testbit-zero, testbit-bit_and, testbit-bit_or, testbit-bit_xor, testbit-shr, testbit_one,
  testbit_ext, testbit-mod, bit_and-lt, bit_or-lt, bit_xor-lt, has_bit, lt-two-pow,
}
use kernel_porting.Word.{lnot, bit_mask, testbit-bit_mask, testbit-lnot, bit_mask-lt, bit_and_63}
use kernel_porting.Memory.{Memory, write, write-IsMemory, IsMemory, bit}
use kernel_porting.Bitops.Single.{
  __set_bit, __clear_bit, __change_bit, __test_and_set_bit, __test_and_clear_bit,
  __test_and_change_bit, test_bit, set_bit, clear_bit, change_bit, test_and_set_bit,
  test_and_clear_bit, test_and_change_bit, local_irq_save, local_irq_restore, section,
}

module _ (nr addr : ℕ) (m : Memory) where
  -- A write of the word that holds bit `nr`, read back bit by bit.
  bit-write :
      (v j : ℕ)
      → bit (write m (addr + nr / 64) v) addr j
        ≡ (if j / 64 == nr / 64 then testbit v (j % 64) else bit m addr j)
  bit-write v j = ground arith

-- `m'` is `m` with bit `nr` of the bit string at `addr` put through `f`, and nothing else changed.
pub record IsUpdate (nr addr : ℕ) (f : Bool → Bool) (m m' : Memory) : Type 0 where
  pub bits : (j : ℕ) → bit m' addr j ≡ (if j == nr then f (bit m addr j) else bit m addr j)
  pub around : (a : ℕ) → a ≢ addr + nr / 64 → m' a ≡ m a
  pub words : IsMemory m'

module _ (nr addr : ℕ) (m : Memory) (words : IsMemory m) where
  abbrev there : ℕ
  there = addr + nr / 64

  set-IsUpdate : IsUpdate nr addr (λ _. true) m (write m there (bit_or (m there) (bit_mask nr)))
  set-IsUpdate = record {
    bits = λ j.
        bit-write nr addr m _ j
        ∙ ground
            (arith, testbit-bit_or (j % 64) (m there) (bit_mask nr), testbit-bit_mask nr (j % 64));
    around = λ a ne. ground arith;
    words = write-IsMemory m _ _ words (bit_or-lt 64 _ _ (words there) (bit_mask-lt nr));
  }

  clear-IsUpdate :
      IsUpdate nr addr (λ _. false) m (write m there (bit_and (m there) (lnot (bit_mask nr))))
  clear-IsUpdate = record {
    bits = λ j.
        bit-write nr addr m _ j
        ∙ ground (
          arith,
          testbit-bit_and (j % 64) (m there) (lnot (bit_mask nr)),
          testbit-lnot (bit_mask nr) (j % 64) (bit_mask-lt nr),
          testbit-bit_mask nr (j % 64),
        );
    around = λ a ne. ground arith;
    words = write-IsMemory m _ _ words (bit_and-lt 64 _ _ (words there));
  }

  change-IsUpdate : IsUpdate nr addr not m (write m there (bit_xor (m there) (bit_mask nr)))
  unfolding xor
  change-IsUpdate = record {
    bits = λ j.
        bit-write nr addr m _ j
        ∙ ground
            (arith, testbit-bit_xor (j % 64) (m there) (bit_mask nr), testbit-bit_mask nr (j % 64));
    around = λ a ne. ground arith;
    words = write-IsMemory m _ _ words (bit_xor-lt 64 _ _ (words there) (bit_mask-lt nr));
  }

  -- `__set_bit`, `__clear_bit` and `__change_bit` set, clear and flip the bit that they name; all
  -- other bits of the string and all other words of memory keep their value.
  pub updates_lem :
      IsUpdate nr addr (λ _. true) m (__set_bit nr addr m)
      × IsUpdate nr addr (λ _. false) m (__clear_bit nr addr m)
      × IsUpdate nr addr not m (__change_bit nr addr m)
  unfolding __set_bit __clear_bit __change_bit
  updates_lem = (set-IsUpdate, clear-IsUpdate, change-IsUpdate)

  -- `(old & mask) != 0` reads the bit.
  mask_reads : (x : ℕ) → not (bit_and x (bit_mask nr) == 0) ≡ testbit x (nr % 64)
  mask_reads x =
      let both = bit_and x (bit_mask nr) in
      let meets = λ (i : ℕ). testbit-bit_and i x (bit_mask nr) in
      elim (Bool-cases (both == 0)) [
        | inl off ↦
            let none_left : both ≡ 0 = (==_iff _ _).0 off in
            ground (
              arith,
              meets (nr % 64),
              testbit-bit_mask nr (nr % 64),
              ap (λ y. testbit y (nr % 64)) none_left,
              testbit-zero (nr % 64),
            )
        | inr some_left ↦
            let (i, lt, on) = has_bit _ _ (lt-two-pow both) (ground arith) in
            ground (arith, meets i, testbit-bit_mask nr i)
      ]

  -- The test-and-modify functions change memory as their plain versions do and return the old bit.
  pub test_and_lem :
      IsUpdate nr addr (λ _. true) m (__test_and_set_bit nr addr m).memory
      × ((__test_and_set_bit nr addr m).old ≡ bit m addr nr)
      × IsUpdate nr addr (λ _. false) m (__test_and_clear_bit nr addr m).memory
      × ((__test_and_clear_bit nr addr m).old ≡ bit m addr nr)
      × IsUpdate nr addr not m (__test_and_change_bit nr addr m).memory
      × ((__test_and_change_bit nr addr m).old ≡ bit m addr nr)
  unfolding __test_and_set_bit __test_and_clear_bit __test_and_change_bit
  test_and_lem = (
    set-IsUpdate,
    mask_reads (m there),
    clear-IsUpdate,
    mask_reads (m there),
    change-IsUpdate,
    mask_reads (m there),
  )

  -- The functions of atomic.h, each run with no other access in between, set, clear and flip the bit
  -- that they name and nothing else, and those that test it return its old value.
  pub atomic_updates :
      IsUpdate nr addr (λ _. true) m (set_bit nr addr m)
      × IsUpdate nr addr (λ _. false) m (clear_bit nr addr m)
      × IsUpdate nr addr not m (change_bit nr addr m)
      × IsUpdate nr addr (λ _. true) m (test_and_set_bit nr addr m).memory
      × ((test_and_set_bit nr addr m).old ≡ bit m addr nr)
      × IsUpdate nr addr (λ _. false) m (test_and_clear_bit nr addr m).memory
      × ((test_and_clear_bit nr addr m).old ≡ bit m addr nr)
      × IsUpdate nr addr not m (test_and_change_bit nr addr m).memory
      × ((test_and_change_bit nr addr m).old ≡ bit m addr nr)
  unfolding set_bit clear_bit change_bit test_and_set_bit test_and_clear_bit test_and_change_bit
      section local_irq_save local_irq_restore
  atomic_updates = (
    set-IsUpdate,
    clear-IsUpdate,
    change-IsUpdate,
    set-IsUpdate,
    mask_reads (m there),
    clear-IsUpdate,
    mask_reads (m there),
    change-IsUpdate,
    mask_reads (m there),
  )

low_bit : (y : ℕ) → bit_and 1 y ≡ y % 2
low_bit y =
    testbit_ext _ _ λ i. ground (arith, testbit-bit_and i 1 y, testbit_one i, testbit-mod 1 y i)

-- `test_bit` is one where the bit is set and zero where it is not.
pub test_bit_lem :
    (nr addr : ℕ) (m : Memory) → test_bit nr addr m ≡ (if bit m addr nr then 1 else 0)
unfolding test_bit testbit
test_bit_lem nr addr m =
    let x = m (addr + nr / 64) in
    rw (bit_and_63 nr, low_bit)
      (let e : nr % 64 + 0 ≡ nr % 64 = omega arith in
        ground (arith, testbit-shr (nr % 64) x 0, ap (testbit x) e))
