-- ===== src/Bitops/Single.antt =====
-- asm-generic/bitops/non-atomic.h and atomic.h: one bit of a bitmap. In this port `local_irq_save`
-- and `local_irq_restore` are empty (porting.h) and CONFIG_SMP is not set, so the functions of
-- atomic.h come down to one read and one write of the word; here they run alone.
pub mod Laws
use kernel_porting.Prelude.{ℕ, ◌+◌, ◌-◌, Bool, not, bit_and, bit_or, bit_xor, ◌==◌}
use kernel_porting.Word.{lnot, shr, bit_mask, bit_word, bits_per_long}
use kernel_porting.Memory.{Memory, write}

-- A new memory and a result.
pub record Outcome : Type 0 where
  pub memory : Memory
  pub old : Bool

unfoldable pub __set_bit : ℕ → ℕ → Memory → Memory
__set_bit nr addr m =
    let mask = bit_mask nr in let p = addr + bit_word nr in write m p (bit_or (m p) mask)

unfoldable pub __clear_bit : ℕ → ℕ → Memory → Memory
__clear_bit nr addr m =
    let mask = bit_mask nr in let p = addr + bit_word nr in write m p (bit_and (m p) (lnot mask))

unfoldable pub __change_bit : ℕ → ℕ → Memory → Memory
__change_bit nr addr m =
    let mask = bit_mask nr in let p = addr + bit_word nr in write m p (bit_xor (m p) mask)

unfoldable pub __test_and_set_bit : ℕ → ℕ → Memory → Outcome
__test_and_set_bit nr addr m =
    let mask = bit_mask nr in
    let p = addr + bit_word nr in
    let old = m p in
    record { memory = write m p (bit_or old mask); old = not (bit_and old mask == 0) }

unfoldable pub __test_and_clear_bit : ℕ → ℕ → Memory → Outcome
__test_and_clear_bit nr addr m =
    let mask = bit_mask nr in
    let p = addr + bit_word nr in
    let old = m p in
    record { memory = write m p (bit_and old (lnot mask)); old = not (bit_and old mask == 0) }

unfoldable pub __test_and_change_bit : ℕ → ℕ → Memory → Outcome
__test_and_change_bit nr addr m =
    let mask = bit_mask nr in
    let p = addr + bit_word nr in
    let old = m p in
    record { memory = write m p (bit_xor old mask); old = not (bit_and old mask == 0) }

-- The result is the `int` that C computes, zero or one.
unfoldable pub test_bit : ℕ → ℕ → Memory → ℕ
test_bit nr addr m = bit_and 1 (shr (m (addr + bit_word nr)) (bit_and nr (bits_per_long - 1)))

-- `local_irq_save` and `local_irq_restore` of porting.h, and the macros of atomic.h on them.
unfoldable pub local_irq_save : Memory → Memory
local_irq_save m = m

unfoldable pub local_irq_restore : Memory → Memory
local_irq_restore m = m

unfoldable pub set_bit : ℕ → ℕ → Memory → Memory
set_bit nr addr m =
    let mask = bit_mask nr in
    let p = addr + bit_word nr in
    let m = local_irq_save m in local_irq_restore (write m p (bit_or (m p) mask))

unfoldable pub clear_bit : ℕ → ℕ → Memory → Memory
clear_bit nr addr m =
    let mask = bit_mask nr in
    let p = addr + bit_word nr in
    let m = local_irq_save m in local_irq_restore (write m p (bit_and (m p) (lnot mask)))

unfoldable pub change_bit : ℕ → ℕ → Memory → Memory
change_bit nr addr m =
    let mask = bit_mask nr in
    let p = addr + bit_word nr in
    let m = local_irq_save m in local_irq_restore (write m p (bit_xor (m p) mask))

-- `old` is read and `*p` written inside the section, the result is computed outside it.
unfoldable pub section : (ℕ → ℕ) → ℕ → ℕ → Memory → Outcome
section f mask p m =
    let m = local_irq_save m in
    let old = m p in
    record { memory = local_irq_restore (write m p (f old)); old = not (bit_and old mask == 0) }

unfoldable pub test_and_set_bit : ℕ → ℕ → Memory → Outcome
unfolding section
test_and_set_bit nr addr m =
    let mask = bit_mask nr in section (λ old. bit_or old mask) mask (addr + bit_word nr) m

unfoldable pub test_and_clear_bit : ℕ → ℕ → Memory → Outcome
unfolding section
test_and_clear_bit nr addr m =
    let mask = bit_mask nr in section (λ old. bit_and old (lnot mask)) mask (addr + bit_word nr) m

unfoldable pub test_and_change_bit : ℕ → ℕ → Memory → Outcome
unfolding section
test_and_change_bit nr addr m =
    let mask = bit_mask nr in section (λ old. bit_xor old mask) mask (addr + bit_word nr) m
