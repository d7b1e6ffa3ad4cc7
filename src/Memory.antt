-- ===== src/Memory.antt =====
-- Memory as the bit and bitmap code sees it: a word of 64 bits at each word address. A pointer
-- `unsigned long *` is the address of a word, so `addr[k]` is the word at `addr + k`, and two arrays
-- may overlap.
use kernel_porting.Prelude.{ℕ, ◌+◌, ◌/◌, ◌%◌, ◌^◌, ◌<◌, Bool, arith, ◌==◌, if◌then◌else◌}
use kernel_porting.Bits.{testbit}

abbrev pub Memory : Type 0
Memory = ℕ → ℕ

-- `*p = v`
abbrev pub write : Memory → ℕ → ℕ → Memory
write m p v a = if a == p then v else m a

-- Every word fits its 64 bits.
abbrev pub IsMemory : Memory → Type 0
IsMemory m = (a : ℕ) → m a < 2 ^ 64

pub write-IsMemory : (m : Memory) (p v : ℕ) → IsMemory m → v < 2 ^ 64 → IsMemory (write m p v)
write-IsMemory m p v h lt a = ground (arith, h a)

-- Bit `i` of the bit string that starts at `p`.
abbrev pub bit : Memory → ℕ → ℕ → Bool
bit m p i = testbit (m (p + i / 64)) (i % 64)
