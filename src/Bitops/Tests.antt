-- ===== src/Bitops/Tests.antt =====
-- Runs of the word and bit operations.
use kernel_porting.Prelude.{ℕ, suc, ◌^◌, ◌<◌, ◌≡◌, ◌⊎◌, refl, if◌then◌else◌, ◌==◌, arith, ◌≤◌}
use kernel_porting.Bits.Count.{count}
use kernel_porting.Memory.{Memory, IsMemory}
use kernel_porting.Bitops.Ffs.{narrow, narrow_32, finish, __ffs, ffs, ffz}
use kernel_porting.Bitops.Fls.{fls64, fls64_bounds}
use kernel_porting.Bitops.Hweight.{__sw_hweight64}
use kernel_porting.Bitops.Hweight.Laws.{__sw_hweight64-count}

-- Two words, with the bits 0, 2, 63, 65 and 66 set.
abbrev words : Memory
words a = if a == 0 then 0x8000000000000005 else if a == 1 then 6 else 0

words-IsMemory : IsMemory words
words-IsMemory a = ground arith

abbrev forty : ℕ
forty = 40

lowest_bits : (__ffs 40 ≡ 3) × (__ffs (2 ^ 63) ≡ 63) × (ffs 0 ≡ 0) × (ffs 40 ≡ 4) × (ffz 7 ≡ 3)
unfolding __ffs ffs ffz narrow narrow_32 finish
lowest_bits = (refl, refl, refl, refl, refl)

fls64_bounds_example :
    (forty ≡ 0) × (fls64 forty ≡ 0)
    ⊎ (r : ℕ) × (fls64 forty ≡ suc r) × (r < 64) × (2 ^ r ≤ forty) × (forty < 2 ^ suc r)
fls64_bounds_example = fls64_bounds forty (omega arith)

__sw_hweight64-count_example : __sw_hweight64 0xf0f0 ≡ count 64 0xf0f0
__sw_hweight64-count_example = __sw_hweight64-count 0xf0f0 (omega arith)
