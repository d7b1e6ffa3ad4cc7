-- ===== src/Log2/Tests.antt =====
-- Runs of log2.h.
use kernel_porting.Prelude.{ℕ, ◌+◌, ◌^◌, ◌≤◌, ◌<◌, ◌≡◌, true, false, arith}
use kernel_porting.Log2.{ilog2, roundup_pow_of_two}
use kernel_porting.Log2.Laws.{IsLog, ilog2-IsLog}
use kernel_porting.Log2.Powers.{roundup_lem}

ilog2-IsLog_example :
    IsLog 40 (ilog2 false true 40)
    × (ilog2 false true 40 < 64)
    × (ilog2 true true 40 ≡ ilog2 false true 40)
ilog2-IsLog_example = ilog2-IsLog 40 (omega arith) (omega arith)

roundup_lem_example :
    (r : ℕ) × (roundup_pow_of_two true 40 ≡ 2 ^ r) × (40 ≤ 2 ^ r) × (2 ^ r < 40 + 40)
roundup_lem_example = roundup_lem true 40 (omega arith) (omega arith)

abbrev sixty_four : ℕ
sixty_four = 64
