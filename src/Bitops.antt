-- ===== src/Bitops.antt =====
-- The single-word bit operations of asm-generic/bitops/ and bitops.h.
pub mod Ffs
pub mod Fls
pub mod Single
pub mod Hweight
pub mod Rotate
mod Tests
