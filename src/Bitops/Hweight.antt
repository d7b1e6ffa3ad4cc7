-- ===== src/Bitops/Hweight.antt =====
-- hweight.c and asm-generic/bitops/const_hweight.h: the number of set bits of a word, by adding
-- neighbouring fields. CONFIG_ARCH_HAS_FAST_MULTIPLIER is not set, so the bodies without a
-- multiplication are compiled. `n` is the width of the C type, where sums and differences wrap.
pub mod Fields
pub mod Laws
use kernel_porting.Prelude.{
  ℕ, zero, suc, ◌+◌, ◌-◌, ◌*◌, ◌/◌, ◌%◌, ◌^◌, bit_and, ◌==◌, if◌then◌else◌,
}

abbrev add_word : ℕ → ℕ → ℕ → ℕ
add_word n a b = (a + b) % 2 ^ n

abbrev sub_word : ℕ → ℕ → ℕ → ℕ
sub_word n a b = (a + 2 ^ n - b) % 2 ^ n

-- `w - ((w >> 1) & mask)`
unfoldable pub pairs : ℕ → ℕ → ℕ → ℕ
pairs n mask w = sub_word n w (bit_and (w / 2 ^ 1) mask)

-- `(res & mask) + ((res >> 2) & mask)`
unfoldable pub nibbles : ℕ → ℕ → ℕ → ℕ
nibbles n mask res = add_word n (bit_and res mask) (bit_and (res / 2 ^ 2) mask)

-- `(res + (res >> 4)) & mask`
unfoldable pub bytes : ℕ → ℕ → ℕ → ℕ
bytes n mask res = bit_and (add_word n res (res / 2 ^ 4)) mask

-- `res + (res >> k)`
unfoldable pub fold : ℕ → ℕ → ℕ → ℕ
fold n k res = add_word n res (res / 2 ^ k)

unfoldable pub __sw_hweight32 : ℕ → ℕ
__sw_hweight32 w =
    let res = nibbles 32 0x33333333 (pairs 32 0x55555555 w) in
    let res = bytes 32 0x0F0F0F0F res in bit_and (fold 32 16 (fold 32 8 res)) 0x000000FF

unfoldable pub __sw_hweight16 : ℕ → ℕ
__sw_hweight16 w =
    let res = nibbles 32 0x3333 (pairs 32 0x5555 w) in
    bit_and (fold 32 8 (bytes 32 0x0F0F res)) 0x00FF

unfoldable pub __sw_hweight8 : ℕ → ℕ
__sw_hweight8 w = bytes 32 0x0F (nibbles 32 0x33 (pairs 32 0x55 w))

unfoldable pub __sw_hweight64 : ℕ → ℕ
__sw_hweight64 w =
    let res = nibbles 64 0x3333333333333333 (pairs 64 0x5555555555555555 w) in
    let res = bytes 64 0x0F0F0F0F0F0F0F0F res in
    bit_and (fold 64 32 (fold 64 16 (fold 64 8 res))) 0x00000000000000FF

-- `!!(w & (1ULL << k))`
unfoldable pub flag : ℕ → ℕ → ℕ
flag w k = if bit_and w (2 ^ k) == 0 then 0 else 1

unfoldable pub __const_hweight8 : ℕ → ℕ
__const_hweight8 w =
    flag w 0 + flag w 1 + flag w 2 + flag w 3 + flag w 4 + flag w 5 + flag w 6 + flag w 7

unfoldable pub __const_hweight16 : ℕ → ℕ
__const_hweight16 w = __const_hweight8 w + __const_hweight8 (w / 2 ^ 8)

unfoldable pub __const_hweight32 : ℕ → ℕ
__const_hweight32 w = __const_hweight16 w + __const_hweight16 (w / 2 ^ 16)

unfoldable pub __const_hweight64 : ℕ → ℕ
__const_hweight64 w = __const_hweight32 w + __const_hweight32 (w / 2 ^ 32)

-- The `hweight64` of const_hweight.h is `__const_hweight64` for a constant and this for any other
-- word; `sizeof(w)` is 8.
unfoldable pub hweight_long : ℕ → ℕ
hweight_long w = __sw_hweight64 w
