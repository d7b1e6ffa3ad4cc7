-- ===== src/Bitmap.antt =====
-- bitmap.c: operations on whole bitmaps, word by word. A bitmap of `bits` bits at `p` is the bit
-- string that starts at the word `p`. The arrays of one call lie in one memory and may overlap.
pub mod Loops
pub mod Pointwise
pub mod Masked
pub mod Store
pub mod Compare
pub mod Count
pub mod Range
pub mod Area
mod Tests
use kernel_porting.Prelude.{
  ℕ, zero, suc, ◌+◌, ◌-◌, ◌*◌, ◌/◌, ◌%◌, Bool, true, false, bit_and, bit_or, bit_xor, not, ltb,
  ◌==◌, if◌then◌else◌,
}
use kernel_porting.Word.{lnot, ulong_max, bits_per_long, bits_to_longs, bitmap_last_word_mask}
use kernel_porting.Memory.{Memory, write}

-- `for (; left rounds; k++) dst[k] = f(bitmap1[k], bitmap2[k]);`
unfoldable pub store_loop : (ℕ → ℕ → ℕ) → (left k dst p q : ℕ) → Memory → Memory
store_loop f zero k dst p q m = m
store_loop f (suc left) k dst p q m =
    store_loop f left (k + 1) dst p q (write m (dst + k) (f (m (p + k)) (m (q + k))))

-- A new memory, and `result`.
pub record Outcome : Type 0 where
  pub memory : Memory
  pub result : ℕ

-- `for (; left rounds; k++) result |= (dst[k] = f(bitmap1[k], bitmap2[k]));`
unfoldable pub store_or_loop : (ℕ → ℕ → ℕ) → (left k dst p q : ℕ) → Outcome → Outcome
store_or_loop f zero k dst p q o = o
store_or_loop f (suc left) k dst p q o =
    let v = f (o.memory (p + k)) (o.memory (q + k)) in
    store_or_loop f left (k + 1) dst p q
      (record { memory = write o.memory (dst + k) v; result = bit_or o.result v })

-- `for (; left rounds; k++) if (f(bitmap1[k], bitmap2[k])) return 1;`, whether it returned
unfoldable pub test_loop : (ℕ → ℕ → ℕ) → (left k p q : ℕ) → Memory → Bool
test_loop f zero k p q m = false
test_loop f (suc left) k p q m =
    let rest = test_loop f left (k + 1) p q m in
    if f (m (p + k)) (m (q + k)) == 0 then rest else true

-- the words' `a & ~b`
abbrev pub andnot : ℕ → ℕ → ℕ
andnot a b = bit_and a (lnot b)

-- `bitmap1[k] != bitmap2[k]`, as a word that is not zero
abbrev pub differs : ℕ → ℕ → ℕ
differs a b = if a == b then 0 else 1

unfoldable pub __bitmap_equal : (p q bits : ℕ) → Memory → Bool
__bitmap_equal p q bits m =
    let lim = bits / bits_per_long in
    let last = bit_and (bit_xor (m (p + lim)) (m (q + lim))) (bitmap_last_word_mask bits) in
    if test_loop differs lim 0 p q m
    then false
    else if bits % bits_per_long == 0
    then true
    else last == 0

unfoldable pub __bitmap_complement : (dst src bits : ℕ) → Memory → Memory
__bitmap_complement dst src bits m =
    let lim = bits / bits_per_long in
    let m' = store_loop (λ a b. lnot a) lim 0 dst src src m in
    if bits % bits_per_long == 0 then m' else write m' (dst + lim) (lnot (m' (src + lim)))

-- The body that `__bitmap_and` and `__bitmap_andnot` share: `result |= …` over the whole words, and
-- over the masked rest.
unfoldable pub store_masked : (ℕ → ℕ → ℕ) → (dst p q bits : ℕ) → Memory → Outcome
store_masked f dst p q bits m =
    let lim = bits / bits_per_long in
    let o = store_or_loop f lim 0 dst p q (record { memory = m; result = 0 }) in
    let v = bit_and (f (o.memory (p + lim)) (o.memory (q + lim))) (bitmap_last_word_mask bits) in
    if bits % bits_per_long == 0
    then o
    else record { memory = write o.memory (dst + lim) v; result = bit_or o.result v }

unfoldable pub __bitmap_and : (dst p q bits : ℕ) → Memory → Memory × Bool
__bitmap_and dst p q bits m =
    let o = store_masked bit_and dst p q bits m in (o.memory, not (o.result == 0))

unfoldable pub __bitmap_or : (dst p q bits : ℕ) → Memory → Memory
__bitmap_or dst p q bits m = store_loop bit_or (bits_to_longs bits) 0 dst p q m

unfoldable pub __bitmap_xor : (dst p q bits : ℕ) → Memory → Memory
__bitmap_xor dst p q bits m = store_loop bit_xor (bits_to_longs bits) 0 dst p q m

unfoldable pub __bitmap_andnot : (dst p q bits : ℕ) → Memory → Memory × Bool
__bitmap_andnot dst p q bits m =
    let o = store_masked andnot dst p q bits m in (o.memory, not (o.result == 0))

unfoldable pub __bitmap_intersects : (p q bits : ℕ) → Memory → Bool
__bitmap_intersects p q bits m =
    let lim = bits / bits_per_long in
    let last = bit_and (bit_and (m (p + lim)) (m (q + lim))) (bitmap_last_word_mask bits) in
    if test_loop bit_and lim 0 p q m
    then true
    else if bits % bits_per_long == 0
    then false
    else not (last == 0)

unfoldable pub __bitmap_subset : (p q bits : ℕ) → Memory → Bool
__bitmap_subset p q bits m =
    let lim = bits / bits_per_long in
    let last = bit_and (andnot (m (p + lim)) (m (q + lim))) (bitmap_last_word_mask bits) in
    if test_loop andnot lim 0 p q m
    then false
    else if bits % bits_per_long == 0
    then true
    else last == 0
