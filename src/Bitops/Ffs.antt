-- ===== src/Bitops/Ffs.antt =====
-- asm-generic/bitops/__ffs.h, ffs.h and ffz.h: the lowest set bit of a word, by halving.
use native.Mathlib.Nat.{mod-lt, one-le-pow}
use kernel_porting.Prelude.{
  ℕ, ◌+◌, ◌-◌, ◌%◌, ◌^◌, ◌≤◌, ◌<◌, ◌≡◌, ◌≢◌, ◌⊎◌, ◌∙◌, sym, ap, dec_lt, inl, inr, Bool-cases, true,
  false, bit_and, arith, ◌==◌, ==_iff, if◌then◌else◌,
}
use kernel_porting.Bits.{testbit, testbit-zero, testbit-shr, testbit-mod, bit_and_ones, has_bit}
use kernel_porting.Word.{lnot, shr, ulong_max, testbit-lnot}

-- the locals `num` and `word` of __ffs
pub record Scan : Type 0 where
  pub num : ℕ
  pub word : ℕ

-- `if ((word & mask) == 0) { num += k; word >>= k; }`
unfoldable pub narrow : ℕ → ℕ → Scan → Scan
narrow mask k s =
    if bit_and s.word mask == 0 then record { num = s.num + k; word = shr s.word k } else s

-- The steps of 64 or 32 bits down to two, shared by `__ffs` and `ffs`.
unfoldable pub narrow_32 : Scan → Scan
narrow_32 s = narrow 0x3 2 (narrow 0xf 4 (narrow 0xff 8 (narrow 0xffff 16 s)))

-- `if ((word & 0x1) == 0) num += 1; return num;`
unfoldable pub finish : Scan → ℕ
finish s = if bit_and s.word 0x1 == 0 then s.num + 1 else s.num

-- `__ffs` at BITS_PER_LONG == 64. It is not defined at zero.
unfoldable pub __ffs : ℕ → ℕ
__ffs word = finish (narrow_32 (narrow 0xffff_ffff 32 (record { num = 0; word = word })))

-- `ffs` of an `int`: the position counts from one, and zero has none.
unfoldable pub ffs : ℕ → ℕ
ffs x = if x == 0 then 0 else (narrow 0x1 1 (narrow_32 (record { num = 1; word = x }))).num

unfoldable pub ffz : ℕ → ℕ
ffz x = __ffs (lnot x)

-- `r` is the lowest bit that is set in `w`.
pub record IsLowest (w r : ℕ) : Type 0 where
  pub on : testbit w r ≡ true
  pub below : (j : ℕ) → j < r → testbit w j ≡ false

-- What holds of the locals once the lowest bit is known to be among `width` bits: `base` is the
-- number that `num` started from.
record Narrowed (base w width : ℕ) (s : Scan) : Type 0 where
  skipped : ℕ
  counted : s.num ≡ base + skipped
  rest : (i : ℕ) → testbit s.word i ≡ testbit w (skipped + i)
  below : (j : ℕ) → j < skipped → testbit w j ≡ false
  place : ℕ
  inside : place < width
  on : testbit s.word place ≡ true

bits_off : (k x i : ℕ) → (bit_and x (2 ^ k - 1) == 0) ≡ true → i < k → testbit x i ≡ false
bits_off k x i off h =
    let none_left = (==_iff _ _).0 off in
    ground (arith, testbit-mod k x i, bit_and_ones k x, testbit-zero i, none_left)

bit_on : (k x : ℕ) → (bit_and x (2 ^ k - 1) == 0) ≡ false → (i : ℕ) × (i < k) × (testbit x i ≡ true)
bit_on k x some_left =
    let (i, lt, on) =
      has_bit k (x % 2 ^ k) (mod-lt _ (one-le-pow k 2 (omega arith)))
        (ground (arith, bit_and_ones k x)) in
    (i, lt, ground (arith, testbit-mod k x i))

narrow-Narrowed :
    (k base w : ℕ) {s : Scan}
    → Narrowed base w (k + k) s
    → Narrowed base w k (narrow (2 ^ k - 1) k s)
unfolding narrow
narrow-Narrowed k base w {s} n = elim (Bool-cases (bit_and s.word (2 ^ k - 1) == 0)) [
  | inl off ↦ rw off (
      let far : k ≤ n.place = ground (arith, bits_off k s.word n.place off) in
      let there : k + (n.place - k) ≡ n.place = omega arith in
      record {
        skipped = n.skipped + k;
        counted = omega arith;
        rest = λ i.
            let next : n.skipped + (k + i) ≡ n.skipped + k + i = omega arith in
            testbit-shr k s.word i ∙ n.rest (k + i) ∙ ap (testbit w) next;
        below = λ j h. elim (dec_lt j n.skipped) [
          | yes early ↦ n.below j early
          | no late ↦
              let place : n.skipped + (j - n.skipped) ≡ j = omega arith in
              ap (testbit w) (sym place)
              ∙ sym (n.rest (j - n.skipped))
              ∙ bits_off k s.word (j - n.skipped) off (omega arith)
        ];
        place = n.place - k;
        inside = omega arith;
        on = testbit-shr k s.word (n.place - k) ∙ ap (testbit s.word) there ∙ n.on;
      })
  | inr some_left ↦ rw some_left (
      let (i, lt, on) = bit_on k s.word some_left in
      record {
        skipped = n.skipped;
        counted = n.counted;
        rest = n.rest;
        below = n.below;
        place = i;
        inside = lt;
        on = on;
      })
]

narrow_32-Narrowed :
    (base w : ℕ) {s : Scan} → Narrowed base w 32 s → Narrowed base w 2 (narrow_32 s)
unfolding narrow_32
narrow_32-Narrowed base w n =
    narrow-Narrowed 2 base w
      (narrow-Narrowed 4 base w (narrow-Narrowed 8 base w (narrow-Narrowed 16 base w n)))

-- What holds at the start: some bit among all is set.
start-Narrowed :
    (base width w : ℕ)
    → w < 2 ^ width
    → w ≢ 0
    → Narrowed base w width (record { num = base; word = w })
start-Narrowed base width w h ne =
    let (i, lt, on) = has_bit width w h ne in
    record {
      skipped = 0;
      counted = omega arith;
      rest = λ i. let same : 0 + i ≡ i = omega arith in rw same;
      below = λ j lt. absurd (omega arith);
      place = i;
      inside = lt;
      on = on;
    }

-- When one bit is left, it is the lowest.
one_left :
    (base w : ℕ) {s : Scan} → Narrowed base w 1 s → (r : ℕ) × (s.num ≡ base + r) × IsLowest w r
one_left base w n =
    let first : n.place ≡ 0 = omega arith in
    let here : n.skipped + n.place ≡ n.skipped = omega arith in
    (
      n.skipped,
      n.counted,
      record { on = ap (testbit w) (sym here) ∙ sym (n.rest n.place) ∙ n.on; below = n.below },
    )

finish_lem : (s : Scan) → finish s ≡ (narrow 0x1 1 s).num
unfolding finish narrow
finish_lem s = ground arith

-- `__ffs` of a word that is not zero is the position of its lowest set bit.
pub __ffs-IsLowest : (w : ℕ) → w < 2 ^ 64 → w ≢ 0 → IsLowest w (__ffs w)
unfolding __ffs
__ffs-IsLowest w h ne =
    let all = narrow-Narrowed 32 0 w (start-Narrowed 0 64 w h ne) in
    let (r, counted, lowest) = one_left 0 w (narrow-Narrowed 1 0 w (narrow_32-Narrowed 0 w all)) in
    let same : __ffs w ≡ r = finish_lem _ ∙ counted ∙ omega arith in rw same lowest

-- `ffs` of a 32-bit pattern is zero at zero, and else one more than the position of the lowest set
-- bit.
pub ffs-IsLowest :
    (x : ℕ) → x < 2 ^ 32 → (x ≡ 0) × (ffs x ≡ 0) ⊎ (r : ℕ) × (ffs x ≡ r + 1) × IsLowest x r
unfolding ffs
ffs-IsLowest x h = elim (Bool-cases (x == 0)) [
  | inl none_on ↦ inl ((==_iff _ _).0 none_on, rw none_on)
  | inr some_on ↦
      let all = narrow_32-Narrowed 1 x (start-Narrowed 1 32 x h (ground arith)) in
      let (r, counted, lowest) = one_left 1 x (narrow-Narrowed 1 1 x all) in
      inr (r, rw some_on (omega arith), lowest)
]

-- `ffz` of a word that is not all ones is the position of its lowest clear bit.
pub ffz_lem :
    (w : ℕ)
    → w < ulong_max
    → (testbit w (ffz w) ≡ false) × (ffz w < 64) × ((j : ℕ) → j < ffz w → testbit w j ≡ true)
unfolding ffz
ffz_lem w h =
    let low = __ffs-IsLowest (lnot w) (omega arith) (omega arith) in
    (
      ground (arith, low.on, testbit-lnot w (__ffs (lnot w))),
      ground (arith, low.on, testbit-lnot w (__ffs (lnot w))),
      λ j lt.
          ground (arith, low.on, low.below j, testbit-lnot w j, testbit-lnot w (__ffs (lnot w))),
    )
