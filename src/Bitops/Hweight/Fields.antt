-- ===== src/Bitops/Hweight/Fields.antt =====
-- The rounds of hweight.c treat each byte of the word apart: from a byte they make the number of its
-- set bits.
use kernel_porting.Prelude.{
  ℕ, zero, suc, ◌+◌, ◌-◌, ◌*◌, ◌/◌, ◌%◌, ◌^◌, ◌≤◌, ◌<◌, ◌≡◌, ◌∙◌, refl, sym, ap, ap₂, Bool, true,
  ◌&&◌, bit_and, arith, leb, ltb, ◌==◌, ==_iff,
}
use kernel_porting.Bits.{bit_and_ones}
use kernel_porting.Bits.Split.{bit_and_split, bit_and-le}
use kernel_porting.Bits.Count.{count}

holds_below : ℕ → (ℕ → Bool) → Bool
holds_below zero p = true
holds_below (suc n) p = p n && holds_below n p

-- A test that passes at every number below `n`, looked up at one.
look_up : (n : ℕ) (p : ℕ → Bool) (x : ℕ) → holds_below n p ≡ true → x < n → p x ≡ true
unfolding holds_below
look_up zero p x h lt = absurd (omega arith)
look_up (suc n) p x h lt = ground (arith, look_up n p x)

-- The byte `d`, `n` times.
abbrev pub repeat : ℕ → ℕ → ℕ
repeat d zero = 0
repeat d (suc n) = d + 256 * repeat d n

-- The three rounds without the wrap of the machine type.
abbrev pub pairs_of : ℕ → ℕ → ℕ
pairs_of mask w = w - bit_and (w / 2) mask

abbrev pub nibbles_of : ℕ → ℕ → ℕ
nibbles_of mask w = bit_and w mask + bit_and (w / 4) mask

abbrev pub bytes_of : ℕ → ℕ → ℕ
bytes_of mask w = bit_and (w + w / 16) mask

-- what the rounds make of one byte
abbrev nibbles_byte : ℕ → ℕ
nibbles_byte c = nibbles_of 0x33 (pairs_of 0x55 c)

byte_table :
    holds_below 256 (λ c.
      leb (nibbles_byte c % 16) 4
      && leb (nibbles_byte c / 16) 4
      && ((nibbles_byte c + nibbles_byte c / 16) % 16 == count 8 c)
      && ltb (pairs_of 0x55 c) 256)
    ≡ true
unfolding holds_below count
byte_table = refl

-- a bit of the next byte that is shifted in is masked out
pairs_table : holds_below 256 (λ x. bit_and x 0x55 == bit_and (x % 128) 0x55) ≡ true
unfolding holds_below
pairs_table = refl

nibbles_table : holds_below 256 (λ x. bit_and x 0x33 == bit_and (x % 64) 0x33) ≡ true
unfolding holds_below
nibbles_table = refl

pairs_low : (x : ℕ) → x < 256 → bit_and x 0x55 ≡ bit_and (x % 128) 0x55
pairs_low x h = (==_iff _ _).0 (look_up 256 _ x pairs_table h)

nibbles_low : (x : ℕ) → x < 256 → bit_and x 0x33 ≡ bit_and (x % 64) 0x33
nibbles_low x h = (==_iff _ _).0 (look_up 256 _ x nibbles_table h)

-- `x` and a mask, at the lowest byte and above it
byte_split :
    (x d rest : ℕ)
    → d < 256
    → bit_and x (d + 256 * rest) ≡ bit_and (x % 256) d + 256 * bit_and (x / 256) rest
byte_split x d rest h =
    let low : (d + 256 * rest) % 2 ^ 8 ≡ d = omega arith in
    let high : (d + 256 * rest) / 2 ^ 8 ≡ rest = omega arith in
    rw (low, high) at (bit_and_split 8 x (d + 256 * rest))

module _ (c q : ℕ) (byte : c < 256) where
  pairs_split :
      (rest : ℕ)
      → pairs_of (0x55 + 256 * rest) (c + 256 * q) ≡ pairs_of 0x55 c + 256 * pairs_of rest q
  pairs_split rest =
      let h = (c + 256 * q) / 2 in
      let high : h / 256 ≡ q / 2 = omega arith in
      let small : h % 256 % 128 ≡ c / 2 = omega arith in
      let low = rw small at (pairs_low (h % 256) (omega arith)) in
      let low' : c / 2 % 128 ≡ c / 2 = omega arith in
      omega (
        arith,
        rw high at (byte_split h 0x55 rest (omega arith)),
        low,
        bit_and-le (c / 2) 0x55,
        bit_and-le (q / 2) rest,
      )

  nibbles_split :
      (rest : ℕ)
      → nibbles_of (0x33 + 256 * rest) (c + 256 * q) ≡ nibbles_of 0x33 c + 256 * nibbles_of rest q
  nibbles_split rest =
      let x = c + 256 * q in
      let here_low : x % 256 ≡ c = omega arith in
      let here_high : x / 256 ≡ q = omega arith in
      let next_high : x / 4 / 256 ≡ q / 4 = omega arith in
      let next_small : x / 4 % 256 % 64 ≡ c / 4 = omega arith in
      omega (
        arith,
        rw (here_low, here_high) at (byte_split x 0x33 rest (omega arith)),
        rw next_high at (byte_split (x / 4) 0x33 rest (omega arith)),
        rw next_small at (nibbles_low (x / 4 % 256) (omega arith)),
      )

  bytes_split :
      (rest : ℕ)
      → c % 16 ≤ 4
      → c / 16 ≤ 4
      → q % 16 ≤ 4
      → bytes_of (0x0f + 256 * rest) (c + 256 * q) ≡ (c + c / 16) % 16 + 256 * bytes_of rest q
  bytes_split rest low high next =
      let x = c + 256 * q + (c + 256 * q) / 16 in
      let above : x / 256 ≡ q + q / 16 = omega arith in
      let nibble : x % 256 % 16 ≡ (c + c / 16) % 16 = omega arith in
      omega (
        arith,
        rw above at (byte_split x 0x0f rest (omega arith)),
        bit_and_ones 4 (x % 256),
        nibble,
      )

-- The counts of the bytes, each in its byte.
abbrev pub packed : ℕ → ℕ → ℕ
packed zero w = 0
packed (suc n) w = count 8 (w % 256) + 256 * packed n (w / 256)

-- `256 ^ n`
abbrev pub span : ℕ → ℕ
span zero = 1
span (suc n) = 256 * span n

pub record Rounds (n w : ℕ) : Type 0 where
  pub nibble : nibbles_of (repeat 0x33 n) (pairs_of (repeat 0x55 n) w) % 16 ≤ 4
  pub counted :
      bytes_of (repeat 0x0f n) (nibbles_of (repeat 0x33 n) (pairs_of (repeat 0x55 n) w))
      ≡ packed n w

rounds_lem : (n c q : ℕ) → c < 256 → Rounds n q → Rounds (suc n) (c + 256 * q)
rounds_lem n c q byte ih =
    let table = look_up 256 _ c byte_table byte in
    let b = nibbles_byte c in
    let low : b % 16 ≤ 4 = ground arith in
    let high : b / 16 ≤ 4 = ground arith in
    let sum : (b + b / 16) % 16 ≡ count 8 c = ground arith in
    let fits : pairs_of 0x55 c < 256 = ground arith in
    let p = pairs_of (repeat 0x55 n) q in
    let next = nibbles_of (repeat 0x33 n) p in
    let c_low : (c + 256 * q) % 256 ≡ c = omega arith in
    let q_high : (c + 256 * q) / 256 ≡ q = omega arith in
    let all : nibbles_of (repeat 0x33 (suc n)) (pairs_of (repeat 0x55 (suc n)) (c + 256 * q))
        ≡ b + 256 * next =
      ap (nibbles_of (repeat 0x33 (suc n))) (pairs_split c q byte (repeat 0x55 n))
      ∙ nibbles_split (pairs_of 0x55 c) p fits (repeat 0x33 n) in
    record {
      nibble = omega (arith, all);
      counted =
          ap (bytes_of (repeat 0x0f (suc n))) all
          ∙ bytes_split b next (omega arith) (repeat 0x0f n) low high ih.nibble
          ∙ ap₂ (λ x y. x + 256 * y) sum ih.counted
          ∙ ap₂ (λ x y. count 8 x + 256 * packed n y) (sym c_low) (sym q_high);
    }

pub rounds : (n w : ℕ) → w < span n → Rounds n w
rounds zero w h =
    let none : w ≡ 0 = omega arith in rw none (record { nibble = omega arith; counted = refl })
rounds (suc n) w h =
    let parts : w ≡ w % 256 + 256 * (w / 256) = omega arith in
    rw parts (rounds_lem n (w % 256) (w / 256) (omega arith) (rounds n (w / 256) (omega arith)))
