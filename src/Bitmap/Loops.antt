-- ===== src/Bitmap/Loops.antt =====
-- The word loops of bitmap.c: what they store, and what their results say.
use kernel_porting.Prelude.{
  ℕ, zero, suc, ◌+◌, ◌≤◌, ◌<◌, ◌≡◌, ◌↔◌, ◌⊎◌, ◌∙◌, refl, inl, inr, dec_lt, false, Bool-cases,
  bit_or, arith, ◌==◌, ==_iff, ap, ap₂, sym,
}
use kernel_porting.Bits.{testbit, testbit-zero, testbit-bit_or, testbit_ext}
use kernel_porting.Memory.{Memory, write}
use kernel_porting.Bitmap.{store_loop, Outcome, store_or_loop, test_loop}

-- Writing the words at `dst` in ascending order does not disturb the words at `p` that are still to
-- be read: the arrays are the same, or `p` lies above `dst`, or wholly below it.
abbrev pub CanOverlap : (dst p n : ℕ) → Type 0
CanOverlap dst p n = (dst ≤ p) ⊎ (p + n ≤ dst)

-- `m'` is `m` with `n` words stored at `dst`.
pub record IsStored (f : ℕ → ℕ → ℕ) (n dst p q : ℕ) (m m' : Memory) : Type 0 where
  pub stored : (k : ℕ) → k < n → m' (dst + k) ≡ f (m (p + k)) (m (q + k))
  pub around : (a : ℕ) → (a < dst) ⊎ (dst + n ≤ a) → m' a ≡ m a

pub bit_or-zero : (x y : ℕ) → (bit_or x y ≡ 0) ↔ ((x ≡ 0) × (y ≡ 0))
bit_or-zero x y = (
  λ e.
      let off = λ (i : ℕ). testbit-bit_or i x y in
      (
        testbit_ext x 0 λ i. ground (arith, off i, ap (λ w. testbit w i) e, testbit-zero i),
        testbit_ext y 0 λ i. ground (arith, off i, ap (λ w. testbit w i) e, testbit-zero i),
      ),
  λ (e, d). rw (e, d),
)

module _ (f : ℕ → ℕ → ℕ) (dst p q n : ℕ) where
  store_loop_around :
      (left k : ℕ) (m : Memory) (a : ℕ)
      → k + left ≡ n
      → (a < dst + k) ⊎ (dst + n ≤ a)
      → store_loop f left k dst p q m a ≡ m a
  unfolding store_loop
  store_loop_around zero k m a e h = refl
  store_loop_around (suc left) k m a e h =
      let m' = write m (dst + k) (f (m (p + k)) (m (q + k))) in
      store_loop_around left (k + 1) m' a (omega arith) (ground arith) ∙ ground arith

  -- The accumulating loop stores the same words.
  store_or_loop-memory :
      (left k : ℕ) (o : Outcome)
      → (store_or_loop f left k dst p q o).memory ≡ store_loop f left k dst p q o.memory
  unfolding store_or_loop store_loop
  store_or_loop-memory zero k o = refl
  store_or_loop-memory (suc left) k o =
      let v = f (o.memory (p + k)) (o.memory (q + k)) in
      store_or_loop-memory left (k + 1)
        (record { memory = write o.memory (dst + k) v; result = bit_or o.result v })

  module _ (over_p : CanOverlap dst p n) (over_q : CanOverlap dst q n) where
    store_loop_at :
        (left k : ℕ) (m : Memory) (j : ℕ)
        → k + left ≡ n
        → k ≤ j
        → j < n
        → store_loop f left k dst p q m (dst + j) ≡ f (m (p + j)) (m (q + j))
    unfolding store_loop
    store_loop_at zero k m j e ge lt = absurd (omega arith)
    store_loop_at (suc left) k m j e ge lt =
        let v = f (m (p + k)) (m (q + k)) in
        let m' = write m (dst + k) v in
        elim (dec_lt k j) [
          | yes later ↦
              let keep_p : m' (p + j) ≡ m (p + j) = ground arith in
              let keep_q : m' (q + j) ≡ m (q + j) = ground arith in
              store_loop_at left (k + 1) m' j (omega arith) (omega arith) lt ∙ ap₂ f keep_p keep_q
          | no now ↦
              let same : j ≡ k = omega arith in
              rw same (
                store_loop_around left (k + 1) m' (dst + k) (omega arith) (omega arith)
                ∙ ground arith)
        ]

    pub store_loop-IsStored : (m : Memory) → IsStored f n dst p q m (store_loop f n 0 dst p q m)
    store_loop-IsStored m = record {
      stored = λ k lt. store_loop_at n 0 m k (omega arith) (omega arith) lt;
      around = λ a h. store_loop_around n 0 m a (omega arith) (omega arith);
    }

    -- The accumulated result is zero exactly when all words stored are.
    store_or_loop-result :
        (left k : ℕ) (o : Outcome)
        → k + left ≡ n
        → ((store_or_loop f left k dst p q o).result ≡ 0) ↔ (
            (o.result ≡ 0)
            × ((j : ℕ) → k ≤ j → j < n → f (o.memory (p + j)) (o.memory (q + j)) ≡ 0))
    unfolding store_or_loop
    store_or_loop-result zero k o e = (λ h. (h, λ j ge lt. absurd (omega arith)), λ h. h.0)
    store_or_loop-result (suc left) k o e =
        let v = f (o.memory (p + k)) (o.memory (q + k)) in
        let m' = write o.memory (dst + k) v in
        let ih =
          store_or_loop-result left (k + 1) (record { memory = m'; result = bit_or o.result v })
            (omega arith) in
        let keep : (j : ℕ)
            → k < j
            → j < n
            → f (m' (p + j)) (m' (q + j)) ≡ f (o.memory (p + j)) (o.memory (q + j)) =
          λ j gt lt.
            let keep_p : m' (p + j) ≡ o.memory (p + j) = ground arith in
            let keep_q : m' (q + j) ≡ o.memory (q + j) = ground arith in ap₂ f keep_p keep_q in
        (
          λ h.
              let (both, later) = ih.0 h in
              let parts = (bit_or-zero o.result v).0 both in
              (
                parts.0,
                λ j ge lt. elim (dec_lt k j) [
                  | yes gt ↦ sym (keep j gt lt) ∙ later j (omega arith) lt
                  | no now ↦ let same : j ≡ k = omega arith in rw same parts.1
                ],
              ),
          λ (first, all). ih.1 (
            (bit_or-zero o.result v).1 (first, all k (omega arith) (omega arith)),
            λ j ge lt. keep j (omega arith) lt ∙ all j (omega arith) lt,
          ),
        )

    pub store_or_loop_lem :
        (m : Memory)
        → let o = store_or_loop f n 0 dst p q (record { memory = m; result = 0 }) in
          IsStored f n dst p q m o.memory
          × ((o.result ≡ 0) ↔ ((j : ℕ) → j < n → f (m (p + j)) (m (q + j)) ≡ 0))
    store_or_loop_lem m =
        let start : Outcome = record { memory = m; result = 0 } in
        let result = store_or_loop-result n 0 start (omega arith) in
        (
          rw (store_or_loop-memory n 0 start) (store_loop-IsStored m),
          (
            λ h j lt. (result.0 h).1 j (omega arith) lt,
            λ all. result.1 (refl, λ j ge lt. all j lt),
          ),
        )

-- The test loop returns early exactly when some word differs from zero.
pub test_loop_lem :
    (f : ℕ → ℕ → ℕ) (p q : ℕ) (m : Memory) (left k : ℕ)
    → (test_loop f left k p q m ≡ false)
      ↔ ((j : ℕ) → k ≤ j → j < k + left → f (m (p + j)) (m (q + j)) ≡ 0)
unfolding test_loop
test_loop_lem f p q m zero k = (λ h j ge lt. absurd (omega arith), λ h. refl)
test_loop_lem f p q m (suc left) k =
    let ih = test_loop_lem f p q m left (k + 1) in
    elim (Bool-cases (f (m (p + k)) (m (q + k)) == 0)) [
      | inl off ↦
          let none_left : f (m (p + k)) (m (q + k)) ≡ 0 = (==_iff _ _).0 off in
          rw off (
            λ h j ge lt. elim (dec_lt k j) [
              | yes gt ↦ ih.0 h j (omega arith) (omega arith)
              | no now ↦ let same : j ≡ k = omega arith in rw same none_left
            ],
            λ all. ih.1 λ j ge lt. all j (omega arith) (omega arith),
          )
      | inr on ↦ rw on (λ h. cc, λ all. let z = all k (omega arith) (omega arith) in ground arith)
    ]
