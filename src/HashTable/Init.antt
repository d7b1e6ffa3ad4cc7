-- ===== src/HashTable/Init.antt =====
-- `hash_init` and `hash_empty`.
use mathlib.Core.Path.{subst}
use Prim.{tt}
use kernel_porting.Prelude.{
  ℕ, zero, suc, ◌+◌, ◌≤◌, ◌<◌, ◌≡◌, ◌≢◌, ◌↔◌, ◌∙◌, refl, sym, ap, inl, inr, arith, true, ◌==◌,
  Bool-cases, List, [], ◌∷◌,
}
use kernel_porting.Hlist.{Store, init_hlist_head}
use kernel_porting.Hlist.Chain.{occurs, Chain}
use kernel_porting.HashTable.{slot, init_loop, __hash_init, empty_loop, __hash_empty}
use kernel_porting.HashTable.Laws.{IsTable}

init_loop_heads :
    (left ht i : ℕ) (s : Store) (j : ℕ)
    → (j < i → (init_loop left ht i s).next (slot ht j) ≡ s.next (slot ht j))
      × (i ≤ j → j < i + left → (init_loop left ht i s).next (slot ht j) ≡ 0)
unfolding init_loop init_hlist_head
init_loop_heads zero ht i s j = (λ h. refl, λ ge less. absurd (omega arith))
init_loop_heads (suc left) ht i s j =
    let s1 = init_hlist_head (slot ht i) s in
    let (before, after) = init_loop_heads left ht (suc i) s1 j in
    (
      λ h. before (omega arith) ∙ ground arith,
      λ ge less. elim (Bool-cases (i == j)) [
        | inl same ↦ before (ground arith) ∙ ground arith
        | inr other ↦ after (ground arith) (omega arith)
      ],
    )

empty_loop_heads :
    (left ht i : ℕ) (s : Store)
    → (empty_loop left ht i s ≡ true) ↔ ((j : ℕ) → i ≤ j → j < i + left → s.next (slot ht j) ≡ 0)
unfolding empty_loop
empty_loop_heads zero ht i s = (λ e j ge less. absurd (omega arith), λ all. refl)
empty_loop_heads (suc left) ht i s =
    let (to, from) = empty_loop_heads left ht (suc i) s in
    elim (Bool-cases (s.next (slot ht i) == 0)) [
      | inl empty ↦ rw empty (
        λ e j ge less. elim (Bool-cases (i == j)) [
          | inl same ↦
              let k : i ≡ j = ground arith in ap (λ x. s.next (slot ht x)) (sym k) ∙ ground arith
          | inr other ↦ to e j (ground arith) (omega arith)
        ],
        λ all. from (λ j ge less. all j (omega arith) (omega arith)),
      )
      | inr full ↦ rw full (
        λ e. absurd (ground arith),
        λ all. absurd (let k = all i (omega arith) (omega arith) in ground arith),
      )
    ]

-- `__hash_init` makes a table of empty buckets, whatever the memory held before.
pub hash_init-IsTable : (s : Store) (ht sz : ℕ) → IsTable (__hash_init ht sz s) ht sz (λ _. [])
unfolding __hash_init occurs
hash_init-IsTable s ht sz = record {
  lists = λ i less. record {
    chain = (init_loop_heads sz ht 0 s i).1 (omega arith) (omega arith);
    once = λ y. ground arith;
  };
  apart = λ i j y less_i less_j ij h. refl;
}

nil_apart : (x : ℕ) (xs : List ℕ) → [] ≢ x ∷ xs
nil_apart x xs e = subst (λ l. elim l [ [] ↦ Unit | h ∷ t ↦ ⊥ ]) e tt

empty-Chain : (s : Store) (h : ℕ) (xs : List ℕ) → Chain s h xs → (s.next h ≡ 0) ↔ (xs ≡ [])
empty-Chain s h [] is = (λ e. refl, λ e. is)
empty-Chain s h (x ∷ xs) (e, ne, back, is) =
    (λ z. absurd (ne (sym e ∙ z)), λ z. absurd (nil_apart x xs (sym z)))

-- `__hash_empty` tells whether all buckets of a table are empty, which they are after `__hash_init`.
pub hash_empty_iff :
    (s : Store) (ht sz : ℕ) (buckets : ℕ → List ℕ)
    → IsTable s ht sz buckets
    → ((__hash_empty ht sz s ≡ true) ↔ ((i : ℕ) → i < sz → buckets i ≡ []))
      × (__hash_empty ht sz (__hash_init ht sz s) ≡ true)
unfolding __hash_empty
hash_empty_iff s ht sz buckets is =
    let (to, from) = empty_loop_heads sz ht 0 s in
    let fresh = hash_init-IsTable s ht sz in
    (
      (
        λ e i less.
            (empty-Chain s (slot ht i) (buckets i) (is.lists i less).chain).0
              (to e i (omega arith) (omega arith)),
        λ all. from (λ j ge less.
            let k : j < sz = omega arith in
            (empty-Chain s (slot ht j) (buckets j) (is.lists j k).chain).1 (all j k)),
      ),
      (empty_loop_heads sz ht 0 (__hash_init ht sz s)).1
          (λ j ge less. (fresh.lists j (omega arith)).chain),
    )
