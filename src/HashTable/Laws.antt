-- ===== src/HashTable/Laws.antt =====
-- What a hash table holds, and what the operations make of it.
use mathlib.Core.Path.{subst}
use kernel_porting.Prelude.{
  ℕ, ◌+◌, ◌^◌, ◌≤◌, ◌<◌, ◌≡◌, ◌≢◌, sym, inl, inr, arith, leb, ◌==◌, if◌then◌else◌, Bool-cases, List,
  [], ◌∷◌, length, some,
}
use kernel_porting.Hash.{hash_lem}
use kernel_porting.Hlist.{Store, hlist_add_head}
use kernel_porting.Hlist.Chain.{occurs, Chain, IsHlist, Chain-keep}
use kernel_porting.Hlist.Edit.{hlist_add_head-IsHlist, hlist_for_each_lem}
use kernel_porting.HashTable.{slot, hash_min, hash_add, hash_for_each_possible}

-- The table at `ht` has `sz` buckets, and bucket `i` is the hash list of the nodes `buckets i`. No node
-- stands in two of them, or where a head is.
pub record IsTable (s : Store) (ht sz : ℕ) (buckets : ℕ → List ℕ) : Type 0 where
  pub lists : (i : ℕ) → i < sz → IsHlist s (slot ht i) (buckets i)
  pub apart :
      (i j y : ℕ)
      → i < sz
      → j < sz
      → i ≢ j
      → 1 ≤ occurs y (slot ht i ∷ buckets i)
      → occurs y (buckets j) ≡ 0

-- The bucket of a key is one of the table.
pub hash_min-lt : (size val bits : ℕ) → 0 < bits → bits ≤ 32 → hash_min size val bits < 2 ^ bits
unfolding hash_min
hash_min-lt size val bits pos h =
    let (a, b) = hash_lem val val bits pos h in
    elim (Bool-cases (leb size 4)) [ inl small ↦ rw small a | inr large ↦ rw large b ]

-- `hlist_add_head` changes the head, the new node and the node that was first.
add_head_next : (s : Store) (n h y : ℕ) → y ≢ n → y ≢ h → (hlist_add_head n h s).next y ≡ s.next y
unfolding hlist_add_head
add_head_next s n h y a b = ground arith

add_head_pprev :
    (s : Store) (n h y : ℕ)
    → y ≢ n
    → (s.next h ≢ 0 → y ≢ s.next h)
    → (hlist_add_head n h s).pprev y ≡ s.pprev y
unfolding hlist_add_head
add_head_pprev s n h y a b = elim (Bool-cases (s.next h == 0)) [
  | inl none_there ↦ ground arith
  | inr there ↦ let k = b (ground arith) in ground arith
]

first_occurs :
    (s : Store) (h : ℕ) (xs : List ℕ) → Chain s h xs → s.next h ≢ 0 → 1 ≤ occurs (s.next h) xs
unfolding occurs
first_occurs s h [] is ne = absurd (ne is)
first_occurs s h (x ∷ xs) (e, ne_x, back, rest) ne = ground arith

-- The list of another bucket stays.
other_bucket :
    (s : Store) (n h g : ℕ) (xs ys : List ℕ)
    → IsHlist s h xs
    → IsHlist s g ys
    → g ≢ h
    → occurs n (g ∷ ys) ≡ 0
    → ((y : ℕ) → 1 ≤ occurs y (h ∷ xs) → occurs y ys ≡ 0)
    → IsHlist (hlist_add_head n h s) g ys
unfolding occurs
other_bucket s n h g xs ys is is' ne fresh apart =
    let first = first_occurs s h xs is.chain in
    let off : (y : ℕ) → 1 ≤ occurs y (g ∷ ys) → y ≢ n =
      λ y k z. absurd (let w = subst (λ x. 1 ≤ occurs x (g ∷ ys)) z k in ground arith) in
    let off_h : (y : ℕ) → 1 ≤ occurs y (g ∷ ys) → y ≢ h = λ y k z.
      let w = subst (λ x. 1 ≤ occurs x (g ∷ ys)) z k in
      let a = apart h (ground arith) in absurd (ground arith) in
    record {
      chain =
          Chain-keep s (hlist_add_head n h s) g ys
            (λ y k. add_head_next s n h y (off y k) (off_h y k))
            (λ y k. add_head_pprev s n h y (off y (ground arith)) (λ there z.
              let a = first there in
              let b = apart (s.next h) (ground arith) in
              let w = subst (λ x. 1 ≤ occurs x ys) z k in absurd (omega arith)))
            is'.chain;
      once = is'.once;
    }

-- The buckets with a node more in front of bucket `k`.
abbrev pub added : (k node : ℕ) → (ℕ → List ℕ) → ℕ → List ℕ
added k node buckets i = if i == k then node ∷ buckets i else buckets i

occurs-added :
    (y k node : ℕ) (buckets : ℕ → List ℕ) (i : ℕ)
    → occurs y (added k node buckets i)
      ≡ (if y == node then (if i == k then 1 else 0) else 0) + occurs y (buckets i)
unfolding occurs
occurs-added y k node buckets i = elim (Bool-cases (i == k)) [
  | inl same ↦ rw same (ground arith)
  | inr other ↦ rw other (ground arith)
]

-- For a table of 2^bits buckets with `bits` from 1 to 32, a node that is not NULL and stands nowhere in
-- the table, as entry or as bucket, and a key: `hash_add` puts the node in front of the bucket that the
-- key's hash names, which is one of the table, and leaves the other buckets; and
-- `hash_for_each_possible` for the same key then ends within any number of rounds that exceeds the
-- bucket's length before by two or more, and visits the node first and then that bucket's entries.
pub hash_add_lem :
    (s : Store) (ht bits node size key fuel : ℕ) (buckets : ℕ → List ℕ)
    → 0 < bits
    → bits ≤ 32
    → IsTable s ht (2 ^ bits) buckets
    → node ≢ 0
    → ((i : ℕ) → i < 2 ^ bits → occurs node (slot ht i ∷ buckets i) ≡ 0)
    → length (buckets (hash_min size key bits)) + 1 < fuel
    → let k = hash_min size key bits in
      let s' = hash_add ht bits node size key s in
      IsTable s' ht (2 ^ bits) (added k node buckets)
      × (hash_for_each_possible fuel ht bits size key s' ≡ some (node ∷ buckets k))
unfolding hash_add hash_for_each_possible occurs
hash_add_lem s ht bits node size key fuel buckets pos small is ne fresh enough =
    let k = hash_min size key bits in
    let in_table = hash_min-lt size key bits pos small in
    let s' = hlist_add_head node (slot ht k) s in
    let at_k =
      hlist_add_head-IsHlist s node (slot ht k) (buckets k) (is.lists k in_table) ne
        (fresh k in_table) in
    (
      record {
        lists = λ i less. elim (Bool-cases (i == k)) [
          | inl same ↦
              let e : k ≡ i = ground arith in
              rw same (subst (λ x. IsHlist s' (slot ht x) (node ∷ buckets x)) e at_k)
          | inr other ↦
              let apart_i : i ≢ k = ground arith in
              rw other (
                other_bucket s node (slot ht k) (slot ht i) (buckets k) (buckets i)
                  (is.lists k in_table) (is.lists i less) (λ z. apart_i (omega arith))
                  (fresh i less) (λ y h. is.apart k i y in_table less (λ z. apart_i (sym z)) h))
        ];
        apart = λ i j y less_i less_j ij h.
            let m = occurs-added y k node buckets i in
            let n = occurs-added y k node buckets j in
            elim (Bool-cases (y == node)) [
              | inl at_node ↦
                  let e : node ≡ y = ground arith in
                  let a = subst (λ x. occurs x (slot ht i ∷ buckets i) ≡ 0) e (fresh i less_i) in
                  let b = subst (λ x. occurs x (slot ht j ∷ buckets j) ≡ 0) e (fresh j less_j) in
                  ground arith
              | inr off_node ↦
                  let c = is.apart i j y less_i less_j ij (ground arith) in ground arith
            ];
      },
      hlist_for_each_lem s' (slot ht k) (node ∷ buckets k) fuel at_k (omega arith),
    )
