-- ===== src/HashTable/Remove.antt =====
-- `hash_del`.
use mathlib.Core.Path.{subst}
use kernel_porting.Prelude.{
  ℕ, ◌+◌, ◌≤◌, ◌<◌, ◌≡◌, ◌≢◌, ◌∙◌, sym, ap, inl, inr, arith, false, ◌==◌, if◌then◌else◌, Bool-cases,
  List, [], ◌∷◌, ◌++◌,
}
use kernel_porting.Hlist.{Store, init_hlist_node, __hlist_del, hlist_del_init}
use kernel_porting.Hlist.Chain.{occurs, occurs-++, Chain, IsHlist, Chain-keep, Chain-split, Way-end}
use kernel_porting.Hlist.Edit.{hlist_del-IsHlist}
use kernel_porting.HashTable.{slot, hash_del, hash_hashed}
use kernel_porting.HashTable.Laws.{IsTable}

del_next : (s : Store) (n y : ℕ) → y ≢ n → y ≢ s.pprev n → (hlist_del_init n s).next y ≡ s.next y
unfolding hlist_del_init __hlist_del init_hlist_node
del_next s n y a b = ground arith

del_pprev :
    (s : Store) (n y : ℕ)
    → y ≢ n
    → (s.next n ≢ 0 → y ≢ s.next n)
    → (hlist_del_init n s).pprev y ≡ s.pprev y
unfolding hlist_del_init __hlist_del init_hlist_node
del_pprev s n y a b = elim (Bool-cases (s.next n == 0)) [
  | inl last ↦ ground arith
  | inr more ↦ let k = b (ground arith) in ground arith
]

after_node :
    (s : Store) (n : ℕ) (ys : List ℕ) → Chain s n ys → s.next n ≢ 0 → 1 ≤ occurs (s.next n) ys
unfolding occurs
after_node s n [] is ne = absurd (ne is)
after_node s n (y ∷ ys) (e, ne_y, back, rest) ne = ground arith

-- The pointers to a node and out of it stay within the list.
neighbours :
    (s : Store) (h n : ℕ) (xs ys : List ℕ)
    → Chain s h (xs ++ n ∷ ys)
    → (1 ≤ occurs (s.pprev n) (h ∷ (xs ++ n ∷ ys)))
      × (s.next n ≢ 0 → 1 ≤ occurs (s.next n) (xs ++ n ∷ ys))
unfolding occurs
neighbours s h n xs ys is =
    let (end, way, (e, ne, back, rest)) = Chain-split s h xs (n ∷ ys) is in
    let m = occurs-++ (s.pprev n) xs (n ∷ ys) in
    (
      elim (Way-end s h end xs way) [
        | inl same ↦ ground arith
        | inr (ne', there) ↦ let k = subst (λ x. 1 ≤ occurs x xs) (sym back) there in omega arith
      ],
      λ more.
          let m' = occurs-++ (s.next n) xs (n ∷ ys) in
          let k = after_node s n ys rest more in omega arith,
    )

-- The buckets without the node that stood in bucket `k`.
abbrev pub removed : (k : ℕ) → List ℕ → (ℕ → List ℕ) → ℕ → List ℕ
removed k rest buckets i = if i == k then rest else buckets i

-- For a node in a bucket of a table whose heads are not NULL, `hash_del` takes it out of that bucket and
-- leaves the other nodes and buckets, and the node then counts as not hashed.
pub hash_del_lem :
    (s : Store) (ht sz k n : ℕ) (xs ys : List ℕ) (buckets : ℕ → List ℕ)
    → IsTable s ht sz buckets
    → ht ≢ 0
    → k < sz
    → buckets k ≡ xs ++ n ∷ ys
    → IsTable (hash_del n s) ht sz (removed k (xs ++ ys) buckets)
      × (hash_hashed n (hash_del n s) ≡ false)
unfolding hash_del hash_hashed occurs
hash_del_lem s ht sz k n xs ys buckets is has in_table at_k =
    let s' = hlist_del_init n s in
    let mine = subst (λ l. IsHlist s (slot ht k) l) at_k (is.lists k in_table) in
    let (gone, clear, off) = hlist_del-IsHlist s (slot ht k) n xs ys (ground arith) mine in
    let (back, on) = neighbours s (slot ht k) n xs ys mine.chain in
    let count : (y : ℕ)
        → occurs y (buckets k) ≡ occurs y xs + ((if y == n then 1 else 0) + occurs y ys) =
      λ y. ap (occurs y) at_k ∙ occurs-++ y xs (n ∷ ys) in
    let fewer : (y i : ℕ) → occurs y (removed k (xs ++ ys) buckets i) ≤ occurs y (buckets i) =
      λ y i. elim (Bool-cases (i == k)) [
        | inl same ↦
            let e : k ≡ i = ground arith in
            let c = count y in
            let d = occurs-++ y xs ys in
            rw same (subst (λ x. occurs y (xs ++ ys) ≤ occurs y (buckets x)) e (ground arith))
        | inr other ↦ rw other (omega arith)
      ] in
    let apart_k : (j y z : ℕ)
        → j < sz
        → j ≢ k
        → 1 ≤ occurs z (slot ht k ∷ (xs ++ n ∷ ys))
        → 1 ≤ occurs y (slot ht j ∷ buckets j)
        → y ≢ z =
      λ j y z less ne hz hy e.
        let hz' = subst (λ l. 1 ≤ occurs z (slot ht k ∷ l)) (sym at_k) hz in
        let hy' = subst (λ x. 1 ≤ occurs x (slot ht j ∷ buckets j)) e hy in
        let a = is.apart k j z in_table less (λ w. ne (sym w)) hz' in
        let b = is.apart j k z less in_table ne hy' in absurd (ground arith) in
    let n_in : 1 ≤ occurs n (slot ht k ∷ (xs ++ n ∷ ys)) =
      (let m = occurs-++ n xs (n ∷ ys) in ground arith) in
    (
      record {
        lists = λ i less. elim (Bool-cases (i == k)) [
          | inl same ↦
              let e : k ≡ i = ground arith in
              rw same (subst (λ x. IsHlist s' (slot ht x) (xs ++ ys)) e clear)
          | inr other ↦
              let ne : i ≢ k = ground arith in
              rw other (record {
                chain =
                    Chain-keep s s' (slot ht i) (buckets i)
                      (λ y h.
                        del_next s n y (apart_k i y n less ne n_in h)
                          (apart_k i y (s.pprev n) less ne back h))
                      (λ y h.
                        let h' : 1 ≤ occurs y (slot ht i ∷ buckets i) = ground arith in
                        del_pprev s n y (apart_k i y n less ne n_in h') (λ more.
                          let q = on more in apart_k i y (s.next n) less ne (ground arith) h'))
                      (is.lists i less).chain;
                once = (is.lists i less).once;
              })
        ];
        apart = λ i j y less_i less_j ij h.
            let a = fewer y i in
            let b = fewer y j in
            let c = is.apart i j y less_i less_j ij (omega arith) in omega arith;
      },
      ground (arith, off),
    )
