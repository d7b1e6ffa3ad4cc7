-- ===== src/Llist/Laws.antt =====
-- What the operations of llist.c and llist.h do to the sequence of nodes, when one thread runs them.
use mathlib.Core.Path.{subst}
use kernel_porting.Prelude.{
  ℕ, suc, ◌%◌, ◌^◌, ◌<◌, ◌≡◌, ◌≢◌, ◌∙◌, refl, sym, inl, inr, arith, List, [], ◌∷◌, length, true,
  false, ◌==◌, some,
}
use kernel_porting.ListHead.Chain.{In, Distinct}
use kernel_porting.Llist.{
  Store, put_first, put_next, __xchg, __cmpxchg_local_generic, llist_empty, llist_add_batch,
  llist_add, llist_del_all, del_loop, llist_del_first, reverse_loop, llist_reverse_order,
}

-- From the pointer `p` the `next` fields lead through `xs` to NULL.
abbrev pub Nodes : Store → ℕ → List ℕ → Type 0
Nodes s p [] = p ≡ 0
Nodes s p (x ∷ xs) = (p ≡ x) × (x ≢ 0) × Nodes s (s.next x) xs

Nodes-keep :
    (s s' : Store) (p : ℕ) (xs : List ℕ)
    → ((y : ℕ) → In y xs → s'.next y ≡ s.next y)
    → Nodes s p xs
    → Nodes s' p xs
Nodes-keep s s' p [] same is = is
Nodes-keep s s' p (x ∷ xs) same (e, ne, rest) = (
  e,
  ne,
  Nodes-keep s s' (s'.next x) xs (λ y h. same y (inr h))
      (subst (λ q. Nodes s q xs) (sym (same x (inl refl))) rest),
)

-- `llist_add` puts a node that is not on the list, and whose address is not NULL and fits a word,
-- in front of the others, in the first round of its loop, and returns whether the list was empty.
pub llist_add_lem :
    (fuel new head : ℕ) (s : Store) (xs : List ℕ)
    → Nodes s (s.first head) xs
    → new ≢ 0
    → new < 2 ^ 64
    → ((y : ℕ) → In y xs → y ≢ new)
    → (s' : Store) × (llist_add (suc fuel) new head s ≡ some (s', llist_empty head s))
      × Nodes s' (s'.first head) (new ∷ xs)
unfolding llist_add llist_add_batch llist_empty __cmpxchg_local_generic
llist_add_lem fuel new head s xs is ne small fresh =
    let fits : new % 2 ^ 64 ≡ new = omega arith in
    let same : (s.first head == s.first head) ≡ true = ground arith in
    let s' = put_first head new (put_next new (s.first head) s) in
    (
      s',
      rw (same, fits) refl,
      (
        ground arith,
        ne,
        let e : s'.next new ≡ s.first head = ground arith in
            subst (λ q. Nodes s' q xs) (sym e)
              (Nodes-keep s s' (s.first head) xs (λ y h. let a = fresh y h in ground arith) is),
      ),
    )

-- The nodes in reverse, in front of others.
abbrev pub onto : List ℕ → List ℕ → List ℕ
onto [] ys = ys
onto (x ∷ xs) ys = onto xs (x ∷ ys)

reverse_loop_lem :
    (s : Store) (head new_head : ℕ) (xs ys : List ℕ)
    → Nodes s head xs
    → Nodes s new_head ys
    → Distinct xs
    → ((x y : ℕ) → In x xs → In y ys → x ≢ y)
    → (s' : Store) × (q : ℕ) × (reverse_loop (suc (length xs)) head new_head s ≡ some (s', q))
      × Nodes s' q (onto xs ys)
unfolding reverse_loop
reverse_loop_lem s head new_head [] ys is done d apart =
    (s, new_head, (let e : (head == 0) ≡ true = ground arith in rw e refl), done)
reverse_loop_lem s head new_head (x ∷ xs) ys (e, ne, rest) done (off, d) apart =
    let s1 = put_next x new_head s in
    let stays : Nodes s1 (s.next x) xs =
      Nodes-keep s s1 (s.next x) xs (λ y h. let a = off y h in ground arith) rest in
    let kept : Nodes s1 new_head ys =
      Nodes-keep s s1 new_head ys (λ y h. let a = apart x y (inl refl) h in ground arith) done in
    let here : s1.next x ≡ new_head = ground arith in
    let grown : Nodes s1 x (x ∷ ys) = (refl, ne, subst (λ q. Nodes s1 q ys) (sym here) kept) in
    let (s', q, ran, order) =
      reverse_loop_lem s1 (s.next x) x xs (x ∷ ys) stays grown d (λ u v hu hv. elim hv [
        | inl same ↦ λ eq. off u hu (eq ∙ same)
        | inr there ↦ apart u v (inr hu) there
      ]) in
    let on : (x == 0) ≡ false = ground arith in
    (
      s',
      q,
      subst (λ h. reverse_loop (suc (suc (length xs))) h new_head s ≡ some (s', q)) (sym e)
          (rw on ran),
      order,
    )

-- For a chain in which no node stands twice, `llist_reverse_order` ends, after one round for each
-- node, and the nodes then stand in the opposite order.
pub llist_reverse_order_lem :
    (s : Store) (head : ℕ) (xs : List ℕ)
    → Nodes s head xs
    → Distinct xs
    → (s' : Store) × (q : ℕ) × (llist_reverse_order (suc (length xs)) head s ≡ some (s', q))
      × Nodes s' q (onto xs [])
unfolding llist_reverse_order
llist_reverse_order_lem s head xs is d =
    reverse_loop_lem s head 0 xs [] is refl d (λ x y hx hy. elim hy [ ])

-- For a list that is not empty, and whose first node has a `next` field that fits a word,
-- `llist_del_first`, in the first round of its loop, and `llist_del_all` take off the first node
-- and all nodes, and return the first.
pub llist_del_lem :
    (fuel head x : ℕ) (s : Store) (xs : List ℕ)
    → Nodes s (s.first head) (x ∷ xs)
    → s.next x < 2 ^ 64
    → (s' : Store) × (llist_del_first (suc fuel) head s ≡ some (s', x))
      × Nodes s' (s'.first head) xs
      × ((llist_del_all head s).1 ≡ x)
      × Nodes (llist_del_all head s).0 ((llist_del_all head s).0.first head) []
unfolding llist_del_first del_loop llist_del_all __xchg __cmpxchg_local_generic
llist_del_lem fuel head x s xs (e, ne, rest) small =
    let fits : s.next x % 2 ^ 64 ≡ s.next x = omega arith in
    let s' = put_first head (s.next x) s in
    let same : (x == x) ≡ true = ground arith in
    let on : (x == 0) ≡ false = ground arith in
    let here : s'.first head ≡ s.next x = ground arith in
    (
      s',
      rw (e, same, fits, on) refl,
      subst (λ q. Nodes s' q xs) (sym here) (Nodes-keep s s' (s.next x) xs (λ y h. refl) rest),
      e,
      ground arith,
    )
