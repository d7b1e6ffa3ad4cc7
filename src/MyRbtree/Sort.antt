-- ===== src/MyRbtree/Sort.antt =====
-- Insertion and the loops together: what the loops visit after an insertion.
use mathlib.Core.Path.{subst}
use Prim.{tt}
use kernel_porting.Prelude.{
  ℕ, ◌+◌, ◌<◌, ◌≡◌, ◌∙◌, refl, sym, ap, arith, List, [], ◌∷◌, ◌++◌, ++_assoc, ++_nil, length,
  length-append, some,
}
use kernel_porting.Rbtree.{left, right, Store}
use kernel_porting.Rbtree.Shape.{Tree, leaf, node, inorder, times, IsNode}
use kernel_porting.Rbtree.Insert.{IsTree}
use kernel_porting.Rbtree.Walk.Ends.{size, walk}
use kernel_porting.MyRbtree.{Sign, IsOrder, my_rb_tree_insert}
use kernel_porting.MyRbtree.Sorted.{Each, IsSorted, Each-++, Each-split, Each-map, IsSorted-Cut}
use kernel_porting.MyRbtree.Descend.{AtLeast, my_rb_tree_insert_lem}
use kernel_porting.MyRbtree.Visit.{length-walk, for_each_entry_safe, for_each_entry_safe_lem}

walk_left : (t : Tree) → walk left t ≡ inorder t
unfolding walk inorder
walk_left leaf = refl
walk_left (node c l a r) =
    ap (λ x. x ++ a ∷ walk left r) (walk_left l) ∙ ap (λ x. inorder l ++ a ∷ x) (walk_left r)

Each-walk : (P : ℕ → Type 0) (t : Tree) → Each P (inorder t) → Each P (walk right t)
unfolding walk inorder
Each-walk P leaf h = tt
Each-walk P (node c l a r) h =
    let (low, (at, high)) = Each-split P (inorder l) (a ∷ inorder r) h in
    Each-++ P (walk right r) (a ∷ walk right l) (Each-walk P r high) (at, Each-walk P l low)

module _ (R : ℕ → ℕ → Type 0) where
  IsSorted-join :
      (xs ys : List ℕ)
      → IsSorted R xs
      → IsSorted R ys
      → Each (λ x. Each (R x) ys) xs
      → IsSorted R (xs ++ ys)
  IsSorted-join [] ys h k across = k
  IsSorted-join (x ∷ xs) ys (h, hs) k (a, across) =
      (Each-++ (R x) xs ys h a, IsSorted-join xs ys hs k across)

-- Read from the right, a sorted tree is sorted the other way round.
module _ (R : ℕ → ℕ → Type 0) (through : (x y z : ℕ) → R x y → R y z → R x z) where
  walk-IsSorted : (t : Tree) → IsSorted R (inorder t) → IsSorted (λ x y. R y x) (walk right t)
  unfolding walk inorder
  walk-IsSorted leaf h = tt
  walk-IsSorted (node c l a r) h =
      let cut = IsSorted-Cut R (inorder l) a (inorder r) h in
      let over = Each-walk (λ y. R y a) l cut.over in
      IsSorted-join (λ x y. R y x) (walk right r) (a ∷ walk right l) (walk-IsSorted r cut.high)
        (over, walk-IsSorted l cut.low)
        (Each-map (R a) (λ x. Each (λ y. R y x) (a ∷ walk right l)) (walk right r)
          (λ x k.
            (k, Each-map (λ y. R y a) (λ y. R y x) (walk right l) (λ y m. through y a x m k) over))
          (Each-walk (R a) r cut.under))

reverse : List ℕ → List ℕ
reverse [] = []
reverse (x ∷ xs) = reverse xs ++ x ∷ []

reverse-++ : (xs ys : List ℕ) → reverse (xs ++ ys) ≡ reverse ys ++ reverse xs
unfolding reverse
reverse-++ [] ys = sym (++_nil (reverse ys))
reverse-++ (x ∷ xs) ys =
    ap (λ l. l ++ x ∷ []) (reverse-++ xs ys) ∙ ++_assoc (reverse ys) (reverse xs) (x ∷ [])

reverse-insert :
    (xs : List ℕ) (n : ℕ) (ys : List ℕ) → reverse (xs ++ n ∷ ys) ≡ reverse ys ++ n ∷ reverse xs
unfolding reverse
reverse-insert xs n ys = reverse-++ xs (n ∷ ys) ∙ ++_assoc (reverse ys) (n ∷ []) (reverse xs)

walk_right : (t : Tree) → walk right t ≡ reverse (inorder t)
unfolding walk inorder reverse
walk_right leaf = refl
walk_right (node c l a r) =
    ap (λ x. x ++ a ∷ walk right l) (walk_right r)
    ∙ ap (λ x. reverse (inorder r) ++ a ∷ x) (walk_right l)
    ∙ sym (reverse-insert (inorder l) a (inorder r))

length-inorder : (t : Tree) → length (inorder t) ≡ size t
length-inorder t = ap length (sym (walk_left t)) ∙ length-walk left t

module _ {K : Type 0} (key : ℕ → K) (cmp : K → K → Sign) (order : IsOrder cmp) where
  -- When the comparison is a total order, the store holds a sorted red-black tree, the new
  -- node's address is aligned and not in the tree, and the fuel is more than the tree's nodes
  -- and one, `MY_RB_TREE_INSERT` ends, and `MY_RBTREE_SORTORDER_FOR_EACH_ENTRY_SAFE` then
  -- visits the nodes that it visited before, in the same order, and the new node among them, by
  -- ascending keys.
  pub insert_then_visit :
      (s : Store) (t : Tree) (n fuel : ℕ)
      → IsTree s t
      → IsSorted (AtLeast key cmp) (inorder t)
      → IsNode n
      → times n t ≡ 0
      → size t + 1 < fuel
      → (s' : Store) × (ys : List ℕ) × (zs : List ℕ) × (my_rb_tree_insert key cmp fuel n s
          ≡ some s')
        × (for_each_entry_safe fuel fuel right s ≡ some (ys ++ zs))
        × (for_each_entry_safe fuel fuel right s' ≡ some (ys ++ n ∷ zs))
        × IsSorted (λ x y. AtLeast key cmp y x) (ys ++ n ∷ zs)
  insert_then_visit s t n fuel is sorted is_n fresh enough =
      let (s', t', run, is', sorted', xs, ys, split, split') =
        my_rb_tree_insert_lem key cmp order s n t fuel is sorted is_n fresh (omega arith) in
      let old = walk_right t ∙ ap reverse split ∙ reverse-++ xs ys in
      let new = walk_right t' ∙ ap reverse split' ∙ reverse-insert xs n ys in
      let sizes : size t' ≡ size t + 1 =
        sym (length-inorder t')
        ∙ ap length split'
        ∙ length-append xs (n ∷ ys)
        ∙ (let e = sym (length-inorder t) ∙ ap length split ∙ length-append xs ys in omega arith) in
      (
        s',
        reverse ys,
        reverse xs,
        run,
        for_each_entry_safe_lem s right t fuel fuel is (omega arith) (omega arith) ∙ ap some old,
        for_each_entry_safe_lem s' right t' fuel fuel is' (omega arith) (omega arith) ∙ ap some new,
        subst (IsSorted (λ x y. AtLeast key cmp y x)) new (
            walk-IsSorted (AtLeast key cmp) (λ x y z. order.through (key x) (key y) (key z)) t'
              sorted'),
      )
