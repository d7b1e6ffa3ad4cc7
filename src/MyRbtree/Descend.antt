-- ===== src/MyRbtree/Descend.antt =====
-- `MY_RB_TREE_INSERT` keeps the tree red-black and sorted.
use mathlib.Core.Path.{subst}
use Prim.{tt}
use kernel_porting.Prelude.{
  ℕ, zero, suc, ◌+◌, ◌≤◌, ◌<◌, ◌≡◌, ◌≢◌, ◌∙◌, refl, sym, ap, inl, inr, arith, true, false, ◌==◌,
  if◌then◌else◌, Bool-cases, List, [], ◌∷◌, ◌++◌, length, some,
}
use kernel_porting.Rbtree.{Side, left, right, Store, Link, at_child}
use kernel_porting.Rbtree.Shape.{Tree, leaf, node, inorder, times, IsNode, Shape, Frame, plug}
use kernel_porting.Rbtree.Fix.Balance.{before, after, inorder-plug}
use kernel_porting.Rbtree.Insert.{IsTree, rb_insert_color_lem}
use kernel_porting.Rbtree.Insert.Hole.{parent_at, link_at}
use kernel_porting.Rbtree.Walk.Ends.{size}
use kernel_porting.MyRbtree.{
  Sign, negative, naught, positive, is_negative, opposite, IsOrder, find_link, link_and_color,
  my_rb_tree_insert,
}
use kernel_porting.MyRbtree.Sorted.{
  Each, IsSorted, Each-++, Each-map, IsSorted-Cut, IsSorted-insert,
}

not_both : (c : Sign) → is_negative c ≡ true → is_negative (opposite c) ≡ false
not_both negative e = refl
not_both naught e = refl
not_both positive e = absurd (ground arith)

module _ {K : Type 0} (key : ℕ → K) (cmp : K → K → Sign) where
  -- The key of `x` is not smaller than that of `y`.
  abbrev pub AtLeast : (x y : ℕ) → Type 0
  AtLeast x y = is_negative (cmp (key x) (key y)) ≡ false

  -- The hole that the loop finds.
  record Found (fuel n p : ℕ) (t : Tree) (zs : List Frame) (s : Store) (zs' : List Frame)
      : Type 0 where
    run :
        find_link key cmp fuel n p (parent_at zs) (link_at zs) s ≡ some (parent_at zs', link_at zs')
    whole : plug zs' leaf ≡ plug zs t
    depth : length zs' ≤ length zs + size t
    over : Each (λ x. AtLeast x n) (before zs')
    under : Each (AtLeast n) (after zs')

  module _ (order : IsOrder cmp) (s : Store) (n : ℕ) where
    find_link-step :
        (fuel p parent : ℕ) (link : Link) (d : Side)
        → p ≢ 0
        → (if is_negative (cmp (key p) (key n)) then left else right) ≡ d
        → find_link key cmp (suc fuel) n p parent link s
          ≡ find_link key cmp fuel n (s.child d p) p (at_child d p) s
    unfolding find_link
    find_link-step fuel p parent link d ne at_d =
        let e : (p == 0) ≡ false = ground arith in rw (e, at_d) refl

    find_link-end :
        (fuel p parent : ℕ) (link : Link)
        → p ≡ 0
        → find_link key cmp (suc fuel) n p parent link s ≡ some (parent, link)
    unfolding find_link
    find_link-end fuel p parent link z = let e : (p == 0) ≡ true = ground arith in rw e refl

    descend :
        (fuel : ℕ) (t : Tree) (zs : List Frame) (p q : ℕ)
        → size t < fuel
        → Shape s t p q
        → IsSorted AtLeast (inorder t)
        → Each (λ x. AtLeast x n) (before zs)
        → Each (AtLeast n) (after zs)
        → (zs' : List Frame) × Found fuel n p t zs s zs'
    unfolding inorder size before after plug
    descend zero t zs p q enough is sorted over under = absurd (omega arith)
    descend (suc fuel) leaf zs p q enough is sorted over under = (
      zs,
      record {
        run = find_link-end fuel p (parent_at zs) (link_at zs) is;
        whole = refl;
        depth = omega arith;
        over = over;
        under = under;
      },
    )
    descend (suc fuel) (node c l a r) zs p q enough (e, is_node, pc, is_l, is_r) sorted over under =
        let split = IsSorted-Cut AtLeast (inorder l) a (inorder r) sorted in
        let ne : p ≢ 0 = λ z. is_node.0 (sym e ∙ z) in
        elim (Bool-cases (is_negative (cmp (key p) (key n)))) [
          | inl below ↦
              let small : is_negative (cmp (key a) (key n)) ≡ true =
                subst (λ x. is_negative (cmp (key x) (key n)) ≡ true) e below in
              let to_a : AtLeast n a =
                ap is_negative (order.turned (key a) (key n)) ∙ not_both _ small in
              let f : Frame = record { side = left; color = c; addr = a; sibling = r } in
              let (zs', found) =
                descend fuel l (f ∷ zs) (s.child left a) a (omega arith) is_l split.low over (
                  to_a,
                  Each-++ (AtLeast n) (inorder r) (after zs)
                      (Each-map (AtLeast a) (AtLeast n) (inorder r)
                        (λ x h. order.through (key n) (key a) (key x) to_a h) split.under)
                      under,
                ) in
              (
                zs',
                record {
                  run =
                      find_link-step fuel p (parent_at zs) (link_at zs) left ne (rw below refl)
                      ∙ subst
                          (λ x.
                            find_link key cmp fuel n (s.child left x) x (at_child left x) s
                            ≡ some (parent_at zs', link_at zs'))
                          (sym e) found.run;
                  whole = found.whole;
                  depth = (let k = found.depth in omega arith);
                  over = found.over;
                  under = found.under;
                },
              )
          | inr above ↦
              let from_a : AtLeast a n =
                subst (λ x. is_negative (cmp (key x) (key n)) ≡ false) e above in
              let f : Frame = record { side = right; color = c; addr = a; sibling = l } in
              let (zs', found) =
                descend fuel r (f ∷ zs) (s.child right a) a (omega arith) is_r split.high
                  (Each-++ (λ x. AtLeast x n) (before zs) (inorder l ++ a ∷ []) over
                    (Each-++ (λ x. AtLeast x n) (inorder l) (a ∷ [])
                      (Each-map (λ x. AtLeast x a) (λ x. AtLeast x n) (inorder l)
                        (λ x h. order.through (key x) (key a) (key n) h from_a) split.over)
                      (from_a, tt)))
                  under in
              (
                zs',
                record {
                  run =
                      find_link-step fuel p (parent_at zs) (link_at zs) right ne (rw above refl)
                      ∙ subst
                          (λ x.
                            find_link key cmp fuel n (s.child right x) x (at_child right x) s
                            ≡ some (parent_at zs', link_at zs'))
                          (sym e) found.run;
                  whole = found.whole;
                  depth = (let k = found.depth in omega arith);
                  over = found.over;
                  under = found.under;
                },
              )
        ]

    -- When the comparison is a total order, the store holds a red-black tree sorted by
    -- descending keys and the new node's address is aligned and not in the tree,
    -- `MY_RB_TREE_INSERT` ends with fuel for each node of the tree and one more, and the store
    -- then holds a red-black tree, sorted in the same way, with the new node inserted into the
    -- old sequence.
    pub my_rb_tree_insert_lem :
        (t : Tree) (fuel : ℕ)
        → IsTree s t
        → IsSorted AtLeast (inorder t)
        → IsNode n
        → times n t ≡ 0
        → size t < fuel
        → (s' : Store) × (t' : Tree) × (my_rb_tree_insert key cmp fuel n s ≡ some s')
          × IsTree s' t'
          × IsSorted AtLeast (inorder t')
          × (xs : List ℕ) × (ys : List ℕ) × (inorder t ≡ xs ++ ys)
          × (inorder t' ≡ xs ++ n ∷ ys)
    unfolding my_rb_tree_insert before after plug inorder
    my_rb_tree_insert_lem t fuel is sorted is_n fresh enough =
        let (zs, found) = descend fuel t [] s.root 0 enough is.shape sorted tt tt in
        let back = sym found.whole in
        let split = ap inorder back ∙ inorder-plug zs leaf in
        let depth = found.depth in
        let (s', t', run, is', order') =
          rb_insert_color_lem s zs n fuel (subst (IsTree s) back is) is_n
            (subst (λ x. times n x ≡ 0) back fresh) (omega arith) in
        (
          s',
          t',
          ap (link_and_color fuel n s) found.run ∙ run,
          is',
          subst (IsSorted AtLeast) (sym order') (
              IsSorted-insert AtLeast (before zs) n (after zs)
                (subst (IsSorted AtLeast) split sorted) found.over found.under),
          before zs,
          after zs,
          split,
          order',
        )
