-- ===== src/Rbtree/Erase/Remove.antt =====
-- `rb_erase` on a whole tree: a red-black tree stays one, without the node.
use mathlib.Core.Path.{subst}
use kernel_porting.Prelude.{
  ℕ, ◌≤◌, ◌<◌, ◌≡◌, ◌≢◌, ◌∙◌, refl, sym, ap, inl, inr, arith, true, false, ◌==◌, List, ◌∷◌, ◌++◌,
  ++_assoc, some,
}
use kernel_porting.Rbtree.{left, right, Store}
use kernel_porting.Rbtree.Shape.{Color, Tree, node, inorder, times, Frame, Around, plug, times-plug}
use kernel_porting.Rbtree.Fix.Balance.{before, after, inorder-plug}
use kernel_porting.Rbtree.Insert.{IsTree, count, count-++, times-count}
use kernel_porting.Rbtree.Insert.Hole.{Shape-unplug}
use kernel_porting.Rbtree.Walk.Ends.{size, leaf_or_node}
use kernel_porting.Rbtree.Erase.{
  erase_right_only, erase_left_only, erase_both, erase_cases, __rb_erase_augmented, rebalance_from,
  rb_erase,
}
use kernel_porting.Rbtree.Erase.Recolor.{Leaves}
use kernel_porting.Rbtree.Erase.Order.{without}
use kernel_porting.Rbtree.Erase.Whole.{Found, erase_both-Leaves}
use kernel_porting.Rbtree.Erase.Single.{erase_right_only-Leaves, erase_left_only-Leaves}

-- Which of the three parts runs.
module _ (fuel a : ℕ) (s : Store) where
  cases-right : s.child left a ≡ 0 → erase_cases fuel a (some s) ≡ some (erase_right_only a s)
  cases-right e = let k : (s.child left a == 0) ≡ true = ground arith in rw k refl

  cases-left :
      s.child left a ≢ 0
      → s.child right a ≡ 0
      → erase_cases fuel a (some s) ≡ some (erase_left_only a s)
  cases-left ne e =
      let k : (s.child left a == 0) ≡ false = ground arith in
      let m : (s.child right a == 0) ≡ true = ground arith in rw (k, m) refl

  cases-both :
      s.child left a ≢ 0 → s.child right a ≢ 0 → erase_cases fuel a (some s) ≡ erase_both fuel a s
  cases-both ne ne' =
      let k : (s.child left a == 0) ≡ false = ground arith in
      let m : (s.child right a == 0) ≡ false = ground arith in rw (k, m) refl

-- Whatever children the node has, the run ends with a red-black tree.
pub erase_cases-Leaves :
    (fuel : ℕ) (s : Store) (zs : List Frame) (c : Color) (a : ℕ) (l r : Tree) (q : ℕ)
    → Found s zs c a l r q
    → size (plug zs (node c l a r)) < fuel
    → Leaves (rebalance_from fuel (erase_cases fuel a (some s))) (without zs l r)
erase_cases-Leaves fuel s zs c a l r q found enough =
    elim (leaf_or_node s l (s.child left a) a found.at_l) [
      | inl (no_l, tree) ↦
          subst (λ x. Leaves (rebalance_from fuel x) (without zs l r))
            (sym (cases-right fuel a s no_l))
            (subst
              (λ x. Leaves (rebalance_from fuel (some (erase_right_only a s))) (without zs x r))
              (sym tree)
              (erase_right_only-Leaves fuel s zs a q c r
                (subst (λ x. Found s zs c a x r q) tree found)
                (subst (λ x. size (plug zs (node c x a r)) < fuel) tree enough)))
      | inr has_l ↦ elim (leaf_or_node s r (s.child right a) a found.at_r) [
        | inl (no_r, tree) ↦
            subst (λ x. Leaves (rebalance_from fuel x) (without zs l r))
              (sym (cases-left fuel a s has_l no_r))
              (subst
                (λ x. Leaves (rebalance_from fuel (some (erase_left_only a s))) (without zs l x))
                (sym tree)
                (erase_left_only-Leaves fuel s zs a q c l
                  (subst (λ x. Found s zs c a l x q) tree found) has_l))
        | inr has_r ↦
            subst (λ x. Leaves (rebalance_from fuel x) (without zs l r))
              (sym (cases-both fuel a s has_l has_r))
              (erase_both-Leaves fuel s zs c a l r q found has_l enough has_r)
      ]
    ]

-- What a whole tree says of one of its nodes.
pub IsTree-Found :
    (s : Store) (zs : List Frame) (c : Color) (l r : Tree) (a : ℕ)
    → IsTree s (plug zs (node c l a r))
    → (q : ℕ) × Found s zs c a l r q
unfolding times
IsTree-Found s zs c l r a is =
    let (p, q, (e, is_a, pc, at_l, at_r), around) = Shape-unplug s zs (node c l a r) is.shape in
    (
      q,
      record {
        is_a = is_a;
        word = pc;
        at_l = at_l;
        at_r = at_r;
        around = subst (λ x. Around s zs x q) e around;
        once = λ z. let k = times-plug z zs (node c l a r) in let o = is.once z in omega arith;
        red_black = is.red_black;
      },
    )

-- A tree that keeps part of a sequence without repetitions has none.
count_fewer :
    (y : ℕ) (zs : List Frame) (c : Color) (l r t : Tree) (a : ℕ)
    → inorder t ≡ without zs l r
    → times y t ≤ times y (plug zs (node c l a r))
unfolding inorder count
count_fewer y zs c l r t a order = omega (
  arith,
  times-count y (plug zs (node c l a r)),
  times-count y t,
  ap (count y) (inorder-plug zs (node c l a r)),
  ap (count y) order,
  count-++ y (before zs) ((inorder l ++ a ∷ inorder r) ++ after zs),
  count-++ y (inorder l ++ a ∷ inorder r) (after zs),
  count-++ y (inorder l) (a ∷ inorder r),
  count-++ y (before zs) ((inorder l ++ inorder r) ++ after zs),
  count-++ y (inorder l ++ inorder r) (after zs),
  count-++ y (inorder l) (inorder r),
)

-- In a store that holds a red-black tree with a node, for more fuel than the tree has nodes,
-- `rb_erase` ends, and the store then holds a red-black tree whose sequence is the old one without the
-- node.
pub rb_erase-IsTree :
    (s : Store) (zs : List Frame) (c : Color) (l r : Tree) (a fuel : ℕ)
    → IsTree s (plug zs (node c l a r))
    → size (plug zs (node c l a r)) < fuel
    → (s' : Store) × (t : Tree) × (rb_erase fuel a s ≡ some s')
      × IsTree s' t
      × (inorder (plug zs (node c l a r)) ≡ (before zs ++ inorder l) ++ a ∷ (inorder r ++ after zs))
      × (inorder t ≡ (before zs ++ inorder l) ++ (inorder r ++ after zs))
unfolding rb_erase __rb_erase_augmented inorder
rb_erase-IsTree s zs c l r a fuel is enough =
    let (q, found) = IsTree-Found s zs c l r a is in
    let (s', t, run, shape, red_black, order) =
      erase_cases-Leaves fuel s zs c a l r q found enough in
    (
      s',
      t,
      run,
      record {
        shape = shape;
        once = λ y. let k = count_fewer y zs c l r t a order in let o = is.once y in omega arith;
        red_black = red_black;
      },
      inorder-plug zs (node c l a r) ∙ simp ++_assoc,
      order ∙ simp ++_assoc,
    )
