-- ===== src/Rbtree/Erase/Single.antt =====
-- `__rb_erase_augmented` on a node with at most one child.
use mathlib.Core.Path.{subst}
use kernel_porting.Prelude.{ℕ, ◌+◌, ◌<◌, ◌≡◌, ◌≢◌, ◌∙◌, refl, ap, arith, List, some}
use kernel_porting.Rbtree.{left, right, Store, put_parent_color, __rb_parent, __rb_change_child}
use kernel_porting.Rbtree.Shape.{
  Color, red, black, bit_of, Tree, leaf, node, inorder, times, Frame, times_around, plug, parent_of,
  Shape-keep, Around-keep,
}
use kernel_porting.Rbtree.Rotate.{change_child-IsChanged}
use kernel_porting.Rbtree.Fix.{IsMended}
use kernel_porting.Rbtree.Fix.Heights.{BalancedAround, black_not_red}
use kernel_porting.Rbtree.Insert.Hole.{Around-IsLink, Balanced-unplug}
use kernel_porting.Rbtree.Walk.Ends.{size}
use kernel_porting.Rbtree.Erase.{erase_right_only, erase_left_only, rebalance_from}
use kernel_porting.Rbtree.Erase.Recolor.{Leaves, finish}
use kernel_porting.Rbtree.Erase.Done.{Lone, no_child, red_child, Lone-build, settle-Leaves}
use kernel_porting.Rbtree.Erase.Order.{without, inorder-without, length-size}
use kernel_porting.Rbtree.Erase.Whole.{Found}

module _ (fuel : ℕ) (s : Store) (zs : List Frame) (a q : ℕ) where
  pub erase_right_only-Leaves :
      (c : Color) (r : Tree)
      → Found s zs c a leaf r q
      → size (plug zs (node c leaf a r)) < fuel
      → Leaves (rebalance_from fuel (some (erase_right_only a s))) (without zs leaf r)
  unfolding erase_right_only times inorder
  erase_right_only-Leaves c r found enough =
      let (mended, h, tall, at_a, above) = Balanced-unplug zs (node c leaf a r) found.red_black in
      let ch = s.child right a in
      let pc = s.parent_color a in
      let link = Around-IsLink s zs a q found.around in
      let over : __rb_parent pc ≡ q = ap __rb_parent found.word ∙ parent_of q c link in
      let o_a = found.once a in
      let changed =
        change_child-IsChanged s zs a ch q found.around found.is_a.0 (ground arith)
          (λ z. let o = found.once z in omega arith) in
      let s' = __rb_change_child a ch q s in
      let big = length-size zs (node c leaf a r) in
      subst (λ x. Leaves (rebalance_from fuel (some (erase_right_only a s))) x)
        (inorder-without zs r leaf r refl)
        (rw over (
          settle-Leaves fuel s' zs r ch q a q pc pc h c (Lone-build left c a r h at_a)
            (Shape-keep s s' r ch a (λ z n. changed.words z)
              (λ z d n. let o = found.once z in changed.children z d (omega arith)) found.at_r)
            changed.around (λ z. let o = found.once z in omega arith) tall mended (omega arith) link
            found.word (λ e. found.word ∙ ap (λ x. q + bit_of x) e)))

  -- The left child can only be red, and takes the place and the colour of the node.
  left-Lone :
      (c : Color) (l : Tree) (h : ℕ)
      → Lone c l h
      → Found s zs c a l leaf q
      → s.child left a ≢ 0
      → BalancedAround zs h
      → IsMended zs
      → Leaves (rebalance_from fuel (some (erase_left_only a s))) (without zs l leaf)
  unfolding erase_left_only times inorder
  left-Lone _ _ _ (no_child _) found has_l tall mended = absurd (has_l found.at_l)
  left-Lone _ _ _ (red_child x) found has_l tall mended =
      let (at_x, is_x, word, no_l, no_r) = found.at_l in
      let pc = s.parent_color a in
      let ch = s.child left a in
      let s1 = put_parent_color ch pc s in
      let s' = __rb_change_child a ch q s1 in
      let over : __rb_parent pc ≡ q =
        ap __rb_parent found.word ∙ parent_of q black (Around-IsLink s zs a q found.around) in
      let o_a = found.once a in
      let o_x = found.once x in
      let around1 =
        Around-keep s s1 zs a q refl (λ z n. let o = found.once z in ground arith) (λ z d n. refl)
          found.around in
      let changed =
        change_child-IsChanged s1 zs a ch q around1 found.is_a.0 (ground arith)
          (λ z. let o = found.once z in omega arith) in
      let off : times_around x zs ≡ 0 = ground arith in
      let new = node black leaf x leaf in
      subst (λ y. Leaves (rebalance_from fuel (some (erase_left_only a s))) y)
        (inorder-without zs (node red leaf x leaf) (node red leaf x leaf) leaf refl)
        (rw over (
          finish s' zs new (node red leaf x leaf) 1 ch q
            (
              at_x,
              is_x,
              changed.words x ∙ ground arith,
              changed.children x left off ∙ no_l,
              changed.children x right off ∙ no_r,
            )
            changed.around (0, refl, refl, refl) tall mended
            (λ z. absurd (black_not_red black refl z)) refl))

  pub erase_left_only-Leaves :
      (c : Color) (l : Tree)
      → Found s zs c a l leaf q
      → s.child left a ≢ 0
      → Leaves (rebalance_from fuel (some (erase_left_only a s))) (without zs l leaf)
  erase_left_only-Leaves c l found has_l =
      let (mended, h, tall, at_a, above) = Balanced-unplug zs (node c l a leaf) found.red_black in
      left-Lone c l h (Lone-build right c a l h at_a) found has_l tall mended
