-- ===== src/Rbtree/Tests.antt =====
-- Runs of the functions on red-black trees, and the theorems about them at concrete trees.
use Prim.{tt}
use kernel_porting.Prelude.{
  ℕ, ◌+◌, ◌≤◌, ◌<◌, ◌≡◌, refl, arith, ◌==◌, if◌then◌else◌, List, [], ◌∷◌, ◌++◌, Option, none, some,
}
use kernel_porting.Rbtree.{
  left, right, Store, at_child, rb_link_node, insert_loop, rb_insert_color, __rb_insert,
  insert_side, insert_outer, __rb_rotate_set_parents, __rb_change_child, __rb_parent, __rb_color,
  blacken_child, rb_set_parent_color, rb_empty_node, rb_set_parent,
}
use kernel_porting.Rbtree.Shape.{
  red, black, Tree, leaf, node, inorder, times, IsNode, Shape, Frame, Around, times_around, plug,
}
use kernel_porting.Rbtree.Fix.{fix}
use kernel_porting.Rbtree.Fix.Mend.{Mends}
use kernel_porting.Rbtree.Fix.Refine.{insert_loop-fix}
use kernel_porting.Rbtree.Fix.Balance.{before, after}
use kernel_porting.Rbtree.Insert.{IsTree, rb_insert_color_lem}
use kernel_porting.Rbtree.Walk.{
  go_down, go_up, copy_node, adopt, rb_left_deepest_node, rb_first, rb_next, rb_replace_node,
  rb_first_postorder, rb_next_postorder,
}
use kernel_porting.Rbtree.Walk.Ends.{size}
use kernel_porting.Rbtree.Walk.Replace.{rb_replace_node-IsTree}
use kernel_porting.Rbtree.Walk.Postorder.{
  postorder, postorder_for_each_entry_safe, postorder_for_each_lem,
}
use kernel_porting.Rbtree.Erase.{
  rb_erase, __rb_erase_augmented, erase_right_only, erase_both, erase_both_end, ____rb_erase_color,
  erase_color_loop, erase_black_sibling,
}

-- A black node 8 with a red node 12 on its left.
abbrev pub two : Store
two = record {
  parent_color = λ a. if a == 8 then 1 else if a == 12 then 8 else 0;
  child = λ d a. elim d [ left ↦ if a == 8 then 12 else 0 | right ↦ 0 ];
  root = 8;
  leftmost = 12;
}

abbrev pub two_tree : Tree
two_tree = node black (node red leaf 12 leaf) 8 leaf

pub IsNode-8 : IsNode 8
IsNode-8 = (λ e. absurd (omega arith), (refl, omega arith))

pub IsNode-12 : IsNode 12
IsNode-12 = (λ e. absurd (omega arith), (refl, omega arith))

pub IsNode-16 : IsNode 16
IsNode-16 = (λ e. absurd (omega arith), (refl, omega arith))

pub two-Shape : Shape two two_tree 8 0
two-Shape = (refl, IsNode-8, refl, (refl, IsNode-12, refl, refl, refl), refl)

two_once : (y : ℕ) → times y two_tree ≤ 1
unfolding times
two_once y = ground arith

pub two-IsTree : IsTree two two_tree
two-IsTree = record {
  shape = two-Shape;
  once = two_once;
  red_black = (refl, (1, (0, refl, (refl, refl, refl, refl), refl)));
}

-- The hole on the left of 12.
abbrev pub f12 : Frame
f12 = record { side = left; color = red; addr = 12; sibling = leaf }

abbrev pub f8 : Frame
f8 = record { side = left; color = black; addr = 8; sibling = leaf }

abbrev pub hole : List Frame
hole = f12 ∷ f8 ∷ []

two_whole : plug hole leaf ≡ two_tree
unfolding plug
two_whole = refl

pub two-hole-IsTree : IsTree two (plug hole leaf)
unfolding plug
two-hole-IsTree = two-IsTree

pub fresh : times 16 (plug hole leaf) ≡ 0
unfolding plug times
fresh = refl

rb_insert_color_lem_example :
    (s' : Store) × (t : Tree) × (rb_insert_color 3 16 (rb_link_node 16 12 (at_child left 12) two)
      ≡ some s')
    × IsTree s' t
    × (inorder t ≡ before hole ++ 16 ∷ after hole)
rb_insert_color_lem_example =
    rb_insert_color_lem two hole 16 3 two-hole-IsTree IsNode-16 fresh (omega arith)

-- The node 16 linked there.
abbrev three : Store
three = rb_link_node 16 12 (at_child left 12) two

three-Shape : Shape three (node red leaf 16 leaf) 16 12
unfolding rb_link_node
three-Shape = (refl, IsNode-16, refl, refl, refl)

three-Around : Around three hole 16 12
unfolding rb_link_node
three-Around = (
  refl,
  IsNode-12,
  refl,
  refl,
  8,
  (refl, omega arith),
  refl,
  (refl, IsNode-8, refl, refl, 0, (refl, omega arith), refl, (refl, refl)),
)

three_once : (y : ℕ) → times y (node red leaf 16 leaf) + times_around y hole ≤ 1
unfolding times times_around
three_once y = ground arith

insert_loop-fix_example : Mends 3 16 12 (fix (node red leaf 16 leaf) hole) three
insert_loop-fix_example =
    insert_loop-fix 3 three (node red leaf 16 leaf) 16 12 hole (omega arith)
      (refl, refl, refl, refl) (λ e. (refl, refl), (λ e. absurd (ground arith), tt)) three-Shape
      three-Around three_once

size_two : size two_tree ≤ 2
unfolding size
size_two = omega arith

size_leaf : size leaf + size leaf + 1 < 9
unfolding size
size_leaf = omega arith

two_plugged : Shape two (plug (f8 ∷ []) (node red leaf 12 leaf)) 8 0
unfolding plug
two_plugged = two-Shape

two_plugged_once : (y : ℕ) → times y (plug (f8 ∷ []) (node red leaf 12 leaf)) ≤ 1
unfolding plug
two_plugged_once = two_once

two_plugged-IsTree : IsTree two (plug (f8 ∷ []) (node red leaf 12 leaf))
unfolding plug
two_plugged-IsTree = two-IsTree

fresh_plugged : times 16 (plug (f8 ∷ []) (node red leaf 12 leaf)) ≡ 0
unfolding plug times
fresh_plugged = refl

rb_replace_node-IsTree_example :
    IsTree (rb_replace_node 12 16 two) (plug (f8 ∷ []) (node red leaf 16 leaf))
rb_replace_node-IsTree_example =
    rb_replace_node-IsTree two (f8 ∷ []) red leaf leaf 12 16 two_plugged-IsTree IsNode-16
      fresh_plugged

size_two_more : size two_tree < 3
unfolding size
size_two_more = omega arith

postorder_for_each_lem_example : postorder_for_each_entry_safe 2 3 two ≡ some (postorder two_tree)
postorder_for_each_lem_example =
    postorder_for_each_lem two two_tree 2 3 two-IsTree size_two size_two_more

-- Runs of the code: what a store is afterwards, by its root and what hangs there.
abbrev Top : Type 0
Top = ℕ × ℕ × ℕ × ℕ × ℕ × ℕ

abbrev top : Option Store → Top
top none = (0, 0, 0, 0, 0, 0)
top (some s) =
    let l = s.child left s.root in
    let r = s.child right s.root in
    (s.root, s.parent_color s.root, l, s.parent_color l, r, s.parent_color r)

inserted : top (rb_insert_color 3 16 three) ≡ (12, 1, 16, 12, 8, 12)
unfolding rb_insert_color __rb_insert insert_loop rb_link_node __rb_color insert_side insert_outer
    __rb_rotate_set_parents __rb_change_child __rb_parent blacken_child rb_set_parent_color
inserted = refl

-- A node 12 with children 16 and 8, all black.
abbrev pub full : Store
full = record {
  parent_color = λ a. if a == 12 then 1 else if a == 8 then 13 else if a == 16 then 13 else 0;
  child = λ d a. elim d [ left ↦ if a == 12 then 16 else 0 | right ↦ if a == 12 then 8 else 0 ];
  root = 12;
  leftmost = 16;
}

walked : rb_first 9 full ≡ some 16
unfolding rb_first go_down
walked = refl

onward : rb_next 9 16 full ≡ some 12
unfolding rb_next go_down go_up rb_empty_node __rb_parent
onward = refl

erased_leaf : top (rb_erase 9 16 full) ≡ (12, 1, 0, 0, 8, 12)
unfolding rb_erase __rb_erase_augmented erase_right_only __rb_color __rb_parent ____rb_erase_color
    erase_color_loop __rb_change_child erase_black_sibling rb_set_parent_color
erased_leaf = refl

erased_root : top (rb_erase 9 12 full) ≡ (8, 1, 16, 8, 0, 0)
unfolding rb_erase __rb_erase_augmented erase_both erase_both_end __rb_color __rb_change_child
    __rb_parent rb_set_parent ____rb_erase_color erase_color_loop erase_black_sibling
    rb_set_parent_color
erased_root = refl

replaced : top (some (rb_replace_node 12 4 full)) ≡ (4, 1, 16, 5, 8, 5)
unfolding rb_replace_node __rb_change_child __rb_parent adopt copy_node rb_set_parent __rb_color
replaced = refl

post : rb_first_postorder 9 full ≡ some 16
unfolding rb_first_postorder rb_left_deepest_node
post = refl

post_next : rb_next_postorder 9 16 full ≡ some 8
unfolding rb_next_postorder __rb_parent rb_left_deepest_node
post_next = refl
