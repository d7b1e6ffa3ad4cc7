-- ===== src/Rbtree/Walk.antt =====
-- rbtree.c: walking over a tree, in order from both ends and in postorder, and replacing a node. A walk
-- and its mirror image are one definition with the side as a parameter. Loops that follow pointers run on
-- fuel, and `none` means that it ran out.
pub mod Ends
pub mod Next
pub mod Replace
pub mod Loop
pub mod Postorder
use kernel_porting.Prelude.{
  ℕ, zero, suc, Bool, true, false, not, ◌&&◌, ◌==◌, if◌then◌else◌, Option, none, some,
}
use kernel_porting.Rbtree.{
  Side, left, right, other, Store, put_parent_color, put_child, rb_parent, reparent_child,
  __rb_change_child, rb_empty_node,
}

-- `while (n->rb_left) n = n->rb_left;` and its mirror image
unfoldable pub go_down : (fuel : ℕ) → Side → (n : ℕ) → Store → Option ℕ
go_down zero d n s = none
go_down (suc fuel) d n s =
    let rest = go_down fuel d (s.child d n) s in if s.child d n == 0 then some n else rest

unfoldable pub rb_first : (fuel : ℕ) → Store → Option ℕ
rb_first fuel s = if s.root == 0 then some 0 else go_down fuel left s.root s

unfoldable pub rb_last : (fuel : ℕ) → Store → Option ℕ
rb_last fuel s = if s.root == 0 then some 0 else go_down fuel right s.root s

-- `while ((parent = rb_parent(node)) && node == parent->rb_right) node = parent;` and its mirror image
unfoldable pub go_up : (fuel : ℕ) → Side → (node : ℕ) → Store → Option ℕ
go_up zero d node s = none
go_up (suc fuel) d node s =
    let parent = rb_parent node s in
    let rest = go_up fuel d parent s in
    if not (parent == 0) && (node == s.child d parent) then rest else some parent

unfoldable pub rb_next : (fuel node : ℕ) → Store → Option ℕ
rb_next fuel node s =
    if rb_empty_node node s
    then some 0
    else if not (s.child right node == 0)
    then go_down fuel left (s.child right node) s
    else go_up fuel right node s

unfoldable pub rb_prev : (fuel node : ℕ) → Store → Option ℕ
rb_prev fuel node s =
    if rb_empty_node node s
    then some 0
    else if not (s.child left node == 0)
    then go_down fuel right (s.child left node) s
    else go_up fuel left node s

-- `if (victim->rb_left) rb_set_parent(victim->rb_left, new);` and its mirror image
unfoldable pub adopt : Side → (victim new : ℕ) → Store → Store
adopt d victim new s = reparent_child (s.child d victim) new s

-- `*new = *victim;`
unfoldable pub copy_node : (victim new : ℕ) → Store → Store
copy_node victim new s =
    put_child left new (s.child left victim)
      (put_child right new (s.child right victim) (put_parent_color new (s.parent_color victim) s))

unfoldable pub rb_replace_node : (victim new : ℕ) → Store → Store
rb_replace_node victim new s =
    let parent = rb_parent victim s in
    let s = copy_node victim new s in
    let s = adopt left victim new s in
    let s = adopt right victim new s in __rb_change_child victim new parent s

unfoldable pub rb_left_deepest_node : (fuel node : ℕ) → Store → Option ℕ
rb_left_deepest_node zero node s = none
rb_left_deepest_node (suc fuel) node s =
    let at_left = rb_left_deepest_node fuel (s.child left node) s in
    let at_right = rb_left_deepest_node fuel (s.child right node) s in
    if not (s.child left node == 0)
    then at_left
    else if not (s.child right node == 0)
    then at_right
    else some node

unfoldable pub rb_next_postorder : (fuel node : ℕ) → Store → Option ℕ
rb_next_postorder fuel node s =
    let parent = rb_parent node s in
    if node == 0
    then some 0
    else if not (parent == 0) && (node == s.child left parent) && not (s.child right parent == 0)
    then rb_left_deepest_node fuel (s.child right parent) s
    else some parent

unfoldable pub rb_first_postorder : (fuel : ℕ) → Store → Option ℕ
rb_first_postorder fuel s = if s.root == 0 then some 0 else rb_left_deepest_node fuel s.root s
