-- ===== src/Rbtree.antt =====
-- rbtree.h, rbtree_augmented.h and rbtree.c: red-black trees linked by addresses. A node is known by
-- its address, NULL is 0, and one word of a node holds its parent's address and its colour. The
-- callbacks of augmented trees are the dummies of rbtree.c, which do nothing. The branches for the left
-- and for the right side mirror each other, and are one definition with the side as a parameter.
pub mod Shape
pub mod Rotate
pub mod Step
pub mod Adopt
pub mod Fix
pub mod Insert
pub mod Walk
pub mod Erase
pub mod Tests
use kernel_porting.Prelude.{
  ℕ, zero, suc, ◌+◌, ◌*◌, ◌^◌, Bool, true, false, not, ◌&&◌, bit_and, bit_or, ◌==◌, if◌then◌else◌,
  Option, none, some,
}
use kernel_porting.Word.{lnot}

-- `rb_left` or `rb_right`
pub data Side : Type 0 where
  left right : Side

abbrev pub other : Side → Side
other left = right
other right = left

abbrev pub side_eq : Side → Side → Bool
side_eq left left = true
side_eq right right = true
side_eq _ _ = false

-- The fields of all nodes, the root of the tree, and `rb_leftmost` of a tree that caches it.
pub record Store : Type 0 where
  pub parent_color : ℕ → ℕ
  pub child : Side → ℕ → ℕ
  pub root : ℕ
  pub leftmost : ℕ

abbrev pub put_parent_color : ℕ → ℕ → Store → Store
put_parent_color p v s = record s { parent_color = λ a. if a == p then v else s.parent_color a }

abbrev pub put_child : Side → ℕ → ℕ → Store → Store
put_child d p v s = record s { child = λ e a. if side_eq e d && (a == p) then v else s.child e a }

abbrev pub put_root : ℕ → Store → Store
put_root v s = record s { root = v }

abbrev pub rb_red : ℕ
rb_red = 0

abbrev pub rb_black : ℕ
rb_black = 1

-- `__rb_parent`, `__rb_color`, `__rb_is_black` and `__rb_is_red`
unfoldable pub __rb_parent : ℕ → ℕ
__rb_parent pc = bit_and pc (lnot 3)

unfoldable pub __rb_color : ℕ → ℕ
__rb_color pc = bit_and pc 1

abbrev pub __rb_is_black : ℕ → Bool
__rb_is_black pc = not (__rb_color pc == 0)

abbrev pub __rb_is_red : ℕ → Bool
__rb_is_red pc = __rb_color pc == 0

abbrev pub rb_parent : ℕ → Store → ℕ
rb_parent r s = __rb_parent (s.parent_color r)

abbrev pub rb_is_red : ℕ → Store → Bool
rb_is_red rb s = __rb_is_red (s.parent_color rb)

abbrev pub rb_is_black : ℕ → Store → Bool
rb_is_black rb s = __rb_is_black (s.parent_color rb)

abbrev pub rb_red_parent : ℕ → Store → ℕ
rb_red_parent red s = s.parent_color red

unfoldable pub rb_set_parent : (rb p : ℕ) → Store → Store
rb_set_parent rb p s = put_parent_color rb (bit_or (__rb_color (s.parent_color rb)) p) s

unfoldable pub rb_set_parent_color : (rb p color : ℕ) → Store → Store
rb_set_parent_color rb p color s = put_parent_color rb (bit_or p color) s

unfoldable pub rb_set_black : ℕ → Store → Store
rb_set_black rb s = put_parent_color rb (bit_or (s.parent_color rb) rb_black) s

unfoldable pub __rb_change_child : (old new parent : ℕ) → Store → Store
__rb_change_child old new parent s =
    if parent == 0
    then put_root new s
    else if s.child left parent == old
    then put_child left parent new s
    else put_child right parent new s

unfoldable pub __rb_rotate_set_parents : (old new color : ℕ) → Store → Store
__rb_rotate_set_parents old new color s =
    let parent = rb_parent old s in
    let s = put_parent_color new (s.parent_color old) s in
    let s = rb_set_parent_color old new color s in __rb_change_child old new parent s

-- `RB_EMPTY_NODE` and `RB_CLEAR_NODE`
unfoldable pub rb_empty_node : ℕ → Store → Bool
rb_empty_node node s = s.parent_color node == node

unfoldable pub rb_clear_node : ℕ → Store → Store
rb_clear_node node s = put_parent_color node node s

-- Where `rb_link` points to: the root, or a child field of a node.
pub data Link : Type 0 where
  at_root : Link
  at_child : Side → ℕ → Link

abbrev pub put_link : Link → ℕ → Store → Store
put_link at_root v s = put_root v s
put_link (at_child d p) v s = put_child d p v s

unfoldable pub rb_link_node : (node parent : ℕ) → Link → Store → Store
rb_link_node node parent link s =
    let s = put_parent_color node parent s in
    let s = put_child right node 0 s in let s = put_child left node 0 s in put_link link node s

-- `if (tmp) rb_set_parent_color(tmp, parent, RB_BLACK);`
unfoldable pub blacken_child : (tmp parent : ℕ) → Store → Store
blacken_child tmp parent s = if tmp == 0 then s else rb_set_parent_color tmp parent rb_black s

-- `if (tmp) rb_set_parent(tmp, parent);`
abbrev pub reparent_child : (tmp parent : ℕ) → Store → Store
reparent_child tmp parent s = if tmp == 0 then s else rb_set_parent tmp parent s

-- The loop of `__rb_insert`, Case 1: the uncle is red.
unfoldable pub insert_flip : (parent gparent uncle : ℕ) → Store → Store
insert_flip parent gparent uncle s =
    let s = rb_set_parent_color uncle gparent rb_black s in
    let s = rb_set_parent_color parent gparent rb_black s in
    rb_set_parent_color gparent (rb_parent gparent s) rb_red s

-- Case 2: the node is the child of its parent on the side away from `d`.
unfoldable pub insert_inner : Side → (node parent : ℕ) → Store → Store
insert_inner d node parent s =
    let tmp = s.child d node in
    let s = put_child (other d) parent tmp s in
    let s = put_child d node parent s in
    let s = blacken_child tmp parent s in rb_set_parent_color parent node rb_red s

-- Case 3: it is the child on side `d`.
unfoldable pub insert_outer : Side → (parent gparent tmp : ℕ) → Store → Store
insert_outer d parent gparent tmp s =
    let s = put_child d gparent tmp s in
    let s = put_child (other d) parent gparent s in
    let s = blacken_child tmp gparent s in __rb_rotate_set_parents gparent parent rb_red s

-- Which branch is taken: `parent` is the left child of `gparent`, or the right.
unfoldable pub insert_side : (parent gparent : ℕ) → Store → Side
insert_side parent gparent s = if not (parent == s.child right gparent) then left else right

-- Each round of the loop. `none` means that the fuel ran out.
unfoldable pub insert_loop : (fuel node parent : ℕ) → Store → Option Store
insert_loop zero node parent s = none
insert_loop (suc fuel) node parent s =
    let gparent = rb_red_parent parent s in
    let d = insert_side parent gparent s in
    let uncle = s.child (other d) gparent in
    let flipped = insert_flip parent gparent uncle s in
    let rest = insert_loop fuel gparent (rb_parent gparent flipped) flipped in
    let turned = insert_inner d node parent s in
    if parent == 0
    then some (rb_set_parent_color node 0 rb_black s)
    else if rb_is_black parent s
    then some s
    else if not (uncle == 0) && rb_is_red uncle s
    then rest
    else if node == s.child (other d) parent
    then some (insert_outer d node gparent (turned.child (other d) node) turned)
    else some (insert_outer d parent gparent (s.child (other d) parent) s)

-- `__rb_insert` with `newleft` and the cached leftmost node.
unfoldable pub __rb_insert : (fuel node : ℕ) → (newleft : Bool) → Store → Option Store
__rb_insert fuel node newleft s =
    let s = if newleft then record s { leftmost = node } else s in
    insert_loop fuel node (rb_red_parent node s) s

unfoldable pub rb_insert_color : (fuel node : ℕ) → Store → Option Store
rb_insert_color fuel node s = __rb_insert fuel node false s

unfoldable pub rb_insert_color_cached : (fuel node : ℕ) → (leftmost : Bool) → Store → Option Store
rb_insert_color_cached fuel node leftmost s = __rb_insert fuel node leftmost s
