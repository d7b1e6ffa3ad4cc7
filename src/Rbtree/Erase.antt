-- ===== src/Rbtree/Erase.antt =====
-- `__rb_erase_augmented` with the callbacks that do nothing, `____rb_erase_color`, `rb_erase` and
-- `rb_erase_cached`.
pub mod Turn
pub mod Recolor
pub mod Loop
pub mod Rebalance
pub mod Span
pub mod Descend
pub mod Splice
pub mod Done
pub mod Both
pub mod Far
pub mod Order
pub mod Whole
pub mod Single
pub mod Remove
pub mod Locate
pub mod Cached
pub mod First
pub mod Tests
use kernel_porting.Prelude.{
  ℕ, zero, suc, Bool, true, false, not, ◌&&◌, ◌||◌, ◌==◌, if◌then◌else◌, Option, none, some,
}
use kernel_porting.Rbtree.{
  Side, left, right, other, Store, put_parent_color, put_child, __rb_parent, __rb_is_black,
  rb_parent, rb_is_red, rb_is_black, rb_set_parent, rb_set_parent_color, rb_set_black,
  __rb_change_child, __rb_rotate_set_parents, blacken_child, reparent_child, rb_red, rb_black,
}
use kernel_porting.Rbtree.Walk.{rb_next}

-- What `__rb_erase_augmented` leaves: the store, and the node to rebalance from.
pub record Erased : Type 0 where
  pub store : Store
  pub rebalance : ℕ

-- The node has no left child.
unfoldable pub erase_right_only : (node : ℕ) → Store → Erased
erase_right_only node s =
    let child = s.child right node in
    let pc = s.parent_color node in
    let parent = __rb_parent pc in
    let s = __rb_change_child node child parent s in
    if not (child == 0)
    then record { store = put_parent_color child pc s; rebalance = 0 }
    else record { store = s; rebalance = if __rb_is_black pc then parent else 0 }

-- The node has a left child only.
unfoldable pub erase_left_only : (node : ℕ) → Store → Erased
erase_left_only node s =
    let tmp = s.child left node in
    let pc = s.parent_color node in
    let s = put_parent_color tmp pc s in
    record { store = __rb_change_child node tmp (__rb_parent pc) s; rebalance = 0 }

-- `do { parent = successor; successor = tmp; tmp = tmp->rb_left; } while (tmp);`
unfoldable pub find_successor : (fuel successor tmp : ℕ) → Store → Option (ℕ × ℕ)
find_successor zero successor tmp s = none
find_successor (suc fuel) successor tmp s =
    let rest = find_successor fuel tmp (s.child left tmp) s in
    if s.child left tmp == 0 then some (successor, tmp) else rest

-- What both cases with two children share: `successor` takes the node's place.
unfoldable pub erase_both_end : (node successor parent child2 : ℕ) → Store → Erased
erase_both_end node successor parent child2 s =
    let tmp = s.child left node in
    let s = put_child left successor tmp s in
    let s = rb_set_parent tmp successor s in
    let pc = s.parent_color node in
    let s = __rb_change_child node successor (__rb_parent pc) s in
    let pc2 = s.parent_color successor in
    let s = put_parent_color successor pc s in
    if not (child2 == 0)
    then record { store = rb_set_parent_color child2 parent rb_black s; rebalance = 0 }
    else record { store = s; rebalance = if __rb_is_black pc2 then parent else 0 }

abbrev pub erase_far : (node child : ℕ) → Store → Option (ℕ × ℕ) → Option Erased
erase_far node child s none = none
erase_far node child s (some (parent, successor)) =
    let child2 = s.child right successor in
    let s = put_child left parent child2 s in
    let s = put_child right successor child s in
    let s = rb_set_parent child successor s in some (erase_both_end node successor parent child2 s)

-- The node has two children, and its successor is its right child or stands further down.
unfoldable pub erase_both : (fuel node : ℕ) → Store → Option Erased
erase_both fuel node s =
    let child = s.child right node in
    let tmp = s.child left child in
    if tmp == 0
    then some (erase_both_end node child child (s.child right child) s)
    else erase_far node child s (find_successor fuel child tmp s)

abbrev pub put_leftmost : Store → Option ℕ → Option Store
put_leftmost s none = none
put_leftmost s (some n) = some (record s { leftmost = n })

abbrev pub erase_cases : (fuel node : ℕ) → Option Store → Option Erased
erase_cases fuel node none = none
erase_cases fuel node (some s) =
    if s.child left node == 0
    then some (erase_right_only node s)
    else if s.child right node == 0
    then some (erase_left_only node s)
    else erase_both fuel node s

-- `cached` says whether a pointer to the leftmost node is given.
unfoldable pub __rb_erase_augmented : (fuel node : ℕ) → (cached : Bool) → Store → Option Erased
__rb_erase_augmented fuel node cached s =
    if cached && (node == s.leftmost)
    then erase_cases fuel node (put_leftmost s (rb_next fuel node s))
    else erase_cases fuel node (some s)

-- `____rb_erase_color`, for the node on side `d` of its parent. Case 1: the sibling is red.
unfoldable pub erase_red_sibling : Side → (parent sibling : ℕ) → Store → Store
erase_red_sibling d parent sibling s =
    let tmp1 = s.child d sibling in
    let s = put_child (other d) parent tmp1 s in
    let s = put_child d sibling parent s in
    let s = rb_set_parent_color tmp1 parent rb_black s in
    __rb_rotate_set_parents parent sibling rb_red s

-- `!tmp || rb_is_black(tmp)`
abbrev pub none_or_black : (tmp : ℕ) → Store → Bool
none_or_black tmp s = (tmp == 0) || rb_is_black tmp s

-- Case 3: the near child of the sibling is red. It becomes the sibling.
unfoldable pub erase_near_red : Side → (parent sibling tmp2 : ℕ) → Store → Store
erase_near_red d parent sibling tmp2 s =
    let tmp1 = s.child (other d) tmp2 in
    let s = put_child d sibling tmp1 s in
    let s = put_child (other d) tmp2 sibling s in
    let s = put_child (other d) parent tmp2 s in blacken_child tmp1 sibling s

-- Case 4: the far child `tmp1` of the sibling is red.
unfoldable pub erase_far_red : Side → (parent sibling tmp1 : ℕ) → Store → Store
erase_far_red d parent sibling tmp1 s =
    let tmp2 = s.child d sibling in
    let s = put_child (other d) parent tmp2 s in
    let s = put_child d sibling parent s in
    let s = rb_set_parent_color tmp1 sibling rb_black s in
    let s = reparent_child tmp2 parent s in __rb_rotate_set_parents parent sibling rb_black s

-- The sibling, when it is black. `rest` is the next round of the loop, after the flip of case 2.
unfoldable pub erase_black_sibling :
    Side → (parent sibling : ℕ) → Store → (rest : Store → Option Store) → Option Store
erase_black_sibling d parent sibling s rest =
    let tmp1 = s.child (other d) sibling in
    let tmp2 = s.child d sibling in
    let flipped = rb_set_parent_color sibling parent rb_red s in
    if none_or_black tmp1 s
    then if none_or_black tmp2 s
      then if rb_is_red parent flipped
        then some (rb_set_black parent flipped)
        else if rb_parent parent flipped == 0
        then some flipped
        else rest flipped
      else some (erase_far_red d parent tmp2 sibling (erase_near_red d parent sibling tmp2 s))
    else some (erase_far_red d parent sibling tmp1 s)

-- The loop, each round with the node and its parent.
unfoldable pub erase_color_loop : (fuel node parent : ℕ) → Store → Option Store
erase_color_loop zero node parent s = none
erase_color_loop (suc fuel) node parent s =
    let d = if not (node == s.child right parent) then left else right in
    let sibling = s.child (other d) parent in
    let rest : Store → Option Store = λ s'. erase_color_loop fuel parent (rb_parent parent s') s' in
    if rb_is_red sibling s
    then erase_black_sibling d parent (s.child d sibling) (erase_red_sibling d parent sibling s)
        rest
    else erase_black_sibling d parent sibling s rest

unfoldable pub ____rb_erase_color : (fuel parent : ℕ) → Store → Option Store
____rb_erase_color fuel parent s = erase_color_loop fuel 0 parent s

abbrev pub rebalance_from : (fuel : ℕ) → Option Erased → Option Store
rebalance_from fuel none = none
rebalance_from fuel (some e) =
    if e.rebalance == 0 then some e.store else ____rb_erase_color fuel e.rebalance e.store

unfoldable pub rb_erase : (fuel node : ℕ) → Store → Option Store
rb_erase fuel node s = rebalance_from fuel (__rb_erase_augmented fuel node false s)

unfoldable pub rb_erase_cached : (fuel node : ℕ) → Store → Option Store
rb_erase_cached fuel node s = rebalance_from fuel (__rb_erase_augmented fuel node true s)
