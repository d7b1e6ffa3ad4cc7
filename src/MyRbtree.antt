-- ===== src/MyRbtree.antt =====
-- myrbtree.h: insertion into and search in a red-black tree whose nodes carry keys. `key` stands for the
-- key field of the struct around a node, and `cmp` for the comparison that the macros are given, of
-- whose result they only read the sign.
pub mod Sorted
pub mod Descend
pub mod Find
pub mod Visit
pub mod Sort
pub mod Tests
use kernel_porting.Prelude.{
  ℕ, zero, suc, Bool, true, false, ◌==◌, if◌then◌else◌, Option, none, some, List, [], ◌∷◌, ◌≡◌,
}
use kernel_porting.Rbtree.{
  Side, left, right, Store, Link, at_root, at_child, rb_link_node, rb_insert_color,
}

-- The sign of what `cmp` returns.
pub data Sign : Type 0 where
  negative naught positive : Sign

abbrev pub is_negative : Sign → Bool
is_negative negative = true
is_negative naught = false
is_negative positive = false

abbrev pub is_naught : Sign → Bool
is_naught negative = false
is_naught naught = true
is_naught positive = false

abbrev pub opposite : Sign → Sign
opposite negative = positive
opposite naught = naught
opposite positive = negative

-- What a comparison has to promise: it is a total order up to equality.
pub record IsOrder {K : Type 0} (cmp : K → K → Sign) : Type 0 where
  pub turned : (a b : K) → cmp b a ≡ opposite (cmp a b)
  pub through :
      (a b c : K)
      → is_negative (cmp a b) ≡ false
      → is_negative (cmp b c) ≡ false
      → is_negative (cmp a c) ≡ false

-- What `MY_RB_TREE_INSERT` does after its loop.
abbrev pub link_and_color : (fuel i : ℕ) → Store → Option (ℕ × Link) → Option Store
link_and_color fuel i s none = none
link_and_color fuel i s (some (parent, link)) =
    rb_insert_color fuel i (rb_link_node i parent link s)

module _ {K : Type 0} (key : ℕ → K) (cmp : K → K → Sign) where
  -- The loop of `MY_RB_TREE_INSERT`: `p` is what `*__p__` holds, and `link` is `__p__`. `none` means
  -- that the fuel ran out.
  unfoldable pub find_link : (fuel i p parent : ℕ) → Link → Store → Option (ℕ × Link)
  find_link zero i p parent link s = none
  find_link (suc fuel) i p parent link s =
      let d = if is_negative (cmp (key p) (key i)) then left else right in
      let rest = find_link fuel i (s.child d p) p (at_child d p) s in
      if p == 0 then some (parent, link) else rest

  -- `MY_RB_TREE_INSERT`
  unfoldable pub my_rb_tree_insert : (fuel i : ℕ) → Store → Option Store
  my_rb_tree_insert fuel i s = link_and_color fuel i s (find_link fuel i s.root 0 at_root s)

  -- The loop of `MY_RB_TREE_FIND`: what `*__p__` holds when it ends.
  unfoldable pub find_node : (fuel : ℕ) → K → (p : ℕ) → Store → Option ℕ
  find_node zero k p s = none
  find_node (suc fuel) k p s =
      let c = cmp (key p) k in
      let rest = find_node fuel k (s.child (if is_negative c then left else right) p) s in
      if p == 0 then some p else if is_naught c then some p else rest

  -- `MY_RB_TREE_FIND`: 0 is the code's -1, and another value is the node found.
  unfoldable pub my_rb_tree_find : (fuel : ℕ) → K → Store → Option ℕ
  my_rb_tree_find fuel k s = find_node fuel k s.root s
