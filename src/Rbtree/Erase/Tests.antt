-- ===== src/Rbtree/Erase/Tests.antt =====
-- The theorems on erasure and on cached leftmost nodes at concrete trees.
use kernel_porting.Prelude.{
  ℕ, ◌+◌, ◌≤◌, ◌<◌, ◌≡◌, refl, arith, [], ◌∷◌, ◌++◌, some, true, false, ◌≢◌,
}
use kernel_porting.Rbtree.{
  left, at_child, rb_link_node, rb_insert_color, rb_insert_color_cached, Store,
}
use kernel_porting.Rbtree.Shape.{black, Tree, leaf, node, inorder, times, plug}
use kernel_porting.Rbtree.Fix.Balance.{before, after}
use kernel_porting.Rbtree.Insert.{IsTree}
use kernel_porting.Rbtree.Insert.Cached.{rb_insert_color_cached_lem}
use kernel_porting.Rbtree.Walk.Ends.{size, head}
use kernel_porting.Rbtree.Tests.{
  full, two, hole, two-hole-IsTree, fresh, IsNode-8, IsNode-12, IsNode-16,
}
use kernel_porting.Rbtree.Erase.{rb_erase, rb_erase_cached}
use kernel_porting.Rbtree.Erase.Locate.{rb_erase_lem, insert_then_erase}
use kernel_porting.Rbtree.Erase.First.{rb_erase_cached_lem}

abbrev full_tree : Tree
full_tree = node black (node black leaf 16 leaf) 12 (node black leaf 8 leaf)

full_once : (y : ℕ) → times y full_tree ≤ 1
unfolding times
full_once y = ground arith

full-IsTree : IsTree full full_tree
full-IsTree = record {
  shape = (
    refl,
    IsNode-12,
    refl,
    (refl, IsNode-16, refl, refl, refl),
    (refl, IsNode-8, refl, refl, refl),
  );
  once = full_once;
  red_black = (refl, (2, (1, refl, (0, refl, refl, refl), (0, refl, refl, refl))));
}

full_order : inorder full_tree ≡ 16 ∷ 12 ∷ 8 ∷ []
unfolding inorder
full_order = refl

full_size : size full_tree < 4
unfolding size
full_size = omega arith

full_first : full.leftmost ≡ head (inorder full_tree)
unfolding inorder
full_first = refl

hole-size : size (plug hole leaf) + 1 < 4
unfolding size plug
hole-size = omega arith

rb_erase_lem_example :
    (s' : Store) × (t' : Tree) × (rb_erase 4 12 full ≡ some s')
    × IsTree s' t'
    × (inorder t' ≡ 16 ∷ 8 ∷ [])
rb_erase_lem_example =
    rb_erase_lem full full_tree (16 ∷ []) (8 ∷ []) 12 4 full-IsTree full_order full_size

rb_erase_cached_lem_example :
    (s' : Store) × (t' : Tree) × (rb_erase_cached 4 16 full ≡ some s')
    × IsTree s' t'
    × (inorder t' ≡ 12 ∷ 8 ∷ [])
    × (s'.leftmost ≡ head (inorder t'))
rb_erase_cached_lem_example =
    rb_erase_cached_lem full full_tree [] (12 ∷ 8 ∷ []) 16 4 full-IsTree full_first full_order
      full_size

insert_then_erase_example :
    (s1 s2 : Store) × (t : Tree) × (rb_insert_color 4 16 (rb_link_node 16 12 (at_child left 12) two)
      ≡ some s1)
    × (rb_erase 4 16 s1 ≡ some s2)
    × IsTree s2 t
    × (inorder t ≡ inorder (plug hole leaf))
insert_then_erase_example =
    insert_then_erase two hole 16 4 two-hole-IsTree IsNode-16 fresh hole-size

two_first : two.leftmost ≡ head (inorder (plug hole leaf))
unfolding plug inorder
two_first = refl

hole_first : true ≡ true → before hole ≡ []
unfolding before
hole_first e = refl

not_later : true ≡ false → before hole ≢ []
not_later e = absurd (ground arith)

rb_insert_color_cached_lem_example :
    (s' : Store) × (t : Tree) × (rb_insert_color_cached 3 16 true
        (rb_link_node 16 12 (at_child left 12) two)
      ≡ some s')
    × IsTree s' t
    × (inorder t ≡ before hole ++ 16 ∷ after hole)
    × (s'.leftmost ≡ head (inorder t))
rb_insert_color_cached_lem_example =
    rb_insert_color_cached_lem two hole 16 3 true two-hole-IsTree two_first IsNode-16 fresh
      (omega arith) hole_first not_later
