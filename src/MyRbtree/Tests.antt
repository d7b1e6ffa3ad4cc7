-- ===== src/MyRbtree/Tests.antt =====
-- The theorems about insertion, search and the loops over a tree, at a concrete tree.
use Prim.{tt}
use kernel_porting.Prelude.{
  ◌+◌, ℕ, ◌<◌, ◌≡◌, refl, arith, ltb, ◌==◌, if◌then◌else◌, List, ◌∷◌, ◌++◌, some,
}
use kernel_porting.Rbtree.{right, Store}
use kernel_porting.Rbtree.Shape.{Tree, inorder, times}
use kernel_porting.Rbtree.Insert.{IsTree}
use kernel_porting.Rbtree.Walk.Ends.{size, walk}
use kernel_porting.Rbtree.Tests.{two, two_tree, two-IsTree, IsNode-16}
use kernel_porting.MyRbtree.{
  Sign, negative, naught, positive, IsOrder, my_rb_tree_insert, my_rb_tree_find,
}
use kernel_porting.MyRbtree.Sorted.{IsSorted}
use kernel_porting.MyRbtree.Descend.{AtLeast, my_rb_tree_insert_lem}
use kernel_porting.MyRbtree.Find.{Answers, my_rb_tree_find_lem}
use kernel_porting.MyRbtree.Sort.{insert_then_visit}
use kernel_porting.MyRbtree.Visit.{for_each_entry_safe, for_each_entry_safe_lem}

-- A comparison of numbers, and a node's address as its key.
abbrev compare_keys : ℕ → ℕ → Sign
compare_keys a b = if ltb a b then negative else if a == b then naught else positive

abbrev key_of : ℕ → ℕ
key_of a = a

compare_keys-IsOrder : IsOrder compare_keys
compare_keys-IsOrder = record { turned = λ a b. ground arith; through = λ a b c h k. ground arith }

two-IsSorted : IsSorted (AtLeast key_of compare_keys) (inorder two_tree)
unfolding inorder
two-IsSorted = ((refl, tt), (tt, tt))

fresh : times 16 two_tree ≡ 0
unfolding times
fresh = refl

size_two : size two_tree < 3
unfolding size
size_two = omega arith

my_rb_tree_insert_lem_example :
    (s' : Store) × (t' : Tree) × (my_rb_tree_insert key_of compare_keys 3 16 two ≡ some s')
    × IsTree s' t'
    × IsSorted (AtLeast key_of compare_keys) (inorder t')
    × (xs : List ℕ) × (ys : List ℕ) × (inorder two_tree ≡ xs ++ ys)
    × (inorder t' ≡ xs ++ 16 ∷ ys)
my_rb_tree_insert_lem_example =
    my_rb_tree_insert_lem key_of compare_keys compare_keys-IsOrder two 16 two_tree 3 two-IsTree
      two-IsSorted IsNode-16 fresh size_two

my_rb_tree_find_lem_example :
    (a : ℕ) × (my_rb_tree_find key_of compare_keys 3 12 two ≡ some a)
    × Answers key_of compare_keys 12 two_tree a
my_rb_tree_find_lem_example =
    my_rb_tree_find_lem key_of compare_keys 12 compare_keys-IsOrder two two_tree 3 two-IsTree
      two-IsSorted size_two

for_each_entry_safe_lem_example : for_each_entry_safe 3 3 right two ≡ some (walk right two_tree)
for_each_entry_safe_lem_example =
    for_each_entry_safe_lem two right two_tree 3 3 two-IsTree size_two size_two

size_more : size two_tree + 1 < 4
unfolding size
size_more = omega arith

insert_then_visit_example :
    (s' : Store) × (ys : List ℕ) × (zs : List ℕ) × (my_rb_tree_insert key_of compare_keys 4 16 two
      ≡ some s')
    × (for_each_entry_safe 4 4 right two ≡ some (ys ++ zs))
    × (for_each_entry_safe 4 4 right s' ≡ some (ys ++ 16 ∷ zs))
    × IsSorted (λ x y. AtLeast key_of compare_keys y x) (ys ++ 16 ∷ zs)
insert_then_visit_example =
    insert_then_visit key_of compare_keys compare_keys-IsOrder two two_tree 16 4 two-IsTree
      two-IsSorted IsNode-16 fresh size_more
