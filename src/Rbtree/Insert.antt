-- ===== src/Rbtree/Insert.antt =====
-- `rb_link_node` and `rb_insert_color` on a whole tree: a red-black tree stays one.
pub mod Hole
pub mod Cached
use mathlib.Core.Path.{subst}
use kernel_porting.Prelude.{
  ℕ, zero, suc, ◌+◌, ◌≤◌, ◌<◌, ◌≡◌, ◌≢◌, ◌⊎◌, ◌∙◌, refl, sym, ap, inl, inr, arith, Bool, true,
  false, ◌==◌, if◌then◌else◌, List, [], ◌∷◌, ◌++◌, length, Option, none, some,
}
use kernel_porting.Rbtree.{
  Side, left, right, other, Store, rb_red_parent, rb_link_node, insert_loop, __rb_insert,
  rb_insert_color,
}
use kernel_porting.Rbtree.Shape.{
  Color, red, black, Tree, leaf, node, build, inorder, times, IsLink, IsNode, Shape, Frame, Around,
  times_around, plug, times-plug,
}
use kernel_porting.Rbtree.Fix.{fix, IsRed, IsMended}
use kernel_porting.Rbtree.Fix.Balance.{before, after, inorder-plug, inorder-fix}
use kernel_porting.Rbtree.Fix.Heights.{Balanced, BalancedAround, IsRedBlack, fix-IsRedBlack}
use kernel_porting.Rbtree.Fix.Refine.{insert_loop-fix}
use kernel_porting.Rbtree.Insert.Hole.{
  parent_at, link_at, Shape-unplug, Balanced-unplug, rb_link_node-Around,
}

-- The store holds the tree `t`: its links are those of `t`, no address stands twice, and it is red-black.
pub record IsTree (s : Store) (t : Tree) : Type 0 where
  pub shape : Shape s t s.root 0
  pub once : (y : ℕ) → times y t ≤ 1
  pub red_black : IsRedBlack t

-- How often an address stands in a list.
unfoldable pub count : ℕ → List ℕ → ℕ
count y [] = 0
count y (x ∷ xs) = (if y == x then 1 else 0) + count y xs

pub count-++ : (y : ℕ) (xs ys : List ℕ) → count y (xs ++ ys) ≡ count y xs + count y ys
unfolding count
count-++ y [] ys = omega arith
count-++ y (x ∷ xs) ys = omega (arith, count-++ y xs ys)

pub times-count : (y : ℕ) (t : Tree) → times y t ≡ count y (inorder t)
unfolding times inorder count
times-count y leaf = refl
times-count y (node c l a r) =
    omega (arith, count-++ y (inorder l) (a ∷ inorder r), times-count y l, times-count y r)

-- In a store that holds a red-black tree, for an aligned address that is not in the tree and
-- fuel of one round for each node above a hole and one more, `rb_link_node` into that hole and
-- `rb_insert_color` end, and the store then holds a red-black tree whose sequence is the old
-- one with the new node where the hole was.
pub rb_insert_color_lem :
    (s : Store) (zs : List Frame) (n fuel : ℕ)
    → IsTree s (plug zs leaf)
    → IsNode n
    → times n (plug zs leaf) ≡ 0
    → length zs < fuel
    → (s' : Store) × (t : Tree) × (rb_insert_color fuel n
          (rb_link_node n (parent_at zs) (link_at zs) s)
        ≡ some s')
      × IsTree s' t
      × (inorder t ≡ before zs ++ n ∷ after zs)
unfolding rb_insert_color __rb_insert times inorder
rb_insert_color_lem s zs n fuel is is_n fresh enough =
    let (p, q, at_p, around) = Shape-unplug s zs leaf is.shape in
    let (mended, h, balanced, at_h, above) = Balanced-unplug zs leaf is.red_black in
    let s1 = rb_link_node n (parent_at zs) (link_at zs) s in
    let new = node red leaf n leaf in
    let off : (y : ℕ) → times_around y zs ≤ 1 =
      λ y. let k = times-plug y zs leaf in let o = is.once y in omega arith in
    let out : times_around n zs ≡ 0 = (let k = times-plug n zs leaf in omega arith) in
    let (q_at, word, at_n, around1) =
      rb_link_node-Around s zs n p q is_n out off (subst (λ x. Around s zs x q) at_p around) in
    let once : (y : ℕ) → times y new + times_around y zs ≤ 1 = λ y. let o = off y in ground arith in
    let is_red : IsRed new n = (refl, refl, refl, refl) in
    let (s', run, shape) =
      insert_loop-fix fuel s1 new n (parent_at zs) zs enough is_red mended at_n around1 once in
    let order = inorder-fix zs new n is_red ∙ inorder-plug zs new in
    (
      s',
      fix new zs,
      ap (λ x. insert_loop fuel n x s1) word ∙ run,
      record {
        shape = shape;
        once = λ y.
            let k =
              times-count y (fix new zs)
              ∙ ap (count y) (inorder-fix zs new n is_red)
              ∙ sym (times-count y (plug zs new)) in
            let m = times-plug y zs new in let o = once y in omega arith;
        red_black = fix-IsRedBlack zs new n h is_red (refl, refl, at_h, at_h) balanced mended;
      },
      order,
    )
