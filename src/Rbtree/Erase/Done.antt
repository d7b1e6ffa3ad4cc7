-- ===== src/Rbtree/Erase/Done.antt =====
-- What remains when `__rb_erase_augmented` has taken a node out: a hole without a tree, or a single red
-- node that turned black.
use mathlib.Core.Path.{subst}
use Prim.{tt}
use kernel_porting.Prelude.{
  ℕ, ◌+◌, ◌≤◌, ◌<◌, ◌≡◌, ◌∙◌, refl, sym, ap, arith, false, not, ◌==◌, if◌then◌else◌, List, [], ◌∷◌,
  length, some,
}
use kernel_porting.Rbtree.{Side, Store, put_parent_color, __rb_color, __rb_is_black}
use kernel_porting.Rbtree.Shape.{
  Color, red, black, bit_of, Tree, leaf, node, build, inorder, times, IsLink, Shape, Frame, Around,
  times_around, plug, Around-keep, root_color, color_of,
}
use kernel_porting.Rbtree.Fix.{IsMended}
use kernel_porting.Rbtree.Fix.Heights.{Balanced, BalancedAround, black_not_red}
use kernel_porting.Rbtree.Insert.Hole.{Balanced-unbuild}
use kernel_porting.Rbtree.Erase.{rebalance_from, ____rb_erase_color}
use kernel_porting.Rbtree.Erase.Recolor.{Leaves, finish}
use kernel_porting.Rbtree.Erase.Rebalance.{erase_color_loop-Ends}

-- A node with a child on one side only is black, and the child is red and has none.
pub data Lone : Color → Tree → ℕ → Type 0 where
  no_child : (c : Color) → Lone c leaf (bit_of c)
  red_child : (x : ℕ) → Lone black (node red leaf x leaf) 1

flat : (t : Tree) → Balanced t 0 → root_color t ≡ black → t ≡ leaf
flat leaf is e = refl
flat (node red l a r) is e = absurd (black_not_red red e refl)
flat (node black l a r) is e = absurd (omega (arith, is.1))

Lone-child :
    (c : Color) (t : Tree) → Balanced t 0 → (c ≡ red → root_color t ≡ black) → Lone c t (bit_of c)
Lone-child c leaf is blacks = no_child c
Lone-child red (node red l a r) is blacks = absurd (black_not_red red (blacks refl) refl)
Lone-child black (node red l a r) (b_l, b_r, at_l, at_r) blacks =
    rw (flat l at_l b_l, flat r at_r b_r) (red_child a)
Lone-child c (node black l a r) is blacks = absurd (omega (arith, is.1))

pub Lone-build :
    (d : Side) (c : Color) (a : ℕ) (t : Tree) (h : ℕ) → Balanced (build d c a leaf t) h → Lone c t h
Lone-build d c a t h is =
    let (k, e, low, at_t, blacks) = Balanced-unbuild d c a leaf t h is in
    let flat_k : h ≡ bit_of c = omega arith in
    subst (λ x. Lone c t x) (sym flat_k)
      (Lone-child c t (subst (λ x. Balanced t x) low at_t) (λ r. (blacks r).1))

black_word :
    (w b : ℕ) (c : Color) → IsLink b → w ≡ b + bit_of c → __rb_is_black w ≡ not (bit_of c == 0)
black_word w b c link e = ap (λ x. not (x == 0)) (ap __rb_color e ∙ color_of b c link)

-- The place of a red node is left empty, or that of a black node, and then the colours are mended.
pub hole-Leaves :
    (fuel : ℕ) (s : Store) (zs : List Frame) (q b w : ℕ) (c : Color)
    → Around s zs 0 q
    → ((y : ℕ) → times_around y zs ≤ 1)
    → BalancedAround zs (bit_of c)
    → IsMended zs
    → length zs < fuel
    → IsLink b
    → w ≡ b + bit_of c
    → Leaves
        (rebalance_from fuel
          (some (record { store = s; rebalance = if __rb_is_black w then q else 0 })))
        (inorder (plug zs leaf))
unfolding ____rb_erase_color times
hole-Leaves fuel s [] q b w c around once tall mended enough link e =
    let z : (if __rb_is_black w then q else 0) ≡ 0 = (let k = around.1 in ground arith) in
    rw z (
      finish s [] leaf leaf 0 0 q refl around refl tt tt (λ r. absurd (black_not_red black refl r))
        refl)
hole-Leaves fuel s (f ∷ zs) q b w red around once tall mended enough link e =
    let z = black_word w b red link e in
    rw z (
      finish s (f ∷ zs) leaf leaf 0 0 q refl around refl tall mended
        (λ r. absurd (black_not_red black refl r)) refl)
hole-Leaves fuel s (f ∷ zs) q b w black around once (tall_f, tall) mended enough link e =
    let z = black_word w b black link e in
    let ne : (q == 0) ≡ false = (let k = around.0 in let m = around.1.0 in ground arith) in
    rw (z, ne)
      (erase_color_loop-Ends fuel s leaf 0 q f zs 0 (omega arith) refl around
        (λ y. let o = once y in omega arith) refl tall_f tall mended)

-- Either the child turns black and takes the word `v`, or there is none.
pub settle-Leaves :
    (fuel : ℕ) (s : Store) (zs : List Frame) (t : Tree) (p q r b w v h : ℕ) (c : Color)
    → Lone c t h
    → Shape s t p r
    → Around s zs p q
    → ((y : ℕ) → times y t + times_around y zs ≤ 1)
    → BalancedAround zs h
    → IsMended zs
    → length zs < fuel
    → IsLink b
    → w ≡ b + bit_of c
    → (c ≡ black → v ≡ q + 1)
    → Leaves
        (rebalance_from fuel (
          some (
            if not (p == 0)
            then record { store = put_parent_color p v s; rebalance = 0 }
            else record { store = s; rebalance = if __rb_is_black w then q else 0 })))
        (inorder (plug zs t))
unfolding times inorder
settle-Leaves fuel s zs leaf p q r b w v h _ (no_child c) at_t around once tall mended enough link e
      new =
    rw at_t (
      hole-Leaves fuel s zs q b w c (subst (λ x. Around s zs x q) at_t around)
        (λ y. let o = once y in omega arith) tall mended enough link e)
settle-Leaves fuel s zs _ p q r b w v h _ (red_child x) (at_x, is_x, word, no_l, no_r) around once
      tall mended enough link e new =
    let ne : (p == 0) ≡ false = (let k = is_x.0 in ground arith) in
    let s' = put_parent_color p v s in
    rw ne (
      finish s' zs (node black leaf x leaf) (node red leaf x leaf) 1 p q
        (at_x, is_x, (let k = new refl in ground arith), no_l, no_r)
        (Around-keep s s' zs p q refl (λ y h. let o = once y in ground arith) (λ y d h. refl)
          around)
        (0, refl, refl, refl) tall mended (λ z. absurd (black_not_red black refl z)) refl)
