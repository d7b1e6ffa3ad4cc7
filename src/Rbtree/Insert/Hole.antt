-- ===== src/Rbtree/Insert/Hole.antt =====
-- A hole of a whole tree: what is known around it, and what `rb_link_node` puts into it.
use mathlib.Core.Path.{subst}
use kernel_porting.Prelude.{ℕ, ◌+◌, ◌≤◌, ◌≡◌, ◌≢◌, ◌∙◌, refl, sym, inl, inr, arith, List, [], ◌∷◌}
use Prim.{tt}
use kernel_porting.Rbtree.{Side, left, right, other, Store, Link, at_root, at_child, rb_link_node}
use kernel_porting.Rbtree.Shape.{
  Color, red, black, bit_of, Tree, leaf, node, build, IsLink, IsNode, Shape, Frame, Around,
  times_around, plug, root_color, Shape-keep, Around-keep,
}
use kernel_porting.Rbtree.Rotate.{same_side, other_side}
use kernel_porting.Rbtree.Fix.{BlackAbove, IsMended, Color-cases, root_color-build}
use kernel_porting.Rbtree.Fix.Heights.{Balanced, BalancedAround, IsRedBlack}

-- The parent of the hole, and the pointer that it is.
abbrev pub parent_at : List Frame → ℕ
parent_at [] = 0
parent_at (f ∷ zs) = f.addr

abbrev pub link_at : List Frame → Link
link_at [] = at_root
link_at (f ∷ zs) = at_child f.side f.addr

pub Shape-unbuild :
    (s : Store) (d : Side) (c : Color) (a : ℕ) (near far : Tree) (p q : ℕ)
    → Shape s (build d c a near far) p q
    → (p ≡ a)
      × IsNode a
      × (s.parent_color a ≡ q + bit_of c)
      × Shape s near (s.child d a) a
      × Shape s far (s.child (other d) a) a
Shape-unbuild s left c a near far p q (e, is, pc, x, y) = (e, is, pc, x, y)
Shape-unbuild s right c a near far p q (e, is, pc, x, y) = (e, is, pc, y, x)

pub Around-IsLink : (s : Store) (zs : List Frame) (p q : ℕ) → Around s zs p q → IsLink q
Around-IsLink s [] p q (e, z) = subst IsLink (sym z) (refl, omega arith)
Around-IsLink s (f ∷ zs) p q (e, is, hole, sib, up, link, pc, rest) = subst IsLink (sym e) is.1

-- A whole tree, seen from a subtree.
pub Shape-unplug :
    (s : Store) (zs : List Frame) (t : Tree)
    → Shape s (plug zs t) s.root 0
    → (p : ℕ) × (q : ℕ) × Shape s t p q × Around s zs p q
unfolding plug
Shape-unplug s [] t is = (s.root, 0, is, (refl, refl))
Shape-unplug s (f ∷ zs) t is =
    let (p, q, at_p, around) = Shape-unplug s zs (build f.side f.color f.addr t f.sibling) is in
    let (e, is_node, pc, near, far) = Shape-unbuild s f.side f.color f.addr t f.sibling p q at_p in
    (
      s.child f.side f.addr,
      f.addr,
      near,
      (
        refl,
        is_node,
        refl,
        far,
        q,
        Around-IsLink s zs p q around,
        pc,
        subst (λ x. Around s zs x q) e around,
      ),
    )

pub Balanced-unbuild :
    (d : Side) (c : Color) (a : ℕ) (near far : Tree) (k : ℕ)
    → Balanced (build d c a near far) k
    → (h : ℕ) × (k ≡ h + bit_of c)
      × Balanced near h
      × Balanced far h
      × (c ≡ red → (root_color near ≡ black) × (root_color far ≡ black))
Balanced-unbuild left red a near far k (b, c, x, y) = (k, omega arith, x, y, λ e. (b, c))
Balanced-unbuild right red a near far k (b, c, x, y) = (k, omega arith, y, x, λ e. (c, b))
Balanced-unbuild left black a near far k (h, e, x, y) =
    (h, omega arith, x, y, λ z. absurd (ground arith))
Balanced-unbuild right black a near far k (h, e, x, y) =
    (h, omega arith, y, x, λ z. absurd (ground arith))

-- A whole red-black tree, seen from a subtree.
pub Balanced-unplug :
    (zs : List Frame) (t : Tree)
    → IsRedBlack (plug zs t)
    → IsMended zs
      × (h : ℕ) × BalancedAround zs h
      × Balanced t h
      × (root_color t ≡ red → BlackAbove zs)
unfolding plug
Balanced-unplug [] t (top, (h, is)) = (tt, h, tt, is, λ e. absurd (ground arith))
Balanced-unplug (f ∷ zs) t is =
    let (mended, k, around, at_k, above) =
      Balanced-unplug zs (build f.side f.color f.addr t f.sibling) is in
    let (h, e, near, far, blacks) = Balanced-unbuild f.side f.color f.addr t f.sibling k at_k in
    let top = root_color-build f.side f.color f.addr t f.sibling in
    (
      (λ red_f. (above (top ∙ red_f), (blacks red_f).1), mended),
      h,
      (far, subst (λ x. BalancedAround zs x) e around),
      near,
      λ red_t. elim (Color-cases f.color) [
        | inl red_f ↦ let z = (blacks red_f).0 in absurd (ground arith)
        | inr black_f ↦ black_f
      ],
    )

-- A new red node without children, linked into the hole.
pub rb_link_node-Around :
    (s : Store) (zs : List Frame) (n p q : ℕ)
    → IsNode n
    → times_around n zs ≡ 0
    → ((y : ℕ) → times_around y zs ≤ 1)
    → Around s zs 0 q
    → let s1 = rb_link_node n (parent_at zs) (link_at zs) s in
      (q ≡ parent_at zs)
      × (s1.parent_color n ≡ parent_at zs)
      × Shape s1 (node red leaf n leaf) n (parent_at zs)
      × Around s1 zs n (parent_at zs)
unfolding rb_link_node times_around
rb_link_node-Around s [] n p q is_n out off (e, z) =
    (z, ground arith, (refl, is_n, ground arith, ground arith, ground arith), (refl, refl))
rb_link_node-Around s (f ∷ zs) n p q is_n out off (e, is_node, hole, sib, up, link, pc, rest) =
    let s1 = rb_link_node n f.addr (at_child f.side f.addr) s in
    let apart : n ≢ f.addr = ground arith in
    let o = off f.addr in
    let words : (y : ℕ) → y ≢ n → s1.parent_color y ≡ s.parent_color y = λ y h. ground arith in
    let kids : (y : ℕ) (d : Side) → y ≢ n → y ≢ f.addr → s1.child d y ≡ s.child d y =
      λ y d h k. ground arith in
    let beside : s1.child (other f.side) f.addr ≡ s.child (other f.side) f.addr =
      ground (arith, other_side f.side) in
    (
      e,
      ground arith,
      (refl, is_n, ground arith, ground arith, ground arith),
      (
        refl,
        is_node,
        ground (arith, same_side f.side),
        Shape-keep s s1 f.sibling (s1.child (other f.side) f.addr) f.addr
            (λ y h. words y (ground arith)) (λ y d h. kids y d (ground arith) (ground arith))
            (subst (λ x. Shape s f.sibling x f.addr) (sym beside) sib),
        up,
        link,
        words f.addr (λ z. apart (sym z)) ∙ pc,
        Around-keep s s1 zs f.addr up refl (λ y h. words y (ground arith))
            (λ y d h. kids y d (ground arith) (ground arith)) rest,
      ),
    )
