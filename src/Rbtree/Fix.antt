-- ===== src/Rbtree/Fix.antt =====
-- What the loop of `__rb_insert` does to the abstract tree, and that the loop does it.
pub mod Balance
pub mod Heights
pub mod Mend
pub mod Refine
use mathlib.Core.Path.{subst}
use kernel_porting.Prelude.{
  ℕ, zero, suc, ◌+◌, ◌-◌, ◌*◌, ◌/◌, ◌%◌, ◌^◌, ◌≤◌, ◌<◌, ◌≡◌, ◌≢◌, ◌⊎◌, ◌∙◌, refl, sym, ap, inl, inr,
  arith, Bool, true, false, not, ◌&&◌, ◌||◌, bit_and, bit_or, ◌==◌, ==_iff, if◌then◌else◌, List, [],
  ◌∷◌, ◌++◌, Bool-cases, length, Option, none, some,
}
use kernel_porting.Rbtree.{
  Side, left, right, other, side_eq, Store, put_parent_color, __rb_parent, __rb_color, rb_parent,
  rb_is_red, rb_is_black, rb_red_parent, rb_set_parent_color, insert_flip, insert_inner,
  insert_outer, insert_side, insert_loop, rb_red, rb_black,
}
use kernel_porting.Rbtree.Shape.{
  Color, red, black, bit_of, Tree, leaf, node, build, times, IsLink, IsNode, Shape, Frame, Around,
  times_around, plug, root_color, or_color, parent_of, color_of, Shape-keep, Around-keep,
  root_times, times-build, root_apart, Shape-plug, Shape-reparent,
}
use kernel_porting.Rbtree.Rotate.{same_side, other_side, this_side, insert_outer-Shape}
use kernel_porting.Rbtree.Step.{insert_flip-Shape, IsInner, insert_inner-IsInner}

abbrev pub paint : Color → Tree → Tree
paint c leaf = leaf
paint c (node b l a r) = node c l a r

-- The subtree of the root on one side, and the root itself.
abbrev pub part : Side → Tree → Tree
part d leaf = leaf
part left (node c l a r) = l
part right (node c l a r) = r

abbrev pub label : Tree → ℕ
label leaf = 0
label (node c l a r) = a

-- The subtree that the rotations make of the tree `t`, its red parent and its grandparent.
abbrev pub rotated : Tree → (f g : Frame) → Tree
rotated t f g =
    if side_eq f.side g.side
    then build g.side black f.addr t (build g.side red g.addr f.sibling g.sibling)
    else build g.side black (label t) (build g.side red f.addr f.sibling (part g.side t))
        (build g.side red g.addr (part (other g.side) t) g.sibling)

-- The whole tree, after a red node `t` was put in the hole and the colours mended.
unfoldable pub fix : Tree → List Frame → Tree
fix t [] = paint black t
fix t (f ∷ []) = plug (f ∷ []) t
fix t (f ∷ g ∷ zs) =
    let flipped =
      fix (build g.side red g.addr (build f.side black f.addr t f.sibling) (paint black g.sibling))
        zs in
    elim f.color [
      | black ↦ plug (f ∷ g ∷ zs) t
      | red ↦ elim (root_color g.sibling) [ red ↦ flipped | black ↦ plug zs (rotated t f g) ]
    ]

-- A red node `n` with no red child.
abbrev pub IsRed : Tree → ℕ → Type 0
IsRed leaf n = ⊥
IsRed (node c l a r) n = (c ≡ red) × (a ≡ n) × (root_color l ≡ black) × (root_color r ≡ black)

abbrev pub BlackAbove : List Frame → Type 0
BlackAbove [] = ⊥
BlackAbove (f ∷ zs) = f.color ≡ black

-- Each red node around the hole has a black parent and no red child but the hole.
abbrev pub IsMended : List Frame → Type 0
IsMended [] = Unit
IsMended (f ∷ zs) = (f.color ≡ red → BlackAbove zs × (root_color f.sibling ≡ black)) × IsMended zs

abbrev pub is_red : Color → Bool
is_red red = true
is_red black = false

pub Color-cases : (c : Color) → (c ≡ red) ⊎ (c ≡ black)
Color-cases red = inl refl
Color-cases black = inr refl

pub Side-cases : (d e : Side) → (d ≡ e) ⊎ (d ≡ other e)
Side-cases left left = inl refl
Side-cases left right = inr refl
Side-cases right left = inr refl
Side-cases right right = inl refl

pub IsRed-build :
    (d : Side) (g : ℕ) (near far : Tree)
    → root_color near ≡ black
    → root_color far ≡ black
    → IsRed (build d red g near far) g
IsRed-build left g near far a b = (refl, refl, a, b)
IsRed-build right g near far a b = (refl, refl, b, a)

pub root_color-build :
    (d : Side) (c : Color) (a : ℕ) (near far : Tree) → root_color (build d c a near far) ≡ c
root_color-build left c a near far = refl
root_color-build right c a near far = refl

pub other-other : (d : Side) → other (other d) ≡ d
other-other left = refl
other-other right = refl

-- What the tests of the code find out.
pub red_test :
    (s : Store) (t : Tree) (p q : ℕ)
    → IsLink q
    → Shape s t p q
    → (not (p == 0) && rb_is_red p s) ≡ is_red (root_color t)
red_test s leaf p q link is = ground arith
red_test s (node red l a r) p q link (e, is_a, pc, at_l, at_r) =
    let c = ap __rb_color (ap s.parent_color e ∙ pc) ∙ color_of q red link in ground arith
red_test s (node black l a r) p q link (e, is_a, pc, at_l, at_r) =
    let c = ap __rb_color (ap s.parent_color e ∙ pc) ∙ color_of q black link in ground arith

pub side_test :
    (s : Store) (d : Side) (sib : Tree) (p g : ℕ)
    → p ≢ 0
    → s.child d g ≡ p
    → Shape s sib (s.child (other d) g) g
    → times p sib ≡ 0
    → insert_side p g s ≡ d
unfolding insert_side
side_test s left sib p g ne here is off =
    let apart : (p == s.child right g) ≡ false =
      (let a = root_apart s sib (s.child right g) g is p off in ground arith) in
    rw apart refl
side_test s right sib p g ne here is off =
    let same : (p == s.child right g) ≡ true = ground arith in rw same refl

-- One round of the loop, by the branch that it takes.
module _ (fuel n p g : ℕ) (d : Side) (s : Store) (ne : p ≢ 0) (word : s.parent_color p ≡ g)
    (side : insert_side p g s ≡ d) where
  pub loop_flip :
      __rb_color g ≡ 0
      → (u : ℕ) → s.child (other d) g ≡ u
      → (not (u == 0) && rb_is_red u s) ≡ true
      → insert_loop (suc fuel) n p s
        ≡ insert_loop fuel g (rb_parent g (insert_flip p g u s)) (insert_flip p g u s)
  unfolding insert_loop
  loop_flip red_p u at_u test =
      let a : (p == 0) ≡ false = ground arith in
      let b : (__rb_color g == 0) ≡ true = ground arith in rw (word, side, at_u, a, b, test) refl

  pub loop_inner :
      __rb_color g ≡ 0
      → (not (s.child (other d) g == 0) && rb_is_red (s.child (other d) g) s) ≡ false
      → n ≡ s.child (other d) p
      → insert_loop (suc fuel) n p s
        ≡ some
            (insert_outer d n g ((insert_inner d n p s).child (other d) n) (insert_inner d n p s))
  unfolding insert_loop
  loop_inner red_p test here =
      let a : (p == 0) ≡ false = ground arith in
      let b : (__rb_color g == 0) ≡ true = ground arith in
      let c : (n == s.child (other d) p) ≡ true = ground arith in
      rw (word, side, a, b, test, c) refl

  pub loop_outer :
      __rb_color g ≡ 0
      → (not (s.child (other d) g == 0) && rb_is_red (s.child (other d) g) s) ≡ false
      → n ≢ s.child (other d) p
      → insert_loop (suc fuel) n p s ≡ some (insert_outer d p g (s.child (other d) p) s)
  unfolding insert_loop
  loop_outer red_p test away =
      let a : (p == 0) ≡ false = ground arith in
      let b : (__rb_color g == 0) ≡ true = ground arith in
      let c : (n == s.child (other d) p) ≡ false = ground arith in
      rw (word, side, a, b, test, c) refl

pub loop_root :
    (fuel n : ℕ) (s : Store)
    → insert_loop (suc fuel) n 0 s ≡ some (rb_set_parent_color n 0 rb_black s)
unfolding insert_loop
loop_root fuel n s = refl

pub loop_black :
    (fuel n p : ℕ) (s : Store)
    → p ≢ 0
    → __rb_color (s.parent_color p) ≡ 1
    → insert_loop (suc fuel) n p s ≡ some s
unfolding insert_loop
loop_black fuel n p s ne color =
    let a : (p == 0) ≡ false = ground arith in
    let b : (__rb_color (s.parent_color p) == 0) ≡ false = ground arith in rw (a, b) refl

-- A red node in the store, seen from one side.
pub record RedNode (s : Store) (t : Tree) (n p : ℕ) (d : Side) : Type 0 where
  pub is_n : IsNode n
  pub word : s.parent_color n ≡ p + 0
  pub near : Shape s (part d t) (s.child d n) n
  pub far : Shape s (part (other d) t) (s.child (other d) n) n
  pub near_black : root_color (part d t) ≡ black
  pub far_black : root_color (part (other d) t) ≡ black
  pub counts :
      (y : ℕ)
      → times y t ≡ times y (part d t) + (if y == n then 1 else 0) + times y (part (other d) t)
  pub is_label : label t ≡ n

pub red_node :
    (s : Store) (t : Tree) (n p : ℕ) (d : Side) → IsRed t n → Shape s t n p → RedNode s t n p d
unfolding times
red_node s leaf n p d h is = elim h [ ]
red_node s (node black l a r) n p d h is = absurd (let e = h.0 in ground arith)
red_node s (node red l a r) n p left (c, e, bl, br) (f, is_a, pc, at_l, at_r) = record {
  is_n = subst IsNode e is_a;
  word = ap s.parent_color (sym e) ∙ pc;
  near = subst (λ x. Shape s l (s.child left x) x) e at_l;
  far = subst (λ x. Shape s r (s.child right x) x) e at_r;
  near_black = bl;
  far_black = br;
  counts = λ y. ground arith;
  is_label = e;
}
red_node s (node red l a r) n p right (c, e, bl, br) (f, is_a, pc, at_l, at_r) = record {
  is_n = subst IsNode e is_a;
  word = ap s.parent_color (sym e) ∙ pc;
  near = subst (λ x. Shape s r (s.child right x) x) e at_r;
  far = subst (λ x. Shape s l (s.child left x) x) e at_l;
  near_black = br;
  far_black = bl;
  counts = λ y. ground arith;
  is_label = e;
}
