-- ===== src/Rbtree/Step.antt =====
-- The other two cases of `__rb_insert`: the colour flip, and the rotation at the parent.
use mathlib.Core.Path.{subst}
use kernel_porting.Prelude.{
  ℕ, ◌+◌, ◌≤◌, ◌≡◌, ◌≢◌, ◌∙◌, refl, sym, ap, arith, bit_or, ◌==◌, if◌then◌else◌, List,
}
use kernel_porting.Rbtree.{
  Side, other, Store, put_parent_color, put_child, __rb_parent, rb_set_parent_color, blacken_child,
  insert_flip, insert_inner,
}
use kernel_porting.Rbtree.Shape.{
  red, black, bit_of, Tree, node, build, times, IsLink, IsNode, Shape, Frame, Around, times_around,
  root_color, or_color, parent_of, Shape-keep, Around-keep, Shape-reparent, Shape-build, root_apart,
}
use kernel_porting.Rbtree.Rotate.{same_side, other_side, this_side, blacken_child-IsBlackened}

-- Case 1, at the store: `g`, its child `p` on side `d` and the uncle `u` change colours.
pub insert_flip-Shape :
    (s : Store) (e d : Side) (t x ul ur : Tree) (p g u : ℕ) (zs : List Frame) (up : ℕ)
    → IsNode p
    → IsNode g
    → IsLink up
    → Shape s t (s.child e p) p
    → Shape s x (s.child (other e) p) p
    → s.child d g ≡ p
    → Shape s (node red ul u ur) (s.child (other d) g) g
    → s.parent_color g ≡ up + 1
    → Around s zs g up
    → ((y : ℕ)
        → times y t
            + times y x
            + times y (node red ul u ur)
            + (if y == p then 1 else 0)
            + (if y == g then 1 else 0)
            + times_around y zs
          ≤ 1)
    → Shape (insert_flip p g u s) (build d red g (build e black p t x) (node black ul u ur)) g up
      × Around (insert_flip p g u s) zs g up
unfolding insert_flip rb_set_parent_color times
insert_flip-Shape s e d t x ul ur p g u zs up is_p is_g link at_t at_x hole
      (at_u, is_u, pc_u, at_ul, at_ur) pc around once =
    let s2 = put_parent_color p (bit_or g 1) (put_parent_color u (bit_or g 1) s) in
    let s' = insert_flip p g u s in
    let once_p = once p in
    let once_g = once g in
    let once_u = once u in
    let a : p ≢ g = ground arith in
    let b : u ≢ g = ground arith in
    let c : u ≢ p = ground arith in
    let word_g : s2.parent_color g ≡ up + 1 = ground arith in
    let over : __rb_parent (s2.parent_color g) ≡ up =
      ap __rb_parent word_g ∙ parent_of up black link in
    let black_g = or_color g black is_g.1 in
    let words : (y : ℕ) → y ≢ p → y ≢ g → y ≢ u → s'.parent_color y ≡ s.parent_color y =
      λ y f h k. ground arith in
    (
      Shape-build s' d red g (build e black p t x) (node black ul u ur) g up refl is_g
          (ground (arith, or_color up red link))
          (subst (λ y. Shape s' (build e black p t x) y g) (sym hole)
            (Shape-build s' e black p t x p g refl is_p (ground arith)
              (Shape-keep s s' t _ p
                (λ y h. let o = once y in words y (ground arith) (ground arith) (ground arith))
                (λ y k h. refl) at_t)
              (Shape-keep s s' x _ p
                (λ y h. let o = once y in words y (ground arith) (ground arith) (ground arith))
                (λ y k h. refl) at_x)))
          (
            at_u,
            is_u,
            ground arith,
            Shape-keep s s' ul _ u
                (λ y h. let o = once y in words y (ground arith) (ground arith) (ground arith))
                (λ y k h. refl) at_ul,
            Shape-keep s s' ur _ u
                (λ y h. let o = once y in words y (ground arith) (ground arith) (ground arith))
                (λ y k h. refl) at_ur,
          ),
      Around-keep s s' zs g up refl
          (λ y h. let o = once y in words y (ground arith) (ground arith) (ground arith))
          (λ y k h. refl) around,
    )

-- Case 2, at the store: `n` takes the place of its parent `p`, which is its new child on side `d`.
pub record IsInner (s s' : Store) (d : Side) (n p : ℕ) (x a b : Tree) : Type 0 where
  pub near : Shape s' (build d red p x a) (s'.child d n) n
  pub far : Shape s' b (s'.child (other d) n) n
  pub words : (y : ℕ) → y ≢ p → times y a ≡ 0 → s'.parent_color y ≡ s.parent_color y
  pub children : (y : ℕ) (e : Side) → y ≢ n → y ≢ p → s'.child e y ≡ s.child e y
  pub root : s'.root ≡ s.root

pub insert_inner-IsInner :
    (s : Store) (d : Side) (n p : ℕ) (x a b : Tree)
    → IsNode n
    → IsNode p
    → Shape s x (s.child d p) p
    → Shape s a (s.child d n) n
    → root_color a ≡ black
    → Shape s b (s.child (other d) n) n
    → ((y : ℕ)
        → times y x + times y a + times y b + (if y == n then 1 else 0) + (if y == p then 1 else 0)
          ≤ 1)
    → IsInner s (insert_inner d n p s) d n p x a b
unfolding insert_inner rb_set_parent_color
insert_inner-IsInner s d n p x a b is_n is_p at_x at_a a_black at_b once =
    let tmp = s.child d n in
    let s2 = put_child d n p (put_child (other d) p tmp s) in
    let s3 = blacken_child tmp p s2 in
    let s' = put_parent_color p (bit_or n 0) s3 in
    let bl = blacken_child-IsBlackened s2 tmp p is_p.1 in
    let off = root_apart s a tmp n at_a in
    let once_n = once n in
    let once_p = once p in
    let apart : n ≢ p = ground arith in
    let n_near : s'.child d n ≡ p = bl.children n d ∙ ground (arith, same_side d) in
    let n_far : s'.child (other d) n ≡ s.child (other d) n =
      bl.children n (other d) ∙ ground (arith, other_side d) in
    let p_near : s'.child d p ≡ s.child d p = bl.children p d ∙ ground (arith, this_side d) in
    let p_far : s'.child (other d) p ≡ tmp =
      bl.children p (other d) ∙ ground (arith, same_side (other d)) in
    let words : (y : ℕ) → y ≢ p → (tmp ≢ 0 → y ≢ tmp) → s'.parent_color y ≡ s.parent_color y =
      λ y h k. let w = bl.words y k in ground arith in
    let kids : (y : ℕ) (e : Side) → y ≢ n → y ≢ p → s'.child e y ≡ s.child e y =
      λ y e h k. bl.children y e ∙ ground arith in
    let word_tmp : tmp ≢ 0 → s'.parent_color tmp ≡ p + 1 =
      λ ne. let c = off p (ground arith) ne in let t = bl.top ne in ground arith in
    record {
      near =
          Shape-build s' d red p x a (s'.child d n) n n_near is_p
            (ground (arith, or_color n red is_n.1))
            (Shape-keep s s' x (s'.child d p) p
              (λ y h. let o = once y in words y (ground arith) (off y (omega arith)))
              (λ y e h. let o = once y in kids y e (ground arith) (ground arith))
              (subst (λ r. Shape s x r p) (sym p_near) at_x))
            (Shape-reparent s s' a (s'.child (other d) p) n p (λ y. let o = once y in omega arith)
              (λ ne.
                ap s'.parent_color p_far
                ∙ word_tmp (λ z. ne (p_far ∙ z))
                ∙ ap (λ c. p + bit_of c) (sym a_black))
              (λ y h ne. let o = once y in words y (ground arith) (λ _ e. ne (e ∙ sym p_far)))
              (λ y e h. let o = once y in kids y e (ground arith) (ground arith))
              (subst (λ r. Shape s a r n) (sym p_far) at_a));
      far =
          Shape-keep s s' b (s'.child (other d) n) n
            (λ y h. let o = once y in words y (ground arith) (off y (omega arith)))
            (λ y e h. let o = once y in kids y e (ground arith) (ground arith))
            (subst (λ r. Shape s b r n) (sym n_far) at_b);
      words = λ y h k. words y h (off y k);
      children = kids;
      root = bl.root;
    }
