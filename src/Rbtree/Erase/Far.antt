-- ===== src/Rbtree/Erase/Far.antt =====
-- The successor stands further down: it leaves its parent, and the right child of the node goes below it.
use mathlib.Core.Path.{subst}
use kernel_porting.Prelude.{ℕ, ◌+◌, ◌≤◌, ◌≡◌, ◌≢◌, ◌∙◌, sym, arith, ◌==◌, if◌then◌else◌, List, ◌∷◌}
use kernel_porting.Rbtree.{Side, left, right, other, Store, put_child, rb_set_parent}
use kernel_porting.Rbtree.Shape.{
  Color, bit_of, Tree, times, IsNode, Shape, Frame, Around, times_around, Shape-keep, Around-keep,
}
use kernel_porting.Rbtree.Adopt.{IsAdopted, reparent_child-IsAdopted}
use kernel_porting.Rbtree.Erase.Span.{Span, Span-top, Span-rebase}
use kernel_porting.Rbtree.Erase.Splice.{reparent_child-set}
use kernel_porting.Rbtree.Erase.Both.{Taken}

-- `WRITE_ONCE(parent->rb_left, child2); WRITE_ONCE(successor->rb_right, child); rb_set_parent(child, successor);`
abbrev pub lifted : (parent successor child : ℕ) → Store → Store
lifted parent successor child s =
    let child2 = s.child right successor in
    let s = put_child left parent child2 s in
    let s = put_child right successor child s in rb_set_parent child successor s

module _ (s : Store) (a y ch : ℕ) (l t : Tree) (f : Frame) (ws zs : List Frame) (q : ℕ)
    (c cy : Color) (is_a : IsNode a) (is_y : IsNode y) (at_l : Shape s l (s.child left a) a)
    (has_l : s.child left a ≢ 0) (word_a : s.parent_color a ≡ q + bit_of c)
    (around : Around s zs a q) (span : Span s (f ∷ ws) y f.addr a ch) (is_left : f.side ≡ left)
    (has_ch : ch ≢ 0) (at_t : Shape s t (s.child right y) y)
    (word_y : s.parent_color y ≡ f.addr + bit_of cy)
    (once : (z : ℕ)
      → times z l
          + (if z == a then 1 else 0)
          + (if z == y then 1 else 0)
          + times z t
          + times_around z (f ∷ ws)
          + times_around z zs
        ≤ 1) where
  pub lifted-Taken :
      Taken (lifted f.addr y ch s) a y l t (f ∷ ws) zs q (s.child right y) f.addr ch f.addr c cy
  unfolding times_around
  lifted-Taken =
      let s1 = put_child left f.addr (s.child right y) s in
      let s2 = put_child right y ch s1 in
      let s' = lifted f.addr y ch s in
      let ad =
        subst (λ x. IsAdopted s2 x ch y) (reparent_child-set ch y s2 has_ch)
          (reparent_child-IsAdopted s2 ch y) in
      let at_top = Span-top s f ws y f.addr a ch span in
      let o_ch = once ch in
      let o_y = once y in
      let o_a = once a in
      let o_f = once f.addr in
      let y_f : y ≢ f.addr = ground arith in
      let words : (z : ℕ) → z ≢ ch → s'.parent_color z ≡ s.parent_color z =
        λ z n. ad.words z (λ _. n) in
      let kids : (z : ℕ) (d : Side) → z ≢ y → z ≢ f.addr → s'.child d z ≡ s.child d z =
        λ z d n m. ad.children z d ∙ ground arith in
      let not_ch : (z : ℕ) → times_around z (f ∷ ws) ≡ 0 → z ≢ ch = λ z n e.
        absurd (let w = subst (λ x. 1 ≤ times_around x (f ∷ ws)) (sym e) at_top in omega arith) in
      let not_f : (z : ℕ) → times_around z (f ∷ ws) ≡ 0 → z ≢ f.addr = λ z n. ground arith in
      let a_kid : s'.child left a ≡ s.child left a =
        kids a left (ground arith) (not_f a (ground arith)) in
      let t_kid : s'.child right y ≡ ch = ad.children y right ∙ ground arith in
      let not_y : (z : ℕ)
          → 1 ≤ times z l + times z t + times_around z (f ∷ ws) + times_around z zs
          → z ≢ y =
        λ z n. let o = once z in ground arith in
      record {
        is_a = is_a;
        is_y = is_y;
        at_l =
            subst (λ x. Shape s' l x a) (sym a_kid)
              (Shape-keep s s' l (s.child left a) a
                (λ z n. let o = once z in words z (not_ch z (omega arith)))
                (λ z d n.
                  let o = once z in kids z d (not_y z (omega arith)) (not_f z (omega arith)))
                at_l);
        has_l = λ e. has_l (sym a_kid ∙ e);
        word_a = words a (not_ch a (ground arith)) ∙ word_a;
        around =
            Around-keep s s' zs a q ad.root
              (λ z n. let o = once z in words z (not_ch z (omega arith)))
              (λ z d n. let o = once z in kids z d (not_y z (omega arith)) (not_f z (omega arith)))
              around;
        span =
            Span-rebase s s' f ws y (s.child right y) f.addr a y ch is_y.1
              (λ z. let o = once z in omega arith) (ad.children f.addr f.side ∙ ground arith)
              (ad.children f.addr (other f.side) ∙ ground arith)
              (λ z d n m. kids z d (not_y z (omega arith)) m) (λ z n m. words z m)
              (λ b e. ad.top b a has_ch is_a.1 is_y.1 e) span;
        at_right = t_kid;
        at_t =
            Shape-keep s s' t (s.child right y) y
              (λ z n. let o = once z in words z (not_ch z (omega arith)))
              (λ z d n. let o = once z in kids z d (not_y z (omega arith)) (not_f z (omega arith)))
              at_t;
        link = span.1.1;
        word_y = words y (not_ch y (ground arith)) ∙ word_y;
      }
