-- ===== src/Rbtree/Erase/Turn.antt =====
-- The rotations of `____rb_erase_color`, at the store.
use mathlib.Core.Path.{subst}
use kernel_porting.Prelude.{
  ℕ, ◌+◌, ◌≤◌, ◌≡◌, ◌≢◌, ◌∙◌, refl, sym, ap, arith, bit_or, ◌==◌, false, if◌then◌else◌, List,
}
use kernel_porting.Rbtree.{
  Side, left, right, other, Store, put_parent_color, put_child, __rb_parent, rb_set_parent_color,
  blacken_child, reparent_child, __rb_change_child, __rb_rotate_set_parents, insert_outer,
}
use kernel_porting.Rbtree.Shape.{
  Color, red, black, bit_of, Tree, build, times, IsLink, IsNode, Shape, Frame, Around, times_around,
  root_color, or_color, parent_of, Shape-keep, Around-keep, Shape-reparent, Shape-build, root_apart,
}
use kernel_porting.Rbtree.Rotate.{
  same_side, other_side, this_side, blacken_child-IsBlackened, change_child-IsChanged,
  insert_outer-Shape,
}
use kernel_porting.Rbtree.Adopt.{root_word, reparent_child-IsAdopted}
use kernel_porting.Rbtree.Erase.{erase_red_sibling, erase_near_red, erase_far_red}

-- Case 4: `v` takes the place of its parent `p`, which becomes its child on side `d`. The word of the
-- node `q` on its other side is not read.
pub erase_far_red-Shape :
    (s : Store) (d : Side) (c : Color) (p v q : ℕ) (t x a b : Tree) (zs : List Frame) (up : ℕ)
    → IsNode p
    → IsNode v
    → IsNode q
    → IsLink up
    → Shape s t (s.child d p) p
    → Shape s x (s.child d v) v
    → s.child (other d) v ≡ q
    → Shape s a (s.child d q) q
    → Shape s b (s.child (other d) q) q
    → s.parent_color p ≡ up + bit_of c
    → Around s zs p up
    → ((y : ℕ)
        → times y t
            + times y x
            + times y a
            + times y b
            + (if y == p then 1 else 0)
            + (if y == v then 1 else 0)
            + (if y == q then 1 else 0)
            + times_around y zs
          ≤ 1)
    → let s' = erase_far_red d p v q s in
      Shape s' (build d c v (build d black p t x) (build d black q a b)) v up × Around s' zs v up
unfolding erase_far_red __rb_rotate_set_parents rb_set_parent_color
erase_far_red-Shape s d c p v q t x a b zs up is_p is_v is_q link at_t at_x at_q at_a at_b pc around
      once =
    let tmp = s.child d v in
    let s2 = put_parent_color q (bit_or v 1) (put_child d v p (put_child (other d) p tmp s)) in
    let s3 = reparent_child tmp p s2 in
    let s4 = put_parent_color p (bit_or v 1) (put_parent_color v (s3.parent_color p) s3) in
    let ad = reparent_child-IsAdopted s2 tmp p in
    let once_p = once p in
    let once_v = once v in
    let once_q = once q in
    let p_v : p ≢ v = ground arith in
    let p_q : p ≢ q = ground arith in
    let v_q : v ≢ q = ground arith in
    let off = root_apart s x tmp v at_x in
    let word_p : s3.parent_color p ≡ up + bit_of c =
      ad.words p (off p (ground arith)) ∙ ground arith in
    let over : __rb_parent (s3.parent_color p) ≡ up = ap __rb_parent word_p ∙ parent_of up c link in
    let above : Around s4 zs p up =
      Around-keep s s4 zs p up ad.root
        (λ y h. let o = once y in let w = ad.words y (off y (omega arith)) in ground arith)
        (λ y e h. let o = once y in let w = ad.children y e in ground arith) around in
    let ch =
      change_child-IsChanged s4 zs p v up above is_p.0 (ground arith)
        (λ y. let o = once y in omega arith) in
    let s' = __rb_change_child p v up s4 in
    let words : (y : ℕ)
        → y ≢ p
        → y ≢ v
        → y ≢ q
        → (tmp ≢ 0 → y ≢ tmp)
        → s'.parent_color y ≡ s.parent_color y =
      λ y h k l e. ch.words y ∙ (let w = ad.words y e in ground arith) in
    let kids : (y : ℕ) (e : Side) → times_around y zs ≡ 0 → s'.child e y ≡ s2.child e y =
      λ y e h. ch.children y e h ∙ ad.children y e in
    let p_near : s'.child d p ≡ s.child d p =
      kids p d (ground arith) ∙ ground (arith, this_side d) in
    let p_far : s'.child (other d) p ≡ tmp =
      kids p (other d) (ground arith) ∙ ground (arith, same_side (other d), other_side d) in
    let v_near : s'.child d v ≡ p = kids v d (ground arith) ∙ ground (arith, same_side d) in
    let v_far : s'.child (other d) v ≡ q =
      kids v (other d) (ground arith) ∙ ground (arith, other_side d, at_q) in
    let word_v : s'.parent_color v ≡ up + bit_of c = ch.words v ∙ ground (arith, word_p) in
    let word_p' : s'.parent_color p ≡ v + 1 =
      ch.words p ∙ ground (arith, or_color v black is_v.1) in
    let word_q : s'.parent_color q ≡ v + 1 =
      ch.words q
      ∙ (let w = ad.words q (off q (ground arith)) in ground (arith, or_color v black is_v.1)) in
    let word_tmp : tmp ≢ 0 → s'.parent_color tmp ≡ p + bit_of (root_color x) = λ ne.
      let e = off p (ground arith) ne in
      let f = off v (ground arith) ne in
      let g = off q (ground arith) ne in
      let before : s2.parent_color tmp ≡ v + bit_of (root_color x) =
        ground (arith, root_word s x tmp v at_x ne) in
      let w = ad.top (root_color x) v ne is_v.1 is_p.1 before in ch.words tmp ∙ ground arith in
    rw over (
      Shape-build s' d c v (build d black p t x) (build d black q a b) v up refl is_v word_v
          (Shape-build s' d black p t x (s'.child d v) v v_near is_p word_p'
            (Shape-keep s s' t (s'.child d p) p
              (λ y h.
                let o = once y in
                words y (ground arith) (ground arith) (ground arith) (off y (omega arith)))
              (λ y e h. let o = once y in kids y e (omega arith) ∙ ground arith)
              (subst (λ z. Shape s t z p) (sym p_near) at_t))
            (Shape-reparent s s' x (s'.child (other d) p) v p (λ y. let o = once y in omega arith)
              (λ ne. ap s'.parent_color p_far ∙ word_tmp (λ z. ne (p_far ∙ z)))
              (λ y h ne.
                let o = once y in
                words y (ground arith) (ground arith) (ground arith) (λ _ e. ne (e ∙ sym p_far)))
              (λ y e h. let o = once y in kids y e (omega arith) ∙ ground arith)
              (subst (λ z. Shape s x z v) (sym p_far) at_x)))
          (Shape-build s' d black q a b (s'.child (other d) v) v v_far is_q word_q
            (Shape-keep s s' a (s'.child d q) q
              (λ y h.
                let o = once y in
                words y (ground arith) (ground arith) (ground arith) (off y (omega arith)))
              (λ y e h. let o = once y in kids y e (omega arith) ∙ ground arith)
              (subst (λ z. Shape s a z q) (sym (kids q d (ground arith) ∙ ground arith)) at_a))
            (Shape-keep s s' b (s'.child (other d) q) q
              (λ y h.
                let o = once y in
                words y (ground arith) (ground arith) (ground arith) (off y (omega arith)))
              (λ y e h. let o = once y in kids y e (omega arith) ∙ ground arith)
              (subst (λ z. Shape s b z q) (sym (kids q (other d) (ground arith) ∙ ground arith))
                at_b))),
      ch.around,
    )

-- Case 3: the red child `v` on side `d` of the sibling `q` comes between it and `p`. The words of `v` and
-- `q` are left to case 4.
pub record IsNear (s s' : Store) (d : Side) (p q v : ℕ) (t x y b : Tree) (zs : List Frame) (up : ℕ)
    : Type 0 where
  pub at_t : Shape s' t (s'.child d p) p
  pub at_x : Shape s' x (s'.child d v) v
  pub at_q : s'.child (other d) v ≡ q
  pub at_y : Shape s' y (s'.child d q) q
  pub at_b : Shape s' b (s'.child (other d) q) q
  pub word : s'.parent_color p ≡ s.parent_color p
  pub around : Around s' zs p up

pub erase_near_red-IsNear :
    (s : Store) (d : Side) (p q v : ℕ) (t x y b : Tree) (zs : List Frame) (up : ℕ)
    → IsNode q
    → Shape s t (s.child d p) p
    → Shape s x (s.child d v) v
    → Shape s y (s.child (other d) v) v
    → root_color y ≡ black
    → Shape s b (s.child (other d) q) q
    → Around s zs p up
    → ((z : ℕ)
        → times z t
            + times z x
            + times z y
            + times z b
            + (if z == p then 1 else 0)
            + (if z == q then 1 else 0)
            + (if z == v then 1 else 0)
            + times_around z zs
          ≤ 1)
    → IsNear s (erase_near_red d p q v s) d p q v t x y b zs up
unfolding erase_near_red
erase_near_red-IsNear s d p q v t x y b zs up is_q at_t at_x at_y y_black at_b around once =
    let tmp = s.child (other d) v in
    let s2 = put_child (other d) p v (put_child (other d) v q (put_child d q tmp s)) in
    let s' = blacken_child tmp q s2 in
    let bl = blacken_child-IsBlackened s2 tmp q is_q.1 in
    let once_p = once p in
    let once_v = once v in
    let once_q = once q in
    let p_v : p ≢ v = ground arith in
    let p_q : p ≢ q = ground arith in
    let v_q : v ≢ q = ground arith in
    let off = root_apart s y tmp v at_y in
    let kids : (z : ℕ) (e : Side) → z ≢ p → z ≢ q → z ≢ v → s'.child e z ≡ s.child e z =
      λ z e h k l. bl.children z e ∙ ground arith in
    let words : (z : ℕ) → times z y ≡ 0 → s'.parent_color z ≡ s.parent_color z =
      λ z h. bl.words z (off z h) in
    let keep = λ (u : Tree) (r w : ℕ). Shape-keep s s' u r w in
    let p_near : s'.child d p ≡ s.child d p = bl.children p d ∙ ground (arith, this_side d) in
    let v_near : s'.child d v ≡ s.child d v = bl.children v d ∙ ground (arith, this_side d) in
    let v_far : s'.child (other d) v ≡ q =
      bl.children v (other d) ∙ ground (arith, same_side (other d)) in
    let q_near : s'.child d q ≡ tmp = bl.children q d ∙ ground (arith, same_side d) in
    let q_far : s'.child (other d) q ≡ s.child (other d) q =
      bl.children q (other d) ∙ ground (arith, other_side d) in
    record {
      at_t =
          keep t (s'.child d p) p (λ z h. let o = once z in words z (omega arith))
            (λ z e h. let o = once z in kids z e (ground arith) (ground arith) (ground arith))
            (subst (λ r. Shape s t r p) (sym p_near) at_t);
      at_x =
          keep x (s'.child d v) v (λ z h. let o = once z in words z (omega arith))
            (λ z e h. let o = once z in kids z e (ground arith) (ground arith) (ground arith))
            (subst (λ r. Shape s x r v) (sym v_near) at_x);
      at_q = v_far;
      at_y =
          Shape-reparent s s' y (s'.child d q) v q (λ z. let o = once z in omega arith)
            (λ ne.
              ap s'.parent_color q_near
              ∙ bl.top (λ z. ne (q_near ∙ z))
              ∙ ap (λ c. q + bit_of c) (sym y_black))
            (λ z h ne. bl.words z (λ _ e. ne (e ∙ sym q_near)))
            (λ z e h. let o = once z in kids z e (ground arith) (ground arith) (ground arith))
            (subst (λ r. Shape s y r v) (sym q_near) at_y);
      at_b =
          keep b (s'.child (other d) q) q (λ z h. let o = once z in words z (omega arith))
            (λ z e h. let o = once z in kids z e (ground arith) (ground arith) (ground arith))
            (subst (λ r. Shape s b r q) (sym q_far) at_b);
      word = words p (ground arith);
      around =
          Around-keep s s' zs p up bl.root (λ z h. let o = once z in words z (omega arith))
            (λ z e h. let o = once z in kids z e (ground arith) (ground arith) (ground arith))
            around;
    }

-- Case 1 is the rotation that `__rb_insert` does in its case 3, on the other side.
red_sibling-outer :
    (s : Store) (d : Side) (p q : ℕ)
    → s.child d q ≢ 0
    → erase_red_sibling d p q s ≡ insert_outer (other d) q p (s.child d q) s
unfolding erase_red_sibling insert_outer blacken_child
red_sibling-outer s left p q ne = let e : (s.child left q == 0) ≡ false = ground arith in rw e refl
red_sibling-outer s right p q ne =
    let e : (s.child right q == 0) ≡ false = ground arith in rw e refl

pub erase_red_sibling-Shape :
    (s : Store) (d : Side) (p q : ℕ) (t near far : Tree) (zs : List Frame) (up : ℕ)
    → IsNode p
    → IsNode q
    → IsLink up
    → Shape s t (s.child d p) p
    → Shape s near (s.child d q) q
    → s.child d q ≢ 0
    → root_color near ≡ black
    → Shape s far (s.child (other d) q) q
    → s.parent_color p ≡ up + 1
    → Around s zs p up
    → ((y : ℕ)
        → times y t
            + times y near
            + times y far
            + (if y == p then 1 else 0)
            + (if y == q then 1 else 0)
            + times_around y zs
          ≤ 1)
    → let s' = erase_red_sibling d p q s in
      Shape s' (build d black q (build d red p t near) far) q up × Around s' zs q up
erase_red_sibling-Shape s left p q t near far zs up is_p is_q link at_t at_near ne black_near at_far
      pc around once =
    subst
      (λ s'. Shape s' (build left black q (build left red p t near) far) q up × Around s' zs q up)
      (sym (red_sibling-outer s left p q ne))
      (insert_outer-Shape s right q p far near t zs up is_q is_p link at_far at_near black_near at_t
        pc around (λ y. let o = once y in omega arith))
erase_red_sibling-Shape s right p q t near far zs up is_p is_q link at_t at_near ne black_near
      at_far pc around once =
    subst
      (λ s'. Shape s' (build right black q (build right red p t near) far) q up × Around s' zs q up)
      (sym (red_sibling-outer s right p q ne))
      (insert_outer-Shape s left q p far near t zs up is_q is_p link at_far at_near black_near at_t
        pc around (λ y. let o = once y in omega arith))
