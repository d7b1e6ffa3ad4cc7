-- ===== src/Rbtree/Rotate.antt =====
-- What the steps of `__rb_insert` do to the tree that the store holds.
use mathlib.Core.Path.{subst}
use kernel_porting.Prelude.{
  ℕ, ◌+◌, ◌≤◌, ◌≡◌, ◌≢◌, ◌∙◌, refl, sym, ap, inl, inr, arith, true, false, bit_or, ◌==◌,
  if◌then◌else◌, List, [], ◌∷◌, Bool-cases,
}
use kernel_porting.Rbtree.{
  Side, left, right, other, side_eq, Store, put_parent_color, put_child, __rb_parent,
  rb_set_parent_color, blacken_child, __rb_change_child, __rb_rotate_set_parents, insert_outer,
}
use kernel_porting.Rbtree.Shape.{
  red, black, bit_of, Tree, build, times, IsLink, IsNode, Shape, Frame, Around, times_around,
  root_color, or_color, parent_of, Shape-keep, Around-keep, Shape-reparent, root_times, Shape-build,
  root_apart,
}

pub same_side : (d : Side) → side_eq d d ≡ true
same_side left = refl
same_side right = refl

pub other_side : (d : Side) → side_eq (other d) d ≡ false
other_side left = refl
other_side right = refl

pub this_side : (d : Side) → side_eq d (other d) ≡ false
this_side left = refl
this_side right = refl

change_child-side :
    (d : Side) (old new q : ℕ) (s : Store)
    → q ≢ 0
    → s.child d q ≡ old
    → s.child (other d) q ≢ old
    → __rb_change_child old new q s ≡ put_child d q new s
unfolding __rb_change_child
change_child-side left old new q s ne here there =
    let a : (q == 0) ≡ false = ground arith in
    let b : (s.child left q == old) ≡ true = ground arith in rw (a, b) refl
change_child-side right old new q s ne here there =
    let a : (q == 0) ≡ false = ground arith in
    let b : (s.child left q == old) ≡ false = ground arith in rw (a, b) refl

-- What `__rb_change_child` does: the hole above holds `new`, and nothing else changes.
pub record IsChanged (s s' : Store) (zs : List Frame) (new q : ℕ) : Type 0 where
  pub around : Around s' zs new q
  pub words : (y : ℕ) → s'.parent_color y ≡ s.parent_color y
  pub children : (y : ℕ) (d : Side) → times_around y zs ≡ 0 → s'.child d y ≡ s.child d y

pub change_child-IsChanged :
    (s : Store) (zs : List Frame) (old new q : ℕ)
    → Around s zs old q
    → old ≢ 0
    → times_around old zs ≡ 0
    → ((y : ℕ) → times_around y zs ≤ 1)
    → IsChanged s (__rb_change_child old new q s) zs new q
unfolding times_around
change_child-IsChanged s [] old new q (e, z) ne off once =
    unfold __rb_change_child in
    (let a : (q == 0) ≡ true = ground arith in
      rw a (record { around = (refl, z); words = λ y. refl; children = λ y d h. refl }))
change_child-IsChanged s (f ∷ zs) old new q (e, is_node, hole, sib, up, link, pc, rest) ne off
      once =
    let there : s.child (other f.side) f.addr ≢ old = λ same.
      let root =
        root_times s f.sibling (s.child (other f.side) f.addr) f.addr sib
          (λ z. ne (sym same ∙ z)) in
      let root' = subst (λ x. 1 ≤ times x f.sibling) same root in absurd (omega arith) in
    let step : __rb_change_child old new q s ≡ put_child f.side f.addr new s =
      ap (λ x. __rb_change_child old new x s) e
      ∙ change_child-side f.side old new f.addr s is_node.0 hole there in
    let s' = put_child f.side f.addr new s in
    let at_f = once f.addr in
    rw step (record {
      around = (
        e,
        is_node,
        ground (arith, same_side f.side),
        Shape-keep s s' f.sibling (s'.child (other f.side) f.addr) f.addr (λ y h. refl)
            (λ y d h. let o = once y in ground arith)
            (subst (λ x. Shape s f.sibling x f.addr) (ground (arith, other_side f.side)) sib),
        up,
        link,
        pc,
        Around-keep s s' zs f.addr up refl (λ y h. refl) (λ y d h. let o = once y in ground arith)
            rest,
      );
      words = λ y. refl;
      children = λ y d h. ground arith;
    })

-- What `blacken_child` does.
pub record IsBlackened (s s' : Store) (tmp q : ℕ) : Type 0 where
  pub top : tmp ≢ 0 → s'.parent_color tmp ≡ q + 1
  pub words : (y : ℕ) → (tmp ≢ 0 → y ≢ tmp) → s'.parent_color y ≡ s.parent_color y
  pub children : (y : ℕ) (d : Side) → s'.child d y ≡ s.child d y
  pub root : s'.root ≡ s.root

pub blacken_child-IsBlackened :
    (s : Store) (tmp q : ℕ) → IsLink q → IsBlackened s (blacken_child tmp q s) tmp q
unfolding blacken_child rb_set_parent_color
blacken_child-IsBlackened s tmp q link = elim (Bool-cases (tmp == 0)) [
  | inl none ↦ rw none (record {
    top = λ ne. absurd (ground arith);
    words = λ y ne. refl;
    children = λ y d. refl;
    root = refl;
  })
  | inr some ↦ rw some (record {
    top = λ ne. ground (arith, or_color q black link);
    words = λ y ne. let apart = ne (ground arith) in ground arith;
    children = λ y d. refl;
    root = refl;
  })
]

-- Case 3, at the store: `p` with the subtrees `near` on side `d` and `mid` on the other takes the
-- place of `g`, whose other subtree is `far`.
pub insert_outer-Shape :
    (s : Store) (d : Side) (p g : ℕ) (near mid far : Tree) (zs : List Frame) (up : ℕ)
    → IsNode p
    → IsNode g
    → IsLink up
    → Shape s near (s.child d p) p
    → Shape s mid (s.child (other d) p) p
    → root_color mid ≡ black
    → Shape s far (s.child (other d) g) g
    → s.parent_color g ≡ up + 1
    → Around s zs g up
    → ((y : ℕ)
        → times y near
            + times y mid
            + times y far
            + (if y == p then 1 else 0)
            + (if y == g then 1 else 0)
            + times_around y zs
          ≤ 1)
    → let s' = insert_outer d p g (s.child (other d) p) s in
      Shape s' (build d black p near (build d red g mid far)) p up × Around s' zs p up
unfolding insert_outer __rb_rotate_set_parents rb_set_parent_color
insert_outer-Shape s d p g near mid far zs up is_p is_g link at_near at_mid mid_black at_far pc
      around once =
    let tmp = s.child (other d) p in
    let s2 = put_child (other d) p g (put_child d g tmp s) in
    let s3 = blacken_child tmp g s2 in
    let s4 = put_parent_color g (bit_or p 0) (put_parent_color p (s3.parent_color g) s3) in
    let b = blacken_child-IsBlackened s2 tmp g is_g.1 in
    let once_p = once p in
    let once_g = once g in
    let apart : p ≢ g = ground arith in
    let off = root_apart s mid tmp p at_mid in
    let word_g : s3.parent_color g ≡ up + 1 = b.words g (off g (ground arith)) ∙ pc in
    let over : __rb_parent (s3.parent_color g) ≡ up =
      ap __rb_parent word_g ∙ parent_of up black link in
    let above : Around s4 zs g up =
      Around-keep s s4 zs g up b.root
        (λ y h. let o = once y in let w = b.words y (off y (omega arith)) in ground arith)
        (λ y e h. let o = once y in let w = b.children y e in ground arith) around in
    let ch =
      change_child-IsChanged s4 zs g p up above is_g.0 (ground arith)
        (λ y. let o = once y in omega arith) in
    let s' = __rb_change_child g p up s4 in
    let words : (y : ℕ)
        → times_around y zs ≡ 0
        → y ≢ p
        → y ≢ g
        → (tmp ≢ 0 → y ≢ tmp)
        → s'.parent_color y ≡ s.parent_color y =
      λ y h a c e. ch.words y ∙ (let w = b.words y e in ground arith) in
    let kids : (y : ℕ) (e : Side) → times_around y zs ≡ 0 → s'.child e y ≡ s2.child e y =
      λ y e h. ch.children y e h ∙ b.children y e in
    let p_near : s'.child d p ≡ s.child d p =
      kids p d (ground arith) ∙ ground (arith, this_side d) in
    let p_far : s'.child (other d) p ≡ g =
      kids p (other d) (ground arith) ∙ ground (arith, same_side (other d)) in
    let g_near : s'.child d g ≡ tmp =
      kids g d (ground arith) ∙ ground (arith, same_side d, this_side d) in
    let g_far : s'.child (other d) g ≡ s.child (other d) g =
      kids g (other d) (ground arith) ∙ ground (arith, other_side d) in
    let word_p : s'.parent_color p ≡ up + 1 = ch.words p ∙ (ground (arith, word_g)) in
    let word_g' : s'.parent_color g ≡ p + 0 =
      ch.words g ∙ (ground (arith, or_color p red is_p.1)) in
    let word_tmp : tmp ≢ 0 → s'.parent_color tmp ≡ g + 1 = λ ne.
      let a = off p (ground arith) ne in
      let c = off g (ground arith) ne in let t = b.top ne in ch.words tmp ∙ ground arith in
    rw over (
      Shape-build s' d black p near (build d red g mid far) p up refl is_p word_p
          (Shape-keep s s' near (s'.child d p) p
            (λ y h.
              let o = once y in
              words y (omega arith) (ground arith) (ground arith) (off y (omega arith)))
            (λ y e h. let o = once y in kids y e (omega arith) ∙ ground arith)
            (subst (λ x. Shape s near x p) (sym p_near) at_near))
          (Shape-build s' d red g mid far (s'.child (other d) p) p p_far is_g word_g'
            (Shape-reparent s s' mid (s'.child d g) p g (λ y. let o = once y in omega arith)
              (λ ne.
                ap s'.parent_color g_near
                ∙ word_tmp (λ z. ne (g_near ∙ z))
                ∙ ap (λ c. g + bit_of c) (sym mid_black))
              (λ y h ne.
                let o = once y in
                words y (omega arith) (ground arith) (ground arith) (λ _ e. ne (e ∙ sym g_near)))
              (λ y e h. let o = once y in kids y e (omega arith) ∙ ground arith)
              (subst (λ x. Shape s mid x p) (sym g_near) at_mid))
            (Shape-keep s s' far (s'.child (other d) g) g
              (λ y h.
                let o = once y in
                words y (omega arith) (ground arith) (ground arith) (off y (omega arith)))
              (λ y e h. let o = once y in kids y e (omega arith) ∙ ground arith)
              (subst (λ x. Shape s far x g) (sym g_far) at_far))),
      ch.around,
    )
