-- ===== src/Rbtree/Fix/Mend.antt =====
-- One round of the loop of `__rb_insert` on a store that holds a tree around a red node.
use mathlib.Core.Path.{subst}
use kernel_porting.Prelude.{
  ℕ, suc, ◌+◌, ◌≤◌, ◌≡◌, ◌≢◌, ◌∙◌, refl, sym, ap, arith, true, false, not, ◌&&◌, bit_or, ◌==◌,
  if◌then◌else◌, List, some,
}
use kernel_porting.Rbtree.{
  Side, left, other, side_eq, Store, put_parent_color, __rb_parent, __rb_color, rb_parent,
  rb_is_red, rb_set_parent_color, insert_flip, insert_inner, insert_outer, insert_side, insert_loop,
}
use kernel_porting.Rbtree.Shape.{
  red, black, Tree, leaf, node, build, times, IsLink, IsNode, Shape, Frame, Around, times_around,
  plug, root_color, or_color, parent_of, color_of, Shape-keep, Around-keep, times-build, root_apart,
  Shape-plug,
}
use kernel_porting.Rbtree.Rotate.{same_side, other_side, insert_outer-Shape}
use kernel_porting.Rbtree.Step.{insert_flip-Shape, insert_inner-IsInner}
use kernel_porting.Rbtree.Fix.{
  paint, part, rotated, IsRed, is_red, red_test, side_test, loop_flip, loop_inner, loop_outer,
  loop_root, RedNode, red_node, IsRed-build, root_color-build, other-other,
}

red_tree :
    (t : Tree) → root_color t ≡ red → (l : Tree) × (a : ℕ) × (r : Tree) × (t ≡ node red l a r)
red_tree leaf e = absurd (ground arith)
red_tree (node red l a r) e = (l, a, r, refl)
red_tree (node black l a r) e = absurd (ground arith)

-- What the loop promises for a hole.
abbrev pub Mends : (fuel n p : ℕ) → Tree → Store → Type 0
Mends fuel n p whole s =
    (s' : Store) × (insert_loop fuel n p s ≡ some s') × Shape s' whole s'.root 0

pub mend_root :
    (fuel : ℕ) (s : Store) (t : Tree) (n : ℕ)
    → IsRed t n
    → Shape s t n 0
    → s.root ≡ n
    → ((y : ℕ) → times y t ≤ 1)
    → Mends (suc fuel) n 0 (paint black t) s
unfolding rb_set_parent_color times
mend_root fuel s leaf n h is root once = elim h [ ]
mend_root fuel s (node c l a r) n h (e, is_a, pc, at_l, at_r) root once =
    let s' = put_parent_color n (bit_or 0 1) s in
    let o = once a in
    (
      s',
      loop_root fuel n s,
      (
        root ∙ e,
        is_a,
        ground (arith, or_color 0 black (refl, omega arith)),
        Shape-keep s s' l _ a (λ y k. ground arith) (λ y d k. refl) at_l,
        Shape-keep s s' r _ a (λ y k. ground arith) (λ y d k. refl) at_r,
      ),
    )

-- A red node `n` below a red parent, and the grandparent.
pub record Climb (s : Store) (t : Tree) (n : ℕ) (f g : Frame) (zs : List Frame) (up : ℕ)
    : Type 0 where
  pub is_red : IsRed t n
  pub at_t : Shape s t n f.addr
  pub is_f : IsNode f.addr
  pub hole_f : s.child f.side f.addr ≡ n
  pub at_f : Shape s f.sibling (s.child (other f.side) f.addr) f.addr
  pub word_f : s.parent_color f.addr ≡ g.addr
  pub f_sib : root_color f.sibling ≡ black
  pub is_g : IsNode g.addr
  pub hole_g : s.child g.side g.addr ≡ f.addr
  pub at_g : Shape s g.sibling (s.child (other g.side) g.addr) g.addr
  pub link : IsLink up
  pub word_g : s.parent_color g.addr ≡ up + 1
  pub above : Around s zs g.addr up
  pub once :
      (y : ℕ)
      → times y t
          + (if y == f.addr then 1 else 0)
          + times y f.sibling
          + (if y == g.addr then 1 else 0)
          + times y g.sibling
          + times_around y zs
        ≤ 1

module _ (fuel : ℕ) (s : Store) (t : Tree) (n : ℕ) (f g : Frame) (zs : List Frame) (up : ℕ)
    (cl : Climb s t n f g zs up) where
  p_side : insert_side f.addr g.addr s ≡ g.side
  p_side =
      let o = cl.once f.addr in
      side_test s g.side g.sibling f.addr g.addr cl.is_f.0 cl.hole_g cl.at_g (ground arith)

  red_word : __rb_color g.addr ≡ 0
  red_word =
      let e : g.addr + 0 ≡ g.addr = omega arith in
      ap __rb_color (sym e) ∙ color_of g.addr red cl.is_g.1

  n_node : RedNode s t n f.addr g.side
  n_node = red_node s t n f.addr g.side cl.is_red cl.at_t

  -- The rotation at the grandparent alone.
  pub mend_outer :
      f.side ≡ g.side
      → root_color g.sibling ≡ black
      → Mends (suc fuel) n f.addr (plug zs (rotated t f g)) s
  mend_outer same g_sib =
      let d = g.side in
      let o = cl.once n in
      let nn = n_node in
      let counts = nn.counts n in
      let test =
        red_test s g.sibling (s.child (other d) g.addr) g.addr cl.is_g.1 cl.at_g
        ∙ ap is_red g_sib in
      let at_f = subst (λ e. Shape s f.sibling (s.child (other e) f.addr) f.addr) same cl.at_f in
      let away : n ≢ s.child (other d) f.addr = λ e.
        root_apart s f.sibling (s.child (other d) f.addr) f.addr at_f n (ground arith)
          (λ z. nn.is_n.0 (e ∙ z)) e in
      let hole : s.child d f.addr ≡ n = subst (λ e. s.child e f.addr ≡ n) same cl.hole_f in
      let (shape, around) =
        insert_outer-Shape s d f.addr g.addr t f.sibling g.sibling zs up cl.is_f cl.is_g cl.link
          (subst (λ x. Shape s t x f.addr) (sym hole) cl.at_t) at_f cl.f_sib cl.at_g cl.word_g
          cl.above (λ y. let c = cl.once y in omega arith) in
      let turned : side_eq f.side d ≡ true = ap (λ x. side_eq x d) same ∙ same_side d in
      rw turned (
        insert_outer d f.addr g.addr (s.child (other d) f.addr) s,
        loop_outer fuel n f.addr g.addr d s cl.is_f.0 cl.word_f p_side red_word test away,
        Shape-plug (insert_outer d f.addr g.addr (s.child (other d) f.addr) s) zs _ f.addr up shape
            around,
      )

  -- The rotation at the parent first.
  pub mend_inner :
      f.side ≡ other g.side
      → root_color g.sibling ≡ black
      → Mends (suc fuel) n f.addr (plug zs (rotated t f g)) s
  mend_inner apart g_sib =
      let d = g.side in
      let nn = n_node in
      let a = part d t in
      let b = part (other d) t in
      let test =
        red_test s g.sibling (s.child (other d) g.addr) g.addr cl.is_g.1 cl.at_g
        ∙ ap is_red g_sib in
      let back : other f.side ≡ d = ap other apart ∙ other-other d in
      let at_f = subst (λ e. Shape s f.sibling (s.child e f.addr) f.addr) back cl.at_f in
      let here : n ≡ s.child (other d) f.addr =
        sym (subst (λ e. s.child e f.addr ≡ n) apart cl.hole_f) in
      let inner =
        insert_inner-IsInner s d n f.addr f.sibling a b nn.is_n cl.is_f at_f nn.near nn.near_black
          nn.far (λ y. let c = cl.once y in let k = nn.counts y in omega arith) in
      let s1 = insert_inner d n f.addr s in
      let o_n = cl.once n in
      let k_n = nn.counts n in
      let o_g = cl.once g.addr in
      let k_g = nn.counts g.addr in
      let words : (y : ℕ) → y ≢ f.addr → times y t ≡ 0 → s1.parent_color y ≡ s.parent_color y =
        λ y h k. let c = nn.counts y in inner.words y h (omega arith) in
      let kids : (y : ℕ) (e : Side) → times y t ≡ 0 → y ≢ f.addr → s1.child e y ≡ s.child e y =
        λ y e k h. let c = nn.counts y in inner.children y e (ground arith) h in
      let off_g : times g.addr t ≡ 0 = ground arith in
      let g_f : g.addr ≢ f.addr = ground arith in
      let at_g =
        Shape-keep s s1 g.sibling (s1.child (other d) g.addr) g.addr
          (λ y h. let c = cl.once y in words y (ground arith) (omega arith))
          (λ y e h. let c = cl.once y in kids y e (omega arith) (ground arith))
          (subst (λ x. Shape s g.sibling x g.addr) (sym (kids g.addr (other d) off_g g_f))
            cl.at_g) in
      let (shape, around) =
        insert_outer-Shape s1 d n g.addr (build d red f.addr f.sibling a) b g.sibling zs up nn.is_n
          cl.is_g cl.link inner.near inner.far nn.far_black at_g
          (words g.addr g_f off_g ∙ cl.word_g)
          (Around-keep s s1 zs g.addr up inner.root
            (λ y h. let c = cl.once y in words y (ground arith) (omega arith))
            (λ y e h. let c = cl.once y in kids y e (omega arith) (ground arith)) cl.above)
          (λ y.
            let c = cl.once y in
            let k = nn.counts y in let m = times-build y d red f.addr f.sibling a in omega arith) in
      let turned : side_eq f.side d ≡ false = ap (λ x. side_eq x d) apart ∙ other_side d in
      rw (turned, nn.is_label)
        (
          insert_outer d n g.addr (s1.child (other d) n) s1,
          loop_inner fuel n f.addr g.addr d s cl.is_f.0 cl.word_f p_side red_word test here,
          Shape-plug (insert_outer d n g.addr (s1.child (other d) n) s1) zs _ n up shape around,
        )

  -- The colour flip: what is left to mend is at the grandparent.
  pub mend_flip :
      root_color g.sibling ≡ red
      → let flipped =
          build g.side red g.addr (build f.side black f.addr t f.sibling) (paint black g.sibling) in
        (s1 : Store) × (insert_loop (suc fuel) n f.addr s ≡ insert_loop fuel g.addr up s1)
        × IsRed flipped g.addr
        × Shape s1 flipped g.addr up
        × Around s1 zs g.addr up
        × ((y : ℕ) → times y flipped + times_around y zs ≤ 1)
  mend_flip g_sib =
      let d = g.side in
      let (ul, u, ur, tree) = red_tree g.sibling g_sib in
      let at_u = subst (λ x. Shape s x (s.child (other d) g.addr) g.addr) tree cl.at_g in
      let s1 = insert_flip f.addr g.addr u s in
      let once : (y : ℕ)
          → times y t
              + times y f.sibling
              + times y (node red ul u ur)
              + (if y == f.addr then 1 else 0)
              + (if y == g.addr then 1 else 0)
              + times_around y zs
            ≤ 1 =
        λ y.
          let c =
            subst
              (λ x.
                times y t
                  + (if y == f.addr then 1 else 0)
                  + times y f.sibling
                  + (if y == g.addr then 1 else 0)
                  + times y x
                  + times_around y zs
                ≤ 1)
              tree (cl.once y) in
          omega arith in
      let at_t = subst (λ x. Shape s t x f.addr) (sym cl.hole_f) cl.at_t in
      let (shape, around) =
        insert_flip-Shape s f.side d t f.sibling ul ur f.addr g.addr u zs up cl.is_f cl.is_g cl.link
          at_t cl.at_f cl.hole_g at_u cl.word_g cl.above once in
      let flipped =
        build d red g.addr (build f.side black f.addr t f.sibling) (node black ul u ur) in
      let is_red =
        IsRed-build d g.addr (build f.side black f.addr t f.sibling) (node black ul u ur)
          (root_color-build f.side black f.addr t f.sibling) refl in
      let g_node = red_node s1 flipped g.addr up left is_red shape in
      let climbs : rb_parent g.addr s1 ≡ up =
        ap __rb_parent g_node.word ∙ parent_of up red cl.link in
      let test = red_test s (node red ul u ur) (s.child (other d) g.addr) g.addr cl.is_g.1 at_u in
      let test_u = subst (λ x. (not (x == 0) && rb_is_red x s) ≡ true) at_u.0 test in
      rw tree (
        s1,
        loop_flip fuel n f.addr g.addr d s cl.is_f.0 cl.word_f p_side red_word u at_u.0 test_u
            ∙ ap (λ x. insert_loop fuel g.addr x s1) climbs,
        is_red,
        shape,
        around,
        λ y.
            let c = once y in
            let k =
              times-build y d red g.addr (build f.side black f.addr t f.sibling)
                (node black ul u ur) in
            let m = times-build y f.side black f.addr t f.sibling in
            let recolored : times y (node black ul u ur) ≡ times y (node red ul u ur) =
              unfold times in refl in
            omega (arith, c, k, m, recolored),
      )
