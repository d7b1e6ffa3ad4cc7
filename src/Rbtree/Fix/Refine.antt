-- ===== src/Rbtree/Fix/Refine.antt =====
-- The loop of `__rb_insert` makes the tree that `fix` describes.
use mathlib.Core.Path.{subst}
use kernel_porting.Prelude.{
  ℕ, zero, suc, ◌+◌, ◌≤◌, ◌<◌, ◌≡◌, ◌∙◌, sym, ap, inl, inr, arith, List, [], ◌∷◌, length,
}
use kernel_porting.Rbtree.{Store, __rb_color}
use kernel_porting.Rbtree.Shape.{
  red, black, bit_of, Tree, times, Shape, Frame, Around, times_around, plug, root_color, color_of,
  Shape-plug,
}
use kernel_porting.Rbtree.Fix.{
  paint, fix, IsRed, IsMended, is_red, loop_black, Color-cases, Side-cases,
}
use kernel_porting.Rbtree.Fix.Mend.{Mends, mend_root, Climb, mend_outer, mend_inner, mend_flip}

climb :
    (s : Store) (t : Tree) (n p : ℕ) (f g : Frame) (zs : List Frame)
    → IsRed t n
    → IsMended (f ∷ g ∷ zs)
    → f.color ≡ red
    → Shape s t n p
    → Around s (f ∷ g ∷ zs) n p
    → ((y : ℕ) → times y t + times_around y (f ∷ g ∷ zs) ≤ 1)
    → (up : ℕ) × (p ≡ f.addr) × Climb s t n f g zs up
unfolding times_around
climb s t n p f g zs is_red (mended, more) f_red at_t
      (e, is_f, hole, at_f, q, link, pc, (e2, is_g, hole2, at_g, up, link2, pc2, rest)) once =
    let (g_black, f_sib) = mended f_red in
    (
      up,
      e,
      record {
        is_red = is_red;
        at_t = subst (λ x. Shape s t n x) e at_t;
        is_f = is_f;
        hole_f = hole;
        at_f = at_f;
        word_f = pc ∙ ap (λ c. q + bit_of c) f_red ∙ omega arith;
        f_sib = f_sib;
        is_g = is_g;
        hole_g = hole2;
        at_g = at_g;
        link = link2;
        word_g = pc2 ∙ ap (λ c. up + bit_of c) g_black;
        above = rest;
        once = λ y. let c = once y in omega arith;
      },
    )

-- Below a black parent there is nothing to mend.
already :
    (fuel : ℕ) (s : Store) (t : Tree) (n p : ℕ) (f : Frame) (zs : List Frame)
    → f.color ≡ black
    → Shape s t n p
    → Around s (f ∷ zs) n p
    → Mends (suc fuel) n p (plug (f ∷ zs) t) s
already fuel s t n p f zs f_black at_t around =
    let (e, is_f, hole, at_f, q, link, pc, rest) = around in
    let word : __rb_color (s.parent_color p) ≡ 1 =
      ap __rb_color (ap s.parent_color e ∙ pc ∙ ap (λ c. q + bit_of c) f_black)
      ∙ color_of q black link in
    (
      s,
      loop_black fuel n p s (λ z. is_f.0 (sym e ∙ z)) word,
      Shape-plug s (f ∷ zs) t n p at_t around,
    )

-- For a store that holds, in some place of a tree in which no address stands twice, a red node
-- without red children, where the nodes above are as in a red-black tree but for the colour of
-- that node's parent, the loop of `__rb_insert` ends within one round for each node above and
-- one more, and the store then holds the tree that `fix` describes.
pub insert_loop-fix :
    (fuel : ℕ) (s : Store) (t : Tree) (n p : ℕ) (zs : List Frame)
    → length zs < fuel
    → IsRed t n
    → IsMended zs
    → Shape s t n p
    → Around s zs n p
    → ((y : ℕ) → times y t + times_around y zs ≤ 1)
    → Mends fuel n p (fix t zs) s
unfolding fix times_around
insert_loop-fix zero s t n p zs h is_red ok at_t around once = absurd (omega arith)
insert_loop-fix (suc fuel) s t n p [] h is_red ok at_t (root, e) once =
    subst (λ x. Mends (suc fuel) n x (paint black t) s) (sym e)
      (mend_root fuel s t n is_red (subst (λ x. Shape s t n x) e at_t) root
        (λ y. let c = once y in omega arith))
insert_loop-fix (suc fuel) s t n p (f ∷ []) h is_red ok at_t around once =
    elim (Color-cases f.color) [
      | inl red_f ↦ elim ((ok.0 red_f).0) [ ]
      | inr black_f ↦ already fuel s t n p f [] black_f at_t around
    ]
insert_loop-fix (suc fuel) s t n p (f ∷ g ∷ zs) h is_red ok at_t around once =
    elim (Color-cases f.color) [
      | inr black_f ↦ rw black_f (already fuel s t n p f (g ∷ zs) black_f at_t around)
      | inl red_f ↦
          let (up, e, cl) = climb s t n p f g zs is_red ok red_f at_t around once in
          rw (red_f, e)
            (elim (Color-cases (root_color g.sibling)) [
              | inl red_g ↦
                  let (s1, run, red1, at1, around1, once1) =
                    mend_flip fuel s t n f g zs up cl red_g in
                  let (s', ran, done) =
                    insert_loop-fix fuel s1 _ g.addr up zs (omega arith) red1 ok.1.1 at1 around1
                      once1 in
                  rw red_g (s', run ∙ ran, done)
              | inr black_g ↦ rw black_g (elim (Side-cases f.side g.side) [
                | inl same ↦ mend_outer fuel s t n f g zs up cl same black_g
                | inr apart ↦ mend_inner fuel s t n f g zs up cl apart black_g
              ])
            ])
    ]
