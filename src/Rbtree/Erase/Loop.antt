-- ===== src/Rbtree/Erase/Loop.antt =====
-- The loop of `____rb_erase_color`: it ends, and the tree is red-black again.
use mathlib.Core.Path.{subst}
use Prim.{tt}
use kernel_porting.Prelude.{
  ℕ, ◌+◌, ◌≤◌, ◌≡◌, ◌≢◌, ◌∙◌, refl, sym, ap, inl, inr, arith, true, false, not, ◌==◌, if◌then◌else◌,
  Bool-cases, List, [], ◌∷◌, Option, some,
}
use kernel_porting.Rbtree.{
  Side, other, Store, __rb_parent, __rb_color, rb_parent, rb_is_red, rb_set_parent_color,
  rb_set_black,
}
use kernel_porting.Rbtree.Shape.{
  Color, red, black, bit_of, Tree, build, inorder, times, Frame, Around, plug, root_color,
  parent_of, color_of,
}
use kernel_porting.Rbtree.Fix.{Color-cases, is_red, root_color-build}
use kernel_porting.Rbtree.Fix.Heights.{BalancedAround, black_not_red}
use kernel_porting.Rbtree.Erase.{none_or_black, erase_near_red, erase_far_red, erase_black_sibling}
use kernel_porting.Rbtree.Erase.Recolor.{
  Leaves, black_test, finish, Short, whole, flipped, low, far_red, near_red, flip_black, flip_red,
  order_flip, Balanced-flip,
}

-- The branches of a round.
module _ (d : Side) (p v : ℕ) (s : Store) (rest : Store → Option Store) where
  round_far :
      none_or_black (s.child (other d) v) s ≡ false
      → erase_black_sibling d p v s rest ≡ some (erase_far_red d p v (s.child (other d) v) s)
  unfolding erase_black_sibling
  round_far e = rw e refl

  round_near :
      none_or_black (s.child (other d) v) s ≡ true
      → none_or_black (s.child d v) s ≡ false
      → erase_black_sibling d p v s rest
        ≡ some (erase_far_red d p (s.child d v) v (erase_near_red d p v (s.child d v) s))
  unfolding erase_black_sibling
  round_near e e' = rw (e, e') refl

  module _ (e : none_or_black (s.child (other d) v) s ≡ true)
      (e' : none_or_black (s.child d v) s ≡ true) where
    round_red :
        rb_is_red p (rb_set_parent_color v p 0 s) ≡ true
        → erase_black_sibling d p v s rest ≡ some (rb_set_black p (rb_set_parent_color v p 0 s))
    unfolding erase_black_sibling
    round_red r = rw (e, e', r) refl

    round_top :
        rb_is_red p (rb_set_parent_color v p 0 s) ≡ false
        → rb_parent p (rb_set_parent_color v p 0 s) ≡ 0
        → erase_black_sibling d p v s rest ≡ some (rb_set_parent_color v p 0 s)
    unfolding erase_black_sibling
    round_top r z =
        let w : (rb_parent p (rb_set_parent_color v p 0 s) == 0) ≡ true = ground arith in
        rw (e, e', r, w) refl

    round_on :
        rb_is_red p (rb_set_parent_color v p 0 s) ≡ false
        → rb_parent p (rb_set_parent_color v p 0 s) ≢ 0
        → erase_black_sibling d p v s rest ≡ rest (rb_set_parent_color v p 0 s)
    unfolding erase_black_sibling
    round_on r ne =
        let w : (rb_parent p (rb_set_parent_color v p 0 s) == 0) ≡ false = ground arith in
        rw (e, e', r, w) refl

at_top : (s : Store) (zs : List Frame) (p up : ℕ) → Around s zs p up → up ≡ 0 → zs ≡ []
at_top s [] p up around z = refl
at_top s (f ∷ zs) p up (e, is_f, hole, sib, over, link, pc, more) z = absurd (is_f.0 (sym e ∙ z))

flipped_word :
    (s : Store) (p v w : ℕ)
    → p ≢ v
    → s.parent_color p ≡ w
    → (rb_set_parent_color v p 0 s).parent_color p ≡ w
unfolding rb_set_parent_color
flipped_word s p v w ne e = ground arith

once_apart : (p v n : ℕ) → n + (if v == p then 1 else 0) + (if v == v then 1 else 0) ≤ 1 → p ≢ v
once_apart p v n h = ground arith

-- A round with a black sibling: it ends the run, or the flip leaves the rest to the node above.
pub black_round :
    (s : Store) (d : Side) (c : Color) (p v : ℕ) (t near far : Tree) (zs : List Frame) (up h : ℕ)
    → (short : Short s d c p v t near far zs up h) → (rest : Store → Option Store)
    → (c ≡ black
        → up ≢ 0
        → root_color near ≡ black
        → root_color far ≡ black
        → Leaves
            (rest (flipped s d c p v t near far zs up h short))
            (inorder (plug zs (whole s d c p v t near far zs up h short))))
    → Leaves
        (erase_black_sibling d p v s rest)
        (inorder (plug zs (whole s d c p v t near far zs up h short)))
black_round s d c p v t near far zs up h short rest on =
    let seq = inorder (plug zs (build d c p t (build d black v near far))) in
    let go = λ (r : Option Store) (e : erase_black_sibling d p v s rest ≡ r) (l : Leaves r seq).
      subst (λ x. Leaves x seq) (sym e) l in
    let test_far = black_test s far (s.child (other d) v) v short.is_v.1 short.at_far in
    let test_near = black_test s near (s.child d v) v short.is_v.1 short.at_near in
    let o = short.once v in
    let p_v = once_apart p v (times v t + times v near + times v far) (omega arith) in
    let word = flipped_word s p v (up + bit_of c) p_v short.word in
    let over = ap __rb_parent word ∙ parent_of up c short.link in
    let color = ap __rb_color word ∙ color_of up c short.link in
    elim (Color-cases (root_color far)) [
      | inl red_far ↦
          go _ (round_far d p v s rest (test_far ∙ ap (λ x. not (is_red x)) red_far))
            (far_red s d c p v t near far zs up h short red_far)
      | inr black_far ↦
          let e = test_far ∙ ap (λ x. not (is_red x)) black_far in
          elim (Color-cases (root_color near)) [
            | inl red_near ↦
                go _ (round_near d p v s rest e (test_near ∙ ap (λ x. not (is_red x)) red_near))
                  (near_red s d c p v t near far zs up h short red_near)
            | inr black_near ↦
                let e' = test_near ∙ ap (λ x. not (is_red x)) black_near in
                elim (Color-cases c) [
                  | inl red_c ↦
                      let k = color ∙ ap bit_of red_c in
                      go _ (round_red d p v s rest e e' (ground arith))
                        (flip_red s d c p v t near far zs up h short red_c black_near black_far)
                  | inr black_c ↦
                      let k = color ∙ ap bit_of black_c in
                      elim (Bool-cases (up == 0)) [
                        | inl top ↦
                            let z : up ≡ 0 = ground arith in
                            let (shape, around) =
                              flip_black s d c p v t near far zs up h short black_c in
                            let nil =
                              at_top (flipped s d c p v t near far zs up h short) zs p up around
                                z in
                            go _ (round_top d p v s rest e e' (ground arith) (over ∙ z)) (
                              finish (flipped s d c p v t near far zs up h short) zs
                                (low s d c p v t near far zs up h short)
                                (whole s d c p v t near far zs up h short) (h + 1) p up shape around
                                (Balanced-flip s d c p v t near far zs up h short black_near
                                  black_far)
                                (subst (λ x. BalancedAround x (h + 1)) (sym nil) tt) short.mended
                                (λ r. absurd (
                                  black_not_red _
                                    (root_color-build d black p t (build d red v near far)) r))
                                (order_flip s d c p v t near far zs up h short))
                        | inr below ↦
                            let ne : up ≢ 0 = ground arith in
                            go _
                              (round_on d p v s rest e e' (ground arith) (λ z. ne (sym over ∙ z)))
                              (on black_c ne black_near black_far)
                      ]
                ]
          ]
    ]
