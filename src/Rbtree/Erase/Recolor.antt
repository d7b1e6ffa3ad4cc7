-- ===== src/Rbtree/Erase/Recolor.antt =====
-- One round of `____rb_erase_color` with a black sibling, and what a finished run leaves.
use mathlib.Core.Path.{subst}
use kernel_porting.Prelude.{
  ℕ, ◌+◌, ◌≤◌, ◌≡◌, ◌≢◌, ◌⊎◌, ◌∙◌, refl, sym, ap, inl, inr, arith, Bool, true, false, not, ◌&&◌,
  ◌||◌, ◌==◌, bit_or, if◌then◌else◌, List, ++_assoc, Option, some,
}
use kernel_porting.Rbtree.{
  Side, left, right, other, Store, put_parent_color, rb_set_parent_color, rb_set_black,
}
use kernel_porting.Rbtree.Shape.{
  Color, red, black, bit_of, Tree, leaf, node, build, inorder, times, IsLink, IsNode, Shape, Frame,
  Around, times_around, plug, root_color, or_color, Shape-keep, Around-keep, Shape-build,
  times-build, Shape-plug,
}
use kernel_porting.Rbtree.Fix.{BlackAbove, IsMended, is_red, red_test, root_color-build}
use kernel_porting.Rbtree.Fix.Balance.{join, inorder-build, inorder_same, plug_same, join_outer}
use kernel_porting.Rbtree.Fix.Heights.{
  Balanced, BalancedAround, IsRedBlack, Balanced-red, Balanced-black, Balanced-step, Balanced-plug,
  black_not_red,
}
use kernel_porting.Rbtree.Insert.Hole.{Shape-unbuild, Balanced-unbuild}
use kernel_porting.Rbtree.Erase.{none_or_black, erase_near_red, erase_far_red}
use kernel_porting.Rbtree.Erase.Turn.{erase_far_red-Shape, erase_near_red-IsNear}

-- The run ended, and the store holds a red-black tree with the sequence `seq`.
abbrev pub Leaves : Option Store → List ℕ → Type 0
Leaves r seq =
    (s' : Store) × (t' : Tree) × (r ≡ some s')
    × Shape s' t' s'.root 0
    × IsRedBlack t'
    × (inorder t' ≡ seq)

-- A tree with a root, seen from one side.
pub as_build :
    (d : Side) (t : Tree)
    → (t ≡ leaf)
      ⊎ ((c : Color) × (a : ℕ) × (near : Tree) × (far : Tree) × (t ≡ build d c a near far))
as_build d leaf = inl refl
as_build left (node c l a r) = inr (c, a, l, r, refl)
as_build right (node c l a r) = inr (c, a, r, l, refl)

red_build :
    (d : Side) (t : Tree)
    → root_color t ≡ red
    → (a : ℕ) × (near : Tree) × (far : Tree) × (t ≡ build d red a near far)
red_build d leaf e = absurd (ground arith)
red_build left (node red l a r) e = (a, l, r, refl)
red_build right (node red l a r) e = (a, r, l, refl)
red_build d (node black l a r) e = absurd (ground arith)

demorgan : (a b : Bool) → (a || not b) ≡ not (not a && b)
demorgan true b = refl
demorgan false b = refl

-- What `!tmp || rb_is_black(tmp)` finds out.
pub black_test :
    (s : Store) (t : Tree) (p q : ℕ)
    → IsLink q
    → Shape s t p q
    → none_or_black p s ≡ not (is_red (root_color t))
black_test s t p q link is = demorgan _ _ ∙ ap not (red_test s t p q link is)

-- A tree in its place that fits there ends the run.
pub finish :
    (s : Store) (zs : List Frame) (t whole : Tree) (h p q : ℕ)
    → Shape s t p q
    → Around s zs p q
    → Balanced t h
    → BalancedAround zs h
    → IsMended zs
    → (root_color t ≡ red → BlackAbove zs)
    → inorder t ≡ inorder whole
    → Leaves (some s) (inorder (plug zs whole))
finish s zs t whole h p q is around at_t balanced mended above order = (
  s,
  plug zs t,
  refl,
  Shape-plug s zs t p q is around,
  Balanced-plug zs t h at_t balanced mended above,
  plug_same zs t whole order,
)

-- The flip of case 2, with any colour of the parent afterwards.
flip-Shape :
    (s s' : Store) (d : Side) (c : Color) (p v : ℕ) (t near far : Tree) (zs : List Frame) (up : ℕ)
    → IsNode p
    → IsNode v
    → Shape s t (s.child d p) p
    → s.child (other d) p ≡ v
    → Shape s near (s.child d v) v
    → Shape s far (s.child (other d) v) v
    → Around s zs p up
    → ((y : ℕ)
        → times y t
            + times y near
            + times y far
            + (if y == p then 1 else 0)
            + (if y == v then 1 else 0)
            + times_around y zs
          ≤ 1)
    → s'.parent_color p ≡ up + bit_of c
    → s'.parent_color v ≡ p + 0
    → ((y : ℕ) → y ≢ p → y ≢ v → s'.parent_color y ≡ s.parent_color y)
    → ((y : ℕ) (e : Side) → s'.child e y ≡ s.child e y)
    → s'.root ≡ s.root
    → Shape s' (build d c p t (build d red v near far)) p up × Around s' zs p up
flip-Shape s s' d c p v t near far zs up is_p is_v at_t at_v at_near at_far around once word_p
      word_v words kids root =
    let keep =
      λ (u : Tree) (e : Side) (q : ℕ) (off : (y : ℕ) → 1 ≤ times y u → (y ≢ p) × (y ≢ v))
          (at : Shape s u (s.child e q) q).
        Shape-keep s s' u (s'.child e q) q (λ y h. words y (off y h).0 (off y h).1)
          (λ y k h. kids y k) (subst (λ x. Shape s u x q) (sym (kids q e)) at) in
    (
      Shape-build s' d c p t (build d red v near far) p up refl is_p word_p
          (keep t d p (λ y h. let o = once y in (ground arith, ground arith)) at_t)
          (Shape-build s' d red v near far (s'.child (other d) p) p (kids p (other d) ∙ at_v) is_v
            word_v (keep near d v (λ y h. let o = once y in (ground arith, ground arith)) at_near)
            (keep far (other d) v (λ y h. let o = once y in (ground arith, ground arith)) at_far)),
      Around-keep s s' zs p up root (λ y h. let o = once y in words y (ground arith) (ground arith))
          (λ y e h. kids y e) around,
    )

-- A node `p` whose subtree `t` has one black node too few on each way, and its black other child `v`.
pub record Short (s : Store) (d : Side) (c : Color) (p v : ℕ) (t near far : Tree) (zs : List Frame)
    (up h : ℕ) : Type 0 where
  pub is_p : IsNode p
  pub is_v : IsNode v
  pub link : IsLink up
  pub at_t : Shape s t (s.child d p) p
  pub at_v : s.child (other d) p ≡ v
  pub at_near : Shape s near (s.child d v) v
  pub at_far : Shape s far (s.child (other d) v) v
  pub word : s.parent_color p ≡ up + bit_of c
  pub around : Around s zs p up
  pub once :
      (y : ℕ)
      → times y t
          + times y near
          + times y far
          + (if y == p then 1 else 0)
          + (if y == v then 1 else 0)
          + times_around y zs
        ≤ 1
  pub balanced_t : Balanced t h
  pub balanced_near : Balanced near h
  pub balanced_far : Balanced far h
  pub balanced : BalancedAround zs (h + 1 + bit_of c)
  pub mended : IsMended zs
  pub above : c ≡ red → BlackAbove zs

join_near :
    (d : Side) (p v w : ℕ) (t x y far : List ℕ)
    → join d w (join d p t x) (join d v y far) ≡ join d p t (join d v (join d w x y) far)
join_near left p v w t x y far = simp ++_assoc
join_near right p v w t x y far = simp ++_assoc

module _ (s : Store) (d : Side) (c : Color) (p v : ℕ) (t near far : Tree) (zs : List Frame)
    (up h : ℕ) (short : Short s d c p v t near far zs up h) where
  abbrev pub whole : Tree
  whole = build d c p t (build d black v near far)

  -- What a rotation leaves fits above.
  turned :
      (s' : Store) (w q : ℕ) (x a b : Tree)
      → Shape s' (build d c w (build d black p t x) (build d black q a b)) w up × Around s' zs w up
      → Balanced x h
      → Balanced a h
      → Balanced b h
      → inorder (build d c w (build d black p t x) (build d black q a b)) ≡ inorder whole
      → Leaves (some s') (inorder (plug zs whole))
  turned s' w q x a b (shape, around) at_x at_a at_b order =
      let low = build d black p t x in
      let high = build d black q a b in
      let f : Frame = record { side = d; color = c; addr = w; sibling = high } in
      finish s' zs (build d c w low high) whole (h + 1 + bit_of c) w up shape around
        (Balanced-step f low (h + 1) (Balanced-black d p t x h short.balanced_t at_x)
          (Balanced-black d q a b h at_a at_b)
          (λ e. (root_color-build d black p t x, root_color-build d black q a b)))
        short.balanced short.mended (λ e. short.above (sym (root_color-build d c w low high) ∙ e))
        order

  -- Case 4.
  pub far_red :
      root_color far ≡ red
      → Leaves (some (erase_far_red d p v (s.child (other d) v) s)) (inorder (plug zs whole))
  far_red e =
      let (q, a, b, tree) = red_build d far e in
      let (at_q, is_q, pc, at_a, at_b) =
        Shape-unbuild s d red q a b (s.child (other d) v) v
          (subst (λ x. Shape s x (s.child (other d) v) v) tree short.at_far) in
      let (k, same, bal_a, bal_b, blacks) =
        Balanced-unbuild d red q a b h (subst (λ x. Balanced x h) tree short.balanced_far) in
      let e_k : k ≡ h = omega arith in
      let order : inorder (build d c v (build d black p t near) (build d black q a b))
          ≡ inorder whole =
        inorder-build d c v (build d black p t near) (build d black q a b)
        ∙ ap (λ x. join d v x (inorder (build d black q a b))) (inorder-build d black p t near)
        ∙ ap (λ x. join d v (join d p (inorder t) (inorder near)) x)
            (inorder-build d black q a b ∙ sym (inorder-build d red q a b) ∙ ap inorder (sym tree))
        ∙ sym (join_outer d p v (inorder t) (inorder near) (inorder far))
        ∙ ap (λ x. join d p (inorder t) x) (sym (inorder-build d black v near far))
        ∙ sym (inorder-build d c p t (build d black v near far)) in
      rw at_q (
        turned (erase_far_red d p v q s) v q near a b
          (erase_far_red-Shape s d c p v q t near a b zs up short.is_p short.is_v is_q short.link
            short.at_t short.at_near at_q at_a at_b short.word short.around
            (λ y.
              let o = short.once y in
              let m = ap (times y) tree ∙ times-build y d red q a b in omega arith))
          short.balanced_near (subst (λ x. Balanced a x) e_k bal_a)
          (subst (λ x. Balanced b x) e_k bal_b) order)

  -- Case 3 and case 4 after it.
  pub near_red :
      root_color near ≡ red
      → Leaves
          (some (erase_far_red d p (s.child d v) v (erase_near_red d p v (s.child d v) s)))
          (inorder (plug zs whole))
  near_red e =
      let (w, x, y, tree) = red_build d near e in
      let (at_w, is_w, pc, at_x, at_y) =
        Shape-unbuild s d red w x y (s.child d v) v
          (subst (λ z. Shape s z (s.child d v) v) tree short.at_near) in
      let (k, same, bal_x, bal_y, blacks) =
        Balanced-unbuild d red w x y h (subst (λ z. Balanced z h) tree short.balanced_near) in
      let e_k : k ≡ h = omega arith in
      let once : (z : ℕ)
          → times z t
              + times z x
              + times z y
              + times z far
              + (if z == p then 1 else 0)
              + (if z == v then 1 else 0)
              + (if z == w then 1 else 0)
              + times_around z zs
            ≤ 1 =
        λ z.
          let o = short.once z in
          let m = ap (times z) tree ∙ times-build z d red w x y in omega arith in
      let near_s =
        erase_near_red-IsNear s d p v w t x y far zs up short.is_v short.at_t at_x at_y
          (blacks refl).1 short.at_far short.around once in
      let s1 = erase_near_red d p v w s in
      let order : inorder (build d c w (build d black p t x) (build d black v y far))
          ≡ inorder whole =
        inorder-build d c w (build d black p t x) (build d black v y far)
        ∙ ap (λ z. join d w z (inorder (build d black v y far))) (inorder-build d black p t x)
        ∙ ap (λ z. join d w (join d p (inorder t) (inorder x)) z) (inorder-build d black v y far)
        ∙ join_near d p v w (inorder t) (inorder x) (inorder y) (inorder far)
        ∙ ap (λ z. join d p (inorder t) (join d v z (inorder far)))
            (sym (inorder-build d red w x y) ∙ ap inorder (sym tree))
        ∙ ap (λ z. join d p (inorder t) z) (sym (inorder-build d black v near far))
        ∙ sym (inorder-build d c p t (build d black v near far)) in
      rw at_w (
        turned (erase_far_red d p w v s1) w v x y far
          (erase_far_red-Shape s1 d c p w v t x y far zs up short.is_p is_w short.is_v short.link
            near_s.at_t near_s.at_x near_s.at_q near_s.at_y near_s.at_b (near_s.word ∙ short.word)
            near_s.around (λ z. let o = once z in omega arith))
          (subst (λ z. Balanced x z) e_k bal_x) (subst (λ z. Balanced y z) e_k bal_y)
          short.balanced_far order)

  -- Case 2.
  abbrev pub flipped : Store
  flipped = rb_set_parent_color v p 0 s

  abbrev pub low : Tree
  low = build d black p t (build d red v near far)

  pub order_flip : inorder low ≡ inorder whole
  order_flip =
      inorder_same d black c p t t _ _ refl (inorder_same d red black v near near far far refl refl)

  pub Balanced-flip : root_color near ≡ black → root_color far ≡ black → Balanced low (h + 1)
  Balanced-flip b_near b_far =
      Balanced-black d p t (build d red v near far) h short.balanced_t
        (Balanced-red d v near far h b_near b_far short.balanced_near short.balanced_far)

  -- The parent was black: the flip alone.
  pub flip_black : c ≡ black → Shape flipped low p up × Around flipped zs p up
  unfolding rb_set_parent_color
  flip_black e =
      let o_v = short.once v in
      flip-Shape s (put_parent_color v (bit_or p 0) s) d black p v t near far zs up short.is_p
        short.is_v short.at_t short.at_v short.at_near short.at_far short.around short.once
        (let w = short.word ∙ ap (λ x. up + bit_of x) e in ground arith)
        (ground (arith, or_color p red short.is_p.1)) (λ y a b. ground arith) (λ y f. refl) refl

  -- It was red: it becomes black, which ends the run.
  pub flip_red :
      c ≡ red
      → root_color near ≡ black
      → root_color far ≡ black
      → Leaves (some (rb_set_black p flipped)) (inorder (plug zs whole))
  unfolding rb_set_parent_color rb_set_black
  flip_red e b_near b_far =
      let o_v = short.once v in
      let s2 = put_parent_color v (bit_or p 0) s in
      let s3 = put_parent_color p (bit_or (s2.parent_color p) 1) s2 in
      let word : s2.parent_color p ≡ up =
        (let w = short.word ∙ ap (λ x. up + bit_of x) e in ground arith) in
      let (shape, around) =
        flip-Shape s s3 d black p v t near far zs up short.is_p short.is_v short.at_t short.at_v
          short.at_near short.at_far short.around short.once
          (ground (arith, or_color up black short.link, word))
          (ground (arith, or_color p red short.is_p.1)) (λ y a b. ground arith) (λ y f. refl)
          refl in
      finish s3 zs low whole (h + 1) p up shape around (Balanced-flip b_near b_far)
        (subst (λ x. BalancedAround zs x) (ap (λ x. h + 1 + bit_of x) e ∙ omega arith)
          short.balanced)
        short.mended
        (λ r. absurd (black_not_red _ (root_color-build d black p t (build d red v near far)) r))
        order_flip
