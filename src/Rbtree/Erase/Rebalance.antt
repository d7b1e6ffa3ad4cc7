-- ===== src/Rbtree/Erase/Rebalance.antt =====
-- `____rb_erase_color` mends a tree in which each way through one subtree is short of a black node.
use mathlib.Core.Path.{subst}
use kernel_porting.Prelude.{
  ℕ, zero, suc, ◌+◌, ◌≤◌, ◌<◌, ◌≡◌, ◌≢◌, ◌∙◌, refl, sym, ap, inl, inr, arith, true, false, not,
  ◌==◌, if◌then◌else◌, List, [], ◌∷◌, length, Option,
}
use kernel_porting.Rbtree.{
  Side, left, right, other, Store, __rb_parent, __rb_color, rb_parent, rb_is_red,
}
use kernel_porting.Rbtree.Shape.{
  Color, red, black, bit_of, Tree, leaf, node, build, inorder, times, IsLink, IsNode, Shape, Frame,
  Around, times_around, plug, root_color, parent_of, color_of, times-build, root_times,
}
use kernel_porting.Rbtree.Fix.{BlackAbove, IsMended, root_color-build}
use kernel_porting.Rbtree.Fix.Balance.{join, inorder-build, plug_same, join_outer}
use kernel_porting.Rbtree.Fix.Heights.{Balanced, BalancedAround, black_not_red}
use kernel_porting.Rbtree.Insert.Hole.{Shape-unbuild, Balanced-unbuild}
use kernel_porting.Rbtree.Erase.{erase_red_sibling, erase_black_sibling, erase_color_loop}
use kernel_porting.Rbtree.Erase.Turn.{erase_red_sibling-Shape}
use kernel_porting.Rbtree.Erase.Recolor.{
  Leaves, as_build, Short, whole, flipped, low, flip_black, order_flip, Balanced-flip,
}
use kernel_porting.Rbtree.Erase.Loop.{black_round}

-- Which side the node is on.
which_side :
    (s : Store) (d : Side) (t sib : Tree) (p q h : ℕ)
    → s.child d q ≡ p
    → Shape s t p q
    → Shape s sib (s.child (other d) q) q
    → Balanced sib (h + 1)
    → ((y : ℕ) → times y t + times y sib ≤ 1)
    → (if not (p == s.child right q) then left else right) ≡ d
which_side s right t sib p q h here at_t at_sib tall once =
    let e : (p == s.child right q) ≡ true = ground arith in rw e refl
which_side s left t leaf p q h here at_t at_sib tall once = absurd (omega arith)
which_side s left t (node c l a r) p q h here at_t at_sib tall once =
    let apart : p ≢ s.child right q = λ e.
      let ne : p ≢ 0 = λ z. at_sib.1.0 (sym at_sib.0 ∙ sym e ∙ z) in
      let in_t = root_times s t p q at_t ne in
      let in_sib = root_times s (node c l a r) (s.child right q) q at_sib (λ z. ne (e ∙ z)) in
      let in_sib' = subst (λ x. 1 ≤ times x (node c l a r)) (sym e) in_sib in
      let o = once p in absurd (omega arith) in
    let e : (p == s.child right q) ≡ false = ground arith in rw e refl

-- The next round, from `q`.
abbrev rest_of : (fuel q : ℕ) → Store → Option Store
rest_of fuel q s = erase_color_loop fuel q (rb_parent q s) s

module _ (fuel p q : ℕ) (d : Side) (s : Store)
    (side : (if not (p == s.child right q) then left else right) ≡ d) where
  round_black :
      (v : ℕ)
      → s.child (other d) q ≡ v
      → rb_is_red v s ≡ false
      → erase_color_loop (suc fuel) p q s ≡ erase_black_sibling d q v s (rest_of fuel q)
  unfolding erase_color_loop
  round_black v at_v test = rw (side, at_v, test) refl

  round_red :
      (v w : ℕ)
      → s.child (other d) q ≡ v
      → rb_is_red v s ≡ true
      → s.child d v ≡ w
      → erase_color_loop (suc fuel) p q s
        ≡ erase_black_sibling d q w (erase_red_sibling d q v s) (rest_of fuel q)
  unfolding erase_color_loop
  round_red v w at_v test at_w = rw (side, at_v, test, at_w) refl

color_test :
    (s : Store) (c : Color) (v q : ℕ)
    → IsLink q
    → s.parent_color v ≡ q + bit_of c
    → rb_is_red v s ≡ (bit_of c == 0)
color_test s c v q link word = let k = ap __rb_color word ∙ color_of q c link in ground arith

tall_build :
    (d : Side) (t : Tree) (h : ℕ)
    → Balanced t (h + 1)
    → (c : Color) × (a : ℕ) × (near : Tree) × (far : Tree) × (t ≡ build d c a near far)
tall_build d t h tall = elim (as_build d t) [
  | inl e ↦ absurd (let z = subst (λ x. Balanced x (h + 1)) e tall in omega arith)
  | inr b ↦ b
]

-- After the rotation of case 1 the node is short below a red parent, with a black sibling.
red-Short :
    (s : Store) (d : Side) (p v w : ℕ) (t near far n1 n2 : Tree) (zs : List Frame) (up h : ℕ)
    → near ≡ build d black w n1 n2
    → IsNode p
    → IsNode v
    → IsLink up
    → Shape s t (s.child d p) p
    → Shape s near (s.child d v) v
    → Shape s far (s.child (other d) v) v
    → s.parent_color p ≡ up + 1
    → Around s zs p up
    → ((y : ℕ)
        → times y t
            + times y near
            + times y far
            + (if y == p then 1 else 0)
            + (if y == v then 1 else 0)
            + times_around y zs
          ≤ 1)
    → Balanced t h
    → Balanced near (h + 1)
    → Balanced far (h + 1)
    → BalancedAround zs (h + 1 + 1)
    → IsMended zs
    → let g : Frame = record { side = d; color = black; addr = v; sibling = far } in
      (s.child d v ≡ w) × Short (erase_red_sibling d p v s) d red p w t n1 n2 (g ∷ zs) v h
unfolding times_around
red-Short s d p v w t near far n1 n2 zs up h tree is_p is_v link at_t at_near at_far word around
      once tall_t tall_near tall_far tall mended =
    let (at_w, is_w, word_w, w_near, w_far) =
      Shape-unbuild s d black w n1 n2 (s.child d v) v
        (subst (λ x. Shape s x (s.child d v) v) tree at_near) in
    let s1 = erase_red_sibling d p v s in
    let black_near = ap root_color tree ∙ root_color-build d black w n1 n2 in
    let (shape, above) =
      erase_red_sibling-Shape s d p v t near far zs up is_p is_v link at_t at_near
        (λ z. is_w.0 (sym at_w ∙ z)) black_near at_far word around once in
    let (e, is_v', word_v, at_low, at_far') =
      Shape-unbuild s1 d black v (build d red p t near) far v up shape in
    let (hole, is_p', word_p, at_t', at_near') =
      Shape-unbuild s1 d red p t near (s1.child d v) v at_low in
    let (at_w', is_w', word_w', at_n1, at_n2) =
      Shape-unbuild s1 d black w n1 n2 (s1.child (other d) p) p
        (subst (λ x. Shape s1 x (s1.child (other d) p) p) tree at_near') in
    let (k, height, tall_n1, tall_n2, blacks) =
      Balanced-unbuild d black w n1 n2 (h + 1) (subst (λ x. Balanced x (h + 1)) tree tall_near) in
    let e_k : k ≡ h = omega arith in
    let flat : h + 1 ≡ h + 1 + 0 = omega arith in
    (
      at_w,
      record {
        is_p = is_p;
        is_v = is_w;
        link = is_v.1;
        at_t = at_t';
        at_v = at_w';
        at_near = at_n1;
        at_far = at_n2;
        word = word_p;
        around = (refl, is_v, hole, at_far', up, link, word_v, above);
        once = λ y.
            let o = once y in
            let m = ap (times y) tree ∙ times-build y d black w n1 n2 in omega arith;
        balanced_t = tall_t;
        balanced_near = subst (λ x. Balanced n1 x) e_k tall_n1;
        balanced_far = subst (λ x. Balanced n2 x) e_k tall_n2;
        balanced = (
          subst (λ x. Balanced far x) flat tall_far,
          subst (λ x. BalancedAround zs (x + 1)) flat tall,
        );
        mended = ((λ r. absurd (black_not_red black refl r)), mended);
        above = λ r. refl;
      },
    )

-- The loop ends, and the store then holds a red-black tree with the same sequence.
abbrev pub Ends : (fuel : ℕ) → Type 0
Ends fuel =
    (s : Store) (t : Tree) (p q : ℕ) (f : Frame) (zs : List Frame) (h : ℕ)
    → length zs < fuel
    → Shape s t p q
    → Around s (f ∷ zs) p q
    → ((y : ℕ) → times y t + times_around y (f ∷ zs) ≤ 1)
    → Balanced t h
    → Balanced f.sibling (h + 1)
    → BalancedAround zs (h + 1 + bit_of f.color)
    → IsMended (f ∷ zs)
    → Leaves (erase_color_loop fuel p q s) (inorder (plug (f ∷ zs) t))

-- After the flip below a black node, the node above is short.
climb_on :
    (fuel : ℕ) (s : Store) (d : Side) (c : Color) (p v : ℕ) (t near far : Tree) (zs : List Frame)
    (up h : ℕ)
    → (short : Short s d c p v t near far zs up h) → Ends fuel
    → length zs < suc fuel
    → c ≡ black
    → up ≢ 0
    → root_color near ≡ black
    → root_color far ≡ black
    → Leaves
        (rest_of fuel p (flipped s d c p v t near far zs up h short))
        (inorder (plug zs (whole s d c p v t near far zs up h short)))
unfolding times_around plug
climb_on fuel s d c p v t near far [] up h short ih enough black_c ne b_near b_far =
    absurd (ne short.around.1)
climb_on fuel s d c p v t near far (g ∷ zs) up h short ih enough black_c ne b_near b_far =
    let s1 = flipped s d c p v t near far (g ∷ zs) up h short in
    let tree = low s d c p v t near far (g ∷ zs) up h short in
    let (shape, around) = flip_black s d c p v t near far (g ∷ zs) up h short black_c in
    let (e, is_p, word, at_t, at_v) =
      Shape-unbuild s1 d black p t (build d red v near far) p up shape in
    let over = ap __rb_parent word ∙ parent_of up black short.link in
    let deep : h + 1 + bit_of c ≡ h + 1 + 1 = ap (λ x. h + 1 + bit_of x) black_c in
    let (s', t', run, done, is_rb, order) =
      ih s1 tree p up g zs (h + 1) (omega arith) shape around
        (λ y.
          let o = short.once y in
          let m = times-build y d black p t (build d red v near far) in
          let m' = times-build y d red v near far in omega arith)
        (Balanced-flip s d c p v t near far (g ∷ zs) up h short b_near b_far)
        (subst (λ x. Balanced g.sibling x) deep short.balanced.0)
        (subst (λ x. BalancedAround zs (x + bit_of g.color)) deep short.balanced.1) short.mended in
    (
      s',
      t',
      ap (λ x. erase_color_loop fuel p x s1) over ∙ run,
      done,
      is_rb,
      order
          ∙ plug_same (g ∷ zs) tree (whole s d c p v t near far (g ∷ zs) up h short)
              (order_flip s d c p v t near far (g ∷ zs) up h short),
    )

-- One round, by the colour of the sibling.
one_round :
    (fuel : ℕ) (s : Store) (d : Side) (c b : Color) (n p v : ℕ) (t near far : Tree)
    (zs : List Frame) (up h : ℕ)
    → Ends fuel
    → (if not (n == s.child right p) then left else right) ≡ d
    → length zs < suc fuel
    → IsNode p
    → IsLink up
    → Shape s t (s.child d p) p
    → Shape s (build d b v near far) (s.child (other d) p) p
    → s.parent_color p ≡ up + bit_of c
    → Around s zs p up
    → ((y : ℕ)
        → times y t
            + times y near
            + times y far
            + (if y == p then 1 else 0)
            + (if y == v then 1 else 0)
            + times_around y zs
          ≤ 1)
    → Balanced t h
    → Balanced (build d b v near far) (h + 1)
    → BalancedAround zs (h + 1 + bit_of c)
    → (c ≡ red → BlackAbove zs × (b ≡ black))
    → IsMended zs
    → Leaves
        (erase_color_loop (suc fuel) n p s)
        (inorder (plug zs (build d c p t (build d b v near far))))
unfolding plug
one_round fuel s d c black n p v t near far zs up h ih side enough is_p link at_t at_sib pc above
      once tall_t tall_sib tall mended more =
    let (at_v, is_v, word_v, at_near, at_far) =
      Shape-unbuild s d black v near far (s.child (other d) p) p at_sib in
    let (k, height, tall_near, tall_far, blacks) =
      Balanced-unbuild d black v near far (h + 1) tall_sib in
    let e_k : k ≡ h = omega arith in
    let short : Short s d c p v t near far zs up h = record {
      is_p = is_p;
      is_v = is_v;
      link = link;
      at_t = at_t;
      at_v = at_v;
      at_near = at_near;
      at_far = at_far;
      word = pc;
      around = above;
      once = once;
      balanced_t = tall_t;
      balanced_near = subst (λ x. Balanced near x) e_k tall_near;
      balanced_far = subst (λ x. Balanced far x) e_k tall_far;
      balanced = tall;
      mended = more;
      above = λ r. (mended r).0;
    } in
    subst (λ r. Leaves r (inorder (plug zs (build d c p t (build d black v near far)))))
      (sym (round_black fuel n p d s side v at_v (color_test s black v p is_p.1 word_v)))
      (black_round s d c p v t near far zs up h short (rest_of fuel p)
        (climb_on fuel s d c p v t near far zs up h short ih enough))
one_round fuel s d red red n p v t near far zs up h ih side enough is_p link at_t at_sib pc above
      once tall_t tall_sib tall mended more =
    absurd (black_not_red red (mended refl).1 refl)
one_round fuel s d black red n p v t near far zs up h ih side enough is_p link at_t at_sib pc above
      once tall_t tall_sib tall mended more =
    let (at_v, is_v, word_v, at_near, at_far) =
      Shape-unbuild s d red v near far (s.child (other d) p) p at_sib in
    let (k, height, tall_near, tall_far, blacks) =
      Balanced-unbuild d red v near far (h + 1) tall_sib in
    let e_k : k ≡ h + 1 = omega arith in
    let tall_near' = subst (λ x. Balanced near x) e_k tall_near in
    let (b2, w, n1, n2, tree2) = tall_build d near h tall_near' in
    let black_b2 =
      sym (root_color-build d b2 w n1 n2) ∙ ap root_color (sym tree2) ∙ (blacks refl).0 in
    let (at_w, short) =
      red-Short s d p v w t near far n1 n2 zs up h (tree2 ∙ ap (λ x. build d x w n1 n2) black_b2)
        is_p is_v link at_t at_near at_far pc above once tall_t tall_near'
        (subst (λ x. Balanced far x) e_k tall_far) tall more in
    let g : Frame = record { side = d; color = black; addr = v; sibling = far } in
    let tree : near ≡ build d black w n1 n2 = tree2 ∙ ap (λ x. build d x w n1 n2) black_b2 in
    let order : inorder (build d black v (build d red p t (build d black w n1 n2)) far)
        ≡ inorder (build d black p t (build d red v near far)) =
      inorder-build d black v (build d red p t (build d black w n1 n2)) far
      ∙ ap (λ x. join d v x (inorder far)) (inorder-build d red p t (build d black w n1 n2))
      ∙ ap (λ x. join d v (join d p (inorder t) (inorder x)) (inorder far)) (sym tree)
      ∙ sym (join_outer d p v (inorder t) (inorder near) (inorder far))
      ∙ ap (λ x. join d p (inorder t) x) (sym (inorder-build d red v near far))
      ∙ sym (inorder-build d black p t (build d red v near far)) in
    let s1 = erase_red_sibling d p v s in
    subst (λ r. Leaves r (inorder (plug zs (build d black p t (build d red v near far)))))
      (sym (round_red fuel n p d s side v w at_v (color_test s red v p is_p.1 word_v) at_w))
      (subst (λ x. Leaves (erase_black_sibling d p w s1 (rest_of fuel p)) x)
        (plug_same zs _ _ order)
        (black_round s1 d red p w t n1 n2 (g ∷ zs) v h short (rest_of fuel p)
          (λ r. absurd (black_not_red red r refl))))

pub erase_color_loop-Ends : (fuel : ℕ) → Ends fuel
unfolding times_around plug
erase_color_loop-Ends zero s t p q f zs h enough at_t around once tall_t tall_f tall
      (mended, more) =
    absurd (omega arith)
erase_color_loop-Ends (suc fuel) s t p q f zs h enough at_t
      (e, is_f, hole, at_sib, up, link, pc, above) once tall_t tall_f tall (mended, more) =
    let d = f.side in
    let at_f = subst (λ x. Shape s t p x) e at_t in
    let side =
      which_side s d t f.sibling p f.addr h hole at_f at_sib tall_f
        (λ y. let o = once y in omega arith) in
    let (b, v, near, far, tree) = tall_build d f.sibling h tall_f in
    subst
      (λ x.
        Leaves (erase_color_loop (suc fuel) p x s)
          (inorder (plug zs (build d f.color f.addr t f.sibling))))
      (sym e)
      (subst
        (λ x.
          Leaves (erase_color_loop (suc fuel) p f.addr s)
            (inorder (plug zs (build d f.color f.addr t x))))
        (sym tree)
        (one_round fuel s d f.color b p f.addr v t near far zs up h (erase_color_loop-Ends fuel)
          side enough is_f link (subst (λ x. Shape s t x f.addr) (sym hole) at_f)
          (subst (λ x. Shape s x (s.child (other d) f.addr) f.addr) tree at_sib) pc above
          (λ y.
            let o = once y in
            let m = ap (times y) tree ∙ times-build y d b v near far in omega arith)
          tall_t (subst (λ x. Balanced x (h + 1)) tree tall_f) tall
          (λ r. (
            (mended r).0,
            sym (root_color-build d b v near far) ∙ ap root_color (sym tree) ∙ (mended r).1,
          ))
          more))
