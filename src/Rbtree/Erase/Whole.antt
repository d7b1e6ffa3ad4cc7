-- ===== src/Rbtree/Erase/Whole.antt =====
-- `__rb_erase_augmented` on a node with two children of a whole tree.
use mathlib.Core.Path.{subst}
use Prim.{tt}
use kernel_porting.Prelude.{
  ℕ, ◌+◌, ◌≤◌, ◌<◌, ◌≡◌, ◌≢◌, ◌∙◌, refl, sym, ap, inl, inr, arith, false, ◌==◌, if◌then◌else◌, List,
  [], ◌∷◌, ◌++◌, some,
}
use kernel_porting.Rbtree.{left, right, Store}
use kernel_porting.Rbtree.Shape.{
  Color, bit_of, Tree, leaf, node, times, IsNode, Shape, Frame, Around, times_around, plug,
  times-plug,
}
use kernel_porting.Rbtree.Fix.Heights.{IsRedBlack}
use kernel_porting.Rbtree.Walk.Ends.{size, leaf_or_node}
use kernel_porting.Rbtree.Erase.{find_successor, erase_both_end, erase_both, rebalance_from}
use kernel_porting.Rbtree.Erase.Recolor.{Leaves, as_build}
use kernel_porting.Rbtree.Erase.Descend.{find_successor-Leftmost}
use kernel_porting.Rbtree.Erase.Both.{with_left, Taken, both_end-Leaves}
use kernel_porting.Rbtree.Erase.Far.{lifted, lifted-Taken}
use kernel_porting.Rbtree.Erase.Order.{plug-++, without, successor_order, length-size, length_same}

-- The node `a` of a tree, with the subtrees `l` and `r`, below the frames `zs`.
pub record Found (s : Store) (zs : List Frame) (c : Color) (a : ℕ) (l r : Tree) (q : ℕ)
    : Type 0 where
  pub is_a : IsNode a
  pub word : s.parent_color a ≡ q + bit_of c
  pub at_l : Shape s l (s.child left a) a
  pub at_r : Shape s r (s.child right a) a
  pub around : Around s zs a q
  pub once : (z : ℕ) → times z l + (if z == a then 1 else 0) + times z r + times_around z zs ≤ 1
  pub red_black : IsRedBlack (plug zs (node c l a r))

erase_both-near :
    (fuel a ch : ℕ) (s : Store)
    → s.child right a ≡ ch
    → s.child left ch ≡ 0
    → erase_both fuel a s ≡ some (erase_both_end a ch ch (s.child right ch) s)
unfolding erase_both
erase_both-near fuel a ch s e z = rw (e, z) refl

erase_both-far :
    (fuel a ch parent y : ℕ) (s : Store)
    → s.child right a ≡ ch
    → s.child left ch ≢ 0
    → find_successor fuel ch (s.child left ch) s ≡ some (parent, y)
    → erase_both fuel a s
      ≡ some (erase_both_end a y parent (s.child right y) (lifted parent y ch s))
unfolding erase_both
erase_both-far fuel a ch parent y s e ne run =
    let k : (s.child left ch == 0) ≡ false = ground arith in rw (e, k, run) refl

module _ (fuel : ℕ) (s : Store) (zs : List Frame) (c : Color) (a : ℕ) (l r : Tree) (q : ℕ)
    (found : Found s zs c a l r q) (has_l : s.child left a ≢ 0)
    (enough : size (plug zs (node c l a r)) < fuel) where
  -- The successor is the right child.
  near-Leaves :
      (cr : Color) (ch : ℕ) (t : Tree)
      → r ≡ node cr leaf ch t
      → Leaves (rebalance_from fuel (erase_both fuel a s)) (without zs l r)
  unfolding plug times size times_around
  near-Leaves cr ch t tree =
      let (e, is_ch, word_ch, no_l, at_t) =
        subst (λ x. Shape s x (s.child right a) a) tree found.at_r in
      let taken : Taken s a ch l t [] zs q (s.child right ch) ch (s.child right ch) a c cr =
        record {
          is_a = found.is_a;
          is_y = is_ch;
          at_l = found.at_l;
          has_l = has_l;
          word_a = found.word;
          around = found.around;
          span = (refl, refl);
          at_right = refl;
          at_t = at_t;
          link = found.is_a.1;
          word_y = word_ch;
        } in
      let once : (z : ℕ)
          → times z l + (if z == a then 1 else 0) + times z (node cr leaf ch t) + times_around z zs
            ≤ 1 =
        subst
          (λ x. (z : ℕ) → times z l + (if z == a then 1 else 0) + times z x + times_around z zs ≤ 1)
          tree found.once in
      let big = length-size zs (node c l a r) in
      subst (λ x. Leaves (rebalance_from fuel x) (without zs l r))
        (sym (erase_both-near fuel a ch s e no_l))
        (subst
          (λ x. Leaves (rebalance_from fuel (some (erase_both_end a ch ch (s.child right ch) s))) x)
          (successor_order [] zs c cr ch l t tt ∙ ap (without zs l) (sym tree))
          (both_end-Leaves fuel s a ch l t [] zs q (s.child right ch) ch (s.child right ch) a c cr
            taken (λ z. let o = once z in omega arith)
            (subst (λ x. IsRedBlack (plug zs (node c l a x))) tree found.red_black) (omega arith)))

  -- The successor is the leftmost node below the right child.
  far-Leaves :
      (cr : Color) (ch : ℕ) (rl rr : Tree)
      → r ≡ node cr rl ch rr
      → s.child left ch ≢ 0
      → Leaves (rebalance_from fuel (erase_both fuel a s)) (without zs l r)
  unfolding plug times size
  far-Leaves cr ch rl rr tree has =
      let (e, is_ch, word_ch, at_rl, at_rr) =
        subst (λ x. Shape s x (s.child right a) a) tree found.at_r in
      let f0 : Frame = record { side = left; color = cr; addr = ch; sibling = rr } in
      let big = length-size zs (node c l a r) in
      let size_r = ap size tree in
      let lm =
        find_successor-Leftmost s fuel rl (s.child left ch) ch f0 [] a ch at_rl has (omega arith)
          (refl, is_ch, refl, at_rr, a, found.is_a.1, word_ch, (refl, refl)) (refl, tt) in
      let f = lm.f in
      let ws = lm.ws in
      let y = lm.y in
      let t = lm.right_of in
      let cy = lm.color in
      let whole : plug (f ∷ ws) (node cy leaf y t) ≡ r = lm.tree ∙ sym tree in
      let once : (z : ℕ)
          → times z l
              + (if z == a then 1 else 0)
              + (if z == y then 1 else 0)
              + times z t
              + times_around z (f ∷ ws)
              + times_around z zs
            ≤ 1 =
        λ z.
          let o = found.once z in
          let m = ap (times z) whole in
          let n = times-plug z (f ∷ ws) (node cy leaf y t) in omega arith in
      let taken =
        lifted-Taken s a y ch l t f ws zs q c cy found.is_a lm.is_y found.at_l has_l found.word
          found.around lm.span lm.is_left.0 is_ch.0 lm.at_right lm.word once in
      let frames = (f ∷ ws) ++ with_left c a l ∷ zs in
      let all : plug frames (node cy leaf y t) ≡ plug zs (node c l a r) =
        plug-++ (f ∷ ws) (with_left c a l ∷ zs) (node cy leaf y t)
        ∙ ap (λ x. plug zs (node c l a x)) whole in
      let same = length_same (f ∷ ws) zs (with_left c a l) (with_left c y l) in
      let high = length-size frames (node cy leaf y t) in
      let size_all = ap size all in
      subst (λ x. Leaves (rebalance_from fuel x) (without zs l r))
        (sym (erase_both-far fuel a ch f.addr y s e has lm.run))
        (subst
          (λ x.
            Leaves
              (rebalance_from fuel
                (some (erase_both_end a y f.addr (s.child right y) (lifted f.addr y ch s))))
              x)
          (successor_order (f ∷ ws) zs c cy y l t lm.is_left ∙ ap (without zs l) whole)
          (both_end-Leaves fuel (lifted f.addr y ch s) a y l t (f ∷ ws) zs q (s.child right y)
            f.addr ch f.addr c cy taken (λ z. let o = once z in omega arith)
            (subst IsRedBlack (sym all) found.red_black) (omega arith)))

  pub erase_both-Leaves :
      s.child right a ≢ 0 → Leaves (rebalance_from fuel (erase_both fuel a s)) (without zs l r)
  erase_both-Leaves has_r = elim (as_build left r) [
    | inl tree ↦ absurd (has_r (subst (λ x. Shape s x (s.child right a) a) tree found.at_r))
    | inr (cr, ch, rl, rr, tree) ↦
        let (e, is_ch, word_ch, at_rl, at_rr) =
          subst (λ x. Shape s x (s.child right a) a) tree found.at_r in
        elim (leaf_or_node s rl (s.child left ch) ch at_rl) [
          | inl (no_left, no_tree) ↦ near-Leaves cr ch rr (tree ∙ ap (λ x. node cr x ch rr) no_tree)
          | inr has ↦ far-Leaves cr ch rl rr tree has
        ]
  ]
