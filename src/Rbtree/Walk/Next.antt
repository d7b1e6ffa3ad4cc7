-- ===== src/Rbtree/Walk/Next.antt =====
-- `rb_first`, `rb_last`, `rb_next` and `rb_prev` follow the sequence of the tree.
use mathlib.Core.Path.{subst}
use kernel_porting.Prelude.{
  ℕ, ◌+◌, ◌≤◌, ◌<◌, ◌≡◌, ◌≢◌, ◌∙◌, refl, sym, ap, inl, inr, arith, true, false, ◌==◌, List, ◌++◌,
  length, Option, some,
}
use kernel_porting.Rbtree.{Side, left, right, other, Store, rb_empty_node}
use kernel_porting.Rbtree.Shape.{
  Color, red, black, bit_of, Tree, node, times, IsLink, Shape, Frame, Around, times_around, plug,
  times-plug,
}
use kernel_porting.Rbtree.Fix.{part, other-other}
use kernel_porting.Rbtree.Insert.Hole.{Shape-unplug, Around-IsLink}
use kernel_porting.Rbtree.Walk.{go_down, go_up, rb_first, rb_last, rb_next, rb_prev}
use kernel_porting.Rbtree.Walk.Ends.{
  size, walk, ahead, head, leaf_or_node, IsHead-head, go_down-walk, go_up-ahead, parent_apart,
}

-- The walk from one end and the step to a neighbour, by their direction.
abbrev pub first_on : (fuel : ℕ) → Side → Store → Option ℕ
first_on fuel left s = rb_first fuel s
first_on fuel right s = rb_last fuel s

abbrev pub next_on : (fuel : ℕ) → Side → (n : ℕ) → Store → Option ℕ
next_on fuel left n s = rb_next fuel n s
next_on fuel right n s = rb_prev fuel n s

-- In a store that holds a tree, with fuel for each node, `rb_first` leads to the first node of
-- the sequence and `rb_last` to the last, or to NULL in an empty tree.
pub first_on-walk :
    (s : Store) (d : Side) (t : Tree) (fuel : ℕ)
    → Shape s t s.root 0
    → size t ≤ fuel
    → first_on fuel d s ≡ some (head (walk d t))
unfolding rb_first rb_last walk
first_on-walk s left t fuel is enough = elim (leaf_or_node s t s.root 0 is) [
  | inl (z, e) ↦ let test : (s.root == 0) ≡ true = ground arith in rw (test, e) refl
  | inr ne ↦
      let test : (s.root == 0) ≡ false = ground arith in
      let (x, run, (rest, first)) = go_down-walk s left fuel t s.root 0 is ne enough in
      rw (test, first) run
]
first_on-walk s right t fuel is enough = elim (leaf_or_node s t s.root 0 is) [
  | inl (z, e) ↦ let test : (s.root == 0) ≡ true = ground arith in rw (test, e) refl
  | inr ne ↦
      let test : (s.root == 0) ≡ false = ground arith in
      let (x, run, (rest, first)) = go_down-walk s right fuel t s.root 0 is ne enough in
      rw (test, first) run
]

-- The three branches of a step.
step_down :
    (s : Store) (d : Side) (fuel a : ℕ)
    → rb_empty_node a s ≡ false
    → s.child (other d) a ≢ 0
    → next_on fuel d a s ≡ go_down fuel d (s.child (other d) a) s
unfolding rb_next rb_prev
step_down s left fuel a e ne =
    let test : (s.child right a == 0) ≡ false = ground arith in rw (e, test) refl
step_down s right fuel a e ne =
    let test : (s.child left a == 0) ≡ false = ground arith in rw (e, test) refl

step_up :
    (s : Store) (d : Side) (fuel a : ℕ)
    → rb_empty_node a s ≡ false
    → s.child (other d) a ≡ 0
    → next_on fuel d a s ≡ go_up fuel (other d) a s
unfolding rb_next rb_prev
step_up s left fuel a e z =
    let test : (s.child right a == 0) ≡ true = ground arith in rw (e, test) refl
step_up s right fuel a e z =
    let test : (s.child left a == 0) ≡ true = ground arith in rw (e, test) refl

at_side :
    (s : Store) (d : Side) (c : Color) (l r : Tree) (a p q : ℕ)
    → Shape s (node c l a r) p q
    → Shape s (part d (node c l a r)) (s.child d a) a
at_side s left c l r a p q (e, is, pc, is_l, is_r) = is_l
at_side s right c l r a p q (e, is, pc, is_l, is_r) = is_r

size-part :
    (d : Side) (c : Color) (l r : Tree) (a : ℕ) → size (part d (node c l a r)) ≤ size l + size r
size-part left c l r a = omega arith
size-part right c l r a = omega arith

word_apart : (c : Color) (q a w : ℕ) → w ≡ q + bit_of c → q ≢ a → IsLink q → IsLink a → w ≢ a
word_apart red q a w e apart link_q link_a = λ z. apart (omega arith)
word_apart black q a w e apart (even, less) (even_a, less_a) = λ z. absurd (omega arith)

-- In a store that holds a tree in which no address stands twice, with enough fuel for the nodes
-- below and above, `rb_next` and `rb_prev` lead from a node of the tree to the one behind or
-- before it in the sequence, or to NULL at its end.
pub next_on-walk :
    (s : Store) (d : Side) (zs : List Frame) (c : Color) (l r : Tree) (a fuel : ℕ)
    → Shape s (plug zs (node c l a r)) s.root 0
    → ((y : ℕ) → times y (plug zs (node c l a r)) ≤ 1)
    → size l + size r + length zs < fuel
    → next_on fuel d a s ≡ some (head (walk d (part (other d) (node c l a r)) ++ ahead d zs))
unfolding rb_empty_node times walk
next_on-walk s d zs c l r a fuel is once enough =
    let (p, q, at_p, around) = Shape-unplug s zs (node c l a r) is in
    let (e, is_node, pc, is_l, is_r) = at_p in
    let at_a = at_side s (other d) c l r a p q at_p in
    let less = size-part (other d) c l r a in
    let k = times-plug a zs (node c l a r) in
    let o = once a in
    let out : times_around a zs ≡ 0 = ground arith in
    let link = Around-IsLink s zs p q around in
    let apart = parent_apart s zs a p q around is_node.0 out in
    let uneven = word_apart c q a (s.parent_color a) pc apart link is_node.1 in
    let filled : rb_empty_node a s ≡ false = ground arith in
    elim (leaf_or_node s (part (other d) (node c l a r)) (s.child (other d) a) a at_a) [
      | inl (z, none_there) ↦
          step_up s d fuel a filled z
          ∙ go_up-ahead s (other d) fuel zs a q c (omega arith) is_node.0 pc
              (subst (λ x. Around s zs x q) e around) out
              (λ y. let m = times-plug y zs (node c l a r) in let o' = once y in omega arith)
          ∙ ap (λ x. some (head (ahead x zs))) (other-other d)
          ∙ ap (λ x. some (head (walk d x ++ ahead d zs))) (sym none_there)
      | inr ne ↦
          let (x, run, first) =
            go_down-walk s d fuel (part (other d) (node c l a r)) (s.child (other d) a) a at_a ne
              (omega arith) in
          step_down s d fuel a filled ne
          ∙ run
          ∙ ap some
              (sym (IsHead-head (walk d (part (other d) (node c l a r))) (ahead d zs) x first))
    ]
