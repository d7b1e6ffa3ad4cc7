-- ===== src/MyRbtree/Visit.antt =====
-- The loops of myrbtree.h over a whole tree visit each node once, in the order of the tree.
use mathlib.Core.Path.{subst}
use kernel_porting.Prelude.{
  ℕ, zero, suc, ◌+◌, ◌≤◌, ◌<◌, ◌≡◌, ◌∙◌, refl, sym, ap, arith, List, [], ◌∷◌, ◌++◌, ++_assoc,
  ++_nil, length, length-append, Option, none, some,
}
use kernel_porting.Rbtree.{Side, left, right, other, Store}
use kernel_porting.Rbtree.Shape.{Color, Tree, leaf, node, times, Shape, Frame, plug}
use kernel_porting.Rbtree.Fix.{part}
use kernel_porting.Rbtree.Insert.{IsTree}
use kernel_porting.Rbtree.Insert.Hole.{Shape-unplug}
use kernel_porting.Rbtree.Walk.Ends.{size, walk, ahead}
use kernel_porting.Rbtree.Walk.Loop.{entries, Visits, Visits-nil, Visits-cons}
use kernel_porting.Rbtree.Walk.Next.{first_on, next_on, first_on-walk, next_on-walk}

-- `MY_RBTREE_PREORDER_REMAINING_ENTRIES`, with `d` the left side, and
-- `MY_RBTREE_SORTORDER_REMAINING_ENTRIES`, with the right, for a body that leaves the tree alone: the nodes
-- that the loop visits. `fuel` bounds the rounds, and `steps` each walk to the next node.
unfoldable pub remaining_entries : (steps fuel : ℕ) → Side → (pos : ℕ) → Store → Option (List ℕ)
remaining_entries steps fuel d pos s = entries (λ n. next_on steps d n s) fuel pos

-- `MY_RBTREE_PREORDER_FOR_EACH_ENTRY_SAFE` and `MY_RBTREE_SORTORDER_FOR_EACH_ENTRY_SAFE`
unfoldable pub for_each_entry_safe : (steps fuel : ℕ) → Side → Store → Option (List ℕ)
for_each_entry_safe steps fuel d s = elim (first_on steps d s) [
  | none ↦ none
  | some pos ↦ remaining_entries steps fuel d pos s
]

-- A node of a tree as a place: the part on side `d`, the node, and the part on the other side.
record Middle (d : Side) (zs : List Frame) (c : Color) (l : Tree) (a : ℕ) (r : Tree) : Type 0 where
  near : Frame
  far : Frame
  at_near : plug (near ∷ zs) (part d (node c l a r)) ≡ plug zs (node c l a r)
  at_far : plug (far ∷ zs) (part (other d) (node c l a r)) ≡ plug zs (node c l a r)
  after_near : ahead d (near ∷ zs) ≡ a ∷ (walk d (part (other d) (node c l a r)) ++ ahead d zs)
  after_far : ahead d (far ∷ zs) ≡ ahead d zs
  order :
      walk d (node c l a r)
      ≡ walk d (part d (node c l a r)) ++ a ∷ walk d (part (other d) (node c l a r))
  sizes : size (part d (node c l a r)) + size (part (other d) (node c l a r)) ≡ size l + size r

middle :
    (d : Side) (zs : List Frame) (c : Color) (l : Tree) (a : ℕ) (r : Tree) → Middle d zs c l a r
unfolding plug ahead walk
middle left zs c l a r = record {
  near = record { side = left; color = c; addr = a; sibling = r };
  far = record { side = right; color = c; addr = a; sibling = l };
  at_near = refl;
  at_far = refl;
  after_near = refl;
  after_far = refl;
  order = refl;
  sizes = refl;
}
middle right zs c l a r = record {
  near = record { side = right; color = c; addr = a; sibling = l };
  far = record { side = left; color = c; addr = a; sibling = r };
  at_near = refl;
  at_far = refl;
  after_near = refl;
  after_far = refl;
  order = refl;
  sizes = omega arith;
}

-- When the loop visits what comes after a subtree, it visits the subtree before that.
Visits-walk :
    (s : Store) (d : Side) (steps bound : ℕ) (t : Tree) (zs : List Frame)
    → size t ≤ bound
    → Shape s (plug zs t) s.root 0
    → ((y : ℕ) → times y (plug zs t) ≤ 1)
    → size t + length zs < steps
    → Visits (λ n. next_on steps d n s) (ahead d zs)
    → Visits (λ n. next_on steps d n s) (walk d t ++ ahead d zs)
unfolding walk size
Visits-walk s d steps bound leaf zs less is once enough visits = visits
Visits-walk s d steps zero (node c l a r) zs less is once enough visits = absurd (omega arith)
Visits-walk s d steps (suc bound) (node c l a r) zs less is once enough visits =
    let m = middle d zs c l a r in
    let sizes = m.sizes in
    let (p, q, (e, is_node, pc, is_l, is_r), around) = Shape-unplug s zs (node c l a r) is in
    let whole = λ (y : ℕ) (x : Tree) (same : x ≡ plug zs (node c l a r)).
      subst (λ x. times y x ≤ 1) (sym same) (once y) in
    let far =
      Visits-walk s d steps bound (part (other d) (node c l a r)) (m.far ∷ zs) (omega arith)
        (subst (λ x. Shape s x s.root 0) (sym m.at_far) is) (λ y. whole y _ m.at_far) (omega arith)
        (subst (Visits (λ n. next_on steps d n s)) (sym m.after_far) visits) in
    let rest = walk d (part (other d) (node c l a r)) ++ ahead d zs in
    let step = next_on-walk s d zs c l r a steps is once (omega arith) in
    let here =
      Visits-cons (λ n. next_on steps d n s) a rest is_node.0 step
        (subst
          (λ x. Visits (λ n. next_on steps d n s) (walk d (part (other d) (node c l a r)) ++ x))
          m.after_far far) in
    let near =
      Visits-walk s d steps bound (part d (node c l a r)) (m.near ∷ zs) (omega arith)
        (subst (λ x. Shape s x s.root 0) (sym m.at_near) is) (λ y. whole y _ m.at_near)
        (omega arith) (subst (Visits (λ n. next_on steps d n s)) (sym m.after_near) here) in
    let front = walk d (part d (node c l a r)) in
    subst (Visits (λ n. next_on steps d n s))
      (ap (λ x. front ++ x) m.after_near
        ∙ sym (++_assoc front (a ∷ walk d (part (other d) (node c l a r))) (ahead d zs))
        ∙ ap (λ x. x ++ ahead d zs) (sym m.order))
      near

pub length-walk : (d : Side) (t : Tree) → length (walk d t) ≡ size t
unfolding walk size
length-walk d leaf = refl
length-walk left (node c l a r) =
    length-append (walk left l) (a ∷ walk left r)
    ∙ omega (arith, length-walk left l, length-walk left r)
length-walk right (node c l a r) =
    length-append (walk right r) (a ∷ walk right l)
    ∙ omega (arith, length-walk right l, length-walk right r)

-- In a store that holds a red-black tree, with fuel for each node and one more, the loops end
-- and visit the nodes of the tree in its order from the left or from the right, each once.
pub for_each_entry_safe_lem :
    (s : Store) (d : Side) (t : Tree) (steps fuel : ℕ)
    → IsTree s t
    → size t < steps
    → size t < fuel
    → for_each_entry_safe steps fuel d s ≡ some (walk d t)
unfolding for_each_entry_safe remaining_entries plug ahead
for_each_entry_safe_lem s d t steps fuel is enough rounds =
    let first = first_on-walk s d t steps is.shape (omega arith) in
    let all = subst (Visits (λ n. next_on steps d n s)) (++_nil (walk d t)) (
      Visits-walk s d steps (size t) t [] (omega arith) is.shape is.once (omega arith)
        (Visits-nil (λ n. next_on steps d n s))) in
    let len = length-walk d t in rw (for_each_entry_safe, first) (all fuel (omega arith))
