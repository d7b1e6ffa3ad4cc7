-- ===== src/Rbtree/Walk/Postorder.antt =====
-- The postorder walk: each node after all below it.
use mathlib.Core.Path.{subst}
use kernel_porting.Prelude.{
  ℕ, zero, suc, ◌+◌, ◌≤◌, ◌<◌, ◌≡◌, ◌≢◌, ◌∙◌, refl, sym, ap, inl, inr, arith, true, false, not,
  ◌&&◌, ◌==◌, List, [], ◌∷◌, ◌++◌, ++_assoc, ++_nil, length, length-append, Option, none, some,
}
use kernel_porting.Rbtree.{Side, left, right, other, Store, __rb_parent, rb_parent}
use kernel_porting.Rbtree.Shape.{
  Color, Tree, leaf, node, build, times, Shape, Frame, times_around, plug, parent_of, root_apart,
  times-plug,
}
use kernel_porting.Rbtree.Fix.{Side-cases}
use kernel_porting.Rbtree.Insert.{IsTree}
use kernel_porting.Rbtree.Insert.Hole.{Shape-unplug, Around-IsLink}
use kernel_porting.Rbtree.Walk.{rb_left_deepest_node, rb_next_postorder, rb_first_postorder}
use kernel_porting.Rbtree.Walk.Ends.{size, head, leaf_or_node, IsHead, IsHead-++, IsHead-head}
use kernel_porting.Rbtree.Walk.Loop.{entries, Visits, Visits-nil, Visits-cons}

unfoldable pub postorder : Tree → List ℕ
postorder leaf = []
postorder (node c l a r) = postorder l ++ (postorder r ++ a ∷ [])

-- What comes after a subtree in postorder.
abbrev behind_at : Side → ℕ → (sib rest : List ℕ) → List ℕ
behind_at left a sib rest = sib ++ a ∷ rest
behind_at right a sib rest = a ∷ rest

unfoldable behind : List Frame → List ℕ
behind [] = []
behind (f ∷ zs) = behind_at f.side f.addr (postorder f.sibling) (behind zs)

-- `rbtree_postorder_for_each_entry_safe`
unfoldable pub postorder_for_each_entry_safe : (steps fuel : ℕ) → Store → Option (List ℕ)
postorder_for_each_entry_safe steps fuel s = elim (rb_first_postorder steps s) [
  | none ↦ none
  | some pos ↦ entries (λ n. rb_next_postorder steps n s) fuel pos
]

module _ (s : Store) (fuel p : ℕ) where
  deepest_left :
      s.child left p ≢ 0
      → rb_left_deepest_node (suc fuel) p s ≡ rb_left_deepest_node fuel (s.child left p) s
  unfolding rb_left_deepest_node
  deepest_left ne = let e : (s.child left p == 0) ≡ false = ground arith in rw e refl

  deepest_right :
      s.child left p ≡ 0
      → s.child right p ≢ 0
      → rb_left_deepest_node (suc fuel) p s ≡ rb_left_deepest_node fuel (s.child right p) s
  unfolding rb_left_deepest_node
  deepest_right z ne =
      let a : (s.child left p == 0) ≡ true = ground arith in
      let b : (s.child right p == 0) ≡ false = ground arith in rw (a, b) refl

  deepest_here :
      s.child left p ≡ 0 → s.child right p ≡ 0 → rb_left_deepest_node (suc fuel) p s ≡ some p
  unfolding rb_left_deepest_node
  deepest_here z z' =
      let a : (s.child left p == 0) ≡ true = ground arith in
      let b : (s.child right p == 0) ≡ true = ground arith in rw (a, b) refl

-- The deepest node on the left is the first of its subtree.
rb_left_deepest_node-IsHead :
    (s : Store) (fuel : ℕ) (t : Tree) (p q : ℕ)
    → Shape s t p q
    → p ≢ 0
    → size t ≤ fuel
    → (x : ℕ) × (rb_left_deepest_node fuel p s ≡ some x) × IsHead (postorder t) x
unfolding postorder size
rb_left_deepest_node-IsHead s fuel leaf p q is ne enough = absurd (ne is)
rb_left_deepest_node-IsHead s zero (node c l a r) p q is ne enough = absurd (omega arith)
rb_left_deepest_node-IsHead s (suc fuel) (node c l a r) p q (e, is_node, pc, at_l, at_r) ne enough =
    rw e (elim (leaf_or_node s l (s.child left a) a at_l) [
      | inr ne_l ↦
          let (x, run, first) =
            rb_left_deepest_node-IsHead s fuel l (s.child left a) a at_l ne_l (omega arith) in
          (
            x,
            deepest_left s fuel a ne_l ∙ run,
            IsHead-++ (postorder l) (postorder r ++ a ∷ []) x first,
          )
      | inl (z, leaf_l) ↦ elim (leaf_or_node s r (s.child right a) a at_r) [
        | inr ne_r ↦
            let (x, run, first) =
              rb_left_deepest_node-IsHead s fuel r (s.child right a) a at_r ne_r (omega arith) in
            (
              x,
              deepest_right s fuel a z ne_r ∙ run,
              subst (λ y. IsHead (postorder y ++ (postorder r ++ a ∷ [])) x) (sym leaf_l)
                  (IsHead-++ (postorder r) (a ∷ []) x first),
            )
        | inl (z', leaf_r) ↦ (
          a,
          deepest_here s fuel a z z',
          subst (λ y. IsHead (postorder y ++ (postorder r ++ a ∷ [])) a) (sym leaf_l)
              (subst (λ y. IsHead (postorder y ++ a ∷ []) a) (sym leaf_r) ([], refl)),
        )
      ]
    ])

next_parent :
    (s : Store) (fuel a q : ℕ)
    → a ≢ 0
    → rb_parent a s ≡ q
    → (q ≢ 0 → a ≡ s.child left q → s.child right q ≡ 0)
    → rb_next_postorder fuel a s ≡ some q
unfolding rb_next_postorder
next_parent s fuel a q ne above done =
    let x : (a == 0) ≡ false = ground arith in
    let y : (not (q == 0) && (a == s.child left q) && not (s.child right q == 0)) ≡ false =
      ground arith in
    rw (above, x, y) refl

next_deepest :
    (s : Store) (fuel a q : ℕ)
    → a ≢ 0
    → rb_parent a s ≡ q
    → q ≢ 0
    → a ≡ s.child left q
    → s.child right q ≢ 0
    → rb_next_postorder fuel a s ≡ rb_left_deepest_node fuel (s.child right q) s
unfolding rb_next_postorder
next_deepest s fuel a q ne above ne_q here ne_r =
    let x : (a == 0) ≡ false = ground arith in
    let y : (not (q == 0) && (a == s.child left q) && not (s.child right q == 0)) ≡ true =
      ground arith in
    rw (above, x, y) refl

pub size-build :
    (d : Side) (c : Color) (a : ℕ) (near far : Tree)
    → size (build d c a near far) ≡ size near + 1 + size far
unfolding size
size-build left c a near far = refl
size-build right c a near far = omega arith

pub size-plug : (zs : List Frame) (t : Tree) → size t ≤ size (plug zs t)
unfolding plug
size-plug [] t = omega arith
size-plug (f ∷ zs) t =
    let k = size-plug zs (build f.side f.color f.addr t f.sibling) in
    let m = size-build f.side f.color f.addr t f.sibling in omega arith

-- A subtree `t` at `a` beside a hole's tree, by the side that it is on.
next_from :
    (s : Store) (f : Frame) (zs : List Frame) (a fuel : ℕ)
    → a ≢ 0
    → rb_parent a s ≡ f.addr
    → f.addr ≢ 0
    → s.child f.side f.addr ≡ a
    → Shape s f.sibling (s.child (other f.side) f.addr) f.addr
    → times a f.sibling ≡ 0
    → size f.sibling ≤ fuel
    → rb_next_postorder fuel a s ≡ some (head (behind (f ∷ zs)))
unfolding behind postorder
next_from s f zs a fuel ne above ne_f hole sib off enough = elim (Side-cases f.side left) [
  | inl on_left ↦
      let here = subst (λ d. s.child d f.addr ≡ a) on_left hole in
      let at_sib = subst (λ d. Shape s f.sibling (s.child (other d) f.addr) f.addr) on_left sib in
      (elim (leaf_or_node s f.sibling (s.child right f.addr) f.addr at_sib) [
        | inl (z, leaf_sib) ↦
            next_parent s fuel a f.addr ne above (λ k same. z)
            ∙ ap (λ x. some (head (postorder x ++ f.addr ∷ behind zs))) (sym leaf_sib)
        | inr ne_sib ↦
            let (x, run, first) =
              rb_left_deepest_node-IsHead s fuel f.sibling (s.child right f.addr) f.addr at_sib
                ne_sib enough in
            next_deepest s fuel a f.addr ne above ne_f (sym here) ne_sib
            ∙ run
            ∙ ap some (sym (IsHead-head (postorder f.sibling) (f.addr ∷ behind zs) x first))
      ])
      ∙ ap (λ d. some (head (behind_at d f.addr (postorder f.sibling) (behind zs)))) (sym on_left)
  | inr on_right ↦
      let at_sib = subst (λ d. Shape s f.sibling (s.child (other d) f.addr) f.addr) on_right sib in
      next_parent s fuel a f.addr ne above (λ k same. absurd (
        root_apart s f.sibling (s.child left f.addr) f.addr at_sib a off (λ z. ne (same ∙ z)) same))
      ∙ ap (λ d. some (head (behind_at d f.addr (postorder f.sibling) (behind zs)))) (sym on_right)
]

-- From a node, the next one in postorder.
next_postorder-behind :
    (s : Store) (zs : List Frame) (c : Color) (l r : Tree) (a fuel : ℕ)
    → Shape s (plug zs (node c l a r)) s.root 0
    → ((y : ℕ) → times y (plug zs (node c l a r)) ≤ 1)
    → size (plug zs (node c l a r)) ≤ fuel
    → (a ≢ 0) × (rb_next_postorder fuel a s ≡ some (head (behind zs)))
unfolding times times_around behind plug
next_postorder-behind s [] c l r a fuel is once enough =
    let (p, q, (e, is_node, pc, at_l, at_r), (root, z)) = Shape-unplug s [] (node c l a r) is in
    let above = ap __rb_parent pc ∙ parent_of q c (Around-IsLink s [] p q (root, z)) in
    (is_node.0, next_parent s fuel a q is_node.0 above (λ ne. absurd (ne z)) ∙ ap some z)
next_postorder-behind s (f ∷ zs) c l r a fuel is once enough =
    let (p, q, (e, is_node, pc, at_l, at_r), around) = Shape-unplug s (f ∷ zs) (node c l a r) is in
    let (e_f, is_f, hole, sib, up, link, pc_f, more) = around in
    let above = ap __rb_parent pc ∙ parent_of q c (Around-IsLink s (f ∷ zs) p q around) ∙ e_f in
    let o = once a in
    let k = times-plug a (f ∷ zs) (node c l a r) in
    let big = size-plug zs (build f.side f.color f.addr (node c l a r) f.sibling) in
    let m = size-build f.side f.color f.addr (node c l a r) f.sibling in
    (
      is_node.0,
      next_from s f zs a fuel is_node.0 above is_f.0 (hole ∙ e) sib (ground arith) (omega arith),
    )

Visits-postorder :
    (s : Store) (steps : ℕ) (t : Tree) (zs : List Frame)
    → Shape s (plug zs t) s.root 0
    → ((y : ℕ) → times y (plug zs t) ≤ 1)
    → size (plug zs t) ≤ steps
    → Visits (λ n. rb_next_postorder steps n s) (behind zs)
    → Visits (λ n. rb_next_postorder steps n s) (postorder t ++ behind zs)
unfolding postorder behind plug
Visits-postorder s steps leaf zs is once enough visits = visits
Visits-postorder s steps (node c l a r) zs is once enough visits =
    let next = λ (n : ℕ). rb_next_postorder steps n s in
    let at_left : Frame = record { side = left; color = c; addr = a; sibling = r } in
    let at_right : Frame = record { side = right; color = c; addr = a; sibling = l } in
    let (ne, step) = next_postorder-behind s zs c l r a steps is once enough in
    let here = Visits-cons next a (behind zs) ne step visits in
    let second = Visits-postorder s steps r (at_right ∷ zs) is once enough here in
    let first = Visits-postorder s steps l (at_left ∷ zs) is once enough second in
    subst (Visits next)
      (ap (λ x. postorder l ++ x) (sym (++_assoc (postorder r) (a ∷ []) (behind zs)))
        ∙ sym (++_assoc (postorder l) (postorder r ++ a ∷ []) (behind zs)))
      first

length-postorder : (t : Tree) → length (postorder t) ≡ size t
unfolding postorder size
length-postorder leaf = refl
length-postorder (node c l a r) =
    length-append (postorder l) (postorder r ++ a ∷ [])
    ∙ omega (arith, length-append (postorder r) (a ∷ []), length-postorder l, length-postorder r)

rb_first_postorder-head :
    (s : Store) (t : Tree) (fuel : ℕ)
    → Shape s t s.root 0
    → size t ≤ fuel
    → rb_first_postorder fuel s ≡ some (head (postorder t))
unfolding rb_first_postorder postorder
rb_first_postorder-head s t fuel is enough = elim (leaf_or_node s t s.root 0 is) [
  | inl (z, e) ↦ let test : (s.root == 0) ≡ true = ground arith in rw (test, e) refl
  | inr ne ↦
      let test : (s.root == 0) ≡ false = ground arith in
      let (x, run, (rest, first)) = rb_left_deepest_node-IsHead s fuel t s.root 0 is ne enough in
      rw (test, first) run
]

-- In a store that holds a red-black tree, with fuel for each node and one more, the postorder
-- loop ends and visits each node of the tree once, after all nodes below it.
pub postorder_for_each_lem :
    (s : Store) (t : Tree) (steps fuel : ℕ)
    → IsTree s t
    → size t ≤ steps
    → size t < fuel
    → postorder_for_each_entry_safe steps fuel s ≡ some (postorder t)
unfolding postorder_for_each_entry_safe plug behind
postorder_for_each_lem s t steps fuel is enough rounds =
    let next = λ (n : ℕ). rb_next_postorder steps n s in
    let all =
      subst (Visits next) (++_nil (postorder t))
        (Visits-postorder s steps t [] is.shape is.once enough (Visits-nil next)) in
    let len = length-postorder t in
    rw (postorder_for_each_entry_safe, rb_first_postorder-head s t steps is.shape enough)
      (all fuel (omega arith))
