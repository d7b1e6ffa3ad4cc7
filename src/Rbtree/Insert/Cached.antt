-- ===== src/Rbtree/Insert/Cached.antt =====
-- `rb_insert_color_cached`: the cached node stays the first of the sequence.
use kernel_porting.Prelude.{
  ℕ, zero, suc, ◌<◌, ◌≡◌, ◌≢◌, ◌∙◌, refl, sym, ap, arith, Bool, true, false, List, [], ◌∷◌, ◌++◌,
  length, Option, none, some,
}
use kernel_porting.Rbtree.{
  Side, other, Store, rb_parent, rb_red_parent, rb_link_node, rb_set_parent_color, blacken_child,
  __rb_change_child, __rb_rotate_set_parents, insert_flip, insert_inner, insert_outer, insert_side,
  insert_loop, __rb_insert, rb_insert_color, rb_insert_color_cached, rb_red, Link, at_root,
  at_child,
}
use kernel_porting.Rbtree.Shape.{Tree, leaf, inorder, times, IsNode, Frame, plug, Shape-keep}
use kernel_porting.Rbtree.Fix.Balance.{before, after, inorder-plug}
use kernel_porting.Rbtree.Insert.{IsTree, rb_insert_color_lem}
use kernel_porting.Rbtree.Insert.Hole.{parent_at, link_at}
use kernel_porting.Rbtree.Walk.Ends.{head}

-- The cached node after a run, and `m` when the run did not end.
abbrev pub leftmost_or : ℕ → Option Store → ℕ
leftmost_or m none = m
leftmost_or m (some s) = s.leftmost

-- What the other functions change is not the cached node.
module _ (m : ℕ) where
  pub change_child_keeps :
      (old new parent : ℕ) (s : Store)
      → s.leftmost ≡ m
      → (__rb_change_child old new parent s).leftmost ≡ m
  unfolding __rb_change_child
  change_child_keeps old new parent s e = ground arith

  pub rotate_keeps :
      (old new color : ℕ) (s : Store)
      → s.leftmost ≡ m
      → (__rb_rotate_set_parents old new color s).leftmost ≡ m
  unfolding __rb_rotate_set_parents rb_set_parent_color
  rotate_keeps old new color s e = change_child_keeps old new _ _ e

  outer_keeps :
      (d : Side) (parent gparent tmp : ℕ) (s : Store)
      → s.leftmost ≡ m
      → (insert_outer d parent gparent tmp s).leftmost ≡ m
  unfolding insert_outer blacken_child rb_set_parent_color
  outer_keeps d parent gparent tmp s e = rotate_keeps gparent parent rb_red _ (ground arith)

  inner_keeps :
      (d : Side) (node parent : ℕ) (s : Store)
      → s.leftmost ≡ m
      → (insert_inner d node parent s).leftmost ≡ m
  unfolding insert_inner blacken_child rb_set_parent_color
  inner_keeps d node parent s e = ground arith

  flip_keeps :
      (parent gparent uncle : ℕ) (s : Store)
      → s.leftmost ≡ m
      → (insert_flip parent gparent uncle s).leftmost ≡ m
  unfolding insert_flip rb_set_parent_color
  flip_keeps parent gparent uncle s e = e

  loop_keeps :
      (fuel node parent : ℕ) (s : Store)
      → s.leftmost ≡ m
      → leftmost_or m (insert_loop fuel node parent s) ≡ m
  unfolding insert_loop rb_set_parent_color
  loop_keeps zero node parent s e = refl
  loop_keeps (suc fuel) node parent s e =
      let gparent = rb_red_parent parent s in
      let d = insert_side parent gparent s in
      let uncle = s.child (other d) gparent in
      let flipped = insert_flip parent gparent uncle s in
      let turned = insert_inner d node parent s in
      let k1 =
        loop_keeps fuel gparent (rb_parent gparent flipped) flipped
          (flip_keeps parent gparent uncle s e) in
      let k2 =
        outer_keeps d node gparent (turned.child (other d) node) turned
          (inner_keeps d node parent s e) in
      let k3 = outer_keeps d parent gparent (s.child (other d) parent) s e in ground arith

-- A store with another cached node holds the same tree.
pub cached-IsTree :
    (s : Store) (t : Tree) (n : ℕ) → IsTree s t → IsTree (record s { leftmost = n }) t
cached-IsTree s t n is = record {
  shape =
      Shape-keep s (record s { leftmost = n }) t s.root 0 (λ y h. refl) (λ y d h. refl) is.shape;
  once = is.once;
  red_black = is.red_black;
}

link_keeps : (n p : ℕ) (link : Link) (s : Store) → (rb_link_node n p link s).leftmost ≡ s.leftmost
unfolding rb_link_node
link_keeps n p at_root s = refl
link_keeps n p (at_child d q) s = refl

link_later :
    (n p m : ℕ) (link : Link) (s : Store)
    → record (rb_link_node n p link s) { leftmost = m }
      ≡ rb_link_node n p link (record s { leftmost = m })
unfolding rb_link_node
link_later n p m at_root s = refl
link_later n p m (at_child d q) s = refl

insert_keeps :
    (fuel n : ℕ) (s s' : Store) → rb_insert_color fuel n s ≡ some s' → s'.leftmost ≡ s.leftmost
unfolding rb_insert_color __rb_insert
insert_keeps fuel n s s' run =
    sym (ap (leftmost_or s.leftmost) run) ∙ loop_keeps s.leftmost fuel n (rb_red_parent n s) s refl

-- The flag only sets the cached node first.
cached_run :
    (fuel n : ℕ) (s : Store)
    → rb_insert_color_cached fuel n true s ≡ rb_insert_color fuel n (record s { leftmost = n })
unfolding rb_insert_color_cached rb_insert_color __rb_insert
cached_run fuel n s = refl

cached_not :
    (fuel n : ℕ) (s : Store) → rb_insert_color_cached fuel n false s ≡ rb_insert_color fuel n s
unfolding rb_insert_color_cached rb_insert_color
cached_not fuel n s = refl

head_before : (xs ys : List ℕ) (n : ℕ) → xs ≢ [] → head (xs ++ ys) ≡ head (xs ++ n ∷ ys)
head_before [] ys n ne = absurd (ne refl)
head_before (x ∷ xs) ys n ne = refl

-- In a store that holds a red-black tree and caches the first node of its sequence, for an aligned
-- address that is not in the tree, a flag that says whether the hole is the first place of the
-- sequence, and fuel of one round for each node above the hole and one more, `rb_link_node` into
-- that hole and `rb_insert_color_cached` end, and the store then holds a red-black tree with the
-- new node where the hole was and caches the first node of its sequence.
pub rb_insert_color_cached_lem :
    (s : Store) (zs : List Frame) (n fuel : ℕ) (newleft : Bool)
    → IsTree s (plug zs leaf)
    → s.leftmost ≡ head (inorder (plug zs leaf))
    → IsNode n
    → times n (plug zs leaf) ≡ 0
    → length zs < fuel
    → (newleft ≡ true → before zs ≡ [])
    → (newleft ≡ false → before zs ≢ [])
    → (s' : Store) × (t : Tree) × (rb_insert_color_cached fuel n newleft
          (rb_link_node n (parent_at zs) (link_at zs) s)
        ≡ some s')
      × IsTree s' t
      × (inorder t ≡ before zs ++ n ∷ after zs)
      × (s'.leftmost ≡ head (inorder t))
unfolding inorder
rb_insert_color_cached_lem s zs n fuel true is first is_n fresh enough at_start later =
    let s0 = record s { leftmost = n } in
    let (s', t, run, is', order) =
      rb_insert_color_lem s0 zs n fuel (cached-IsTree s (plug zs leaf) n is) is_n fresh enough in
    (
      s',
      t,
      cached_run fuel n (rb_link_node n (parent_at zs) (link_at zs) s)
          ∙ ap (rb_insert_color fuel n) (link_later n (parent_at zs) n (link_at zs) s)
          ∙ run,
      is',
      order,
      insert_keeps fuel n (rb_link_node n (parent_at zs) (link_at zs) s0) s' run
          ∙ link_keeps n (parent_at zs) (link_at zs) s0
          ∙ ap (λ x. head (x ++ n ∷ after zs)) (sym (at_start refl))
          ∙ ap head (sym order),
    )
rb_insert_color_cached_lem s zs n fuel false is first is_n fresh enough at_start later =
    let (s', t, run, is', order) = rb_insert_color_lem s zs n fuel is is_n fresh enough in
    (
      s',
      t,
      cached_not fuel n (rb_link_node n (parent_at zs) (link_at zs) s) ∙ run,
      is',
      order,
      insert_keeps fuel n (rb_link_node n (parent_at zs) (link_at zs) s) s' run
          ∙ link_keeps n (parent_at zs) (link_at zs) s
          ∙ first
          ∙ ap head (inorder-plug zs leaf)
          ∙ head_before (before zs) (after zs) n (later refl)
          ∙ ap head (sym order),
    )
