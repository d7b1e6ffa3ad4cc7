-- ===== src/MyRbtree/Find.antt =====
-- `MY_RB_TREE_FIND` finds a node with the key when there is one.
use Prim.{tt}
use kernel_porting.Prelude.{
  ℕ, zero, suc, ◌≤◌, ◌<◌, ◌≡◌, ◌≢◌, ◌⊎◌, ◌∙◌, refl, ap, inl, inr, arith, true, false, ◌==◌,
  if◌then◌else◌, ◌∷◌, some,
}
use kernel_porting.Rbtree.{Side, left, right, Store}
use kernel_porting.Rbtree.Shape.{Tree, leaf, node, inorder, times, Shape}
use kernel_porting.Rbtree.Insert.{IsTree}
use kernel_porting.Rbtree.Walk.Ends.{size}
use kernel_porting.MyRbtree.{
  Sign, negative, naught, positive, is_negative, is_naught, opposite, IsOrder, find_node,
  my_rb_tree_find,
}
use kernel_porting.MyRbtree.Sorted.{Each, IsSorted, Each-++, Each-map, IsSorted-Cut}
use kernel_porting.MyRbtree.Descend.{AtLeast}

Sign-cases : (c : Sign) → (c ≡ negative) ⊎ ((c ≡ naught) ⊎ (c ≡ positive))
Sign-cases negative = inl refl
Sign-cases naught = inr (inl refl)
Sign-cases positive = inr (inr refl)

module _ {K : Type 0} (key : ℕ → K) (cmp : K → K → Sign) (k : K) where
  abbrev pub Other : ℕ → Type 0
  Other x = is_naught (cmp (key x) k) ≡ false

  -- What an answer has to say: 0 that no node of the tree has the key, and another value a node that has it.
  abbrev pub Answers : Tree → ℕ → Type 0
  Answers t a =
      ((a ≡ 0) × Each Other (inorder t)) ⊎ ((a ≢ 0) × (1 ≤ times a t) × (cmp (key a) k ≡ naught))

  module _ (s : Store) (fuel p : ℕ) where
    find_node-end : p ≡ 0 → find_node key cmp (suc fuel) k p s ≡ some 0
    unfolding find_node
    find_node-end z = let e : (p == 0) ≡ true = ground arith in rw (e, z) refl

    find_node-here : p ≢ 0 → cmp (key p) k ≡ naught → find_node key cmp (suc fuel) k p s ≡ some p
    unfolding find_node
    find_node-here ne at_p = let e : (p == 0) ≡ false = ground arith in rw (e, at_p) refl

    find_node-step :
        (d : Side)
        → p ≢ 0
        → is_naught (cmp (key p) k) ≡ false
        → (if is_negative (cmp (key p) k) then left else right) ≡ d
        → find_node key cmp (suc fuel) k p s ≡ find_node key cmp fuel k (s.child d p) s
    unfolding find_node
    find_node-step d ne away at_d =
        let e : (p == 0) ≡ false = ground arith in rw (e, away, at_d) refl

  module _ (order : IsOrder cmp) where
    -- Below a node that is smaller than the key, all are.
    below_small : (a x : ℕ) → cmp (key a) k ≡ negative → AtLeast key cmp a x → Other x
    below_small a x small le = elim (Sign-cases (cmp (key x) k)) [
      | inl e ↦ ap is_naught e
      | inr (inl e) ↦ absurd (
          let z = order.through (key a) (key x) k le (ap is_negative e) in
          let w = ap is_negative small in ground arith)
      | inr (inr e) ↦ ap is_naught e
    ]

    above_great : (a x : ℕ) → cmp (key a) k ≡ positive → AtLeast key cmp x a → Other x
    above_great a x great le = elim (Sign-cases (cmp (key x) k)) [
      | inl e ↦ ap is_naught e
      | inr (inl e) ↦ absurd (
          let back = ap is_negative (order.turned (key x) k ∙ ap opposite e) in
          let z = order.through k (key x) (key a) back le in
          let w = ap is_negative (order.turned (key a) k ∙ ap opposite great) in ground arith)
      | inr (inr e) ↦ ap is_naught e
    ]

    find_node-Answers :
        (s : Store) (fuel : ℕ) (t : Tree) (p q : ℕ)
        → size t < fuel
        → Shape s t p q
        → IsSorted (AtLeast key cmp) (inorder t)
        → (a : ℕ) × (find_node key cmp fuel k p s ≡ some a) × Answers t a
    unfolding size inorder times
    find_node-Answers s zero t p q enough is sorted = absurd (omega arith)
    find_node-Answers s (suc fuel) leaf p q enough is sorted =
        (0, find_node-end s fuel p is, inl (refl, tt))
    find_node-Answers s (suc fuel) (node c l a r) p q enough (e, is_node, pc, is_l, is_r) sorted =
        let split = IsSorted-Cut (AtLeast key cmp) (inorder l) a (inorder r) sorted in
        rw e (elim (Sign-cases (cmp (key a) k)) [
          | inr (inl same) ↦
              (a, find_node-here s fuel a is_node.0 same, inr (is_node.0, ground arith, same))
          | inl small ↦
              let (b, run, answer) =
                find_node-Answers s fuel l (s.child left a) a (omega arith) is_l split.low in
              (
                b,
                find_node-step s fuel a left is_node.0 (ap is_naught small) (rw small refl) ∙ run,
                elim answer [
                  | inl (z, others) ↦ inl (
                    z,
                    Each-++ Other (inorder l) (a ∷ inorder r) others (
                      ap is_naught small,
                      Each-map (AtLeast key cmp a) Other (inorder r)
                          (λ x h. below_small a x small h) split.under,
                    ),
                  )
                  | inr (ne, here, same) ↦ inr (ne, omega arith, same)
                ],
              )
          | inr (inr great) ↦
              let (b, run, answer) =
                find_node-Answers s fuel r (s.child right a) a (omega arith) is_r split.high in
              (
                b,
                find_node-step s fuel a right is_node.0 (ap is_naught great) (rw great refl) ∙ run,
                elim answer [
                  | inl (z, others) ↦ inl (
                    z,
                    Each-++ Other (inorder l) (a ∷ inorder r)
                        (Each-map (λ x. AtLeast key cmp x a) Other (inorder l)
                          (λ x h. above_great a x great h) split.over)
                        (ap is_naught great, others),
                  )
                  | inr (ne, here, same) ↦ inr (ne, omega arith, same)
                ],
              )
        ])

    -- When the comparison is a total order and the store holds a red-black tree sorted by
    -- descending keys, `MY_RB_TREE_FIND` ends with fuel for each node and one more: with a node
    -- of the tree that has the key, or with -1 when no node of the tree has it.
    pub my_rb_tree_find_lem :
        (s : Store) (t : Tree) (fuel : ℕ)
        → IsTree s t
        → IsSorted (AtLeast key cmp) (inorder t)
        → size t < fuel
        → (a : ℕ) × (my_rb_tree_find key cmp fuel k s ≡ some a) × Answers t a
    unfolding my_rb_tree_find
    my_rb_tree_find_lem s t fuel is sorted enough =
        find_node-Answers s fuel t s.root 0 enough is.shape sorted
