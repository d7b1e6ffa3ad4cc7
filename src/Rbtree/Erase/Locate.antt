-- ===== src/Rbtree/Erase/Locate.antt =====
-- `rb_erase` for a node that is known by its place in the sequence, and after `rb_insert_color`.
use mathlib.Core.Path.{subst}
use kernel_porting.Prelude.{
  Bool-cases, ap₂, length-append, ℕ, ◌+◌, ◌≤◌, ◌<◌, ◌≡◌, ◌∙◌, refl, sym, ap, inl, inr, arith, ◌==◌,
  List, [], ◌∷◌, ◌++◌, length, some,
}
use kernel_porting.Rbtree.{left, right, Store, rb_link_node, rb_insert_color}
use kernel_porting.Rbtree.Shape.{Color, Tree, leaf, node, inorder, times, IsNode, Frame, plug}
use kernel_porting.Rbtree.Fix.Balance.{before, after, inorder-plug}
use kernel_porting.Rbtree.Insert.{IsTree, count, count-++, times-count, rb_insert_color_lem}
use kernel_porting.Rbtree.Insert.Hole.{parent_at, link_at}
use kernel_porting.Rbtree.Walk.Ends.{size}
use kernel_porting.Rbtree.Erase.{rb_erase}
use kernel_porting.Rbtree.Erase.Order.{length-size}
use kernel_porting.Rbtree.Erase.Remove.{rb_erase-IsTree}

-- Where an address stands.
pub locate :
    (a : ℕ) (zs : List Frame) (t : Tree)
    → 1 ≤ times a t
    → (ws : List Frame) × (c : Color) × (l : Tree) × (r : Tree) × (plug zs t
        ≡ plug ws (node c l a r))
unfolding times plug
locate a zs leaf h = absurd (omega arith)
locate a zs (node c l b r) h = elim (Bool-cases (a == b)) [
  | inl same ↦ (zs, c, l, r, (let e : b ≡ a = ground arith in ap (λ x. plug zs (node c l x r)) e))
  | inr apart ↦ elim (Bool-cases (times a l == 0)) [
    | inr in_l ↦
        locate a (record { side = left; color = c; addr = b; sibling = r } ∷ zs) l (ground arith)
    | inl off_l ↦
        locate a (record { side = right; color = c; addr = b; sibling = l } ∷ zs) r (ground arith)
  ]
]

heads : {x y : ℕ} {xs ys : List ℕ} → x ∷ xs ≡ y ∷ ys → x ≡ y
heads {x} e = ap (λ l. elim l [ [] ↦ x | h ∷ t ↦ h ]) e

tails : {x y : ℕ} {xs ys : List ℕ} → x ∷ xs ≡ y ∷ ys → xs ≡ ys
tails e = ap (λ l. elim l [ [] ↦ [] | h ∷ t ↦ t ]) e

-- A list with the address once splits there in one way.
pub one_split :
    (a : ℕ) (xs ys us vs : List ℕ)
    → xs ++ a ∷ ys ≡ us ++ a ∷ vs
    → count a (xs ++ a ∷ ys) ≤ 1
    → (xs ≡ us) × (ys ≡ vs)
unfolding count
one_split a [] ys [] vs e once = (refl, tails e)
one_split a [] ys (u ∷ us) vs e once =
    let k = ap (count a) (tails e) in let m = count-++ a us (a ∷ vs) in absurd (ground arith)
one_split a (x ∷ xs) ys [] vs e once =
    let k = heads e in let m = count-++ a xs (a ∷ ys) in absurd (ground arith)
one_split a (x ∷ xs) ys (u ∷ us) vs e once =
    let (f, g) = one_split a xs ys us vs (tails e) (ground arith) in
    (ap₂ (λ h t. h ∷ t) (heads e) f, g)

-- In a store that holds a red-black tree, for more fuel than the tree has nodes and a node anywhere in
-- its sequence, `rb_erase` ends, and the store then holds a red-black tree whose sequence is the old one
-- without the node.
pub rb_erase_lem :
    (s : Store) (t : Tree) (xs ys : List ℕ) (a fuel : ℕ)
    → IsTree s t
    → inorder t ≡ xs ++ a ∷ ys
    → size t < fuel
    → (s' : Store) × (t' : Tree) × (rb_erase fuel a s ≡ some s')
      × IsTree s' t'
      × (inorder t' ≡ xs ++ ys)
unfolding count plug
rb_erase_lem s t xs ys a fuel is order enough =
    let all = times-count a t ∙ ap (count a) order in
    let here = count-++ a xs (a ∷ ys) in
    let (zs, c, l, r, place) = locate a [] t (ground arith) in
    let (s', t', run, is', old, new) =
      rb_erase-IsTree s zs c l r a fuel (subst (IsTree s) place is)
        (subst (λ x. size x < fuel) place enough) in
    let o = is.once a in
    let (e, f) =
      one_split a xs ys (before zs ++ inorder l) (inorder r ++ after zs)
        (sym order ∙ ap inorder place ∙ old) (omega arith) in
    (s', t', run, is', new ∙ ap₂ (λ x y. x ++ y) (sym e) (sym f))

size-length : (t : Tree) → size t ≡ length (inorder t)
unfolding size inorder
size-length leaf = refl
size-length (node c l a r) =
    omega (arith, length-append (inorder l) (a ∷ inorder r), size-length l, size-length r)

-- In a store that holds a red-black tree, for an aligned address that is not in the tree and fuel for
-- two more nodes than the tree has, `rb_link_node` and `rb_insert_color` and then `rb_erase` of the same
-- node end, and leave a red-black tree with the sequence of the first.
pub insert_then_erase :
    (s : Store) (zs : List Frame) (n fuel : ℕ)
    → IsTree s (plug zs leaf)
    → IsNode n
    → times n (plug zs leaf) ≡ 0
    → size (plug zs leaf) + 1 < fuel
    → (s1 s2 : Store) × (t : Tree) × (rb_insert_color fuel n
          (rb_link_node n (parent_at zs) (link_at zs) s)
        ≡ some s1)
      × (rb_erase fuel n s1 ≡ some s2)
      × IsTree s2 t
      × (inorder t ≡ inorder (plug zs leaf))
unfolding inorder
insert_then_erase s zs n fuel is is_n fresh enough =
    let high = length-size zs leaf in
    let (s1, t1, run, is1, order) = rb_insert_color_lem s zs n fuel is is_n fresh (omega arith) in
    let old = inorder-plug zs leaf in
    let more : size t1 < fuel = omega (
      arith,
      size-length t1,
      size-length (plug zs leaf),
      ap length order,
      ap length old,
      length-append (before zs) (n ∷ after zs),
      length-append (before zs) (after zs),
    ) in
    let (s2, t2, run2, is2, order2) =
      rb_erase_lem s1 t1 (before zs) (after zs) n fuel is1 order more in
    (s1, s2, t2, run, run2, is2, order2 ∙ sym old)
