-- ===== src/Rbtree/Erase/First.antt =====
-- `rb_erase_cached`: the cached node stays the first of the sequence.
use mathlib.Core.Path.{subst}
use kernel_porting.Prelude.{
  ℕ, ◌≤◌, ◌<◌, ◌≡◌, ◌≢◌, ◌∙◌, refl, sym, ap, ap₂, inl, inr, arith, true, false, ◌==◌, Bool-cases,
  List, [], ◌∷◌, ◌++◌, ++_assoc, some,
}
use kernel_porting.Rbtree.{left, Store}
use kernel_porting.Rbtree.Shape.{Tree, leaf, node, inorder, times, Shape, Frame, plug}
use kernel_porting.Rbtree.Fix.{Side-cases}
use kernel_porting.Rbtree.Fix.Balance.{before, after, inorder-plug}
use kernel_porting.Rbtree.Insert.{IsTree, count, count-++, times-count}
use kernel_porting.Rbtree.Insert.Cached.{leftmost_or, cached-IsTree}
use kernel_porting.Rbtree.Walk.{rb_next}
use kernel_porting.Rbtree.Walk.Ends.{size, walk, ahead, head}
use kernel_porting.Rbtree.Walk.Next.{next_on-walk}
use kernel_porting.Rbtree.Erase.{__rb_erase_augmented, rb_erase, rb_erase_cached}
use kernel_porting.Rbtree.Erase.Order.{length-size}
use kernel_porting.Rbtree.Erase.Locate.{locate, one_split, rb_erase_lem}
use kernel_porting.Rbtree.Erase.Cached.{erase_keeps}

walk_left : (t : Tree) → walk left t ≡ inorder t
unfolding walk inorder
walk_left leaf = refl
walk_left (node c l a r) = ap₂ (λ x y. x ++ a ∷ y) (walk_left l) (walk_left r)

ahead_left : (zs : List Frame) → ahead left zs ≡ after zs
unfolding ahead after
ahead_left [] = refl
ahead_left (f ∷ zs) = elim (Side-cases f.side left) [
  | inl e ↦ rw (e, walk_left f.sibling, ahead_left zs) refl
  | inr e ↦ rw (e, ahead_left zs) refl
]

-- `rb_next` in terms of the sequence.
pub rb_next-sequence :
    (s : Store) (t : Tree) (xs ys : List ℕ) (a fuel : ℕ)
    → IsTree s t
    → inorder t ≡ xs ++ a ∷ ys
    → size t < fuel
    → rb_next fuel a s ≡ some (head ys)
unfolding count plug size inorder
rb_next-sequence s t xs ys a fuel is order enough =
    let all = times-count a t ∙ ap (count a) order in
    let here = count-++ a xs (a ∷ ys) in
    let (zs, c, l, r, place) = locate a [] t (ground arith) in
    let o = is.once a in
    let big = length-size zs (node c l a r) in
    let same = ap size place in
    let whole : inorder (plug zs (node c l a r))
        ≡ (before zs ++ inorder l) ++ a ∷ (inorder r ++ after zs) =
      inorder-plug zs (node c l a r) ∙ simp ++_assoc in
    let (e, f) =
      one_split a xs ys (before zs ++ inorder l) (inorder r ++ after zs)
        (sym order ∙ ap inorder place ∙ whole) (omega arith) in
    next_on-walk s left zs c l r a fuel (subst (λ x. Shape s x s.root 0) place is.shape)
      (λ y. subst (λ x. times y x ≤ 1) place (is.once y)) (omega arith)
    ∙ ap (λ x. some (head x)) (ap₂ (λ x y. x ++ y) (walk_left r) (ahead_left zs) ∙ sym f)

-- Which way the cached node goes.
module _ (fuel a : ℕ) (s : Store) where
  cached_first :
      (n : ℕ)
      → a ≡ s.leftmost
      → rb_next fuel a s ≡ some n
      → rb_erase_cached fuel a s ≡ rb_erase fuel a (record s { leftmost = n })
  unfolding rb_erase_cached rb_erase __rb_erase_augmented
  cached_first n e run = let k : (a == s.leftmost) ≡ true = ground arith in rw (k, run) refl

  cached_other : a ≢ s.leftmost → rb_erase_cached fuel a s ≡ rb_erase fuel a s
  unfolding rb_erase_cached rb_erase __rb_erase_augmented
  cached_other ne = let k : (a == s.leftmost) ≡ false = ground arith in rw k refl

rb_erase_keeps :
    (fuel a : ℕ) (s s' : Store) → rb_erase fuel a s ≡ some s' → s'.leftmost ≡ s.leftmost
unfolding rb_erase __rb_erase_augmented
rb_erase_keeps fuel a s s' run =
    sym (ap (leftmost_or s.leftmost) run) ∙ erase_keeps s.leftmost fuel a s refl

head_only :
    (a : ℕ) (xs ys : List ℕ) → head (xs ++ a ∷ ys) ≡ a → count a (xs ++ a ∷ ys) ≤ 1 → xs ≡ []
unfolding count
head_only a [] ys e once = refl
head_only a (x ∷ xs) ys e once = let k = count-++ a xs (a ∷ ys) in absurd (ground arith)

head_other :
    (a : ℕ) (xs ys : List ℕ) → a ≢ head (xs ++ a ∷ ys) → head (xs ++ a ∷ ys) ≡ head (xs ++ ys)
head_other a [] ys ne = absurd (ne refl)
head_other a (x ∷ xs) ys ne = refl

-- In a store that holds a red-black tree and caches the first node of its sequence, for more fuel than
-- the tree has nodes and a node anywhere in the sequence, `rb_erase_cached` ends, and the store then
-- holds a red-black tree without the node and caches the first node of what is left, or NULL when
-- nothing is.
pub rb_erase_cached_lem :
    (s : Store) (t : Tree) (xs ys : List ℕ) (a fuel : ℕ)
    → IsTree s t
    → s.leftmost ≡ head (inorder t)
    → inorder t ≡ xs ++ a ∷ ys
    → size t < fuel
    → (s' : Store) × (t' : Tree) × (rb_erase_cached fuel a s ≡ some s')
      × IsTree s' t'
      × (inorder t' ≡ xs ++ ys)
      × (s'.leftmost ≡ head (inorder t'))
rb_erase_cached_lem s t xs ys a fuel is first order enough = elim (Bool-cases (a == s.leftmost)) [
  | inl same ↦
      let at_first : a ≡ s.leftmost = ground arith in
      let s1 = record s { leftmost = head ys } in
      let next = rb_next-sequence s t xs ys a fuel is order enough in
      let (s', t', run, is', left_over) =
        rb_erase_lem s1 t xs ys a fuel (cached-IsTree s t (head ys) is) order enough in
      let o = is.once a in
      let k = times-count a t ∙ ap (count a) order in
      let none_before = head_only a xs ys (sym (at_first ∙ first ∙ ap head order)) (omega arith) in
      (
        s',
        t',
        cached_first fuel a s (head ys) at_first next ∙ run,
        is',
        left_over,
        rb_erase_keeps fuel a s1 s' run
            ∙ ap (λ x. head (x ++ ys)) (sym none_before)
            ∙ ap head (sym left_over),
      )
  | inr apart ↦
      let not_first : a ≢ s.leftmost = ground arith in
      let (s', t', run, is', left_over) = rb_erase_lem s t xs ys a fuel is order enough in
      (
        s',
        t',
        cached_other fuel a s not_first ∙ run,
        is',
        left_over,
        rb_erase_keeps fuel a s s' run
            ∙ first
            ∙ ap head order
            ∙ head_other a xs ys (λ e. not_first (e ∙ ap head (sym order) ∙ sym first))
            ∙ ap head (sym left_over),
      )
]
