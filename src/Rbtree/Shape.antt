-- ===== src/Rbtree/Shape.antt =====
-- What a store means as a tree: the abstract trees, the places around a subtree, and how both survive
-- stores elsewhere.
use mathlib.Core.Path.{subst}
use kernel_porting.Prelude.{
  ℕ, zero, suc, ◌+◌, ◌-◌, ◌/◌, ◌%◌, ◌^◌, ◌≤◌, ◌<◌, ◌≡◌, ◌≢◌, ◌∙◌, refl, sym, arith, bit_or, ◌==◌,
  if◌then◌else◌, List, [], ◌∷◌, ◌++◌,
}
use kernel_porting.Bits.{testbit, testbit_ext, testbit-bit_or, testbit-zero, bit_and_ones}
use kernel_porting.Bits.Split.{bit_and_split}
use kernel_porting.Rbtree.{Side, left, right, other, Store, __rb_parent, __rb_color}

pub data Color : Type 0 where
  red black : Color

abbrev pub bit_of : Color → ℕ
bit_of red = 0
bit_of black = 1

pub data Tree : Type 0 where
  leaf : Tree
  node : Color → Tree → ℕ → Tree → Tree

-- The node `a` with `near` on side `d` and `far` on the other.
abbrev pub build : Side → Color → ℕ → (near far : Tree) → Tree
build left c a near far = node c near a far
build right c a near far = node c far a near

unfoldable pub inorder : Tree → List ℕ
inorder leaf = []
inorder (node c l a r) = inorder l ++ a ∷ inorder r

-- How often an address stands in a tree.
unfoldable pub times : ℕ → Tree → ℕ
times y leaf = 0
times y (node c l a r) = times y l + (if y == a then 1 else 0) + times y r

-- What an address can be: words are aligned, so its two lowest bits are clear.
abbrev pub IsLink : ℕ → Type 0
IsLink a = (a % 4 ≡ 0) × (a < 2 ^ 64)

abbrev pub IsNode : ℕ → Type 0
IsNode a = (a ≢ 0) × IsLink a

-- The tree `t` stands at the pointer `p`, below the parent `q`.
abbrev pub Shape : Store → Tree → (p q : ℕ) → Type 0
Shape s leaf p q = p ≡ 0
Shape s (node c l a r) p q =
    (p ≡ a)
    × IsNode a
    × (s.parent_color a ≡ q + bit_of c)
    × Shape s l (s.child left a) a
    × Shape s r (s.child right a) a

-- A node above a hole: the hole is on side `side` of `addr`, and `sibling` on the other.
pub record Frame : Type 0 where
  pub side : Side
  pub color : Color
  pub addr : ℕ
  pub sibling : Tree

-- The tree around the hole, from the hole up: the hole's pointer is `p` and its parent is `q`.
abbrev pub Around : Store → List Frame → (p q : ℕ) → Type 0
Around s [] p q = (s.root ≡ p) × (q ≡ 0)
Around s (f ∷ zs) p q =
    (q ≡ f.addr)
    × IsNode f.addr
    × (s.child f.side f.addr ≡ p)
    × Shape s f.sibling (s.child (other f.side) f.addr) f.addr
    × (up : ℕ) × IsLink up
    × (s.parent_color f.addr ≡ up + bit_of f.color)
    × Around s zs f.addr up

unfoldable pub times_around : ℕ → List Frame → ℕ
times_around y [] = 0
times_around y (f ∷ zs) = (if y == f.addr then 1 else 0) + times y f.sibling + times_around y zs

-- The whole tree, with `t` in the hole.
unfoldable pub plug : List Frame → Tree → Tree
plug [] t = t
plug (f ∷ zs) t = plug zs (build f.side f.color f.addr t f.sibling)

-- NULL counts as black.
abbrev pub root_color : Tree → Color
root_color leaf = black
root_color (node c l a r) = c

-- What one word for parent and colour holds.
or_zero : (p : ℕ) → bit_or p 0 ≡ p
or_zero p = testbit_ext _ _ λ i. ground (arith, testbit-bit_or i p 0, testbit-zero i)

or_one_bits : (p i : ℕ) → p % 2 ≡ 0 → testbit (bit_or p 1) i ≡ testbit (p + 1) i
unfolding testbit
or_one_bits p zero even = ground (arith, testbit-bit_or 0 p 1)
or_one_bits p (suc i) even =
    let half : (p + 1) / 2 ≡ p / 2 = omega arith in
    testbit-bit_or (suc i) p 1 ∙ rw half (ground (arith, testbit-zero i))

pub or_color : (p : ℕ) (c : Color) → IsLink p → bit_or p (bit_of c) ≡ p + bit_of c
or_color p red h = or_zero p ∙ omega arith
or_color p black h = testbit_ext _ _ λ i. or_one_bits p i (omega arith)

bit_of-lt : (c : Color) → bit_of c < 2
bit_of-lt red = omega arith
bit_of-lt black = omega arith

pub parent_of : (q : ℕ) (c : Color) → IsLink q → __rb_parent (q + bit_of c) ≡ q
unfolding __rb_parent
parent_of q c h =
    let x = q + bit_of c in
    let high : x / 4 % 2 ^ 62 ≡ q / 4 = omega (arith, bit_of-lt c) in
    let mask = bit_and_ones 62 (x / 4) in
    let none = bit_and_ones 0 (x % 4) in
    omega (arith, bit_and_split 2 x (2 ^ 64 - 4), mask, none, high)

pub color_of : (q : ℕ) (c : Color) → IsLink q → __rb_color (q + bit_of c) ≡ bit_of c
unfolding __rb_color
color_of q c h = bit_and_ones 1 _ ∙ omega (arith, bit_of-lt c)

module _ (s s' : Store) where
  -- A tree survives where its nodes' fields do.
  pub Shape-keep :
      (t : Tree) (p q : ℕ)
      → ((y : ℕ) → 1 ≤ times y t → s'.parent_color y ≡ s.parent_color y)
      → ((y : ℕ) (d : Side) → 1 ≤ times y t → s'.child d y ≡ s.child d y)
      → Shape s t p q
      → Shape s' t p q
  unfolding times
  Shape-keep leaf p q pcs children is = is
  Shape-keep (node c l a r) p q pcs children (e, is_node, pc, is_l, is_r) = (
    e,
    is_node,
    pcs a (ground arith) ∙ pc,
    Shape-keep l (s'.child left a) a (λ y h. pcs y (omega arith))
        (λ y d h. children y d (omega arith))
        (subst (λ x. Shape s l x a) (sym (children a left (ground arith))) is_l),
    Shape-keep r (s'.child right a) a (λ y h. pcs y (omega arith))
        (λ y d h. children y d (omega arith))
        (subst (λ x. Shape s r x a) (sym (children a right (ground arith))) is_r),
  )

  pub Around-keep :
      (zs : List Frame) (p q : ℕ)
      → s'.root ≡ s.root
      → ((y : ℕ) → 1 ≤ times_around y zs → s'.parent_color y ≡ s.parent_color y)
      → ((y : ℕ) (d : Side) → 1 ≤ times_around y zs → s'.child d y ≡ s.child d y)
      → Around s zs p q
      → Around s' zs p q
  unfolding times_around
  Around-keep [] p q same pcs children (e, z) = (same ∙ e, z)
  Around-keep (f ∷ zs) p q same pcs children (e, is_node, hole, sib, up, link, pc, rest) = (
    e,
    is_node,
    children f.addr f.side (ground arith) ∙ hole,
    Shape-keep f.sibling (s'.child (other f.side) f.addr) f.addr (λ y h. pcs y (omega arith))
        (λ y d h. children y d (omega arith))
        (subst (λ x. Shape s f.sibling x f.addr)
          (sym (children f.addr (other f.side) (ground arith))) sib),
    up,
    link,
    pcs f.addr (ground arith) ∙ pc,
    Around-keep zs f.addr up same (λ y h. pcs y (omega arith)) (λ y d h. children y d (omega arith))
        rest,
  )

  -- A tree moves below another parent when its root's word says so.
  pub Shape-reparent :
      (t : Tree) (p q q' : ℕ)
      → ((y : ℕ) → times y t ≤ 1)
      → (p ≢ 0 → s'.parent_color p ≡ q' + bit_of (root_color t))
      → ((y : ℕ) → 1 ≤ times y t → y ≢ p → s'.parent_color y ≡ s.parent_color y)
      → ((y : ℕ) (d : Side) → 1 ≤ times y t → s'.child d y ≡ s.child d y)
      → Shape s t p q
      → Shape s' t p q'
  unfolding times
  Shape-reparent leaf p q q' once top pcs children is = is
  Shape-reparent (node c l a r) p q q' once top pcs children (e, is_node, pc, is_l, is_r) =
      let at_root = once a in
      (
        e,
        is_node,
        (let t = top (ground arith) in ground arith),
        Shape-keep l (s'.child left a) a (λ y h. pcs y (omega arith) (ground arith))
            (λ y d h. children y d (omega arith))
            (subst (λ x. Shape s l x a) (sym (children a left (ground arith))) is_l),
        Shape-keep r (s'.child right a) a (λ y h. pcs y (omega arith) (ground arith))
            (λ y d h. children y d (omega arith))
            (subst (λ x. Shape s r x a) (sym (children a right (ground arith))) is_r),
      )

-- The root of a tree is one of its nodes.
pub root_times : (s : Store) (t : Tree) (p q : ℕ) → Shape s t p q → p ≢ 0 → 1 ≤ times p t
unfolding times
root_times s leaf p q e ne = absurd (ne e)
root_times s (node c l a r) p q is ne = let e = is.0 in ground arith

pub root_apart :
    (s : Store) (t : Tree) (p q : ℕ) → Shape s t p q → (y : ℕ) → times y t ≡ 0 → p ≢ 0 → y ≢ p
root_apart s t p q is y off ne e =
    let here = subst (λ x. 1 ≤ times x t) (sym e) (root_times s t p q is ne) in absurd (omega arith)

pub Shape-build :
    (s : Store) (d : Side) (c : Color) (a : ℕ) (near far : Tree) (p q : ℕ)
    → p ≡ a
    → IsNode a
    → s.parent_color a ≡ q + bit_of c
    → Shape s near (s.child d a) a
    → Shape s far (s.child (other d) a) a
    → Shape s (build d c a near far) p q
Shape-build s left c a near far p q e is pc x y = (e, is, pc, x, y)
Shape-build s right c a near far p q e is pc x y = (e, is, pc, y, x)

pub times-build :
    (y : ℕ) (d : Side) (c : Color) (a : ℕ) (near far : Tree)
    → times y (build d c a near far) ≡ times y near + (if y == a then 1 else 0) + times y far
unfolding times
times-build y left c a near far = refl
times-build y right c a near far = omega arith

pub times-plug :
    (y : ℕ) (zs : List Frame) (t : Tree) → times y (plug zs t) ≡ times y t + times_around y zs
unfolding plug times_around
times-plug y [] t = omega arith
times-plug y (f ∷ zs) t = omega (
  arith,
  times-plug y zs (build f.side f.color f.addr t f.sibling),
  times-build y f.side f.color f.addr t f.sibling,
)

-- A tree in its place is the whole tree.
pub Shape-plug :
    (s : Store) (zs : List Frame) (t : Tree) (p q : ℕ)
    → Shape s t p q
    → Around s zs p q
    → Shape s (plug zs t) s.root 0
unfolding plug
Shape-plug s [] t p q is (e, z) =
    subst (λ x. Shape s t x 0) (sym e) (subst (λ x. Shape s t p x) z is)
Shape-plug s (f ∷ zs) t p q is (e, is_node, hole, sib, up, link, pc, rest) =
    Shape-plug s zs (build f.side f.color f.addr t f.sibling) f.addr up
      (Shape-build s f.side f.color f.addr t f.sibling f.addr up refl is_node pc
        (subst (λ x. Shape s t x f.addr) (sym hole) (subst (λ x. Shape s t p x) e is)) sib)
      rest
