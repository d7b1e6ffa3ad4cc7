-- ===== src/Rbtree/Walk/Ends.antt =====
-- Where the walks over a tree lead: to the ends of its sequence, and from a node to its neighbours.
use mathlib.Core.Path.{subst}
use kernel_porting.Prelude.{
  ℕ, zero, suc, ◌+◌, ◌≤◌, ◌<◌, ◌≡◌, ◌≢◌, ◌⊎◌, ◌∙◌, refl, sym, ap, inl, inr, arith, true, false, not,
  ◌&&◌, ◌==◌, if◌then◌else◌, List, [], ◌∷◌, ◌++◌, length, some,
}
use kernel_porting.Rbtree.{Side, left, right, other, side_eq, Store, __rb_parent, rb_parent}
use kernel_porting.Rbtree.Shape.{
  Color, bit_of, Tree, leaf, node, Shape, Frame, Around, times_around, parent_of, root_apart,
}
use kernel_porting.Rbtree.Rotate.{same_side, this_side}
use kernel_porting.Rbtree.Fix.{part, Side-cases, other-other}
use kernel_porting.Rbtree.Insert.Hole.{Around-IsLink}
use kernel_porting.Rbtree.Walk.{go_down, go_up}

unfoldable pub size : Tree → ℕ
size leaf = 0
size (node c l a r) = size l + 1 + size r

-- The sequence of a tree, read from one side.
unfoldable pub walk : Side → Tree → List ℕ
walk d leaf = []
walk left (node c l a r) = walk left l ++ a ∷ walk left r
walk right (node c l a r) = walk right r ++ a ∷ walk right l

-- What comes after a hole in that sequence.
unfoldable pub ahead : Side → List Frame → List ℕ
ahead d [] = []
ahead d (f ∷ zs) =
    if side_eq f.side d then f.addr ∷ (walk d f.sibling ++ ahead d zs) else ahead d zs

-- The first of a list, and NULL when there is none.
abbrev pub head : List ℕ → ℕ
head [] = 0
head (x ∷ xs) = x

-- The node `a` and what hangs below it, seen from one side.
pub record Seen (s : Store) (d : Side) (t : Tree) (p : ℕ) : Type 0 where
  ne : p ≢ 0
  near : Shape s (part d t) (s.child d p) p
  smaller : size (part d t) < size t
  order : walk d t ≡ walk d (part d t) ++ p ∷ walk d (part (other d) t)

seen :
    (s : Store) (d : Side) (c : Color) (l r : Tree) (a p q : ℕ)
    → Shape s (node c l a r) p q
    → Seen s d (node c l a r) p
unfolding walk size
seen s left c l r a p q (e, is, pc, is_l, is_r) =
    rw e (record { ne = is.0; near = is_l; smaller = omega arith; order = refl })
seen s right c l r a p q (e, is, pc, is_l, is_r) =
    rw e (record { ne = is.0; near = is_r; smaller = omega arith; order = refl })

go_down-end :
    (s : Store) (d : Side) (fuel p : ℕ) → s.child d p ≡ 0 → go_down (suc fuel) d p s ≡ some p
unfolding go_down
go_down-end s d fuel p z = let e : (s.child d p == 0) ≡ true = ground arith in rw e refl

go_down-step :
    (s : Store) (d : Side) (fuel p : ℕ)
    → s.child d p ≢ 0
    → go_down (suc fuel) d p s ≡ go_down fuel d (s.child d p) s
unfolding go_down
go_down-step s d fuel p ne = let e : (s.child d p == 0) ≡ false = ground arith in rw e refl

pub leaf_or_node :
    (s : Store) (t : Tree) (p q : ℕ) → Shape s t p q → ((p ≡ 0) × (t ≡ leaf)) ⊎ (p ≢ 0)
leaf_or_node s leaf p q is = inl (is, refl)
leaf_or_node s (node c l a r) p q is = inr (λ z. is.1.0 (sym is.0 ∙ z))

-- A list with a first element.
abbrev pub IsHead : List ℕ → ℕ → Type 0
IsHead xs x = (rest : List ℕ) × (xs ≡ x ∷ rest)

pub IsHead-++ : (xs ys : List ℕ) (x : ℕ) → IsHead xs x → IsHead (xs ++ ys) x
IsHead-++ xs ys x (rest, e) = (rest ++ ys, ap (λ l. l ++ ys) e)

pub IsHead-head : (xs ys : List ℕ) (x : ℕ) → IsHead xs x → head (xs ++ ys) ≡ x
IsHead-head xs ys x (rest, e) = ap (λ l. head (l ++ ys)) e

-- The walk down ends at the first node of the subtree.
pub go_down-walk :
    (s : Store) (d : Side) (fuel : ℕ) (t : Tree) (p q : ℕ)
    → Shape s t p q
    → p ≢ 0
    → size t ≤ fuel
    → (x : ℕ) × (go_down fuel d p s ≡ some x) × IsHead (walk d t) x
unfolding walk
go_down-walk s d fuel leaf p q is ne enough = absurd (ne is)
go_down-walk s d zero (node c l a r) p q is ne enough =
    let k = (seen s d c l r a p q is).smaller in absurd (omega arith)
go_down-walk s d (suc fuel) (node c l a r) p q is ne enough =
    let view = seen s d c l r a p q is in
    let smaller = view.smaller in
    let far = walk d (part (other d) (node c l a r)) in
    elim (leaf_or_node s (part d (node c l a r)) (s.child d p) p view.near) [
      | inl (z, e) ↦
          (p, go_down-end s d fuel p z, (far, view.order ∙ ap (λ x. walk d x ++ p ∷ far) e))
      | inr child_ne ↦
          let (x, run, (rest, first)) =
            go_down-walk s d fuel (part d (node c l a r)) (s.child d p) p view.near child_ne
              (omega arith) in
          (
            x,
            go_down-step s d fuel p child_ne ∙ run,
            (rest ++ p ∷ far, view.order ∙ ap (λ xs. xs ++ p ∷ far) first),
          )
    ]

-- The walk up ends at what comes after the subtree.
go_up-step :
    (s : Store) (d : Side) (fuel p q : ℕ)
    → rb_parent p s ≡ q
    → q ≢ 0
    → s.child d q ≡ p
    → go_up (suc fuel) d p s ≡ go_up fuel d q s
unfolding go_up
go_up-step s d fuel p q above ne here =
    let a : (q == 0) ≡ false = ground arith in
    let b : (p == s.child d q) ≡ true = ground arith in rw (above, a, b) refl

go_up-end :
    (s : Store) (d : Side) (fuel p q : ℕ)
    → rb_parent p s ≡ q
    → (q ≢ 0 → p ≢ s.child d q)
    → go_up (suc fuel) d p s ≡ some q
unfolding go_up
go_up-end s d fuel p q above apart =
    let e : (not (q == 0) && (p == s.child d q)) ≡ false = ground arith in rw (above, e) refl

pub go_up-ahead :
    (s : Store) (d : Side) (fuel : ℕ) (zs : List Frame) (p q : ℕ) (c : Color)
    → length zs < fuel
    → p ≢ 0
    → s.parent_color p ≡ q + bit_of c
    → Around s zs p q
    → times_around p zs ≡ 0
    → ((y : ℕ) → times_around y zs ≤ 1)
    → go_up fuel d p s ≡ some (head (ahead (other d) zs))
unfolding ahead times_around
go_up-ahead s d zero zs p q c enough ne word around out once = absurd (omega arith)
go_up-ahead s d (suc fuel) [] p q c enough ne word (root, z) out once =
    let above = ap __rb_parent word ∙ parent_of q c (Around-IsLink s [] p q (root, z)) in
    go_up-end s d fuel p q above (λ h. absurd (h z)) ∙ ap some z
go_up-ahead s d (suc fuel) (f ∷ zs) p q c enough ne word around out once =
    let (e, is_node, hole, sib, up, link, pc, more) = around in
    let above = ap __rb_parent word ∙ parent_of q c (Around-IsLink s (f ∷ zs) p q around) ∙ e in
    let o = once f.addr in
    elim (Side-cases d f.side) [
      | inl same ↦
          let turned : side_eq f.side (other d) ≡ false =
            ap (λ x. side_eq f.side (other x)) same ∙ this_side f.side in
          let here : s.child d f.addr ≡ p = ap (λ x. s.child x f.addr) same ∙ hole in
          rw turned (
            go_up-step s d fuel p f.addr above is_node.0 here
            ∙ go_up-ahead s d fuel zs f.addr up f.color (omega arith) is_node.0 pc more
                (ground arith) (λ y. let k = once y in omega arith))
      | inr apart ↦
          let turned : side_eq f.side (other d) ≡ true =
            ap (λ x. side_eq f.side (other x)) apart
            ∙ ap (λ x. side_eq f.side x) (other-other f.side)
            ∙ same_side f.side in
          let away : p ≢ s.child d f.addr = λ z.
            let at_sib = subst (λ x. Shape s f.sibling (s.child x f.addr) f.addr) (sym apart) sib in
            root_apart s f.sibling (s.child d f.addr) f.addr at_sib p (omega arith)
              (λ w. ne (z ∙ w)) z in
          rw turned (go_up-end s d fuel p f.addr above (λ h. away))
    ]

-- A node's parent is another address.
pub parent_apart :
    (s : Store) (zs : List Frame) (a p q : ℕ)
    → Around s zs p q
    → a ≢ 0
    → times_around a zs ≡ 0
    → q ≢ a
unfolding times_around
parent_apart s [] a p q (root, z) ne out = λ e. ne (sym e ∙ z)
parent_apart s (f ∷ zs) a p q (e, is_node, hole, sib, up, link, pc, more) ne out = ground arith
