-- ===== src/Rbtree/Fix/Balance.antt =====
-- The tree that `fix` describes: its order is the old one, and it is red-black.
use kernel_porting.Prelude.{
  ℕ, ◌≡◌, ◌∙◌, refl, sym, ap, inl, inr, List, [], ◌∷◌, ◌++◌, ++_assoc, ++_nil,
}
use kernel_porting.Rbtree.{Side, left, right, other}
use kernel_porting.Rbtree.Shape.{
  Color, red, black, Tree, leaf, node, build, inorder, Frame, plug, root_color,
}
use kernel_porting.Rbtree.Rotate.{same_side, other_side}
use kernel_porting.Rbtree.Fix.{
  paint, part, label, rotated, fix, IsRed, Color-cases, Side-cases, IsRed-build, root_color-build,
}

pub root_color-paint : (t : Tree) → root_color (paint black t) ≡ black
root_color-paint leaf = refl
root_color-paint (node c l a r) = refl

-- The sequence of a tree by the sequences of its two sides.
abbrev pub join : Side → ℕ → (near far : List ℕ) → List ℕ
join left a near far = near ++ a ∷ far
join right a near far = far ++ a ∷ near

pub inorder-build :
    (d : Side) (c : Color) (a : ℕ) (near far : Tree)
    → inorder (build d c a near far) ≡ join d a (inorder near) (inorder far)
unfolding inorder
inorder-build left c a near far = refl
inorder-build right c a near far = refl

inorder-paint : (c : Color) (t : Tree) → inorder (paint c t) ≡ inorder t
unfolding inorder
inorder-paint c leaf = refl
inorder-paint c (node b l a r) = refl

pub inorder_same :
    (d : Side) (c c' : Color) (a : ℕ) (t t' u u' : Tree)
    → inorder t ≡ inorder t'
    → inorder u ≡ inorder u'
    → inorder (build d c a t u) ≡ inorder (build d c' a t' u')
inorder_same d c c' a t t' u u' e e' =
    inorder-build d c a t u ∙ rw (e, e') (sym (inorder-build d c' a t' u'))

-- Only the order of the subtree matters for the order of the whole.
pub plug_same :
    (zs : List Frame) (t t' : Tree)
    → inorder t ≡ inorder t'
    → inorder (plug zs t) ≡ inorder (plug zs t')
unfolding plug
plug_same [] t t' e = e
plug_same (f ∷ zs) t t' e =
    plug_same zs _ _ (inorder_same f.side f.color f.color f.addr t t' f.sibling f.sibling e refl)

-- The sequence left and right of a hole.
abbrev pub before_at : Side → List ℕ → ℕ → List ℕ → List ℕ
before_at left bs a sib = bs
before_at right bs a sib = bs ++ (sib ++ a ∷ [])

abbrev pub after_at : Side → List ℕ → ℕ → List ℕ → List ℕ
after_at left rest a sib = a ∷ (sib ++ rest)
after_at right rest a sib = rest

unfoldable pub before : List Frame → List ℕ
before [] = []
before (f ∷ zs) = before_at f.side (before zs) f.addr (inorder f.sibling)

unfoldable pub after : List Frame → List ℕ
after [] = []
after (f ∷ zs) = after_at f.side (after zs) f.addr (inorder f.sibling)

join_split :
    (d : Side) (bs rest near : List ℕ) (a : ℕ) (sib : List ℕ)
    → bs ++ (join d a near sib ++ rest) ≡ before_at d bs a sib ++ (near ++ after_at d rest a sib)
join_split left bs rest near a sib = ap (λ l. bs ++ l) (++_assoc near (a ∷ sib) rest)
join_split right bs rest near a sib = simp ++_assoc

pub inorder-plug :
    (zs : List Frame) (t : Tree) → inorder (plug zs t) ≡ before zs ++ (inorder t ++ after zs)
unfolding plug before after
inorder-plug [] t = sym (++_nil (inorder t))
inorder-plug (f ∷ zs) t =
    inorder-plug zs (build f.side f.color f.addr t f.sibling)
    ∙ ap (λ l. before zs ++ (l ++ after zs)) (inorder-build f.side f.color f.addr t f.sibling)
    ∙ join_split f.side (before zs) (after zs) (inorder t) f.addr (inorder f.sibling)

pub join_outer :
    (d : Side) (a b : ℕ) (x y z : List ℕ) → join d a x (join d b y z) ≡ join d b (join d a x y) z
join_outer left a b x y z = simp ++_assoc
join_outer right a b x y z = simp ++_assoc

pub join_inner :
    (d : Side) (a f g : ℕ) (x y u v : List ℕ)
    → join d a (join d f u x) (join d g y v) ≡ join d g (join (other d) f (join d a x y) u) v
join_inner left a f g x y u v = simp ++_assoc
join_inner right a f g x y u v = simp ++_assoc

inorder-parts :
    (d : Side) (t : Tree) (n : ℕ)
    → IsRed t n
    → inorder t ≡ join d (label t) (inorder (part d t)) (inorder (part (other d) t))
unfolding inorder
inorder-parts d leaf n h = elim h [ ]
inorder-parts left (node c l a r) n h = refl
inorder-parts right (node c l a r) n h = refl

-- A rotation keeps the order.
inorder-rotated :
    (t : Tree) (n : ℕ) (f g : Frame)
    → IsRed t n
    → inorder (rotated t f g)
      ≡ inorder (build g.side g.color g.addr (build f.side f.color f.addr t f.sibling) g.sibling)
inorder-rotated t n f g h = elim (Side-cases f.side g.side) [
  | inl same ↦
      rw (same, same_side g.side)
        (let e =
            join_outer g.side f.addr g.addr (inorder t) (inorder f.sibling) (inorder g.sibling) in
          simp (inorder-build, e))
  | inr apart ↦
      rw (apart, other_side g.side)
        (let e =
            join_inner g.side (label t) f.addr g.addr (inorder (part g.side t))
              (inorder (part (other g.side) t)) (inorder f.sibling) (inorder g.sibling) in
          simp (inorder-build, inorder-parts g.side t n h, e))
]

module _ (t : Tree) (f g : Frame) (zs : List Frame) where
  -- The branches of `fix`.
  pub fix_black : f.color ≡ black → fix t (f ∷ g ∷ zs) ≡ plug (f ∷ g ∷ zs) t
  unfolding fix
  fix_black black_f = simp black_f

  pub fix_flip :
      f.color ≡ red
      → root_color g.sibling ≡ red
      → fix t (f ∷ g ∷ zs)
        ≡ fix
            (build g.side red g.addr
              (build f.side black f.addr t f.sibling)
              (paint black g.sibling))
            zs
  unfolding fix
  fix_flip red_f red_g = rw (red_f, red_g) refl

  pub fix_turn :
      f.color ≡ red → root_color g.sibling ≡ black → fix t (f ∷ g ∷ zs) ≡ plug zs (rotated t f g)
  unfolding fix
  fix_turn red_f black_g = rw (red_f, black_g) refl

-- `fix` keeps the order of the nodes.
pub inorder-fix :
    (zs : List Frame) (t : Tree) (n : ℕ) → IsRed t n → inorder (fix t zs) ≡ inorder (plug zs t)
unfolding fix plug
inorder-fix [] t n h = inorder-paint black t
inorder-fix (f ∷ []) t n h = refl
inorder-fix (f ∷ g ∷ zs) t n h = elim (Color-cases f.color) [
  | inr black_f ↦ ap inorder (fix_black t f g zs black_f)
  | inl red_f ↦ elim (Color-cases (root_color g.sibling)) [
    | inl red_g ↦
        let low = build f.side black f.addr t f.sibling in
        let up = paint black g.sibling in
        let is_red =
          IsRed-build g.side g.addr low up (root_color-build f.side black f.addr t f.sibling)
            (root_color-paint g.sibling) in
        let low_same = inorder_same f.side black f.color f.addr t t f.sibling f.sibling refl refl in
        ap inorder (fix_flip t f g zs red_f red_g)
        ∙ inorder-fix zs (build g.side red g.addr low up) g.addr is_red
        ∙ plug_same zs _ _ (
            inorder_same g.side red g.color g.addr _ _ _ _ low_same (inorder-paint black g.sibling))
    | inr black_g ↦
        ap inorder (fix_turn t f g zs red_f black_g) ∙ plug_same zs _ _ (inorder-rotated t n f g h)
  ]
]
