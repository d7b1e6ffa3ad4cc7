-- ===== src/Rbtree/Fix/Heights.antt =====
-- The tree that `fix` describes is red-black: equally many black nodes on every way down, and no red
-- node with a red child.
use mathlib.Core.Path.{subst}
use kernel_porting.Prelude.{
  ℕ, suc, ◌+◌, ◌≡◌, ◌≢◌, ◌∙◌, refl, sym, ap, inl, inr, arith, List, [], ◌∷◌,
}
use kernel_porting.Rbtree.{Side, left, right, other}
use kernel_porting.Rbtree.Shape.{
  Color, red, black, bit_of, Tree, leaf, node, build, Frame, plug, root_color,
}
use kernel_porting.Rbtree.Rotate.{same_side, other_side}
use kernel_porting.Rbtree.Fix.{
  paint, part, label, rotated, fix, IsRed, BlackAbove, IsMended, Color-cases, Side-cases,
  IsRed-build, root_color-build,
}
use kernel_porting.Rbtree.Fix.Balance.{fix_black, fix_flip, fix_turn, root_color-paint}

-- A red-black tree with `h` black nodes on each way down.
abbrev pub Balanced : Tree → ℕ → Type 0
Balanced leaf h = h ≡ 0
Balanced (node red l a r) h =
    (root_color l ≡ black) × (root_color r ≡ black) × Balanced l h × Balanced r h
Balanced (node black l a r) h = (k : ℕ) × (h ≡ suc k) × Balanced l k × Balanced r k

-- The subtrees that hang beside the way from a hole up, when the hole's own tree has `h` black nodes.
abbrev pub BalancedAround : List Frame → ℕ → Type 0
BalancedAround [] h = Unit
BalancedAround (f ∷ zs) h = Balanced f.sibling h × BalancedAround zs (h + bit_of f.color)

abbrev pub IsRedBlack : Tree → Type 0
IsRedBlack t = (root_color t ≡ black) × ((h : ℕ) × Balanced t h)

pub Balanced-red :
    (d : Side) (a : ℕ) (near far : Tree) (h : ℕ)
    → root_color near ≡ black
    → root_color far ≡ black
    → Balanced near h
    → Balanced far h
    → Balanced (build d red a near far) h
Balanced-red left a near far h b c x y = (b, c, x, y)
Balanced-red right a near far h b c x y = (c, b, y, x)

pub Balanced-black :
    (d : Side) (a : ℕ) (near far : Tree) (h : ℕ)
    → Balanced near h
    → Balanced far h
    → Balanced (build d black a near far) (h + 1)
Balanced-black left a near far h x y = (h, omega arith, x, y)
Balanced-black right a near far h x y = (h, omega arith, y, x)

Balanced-paint :
    (t : Tree) (h : ℕ) → root_color t ≡ red → Balanced t h → Balanced (paint black t) (h + 1)
Balanced-paint leaf h e is = absurd (ground arith)
Balanced-paint (node red l a r) h e (b, c, x, y) = (h, omega arith, x, y)
Balanced-paint (node black l a r) h e is = absurd (ground arith)

Balanced-part :
    (d : Side) (t : Tree) (n h : ℕ)
    → IsRed t n
    → Balanced t h
    → (root_color (part d t) ≡ black) × Balanced (part d t) h
Balanced-part d leaf n h is b = elim is [ ]
Balanced-part d (node black l a r) n h is b = absurd (let e = is.0 in ground arith)
Balanced-part left (node red l a r) n h is (b, c, x, y) = (b, x)
Balanced-part right (node red l a r) n h is (b, c, x, y) = (c, y)

-- One level up.
pub Balanced-step :
    (f : Frame) (t : Tree) (h : ℕ)
    → Balanced t h
    → Balanced f.sibling h
    → (f.color ≡ red → (root_color t ≡ black) × (root_color f.sibling ≡ black))
    → Balanced (build f.side f.color f.addr t f.sibling) (h + bit_of f.color)
Balanced-step f t h at_t at_sib mended = elim (Color-cases f.color) [
  | inl red_f ↦
      let (b, c) = mended red_f in
      let e : h + 0 ≡ h = omega arith in
      rw (red_f, e) (Balanced-red f.side f.addr t f.sibling h b c at_t at_sib)
  | inr black_f ↦ rw black_f (Balanced-black f.side f.addr t f.sibling h at_t at_sib)
]

pub black_not_red : (c : Color) → c ≡ black → c ≢ red
black_not_red c e z = absurd (ground arith)

-- A hole filled with a tree that fits is a red-black tree.
pub Balanced-plug :
    (zs : List Frame) (t : Tree) (h : ℕ)
    → Balanced t h
    → BalancedAround zs h
    → IsMended zs
    → (root_color t ≡ red → BlackAbove zs)
    → IsRedBlack (plug zs t)
unfolding plug
Balanced-plug [] t h at_t around mended above = elim (Color-cases (root_color t)) [
  | inl red_t ↦ elim (above red_t) [ ]
  | inr black_t ↦ (black_t, (h, at_t))
]
Balanced-plug (f ∷ zs) t h at_t (at_sib, around) (mended, more) above =
    let top = root_color-build f.side f.color f.addr t f.sibling in
    let black_t : f.color ≡ red → root_color t ≡ black = λ red_f.
      elim (Color-cases (root_color t)) [
        | inl red_t ↦ absurd (black_not_red f.color (above red_t) red_f)
        | inr black_t ↦ black_t
      ] in
    Balanced-plug zs (build f.side f.color f.addr t f.sibling) (h + bit_of f.color)
      (Balanced-step f t h at_t at_sib (λ red_f. (black_t red_f, (mended red_f).1))) around more
      (λ red_top. (mended (sym top ∙ red_top)).0)

-- The tree that the rotations make.
Balanced-rotated :
    (t : Tree) (n h : ℕ) (f g : Frame)
    → IsRed t n
    → Balanced t h
    → Balanced f.sibling h
    → root_color f.sibling ≡ black
    → Balanced g.sibling h
    → root_color g.sibling ≡ black
    → Balanced (rotated t f g) (h + 1) × (root_color (rotated t f g) ≡ black)
Balanced-rotated t n h f g is at_t at_f black_f at_g black_g =
    let d = g.side in
    elim (Side-cases f.side d) [
      | inl same ↦
          rw (same, same_side d)
            (
              Balanced-black d f.addr t (build d red g.addr f.sibling g.sibling) h at_t
                  (Balanced-red d g.addr f.sibling g.sibling h black_f black_g at_f at_g),
              root_color-build d black f.addr t (build d red g.addr f.sibling g.sibling),
            )
      | inr apart ↦
          let (black_a, at_a) = Balanced-part d t n h is at_t in
          let (black_b, at_b) = Balanced-part (other d) t n h is at_t in
          let near = build d red f.addr f.sibling (part d t) in
          let far = build d red g.addr (part (other d) t) g.sibling in
          rw (apart, other_side d)
            (
              Balanced-black d (label t) near far h
                  (Balanced-red d f.addr f.sibling (part d t) h black_f black_a at_f at_a)
                  (Balanced-red d g.addr (part (other d) t) g.sibling h black_b black_g at_b at_g),
              root_color-build d black (label t) near far,
            )
    ]

-- The mended tree is red-black.
pub fix-IsRedBlack :
    (zs : List Frame) (t : Tree) (n h : ℕ)
    → IsRed t n
    → Balanced t h
    → BalancedAround zs h
    → IsMended zs
    → IsRedBlack (fix t zs)
unfolding fix
fix-IsRedBlack [] leaf n h is at_t around mended = elim is [ ]
fix-IsRedBlack [] (node c l a r) n h is at_t around mended =
    (refl, (h + 1, Balanced-paint (node c l a r) h is.0 at_t))
fix-IsRedBlack (f ∷ []) t n h is at_t around mended = elim (Color-cases f.color) [
  | inl red_f ↦ elim ((mended.0 red_f).0) [ ]
  | inr black_f ↦ Balanced-plug (f ∷ []) t h at_t around mended (λ red_t. black_f)
]
fix-IsRedBlack (f ∷ g ∷ zs) t n h is at_t (at_f, (at_g, around)) (mended, (mended_g, more)) =
    elim (Color-cases f.color) [
      | inr black_f ↦ subst IsRedBlack (sym (fix_black t f g zs black_f)) (
          Balanced-plug (f ∷ g ∷ zs) t h at_t (at_f, (at_g, around)) (mended, (mended_g, more))
            (λ red_t. black_f))
      | inl red_f ↦
          let (g_black, black_f) = mended red_f in
          let e : h + bit_of f.color ≡ h = ap (λ c. h + bit_of c) red_f ∙ omega arith in
          let e_up : h + bit_of f.color + bit_of g.color ≡ h + 1 = rw (e, g_black) refl in
          let at_g' = subst (λ k. Balanced g.sibling k) e at_g in
          let around' = subst (λ k. BalancedAround zs k) e_up around in
          elim (Color-cases (root_color g.sibling)) [
            | inl red_g ↦
                let low = build f.side black f.addr t f.sibling in
                let up = paint black g.sibling in
                let low_black = root_color-build f.side black f.addr t f.sibling in
                let up_black = root_color-paint g.sibling in
                subst IsRedBlack (sym (fix_flip t f g zs red_f red_g)) (
                  fix-IsRedBlack zs (build g.side red g.addr low up) g.addr (h + 1)
                    (IsRed-build g.side g.addr low up low_black up_black)
                    (Balanced-red g.side g.addr low up (h + 1) low_black up_black
                      (Balanced-black f.side f.addr t f.sibling h at_t at_f)
                      (Balanced-paint g.sibling h red_g at_g'))
                    around' more)
            | inr black_g ↦
                let (at_top, top) = Balanced-rotated t n h f g is at_t at_f black_f at_g' black_g in
                subst IsRedBlack (sym (fix_turn t f g zs red_f black_g)) (
                  Balanced-plug zs (rotated t f g) (h + 1) at_top around' more
                    (λ red_top. absurd (black_not_red _ top red_top)))
          ]
    ]
