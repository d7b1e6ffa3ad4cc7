-- ===== src/Rbtree/Adopt.antt =====
-- `rb_set_parent` on a child that may be NULL.
use kernel_porting.Prelude.{
  ℕ, ◌+◌, ◌≡◌, ◌≢◌, ◌∙◌, refl, ap, inl, inr, arith, ◌==◌, bit_or, Bool-cases,
}
use kernel_porting.Bits.{testbit_ext, testbit-bit_or}
use kernel_porting.Rbtree.{Side, Store, __rb_color, rb_set_parent, reparent_child}
use kernel_porting.Rbtree.Shape.{
  Color, bit_of, Tree, leaf, node, IsLink, Shape, root_color, or_color, color_of,
}

bit_or_comm : (x y : ℕ) → bit_or x y ≡ bit_or y x
bit_or_comm x y = testbit_ext _ _ λ i. ground (arith, testbit-bit_or i x y, testbit-bit_or i y x)

-- The word of a tree's root.
pub root_word :
    (s : Store) (t : Tree) (p q : ℕ)
    → Shape s t p q
    → p ≢ 0
    → s.parent_color p ≡ q + bit_of (root_color t)
root_word s leaf p q is ne = absurd (ne is)
root_word s (node c l a r) p q (e, is, pc, at_l, at_r) ne = ap s.parent_color e ∙ pc

-- What a new parent for `tmp` does.
pub record IsAdopted (s s' : Store) (tmp new : ℕ) : Type 0 where
  pub top :
      (c : Color) (q : ℕ)
      → tmp ≢ 0
      → IsLink q
      → IsLink new
      → s.parent_color tmp ≡ q + bit_of c
      → s'.parent_color tmp ≡ new + bit_of c
  pub words : (y : ℕ) → (tmp ≢ 0 → y ≢ tmp) → s'.parent_color y ≡ s.parent_color y
  pub children : (y : ℕ) (d : Side) → s'.child d y ≡ s.child d y
  pub root : s'.root ≡ s.root

pub reparent_child-IsAdopted :
    (s : Store) (tmp new : ℕ) → IsAdopted s (reparent_child tmp new s) tmp new
unfolding rb_set_parent
reparent_child-IsAdopted s tmp new = elim (Bool-cases (tmp == 0)) [
  | inl is_null ↦ rw is_null (record {
    top = λ c q ne link link' word. absurd (ground arith);
    words = λ y ne. refl;
    children = λ y e. refl;
    root = refl;
  })
  | inr not_null ↦ rw not_null (record {
    top = λ c q ne link link' word.
        let set =
          ap (λ w. bit_or (__rb_color w) new) word
          ∙ ap (λ w. bit_or w new) (color_of q c link)
          ∙ bit_or_comm (bit_of c) new
          ∙ or_color new c link' in
        ground arith;
    words = λ y ne. let apart = ne (ground arith) in ground arith;
    children = λ y e. refl;
    root = refl;
  })
]
