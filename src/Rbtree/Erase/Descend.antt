-- ===== src/Rbtree/Erase/Descend.antt =====
-- The loop of `__rb_erase_augmented` that finds the successor of a node with two children.
use mathlib.Core.Path.{subst}
use kernel_porting.Prelude.{
  ℕ, zero, suc, ◌+◌, ◌≤◌, ◌≡◌, ◌≢◌, ◌∙◌, refl, sym, ap, inl, inr, arith, true, false, ◌==◌, List,
  [], ◌∷◌, Option, some,
}
use kernel_porting.Rbtree.{left, right, Store}
use kernel_porting.Rbtree.Shape.{
  Color, bit_of, Tree, leaf, node, IsLink, IsNode, Shape, Frame, plug,
}
use kernel_porting.Rbtree.Walk.Ends.{size, leaf_or_node}
use kernel_porting.Rbtree.Erase.{find_successor}
use kernel_porting.Rbtree.Erase.Span.{Span}

-- The hole is on the left of each frame.
abbrev pub IsLeft : List Frame → Type 0
IsLeft [] = Unit
IsLeft (f ∷ ws) = (f.side ≡ left) × IsLeft ws

-- The leftmost node `y` of a tree, with the frames `f ∷ ws` between it and the pointer `top` below `b`.
pub record Leftmost (s : Store) (t : Tree) (r : Option (ℕ × ℕ)) (b top : ℕ) : Type 0 where
  pub f : Frame
  pub ws : List Frame
  pub color : Color
  pub y : ℕ
  pub right_of : Tree
  pub run : r ≡ some (f.addr, y)
  pub is_y : IsNode y
  pub word : s.parent_color y ≡ f.addr + bit_of color
  pub no_left : s.child left y ≡ 0
  pub at_right : Shape s right_of (s.child right y) y
  pub span : Span s (f ∷ ws) y f.addr b top
  pub is_left : IsLeft (f ∷ ws)
  pub tree : plug (f ∷ ws) (node color leaf y right_of) ≡ t

find_successor-last :
    (fuel q p : ℕ) (s : Store) → s.child left p ≡ 0 → find_successor (suc fuel) q p s ≡ some (q, p)
unfolding find_successor
find_successor-last fuel q p s e = let k : (s.child left p == 0) ≡ true = ground arith in rw k refl

find_successor-step :
    (fuel q p : ℕ) (s : Store)
    → s.child left p ≢ 0
    → find_successor (suc fuel) q p s ≡ find_successor fuel p (s.child left p) s
unfolding find_successor
find_successor-step fuel q p s e = let k : (s.child left p == 0) ≡ false = ground arith in rw k refl

-- From a node of the leftmost way down, the loop ends at the leftmost node.
pub find_successor-Leftmost :
    (s : Store) (fuel : ℕ) (t : Tree) (p q : ℕ) (f : Frame) (ws : List Frame) (b top : ℕ)
    → Shape s t p q
    → p ≢ 0
    → size t ≤ fuel
    → Span s (f ∷ ws) p q b top
    → IsLeft (f ∷ ws)
    → Leftmost s (plug (f ∷ ws) t) (find_successor fuel q p s) b top
unfolding plug size
find_successor-Leftmost s fuel leaf p q f ws b top is ne enough span lefts = absurd (ne is)
find_successor-Leftmost s zero (node c l a r) p q f ws b top is ne enough span lefts =
    absurd (omega arith)
find_successor-Leftmost s (suc fuel) (node c l a r) p q f ws b top (e, is_a, pc, at_l, at_r) ne
      enough span lefts =
    elim (leaf_or_node s l (s.child left a) a at_l) [
      | inl (z, no_l) ↦ record {
        f = f;
        ws = ws;
        color = c;
        y = a;
        right_of = r;
        run = find_successor-last fuel q p s (ap (s.child left) e ∙ z) ∙ rw (e, span.0) refl;
        is_y = is_a;
        word = pc ∙ ap (λ x. x + bit_of c) span.0;
        no_left = z;
        at_right = at_r;
        span =
            subst (λ x. Span s (f ∷ ws) a x b top) span.0
              (subst (λ x. Span s (f ∷ ws) x q b top) e span);
        is_left = lefts;
        tree = ap (λ x. plug (f ∷ ws) (node c x a r)) (sym no_l);
      }
      | inr child_ne ↦
          let g : Frame = record { side = left; color = c; addr = a; sibling = r } in
          let link : IsLink q = subst IsLink (sym span.0) span.1.1 in
          let rest =
            find_successor-Leftmost s fuel l (s.child left a) a g (f ∷ ws) b top at_l child_ne
              (omega arith)
              (refl, is_a, refl, at_r, q, link, pc, subst (λ x. Span s (f ∷ ws) x q b top) e span)
              (refl, lefts) in
          let step =
            find_successor-step fuel q p s (λ z. child_ne (ap (s.child left) (sym e) ∙ z))
            ∙ rw e refl in
          subst (λ x. Leftmost s (plug (f ∷ ws) (node c l a r)) x b top) (sym step) rest
    ]
