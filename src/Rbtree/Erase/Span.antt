-- ===== src/Rbtree/Erase/Span.antt =====
-- The way from a node up to a place above it, while the part above changes.
use mathlib.Core.Path.{subst}
use kernel_porting.Prelude.{ℕ, ◌+◌, ◌≤◌, ◌≡◌, ◌≢◌, ◌∙◌, refl, sym, ap, arith, List, [], ◌∷◌, ◌++◌}
use kernel_porting.Rbtree.{Side, other, Store}
use kernel_porting.Rbtree.Shape.{
  Color, bit_of, times, IsLink, IsNode, Shape, Frame, Around, times_around, Shape-keep,
}

-- The frames `ws` stand around the pointer `p` with the parent `q`. The topmost of them is `top`, or the
-- pointer itself without frames, and its parent is `b`.
abbrev pub Span : Store → List Frame → (p q b top : ℕ) → Type 0
Span s [] p q b top = (q ≡ b) × (p ≡ top)
Span s (f ∷ ws) p q b top =
    (q ≡ f.addr)
    × IsNode f.addr
    × (s.child f.side f.addr ≡ p)
    × Shape s f.sibling (s.child (other f.side) f.addr) f.addr
    × (up : ℕ) × IsLink up
    × (s.parent_color f.addr ≡ up + bit_of f.color)
    × Span s ws f.addr up b top

pub Around-split :
    (s : Store) (ws zs : List Frame) (p q : ℕ)
    → Around s (ws ++ zs) p q
    → (b : ℕ) × (top : ℕ) × Span s ws p q b top × Around s zs top b
Around-split s [] zs p q around = (q, p, (refl, refl), around)
Around-split s (f ∷ ws) zs p q (e, is_f, hole, sib, up, link, pc, rest) =
    let (b, top, span, above) = Around-split s ws zs f.addr up rest in
    (b, top, (e, is_f, hole, sib, up, link, pc, span), above)

pub Around-join :
    (s : Store) (ws zs : List Frame) (p q b top : ℕ)
    → Span s ws p q b top
    → Around s zs top b
    → Around s (ws ++ zs) p q
Around-join s [] zs p q b top (e, e') around =
    subst (λ x. Around s zs p x) (sym e) (subst (λ x. Around s zs x b) (sym e') around)
Around-join s (f ∷ ws) zs p q b top (e, is_f, hole, sib, up, link, pc, span) around =
    (e, is_f, hole, sib, up, link, pc, Around-join s ws zs f.addr up b top span around)

pub times_around-++ :
    (y : ℕ) (ws zs : List Frame) → times_around y (ws ++ zs) ≡ times_around y ws + times_around y zs
unfolding times_around
times_around-++ y [] zs = omega arith
times_around-++ y (f ∷ ws) zs = omega (arith, times_around-++ y ws zs)

pub Span-top :
    (s : Store) (f : Frame) (ws : List Frame) (p q b top : ℕ)
    → Span s (f ∷ ws) p q b top
    → 1 ≤ times_around top (f ∷ ws)
unfolding times_around
Span-top s f [] p q b top (e, is_f, hole, sib, up, link, pc, (e', same)) = ground arith
Span-top s f (g ∷ ws) p q b top (e, is_f, hole, sib, up, link, pc, span) =
    let k = Span-top s g ws f.addr up b top span in ground arith

module _ (s s' : Store) where
  pub Span-keep :
      (ws : List Frame) (p q b top : ℕ)
      → ((y : ℕ) → 1 ≤ times_around y ws → s'.parent_color y ≡ s.parent_color y)
      → ((y : ℕ) (d : Side) → 1 ≤ times_around y ws → s'.child d y ≡ s.child d y)
      → Span s ws p q b top
      → Span s' ws p q b top
  unfolding times_around
  Span-keep [] p q b top words kids span = span
  Span-keep (f ∷ ws) p q b top words kids (e, is_f, hole, sib, up, link, pc, span) = (
    e,
    is_f,
    kids f.addr f.side (ground arith) ∙ hole,
    Shape-keep s s' f.sibling (s'.child (other f.side) f.addr) f.addr (λ y h. words y (omega arith))
        (λ y d h. kids y d (omega arith))
        (subst (λ x. Shape s f.sibling x f.addr) (sym (kids f.addr (other f.side) (ground arith)))
          sib),
    up,
    link,
    words f.addr (ground arith) ∙ pc,
    Span-keep ws f.addr up b top (λ y h. words y (omega arith)) (λ y d h. kids y d (omega arith))
        span,
  )

  -- The lowest pointer leads elsewhere, and the topmost node gets another parent.
  pub Span-rebase :
      (f : Frame) (ws : List Frame) (p p' q b b' top : ℕ)
      → IsLink b'
      → ((y : ℕ) → times_around y (f ∷ ws) ≤ 1)
      → s'.child f.side f.addr ≡ p'
      → s'.child (other f.side) f.addr ≡ s.child (other f.side) f.addr
      → ((y : ℕ) (d : Side) → 1 ≤ times_around y (f ∷ ws) → y ≢ f.addr → s'.child d y ≡ s.child d y)
      → ((y : ℕ) → 1 ≤ times_around y (f ∷ ws) → y ≢ top → s'.parent_color y ≡ s.parent_color y)
      → ((c : Color) → s.parent_color top ≡ b + bit_of c → s'.parent_color top ≡ b' + bit_of c)
      → Span s (f ∷ ws) p q b top
      → Span s' (f ∷ ws) p' q b' top
  unfolding times_around
  Span-rebase f [] p p' q b b' top link' once hole' side' kids words word
        (e, is_f, hole, sib, up, link, pc, (e', same)) =
      let o = once f.addr in
      (
        e,
        is_f,
        hole',
        Shape-keep s s' f.sibling (s'.child (other f.side) f.addr) f.addr
            (λ y h. let k = once y in words y (omega arith) (ground arith))
            (λ y d h. let k = once y in kids y d (omega arith) (ground arith))
            (subst (λ x. Shape s f.sibling x f.addr) (sym side') sib),
        b',
        link',
        ap s'.parent_color same
            ∙ word f.color (ap s.parent_color (sym same) ∙ pc ∙ ap (λ x. x + bit_of f.color) e'),
        (refl, same),
      )
  Span-rebase f (g ∷ ws) p p' q b b' top link' once hole' side' kids words word
        (e, is_f, hole, sib, up, link, pc, (e_g, is_g, hole_g, sib_g, up_g, link_g, pc_g, span)) =
      let rest : Span s (g ∷ ws) f.addr up b top =
        (e_g, is_g, hole_g, sib_g, up_g, link_g, pc_g, span) in
      let at_top = Span-top s g ws f.addr up b top rest in
      let o_top = once top in
      let o_f = once f.addr in
      let o_g = once g.addr in
      let g_f : g.addr ≢ f.addr = ground arith in
      (
        e,
        is_f,
        hole',
        Shape-keep s s' f.sibling (s'.child (other f.side) f.addr) f.addr
            (λ y h.
              let k = once y in
              words y (omega arith)
                (λ z. let w = subst (λ x. 1 ≤ times x f.sibling) z h in absurd (omega arith)))
            (λ y d h. let k = once y in kids y d (omega arith) (ground arith))
            (subst (λ x. Shape s f.sibling x f.addr) (sym side') sib),
        up,
        link,
        words f.addr (ground arith) (ground arith) ∙ pc,
        Span-rebase g ws f.addr f.addr up b b' top link' (λ y. let k = once y in omega arith)
            (kids g.addr g.side (ground arith) g_f ∙ hole_g)
            (kids g.addr (other g.side) (ground arith) g_f)
            (λ y d h ne.
              kids y d (omega arith) (λ z.
                let w = subst (λ x. 1 ≤ times_around x (g ∷ ws)) z h in absurd (ground arith)))
            (λ y h ne. words y (omega arith) ne) word rest,
      )
