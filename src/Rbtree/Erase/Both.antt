-- ===== src/Rbtree/Erase/Both.antt =====
-- `__rb_erase_augmented` on a node with two children: its successor is taken out of its place and stands
-- where the node stood.
use mathlib.Core.Path.{subst}
use kernel_porting.Prelude.{
  ℕ, ◌+◌, ◌≤◌, ◌<◌, ◌≡◌, ◌≢◌, ◌∙◌, refl, sym, arith, ◌==◌, if◌then◌else◌, List, [], ◌∷◌, ◌++◌,
  length, some,
}
use kernel_porting.Rbtree.{left, right, Store, rb_set_parent_color}
use kernel_porting.Rbtree.Shape.{
  Color, black, bit_of, Tree, leaf, node, inorder, times, IsLink, IsNode, Shape, Frame, Around,
  times_around, plug, or_color, Shape-keep,
}
use kernel_porting.Rbtree.Fix.{BlackAbove, IsMended}
use kernel_porting.Rbtree.Fix.Heights.{BalancedAround, IsRedBlack}
use kernel_porting.Rbtree.Insert.Hole.{Around-IsLink, Balanced-unplug}
use kernel_porting.Rbtree.Erase.{erase_both_end, rebalance_from}
use kernel_porting.Rbtree.Erase.Recolor.{Leaves}
use kernel_porting.Rbtree.Erase.Span.{Span, Around-join, Span-keep, times_around-++}
use kernel_porting.Rbtree.Erase.Splice.{placed, attached, erase_both_end-placed, placed-IsPlaced}
use kernel_porting.Rbtree.Erase.Done.{Lone-build, settle-Leaves}

-- The frame of a node whose right subtree holds the hole.
abbrev pub with_left : Color → ℕ → Tree → Frame
with_left c a l = record { side = right; color = c; addr = a; sibling = l }

-- The colours around a hole do not depend on the addresses.
module _ (c : Color) (a y : ℕ) (l : Tree) (zs : List Frame) where
  BlackAbove-swap :
      (ws : List Frame)
      → BlackAbove (ws ++ with_left c a l ∷ zs)
      → BlackAbove (ws ++ with_left c y l ∷ zs)
  BlackAbove-swap [] is = is
  BlackAbove-swap (f ∷ ws) is = is

  IsMended-swap :
      (ws : List Frame)
      → IsMended (ws ++ with_left c a l ∷ zs)
      → IsMended (ws ++ with_left c y l ∷ zs)
  IsMended-swap [] is = is
  IsMended-swap (f ∷ ws) (top, more) =
      ((λ e. (BlackAbove-swap ws (top e).0, (top e).1)), IsMended-swap ws more)

  BalancedAround-swap :
      (ws : List Frame) (h : ℕ)
      → BalancedAround (ws ++ with_left c a l ∷ zs) h
      → BalancedAround (ws ++ with_left c y l ∷ zs) h
  BalancedAround-swap [] h is = is
  BalancedAround-swap (f ∷ ws) h (top, more) =
      (top, BalancedAround-swap ws (h + bit_of f.color) more)

-- The node `a` at the hole of `zs` with the left subtree `l`. Its successor `y` stands below the frames
-- `ws`, which are already linked around the successor's right subtree `t` and below the successor.
pub record Taken (s : Store) (a y : ℕ) (l t : Tree) (ws zs : List Frame) (q p parent top b : ℕ)
    (c cy : Color) : Type 0 where
  pub is_a : IsNode a
  pub is_y : IsNode y
  pub at_l : Shape s l (s.child left a) a
  pub has_l : s.child left a ≢ 0
  pub word_a : s.parent_color a ≡ q + bit_of c
  pub around : Around s zs a q
  pub span : Span s ws p parent y top
  pub at_right : s.child right y ≡ top
  pub at_t : Shape s t p y
  pub link : IsLink b
  pub word_y : s.parent_color y ≡ b + bit_of cy

module _ (fuel : ℕ) (s : Store) (a y : ℕ) (l t : Tree) (ws zs : List Frame) (q p parent top b : ℕ)
    (c cy : Color) (k : Taken s a y l t ws zs q p parent top b c cy)
    (once : (z : ℕ)
      → times z l
          + (if z == a then 1 else 0)
          + (if z == y then 1 else 0)
          + times z t
          + times_around z ws
          + times_around z zs
        ≤ 1)
    (red_black : IsRedBlack (plug (ws ++ with_left c a l ∷ zs) (node cy leaf y t)))
    (enough : length (ws ++ with_left c y l ∷ zs) < fuel) where
  pub both_end-Leaves :
      Leaves
        (rebalance_from fuel (some (erase_both_end a y parent p s)))
        (inorder (plug (ws ++ with_left c y l ∷ zs) t))
  unfolding times_around rb_set_parent_color
  both_end-Leaves =
      let frames = ws ++ with_left c y l ∷ zs in
      let (mended, h, tall, at_y, above) =
        Balanced-unplug (ws ++ with_left c a l ∷ zs) (node cy leaf y t) red_black in
      let (pl, old) =
        placed-IsPlaced s a y l zs q c k.is_a k.is_y k.at_l k.has_l k.word_a k.around
          (λ z. let o = once z in omega arith) in
      let s' = placed a y s in
      let not_y : (z : ℕ) → 1 ≤ times z t + times_around z ws → z ≢ y =
        λ z n. let o = once z in ground arith in
      let span' =
        Span-keep s s' ws p parent y top
          (λ z n. let o = once z in pl.words z (not_y z (omega arith)) (omega arith))
          (λ z d n. let o = once z in pl.kids z d (not_y z (omega arith)) (omega arith)) k.span in
      let around = Around-join s' ws (with_left c y l ∷ zs) p parent y top span' (
        refl,
        k.is_y,
        pl.at_right ∙ k.at_right,
        pl.at_l,
        q,
        Around-IsLink s zs a q k.around,
        pl.word,
        pl.around,
      ) in
      let link = Around-IsLink s' frames p parent around in
      subst (λ e. Leaves (rebalance_from fuel (some e)) (inorder (plug frames t)))
        (sym (erase_both_end-placed a y parent p s))
        (settle-Leaves fuel s' frames t p parent y b ((attached a y s).parent_color y) _ h cy
          (Lone-build left cy y t h at_y)
          (Shape-keep s s' t p y
            (λ z n. let o = once z in pl.words z (not_y z (omega arith)) (omega arith))
            (λ z d n. let o = once z in pl.kids z d (not_y z (omega arith)) (omega arith)) k.at_t)
          around
          (λ z.
            let o = once z in let m = times_around-++ z ws (with_left c y l ∷ zs) in ground arith)
          (BalancedAround-swap c a y l zs ws h tall) (IsMended-swap c a y l zs ws mended) enough
          k.link (old ∙ k.word_y) (λ _. or_color parent black link))
