-- ===== src/Rbtree/Erase/Cached.antt =====
-- `rb_erase` leaves the cached leftmost node alone.
use kernel_porting.Prelude.{
  ℕ, zero, suc, arith, bit_or, ◌≡◌, refl, not, ◌==◌, if◌then◌else◌, Option, none, some,
}
use kernel_porting.Rbtree.{
  Side, left, right, other, Store, put_child, put_parent_color, rb_parent, rb_set_parent,
  rb_set_parent_color, rb_set_black, rb_red, rb_black, __rb_parent, blacken_child,
}
use kernel_porting.Rbtree.Insert.Cached.{leftmost_or, change_child_keeps, rotate_keeps}
use kernel_porting.Rbtree.Erase.{
  Erased, erase_right_only, erase_left_only, find_successor, erase_both_end, erase_far, erase_both,
  erase_cases, erase_red_sibling, erase_near_red, erase_far_red, erase_black_sibling,
  erase_color_loop, ____rb_erase_color, rebalance_from,
}

-- The cached node after a run, and `m` when the run did not end.
abbrev erased_or : ℕ → Option Erased → ℕ
erased_or m none = m
erased_or m (some e) = e.store.leftmost

module _ (m : ℕ) where
  far_red_keeps :
      (d : Side) (parent sibling tmp1 : ℕ) (s : Store)
      → s.leftmost ≡ m
      → (erase_far_red d parent sibling tmp1 s).leftmost ≡ m
  unfolding erase_far_red rb_set_parent_color rb_set_parent
  far_red_keeps d parent sibling tmp1 s e = rotate_keeps m parent sibling rb_black _ (ground arith)

  near_red_keeps :
      (d : Side) (parent sibling tmp2 : ℕ) (s : Store)
      → s.leftmost ≡ m
      → (erase_near_red d parent sibling tmp2 s).leftmost ≡ m
  unfolding erase_near_red blacken_child rb_set_parent_color
  near_red_keeps d parent sibling tmp2 s e = ground arith

  red_sibling_keeps :
      (d : Side) (parent sibling : ℕ) (s : Store)
      → s.leftmost ≡ m
      → (erase_red_sibling d parent sibling s).leftmost ≡ m
  unfolding erase_red_sibling rb_set_parent_color
  red_sibling_keeps d parent sibling s e = rotate_keeps m parent sibling rb_red _ e

  black_sibling_keeps :
      (d : Side) (parent sibling : ℕ) (s : Store) (rest : Store → Option Store)
      → s.leftmost ≡ m
      → ((s' : Store) → s'.leftmost ≡ m → leftmost_or m (rest s') ≡ m)
      → leftmost_or m (erase_black_sibling d parent sibling s rest) ≡ m
  unfolding erase_black_sibling rb_set_parent_color rb_set_black
  black_sibling_keeps d parent sibling s rest e on =
      let flipped = put_parent_color sibling (bit_or parent rb_red) s in
      let tmp2 = s.child d sibling in
      let k1 = on flipped e in
      let k2 =
        far_red_keeps d parent tmp2 sibling (erase_near_red d parent sibling tmp2 s)
          (near_red_keeps d parent sibling tmp2 s e) in
      let k3 = far_red_keeps d parent sibling (s.child (other d) sibling) s e in ground arith

  color_loop_keeps :
      (fuel node parent : ℕ) (s : Store)
      → s.leftmost ≡ m
      → leftmost_or m (erase_color_loop fuel node parent s) ≡ m
  unfolding erase_color_loop
  color_loop_keeps zero node parent s e = refl
  color_loop_keeps (suc fuel) node parent s e =
      let d = if not (node == s.child right parent) then left else right in
      let sibling = s.child (other d) parent in
      let rest : Store → Option Store =
        λ s'. erase_color_loop fuel parent (rb_parent parent s') s' in
      let ih = λ (s' : Store) (e' : s'.leftmost ≡ m).
        color_loop_keeps fuel parent (rb_parent parent s') s' e' in
      let k1 =
        black_sibling_keeps d parent (s.child d sibling) (erase_red_sibling d parent sibling s) rest
          (red_sibling_keeps d parent sibling s e) ih in
      let k2 = black_sibling_keeps d parent sibling s rest e ih in ground arith

  both_end_keeps :
      (node successor parent child2 : ℕ) (s : Store)
      → s.leftmost ≡ m
      → (erase_both_end node successor parent child2 s).store.leftmost ≡ m
  unfolding erase_both_end rb_set_parent_color rb_set_parent
  both_end_keeps node successor parent child2 s e =
      let tmp = s.child left node in
      let s2 = rb_set_parent tmp successor (put_child left successor tmp s) in
      let k = change_child_keeps m node successor (__rb_parent (s2.parent_color node)) s2 e in
      ground arith

  far_keeps :
      (node child : ℕ) (s : Store) (r : Option (ℕ × ℕ))
      → s.leftmost ≡ m
      → erased_or m (erase_far node child s r) ≡ m
  unfolding rb_set_parent
  far_keeps node child s none e = refl
  far_keeps node child s (some (parent, successor)) e = both_end_keeps node successor parent _ _ e

  cases_keep :
      (fuel node : ℕ) (s : Store)
      → s.leftmost ≡ m
      → erased_or m (erase_cases fuel node (some s)) ≡ m
  unfolding erase_right_only erase_left_only erase_both
  cases_keep fuel node s e =
      let ch = s.child right node in
      let k1 = change_child_keeps m node ch (__rb_parent (s.parent_color node)) s e in
      let k2 =
        change_child_keeps m node (s.child left node) (__rb_parent (s.parent_color node))
          (put_parent_color (s.child left node) (s.parent_color node) s) e in
      let k3 = both_end_keeps node ch ch (s.child right ch) s e in
      let k4 = far_keeps node ch s (find_successor fuel ch (s.child left ch) s) e in ground arith

  rebalance_keeps :
      (fuel : ℕ) (r : Option Erased) → erased_or m r ≡ m → leftmost_or m (rebalance_from fuel r) ≡ m
  unfolding ____rb_erase_color
  rebalance_keeps fuel none e = refl
  rebalance_keeps fuel (some x) e =
      let k = color_loop_keeps fuel 0 x.rebalance x.store e in ground arith

  pub erase_keeps :
      (fuel node : ℕ) (s : Store)
      → s.leftmost ≡ m
      → leftmost_or m (rebalance_from fuel (erase_cases fuel node (some s))) ≡ m
  erase_keeps fuel node s e =
      rebalance_keeps fuel (erase_cases fuel node (some s)) (cases_keep fuel node s e)
