-- ===== src/Rbtree/Walk/Replace.antt =====
-- `rb_replace_node`: the new node stands where the old one stood.
use mathlib.Core.Path.{subst}
use kernel_porting.Prelude.{
  ℕ, ◌+◌, ◌≤◌, ◌≡◌, ◌≢◌, ◌∙◌, refl, sym, ap, arith, ◌==◌, if◌then◌else◌, List,
}
use kernel_porting.Rbtree.{Side, left, right, Store, __rb_parent, rb_parent, __rb_change_child}
use kernel_porting.Rbtree.Shape.{
  Color, red, black, bit_of, Tree, node, times, IsNode, Shape, Frame, Around, times_around, plug,
  root_color, parent_of, Shape-keep, Around-keep, Shape-reparent, root_apart, root_times,
  times-plug, Shape-plug,
}
use kernel_porting.Rbtree.Rotate.{change_child-IsChanged}
use kernel_porting.Rbtree.Adopt.{root_word, IsAdopted, reparent_child-IsAdopted}
use kernel_porting.Rbtree.Fix.Heights.{Balanced, Balanced-plug}
use kernel_porting.Rbtree.Insert.{IsTree}
use kernel_porting.Rbtree.Insert.Hole.{Shape-unplug, Balanced-unplug, Around-IsLink}
use kernel_porting.Rbtree.Walk.{adopt, copy_node, rb_replace_node}

adopt-IsAdopted :
    (s : Store) (d : Side) (victim new : ℕ)
    → IsAdopted s (adopt d victim new s) (s.child d victim) new
unfolding adopt
adopt-IsAdopted s d victim new = reparent_child-IsAdopted s (s.child d victim) new

Balanced-relabel :
    (c : Color) (l r : Tree) (a n h : ℕ) → Balanced (node c l a r) h → Balanced (node c l n r) h
Balanced-relabel red l r a n h is = is
Balanced-relabel black l r a n h is = is

copy_child : (s : Store) (d : Side) (a n : ℕ) → (copy_node a n s).child d n ≡ s.child d a
unfolding copy_node
copy_child s left a n = ground arith
copy_child s right a n = ground arith

-- The store after the copy and both adoptions.
record Moved (s s' : Store) (l r : Tree) (a n : ℕ) : Type 0 where
  word : s'.parent_color n ≡ s.parent_color a
  at_l : Shape s' l (s'.child left n) n
  at_r : Shape s' r (s'.child right n) n
  words : (y : ℕ) → y ≢ n → times y l ≡ 0 → times y r ≡ 0 → s'.parent_color y ≡ s.parent_color y
  children : (y : ℕ) (d : Side) → y ≢ n → s'.child d y ≡ s.child d y
  root : s'.root ≡ s.root

move-Moved :
    (s : Store) (l r : Tree) (a n : ℕ)
    → IsNode a
    → IsNode n
    → Shape s l (s.child left a) a
    → Shape s r (s.child right a) a
    → ((y : ℕ) → times y l + (if y == a then 1 else 0) + times y r ≤ 1)
    → times n l + (if n == a then 1 else 0) + times n r ≡ 0
    → Moved s (adopt right a n (adopt left a n (copy_node a n s))) l r a n
unfolding copy_node
move-Moved s l r a n is_a is_n at_l at_r once fresh =
    let s1 = copy_node a n s in
    let s2 = adopt left a n s1 in
    let one = adopt-IsAdopted s1 left a n in
    let two = adopt-IsAdopted s2 right a n in
    let apart : n ≢ a = ground arith in
    let left_a : s1.child left a ≡ s.child left a = ground arith in
    let right_a : s2.child right a ≡ s.child right a = one.children a right ∙ ground arith in
    let s3 = adopt right a n s2 in
    let off_l = root_apart s l (s.child left a) a at_l in
    let off_r = root_apart s r (s.child right a) a at_r in
    let words1 : (y : ℕ) → y ≢ n → s1.parent_color y ≡ s.parent_color y = λ y h. ground arith in
    let words2 : (y : ℕ) → times y l ≡ 0 → s2.parent_color y ≡ s1.parent_color y =
      λ y h. one.words y (subst (λ x. x ≢ 0 → y ≢ x) (sym left_a) (off_l y h)) in
    let words3 : (y : ℕ) → times y r ≡ 0 → s3.parent_color y ≡ s2.parent_color y =
      λ y h. two.words y (subst (λ x. x ≢ 0 → y ≢ x) (sym right_a) (off_r y h)) in
    let kids : (y : ℕ) (d : Side) → y ≢ n → s3.child d y ≡ s.child d y =
      λ y d h. two.children y d ∙ one.children y d ∙ ground arith in
    let on_n : (d : Side) → s3.child d n ≡ s.child d a =
      λ d. two.children n d ∙ one.children n d ∙ copy_child s d a n in
    let fresh_at : (y : ℕ) → 1 ≤ times y l + times y r → y ≢ n =
      λ y h z. absurd (let w = subst (λ x. 1 ≤ times x l + times x r) z h in omega arith) in
    let in_l = root_times s l (s.child left a) a at_l in
    let in_r = root_times s r (s.child right a) a at_r in
    let top_l : s.child left a ≢ 0 → s3.parent_color (s.child left a) ≡ n + bit_of (root_color l) =
      λ ne.
        let p = s.child left a in
        let o = once p in
        let here = in_l ne in
        words3 p (omega arith)
        ∙ subst
            (λ x.
              x ≢ 0
              → s1.parent_color x ≡ a + bit_of (root_color l)
              → s2.parent_color x ≡ n + bit_of (root_color l))
            left_a (λ ne' w. one.top (root_color l) a ne' is_a.1 is_n.1 w) ne
            (words1 p (fresh_at p (omega arith)) ∙ root_word s l p a at_l ne) in
    let top_r : s.child right a ≢ 0
        → s3.parent_color (s.child right a) ≡ n + bit_of (root_color r) =
      λ ne.
        let p = s.child right a in
        let o = once p in
        let here = in_r ne in
        subst
          (λ x.
            x ≢ 0
            → s2.parent_color x ≡ a + bit_of (root_color r)
            → s3.parent_color x ≡ n + bit_of (root_color r))
          right_a (λ ne' w. two.top (root_color r) a ne' is_a.1 is_n.1 w) ne
          (words2 p (omega arith)
            ∙ words1 p (fresh_at p (omega arith))
            ∙ root_word s r p a at_r ne) in
    record {
      word = words3 n (omega arith) ∙ words2 n (omega arith) ∙ ground arith;
      at_l =
          subst (λ x. Shape s3 l x n) (sym (on_n left))
            (Shape-reparent s s3 l (s.child left a) a n (λ y. let o = once y in omega arith) top_l
              (λ y h ne.
                let o = once y in
                words3 y (omega arith)
                ∙ one.words y (λ z e. ne (e ∙ left_a))
                ∙ words1 y (fresh_at y (omega arith)))
              (λ y d h. kids y d (fresh_at y (omega arith))) at_l);
      at_r =
          subst (λ x. Shape s3 r x n) (sym (on_n right))
            (Shape-reparent s s3 r (s.child right a) a n (λ y. let o = once y in omega arith) top_r
              (λ y h ne.
                let o = once y in
                two.words y (λ z e. ne (e ∙ right_a))
                ∙ words2 y (omega arith)
                ∙ words1 y (fresh_at y (omega arith)))
              (λ y d h. kids y d (fresh_at y (omega arith))) at_r);
      words = λ y h hl hr. words3 y hr ∙ words2 y hl ∙ words1 y h;
      children = kids;
      root = two.root ∙ one.root;
    }

-- Replacing a node of a red-black tree by a node at an aligned address that is not in the tree
-- leaves a red-black tree that differs only in that the new node stands in place of the old.
pub rb_replace_node-IsTree :
    (s : Store) (zs : List Frame) (c : Color) (l r : Tree) (a n : ℕ)
    → IsTree s (plug zs (node c l a r))
    → IsNode n
    → times n (plug zs (node c l a r)) ≡ 0
    → IsTree (rb_replace_node a n s) (plug zs (node c l n r))
unfolding rb_replace_node times
rb_replace_node-IsTree s zs c l r a n is is_n fresh =
    let (p, q, (e, is_a, pc, at_l, at_r), around) = Shape-unplug s zs (node c l a r) is.shape in
    let here = subst (λ x. Around s zs x q) e around in
    let (mended, h, balanced, at_h, above) = Balanced-unplug zs (node c l a r) is.red_black in
    let all : (y : ℕ) → times y l + (if y == a then 1 else 0) + times y r + times_around y zs ≤ 1 =
      λ y. let k = times-plug y zs (node c l a r) in let o = is.once y in omega arith in
    let none_n : times n l + (if n == a then 1 else 0) + times n r + times_around n zs ≡ 0 =
      (let k = times-plug n zs (node c l a r) in omega arith) in
    let link = Around-IsLink s zs a q here in
    let over : rb_parent a s ≡ q = ap __rb_parent pc ∙ parent_of q c link in
    let m =
      move-Moved s l r a n is_a is_n at_l at_r (λ y. let o = all y in omega arith) (omega arith) in
    let s3 = adopt right a n (adopt left a n (copy_node a n s)) in
    let at_a = all a in
    let apart : (y : ℕ) → 1 ≤ times_around y zs → y ≢ n =
      λ y k z. absurd (let w = subst (λ x. 1 ≤ times_around x zs) z k in omega arith) in
    let here3 =
      Around-keep s s3 zs a q m.root
        (λ y k. let o = all y in m.words y (apart y k) (omega arith) (omega arith))
        (λ y d k. m.children y d (apart y k)) here in
    let ch =
      change_child-IsChanged s3 zs a n q here3 is_a.0 (ground arith)
        (λ y. let o = all y in omega arith) in
    let s' = __rb_change_child a n q s3 in
    let off : (y : ℕ) → 1 ≤ times y l + times y r → times_around y zs ≡ 0 =
      λ y k. let o = all y in omega arith in
    let off_n : times_around n zs ≡ 0 = omega arith in
    let at_l' =
      Shape-keep s3 s' l (s'.child left n) n (λ y k. ch.words y)
        (λ y d k. ch.children y d (off y (omega arith)))
        (subst (λ x. Shape s3 l x n) (sym (ch.children n left off_n)) m.at_l) in
    let at_r' =
      Shape-keep s3 s' r (s'.child right n) n (λ y k. ch.words y)
        (λ y d k. ch.children y d (off y (omega arith)))
        (subst (λ x. Shape s3 r x n) (sym (ch.children n right off_n)) m.at_r) in
    subst (λ x. IsTree (__rb_change_child a n x s3) (plug zs (node c l n r))) (sym over)
      (record {
        shape =
            Shape-plug s' zs (node c l n r) n q (refl, is_n, ch.words n ∙ m.word ∙ pc, at_l', at_r')
              ch.around;
        once = λ y. let k = times-plug y zs (node c l n r) in let o = all y in ground arith;
        red_black =
            Balanced-plug zs (node c l n r) h (Balanced-relabel c l r a n h at_h) balanced mended
              above;
      })
