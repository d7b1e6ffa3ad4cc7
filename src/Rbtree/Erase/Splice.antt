-- ===== src/Rbtree/Erase/Splice.antt =====
-- What both cases of `__rb_erase_augmented` with two children share: the successor takes the place of
-- the node.
use mathlib.Core.Path.{subst}
use kernel_porting.Prelude.{
  ℕ, ◌+◌, ◌≤◌, ◌≡◌, ◌≢◌, ◌∙◌, refl, sym, ap, arith, false, not, ◌==◌, if◌then◌else◌, List,
}
use kernel_porting.Rbtree.{
  Side, left, right, Store, put_parent_color, put_child, __rb_parent, __rb_is_black, rb_set_parent,
  rb_set_parent_color, rb_black, __rb_change_child, reparent_child,
}
use kernel_porting.Rbtree.Shape.{
  Color, bit_of, Tree, times, IsNode, Shape, Frame, Around, times_around, root_color, parent_of,
  Around-keep, Shape-reparent, root_apart, root_times,
}
use kernel_porting.Rbtree.Rotate.{IsChanged, change_child-IsChanged}
use kernel_porting.Rbtree.Adopt.{root_word, IsAdopted, reparent_child-IsAdopted}
use kernel_porting.Rbtree.Insert.Hole.{Around-IsLink}
use kernel_porting.Rbtree.Erase.{erase_both_end}

-- The store before the node's word goes to the successor, and after.
abbrev pub attached : (node successor : ℕ) → Store → Store
attached node successor s =
    let tmp = s.child left node in
    let s = put_child left successor tmp s in
    let s = rb_set_parent tmp successor s in
    __rb_change_child node successor (__rb_parent (s.parent_color node)) s

abbrev pub placed : (node successor : ℕ) → Store → Store
placed node successor s =
    let tmp = s.child left node in
    let s1 = put_child left successor tmp s in
    let s2 = rb_set_parent tmp successor s1 in
    put_parent_color successor (s2.parent_color node) (attached node successor s)

pub erase_both_end-placed :
    (node successor parent child2 : ℕ) (s : Store)
    → erase_both_end node successor parent child2 s ≡ (
        if not (child2 == 0)
        then record {
          store = rb_set_parent_color child2 parent rb_black (placed node successor s);
          rebalance = 0;
        }
        else record {
          store = placed node successor s;
          rebalance =
              if __rb_is_black ((attached node successor s).parent_color successor)
              then parent
              else 0;
        })
unfolding erase_both_end
erase_both_end-placed node successor parent child2 s = refl

pub reparent_child-set :
    (tmp new : ℕ) (s : Store) → tmp ≢ 0 → reparent_child tmp new s ≡ rb_set_parent tmp new s
reparent_child-set tmp new s ne = let e : (tmp == 0) ≡ false = ground arith in rw e refl

-- The successor `y` stands where the node stood, with the node's colour and left subtree.
pub record IsPlaced (s s' : Store) (y : ℕ) (l : Tree) (zs : List Frame) (q : ℕ) (c : Color)
    : Type 0 where
  pub at_l : Shape s' l (s'.child left y) y
  pub word : s'.parent_color y ≡ q + bit_of c
  pub around : Around s' zs y q
  pub words : (z : ℕ) → z ≢ y → times z l ≡ 0 → s'.parent_color z ≡ s.parent_color z
  pub kids : (z : ℕ) (d : Side) → z ≢ y → times_around z zs ≡ 0 → s'.child d z ≡ s.child d z
  pub at_right : s'.child right y ≡ s.child right y

module _ (s : Store) (a y : ℕ) (l : Tree) (zs : List Frame) (q : ℕ) (c : Color) (is_a : IsNode a)
    (is_y : IsNode y) (at_l : Shape s l (s.child left a) a) (has_l : s.child left a ≢ 0)
    (word_a : s.parent_color a ≡ q + bit_of c) (around : Around s zs a q)
    (once : (z : ℕ)
      → times z l + (if z == a then 1 else 0) + (if z == y then 1 else 0) + times_around z zs
        ≤ 1) where
  -- The successor's word is read after these stores, and they leave it.
  pub placed-IsPlaced :
      IsPlaced s (placed a y s) y l zs q c × ((attached a y s).parent_color y ≡ s.parent_color y)
  placed-IsPlaced =
      let p = s.child left a in
      let s1 = put_child left y p s in
      let s2 = rb_set_parent p y s1 in
      let s3 = attached a y s in
      let s' = placed a y s in
      let ad =
        subst (λ x. IsAdopted s1 x p y) (reparent_child-set p y s1 has_l)
          (reparent_child-IsAdopted s1 p y) in
      let in_l = root_times s l p a at_l has_l in
      let o_p = once p in
      let o_y = once y in
      let o_a = once a in
      let p_a : a ≢ p =
        λ z. absurd (let w = subst (λ x. 1 ≤ times x l) (sym z) in_l in ground arith) in
      let p_y : y ≢ p =
        λ z. absurd (let w = subst (λ x. 1 ≤ times x l) (sym z) in_l in ground arith) in
      let off_l = root_apart s l p a at_l in
      let word2 : s2.parent_color a ≡ q + bit_of c = ad.words a (λ _. p_a) ∙ word_a in
      let over : __rb_parent (s2.parent_color a) ≡ q =
        ap __rb_parent word2 ∙ parent_of q c (Around-IsLink s zs a q around) in
      let around2 =
        Around-keep s s2 zs a q ad.root
          (λ z h. let o = once z in ad.words z (off_l z (omega arith)))
          (λ z d h. let o = once z in ad.children z d ∙ ground arith) around in
      let ch =
        subst (λ x. IsChanged s2 (__rb_change_child a y x s2) zs y q) (sym over)
          (change_child-IsChanged s2 zs a y q around2 is_a.0 (ground arith)
            (λ z. let o = once z in omega arith)) in
      let words : (z : ℕ) → z ≢ y → (p ≢ 0 → z ≢ p) → s'.parent_color z ≡ s.parent_color z =
        λ z h k. let w = ch.words z in let v = ad.words z k in ground arith in
      let kids : (z : ℕ) (d : Side) → z ≢ y → times_around z zs ≡ 0 → s'.child d z ≡ s.child d z =
        λ z d h k. ch.children z d k ∙ ad.children z d ∙ ground arith in
      let off_y : times_around y zs ≡ 0 = ground arith in
      let left_y : s'.child left y ≡ p =
        ch.children y left off_y ∙ ad.children y left ∙ ground arith in
      let apart_y : (z : ℕ) → 1 ≤ times z l → z ≢ y =
        λ z h k. let o = once z in absurd (ground arith) in
      (
        record {
          at_l =
              subst (λ x. Shape s' l x y) (sym left_y)
                (Shape-reparent s s' l p a y (λ z. let o = once z in omega arith)
                  (λ ne.
                    let w = ch.words p in
                    let v = ad.top (root_color l) a ne is_a.1 is_y.1 (root_word s l p a at_l ne) in
                    ground arith)
                  (λ z h k. words z (apart_y z h) (λ _. k))
                  (λ z d h. let o = once z in kids z d (apart_y z h) (omega arith)) at_l);
          word = ground arith;
          around =
              Around-keep s3 s' zs y q refl (λ z h. let o = once z in ground arith) (λ z d h. refl)
                ch.around;
          words = λ z h k. words z h (off_l z k);
          kids = kids;
          at_right = ch.children y right off_y ∙ ad.children y right ∙ ground arith;
        },
        ch.words y ∙ ad.words y (λ _. p_y),
      )
