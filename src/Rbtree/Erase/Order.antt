-- ===== src/Rbtree/Erase/Order.antt =====
-- The sequence and the size of a tree whose node is gone.
use kernel_porting.Prelude.{
  ℕ, suc, ◌+◌, ◌≤◌, ◌≡◌, ◌∙◌, refl, sym, ap, arith, List, [], ◌∷◌, ◌++◌, length,
}
use kernel_porting.Rbtree.Shape.{Color, Tree, leaf, node, build, inorder, Frame, plug}
use kernel_porting.Rbtree.Fix.Balance.{before, after, inorder-plug}
use kernel_porting.Rbtree.Walk.Ends.{size}
use kernel_porting.Rbtree.Walk.Postorder.{size-build}
use kernel_porting.Rbtree.Erase.Descend.{IsLeft}
use kernel_porting.Rbtree.Erase.Both.{with_left}

pub plug-++ : (ws zs : List Frame) (t : Tree) → plug (ws ++ zs) t ≡ plug zs (plug ws t)
unfolding plug
plug-++ [] zs t = refl
plug-++ (f ∷ ws) zs t = plug-++ ws zs (build f.side f.color f.addr t f.sibling)

before-IsLeft : (ws : List Frame) → IsLeft ws → before ws ≡ []
unfolding before
before-IsLeft [] is = refl
before-IsLeft (f ∷ ws) (e, is) = let k = before-IsLeft ws is in rw e k

-- The leftmost node comes first.
leftmost_first :
    (ws : List Frame) (c : Color) (y : ℕ) (t : Tree)
    → IsLeft ws
    → inorder (plug ws (node c leaf y t)) ≡ y ∷ inorder (plug ws t)
unfolding inorder
leftmost_first ws c y t is =
    let k = before-IsLeft ws is in rw (inorder-plug ws (node c leaf y t), inorder-plug ws t, k) refl

-- The sequence around a hole, with those of two trees in it.
abbrev pub without : List Frame → (l r : Tree) → List ℕ
without zs l r = before zs ++ ((inorder l ++ inorder r) ++ after zs)

pub inorder-without :
    (zs : List Frame) (t l r : Tree)
    → inorder t ≡ inorder l ++ inorder r
    → inorder (plug zs t) ≡ without zs l r
inorder-without zs t l r e = inorder-plug zs t ∙ ap (λ x. before zs ++ (x ++ after zs)) e

-- The successor in the node's place.
pub successor_order :
    (ws zs : List Frame) (c cy : Color) (y : ℕ) (l t : Tree)
    → IsLeft ws
    → inorder (plug (ws ++ with_left c y l ∷ zs) t) ≡ without zs l (plug ws (node cy leaf y t))
unfolding plug inorder
successor_order ws zs c cy y l t is =
    ap inorder (plug-++ ws (with_left c y l ∷ zs) t)
    ∙ inorder-without zs (node c l y (plug ws t)) l (plug ws (node cy leaf y t))
        (ap (λ x. inorder l ++ x) (sym (leftmost_first ws cy y t is)))

pub length-size : (zs : List Frame) (t : Tree) → length zs + size t ≤ size (plug zs t)
unfolding plug
length-size [] t = omega arith
length-size (f ∷ zs) t =
    let k = length-size zs (build f.side f.color f.addr t f.sibling) in
    let m = size-build f.side f.color f.addr t f.sibling in omega arith

pub length_same : (ws zs : List Frame) (f g : Frame) → length (ws ++ f ∷ zs) ≡ length (ws ++ g ∷ zs)
length_same [] zs f g = refl
length_same (x ∷ ws) zs f g = ap suc (length_same ws zs f g)
