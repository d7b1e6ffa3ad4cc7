-- ===== src/Hlist/Tests.antt =====
-- Runs of the operations on hash lists, and the theorems about them at a concrete list.
use kernel_porting.Prelude.{ℕ, ◌≤◌, ◌≡◌, refl, arith, true, ◌==◌, if◌then◌else◌, [], ◌∷◌, some}
use kernel_porting.Hlist.{
  Store, __hlist_del, hlist_del, hlist_del_init, hlist_unhashed, hlist_add_before, hlist_add_behind,
  hlist_loop, hlist_for_each, hlist_is_singular_node,
}
use kernel_porting.Hlist.Chain.{occurs, Chain, IsHlist}
use kernel_porting.Hlist.Edit.{hlist_del-IsHlist}
use kernel_porting.Hlist.Insert.{hlist_add_behind-IsHlist}

-- The head 4 with the nodes 8 and 12.
abbrev couple : Store
couple = record {
  next = λ a. if a == 4 then 8 else if a == 8 then 12 else 0;
  pprev = λ a. if a == 8 then 4 else if a == 12 then 8 else 0;
}

couple-Chain : Chain couple 4 (8 ∷ 12 ∷ [])
couple-Chain =
    (refl, λ e. absurd (omega arith), refl, (refl, λ e. absurd (omega arith), refl, refl))

couple_once : (y : ℕ) → occurs y (4 ∷ 8 ∷ 12 ∷ []) ≤ 1
unfolding occurs
couple_once y = ground arith

couple-IsHlist : IsHlist couple 4 (8 ∷ 12 ∷ [])
couple-IsHlist = record { chain = couple-Chain; once = couple_once }

absent : occurs 16 (4 ∷ 8 ∷ 12 ∷ []) ≡ 0
unfolding occurs
absent = refl

hlist_del-IsHlist_example :
    IsHlist (hlist_del 8 couple) 4 (12 ∷ [])
    × IsHlist (hlist_del_init 8 couple) 4 (12 ∷ [])
    × (hlist_unhashed 8 (hlist_del_init 8 couple) ≡ true)
hlist_del-IsHlist_example =
    hlist_del-IsHlist couple 4 8 [] (12 ∷ []) (λ e. absurd (omega arith)) couple-IsHlist

hlist_add_behind-IsHlist_example :
    IsHlist (hlist_add_behind 16 8 couple) 4 (8 ∷ 16 ∷ 12 ∷ [])
    × IsHlist (hlist_add_before 16 8 couple) 4 (16 ∷ 8 ∷ 12 ∷ [])
hlist_add_behind-IsHlist_example =
    hlist_add_behind-IsHlist couple 4 16 8 [] (12 ∷ []) couple-IsHlist (λ e. absurd (omega arith))
      absent

-- Runs.
visited : hlist_for_each 3 4 (hlist_del 8 couple) ≡ some (12 ∷ [])
unfolding hlist_for_each hlist_loop hlist_del __hlist_del
visited = refl

single : hlist_is_singular_node 12 4 (hlist_del 8 couple) ≡ true
unfolding hlist_is_singular_node hlist_del __hlist_del
single = refl
