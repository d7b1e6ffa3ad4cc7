-- ===== src/Llist/Tests.antt =====
-- Runs on a list whose head is 100, with the nodes 1 and 2.
use kernel_porting.Prelude.{ℕ, ◌≡◌, refl, arith, [], ◌∷◌, some, if◌then◌else◌, ◌==◌}
use kernel_porting.Llist.{
  Store, llist_empty, llist_add, llist_del_all, llist_del_first, llist_reverse_order,
}
use kernel_porting.Llist.Laws.{Nodes, llist_add_lem, llist_reverse_order_lem, llist_del_lem}

abbrev two_nodes : Store
two_nodes = record { first = λ a. if a == 100 then 1 else 0; next = λ a. if a == 1 then 2 else 0 }

two_nodes-Nodes : Nodes two_nodes (two_nodes.first 100) (1 ∷ 2 ∷ [])
two_nodes-Nodes = (refl, ground arith, (refl, ground arith, refl))

llist_add_lem_example :
    (s : Store) × (llist_add 1 3 100 two_nodes ≡ some (s, llist_empty 100 two_nodes))
    × Nodes s (s.first 100) (3 ∷ 1 ∷ 2 ∷ [])
llist_add_lem_example =
    llist_add_lem 0 3 100 two_nodes (1 ∷ 2 ∷ []) two_nodes-Nodes (ground arith) (omega arith)
      (λ y h. ground arith)

llist_reverse_order_lem_example :
    (s : Store) × (q : ℕ) × (llist_reverse_order 3 1 two_nodes ≡ some (s, q))
    × Nodes s q (2 ∷ 1 ∷ [])
llist_reverse_order_lem_example =
    llist_reverse_order_lem two_nodes 1 (1 ∷ 2 ∷ []) two_nodes-Nodes
      (λ y h. ground arith, (λ y h. elim h [ ], tt))

llist_del_lem_example :
    (s : Store) × (llist_del_first 1 100 two_nodes ≡ some (s, 1))
    × Nodes s (s.first 100) (2 ∷ [])
    × ((llist_del_all 100 two_nodes).1 ≡ 1)
    × Nodes (llist_del_all 100 two_nodes).0 ((llist_del_all 100 two_nodes).0.first 100) []
llist_del_lem_example = llist_del_lem 0 100 1 two_nodes (2 ∷ []) two_nodes-Nodes (omega arith)
