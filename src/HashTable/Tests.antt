-- ===== src/HashTable/Tests.antt =====
-- The theorems on hash tables at a table of two buckets.
use kernel_porting.Prelude.{ℕ, ◌<◌, ◌≡◌, ◌↔◌, refl, arith, true, false, ◌==◌, List, [], ◌∷◌, some}
use kernel_porting.Hlist.{Store}
use kernel_porting.Hlist.Chain.{occurs}
use kernel_porting.HashTable.{
  slot, hash_min, __hash_init, __hash_empty, hash_add, hash_del, hash_hashed,
  hash_for_each_possible,
}
use kernel_porting.HashTable.Laws.{IsTable, added, hash_min-lt, hash_add_lem}
use kernel_porting.HashTable.Init.{hash_init-IsTable, hash_empty_iff}
use kernel_porting.HashTable.Remove.{removed, hash_del_lem}

-- Two heads at 64 and 72, after `hash_init`.
abbrev fresh_table : Store
fresh_table = __hash_init 64 2 (record { next = λ a. 3; pprev = λ a. 5 })

abbrev no_nodes : ℕ → List ℕ
no_nodes i = []

fresh_table-IsTable : IsTable fresh_table 64 2 no_nodes
fresh_table-IsTable = hash_init-IsTable (record { next = λ a. 3; pprev = λ a. 5 }) 64 2

nowhere : (i : ℕ) → i < 2 → occurs 100 (slot 64 i ∷ no_nodes i) ≡ 0
unfolding occurs
nowhere i less = ground arith

-- The bucket of the 4-byte key 5.
abbrev bucket : ℕ
bucket = hash_min 4 5 1

hash_add_lem_example :
    IsTable (hash_add 64 1 100 4 5 fresh_table) 64 2 (added bucket 100 no_nodes)
    × (hash_for_each_possible 2 64 1 4 5 (hash_add 64 1 100 4 5 fresh_table) ≡ some (100 ∷ []))
hash_add_lem_example =
    hash_add_lem fresh_table 64 1 100 4 5 2 no_nodes (omega arith) (omega arith) fresh_table-IsTable
      (λ e. absurd (omega arith)) nowhere (omega arith)

added_here : added bucket 100 no_nodes bucket ≡ 100 ∷ []
added_here = let e : (bucket == bucket) ≡ true = ground arith in rw e refl

hash_del_lem_example :
    IsTable
      (hash_del 100 (hash_add 64 1 100 4 5 fresh_table))
      64
      2
      (removed bucket [] (added bucket 100 no_nodes))
    × (hash_hashed 100 (hash_del 100 (hash_add 64 1 100 4 5 fresh_table)) ≡ false)
hash_del_lem_example =
    hash_del_lem (hash_add 64 1 100 4 5 fresh_table) 64 2 bucket 100 [] []
      (added bucket 100 no_nodes) hash_add_lem_example.0 (λ e. absurd (omega arith))
      (hash_min-lt 4 5 1 (omega arith) (omega arith)) added_here

hash_empty_iff_example :
    ((__hash_empty 64 2 fresh_table ≡ true) ↔ ((i : ℕ) → i < 2 → no_nodes i ≡ []))
    × (__hash_empty 64 2 (__hash_init 64 2 fresh_table) ≡ true)
hash_empty_iff_example = hash_empty_iff fresh_table 64 2 no_nodes fresh_table-IsTable
