-- ===== src/Rculist/Tests.antt =====
-- A reader on a list at 1 with the entries 2 and 3, while another thread changes it.
use kernel_porting.Prelude.{ℕ, ◌≡◌, ◌⊎◌, arith, List, [], ◌∷◌}
use kernel_porting.ListHead.{list_poison2}
use kernel_porting.ListHead.Chain.{IsList}
use kernel_porting.ListHead.Edit.{IsFresh}
use kernel_porting.ListHead.Tests.{two_lists, first-IsList}
use kernel_porting.Rculist.{
  Write, next_of, prev_of, write, write_all, __list_add_rcu, list_add_rcu, list_add_tail_rcu,
  list_del_rcu, list_replace_rcu, reading, System, store_one, begin_read, next_read, Steps, done,
  one_more,
}
use kernel_porting.Rculist.Ends.{Ends}
use kernel_porting.Rculist.Laws.{started, list_add_rcu_lem, list_del_rcu_lem, list_replace_rcu_lem}
use kernel_porting.Rculist.Final.{list_add_rcu-IsList, list_del_rcu-IsList}

IsFresh-four : IsFresh 4 (1 ∷ 2 ∷ 3 ∷ [])
IsFresh-four y h = ground arith

-- The reader begins, the writer makes its first store, and the reader goes on.
begun_and_on :
    (w : Write) (ws : List Write)
    → Steps 1 (started two_lists (w ∷ ws)) (record {
      store = write w two_lists;
      todo = ws;
      reader = reading ((write w two_lists).next 2) (2 ∷ []);
    })
begun_and_on w ws =
    let x0 : System = started two_lists (w ∷ ws) in
    let x1 : System = record { store = two_lists; todo = w ∷ ws; reader = reading 2 [] } in
    let x2 : System = record { store = write w two_lists; todo = ws; reader = reading 2 [] } in
    let x3 : System = record {
      store = write w two_lists;
      todo = ws;
      reader = reading ((write w two_lists).next 2) (2 ∷ []);
    } in
    one_more x0 x2 x3
      (one_more x0 x1 x2 (one_more x0 x0 x1 (done x0) (begin_read two_lists (w ∷ ws)))
        (store_one two_lists w ws (reading 2 [])))
      (next_read (write w two_lists) ws 2 [] (ground arith))

-- Such a state of the system.
abbrev midway : Write → List Write → System
midway w ws = record {
  store = write w two_lists;
  todo = ws;
  reader = reading ((write w two_lists).next 2) (2 ∷ []);
}

abbrev add_midway : System
add_midway = midway (next_of 4 2) (prev_of 4 1 ∷ next_of 1 4 ∷ prev_of 2 4 ∷ [])

add-Steps : Steps 1 (started two_lists (list_add_rcu 4 1 two_lists)) add_midway
unfolding list_add_rcu __list_add_rcu
add-Steps = begun_and_on (next_of 4 2) (prev_of 4 1 ∷ next_of 1 4 ∷ prev_of 2 4 ∷ [])

abbrev del_midway : System
del_midway = midway (prev_of 3 1) (next_of 1 3 ∷ prev_of 2 list_poison2 ∷ [])

del-Steps : Steps 1 (started two_lists (list_del_rcu 2 two_lists)) del_midway
unfolding list_del_rcu
del-Steps = begun_and_on (prev_of 3 1) (next_of 1 3 ∷ prev_of 2 list_poison2 ∷ [])

abbrev replace_midway : System
replace_midway =
    midway (next_of 4 3) (prev_of 4 1 ∷ next_of 1 4 ∷ prev_of 3 4 ∷ prev_of 2 list_poison2 ∷ [])

replace-Steps : Steps 1 (started two_lists (list_replace_rcu 2 4 two_lists)) replace_midway
unfolding list_replace_rcu
replace-Steps =
    begun_and_on (next_of 4 3)
      (prev_of 4 1 ∷ next_of 1 4 ∷ prev_of 3 4 ∷ prev_of 2 list_poison2 ∷ [])

list_add_rcu_lem_example :
    ((seen : List ℕ)
      → add_midway.reader ≡ reading 1 seen
      → (seen ≡ 2 ∷ 3 ∷ []) ⊎ (seen ≡ 4 ∷ 2 ∷ 3 ∷ []))
    × Ends 1 add_midway
list_add_rcu_lem_example =
    list_add_rcu_lem two_lists 1 4 (2 ∷ 3 ∷ []) add_midway first-IsList IsFresh-four add-Steps

list_del_rcu_lem_example :
    ((seen : List ℕ) → del_midway.reader ≡ reading 1 seen → (seen ≡ 2 ∷ 3 ∷ []) ⊎ (seen ≡ 3 ∷ []))
    × Ends 1 del_midway
list_del_rcu_lem_example =
    list_del_rcu_lem two_lists 1 2 [] (3 ∷ []) del_midway first-IsList del-Steps

list_replace_rcu_lem_example :
    ((seen : List ℕ)
      → replace_midway.reader ≡ reading 1 seen
      → (seen ≡ 2 ∷ 3 ∷ []) ⊎ (seen ≡ 4 ∷ 3 ∷ []))
    × Ends 1 replace_midway
list_replace_rcu_lem_example =
    list_replace_rcu_lem two_lists 1 2 4 [] (3 ∷ []) replace_midway first-IsList IsFresh-four
      replace-Steps

list_add_rcu-IsList_example :
    IsList (write_all (list_add_rcu 4 1 two_lists) two_lists) 1 (4 ∷ 2 ∷ 3 ∷ [])
    × IsList (write_all (list_add_tail_rcu 4 1 two_lists) two_lists) 1 (2 ∷ 3 ∷ 4 ∷ [])
list_add_rcu-IsList_example =
    list_add_rcu-IsList two_lists 4 1 (2 ∷ 3 ∷ []) first-IsList IsFresh-four

list_del_rcu-IsList_example :
    IsList (write_all (list_del_rcu 2 two_lists) two_lists) 1 (3 ∷ [])
    × ((write_all (list_del_rcu 2 two_lists) two_lists).next 2 ≡ 3)
    × ((write_all (list_del_rcu 2 two_lists) two_lists).prev 2 ≡ list_poison2)
list_del_rcu-IsList_example = list_del_rcu-IsList two_lists 1 2 [] (3 ∷ []) first-IsList
