-- ===== src/ListHead/Tests.antt =====
-- Runs on a list at 1 with the entries 2 and 3, and a list at 10 with the entry 11.
use kernel_porting.Prelude.{
  ℕ, ◌≡◌, ◌↔◌, refl, arith, List, [], ◌∷◌, true, some, if◌then◌else◌, ◌==◌,
}
use kernel_porting.ListHead.{
  Store, list_poison1, list_poison2, list_add_tail, list_del, list_del_init, list_replace,
  list_move_tail, list_empty, list_splice, list_splice_tail, list_splice_init,
  list_splice_tail_init, list_for_each, each_loop, list_rotate_left, list_cut_position,
  __list_cut_position, __list_add, list_is_singular, __list_del_entry, __list_del,
  list_for_each_prev,
}
use kernel_porting.ListHead.Chain.{IsList}
use kernel_porting.ListHead.Edit.{list_del-IsList}
use kernel_porting.ListHead.Cut.{list_cut_position-IsList}
use kernel_porting.ListHead.Edit.{IsFresh}
use kernel_porting.ListHead.Replace.{list_replace-IsList}
use kernel_porting.ListHead.Splice.{list_splice-IsList, list_for_each_lem}

abbrev pub two_lists : Store
two_lists = record {
  next = λ a.
      if a == 1 then 2 else if a == 2 then 3 else if a == 3 then 1 else if a == 10 then 11 else 10;
  prev = λ a.
      if a == 1 then 3 else if a == 2 then 1 else if a == 3 then 2 else if a == 10 then 11 else 10;
}

pub first-IsList : IsList two_lists 1 (2 ∷ 3 ∷ [])
first-IsList = record {
  links = (refl, refl, (refl, refl, (refl, refl)));
  distinct = (λ y h. ground arith, (λ y h. ground arith, (λ y h. elim h [ ], tt)));
}

second-IsList : IsList two_lists 10 (11 ∷ [])
second-IsList = record {
  links = (refl, refl, (refl, refl));
  distinct = (λ y h. ground arith, (λ y h. elim h [ ], tt));
}

-- The list at 5 takes the entries of the list at 1 up to 2.
cut_and_rotate :
    (list_for_each 9 5 (list_cut_position 5 1 2 two_lists) ≡ some (2 ∷ []))
    × (list_for_each 9 1 (list_cut_position 5 1 2 two_lists) ≡ some (3 ∷ []))
    × (list_for_each_prev 9 1 two_lists ≡ some (3 ∷ 2 ∷ []))
    × (list_for_each 9 1 (list_rotate_left 1 two_lists) ≡ some (3 ∷ 2 ∷ []))
unfolding list_for_each list_for_each_prev each_loop list_cut_position __list_cut_position
    list_empty list_is_singular list_rotate_left list_move_tail list_add_tail __list_add
    __list_del_entry __list_del
cut_and_rotate = (refl, refl, refl, refl)

list_del-IsList_example :
    IsList (list_del 2 two_lists) 1 (3 ∷ [])
    × ((list_del 2 two_lists).next 2 ≡ list_poison1)
    × ((list_del 2 two_lists).prev 2 ≡ list_poison2)
    × IsList (list_del_init 2 two_lists) 1 (3 ∷ [])
    × IsList (list_del_init 2 two_lists) 2 []
list_del-IsList_example = list_del-IsList two_lists 1 [] 2 (3 ∷ []) first-IsList

list_replace-IsList_example : IsList (list_replace 2 4 two_lists) 1 (4 ∷ 3 ∷ [])
list_replace-IsList_example =
    list_replace-IsList two_lists 1 [] 2 4 (3 ∷ []) first-IsList (λ y h. ground arith)

list_splice-IsList_example :
    IsList (list_splice 1 10 two_lists) 10 (2 ∷ 3 ∷ 11 ∷ [])
    × IsList (list_splice_tail 1 10 two_lists) 10 (11 ∷ 2 ∷ 3 ∷ [])
    × IsList (list_splice_init 1 10 two_lists) 10 (2 ∷ 3 ∷ 11 ∷ [])
    × IsList (list_splice_init 1 10 two_lists) 1 []
    × IsList (list_splice_tail_init 1 10 two_lists) 10 (11 ∷ 2 ∷ 3 ∷ [])
    × IsList (list_splice_tail_init 1 10 two_lists) 1 []
list_splice-IsList_example =
    list_splice-IsList two_lists 1 10 (2 ∷ 3 ∷ []) (11 ∷ []) first-IsList second-IsList
      (λ x y hx hy. ground arith)

abbrev entries : List ℕ
entries = 2 ∷ 3 ∷ []

list_for_each_lem_example :
    (list_for_each 3 1 two_lists ≡ some (2 ∷ 3 ∷ []))
    × ((list_empty 1 two_lists ≡ true) ↔ (entries ≡ []))
list_for_each_lem_example = list_for_each_lem two_lists 1 (2 ∷ 3 ∷ []) first-IsList

IsFresh-five : IsFresh 5 (1 ∷ 2 ∷ 3 ∷ [])
IsFresh-five y h = ground arith

list_cut_position-IsList_example :
    IsList (list_cut_position 5 1 2 two_lists) 5 (2 ∷ [])
    × IsList (list_cut_position 5 1 2 two_lists) 1 (3 ∷ [])
list_cut_position-IsList_example =
    list_cut_position-IsList two_lists 5 1 [] 2 (3 ∷ []) first-IsList IsFresh-five
