-- ===== src/ListHead.antt =====
-- list.h: circular doubly linked lists. A `struct list_head` is known by its address; the store maps
-- an address to what its two fields hold. An entry and the structure around it share one address.
pub mod Chain
pub mod Edit
pub mod Replace
pub mod Splice
pub mod Cut
pub mod Tests
use kernel_porting.Prelude.{
  ℕ, zero, suc, Bool, true, false, not, ◌&&◌, ◌==◌, if◌then◌else◌, List, [], ◌∷◌, Option, none,
  some,
}

-- The fields of all list heads in memory.
pub record Store : Type 0 where
  pub next : ℕ → ℕ
  pub prev : ℕ → ℕ

-- `p->next = v` and `p->prev = v`
abbrev pub put_next : ℕ → ℕ → Store → Store
put_next p v s = record { next = λ a. if a == p then v else s.next a; prev = s.prev }

abbrev pub put_prev : ℕ → ℕ → Store → Store
put_prev p v s = record { next = s.next; prev = λ a. if a == p then v else s.prev a }

-- CONFIG_ILLEGAL_POINTER_VALUE is not set, so POISON_POINTER_DELTA is zero.
abbrev pub list_poison1 : ℕ
list_poison1 = 0x100

abbrev pub list_poison2 : ℕ
list_poison2 = 0x200

unfoldable pub init_list_head : ℕ → Store → Store
init_list_head list s = put_prev list list (put_next list list s)

-- `__list_add_valid` and `__list_del_entry_valid` return true: CONFIG_DEBUG_LIST is not set.
unfoldable pub __list_add : (new prev next : ℕ) → Store → Store
__list_add new prev next s =
    let s = put_prev next new s in
    let s = put_next new next s in let s = put_prev new prev s in put_next prev new s

unfoldable pub list_add : (new head : ℕ) → Store → Store
list_add new head s = __list_add new head (s.next head) s

unfoldable pub list_add_tail : (new head : ℕ) → Store → Store
list_add_tail new head s = __list_add new (s.prev head) head s

unfoldable pub __list_del : (prev next : ℕ) → Store → Store
__list_del prev next s = put_next prev next (put_prev next prev s)

unfoldable pub __list_del_entry : ℕ → Store → Store
__list_del_entry entry s = __list_del (s.prev entry) (s.next entry) s

unfoldable pub list_del : ℕ → Store → Store
list_del entry s =
    let s = __list_del_entry entry s in put_prev entry list_poison2 (put_next entry list_poison1 s)

unfoldable pub list_replace : (old new : ℕ) → Store → Store
list_replace old new s =
    let s = put_next new (s.next old) s in
    let s = put_prev (s.next new) new s in
    let s = put_prev new (s.prev old) s in put_next (s.prev new) new s

unfoldable pub list_replace_init : (old new : ℕ) → Store → Store
list_replace_init old new s = init_list_head old (list_replace old new s)

unfoldable pub list_del_init : ℕ → Store → Store
list_del_init entry s = init_list_head entry (__list_del_entry entry s)

unfoldable pub list_move : (list head : ℕ) → Store → Store
list_move list head s = list_add list head (__list_del_entry list s)

unfoldable pub list_move_tail : (list head : ℕ) → Store → Store
list_move_tail list head s = list_add_tail list head (__list_del_entry list s)

unfoldable pub list_is_last : (list head : ℕ) → Store → Bool
list_is_last list head s = s.next list == head

unfoldable pub list_empty : ℕ → Store → Bool
list_empty head s = s.next head == head

unfoldable pub list_empty_careful : ℕ → Store → Bool
list_empty_careful head s = let next = s.next head in (next == head) && (next == s.prev head)

unfoldable pub list_rotate_left : ℕ → Store → Store
list_rotate_left head s =
    let first = s.next head in if not (list_empty head s) then list_move_tail first head s else s

unfoldable pub list_is_singular : ℕ → Store → Bool
list_is_singular head s = not (list_empty head s) && (s.next head == s.prev head)

unfoldable pub __list_cut_position : (list head entry : ℕ) → Store → Store
__list_cut_position list head entry s =
    let new_first = s.next entry in
    let s = put_next list (s.next head) s in
    let s = put_prev (s.next list) list s in
    let s = put_prev list entry s in
    let s = put_next entry list s in let s = put_next head new_first s in put_prev new_first head s

unfoldable pub list_cut_position : (list head entry : ℕ) → Store → Store
list_cut_position list head entry s =
    if list_empty head s
    then s
    else if list_is_singular head s && (not (s.next head == entry) && not (head == entry))
    then s
    else if entry == head
    then init_list_head list s
    else __list_cut_position list head entry s

unfoldable pub __list_splice : (list prev next : ℕ) → Store → Store
__list_splice list prev next s =
    let first = s.next list in
    let last = s.prev list in
    let s = put_prev first prev s in
    let s = put_next prev first s in let s = put_next last next s in put_prev next last s

unfoldable pub list_splice : (list head : ℕ) → Store → Store
list_splice list head s =
    if not (list_empty list s) then __list_splice list head (s.next head) s else s

unfoldable pub list_splice_tail : (list head : ℕ) → Store → Store
list_splice_tail list head s =
    if not (list_empty list s) then __list_splice list (s.prev head) head s else s

unfoldable pub list_splice_init : (list head : ℕ) → Store → Store
list_splice_init list head s =
    if not (list_empty list s)
    then init_list_head list (__list_splice list head (s.next head) s)
    else s

unfoldable pub list_splice_tail_init : (list head : ℕ) → Store → Store
list_splice_tail_init list head s =
    if not (list_empty list s)
    then init_list_head list (__list_splice list (s.prev head) head s)
    else s

-- The positions that `list_for_each(pos, head)` and `list_for_each_prev(pos, head)` visit from `pos`
-- on. `none` means that the fuel ran out.
unfoldable pub each_loop : (step : ℕ → ℕ) → (fuel head pos : ℕ) → Option (List ℕ)
each_loop step zero head pos = none
each_loop step (suc fuel) head pos =
    let rest = each_loop step fuel head (step pos) in
    if pos == head then some [] else elim rest [ none ↦ none | some ps ↦ some (pos ∷ ps) ]

unfoldable pub list_for_each : (fuel head : ℕ) → Store → Option (List ℕ)
list_for_each fuel head s = each_loop s.next fuel head (s.next head)

unfoldable pub list_for_each_prev : (fuel head : ℕ) → Store → Option (List ℕ)
list_for_each_prev fuel head s = each_loop s.prev fuel head (s.prev head)
