-- ===== src/Llist.antt =====
-- llist.c and llist.h: lists linked through `next` only, on the exchanges of asm-generic/cmpxchg.h and
-- cmpxchg-local.h, run by one thread. NULL is 0 and a pointer has 8 bytes.
pub mod Laws
mod Tests
use kernel_porting.Prelude.{
  ℕ, zero, suc, ◌%◌, ◌^◌, ◌*◌, Bool, true, false, ◌==◌, ◌||◌, if◌then◌else◌, Option, none, some,
}

-- `first` of each list head and `next` of each node.
pub record Store : Type 0 where
  pub first : ℕ → ℕ
  pub next : ℕ → ℕ

abbrev pub put_first : ℕ → ℕ → Store → Store
put_first p v s = record { first = λ a. if a == p then v else s.first a; next = s.next }

abbrev pub put_next : ℕ → ℕ → Store → Store
put_next p v s = record { first = s.first; next = λ a. if a == p then v else s.next a }

abbrev known_size : ℕ → Bool
known_size size = (size == 1) || (size == 2) || (size == 4) || (size == 8)

-- What stands in the cell afterwards, and the result. A size that is not known leaves the cell alone.
unfoldable pub __xchg : (x cell size : ℕ) → ℕ × ℕ
__xchg x cell size = if known_size size then (x % 2 ^ (8 * size), cell) else (cell, x)

-- With a size that is not known, the result is not initialised: `none`.
unfoldable pub __cmpxchg_local_generic : (cell old new size : ℕ) → ℕ × Option ℕ
__cmpxchg_local_generic cell old new size =
    if known_size size
    then (if cell == old then new % 2 ^ (8 * size) else cell, some cell)
    else (cell, none)

unfoldable pub init_llist_head : ℕ → Store → Store
init_llist_head list s = put_first list 0 s

unfoldable pub llist_empty : ℕ → Store → Bool
llist_empty head s = s.first head == 0

-- `none` means that the fuel ran out.
unfoldable pub llist_add_batch : (fuel new_first new_last head : ℕ) → Store → Option (Store × Bool)
llist_add_batch zero new_first new_last head s = none
llist_add_batch (suc fuel) new_first new_last head s =
    let first = s.first head in
    let s = put_next new_last first s in
    let (cell, prev) = __cmpxchg_local_generic (s.first head) first new_first 8 in
    let s = put_first head cell s in
    let rest = llist_add_batch fuel new_first new_last head s in
    elim prev [ none ↦ none | some prev ↦ if prev == first then some (s, first == 0) else rest ]

unfoldable pub llist_add : (fuel new head : ℕ) → Store → Option (Store × Bool)
llist_add fuel new head s = llist_add_batch fuel new new head s

unfoldable pub llist_del_all : ℕ → Store → Store × ℕ
llist_del_all head s =
    let (cell, result) = __xchg 0 (s.first head) 8 in (put_first head cell s, result)

-- The `for` loop.
unfoldable pub del_loop : (fuel head entry : ℕ) → Store → Option (Store × ℕ)
del_loop zero head entry s = none
del_loop (suc fuel) head entry s =
    let next = s.next entry in
    let (cell, prev) = __cmpxchg_local_generic (s.first head) entry next 8 in
    let s' = put_first head cell s in
    elim prev [
      | none ↦ none
      | some prev ↦
          let rest = del_loop fuel head prev s' in
          if entry == 0 then some (s, 0) else if prev == entry then some (s', prev) else rest
    ]

unfoldable pub llist_del_first : (fuel head : ℕ) → Store → Option (Store × ℕ)
llist_del_first fuel head s = del_loop fuel head (s.first head) s

-- The `while (head)` loop.
unfoldable pub reverse_loop : (fuel head new_head : ℕ) → Store → Option (Store × ℕ)
reverse_loop zero head new_head s = none
reverse_loop (suc fuel) head new_head s =
    let rest = reverse_loop fuel (s.next head) head (put_next head new_head s) in
    if head == 0 then some (s, new_head) else rest

unfoldable pub llist_reverse_order : (fuel head : ℕ) → Store → Option (Store × ℕ)
llist_reverse_order fuel head s = reverse_loop fuel head 0 s
