-- ===== src/Hlist.antt =====
-- The hash lists of list.h, on a store. A pointer to a pointer is the address of the struct whose first
-- field is meant: `next` stands first in a `struct hlist_node` and `first` in a `struct hlist_head`, so
-- one map holds both.
pub mod Chain
pub mod Edit
pub mod Insert
pub mod Tests
use kernel_porting.Prelude.{
  ℕ, zero, suc, Bool, true, false, not, ◌&&◌, ◌==◌, if◌then◌else◌, Option, none, some, List, [],
  ◌∷◌,
}
use kernel_porting.ListHead.{list_poison1, list_poison2}

pub record Store : Type 0 where
  pub next : ℕ → ℕ
  pub pprev : ℕ → ℕ

abbrev pub put_next : ℕ → ℕ → Store → Store
put_next p v s = record s { next = λ a. if a == p then v else s.next a }

abbrev pub put_pprev : ℕ → ℕ → Store → Store
put_pprev p v s = record s { pprev = λ a. if a == p then v else s.pprev a }

unfoldable pub init_hlist_head : ℕ → Store → Store
init_hlist_head ptr s = put_next ptr 0 s

unfoldable pub init_hlist_node : ℕ → Store → Store
init_hlist_node h s = put_pprev h 0 (put_next h 0 s)

abbrev pub hlist_unhashed : ℕ → Store → Bool
hlist_unhashed h s = s.pprev h == 0

abbrev pub hlist_empty : ℕ → Store → Bool
hlist_empty h s = s.next h == 0

-- `if (p) p->pprev = v;`
abbrev pub lead_back : (p v : ℕ) → Store → Store
lead_back p v s = if p == 0 then s else put_pprev p v s

unfoldable pub __hlist_del : ℕ → Store → Store
__hlist_del n s =
    let next = s.next n in
    let pprev = s.pprev n in let s = put_next pprev next s in lead_back next pprev s

unfoldable pub hlist_del : ℕ → Store → Store
hlist_del n s = put_pprev n list_poison2 (put_next n list_poison1 (__hlist_del n s))

unfoldable pub hlist_del_init : ℕ → Store → Store
hlist_del_init n s = if not (hlist_unhashed n s) then init_hlist_node n (__hlist_del n s) else s

unfoldable pub hlist_add_head : (n h : ℕ) → Store → Store
hlist_add_head n h s =
    let first = s.next h in
    let s = put_next n first s in
    let s = lead_back first n s in let s = put_next h n s in put_pprev n h s

unfoldable pub hlist_add_before : (n next : ℕ) → Store → Store
hlist_add_before n next s =
    let s = put_pprev n (s.pprev next) s in
    let s = put_next n next s in let s = put_pprev next n s in put_next (s.pprev n) n s

unfoldable pub hlist_add_behind : (n prev : ℕ) → Store → Store
hlist_add_behind n prev s =
    let s = put_next n (s.next prev) s in
    let s = put_next prev n s in let s = put_pprev n prev s in lead_back (s.next n) n s

unfoldable pub hlist_add_fake : ℕ → Store → Store
hlist_add_fake n s = put_pprev n n s

unfoldable pub hlist_fake : ℕ → Store → Bool
hlist_fake h s = s.pprev h == h

unfoldable pub hlist_is_singular_node : (n h : ℕ) → Store → Bool
hlist_is_singular_node n h s = (s.next n == 0) && (s.pprev n == h)

unfoldable pub hlist_move_list : (old new : ℕ) → Store → Store
hlist_move_list old new s =
    let s = put_next new (s.next old) s in let s = lead_back (s.next new) new s in put_next old 0 s

-- `hlist_for_each` with a body that leaves the list alone: the nodes from `pos` on. `none` means that the
-- fuel ran out.
abbrev keep_pos : ℕ → Option (List ℕ) → Option (List ℕ)
keep_pos pos none = none
keep_pos pos (some xs) = some (pos ∷ xs)

unfoldable pub hlist_loop : (fuel pos : ℕ) → Store → Option (List ℕ)
hlist_loop zero pos s = none
hlist_loop (suc fuel) pos s =
    let rest = hlist_loop fuel (s.next pos) s in if pos == 0 then some [] else keep_pos pos rest

unfoldable pub hlist_for_each : (fuel head : ℕ) → Store → Option (List ℕ)
hlist_for_each fuel head s = hlist_loop fuel (s.next head) s
