-- ===== src/HashTable.antt =====
-- hashtable.h: hash lists in an array of heads, chosen by the hash of a key.
pub mod Laws
pub mod Init
pub mod Remove
pub mod Tests
use kernel_porting.Prelude.{
  ℕ, zero, suc, ◌+◌, ◌*◌, ◌^◌, ◌≤◌, Bool, true, false, not, ◌==◌, leb, if◌then◌else◌, Option, List,
}
use kernel_porting.Hash.{hash_32_generic, hash_64_generic}
use kernel_porting.Hlist.{
  Store, init_hlist_head, hlist_empty, hlist_unhashed, hlist_add_head, hlist_del_init,
  hlist_for_each,
}

-- `&ht[i]`: a `struct hlist_head` is one pointer wide.
abbrev pub slot : (ht i : ℕ) → ℕ
slot ht i = ht + 8 * i

-- `hash_min(val, bits)` for a value of `size` bytes
unfoldable pub hash_min : (size val bits : ℕ) → ℕ
hash_min size val bits = if leb size 4 then hash_32_generic val bits else hash_64_generic val bits

-- The loop of `__hash_init`, from bucket `i` with `left` buckets to go.
unfoldable pub init_loop : (left ht i : ℕ) → Store → Store
init_loop zero ht i s = s
init_loop (suc left) ht i s = init_loop left ht (suc i) (init_hlist_head (slot ht i) s)

unfoldable pub __hash_init : (ht sz : ℕ) → Store → Store
__hash_init ht sz s = init_loop sz ht 0 s

-- `hash_add(hashtable, node, key)` on a table of 2^bits heads
unfoldable pub hash_add : (ht bits node size key : ℕ) → Store → Store
hash_add ht bits node size key s = hlist_add_head node (slot ht (hash_min size key bits)) s

unfoldable pub hash_hashed : ℕ → Store → Bool
hash_hashed node s = not (hlist_unhashed node s)

-- The loop of `__hash_empty`.
unfoldable pub empty_loop : (left ht i : ℕ) → Store → Bool
empty_loop zero ht i s = true
empty_loop (suc left) ht i s =
    let rest = empty_loop left ht (suc i) s in
    if not (hlist_empty (slot ht i) s) then false else rest

unfoldable pub __hash_empty : (ht sz : ℕ) → Store → Bool
__hash_empty ht sz s = empty_loop sz ht 0 s

unfoldable pub hash_del : ℕ → Store → Store
hash_del node s = hlist_del_init node s

-- The nodes that `hash_for_each_possible(name, obj, member, key)` visits.
unfoldable pub hash_for_each_possible : (fuel ht bits size key : ℕ) → Store → Option (List ℕ)
hash_for_each_possible fuel ht bits size key s =
    hlist_for_each fuel (slot ht (hash_min size key bits)) s
