-- ===== src/Rculist.antt =====
-- rculist.h: changes to a doubly linked list while readers walk along it. A function is the sequence of
-- its stores to memory, so that a reader can stand between any two of them. What a function reads it
-- reads first or from a node that only it changes, as one thread at a time changes the list.
pub mod Path
pub mod Publish
pub mod Runs
pub mod Ends
pub mod Plan
pub mod Laws
pub mod Final
mod Tests
use kernel_porting.Prelude.{ℕ, List, [], ◌∷◌, ◌++◌, ◌≢◌}
use kernel_porting.ListHead.{Store, put_next, put_prev, list_poison2}

-- One store: `to->next = value` or `to->prev = value`.
pub data Write : Type 0 where
  next_of prev_of : (to value : ℕ) → Write

abbrev pub write : Write → Store → Store
write (next_of to value) s = put_next to value s
write (prev_of to value) s = put_prev to value s

abbrev pub write_all : List Write → Store → Store
write_all [] s = s
write_all (w ∷ ws) s = write_all ws (write w s)

-- `__list_add_valid` returns true.
unfoldable pub __list_add_rcu : (new prev next : ℕ) → List Write
__list_add_rcu new prev next =
    next_of new next ∷ prev_of new prev ∷ next_of prev new ∷ prev_of next new ∷ []

unfoldable pub list_add_rcu : (new head : ℕ) → Store → List Write
list_add_rcu new head s = __list_add_rcu new head (s.next head)

unfoldable pub list_add_tail_rcu : (new head : ℕ) → Store → List Write
list_add_tail_rcu new head s = __list_add_rcu new (s.prev head) head

-- `__list_del` and `__list_del_entry` of list.h, store by store.
abbrev pub del_stores : (prev next : ℕ) → List Write
del_stores prev next = prev_of next prev ∷ next_of prev next ∷ []

abbrev pub del_entry_stores : ℕ → Store → List Write
del_entry_stores entry s = del_stores (s.prev entry) (s.next entry)

unfoldable pub list_del_rcu : ℕ → Store → List Write
list_del_rcu entry s = del_entry_stores entry s ++ prev_of entry list_poison2 ∷ []

unfoldable pub list_replace_rcu : (old new : ℕ) → Store → List Write
list_replace_rcu old new s =
    next_of new (s.next old)
    ∷ prev_of new (s.prev old)
    ∷ next_of (s.prev old) new
    ∷ prev_of (s.next old) new
    ∷ prev_of old list_poison2
    ∷ []

-- `INIT_LIST_HEAD_RCU`
unfoldable pub init_list_head_rcu : ℕ → List Write
init_list_head_rcu list = next_of list list ∷ prev_of list list ∷ []

-- A writer with its stores to go, and a reader in `list_for_each_entry_rcu`: it has not begun, or it is
-- at `pos` and has left the entries `seen` behind.
pub data Reader : Type 0 where
  waiting : Reader
  reading : (pos : ℕ) → (seen : List ℕ) → Reader

pub record System : Type 0 where
  pub store : Store
  pub todo : List Write
  pub reader : Reader

-- Each step is one store of the writer, or one read of the reader. The reader ends at the head.
pub data Step (head : ℕ) : System → System → Type 0 where
  store_one :
      (s : Store) (w : Write) (ws : List Write) (r : Reader)
      → Step head
          (record { store = s; todo = w ∷ ws; reader = r })
          (record { store = write w s; todo = ws; reader = r })
  begin_read :
      (s : Store) (ws : List Write)
      → Step head
          (record { store = s; todo = ws; reader = waiting })
          (record { store = s; todo = ws; reader = reading (s.next head) [] })
  next_read :
      (s : Store) (ws : List Write) (pos : ℕ) (seen : List ℕ)
      → pos ≢ head
      → Step head
          (record { store = s; todo = ws; reader = reading pos seen })
          (record { store = s; todo = ws; reader = reading (s.next pos) (seen ++ pos ∷ []) })

pub data Steps (head : ℕ) : System → System → Type 0 where
  done : (x : System) → Steps head x x
  one_more : (x y z : System) → Steps head x y → Step head y z → Steps head x z
