-- ===== src/Rculist/Final.antt =====
-- What the functions of rculist.h leave when all their stores are made.
use kernel_porting.Prelude.{ℕ, ◌≡◌, ◌≢◌, ◌∙◌, refl, sym, inl, inr, arith, List, [], ◌∷◌, ◌++◌}
use kernel_porting.ListHead.{
  Store, __list_add, list_add, list_add_tail, __list_del, __list_del_entry, list_del, list_poison2,
}
use kernel_porting.ListHead.Chain.{
  In, In-append, Distinct-split, Links-keep, Links-split, IsList, first_In, last_In,
}
use kernel_porting.ListHead.Edit.{IsFresh, list_add-IsList, list_add_tail-IsList, list_del-IsList}
use kernel_porting.Rculist.{
  write_all, __list_add_rcu, list_add_rcu, list_add_tail_rcu, list_del_rcu,
}

-- A list survives where the fields of its entries are the same.
IsList-keep :
    (s s' : Store) (head : ℕ) (xs : List ℕ)
    → ((y : ℕ) → In y (head ∷ xs) → s'.next y ≡ s.next y)
    → ((y : ℕ) → In y (head ∷ xs) → s'.prev y ≡ s.prev y)
    → IsList s head xs
    → IsList s' head xs
IsList-keep s s' head xs nexts prevs is = record {
  links =
      Links-keep s s' head xs head nexts (λ y h. prevs y (inr h)) (prevs head (inl refl)) is.links;
  distinct = is.distinct;
}

-- The order of the stores makes no difference in the end.
same_next :
    (s : Store) (new prev next y : ℕ)
    → (write_all (__list_add_rcu new prev next) s).next y ≡ (__list_add new prev next s).next y
unfolding __list_add_rcu __list_add
same_next s new prev next y = refl

same_prev :
    (s : Store) (new prev next y : ℕ)
    → next ≢ new
    → (write_all (__list_add_rcu new prev next) s).prev y ≡ (__list_add new prev next s).prev y
unfolding __list_add_rcu __list_add
same_prev s new prev next y ne = ground arith

-- For an entry that is not in the list, `list_add_rcu` and `list_add_tail_rcu` leave the list with the
-- entry in front or at the end, with `prev` fields that lead back.
pub list_add_rcu-IsList :
    (s : Store) (new head : ℕ) (xs : List ℕ)
    → IsList s head xs
    → IsFresh new (head ∷ xs)
    → IsList (write_all (list_add_rcu new head s) s) head (new ∷ xs)
      × IsList (write_all (list_add_tail_rcu new head s) s) head (xs ++ new ∷ [])
unfolding list_add_rcu list_add_tail_rcu list_add list_add_tail
list_add_rcu-IsList s new head xs is fresh =
    let first : s.next head ≢ new = elim (first_In s head xs head is.links) [
      | inl e ↦ λ z. fresh head (inl refl) (sym e ∙ z)
      | inr h ↦ fresh (s.next head) (inr h)
    ] in
    (
      IsList-keep (list_add new head s) (write_all (list_add_rcu new head s) s) head (new ∷ xs)
          (λ y h. same_next s new head (s.next head) y)
          (λ y h. same_prev s new head (s.next head) y first)
          (list_add-IsList s new head xs is fresh),
      IsList-keep (list_add_tail new head s) (write_all (list_add_tail_rcu new head s) s) head
          (xs ++ new ∷ []) (λ y h. same_next s new (s.prev head) head y)
          (λ y h. same_prev s new (s.prev head) head y (fresh head (inl refl)))
          (list_add_tail-IsList s new head xs is fresh),
    )

-- `list_del_rcu` leaves the list without the entry, as `list_del` does, but the entry still leads on to
-- the entry that was behind it.
pub list_del_rcu-IsList :
    (s : Store) (head entry : ℕ) (xs ys : List ℕ)
    → IsList s head (xs ++ entry ∷ ys)
    → IsList (write_all (list_del_rcu entry s) s) head (xs ++ ys)
      × ((write_all (list_del_rcu entry s) s).next entry ≡ s.next entry)
      × ((write_all (list_del_rcu entry s) s).prev entry ≡ list_poison2)
unfolding list_del_rcu list_del __list_del_entry __list_del
list_del_rcu-IsList s head entry xs ys is =
    let s' = write_all (list_del_rcu entry s) s in
    let (dx, (off_ys, dy), apart) = Distinct-split (head ∷ xs) (entry ∷ ys) is.distinct in
    let last = last_In s head xs entry (Links-split s head xs entry ys head is.links).0 in
    let ne_prev : s.prev entry ≢ entry = apart (s.prev entry) entry last (inl refl) in
    let off : (y : ℕ) → In y ((head ∷ xs) ++ ys) → y ≢ entry = λ y h.
      elim (In-append y (head ∷ xs) ys h) [
        | inl k ↦ apart y entry k (inl refl)
        | inr k ↦ off_ys y k
      ] in
    (
      IsList-keep (list_del entry s) s' head (xs ++ ys) (λ y h. let ne = off y h in ground arith)
          (λ y h. let ne = off y h in ground arith) (list_del-IsList s head xs entry ys is).0,
      ground arith,
      ground arith,
    )
