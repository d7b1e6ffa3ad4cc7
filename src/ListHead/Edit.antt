-- ===== src/ListHead/Edit.antt =====
-- Insertion, removal and moves of one entry.
use kernel_porting.Prelude.{ℕ, ◌≡◌, ◌≢◌, ◌∙◌, refl, sym, ap, inl, inr, arith, List, [], ◌∷◌, ◌++◌}
use kernel_porting.ListHead.{
  Store, list_poison1, list_poison2, init_list_head, __list_add, list_add, list_add_tail,
  __list_del, __list_del_entry, list_del, list_del_init, list_move, list_move_tail,
}
use kernel_porting.ListHead.Chain.{
  In, Distinct, Links, IsList, In-append, Distinct-append, Distinct-split, Links-split, Links-join,
  last_In, Links-keep, Links-retarget,
}

pub append-nil : (xs : List ℕ) → xs ++ [] ≡ xs
append-nil [] = refl
append-nil (x ∷ xs) = ap (λ ys. x ∷ ys) (append-nil xs)

-- `new` is neither the head nor an entry.
abbrev pub IsFresh : ℕ → List ℕ → Type 0
IsFresh new xs = (y : ℕ) → In y xs → y ≢ new

module _ (s : Store) (new head : ℕ) where
  -- `list_add` puts an entry that is not on the list in front of the others.
  pub list_add-IsList :
      (xs : List ℕ)
      → IsList s head xs
      → IsFresh new (head ∷ xs)
      → IsList (list_add new head s) head (new ∷ xs)
  unfolding list_add __list_add
  list_add-IsList [] is fresh =
      let (n, p) = is.links in
      let ne : head ≢ new = fresh head (inl refl) in
      record {
        links = (ground arith, ground arith, (ground (arith, n), ground (arith, n)));
        distinct = (λ y h. ground (arith, h), (λ y h. elim h [ ], tt));
      }
  list_add-IsList (x ∷ xs) is fresh =
      let (n, p, rest) = is.links in
      let (off, (off_x, d)) = is.distinct in
      let ne : head ≢ new = fresh head (inl refl) in
      let ne_x : x ≢ new = fresh x (inr (inl refl)) in
      let apart : x ≢ head = off x (inl refl) in
      let s' = list_add new head s in
      record {
        links = (
          ground arith,
          ground arith,
          (
            ground (arith, n),
            ground (arith, n),
            Links-keep s s' x xs head
                (λ y h. let a = fresh y (inr h) in let b = off y h in ground arith)
                (λ y h. let a = fresh y (inr (inr h)) in let b = off_x y h in ground (arith, n))
                (ground (arith, n)) rest,
          ),
        );
        distinct = (
          λ y h. elim h [ inl e ↦ ground (arith, e) | inr here ↦ off y here ],
          (λ y h. fresh y (inr h), is.distinct.1),
        );
      }

  -- `list_add_tail` puts an entry that is not on the list behind the others.
  pub list_add_tail-IsList :
      (xs : List ℕ)
      → IsList s head xs
      → IsFresh new (head ∷ xs)
      → IsList (list_add_tail new head s) head (xs ++ new ∷ [])
  unfolding list_add_tail __list_add
  list_add_tail-IsList xs is fresh =
      let s' = list_add_tail new head s in
      let off = is.distinct.0 in
      let ne : head ≢ new = fresh head (inl refl) in
      let ne_last : s.prev head ≢ new = fresh (s.prev head) (last_In s head xs head is.links) in
      record {
        links =
            Links-join s' head xs new [] head
              (Links-retarget s s' head xs head new is.distinct (ground arith) (ground arith)
                (λ y h apart. let a = fresh y h in ground arith)
                (λ y h. let a = fresh y (inr h) in let b = off y h in ground arith) is.links)
              (ground arith, ground arith);
        distinct =
            Distinct-append (head ∷ xs) (new ∷ []) is.distinct (λ y h. elim h [ ], tt)
              (λ u v hu hv. elim hv [
                | inl e ↦ λ same. fresh u hu (same ∙ e)
                | inr none ↦ elim none [ ]
              ]);
      }

-- What a removal has to do to the store.
record Unlinks (s s' : Store) (e : ℕ) : Type 0 where
  on : s'.next (s.prev e) ≡ s.next e
  back : s'.prev (s.next e) ≡ s.prev e
  nexts : (y : ℕ) → y ≢ s.prev e → y ≢ e → s'.next y ≡ s.next y
  prevs : (y : ℕ) → y ≢ s.next e → y ≢ e → s'.prev y ≡ s.prev y

Unlinks-IsList :
    (s s' : Store) (head : ℕ) (xs : List ℕ) (e : ℕ) (ys : List ℕ)
    → IsList s head (xs ++ e ∷ ys)
    → Unlinks s s' e
    → IsList s' head (xs ++ ys)
Unlinks-IsList s s' head xs e [] is un =
    let (left, (on, back)) = Links-split s head xs e [] head is.links in
    let (d, d_e, apart) = Distinct-split (head ∷ xs) (e ∷ []) is.distinct in
    rw (append-nil xs) (record {
      links =
          Links-retarget s s' head xs e head d (un.on ∙ on) (ap s'.prev (sym on) ∙ un.back)
            (λ y h ne. un.nexts y ne (apart y e h (inl refl)))
            (λ y h. un.prevs y (λ same. d.0 y h (same ∙ on)) (apart y e (inr h) (inl refl))) left;
      distinct = d;
    })
Unlinks-IsList s s' head xs e (y ∷ ys) is un =
    let (left, (on, back, right)) = Links-split s head xs e (y ∷ ys) head is.links in
    let (d, (off_e, d_y), apart) = Distinct-split (head ∷ xs) (e ∷ y ∷ ys) is.distinct in
    let last = last_In s head xs e left in
    record {
      links =
          Links-join s' head xs y ys head
            (Links-retarget s s' head xs e y d (un.on ∙ on) (ap s'.prev (sym on) ∙ un.back)
              (λ u h ne. un.nexts u ne (apart u e h (inl refl)))
              (λ u h.
                un.prevs u (λ same. apart u y (inr h) (inr (inl refl)) (same ∙ on))
                  (apart u e (inr h) (inl refl)))
              left)
            (Links-keep s s' y ys head
              (λ u h. un.nexts u (λ same. apart (s.prev e) u last (inr h) (sym same)) (off_e u h))
              (λ u h. un.prevs u (λ same. d_y.0 u h (same ∙ on)) (off_e u (inr h)))
              (un.prevs head (λ same. apart head y (inl refl) (inr (inl refl)) (same ∙ on))
                (apart head e (inl refl) (inl refl)))
              right);
      distinct = Distinct-append (head ∷ xs) (y ∷ ys) d d_y (λ u v hu hv. apart u v hu (inr hv));
    }

module _ (s : Store) (head : ℕ) (xs : List ℕ) (e : ℕ) (ys : List ℕ)
    (is : IsList s head (xs ++ e ∷ ys)) where
  -- The entries around `e` differ from it.
  pub around : (s.prev e ≢ e) × (s.next e ≢ e)
  around =
      let (left, right) = Links-split s head xs e ys head is.links in
      let (d, d_e, apart) = Distinct-split (head ∷ xs) (e ∷ ys) is.distinct in
      (
        apart (s.prev e) e (last_In s head xs e left) (inl refl),
        after ys right d_e (λ same. apart head e (inl refl) (inl refl) same),
      )
    where
      after : (zs : List ℕ) → Links s e zs head → Distinct (e ∷ zs) → head ≢ e → s.next e ≢ e
      after [] (n, p) d ne = λ same. ne (sym n ∙ same)
      after (z ∷ zs) (n, p, rest) d ne = λ same. d.0 z (inl refl) (sym n ∙ same)

  __list_del_entry-Unlinks : Unlinks s (__list_del_entry e s) e
  unfolding __list_del_entry __list_del
  __list_del_entry-Unlinks = record {
    on = ground arith;
    back = ground arith;
    nexts = λ y a b. ground arith;
    prevs = λ y a b. ground arith;
  }

  -- `list_del` takes an entry off its list and leaves the poison values in it; `list_del_init` takes it
  -- off and makes it an empty list of its own.
  pub list_del-IsList :
      IsList (list_del e s) head (xs ++ ys)
      × ((list_del e s).next e ≡ list_poison1)
      × ((list_del e s).prev e ≡ list_poison2)
      × IsList (list_del_init e s) head (xs ++ ys)
      × IsList (list_del_init e s) e []
  unfolding list_del list_del_init init_list_head __list_del_entry __list_del
  list_del-IsList =
      let (ne_prev, ne_next) = around in
      (
        Unlinks-IsList s (list_del e s) head xs e ys is (record {
          on = ground arith;
          back = ground arith;
          nexts = λ y a b. ground arith;
          prevs = λ y a b. ground arith;
        }),
        ground arith,
        ground arith,
        Unlinks-IsList s (list_del_init e s) head xs e ys is (record {
          on = ground arith;
          back = ground arith;
          nexts = λ y a b. ground arith;
          prevs = λ y a b. ground arith;
        }),
        record { links = (ground arith, ground arith); distinct = (λ y h. elim h [ ], tt) },
      )

-- `list_move` and `list_move_tail` within one list take the entry to the front and to the end, and
-- leave the order of the others.
pub list_move-IsList :
    (s : Store) (head : ℕ) (xs : List ℕ) (e : ℕ) (ys : List ℕ)
    → IsList s head (xs ++ e ∷ ys)
    → IsList (list_move e head s) head (e ∷ xs ++ ys)
      × IsList (list_move_tail e head s) head ((xs ++ ys) ++ e ∷ [])
unfolding list_move list_move_tail
list_move-IsList s head xs e ys is =
    let s' = __list_del_entry e s in
    let (d, (off, d_ys), apart) = Distinct-split (head ∷ xs) (e ∷ ys) is.distinct in
    let without =
      Unlinks-IsList s s' head xs e ys is (__list_del_entry-Unlinks s head xs e ys is) in
    let fresh : IsFresh e (head ∷ xs ++ ys) = λ y h. elim (In-append y (head ∷ xs) ys h) [
      | inl left ↦ apart y e left (inl refl)
      | inr right ↦ off y right
    ] in
    (
      list_add-IsList s' e head (xs ++ ys) without fresh,
      list_add_tail-IsList s' e head (xs ++ ys) without fresh,
    )
