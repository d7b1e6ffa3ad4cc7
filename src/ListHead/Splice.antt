-- ===== src/ListHead/Splice.antt =====
-- Joining two lists, walking along a list, and the tests for an empty list.
use mathlib.Core.Path.{subst}
use mathlib.Core.List.{cons-ne-nil}
use kernel_porting.Prelude.{
  ℕ, suc, ◌≡◌, ◌⊎◌, ◌↔◌, ◌∙◌, refl, sym, ap, inl, inr, arith, List, [], ◌∷◌, ◌++◌, length, ◌==◌,
  true, false, none, some,
}
use kernel_porting.ListHead.{
  Store, init_list_head, list_empty, __list_splice, list_splice, list_splice_tail, list_splice_init,
  list_splice_tail_init, each_loop, list_for_each,
}
use kernel_porting.ListHead.Chain.{
  In, Links, IsList, Apart, In-append, Distinct-append, Links-join, last_In, Links-keep,
  Links-retarget,
}
use kernel_porting.ListHead.Edit.{append-nil, IsFresh}

init_list_head-IsList : (s : Store) (list : ℕ) → IsList (init_list_head list s) list []
unfolding init_list_head
init_list_head-IsList s list = record {
  links = (ground arith, ground arith);
  distinct = (λ y h. elim h [ ], tt);
}

empty_iff :
    (s : Store) (head : ℕ) (xs : List ℕ)
    → IsList s head xs
    → ((s.next head == head) ≡ true) ↔ (xs ≡ [])
empty_iff s head [] is = let n = is.links.0 in (λ e. refl, λ e. ground arith)
empty_iff s head (x ∷ xs) is =
    let n = is.links.0 in
    let ne = is.distinct.0 x (inl refl) in
    (λ e. absurd (ground arith), λ e. absurd (cons-ne-nil x xs e))

-- Making some other address an empty list leaves a list alone.
init_list_head-keep :
    (s : Store) (head list : ℕ) (xs : List ℕ)
    → IsList s head xs
    → IsFresh list (head ∷ xs)
    → IsList (init_list_head list s) head xs
unfolding init_list_head
init_list_head-keep s head list xs is off = record {
  links =
      Links-keep s (init_list_head list s) head xs head (λ y h. let a = off y h in ground arith)
        (λ y h. let a = off y (inr h) in ground arith) (let a = off head (inl refl) in ground arith)
        is.links;
  distinct = is.distinct;
}

module _ (s : Store) (list z : ℕ) (zs : List ℕ) (from : IsList s list (z ∷ zs)) where
  not_empty : list_empty list s ≡ false
  unfolding list_empty
  not_empty = let off = from.distinct.0 z (inl refl) in let n = from.links.0 in ground arith

  last_of : In (s.prev list) (z ∷ zs)
  last_of = last_In s z zs list from.links.2

  -- The entries of the list, put between `prev` and `next`, which are not among them.
  between :
      (prev next : ℕ)
      → IsFresh prev (z ∷ zs)
      → IsFresh next (z ∷ zs)
      → ((__list_splice list prev next s).next prev ≡ z)
        × ((__list_splice list prev next s).prev z ≡ prev)
        × Links (__list_splice list prev next s) z zs next
  unfolding __list_splice
  between prev next off_prev off_next =
      let (n, p, rest) = from.links in
      let a = off_prev (s.prev list) last_of in
      let b = off_next z (inl refl) in
      (
        ground arith,
        ground arith,
        Links-retarget s (__list_splice list prev next s) z zs list next from.distinct.1
            (ground arith) (ground arith) (λ y h ne. let c = off_prev y h in ground arith)
            (λ y h. let c = off_next y (inr h) in let d = from.distinct.1.0 y h in ground arith)
            rest,
      )

  front_rest :
      (head x : ℕ) (xs : List ℕ)
      → IsList s head (x ∷ xs)
      → Apart (z ∷ zs) (head ∷ x ∷ xs)
      → Links (__list_splice list head (s.next head) s) x xs head
  unfolding __list_splice
  front_rest head x xs to apart =
      let (n, p, rest) = to.links in
      let ne = to.distinct.0 x (inl refl) in
      Links-keep s (__list_splice list head (s.next head) s) x xs head
        (λ y h.
          let a = to.distinct.0 y h in
          let b = apart (s.prev list) y last_of (inr h) in ground arith)
        (λ y h.
          let a = to.distinct.1.0 y h in let b = apart z y (inl refl) (inr (inr h)) in ground arith)
        (let b = apart z head (inl refl) (inl refl) in ground arith) rest

  -- Together with a list at `head` that shares nothing with it: in front of its entries.
  front-IsList :
      (head : ℕ) (xs : List ℕ)
      → IsList s head xs
      → Apart (z ∷ zs) (head ∷ xs)
      → IsList (__list_splice list head (s.next head) s) head (z ∷ zs ++ xs)
  front-IsList head [] to apart =
      let off : IsFresh head (z ∷ zs) = λ y h. apart y head h (inl refl) in
      let (n, p) = to.links in
      let off_next : IsFresh (s.next head) (z ∷ zs) = λ y h same. off y h (same ∙ n) in
      let s' = __list_splice list head (s.next head) s in
      let (on, back, body) = between head (s.next head) off off_next in
      let closed : Links s' z zs head = subst (λ t. Links s' z zs t) n body in
      rw (append-nil zs) (record { links = (on, back, closed); distinct = (off, from.distinct.1) })
  front-IsList head (x ∷ xs) to apart =
      let off : IsFresh head (z ∷ zs) = λ y h. apart y head h (inl refl) in
      let (n, p, rest) = to.links in
      let off_next : IsFresh (s.next head) (z ∷ zs) =
        λ y h same. apart y x h (inr (inl refl)) (same ∙ n) in
      let s' = __list_splice list head (s.next head) s in
      let (on, back, body) = between head (s.next head) off off_next in
      let closed : Links s' z zs x = subst (λ t. Links s' z zs t) n body in
      record {
        links = (on, back, Links-join s' z zs x xs head closed (front_rest head x xs to apart));
        distinct = (
          λ y h. elim (In-append y (z ∷ zs) (x ∷ xs) h) [
            | inl left ↦ off y left
            | inr right ↦ to.distinct.0 y right
          ],
          Distinct-append (z ∷ zs) (x ∷ xs) from.distinct.1 to.distinct.1
              (λ u v hu hv. apart u v hu (inr hv)),
        );
      }

  -- And behind them.
  back-IsList :
      (head : ℕ) (xs : List ℕ)
      → IsList s head xs
      → Apart (z ∷ zs) (head ∷ xs)
      → IsList (__list_splice list (s.prev head) head s) head (xs ++ z ∷ zs)
  unfolding __list_splice
  back-IsList head xs to apart =
      let off : IsFresh head (z ∷ zs) = λ y h. apart y head h (inl refl) in
      let last = last_In s head xs head to.links in
      let off_prev : IsFresh (s.prev head) (z ∷ zs) = λ y h. apart y (s.prev head) h last in
      let s' = __list_splice list (s.prev head) head s in
      let (on, back, body) = between (s.prev head) head off_prev off in
      record {
        links =
            Links-join s' head xs z zs head
              (Links-retarget s s' head xs head z to.distinct on back
                (λ y h ne. let a = apart (s.prev list) y last_of h in ground arith)
                (λ y h.
                  let a = apart z y (inl refl) (inr h) in let b = to.distinct.0 y h in ground arith)
                to.links)
              body;
        distinct =
            Distinct-append (head ∷ xs) (z ∷ zs) to.distinct from.distinct.1
              (λ u v hu hv same. apart v u hv hu (sym same));
      }

-- `list_splice` and `list_splice_tail` put the entries of one list in front of and behind those of a
-- list that shares no address with it; the `_init` variants also leave the first list empty.
pub list_splice-IsList :
    (s : Store) (list head : ℕ) (zs xs : List ℕ)
    → IsList s list zs
    → IsList s head xs
    → Apart (list ∷ zs) (head ∷ xs)
    → IsList (list_splice list head s) head (zs ++ xs)
      × IsList (list_splice_tail list head s) head (xs ++ zs)
      × IsList (list_splice_init list head s) head (zs ++ xs)
      × IsList (list_splice_init list head s) list []
      × IsList (list_splice_tail_init list head s) head (xs ++ zs)
      × IsList (list_splice_tail_init list head s) list []
unfolding list_splice list_splice_tail list_splice_init list_splice_tail_init
list_splice-IsList s list head [] xs from to apart =
    let empty : list_empty list s ≡ true =
      unfold list_empty in (let n = from.links.0 in ground arith) in
    rw (empty, append-nil xs) (to, to, to, from, to, from)
list_splice-IsList s list head (z ∷ zs) xs from to apart =
    let off = λ (u v : ℕ) (hu : In u (z ∷ zs)) (hv : In v (head ∷ xs)). apart u v (inr hu) hv in
    let front = front-IsList s list z zs from head xs to off in
    let back = back-IsList s list z zs from head xs to off in
    let fresh : (ys : List ℕ)
        → ((y : ℕ) → In y ys → In y (z ∷ zs) ⊎ In y xs)
        → IsFresh list (head ∷ ys) =
      λ ys sub y h. elim h [
        | inl e ↦ λ same. apart list head (inl refl) (inl refl) (sym same ∙ e)
        | inr there ↦ elim (sub y there) [
          | inl left ↦ from.distinct.0 y left
          | inr right ↦ λ same. apart list y (inl refl) (inr right) (sym same)
        ]
      ] in
    rw (not_empty s list z zs from) (
      front,
      back,
      init_list_head-keep _ head list (z ∷ zs ++ xs) front
          (fresh (z ∷ zs ++ xs) (λ y h. In-append y (z ∷ zs) xs h)),
      init_list_head-IsList _ list,
      init_list_head-keep _ head list (xs ++ z ∷ zs) back (
          fresh (xs ++ z ∷ zs) (λ y h. elim (In-append y xs (z ∷ zs) h) [
            | inl left ↦ inr left
            | inr right ↦ inl right
          ])),
      init_list_head-IsList _ list,
    )

-- The loop sees the entries of a chain in order, when the fuel exceeds their number.
each_loop-Links :
    (s : Store) (a b : ℕ) (xs : List ℕ)
    → IsFresh b xs
    → Links s a xs b
    → each_loop s.next (suc (length xs)) b (s.next a) ≡ some xs
unfolding each_loop
each_loop-Links s a b [] off (n, p) = ground arith
each_loop-Links s a b (x ∷ xs) off (n, p, rest) =
    let here : (s.next a == b) ≡ false = let ne = off x (inl refl) in ground (arith, n) in
    let later =
      ap (λ t. each_loop s.next (suc (length xs)) b (s.next t)) n
      ∙ each_loop-Links s x b xs (λ y h. off y (inr h)) rest in
    rw here (
      ap (λ r. elim r [ none ↦ none | some ps ↦ some (s.next a ∷ ps) ]) later
      ∙ ap (λ t. some (t ∷ xs)) n)

-- `list_for_each` visits the entries of a list in order and ends, with one round for each entry and one
-- more; `list_empty` is true exactly for a list without entries.
pub list_for_each_lem :
    (s : Store) (head : ℕ) (xs : List ℕ)
    → IsList s head xs
    → (list_for_each (suc (length xs)) head s ≡ some xs) × ((list_empty head s ≡ true) ↔ (xs ≡ []))
unfolding list_for_each list_empty
list_for_each_lem s head xs is =
    (each_loop-Links s head head xs is.distinct.0 is.links, empty_iff s head xs is)
