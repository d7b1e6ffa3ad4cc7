-- ===== src/ListHead/Cut.antt =====
-- `list_rotate_left` and `list_cut_position`.
use Prim.{tt}
use kernel_porting.Prelude.{
  ℕ, ◌≡◌, ◌≢◌, ◌⊎◌, ◌∙◌, refl, sym, inl, inr, arith, true, false, ◌==◌, Bool-cases, List, [], ◌∷◌,
  ◌++◌,
}
use kernel_porting.ListHead.{
  Store, list_empty, list_is_singular, list_rotate_left, __list_cut_position, list_cut_position,
}
use kernel_porting.ListHead.Chain.{
  In, In-left, In-right, In-append, Distinct-split, Distinct-append, Links, Links-split, Links-join,
  Links-resource, IsList, first_In, last_In,
}
use kernel_porting.ListHead.Edit.{IsFresh, list_move-IsList}

-- `list_rotate_left` puts the first entry of a list behind the others, and leaves an empty list alone.
list_rotate_left-IsList :
    (s : Store) (head : ℕ)
    → (IsList s head [] → list_rotate_left head s ≡ s)
      × ((x : ℕ) (xs : List ℕ)
          → IsList s head (x ∷ xs)
          → IsList (list_rotate_left head s) head (xs ++ x ∷ []))
unfolding list_rotate_left list_empty
list_rotate_left-IsList s head = (
  λ is. let e : (s.next head == head) ≡ true = (let k = is.links.0 in ground arith) in rw e refl,
  λ x xs is.
      let first = is.links.0 in
      let ne = is.distinct.0 x (inl refl) in
      let e : (x == head) ≡ false = ground arith in
      rw (first, e) (list_move-IsList s head [] x xs is).1,
)

-- The end of the list is not its first entry, unless that is the only one.
not_singular :
    (s : Store) (head : ℕ) (xs : List ℕ) (e : ℕ) (ys : List ℕ)
    → IsList s head (xs ++ e ∷ ys)
    → s.next head ≢ e
    → s.next head ≢ s.prev head
not_singular s head [] e ys is ne = absurd (ne is.links.0)
not_singular s head (x ∷ xs) e ys is ne =
    let (_, right) = Links-split s head (x ∷ xs) e ys head is.links in
    let (_, _, apart) = Distinct-split (head ∷ x ∷ xs) (e ∷ ys) is.distinct in
    let first = is.links.0 in
    λ same. apart x (s.prev head) (inr (inl refl)) (last_In s e ys head right) (sym first ∙ same)

not_empty :
    (s : Store) (head : ℕ) (xs : List ℕ) (e : ℕ) (ys : List ℕ)
    → IsList s head (xs ++ e ∷ ys)
    → s.next head ≢ head
not_empty s head [] e ys is = λ z. is.distinct.0 e (inl refl) (sym is.links.0 ∙ z)
not_empty s head (x ∷ xs) e ys is = λ z. is.distinct.0 x (inl refl) (sym is.links.0 ∙ z)

cut_runs :
    (s : Store) (list head : ℕ) (xs : List ℕ) (e : ℕ) (ys : List ℕ)
    → IsList s head (xs ++ e ∷ ys)
    → list_cut_position list head e s ≡ __list_cut_position list head e s
unfolding list_cut_position list_empty list_is_singular
cut_runs s list head xs e ys is =
    let (_, (off, _), apart) = Distinct-split (head ∷ xs) (e ∷ ys) is.distinct in
    let ne : head ≢ e = apart head e (inl refl) (inl refl) in
    let full = not_empty s head xs e ys is in
    let single = not_singular s head xs e ys is in
    elim (Bool-cases (s.next head == e)) [
      | inl same ↦ ground arith
      | inr apart_e ↦ let k = single (ground arith) in ground arith
    ]

-- `list_cut_position` moves the entries up to `e` to `list`, which is not in the list before, and leaves the
-- others.
pub list_cut_position-IsList :
    (s : Store) (list head : ℕ) (xs : List ℕ) (e : ℕ) (ys : List ℕ)
    → IsList s head (xs ++ e ∷ ys)
    → IsFresh list (head ∷ (xs ++ e ∷ ys))
    → IsList (list_cut_position list head e s) list (xs ++ e ∷ [])
      × IsList (list_cut_position list head e s) head ys
unfolding __list_cut_position
list_cut_position-IsList s list head xs e ys is fresh =
    let s' = __list_cut_position list head e s in
    let (left, right) = Links-split s head xs e ys head is.links in
    let ((head_xs, d_xs), (e_ys, d_ys), apart) = Distinct-split (head ∷ xs) (e ∷ ys) is.distinct in
    let off_list : (y : ℕ) → In y (head ∷ xs) ⊎ In y (e ∷ ys) → y ≢ list = λ y h. elim h [
      | inl (inl z) ↦ fresh y (inl z)
      | inl (inr k) ↦ fresh y (inr (In-left y xs (e ∷ ys) k))
      | inr k ↦ fresh y (inr (In-right y xs (e ∷ ys) k))
    ] in
    let head_e : head ≢ e = apart head e (inl refl) (inl refl) in
    let list_head = off_list head (inl (inl refl)) in
    let list_e = off_list e (inr (inl refl)) in
    let first : (s.next head ≡ e) ⊎ In (s.next head) xs = first_In s head xs e left in
    let second : (s.next e ≡ head) ⊎ In (s.next e) ys = first_In s e ys head right in
    let first_list : s.next head ≢ list = elim first [
      | inl z ↦ λ w. list_e (sym z ∙ w)
      | inr k ↦ off_list (s.next head) (inl (inr k))
    ] in
    let second_list : s.next e ≢ list = elim second [
      | inl z ↦ λ w. list_head (sym z ∙ w)
      | inr k ↦ off_list (s.next e) (inr (inr k))
    ] in
    let xs_ys : (y z : ℕ) → In y (xs ++ e ∷ []) → (z ≡ head) ⊎ In z ys → y ≢ z = λ y z h k.
      elim (In-append y xs (e ∷ []) h) [
        | inl a ↦ elim k [
          | inl at_head ↦ λ w. head_xs y a (w ∙ at_head)
          | inr b ↦ apart y z (inr a) (inr b)
        ]
        | inr a ↦ elim k [
          | inl at_head ↦ elim a [
            | inl at_e ↦ λ w. head_e (sym at_head ∙ sym w ∙ at_e)
            | inr off ↦ elim off [ ]
          ]
          | inr b ↦ elim a [ inl at_e ↦ λ w. e_ys z b (sym w ∙ at_e) | inr off ↦ elim off [ ] ]
        ]
      ] in
    let first_in : In (s.next head) (xs ++ e ∷ []) = elim first [
      | inl z ↦ In-right (s.next head) xs (e ∷ []) (inl z)
      | inr k ↦ In-left (s.next head) xs (e ∷ []) k
    ] in
    let xs_head : (y : ℕ) → In y ys → y ≢ head = λ y h z. apart head y (inl refl) (inr h) (sym z) in
    let crossed = xs_ys (s.next head) (s.next e) first_in second in
    let run = cut_runs s list head xs e ys is in
    let one : Links s' list xs e =
      Links-resource s s' head list xs e d_xs (λ y h. apart y e (inr h) (inl refl)) (ground arith)
        (ground arith)
        (λ y h.
          let a = off_list y (inl (inr h)) in
          let b = apart y e (inr h) (inl refl) in let c = head_xs y h in ground arith)
        (λ y h ne.
          let a = off_list y (inl (inr h)) in
          let b = xs_ys y (s.next e) (In-left y xs (e ∷ []) h) second in ground arith)
        (λ ne.
          let b = xs_ys e (s.next e) (In-right e xs (e ∷ []) (inl refl)) second in ground arith)
        left in
    let two : Links s' head ys head =
      Links-resource s s' e head ys head d_ys (λ y h z. xs_head y h z) (ground arith) (ground arith)
        (λ y h.
          let a = off_list y (inr (inr h)) in
          let b = e_ys y h in let c = xs_head y h in ground arith)
        (λ y h ne.
          let a = off_list y (inr (inr h)) in
          let b = xs_ys (s.next head) y first_in (inr h) in ground arith)
        (λ ne. let b = xs_ys (s.next head) head first_in (inl refl) in ground arith) right in
    rw run (
      record {
        links = Links-join s' list xs e [] list one (ground arith, ground arith);
        distinct = (
          λ y h. elim (In-append y xs (e ∷ []) h) [
            | inl k ↦ off_list y (inl (inr k))
            | inr k ↦ elim k [ inl z ↦ λ w. list_e (sym z ∙ w) | inr off ↦ elim off [ ] ]
          ],
          Distinct-append xs (e ∷ []) d_xs (λ y h. elim h [ ], tt)
              (λ x y hx hy. elim hy [
                | inl z ↦ λ w. apart x e (inr hx) (inl refl) (w ∙ z)
                | inr off ↦ elim off [ ]
              ]),
        );
      },
      record { links = two; distinct = (λ y h. xs_head y h, d_ys) },
    )
