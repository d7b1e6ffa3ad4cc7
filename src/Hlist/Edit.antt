-- ===== src/Hlist/Edit.antt =====
-- What the operations on hash lists do to the list.
use mathlib.Core.Path.{subst}
use kernel_porting.Prelude.{
  ℕ, zero, suc, ◌+◌, ◌≤◌, ◌<◌, ◌≡◌, ◌≢◌, ◌∙◌, refl, sym, inl, inr, arith, true, false, ◌==◌,
  if◌then◌else◌, Bool-cases, List, [], ◌∷◌, ◌++◌, length, some,
}
use kernel_porting.Hlist.{
  Store, put_next, lead_back, init_hlist_node, hlist_unhashed, __hlist_del, hlist_del,
  hlist_del_init, hlist_add_head, hlist_move_list, hlist_loop, hlist_for_each,
}
use kernel_porting.Hlist.Chain.{
  occurs, occurs-++, Chain, IsHlist, Chain-split, Way-end, Chain-shift, Way-keep, Way-Chain,
}

module _ (p v : ℕ) (s : Store) where
  pub lead_back-next : (y : ℕ) → (lead_back p v s).next y ≡ s.next y
  lead_back-next y = elim (Bool-cases (p == 0)) [ inl z ↦ rw z refl | inr z ↦ rw z refl ]

  pub lead_back-top : p ≢ 0 → (lead_back p v s).pprev p ≡ v
  lead_back-top ne = let z : (p == 0) ≡ false = ground arith in rw z (ground arith)

  pub lead_back-other : (y : ℕ) → (p ≢ 0 → y ≢ p) → (lead_back p v s).pprev y ≡ s.pprev y
  lead_back-other y apart = elim (Bool-cases (p == 0)) [
    | inl z ↦ rw z refl
    | inr z ↦ let ne = apart (ground arith) in rw z (ground arith)
  ]

-- The first node behind a pointer is one of the nodes.
pub next_in :
    (s : Store) (loc : ℕ) (xs : List ℕ)
    → Chain s loc xs
    → s.next loc ≢ 0
    → 1 ≤ occurs (s.next loc) xs
unfolding occurs
next_in s loc [] is ne = absurd (ne is)
next_in s loc (x ∷ xs) (e, ne, p, is) ne' = ground arith

pub not_in : (y z : ℕ) (xs : List ℕ) → 1 ≤ occurs y xs → occurs z xs ≡ 0 → y ≢ z
not_in y z xs h k e = absurd (let w = subst (λ x. 1 ≤ occurs x xs) e h in omega arith)

-- For a node that is not NULL and neither the head nor on the list, `hlist_add_head` puts it at
-- the front of the list.
pub hlist_add_head-IsHlist :
    (s : Store) (n h : ℕ) (xs : List ℕ)
    → IsHlist s h xs
    → n ≢ 0
    → occurs n (h ∷ xs) ≡ 0
    → IsHlist (hlist_add_head n h s) h (n ∷ xs)
unfolding hlist_add_head occurs
hlist_add_head-IsHlist s n h xs is ne fresh =
    let s' = hlist_add_head n h s in
    let first = s.next h in
    let s1 = put_next n first s in
    let s2 = lead_back first n s1 in
    let apart : n ≢ h = ground arith in
    let out : occurs n xs ≡ 0 = omega arith in
    let o_h = is.once h in
    let off_h : occurs h xs ≡ 0 = ground arith in
    let links : (y : ℕ) → s2.next y ≡ s1.next y = lead_back-next first n s1 in
    record {
      chain = (
        ground arith,
        ne,
        ground arith,
        Chain-shift s s' h n xs (λ y. let o = is.once y in omega arith)
            (let k = links n in ground arith)
            (λ ne_f.
              let k = lead_back-top first n s1 ne_f in
              let m = not_in first n xs (next_in s h xs is.chain ne_f) out in ground arith)
            (λ y here.
              let k = links y in
              let m = not_in y n xs here out in let m' = not_in y h xs here off_h in ground arith)
            (λ y here other.
              let k = lead_back-other first n s1 y (λ z. other) in
              let m = not_in y n xs here out in ground arith)
            is.chain,
      );
      once = λ y. let o = is.once y in ground arith;
    }

-- Taking a node off joins what stood before and behind it, whatever then happens to its own fields.
__hlist_del-Chain :
    (s s' : Store) (h n : ℕ) (xs ys : List ℕ)
    → IsHlist s h (xs ++ n ∷ ys)
    → ((y : ℕ) → y ≢ n → s'.next y ≡ (__hlist_del n s).next y)
    → ((y : ℕ) → y ≢ n → s'.pprev y ≡ (__hlist_del n s).pprev y)
    → Chain s' h (xs ++ ys)
unfolding __hlist_del occurs
__hlist_del-Chain s s' h n xs ys is next back =
    let (e, way, (at_e, ne, p, rest)) = Chain-split s h xs (n ∷ ys) is.chain in
    let all : (y : ℕ)
        → (if y == h then 1 else 0) + occurs y xs + (if y == n then 1 else 0) + occurs y ys ≤ 1 =
      λ y. let k = occurs-++ y xs (n ∷ ys) in let o = is.once y in omega arith in
    let follow = s.next n in
    let s1 = put_next (s.pprev n) follow s in
    let links : (y : ℕ) → y ≢ n → s'.next y ≡ s1.next y =
      λ y z. next y z ∙ lead_back-next follow (s.pprev n) s1 y in
    let at_n = all n in
    let at_end = all e in
    let end_in : 1 ≤ (if e == h then 1 else 0) + occurs e xs = elim (Way-end s h e xs way) [
      | inl same ↦ ground arith
      | inr (ne', there) ↦ omega arith
    ] in
    let e_n : e ≢ n = ground arith in
    let e_ys : occurs e ys ≡ 0 = omega arith in
    let n_ys : occurs n ys ≡ 0 = ground arith in
    let n_xs : occurs n (h ∷ xs) ≡ 0 = ground arith in
    let words : (y : ℕ) → y ≢ n → (follow ≢ 0 → y ≢ follow) → s'.pprev y ≡ s.pprev y =
      λ y z w. back y z ∙ lead_back-other follow (s.pprev n) s1 y w in
    Way-Chain s' h e xs ys
      (Way-keep s s' h e xs (λ y. let o = all y in omega arith)
        (λ y here z. let k = links y (not_in y n (h ∷ xs) here n_xs) in ground arith)
        (λ y here.
          let o = all y in
          words y (not_in y n (h ∷ xs) (omega arith) n_xs) (λ z.
            not_in y follow xs here
              (let m = next_in s n ys rest z in let o' = all follow in omega arith)))
        way)
      (Chain-shift s s' n e ys (λ y. let o = all y in omega arith) (links e e_n ∙ ground arith)
        (λ z.
          back follow (not_in follow n ys (next_in s n ys rest z) n_ys)
          ∙ lead_back-top follow (s.pprev n) s1 z
          ∙ p)
        (λ y here.
          let k = links y (not_in y n ys here n_ys) in
          let m = not_in y e ys here e_ys in ground arith)
        (λ y here other. words y (not_in y n ys here n_ys) (λ z. other)) rest)

once_without :
    (h n : ℕ) (xs ys : List ℕ)
    → ((y : ℕ) → occurs y (h ∷ (xs ++ n ∷ ys)) ≤ 1)
    → (y : ℕ) → occurs y (h ∷ (xs ++ ys)) ≤ 1
unfolding occurs
once_without h n xs ys once y =
    let a = occurs-++ y xs (n ∷ ys) in let b = occurs-++ y xs ys in let o = once y in omega arith

pprev_not_null :
    (s : Store) (h n : ℕ) (xs ys : List ℕ) → h ≢ 0 → Chain s h (xs ++ n ∷ ys) → s.pprev n ≢ 0
pprev_not_null s h n xs ys ne is =
    let (e, way, (at_e, ne_n, p, rest)) = Chain-split s h xs (n ∷ ys) is in
    elim (Way-end s h e xs way) [
      | inl same ↦ λ z. ne (same ∙ sym p ∙ z)
      | inr (ne', there) ↦ λ z. ne' (sym p ∙ z)
    ]

-- `hlist_del` and `hlist_del_init` take a node off the list of a head that is not NULL and
-- leave the others in their order, and after `hlist_del_init` the node counts as not on a list.
pub hlist_del-IsHlist :
    (s : Store) (h n : ℕ) (xs ys : List ℕ)
    → h ≢ 0
    → IsHlist s h (xs ++ n ∷ ys)
    → IsHlist (hlist_del n s) h (xs ++ ys)
      × IsHlist (hlist_del_init n s) h (xs ++ ys)
      × (hlist_unhashed n (hlist_del_init n s) ≡ true)
unfolding hlist_del hlist_del_init init_hlist_node
hlist_del-IsHlist s h n xs ys ne is =
    let once = once_without h n xs ys is.once in
    let hashed : (s.pprev n == 0) ≡ false =
      (let k = pprev_not_null s h n xs ys ne is.chain in ground arith) in
    rw hashed (
      record {
        chain = __hlist_del-Chain s _ h n xs ys is (λ y z. ground arith) (λ y z. ground arith);
        once = once;
      },
      record {
        chain = __hlist_del-Chain s _ h n xs ys is (λ y z. ground arith) (λ y z. ground arith);
        once = once;
      },
      ground arith,
    )

-- For a new head that is neither the old one nor on its list, `hlist_move_list` gives the whole
-- list to the new head and leaves the old one empty.
pub hlist_move_list-IsHlist :
    (s : Store) (old new : ℕ) (xs : List ℕ)
    → IsHlist s old xs
    → occurs new (old ∷ xs) ≡ 0
    → IsHlist (hlist_move_list old new s) new xs × IsHlist (hlist_move_list old new s) old []
unfolding hlist_move_list occurs
hlist_move_list-IsHlist s old new xs is fresh =
    let first = s.next old in
    let s1 = put_next new first s in
    let at_new : s1.next new ≡ first = ground arith in
    let s2 = lead_back (s1.next new) new s1 in
    let s' = put_next old 0 s2 in
    let apart : new ≢ old = ground arith in
    let out : occurs new xs ≡ 0 = omega arith in
    let o_old = is.once old in
    let off_old : occurs old xs ≡ 0 = ground arith in
    let links : (y : ℕ) → s2.next y ≡ s1.next y = lead_back-next (s1.next new) new s1 in
    (
      record {
        chain =
            Chain-shift s s' old new xs (λ y. let o = is.once y in omega arith)
              (let k = links new in ground arith)
              (λ ne.
                subst (λ x. x ≢ 0 → s2.pprev x ≡ new) at_new (lead_back-top (s1.next new) new s1)
                  ne)
              (λ y here.
                let k = links y in
                let m = not_in y new xs here out in
                let m' = not_in y old xs here off_old in ground arith)
              (λ y here other. lead_back-other (s1.next new) new s1 y (λ z w. other (w ∙ at_new)))
              is.chain;
        once = λ y. let o = is.once y in ground arith;
      },
      record { chain = ground arith; once = λ y. ground arith },
    )

hlist_loop_lem :
    (s : Store) (loc : ℕ) (xs : List ℕ) (fuel : ℕ)
    → Chain s loc xs
    → length xs < fuel
    → hlist_loop fuel (s.next loc) s ≡ some xs
unfolding hlist_loop
hlist_loop_lem s loc xs zero is enough = absurd (omega arith)
hlist_loop_lem s loc [] (suc fuel) is enough =
    let z : (s.next loc == 0) ≡ true = ground arith in rw z refl
hlist_loop_lem s loc (x ∷ xs) (suc fuel) (e, ne, p, is) enough =
    let z : (x == 0) ≡ false = ground arith in
    rw (e, z, hlist_loop_lem s x xs fuel is (omega arith)) refl

-- With fuel for each node and one more, `hlist_for_each` ends and visits the nodes in their order.
pub hlist_for_each_lem :
    (s : Store) (h : ℕ) (xs : List ℕ) (fuel : ℕ)
    → IsHlist s h xs
    → length xs < fuel
    → hlist_for_each fuel h s ≡ some xs
unfolding hlist_for_each
hlist_for_each_lem s h xs fuel is enough = hlist_loop_lem s h xs fuel is.chain enough
