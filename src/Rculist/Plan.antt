-- ===== src/Rculist/Plan.antt =====
-- The functions of rculist.h publish their change with one store.
use mathlib.Core.Path.{subst}
use Prim.{tt}
use kernel_porting.Prelude.{
  ℕ, ◌≡◌, ◌⊎◌, ◌∙◌, refl, sym, ap, inl, inr, arith, List, [], ◌∷◌, ◌++◌, ++_assoc,
}
use kernel_porting.ListHead.{Store, list_poison2}
use kernel_porting.ListHead.Chain.{In, In-right, Distinct, Links, IsList, Links-split}
use kernel_porting.ListHead.Edit.{IsFresh}
use kernel_porting.Rculist.{
  next_of, prev_of, write, write_all, __list_add_rcu, list_add_rcu, list_add_tail_rcu, list_del_rcu,
  list_replace_rcu,
}
use kernel_porting.Rculist.Path.{PathTo, PathTo-keep, PathTo-off, Links-PathTo}
use kernel_porting.Rculist.Publish.{Publishes}

In-skip : (y n : ℕ) (us vs : List ℕ) → In y (us ++ n ∷ vs) → (y ≡ n) ⊎ In y (us ++ vs)
In-skip y n [] vs here = here
In-skip y n (u ∷ us) vs (inl e) = inr (inl e)
In-skip y n (u ∷ us) vs (inr h) = elim (In-skip y n us vs h) [ inl e ↦ inl e | inr k ↦ inr (inr k) ]

In-more : (y n : ℕ) (us vs : List ℕ) → In y (us ++ vs) → In y (us ++ n ∷ vs)
In-more y n [] vs h = inr h
In-more y n (u ∷ us) vs (inl e) = inl e
In-more y n (u ∷ us) vs (inr h) = inr (In-more y n us vs h)

Distinct-insert :
    (n : ℕ) (us vs : List ℕ) → IsFresh n (us ++ vs) → Distinct (us ++ vs) → Distinct (us ++ n ∷ vs)
Distinct-insert n [] vs off d = (off, d)
Distinct-insert n (u ∷ us) vs off (fresh, d) = (
  λ y h. elim (In-skip y n us vs h) [
    | inl e ↦ λ same. off u (inl refl) (sym same ∙ e)
    | inr k ↦ fresh y k
  ],
  Distinct-insert n us vs (λ y h. off y (inr h)) d,
)

Distinct-drop : (n : ℕ) (us vs : List ℕ) → Distinct (us ++ n ∷ vs) → Distinct (us ++ vs)
Distinct-drop n [] vs (fresh, d) = d
Distinct-drop n (u ∷ us) vs (fresh, d) =
    ((λ y h. fresh y (In-more y n us vs h)), Distinct-drop n us vs d)

-- The same behind a marked entry.
pub after_mark : (us : List ℕ) (a : ℕ) (vs : List ℕ) → (us ++ a ∷ []) ++ vs ≡ us ++ a ∷ vs
after_mark us a vs = ++_assoc us (a ∷ []) vs

Distinct-insert_after :
    (n : ℕ) (us : List ℕ) (a : ℕ) (vs : List ℕ)
    → IsFresh n (us ++ a ∷ vs)
    → Distinct (us ++ a ∷ vs)
    → Distinct (us ++ a ∷ n ∷ vs)
Distinct-insert_after n us a vs off d = subst Distinct (after_mark us a (n ∷ vs)) (
    Distinct-insert n (us ++ a ∷ []) vs (subst (IsFresh n) (sym (after_mark us a vs)) off)
      (subst Distinct (sym (after_mark us a vs)) d))

Distinct-drop_after :
    (n : ℕ) (us : List ℕ) (a : ℕ) (vs : List ℕ)
    → Distinct (us ++ a ∷ n ∷ vs)
    → Distinct (us ++ a ∷ vs)
Distinct-drop_after n us a vs d =
    subst Distinct (after_mark us a vs)
      (Distinct-drop n (us ++ a ∷ []) vs (subst Distinct (sym (after_mark us a (n ∷ vs))) d))

-- The entry before the end of a chain comes last.
last_entry :
    (s : Store) (a : ℕ) (xs : List ℕ) (b : ℕ)
    → Links s a xs b
    → (us : List ℕ) × (a ∷ xs ≡ us ++ s.prev b ∷ [])
last_entry s a [] b (n, p) = ([], ap (λ z. z ∷ []) (sym p))
last_entry s a (x ∷ xs) b (n, p, rest) =
    let (us, e) = last_entry s x xs b rest in (a ∷ us, ap (λ l. a ∷ l) e)

IsList-PathTo :
    (s : Store) (head : ℕ) (xs : List ℕ) → IsList s head xs → PathTo head s head (head ∷ xs)
IsList-PathTo s head xs is = (refl, Links-PathTo s head xs head is.links)

-- The new entry, before it can be seen.
fresh_path :
    (head : ℕ) (s : Store) (new after before : ℕ) (vs : List ℕ)
    → IsFresh new vs
    → PathTo head s after vs
    → PathTo head (write_all (next_of new after ∷ prev_of new before ∷ []) s) new (new ∷ vs)
fresh_path head s new after before vs off path =
    let s1 = write (next_of new after) s in
    let s2 = write (prev_of new before) s1 in
    let same : after ≡ s2.next new = ground arith in
    (
      refl,
      subst (λ z. PathTo head s2 z vs) same
          (PathTo-keep head s1 s2 after vs (λ y h. refl)
            (PathTo-off head s after new after vs off path)),
    )

module _ (s : Store) (head new : ℕ) where
  pub list_add_rcu-Publishes :
      (xs : List ℕ)
      → IsList s head xs
      → IsFresh new (head ∷ xs)
      → Publishes s head (list_add_rcu new head s) [] head xs (new ∷ xs)
  unfolding list_add_rcu __list_add_rcu
  list_add_rcu-Publishes xs is fresh = record {
    b = new;
    first = next_of new (s.next head) ∷ prev_of new head ∷ [];
    last = prev_of (s.next head) new ∷ [];
    stores = refl;
    hidden = (fresh, (tt, tt));
    back = tt;
    path = IsList-PathTo s head xs is;
    path' =
        fresh_path head s new (s.next head) head xs (λ y h. fresh y (inr h))
          (Links-PathTo s head xs head is.links);
    distinct = is.distinct;
    distinct' = Distinct-insert_after new [] head xs fresh is.distinct;
  }

  pub list_add_tail_rcu-Publishes :
      (xs : List ℕ)
      → IsList s head xs
      → IsFresh new (head ∷ xs)
      → (us : List ℕ) × (head ∷ xs ≡ us ++ s.prev head ∷ [])
        × Publishes s head (list_add_tail_rcu new head s) us (s.prev head) [] (new ∷ [])
  unfolding list_add_tail_rcu __list_add_rcu
  list_add_tail_rcu-Publishes xs is fresh =
      let (us, e) = last_entry s head xs head is.links in
      let a = s.prev head in
      let distinct = subst Distinct e is.distinct in
      (
        us,
        e,
        record {
          b = new;
          first = next_of new head ∷ prev_of new a ∷ [];
          last = prev_of head new ∷ [];
          stores = refl;
          hidden = (subst (IsFresh new) e fresh, (tt, tt));
          back = tt;
          path = subst (PathTo head s head) e (IsList-PathTo s head xs is);
          path' = fresh_path head s new head a [] (λ y h. elim h [ ]) refl;
          distinct = distinct;
          distinct' = Distinct-insert_after new us a [] (subst (IsFresh new) e fresh) distinct;
        },
      )

module _ (s : Store) (head entry : ℕ) (xs ys : List ℕ) (is : IsList s head (xs ++ entry ∷ ys)) where
  -- Where an entry stands, by the entry before it.
  pub before_entry : (us : List ℕ) × (head ∷ xs ≡ us ++ s.prev entry ∷ [])
  before_entry = last_entry s head xs entry (Links-split s head xs entry ys head is.links).0

  pub whole : head ∷ (xs ++ entry ∷ ys) ≡ before_entry.0 ++ s.prev entry ∷ entry ∷ ys
  whole =
      ap (λ l. l ++ entry ∷ ys) before_entry.1
      ∙ after_mark before_entry.0 (s.prev entry) (entry ∷ ys)

  behind_entry : PathTo head s (s.next entry) ys
  behind_entry = Links-PathTo s entry ys head (Links-split s head xs entry ys head is.links).1

  pub list_del_rcu-Publishes :
      Publishes s head (list_del_rcu entry s) before_entry.0 (s.prev entry) (entry ∷ ys) ys
  unfolding list_del_rcu
  list_del_rcu-Publishes = record {
    b = s.next entry;
    first = prev_of (s.next entry) (s.prev entry) ∷ [];
    last = prev_of entry list_poison2 ∷ [];
    stores = refl;
    hidden = (tt, tt);
    back = tt;
    path = subst (PathTo head s head) whole (IsList-PathTo s head (xs ++ entry ∷ ys) is);
    path' =
        PathTo-keep head s (write (prev_of (s.next entry) (s.prev entry)) s) (s.next entry) ys
          (λ y h. refl) behind_entry;
    distinct = subst Distinct whole is.distinct;
    distinct' =
        Distinct-drop_after entry before_entry.0 (s.prev entry) ys
          (subst Distinct whole is.distinct);
  }

  pub list_replace_rcu-Publishes :
      (new : ℕ)
      → IsFresh new (head ∷ (xs ++ entry ∷ ys))
      → Publishes s head
          (list_replace_rcu entry new s)
          before_entry.0
          (s.prev entry)
          (entry ∷ ys)
          (new ∷ ys)
  unfolding list_replace_rcu
  list_replace_rcu-Publishes new fresh =
      let a = s.prev entry in
      let us = before_entry.0 in
      let off = subst (IsFresh new) whole fresh in
      let short = Distinct-drop_after entry us a ys (subst Distinct whole is.distinct) in
      let off_short : IsFresh new (us ++ a ∷ ys) = λ y h. off y (
        subst (In y) (after_mark us a (entry ∷ ys))
          (In-more y entry (us ++ a ∷ []) ys (subst (In y) (sym (after_mark us a ys)) h))) in
      record {
        b = new;
        first = next_of new (s.next entry) ∷ prev_of new a ∷ [];
        last = prev_of (s.next entry) new ∷ prev_of entry list_poison2 ∷ [];
        stores = refl;
        hidden = (off, (tt, tt));
        back = tt;
        path = subst (PathTo head s head) whole (IsList-PathTo s head (xs ++ entry ∷ ys) is);
        path' =
            fresh_path head s new (s.next entry) a ys
              (λ y h. off_short y (In-right y us (a ∷ ys) (inr h))) behind_entry;
        distinct = subst Distinct whole is.distinct;
        distinct' = Distinct-insert_after new us a ys off_short short;
      }
