-- ===== src/ListHead/Replace.antt =====
-- Replacement of one entry.
use kernel_porting.Prelude.{ℕ, ◌≢◌, ◌∙◌, refl, sym, inl, inr, arith, List, ◌∷◌, ◌++◌}
use kernel_porting.ListHead.{Store, list_replace}
use kernel_porting.ListHead.Chain.{
  In, IsList, Distinct-append, Distinct-split, Links-split, Links-join, last_In, first_In, In-left,
  In-right, Links-retarget, Links-resource,
}
use kernel_porting.ListHead.Edit.{IsFresh, around}

-- `list_replace` puts an entry that is not on the list in the place of an old one.
pub list_replace-IsList :
    (s : Store) (head : ℕ) (xs : List ℕ) (old new : ℕ) (ys : List ℕ)
    → IsList s head (xs ++ old ∷ ys)
    → IsFresh new (head ∷ xs ++ old ∷ ys)
    → IsList (list_replace old new s) head (xs ++ new ∷ ys)
unfolding list_replace
list_replace-IsList s head xs old new ys is fresh =
    let s' = list_replace old new s in
    let (left, right) = Links-split s head xs old ys head is.links in
    let (d, (off, d_ys), apart) = Distinct-split (head ∷ xs) (old ∷ ys) is.distinct in
    let (ne_prev, ne_next) = around s head xs old ys is in
    let last = last_In s head xs old left in
    let is_left : (y : ℕ) → In y (head ∷ xs) → y ≢ new =
      λ y h. fresh y (In-left y (head ∷ xs) (old ∷ ys) h) in
    let is_right : (y : ℕ) → In y (old ∷ ys) → y ≢ new =
      λ y h. fresh y (In-right y (head ∷ xs) (old ∷ ys) h) in
    let fresh_last : s.prev old ≢ new = is_left (s.prev old) last in
    let fresh_old : old ≢ new = is_right old (inl refl) in
    let first = first_In s old ys head right in
    let fresh_first : s.next old ≢ new = elim first [
      | inl e ↦ λ same. is_left head (inl refl) (sym e ∙ same)
      | inr h ↦ is_right (s.next old) (inr h)
    ] in
    record {
      links =
          Links-join s' head xs new ys head
            (Links-retarget s s' head xs old new d (ground arith) (ground arith)
              (λ y h ne. let a = is_left y h in ground arith)
              (λ y h.
                let a = is_left y (inr h) in
                let b : y ≢ s.next old = elim first [
                  | inl e ↦ λ same. d.0 y h (same ∙ e)
                  | inr there ↦ apart y (s.next old) (inr h) (inr there)
                ] in
                ground arith)
              left)
            (Links-resource s s' old new ys head d_ys
              (λ y h same. apart head y (inl refl) (inr h) (sym same)) (ground arith) (ground arith)
              (λ y h.
                let a = is_right y (inr h) in
                let b = apart (s.prev old) y last (inr h) in ground arith)
              (λ y h ne. let a = is_right y (inr h) in ground arith)
              (λ ne. let a = is_left head (inl refl) in ground arith) right);
      distinct =
          Distinct-append (head ∷ xs) (new ∷ ys) d (λ y h. is_right y (inr h), d_ys)
            (λ u v hu hv. elim hv [
              | inl e ↦ λ same. is_left u hu (same ∙ e)
              | inr there ↦ apart u v hu (inr there)
            ]);
    }
