-- ===== src/Rculist/Laws.antt =====
-- What readers see while the functions of rculist.h run.
use kernel_porting.Prelude.{ℕ, ◌≡◌, ◌⊎◌, ◌∙◌, sym, ap, inl, inr, List, [], ◌∷◌, ◌++◌}
use kernel_porting.ListHead.{Store}
use kernel_porting.ListHead.Chain.{IsList}
use kernel_porting.ListHead.Edit.{IsFresh}
use kernel_porting.Rculist.{
  Write, waiting, reading, System, Steps, list_add_rcu, list_add_tail_rcu, list_del_rcu,
  list_replace_rcu,
}
use kernel_porting.Rculist.Path.{tails}
use kernel_porting.Rculist.Runs.{reader_sees}
use kernel_porting.Rculist.Ends.{Ends, plan_Ends}
use kernel_porting.Rculist.Plan.{
  after_mark, whole, list_add_rcu-Publishes, list_add_tail_rcu-Publishes, before_entry,
  list_del_rcu-Publishes, list_replace_rcu-Publishes,
}

-- A writer with the stores `ws` to go, and a reader that has not begun.
abbrev pub started : Store → List Write → System
started s ws = record { store = s; todo = ws; reader = waiting }

-- While `list_add_rcu` adds an entry that is not in the list, in whatever order the stores of the writer
-- and the reads of one reader come, the reader comes back to the head only after it saw the old list or
-- the list with the new entry in front; and from every state on the way it can come back without a
-- further store of the writer.
pub list_add_rcu_lem :
    (s : Store) (head new : ℕ) (xs : List ℕ) (x : System)
    → IsList s head xs
    → IsFresh new (head ∷ xs)
    → Steps head (started s (list_add_rcu new head s)) x
    → ((seen : List ℕ) → x.reader ≡ reading head seen → (seen ≡ xs) ⊎ (seen ≡ new ∷ xs))
      × Ends head x
list_add_rcu_lem s head new xs x is fresh steps =
    let ws = list_add_rcu new head s in
    let plan = list_add_rcu-Publishes s head new xs is fresh in
    (
      λ seen at_end. elim (reader_sees head [] head xs (new ∷ xs) s ws plan x steps seen at_end) [
        | inl e ↦ inl (tails e)
        | inr e ↦ inr (tails e)
      ],
      plan_Ends head [] head xs (new ∷ xs) s ws plan x steps,
    )

-- The same for `list_add_tail_rcu`, with the new entry at the end.
pub list_add_tail_rcu_lem :
    (s : Store) (head new : ℕ) (xs : List ℕ) (x : System)
    → IsList s head xs
    → IsFresh new (head ∷ xs)
    → Steps head (started s (list_add_tail_rcu new head s)) x
    → ((seen : List ℕ) → x.reader ≡ reading head seen → (seen ≡ xs) ⊎ (seen ≡ xs ++ new ∷ []))
      × Ends head x
list_add_tail_rcu_lem s head new xs x is fresh steps =
    let ws = list_add_tail_rcu new head s in
    let (us, e, plan) = list_add_tail_rcu-Publishes s head new xs is fresh in
    let a = s.prev head in
    (
      λ seen at_end. elim (reader_sees head us a [] (new ∷ []) s ws plan x steps seen at_end) [
        | inl f ↦ inl (tails (f ∙ sym e))
        | inr f ↦
            inr (tails (f ∙ sym (after_mark us a (new ∷ [])) ∙ ap (λ l. l ++ new ∷ []) (sym e)))
      ],
      plan_Ends head us a [] (new ∷ []) s ws plan x steps,
    )

-- While `list_del_rcu` takes an entry off the list, in whatever order the stores and the reads come, the
-- reader comes back to the head only after it saw the old list or the list without the entry; and from
-- every state on the way, also where it stands at the entry, it can come back without a further store.
pub list_del_rcu_lem :
    (s : Store) (head entry : ℕ) (xs ys : List ℕ) (x : System)
    → IsList s head (xs ++ entry ∷ ys)
    → Steps head (started s (list_del_rcu entry s)) x
    → ((seen : List ℕ)
        → x.reader ≡ reading head seen
        → (seen ≡ xs ++ entry ∷ ys) ⊎ (seen ≡ xs ++ ys))
      × Ends head x
list_del_rcu_lem s head entry xs ys x is steps =
    let ws = list_del_rcu entry s in
    let plan = list_del_rcu-Publishes s head entry xs ys is in
    let (us, e) = before_entry s head entry xs ys is in
    let a = s.prev entry in
    (
      λ seen at_end. elim (reader_sees head us a (entry ∷ ys) ys s ws plan x steps seen at_end) [
        | inl f ↦ inl (tails (f ∙ sym (whole s head entry xs ys is)))
        | inr f ↦ inr (tails (f ∙ sym (after_mark us a ys) ∙ ap (λ l. l ++ ys) (sym e)))
      ],
      plan_Ends head us a (entry ∷ ys) ys s ws plan x steps,
    )

-- While `list_replace_rcu` puts an entry that is not in the list in the place of another, in whatever
-- order the stores and the reads come, the reader comes back to the head only after it saw the list with
-- the old entry or with the new in its place, and from every state on the way it can come back without a
-- further store.
pub list_replace_rcu_lem :
    (s : Store) (head entry new : ℕ) (xs ys : List ℕ) (x : System)
    → IsList s head (xs ++ entry ∷ ys)
    → IsFresh new (head ∷ (xs ++ entry ∷ ys))
    → Steps head (started s (list_replace_rcu entry new s)) x
    → ((seen : List ℕ)
        → x.reader ≡ reading head seen
        → (seen ≡ xs ++ entry ∷ ys) ⊎ (seen ≡ xs ++ new ∷ ys))
      × Ends head x
list_replace_rcu_lem s head entry new xs ys x is fresh steps =
    let ws = list_replace_rcu entry new s in
    let plan = list_replace_rcu-Publishes s head entry xs ys is new fresh in
    let (us, e) = before_entry s head entry xs ys is in
    let a = s.prev entry in
    (
      λ seen at_end.
          elim (reader_sees head us a (entry ∷ ys) (new ∷ ys) s ws plan x steps seen at_end) [
            | inl f ↦ inl (tails (f ∙ sym (whole s head entry xs ys is)))
            | inr f ↦
                inr (tails (f ∙ sym (after_mark us a (new ∷ ys)) ∙ ap (λ l. l ++ new ∷ ys) (sym e)))
          ],
      plan_Ends head us a (entry ∷ ys) (new ∷ ys) s ws plan x steps,
    )
