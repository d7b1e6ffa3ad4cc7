-- ===== src/Rculist/Runs.antt =====
-- Runs of a writer that publishes a change and a reader.
use mathlib.Core.Path.{subst}
use kernel_porting.Prelude.{ℕ, ◌≡◌, ◌⊎◌, ◌∙◌, refl, sym, ap, inl, inr, List, [], ◌∷◌, ◌++◌, ++_nil}
use kernel_porting.ListHead.{Store}
use kernel_porting.ListHead.Chain.{Distinct, Distinct-split}
use kernel_porting.Rculist.{
  Write, next_of, prev_of, write, write_all, Reader, waiting, reading, System, Step, store_one,
  begin_read, next_read, Steps, done, one_more,
}
use kernel_porting.Rculist.Path.{PathTo, heads, tails}
use kernel_porting.Rculist.Publish.{
  AreHidden, AreBack, Publishes, Follows, Follows-back, Follows-hidden, Follows-publish,
  Follows-begin, Follows-next,
}

module _ (head : ℕ) (us : List ℕ) (a : ℕ) (vs vs' : List ℕ) where
  abbrev pub old : List ℕ
  old = us ++ a ∷ vs

  abbrev pub new : List ℕ
  new = us ++ a ∷ vs'

  -- The change is not published yet.
  pub record Before (s : Store) (ws : List Write) (r : Reader) : Type 0 where
    pub b : ℕ
    pub first : List Write
    pub last : List Write
    pub stores : ws ≡ first ++ next_of a b ∷ last
    pub hidden : AreHidden old first
    pub back : AreBack last
    pub path' : PathTo head (write_all first s) b vs'
    pub follows : Follows head s r old

  -- It is, and the reader goes on with what it began with or with the new list.
  pub record After (s : Store) (ws : List Write) (r : Reader) : Type 0 where
    pub back : AreBack ws
    pub follows : Follows head s r old ⊎ Follows head s r new

  abbrev pub Holds : System → Type 0
  Holds x = Before x.store x.todo x.reader ⊎ After x.store x.todo x.reader

  -- Either way, some list is followed.
  pub Follows-one :
      (x : System) → Holds x → (rest : List ℕ) × Follows head x.store x.reader (us ++ a ∷ rest)
  Follows-one x (inl before) = (vs, before.follows)
  Follows-one x (inr after) = elim after.follows [ inl f ↦ (vs, f) | inr f ↦ (vs', f) ]

  front : (rest : List ℕ) → (x : ℕ) × (xs : List ℕ) × (us ++ a ∷ rest ≡ x ∷ xs)
  front rest = elim us as (λ k. (x : ℕ) × (xs : List ℕ) × (k ++ a ∷ rest ≡ x ∷ xs)) [
    | [] ↦ (a, rest, refl)
    | u ∷ us1 ↦ (u, us1 ++ a ∷ rest, refl)
  ]

  -- A store of the writer.
  store_Before :
      (s : Store) (w : Write) (ws : List Write) (r : Reader) (b : ℕ) (first last : List Write)
      → Distinct old
      → Distinct new
      → w ∷ ws ≡ first ++ next_of a b ∷ last
      → AreHidden old first
      → AreBack last
      → PathTo head (write_all first s) b vs'
      → Follows head s r old
      → Before (write w s) ws r ⊎ After (write w s) ws r
  store_Before s w ws r b [] last distinct distinct' e hidden back path' follows = inr (record {
    back = subst AreBack (sym (tails e)) back;
    follows =
        subst (λ z. Follows head (write z s) r old ⊎ Follows head (write z s) r new) (sym (heads e))
          (Follows-publish head s a b r us vs vs' distinct distinct' path' follows);
  })
  store_Before s w ws r b (v ∷ first) last distinct distinct' e (hidden, rest) back path' follows =
      inl (
        subst (λ z. Before (write z s) ws r) (sym (heads e))
          (record {
            b = b;
            first = first;
            last = last;
            stores = tails e;
            hidden = rest;
            back = back;
            path' = path';
            follows = Follows-hidden head s v r old hidden follows;
          }))

  store_After :
      (s : Store) (w : Write) (ws : List Write) (r : Reader)
      → After s (w ∷ ws) r
      → After (write w s) ws r
  store_After s (next_of to value) ws r after = elim after.back [ ]
  store_After s (prev_of to value) ws r after = record {
    back = after.back;
    follows = elim after.follows [
      | inl f ↦ inl (Follows-back head s to value r old f)
      | inr f ↦ inr (Follows-back head s to value r new f)
    ];
  }

  -- A step of the reader keeps whichever list it follows.
  read_Holds :
      (s : Store) (ws : List Write) (r r' : Reader)
      → ((rest : List ℕ) → Follows head s r (us ++ a ∷ rest) → Follows head s r' (us ++ a ∷ rest))
      → Holds (record { store = s; todo = ws; reader = r })
      → Holds (record { store = s; todo = ws; reader = r' })
  read_Holds s ws r r' move (inl before) = inl (record {
    b = before.b;
    first = before.first;
    last = before.last;
    stores = before.stores;
    hidden = before.hidden;
    back = before.back;
    path' = before.path';
    follows = move vs before.follows;
  })
  read_Holds s ws r r' move (inr after) = inr (record {
    back = after.back;
    follows = elim after.follows [ inl f ↦ inl (move vs f) | inr f ↦ inr (move vs' f) ];
  })

  pub begin-Follows :
      (s : Store) (rest : List ℕ)
      → Follows head s waiting (us ++ a ∷ rest)
      → Follows head s (reading (s.next head) []) (us ++ a ∷ rest)
  begin-Follows s rest f =
      let (x, xs, full) = front rest in Follows-begin head s (us ++ a ∷ rest) x xs full f

  Step-Holds : (x y : System) → Distinct old → Distinct new → Step head x y → Holds x → Holds y
  Step-Holds _ _ distinct distinct' (store_one s w ws r) (inl before) =
      store_Before s w ws r before.b before.first before.last distinct distinct' before.stores
        before.hidden before.back before.path' before.follows
  Step-Holds _ _ distinct distinct' (store_one s w ws r) (inr after) =
      inr (store_After s w ws r after)
  Step-Holds _ _ distinct distinct' (begin_read s ws) holds =
      read_Holds s ws waiting (reading (s.next head) []) (λ rest f. begin-Follows s rest f) holds
  Step-Holds _ _ distinct distinct' (next_read s ws pos seen ne) holds =
      read_Holds s ws (reading pos seen) (reading (s.next pos) (seen ++ pos ∷ []))
        (λ rest f. Follows-next head s pos seen (us ++ a ∷ rest) ne f) holds

  Steps-Holds : (x y : System) → Distinct old → Distinct new → Steps head x y → Holds x → Holds y
  Steps-Holds _ _ distinct distinct' (done x) holds = holds
  Steps-Holds _ _ distinct distinct' (one_more x y z steps step) holds =
      Step-Holds y z distinct distinct' step (Steps-Holds x y distinct distinct' steps holds)

  -- At the head again, the reader has left the whole list behind.
  whole_seen :
      (s : Store) (seen : List ℕ) (whole : List ℕ)
      → Distinct whole
      → Follows head s (reading head seen) whole
      → head ∷ seen ≡ whole
  whole_seen s seen whole distinct ([], e, path) = ap (λ l. head ∷ l) (sym (++_nil seen)) ∙ e
  whole_seen s seen whole distinct (y ∷ rs, e, (at, path)) =
      let (_, _, apart) = Distinct-split (head ∷ seen) (y ∷ rs) (subst Distinct (sym e) distinct) in
      absurd (apart head y (inl refl) (inl refl) at)

  module _ (s : Store) (ws : List Write) (plan : Publishes s head ws us a vs vs') (x : System)
      (steps : Steps head (record { store = s; todo = ws; reader = waiting }) x) where
    pub reached : Holds x
    reached =
        Steps-Holds (record { store = s; todo = ws; reader = waiting }) x plan.distinct
          plan.distinct' steps
          (inl (record {
            b = plan.b;
            first = plan.first;
            last = plan.last;
            stores = plan.stores;
            hidden = plan.hidden;
            back = plan.back;
            path' = plan.path';
            follows = (old, refl, plan.path);
          }))

    -- A reader that ends has seen one of the two lists, in whole.
    pub reader_sees :
        (seen : List ℕ)
        → x.reader ≡ reading head seen
        → (head ∷ seen ≡ us ++ a ∷ vs) ⊎ (head ∷ seen ≡ us ++ a ∷ vs')
    reader_sees seen at_end = elim reached [
      | inl before ↦ inl (
          whole_seen x.store seen old plan.distinct
            (subst (λ r. Follows head x.store r old) at_end before.follows))
      | inr after ↦ elim after.follows [
        | inl f ↦ inl (
            whole_seen x.store seen old plan.distinct
              (subst (λ r. Follows head x.store r old) at_end f))
        | inr f ↦ inr (
            whole_seen x.store seen new plan.distinct'
              (subst (λ r. Follows head x.store r new) at_end f))
      ]
    ]
