-- ===== src/Rculist/Ends.antt =====
-- A reader needs no step of the writer to end.
use mathlib.Core.Path.{subst}
use kernel_porting.Prelude.{ℕ, ◌≡◌, sym, inl, inr, arith, ◌==◌, Bool-cases, List, [], ◌∷◌, ◌++◌}
use kernel_porting.ListHead.{Store}
use kernel_porting.Rculist.{
  Write, Reader, waiting, reading, System, Step, begin_read, next_read, Steps, done, one_more,
}
use kernel_porting.Rculist.Path.{PathTo}
use kernel_porting.Rculist.Publish.{Publishes, Follows}
use kernel_porting.Rculist.Runs.{Follows-one, begin-Follows, reached}

-- The reader alone gets to the head.
abbrev pub Ends : (head : ℕ) → System → Type 0
Ends head x =
    (seen : List ℕ) × Steps head x
      (record { store = x.store; todo = x.todo; reader = reading head seen })

module _ (head : ℕ) where
  Steps-first : (x y z : System) → Step head x y → Steps head y z → Steps head x z
  Steps-first x _ _ step (done y) = one_more x x y (done x) step
  Steps-first x _ _ step (one_more y m z steps last) =
      one_more x m z (Steps-first x y m step steps) last

  at_head-Ends :
      (s : Store) (ws : List Write) (pos : ℕ) (seen : List ℕ)
      → pos ≡ head
      → Ends head (record { store = s; todo = ws; reader = reading pos seen })
  at_head-Ends s ws pos seen at_end =
      let x : System = record { store = s; todo = ws; reader = reading pos seen } in
      (
        seen,
        subst (λ p. Steps head x (record { store = s; todo = ws; reader = reading p seen })) at_end
            (done x),
      )

  walk_Ends :
      (s : Store) (ws : List Write) (pos : ℕ) (seen rs : List ℕ)
      → PathTo head s pos rs
      → Ends head (record { store = s; todo = ws; reader = reading pos seen })
  walk_Ends s ws pos seen [] at_end = at_head-Ends s ws pos seen at_end
  walk_Ends s ws pos seen (y ∷ rs) (at, path) = elim (Bool-cases (pos == head)) [
    | inl same ↦ at_head-Ends s ws pos seen (ground arith)
    | inr apart ↦
        let x : System = record { store = s; todo = ws; reader = reading pos seen } in
        let x' : System = record {
          store = s;
          todo = ws;
          reader = reading (s.next pos) (seen ++ pos ∷ []);
        } in
        let (all, steps) =
          walk_Ends s ws (s.next pos) (seen ++ pos ∷ []) rs
            (subst (λ z. PathTo head s (s.next z) rs) (sym at) path) in
        (
          all,
          Steps-first x x' (record { store = s; todo = ws; reader = reading head all })
              (next_read s ws pos seen (ground arith)) steps,
        )
  ]

  reader_Ends :
      (s : Store) (ws : List Write) (r : Reader) (us : List ℕ) (a : ℕ) (rest : List ℕ)
      → Follows head s r (us ++ a ∷ rest)
      → Ends head (record { store = s; todo = ws; reader = r })
  reader_Ends s ws (reading pos seen) us a rest (rs, e, path) = walk_Ends s ws pos seen rs path
  reader_Ends s ws waiting us a rest follows =
      let (rs, e, path) = begin-Follows head us a rest rest s rest follows in
      let x : System = record { store = s; todo = ws; reader = waiting } in
      let x' : System = record { store = s; todo = ws; reader = reading (s.next head) [] } in
      let (all, steps) = walk_Ends s ws (s.next head) [] rs path in
      (
        all,
        Steps-first x x' (record { store = s; todo = ws; reader = reading head all })
            (begin_read s ws) steps,
      )

  pub plan_Ends :
      (us : List ℕ) (a : ℕ) (vs vs' : List ℕ) (s : Store) (ws : List Write)
      → Publishes s head ws us a vs vs'
      → (x : System) → Steps head (record { store = s; todo = ws; reader = waiting }) x
      → Ends head x
  plan_Ends us a vs vs' s ws plan x steps =
      let (rest, follows) =
        Follows-one head us a vs vs' x (reached head us a vs vs' s ws plan x steps) in
      reader_Ends x.store x.todo x.reader us a rest follows
