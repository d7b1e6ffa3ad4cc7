-- ===== src/Rculist/Publish.antt =====
-- A change that one store publishes: whoever walks along the list meanwhile sees the old list or the new.
use mathlib.Core.Path.{subst}
use Prim.{tt}
use kernel_porting.Prelude.{
  ℕ, ◌≡◌, ◌≢◌, ◌⊎◌, ◌∙◌, refl, sym, ap, inl, inr, List, [], ◌∷◌, ◌++◌, ++_assoc,
}
use kernel_porting.ListHead.{Store, put_next}
use kernel_porting.ListHead.Chain.{In, In-right, Distinct, Distinct-split}
use kernel_porting.ListHead.Edit.{IsFresh}
use kernel_porting.Rculist.{Write, next_of, prev_of, write, write_all, Reader, waiting, reading}
use kernel_porting.Rculist.Path.{PathTo, PathTo-keep, PathTo-off, PathTo-store, cut_cases}

-- A store that no reader of the list `xs` sees.
abbrev pub IsHidden : List ℕ → Write → Type 0
IsHidden xs (next_of to value) = IsFresh to xs
IsHidden xs (prev_of to value) = Unit

abbrev pub AreHidden : List ℕ → List Write → Type 0
AreHidden xs [] = Unit
AreHidden xs (w ∷ ws) = IsHidden xs w × AreHidden xs ws

abbrev pub AreBack : List Write → Type 0
AreBack [] = Unit
AreBack (next_of to value ∷ ws) = ⊥
AreBack (prev_of to value ∷ ws) = AreBack ws

-- The stores `ws` turn the list `us ++ a ∷ vs` into `us ++ a ∷ vs'`, each with the head in front, where the
-- one store that a reader can see is `a->next = b`.
pub record Publishes (s : Store) (head : ℕ) (ws : List Write) (us : List ℕ) (a : ℕ)
    (vs vs' : List ℕ) : Type 0 where
  pub b : ℕ
  pub first : List Write
  pub last : List Write
  pub stores : ws ≡ first ++ next_of a b ∷ last
  pub hidden : AreHidden (us ++ a ∷ vs) first
  pub back : AreBack last
  pub path : PathTo head s head (us ++ a ∷ vs)
  pub path' : PathTo head (write_all first s) b vs'
  pub distinct : Distinct (us ++ a ∷ vs)
  pub distinct' : Distinct (us ++ a ∷ vs')

-- What the reader left behind, the head first, and where it stands.
abbrev pub behind : (head : ℕ) → Reader → List ℕ
behind head waiting = []
behind head (reading pos seen) = head ∷ seen

abbrev pub stands : (head : ℕ) → Reader → ℕ
stands head waiting = head
stands head (reading pos seen) = pos

-- The reader has seen a part of the list `whole`, and what lies before it is the rest.
abbrev pub Follows : (head : ℕ) → Store → Reader → List ℕ → Type 0
Follows head s r whole =
    (rs : List ℕ) × (behind head r ++ rs ≡ whole) × PathTo head s (stands head r) rs

pub cut_empty : (x : ℕ) (xs : List ℕ) → [] ≢ x ∷ xs
cut_empty x xs e = subst (λ l. elim l [ [] ↦ Unit | h ∷ t ↦ ⊥ ]) e tt

module _ (head : ℕ) where
  pub Follows-back :
      (s : Store) (to value : ℕ) (r : Reader) (whole : List ℕ)
      → Follows head s r whole
      → Follows head (write (prev_of to value) s) r whole
  Follows-back s to value r whole (rs, e, path) =
      (rs, e, PathTo-keep head s (write (prev_of to value) s) (stands head r) rs (λ y h. refl) path)

  pub Follows-hidden :
      (s : Store) (w : Write) (r : Reader) (whole : List ℕ)
      → IsHidden whole w
      → Follows head s r whole
      → Follows head (write w s) r whole
  Follows-hidden s (prev_of to value) r whole off follows = Follows-back s to value r whole follows
  Follows-hidden s (next_of to value) r whole off (rs, e, path) = (
    rs,
    e,
    PathTo-off head s (stands head r) to value rs
        (λ y h. off y (subst (λ l. In y l) e (In-right y (behind head r) rs h))) path,
  )

  -- The store that publishes the change.
  pub Follows-publish :
      (s : Store) (a b : ℕ) (r : Reader) (us vs vs' : List ℕ)
      → Distinct (us ++ a ∷ vs)
      → Distinct (us ++ a ∷ vs')
      → PathTo head s b vs'
      → Follows head s r (us ++ a ∷ vs)
      → Follows head (put_next a b s) r (us ++ a ∷ vs)
        ⊎ Follows head (put_next a b s) r (us ++ a ∷ vs')
  Follows-publish s a b r us vs vs' distinct distinct' new (rs, e, path) =
      let (du, (off_vs, dv), apart) = Distinct-split us (a ∷ vs) distinct in
      let (du', (off_vs', dv'), apart') = Distinct-split us (a ∷ vs') distinct' in
      elim (cut_cases (behind head r) rs us vs a e) [
        | inl (us2, f, g) ↦ inr (
          us2 ++ a ∷ vs',
          sym (++_assoc (behind head r) us2 (a ∷ vs')) ∙ ap (λ l. l ++ a ∷ vs') (sym f),
          PathTo-store head s (stands head r) a b us2 vs vs'
              (λ y h.
                apart y a (subst (λ l. In y l) (sym f) (In-right y (behind head r) us2 h))
                  (inl refl))
              off_vs' (subst (λ l. PathTo head s (stands head r) l) g path) new,
        )
        | inr (mid, f, g) ↦ inl (
          rs,
          e,
          PathTo-off head s (stands head r) a b rs
              (λ y h. off_vs y (subst (λ l. In y l) (sym g) (In-right y mid rs h))) path,
        )
      ]

  -- A step of the reader.
  pub Follows-begin :
      (s : Store) (whole : List ℕ) (x : ℕ) (xs : List ℕ)
      → whole ≡ x ∷ xs
      → Follows head s waiting whole
      → Follows head s (reading (s.next head) []) whole
  Follows-begin s whole x xs full ([], e, path) = absurd (cut_empty x xs (e ∙ full))
  Follows-begin s whole x xs full (y ∷ rs, e, (at, path)) =
      (rs, ap (λ z. z ∷ rs) at ∙ e, subst (λ z. PathTo head s (s.next z) rs) (sym at) path)

  pub Follows-next :
      (s : Store) (pos : ℕ) (seen whole : List ℕ)
      → pos ≢ head
      → Follows head s (reading pos seen) whole
      → Follows head s (reading (s.next pos) (seen ++ pos ∷ [])) whole
  Follows-next s pos seen whole ne ([], e, path) = absurd (ne path)
  Follows-next s pos seen whole ne (y ∷ rs, e, (at, path)) = (
    rs,
    ap (λ l. head ∷ l) (++_assoc seen (pos ∷ []) rs) ∙ ap (λ z. head ∷ (seen ++ z ∷ rs)) at ∙ e,
    subst (λ z. PathTo head s (s.next z) rs) (sym at) path,
  )
