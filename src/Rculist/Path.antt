-- ===== src/Rculist/Path.antt =====
-- The way that a reader follows, and what one store changes about it.
use mathlib.Core.Path.{subst}
use kernel_porting.Prelude.{ℕ, ◌≡◌, ◌⊎◌, refl, sym, ap, ap₂, inl, inr, arith, List, [], ◌∷◌, ◌++◌}
use kernel_porting.ListHead.{Store, put_next}
use kernel_porting.ListHead.Chain.{In, Links}
use kernel_porting.ListHead.Edit.{IsFresh}

-- The `next` fields lead from `p` through `xs` to `q`.
abbrev pub PathTo : ℕ → Store → ℕ → List ℕ → Type 0
PathTo q s p [] = p ≡ q
PathTo q s p (x ∷ xs) = (p ≡ x) × PathTo q s (s.next x) xs

pub heads : {A : Type 0} {x y : A} {xs ys : List A} → x ∷ xs ≡ y ∷ ys → x ≡ y
heads {x = x} e = ap (λ l. elim l [ [] ↦ x | h ∷ t ↦ h ]) e

pub tails : {A : Type 0} {x y : A} {xs ys : List A} → x ∷ xs ≡ y ∷ ys → xs ≡ ys
tails e = ap (λ l. elim l [ [] ↦ [] | h ∷ t ↦ t ]) e

module _ (q : ℕ) where
  pub PathTo-keep :
      (s s' : Store) (p : ℕ) (xs : List ℕ)
      → ((y : ℕ) → In y xs → s'.next y ≡ s.next y)
      → PathTo q s p xs
      → PathTo q s' p xs
  PathTo-keep s s' p [] same e = e
  PathTo-keep s s' p (x ∷ xs) same (e, rest) = (
    e,
    PathTo-keep s s' (s'.next x) xs (λ y h. same y (inr h))
        (subst (λ z. PathTo q s z xs) (sym (same x (inl refl))) rest),
  )

  pub PathTo-off :
      (s : Store) (p a b : ℕ) (xs : List ℕ)
      → IsFresh a xs
      → PathTo q s p xs
      → PathTo q (put_next a b s) p xs
  PathTo-off s p a b xs off =
      PathTo-keep s (put_next a b s) p xs (λ y h. let ne = off y h in ground arith)

  -- A store to an entry of the list replaces the rest of the list.
  pub PathTo-store :
      (s : Store) (p a b : ℕ) (us vs vs' : List ℕ)
      → IsFresh a us
      → IsFresh a vs'
      → PathTo q s p (us ++ a ∷ vs)
      → PathTo q s b vs'
      → PathTo q (put_next a b s) p (us ++ a ∷ vs')
  PathTo-store s p a b [] vs vs' off off' (e, rest) new = (
    e,
    subst (λ z. PathTo q (put_next a b s) z vs') (ground arith) (PathTo-off s b a b vs' off' new),
  )
  PathTo-store s p a b (u ∷ us) vs vs' off off' (e, rest) new =
      let ne = off u (inl refl) in
      let same : s.next u ≡ (put_next a b s).next u = ground arith in
      (
        e,
        subst (λ z. PathTo q (put_next a b s) z (us ++ a ∷ vs')) same
            (PathTo-store s (s.next u) a b us vs vs' (λ y h. off y (inr h)) off' rest new),
      )

pub Links-PathTo :
    (s : Store) (a : ℕ) (xs : List ℕ) (b : ℕ) → Links s a xs b → PathTo b s (s.next a) xs
Links-PathTo s a [] b (n, p) = n
Links-PathTo s a (x ∷ xs) b (n, p, rest) = (n, Links-PathTo s x xs b rest)

-- A list cut in two, against a list with a marked element: the mark is in the second part or in the first.
pub cut_cases :
    (bs rs us vs : List ℕ) (a : ℕ)
    → bs ++ rs ≡ us ++ a ∷ vs
    → ((us2 : List ℕ) × (us ≡ bs ++ us2) × (rs ≡ us2 ++ a ∷ vs))
      ⊎ ((mid : List ℕ) × (bs ≡ us ++ a ∷ mid) × (vs ≡ mid ++ rs))
cut_cases [] rs us vs a e = inl (us, refl, e)
cut_cases (x ∷ bs) rs [] vs a e = inr (bs, ap (λ z. z ∷ bs) (heads e), sym (tails e))
cut_cases (x ∷ bs) rs (u ∷ us) vs a e = elim (cut_cases bs rs us vs a (tails e)) [
  | inl (us2, f, g) ↦ inl (us2, ap₂ (λ y l. y ∷ l) (sym (heads e)) f, g)
  | inr (mid, f, g) ↦ inr (mid, ap₂ (λ y l. y ∷ l) (heads e) f, g)
]
