-- ===== src/Hlist/Chain.antt =====
-- The shape of a hash list in the store, and how it survives stores elsewhere.
use kernel_porting.Prelude.{
  ℕ, ◌+◌, ◌≤◌, ◌≡◌, ◌≢◌, ◌⊎◌, ◌∙◌, refl, sym, ap, inl, inr, arith, ◌==◌, if◌then◌else◌, List, [],
  ◌∷◌, ◌++◌,
}
use mathlib.Core.Path.{subst}
use kernel_porting.Hlist.{Store}

-- How often an address stands in a list.
unfoldable pub occurs : ℕ → List ℕ → ℕ
occurs y [] = 0
occurs y (x ∷ xs) = (if y == x then 1 else 0) + occurs y xs

pub occurs-++ : (y : ℕ) (xs ys : List ℕ) → occurs y (xs ++ ys) ≡ occurs y xs + occurs y ys
unfolding occurs
occurs-++ y [] ys = omega arith
occurs-++ y (x ∷ xs) ys = omega (arith, occurs-++ y xs ys)

-- From the pointer at `loc` the nodes `xs` follow, each with a pointer back, and then NULL.
abbrev pub Chain : Store → ℕ → List ℕ → Type 0
Chain s loc [] = s.next loc ≡ 0
Chain s loc (x ∷ xs) = (s.next loc ≡ x) × (x ≢ 0) × (s.pprev x ≡ loc) × Chain s x xs

-- From the pointer at `loc` the nodes `xs` follow, and the last pointer among them is at `end`.
abbrev pub Way : Store → ℕ → List ℕ → ℕ → Type 0
Way s loc [] end = loc ≡ end
Way s loc (x ∷ xs) end = (s.next loc ≡ x) × (x ≢ 0) × (s.pprev x ≡ loc) × Way s x xs end

-- The hash list with its head at `h` has the nodes `xs`, in this order.
pub record IsHlist (s : Store) (h : ℕ) (xs : List ℕ) : Type 0 where
  pub chain : Chain s h xs
  pub once : (y : ℕ) → occurs y (h ∷ xs) ≤ 1

pub Chain-split :
    (s : Store) (loc : ℕ) (xs ys : List ℕ)
    → Chain s loc (xs ++ ys)
    → (end : ℕ) × Way s loc xs end × Chain s end ys
Chain-split s loc [] ys is = (loc, refl, is)
Chain-split s loc (x ∷ xs) ys (e, ne, back, is) =
    let (end, way, rest) = Chain-split s x xs ys is in (end, (e, ne, back, way), rest)

pub Way-end :
    (s : Store) (loc end : ℕ) (xs : List ℕ)
    → Way s loc xs end
    → (loc ≡ end) ⊎ ((end ≢ 0) × (1 ≤ occurs end xs))
unfolding occurs
Way-end s loc end [] e = inl e
Way-end s loc end (x ∷ xs) (e, ne, back, way) = inr (elim (Way-end s x end xs way) [
  | inl same ↦ (λ z. ne (same ∙ z), ground arith)
  | inr (ne', there) ↦ (ne', ground arith)
])

module _ (s s' : Store) where
  pub Chain-keep :
      (loc : ℕ) (xs : List ℕ)
      → ((y : ℕ) → 1 ≤ occurs y (loc ∷ xs) → s'.next y ≡ s.next y)
      → ((y : ℕ) → 1 ≤ occurs y xs → s'.pprev y ≡ s.pprev y)
      → Chain s loc xs
      → Chain s' loc xs
  unfolding occurs
  Chain-keep loc [] next back is = next loc (ground arith) ∙ is
  Chain-keep loc (x ∷ xs) next back (e, ne, p, is) = (
    next loc (ground arith) ∙ e,
    ne,
    back x (ground arith) ∙ p,
    Chain-keep x xs (λ y h. next y (ground arith)) (λ y h. back y (ground arith)) is,
  )

  -- The nodes behind one pointer come to stand behind another.
  pub Chain-shift :
      (loc loc' : ℕ) (xs : List ℕ)
      → ((y : ℕ) → occurs y xs ≤ 1)
      → s'.next loc' ≡ s.next loc
      → (s.next loc ≢ 0 → s'.pprev (s.next loc) ≡ loc')
      → ((y : ℕ) → 1 ≤ occurs y xs → s'.next y ≡ s.next y)
      → ((y : ℕ) → 1 ≤ occurs y xs → y ≢ s.next loc → s'.pprev y ≡ s.pprev y)
      → Chain s loc xs
      → Chain s' loc' xs
  unfolding occurs
  Chain-shift loc loc' [] once to back next other is = to ∙ is
  Chain-shift loc loc' (x ∷ xs) once to back next other (e, ne, p, is) =
      let here : s'.pprev x ≡ loc' =
        (let b = back (λ z. ne (sym e ∙ z)) in ap s'.pprev (sym e) ∙ b) in
      let o = once x in
      (
        to ∙ e,
        ne,
        here,
        Chain-keep x xs (λ y h. next y (ground arith))
            (λ y h. other y (ground arith) (ground arith)) is,
      )

  -- A way up to `end` does not read the pointer at `end`.
  pub Way-keep :
      (loc end : ℕ) (xs : List ℕ)
      → ((y : ℕ) → occurs y (loc ∷ xs) ≤ 1)
      → ((y : ℕ) → 1 ≤ occurs y (loc ∷ xs) → y ≢ end → s'.next y ≡ s.next y)
      → ((y : ℕ) → 1 ≤ occurs y xs → s'.pprev y ≡ s.pprev y)
      → Way s loc xs end
      → Way s' loc xs end
  unfolding occurs
  Way-keep loc end [] once next back e = e
  Way-keep loc end (x ∷ xs) once next back (e, ne, p, way) =
      let o = once end in
      let apart : loc ≢ end = elim (Way-end s x end xs way) [
        | inl same ↦ ground arith
        | inr (ne', there) ↦ ground arith
      ] in
      (
        next loc (ground arith) apart ∙ e,
        ne,
        back x (ground arith) ∙ p,
        Way-keep x end xs (λ y. let k = once y in omega arith) (λ y h k. next y (ground arith) k)
            (λ y h. back y (ground arith)) way,
      )

pub Way-Chain :
    (s : Store) (loc end : ℕ) (xs ys : List ℕ)
    → Way s loc xs end
    → Chain s end ys
    → Chain s loc (xs ++ ys)
Way-Chain s loc end [] ys e is = subst (λ x. Chain s x ys) (sym e) is
Way-Chain s loc end (x ∷ xs) ys (e, ne, p, way) is = (e, ne, p, Way-Chain s x end xs ys way is)
