-- ===== src/ListHead/Chain.antt =====
-- Chains of list heads: the shape that list.h maintains, and how it survives stores elsewhere.
use kernel_porting.Prelude.{ℕ, ◌≡◌, ◌≢◌, ◌⊎◌, ◌∙◌, refl, sym, ap, inl, inr, List, [], ◌∷◌, ◌++◌}
use kernel_porting.ListHead.{Store}

abbrev pub In : ℕ → List ℕ → Type 0
In y [] = ⊥
In y (x ∷ xs) = (y ≡ x) ⊎ In y xs

-- No address stands in the list twice.
abbrev pub Distinct : List ℕ → Type 0
Distinct [] = Unit
Distinct (x ∷ xs) = ((y : ℕ) → In y xs → y ≢ x) × Distinct xs

-- From `a` the `next` fields lead through `xs` to `b`, and the `prev` fields lead back.
abbrev pub Links : Store → ℕ → List ℕ → ℕ → Type 0
Links s a [] b = (s.next a ≡ b) × (s.prev b ≡ a)
Links s a (x ∷ xs) b = (s.next a ≡ x) × (s.prev x ≡ a) × Links s x xs b

-- The list at `head` has the entries `xs`, in this order: a circle through `head`.
pub record IsList (s : Store) (head : ℕ) (xs : List ℕ) : Type 0 where
  pub links : Links s head xs head
  pub distinct : Distinct (head ∷ xs)

pub In-append : (y : ℕ) (xs ys : List ℕ) → In y (xs ++ ys) → In y xs ⊎ In y ys
In-append y [] ys h = inr h
In-append y (x ∷ xs) ys (inl e) = inl (inl e)
In-append y (x ∷ xs) ys (inr h) = elim (In-append y xs ys h) [
  | inl left ↦ inl (inr left)
  | inr right ↦ inr right
]

pub In-left : (y : ℕ) (xs ys : List ℕ) → In y xs → In y (xs ++ ys)
In-left y [] ys h = elim h [ ]
In-left y (x ∷ xs) ys (inl e) = inl e
In-left y (x ∷ xs) ys (inr h) = inr (In-left y xs ys h)

pub In-right : (y : ℕ) (xs ys : List ℕ) → In y ys → In y (xs ++ ys)
In-right y [] ys h = h
In-right y (x ∷ xs) ys h = inr (In-right y xs ys h)

-- Two lists without a common address.
abbrev pub Apart : List ℕ → List ℕ → Type 0
Apart xs ys = (x y : ℕ) → In x xs → In y ys → x ≢ y

pub Distinct-append :
    (xs ys : List ℕ) → Distinct xs → Distinct ys → Apart xs ys → Distinct (xs ++ ys)
Distinct-append [] ys dx dy ap = dy
Distinct-append (x ∷ xs) ys (fresh, dx) dy ap = (
  λ y here. elim (In-append y xs ys here) [
    | inl left ↦ fresh y left
    | inr right ↦ λ e. ap x y (inl refl) right (sym e)
  ],
  Distinct-append xs ys dx dy (λ u v hu hv. ap u v (inr hu) hv),
)

pub Distinct-split :
    (xs ys : List ℕ) → Distinct (xs ++ ys) → Distinct xs × Distinct ys × Apart xs ys
Distinct-split [] ys d = (tt, d, λ x y hx hy. elim hx [ ])
Distinct-split (x ∷ xs) ys (fresh, d) =
    let (dx, dy, apart) = Distinct-split xs ys d in
    (
      (λ y here. fresh y (In-left y xs ys here), dx),
      dy,
      λ u v hu hv. elim hu [
        | inl e ↦ λ same. fresh v (In-right v xs ys hv) (sym same ∙ e)
        | inr rest ↦ apart u v rest hv
      ],
    )

pub Links-split :
    (s : Store) (a : ℕ) (xs : List ℕ) (e : ℕ) (ys : List ℕ) (b : ℕ)
    → Links s a (xs ++ e ∷ ys) b
    → Links s a xs e × Links s e ys b
Links-split s a [] e ys b (n, p, rest) = ((n, p), rest)
Links-split s a (x ∷ xs) e ys b (n, p, rest) =
    let (left, right) = Links-split s x xs e ys b rest in ((n, p, left), right)

pub Links-join :
    (s : Store) (a : ℕ) (xs : List ℕ) (e : ℕ) (ys : List ℕ) (b : ℕ)
    → Links s a xs e
    → Links s e ys b
    → Links s a (xs ++ e ∷ ys) b
Links-join s a [] e ys b (n, p) right = (n, p, right)
Links-join s a (x ∷ xs) e ys b (n, p, left) right = (n, p, Links-join s x xs e ys b left right)

-- The entry before `b` is one of the chain.
pub last_In : (s : Store) (a : ℕ) (xs : List ℕ) (b : ℕ) → Links s a xs b → In (s.prev b) (a ∷ xs)
last_In s a [] b (n, p) = inl p
last_In s a (x ∷ xs) b (n, p, rest) = inr (last_In s x xs b rest)

pub first_In :
    (s : Store) (a : ℕ) (xs : List ℕ) (b : ℕ) → Links s a xs b → (s.next a ≡ b) ⊎ In (s.next a) xs
first_In s a [] b (n, p) = inl n
first_In s a (x ∷ xs) b (n, p, rest) = inr (inl n)

module _ (s s' : Store) where
  -- A chain survives where its `next` fields and its `prev` fields do.
  pub Links-keep :
      (a : ℕ) (xs : List ℕ) (b : ℕ)
      → ((y : ℕ) → In y (a ∷ xs) → s'.next y ≡ s.next y)
      → ((y : ℕ) → In y xs → s'.prev y ≡ s.prev y)
      → s'.prev b ≡ s.prev b
      → Links s a xs b
      → Links s' a xs b
  Links-keep a [] b nexts prevs last (n, p) = (nexts a (inl refl) ∙ n, last ∙ p)
  Links-keep a (x ∷ xs) b nexts prevs last (n, p, rest) = (
    nexts a (inl refl) ∙ n,
    prevs x (inl refl) ∙ p,
    Links-keep x xs b (λ y h. nexts y (inr h)) (λ y h. prevs y (inr h)) last rest,
  )

  -- A chain to `b` becomes a chain to `c` when its last entry is linked with `c` instead.
  pub Links-retarget :
      (a : ℕ) (xs : List ℕ) (b c : ℕ)
      → Distinct (a ∷ xs)
      → s'.next (s.prev b) ≡ c
      → s'.prev c ≡ s.prev b
      → ((y : ℕ) → In y (a ∷ xs) → y ≢ s.prev b → s'.next y ≡ s.next y)
      → ((y : ℕ) → In y xs → s'.prev y ≡ s.prev y)
      → Links s a xs b
      → Links s' a xs c
  Links-retarget a [] b c d on back nexts prevs (n, p) = (ap s'.next (sym p) ∙ on, back ∙ p)
  Links-retarget a (x ∷ xs) b c (fresh, d) on back nexts prevs (n, p, rest) = (
    nexts a (inl refl) (λ e. fresh (s.prev b) (last_In s x xs b rest) (sym e)) ∙ n,
    prevs x (inl refl) ∙ p,
    Links-retarget x xs b c d on back (λ y h ne. nexts y (inr h) ne) (λ y h. prevs y (inr h)) rest,
  )

  -- A chain from `a` becomes a chain from `c` when its first entry is linked with `c` instead.
  pub Links-resource :
      (a c : ℕ) (xs : List ℕ) (b : ℕ)
      → Distinct xs
      → ((y : ℕ) → In y xs → y ≢ b)
      → s'.next c ≡ s.next a
      → s'.prev (s.next a) ≡ c
      → ((y : ℕ) → In y xs → s'.next y ≡ s.next y)
      → ((y : ℕ) → In y xs → y ≢ s.next a → s'.prev y ≡ s.prev y)
      → (b ≢ s.next a → s'.prev b ≡ s.prev b)
      → Links s a xs b
      → Links s' c xs b
  Links-resource a c [] b d off on back nexts prevs last (n, p) =
      (on ∙ n, ap s'.prev (sym n) ∙ back)
  Links-resource a c (x ∷ xs) b (fresh, d) off on back nexts prevs last (n, p, rest) = (
    on ∙ n,
    ap s'.prev (sym n) ∙ back,
    Links-keep x xs b nexts (λ y h. prevs y (inr h) (λ e. fresh y h (e ∙ n)))
        (last (λ e. off x (inl refl) (sym (e ∙ n)))) rest,
  )
