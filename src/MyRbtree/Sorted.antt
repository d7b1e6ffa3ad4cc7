-- ===== src/MyRbtree/Sorted.antt =====
-- Sorted sequences.
use Prim.{tt}
use kernel_porting.Prelude.{ℕ, List, [], ◌∷◌, ◌++◌}

-- All of a list satisfy a predicate.
abbrev pub Each : (ℕ → Type 0) → List ℕ → Type 0
Each P [] = Unit
Each P (x ∷ xs) = P x × Each P xs

-- Each node stands in the relation `R` to all that come after it.
abbrev pub IsSorted : (ℕ → ℕ → Type 0) → List ℕ → Type 0
IsSorted R [] = Unit
IsSorted R (x ∷ xs) = Each (R x) xs × IsSorted R xs

pub Each-++ : (P : ℕ → Type 0) (xs ys : List ℕ) → Each P xs → Each P ys → Each P (xs ++ ys)
Each-++ P [] ys h k = k
Each-++ P (x ∷ xs) ys (h, hs) k = (h, Each-++ P xs ys hs k)

pub Each-split : (P : ℕ → Type 0) (xs ys : List ℕ) → Each P (xs ++ ys) → Each P xs × Each P ys
Each-split P [] ys h = (tt, h)
Each-split P (x ∷ xs) ys (h, hs) = let (a, b) = Each-split P xs ys hs in ((h, a), b)

pub Each-map : (P Q : ℕ → Type 0) (xs : List ℕ) → ((x : ℕ) → P x → Q x) → Each P xs → Each Q xs
Each-map P Q [] f h = tt
Each-map P Q (x ∷ xs) f (h, hs) = (f x h, Each-map P Q xs f hs)

module _ (R : ℕ → ℕ → Type 0) where
  -- What a sorted sequence says of one node in it.
  pub record Cut (xs : List ℕ) (y : ℕ) (ys : List ℕ) : Type 0 where
    pub low : IsSorted R xs
    pub over : Each (λ x. R x y) xs
    pub under : Each (R y) ys
    pub high : IsSorted R ys

  pub IsSorted-Cut : (xs : List ℕ) (y : ℕ) (ys : List ℕ) → IsSorted R (xs ++ y ∷ ys) → Cut xs y ys
  IsSorted-Cut [] y ys (h, hs) = record { low = tt; over = tt; under = h; high = hs }
  IsSorted-Cut (x ∷ xs) y ys (h, hs) =
      let (a, b) = Each-split (R x) xs (y ∷ ys) h in
      let more = IsSorted-Cut xs y ys hs in
      record { low = (a, more.low); over = (b.0, more.over); under = more.under; high = more.high }

  pub IsSorted-insert :
      (xs : List ℕ) (y : ℕ) (ys : List ℕ)
      → IsSorted R (xs ++ ys)
      → Each (λ x. R x y) xs
      → Each (R y) ys
      → IsSorted R (xs ++ y ∷ ys)
  IsSorted-insert [] y ys h over under = (under, h)
  IsSorted-insert (x ∷ xs) y ys (h, hs) (o, over) under =
      let (a, b) = Each-split (R x) xs ys h in
      (Each-++ (R x) xs (y ∷ ys) a (o, b), IsSorted-insert xs y ys hs over under)
