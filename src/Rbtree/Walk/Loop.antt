-- ===== src/Rbtree/Walk/Loop.antt =====
-- The loops over a tree: a first node, a step to the next, and NULL at the end.
use kernel_porting.Prelude.{
  ℕ, zero, suc, ◌<◌, ◌≡◌, ◌≢◌, refl, arith, false, ◌==◌, if◌then◌else◌, List, [], ◌∷◌, length,
  Option, none, some,
}
use kernel_porting.Rbtree.Walk.Ends.{head}

abbrev pub keep : ℕ → Option (List ℕ) → Option (List ℕ)
keep pos none = none
keep pos (some xs) = some (pos ∷ xs)

-- `for ( ; pos && ({ n = next(pos); 1; }); pos = n)` with a body that leaves the tree alone: the nodes that
-- the loop visits.
unfoldable pub entries : (next : ℕ → Option ℕ) → (fuel pos : ℕ) → Option (List ℕ)
entries next zero pos = none
entries next (suc fuel) pos =
    if pos == 0
    then some []
    else elim (next pos) [ none ↦ none | some n ↦ keep pos (entries next fuel n) ]

-- From its first node on, the loop visits the sequence `xs`.
abbrev pub Visits : (next : ℕ → Option ℕ) → List ℕ → Type 0
Visits next xs = (fuel : ℕ) → length xs < fuel → entries next fuel (head xs) ≡ some xs

pub Visits-nil : (next : ℕ → Option ℕ) → Visits next []
unfolding entries
Visits-nil next zero enough = absurd (omega arith)
Visits-nil next (suc fuel) enough = refl

pub Visits-cons :
    (next : ℕ → Option ℕ) (a : ℕ) (xs : List ℕ)
    → a ≢ 0
    → next a ≡ some (head xs)
    → Visits next xs
    → Visits next (a ∷ xs)
unfolding entries
Visits-cons next a xs ne step visits zero enough = absurd (omega arith)
Visits-cons next a xs ne step visits (suc fuel) enough =
    let e : (a == 0) ≡ false = ground arith in rw (e, step, visits fuel (omega arith)) refl
