-- ===== src/Hlist/Insert.antt =====
-- `hlist_add_behind` and `hlist_add_before`.
use mathlib.Core.Path.{subst}
use kernel_porting.Prelude.{
  ℕ, ◌+◌, ◌≤◌, ◌≡◌, ◌≢◌, ◌∙◌, sym, inl, inr, arith, ◌==◌, if◌then◌else◌, List, ◌∷◌, ◌++◌,
}
use kernel_porting.Hlist.{Store, put_next, put_pprev, lead_back, hlist_add_before, hlist_add_behind}
use kernel_porting.Hlist.Chain.{
  occurs, occurs-++, IsHlist, Chain-split, Way-end, Chain-keep, Chain-shift, Way-keep, Way-Chain,
}
use kernel_porting.Hlist.Edit.{lead_back-next, lead_back-top, lead_back-other, next_in, not_in}

once_with :
    (h n p : ℕ) (xs ys : List ℕ)
    → ((y : ℕ) → occurs y (h ∷ (xs ++ p ∷ ys)) ≤ 1)
    → occurs n (h ∷ (xs ++ p ∷ ys)) ≡ 0
    → (y : ℕ) → (occurs y (h ∷ (xs ++ p ∷ n ∷ ys)) ≤ 1) × (occurs y (h ∷ (xs ++ n ∷ p ∷ ys)) ≤ 1)
unfolding occurs
once_with h n p xs ys once fresh y =
    let a = occurs-++ y xs (p ∷ ys) in
    let a' = occurs-++ n xs (p ∷ ys) in
    let b = occurs-++ y xs (p ∷ n ∷ ys) in
    let c = occurs-++ y xs (n ∷ p ∷ ys) in let o = once y in (ground arith, ground arith)

-- For a node that is not NULL and neither the head nor on the list, `hlist_add_behind` puts it
-- right behind a node of the list, and `hlist_add_before` right before it.
pub hlist_add_behind-IsHlist :
    (s : Store) (h n p : ℕ) (xs ys : List ℕ)
    → IsHlist s h (xs ++ p ∷ ys)
    → n ≢ 0
    → occurs n (h ∷ (xs ++ p ∷ ys)) ≡ 0
    → IsHlist (hlist_add_behind n p s) h (xs ++ p ∷ n ∷ ys)
      × IsHlist (hlist_add_before n p s) h (xs ++ n ∷ p ∷ ys)
unfolding hlist_add_behind hlist_add_before occurs
hlist_add_behind-IsHlist s h n p xs ys is ne fresh =
    let (e, way, (at_e, ne_p, back, rest)) = Chain-split s h xs (p ∷ ys) is.chain in
    let all : (y : ℕ)
        → (if y == h then 1 else 0) + occurs y xs + (if y == p then 1 else 0) + occurs y ys ≤ 1 =
      λ y. let k = occurs-++ y xs (p ∷ ys) in let o = is.once y in omega arith in
    let none : (if n == h then 1 else 0) + occurs n xs + (if n == p then 1 else 0) + occurs n ys
        ≡ 0 =
      (let k = occurs-++ n xs (p ∷ ys) in omega arith) in
    let once = once_with h n p xs ys is.once fresh in
    let at_p = all p in
    let at_end = all e in
    let end_in : 1 ≤ occurs e (h ∷ xs) = elim (Way-end s h e xs way) [
      | inl same ↦ ground arith
      | inr (ne', there) ↦ omega arith
    ] in
    let n_front : occurs n (h ∷ xs) ≡ 0 = omega arith in
    let p_front : occurs p (h ∷ xs) ≡ 0 = ground arith in
    let e_n = not_in e n (h ∷ xs) end_in n_front in
    let e_p = not_in e p (h ∷ xs) end_in p_front in
    let n_ys : occurs n ys ≡ 0 = omega arith in
    let p_ys : occurs p ys ≡ 0 = ground arith in
    let e_ys : occurs e ys ≡ 0 = ground arith in
    let n_p : n ≢ p = ground arith in
    let follow = s.next p in
    let s0 = put_pprev n p (put_next p n (put_next n follow s)) in
    let tmp = s0.next n in
    let at_tmp : tmp ≡ follow = ground arith in
    let s1 = lead_back tmp n s0 in
    let links : (y : ℕ) → s1.next y ≡ s0.next y = lead_back-next tmp n s0 in
    let words : (y : ℕ) → (follow ≢ 0 → y ≢ follow) → s1.pprev y ≡ s0.pprev y =
      λ y w. lead_back-other tmp n s0 y (subst (λ x. x ≢ 0 → y ≢ x) (sym at_tmp) w) in
    let in_ys = next_in s p ys rest in
    let s2 = hlist_add_before n p s in
    let at_prev : (if n == p then n else s.pprev p) ≡ e = ground arith in
    let front_n : (y : ℕ) → 1 ≤ occurs y (h ∷ xs) → y ≢ n =
      λ y here. not_in y n (h ∷ xs) here n_front in
    let front_p : (y : ℕ) → 1 ≤ occurs y (h ∷ xs) → y ≢ p =
      λ y here. not_in y p (h ∷ xs) here p_front in
    (
      record {
        chain =
            Way-Chain s1 h e xs (p ∷ n ∷ ys)
              (Way-keep s s1 h e xs (λ y. let o = all y in omega arith)
                (λ y here z.
                  let k = links y in
                  let a = front_n y here in let b = front_p y here in ground arith)
                (λ y here.
                  let o = all y in
                  let k = words y (λ z.
                    not_in y follow xs here
                      (let m = in_ys z in let o' = all follow in omega arith)) in
                  let a = front_n y (omega arith) in ground arith)
                way)
              (
                (let k = links e in ground arith),
                ne_p,
                (let k = words p (λ z w. not_in follow p ys (in_ys z) p_ys (sym w)) in
                    ground arith),
                (
                  (let k = links p in ground arith),
                  ne,
                  (let k = words n (λ z w. not_in follow n ys (in_ys z) n_ys (sym w)) in
                      ground arith),
                  Chain-shift s s1 p n ys (λ y. let o = all y in omega arith) (links n ∙ at_tmp)
                      (λ z. subst (λ x. x ≢ 0 → s1.pprev x ≡ n) at_tmp (lead_back-top tmp n s0) z)
                      (λ y here.
                        let k = links y in
                        let a = not_in y n ys here n_ys in
                        let b = not_in y p ys here p_ys in ground arith)
                      (λ y here other.
                        let k = words y (λ z. other) in
                        let a = not_in y n ys here n_ys in ground arith)
                      rest,
                ),
              );
        once = λ y. (once y).0;
      },
      record {
        chain =
            Way-Chain s2 h e xs (n ∷ p ∷ ys)
              (Way-keep s s2 h e xs (λ y. let o = all y in omega arith)
                (λ y here z. let a = front_n y here in ground arith)
                (λ y here.
                  let a = front_n y (omega arith) in
                  let b = front_p y (omega arith) in ground arith)
                way)
              (
                ground arith,
                ne,
                ground arith,
                (
                  ground arith,
                  ne_p,
                  ground arith,
                  Chain-keep s s2 p ys
                      (λ y here.
                        let a = not_in y n (p ∷ ys) here (omega arith) in
                        let b = not_in y e (p ∷ ys) here (omega arith) in ground arith)
                      (λ y here.
                        let a = not_in y n ys here n_ys in
                        let b = not_in y p ys here p_ys in ground arith)
                      rest,
                ),
              );
        once = λ y. (once y).1;
      },
    )
