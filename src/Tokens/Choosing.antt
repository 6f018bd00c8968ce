-- ===== src/Tokens/Choosing.antt =====
-- cassandra/cassandra.py, RandomFaultToleranceTokenAllocationStrategy: the choice of a node for one
-- token.
use mathlib.Core.Path.{subst}
use tam_simulation.Prelude.{
  ℕ, zero, suc, ◌+◌, ◌%◌, ◌≤◌, ◌<◌, ◌≡◌, refl, sym, ap, inl, inr, true, false, Bool-cases, Option,
  none, some, List, [], ◌∷◌, ◌++◌, arith, length, contains, ◌==◌, ==_iff,
}
use tam_simulation.Result.{ok}
use tam_simulation.Tokens.{remain_pn_ids, element, choice}

-- What may be chosen: a node that exists and is not avoided.
remain-fit :
    (pn left : ℕ) (avoid : List ℕ) (q : ℕ)
    → contains q (remain_pn_ids pn left avoid) ≡ true
    → (q < pn + left) × (contains q avoid ≡ false)
remain-fit pn zero avoid q has = absurd (cc)
remain-fit pn (suc left) avoid q has = elim (Bool-cases (contains pn avoid)) [
  | inl avoided ↦
      let (low, free) = remain-fit (suc pn) left avoid q (rw avoided at has) in
      (omega (arith, low), free)
  | inr fit ↦ elim (Bool-cases (pn == q)) [
    | inl same ↦
        (ground (arith, same), subst (λ x. contains x avoid ≡ false) ((==_iff pn q).0 same) fit)
    | inr other ↦
        let (low, free) = remain-fit (suc pn) left avoid q (ground (arith, has, fit, other)) in
        (omega (arith, low), free)
  ]
]

contains-element : (xs : List ℕ) (x i : ℕ) → contains (element xs x i) (x ∷ xs) ≡ true
contains-element xs x zero = ground arith
contains-element [] x (suc i) = ground arith
contains-element (y ∷ xs) x (suc i) = ground (arith, contains-element xs y i)

-- With three nodes and two of them avoided at most, there is one to choose.
abbrev pub at_most_two : Option ℕ → Option ℕ → List ℕ
at_most_two a b = elim a [ none ↦ [] | some x ↦ x ∷ [] ] ++ elim b [ none ↦ [] | some x ↦ x ∷ [] ]

free-of_pair : (x y : ℕ) → (q : ℕ) × (q < 3) × (contains q (x ∷ y ∷ []) ≡ false)
free-of_pair zero zero = (1, omega arith, refl)
free-of_pair zero (suc zero) = (2, omega arith, refl)
free-of_pair zero (suc (suc y)) = (1, omega arith, ground arith)
free-of_pair (suc zero) zero = (2, omega arith, refl)
free-of_pair (suc (suc x)) zero = (1, omega arith, ground arith)
free-of_pair (suc x) (suc y) = (0, omega arith, ground arith)

free-of_two : (a b : Option ℕ) → (q : ℕ) × (q < 3) × (contains q (at_most_two a b) ≡ false)
free-of_two none none = (0, omega arith, refl)
free-of_two none (some y) = let (q, low, free) = free-of_pair y y in (q, low, ground (arith, free))
free-of_two (some x) none = let (q, low, free) = free-of_pair x x in (q, low, ground (arith, free))
free-of_two (some x) (some y) = free-of_pair x y

remain-has :
    (pn left : ℕ) (avoid : List ℕ) (q : ℕ)
    → pn ≤ q
    → q < pn + left
    → contains q avoid ≡ false
    → contains q (remain_pn_ids pn left avoid) ≡ true
remain-has pn zero avoid q le low free = absurd (omega (arith, le, low))
remain-has pn (suc left) avoid q le low free = elim (Bool-cases (pn == q)) [
  | inl same ↦
      let fit = subst (λ x. contains x avoid ≡ false) (sym ((==_iff pn q).0 same)) free in
      rw fit (ground (arith, same))
  | inr other ↦
      let rest =
        remain-has (suc pn) left avoid q (ground (arith, le, other)) (omega (arith, low)) free in
      elim (Bool-cases (contains pn avoid)) [
        | inl avoided ↦ rw avoided rest
        | inr fit ↦ rw fit (ground (arith, rest))
      ]
]

remain-some :
    (pn_sum : ℕ) (a b : Option ℕ)
    → 3 ≤ pn_sum
    → (x : ℕ) × (xs : List ℕ) × (remain_pn_ids 0 pn_sum (at_most_two a b) ≡ x ∷ xs)
remain-some pn_sum a b large =
    let (q, low, free) = free-of_two a b in
    first (remain_pn_ids 0 pn_sum (at_most_two a b)) refl q
      (remain-has 0 pn_sum (at_most_two a b) q (omega arith) (omega (arith, low, large)) free)
  where
    first :
        (ys : List ℕ)
        → remain_pn_ids 0 pn_sum (at_most_two a b) ≡ ys
        → (q : ℕ) → contains q ys ≡ true
        → (x : ℕ) × (xs : List ℕ) × (remain_pn_ids 0 pn_sum (at_most_two a b) ≡ x ∷ xs)
    first [] e q has = absurd (cc)
    first (y ∷ ys) e q has = (y, ys, e)

pub choice-fit :
    (pn_sum draw : ℕ) (a b : Option ℕ)
    → 3 ≤ pn_sum
    → (p : ℕ) × (choice draw (remain_pn_ids 0 pn_sum (at_most_two a b)) ≡ ok p)
      × (p < pn_sum)
      × (contains p (at_most_two a b) ≡ false)
choice-fit pn_sum draw a b large =
    let (x, xs, e) = remain-some pn_sum a b large in
    let p = element xs x (draw % suc (length xs)) in
    let (low, free) =
      remain-fit 0 pn_sum (at_most_two a b) p (
        subst (λ l. contains p l ≡ true) (sym e)
          (contains-element xs x (draw % suc (length xs)))) in
    (p, ap (choice draw) e, omega (arith, low), free)
