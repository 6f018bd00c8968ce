-- ===== src/Wfq/Sums.antt =====
-- The sum of the weights of the active clients, as lists and weights change.
use tam_simulation.Prelude.{
  ℕ, ◌+◌, ◌≡◌, refl, true, List, [], ◌∷◌, ◌++◌, arith, contains, erase, count,
}
use tam_simulation.Dict.{Dict, lookup_or, insert, lookup-insert}

abbrev pub weight_of : Dict ℕ → ℕ → ℕ
weight_of weights c = lookup_or 0 c weights

abbrev pub sum_weights : Dict ℕ → List ℕ → ℕ
sum_weights weights [] = 0
sum_weights weights (c ∷ cs) = weight_of weights c + sum_weights weights cs

pub sum_weights-snoc :
    (weights : Dict ℕ) (cs : List ℕ) (c : ℕ)
    → sum_weights weights (cs ++ c ∷ []) ≡ sum_weights weights cs + weight_of weights c
sum_weights-snoc weights [] c = omega arith
sum_weights-snoc weights (x ∷ cs) c = omega (arith, sum_weights-snoc weights cs c)

pub sum_weights-erase :
    (weights : Dict ℕ) (cs : List ℕ) (c : ℕ)
    → contains c cs ≡ true
    → sum_weights weights (erase c cs) + weight_of weights c ≡ sum_weights weights cs
sum_weights-erase weights [] c h = cc
sum_weights-erase weights (x ∷ cs) c h = ground (arith, sum_weights-erase weights cs c)

-- A client that does not occur does not count.
pub sum_weights-insert_absent :
    (weights : Dict ℕ) (cs : List ℕ) (c w : ℕ)
    → count c cs ≡ 0
    → sum_weights (insert c w weights) cs ≡ sum_weights weights cs
sum_weights-insert_absent weights [] c w h = refl
sum_weights-insert_absent weights (x ∷ cs) c w h =
    ground (arith, sum_weights-insert_absent weights cs c w, lookup-insert c x w weights)

pub sum_weights-insert_once :
    (weights : Dict ℕ) (cs : List ℕ) (c w : ℕ)
    → count c cs ≡ 1
    → sum_weights (insert c w weights) cs + weight_of weights c ≡ sum_weights weights cs + w
sum_weights-insert_once weights [] c w h = absurd (omega arith)
sum_weights-insert_once weights (x ∷ cs) c w h = ground (
  arith,
  sum_weights-insert_once weights cs c w,
  sum_weights-insert_absent weights cs c w,
  lookup-insert c x w weights,
)
