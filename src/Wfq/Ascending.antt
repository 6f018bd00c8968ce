-- ===== src/Wfq/Ascending.antt =====
-- Queues in which the virtual finish times do not fall, and do not pass a bound.
use tam_simulation.Prelude.{ℤ, ◌≤ℤ◌, List, [], ◌∷◌, ◌++◌, arith}
use tam_simulation.Req.{Req}

abbrev Between : ℤ → List Req → ℤ → Type 0
Between lo [] hi = lo ≤ℤ hi
Between lo (req ∷ reqs) hi = (lo ≤ℤ req.vir_finish) × Between req.vir_finish reqs hi

abbrev pub Ascending : List Req → ℤ → Type 0
Ascending [] hi = Unit
Ascending (req ∷ reqs) hi = Between req.vir_finish reqs hi

Between-snoc :
    (lo hi : ℤ) (reqs : List Req) (req : Req)
    → hi ≤ℤ req.vir_finish
    → Between lo reqs hi
    → Between lo (reqs ++ req ∷ []) req.vir_finish
Between-snoc lo hi [] req h b = (omega arith, omega arith)
Between-snoc lo hi (x ∷ reqs) req h (le, b) = (le, Between-snoc x.vir_finish hi reqs req h b)

pub Ascending-snoc :
    (hi : ℤ) (reqs : List Req) (req : Req)
    → hi ≤ℤ req.vir_finish
    → Ascending reqs hi
    → Ascending (reqs ++ req ∷ []) req.vir_finish
Ascending-snoc hi [] req h a = omega arith
Ascending-snoc hi (x ∷ reqs) req h a = Between-snoc x.vir_finish hi reqs req h a

pub Ascending-tail :
    (req : Req) (reqs : List Req) (hi : ℤ) → Ascending (req ∷ reqs) hi → Ascending reqs hi
Ascending-tail req [] hi a = tt
Ascending-tail req (x ∷ reqs) hi a = a.1

-- No request of the queue finishes before the first one.
abbrev pub NoneBefore : ℤ → List Req → Type 0
NoneBefore v [] = Unit
NoneBefore v (req ∷ reqs) = (v ≤ℤ req.vir_finish) × NoneBefore v reqs

NoneBefore-bound :
    (v lo hi : ℤ) (reqs : List Req) → v ≤ℤ lo → Between lo reqs hi → NoneBefore v reqs
NoneBefore-bound v lo hi [] h b = tt
NoneBefore-bound v lo hi (x ∷ reqs) h (le, b) =
    (omega arith, NoneBefore-bound v x.vir_finish hi reqs (omega arith) b)

pub NoneBefore-head :
    (v hi : ℤ) (req : Req) (reqs : List Req)
    → v ≤ℤ req.vir_finish
    → Ascending (req ∷ reqs) hi
    → NoneBefore v (req ∷ reqs)
NoneBefore-head v hi req reqs h a = (h, NoneBefore-bound v req.vir_finish hi reqs h a)
