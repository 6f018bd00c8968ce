-- ===== src/Tests/Fair.antt =====
-- WFQScheduler on small inputs, in units of a tenth.
use tam_simulation.Prelude.{ℕ, ◌≡◌, ℤ, pos, negsuc, ◌/◌, Option, some, true, List, [], ◌∷◌, arith}
use tam_simulation.Result.{ok}
use tam_simulation.Req.{plain}
use tam_simulation.Scheduler.{Served, Call, Reply, put, get, run}
use tam_simulation.Wfq
use tam_simulation.Wfq.{Wfq, Candidate, init, set_weight}
use tam_simulation.Wfq.Select.{IsChoice}
use tam_simulation.Wfq.Invariant.{IsValid, set_weight-IsValid}
use tam_simulation.Wfq.Putting.{KeepsSign}
use tam_simulation.Wfq.Serving.{Delivers, get-Delivers}
use tam_simulation.Wfq.Fairness.{FirstOfAll, get-FirstOfAll, callbacks, run-IsValid}
use tam_simulation.Dict.{lookup}

-- A quotient rounded down to the unit.
abbrev pub rounded : ℤ → ℕ → ℤ
rounded (pos a) w = pos (a / w)
rounded (negsuc a) w = negsuc a

pub rounded-KeepsSign : KeepsSign rounded
rounded-KeepsSign a w h = omega arith

abbrev three_puts : List Call
three_puts = put 0 (plain 1 7) ∷ put 0 (plain 2 7) ∷ put 5 (plain 3 8) ∷ get 6 ∷ []

run-IsValid_example :
    (s' : Wfq) × (replies : List Reply) × (run (callbacks 10 rounded) three_puts (init 10 0)
      ≡ ok (s', replies))
    × IsValid s'
run-IsValid_example = run-IsValid 10 rounded three_puts 0 (omega arith) rounded-KeepsSign

-- The scheduler after these calls: one request was served, and two are queued.
abbrev pub busy : Wfq
busy = (run-IsValid 10 rounded three_puts 0 (omega arith) rounded-KeepsSign).0

pub busy-IsValid : IsValid busy
busy-IsValid = (run-IsValid 10 rounded three_puts 0 (omega arith) rounded-KeepsSign).3

get-FirstOfAll_example :
    (r : Served Wfq) × (Wfq.do_get 7 busy ≡ ok r) × FirstOfAll busy r.req × IsValid r.state
get-FirstOfAll_example = get-FirstOfAll 7 busy busy-IsValid

get-Delivers_example :
    (b : Option Candidate) × IsChoice (λ c. true) busy.queues b
    × (r : Served Wfq) × (Wfq.do_get 7 busy ≡ ok r)
    × Delivers busy b r
get-Delivers_example = get-Delivers 7 busy busy-IsValid

set_weight-IsValid_example :
    (s' : Wfq) × (set_weight 7 30 busy ≡ ok s') × IsValid s' × (lookup 7 s'.weights ≡ some 30)
set_weight-IsValid_example = set_weight-IsValid 7 30 busy busy-IsValid (omega arith)
