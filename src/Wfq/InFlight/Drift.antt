-- ===== src/Wfq/InFlight/Drift.antt =====
-- LimitInFlightWFQScheduler takes the weight of a client with an empty queue out of the total, and
-- leaves the client active, so its next put does not add the weight again.
use tam_simulation.Prelude.{
  ℕ, ◌<◌, pos, ◌-ℤ◌, ◌+ℤ◌, ℤ, ◌≡◌, refl, some, [], ◌∷◌, arith, contains, true, contains_iff_count,
}
use tam_simulation.Result.{ok}
use tam_simulation.Dict.{lookup, insert}
use tam_simulation.Req.{Req}
use tam_simulation.Wfq.{Wfq, Candidate, activate}
use tam_simulation.Wfq.Sums.{sum_weights}
use tam_simulation.Wfq.Active.{weight_known}
use tam_simulation.Wfq.Invariant.{IsValid}
use tam_simulation.Wfq.Serving.{own, active_once}
use tam_simulation.Wfq.InFlight.{pop_limited}

back_pos : (n w : ℕ) → pos n -ℤ pos w +ℤ pos w ≡ pos n
unfolding ◌+ℤ◌ ◌-ℤ◌
back_pos n w = ground arith

back : (a : ℤ) (n w : ℕ) → a ≡ pos n → a -ℤ pos w +ℤ pos w ≡ pos n
back a n w h = rw h (back_pos n w)

-- When the last request of a client leaves a valid scheduler, its positive weight leaves the total
-- while the client stays active: the total is short of the sum of the active weights by that
-- weight, and activating the client again, as its next put does, changes nothing.
pub pop_limited-loses_weight :
    (q : Wfq) (c : ℕ) (req : Req)
    → IsValid q
    → lookup c q.queues ≡ some (req ∷ [])
    → (t : Wfq) × (pop_limited (record { client = c; head = req; rest = [] }) q ≡ ok t)
      × (w : ℕ) × (lookup c t.weights ≡ some w)
      × (0 < w)
      × (t.total_active_weight +ℤ pos w ≡ pos (sum_weights t.weights t.active_client_list))
      × (activate c t ≡ ok t)
unfolding pop_limited
pop_limited-loses_weight q c req h from =
    let best : Candidate = record { client = c; head = req; rest = [] } in
    let (mine, _) = own 0 q h best from in
    let (_, active) = active_once 0 q h best from in
    let (w, found, heavy) = weight_known c q h.weights (omega (arith, active)) in
    let listed : contains c q.active_client_list ≡ true =
      ground (arith, active, contains_iff_count c q.active_client_list) in
    (
      record q {
        queues = insert c [] q.queues;
        total_active_weight = q.total_active_weight -ℤ pos w;
      },
      rw (mine, found) refl,
      w,
      found,
      heavy,
      back q.total_active_weight (sum_weights q.weights q.active_client_list) w h.weights.total,
      rw listed refl,
    )
