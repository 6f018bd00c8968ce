-- ===== src/Wfq/InFlight.antt =====
-- scheduler.py, class LimitInFlightWFQScheduler: WFQScheduler and LimitInFlight together.
pub mod Drift
pub mod Choice
pub mod Ready
use tam_simulation.Prelude.{
  ℕ, ◌+◌, ◌==◌, ℤ, pos, ◌+ℤ◌, ◌-ℤ◌, ◌≡◌, refl, sym, ◌∙◌, Bool, true, false, not, Option, none, some,
  List, [], ◌∷◌, if◌then◌else◌, pos_part, neg_part, length, int_laws, arith, suc,
}
use tam_simulation.Result.{Result, ok, ◌>>=◌, require}
use tam_simulation.Dict.{Dict, lookup, insert, keys, total}
use tam_simulation.Req.{Req}
use tam_simulation.Occupancy.{Occupancy, take_one}
use tam_simulation.Scheduler.{Stored, Served}
use tam_simulation.Flight
use tam_simulation.Flight.{Flight, send_one_req, satisfy_flight}
use tam_simulation.Wfq
use tam_simulation.Wfq.{Wfq, Candidate, select}

pub record LimitWfq : Type 0 where
  pub queue : Wfq
  pub flight : Flight

-- __init__
unfoldable pub init : ℕ → ℕ → LimitWfq
init one now = record { queue = Wfq.init one now; flight = Flight.idle }

-- _do_put is inherited
unfoldable pub do_put : (ℕ) → (ℤ → ℕ → ℤ) → ℕ → Req → LimitWfq → Result (Stored LimitWfq)
do_put one quot now req s = do
  r ← Wfq.do_put one quot now req s.queue
  ok (record { state = record s { queue = r.state }; stored = r.stored })

-- The end of the overridden `send`: the weight of a client whose queue is empty now leaves the total.
unfoldable pub pop_limited : Candidate → Wfq → Result Wfq
pop_limited best s =
    let shorter = record s { queues = insert best.client best.rest s.queues } in
    elim best.rest [
      | [] ↦ do
        w ← require (lookup best.head.client_id s.weights)
        ok (record shorter { total_active_weight = s.total_active_weight -ℤ pos w })
      | _ ∷ _ ↦ ok shorter
    ]

abbrev pub has_more : ℤ → Bool
has_more a = not (pos_part a == neg_part a)

abbrev pub finish : ℕ → LimitWfq → Option Candidate → Flight → Result (Served LimitWfq)
finish now s none f = ok (record {
  state = record s { flight = f };
  req = none;
  notified = [];
  proceed = has_more s.queue.occ.current_in_store;
})
finish now s (some best) f = do
  q ← pop_limited best s.queue
  occ ← take_one now q.occ
  f' ← send_one_req best.head.client_id f
  ok (record {
    state = record { queue = record q { occ = occ }; flight = f' };
    req = some best.head;
    notified = q.notify_list;
    proceed = has_more occ.current_in_store;
  })

-- _do_get
unfoldable pub do_get : ℕ → LimitWfq → Result (Served LimitWfq)
do_get now s =
    let q = s.queue in
    let (best, f) = select satisfy_flight (keys q.queues) q.queues (none, s.flight) in
    finish now s best f

-- complete_one_req. simpy's `_trigger_get`, which it calls last, only makes further calls of `do_get`.
unfoldable pub complete_one_req : Req → LimitWfq → Result LimitWfq
complete_one_req req s = do
  f ← Flight.complete_one_req req.client_id s.flight
  ok (record s { flight = f })
