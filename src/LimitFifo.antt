-- ===== src/LimitFifo.antt =====
-- scheduler.py, class LimitInFlightFIFOScheduler: FIFOScheduler and LimitInFlight together.
pub mod Limits
pub mod History
pub mod Counter
use tam_simulation.Prelude.{
  ℕ, ℤ, pos, Bool, true, false, not, Option, none, some, List, [], ◌∷◌, ◌==◌, ◌+◌, if◌then◌else◌,
  pos_part, neg_part,
}
use tam_simulation.Result.{Result, ok, ◌>>=◌}
use tam_simulation.Req.{Req, remove_req}
use tam_simulation.Occupancy.{Occupancy, add_one}
use tam_simulation.Flight
use tam_simulation.Flight.{Flight, send_one_req, satisfy_flight}
use tam_simulation.Fifo
use tam_simulation.Fifo.{Fifo}
use tam_simulation.Scheduler.{Stored, Served}

pub record LimitFifo : Type 0 where
  pub queue : Fifo
  pub flight : Flight

-- __init__
unfoldable pub init : ℕ → Option ℕ → LimitFifo
init now capacity = record { queue = Fifo.init now capacity; flight = Flight.idle }

-- _do_put is inherited
unfoldable pub do_put : ℕ → Req → LimitFifo → Stored LimitFifo
do_put now req s =
    let r = Fifo.do_put now req s.queue in
    record { state = record s { queue = r.state }; stored = r.stored }

-- The loop over the items, up to the first one that may be sent. `satisfy_flight` may add entries.
unfoldable pub first_allowed : List Req → Flight → Option Req × Flight
first_allowed [] f = (none, f)
first_allowed (req ∷ reqs) f =
    let (fits, f') = satisfy_flight req.client_id f in
    let rest = first_allowed reqs f' in if fits then (some req, f') else rest

abbrev is_zero : ℤ → Bool
is_zero a = pos_part a + neg_part a == 0

-- What is left once the request is counted as in flight. The code calls `add_one` here.
abbrev sent : ℕ → LimitFifo → Req → Flight → Served LimitFifo
sent now s req f =
    let queue = s.queue in
    let occ = add_one now queue.occ in
    record {
      state = record {
        queue = record queue { items = remove_req req queue.items; occ = occ };
        flight = f;
      };
      req = some req;
      notified = queue.notify_list;
      proceed = not (is_zero occ.current_in_store);
    }

-- The body of the loop for the request that is sent, or the end of the loop without one.
abbrev send : ℕ → LimitFifo → Flight → Option Req → Result (Served LimitFifo)
send now s f none = ok (record {
  state = record s { flight = f };
  req = none;
  notified = [];
  proceed = not (is_zero s.queue.occ.current_in_store);
})
send now s f (some req) = do f' ← send_one_req req.client_id f; ok (sent now s req f')

-- _do_get
unfoldable pub do_get : ℕ → LimitFifo → Result (Served LimitFifo)
do_get now s = let (found, f) = first_allowed s.queue.items s.flight in send now s f found

-- complete_one_req. simpy's `_trigger_get`, which it calls last, only makes further calls of `do_get`.
unfoldable pub complete_one_req : Req → LimitFifo → Result LimitFifo
complete_one_req req s = do
  f ← Flight.complete_one_req req.client_id s.flight
  ok (record s { flight = f })
