-- ===== src/Fifo.antt =====
-- scheduler.py, class FIFOScheduler. The statistics are `occ`; `capacity` is `none` for
-- `float('inf')`; `notify_list` holds the identities of the schedulers to wake.
pub mod Consistent
pub mod Order
use tam_simulation.Prelude.{
  ℕ, ℤ, pos, ◌+ℤ◌, ◌-ℤ◌, Bool, true, false, Option, none, some, List, [], ◌∷◌, ◌++◌, length, ltb,
  if◌then◌else◌,
}
use tam_simulation.Result.{Result, ok, ◌>>=◌, require}
use tam_simulation.Dict.{Dict, lookup, lookup_or, insert}
use tam_simulation.Req.{Req}
use tam_simulation.Occupancy.{Occupancy, fresh, add_one, take_one}
use tam_simulation.Scheduler.{Stored, Served}

pub record Fifo : Type 0 where
  pub items : List Req
  pub capacity : Option ℕ
  pub occ : Occupancy
  pub notify_list : List ℕ
  pub total_queue_size : ℤ
  pub queue_size_dict : Dict ℤ

-- __init__
unfoldable pub init : ℕ → Option ℕ → Fifo
init now capacity = record {
  items = [];
  capacity = capacity;
  occ = fresh now;
  notify_list = [];
  total_queue_size = pos 0;
  queue_size_dict = [];
}

abbrev pub has_room : ℕ → Option ℕ → Bool
has_room n none = true
has_room n (some capacity) = ltb n capacity

-- _do_put
unfoldable pub do_put : ℕ → Req → Fifo → Stored Fifo
do_put now req s =
    let size = lookup_or (pos 0) req.client_id s.queue_size_dict in
    if has_room (length s.items) s.capacity
    then record {
      state = record s {
        items = s.items ++ req ∷ [];
        queue_size_dict = insert req.client_id (size +ℤ pos 1) s.queue_size_dict;
        total_queue_size = s.total_queue_size +ℤ pos 1;
        occ = add_one now s.occ;
      };
      stored = true;
    }
    else record { state = s; stored = false }

abbrev serve_head : ℕ → Fifo → List Req → Result (Served Fifo)
serve_head now s [] = ok (record { state = s; req = none; notified = []; proceed = false })
serve_head now s (req ∷ rest) = do
  occ ← take_one now s.occ
  size ← require (lookup req.client_id s.queue_size_dict)
  ok (record {
    state = record s {
      items = rest;
      occ = occ;
      queue_size_dict = insert req.client_id (size -ℤ pos 1) s.queue_size_dict;
      total_queue_size = s.total_queue_size -ℤ pos 1;
    };
    req = some req;
    notified = s.notify_list;
    proceed = false;
  })

-- _do_get
unfoldable pub do_get : ℕ → Fifo → Result (Served Fifo)
do_get now s = serve_head now s s.items

-- can_take_more_reqs
unfoldable pub can_take_more_reqs : ℕ → Fifo → Bool
can_take_more_reqs client_id s = true
