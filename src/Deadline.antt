-- ===== src/Deadline.antt =====
-- scheduler.py, classes EFFScheduler and EDFScheduler: the earliest finish time first, and the
-- earliest deadline first. A finish time is fixed when the request is put.
pub mod FinishFirst
pub mod DeadlineFirst
use tam_simulation.Prelude.{
  ℕ, ◌+◌, ℤ, pos, ◌+ℤ◌, ◌-ℤ◌, Bool, true, false, Option, none, some, List, [], ◌∷◌,
}
use tam_simulation.Result.{Result, ok, err, ◌>>=◌, assertion_error, require}
use tam_simulation.Dict.{Dict, lookup, insert}
use tam_simulation.Req.{Req}
use tam_simulation.Occupancy.{Occupancy, fresh, add_one, take_one}
use tam_simulation.Scheduler.{Stored, Served}
use tam_simulation.Buckets.{store, take_least}

-- `assert hasattr(req, ...)`
abbrev pub attribute : Option ℕ → Result ℕ
attribute none = err assertion_error
attribute (some n) = ok n

-- EFFScheduler
pub record Eff : Type 0 where
  pub complete_time_req_list_dict : Dict (List Req)
  pub occ : Occupancy
  pub notify_list : List ℕ

-- EFFScheduler.__init__
unfoldable pub eff_init : ℕ → Eff
eff_init now = record { complete_time_req_list_dict = []; occ = fresh now; notify_list = [] }

-- EFFScheduler._do_put
unfoldable pub eff_put : ℕ → Req → Eff → Result (Stored Eff)
eff_put now req s = do
  exec_time ← attribute req.exec_time
  ok (record {
    state = record s {
      complete_time_req_list_dict = store (exec_time + now) req s.complete_time_req_list_dict;
      occ = add_one now s.occ;
    };
    stored = true;
  })

abbrev pub eff_serve : ℕ → Eff → Option (Req × Dict (List Req)) → Result (Served Eff)
eff_serve now s none = ok (record { state = s; req = none; notified = []; proceed = false })
eff_serve now s (some (req, rest)) = do
  occ ← take_one now s.occ
  ok (record {
    state = record s { complete_time_req_list_dict = rest; occ = occ };
    req = some req;
    notified = s.notify_list;
    proceed = false;
  })

-- EFFScheduler._do_get
unfoldable pub eff_get : ℕ → Eff → Result (Served Eff)
eff_get now s = eff_serve now s (take_least s.complete_time_req_list_dict)

-- EDFScheduler
pub record Edf : Type 0 where
  pub deadline_req_list_dict : Dict (List Req)
  pub queue_size_dict : Dict ℤ
  pub occ : Occupancy
  pub notify_list : List ℕ

-- EDFScheduler.__init__: only the clients 1 and 2 have a size.
unfoldable pub edf_init : ℕ → Edf
edf_init now = record {
  deadline_req_list_dict = [];
  queue_size_dict = (1, pos 0) ∷ (2, pos 0) ∷ [];
  occ = fresh now;
  notify_list = [];
}

-- EDFScheduler._do_put
unfoldable pub edf_put : ℕ → Req → Edf → Result (Stored Edf)
edf_put now req s = do
  deadline ← attribute req.deadline
  size ← require (lookup req.client_id s.queue_size_dict)
  ok (record {
    state = record s {
      deadline_req_list_dict = store deadline req s.deadline_req_list_dict;
      queue_size_dict = insert req.client_id (size +ℤ pos 1) s.queue_size_dict;
      occ = add_one now s.occ;
    };
    stored = true;
  })

abbrev pub edf_serve : ℕ → Edf → Option (Req × Dict (List Req)) → Result (Served Edf)
edf_serve now s none = ok (record { state = s; req = none; notified = []; proceed = false })
edf_serve now s (some (req, rest)) = do
  occ ← take_one now s.occ
  size ← require (lookup req.client_id s.queue_size_dict)
  ok (record {
    state = record s {
      deadline_req_list_dict = rest;
      queue_size_dict = insert req.client_id (size -ℤ pos 1) s.queue_size_dict;
      occ = occ;
    };
    req = some req;
    notified = s.notify_list;
    proceed = false;
  })

-- EDFScheduler._do_get
unfoldable pub edf_get : ℕ → Edf → Result (Served Edf)
edf_get now s = edf_serve now s (take_least s.deadline_req_list_dict)
