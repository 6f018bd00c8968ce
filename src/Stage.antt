-- ===== src/Stage.antt =====
-- stage.py, classes Stage and ActiveWorkerStage: the workers of a stage, and the times that they
-- spend serving requests and blocked in them. simpy runs the workers; a round of a worker takes a
-- request from the scheduler, starts its service, processes it, and finishes its service.
pub mod Service
use tam_simulation.Prelude.{
  ℕ, zero, suc, ◌+◌, ◌-◌, ℤ, pos, sub_ℕ, ◌+ℤ◌, ◌-ℤ◌, Bool, true, false, Option, none, some, List,
  [], ◌∷◌, ◌++◌, length, ltb, ◌==◌, contains, if◌then◌else◌,
}
use tam_simulation.Result.{
  Result, ok, err, type_error, value_error, assertion_error, ◌>>=◌, ◌>>◌, assert, require,
}
use tam_simulation.Dict.{Dict, lookup, lookup_or, insert}
use tam_simulation.Req.{Req}

pub record Stage : Type 0 where
  pub workers : List ℕ
  pub last_report : ℕ
  pub current_blocking : Dict ℤ
  pub current_service : Dict ℤ
  pub start_service_time : Dict (Option ℕ)
  pub start_blocking_time : Dict (Option ℕ)
  pub total_blocking_time : ℤ
  pub total_service_time : ℤ
  pub credit_blocking_time : ℤ
  pub credit_service_time : ℤ
  pub cur_w_id : ℕ
  pub num_workers : ℕ

-- `range(num_workers)`, from a first number on.
abbrev pub range : ℕ → ℕ → List ℕ
range from zero = []
range from (suc n) = from ∷ range (suc from) n

-- __init__
unfoldable pub init : ℕ → ℕ → Stage
init now num_workers = record {
  workers = range 0 num_workers;
  last_report = now;
  current_blocking = [];
  current_service = [];
  start_service_time = [];
  start_blocking_time = [];
  total_blocking_time = pos 0;
  total_service_time = pos 0;
  credit_blocking_time = pos 0;
  credit_service_time = pos 0;
  cur_w_id = num_workers;
  num_workers = num_workers;
}

abbrev elapsed : ℕ → Option ℕ → ℤ
elapsed now none = pos 0
elapsed now (some start) = sub_ℕ now start

-- The loops in get_total_blocking_time and in get_total_service_time
unfoldable pub in_progress : ℕ → Dict (Option ℕ) → ℤ
in_progress now [] = pos 0
in_progress now ((w_id, start) ∷ rest) = elapsed now start +ℤ in_progress now rest

-- get_total_blocking_time
unfoldable pub get_total_blocking_time : ℕ → Stage → ℤ × Stage
get_total_blocking_time now s =
    let current = in_progress now s.start_blocking_time in
    (
      s.total_blocking_time +ℤ current -ℤ s.credit_blocking_time,
      record s { total_blocking_time = pos 0; credit_blocking_time = current },
    )

-- get_total_service_time
unfoldable pub get_total_service_time : ℕ → Stage → ℤ × Stage
get_total_service_time now s =
    let current = in_progress now s.start_service_time in
    (
      s.total_service_time +ℤ current -ℤ s.credit_service_time,
      record s { total_service_time = pos 0; credit_service_time = current },
    )

-- The difference of a time and an entry that may be None.
abbrev since : ℕ → Option ℕ → Result ℤ
since now none = err type_error
since now (some start) = ok (sub_ℕ now start)

abbrev asserted : Option ℤ → Result ℤ
asserted none = err assertion_error
asserted (some n) = ok n

-- start_blocking
unfoldable pub start_blocking : ℕ → ℕ → Req → Stage → Stage
start_blocking now w_id req s = record s {
  current_blocking =
      insert req.client_id (lookup_or (pos 0) req.client_id s.current_blocking +ℤ pos 1)
        s.current_blocking;
  start_blocking_time = insert w_id (some now) s.start_blocking_time;
}

-- finish_blocking
unfoldable pub finish_blocking : ℕ → ℕ → Req → Stage → Result Stage
finish_blocking now w_id req s = do
  current ← asserted (lookup req.client_id s.current_blocking)
  start ← require (lookup w_id s.start_blocking_time)
  d ← since now start
  ok (record s {
    current_blocking = insert req.client_id (current -ℤ pos 1) s.current_blocking;
    total_blocking_time = s.total_blocking_time +ℤ d;
    start_blocking_time = insert w_id none s.start_blocking_time;
  })

-- start_service
unfoldable pub start_service : ℕ → ℕ → Req → Stage → Stage
start_service now w_id req s = record s {
  current_service =
      insert req.client_id (lookup_or (pos 0) req.client_id s.current_service +ℤ pos 1)
        s.current_service;
  start_service_time = insert w_id (some now) s.start_service_time;
}

-- finish_service: the service time of the request, and the stage.
unfoldable pub finish_service : ℕ → ℕ → Req → Stage → Result (ℤ × Stage)
finish_service now w_id req s = do
  start ← require (lookup w_id s.start_service_time)
  service_time ← since now start
  current ← asserted (lookup req.client_id s.current_service)
  ok (
    service_time,
    record s {
      current_service = insert req.client_id (current -ℤ pos 1) s.current_service;
      total_service_time = s.total_service_time +ℤ service_time;
      start_service_time = insert w_id none s.start_service_time;
    },
  )

-- add_workers
unfoldable pub add_workers : ℕ → Stage → Stage
add_workers zero s = s
add_workers (suc n) s =
    add_workers n (record s { workers = s.workers ++ s.cur_w_id ∷ []; cur_w_id = s.cur_w_id + 1 })

abbrev pub drop_workers : ℕ → List ℕ → List ℕ
drop_workers zero ws = ws
drop_workers (suc n) [] = []
drop_workers (suc n) (w ∷ ws) = drop_workers n ws

-- remove_workers. `num_workers` is left as it is.
unfoldable pub remove_workers : ℕ → Stage → Result Stage
remove_workers n s =
    assert (ltb n (length s.workers)) >> ok (record s { workers = drop_workers n s.workers })

-- ActiveWorkerStage.start_blocking
unfoldable pub active_start_blocking : ℕ → ℕ → Req → Stage → Stage
active_start_blocking now w_id req s = add_workers 1 (start_blocking now w_id req s)

-- ActiveWorkerStage.finish_blocking
unfoldable pub active_finish_blocking : ℕ → ℕ → Req → Stage → Result Stage
active_finish_blocking now w_id req s = do s' ← finish_blocking now w_id req s; remove_workers 1 s'

-- clear_stats
unfoldable pub clear_stats : ℕ → Stage → Stage
clear_stats now s = record s { last_report = now }

-- OnDemandStage, with its processes by number. put_req starts one, and worker_done ends it.
pub record OnDemand : Type 0 where
  pub processes : List ℕ
  pub num_completed_reqs : ℕ
  pub num_accepted_reqs : ℕ
  pub report_time : ℕ

-- OnDemandStage.put_req
unfoldable pub put_req : ℕ → OnDemand → OnDemand
put_req process s = record s {
  num_accepted_reqs = s.num_accepted_reqs + 1;
  processes = s.processes ++ process ∷ [];
}

abbrev drop_process : ℕ → List ℕ → List ℕ
drop_process p [] = []
drop_process p (q ∷ qs) = let rest = q ∷ drop_process p qs in if q == p then qs else rest

-- OnDemandStage.worker_done
unfoldable pub worker_done : ℕ → OnDemand → Result OnDemand
worker_done process s =
    if contains process s.processes
    then ok (record s {
      processes = drop_process process s.processes;
      num_completed_reqs = s.num_completed_reqs + 1;
    })
    else err value_error

-- OnDemandStage.clear_stats
unfoldable pub on_demand_clear : ℕ → OnDemand → OnDemand
on_demand_clear now s = record s {
  report_time = now;
  num_accepted_reqs = 0;
  num_completed_reqs = 0;
}
