-- ===== src/Tests/Queues.antt =====
-- FIFOScheduler, PriorityScheduler, LimitInFlightFIFOScheduler and OccupancyCalc on small inputs.
use mathlib.Core.Option
use tam_simulation.Prelude.{
  ℕ, ◌≡◌, refl, ℤ, pos, Option, none, some, List, [], ◌∷◌, arith, ◌↔◌, true, false,
}
use tam_simulation.Result.{Result, ok, err}
use tam_simulation.Req.{Req, plain}
use tam_simulation.Occupancy
use tam_simulation.Occupancy.Meter.{Event, advance, add, take, report, started, tick}
use tam_simulation.Occupancy.Busy.{
  run_refines_meter, run-AllFractions, AllFractions, meter_run, handle,
}
use tam_simulation.Flight
use tam_simulation.Flight.{Flight, set_flight_limit, satisfy_flight, send_one_req}
use tam_simulation.Flight.Bounds.{satisfy_iff_send, IsLimited}
use tam_simulation.Scheduler.{Served, Call, Reply, put, get, stored, served, run, Replied}
use tam_simulation.Fifo
use tam_simulation.Fifo.{Fifo}
use tam_simulation.Fifo.Order
use tam_simulation.Fifo.Order.{run_refines_queue, queue_run}
use tam_simulation.Priority
use tam_simulation.Priority.{Priority}
use tam_simulation.Priority.Starvation
use tam_simulation.Priority.Starvation.{low_priority_is_served}
use tam_simulation.LimitFifo
use tam_simulation.LimitFifo.{LimitFifo}
use tam_simulation.LimitFifo.Limits.{get-Outcome, Outcome}
use tam_simulation.LimitFifo.History.{Action, History, run-Promises, Promises}
use tam_simulation.LimitFifo.Counter
use tam_simulation.LimitFifo.Counter.{counter_adds_both, moves}

-- Two requests arrive, time passes with one of them queued, and the queue empties.
abbrev day : List Event
day = advance 2 ∷ add ∷ advance 3 ∷ add ∷ take ∷ advance 1 ∷ take ∷ advance 4 ∷ report ∷ []

abbrev day_reports : List (Option (ℕ × ℕ))
day_reports = none ∷ none ∷ none ∷ none ∷ none ∷ none ∷ none ∷ none ∷ some (4, 10) ∷ []

day_metered : meter_run day started ≡ some day_reports
unfolding meter_run tick Option.bind
day_metered = refl

run_refines_meter_example :
    Occupancy.Busy.run day (5, Occupancy.fresh 5)
    ≡ ok (none ∷ none ∷ none ∷ none ∷ none ∷ none ∷ none ∷ none ∷ some (pos 4, pos 10) ∷ [])
run_refines_meter_example = run_refines_meter day 5 day_reports day_metered

run-AllFractions_example :
    (outs : List (Option (ℤ × ℤ))) × (Occupancy.Busy.run day (5, Occupancy.fresh 5) ≡ ok outs)
    × AllFractions outs
run-AllFractions_example = run-AllFractions day 5 day_reports day_metered

abbrev two_calls : List Call
two_calls = put 1 (plain 1 7) ∷ put 2 (plain 2 8) ∷ get 3 ∷ get 4 ∷ get 5 ∷ []

queue_of_one :
    queue_run (some 1) two_calls []
    ≡ stored true ∷ stored false ∷ served (some (plain 1 7)) ∷ served none ∷ served none ∷ []
unfolding queue_run
queue_of_one = refl

run_refines_queue_example :
    (s' : Fifo) × (run Fifo.Order.callbacks two_calls (Fifo.init 0 (some 1))
      ≡ ok (s', queue_run (some 1) two_calls []))
run_refines_queue_example = run_refines_queue two_calls 0 (some 1)

abbrev urgent : ℕ → Req
urgent i = let r = plain i 1 in record r { priority = 1 }

-- Six urgent requests and one that waits behind them.
abbrev crowded : Priority
crowded = record {
  high_prio_list = urgent 1 ∷ urgent 2 ∷ urgent 3 ∷ urgent 4 ∷ urgent 5 ∷ urgent 6 ∷ [];
  low_prio_list = plain 9 2 ∷ [];
  low_prio_starve_level = 0;
  occ = record {
    current_in_store = pos 7;
    queue_start_fill = some 0;
    occupied_time = pos 0;
    credit_time = pos 0;
    last_report_time = 0;
  };
  notify_list = [];
}

abbrev six_gets : List Call
six_gets = get 1 ∷ get 2 ∷ get 3 ∷ put 4 (urgent 7) ∷ get 5 ∷ get 6 ∷ get 7 ∷ []

low_priority_is_served_example :
    (s' : Priority) × (replies : List Reply) × (run Priority.Starvation.callbacks six_gets crowded
      ≡ ok (s', replies))
    × Replied (served (some (plain 9 2))) replies
low_priority_is_served_example =
    low_priority_is_served six_gets crowded (plain 9 2) []
      (record { stored = record { counter = refl; start = tt }; level = omega arith }) refl
      (omega arith)

-- Client 7 may have one request in flight, and has one.
abbrev one_in_flight : Flight
one_in_flight = record { flight_limit = (7, 1) ∷ []; current_flight = (7, 1) ∷ [] }

abbrev held : LimitFifo
held = record {
  queue = record {
    items = plain 1 7 ∷ plain 2 8 ∷ [];
    capacity = none;
    occ = record {
      current_in_store = pos 2;
      queue_start_fill = some 0;
      occupied_time = pos 0;
      credit_time = pos 0;
      last_report_time = 0;
    };
    notify_list = [];
    total_queue_size = pos 2;
    queue_size_dict = (7, pos 1) ∷ (8, pos 1) ∷ [];
  };
  flight = one_in_flight;
}

one_in_flight-IsLimited : IsLimited one_in_flight
one_in_flight-IsLimited = record { within = λ c. ground arith }

-- The request of client 8 overtakes the one of client 7.
get-Outcome_example :
    (r : Served LimitFifo) × (LimitFifo.do_get 3 held ≡ ok r)
    × IsLimited r.state.flight
    × Outcome held r.req r.state
get-Outcome_example = get-Outcome 3 held one_in_flight-IsLimited

overtakes :
    (s' : LimitFifo) × (LimitFifo.do_get 3 held
      ≡ ok (record { state = s'; req = some (plain 2 8); notified = []; proceed = true }))
unfolding LimitFifo.do_get LimitFifo.first_allowed satisfy_flight send_one_req Occupancy.add_one
overtakes = (_, refl)

-- Client 7 may have one request in flight. Its second request waits until the first is completed.
abbrev one_at_a_time : LimitFifo
unfolding LimitFifo.init
one_at_a_time = let s = LimitFifo.init 0 none in record s { flight = set_flight_limit 7 1 s.flight }

abbrev some_actions : List Action
some_actions =
    LimitFifo.History.put 1 (plain 1 7)
    ∷ LimitFifo.History.put 1 (plain 2 7)
    ∷ LimitFifo.History.put 1 (plain 3 8)
    ∷ LimitFifo.History.get 2
    ∷ LimitFifo.History.get 2
    ∷ LimitFifo.History.get 2
    ∷ LimitFifo.History.complete (plain 1 7)
    ∷ LimitFifo.History.get 3
    ∷ []

abbrev some_history : History
unfolding LimitFifo.History.run LimitFifo.History.act LimitFifo.do_put LimitFifo.do_get Fifo.do_put
    LimitFifo.first_allowed LimitFifo.complete_one_req Flight.complete_one_req satisfy_flight
    send_one_req Occupancy.add_one set_flight_limit Fifo.init
some_history = after (LimitFifo.History.run some_actions (LimitFifo.History.started one_at_a_time))
  where
    after : Result History → History
    after (ok h) = h
    after (err e) = LimitFifo.History.started one_at_a_time

some_history_reached :
    (LimitFifo.History.run some_actions (LimitFifo.History.started one_at_a_time) ≡ ok some_history)
    × (some_history.handed_out ≡ plain 2 7 ∷ plain 3 8 ∷ plain 1 7 ∷ [])
unfolding LimitFifo.History.run LimitFifo.History.act LimitFifo.do_put LimitFifo.do_get Fifo.do_put
    LimitFifo.first_allowed LimitFifo.complete_one_req Flight.complete_one_req satisfy_flight
    send_one_req Occupancy.add_one set_flight_limit Fifo.init one_at_a_time
    tam_simulation.Dict.insert
some_history_reached = (refl, refl)

run-Promises_example : Promises one_at_a_time some_history
unfolding LimitFifo.init set_flight_limit
run-Promises_example =
    run-Promises one_at_a_time some_actions some_history refl some_history_reached.0

counter_adds_both_example :
    (s' : LimitFifo) × (replies : List Reply) × (run LimitFifo.Counter.callbacks two_calls
        (LimitFifo.init 0 none)
      ≡ ok (s', replies))
    × (s'.queue.occ.current_in_store ≡ pos (moves replies))
counter_adds_both_example = counter_adds_both two_calls 0 none

satisfy_iff_send_example :
    ((satisfy_flight 7 one_in_flight).0 ≡ true)
    ↔ ((f' : Flight) × (send_one_req 7 (satisfy_flight 7 one_in_flight).1 ≡ ok f'))
satisfy_iff_send_example = satisfy_iff_send 7 one_in_flight
