-- ===== src/Priority.antt =====
-- scheduler.py, class PriorityScheduler: requests with a priority first, unless the others starve.
-- The fields that the class inherits from FIFOScheduler and never uses are left out.
pub mod Starvation
use tam_simulation.Prelude.{
  ℕ, ◌+◌, Bool, true, false, Option, none, some, List, [], ◌∷◌, ◌++◌, ltb, if◌then◌else◌,
}
use tam_simulation.Result.{Result, ok, ◌>>=◌}
use tam_simulation.Req.{Req}
use tam_simulation.Occupancy.{Occupancy, fresh, add_one, take_one}
use tam_simulation.Scheduler.{Stored, Served}

pub record Priority : Type 0 where
  pub high_prio_list : List Req
  pub low_prio_list : List Req
  pub low_prio_starve_level : ℕ
  pub occ : Occupancy
  pub notify_list : List ℕ

abbrev pub starve_max : ℕ
starve_max = 4

-- __init__
unfoldable pub init : ℕ → Priority
init now = record {
  high_prio_list = [];
  low_prio_list = [];
  low_prio_starve_level = 0;
  occ = fresh now;
  notify_list = [];
}

abbrev pub is_starving : ℕ → Bool
is_starving level = ltb starve_max level

-- _do_put
unfoldable pub do_put : ℕ → Req → Priority → Stored Priority
do_put now req s = record {
  state =
      if ltb 0 req.priority
      then record s { high_prio_list = s.high_prio_list ++ req ∷ []; occ = add_one now s.occ }
      else record s { low_prio_list = s.low_prio_list ++ req ∷ []; occ = add_one now s.occ };
  stored = true;
}

-- The list to serve from has been chosen and popped.
abbrev finish : ℕ → Priority → Req → Result (Served Priority)
finish now s req = do
  occ ← take_one now s.occ
  ok (record {
    state = record s { occ = occ };
    req = some req;
    notified = s.notify_list;
    proceed = false;
  })

abbrev serve : ℕ → Priority → List Req → List Req → Result (Served Priority)
serve now s [] [] = ok (record { state = s; req = none; notified = []; proceed = false })
serve now s [] (req ∷ rest) = finish now (record s { low_prio_list = rest }) req
serve now s (req ∷ rest) [] =
    finish now
      (record s {
        high_prio_list = rest;
        low_prio_starve_level =
            if is_starving s.low_prio_starve_level
            then s.low_prio_starve_level
            else s.low_prio_starve_level + 1;
      })
      req
serve now s (req ∷ rest) (low ∷ lows) =
    if is_starving s.low_prio_starve_level
    then finish now (record s { low_prio_list = lows; low_prio_starve_level = 0 }) low
    else finish now
        (record s { high_prio_list = rest; low_prio_starve_level = s.low_prio_starve_level + 1 })
        req

-- _do_get
unfoldable pub do_get : ℕ → Priority → Result (Served Priority)
do_get now s = serve now s s.high_prio_list s.low_prio_list
