-- ===== src/Resource.antt =====
-- seda_resource.py, class Resource: what is counted of the requests that wait for a resource and
-- of its workers. simpy runs the workers; a worker takes a request, holds it for `amt / rate`, and
-- ends with it. Amounts are in a unit in which a worker does `rate` for one unit of time. The
-- counts for each stage are kept only where `calc_stage_usage` is set, which no code does.
pub mod Usage
use tam_simulation.Prelude.{
  ℕ, zero, suc, ◌+◌, ◌*◌, ℤ, pos, sub_ℕ, ◌+ℤ◌, ◌-ℤ◌, ◌*ℤ◌, Option, none, some, List, [], ◌∷◌,
}
use tam_simulation.Result.{Result, ok, ◌>>=◌, require}
use tam_simulation.Dict.{Dict, lookup, lookup_or, insert}

-- ResReq, without what simpy keeps of it.
pub record ResReq : Type 0 where
  pub client_id : ℕ
  pub amt : ℕ

pub record Resource : Type 0 where
  pub rate : ℕ
  pub usage : ℕ
  pub credit_usage : ℤ
  pub start_use_time : Dict (Option ℕ)
  pub per_client_usage : Dict ℕ
  pub waiting : Dict ℤ
  pub current_service : Dict ℤ
  pub last_report : ℕ

-- __init__
unfoldable pub init : ℕ → ℕ → Resource
init now rate = record {
  rate = rate;
  usage = 0;
  credit_usage = pos 0;
  start_use_time = [];
  per_client_usage = [];
  waiting = [];
  current_service = [];
  last_report = now;
}

-- What a worker has done of its request.
abbrev in_use : ℕ → ℕ → Option ℕ → ℤ
in_use now rate none = pos 0
in_use now rate (some start) = sub_ℕ now start *ℤ pos rate

-- The loop in get_total_usage
unfoldable pub current_usage : ℕ → ℕ → Dict (Option ℕ) → ℤ
current_usage now rate [] = pos 0
current_usage now rate ((w_id, start) ∷ rest) = in_use now rate start +ℤ current_usage now rate rest

-- get_total_usage
unfoldable pub get_total_usage : ℕ → Resource → ℤ × Resource
get_total_usage now r =
    let current = current_usage now r.rate r.start_use_time in
    (pos r.usage +ℤ current -ℤ r.credit_usage, record r { credit_usage = current })

-- request, besides the put into the scheduler
unfoldable pub request : ResReq → Resource → Resource
request req r = record r {
  waiting = insert req.client_id (lookup_or (pos 0) req.client_id r.waiting +ℤ pos 1) r.waiting;
}

-- worker_run, from the get to the timeout
unfoldable pub start_use : ℕ → ℕ → ResReq → Resource → Resource
start_use now w_id req r = record r {
  current_service =
      insert req.client_id (lookup_or (pos 0) req.client_id r.current_service +ℤ pos 1)
        r.current_service;
  start_use_time = insert w_id (some now) r.start_use_time;
}

-- worker_run, from the timeout to the end of the round
unfoldable pub finish_use : ℕ → ResReq → Resource → Result Resource
finish_use w_id req r = do
  service ← require (lookup req.client_id r.current_service)
  waits ← require (lookup req.client_id r.waiting)
  ok (record r {
    start_use_time = insert w_id none r.start_use_time;
    usage = r.usage + req.amt;
    current_service = insert req.client_id (service -ℤ pos 1) r.current_service;
    per_client_usage =
        insert req.client_id (lookup_or 0 req.client_id r.per_client_usage + req.amt)
          r.per_client_usage;
    waiting = insert req.client_id (waits -ℤ pos 1) r.waiting;
  })

-- clear_stats. The credit of get_total_usage stays.
unfoldable pub clear_stats : ℕ → Resource → Resource
clear_stats now r = record r { usage = 0; per_client_usage = []; last_report = now }
