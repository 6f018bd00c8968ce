-- ===== src/Config.antt =====
-- scheduler.py, the functions about the classes of schedulers and the construction of a scheduler
-- from a configuration. simpy's and ConfigParser's own behaviour is not modelled: a section is the
-- values of its options, and a map is its entries in their order.
pub mod Classes
use tam_simulation.Prelude.{ℕ, Bool, true, false, Option, none, some, List, [], ◌∷◌}
use tam_simulation.Result.{Result, ok, err, exception, ◌>>=◌}
use tam_simulation.Dict.{Dict}
use tam_simulation.Fifo
use tam_simulation.Fifo.{Fifo}
use tam_simulation.LimitFifo
use tam_simulation.LimitFifo.{LimitFifo}
use tam_simulation.Wfq
use tam_simulation.Wfq.{Wfq}
use tam_simulation.Wfq.InFlight
use tam_simulation.Wfq.InFlight.{LimitWfq}
use tam_simulation.Wfq.PriorityFirst
use tam_simulation.Wfq.PriorityFirst.{PriorityWfq}
use tam_simulation.TokenBucket
use tam_simulation.TokenBucket.{Buckets}
use tam_simulation.Drf
use tam_simulation.Drf.{Drf}
use tam_simulation.Drf.Variants.{PriorityDrf, priority_init}

-- The strings that the option `type` is compared with.
pub data TypeName : Type 0 where
  fifo limit_in_flight_fifo token_bucket refund_token_bucket wfq : TypeName
  priority_wfq feedback_wfq limit_in_flight_wfq drf priority_drf : TypeName
  after_drf after_priority_feedback_drf after_periodic_drf apfv_stage_drf other : TypeName

-- The options of a section, `none` where one is missing.
pub record Section : Type 0 where
  pub kind : Option TypeName
  pub default_rate : Option ℕ
  pub default_capacity : Option ℕ
  pub refill_interval : Option ℕ
  pub rate_map : Option (Dict ℕ)
  pub predict_cost : Option ℕ
  pub weight_map : Option (Dict ℕ)
  pub number_of_resources : Option ℕ
  pub period : Option ℕ

-- A new scheduler. The predicted cost of every request, and the period, come beside their state.
pub data Scheduler : Type 0 where
  fifo_scheduler : Fifo → Scheduler
  limit_fifo_scheduler : LimitFifo → Scheduler
  tb_scheduler : Buckets → Scheduler
  refund_tb_scheduler : ℕ → Buckets → Scheduler
  wfq_scheduler : Wfq → Scheduler
  priority_wfq_scheduler : PriorityWfq → Scheduler
  feedback_wfq_scheduler : Wfq → Scheduler
  limit_wfq_scheduler : LimitWfq → Scheduler
  drf_scheduler : Drf → Scheduler
  priority_drf_scheduler : PriorityDrf → Scheduler
  after_drf_scheduler : Drf → Scheduler
  after_priority_feedback_drf_scheduler : PriorityDrf → Scheduler
  after_periodic_drf_scheduler : ℕ → Drf → Scheduler

-- A missing option ends in the exception given: get_scheduler raises one of its own.
abbrev option {ℓ} : {A : Type ℓ} → Option A → Result A
option none = err exception
option (some a) = ok a

abbrev entries : Option (Dict ℕ) → Dict ℕ
entries none = []
entries (some m) = m

abbrev value_or : ℕ → Option ℕ → ℕ
value_or n none = n
value_or n (some m) = m

-- The loop over `rate_map`.
unfoldable pub set_rates : ℕ → Dict ℕ → Buckets → Buckets
set_rates now [] s = s
set_rates now ((client_id, rate) ∷ rates) s =
    set_rates now rates (TokenBucket.set_rate now client_id rate s)

-- The loop over `weight_map`, of a WFQ scheduler and of a DRF one.
unfoldable pub set_weights : Dict ℕ → Wfq → Result Wfq
set_weights [] s = ok s
set_weights ((client_id, weight) ∷ weights) s = do
  s' ← Wfq.set_weight client_id weight s
  set_weights weights s'

unfoldable pub set_drf_weights : Dict ℕ → Drf → Drf
set_drf_weights [] s = s
set_drf_weights ((client_id, weight) ∷ weights) s =
    set_drf_weights weights (Drf.set_weight client_id weight s)

-- `one` is the number 1 in the unit of the times and of the weights.
module _ (one now : ℕ) where
  abbrev new_buckets : Section → Result Buckets
  new_buckets c = do
    rate ← option c.default_rate
    capacity ← option c.default_capacity
    ok (
        set_rates now (entries c.rate_map)
          (TokenBucket.init now rate capacity (value_or one c.refill_interval) none))

  abbrev new_wfq : Section → Result Wfq
  new_wfq c = set_weights (entries c.weight_map) (Wfq.init one now)

  abbrev new_drf : Section → Result Drf
  new_drf c = do
    num_res ← option c.number_of_resources
    ok (set_drf_weights (entries c.weight_map) (Drf.init now num_res))

  abbrev new_priority_drf : Section → Result PriorityDrf
  new_priority_drf c = do
    num_res ← option c.number_of_resources
    let s = priority_init now num_res
    ok (record s { queue = set_drf_weights (entries c.weight_map) s.queue })

  abbrev build : TypeName → Section → Result Scheduler
  build fifo c = ok (fifo_scheduler (Fifo.init now none))
  build limit_in_flight_fifo c = ok (limit_fifo_scheduler (LimitFifo.init now none))
  build token_bucket c = do s ← new_buckets c; ok (tb_scheduler s)
  build refund_token_bucket c = do
    cost ← option c.predict_cost
    s ← new_buckets c
    ok (refund_tb_scheduler cost s)
  build wfq c = do s ← new_wfq c; ok (wfq_scheduler s)
  build priority_wfq c = do
    q ← new_wfq c
    let s = PriorityFirst.init one now
    ok (priority_wfq_scheduler (record s { queue = q }))
  build feedback_wfq c = do s ← new_wfq c; ok (feedback_wfq_scheduler s)
  build limit_in_flight_wfq c = do
    q ← new_wfq c
    let s = InFlight.init one now
    ok (limit_wfq_scheduler (record s { queue = q }))
  build drf c = do s ← new_drf c; ok (drf_scheduler s)
  build priority_drf c = do s ← new_priority_drf c; ok (priority_drf_scheduler s)
  build after_drf c = do s ← new_drf c; ok (after_drf_scheduler s)
  build after_priority_feedback_drf c = do
    s ← new_priority_drf c
    ok (after_priority_feedback_drf_scheduler s)
  build after_periodic_drf c = do
    num_res ← option c.number_of_resources
    period ← option c.period
    s ← new_drf c
    ok (after_periodic_drf_scheduler period s)
  build apfv_stage_drf c = err exception
  build other c = err exception

  -- get_scheduler
  unfoldable pub get_scheduler : Section → Result Scheduler
  get_scheduler c = do kind ← option c.kind; build kind c
