-- ===== src/Unified.antt =====
-- scheduler.py, class UnifiedWFQScheduler: one weighted fair queue that several stages share.
-- The locks, which no simulated step waits for, are left out. Times, costs and weights are in one
-- unit; `cost_share` is `cost * float(total / weight)`, with the rounding of the machine.
use tam_simulation.Prelude.{
  ℕ, zero, suc, ◌+◌, ℤ, pos, ◌+ℤ◌, ◌-ℤ◌, max_ℤ, ltb_ℤ, Bool, true, false, Option, none, some, List,
  [], ◌∷◌, ◌++◌, contains, leb, if◌then◌else◌,
}
use tam_simulation.Result.{
  Result, ok, err, runtime_error, zero_division_error, not_implemented_error, ◌>>=◌, ◌>>◌, assert,
  require, assertion_error,
}
use tam_simulation.Dict.{Dict, lookup, lookup_or, insert, remove, has_key}
use tam_simulation.Req.{Req}
use tam_simulation.Occupancy.{Occupancy, fresh, take_one}
use tam_simulation.Scheduler.{Stored, Served}

pub record Unified : Type 0 where
  pub per_client_stage_queue : Dict (Dict (List Req))
  pub active_client_list : List ℕ
  pub client_last_finish_time : Dict ℤ
  pub stage_queue_empty_time : Dict (Dict ℕ)
  pub deactivate_period : ℕ
  pub total_active_weight : ℤ
  pub c_weights : Dict ℕ
  pub occ : Occupancy

-- __init__
unfoldable pub init : ℕ → ℕ → Unified
init one now = record {
  per_client_stage_queue = [];
  active_client_list = [];
  client_last_finish_time = [];
  stage_queue_empty_time = [];
  deactivate_period = one;
  total_active_weight = pos 0;
  c_weights = [];
  occ = fresh now;
}

abbrev asserted {ℓ} : {A : Type ℓ} → Option A → Result A
asserted none = err assertion_error
asserted (some a) = ok a

-- set_weight
unfoldable pub set_weight : ℕ → ℕ → Unified → Result Unified
set_weight client_id weight s =
    let s' = record s { c_weights = insert client_id weight s.c_weights } in
    if contains client_id s.active_client_list
    then (do
      old ← asserted (lookup client_id s.c_weights)
      ok (record s' { total_active_weight = s.total_active_weight -ℤ pos old +ℤ pos weight }))
    else ok s'

-- `to_remove`: every queue of the client has been empty for longer than the period.
abbrev all_expired : ℕ → ℕ → Dict ℕ → Bool
all_expired period now [] = true
all_expired period now ((stage, since) ∷ rest) =
    let others = all_expired period now rest in if leb now (since + period) then false else others

-- The first loop of _deactivate_clients: the scheduler, and `to_remove_clients`.
unfoldable pub expire : ℕ → Dict (Dict ℕ) → Unified → Result (Unified × List ℕ)
expire now [] s = ok (s, [])
expire now ((client_id, since) ∷ rest) s = elim (all_expired s.deactivate_period now since) [
  | true ↦ do
    assert (contains client_id s.active_client_list)
    w ← require (lookup client_id s.c_weights)
    (s', to_remove) ←
        expire now rest (record s { total_active_weight = s.total_active_weight -ℤ pos w })
    ok (s', client_id ∷ to_remove)
  | false ↦ expire now rest s
]

abbrev remove_all : List ℕ → Dict (Dict ℕ) → Dict (Dict ℕ)
remove_all [] d = d
remove_all (k ∷ ks) d = remove_all ks (remove k d)

-- _deactivate_clients
unfoldable pub deactivate_clients : ℕ → Unified → Result Unified
deactivate_clients now s = do
  (s', to_remove) ← expire now s.stage_queue_empty_time s
  ok (record s' { stage_queue_empty_time = remove_all to_remove s'.stage_queue_empty_time })

abbrev weigh : ℕ → ℕ → Unified → Result Unified
weigh one client_id s = if has_key client_id s.c_weights then ok s else set_weight client_id one s

abbrev activate : ℕ → Unified → Result Unified
activate client_id s = if contains client_id s.active_client_list then ok s else (do
  w ← require (lookup client_id s.c_weights)
  ok (record s {
    active_client_list = s.active_client_list ++ client_id ∷ [];
    total_active_weight = s.total_active_weight +ℤ pos w;
  }))

-- The queue of the stage is not empty any more.
abbrev not_empty : ℕ → ℕ → Unified → Unified
not_empty client_id stage s = elim (lookup client_id s.stage_queue_empty_time) [
  | none ↦ s
  | some times ↦ record s {
    stage_queue_empty_time = insert client_id (remove stage times) s.stage_queue_empty_time;
  }
]

abbrev store : ℕ → Req → Unified → Unified
store now req s =
    let queues = lookup_or [] req.client_id s.per_client_stage_queue in
    let q = lookup_or [] req.stage queues in
    let q' = q ++ record req { enter_time = some now } ∷ [] in
    record s {
      per_client_stage_queue =
          insert req.client_id (insert req.stage q' queues) s.per_client_stage_queue;
      client_last_finish_time =
          if has_key req.client_id s.client_last_finish_time
          then s.client_last_finish_time
          else insert req.client_id (pos 0) s.client_last_finish_time;
    }

-- _receive
unfoldable pub receive : ℕ → ℕ → Req → Unified → Result Unified
receive one now req s = do
  s1 ← deactivate_clients now s
  s2 ← weigh one req.client_id s1
  s3 ← activate req.client_id s2
  ok (store now req (not_empty req.client_id req.stage s3))

-- _do_put, which counts the request as taken from the queue.
unfoldable pub do_put : ℕ → ℕ → Req → Unified → Result (Stored Unified)
do_put one now req s = do
  s' ← receive one now req s
  occ ← take_one now s'.occ
  ok (record { state = record s' { occ = occ }; stored = true })

-- The queue that is to be served: its client, its first request, the others, and the time.
pub record Choice : Type 0 where
  pub client : ℕ
  pub head : Req
  pub rest : List Req
  pub finish : ℤ

abbrev sooner : ℤ → Option Choice → Bool
sooner t none = true
sooner t (some best) = ltb_ℤ t best.finish

module _ (cost_share : ℕ → ℤ → ℕ → ℤ) where
  abbrev share : ℕ → ℤ → ℕ → Result ℤ
  share cost total zero = err zero_division_error
  share cost total (suc w) = ok (cost_share cost total (suc w))

  -- The virtual finish time of the first request of a client, if it were served next.
  unfoldable pub expected_finish : ℕ → Req → Unified → Result ℤ
  expected_finish client_id req s = do
    entered ← asserted req.enter_time
    last ← require (lookup client_id s.client_last_finish_time)
    w ← require (lookup client_id s.c_weights)
    d ← share req.cost s.total_active_weight w
    ok (max_ℤ (pos entered) last +ℤ d)

  abbrev consider : ℕ → Option (List Req) → Option Choice → Unified → Result (Option Choice)
  consider client_id none best s = ok best
  consider client_id (some []) best s = ok best
  consider client_id (some (req ∷ rest)) best s = do
    t ← expected_finish client_id req s
    let next : Choice = record { client = client_id; head = req; rest = rest; finish = t }
    ok (if sooner t best then some next else best)

  -- The loop of _send over the clients, for the stage that fetches.
  unfoldable pub choose :
      ℕ → Dict (Dict (List Req)) → Option Choice → Unified → Result (Option Choice)
  choose stage [] best s = ok best
  choose stage ((client_id, queues) ∷ clients) best s = do
    best' ← consider client_id (lookup stage queues) best s
    choose stage clients best' s

-- The last request has left the queue of the stage.
abbrev record_empty : ℕ → ℕ → ℕ → Unified → Result Unified
record_empty now client_id stage s =
    let times = lookup_or [] client_id s.stage_queue_empty_time in
    if has_key stage times
    then err runtime_error
    else ok (record s {
      stage_queue_empty_time = insert client_id (insert stage now times) s.stage_queue_empty_time;
    })

-- The end of _send, where a queue was found.
unfoldable pub pop : ℕ → ℕ → Choice → Unified → Result Unified
pop now stage best s =
    let queues = lookup_or [] best.client s.per_client_stage_queue in
    let s' = record s {
      per_client_stage_queue =
          insert best.client (insert stage best.rest queues) s.per_client_stage_queue;
      client_last_finish_time = insert best.head.client_id best.finish s.client_last_finish_time;
    } in
    elim best.rest [ [] ↦ record_empty now best.head.client_id stage s' | _ ∷ _ ↦ ok s' ]

abbrev deliver : ℕ → ℕ → Unified → Option Choice → Result (Served Unified)
deliver now stage s none = ok (record { state = s; req = none; notified = []; proceed = false })
deliver now stage s (some best) = do
  s' ← pop now stage best s
  occ ← take_one now s'.occ
  ok (record {
    state = record s' { occ = occ };
    req = some best.head;
    notified = [];
    proceed = false;
  })

-- _do_get, for the stage of the event
unfoldable pub do_get : (ℕ → ℤ → ℕ → ℤ) → ℕ → ℕ → Unified → Result (Served Unified)
do_get cost_share now stage s = do
  best ← choose cost_share stage s.per_client_stage_queue none s
  deliver now stage s best

-- can_take_more_reqs
unfoldable pub can_take_more_reqs : ℕ → Unified → Result Bool
can_take_more_reqs client_id s = err not_implemented_error
