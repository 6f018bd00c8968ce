-- ===== src/Wfq.antt =====
-- scheduler.py, class WFQScheduler: weighted fair queuing by virtual finish times.
-- Times, costs and weights are multiples of one unit; `one` is the number 1 in it. A float division
-- of a number by a weight is the parameter `quot`, since its rounding is the machine's.
pub mod Select
pub mod Active
pub mod Sums
pub mod Ascending
pub mod Invariant
pub mod Putting
pub mod Serving
pub mod Fairness
pub mod Feedback
pub mod InFlight
pub mod PriorityFirst
pub mod SlaFirst
pub mod LatencyAware
use tam_simulation.Prelude.{
  ℕ, zero, ◌+◌, ℤ, pos, ◌+ℤ◌, ◌-ℤ◌, ◌*ℤ◌, max_ℤ, ltb_ℤ, Bool, true, false, not, ◌&&◌, Option, none,
  some, List, [], ◌∷◌, ◌++◌, map, length, contains, erase, ltb, if◌then◌else◌,
}
use tam_simulation.Result.{
  Result, ok, err, zero_division_error, unbound_local_error, ◌>>=◌, ◌>>◌, assert, require,
}
use tam_simulation.Dict.{Dict, lookup, lookup_or, insert, remove, has_key, keys}
use tam_simulation.Req.{Req}
use tam_simulation.Occupancy.{Occupancy, fresh, add_one, take_one}
use tam_simulation.Scheduler.{Stored, Served}

pub record Wfq : Type 0 where
  pub queues : Dict (List Req)
  pub last_vir_finish : Dict ℤ
  pub active_client_list : List ℕ
  pub queue_empty_time : Dict ℕ
  pub deactivate_period : ℕ
  pub total_active_weight : ℤ
  pub weights : Dict ℕ
  pub occ : Occupancy
  pub notify_list : List ℕ

-- __init__
unfoldable pub init : ℕ → ℕ → Wfq
init one now = record {
  queues = [];
  last_vir_finish = [];
  active_client_list = [];
  queue_empty_time = [];
  deactivate_period = one;
  total_active_weight = pos 0;
  weights = [];
  occ = fresh now;
  notify_list = [];
}

-- The weight of a client before the change is unbound for one that has none.
abbrev bound_weight : Option ℕ → Result ℕ
bound_weight none = err unbound_local_error
bound_weight (some w) = ok w

-- set_weight
unfoldable pub set_weight : ℕ → ℕ → Wfq → Result Wfq
set_weight client_id weight s =
    let s' = record s { weights = insert client_id weight s.weights } in
    let update = λ (old : ℕ).
      ok (record s' { total_active_weight = s.total_active_weight -ℤ pos old +ℤ pos weight }) in
    if contains client_id s.active_client_list
    then bound_weight (lookup client_id s.weights) >>= update
    else ok s'

-- One client of `queue_empty_time` that has been idle for too long.
unfoldable pub deactivate : ℕ → Wfq → Result Wfq
deactivate client_id s = do
  assert (contains client_id s.active_client_list)
  w ← require (lookup client_id s.weights)
  ok (record s {
    active_client_list = erase client_id s.active_client_list;
    total_active_weight = s.total_active_weight -ℤ pos w;
  })

-- The first loop of deactivate_clients: the scheduler, and `to_remove_clients`.
unfoldable pub expire : ℕ → Dict ℕ → Wfq → Result (Wfq × List ℕ)
expire now [] s = ok (s, [])
expire now ((client_id, since) ∷ rest) s = elim (ltb (since + s.deactivate_period) now) [
  | true ↦ do
    s' ← deactivate client_id s
    (s'', to_remove) ← expire now rest s'
    ok (s'', client_id ∷ to_remove)
  | false ↦ expire now rest s
]

abbrev pub remove_all : List ℕ → Dict ℕ → Dict ℕ
remove_all [] d = d
remove_all (k ∷ ks) d = remove_all ks (remove k d)

-- deactivate_clients
unfoldable pub deactivate_clients : ℕ → Wfq → Result Wfq
deactivate_clients now s = do
  (s', to_remove) ← expire now s.queue_empty_time s
  ok (record s' { queue_empty_time = remove_all to_remove s'.queue_empty_time })

abbrev checked : ℕ → Result ℕ
checked zero = err zero_division_error
checked w = ok w

abbrev pub open_queue : ℕ → Wfq → Wfq
open_queue client_id s = if has_key client_id s.queues then s else record s {
  queues = insert client_id [] s.queues;
  last_vir_finish = insert client_id (pos 0) s.last_vir_finish;
}

abbrev pub activate : ℕ → Wfq → Result Wfq
activate client_id s =
    let add = λ (w : ℕ). ok (record s {
      active_client_list = s.active_client_list ++ client_id ∷ [];
      total_active_weight = s.total_active_weight +ℤ pos w;
    }) in
    if contains client_id s.active_client_list
    then ok s
    else require (lookup client_id s.weights) >>= add

-- The default weight is 1.
abbrev pub weigh : ℕ → ℕ → Wfq → Result Wfq
weigh one client_id s = if has_key client_id s.weights then ok s else set_weight client_id one s

module _ (quot : ℤ → ℕ → ℤ) where
  -- updateTime: the virtual finish time of the request.
  unfoldable pub virtual_finish : ℕ → Req → Wfq → Result ℤ
  virtual_finish now req s = do
    last ← require (lookup req.client_id s.last_vir_finish)
    weight ← require (lookup req.client_id s.weights)
    w ← checked weight
    ok (quot (pos req.cost *ℤ s.total_active_weight) w +ℤ max_ℤ (pos now) last)

  -- The request enters its queue, which holds the object that `updateTime` then writes to.
  abbrev pub enqueue : ℕ → Req → Wfq → Result Wfq
  enqueue now req s = do
    q ← require (lookup req.client_id s.queues)
    v ← virtual_finish now req s
    ok (record s {
      queues = insert req.client_id (q ++ record req { vir_finish = v } ∷ []) s.queues;
      last_vir_finish = insert req.client_id v s.last_vir_finish;
    })

-- receive, up to the request's entry into its queue.
unfoldable pub admit : ℕ → ℕ → ℕ → Wfq → Result Wfq
admit one now client_id s = do
  s1 ← deactivate_clients now s
  s2 ← weigh one client_id s1
  let s3 = open_queue client_id s2
  s4 ← activate client_id s3
  ok (record s4 { queue_empty_time = remove client_id s4.queue_empty_time })

module _ (one : ℕ) (quot : ℤ → ℕ → ℤ) where
  -- receive
  unfoldable pub receive : ℕ → Req → Wfq → Result Wfq
  receive now req s = do s' ← admit one now req.client_id s; enqueue quot now req s'

  -- _do_put
  unfoldable pub do_put : ℕ → Req → Wfq → Result (Stored Wfq)
  do_put now req s = do
    s' ← receive now req s
    ok (record { state = record s' { occ = add_one now s'.occ }; stored = true })

-- A queue that may be served next: its client, its first request and the others.
pub record Candidate : Type 0 where
  pub client : ℕ
  pub head : Req
  pub rest : List Req

abbrev pub earlier : Req → Option Candidate → Bool
earlier req none = true
earlier req (some best) = ltb_ℤ req.vir_finish best.head.vir_finish

module _ {ℓ} {T : Type ℓ} (allowed : ℕ → T → Bool × T) where
  -- One round of the loop in `send`. `allowed` is asked last, and may change a state of its own.
  abbrev pub consider : ℕ → Option (List Req) → Option Candidate × T → Option Candidate × T
  consider client_id none (best, t) = (best, t)
  consider client_id (some []) (best, t) = (best, t)
  consider client_id (some (req ∷ rest)) (best, t) =
      let (fits, t') = allowed client_id t in
      let next =
        if fits then some (record { client = client_id; head = req; rest = rest }) else best in
      if earlier req best then (next, t') else (best, t)

  -- The loop over `self.queues`.
  unfoldable pub select : List ℕ → Dict (List Req) → Option Candidate × T → Option Candidate × T
  select [] queues b = b
  select (client_id ∷ clients) queues b =
      select clients queues (consider client_id (lookup client_id queues) b)

-- What follows the loop, where a queue was found.
unfoldable pub pop : ℕ → Candidate → Wfq → Result Wfq
pop now best s = elim best.rest [
  | [] ↦
      assert (not (has_key best.head.client_id s.queue_empty_time))
      >> ok (record s {
        queues = insert best.client best.rest s.queues;
        queue_empty_time = insert best.head.client_id now s.queue_empty_time;
      })
  | _ ∷ _ ↦ ok (record s { queues = insert best.client best.rest s.queues })
]

-- Every client may be served.
abbrev pub any_client : ℕ → Unit {0} → Bool × Unit {0}
any_client client_id t = (true, t)

-- The rest of _do_get, once `send` has chosen.
abbrev pub deliver : ℕ → Wfq → Option Candidate → Result (Served Wfq)
deliver now s none = ok (record { state = s; req = none; notified = []; proceed = false })
deliver now s (some best) = do
  s' ← pop now best s
  occ ← take_one now s'.occ
  ok (record {
    state = record s' { occ = occ };
    req = some best.head;
    notified = s.notify_list;
    proceed = false;
  })

-- _do_get
unfoldable pub do_get : ℕ → Wfq → Result (Served Wfq)
do_get now s = deliver now s (select any_client (keys s.queues) s.queues (none, tt)).0

-- can_take_more_reqs
unfoldable pub can_take_more_reqs : ℕ → Wfq → Bool
can_take_more_reqs client_id s = elim (lookup client_id s.queues) [
  | none ↦ true
  | some q ↦ ltb (length q) 5
]
