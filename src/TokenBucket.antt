-- ===== src/TokenBucket.antt =====
-- scheduler.py, classes TokenBucket, TBScheduler, RefundTBScheduler and PriorityTBScheduler.
-- Tokens and costs are multiples of one unit, times of another; a rate is a number of token units
-- for a unit of time. simpy's process `fill_tokens` calls `fill_all` at each refill interval.
pub mod Rate
use tam_simulation.Prelude.{
  ℕ, ◌+◌, ◌*◌, ℤ, pos, sub_ℕ, ◌+ℤ◌, ◌-ℤ◌, ◌*ℤ◌, min_ℤ, ltb_ℤ, leb_ℤ, pos_part, neg_part, Bool, true,
  false, not, ◌&&◌, Option, none, some, List, [], ◌∷◌, ◌++◌, ltb, ◌==◌, if◌then◌else◌,
}
use tam_simulation.Result.{
  Result, ok, err, not_implemented_error, assertion_error, ◌>>=◌, ◌>>◌, assert, require,
}
use tam_simulation.Dict.{Dict, lookup, insert, has_key}
use tam_simulation.Req.{Req}
use tam_simulation.Occupancy.{Occupancy, fresh, add_one, take_one}
use tam_simulation.Scheduler.{Stored, Served}

pub record Bucket : Type 0 where
  pub capacity : ℤ
  pub tokens : ℤ
  pub fill_rate : ℕ
  pub pending_reqs : List Req
  pub timestamp : ℕ
  pub last_consume : ℕ

-- TokenBucket.__init__
unfoldable pub new_bucket : ℕ → ℕ → ℕ → ℕ → Bucket
new_bucket now init_tokens max_tokens fill_rate = record {
  capacity = pos max_tokens;
  tokens = pos init_tokens;
  fill_rate = fill_rate;
  pending_reqs = [];
  timestamp = now;
  last_consume = now;
}

unfoldable pub consume : ℕ → ℤ → Bucket → Bucket
consume now tokens b = record b { tokens = b.tokens -ℤ tokens; last_consume = now }

abbrev pub has_enough : ℕ → Bucket → Bool
has_enough tokens b = leb_ℤ (pos tokens) b.tokens

-- TokenBucket.get_tokens. A full bucket keeps its old `timestamp`.
unfoldable pub get_tokens : ℕ → Bucket → Bucket
get_tokens now b =
    let delta = pos b.fill_rate *ℤ sub_ℕ now b.timestamp in
    if ltb_ℤ b.tokens b.capacity
    then record b { tokens = min_ℤ b.capacity (b.tokens +ℤ delta); timestamp = now }
    else b

pub record Buckets : Type 0 where
  pub default_rate : ℕ
  pub default_capacity : ℕ
  pub refill_interval : ℕ
  pub store_capacity : Option ℕ
  pub buckets : Dict Bucket
  pub occ : Occupancy
  pub notify_list : List ℕ

-- TBScheduler.__init__
unfoldable pub init : ℕ → ℕ → ℕ → ℕ → Option ℕ → Buckets
init now default_rate default_capacity refill_interval store_capacity = record {
  default_rate = default_rate;
  default_capacity = default_capacity;
  refill_interval = refill_interval;
  store_capacity = store_capacity;
  buckets = [];
  occ = fresh now;
  notify_list = [];
}

-- The bucket of a client in set_rate, with its rate, before its tokens are cut.
abbrev rated : ℕ → ℕ → Buckets → Option Bucket → Bucket
rated now rate s none = new_bucket now (rate * s.refill_interval) s.default_capacity rate
rated now rate s (some b) = record b { fill_rate = rate }

abbrev cut : ℤ → Bucket → Bucket
cut most b = if ltb_ℤ most b.tokens then record b { tokens = most } else b

-- set_rate
unfoldable pub set_rate : ℕ → ℕ → ℕ → Buckets → Buckets
set_rate now client_id rate s =
    let b = rated now rate s (lookup client_id s.buckets) in
    record s { buckets = insert client_id (cut (pos (rate * s.refill_interval)) b) s.buckets }

-- get_rate
unfoldable pub get_rate : ℕ → Buckets → ℕ
get_rate client_id s = elim (lookup client_id s.buckets) [
  | none ↦ s.default_rate
  | some b ↦ b.fill_rate
]

abbrev default_bucket : ℕ → Buckets → Option Bucket → Bucket
default_bucket now s none =
    new_bucket now (s.default_rate * s.refill_interval) s.default_capacity s.default_rate
default_bucket now s (some b) = b

abbrev has_room : ℤ → Option ℕ → Bool
has_room n none = true
has_room n (some capacity) = ltb_ℤ n (pos capacity)

-- TBScheduler._do_put
unfoldable pub do_put : ℕ → Req → Buckets → Stored Buckets
do_put now req s =
    let b = default_bucket now s (lookup req.client_id s.buckets) in
    let b' = record b { pending_reqs = b.pending_reqs ++ req ∷ [] } in
    if has_room s.occ.current_in_store s.store_capacity
    then record {
      state = record s { buckets = insert req.client_id b' s.buckets; occ = add_one now s.occ };
      stored = true;
    }
    else record { state = s; stored = false }

-- A bucket whose first request may be served.
abbrev pub affordable : List Req → Bucket → Bool
affordable [] b = false
affordable (req ∷ rest) b = has_enough req.cost b

abbrev pub older : Bucket → Option (ℕ × Bucket) → Bool
older b none = true
older b (some (c, oldest)) = ltb b.last_consume oldest.last_consume

-- The loop over the buckets.
unfoldable pub oldest_bucket : Dict Bucket → Option (ℕ × Bucket) → Option (ℕ × Bucket)
oldest_bucket [] best = best
oldest_bucket ((client_id, b) ∷ d) best =
    oldest_bucket d
      (if older b best && affordable b.pending_reqs b then some (client_id, b) else best)

abbrev pub has_more : ℤ → Bool
has_more a = not (pos_part a == neg_part a)

-- The rest of _do_get, for the bucket that was found.
abbrev pub serve : ℕ → Buckets → ℕ → Bucket → List Req → Result (Served Buckets)
serve now s client_id b [] = err assertion_error
serve now s client_id b (req ∷ rest) = do
  assert (has_enough req.cost b)
  let b' = consume now (pos req.cost) (record b { pending_reqs = rest })
  occ ← take_one now s.occ
  ok (record {
    state = record s { buckets = insert client_id b' s.buckets; occ = occ };
    req = some req;
    notified = s.notify_list;
    proceed = has_more occ.current_in_store;
  })

abbrev pub serve_oldest : ℕ → Buckets → Option (ℕ × Bucket) → Result (Served Buckets)
serve_oldest now s none =
    ok (record { state = s; req = none; notified = []; proceed = has_more s.occ.current_in_store })
serve_oldest now s (some (client_id, b)) = serve now s client_id b b.pending_reqs

-- TBScheduler._do_get
unfoldable pub do_get : ℕ → Buckets → Result (Served Buckets)
do_get now s = serve_oldest now s (oldest_bucket s.buckets none)

abbrev fill_each : ℕ → Dict Bucket → Dict Bucket
fill_each now [] = []
fill_each now ((client_id, b) ∷ d) = (client_id, get_tokens now b) ∷ fill_each now d

-- One round of fill_tokens; simpy's `_trigger_get` then makes further calls of `do_get`.
unfoldable pub fill_all : ℕ → Buckets → Buckets
fill_all now s = record s { buckets = fill_each now s.buckets }

-- can_take_more_reqs
unfoldable pub can_take_more_reqs : ℕ → Buckets → Result Bool
can_take_more_reqs client_id s = err not_implemented_error

-- RefundTBScheduler._do_put: the request is charged by a prediction. The code changes the request
-- before it tests the capacity; the change is lost here where the store is full, which no store is
-- that the simulator builds, as their capacity is `float('inf')`.
unfoldable pub refund_put : (Req → ℕ) → ℕ → Req → Buckets → Stored Buckets
refund_put predict_cost now req s =
    let req' = record req { real_cost = req.cost } in
    do_put now (record req' { cost = predict_cost req' }) s

-- RefundTBScheduler.complete_one_req, up to its last call, of `_trigger_get`.
unfoldable pub refund : ℕ → Req → Buckets → Result (Req × Buckets)
refund now req s = do
  b ← require (lookup req.client_id s.buckets)
  let refund_amt = pos req.cost -ℤ pos req.real_cost
  let b' = consume now (pos 0 -ℤ refund_amt) b
  ok (record req { cost = req.real_cost }, record s { buckets = insert req.client_id b' s.buckets })

pub record PriorityBuckets : Type 0 where
  pub queue : Buckets
  pub high_prio_list : List Req

-- PriorityTBScheduler.__init__ passes the store's capacity on where TBScheduler takes the refill
-- interval, and the refill interval where it takes the capacity.
unfoldable pub priority_init : ℕ → ℕ → ℕ → ℕ → ℕ → PriorityBuckets
priority_init now default_rate default_capacity store_capacity refill_interval = record {
  queue = init now default_rate default_capacity store_capacity (some refill_interval);
  high_prio_list = [];
}

-- PriorityTBScheduler._do_put
unfoldable pub priority_put : ℕ → Req → PriorityBuckets → Stored PriorityBuckets
priority_put now req s =
    let q = s.queue in
    let r = do_put now req q in
    if ltb 0 req.priority
    then record {
      state = record s {
        high_prio_list = s.high_prio_list ++ req ∷ [];
        queue = record q { occ = add_one now q.occ };
      };
      stored = true;
    }
    else record { state = record s { queue = r.state }; stored = r.stored }

-- PriorityTBScheduler._do_get
unfoldable pub priority_get : ℕ → PriorityBuckets → Result (Served PriorityBuckets)
priority_get now s =
    let q = s.queue in
    elim s.high_prio_list [
      | [] ↦ do
        r ← do_get now q
        ok (record {
          state = record s { queue = r.state };
          req = r.req;
          notified = r.notified;
          proceed = r.proceed;
        })
      | req ∷ rest ↦ do
        occ ← take_one now q.occ
        ok (record {
          state = record { queue = record q { occ = occ }; high_prio_list = rest };
          req = some req;
          notified = q.notify_list;
          proceed = false;
        })
    ]
