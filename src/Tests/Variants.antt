-- ===== src/Tests/Variants.antt =====
-- The other schedulers on small inputs.
use mathlib.Core.Path.{subst}
use tam_simulation.Prelude.{
  ℕ, ◌≤◌, ◌+◌, ◌*◌, ◌-◌, ◌<◌, ◌≡◌, refl, sym, ◌∙◌, ◌*ℤ◌, pos, ◌≤ℤ◌, ◌+ℤ◌, Bool, true, Bool-cases,
  inl, inr, ◌==◌, ==_iff, Option, none, some, List, [], ◌∷◌, arith, ltb,
}
use tam_simulation.Result.{Result, ok, ok-injective}
use tam_simulation.Dict.{has_key, keys, lookup, lookup_or}
use tam_simulation.Req.{Req, plain}
use tam_simulation.Occupancy
use tam_simulation.Scheduler.{Stored, Served}
use tam_simulation.Flight.Bounds.{IsLimited}
use tam_simulation.Deadline.{Eff, Edf, eff_init, edf_init, eff_get, edf_get}
use tam_simulation.Deadline.FinishFirst
use tam_simulation.Deadline.FinishFirst.{eff_get-Answered, Answered}
use tam_simulation.Deadline.DeadlineFirst
use tam_simulation.Deadline.DeadlineFirst.{edf_get-Answered}
use tam_simulation.Wfq
use tam_simulation.Wfq.{Wfq, Candidate, activate, can_take_more_reqs}
use tam_simulation.Wfq.Sums.{sum_weights}
use tam_simulation.Wfq.Select.{IsChoice}
use tam_simulation.Wfq.Serving.{Delivers}
use tam_simulation.Wfq.Invariant
use tam_simulation.Occupancy.Counts.{Counts-add_one, Counts-fresh}
use tam_simulation.Wfq.Invariant.{AllOwn, IsValid-init}
use tam_simulation.Wfq.Putting.{put-IsValid}
use tam_simulation.Wfq.Feedback.{feedback_get, feedback_get-Delivers}
use tam_simulation.Wfq.InFlight
use tam_simulation.Wfq.InFlight.{LimitWfq, pop_limited}
use tam_simulation.Wfq.InFlight.Choice.{has_room, IsReady, Sends, get-Sends}
use tam_simulation.Wfq.InFlight.Drift.{pop_limited-loses_weight}
use tam_simulation.TokenBucket.{Bucket}
use tam_simulation.TokenBucket.Rate
use tam_simulation.TokenBucket.Rate.{
  Event, ask, fill, consumed_within_rate, full_bucket_refills_at_once, last_time,
}
use tam_simulation.Drf
use tam_simulation.Drf.{Drf, pick_client}
use tam_simulation.Drf.Fairness.{pick_client_least, IsPick, NotLower}
use tam_simulation.Tests.Fair.{busy, busy-IsValid, rounded, rounded-KeepsSign}

abbrev timed : ℕ → ℕ → ℕ → Req
timed i c t = record (plain i c) { exec_time = some t; deadline = some t }

abbrev eff_one : Eff
eff_one =
    (FinishFirst.put-IsValid 0 5 (timed 1 1 5) (eff_init 0) refl
      (FinishFirst.IsValid-init 0)).0.state

eff_one-IsValid : FinishFirst.IsValid eff_one
eff_one-IsValid =
    (FinishFirst.put-IsValid 0 5 (timed 1 1 5) (eff_init 0) refl (FinishFirst.IsValid-init 0)).2

eff_get-Answered_example :
    (r : Served Eff) × (eff_get 7 eff_one ≡ ok r)
    × FinishFirst.IsValid r.state
    × Answered eff_one.complete_time_req_list_dict r.req r.state.complete_time_req_list_dict
eff_get-Answered_example = eff_get-Answered 7 eff_one eff_one-IsValid

abbrev edf_one : Edf
unfolding edf_init
edf_one =
    (DeadlineFirst.put-IsValid 0 5 (timed 1 2 5) (edf_init 0) refl refl
      (DeadlineFirst.IsValid-init 0)).0.state

edf_one-IsValid : DeadlineFirst.IsValid edf_one
unfolding edf_init
edf_one-IsValid =
    (DeadlineFirst.put-IsValid 0 5 (timed 1 2 5) (edf_init 0) refl refl
      (DeadlineFirst.IsValid-init 0)).2

edf_get-Answered_example :
    (r : Served Edf) × (edf_get 7 edf_one ≡ ok r)
    × DeadlineFirst.IsValid r.state
    × Answered edf_one.deadline_req_list_dict r.req r.state.deadline_req_list_dict
edf_get-Answered_example = edf_get-Answered 7 edf_one edf_one-IsValid

-- A next stage with a WFQScheduler, which is asked for its own queue lengths.
abbrev next_stage : ℕ → Result Bool
next_stage c = ok (can_take_more_reqs c busy)

feedback_get-Delivers_example :
    (b : Option Candidate) × IsChoice (λ c. can_take_more_reqs c busy) busy.queues b
    × (r : Served Wfq) × (feedback_get (some next_stage) 7 busy ≡ ok r)
    × Delivers busy b r
feedback_get-Delivers_example =
    feedback_get-Delivers next_stage (λ c. can_take_more_reqs c busy) 7 busy (λ c. refl)
      busy-IsValid

-- A request in the queue of the client 8, at its virtual finish time.
abbrev queued : Req
queued = record (plain 3 8) { vir_finish = pos 1 }

-- The scheduler after one put.
abbrev after_put : Wfq
after_put = record {
  queues = (8, queued ∷ []) ∷ [];
  last_vir_finish = (8, pos 1) ∷ [];
  active_client_list = 8 ∷ [];
  queue_empty_time = [];
  deactivate_period = 10;
  total_active_weight = pos 10;
  weights = (8, 10) ∷ [];
  occ = Occupancy.add_one 0 (Occupancy.fresh 0);
  notify_list = [];
}

after_put_computes :
    Wfq.do_put 10 rounded 0 (plain 3 8) (Wfq.init 10 0)
    ≡ ok (record { state = after_put; stored = true })
unfolding Wfq.do_put Wfq.receive Wfq.admit Wfq.deactivate_clients Wfq.expire Wfq.set_weight
    Wfq.virtual_finish Wfq.init ◌+ℤ◌ ◌*ℤ◌ tam_simulation.Dict.insert tam_simulation.Dict.remove
after_put_computes = refl

after_put-IsValid : Invariant.IsValid after_put
after_put-IsValid =
    let (r, done, _, valid) =
      put-IsValid 10 rounded 0 (plain 3 8) (Wfq.init 10 0) (omega arith) rounded-KeepsSign
        (IsValid-init 10 0) in
    subst (λ (r : Stored Wfq). Invariant.IsValid r.state)
      (ok-injective (sym done ∙ after_put_computes)) valid

-- A next stage with a DRFScheduler, whose `can_take_more_reqs` is not implemented.
abbrev drf_stage : ℕ → Result Bool
drf_stage c = Drf.can_take_more_reqs c (Drf.init 0 2)

-- One client has had its last request served, and its weight left the total.
abbrev limited : LimitWfq
limited = record {
  queue = record after_put {
    queues = (8, queued ∷ []) ∷ (7, []) ∷ [];
    active_client_list = 8 ∷ 7 ∷ [];
    weights = (8, 10) ∷ (7, 20) ∷ [];
  };
  flight = record { flight_limit = (7, 1) ∷ (8, 1) ∷ []; current_flight = (7, 1) ∷ [] };
}

limited-IsLimited : IsLimited limited.flight
limited-IsLimited = record { within = λ c. ground arith }

limited_owners : (c : ℕ) → AllOwn c (lookup_or [] c limited.queue.queues)
limited_owners c = elim (Bool-cases (8 == c)) [
  | inl same ↦ subst (AllOwn c) {x = queued ∷ []} (ground (arith, same)) ((==_iff 8 c).0 same, tt)
  | inr other ↦ subst (AllOwn c) {x = []} (ground (arith, other)) tt
]

limited-IsReady : IsReady limited.queue
limited-IsReady = record {
  stored = Counts-add_one 0 0 (Occupancy.fresh 0) (Counts-fresh 0);
  owners = λ c. limited_owners c;
  weighed = λ c h. ground (arith, h);
}

get-Sends_example :
    (b : Option Candidate) × IsChoice (has_room limited.flight) limited.queue.queues b
    × (r : Served LimitWfq) × (InFlight.do_get 7 limited ≡ ok r)
    × Sends limited b r
get-Sends_example = get-Sends 7 limited limited-IsReady limited-IsLimited

pop_limited-loses_weight_example :
    (t : Wfq) × (pop_limited (record { client = 8; head = queued; rest = [] }) after_put ≡ ok t)
    × (w : ℕ) × (lookup 8 t.weights ≡ some w)
    × (0 < w)
    × (t.total_active_weight +ℤ pos w ≡ pos (sum_weights t.weights t.active_client_list))
    × (activate 8 t ≡ ok t)
pop_limited-loses_weight_example =
    pop_limited-loses_weight after_put 8 queued after_put-IsValid refl

-- A full bucket of ten tokens that gains two in a unit of time.
abbrev full_bucket : Bucket
full_bucket = record {
  capacity = pos 10;
  tokens = pos 10;
  fill_rate = 2;
  pending_reqs = [];
  timestamp = 0;
  last_consume = 0;
}

abbrev asks : List Event
asks = ask 1 8 ∷ fill 2 ∷ ask 3 5 ∷ ask 4 5 ∷ []

consumed_within_rate_example :
    (pos 0 ≤ℤ (Rate.run asks full_bucket).0.tokens)
    × ((Rate.run asks full_bucket).1 ≤ 10 + 2 * (last_time 1 asks - 0))
consumed_within_rate_example =
    consumed_within_rate asks 1 10 10 full_bucket (omega arith)
      (omega arith, (omega arith, (omega arith, (omega arith, tt)))) refl refl

full_bucket_refills_at_once_example :
    (Rate.run (fill 1 ∷ ask 9 10 ∷ fill 9 ∷ ask 9 10 ∷ []) full_bucket).1 ≡ 10 + 10
full_bucket_refills_at_once_example =
    full_bucket_refills_at_once 10 1 9 full_bucket (omega arith) refl refl (omega arith)

abbrev two_shares : Drf
two_shares = record {
  queues = (7, plain 1 7 ∷ []) ∷ (8, plain 2 8 ∷ []) ∷ [];
  num_resources = 1;
  consumed_resources = 9 ∷ [];
  dominate_shares = (7, 6) ∷ (8, 3) ∷ [];
  allocated_resources = (7, 6 ∷ []) ∷ (8, 3 ∷ []) ∷ [];
  weights = [];
  notify_list = [];
  occ = Occupancy.fresh 0;
}

abbrev only_small : ℕ → Bool
only_small c = ltb c 8

pick_client_least_example :
    (p : Option ℕ) × (pick_client only_small (keys two_shares.dominate_shares) none two_shares
      ≡ ok p)
    × IsPick only_small two_shares p
    × ((c : ℕ) → has_key c two_shares.dominate_shares ≡ true → NotLower only_small two_shares p c)
pick_client_least_example = pick_client_least only_small two_shares (λ c h. ground (arith, h))
