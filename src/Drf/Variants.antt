-- ===== src/Drf/Variants.antt =====
-- scheduler.py, the classes that derive from DRFScheduler.
use tam_simulation.Prelude.{
  ℕ, ◌+◌, Bool, true, false, Option, none, some, List, [], ◌∷◌, ◌++◌, replicate, ltb, if◌then◌else◌,
}
use tam_simulation.Result.{Result, ok, ◌>>=◌, require}
use tam_simulation.Dict.{Dict, lookup, insert, keys}
use tam_simulation.Req.{Req}
use tam_simulation.Occupancy.{add_one, take_one}
use tam_simulation.Scheduler.{Stored, Served, ask_downstream}
use tam_simulation.Drf
use tam_simulation.Drf.{Drf, lower, pick_req, pop_picked, deliver, update_allocation_shares}

-- PriorityDRFScheduler, and with the level PriorityNoStarveDRFScheduler.
pub record PriorityDrf : Type 0 where
  pub queue : Drf
  pub high_prio_list : List Req
  pub low_prio_starve_level : ℕ

unfoldable pub priority_init : ℕ → ℕ → PriorityDrf
priority_init now num_resources = record {
  queue = Drf.init now num_resources;
  high_prio_list = [];
  low_prio_starve_level = 0;
}

-- PriorityDRFScheduler._do_put, and the same in AfterPriorityFeedbackDRFScheduler
unfoldable pub priority_put : ℕ → Req → PriorityDrf → Result (Stored PriorityDrf)
priority_put now req s =
    let q = s.queue in
    if ltb 0 req.priority
    then ok (record {
      state = record s {
        high_prio_list = s.high_prio_list ++ req ∷ [];
        queue = record q { occ = add_one now q.occ };
      };
      stored = true;
    })
    else do
      r ← Drf.do_put now req q
      ok (record { state = record s { queue = r.state }; stored = r.stored })

abbrev serve_high : ℕ → PriorityDrf → Req → List Req → Result (Served PriorityDrf)
serve_high now s req rest =
    let q = s.queue in
    do
      occ ← take_one now q.occ
      ok (record {
        state = record s { high_prio_list = rest; queue = record q { occ = occ } };
        req = some req;
        notified = q.notify_list;
        proceed = false;
      })

abbrev serve_low : PriorityDrf → Result (Served Drf) → Result (Served PriorityDrf)
serve_low s get = do
  r ← get
  ok (record {
    state = record s { queue = r.state };
    req = r.req;
    notified = r.notified;
    proceed = false;
  })

abbrev pub starve_max : ℕ
starve_max = 10

-- PriorityNoStarveDRFScheduler._is_starving
abbrev pub is_starving : PriorityDrf → Bool
is_starving s = ltb starve_max s.low_prio_starve_level

module _ (one : ℕ) (quot : ℕ → ℕ → ℕ) where
  -- PriorityDRFScheduler._do_get
  unfoldable pub priority_get : ℕ → PriorityDrf → Result (Served PriorityDrf)
  priority_get now s = elim s.high_prio_list [
    | [] ↦ serve_low s (Drf.do_get one quot now s.queue)
    | req ∷ rest ↦ serve_high now s req rest
  ]

  -- PriorityNoStarveDRFScheduler._do_get
  unfoldable pub no_starve_get : ℕ → PriorityDrf → Result (Served PriorityDrf)
  no_starve_get now s =
      let low =
        serve_low (record s { low_prio_starve_level = 0 }) (Drf.do_get one quot now s.queue) in
      elim s.high_prio_list [
        | [] ↦ low
        | req ∷ rest ↦
            if is_starving s
            then low
            else serve_high now (record s { low_prio_starve_level = s.low_prio_starve_level + 1 })
                req rest
      ]

  -- complete_one_req of AfterDRFScheduler and of AfterPeriodicDRFScheduler
  unfoldable pub after_complete : Req → Drf → Result Drf
  after_complete req s = update_allocation_shares one quot req s

-- _do_get with the `send` of AfterDRFScheduler and of AfterPeriodicDRFScheduler
unfoldable pub after_get : ℕ → Drf → Result (Served Drf)
after_get now s = do r ← pick_req (λ c. true) s; deliver now r

-- AfterPriorityFeedbackDRFScheduler.check_client_id_pick; `ask` asks the next stage, last.
abbrev asked_queue : (ℕ → Result Bool) → Option ℕ → ℕ → List Req → Drf → Result Bool
asked_queue ask picked client_id [] s = ok false
asked_queue ask picked client_id (req ∷ rest) s = do
  share ← require (lookup client_id s.dominate_shares)
  is_lower ← lower share picked s
  if is_lower then ask client_id else ok false

unfoldable pub feedback_check : (ℕ → Result Bool) → Option ℕ → ℕ → Drf → Result Bool
feedback_check ask picked client_id s = do
  q ← require (lookup client_id s.queues)
  asked_queue ask picked client_id q s

-- The inherited loop of pick_req with this test.
unfoldable pub feedback_pick : (ℕ → Result Bool) → List ℕ → Option ℕ → Drf → Result (Option ℕ)
feedback_pick ask [] picked s = ok picked
feedback_pick ask (client_id ∷ clients) picked s = do
  better ← feedback_check ask picked client_id s
  feedback_pick ask clients (if better then some client_id else picked) s

-- AfterPriorityFeedbackDRFScheduler._do_get, with the inherited `pick_req`; `downstream` is the next
-- scheduler's `can_take_more_reqs`, or none.
unfoldable pub feedback_get :
    Option (ℕ → Result Bool) → ℕ → PriorityDrf → Result (Served PriorityDrf)
feedback_get downstream now s = elim s.high_prio_list [
  | [] ↦
      let q = s.queue in
      serve_low s (do
        picked ← feedback_pick (ask_downstream downstream) (keys q.dominate_shares) none q
        r ← pop_picked picked q
        deliver now r)
  | req ∷ rest ↦ serve_high now s req rest
]

abbrev zeros {ℓ} : {A : Type ℓ} → A → List ℕ → Dict A
zeros zero_value [] = []
zeros zero_value (c ∷ cs) = insert c zero_value (zeros zero_value cs)

-- One round of monitor_run of PeriodicDRFScheduler and of PriorityPeriodicNoStarveDRFScheduler
unfoldable pub clear_shares : Drf → Drf
clear_shares s = record s {
  dominate_shares = zeros 0 (keys s.queues);
  allocated_resources = zeros (replicate s.num_resources 0) (keys s.queues);
}
