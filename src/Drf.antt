-- ===== src/Drf.antt =====
-- scheduler.py, class DRFScheduler: the client with the least dominant share comes first.
-- Shares and costs are multiples of one unit; `quot` is the division of a cost by a weight.
pub mod Variants
pub mod Fairness
use tam_simulation.Prelude.{
  ℕ, zero, suc, ◌+◌, Bool, true, false, ◌&&◌, Option, none, some, List, [], ◌∷◌, ◌++◌, replicate,
  length, ltb, ◌==◌, if◌then◌else◌,
}
use tam_simulation.Result.{
  Result, ok, err, index_error, value_error, zero_division_error, not_implemented_error, ◌>>=◌,
  ◌>>◌, assert, require, assertion_error,
}
use tam_simulation.Dict.{Dict, lookup, lookup_or, insert, has_key, keys}
use tam_simulation.Req.{Req, remove_req}
use tam_simulation.Occupancy.{Occupancy, fresh, add_one, take_one}
use tam_simulation.Scheduler.{Stored, Served}

pub record Drf : Type 0 where
  pub queues : Dict (List Req)
  pub num_resources : ℕ
  pub consumed_resources : List ℕ
  pub dominate_shares : Dict ℕ
  pub allocated_resources : Dict (List ℕ)
  pub weights : Dict ℕ
  pub notify_list : List ℕ
  pub occ : Occupancy

-- __init__
unfoldable pub init : ℕ → ℕ → Drf
init now num_resources = record {
  queues = [];
  num_resources = num_resources;
  consumed_resources = replicate num_resources 0;
  dominate_shares = [];
  allocated_resources = [];
  weights = [];
  notify_list = [];
  occ = fresh now;
}

unfoldable pub set_weight : ℕ → ℕ → Drf → Drf
set_weight client_id weight s = record s { weights = insert client_id weight s.weights }

-- get_weight; `one` is the number 1 in the unit.
unfoldable pub get_weight : ℕ → ℕ → Drf → ℕ
get_weight one client_id s = lookup_or one client_id s.weights

abbrev pub open_client : ℕ → Drf → Drf
open_client client_id s = if has_key client_id s.queues then s else record s {
  queues = insert client_id [] s.queues;
  dominate_shares = insert client_id 0 s.dominate_shares;
  allocated_resources = insert client_id (replicate s.num_resources 0) s.allocated_resources;
}

-- receive
unfoldable pub receive : ℕ → Req → Drf → Result Drf
receive now req s =
    let s' = open_client req.client_id s in
    do
      q ← require (lookup req.client_id s'.queues)
      ok (record s' {
        queues = insert req.client_id (q ++ req ∷ []) s'.queues;
        occ = add_one now s'.occ;
      })

-- _do_put
unfoldable pub do_put : ℕ → Req → Drf → Result (Stored Drf)
do_put now req s = do s' ← receive now req s; ok (record { state = s'; stored = true })

-- `picked_client_id is None or share < self.dominate_shares[picked_client_id]`
abbrev pub lower : ℕ → Option ℕ → Drf → Result Bool
lower share none s = ok true
lower share (some picked) s = do
  other ← require (lookup picked s.dominate_shares)
  ok (ltb share other)

abbrev pub check_queue : (ℕ → Bool) → Option ℕ → ℕ → List Req → Drf → Result Bool
check_queue allowed picked client_id [] s = ok false
check_queue allowed picked client_id (req ∷ rest) s = do
  share ← require (lookup client_id s.dominate_shares)
  is_lower ← lower share picked s
  ok (is_lower && allowed client_id)

-- check_client_id_pick, among the clients that are `allowed`: all of them in this class. The override
-- of AfterPriorityFeedbackDRFScheduler, which asks the next stage, is `Variants.feedback_check`.
unfoldable pub check_client_id_pick : (ℕ → Bool) → Option ℕ → ℕ → Drf → Result Bool
check_client_id_pick allowed picked client_id s = do
  q ← require (lookup client_id s.queues)
  check_queue allowed picked client_id q s

-- The loop in pick_req over the keys of `dominate_shares`.
unfoldable pub pick_client : (ℕ → Bool) → List ℕ → Option ℕ → Drf → Result (Option ℕ)
pick_client allowed [] picked s = ok picked
pick_client allowed (client_id ∷ clients) picked s = do
  better ← check_client_id_pick allowed picked client_id s
  pick_client allowed clients (if better then some client_id else picked) s

abbrev pub pop_head : ℕ → List Req → Drf → Result (Option Req × Drf)
pop_head client_id [] s = err assertion_error
pop_head client_id (req ∷ rest) s =
    assert (req.client_id == client_id)
    >> ok (some req, record s { queues = insert client_id rest s.queues })

abbrev pub pop_picked : Option ℕ → Drf → Result (Option Req × Drf)
pop_picked none s = ok (none, s)
pop_picked (some client_id) s = do q ← require (lookup client_id s.queues); pop_head client_id q s

-- pick_req
unfoldable pub pick_req : (ℕ → Bool) → Drf → Result (Option Req × Drf)
pick_req allowed s = do
  picked ← pick_client allowed (keys s.dominate_shares) none s
  pop_picked picked s

-- The first request of a list that was not put back.
unfoldable pub first_fresh : List Req → Option Req
first_fresh [] = none
first_fresh (req ∷ reqs) = let rest = first_fresh reqs in if req.put_back then rest else some req

-- pick_req_from_client_id
unfoldable pub pick_req_from_client_id : ℕ → Drf → Option Req × Drf
pick_req_from_client_id client_id s =
    let q = lookup_or [] client_id s.queues in
    elim (first_fresh q) [
      | none ↦ (none, s)
      | some req ↦ (some req, record s { queues = insert client_id (remove_req req q) s.queues })
    ]

-- `max(allocation)`
unfoldable pub maximum : List ℕ → Result ℕ
maximum [] = err value_error
maximum (a ∷ rest) = ok (largest a rest)
  where
    largest : ℕ → List ℕ → ℕ
    largest a [] = a
    largest a (b ∷ bs) = largest (if ltb a b then b else a) bs

module _ (one : ℕ) (quot : ℕ → ℕ → ℕ) where
  abbrev divide : ℕ → ℕ → Result ℕ
  divide a zero = err zero_division_error
  divide a (suc w) = ok (quot a (suc w))

  -- `resources[i] += cost[i] / weight` for each index of the cost.
  unfoldable pub add_cost : ℕ → List ℕ → List ℕ → Result (List ℕ)
  add_cost w [] resources = ok resources
  add_cost w (c ∷ cost) [] = err index_error
  add_cost w (c ∷ cost) (r ∷ resources) = do
    d ← divide c w
    rest ← add_cost w cost resources
    ok ((r + d) ∷ rest)

  -- update_allocation_shares
  unfoldable pub update_allocation_shares : Req → Drf → Result Drf
  update_allocation_shares req s =
      let w = get_weight one req.client_id s in
      do
        consumed ← add_cost w req.cost_vector s.consumed_resources
        assert (has_key req.client_id s.allocated_resources)
        allocation ← require (lookup req.client_id s.allocated_resources)
        assert (length allocation == s.num_resources)
        allocation' ← add_cost w req.cost_vector allocation
        share ← maximum allocation'
        ok (record s {
          consumed_resources = consumed;
          allocated_resources = insert req.client_id allocation' s.allocated_resources;
          dominate_shares = insert req.client_id share s.dominate_shares;
        })

  abbrev charge : Option Req × Drf → Result (Option Req × Drf)
  charge (none, s) = ok (none, s)
  charge (some req, s) = do s' ← update_allocation_shares req s; ok (some req, s')

  -- send
  unfoldable pub send : Drf → Result (Option Req × Drf)
  send s = do r ← pick_req (λ c. true) s; charge r

-- The rest of _do_get, for the outcome of `send`.
abbrev pub deliver : ℕ → Option Req × Drf → Result (Served Drf)
deliver now (none, s) = ok (record { state = s; req = none; notified = []; proceed = false })
deliver now (some req, s) = do
  occ ← take_one now s.occ
  ok (record {
    state = record s { occ = occ };
    req = some req;
    notified = s.notify_list;
    proceed = false;
  })

-- _do_get
unfoldable pub do_get : ℕ → (ℕ → ℕ → ℕ) → ℕ → Drf → Result (Served Drf)
do_get one quot now s = do r ← send one quot s; deliver now r

-- can_take_more_reqs
unfoldable pub can_take_more_reqs : ℕ → Drf → Result Bool
can_take_more_reqs client_id s = err not_implemented_error
