-- ===== src/Wfq/PriorityFirst.antt =====
-- scheduler.py, classes PriorityWFQScheduler and PriorityNoStarveWFQScheduler: requests with a
-- priority have a list of their own, which is served first.
use tam_simulation.Prelude.{
  ℕ, ◌+◌, ℤ, Bool, true, false, some, List, [], ◌∷◌, ◌++◌, ltb, if◌then◌else◌,
}
use tam_simulation.Result.{Result, ok, ◌>>=◌}
use tam_simulation.Req.{Req}
use tam_simulation.Occupancy.{add_one, take_one}
use tam_simulation.Scheduler.{Stored, Served}
use tam_simulation.Wfq
use tam_simulation.Wfq.{Wfq}

pub record PriorityWfq : Type 0 where
  pub queue : Wfq
  pub high_prio_list : List Req
  pub low_prio_starve_level : ℕ

-- The constructors of both classes; the first has no starvation level.
unfoldable pub init : ℕ → ℕ → PriorityWfq
init one now = record { queue = Wfq.init one now; high_prio_list = []; low_prio_starve_level = 0 }

abbrev with_queue : PriorityWfq → Stored Wfq → Stored PriorityWfq
with_queue s r = record { state = record s { queue = r.state }; stored = r.stored }

-- PriorityWFQScheduler._do_put
unfoldable pub do_put : ℕ → (ℤ → ℕ → ℤ) → ℕ → Req → PriorityWfq → Result (Stored PriorityWfq)
do_put one quot now req s =
    let q = s.queue in
    if ltb 0 req.priority
    then ok (record {
      state = record s {
        high_prio_list = s.high_prio_list ++ req ∷ [];
        queue = record q { occ = add_one now q.occ };
      };
      stored = true;
    })
    else do r ← Wfq.do_put one quot now req q; ok (with_queue s r)

-- The first request of the list, which is popped once the counter has been lowered.
abbrev pub serve_high : ℕ → PriorityWfq → Req → List Req → Result (Served PriorityWfq)
serve_high now s req rest =
    let q = s.queue in
    do
      occ ← take_one now q.occ
      ok (record {
        state = record s { high_prio_list = rest; queue = record q { occ = occ } };
        req = some req;
        notified = q.notify_list;
        proceed = false;
      })

abbrev pub serve_low : ℕ → PriorityWfq → Result (Served PriorityWfq)
serve_low now s = do
  r ← Wfq.do_get now s.queue
  ok (record {
    state = record s { queue = r.state };
    req = r.req;
    notified = r.notified;
    proceed = r.proceed;
  })

-- PriorityWFQScheduler._do_get
unfoldable pub do_get : ℕ → PriorityWfq → Result (Served PriorityWfq)
do_get now s = elim s.high_prio_list [
  | [] ↦ serve_low now s
  | req ∷ rest ↦ serve_high now s req rest
]

abbrev pub starve_max : ℕ
starve_max = 10

-- PriorityNoStarveWFQScheduler._is_starving
abbrev pub is_starving : PriorityWfq → Bool
is_starving s = ltb starve_max s.low_prio_starve_level

-- PriorityNoStarveWFQScheduler._do_get; its `_do_put` is the inherited one.
unfoldable pub no_starve_get : ℕ → PriorityWfq → Result (Served PriorityWfq)
no_starve_get now s =
    let low = serve_low now (record s { low_prio_starve_level = 0 }) in
    elim s.high_prio_list [
      | [] ↦ low
      | req ∷ rest ↦
          if is_starving s
          then low
          else serve_high now (record s { low_prio_starve_level = s.low_prio_starve_level + 1 }) req
              rest
    ]
