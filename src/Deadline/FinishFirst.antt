-- ===== src/Deadline/FinishFirst.antt =====
-- EFFScheduler: what a get hands out.
use tam_simulation.Prelude.{ℕ, ◌≡◌, refl, Option, none, some, List, [], length, ◌+◌, true, false}
use tam_simulation.Result.{ok}
use tam_simulation.Dict.{Dict, total}
use tam_simulation.Req.{Req}
use tam_simulation.Occupancy.{add_one}
use tam_simulation.Occupancy.Counts.{
  Counts, Counts-eq, Counts-add_one, Counts-take_one, Counts-fresh,
}
use tam_simulation.Scheduler.{Stored, Served}
use tam_simulation.Buckets.{store}
use tam_simulation.Buckets.Least.{
  IsTidy, IsTidy-empty, IsEarliest, Taken, take_least-Taken, store-IsTidy, total-store,
}
use tam_simulation.Deadline.{Eff, eff_init, eff_put, eff_get, eff_serve}

-- The dictionary is tidy, and the counter is the number of its requests.
pub record IsValid (s : Eff) : Type 0 where
  pub tidy : IsTidy s.complete_time_req_list_dict
  pub stored : Counts (total length s.complete_time_req_list_dict) s.occ

pub IsValid-init : (now : ℕ) → IsValid (eff_init now)
unfolding eff_init
IsValid-init now = record { tidy = IsTidy-empty; stored = Counts-fresh now }

-- A request that knows its execution time is stored, and the scheduler stays valid.
pub put-IsValid :
    (now t : ℕ) (req : Req) (s : Eff)
    → req.exec_time ≡ some t
    → IsValid s
    → (r : Stored Eff) × (eff_put now req s ≡ ok r)
      × IsValid r.state
      × (r.state.complete_time_req_list_dict ≡ store (t + now) req s.complete_time_req_list_dict)
unfolding eff_put
put-IsValid now t req s e h = (
  record {
    state = record s {
      complete_time_req_list_dict = store (t + now) req s.complete_time_req_list_dict;
      occ = add_one now s.occ;
    };
    stored = true;
  },
  rw e refl,
  record {
    tidy = store-IsTidy (t + now) req s.complete_time_req_list_dict h.tidy;
    stored =
        Counts-eq _ _ _ (total-store (t + now) req s.complete_time_req_list_dict)
          (Counts-add_one now _ s.occ h.stored);
  },
  refl,
)

-- What a get answers: nothing if no request waits, else an earliest one.
abbrev pub Answered : Dict (List Req) → Option Req → Dict (List Req) → Type 0
Answered d none d' = (d ≡ []) × (d' ≡ d)
Answered d (some req) d' = IsEarliest d req d'

serve-Answered :
    (now : ℕ) (s : Eff) (o : Option (Req × Dict (List Req)))
    → Taken s.complete_time_req_list_dict o
    → IsValid s
    → (r : Served Eff) × (eff_serve now s o ≡ ok r)
      × IsValid r.state
      × Answered s.complete_time_req_list_dict r.req r.state.complete_time_req_list_dict
serve-Answered now s none none_left h = (_, refl, h, (none_left, refl))
serve-Answered now s (some (req, rest)) (first, tidy, fewer) h =
    let (occ, e, counts) = Counts-take_one now _ s.occ (Counts-eq _ _ _ fewer h.stored) in
    (
      record {
        state = record s { complete_time_req_list_dict = rest; occ = occ };
        req = some req;
        notified = s.notify_list;
        proceed = false;
      },
      rw e refl,
      record { tidy = tidy; stored = counts },
      first,
    )

-- In a valid state `_do_get` raises nothing and keeps validity. It hands out a request if any
-- waits: the first in the list of a finish time that no other one precedes, and all the other
-- requests stay where they are.
pub eff_get-Answered :
    (now : ℕ) (s : Eff)
    → IsValid s
    → (r : Served Eff) × (eff_get now s ≡ ok r)
      × IsValid r.state
      × Answered s.complete_time_req_list_dict r.req r.state.complete_time_req_list_dict
unfolding eff_get
eff_get-Answered now s h =
    serve-Answered now s _ (take_least-Taken s.complete_time_req_list_dict h.tidy) h
