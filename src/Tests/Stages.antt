-- ===== src/Tests/Stages.antt =====
-- Stages and resources on small inputs.
use tam_simulation.Prelude.{
  ℕ, ◌≡◌, refl, pos, sub_ℕ, ◌+ℤ◌, ◌-ℤ◌, none, List, [], ◌∷◌, arith, length, ◌<◌,
}
use tam_simulation.Result.{ok}
use tam_simulation.Dict.{lookup_or}
use tam_simulation.Req.{plain}
use tam_simulation.Resource
use tam_simulation.Resource.{ResReq, Resource}
use tam_simulation.Resource.Usage
use tam_simulation.Resource.Usage.{Event, asked, started, finished, IsSum, run-IsSum}
use tam_simulation.Stage
use tam_simulation.Stage.{
  Stage, start_service, finish_service, active_start_blocking, active_finish_blocking,
}
use tam_simulation.Stage.Service.{service_round, blocking_round_keeps_workers}

abbrev six : ResReq
six = record { client_id = 7; amt = 6 }

abbrev one_use : List Event
one_use = asked six ∷ started 1 0 six ∷ finished 0 six ∷ []

abbrev used : Resource
used = record {
  rate = 2;
  usage = 6;
  credit_usage = pos 0;
  start_use_time = (0, none) ∷ [];
  per_client_usage = (7, 6) ∷ [];
  waiting = (7, pos 0) ∷ [];
  current_service = (7, pos 0) ∷ [];
  last_report = 0;
}

one_use_computes : Usage.run one_use (Resource.init 0 2) ≡ ok used
unfolding Usage.run Usage.act Resource.init Resource.request Resource.start_use Resource.finish_use
    ◌+ℤ◌ ◌-ℤ◌ tam_simulation.Dict.insert
one_use_computes = refl

init-IsSum : IsSum (Resource.init 0 2)
unfolding Resource.init
init-IsSum = record { same = refl }

run-IsSum_example : IsSum used
run-IsSum_example = run-IsSum one_use (Resource.init 0 2) used init-IsSum one_use_computes

service_round_example :
    (t : Stage) × (finish_service 9 0 (plain 1 7) (start_service 4 0 (plain 1 7) (Stage.init 0 2))
      ≡ ok (sub_ℕ 9 4, t))
    × (t.total_service_time ≡ (Stage.init 0 2).total_service_time +ℤ sub_ℕ 9 4)
    × ((c : ℕ)
        → lookup_or (pos 0) c t.current_service
          ≡ lookup_or (pos 0) c (Stage.init 0 2).current_service)
service_round_example = service_round 4 9 0 (plain 1 7) (Stage.init 0 2)

two_workers : 0 < length (Stage.init 0 2).workers
unfolding Stage.init
two_workers = omega arith

blocking_round_keeps_workers_example :
    (t : Stage) × (active_finish_blocking 9 0
        (plain 1 7)
        (active_start_blocking 4 0 (plain 1 7) (Stage.init 0 2))
      ≡ ok t)
    × (length t.workers ≡ length (Stage.init 0 2).workers)
blocking_round_keeps_workers_example =
    blocking_round_keeps_workers 4 9 0 (plain 1 7) (Stage.init 0 2) two_workers
