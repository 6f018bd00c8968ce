-- ===== src/StageReq/Timing.antt =====
-- When the events of requests succeed. A run of the simulator is seen through the time at which each
-- event succeeds, if it does, and the uses of resources that come to an end; how long a use or a
-- queue takes is left open, so every scheduler and every interleaving is among the runs.
pub mod Parts
pub mod Requests
pub mod Instant
use tam_simulation.Prelude.{ℕ, ◌≤◌, ◌≡◌, Option, none, some, List, [], ◌∷◌, ◌++◌}
use tam_simulation.StageReq.{
  StageReq, stage_req, blk_stage_req, update_mem_store_req, Reqs, no_reqs, req, Profiles,
  no_profiles, profile,
}
use tam_simulation.StageReq.Process.{
  Effect, request, submit, start_blocking, finish_blocking, wait, succeed, exit, abort, raised,
  process,
}

-- A use of `amt` of a resource that ended at `time`.
pub record Use : Type 0 where
  pub res : ℕ
  pub amt : ℕ
  pub time : ℕ

abbrev pub Times : Type 0
Times = ℕ → Option ℕ

-- A request that is never submitted: neither its event nor one of a request behind it succeeds.
unfoldable mutual
  pub Never : Times → StageReq → Type 0
  Never at (stage_req ident stage client_id priority resources evts reqs callbacks) =
      (at ident ≡ none) × Nevers at reqs × Nevers at callbacks
  Never at (blk_stage_req ident stage client_id priority res_blk_profile_list callbacks) =
      (at ident ≡ none) × NeverProfiles at res_blk_profile_list × Nevers at callbacks
  Never at (update_mem_store_req ident stage client_id change_size) = at ident ≡ none

  pub Nevers : Times → Reqs → Type 0
  Nevers at no_reqs = Unit
  Nevers at (req r rs) = Never at r × Nevers at rs

  pub NeverProfiles : Times → Profiles → Type 0
  NeverProfiles at no_profiles = Unit
  NeverProfiles at (profile costs reqs evts ps) = Nevers at reqs × NeverProfiles at ps

-- Effects that never happen.
abbrev pub Silent : Times → List Effect → Type 0
Silent at [] = Unit
Silent at (request res client_id amt stage priority ∷ es) = Silent at es
Silent at (submit r ∷ es) = Never at r × Silent at es
Silent at (start_blocking w_id ∷ es) = Silent at es
Silent at (finish_blocking w_id ∷ es) = Silent at es
Silent at (wait evt ∷ es) = Silent at es
Silent at (succeed evt ∷ es) = (at evt ≡ none) × Silent at es
Silent at (exit ∷ es) = Silent at es
Silent at (abort ∷ es) = Silent at es
Silent at (raised e ∷ es) = Silent at es

-- The effects from time `now` on: the time at which the last of them was over, or `none` where the
-- process has not come that far, and the uses, those of the submitted requests included. A submitted
-- request is processed at some later time, by a worker or without one.
pub data Run (at : Times) : ℕ → List Effect → Option ℕ → List Use → Type 0 where
  stop : {now : ℕ} {es : List Effect} → Silent at es → Run at now es none []
  over : {now : ℕ} → Run at now [] (some now) []
  run_request :
      {now : ℕ} {res client_id amt stage priority : ℕ} {es : List Effect} {end : Option ℕ}
      {log : List Use} (later : ℕ)
      → now ≤ later
      → Run at later es end log
      → Run at now
          (request res client_id amt stage priority ∷ es)
          end
          (record { res = res; amt = amt; time = later } ∷ log)
  run_submit :
      {now : ℕ} {r : StageReq} {es : List Effect} {end end' : Option ℕ} {log log' : List Use}
      (w_id : Option ℕ) (start later : ℕ)
      → now ≤ start
      → now ≤ later
      → Run at start (process w_id none none r) end' log'
      → Run at later es end log
      → Run at now (submit r ∷ es) end (log' ++ log)
  run_start :
      {now : ℕ} {w_id : ℕ} {es : List Effect} {end : Option ℕ} {log : List Use}
      → Run at now es end log
      → Run at now (start_blocking w_id ∷ es) end log
  run_finish :
      {now : ℕ} {w_id : ℕ} {es : List Effect} {end : Option ℕ} {log : List Use}
      → Run at now es end log
      → Run at now (finish_blocking w_id ∷ es) end log
  run_wait :
      {now : ℕ} {evt : ℕ} {es : List Effect} {end : Option ℕ} {log : List Use} (succeeded later : ℕ)
      → at evt ≡ some succeeded
      → succeeded ≤ later
      → now ≤ later
      → Run at later es end log
      → Run at now (wait evt ∷ es) end log
  run_succeed :
      {now : ℕ} {evt : ℕ} {es : List Effect} {end : Option ℕ} {log : List Use}
      → at evt ≡ some now
      → Run at now es end log
      → Run at now (succeed evt ∷ es) end log
