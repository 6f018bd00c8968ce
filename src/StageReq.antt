-- ===== src/StageReq.antt =====
-- stage_req.py: the requests that stages process, as trees of the requests that they submit
-- downstream, and what the processing of one does, as a list of effects. A request's `done` event
-- is named by the request's `ident`, and an event that is waited for by that of its request. The
-- order of a dictionary's entries is the order of its iteration.
pub mod Process
pub mod Totals
pub mod Timing
pub mod Speculative
pub mod Aborting
use tam_simulation.Prelude.{ℕ, ◌+◌, List, [], ◌∷◌, ◌++◌}
use tam_simulation.Result.{Result, ok, err, attribute_error, ◌>>=◌}
use tam_simulation.Dict.{Dict, lookup_or}

-- The fields of StageReq that its processing reads, and the callbacks of its `done` that submit a
-- request (`done.callbacks.append(lambda evt: env.process(req.wait_submit()))`).
-- `blk_stage_req` is a BlkStageReq, with the ResBlockingProfiles of its `res_blk_profile_list`.
-- `update_mem_store_req` is hbase/hbase.py's UpdateMemStoreReq, which has no processing of its own.
mutual
  pub data StageReq : Type 0 where
    stage_req :
        (ident stage client_id priority : ℕ) (resource_profile : Dict ℕ) (blocking_evts : List ℕ)
        (downstream_reqs callbacks : Reqs)
        → StageReq
    blk_stage_req :
        (ident stage client_id priority : ℕ) (res_blk_profile_list : Profiles) (callbacks : Reqs)
        → StageReq
    update_mem_store_req : (ident stage client_id change_size : ℕ) → StageReq

  pub data Reqs : Type 0 where
    no_reqs : Reqs
    req : StageReq → Reqs → Reqs

  pub data Profiles : Type 0 where
    no_profiles : Profiles
    profile :
        (res_cost_list : List (Dict ℕ)) (downstream_req_list : Reqs) (evt_list : List ℕ)
        → Profiles
        → Profiles

abbrev pub done : StageReq → ℕ
done (stage_req ident stage client_id priority resources evts reqs callbacks) = ident
done (blk_stage_req ident stage client_id priority res_blk_profile_list callbacks) = ident
done (update_mem_store_req ident stage client_id change_size) = ident

-- add_downstream_req, for StageReq and ResBlockingProfile: list.append.
abbrev pub add_req : StageReq → Reqs → Reqs
add_req r no_reqs = req r no_reqs
add_req r (req s rs) = req s (add_req r rs)

-- append_res_blk_profile
abbrev pub append_res_blk_profile : List (Dict ℕ) → Reqs → List ℕ → Profiles → Profiles
append_res_blk_profile costs reqs evts no_profiles = profile costs reqs evts no_profiles
append_res_blk_profile costs reqs evts (profile costs' reqs' evts' ps) =
    profile costs' reqs' evts' (append_res_blk_profile costs reqs evts ps)

-- all_done_list. A BlkStageReq's own `downstream_reqs` stay empty, and UpdateMemStoreReq has no
-- such method.
unfoldable mutual
  pub all_done_list : StageReq → Result (List ℕ)
  all_done_list (stage_req ident stage client_id priority resources evts reqs callbacks) = do
    rest ← done_lists reqs
    ok (ident ∷ rest)
  all_done_list (blk_stage_req ident stage client_id priority res_blk_profile_list callbacks) =
      ok (ident ∷ [])
  all_done_list (update_mem_store_req ident stage client_id change_size) = err attribute_error

  pub done_lists : Reqs → Result (List ℕ)
  done_lists no_reqs = ok []
  done_lists (req r rs) = do
    req_done_list ← all_done_list r
    rest ← done_lists rs
    ok (req_done_list ++ rest)

-- get_all_dependent_reqs
unfoldable mutual
  pub get_all_dependent_reqs : StageReq → Result (List StageReq)
  get_all_dependent_reqs (stage_req ident stage client_id priority resources evts reqs callbacks) =
      do
        rest ← dependent_reqs reqs
        ok (stage_req ident stage client_id priority resources evts reqs callbacks ∷ rest)
  get_all_dependent_reqs
        (blk_stage_req ident stage client_id priority res_blk_profile_list callbacks) =
      ok (blk_stage_req ident stage client_id priority res_blk_profile_list callbacks ∷ [])
  get_all_dependent_reqs (update_mem_store_req ident stage client_id change_size) =
      err attribute_error

  pub dependent_reqs : Reqs → Result (List StageReq)
  dependent_reqs no_reqs = ok []
  dependent_reqs (req r rs) = do
    d_req_list ← get_all_dependent_reqs r
    rest ← dependent_reqs rs
    ok (d_req_list ++ rest)
