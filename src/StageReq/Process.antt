-- ===== src/StageReq/Process.antt =====
-- stage_req.py, the processing of a request: StageReq.process, StageReq.process_no_res,
-- BlkStageReq.process and BlkStageReq.process_no_res.
use tam_simulation.Prelude.{
  ℕ, Bool, true, false, Option, none, some, List, [], ◌∷◌, ◌++◌, ◌==◌, is_empty, if◌then◌else◌,
}
use tam_simulation.Result.{Error, assertion_error, key_error, attribute_error}
use tam_simulation.Dict.{Dict, lookup}
use tam_simulation.StageReq.{
  StageReq, stage_req, blk_stage_req, update_mem_store_req, Reqs, no_reqs, req, Profiles,
  no_profiles, profile,
}

-- What the process yields or calls. `exit` is env.exit(0), `abort` is env.exit(-1), and `raised` an
-- exception.
pub data Effect : Type 0 where
  request : (res client_id amt stage priority : ℕ) → Effect
  submit : StageReq → Effect
  start_blocking : (w_id : ℕ) → Effect
  finish_blocking : (w_id : ℕ) → Effect
  wait : (evt : ℕ) → Effect
  succeed : (evt : ℕ) → Effect
  exit : Effect
  abort : Effect
  raised : Error → Effect

abbrev pub is_res : Option ℕ → ℕ → Bool
is_res none res = false
is_res (some enforce_res) res = res == enforce_res

abbrev pub submit_all : Reqs → List Effect
submit_all no_reqs = []
submit_all (req r rs) = submit r ∷ submit_all rs

abbrev pub wait_all : List ℕ → List Effect
wait_all [] = []
wait_all (evt ∷ evts) = wait evt ∷ wait_all evts

-- `if w_id is not None`
abbrev pub at_worker : (ℕ → Effect) → Option ℕ → List Effect
at_worker effect none = []
at_worker effect (some w_id) = effect w_id ∷ []

abbrev pub blocking : Option ℕ → List ℕ → List Effect
blocking w_id evts =
    at_worker start_blocking w_id ++ wait_all evts ++ at_worker finish_blocking w_id

-- self.done.succeed(), with the callbacks of `done` after it.
abbrev pub finish : ℕ → Reqs → List Effect
finish ident callbacks = succeed ident ∷ submit_all callbacks

-- `predict_resource_profile` is an attribute that only a request in a stage with speculation has.
abbrev pub may_use : StageReq → Option (Dict ℕ) → ℕ → List Effect → List Effect
may_use self none res granted = raised assertion_error ∷ []
may_use self (some predict_resource_profile) res granted =
    elim (lookup res predict_resource_profile) [
      | none ↦ raised key_error ∷ []
      | some predicted ↦ if predicted == 0 then submit self ∷ exit ∷ [] else granted
    ]

-- The loop over the resources in StageReq.process; `rest` is the code after it.
unfoldable pub use_resources :
    (self : StageReq) (predict : Option (Dict ℕ)) (enforce_res : Option ℕ)
    (stage client_id priority : ℕ)
    → Dict ℕ
    → List Effect
    → List Effect
use_resources self predict enforce_res stage client_id priority [] rest = rest
use_resources self predict enforce_res stage client_id priority ((res, amt) ∷ resources) rest =
    let after = use_resources self predict enforce_res stage client_id priority resources rest in
    let granted = request res client_id amt stage priority ∷ after in
    if amt == 0
    then after
    else if is_res enforce_res res
    then may_use self predict res granted
    else granted

-- The loop in StageReq.process_no_res: what it yields, and `has_enforce_res`.
unfoldable pub use_other_resources :
    (enforce_res : Option ℕ) (stage client_id priority : ℕ) → Dict ℕ → List Effect × Bool
use_other_resources enforce_res stage client_id priority [] = ([], false)
use_other_resources enforce_res stage client_id priority ((res, amt) ∷ resources) =
    let (after, has_enforce_res) =
      use_other_resources enforce_res stage client_id priority resources in
    if amt == 0
    then (after, has_enforce_res)
    else if is_res enforce_res res
    then (after, true)
    else (request res client_id amt stage priority ∷ after, has_enforce_res)

-- The loops over `cur_res_cost_list` in BlkStageReq.process.
abbrev pub use_costs : (stage client_id priority : ℕ) → Dict ℕ → List Effect
use_costs stage client_id priority [] = []
use_costs stage client_id priority ((res, amt) ∷ costs) =
    let after = use_costs stage client_id priority costs in
    if amt == 0 then after else request res client_id amt stage priority ∷ after

abbrev pub use_cost_list : (stage client_id priority : ℕ) → List (Dict ℕ) → List Effect
use_cost_list stage client_id priority [] = []
use_cost_list stage client_id priority (costs ∷ cs) =
    use_costs stage client_id priority costs ++ use_cost_list stage client_id priority cs

-- `if len(cur_blk_evt_list) != 0`
abbrev pub block_if_any : Option ℕ → List ℕ → List Effect
block_if_any w_id evts = if is_empty evts then [] else blocking w_id evts

abbrev pub process_profiles :
    (stage client_id priority : ℕ) → Option ℕ → Profiles → List Effect → List Effect
process_profiles stage client_id priority w_id no_profiles rest = rest
process_profiles stage client_id priority w_id (profile costs reqs evts ps) rest =
    use_cost_list stage client_id priority costs
    ++ submit_all reqs
    ++ block_if_any w_id evts
    ++ process_profiles stage client_id priority w_id ps rest

-- process. UpdateMemStoreReq has no such method.
unfoldable pub process : Option ℕ → Option ℕ → Option (Dict ℕ) → StageReq → List Effect
process w_id enforce_res predict
      (stage_req ident stage client_id priority resources evts reqs callbacks) =
    use_resources (stage_req ident stage client_id priority resources evts reqs callbacks) predict
      enforce_res stage client_id priority resources
      (submit_all reqs ++ blocking w_id evts ++ finish ident callbacks)
process w_id enforce_res predict
      (blk_stage_req ident stage client_id priority res_blk_profile_list callbacks) =
    process_profiles stage client_id priority w_id res_blk_profile_list (finish ident callbacks)
process w_id enforce_res predict (update_mem_store_req ident stage client_id change_size) =
    raised attribute_error ∷ []

-- The inner loop of BlkStageReq.process_no_res: what is used before the first use of
-- `enforce_res`, and whether there is one.
abbrev pub use_until :
    (enforce_res : Option ℕ) (stage client_id priority : ℕ) → Dict ℕ → List Effect × Bool
use_until enforce_res stage client_id priority [] = ([], false)
use_until enforce_res stage client_id priority ((res, amt) ∷ costs) =
    let (after, use_enforce_res) = use_until enforce_res stage client_id priority costs in
    if amt == 0
    then (after, use_enforce_res)
    else if is_res enforce_res res
    then ([], true)
    else (request res client_id amt stage priority ∷ after, use_enforce_res)

abbrev pub use_list_until :
    (enforce_res : Option ℕ) (stage client_id priority : ℕ)
    → List (Dict ℕ)
    → List Effect
    → List Effect
use_list_until enforce_res stage client_id priority [] rest = rest
use_list_until enforce_res stage client_id priority (costs ∷ cs) rest =
    let after = use_list_until enforce_res stage client_id priority cs rest in
    let (uses, use_enforce_res) = use_until enforce_res stage client_id priority costs in
    uses ++ (if use_enforce_res then abort ∷ [] else after)

abbrev pub process_profiles_no_res :
    (stage client_id priority : ℕ) → Option ℕ → Option ℕ → Profiles → List Effect → List Effect
process_profiles_no_res stage client_id priority w_id enforce_res no_profiles rest = rest
process_profiles_no_res stage client_id priority w_id enforce_res (profile costs reqs evts ps)
      rest =
    let after = process_profiles_no_res stage client_id priority w_id enforce_res ps rest in
    use_list_until enforce_res stage client_id priority costs
      (submit_all reqs ++ block_if_any w_id evts ++ after)

-- process_no_res, which ends in env.exit(0) where it does not abort.
unfoldable pub process_no_res : Option ℕ → Option ℕ → StageReq → List Effect
process_no_res w_id enforce_res
      (stage_req ident stage client_id priority resources evts reqs callbacks) =
    let (uses, has_enforce_res) =
      use_other_resources enforce_res stage client_id priority resources in
    uses
    ++ (if has_enforce_res
        then abort ∷ []
        else submit_all reqs ++ blocking w_id evts ++ finish ident callbacks ++ exit ∷ [])
process_no_res w_id enforce_res
      (blk_stage_req ident stage client_id priority res_blk_profile_list callbacks) =
    process_profiles_no_res stage client_id priority w_id enforce_res res_blk_profile_list
      (finish ident callbacks ++ exit ∷ [])
process_no_res w_id enforce_res (update_mem_store_req ident stage client_id change_size) =
    raised attribute_error ∷ []
