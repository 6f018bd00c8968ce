-- ===== src/StageReq/Totals.antt =====
-- stage_req.py: how much of a resource a request asks for, and how much its processing takes. A
-- resource's name contains a part or not; `named` is that test.
use tam_simulation.Prelude.{
  ℕ, ◌+◌, ◌≤◌, ◌≡◌, refl, Bool, Option, none, some, List, [], ◌∷◌, ◌++◌, ◌==◌, arith, count,
  if◌then◌else◌,
}
use tam_simulation.Result.{Result, ok, err, attribute_error, ok-injective}
use tam_simulation.Dict.{Dict, lookup_or, keys}
use tam_simulation.StageReq.{
  StageReq, stage_req, blk_stage_req, update_mem_store_req, Reqs, no_reqs, req, Profiles,
  no_profiles, profile,
}
use tam_simulation.StageReq.Process.{
  Effect, request, submit, start_blocking, finish_blocking, wait, succeed, exit, abort, raised,
  submit_all, wait_all, blocking, finish, use_resources, use_costs, use_cost_list, block_if_any,
  process_profiles, process,
}

-- The entries of one dictionary, and of a list of them, for the resources that a test accepts.
abbrev pub sum_costs : (ℕ → Bool) → Dict ℕ → ℕ
sum_costs test [] = 0
sum_costs test ((res, amt) ∷ costs) =
    if test res then amt + sum_costs test costs else sum_costs test costs

abbrev pub sum_cost_list : (ℕ → Bool) → List (Dict ℕ) → ℕ
sum_cost_list test [] = 0
sum_cost_list test (costs ∷ cs) = sum_costs test costs + sum_cost_list test cs

abbrev pub sum_profiles : (ℕ → Bool) → Profiles → ℕ
sum_profiles test no_profiles = 0
sum_profiles test (profile costs reqs evts ps) = sum_cost_list test costs + sum_profiles test ps

-- get_res_consumption, of StageReq and BlkStageReq. UpdateMemStoreReq has no such method.
unfoldable pub get_res_consumption : ℕ → StageReq → Result ℕ
get_res_consumption res (stage_req ident stage client_id priority resources evts reqs callbacks) =
    ok (lookup_or 0 res resources)
get_res_consumption res
      (blk_stage_req ident stage client_id priority res_blk_profile_list callbacks) =
    ok (sum_profiles (λ r. r == res) res_blk_profile_list)
get_res_consumption res (update_mem_store_req ident stage client_id change_size) =
    err attribute_error

-- get_one_type_res, of BlkStageReq alone.
unfoldable pub get_one_type_res : (named : ℕ → Bool) → StageReq → Result ℕ
get_one_type_res named (stage_req ident stage client_id priority resources evts reqs callbacks) =
    err attribute_error
get_one_type_res named
      (blk_stage_req ident stage client_id priority res_blk_profile_list callbacks) =
    ok (sum_profiles named res_blk_profile_list)
get_one_type_res named (update_mem_store_req ident stage client_id change_size) =
    err attribute_error

-- How much of the resources that a test accepts a list of effects requests.
abbrev pub used : (ℕ → Bool) → List Effect → ℕ
used test [] = 0
used test (request res client_id amt stage priority ∷ es) =
    if test res then amt + used test es else used test es
used test (submit r ∷ es) = used test es
used test (start_blocking w_id ∷ es) = used test es
used test (finish_blocking w_id ∷ es) = used test es
used test (wait evt ∷ es) = used test es
used test (succeed evt ∷ es) = used test es
used test (exit ∷ es) = used test es
used test (abort ∷ es) = used test es
used test (raised e ∷ es) = used test es

pub used-append :
    (test : ℕ → Bool) (xs ys : List Effect) → used test (xs ++ ys) ≡ used test xs + used test ys
used-append test [] ys = omega arith
used-append test (request res client_id amt stage priority ∷ xs) ys =
    ground (arith, used-append test xs ys)
used-append test (submit r ∷ xs) ys = used-append test xs ys
used-append test (start_blocking w_id ∷ xs) ys = used-append test xs ys
used-append test (finish_blocking w_id ∷ xs) ys = used-append test xs ys
used-append test (wait evt ∷ xs) ys = used-append test xs ys
used-append test (succeed evt ∷ xs) ys = used-append test xs ys
used-append test (exit ∷ xs) ys = used-append test xs ys
used-append test (abort ∷ xs) ys = used-append test xs ys
used-append test (raised e ∷ xs) ys = used-append test xs ys

pub used-submit_all : (test : ℕ → Bool) (rs : Reqs) → used test (submit_all rs) ≡ 0
used-submit_all test no_reqs = refl
used-submit_all test (req r rs) = used-submit_all test rs

used-wait_all :
    (test : ℕ → Bool) (evts : List ℕ) (es : List Effect)
    → used test (wait_all evts ++ es) ≡ used test es
used-wait_all test [] es = refl
used-wait_all test (evt ∷ evts) es = used-wait_all test evts es

pub used-blocking :
    (test : ℕ → Bool) (w_id : Option ℕ) (evts : List ℕ) → used test (blocking w_id evts) ≡ 0
used-blocking test none evts = used-wait_all test evts []
used-blocking test (some w) evts = used-wait_all test evts (finish_blocking w ∷ [])

pub used-block_if_any :
    (test : ℕ → Bool) (w_id : Option ℕ) (evts : List ℕ) → used test (block_if_any w_id evts) ≡ 0
used-block_if_any test w_id [] = refl
used-block_if_any test w_id (evt ∷ evts) = used-blocking test w_id (evt ∷ evts)

pub used-finish :
    (test : ℕ → Bool) (ident : ℕ) (callbacks : Reqs) → used test (finish ident callbacks) ≡ 0
used-finish test ident callbacks = used-submit_all test callbacks

-- What follows the uses of a request takes nothing.
used-rest :
    (test : ℕ → Bool) (w_id : Option ℕ) (evts : List ℕ) (reqs : Reqs) (es : List Effect)
    → used test (submit_all reqs ++ blocking w_id evts ++ es) ≡ used test es
used-rest test w_id evts reqs es = omega (
  arith,
  used-append test (submit_all reqs ++ blocking w_id evts) es,
  used-append test (submit_all reqs) (blocking w_id evts),
  used-submit_all test reqs,
  used-blocking test w_id evts,
)

used-use_resources :
    (test : ℕ → Bool) (self : StageReq) (predict : Option (Dict ℕ)) (stage client_id priority : ℕ)
    (resources : Dict ℕ) (rest : List Effect)
    → used test (use_resources self predict none stage client_id priority resources rest)
      ≡ sum_costs test resources + used test rest
unfolding use_resources
used-use_resources test self predict stage client_id priority [] rest = omega arith
used-use_resources test self predict stage client_id priority ((res, amt) ∷ resources) rest =
    ground (arith, used-use_resources test self predict stage client_id priority resources rest)

used-use_costs :
    (test : ℕ → Bool) (stage client_id priority : ℕ) (costs : Dict ℕ)
    → used test (use_costs stage client_id priority costs) ≡ sum_costs test costs
used-use_costs test stage client_id priority [] = refl
used-use_costs test stage client_id priority ((res, amt) ∷ costs) =
    ground (arith, used-use_costs test stage client_id priority costs)

used-use_cost_list :
    (test : ℕ → Bool) (stage client_id priority : ℕ) (cs : List (Dict ℕ))
    → used test (use_cost_list stage client_id priority cs) ≡ sum_cost_list test cs
used-use_cost_list test stage client_id priority [] = refl
used-use_cost_list test stage client_id priority (costs ∷ cs) = omega (
  arith,
  used-append test (use_costs stage client_id priority costs)
      (use_cost_list stage client_id priority cs),
  used-use_costs test stage client_id priority costs,
  used-use_cost_list test stage client_id priority cs,
)

used-process_profiles :
    (test : ℕ → Bool) (stage client_id priority : ℕ) (w_id : Option ℕ) (ps : Profiles)
    (rest : List Effect)
    → used test (process_profiles stage client_id priority w_id ps rest)
      ≡ sum_profiles test ps + used test rest
used-process_profiles test stage client_id priority w_id no_profiles rest = omega arith
used-process_profiles test stage client_id priority w_id (profile costs reqs evts ps) rest =
    let after = process_profiles stage client_id priority w_id ps rest in
    omega (
      arith,
      used-append test
          (use_cost_list stage client_id priority costs
            ++ submit_all reqs
            ++ block_if_any w_id evts)
          after,
      used-append test (use_cost_list stage client_id priority costs ++ submit_all reqs)
          (block_if_any w_id evts),
      used-append test (use_cost_list stage client_id priority costs) (submit_all reqs),
      used-use_cost_list test stage client_id priority costs,
      used-submit_all test reqs,
      used-block_if_any test w_id evts,
      used-process_profiles test stage client_id priority w_id ps rest,
    )

-- A dictionary has a key once.
sum_costs-absent :
    (res : ℕ) (resources : Dict ℕ)
    → count res (keys resources) ≡ 0
    → sum_costs (λ r. r == res) resources ≡ 0
sum_costs-absent res [] absent = refl
sum_costs-absent res ((r, amt) ∷ resources) absent =
    ground (arith, absent, sum_costs-absent res resources)

pub sum_costs-lookup_or :
    (res : ℕ) (resources : Dict ℕ)
    → count res (keys resources) ≤ 1
    → sum_costs (λ r. r == res) resources ≡ lookup_or 0 res resources
sum_costs-lookup_or res [] once = refl
sum_costs-lookup_or res ((r, amt) ∷ resources) once =
    ground (arith, once, sum_costs-lookup_or res resources, sum_costs-absent res resources)

abbrev pub HasOnce : ℕ → StageReq → Type 0
HasOnce res (stage_req ident stage client_id priority resources evts reqs callbacks) =
    count res (keys resources) ≤ 1
HasOnce res (blk_stage_req ident stage client_id priority res_blk_profile_list callbacks) = Unit
HasOnce res (update_mem_store_req ident stage client_id change_size) = Unit

-- The processing of a request, with no resource enforced, requests of each resource exactly what
-- `get_res_consumption` returns for it.
pub used-process :
    (res : ℕ) (w_id : Option ℕ) (predict : Option (Dict ℕ)) (r : StageReq) (n : ℕ)
    → HasOnce res r
    → get_res_consumption res r ≡ ok n
    → used (λ s. s == res) (process w_id none predict r) ≡ n
unfolding get_res_consumption process
used-process res w_id predict
      (stage_req ident stage client_id priority resources evts reqs callbacks) n once total =
    let self = stage_req ident stage client_id priority resources evts reqs callbacks in
    let test : ℕ → Bool = λ s. s == res in
    omega (
      arith,
      used-use_resources test self predict stage client_id priority resources
          (submit_all reqs ++ blocking w_id evts ++ finish ident callbacks),
      used-rest test w_id evts reqs (finish ident callbacks),
      used-finish test ident callbacks,
      sum_costs-lookup_or res resources once,
      ok-injective total,
    )
used-process res w_id predict (blk_stage_req ident stage client_id priority ps callbacks) n once
      total =
    let test : ℕ → Bool = λ s. s == res in
    omega (
      arith,
      used-process_profiles test stage client_id priority w_id ps (finish ident callbacks),
      used-finish test ident callbacks,
      ok-injective total,
    )
used-process res w_id predict (update_mem_store_req ident stage client_id change_size) n once
      total =
    absurd (cc)
