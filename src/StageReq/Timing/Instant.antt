-- ===== src/StageReq/Timing/Instant.antt =====
-- A run in which every use ends at once and every event has succeeded at time 0.
use mathlib.Core.Path.{subst}
use mathlib.Core.List.{append_assoc}
use tam_simulation.Prelude.{
  ℕ, refl, sym, inl, inr, Bool-cases, Option, none, some, List, [], ◌∷◌, ◌++◌, ◌==◌, arith,
}
use tam_simulation.Dict.{Dict}
use tam_simulation.StageReq.{
  StageReq, stage_req, blk_stage_req, update_mem_store_req, Reqs, no_reqs, req, Profiles,
  no_profiles, profile,
}
use tam_simulation.StageReq.Process.{
  Effect, request, submit, succeed, process, submit_all, wait_all, blocking, finish, use_costs,
  use_cost_list, block_if_any, process_profiles,
}
use tam_simulation.StageReq.Timing.{
  Times, Use, Run, stop, over, run_request, run_submit, run_wait, run_succeed,
}
use tam_simulation.StageReq.Timing.Requests.{use_resources-parts}

abbrev pub at_once : Times
at_once i = some 0

pub record Instant (es : List Effect) : Type 0 where
  pub end : Option ℕ
  pub log : List Use
  pub run : Run at_once 0 es end log

instant-over : Instant []
instant-over = record { end = some 0; log = []; run = over }

instant-request :
    (res client_id amt stage priority : ℕ) (es : List Effect)
    → Instant es
    → Instant (request res client_id amt stage priority ∷ es)
instant-request res client_id amt stage priority es i = record {
  end = i.end;
  log = record { res = res; amt = amt; time = 0 } ∷ i.log;
  run = run_request 0 (omega arith) i.run;
}

instant-submit :
    (r : StageReq) (es : List Effect)
    → Instant (process none none none r)
    → Instant es
    → Instant (submit r ∷ es)
instant-submit r es sub i = record {
  end = i.end;
  log = sub.log ++ i.log;
  run = run_submit none 0 0 (omega arith) (omega arith) sub.run i.run;
}

instant-waits : (evts : List ℕ) (es : List Effect) → Instant es → Instant (wait_all evts ++ es)
instant-waits [] es i = i
instant-waits (evt ∷ evts) es i =
    let rest = instant-waits evts es i in
    record {
      end = rest.end;
      log = rest.log;
      run = run_wait 0 0 refl (omega arith) (omega arith) rest.run;
    }

instant-succeed : (ident : ℕ) (es : List Effect) → Instant es → Instant (succeed ident ∷ es)
instant-succeed ident es i = record { end = i.end; log = i.log; run = run_succeed refl i.run }

instant-uses :
    (stage client_id priority : ℕ) (costs : Dict ℕ) (es : List Effect)
    → Instant es
    → Instant (use_costs stage client_id priority costs ++ es)
instant-uses stage client_id priority [] es i = i
instant-uses stage client_id priority ((res, amt) ∷ costs) es i = elim (Bool-cases (amt == 0)) [
  | inl zero ↦ rw zero (instant-uses stage client_id priority costs es i)
  | inr some_use ↦ rw some_use (
      instant-request res client_id amt stage priority _
        (instant-uses stage client_id priority costs es i))
]

regroup : (xs ys zs : List Effect) → Instant (xs ++ (ys ++ zs)) → Instant (xs ++ ys ++ zs)
regroup xs ys zs i = subst Instant (sym (append_assoc xs ys zs)) i

instant-cost_list :
    (stage client_id priority : ℕ) (cs : List (Dict ℕ)) (es : List Effect)
    → Instant es
    → Instant (use_cost_list stage client_id priority cs ++ es)
instant-cost_list stage client_id priority [] es i = i
instant-cost_list stage client_id priority (costs ∷ cs) es i =
    regroup (use_costs stage client_id priority costs) (use_cost_list stage client_id priority cs)
      es
      (instant-uses stage client_id priority costs _
        (instant-cost_list stage client_id priority cs es i))

instant-blocking :
    (evts : List ℕ) (es : List Effect) → Instant es → Instant (blocking none evts ++ es)
instant-blocking evts es i = regroup (wait_all evts) [] es (instant-waits evts es i)

instant-block_if_any :
    (evts : List ℕ) (es : List Effect) → Instant es → Instant (block_if_any none evts ++ es)
instant-block_if_any [] es i = i
instant-block_if_any (evt ∷ evts) es i = instant-blocking (evt ∷ evts) es i

mutual
  unfolding process

  -- Every request can be processed, with all of those behind it.
  pub instant-process : (r : StageReq) → Instant (process none none none r)
  instant-process (stage_req ident stage client_id priority resources evts reqs callbacks) =
      let self = stage_req ident stage client_id priority resources evts reqs callbacks in
      let rest = submit_all reqs ++ blocking none evts ++ finish ident callbacks in
      let finished = instant-succeed ident (submit_all callbacks) (instant-reqs callbacks) in
      subst Instant (sym (use_resources-parts self stage client_id priority resources rest)) (
        instant-uses stage client_id priority resources rest (
          regroup (submit_all reqs) (blocking none evts) (finish ident callbacks) (
            instant-submits reqs (blocking none evts ++ finish ident callbacks)
              (instant-blocking evts (finish ident callbacks) finished))))
  instant-process (blk_stage_req ident stage client_id priority res_blk_profile_list callbacks) =
      instant-profiles stage client_id priority res_blk_profile_list (finish ident callbacks)
        (instant-succeed ident (submit_all callbacks) (instant-reqs callbacks))
  instant-process (update_mem_store_req ident stage client_id change_size) = record {
    end = none;
    log = [];
    run = stop tt;
  }

  instant-reqs : (rs : Reqs) → Instant (submit_all rs)
  instant-reqs no_reqs = instant-over
  instant-reqs (req r rs) = instant-submit r (submit_all rs) (instant-process r) (instant-reqs rs)

  instant-submits : (rs : Reqs) (es : List Effect) → Instant es → Instant (submit_all rs ++ es)
  instant-submits no_reqs es i = i
  instant-submits (req r rs) es i =
      instant-submit r (submit_all rs ++ es) (instant-process r) (instant-submits rs es i)

  instant-profiles :
      (stage client_id priority : ℕ) (ps : Profiles) (es : List Effect)
      → Instant es
      → Instant (process_profiles stage client_id priority none ps es)
  instant-profiles stage client_id priority no_profiles es i = i
  instant-profiles stage client_id priority (profile costs reqs evts ps) es i =
      let rest = process_profiles stage client_id priority none ps es in
      regroup (use_cost_list stage client_id priority costs ++ submit_all reqs)
        (block_if_any none evts) rest
        (regroup (use_cost_list stage client_id priority costs) (submit_all reqs)
          (block_if_any none evts ++ rest)
          (instant-cost_list stage client_id priority costs _ (
            instant-submits reqs _ (
              instant-block_if_any evts rest (instant-profiles stage client_id priority ps es i)))))
