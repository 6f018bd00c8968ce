-- ===== src/StageReq/Timing/Requests.antt =====
-- The run of a request: its uses, what it submits, what it waits for, and its end.
use mathlib.Core.Path.{subst}
use tam_simulation.Prelude.{
  ℕ, ◌≤◌, ◌<◌, ◌≡◌, refl, ap, inl, inr, ◌⊎◌, Bool-cases, Option, none, some, List, [], ◌∷◌, ◌++◌,
  ◌==◌, arith,
}
use tam_simulation.Dict.{Dict, lookup}
use tam_simulation.StageReq.{StageReq, stage_req, Reqs}
use tam_simulation.StageReq.Process.{
  Effect, request, submit, finish_blocking, process, submit_all, wait_all, blocking, finish,
  use_resources, use_costs, block_if_any,
}
use tam_simulation.StageReq.Timing.{
  Times, Use, Never, Silent, Run, stop, run_submit, run_start, run_succeed,
}
use tam_simulation.StageReq.Timing.Parts.{
  Silent-append, Used, Parts, run-Parts, run-le, run-use_costs, AllBy, AllBy-later, run-wait_all,
}

-- The processing of a request that no resource is enforced for, part by part.
pub use_resources-parts :
    (self : StageReq) (stage client_id priority : ℕ) (resources : Dict ℕ) (rest : List Effect)
    → use_resources self none none stage client_id priority resources rest
      ≡ use_costs stage client_id priority resources ++ rest
unfolding use_resources
use_resources-parts self stage client_id priority [] rest = refl
use_resources-parts self stage client_id priority ((res, amt) ∷ resources) rest =
    elim (Bool-cases (amt == 0)) [
      | inl zero ↦ rw zero (use_resources-parts self stage client_id priority resources rest)
      | inr some_use ↦ rw some_use (
          ap (λ es. request res client_id amt stage priority ∷ es)
            (use_resources-parts self stage client_id priority resources rest))
    ]

pub run-through :
    {at : Times} {now middle : ℕ} (xs ys : List Effect) {log : List Use}
    → Run at now (xs ++ ys) (some middle) log
    → Parts at now xs ys (some middle) log
run-through xs ys r = elim (run-Parts xs ys r) [ inl (stopped, silent) ↦ absurd (cc) | inr p ↦ p ]

run-waits :
    {at : Times} {now middle : ℕ} (evts : List ℕ) (es : List Effect) {log : List Use}
    → Run at now (wait_all evts ++ es) (some middle) log
    → AllBy at middle evts
run-waits {at} {middle = middle} evts es r =
    let p = run-through (wait_all evts) es r in
    AllBy-later at p.middle middle evts (run-le p.second) (run-wait_all evts p.first)

pub run-blocking :
    {at : Times} {now middle : ℕ} (w_id : Option ℕ) (evts : List ℕ) {log : List Use}
    → Run at now (blocking w_id evts) (some middle) log
    → AllBy at middle evts
run-blocking {at} {now} {middle} none evts r = run-waits evts [] r
run-blocking {at} {now} {middle} (some w) evts (run_start r) =
    run-waits evts (finish_blocking w ∷ []) r

pub run-finish :
    {at : Times} {now ident succeeded : ℕ} (callbacks : Reqs) {end : Option ℕ} {log : List Use}
    → Run at now (finish ident callbacks) end log
    → at ident ≡ some succeeded
    → succeeded ≡ now
run-finish callbacks (stop (never, silent)) at_ident = absurd (cc)
run-finish callbacks (run_succeed at_now r) at_ident = ground (arith, at_now, at_ident)

-- Where the event of a request has succeeded, that was after the processing began, and after all of
-- the events that it waits for.
pub run-done :
    {at : Times} {now succeeded : ℕ} (w_id : Option ℕ) (ident stage client_id priority : ℕ)
    (resources : Dict ℕ) (evts : List ℕ) (reqs callbacks : Reqs) {end : Option ℕ} {log : List Use}
    → Run at now
        (process w_id none none
          (stage_req ident stage client_id priority resources evts reqs callbacks))
        end
        log
    → at ident ≡ some succeeded
    → (now ≤ succeeded) × AllBy at succeeded evts
unfolding process
run-done {at} {now} {succeeded} w_id ident stage client_id priority resources evts reqs callbacks
      {end} {log} r at_ident =
    let self = stage_req ident stage client_id priority resources evts reqs callbacks in
    let waiting = submit_all reqs ++ blocking w_id evts in
    let split =
      use_resources-parts self stage client_id priority resources
        (waiting ++ finish ident callbacks) in
    elim (run-Parts (use_costs stage client_id priority resources)
      (waiting ++ finish ident callbacks) (subst (λ es. Run at now es end log) split r)) [
        | inl (stopped, silent) ↦
            let (never, _) = Silent-append at waiting (finish ident callbacks) silent in absurd (cc)
        | inr p ↦ elim (run-Parts waiting (finish ident callbacks) p.second) [
          | inl (stopped, (never, silent)) ↦ absurd (cc)
          | inr q ↦
              let ends = run-finish callbacks q.second at_ident in
              let b = run-through (submit_all reqs) (blocking w_id evts) q.first in
              (
                omega (arith, run-le p.first, run-le q.first, ends),
                AllBy-later at q.middle succeeded evts (omega (arith, ends))
                    (run-blocking w_id evts b.second),
              )
        ]
      ]

-- Where a request behind it succeeded, a request has been through its uses by some time, and has
-- submitted from then on.
pub record Submitting (at : Times) (w_id : Option ℕ) (ident : ℕ) (resources : Dict ℕ)
    (evts : List ℕ) (reqs callbacks : Reqs) (log : List Use) : Type 0 where
  pub since : ℕ
  pub before : List Use
  pub after : List Use
  pub end : Option ℕ
  pub run : Run at since (submit_all reqs ++ blocking w_id evts ++ finish ident callbacks) end after
  pub whole : log ≡ before ++ after
  pub uses : (res amt : ℕ) → lookup res resources ≡ some amt → 0 < amt → Used since res amt before

pub run-Submitting :
    {at : Times} {now : ℕ} (w_id : Option ℕ) (ident stage client_id priority : ℕ)
    (resources : Dict ℕ) (evts : List ℕ) (reqs callbacks : Reqs) {end : Option ℕ} {log : List Use}
    → Run at now
        (process w_id none none
          (stage_req ident stage client_id priority resources evts reqs callbacks))
        end
        log
    → Silent at (submit_all reqs ++ blocking w_id evts ++ finish ident callbacks)
      ⊎ Submitting at w_id ident resources evts reqs callbacks log
unfolding process
run-Submitting {at} {now} w_id ident stage client_id priority resources evts reqs callbacks {end}
      {log} r =
    let self = stage_req ident stage client_id priority resources evts reqs callbacks in
    let rest = submit_all reqs ++ blocking w_id evts ++ finish ident callbacks in
    let split = use_resources-parts self stage client_id priority resources rest in
    elim (run-Parts (use_costs stage client_id priority resources) rest
      (subst (λ es. Run at now es end log) split r)) [
        | inl (stopped, silent) ↦ inl silent
        | inr p ↦ inr (record {
          since = p.middle;
          before = p.before;
          after = p.after;
          end = end;
          run = p.second;
          whole = p.whole;
          uses = λ res amt has large.
              run-use_costs stage client_id priority resources res amt p.first has large;
        })
      ]

-- A request that is submitted, and the run after that.
pub record Submitted (at : Times) (now : ℕ) (r : StageReq) (es : List Effect) (end : Option ℕ)
    (log : List Use) : Type 0 where
  pub w_id : Option ℕ
  pub start : ℕ
  pub later : ℕ
  pub sub_end : Option ℕ
  pub sub_log : List Use
  pub rest_log : List Use
  pub starts : now ≤ start
  pub goes_on : now ≤ later
  pub sub : Run at start (process w_id none none r) sub_end sub_log
  pub rest : Run at later es end rest_log
  pub whole : log ≡ sub_log ++ rest_log

pub run-submit :
    {at : Times} {now : ℕ} {r : StageReq} {es : List Effect} {end : Option ℕ} {log : List Use}
    → Run at now (submit r ∷ es) end log
    → ((end ≡ none) × Never at r × Silent at es) ⊎ Submitted at now r es end log
run-submit (stop (never, silent)) = inl (refl, never, silent)
run-submit
      (run_submit {end' = sub_end} {log = rest_log} {log' = sub_log} w_id start later le le' sub
        rest) =
    inr (record {
      w_id = w_id;
      start = start;
      later = later;
      sub_end = sub_end;
      sub_log = sub_log;
      rest_log = rest_log;
      starts = le;
      goes_on = le';
      sub = sub;
      rest = rest;
      whole = refl;
    })

pub run-Submitted :
    {at : Times} {now middle : ℕ} {r : StageReq} {es : List Effect} {log : List Use}
    → Run at now (submit r ∷ es) (some middle) log
    → Submitted at now r es (some middle) log
run-Submitted {middle = middle} r = elim (run-submit r) [
  | inl (stopped, never, silent) ↦ absurd (cc)
  | inr t ↦ t
]

pub run-block_if_any :
    {at : Times} {now middle : ℕ} (w_id : Option ℕ) (evts : List ℕ) {log : List Use}
    → Run at now (block_if_any w_id evts) (some middle) log
    → AllBy at middle evts
run-block_if_any w_id [] r = tt
run-block_if_any w_id (evt ∷ evts) r = run-blocking w_id (evt ∷ evts) r
