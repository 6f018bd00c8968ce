-- ===== src/StageReq/Timing/Parts.antt =====
-- The parts of a run: uses, submissions and waits, each before the next.
use mathlib.Core.Path.{subst}
use mathlib.Core.List.{append_assoc}
use tam_simulation.Prelude.{
  ℕ, ◌≤◌, ◌<◌, ◌≡◌, refl, sym, ◌∙◌, ap, inl, inr, ◌⊎◌, Bool, Bool-cases, Option, none, some, List,
  [], ◌∷◌, ◌++◌, ◌==◌, arith, if◌then◌else◌,
}
use tam_simulation.Dict.{Dict, lookup}
use tam_simulation.StageReq.Process.{
  Effect, request, submit, start_blocking, finish_blocking, wait, succeed, exit, abort, raised,
  wait_all, use_costs,
}
use tam_simulation.StageReq.Timing.{
  Times, Use, Silent, Run, stop, over, run_request, run_submit, run_start, run_finish, run_wait,
  run_succeed,
}

pub Silent-append : (at : Times) (xs ys : List Effect) → Silent at (xs ++ ys) → Silent at ys
Silent-append at [] ys h = h
Silent-append at (request res client_id amt stage priority ∷ xs) ys h = Silent-append at xs ys h
Silent-append at (submit r ∷ xs) ys (never, h) = Silent-append at xs ys h
Silent-append at (start_blocking w_id ∷ xs) ys h = Silent-append at xs ys h
Silent-append at (finish_blocking w_id ∷ xs) ys h = Silent-append at xs ys h
Silent-append at (wait evt ∷ xs) ys h = Silent-append at xs ys h
Silent-append at (succeed evt ∷ xs) ys (never, h) = Silent-append at xs ys h
Silent-append at (exit ∷ xs) ys h = Silent-append at xs ys h
Silent-append at (abort ∷ xs) ys h = Silent-append at xs ys h
Silent-append at (raised e ∷ xs) ys h = Silent-append at xs ys h

-- A use in the log, over by a given time.
abbrev pub Used : (by res amt : ℕ) → List Use → Type 0
Used by res amt [] = ⊥
Used by res amt (u ∷ log) = ((u.res ≡ res) × (u.amt ≡ amt) × (u.time ≤ by)) ⊎ Used by res amt log

pub Used-left :
    (by res amt : ℕ) (xs ys : List Use) → Used by res amt xs → Used by res amt (xs ++ ys)
Used-left by res amt [] ys h = absurd h
Used-left by res amt (u ∷ xs) ys (inl here) = inl here
Used-left by res amt (u ∷ xs) ys (inr there) = inr (Used-left by res amt xs ys there)

pub Used-right :
    (by res amt : ℕ) (xs ys : List Use) → Used by res amt ys → Used by res amt (xs ++ ys)
Used-right by res amt [] ys h = h
Used-right by res amt (u ∷ xs) ys h = inr (Used-right by res amt xs ys h)

pub Used-later :
    (by later res amt : ℕ) (xs : List Use) → by ≤ later → Used by res amt xs → Used later res amt xs
Used-later by later res amt [] le h = absurd h
Used-later by later res amt (u ∷ xs) le (inl (r, a, t)) = inl (r, a, omega (arith, t, le))
Used-later by later res amt (u ∷ xs) le (inr there) = inr (Used-later by later res amt xs le there)

-- A run of two parts either never reaches the second, or is over with the first at some time and
-- runs the second from then on.
pub record Parts (at : Times) (now : ℕ) (xs ys : List Effect) (end : Option ℕ) (log : List Use)
    : Type 0 where
  pub middle : ℕ
  pub before : List Use
  pub after : List Use
  pub first : Run at now xs (some middle) before
  pub second : Run at middle ys end after
  pub whole : log ≡ before ++ after

pub run-Parts :
    {at : Times} {now : ℕ} (xs ys : List Effect) {end : Option ℕ} {log : List Use}
    → Run at now (xs ++ ys) end log
    → ((end ≡ none) × Silent at ys) ⊎ Parts at now xs ys end log
run-Parts {at} {now} [] ys {log = log} r =
    inr (record { middle = now; before = []; after = log; first = over; second = r; whole = refl })
run-Parts {at} xs ys (stop silent) = inl (refl, Silent-append at xs ys silent)
run-Parts (request res client_id amt stage priority ∷ xs) ys (run_request later le r) =
    elim (run-Parts xs ys r) [
      | inl silent ↦ inl silent
      | inr p ↦ inr (record {
        middle = p.middle;
        before = record { res = res; amt = amt; time = later } ∷ p.before;
        after = p.after;
        first = run_request later le p.first;
        second = p.second;
        whole = ap (λ log. record { res = res; amt = amt; time = later } ∷ log) p.whole;
      })
    ]
run-Parts (submit r ∷ xs) ys (run_submit {log = log} {log'} w_id start later le le' sub rest) =
    elim (run-Parts xs ys rest) [
      | inl silent ↦ inl silent
      | inr p ↦ inr (record {
        middle = p.middle;
        before = log' ++ p.before;
        after = p.after;
        first = run_submit w_id start later le le' sub p.first;
        second = p.second;
        whole = ap (λ l. log' ++ l) p.whole ∙ sym (append_assoc log' p.before p.after);
      })
    ]
run-Parts (start_blocking w_id ∷ xs) ys (run_start r) = elim (run-Parts xs ys r) [
  | inl silent ↦ inl silent
  | inr p ↦ inr (record {
    middle = p.middle;
    before = p.before;
    after = p.after;
    first = run_start p.first;
    second = p.second;
    whole = p.whole;
  })
]
run-Parts (finish_blocking w_id ∷ xs) ys (run_finish r) = elim (run-Parts xs ys r) [
  | inl silent ↦ inl silent
  | inr p ↦ inr (record {
    middle = p.middle;
    before = p.before;
    after = p.after;
    first = run_finish p.first;
    second = p.second;
    whole = p.whole;
  })
]
run-Parts (wait evt ∷ xs) ys (run_wait succeeded later at_evt le le' r) = elim (run-Parts xs ys r) [
  | inl silent ↦ inl silent
  | inr p ↦ inr (record {
    middle = p.middle;
    before = p.before;
    after = p.after;
    first = run_wait succeeded later at_evt le le' p.first;
    second = p.second;
    whole = p.whole;
  })
]
run-Parts (succeed evt ∷ xs) ys (run_succeed at_evt r) = elim (run-Parts xs ys r) [
  | inl silent ↦ inl silent
  | inr p ↦ inr (record {
    middle = p.middle;
    before = p.before;
    after = p.after;
    first = run_succeed at_evt p.first;
    second = p.second;
    whole = p.whole;
  })
]

-- Time does not run backwards.
pub run-le :
    {at : Times} {now middle : ℕ} {xs : List Effect} {log : List Use}
    → Run at now xs (some middle) log
    → now ≤ middle
run-le over = omega arith
run-le (run_request later le r) = omega (arith, le, run-le r)
run-le (run_submit w_id start later le le' sub rest) = omega (arith, le', run-le rest)
run-le (run_start r) = run-le r
run-le (run_finish r) = run-le r
run-le (run_wait succeeded later at_evt le le' r) = omega (arith, le', run-le r)
run-le (run_succeed at_evt r) = run-le r

-- A use that a run is past, and the run from there.
run-request :
    {at : Times} {now middle res client_id amt stage priority : ℕ} {es : List Effect}
    {log : List Use}
    → Run at now (request res client_id amt stage priority ∷ es) (some middle) log
    → (later : ℕ) × (rest : List Use) × Run at later es (some middle) rest
      × (log ≡ record { res = res; amt = amt; time = later } ∷ rest)
run-request (run_request {log = rest} later le r) = (later, rest, r, refl)

-- What was requested is in the log.
pub run-use_costs :
    {at : Times} {middle : ℕ} (stage client_id priority : ℕ) (costs : Dict ℕ) {now : ℕ}
    {log : List Use} (res amt : ℕ)
    → Run at now (use_costs stage client_id priority costs) (some middle) log
    → lookup res costs ≡ some amt
    → 0 < amt
    → Used middle res amt log
run-use_costs stage client_id priority [] res amt r has large = absurd (cc)
run-use_costs {at} {middle} stage client_id priority ((res', amt') ∷ costs) {now} {log} res amt r
      has large =
    let after = use_costs stage client_id priority costs in
    let taken = λ (b : Bool).
      Run at now (if b then after else request res' client_id amt' stage priority ∷ after)
        (some middle) log in
    elim (Bool-cases (amt' == 0)) [
      | inl skipped ↦
          run-use_costs stage client_id priority costs res amt (subst taken skipped r)
            (ground (arith, has, skipped, large)) large
      | inr asked ↦
          let (later, rest, r', whole) = run-request (subst taken asked r) in
          subst (Used middle res amt) (sym whole) (elim (Bool-cases (res' == res)) [
            | inl same ↦ inl (ground (arith, same), ground (arith, has, same), run-le r')
            | inr other ↦ inr (
                run-use_costs stage client_id priority costs res amt r' (ground (arith, has, other))
                  large)
          ])
    ]

-- All of the events have succeeded by a given time.
abbrev pub AllBy : Times → ℕ → List ℕ → Type 0
AllBy at by [] = Unit
AllBy at by (evt ∷ evts) =
    ((succeeded : ℕ) × (at evt ≡ some succeeded) × (succeeded ≤ by)) × AllBy at by evts

pub AllBy-later :
    (at : Times) (by later : ℕ) (evts : List ℕ)
    → by ≤ later
    → AllBy at by evts
    → AllBy at later evts
AllBy-later at by later [] le h = tt
AllBy-later at by later (evt ∷ evts) le ((t, at_evt, le'), h) =
    ((t, at_evt, omega (arith, le, le')), AllBy-later at by later evts le h)

pub run-wait_all :
    {at : Times} {now middle : ℕ} (evts : List ℕ) {log : List Use}
    → Run at now (wait_all evts) (some middle) log
    → AllBy at middle evts
run-wait_all [] r = tt
run-wait_all (evt ∷ evts) (run_wait succeeded later at_evt le le' r) =
    ((succeeded, at_evt, omega (arith, le, run-le r)), run-wait_all evts r)
