-- ===== src/Wfq/Fairness.antt =====
-- WFQScheduler over sequences of calls: no assertion fails, and the order is that of the virtual
-- finish times.
use mathlib.Core.Path.{subst}
use tam_simulation.Prelude.{ℕ, ℤ, pos, ◌<◌, ◌≡◌, refl, sym, true, Option, none, some, List, [], ◌∷◌}
use tam_simulation.Result.{ok}
use tam_simulation.Dict.{lookup, lookup_or}
use tam_simulation.Req.{Req}
use tam_simulation.Scheduler.{Served, Callbacks, Call, Reply, run, Invariant, run_invariant}
use tam_simulation.Wfq.{Wfq, Candidate, init, do_put, do_get}
use tam_simulation.Wfq.Ascending.{Ascending, NoneBefore, NoneBefore-head}
use tam_simulation.Wfq.Select.{NotEarlier, IsChoice}
use tam_simulation.Wfq.Invariant.{IsValid, IsValid-init}
use tam_simulation.Wfq.Putting.{KeepsSign, put-IsValid}
use tam_simulation.Wfq.Serving.{get-Delivers, head_of}

-- No queued request finishes before the served one; and nothing is served only from empty queues.
abbrev pub FirstOfAll : Wfq → Option Req → Type 0
FirstOfAll s none = (c : ℕ) → lookup_or [] c s.queues ≡ []
FirstOfAll s (some req) = (c : ℕ) → NoneBefore req.vir_finish (lookup_or [] c s.queues)

empty_queue : (o : Option (List Req)) → NotEarlier none o → (elim o [ none ↦ [] | some q ↦ q ]) ≡ []
empty_queue none h = refl
empty_queue (some []) h = refl
empty_queue (some (req ∷ rest)) h = absurd h

none_before :
    (best : Candidate) (o : Option (List Req)) (hi : ℤ)
    → Ascending (elim o [ none ↦ [] | some q ↦ q ]) hi
    → NotEarlier (some best) o
    → NoneBefore best.head.vir_finish (elim o [ none ↦ [] | some q ↦ q ])
none_before best none hi a h = tt
none_before best (some []) hi a h = tt
none_before best (some (req ∷ rest)) hi a h = NoneBefore-head best.head.vir_finish hi req rest h a

first_of_choice :
    (s : Wfq) (b : Option Candidate)
    → IsValid s
    → IsChoice (λ c. true) s.queues b
    → FirstOfAll s (head_of b)
first_of_choice s none h choice = λ c. empty_queue (lookup c s.queues) (choice.least c refl)
first_of_choice s (some best) h choice = λ c.
    none_before best (lookup c s.queues) (lookup_or (pos 0) c s.last_vir_finish) (h.ordered c)
      (choice.least c refl)

-- In a valid state `_do_get` raises nothing and serves a request with the least virtual finish time
-- among all queued requests of all clients; it serves none only where none is queued.
pub get-FirstOfAll :
    (now : ℕ) (s : Wfq)
    → IsValid s
    → (r : Served Wfq) × (do_get now s ≡ ok r) × FirstOfAll s r.req × IsValid r.state
get-FirstOfAll now s h =
    let (b, choice, r, done, delivers) = get-Delivers now s h in
    (
      r,
      done,
      subst (FirstOfAll s) (sym delivers.request) (first_of_choice s b h choice),
      delivers.valid,
    )

module _ (one : ℕ) (quot : ℤ → ℕ → ℤ) where
  abbrev pub callbacks : Callbacks Wfq
  callbacks = record { put = do_put one quot; get = do_get }

  IsValid-invariant : 0 < one → KeepsSign quot → Invariant callbacks IsValid
  IsValid-invariant unit sign = record {
    put = λ now req s h.
        let (r, done, _, valid) = put-IsValid one quot now req s unit sign h in (r, done, valid);
    get = λ now s h. let (r, done, _, valid) = get-FirstOfAll now s h in (r, done, valid);
  }

  -- From a new WFQScheduler no sequence of puts and gets, at whatever times, fails an assertion,
  -- misses a key or divides by zero, and the state after it is valid: the counters are the true
  -- sizes, and the total active weight is the sum of the weights of the active clients.
  pub run-IsValid :
      (calls : List Call) (now : ℕ)
      → 0 < one
      → KeepsSign quot
      → (s' : Wfq) × (replies : List Reply) × (run callbacks calls (init one now)
          ≡ ok (s', replies))
        × IsValid s'
  run-IsValid calls now unit sign =
      run_invariant callbacks (IsValid-invariant unit sign) calls (init one now)
        (IsValid-init one now)
