-- ===== src/Wfq/Feedback.antt =====
-- scheduler.py, class FeedbackWFQScheduler: a client is served only where the scheduler of the next
-- stage can take more of its requests. `downstream` is that scheduler's `can_take_more_reqs`, which
-- raises an exception in some classes, or none where `downstream_stage` is None.
use tam_simulation.Prelude.{
  ℕ, ltb_ℤ, ◌≡◌, refl, inl, inr, true, false, Bool, Bool-cases, Option, none, some, List, [], ◌∷◌,
  if◌then◌else◌,
}
use tam_simulation.Result.{Error, Result, ok, err, ◌>>=◌}
use tam_simulation.Dict.{Dict, lookup, keys}
use tam_simulation.Req.{Req}
use tam_simulation.Scheduler.{Served, ask_downstream}
use tam_simulation.Wfq.{Wfq, Candidate, earlier, consider, select, deliver}
use tam_simulation.Wfq.Select.{IsChoice, select-IsChoice}
use tam_simulation.Wfq.Invariant.{IsValid}
use tam_simulation.Wfq.Serving.{Delivers, deliver-Delivers}

-- One round of the loop in the overridden `send`: the next stage is asked last.
abbrev pub consider_asked :
    (ℕ → Result Bool) → ℕ → Option (List Req) → Option Candidate → Result (Option Candidate)
consider_asked ask client_id none best = ok best
consider_asked ask client_id (some []) best = ok best
consider_asked ask client_id (some (req ∷ rest)) best =
    let taken = some (record { client = client_id; head = req; rest = rest }) in
    if earlier req best
    then (do fits ← ask client_id; ok (if fits then taken else best))
    else ok best

-- The loop over `self.queues`.
unfoldable pub select_asked :
    (ℕ → Result Bool) → List ℕ → Dict (List Req) → Option Candidate → Result (Option Candidate)
select_asked ask [] queues best = ok best
select_asked ask (client_id ∷ clients) queues best = do
  next ← consider_asked ask client_id (lookup client_id queues) best
  select_asked ask clients queues next

-- _do_get, inherited, with the overridden `send`
unfoldable pub feedback_get : Option (ℕ → Result Bool) → ℕ → Wfq → Result (Served Wfq)
feedback_get downstream now s = do
  best ← select_asked (ask_downstream downstream) (keys s.queues) s.queues none
  deliver now s best

-- A next stage that answers without an exception.
abbrev answer : (ℕ → Bool) → ℕ → Unit {0} → Bool × Unit {0}
answer takes client_id t = (takes client_id, t)

module _ (ask : ℕ → Result Bool) (takes : ℕ → Bool) (answers : (c : ℕ) → ask c ≡ ok (takes c)) where
  consider_answered :
      (c : ℕ) (q : Option (List Req)) (best : Option Candidate)
      → consider_asked ask c q best ≡ ok (consider (answer takes) c q (best, tt)).0
  consider_answered c none best = refl
  consider_answered c (some []) best = refl
  consider_answered c (some (req ∷ rest)) none = rw (answers c) refl
  consider_answered c (some (req ∷ rest)) (some best) =
      elim (Bool-cases (ltb_ℤ req.vir_finish best.head.vir_finish)) [
        | inl early ↦ rw (early, answers c) refl
        | inr late ↦ rw late refl
      ]

  select_answered :
      (clients : List ℕ) (queues : Dict (List Req)) (best : Option Candidate)
      → select_asked ask clients queues best
        ≡ ok (select (answer takes) clients queues (best, tt)).0
  unfolding select_asked select
  select_answered [] queues best = refl
  select_answered (c ∷ clients) queues best =
      rw (consider_answered c (lookup c queues) best)
        (select_answered clients queues (consider (answer takes) c (lookup c queues) (best, tt)).0)

takes_answers :
    (takes : ℕ → Bool) (c : ℕ) (t : Unit {0})
    → Unit {0}
    → ((answer takes c t).0 ≡ takes c) × Unit {0}
takes_answers takes c t g = (refl, tt)

-- In a valid state, and with a next stage that answers for each client without an exception,
-- `_do_get` raises nothing. Among the first requests of the queues of the clients that the next
-- scheduler can take more of, it serves one with the least virtual finish time, and nothing only if
-- these queues are empty. Exactly this request leaves, and the state stays valid.
pub feedback_get-Delivers :
    (can_take_more_reqs : ℕ → Result Bool) (takes : ℕ → Bool) (now : ℕ) (s : Wfq)
    → ((c : ℕ) → can_take_more_reqs c ≡ ok (takes c))
    → IsValid s
    → (b : Option Candidate) × IsChoice takes s.queues b
      × (r : Served Wfq) × (feedback_get (some can_take_more_reqs) now s ≡ ok r)
      × Delivers s b r
unfolding feedback_get ask_downstream
feedback_get-Delivers can_take_more_reqs takes now s answers h =
    let test = answer takes in
    let (_, choice) = select-IsChoice test (λ t. Unit) takes (takes_answers takes) s.queues tt tt in
    let b = (select test (keys s.queues) s.queues (none, tt)).0 in
    let (r, done, delivers) = deliver-Delivers now s b h choice.from in
    (
      b,
      choice,
      r,
      rw (select_answered can_take_more_reqs takes answers (keys s.queues) s.queues none) done,
      delivers,
    )

abbrev pub has_requests : Option (List Req) → Bool
has_requests none = false
has_requests (some []) = false
has_requests (some (req ∷ rest)) = true

abbrev pub any_waiting : List ℕ → Dict (List Req) → Bool
any_waiting [] queues = false
any_waiting (c ∷ clients) queues =
    let rest = any_waiting clients queues in if has_requests (lookup c queues) then true else rest

-- What the call comes to where the next stage answers nothing.
abbrev pub refused : Bool → Error → Wfq → Result (Served Wfq)
refused true e s = err e
refused false e s = ok (record { state = s; req = none; notified = []; proceed = false })
