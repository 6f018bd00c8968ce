-- ===== src/LimitFifo/History.antt =====
-- LimitInFlightFIFOScheduler over any calls, beside a history of its own: the requests that its gets
-- have handed out, and those that were completed.
use mathlib.Core.Path.{subst}
use tam_simulation.Prelude.{
  ℕ, zero, suc, ◌+◌, ◌≤◌, ◌<◌, ◌≡◌, refl, ◌∙◌, Option, none, some, List, [], ◌∷◌, arith, ◌==◌,
  if◌then◌else◌,
}
use tam_simulation.Result.{Result, ok, ◌>>=◌, bind-eq-ok, ok-injective}
use tam_simulation.Req.{Req}
use tam_simulation.Dict.{lookup, insert}
use tam_simulation.Flight
use tam_simulation.Flight.{Flight, satisfy_flight, send_one_req}
use tam_simulation.Flight.Bounds.{
  in_flight, Below, IsLimited, in_flight_complete, limit_complete, limit-send, complete-IsLimited,
}
use tam_simulation.Scheduler.{Served}
use tam_simulation.LimitFifo.{LimitFifo, send, first_allowed, do_get, do_put, complete_one_req}
use tam_simulation.LimitFifo.Limits.{get-Outcome, Outcome, first_allowed-Found}

pub record History : Type 0 where
  pub handed_out : List Req
  pub completed : List Req
  pub state : LimitFifo

abbrev pub started : LimitFifo → History
started s = record { handed_out = []; completed = []; state = s }

abbrev pub with_request : Option Req → List Req → List Req
with_request none rs = rs
with_request (some r) rs = r ∷ rs

-- The requests of a client.
abbrev pub number_of : ℕ → List Req → ℕ
number_of c [] = 0
number_of c (r ∷ rs) = if r.client_id == c then number_of c rs + 1 else number_of c rs

pub data Action : Type 0 where
  put : ℕ → Req → Action
  get : ℕ → Action
  complete : Req → Action

unfoldable pub act : Action → History → Result History
act (put now req) h = ok (record h { state = (do_put now req h.state).state })
act (get now) h = do
  r ← do_get now h.state
  ok (record h { handed_out = with_request r.req h.handed_out; state = r.state })
act (complete req) h = do
  s ← complete_one_req req h.state
  ok (record h { completed = req ∷ h.completed; state = s })

unfoldable pub run : List Action → History → Result History
run [] h = ok h
run (a ∷ actions) h = do h' ← act a h; run actions h'

-- The program's number of each client is what was handed out and not completed, its limits are those
-- of the start, and they hold.
record IsTracked (s : LimitFifo) (h : History) : Type 0 where
  numbers :
      (c : ℕ) → in_flight c h.state.flight + number_of c h.completed ≡ number_of c h.handed_out
  limits : h.state.flight.flight_limit ≡ s.flight.flight_limit
  limited : IsLimited h.state.flight

limits_sent :
    (now : ℕ) (s : LimitFifo) (f : Flight) (o : Option Req) (r : Served LimitFifo)
    → send now s f o ≡ ok r
    → r.state.flight.flight_limit ≡ f.flight_limit
limits_sent now s f none r e =
    subst (λ (x : Served LimitFifo). x.state.flight.flight_limit ≡ f.flight_limit) (ok-injective e)
      refl
limits_sent now s f (some req) r e =
    let (f', done, same) = bind-eq-ok (send_one_req req.client_id f) _ e in
    subst (λ (x : Served LimitFifo). x.state.flight.flight_limit ≡ f.flight_limit)
      (ok-injective same) (limit-send req.client_id f done)

limits_kept :
    (now : ℕ) (s : LimitFifo) (r : Served LimitFifo)
    → do_get now s ≡ ok r
    → r.state.flight.flight_limit ≡ s.flight.flight_limit
unfolding do_get
limits_kept now s r e =
    let found = first_allowed s.queue.items s.flight in
    let (_, same) = first_allowed-Found s.queue.items s.flight in
    limits_sent now s found.1 found.0 r e ∙ same.limits

numbers_got :
    (s s' : LimitFifo) (o : Option Req) (handed_out completed : List Req)
    → Outcome s o s'
    → ((c : ℕ) → in_flight c s.flight + number_of c completed ≡ number_of c handed_out)
    → (c : ℕ)
    → in_flight c s'.flight + number_of c completed ≡ number_of c (with_request o handed_out)
numbers_got s s' none handed_out completed (_, same, _) numbers c = rw (same c) (numbers c)
numbers_got s s' (some req) handed_out completed (_, _, _, _, _, flights, _) numbers c =
    ground (arith, flights c, numbers c)

act-IsTracked :
    (s : LimitFifo) (a : Action) (h h' : History) → IsTracked s h → act a h ≡ ok h' → IsTracked s h'
unfolding act do_put complete_one_req
act-IsTracked s (put now req) h h' t e =
    subst (IsTracked s) (ok-injective e)
      (record { numbers = t.numbers; limits = t.limits; limited = t.limited })
act-IsTracked s (get now) h h' t e =
    let (r, done, limited, outcome) = get-Outcome now h.state t.limited in
    let same = rw done at e in
    subst (IsTracked s) (ok-injective same) (record {
      numbers = numbers_got h.state r.state r.req h.handed_out h.completed outcome t.numbers;
      limits = limits_kept now h.state r done ∙ t.limits;
      limited = limited;
    })
act-IsTracked s (complete req) h h' t e =
    let (s', finished, same) = bind-eq-ok (complete_one_req req h.state) _ e in
    let (f, done, rest) =
      bind-eq-ok (Flight.complete_one_req req.client_id h.state.flight) _ finished in
    let tracked : IsTracked s
        (record h { completed = req ∷ h.completed; state = record h.state { flight = f } }) =
      record {
        numbers = λ c.
            ground (arith, in_flight_complete req.client_id h.state.flight done c, t.numbers c);
        limits = limit_complete req.client_id h.state.flight done ∙ t.limits;
        limited = complete-IsLimited req.client_id h.state.flight t.limited done;
      } in
    subst (IsTracked s) (ok-injective same) (
      subst (λ (x : LimitFifo). IsTracked s (record h { completed = req ∷ h.completed; state = x }))
        (ok-injective rest) tracked)

run-IsTracked :
    (s : LimitFifo) (actions : List Action) (h h' : History)
    → IsTracked s h
    → run actions h ≡ ok h'
    → IsTracked s h'
unfolding run
run-IsTracked s [] h h' t e = subst (IsTracked s) (ok-injective e) t
run-IsTracked s (a ∷ actions) h h' t e =
    let (g, first, later) = bind-eq-ok (act a h) (run actions) e in
    run-IsTracked s actions g h' (act-IsTracked s a h g t first) later

positive : (n : ℕ) → 0 < n → (m : ℕ) × (n ≡ suc m)
positive zero h = absurd (omega (arith, h))
positive (suc m) h = (m, refl)

completed_of :
    (c : ℕ) (f : Flight) → 0 < in_flight c f → (f' : Flight) × (Flight.complete_one_req c f ≡ ok f')
unfolding Flight.complete_one_req
completed_of c f some_left =
    let (m, e) = positive (in_flight c f) some_left in
    (record f { current_flight = insert c m f.current_flight }, ground (arith, e))

none-Below : (n : ℕ) (o : Option ℕ) → n ≡ 0 → Below n o
none-Below n none e = tt
none-Below n (some limit) e = omega (arith, e)

-- What is promised after any calls that raised nothing, of the limits of the start.
pub record Promises (s : LimitFifo) (h : History) : Type 0 where
  pub within :
      (c limit : ℕ)
      → lookup c s.flight.flight_limit ≡ some limit
      → number_of c h.handed_out ≤ number_of c h.completed + limit
  pub no_more : (c : ℕ) → number_of c h.completed ≤ number_of c h.handed_out
  pub gets : (now : ℕ) → (r : Served LimitFifo) × (do_get now h.state ≡ ok r)
  pub completes :
      (req : Req)
      → number_of req.client_id h.completed < number_of req.client_id h.handed_out
      → (t : LimitFifo) × (complete_one_req req h.state ≡ ok t)

tracked-Promises : (s : LimitFifo) (h : History) → IsTracked s h → Promises s h
unfolding complete_one_req
tracked-Promises s h t = record {
  within = λ c limit e. ground (arith, t.numbers c, t.limited.within c, t.limits, e);
  no_more = λ c. omega (arith, t.numbers c);
  gets = λ now. let (r, done, _, _) = get-Outcome now h.state t.limited in (r, done);
  completes = λ req left.
      let (f, done) =
        completed_of req.client_id h.state.flight (omega (arith, left, t.numbers req.client_id)) in
      (record h.state { flight = f }, rw done refl);
}

-- Puts, gets and completions in any order, from a state with nothing in flight: what the gets handed
-- out for a client with a limit and was not completed is never more than the limit, no more is
-- completed than was handed out, a get raises nothing, and neither does the completion of a request
-- of a client that has one handed out and not completed.
pub run-Promises :
    (s : LimitFifo) (actions : List Action) (h : History)
    → s.flight.current_flight ≡ []
    → run actions (started s) ≡ ok h
    → Promises s h
run-Promises s actions h idle e = tracked-Promises s h (
    run-IsTracked s actions (started s) h
      (record {
        numbers = λ c. ground (arith, idle);
        limits = refl;
        limited = record { within = λ c. none-Below _ _ (ground (arith, idle)) };
      })
      e)
