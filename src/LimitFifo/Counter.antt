-- ===== src/LimitFifo/Counter.antt =====
-- LimitInFlightFIFOScheduler counts a request that leaves its queue as one that enters it.
use mathlib.Core.Path.{subst}
use tam_simulation.Flight.Bounds.{IsLimited}
use tam_simulation.LimitFifo.Limits.{get-Outcome}
use tam_simulation.Prelude.{
  ℕ, suc, ◌+◌, pos, ◌≡◌, refl, ◌∙◌, ap, sym, Bool, true, false, Option, none, some, List, [], ◌∷◌,
  arith, if◌then◌else◌,
}
use tam_simulation.Result.{ok, bind-eq-ok}
use tam_simulation.Req.{Req}
use tam_simulation.Occupancy.{Occupancy, add_one, fresh}
use tam_simulation.Flight.{send_one_req}
use tam_simulation.Fifo
use tam_simulation.Scheduler.{Served, Callbacks, Call, Reply, put, get, stored, served, run}
use tam_simulation.LimitFifo.{LimitFifo, init, do_put, do_get, send, first_allowed}

abbrev pub callbacks : Callbacks LimitFifo
callbacks = record { put = λ now req s. ok (do_put now req s); get = do_get }

-- Stored and served requests among the replies.
abbrev pub moves : List Reply → ℕ
moves [] = 0
moves (stored true ∷ replies) = suc (moves replies)
moves (served (some req) ∷ replies) = suc (moves replies)
moves (reply ∷ replies) = moves replies

abbrev Counted : ℕ → LimitFifo → Type 0
Counted n s = s.queue.occ.current_in_store ≡ pos n

Counted-add :
    (now n : ℕ) (o : Occupancy)
    → o.current_in_store ≡ pos n
    → (add_one now o).current_in_store ≡ pos (suc n)
unfolding add_one
Counted-add now n o h = ground arith

Counted-put :
    (now : ℕ) (req : Req) (n : ℕ) (s : LimitFifo)
    → Counted n s
    → Counted (if (do_put now req s).stored then suc n else n) (do_put now req s).state
unfolding do_put Fifo.do_put
Counted-put now req n s h = ground (arith, Counted-add now n s.queue.occ)

Counted-send :
    (now n : ℕ) (s : LimitFifo) (o : Option Req) (r : Served LimitFifo)
    → Counted n s
    → send now s (first_allowed s.queue.items s.flight).1 o ≡ ok r
    → Counted (elim r.req [ none ↦ n | some _ ↦ suc n ]) r.state
Counted-send now n s none r h e = ground arith
Counted-send now n s (some req) r h e =
    let (f, done, same) = bind-eq-ok (send_one_req req.client_id _) _ e in
    ground (arith, Counted-add now n s.queue.occ)

Counted-get :
    (now n : ℕ) (s : LimitFifo) (r : Served LimitFifo)
    → Counted n s
    → do_get now s ≡ ok r
    → Counted (elim r.req [ none ↦ n | some _ ↦ suc n ]) r.state
unfolding do_get
Counted-get now n s r h e = Counted-send now n s (first_allowed s.queue.items s.flight).0 r h e

flight-put : (now : ℕ) (req : Req) (s : LimitFifo) → (do_put now req s).state.flight ≡ s.flight
unfolding do_put
flight-put now req s = refl

step_total :
    (n : ℕ) (b : Bool) (replies : List Reply)
    → (if b then suc n else n) + moves replies ≡ n + moves (stored b ∷ replies)
step_total n true replies = omega arith
step_total n false replies = omega arith

get_total :
    (n : ℕ) (o : Option Req) (replies : List Reply)
    → (elim o [ none ↦ n | some _ ↦ suc n ]) + moves replies ≡ n + moves (served o ∷ replies)
get_total n none replies = omega arith
get_total n (some req) replies = omega arith

Counted-run :
    (calls : List Call) (n : ℕ) (s : LimitFifo)
    → IsLimited s.flight
    → Counted n s
    → (s' : LimitFifo) × (replies : List Reply) × (run callbacks calls s ≡ ok (s', replies))
      × Counted (n + moves replies) s'
unfolding run
Counted-run [] n s l h = (s, [], refl, h ∙ ap pos (omega arith))
Counted-run (put now req ∷ calls) n s l h =
    let r = do_put now req s in
    let (s', replies, ran, counted) =
      Counted-run calls (if r.stored then suc n else n) r.state
        (subst IsLimited (sym (flight-put now req s)) l) (Counted-put now req n s h) in
    (s', stored r.stored ∷ replies, rw ran, counted ∙ ap pos (step_total n r.stored replies))
Counted-run (get now ∷ calls) n s l h =
    let (r, done, limited, _) = get-Outcome now s l in
    let (s', replies, ran, counted) =
      Counted-run calls (elim r.req [ none ↦ n | some _ ↦ suc n ]) r.state limited
        (Counted-get now n s r h done) in
    (s', served r.req ∷ replies, rw (done, ran), counted ∙ ap pos (get_total n r.req replies))

-- From a new LimitInFlightFIFOScheduler every sequence of puts and gets raises nothing and leaves
-- `currentInStore` at the number of requests that were stored plus the number that were served.
pub counter_adds_both :
    (calls : List Call) (now : ℕ) (capacity : Option ℕ)
    → (s' : LimitFifo) × (replies : List Reply) × (run callbacks calls (init now capacity)
        ≡ ok (s', replies))
      × (s'.queue.occ.current_in_store ≡ pos (moves replies))
unfolding init Fifo.init fresh
counter_adds_both calls now capacity =
    let (s', replies, ran, counted) =
      Counted-run calls 0 (init now capacity) (record { within = λ c. tt }) refl in
    (s', replies, ran, counted ∙ ap pos (omega arith))
