-- ===== src/Fifo/Order.antt =====
-- A FIFOScheduler is a bounded queue: what a sequence of calls returns is what the queue returns.
use tam_simulation.Prelude.{ℕ, ◌≡◌, refl, Option, List, [], ◌∷◌, ◌++◌, arith, length, if◌then◌else◌}
use tam_simulation.Result.{ok}
use tam_simulation.Req.{Req}
use tam_simulation.Scheduler.{Callbacks, Call, Reply, put, get, stored, served, run}
use tam_simulation.Fifo.{Fifo, init, do_put, do_get, has_room}
use tam_simulation.Fifo.Consistent.{
  IsConsistent, IsConsistent-init, put-IsConsistent, get-Serves, head?, tail,
}

abbrev pub callbacks : Callbacks Fifo
callbacks = record { put = λ now req s. ok (do_put now req s); get = do_get }

-- The same calls on a list of requests with a capacity.
unfoldable pub queue_run : Option ℕ → List Call → List Req → List Reply
queue_run capacity [] q = []
queue_run capacity (put now req ∷ calls) q =
    let room = has_room (length q) capacity in
    stored room ∷ queue_run capacity calls (if room then q ++ req ∷ [] else q)
queue_run capacity (get now ∷ calls) q = served (head? q) ∷ queue_run capacity calls (tail q)

module _ (now : ℕ) (req : Req) (s : Fifo) where
  stored_iff_room : (do_put now req s).stored ≡ has_room (length s.items) s.capacity
  unfolding do_put
  stored_iff_room = ground arith

  items-put :
      (do_put now req s).state.items
      ≡ (if has_room (length s.items) s.capacity then s.items ++ req ∷ [] else s.items)
  unfolding do_put
  items-put = ground arith

  capacity-put : (do_put now req s).state.capacity ≡ s.capacity
  unfolding do_put
  capacity-put = ground arith

run_from :
    (calls : List Call) (s : Fifo)
    → IsConsistent s
    → (s' : Fifo) × (run callbacks calls s ≡ ok (s', queue_run s.capacity calls s.items))
unfolding run queue_run
run_from [] s h = (s, refl)
run_from (put now req ∷ calls) s h =
    let (s', ran) = run_from calls (do_put now req s).state (put-IsConsistent now req s h) in
    (s', rw (ran, stored_iff_room now req s, items-put now req s, capacity-put now req s))
run_from (get now ∷ calls) s h =
    let (r, got, serves) = get-Serves now s h in
    let (s', ran) = run_from calls r.state serves.after in
    (s', rw (got, ran, serves.first, serves.rest, serves.room))

-- From a new FIFOScheduler every sequence of puts and gets, at whatever times, raises nothing, and
-- replies as a queue of the same capacity: a put is refused exactly when the queue is full, and
-- the requests come out in the order in which they went in.
pub run_refines_queue :
    (calls : List Call) (now : ℕ) (capacity : Option ℕ)
    → (s' : Fifo) × (run callbacks calls (init now capacity) ≡ ok (s', queue_run capacity calls []))
unfolding init
run_refines_queue calls now capacity =
    run_from calls (init now capacity) (IsConsistent-init now capacity)
