-- ===== src/Wfq/InFlight/Choice.antt =====
-- What LimitInFlightWFQScheduler._do_get serves, whatever the total active weight is.
use mathlib.Core.Path.{subst}
use tam_simulation.Prelude.{
  ℕ, suc, true, ltb, ◌∷◌, [], ◌==◌, ◌≡◌, refl, sym, ◌∙◌, Bool, Option, none, some, arith, length,
  if◌then◌else◌, ◌+◌, ◌-ℤ◌, pos,
}
use tam_simulation.Result.{ok, ◌>>=◌, require}
use tam_simulation.Dict.{
  lookup, lookup_or, insert, keys, has_key, total, lookup-insert, total-insert, lookup_of_has_key,
}
use tam_simulation.Req.{Req}
use tam_simulation.Occupancy.{Occupancy}
use tam_simulation.Occupancy.Counts.{Counts, Counts-take_one, Counts-eq}
use tam_simulation.Scheduler.{Served}
use tam_simulation.Flight.{Flight, satisfy_flight}
use tam_simulation.Flight.Bounds.{in_flight, IsLimited, in_flight-send, send-IsLimited}
use tam_simulation.LimitFifo.Limits.{
  SameFlight, SameFlight-satisfy, blocked_of_numbers, IsLimited-same, send_fits,
}
use tam_simulation.Wfq.{Wfq, Candidate, select}
use tam_simulation.Wfq.Select.{FromQueue, Allowed, IsChoice, select-IsChoice}
use tam_simulation.Wfq.Invariant.{AllOwn}
use tam_simulation.Wfq.Serving.{head_of, queues_after}
use tam_simulation.Wfq.Putting.{AllOwn-insert}
use tam_simulation.Wfq.InFlight.{LimitWfq, pop_limited, finish, do_get, has_more}

-- Whether a number is below a limit. A missing limit allows any number.
abbrev pub is_below : ℕ → Option ℕ → Bool
is_below n none = true
is_below n (some limit) = ltb n limit

-- The client has fewer requests in flight than its limit, or no limit.
abbrev pub has_room : Flight → ℕ → Bool
has_room f c = is_below (in_flight c f) (lookup c f.flight_limit)

satisfy-has_room : (c : ℕ) (f : Flight) → (satisfy_flight c f).0 ≡ has_room f c
unfolding satisfy_flight
satisfy-has_room c f = ground arith

satisfy_answers :
    (f : Flight) (c : ℕ) (g : Flight)
    → SameFlight f g
    → ((satisfy_flight c g).0 ≡ has_room f c) × SameFlight f (satisfy_flight c g).1
satisfy_answers f c g h =
    let step = SameFlight-satisfy c g in
    (
      blocked_of_numbers c f g h ∙ satisfy-has_room c f,
      record { numbers = λ j. step.numbers j ∙ h.numbers j; limits = step.limits ∙ h.limits },
    )

-- What a get needs of the queues: the counter is the number of requests stored, each queue holds its
-- client's requests, and each client with a queue has a weight. The total weight does not matter.
pub record IsReady (q : Wfq) : Type 0 where
  pub stored : Counts (total length q.queues) q.occ
  pub owners : (c : ℕ) → AllOwn c (lookup_or [] c q.queues)
  pub weighed : (c : ℕ) → has_key c q.queues ≡ true → has_key c q.weights ≡ true

-- The numbers in flight after the outcome of a choice.
abbrev pub flights_after : Option Candidate → ℕ → ℕ → ℕ
flights_after none j n = n
flights_after (some best) j n = if best.head.client_id == j then n + 1 else n

pub record Sends (s : LimitWfq) (b : Option Candidate) (r : Served LimitWfq) : Type 0 where
  pub request : r.req ≡ head_of b
  pub left : r.state.queue.queues ≡ queues_after b s.queue.queues
  pub flights : (j : ℕ) → in_flight j r.state.flight ≡ flights_after b j (in_flight j s.flight)
  pub limited : IsLimited r.state.flight
  pub ready : IsReady r.state.queue

module _ (q : Wfq) (best : Candidate) where
  owned :
      IsReady q
      → lookup best.client q.queues ≡ some (best.head ∷ best.rest)
      → AllOwn best.client (best.head ∷ best.rest)
  owned h from =
      subst (AllOwn best.client) {y = best.head ∷ best.rest} (ground (arith, from))
        (h.owners best.client)

  fewer :
      lookup best.client q.queues ≡ some (best.head ∷ best.rest)
      → total length q.queues ≡ suc (total length (insert best.client best.rest q.queues))
  fewer from = ground (arith, total-insert (length {A = Req}) best.client best.rest q.queues, from)

-- The weight of the served client is known, so nothing is raised.
popped :
    (q : Wfq) (best : Candidate)
    → IsReady q
    → lookup best.client q.queues ≡ some (best.head ∷ best.rest)
    → (t : Wfq) × (pop_limited best q ≡ ok t)
      × (t.queues ≡ insert best.client best.rest q.queues)
      × (t.occ ≡ q.occ)
      × (t.weights ≡ q.weights)
unfolding pop_limited
popped q best h from =
    let (mine, _) = owned q best h from in
    let (w, found) =
      lookup_of_has_key best.client q.weights (h.weighed best.client (ground (arith, from))) in
    let shorter = record q { queues = insert best.client best.rest q.queues } in
    elim best.rest
      as (λ l.
        (t : Wfq) × ((elim l [
          | [] ↦ (do
            w ← require (lookup best.head.client_id q.weights)
            ok (record shorter { total_active_weight = q.total_active_weight -ℤ pos w }))
          | _ ∷ _ ↦ ok shorter
        ])
          ≡ ok t)
        × (t.queues ≡ insert best.client best.rest q.queues)
        × (t.occ ≡ q.occ)
        × (t.weights ≡ q.weights)) [
          | [] ↦ (
            record shorter { total_active_weight = q.total_active_weight -ℤ pos w },
            rw (mine, found) refl,
            refl,
            refl,
            refl,
          )
          | x ∷ xs ↦ (shorter, refl, refl, refl, refl)
        ]

IsReady-popped :
    (q t : Wfq) (best : Candidate) (occ : Occupancy)
    → IsReady q
    → lookup best.client q.queues ≡ some (best.head ∷ best.rest)
    → t.queues ≡ insert best.client best.rest q.queues
    → t.weights ≡ q.weights
    → Counts (total length (insert best.client best.rest q.queues)) occ
    → IsReady (record t { occ = occ })
IsReady-popped q t best occ h from queues weights counted = record {
  stored = subst (λ d. Counts (total length d) occ) (sym queues) counted;
  owners = λ j.
      subst (λ d. AllOwn j (lookup_or [] j d)) (sym queues)
        (AllOwn-insert best.client j best.rest q.queues (owned q best h from).1 (h.owners j));
  weighed = λ j k. ground (
    arith,
    h.weighed j,
    k,
    queues,
    weights,
    from,
    lookup-insert best.client j best.rest q.queues,
  );
}

finish-Sends :
    (now : ℕ) (s : LimitWfq) (b : Option Candidate) (f : Flight)
    → IsReady s.queue
    → IsLimited s.flight
    → SameFlight s.flight f
    → FromQueue s.queue.queues b
    → Allowed (has_room s.flight) b
    → (r : Served LimitWfq) × (finish now s b f ≡ ok r) × Sends s b r
finish-Sends now s none f h l same from a = (
  _,
  refl,
  record {
    request = refl;
    left = refl;
    flights = same.numbers;
    limited = IsLimited-same s.flight f same l;
    ready = h;
  },
)
finish-Sends now s (some best) f h l same from a =
    let q = s.queue in
    let (mine, _) = owned q best h from in
    let (t, done, queues, occ_same, weights) = popped q best h from in
    let full =
      subst (Counts (suc (total length (insert best.client best.rest q.queues)))) (sym occ_same)
        (Counts-eq _ _ q.occ (sym (fewer q best from)) h.stored) in
    let (occ, taken, counted) =
      Counts-take_one now (total length (insert best.client best.rest q.queues)) t.occ full in
    let (f', sent) =
      send_fits best.head.client_id s.flight f same
        (satisfy-has_room best.head.client_id s.flight ∙ rw mine a) in
    (
      record {
        state = record { queue = record t { occ = occ }; flight = f' };
        req = some best.head;
        notified = t.notify_list;
        proceed = has_more occ.current_in_store;
      },
      rw (done, taken, sent) refl,
      record {
        request = refl;
        left = queues;
        flights = λ j. ground (arith, in_flight-send best.head.client_id f sent j, same.numbers j);
        limited = send-IsLimited best.head.client_id f (IsLimited-same s.flight f same l) sent;
        ready = IsReady-popped q t best occ h from queues weights counted;
      },
    )

-- Where the limits hold, and the queues are counted, owned and weighed, whatever the total weight is,
-- `_do_get` raises nothing and leaves such a state. Among the first requests of the queues of the
-- clients that have no limit or fewer requests in flight than it, it serves one with the least
-- virtual finish time, and nothing only if these queues are empty. Exactly this request leaves its
-- queue, and is counted as in flight.
pub get-Sends :
    (now : ℕ) (s : LimitWfq)
    → IsReady s.queue
    → IsLimited s.flight
    → (b : Option Candidate) × IsChoice (has_room s.flight) s.queue.queues b
      × (r : Served LimitWfq) × (do_get now s ≡ ok r)
      × Sends s b r
unfolding do_get
get-Sends now s h l =
    let queues = s.queue.queues in
    let (same, choice) =
      select-IsChoice satisfy_flight (SameFlight s.flight) (has_room s.flight)
        (satisfy_answers s.flight) queues s.flight
        (record { numbers = λ j. refl; limits = refl }) in
    let chosen = select satisfy_flight (keys queues) queues (none, s.flight) in
    let (r, done, sends) =
      finish-Sends now s chosen.0 chosen.1 h l same choice.from choice.allowed in
    (chosen.0, choice, r, done, sends)
