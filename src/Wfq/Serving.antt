-- ===== src/Wfq/Serving.antt =====
-- What WFQScheduler._do_get serves, and that it keeps the invariant.
use mathlib.Core.Path.{subst}
use tam_simulation.Prelude.{
  ℕ, suc, ◌≤◌, pos, ◌≡◌, refl, sym, inl, inr, true, false, Bool-cases, Option, none, some, List, [],
  ◌∷◌, arith, count, ◌==◌, ==_iff, length,
}
use tam_simulation.Result.{ok}
use tam_simulation.Dict.{
  Dict, lookup, lookup_or, insert, has_key, keys, total, lookup-insert, total-insert,
  count-keys-insert, has_key_iff_count,
}
use tam_simulation.Req.{Req}
use tam_simulation.Occupancy.{Occupancy}
use tam_simulation.Occupancy.Counts.{Counts, Counts-take_one, Counts-eq}
use tam_simulation.Scheduler.{Served}
use tam_simulation.Wfq.{Wfq, Candidate, pop, deliver, do_get, select, any_client}
use tam_simulation.Wfq.Select.{FromQueue, IsChoice, select-IsChoice}
use tam_simulation.Wfq.Ascending.{Ascending, Ascending-tail}
use tam_simulation.Wfq.Invariant.{AllOwn, Waiting, IsValid}
use tam_simulation.Wfq.Putting.{AllOwn-insert, Ascending-insert}

module _ (now : ℕ) (s : Wfq) (h : IsValid s) (best : Candidate)
    (from : lookup best.client s.queues ≡ some (best.head ∷ best.rest)) where
  pub own : AllOwn best.client (best.head ∷ best.rest)
  own =
      subst (AllOwn best.client) {y = best.head ∷ best.rest} (ground (arith, from))
        (h.owners best.client)

  pub active_once :
      (count best.client (keys s.queue_empty_time) ≡ 0)
      × (count best.client s.active_client_list ≡ 1)
  active_once =
      subst
        (λ o.
          Waiting o (count best.client (keys s.queue_empty_time))
            (count best.client s.active_client_list))
        from (h.waiting best.client)

  pub one_less : total length s.queues ≡ suc (total length (insert best.client best.rest s.queues))
  one_less = ground (arith, total-insert (length {A = Req}) best.client best.rest s.queues, from)

  -- The queue without its first request, at a time and a record of idle clients that fit.
  module _ (occ : Occupancy)
      (counted : Counts (total length (insert best.client best.rest s.queues)) occ)
      (empty_time : Dict ℕ)
      (idles : (j : ℕ) → count j (keys empty_time) ≤ count j s.active_client_list)
      (waits : Waiting
        (some best.rest)
        (count best.client (keys empty_time))
        (count best.client s.active_client_list))
      (others : (j : ℕ)
        → (best.client == j) ≡ false
        → count j (keys empty_time) ≡ count j (keys s.queue_empty_time)) where
    abbrev shorter : Wfq
    shorter = record s {
      queues = insert best.client best.rest s.queues;
      queue_empty_time = empty_time;
      occ = occ;
    }

    Ascending-rest :
        (j : ℕ) → best.client ≡ j → Ascending best.rest (lookup_or (pos 0) j s.last_vir_finish)
    Ascending-rest j e =
        let here : Ascending (best.head ∷ best.rest) (lookup_or (pos 0) j s.last_vir_finish) =
          subst (λ l. Ascending l (lookup_or (pos 0) j s.last_vir_finish))
            {y = best.head ∷ best.rest} (ground (arith, from, e)) (h.ordered j) in
        Ascending-tail best.head best.rest (lookup_or (pos 0) j s.last_vir_finish) here

    Waiting-after :
        (j : ℕ)
        → Waiting
            (lookup j shorter.queues)
            (count j (keys empty_time))
            (count j s.active_client_list)
    Waiting-after j = elim (Bool-cases (best.client == j)) [
      | inl same ↦
          subst (λ o. Waiting o (count j (keys empty_time)) (count j s.active_client_list))
            {x = some best.rest} (ground (arith, lookup-insert best.client j best.rest s.queues))
            (subst
              (λ k.
                Waiting (some best.rest) (count k (keys empty_time)) (count k s.active_client_list))
              ((==_iff best.client j).0 same) waits)
      | inr other ↦
          subst (λ o. Waiting o (count j (keys empty_time)) (count j s.active_client_list))
            {x = lookup j s.queues} (ground (arith, lookup-insert best.client j best.rest s.queues))
            (subst (λ e. Waiting (lookup j s.queues) e (count j s.active_client_list))
              (sym (others j other)) (h.waiting j))
    ]

    IsValid-shorter : IsValid shorter
    IsValid-shorter = record {
      stored = counted;
      weights = record {
        total = h.weights.total;
        once = h.weights.once;
        weighed = h.weights.weighed;
        positive = h.weights.positive;
      };
      owners = λ j. AllOwn-insert best.client j best.rest s.queues own.1 (h.owners j);
      idle = idles;
      waiting = Waiting-after;
      ordered = λ j.
          Ascending-insert best.client j best.rest s.queues (lookup_or (pos 0) j s.last_vir_finish)
            (λ e. Ascending-rest j e) (h.ordered j);
      timed = λ j k.
          h.timed j (ground (arith, k, from, lookup-insert best.client j best.rest s.queues));
    }

-- The last request of a queue leaves it: the client is recorded as idle, which it was not.
pop_last :
    (now : ℕ) (s : Wfq) (h : IsValid s) (c : ℕ) (req : Req)
    → lookup c s.queues ≡ some (req ∷ [])
    → (t : Wfq) × (pop now (record { client = c; head = req; rest = [] }) s ≡ ok t)
      × (t.queues ≡ insert c [] s.queues)
      × (t.occ ≡ s.occ)
      × ((occ : Occupancy)
          → Counts (total length (insert c [] s.queues)) occ
          → IsValid (record t { occ = occ }))
unfolding pop
pop_last now s h c req from =
    let best : Candidate = record { client = c; head = req; rest = [] } in
    let (same, _) = own now s h best from in
    let (idle, active) = active_once now s h best from in
    let here : has_key req.client_id s.queue_empty_time ≡ false =
      rw same (ground (arith, has_key_iff_count c s.queue_empty_time, idle)) in
    (
      record s {
        queues = insert c [] s.queues;
        queue_empty_time = insert req.client_id now s.queue_empty_time;
      },
      rw here,
      refl,
      refl,
      λ occ counted.
          IsValid-shorter now s h best from occ counted
            (insert req.client_id now s.queue_empty_time)
            (λ j.
              ground
                (arith, h.idle j, count-keys-insert req.client_id j now s.queue_empty_time, here))
            tt
            (λ j other. ground (arith, count-keys-insert req.client_id j now s.queue_empty_time)),
    )

pop_more :
    (now : ℕ) (s : Wfq) (h : IsValid s) (c : ℕ) (req next : Req) (rest : List Req)
    → lookup c s.queues ≡ some (req ∷ next ∷ rest)
    → (t : Wfq) × (pop now (record { client = c; head = req; rest = next ∷ rest }) s ≡ ok t)
      × (t.queues ≡ insert c (next ∷ rest) s.queues)
      × (t.occ ≡ s.occ)
      × ((occ : Occupancy)
          → Counts (total length (insert c (next ∷ rest) s.queues)) occ
          → IsValid (record t { occ = occ }))
unfolding pop
pop_more now s h c req next rest from =
    let best : Candidate = record { client = c; head = req; rest = next ∷ rest } in
    (
      record s { queues = insert c (next ∷ rest) s.queues },
      refl,
      refl,
      refl,
      λ occ counted.
          IsValid-shorter now s h best from occ counted s.queue_empty_time h.idle
            (active_once now s h best from) (λ j other. refl),
    )

popped :
    (now : ℕ) (s : Wfq) (h : IsValid s) (c : ℕ) (req : Req) (rest : List Req)
    → lookup c s.queues ≡ some (req ∷ rest)
    → (t : Wfq) × (pop now (record { client = c; head = req; rest = rest }) s ≡ ok t)
      × (t.queues ≡ insert c rest s.queues)
      × (t.occ ≡ s.occ)
      × ((occ : Occupancy)
          → Counts (total length (insert c rest s.queues)) occ
          → IsValid (record t { occ = occ }))
popped now s h c req [] from = pop_last now s h c req from
popped now s h c req (next ∷ rest) from = pop_more now s h c req next rest from

abbrev pub head_of : Option Candidate → Option Req
head_of none = none
head_of (some best) = some best.head

-- The queues without the first request of the chosen one.
abbrev pub queues_after : Option Candidate → Dict (List Req) → Dict (List Req)
queues_after none queues = queues
queues_after (some best) queues = insert best.client best.rest queues

pub record Delivers (s : Wfq) (b : Option Candidate) (r : Served Wfq) : Type 0 where
  pub request : r.req ≡ head_of b
  pub left : r.state.queues ≡ queues_after b s.queues
  pub valid : IsValid r.state

pub deliver-Delivers :
    (now : ℕ) (s : Wfq) (b : Option Candidate)
    → IsValid s
    → FromQueue s.queues b
    → (r : Served Wfq) × (deliver now s b ≡ ok r) × Delivers s b r
deliver-Delivers now s none h from = (
  record { state = s; req = none; notified = []; proceed = false },
  refl,
  record { request = refl; left = refl; valid = h },
)
deliver-Delivers now s (some best) h from =
    let (t, done, queues, same, valid) = popped now s h best.client best.head best.rest from in
    let full =
      subst (λ o. Counts (suc (total length (insert best.client best.rest s.queues))) o) (sym same)
        (Counts-eq _ _ s.occ (sym (one_less now s h best from)) h.stored) in
    let (occ, taken, counted) =
      Counts-take_one now (total length (insert best.client best.rest s.queues)) t.occ full in
    (
      record {
        state = record t { occ = occ };
        req = some best.head;
        notified = s.notify_list;
        proceed = false;
      },
      rw (done, taken),
      record { request = refl; left = queues; valid = valid occ counted },
    )

any_answers : (c : ℕ) (t : Unit {0}) → Unit {0} → ((any_client c t).0 ≡ true) × Unit {0}
any_answers c t g = (refl, tt)

-- In a valid state `_do_get` raises nothing. Among the first requests of all queues it serves one
-- with the least virtual finish time, and nothing only if all queues are empty. Exactly this
-- request leaves its queue, and the state stays valid.
pub get-Delivers :
    (now : ℕ) (s : Wfq)
    → IsValid s
    → (b : Option Candidate) × IsChoice (λ c. true) s.queues b
      × (r : Served Wfq) × (do_get now s ≡ ok r)
      × Delivers s b r
unfolding do_get
get-Delivers now s h =
    let (_, choice) =
      select-IsChoice any_client (λ t. Unit) (λ c. true) any_answers s.queues tt tt in
    let b = (select any_client (keys s.queues) s.queues (none, tt)).0 in
    let (r, done, delivers) = deliver-Delivers now s b h choice.from in
    (b, choice, r, done, delivers)
