-- ===== src/Fifo/Consistent.antt =====
-- The three counters of a FIFOScheduler always tell the true sizes, so no operation raises.
use tam_simulation.Prelude.{
  ℕ, suc, ◌+◌, ℤ, pos, ◌+ℤ◌, ◌-ℤ◌, ◌≡◌, refl, Option, none, some, List, [], ◌∷◌, ◌++◌, arith,
  length, length-snoc, ◌==◌, if◌then◌else◌, false, Bool-cases, inl, inr,
}
use tam_simulation.Result.{ok}
use tam_simulation.Dict.{lookup, lookup_or, insert, lookup-insert}
use tam_simulation.Req.{Req, count_client}
use tam_simulation.Occupancy.{Occupancy}
use tam_simulation.Occupancy.Counts.{Counts, Counts-fresh, Counts-add_one, Counts-take_one}
use tam_simulation.Scheduler.{Served}
use tam_simulation.Fifo.{Fifo, init, do_put, do_get, serve_head, has_room}

pub record IsConsistent (s : Fifo) : Type 0 where
  pub stored : Counts (length s.items) s.occ
  pub total : s.total_queue_size ≡ pos (length s.items)
  pub sizes : (c : ℕ) → lookup_or (pos 0) c s.queue_size_dict ≡ pos (count_client c s.items)
  pub known : (c : ℕ) → lookup c s.queue_size_dict ≡ none → count_client c s.items ≡ 0

pub IsConsistent-init : (now : ℕ) (capacity : Option ℕ) → IsConsistent (init now capacity)
unfolding init
IsConsistent-init now capacity = record {
  stored = Counts-fresh now;
  total = refl;
  sizes = λ c. refl;
  known = λ c h. refl;
}

count_client-snoc :
    (c : ℕ) (xs : List Req) (r : Req)
    → count_client c (xs ++ r ∷ [])
      ≡ (if r.client_id == c then count_client c xs + 1 else count_client c xs)
count_client-snoc c [] r = refl
count_client-snoc c (x ∷ xs) r = ground (arith, count_client-snoc c xs r)

pos-suc : (n : ℕ) → pos n +ℤ pos 1 ≡ pos (n + 1)
unfolding ◌+ℤ◌
pos-suc n = ground arith

pos-pred : (n : ℕ) → pos (suc n) -ℤ pos 1 ≡ pos n
unfolding ◌-ℤ◌
pos-pred n = ground arith

abbrev grown : Fifo → Req → ℤ
grown s req = lookup_or (pos 0) req.client_id s.queue_size_dict +ℤ pos 1

stored_size :
    (s : Fifo) (req : Req) (c : ℕ)
    → lookup c (insert req.client_id (grown s req) s.queue_size_dict)
      ≡ (if req.client_id == c then some (grown s req) else lookup c s.queue_size_dict)
stored_size s req c = lookup-insert req.client_id c (grown s req) s.queue_size_dict

pub put-IsConsistent :
    (now : ℕ) (req : Req) (s : Fifo) → IsConsistent s → IsConsistent (do_put now req s).state
unfolding do_put
put-IsConsistent now req s h = elim (Bool-cases (has_room (length s.items) s.capacity)) [
  | inl room ↦ rw room (record {
    stored = rw length-snoc (Counts-add_one now _ s.occ h.stored);
    total = ground (arith, h.total, pos-suc (length s.items), length-snoc s.items req);
    sizes = λ c. ground (
      arith,
      h.sizes c,
      h.sizes req.client_id,
      stored_size s req c,
      count_client-snoc c s.items req,
      pos-suc (count_client c s.items),
    );
    known = λ c e. ground (arith, h.known c, stored_size s req c, count_client-snoc c s.items req);
  })
  | inr full ↦ rw full h
]

abbrev pub head? : List Req → Option Req
head? [] = none
head? (x ∷ xs) = some x

abbrev pub tail : List Req → List Req
tail [] = []
tail (x ∷ xs) = xs

-- What `_do_get` returns and leaves.
pub record Serves (s : Fifo) (r : Served Fifo) : Type 0 where
  pub first : r.req ≡ head? s.items
  pub rest : r.state.items ≡ tail s.items
  pub room : r.state.capacity ≡ s.capacity
  pub after : IsConsistent r.state

known_size :
    (d : Option ℤ) (n : ℕ)
    → (d ≡ none → suc n ≡ 0)
    → elim d [ none ↦ pos 0 | some v ↦ v ] ≡ pos (suc n)
    → d ≡ some (pos (suc n))
known_size none n k e = absurd (omega (arith, k refl))
known_size (some v) n k e = cc

module _ (s : Fifo) (req : Req) (rest : List Req) (e : s.items ≡ req ∷ rest)
    (h : IsConsistent s) where
  client_size :
      lookup req.client_id s.queue_size_dict ≡ some (pos (suc (count_client req.client_id rest)))
  client_size =
      known_size (lookup req.client_id s.queue_size_dict) (count_client req.client_id rest)
        (λ k. ground (arith, h.known req.client_id k)) (ground (arith, h.sizes req.client_id))

  IsConsistent-served :
      (occ : Occupancy)
      → Counts (length rest) occ
      → IsConsistent (record s {
        items = rest;
        occ = occ;
        queue_size_dict =
            insert req.client_id
              (pos (suc (count_client req.client_id rest)) -ℤ pos 1)
              s.queue_size_dict;
        total_queue_size = s.total_queue_size -ℤ pos 1;
      })
  IsConsistent-served occ counted = record {
    stored = counted;
    total = ground (arith, h.total, pos-pred (length rest));
    sizes = λ c. ground (
      arith,
      h.sizes c,
      pos-pred (count_client c rest),
      lookup-insert req.client_id c (pos (suc (count_client req.client_id rest)) -ℤ pos 1)
          s.queue_size_dict,
    );
    known = λ c k. ground (
      arith,
      h.known c,
      lookup-insert req.client_id c (pos (suc (count_client req.client_id rest)) -ℤ pos 1)
          s.queue_size_dict,
    );
  }

Serves-first :
    (now : ℕ) (s : Fifo) (items : List Req)
    → s.items ≡ items
    → IsConsistent s
    → (r : Served Fifo) × (serve_head now s items ≡ ok r) × Serves s r
Serves-first now s [] e h = (
  record { state = s; req = none; notified = []; proceed = false },
  refl,
  record { first = rw e; rest = rw e; room = refl; after = h },
)
Serves-first now s (req ∷ rest) e h =
    let full : Counts (suc (length rest)) s.occ = rw e at h.stored in
    let (occ, taken, counted) = Counts-take_one now (length rest) s.occ full in
    (
      record { state = _; req = some req; notified = s.notify_list; proceed = false },
      rw (taken, client_size s req rest e h),
      record {
        first = rw e;
        rest = rw e;
        room = refl;
        after = IsConsistent-served s req rest e h occ counted;
      },
    )

-- In a consistent state `_do_get` raises nothing, hands out the oldest request, if there is one,
-- leaves the others in order, and the state is consistent again.
pub get-Serves :
    (now : ℕ) (s : Fifo) → IsConsistent s → (r : Served Fifo) × (do_get now s ≡ ok r) × Serves s r
unfolding do_get
get-Serves now s h = Serves-first now s s.items refl h
