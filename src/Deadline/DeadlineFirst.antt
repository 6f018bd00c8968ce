-- ===== src/Deadline/DeadlineFirst.antt =====
-- EDFScheduler: what a get hands out, as long as every client has an entry in `queue_size_dict`.
use tam_simulation.Prelude.{
  ℕ, ℤ, pos, ◌+ℤ◌, ◌-ℤ◌, ◌≡◌, refl, true, false, Option, none, some, List, [], ◌∷◌, ◌++◌, arith,
  length, ◌==◌, Bool-cases, inl, inr,
}
use mathlib.Core.Path.{subst}
use tam_simulation.Result.{ok}
use tam_simulation.Dict.{Dict, total, lookup_or, has_key, insert, lookup_of_has_key, lookup-insert}
use tam_simulation.Req.{Req}
use tam_simulation.Occupancy.{add_one}
use tam_simulation.Occupancy.Counts.{
  Counts, Counts-eq, Counts-add_one, Counts-take_one, Counts-fresh,
}
use tam_simulation.Scheduler.{Stored, Served}
use tam_simulation.Buckets.{store}
use tam_simulation.Buckets.Least.{
  IsTidy, IsTidy-empty, IsEarliest, Taken, take_least-Taken, store-IsTidy, total-store,
}
use tam_simulation.Deadline.{Edf, edf_init, edf_put, edf_get, edf_serve}
use tam_simulation.Deadline.FinishFirst.{Answered}

-- The clients of the requests have a size.
abbrev pub AllKnown : Dict ℤ → List Req → Type 0
AllKnown sizes [] = Unit
AllKnown sizes (x ∷ xs) = (has_key x.client_id sizes ≡ true) × AllKnown sizes xs

pub record IsValid (s : Edf) : Type 0 where
  pub tidy : IsTidy s.deadline_req_list_dict
  pub stored : Counts (total length s.deadline_req_list_dict) s.occ
  pub known : (k : ℕ) → AllKnown s.queue_size_dict (lookup_or [] k s.deadline_req_list_dict)

pub IsValid-init : (now : ℕ) → IsValid (edf_init now)
unfolding edf_init
IsValid-init now = record { tidy = IsTidy-empty; stored = Counts-fresh now; known = λ k. tt }

AllKnown-insert :
    (c : ℕ) (n : ℤ) (sizes : Dict ℤ) (q : List Req)
    → AllKnown sizes q
    → AllKnown (insert c n sizes) q
AllKnown-insert c n sizes [] h = tt
AllKnown-insert c n sizes (x ∷ xs) h =
    (ground (arith, lookup-insert c x.client_id n sizes, h.0), AllKnown-insert c n sizes xs h.1)

AllKnown-snoc :
    (sizes : Dict ℤ) (q : List Req) (req : Req)
    → AllKnown sizes q
    → has_key req.client_id sizes ≡ true
    → AllKnown sizes (q ++ req ∷ [])
AllKnown-snoc sizes [] req h e = (e, tt)
AllKnown-snoc sizes (x ∷ xs) req h e = (h.0, AllKnown-snoc sizes xs req h.1 e)

AllKnown-store :
    (sizes : Dict ℤ) (time k : ℕ) (req : Req) (d : Dict (List Req))
    → ((j : ℕ) → AllKnown sizes (lookup_or [] j d))
    → has_key req.client_id sizes ≡ true
    → AllKnown sizes (lookup_or [] k (store time req d))
unfolding store
AllKnown-store sizes time k req d h e = elim (Bool-cases (time == k)) [
  | inl same ↦
      subst (AllKnown sizes) {x = lookup_or [] time d ++ req ∷ []}
        (ground (arith, lookup-insert time k (lookup_or [] time d ++ req ∷ []) d))
        (AllKnown-snoc sizes _ req (h time) e)
  | inr other ↦
      subst (AllKnown sizes) {x = lookup_or [] k d}
        (ground (arith, lookup-insert time k (lookup_or [] time d ++ req ∷ []) d)) (h k)
]

-- A request with a deadline, of a client that has a size, is stored; the scheduler stays valid.
pub put-IsValid :
    (now t : ℕ) (req : Req) (s : Edf)
    → req.deadline ≡ some t
    → has_key req.client_id s.queue_size_dict ≡ true
    → IsValid s
    → (r : Stored Edf) × (edf_put now req s ≡ ok r)
      × IsValid r.state
      × (r.state.deadline_req_list_dict ≡ store t req s.deadline_req_list_dict)
unfolding edf_put
put-IsValid now t req s e c h =
    let (n, found) = lookup_of_has_key req.client_id s.queue_size_dict c in
    (
      record {
        state = record s {
          deadline_req_list_dict = store t req s.deadline_req_list_dict;
          queue_size_dict = insert req.client_id (n +ℤ pos 1) s.queue_size_dict;
          occ = add_one now s.occ;
        };
        stored = true;
      },
      rw (e, found) refl,
      record {
        tidy = store-IsTidy t req s.deadline_req_list_dict h.tidy;
        stored =
            Counts-eq _ _ _ (total-store t req s.deadline_req_list_dict)
              (Counts-add_one now _ s.occ h.stored);
        known = λ k.
            AllKnown-insert _ _ _ _
              (AllKnown-store s.queue_size_dict t k req s.deadline_req_list_dict h.known c);
      },
      refl,
    )

AllKnown-rest :
    (sizes : Dict ℤ) (req : Req) (d d' : Dict (List Req)) (k : ℕ)
    → ((j : ℕ) → AllKnown sizes (lookup_or [] j d))
    → (first : IsEarliest d req d') → AllKnown sizes (req ∷ first.rest)
    → AllKnown sizes (lookup_or [] k d')
AllKnown-rest sizes req d d' k h first own = elim (Bool-cases (first.time == k)) [
  | inl same ↦ subst (AllKnown sizes) {x = first.rest} (ground (arith, first.others k, same)) own.1
  | inr other ↦
      subst (AllKnown sizes) {x = lookup_or [] k d} (ground (arith, first.others k, other)) (h k)
]

serve-Answered :
    (now : ℕ) (s : Edf) (o : Option (Req × Dict (List Req)))
    → Taken s.deadline_req_list_dict o
    → IsValid s
    → (r : Served Edf) × (edf_serve now s o ≡ ok r)
      × IsValid r.state
      × Answered s.deadline_req_list_dict r.req r.state.deadline_req_list_dict
serve-Answered now s none none_left h = (_, refl, h, (none_left, refl))
serve-Answered now s (some (req, rest)) (first, tidy, fewer) h =
    let (occ, e, counts) = Counts-take_one now _ s.occ (Counts-eq _ _ _ fewer h.stored) in
    let own : AllKnown s.queue_size_dict (req ∷ first.rest) =
      subst (AllKnown s.queue_size_dict) {y = req ∷ first.rest} (ground (arith, first.first))
        (h.known first.time) in
    let (n, found) = lookup_of_has_key req.client_id s.queue_size_dict own.0 in
    (
      record {
        state = record s {
          deadline_req_list_dict = rest;
          queue_size_dict = insert req.client_id (n -ℤ pos 1) s.queue_size_dict;
          occ = occ;
        };
        req = some req;
        notified = s.notify_list;
        proceed = false;
      },
      rw (e, found) refl,
      record {
        tidy = tidy;
        stored = counts;
        known = λ k.
            AllKnown-insert _ _ _ _ (
              AllKnown-rest s.queue_size_dict req s.deadline_req_list_dict rest k h.known first
                own);
      },
      first,
    )

-- In a valid state `_do_get` raises nothing and keeps validity. It hands out a request if any
-- waits: the first in the list of a deadline that no other one precedes, and all the other
-- requests stay where they are.
pub edf_get-Answered :
    (now : ℕ) (s : Edf)
    → IsValid s
    → (r : Served Edf) × (edf_get now s ≡ ok r)
      × IsValid r.state
      × Answered s.deadline_req_list_dict r.req r.state.deadline_req_list_dict
unfolding edf_get
edf_get-Answered now s h =
    serve-Answered now s _ (take_least-Taken s.deadline_req_list_dict h.tidy) h
