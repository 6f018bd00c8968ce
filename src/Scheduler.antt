-- ===== src/Scheduler.antt =====
-- What all schedulers of scheduler.py share: the outcome of simpy's callbacks `_do_put` and
-- `_do_get`, which the simulator overrides, and sequences of such calls. simpy itself, which decides
-- when to call them, is not modelled: a sequence of calls at any times stands for it.
use tam_simulation.Prelude.{ℕ, suc, ◌≡◌, refl, Bool, Option, none, some, List, [], ◌∷◌, ◌⊎◌}
use tam_simulation.Result.{Result, ok, err, attribute_error, ◌>>=◌}
use tam_simulation.Req.{Req}

-- After `_do_put`: the scheduler, and whether `event.succeed()` was called.
pub record Stored {ℓ} (S : Type ℓ) : Type ℓ where
  pub state : S
  pub stored : Bool

-- After `_do_get`: the scheduler, the request that the event succeeded with, the schedulers whose
-- `_trigger_get` was called, and the truth of the returned value.
pub record Served {ℓ} (S : Type ℓ) : Type ℓ where
  pub state : S
  pub req : Option Req
  pub notified : List ℕ
  pub proceed : Bool

-- The two callbacks of a scheduler, at a time.
pub record Callbacks {ℓ} (S : Type ℓ) : Type ℓ where
  pub put : ℕ → Req → S → Result (Stored S)
  pub get : ℕ → S → Result (Served S)

-- A call at a time.
pub data Call : Type 0 where
  put : ℕ → Req → Call
  get : ℕ → Call

pub data Reply : Type 0 where
  stored : Bool → Reply
  served : Option Req → Reply

-- The number of gets among the calls.
abbrev pub gets : List Call → ℕ
gets [] = 0
gets (put now req ∷ calls) = gets calls
gets (get now ∷ calls) = suc (gets calls)

-- One of the replies is this one.
abbrev pub Replied : Reply → List Reply → Type 0
Replied r [] = ⊥
Replied r (x ∷ xs) = (x ≡ r) ⊎ Replied r xs

module _ {ℓ} {S : Type ℓ} (c : Callbacks S) where
  -- The replies to a sequence of calls, and the scheduler after it.
  unfoldable pub run : List Call → S → Result (S × List Reply)
  run [] s = ok (s, [])
  run (put now req ∷ calls) s = do
    r ← c.put now req s
    (s', replies) ← run calls r.state
    ok (s', stored r.stored ∷ replies)
  run (get now ∷ calls) s = do
    r ← c.get now s
    (s', replies) ← run calls r.state
    ok (s', served r.req ∷ replies)

  -- A predicate that the callbacks keep, and under which they raise nothing.
  pub record Invariant {κ} (P : S → Type κ) : Type (ℓ ⊔ κ) where
    pub put :
        (now : ℕ) (req : Req) (s : S) → P s → (r : Stored S) × (c.put now req s ≡ ok r) × P r.state
    pub get : (now : ℕ) (s : S) → P s → (r : Served S) × (c.get now s ≡ ok r) × P r.state

  -- Such a predicate holds after every sequence of calls, and no call raises.
  pub run_invariant {κ} :
      {P : S → Type κ}
      → Invariant P
      → (calls : List Call) (s : S) → P s
      → (s' : S) × (replies : List Reply) × (run calls s ≡ ok (s', replies)) × P s'
  unfolding run
  run_invariant inv [] s p = (s, [], refl, p)
  run_invariant inv (put now req ∷ calls) s p =
      let (r, done, p') = inv.put now req s p in
      let (s', replies, ran, q) = run_invariant inv calls r.state p' in
      (s', stored r.stored ∷ replies, rw (done, ran), q)
  run_invariant inv (get now ∷ calls) s p =
      let (r, done, p') = inv.get now s p in
      let (s', replies, ran, q) = run_invariant inv calls r.state p' in
      (s', served r.req ∷ replies, rw (done, ran), q)

-- `self.downstream_stage.req_queue.can_take_more_reqs(client_id)`, for that scheduler's method, or for
-- `downstream_stage` None
unfoldable pub ask_downstream : Option (ℕ → Result Bool) → ℕ → Result Bool
ask_downstream none client_id = err attribute_error
ask_downstream (some can_take_more_reqs) client_id = can_take_more_reqs client_id
