-- ===== src/LimitFifo/Limits.antt =====
-- LimitInFlightFIFOScheduler keeps the limits and skips a request only because of them.
use mathlib.Core.Path.{subst}
use tam_simulation.Prelude.{
  ℕ, ◌+◌, ◌≤◌, ◌≡◌, refl, sym, ◌∙◌, ap, inl, inr, true, false, Bool-cases, Option, none, some, List,
  [], ◌∷◌, ◌++◌, ◌<◌, arith, ◌==◌, if◌then◌else◌,
}
use tam_simulation.Result.{ok}
use tam_simulation.Req.{Req, remove_req}
use tam_simulation.Dict.{lookup, insert}
use tam_simulation.Flight.{Flight, satisfy_flight, send_one_req}
use tam_simulation.Flight.Bounds.{
  in_flight, IsLimited, in_flight-satisfy, limit-satisfy, in_flight-send, send-IsLimited,
}
use tam_simulation.Scheduler.{Served}
use tam_simulation.LimitFifo.{LimitFifo, do_get, sent, send, first_allowed}

-- The client has a limit, and as many requests in flight.
abbrev pub IsBlocked : Flight → ℕ → Type 0
IsBlocked f c = (satisfy_flight c f).0 ≡ false

abbrev pub AllBlocked : Flight → List Req → Type 0
AllBlocked f [] = Unit
AllBlocked f (r ∷ rs) = IsBlocked f r.client_id × AllBlocked f rs

-- Two flights with the same numbers and the same limits.
pub record SameFlight (f g : Flight) : Type 0 where
  pub numbers : (j : ℕ) → in_flight j g ≡ in_flight j f
  pub limits : g.flight_limit ≡ f.flight_limit

pub blocked_of_numbers :
    (c : ℕ) (f g : Flight) → SameFlight f g → (satisfy_flight c g).0 ≡ (satisfy_flight c f).0
unfolding satisfy_flight
blocked_of_numbers c f g h = ground (arith, h.numbers c, h.limits)

AllBlocked-same :
    (rs : List Req) (f g : Flight) → SameFlight f g → AllBlocked g rs → AllBlocked f rs
AllBlocked-same [] f g h b = tt
AllBlocked-same (r ∷ rs) f g h (b, bs) =
    (sym (blocked_of_numbers r.client_id f g h) ∙ b, AllBlocked-same rs f g h bs)

pub SameFlight-satisfy : (c : ℕ) (f : Flight) → SameFlight f (satisfy_flight c f).1
SameFlight-satisfy c f = record { numbers = in_flight-satisfy c f; limits = limit-satisfy c f }

-- What the loop finds.
abbrev Found : Flight → List Req → Option Req → Type 0
Found f items none = AllBlocked f items
Found f items (some r) =
    (before : List Req) × (after : List Req) × (items ≡ before ++ r ∷ after)
    × AllBlocked f before
    × ((satisfy_flight r.client_id f).0 ≡ true)

Found-later :
    (r : Req) (rs : List Req) (f : Flight) (o : Option Req)
    → IsBlocked f r.client_id
    → Found (satisfy_flight r.client_id f).1 rs o
    → Found f (r ∷ rs) o
Found-later r rs f none b found =
    (b, AllBlocked-same rs f _ (SameFlight-satisfy r.client_id f) found)
Found-later r rs f (some x) b (before, after, split, blocked, fits) =
    let same = SameFlight-satisfy r.client_id f in
    (
      r ∷ before,
      after,
      ap (λ l. r ∷ l) split,
      (b, AllBlocked-same before f _ same blocked),
      sym (blocked_of_numbers x.client_id f _ same) ∙ fits,
    )

pub first_allowed-Found :
    (items : List Req) (f : Flight)
    → Found f items (first_allowed items f).0 × SameFlight f (first_allowed items f).1
unfolding first_allowed
first_allowed-Found [] f = (tt, record { numbers = λ j. refl; limits = refl })
first_allowed-Found (r ∷ rs) f =
    let (found, same) = first_allowed-Found rs (satisfy_flight r.client_id f).1 in
    let here = SameFlight-satisfy r.client_id f in
    elim (Bool-cases (satisfy_flight r.client_id f).0) [
      | inl fits ↦ rw fits (([], rs, refl, tt, fits), here)
      | inr blocked ↦ rw blocked (
        Found-later r rs f _ blocked found,
        record {
          numbers = λ j. same.numbers j ∙ here.numbers j;
          limits = same.limits ∙ here.limits;
        },
      )
    ]

abbrev LimitReached : ℕ → Option ℕ → Type 0
LimitReached n none = ⊥
LimitReached n (some limit) = limit ≤ n

abbrev BelowLimit : ℕ → Option ℕ → Type 0
BelowLimit n none = Unit
BelowLimit n (some limit) = n < limit

-- The client has a limit and as many requests in flight; or it has no limit or fewer in flight.
abbrev pub AtLimit : Flight → ℕ → Type 0
AtLimit f c = LimitReached (in_flight c f) (lookup c f.flight_limit)

abbrev pub HasRoom : Flight → ℕ → Type 0
HasRoom f c = BelowLimit (in_flight c f) (lookup c f.flight_limit)

AtLimit-of_blocked : (c : ℕ) (f : Flight) → IsBlocked f c → AtLimit f c
unfolding satisfy_flight
AtLimit-of_blocked c f h = ground arith

HasRoom-of_fits : (c : ℕ) (f : Flight) → (satisfy_flight c f).0 ≡ true → HasRoom f c
unfolding satisfy_flight
HasRoom-of_fits c f h = ground arith

abbrev pub AllAtLimit : Flight → List Req → Type 0
AllAtLimit f [] = Unit
AllAtLimit f (r ∷ rs) = AtLimit f r.client_id × AllAtLimit f rs

all_at_limit : (rs : List Req) (f : Flight) → AllBlocked f rs → AllAtLimit f rs
all_at_limit [] f b = tt
all_at_limit (r ∷ rs) f (b, bs) = (AtLimit-of_blocked r.client_id f b, all_at_limit rs f bs)

-- The outcome of `_do_get`, told by the queue and the numbers in flight before it.
abbrev pub Outcome : LimitFifo → Option Req → LimitFifo → Type 0
Outcome s none s' =
    AllAtLimit s.flight s.queue.items
    × ((j : ℕ) → in_flight j s'.flight ≡ in_flight j s.flight)
    × (s'.queue.items ≡ s.queue.items)
Outcome s (some req) s' =
    (before : List Req) × (after : List Req) × (s.queue.items ≡ before ++ req ∷ after)
    × AllAtLimit s.flight before
    × HasRoom s.flight req.client_id
    × ((j : ℕ)
        → in_flight j s'.flight
          ≡ (if req.client_id == j then in_flight j s.flight + 1 else in_flight j s.flight))
    × (s'.queue.items ≡ remove_req req s.queue.items)

pub IsLimited-same : (f g : Flight) → SameFlight f g → IsLimited f → IsLimited g
IsLimited-same f g h l = record { within = λ j. rw (h.numbers j, h.limits) (l.within j) }

pub send_fits :
    (c : ℕ) (f g : Flight)
    → SameFlight f g
    → (satisfy_flight c f).0 ≡ true
    → (f' : Flight) × (send_one_req c g ≡ ok f')
unfolding satisfy_flight send_one_req
send_fits c f g h fits = (
  record g { current_flight = insert c (in_flight c g + 1) g.current_flight },
  ground (arith, h.numbers c, h.limits),
)

send-Outcome :
    (now : ℕ) (s : LimitFifo) (f : Flight) (o : Option Req)
    → IsLimited s.flight
    → SameFlight s.flight f
    → Found s.flight s.queue.items o
    → (r : Served LimitFifo) × (send now s f o ≡ ok r)
      × (r.req ≡ o)
      × IsLimited r.state.flight
      × Outcome s o r.state
send-Outcome now s f none l same found = (
  _,
  refl,
  refl,
  IsLimited-same s.flight f same l,
  (all_at_limit s.queue.items s.flight found, same.numbers, refl),
)
send-Outcome now s f (some req) l same (before, after, split, blocked, fits) =
    let (f', done) = send_fits req.client_id s.flight f same fits in
    (
      sent now s req f',
      rw done,
      refl,
      send-IsLimited req.client_id f (IsLimited-same s.flight f same l) done,
      (
        before,
        after,
        split,
        all_at_limit before s.flight blocked,
        HasRoom-of_fits req.client_id s.flight fits,
        λ j. ground (arith, in_flight-send req.client_id f done j, same.numbers j),
        refl,
      ),
    )

-- Under the limits `_do_get` raises nothing and keeps them. If it serves nothing, each queued
-- request belongs to a client at its limit, and neither the queue nor the numbers in flight change.
-- If it serves a request, its client was below its limit or has none, all requests before it in the
-- queue belong to clients at their limit, it alone is removed, and one more of its client is in flight.
pub get-Outcome :
    (now : ℕ) (s : LimitFifo)
    → IsLimited s.flight
    → (r : Served LimitFifo) × (do_get now s ≡ ok r)
      × IsLimited r.state.flight
      × Outcome s r.req r.state
unfolding do_get
get-Outcome now s l =
    let (found, same) = first_allowed-Found s.queue.items s.flight in
    let (r, done, out, limited, outcome) =
      send-Outcome now s (first_allowed s.queue.items s.flight).1
        (first_allowed s.queue.items s.flight).0 l same found in
    (r, done, limited, subst (λ o. Outcome s o r.state) (sym out) outcome)
