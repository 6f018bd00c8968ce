-- ===== src/Flight/Bounds.antt =====
-- The limits hold: what `satisfy_flight` lets through can be sent, and no client with a limit ever
-- has more requests in flight.
use tam_simulation.Prelude.{
  ℕ, suc, ◌+◌, ◌≤◌, ◌≡◌, ◌↔◌, true, Option, none, some, arith, ◌==◌, if◌then◌else◌,
}
use tam_simulation.Result.{ok, bind-eq-ok}
use tam_simulation.Dict.{lookup, lookup_or, insert, lookup-insert}
use tam_simulation.Flight.{
  Flight, asserted, decrease, send_one_req, complete_one_req, satisfy_flight,
}

-- Requests of a client in flight.
abbrev pub in_flight : ℕ → Flight → ℕ
in_flight c f = lookup_or 0 c f.current_flight

abbrev pub Below : ℕ → Option ℕ → Type 0
Below n none = Unit
Below n (some limit) = n ≤ limit

pub record IsLimited (f : Flight) : Type 0 where
  pub within : (c : ℕ) → Below (in_flight c f) (lookup c f.flight_limit)

module _ (c : ℕ) (f : Flight) where
  -- `satisfy_flight` changes neither the limits nor the numbers in flight.
  pub in_flight-satisfy : (j : ℕ) → in_flight j (satisfy_flight c f).1 ≡ in_flight j f
  unfolding satisfy_flight
  in_flight-satisfy j = ground (arith, lookup-insert c j 0 f.current_flight)

  pub limit-satisfy : (satisfy_flight c f).1.flight_limit ≡ f.flight_limit
  unfolding satisfy_flight
  limit-satisfy = ground arith

  -- The test is true exactly where sending the request raises nothing.
  pub satisfy_iff_send :
      (satisfy_flight c f).0 ≡ true
      ↔ ((f' : Flight) × (send_one_req c (satisfy_flight c f).1 ≡ ok f'))
  unfolding satisfy_flight send_one_req
  satisfy_iff_send =
      let g = (satisfy_flight c f).1 in
      (
        λ h. (
          record g { current_flight = insert c (in_flight c g + 1) g.current_flight },
          ground (arith, lookup-insert c c 0 f.current_flight),
        ),
        λ (f', h). ground (arith, lookup-insert c c 0 f.current_flight),
      )

  module _ {f' : Flight} where
    pub in_flight-send :
        send_one_req c f ≡ ok f'
        → (j : ℕ) → in_flight j f' ≡ (if c == j then in_flight j f + 1 else in_flight j f)
    unfolding send_one_req
    in_flight-send h j = ground (arith, lookup-insert c j (in_flight c f + 1) f.current_flight)

    pub complete_one_req_inv :
        complete_one_req c f ≡ ok f'
        → (n : ℕ) × (lookup c f.current_flight ≡ some (suc n))
          × (f' ≡ record f { current_flight = insert c n f.current_flight })
    unfolding complete_one_req
    complete_one_req_inv h =
        let (current, found, rest) = bind-eq-ok (asserted (lookup c f.current_flight)) _ h in
        let (left, fell, last) = bind-eq-ok (decrease current) _ rest in
        (left, ground arith, ground arith)

    pub in_flight_complete :
        complete_one_req c f ≡ ok f'
        → (j : ℕ) → in_flight j f ≡ (if c == j then in_flight j f' + 1 else in_flight j f')
    in_flight_complete h j =
        let (n, found, after) = complete_one_req_inv h in
        ground (arith, lookup-insert c j n f.current_flight)

    pub limit-send : send_one_req c f ≡ ok f' → f'.flight_limit ≡ f.flight_limit
    unfolding send_one_req
    limit-send h = ground arith

    pub limit_complete : complete_one_req c f ≡ ok f' → f'.flight_limit ≡ f.flight_limit
    limit_complete h = let (n, found, after) = complete_one_req_inv h in ground arith

    pub send-IsLimited : IsLimited f → send_one_req c f ≡ ok f' → IsLimited f'
    unfolding send_one_req
    send-IsLimited l h = record {
      within =
          λ j. ground (arith, l.within j, lookup-insert c j (in_flight c f + 1) f.current_flight);
    }

    pub complete-IsLimited : IsLimited f → complete_one_req c f ≡ ok f' → IsLimited f'
    complete-IsLimited l h = record {
      within = λ j. ground (arith, l.within j, in_flight_complete h j, limit_complete h);
    }

  pub satisfy-IsLimited : IsLimited f → IsLimited (satisfy_flight c f).1
  satisfy-IsLimited l = record {
    within = λ j. rw (in_flight-satisfy j, limit-satisfy) (l.within j);
  }
