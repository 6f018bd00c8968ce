-- ===== src/Flight.antt =====
-- scheduler.py, class LimitInFlight: how many requests of a client are being processed, and limits
-- on that number.
pub mod Bounds
use tam_simulation.Prelude.{
  ℕ, zero, suc, ◌+◌, Bool, true, false, Option, none, some, [], ltb, if◌then◌else◌,
}
use tam_simulation.Result.{Result, ok, err, assertion_error, ◌>>=◌, ◌>>◌, assert, require}
use tam_simulation.Dict.{Dict, lookup, lookup_or, insert, has_key}

pub record Flight : Type 0 where
  pub flight_limit : Dict ℕ
  pub current_flight : Dict ℕ

abbrev pub idle : Flight
idle = record { flight_limit = []; current_flight = [] }

unfoldable pub set_flight_limit : ℕ → ℕ → Flight → Flight
set_flight_limit client_id limit f = record f {
  flight_limit = insert client_id limit f.flight_limit;
}

-- get_flight_limit, for one client
unfoldable pub get_flight_limit : ℕ → Flight → Option ℕ
get_flight_limit client_id f = lookup client_id f.flight_limit

abbrev below : ℕ → Option ℕ → Bool
below current none = true
below current (some limit) = ltb current limit

-- The entry of a client in `current_flight`, set to 0 where it is missing.
unfoldable pub send_one_req : ℕ → Flight → Result Flight
send_one_req client_id f =
    let current = lookup_or 0 client_id f.current_flight in
    assert (below current (lookup client_id f.flight_limit))
    >> ok (record f { current_flight = insert client_id (current + 1) f.current_flight })

-- The code subtracts first and asserts that the difference is not negative.
abbrev decrease : ℕ → Result ℕ
decrease zero = err assertion_error
decrease (suc n) = ok n

-- A missing entry fails an `assert`, not a lookup.
abbrev asserted : Option ℕ → Result ℕ
asserted none = err assertion_error
asserted (some n) = ok n

unfoldable pub complete_one_req : ℕ → Flight → Result Flight
complete_one_req client_id f = do
  current ← asserted (lookup client_id f.current_flight)
  left ← decrease current
  ok (record f { current_flight = insert client_id left f.current_flight })

-- The test, and the state after it: the entry of a limited client is created.
unfoldable pub satisfy_flight : ℕ → Flight → Bool × Flight
satisfy_flight client_id f =
    let current = lookup_or 0 client_id f.current_flight in
    elim (lookup client_id f.flight_limit) [
      | none ↦ (true, f)
      | some limit ↦ (
        ltb current limit,
        record f {
          current_flight =
              if has_key client_id f.current_flight
              then f.current_flight
              else insert client_id 0 f.current_flight;
        },
      )
    ]
