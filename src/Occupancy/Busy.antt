-- ===== src/Occupancy/Busy.antt =====
-- OccupancyCalc refines the meter.
use tam_simulation.Prelude.{
  ℕ, zero, suc, ◌+◌, ◌-◌, ◌≤◌, ℤ, pos, sub_ℕ, ◌+ℤ◌, ◌-ℤ◌, ◌≡◌, refl, Option, none, some, List, [],
  ◌∷◌, map, ◌≤ℤ◌, ◌<ℤ◌, arith, pos_part, neg_part, if◌then◌else◌, ◌==◌,
}
use mathlib.Core.Option
use mathlib.Core.Path.{subst}
use tam_simulation.Result.{Result, ok, ◌>>=◌}
use tam_simulation.Occupancy.{Occupancy, fresh, add_one, take_one, get_occupancy}
use tam_simulation.Occupancy.Meter.{Event, advance, add, take, report, Meter, tick, started}

-- What the code does at an event: the clock moves, or one of the three methods is called.
unfoldable pub handle : Event → ℕ × Occupancy → Result ((ℕ × Occupancy) × Option (ℤ × ℤ))
handle (advance d) (now, o) = ok ((now + d, o), none)
handle add (now, o) = ok ((now, add_one now o), none)
handle take (now, o) = do o' ← take_one now o; ok ((now, o'), none)
handle report (now, o) = let (value, o') = get_occupancy now o in ok ((now, o'), value)

abbrev Filling : ℕ → Option ℕ → ℕ → Type 0
Filling zero none now = Unit
Filling zero (some t) now = ⊥
Filling (suc n) none now = ⊥
Filling (suc n) (some t) now = t ≤ now

abbrev span : ℕ → Option ℕ → ℕ
span now none = 0
span now (some t) = now - t

-- The counter, the clock and the busy time of the code are those of the meter.
pub record Measures (now : ℕ) (o : Occupancy) (m : Meter) : Type 0 where
  pub counted : o.current_in_store ≡ pos m.queued
  pub filling : Filling m.queued o.queue_start_fill now
  pub clock : o.last_report_time + m.elapsed ≡ now
  pub busy :
      pos_part o.occupied_time + span now o.queue_start_fill + neg_part o.credit_time
      ≡ m.busy + pos_part o.credit_time + neg_part o.occupied_time

Measures-fresh : (now : ℕ) → Measures now (fresh now) started
unfolding fresh
Measures-fresh now = ground arith

abbrev as_integers : Option (ℕ × ℕ) → Option (ℤ × ℤ)
as_integers none = none
as_integers (some (a, b)) = some (pos a, pos b)

-- The code and the meter stand at a pair of states that match.
abbrev Simulates : Event → ℕ → Occupancy → Meter → Option (Meter × Option (ℕ × ℕ)) → Type 0
Simulates e now o m none = Unit
Simulates e now o m (some (m', out)) =
    (s : ℕ × Occupancy) × (handle e (now, o) ≡ ok (s, as_integers out)) × Measures s.0 s.1 m'

module _ (now : ℕ) (o : Occupancy) (m : Meter) (h : Measures now o m) where
  simulates-advance :
      (d : ℕ)
      → Measures (now + d) o (record m {
        busy = if m.queued == 0 then m.busy else m.busy + d;
        elapsed = m.elapsed + d;
      })
  simulates-advance d = record {
    counted = h.counted;
    filling = ground arith;
    clock = ground arith;
    busy = ground arith;
  }

  simulates-add : Measures now (add_one now o) (record m { queued = m.queued + 1 })
  unfolding add_one ◌+ℤ◌
  simulates-add = record {
    counted = ground arith;
    filling = ground arith;
    clock = ground arith;
    busy = ground arith;
  }

  report_value :
      (get_occupancy now o).0
      ≡ as_integers (if m.elapsed == 0 then none else some (m.busy, m.elapsed))
  unfolding get_occupancy sub_ℕ ◌+ℤ◌ ◌-ℤ◌
  report_value = ground (arith, h.clock, h.busy, h.filling)

  simulates-report :
      Measures now
        (get_occupancy now o).1
        (if m.elapsed == 0 then m else record m { busy = 0; elapsed = 0 })
  unfolding get_occupancy sub_ℕ
  simulates-report = record {
    counted = ground (arith, h.counted);
    filling = ground (arith, h.filling);
    clock = ground (arith, h.clock);
    busy = ground (arith, h.busy, h.filling, h.clock);
  }

filled :
    (n : ℕ) (start : Option ℕ) (now : ℕ)
    → Filling (suc n) start now
    → (t : ℕ) × (start ≡ some t) × (t ≤ now)
filled n none now f = absurd f
filled n (some t) now f = (t, refl, f)

module _ (now : ℕ) (o : Occupancy) (m : Meter) (h : Measures now o m) where
  simulates-take :
      (n : ℕ)
      → m.queued ≡ suc n
      → (o' : Occupancy) × (take_one now o ≡ ok o') × Measures now o' (record m { queued = n })
  unfolding take_one ◌-ℤ◌ ◌+ℤ◌ sub_ℕ
  simulates-take zero e =
      let full : Filling 1 o.queue_start_fill now = rw e at h.filling in
      let (t, started_at, before) = filled 0 o.queue_start_fill now full in
      (
        record o {
          current_in_store = pos 0;
          queue_start_fill = none;
          occupied_time = o.occupied_time +ℤ sub_ℕ now t;
        },
        ground arith,
        record { counted = refl; filling = tt; clock = h.clock; busy = ground (arith, h.busy) },
      )
  simulates-take (suc n) e = (
    record o { current_in_store = pos (suc n) },
    ground arith,
    record {
      counted = ground arith;
      filling = ground arith;
      clock = ground arith;
      busy = ground arith;
    },
  )

ruleset meter_steps = (arith, simulates-advance, simulates-add)

-- One event: where the meter has a step, the code handles the event without a raise, reports the
-- same number, and its new state matches the meter's.
simulates :
    (e : Event) (now : ℕ) (o : Occupancy) (m m' : Meter) (out : Option (ℕ × ℕ))
    → Measures now o m
    → tick e m ≡ some (m', out)
    → (s : ℕ × Occupancy) × (handle e (now, o) ≡ ok (s, as_integers out)) × Measures s.0 s.1 m'
unfolding tick handle
simulates (advance d) now o m m' out h e =
    ((now + d, o), ground arith, ground (arith, simulates-advance now o m h d))
simulates add now o m m' out h e =
    ((now, add_one now o), ground arith, ground (arith, simulates-add now o m h))
simulates take now o m m' out h e =
    let n = m.queued - 1 in
    let (o', taken, keeps) = simulates-take now o m h n (ground arith) in
    ((now, o'), ground arith, ground (arith, keeps))
simulates report now o m m' out h e = (
  (now, (get_occupancy now o).1),
  ground (arith, report_value now o m h),
  ground (arith, simulates-report now o m h),
)

unfoldable pub meter_run : List Event → Meter → Option (List (Option (ℕ × ℕ)))
meter_run [] m = some []
meter_run (e ∷ es) m =
    Option.bind (tick e m) λ (m', out). Option.map (λ outs. out ∷ outs) (meter_run es m')

-- The methods of one OccupancyCalc, called as the events say.
unfoldable pub run : List Event → ℕ × Occupancy → Result (List (Option (ℤ × ℤ)))
run [] s = ok []
run (e ∷ es) s = do (s', out) ← handle e s; outs ← run es s'; ok (out ∷ outs)

run_simulates :
    (es : List Event) (now : ℕ) (o : Occupancy) (m : Meter) (outs : List (Option (ℕ × ℕ)))
    → Measures now o m
    → meter_run es m ≡ some outs
    → run es (now, o) ≡ ok (map as_integers outs)
unfolding meter_run run
run_simulates [] now o m outs h e = ground arith
run_simulates (ev ∷ es) now o m outs h e =
    let ((m', out), stepped, rest) = (Option.bind-eq-some_iff (tick ev m) _).0 e in
    let (outs', ran, split) = (Option.map-eq-some_iff _ (meter_run es m')).0 rest in
    let (s, handled, h') = simulates ev now o m m' out h stepped in
    let ih = run_simulates es s.0 s.1 m' outs' h' ran in rw (handled, ih, ← split)

-- Whatever the events, as long as nothing is taken from an empty queue: the methods of a fresh
-- OccupancyCalc raise nothing, and each report is the time in which the queue was not empty over
-- the time that passed since the last report.
pub run_refines_meter :
    (es : List Event) (now : ℕ) (outs : List (Option (ℕ × ℕ)))
    → meter_run es started ≡ some outs
    → run es (now, fresh now) ≡ ok (map as_integers outs)
run_refines_meter es now outs e =
    run_simulates es now (fresh now) started outs (Measures-fresh now) e

abbrev IsFraction : Option (ℤ × ℤ) → Type 0
IsFraction none = Unit
IsFraction (some (a, b)) = (pos 0 ≤ℤ a) × (a ≤ℤ b) × (pos 0 <ℤ b)

abbrev pub AllFractions : List (Option (ℤ × ℤ)) → Type 0
AllFractions [] = Unit
AllFractions (out ∷ outs) = IsFraction out × AllFractions outs

tick-IsFraction :
    (ev : Event) (m m' : Meter) (out : Option (ℕ × ℕ))
    → m.busy ≤ m.elapsed
    → tick ev m ≡ some (m', out)
    → (m'.busy ≤ m'.elapsed) × IsFraction (as_integers out)
unfolding tick
tick-IsFraction (advance d) m m' out h e = ground arith
tick-IsFraction ev m m' out h e = ground arith

meter_fractions :
    (es : List Event) (m : Meter) (outs : List (Option (ℕ × ℕ)))
    → m.busy ≤ m.elapsed
    → meter_run es m ≡ some outs
    → AllFractions (map as_integers outs)
unfolding meter_run
meter_fractions [] m [] h e = tt
meter_fractions [] m (out ∷ outs) h e = cc
meter_fractions (ev ∷ es) m outs h e =
    let ((m', out), stepped, rest) = (Option.bind-eq-some_iff (tick ev m) _).0 e in
    let (outs', ran, split) = (Option.map-eq-some_iff _ (meter_run es m')).0 rest in
    let (h', fraction) = tick-IsFraction ev m m' out h stepped in
    subst (λ l. AllFractions (map as_integers l)) split
      (fraction, meter_fractions es m' outs' h' ran)

-- Every occupancy that a fresh OccupancyCalc reports lies between 0 and 1 and has a positive
-- denominator, whatever the events, as long as nothing is taken from an empty queue.
pub run-AllFractions :
    (es : List Event) (now : ℕ) (expected : List (Option (ℕ × ℕ)))
    → meter_run es started ≡ some expected
    → (outs : List (Option (ℤ × ℤ))) × (run es (now, fresh now) ≡ ok outs) × AllFractions outs
run-AllFractions es now expected e = (
  map as_integers expected,
  run_refines_meter es now expected e,
  meter_fractions es started expected (omega arith) e,
)
