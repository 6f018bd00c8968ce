-- ===== src/Occupancy/Meter.antt =====
-- What OccupancyCalc promises: a meter that is told how the time passes and adds up the time in
-- which at least one request was queued.
use tam_simulation.Prelude.{ℕ, ◌+◌, ◌-◌, Option, none, some, ◌==◌, if◌then◌else◌}

pub data Event : Type 0 where
  advance : ℕ → Event
  add take report : Event

pub record Meter : Type 0 where
  pub queued : ℕ
  pub busy : ℕ
  pub elapsed : ℕ

abbrev pub started : Meter
started = record { queued = 0; busy = 0; elapsed = 0 }

-- One event: the new meter, and the report if one was asked for. Nothing is taken from an empty
-- queue, so such an event has no step.
unfoldable pub tick : Event → Meter → Option (Meter × Option (ℕ × ℕ))
tick (advance d) m = some (
  record m { busy = if m.queued == 0 then m.busy else m.busy + d; elapsed = m.elapsed + d },
  none,
)
tick add m = some (record m { queued = m.queued + 1 }, none)
tick take m = if m.queued == 0 then none else some (record m { queued = m.queued - 1 }, none)
tick report m =
    if m.elapsed == 0
    then some (m, none)
    else some (record m { busy = 0; elapsed = 0 }, some (m.busy, m.elapsed))
