-- ===== src/Occupancy.antt =====
-- scheduler.py, class OccupancyCalc: how much of the time since the last report the queue of a
-- scheduler was not empty. `now` is `self.env.now`. Times are whole numbers of a fixed unit, and a
-- difference of two times is an integer.
pub mod Meter
pub mod Busy
pub mod Counts
use tam_simulation.Prelude.{
  ℕ, zero, suc, ◌+◌, ℤ, pos, sub_ℕ, ◌+ℤ◌, ◌-ℤ◌, ◌≡◌, refl, Bool, Option, none, some, arith, ◌==◌,
  if◌then◌else◌, pos_part, neg_part,
}
use tam_simulation.Result.{Result, ok, err, assertion_error}

pub record Occupancy : Type 0 where
  pub current_in_store : ℤ
  pub queue_start_fill : Option ℕ
  pub occupied_time : ℤ
  pub credit_time : ℤ
  pub last_report_time : ℕ

-- The fields as every scheduler's constructor sets them.
unfoldable pub fresh : ℕ → Occupancy
fresh now = record {
  current_in_store = pos 0;
  queue_start_fill = none;
  occupied_time = pos 0;
  credit_time = pos 0;
  last_report_time = now;
}

abbrev is_value : ℤ → ℕ → Bool
is_value a n = pos_part a == n + neg_part a

-- occupancy_calc_add_one_to_queue
unfoldable pub add_one : ℕ → Occupancy → Occupancy
unfolding ◌+ℤ◌
add_one now o =
    let current = o.current_in_store +ℤ pos 1 in
    record o {
      current_in_store = current;
      queue_start_fill = if is_value current 1 then some now else o.queue_start_fill;
    }

abbrev stop_fill : ℕ → ℤ → Occupancy → Option ℕ → Result Occupancy
stop_fill now current o none = err assertion_error
stop_fill now current o (some start) = ok (record o {
  current_in_store = current;
  queue_start_fill = none;
  occupied_time = o.occupied_time +ℤ sub_ℕ now start;
})

-- occupancy_calc_take_one_from_queue
unfoldable pub take_one : ℕ → Occupancy → Result Occupancy
unfolding ◌-ℤ◌
take_one now o =
    let current = o.current_in_store -ℤ pos 1 in
    if is_value current 0
    then stop_fill now current o o.queue_start_fill
    else ok (record o { current_in_store = current })

abbrev in_process : ℕ → Option ℕ → ℤ
in_process now none = pos 0
in_process now (some start) = sub_ℕ now start

-- get_occupancy. The float is the pair of its numerator and its denominator, and NaN is `none`.
unfoldable pub get_occupancy : ℕ → Occupancy → Option (ℤ × ℤ) × Occupancy
get_occupancy now o =
    let interval = sub_ℕ now o.last_report_time in
    let current = in_process now o.queue_start_fill in
    if is_value interval 0 then (none, o) else (
      some (o.occupied_time +ℤ current -ℤ o.credit_time, interval),
      record o { occupied_time = pos 0; credit_time = current; last_report_time = now },
    )
