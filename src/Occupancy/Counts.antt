-- ===== src/Occupancy/Counts.antt =====
-- The part of OccupancyCalc that its schedulers rely on: as long as the counter is the length of
-- the queue, taking a request from a queue that is not empty raises nothing.
use tam_simulation.Prelude.{ℕ, zero, suc, pos, sub_ℕ, ◌+ℤ◌, ◌≡◌, refl, Option, none, some, arith}
use tam_simulation.Result.{ok}
use tam_simulation.Occupancy.{Occupancy, fresh, add_one, take_one}

abbrev pub StartsWith : ℕ → Option ℕ → Type 0
StartsWith zero none = Unit
StartsWith zero (some t) = ⊥
StartsWith (suc n) none = ⊥
StartsWith (suc n) (some t) = Unit

-- The counter is `n`, and a filling time is recorded exactly when `n` is not zero.
pub record Counts (n : ℕ) (o : Occupancy) : Type 0 where
  pub counter : o.current_in_store ≡ pos n
  pub start : StartsWith n o.queue_start_fill

pub Counts-fresh : (now : ℕ) → Counts 0 (fresh now)
unfolding fresh
Counts-fresh now = record { counter = refl; start = tt }

pub Counts-add_one : (now n : ℕ) (o : Occupancy) → Counts n o → Counts (suc n) (add_one now o)
unfolding add_one
Counts-add_one now n o h = record { counter = ground arith; start = ground (arith, h.start) }

started_at : (n : ℕ) (start : Option ℕ) → StartsWith (suc n) start → (t : ℕ) × (start ≡ some t)
started_at n none f = absurd f
started_at n (some t) f = (t, refl)

pub Counts-take_one :
    (now n : ℕ) (o : Occupancy)
    → Counts (suc n) o
    → (o' : Occupancy) × (take_one now o ≡ ok o') × Counts n o'
unfolding take_one
Counts-take_one now zero o h =
    let (t, e) = started_at 0 o.queue_start_fill h.start in
    (
      record o {
        current_in_store = pos 0;
        queue_start_fill = none;
        occupied_time = o.occupied_time +ℤ sub_ℕ now t;
      },
      ground (arith, h.counter),
      record { counter = refl; start = tt },
    )
Counts-take_one now (suc n) o h = (
  record o { current_in_store = pos (suc n) },
  ground (arith, h.counter),
  record { counter = refl; start = ground (arith, h.start) },
)

pub Counts-eq : (m n : ℕ) (o : Occupancy) → m ≡ n → Counts n o → Counts m o
Counts-eq m n o e h = rw e h
