-- ===== src/Tests/Keys.antt =====
-- A small ring of machines.
use tam_simulation.Prelude.{ℕ, ◌+◌, ◌*◌, ◌≡◌, ◌↔◌, ◌%◌, arith, length}
use tam_simulation.Result.{ok}
use tam_simulation.Ring.{Point, ring, get_machine}
use tam_simulation.Ring.Owner.{Listed, IsOwner}
use tam_simulation.Ring.Machines.{IsPoint, get_machine-Owner}

abbrev spread : ℕ → ℕ
spread n = n * 271828 + 314159

abbrev named : ℕ → ℕ → ℕ
named machine replica = machine * 100 + replica

get_machine-Owner_example :
    (length (ring spread named 3 2) ≡ 3 * 2)
    × ((p : Point) → Listed p (ring spread named 3 2) ↔ IsPoint spread named 3 2 p)
    × (p : Point) × (get_machine spread 42 (ring spread named 3 2) ≡ ok p.machine)
    × IsOwner (spread 42 % 1000000) (ring spread named 3 2) p
get_machine-Owner_example = get_machine-Owner spread named 3 2 42 (omega arith) (omega arith)
