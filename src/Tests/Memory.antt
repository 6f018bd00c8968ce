-- ===== src/Tests/Memory.antt =====
-- A MemStore with the quota 10 and one unit of memory in ten as the threshold.
use tam_simulation.Prelude.{◌+◌, ◌*◌, ◌≤◌, ◌≡◌, refl, [], ◌∷◌, some, arith}
use tam_simulation.Result.{ok}
use tam_simulation.Dict.{lookup_or, insert}
use tam_simulation.MemStore.{
  MemStore, Flush, init, do_put, do_get, complete_one_req, under_mem_pressure, largest,
  put_modification,
}
use tam_simulation.MemStore.Limits.{
  System, update, hand_out, Reach, start, later, every_flush_completes, Reach-is_bounded,
}
use tam_simulation.MemStore.Selection.{Outcome, do_get-Outcome}

abbrev empty_store : MemStore
empty_store = init 100 10 5

abbrev two_clients : MemStore
two_clients = (do_put 2 12 (do_put 1 4 empty_store).0).0

abbrev the_flush : Flush
the_flush = record { client_id = 2; flush_size = 12 }

abbrev one_flush : System
one_flush = record { mem = (do_get 10 two_clients).state; pending = the_flush ∷ [] }

do_get_test : (do_get 10 two_clients).req ≡ some the_flush
unfolding do_get largest do_put put_modification init insert under_mem_pressure
do_get_test = refl

flush_is_handed_out : Reach 10 12 100 10 5 one_flush
unfolding do_get largest do_put put_modification init insert under_mem_pressure
flush_is_handed_out =
    later (later (later start (update 1 4 (omega arith))) (update 2 12 (omega arith))) hand_out

every_flush_completes_example :
    (t : MemStore) × (complete_one_req the_flush one_flush.mem ≡ ok t)
    × (t.occupied + the_flush.flush_size ≡ one_flush.mem.occupied)
every_flush_completes_example = every_flush_completes flush_is_handed_out the_flush [] [] refl

Reach-is_bounded_example : lookup_or 0 2 one_flush.mem.stores ≤ 10 * 2 + 12
Reach-is_bounded_example = Reach-is_bounded flush_is_handed_out 2

do_get-Outcome_example : Outcome 10 two_clients (do_get 10 two_clients)
do_get-Outcome_example = do_get-Outcome 10 two_clients
