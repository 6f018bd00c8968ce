-- ===== src/Stage/Service.antt =====
-- The service of a stage: a start and a finish on the same worker.
use tam_simulation.Prelude.{
  ℕ, suc, ◌+◌, ℤ, pos, sub_ℕ, ◌+ℤ◌, ◌-ℤ◌, ◌≡◌, refl, Option, none, some, List, [], ◌∷◌, ◌++◌,
  length, length-snoc, arith, ltb, lt→ltb, true, ◌<◌,
}
use tam_simulation.Result.{ok}
use tam_simulation.Dict.{Dict, lookup, lookup_or, insert, lookup-insert}
use tam_simulation.Req.{Req}
use tam_simulation.Stage.{
  Stage, start_service, finish_service, add_workers, remove_workers, active_start_blocking,
  active_finish_blocking, start_blocking, finish_blocking, drop_workers,
}

back_one : (a : ℤ) → a +ℤ pos 1 -ℤ pos 1 ≡ a
unfolding ◌+ℤ◌ ◌-ℤ◌
back_one a = ground arith

found_again : {V : Type 0} (k : ℕ) (v : V) (d : Dict V) → lookup k (insert k v d) ≡ some v
found_again k v d = ground (arith, lookup-insert k k v d)

-- A worker that starts a request and finishes it raises nothing. The service time is the time
-- between, the total grows by it, and the number of requests in service is that before.
pub service_round :
    (start now w_id : ℕ) (req : Req) (s : Stage)
    → (t : Stage) × (finish_service now w_id req (start_service start w_id req s)
        ≡ ok (sub_ℕ now start, t))
      × (t.total_service_time ≡ s.total_service_time +ℤ sub_ℕ now start)
      × ((c : ℕ) → lookup_or (pos 0) c t.current_service ≡ lookup_or (pos 0) c s.current_service)
unfolding start_service finish_service
service_round start now w_id req s =
    let before = lookup_or (pos 0) req.client_id s.current_service in
    let busy = insert req.client_id (before +ℤ pos 1) s.current_service in
    let started = insert {V = Option ℕ} w_id (some start) s.start_service_time in
    (
      record s {
        current_service = insert req.client_id (before +ℤ pos 1 -ℤ pos 1) busy;
        total_service_time = s.total_service_time +ℤ sub_ℕ now start;
        start_service_time = insert {V = Option ℕ} w_id none started;
      },
      rw
          (
            found_again w_id (some start) s.start_service_time,
            found_again req.client_id (before +ℤ pos 1) s.current_service,
          )
          refl,
      refl,
      λ c. ground (
        arith,
        back_one before,
        lookup-insert req.client_id c (before +ℤ pos 1 -ℤ pos 1) busy,
        lookup-insert req.client_id c (before +ℤ pos 1) s.current_service,
      ),
    )

length_drop_one : (ws : List ℕ) (w : ℕ) → length (drop_workers 1 (ws ++ w ∷ [])) ≡ length ws
length_drop_one [] w = refl
length_drop_one (x ∷ ws) w = length-snoc ws w

-- In an ActiveWorkerStage with a worker, one that blocks and goes on raises nothing and leaves as
-- many workers as there were.
pub blocking_round_keeps_workers :
    (start now w_id : ℕ) (req : Req) (s : Stage)
    → 0 < length s.workers
    → (t : Stage) × (active_finish_blocking now w_id req (active_start_blocking start w_id req s)
        ≡ ok t)
      × (length t.workers ≡ length s.workers)
unfolding active_start_blocking active_finish_blocking start_blocking finish_blocking add_workers
    remove_workers
blocking_round_keeps_workers start now w_id req s h =
    let before = lookup_or (pos 0) req.client_id s.current_blocking in
    let busy = insert req.client_id (before +ℤ pos 1) s.current_blocking in
    let started = insert {V = Option ℕ} w_id (some start) s.start_blocking_time in
    let more = s.workers ++ s.cur_w_id ∷ [] in
    let enough : ltb 1 (length more) ≡ true =
      rw (length-snoc s.workers s.cur_w_id)
        (lt→ltb 1 (suc (length s.workers)) (omega (arith, h))) in
    (
      record s {
        workers = drop_workers 1 more;
        cur_w_id = s.cur_w_id + 1;
        current_blocking = insert req.client_id (before +ℤ pos 1 -ℤ pos 1) busy;
        total_blocking_time = s.total_blocking_time +ℤ sub_ℕ now start;
        start_blocking_time = insert {V = Option ℕ} w_id none started;
      },
      rw
          (
            found_again w_id (some start) s.start_blocking_time,
            found_again req.client_id (before +ℤ pos 1) s.current_blocking,
            enough,
          )
          refl,
      length_drop_one s.workers s.cur_w_id,
    )
