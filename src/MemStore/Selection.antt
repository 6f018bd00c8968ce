-- ===== src/MemStore/Selection.antt =====
-- Which client's data `_do_get` hands out to be flushed.
use tam_simulation.Prelude.{
  ℕ, ◌≤◌, ◌<◌, ◌≡◌, inl, inr, ◌⊎◌, true, false, not, ◌&&◌, ◌||◌, Bool-cases, Option, none, some,
  List, [], ◌∷◌, arith, contains, count, ◌==◌, ==_iff, ltb, leb, if◌then◌else◌,
}
use tam_simulation.Dict.{lookup_or, keys, has_key_iff_count}
use tam_simulation.MemStore.{
  MemStore, Flush, Taken, do_get, largest, size_of, take, start_flush, under_mem_pressure,
}
use tam_simulation.MemStore.Flushing.{IsFound, largest-IsFound}

largest-ge_best :
    (cs : List ℕ) (best : Option Flush) (s : MemStore) → size_of best ≤ size_of (largest cs best s)
unfolding largest
largest-ge_best [] best s = omega arith
largest-ge_best (c ∷ cs) best s =
    elim (Bool-cases
      (ltb (size_of best) (lookup_or 0 c s.stores) && not (contains c s.flushing_clients))) [
        | inl better ↦ rw better (
            ground (
              arith,
              better,
              largest-ge_best cs
                  (some (record { client_id = c; flush_size = lookup_or 0 c s.stores })) s,
            ))
        | inr kept ↦ rw kept (largest-ge_best cs best s)
      ]

largest-ge :
    (cs : List ℕ) (best : Option Flush) (s : MemStore) (c : ℕ)
    → 0 < count c cs
    → contains c s.flushing_clients ≡ false
    → lookup_or 0 c s.stores ≤ size_of (largest cs best s)
unfolding largest
largest-ge [] best s c listed free = omega arith
largest-ge (x ∷ cs) best s c listed free =
    let next =
      if ltb (size_of best) (lookup_or 0 x s.stores) && not (contains x s.flushing_clients)
      then some (record { client_id = x; flush_size = lookup_or 0 x s.stores })
      else best in
    let same : size_of next ≤ size_of (largest cs next s) = largest-ge_best cs next s in
    elim (Bool-cases (x == c)) [
      | inl e ↦
          let x_is_c : x ≡ c = (==_iff x c).0 e in
          let kept : lookup_or 0 c s.stores ≤ size_of next =
            elim (Bool-cases (ltb (size_of best) (lookup_or 0 c s.stores))) [
              | inl more ↦ rw (x_is_c, free, more) (omega arith)
              | inr less ↦ rw (x_is_c, free, less) (ground (arith, less))
            ] in
          omega (arith, same, kept)
      | inr other ↦ largest-ge cs next s c (ground (arith, other, listed)) free
    ]

-- What one call of `_do_get` may do.
pub data Outcome (one : ℕ) (s : MemStore) : Taken → Type 0 where
  flush :
      (best : Flush)
      → lookup_or 0 best.client_id s.stores ≡ best.flush_size
      → contains best.client_id s.flushing_clients ≡ false
      → ((c : ℕ) → contains c s.flushing_clients ≡ false → lookup_or 0 c s.stores ≤ best.flush_size)
      → (s.mem_quota ≤ best.flush_size) ⊎ (under_mem_pressure one s ≡ true)
      → Outcome one s (record { state = start_flush best s; req = some best; proceed = true })
  wait :
      ((c : ℕ)
        → contains c s.flushing_clients ≡ false
        → 0 < lookup_or 0 c s.stores
        → (lookup_or 0 c s.stores < s.mem_quota) × (under_mem_pressure one s ≡ false))
      → Outcome one s (record { state = s; req = none; proceed = false })

-- An unknown client has no data, so the keys are all that matters.
largest-is_largest :
    (s : MemStore) (c : ℕ)
    → contains c s.flushing_clients ≡ false
    → lookup_or 0 c s.stores ≤ size_of (largest (keys s.stores) none s)
largest-is_largest s c free = elim (Bool-cases (count c (keys s.stores) == 0)) [
  | inl unknown ↦ ground (arith, unknown, has_key_iff_count c s.stores)
  | inr known ↦ largest-ge (keys s.stores) none s c (ground (arith, known)) free
]

-- A call of `_do_get` either hands out the whole store of a client that is not being flushed and
-- that no such client exceeds, and then it has reached the quota or memory is under pressure; or it
-- changes nothing, and then every client with data that is not being flushed is below the quota and
-- memory is not under pressure, unless there is no such client.
pub do_get-Outcome : (one : ℕ) (s : MemStore) → Outcome one s (do_get one s)
unfolding do_get
do_get-Outcome one s =
    pick (largest (keys s.stores) none s) (largest-IsFound (keys s.stores) none s tt)
      (largest-is_largest s)
  where
    pick :
        (o : Option Flush)
        → IsFound s o
        → ((c : ℕ) → contains c s.flushing_clients ≡ false → lookup_or 0 c s.stores ≤ size_of o)
        → Outcome one s (take one s o)
    pick none found most = wait (λ c free large. absurd (omega (arith, most c free, large)))
    pick (some best) (size, free, large) most =
        elim (Bool-cases (leb s.mem_quota best.flush_size || under_mem_pressure one s)) [
          | inl now ↦ rw now (
              flush best size free most (elim (Bool-cases (leb s.mem_quota best.flush_size)) [
                | inl full ↦ inl (ground (arith, full))
                | inr small ↦ inr (ground (arith, now, small))
              ]))
          | inr later ↦ rw later (
              wait
                (λ c free' some_data. (ground (arith, most c free', later), ground (arith, later))))
        ]
