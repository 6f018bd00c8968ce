-- ===== src/MemStore.antt =====
-- hbase/hbase.py, class MemStore, and the class FlushMemStoreReq that it hands out: the data of
-- each client in memory, and which client's data is to be flushed. Sizes are multiples of one unit,
-- in which `one` is the number 1. simpy's triggers, which `complete_one_req` ends with, only make
-- further calls of `do_put` and `do_get`.
pub mod Flushing
pub mod Limits
pub mod Selection
use tam_simulation.Prelude.{
  ℕ, ◌+◌, ◌-◌, ◌*◌, Bool, true, false, not, ◌&&◌, ◌||◌, Option, none, some, List, [], ◌∷◌, ◌++◌,
  contains, erase, ltb, leb, if◌then◌else◌,
}
use tam_simulation.Result.{Result, ok, err, value_error, ◌>>=◌, ◌>>◌, assert, require}
use tam_simulation.Dict.{Dict, lookup, lookup_or, insert, keys}

-- FlushMemStoreReq
pub record Flush : Type 0 where
  pub client_id : ℕ
  pub flush_size : ℕ

pub record MemStore : Type 0 where
  pub total_mem : ℕ
  pub mem_quota : ℕ
  pub flush_threshold : ℕ
  pub stores : Dict ℕ
  pub flushing_clients : List ℕ
  pub cur_flushing_size : ℕ
  pub occupied : ℕ

-- __init__
unfoldable pub init : ℕ → ℕ → ℕ → MemStore
init total_mem mem_quota flush_threshold = record {
  total_mem = total_mem;
  mem_quota = mem_quota;
  flush_threshold = flush_threshold;
  stores = [];
  flushing_clients = [];
  cur_flushing_size = 0;
  occupied = 0;
}

-- under_mem_pressure. A difference below 0 is not above the threshold either.
unfoldable pub under_mem_pressure : ℕ → MemStore → Bool
under_mem_pressure one s =
    ltb (s.flush_threshold * s.total_mem) ((s.occupied - s.cur_flushing_size) * one)

-- put_modification
unfoldable pub put_modification : ℕ → ℕ → MemStore → MemStore
put_modification client_id change_size s = record s {
  stores = insert client_id (lookup_or 0 client_id s.stores + change_size) s.stores;
  occupied = s.occupied + change_size;
}

-- _do_put: the store, and whether `event.succeed()` was called. The entry of the client is created
-- even where the update has to wait.
unfoldable pub do_put : ℕ → ℕ → MemStore → MemStore × Bool
do_put client_id change_size s =
    let size = lookup_or 0 client_id s.stores in
    let s' = record s { stores = insert client_id size s.stores } in
    if ltb size (s.mem_quota * 2)
    then (put_modification client_id change_size s', true)
    else (s', false)

-- finish_flush
unfoldable pub finish_flush : ℕ → ℕ → MemStore → Result MemStore
finish_flush client_id flush_size s = do
  size ← require (lookup client_id s.stores)
  assert (leb flush_size size)
  assert (leb flush_size s.occupied)
  assert (leb flush_size s.cur_flushing_size)
  let s' = record s {
    stores = insert client_id (size - flush_size) s.stores;
    occupied = s.occupied - flush_size;
    cur_flushing_size = s.cur_flushing_size - flush_size;
    flushing_clients = erase client_id s.flushing_clients;
  }
  if contains client_id s.flushing_clients then ok s' else err value_error

abbrev pub size_of : Option Flush → ℕ
size_of none = 0
size_of (some best) = best.flush_size

-- The loop in `_do_get`: `max_client` and `max_size`.
unfoldable pub largest : List ℕ → Option Flush → MemStore → Option Flush
largest [] best s = best
largest (client_id ∷ clients) best s =
    let size = lookup_or 0 client_id s.stores in
    largest clients
      (if ltb (size_of best) size && not (contains client_id s.flushing_clients)
        then some (record { client_id = client_id; flush_size = size })
        else best)
      s

-- After `_do_get`: the store, the request that the event succeeded with, and the returned value.
pub record Taken : Type 0 where
  pub state : MemStore
  pub req : Option Flush
  pub proceed : Bool

abbrev pub start_flush : Flush → MemStore → MemStore
start_flush best s = record s {
  cur_flushing_size = s.cur_flushing_size + best.flush_size;
  flushing_clients = s.flushing_clients ++ best.client_id ∷ [];
}

abbrev pub take : ℕ → MemStore → Option Flush → Taken
take one s none = record { state = s; req = none; proceed = false }
take one s (some best) =
    if leb s.mem_quota best.flush_size || under_mem_pressure one s
    then record { state = start_flush best s; req = some best; proceed = true }
    else record { state = s; req = none; proceed = false }

-- _do_get
unfoldable pub do_get : ℕ → MemStore → Taken
do_get one s = take one s (largest (keys s.stores) none s)

-- complete_one_req
unfoldable pub complete_one_req : Flush → MemStore → Result MemStore
complete_one_req req s = finish_flush req.client_id req.flush_size s

-- can_take_more_reqs
unfoldable pub can_take_more_reqs : ℕ → MemStore → Bool
can_take_more_reqs client_id s = elim (lookup client_id s.stores) [
  | none ↦ true
  | some size ↦ not (leb (s.mem_quota * 2) size)
]
