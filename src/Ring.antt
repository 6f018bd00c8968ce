-- ===== src/Ring.antt =====
-- util/consistent_hash_util.py, class ConsistentHash. A hash is a number of millionths. `digest`
-- is sha1 of a key as a number; the keys of the machines' replicas are given by `node_key`.
pub mod Owner
pub mod Machines
use tam_simulation.Prelude.{
  ℕ, zero, suc, ◌%◌, Bool, Option, none, some, List, [], ◌∷◌, ◌++◌, map, ltb, leb, get_elem?,
  if◌then◌else◌,
}
use tam_simulation.Result.{Result, ok, err, index_error}

pub record Point : Type 0 where
  pub machine : ℕ
  pub replica : ℕ
  pub hash : ℕ

-- `hash_tuples.sort(...)` is stable: a point goes before later ones with the same hash.
unfoldable pub insert_point : Point → List Point → List Point
insert_point p [] = p ∷ []
insert_point p (q ∷ qs) =
    let rest = q ∷ insert_point p qs in if leb p.hash q.hash then p ∷ q ∷ qs else rest

unfoldable pub sort : List Point → List Point
sort [] = []
sort (p ∷ ps) = insert_point p (sort ps)

abbrev pub last : Point → List Point → Point
last p [] = p
last p (q ∷ qs) = last q qs

-- `bisect.bisect_left`, on a sorted list
unfoldable pub bisect_left : List Point → ℕ → ℕ
bisect_left [] h = 0
bisect_left (p ∷ ps) h = let rest = suc (bisect_left ps h) in if ltb p.hash h then rest else 0

abbrev at : Option Point → Result ℕ
at none = err index_error
at (some p) = ok p.machine

-- get_machine, for the hash of the key
unfoldable pub find_machine : ℕ → List Point → Result ℕ
find_machine h [] = err index_error
find_machine h (p ∷ ps) =
    if ltb (last p ps).hash h
    then ok p.machine
    else at (get_elem? (p ∷ ps) (bisect_left (p ∷ ps) h))

module _ {ℓ} {K : Type ℓ} (digest : K → ℕ) where
  -- my_hash
  unfoldable pub my_hash : K → ℕ
  my_hash key = digest key % 1000000

  abbrev pub replicas : (ℕ → ℕ → K) → ℕ → ℕ → List Point
  replicas node_key j zero = []
  replicas node_key j (suc k) =
      replicas node_key j k
      ++ record { machine = j; replica = k; hash = my_hash (node_key j k) } ∷ []

  abbrev pub points : (ℕ → ℕ → K) → ℕ → ℕ → List Point
  points node_key zero num_replicas = []
  points node_key (suc j) num_replicas =
      points node_key j num_replicas ++ replicas node_key j num_replicas

  -- __init__: the list `hash_tuples`.
  unfoldable pub ring : (ℕ → ℕ → K) → ℕ → ℕ → List Point
  ring node_key num_machines num_replicas = sort (points node_key num_machines num_replicas)

  -- get_machine
  unfoldable pub get_machine : K → List Point → Result ℕ
  get_machine key hash_tuples = find_machine (my_hash key) hash_tuples
