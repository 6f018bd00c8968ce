-- ===== src/Ring/Machines.antt =====
-- The points of a ring, and which machine a key belongs to.
use tam_simulation.Prelude.{
  ℕ, zero, suc, ◌<◌, ◌≡◌, ◌↔◌, refl, ◌∙◌, ap, ◌%◌, ◌*◌, length, length-snoc, length-append, ◌⊎◌,
  inl, inr, Bool-cases, List, [], ◌∷◌, ◌++◌, arith, leb,
}
use mathlib.Core.Path.{subst}
use tam_simulation.Result.{ok}
use tam_simulation.Ring.{
  Point, insert_point, sort, find_machine, get_machine, my_hash, ring, points, replicas,
}
use tam_simulation.Ring.Owner.{Listed, Sorted, IsOwner, sort-Sorted, find_machine_lem}

length-insert : (p : Point) (ps : List Point) → length (insert_point p ps) ≡ suc (length ps)
unfolding insert_point
length-insert p [] = refl
length-insert p (q ∷ qs) = ground (arith, length-insert p qs)

length-sort : (ps : List Point) → length (sort ps) ≡ length ps
unfolding sort
length-sort [] = refl
length-sort (p ∷ ps) = length-insert p (sort ps) ∙ ap suc (length-sort ps)

-- Sorting keeps the points that are listed.
Listed-insert : (x p : Point) (ps : List Point) → Listed x (insert_point p ps) ↔ Listed x (p ∷ ps)
unfolding insert_point
Listed-insert x p [] = (λ l. l, λ l. l)
Listed-insert x p (q ∷ qs) =
    let (down, up) = Listed-insert x p qs in
    elim (Bool-cases (leb p.hash q.hash)) [
      | inl e ↦ rw e (λ l. l, λ l. l)
      | inr e ↦ rw e (λ l. swap_down down l, λ l. swap_up up l)
    ]
  where
    swap_down :
        (Listed x (insert_point p qs) → Listed x (p ∷ qs))
        → Listed x (q ∷ insert_point p qs)
        → Listed x (p ∷ q ∷ qs)
    swap_down f (inl same) = inr (inl same)
    swap_down f (inr l) = past (f l)
      where
        past : Listed x (p ∷ qs) → Listed x (p ∷ q ∷ qs)
        past (inl same) = inl same
        past (inr l) = inr (inr l)

    swap_up :
        (Listed x (p ∷ qs) → Listed x (insert_point p qs))
        → Listed x (p ∷ q ∷ qs)
        → Listed x (q ∷ insert_point p qs)
    swap_up f (inl same) = inr (f (inl same))
    swap_up f (inr (inl same)) = inl same
    swap_up f (inr (inr l)) = inr (f (inr l))

Listed-sort : (x : Point) (ps : List Point) → Listed x (sort ps) ↔ Listed x ps
unfolding sort
Listed-sort x [] = (λ l. l, λ l. l)
Listed-sort x (p ∷ ps) =
    let (down, up) = Listed-sort x ps in
    let (take, give) = Listed-insert x p (sort ps) in
    (λ l. sorted_down down (take l), λ l. give (sorted_up up l))
  where
    sorted_down : (Listed x (sort ps) → Listed x ps) → Listed x (p ∷ sort ps) → Listed x (p ∷ ps)
    sorted_down f (inl same) = inl same
    sorted_down f (inr l) = inr (f l)

    sorted_up : (Listed x ps → Listed x (sort ps)) → Listed x (p ∷ ps) → Listed x (p ∷ sort ps)
    sorted_up f (inl same) = inl same
    sorted_up f (inr l) = inr (f l)

Listed-append : (x : Point) (ps qs : List Point) → Listed x (ps ++ qs) ↔ (Listed x ps ⊎ Listed x qs)
Listed-append x ps qs = (apart ps, together ps)
  where
    together : (ps : List Point) → Listed x ps ⊎ Listed x qs → Listed x (ps ++ qs)
    together [] (inl l) = absurd l
    together [] (inr l) = l
    together (p ∷ ps) (inl (inl same)) = inl same
    together (p ∷ ps) (inl (inr l)) = inr (together ps (inl l))
    together (p ∷ ps) (inr l) = inr (together ps (inr l))

    further :
        (p : Point) (ps : List Point) → Listed x ps ⊎ Listed x qs → Listed x (p ∷ ps) ⊎ Listed x qs
    further p ps (inl l) = inl (inr l)
    further p ps (inr l) = inr l

    apart : (ps : List Point) → Listed x (ps ++ qs) → Listed x ps ⊎ Listed x qs
    apart [] l = inr l
    apart (p ∷ ps) (inl same) = inl (inl same)
    apart (p ∷ ps) (inr l) = further p ps (apart ps l)

lt_suc_cases : (a b : ℕ) → a < suc b → (a < b) ⊎ (a ≡ b)
lt_suc_cases a b below = ground arith

module _ {ℓ} {K : Type ℓ} (digest : K → ℕ) (node_key : ℕ → ℕ → K) where
  -- The hash of the key of a machine's replica, in millionths.
  abbrev HasHash : Point → Type 0
  HasHash p = p.hash ≡ digest (node_key p.machine p.replica) % 1000000

  abbrev IsReplica : ℕ → ℕ → Point → Type 0
  IsReplica j r p = (p.machine ≡ j) × (p.replica < r) × HasHash p

  -- One of the replicas below `r` of one of the machines below `m`, with the hash of its own key.
  abbrev pub IsPoint : ℕ → ℕ → Point → Type 0
  IsPoint m r p = (p.machine < m) × (p.replica < r) × HasHash p

  replica_at :
      (p : Point) (j k : ℕ)
      → p.machine ≡ j
      → p.replica ≡ k
      → HasHash p
      → record { machine = j; replica = k; hash = my_hash digest (node_key j k) } ≡ p
  unfolding my_hash
  replica_at p j k same_j same_k hashed = grind (arith, same_j, same_k, hashed)

  replicas_are : (p : Point) (j r : ℕ) → Listed p (replicas digest node_key j r) → IsReplica j r p
  unfolding my_hash
  replicas_are p j zero l = absurd l
  replicas_are p j (suc k) l = elim ((Listed-append p (replicas digest node_key j k) _).0 l) [
    | inl before ↦
        let (same, below, hashed) = replicas_are p j k before in
        (same, omega (arith, below), hashed)
    | inr (inl same) ↦ subst (IsReplica j (suc k)) same (refl, omega arith, refl)
    | inr (inr l) ↦ absurd l
  ]

  replicas_have : (p : Point) (j r : ℕ) → IsReplica j r p → Listed p (replicas digest node_key j r)
  replicas_have p j zero (_, below, _) = absurd (omega (arith, below))
  replicas_have p j (suc k) (same, below, hashed) =
      (Listed-append p (replicas digest node_key j k) _).1 (elim (lt_suc_cases p.replica k below) [
        | inl less ↦ inl (replicas_have p j k (same, less, hashed))
        | inr last ↦ inr (inl (replica_at p j k same last hashed))
      ])

  points_are : (p : Point) (m r : ℕ) → Listed p (points digest node_key m r) → IsPoint m r p
  points_are p zero r l = absurd l
  points_are p (suc j) r l =
      elim ((Listed-append p (points digest node_key j r) (replicas digest node_key j r)).0 l) [
        | inl before ↦
            let (below, less, hashed) = points_are p j r before in
            (omega (arith, below), less, hashed)
        | inr here ↦
            let (same, less, hashed) = replicas_are p j r here in
            (omega (arith, same), less, hashed)
      ]

  points_have : (p : Point) (m r : ℕ) → IsPoint m r p → Listed p (points digest node_key m r)
  points_have p zero r (below, _, _) = absurd (omega (arith, below))
  points_have p (suc j) r (below, within, hashed) =
      (Listed-append p (points digest node_key j r) (replicas digest node_key j r)).1
        (elim (lt_suc_cases p.machine j below) [
          | inl less ↦ inl (points_have p j r (less, within, hashed))
          | inr last ↦ inr (replicas_have p j r (last, within, hashed))
        ])

  length-replicas : (j k : ℕ) → length (replicas digest node_key j k) ≡ k
  length-replicas j zero = refl
  length-replicas j (suc k) =
      length-snoc (replicas digest node_key j k) _ ∙ ap suc (length-replicas j k)

  length-points : (m r : ℕ) → length (points digest node_key m r) ≡ m * r
  length-points zero r = omega arith
  length-points (suc m) r =
      length-append (points digest node_key m r) (replicas digest node_key m r)
      ∙ omega (arith, length-points m r, length-replicas m r)

owner :
    (h : ℕ) (ps : List Point)
    → Sorted ps
    → 0 < length ps
    → (p : Point) × (find_machine h ps ≡ ok p.machine) × IsOwner h ps p
owner h [] s full = absurd (omega (arith, full))
owner h (x ∷ ps) s full = find_machine_lem h x ps s

some_points : (m r : ℕ) → 0 < m → 0 < r → 0 < m * r
some_points zero r some_machine some_replica = absurd (omega (arith, some_machine))
some_points (suc m) zero some_machine some_replica = absurd (omega (arith, some_replica))
some_points (suc m) (suc r) some_machine some_replica = omega arith

-- A ring of at least one machine with at least one replica has one point for each replica of each
-- machine, at the hash of the replica's own key, and no others, and a machine for every key: that of the first
-- point from the key's hash on, or of the least point where there is none. A hash is a digest modulo
-- a million.
pub get_machine-Owner {ℓ} :
    {K : Type ℓ} (digest : K → ℕ) (node_key : ℕ → ℕ → K) (num_machines num_replicas : ℕ) (key : K)
    → 0 < num_machines
    → 0 < num_replicas
    → (length (ring digest node_key num_machines num_replicas) ≡ num_machines * num_replicas)
      × ((p : Point)
          → Listed p (ring digest node_key num_machines num_replicas)
            ↔ IsPoint digest node_key num_machines num_replicas p)
      × (p : Point) × (get_machine digest key (ring digest node_key num_machines num_replicas)
          ≡ ok p.machine)
      × IsOwner (digest key % 1000000) (ring digest node_key num_machines num_replicas) p
unfolding get_machine ring my_hash
get_machine-Owner digest node_key m r key some_machine some_replica =
    let size : length (ring digest node_key m r) ≡ m * r =
      length-sort (points digest node_key m r) ∙ length-points digest node_key m r in
    let (p, done, own) =
      owner (digest key % 1000000) (ring digest node_key m r) (sort-Sorted _)
        (omega (arith, size, some_points m r some_machine some_replica)) in
    (
      size,
      λ x. (
        λ l. points_are digest node_key x m r ((Listed-sort x _).0 l),
        λ i. (Listed-sort x _).1 (points_have digest node_key x m r i),
      ),
      p,
      done,
      own,
    )
