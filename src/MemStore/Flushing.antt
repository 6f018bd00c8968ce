-- ===== src/MemStore/Flushing.antt =====
-- A MemStore and the flushes that it has handed out and that are not completed yet.
use tam_simulation.Prelude.{
  ℕ, suc, ◌+◌, ◌-◌, ◌*◌, ◌≤◌, ◌<◌, ◌≡◌, refl, inl, inr, true, false, not, ◌&&◌, ◌||◌, Bool-cases,
  Option, none, some, List, [], ◌∷◌, ◌++◌, arith, contains, erase, count, count-erase, count-append,
  contains_iff_count, ◌==◌, ltb, leb, if◌then◌else◌,
}
use tam_simulation.Result.{ok}
use tam_simulation.Dict.{
  Dict, lookup_or, insert, keys, has_key, total, total-insert, measure-le-total, lookup-insert,
  lookup_of_has_key,
}
use tam_simulation.MemStore.{
  MemStore, Flush, init, do_put, do_get, put_modification, finish_flush, complete_one_req, largest,
  size_of, take, start_flush, under_mem_pressure,
}

abbrev pub amount : ℕ → ℕ
amount n = n

abbrev pub sum_sizes : List Flush → ℕ
sum_sizes [] = 0
sum_sizes (f ∷ fs) = f.flush_size + sum_sizes fs

abbrev pub clients : List Flush → List ℕ
clients [] = []
clients (f ∷ fs) = f.client_id ∷ clients fs

-- The store of each flush still holds what is being flushed.
abbrev pub AllHeld : Dict ℕ → List Flush → Type 0
AllHeld stores [] = Unit
AllHeld stores (f ∷ fs) =
    (has_key f.client_id stores ≡ true)
    × (f.flush_size ≤ lookup_or 0 f.client_id stores)
    × AllHeld stores fs

-- The counters are the true sizes, and no client is flushed twice at a time.
pub record IsSound (s : MemStore) (pending : List Flush) : Type 0 where
  pub occupied : s.occupied ≡ total amount s.stores
  pub flushing : s.cur_flushing_size ≡ sum_sizes pending
  pub listed : (c : ℕ) → count c s.flushing_clients ≡ count c (clients pending)
  pub once : (c : ℕ) → count c (clients pending) ≤ 1
  pub held : AllHeld s.stores pending

pub IsSound-init :
    (total_mem mem_quota flush_threshold : ℕ)
    → IsSound (init total_mem mem_quota flush_threshold) []
unfolding init
IsSound-init total_mem mem_quota flush_threshold = record {
  occupied = refl;
  flushing = refl;
  listed = λ c. refl;
  once = λ c. omega arith;
  held = tt;
}

-- A store may grow, and that of a client that is not flushed may change in any way.
AllHeld-grow :
    (c n : ℕ) (stores : Dict ℕ) (pending : List Flush)
    → lookup_or 0 c stores ≤ n
    → AllHeld stores pending
    → AllHeld (insert c n stores) pending
AllHeld-grow c n stores [] le h = tt
AllHeld-grow c n stores (f ∷ fs) le (known, small, rest) = (
  ground (arith, known, lookup-insert c f.client_id n stores),
  ground (arith, small, le, lookup-insert c f.client_id n stores),
  AllHeld-grow c n stores fs le rest,
)

AllHeld-other :
    (c n : ℕ) (stores : Dict ℕ) (pending : List Flush)
    → count c (clients pending) ≡ 0
    → AllHeld stores pending
    → AllHeld (insert c n stores) pending
AllHeld-other c n stores [] other h = tt
AllHeld-other c n stores (f ∷ fs) other (known, small, rest) = (
  ground (arith, known, lookup-insert c f.client_id n stores),
  ground (arith, small, other, lookup-insert c f.client_id n stores),
  AllHeld-other c n stores fs (ground (arith, other)) rest,
)

total-set :
    (c n : ℕ) (stores : Dict ℕ)
    → total amount (insert c n stores) + lookup_or 0 c stores ≡ total amount stores + n
total-set c n stores = ground (arith, total-insert amount c n stores)

IsSound-grow :
    (c n o : ℕ) (s : MemStore) (pending : List Flush)
    → IsSound s pending
    → lookup_or 0 c s.stores ≤ n
    → o + lookup_or 0 c s.stores ≡ s.occupied + n
    → IsSound (record s { stores = insert c n s.stores; occupied = o }) pending
IsSound-grow c n o s pending h le e = record {
  occupied = omega (arith, h.occupied, e, total-set c n s.stores);
  flushing = h.flushing;
  listed = h.listed;
  once = h.once;
  held = AllHeld-grow c n s.stores pending le h.held;
}

pub put-IsSound :
    (c n : ℕ) (s : MemStore) (pending : List Flush)
    → IsSound s pending
    → IsSound (do_put c n s).0 pending
unfolding do_put put_modification
put-IsSound c n s pending h =
    let size = lookup_or 0 c s.stores in
    let opened = IsSound-grow c size s.occupied s pending h (omega arith) refl in
    let same : lookup_or 0 c (insert c size s.stores) ≡ size =
      ground (arith, lookup-insert c c size s.stores) in
    elim (Bool-cases (ltb size (s.mem_quota * 2))) [
      | inr full ↦ rw full opened
      | inl room ↦ rw room (
          IsSound-grow c (lookup_or 0 c (insert c size s.stores) + n) (s.occupied + n)
            (record s { stores = insert c size s.stores }) pending opened (omega arith)
            (omega arith))
    ]

-- The middle of a list of flushes.
sum_sizes-middle :
    (f : Flush) (before after : List Flush)
    → sum_sizes (before ++ f ∷ after) ≡ f.flush_size + sum_sizes (before ++ after)
sum_sizes-middle f [] after = refl
sum_sizes-middle f (x ∷ before) after = omega (arith, sum_sizes-middle f before after)

count_middle :
    (c : ℕ) (f : Flush) (before after : List Flush)
    → count c (clients (before ++ f ∷ after)) ≡ (
        if f.client_id == c
        then suc (count c (clients (before ++ after)))
        else count c (clients (before ++ after)))
count_middle c f [] after = refl
count_middle c f (x ∷ before) after = ground (arith, count_middle c f before after)

AllHeld-middle :
    (stores : Dict ℕ) (f : Flush) (before after : List Flush)
    → AllHeld stores (before ++ f ∷ after)
    → (has_key f.client_id stores ≡ true)
      × (f.flush_size ≤ lookup_or 0 f.client_id stores)
      × AllHeld stores (before ++ after)
AllHeld-middle stores f [] after h = h
AllHeld-middle stores f (x ∷ before) after (known, small, rest) =
    let (k, le, others) = AllHeld-middle stores f before after rest in
    (k, le, (known, small, others))

-- A completed flush of those handed out raises nothing: its size leaves the store and the counters.
pub complete-IsSound :
    (f : Flush) (before after : List Flush) (s : MemStore)
    → IsSound s (before ++ f ∷ after)
    → (t : MemStore) × (complete_one_req f s ≡ ok t)
      × IsSound t (before ++ after)
      × (t.occupied + f.flush_size ≡ s.occupied)
      × (t.mem_quota ≡ s.mem_quota)
      × ((j : ℕ) → lookup_or 0 j t.stores ≤ lookup_or 0 j s.stores)
unfolding complete_one_req finish_flush
complete-IsSound f before after s h =
    let c = f.client_id in
    let (known, small, rest) = AllHeld-middle s.stores f before after h.held in
    let (size, found) = lookup_of_has_key c s.stores known in
    let at_size : lookup_or 0 c s.stores ≡ size = ground (arith, found) in
    let counted = count_middle c f before after in
    let alone : count c (clients (before ++ after)) ≡ 0 = ground (arith, counted, h.once c) in
    let listed : contains c s.flushing_clients ≡ true =
      ground (arith, contains_iff_count c s.flushing_clients, h.listed c, counted) in
    let in_total : size ≤ total amount s.stores =
      let (more, e) = measure-le-total amount c s.stores in ground (arith, e, found) in
    let sizes = sum_sizes-middle f before after in
    let fits : leb f.flush_size size ≡ true = ground (arith, small, at_size) in
    let fits_occupied : leb f.flush_size s.occupied ≡ true =
      ground (arith, fits, in_total, h.occupied) in
    let fits_flushing : leb f.flush_size s.cur_flushing_size ≡ true =
      ground (arith, sizes, h.flushing) in
    (
      record s {
        stores = insert c (size - f.flush_size) s.stores;
        occupied = s.occupied - f.flush_size;
        cur_flushing_size = s.cur_flushing_size - f.flush_size;
        flushing_clients = erase c s.flushing_clients;
      },
      rw (found, fits, fits_occupied, fits_flushing, listed) refl,
      record {
        occupied = ground (
          arith,
          h.occupied,
          total-set c (size - f.flush_size) s.stores,
          at_size,
          fits,
          fits_occupied,
        );
        flushing = omega (arith, h.flushing, sizes);
        listed = λ j. ground (
          arith,
          h.listed j,
          count_middle j f before after,
          count-erase c j s.flushing_clients listed,
        );
        once = λ j. ground (arith, h.once j, count_middle j f before after);
        held = AllHeld-other c (size - f.flush_size) s.stores (before ++ after) alone rest;
      },
      ground (arith, fits_occupied),
      refl,
      λ j. ground (arith, lookup-insert c j (size - f.flush_size) s.stores, at_size),
    )

-- What the loop has found so far.
abbrev pub IsFound : MemStore → Option Flush → Type 0
IsFound s none = Unit
IsFound s (some f) =
    (lookup_or 0 f.client_id s.stores ≡ f.flush_size)
    × (contains f.client_id s.flushing_clients ≡ false)
    × (0 < f.flush_size)

pub largest-IsFound :
    (cs : List ℕ) (best : Option Flush) (s : MemStore)
    → IsFound s best
    → IsFound s (largest cs best s)
unfolding largest
largest-IsFound [] best s h = h
largest-IsFound (c ∷ cs) best s h =
    largest-IsFound cs _ s
      (elim (Bool-cases
        (ltb (size_of best) (lookup_or 0 c s.stores) && not (contains c s.flushing_clients))) [
          | inl better ↦ rw better (refl, ground (arith, better), ground (arith, better))
          | inr kept ↦ rw kept h
        ])

clients-snoc :
    (c : ℕ) (fs : List Flush) (f : Flush)
    → count c (clients (fs ++ f ∷ []))
      ≡ (if f.client_id == c then suc (count c (clients fs)) else count c (clients fs))
clients-snoc c [] f = refl
clients-snoc c (x ∷ fs) f = ground (arith, clients-snoc c fs f)

sum_sizes-snoc :
    (fs : List Flush) (f : Flush) → sum_sizes (fs ++ f ∷ []) ≡ sum_sizes fs + f.flush_size
sum_sizes-snoc [] f = omega arith
sum_sizes-snoc (x ∷ fs) f = omega (arith, sum_sizes-snoc fs f)

AllHeld-snoc :
    (stores : Dict ℕ) (fs : List Flush) (f : Flush)
    → AllHeld stores fs
    → has_key f.client_id stores ≡ true
    → f.flush_size ≤ lookup_or 0 f.client_id stores
    → AllHeld stores (fs ++ f ∷ [])
AllHeld-snoc stores [] f h k le = (k, le, tt)
AllHeld-snoc stores (x ∷ fs) f (known, small, rest) k le =
    (known, small, AllHeld-snoc stores fs f rest k le)

abbrev pub handed_out : List Flush → Option Flush → List Flush
handed_out pending none = pending
handed_out pending (some f) = pending ++ f ∷ []

start-IsSound :
    (f : Flush) (s : MemStore) (pending : List Flush)
    → IsSound s pending
    → IsFound s (some f)
    → IsSound (start_flush f s) (pending ++ f ∷ [])
start-IsSound f s pending h (size, fresh, large) =
    let unlisted : count f.client_id s.flushing_clients ≡ 0 =
      ground (arith, contains_iff_count f.client_id s.flushing_clients) in
    record {
      occupied = h.occupied;
      flushing = omega (arith, h.flushing, sum_sizes-snoc pending f);
      listed = λ c. ground (
        arith,
        h.listed c,
        clients-snoc c pending f,
        count-append c s.flushing_clients (f.client_id ∷ []),
      );
      once = λ c. ground (arith, h.once c, h.listed c, unlisted, clients-snoc c pending f);
      held =
          AllHeld-snoc s.stores pending f h.held (ground (arith, size, large))
            (omega (arith, size));
    }

take-IsSound :
    (one : ℕ) (s : MemStore) (pending : List Flush) (best : Option Flush)
    → IsSound s pending
    → IsFound s best
    → IsSound (take one s best).state (handed_out pending (take one s best).req)
take-IsSound one s pending none h f = h
take-IsSound one s pending (some best) h f =
    elim (Bool-cases (leb s.mem_quota best.flush_size || under_mem_pressure one s)) [
      | inl flush ↦ rw flush (start-IsSound best s pending h f)
      | inr wait ↦ rw wait h
    ]

pub get-IsSound :
    (one : ℕ) (s : MemStore) (pending : List Flush)
    → IsSound s pending
    → IsSound (do_get one s).state (handed_out pending (do_get one s).req)
unfolding do_get
get-IsSound one s pending h =
    take-IsSound one s pending (largest (keys s.stores) none s) h
      (largest-IsFound (keys s.stores) none s tt)
