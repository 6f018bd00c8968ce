-- ===== src/MemStore/Limits.antt =====
-- A MemStore in use: updates, flushes handed out, and their completions in any order.
use mathlib.Core.Path.{subst}
use tam_simulation.Prelude.{
  ℕ, ◌+◌, ◌*◌, ◌≤◌, ◌<◌, ◌≡◌, refl, sym, ◌∙◌, inl, inr, ◌||◌, Bool-cases, Option, none, some, List,
  [], ◌∷◌, ◌++◌, arith, ltb, leb,
}
use tam_simulation.Result.{ok, ok-injective}
use tam_simulation.Dict.{lookup_or, insert, keys, lookup-insert}
use tam_simulation.MemStore.{
  MemStore, Flush, init, do_put, do_get, put_modification, complete_one_req, largest, take,
  under_mem_pressure,
}
use tam_simulation.MemStore.Flushing.{
  IsSound, IsSound-init, put-IsSound, complete-IsSound, get-IsSound, handed_out,
}

-- The store and the flushes that are under way.
pub record System : Type 0 where
  pub mem : MemStore
  pub pending : List Flush

-- What can happen, with updates of size `most` at most.
pub data Step (one most : ℕ) (s : System) : System → Type 0 where
  update :
      (client_id change_size : ℕ)
      → change_size ≤ most
      → Step one most s (record s { mem = (do_put client_id change_size s.mem).0 })
  hand_out : Step one most s (record {
    mem = (do_get one s.mem).state;
    pending = handed_out s.pending (do_get one s.mem).req;
  })
  complete :
      (f : Flush) (before after : List Flush) {mem : MemStore}
      → s.pending ≡ before ++ f ∷ after
      → complete_one_req f s.mem ≡ ok mem
      → Step one most s (record { mem = mem; pending = before ++ after })

pub data Reach (one most total_mem mem_quota flush_threshold : ℕ) : System → Type 0 where
  start :
      Reach one most total_mem mem_quota flush_threshold
        (record { mem = init total_mem mem_quota flush_threshold; pending = [] })
  later :
      {s t : System}
      → Reach one most total_mem mem_quota flush_threshold s
      → Step one most s t
      → Reach one most total_mem mem_quota flush_threshold t

Step-IsSound :
    {one most : ℕ} {s t : System}
    → Step one most s t
    → IsSound s.mem s.pending
    → IsSound t.mem t.pending
Step-IsSound {s = s} (update c n le) h = put-IsSound c n s.mem s.pending h
Step-IsSound {one} {s = s} hand_out h = get-IsSound one s.mem s.pending h
Step-IsSound {s = s} (complete f before after split done) h =
    let (t, done', sound, _, _, _) =
      complete-IsSound f before after s.mem (subst (IsSound s.mem) split h) in
    subst (λ m. IsSound m (before ++ after)) (ok-injective (sym done' ∙ done)) sound

-- In every state that can be reached the counters are the true sizes.
pub Reach-IsSound :
    {one most total_mem mem_quota flush_threshold : ℕ} {s : System}
    → Reach one most total_mem mem_quota flush_threshold s
    → IsSound s.mem s.pending
Reach-IsSound {total_mem = m} {mem_quota = q} {flush_threshold = f} start = IsSound-init m q f
Reach-IsSound (later r step) = Step-IsSound step (Reach-IsSound r)

-- Whatever was put, handed out and completed before, completing a flush that is under way raises
-- nothing, and exactly its size leaves the occupied memory.
pub every_flush_completes :
    {one most total_mem mem_quota flush_threshold : ℕ} {s : System}
    → Reach one most total_mem mem_quota flush_threshold s
    → (f : Flush) (before after : List Flush) → s.pending ≡ before ++ f ∷ after
    → (t : MemStore) × (complete_one_req f s.mem ≡ ok t)
      × (t.occupied + f.flush_size ≡ s.mem.occupied)
every_flush_completes {s = s} r f before after split =
    let (t, done, _, less, _, _) =
      complete-IsSound f before after s.mem (subst (IsSound s.mem) split (Reach-IsSound r)) in
    (t, done, less)

-- The quota is the one at the start, and no client has more than twice it and one update.
record IsBounded (most q : ℕ) (m : MemStore) : Type 0 where
  quota : m.mem_quota ≡ q
  bound : (c : ℕ) → lookup_or 0 c m.stores ≤ q * 2 + most

put-IsBounded :
    (most q c n : ℕ) (m : MemStore)
    → n ≤ most
    → IsBounded most q m
    → IsBounded most q (do_put c n m).0
unfolding do_put put_modification
put-IsBounded most q c n m le h =
    let size = lookup_or 0 c m.stores in
    let quota_eq : m.mem_quota ≡ q = h.quota in
    let opened : (j : ℕ) → lookup_or 0 j (insert c size m.stores) ≤ q * 2 + most =
      λ j. ground (arith, h.bound j, h.bound c, lookup-insert c j size m.stores) in
    elim (Bool-cases (ltb size (m.mem_quota * 2))) [
      | inl room ↦
          let small : size < q * 2 = ground (arith, room, quota_eq) in
          let same : lookup_or 0 c (insert c size m.stores) ≡ size =
            ground (arith, lookup-insert c c size m.stores) in
          rw room (record {
            quota = quota_eq;
            bound = λ j. ground (
              arith,
              opened j,
              same,
              small,
              le,
              lookup-insert c j (lookup_or 0 c (insert c size m.stores) + n)
                  (insert c size m.stores),
            );
          })
      | inr full ↦ rw full (record { quota = quota_eq; bound = opened })
    ]

take-IsBounded :
    (one most q : ℕ) (m : MemStore) (best : Option Flush)
    → IsBounded most q m
    → IsBounded most q (take one m best).state
take-IsBounded one most q m none h = h
take-IsBounded one most q m (some best) h =
    elim (Bool-cases (leb m.mem_quota best.flush_size || under_mem_pressure one m)) [
      | inl flush ↦ rw flush (record { quota = h.quota; bound = h.bound })
      | inr wait ↦ rw wait h
    ]

get-IsBounded :
    (one most q : ℕ) (m : MemStore) → IsBounded most q m → IsBounded most q (do_get one m).state
unfolding do_get
get-IsBounded one most q m h = take-IsBounded one most q m (largest (keys m.stores) none m) h

complete-IsBounded :
    (most q : ℕ) (f : Flush) (before after : List Flush) (m : MemStore)
    → IsSound m (before ++ f ∷ after)
    → IsBounded most q m
    → (t : MemStore) × (complete_one_req f m ≡ ok t) × IsBounded most q t
complete-IsBounded most q f before after m sound h =
    let (t, done, _, _, same, less) = complete-IsSound f before after m sound in
    (t, done, record { quota = same ∙ h.quota; bound = λ c. omega (arith, h.bound c, less c) })

Step-IsBounded :
    {one most q : ℕ} {s t : System}
    → Step one most s t
    → IsSound s.mem s.pending
    → IsBounded most q s.mem
    → IsBounded most q t.mem
Step-IsBounded {most = most} {q} {s} (update c n le) sound h = put-IsBounded most q c n s.mem le h
Step-IsBounded {one} {most} {q} {s} hand_out sound h = get-IsBounded one most q s.mem h
Step-IsBounded {most = most} {q} {s} (complete f before after split done) sound h =
    let (t, done', bounded) =
      complete-IsBounded most q f before after s.mem (subst (IsSound s.mem) split sound) h in
    subst (IsBounded most q) (ok-injective (sym done' ∙ done)) bounded

Reach-IsBounded :
    {one most total_mem mem_quota flush_threshold : ℕ} {s : System}
    → Reach one most total_mem mem_quota flush_threshold s
    → IsBounded most mem_quota s.mem
unfolding init
Reach-IsBounded start = record { quota = refl; bound = λ c. omega arith }
Reach-IsBounded (later r step) = Step-IsBounded step (Reach-IsSound r) (Reach-IsBounded r)

-- However updates, flushes and completions follow each other, no client ever has more in memory
-- than twice the quota and one update.
pub Reach-is_bounded :
    {one most total_mem mem_quota flush_threshold : ℕ} {s : System}
    → Reach one most total_mem mem_quota flush_threshold s
    → (c : ℕ) → lookup_or 0 c s.mem.stores ≤ mem_quota * 2 + most
Reach-is_bounded r c = (Reach-IsBounded r).bound c
