-- ===== src/Buckets/Least.antt =====
-- `take_least` hands out a first request of the least time, and nothing else changes.
use mathlib.Core.Path.{subst}
use tam_simulation.Prelude.{
  ℕ, suc, ◌+◌, ◌≤◌, ◌≡◌, refl, ap, ◌⊎◌, inl, inr, true, Bool-cases, Option, none, some, List, [],
  ◌∷◌, ◌++◌, arith, contains, count, contains_iff_count, ◌==◌, ==_iff, if◌then◌else◌, length,
  length-snoc, Option-cases, ltb,
}
use tam_simulation.Dict.{
  Dict, lookup, lookup_or, insert, remove, has_key, keys, total, measure, lookup-insert,
  lookup-remove, total-insert, count-keys-insert, count-keys-remove, has_key_iff_count,
}
use tam_simulation.Req.{Req, remove_req}
use tam_simulation.Buckets.{store, least, least_of, drop_first, first_at, take_least}

abbrev IsFull : Option (List Req) → Type 0
IsFull none = Unit
IsFull (some []) = ⊥
IsFull (some (req ∷ rest)) = Unit

-- Each time occurs once and has a list that is not empty.
pub record IsTidy (d : Dict (List Req)) : Type 0 where
  pub once : (k : ℕ) → count k (keys d) ≤ 1
  pub full : (k : ℕ) → IsFull (lookup k d)

pub IsTidy-empty : IsTidy []
IsTidy-empty = record { once = λ k. omega arith; full = λ k. tt }

IsFull-snoc : (q : List Req) (req : Req) → IsFull (some (q ++ req ∷ []))
IsFull-snoc [] req = tt
IsFull-snoc (x ∷ q) req = tt

IsFull-insert :
    (k j : ℕ) (q : List Req) (d : Dict (List Req))
    → IsFull (some q)
    → IsFull (lookup j d)
    → IsFull (lookup j (insert k q d))
IsFull-insert k j q d new old = elim (Bool-cases (k == j)) [
  | inl same ↦ subst IsFull {x = some q} (ground (arith, lookup-insert k j q d)) new
  | inr other ↦ subst IsFull {x = lookup j d} (ground (arith, lookup-insert k j q d)) old
]

IsTidy-insert :
    (k : ℕ) (q : List Req) (d : Dict (List Req))
    → IsFull (some q)
    → IsTidy d
    → IsTidy (insert k q d)
IsTidy-insert k q d new h = record {
  once = λ j. ground (arith, h.once j, h.once k, count-keys-insert k j q d, has_key_iff_count k d);
  full = λ j. IsFull-insert k j q d new (h.full j);
}

pub store-IsTidy : (k : ℕ) (req : Req) (d : Dict (List Req)) → IsTidy d → IsTidy (store k req d)
unfolding store
store-IsTidy k req d h = IsTidy-insert k _ d (IsFull-snoc (lookup_or [] k d) req) h

pub total-store :
    (k : ℕ) (req : Req) (d : Dict (List Req)) → total length (store k req d) ≡ suc (total length d)
unfolding store
total-store k req d = ground (
  arith,
  total-insert (length {A = Req}) k (lookup_or [] k d ++ req ∷ []) d,
  length-snoc (lookup_or [] k d) req,
)

total-remove_absent :
    (k : ℕ) (d : Dict (List Req))
    → count k (keys d) ≡ 0
    → total length (remove k d) ≡ total length d
unfolding remove
total-remove_absent k [] h = refl
total-remove_absent k ((i, w) ∷ d) h = ground (arith, total-remove_absent k d)

total-remove_once :
    (k : ℕ) (d : Dict (List Req))
    → count k (keys d) ≤ 1
    → total length (remove k d) + measure length (lookup k d) ≡ total length d
unfolding remove
total-remove_once k [] h = refl
total-remove_once k ((i, w) ∷ d) h = ground (arith, total-remove_once k d, total-remove_absent k d)

IsTidy-remove : (k : ℕ) (d : Dict (List Req)) → IsTidy d → IsTidy (remove k d)
IsTidy-remove k d h = record {
  once = λ j. ground (arith, h.once j, count-keys-remove k j d);
  full = λ j. elim (Bool-cases (k == j)) [
    | inl same ↦ subst IsFull {x = none} (ground (arith, lookup-remove k j d)) tt
    | inr other ↦ subst IsFull {x = lookup j d} (ground (arith, lookup-remove k j d)) (h.full j)
  ];
}

least_of-le :
    (k : ℕ) (o : Option ℕ) → (least_of k o ≤ k) × ((j : ℕ) → o ≡ some j → least_of k o ≤ j)
least_of-le k none = (omega arith, λ j e. cc)
least_of-le k (some i) = (ground arith, λ j e. ground arith)

-- The least of the keys.
least-le : (j : ℕ) (ks : List ℕ) → contains j ks ≡ true → (k : ℕ) × (least ks ≡ some k) × (k ≤ j)
unfolding least
least-le j [] h = cc
least-le j (x ∷ ks) h = elim (Bool-cases (x == j)) [
  | inl same ↦ (
    least_of x (least ks),
    refl,
    omega (arith, (least_of-le x (least ks)).0, (==_iff x j).0 same),
  )
  | inr other ↦
      let (i, e, le) = least-le j ks (ground (arith, other)) in
      (least_of x (least ks), refl, omega (arith, (least_of-le x (least ks)).1 i e))
]

least_of-in : (k x : ℕ) (o : Option ℕ) → least_of x o ≡ k → (x ≡ k) ⊎ (o ≡ some k)
least_of-in k x none h = inl h
least_of-in k x (some i) h = elim (Bool-cases (ltb i x)) [
  | inl e ↦ inr (ap some (rw e at h))
  | inr e ↦ inl (rw e at h)
]

least-in : (k : ℕ) (ks : List ℕ) → least ks ≡ some k → contains k ks ≡ true
unfolding least
least-in k [] h = cc
least-in k (x ∷ ks) h = elim (least_of-in k x (least ks) (cc)) [
  | inl same ↦ ground (arith, same)
  | inr later ↦ ground (arith, least-in k ks later)
]

-- The request is the first of the list of a time that no other time precedes, and it is all that
-- the new dictionary lacks.
pub record IsEarliest (d : Dict (List Req)) (req : Req) (d' : Dict (List Req)) : Type 0 where
  pub time : ℕ
  pub rest : List Req
  pub first : lookup time d ≡ some (req ∷ rest)
  pub least : (k : ℕ) → has_key k d ≡ true → time ≤ k
  pub others : (k : ℕ) → lookup_or [] k d' ≡ (if time == k then rest else lookup_or [] k d)

-- What `take_least` gives: nothing from the empty dictionary, else such a request.
abbrev pub Taken : Dict (List Req) → Option (Req × Dict (List Req)) → Type 0
Taken d none = d ≡ []
Taken d (some (req, d')) =
    IsEarliest d req d' × IsTidy d' × (suc (total length d') ≡ total length d)

remove-head : (req next : Req) (rest : List Req) → remove_req req (req ∷ next ∷ rest) ≡ next ∷ rest
remove-head req next rest = ground arith

drop_first-others :
    (time k : ℕ) (req : Req) (rest : List Req) (d : Dict (List Req))
    → lookup_or [] k (drop_first time req rest d) ≡ (if time == k then rest else lookup_or [] k d)
drop_first-others time k req [] d = ground (arith, lookup-remove time k d)
drop_first-others time k req (next ∷ rest) d =
    rw (remove-head req next rest) (ground (arith, lookup-insert time k (next ∷ rest) d))

drop_first-IsTidy :
    (time : ℕ) (req : Req) (rest : List Req) (d : Dict (List Req))
    → IsTidy d
    → IsTidy (drop_first time req rest d)
drop_first-IsTidy time req [] d h = IsTidy-remove time d h
drop_first-IsTidy time req (next ∷ rest) d h =
    rw (remove-head req next rest) (IsTidy-insert time (next ∷ rest) d tt h)

total-drop_first :
    (time : ℕ) (req : Req) (rest : List Req) (d : Dict (List Req))
    → IsTidy d
    → lookup time d ≡ some (req ∷ rest)
    → suc (total length (drop_first time req rest d)) ≡ total length d
total-drop_first time req [] d h e = ground (arith, total-remove_once time d (h.once time), e)
total-drop_first time req (next ∷ rest) d h e =
    rw (remove-head req next rest)
      (ground (arith, total-insert (length {A = Req}) time (next ∷ rest) d, e))

keys-nil : (d : Dict (List Req)) → keys d ≡ [] → d ≡ []
keys-nil [] h = refl
keys-nil ((k, v) ∷ d) h = cc

least-none : (ks : List ℕ) → least ks ≡ none → ks ≡ []
unfolding least
least-none [] h = refl
least-none (x ∷ ks) h = cc

least_key :
    (d : Dict (List Req)) (time : ℕ)
    → least (keys d) ≡ some time
    → (k : ℕ) → has_key k d ≡ true
    → time ≤ k
least_key d time e k h =
    let (j, e', le) =
      least-le k (keys d) (ground (arith, has_key_iff_count k d, contains_iff_count k (keys d))) in
    ground (arith, e, e', le)

Taken-first_at :
    (time : ℕ) (o : Option (List Req)) (d : Dict (List Req))
    → IsTidy d
    → least (keys d) ≡ some time
    → lookup time d ≡ o
    → has_key time d ≡ true
    → Taken d (first_at time (elim o [ none ↦ [] | some q ↦ q ]) d)
Taken-first_at time none d h e f g = ground (arith, f)
Taken-first_at time (some []) d h e f g = absurd (subst IsFull f (h.full time))
Taken-first_at time (some (req ∷ rest)) d h e f g = (
  record {
    time = time;
    rest = rest;
    first = f;
    least = least_key d time e;
    others = λ k. drop_first-others time k req rest d;
  },
  drop_first-IsTidy time req rest d h,
  total-drop_first time req rest d h f,
)

pub take_least-Taken : (d : Dict (List Req)) → IsTidy d → Taken d (take_least d)
unfolding take_least
take_least-Taken d h = elim (Option-cases (least (keys d))) [
  | inl e ↦ rw e (keys-nil d (least-none (keys d) e))
  | inr (time, e) ↦ rw e (
      Taken-first_at time (lookup time d) d h e refl (
        ground (
          arith,
          least-in time (keys d) e,
          has_key_iff_count time d,
          contains_iff_count time (keys d),
        )))
]
