-- ===== src/Ring/Owner.antt =====
-- What the search in a sorted ring finds.
use tam_simulation.Prelude.{
  ℕ, ◌≤◌, ◌<◌, ◌≡◌, refl, sym, ◌⊎◌, inl, inr, Bool-cases, some, List, [], ◌∷◌, arith, ltb, leb,
  get_elem?, leb→le, ltb→lt,
}
use mathlib.Core.Path.{subst}
use tam_simulation.Result.{ok}
use tam_simulation.Ring.{Point, insert_point, sort, last, bisect_left, find_machine}

abbrev AllGe : ℕ → List Point → Type 0
AllGe n [] = Unit
AllGe n (q ∷ qs) = (n ≤ q.hash) × AllGe n qs

abbrev pub Sorted : List Point → Type 0
Sorted [] = Unit
Sorted (p ∷ ps) = AllGe p.hash ps × Sorted ps

abbrev pub Listed : Point → List Point → Type 0
Listed p [] = ⊥
Listed p (q ∷ qs) = (q ≡ p) ⊎ Listed p qs

AllGe-weaken : (m n : ℕ) (ps : List Point) → m ≤ n → AllGe n ps → AllGe m ps
AllGe-weaken m n [] le h = tt
AllGe-weaken m n (q ∷ qs) le h = (omega (arith, h.0, le), AllGe-weaken m n qs le h.1)

AllGe-insert :
    (n : ℕ) (p : Point) (ps : List Point) → n ≤ p.hash → AllGe n ps → AllGe n (insert_point p ps)
unfolding insert_point
AllGe-insert n p [] le h = (le, tt)
AllGe-insert n p (q ∷ qs) le h = elim (Bool-cases (leb p.hash q.hash)) [
  | inl e ↦ rw e (le, h)
  | inr e ↦ rw e (h.0, AllGe-insert n p qs le h.1)
]

insert-Sorted : (p : Point) (ps : List Point) → Sorted ps → Sorted (insert_point p ps)
unfolding insert_point
insert-Sorted p [] h = (tt, tt)
insert-Sorted p (q ∷ qs) h = elim (Bool-cases (leb p.hash q.hash)) [
  | inl e ↦
      let le : p.hash ≤ q.hash = leb→le p.hash q.hash e in
      rw e ((le, AllGe-weaken p.hash q.hash qs le h.0), h)
  | inr e ↦ rw e (AllGe-insert q.hash p qs (ground (arith, e)) h.0, insert-Sorted p qs h.1)
]

pub sort-Sorted : (ps : List Point) → Sorted (sort ps)
unfolding sort
sort-Sorted [] = tt
sort-Sorted (p ∷ ps) = insert-Sorted p (sort ps) (sort-Sorted ps)

AllGe-Listed : (n : ℕ) (q : Point) (ps : List Point) → AllGe n ps → Listed q ps → n ≤ q.hash
AllGe-Listed n q (p ∷ ps) h (inl e) = subst (λ (x : Point). n ≤ x.hash) e h.0
AllGe-Listed n q (p ∷ ps) h (inr later) = AllGe-Listed n q ps h.1 later
AllGe-Listed n q [] h l = absurd l

last-greatest :
    (q p : Point) (ps : List Point)
    → Sorted (p ∷ ps)
    → Listed q (p ∷ ps)
    → q.hash ≤ (last p ps).hash
last-greatest q p [] h (inl e) = subst (λ (x : Point). x.hash ≤ p.hash) e (omega arith)
last-greatest q p [] h (inr l) = absurd l
last-greatest q p (x ∷ ps) h (inl e) =
    subst (λ (y : Point). y.hash ≤ (last x ps).hash) e
      (omega (arith, last-greatest x x ps h.1 (inl refl), h.0.0))
last-greatest q p (x ∷ ps) h (inr l) = last-greatest q x ps h.1 l

last-Listed : (p : Point) (ps : List Point) → Listed (last p ps) (p ∷ ps)
last-Listed p [] = inl refl
last-Listed p (x ∷ ps) = inr (last-Listed x ps)

-- The first point from the hash on, going round to the least one: no point lies between.
pub record IsOwner (h : ℕ) (ps : List Point) (p : Point) : Type 0 where
  pub listed : Listed p ps
  pub ahead : (q : Point) → Listed q ps → h ≤ q.hash → (h ≤ p.hash) × (p.hash ≤ q.hash)
  pub wraps : ((q : Point) → Listed q ps → q.hash < h) → (q : Point) → Listed q ps → p.hash ≤ q.hash

-- What the index of bisect_left finds.
record Found (h : ℕ) (ps : List Point) (p : Point) : Type 0 where
  listed : Listed p ps
  from : h ≤ p.hash
  first : (q : Point) → Listed q ps → h ≤ q.hash → p.hash ≤ q.hash

first-least :
    (x q : Point) (ps : List Point) → Sorted (x ∷ ps) → Listed q (x ∷ ps) → x.hash ≤ q.hash
first-least x q ps s (inl e) = subst (λ (y : Point). x.hash ≤ y.hash) e (omega arith)
first-least x q ps s (inr l) = AllGe-Listed x.hash q ps s.0 l

in_tail :
    (h : ℕ) (x q : Point) (ps : List Point)
    → x.hash < h
    → h ≤ q.hash
    → Listed q (x ∷ ps)
    → Listed q ps
in_tail h x q ps below from (inl e) =
    absurd {A = Listed q ps}
      (subst (λ (y : Point). y.hash < h → ⊥) (sym e) (λ k. omega (arith, k, from)) below)
in_tail h x q ps below from (inr l) = l

Found-at :
    (h : ℕ) (ps : List Point) (l : Point)
    → Sorted ps
    → Listed l ps
    → h ≤ l.hash
    → (p : Point) × (get_elem? ps (bisect_left ps h) ≡ some p) × Found h ps p
unfolding bisect_left
Found-at h [] l s e le = absurd e
Found-at h (x ∷ ps) l s e le = elim (Bool-cases (ltb x.hash h)) [
  | inr above ↦ rw above (
    x,
    refl,
    record {
      listed = inl refl;
      from = ground (arith, above);
      first = λ q lq _. first-least x q ps s lq;
    },
  )
  | inl below ↦
      let lt : x.hash < h = ltb→lt x.hash h below in
      let (p, at, found) = Found-at h ps l s.1 (in_tail h x l ps lt le e) le in
      rw below (
        p,
        at,
        record {
          listed = inr found.listed;
          from = found.from;
          first = λ q lq k. found.first q (in_tail h x q ps lt k lq) k;
        },
      )
]

-- On a sorted list of points that is not empty, the search raises nothing and gives the machine of
-- the first point whose hash is not below the one sought, or of the least point where all are below.
pub find_machine_lem :
    (h : ℕ) (x : Point) (ps : List Point)
    → Sorted (x ∷ ps)
    → (p : Point) × (find_machine h (x ∷ ps) ≡ ok p.machine) × IsOwner h (x ∷ ps) p
unfolding find_machine
find_machine_lem h x ps s = elim (Bool-cases (ltb (last x ps).hash h)) [
  | inl beyond ↦ rw beyond (
    x,
    refl,
    record {
      listed = inl refl;
      ahead = λ q lq k.
          absurd (omega (arith, k, last-greatest q x ps s lq, ltb→lt (last x ps).hash h beyond));
      wraps = λ _ q lq. first-least x q ps s lq;
    },
  )
  | inr within ↦
      let le : h ≤ (last x ps).hash = ground (arith, within) in
      let (p, at, found) = Found-at h (x ∷ ps) (last x ps) s (last-Listed x ps) le in
      (
        p,
        rw (within, at) refl,
        record {
          listed = found.listed;
          ahead = λ q lq k. (found.from, found.first q lq k);
          wraps = λ all q lq. absurd (omega (arith, all p found.listed, found.from));
        },
      )
]
