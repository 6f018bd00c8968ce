-- ===== src/Tokens/Neighbours.antt =====
-- cassandra/cassandra.py, RandomFaultToleranceTokenAllocationStrategy: tokens that follow each other
-- on the ring are on different physical nodes.
use mathlib.Core.Path.{subst}
use mathlib.Core.List.{append-nil}
use mathlib.Core.Option.{some-injective}
use native.Mathlib.Nat.{mod-eq_of_lt, mod-eq-sub-mod, mod_self}
use tam_simulation.Prelude.{
  ℕ, suc, ◌+◌, ◌-◌, ◌%◌, ◌≤◌, ◌<◌, ◌≡◌, refl, sym, ◌∙◌, ap, inl, inr, false, Bool-cases, Option,
  none, some, List, [], ◌∷◌, ◌++◌, arith, length, contains, ltb, ◌==◌, ==_iff,
}
use tam_simulation.Result.{ok}
use tam_simulation.Dict.{Dict, lookup, lookup_or, insert, has_key, lookup-insert}
use tam_simulation.Tokens.{
  Assigned, nothing_assigned, get_pre_vn_id, get_suf_vn_id, update_assign_map, known, avoid_pn_ids,
  random_ft,
}
use tam_simulation.Tokens.Choosing.{choice-fit}

pre-suc : (n k : ℕ) → k < n → get_pre_vn_id n (suc k) ≡ k
unfolding get_pre_vn_id
pre-suc n k low =
    let shifted : suc k + n - 1 ≡ k + n = omega arith in
    let wrapped : k + n - n ≡ k = omega arith in
    rw shifted (mod-eq-sub-mod (omega (arith, low)) ∙ rw wrapped (mod-eq_of_lt low))

suf-last : (n k : ℕ) → suc k ≡ n → get_suf_vn_id n k ≡ 0
unfolding get_suf_vn_id
suf-last n k last =
    let once : k + 1 + n - n ≡ n = omega (arith, last) in
    let twice : n - n ≡ 0 = omega arith in
    mod-eq-sub-mod (omega (arith, last))
    ∙ rw once (mod-eq-sub-mod (omega arith) ∙ rw twice (mod-eq_of_lt (omega (arith, last))))

contains-suffix : (p : ℕ) (xs ys : List ℕ) → contains p (xs ++ ys) ≡ false → contains p ys ≡ false
contains-suffix p [] ys h = h
contains-suffix p (x ∷ xs) ys h = contains-suffix p xs ys (ground (arith, h))

-- A node that is to be avoided is not chosen.
not_chosen :
    (o : Option ℕ) (ys : List ℕ) (p q : ℕ)
    → o ≡ some q
    → contains p ((elim o [ none ↦ [] | some pn ↦ pn ∷ [] ]) ++ ys) ≡ false
    → (q == p) ≡ false
not_chosen none ys p q e free = absurd (cc)
not_chosen (some x) ys p q e free = ground (arith, free, some-injective x q e)

-- Where the virtual nodes below `k` are assigned, neighbours among them to different nodes, and the
-- last one and the first one too.
record IsSpread (n pn_sum k : ℕ) (m : Dict ℕ) : Type 0 where
  low : (i : ℕ) → i < k → (p : ℕ) × (lookup i m ≡ some p)
  real : (i p : ℕ) → lookup i m ≡ some p → p < pn_sum
  high : (i : ℕ) → k ≤ i → lookup i m ≡ none
  apart :
      (i p q : ℕ) → suc i < k → lookup i m ≡ some p → lookup (suc i) m ≡ some q → (p == q) ≡ false
  closed :
      (i p q : ℕ)
      → suc i ≡ n
      → suc i ≤ k
      → lookup i m ≡ some p
      → lookup 0 m ≡ some q
      → (p == q) ≡ false

module _ (n pn_sum k : ℕ) (s : Assigned) (p : ℕ) (real : p < pn_sum) (two : 2 ≤ n) (more : k < n)
    (h : IsSpread n pn_sum k s.vn_pn_idx_map) (free : contains p (avoid_pn_ids n k s) ≡ false) where
  avoids-pre : (i q : ℕ) → suc i ≡ k → lookup i s.vn_pn_idx_map ≡ some q → (q == p) ≡ false
  avoids-pre i q e found =
      let pre : get_pre_vn_id n k ≡ i =
        subst (λ x. get_pre_vn_id n x ≡ i) e (pre-suc n i (omega (arith, more, e))) in
      not_chosen (lookup (get_pre_vn_id n k) s.vn_pn_idx_map)
        (known (get_suf_vn_id n k) s.vn_pn_idx_map) p q
        (subst (λ v. lookup v s.vn_pn_idx_map ≡ some q) (sym pre) found) free

  avoids-suf : (q : ℕ) → suc k ≡ n → lookup 0 s.vn_pn_idx_map ≡ some q → (q == p) ≡ false
  avoids-suf q e found =
      let suf : get_suf_vn_id n k ≡ 0 = suf-last n k e in
      let last =
        contains-suffix p (known (get_pre_vn_id n k) s.vn_pn_idx_map)
          (known (get_suf_vn_id n k) s.vn_pn_idx_map) free in
      not_chosen (lookup (get_suf_vn_id n k) s.vn_pn_idx_map) [] p q
        (subst (λ v. lookup v s.vn_pn_idx_map ≡ some q) (sym suf) found)
        (subst (λ l. contains p l ≡ false) (sym (append-nil _)) last)

  insert-IsSpread : IsSpread n pn_sum (suc k) (insert k p s.vn_pn_idx_map)
  insert-IsSpread =
      let m = s.vn_pn_idx_map in
      let at_k : lookup k (insert k p m) ≡ some p = ground (arith, lookup-insert k k p m) in
      let other : (i : ℕ) → (i ≡ k → ⊥) → lookup i (insert k p m) ≡ lookup i m =
        λ i ne. ground (arith, lookup-insert k i p m, ne) in
      record {
        low = λ i le. elim (Bool-cases (i == k)) [
          | inl here ↦
              (p, subst (λ x. lookup x (insert k p m) ≡ some p) (sym ((==_iff i k).0 here)) at_k)
          | inr before ↦
              let (q, found) = h.low i (ground (arith, le, before)) in
              (q, ground (arith, before, found, lookup-insert k i p m))
        ];
        real = λ i q found. elim (Bool-cases (i == k)) [
          | inl here ↦
              subst (λ x. x < pn_sum)
                (some-injective p q (
                  sym at_k
                  ∙ subst (λ x. lookup x (insert k p m) ≡ some q) ((==_iff i k).0 here) found))
                real
          | inr before ↦ h.real i q (ground (arith, found, before, lookup-insert k i p m))
        ];
        high = λ i le. ground (arith, lookup-insert k i p m, le, h.high i (omega (arith, le)));
        apart = λ i a b le ia ib. elim (Bool-cases (suc i == k)) [
          | inl here ↦
              let e : suc i ≡ k = (==_iff (suc i) k).0 here in
              let old : lookup i m ≡ some a = ground (arith, e, ia, lookup-insert k i p m) in
              let new : p ≡ b =
                some-injective p b
                  (sym at_k ∙ subst (λ x. lookup x (insert k p m) ≡ some b) e ib) in
              subst (λ x. (a == x) ≡ false) new (avoids-pre i a e old)
          | inr before ↦
              h.apart i a b (ground (arith, le, before))
                (ground (arith, le, before, ia, lookup-insert k i p m))
                (ground (arith, le, before, ib, lookup-insert k (suc i) p m))
        ];
        closed = λ i a b e le ia ib.
            let here : i ≡ k = omega (arith, e, le, more) in
            let old : lookup 0 m ≡ some b =
              ground (arith, e, here, two, ib, lookup-insert k 0 p m) in
            let new : p ≡ a =
              some-injective p a
                (sym at_k ∙ subst (λ x. lookup x (insert k p m) ≡ some a) here ia) in
            let apart = avoids-suf b (ap suc (sym here) ∙ e) old in ground (arith, apart, new);
      }

random_ft-IsSpread :
    (n pn_sum k : ℕ) (draws : List ℕ) (s : Assigned)
    → 2 ≤ n
    → 3 ≤ pn_sum
    → k + length draws ≤ n
    → IsSpread n pn_sum k s.vn_pn_idx_map
    → (t : Assigned) × (random_ft n pn_sum k draws s ≡ ok t)
      × IsSpread n pn_sum (k + length draws) t.vn_pn_idx_map
unfolding random_ft update_assign_map
random_ft-IsSpread n pn_sum k [] s two three fits h =
    (s, refl, subst (λ x. IsSpread n pn_sum x s.vn_pn_idx_map) (omega arith) h)
random_ft-IsSpread n pn_sum k (draw ∷ draws) s two three fits h =
    let (p, chosen, real, free) =
      choice-fit pn_sum draw (lookup (get_pre_vn_id n k) s.vn_pn_idx_map)
        (lookup (get_suf_vn_id n k) s.vn_pn_idx_map) three in
    let fresh : has_key k s.vn_pn_idx_map ≡ false = ground (arith, h.high k (omega arith)) in
    let next : Assigned = record {
      vn_pn_idx_map = insert k p s.vn_pn_idx_map;
      pn_vn_idx_map = insert p (lookup_or [] p s.pn_vn_idx_map ++ k ∷ []) s.pn_vn_idx_map;
    } in
    let (t, done, spread) =
      random_ft-IsSpread n pn_sum (suc k) draws next two three (omega (arith, fits))
        (insert-IsSpread n pn_sum k s p real two (omega (arith, fits)) h free) in
    (
      t,
      rw (chosen, fresh) done,
      subst (λ x. IsSpread n pn_sum x t.vn_pn_idx_map) (omega arith) spread,
    )

IsSpread-empty : (n pn_sum : ℕ) → IsSpread n pn_sum 0 []
IsSpread-empty n pn_sum = record {
  low = λ i le. absurd (omega (arith, le));
  real = λ i p found. absurd (cc);
  high = λ i le. refl;
  apart = λ i p q le ip iq. absurd (cc);
  closed = λ i p q e le ip iq. absurd (cc);
}

-- The two nodes of a token and of the next one on the ring.
abbrev pub AreApart : (n pn_sum : ℕ) → Assigned → (i : ℕ) → Type 0
AreApart n pn_sum t i =
    (p : ℕ) × (q : ℕ) × (lookup i t.vn_pn_idx_map ≡ some p)
    × (lookup ((i + 1) % n) t.vn_pn_idx_map ≡ some q)
    × (p < pn_sum)
    × (q < pn_sum)
    × ((p == q) ≡ false)

-- On a ring of two tokens at least, and with three physical nodes at least, the allocation for fault
-- tolerance raises nothing, whatever is drawn, and assigns every token to a node, and each token and
-- the next one on the ring, the last and the first one included, to different nodes.
pub random_ft-AreApart :
    (n pn_sum : ℕ) (draws : List ℕ)
    → 2 ≤ n
    → 3 ≤ pn_sum
    → length draws ≡ n
    → (t : Assigned) × (random_ft n pn_sum 0 draws nothing_assigned ≡ ok t)
      × ((i : ℕ) → i < n → AreApart n pn_sum t i)
random_ft-AreApart n pn_sum draws two three all =
    let (t, done, spread) =
      random_ft-IsSpread n pn_sum 0 draws nothing_assigned two three (omega (arith, all))
        (IsSpread-empty n pn_sum) in
    let whole = subst (λ x. IsSpread n pn_sum x t.vn_pn_idx_map) (omega (arith, all)) spread in
    (t, done, λ i low. pair t i low whole)
  where
    pair :
        (t : Assigned) (i : ℕ) → i < n → IsSpread n pn_sum n t.vn_pn_idx_map → AreApart n pn_sum t i
    pair t i low h =
        let (p, at_i) = h.low i low in
        elim (Bool-cases (ltb (i + 1) n)) [
          | inl inside ↦
              let next : i + 1 < n = ground (arith, inside) in
              let (q, at_next) = h.low (i + 1) next in
              (
                p,
                q,
                at_i,
                subst (λ x. lookup x t.vn_pn_idx_map ≡ some q) (sym (mod-eq_of_lt next)) at_next,
                h.real i p at_i,
                h.real (i + 1) q at_next,
                h.apart i p q (omega (arith, next)) at_i
                    (subst (λ x. lookup x t.vn_pn_idx_map ≡ some q) (omega arith) at_next),
              )
          | inr last ↦
              let e : suc i ≡ n = ground (arith, last, low) in
              let wraps : (i + 1) % n ≡ 0 =
                subst (λ x. x % n ≡ 0) (omega (arith, e)) (mod_self n) in
              let (q, at_first) = h.low 0 (omega (arith, low)) in
              (
                p,
                q,
                at_i,
                subst (λ x. lookup x t.vn_pn_idx_map ≡ some q) (sym wraps) at_first,
                h.real i p at_i,
                h.real 0 q at_first,
                h.closed i p q e (omega (arith, e)) at_i at_first,
              )
        ]
