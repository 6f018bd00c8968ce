-- ===== src/Tokens/Inverse.antt =====
-- cassandra/cassandra.py: vn_pn_idx_map and pn_vn_idx_map say the same.
use mathlib.Core.Path.{subst}
use tam_simulation.Prelude.{
  ℕ, zero, suc, ◌+◌, ◌%◌, ◌≡◌, refl, ◌∙◌, ap, inl, inr, true, false, not, Bool-cases, Option, none,
  some, List, [], ◌∷◌, ◌++◌, arith, count, count-append, ltb, ◌==◌, ==_iff, if◌then◌else◌,
}
use tam_simulation.Result.{ok, ok-injective, ◌>>=◌, assert, bind-eq-ok}
use tam_simulation.Dict.{Dict, lookup, lookup_or, insert, has_key, lookup-insert}
use tam_simulation.Tokens.{
  Assigned, nothing_assigned, avoid_pn_ids, remain_pn_ids, choice, update_assign_map, in_order,
  random_tokens, random_ft, Strategy, random, in_order_tokens, random_fault_tolerant,
  assign_vn_to_pn,
}

-- Whether a token is assigned to a node, as a number.
abbrev pub held_by : Option ℕ → ℕ → ℕ
held_by none pn = 0
held_by (some q) pn = if q == pn then 1 else 0

-- A node lists each token that is assigned to it once, and no other.
abbrev pub IsInverse : Assigned → Type 0
IsInverse s =
    (vn pn : ℕ)
    → count vn (lookup_or [] pn s.pn_vn_idx_map) ≡ held_by (lookup vn s.vn_pn_idx_map) pn

lookup_or-insert :
    (k j : ℕ) (v d : List ℕ) (m : Dict (List ℕ))
    → lookup_or d j (insert k v m) ≡ (if k == j then v else lookup_or d j m)
lookup_or-insert k j v d m =
    ap (λ o. from o) (lookup-insert k j v m)
    ∙ (elim (k == j)
        as (λ b. from (if b then some v else lookup j m) ≡ (if b then v else from (lookup j m))) [
          | true ↦ refl
          | false ↦ refl
        ])
  where
    from : Option (List ℕ) → List ℕ
    from o = elim o [ none ↦ d | some w ↦ w ]

unassigned :
    (vn : ℕ) (m : Dict ℕ) {u : Unit {0}} → assert (not (has_key vn m)) ≡ ok u → lookup vn m ≡ none
unassigned vn m passed = free (lookup vn m) passed
  where
    free :
        (o : Option ℕ) {u : Unit {0}}
        → assert (not (elim o [ none ↦ false | some _ ↦ true ])) ≡ ok u
        → o ≡ none
    free none e = refl
    free (some x) e = absurd (cc)

count-snoc :
    (v vn : ℕ) (xs : List ℕ) → count v (xs ++ vn ∷ []) ≡ count v xs + (if vn == v then 1 else 0)
count-snoc v vn xs = ground (arith, count-append v xs (vn ∷ []))

-- One more token, which was not assigned before.
held-insert :
    (vn pn v p : ℕ) (s : Assigned)
    → IsInverse s
    → lookup vn s.vn_pn_idx_map ≡ none
    → count v
        (lookup_or [] p (insert pn (lookup_or [] pn s.pn_vn_idx_map ++ vn ∷ []) s.pn_vn_idx_map))
      ≡ held_by (lookup v (insert vn pn s.vn_pn_idx_map)) p
held-insert vn pn v p s h fresh =
    let listed = lookup_or [] pn s.pn_vn_idx_map in
    let before : (vn == v) ≡ true → count v (lookup_or [] p s.pn_vn_idx_map) ≡ 0 = λ same.
      h v p
      ∙ subst (λ x. held_by (lookup x s.vn_pn_idx_map) p ≡ 0) ((==_iff vn v).0 same)
          (rw fresh refl) in
    elim (Bool-cases (pn == p)) [
      | inl here ↦
          let same_list : listed ≡ lookup_or [] p s.pn_vn_idx_map =
            subst (λ x. listed ≡ lookup_or [] x s.pn_vn_idx_map) ((==_iff pn p).0 here) refl in
          let old : count v listed ≡ count v (lookup_or [] p s.pn_vn_idx_map) =
            ap (count v) same_list in
          let none_yet : count v (lookup_or [] p s.pn_vn_idx_map) ≡ 0 → count v listed ≡ 0 =
            λ e. old ∙ e in
          elim (Bool-cases (vn == v)) [
            | inl same ↦
                rw
                  (
                    lookup_or-insert pn p (listed ++ vn ∷ []) [] s.pn_vn_idx_map,
                    here,
                    lookup-insert vn v pn s.vn_pn_idx_map,
                    same,
                    here,
                  )
                  (count-snoc v vn listed ∙ ground (arith, same, none_yet (before same)))
            | inr other ↦
                rw
                  (
                    lookup_or-insert pn p (listed ++ vn ∷ []) [] s.pn_vn_idx_map,
                    here,
                    lookup-insert vn v pn s.vn_pn_idx_map,
                    other,
                  )
                  (count-snoc v vn listed ∙ ground (arith, other, old, h v p))
          ]
      | inr there ↦ elim (Bool-cases (vn == v)) [
        | inl same ↦
            rw
              (
                lookup_or-insert pn p (listed ++ vn ∷ []) [] s.pn_vn_idx_map,
                there,
                lookup-insert vn v pn s.vn_pn_idx_map,
                same,
                there,
              )
              (before same)
        | inr other ↦
            rw
              (
                lookup_or-insert pn p (listed ++ vn ∷ []) [] s.pn_vn_idx_map,
                there,
                lookup-insert vn v pn s.vn_pn_idx_map,
                other,
              )
              (h v p)
      ]
    ]

update-IsInverse :
    (vn pn : ℕ) (s t : Assigned) → IsInverse s → update_assign_map vn pn s ≡ ok t → IsInverse t
unfolding update_assign_map
update-IsInverse vn pn s t h e =
    let (_, passed, done) = bind-eq-ok (assert (not (has_key vn s.vn_pn_idx_map))) _ e in
    subst IsInverse (ok-injective done)
      (λ v p. held-insert vn pn v p s h (unassigned vn s.vn_pn_idx_map passed))

in_order-IsInverse :
    (pn_sum i left : ℕ) (s t : Assigned)
    → IsInverse s
    → in_order pn_sum i left s ≡ ok t
    → IsInverse t
unfolding in_order
in_order-IsInverse pn_sum i zero s t h e = subst IsInverse (ok-injective e) h
in_order-IsInverse pn_sum i (suc left) s t h e = elim (Bool-cases (pn_sum == 0)) [
  | inl nobody ↦ let refused = rw nobody at e in absurd (cc)
  | inr some_node ↦
      let (u, first, rest) =
        bind-eq-ok (update_assign_map i (i % pn_sum) s) (in_order pn_sum (suc i) left)
          (rw some_node at e) in
      in_order-IsInverse pn_sum (suc i) left u t (update-IsInverse i (i % pn_sum) s u h first) rest
]

random_tokens-IsInverse :
    (pn_sum pn : ℕ) (vns : List ℕ) (s t : Assigned)
    → IsInverse s
    → random_tokens pn_sum pn vns s ≡ ok t
    → IsInverse t
unfolding random_tokens
random_tokens-IsInverse pn_sum pn [] s t h e = subst IsInverse (ok-injective e) h
random_tokens-IsInverse pn_sum pn (vn ∷ vns) s t h e = elim (Bool-cases (ltb pn pn_sum)) [
  | inr nobody ↦ let refused = rw nobody at e in absurd (cc)
  | inl some_node ↦
      let (u, first, rest) =
        bind-eq-ok (update_assign_map vn pn s) (random_tokens pn_sum ((pn + 1) % pn_sum) vns)
          (rw some_node at e) in
      random_tokens-IsInverse pn_sum ((pn + 1) % pn_sum) vns u t
        (update-IsInverse vn pn s u h first) rest
]

random_ft-IsInverse :
    (vn_sum pn_sum vn : ℕ) (draws : List ℕ) (s t : Assigned)
    → IsInverse s
    → random_ft vn_sum pn_sum vn draws s ≡ ok t
    → IsInverse t
unfolding random_ft
random_ft-IsInverse vn_sum pn_sum vn [] s t h e = subst IsInverse (ok-injective e) h
random_ft-IsInverse vn_sum pn_sum vn (draw ∷ draws) s t h e =
    let (pn, _, e1) =
      bind-eq-ok (choice draw (remain_pn_ids 0 pn_sum (avoid_pn_ids vn_sum vn s)))
        (λ pn. update_assign_map vn pn s >>= λ t. random_ft vn_sum pn_sum (suc vn) draws t) e in
    let (u, first, rest) =
      bind-eq-ok (update_assign_map vn pn s) (random_ft vn_sum pn_sum (suc vn) draws) e1 in
    random_ft-IsInverse vn_sum pn_sum (suc vn) draws u t (update-IsInverse vn pn s u h first) rest

-- Whatever the strategy and its draws, where the allocation raises nothing the two maps are inverse
-- to each other: each node lists every token that is assigned to it once, and no other.
pub assign_vn_to_pn-IsInverse :
    (strategy : Strategy) (vn_sum pn_sum : ℕ) (t : Assigned)
    → assign_vn_to_pn strategy vn_sum pn_sum ≡ ok t
    → IsInverse t
unfolding assign_vn_to_pn
assign_vn_to_pn-IsInverse (random shuffled) vn_sum pn_sum t e =
    random_tokens-IsInverse pn_sum 0 shuffled nothing_assigned t (λ v p. refl) e
assign_vn_to_pn-IsInverse in_order_tokens vn_sum pn_sum t e =
    in_order-IsInverse pn_sum 0 vn_sum nothing_assigned t (λ v p. refl) e
assign_vn_to_pn-IsInverse (random_fault_tolerant draws) vn_sum pn_sum t e =
    random_ft-IsInverse vn_sum pn_sum 0 draws nothing_assigned t (λ v p. refl) e
