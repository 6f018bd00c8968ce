-- ===== src/Wfq/Active.antt =====
-- The active clients of a WFQScheduler and the sum of their weights.
use tam_simulation.Prelude.{
  ℕ, zero, suc, ◌+◌, ◌≤◌, ◌<◌, ℤ, pos, ◌+ℤ◌, ◌-ℤ◌, ◌≡◌, refl, ◌∙◌, inl, inr, true, false,
  Bool-cases, Option, none, some, List, [], ◌∷◌, ◌++◌, arith, contains, erase, count,
  contains_iff_count, count-erase, count-append, ◌==◌, ltb,
}
use tam_simulation.Result.{ok}
use tam_simulation.Dict.{Dict, lookup, insert, has_key, keys, lookup-insert}
use tam_simulation.Wfq.{Wfq, set_weight, deactivate, expire, activate}
use tam_simulation.Wfq.Sums.{
  weight_of, sum_weights, sum_weights-snoc, sum_weights-erase, sum_weights-insert_absent,
  sum_weights-insert_once,
}

abbrev pub IsPositive : Option ℕ → Type 0
IsPositive none = Unit
IsPositive (some w) = 0 < w

-- Each active client is listed once and has a weight, all weights are positive, and the total is
-- the sum of the weights of the active clients.
pub record IsWeighed (s : Wfq) : Type 0 where
  pub total : s.total_active_weight ≡ pos (sum_weights s.weights s.active_client_list)
  pub once : (c : ℕ) → count c s.active_client_list ≤ 1
  pub weighed : (c : ℕ) → count c s.active_client_list ≤ weight_of s.weights c
  pub positive : (c : ℕ) → IsPositive (lookup c s.weights)

minus : (a b c : ℕ) → c + b ≡ a → pos a -ℤ pos b ≡ pos c
unfolding ◌-ℤ◌
minus a b c h = ground arith

plus : (a b : ℕ) → pos a +ℤ pos b ≡ pos (a + b)
unfolding ◌+ℤ◌
plus a b = ground arith

module _ (c : ℕ) (s : Wfq) (h : IsWeighed s) where
  pub weight_known :
      0 < count c s.active_client_list → (w : ℕ) × (lookup c s.weights ≡ some w) × (0 < w)
  weight_known n = known (lookup c s.weights) (h.weighed c)
    where
      known :
          (o : Option ℕ)
          → count c s.active_client_list ≤ (elim o [ none ↦ 0 | some w ↦ w ])
          → (w : ℕ) × (o ≡ some w) × (0 < w)
      known none le = absurd (omega arith)
      known (some w) le = (w, refl, omega arith)

  -- An idle client that is active can be deactivated.
  pub deactivate-IsWeighed :
      0 < count c s.active_client_list
      → (s' : Wfq) × (deactivate c s ≡ ok s')
        × IsWeighed s'
        × (s' ≡ record s {
          active_client_list = erase c s.active_client_list;
          total_active_weight = s'.total_active_weight;
        })
  unfolding deactivate
  deactivate-IsWeighed n =
      let (w, found, _) = weight_known n in
      let listed : contains c s.active_client_list ≡ true =
        ground (arith, contains_iff_count c s.active_client_list) in
      (
        record s {
          active_client_list = erase c s.active_client_list;
          total_active_weight = s.total_active_weight -ℤ pos w;
        },
        rw (listed, found),
        record {
          total = ground (
            arith,
            h.total,
            sum_weights-erase s.weights s.active_client_list c,
            minus (sum_weights s.weights s.active_client_list) w
                (sum_weights s.weights (erase c s.active_client_list)),
          );
          once = λ j. ground (arith, h.once j, count-erase c j s.active_client_list);
          weighed = λ j. ground (arith, h.weighed j, count-erase c j s.active_client_list);
          positive = h.positive;
        },
        refl,
      )

-- What the loop of `deactivate_clients` did: the removed clients were idle, and each left the list
-- of active clients as often as it was removed.
pub record Expired (s s' : Wfq) (idle : Dict ℕ) (removed : List ℕ) : Type 0 where
  pub valid : IsWeighed s'
  pub same : s' ≡ record s {
    active_client_list = s'.active_client_list;
    total_active_weight = s'.total_active_weight;
  }
  pub left :
      (c : ℕ) → count c s'.active_client_list + count c removed ≡ count c s.active_client_list
  pub idled : (c : ℕ) → count c removed ≤ count c (keys idle)

abbrev pub AllActive : Dict ℕ → Wfq → Type 0
AllActive idle s = (c : ℕ) → count c (keys idle) ≤ count c s.active_client_list

module _ (now c since : ℕ) (rest : Dict ℕ) (s : Wfq) where
  expire_keeps :
      ltb (since + s.deactivate_period) now ≡ false
      → expire now ((c, since) ∷ rest) s ≡ expire now rest s
  unfolding expire
  expire_keeps h = rw (h, expire)

  expire_drops :
      (t u : Wfq) (removed : List ℕ)
      → ltb (since + s.deactivate_period) now ≡ true
      → deactivate c s ≡ ok t
      → expire now rest t ≡ ok (u, removed)
      → expire now ((c, since) ∷ rest) s ≡ ok (u, c ∷ removed)
  unfolding expire
  expire_drops t u removed h d e = rw (h, expire, d, e)

pub expire-Expired :
    (now : ℕ) (idle : Dict ℕ) (s : Wfq)
    → IsWeighed s
    → AllActive idle s
    → (s' : Wfq) × (removed : List ℕ) × (expire now idle s ≡ ok (s', removed))
      × Expired s s' idle removed
unfolding expire
expire-Expired now [] s h a = (
  s,
  [],
  refl,
  record { valid = h; same = refl; left = λ c. omega arith; idled = λ c. omega arith },
)
expire-Expired now ((c, since) ∷ rest) s h a =
    elim (Bool-cases (ltb (since + s.deactivate_period) now)) [
      | inr fresh ↦
          let (s', removed, ran, e) = expire-Expired now rest s h (λ j. ground (arith, a j)) in
          (
            s',
            removed,
            expire_keeps now c since rest s fresh ∙ ran,
            record {
              valid = e.valid;
              same = e.same;
              left = e.left;
              idled = λ j. ground (arith, e.idled j);
            },
          )
      | inl old ↦
          let (t, done, valid, alike) = deactivate-IsWeighed c s h (ground (arith, a c)) in
          let listed : contains c s.active_client_list ≡ true =
            ground (arith, contains_iff_count c s.active_client_list, a c) in
          let (s', removed, ran, e) =
            expire-Expired now rest t valid
              (λ j. ground (arith, a j, count-erase c j s.active_client_list)) in
          (
            s',
            c ∷ removed,
            expire_drops now c since rest s t s' removed old done ran,
            record {
              valid = e.valid;
              same = ground (arith, e.same);
              left = λ j. ground (arith, e.left j, count-erase c j s.active_client_list);
              idled = λ j. ground (arith, e.idled j);
            },
          )
    ]

swap : (a b c d : ℕ) → d + b ≡ a + c → pos a -ℤ pos b +ℤ pos c ≡ pos d
unfolding ◌-ℤ◌ ◌+ℤ◌
swap a b c d h = ground arith

IsPositive-weight :
    (weights : Dict ℕ) (c j w : ℕ)
    → 0 < w
    → IsPositive (lookup j weights)
    → IsPositive (lookup j (insert c w weights))
IsPositive-weight weights c j w h p =
    rw lookup-insert (elim (Bool-cases (c == j)) [ inl same ↦ rw same h | inr other ↦ rw other p ])

module _ (c w : ℕ) (s : Wfq) (h : IsWeighed s) (heavy : 0 < w) where
  abbrev reweighed : ℤ → Wfq
  reweighed total = record s { weights = insert c w s.weights; total_active_weight = total }

  module _ (total : ℤ)
      (adds : total ≡ pos (sum_weights (insert c w s.weights) s.active_client_list)) where
    reweighed-IsWeighed : IsWeighed (reweighed total)
    reweighed-IsWeighed = record {
      total = adds;
      once = h.once;
      weighed = λ j. ground (arith, h.weighed j, h.once j, lookup-insert c j w s.weights);
      positive = λ j. IsPositive-weight s.weights c j w heavy (h.positive j);
    }

  set_weight_active :
      0 < count c s.active_client_list
      → (total : ℤ) × (set_weight c w s ≡ ok (reweighed total)) × IsWeighed (reweighed total)
  unfolding set_weight
  set_weight_active n =
      let (old, found, _) = weight_known c s h n in
      let listed : contains c s.active_client_list ≡ true =
        ground (arith, contains_iff_count c s.active_client_list) in
      let total = s.total_active_weight -ℤ pos old +ℤ pos w in
      (
        total,
        rw (listed, found),
        reweighed-IsWeighed total (
            ground (
              arith,
              h.total,
              h.once c,
              sum_weights-insert_once s.weights s.active_client_list c w,
              swap (sum_weights s.weights s.active_client_list) old w
                  (sum_weights (insert c w s.weights) s.active_client_list),
            )),
      )

  set_weight_inactive :
      count c s.active_client_list ≡ 0
      → (total : ℤ) × (set_weight c w s ≡ ok (reweighed total)) × IsWeighed (reweighed total)
  unfolding set_weight
  set_weight_inactive n =
      let absent : contains c s.active_client_list ≡ false =
        ground (arith, contains_iff_count c s.active_client_list) in
      (
        s.total_active_weight,
        rw absent,
        reweighed-IsWeighed s.total_active_weight
            (ground (arith, h.total, sum_weights-insert_absent s.weights s.active_client_list c w)),
      )

  -- Setting a positive weight raises nothing; the total is again the sum of the active weights.
  pub set_weight-IsWeighed :
      (total : ℤ) × (set_weight c w s ≡ ok (reweighed total)) × IsWeighed (reweighed total)
  set_weight-IsWeighed =
      elim (count c s.active_client_list)
          as (λ n.
            count c s.active_client_list ≡ n
            → (total : ℤ) × (set_weight c w s ≡ ok (reweighed total))
              × IsWeighed (reweighed total)) [
                | zero ↦ λ e. set_weight_inactive e
                | suc n ↦ λ e. set_weight_active (omega arith)
              ]
        refl

known_weight :
    (o : Option ℕ) → (elim o [ none ↦ false | some _ ↦ true ]) ≡ true → (w : ℕ) × (o ≡ some w)
known_weight none e = absurd (cc)
known_weight (some w) e = (w, refl)

module _ (c : ℕ) (s : Wfq) (h : IsWeighed s) where
  -- A client with a weight becomes active, and then counts once.
  pub activate-IsWeighed :
      has_key c s.weights ≡ true
      → (active : List ℕ) × (total : ℤ) × (activate c s
          ≡ ok (record s { active_client_list = active; total_active_weight = total }))
        × IsWeighed (record s { active_client_list = active; total_active_weight = total })
        × (count c active ≡ 1)
        × ((j : ℕ) → count j s.active_client_list ≤ count j active)
  activate-IsWeighed k = elim (Bool-cases (contains c s.active_client_list)) [
    | inl listed ↦ (
      s.active_client_list,
      s.total_active_weight,
      rw listed,
      h,
      ground (arith, h.once c, contains_iff_count c s.active_client_list),
      λ j. omega arith,
    )
    | inr absent ↦
        let none_yet : count c s.active_client_list ≡ 0 =
          ground (arith, contains_iff_count c s.active_client_list) in
        let (w, found) = known_weight (lookup c s.weights) k in
        let active = s.active_client_list ++ c ∷ [] in
        (
          active,
          s.total_active_weight +ℤ pos w,
          rw (absent, found),
          record {
            total = ground (
              arith,
              h.total,
              sum_weights-snoc s.weights s.active_client_list c,
              plus (sum_weights s.weights s.active_client_list) w,
            );
            once = λ j. ground (arith, h.once j, count-append j s.active_client_list (c ∷ []));
            weighed = λ j.
                ground
                  (arith, h.weighed j, count-append j s.active_client_list (c ∷ []), h.positive c);
            positive = h.positive;
          },
          ground (arith, count-append c s.active_client_list (c ∷ [])),
          λ j. omega (arith, count-append j s.active_client_list (c ∷ [])),
        )
  ]
