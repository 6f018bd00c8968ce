-- ===== src/Wfq/Putting.antt =====
-- WFQScheduler._do_put keeps the invariant and raises nothing.
use mathlib.Core.Path.{subst}
use tam_simulation.Prelude.{
  ℕ, zero, suc, ◌<◌, ℤ, pos, ◌≤ℤ◌, ◌+ℤ◌, ◌*ℤ◌, max_ℤ, ltb_ℤ, ltb_ℤ→ge, int_laws, ◌*◌, ◌≡◌, refl,
  ◌∙◌, sym, ap, inl, inr, true, Bool-cases, some, List, [], ◌∷◌, ◌++◌, arith, count, ◌==◌, ==_iff,
  length, length-snoc,
}
use tam_simulation.Result.{ok}
use tam_simulation.Dict.{
  Dict, lookup, lookup_or, insert, remove, has_key, keys, lookup-insert, total-insert,
  count-keys-remove, lookup_of_has_key,
}
use tam_simulation.Req.{Req}
use tam_simulation.Occupancy.Counts.{Counts-add_one, Counts-eq}
use tam_simulation.Occupancy.{add_one}
use tam_simulation.Scheduler.{Stored}
use tam_simulation.Wfq.{
  Wfq, activate, open_queue, virtual_finish, checked, enqueue, admit, receive, do_put,
}
use tam_simulation.Wfq.Ascending.{Ascending, Ascending-snoc}
use tam_simulation.Wfq.Sums.{sum_weights}
use tam_simulation.Wfq.Active.{IsWeighed, weight_known}
use tam_simulation.Wfq.Invariant.{
  AllOwn, Waiting, IsValid, deactivate_clients-IsValid, weigh-IsValid, open_queue-IsValid,
  activate-IsValid, not_idle-IsValid,
}

pub AllOwn-snoc :
    (c : ℕ) (reqs : List Req) (req : Req)
    → req.client_id ≡ c
    → AllOwn c reqs
    → AllOwn c (reqs ++ req ∷ [])
AllOwn-snoc c [] req e o = (e, tt)
AllOwn-snoc c (x ∷ reqs) req e (same, o) = (same, AllOwn-snoc c reqs req e o)

module _ (c j : ℕ) (q : List Req) (queues : Dict (List Req)) where
  pub AllOwn-insert :
      AllOwn c q → AllOwn j (lookup_or [] j queues) → AllOwn j (lookup_or [] j (insert c q queues))
  AllOwn-insert new old = elim (Bool-cases (c == j)) [
    | inl same ↦
        subst (AllOwn j) (ground (arith, lookup-insert c j q queues))
          (subst (λ k. AllOwn k q) ((==_iff c j).0 same) new)
    | inr other ↦ subst (AllOwn j) (ground (arith, lookup-insert c j q queues)) old
  ]

  pub Ascending-insert :
      (hi : ℤ)
      → (c ≡ j → Ascending q hi)
      → Ascending (lookup_or [] j queues) hi
      → Ascending (lookup_or [] j (insert c q queues)) hi
  Ascending-insert hi new old = elim (Bool-cases (c == j)) [
    | inl same ↦
        subst (λ l. Ascending l hi) {x = q} (ground (arith, lookup-insert c j q queues))
          (new ((==_iff c j).0 same))
    | inr other ↦
        subst (λ l. Ascending l hi) {x = lookup_or [] j queues}
          (ground (arith, lookup-insert c j q queues)) old
  ]

  pub Waiting-insert :
      (e a : ℕ)
      → (c ≡ j → Waiting (some q) e a)
      → Waiting (lookup j queues) e a
      → Waiting (lookup j (insert c q queues)) e a
  Waiting-insert e a new old = elim (Bool-cases (c == j)) [
    | inl same ↦
        subst (λ o. Waiting o e a) {x = some q} (ground (arith, lookup-insert c j q queues))
          (new ((==_iff c j).0 same))
    | inr other ↦
        subst (λ o. Waiting o e a) {x = lookup j queues}
          (ground (arith, lookup-insert c j q queues)) old
  ]

Waiting-some : (q : List Req) (e a : ℕ) → e ≡ 0 → a ≡ 1 → Waiting (some q) e a
Waiting-some [] e a h k = tt
Waiting-some (req ∷ rest) e a h k = (h, k)

checked_positive : (w : ℕ) → 0 < w → checked w ≡ ok w
checked_positive zero h = absurd (omega arith)
checked_positive (suc w) h = refl

module _ (quot : ℤ → ℕ → ℤ) (now : ℕ) (req : Req) (s : Wfq) (h : IsValid s) where
  abbrev client : ℕ
  client = req.client_id

  -- A request of an active client with a queue gets a virtual finish time: no division by zero.
  virtual_finish_known :
      has_key client s.queues ≡ true
      → 0 < count client s.active_client_list
      → (w : ℕ) × (last v : ℤ) × (0 < w)
        × (lookup client s.last_vir_finish ≡ some last)
        × (virtual_finish quot now req s ≡ ok v)
        × (v ≡ quot (pos req.cost *ℤ s.total_active_weight) w +ℤ max_ℤ (pos now) last)
  unfolding virtual_finish
  virtual_finish_known q a =
      let (w, weight, heavy) = weight_known client s h.weights a in
      let (last, found) = lookup_of_has_key client s.last_vir_finish (h.timed client q) in
      (
        w,
        last,
        quot (pos req.cost *ℤ s.total_active_weight) w +ℤ max_ℤ (pos now) last,
        heavy,
        found,
        rw (found, weight, checked_positive w heavy),
        refl,
      )

  module _ (q : List Req) (v : ℤ) (found : lookup client s.queues ≡ some q)
      (active : count client s.active_client_list ≡ 1)
      (busy : count client (keys s.queue_empty_time) ≡ 0)
      (later : lookup_or (pos 0) client s.last_vir_finish ≤ℤ v) where
    abbrev longer : Wfq
    longer = record s {
      queues = insert client (q ++ record req { vir_finish = v } ∷ []) s.queues;
      last_vir_finish = insert client v s.last_vir_finish;
      occ = add_one now s.occ;
    }

    ordered_after :
        (j : ℕ)
        → Ascending (lookup_or [] j longer.queues) (lookup_or (pos 0) j longer.last_vir_finish)
    ordered_after j = elim (Bool-cases (client == j)) [
      | inl same ↦
          subst (λ l. Ascending l (lookup_or (pos 0) j longer.last_vir_finish))
            {x = q ++ record req { vir_finish = v } ∷ []}
            (ground
              (arith, lookup-insert client j (q ++ record req { vir_finish = v } ∷ []) s.queues))
            (subst (Ascending (q ++ record req { vir_finish = v } ∷ [])) {x = v}
              (ground (arith, lookup-insert client j v s.last_vir_finish))
              (Ascending-snoc (lookup_or (pos 0) client s.last_vir_finish) q
                (record req { vir_finish = v }) later
                (subst (λ l. Ascending l (lookup_or (pos 0) client s.last_vir_finish)) {y = q}
                  (ground (arith, found)) (h.ordered client))))
      | inr other ↦
          subst (λ l. Ascending l (lookup_or (pos 0) j longer.last_vir_finish))
            {x = lookup_or [] j s.queues}
            (ground
              (arith, lookup-insert client j (q ++ record req { vir_finish = v } ∷ []) s.queues))
            (subst (Ascending (lookup_or [] j s.queues)) {x = lookup_or (pos 0) j s.last_vir_finish}
              (ground (arith, lookup-insert client j v s.last_vir_finish)) (h.ordered j))
    ]

    IsValid-longer : IsValid longer
    IsValid-longer =
        let own : AllOwn client q =
          subst (AllOwn client) (ground (arith, found)) (h.owners client) in
        record {
          stored =
              Counts-eq _ _ _
                (ground (
                  arith,
                  total-insert (length {A = Req}) client (q ++ record req { vir_finish = v } ∷ [])
                      s.queues,
                  length-snoc q (record req { vir_finish = v }),
                  found,
                ))
                (Counts-add_one now _ s.occ h.stored);
          weights = record {
            total = h.weights.total;
            once = h.weights.once;
            weighed = h.weights.weighed;
            positive = h.weights.positive;
          };
          owners =
              λ j. AllOwn-insert client j _ s.queues (AllOwn-snoc client q _ refl own) (h.owners j);
          idle = h.idle;
          waiting = λ j.
              Waiting-insert client j _ s.queues _ _
                (λ e. Waiting-some _ _ _ (rw e at busy) (rw e at active)) (h.waiting j);
          ordered = λ j. ordered_after j;
          timed = λ j k. ground (
            arith,
            h.timed j,
            lookup-insert client j (q ++ record req { vir_finish = v } ∷ []) s.queues,
            lookup-insert client j v s.last_vir_finish,
          );
        }

-- The client has a queue, is active, and is not recorded as idle.
record IsReady (c : ℕ) (s : Wfq) : Type 0 where
  valid : IsValid s
  opened : has_key c s.queues ≡ true
  active : count c s.active_client_list ≡ 1
  busy : count c (keys s.queue_empty_time) ≡ 0

IsReady-activated :
    (c : ℕ) (s : Wfq)
    → IsValid s
    → has_key c s.weights ≡ true
    → has_key c s.queues ≡ true
    → (t : Wfq) × (activate c s ≡ ok t)
      × IsReady c (record t { queue_empty_time = remove c t.queue_empty_time })
IsReady-activated c s h weighed opened =
    let (t, done, valid, active, queues, _) = activate-IsValid c s h weighed in
    (
      t,
      done,
      record {
        valid = not_idle-IsValid c t valid;
        opened = ground (arith, queues, opened);
        active = active;
        busy = ground (arith, count-keys-remove c c t.queue_empty_time);
      },
    )

admit-IsReady :
    (one now c : ℕ) (s : Wfq)
    → 0 < one
    → IsValid s
    → (t : Wfq) × (admit one now c s ≡ ok t) × IsReady c t
unfolding admit
admit-IsReady one now c s unit h =
    let (s1, done1, h1) = deactivate_clients-IsValid now s h in
    let (s2, done2, h2, weighed) = weigh-IsValid one c s1 h1 unit in
    let (h3, opened, same) = open_queue-IsValid c s2 h2 in
    let (t, done4, ready) =
      IsReady-activated c (open_queue c s2) h3 (subst (λ w. has_key c w ≡ true) (sym same) weighed)
        opened in
    (record t { queue_empty_time = remove c t.queue_empty_time }, rw (done1, done2, done4), ready)

-- What a float division promises: a quotient of numbers that are not negative is not negative.
abbrev pub KeepsSign : (ℤ → ℕ → ℤ) → Type 0
KeepsSign quot = (a w : ℕ) → 0 < w → pos 0 ≤ℤ quot (pos a) w

pos-times : (a b : ℕ) → pos a *ℤ pos b ≡ pos (a * b)
unfolding ◌*ℤ◌
pos-times a b = ground arith

later_finish : (a last : ℤ) (now : ℕ) → pos 0 ≤ℤ a → last ≤ℤ a +ℤ max_ℤ (pos now) last
later_finish a last now h = elim (Bool-cases (ltb_ℤ (pos now) last)) [
  | inl e ↦ rw e (omega int_laws)
  | inr e ↦ rw e (omega (int_laws, ltb_ℤ→ge (pos now) last e))
]

-- The new virtual finish time is not before the last one of the client.
finish_later :
    (quot : ℤ → ℕ → ℤ) (now cost w : ℕ) (last v : ℤ) (s : Wfq)
    → KeepsSign quot
    → IsWeighed s
    → 0 < w
    → v ≡ quot (pos cost *ℤ s.total_active_weight) w +ℤ max_ℤ (pos now) last
    → last ≤ℤ v
finish_later quot now cost w last v s sign h heavy e =
    let scaled : pos cost *ℤ s.total_active_weight
        ≡ pos (cost * sum_weights s.weights s.active_client_list) =
      ap (λ t. pos cost *ℤ t) h.total
      ∙ pos-times cost (sum_weights s.weights s.active_client_list) in
    let exact : v
        ≡ quot (pos (cost * sum_weights s.weights s.active_client_list)) w +ℤ max_ℤ (pos now) last =
      e ∙ ap (λ t. quot t w +ℤ max_ℤ (pos now) last) scaled in
    subst (λ t. last ≤ℤ t) (sym exact)
      (later_finish _ last now (sign (cost * sum_weights s.weights s.active_client_list) w heavy))

enqueue-IsValid :
    (quot : ℤ → ℕ → ℤ) (now : ℕ) (req : Req) (s : Wfq)
    → KeepsSign quot
    → IsReady req.client_id s
    → (t : Wfq) × (enqueue quot now req s ≡ ok t) × IsValid (record t { occ = add_one now t.occ })
enqueue-IsValid quot now req s sign ready =
    let h = ready.valid in
    let (q, found) = lookup_of_has_key req.client_id s.queues ready.opened in
    let (w, last, v, heavy, found_last, timed, e) =
      virtual_finish_known quot now req s h ready.opened (omega (arith, ready.active)) in
    let at_last : last ≡ lookup_or (pos 0) req.client_id s.last_vir_finish =
      ground (arith, found_last) in
    let later = finish_later quot now req.cost w last v s sign h.weights heavy e in
    (
      record s {
        queues = insert req.client_id (q ++ record req { vir_finish = v } ∷ []) s.queues;
        last_vir_finish = insert req.client_id v s.last_vir_finish;
      },
      rw (found, timed),
      IsValid-longer quot now req s h q v found ready.active ready.busy
          (subst (λ l. l ≤ℤ v) at_last later),
    )

-- `_do_put` raises nothing, always stores the request, and keeps the invariant: the counters, the
-- total of the active weights, and what is recorded of idle clients.
pub put-IsValid :
    (one : ℕ) (quot : ℤ → ℕ → ℤ) (now : ℕ) (req : Req) (s : Wfq)
    → 0 < one
    → KeepsSign quot
    → IsValid s
    → (r : Stored Wfq) × (do_put one quot now req s ≡ ok r) × (r.stored ≡ true) × IsValid r.state
unfolding do_put receive
put-IsValid one quot now req s unit sign h =
    let (t, admitted, ready) = admit-IsReady one now req.client_id s unit h in
    let (u, entered, valid) = enqueue-IsValid quot now req t sign ready in
    (
      record { state = record u { occ = add_one now u.occ }; stored = true },
      rw (admitted, entered),
      refl,
      valid,
    )
