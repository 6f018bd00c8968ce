-- ===== src/Wfq/Invariant.antt =====
-- The invariant of WFQScheduler, and that setting a weight and the first steps of a put keep it.
use mathlib.Core.Path.{subst}
use tam_simulation.Prelude.{
  ℕ, ◌≤◌, ◌<◌, ℤ, pos, ◌≡◌, refl, ap, inl, inr, true, Bool-cases, Option, none, some, List, [], ◌∷◌,
  arith, contains, count, contains_iff_count, ◌==◌, if◌then◌else◌, length,
}
use tam_simulation.Result.{ok}
use tam_simulation.Dict.{
  Dict, lookup, lookup_or, insert, remove, has_key, keys, total, lookup-insert, total-insert,
  count-keys-remove,
}
use tam_simulation.Req.{Req}
use tam_simulation.Occupancy.Counts.{Counts, Counts-fresh, Counts-eq}
use tam_simulation.Wfq.{
  Wfq, init, set_weight, activate, weigh, open_queue, remove_all, deactivate_clients,
}
use tam_simulation.Wfq.Ascending.{Ascending}
use tam_simulation.Wfq.Active.{IsWeighed, expire-Expired, set_weight-IsWeighed, activate-IsWeighed}

abbrev pub AllOwn : ℕ → List Req → Type 0
AllOwn c [] = Unit
AllOwn c (req ∷ reqs) = (req.client_id ≡ c) × AllOwn c reqs

-- A client with a request queued is active and not recorded as idle.
abbrev pub Waiting : Option (List Req) → ℕ → ℕ → Type 0
Waiting none idle active = Unit
Waiting (some []) idle active = Unit
Waiting (some (req ∷ rest)) idle active = (idle ≡ 0) × (active ≡ 1)

pub record IsValid (s : Wfq) : Type 0 where
  pub stored : Counts (total length s.queues) s.occ
  pub weights : IsWeighed s
  pub owners : (c : ℕ) → AllOwn c (lookup_or [] c s.queues)
  pub idle : (c : ℕ) → count c (keys s.queue_empty_time) ≤ count c s.active_client_list
  pub waiting :
      (c : ℕ)
      → Waiting
          (lookup c s.queues)
          (count c (keys s.queue_empty_time))
          (count c s.active_client_list)
  pub ordered :
      (c : ℕ) → Ascending (lookup_or [] c s.queues) (lookup_or (pos 0) c s.last_vir_finish)
  pub timed : (c : ℕ) → has_key c s.queues ≡ true → has_key c s.last_vir_finish ≡ true

pub IsValid-init : (one now : ℕ) → IsValid (init one now)
unfolding init
IsValid-init one now = record {
  stored = Counts-fresh now;
  weights = record {
    total = refl;
    once = λ c. omega arith;
    weighed = λ c. omega arith;
    positive = λ c. tt;
  };
  owners = λ c. tt;
  idle = λ c. omega arith;
  waiting = λ c. tt;
  ordered = λ c. tt;
  timed = λ c h. h;
}

pub Waiting-weaken :
    (q : Option (List Req)) (e a e' a' : ℕ)
    → (e ≡ 0 → a ≡ 1 → (e' ≡ 0) × (a' ≡ 1))
    → Waiting q e a
    → Waiting q e' a'
Waiting-weaken none e a e' a' f w = tt
Waiting-weaken (some []) e a e' a' f w = tt
Waiting-weaken (some (req ∷ rest)) e a e' a' f w = f w.0 w.1

pub count-remove_all :
    (c : ℕ) (ks : List ℕ) (d : Dict ℕ)
    → count c (keys (remove_all ks d)) ≡ (if contains c ks then 0 else count c (keys d))
count-remove_all c [] d = refl
count-remove_all c (k ∷ ks) d =
    ground (arith, count-remove_all c ks (remove k d), count-keys-remove k c d)

-- The active clients and the record of the idle ones may change together.
module _ (s : Wfq) (h : IsValid s) (active : List ℕ) (total_weight : ℤ) (empty_time : Dict ℕ) where
  abbrev changed : Wfq
  changed = record s {
    active_client_list = active;
    total_active_weight = total_weight;
    queue_empty_time = empty_time;
  }

  IsValid-changed :
      IsWeighed changed
      → ((c : ℕ) → count c (keys empty_time) ≤ count c active)
      → ((c : ℕ)
          → count c (keys s.queue_empty_time) ≡ 0
          → count c s.active_client_list ≡ 1
          → (count c (keys empty_time) ≡ 0) × (count c active ≡ 1))
      → IsValid changed
  IsValid-changed w i f = record {
    stored = h.stored;
    weights = w;
    owners = h.owners;
    idle = i;
    waiting = λ c. Waiting-weaken (lookup c s.queues) _ _ _ _ (f c) (h.waiting c);
    ordered = h.ordered;
    timed = h.timed;
  }

pub deactivate_clients-IsValid :
    (now : ℕ) (s : Wfq) → IsValid s → (s' : Wfq) × (deactivate_clients now s ≡ ok s') × IsValid s'
unfolding deactivate_clients
deactivate_clients-IsValid now s h =
    let (t, removed, ran, e) = expire-Expired now s.queue_empty_time s h.weights h.idle in
    let w = subst IsWeighed e.same e.valid in
    let s' =
      changed s h t.active_client_list t.total_active_weight
        (remove_all removed s.queue_empty_time) in
    (
      s',
      rw ran (
          ap
            (λ (u : Wfq).
              ok (record u { queue_empty_time = remove_all removed u.queue_empty_time }))
            e.same),
      IsValid-changed s h t.active_client_list t.total_active_weight
          (remove_all removed s.queue_empty_time)
          (record { total = w.total; once = w.once; weighed = w.weighed; positive = w.positive })
          (λ c. ground (
            arith,
            h.idle c,
            e.left c,
            count-remove_all c removed s.queue_empty_time,
            contains_iff_count c removed,
          ))
          (λ c none_idle one_active.
            ground (arith, e.left c, e.idled c, count-remove_all c removed s.queue_empty_time)),
    )

-- Setting a weight to a positive value raises nothing and keeps the invariant.
pub set_weight-IsValid :
    (c w : ℕ) (s : Wfq)
    → IsValid s
    → 0 < w
    → (s' : Wfq) × (set_weight c w s ≡ ok s') × IsValid s' × (lookup c s'.weights ≡ some w)
set_weight-IsValid c w s h heavy =
    let (total_weight, done, weighed) = set_weight-IsWeighed c w s h.weights heavy in
    (
      record s { weights = insert c w s.weights; total_active_weight = total_weight },
      done,
      record {
        stored = h.stored;
        weights = weighed;
        owners = h.owners;
        idle = h.idle;
        waiting = h.waiting;
        ordered = h.ordered;
        timed = h.timed;
      },
      ground (arith, lookup-insert c c w s.weights),
    )

pub weigh-IsValid :
    (one c : ℕ) (s : Wfq)
    → IsValid s
    → 0 < one
    → (s' : Wfq) × (weigh one c s ≡ ok s') × IsValid s' × (has_key c s'.weights ≡ true)
weigh-IsValid one c s h heavy = elim (Bool-cases (has_key c s.weights)) [
  | inl known ↦ (s, rw known, h, known)
  | inr new ↦
      let (s', done, valid, found) = set_weight-IsValid c one s h heavy in
      (s', rw new done, valid, ground (arith, found))
]

pub Ascending-open :
    (c j : ℕ) (queues : Dict (List Req)) (last : Dict ℤ)
    → Ascending (lookup_or [] j queues) (lookup_or (pos 0) j last)
    → Ascending (lookup_or [] j (insert c [] queues)) (lookup_or (pos 0) j (insert c (pos 0) last))
Ascending-open c j queues last a = elim (Bool-cases (c == j)) [
  | inl same ↦
      subst (λ l. Ascending l (lookup_or (pos 0) j (insert c (pos 0) last))) {x = []}
        (ground (arith, lookup-insert c j [] queues)) tt
  | inr other ↦
      subst (λ l. Ascending l (lookup_or (pos 0) j (insert c (pos 0) last)))
        {x = lookup_or [] j queues} (ground (arith, lookup-insert c j [] queues))
        (subst (Ascending (lookup_or [] j queues)) {x = lookup_or (pos 0) j last}
          (ground (arith, lookup-insert c j (pos 0) last)) a)
]

pub open_queue-IsValid :
    (c : ℕ) (s : Wfq)
    → IsValid s
    → IsValid (open_queue c s)
      × (has_key c (open_queue c s).queues ≡ true)
      × ((open_queue c s).weights ≡ s.weights)
open_queue-IsValid c s h = elim (Bool-cases (has_key c s.queues)) [
  | inl known ↦ rw known (h, known, refl)
  | inr new ↦ rw new (
    record {
      stored =
          Counts-eq _ _ _ (ground (arith, total-insert (length {A = Req}) c [] s.queues)) h.stored;
      weights = record {
        total = h.weights.total;
        once = h.weights.once;
        weighed = h.weights.weighed;
        positive = h.weights.positive;
      };
      owners = λ j. ground (arith, h.owners j, lookup-insert c j [] s.queues);
      idle = h.idle;
      waiting = λ j. ground (arith, h.waiting j, lookup-insert c j [] s.queues);
      ordered = λ j. Ascending-open c j s.queues s.last_vir_finish (h.ordered j);
      timed = λ j k. ground (
        arith,
        h.timed j,
        lookup-insert c j [] s.queues,
        lookup-insert c j (pos 0) s.last_vir_finish,
      );
    },
    ground (arith, lookup-insert c c [] s.queues),
    refl,
  )
]

pub activate-IsValid :
    (c : ℕ) (s : Wfq)
    → IsValid s
    → has_key c s.weights ≡ true
    → (s' : Wfq) × (activate c s ≡ ok s')
      × IsValid s'
      × (count c s'.active_client_list ≡ 1)
      × (s'.queues ≡ s.queues)
      × (s'.weights ≡ s.weights)
activate-IsValid c s h k =
    let (active, total_weight, done, weighed, once, grown) = activate-IsWeighed c s h.weights k in
    (
      record s { active_client_list = active; total_active_weight = total_weight },
      done,
      IsValid-changed s h active total_weight s.queue_empty_time
          (record {
            total = weighed.total;
            once = weighed.once;
            weighed = weighed.weighed;
            positive = weighed.positive;
          })
          (λ j. omega (arith, h.idle j, grown j))
          (λ j none_idle one_active. omega (arith, grown j, weighed.once j)),
      once,
      refl,
      refl,
    )

pub not_idle-IsValid :
    (c : ℕ) (s : Wfq)
    → IsValid s
    → IsValid (record s { queue_empty_time = remove c s.queue_empty_time })
not_idle-IsValid c s h =
    IsValid-changed s h s.active_client_list s.total_active_weight (remove c s.queue_empty_time)
      (record {
        total = h.weights.total;
        once = h.weights.once;
        weighed = h.weights.weighed;
        positive = h.weights.positive;
      })
      (λ j. ground (arith, h.idle j, count-keys-remove c j s.queue_empty_time))
      (λ j none_idle one_active. ground (arith, count-keys-remove c j s.queue_empty_time))
