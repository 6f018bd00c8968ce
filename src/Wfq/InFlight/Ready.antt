-- ===== src/Wfq/InFlight/Ready.antt =====
-- A LimitInFlightWFQScheduler starts with what its gets need of the queues, and its puts keep it.
use mathlib.Core.Path.{subst}
use tam_simulation.Prelude.{
  ℕ, ◌+◌, ltb, ℤ, pos, ◌-ℤ◌, ◌+ℤ◌, ◌≡◌, refl, ◌∙◌, inl, inr, true, Bool-cases, Option, none, some,
  List, [], ◌∷◌, ◌++◌, arith, contains, length, length-snoc,
}
use tam_simulation.Result.{ok, bind-eq-ok, ok-injective, require, assert}
use tam_simulation.Dict.{Dict, lookup, insert, has_key, lookup-insert, total-insert}
use tam_simulation.Req.{Req}
use tam_simulation.Occupancy.{add_one}
use tam_simulation.Occupancy.Counts.{Counts-add_one, Counts-eq, Counts-fresh}
use tam_simulation.Scheduler.{Stored}
use tam_simulation.Wfq
use tam_simulation.Wfq.{
  Wfq, deactivate, expire, deactivate_clients, weigh, set_weight, open_queue, activate, admit,
  enqueue, virtual_finish, receive, bound_weight,
}
use tam_simulation.Wfq.Invariant.{AllOwn}
use tam_simulation.Wfq.Putting.{AllOwn-insert, AllOwn-snoc}
use tam_simulation.Wfq.InFlight.{LimitWfq, init, do_put}
use tam_simulation.Wfq.InFlight.Choice.{IsReady}

pub init-IsReady : (one now : ℕ) → IsReady (init one now).queue
unfolding init Wfq.init
init-IsReady one now = record {
  stored = Counts-fresh now;
  owners = λ c. tt;
  weighed = λ c h. absurd (cc);
}

-- The queues, their counter and the weights are as before.
record Same (q t : Wfq) : Type 0 where
  queues : t.queues ≡ q.queues
  occ : t.occ ≡ q.occ
  weights : t.weights ≡ q.weights

Same-trans : (q t u : Wfq) → Same q t → Same t u → Same q u
Same-trans q t u f g = record {
  queues = g.queues ∙ f.queues;
  occ = g.occ ∙ f.occ;
  weights = g.weights ∙ f.weights;
}

IsReady-Same : (q t : Wfq) → Same q t → IsReady q → IsReady t
IsReady-Same q t same h = record {
  stored = rw (same.queues, same.occ) h.stored;
  owners = λ c. rw same.queues (h.owners c);
  weighed = λ c k. ground (arith, h.weighed c, k, same.queues, same.weights);
}

deactivate-Same : (c : ℕ) (q t : Wfq) → deactivate c q ≡ ok t → Same q t
unfolding deactivate
deactivate-Same c q t e =
    let (_, _, rest) = bind-eq-ok (assert (contains c q.active_client_list)) _ e in
    let (w, _, last) = bind-eq-ok (require (lookup c q.weights)) _ rest in
    subst (Same q) (ok-injective last) (record { queues = refl; occ = refl; weights = refl })

expire-Same :
    (now : ℕ) (idle : Dict ℕ) (q t : Wfq) (removed : List ℕ)
    → expire now idle q ≡ ok (t, removed)
    → Same q t
unfolding expire
expire-Same now [] q t removed e =
    let same = ok-injective e in
    record {
      queues = ground (arith, same);
      occ = ground (arith, same);
      weights = ground (arith, same);
    }
expire-Same now ((c, since) ∷ rest) q t removed e =
    elim (Bool-cases (ltb (since + q.deactivate_period) now)) [
      | inr fresh ↦ expire-Same now rest q t removed (rw (fresh, expire) at e)
      | inl old ↦
          let (u, done, later) = bind-eq-ok (deactivate c q) _ (rw (old, expire) at e) in
          let ((v, more), ran, last) = bind-eq-ok (expire now rest u) _ later in
          subst (λ (x : Wfq × List ℕ). Same q x.0) (ok-injective last)
            (Same-trans q u v (deactivate-Same c q u done) (expire-Same now rest u v more ran))
    ]

set_weight-IsReady :
    (c w : ℕ) (q t : Wfq)
    → set_weight c w q ≡ ok t
    → IsReady q
    → IsReady t × (has_key c t.weights ≡ true)
unfolding set_weight
set_weight-IsReady c w q t e h = elim (Bool-cases (contains c q.active_client_list)) [
  | inr absent ↦
      subst (λ (x : Wfq). IsReady x × (has_key c x.weights ≡ true)) (ok-injective (rw absent at e))
        (reweighed q.total_active_weight)
  | inl listed ↦
      let (old, _, last) = bind-eq-ok (bound_weight (lookup c q.weights)) _ (rw listed at e) in
      subst (λ (x : Wfq). IsReady x × (has_key c x.weights ≡ true)) (ok-injective last)
        (reweighed (q.total_active_weight -ℤ pos old +ℤ pos w))
]
  where
    reweighed :
        (total_weight : ℤ)
        → IsReady (record q { weights = insert c w q.weights; total_active_weight = total_weight })
          × (has_key c (insert c w q.weights) ≡ true)
    reweighed total_weight = (
      record {
        stored = h.stored;
        owners = h.owners;
        weighed = λ j k. ground (arith, h.weighed j, k, lookup-insert c j w q.weights);
      },
      ground (arith, lookup-insert c c w q.weights),
    )

weigh-IsReady :
    (one c : ℕ) (q t : Wfq)
    → weigh one c q ≡ ok t
    → IsReady q
    → IsReady t × (has_key c t.weights ≡ true)
weigh-IsReady one c q t e h = elim (Bool-cases (has_key c q.weights)) [
  | inl known ↦
      subst (λ (x : Wfq). IsReady x × (has_key c x.weights ≡ true)) (ok-injective (rw known at e))
        (h, known)
  | inr new ↦ set_weight-IsReady c one q t (rw new at e) h
]

open_queue-IsReady :
    (c : ℕ) (q : Wfq) → IsReady q → has_key c q.weights ≡ true → IsReady (open_queue c q)
open_queue-IsReady c q h weighed = elim (Bool-cases (has_key c q.queues)) [
  | inl known ↦ rw known h
  | inr new ↦ rw new (record {
    stored =
        Counts-eq _ _ _ (ground (arith, new, total-insert (length {A = Req}) c [] q.queues))
          h.stored;
    owners = λ j. ground (arith, h.owners j, lookup-insert c j [] q.queues);
    weighed = λ j k. ground (arith, h.weighed j, k, weighed, lookup-insert c j [] q.queues);
  })
]

weighed_open :
    (c : ℕ) (q : Wfq) → has_key c q.weights ≡ true → has_key c (open_queue c q).weights ≡ true
weighed_open c q weighed = ground (arith, weighed)

activate-Same : (c : ℕ) (q t : Wfq) → activate c q ≡ ok t → Same q t
activate-Same c q t e = elim (Bool-cases (contains c q.active_client_list)) [
  | inl listed ↦
      subst (Same q) (ok-injective (rw listed at e))
        (record { queues = refl; occ = refl; weights = refl })
  | inr absent ↦
      let (w, _, last) = bind-eq-ok (require (lookup c q.weights)) _ (rw absent at e) in
      subst (Same q) (ok-injective last) (record { queues = refl; occ = refl; weights = refl })
]

required {ℓ} : {A : Type ℓ} (o : Option A) (a : A) → require o ≡ ok a → o ≡ some a
required none a e = absurd (cc)
required (some b) a e = cc

-- The queue of the client gains the request.
module _ (now : ℕ) (req : Req) (q : Wfq) (l : List Req) (v : ℤ) where
  abbrev longer : Wfq
  longer = record q {
    queues = insert req.client_id (l ++ record req { vir_finish = v } ∷ []) q.queues;
    last_vir_finish = insert req.client_id v q.last_vir_finish;
    occ = add_one now q.occ;
  }

  longer-IsReady :
      lookup req.client_id q.queues ≡ some l
      → IsReady q
      → has_key req.client_id q.weights ≡ true
      → IsReady longer
  longer-IsReady found h weighed =
      let own : AllOwn req.client_id l =
        subst (AllOwn req.client_id) (ground (arith, found)) (h.owners req.client_id) in
      record {
        stored =
            Counts-eq _ _ _
              (ground (
                arith,
                total-insert (length {A = Req}) req.client_id
                    (l ++ record req { vir_finish = v } ∷ []) q.queues,
                length-snoc l (record req { vir_finish = v }),
                found,
              ))
              (Counts-add_one now _ q.occ h.stored);
        owners = λ j.
            AllOwn-insert req.client_id j _ q.queues (AllOwn-snoc req.client_id l _ refl own)
              (h.owners j);
        weighed = λ j k. ground (
          arith,
          h.weighed j,
          k,
          weighed,
          lookup-insert req.client_id j (l ++ record req { vir_finish = v } ∷ []) q.queues,
        );
      }

module _ (quot : ℤ → ℕ → ℤ) (now : ℕ) (req : Req) (q t : Wfq) where
  enqueue-IsReady :
      enqueue quot now req q ≡ ok t
      → IsReady q
      → has_key req.client_id q.weights ≡ true
      → IsReady (record t { occ = add_one now t.occ })
  enqueue-IsReady e h weighed =
      let (l, found, rest) = bind-eq-ok (require (lookup req.client_id q.queues)) _ e in
      let (v, _, last) = bind-eq-ok (virtual_finish quot now req q) _ rest in
      subst (λ (x : Wfq). IsReady (record x { occ = add_one now x.occ })) (ok-injective last)
        (longer-IsReady now req q l v (required (lookup req.client_id q.queues) l found) h weighed)

admit-IsReady :
    (one now c : ℕ) (q t : Wfq)
    → admit one now c q ≡ ok t
    → IsReady q
    → IsReady t × (has_key c t.weights ≡ true)
unfolding admit deactivate_clients
admit-IsReady one now c q t e h =
    let (s1, first, e1) = bind-eq-ok (deactivate_clients now q) _ e in
    let ((s0, removed), expired, e0) = bind-eq-ok (expire now q.queue_empty_time q) _ first in
    let same1 : Same q s1 = subst (Same q) (ok-injective e0) (
      let f = expire-Same now q.queue_empty_time q s0 removed expired in
      record { queues = f.queues; occ = f.occ; weights = f.weights }) in
    let (s2, weighing, e2) = bind-eq-ok (weigh one c s1) _ e1 in
    let (ready, weighed) = weigh-IsReady one c s1 s2 weighing (IsReady-Same q s1 same1 h) in
    let (s4, activated, last) = bind-eq-ok (activate c (open_queue c s2)) _ e2 in
    let same4 = activate-Same c (open_queue c s2) s4 activated in
    let ready4 = IsReady-Same (open_queue c s2) s4 same4 (open_queue-IsReady c s2 ready weighed) in
    subst (λ (x : Wfq). IsReady x × (has_key c x.weights ≡ true)) (ok-injective last)
      (
        record { stored = ready4.stored; owners = ready4.owners; weighed = ready4.weighed },
        ground (arith, weighed_open c s2 weighed, same4.weights),
      )

-- A put that raises nothing keeps what the gets need.
pub put-IsReady :
    (one : ℕ) (quot : ℤ → ℕ → ℤ) (now : ℕ) (req : Req) (s : LimitWfq) (r : Stored LimitWfq)
    → do_put one quot now req s ≡ ok r
    → IsReady s.queue
    → IsReady r.state.queue
unfolding do_put Wfq.do_put receive
put-IsReady one quot now req s r e h =
    let (inner, done, last) = bind-eq-ok (Wfq.do_put one quot now req s.queue) _ e in
    let (t, received, stored_) = bind-eq-ok (receive one quot now req s.queue) _ done in
    let (u, admitted, entered) = bind-eq-ok (admit one now req.client_id s.queue) _ received in
    let (ready, weighed) = admit-IsReady one now req.client_id s.queue u admitted h in
    subst (λ (x : Stored LimitWfq). IsReady x.state.queue) (ok-injective last)
      (subst (λ (x : Stored Wfq). IsReady x.state) (ok-injective stored_)
        (enqueue-IsReady quot now req u t entered ready weighed))
