-- ===== src/Wfq/Select.antt =====
-- The choice of WFQScheduler.send and of the two schedulers that override it.
use mathlib.Core.Path.{subst}
use tam_simulation.Prelude.{
  ℕ, ◌≤ℤ◌, ltb_ℤ, ◌≡◌, refl, sym, ◌∙◌, ◌⊎◌, inl, inr, Bool, true, false, Bool-cases, Option, none,
  some, List, [], ◌∷◌, arith, ltb_ℤ→lt, ltb_ℤ→ge, ◌==◌, ==_iff, contains,
}
use tam_simulation.Dict.{Dict, lookup, keys}
use tam_simulation.Req.{Req}
use tam_simulation.Wfq.{Candidate, consider, select}

-- The chosen queue is one of the queues, as it is.
abbrev pub FromQueue : Dict (List Req) → Option Candidate → Type 0
FromQueue queues none = Unit
FromQueue queues (some best) = lookup best.client queues ≡ some (best.head ∷ best.rest)

abbrev pub Allowed : (ℕ → Bool) → Option Candidate → Type 0
Allowed p none = Unit
Allowed p (some best) = p best.client ≡ true

-- The first request of the queue does not finish before the chosen one.
abbrev pub NotEarlier : Option Candidate → Option (List Req) → Type 0
NotEarlier b none = Unit
NotEarlier b (some []) = Unit
NotEarlier none (some (req ∷ rest)) = ⊥
NotEarlier (some best) (some (req ∷ rest)) = best.head.vir_finish ≤ℤ req.vir_finish

-- The choice is an allowed queue that is not empty, and no allowed queue begins with a request of a
-- smaller virtual finish time. There is none only if all allowed queues are empty.
pub record IsChoice (p : ℕ → Bool) (queues : Dict (List Req)) (b : Option Candidate) : Type 0 where
  pub from : FromQueue queues b
  pub allowed : Allowed p b
  pub least : (c : ℕ) → p c ≡ true → NotEarlier b (lookup c queues)

-- How a choice may change in a round: no queue that the old one was not later than is later now.
abbrev NotWorse : Option Candidate → Option Candidate → Type 0
NotWorse b b' = (q : Option (List Req)) → NotEarlier b q → NotEarlier b' q

NotWorse-refl : (b : Option Candidate) → NotWorse b b
NotWorse-refl b q h = h

NotWorse-none : (b : Option Candidate) → NotWorse none b
NotWorse-none b none h = tt
NotWorse-none b (some []) h = tt
NotWorse-none b (some (req ∷ rest)) h = absurd h

NotWorse-earlier :
    (best next : Candidate)
    → ltb_ℤ next.head.vir_finish best.head.vir_finish ≡ true
    → NotWorse (some best) (some next)
NotWorse-earlier best next e none h = tt
NotWorse-earlier best next e (some []) h = tt
NotWorse-earlier best next e (some (req ∷ rest)) h =
    omega (arith, ltb_ℤ→lt next.head.vir_finish best.head.vir_finish e)

-- The outcome of a round on the queue `q` of the client `c`.
record Round (p : ℕ → Bool) (queues : Dict (List Req)) (c : ℕ) (q : Option (List Req))
    (b b' : Option Candidate) : Type 0 where
  from : FromQueue queues b → FromQueue queues b'
  allowed : Allowed p b → Allowed p b'
  least : p c ≡ true → NotEarlier b' q
  kept : NotWorse b b'

module _ (p : ℕ → Bool) (queues : Dict (List Req)) (c : ℕ) where
  Round-empty :
      (q : Option (List Req)) (b : Option Candidate) → NotEarlier none q → Round p queues c q b b
  Round-empty q b h = record {
    from = λ f. f;
    allowed = λ a. a;
    least = λ _. NotWorse-none b q h;
    kept = NotWorse-refl b;
  }

  Round-refused :
      (q : Option (List Req)) (b : Option Candidate) → p c ≡ false → Round p queues c q b b
  Round-refused q b e = record {
    from = λ f. f;
    allowed = λ a. a;
    least = λ h. absurd (cc);
    kept = NotWorse-refl b;
  }

  module _ (req : Req) (rest : List Req) where
    Round-later :
        (best : Candidate)
        → ltb_ℤ req.vir_finish best.head.vir_finish ≡ false
        → Round p queues c (some (req ∷ rest)) (some best) (some best)
    Round-later best e = record {
      from = λ f. f;
      allowed = λ a. a;
      least = λ _. ltb_ℤ→ge req.vir_finish best.head.vir_finish e;
      kept = NotWorse-refl (some best);
    }

    abbrev taken : Candidate
    taken = record { client = c; head = req; rest = rest }

    Round-taken :
        (b : Option Candidate)
        → lookup c queues ≡ some (req ∷ rest)
        → p c ≡ true
        → NotWorse b (some taken)
        → Round p queues c (some (req ∷ rest)) b (some taken)
    Round-taken b e a n = record {
      from = λ _. e;
      allowed = λ _. a;
      least = λ _. omega arith;
      kept = n;
    }

module _ {ℓ} {T : Type ℓ} (allowed : ℕ → T → Bool × T) (Good : T → Type 0) (p : ℕ → Bool)
    (answers : (c : ℕ) (t : T) → Good t → ((allowed c t).0 ≡ p c) × Good (allowed c t).1)
    (queues : Dict (List Req)) where
  consider-Round :
      (c : ℕ) (q : Option (List Req)) (b : Option Candidate) (t : T)
      → lookup c queues ≡ q
      → Good t
      → Good (consider allowed c q (b, t)).1 × Round p queues c q b (consider allowed c q (b, t)).0
  consider-Round c none b t e g = (g, Round-empty p queues c none b tt)
  consider-Round c (some []) b t e g = (g, Round-empty p queues c (some []) b tt)
  consider-Round c (some (req ∷ rest)) none t e g =
      let (same, g') = answers c t g in
      elim (Bool-cases (p c)) [
        | inl fits ↦ rw (same ∙ fits) (
          g',
          Round-taken p queues c req rest none e fits
              (NotWorse-none (some (taken p queues c req rest))),
        )
        | inr full ↦ rw (same ∙ full) (g', Round-refused p queues c _ none full)
      ]
  consider-Round c (some (req ∷ rest)) (some best) t e g =
      let (same, g') = answers c t g in
      elim (Bool-cases (ltb_ℤ req.vir_finish best.head.vir_finish)) [
        | inr late ↦ rw late (g, Round-later p queues c req rest best late)
        | inl early ↦ rw early (elim (Bool-cases (p c)) [
          | inl fits ↦ rw (same ∙ fits) (
            g',
            Round-taken p queues c req rest (some best) e fits
                (NotWorse-earlier best (taken p queues c req rest) early),
          )
          | inr full ↦ rw (same ∙ full) (g', Round-refused p queues c _ (some best) full)
        ])
      ]

  -- The outcome of the loop over the clients.
  record Loop (clients : List ℕ) (b b' : Option Candidate) : Type 0 where
    from : FromQueue queues b → FromQueue queues b'
    chosen : Allowed p b → Allowed p b'
    least : (c : ℕ) → contains c clients ≡ true → p c ≡ true → NotEarlier b' (lookup c queues)
    kept : NotWorse b b'

  select-Loop :
      (clients : List ℕ) (b : Option Candidate) (t : T)
      → Good t
      → Good (select allowed clients queues (b, t)).1
        × Loop clients b (select allowed clients queues (b, t)).0
  unfolding select
  select-Loop [] b t g = (
    g,
    record { from = λ f. f; chosen = λ a. a; least = λ c h. absurd (cc); kept = NotWorse-refl b },
  )
  select-Loop (c ∷ clients) b t g =
      let (g', round) = consider-Round c (lookup c queues) b t refl g in
      let next = consider allowed c (lookup c queues) (b, t) in
      let (g'', loop) = select-Loop clients next.0 next.1 g' in
      (
        g'',
        record {
          from = λ f. loop.from (round.from f);
          chosen = λ a. loop.chosen (round.allowed a);
          least = λ d h ok. elim (Bool-cases (c == d)) [
            | inl same ↦
                subst (λ k. NotEarlier (select allowed clients queues next).0 (lookup k queues))
                  ((==_iff c d).0 same)
                  (loop.kept (lookup c queues)
                    (round.least (subst (λ k. p k ≡ true) (sym ((==_iff c d).0 same)) ok)))
            | inr other ↦ loop.least d (rw other at h) ok
          ];
          kept = λ q n. loop.kept q (round.kept q n);
        },
      )

keys-lookup {ℓ} :
    {V : Type ℓ} (c : ℕ) (d : Dict V) → (contains c (keys d) ≡ true) ⊎ (lookup c d ≡ none)
keys-lookup c [] = inr refl
keys-lookup c ((k, v) ∷ d) = ground (arith, keys-lookup c d)

module _ {ℓ} {T : Type ℓ} (allowed : ℕ → T → Bool × T) (Good : T → Type 0) (p : ℕ → Bool)
    (answers : (c : ℕ) (t : T) → Good t → ((allowed c t).0 ≡ p c) × Good (allowed c t).1)
    (queues : Dict (List Req)) where
  -- The loop over all queues makes a choice, and leaves the state of the test good.
  pub select-IsChoice :
      (t : T)
      → Good t
      → Good (select allowed (keys queues) queues (none, t)).1
        × IsChoice p queues (select allowed (keys queues) queues (none, t)).0
  select-IsChoice t g =
      let (g', loop) = select-Loop allowed Good p answers queues (keys queues) none t g in
      (
        g',
        record {
          from = loop.from tt;
          allowed = loop.chosen tt;
          least = λ c ok. elim (keys-lookup c queues) [
            | inl listed ↦ loop.least c listed ok
            | inr missing ↦ rw missing tt
          ];
        },
      )
