-- ===== src/Priority/Starvation.antt =====
-- PriorityScheduler starves nobody.
use tam_simulation.Prelude.{
  ℕ, suc, ◌+◌, ◌≤◌, ◌<◌, ◌≡◌, refl, ◌⊎◌, inl, inr, ap, ◌∙◌, none, some, List, [], ◌∷◌, ◌++◌, arith,
  length, length-snoc, if◌then◌else◌, ltb, false, Bool-cases,
}
use tam_simulation.Result.{ok}
use tam_simulation.Req.{Req}
use tam_simulation.Occupancy.Counts.{Counts, Counts-add_one, Counts-take_one, Counts-eq}
use tam_simulation.Scheduler.{
  Served, Callbacks, Call, Reply, put, get, stored, served, gets, Replied, run, Invariant,
  run_invariant,
}
use tam_simulation.Priority.{Priority, starve_max, is_starving, do_put, do_get, serve, finish}

-- Nothing is lost from the statistics, and the starvation level stays in its range.
pub record IsValid (s : Priority) : Type 0 where
  pub stored : Counts (length s.high_prio_list + length s.low_prio_list) s.occ
  pub level : s.low_prio_starve_level ≤ starve_max + 1

pub put-IsValid :
    (now : ℕ) (req : Req) (s : Priority) → IsValid s → IsValid (do_put now req s).state
unfolding do_put
put-IsValid now req s h = elim (Bool-cases (ltb 0 req.priority)) [
  | inl high ↦ rw high (record {
    stored =
        Counts-eq _ _ _ (omega (arith, length-snoc s.high_prio_list req))
          (Counts-add_one now _ s.occ h.stored);
    level = h.level;
  })
  | inr low ↦ rw low (record {
    stored =
        Counts-eq _ _ _ (omega (arith, length-snoc s.low_prio_list req))
          (Counts-add_one now _ s.occ h.stored);
    level = h.level;
  })
]

finish-IsValid :
    (now : ℕ) (s : Priority) (req : Req)
    → Counts (suc (length s.high_prio_list + length s.low_prio_list)) s.occ
    → s.low_prio_starve_level ≤ starve_max + 1
    → (r : Served Priority) × (finish now s req ≡ ok r)
      × IsValid r.state
      × (r.req ≡ some req)
      × (r.state.low_prio_list ≡ s.low_prio_list)
      × (r.state.low_prio_starve_level ≡ s.low_prio_starve_level)
finish-IsValid now s req counted level =
    let (occ, taken, counted') = Counts-take_one now _ s.occ counted in
    (
      record {
        state = record s { occ = occ };
        req = some req;
        notified = s.notify_list;
        proceed = false;
      },
      rw taken,
      record { stored = counted'; level = level },
      refl,
      refl,
      refl,
    )

-- The first waiting request was served, or it still waits and the starvation level grew.
abbrev Progress : Priority → List Req → Served Priority → Type 0
Progress s [] r = Unit
Progress s (l ∷ ls) r =
    (r.req ≡ some l)
    ⊎ ((r.state.low_prio_list ≡ l ∷ ls)
        × (r.state.low_prio_starve_level ≡ s.low_prio_starve_level + 1))

serve-Progress :
    (now : ℕ) (s : Priority) (high low : List Req)
    → s.high_prio_list ≡ high
    → s.low_prio_list ≡ low
    → IsValid s
    → (r : Served Priority) × (serve now s high low ≡ ok r) × IsValid r.state × Progress s low r
serve-Progress now s [] [] eh el h =
    (record { state = s; req = none; notified = []; proceed = false }, refl, h, tt)
serve-Progress now s [] (req ∷ rest) eh el h =
    let counted =
      Counts-eq (suc (length s.high_prio_list + length rest)) _ s.occ
        (omega (arith, ap (length {0}) el)) h.stored in
    let (r, done, valid, out, low, level) =
      finish-IsValid now (record s { low_prio_list = rest }) req counted h.level in
    (r, done, valid, inl out)
serve-Progress now s (req ∷ rest) [] eh el h =
    let counted =
      Counts-eq (suc (length rest + length s.low_prio_list)) _ s.occ
        (omega (arith, ap (length {0}) eh)) h.stored in
    let (r, done, valid, out, low, level) =
      finish-IsValid now
        (record s {
          high_prio_list = rest;
          low_prio_starve_level =
              if is_starving s.low_prio_starve_level
              then s.low_prio_starve_level
              else s.low_prio_starve_level + 1;
        })
        req counted (ground (arith, h.level)) in
    (r, done, valid, tt)
serve-Progress now s (req ∷ rest) (low ∷ lows) eh el h =
    elim (Bool-cases (is_starving s.low_prio_starve_level)) [
      | inl starving ↦
          let counted =
            Counts-eq (suc (length s.high_prio_list + length lows)) _ s.occ
              (omega (arith, ap (length {0}) el)) h.stored in
          let (r, done, valid, out, kept, level) =
            finish-IsValid now (record s { low_prio_list = lows; low_prio_starve_level = 0 }) low
              counted (omega arith) in
          rw starving (r, done, valid, inl out)
      | inr fed ↦
          let counted =
            Counts-eq (suc (length rest + length s.low_prio_list)) _ s.occ
              (omega (arith, ap (length {0}) eh)) h.stored in
          let (r, done, valid, out, kept, level) =
            finish-IsValid now
              (record s {
                high_prio_list = rest;
                low_prio_starve_level = s.low_prio_starve_level + 1;
              })
              req counted (ground arith) in
          rw fed (r, done, valid, inr (kept ∙ el, level))
    ]

abbrev pub callbacks : Callbacks Priority
callbacks = record { put = λ now req s. ok (do_put now req s); get = do_get }

low-put :
    (now : ℕ) (req : Req) (s : Priority) (l : Req) (ls : List Req)
    → s.low_prio_list ≡ l ∷ ls
    → (rest : List Req) × ((do_put now req s).state.low_prio_list ≡ l ∷ rest)
      × ((do_put now req s).state.low_prio_starve_level ≡ s.low_prio_starve_level)
unfolding do_put
low-put now req s l ls e = elim (Bool-cases (ltb 0 req.priority)) [
  | inl high ↦ rw high (ls, e, refl)
  | inr low ↦ rw low (ls ++ req ∷ [], rw e, refl)
]

get-Progress :
    (now : ℕ) (s : Priority) (low : List Req)
    → s.low_prio_list ≡ low
    → IsValid s
    → (r : Served Priority) × (do_get now s ≡ ok r) × IsValid r.state × Progress s low r
unfolding do_get
get-Progress now s low e h =
    let (r, done, valid, progress) = serve-Progress now s s.high_prio_list low refl e h in
    (r, ap (serve now s s.high_prio_list) e ∙ done, valid, progress)

IsValid-invariant : Invariant callbacks IsValid
IsValid-invariant = record {
  put = λ now req s h. (do_put now req s, refl, put-IsValid now req s h);
  get = λ now s h.
      let (r, done, valid, _) = get-Progress now s s.low_prio_list refl h in (r, done, valid);
}

-- From a valid state with a request at the head of the low-priority list, every sequence of calls
-- raises nothing and serves that request, whatever is put in between, if the sequence holds more
-- gets than starvation levels are left: six gets always suffice.
pub low_priority_is_served :
    (calls : List Call) (s : Priority) (l : Req) (ls : List Req)
    → IsValid s
    → s.low_prio_list ≡ l ∷ ls
    → starve_max + 1 < s.low_prio_starve_level + gets calls
    → (s' : Priority) × (replies : List Reply) × (run callbacks calls s ≡ ok (s', replies))
      × Replied (served (some l)) replies
unfolding run
low_priority_is_served [] s l ls h e enough = absurd (omega (arith, h.level))
low_priority_is_served (put now req ∷ calls) s l ls h e enough =
    let (rest, e', level) = low-put now req s l ls e in
    let (s', replies, ran, found) =
      low_priority_is_served calls (do_put now req s).state l rest (put-IsValid now req s h) e'
        (omega (arith, level)) in
    (s', stored (do_put now req s).stored ∷ replies, rw ran, inr found)
low_priority_is_served (get now ∷ calls) s l ls h e enough =
    let (r, done, valid, progress) = get-Progress now s (l ∷ ls) e h in
    elim progress [
      | inl out ↦
          let (s', replies, ran, valid') =
            run_invariant callbacks IsValid-invariant calls r.state valid in
          (s', served r.req ∷ replies, rw (done, ran), inl (ap served out))
      | inr (waits, level) ↦
          let (s', replies, ran, found) =
            low_priority_is_served calls r.state l ls valid waits (omega (arith, level)) in
          (s', served r.req ∷ replies, rw (done, ran), inr found)
    ]
