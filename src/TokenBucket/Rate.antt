-- ===== src/TokenBucket/Rate.antt =====
-- How many tokens a bucket can give: what its rate brings from its timestamp on, and what it holds.
use tam_simulation.Prelude.{
  ℕ, ◌+◌, ◌*◌, ◌≤◌, pos, sub_ℕ, ◌+ℤ◌, ◌-ℤ◌, ◌*ℤ◌, ◌≤ℤ◌, ltb_ℤ, min_ℤ, ◌-◌, ltb, sym, ap, ◌∙◌, ◌≡◌,
  refl, Bool-cases, inl, inr, List, [], ◌∷◌, if◌then◌else◌, arith, ltb_ℤ→lt, pos_part, neg_part,
}
use tam_simulation.TokenBucket.{Bucket, consume, has_enough, get_tokens}

-- Tokens are asked for, or the bucket is filled, at a time.
pub data Event : Type 0 where
  ask : ℕ → ℕ → Event
  fill : ℕ → Event

-- As in `_do_get`, tokens are consumed only where there are enough.
abbrev pub step : Event → Bucket → Bucket × ℕ
step (ask now n) b = if has_enough n b then (consume now (pos n) b, n) else (b, 0)
step (fill now) b = (get_tokens now b, 0)

-- The bucket after the events, and the number of tokens consumed.
unfoldable pub run : List Event → Bucket → Bucket × ℕ
run [] b = (b, 0)
run (e ∷ es) b = let (b', n) = step e b in let (b'', m) = run es b' in (b'', n + m)

abbrev time_of : Event → ℕ
time_of (ask now n) = now
time_of (fill now) = now

-- The times do not go back, from the first one on.
abbrev pub Forward : ℕ → List Event → Type 0
Forward t [] = Unit
Forward t (e ∷ es) = (t ≤ time_of e) × Forward (time_of e) es

abbrev pub last_time : ℕ → List Event → ℕ
last_time t [] = t
last_time t (e ∷ es) = last_time (time_of e) es

mul_split : (r a b : ℕ) → r * (a + b) ≡ r * a + r * b
mul_split r a b = omega arith

budget_split :
    (r start now end : ℕ)
    → start ≤ now
    → now ≤ end
    → r * (end - start) ≡ r * (end - now) + r * (now - start)
budget_split r start now end h k =
    rw (sym (mul_split r (end - now) (now - start))) (ap (λ n. r * n) (omega arith))

-- What the bucket holds and its rate can bring until a time.
abbrev pub budget : ℕ → ℕ → Bucket → ℕ
budget end held b = held + b.fill_rate * (end - b.timestamp)

-- After a step: the bucket owes nothing, and its budget has shrunk by what it gave.
record Paid (end now held : ℕ) (b : Bucket) (r : Bucket × ℕ) : Type 0 where
  left : ℕ
  holds : r.0.tokens ≡ pos left
  bound : budget end left r.0 + r.1 ≤ budget end held b
  recent : r.0.timestamp ≤ now
  rate : r.0.fill_rate ≡ b.fill_rate
  size : r.0.capacity ≡ b.capacity

delta_pos : (r now start : ℕ) → start ≤ now → pos r *ℤ sub_ℕ now start ≡ pos (r * (now - start))
unfolding ◌*ℤ◌ sub_ℕ
delta_pos r now start h = ground arith

filled : (cap t d : ℕ) → (n : ℕ) × (min_ℤ (pos cap) (pos t +ℤ pos d) ≡ pos n) × (n ≤ t + d)
unfolding ◌+ℤ◌
filled cap t d = (if ltb (t + d) cap then t + d else cap, ground arith, ground arith)

fill-Paid :
    (end now held cap : ℕ) (b : Bucket)
    → b.timestamp ≤ now
    → now ≤ end
    → b.tokens ≡ pos held
    → b.capacity ≡ pos cap
    → Paid end now held b (get_tokens now b, 0)
unfolding get_tokens
fill-Paid end now held cap b past ahead h c = elim (Bool-cases (ltb_ℤ b.tokens b.capacity)) [
  | inr full ↦ rw full (record {
    left = held;
    holds = h;
    bound = omega arith;
    recent = past;
    rate = refl;
    size = refl;
  })
  | inl low ↦
      let (n, e, le) = filled cap held (b.fill_rate * (now - b.timestamp)) in
      rw low (record {
        left = n;
        holds = rw (h, c, delta_pos b.fill_rate now b.timestamp past) e;
        bound = omega (arith, le, budget_split b.fill_rate b.timestamp now end past ahead);
        recent = omega arith;
        rate = refl;
        size = refl;
      })
]

minus_pos : (held n : ℕ) → n ≤ held → pos held -ℤ pos n ≡ pos (held - n)
unfolding ◌-ℤ◌
minus_pos held n h = ground arith

ask-Paid :
    (end now held n : ℕ) (b : Bucket)
    → b.timestamp ≤ now
    → b.tokens ≡ pos held
    → Paid end now held b (step (ask now n) b)
unfolding consume
ask-Paid end now held n b past h = elim (Bool-cases (has_enough n b)) [
  | inr short ↦ rw short (record {
    left = held;
    holds = h;
    bound = omega arith;
    recent = past;
    rate = refl;
    size = refl;
  })
  | inl enough ↦
      let le : n ≤ held = ground (arith, h) in
      rw enough (record {
        left = held - n;
        holds = rw h (minus_pos held n le);
        bound = omega (arith, le);
        recent = past;
        rate = refl;
        size = refl;
      })
]

step-Paid :
    (e : Event) (end held cap : ℕ) (b : Bucket)
    → b.timestamp ≤ time_of e
    → time_of e ≤ end
    → b.tokens ≡ pos held
    → b.capacity ≡ pos cap
    → Paid end (time_of e) held b (step e b)
step-Paid (ask now n) end held cap b past ahead h c = ask-Paid end now held n b past h
step-Paid (fill now) end held cap b past ahead h c = fill-Paid end now held cap b past ahead h c

last_time-le : (t : ℕ) (es : List Event) → Forward t es → t ≤ last_time t es
last_time-le t [] h = omega arith
last_time-le t (e ∷ es) h = omega (arith, last_time-le (time_of e) es h.1, h.0)

run-budget :
    (es : List Event) (start held cap : ℕ) (b : Bucket)
    → b.timestamp ≤ start
    → Forward start es
    → b.tokens ≡ pos held
    → b.capacity ≡ pos cap
    → (left : ℕ) × ((run es b).0.tokens ≡ pos left)
      × (left + (run es b).1 ≤ budget (last_time start es) held b)
unfolding run
run-budget [] start held cap b past h e c = (held, e, omega arith)
run-budget (x ∷ es) start held cap b past h e c =
    let end = last_time (time_of x) es in
    let paid =
      step-Paid x end held cap b (omega (arith, past, h.0)) (last_time-le (time_of x) es h.1) e c in
    let (left, rest, le) =
      run-budget es (time_of x) paid.left cap (step x b).0 paid.recent h.1 paid.holds
        (paid.size ∙ c) in
    (left, rest, omega (arith, le, paid.bound))

-- From any bucket that holds `held` tokens, whatever is asked of it and however it is filled at
-- times that do not go back: it never owes tokens, and what it has given is at most what it held and
-- what its rate brings from its timestamp to the last event.
pub consumed_within_rate :
    (es : List Event) (start held cap : ℕ) (b : Bucket)
    → b.timestamp ≤ start
    → Forward start es
    → b.tokens ≡ pos held
    → b.capacity ≡ pos cap
    → (pos 0 ≤ℤ (run es b).0.tokens)
      × ((run es b).1 ≤ held + b.fill_rate * (last_time start es - b.timestamp))
consumed_within_rate es start held cap b past h e c =
    let (left, rest, le) = run-budget es start held cap b past h e c in
    (rw rest (omega arith), omega (arith, le))

full_stays :
    (cap now : ℕ) (b : Bucket) → b.tokens ≡ pos cap → b.capacity ≡ pos cap → get_tokens now b ≡ b
unfolding get_tokens
full_stays cap now b h c = elim (Bool-cases (ltb_ℤ b.tokens b.capacity)) [
  | inr full ↦ rw full refl
  | inl low ↦ absurd (
      omega (
        arith,
        ltb_ℤ→lt b.tokens b.capacity low,
        ap pos_part h,
        ap neg_part h,
        ap pos_part c,
        ap neg_part c,
      ))
]

refilled : (cap d : ℕ) → cap ≤ d → min_ℤ (pos cap) (pos 0 +ℤ pos d) ≡ pos cap
unfolding ◌+ℤ◌
refilled cap d h = ground arith

empty_refills :
    (cap now : ℕ) (b : Bucket)
    → b.timestamp ≤ now
    → b.tokens ≡ pos 0
    → b.capacity ≡ pos cap
    → cap ≤ b.fill_rate * (now - b.timestamp)
    → (get_tokens now b).tokens ≡ pos cap
unfolding get_tokens
empty_refills cap now b past h c fast = elim (Bool-cases (ltb_ℤ b.tokens b.capacity)) [
  | inl low ↦ rw (low, h, c, delta_pos b.fill_rate now b.timestamp past) (refilled cap _ fast)
  | inr full ↦ rw full (ground (arith, h, c))
]

ask_enough :
    (now n : ℕ) (b : Bucket) → b.tokens ≡ pos n → step (ask now n) b ≡ (consume now (pos n) b, n)
ask_enough now n b h = ground (arith, h)

-- A full bucket keeps its timestamp, and with it all the time that passes. If its rate fills it in
-- that time, then what is consumed of it is back at once: a fill at the very same time fills it
-- again, so that twice its capacity is given at one time.
pub full_bucket_refills_at_once :
    (cap start now : ℕ) (b : Bucket)
    → b.timestamp ≤ now
    → b.tokens ≡ pos cap
    → b.capacity ≡ pos cap
    → cap ≤ b.fill_rate * (now - b.timestamp)
    → (run (fill start ∷ ask now cap ∷ fill now ∷ ask now cap ∷ []) b).1 ≡ cap + cap
unfolding run consume
full_bucket_refills_at_once cap start now b past h c fast =
    let spent = consume now (pos cap) b in
    let none_left : spent.tokens ≡ pos 0 =
      rw h (minus_pos cap cap (omega arith) ∙ ap pos (omega arith)) in
    let again = empty_refills cap now spent past none_left c fast in
    rw
      (
        full_stays cap start b h c,
        ask_enough now cap b h,
        ask_enough now cap (get_tokens now spent) again,
      )
      (omega arith)
