-- ===== src/Drf/Fairness.antt =====
-- DRFScheduler picks a client with the least dominant share.
use mathlib.Core.Path.{subst}
use tam_simulation.Prelude.{
  ap, ℕ, ◌≤◌, ◌≡◌, refl, sym, ◌∙◌, inl, inr, Bool, true, false, Bool-cases, ◌&&◌, Option, none,
  some, List, [], ◌∷◌, if◌then◌else◌, arith, ltb, contains, ◌==◌, ==_iff, contains_iff_count,
}
use tam_simulation.Result.{ok}
use tam_simulation.Dict.{lookup_or, has_key, keys, lookup_of_has_key, has_key_iff_count}
use tam_simulation.Req.{Req}
use tam_simulation.Drf.{Drf, check_client_id_pick, check_queue, pick_client, lower}

abbrev pub share : Drf → ℕ → ℕ
share s c = lookup_or 0 c s.dominate_shares

abbrev is_waiting : List Req → Bool
is_waiting [] = false
is_waiting (req ∷ rest) = true

-- The client has a request queued, and may be served.
abbrev pub waits : (ℕ → Bool) → Drf → ℕ → Bool
waits allowed s c = is_waiting (lookup_or [] c s.queues) && allowed c

-- No waiting client is left out: it is not below the picked one.
abbrev pub NotLower : (ℕ → Bool) → Drf → Option ℕ → ℕ → Type 0
NotLower allowed s none c = waits allowed s c ≡ false
NotLower allowed s (some p) c = waits allowed s c ≡ true → share s p ≤ share s c

abbrev pub IsPick : (ℕ → Bool) → Drf → Option ℕ → Type 0
IsPick allowed s none = Unit
IsPick allowed s (some p) = (waits allowed s p ≡ true) × (has_key p s.dominate_shares ≡ true)

abbrev is_lower : Drf → Option ℕ → ℕ → Bool
is_lower s none c = true
is_lower s (some p) c = ltb (share s c) (share s p)

abbrev next : (ℕ → Bool) → Drf → Option ℕ → ℕ → Option ℕ
next allowed s picked c = if waits allowed s c && is_lower s picked c then some c else picked

and_comm : (a b : Bool) → (a && b) ≡ (b && a)
and_comm true true = refl
and_comm true false = refl
and_comm false true = refl
and_comm false false = refl

module _ (allowed : ℕ → Bool) (s : Drf) where
  lower_known :
      (picked : Option ℕ) (c : ℕ)
      → IsPick allowed s picked
      → lower (share s c) picked s ≡ ok (is_lower s picked c)
  lower_known none c h = refl
  lower_known (some p) c h =
      let (other, found) = lookup_of_has_key p s.dominate_shares h.1 in
      let same : share s p ≡ other = ground (arith, found) in rw (found, same) refl

  check_queue_known :
      (picked : Option ℕ) (c : ℕ) (q : List Req)
      → IsPick allowed s picked
      → has_key c s.dominate_shares ≡ true
      → check_queue allowed picked c q s ≡ ok (is_waiting q && allowed c && is_lower s picked c)
  check_queue_known picked c [] h listed = refl
  check_queue_known picked c (req ∷ rest) h listed =
      let (mine, found) = lookup_of_has_key c s.dominate_shares listed in
      let same : share s c ≡ mine = ground (arith, found) in
      let known : lower mine picked s ≡ ok (is_lower s picked c) =
        subst (λ m. lower m picked s ≡ ok (is_lower s picked c)) same (lower_known picked c h) in
      rw (found, known) (ap ok (and_comm (is_lower s picked c) (allowed c)))

  check_known :
      (picked : Option ℕ) (c : ℕ)
      → IsPick allowed s picked
      → has_key c s.dominate_shares ≡ true
      → has_key c s.queues ≡ true
      → check_client_id_pick allowed picked c s ≡ ok (waits allowed s c && is_lower s picked c)
  unfolding check_client_id_pick
  check_known picked c h listed opened =
      let (q, found) = lookup_of_has_key c s.queues opened in
      let same : lookup_or [] c s.queues ≡ q = ground (arith, found) in
      rw (found, same) (check_queue_known picked c q h listed)

  IsPick-next :
      (picked : Option ℕ) (c : ℕ)
      → IsPick allowed s picked
      → has_key c s.dominate_shares ≡ true
      → IsPick allowed s (next allowed s picked c)
  IsPick-next picked c h listed = elim (Bool-cases (waits allowed s c && is_lower s picked c)) [
    | inl taken ↦ rw taken (ground (arith, taken), listed)
    | inr kept ↦ rw kept h
  ]

  next_covers : (picked : Option ℕ) (c : ℕ) → NotLower allowed s (next allowed s picked c) c
  next_covers none c = elim (Bool-cases (waits allowed s c)) [
    | inl w ↦ rw w (λ _. omega arith)
    | inr n ↦ rw n n
  ]
  next_covers (some p) c = elim (Bool-cases (waits allowed s c)) [
    | inr n ↦ rw n (λ w. absurd (cc))
    | inl w ↦ rw w (elim (Bool-cases (ltb (share s c) (share s p))) [
      | inl below ↦ rw below (λ _. omega arith)
      | inr above ↦ rw above (λ _. ground arith)
    ])
  ]

  next_keeps :
      (picked : Option ℕ) (c j : ℕ)
      → NotLower allowed s picked j
      → NotLower allowed s (next allowed s picked c) j
  next_keeps none c j h = elim (Bool-cases (waits allowed s c)) [
    | inl w ↦ rw w (λ wj. absurd (cc))
    | inr n ↦ rw n h
  ]
  next_keeps (some p) c j h = elim (Bool-cases (waits allowed s c && ltb (share s c) (share s p))) [
    | inr kept ↦ rw kept h
    | inl taken ↦ rw taken (λ wj. ground (arith, taken, h wj))
  ]

  IsPick-loop :
      (clients : List ℕ) (picked : Option ℕ)
      → ((c : ℕ)
          → contains c clients ≡ true
          → (has_key c s.dominate_shares ≡ true) × (has_key c s.queues ≡ true))
      → IsPick allowed s picked
      → (p : Option ℕ) × (pick_client allowed clients picked s ≡ ok p)
        × IsPick allowed s p
        × ((c : ℕ) → contains c clients ≡ true → NotLower allowed s p c)
        × ((c : ℕ) → NotLower allowed s picked c → NotLower allowed s p c)
  unfolding pick_client
  IsPick-loop [] picked known h = (picked, refl, h, λ c e. absurd (cc), λ c n. n)
  IsPick-loop (c ∷ clients) picked known h =
      let (listed, opened) = known c (ground arith) in
      let (p, done, good, all, kept) =
        IsPick-loop clients (next allowed s picked c) (λ j e. known j (ground (arith, e)))
          (IsPick-next picked c h listed) in
      (
        p,
        rw (check_known picked c h listed opened) done,
        good,
        λ j e. elim (Bool-cases (c == j)) [
          | inl same ↦
              subst (NotLower allowed s p) ((==_iff c j).0 same) (kept c (next_covers picked c))
          | inr other ↦ all j (rw other at e)
        ],
        λ j n. kept j (next_keeps picked c j n),
      )

  -- Where every client with a share has a queue, the loop in `pick_req` raises nothing. It picks a
  -- waiting client such that no other waiting one has a smaller dominant share, and none only if no
  -- client waits.
  pub pick_client_least :
      ((c : ℕ) → has_key c s.dominate_shares ≡ true → has_key c s.queues ≡ true)
      → (p : Option ℕ) × (pick_client allowed (keys s.dominate_shares) none s ≡ ok p)
        × IsPick allowed s p
        × ((c : ℕ) → has_key c s.dominate_shares ≡ true → NotLower allowed s p c)
  pick_client_least opened =
      let listed = λ (c : ℕ). has_key_iff_count c s.dominate_shares in
      let within = λ (c : ℕ). contains_iff_count c (keys s.dominate_shares) in
      let (p, done, good, all, _) =
        IsPick-loop (keys s.dominate_shares) none
          (λ c e.
            let h : has_key c s.dominate_shares ≡ true = listed c ∙ sym (within c) ∙ e in
            (h, opened c h))
          tt in
      (p, done, good, λ c h. all c (within c ∙ sym (listed c) ∙ h))
