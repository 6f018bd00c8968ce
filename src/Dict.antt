-- ===== src/Dict.antt =====
-- Python's `dict` with numbers for keys: an association list in the order in which the program
-- iterates. Python 2 leaves that order open, so nothing but ties may depend on it.
use tam_simulation.Prelude.{
  ℕ, ◌+◌, ◌≡◌, refl, Bool, true, false, Option, none, some, List, [], ◌∷◌, arith, count, ◌==◌,
  if◌then◌else◌,
}

abbrev pub Dict {ℓ} : Type ℓ → Type ℓ
Dict V = List (ℕ × V)

module _ {ℓ} {V : Type ℓ} where
  -- d.get(k)
  abbrev pub lookup : ℕ → Dict V → Option V
  lookup k [] = none
  lookup k ((j, v) ∷ m) = if j == k then some v else lookup k m

  -- d[k] = v
  unfoldable pub insert : ℕ → V → Dict V → Dict V
  insert k v [] = (k, v) ∷ []
  insert k v ((j, w) ∷ m) = let rest = insert k v m in if j == k then (j, v) ∷ m else (j, w) ∷ rest

  -- del d[k]
  unfoldable pub remove : ℕ → Dict V → Dict V
  remove k [] = []
  remove k ((j, w) ∷ m) = let rest = remove k m in if j == k then rest else (j, w) ∷ rest

  -- k in d
  abbrev pub has_key : ℕ → Dict V → Bool
  has_key k m = elim (lookup k m) [ none ↦ false | some _ ↦ true ]

  -- d.get(k, default)
  abbrev pub lookup_or : V → ℕ → Dict V → V
  lookup_or v k m = elim (lookup k m) [ none ↦ v | some w ↦ w ]

  pub lookup-insert :
      (k j : ℕ) (v : V) (m : Dict V)
      → lookup j (insert k v m) ≡ (if k == j then some v else lookup j m)
  unfolding insert
  lookup-insert k j v [] = refl
  lookup-insert k j v ((i, w) ∷ m) = ground (arith, lookup-insert k j v m)

  pub lookup-remove :
      (k j : ℕ) (m : Dict V) → lookup j (remove k m) ≡ (if k == j then none else lookup j m)
  unfolding remove
  lookup-remove k j [] = ground arith
  lookup-remove k j ((i, w) ∷ m) = ground (arith, lookup-remove k j m)

  -- The sum of a measure of the values.
  abbrev pub total : (V → ℕ) → Dict V → ℕ
  total f [] = 0
  total f ((j, v) ∷ m) = f v + total f m

  abbrev pub measure : (V → ℕ) → Option V → ℕ
  measure f none = 0
  measure f (some v) = f v

  pub total-insert :
      (f : V → ℕ) (k : ℕ) (v : V) (m : Dict V)
      → total f (insert k v m) + measure f (lookup k m) ≡ total f m + f v
  unfolding insert
  total-insert f k v [] = ground arith
  total-insert f k v ((i, w) ∷ m) = ground (arith, total-insert f k v m)

  pub measure-le-total :
      (f : V → ℕ) (k : ℕ) (m : Dict V) → (rest : ℕ) × (total f m ≡ measure f (lookup k m) + rest)
  measure-le-total f k [] = (0, omega arith)
  measure-le-total f k ((i, w) ∷ m) =
      let (rest, e) = measure-le-total f k m in
      elim (i == k)
        as (λ b.
          (rest : ℕ) × (f w + total f m ≡ measure f (if b then some w else lookup k m) + rest)) [
            | true ↦ (total f m, refl)
            | false ↦ (f w + rest, omega arith)
          ]

module _ {ℓ} {V : Type ℓ} where
  -- The keys, in the order of the iteration.
  abbrev pub keys : Dict V → List ℕ
  keys [] = []
  keys ((k, v) ∷ m) = k ∷ keys m

  pub count-keys-insert :
      (k j : ℕ) (v : V) (m : Dict V)
      → count j (keys (insert k v m)) ≡ (
          if has_key k m
          then count j (keys m)
          else if k == j
          then count j (keys m) + 1
          else count j (keys m))
  unfolding insert
  count-keys-insert k j v [] = ground arith
  count-keys-insert k j v ((i, w) ∷ m) = ground (arith, count-keys-insert k j v m)

  pub count-keys-remove :
      (k j : ℕ) (m : Dict V)
      → count j (keys (remove k m)) ≡ (if k == j then 0 else count j (keys m))
  unfolding remove
  count-keys-remove k j [] = ground arith
  count-keys-remove k j ((i, w) ∷ m) = ground (arith, count-keys-remove k j m)

  pub has_key_iff_count :
      (k : ℕ) (m : Dict V) → has_key k m ≡ (if count k (keys m) == 0 then false else true)
  has_key_iff_count k [] = ground arith
  has_key_iff_count k ((i, w) ∷ m) = ground (arith, has_key_iff_count k m)

  pub lookup_of_has_key :
      (k : ℕ) (m : Dict V) → has_key k m ≡ true → (v : V) × (lookup k m ≡ some v)
  lookup_of_has_key k m h = found (lookup k m) h
    where
      found :
          (o : Option V) → (elim o [ none ↦ false | some _ ↦ true ]) ≡ true → (v : V) × (o ≡ some v)
      found none e = absurd (cc)
      found (some v) e = (v, refl)
