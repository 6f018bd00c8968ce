-- ===== src/Prelude/Lists.antt =====
-- Lists measured by native numbers, Python's list methods, and counting.
use Prim.Native.Nat.{ℕ, zero, suc, ◌+◌}
use mathlib.Core.Path.{◌≡◌, refl, ap}
use mathlib.Core.Bool.{Bool, true, false, ◌||◌}
use mathlib.Core.List.{List, [], ◌∷◌, ◌++◌}
use mathlib.Core.Option.{Option, none, some}
use native.Mathlib.Omega.{arith}
use tam_simulation.Prelude.Tests.{◌==◌, if◌then◌else◌}

module _ {ℓ} {A : Type ℓ} where
  abbrev pub length : List A → ℕ
  length [] = 0
  length (x ∷ xs) = suc (length xs)

  -- Python's truth of a list.
  abbrev pub is_empty : List A → Bool
  is_empty [] = true
  is_empty (x ∷ xs) = false

  abbrev pub get_elem? : List A → ℕ → Option A
  get_elem? [] i = none
  get_elem? (x ∷ xs) zero = some x
  get_elem? (x ∷ xs) (suc i) = get_elem? xs i

  abbrev pub replicate : ℕ → A → List A
  replicate zero a = []
  replicate (suc n) a = a ∷ replicate n a

  pub length-append : (xs ys : List A) → length (xs ++ ys) ≡ length xs + length ys
  length-append [] ys = omega arith
  length-append (x ∷ xs) ys = omega (arith, length-append xs ys)

  pub length-replicate : (n : ℕ) (a : A) → length (replicate n a) ≡ n
  length-replicate zero a = refl
  length-replicate (suc n) a = ap suc (length-replicate n a)

  pub length-snoc : (xs : List A) (y : A) → length (xs ++ y ∷ []) ≡ suc (length xs)
  length-snoc [] y = refl
  length-snoc (x ∷ xs) y = ap suc (length-snoc xs y)

-- Numbers in a list, as Python's `in`, `list.remove` and `list.count`.
abbrev pub contains : ℕ → List ℕ → Bool
contains k [] = false
contains k (x ∷ xs) = x == k || contains k xs

-- `l.remove(k)` drops the first occurrence.
abbrev pub erase : ℕ → List ℕ → List ℕ
erase k [] = []
erase k (x ∷ xs) = let rest = x ∷ erase k xs in if x == k then xs else rest

abbrev pub count : ℕ → List ℕ → ℕ
count k [] = 0
count k (x ∷ xs) = if x == k then suc (count k xs) else count k xs

pub count-append : (k : ℕ) (xs ys : List ℕ) → count k (xs ++ ys) ≡ count k xs + count k ys
count-append k [] ys = omega arith
count-append k (x ∷ xs) ys = ground (arith, count-append k xs ys)

pub count-erase :
    (k j : ℕ) (xs : List ℕ)
    → contains k xs ≡ true
    → count j (erase k xs) + (if k == j then 1 else 0) ≡ count j xs
count-erase k j [] h = ground arith
count-erase k j (x ∷ xs) h = ground (arith, count-erase k j xs)

pub contains_iff_count :
    (k : ℕ) (xs : List ℕ) → contains k xs ≡ (if count k xs == 0 then false else true)
contains_iff_count k [] = ground arith
contains_iff_count k (x ∷ xs) = ground (arith, contains_iff_count k xs)
