-- ===== src/Result.antt =====
-- The exceptions that the simulator's code can raise, as values. Nothing in the modelled code
-- catches one of them, so no state comes back beside it.
use tam_simulation.Prelude.{◌≡◌, refl, Bool, true, false, Option, none, some}

pub data Error : Type 0 where
  assertion_error key_error runtime_error zero_division_error : Error
  not_implemented_error value_error index_error unbound_local_error : Error
  attribute_error type_error exception : Error

-- What a call returns, or the exception that it raises.
pub data Result {ℓ} (A : Type ℓ) : Type ℓ where
  err : Error → Result A
  ok : A → Result A

pub ok-injective {ℓ} : {A : Type ℓ} {a b : A} → ok a ≡ ok b → a ≡ b
ok-injective same = cc

module _ {ℓ κ} {A : Type ℓ} {B : Type κ} where
  infixl 5 ◌>>=◌
  -- The rest of the code runs on the returned value; an exception passes through.
  abbrev pub ◌>>=◌ : Result A → (A → Result B) → Result B
  ◌>>=◌ (err e) rest = err e
  ◌>>=◌ (ok a) rest = rest a

  -- Code that returned has returned from its first part, and from the rest on that value.
  pub bind-eq-ok :
      (first : Result A) (rest : A → Result B) {result : B}
      → (first >>= rest) ≡ ok result
      → (value : A) × (first ≡ ok value) × (rest value ≡ ok result)
  bind-eq-ok (err e) rest returned = cc
  bind-eq-ok (ok value) rest returned = (value, refl, returned)

module _ {ℓ} {B : Type ℓ} where
  infixl 5 ◌>>◌
  abbrev pub ◌>>◌ : Result (Unit {0}) → Result B → Result B
  check >> rest = check >>= λ _. rest

-- `assert b`
abbrev pub assert : Bool → Result (Unit {0})
assert false = err assertion_error
assert true = ok tt

-- `d[k]` where the key may be missing
abbrev pub require {ℓ} : {A : Type ℓ} → Option A → Result A
require (some a) = ok a
require none = err key_error
