-- ===== src/Outcome.antt =====
-- What a function of the scripts does: it returns, or it raises an exception. `value_error` carries
-- the message without its interpolated parts; the other exceptions are Python's own.
use flop_contributions.Prelude.{◌≡◌, refl, Bool, true, false, Option, none, some, String}

pub data Error : Type 0 where
  value_error : String → Error
  key_error type_error attribute_error os_error subprocess_error : Error
  -- `fail(message)`: the message is printed and the script exits with status 1
  system_exit : String → Error

pub data Outcome {ℓ} (A : Type ℓ) : Type ℓ where
  ok : A → Outcome A
  err : Error → Outcome A

-- `if not b: raise ValueError(message)`
abbrev pub guard : Bool → String → Outcome (Unit {0})
guard false message = err (value_error message)
guard true message = ok tt

-- A missing value raises `ValueError(message)`.
abbrev pub or_raise {ℓ} : {A : Type ℓ} → Option A → String → Outcome A
or_raise none message = err (value_error message)
or_raise (some a) message = ok a

-- `if not b: fail(message)`
abbrev pub require : Bool → String → Outcome (Unit {0})
require false message = err (system_exit message)
require true message = ok tt

-- A missing value makes the script fail.
abbrev pub or_fail {ℓ} : {A : Type ℓ} → Option A → String → Outcome A
or_fail none message = err (system_exit message)
or_fail (some a) message = ok a

module _ {ℓ κ} {A : Type ℓ} {B : Type κ} where
  -- An exception skips the statements that follow.
  infixl 5 ◌>>=◌
  abbrev pub ◌>>=◌ : Outcome A → (A → Outcome B) → Outcome B
  err e >>= rest = err e
  ok a >>= rest = rest a

  infixl 5 ◌>>◌
  abbrev pub ◌>>◌ : Outcome A → Outcome B → Outcome B
  m >> rest = m >>= λ _. rest

  -- Where the whole returned, the first step returned, and so did the rest on its value.
  pub >>=-eq-ok :
      (m : Outcome A) (rest : A → Outcome B) {result : B}
      → (m >>= rest) ≡ ok result
      → (value : A) × (m ≡ ok value) × (rest value ≡ ok result)
  >>=-eq-ok (err e) rest h = cc
  >>=-eq-ok (ok value) rest h = (value, refl, h)

module _ {κ} {B : Type κ} where
  -- Where the whole returned, the test held.
  pub guard-eq-ok :
      (test : Bool) (message : String) (rest : Outcome B) {result : B}
      → (guard test message >> rest) ≡ ok result
      → (test ≡ true) × (rest ≡ ok result)
  guard-eq-ok false message rest h = cc
  guard-eq-ok true message rest h = (refl, h)

  pub require-eq-ok :
      (test : Bool) (message : String) (rest : Outcome B) {result : B}
      → (require test message >> rest) ≡ ok result
      → (test ≡ true) × (rest ≡ ok result)
  require-eq-ok false message rest h = cc
  require-eq-ok true message rest h = (refl, h)

module _ {ℓ} {A : Type ℓ} where
  pub ok-injective : {a b : A} → ok a ≡ ok b → a ≡ b
  ok-injective h = cc

  pub some-or_raise :
      (o : Option A) (message : String) {a : A} → or_raise o message ≡ ok a → o ≡ some a
  some-or_raise none message h = cc
  some-or_raise (some b) message h = cc

  pub some-or_fail :
      (o : Option A) (message : String) {a : A} → or_fail o message ≡ ok a → o ≡ some a
  some-or_fail none message h = cc
  some-or_fail (some b) message h = cc
