-- ===== src/Domain/Result.antt =====
-- The pair `(value, error)` that the program's functions return: a value, or an error and no value.
pub mod Avoids
pub mod Inversion
use kafka_simulate_rule.Prelude.{String, Option, none, some}
use kafka_simulate_rule.Domain.Errors.{wrap, GoError}

pub data Result {ℓ} (A : Type ℓ) : Type ℓ where
  err : GoError → Result A
  ok : A → Result A

infixl 5 ◌>>=◌
abbrev pub ◌>>=◌ {ℓ κ} : {V : Type ℓ} {W : Type κ} → Result V → (V → Result W) → Result W
err failure >>= next = err failure
ok value >>= next = next value

-- `if err != nil { return nil, fmt.Errorf(...) }`
abbrev pub with_context {ℓ} : {A : Type ℓ} → (GoError → GoError) → Result A → Result A
with_context f (ok a) = ok a
with_context f (err e) = err (f e)

-- A check that returns only an error.
abbrev pub check {ℓ} : {A : Type ℓ} → Option GoError → Result A → Result A
check none k = k
check (some e) k = err e

-- A value, or nil with the error given.
abbrev pub or_fail {ℓ} : {A : Type ℓ} → Option A → GoError → Result A
or_fail none e = err e
or_fail (some a) e = ok a

abbrev pub wrapped : String → Option GoError → Option GoError
wrapped text none = none
wrapped text (some e) = some (wrap text e)
