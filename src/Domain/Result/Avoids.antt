-- ===== src/Domain/Result/Avoids.antt =====
-- Which sentinels an error of a result cannot hold.
use kafka_simulate_rule.Prelude.{◌≡◌, false, ◌==◌, String, arith}
use kafka_simulate_rule.Domain.Errors.{GoError, sentinel, wrap_two, Sentinel, identity, errors_is}
use kafka_simulate_rule.Domain.Result.{Result, ok, err, ◌>>=◌, with_context}

abbrev pub Avoids {ℓ} : Sentinel → {A : Type ℓ} → Result A → Type 0
Avoids t (ok a) = Unit
Avoids t (err e) = errors_is e t ≡ false

-- The first sentinel is another than the second.
abbrev pub Differs : Sentinel → Sentinel → Type 0
Differs s t = (identity s == identity t) ≡ false

pub Avoids-bind {ℓ κ} :
    {A : Type ℓ} {B : Type κ} (t : Sentinel) (m : Result A) (f : A → Result B)
    → Avoids t m
    → ((a : A) → Avoids t (f a))
    → Avoids t (m >>= f)
Avoids-bind t (ok a) f h k = k a
Avoids-bind t (err e) f h k = h

pub Avoids-context {ℓ} :
    {A : Type ℓ} (t : Sentinel) (f : GoError → GoError) (m : Result A)
    → ((e : GoError) → errors_is e t ≡ false → errors_is (f e) t ≡ false)
    → Avoids t m
    → Avoids t (with_context f m)
Avoids-context t f (ok a) k h = tt
Avoids-context t f (err e) k h = k e h

pub errors_is-wrap_two :
    (t s : Sentinel) (m : String) (e : GoError)
    → Differs s t
    → errors_is e t ≡ false
    → errors_is (wrap_two m (sentinel s) e) t ≡ false
unfolding errors_is
errors_is-wrap_two t s m e d h = ground arith
