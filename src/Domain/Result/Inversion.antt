-- ===== src/Domain/Result/Inversion.antt =====
-- Taking a successful result apart.
use kafka_simulate_rule.Prelude.{
  String, inr, inl, ◌⊎◌, false, true, if◌then◌else◌, Bool, some, none, Option, ◌≡◌, refl,
}
use kafka_simulate_rule.Domain.Result.{
  wrapped, check, or_fail, Result, ok, err, ◌>>=◌, with_context,
}
use kafka_simulate_rule.Domain.Errors.{GoError}

pub >>=-eq-ok {ℓ κ} :
    {V : Type ℓ} {W : Type κ} (first : Result V) (next : V → Result W) {w : W}
    → (first >>= next) ≡ ok w
    → (v : V) × (first ≡ ok v) × (next v ≡ ok w)
>>=-eq-ok (err failure) next both = cc
>>=-eq-ok (ok value) next both = (value, refl, both)

pub with_context-eq-ok {ℓ} :
    {A : Type ℓ} (f : GoError → GoError) (m : Result A) {a : A} → with_context f m ≡ ok a → m ≡ ok a
with_context-eq-ok f (ok a) h = h
with_context-eq-ok f (err e) h = cc

pub ok-injective {ℓ} : {A : Type ℓ} {a b : A} → ok a ≡ ok b → a ≡ b
ok-injective h = cc

pub check-eq-ok {ℓ} :
    {A : Type ℓ} (e : Option GoError) (m : Result A) {a : A}
    → check e m ≡ ok a
    → (e ≡ none) × (m ≡ ok a)
check-eq-ok none m h = (refl, h)
check-eq-ok (some e) m h = cc

pub or_fail-eq-ok {ℓ} :
    {A : Type ℓ} (o : Option A) (e : GoError) {a : A} → or_fail o e ≡ ok a → o ≡ some a
or_fail-eq-ok none e h = cc
or_fail-eq-ok (some b) e h = cc

pub if-eq-ok {ℓ} :
    {A : Type ℓ} (test : Bool) (e : GoError) {a u : A}
    → (if test then ok a else err e) ≡ ok u
    → (test ≡ true) × (a ≡ u)
if-eq-ok true e h = (refl, ok-injective h)
if-eq-ok false e h = cc h

pub Result-cases {ℓ} :
    {A : Type ℓ} (m : Result A) → ((a : A) × (m ≡ ok a)) ⊎ ((e : GoError) × (m ≡ err e))
Result-cases (ok a) = inl (a, refl)
Result-cases (err e) = inr (e, refl)

pub wrapped-eq-none : (text : String) (e : Option GoError) → wrapped text e ≡ none → e ≡ none
wrapped-eq-none text none h = refl
wrapped-eq-none text (some e) h = cc h

pub if_else-eq-ok {ℓ} :
    {A : Type ℓ} (test : Bool) (m : Result A) (e : GoError) {u : A}
    → (if test then m else err e) ≡ ok u
    → (test ≡ true) × (m ≡ ok u)
if_else-eq-ok true m e h = (refl, h)
if_else-eq-ok false m e h = cc h
