-- ===== src/Rules/Predicate/Laws.antt =====
-- Laws of the predicate evaluator of internal/rules/evaluator.go: De Morgan, double negation, and the
-- meaning of `all` and `any`.
use kafka_simulate_rule.Prelude.{
  ◌≡◌, refl, ◌⊎◌, inl, inr, ◌↔◌, Bool, true, false, not, if◌then◌else◌, List, String, arith,
}
use kafka_simulate_rule.Domain.Result.{Result, ok, err, ◌>>=◌}
use kafka_simulate_rule.Domain.Values.{null, Runtime}
use kafka_simulate_rule.Domain.Rule.{
  Predicate, predicate, nil_slice, slice, Pointers, done, next, Pointer, nil_pointer, pointer, eq,
}
use kafka_simulate_rule.Rules.Predicate.{eval_predicate, eval_all, eval_any}

abbrev pub negate : Pointer → Predicate
negate p = predicate nil_slice nil_slice p "" eq null

abbrev pub all_of : Pointers → Predicate
all_of ps = predicate (slice ps) nil_slice nil_pointer "" eq null

abbrev pub any_of : Pointers → Predicate
any_of ps = predicate nil_slice (slice ps) nil_pointer "" eq null

pub negate_each : Pointers → Pointers
negate_each done = done
negate_each (next p ps) = next (pointer (negate p)) (negate_each ps)

abbrev pub IsPresent : Pointer → Type 0
IsPresent nil_pointer = ⊥
IsPresent (pointer p) = Unit

abbrev pub AllPresent : Pointers → Type 0
AllPresent done = Unit
AllPresent (next p ps) = IsPresent p × AllPresent ps

-- The result of a negated predicate.
abbrev flipped : Result Bool → Result Bool
flipped r = r >>= λ m. ok (not m)

flipped-flipped : (r : Result Bool) → flipped (flipped r) ≡ r
flipped-flipped (ok true) = refl
flipped-flipped (ok false) = refl
flipped-flipped (err e) = refl

module _ (go : Runtime) (raw : String) (facts : List (String × String)) where
  -- Negating a predicate twice changes nothing, its errors included.
  pub negate-negate :
      (p : Predicate)
      → eval_predicate go raw facts (negate (pointer (negate (pointer p))))
        ≡ eval_predicate go raw facts p
  unfolding eval_predicate
  negate-negate p = flipped-flipped (eval_predicate go raw facts p)

  demorgan_step :
      (r : Result Bool) (rest rest' : Result Bool)
      → flipped rest ≡ rest'
      → flipped (r >>= λ m. if m then rest else ok false)
        ≡ (flipped r >>= λ m. if m then ok true else rest')
  demorgan_step (ok true) rest rest' h = h
  demorgan_step (ok false) rest rest' h = refl
  demorgan_step (err e) rest rest' h = refl

  demorgan :
      (ps : Pointers)
      → AllPresent ps
      → flipped (eval_all go raw facts ps) ≡ eval_any go raw facts (negate_each ps)
  unfolding eval_predicate negate_each
  demorgan done h = refl
  demorgan (next nil_pointer ps) h = absurd h.0
  demorgan (next (pointer p) ps) h =
      demorgan_step (eval_predicate go raw facts p) (eval_all go raw facts ps)
        (eval_any go raw facts (negate_each ps)) (demorgan ps h.1)

  -- With no nil pointer among the operands, negating an `all` is the `any` of the negated operands:
  -- the same answer, and the same error if there is one.
  pub negate-all :
      (ps : Pointers)
      → AllPresent ps
      → eval_predicate go raw facts (negate (pointer (all_of ps)))
        ≡ eval_predicate go raw facts (any_of (negate_each ps))
  unfolding eval_predicate
  negate-all ps h = demorgan ps h

  -- Every operand is there and true.
  abbrev pub AllTrue : Pointers → Type 0
  AllTrue done = Unit
  AllTrue (next nil_pointer ps) = ⊥
  AllTrue (next (pointer p) ps) = (eval_predicate go raw facts p ≡ ok true) × AllTrue ps

  -- Some operand is true, and those before it are false or nil.
  abbrev pub FirstTrue : Pointers → Type 0
  FirstTrue done = ⊥
  FirstTrue (next nil_pointer ps) = FirstTrue ps
  FirstTrue (next (pointer p) ps) =
      (eval_predicate go raw facts p ≡ ok true)
      ⊎ ((eval_predicate go raw facts p ≡ ok false) × FirstTrue ps)

  all_step :
      (r rest : Result Bool)
      → ((r >>= λ m. if m then rest else ok false) ≡ ok true) ↔ ((r ≡ ok true) × (rest ≡ ok true))
  all_step (ok true) rest = (λ h. (refl, h), λ h. h.1)
  all_step (ok false) rest = (λ h. ground arith, λ h. ground arith)
  all_step (err e) rest = (λ h. ground arith, λ h. ground arith)

  any_step :
      (r rest : Result Bool)
      → ((r >>= λ m. if m then ok true else rest) ≡ ok true)
        ↔ ((r ≡ ok true) ⊎ ((r ≡ ok false) × (rest ≡ ok true)))
  any_step (ok true) rest = (λ h. inl refl, λ h. refl)
  any_step (ok false) rest = (λ h. inr (refl, h), λ h. ground arith)
  any_step (err e) rest = (λ h. ground arith, λ h. ground arith)

  -- `all` holds exactly when every operand is there and holds.
  pub eval_all-AllTrue : (ps : Pointers) → (eval_all go raw facts ps ≡ ok true) ↔ AllTrue ps
  unfolding eval_predicate
  eval_all-AllTrue done = (λ h. tt, λ h. refl)
  eval_all-AllTrue (next nil_pointer ps) = (λ h. ground arith, λ h. absurd h)
  eval_all-AllTrue (next (pointer p) ps) =
      let step = all_step (eval_predicate go raw facts p) (eval_all go raw facts ps) in
      let rest = eval_all-AllTrue ps in
      (λ h. ((step.0 h).0, rest.0 (step.0 h).1), λ h. step.1 (h.0, rest.1 h.1))

  -- `any` holds exactly when some operand holds and each before it is false or nil.
  pub eval_any-FirstTrue : (ps : Pointers) → (eval_any go raw facts ps ≡ ok true) ↔ FirstTrue ps
  unfolding eval_predicate
  eval_any-FirstTrue done = (λ h. ground arith, λ h. absurd h)
  eval_any-FirstTrue (next nil_pointer ps) = eval_any-FirstTrue ps
  eval_any-FirstTrue (next (pointer p) ps) =
      let rest = eval_any-FirstTrue ps in
      let step = any_step (eval_predicate go raw facts p) (eval_any go raw facts ps) in
      (
        λ h. elim (step.0 h) [ inl t ↦ inl t | inr f ↦ inr (f.0, rest.0 f.1) ],
        λ h. elim h [ inl t ↦ step.1 (inl t) | inr f ↦ step.1 (inr (f.0, rest.1 f.1)) ],
      )
