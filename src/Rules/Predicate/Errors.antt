-- ===== src/Rules/Predicate/Errors.antt =====
-- Which errors the evaluation of a predicate (internal/rules/evaluator.go) can return.
use kafka_simulate_rule.Prelude.{
  refl, if◌then◌else◌, not, false, Bool, ◌≡◌, true, List, [], ◌∷◌, String, arith, inl, inr,
  Option-cases,
}
use kafka_simulate_rule.Domain.Errors.{
  invalid_predicate, evaluation_error, GoError, Sentinel, errors_is, invalid_fact_path,
  invalid_operator,
}
use kafka_simulate_rule.Domain.Result.Avoids.{Avoids-context, Avoids-bind, Avoids, Differs}
use kafka_simulate_rule.Domain.Values.{Value, Runtime}
use kafka_simulate_rule.Domain.Rule.{
  not_exists, exists, other_op, Predicate, predicate, nil_slice, slice, Pointers, done, next,
  nil_pointer, pointer, Operator, eq, gt, gte, lt, lte, valid_op,
}
use kafka_simulate_rule.Rules.Path.{
  resolve_path, resolve_parts, resolve_event_data_path, resolve_fact_path, after_root, split_dots,
}
use kafka_simulate_rule.Rules.Compare.{evaluate_leaf_value, compare_numeric_leaf}
use kafka_simulate_rule.Rules.Predicate.{
  eval_any, unresolved, eval_all, eval_predicate, decide_leaf, eval_leaf,
}
use kafka_simulate_rule.Domain.Result.{err, ◌>>=◌, with_context, ok, Result}

-- What the evaluator relies on: no nil pointer among the operands, and a known operator at each leaf.
abbrev mutual
  pub IsSound : Predicate → Type 0
  IsSound (predicate (slice ps) any negated path op v) = AllSound ps
  IsSound (predicate nil_slice (slice ps) negated path op v) = AllSound ps
  IsSound (predicate nil_slice nil_slice (pointer p) path op v) = IsSound p
  IsSound (predicate nil_slice nil_slice nil_pointer path op v) = valid_op op ≡ true

  pub AllSound : Pointers → Type 0
  AllSound done = Unit
  AllSound (next nil_pointer ps) = ⊥
  AllSound (next (pointer p) ps) = IsSound p × AllSound ps

module _ (go : Runtime) (t : Sentinel) where
  compare_numeric_leaf-Avoids :
      (op : Operator) (a e : Value)
      → Differs invalid_operator t
      → Avoids t (compare_numeric_leaf go op a e)
  unfolding compare_numeric_leaf errors_is
  compare_numeric_leaf-Avoids op a e d = ground arith

  evaluate_leaf_value-Avoids :
      (op : Operator) (a e : Value)
      → Differs invalid_operator t
      → Avoids t (evaluate_leaf_value go op a e)
  unfolding evaluate_leaf_value errors_is
  evaluate_leaf_value-Avoids eq a e d = tt
  evaluate_leaf_value-Avoids gt a e d = compare_numeric_leaf-Avoids gt a e d
  evaluate_leaf_value-Avoids gte a e d = compare_numeric_leaf-Avoids gte a e d
  evaluate_leaf_value-Avoids lt a e d = compare_numeric_leaf-Avoids lt a e d
  evaluate_leaf_value-Avoids lte a e d = compare_numeric_leaf-Avoids lte a e d
  evaluate_leaf_value-Avoids _ a e d = ground arith

  resolve_fact_path-Avoids :
      (parts : List String) (facts : List (String × String))
      → Avoids t (resolve_fact_path go parts facts)
  unfolding resolve_fact_path errors_is
  resolve_fact_path-Avoids [] facts = tt
  resolve_fact_path-Avoids (k ∷ parts) facts = ground arith

  resolve_event_data_path-Avoids :
      (raw : String) (parts : List String) → Avoids t (resolve_event_data_path go raw parts)
  unfolding resolve_event_data_path errors_is
  resolve_event_data_path-Avoids raw parts = ground arith

  resolve_parts-Avoids :
      (parts : List String) (raw : String) (facts : List (String × String))
      → Avoids t (resolve_parts go parts raw facts)
  resolve_parts-Avoids [] raw facts = resolve_event_data_path-Avoids raw []
  resolve_parts-Avoids (p ∷ ps) raw facts =
      ground (arith, resolve_event_data_path-Avoids raw (p ∷ ps), resolve_fact_path-Avoids ps facts)

  -- A path resolves, or the error is that of a malformed path or of malformed JSON.
  pub resolve_path-Avoids :
      (path raw : String) (facts : List (String × String))
      → Differs invalid_fact_path t
      → Avoids t (resolve_path go path raw facts)
  unfolding resolve_path errors_is
  resolve_path-Avoids path raw facts d = elim (Option-cases (after_root path)) [
    | inl e ↦ rw (e, resolve_path) d
    | inr (rest, e) ↦ rw (e, resolve_path) (resolve_parts-Avoids (split_dots rest) raw facts)
  ]

  decide_valid :
      (op : Operator) (v e : Value) → valid_op op ≡ true → Avoids t (decide_leaf go "" [] op v e)
  unfolding evaluate_leaf_value compare_numeric_leaf errors_is valid_op
  decide_valid exists v e h = tt
  decide_valid (other_op s) v e h = ground arith
  decide_valid _ v e h = ground arith

  decide_foreign :
      (op : Operator) (v e : Value)
      → Differs invalid_operator t
      → Avoids t (decide_leaf go "" [] op v e)
  decide_foreign exists v e d = tt
  decide_foreign not_exists v e d = tt
  decide_foreign op v e d = ground (arith, evaluate_leaf_value-Avoids op v e d)

  unresolved-Avoids :
      (path : String) (e : GoError)
      → Differs evaluation_error t
      → errors_is e t ≡ false
      → errors_is (unresolved go "" [] path e) t ≡ false
  unfolding errors_is
  unresolved-Avoids path e d h = ground arith

  flip-Avoids : (r : Result Bool) → Avoids t r → Avoids t (r >>= λ m. ok (not m))
  flip-Avoids (ok m) h = tt
  flip-Avoids (err e) h = h

  branch-Avoids :
      (r x y : Result Bool)
      → Avoids t r
      → Avoids t x
      → Avoids t y
      → Avoids t (r >>= λ m. if m then x else y)
  branch-Avoids (ok true) x y h k l = k
  branch-Avoids (ok false) x y h k l = l
  branch-Avoids (err e) x y h k l = h

module _ (go : Runtime) (raw : String) (facts : List (String × String)) (t : Sentinel) where
  leaf-Avoids :
      (path : String) (op : Operator) (e : Value)
      → Differs evaluation_error t
      → Differs invalid_fact_path t
      → ((v : Value) → Avoids t (decide_leaf go raw facts op v e))
      → Avoids t (eval_leaf go raw facts path op e)
  unfolding eval_leaf
  leaf-Avoids path op e d f k =
      Avoids-bind t (with_context (unresolved go raw facts path) (resolve_path go path raw facts))
        (λ v. decide_leaf go raw facts op v e)
        (Avoids-context t (unresolved go raw facts path) (resolve_path go path raw facts)
          (λ x. unresolved-Avoids go t path x d) (resolve_path-Avoids go t path raw facts f))
        k

  mutual
    unfolding eval_predicate

    sound-Avoids :
        (p : Predicate)
        → Differs evaluation_error t
        → Differs invalid_fact_path t
        → IsSound p
        → Avoids t (eval_predicate go raw facts p)
    sound-Avoids (predicate (slice ps) any n path op v) d f s = sound_all-Avoids ps d f s
    sound-Avoids (predicate nil_slice (slice ps) n path op v) d f s = sound_any-Avoids ps d f s
    sound-Avoids (predicate nil_slice nil_slice (pointer p) path op v) d f s =
        flip-Avoids go t (eval_predicate go raw facts p) (sound-Avoids p d f s)
    sound-Avoids (predicate nil_slice nil_slice nil_pointer path op v) d f s =
        leaf-Avoids path op v d f (λ w. decide_valid go t op w v s)

    sound_all-Avoids :
        (ps : Pointers)
        → Differs evaluation_error t
        → Differs invalid_fact_path t
        → AllSound ps
        → Avoids t (eval_all go raw facts ps)
    sound_all-Avoids done d f s = tt
    sound_all-Avoids (next nil_pointer ps) d f s = absurd s
    sound_all-Avoids (next (pointer p) ps) d f s =
        branch-Avoids go t (eval_predicate go raw facts p) (eval_all go raw facts ps) (ok false)
          (sound-Avoids p d f s.0) (sound_all-Avoids ps d f s.1) tt

    sound_any-Avoids :
        (ps : Pointers)
        → Differs evaluation_error t
        → Differs invalid_fact_path t
        → AllSound ps
        → Avoids t (eval_any go raw facts ps)
    sound_any-Avoids done d f s = tt
    sound_any-Avoids (next nil_pointer ps) d f s = absurd s
    sound_any-Avoids (next (pointer p) ps) d f s =
        branch-Avoids go t (eval_predicate go raw facts p) (ok true) (eval_any go raw facts ps)
          (sound-Avoids p d f s.0) tt (sound_any-Avoids ps d f s.1)

  -- The sentinels that the evaluator itself raises.
  abbrev pub IsForeign : Type 0
  IsForeign =
      Differs evaluation_error t
      × Differs invalid_fact_path t
      × Differs invalid_operator t
      × Differs invalid_predicate t

  mutual
    unfolding eval_predicate errors_is

    foreign-Avoids : (p : Predicate) → IsForeign → Avoids t (eval_predicate go raw facts p)
    foreign-Avoids (predicate (slice ps) any n path op v) f = foreign_all-Avoids ps f
    foreign-Avoids (predicate nil_slice (slice ps) n path op v) f = foreign_any-Avoids ps f
    foreign-Avoids (predicate nil_slice nil_slice (pointer p) path op v) f =
        flip-Avoids go t (eval_predicate go raw facts p) (foreign-Avoids p f)
    foreign-Avoids (predicate nil_slice nil_slice nil_pointer path op v) f =
        leaf-Avoids path op v f.0 f.1 (λ w. decide_foreign go t op w v f.2)

    foreign_all-Avoids : (ps : Pointers) → IsForeign → Avoids t (eval_all go raw facts ps)
    foreign_all-Avoids done f = tt
    foreign_all-Avoids (next nil_pointer ps) f = f.3
    foreign_all-Avoids (next (pointer p) ps) f =
        branch-Avoids go t (eval_predicate go raw facts p) (eval_all go raw facts ps) (ok false)
          (foreign-Avoids p f) (foreign_all-Avoids ps f) tt

    foreign_any-Avoids : (ps : Pointers) → IsForeign → Avoids t (eval_any go raw facts ps)
    foreign_any-Avoids done f = tt
    foreign_any-Avoids (next nil_pointer ps) f = foreign_any-Avoids ps f
    foreign_any-Avoids (next (pointer p) ps) f =
        branch-Avoids go t (eval_predicate go raw facts p) (ok true) (eval_any go raw facts ps)
          (foreign-Avoids p f) tt (foreign_any-Avoids ps f)

  -- A predicate's error holds no sentinel but those of the evaluator.
  pub eval_predicate-foreign :
      (p : Predicate) → IsForeign → Avoids t (eval_predicate go raw facts p)
  eval_predicate-foreign p f = foreign-Avoids p f

module _ (go : Runtime) (raw : String) (facts : List (String × String)) where
  -- A predicate without nil operands and with known operators is never refused for its form, and
  -- never for its operator.
  pub eval_predicate-IsSound :
      (p : Predicate)
      → IsSound p
      → Avoids invalid_predicate (eval_predicate go raw facts p)
        × Avoids invalid_operator (eval_predicate go raw facts p)
  eval_predicate-IsSound p s = (
    sound-Avoids go raw facts invalid_predicate p refl refl s,
    sound-Avoids go raw facts invalid_operator p refl refl s,
  )
