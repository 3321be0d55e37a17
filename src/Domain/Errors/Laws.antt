-- ===== src/Domain/Errors/Laws.antt =====
-- Laws of the error classes of internal/domain/errors.go.
use kafka_simulate_rule.Prelude.{
  String, ◌≡◌, refl, List, [], ◌∷◌, true, false, ◌||◌, ◌&&◌, some, arith,
}
use kafka_simulate_rule.Domain.Errors.{
  GoError, wrap, wrap_two, Sentinel, evaluation_error, rule_not_ready, errors_is, is_one_of,
  classify, is_retryable, is_permanent, not_ready_errors, evaluation_errors,
}

is_one_of-evaluation :
    (e : GoError) → errors_is e evaluation_error ≡ true → is_one_of e evaluation_errors ≡ true
unfolding is_one_of
is_one_of-evaluation e h = ground arith

is_one_of-not_ready :
    (e : GoError) → errors_is e rule_not_ready ≡ false → is_one_of e not_ready_errors ≡ false
unfolding is_one_of
is_one_of-not_ready e h = ground arith

-- An error whose tree holds `ErrEvaluationError`, and not `ErrRuleNotReady`, is permanent and is not
-- retryable, whatever else the tree holds.
pub evaluation-permanent :
    (e : GoError)
    → errors_is e evaluation_error ≡ true
    → errors_is e rule_not_ready ≡ false
    → (is_permanent (some e) ≡ true) × (is_retryable (some e) ≡ false)
unfolding is_permanent is_retryable classify
evaluation-permanent e h n = ground (arith, is_one_of-evaluation e h, is_one_of-not_ready e n)

-- No error is both permanent and retryable.
pub permanent-retryable : (e : GoError) → is_permanent (some e) && is_retryable (some e) ≡ false
unfolding is_permanent is_retryable classify
permanent-retryable e = ground arith

is_one_of-wrap_two :
    (m : String) (a b : GoError) (ts : List Sentinel)
    → is_one_of (wrap_two m a b) ts ≡ (is_one_of a ts || is_one_of b ts)
unfolding is_one_of errors_is
is_one_of-wrap_two m a b [] = refl
is_one_of-wrap_two m a b (t ∷ ts) = ground (arith, is_one_of-wrap_two m a b ts)

is_one_of-wrap :
    (m : String) (e : GoError) (ts : List Sentinel) → is_one_of (wrap m e) ts ≡ is_one_of e ts
unfolding is_one_of errors_is
is_one_of-wrap m e [] = refl
is_one_of-wrap m e (t ∷ ts) = ground (arith, is_one_of-wrap m e ts)
