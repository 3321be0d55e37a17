-- ===== src/Rules/Evaluator/Errors.antt =====
-- Every error of `Evaluate` (internal/rules/evaluator.go) is permanent: the worker quarantines the event.
use kafka_simulate_rule.Prelude.{false, true, ◌≡◌}
use kafka_simulate_rule.Domain.Result.{Result, ok, err}
use kafka_simulate_rule.Domain.Errors.{rule_not_ready, evaluation_error, errors_is}
use kafka_simulate_rule.Domain.Result.Avoids.{Avoids}

-- If it is an error, it holds `ErrEvaluationError` and not `ErrRuleNotReady`.
abbrev pub IsEvaluation {ℓ} : {A : Type ℓ} → Result A → Type 0
IsEvaluation (ok a) = Unit
IsEvaluation (err e) = (errors_is e evaluation_error ≡ true) × (errors_is e rule_not_ready ≡ false)
