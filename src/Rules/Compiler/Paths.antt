-- ===== src/Rules/Compiler/Paths.antt =====
-- Paths without their `$.`: `validatePredicate` (internal/rules/compiler.go) lets them pass, and
-- `resolvePath` (internal/rules/evaluator.go) refuses them.
use kafka_simulate_rule.Prelude.{[], eq_iff, ℕ, ◌≡◌, ◌≢◌, List, String, none, true, refl, arith}
use kafka_simulate_rule.Domain.Result.{err}
use kafka_simulate_rule.Domain.Rule.{
  nil_pointer, nil_slice, predicate, valid_op, Predicate, Operator,
}
use kafka_simulate_rule.Rules.Validation.{validate_predicate}
use kafka_simulate_rule.Domain.Values.{Runtime, Value}
use kafka_simulate_rule.Rules.Path.{resolve_path, after_root}
use kafka_simulate_rule.Domain.Errors.{sentinel, invalid_fact_path, errors_is, GoError}
use kafka_simulate_rule.Rules.Predicate.{unresolved, eval_leaf, eval_predicate}

abbrev pub unrooted_leaf : String → Operator → Value → Predicate
unrooted_leaf path op v = predicate nil_slice nil_slice nil_pointer path op v

abbrev unrooted_error : Runtime → String → GoError
unrooted_error go path = unresolved go "" [] path (sentinel invalid_fact_path)

unrooted :
    (go : Runtime) (path : String) (op : Operator) (v : Value) (raw : String)
    (facts : List (String × String))
    → after_root path ≡ none
    → eval_predicate go raw facts (unrooted_leaf path op v) ≡ err (unrooted_error go path)
unfolding eval_predicate eval_leaf resolve_path
unrooted go path op v raw facts r = rw (r, resolve_path)

unrooted-is :
    (go : Runtime) (path : String) → errors_is (unrooted_error go path) invalid_fact_path ≡ true
unfolding errors_is
unrooted-is go path = refl

-- A unrooted_leaf whose path is not empty and does not begin with `$.` is accepted by the compiler's
-- validation, and its evaluation is an error on every event and every set of facts.
pub unrooted-fails :
    (go : Runtime) (max_depth : ℕ) (path : String) (op : Operator) (v : Value)
    → path ≢ ""
    → after_root path ≡ none
    → valid_op op ≡ true
    → (validate_predicate max_depth 0 (unrooted_leaf path op v) ≡ none)
      × ((raw : String) (facts : List (String × String))
          → (e : GoError) × (eval_predicate go raw facts (unrooted_leaf path op v) ≡ err e)
            × (errors_is e invalid_fact_path ≡ true))
unfolding validate_predicate
unrooted-fails go max_depth path op v p r o = (
  ground (arith, eq_iff path ""),
  λ raw facts. (unrooted_error go path, unrooted go path op v raw facts r, unrooted-is go path),
)
