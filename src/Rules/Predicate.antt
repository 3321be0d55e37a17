-- ===== src/Rules/Predicate.antt =====
-- internal/rules/evaluator.go: the evaluation of a predicate over the event's data and the facts.
pub mod Laws
pub mod Errors
use kafka_simulate_rule.Prelude.{Bool, true, false, not, if◌then◌else◌, List, String, ◌<>◌}
use kafka_simulate_rule.Domain.Errors.{
  GoError, wrap, sentinel, evaluation_error, invalid_predicate, wrap_two,
}
use kafka_simulate_rule.Domain.Result.{Result, ok, err, ◌>>=◌, with_context}
use kafka_simulate_rule.Domain.Values.{Value, is_null, Runtime}
use kafka_simulate_rule.Domain.Rule.{
  Predicate, predicate, nil_slice, slice, Pointers, done, next, nil_pointer, pointer, Operator,
  exists, not_exists,
}
use kafka_simulate_rule.Rules.Path.{resolve_path}
use kafka_simulate_rule.Rules.Compare.{evaluate_leaf_value}

module _ (go : Runtime) (raw : String) (facts : List (String × String)) where
  -- A leaf whose path is resolved.
  abbrev pub decide_leaf : Operator → Value → Value → Result Bool
  decide_leaf exists v expected = ok (not (is_null v))
  decide_leaf not_exists v expected = ok (is_null v)
  decide_leaf op v expected = if is_null v then ok false else evaluate_leaf_value go op v expected

  abbrev pub unresolved : String → GoError → GoError
  unresolved path e =
      wrap_two "" (sentinel evaluation_error)
        (wrap ("resolve predicate path " <> (go.quote path <> ": ")) e)

  unfoldable pub eval_leaf : String → Operator → Value → Result Bool
  eval_leaf path op expected = do
    v ← with_context (unresolved path) (resolve_path go path raw facts)
    decide_leaf op v expected

  unfoldable mutual
    pub eval_predicate : Predicate → Result Bool
    eval_predicate (predicate (slice ps) any negated path op v) = eval_all ps
    eval_predicate (predicate nil_slice (slice ps) negated path op v) = eval_any ps
    eval_predicate (predicate nil_slice nil_slice (pointer p) path op v) =
        eval_predicate p >>= λ m. ok (not m)
    eval_predicate (predicate nil_slice nil_slice nil_pointer path op v) = eval_leaf path op v

    pub eval_all : Pointers → Result Bool
    eval_all done = ok true
    eval_all (next nil_pointer ps) = err (sentinel invalid_predicate)
    eval_all (next (pointer p) ps) = eval_predicate p >>= λ m. if m then eval_all ps else ok false

    pub eval_any : Pointers → Result Bool
    eval_any done = ok false
    eval_any (next nil_pointer ps) = eval_any ps
    eval_any (next (pointer p) ps) = eval_predicate p >>= λ m. if m then ok true else eval_any ps
