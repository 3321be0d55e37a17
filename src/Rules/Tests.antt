-- ===== src/Rules/Tests.antt =====
-- The theorems about internal/rules at the small rule set.
use kafka_simulate_rule.Prelude.{
  map, Perm, ◌≡◌, ◌≢◌, refl, List, [], true, none, some, String, arith, eq_iff, All, AllPairs,
}
use kafka_simulate_rule.Domain.Result.{err}
use kafka_simulate_rule.Rules.Compiler.Order.{IsDescending}
use kafka_simulate_rule.Rules.Predicate.{unresolved, eval_predicate}
use kafka_simulate_rule.Domain.Rule.{done, lt, pointer, next, CompiledRule, valid_op, Pointers}
use kafka_simulate_rule.Rules.Compiler.Sound.{
  compile-ordered, compile-evaluates, compile-IsSafe, IsSafe,
}
use kafka_simulate_rule.Rules.Samples.{
  compile-orders, order_source, small_order, big_order, small_decoder, evaluate-orders, order_event,
  small_go, decision_at, orders,
}
use kafka_simulate_rule.Rules.Evaluator.Meaning.{
  evaluate-considered, outlined, explained, branch_ids, hits, identities, considered,
}
use kafka_simulate_rule.Domain.Event.{EventEnvelope}
use kafka_simulate_rule.Domain.Errors.{
  invalid_fact_path, errors_is, message, wrap, invalid_operator, invalid_predicate, GoError,
}
use kafka_simulate_rule.Rules.Path.{after_root}
use kafka_simulate_rule.Rules.Compiler.Decisive.{evaluate-decisive, decisive_ids}
use kafka_simulate_rule.Rules.Evaluator.Replay.{evaluate_replay}
use kafka_simulate_rule.Domain.Result.Avoids.{Avoids}
use kafka_simulate_rule.Rules.Validation.{default_limits, validate_predicate}
use kafka_simulate_rule.Rules.Evaluator.{is_first_match, failed_rule}
use kafka_simulate_rule.Rules.Compiler.{compiled_of, RawRule, RawRuleSet}
use kafka_simulate_rule.Rules.Predicate.Laws.{negate-negate, negate}
use kafka_simulate_rule.Rules.Compiler.Paths.{unrooted-fails, unrooted_leaf}
use kafka_simulate_rule.Domain.Values.{float64}
use kafka_simulate_rule.Domain.Identity.{compute_decision_hash}

negate-negate_example :
    eval_predicate small_go order_event.payload [] (negate (pointer (negate (pointer big_order))))
    ≡ eval_predicate small_go order_event.payload [] big_order
negate-negate_example = negate-negate small_go order_event.payload [] big_order

abbrev two : Pointers
two = next (pointer big_order) (next (pointer small_order) done)

evaluate-considered_example :
    let cs = considered small_go orders order_event [] orders.compiled in
    ((decision_at 9).matched_rules ≡ hits cs)
    × (identities (decision_at 9).effects ≡ branch_ids small_go orders order_event cs)
    × (explained (decision_at 9).explanations ≡ outlined cs)
    × ((decision_at 9).hash
        ≡ compute_decision_hash small_go orders.content_hash order_event.id ""
            (hits cs)
            (decision_at 9).effects)
evaluate-considered_example =
    evaluate-considered small_go orders order_event 9 [] (decision_at 9) (evaluate-orders 9)

evaluate_replay_example :
    ((decision_at 9).matched_rules ≡ (decision_at 20).matched_rules)
    × (identities (decision_at 9).effects ≡ identities (decision_at 20).effects)
    × ((decision_at 9).hash ≡ (decision_at 20).hash)
evaluate_replay_example =
    evaluate_replay small_go orders order_event [] 9 20 (decision_at 9) (decision_at 20)
      (evaluate-orders 9) (evaluate-orders 20)

orders_first_match : is_first_match orders.match_mode ≡ true
unfolding orders
orders_first_match = refl

evaluate-decisive_example :
    identities (decision_at 9).effects ≡ decisive_ids small_go orders order_event [] orders.compiled
evaluate-decisive_example =
    evaluate-decisive small_go small_decoder default_limits order_source 5 orders order_event 9 []
      (decision_at 9) compile-orders orders_first_match (evaluate-orders 9)

compile-ordered_example :
    IsDescending orders.compiled
    × AllPairs (λ (x y : CompiledRule). x.id ≢ y.id) orders.compiled
    × ((rs : RawRuleSet) × (raw : List RawRule) × (small_decoder.decode_rule_set order_source
          ≡ some rs)
        × (small_decoder.decode_rules rs.rules ≡ some raw)
        × Perm orders.compiled (map (compiled_of small_go default_limits) raw))
compile-ordered_example =
    compile-ordered small_go default_limits small_decoder order_source 5 orders compile-orders

compile-IsSafe_example : All (IsSafe default_limits) orders.compiled
compile-IsSafe_example =
    compile-IsSafe small_go default_limits small_decoder order_source 5 orders compile-orders

compile-evaluates_example :
    All
      (λ (r : CompiledRule).
        Avoids invalid_predicate (eval_predicate small_go "null" [] r.condition)
        × Avoids invalid_operator (eval_predicate small_go "null" [] r.condition))
      orders.compiled
compile-evaluates_example =
    compile-evaluates small_go default_limits small_decoder order_source 5 orders compile-orders
      "null" []

-- An event whose data is not JSON.
abbrev broken_event : EventEnvelope
broken_event = record order_event { payload = "{" }

abbrev broken_error : GoError
broken_error =
    failed_rule small_go orders broken_event 9 [] "big"
      (unresolved small_go "{" [] "$.total" (wrap "unmarshal data: " (message "bad JSON")))

not_empty : ◌≢◌ {A = String} "total" ""
not_empty = ground (arith, eq_iff "total" "")

unrooted_total : after_root "total" ≡ none
unfolding after_root
unrooted_total = refl

unrooted-fails_example :
    (validate_predicate 10 0 (unrooted_leaf "total" lt (float64 500)) ≡ none)
    × ((raw : String) (facts : List (String × String))
        → (e : GoError) × (eval_predicate small_go raw facts
              (unrooted_leaf "total" lt (float64 500))
            ≡ err e)
          × (errors_is e invalid_fact_path ≡ true))
unfolding valid_op
unrooted-fails_example =
    unrooted-fails small_go 10 "total" lt (float64 500) not_empty unrooted_total refl
