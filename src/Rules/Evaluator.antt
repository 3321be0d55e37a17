-- ===== src/Rules/Evaluator.antt =====
-- internal/rules/evaluator.go: `Evaluate`, over the rules of a revision in the order of the compiler.
pub mod Errors
pub mod Meaning
pub mod Replay
pub mod FirstMatch
use kafka_simulate_rule.Prelude.{
  ℕ, ◌+◌, Bool, true, false, ◌&&◌, if◌then◌else◌, List, [], ◌∷◌, ◌++◌, String, ◌<>◌, pos,
}
use kafka_simulate_rule.Domain.Errors.{GoError, sentinel, evaluation_error, wrap_two}
use kafka_simulate_rule.Domain.Result.{Result, ok, ◌>>=◌, with_context}
use kafka_simulate_rule.Domain.Values.{Runtime}
use kafka_simulate_rule.Domain.Event.{EventEnvelope, Time}
use kafka_simulate_rule.Domain.Identity.{compute_decision_hash}
use kafka_simulate_rule.Domain.Rule.{
  Action, CompiledRule, Decision, Effect, MatchMode, first_match, RuleExplanation, RuleRevision,
}
use kafka_simulate_rule.Rules.Predicate.{eval_predicate}
use kafka_simulate_rule.Rules.Effects.{build_effect, describe_action}

-- The three slices that the loops append to.
pub record Outcome : Type 0 where
  pub matched : List String
  pub effects : List Effect
  pub explanations : List RuleExplanation

abbrev pub is_first_match : MatchMode → Bool
is_first_match first_match = true
is_first_match _ = false

abbrev pub no_outcome : Outcome
no_outcome = record { matched = []; effects = []; explanations = [] }

module _ (go : Runtime) (revision : RuleRevision) (event : EventEnvelope) (now : Time) where
  abbrev pub failed_action : String → String → ℕ → GoError → GoError
  failed_action rule_id label i =
      wrap_two ("rule " <> (rule_id <> (label <> (go.itoa (pos i) <> ": "))))
        (sentinel evaluation_error)

  -- The loop over `rule.Then` or `rule.Otherwise`, from the action with index `i`.
  unfoldable pub run_actions :
      String
      → String
      → ℕ
      → List Action
      → List Effect × List String
      → Result (List Effect × List String)
  run_actions rule_id label i [] done = ok done
  run_actions rule_id label i (a ∷ as_) (effects, actions) =
      with_context (failed_action rule_id label i) (build_effect go revision event rule_id i a now)
      >>= λ e.
          run_actions rule_id label (i + 1) as_
            (effects ++ e ∷ [], actions ++ describe_action a ∷ [])

  abbrev pub explain : CompiledRule → Bool → String → List String → RuleExplanation
  explain rule matched reason actions = record {
    rule_id = rule.id;
    rule_name = rule.name;
    matched = matched;
    priority = rule.priority;
    reason = reason;
    actions = actions;
  }

  unfoldable pub process_rule_result : CompiledRule → Bool → Outcome → Result Outcome
  unfolding run_actions
  process_rule_result rule true out =
      run_actions rule.id " action " 0 rule.actions (out.effects, []) >>= λ done. ok (record {
        matched = out.matched ++ rule.id ∷ [];
        effects = done.0;
        explanations = out.explanations ++ explain rule true "predicate matched" done.1 ∷ [];
      })
  process_rule_result rule false out =
      run_actions rule.id " otherwise action " 0 rule.otherwise (out.effects, []) >>= λ done.
      ok (record {
        matched = out.matched;
        effects = done.0;
        explanations = out.explanations ++ explain rule false "predicate did not match" done.1 ∷ [];
      })

  module _ (facts : List (String × String)) where
    abbrev pub failed_rule : String → GoError → GoError
    failed_rule rule_id = wrap_two ("rule " <> (rule_id <> ": ")) (sentinel evaluation_error)

    abbrev pub verdict : CompiledRule → Result Bool
    verdict rule =
        with_context (failed_rule rule.id) (eval_predicate go event.payload facts rule.condition)

    -- The loop of `evaluateRules`; `break` after the first match in the mode `first_match`.
    unfoldable pub evaluate_rules : List CompiledRule → Outcome → Result Outcome
    evaluate_rules [] out = ok out
    evaluate_rules (rule ∷ rules) out = verdict rule >>= λ matched.
        process_rule_result rule matched out >>= λ out'.
        let rest = evaluate_rules rules out' in
        if is_first_match revision.match_mode && matched then ok out' else rest

    unfoldable pub evaluate : Result Decision
    evaluate = evaluate_rules revision.compiled no_outcome >>= λ out. ok (record {
      matched_rules = out.matched;
      effects = out.effects;
      hash = compute_decision_hash go revision.content_hash event.id "" out.matched out.effects;
      explanations = out.explanations;
    })
