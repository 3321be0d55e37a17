-- ===== src/Rules/Evaluator/FirstMatch.antt =====
-- The mode `first_match` of internal/rules/evaluator.go.
use kafka_simulate_rule.Prelude.{if◌then◌else◌, ◌≡◌, refl, List, [], ◌∷◌, String, arith, true}
use kafka_simulate_rule.Domain.Values.{Runtime}
use kafka_simulate_rule.Domain.Rule.{CompiledRule, RuleRevision}
use kafka_simulate_rule.Domain.Event.{EventEnvelope}
use kafka_simulate_rule.Rules.Evaluator.Meaning.{holds, considered, hits}
use kafka_simulate_rule.Rules.Evaluator.{is_first_match}

module _ (go : Runtime) (revision : RuleRevision) (event : EventEnvelope)
    (facts : List (String × String)) where
  -- The first rule that holds.
  pub first_hit : List CompiledRule → List String
  first_hit [] = []
  first_hit (rule ∷ rules) =
      let rest = first_hit rules in
      if holds go revision event facts rule then rule.id ∷ [] else rest

  -- In the mode `first_match` the rules that count are the first rule that holds, or none.
  pub hits-first_hit :
      (rules : List CompiledRule)
      → is_first_match revision.match_mode ≡ true
      → hits (considered go revision event facts rules) ≡ first_hit rules
  unfolding hits considered first_hit
  hits-first_hit [] m = refl
  hits-first_hit (rule ∷ rules) m = ground (arith, hits-first_hit rules m)
