-- ===== src/Rules/Compiler/Sound.antt =====
-- What a compiled revision (internal/rules/compiler.go) promises to the evaluator.
use kafka_simulate_rule.Prelude.{
  All-imp, ◌≢◌, AllPairs, length, ◌≤◌, ◌<◌, ◌≡◌, List, [], ◌∷◌, String, arith, none, some, Perm,
  map, sym, subst, All,
}
use kafka_simulate_rule.Domain.Result.{ok}
use kafka_simulate_rule.Domain.Values.{Runtime}
use kafka_simulate_rule.Rules.Validation.{validate_predicate, Limits}
use kafka_simulate_rule.Domain.Rule.{RuleRevision, CompiledRule}
use kafka_simulate_rule.Rules.Compiler.{
  sort_rules, RawRuleSet, compile, compiled_of, Decoder, validate_rule_actions, RawRule,
}
use kafka_simulate_rule.Domain.Event.{Time}
use kafka_simulate_rule.Rules.Predicate.Errors.{eval_predicate-IsSound, IsSound}
use kafka_simulate_rule.Rules.Validation.Laws.{nesting, validate_predicate-IsSound}
use kafka_simulate_rule.Domain.Result.Avoids.{Avoids}
use kafka_simulate_rule.Rules.Compiler.Order.{
  sort_rules-perm, sort_rules-Apart, names-Apart, sort_rules-IsDescending, sort_rules-All,
  IsDescending,
}
use kafka_simulate_rule.Rules.Compiler.Inversion.{compile-Stages}
use kafka_simulate_rule.Domain.Errors.{invalid_operator, invalid_predicate}
use kafka_simulate_rule.Rules.Predicate.{eval_predicate}

-- A compiled rule that the evaluator handles without refusing it.
pub record IsSafe (limits : Limits) (r : CompiledRule) : Type 0 where
  pub sound : IsSound r.condition
  pub nested : nesting r.condition ≤ limits.max_nesting_depth
  pub has_action : 0 < length r.actions
  pub few_actions : length r.actions ≤ limits.max_actions_per_set
  pub few_otherwise : length r.otherwise ≤ limits.max_actions_per_set

module _ (go : Runtime) (limits : Limits) where
  actions-bounds :
      (rule : RawRule)
      → validate_rule_actions go limits rule ≡ none
      → (validate_predicate limits.max_nesting_depth 0 rule.condition ≡ none)
        × (0 < length rule.actions)
        × (length rule.actions ≤ limits.max_actions_per_set)
        × (length rule.otherwise ≤ limits.max_actions_per_set)
  unfolding validate_rule_actions
  actions-bounds rule h = ground arith

  compiled_of-IsSafe :
      (rule : RawRule)
      → validate_rule_actions go limits rule ≡ none
      → IsSafe limits (compiled_of go limits rule)
  compiled_of-IsSafe rule h =
      let (v, pos_, few, others) = actions-bounds rule h in
      let (sound, nested) = validate_predicate-IsSound limits.max_nesting_depth rule.condition v in
      record {
        sound = sound;
        nested = nested;
        has_action = pos_;
        few_actions = few;
        few_otherwise = others;
      }

  All-compiled-IsSafe :
      (raw : List RawRule)
      → All (λ r. validate_rule_actions go limits r ≡ none) raw
      → All (IsSafe limits) (map (compiled_of go limits) raw)
  All-compiled-IsSafe [] h = tt
  All-compiled-IsSafe (r ∷ raw) h = (compiled_of-IsSafe r h.0, All-compiled-IsSafe raw h.1)

  module _ (decoder : Decoder) (source : String) (now : Time) (rev : RuleRevision) where
    -- The rules of a compiled revision are those of the source, no more and no fewer, by falling
    -- priority, and no two have the same name.
    pub compile-ordered :
        compile go decoder limits source now ≡ ok rev
        → IsDescending rev.compiled
          × AllPairs (λ x y. x.id ≢ y.id) rev.compiled
          × ((rs : RawRuleSet) × (raw : List RawRule) × (decoder.decode_rule_set source ≡ some rs)
              × (decoder.decode_rules rs.rules ≡ some raw)
              × Perm rev.compiled (map (compiled_of go limits) raw))
    compile-ordered h =
        let s = compile-Stages go decoder limits source now rev h in
        (
          subst IsDescending (sym s.rules) (sort_rules-IsDescending s.cs s.built.apart),
          subst (AllPairs (λ (x y : CompiledRule). x.id ≢ y.id)) (sym s.rules)
              (names-Apart (sort_rules s.cs) (sort_rules-Apart s.cs s.built.apart)),
          (
            s.rs,
            s.raw,
            s.decoded,
            s.decoded_rules,
            subst (λ (xs : List CompiledRule). Perm xs (map (compiled_of go limits) s.raw))
                (sym s.rules)
                (subst (λ (xs : List CompiledRule). Perm (sort_rules s.cs) xs) s.built.same
                  (sort_rules-perm s.cs)),
          ),
        )

    -- Every rule of a compiled revision is safe: no nil operand, known operators, bounded nesting,
    -- at least one action, and no more actions than the limit in either branch.
    pub compile-IsSafe :
        compile go decoder limits source now ≡ ok rev → All (IsSafe limits) rev.compiled
    compile-IsSafe h =
        let s = compile-Stages go decoder limits source now rev h in
        subst (All (IsSafe limits)) (sym s.rules) (
          sort_rules-All (IsSafe limits) s.cs (
            subst (All (IsSafe limits)) (sym s.built.same)
              (All-compiled-IsSafe s.raw s.built.passed)))

    -- So no rule of a compiled revision is refused at evaluation for its form or its operator, on any
    -- event and any facts.
    pub compile-evaluates :
        compile go decoder limits source now ≡ ok rev
        → (data_ : String) (facts : List (String × String))
        → All
            (λ r.
              Avoids invalid_predicate (eval_predicate go data_ facts r.condition)
              × Avoids invalid_operator (eval_predicate go data_ facts r.condition))
            rev.compiled
    compile-evaluates h data_ facts =
        All-imp rev.compiled
          (λ r safe. eval_predicate-IsSound go data_ facts r.condition safe.sound)
          (compile-IsSafe h)
