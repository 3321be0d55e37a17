-- ===== src/Rules/Compiler/Decisive.antt =====
-- In a compiled `first_match` revision (internal/rules) one rule decides.
use kafka_simulate_rule.Prelude.{
  inr, inl, Bool-cases, ◌++◌, if◌then◌else◌, length, ◌≡◌, List, [], ◌∷◌, String, arith, true, refl,
  ◌∙◌, append-nil,
}
use kafka_simulate_rule.Domain.Values.{Runtime}
use kafka_simulate_rule.Domain.Rule.{Decision, Action, CompiledRule, RuleRevision}
use kafka_simulate_rule.Domain.Event.{Time, EventEnvelope}
use kafka_simulate_rule.Rules.Evaluator.Meaning.{
  evaluate-considered, identities, branch, holds, considered, action_ids, branch_ids,
}
use kafka_simulate_rule.Rules.Compiler.{compile, Decoder, otherwise_only_last}
use kafka_simulate_rule.Rules.Evaluator.{evaluate, is_first_match}
use kafka_simulate_rule.Rules.Validation.{Limits}
use kafka_simulate_rule.Domain.Result.{ok}
use kafka_simulate_rule.Rules.Compiler.Inversion.{compile-Stages}

module _ (go : Runtime) (revision : RuleRevision) (event : EventEnvelope)
    (facts : List (String × String)) where
  -- The effects of the first rule that holds, or of the last rule's `otherwise` if none does.
  pub decisive_ids : List CompiledRule → List String
  decisive_ids [] = []
  decisive_ids (r ∷ []) =
      action_ids go revision event r.id 0
        (branch go revision event (r, holds go revision event facts r))
  decisive_ids (r ∷ s ∷ rs) =
      let rest = decisive_ids (s ∷ rs) in
      if holds go revision event facts r
      then action_ids go revision event r.id 0 r.actions
      else rest

  abbrev effects_of : List CompiledRule → List String
  effects_of rs = branch_ids go revision event (considered go revision event facts rs)

  effects-cons :
      (r : CompiledRule) (rs : List CompiledRule)
      → is_first_match revision.match_mode ≡ true
      → effects_of (r ∷ rs) ≡ (
          if holds go revision event facts r
          then action_ids go revision event r.id 0 r.actions ++ []
          else action_ids go revision event r.id 0 r.otherwise ++ effects_of rs)
  unfolding branch_ids considered
  effects-cons r rs m = elim (Bool-cases (holds go revision event facts r)) [
    | inl t ↦ rw (t, m)
    | inr f ↦ rw (f, m)
  ]

  no_actions :
      (rule_id : String) (as_ : List Action)
      → length as_ ≡ 0
      → action_ids go revision event rule_id 0 as_ ≡ []
  unfolding action_ids
  no_actions rule_id [] h = refl
  no_actions rule_id (a ∷ as_) h = absurd (omega arith)

  decisive-effects :
      (rs : List CompiledRule)
      → is_first_match revision.match_mode ≡ true
      → otherwise_only_last rs ≡ true
      → effects_of rs ≡ decisive_ids rs
  unfolding decisive_ids otherwise_only_last
  decisive-effects [] m h = unfold branch_ids considered in refl
  decisive-effects (r ∷ []) m h =
      effects-cons r [] m ∙ elim (Bool-cases (holds go revision event facts r)) [
        | inl t ↦ rw t (append-nil (action_ids go revision event r.id 0 r.actions))
        | inr f ↦ rw f (
            unfold branch_ids considered in
            append-nil (action_ids go revision event r.id 0 r.otherwise))
      ]
  decisive-effects (r ∷ s ∷ rs) m h =
      effects-cons r (s ∷ rs) m ∙ elim (Bool-cases (holds go revision event facts r)) [
        | inl t ↦ rw t (append-nil (action_ids go revision event r.id 0 r.actions))
        | inr f ↦
            rw (f, no_actions r.id r.otherwise (ground arith))
              (decisive-effects (s ∷ rs) m (ground arith))
      ]

module _ (go : Runtime) (decoder : Decoder) (limits : Limits) (source : String) (then_ : Time) where
  -- A decision under a compiled `first_match` revision has the effects of one rule alone: those of
  -- `then` of the first rule that holds, or those of `otherwise` of the last rule if none holds.
  pub evaluate-decisive :
      (rev : RuleRevision) (event : EventEnvelope) (now : Time) (facts : List (String × String))
      (d : Decision)
      → compile go decoder limits source then_ ≡ ok rev
      → is_first_match rev.match_mode ≡ true
      → evaluate go rev event now facts ≡ ok d
      → identities d.effects ≡ decisive_ids go rev event facts rev.compiled
  evaluate-decisive rev event now facts d c m e =
      let s = compile-Stages go decoder limits source then_ rev c in
      (evaluate-considered go rev event now facts d e).1
      ∙ decisive-effects go rev event facts rev.compiled m (s.last_only m)
