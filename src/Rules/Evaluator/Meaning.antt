-- ===== src/Rules/Evaluator/Meaning.antt =====
-- What a decision of `Evaluate` (internal/rules/evaluator.go) is, said without its loops: which rules
-- are considered, which of them match, and which effects they have.
use kafka_simulate_rule.Prelude.{
  subst, Bool-cases, sym, inr, inl, map-append, Option-cases, ◌&&◌, if◌then◌else◌, true, false, ℕ,
  ◌+◌, ◌≡◌, List, [], ◌∷◌, ◌++◌, String, some, arith, ◌∙◌, map, append_assoc, append-nil, Bool,
}
use kafka_simulate_rule.Domain.Result.{Result, ok, err, with_context}
use kafka_simulate_rule.Domain.Values.{Runtime}
use kafka_simulate_rule.Domain.Rule.{
  Decision, EmitEventAction, RuleExplanation, Effect, Action, CompiledRule, RuleRevision,
}
use kafka_simulate_rule.Domain.Event.{Time, EventEnvelope}
use kafka_simulate_rule.Rules.Effects.{
  build_child_event_envelope, describe_action, resolve_emit_event_partition_key, encode_child,
  blank_effect, build_emit_event_effect, build_effect, fill_effect, effect_id, build_command_effect,
  build_emit_effect,
}
use kafka_simulate_rule.Rules.Predicate.{eval_predicate}
use kafka_simulate_rule.Rules.Evaluator.{
  no_outcome, evaluate, failed_rule, verdict, explain, evaluate_rules, process_rule_result, Outcome,
  failed_action, run_actions, is_first_match,
}
use kafka_simulate_rule.Domain.Result.Inversion.{ok-injective, with_context-eq-ok, >>=-eq-ok}
use kafka_simulate_rule.Domain.Errors.{wrap}
use kafka_simulate_rule.Rules.Template.{interpolate_templates}
use kafka_simulate_rule.Domain.Identity.{compute_decision_hash, compute_child_event_id}

-- The rules that hold, among those considered.
unfoldable pub hits : List (CompiledRule × Bool) → List String
hits [] = []
hits ((rule, b) ∷ rest) = if b then rule.id ∷ hits rest else hits rest

abbrev pub identities : List Effect → List String
identities = map (λ e. e.id)

abbrev pub explained : List RuleExplanation → List (String × Bool)
explained = map (λ x. (x.rule_id, x.matched))

abbrev pub outlined : List (CompiledRule × Bool) → List (String × Bool)
outlined = map (λ c. (c.0.id, c.1))

explained-append :
    (xs ys : List RuleExplanation) → explained (xs ++ ys) ≡ explained xs ++ explained ys
explained-append xs ys = map-append _ xs ys

module _ (go : Runtime) (revision : RuleRevision) (event : EventEnvelope) where
  -- The identities of the effects of a list of actions, the first of which has index `i`.
  unfoldable pub action_ids : String → ℕ → List Action → List String
  action_ids rule_id i [] = []
  action_ids rule_id i (a ∷ as_) =
      effect_id go revision event rule_id i ∷ action_ids rule_id (i + 1) as_

  abbrev pub branch : CompiledRule × Bool → List Action
  branch (rule, true) = rule.actions
  branch (rule, false) = rule.otherwise

  abbrev answer : Result Bool → Bool
  answer (ok b) = b
  answer (err e) = false

  module _ (facts : List (String × String)) where
    -- Does the rule's predicate hold of the event?
    unfoldable pub holds : CompiledRule → Bool
    holds rule = answer (eval_predicate go event.payload facts rule.condition)

    -- The rules that are looked at: all of them, or those up to the first that holds.
    unfoldable pub considered : List CompiledRule → List (CompiledRule × Bool)
    considered [] = []
    considered (rule ∷ rules) =
        (rule, holds rule)
        ∷ (let rest = considered rules in
            if is_first_match revision.match_mode && holds rule then [] else rest)

  unfoldable pub branch_ids : List (CompiledRule × Bool) → List String
  branch_ids [] = []
  branch_ids ((rule, b) ∷ rest) = action_ids rule.id 0 (branch (rule, b)) ++ branch_ids rest

  encode_child-id :
      (effect e : Effect) (a : EmitEventAction) (child : EventEnvelope)
      → encode_child go effect a child ≡ ok e
      → e.id ≡ effect.id
  encode_child-id effect e a child h = ground arith

  build_emit_event_effect-id :
      (effect e : Effect) (rule_id : String) (i : ℕ) (a : EmitEventAction) (now : Time)
      → build_emit_event_effect go effect event rule_id i a now ≡ ok e
      → e.id ≡ effect.id
  unfolding build_emit_event_effect
  build_emit_event_effect-id effect e rule_id i a now h =
      let (key, hk, h1) = >>=-eq-ok (resolve_emit_event_partition_key go a event) _ h in
      let (raw, hr, h2) =
        >>=-eq-ok
          (with_context (wrap "interpolate templates: ") (
            interpolate_templates go a.payload (some event)
              (compute_child_event_id go event.id rule_id i) now))
          _ h1 in
      encode_child-id effect e a
        (build_child_event_envelope event a (compute_child_event_id go event.id rule_id i) key raw
          now)
        h2

  fill_effect-id :
      (effect e : Effect) (rule_id : String) (i : ℕ) (a : Action) (now : Time)
      → fill_effect go effect event rule_id i a now ≡ ok e
      → e.id ≡ effect.id
  unfolding build_emit_effect build_command_effect
  fill_effect-id effect e rule_id i a now h = elim (Option-cases a.emit_event) [
    | inl n ↦ ground arith
    | inr (x, n) ↦ ground (arith, build_emit_event_effect-id effect e rule_id i x now)
  ]

  build_effect-id :
      (e : Effect) (rule_id : String) (i : ℕ) (a : Action) (now : Time)
      → build_effect go revision event rule_id i a now ≡ ok e
      → e.id ≡ effect_id go revision event rule_id i
  unfolding build_effect
  build_effect-id e rule_id i a now h =
      let effect = blank_effect go (effect_id go revision event rule_id i) in
      let (filled, hf, he) = >>=-eq-ok (fill_effect go effect event rule_id i a now) _ h in
      ground (arith, fill_effect-id effect filled rule_id i a now hf)

  identities-append : (xs ys : List Effect) → identities (xs ++ ys) ≡ identities xs ++ identities ys
  identities-append xs ys = map-append _ xs ys

  run_actions-identities :
      (now : Time) (rule_id label : String) (i : ℕ) (as_ : List Action) (effects : List Effect)
      (ds : List String) (d : List Effect × List String)
      → run_actions go revision event now rule_id label i as_ (effects, ds) ≡ ok d
      → identities d.0 ≡ identities effects ++ action_ids rule_id i as_
  unfolding run_actions action_ids
  run_actions-identities now rule_id label i [] effects ds d h =
      ground (arith, append-nil (identities effects))
  run_actions-identities now rule_id label i (a ∷ as_) effects ds d h =
      let (e, he, hr) =
        >>=-eq-ok
          (with_context (failed_action go revision event now rule_id label i)
            (build_effect go revision event rule_id i a now))
          _ h in
      let hid =
        build_effect-id e rule_id i a now
          (with_context-eq-ok _ (build_effect go revision event rule_id i a now) he) in
      let ih =
        run_actions-identities now rule_id label (i + 1) as_ (effects ++ e ∷ [])
          (ds ++ describe_action a ∷ []) d hr in
      ih ∙ simp (map-append, hid, append_assoc)

  -- What the considered rules `cs` add to the three slices.
  pub record Adds (cs : List (CompiledRule × Bool)) (out out' : Outcome) : Type 0 where
    pub matches : out'.matched ≡ out.matched ++ hits cs
    pub effect_ids : identities out'.effects ≡ identities out.effects ++ branch_ids cs
    pub explains : explained out'.explanations ≡ explained out.explanations ++ outlined cs

  Adds-nil : (out : Outcome) → Adds [] out out
  unfolding hits branch_ids
  Adds-nil out = record {
    matches = sym (append-nil _);
    effect_ids = sym (append-nil _);
    explains = sym (append-nil _);
  }

  Adds-cons :
      (rule : CompiledRule) (b : Bool) (cs : List (CompiledRule × Bool)) (out mid out' : Outcome)
      → Adds ((rule, b) ∷ []) out mid
      → Adds cs mid out'
      → Adds ((rule, b) ∷ cs) out out'
  unfolding hits branch_ids
  Adds-cons rule true cs out mid out' h k = record {
    matches = k.matches ∙ simp (h.matches, append_assoc);
    effect_ids = k.effect_ids ∙ simp (h.effect_ids, append_assoc, append-nil);
    explains = k.explains ∙ simp (h.explains, append_assoc);
  }
  Adds-cons rule false cs out mid out' h k = record {
    matches = k.matches ∙ simp (h.matches, append-nil);
    effect_ids = k.effect_ids ∙ simp (h.effect_ids, append_assoc, append-nil);
    explains = k.explains ∙ simp (h.explains, append_assoc);
  }

  process_rule_result-Adds :
      (now : Time) (rule : CompiledRule) (b : Bool) (out out' : Outcome)
      → process_rule_result go revision event now rule b out ≡ ok out'
      → Adds ((rule, b) ∷ []) out out'
  unfolding process_rule_result hits branch_ids
  process_rule_result-Adds now rule true out out' h =
      let (d, hd, ho) =
        >>=-eq-ok
          (run_actions go revision event now rule.id " action " 0 rule.actions (out.effects, [])) _
          h in
      let hi = run_actions-identities now rule.id " action " 0 rule.actions out.effects [] d hd in
      record {
        matches = ground arith;
        effect_ids = ground (arith, append-nil (action_ids rule.id 0 rule.actions));
        explains = ground (
          arith,
          explained-append out.explanations
              (explain go revision event now rule true "predicate matched" d.1 ∷ []),
        );
      }
  process_rule_result-Adds now rule false out out' h =
      let (d, hd, ho) =
        >>=-eq-ok
          (run_actions go revision event now rule.id " otherwise action " 0 rule.otherwise
            (out.effects, []))
          _ h in
      let hi =
        run_actions-identities now rule.id " otherwise action " 0 rule.otherwise out.effects [] d
          hd in
      record {
        matches = ground (arith, append-nil out.matched);
        effect_ids = ground (arith, append-nil (action_ids rule.id 0 rule.otherwise));
        explains = ground (
          arith,
          explained-append out.explanations
              (explain go revision event now rule false "predicate did not match" d.1 ∷ []),
        );
      }

  module _ (now : Time) (facts : List (String × String)) where
    verdict-holds :
        (rule : CompiledRule) (b : Bool)
        → verdict go revision event now facts rule ≡ ok b
        → holds facts rule ≡ b
    unfolding holds
    verdict-holds rule b h = rw (
        with_context-eq-ok (failed_rule go revision event now facts rule.id)
          (eval_predicate go event.payload facts rule.condition) h)

    abbrev stops : Bool → Bool
    stops b = is_first_match revision.match_mode && b

    rest-Adds :
        (rule : CompiledRule) (b : Bool) (rules : List CompiledRule) (out mid out' : Outcome)
        → Adds ((rule, b) ∷ []) out mid
        → (evaluate_rules go revision event now facts rules mid ≡ ok out'
            → Adds (considered facts rules) mid out')
        → (if stops b then ok mid else evaluate_rules go revision event now facts rules mid)
          ≡ ok out'
        → Adds ((rule, b) ∷ (if stops b then [] else considered facts rules)) out out'
    rest-Adds rule b rules out mid out' one ih h = elim (Bool-cases (stops b)) [
      | inl s ↦ rw s (subst (Adds ((rule, b) ∷ []) out) (ok-injective (rw s at h)) one)
      | inr s ↦ rw s (Adds-cons rule b (considered facts rules) out mid out' one (ih (rw s at h)))
    ]

    evaluate_rules-Adds :
        (rules : List CompiledRule) (out out' : Outcome)
        → evaluate_rules go revision event now facts rules out ≡ ok out'
        → Adds (considered facts rules) out out'
    unfolding evaluate_rules considered
    evaluate_rules-Adds [] out out' h = subst (Adds [] out) (ok-injective h) (Adds-nil out)
    evaluate_rules-Adds (rule ∷ rules) out out' h =
        let (b, hb, h1) = >>=-eq-ok (verdict go revision event now facts rule) _ h in
        let (mid, hm, h2) = >>=-eq-ok (process_rule_result go revision event now rule b out) _ h1 in
        subst (λ x. Adds ((rule, x) ∷ (if stops x then [] else considered facts rules)) out out')
          (sym (verdict-holds rule b hb))
          (rest-Adds rule b rules out mid out' (process_rule_result-Adds now rule b out mid hm)
            (evaluate_rules-Adds rules mid out') h2)

    -- A decision of `Evaluate` is the one that the considered rules make: its matched rules are those
    -- that hold, in order; its effects are those of `then` for a rule that holds and of `otherwise`
    -- for one that does not, each under the identity of its rule and index; there is one explanation
    -- for each considered rule, with its answer; and the hash is that of these matches and effects.
    -- Considered are all rules, or in the mode `first_match` those up to the first that holds.
    pub evaluate-considered :
        (d : Decision)
        → evaluate go revision event now facts ≡ ok d
        → let cs = considered facts revision.compiled in
          (d.matched_rules ≡ hits cs)
          × (identities d.effects ≡ branch_ids cs)
          × (explained d.explanations ≡ outlined cs)
          × (d.hash
              ≡ compute_decision_hash go revision.content_hash event.id "" (hits cs) d.effects)
    unfolding evaluate
    evaluate-considered d h =
        let (out, ho, hd) =
          >>=-eq-ok (evaluate_rules go revision event now facts revision.compiled no_outcome) _ h in
        let a = evaluate_rules-Adds revision.compiled no_outcome out ho in
        (
          ground (arith, a.matches),
          ground (arith, a.effect_ids),
          ground (arith, a.explains),
          ground (arith, a.matches),
        )
