-- ===== src/Rules/Evaluator/Replay.antt =====
-- Evaluating an event again (internal/rules/evaluator.go), as after a redelivery: the clock has moved on.
use kafka_simulate_rule.Prelude.{◌≡◌, refl, List, [], ◌∷◌, String, ap, ◌∙◌, sym, ◌<>◌}
use kafka_simulate_rule.Domain.Result.{ok}
use kafka_simulate_rule.Domain.Values.{Runtime}
use kafka_simulate_rule.Domain.Rule.{Decision, RuleRevision, Effect}
use kafka_simulate_rule.Rules.Evaluator.Meaning.{considered, hits, evaluate-considered, identities}
use kafka_simulate_rule.Domain.Event.{Time, EventEnvelope}
use kafka_simulate_rule.Domain.Identity.{append_ids, compute_decision_hash, append_effect_ids}
use kafka_simulate_rule.Rules.Evaluator.{evaluate}

-- The hash reads nothing of an effect but its identity.
append_effect_ids-identities :
    (go : Runtime) (acc : String) (xs ys : List Effect)
    → identities xs ≡ identities ys
    → append_effect_ids go acc xs ≡ append_effect_ids go acc ys
append_effect_ids-identities go acc [] [] h = refl
append_effect_ids-identities go acc [] (y ∷ ys) h = cc
append_effect_ids-identities go acc (x ∷ xs) [] h = cc
append_effect_ids-identities go acc (x ∷ xs) (y ∷ ys) h =
    let e : x.id ≡ y.id = cc in
    let t : identities xs ≡ identities ys = cc in
    ap (λ a. append_effect_ids go (acc <> a) xs) e
    ∙ append_effect_ids-identities go (acc <> y.id) xs ys t

compute_decision_hash-identities :
    (go : Runtime) (revision_hash event_id facts_hash : String) (matched : List String)
    (xs ys : List Effect)
    → identities xs ≡ identities ys
    → compute_decision_hash go revision_hash event_id facts_hash matched xs
      ≡ compute_decision_hash go revision_hash event_id facts_hash matched ys
unfolding compute_decision_hash
compute_decision_hash-identities go r e f m xs ys h =
    ap (λ a. go.sha256_hex (a <> (e <> f)))
      (append_effect_ids-identities go (append_ids go r m) xs ys h)

module _ (go : Runtime) (revision : RuleRevision) (event : EventEnvelope)
    (facts : List (String × String)) where
  -- Two evaluations of one event under one revision, whatever the clock says at each, match the same
  -- rules, give effects with the same identities and have the same decision hash.
  pub evaluate_replay :
      (now later : Time) (d d' : Decision)
      → evaluate go revision event now facts ≡ ok d
      → evaluate go revision event later facts ≡ ok d'
      → (d.matched_rules ≡ d'.matched_rules)
        × (identities d.effects ≡ identities d'.effects)
        × (d.hash ≡ d'.hash)
  evaluate_replay now later d d' h h' =
      let (m, i, x, s) = evaluate-considered go revision event now facts d h in
      let (m', i', x', s') = evaluate-considered go revision event later facts d' h' in
      let same = i ∙ sym i' in
      (
        m ∙ sym m',
        same,
        s
            ∙ compute_decision_hash-identities go revision.content_hash event.id ""
                (hits (considered go revision event facts revision.compiled)) d.effects d'.effects
                same
            ∙ sym s',
      )
