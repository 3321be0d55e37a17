-- ===== src/Domain/Identity.antt =====
-- internal/domain/types.go: the identities and hashes that are computed by SHA-256 of a
-- text. SHA-256 and the decimal form of a number are fields of the runtime.
pub mod Laws
use kafka_simulate_rule.Prelude.{ℕ, List, [], ◌∷◌, String, ◌<>◌, ℤ, pos, if◌then◌else◌}
use kafka_simulate_rule.Prelude
use kafka_simulate_rule.Domain.Values.{Runtime}
use kafka_simulate_rule.Domain.Event.{bytes}
use kafka_simulate_rule.Domain.Rule.{Effect}

abbrev pub bar : String
bar = "|"

module _ (go : Runtime) where
  open go use {sha256_hex, itoa}

  -- `%d:%s` with the length in bytes first.
  abbrev pub sized : String → String
  sized s = itoa (pos (Prelude.length (bytes s))) <> (":" <> s)

  unfoldable pub compute_execution_id : String → String → String → ℤ → String
  compute_execution_id tenant_id event_id rule_set revision = sha256_hex (
      "execution|"
      <> (sized tenant_id
          <> (bar <> (sized event_id <> (bar <> (sized rule_set <> (bar <> itoa revision)))))))

  unfoldable pub compute_effect_id : String → String → String → ℤ → String → ℕ → String
  compute_effect_id tenant_id event_id rule_set revision rule_id action_index = sha256_hex (
      tenant_id
      <> (bar
          <> (event_id
              <> (bar
                  <> (rule_set
                      <> (bar
                          <> (itoa revision
                              <> (bar <> (rule_id <> (bar <> itoa (pos action_index)))))))))))

  -- The loops of `ComputeDecisionHash` append to the revision's hash.
  abbrev pub append_ids : String → List String → String
  append_ids acc [] = acc
  append_ids acc (id ∷ ids) = append_ids (acc <> id) ids

  abbrev pub append_effect_ids : String → List Effect → String
  append_effect_ids acc [] = acc
  append_effect_ids acc (ef ∷ efs) = append_effect_ids (acc <> ef.id) efs

  unfoldable pub compute_decision_hash :
      String → String → String → List String → List Effect → String
  compute_decision_hash revision_hash event_id facts_hash matched effects =
      sha256_hex
        (append_effect_ids (append_ids revision_hash matched) effects <> (event_id <> facts_hash))

  unfoldable pub compute_source_hash : String → String
  compute_source_hash source = sha256_hex source

  unfoldable pub compute_child_event_id : String → String → ℕ → String
  compute_child_event_id parent_event_id rule_id action_index =
      sha256_hex
        ("child|" <> (parent_event_id <> (bar <> (rule_id <> (bar <> itoa (pos action_index))))))
