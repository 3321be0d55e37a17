-- ===== src/Domain/Identity/Laws.antt =====
-- The identities of effects in internal/domain/types.go.
use text.Mathlib.TextLemmas.{append_assoc as text_assoc}
use kafka_simulate_rule.Domain.Identity.{compute_effect_id}
use kafka_simulate_rule.Domain.Values.{Runtime}
use kafka_simulate_rule.Prelude.{refl, ap, ◌≡◌, ◌<>◌, ℕ, ℤ, String}

-- An event `rest` of the tenant `tenant|middle` and the event `middle|rest` of the tenant `tenant` have effects
-- with the same identities, whatever the hash function: the parts of the hashed text are not told apart.
pub compute_effect_id-ambiguous :
    (go : Runtime) (tenant middle rest rule_set : String) (revision : ℤ) (rule_id : String)
    → (action_index : ℕ)
    → compute_effect_id go (tenant <> ("|" <> middle)) rest rule_set revision rule_id action_index
      ≡ compute_effect_id go tenant (middle <> ("|" <> rest)) rule_set revision rule_id action_index
unfolding compute_effect_id
compute_effect_id-ambiguous go tenant middle rest rule_set revision rule_id action_index =
    ap go.sha256_hex (simp (text_assoc) refl)
