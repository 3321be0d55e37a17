-- ===== src/Rules/Effects.antt =====
-- internal/rules/evaluator.go: the effect that an action of a rule becomes. The clock is read as one
-- time, `now`, during an evaluation.
use kafka_simulate_rule.Prelude.{ℕ, if◌then◌else◌, ◌∷◌, [], none, some, String, ◌<>◌}
use kafka_simulate_rule.Domain.Errors.{message, wrap}
use kafka_simulate_rule.Domain.Result.{Result, ok, err, ◌>>=◌, with_context}
use kafka_simulate_rule.Domain.Values.{Runtime, is_null}
use kafka_simulate_rule.Domain.Event.{EventEnvelope, Time, is_empty}
use kafka_simulate_rule.Domain.Identity.{compute_effect_id, compute_child_event_id}
use kafka_simulate_rule.Domain.Rule.{
  Action, EmitAction, EmitEventAction, CommandAction, Effect, RuleRevision, PartitionKeyPolicy,
  unset, explicit, inherit, from_data, other_policy, untyped, emit_effect, emit_event_effect,
  command_effect,
}
use kafka_simulate_rule.Rules.Path.{resolve_path}
use kafka_simulate_rule.Rules.Template.{interpolate_templates}

unfoldable pub build_emit_effect : Effect → EmitAction → Effect
build_emit_effect effect action = record effect {
  destination = action.topic;
  name = action.topic;
  payload = action.payload;
  effect_type = emit_effect;
}

unfoldable pub build_command_effect : Effect → CommandAction → Effect
build_command_effect effect action = record effect {
  effect_type = command_effect;
  destination = action.destination;
  name = action.name;
  payload = action.payload;
}

unfoldable pub build_child_event_envelope :
    EventEnvelope → EmitEventAction → String → String → String → Time → EventEnvelope
build_child_event_envelope parent action child_id partition_key raw occurred_at = record {
  id = child_id;
  event_type = action.event_type;
  tenant_id = parent.tenant_id;
  partition_key = partition_key;
  workflow_id = "";
  occurred_at = occurred_at;
  payload = raw;
  headers =
      some (("flowrule_parent_event_id", parent.id) ∷ ("flowrule_child_event_id", child_id) ∷ []);
}

unfoldable pub describe_action : Action → String
describe_action a = elim a.emit [
  | some e ↦ "emit:" <> e.topic
  | none ↦ elim a.emit_event [
    | some e ↦ "emit_event:" <> e.event_type
    | none ↦ elim a.command [
      | some c ↦ "command:" <> (c.destination <> ("/" <> c.name))
      | none ↦ "unknown"
    ]
  ]
]

abbrev pub default_policy : PartitionKeyPolicy → PartitionKeyPolicy
default_policy unset = explicit
default_policy p = p

abbrev policy_text : PartitionKeyPolicy → String
policy_text unset = ""
policy_text explicit = "explicit"
policy_text inherit = "inherit"
policy_text from_data = "from_data"
policy_text (other_policy s) = s

module _ (go : Runtime) where
  abbrev unresolved_key : String → String
  unresolved_key path = "resolve partition key from path " <> (path <> ": ")

  abbrev pub key_from_data : EmitEventAction → EventEnvelope → Result String
  key_from_data action event =
      if is_empty action.partition_key_path
      then ok action.partition_key
      else elim (resolve_path go action.partition_key_path event.payload []) [
        | err e ↦ err (wrap (unresolved_key action.partition_key_path) e)
        | ok v ↦
            if is_null v
            then err (message (unresolved_key action.partition_key_path <> "%!w(<nil>)"))
            else ok (go.sprint v)
      ]

  abbrev pub key_by_policy : PartitionKeyPolicy → EmitEventAction → EventEnvelope → Result String
  key_by_policy inherit action event = ok event.partition_key
  key_by_policy from_data action event = key_from_data action event
  key_by_policy _ action event = ok action.partition_key

  abbrev pub require_key : PartitionKeyPolicy → String → Result String
  require_key policy key =
      if is_empty key
      then err (
          message
            ("partition key resolution resulted in empty value for policy " <> policy_text policy))
      else ok key

  unfoldable pub resolve_emit_event_partition_key : EmitEventAction → EventEnvelope → Result String
  resolve_emit_event_partition_key action event = do
    let policy = default_policy action.partition_key_policy
    key ← key_by_policy policy action event
    require_key policy key

  abbrev pub encode_child : Effect → EmitEventAction → EventEnvelope → Result Effect
  encode_child effect action child = elim (go.marshal_event child) [
    | none ↦ err (wrap "marshal child event: " (message (go.event_error child)))
    | some encoded ↦ ok (record effect {
      effect_type = emit_event_effect;
      destination = "events." <> child.event_type;
      name = child.event_type;
      payload = encoded;
    })
  ]

  unfoldable pub build_emit_event_effect :
      Effect → EventEnvelope → String → ℕ → EmitEventAction → Time → Result Effect
  unfolding build_child_event_envelope
  build_emit_event_effect effect event rule_id index action now = do
    let child_id = compute_child_event_id go event.id rule_id index
    key ← resolve_emit_event_partition_key action event
    raw ←
        with_context (wrap "interpolate templates: ")
          (interpolate_templates go action.payload (some event) child_id now)
    let child = build_child_event_envelope event action child_id key raw now
    encode_child effect action child

  abbrev pub blank_effect : String → Effect
  blank_effect id = record {
    id = id;
    execution_id = "";
    tenant_id = "";
    destination = "";
    name = "";
    payload = "";
    effect_type = untyped;
    created_at = 0;
  }

  -- The switch of `buildEffect`: the first action that is set.
  abbrev pub fill_effect : Effect → EventEnvelope → String → ℕ → Action → Time → Result Effect
  fill_effect effect event rule_id index a now = elim a.emit [
    | some e ↦ ok (build_emit_effect effect e)
    | none ↦ elim a.emit_event [
      | some e ↦ build_emit_event_effect effect event rule_id index e now
      | none ↦ elim a.command [ some c ↦ ok (build_command_effect effect c) | none ↦ ok effect ]
    ]
  ]

  abbrev pub effect_id : RuleRevision → EventEnvelope → String → ℕ → String
  effect_id revision event rule_id index =
      compute_effect_id go event.tenant_id event.id revision.rule_id revision.revision rule_id index

  unfoldable pub build_effect :
      RuleRevision → EventEnvelope → String → ℕ → Action → Time → Result Effect
  unfolding build_emit_effect build_command_effect
  build_effect revision event rule_id index a now = do
    let effect = blank_effect (effect_id revision event rule_id index)
    filled ← fill_effect effect event rule_id index a now
    ok (record filled { created_at = now })
