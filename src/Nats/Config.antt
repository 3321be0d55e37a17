-- ===== src/Nats/Config.antt =====
-- The configuration of internal/adapters/nats/jetstream.go, with its defaults and checks.
-- `strings.TrimSpace` is an argument.
pub mod Fixed
pub mod Normal
use kafka_simulate_rule.Prelude.{
  ◌||◌, ◌<>◌, some, ◌*◌, negsuc, length, str_eq, none, ltb_ℤ, false, ltb, pos, ◌∷◌, ◌==◌, ◌∷◌, Bool,
  [], List, Option, String, if◌then◌else◌, ℤ, ℕ,
}
use kafka_simulate_rule.Batches.{sort_texts}
use kafka_simulate_rule.Domain.Result.{check, Result, err, ok, ◌>>=◌}
use kafka_simulate_rule.Domain.Event.{is_empty, bytes}
use kafka_simulate_rule.Domain.Errors.{GoError, message}

-- Durations are in nanoseconds.
pub record Config : Type 0 where
  pub nats_url : String
  pub connect_timeout : ℤ
  pub stream : String
  pub consumer : String
  pub subjects : List String
  pub rule_sets : List String
  pub ack_wait : ℤ
  pub max_deliver : ℤ
  pub num_shards : ℕ

abbrev pub text_or : String → String → String
text_or default text = if is_empty text then default else text

-- `values` when it has any.
abbrev pub subjects_or : List String → List String → List String
subjects_or default [] = default
subjects_or default (s ∷ values) = s ∷ values

abbrev pub is_zero : ℤ → Bool
is_zero (pos n) = n == 0
is_zero (negsuc n) = false

unfoldable pub apply_config_defaults : Config → Config
apply_config_defaults cfg = record cfg {
  num_shards = if cfg.num_shards == 0 then 4096 else cfg.num_shards;
  subjects = subjects_or ("events" ∷ []) cfg.subjects;
  stream = text_or "flowrule" cfg.stream;
  consumer = text_or "flowrule-worker" cfg.consumer;
  ack_wait = if ltb_ℤ (pos 0) cfg.ack_wait then cfg.ack_wait else pos (30 * 1000000000);
  max_deliver = if is_zero cfg.max_deliver then negsuc 0 else cfg.max_deliver;
}

abbrev pub is_unlimited : ℤ → Bool
is_unlimited (pos n) = false
is_unlimited (negsuc n) = n == 0

unfoldable pub validate_consumer_config : Config → Option GoError
validate_consumer_config cfg =
    if is_unlimited cfg.max_deliver
    then none
    else some (
        message
          "NATS MaxDeliver must be -1 (unlimited) until durable exhausted-delivery recovery is implemented")

-- `_, exists := seen[text]`
abbrev pub contains : List String → String → Bool
contains [] text = false
contains (x ∷ seen) text = str_eq x text || contains seen text

abbrev pub prepend : String → Result (List String) → Result (List String)
prepend text (err e) = err e
prepend text (ok texts) = ok (text ∷ texts)

module _ (trim_space : String → String) where
  -- The loop of `normalizeSubjects`, with what it has seen.
  unfoldable pub normalize_subjects_from : List String → List String → Result (List String)
  normalize_subjects_from seen [] = ok []
  normalize_subjects_from seen (value ∷ values) =
      let subject = trim_space value in
      let skipped = normalize_subjects_from seen values in
      let taken = normalize_subjects_from (subject ∷ seen) values in
      if is_empty subject
      then err (message "NATS subject must not be empty")
      else if contains seen subject
      then skipped
      else prepend subject taken

  unfoldable pub normalize_subjects : List String → Result (List String)
  unfolding normalize_subjects_from
  normalize_subjects values = normalize_subjects_from [] values

  -- The loop of `normalizeRuleSets`, before the sort.
  unfoldable pub normalize_rule_sets_from :
      (String → String) → List String → List String → Result (List String)
  normalize_rule_sets_from quote seen [] = ok []
  normalize_rule_sets_from quote seen (value ∷ values) =
      let rule_set = trim_space value in
      let taken = normalize_rule_sets_from quote (rule_set ∷ seen) values in
      if is_empty rule_set
      then err (message "NATS ruleset must not be empty")
      else if ltb 128 (length (bytes rule_set))
      then err (message "NATS ruleset exceeds 128 bytes")
      else if contains seen rule_set
      then err (message ("duplicate NATS ruleset " <> quote rule_set))
      else prepend rule_set taken

  unfoldable pub normalize_rule_sets : (String → String) → List String → Result (List String)
  unfolding normalize_rule_sets_from
  normalize_rule_sets quote values =
      normalize_rule_sets_from quote [] values >>= (λ rule_sets. ok (sort_texts rule_sets))

  -- `normalizeConfig` after the defaults.
  unfoldable pub normalize_defaulted : (String → String) → Config → Result Config
  unfolding validate_consumer_config normalize_subjects normalize_rule_sets
  normalize_defaulted quote cfg = check (validate_consumer_config cfg) (
      normalize_subjects cfg.subjects >>= (λ subjects.
        normalize_rule_sets quote cfg.rule_sets
        >>= (λ rule_sets. ok (record cfg { subjects = subjects; rule_sets = rule_sets }))))

  unfoldable pub normalize_config : (String → String) → Config → Result Config
  unfolding apply_config_defaults normalize_defaulted
  normalize_config quote given = normalize_defaulted quote (apply_config_defaults given)
