-- ===== src/Batches/Processing.antt =====
-- internal/services/batches/service.go: what is done to one group.
use kafka_simulate_rule.Prelude.{
  take, ◌%◌, neg_part, ◌+◌, pos_part, ◌<>◌, str_eq, leb, ◌||◌, [], ltb, not, length, ◌&&◌, false,
  map, is_positive, ◌∷◌, Bool, none, some, if◌then◌else◌, Option, List, ℕ, ℤ, String,
}
use kafka_simulate_rule.Domain.Values.{Runtime}
use kafka_simulate_rule.Domain.Event.{is_empty, virtual_shard, shard_hash, EventEnvelope, Time}
use kafka_simulate_rule.Batches.{
  mode_none, window, accumulate, other_mode, process_call, get_run_call, complete_call, LeaseView,
  BatchMode, batch_rule_set, History, BatchData, Service, BatchMember, BatchRun, compute_batch_id,
}
use kafka_simulate_rule.Domain.Execution.{Execution}
use kafka_simulate_rule.Domain.Outbox.{InboxEntry}
use kafka_simulate_rule.Domain.Errors.{
  rule_not_found, batch_processing_unavailable, fencing_token_mismatch, message, wrap, sentinel,
  rule_not_active, errors_is, GoError,
}
use kafka_simulate_rule.Domain.Result.{◌>>=◌, err, ok, with_context, Result}

pub record BatchInput : Type 0 where
  pub batch_id : String
  pub tenant_id : String
  pub partition_key : String
  pub rule_set : String
  pub event_ids : List String
  pub batch_events : List BatchMember
  pub first : InboxEntry
  pub member_count : ℕ

abbrev pub event_id_of : InboxEntry → String
event_id_of e = e.event_id

abbrev pub batch_member_of : InboxEntry → BatchMember
batch_member_of e = record { id = e.event_id; member_type = e.rule_set; payload = e.payload }

unfoldable pub input_of : Runtime → InboxEntry → List InboxEntry → BatchInput
unfolding compute_batch_id
input_of go e es =
    let event_ids = map event_id_of (e ∷ es) in
    record {
      batch_id = compute_batch_id go e.tenant_id e.partition_key e.rule_set event_ids;
      tenant_id = e.tenant_id;
      partition_key = e.partition_key;
      rule_set = e.rule_set;
      event_ids = event_ids;
      batch_events = map batch_member_of (e ∷ es);
      first = e;
      member_count = length (e ∷ es);
    }

-- `none` stands for no members, for which `processGroup` has returned before.
unfoldable pub build_batch_input : Runtime → List InboxEntry → Option BatchInput
unfolding input_of
build_batch_input go [] = none
build_batch_input go (e ∷ es) = some (input_of go e es)

-- `members[:MaxBatch]` if there are more.
unfoldable pub limit_batch_members : ℤ → List InboxEntry → List InboxEntry
limit_batch_members max_batch members =
    if is_positive max_batch && ltb (pos_part max_batch) (length members)
    then take (pos_part max_batch) members
    else members

abbrev pub batch_data : BatchInput → Time → BatchData
batch_data input now = record {
  batch_id = input.batch_id;
  tenant_id = input.tenant_id;
  partition_key = input.partition_key;
  rule_set = input.rule_set;
  window_from = input.first.first_seen_at;
  window_to = now;
  events = input.batch_events;
}

abbrev pub envelope_of : BatchInput → Time → String → EventEnvelope
envelope_of input now payload = record {
  id = input.batch_id;
  event_type = batch_rule_set input.rule_set;
  tenant_id = input.tenant_id;
  partition_key = input.partition_key;
  workflow_id = "";
  occurred_at = now;
  payload = payload;
  headers = none;
}

abbrev pub completed_status : String
completed_status = "completed"

abbrev pub build_completed_batch_run : BatchInput → Execution → Time → BatchRun
build_completed_batch_run input execution now = record {
  batch_id = input.batch_id;
  tenant_id = input.tenant_id;
  partition_key = input.partition_key;
  rule_set = input.rule_set;
  status = completed_status;
  member_count = input.member_count;
  execution_id = execution.id;
  decision_hash = execution.decision_hash;
  window_from = some input.first.first_seen_at;
  window_to = some now;
  created_at = now;
}

abbrev pub counted : ℕ → String → Option GoError → Result ℕ
counted n text none = ok n
counted n text (some e) = err (wrap text e)

module _ (go : Runtime) (s : Service) where
  unfoldable pub build_batch_envelope : BatchInput → Time → Result EventEnvelope
  build_batch_envelope input now =
      with_context (wrap "marshal batch data: ") (s.marshal (batch_data input now)) >>= λ payload.
      ok (envelope_of input now payload)

  -- A rule set without an active revision is no error, and no execution.
  unfoldable pub after_process : Result (Option Execution) → Result (Option Execution)
  unfolding errors_is
  after_process (ok execution) = ok execution
  after_process (err e) =
      if errors_is e rule_not_active || errors_is e rule_not_found
      then ok none
      else err (wrap "process batch: " e)

  unfoldable pub process_held :
      EventEnvelope → ℕ → Option ℤ → History → Result (Option Execution) × History
  unfolding after_process
  process_held e shard none t = (err (sentinel fencing_token_mismatch), t)
  process_held e shard (some token) t =
      if is_positive token
      then (
        after_process (s.process t e token shard s.worker_id),
        process_call e token shard s.worker_id ∷ t,
      )
      else (err (sentinel fencing_token_mismatch), t)

  unfoldable pub process_under :
      EventEnvelope → Option LeaseView → History → Result (Option Execution) × History
  unfolding process_held virtual_shard
  process_under e none t =
      (err (message "batch processing requires a configured shard lease provider and worker ID"), t)
  process_under e (some leases) t =
      let shard = virtual_shard e s.num_shards in
      if is_empty s.worker_id
      then (
        err (message "batch processing requires a configured shard lease provider and worker ID"),
        t,
      )
      else if leases.is_owner t shard
      then process_held e shard (leases.get_fencing_token t shard) t
      else (err (sentinel fencing_token_mismatch), t)

  unfoldable pub process_batch_envelope :
      EventEnvelope → History → Result (Option Execution) × History
  unfolding process_under
  process_batch_envelope e t = process_under e s.leases t

  unfoldable pub complete :
      BatchInput → Time → Result (Option Execution) × History → Result ℕ × History
  complete input now (err e, t) = (err e, t)
  complete input now (ok none, t) = (ok 0, t)
  complete input now (ok (some execution), t) =
      let run = build_completed_batch_run input execution now in
      (
        counted 1 "complete batch: " (s.complete_batch t run input.event_ids),
        complete_call run input.event_ids ∷ t,
      )

  unfoldable pub process_new :
      BatchInput → Time → Result EventEnvelope → History → Result ℕ × History
  unfolding complete process_batch_envelope
  process_new input now (err e) t = (err e, t)
  process_new input now (ok e) t = complete input now (process_batch_envelope e t)

  unfoldable pub recover_completed_batch : BatchRun → List String → History → Result ℕ × History
  recover_completed_batch existing event_ids t = (
    counted 0 "recover completed batch: " (s.complete_batch t existing event_ids),
    complete_call existing event_ids ∷ t,
  )

  unfoldable pub after_existing :
      BatchInput → Result (Option BatchRun) → History → Result ℕ × History
  unfolding recover_completed_batch process_new build_batch_envelope
  after_existing input (err e) t = (err (wrap "check existing batch: " e), t)
  after_existing input (ok none) t =
      process_new input (s.now t) (build_batch_envelope input (s.now t)) t
  after_existing input (ok (some existing)) t =
      if str_eq existing.status completed_status
      then recover_completed_batch existing input.event_ids t
      else process_new input (s.now t) (build_batch_envelope input (s.now t)) t

  unfoldable pub process_input : Option BatchInput → History → Result ℕ × History
  unfolding after_existing
  process_input none t = (ok 0, t)
  process_input (some input) t =
      after_existing input (s.get_run t input.batch_id) (get_run_call input.batch_id ∷ t)

  unfoldable pub process_group : List InboxEntry → History → Result ℕ × History
  unfolding process_input limit_batch_members build_batch_input
  process_group members t =
      if s.has_events
      then process_input (build_batch_input go (limit_batch_members s.config.max_batch members)) t
      else (err (sentinel batch_processing_unavailable), t)

  -- `none` stands for a nil lease provider.
  unfoldable pub owns : Option LeaseView → String → String → History → Bool
  unfolding shard_hash
  owns none tenant_id partition_key t = false
  owns (some leases) tenant_id partition_key t =
      not (is_empty tenant_id)
      && (not (is_empty partition_key)
          && leases.is_owner t (shard_hash (tenant_id <> (":" <> partition_key)) % s.num_shards))

  unfoldable pub due : History → List InboxEntry → Bool
  due t [] = false
  due t (oldest ∷ rest) =
      leb (oldest.first_seen_at + pos_part s.config.window) (s.now t + neg_part s.config.window)

  unfoldable pub ready : BatchMode → List InboxEntry → History → Bool
  unfolding due
  ready accumulate members t =
      is_positive s.config.max_batch && leb (pos_part s.config.max_batch) (length members)
  ready window members t = due t members
  ready mode_none members t = false
  ready (other_mode text) members t = false

  unfoldable pub owned : List InboxEntry → History → Bool
  unfolding owns
  owned [] t = false
  owned (e ∷ es) t = owns s.leases e.tenant_id e.partition_key t
