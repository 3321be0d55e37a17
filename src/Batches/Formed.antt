-- ===== src/Batches/Formed.antt =====
-- What an accepted manual request of internal/services/batches/service.go does when no batch with its identity exists.
use kafka_simulate_rule.Prelude.{
  ap, subst, sym, ◌∙◌, All, Perm, is_positive, true, false, none, ◌≡◌, map, ◌∷◌, ℤ, ◌∷◌, ◌<>◌,
  length, some, List, String, refl,
}
use kafka_simulate_rule.Domain.Values.{Runtime}
use kafka_simulate_rule.Batches.{
  list_by_ids_call, compute_batch_id, sort_entries, Service, LeaseView, History, BatchMember,
  BatchData, BatchRun, get_run_call, process_call, complete_call,
}
use kafka_simulate_rule.Batches.Processing.{
  event_id_of, build_batch_envelope, process_batch_envelope, process_under, process_held,
  after_process, input_of, process_input, after_existing, process_new, complete,
}
use kafka_simulate_rule.Domain.Event.{EventEnvelope, Time, is_empty, virtual_shard}
use kafka_simulate_rule.Domain.Execution.{Execution}
use kafka_simulate_rule.Domain.Outbox.{InboxEntry}
use kafka_simulate_rule.Domain.Result.{ok}
use kafka_simulate_rule.Batches.Requests.{create_batch, validate_manual_batch_request, after_group}
use kafka_simulate_rule.Batches.Selection.{create_batch-input, InScope}

-- The members' part of the payload.
abbrev pub events_of : List InboxEntry → List BatchMember
events_of es =
    map
      (λ (e : InboxEntry). record {
        id = e.event_id;
        member_type = e.rule_set;
        payload = e.payload;
      })
      es

abbrev pub ids_of : List InboxEntry → List String
ids_of es = map (λ (e : InboxEntry). e.event_id) es

-- The batch of the members `e ∷ es`, oldest first, at a time, under an identity.
module _ (id : String) (e : InboxEntry) (es : List InboxEntry) (now : Time) where
  abbrev pub payload_of_batch : BatchData
  payload_of_batch = record {
    batch_id = id;
    tenant_id = e.tenant_id;
    partition_key = e.partition_key;
    rule_set = e.rule_set;
    window_from = e.first_seen_at;
    window_to = now;
    events = events_of (e ∷ es);
  }

  abbrev pub event_of_batch : String → EventEnvelope
  event_of_batch payload = record {
    id = id;
    event_type = e.rule_set <> ".batch";
    tenant_id = e.tenant_id;
    partition_key = e.partition_key;
    workflow_id = "";
    occurred_at = now;
    payload = payload;
    headers = none;
  }

  abbrev pub run_of_batch : Execution → BatchRun
  run_of_batch x = record {
    batch_id = id;
    tenant_id = e.tenant_id;
    partition_key = e.partition_key;
    rule_set = e.rule_set;
    status = "completed";
    member_count = length (e ∷ es);
    execution_id = x.id;
    decision_hash = x.decision_hash;
    window_from = some e.first_seen_at;
    window_to = some now;
    created_at = now;
  }

-- The world in which a new batch goes through, after the history `u`: there is no run, the payload is encoded, the
-- worker holds the shard of the batch, and the processing and the completion succeed.
pub record Willing (s : Service) (u : History) (id : String) (e : InboxEntry) (es : List InboxEntry)
    : Type 0 where
  pub leases : LeaseView
  pub token : ℤ
  pub payload : String
  pub execution : Execution
  pub new : s.get_run u id ≡ ok none
  pub encoded : s.marshal (payload_of_batch id e es (s.now (get_run_call id ∷ u))) ≡ ok payload
  pub provided : s.leases ≡ some leases
  pub named : is_empty s.worker_id ≡ false
  pub held :
      leases.is_owner
        (get_run_call id ∷ u)
        (virtual_shard (event_of_batch id e es (s.now (get_run_call id ∷ u)) payload) s.num_shards)
      ≡ true
  pub fenced :
      leases.get_fencing_token
        (get_run_call id ∷ u)
        (virtual_shard (event_of_batch id e es (s.now (get_run_call id ∷ u)) payload) s.num_shards)
      ≡ some token
  pub positive : is_positive token ≡ true
  pub processed :
      s.process
        (get_run_call id ∷ u)
        (event_of_batch id e es (s.now (get_run_call id ∷ u)) payload)
        token
        (virtual_shard (event_of_batch id e es (s.now (get_run_call id ∷ u)) payload) s.num_shards)
        s.worker_id
      ≡ ok (some execution)
  pub completes :
      s.complete_batch
        (process_call
            (event_of_batch id e es (s.now (get_run_call id ∷ u)) payload)
            token
            (virtual_shard
              (event_of_batch id e es (s.now (get_run_call id ∷ u)) payload)
              s.num_shards)
            s.worker_id
          ∷ get_run_call id
          ∷ u)
        (run_of_batch id e es (s.now (get_run_call id ∷ u)) execution)
        (ids_of (e ∷ es))
      ≡ none

-- The calls of a batch: it is looked up, processed and completed.
abbrev pub calls_of :
    (s : Service) (u : History) (id : String) (e : InboxEntry) (es : List InboxEntry)
    → Willing s u id e es
    → History
calls_of s u id e es w =
    let now = s.now (get_run_call id ∷ u) in
    let event = event_of_batch id e es now w.payload in
    complete_call (run_of_batch id e es now w.execution) (ids_of (e ∷ es))
    ∷ process_call event w.token (virtual_shard event s.num_shards) s.worker_id
    ∷ get_run_call id
    ∷ u

module _ (go : Runtime) (s : Service) (e : InboxEntry) (es : List InboxEntry) where
  process_input-calls_of :
      (u : History) (w : Willing s u (input_of go e es).batch_id e es)
      → process_input go s (some (input_of go e es)) u
        ≡ (ok 1, calls_of s u (input_of go e es).batch_id e es w)
  unfolding process_input after_existing process_new build_batch_envelope complete
      process_batch_envelope process_under process_held after_process input_of
  process_input-calls_of u w =
      rw
        (
          w.new, w.encoded, w.provided, w.named, w.held, w.fenced, w.positive, w.processed,
          w.completes,
        )
        refl

-- A manual request that is accepted, and for which the repository lists the requested events, in any order and each
-- of the scope, forms one batch of exactly these events, oldest first, under the identity of the request. When
-- there is no run of this identity, the worker holds the shard of the batch, and all calls
-- succeed, they are: the listing, the lookup of the identity, the processing of one event whose payload is the
-- encoding of all members under the held token, the completion of the run with all event IDs, and the read of
-- the run that is returned.
pub create_batch-forms :
    (go : Runtime) (s : Service) (tenant_id partition_key rule_set : String) (ids : List String)
    (t : History) (members : List InboxEntry) (e : InboxEntry) (es : List InboxEntry) (id : String)
    → validate_manual_batch_request go s tenant_id partition_key rule_set ids ≡ none
    → s.list_unbatched_by_ids t tenant_id partition_key rule_set ids ≡ ok members
    → Perm (map event_id_of members) ids
    → All (InScope tenant_id partition_key rule_set) members
    → sort_entries members ≡ e ∷ es
    → id ≡ compute_batch_id go tenant_id partition_key rule_set ids
    → (w : Willing s (list_by_ids_call tenant_id partition_key rule_set ids ∷ t) id e es)
    → Perm (ids_of (e ∷ es)) ids
      × (create_batch go s tenant_id partition_key rule_set ids t ≡ (
        s.get_run
            (calls_of s (list_by_ids_call tenant_id partition_key rule_set ids ∷ t) id e es w)
            id,
        get_run_call id
            ∷ calls_of s (list_by_ids_call tenant_id partition_key rule_set ids ∷ t) id e es w,
      ))
unfolding after_group
create_batch-forms go s tenant_id partition_key rule_set ids t members e es id valid listed same
      scope split named w =
    let u = list_by_ids_call tenant_id partition_key rule_set ids ∷ t in
    let (own, perm, created) =
      create_batch-input go s tenant_id partition_key rule_set ids t members e es valid listed same
        scope split in
    let mine : (input_of go e es).batch_id ≡ id = own ∙ sym named in
    (
      perm,
      subst
          (λ b.
            (v : Willing s u b e es)
            → create_batch go s tenant_id partition_key rule_set ids t
              ≡ (s.get_run (calls_of s u b e es v) b, get_run_call b ∷ calls_of s u b e es v))
          mine
          (λ v.
            created
            ∙ ap (λ r. after_group go s (input_of go e es).batch_id r)
                (process_input-calls_of go s e es u v))
          w,
    )
