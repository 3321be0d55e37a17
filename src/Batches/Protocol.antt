-- ===== src/Batches/Protocol.antt =====
-- The order of the calls of internal/services/batches/service.go.
use kafka_simulate_rule.Batches.{
  complete_call, process_call, get_run_call, LeaseView, batch_rule_set, list_by_ids_call,
  compute_batch_id, list_call, BatchRun, History, Service,
}
use kafka_simulate_rule.Domain.Values.{Runtime}
use kafka_simulate_rule.Batches.Processing.{
  batch_data, recover_completed_batch, limit_batch_members, build_batch_envelope,
  process_batch_envelope, process_group, after_existing, process_input, process_new, input_of,
  event_id_of, after_process, process_held, build_completed_batch_run, process_under, complete,
  completed_status, envelope_of, BatchInput, build_batch_input,
}
use kafka_simulate_rule.Prelude.{
  if◌then◌else◌, Bool, eq_iff, arith, ◌||◌, inr, refl, inl, Bool-cases, ap, length-map, sym, subst,
  is_positive, true, none, [], false, length, ◌∷◌, str_eq, ℤ, ◌≡◌, some, ℕ, String, List, Option,
}
use kafka_simulate_rule.Domain.Event.{is_empty, virtual_shard, Time, EventEnvelope}
use kafka_simulate_rule.Domain.Outbox.{InboxEntry}
use kafka_simulate_rule.Domain.Execution.{Execution}
use kafka_simulate_rule.Domain.Result.{err, ok, Result}
use kafka_simulate_rule.Domain.Errors.{
  batch_processing_unavailable, sentinel, rule_not_found, rule_not_active, errors_is,
}
use kafka_simulate_rule.Domain.Result.Inversion.{Result-cases}

-- The lease under which an envelope is processed.
pub record Fenced (s : Service) (t : History) (e : EventEnvelope) (token : ℤ) (shard : ℕ)
    : Type 0 where
  pub leases : LeaseView
  pub configured : s.leases ≡ some leases
  pub its_shard : shard ≡ virtual_shard e s.num_shards
  pub owner : leases.is_owner t shard ≡ true
  pub held : leases.get_fencing_token t shard ≡ some token
  pub positive : is_positive token ≡ true
  pub named : is_empty s.worker_id ≡ false

-- No run, or one that is not completed.
abbrev pub NotCompleted : Option BatchRun → Type 0
NotCompleted none = Unit
NotCompleted (some run) = str_eq run.status completed_status ≡ false

-- What a run says of the batch that was processed.
pub record Describes (go : Runtime) (run : BatchRun) (ids : List String) (e : EventEnvelope)
    (x : Execution) : Type 0 where
  pub identified :
      run.batch_id ≡ compute_batch_id go run.tenant_id run.partition_key run.rule_set ids
  pub same_id : e.id ≡ run.batch_id
  pub same_tenant : e.tenant_id ≡ run.tenant_id
  pub same_partition : e.partition_key ≡ run.partition_key
  pub same_rule_set : e.event_type ≡ batch_rule_set run.rule_set
  pub counted : run.member_count ≡ length ids
  pub executed : run.execution_id ≡ x.id
  pub decided : run.decision_hash ≡ x.decision_hash

-- The calls that the service may make after those before it. A batch is processed under a lease, right
-- after its run was looked up and not found completed; it is completed right after it was processed with
-- an execution, with a run that describes it, or with the completed run that was found.
pub data Protocol (go : Runtime) (s : Service) (start : History) : History → Type 0 where
  begun : Protocol go s start start
  listed : {t : History} (n : ℕ) → Protocol go s start t → Protocol go s start (list_call n ∷ t)
  listed_by_ids :
      {t : History} (tenant_id partition_key rule_set : String) (ids : List String)
      → Protocol go s start t
      → Protocol go s start (list_by_ids_call tenant_id partition_key rule_set ids ∷ t)
  looked_up :
      {t : History} (id : String)
      → Protocol go s start t
      → Protocol go s start (get_run_call id ∷ t)
  processed :
      {t : History} (e : EventEnvelope) (token : ℤ) (shard : ℕ) (found : Option BatchRun)
      → s.get_run t e.id ≡ ok found
      → NotCompleted found
      → Fenced s (get_run_call e.id ∷ t) e token shard
      → Protocol go s start (get_run_call e.id ∷ t)
      → Protocol go s start (process_call e token shard s.worker_id ∷ get_run_call e.id ∷ t)
  completed :
      {t : History} (e : EventEnvelope) (token : ℤ) (shard : ℕ) (x : Execution) (run : BatchRun)
      (ids : List String)
      → s.process t e token shard s.worker_id ≡ ok (some x)
      → Describes go run ids e x
      → Protocol go s start (process_call e token shard s.worker_id ∷ t)
      → Protocol go s start (complete_call run ids ∷ process_call e token shard s.worker_id ∷ t)
  recovered :
      {t : History} (id : String) (run : BatchRun) (ids : List String)
      → s.get_run t id ≡ ok (some run)
      → run.status ≡ completed_status
      → Protocol go s start (get_run_call id ∷ t)
      → Protocol go s start (complete_call run ids ∷ get_run_call id ∷ t)

-- An input as `buildBatchInput` makes it.
pub record IsBuilt (go : Runtime) (input : BatchInput) : Type 0 where
  pub identified :
      input.batch_id
      ≡ compute_batch_id go input.tenant_id input.partition_key input.rule_set input.event_ids
  pub counted : input.member_count ≡ length input.event_ids

input_of-IsBuilt :
    (go : Runtime) (e : InboxEntry) (es : List InboxEntry) → IsBuilt go (input_of go e es)
unfolding input_of
input_of-IsBuilt go e es = record {
  identified = refl;
  counted = sym (length-map (e ∷ es) event_id_of);
}

some-All : {A : Type 0} (P : A → Type 0) (a b : A) → P a → some a ≡ some b → P b
some-All P a b p h = let same : a ≡ b = cc h in subst P same p

build_batch_input-IsBuilt :
    (go : Runtime) (members : List InboxEntry) (input : BatchInput)
    → build_batch_input go members ≡ some input
    → IsBuilt go input
unfolding build_batch_input
build_batch_input-IsBuilt go [] input h = cc h
build_batch_input-IsBuilt go (e ∷ es) input h =
    some-All (IsBuilt go) (input_of go e es) input (input_of-IsBuilt go e es) h

module _ (go : Runtime) (s : Service) (start : History) where
  if-Protocol :
      (b : Bool) (x y : Result ℕ × History)
      → Protocol go s start x.1
      → Protocol go s start y.1
      → Protocol go s start (if b then x else y).1
  if-Protocol true x y p q = p
  if-Protocol false x y p q = q

  module _ (input : BatchInput) (built : IsBuilt go input) (now : Time) (e : EventEnvelope)
      (made : (payload : String) × (e ≡ envelope_of input now payload)) where
    -- What was processed is completed.
    complete-Protocol :
        (r : Result (Option Execution)) (t : History) (token : ℤ) (shard : ℕ)
        → ((x : Execution) → r ≡ ok (some x) → s.process t e token shard s.worker_id ≡ ok (some x))
        → Protocol go s start (process_call e token shard s.worker_id ∷ t)
        → Protocol go s start
            (complete go s input now (r, process_call e token shard s.worker_id ∷ t)).1
    unfolding complete
    complete-Protocol (err f) t token shard h p = p
    complete-Protocol (ok none) t token shard h p = p
    complete-Protocol (ok (some x)) t token shard h p =
        let env = made.1 in
        completed e token shard x (build_completed_batch_run input x now) input.event_ids (h x refl)
          (record {
            identified = built.identified;
            same_id = ap (λ (z : EventEnvelope). z.id) env;
            same_tenant = ap (λ (z : EventEnvelope). z.tenant_id) env;
            same_partition = ap (λ (z : EventEnvelope). z.partition_key) env;
            same_rule_set = ap (λ (z : EventEnvelope). z.event_type) env;
            counted = built.counted;
            executed = refl;
            decided = refl;
          })
          p

    -- What `Process` answers is not made up.
    after_process-eq-ok :
        (r : Result (Option Execution)) (x : Execution)
        → after_process go s r ≡ ok (some x)
        → r ≡ ok (some x)
    unfolding after_process
    after_process-eq-ok (ok o) x h = h
    after_process-eq-ok (err f) x h =
        elim (Bool-cases (errors_is f rule_not_active || errors_is f rule_not_found)) [
          | inl g ↦ absurd (ground (arith, g, h))
          | inr g ↦ absurd (ground (arith, g, h))
        ]

    module _ (t : History) (found : Option BatchRun) (asked : s.get_run t e.id ≡ ok found)
        (open_batch : NotCompleted found) (p : Protocol go s start (get_run_call e.id ∷ t)) where
      abbrev Ends : Result (Option Execution) × History → Type 0
      Ends r = Protocol go s start (complete go s input now r).1

      held-Protocol :
          (leases : LeaseView) (shard : ℕ) (o : Option ℤ)
          → s.leases ≡ some leases
          → shard ≡ virtual_shard e s.num_shards
          → is_empty s.worker_id ≡ false
          → leases.is_owner (get_run_call e.id ∷ t) shard ≡ true
          → leases.get_fencing_token (get_run_call e.id ∷ t) shard ≡ o
          → Ends (process_held go s e shard o (get_run_call e.id ∷ t))
      unfolding process_held complete
      held-Protocol leases shard none c i n w k = p
      held-Protocol leases shard (some token) c i n w k = elim (Bool-cases (is_positive token)) [
        | inr g ↦ rw g p
        | inl g ↦
            let fenced : Fenced s (get_run_call e.id ∷ t) e token shard = record {
              leases = leases;
              configured = c;
              its_shard = i;
              owner = w;
              held = k;
              positive = g;
              named = n;
            } in
            rw g (
              complete-Protocol
                (after_process go s (s.process (get_run_call e.id ∷ t) e token shard s.worker_id))
                (get_run_call e.id ∷ t) token shard
                (λ x.
                  after_process-eq-ok (s.process (get_run_call e.id ∷ t) e token shard s.worker_id)
                    x)
                (processed e token shard found asked open_batch fenced p))
      ]

      under-Protocol :
          (o : Option LeaseView)
          → s.leases ≡ o
          → Ends (process_under go s e o (get_run_call e.id ∷ t))
      unfolding process_under complete
      under-Protocol none c = p
      under-Protocol (some leases) c =
          let shard = virtual_shard e s.num_shards in
          elim (Bool-cases (is_empty s.worker_id)) [
            | inl n ↦ rw n p
            | inr n ↦ elim (Bool-cases (leases.is_owner (get_run_call e.id ∷ t) shard)) [
              | inr w ↦ rw n (rw w p)
              | inl w ↦ rw n (
                  rw w (
                    held-Protocol leases shard
                      (leases.get_fencing_token (get_run_call e.id ∷ t) shard) c refl n w refl))
            ]
          ]

      batch_envelope-Protocol : Ends (process_batch_envelope go s e (get_run_call e.id ∷ t))
      unfolding process_batch_envelope
      batch_envelope-Protocol = under-Protocol s.leases refl

  module _ (input : BatchInput) (built : IsBuilt go input) (t : History)
      (p : Protocol go s start (get_run_call input.batch_id ∷ t)) where
    new-Protocol :
        (now : Time) (found : Option BatchRun)
        → s.get_run t input.batch_id ≡ ok found
        → NotCompleted found
        → Protocol go s start
            (process_new go s input now
              (build_batch_envelope go s input now)
              (get_run_call input.batch_id ∷ t)).1
    unfolding process_new build_batch_envelope
    new-Protocol now found asked open_batch =
        elim (Result-cases (s.marshal (batch_data input now))) [
          | inl m ↦ rw m.1 (
              batch_envelope-Protocol input built now (envelope_of input now m.0) (m.0, refl) t
                found asked open_batch p)
          | inr m ↦ rw m.1 p
        ]

    existing-Protocol :
        (r : Result (Option BatchRun))
        → s.get_run t input.batch_id ≡ r
        → Protocol go s start (after_existing go s input r (get_run_call input.batch_id ∷ t)).1
    unfolding after_existing recover_completed_batch
    existing-Protocol (err f) asked = p
    existing-Protocol (ok none) asked =
        new-Protocol (s.now (get_run_call input.batch_id ∷ t)) none asked tt
    existing-Protocol (ok (some run)) asked =
        elim (Bool-cases (str_eq run.status completed_status)) [
          | inl g ↦ rw g (
              recovered input.batch_id run input.event_ids asked
                (ground (arith, g, eq_iff run.status completed_status)) p)
          | inr g ↦ rw g (new-Protocol (s.now (get_run_call input.batch_id ∷ t)) (some run) asked g)
        ]

  input-Protocol :
      (o : Option BatchInput) (t : History)
      → ((input : BatchInput) → o ≡ some input → IsBuilt go input)
      → Protocol go s start t
      → Protocol go s start (process_input go s o t).1
  unfolding process_input
  input-Protocol none t built p = p
  input-Protocol (some input) t built p =
      existing-Protocol input (built input refl) t (looked_up input.batch_id p)
        (s.get_run t input.batch_id) refl

  pub process_group-Protocol :
      (members : List InboxEntry) (t : History)
      → Protocol go s start t
      → Protocol go s start (process_group go s members t).1
  unfolding process_group
  process_group-Protocol members t p =
      let limited = limit_batch_members s.config.max_batch members in
      if-Protocol s.has_events (process_input go s (build_batch_input go limited) t)
        (err (sentinel batch_processing_unavailable), t)
        (input-Protocol (build_batch_input go limited) t (build_batch_input-IsBuilt go limited) p) p
