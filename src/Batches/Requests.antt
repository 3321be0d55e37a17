-- ===== src/Batches/Requests.antt =====
-- `Tick` and `CreateBatch` of internal/services/batches/service.go, and `domain.BatchConfig`'s limits.
use kafka_simulate_rule.Prelude.{
  pos_part, is_positive, ◌||◌, map, str_eq, ◌<>◌, ◌&&◌, ◌+◌, ◌==◌, ◌-◌, length, false, ◌∷◌, not,
  ltb, some, none, Bool, negsuc, [], if◌then◌else◌, List, ◌%◌, String, Option, pos, ◌*◌, ℤ, ℕ,
}
use kafka_simulate_rule.Domain.Values.{Runtime}
use kafka_simulate_rule.Batches.{
  window, accumulate, mode_none, list_call, list_by_ids_call, get_run_call, Groups, other_mode,
  BatchRun, sort_entries, History, compute_batch_id, group_inbox_entries, BatchMode, Service,
}
use kafka_simulate_rule.Domain.Errors.{
  batch_processing_unavailable, wrap, sentinel, message, GoError,
}
use kafka_simulate_rule.Domain.Result.{check, ◌>>=◌, with_context, ok, err, Result}
use kafka_simulate_rule.Batches.Processing.{event_id_of, owned, ready, process_group}
use kafka_simulate_rule.Domain.Outbox.{InboxEntry}
use kafka_simulate_rule.Domain.Event.{is_empty}

-- The batches formed before the error, if there is one.
abbrev pub Formed : Type 0
Formed = ℕ × Option GoError

-- `MaxBatch * 10` on an int64, which wraps around; 400 if that is not positive.
abbrev pub word_of : ℤ → ℕ
word_of (pos n) = n % 18446744073709551616
word_of (negsuc n) = 18446744073709551615 - n % 18446744073709551616

unfoldable pub list_limit : ℤ → ℕ
list_limit max_batch =
    let limit = word_of max_batch * 10 % 18446744073709551616 in
    if ltb 0 limit && ltb limit 9223372036854775808 then limit else 400

abbrev pub has_text : String → List String → Bool
has_text x [] = false
has_text x (y ∷ ys) = str_eq y x || has_text x ys

module _ (go : Runtime) where
  -- `seen` are the IDs before.
  unfoldable pub validate_unique_from : List String → List String → Option GoError
  validate_unique_from seen [] = none
  validate_unique_from seen (id ∷ ids) =
      let rest = validate_unique_from (id ∷ seen) ids in
      if is_empty id
      then some (message "event IDs must not be empty")
      else if has_text id seen
      then some (message ("duplicate event ID " <> go.quote id))
      else rest

  unfoldable pub validate_unique_event_ids : List String → Option GoError
  unfolding validate_unique_from
  validate_unique_event_ids ids = validate_unique_from [] ids

  -- The first requested ID that no member has.
  unfoldable pub missing_error : List String → List String → GoError
  missing_error found [] = message "requested event set is incomplete"
  missing_error found (id ∷ ids) =
      if has_text id found
      then missing_error found ids
      else message (
          "requested event "
          <> (go.quote id <> " is missing, already batched, or outside the requested scope"))

  unfoldable pub validate_requested_batch_members : List String → List InboxEntry → Option GoError
  unfolding missing_error
  validate_requested_batch_members ids members =
      if length members == length ids
      then none
      else some (missing_error (map event_id_of members) ids)

  unfoldable pub requested_members :
      List String → Result (List InboxEntry) → Result (List InboxEntry)
  unfolding validate_requested_batch_members
  requested_members ids answer =
      with_context (wrap "list requested unbatched events: ") answer >>= λ members.
      check (validate_requested_batch_members ids members) (ok members)

module _ (go : Runtime) (s : Service) where
  unfoldable pub load_unbatched_entries : History → Result (List InboxEntry) × History
  unfolding list_limit
  load_unbatched_entries t =
      let limit = list_limit s.config.max_batch in
      (with_context (wrap "list unbatched: ") (s.list_unbatched t limit), list_call limit ∷ t)

  -- What a group adds to the batches formed before it; the loop goes on unless it failed.
  abbrev pub add_formed :
      ℕ → Result ℕ × History → (ℕ → History → Formed × History) → Formed × History
  add_formed formed (err e, t) next = ((formed, some e), t)
  add_formed formed (ok n, t) next = next (formed + n) t

  unfoldable pub process_ready_groups : Groups → ℕ → History → Formed × History
  unfolding process_group ready owned sort_entries
  process_ready_groups [] formed t = ((formed, none), t)
  process_ready_groups ((key, entries) ∷ groups) formed t =
      let members = sort_entries entries in
      let skipped = process_ready_groups groups formed t in
      let processed =
        add_formed formed (process_group go s members t) (process_ready_groups groups) in
      if ready go s s.config.mode members t && owned go s members t then processed else skipped

  unfoldable pub after_list : Result (List InboxEntry) × History → Formed × History
  unfolding process_ready_groups group_inbox_entries
  after_list (err e, t) = ((0, some e), t)
  after_list (ok entries, t) = process_ready_groups (group_inbox_entries entries) 0 t

  unfoldable pub tick_in : BatchMode → History → Formed × History
  unfolding after_list load_unbatched_entries
  tick_in mode_none t = ((0, none), t)
  tick_in accumulate t = after_list (load_unbatched_entries t)
  tick_in window t = after_list (load_unbatched_entries t)
  tick_in (other_mode text) t = after_list (load_unbatched_entries t)

  unfoldable pub tick : History → Formed × History
  unfolding tick_in
  tick t = tick_in s.config.mode t

  unfoldable pub validate_manual_batch_request :
      String → String → String → List String → Option GoError
  unfolding validate_unique_event_ids
  validate_manual_batch_request tenant_id partition_key rule_set ids =
      if not s.has_events
      then some (sentinel batch_processing_unavailable)
      else if length ids == 0
      then some (message "no event IDs provided")
      else if is_empty tenant_id || (is_empty partition_key || is_empty rule_set)
      then some (message "tenant, partition key, and rule set are required")
      else if is_positive s.config.max_batch && ltb (pos_part s.config.max_batch) (length ids)
      then some (
          message (
            "requested batch size "
            <> (go.itoa (pos (length ids)) <> (" exceeds maximum " <> go.itoa s.config.max_batch))))
      else validate_unique_event_ids go ids

  unfoldable pub after_group : String → Result ℕ × History → Result (Option BatchRun) × History
  after_group batch_id (err e, t) = (err e, t)
  after_group batch_id (ok n, t) = (s.get_run t batch_id, get_run_call batch_id ∷ t)

  unfoldable pub create_from :
      String
      → String
      → String
      → List String
      → Result (List InboxEntry)
      → History
      → Result (Option BatchRun) × History
  unfolding after_group compute_batch_id process_group sort_entries
  create_from tenant_id partition_key rule_set ids (err e) t = (err e, t)
  create_from tenant_id partition_key rule_set ids (ok members) t =
      after_group (compute_batch_id go tenant_id partition_key rule_set ids)
        (process_group go s (sort_entries members) t)

  unfoldable pub create_valid :
      String
      → String
      → String
      → List String
      → Option GoError
      → History
      → Result (Option BatchRun) × History
  unfolding create_from requested_members
  create_valid tenant_id partition_key rule_set ids (some e) t = (err e, t)
  create_valid tenant_id partition_key rule_set ids none t =
      create_from tenant_id partition_key rule_set ids
        (requested_members go ids (s.list_unbatched_by_ids t tenant_id partition_key rule_set ids))
        (list_by_ids_call tenant_id partition_key rule_set ids ∷ t)

  unfoldable pub create_batch :
      String → String → String → List String → History → Result (Option BatchRun) × History
  unfolding create_valid validate_manual_batch_request
  create_batch tenant_id partition_key rule_set ids t =
      create_valid tenant_id partition_key rule_set ids
        (validate_manual_batch_request tenant_id partition_key rule_set ids) t
