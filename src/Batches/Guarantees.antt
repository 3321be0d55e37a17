-- ===== src/Batches/Guarantees.antt =====
-- What internal/services/batches/service.go promises of a tick and of a manual batch.
use kafka_simulate_rule.Batches.Requests.{
  requested_members, list_limit, validate_manual_batch_request, create_from, add_formed,
  create_valid, Formed, tick_in, after_list, after_group, load_unbatched_entries,
  process_ready_groups, create_batch, tick,
}
use kafka_simulate_rule.Domain.Values.{Runtime}
use kafka_simulate_rule.Batches.{
  list_by_ids_call, sort_entries, window, accumulate, list_call, group_inbox_entries,
  compute_batch_id, mode_none, other_mode, Groups, BatchMode, History, Service,
}
use kafka_simulate_rule.Prelude.{
  [], none, ◌&&◌, ◌∷◌, some, false, ◌+◌, Option, true, if◌then◌else◌, List, ℕ, String, Bool,
}
use kafka_simulate_rule.Domain.Result.{ok, err, with_context, Result}
use kafka_simulate_rule.Batches.Protocol.{
  listed_by_ids, process_group-Protocol, listed, looked_up, begun, Protocol,
}
use kafka_simulate_rule.Domain.Outbox.{InboxEntry}
use kafka_simulate_rule.Domain.Errors.{GoError, wrap}
use kafka_simulate_rule.Batches.Processing.{owned, ready, process_group}

module _ (go : Runtime) (s : Service) (start : History) where
  add_formed-Protocol :
      (formed : ℕ) (r : Result ℕ × History) (next : ℕ → History → Formed × History)
      → Protocol go s start r.1
      → ((n : ℕ) (t : History) → Protocol go s start t → Protocol go s start (next n t).1)
      → Protocol go s start (add_formed go s formed r next).1
  add_formed-Protocol formed (err e, t) next p h = p
  add_formed-Protocol formed (ok n, t) next p h = h (formed + n) t p

  if-Protocol :
      (b : Bool) (x y : Formed × History)
      → Protocol go s start x.1
      → Protocol go s start y.1
      → Protocol go s start (if b then x else y).1
  if-Protocol true x y p q = p
  if-Protocol false x y p q = q

  ready_groups-Protocol :
      (groups : Groups) (formed : ℕ) (t : History)
      → Protocol go s start t
      → Protocol go s start (process_ready_groups go s groups formed t).1
  unfolding process_ready_groups
  ready_groups-Protocol [] formed t p = p
  ready_groups-Protocol ((key, entries) ∷ groups) formed t p =
      let members = sort_entries entries in
      if-Protocol (ready go s s.config.mode members t && owned go s members t)
        (add_formed go s formed (process_group go s members t) (process_ready_groups go s groups))
        (process_ready_groups go s groups formed t)
        (add_formed-Protocol formed (process_group go s members t)
          (process_ready_groups go s groups) (process_group-Protocol go s start members t p)
          (λ n u. ready_groups-Protocol groups n u))
        (ready_groups-Protocol groups formed t p)

  after_list-Protocol :
      (r : Result (List InboxEntry)) (t : History)
      → Protocol go s start t
      → Protocol go s start (after_list go s (r, t)).1
  unfolding after_list
  after_list-Protocol (err e) t p = p
  after_list-Protocol (ok entries) t p = ready_groups-Protocol (group_inbox_entries entries) 0 t p

  load-Protocol : Protocol go s start (after_list go s (load_unbatched_entries go s start)).1
  unfolding load_unbatched_entries
  load-Protocol =
      after_list-Protocol
        (with_context (wrap "list unbatched: ")
          (s.list_unbatched start (list_limit s.config.max_batch)))
        (list_call (list_limit s.config.max_batch) ∷ start)
        (listed (list_limit s.config.max_batch) begun)

  tick_in-Protocol : (mode : BatchMode) → Protocol go s start (tick_in go s mode start).1
  unfolding tick_in
  tick_in-Protocol mode_none = begun
  tick_in-Protocol accumulate = load-Protocol
  tick_in-Protocol window = load-Protocol
  tick_in-Protocol (other_mode text) = load-Protocol

  after_group-Protocol :
      (id : String) (r : Result ℕ × History)
      → Protocol go s start r.1
      → Protocol go s start (after_group go s id r).1
  unfolding after_group
  after_group-Protocol id (err e, t) p = p
  after_group-Protocol id (ok n, t) p = looked_up id p

  module _ (tenant_id partition_key rule_set : String) (ids : List String) where
    create_from-Protocol :
        (r : Result (List InboxEntry)) (t : History)
        → Protocol go s start t
        → Protocol go s start (create_from go s tenant_id partition_key rule_set ids r t).1
    unfolding create_from
    create_from-Protocol (err e) t p = p
    create_from-Protocol (ok members) t p =
        after_group-Protocol (compute_batch_id go tenant_id partition_key rule_set ids)
          (process_group go s (sort_entries members) t)
          (process_group-Protocol go s start (sort_entries members) t p)

    create_valid-Protocol :
        (o : Option GoError)
        → Protocol go s start (create_valid go s tenant_id partition_key rule_set ids o start).1
    unfolding create_valid
    create_valid-Protocol (some e) = begun
    create_valid-Protocol none =
        create_from-Protocol
          (requested_members go ids
            (s.list_unbatched_by_ids start tenant_id partition_key rule_set ids))
          (list_by_ids_call tenant_id partition_key rule_set ids ∷ start)
          (listed_by_ids tenant_id partition_key rule_set ids begun)

-- Whatever the repository, the processor, the leases and the clock answer, the calls of a tick and those of a
-- manual batch follow the protocol: a batch is processed only right after its run was looked up and not
-- found completed, by the owner of the shard of its envelope, under the positive token of that lease and
-- the worker's name; a run is completed only right after `Process` gave an execution of the envelope that the
-- run describes, or as the completed run that the lookup has just found.
pub requests-Protocol :
    (go : Runtime) (s : Service) (t : History) (tenant_id partition_key rule_set : String)
    (ids : List String)
    → Protocol go s t (tick go s t).1
      × Protocol go s t (create_batch go s tenant_id partition_key rule_set ids t).1
unfolding tick create_batch
requests-Protocol go s t tenant_id partition_key rule_set ids = (
  tick_in-Protocol go s t s.config.mode,
  create_valid-Protocol go s t tenant_id partition_key rule_set ids
      (validate_manual_batch_request go s tenant_id partition_key rule_set ids),
)
