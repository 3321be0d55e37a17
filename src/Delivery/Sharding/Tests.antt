-- ===== src/Delivery/Sharding/Tests.antt =====
-- The theorem on internal/application/worker_sharding.go for a worker that has moved from shards 1 and 2 to 2 and 3.
use kafka_simulate_rule.Delivery.Sharding.{
  ensuring, removing, without, after_remove, ensure_owned_shard_consumers,
  remove_unowned_shard_consumers, member, sync_consumers, Consumers,
}
use kafka_simulate_rule.Prelude.{refl, ◌≡◌, [], ◌∷◌, none}
use kafka_simulate_rule.Delivery.Sharding.Laws.{sync_consumers-member, perform_all}

abbrev willing : Consumers
willing = record { remove_shard_consumer = λ k. none; ensure_shard_consumer = λ k. none }

moved : sync_consumers willing (2 ∷ 3 ∷ []) (1 ∷ 2 ∷ []) ≡ removing 1 ∷ ensuring 3 ∷ []
unfolding sync_consumers remove_unowned_shard_consumers ensure_owned_shard_consumers member
    after_remove without
moved = refl

sync_consumers-member_example :
    member 1 (perform_all (sync_consumers willing (2 ∷ 3 ∷ []) (1 ∷ 2 ∷ [])) (1 ∷ 2 ∷ []))
    ≡ member 1 (2 ∷ 3 ∷ [])
sync_consumers-member_example =
    sync_consumers-member willing (2 ∷ 3 ∷ []) (1 ∷ 2 ∷ []) 1 (λ k. refl)
