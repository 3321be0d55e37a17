-- ===== src/Shards/Progress.antt =====
-- How far rebalancing gets (internal/runtime/shard/lease.go).
