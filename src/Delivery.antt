-- ===== src/Delivery.antt =====
-- What surrounds the delivery of events and effects: retry delays, and the worker's settlement.
pub mod Backoff
pub mod Worker
pub mod Scheduler
pub mod Sharding
