-- ===== src/Space.antt =====
-- The package space: keyed first-in first-out queues, durable in `Store` (space/store.go) and in memory
-- in `Local` (space/local.go).
pub mod Record
pub mod Store
pub mod Local
