-- ===== src/Orchestrator.antt =====
-- src/core/corsa_orchestrator: caches with an eviction order, worker fleets and leases.
pub mod Bounded
pub mod Run
pub mod Fleet
pub mod State
pub mod Caches
pub mod Batch
pub mod Tests
