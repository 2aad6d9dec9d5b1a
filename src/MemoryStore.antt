-- ===== src/MemoryStore.antt =====
-- tiny_cache/infrastructure/memory_store.py: the in-memory backend.
pub mod State
pub mod Eviction
pub mod Expiry
pub mod Writing
pub mod Methods
pub mod Sizes
pub mod Evicted
pub mod Room
pub mod Written
pub mod Invariant
pub mod Checked
pub mod Preserved
pub mod Runs
pub mod Contract
pub mod Conditional
pub mod Purge
pub mod Reports
pub mod Cleaning
pub mod Deletion
pub mod Round
pub mod Port
