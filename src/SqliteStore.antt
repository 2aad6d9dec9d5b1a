-- ===== src/SqliteStore.antt =====
-- tiny_cache/infrastructure/sqlite_store.py: the backend that keeps its entries in SQLite.
pub mod State
pub mod Eviction
pub mod Expiry
pub mod Writing
pub mod Methods
pub mod Consistent
pub mod Evicted
pub mod Written
pub mod Checked
pub mod Rows
pub mod Contract
pub mod Reads
pub mod Preserved
pub mod Conditional
pub mod Runs
pub mod Port
