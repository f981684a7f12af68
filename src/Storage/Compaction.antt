-- ===== src/Storage/Compaction.antt =====
-- bepository-storage/src/compaction.rs and the CompactionState of store.rs: the collection of
-- garbage while the database compacts.
pub mod State
pub mod Filter
pub mod Decisions
pub mod Live
pub mod Scan
pub mod Gathers
pub mod Survival
mod Tests
