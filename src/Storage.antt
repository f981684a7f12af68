-- ===== src/Storage.antt =====
-- The crate bepository-storage: folders kept in a key-value database.
pub mod Keys
pub mod Proto
pub mod Stats
pub mod Compaction
pub mod Allocator
pub mod Blocks
pub mod Store
mod Tests
