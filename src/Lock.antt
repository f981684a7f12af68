-- ===== src/Lock.antt =====
-- The crate bepository-lock: epochs and the lease protocol over an object store.
pub mod Base32
pub mod Epoch
pub mod Calls
pub mod Protocol
pub mod Acquisition
pub mod Guard
mod Tests
