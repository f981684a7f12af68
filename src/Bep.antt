-- ===== src/Bep.antt =====
-- The crate bepository-bep: the Block Exchange Protocol, apart from storage.
pub mod Errors
pub mod Proto
pub mod Conflict
pub mod Validate
pub mod DeviceId
pub mod Messages
pub mod Calls
pub mod Retry
pub mod Framing
pub mod Connection
mod Tests
