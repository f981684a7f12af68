-- ===== src/Bep/Errors.antt =====
-- bepository-bep/src/error.rs: the errors, without their messages.
use bepository.Prelude.{ℕ, Bool, true, false}
use bepository.Prelude.Int.{ℤ}

pub data StorageError : Type 0 where
  transient_io corruption not_found standby invalid_input internal : StorageError
  unsupported_version : ℕ → ℕ → StorageError

pub data BepError : Type 0 where
  transient_io peer_bad_hello peer_bad_message corruption internal standby : BepError
  peer_closed network_error writer_closed device_rejected : BepError
  peer_error : ℤ → BepError
  unsupported_version : ℕ → ℕ → BepError

-- `StorageError::is_transient` and the other tests of errors.
unfoldable pub is_transient_storage : StorageError → Bool
is_transient_storage StorageError.transient_io = true
is_transient_storage _ = false

unfoldable pub is_fatal_storage : StorageError → Bool
is_fatal_storage StorageError.corruption = true
is_fatal_storage StorageError.internal = true
is_fatal_storage (StorageError.unsupported_version found supported) = true
is_fatal_storage _ = false

unfoldable pub is_transient : BepError → Bool
is_transient BepError.transient_io = true
is_transient BepError.network_error = true
is_transient _ = false

unfoldable pub is_fatal : BepError → Bool
is_fatal BepError.corruption = true
is_fatal BepError.internal = true
is_fatal (BepError.unsupported_version found supported) = true
is_fatal _ = false

unfoldable pub is_peer_fault : BepError → Bool
is_peer_fault BepError.peer_bad_hello = true
is_peer_fault BepError.peer_bad_message = true
is_peer_fault (BepError.peer_error code) = true
is_peer_fault _ = false
