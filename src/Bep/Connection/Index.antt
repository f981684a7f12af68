-- ===== src/Bep/Connection/Index.antt =====
-- bepository-bep/src/connection.rs: a batch of file entries from the peer, and its requests for blocks.
pub mod Cursor
pub mod Requests
use bepository.Prelude.{
  ℕ, suc, ◌+◌, ◌^◌, Bytes, Bool, true, false, not, ◌||◌, Option, none, some, List, [], ◌∷◌, ◌++◌,
  Result, ok, err, ltb, if◌then◌else◌, bytes_eq,
}
use bepository.Prelude.Int.{ℤ, pos, ltb_ℤ}
use bepository.Bep.Errors.{StorageError, BepError}
use bepository.Bep.Proto.{BlockInfo, FileInfo}
use bepository.Bep.Conflict.{ConflictResolution}
use bepository.Bep.Validate.{validate_file_info}
use bepository.Bep.Messages.{
  Index, IndexUpdate, Request, Response, Message, no_error, generic, no_such_file,
}
use bepository.Bep.Calls.{
  Backend, FolderId, RemoteIndexState, UpdateResult, Call, Prog, done, call, send, access,
  cancelled, or_fail, Fallible, ◌>>?◌,
}
use bepository.Bep.Connection.{
  FileBlock, ConnectionInner, ConnectionContext, Conn, keep, retry, send_index_update,
  complete_and_notify, submit_or_defer_block,
}

-- `get` of the map of the folders that both sides share.
unfoldable pub get_folder : FolderId → List (FolderId × ℕ) → Option ℕ
get_folder id [] = none
get_folder id ((j, n) ∷ l) = if bytes_eq j id then some n else get_folder id l

-- The files whose blocks are needed, with the winner of a conflict.
abbrev pub needed_winner : List FileInfo → FileInfo → List FileInfo
needed_winner needed winner = if winner.deleted then needed else needed ++ (winner ∷ [])

module _ {B : Backend} where
  abbrev pub block_of_file : B.Handle → FileInfo → BlockInfo → FileBlock B
  block_of_file handle file block = record {
    handle = handle;
    name = file.name;
    offset = block.offset;
    hash = block.hash;
    version = file.version;
  }

  -- One block: `i` is its index, which must fit an `i32`.
  abbrev pub request_missing :
      B.Handle → FileInfo → BlockInfo → ℕ → Conn B (Unit {0}) → Bool → Conn B (Unit {0})
  request_missing handle file block i rest true = rest
  request_missing handle file block i rest false =
      if ltb i (2 ^ 31)
      then submit_or_defer_block (block_of_file handle file block) block.size i >>? (λ _. rest)
      else done (err BepError.internal)

  abbrev pub request_block :
      ConnectionContext
      → B.Handle
      → FileInfo
      → BlockInfo
      → ℕ
      → Conn B (Unit {0})
      → Bool
      → Conn B (Unit {0})
  request_block ctx handle file block i rest true = done (ok tt)
  request_block ctx handle file block i rest false =
      retry ctx (Call.reuse_block handle file.name block.offset block.hash block.size)
      >>? request_missing handle file block i rest

  -- The loop over the blocks from index `i` on.
  unfoldable pub request_from :
      ConnectionContext → B.Handle → FileInfo → List BlockInfo → ℕ → Conn B (Unit {0})
  unfolding ◌>>?◌
  request_from ctx handle file [] i = done (ok tt)
  request_from ctx handle file (block ∷ blocks) i =
      cancelled
        (request_block ctx handle file block i (request_from ctx handle file blocks (suc i)))

  unfoldable pub request_blocks : ConnectionContext → B.Handle → FileInfo → Conn B (Unit {0})
  unfolding request_from
  request_blocks ctx handle file = request_from ctx handle file file.blocks 0

  -- The outcome of `apply_update` for a file, with the files needed before it: those needed after it.
  abbrev pub resolved :
      ConnectionContext → B.Handle → List FileInfo → ConflictResolution → Conn B (List FileInfo)
  resolved ctx handle needed r =
      retry ctx (Call.resolve_conflict handle r.winner r.loser r.loser_path) >>? λ _.
      done (ok (needed_winner needed r.winner))

  abbrev pub updated :
      ConnectionContext → B.Handle → List FileInfo → UpdateResult → Conn B (List FileInfo)
  updated ctx handle needed (UpdateResult.need_blocks fi) = done (ok (needed ++ (fi ∷ [])))
  updated ctx handle needed UpdateResult.no_action = done (ok needed)
  updated ctx handle needed (UpdateResult.applied fi) =
      send_index_update fi (B.id_of handle) >>? λ _. done (ok needed)
  updated ctx handle needed (UpdateResult.concurrent local remote) =
      or_fail (resolved ctx handle needed)
        (ctx.resolve local ctx.local_device remote ctx.remote_device)

  abbrev pub apply_file :
      ConnectionContext → B.Handle → List FileInfo → FileInfo → Conn B (List FileInfo)
  apply_file ctx handle needed file =
      or_fail
        (λ _.
          retry ctx (Call.apply_update handle file ctx.remote_device) >>? updated ctx handle needed)
        (validate_file_info file)

  unfoldable pub apply_files :
      ConnectionContext → B.Handle → List FileInfo → List FileInfo → Conn B (List FileInfo)
  unfolding validate_file_info send_index_update ◌>>?◌
  apply_files ctx handle [] needed = done (ok needed)
  apply_files ctx handle (file ∷ files) needed =
      apply_file ctx handle needed file >>? apply_files ctx handle files

  unfoldable pub fetch_needed : ConnectionContext → B.Handle → List FileInfo → Conn B (Unit {0})
  unfolding request_blocks complete_and_notify ◌>>?◌
  fetch_needed ctx handle [] = done (ok tt)
  fetch_needed ctx handle (fi ∷ fis) =
      (request_blocks ctx handle fi >>? λ _. complete_and_notify handle fi.name fi.version ctx)
      >>? λ _. fetch_needed ctx handle fis

  abbrev pub advance_cursor : ConnectionContext → B.Handle → ℕ → ℤ → Conn B (Unit {0})
  advance_cursor ctx handle index_id last_sequence = retry ctx (
      Call.set_remote_state handle ctx.remote_device
        (record { index_id = index_id; max_sequence = last_sequence }))

  unfoldable pub apply_in_folder :
      ConnectionContext → List FileInfo → ℤ → ℕ → B.Handle → Conn B (Unit {0})
  unfolding apply_files fetch_needed ◌>>?◌
  apply_in_folder ctx files last_sequence index_id handle =
      (apply_files ctx handle files [] >>? fetch_needed ctx handle) >>? λ _.
      advance_cursor ctx handle index_id last_sequence

  abbrev pub apply_mutual :
      ConnectionContext → FolderId → List FileInfo → ℤ → Option ℕ → Conn B (Unit {0})
  apply_mutual ctx folder_id files last_sequence none = done (err BepError.peer_bad_message)
  apply_mutual ctx folder_id files last_sequence (some index_id) =
      retry ctx (Call.folder folder_id) >>? apply_in_folder ctx files last_sequence index_id

  unfoldable pub apply_remote_index :
      ConnectionContext → FolderId → List FileInfo → ℤ → Conn B (Unit {0})
  unfolding get_folder apply_in_folder ◌>>?◌
  apply_remote_index ctx folder_id files last_sequence = access keep (λ conn.
      apply_mutual ctx folder_id files last_sequence (get_folder folder_id conn.mutual_folders))

  unfoldable pub handle_index : ConnectionContext → Index → Conn B (Unit {0})
  unfolding apply_remote_index
  handle_index ctx index = apply_remote_index ctx index.folder index.files index.last_sequence

  unfoldable pub handle_index_update : ConnectionContext → IndexUpdate → Conn B (Unit {0})
  unfolding apply_remote_index
  handle_index_update ctx update =
      apply_remote_index ctx update.folder update.files update.last_sequence
