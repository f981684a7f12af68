-- ===== src/Storage/Store.antt =====
-- bepository-storage/src/store.rs, FolderStore: the file index of a folder.
pub mod Db
mod Coding
mod Tests
pub mod KeysApart
pub mod StoreKept
pub mod BlocksKept
pub mod Kept
pub mod Commit
pub mod Index
pub mod Intake
pub mod BlockOps
use bepository.Prelude.{
  ℕ, ◌≡◌, Bytes, Bool, true, false, not, ◌&&◌, ◌||◌, Option, none, some, List, [], ◌∷◌, ◌++◌, map,
  Result, ok, err, bytes_eq, i64_max, and_then, length, ◌==◌, if◌then◌else◌,
}
use bepository.Prelude.Int.{ℤ, pos, negsuc, ◌+ℤ◌, eq_ℤ, ltb_ℤ, leb_ℤ}
use bepository.Prelude.Utf8.{from_utf8}
use bepository.Lock.Epoch.{Epoch, before}
use bepository.Bep.Errors.{StorageError}
use bepository.Bep.Proto as Bep
use bepository.Storage.Proto as Storage
use bepository.Storage.Allocator.{decode_or_default}
use bepository.Storage.Blocks.{carry_block_pointers, is_complete}
use bepository.Storage.Compaction.State.{Blooms, CompactionState, record_block_write}
use bepository.Storage.Keys.{
  ix_key, file_key, seq_key, inbox_key, parse_inbox_key, inbox_prefix, device_key, device_prefix,
  block_reverse_key, hash_len, file_prefix, seq_scan_start, seq_scan_end,
}
use bepository.Storage.Proto.{File, Inbox, FolderIndexMeta}
use bepository.Storage.Proto.Convert.{file_to_storage, file_to_bep, vector_to_bep}
use bepository.Storage.Store.Db.{
  Write, put, delete, FolderDb, StoreCodec, Setup, FolderStore, Act, next_act, ◌>>=◌, lift, map_ok,
  ◌>>=?◌,
}

-- `+= 1` on an `i64`.
abbrev pub next_sequence : ℤ → ℤ
next_sequence n = if eq_ℤ n (pos i64_max) then negsuc i64_max else n +ℤ pos 1

abbrev pub carried : Storage.FileInfo → Option Storage.FileInfo → Storage.FileInfo
carried stored none = stored
carried stored (some old) = carry_block_pointers stored old

-- The sequence entry of the prior version, to be removed.
abbrev pub drop_seq : ℤ → Result StorageError (List Write)
drop_seq seq = if ltb_ℤ (pos 0) seq then map_ok (λ key. delete key ∷ []) (seq_key seq) else ok []

abbrev pub drop_old_seq : Option Storage.FileInfo → Result StorageError (List Write)
drop_old_seq none = ok []
drop_old_seq (some old) = drop_seq old.sequence

module _ (X : Setup) where
  abbrev pub Run : Type 0 → Type 0
  Run A = Act (FolderStore X) A

  abbrev pub with_data :
      {A : Type 0}
      → FolderStore X
      → X.db.base.State × Result StorageError A
      → FolderStore X × Result StorageError A
  with_data store (s, r) = (record store { data_of = s }, r)

  abbrev pub db_get : Bytes → Run (Option Bytes)
  db_get key store = (store, X.db.base.get key store.data_of)

  abbrev pub db_scan_prefix : Bytes → Run (List (Bytes × Bytes))
  db_scan_prefix prefix store = (store, X.db.scan_prefix prefix store.data_of)

  abbrev pub db_scan : Bytes → Bytes → Run (List (Bytes × Bytes))
  db_scan start end_key store = (store, X.db.scan start end_key store.data_of)

  abbrev pub put_non_durable : Bytes → Bytes → Run (Unit {0})
  put_non_durable key value store = with_data store (X.db.base.put key value store.data_of)

  abbrev pub write_non_durable : List Write → Run (Unit {0})
  write_non_durable batch store = with_data store (X.db.write batch store.data_of)

  abbrev pub or_corrupt : {A : Type 0} → Option A → Result StorageError A
  or_corrupt (some a) = ok a
  or_corrupt none = err StorageError.corruption

  unfoldable pub get_index_meta : Run FolderIndexMeta
  get_index_meta = do
    bytes ← db_get ix_key
    lift (or_corrupt (decode_or_default X.db.base X.codec.meta bytes))

  abbrev pub decoded_remote : Option Bytes → Result StorageError Storage.RemoteIndexState
  decoded_remote none = ok (record { index_id = 0; max_sequence = pos 0 })
  decoded_remote (some bytes) = or_corrupt (X.codec.decode_remote bytes)

  unfoldable pub get_remote_state : Bytes → Run Storage.RemoteIndexState
  unfolding ◌>>=◌
  get_remote_state device = do bytes ← db_get (device_key device); lift (decoded_remote bytes)

  unfoldable pub put_remote_state : Bytes → Storage.RemoteIndexState → Run (Unit {0})
  put_remote_state device state = put_non_durable (device_key device) (X.codec.encode_remote state)

  abbrev pub entry_of_file : File → Result StorageError (Option Storage.FileInfo)
  entry_of_file file = map_ok some (or_corrupt file.file_info)

  abbrev pub decoded_file : Option Bytes → Result StorageError (Option Storage.FileInfo)
  decoded_file none = ok none
  decoded_file (some bytes) = or_corrupt (X.codec.decode_file bytes) >>=? entry_of_file

  unfoldable pub get_file_proto : Bytes → Run (Option Storage.FileInfo)
  unfolding ◌>>=◌
  get_file_proto name = do bytes ← db_get (file_key name); lift (decoded_file bytes)

  abbrev pub bep_entry : Option Storage.FileInfo → Result StorageError (Option Bep.FileInfo)
  bep_entry none = ok none
  bep_entry (some fi) = map_ok some (file_to_bep fi)

  unfoldable pub get_file : Bytes → Run (Option Bep.FileInfo)
  unfolding ◌>>=◌ get_file_proto
  get_file name = do fi ← get_file_proto name; lift (bep_entry fi)

  -- The writes of a commit, after those of the caller.
  abbrev pub commit_writes : Bytes → FolderIndexMeta → Storage.FileInfo → Bytes → List Write
  commit_writes name meta stored key =
      put ix_key (X.codec.meta.encode meta)
      ∷ put (file_key name) (X.codec.encode_file (record { file_info = some stored }))
      ∷ put key name
      ∷ []

  abbrev pub with_next : FolderIndexMeta → FolderIndexMeta
  with_next meta = record meta { max_sequence = next_sequence meta.max_sequence }

  -- The steps of a commit: each has what was read before it. The last one writes.
  abbrev pub write_commit :
      Bytes
      → Storage.FileInfo
      → List Write
      → List Write
      → FolderIndexMeta
      → Bytes
      → Run (ℤ × Bep.FileInfo)
  write_commit name committed batch dropped meta key = do
    done ← write_non_durable (batch ++ dropped ++ commit_writes name meta committed key)
    lift (map_ok (λ bep. (meta.max_sequence, bep)) (file_to_bep committed))

  abbrev pub commit_at :
      Bytes → Storage.FileInfo → List Write → List Write → FolderIndexMeta → Run (ℤ × Bep.FileInfo)
  commit_at name stored batch dropped meta =
      lift (seq_key meta.max_sequence)
      >>= write_commit name (record stored { sequence = meta.max_sequence }) batch dropped meta

  abbrev pub commit_next :
      Bytes → Storage.FileInfo → List Write → List Write → FolderIndexMeta → Run (ℤ × Bep.FileInfo)
  commit_next name stored batch dropped meta = commit_at name stored batch dropped (with_next meta)

  abbrev pub commit_dropping :
      Bytes → Storage.FileInfo → List Write → List Write → Run (ℤ × Bep.FileInfo)
  commit_dropping name stored batch dropped =
      get_index_meta >>= commit_next name stored batch dropped

  abbrev pub commit_over :
      Bytes → Storage.FileInfo → List Write → Option Storage.FileInfo → Run (ℤ × Bep.FileInfo)
  commit_over name stored batch old =
      lift (drop_old_seq old) >>= commit_dropping name (carried stored old) batch

  unfoldable pub commit_with_new_seq :
      Bytes → Storage.FileInfo → List Write → Run (ℤ × Bep.FileInfo)
  unfolding ◌>>=◌ get_file_proto get_index_meta
  commit_with_new_seq name stored batch = get_file_proto name >>= commit_over name stored batch

  unfoldable pub put_file : Bep.FileInfo → Run ℤ
  unfolding ◌>>=◌ commit_with_new_seq
  put_file file = do
    (seq, committed) ← commit_with_new_seq file.name (file_to_storage file) []
    lift (ok seq)
