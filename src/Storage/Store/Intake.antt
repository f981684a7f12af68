-- ===== src/Storage/Store/Intake.antt =====
-- bepository-storage/src/store.rs, FolderStore: staged files, scans of the index, and the floor of the
-- peers.
use bepository.Prelude.{
  ℕ, Bytes, Bool, true, false, not, ◌&&◌, Option, none, some, List, [], ◌∷◌, map, Result, ok, err,
  and_then, length, ◌==◌, if◌then◌else◌,
}
use bepository.Prelude.Int.{ℤ, pos, eq_ℤ, leb_ℤ}
use bepository.Prelude.Utf8.{from_utf8}
use bepository.Lock.Epoch.{Epoch, before}
use bepository.Bep.Errors.{StorageError}
use bepository.Bep.Proto as Bep
use bepository.Storage.Proto as Storage
use bepository.Storage.Blocks.{carry_block_pointers, is_complete}
use bepository.Storage.Compaction.State.{CompactionState, record_block_write}
use bepository.Storage.Keys.{
  inbox_key, parse_inbox_key, inbox_prefix, device_prefix, block_reverse_key, hash_len, file_prefix,
  seq_scan_start, seq_scan_end,
}
use bepository.Storage.Proto.{File, Inbox, FolderIndexMeta}
use bepository.Storage.Proto.Convert.{file_to_storage, file_to_bep, vector_to_bep}
use bepository.Storage.Store.Db.{Write, put, delete, Setup, ◌>>=◌, lift, map_ok, ◌>>=?◌}
use bepository.Storage.Store.{
  carried, Run, or_corrupt, db_get, db_scan, db_scan_prefix, put_non_durable, write_non_durable,
  get_file_proto, get_file, commit_with_new_seq,
}

-- `==` on the versions of the protocol.
unfoldable pub same_counters : List Bep.Counter → List Bep.Counter → Bool
same_counters [] [] = true
same_counters [] (d ∷ ds) = false
same_counters (c ∷ cs) [] = false
same_counters (c ∷ cs) (d ∷ ds) = (c.id == d.id) && (c.value == d.value) && same_counters cs ds

abbrev pub same_version : Option Bep.Vector → Option Bep.Vector → Bool
same_version none none = true
same_version none (some w) = false
same_version (some v) none = false
same_version (some v) (some w) = same_counters v.counters w.counters

abbrev pub bep_version : Option Storage.Vector → Option Bep.Vector
bep_version none = none
bep_version (some v) = some (vector_to_bep v)

-- The reverse references of carried blocks, and their hashes and numbers.
abbrev pub carried_ref : Storage.BlockInfo → Option (Bytes × ℕ)
carried_ref block = elim block.blockseq [
  | some seq ↦ if length block.hash == hash_len then some (block.hash, seq) else none
  | none ↦ none
]

unfoldable pub carried_refs : List Storage.BlockInfo → List (Bytes × ℕ)
carried_refs [] = []
carried_refs (block ∷ blocks) = elim (carried_ref block) [
  | some ref ↦ ref ∷ carried_refs blocks
  | none ↦ carried_refs blocks
]

-- `min`, over the states of the peers.
unfoldable pub least_sequence : List Storage.RemoteIndexState → Option ℤ
least_sequence [] = none
least_sequence (state ∷ states) = elim (least_sequence states) [
  | some f ↦ some (if leb_ℤ state.max_sequence f then state.max_sequence else f)
  | none ↦ some state.max_sequence
]

-- `NonZeroI64::new`
abbrev pub non_zero : ℤ → Option ℤ
non_zero n = if eq_ℤ n (pos 0) then none else some n

-- The keys of the files in transfer of epochs before this one.
unfoldable pub old_inbox_keys : Epoch → List (Bytes × Bytes) → List Bytes
old_inbox_keys current_epoch [] = []
old_inbox_keys current_epoch ((key, value) ∷ entries) =
    let rest = old_inbox_keys current_epoch entries in
    elim (parse_inbox_key key) [
      | some (epoch, name) ↦ if before epoch current_epoch then key ∷ rest else rest
      | none ↦ rest
    ]

module _ (X : Setup) where
  abbrev pub reverse_puts : Bytes → List (Bytes × ℕ) → List Write
  reverse_puts name [] = []
  reverse_puts name ((hash, seq) ∷ refs) =
      put (block_reverse_key hash name) [] ∷ reverse_puts name refs

  abbrev pub refs_of : Storage.FileInfo → Option Storage.FileInfo → List (Bytes × ℕ)
  refs_of stored none = []
  refs_of stored (some src) = carried_refs (carry_block_pointers stored src).blocks

  unfoldable pub record_all : List (Bytes × ℕ) → CompactionState X.blooms → CompactionState X.blooms
  record_all [] gc = gc
  record_all ((hash, seq) ∷ refs) gc = record_all refs (record_block_write hash (some seq) gc)

  abbrev pub record_writes : List (Bytes × ℕ) → Run X (Unit {0})
  record_writes refs store = (record store { gc = record_all refs store.gc }, ok tt)

  unfoldable pub put_file_with_carry : Bep.FileInfo → Bytes → Run X ℤ
  unfolding ◌>>=◌ get_file_proto commit_with_new_seq carried_refs record_all
  put_file_with_carry file carry_from = do
    src ← get_file_proto X carry_from
    let stored = file_to_storage file
    let refs = refs_of stored src
    (seq, committed) ←
        commit_with_new_seq X file.name (carried stored src) (reverse_puts file.name refs)
    recorded ← record_writes refs
    lift (ok seq)

  -- The loops over a scan: the first entry that does not decode ends them.
  unfoldable pub decode_files : List (Bytes × Bytes) → Result StorageError (List Bep.FileInfo)
  decode_files [] = ok []
  decode_files ((key, value) ∷ entries) =
      let rest = decode_files entries in
      or_corrupt X (X.codec.decode_file value) >>=? λ file. or_corrupt X file.file_info >>=? λ fi.
      file_to_bep fi >>=? λ bep. map_ok (λ files. bep ∷ files) rest

  unfoldable pub all_files : Run X (List Bep.FileInfo)
  unfolding ◌>>=◌ decode_files
  all_files = do entries ← db_scan_prefix X file_prefix; lift (decode_files entries)

  abbrev pub prepend_some : Option Bep.FileInfo → List Bep.FileInfo → List Bep.FileInfo
  prepend_some none files = files
  prepend_some (some file) files = file ∷ files

  unfoldable pub files_named : List (Bytes × Bytes) → Run X (List Bep.FileInfo)
  unfolding ◌>>=◌ get_file
  files_named [] = lift (ok [])
  files_named ((key, value) ∷ entries) =
      let rest = files_named entries in
      do
        name ← lift (or_corrupt X (from_utf8 value))
        fi ← get_file X name
        files ← rest
        lift (ok (prepend_some fi files))

  unfoldable pub files_since : ℤ → Run X (List Bep.FileInfo)
  unfolding ◌>>=◌ files_named
  files_since since = do
    start ← lift (seq_scan_start since)
    entries ← db_scan X start seq_scan_end
    files_named entries

  unfoldable pub stage_file : Epoch → Bep.FileInfo → Run X (Unit {0})
  stage_file epoch file =
      put_non_durable X (inbox_key epoch file.name)
        (X.codec.encode_inbox (record { file_info = some (file_to_storage file) }))

  abbrev pub entry_of_inbox : Inbox → Result StorageError (Option Storage.FileInfo)
  entry_of_inbox inbox = map_ok some (or_corrupt X inbox.file_info)

  abbrev pub decoded_inbox : Option Bytes → Result StorageError (Option Storage.FileInfo)
  decoded_inbox none = ok none
  decoded_inbox (some bytes) = or_corrupt X (X.codec.decode_inbox bytes) >>=? entry_of_inbox

  abbrev pub commit_staged :
      Epoch → Bytes → Storage.FileInfo → Option Storage.FileInfo → Run X (Option Bep.FileInfo)
  commit_staged epoch name staged old =
      if not (is_complete (carried staged old).blocks) then lift (err StorageError.internal) else do
        (seq, committed) ← commit_with_new_seq X name staged (delete (inbox_key epoch name) ∷ [])
        lift (ok (some committed))

  abbrev pub complete_staged :
      Epoch → Bytes → Option Bep.Vector → Option Storage.FileInfo → Run X (Option Bep.FileInfo)
  complete_staged epoch name expected_version none = lift (ok none)
  complete_staged epoch name expected_version (some staged) =
      if not (same_version (bep_version staged.version) expected_version)
      then lift (ok none)
      else do old ← get_file_proto X name; commit_staged epoch name staged old

  unfoldable pub complete_file : Epoch → Bytes → Option Bep.Vector → Run X (Option Bep.FileInfo)
  unfolding ◌>>=◌ get_file_proto commit_with_new_seq same_counters is_complete
  complete_file epoch name expected_version = do
    bytes ← db_get X (inbox_key epoch name)
    staged ← lift (decoded_inbox bytes)
    complete_staged epoch name expected_version staged

  abbrev pub delete_keys : List Bytes → Run X ℕ
  delete_keys [] = lift (ok 0)
  delete_keys (key ∷ keys) = do
    done ← write_non_durable X (map delete (key ∷ keys))
    lift (ok (length (key ∷ keys)))

  unfoldable pub gc_inbox : Epoch → Run X ℕ
  unfolding ◌>>=◌ old_inbox_keys
  gc_inbox current_epoch = do
    entries ← db_scan_prefix X inbox_prefix
    delete_keys (old_inbox_keys current_epoch entries)

  unfoldable pub decode_states :
      List (Bytes × Bytes) → Result StorageError (List Storage.RemoteIndexState)
  decode_states [] = ok []
  decode_states ((key, value) ∷ entries) =
      let rest = decode_states entries in
      or_corrupt X (X.codec.decode_remote value) >>=? λ state.
      map_ok (λ states. state ∷ states) rest

  unfoldable pub compute_peer_floor : Run X (Option ℤ)
  unfolding ◌>>=◌ decode_states least_sequence
  compute_peer_floor = do
    entries ← db_scan_prefix X device_prefix
    states ← lift (decode_states entries)
    lift (ok (and_then (least_sequence states) non_zero))
