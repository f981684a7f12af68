-- ===== src/Storage/Store/BlockOps.antt =====
-- bepository-storage/src/store.rs, FolderStore: storing, reusing and reading the blocks of a file.
use bepository.Prelude.{
  ℕ, Bytes, Bool, true, false, not, ◌||◌, Option, none, some, List, [], ◌∷◌, ◌++◌, Result, ok, err,
  bytes_eq, length, ltb, ◌==◌, if◌then◌else◌,
}
use bepository.Lock.Epoch.{Epoch}
use bepository.Bep.Errors.{StorageError}
use bepository.Storage.Allocator.{SeqRange, allocate}
use bepository.Storage.Blocks.{resolve_block_data}
use bepository.Storage.Compaction.State.{is_block_safe, record_block_write}
use bepository.Storage.Keys.{
  file_key, inbox_key, dirname, hash_len, inline_block_threshold, block_pointer_key,
  block_data_seq_key, block_reverse_key, block_reverse_prefix, parse_block_reverse_key,
  validate_block_seq,
}
use bepository.Storage.Proto.{BlockRef, BlockInfo, FileInfo}
use bepository.Storage.Store.{Run, or_corrupt, db_get, db_scan_prefix, write_non_durable}
use bepository.Storage.Store.Db.{Write, put, Setup, FolderStore, ◌>>=◌, lift, ◌>>=?◌}

-- An entry with the key it was found at, and whether that is an inbox key.
abbrev pub FoundEntry : Type 0
FoundEntry = FileInfo × Bytes × Bool

abbrev pub inline_block : Bytes → BlockInfo → BlockInfo
inline_block bytes block = record block { inline_data = some bytes; blockseq = none }

abbrev pub separate_block : ℕ → BlockInfo → BlockInfo
separate_block seq block = record block { blockseq = some seq; inline_data = none }

-- The loop over the blocks of an entry: those with the hash are changed.
unfoldable pub update_blocks : Bytes → (BlockInfo → BlockInfo) → List BlockInfo → List BlockInfo
update_blocks hash change [] = []
update_blocks hash change (block ∷ blocks) =
    (if bytes_eq block.hash hash then change block else block) ∷ update_blocks hash change blocks

-- `updated_any`
unfoldable pub any_block : Bytes → List BlockInfo → Bool
any_block hash [] = false
any_block hash (block ∷ blocks) = bytes_eq block.hash hash || any_block hash blocks

-- `hash.try_into()`
abbrev pub check_hash : Bytes → Result StorageError (Unit {0})
check_hash hash = if length hash == hash_len then ok tt else err StorageError.invalid_input

module _ (X : Setup) where
  -- An entry in transfer without file_info is passed over for the index.
  abbrev pub inbox_found : Bytes → Option FileInfo → Result StorageError (Option FoundEntry)
  inbox_found key (some fi) = ok (some (fi, key, true))
  inbox_found key none = ok none

  abbrev pub inbox_entry : Bytes → Option Bytes → Result StorageError (Option FoundEntry)
  inbox_entry key none = ok none
  inbox_entry key (some bytes) =
      or_corrupt X (X.codec.decode_inbox bytes) >>=? λ inbox. inbox_found key inbox.file_info

  abbrev pub index_found : Bytes → Option FileInfo → Result StorageError FoundEntry
  index_found key (some fi) = ok (fi, key, false)
  index_found key none = err StorageError.not_found

  abbrev pub index_entry : Bytes → Option Bytes → Result StorageError FoundEntry
  index_entry key none = err StorageError.not_found
  index_entry key (some bytes) =
      or_corrupt X (X.codec.decode_file bytes) >>=? λ file. index_found key file.file_info

  abbrev pub find_in_index : Bytes → Option FoundEntry → Run X FoundEntry
  find_in_index name (some found) = lift (ok found)
  find_in_index name none = do
    bytes ← db_get X (file_key name)
    lift (index_entry (file_key name) bytes)

  abbrev pub find_in_inbox : Option Epoch → Bytes → Run X (Option FoundEntry)
  find_in_inbox none name = lift (ok none)
  find_in_inbox (some epoch) name = do
    bytes ← db_get X (inbox_key epoch name)
    lift (inbox_entry (inbox_key epoch name) bytes)

  -- Also get_file_to_update, which differs in its witness of the lock.
  unfoldable pub find_file_entry : Option Epoch → Bytes → Run X FoundEntry
  unfolding ◌>>=◌
  find_file_entry epoch name = do found ← find_in_inbox epoch name; find_in_index name found

  -- The write of a changed entry, at the key it was found at.
  abbrev pub entry_write : FoundEntry → Write
  entry_write (fi, key, true) = put key (X.codec.encode_inbox (record { file_info = some fi }))
  entry_write (fi, key, false) = put key (X.codec.encode_file (record { file_info = some fi }))

  abbrev pub changed_entry :
      Bytes → (BlockInfo → BlockInfo) → FoundEntry → Result StorageError FoundEntry
  changed_entry hash change (fi, key, is_inbox) =
      if any_block hash fi.blocks
      then ok (record fi { blocks = update_blocks hash change fi.blocks }, key, is_inbox)
      else err StorageError.not_found

  -- The end of the three operations: the entry is read, changed and written after `batch`.
  unfoldable pub update_entry :
      Option Epoch → Bytes → Bytes → (BlockInfo → BlockInfo) → List Write → Run X (Unit {0})
  unfolding ◌>>=◌ find_file_entry update_blocks any_block
  update_entry epoch name hash change batch = do
    found ← find_file_entry epoch name
    changed ← lift (changed_entry hash change found)
    write_non_durable X (batch ++ entry_write changed ∷ [])

  abbrev pub record_write : Bytes → ℕ → Run X (Unit {0})
  record_write hash seq store =
      (record store { gc = record_block_write hash (some seq) store.gc }, ok tt)

  abbrev pub FoundBlock : Type 0
  FoundBlock = Option (Bytes × BlockRef)

  -- Whether the data of a pointer is there.
  abbrev pub with_block_data : Bytes → Run X FoundBlock → BlockRef → Option Bytes → Run X FoundBlock
  with_block_data dir rest block_ref none = rest
  with_block_data dir rest block_ref (some bytes) = lift (ok (some (dir, block_ref)))

  abbrev pub with_pointer : Bytes → Run X FoundBlock → Option Bytes → Run X FoundBlock
  with_pointer dir rest none = rest
  with_pointer dir rest (some ref_bytes) = do
    block_ref ← lift (or_corrupt X (X.codec.decode_ref ref_bytes))
    valid ← lift (validate_block_seq block_ref.seqno)
    bytes ← db_get X (block_data_seq_key block_ref.seqno)
    with_block_data dir rest block_ref bytes

  abbrev pub with_reverse_ref : Bytes → Run X FoundBlock → Option (Bytes × Bytes) → Run X FoundBlock
  with_reverse_ref hash rest none = rest
  with_reverse_ref hash rest (some (_, name)) = do
    ref_bytes ← db_get X (block_pointer_key (dirname name) hash)
    with_pointer (dirname name) rest ref_bytes

  unfoldable pub find_in_refs : Bytes → List (Bytes × Bytes) → Run X FoundBlock
  unfolding ◌>>=◌ validate_block_seq
  find_in_refs hash [] = lift (ok none)
  find_in_refs hash ((key, value) ∷ entries) =
      let rest = find_in_refs hash entries in
      with_reverse_ref hash rest (parse_block_reverse_key key)

  unfoldable pub find_block_dir : Bytes → Run X FoundBlock
  unfolding ◌>>=◌ find_in_refs
  find_block_dir hash store =
      if not (is_block_safe store.gc hash)
      then (store, ok none)
      else (db_scan_prefix X (block_reverse_prefix hash) >>= find_in_refs hash) store

  -- `self.blockseq.allocate()`
  abbrev pub allocated :
      FolderStore X
      → SeqRange × X.db.base.State × Result StorageError ℕ
      → FolderStore X × Result StorageError ℕ
  allocated store (range, s, r) = (record store { data_of = s; blockseq = range }, r)

  abbrev pub allocate_block : Run X ℕ
  allocate_block store =
      allocated store (allocate X.db.base X.codec.meta store.blockseq store.data_of)

  -- The pointer in our directory, unless the block was found in it.
  abbrev pub local_pointer : Bytes → Bytes → Bytes × BlockRef → List Write
  local_pointer dir hash (canonical_dir, block_ref) =
      if bytes_eq canonical_dir dir
      then []
      else put (block_pointer_key dir hash) (X.codec.encode_ref block_ref) ∷ []

  -- The number of the block, and the writes that make it known in our directory.
  abbrev pub place_block : Bytes → Bytes → Bytes → FoundBlock → Run X (ℕ × List Write)
  place_block dir hash bytes (some (canonical_dir, block_ref)) =
      lift (ok (block_ref.seqno, local_pointer dir hash (canonical_dir, block_ref)))
  place_block dir hash bytes none = do
    seq ← allocate_block
    lift (
        ok (
          seq,
          put (block_data_seq_key seq) bytes
              ∷ put (block_pointer_key dir hash) (X.codec.encode_ref (record { seqno = seq }))
              ∷ [],
        ))

  abbrev pub store_placed : Option Epoch → Bytes → Bytes → ℕ × List Write → Run X (Unit {0})
  store_placed epoch name hash (seq, batch) = do
    done ←
        update_entry epoch name hash (separate_block seq)
          (batch ++ put (block_reverse_key hash name) [] ∷ [])
    record_write hash seq

  abbrev pub store_found : Option Epoch → Bytes → Bytes → Bytes → FoundBlock → Run X (Unit {0})
  store_found epoch name hash bytes existing =
      place_block (dirname name) hash bytes existing >>= store_placed epoch name hash

  abbrev pub store_separate : Option Epoch → Bytes → Bytes → Bytes → Run X (Unit {0})
  store_separate epoch name hash bytes = find_block_dir hash >>= store_found epoch name hash bytes

  abbrev pub store_sized : Option Epoch → Bytes → Bytes → Bytes → Run X (Unit {0})
  store_sized epoch name hash bytes =
      if ltb (length bytes) inline_block_threshold
      then update_entry epoch name hash (inline_block bytes) []
      else store_separate epoch name hash bytes

  unfoldable pub store_block : Option Epoch → Bytes → Bytes → Bytes → Run X (Unit {0})
  unfolding ◌>>=◌ find_block_dir update_entry allocate
  store_block epoch name hash bytes = do
    valid ← lift (check_hash hash)
    store_sized epoch name hash bytes

  abbrev pub reused : Bytes → ℕ → Unit {0} → Run X Bool
  reused hash seq _ = do recorded ← record_write hash seq; lift (ok true)

  abbrev pub reuse_found : Option Epoch → Bytes → Bytes → FoundBlock → Run X Bool
  reuse_found epoch name hash none = lift (ok false)
  reuse_found epoch name hash (some (canonical_dir, block_ref)) =
      update_entry epoch name hash (separate_block block_ref.seqno) (
        local_pointer (dirname name) hash (canonical_dir, block_ref)
        ++ put (block_reverse_key hash name) [] ∷ [])
      >>= reused hash block_ref.seqno

  unfoldable pub reuse_block : Option Epoch → Bytes → Bytes → Run X Bool
  unfolding ◌>>=◌ find_block_dir update_entry
  reuse_block epoch name hash = do
    valid ← lift (check_hash hash)
    existing ← find_block_dir hash
    reuse_found epoch name hash existing

  -- The first block of an entry with the hash whose data is there.
  abbrev pub read_next :
      Result StorageError Bytes → Result StorageError (Option Bytes) → Result StorageError Bytes
  read_next rest (err e) = err e
  read_next rest (ok none) = rest
  read_next rest (ok (some bytes)) = ok bytes

  unfoldable pub read_blocks : Bytes → FolderStore X → List BlockInfo → Result StorageError Bytes
  unfolding resolve_block_data
  read_blocks hash store [] = err StorageError.not_found
  read_blocks hash store (block ∷ blocks) =
      let rest = read_blocks hash store blocks in
      if bytes_eq block.hash hash
      then read_next rest
          (resolve_block_data (λ seq. X.db.base.get (block_data_seq_key seq) store.data_of) block)
      else rest

  abbrev pub read_entry_blocks : Bytes → Option Bytes → Run X Bytes
  read_entry_blocks hash none = lift (err StorageError.not_found)
  read_entry_blocks hash (some bytes) = do
    file ← lift (or_corrupt X (X.codec.decode_file bytes))
    λ store. elim file.file_info [
      | some fi ↦ (store, read_blocks hash store fi.blocks)
      | none ↦ (store, err StorageError.not_found)
    ]

  unfoldable pub read_block : Bytes → Bytes → Run X Bytes
  unfolding ◌>>=◌ read_blocks
  read_block name hash = do
    valid ← lift (check_hash hash)
    bytes ← db_get X (file_key name)
    read_entry_blocks hash bytes
