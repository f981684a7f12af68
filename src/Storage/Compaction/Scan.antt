-- ===== src/Storage/Compaction/Scan.antt =====
-- bepository-storage/src/compaction.rs, `index_blocks_under_prefix`: what a compaction inserts into its
-- filters for the rows of its snapshot.
use bepository.Prelude.{
  ℕ, Bytes, Option, none, some, List, [], ◌∷◌, ◌++◌, ◌==◌, if◌then◌else◌, ltb, length, not,
  starts_with,
}
use bepository.Storage.Keys.{hash_len, min_block_seq, inbox_key, file_prefix}
use bepository.Lock.Epoch.{Epoch}
use bepository.Storage.Proto.{BlockInfo, FileInfo}
use bepository.Storage.Compaction.State.{Insert, hash_of, seq_of}

abbrev pub before_both : Bytes → ℕ → Option (List Insert) → Option (List Insert)
before_both hash seq none = none
before_both hash seq (some later) = some (hash_of hash ∷ seq_of seq ∷ later)

-- The data of a block is in the database: its hash and its number are inserted, and a hash of another
-- length or a number below the floor ends the compaction.
abbrev pub index_block : BlockInfo → Option ℕ → Option (List Insert) → Option (List Insert)
index_block block none later = later
index_block block (some seq) later =
    if not (length block.hash == hash_len)
    then none
    else if ltb seq min_block_seq
    then none
    else before_both block.hash seq later

unfoldable pub index_blocks : List BlockInfo → Option (List Insert)
index_blocks [] = some []
index_blocks (block ∷ blocks) = index_block block block.blockseq (index_blocks blocks)

abbrev pub both : Option (List Insert) → Option (List Insert) → Option (List Insert)
both none later = none
both (some first) none = none
both (some first) (some later) = some (first ++ later)

-- One row: a value that cannot be decoded ends the compaction, one without an entry is passed over.
abbrev pub index_row : Option (Option FileInfo) → Option (List Insert) → Option (List Insert)
index_row none later = none
index_row (some none) later = later
index_row (some (some fi)) later = both (index_blocks fi.blocks) later

unfoldable pub index_rows : (Bytes → Option (Option FileInfo)) → List Bytes → Option (List Insert)
unfolding index_blocks
index_rows extract [] = some []
index_rows extract (value ∷ rows) = index_row (extract value) (index_rows extract rows)

-- The values of the rows that a scan of a prefix gives.
abbrev pub rows_under : Bytes → List (Bytes × Bytes) → List Bytes
rows_under prefix [] = []
rows_under prefix ((key, value) ∷ rows) =
    let rest = rows_under prefix rows in if starts_with prefix key then value ∷ rest else rest

-- The rows of a snapshot of the database, and how the values of files are decoded.
pub record Snapshot : Type 0 where
  pub decode_inbox : Bytes → Option (Option FileInfo)
  pub decode_file : Bytes → Option (Option FileInfo)
  pub rows : List (Bytes × Bytes)

-- The two scans of `create_compaction_filter`: `none` if they end with an error, and no filter is made.
unfoldable pub scan : Epoch → Snapshot → Option (List Insert)
unfolding index_rows
scan epoch snapshot =
    both (index_rows snapshot.decode_inbox (rows_under (inbox_key epoch []) snapshot.rows))
      (index_rows snapshot.decode_file (rows_under file_prefix snapshot.rows))
