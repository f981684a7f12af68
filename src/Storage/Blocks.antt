-- ===== src/Storage/Blocks.antt =====
-- The blocks of stored file entries: bepository-storage/src/block_read.rs, and carry_block_pointers
-- of bepository-storage/src/store.rs.
pub mod Carried
pub mod Complete
mod Tests
use bepository.Prelude.{
  ℕ, ◌≡◌, Bytes, Bool, true, false, ◌&&◌, ◌||◌, Option, none, some, List, [], ◌∷◌, map, Result, ok,
  err, ◌>>◌, is_some, is_none, if◌then◌else◌, bytes_eq,
}
use bepository.Bep.Errors.{StorageError}
use bepository.Storage.Keys.{validate_block_seq}
use bepository.Storage.Proto.{BlockInfo, FileInfo}

-- `read` is `read_block_data`: the value under the key of a block number.
unfoldable pub resolve_block_data :
    (ℕ → Result StorageError (Option Bytes)) → BlockInfo → Result StorageError (Option Bytes)
unfolding validate_block_seq
resolve_block_data read block = elim block.inline_data [
  | some inline ↦ ok (some inline)
  | none ↦ elim block.blockseq [ some seq ↦ validate_block_seq seq >> read seq | none ↦ ok none ]
]

abbrev pub has_data : BlockInfo → Bool
has_data block = is_some block.blockseq || is_some block.inline_data

-- The map from hashes holds the first block with data for each hash.
unfoldable pub by_hash : List BlockInfo → Bytes → Option BlockInfo
by_hash [] hash = none
by_hash (block ∷ blocks) hash =
    let rest = by_hash blocks hash in
    if has_data block && bytes_eq block.hash hash then some block else rest

abbrev pub take_data : BlockInfo → Option BlockInfo → BlockInfo
take_data block none = block
take_data block (some src) = record block { blockseq = src.blockseq; inline_data = src.inline_data }

unfoldable pub carry_block : List BlockInfo → BlockInfo → BlockInfo
unfolding by_hash
carry_block old block =
    if is_none block.blockseq && is_none block.inline_data
    then take_data block (by_hash old block.hash)
    else block

unfoldable pub carry_block_pointers : FileInfo → FileInfo → FileInfo
unfolding carry_block
carry_block_pointers new old = record new { blocks = map (carry_block old.blocks) new.blocks }

-- The test of complete_file before it commits: no block is without data.
unfoldable pub is_complete : List BlockInfo → Bool
is_complete [] = true
is_complete (block ∷ blocks) = has_data block && is_complete blocks
