-- ===== src/Storage/Blocks/Tests.antt =====
-- Pointers carried over between two versions of a file, and the theorems at them.
use bepository.Prelude.{
  ℕ, ◌≡◌, refl, Bytes, codes, Option, none, some, List, [], ◌∷◌, Result, ok, ◌==◌, if◌then◌else◌,
  false,
}
use bepository.Prelude.Int.{pos}
use bepository.Bep.Errors.{StorageError}
use bepository.Storage.Proto.{BlockInfo, FileInfo}
use bepository.Storage.Blocks.{resolve_block_data, carry_block_pointers, is_complete}
use bepository.Storage.Blocks.Carried.{AllAddressed, carry_block_pointers-AllAddressed}
use bepository.Storage.Blocks.Complete.{all_covered, is_complete-carry_block_pointers}

-- A database with one block, and a hash that keeps the text.
abbrev read_one : ℕ → Result StorageError (Option Bytes)
read_one seq = ok (if seq == 2000 then some (codes "A") else none)

abbrev text_hash : Bytes → Bytes
text_hash content = content

abbrev stored : BlockInfo
stored = record {
  hash = codes "A";
  offset = pos 0;
  size = pos 1;
  blockseq = some 2000;
  inline_data = none;
}

abbrev small : BlockInfo
small = record {
  hash = codes "B";
  offset = pos 0;
  size = pos 1;
  blockseq = none;
  inline_data = some (codes "B");
}

abbrev wanted : BlockInfo
wanted = record {
  hash = codes "A";
  offset = pos 1;
  size = pos 1;
  blockseq = none;
  inline_data = none;
}

abbrev entry : List BlockInfo → FileInfo
entry blocks = record {
  name = codes "x";
  size = pos 2;
  modified_s = pos 0;
  modified_by = 0;
  version = none;
  sequence = pos 1;
  blocks = blocks;
  symlink_target = [];
  blocks_hash = [];
  previous_blocks_hash = [];
  encrypted = [];
  file_type = pos 1;
  permissions = 420;
  modified_ns = pos 0;
  block_size = pos 131072;
  platform = none;
  local_flags = 0;
  version_hash = [];
  inode_change_ns = pos 0;
  encryption_trailer_size = pos 0;
  deleted = false;
  invalid = false;
  no_permissions = false;
}

abbrev old_entry : FileInfo
old_entry = entry (stored ∷ [])

abbrev new_entry : FileInfo
new_entry = entry (small ∷ wanted ∷ [])

carried_run :
    (carry_block_pointers new_entry old_entry).blocks
    ≡ small ∷ (record wanted { blockseq = some 2000 }) ∷ []
unfolding carry_block_pointers
carried_run = refl

old_addressed : AllAddressed read_one text_hash old_entry.blocks
unfolding resolve_block_data
old_addressed = (refl, tt)

new_addressed : AllAddressed read_one text_hash new_entry.blocks
unfolding resolve_block_data
new_addressed = (refl, (tt, tt))

carry_block_pointers-AllAddressed_example :
    AllAddressed read_one text_hash (carry_block_pointers new_entry old_entry).blocks
carry_block_pointers-AllAddressed_example =
    carry_block_pointers-AllAddressed read_one text_hash new_entry old_entry old_addressed
      new_addressed

is_complete-carry_block_pointers_example :
    is_complete (carry_block_pointers new_entry old_entry).blocks
    ≡ all_covered old_entry.blocks new_entry.blocks
is_complete-carry_block_pointers_example = is_complete-carry_block_pointers new_entry old_entry
