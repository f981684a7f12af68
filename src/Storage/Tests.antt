-- ===== src/Storage/Tests.antt =====
-- The keys at fixed names, and the theorems at them.
use bepository.Prelude.{
  false, ◌∷◌, ◌++◌, ◌≡◌, refl, Bytes, codes, some, none, true, not, ◌&&◌, ok, arith, [], ltb,
  lex_lt, starts_with,
}
use bepository.Prelude.Int.{pos}
use bepository.Prelude.BigEndian.{to_be_bytes}
use bepository.Prelude.Utf8.{is_utf8}
use bepository.Lock.Base32.{digit, to_base32}
use bepository.Lock.Epoch.{Epoch}
use bepository.Lock.Epoch.Laws.{IsValid}
use bepository.Storage.Keys.{
  file_key, parse_file_key, dirname, block_reverse_key, parse_block_reverse_key, inbox_key,
  parse_inbox_key, seq_key, seq_scan_start, seq_scan_end,
}
use bepository.Storage.Keys.Split.{IsName}
use bepository.Storage.Keys.RoundTrip.{
  parse_file_key-file_key, parse_block_reverse_key-block_reverse_key, parse_inbox_key-inbox_key,
}
use bepository.Storage.Keys.Sequences.{seq_scan_range}
use bepository.Storage.Keys.InboxScan.{is_empty, inbox_key-root_prefix}
use bepository.Bep.Proto as Bep
use bepository.Storage.Proto.Convert.{file_to_bep, file_to_storage}
use bepository.Storage.Proto.RoundTrip.{canonical_type, file_to_bep-file_to_storage}
use bepository.Storage.Stats.{bytes_bucket_index}
use bepository.Storage.Stats.Buckets.{InBucket, bytes_bucket_index-InBucket}

abbrev photo : Bytes
photo = codes "photos/2026/a.jpg"

abbrev hash : Bytes
hash = codes "0123456789abcdef0123456789abcdef"

photo-IsName : IsName photo
unfolding is_utf8
photo-IsName = record { utf8 = refl; relative = refl }

photo_key : file_key photo ≡ codes "mnphotos/2026//a.jpg"
unfolding file_key
photo_key = refl

parse_file_key-file_key_example : parse_file_key (file_key photo) ≡ some photo
parse_file_key-file_key_example = parse_file_key-file_key photo photo-IsName

parse_block_reverse_key-block_reverse_key_example :
    parse_block_reverse_key (block_reverse_key hash photo) ≡ some (hash, photo)
parse_block_reverse_key-block_reverse_key_example =
    parse_block_reverse_key-block_reverse_key hash photo refl photo-IsName

abbrev seven : Epoch
seven = record { val = 7; base32 = codes "00000007" }

seven-IsValid : IsValid seven
unfolding to_base32 digit
seven-IsValid = record { fits = omega arith; cached = refl }

parse_inbox_key-inbox_key_example : parse_inbox_key (inbox_key seven photo) ≡ some (seven, photo)
parse_inbox_key-inbox_key_example = parse_inbox_key-inbox_key seven photo seven-IsValid photo-IsName

inbox_key-root_prefix_example :
    starts_with (inbox_key seven []) (inbox_key seven photo) ≡ is_empty (dirname photo)
inbox_key-root_prefix_example = inbox_key-root_prefix seven photo photo-IsName

abbrev dir : Bytes
dir = codes "photos"

dir_utf8 : is_utf8 dir ≡ true
unfolding is_utf8
dir_utf8 = refl

abbrev key_of_300 : Bytes
key_of_300 = codes "ms" ++ 0 ∷ 0 ∷ 0 ∷ 0 ∷ 0 ∷ 0 ∷ 1 ∷ 44 ∷ []

seq_key_300 : seq_key (pos 300) ≡ ok key_of_300
unfolding seq_key to_be_bytes
seq_key_300 = refl

seq_scan_range_example :
    (start : Bytes) × (seq_scan_start (pos 255) ≡ ok start)
    × ((not (lex_lt key_of_300 start) && lex_lt key_of_300 seq_scan_end) ≡ ltb 255 300)
seq_scan_range_example = seq_scan_range 255 300 key_of_300 (omega arith) (omega arith) seq_key_300

abbrev link : Bep.FileInfo
link = record {
  name = photo;
  size = pos 3;
  modified_s = pos 0;
  modified_by = 0;
  version = some (record { counters = record { id = 7; value = 2 } ∷ [] });
  sequence = pos 1;
  blocks = [];
  symlink_target = codes "b";
  blocks_hash = [];
  previous_blocks_hash = [];
  encrypted = [];
  file_type = pos 2;
  permissions = 420;
  modified_ns = pos 0;
  block_size = pos 0;
  platform = none;
  local_flags = 0;
  version_hash = [];
  inode_change_ns = pos 0;
  encryption_trailer_size = pos 0;
  deleted = false;
  invalid = false;
  no_permissions = false;
}

file_to_bep-file_to_storage_example :
    file_to_bep (file_to_storage link) ≡ ok (record link { file_type = canonical_type (pos 2) })
file_to_bep-file_to_storage_example = file_to_bep-file_to_storage link

bytes_bucket_index-InBucket_example : InBucket 5000 (bytes_bucket_index 5000)
bytes_bucket_index-InBucket_example = bytes_bucket_index-InBucket 5000
