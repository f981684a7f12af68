-- ===== src/Storage/Keys.antt =====
-- bepository-storage/src/store_keys.rs: the keys of a folder's database. A name is the bytes of a
-- `&str`, so it is UTF-8; a hash and a device id are 32 bytes.
pub mod Split
pub mod Extractors
pub mod RoundTrip
pub mod Sequences
pub mod InboxScan
use mathlib.Core.Option
use bepository.Prelude.{
  ℕ, suc, ◌+◌, ◌-◌, ◌≡◌, Bool, true, false, not, ◌&&◌, ◌||◌, Option, none, some, List, [], ◌∷◌,
  ◌++◌, Bytes, codes, Result, ok, err, ◌>>=◌, ok_or, and_then, ltb, leb, ◌==◌, if◌then◌else◌,
  length, take, drop, get_elem?, strip_prefix, starts_with, i64_max,
}
use bepository.Prelude.Int.{ℤ, pos, negsuc, ◌+ℤ◌, leb_ℤ}
use bepository.Prelude.Utf8.{from_utf8}
use bepository.Prelude.BigEndian.{to_be_bytes, from_be_bytes}
use bepository.Bep.Errors.{StorageError}
use bepository.Lock.Epoch
use bepository.Lock.Epoch.{Epoch, as_base32}

abbrev pub hash_len : ℕ
hash_len = 32

abbrev pub inline_block_threshold : ℕ
inline_block_threshold = 4096

-- `u32::try_from(size)` fails on a negative size.
unfoldable pub is_inline_block : ℤ → Bool
is_inline_block (pos s) = ltb s inline_block_threshold
is_inline_block (negsuc s) = false

abbrev pub file_prefix : Bytes
file_prefix = codes "mn"

abbrev pub seq_prefix : Bytes
seq_prefix = codes "ms"

abbrev pub block_prefix : Bytes
block_prefix = codes "mb"

abbrev pub block_rev_prefix : Bytes
block_rev_prefix = codes "mr"

abbrev pub ix_key : Bytes
ix_key = codes "mx"

abbrev pub device_prefix : Bytes
device_prefix = codes "md"

abbrev pub inbox_prefix : Bytes
inbox_prefix = codes "mi"

abbrev pub block_data_prefix : Bytes
block_data_prefix = codes "bd"

abbrev pub slash : ℕ
slash = b'/'

-- `rsplit_once('/')`
unfoldable pub rsplit_slash : Bytes → Option (Bytes × Bytes)
rsplit_slash [] = none
rsplit_slash (x ∷ s) = elim (rsplit_slash s) [
  | some (dir, basename) ↦ some (x ∷ dir, basename)
  | none ↦ if x == slash then some ([], s) else none
]

abbrev tail_after : ℕ → Bytes → Option (Bytes × Bytes)
tail_after x [] = none
tail_after x (y ∷ s) = if (x == slash) && (y == slash) then some ([], s) else none

-- `rsplit_once("//")`: the last place where two slashes stand together.
unfoldable pub rsplit_slashes : Bytes → Option (Bytes × Bytes)
rsplit_slashes [] = none
rsplit_slashes (x ∷ s) = elim (rsplit_slashes s) [
  | some (dir, basename) ↦ some (x ∷ dir, basename)
  | none ↦ tail_after x s
]

unfoldable pub split_name : Bytes → Bytes × Bytes
unfolding rsplit_slash
split_name name = elim (rsplit_slash name) [ some p ↦ p | none ↦ ([], name) ]

unfoldable pub dirname : Bytes → Bytes
unfolding split_name
dirname name = (split_name name).0

unfoldable pub join_name : Bytes → Bytes → Bytes
join_name [] basename = basename
join_name (x ∷ dir) basename = (x ∷ dir) ++ slash ∷ basename

-- `<dir>//<basename>`
abbrev pub dir_and_base : Bytes → Bytes
dir_and_base name = let (dir, basename) = split_name name in dir ++ slash ∷ slash ∷ basename

unfoldable pub file_key : Bytes → Bytes
unfolding split_name
file_key name = file_prefix ++ dir_and_base name

-- The end of the three parsers of keys that hold a name.
unfoldable pub parse_dir_and_base : Bytes → Option Bytes
unfolding rsplit_slashes join_name
parse_dir_and_base rest =
    and_then (from_utf8 rest)
      λ s. and_then (rsplit_slashes s) λ (dir, basename). some (join_name dir basename)

unfoldable pub parse_file_key : Bytes → Option Bytes
unfolding parse_dir_and_base
parse_file_key key = and_then (strip_prefix file_prefix key) parse_dir_and_base

abbrev pub seq_key_len : ℕ
seq_key_len = 10

unfoldable pub seq_key : ℤ → Result StorageError Bytes
unfolding to_be_bytes
seq_key (pos seq) = ok (seq_prefix ++ to_be_bytes 8 seq)
seq_key (negsuc seq) = err StorageError.internal

unfoldable pub parse_seq_key : Bytes → Option ℕ
unfolding from_be_bytes
parse_seq_key key =
    if not (length key == seq_key_len) || not (starts_with seq_prefix key)
    then none
    else some (from_be_bytes 0 (drop 2 key))

abbrev pub seq_scan_end : Bytes
seq_scan_end = codes "mt"

-- `since.checked_add(1)` on an `i64`
unfoldable pub seq_scan_start : ℤ → Result StorageError Bytes
unfolding seq_key ◌+ℤ◌
seq_scan_start since =
    let next = since +ℤ pos 1 in
    if leb_ℤ next (pos i64_max) then seq_key next else err StorageError.internal

unfoldable pub block_pointer_key : Bytes → Bytes → Bytes
block_pointer_key dir hash = block_prefix ++ dir ++ slash ∷ hash

unfoldable pub block_data_seq_key : ℕ → Bytes
unfolding to_be_bytes
block_data_seq_key seq = block_data_prefix ++ to_be_bytes 8 seq

abbrev pub min_block_seq : ℕ
min_block_seq = 1024

unfoldable pub validate_block_seq : ℕ → Result StorageError (Unit {0})
validate_block_seq seq = if ltb seq min_block_seq then err StorageError.corruption else ok tt

unfoldable pub parse_block_data_seq_key : Bytes → Option ℕ
unfolding from_be_bytes
parse_block_data_seq_key key =
    if not (length key == 10) || not (starts_with block_data_prefix key)
    then none
    else let seq = from_be_bytes 0 (drop 2 key) in if ltb seq min_block_seq then none else some seq

unfoldable pub block_reverse_key : Bytes → Bytes → Bytes
unfolding split_name
block_reverse_key hash name = block_rev_prefix ++ hash ++ slash ∷ dir_and_base name

unfoldable pub block_reverse_prefix : Bytes → Bytes
block_reverse_prefix hash = block_rev_prefix ++ hash ++ slash ∷ []

-- The part after a field of `n` bytes and a slash.
abbrev pub after_field : ℕ → Bytes → Option Bytes
after_field n rest = elim (drop n rest) [ [] ↦ none | c ∷ s ↦ if c == slash then some s else none ]

unfoldable pub parse_block_reverse_key : Bytes → Option (Bytes × Bytes)
unfolding parse_dir_and_base
parse_block_reverse_key key = and_then (strip_prefix block_rev_prefix key) λ rest.
    if ltb (length rest) (hash_len + 1)
    then none
    else and_then (after_field hash_len rest)
        λ s. and_then (parse_dir_and_base s) λ name. some (take hash_len rest, name)

abbrev pub epoch_base32_len : ℕ
epoch_base32_len = 8

unfoldable pub inbox_key : Epoch → Bytes → Bytes
unfolding split_name
inbox_key epoch name = inbox_prefix ++ as_base32 epoch ++ slash ∷ dir_and_base name

unfoldable pub parse_inbox_key : Bytes → Option (Epoch × Bytes)
unfolding parse_dir_and_base Epoch.parse
parse_inbox_key key = and_then (strip_prefix inbox_prefix key) λ rest.
    if ltb (length rest) (epoch_base32_len + 1)
    then none
    else and_then (from_utf8 (take epoch_base32_len rest)) λ epoch_str.
      and_then (Epoch.parse epoch_str) λ epoch.
        and_then (after_field epoch_base32_len rest)
          λ s. and_then (parse_dir_and_base s) λ name. some (epoch, name)

unfoldable pub device_key : Bytes → Bytes
device_key devid = device_prefix ++ devid

unfoldable pub parse_block_pointer_key : Bytes → Option Bytes
parse_block_pointer_key key =
    if ltb (length key) (2 + 1 + hash_len) || not (starts_with block_prefix key)
    then none
    else after_field (length key - hash_len - 1) key

unfoldable pub file_key_dir : Bytes → Option Bytes
unfolding rsplit_slashes
file_key_dir key =
    and_then (strip_prefix file_prefix key)
      λ rest. and_then (from_utf8 rest) λ s. and_then (rsplit_slashes s) λ (dir, _). some dir

unfoldable pub block_key_dir : Bytes → Option Bytes
block_key_dir key =
    if not (starts_with block_prefix key)
    then none
    else if ltb (length key) (2 + (1 + hash_len))
    then none
    else from_utf8 (drop 2 (take (length key - (1 + hash_len)) key))
