-- ===== src/Bep/Tests.antt =====
-- Runs of the conflict and validation code at fixed inputs, and the theorems at them.
use bepository.Prelude.{
  ℕ, ◌≡◌, ◌≢◌, refl, Bytes, codes, some, none, false, ok, err, arith, List, [], ◌∷◌, if◌then◌else◌,
  ltb, ◌↔◌, ◌⊎◌,
}
use bepository.Prelude.Int.{pos, ◌+ℤ◌}
use bepository.Prelude.{zero, suc, ◌++◌, ◌^◌, ◌<◌, ◌≤◌, length, Option, true}
use bepository.Prelude.Int.{ℤ, negsuc}
use bepository.Prelude.BigEndian.{to_be_bytes}
use bepository.Bep.Framing.{Header, FramePackages, read_message, write_message, max_message_size}
use bepository.Bep.Framing.RoundTrip.{sent_header, payload, read_message-write_message}
use bepository.Bep.Errors.{BepError}
use bepository.Bep.Proto.{Counter, Vector, BlockInfo, FileInfo}
use bepository.Bep.Conflict.{
  Ordering, compare_vectors, resolve_conflict, has_repeat, sort_counters, insert_counter, merge,
}
use bepository.Bep.Conflict.Values.{HasNoRepeat}
use bepository.Bep.Conflict.Compare.{HasRepeat, Means, compare_vectors_sound, compare_vectors_error}
use bepository.Bep.Conflict.Resolve.{resolve_conflict_symmetric}
use bepository.Bep.Validate.{validate_file_info}
use bepository.Bep.Validate.Blocks.{
  IsWellFormed, validate_file_info_iff, holders, accepted_blocks_partition,
}
use bepository.Bep.DeviceId.{luhn_check, decode_char}
use bepository.Bep.DeviceId.Check.{luhn_check-one_character}

abbrev counter : ℕ → ℕ → Counter
counter id value = record { id = id; value = value }

abbrev ours : Vector
ours = record { counters = counter 7 2 ∷ counter 3 1 ∷ [] }

abbrev theirs : Vector
theirs = record { counters = counter 3 4 ∷ [] }

abbrev twice : Vector
twice = record { counters = counter 3 4 ∷ counter 3 1 ∷ [] }

concurrent_run : compare_vectors ours theirs ≡ ok Ordering.concurrent
unfolding compare_vectors has_repeat sort_counters insert_counter merge
concurrent_run = refl

repeat_run : compare_vectors ours twice ≡ err BepError.peer_bad_message
unfolding compare_vectors has_repeat sort_counters insert_counter
repeat_run = refl

ours_unique : HasNoRepeat ours.counters
ours_unique id = ground arith

theirs_unique : HasNoRepeat theirs.counters
theirs_unique id = ground arith

compare_vectors_sound_example :
    (o : Ordering) × (compare_vectors ours theirs ≡ ok o) × Means o ours theirs
compare_vectors_sound_example = compare_vectors_sound ours theirs ours_unique theirs_unique

compare_vectors_error_example :
    (compare_vectors ours twice ≡ err BepError.peer_bad_message)
    ↔ (HasRepeat ours ⊎ HasRepeat twice)
compare_vectors_error_example = compare_vectors_error ours twice

abbrev hash : Bytes
hash = codes "0123456789abcdef0123456789abcdef"

abbrev block : ℕ → ℕ → BlockInfo
block offset size = record { offset = pos offset; size = pos size; hash = hash }

abbrev file : Vector → FileInfo
file v = record {
  name = codes "a/b";
  size = pos 5;
  modified_s = pos 0;
  modified_by = 0;
  version = some v;
  sequence = pos 1;
  blocks = block 0 3 ∷ block 3 2 ∷ [];
  symlink_target = [];
  blocks_hash = [];
  previous_blocks_hash = [];
  encrypted = [];
  file_type = pos 0;
  permissions = 420;
  modified_ns = pos 0;
  block_size = pos 131072;
  platform = none;
  local_flags = 0;
  version_hash = [];
  inode_change_ns = pos 0;
  encryption_trailer_size = pos 0;
  deleted = false;
  invalid = false;
  no_permissions = false;
}

file_accepted : validate_file_info (file ours) ≡ ok tt
unfolding validate_file_info ◌+ℤ◌
file_accepted = refl

validate_file_info_iff_example : (validate_file_info (file ours) ≡ ok tt) ↔ IsWellFormed (file ours)
validate_file_info_iff_example = validate_file_info_iff (file ours)

abbrev two_blocks : List BlockInfo
two_blocks = block 0 3 ∷ block 3 2 ∷ []

two_blocks_some : two_blocks ≢ []
two_blocks_some h = absurd (ground arith)

accepted_blocks_partition_example :
    (size : ℕ) × (pos 5 ≡ pos size)
    × ((i : ℕ) → holders two_blocks i ≡ (if ltb i size then 1 else 0))
accepted_blocks_partition_example =
    accepted_blocks_partition (file ours) file_accepted two_blocks_some

devices_differ : codes "A" ≢ codes "B"
devices_differ h = absurd (ground arith)

resolve_conflict_symmetric_example :
    resolve_conflict (file ours) (codes "A") (file theirs) (codes "B")
    ≡ resolve_conflict (file theirs) (codes "B") (file ours) (codes "A")
resolve_conflict_symmetric_example =
    resolve_conflict_symmetric (file ours) (file theirs) (codes "A") (codes "B") devices_differ

check_upper : luhn_check (codes "BA") ≡ ok b'7'
unfolding luhn_check decode_char
check_upper = refl

check_lower : luhn_check (codes "bA") ≡ ok b'7'
unfolding luhn_check decode_char
check_lower = refl

luhn_check-one_character_example : decode_char b'B' ≡ decode_char b'b'
luhn_check-one_character_example =
    luhn_check-one_character [] (codes "A") b'B' b'b' b'7' check_upper check_lower

-- A coding of headers, with the sign and the size of each number, and one that compresses nothing.
coded : ℤ → Bytes
coded (pos n) = 0 ∷ n ∷ []
coded (negsuc n) = 1 ∷ n ∷ []

header_bytes : Header → Bytes
unfolding coded
header_bytes h = coded h.kind ++ coded h.compression

number_of : ℕ → ℕ → ℤ
number_of zero n = pos n
number_of (suc sign) n = negsuc n

read_header : Bytes → Option Header
unfolding number_of
read_header (s ∷ n ∷ t ∷ m ∷ []) =
    some (record { kind = number_of s n; compression = number_of t m })
read_header _ = none

read_header-header_bytes :
    (kind compression : ℤ)
    → read_header (coded kind ++ coded compression)
      ≡ some (record { kind = kind; compression = compression })
unfolding read_header coded
read_header-header_bytes (pos n) (pos m) = refl
read_header-header_bytes (pos n) (negsuc m) = refl
read_header-header_bytes (negsuc n) (pos m) = refl
read_header-header_bytes (negsuc n) (negsuc m) = refl

length-header_bytes : (kind compression : ℤ) → length (coded kind ++ coded compression) < 2 ^ 16
unfolding coded
length-header_bytes (pos n) (pos m) = omega arith
length-header_bytes (pos n) (negsuc m) = omega arith
length-header_bytes (negsuc n) (pos m) = omega arith
length-header_bytes (negsuc n) (negsuc m) = omega arith

plain_packages : FramePackages
unfolding header_bytes
plain_packages = record {
  encode_header = header_bytes;
  decode_header = read_header;
  decode-encode_header = λ h. read_header-header_bytes h.kind h.compression;
  length-encode_header = λ h. length-header_bytes h.kind h.compression;
  encode_hello = λ h. h.device_name;
  decode_hello = λ b. none;
  compress = λ b. b;
  decompress = λ b n. some b;
  decompress-compress = λ b. refl;
}

abbrev ping_header : Header
ping_header = record { kind = pos 6; compression = pos 0 }

abbrev framed : Bytes
framed = 0 ∷ 4 ∷ 0 ∷ 6 ∷ 0 ∷ 1 ∷ 0 ∷ 0 ∷ 0 ∷ 6 ∷ 0 ∷ 0 ∷ 0 ∷ 2 ∷ b'h' ∷ b'i' ∷ []

framed_run : write_message plain_packages ping_header (codes "hi") true ≡ some (ok framed)
unfolding write_message plain_packages to_be_bytes
framed_run = refl

payload_fits : length (payload plain_packages true (codes "hi")) ≤ max_message_size
unfolding plain_packages to_be_bytes
payload_fits = omega arith

read_message-write_message_example :
    read_message plain_packages (framed ++ codes "rest")
    ≡ ok (
      record { header = sent_header plain_packages true ping_header; body = codes "hi" },
      codes "rest",
    )
read_message-write_message_example =
    read_message-write_message plain_packages ping_header (codes "hi") framed (codes "rest") true
      framed_run (omega arith) payload_fits refl
