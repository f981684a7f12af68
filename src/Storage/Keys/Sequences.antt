-- ===== src/Storage/Keys/Sequences.antt =====
-- Keys that hold a sequence number: they read back, and their order is the numbers' order, which is
-- what the delta index's range scan stands on.
use bepository.Prelude.{
  ℕ, ◌+◌, ◌^◌, ◌≤◌, ◌<◌, ◌≡◌, refl, true, not, ◌&&◌, none, some, ◌++◌, Bytes, arith, ok, ltb,
  if◌then◌else◌, lex_lt, i64_max,
}
use bepository.Prelude.Int.{pos}
use bepository.Prelude.BigEndian.{
  to_be_bytes, length-to_be_bytes, from_be_bytes-to_be_bytes, lex_lt-to_be_bytes,
}
use bepository.Storage.Keys.{
  seq_key, parse_seq_key, seq_scan_start, seq_scan_end, block_data_seq_key,
  parse_block_data_seq_key, min_block_seq, seq_prefix,
}

-- A sequence number that is not negative has a key, which parses back to it.
pub parse_seq_key-seq_key :
    (seq : ℕ)
    → seq ≤ i64_max
    → (k : Bytes) × (seq_key (pos seq) ≡ ok k) × (parse_seq_key k ≡ some seq)
unfolding seq_key parse_seq_key
parse_seq_key-seq_key seq h = (
  seq_prefix ++ to_be_bytes 8 seq,
  refl,
  ground (arith, length-to_be_bytes 8 seq, from_be_bytes-to_be_bytes 8 seq (omega arith)),
)

pub key_of_seq :
    (seq : ℕ) (key : Bytes) → seq_key (pos seq) ≡ ok key → key ≡ seq_prefix ++ to_be_bytes 8 seq
unfolding seq_key
key_of_seq seq key made = cc

seq_prefix-lex_lt : (x y : Bytes) → lex_lt (seq_prefix ++ x) (seq_prefix ++ y) ≡ lex_lt x y
seq_prefix-lex_lt x y = ground arith

seq_scan_end-lex_lt : (x : Bytes) → lex_lt (seq_prefix ++ x) seq_scan_end ≡ true
seq_scan_end-lex_lt x = ground arith

not_before : (since seq : ℕ) → (not (ltb seq (since + 1)) && true) ≡ ltb since seq
not_before since seq = ground arith

-- The scan for the changes after `since` reads the key of a sequence number exactly if the number is
-- a later one.
pub seq_scan_range :
    (since seq : ℕ) (key : Bytes)
    → since < i64_max
    → seq ≤ i64_max
    → seq_key (pos seq) ≡ ok key
    → (start : Bytes) × (seq_scan_start (pos since) ≡ ok start)
      × ((not (lex_lt key start) && lex_lt key seq_scan_end) ≡ ltb since seq)
unfolding seq_scan_start
seq_scan_range since seq key h small made = (
  seq_prefix ++ to_be_bytes 8 (since + 1),
  ground arith,
  rw (
    key_of_seq seq key made,
    seq_prefix-lex_lt (to_be_bytes 8 seq) (to_be_bytes 8 (since + 1)),
    seq_scan_end-lex_lt (to_be_bytes 8 seq),
    lex_lt-to_be_bytes 8 seq (since + 1) (omega arith) (omega arith),
    not_before since seq,
  ),
)

-- A block data key reads back, unless its number is below the floor, which is corruption.
pub parse_block_data_seq_key-block_data_seq_key :
    (seq : ℕ)
    → seq < 2 ^ 64
    → parse_block_data_seq_key (block_data_seq_key seq)
      ≡ (if ltb seq min_block_seq then none else some seq)
unfolding parse_block_data_seq_key block_data_seq_key
parse_block_data_seq_key-block_data_seq_key seq h =
    ground (arith, length-to_be_bytes 8 seq, from_be_bytes-to_be_bytes 8 seq (omega arith))
