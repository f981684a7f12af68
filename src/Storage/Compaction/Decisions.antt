-- ===== src/Storage/Compaction/Decisions.antt =====
-- What the filter decides on a row of each kind.
use bepository.Prelude.{
  ℕ, ◌≤◌, ◌<◌, ◌≡◌, ◌^◌, refl, Bytes, Bool, true, false, Option, none, some, arith, Result, ok, err,
  starts_with, ltb, if◌then◌else◌, length, i64_max,
}
use bepository.Prelude.Int.{pos}
use bepository.Prelude.Utf8.{is_utf8}
use bepository.Lock.Epoch.{Epoch, before}
use bepository.Lock.Epoch.Laws.{IsValid}
use bepository.Storage.Keys.{
  hash_len, block_data_prefix, block_pointer_key, block_reverse_key, block_data_seq_key, inbox_key,
  seq_key, file_key, min_block_seq, parse_block_pointer_key, parse_block_reverse_key,
  parse_inbox_key, parse_seq_key,
}
use bepository.Storage.Keys.Split.{IsName}
use bepository.Storage.Keys.RoundTrip.{
  parse_file_key-file_key, parse_block_reverse_key-block_reverse_key, parse_inbox_key-inbox_key,
  parse_block_pointer_key-block_pointer_key,
}
use bepository.Storage.Keys.Sequences.{
  key_of_seq, parse_seq_key-seq_key, parse_block_data_seq_key-block_data_seq_key,
}
use bepository.Storage.Proto.{File}
use bepository.Storage.Stats.{ValueDeletable}
use bepository.Storage.Compaction.State.{
  Blooms, CompactionState, known_live_hash_contains, known_live_seq_contains,
}
use bepository.Storage.Compaction.Filter.{
  GcFilter, CompactionFilterDecision, CompactionFilterError, keep, filter_error, prune_decision,
  filter, is_prunable_file, below_floor,
}

module _ (decode_file : Bytes → Option File) {B : Blooms} (gc : CompactionState B) (self : GcFilter)
    (v : ValueDeletable) where
  -- What becomes of a row with a key.
  abbrev pub decision : Bytes → Result CompactionFilterError CompactionFilterDecision
  decision key = (filter decode_file gc self (record { key = key; value = v })).1

  abbrev pub keep_if : Bool → Result CompactionFilterError CompactionFilterDecision
  keep_if live = if live then ok keep else ok (prune_decision self)

  abbrev pub prune_if : Bool → Result CompactionFilterError CompactionFilterDecision
  prune_if stale = if stale then ok (prune_decision self) else ok keep

  -- A block pointer is kept exactly if its hash is known live.
  pub filter-block_pointer_key :
      (dir hash : Bytes)
      → length hash ≡ hash_len
      → is_utf8 dir ≡ true
      → decision (block_pointer_key dir hash) ≡ keep_if (known_live_hash_contains gc self.job hash)
  unfolding filter
  filter-block_pointer_key dir hash h u =
      let first : starts_with block_data_prefix (block_pointer_key dir hash) ≡ false =
        unfold block_pointer_key in refl in
      ground (arith, first, (parse_block_pointer_key-block_pointer_key dir hash h u).0)

  -- A reverse reference is kept exactly if its hash is known live.
  pub filter-block_reverse_key :
      (hash name : Bytes)
      → length hash ≡ hash_len
      → IsName name
      → decision (block_reverse_key hash name) ≡ keep_if (known_live_hash_contains gc self.job hash)
  unfolding filter
  filter-block_reverse_key hash name h n =
      let first : starts_with block_data_prefix (block_reverse_key hash name) ≡ false =
        unfold block_reverse_key in refl in
      let second : parse_block_pointer_key (block_reverse_key hash name) ≡ none =
        unfold parse_block_pointer_key block_reverse_key in (ground arith) in
      ground (arith, first, second, parse_block_reverse_key-block_reverse_key hash name h n)

  -- Block data is kept exactly if its number is known live. A number below the floor is corruption,
  -- which fails the compaction.
  pub filter-block_data_seq_key :
      (seq : ℕ)
      → seq < 2 ^ 64
      → decision (block_data_seq_key seq) ≡ (
          if ltb seq min_block_seq
          then err filter_error
          else keep_if (known_live_seq_contains gc self.job seq))
  unfolding filter
  filter-block_data_seq_key seq h =
      let first : starts_with block_data_prefix (block_data_seq_key seq) ≡ true =
        unfold block_data_seq_key in refl in
      ground (arith, first, parse_block_data_seq_key-block_data_seq_key seq h)

  -- The entry of a file in transfer is pruned exactly if its epoch is older than the compaction's.
  filter-inbox_key :
      (e : Epoch) (name : Bytes)
      → IsValid e
      → IsName name
      → decision (inbox_key e name) ≡ prune_if (before e self.epoch)
  unfolding filter
  filter-inbox_key e name w n =
      let first : starts_with block_data_prefix (inbox_key e name) ≡ false =
        unfold inbox_key in refl in
      let second : parse_block_pointer_key (inbox_key e name) ≡ none =
        unfold parse_block_pointer_key inbox_key in (ground arith) in
      let third : parse_block_reverse_key (inbox_key e name) ≡ none =
        unfold parse_block_reverse_key inbox_key in (ground arith) in
      ground (arith, first, second, third, parse_inbox_key-inbox_key e name w n)

  -- A sequence mapping is pruned exactly if its number is below the peers' floor.
  filter-seq_key :
      (seq : ℕ) (key : Bytes)
      → seq ≤ i64_max
      → seq_key (pos seq) ≡ ok key
      → decision key ≡ prune_if (below_floor seq self.peer_floor)
  unfolding filter
  filter-seq_key seq key small made =
      let (k, made', parsed) = parse_seq_key-seq_key seq small in
      let same : k ≡ key = cc in
      let parsed' : parse_seq_key key ≡ some seq = rw (← same) parsed in
      let shape = key_of_seq seq key made in
      let first : starts_with block_data_prefix key ≡ false = rw shape refl in
      let second : parse_block_pointer_key key ≡ none =
        rw shape (unfold parse_block_pointer_key in (ground arith)) in
      let third : parse_block_reverse_key key ≡ none =
        rw shape (unfold parse_block_reverse_key in (ground arith)) in
      let fourth : parse_inbox_key key ≡ none =
        rw shape (unfold parse_inbox_key in (ground arith)) in
      ground (arith, first, second, third, fourth, parsed')

  -- The entry of a file is pruned exactly if it is a deletion that every peer has seen.
  pub filter-file_key :
      (name : Bytes)
      → IsName name
      → decision (file_key name) ≡ prune_if (is_prunable_file decode_file self.peer_floor v)
  unfolding filter
  filter-file_key name n =
      let first : starts_with block_data_prefix (file_key name) ≡ false = unfold file_key in refl in
      let second : parse_block_pointer_key (file_key name) ≡ none =
        unfold parse_block_pointer_key file_key in (ground arith) in
      let third : parse_block_reverse_key (file_key name) ≡ none =
        unfold parse_block_reverse_key file_key in (ground arith) in
      let fourth : parse_inbox_key (file_key name) ≡ none =
        unfold parse_inbox_key file_key in (ground arith) in
      let fifth : parse_seq_key (file_key name) ≡ none =
        unfold parse_seq_key file_key in (ground arith) in
      ground (arith, first, second, third, fourth, fifth, parse_file_key-file_key name n)
