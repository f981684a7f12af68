-- ===== src/Storage/Compaction/Filter.antt =====
-- bepository-storage/src/compaction.rs, GcFilter: what a compaction does with each row. The shared
-- CompactionState is an argument, as it stands when the row is looked at; the decoder of file
-- entries is the protocol buffers package's.
use bepository.Prelude.{
  ℕ, Bytes, Bool, false, not, ◌&&◌, Option, none, some, Result, ok, err, starts_with, ltb,
  if◌then◌else◌,
}
use bepository.Prelude.Int.{ℤ, pos, negsuc, ltb_ℤ}
use bepository.Lock.Epoch.{Epoch, before}
use bepository.Storage.Keys.{
  block_data_prefix, parse_block_data_seq_key, parse_block_pointer_key, parse_block_reverse_key,
  parse_inbox_key, parse_seq_key, parse_file_key,
}
use bepository.Storage.Proto.{FileInfo, File}
use bepository.Storage.Stats.{
  ValueDeletable, RowEntry, FilterStats, bump, record_seen, record_dropped,
}
use bepository.Storage.Compaction.State.{
  Blooms, CompactionState, known_live_hash_contains, known_live_seq_contains,
}

pub data CompactionFilterDecision : Type 0 where
  keep drop : CompactionFilterDecision
  modify : ValueDeletable → CompactionFilterDecision

pub data CompactionFilterError : Type 0 where
  filter_error : CompactionFilterError

-- `job` is the id in the job handle; `peer_floor` is not zero.
pub record GcFilter : Type 0 where
  pub folder_sk : Bytes
  pub job : ℕ
  pub epoch : Epoch
  pub peer_floor : Option ℤ
  pub is_bottom : Bool
  pub stats : FilterStats

abbrev pub Filtered : Type 0
Filtered = GcFilter × Result CompactionFilterError CompactionFilterDecision

unfoldable pub prune_decision : GcFilter → CompactionFilterDecision
prune_decision self = if self.is_bottom then drop else modify ValueDeletable.tombstone

abbrev pub prune : GcFilter → Bytes → FilterStats → Filtered
prune self key stats = (record self { stats = record_dropped stats key }, ok (prune_decision self))

abbrev pub keep_row : GcFilter → FilterStats → Filtered
keep_row self stats = (record self { stats = record stats { kept = bump stats.kept } }, ok keep)

module _ {B : Blooms} (gc : CompactionState B) (self : GcFilter) (key : Bytes) where
  -- bd<seq>
  abbrev pub filter_block_data : Option ℕ → Filtered
  filter_block_data none = (self, err filter_error)
  filter_block_data (some seq) =
      let s = self.stats in
      if not (known_live_seq_contains gc self.job seq)
      then prune self key (record s { blocks_dropped = bump s.blocks_dropped })
      else keep_row self (record s { blocks_kept = bump s.blocks_kept })

  -- mb<dir>/<hash>
  abbrev pub filter_block_pointer : Bytes → Filtered
  filter_block_pointer hash =
      let s = self.stats in
      if not (known_live_hash_contains gc self.job hash)
      then prune self key (record s { refs_dropped = bump s.refs_dropped })
      else keep_row self (record s { refs_kept = bump s.refs_kept })

  -- mr<hash>/<dir>//<basename>
  abbrev pub filter_block_reverse : Bytes → Filtered
  filter_block_reverse hash =
      let s = self.stats in
      if not (known_live_hash_contains gc self.job hash)
      then prune self key (record s { reverse_refs_tombstoned = bump s.reverse_refs_tombstoned })
      else keep_row self (record s { reverse_refs_kept = bump s.reverse_refs_kept })

-- `u64::try_from(floor.get()).is_ok_and(|f| seq < f)`
abbrev pub below_floor : ℕ → Option ℤ → Bool
below_floor seq none = false
below_floor seq (some (pos f)) = ltb seq f
below_floor seq (some (negsuc f)) = false

module _ (self : GcFilter) (key : Bytes) where
  -- mi<epoch>/<dir>//<basename>
  abbrev pub filter_inbox : Epoch → Filtered
  filter_inbox epoch =
      let s = self.stats in
      if before epoch self.epoch
      then prune self key (record s { inbox_tombstoned = bump s.inbox_tombstoned })
      else keep_row self (record s { inbox_kept = bump s.inbox_kept })

  -- ms<seq>
  abbrev pub filter_seq : ℕ → Filtered
  filter_seq seq =
      let s = self.stats in
      if below_floor seq self.peer_floor
      then prune self key (record s { seqs_pruned = bump s.seqs_pruned })
      else keep_row self (record s { seqs_kept = bump s.seqs_kept })

abbrev pub is_old_tombstone : ℤ → Option FileInfo → Bool
is_old_tombstone floor none = false
is_old_tombstone floor (some fi) = fi.deleted && ltb_ℤ fi.sequence floor

module _ (decode_file : Bytes → Option File) where
  abbrev pub decoded_tombstone : ℤ → Option File → Bool
  decoded_tombstone floor none = false
  decoded_tombstone floor (some file) = is_old_tombstone floor file.file_info

  -- The entry of a deleted file that every peer has seen.
  abbrev pub is_prunable_file : Option ℤ → ValueDeletable → Bool
  is_prunable_file none v = false
  is_prunable_file (some floor) (ValueDeletable.value b) = decoded_tombstone floor (decode_file b)
  is_prunable_file (some floor) (ValueDeletable.merge b) = false
  is_prunable_file (some floor) ValueDeletable.tombstone = false

  -- mn<dir>//<basename>
  abbrev pub filter_file : GcFilter → RowEntry → Filtered
  filter_file self entry =
      let s = self.stats in
      if is_prunable_file self.peer_floor entry.value
      then prune self entry.key (record s { tombstones_pruned = bump s.tombstones_pruned })
      else keep_row self (record s { files_kept = bump s.files_kept })

  -- mx, md
  abbrev pub filter_metadata : GcFilter → Filtered
  filter_metadata self =
      let s = self.stats in keep_row self (record s { metadata_kept = bump s.metadata_kept })

  -- The part of the filter behind the count of the row.
  unfoldable pub filter_seen : {B : Blooms} → CompactionState B → GcFilter → RowEntry → Filtered
  unfolding prune_decision
  filter_seen gc self entry =
      let key = entry.key in
      if starts_with block_data_prefix key
      then filter_block_data gc self key (parse_block_data_seq_key key)
      else elim (parse_block_pointer_key key) [
        | some hash ↦ filter_block_pointer gc self key hash
        | none ↦ elim (parse_block_reverse_key key) [
          | some p ↦ filter_block_reverse gc self key (p.0)
          | none ↦ elim (parse_inbox_key key) [
            | some p ↦ filter_inbox self key (p.0)
            | none ↦ elim (parse_seq_key key) [
              | some seq ↦ filter_seq self key seq
              | none ↦ elim (parse_file_key key) [
                | some name ↦ filter_file self entry
                | none ↦ filter_metadata self
              ]
            ]
          ]
        ]
      ]

  unfoldable pub filter : {B : Blooms} → CompactionState B → GcFilter → RowEntry → Filtered
  unfolding filter_seen
  filter gc self entry =
      filter_seen gc (record self { stats = record_seen self.stats entry.key entry }) entry
