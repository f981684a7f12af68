-- ===== src/Storage/Compaction/Tests.antt =====
-- A compaction at a fixed state, with filters that are lists, and the theorems at it.
use bepository.Prelude.{
  ◌≡◌, refl, inl, inr, Bytes, codes, Bool, true, false, ◌||◌, Option, none, some, List, [], ◌∷◌,
  ◌==◌, ==_refl, arith, ok, bytes_eq, bytes_eq_refl, starts_with,
}
use bepository.Prelude.Int.{pos}
use bepository.Prelude.Utf8.{is_utf8}
use bepository.Lock.Base32.{digit, to_base32}
use bepository.Lock.Epoch.{Epoch}
use bepository.Lock.Epoch.Laws.{IsValid}
use bepository.Storage.Keys.{
  file_prefix, file_key, inbox_key, block_pointer_key, block_reverse_key, block_data_seq_key,
}
use bepository.Storage.Keys.Split.{IsName}
use bepository.Storage.Proto.{File, FileInfo, BlockInfo}
use bepository.Storage.Stats.{ValueDeletable, FilterStats}
use bepository.Storage.Compaction.State.{
  hash_of, seq_of, Bloom, Blooms, CompactionState, new_state, register,
}
use bepository.Storage.Compaction.Filter.{GcFilter, keep}
use bepository.Storage.Compaction.Decisions.{decision}
use bepository.Storage.Compaction.Live.{Event, indexed, block_written, job_began, job_ended}
use bepository.Storage.Compaction.Scan.{Snapshot, scan}
use bepository.Storage.Compaction.Survival.{
  Interleaved, first, second, no_more, scanned, after, filter-live_hash, filter-live_seq,
}

module _ {A : Type 0} (eq : A → A → Bool) (eq_refl : (x : A) → eq x x ≡ true) where
  abbrev any : List A → A → Bool
  any [] x = false
  any (y ∷ l) x = eq y x || any l x

  any_more : (x y : A) (l : List A) → any l x ≡ true → any (y ∷ l) x ≡ true
  any_more x y l h = ground (arith, h)

  abbrev exact : Bloom A
  exact = record {
    Filter = List A;
    empty = [];
    insert = λ x l. x ∷ l;
    contains = λ l x. any l x;
    contains-insert = λ x l. rw (eq_refl x) refl;
    contains-insert_other = λ x y l h. any_more x y l h;
  }

abbrev lists : Blooms
lists = record { hashes = exact bytes_eq bytes_eq_refl; seqs = exact (λ a b. a == b) ==_refl }

abbrev old_hash : Bytes
old_hash = codes "0123456789abcdef0123456789abcdef"

abbrev new_hash : Bytes
new_hash = codes "abcdef0123456789abcdef0123456789"

abbrev start : CompactionState lists
start = new_state

-- A block that a file of the snapshot refers to.
abbrev old_block : BlockInfo
old_block = record {
  hash = old_hash;
  offset = pos 0;
  size = pos 5;
  blockseq = some 1500;
  inline_data = none;
}

abbrev stored : List BlockInfo → FileInfo
stored l = record {
  name = codes "d/x";
  size = pos 5;
  modified_s = pos 0;
  modified_by = 1;
  version = none;
  sequence = pos 3;
  blocks = l;
  symlink_target = [];
  blocks_hash = [];
  previous_blocks_hash = [];
  encrypted = [];
  file_type = pos 0;
  permissions = 0;
  modified_ns = pos 0;
  block_size = pos 0;
  platform = none;
  local_flags = 0;
  version_hash = [];
  inode_change_ns = pos 0;
  encryption_trailer_size = pos 0;
  deleted = false;
  invalid = false;
  no_permissions = false;
}

abbrev snapshot : Snapshot
snapshot = record {
  decode_inbox = λ b. none;
  decode_file = λ b. some (some (stored (old_block ∷ [])));
  rows = (file_key (codes "d/x"), codes "a") ∷ [];
}

abbrev others : List (Event lists)
others = job_began [] [] ∷ block_written new_hash (some 2000) ∷ job_ended 2 ∷ []

-- The hash is inserted after a job began, and the number after a block was written.
abbrev events : List (Event lists)
events =
    job_began [] []
    ∷ indexed 1 (hash_of old_hash)
    ∷ block_written new_hash (some 2000)
    ∷ indexed 1 (seq_of 1500)
    ∷ job_ended 2
    ∷ []

abbrev seven : Epoch
seven = record { val = 7; base32 = codes "00000007" }

snapshot_scanned : scan seven snapshot ≡ some (hash_of old_hash ∷ seq_of 1500 ∷ [])
unfolding scan file_key inbox_key
snapshot_scanned = refl

together : Interleaved (scanned 1 (hash_of old_hash ∷ seq_of 1500 ∷ [])) others events
together = second (job_began [] []) (
    first (indexed 1 (hash_of old_hash)) (
      second (block_written new_hash (some 2000))
        (first (indexed 1 (seq_of 1500)) (second (job_ended 2) no_more))))

abbrev no_stats : FilterStats
no_stats = record {
  blocks_dropped = 0;
  blocks_kept = 0;
  refs_dropped = 0;
  refs_kept = 0;
  reverse_refs_tombstoned = 0;
  reverse_refs_kept = 0;
  inbox_tombstoned = 0;
  inbox_kept = 0;
  seqs_pruned = 0;
  seqs_kept = 0;
  tombstones_pruned = 0;
  files_kept = 0;
  metadata_kept = 0;
  kept = 0;
  prefix_stats = [];
}

abbrev self : GcFilter
self = record {
  folder_sk = codes "folder";
  job = 1;
  epoch = seven;
  peer_floor = some (pos 100);
  is_bottom = true;
  stats = no_stats;
}

abbrev decode : Bytes → Option File
decode b = some (record { file_info = none })

abbrev row_value : ValueDeletable
row_value = ValueDeletable.value []

abbrev dir : Bytes
dir = codes "d"

abbrev name : Bytes
name = codes "d/x"

abbrev seen_after : CompactionState lists
seen_after = after start events

own_job : self.job ≡ (register {B = lists} [] [] start).1
unfolding register
own_job = refl

dir_utf8 : is_utf8 dir ≡ true
unfolding is_utf8
dir_utf8 = refl

name-IsName : IsName name
unfolding is_utf8
name-IsName = record { utf8 = refl; relative = refl }

file_met : starts_with file_prefix (file_key (codes "d/x")) ≡ true
unfolding file_key
file_met = refl

filter-live_hash_example :
    (decision decode seen_after self row_value (block_pointer_key dir old_hash) ≡ ok keep)
    × (decision decode seen_after self row_value (block_reverse_key old_hash name) ≡ ok keep)
filter-live_hash_example =
    filter-live_hash start decode self snapshot (hash_of old_hash ∷ seq_of 1500 ∷ [])
      snapshot_scanned others events together row_value own_job (omega arith) old_hash dir name
      (inl (inr (inl (file_met, inl (1500, refl, inl refl))))) refl dir_utf8 name-IsName

filter-live_seq_example :
    decision decode seen_after self row_value (block_data_seq_key 2000) ≡ ok keep
filter-live_seq_example =
    filter-live_seq start decode self snapshot (hash_of old_hash ∷ seq_of 1500 ∷ [])
      snapshot_scanned others events together row_value own_job (omega arith) 2000
      (inr (inr (inl refl))) (omega arith) (omega arith)

seven-IsValid : IsValid seven
unfolding to_base32 digit
seven-IsValid = record { fits = omega arith; cached = refl }
