-- ===== src/Storage/Compaction/Survival.antt =====
-- A compaction (`create_compaction_filter` of bepository-storage/src/compaction.rs and the filter it
-- makes): its job begins with empty filters, which the scan fills while other tasks go on.
use bepository.Prelude.{
  ℕ, suc, ◌+◌, ◌≤◌, ◌<◌, ◌≡◌, refl, ap, ◌∙◌, ◌⊎◌, inl, inr, Bytes, true, false, Option, some, List,
  [], ◌∷◌, u64_mod, arith, length, ltb, ok, ◌^◌,
}
use bepository.Prelude.Utf8.{is_utf8}
use bepository.Storage.Keys.{
  hash_len, block_pointer_key, block_reverse_key, block_data_seq_key, min_block_seq,
}
use bepository.Storage.Keys.Split.{IsName}
use bepository.Storage.Proto.{File}
use bepository.Storage.Stats.{ValueDeletable}
use bepository.Storage.Compaction.State.{
  Blooms, CompactionState, Insert, hash_of, seq_of, register, known_live_hash_contains,
  known_live_seq_contains,
}
use bepository.Storage.Compaction.Filter.{GcFilter, keep}
use bepository.Storage.Compaction.Decisions.{
  decision, keep_if, filter-block_pointer_key, filter-block_reverse_key, filter-block_data_seq_key,
}
use bepository.Storage.Compaction.Live.{Event, indexed, run, SomeGives, knows, known_after}
use bepository.Storage.Compaction.Scan.{Snapshot, scan}
use bepository.Storage.Compaction.Gathers.{Has, Gathers, IsReferenced, scan-Gathers}
use mathlib.Core.Path.{subst}

-- Two sequences of events, in any order between them.
pub data Interleaved {E : Type 0} : List E → List E → List E → Type 0 where
  no_more : Interleaved [] [] []
  first : (e : E) {l m n : List E} → Interleaved l m n → Interleaved (e ∷ l) m (e ∷ n)
  second : (e : E) {l m n : List E} → Interleaved l m n → Interleaved l (e ∷ m) (e ∷ n)

module _ {B : Blooms} (job : ℕ) (x : Insert) where
  SomeGives-Interleaved :
      {l m n : List (Event B)}
      → Interleaved l m n
      → SomeGives job x l ⊎ SomeGives job x m
      → SomeGives job x n
  SomeGives-Interleaved no_more (inl never) = absurd never
  SomeGives-Interleaved no_more (inr never) = absurd never
  SomeGives-Interleaved (first e i) (inl (inl gives)) = inl gives
  SomeGives-Interleaved (first e i) (inl (inr later)) = inr (SomeGives-Interleaved i (inl later))
  SomeGives-Interleaved (first e i) (inr other) = inr (SomeGives-Interleaved i (inr other))
  SomeGives-Interleaved (second e i) (inl other) = inr (SomeGives-Interleaved i (inl other))
  SomeGives-Interleaved (second e i) (inr (inl gives)) = inl gives
  SomeGives-Interleaved (second e i) (inr (inr later)) = inr (SomeGives-Interleaved i (inr later))

-- The events of a scan, for the job that shares its filters.
abbrev pub scanned : {B : Blooms} → ℕ → List Insert → List (Event B)
scanned job [] = []
scanned job (i ∷ l) = indexed job i ∷ scanned job l

Has-SomeGives :
    (B : Blooms) (job : ℕ) (x : Insert) (l : List Insert)
    → Has x l
    → SomeGives job x (scanned {B = B} job l)
Has-SomeGives B job x [] never = absurd never
Has-SomeGives B job x (i ∷ l) (inl here) = inl (refl, here)
Has-SomeGives B job x (i ∷ l) (inr there) = inr (Has-SomeGives B job x l there)

module _ {B : Blooms} (s : CompactionState B) where
  -- The job of a compaction begins with empty filters.
  abbrev pub begun : CompactionState B × ℕ
  begun = register B.hashes.empty B.seqs.empty s

  -- The shared state after the registration of the job and the events since.
  abbrev pub after : List (Event B) → CompactionState B
  after events = run events begun.0

  next_after_register :
      (room : ℕ)
      → s.next_job + suc room < u64_mod
      → (s.next_job < begun.0.next_job) × (begun.0.next_job + room < u64_mod)
  unfolding register
  next_after_register room fits = (omega arith, omega arith)

  module _ (decode_file : Bytes → Option File) (self : GcFilter) (snapshot : Snapshot)
      (inserts : List Insert) (ends : scan self.epoch snapshot ≡ some inserts)
      (others events : List (Event B))
      (together : Interleaved (scanned s.next_job inserts) others events) (v : ValueDeletable)
      (own : self.job ≡ begun.1) (fits : s.next_job + suc (length events) < u64_mod) where
    live :
        (x : Insert)
        → IsReferenced self.epoch snapshot x ⊎ SomeGives s.next_job x others
        → knows (after events) s.next_job x ≡ true
    live x given =
        let (older, room) = next_after_register (length events) fits in
        known_after events begun.0 s.next_job x older room (
          inr (
            SomeGives-Interleaved s.next_job x together (elim given [
              | inl referenced ↦ inl (Has-SomeGives B s.next_job x inserts (all x referenced))
              | inr written ↦ inr written
            ])))
      where
        all : Gathers (IsReferenced self.epoch snapshot) (some inserts)
        all =
            subst (λ o. Gathers (IsReferenced self.epoch snapshot) o) ends
              (scan-Gathers self.epoch snapshot)

    -- A compaction registers its job with empty filters and then scans a snapshot, while blocks are
    -- written and other compactions begin and end, in any order. Once the scan has ended without an
    -- error, a hash that a file which the scan meets refers to with data in the database, or that was
    -- written since the registration, keeps its rows: its pointer in each directory and its reverse
    -- reference from each name. The scan meets the committed files, and of those in transfer the ones
    -- whose key begins with the key of the empty name. The job numbers must not wrap around at 2^64 during these events.
    pub filter-live_hash :
        (hash dir name : Bytes)
        → IsReferenced self.epoch snapshot (hash_of hash)
          ⊎ SomeGives s.next_job (hash_of hash) others
        → length hash ≡ hash_len
        → is_utf8 dir ≡ true
        → IsName name
        → (decision decode_file (after events) self v (block_pointer_key dir hash) ≡ ok keep)
          × (decision decode_file (after events) self v (block_reverse_key hash name) ≡ ok keep)
    unfolding register
    filter-live_hash hash dir name given sized u n =
        let known : known_live_hash_contains (after events) self.job hash ≡ true =
          rw own (live (hash_of hash) given) in
        (
          filter-block_pointer_key decode_file (after events) self v dir hash sized u
              ∙ ap (λ t. keep_if decode_file (after events) self v t) known,
          filter-block_reverse_key decode_file (after events) self v hash name sized n
              ∙ ap (λ t. keep_if decode_file (after events) self v t) known,
        )

    -- In the same way, block data is kept under a number that a file the scan meets refers to, or that
    -- was written since the registration. The number must not be below the floor of block numbers.
    pub filter-live_seq :
        (seq : ℕ)
        → IsReferenced self.epoch snapshot (seq_of seq) ⊎ SomeGives s.next_job (seq_of seq) others
        → min_block_seq ≤ seq
        → seq < 2 ^ 64
        → decision decode_file (after events) self v (block_data_seq_key seq) ≡ ok keep
    unfolding register
    filter-live_seq seq given valid small =
        let known : known_live_seq_contains (after events) self.job seq ≡ true =
          rw own (live (seq_of seq) given) in
        let enough : ltb seq min_block_seq ≡ false = ground arith in
        filter-block_data_seq_key decode_file (after events) self v seq small
        ∙ ground (arith, known, enough)
