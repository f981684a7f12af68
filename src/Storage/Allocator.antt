-- ===== src/Storage/Allocator.antt =====
-- bepository-storage/src/store.rs, SeqAllocator: numbers for blocks, reserved in the database in
-- batches. The two locks make one call of `allocate` atomic: the range is only refilled under the
-- lock that all writers of the index metadata take.
pub mod Fresh
pub mod Runs
mod Tests
use Prim.Native.Nat.{max}
use bepository.Prelude.{
  ℕ, ◌+◌, ◌%◌, ◌≡◌, ◌⊎◌, Bytes, Bool, Option, none, some, Result, ok, err, ltb, if◌then◌else◌,
  u64_mod,
}
use bepository.Prelude.Int.{pos}
use bepository.Bep.Errors.{StorageError}
use bepository.Storage.Keys.{ix_key, min_block_seq}
use bepository.Storage.Proto.{FolderIndexMeta}

-- The calls of SlateDB. A write that fails may or may not have happened. `content` is what is read,
-- `durable` what a crash leaves of it: a write becomes durable with the next flush, or before it.
pub record Db : Type 1 where
  pub State : Type 0
  pub content : State → Bytes → Option Bytes
  pub durable : State → Bytes → Option Bytes
  pub get : Bytes → State → Result StorageError (Option Bytes)
  pub put : Bytes → Bytes → State → State × Result StorageError (Unit {0})
  pub flush : State → State × Result StorageError (Unit {0})
  pub get-content : (k : Bytes) (s : State) (o : Option Bytes) → get k s ≡ ok o → o ≡ content s k
  pub put-content :
      (k v : Bytes) (s : State)
      → (content (put k v s).0 k ≡ some v)
        ⊎ ((content (put k v s).0 k ≡ content s k) × (e : StorageError) × ((put k v s).1 ≡ err e))
  pub put-durable :
      (k v : Bytes) (s : State)
      → (durable (put k v s).0 k ≡ durable s k)
        ⊎ (durable (put k v s).0 k ≡ content s k)
        ⊎ (durable (put k v s).0 k ≡ content (put k v s).0 k)
  pub flush-durable :
      (k : Bytes) (s : State)
      → (durable (flush s).0 k ≡ content s k)
        ⊎ ((durable (flush s).0 k ≡ durable s k) × (e : StorageError) × ((flush s).1 ≡ err e))
  pub flush-content : (k : Bytes) (s : State) → content (flush s).0 k ≡ content s k

-- The protocol buffers package's coding of the index metadata.
pub record MetaCodec : Type 0 where
  pub encode : FolderIndexMeta → Bytes
  pub decode : Bytes → Option FolderIndexMeta
  pub decode-encode : (m : FolderIndexMeta) → decode (encode m) ≡ some m

pub record SeqRange : Type 0 where
  pub next : ℕ
  pub end : ℕ

abbrev pub reservation_n : ℕ
reservation_n = 256

-- `FolderIndexMeta::default()`
abbrev pub default_meta : FolderIndexMeta
default_meta = record { max_sequence = pos 0; next_blockseq = none }

abbrev pub unwrap_zero : Option ℕ → ℕ
unwrap_zero none = 0
unwrap_zero (some n) = n

module _ (db : Db) (codec : MetaCodec) where
  abbrev pub decode_or_default : Option Bytes → Option FolderIndexMeta
  decode_or_default none = some default_meta
  decode_or_default (some b) = codec.decode b

  abbrev pub loaded_range : Option FolderIndexMeta → Result StorageError SeqRange
  loaded_range none = err StorageError.corruption
  loaded_range (some meta) =
      let persisted = unwrap_zero meta.next_blockseq in
      ok (record { next = persisted; end = persisted })

  abbrev pub load_from : Result StorageError (Option Bytes) → Result StorageError SeqRange
  load_from (err e) = err e
  load_from (ok ix_bytes) = loaded_range (decode_or_default ix_bytes)

  unfoldable pub load : db.State → Result StorageError SeqRange
  load s = load_from (db.get ix_key s)

  abbrev pub Allocated : Type 0
  Allocated = SeqRange × db.State × Result StorageError ℕ

  -- After the flush of the reservation: the first number of the new range.
  abbrev pub after_flush : SeqRange → ℕ → ℕ → db.State × Result StorageError (Unit {0}) → Allocated
  after_flush range base next_limit (s, err e) = (range, s, err e)
  after_flush range base next_limit (s, ok _) =
      (record { next = base + 1; end = next_limit }, s, ok base)

  abbrev pub after_put : SeqRange → ℕ → ℕ → db.State × Result StorageError (Unit {0}) → Allocated
  after_put range base next_limit (s, err e) = (range, s, err e)
  after_put range base next_limit (s, ok _) = after_flush range base next_limit (db.flush s)

  abbrev pub refill_meta : SeqRange → db.State → Option FolderIndexMeta → Allocated
  refill_meta range s none = (range, s, err StorageError.corruption)
  refill_meta range s (some meta) =
      let base = max (unwrap_zero meta.next_blockseq) min_block_seq in
      let next_limit = (base + reservation_n) % u64_mod in
      after_put range base next_limit
        (db.put ix_key (codec.encode (record meta { next_blockseq = some next_limit })) s)

  abbrev pub refill_from : SeqRange → db.State → Result StorageError (Option Bytes) → Allocated
  refill_from range s (err e) = (range, s, err e)
  refill_from range s (ok ix_bytes) = refill_meta range s (decode_or_default ix_bytes)

  unfoldable pub refill : SeqRange → db.State → Allocated
  refill range s = refill_from range s (db.get ix_key s)

  unfoldable pub allocate : SeqRange → db.State → Allocated
  unfolding refill
  allocate range s =
      let refilled = refill range s in
      if ltb range.next range.end
      then (record { next = range.next + 1; end = range.end }, s, ok range.next)
      else refilled
