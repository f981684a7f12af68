-- ===== src/Storage/Store/Db.antt =====
-- The calls of SlateDB that a folder's store makes, the coding of its values, and its operations as
-- functions from one state to the next. The locks of the source exclude other writers of the same name
-- and of the index metadata while an operation runs; an operation is one step here.
use bepository.Prelude.{
  ℕ, ◌≡◌, ◌⊎◌, Bytes, Option, none, some, List, [], ◌∷◌, Result, ok, err, bytes_eq, if◌then◌else◌,
}
use bepository.Bep.Errors.{StorageError}
use bepository.Storage.Allocator
use bepository.Storage.Allocator.{MetaCodec, SeqRange}
use bepository.Storage.Compaction.State.{Blooms, CompactionState}
use bepository.Storage.Proto.{BlockRef, RemoteIndexState, File, Inbox}

-- One entry of a `WriteBatch`.
pub data Write : Type 0 where
  put : Bytes → Bytes → Write
  delete : Bytes → Write

abbrev pub write_one : Write → (Bytes → Option Bytes) → Bytes → Option Bytes
write_one (put key value) content k = if bytes_eq k key then some value else content k
write_one (delete key) content k = if bytes_eq k key then none else content k

-- What a batch makes of a database: of two writes to a key the later one counts.
unfoldable pub applied : List Write → (Bytes → Option Bytes) → Bytes → Option Bytes
applied [] content k = content k
applied (w ∷ batch) content k = applied batch (write_one w content) k

-- A batch that fails was written as a whole or not at all.
pub record FolderDb : Type 1 where
  pub base : Allocator.Db
  pub put-other :
      (k v : Bytes) (s : base.State) (j : Bytes)
      → (j ≡ k → ⊥)
      → base.content (base.put k v s).0 j ≡ base.content s j
  pub write : List Write → base.State → base.State × Result StorageError (Unit {0})
  pub write-content :
      (batch : List Write) (s : base.State)
      → ((k : Bytes) → base.content (write batch s).0 k ≡ applied batch (base.content s) k)
        ⊎ (((k : Bytes) → base.content (write batch s).0 k ≡ base.content s k)
            × (e : StorageError) × ((write batch s).1 ≡ err e))
  pub scan : Bytes → Bytes → base.State → Result StorageError (List (Bytes × Bytes))
  pub scan_prefix : Bytes → base.State → Result StorageError (List (Bytes × Bytes))

-- The protocol buffers package's coding.
pub record StoreCodec : Type 0 where
  pub meta : MetaCodec
  pub encode_file : File → Bytes
  pub decode_file : Bytes → Option File
  pub decode-encode_file : (f : File) → decode_file (encode_file f) ≡ some f
  pub encode_inbox : Inbox → Bytes
  pub decode_inbox : Bytes → Option Inbox
  pub decode-encode_inbox : (i : Inbox) → decode_inbox (encode_inbox i) ≡ some i
  pub encode_ref : BlockRef → Bytes
  pub decode_ref : Bytes → Option BlockRef
  pub decode-encode_ref : (r : BlockRef) → decode_ref (encode_ref r) ≡ some r
  pub encode_remote : RemoteIndexState → Bytes
  pub decode_remote : Bytes → Option RemoteIndexState
  pub decode-encode_remote : (r : RemoteIndexState) → decode_remote (encode_remote r) ≡ some r

-- The database, the coding and the filters of compactions.
-- The sequence entries up to `pruned` may be missing: a compaction removes those below the least cursor of
-- the peers.
pub record Setup : Type 1 where
  pub pruned : ℕ
  pub db : FolderDb
  pub codec : StoreCodec
  pub blooms : Blooms

-- `FolderStore`, with the state of its database.
pub record FolderStore (X : Setup) : Type 0 where
  pub data_of : X.db.base.State
  pub gc : CompactionState X.blooms
  pub blockseq : SeqRange

-- An operation on a state, that may fail.
abbrev pub Act : Type 0 → Type 0 → Type 0
Act S A = S → S × Result StorageError A

module _ {S A B : Type 0} where
  abbrev pub next_act : (A → Act S B) → S × Result StorageError A → S × Result StorageError B
  next_act f (s, ok a) = f a s
  next_act f (s, err e) = (s, err e)

  infixl 5 ◌>>=◌
  unfoldable pub ◌>>=◌ : Act S A → (A → Act S B) → Act S B
  (m >>= f) s = next_act f (m s)

-- `Ok(…)`, and a result that was computed.
abbrev pub lift : {S A : Type 0} → Result StorageError A → Act S A
lift r s = (s, r)

-- `r.map(f)`
abbrev pub map_ok : {A B : Type 0} → (A → B) → Result StorageError A → Result StorageError B
map_ok f (ok a) = ok (f a)
map_ok f (err e) = err e

-- `?` between results.
infixl 5 ◌>>=?◌
abbrev pub ◌>>=?◌ :
    {A B : Type 0} → Result StorageError A → (A → Result StorageError B) → Result StorageError B
(ok a) >>=? f = f a
(err e) >>=? f = err e
