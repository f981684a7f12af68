-- ===== src/Lib.antt =====
-- bepository: an untrusted Syncthing peer that speaks the Block Exchange Protocol (BEP) and keeps the
-- folders in a key-value database (SlateDB) on an object store. Writers take turns by a lock whose
-- generations are epochs.
--
-- The parts and their files, with paths from the repository's root:
--   Prelude        words, lists, byte strings, results, integers, UTF-8, big-endian numbers, and the
--                  order of byte strings: what the parts share of the Rust standard library.
--   Lock           bepository-lock. Lock.Base32 is base32.rs, Lock.Epoch is epoch.rs: an epoch is a
--                  number with its text, which names its file in the object store and is part of the
--                  keys of files in transfer. Lock.Calls are the calls of the object store and the
--                  clock, Lock.Calls.Logic and Lock.Calls.Run what is said of programs over them;
--                  Lock.Protocol is lib.rs up to claim_epoch, Lock.Acquisition the rest of lib.rs. Lock.Guard
--                  is guard.rs: its loops run over lists of what the clock, the sleeps, the shutdown
--                  token and each acquire give; Lock.Guard.Expiry is about when a lock is given up.
--   Bep            bepository-bep. Bep.Errors is error.rs, Bep.Proto the messages of proto/bep.proto,
--                  Bep.Conflict is conflict.rs (with TheirsResolver of bepository-cli/src/main.rs),
--                  Bep.Validate is validate.rs, Bep.DeviceId the check digits of device_id.rs. Bep.Calls
--                  are the calls of the traits of storage.rs, with those of the writer and the shutdown
--                  token, Bep.Calls.Logic what is said of programs over them, Bep.Retry is retry.rs,
--                  Bep.Framing framing.rs.
--                  Bep.Connection is connection.rs: the shared state and the pipeline of block requests;
--                  .Index are the batches of file entries, .Cluster the shared folders and the requests
--                  of the peer, .Turns the loops, .Supervisor the end of the tasks; .Ids, .Pipeline,
--                  .Rules, .Index.Requests, .Index.Cursor and .Drain are about these, .Together about
--                  the message task and the index task at once.
--   Storage        bepository-storage. Storage.Keys is store_keys.rs, Storage.Proto is
--                  proto/storage.proto, Storage.Proto.Convert is proto.rs, Storage.Stats is stats.rs,
--                  Storage.Compaction.State is CompactionState of store.rs, Storage.Compaction.Filter
--                  is GcFilter of compaction.rs, Storage.Compaction.Scan its scan of a snapshot and
--                  .Survival the compaction as a whole, Storage.Allocator is SeqAllocator of store.rs,
--                  Storage.Blocks is block_read.rs with carry_block_pointers of store.rs,
--                  Storage.Store the FolderStore of store.rs: Storage.Store itself commits, .Intake stages
--                  and completes, .BlockOps stores blocks.
--
-- How they meet: a file entry from a peer is validated (Bep.Validate), compared with the local version
-- (Bep.Conflict), converted (Storage.Proto.Convert) and stored under keys (Storage.Keys) that hold an
-- epoch (Lock.Epoch). Its blocks get numbers (Storage.Allocator), or take the data of the old version
-- (Storage.Blocks). Compactions drop what no file holds (Storage.Compaction).
--
-- Operations keep the names of the Rust functions. A method that changes its object takes the object
-- and returns it. `Result` is Prelude's Result with the variant of the error and not its message. A
-- panic is `none` in Lock.Epoch.expect_new. Unsigned words are numbers whose wrap-around is written
-- out, `i64` and `i32` are integers. Strings are their UTF-8 bytes.
--
-- The lock's operations are trees of calls: each call leads to the rest of the program for every answer.
-- A theorem about such a tree holds for all answers, so for everything that other participants do to the
-- store between two calls. A failed `best_effort_delete` is passed over, as in the source. So are the
-- operations of a connection, where besides a section under the lock of the shared state is one access:
-- before it, other tasks may have changed the state as a relation says, and what the access itself does
-- is related by another; the relation that one task keeps to is the one on which the other relies.
--
-- Packages and generated code are parameters with their documented behaviour: the Bloom filters of
-- `fastbloom` (Storage.Compaction.State.Bloom), paths, JSON and times of the lock
-- (Lock.Calls.Packages), the calls of SlateDB (Storage.Allocator.Db, whose
-- unflushed writes a crash may lose, Storage.Store.Db.FolderDb), the
-- delay of the exponential back-off, which is a floating-point number, the
-- coding of messages (Storage.Allocator.MetaCodec, Storage.Store.Db.StoreCodec, and `decode_file` of
-- the filter).
--
-- Bounds: loops are recursions over lists or over a fixed number of rounds (8 Base32 digits, 64
-- bits), so no fuel is chosen; the lock alone has a loop that retries, whose fuel is enough if it is
-- more than the attempts to create a file that was there already. A retried call has fuel for the retries
-- of its policy, the search for a request id for one id more than are in flight, and the loop over the
-- waiting requests for one round more than there are; all three are enough. A call of `allocate` is one step,
-- since the two locks of the source exclude each other's refills; so is an operation of the folder's
-- store, whose locks exclude other writers of the same name and of the metadata; a row is filtered
-- against the compaction state of one moment, and what other tasks do in between is a sequence of
-- events. Sequence entries that compactions have removed, those below the least cursor of the peers, are a
-- bound of the store (Storage.Store.Db.Setup.pruned), above which the index is complete.
--
-- Not modelled: failing writes of frames, the hand-shake of a connection and the engine, the printing
-- and parsing of whole device ids, the slot that a compaction waits for, the scheduler, fsck,
-- snapshots, the command line, WebDAV and TLS, which are network, process or database code around these
-- parts; and log lines.
pub mod Prelude
pub mod Lock
pub mod Bep
pub mod Storage
