-- ===== src/Bep/Calls.antt =====
-- The calls that a connection makes: those of the traits Storage and StorageFolder of
-- bepository-bep/src/storage.rs, whose implementation is a parameter, the writer's, and those of the
-- shutdown token. A program is the tree of its calls and of its accesses to the state that the tasks
-- of a connection share, so nothing is said of what other tasks do between two of them.
pub mod Logic
use bepository.Prelude.{ℕ, Bytes, Bool, Option, List, Result, ok, err}
use bepository.Prelude.Int.{ℤ}
use bepository.Bep.Errors.{StorageError, BepError}
use bepository.Bep.Proto.{Vector, FileInfo}
use bepository.Bep.Conflict.{DeviceId}
use bepository.Bep.Messages.{Message}

-- Interned strings: equal ids are equal texts.
abbrev pub FolderId : Type 0
FolderId = Bytes

abbrev pub FolderLabel : Type 0
FolderLabel = Bytes

-- What a storage gives: its handles of folders, with the id and the label of each.
pub record Backend : Type 1 where
  pub Handle : Type 0
  pub id_of : Handle → FolderId
  pub label_of : Handle → FolderLabel

pub record RemoteIndexState : Type 0 where
  pub index_id : ℕ
  pub max_sequence : ℤ

pub data UpdateResult : Type 0 where
  need_blocks : FileInfo → UpdateResult
  no_action : UpdateResult
  applied : FileInfo → UpdateResult
  concurrent : (local remote : FileInfo) → UpdateResult

-- A call of the storage. `next_entry` reads the stream that `index` opened.
pub data Call (B : Backend) : Type 0 where
  folder : FolderId → Call B
  list_folders : Call B
  ensure_folders : List (FolderId × FolderLabel) → Call B
  local_sequence : B.Handle → Call B
  index : B.Handle → ℤ → Call B
  read_block : B.Handle → Bytes → ℤ → ℤ → Bytes → Call B
  apply_update : B.Handle → FileInfo → DeviceId → Call B
  set_remote_state : B.Handle → DeviceId → RemoteIndexState → Call B
  resolve_conflict : B.Handle → FileInfo → FileInfo → Option Bytes → Call B
  store_block : B.Handle → Bytes → ℤ → Bytes → Bytes → Call B
  complete_file : B.Handle → Bytes → Option Vector → Call B
  reuse_block : B.Handle → Bytes → ℤ → Bytes → ℤ → Call B

-- What a call gives if it succeeds. The stream of an index is the list of what it will give.
abbrev pub Reply : {B : Backend} → Call B → Type 0
Reply {B} (folder id) = B.Handle
Reply list_folders = List (FolderId × FolderLabel)
Reply (ensure_folders folders) = List Bool
Reply (local_sequence h) = ℤ
Reply (index h since) = List (Result StorageError FileInfo)
Reply (read_block h name offset size hash) = Bytes
Reply (apply_update h file device) = UpdateResult
Reply (set_remote_state h device state) = Unit {0}
Reply (resolve_conflict h winner loser path) = Unit {0}
Reply (store_block h name offset hash content) = Unit {0}
Reply (complete_file h name version) = Option FileInfo
Reply (reuse_block h name offset hash size) = Bool

-- A program on the shared state `S` with a result in `A`. `access f k` is a section under the lock:
-- it replaces the state `s` by `f s`, and goes on with `k s`. `cancelled` asks whether shutdown was
-- requested, and `sleep` waits: it tells whether shutdown was requested first. `spent` stands where
-- the fuel of a loop has run out.
pub data Prog (B : Backend) (S : Type 0) (A : Type 0) : Type 0 where
  done : A → Prog B S A
  spent : Prog B S A
  call : (c : Call B) → (Result StorageError (Reply c) → Prog B S A) → Prog B S A
  send : Message → (Result BepError (Unit {0}) → Prog B S A) → Prog B S A
  access : (S → S) → (S → Prog B S A) → Prog B S A
  cancelled : (Bool → Prog B S A) → Prog B S A
  sleep : ℕ → (Bool → Prog B S A) → Prog B S A

module _ {B : Backend} {S A C : Type 0} where
  unfoldable pub bind : Prog B S A → (A → Prog B S C) → Prog B S C
  bind (done a) f = f a
  bind spent f = spent
  bind (call c k) f = call c (λ r. bind (k r) f)
  bind (send m k) f = send m (λ r. bind (k r) f)
  bind (access g k) f = access g (λ s. bind (k s) f)
  bind (cancelled k) f = cancelled (λ b. bind (k b) f)
  bind (sleep d k) f = sleep d (λ b. bind (k b) f)

-- A program that may fail, and `?`.
abbrev pub Fallible : Backend → Type 0 → Type 0 → Type 0
Fallible B S A = Prog B S (Result BepError A)

module _ {B : Backend} {S A C : Type 0} where
  abbrev pub or_fail : (A → Fallible B S C) → Result BepError A → Fallible B S C
  or_fail f (ok a) = f a
  or_fail f (err e) = done (err e)

  infixl 5 ◌>>?◌
  unfoldable pub ◌>>?◌ : Fallible B S A → (A → Fallible B S C) → Fallible B S C
  unfolding bind
  m >>? f = bind m (or_fail f)
