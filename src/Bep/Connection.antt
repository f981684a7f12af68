-- ===== src/Bep/Connection.antt =====
-- bepository-bep/src/connection.rs: the state that the tasks of a connection share, and the requests
-- for blocks: their ids, their number in flight, those that wait, and the blocks that answer them.
pub mod Ids
pub mod Pipeline
pub mod Rules
pub mod Index
pub mod Drain
pub mod Cluster
pub mod Turns
pub mod Supervisor
pub mod Together
mod Tests
use bepository.Prelude.{
  ℕ, zero, suc, ◌+◌, ◌%◌, Bytes, Bool, true, false, not, ◌&&◌, ◌||◌, Option, none, some, List, [],
  ◌∷◌, ◌++◌, Result, ok, err, ltb, leb, ◌==◌, if◌then◌else◌, bytes_eq, length, u32_mod,
}
use bepository.Prelude.Int.{ℤ, pos, eq_ℤ}
use bepository.Bep.Errors.{StorageError, BepError}
use bepository.Bep.Proto.{Vector, FileInfo}
use bepository.Bep.Conflict.{DeviceId, ConflictResolution}
use bepository.Bep.Messages.{IndexUpdate, Request, Response, Message, no_error}
use bepository.Bep.Calls.{
  Backend, FolderId, Call, Reply, Prog, done, spent, send, access, cancelled, Fallible, ◌>>?◌,
}
use bepository.Bep.Retry.{RetryPolicy, retry_storage_op}

-- `max_pending_requests`, never 0.
unfoldable pub clamp_max_pending_requests : ℕ → ℕ
clamp_max_pending_requests v = if ltb v 1 then 1 else v

module _ (B : Backend) where
  pub record FileBlock : Type 0 where
    pub handle : B.Handle
    pub name : Bytes
    pub offset : ℤ
    pub hash : Bytes
    pub version : Option Vector

  pub record DeferredRequest : Type 0 where
    pub block : FileBlock
    pub size : ℤ
    pub block_no : ℕ

  -- The maps are lists of their entries.
  pub record ConnectionInner : Type 0 where
    pub mutual_folders : List (FolderId × ℕ)
    pub our_cc_folders : List FolderId
    pub pending_requests : List (ℕ × FileBlock)
    pub next_id : ℕ
    pub max_pending_requests : ℕ
    pub deferred_blocks : List DeferredRequest

-- The resolver is a parameter; Bep.Conflict has those of the source.
pub record ConnectionContext : Type 0 where
  pub remote_device : DeviceId
  pub local_device : DeviceId
  pub resolve : FileInfo → DeviceId → FileInfo → DeviceId → Result BepError ConflictResolution
  pub policy : RetryPolicy

-- A program of a connection.
abbrev pub Conn : Backend → Type 0 → Type 0
Conn B A = Fallible B (ConnectionInner B) A

module _ {V : Type 0} where
  -- `get`, `remove` and `insert` of a `HashMap` from request ids.
  unfoldable pub find_id : ℕ → List (ℕ × V) → Option V
  find_id id [] = none
  find_id id ((j, v) ∷ l) = if j == id then some v else find_id id l

  unfoldable pub remove_id : ℕ → List (ℕ × V) → List (ℕ × V)
  remove_id id [] = []
  remove_id id ((j, v) ∷ l) = let rest = remove_id id l in if j == id then rest else (j, v) ∷ rest

  unfoldable pub insert_id : ℕ → V → List (ℕ × V) → List (ℕ × V)
  unfolding remove_id
  insert_id id v l = (id, v) ∷ remove_id id l

  unfoldable pub contains_id : ℕ → List (ℕ × V) → Bool
  contains_id id [] = false
  contains_id id ((j, v) ∷ l) = j == id || contains_id id l

  -- The loop of `next_request_id`, with fuel: the first id that is not in flight.
  unfoldable pub first_free : List (ℕ × V) → (fuel id : ℕ) → Option ℕ
  unfolding contains_id
  first_free l zero id = none
  first_free l (suc fuel) id =
      let rest = first_free l fuel ((id + 1) % u32_mod) in
      if contains_id id l then rest else some id

abbrev pub file_update : FolderId → FileInfo → Message
file_update folder_id fi = Message.index_update (record {
  folder = folder_id;
  files = fi ∷ [];
  last_sequence = fi.sequence;
  prev_sequence = pos 0;
})

module _ {B : Backend} where
  -- One round more than there are requests in flight is enough.
  unfoldable pub next_request_id : ConnectionInner B → Option ℕ
  unfolding first_free
  next_request_id conn =
      first_free conn.pending_requests (length conn.pending_requests + 1) conn.next_id

  unfoldable pub is_full : ConnectionInner B → Bool
  is_full conn = leb conn.max_pending_requests (length conn.pending_requests)

  unfoldable pub of_file : FolderId → Bytes → FileBlock B → Bool
  of_file id name b = bytes_eq (B.id_of b.handle) id && bytes_eq b.name name

  unfoldable pub any_pending : FolderId → Bytes → List (ℕ × FileBlock B) → Bool
  unfolding of_file
  any_pending id name [] = false
  any_pending id name ((_, b) ∷ l) = of_file id name b || any_pending id name l

  unfoldable pub any_deferred : FolderId → Bytes → List (DeferredRequest B) → Bool
  unfolding of_file
  any_deferred id name [] = false
  any_deferred id name (d ∷ l) = of_file id name d.block || any_deferred id name l

  unfoldable pub should_complete : ConnectionInner B → FolderId → Bytes → Bool
  unfolding any_pending any_deferred
  should_complete conn id name =
      not (any_pending id name conn.pending_requests)
      && not (any_deferred id name conn.deferred_blocks)

  abbrev pub keep : ConnectionInner B → ConnectionInner B
  keep conn = conn

  -- `ctx.retry`
  abbrev pub retry : ConnectionContext → (c : Call B) → Conn B (Reply c)
  retry ctx c = retry_storage_op ctx.policy c

  unfoldable pub send_index_update : FileInfo → FolderId → Conn B (Unit {0})
  send_index_update fi folder_id = send (file_update folder_id fi) done

  abbrev pub complete_if :
      ConnectionContext → B.Handle → Bytes → Option Vector → Bool → Conn B (Option FileInfo)
  complete_if ctx handle name version true = retry ctx (Call.complete_file handle name version)
  complete_if ctx handle name version false = done (ok none)

  unfoldable pub maybe_complete_file :
      B.Handle → Bytes → Option Vector → ConnectionContext → Conn B (Option FileInfo)
  unfolding should_complete
  maybe_complete_file handle name version ctx =
      access keep
        (λ conn. complete_if ctx handle name version (should_complete conn (B.id_of handle) name))

  abbrev pub notify : B.Handle → Option FileInfo → Conn B (Unit {0})
  notify handle none = done (ok tt)
  notify handle (some fi) = send (file_update (B.id_of handle) fi) done

  unfoldable pub complete_and_notify :
      B.Handle → Bytes → Option Vector → ConnectionContext → Conn B (Unit {0})
  unfolding maybe_complete_file ◌>>?◌
  complete_and_notify handle name version ctx =
      maybe_complete_file handle name version ctx >>? notify handle

  abbrev pub request_of : FileBlock B → ℤ → ℕ → ℕ → Request
  request_of block size block_no id = record {
    id = id;
    folder = B.id_of block.handle;
    name = block.name;
    offset = block.offset;
    size = size;
    hash = block.hash;
    from_temporary = false;
    block_no = block_no;
  }

  abbrev pub deferring : FileBlock B → ℤ → ℕ → ConnectionInner B → ConnectionInner B
  deferring block size block_no conn = record conn {
    deferred_blocks =
        conn.deferred_blocks ++ (record { block = block; size = size; block_no = block_no } ∷ []);
  }

  abbrev pub with_request : FileBlock B → ConnectionInner B → Option ℕ → ConnectionInner B
  with_request block conn none = conn
  with_request block conn (some id) = record conn {
    next_id = (id + 1) % u32_mod;
    pending_requests = insert_id id block conn.pending_requests;
  }

  -- The section under the lock of `submit_or_defer_block`.
  unfoldable pub register : FileBlock B → ℤ → ℕ → ConnectionInner B → ConnectionInner B
  unfolding is_full next_request_id insert_id
  register block size block_no conn =
      if is_full conn
      then deferring block size block_no conn
      else with_request block conn (next_request_id conn)

  abbrev pub send_request : FileBlock B → ℤ → ℕ → Option ℕ → Conn B (Unit {0})
  send_request block size block_no none = spent
  send_request block size block_no (some id) =
      send (Message.request (request_of block size block_no id)) done

  abbrev pub submitted : FileBlock B → ℤ → ℕ → ConnectionInner B → Bool → Conn B (Unit {0})
  submitted block size block_no conn true = done (ok tt)
  submitted block size block_no conn false = send_request block size block_no (next_request_id conn)

  unfoldable pub submit_or_defer_block : FileBlock B → ℤ → ℕ → Conn B (Unit {0})
  unfolding register
  submit_or_defer_block block size block_no =
      access (register block size block_no)
        (λ conn. submitted block size block_no conn (is_full conn))

  -- The section under the lock of `drain_deferred`: the request at the front, if there is room.
  abbrev pub front : List (DeferredRequest B) → Option (DeferredRequest B)
  front [] = none
  front (d ∷ l) = some d

  abbrev pub behind : List (DeferredRequest B) → List (DeferredRequest B)
  behind [] = []
  behind (d ∷ l) = l

  unfoldable pub next_deferred : ConnectionInner B → Option (DeferredRequest B)
  unfolding is_full
  next_deferred conn = if is_full conn then none else front conn.deferred_blocks

  unfoldable pub take_deferred : ConnectionInner B → ConnectionInner B
  unfolding is_full
  take_deferred conn =
      if is_full conn then conn else record conn { deferred_blocks = behind conn.deferred_blocks }

  abbrev pub after_reuse : ConnectionContext → DeferredRequest B → Bool → Conn B (Unit {0})
  after_reuse ctx d true = complete_and_notify d.block.handle d.block.name d.block.version ctx
  after_reuse ctx d false = submit_or_defer_block d.block d.size d.block_no

  abbrev pub drain_one :
      ConnectionContext → Conn B (Unit {0}) → Option (DeferredRequest B) → Conn B (Unit {0})
  drain_one ctx again none = done (ok tt)
  drain_one ctx again (some d) =
      (retry ctx (Call.reuse_block d.block.handle d.block.name d.block.offset d.block.hash d.size)
        >>? after_reuse ctx d)
      >>? λ _. again

  abbrev pub drain_round : ConnectionContext → Conn B (Unit {0}) → Bool → Conn B (Unit {0})
  drain_round ctx again true = done (ok tt)
  drain_round ctx again false =
      access take_deferred (λ conn. drain_one ctx again (next_deferred conn))

  -- The loop, with fuel for its rounds.
  unfoldable pub drain_deferred : ConnectionContext → (fuel : ℕ) → Conn B (Unit {0})
  unfolding take_deferred next_deferred ◌>>?◌
  drain_deferred ctx zero = spent
  drain_deferred ctx (suc fuel) = cancelled (drain_round ctx (drain_deferred ctx fuel))

  abbrev pub remove_request : ℕ → ConnectionInner B → ConnectionInner B
  remove_request id conn = record conn { pending_requests = remove_id id conn.pending_requests }

  abbrev pub store_response :
      ConnectionContext → Response → Option (FileBlock B) → Conn B (Option (FileBlock B))
  store_response ctx response none = done (ok none)
  store_response ctx response (some block) =
      if eq_ℤ response.code no_error
      then retry ctx
          (Call.store_block block.handle block.name block.offset block.hash response.content)
        >>? (λ _. done (ok (some block)))
      else done (err (BepError.peer_error response.code))

  abbrev pub finish : ConnectionContext → Option (FileBlock B) → Conn B (Unit {0})
  finish ctx none = done (ok tt)
  finish ctx (some block) = complete_and_notify block.handle block.name block.version ctx

  -- The loop over the queue ends after at most a round for each request that waited.
  abbrev pub drain_and_finish :
      ConnectionContext
      → (waiting : List (DeferredRequest B)) → Option (FileBlock B)
      → Conn B (Unit {0})
  drain_and_finish ctx waiting completed =
      drain_deferred ctx (suc (length waiting)) >>? λ _. finish ctx completed

  unfoldable pub handle_response : ConnectionContext → Response → Conn B (Unit {0})
  unfolding find_id remove_id drain_deferred ◌>>?◌
  handle_response ctx response = access (remove_request response.id) (λ conn.
      store_response ctx response (find_id response.id conn.pending_requests)
      >>? drain_and_finish ctx conn.deferred_blocks)
