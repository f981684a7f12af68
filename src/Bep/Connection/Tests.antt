-- ===== src/Bep/Connection/Tests.antt =====
-- Runs of a connection at fixed inputs, and the theorems at them.
use bepository.Prelude.{ℕ, ◌≡◌, refl, Bytes, codes, false, some, none, List, [], ◌∷◌, err, arith}
use bepository.Prelude.Int.{pos}
use bepository.Bep.Errors.{BepError}
use bepository.Bep.Proto.{FileInfo}
use bepository.Bep.Conflict.{theirs_resolve}
use bepository.Bep.Messages.{Response}
use bepository.Bep.Calls.{Backend, Call, ◌>>?◌}
use bepository.Bep.Calls.Logic.{Ensures}
use bepository.Bep.Retry.{RetryPolicy, immediate_retry, retry_storage_op}
use bepository.Bep.Retry.Ends.{Outcome, retry_storage_op_ends}
use bepository.Bep.Connection.{
  FileBlock, DeferredRequest, ConnectionInner, ConnectionContext, keep, register, handle_response,
  contains_id, find_id, remove_request, store_response, drain_and_finish,
}
use bepository.Bep.Connection.Pipeline.{Keeps, Adds, Registers, register-Registers}
use bepository.Bep.Connection.Rules.{Ends}
use bepository.Bep.Connection.Index.{get_folder, apply_mutual, apply_remote_index}
use bepository.Bep.Connection.Index.Cursor.{IsSized, CursorLast, Advanced, apply_remote_index_sound}
use bepository.Bep.Connection.Drain.{Anything, Drained, handle_response-Drained}
use bepository.Bep.Connection.Together.{
  Task, task, first, second, start, accessed, Reaches, Shows, TaskResult, Ended, together_sound,
}
use bepository.Bep.Connection.Turns.{at_home}
use bepository.Bep.Connection.Supervisor.{
  finished, failed, cancelled, TaskEnd, supervise, Reports, exchanged, conclude, conclude-Reports,
  priority, max_error, greater_error,
}

-- A storage whose handles are the ids of the folders.
abbrev disk : Backend
disk = record { Handle = Bytes; id_of = λ b. b; label_of = λ b. b }

abbrev block_at : ℕ → FileBlock disk
block_at n = record {
  handle = codes "docs";
  name = codes "a";
  offset = pos n;
  hash = codes "h";
  version = none;
}

abbrev waiting : DeferredRequest disk
waiting = record { block = block_at 128; size = pos 128; block_no = 1 }

-- One request in flight, which is all that is allowed, and one that waits.
abbrev busy : ConnectionInner disk
busy = record {
  mutual_folders = (codes "docs", 7) ∷ [];
  our_cc_folders = codes "docs" ∷ [];
  pending_requests = (0, block_at 0) ∷ [];
  next_id = 1;
  max_pending_requests = 1;
  deferred_blocks = waiting ∷ [];
}

abbrev idle : ConnectionInner disk
idle = record busy { pending_requests = []; max_pending_requests = 16; deferred_blocks = [] }

busy-IsSized : IsSized busy
unfolding contains_id
busy-IsSized = record {
  sound = record { bounded = omega arith; distinct = (refl, tt); counter = omega arith };
  small = omega arith;
}

idle-IsSized : IsSized idle
idle-IsSized = record {
  sound = record { bounded = omega arith; distinct = tt; counter = omega arith };
  small = omega arith;
}

three_retries : RetryPolicy
three_retries = immediate_retry 3 (omega arith)

abbrev ctx : ConnectionContext
ctx = record {
  remote_device = codes "B";
  local_device = codes "A";
  resolve = theirs_resolve;
  policy = three_retries;
}

abbrev update : FileInfo
update = record {
  name = codes "a";
  size = pos 128;
  modified_s = pos 0;
  modified_by = 0;
  version = none;
  sequence = pos 9;
  blocks =
      record { offset = pos 0; size = pos 128; hash = codes "0123456789abcdef0123456789abcdef" }
      ∷ [];
  symlink_target = [];
  blocks_hash = [];
  previous_blocks_hash = [];
  encrypted = [];
  file_type = pos 0;
  permissions = 0;
  modified_ns = pos 0;
  block_size = pos 0;
  platform = none;
  local_flags = 0;
  version_hash = [];
  inode_change_ns = pos 0;
  encryption_trailer_size = pos 0;
  deleted = false;
  invalid = false;
  no_permissions = false;
}

abbrev response : Response
response = record { id = 0; content = codes "found"; code = pos 0 }

apply_remote_index_sound_example :
    Ensures
      (CursorLast ctx (update ∷ []) (pos 9))
      Keeps
      Adds
      ⊥
      (Ends (Advanced ctx (update ∷ []) (pos 9)) IsSized)
      []
      busy
      (apply_remote_index ctx (codes "docs") (update ∷ []) (pos 9))
apply_remote_index_sound_example =
    apply_remote_index_sound ctx (update ∷ []) (pos 9) (codes "docs") busy busy-IsSized

handle_response-Drained_example :
    Ensures Anything Adds Keeps ⊥ Drained [] busy (handle_response ctx response)
handle_response-Drained_example = handle_response-Drained ctx response busy busy-IsSized

-- The section under the lock of the response, then that of the batch.
abbrev response_left : Task disk (ConnectionInner disk) TaskResult
response_left = task [] (
    store_response ctx response (find_id 0 busy.pending_requests)
    >>? drain_and_finish ctx busy.deferred_blocks)

abbrev batch_left : Task disk (ConnectionInner disk) TaskResult
batch_left = task [] (
    apply_mutual ctx (codes "docs") (update ∷ []) (pos 9)
      (get_folder (codes "docs") busy.mutual_folders))

both_entered :
    Reaches disk
      (ConnectionInner disk)
      TaskResult
      TaskResult
      busy
      (task [] (handle_response ctx response))
      (task [] (apply_remote_index ctx (codes "docs") (update ∷ []) (pos 9)))
      (remove_request 0 busy)
      response_left
      batch_left
unfolding handle_response apply_remote_index
both_entered =
    second
      (first start (
        accessed (remove_request 0) (λ conn.
          store_response ctx response (find_id 0 conn.pending_requests)
          >>? drain_and_finish ctx conn.deferred_blocks)))
      (accessed keep (λ conn.
        apply_mutual ctx (codes "docs") (update ∷ []) (pos 9)
          (get_folder (codes "docs") conn.mutual_folders)))

together_sound_example :
    IsSized (remove_request 0 busy)
    × Shows Anything Drained (remove_request 0 busy) [] response_left.rest
    × Shows
        (CursorLast ctx (update ∷ []) (pos 9))
        (Ended ctx (update ∷ []) (pos 9))
        (remove_request 0 busy)
        []
        batch_left.rest
together_sound_example =
    together_sound ctx (update ∷ []) (pos 9) (codes "docs") response busy (remove_request 0 busy)
      response_left batch_left busy-IsSized both_entered

register-Registers_example :
    Registers (block_at 0) (pos 128) 0 idle (register (block_at 0) (pos 128) 0 idle)
register-Registers_example =
    register-Registers (block_at 0) (pos 128) 0 idle idle-IsSized.sound (omega arith)

retry_storage_op_ends_example :
    Ensures {B = disk}
      (λ h' c'. c' ≡ Call.folder (codes "docs"))
      (λ s' now. Unit {0})
      (λ now now'. ⊥)
      ⊥
      (λ h' s' r. Outcome three_retries (Call.folder (codes "docs")) [] h' r × (s' ≡ busy))
      []
      busy
      (retry_storage_op three_retries (Call.folder (codes "docs")))
retry_storage_op_ends_example =
    retry_storage_op_ends three_retries (Call.folder (codes "docs")) [] busy

abbrev ends : List TaskEnd
ends =
    failed BepError.network_error
    ∷ failed BepError.corruption
    ∷ cancelled
    ∷ finished (some at_home)
    ∷ []

conclude-Reports_example : Reports exchanged ends (conclude exchanged ends)
conclude-Reports_example = conclude-Reports exchanged ends

worst_error : supervise ends [] none ≡ err BepError.corruption
unfolding supervise max_error greater_error priority
worst_error = refl
