-- ===== src/Bep/Connection/Turns.antt =====
-- bepository-bep/src/connection.rs: one turn of the message loop and of the index loop, and the
-- channels between the tasks.
use bepository.Prelude.{
  ℕ, Bytes, codes, Bool, true, false, Option, none, some, Result, ok, err, ltb, ◌==◌, if◌then◌else◌,
  ok_or, u32_mod, ◌-◌, ◌*◌,
}
use bepository.Prelude.Int.{ℤ, pos, negsuc}
use bepository.Bep.Errors.{BepError}
use bepository.Bep.Messages.{ClusterConfig, Index, IndexUpdate, Request, Response, Message}
use bepository.Bep.Calls.{Backend, done, send, or_fail, ◌>>?◌}
use bepository.Bep.Connection.{ConnectionContext, Conn, handle_response}
use bepository.Bep.Connection.Index.{handle_index, handle_index_update}
use bepository.Bep.Connection.Cluster.{handle_cluster_config_update, handle_request}

-- Why a connection closed.
pub data CloseReason : Type 0 where
  at_home : CloseReason
  remote : Bytes → CloseReason
  error : BepError → CloseReason

-- `ByteBudgetSender::send` takes so much of the budget for a message of so many bytes.
unfoldable pub budget_of : (bytes max_budget : ℕ) → ℕ
budget_of bytes max_budget =
    let clamped = if ltb bytes u32_mod then bytes else u32_mod - 1 in
    if ltb clamped 1 then 1 else if ltb max_budget clamped then max_budget else clamped

abbrev pub writer_budget_bytes : ℕ
writer_budget_bytes = 4 * 1024 * 1024

abbrev pub index_budget_bytes : ℕ
index_budget_bytes = 32 * 1024 * 1024

abbrev pub writer_per_message_overhead : ℕ
writer_per_message_overhead = 16

pub data IndexTaskMessage : Type 0 where
  whole : Index → IndexTaskMessage
  update : IndexUpdate → IndexTaskMessage

pub data MessageType : Type 0 where
  cluster_config index index_update request response download_progress ping close : MessageType

-- `MessageType::try_from`
unfoldable pub message_type : ℤ → Option MessageType
message_type (negsuc n) = none
message_type (pos n) =
    if n == 0
    then some MessageType.cluster_config
    else if n == 1
    then some MessageType.index
    else if n == 2
    then some MessageType.index_update
    else if n == 3
    then some MessageType.request
    else if n == 4
    then some MessageType.response
    else if n == 5
    then some MessageType.download_progress
    else if n == 6
    then some MessageType.ping
    else if n == 7
    then some MessageType.close
    else none

-- `decode` of the generated code, for each message.
pub record Decoders : Type 0 where
  pub cluster_config : Bytes → Option ClusterConfig
  pub index : Bytes → Option Index
  pub index_update : Bytes → Option IndexUpdate
  pub request : Bytes → Option Request
  pub response : Bytes → Option Response
  pub close : Bytes → Option Bytes
  pub is_progress : Bytes → Bool

-- What the `select!` of the message loop meets: a frame is the type of its header with its body.
pub data Inbound : Type 0 where
  shutdown tick : Inbound
  frame : Result BepError (ℤ × Bytes) → Inbound

-- How a turn ends: the loop goes on, it has passed a message to the index task, or it returns.
pub data Turn : Type 0 where
  go_on : Turn
  passed_on : IndexTaskMessage → Turn
  closed : CloseReason → Turn

abbrev pub decoded {ℓ} : {A : Type ℓ} → Option A → Result BepError A
decoded o = ok_or o BepError.peer_bad_message

-- `index_tx.send`: it fails if the index task is gone.
abbrev pub pass_on : (index_task_runs : Bool) → IndexTaskMessage → Result BepError Turn
pass_on true m = ok (passed_on m)
pass_on false m = err BepError.internal

module _ {B : Backend} (ctx : ConnectionContext) (decode : Decoders) (index_task_runs : Bool) where
  abbrev pub going_on : Conn B (Unit {0}) → Conn B Turn
  going_on m = m >>? λ _. done (ok go_on)

  unfoldable pub dispatch : Option MessageType → Bytes → Conn B Turn
  unfolding ◌>>?◌
  dispatch (some MessageType.index) body =
      or_fail (λ i. done (pass_on index_task_runs (whole i))) (decoded (decode.index body))
  dispatch (some MessageType.index_update) body =
      or_fail (λ u. done (pass_on index_task_runs (update u))) (decoded (decode.index_update body))
  dispatch (some MessageType.request) body =
      or_fail (λ r. going_on (handle_request ctx r)) (decoded (decode.request body))
  dispatch (some MessageType.response) body =
      or_fail (λ r. going_on (handle_response ctx r)) (decoded (decode.response body))
  dispatch (some MessageType.ping) body = done (ok go_on)
  dispatch (some MessageType.close) body =
      or_fail (λ reason. done (ok (closed (remote reason)))) (decoded (decode.close body))
  dispatch (some MessageType.cluster_config) body =
      or_fail (λ cc. going_on (handle_cluster_config_update ctx cc))
        (decoded (decode.cluster_config body))
  dispatch (some MessageType.download_progress) body =
      done (if decode.is_progress body then ok go_on else err BepError.peer_bad_message)
  dispatch none body = done (ok go_on)

  unfoldable pub message_turn : Inbound → Conn B Turn
  unfolding dispatch message_type ◌>>?◌
  message_turn shutdown =
      send (Message.close (codes "shutdown requested")) (λ _. done (ok (closed at_home)))
  message_turn tick = going_on (send Message.ping done)
  message_turn (frame (err e)) = done (err e)
  message_turn (frame (ok (kind, body))) = dispatch (message_type kind) body

  -- A message that the index loop received.
  unfoldable pub index_turn : IndexTaskMessage → Conn B (Unit {0})
  unfolding handle_index handle_index_update
  index_turn (whole i) = handle_index ctx i
  index_turn (update u) = handle_index_update ctx u
