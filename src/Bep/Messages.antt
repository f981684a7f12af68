-- ===== src/Bep/Messages.antt =====
-- bepository-bep/proto/bep.proto: the messages of a connection, with the fields that connection.rs
-- writes or reads. The fields that it leaves at their defaults are left out. A request id is an
-- `int32` that is only counted up, with wrap-around, and compared: it is its bit pattern.
use bepository.Prelude.{ℕ, Bytes, Bool, List}
use bepository.Prelude.Int.{ℤ, pos}
use bepository.Bep.Proto.{FileInfo}

pub record Device : Type 0 where
  pub id : Bytes
  pub max_sequence : ℤ
  pub index_id : ℕ

pub record Folder : Type 0 where
  pub id : Bytes
  pub label : Bytes
  pub devices : List Device

pub record ClusterConfig : Type 0 where
  pub folders : List Folder
  pub secondary : Bool

pub record Index : Type 0 where
  pub folder : Bytes
  pub files : List FileInfo
  pub last_sequence : ℤ

pub record IndexUpdate : Type 0 where
  pub folder : Bytes
  pub files : List FileInfo
  pub last_sequence : ℤ
  pub prev_sequence : ℤ

pub record Request : Type 0 where
  pub id : ℕ
  pub folder : Bytes
  pub name : Bytes
  pub offset : ℤ
  pub size : ℤ
  pub hash : Bytes
  pub from_temporary : Bool
  pub block_no : ℕ

-- `ErrorCode`, as the number of the field.
abbrev pub no_error : ℤ
no_error = pos 0

abbrev pub generic : ℤ
generic = pos 1

abbrev pub no_such_file : ℤ
no_such_file = pos 2

pub record Response : Type 0 where
  pub id : ℕ
  pub content : Bytes
  pub code : ℤ

-- What a connection sends: `MessageType` with its payload.
pub data Message : Type 0 where
  cluster_config : ClusterConfig → Message
  index : Index → Message
  index_update : IndexUpdate → Message
  request : Request → Message
  response : Response → Message
  ping : Message
  close : Bytes → Message
