-- ===== src/Storage/Proto.antt =====
-- bepository-storage/proto/storage.proto: the records that the database holds. The file entry repeats
-- that of the protocol, apart from the blocks, which say where their data is.
pub mod Convert
pub mod RoundTrip
use bepository.Prelude.{ℕ, Bytes, Bool, Option, List}
use bepository.Prelude.Int.{ℤ}

pub record BlockRef : Type 0 where
  pub seqno : ℕ

pub record FolderIndexMeta : Type 0 where
  pub max_sequence : ℤ
  pub next_blockseq : Option ℕ

pub record RemoteIndexState : Type 0 where
  pub index_id : ℕ
  pub max_sequence : ℤ

pub record Counter : Type 0 where
  pub id : ℕ
  pub value : ℕ

pub record Vector : Type 0 where
  pub counters : List Counter

pub record BlockInfo : Type 0 where
  pub hash : Bytes
  pub offset : ℤ
  pub size : ℤ
  pub blockseq : Option ℕ
  pub inline_data : Option Bytes

pub record UnixData : Type 0 where
  pub owner_name : Bytes
  pub group_name : Bytes
  pub uid : ℤ
  pub gid : ℤ

pub record WindowsData : Type 0 where
  pub owner_name : Bytes
  pub owner_is_group : Bool

pub record Xattr : Type 0 where
  pub name : Bytes
  pub value : Bytes

pub record XattrData : Type 0 where
  pub xattrs : List Xattr

pub record PlatformData : Type 0 where
  pub unix : Option UnixData
  pub windows : Option WindowsData
  pub linux : Option XattrData
  pub darwin : Option XattrData
  pub freebsd : Option XattrData
  pub netbsd : Option XattrData

pub record FileInfo : Type 0 where
  pub name : Bytes
  pub size : ℤ
  pub modified_s : ℤ
  pub modified_by : ℕ
  pub version : Option Vector
  pub sequence : ℤ
  pub blocks : List BlockInfo
  pub symlink_target : Bytes
  pub blocks_hash : Bytes
  pub previous_blocks_hash : Bytes
  pub encrypted : Bytes
  pub file_type : ℤ
  pub permissions : ℕ
  pub modified_ns : ℤ
  pub block_size : ℤ
  pub platform : Option PlatformData
  pub local_flags : ℕ
  pub version_hash : Bytes
  pub inode_change_ns : ℤ
  pub encryption_trailer_size : ℤ
  pub deleted : Bool
  pub invalid : Bool
  pub no_permissions : Bool

pub record File : Type 0 where
  pub file_info : Option FileInfo

pub record Inbox : Type 0 where
  pub file_info : Option FileInfo
