-- ===== src/Bep/Proto.antt =====
-- bepository-bep/proto/bep.proto: the messages that the modelled code reads. A `string` or `bytes`
-- field is its bytes, an `i64` or `i32` an integer, a `u64` or `u32` a number.
use bepository.Prelude.{ℕ, Bytes, Bool, Option, List}
use bepository.Prelude.Int.{ℤ}

pub record Counter : Type 0 where
  pub id : ℕ
  pub value : ℕ

pub record Vector : Type 0 where
  pub counters : List Counter

pub record BlockInfo : Type 0 where
  pub offset : ℤ
  pub size : ℤ
  pub hash : Bytes

pub record UnixData : Type 0 where
  pub owner_name : Bytes
  pub group_name : Bytes
  pub uid : ℤ
  pub gid : ℤ

pub record WindowsData : Type 0 where
  pub owner_name : Bytes
  pub owner_is_group : Bool

pub record Xattr : Type 0 where
  pub name : Bytes
  pub value : Bytes

pub record XattrData : Type 0 where
  pub xattrs : List Xattr

pub record PlatformData : Type 0 where
  pub unix : Option UnixData
  pub windows : Option WindowsData
  pub linux : Option XattrData
  pub darwin : Option XattrData
  pub freebsd : Option XattrData
  pub netbsd : Option XattrData

pub record FileInfo : Type 0 where
  pub name : Bytes
  pub size : ℤ
  pub modified_s : ℤ
  pub modified_by : ℕ
  pub version : Option Vector
  pub sequence : ℤ
  pub blocks : List BlockInfo
  pub symlink_target : Bytes
  pub blocks_hash : Bytes
  pub previous_blocks_hash : Bytes
  pub encrypted : Bytes
  pub file_type : ℤ
  pub permissions : ℕ
  pub modified_ns : ℤ
  pub block_size : ℤ
  pub platform : Option PlatformData
  pub local_flags : ℕ
  pub version_hash : Bytes
  pub inode_change_ns : ℤ
  pub encryption_trailer_size : ℤ
  pub deleted : Bool
  pub invalid : Bool
  pub no_permissions : Bool
