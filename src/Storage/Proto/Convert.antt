-- ===== src/Storage/Proto/Convert.antt =====
-- bepository-storage/src/proto.rs: the conversions between the file entries of the protocol and
-- those of the database.
use mathlib.Core.Option
use bepository.Prelude.{none, map, if◌then◌else◌, ◌||◌, Result, ok, err, ◌>>=◌}
use bepository.Prelude.Int.{ℤ, pos, eq_ℤ}
use bepository.Bep.Errors.{StorageError}
use bepository.Bep.Proto as Bep
use bepository.Storage.Proto as Storage

-- FileInfoType: FILE 0, DIRECTORY 1, three kinds of SYMLINK 2, 3, 4, against UNSPECIFIED 0, FILE 1,
-- DIRECTORY 2, SYMLINK 3. An unknown type is taken for a file.
unfoldable pub bep_type_to_storage : ℤ → ℤ
bep_type_to_storage t =
    if eq_ℤ t (pos 1)
    then pos 2
    else if eq_ℤ t (pos 2) || eq_ℤ t (pos 3) || eq_ℤ t (pos 4)
    then pos 3
    else pos 1

unfoldable pub storage_type_to_bep : ℤ → Result StorageError ℤ
storage_type_to_bep t =
    if eq_ℤ t (pos 1)
    then ok (pos 0)
    else if eq_ℤ t (pos 2)
    then ok (pos 1)
    else if eq_ℤ t (pos 3)
    then ok (pos 4)
    else err StorageError.corruption

abbrev pub counter_to_storage : Bep.Counter → Storage.Counter
counter_to_storage b = record { id = b.id; value = b.value }

abbrev pub counter_to_bep : Storage.Counter → Bep.Counter
counter_to_bep s = record { id = s.id; value = s.value }

abbrev pub vector_to_storage : Bep.Vector → Storage.Vector
vector_to_storage b = record { counters = map counter_to_storage b.counters }

abbrev pub vector_to_bep : Storage.Vector → Bep.Vector
vector_to_bep s = record { counters = map counter_to_bep s.counters }

abbrev pub block_to_storage : Bep.BlockInfo → Storage.BlockInfo
block_to_storage b = record {
  hash = b.hash;
  offset = b.offset;
  size = b.size;
  blockseq = none;
  inline_data = none;
}

abbrev pub block_to_bep : Storage.BlockInfo → Bep.BlockInfo
block_to_bep s = record { hash = s.hash; offset = s.offset; size = s.size }

abbrev pub unix_to_storage : Bep.UnixData → Storage.UnixData
unix_to_storage b = record {
  owner_name = b.owner_name;
  group_name = b.group_name;
  uid = b.uid;
  gid = b.gid;
}

abbrev pub unix_to_bep : Storage.UnixData → Bep.UnixData
unix_to_bep s = record {
  owner_name = s.owner_name;
  group_name = s.group_name;
  uid = s.uid;
  gid = s.gid;
}

abbrev pub windows_to_storage : Bep.WindowsData → Storage.WindowsData
windows_to_storage b = record { owner_name = b.owner_name; owner_is_group = b.owner_is_group }

abbrev pub windows_to_bep : Storage.WindowsData → Bep.WindowsData
windows_to_bep s = record { owner_name = s.owner_name; owner_is_group = s.owner_is_group }

abbrev pub xattr_to_storage : Bep.Xattr → Storage.Xattr
xattr_to_storage b = record { name = b.name; value = b.value }

abbrev pub xattr_to_bep : Storage.Xattr → Bep.Xattr
xattr_to_bep s = record { name = s.name; value = s.value }

abbrev pub xattrs_to_storage : Bep.XattrData → Storage.XattrData
xattrs_to_storage b = record { xattrs = map xattr_to_storage b.xattrs }

abbrev pub xattrs_to_bep : Storage.XattrData → Bep.XattrData
xattrs_to_bep s = record { xattrs = map xattr_to_bep s.xattrs }

abbrev pub platform_to_storage : Bep.PlatformData → Storage.PlatformData
platform_to_storage b = record {
  unix = Option.map unix_to_storage b.unix;
  windows = Option.map windows_to_storage b.windows;
  linux = Option.map xattrs_to_storage b.linux;
  darwin = Option.map xattrs_to_storage b.darwin;
  freebsd = Option.map xattrs_to_storage b.freebsd;
  netbsd = Option.map xattrs_to_storage b.netbsd;
}

abbrev pub platform_to_bep : Storage.PlatformData → Bep.PlatformData
platform_to_bep s = record {
  unix = Option.map unix_to_bep s.unix;
  windows = Option.map windows_to_bep s.windows;
  linux = Option.map xattrs_to_bep s.linux;
  darwin = Option.map xattrs_to_bep s.darwin;
  freebsd = Option.map xattrs_to_bep s.freebsd;
  netbsd = Option.map xattrs_to_bep s.netbsd;
}

unfoldable pub file_to_storage : Bep.FileInfo → Storage.FileInfo
unfolding bep_type_to_storage
file_to_storage b = record {
  name = b.name;
  size = b.size;
  modified_s = b.modified_s;
  modified_by = b.modified_by;
  version = Option.map vector_to_storage b.version;
  sequence = b.sequence;
  blocks = map block_to_storage b.blocks;
  symlink_target = b.symlink_target;
  blocks_hash = b.blocks_hash;
  previous_blocks_hash = b.previous_blocks_hash;
  encrypted = b.encrypted;
  file_type = bep_type_to_storage b.file_type;
  permissions = b.permissions;
  modified_ns = b.modified_ns;
  block_size = b.block_size;
  platform = Option.map platform_to_storage b.platform;
  local_flags = b.local_flags;
  version_hash = b.version_hash;
  inode_change_ns = b.inode_change_ns;
  encryption_trailer_size = b.encryption_trailer_size;
  deleted = b.deleted;
  invalid = b.invalid;
  no_permissions = b.no_permissions;
}

-- `TryFrom`: the type is the only field that can fail.
unfoldable pub file_to_bep : Storage.FileInfo → Result StorageError Bep.FileInfo
unfolding storage_type_to_bep
file_to_bep s = storage_type_to_bep s.file_type >>= λ file_type. ok (record {
  name = s.name;
  size = s.size;
  modified_s = s.modified_s;
  modified_by = s.modified_by;
  version = Option.map vector_to_bep s.version;
  sequence = s.sequence;
  blocks = map block_to_bep s.blocks;
  symlink_target = s.symlink_target;
  blocks_hash = s.blocks_hash;
  previous_blocks_hash = s.previous_blocks_hash;
  encrypted = s.encrypted;
  file_type = file_type;
  permissions = s.permissions;
  modified_ns = s.modified_ns;
  block_size = s.block_size;
  platform = Option.map platform_to_bep s.platform;
  local_flags = s.local_flags;
  version_hash = s.version_hash;
  inode_change_ns = s.inode_change_ns;
  encryption_trailer_size = s.encryption_trailer_size;
  deleted = s.deleted;
  invalid = s.invalid;
  no_permissions = s.no_permissions;
})
