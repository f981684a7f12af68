-- ===== src/Storage/Store/Tests.antt =====
-- The store over a database that is a function, and the theorems at a first file.
use bepository.Prelude.{
  ◌≡◌, refl, inl, inr, Bytes, codes, true, false, Option, none, some, [], ◌∷◌, Result, ok, and_then,
  arith, append-nil,
}
use bepository.Prelude.Int.{pos, ◌+ℤ◌}
use bepository.Lock.Epoch.{Epoch}
use bepository.Prelude.Utf8.{is_utf8}
use bepository.Bep.Errors.{StorageError}
use bepository.Bep.Proto as Bep
use bepository.Storage.Allocator.{Db, MetaCodec, default_meta}
use bepository.Storage.Compaction.State.{Bloom}
use bepository.Storage.Keys.{inbox_key, file_key, seq_key}
use bepository.Storage.Keys.Split.{IsName}
use bepository.Storage.Proto.Convert.{file_to_storage, file_to_bep}
use bepository.Storage.Store.{put_file}
use bepository.Storage.Store.Coding.{
  Coding, file, inbox, block_ref, remote_index_state, folder_index_meta,
}
use bepository.Storage.Store.BlockOps.{store_block, reuse_block}
use bepository.Storage.Store.StoreKept.{block_operations-IsIndexed}
use bepository.Storage.Store.Commit.{content_of}
use bepository.Storage.Store.Db.{put, write_one, applied, FolderDb, StoreCodec, Setup, FolderStore}
use bepository.Storage.Store.Index.{IsIndexed}
use bepository.Storage.Store.Intake.{stage_file, complete_file}
use bepository.Storage.Store.Kept.{
  Puts, put_file-Puts, stage_file-IsIndexed, Completes, complete_file-Completes,
}
use bepository.Storage.Store.KeysApart.{write_put-same, write_put-apart}

abbrev Table : Type 0
Table = Bytes → Option Bytes

abbrev read_table : Bytes → Table → Result StorageError (Option Bytes)
read_table k s = ok (s k)

read_table-eq-ok : (k : Bytes) (s : Table) (o : Option Bytes) → read_table k s ≡ ok o → o ≡ s k
read_table-eq-ok k s o h = cc

abbrev table : Db
table = record {
  State = Table;
  content = λ s k. s k;
  get = read_table;
  put = λ k v s. (write_one (put k v) s, ok tt);
  flush = λ s. (s, ok tt);
  get-content = read_table-eq-ok;
  durable = λ s k. s k;
  put-durable = λ k v s. inr (inr refl);
  flush-durable = λ k s. inl refl;
  put-content = λ k v s. inl (write_put-same k v s);
  flush-content = λ k s. refl;
}

abbrev folder_table : FolderDb
folder_table = record {
  base = table;
  put-other = λ k v s j apart. write_put-apart k v s j apart;
  write = λ batch s. (applied batch s, ok tt);
  write-content = λ batch s. inl (λ k. refl);
  scan = λ start end_key s. ok [];
  scan_prefix = λ prefix s. ok [];
}

-- What is read is all there is to read.
abbrev decode_with : {A : Type 0} → Coding A → Bytes → Option A
decode_with x s = and_then (x.read s) λ (a, rest). some a

decode_with-write : {A : Type 0} (x : Coding A) (a : A) → decode_with x (x.write a) ≡ some a
decode_with-write x a = rw (← append-nil (x.write a), x.read-write a []) refl

abbrev meta_codec : MetaCodec
meta_codec = record {
  encode = folder_index_meta.write;
  decode = decode_with folder_index_meta;
  decode-encode = decode_with-write folder_index_meta;
}

abbrev store_codec : StoreCodec
store_codec = record {
  meta = meta_codec;
  encode_file = file.write;
  decode_file = decode_with file;
  decode-encode_file = decode_with-write file;
  encode_inbox = inbox.write;
  decode_inbox = decode_with inbox;
  decode-encode_inbox = decode_with-write inbox;
  encode_ref = block_ref.write;
  decode_ref = decode_with block_ref;
  decode-encode_ref = decode_with-write block_ref;
  encode_remote = remote_index_state.write;
  decode_remote = decode_with remote_index_state;
  decode-encode_remote = decode_with-write remote_index_state;
}

abbrev full : {Item : Type 0} → Bloom Item
full = record {
  Filter = Unit {0};
  empty = tt;
  insert = λ x f. f;
  contains = λ f x. true;
  contains-insert = λ x f. refl;
  contains-insert_other = λ x y f h. h;
}

abbrev setup : Setup
setup = record {
  pruned = 0;
  db = folder_table;
  codec = store_codec;
  blooms = record { hashes = full; seqs = full };
}

abbrev empty_store : FolderStore setup
empty_store = record {
  data_of = λ k. none;
  gc = record { jobs = []; next_job = 1 };
  blockseq = record { next = 0; end = 0 };
}

empty-IsIndexed : IsIndexed setup (λ k. none) 0
empty-IsIndexed = record {
  meta = default_meta;
  is_meta = refl;
  is_top = refl;
  fits = omega arith;
  bounded = λ name fi seq u is num. absurd (cc is);
  points = λ name fi seq u is num positive. absurd (cc is);
  exact = λ n name small positive is. absurd (cc is);
}

abbrev readme : Bep.FileInfo
readme = record {
  name = codes "docs/readme";
  size = pos 0;
  modified_s = pos 0;
  modified_by = 1;
  version = some (record { counters = record { id = 1; value = 1 } ∷ [] });
  sequence = pos 0;
  blocks = [];
  symlink_target = [];
  blocks_hash = [];
  previous_blocks_hash = [];
  encrypted = [];
  file_type = pos 0;
  permissions = 420;
  modified_ns = pos 0;
  block_size = pos 0;
  platform = none;
  local_flags = 0;
  version_hash = [];
  inode_change_ns = pos 0;
  encryption_trailer_size = pos 0;
  deleted = false;
  invalid = false;
  no_permissions = false;
}

readme-IsName : IsName readme.name
readme-IsName = record { utf8 = unfold is_utf8 in refl; relative = refl }

put_file-Puts_example : Puts setup 0 (put_file setup readme empty_store)
put_file-Puts_example =
    put_file-Puts setup readme empty_store 0 readme-IsName empty-IsIndexed (omega arith)

abbrev first_epoch : Epoch
first_epoch = record { val = 0; base32 = codes "00000000" }

-- The file is in transfer, and nothing is committed.
abbrev staged_store : FolderStore setup
staged_store = (stage_file setup first_epoch readme empty_store).0

staged-IsIndexed : IsIndexed setup (content_of setup staged_store) 0
staged-IsIndexed = stage_file-IsIndexed setup first_epoch readme empty_store 0 empty-IsIndexed

complete_file_first :
    (complete_file setup first_epoch readme.name readme.version staged_store).1
    ≡ ok (some (record readme { sequence = pos 1 }))
unfolding complete_file stage_file inbox_key file_key seq_key file_to_storage file_to_bep ◌+ℤ◌
complete_file_first = refl

complete_file-Completes_example :
    Completes setup
      (content_of setup staged_store)
      first_epoch
      readme.name
      readme.version
      0
      (complete_file setup first_epoch readme.name readme.version staged_store)
complete_file-Completes_example =
    complete_file-Completes setup first_epoch readme.name readme.version staged_store 0
      readme-IsName staged-IsIndexed (omega arith)

abbrev block_hash : Bytes
block_hash = codes "0123456789abcdef0123456789abcdef"

abbrev image : Bep.FileInfo
image = record readme {
  name = codes "docs/image";
  size = pos 5;
  blocks = record { hash = block_hash; offset = pos 0; size = pos 5 } ∷ [];
}

image-IsName : IsName image.name
image-IsName = record { utf8 = unfold is_utf8 in refl; relative = refl }

abbrev image_store : FolderStore setup
image_store = (stage_file setup first_epoch image empty_store).0

image_store-IsIndexed : IsIndexed setup (content_of setup image_store) 0
image_store-IsIndexed = stage_file-IsIndexed setup first_epoch image empty_store 0 empty-IsIndexed

store_block_first :
    (store_block setup (some first_epoch) image.name block_hash (codes "hello") image_store).1
    ≡ ok tt
unfolding store_block stage_file inbox_key file_to_storage
store_block_first = refl

block_operations-IsIndexed_example :
    IsIndexed setup
      (content_of setup
        (store_block setup (some first_epoch) image.name block_hash (codes "hello") image_store).0)
      0
    × IsIndexed setup
        (content_of setup
          (reuse_block setup (some first_epoch) image.name block_hash image_store).0)
        0
block_operations-IsIndexed_example =
    block_operations-IsIndexed setup image_store 0 (some first_epoch) image.name block_hash
      (codes "hello") image-IsName image_store-IsIndexed
