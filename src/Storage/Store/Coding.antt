-- ===== src/Storage/Store/Coding.antt =====
-- A coding of the stored messages as lists of numbers, for the tests: the theorems take any coding that
-- reads back what it wrote.
use bepository.Prelude.{
  ℕ, zero, suc, ◌≡◌, refl, Bytes, Bool, true, false, Option, none, some, List, [], ◌∷◌, ◌++◌,
  and_then, length, append_assoc,
}
use bepository.Prelude.Int.{ℤ, pos, negsuc}
use bepository.Storage.Proto.{
  BlockRef, FolderIndexMeta, RemoteIndexState, Counter, Vector, BlockInfo, UnixData, WindowsData,
  Xattr, XattrData, PlatformData, FileInfo, File, Inbox,
}

-- What is written reads back, with what stands after it.
pub record Coding (A : Type 0) : Type 0 where
  pub write : A → Bytes
  pub read : Bytes → Option (A × Bytes)
  pub read-write : (a : A) (rest : Bytes) → read (write a ++ rest) ≡ some (a, rest)

abbrev pub read_number : Bytes → Option (ℕ × Bytes)
read_number [] = none
read_number (n ∷ rest) = some (n, rest)

abbrev pub number : Coding ℕ
number = record { write = λ n. n ∷ []; read = read_number; read-write = λ n rest. refl }

module _ {A B : Type 0} where
  abbrev pub read_both : Coding A → Coding B → Bytes → Option ((A × B) × Bytes)
  read_both x y s =
      and_then (x.read s) λ (a, r). and_then (y.read r) λ (b, rest). some ((a, b), rest)

  pub read_both-write :
      (x : Coding A) (y : Coding B) (a : A) (b : B) (rest : Bytes)
      → read_both x y ((x.write a ++ y.write b) ++ rest) ≡ some ((a, b), rest)
  read_both-write x y a b rest =
      rw
        (
          append_assoc (x.write a) (y.write b) rest,
          x.read-write a (y.write b ++ rest),
          y.read-write b rest,
        )
        refl

  abbrev pub both : Coding A → Coding B → Coding (A × B)
  both x y = record {
    write = λ (a, b). x.write a ++ y.write b;
    read = read_both x y;
    read-write = λ (a, b) rest. read_both-write x y a b rest;
  }

  -- The coding of another type with the same values.
  abbrev pub read_as : Coding A → (A → B) → Bytes → Option (B × Bytes)
  read_as x f s = and_then (x.read s) λ (a, rest). some (f a, rest)

  pub read_as-write :
      (x : Coding A) (f : A → B) (g : B → A) (b : B) (rest : Bytes)
      → f (g b) ≡ b
      → read_as x f (x.write (g b) ++ rest) ≡ some (b, rest)
  read_as-write x f g b rest same = rw (x.read-write (g b) rest, same) refl

  abbrev pub as_coding : Coding A → (f : A → B) → (g : B → A) → ((b : B) → f (g b) ≡ b) → Coding B
  as_coding x f g same = record {
    write = λ b. x.write (g b);
    read = read_as x f;
    read-write = λ b rest. read_as-write x f g b rest (same b);
  }

module _ {A : Type 0} (x : Coding A) where
  abbrev pub write_each : List A → Bytes
  write_each [] = []
  write_each (a ∷ as') = x.write a ++ write_each as'

  abbrev pub read_each : ℕ → Bytes → Option (List A × Bytes)
  read_each zero s = some ([], s)
  read_each (suc n) s =
      and_then (x.read s) λ (a, r). and_then (read_each n r) λ (as', rest). some (a ∷ as', rest)

  pub read_each-write :
      (l : List A) (rest : Bytes) → read_each (length l) (write_each l ++ rest) ≡ some (l, rest)
  read_each-write [] rest = refl
  read_each-write (a ∷ l) rest =
      rw
        (
          append_assoc (x.write a) (write_each l) rest,
          x.read-write a (write_each l ++ rest),
          read_each-write l rest,
        )
        refl

  abbrev pub read_all : Bytes → Option (List A × Bytes)
  read_all [] = none
  read_all (n ∷ s) = read_each n s

  abbrev pub all : Coding (List A)
  all = record {
    write = λ l. length l ∷ write_each l;
    read = read_all;
    read-write = read_each-write;
  }

  abbrev pub option_of : List A → Option A
  option_of [] = none
  option_of (a ∷ l) = some a

  abbrev pub list_of : Option A → List A
  list_of none = []
  list_of (some a) = a ∷ []

  pub option_of-list_of : (o : Option A) → option_of (list_of o) ≡ o
  option_of-list_of none = refl
  option_of-list_of (some a) = refl

  abbrev pub optional : Coding (Option A)
  optional = as_coding all option_of list_of option_of-list_of

abbrev pub bool_of : ℕ → Bool
bool_of zero = false
bool_of (suc n) = true

abbrev pub number_of : Bool → ℕ
number_of false = 0
number_of true = 1

pub bool_of-number_of : (b : Bool) → bool_of (number_of b) ≡ b
bool_of-number_of false = refl
bool_of-number_of true = refl

abbrev pub bool : Coding Bool
bool = as_coding number bool_of number_of bool_of-number_of

abbrev pub int_of : Bool × ℕ → ℤ
int_of (true, n) = pos n
int_of (false, n) = negsuc n

abbrev pub parts_of : ℤ → Bool × ℕ
parts_of (pos n) = (true, n)
parts_of (negsuc n) = (false, n)

pub int_of-parts_of : (z : ℤ) → int_of (parts_of z) ≡ z
int_of-parts_of (pos n) = refl
int_of-parts_of (negsuc n) = refl

abbrev pub int : Coding ℤ
int = as_coding (both bool number) int_of parts_of int_of-parts_of

abbrev pub bytes : Coding Bytes
bytes = all number

abbrev pub counter : Coding Counter
counter =
    as_coding (both number number) (λ t. record { id = t.0; value = t.1 }) (λ m. (m.id, m.value))
      (λ m. refl)

abbrev pub vector : Coding Vector
vector = as_coding (all counter) (λ t. record { counters = t }) (λ m. m.counters) (λ m. refl)

abbrev pub block_info : Coding BlockInfo
block_info =
    as_coding (both bytes (both int (both int (both (optional number) (optional bytes)))))
      (λ t. record {
        hash = t.0;
        offset = t.1.0;
        size = t.1.1.0;
        blockseq = t.1.1.1.0;
        inline_data = t.1.1.1.1;
      })
      (λ m. (m.hash, (m.offset, (m.size, (m.blockseq, m.inline_data))))) (λ m. refl)

abbrev pub unix_data : Coding UnixData
unix_data =
    as_coding (both bytes (both bytes (both int int)))
      (λ t. record { owner_name = t.0; group_name = t.1.0; uid = t.1.1.0; gid = t.1.1.1 })
      (λ m. (m.owner_name, (m.group_name, (m.uid, m.gid)))) (λ m. refl)

abbrev pub windows_data : Coding WindowsData
windows_data =
    as_coding (both bytes bool) (λ t. record { owner_name = t.0; owner_is_group = t.1 })
      (λ m. (m.owner_name, m.owner_is_group)) (λ m. refl)

abbrev pub xattr : Coding Xattr
xattr =
    as_coding (both bytes bytes) (λ t. record { name = t.0; value = t.1 }) (λ m. (m.name, m.value))
      (λ m. refl)

abbrev pub xattr_data : Coding XattrData
xattr_data = as_coding (all xattr) (λ t. record { xattrs = t }) (λ m. m.xattrs) (λ m. refl)

abbrev pub platform_data : Coding PlatformData
platform_data =
    as_coding
      (both (optional unix_data) (
        both (optional windows_data) (
          both (optional xattr_data)
            (both (optional xattr_data) (both (optional xattr_data) (optional xattr_data))))))
      (λ t. record {
        unix = t.0;
        windows = t.1.0;
        linux = t.1.1.0;
        darwin = t.1.1.1.0;
        freebsd = t.1.1.1.1.0;
        netbsd = t.1.1.1.1.1;
      })
      (λ m. (m.unix, (m.windows, (m.linux, (m.darwin, (m.freebsd, m.netbsd)))))) (λ m. refl)

abbrev pub file_info : Coding FileInfo
file_info =
    as_coding
      (both bytes (
        both int (
          both int (
            both number (
              both (optional vector) (
                both int (
                  both (all block_info) (
                    both bytes (
                      both bytes (
                        both bytes (
                          both bytes (
                            both int (
                              both number (
                                both int (
                                  both int (
                                    both (optional platform_data) (
                                      both number (
                                        both bytes (
                                          both int (
                                            both int
                                              (both bool (both bool bool))))))))))))))))))))))
      (λ t. record {
        name = t.0;
        size = t.1.0;
        modified_s = t.1.1.0;
        modified_by = t.1.1.1.0;
        version = t.1.1.1.1.0;
        sequence = t.1.1.1.1.1.0;
        blocks = t.1.1.1.1.1.1.0;
        symlink_target = t.1.1.1.1.1.1.1.0;
        blocks_hash = t.1.1.1.1.1.1.1.1.0;
        previous_blocks_hash = t.1.1.1.1.1.1.1.1.1.0;
        encrypted = t.1.1.1.1.1.1.1.1.1.1.0;
        file_type = t.1.1.1.1.1.1.1.1.1.1.1.0;
        permissions = t.1.1.1.1.1.1.1.1.1.1.1.1.0;
        modified_ns = t.1.1.1.1.1.1.1.1.1.1.1.1.1.0;
        block_size = t.1.1.1.1.1.1.1.1.1.1.1.1.1.1.0;
        platform = t.1.1.1.1.1.1.1.1.1.1.1.1.1.1.1.0;
        local_flags = t.1.1.1.1.1.1.1.1.1.1.1.1.1.1.1.1.0;
        version_hash = t.1.1.1.1.1.1.1.1.1.1.1.1.1.1.1.1.1.0;
        inode_change_ns = t.1.1.1.1.1.1.1.1.1.1.1.1.1.1.1.1.1.1.0;
        encryption_trailer_size = t.1.1.1.1.1.1.1.1.1.1.1.1.1.1.1.1.1.1.1.0;
        deleted = t.1.1.1.1.1.1.1.1.1.1.1.1.1.1.1.1.1.1.1.1.0;
        invalid = t.1.1.1.1.1.1.1.1.1.1.1.1.1.1.1.1.1.1.1.1.1.0;
        no_permissions = t.1.1.1.1.1.1.1.1.1.1.1.1.1.1.1.1.1.1.1.1.1.1;
      })
      (λ m. (
        m.name,
        (
          m.size,
          (
            m.modified_s,
            (
              m.modified_by,
              (
                m.version,
                (
                  m.sequence,
                  (
                    m.blocks,
                    (
                      m.symlink_target,
                      (
                        m.blocks_hash,
                        (
                          m.previous_blocks_hash,
                          (
                            m.encrypted,
                            (
                              m.file_type,
                              (
                                m.permissions,
                                (
                                  m.modified_ns,
                                  (
                                    m.block_size,
                                    (
                                      m.platform,
                                      (
                                        m.local_flags,
                                        (
                                          m.version_hash,
                                          (
                                            m.inode_change_ns,
                                            (
                                              m.encryption_trailer_size,
                                              (m.deleted, (m.invalid, m.no_permissions)),
                                            ),
                                          ),
                                        ),
                                      ),
                                    ),
                                  ),
                                ),
                              ),
                            ),
                          ),
                        ),
                      ),
                    ),
                  ),
                ),
              ),
            ),
          ),
        ),
      ))
      (λ m. refl)

abbrev pub file : Coding File
file = as_coding (optional file_info) (λ t. record { file_info = t }) (λ m. m.file_info) (λ m. refl)

abbrev pub inbox : Coding Inbox
inbox =
    as_coding (optional file_info) (λ t. record { file_info = t }) (λ m. m.file_info) (λ m. refl)

abbrev pub block_ref : Coding BlockRef
block_ref = as_coding number (λ t. record { seqno = t }) (λ m. m.seqno) (λ m. refl)

abbrev pub remote_index_state : Coding RemoteIndexState
remote_index_state =
    as_coding (both number int) (λ t. record { index_id = t.0; max_sequence = t.1 })
      (λ m. (m.index_id, m.max_sequence)) (λ m. refl)

abbrev pub folder_index_meta : Coding FolderIndexMeta
folder_index_meta =
    as_coding (both int (optional number)) (λ t. record { max_sequence = t.0; next_blockseq = t.1 })
      (λ m. (m.max_sequence, m.next_blockseq)) (λ m. refl)
