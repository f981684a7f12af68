-- ===== src/Storage/Allocator/Tests.antt =====
-- The allocator over a database that is a function, and the theorems at its first number.
use bepository.Prelude.{
  ℕ, zero, suc, ◌≡◌, refl, inl, Bytes, Option, none, some, [], ◌∷◌, Result, ok, if◌then◌else◌,
  bytes_eq, bytes_eq_refl, arith,
}
use bepository.Prelude.Int.{ℤ, pos, negsuc}
use bepository.Bep.Errors.{StorageError}
use bepository.Storage.Keys.{ix_key}
use bepository.Storage.Proto.{FolderIndexMeta}
use bepository.Storage.Allocator.{Db, MetaCodec, SeqRange, load, allocate}
use bepository.Storage.Allocator.Fresh.{IsReserved, IsFresh, bound, allocate-IsFresh}
use bepository.Storage.Allocator.Runs.{opened, allocated, restarted, Descends, Run-Descends}

abbrev Table : Type 0
Table = Bytes → Option Bytes

abbrev set : Bytes → Bytes → Table → Table
set k v s j = if bytes_eq j k then some v else s j

set_same : (k v : Bytes) (s : Table) → set k v s k ≡ some v
set_same k v s = rw (bytes_eq_refl k) refl

-- What is read, and what a crash leaves of it.
abbrev Disk : Type 0
Disk = Table × Table

abbrev read : Bytes → Disk → Result StorageError (Option Bytes)
read k s = ok (s.0 k)

table_get : (k : Bytes) (s : Disk) (o : Option Bytes) → read k s ≡ ok o → o ≡ s.0 k
table_get k s o h = cc

abbrev table : Db
table = record {
  State = Disk;
  content = λ s k. s.0 k;
  durable = λ s k. s.1 k;
  get = read;
  put = λ k v s. ((set k v s.0, s.1), ok tt);
  flush = λ s. ((s.0, s.0), ok tt);
  get-content = table_get;
  put-content = λ k v s. inl (set_same k v s.0);
  put-durable = λ k v s. inl refl;
  flush-durable = λ k s. inl refl;
  flush-content = λ k s. refl;
}

abbrev encode_meta : FolderIndexMeta → Bytes
encode_meta m = elim m.max_sequence [
  | pos n ↦ elim m.next_blockseq [ none ↦ 0 ∷ n ∷ [] | some q ↦ 0 ∷ n ∷ q ∷ [] ]
  | negsuc n ↦ elim m.next_blockseq [ none ↦ 1 ∷ n ∷ [] | some q ↦ 1 ∷ n ∷ q ∷ [] ]
]

abbrev sign : ℕ → ℕ → ℤ
sign zero n = pos n
sign (suc s) n = negsuc n

abbrev decode_meta : Bytes → Option FolderIndexMeta
decode_meta (s ∷ n ∷ []) = some (record { max_sequence = sign s n; next_blockseq = none })
decode_meta (s ∷ n ∷ q ∷ []) = some (record { max_sequence = sign s n; next_blockseq = some q })
decode_meta _ = none

decode-encode_meta : (m : FolderIndexMeta) → decode_meta (encode_meta m) ≡ some m
decode-encode_meta m = go m.max_sequence m.next_blockseq
  where
    go :
        (n : ℤ) (q : Option ℕ)
        → decode_meta (encode_meta (record { max_sequence = n; next_blockseq = q }))
          ≡ some (record { max_sequence = n; next_blockseq = q })
    go (pos n) none = refl
    go (pos n) (some q) = refl
    go (negsuc n) none = refl
    go (negsuc n) (some q) = refl

abbrev codec : MetaCodec
codec = record { encode = encode_meta; decode = decode_meta; decode-encode = decode-encode_meta }

abbrev empty : Disk
empty = (λ k. none, λ k. none)

abbrev nothing : SeqRange
nothing = record { next = 0; end = 0 }

abbrev first_batch : SeqRange
first_batch = record { next = 1025; end = 1280 }

abbrev reserved : Table
reserved = set ix_key (0 ∷ 0 ∷ 1280 ∷ []) empty.0

abbrev marked : Disk
marked = (reserved, reserved)

abbrev after_crash : SeqRange
after_crash = record { next = 1280; end = 1280 }

load-empty : load table codec empty ≡ ok nothing
unfolding load
load-empty = refl

allocate_first : allocate table codec nothing empty ≡ (first_batch, marked, ok 1024)
unfolding allocate
allocate_first = refl

nothing-IsReserved : IsReserved table codec nothing empty
nothing-IsReserved = record {
  ordered = omega arith;
  held = omega arith;
  lasting = omega arith;
  floor = λ h. absurd (omega arith);
}

allocate-IsFresh_example : IsFresh table codec nothing empty (allocate table codec nothing empty)
allocate-IsFresh_example =
    allocate-IsFresh table codec nothing empty nothing-IsReserved (omega arith)

load-marked : load table codec marked ≡ ok after_crash
unfolding load
load-marked = refl

-- A first number, and a restart that leaves only what was durable.
Run-Descends_example :
    IsReserved table codec after_crash marked
    × Descends (bound table codec after_crash marked) (1024 ∷ [])
    × Descends 1280 (1024 ∷ [])
Run-Descends_example = Run-Descends table codec after_crash marked (1024 ∷ []) (
    restarted first_batch after_crash marked marked (1024 ∷ [])
      (allocated nothing first_batch empty marked 1024 [] (opened nothing empty refl load-empty)
        (omega arith) allocate_first)
      refl refl load-marked)
