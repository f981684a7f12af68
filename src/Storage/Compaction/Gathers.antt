-- ===== src/Storage/Compaction/Gathers.antt =====
-- What the scan of a compaction (bepository-storage/src/compaction.rs) inserts: all that the files it
-- meets refer to.
use bepository.Prelude.{
  ℕ, ◌≡◌, ◌⊎◌, inl, inr, refl, Bytes, true, Option, none, some, List, [], ◌∷◌, ◌++◌, ◌==◌, ltb,
  length, Bool-cases, not, starts_with, sym, ap, ◌∙◌,
}
use bepository.Storage.Keys.{hash_len, min_block_seq, inbox_key, file_prefix}
use bepository.Lock.Epoch.{Epoch}
use bepository.Storage.Proto.{BlockInfo, FileInfo}
use bepository.Storage.Compaction.State.{Insert, hash_of, seq_of}
use bepository.Storage.Compaction.Scan.{
  before_both, index_block, index_blocks, both, index_row, index_rows, rows_under, Snapshot, scan,
}

-- One of the blocks has data under a number: `x` is its hash or this number.
abbrev pub Refers : Insert → List BlockInfo → Type 0
Refers x [] = ⊥
Refers x (block ∷ blocks) =
    ((seq : ℕ) × (block.blockseq ≡ some seq) × ((x ≡ hash_of block.hash) ⊎ (x ≡ seq_of seq)))
    ⊎ Refers x blocks

-- The entry in one of the rows refers to `x`.
abbrev pub RowRefers : Insert → Option (Option FileInfo) → Type 0
RowRefers x none = ⊥
RowRefers x (some none) = ⊥
RowRefers x (some (some fi)) = Refers x fi.blocks

abbrev pub RowsRefer : (Bytes → Option (Option FileInfo)) → Insert → List Bytes → Type 0
RowsRefer extract x [] = ⊥
RowsRefer extract x (value ∷ rows) = RowRefers x (extract value) ⊎ RowsRefer extract x rows

abbrev pub Has : Insert → List Insert → Type 0
Has x [] = ⊥
Has x (y ∷ l) = (y ≡ x) ⊎ Has x l

Has-left : (x : Insert) (l m : List Insert) → Has x l → Has x (l ++ m)
Has-left x [] m never = absurd never
Has-left x (y ∷ l) m (inl here) = inl here
Has-left x (y ∷ l) m (inr there) = inr (Has-left x l m there)

Has-right : (x : Insert) (l m : List Insert) → Has x m → Has x (l ++ m)
Has-right x [] m h = h
Has-right x (y ∷ l) m h = inr (Has-right x l m h)

-- The inserts have what their scan is to give.
abbrev pub Gathers : (Insert → Type 0) → Option (List Insert) → Type 0
Gathers P none = Unit {0}
Gathers P (some l) = (x : Insert) → P x → Has x l

some-injective : {A : Type 0} {x y : A} → some x ≡ some y → x ≡ y
some-injective e = cc

index_blocks-Gathers :
    (blocks : List BlockInfo) → Gathers (λ x. Refers x blocks) (index_blocks blocks)
unfolding index_blocks
index_blocks-Gathers [] = λ x never. absurd never
index_blocks-Gathers (block ∷ blocks) =
    go block.blockseq refl (index_blocks blocks) (index_blocks-Gathers blocks)
  where
    go :
        (o : Option ℕ)
        → block.blockseq ≡ o
        → (later : Option (List Insert)) → Gathers (λ x. Refers x blocks) later
        → Gathers (λ x. Refers x (block ∷ blocks)) (index_block block o later)
    go none is none g = tt
    go none is (some l) g =
        λ x refers. elim refers [ inl (seq, other, _) ↦ absurd (cc) | inr later ↦ g x later ]
    go (some seq) is later g = elim (Bool-cases (not (length block.hash == hash_len))) [
      | inl bad ↦ rw bad tt
      | inr good ↦ rw good (elim (Bool-cases (ltb seq min_block_seq)) [
        | inl bad ↦ rw bad tt
        | inr fine ↦ rw fine (inserts later g)
      ])
    ]
      where
        inserts :
            (later : Option (List Insert))
            → Gathers (λ x. Refers x blocks) later
            → Gathers (λ x. Refers x (block ∷ blocks)) (before_both block.hash seq later)
        inserts none g = tt
        inserts (some l) g = λ x refers. elim refers [
          | inl (q, other, inl is_hash) ↦ inl (sym is_hash)
          | inl (q, other, inr is_seq) ↦
              inr (inl (ap seq_of (some-injective (sym is ∙ other)) ∙ sym is_seq))
          | inr later ↦ inr (inr (g x later))
        ]

both-Gathers :
    (P Q : Insert → Type 0) (first later : Option (List Insert))
    → Gathers P first
    → Gathers Q later
    → Gathers (λ x. P x ⊎ Q x) (both first later)
both-Gathers P Q none later p q = tt
both-Gathers P Q (some first) none p q = tt
both-Gathers P Q (some first) (some later) p q = λ x either. elim either [
  | inl left ↦ Has-left x first later (p x left)
  | inr right ↦ Has-right x first later (q x right)
]

index_rows-Gathers :
    (extract : Bytes → Option (Option FileInfo)) (rows : List Bytes)
    → Gathers (λ x. RowsRefer extract x rows) (index_rows extract rows)
unfolding index_rows
index_rows-Gathers extract [] = λ x never. absurd never
index_rows-Gathers extract (value ∷ rows) =
    go (extract value) (index_rows extract rows) (index_rows-Gathers extract rows)
  where
    skipped :
        (later : Option (List Insert))
        → Gathers (λ x. RowsRefer extract x rows) later
        → Gathers (λ x. ⊥ ⊎ RowsRefer extract x rows) later
    skipped none g = tt
    skipped (some l) g = λ x refers. elim refers [ inl never ↦ absurd never | inr r ↦ g x r ]

    go :
        (o : Option (Option FileInfo)) (later : Option (List Insert))
        → Gathers (λ x. RowsRefer extract x rows) later
        → Gathers (λ x. RowRefers x o ⊎ RowsRefer extract x rows) (index_row o later)
    go none later g = tt
    go (some none) later g = skipped later g
    go (some (some fi)) later g =
        both-Gathers (λ x. Refers x fi.blocks) (λ x. RowsRefer extract x rows)
          (index_blocks fi.blocks) later (index_blocks-Gathers fi.blocks) g

-- The entry of a row whose key has the prefix refers to `x`.
abbrev pub RefersUnder :
    Bytes → (Bytes → Option (Option FileInfo)) → Insert → List (Bytes × Bytes) → Type 0
RefersUnder prefix extract x [] = ⊥
RefersUnder prefix extract x ((key, value) ∷ rows) =
    ((starts_with prefix key ≡ true) × RowRefers x (extract value))
    ⊎ RefersUnder prefix extract x rows

-- A committed file of the snapshot, or one in transfer whose key has the prefix of the scan for these,
-- refers to a hash or a number.
abbrev pub IsReferenced : Epoch → Snapshot → Insert → Type 0
IsReferenced epoch snapshot x =
    RefersUnder (inbox_key epoch []) snapshot.decode_inbox x snapshot.rows
    ⊎ RefersUnder file_prefix snapshot.decode_file x snapshot.rows

RefersUnder-RowsRefer :
    (prefix : Bytes) (extract : Bytes → Option (Option FileInfo)) (x : Insert)
    (rows : List (Bytes × Bytes))
    → RefersUnder prefix extract x rows
    → RowsRefer extract x (rows_under prefix rows)
RefersUnder-RowsRefer prefix extract x [] never = absurd never
RefersUnder-RowsRefer prefix extract x ((key, value) ∷ rows) (inl (met, refers)) =
    rw met (inl refers)
RefersUnder-RowsRefer prefix extract x ((key, value) ∷ rows) (inr later) =
    elim (Bool-cases (starts_with prefix key)) [
      | inl met ↦ rw met (inr (RefersUnder-RowsRefer prefix extract x rows later))
      | inr other ↦ rw other (RefersUnder-RowsRefer prefix extract x rows later)
    ]

-- A scan that ends without an error inserts all that the files it meets refer to.
pub scan-Gathers :
    (epoch : Epoch) (snapshot : Snapshot)
    → Gathers (IsReferenced epoch snapshot) (scan epoch snapshot)
unfolding scan
scan-Gathers epoch snapshot = narrower inboxes_or_files (scan epoch snapshot) all
  where
    inbox_rows : List Bytes
    inbox_rows = rows_under (inbox_key epoch []) snapshot.rows

    file_rows : List Bytes
    file_rows = rows_under file_prefix snapshot.rows

    all :
        Gathers
          (λ x.
            RowsRefer snapshot.decode_inbox x inbox_rows
            ⊎ RowsRefer snapshot.decode_file x file_rows)
          (both
            (index_rows snapshot.decode_inbox inbox_rows)
            (index_rows snapshot.decode_file file_rows))
    all =
        both-Gathers _ _ (index_rows snapshot.decode_inbox inbox_rows)
          (index_rows snapshot.decode_file file_rows)
          (index_rows-Gathers snapshot.decode_inbox inbox_rows)
          (index_rows-Gathers snapshot.decode_file file_rows)

    inboxes_or_files :
        (x : Insert)
        → IsReferenced epoch snapshot x
        → RowsRefer snapshot.decode_inbox x inbox_rows ⊎ RowsRefer snapshot.decode_file x file_rows
    inboxes_or_files x (inl r) =
        inl (RefersUnder-RowsRefer (inbox_key epoch []) snapshot.decode_inbox x snapshot.rows r)
    inboxes_or_files x (inr r) =
        inr (RefersUnder-RowsRefer file_prefix snapshot.decode_file x snapshot.rows r)

    narrower :
        {P Q : Insert → Type 0}
        → ((x : Insert) → P x → Q x)
        → (o : Option (List Insert)) → Gathers Q o
        → Gathers P o
    narrower imp none g = tt
    narrower imp (some l) g = λ x p. g x (imp x p)
