-- ===== src/Storage/Store/Commit.antt =====
-- bepository-storage/src/store.rs, commit_with_new_seq: what it makes of the sequence index.
use mathlib.Core.Path.{subst}
use bepository.Prelude.{
  ℕ, suc, ◌<◌, ◌≡◌, refl, sym, ap, ◌∙◌, ◌⊎◌, inl, inr, Bytes, Option, none, some, List, ◌++◌,
  Result, ok, err, i64_max, arith,
}
use bepository.Prelude.Int.{ℤ, pos, ◌+ℤ◌}
use bepository.Bep.Errors.{StorageError}
use bepository.Bep.Proto as Bep
use bepository.Storage.Allocator.{decode_or_default}
use bepository.Storage.Keys.{ix_key, file_key, seq_key}
use bepository.Storage.Keys.Split.{IsName}
use bepository.Storage.Keys.Sequences.{key_of_seq}
use bepository.Storage.Proto.{FileInfo, FolderIndexMeta}
use bepository.Storage.Proto.Convert.{file_to_bep}
use bepository.Storage.Store.{
  next_sequence, carried, drop_old_seq, or_corrupt, decoded_file, commit_writes, with_next,
  with_data, get_file_proto, get_index_meta, commit_with_new_seq, write_commit, commit_next,
  commit_dropping, commit_over,
}
use bepository.Storage.Store.Db.{
  Write, applied, Setup, FolderStore, Act, next_act, lift, map_ok, ◌>>=◌, ◌>>=?◌,
}
use bepository.Storage.Store.Index.{
  Content, entry, meta_of, IsIndexed, IsIndexed-same, with_seq, with_seq-IsIndexed,
}
use bepository.Storage.Store.KeysApart.{seq_of, applied-append}

-- One step of an operation, by whether it fails.
pub next_act-cases :
    {S A B : Type 0} (P : S × Result StorageError B → Type 0) (f : A → Act S B) (s : S)
    (r : Result StorageError A)
    → ((a : A) → r ≡ ok a → P (f a s))
    → ((e : StorageError) → P (s, err e))
    → P (next_act f (s, r))
next_act-cases P f s (ok a) good bad = good a refl
next_act-cases P f s (err e) good bad = bad e

meta_same : (a b : FolderIndexMeta) → ◌≡◌ {A = Option FolderIndexMeta} (some a) (some b) → a ≡ b
meta_same a b same = cc

module _ (X : Setup) where
  abbrev pub content_of : FolderStore X → Content X
  content_of store = X.db.base.content store.data_of

  -- The greatest number of the index afterwards: one more, which is that of the commit, or what it
  -- was; a commit that reports an error may have been written.
  abbrev pub Commits : ℕ → FolderStore X × Result StorageError (ℤ × Bep.FileInfo) → Type 0
  Commits top (store, ok (seq, file)) =
      (seq ≡ pos (suc top)) × IsIndexed X (content_of store) (suc top)
  Commits top (store, err e) =
      IsIndexed X (content_of store) top ⊎ IsIndexed X (content_of store) (suc top)

  -- The writes of the caller do not touch the index.
  pub record IsApart (batch : List Write) : Type 0 where
    pub files : (c : Content X) (n : Bytes) → applied batch c (file_key n) ≡ c (file_key n)
    pub seqs : (c : Content X) (n : ℕ) → applied batch c (seq_of n) ≡ c (seq_of n)
    pub ix : (c : Content X) → applied batch c ix_key ≡ c ix_key

  converted-Commits :
      (top : ℕ) (store : FolderStore X) (seq : ℤ) (r : Result StorageError Bep.FileInfo)
      → seq ≡ pos (suc top)
      → IsIndexed X (content_of store) (suc top)
      → Commits top (store, map_ok (λ bep. (seq, bep)) r)
  converted-Commits top store seq (ok bep) same i = (same, i)
  converted-Commits top store seq (err e) same i = inr i

  -- A read leaves the state, and gives what is stored.
  pub next_act-lift :
      {A B : Type 0} (g : A → Result StorageError B) (store : FolderStore X)
      (r : Result StorageError A)
      → next_act (λ a. lift (g a)) (store, r) ≡ (store, r >>=? g)
  next_act-lift g store (ok a) = refl
  next_act-lift g store (err e) = refl

  read-eq-ok :
      {A : Type 0} (k : Bytes) (s : X.db.base.State) (g : Option Bytes → Result StorageError A)
      (r : Result StorageError (Option Bytes))
      → X.db.base.get k s ≡ r
      → (a : A) → (r >>=? g) ≡ ok a
      → g (X.db.base.content s k) ≡ ok a
  read-eq-ok k s g (ok o) got a is = ap g (sym (X.db.base.get-content k s o got)) ∙ is
  read-eq-ok k s g (err e) got a is = cc

  or_corrupt-eq-ok : {A : Type 0} (o : Option A) (a : A) → or_corrupt X o ≡ ok a → o ≡ some a
  or_corrupt-eq-ok (some b) a is = cc
  or_corrupt-eq-ok none a is = cc

  pub get_file_proto-reads :
      (name : Bytes) (store : FolderStore X)
      → (r : Result StorageError (Option FileInfo)) × (get_file_proto X name store ≡ (store, r))
        × ((old : Option FileInfo) → r ≡ ok old → entry X (content_of store) name ≡ ok old)
  unfolding get_file_proto ◌>>=◌
  get_file_proto-reads name store = (
    X.db.base.get (file_key name) store.data_of >>=? decoded_file X,
    next_act-lift (decoded_file X) store (X.db.base.get (file_key name) store.data_of),
    read-eq-ok (file_key name) store.data_of (decoded_file X) _ refl,
  )

  get_index_meta-reads :
      (store : FolderStore X)
      → (r : Result StorageError FolderIndexMeta) × (get_index_meta X store ≡ (store, r))
        × ((meta : FolderIndexMeta) → r ≡ ok meta → meta_of X (content_of store) ≡ some meta)
  unfolding get_index_meta ◌>>=◌
  get_index_meta-reads store = (
    X.db.base.get ix_key store.data_of >>=? decoded,
    next_act-lift decoded store (X.db.base.get ix_key store.data_of),
    λ meta is. or_corrupt-eq-ok _ meta (read-eq-ok ix_key store.data_of decoded _ refl meta is),
  )
    where
      decoded : Option Bytes → Result StorageError FolderIndexMeta
      decoded bytes = or_corrupt X (decode_or_default X.db.base X.codec.meta bytes)

  module _ (name : Bytes) (is_name : IsName name) (batch : List Write) (apart : IsApart batch)
      (store : FolderStore X) (top : ℕ) (i : IsIndexed X (content_of store) top)
      (room : top < i64_max) (old : Option FileInfo)
      (is_old : entry X (content_of store) name ≡ ok old) (dropped : List Write)
      (is_dropped : drop_old_seq old ≡ ok dropped) (stored : FileInfo) where
    write_commit-Commits :
        (meta : FolderIndexMeta)
        → meta.max_sequence ≡ pos (suc top)
        → Commits top (
            write_commit X name
              (record stored { sequence = meta.max_sequence })
              batch
              dropped
              meta
              (seq_of (suc top))
              store)
    unfolding ◌>>=◌ applied
    write_commit-Commits meta is_meta =
        after (X.db.write writes store.data_of) (X.db.write-content writes store.data_of)
      where
        committed : FileInfo
        committed = record stored { sequence = meta.max_sequence }

        writes : List Write
        writes = batch ++ dropped ++ commit_writes X name meta committed (seq_of (suc top))

        before_write : Content X
        before_write = content_of store

        indexed :
            (c : Content X)
            → ((k : Bytes) → c k ≡ applied writes before_write k)
            → IsIndexed X c (suc top)
        indexed c same =
            IsIndexed-same X indexed_content c (suc top) (λ n. whole (file_key n))
              (λ n. whole (seq_of n)) (whole ix_key)
              (with_seq-IsIndexed X before_write (applied batch before_write) top i name is_name old
                is_old dropped is_dropped (apart.files before_write) (apart.seqs before_write) meta
                is_meta (omega arith) committed is_meta)
          where
            indexed_content : Content X
            indexed_content =
                with_seq X before_write (applied batch before_write) top i name is_name old is_old
                  dropped is_dropped (apart.files before_write) (apart.seqs before_write) meta
                  is_meta (omega arith) committed is_meta

            whole : (k : Bytes) → c k ≡ indexed_content k
            whole k =
                same k
                ∙ applied-append (batch ++ dropped)
                    (commit_writes X name meta committed (seq_of (suc top))) before_write k
                ∙ rw (applied-append batch dropped before_write k) refl

        after :
            (w : X.db.base.State × Result StorageError (Unit {0}))
            → ((k : Bytes) → X.db.base.content w.0 k ≡ applied writes before_write k)
              ⊎ (((k : Bytes) → X.db.base.content w.0 k ≡ before_write k)
                  × (e : StorageError) × (w.1 ≡ err e))
            → Commits top (
                next_act
                  (λ _. lift (map_ok (λ bep. (meta.max_sequence, bep)) (file_to_bep committed)))
                  (with_data X store w))
        after (s, ok _) (inl done) =
            converted-Commits top (record store { data_of = s }) meta.max_sequence
              (file_to_bep committed) is_meta (indexed (X.db.base.content s) done)
        after (s, ok _) (inr (same, e, failed)) = absurd (cc failed)
        after (s, err e) (inl done) = inr (indexed (X.db.base.content s) done)
        after (s, err e) (inr (same, e', failed)) = inl (
            IsIndexed-same X before_write (X.db.base.content s) top (λ n. same (file_key n))
              (λ n. same (seq_of n)) (same ix_key) i)

  next_of_top : (top : ℕ) → top < i64_max → next_sequence (pos top) ≡ pos (suc top)
  unfolding ◌+ℤ◌
  next_of_top top room = ground arith

  -- The name is one a folder can store, the caller's writes do not touch the index, and the index has
  -- room for one more number.
  pub commit_with_new_seq-Commits :
      (name : Bytes) (stored : FileInfo) (batch : List Write) (store : FolderStore X) (top : ℕ)
      → IsName name
      → IsApart batch
      → IsIndexed X (content_of store) top
      → top < i64_max
      → Commits top (commit_with_new_seq X name stored batch store)
  unfolding commit_with_new_seq ◌>>=◌
  commit_with_new_seq-Commits name stored batch store top is_name apart i room =
      let (r, reads, is) = get_file_proto-reads name store in
      subst (λ p. Commits top (next_act (commit_over X name stored batch) p)) (sym reads)
        (next_act-cases (Commits top) (commit_over X name stored batch) store r
          (λ old found. over old (is old found)) (λ e. inl i))
    where
      at :
          (old : Option FileInfo)
          → entry X (content_of store) name ≡ ok old
          → (dropped : List Write) → drop_old_seq old ≡ ok dropped
          → (meta : FolderIndexMeta) → meta_of X (content_of store) ≡ some meta
          → Commits top (commit_next X name (carried stored old) batch dropped meta store)
      at old is_old dropped is_dropped meta is_meta =
          let same : meta ≡ i.meta = meta_same meta i.meta (sym is_meta ∙ i.is_meta) in
          let is_next : (with_next X meta).max_sequence ≡ pos (suc top) =
            ap (λ (m : FolderIndexMeta). next_sequence m.max_sequence) same
            ∙ ap next_sequence i.is_top
            ∙ next_of_top top room in
          next_act-cases (Commits top)
            (write_commit X name
              (record (carried stored old) { sequence = (with_next X meta).max_sequence }) batch
              dropped (with_next X meta))
            store (seq_key (with_next X meta).max_sequence)
            (λ key made.
              subst
                (λ k. Commits top (
                  write_commit X name
                    (record (carried stored old) { sequence = (with_next X meta).max_sequence })
                    batch dropped (with_next X meta) k store))
                (sym (key_of_seq (suc top) key (ap seq_key (sym is_next) ∙ made)))
                (write_commit-Commits name is_name batch apart store top i room old is_old dropped
                  is_dropped (carried stored old) (with_next X meta) is_next))
            (λ e. inl i)

      over :
          (old : Option FileInfo)
          → entry X (content_of store) name ≡ ok old
          → Commits top (commit_over X name stored batch old store)
      over old is_old =
          next_act-cases (Commits top) (commit_dropping X name (carried stored old) batch) store
            (drop_old_seq old)
            (λ dropped is_dropped.
              let (r, reads, is) = get_index_meta-reads store in
              subst
                (λ p.
                  Commits top (next_act (commit_next X name (carried stored old) batch dropped) p))
                (sym reads)
                (next_act-cases (Commits top)
                  (commit_next X name (carried stored old) batch dropped) store r
                  (λ meta found. at old is_old dropped is_dropped meta (is meta found))
                  (λ e. inl i)))
            (λ e. inl i)
