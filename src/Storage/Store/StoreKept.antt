-- ===== src/Storage/Store/StoreKept.antt =====
-- bepository-storage/src/store.rs: store_block and reuse_block, and the sequence index.
use bepository.Prelude.{
  ℕ, ◌+◌, ◌≡◌, refl, ap, ◌∙◌, ◌⊎◌, inl, inr, Bytes, Bool, true, false, not, ◌||◌, ◌==◌, Option,
  none, some, List, [], ◌∷◌, ◌++◌, Result, ok, err, if◌then◌else◌, ltb, length, bytes_eq,
}
use bepository.Prelude.Int.{pos}
use bepository.Lock.Epoch.{Epoch}
use bepository.Bep.Errors.{StorageError}
use bepository.Storage.Allocator.{
  decode_or_default, SeqRange, Allocated, allocate, refill, refill_from, refill_meta, after_put,
  after_flush,
}
use bepository.Storage.Compaction.State.{is_block_safe}
use bepository.Storage.Keys.{
  ix_key, file_key, block_pointer_key, block_data_seq_key, block_reverse_key,
  parse_block_reverse_key, dirname, block_reverse_prefix, inline_block_threshold,
}
use bepository.Storage.Keys.Split.{IsName}
use bepository.Storage.Proto.{BlockRef, FolderIndexMeta}
use bepository.Storage.Store.{Run, db_scan_prefix}
use bepository.Storage.Store.BlockOps.{
  FoundBlock, with_block_data, with_pointer, with_reverse_ref, find_in_refs, find_block_dir,
  allocate_block, local_pointer, place_block, check_hash, inline_block, separate_block,
  update_entry, record_write, store_separate, store_placed, store_found, store_sized, store_block,
  reuse_found, reused, reuse_block,
}
use bepository.Storage.Store.BlocksKept.{Kept, update_entry-Kept}
use bepository.Storage.Store.Commit.{content_of, IsApart}
use bepository.Storage.Store.Db.{
  Write, put, write_one, applied, Setup, FolderStore, next_act, lift, ◌>>=◌,
}
use bepository.Storage.Store.Index.{Content, IsIndexed, IsIndexed-same}
use bepository.Storage.Store.KeysApart.{
  seq_of, kind_byte, file_key-ix_key, seq_of-ix_key, write_put-apart,
}

-- The kinds of the keys of the index.
abbrev is_index_kind : ℕ → Bool
is_index_kind k = (k == b'n') || (k == b's') || (k == b'x')

other_kind :
    (key k : Bytes)
    → is_index_kind (kind_byte key) ≡ false
    → is_index_kind (kind_byte k) ≡ true
    → k ≡ key
    → ⊥
other_kind key k other index same =
    absurd (cc (ap (λ b. is_index_kind (kind_byte b)) same, other, index))

meta_same : (a b : FolderIndexMeta) → ◌≡◌ {A = Option FolderIndexMeta} (some a) (some b) → a ≡ b
meta_same a b same = cc

module _ (X : Setup) (top : ℕ) where
  -- An operation that keeps the index.
  abbrev Keeps : {A : Type 0} → Run X A → Type 0
  Keeps m = (s : FolderStore X) → IsIndexed X (content_of X s) top → Kept X top (m s)

  next_act-Kept :
      {A B : Type 0} (f : A → Run X B) (p : FolderStore X × Result StorageError A)
      → ((a : A) → Keeps (f a))
      → Kept X top p
      → Kept X top (next_act f p)
  next_act-Kept f (s, ok a) keeps i = keeps a s i
  next_act-Kept f (s, err e) keeps i = i

  >>=-Keeps :
      {A B : Type 0} (m : Run X A) (f : A → Run X B)
      → Keeps m
      → ((a : A) → Keeps (f a))
      → Keeps (m >>= f)
  unfolding ◌>>=◌
  >>=-Keeps m f first next s i = next_act-Kept f (m s) next (first s i)

  IsApart-put :
      (key value : Bytes) (batch : List Write)
      → is_index_kind (kind_byte key) ≡ false
      → IsApart X batch
      → IsApart X (put key value ∷ batch)
  unfolding applied file_key
  IsApart-put key value batch other a = record {
    files = λ c n.
        a.files (write_one (put key value) c) n
        ∙ write_put-apart key value c (file_key n) (other_kind key (file_key n) other refl);
    seqs = λ c n.
        a.seqs (write_one (put key value) c) n
        ∙ write_put-apart key value c (seq_of n) (other_kind key (seq_of n) other refl);
    ix = λ c.
        a.ix (write_one (put key value) c)
        ∙ write_put-apart key value c ix_key (other_kind key ix_key other refl);
  }

  nothing-IsApart : IsApart X []
  unfolding applied
  nothing-IsApart = record { files = λ c n. refl; seqs = λ c n. refl; ix = λ c. refl }

  -- The search for a block only reads.
  with_block_data-Keeps :
      (dir : Bytes) (rest : Run X (FoundBlock X)) (r : BlockRef) (o : Option Bytes)
      → Keeps rest
      → Keeps (with_block_data X dir rest r o)
  with_block_data-Keeps dir rest r none keeps = keeps
  with_block_data-Keeps dir rest r (some bytes) keeps = λ s i. i

  with_pointer-Keeps :
      (dir : Bytes) (rest : Run X (FoundBlock X)) (o : Option Bytes)
      → Keeps rest
      → Keeps (with_pointer X dir rest o)
  with_pointer-Keeps dir rest none keeps = keeps
  with_pointer-Keeps dir rest (some bytes) keeps =
      >>=-Keeps _ _ (λ s i. i)
        λ r.
          >>=-Keeps _ _ (λ s i. i)
            λ valid. >>=-Keeps _ _ (λ s i. i) λ found. with_block_data-Keeps dir rest r found keeps

  with_reverse_ref-Keeps :
      (hash : Bytes) (rest : Run X (FoundBlock X)) (o : Option (Bytes × Bytes))
      → Keeps rest
      → Keeps (with_reverse_ref X hash rest o)
  with_reverse_ref-Keeps hash rest none keeps = keeps
  with_reverse_ref-Keeps hash rest (some (h, name)) keeps =
      >>=-Keeps _ _ (λ s i. i) λ bytes. with_pointer-Keeps (dirname name) rest bytes keeps

  find_in_refs-Keeps :
      (hash : Bytes) (entries : List (Bytes × Bytes)) → Keeps (find_in_refs X hash entries)
  unfolding find_in_refs
  find_in_refs-Keeps hash [] = λ s i. i
  find_in_refs-Keeps hash ((key, value) ∷ entries) =
      with_reverse_ref-Keeps hash (find_in_refs X hash entries) (parse_block_reverse_key key)
        (find_in_refs-Keeps hash entries)

  find_block_dir-Keeps : (hash : Bytes) → Keeps (find_block_dir X hash)
  unfolding find_block_dir
  find_block_dir-Keeps hash s i = go (is_block_safe s.gc hash)
    where
      go :
          (b : Bool)
          → Kept X top (
              if not b
              then (s, ok none)
              else (db_scan_prefix X (block_reverse_prefix hash) >>= find_in_refs X hash) s)
      go false = i
      go true =
          >>=-Keeps (db_scan_prefix X (block_reverse_prefix hash)) (find_in_refs X hash) (λ t j. j)
            (find_in_refs-Keeps hash) s i

  -- New metadata with the same greatest sequence number.
  new_meta-IsIndexed :
      (c c' : Content X) (meta : FolderIndexMeta)
      → ((n : Bytes) → c' (file_key n) ≡ c (file_key n))
      → ((n : ℕ) → c' (seq_of n) ≡ c (seq_of n))
      → c' ix_key ≡ some (X.codec.meta.encode meta)
      → meta.max_sequence ≡ pos top
      → IsIndexed X c top
      → IsIndexed X c' top
  unfolding file_key
  new_meta-IsIndexed c c' meta files seqs ix is_top i =
      let same = IsIndexed-same X c (mixed c c') top files seqs refl i in
      record {
        meta = meta;
        is_meta = rw (ix, X.codec.meta.decode-encode meta) refl;
        is_top = is_top;
        fits = i.fits;
        bounded = same.bounded;
        points = same.points;
        exact = same.exact;
      }
    where
      mixed : Content X → Content X → Content X
      mixed c c' k = if bytes_eq k ix_key then c k else c' k

  module _ where
    abbrev AllocatedKept : Allocated X.db.base X.codec.meta → Type 0
    AllocatedKept a = IsIndexed X (X.db.base.content a.1) top

    after_flush-Kept :
        (range : SeqRange) (base limit : ℕ) (s : X.db.base.State)
        → IsIndexed X (X.db.base.content s) top
        → AllocatedKept (after_flush X.db.base X.codec.meta range base limit (X.db.base.flush s))
    after_flush-Kept range base limit s j =
        flushed (X.db.base.flush s) (λ k. X.db.base.flush-content k s)
      where
        flushed :
            (w : X.db.base.State × Result StorageError (Unit {0}))
            → ((k : Bytes) → X.db.base.content w.0 k ≡ X.db.base.content s k)
            → AllocatedKept (after_flush X.db.base X.codec.meta range base limit w)
        flushed (t, ok _) same =
            IsIndexed-same X (X.db.base.content s) (X.db.base.content t) top
              (λ n. same (file_key n)) (λ n. same (seq_of n)) (same ix_key) j
        flushed (t, err e) same =
            IsIndexed-same X (X.db.base.content s) (X.db.base.content t) top
              (λ n. same (file_key n)) (λ n. same (seq_of n)) (same ix_key) j

    after_put-Kept :
        (range : SeqRange) (base limit : ℕ) (w : X.db.base.State × Result StorageError (Unit {0}))
        → IsIndexed X (X.db.base.content w.0) top
        → AllocatedKept (after_put X.db.base X.codec.meta range base limit w)
    after_put-Kept range base limit (t, ok _) j = after_flush-Kept range base limit t j
    after_put-Kept range base limit (t, err e) j = j

    put_meta-IsIndexed :
        (s : X.db.base.State) (meta : FolderIndexMeta)
        → IsIndexed X (X.db.base.content s) top
        → meta.max_sequence ≡ pos top
        → IsIndexed X (X.db.base.content (X.db.base.put ix_key (X.codec.meta.encode meta) s).0) top
    put_meta-IsIndexed s meta j is_top =
        put_indexed (X.db.base.put-content ix_key (X.codec.meta.encode meta) s)
      where
        c' : Content X
        c' = X.db.base.content (X.db.base.put ix_key (X.codec.meta.encode meta) s).0

        files : (n : Bytes) → c' (file_key n) ≡ X.db.base.content s (file_key n)
        files n =
            X.db.put-other ix_key (X.codec.meta.encode meta) s (file_key n) (file_key-ix_key n)

        seqs : (n : ℕ) → c' (seq_of n) ≡ X.db.base.content s (seq_of n)
        seqs n = X.db.put-other ix_key (X.codec.meta.encode meta) s (seq_of n) (seq_of-ix_key n)

        put_indexed :
            (c' ix_key ≡ some (X.codec.meta.encode meta))
              ⊎ ((c' ix_key ≡ X.db.base.content s ix_key)
                  × (e : StorageError) × ((X.db.base.put ix_key (X.codec.meta.encode meta) s).1
                      ≡ err e))
            → IsIndexed X c' top
        put_indexed (inl done) =
            new_meta-IsIndexed (X.db.base.content s) c' meta files seqs done is_top j
        put_indexed (inr (same, e, failed)) =
            IsIndexed-same X (X.db.base.content s) c' top files seqs same j

    refill_meta-Kept :
        (range : SeqRange) (s : X.db.base.State) (o : Option FolderIndexMeta)
        → o ≡ decode_or_default X.db.base X.codec.meta (X.db.base.content s ix_key)
        → IsIndexed X (X.db.base.content s) top
        → AllocatedKept (refill_meta X.db.base X.codec.meta range s o)
    refill_meta-Kept range s none is j = j
    refill_meta-Kept range s (some meta) is j =
        let same = meta_same meta j.meta (is ∙ j.is_meta) in
        after_put-Kept range _ _ _
          (put_meta-IsIndexed s _ j (ap (λ (m : FolderIndexMeta). m.max_sequence) same ∙ j.is_top))

    refill_from-Kept :
        (range : SeqRange) (s : X.db.base.State) (r : Result StorageError (Option Bytes))
        → X.db.base.get ix_key s ≡ r
        → IsIndexed X (X.db.base.content s) top
        → AllocatedKept (refill_from X.db.base X.codec.meta range s r)
    refill_from-Kept range s (err e) got j = j
    refill_from-Kept range s (ok o) got j =
        refill_meta-Kept range s (decode_or_default X.db.base X.codec.meta o)
          (ap (decode_or_default X.db.base X.codec.meta) (X.db.base.get-content ix_key s o got)) j

  allocate_block-Keeps : Keeps (allocate_block X)
  unfolding allocate refill
  allocate_block-Keeps s i = go (ltb s.blockseq.next s.blockseq.end)
    where
      go :
          (b : Bool)
          → AllocatedKept (
              if b
              then (
                record { next = s.blockseq.next + 1; end = s.blockseq.end },
                s.data_of,
                ok s.blockseq.next,
              )
              else refill X.db.base X.codec.meta s.blockseq s.data_of)
      go true = i
      go false = refill_from-Kept s.blockseq s.data_of (X.db.base.get ix_key s.data_of) refl i

  module _ (epoch : Option Epoch) (name : Bytes) (is_name : IsName name) (hash : Bytes) where
    reverse-IsApart : IsApart X (put (block_reverse_key hash name) [] ∷ [])
    unfolding block_reverse_key
    reverse-IsApart = IsApart-put (block_reverse_key hash name) [] [] refl nothing-IsApart

    local_pointer-IsApart :
        (found : Bytes × BlockRef)
        → IsApart X
            (local_pointer X (dirname name) hash found ++ put (block_reverse_key hash name) [] ∷ [])
    unfolding block_pointer_key
    local_pointer-IsApart (dir, ref) = go (bytes_eq dir (dirname name))
      where
        go :
            (b : Bool)
            → IsApart X (
                (if b
                  then []
                  else put (block_pointer_key (dirname name) hash) (X.codec.encode_ref ref) ∷ [])
                ++ put (block_reverse_key hash name) [] ∷ [])
        go true = reverse-IsApart
        go false = IsApart-put (block_pointer_key (dirname name) hash) _ _ refl reverse-IsApart

    -- What place_block gives keeps the index when it is written.
    Placed : FolderStore X × Result StorageError (ℕ × List Write) → Type 0
    Placed (s, ok (seq, batch)) =
        IsIndexed X (content_of X s) top
        × IsApart X (batch ++ put (block_reverse_key hash name) [] ∷ [])
    Placed (s, err e) = IsIndexed X (content_of X s) top

    place_block-Placed :
        (bytes : Bytes) (found : FoundBlock X) (s : FolderStore X)
        → IsIndexed X (content_of X s) top
        → Placed (place_block X (dirname name) hash bytes found s)
    unfolding Placed block_pointer_key block_data_seq_key ◌>>=◌
    place_block-Placed bytes (some found) s i = (i, local_pointer-IsApart found)
    place_block-Placed bytes none s i = go (allocate_block X s) (allocate_block-Keeps s i)
      where
        go :
            (p : FolderStore X × Result StorageError ℕ)
            → Kept X top p
            → Placed (
                next_act
                  (λ seq. lift (
                    ok (
                      seq,
                      put (block_data_seq_key seq) bytes
                          ∷ put
                              (block_pointer_key (dirname name) hash)
                              (X.codec.encode_ref (record { seqno = seq }))
                          ∷ [],
                    )))
                  p)
        go (t, ok seq) j = (
          j,
          IsApart-put (block_data_seq_key seq) bytes _ refl
              (IsApart-put (block_pointer_key (dirname name) hash) _ _ refl reverse-IsApart),
        )
        go (t, err e) j = j

    store_separate-Keeps : (bytes : Bytes) → Keeps (store_separate X epoch name hash bytes)
    unfolding ◌>>=◌ Placed
    store_separate-Keeps bytes =
        >>=-Keeps (find_block_dir X hash) (store_found X epoch name hash bytes)
          (find_block_dir-Keeps hash)
          λ found s i.
            placed (place_block X (dirname name) hash bytes found s)
              (place_block-Placed bytes found s i)
      where
        placed :
            (p : FolderStore X × Result StorageError (ℕ × List Write))
            → Placed p
            → Kept X top (next_act (store_placed X epoch name hash) p)
        placed (t, ok (seq, batch)) (j, apart) =
            next_act-Kept (λ done. record_write X hash seq)
              (update_entry X epoch name hash (separate_block seq)
                (batch ++ put (block_reverse_key hash name) [] ∷ []) t)
              (λ done u k. k)
              (update_entry-Kept X epoch name is_name
                (batch ++ put (block_reverse_key hash name) [] ∷ []) apart t top j hash
                (separate_block seq))
        placed (t, err e) j = j

    -- Storing a block keeps the index, whatever the database answers.
    store_block-Keeps : (bytes : Bytes) → Keeps (store_block X epoch name hash bytes)
    unfolding store_block
    store_block-Keeps bytes =
        >>=-Keeps (lift (check_hash hash)) (λ valid. store_sized X epoch name hash bytes) (λ s i. i)
          λ valid s i. sized s i (ltb (length bytes) inline_block_threshold)
      where
        sized :
            (s : FolderStore X)
            → IsIndexed X (content_of X s) top
            → (b : Bool)
            → Kept X top (
                (if b
                    then update_entry X epoch name hash (inline_block bytes) []
                    else store_separate X epoch name hash bytes)
                  s)
        sized s i true =
            update_entry-Kept X epoch name is_name [] nothing-IsApart s top i hash
              (inline_block bytes)
        sized s i false = store_separate-Keeps bytes s i

    -- Reusing a block keeps the index, whatever the database answers.
    reuse_block-Keeps : Keeps (reuse_block X epoch name hash)
    unfolding reuse_block
    reuse_block-Keeps =
        >>=-Keeps (lift (check_hash hash))
          (λ valid. find_block_dir X hash >>= reuse_found X epoch name hash) (λ s i. i)
          λ valid.
            >>=-Keeps (find_block_dir X hash) (reuse_found X epoch name hash)
              (find_block_dir-Keeps hash) found
      where
        found : (o : FoundBlock X) → Keeps (reuse_found X epoch name hash o)
        found none = λ s i. i
        found (some (dir, ref)) =
            >>=-Keeps
              (update_entry X epoch name hash (separate_block ref.seqno) (
                local_pointer X (dirname name) hash (dir, ref)
                ++ put (block_reverse_key hash name) [] ∷ []))
              (reused X hash ref.seqno)
              (λ s i.
                update_entry-Kept X epoch name is_name
                  (local_pointer X (dirname name) hash (dir, ref)
                    ++ put (block_reverse_key hash name) [] ∷ [])
                  (local_pointer-IsApart (dir, ref)) s top i hash (separate_block ref.seqno))
              (λ done.
                >>=-Keeps (record_write X hash ref.seqno) (λ recorded. lift (ok true)) (λ s i. i)
                  λ recorded s i. i)

-- Storing a block and reusing one, for a file of a storable name, in transfer or committed: the sequence
-- index is as right afterwards as before, whatever the database answers and whether or not the operation
-- reports an error.
pub block_operations-IsIndexed :
    (X : Setup) (s : FolderStore X) (top : ℕ) (epoch : Option Epoch) (name hash bytes : Bytes)
    → IsName name
    → IsIndexed X (content_of X s) top
    → IsIndexed X (content_of X (store_block X epoch name hash bytes s).0) top
      × IsIndexed X (content_of X (reuse_block X epoch name hash s).0) top
block_operations-IsIndexed X s top epoch name hash bytes is_name i = (
  store_block-Keeps X top epoch name is_name hash bytes s i,
  reuse_block-Keeps X top epoch name is_name hash s i,
)
