-- ===== src/Storage/Store/BlocksKept.antt =====
-- bepository-storage/src/store.rs: the update of an entry, and the sequence index.
use mathlib.Core.Path.{subst}
use bepository.Prelude.{
  ℕ, ◌≡◌, refl, sym, ap, ◌∙◌, ◌⊎◌, inl, inr, Bytes, Bool, true, false, Option, none, some, List, [],
  ◌∷◌, ◌++◌, Result, ok, err, if◌then◌else◌, arith,
}
use bepository.Prelude.Int.{pos}
use bepository.Lock.Epoch.{Epoch}
use bepository.Bep.Errors.{StorageError}
use bepository.Storage.Allocator.{decode_or_default}
use bepository.Storage.Keys.{ix_key, file_key, inbox_key}
use bepository.Storage.Keys.Split.{IsName}
use bepository.Storage.Proto.{BlockInfo, FileInfo, File, Inbox}
use bepository.Storage.Store.{
  Run, or_corrupt, with_data, decoded_file, entry_of_file, write_non_durable,
}
use bepository.Storage.Store.BlockOps.{
  FoundEntry, index_entry, index_found, inbox_found, inbox_entry, find_in_index, find_in_inbox,
  find_file_entry, entry_write, changed_entry, update_entry, any_block, update_blocks,
}
use bepository.Storage.Store.Commit.{content_of, IsApart, next_act-cases}
use bepository.Storage.Store.Db.{
  Write, put, write_one, applied, Setup, FolderStore, next_act, lift, map_ok, ◌>>=◌, ◌>>=?◌,
}
use bepository.Storage.Store.Index.{Content, entry, IsIndexed, IsIndexed-same}
use bepository.Storage.Store.KeysApart.{
  seq_of, kind_byte, bytes_eq-cases, file_key-injective, file_key-ix_key, file_key-seq_of,
  write_put-same, write_put-apart, applied-append,
}

entry_same :
    (a b : FileInfo)
    → ◌≡◌ {A = Result StorageError (Option FileInfo)} (ok (some a)) (ok (some b))
    → a ≡ b
entry_same a b same = cc

module _ (X : Setup) where
  -- The entry of one file is replaced by one with the same number.
  replaced-IsIndexed :
      (c c' : Content X) (top : ℕ) (name : Bytes) (fi fi' : FileInfo)
      → IsName name
      → entry X c name ≡ ok (some fi)
      → entry X c' name ≡ ok (some fi')
      → fi'.sequence ≡ fi.sequence
      → ((n : Bytes) → (file_key n ≡ file_key name → ⊥) → c' (file_key n) ≡ c (file_key n))
      → ((n : ℕ) → c' (seq_of n) ≡ c (seq_of n))
      → c' ix_key ≡ c ix_key
      → IsIndexed X c top
      → IsIndexed X c' top
  replaced-IsIndexed c c' top name fi fi' is_name before after same_number files seqs ix i =
      record {
        meta = i.meta;
        is_meta = ap (decode_or_default X.db.base X.codec.meta) ix ∙ i.is_meta;
        is_top = i.is_top;
        fits = i.fits;
        bounded = λ n g seq u is num.
            let (g0, is0, num0) = earlier n g seq u is num in i.bounded n g0 seq u is0 num0;
        points = λ n g seq u is num positive.
            let (g0, is0, num0) = earlier n g seq u is num in
            seqs seq ∙ i.points n g0 seq u is0 num0 positive;
        exact = λ seq n small positive is.
            let (u, g, stored, num) = i.exact seq n small positive (sym (seqs seq) ∙ is) in
            let (g', stored', num') = later seq n g u stored num in (u, g', stored', num');
      }
    where
      kept : (n : Bytes) → IsName n → (n ≡ name → ⊥) → entry X c' n ≡ entry X c n
      kept n u apart =
          ap (decoded_file X) (files n (λ same. apart (file_key-injective n name u is_name same)))

      earlier :
          (n : Bytes) (g : FileInfo) (seq : ℕ)
          → IsName n
          → entry X c' n ≡ ok (some g)
          → g.sequence ≡ pos seq
          → (g0 : FileInfo) × (entry X c n ≡ ok (some g0)) × (g0.sequence ≡ pos seq)
      earlier n g seq u is num = elim (bytes_eq-cases n name) [
        | inl same ↦ (
          fi,
          ap (entry X c) same ∙ before,
          sym same_number
              ∙ ap (λ (f : FileInfo). f.sequence)
                  (entry_same fi' g (sym after ∙ ap (entry X c') (sym same) ∙ is))
              ∙ num,
        )
        | inr apart ↦ (g, sym (kept n u apart) ∙ is, num)
      ]

      later :
          (seq : ℕ) (n : Bytes) (g : FileInfo)
          → IsName n
          → entry X c n ≡ ok (some g)
          → g.sequence ≡ pos seq
          → (g' : FileInfo) × (entry X c' n ≡ ok (some g')) × (g'.sequence ≡ pos seq)
      later seq n g u is num = elim (bytes_eq-cases n name) [
        | inl same ↦ (
          fi',
          ap (entry X c') same ∙ after,
          same_number
              ∙ ap (λ (f : FileInfo). f.sequence)
                  (entry_same fi g (sym before ∙ ap (entry X c) (sym same) ∙ is))
              ∙ num,
        )
        | inr apart ↦ (g, kept n u apart ∙ is, num)
      ]

  index_entry-eq-ok :
      (key : Bytes) (o : Option Bytes) (found : FoundEntry)
      → index_entry X key o ≡ ok found
      → (fi : FileInfo) × (found ≡ (fi, key, false)) × (decoded_file X o ≡ ok (some fi))
  index_entry-eq-ok key none found is = absurd (cc is)
  index_entry-eq-ok key (some bytes) found is = decoded (X.codec.decode_file bytes) is
    where
      inside :
          (o : Option FileInfo)
          → index_found X key o ≡ ok found
          → (fi : FileInfo) × (found ≡ (fi, key, false))
            × (map_ok some (or_corrupt X o) ≡ ok (some fi))
      inside (some fi) is = (fi, cc, refl)
      inside none is = absurd (cc is)

      decoded :
          (f : Option File)
          → (or_corrupt X f >>=? λ file. index_found X key file.file_info) ≡ ok found
          → (fi : FileInfo) × (found ≡ (fi, key, false))
            × ((or_corrupt X f >>=? entry_of_file X) ≡ ok (some fi))
      decoded (some file) is = inside file.file_info is
      decoded none is = absurd (cc is)

  abbrev FromInbox : Bytes → Option FoundEntry → Type 0
  FromInbox key none = Unit {0}
  FromInbox key (some found) = (fi : FileInfo) × (found ≡ (fi, key, true))

  inbox_entry-eq-ok :
      (key : Bytes) (o : Option Bytes) (found : Option FoundEntry)
      → inbox_entry X key o ≡ ok found
      → FromInbox key found
  inbox_entry-eq-ok key o none is = tt
  inbox_entry-eq-ok key none (some found) is = absurd (cc is)
  inbox_entry-eq-ok key (some bytes) (some found) is = decoded (X.codec.decode_inbox bytes) is
    where
      inside :
          (o : Option FileInfo)
          → inbox_found X key o ≡ ok (some found)
          → (fi : FileInfo) × (found ≡ (fi, key, true))
      inside (some fi) is = (fi, cc)
      inside none is = absurd (cc is)

      decoded :
          (f : Option Inbox)
          → (or_corrupt X f >>=? λ inbox. inbox_found X key inbox.file_info) ≡ ok (some found)
          → (fi : FileInfo) × (found ≡ (fi, key, true))
      decoded (some inbox) is = inside inbox.file_info is
      decoded none is = absurd (cc is)

  -- Where an entry was found: in transfer, or in the index.
  abbrev FoundIn : Content X → Option Epoch → Bytes → FoundEntry → Type 0
  FoundIn c epoch name (fi, key, true) = (e : Epoch) × (key ≡ inbox_key e name)
  FoundIn c epoch name (fi, key, false) = (key ≡ file_key name) × (entry X c name ≡ ok (some fi))

  abbrev pub Kept : {A : Type 0} → ℕ → FolderStore X × Result StorageError A → Type 0
  Kept top p = IsIndexed X (content_of X p.0) top

  module _ (epoch : Option Epoch) (name : Bytes) (is_name : IsName name) (batch : List Write)
      (apart : IsApart X batch) (store : FolderStore X) (top : ℕ)
      (i : IsIndexed X (content_of X store) top) where
    -- One entry is written after the batch.
    after_batch : Bytes → Bytes → Content X
    after_batch key value = write_one (put key value) (applied batch (content_of X store))

    written-Kept :
        (key value : Bytes)
        → IsIndexed X (after_batch key value) top
        → Kept top (write_non_durable X (batch ++ put key value ∷ []) store)
    unfolding applied after_batch
    written-Kept key value indexed =
        after (X.db.write writes store.data_of) (X.db.write-content writes store.data_of)
      where
        writes : List Write
        writes = batch ++ put key value ∷ []

        after :
            (w : X.db.base.State × Result StorageError (Unit {0}))
            → ((k : Bytes) → X.db.base.content w.0 k ≡ applied writes (content_of X store) k)
              ⊎ (((k : Bytes) → X.db.base.content w.0 k ≡ content_of X store k)
                  × (e : StorageError) × (w.1 ≡ err e))
            → Kept top (with_data X store w)
        after (s, r) (inl done) =
            let whole = λ (k : Bytes).
              done k ∙ applied-append batch (put key value ∷ []) (content_of X store) k in
            IsIndexed-same X (after_batch key value) (X.db.base.content s) top
              (λ n. whole (file_key n)) (λ n. whole (seq_of n)) (whole ix_key) indexed
        after (s, r) (inr (same, e, failed)) =
            IsIndexed-same X (content_of X store) (X.db.base.content s) top (λ n. same (file_key n))
              (λ n. same (seq_of n)) (same ix_key) i

    in_transfer-IsIndexed :
        (e : Epoch) (value : Bytes) → IsIndexed X (after_batch (inbox_key e name) value) top
    unfolding after_batch inbox_key file_key
    in_transfer-IsIndexed e value =
        IsIndexed-same X (content_of X store) (after_batch key value) top
          (λ n.
            write_put-apart key value c (file_key n)
              (λ same. absurd (omega (arith, ap kind_byte same)))
            ∙ apart.files (content_of X store) n)
          (λ n.
            write_put-apart key value c (seq_of n)
              (λ same. absurd (omega (arith, ap kind_byte same)))
            ∙ apart.seqs (content_of X store) n)
          (write_put-apart key value c ix_key (λ same. absurd (omega (arith, ap kind_byte same)))
            ∙ apart.ix (content_of X store))
          i
      where
        key : Bytes
        key = inbox_key e name

        c : Content X
        c = applied batch (content_of X store)

    in_index-IsIndexed :
        (fi fi' : FileInfo)
        → entry X (content_of X store) name ≡ ok (some fi)
        → fi'.sequence ≡ fi.sequence
        → IsIndexed X
            (after_batch (file_key name) (X.codec.encode_file (record { file_info = some fi' })))
            top
    unfolding after_batch
    in_index-IsIndexed fi fi' before same_number =
        replaced-IsIndexed (content_of X store) (after_batch (file_key name) value) top name fi fi'
          is_name before
          (rw
            (
              write_put-same (file_key name) value c,
              X.codec.decode-encode_file (record { file_info = some fi' }),
            )
            refl)
          same_number
          (λ n other.
            write_put-apart (file_key name) value c (file_key n) other
            ∙ apart.files (content_of X store) n)
          (λ n.
            write_put-apart (file_key name) value c (seq_of n)
              (λ same. file_key-seq_of name n (sym same))
            ∙ apart.seqs (content_of X store) n)
          (write_put-apart (file_key name) value c ix_key (λ same. file_key-ix_key name (sym same))
            ∙ apart.ix (content_of X store))
          i
      where
        value : Bytes
        value = X.codec.encode_file (record { file_info = some fi' })

        c : Content X
        c = applied batch (content_of X store)

    module _ (hash : Bytes) (change : BlockInfo → BlockInfo) where
      changed_write-Kept :
          (fi : FileInfo) (key : Bytes) (is_inbox : Bool)
          → FoundIn (content_of X store) epoch name (fi, key, is_inbox)
          → (b : Bool)
          → Kept top (
              next_act
                (λ changed. write_non_durable X (batch ++ entry_write X changed ∷ []))
                (
                  store,
                  if b
                      then ok (
                        record fi { blocks = update_blocks hash change fi.blocks },
                        key,
                        is_inbox,
                      )
                      else err StorageError.not_found,
                ))
      changed_write-Kept fi key is_inbox is false = i
      changed_write-Kept fi key true is true =
          subst (λ k. Kept top (write_non_durable X (batch ++ put k (value fi) ∷ []) store))
            (sym is.1)
            (written-Kept (inbox_key is.0 name) (value fi) (in_transfer-IsIndexed is.0 (value fi)))
        where
          value : FileInfo → Bytes
          value f = X.codec.encode_inbox (record {
            file_info = some (record f { blocks = update_blocks hash change f.blocks });
          })
      changed_write-Kept fi key false is true =
          subst (λ k. Kept top (write_non_durable X (batch ++ put k value ∷ []) store)) (sym is.0)
            (written-Kept (file_key name) value (in_index-IsIndexed fi fi' is.1 refl))
        where
          fi' : FileInfo
          fi' = record fi { blocks = update_blocks hash change fi.blocks }

          value : Bytes
          value = X.codec.encode_file (record { file_info = some fi' })

      found-Kept :
          (found : FoundEntry)
          → FoundIn (content_of X store) epoch name found
          → Kept top (
              (lift (changed_entry X hash change found) >>= λ changed.
              write_non_durable X (batch ++ entry_write X changed ∷ []))
                store)
      unfolding ◌>>=◌
      found-Kept (fi, key, is_inbox) is =
          changed_write-Kept fi key is_inbox is (any_block hash fi.blocks)

      -- What is done once the entry is found.
      abbrev Rest : FoundEntry → Run X (Unit {0})
      Rest found = lift (changed_entry X hash change found) >>= λ changed.
          write_non_durable X (batch ++ entry_write X changed ∷ [])

      pub update_entry-Kept : Kept top (update_entry X epoch name hash change batch store)
      unfolding update_entry ◌>>=◌ find_file_entry
      update_entry-Kept = in_inbox epoch refl
        where
          AfterFind : FolderStore X × Result StorageError FoundEntry → Type 0
          AfterFind p = Kept top (next_act Rest p)

          AfterInbox : FolderStore X × Result StorageError (Option FoundEntry) → Type 0
          AfterInbox p = AfterFind (next_act (find_in_index X name) p)

          in_index : AfterFind (find_in_index X name none store)
          in_index =
              next_act-cases AfterFind (λ bytes. lift (index_entry X (file_key name) bytes)) store
                (X.db.base.get (file_key name) store.data_of)
                (λ bytes got.
                  next_act-cases (Kept top) Rest store (index_entry X (file_key name) bytes)
                    (λ found is.
                      let (fi, same, stored) = index_entry-eq-ok (file_key name) bytes found is in
                      let at_key = X.db.base.get-content (file_key name) store.data_of bytes got in
                      found-Kept found (
                        subst (λ f. FoundIn (content_of X store) epoch name f) (sym same)
                          (refl, ap (decoded_file X) (sym at_key) ∙ stored)))
                    (λ e. i))
                (λ e. i)

          in_inbox : (o : Option Epoch) → epoch ≡ o → AfterInbox (find_in_inbox X o name store)
          in_inbox none is = in_index
          in_inbox (some e) is =
              next_act-cases AfterInbox (λ bytes. lift (inbox_entry X (inbox_key e name) bytes))
                store (X.db.base.get (inbox_key e name) store.data_of)
                (λ bytes got.
                  next_act-cases AfterFind (find_in_index X name) store
                    (inbox_entry X (inbox_key e name) bytes)
                    (λ found is'.
                      looked found (inbox_entry-eq-ok (inbox_key e name) bytes found is'))
                    (λ e'. i))
                (λ e'. i)
            where
              looked :
                  (found : Option FoundEntry)
                  → FromInbox (inbox_key e name) found
                  → AfterFind (find_in_index X name found store)
              looked none from = in_index
              looked (some found) (fi, same) =
                  found-Kept found
                    (subst (λ f. FoundIn (content_of X store) epoch name f) (sym same) (e, refl))
