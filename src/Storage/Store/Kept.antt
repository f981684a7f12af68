-- ===== src/Storage/Store/Kept.antt =====
-- bepository-storage/src/store.rs: put_file, stage_file and complete_file, and the sequence index.
use mathlib.Core.Path.{subst}
use bepository.Prelude.{
  ℕ, suc, ◌<◌, ◌≡◌, refl, sym, ap, ◌∙◌, ◌⊎◌, inl, Bytes, Bool, true, false, not, Option, none, some,
  [], ◌∷◌, Result, ok, err, i64_max, if◌then◌else◌, arith,
}
use bepository.Prelude.Int.{ℤ, pos}
use bepository.Lock.Epoch.{Epoch}
use bepository.Bep.Errors.{StorageError}
use bepository.Bep.Proto as Bep
use bepository.Storage.Blocks.{is_complete}
use bepository.Storage.Keys.{ix_key, file_key, inbox_key}
use bepository.Storage.Keys.Split.{IsName}
use bepository.Storage.Proto.{FileInfo}
use bepository.Storage.Proto.Convert.{file_to_storage}
use bepository.Storage.Store.{
  carried, Run, with_data, decoded_file, put_file, commit_with_new_seq, get_file_proto,
}
use bepository.Storage.Store.Commit.{
  content_of, Commits, IsApart, commit_with_new_seq-Commits, next_act-cases, get_file_proto-reads,
}
use bepository.Storage.Store.Db.{delete, applied, Setup, FolderStore, next_act, lift, ◌>>=◌}
use bepository.Storage.Store.Index.{Content, IsIndexed, IsIndexed-same}
use bepository.Storage.Store.Intake.{
  stage_file, complete_file, complete_staged, commit_staged, decoded_inbox, same_version,
  bep_version,
}
use bepository.Storage.Store.KeysApart.{seq_of, kind_byte, write_delete-apart}

module _ (X : Setup) where
  nothing-IsApart : IsApart X []
  unfolding applied
  nothing-IsApart = record { files = λ c n. refl; seqs = λ c n. refl; ix = λ c. refl }

  inbox-IsApart : (epoch : Epoch) (name : Bytes) → IsApart X (delete (inbox_key epoch name) ∷ [])
  unfolding applied inbox_key file_key
  inbox-IsApart epoch name = record {
    files = λ c n.
        write_delete-apart key c (file_key n) (λ same. absurd (omega (arith, ap kind_byte same)));
    seqs = λ c n.
        write_delete-apart key c (seq_of n) (λ same. absurd (omega (arith, ap kind_byte same)));
    ix = λ c. write_delete-apart key c ix_key (λ same. absurd (omega (arith, ap kind_byte same)));
  }
    where
      key : Bytes
      key = inbox_key epoch name

  -- A file in transfer is no part of the index.
  pub stage_file-IsIndexed :
      (epoch : Epoch) (file : Bep.FileInfo) (store : FolderStore X) (top : ℕ)
      → IsIndexed X (content_of X store) top
      → IsIndexed X (content_of X (stage_file X epoch file store).0) top
  unfolding stage_file inbox_key file_key
  stage_file-IsIndexed epoch file store top i =
      staged (X.db.base.put key value store.data_of) (X.db.put-other key value store.data_of)
    where
      key : Bytes
      key = inbox_key epoch file.name

      value : Bytes
      value = X.codec.encode_inbox (record { file_info = some (file_to_storage file) })

      staged :
          (w : X.db.base.State × Result StorageError (Unit {0}))
          → ((j : Bytes) → (j ≡ key → ⊥) → X.db.base.content w.0 j ≡ content_of X store j)
          → IsIndexed X (content_of X (with_data X store w).0) top
      staged (s, r) other =
          IsIndexed-same X (content_of X store) (X.db.base.content s) top
            (λ n. other (file_key n) (λ same. absurd (omega (arith, ap kind_byte same))))
            (λ n. other (seq_of n) (λ same. absurd (omega (arith, ap kind_byte same))))
            (other ix_key (λ same. absurd (omega (arith, ap kind_byte same)))) i

  -- What a put gives: the number of the commit, which the index then ends with; or an error, with the
  -- index as it was or with the commit.
  abbrev pub Puts : ℕ → FolderStore X × Result StorageError ℤ → Type 0
  Puts top (store, ok seq) = (seq ≡ pos (suc top)) × IsIndexed X (content_of X store) (suc top)
  Puts top (store, err e) =
      IsIndexed X (content_of X store) top ⊎ IsIndexed X (content_of X store) (suc top)

  -- Where the index is right and has room, a file that is put under a storable name gets the next number,
  -- and the index is then right with that number as its last; a put that reports an error leaves the
  -- index right as well.
  pub put_file-Puts :
      (file : Bep.FileInfo) (store : FolderStore X) (top : ℕ)
      → IsName file.name
      → IsIndexed X (content_of X store) top
      → top < i64_max
      → Puts top (put_file X file store)
  unfolding put_file ◌>>=◌
  put_file-Puts file store top is_name i room =
      put_of (commit_with_new_seq X file.name (file_to_storage file) [] store) (
        commit_with_new_seq-Commits X file.name (file_to_storage file) [] store top is_name
          nothing-IsApart i room)
    where
      put_of :
          (p : FolderStore X × Result StorageError (ℤ × Bep.FileInfo))
          → Commits X top p
          → Puts top (next_act (λ (seq, committed). lift (ok seq)) p)
      put_of (s, ok (seq, file)) commits = commits
      put_of (s, err e) commits = commits

  -- Why a staged file may be committed: it is what is stored in transfer, it has the expected version,
  -- and with the data of the committed file all its blocks have data.
  pub record IsReady (c : Content X) (epoch : Epoch) (name : Bytes) (expected : Option Bep.Vector)
      : Type 0 where
    pub staged : FileInfo
    pub in_transfer : decoded_inbox X (c (inbox_key epoch name)) ≡ ok (some staged)
    pub version : same_version (bep_version staged.version) expected ≡ true
    pub old : Option FileInfo
    pub committed : decoded_file X (c (file_key name)) ≡ ok old
    pub complete : is_complete (carried staged old).blocks ≡ true

  abbrev pub Completes :
      (c : Content X) (epoch : Epoch) (name : Bytes) (expected : Option Bep.Vector)
      → ℕ
      → FolderStore X × Result StorageError (Option Bep.FileInfo)
      → Type 0
  Completes c epoch name expected top (store, ok none) = IsIndexed X (content_of X store) top
  Completes c epoch name expected top (store, ok (some file)) =
      IsReady c epoch name expected × IsIndexed X (content_of X store) (suc top)
  Completes c epoch name expected top (store, err e) =
      IsIndexed X (content_of X store) top ⊎ IsIndexed X (content_of X store) (suc top)

  module _ (epoch : Epoch) (name : Bytes) (expected : Option Bep.Vector) (store : FolderStore X)
      (top : ℕ) (is_name : IsName name) (i : IsIndexed X (content_of X store) top)
      (room : top < i64_max) where
    abbrev Here : FolderStore X × Result StorageError (Option Bep.FileInfo) → Type 0
    Here = Completes (content_of X store) epoch name expected top

    committed-Completes :
        IsReady (content_of X store) epoch name expected
        → (p : FolderStore X × Result StorageError (ℤ × Bep.FileInfo)) → Commits X top p
        → Here (next_act (λ (seq, committed). lift (ok (some committed))) p)
    committed-Completes ready (s, ok (seq, file)) (_, indexed) = (ready, indexed)
    committed-Completes ready (s, err e) commits = commits

    commit_staged-Completes :
        (staged : FileInfo) (old : Option FileInfo)
        → decoded_inbox X (content_of X store (inbox_key epoch name)) ≡ ok (some staged)
        → same_version (bep_version staged.version) expected ≡ true
        → decoded_file X (content_of X store (file_key name)) ≡ ok old
        → Here (commit_staged X epoch name staged old store)
    unfolding ◌>>=◌
    commit_staged-Completes staged old stored version committed =
        go (is_complete (carried staged old).blocks) refl
      where
        go :
            (b : Bool)
            → is_complete (carried staged old).blocks ≡ b
            → Here (
                (if not b
                    then lift (err StorageError.internal)
                    else (commit_with_new_seq X name staged (delete (inbox_key epoch name) ∷ [])
                        >>= (λ (seq, committed). lift (ok (some committed)))))
                  store)
        go false complete = inl i
        go true complete =
            committed-Completes
              (record {
                staged = staged;
                in_transfer = stored;
                version = version;
                old = old;
                committed = committed;
                complete = complete;
              })
              (commit_with_new_seq X name staged (delete (inbox_key epoch name) ∷ []) store)
              (commit_with_new_seq-Commits X name staged (delete (inbox_key epoch name) ∷ []) store
                top is_name (inbox-IsApart epoch name) i room)

    complete_staged-Completes :
        (staged : Option FileInfo)
        → decoded_inbox X (content_of X store (inbox_key epoch name)) ≡ ok staged
        → Here (complete_staged X epoch name expected staged store)
    unfolding ◌>>=◌
    complete_staged-Completes none stored = i
    complete_staged-Completes (some staged) stored =
        go (same_version (bep_version staged.version) expected) refl
      where
        go :
            (b : Bool)
            → same_version (bep_version staged.version) expected ≡ b
            → Here (
                (if not b
                    then lift (ok none)
                    else (get_file_proto X name >>= commit_staged X epoch name staged))
                  store)
        go false version = i
        go true version =
            let (r, reads, is) = get_file_proto-reads X name store in
            subst (λ p. Here (next_act (commit_staged X epoch name staged) p)) (sym reads)
              (next_act-cases Here (commit_staged X epoch name staged) store r
                (λ old found. commit_staged-Completes staged old stored version (is old found))
                (λ e. inl i))

    -- Where the index is right and has room, it is right after an attempt to complete a file of a
    -- storable name, whatever the database answers, and a file is committed only if it is ready for that.
    pub complete_file-Completes : Here (complete_file X epoch name expected store)
    unfolding complete_file ◌>>=◌
    complete_file-Completes =
        next_act-cases Here after_get store (X.db.base.get (inbox_key epoch name) store.data_of)
          (λ bytes got.
            next_act-cases Here (complete_staged X epoch name expected) store
              (decoded_inbox X bytes)
              (λ staged decoded. complete_staged-Completes staged (
                ap (decoded_inbox X)
                  (sym (X.db.base.get-content (inbox_key epoch name) store.data_of bytes got))
                ∙ decoded))
              (λ e. inl i))
          (λ e. inl i)
      where
        after_get : Option Bytes → Run X (Option Bep.FileInfo)
        after_get bytes = lift (decoded_inbox X bytes) >>= complete_staged X epoch name expected
