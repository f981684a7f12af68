-- ===== src/Storage/Store/Index.antt =====
-- bepository-storage/src/store.rs: the sequence index, and the writes of a commit to it.
use mathlib.Core.Path.{subst}
use bepository.Prelude.{
  ℕ, suc, ◌≤◌, ◌<◌, ◌≡◌, refl, sym, ap, ◌∙◌, ◌⊎◌, inl, inr, Bytes, Bool, true, false, Option, none,
  some, List, [], ◌∷◌, Result, ok, bytes_eq, bytes_eq_iff, bytes_eq_refl, i64_max, ◌==◌,
  if◌then◌else◌, arith,
}
use bepository.Prelude.Int.{ℤ, pos, negsuc, ltb_ℤ, eq_ℤ, eq_ℤ_iff}
use bepository.Bep.Errors.{StorageError}
use bepository.Storage.Allocator.{decode_or_default}
use bepository.Storage.Keys.{ix_key, file_key, seq_key}
use bepository.Storage.Keys.Split.{IsName}
use bepository.Storage.Proto.{FileInfo, FolderIndexMeta}
use bepository.Storage.Store.{drop_seq, drop_old_seq, decoded_file}
use bepository.Storage.Store.Db.{Write, put, delete, write_one, applied, Setup}
use bepository.Storage.Store.KeysApart.{
  seq_of, file_key-ix_key, file_key-seq_of, seq_of-ix_key, file_key-injective, seq_of-injective,
  write_put-same, write_put-apart, write_delete-apart,
}

writes_of : (a b : List Write) → ◌≡◌ {A = Result StorageError (List Write)} (ok a) (ok b) → a ≡ b
writes_of a b same = cc

option_of :
    (a b : Option FileInfo) → ◌≡◌ {A = Result StorageError (Option FileInfo)} (ok a) (ok b) → a ≡ b
option_of a b same = cc

name_of : (a b : Bytes) → ◌≡◌ {A = Option Bytes} (some a) (some b) → a ≡ b
name_of a b same = cc

absent_name : (m : Bytes) → ◌≡◌ {A = Option Bytes} none (some m) → ⊥
absent_name m same = absurd (cc same)

entry_of :
    (a b : FileInfo)
    → ◌≡◌ {A = Result StorageError (Option FileInfo)} (ok (some a)) (ok (some b))
    → a ≡ b
entry_of a b same = cc

pos_of : {a b : ℕ} → pos a ≡ pos b → a ≡ b
pos_of same = cc

-- The removal of a sequence entry leaves all other keys alone.
drop_seq-apart :
    (z : ℤ) (dropped : List Write) (c : Bytes → Option Bytes) (k : Bytes)
    → drop_seq z ≡ ok dropped
    → ((n : ℕ) → z ≡ pos n → 0 < n → k ≡ seq_of n → ⊥)
    → applied dropped c k ≡ c k
unfolding applied seq_key
drop_seq-apart (pos n) dropped c k made apart = go (ltb_ℤ (pos 0) (pos n)) refl made
  where
    go :
        (b : Bool)
        → ltb_ℤ (pos 0) (pos n) ≡ b
        → ◌≡◌ {A = Result StorageError (List Write)}
            (if b then ok (delete (seq_of n) ∷ []) else ok [])
            (ok dropped)
        → applied dropped c k ≡ c k
    go true is made =
        subst (λ ds. applied ds c k ≡ c k) (writes_of (delete (seq_of n) ∷ []) dropped made)
          (write_delete-apart (seq_of n) c k (λ same. apart n refl (ground (arith, is)) same))
    go false is made = subst (λ ds. applied ds c k ≡ c k) (writes_of [] dropped made) refl
drop_seq-apart (negsuc n) dropped c k made apart =
    subst (λ ds. applied ds c k ≡ c k) (writes_of [] dropped (ground (arith, made))) refl

drop_seq-gone :
    (n : ℕ) (dropped : List Write) (c : Bytes → Option Bytes)
    → 0 < n
    → drop_seq (pos n) ≡ ok dropped
    → applied dropped c (seq_of n) ≡ none
unfolding applied seq_key
drop_seq-gone n dropped c positive made = go (ltb_ℤ (pos 0) (pos n)) refl made
  where
    go :
        (b : Bool)
        → ltb_ℤ (pos 0) (pos n) ≡ b
        → ◌≡◌ {A = Result StorageError (List Write)}
            (if b then ok (delete (seq_of n) ∷ []) else ok [])
            (ok dropped)
        → applied dropped c (seq_of n) ≡ none
    go true is made =
        subst (λ ds. applied ds c (seq_of n) ≡ none)
          (writes_of (delete (seq_of n) ∷ []) dropped made) (rw (bytes_eq_refl (seq_of n)) refl)
    go false is made = absurd (ground (arith, is, positive))

module _ (X : Setup) where
  abbrev pub Content : Type 0
  Content = Bytes → Option Bytes

  abbrev pub entry : Content → Bytes → Result StorageError (Option FileInfo)
  entry c name = decoded_file X (c (file_key name))

  abbrev pub meta_of : Content → Option FolderIndexMeta
  meta_of c = decode_or_default X.db.base X.codec.meta (c ix_key)

  -- The greatest number is in the metadata, and the number of every file is at most that. Above the
  -- numbers that may have been pruned, the name of the file is what is stored under its number, and
  -- nothing else is stored under a number.
  pub record IsIndexed (c : Content) (top : ℕ) : Type 0 where
    pub meta : FolderIndexMeta
    pub is_meta : meta_of c ≡ some meta
    pub is_top : meta.max_sequence ≡ pos top
    pub fits : top ≤ i64_max
    pub bounded :
        (name : Bytes) (fi : FileInfo) (seq : ℕ)
        → IsName name
        → entry c name ≡ ok (some fi)
        → fi.sequence ≡ pos seq
        → seq ≤ top
    pub points :
        (name : Bytes) (fi : FileInfo) (seq : ℕ)
        → IsName name
        → entry c name ≡ ok (some fi)
        → fi.sequence ≡ pos seq
        → X.pruned < seq
        → c (seq_of seq) ≡ some name
    pub exact :
        (n : ℕ) (name : Bytes)
        → n ≤ i64_max
        → X.pruned < n
        → c (seq_of n) ≡ some name
        → IsName name × (fi : FileInfo) × (entry c name ≡ ok (some fi)) × (fi.sequence ≡ pos n)

  -- Only the contents under the keys of the index count.
  pub IsIndexed-same :
      (c c' : Content) (top : ℕ)
      → ((name : Bytes) → c' (file_key name) ≡ c (file_key name))
      → ((n : ℕ) → c' (seq_of n) ≡ c (seq_of n))
      → c' ix_key ≡ c ix_key
      → IsIndexed c top
      → IsIndexed c' top
  IsIndexed-same c c' top files seqs ix i = record {
    meta = i.meta;
    is_meta = ap (decode_or_default X.db.base X.codec.meta) ix ∙ i.is_meta;
    is_top = i.is_top;
    fits = i.fits;
    bounded =
        λ name fi seq u is. i.bounded name fi seq u (ap (decoded_file X) (sym (files name)) ∙ is);
    points = λ name fi seq u is num positive.
        seqs seq
        ∙ i.points name fi seq u (ap (decoded_file X) (sym (files name)) ∙ is) num positive;
    exact = λ n name small positive is.
        let (u, fi, stored, num) = i.exact n name small positive (sym (seqs n) ∙ is) in
        (u, fi, ap (decoded_file X) (files name) ∙ stored, num);
  }

  -- What a commit writes: `c1` is the content after the writes of the caller.
  module _ (c c1 : Content) (top : ℕ) (i : IsIndexed c top) (name : Bytes) (is_name : IsName name)
      (old : Option FileInfo) (is_old : entry c name ≡ ok old) (dropped : List Write)
      (is_dropped : drop_old_seq old ≡ ok dropped)
      (files : (n : Bytes) → c1 (file_key n) ≡ c (file_key n))
      (seqs : (n : ℕ) → c1 (seq_of n) ≡ c (seq_of n)) (meta : FolderIndexMeta)
      (is_meta : meta.max_sequence ≡ pos (suc top)) (fits : suc top ≤ i64_max) (stored : FileInfo)
      (is_stored : stored.sequence ≡ pos (suc top)) where
    -- A key that is not that of the prior version's number.
    dropped-apart :
        (k : Bytes)
        → ((o : FileInfo) (n : ℕ) → old ≡ some o → o.sequence ≡ pos n → 0 < n → k ≡ seq_of n → ⊥)
        → applied dropped c1 k ≡ c1 k
    unfolding applied
    dropped-apart k apart = go old refl is_dropped
      where
        go :
            (o : Option FileInfo)
            → old ≡ o
            → drop_old_seq o ≡ ok dropped
            → applied dropped c1 k ≡ c1 k
        go none is made = subst (λ ds. applied ds c1 k ≡ c1 k) (writes_of [] dropped made) refl
        go (some o) is made = drop_seq-apart o.sequence dropped c1 k made (λ n. apart o n is)

    abbrev pub with_dropped : Content
    with_dropped = applied dropped c1

    abbrev pub with_meta : Content
    with_meta = write_one (put ix_key (X.codec.meta.encode meta)) with_dropped

    abbrev pub stored_bytes : Bytes
    stored_bytes = X.codec.encode_file (record { file_info = some stored })

    abbrev pub with_file : Content
    with_file = write_one (put (file_key name) stored_bytes) with_meta

    abbrev pub with_seq : Content
    with_seq = write_one (put (seq_of (suc top)) name) with_file

    old_seq :
        (n : ℕ) → n ≤ i64_max → (n ≡ suc top → ⊥) → with_seq (seq_of n) ≡ with_dropped (seq_of n)
    old_seq n small apart =
        write_put-apart (seq_of (suc top)) name with_file (seq_of n)
          (λ same. apart (seq_of-injective n (suc top) small fits same))
        ∙ write_put-apart (file_key name) stored_bytes with_meta (seq_of n)
            (λ same. file_key-seq_of name n (sym same))
        ∙ write_put-apart ix_key (X.codec.meta.encode meta) with_dropped (seq_of n)
            (seq_of-ix_key n)

    old_file :
        (n : Bytes) → (file_key n ≡ file_key name → ⊥) → with_seq (file_key n) ≡ c (file_key n)
    old_file n apart =
        write_put-apart (seq_of (suc top)) name with_file (file_key n) (file_key-seq_of n (suc top))
        ∙ write_put-apart (file_key name) stored_bytes with_meta (file_key n) apart
        ∙ write_put-apart ix_key (X.codec.meta.encode meta) with_dropped (file_key n)
            (file_key-ix_key n)
        ∙ dropped-apart (file_key n) (λ o m _ _ _. file_key-seq_of n m)
        ∙ files n

    new_file : with_seq (file_key name) ≡ some stored_bytes
    new_file =
        write_put-apart (seq_of (suc top)) name with_file (file_key name)
          (file_key-seq_of name (suc top))
        ∙ write_put-same (file_key name) stored_bytes with_meta

    new_meta : with_seq ix_key ≡ some (X.codec.meta.encode meta)
    new_meta =
        write_put-apart (seq_of (suc top)) name with_file ix_key
          (λ same. seq_of-ix_key (suc top) (sym same))
        ∙ write_put-apart (file_key name) stored_bytes with_meta ix_key
            (λ same. file_key-ix_key name (sym same))
        ∙ write_put-same ix_key (X.codec.meta.encode meta) with_dropped

    new_entry : entry with_seq name ≡ ok (some stored)
    new_entry = rw (new_file, X.codec.decode-encode_file (record { file_info = some stored })) refl

    -- A file of another name keeps its entry and its number's.
    other_points :
        (n : Bytes) (fi : FileInfo) (seq : ℕ)
        → IsName n
        → (n ≡ name → ⊥)
        → entry c n ≡ ok (some fi)
        → fi.sequence ≡ pos seq
        → X.pruned < seq
        → with_seq (seq_of seq) ≡ some n
    other_points n fi seq u apart is num positive =
        old_seq seq (omega (arith, i.bounded n fi seq u is num))
          (λ same. absurd (omega (arith, same, i.bounded n fi seq u is num)))
        ∙ dropped-apart (seq_of seq) distinct
        ∙ seqs seq
        ∙ i.points n fi seq u is num positive
      where
        distinct :
            (o : FileInfo) (m : ℕ)
            → old ≡ some o
            → o.sequence ≡ pos m
            → 0 < m
            → seq_of seq ≡ seq_of m
            → ⊥
        distinct o m is_some num' positive' same =
            let old_is : entry c name ≡ ok (some o) = cc (is_old) in
            let one : seq ≡ m =
              seq_of-injective seq m (omega (arith, i.bounded n fi seq u is num, i.fits))
                (omega (arith, i.bounded name o m is_name old_is num', i.fits)) same in
            let p : c (seq_of m) ≡ some name =
              i.points name o m is_name old_is num' (omega (arith, one, positive)) in
            let q : c (seq_of seq) ≡ some n = i.points n fi seq u is num positive in
            apart (cc (p, q))

    -- A number that still stands for a name stands for a file of another name, which is unchanged.
    old_exact :
        (n : ℕ) (m : Bytes)
        → n ≤ i64_max
        → X.pruned < n
        → with_dropped (seq_of n) ≡ some m
        → IsName m
          × (m ≡ name → ⊥)
          × (fi : FileInfo) × (entry c m ≡ ok (some fi))
          × (fi.sequence ≡ pos n)
    old_exact n m small positive is = go old refl
      where
        found :
            ((o : FileInfo) → old ≡ some o → o.sequence ≡ pos n → ⊥)
            → IsName m
              × (m ≡ name → ⊥)
              × (fi : FileInfo) × (entry c m ≡ ok (some fi))
              × (fi.sequence ≡ pos n)
        found other =
            let kept = dropped-apart (seq_of n) (λ o n' is_some num positive' same.
              other o is_some (
                num
                ∙ ap pos (
                    sym (
                      seq_of-injective n n' small
                        (omega (arith, i.bounded name o n' is_name (is_old ∙ ap ok is_some) num))
                        same)))) in
            let (u, fi, stored', num) = i.exact n m small positive (sym (seqs n) ∙ sym kept ∙ is) in
            (
              u,
              (λ same.
                  other fi
                    (option_of old (some fi)
                      (sym is_old ∙ subst (λ k. entry c k ≡ ok (some fi)) same stored'))
                    num),
              fi,
              stored',
              num,
            )

        numbered :
            (o : FileInfo)
            → old ≡ some o
            → (b : Bool) → eq_ℤ o.sequence (pos n) ≡ b
            → IsName m
              × (m ≡ name → ⊥)
              × (fi : FileInfo) × (entry c m ≡ ok (some fi))
              × (fi.sequence ≡ pos n)
        numbered o is_some true same = absurd (
            absent_name m (
              sym (
                drop_seq-gone n dropped c1 (omega (arith, positive)) (
                  ap drop_seq (sym ((eq_ℤ_iff o.sequence (pos n)).0 same))
                  ∙ ap drop_old_seq (sym is_some)
                  ∙ is_dropped))
              ∙ is))
        numbered o is_some false apart = found (λ o' is_some' num.
            absurd (cc ((eq_ℤ_iff o.sequence (pos n)).1 (cc (is_some, is_some', num)))))

        go :
            (o : Option FileInfo)
            → old ≡ o
            → IsName m
              × (m ≡ name → ⊥)
              × (fi : FileInfo) × (entry c m ≡ ok (some fi))
              × (fi.sequence ≡ pos n)
        go none is_none = found (λ o is_some num. absurd (cc (is_none, is_some)))
        go (some o) is_some = numbered o is_some (eq_ℤ o.sequence (pos n)) refl

    name_cases : (n : Bytes) → (n ≡ name) ⊎ (n ≡ name → ⊥)
    name_cases n = go (bytes_eq n name) refl
      where
        go : (b : Bool) → bytes_eq n name ≡ b → (n ≡ name) ⊎ (n ≡ name → ⊥)
        go true is = inl ((bytes_eq_iff n name).0 is)
        go false is = inr (λ same. absurd (cc ((bytes_eq_iff n name).1 same)))

    pub with_seq-IsIndexed : IsIndexed with_seq (suc top)
    with_seq-IsIndexed = record {
      meta = meta;
      is_meta = rw (new_meta, X.codec.meta.decode-encode meta) refl;
      is_top = is_meta;
      fits = fits;
      bounded = bounded_after;
      points = points_after;
      exact = exact_after;
    }
      where
        kept : (n : Bytes) → IsName n → (n ≡ name → ⊥) → entry with_seq n ≡ entry c n
        kept n u apart =
            ap (decoded_file X)
              (old_file n (λ same. apart (file_key-injective n name u is_name same)))

        is_new :
            (n : Bytes) (fi : FileInfo) (seq : ℕ)
            → n ≡ name
            → entry with_seq n ≡ ok (some fi)
            → fi.sequence ≡ pos seq
            → seq ≡ suc top
        is_new n fi seq same is num =
            let at_name : entry with_seq name ≡ ok (some fi) =
              subst (λ m. entry with_seq m ≡ ok (some fi)) same is in
            let whole : ◌≡◌ {A = Result StorageError (Option FileInfo)} (ok (some stored))
                (ok (some fi)) =
              sym new_entry ∙ at_name in
            pos_of (
              sym num
              ∙ ap (λ (f : FileInfo). f.sequence) (sym (entry_of stored fi whole))
              ∙ is_stored)

        bounded_after :
            (n : Bytes) (fi : FileInfo) (seq : ℕ)
            → IsName n
            → entry with_seq n ≡ ok (some fi)
            → fi.sequence ≡ pos seq
            → seq ≤ suc top
        bounded_after n fi seq u is num = elim (name_cases n) [
          | inl same ↦ omega (arith, is_new n fi seq same is num)
          | inr apart ↦ omega (arith, i.bounded n fi seq u (sym (kept n u apart) ∙ is) num)
        ]

        points_after :
            (n : Bytes) (fi : FileInfo) (seq : ℕ)
            → IsName n
            → entry with_seq n ≡ ok (some fi)
            → fi.sequence ≡ pos seq
            → X.pruned < seq
            → with_seq (seq_of seq) ≡ some n
        points_after n fi seq u is num positive = elim (name_cases n) [
          | inl same ↦
              rw (is_new n fi seq same is num, same)
                (write_put-same (seq_of (suc top)) name with_file)
          | inr apart ↦ other_points n fi seq u apart (sym (kept n u apart) ∙ is) num positive
        ]

        exact_after :
            (n : ℕ) (m : Bytes)
            → n ≤ i64_max
            → X.pruned < n
            → with_seq (seq_of n) ≡ some m
            → IsName m × (fi : FileInfo) × (entry with_seq m ≡ ok (some fi)) × (fi.sequence ≡ pos n)
        exact_after n m small positive is = go (n == suc top) refl
          where
            go :
                (b : Bool)
                → (n == suc top) ≡ b
                → IsName m
                  × (fi : FileInfo) × (entry with_seq m ≡ ok (some fi))
                  × (fi.sequence ≡ pos n)
            go true same =
                let is_last : n ≡ suc top = ground (arith, same) in
                let is_same : name ≡ m = name_of name m (
                  sym (write_put-same (seq_of (suc top)) name with_file)
                  ∙ ap (λ k. with_seq (seq_of k)) (sym is_last)
                  ∙ is) in
                (
                  subst IsName is_same is_name,
                  stored,
                  subst (λ k. entry with_seq k ≡ ok (some stored)) is_same new_entry,
                  is_stored ∙ ap pos (sym is_last),
                )
            go false apart =
                let (u, other, fi, stored', num) =
                  old_exact n m small positive
                    (sym (old_seq n small (λ same. absurd (ground (arith, same, apart)))) ∙ is) in
                (u, fi, kept m u other ∙ stored', num)
