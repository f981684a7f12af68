-- ===== src/Storage/Allocator/Runs.antt =====
-- Any number of calls, failures and restarts: no block number is handed out twice.
use Prim.Native.Nat.{max}
use mathlib.Core.Path.{subst}
use bepository.Prelude.{
  ℕ, ◌+◌, ◌≤◌, ◌<◌, ◌≡◌, refl, sym, ◌∙◌, ◌⊎◌, inl, inr, Bytes, Option, none, some, List, [], ◌∷◌,
  Result, ok, err, u64_mod, arith,
}
use bepository.Bep.Errors.{StorageError}
use bepository.Storage.Keys.{ix_key, min_block_seq}
use bepository.Storage.Proto.{FolderIndexMeta}
use bepository.Storage.Allocator.{
  Db, MetaCodec, SeqRange, reservation_n, decode_or_default, loaded_range, load_from, load,
  allocate,
}
use bepository.Storage.Allocator.Fresh.{
  next_of, mark, durable_mark, IsReserved, bound, IsFresh, allocate-IsFresh,
}

-- A folder's life, with the numbers handed out, the last one first. Others write the index metadata
-- too, and keep the mark. At a restart, what is not durable is lost.
pub data Run (db : Db) (codec : MetaCodec) : SeqRange → db.State → List ℕ → Type 0 where
  opened :
      (range : SeqRange) (s : db.State)
      → db.durable s ix_key ≡ db.content s ix_key
      → load db codec s ≡ ok range
      → Run db codec range s []
  allocated :
      (range range' : SeqRange) (s s' : db.State) (seq : ℕ) (handed : List ℕ)
      → Run db codec range s handed
      → mark db codec s + min_block_seq + reservation_n < u64_mod
      → allocate db codec range s ≡ (range', s', ok seq)
      → Run db codec range' s' (seq ∷ handed)
  failed :
      (range range' : SeqRange) (s s' : db.State) (e : StorageError) (handed : List ℕ)
      → Run db codec range s handed
      → mark db codec s + min_block_seq + reservation_n < u64_mod
      → allocate db codec range s ≡ (range', s', err e)
      → Run db codec range' s' handed
  index_written :
      (range : SeqRange) (s s' : db.State) (handed : List ℕ)
      → Run db codec range s handed
      → mark db codec s' ≡ mark db codec s
      → (durable_mark db codec s' ≡ durable_mark db codec s)
        ⊎ (durable_mark db codec s' ≡ mark db codec s)
      → Run db codec range s' handed
  restarted :
      (range range' : SeqRange) (s s' : db.State) (handed : List ℕ)
      → Run db codec range s handed
      → db.content s' ix_key ≡ db.durable s ix_key
      → db.durable s' ix_key ≡ db.durable s ix_key
      → load db codec s' ≡ ok range'
      → Run db codec range' s' handed

-- Each number is at least 1024 and greater than all that were handed out before it.
abbrev pub Descends : ℕ → List ℕ → Type 0
Descends top [] = Unit {0}
Descends top (n ∷ handed) = (n < top) × (min_block_seq ≤ n) × Descends n handed

Descends-le :
    (top top' : ℕ) (handed : List ℕ) → top ≤ top' → Descends top handed → Descends top' handed
Descends-le top top' [] le d = tt
Descends-le top top' (n ∷ handed) le (below, floor, rest) = (omega arith, floor, rest)

module _ (db : Db) (codec : MetaCodec) where
  load-IsReserved :
      (s : db.State) (range : SeqRange)
      → db.durable s ix_key ≡ db.content s ix_key
      → load db codec s ≡ ok range
      → IsReserved db codec range s
        × (bound db codec range s ≡ max (mark db codec s) min_block_seq)
        × (range.end ≡ mark db codec s)
  unfolding load
  load-IsReserved s range all_durable loaded = go (db.get ix_key s) refl loaded
    where
      lasts : durable_mark db codec s ≡ mark db codec s
      lasts = rw all_durable refl

      from_meta :
          (o : Option FolderIndexMeta)
          → mark db codec s ≡ next_of o
          → loaded_range db codec o ≡ ok range
          → IsReserved db codec range s
            × (bound db codec range s ≡ max (mark db codec s) min_block_seq)
            × (range.end ≡ mark db codec s)
      from_meta none marked made = absurd (cc made)
      from_meta (some meta) marked made =
          let at : range.next ≡ mark db codec s = ground arith in
          let stop : range.end ≡ mark db codec s = ground arith in
          (
            record {
              ordered = omega (arith, at, stop);
              held = omega (arith, stop, lasts);
              lasting = omega (arith, lasts);
              floor = λ more. absurd (omega (arith, at, stop));
            },
            ground (arith, at, stop),
            stop,
          )

      go :
          (got : Result StorageError (Option Bytes))
          → db.get ix_key s ≡ got
          → load_from db codec got ≡ ok range
          → IsReserved db codec range s
            × (bound db codec range s ≡ max (mark db codec s) min_block_seq)
            × (range.end ≡ mark db codec s)
      go (err e) read made = absurd (cc made)
      go (ok o) read made =
          from_meta (decode_or_default db codec o) (rw (db.get-content ix_key s o read) refl) made

  kept :
      (range : SeqRange) (s s' : db.State)
      → IsReserved db codec range s
      → mark db codec s' ≡ mark db codec s
      → (durable_mark db codec s' ≡ durable_mark db codec s)
        ⊎ (durable_mark db codec s' ≡ mark db codec s)
      → IsReserved db codec range s' × (bound db codec range s ≡ bound db codec range s')
  kept range s s' r same lasts = (reserved lasts, ground (arith, same))
    where
      reserved :
          (durable_mark db codec s' ≡ durable_mark db codec s)
            ⊎ (durable_mark db codec s' ≡ mark db codec s)
          → IsReserved db codec range s'
      reserved (inl l) = record {
        ordered = r.ordered;
        held = omega (arith, r.held, l);
        lasting = omega (arith, r.lasting, l, same);
        floor = r.floor;
      }
      reserved (inr l) = record {
        ordered = r.ordered;
        held = omega (arith, r.held, r.lasting, l);
        lasting = omega (arith, l, same);
        floor = r.floor;
      }

  -- After a restart the numbers start at the mark that the crash left.
  restart :
      (range range' : SeqRange) (s s' : db.State)
      → IsReserved db codec range s
      → db.content s' ix_key ≡ db.durable s ix_key
      → db.durable s' ix_key ≡ db.durable s ix_key
      → load db codec s' ≡ ok range'
      → IsReserved db codec range' s'
        × (range.end ≤ range'.end)
        × (range.end ≤ bound db codec range' s')
  restart range range' s s' r left lasts loaded =
      let (r', least, stop) = load-IsReserved s' range' (lasts ∙ sym left) loaded in
      let now : mark db codec s' ≡ durable_mark db codec s = rw left refl in
      (r', omega (arith, stop, now, r.held), omega (arith, least, now, r.held))

  -- Through all calls, failures of the database, writes of others and restarts, at which all that is
  -- not durable may be lost, the numbers that are handed out grow: each is at least 1024 and greater than
  -- all before it. The mark must have room below 2^64 at each call.
  pub Run-Descends :
      (range : SeqRange) (s : db.State) (handed : List ℕ)
      → Run db codec range s handed
      → IsReserved db codec range s
        × Descends (bound db codec range s) handed
        × Descends range.end handed
  Run-Descends range s handed (opened _ _ all_durable loaded) =
      ((load-IsReserved s range all_durable loaded).0, tt, tt)
  Run-Descends range' s' (seq ∷ handed) (allocated range _ s _ _ _ run room made) =
      let (r, d, _) = Run-Descends range s handed run in
      let (r', least, below, floor, reserved) =
        subst (λ a. IsFresh db codec range s a) made (allocate-IsFresh db codec range s r room) in
      let rest = Descends-le (bound db codec range s) seq handed least d in
      (r', (below, floor, rest), (reserved, floor, rest))
  Run-Descends range' s' handed (failed range _ s _ e _ run room made) =
      let (r, d, l) = Run-Descends range s handed run in
      let (same, r', grows) =
        subst (λ a. IsFresh db codec range s a) made (allocate-IsFresh db codec range s r room) in
      (
        r',
        Descends-le (bound db codec range s) (bound db codec range' s') handed grows d,
        subst (λ x. Descends x.end handed) (sym same) l,
      )
  Run-Descends range s' handed (index_written _ s _ _ run same lasts) =
      let (r, d, l) = Run-Descends range s handed run in
      let (r', least) = kept range s s' r same lasts in
      (r', subst (λ b. Descends b handed) least d, l)
  Run-Descends range' s' handed (restarted range _ s _ _ run left lasts loaded) =
      let (r, d, l) = Run-Descends range s handed run in
      let (r', ends, least) = restart range range' s s' r left lasts loaded in
      (
        r',
        Descends-le range.end (bound db codec range' s') handed least l,
        Descends-le range.end range'.end handed ends l,
      )
