-- ===== src/Storage/Allocator/Fresh.antt =====
-- One call of `allocate`: the number it hands out, and what is reserved afterwards.
use Prim.Native.Nat.{max}
use mathlib.Core.Path.{sym, subst}
use bepository.Prelude.{
  ℕ, ◌+◌, ◌≤◌, ◌<◌, ◌≡◌, refl, ap, ◌∙◌, ◌⊎◌, inl, inr, Bytes, Bool, true, false, Option, none, some,
  Result, ok, err, ltb, if◌then◌else◌, u64_mod, arith,
}
use bepository.Bep.Errors.{StorageError}
use bepository.Storage.Keys.{ix_key, min_block_seq}
use bepository.Storage.Proto.{FolderIndexMeta}
use bepository.Storage.Allocator.{
  Db, MetaCodec, SeqRange, reservation_n, unwrap_zero, decode_or_default, Allocated, after_put,
  after_flush, refill_meta, refill_from, refill, allocate,
}

abbrev pub next_of : Option FolderIndexMeta → ℕ
next_of none = 0
next_of (some m) = unwrap_zero m.next_blockseq

module _ (db : Db) (codec : MetaCodec) where
  -- The mark that the database holds: all numbers handed out are below it.
  abbrev pub mark : db.State → ℕ
  mark s = next_of (decode_or_default db codec (db.content s ix_key))

  -- The mark that a crash leaves.
  abbrev pub durable_mark : db.State → ℕ
  durable_mark s = next_of (decode_or_default db codec (db.durable s ix_key))

  -- The numbers of the range are below the mark that a crash leaves, and at least 1024.
  pub record IsReserved (range : SeqRange) (s : db.State) : Type 0 where
    pub ordered : range.next ≤ range.end
    pub held : range.end ≤ durable_mark s
    pub lasting : durable_mark s ≤ mark s
    pub floor : range.next < range.end → min_block_seq ≤ range.next

  -- The least number that may still be handed out.
  abbrev pub bound : SeqRange → db.State → ℕ
  bound range s = if ltb range.next range.end then range.next else max (mark s) min_block_seq

  -- What a call does: it hands out no number that was handed out before.
  abbrev pub IsFresh : SeqRange → db.State → Allocated db codec → Type 0
  IsFresh range s (range', s', err e) =
      (range' ≡ range) × IsReserved range' s' × (bound range s ≤ bound range' s')
  IsFresh range s (range', s', ok seq) =
      IsReserved range' s'
      × (bound range s ≤ seq)
      × (seq < bound range' s')
      × (min_block_seq ≤ seq)
      × (seq < range'.end)

  get_mark :
      (s : db.State) (o : Option Bytes)
      → db.get ix_key s ≡ ok o
      → mark s ≡ next_of (decode_or_default db codec o)
  get_mark s o got = rw (db.get-content ix_key s o got) refl

  put_mark :
      (s : db.State) (m : FolderIndexMeta)
      → (mark (db.put ix_key (codec.encode m) s).0 ≡ unwrap_zero m.next_blockseq)
        ⊎ ((mark (db.put ix_key (codec.encode m) s).0 ≡ mark s)
            × (e : StorageError) × ((db.put ix_key (codec.encode m) s).1 ≡ err e))
  put_mark s m = elim (db.put-content ix_key (codec.encode m) s) [
    | inl done ↦ inl (rw (done, codec.decode-encode m) refl)
    | inr (same, e, failed) ↦ inr (rw same refl, e, failed)
  ]

  flush_mark : (s : db.State) → mark (db.flush s).0 ≡ mark s
  flush_mark s = rw (db.flush-content ix_key s) refl

  put_durable_mark :
      (s : db.State) (v : Bytes)
      → (durable_mark (db.put ix_key v s).0 ≡ durable_mark s)
        ⊎ (durable_mark (db.put ix_key v s).0 ≡ mark s)
        ⊎ (durable_mark (db.put ix_key v s).0 ≡ mark (db.put ix_key v s).0)
  put_durable_mark s v = elim (db.put-durable ix_key v s) [
    | inl same ↦ inl (rw same refl)
    | inr (inl before) ↦ inr (inl (rw before refl))
    | inr (inr after) ↦ inr (inr (rw after refl))
  ]

  flush_durable_mark :
      (s : db.State)
      → (durable_mark (db.flush s).0 ≡ mark s)
        ⊎ ((durable_mark (db.flush s).0 ≡ durable_mark s)
            × (e : StorageError) × ((db.flush s).1 ≡ err e))
  flush_durable_mark s = elim (db.flush-durable ix_key s) [
    | inl done ↦ inl (rw done refl)
    | inr (same, e, failed) ↦ inr (rw same refl, e, failed)
  ]

  -- No mark has become less, and the one that a crash leaves is none that was not written.
  record IsLater (s s' : db.State) : Type 0 where
    grows : mark s ≤ mark s'
    lasts : durable_mark s ≤ durable_mark s'
    lasting : durable_mark s' ≤ mark s'

  IsReserved-above :
      (range : SeqRange) (s s' : db.State)
      → IsReserved range s
      → ltb range.next range.end ≡ false
      → IsLater s s'
      → (range ≡ range) × IsReserved range s' × (bound range s ≤ bound range s')
  IsReserved-above range s s' r empty later = (
    refl,
    record {
      ordered = r.ordered;
      held = omega (arith, r.held, later.lasts);
      lasting = later.lasting;
      floor = r.floor;
    },
    ground (arith, empty, later.grows),
  )

  abbrev Outcome : Type 0
  Outcome = db.State × Result StorageError (Unit {0})

  -- The state after a flush that succeeded.
  refilled :
      (range : SeqRange) (s s' : db.State) (base limit : ℕ)
      → base ≡ max (mark s) min_block_seq
      → limit ≡ base + reservation_n
      → ltb range.next range.end ≡ false
      → mark s' ≡ limit
      → durable_mark s' ≡ limit
      → IsFresh range s (record { next = base + 1; end = limit }, s', ok base)
  refilled range s s' base limit b l empty marked lasts = (
    record {
      ordered = omega (arith, l);
      held = omega (arith, lasts);
      lasting = omega (arith, marked, lasts);
      floor = λ more. omega (arith, b);
    },
    ground (arith, empty, b),
    ground (arith, l),
    omega (arith, b),
    omega (arith, l),
  )

  flushed-IsFresh :
      (range : SeqRange) (s s1 : db.State) (base limit : ℕ)
      → IsReserved range s
      → base ≡ max (mark s) min_block_seq
      → limit ≡ base + reservation_n
      → ltb range.next range.end ≡ false
      → mark s1 ≡ limit
      → IsLater s s1
      → IsFresh range s (after_put db codec range base limit (s1, ok tt))
  flushed-IsFresh range s s1 base limit r b l empty marked later =
      go (db.flush s1) refl (flush_mark s1 ∙ marked) (flush_durable_mark s1)
    where
      still : (s2 : db.State) → mark s2 ≡ limit → durable_mark s2 ≡ limit → IsLater s s2
      still s2 now lasts = record {
        grows = omega (arith, later.grows, marked, now);
        lasts = omega (arith, later.lasts, later.lasting, marked, lasts);
        lasting = omega (arith, now, lasts);
      }

      as_before :
          (s2 : db.State) → mark s2 ≡ limit → durable_mark s2 ≡ durable_mark s1 → IsLater s s2
      as_before s2 now lasts = record {
        grows = omega (arith, later.grows, marked, now);
        lasts = omega (arith, later.lasts, lasts);
        lasting = omega (arith, later.lasting, marked, now, lasts);
      }

      go :
          (p : Outcome)
          → db.flush s1 ≡ p
          → mark (db.flush s1).0 ≡ limit
          → (durable_mark (db.flush s1).0 ≡ mark s1)
            ⊎ ((durable_mark (db.flush s1).0 ≡ durable_mark s1)
                × (e : StorageError) × ((db.flush s1).1 ≡ err e))
          → IsFresh range s (after_flush db codec range base limit p)
      go (s2, ok done) is same (inl lasts) =
          refilled range s s2 base limit b l empty
            (ap (λ (p : Outcome). mark (p.0)) (sym is) ∙ same)
            (ap (λ (p : Outcome). durable_mark (p.0)) (sym is) ∙ lasts ∙ marked)
      go (s2, ok done) is same (inr (_, e, failed)) = absurd (cc (ap (λ (p : Outcome). p.1) is))
      go (s2, err e) is same (inl lasts) = IsReserved-above range s s2 r empty (
          still s2 (ap (λ (p : Outcome). mark (p.0)) (sym is) ∙ same)
            (ap (λ (p : Outcome). durable_mark (p.0)) (sym is) ∙ lasts ∙ marked))
      go (s2, err e) is same (inr (lasts, _, _)) = IsReserved-above range s s2 r empty (
          as_before s2 (ap (λ (p : Outcome). mark (p.0)) (sym is) ∙ same)
            (ap (λ (p : Outcome). durable_mark (p.0)) (sym is) ∙ lasts))

  put-IsFresh :
      (range : SeqRange) (s : db.State) (meta : FolderIndexMeta) (base limit : ℕ)
      → IsReserved range s
      → base ≡ max (mark s) min_block_seq
      → limit ≡ base + reservation_n
      → ltb range.next range.end ≡ false
      → IsFresh range s (
          after_put db codec range base limit
            (db.put ix_key (codec.encode (record meta { next_blockseq = some limit })) s))
  put-IsFresh range s meta base limit r b l empty =
      go (db.put ix_key (codec.encode m) s) refl (put_mark s m) later
    where
      m : FolderIndexMeta
      m = record meta { next_blockseq = some limit }

      later : IsLater s (db.put ix_key (codec.encode m) s).0
      later = elim (put_mark s m) [
        | inl marked ↦ lasting (omega (arith, b, l, marked))
        | inr (same, _, _) ↦ lasting (omega (arith, same))
      ]
        where
          lasting :
              mark s ≤ mark (db.put ix_key (codec.encode m) s).0
              → IsLater s (db.put ix_key (codec.encode m) s).0
          lasting grows = elim (put_durable_mark s (codec.encode m)) [
            | inl lasts ↦ record {
              grows = grows;
              lasts = omega (arith, lasts);
              lasting = omega (arith, lasts, grows, r.lasting);
            }
            | inr (inl lasts) ↦ record {
              grows = grows;
              lasts = omega (arith, lasts, r.lasting);
              lasting = omega (arith, lasts, grows);
            }
            | inr (inr lasts) ↦ record {
              grows = grows;
              lasts = omega (arith, lasts, grows, r.lasting);
              lasting = omega (arith, lasts);
            }
          ]

      go :
          (p : Outcome)
          → db.put ix_key (codec.encode m) s ≡ p
          → (mark (db.put ix_key (codec.encode m) s).0 ≡ limit)
            ⊎ ((mark (db.put ix_key (codec.encode m) s).0 ≡ mark s)
                × (e : StorageError) × ((db.put ix_key (codec.encode m) s).1 ≡ err e))
          → IsLater s (db.put ix_key (codec.encode m) s).0
          → IsFresh range s (after_put db codec range base limit p)
      go (s1, ok done) is (inl marked) after =
          flushed-IsFresh range s s1 base limit r b l empty
            (ap (λ (p : Outcome). mark (p.0)) (sym is) ∙ marked)
            (subst (λ (p : Outcome). IsLater s (p.0)) is after)
      go (s1, ok done) is (inr (_, e, failed)) after = absurd (cc (ap (λ (p : Outcome). p.1) is))
      go (s1, err e) is _ after =
          IsReserved-above range s s1 r empty (subst (λ (p : Outcome). IsLater s (p.0)) is after)

  same-IsLater : (range : SeqRange) (s : db.State) → IsReserved range s → IsLater s s
  same-IsLater range s r = record { grows = omega arith; lasts = omega arith; lasting = r.lasting }

  meta-IsFresh :
      (range : SeqRange) (s : db.State) (o : Option FolderIndexMeta)
      → IsReserved range s
      → ltb range.next range.end ≡ false
      → mark s ≡ next_of o
      → mark s + min_block_seq + reservation_n < u64_mod
      → IsFresh range s (refill_meta db codec range s o)
  meta-IsFresh range s none r empty marked room =
      IsReserved-above range s s r empty (same-IsLater range s r)
  meta-IsFresh range s (some meta) r empty marked room =
      put-IsFresh range s meta (max (unwrap_zero meta.next_blockseq) min_block_seq) _ r
        (omega (arith, marked)) (omega (arith, marked)) empty

  refill-IsFresh :
      (range : SeqRange) (s : db.State)
      → IsReserved range s
      → ltb range.next range.end ≡ false
      → mark s + min_block_seq + reservation_n < u64_mod
      → IsFresh range s (refill db codec range s)
  unfolding refill
  refill-IsFresh range s r empty room = go (db.get ix_key s) refl
    where
      go :
          (got : Result StorageError (Option Bytes))
          → db.get ix_key s ≡ got
          → IsFresh range s (refill_from db codec range s got)
      go (err e) read = IsReserved-above range s s r empty (same-IsLater range s r)
      go (ok o) read =
          meta-IsFresh range s (decode_or_default db codec o) r empty (get_mark s o read) room

  took_next :
      (range : SeqRange) (s : db.State)
      → IsReserved range s
      → ltb range.next range.end ≡ true
      → IsFresh range s (record { next = range.next + 1; end = range.end }, s, ok range.next)
  took_next range s r more = (
    record {
      ordered = ground (arith, more);
      held = r.held;
      lasting = r.lasting;
      floor = λ later. omega (arith, r.floor (ground (arith, more)));
    },
    ground (arith, more),
    ground (arith, more, r.held),
    r.floor (ground (arith, more)),
    ground (arith, more),
  )

  -- A call of `allocate` hands out a number that is at least 1024 and at least the least number not
  -- handed out yet, and what is handed out later is greater. If it fails, as it may where the
  -- database does, nothing is handed out. The mark must have room below 2^64.
  pub allocate-IsFresh :
      (range : SeqRange) (s : db.State)
      → IsReserved range s
      → mark s + min_block_seq + reservation_n < u64_mod
      → IsFresh range s (allocate db codec range s)
  unfolding allocate
  allocate-IsFresh range s r room = go (ltb range.next range.end) refl
    where
      go :
          (more : Bool)
          → ltb range.next range.end ≡ more
          → IsFresh range s (
              if more
              then (record { next = range.next + 1; end = range.end }, s, ok range.next)
              else refill db codec range s)
      go true more = took_next range s r more
      go false empty = refill-IsFresh range s r empty room
