-- ===== src/Lock/Acquisition.antt =====
-- bepository-lock/src/lib.rs: acquiring, verifying and releasing the lock, over the operations of
-- Lock.Protocol.
pub mod Break
pub mod Partition
pub mod Reads
pub mod Release
pub mod Scavenge
pub mod Yield
mod Tests
pub mod Verify
pub mod Acquire
use bepository.Prelude.{
  ℕ, Bytes, codes, Bool, true, false, not, ◌&&◌, ◌||◌, Option, none, some, List, [], ◌∷◌, ◌++◌,
  Result, ok, err, ltb, leb, if◌then◌else◌,
}
use bepository.Lock.Epoch
use bepository.Lock.Epoch.{Epoch, before}
use bepository.Lock.Calls.{
  StoreError, not_found, already_exists, other, EpochFile, Packages, ObjectMeta, Body, Prog, done,
  panic, spent, list, get, create, head, delete, now, bind, Error, object_store, Fallible, ◌>>?◌,
}
use bepository.Lock.Protocol.{
  AcquisitionStatus, owner, queued, queued_backward_clock, yielded, failed, not_owner, Lock,
  EpochEntry, expires_at, is_expired_at, is_owned_by, earlier, epoch_of, Metas, partition_around,
  best_effort_delete, list_epoch_metas, read_entry, Claimed, claim_epoch, put_next_epoch,
  same_epoch,
}

-- `take_while` on the files below ours.
abbrev pub is_below : Epoch → Option Epoch → Bool
is_below mine none = false
is_below mine (some e) = before e mine

module _ {X : Packages} where
  -- The first file of a list that can be read: in `current_owner` and in `first_readable_entry`.
  abbrev pub found_or :
      Fallible X (Option (EpochEntry X))
      → Option (EpochEntry X)
      → Fallible X (Option (EpochEntry X))
  found_or rest none = rest
  found_or rest (some entry) = done (ok (some entry))

  unfoldable pub first_readable_entry : Metas X → Fallible X (Option (EpochEntry X))
  first_readable_entry [] = done (ok none)
  first_readable_entry (meta ∷ metas) =
      let rest = first_readable_entry metas in read_entry meta >>? found_or rest

  unfoldable pub current_owner : Fallible X (Option (EpochEntry X))
  unfolding first_readable_entry
  current_owner = list_epoch_metas >>? first_readable_entry

  unfoldable pub take_below : Epoch → Metas X → Metas X
  take_below mine [] = []
  take_below mine (m ∷ metas) =
      let rest = take_below mine metas in if is_below mine (epoch_of m) then m ∷ rest else []

  module _ (self : Lock X) (ts : X.Time) where
    -- One file below ours: `regression` is the flag so far, and `loop` the rest of the loop.
    abbrev pub judge_entry :
        (Bool → Fallible X Bool) → Bool → EpochEntry X → Option Bool → Fallible X Bool
    judge_entry loop regression entry none = panic
    judge_entry loop regression entry (some is_expired) =
        if is_expired || is_owned_by entry self.holder
        then best_effort_delete entry.meta.location (loop regression)
        else loop (if earlier X ts entry.meta.last_modified then true else regression)

    abbrev pub scavenge_entry :
        (Bool → Fallible X Bool) → Bool → Option (EpochEntry X) → Fallible X Bool
    scavenge_entry loop regression none = loop regression
    scavenge_entry loop regression (some entry) =
        judge_entry loop regression entry (is_expired_at entry ts)

    unfoldable pub scavenge_loop : Metas X → Bool → Fallible X Bool
    scavenge_loop [] regression = done (ok regression)
    scavenge_loop (meta ∷ metas) regression =
        let loop = scavenge_loop metas in read_entry meta >>? scavenge_entry loop regression

    unfoldable pub scavenge_below : Epoch → Fallible X Bool
    unfolding scavenge_loop take_below
    scavenge_below mine = list_epoch_metas >>? λ metas. scavenge_loop (take_below mine metas) false

    -- Whether a file above ours outranks us and is not expired.
    abbrev pub outranks_until : Fallible X Bool → Option X.Time → Fallible X Bool
    outranks_until rest none = panic
    outranks_until rest (some expiry) = if earlier X ts expiry then done (ok true) else rest

    abbrev pub yield_to : Fallible X Bool → Option (EpochEntry X) → Fallible X Bool
    yield_to rest none = rest
    yield_to rest (some entry) =
        if ltb self.priority entry.file.priority
        then outranks_until rest (expires_at entry)
        else rest

    unfoldable pub should_yield : Metas X → Fallible X Bool
    should_yield [] = done (ok false)
    should_yield (meta ∷ metas) = let rest = should_yield metas in read_entry meta >>? yield_to rest

  module _ (self : Lock X) where
    unfoldable pub classify_loss : EpochEntry X → Bool → X.FilePath → Fallible X AcquisitionStatus
    classify_loss entry regression_detected my_path =
        if regression_detected
        then done (ok queued_backward_clock)
        else if ltb entry.file.priority self.priority
        then done (ok queued)
        else best_effort_delete my_path (done (ok failed))

    abbrev pub yield_or_own : Epoch → X.FilePath → Bool → Fallible X AcquisitionStatus
    yield_or_own my_epoch my_path true = best_effort_delete my_path (done (ok yielded))
    yield_or_own my_epoch my_path false = done (ok (owner my_epoch))

    -- Step 3 and 4, once the lower files were read.
    abbrev pub verify_lowest :
        Epoch
        → X.Time
        → X.FilePath
        → Bool
        → Metas X
        → Option (EpochEntry X)
        → Fallible X AcquisitionStatus
    verify_lowest my_epoch ts my_path regression higher (some entry) =
        classify_loss entry regression my_path
    verify_lowest my_epoch ts my_path regression higher none =
        should_yield self ts higher >>? yield_or_own my_epoch my_path

    abbrev pub verify_partition :
        Epoch → X.Time → X.FilePath → Bool → Metas X × Bool × Metas X → Fallible X AcquisitionStatus
    verify_partition my_epoch ts my_path regression (lower, false, higher) =
        best_effort_delete my_path (done (ok failed))
    verify_partition my_epoch ts my_path regression (lower, true, higher) =
        first_readable_entry lower >>? verify_lowest my_epoch ts my_path regression higher

    unfoldable pub verify_ownership : Epoch → X.Time → X.FilePath → Fallible X AcquisitionStatus
    unfolding scavenge_below partition_around first_readable_entry should_yield classify_loss
    verify_ownership my_epoch ts my_path = scavenge_below self ts my_epoch >>? λ regression.
        list_epoch_metas >>? λ metas.
        verify_partition my_epoch ts my_path regression (partition_around metas my_epoch)

    abbrev pub verify_claim : Claimed X → Fallible X AcquisitionStatus
    verify_claim (my_epoch, ts, path) = verify_ownership my_epoch ts path

    abbrev pub claim_and_verify : ℕ → Fallible X AcquisitionStatus
    claim_and_verify fuel = claim_epoch self fuel >>? verify_claim

    -- The fast path's last test, `now < entry.expires_at()`.
    abbrev pub not_yet_expired :
        Fallible X AcquisitionStatus → X.Time → Option X.Time → Fallible X AcquisitionStatus
    not_yet_expired slow t none = panic
    not_yet_expired slow t (some expiry) = if earlier X t expiry then done (ok not_owner) else slow

    abbrev pub fast_path :
        Fallible X AcquisitionStatus → Option (EpochEntry X) → Fallible X AcquisitionStatus
    fast_path slow none = slow
    fast_path slow (some entry) =
        if is_owned_by entry self.holder
        then slow
        else now λ t.
          if leb self.priority entry.file.priority && X.at_most entry.meta.last_modified t
          then not_yet_expired slow t (expires_at entry)
          else slow

    unfoldable pub acquire : ℕ → Fallible X AcquisitionStatus
    unfolding current_owner claim_epoch verify_ownership
    acquire fuel = let slow = claim_and_verify fuel in current_owner >>? fast_path slow

    -- The files are read 16 at a time; here one after another, in the order of `metas`.
    abbrev pub release_entry : Fallible X (Unit {0}) → Option (EpochEntry X) → Fallible X (Unit {0})
    release_entry rest none = rest
    release_entry rest (some entry) =
        if is_owned_by entry self.holder then best_effort_delete entry.meta.location rest else rest

    unfoldable pub release_loop : Metas X → Fallible X (Unit {0})
    release_loop [] = done (ok tt)
    release_loop (meta ∷ metas) =
        let rest = release_loop metas in read_entry meta >>? release_entry rest

    unfoldable pub release : Fallible X (Unit {0})
    unfolding release_loop
    release = list_epoch_metas >>? release_loop

    -- One file of unsafe_break_locks: `found` says that the active owner was met.
    abbrev pub break_entry :
        X.FilePath
        → (Bool → Fallible X (Unit {0}))
        → Bool
        → ObjectMeta X
        → Option Bool
        → Fallible X (Unit {0})
    break_entry my_path loop found meta none = panic
    break_entry my_path loop found meta (some is_expired) =
        if not found && not is_expired
        then loop true
        else best_effort_delete meta.location (loop found)

    abbrev pub break_file :
        X.Time
        → X.FilePath
        → (Bool → Fallible X (Unit {0}))
        → Bool
        → ObjectMeta X
        → Epoch
        → Option EpochFile
        → Fallible X (Unit {0})
    break_file ts my_path loop found meta epoch none = best_effort_delete meta.location (loop found)
    break_file ts my_path loop found meta epoch (some file) =
        break_entry my_path loop found meta
          (is_expired_at (record { meta = meta; file = file; epoch = epoch }) ts)

    -- The errors of `get` delete our own file; those of the body do not.
    abbrev pub break_body :
        X.Time
        → X.FilePath
        → (Bool → Fallible X (Unit {0}))
        → Bool
        → ObjectMeta X
        → Epoch
        → Body
        → Fallible X (Unit {0})
    break_body ts my_path loop found meta epoch (ok (ok bytes)) =
        break_file ts my_path loop found meta epoch (X.decode bytes)
    break_body ts my_path loop found meta epoch (ok (err e)) = done (err (object_store e))
    break_body ts my_path loop found meta epoch (err not_found) = loop found
    break_body ts my_path loop found meta epoch (err already_exists) =
        best_effort_delete my_path (done (err (object_store already_exists)))
    break_body ts my_path loop found meta epoch (err other) =
        best_effort_delete my_path (done (err (object_store other)))

    abbrev pub break_meta :
        Epoch
        → X.Time
        → X.FilePath
        → (Bool → Fallible X (Unit {0}))
        → Bool
        → ObjectMeta X
        → Option Epoch
        → Fallible X (Unit {0})
    break_meta my_epoch ts my_path loop found meta none = loop found
    break_meta my_epoch ts my_path loop found meta (some epoch) =
        if same_epoch epoch my_epoch
        then loop found
        else get meta.location (break_body ts my_path loop found meta epoch)

    unfoldable pub break_loop : Epoch → X.Time → X.FilePath → Metas X → Bool → Fallible X (Unit {0})
    break_loop my_epoch ts my_path [] found = best_effort_delete my_path (done (ok tt))
    break_loop my_epoch ts my_path (meta ∷ metas) found =
        let loop = break_loop my_epoch ts my_path metas in
        break_meta my_epoch ts my_path loop found meta (epoch_of meta)

    -- The listing's error deletes our own file.
    abbrev pub break_listed : Claimed X → Result Error (Metas X) → Fallible X (Unit {0})
    break_listed (my_epoch, ts, my_path) (ok metas) = break_loop my_epoch ts my_path metas false
    break_listed (my_epoch, ts, my_path) (err e) = best_effort_delete my_path (done (err e))

    unfoldable pub unsafe_break_locks : ℕ → Fallible X (Unit {0})
    unfolding put_next_epoch break_loop bind
    unsafe_break_locks fuel =
        put_next_epoch self fuel
          (record { holder = self.holder ++ codes "-breaker"; priority = 0; duration = 0 })
        >>? λ claimed. bind list_epoch_metas (break_listed claimed)
