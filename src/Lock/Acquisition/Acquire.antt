-- ===== src/Lock/Acquisition/Acquire.antt =====
-- `acquire` as a whole, for all answers of the store and of the clock.
use bepository.Prelude.{
  ℕ, Bool, true, false, ◌&&◌, Option, none, some, [], ok, ◌≡◌, refl, ◌⊎◌, inl, inr, leb, ◌≤◌, ◌∷◌,
  if◌then◌else◌,
}
use bepository.Lock.Epoch.{Epoch}
use bepository.Lock.Calls.{Packages, Fallible, now, done}
use bepository.Lock.Calls.Logic.{
  read_clock, History, Happened, Ensures, OkOr, OkOr-map, Ensures->>?,
}
use bepository.Lock.Protocol.{
  AcquisitionStatus, not_owner, Lock, EpochEntry, expires_at, is_owned_by, earlier, Metas, Claimed,
  claim_epoch,
}
use bepository.Lock.Protocol.Entries.{Blamed, IsRead-Extends, IsListed, IsListed-Extends}
use bepository.Lock.Protocol.Claim.{
  IsClaimed, IsClaimed-Extends, ClaimedAs, MayDelete, CanPanic, conflicts, claim_epoch-Claims,
}
use bepository.Lock.Acquisition.{
  first_readable_entry, current_owner, verify_ownership, verify_claim, claim_and_verify,
  not_yet_expired, fast_path, acquire,
}
use bepository.Lock.Acquisition.Reads.{
  FirstOf, FirstOf-IsRead, FirstOf-Extends, Keeps, list_epoch_metas-Keeps,
  first_readable_entry-Keeps,
}
use bepository.Lock.Acquisition.Verify.{Judged, verify_ownership-Verifies}

module _ {X : Packages} (self : Lock X) where
  -- The first file that could be read is of another holder, of no lower priority, and neither from
  -- the future nor expired by our own clock.
  pub record IsHeld (h : History X) : Type 0 where
    pub metas : Metas X
    pub listing : IsListed h metas
    pub entry : EpochEntry X
    pub first : FirstOf metas h (some entry)
    pub foreign : is_owned_by entry self.holder ≡ false
    pub no_lower : leb self.priority entry.file.priority ≡ true
    pub time : X.Time
    pub clock : Happened (read_clock time) h
    pub past : X.at_most entry.meta.last_modified time ≡ true
    pub expiry : X.Time
    pub expires : expires_at entry ≡ some expiry
    pub unexpired : earlier X time expiry ≡ true

  -- The status is about the lock of another, or about a claim of ours.
  abbrev pub Outcome : History X → AcquisitionStatus → Type 0
  Outcome h status =
      (IsHeld h × (status ≡ not_owner))
      ⊎ ((mine : Epoch) × (ts : X.Time) × (path : X.FilePath) × IsClaimed self h mine ts path
          × Judged self mine ts path h status)

  module _ (fuel : ℕ) where
    abbrev Spent : History X → Type 0
    Spent h = fuel ≤ conflicts h

    abbrev Acquires : History X → Fallible X AcquisitionStatus → Type 0
    Acquires h m = Keeps self Spent Outcome h m

    claim_and_verify-Acquires : (h : History X) → Acquires h (claim_and_verify self fuel)
    claim_and_verify-Acquires h =
        Ensures->>? (MayDelete self) CanPanic Spent (ClaimedAs self) (OkOr Outcome Blamed)
          (claim_epoch self fuel) (verify_claim self) h
          (claim_epoch-Claims self (MayDelete self) (λ h' p. inl) CanPanic fuel h)
          λ h' claim ext claimed. verified h' claim claimed
      where
        verified :
            (h' : History X) (claim : Claimed X)
            → ClaimedAs self h' claim
            → Acquires h' (verify_claim self claim)
        verified h' (mine, ts, path) claimed =
            OkOr-map (MayDelete self) CanPanic Spent (Judged self mine ts path) Outcome Blamed
              (verify_ownership self mine ts path) h'
              (verify_ownership-Verifies self Spent mine ts path h' claimed)
              λ h'' status ext judged.
                inr (mine, ts, path, IsClaimed-Extends self h' h'' mine ts path ext claimed, judged)

    -- The fast path, once the first readable file is known; `slow` is what it may leave to do.
    fast_path-Acquires :
        (slow : Fallible X AcquisitionStatus) (metas : Metas X) (o : Option (EpochEntry X))
        (h : History X)
        → ((h' : History X) → Acquires h' slow)
        → IsListed h metas
        → FirstOf metas h o
        → Acquires h (fast_path self slow o)
    fast_path-Acquires slow metas none h go_on listing first = go_on h
    fast_path-Acquires slow metas (some entry) h go_on listing first =
        by_owner (is_owned_by entry self.holder) refl
      where
        timed : X.Time → History X
        timed t = read_clock t ∷ h

        by_time :
            is_owned_by entry self.holder ≡ false
            → (t expiry : X.Time) → expires_at entry ≡ some expiry
            → leb self.priority entry.file.priority ≡ true
            → X.at_most entry.meta.last_modified t ≡ true
            → (b : Bool) → earlier X t expiry ≡ b
            → Acquires (timed t) (if b then done (ok not_owner) else slow)
        by_time foreign t expiry is rank past true unexpired = inl (
          record {
            metas = metas;
            listing = IsListed-Extends h (timed t) metas (λ e. inr) listing;
            entry = entry;
            first = FirstOf-Extends metas h (timed t) (some entry) (λ e. inr) first;
            foreign = foreign;
            no_lower = rank;
            time = t;
            clock = inl refl;
            past = past;
            expiry = expiry;
            expires = is;
            unexpired = unexpired;
          },
          refl,
        )
        by_time foreign t expiry is rank past false expired = go_on (timed t)

        by_expiry :
            is_owned_by entry self.holder ≡ false
            → (t : X.Time) → leb self.priority entry.file.priority ≡ true
            → X.at_most entry.meta.last_modified t ≡ true
            → (o : Option X.Time) → expires_at entry ≡ o
            → Acquires (timed t) (not_yet_expired self slow t o)
        by_expiry foreign t rank past none is = (
          entry,
          IsRead-Extends h (timed t) entry (λ e. inr) (FirstOf-IsRead metas h entry first),
          is,
        )
        by_expiry foreign t rank past (some expiry) is =
            by_time foreign t expiry is rank past (earlier X t expiry) refl

        by_tests :
            is_owned_by entry self.holder ≡ false
            → (t : X.Time) → (r p : Bool) → leb self.priority entry.file.priority ≡ r
            → X.at_most entry.meta.last_modified t ≡ p
            → Acquires
                (timed t)
                (if r && p then not_yet_expired self slow t (expires_at entry) else slow)
        by_tests foreign t true true rank past =
            by_expiry foreign t rank past (expires_at entry) refl
        by_tests foreign t true false rank past = go_on (timed t)
        by_tests foreign t false p rank past = go_on (timed t)

        by_owner :
            (b : Bool)
            → is_owned_by entry self.holder ≡ b
            → Acquires h (
                if b
                then slow
                else now λ t.
                  if leb self.priority entry.file.priority && X.at_most entry.meta.last_modified t
                  then not_yet_expired self slow t (expires_at entry)
                  else slow)
        by_owner true own = go_on h
        by_owner false foreign = λ t.
            by_tests foreign t (leb self.priority entry.file.priority)
              (X.at_most entry.meta.last_modified t) refl refl

  -- Whatever the store and the clock answer: `acquire` deletes no file but the one it created and
  -- files it read that are of this holder or were expired when it made its claim; the status it
  -- returns is an outcome as above, which says what was listed and read; an error is that of a call,
  -- of a text or of a number; it panics only at a file whose duration is out of range; and the fuel
  -- runs out only after as many files as that were there when they were to be created.
  pub acquire_sound :
      (fuel : ℕ)
      → Ensures
          (MayDelete self)
          CanPanic
          (λ h. fuel ≤ conflicts h)
          (OkOr Outcome Blamed)
          []
          (acquire self fuel)
  unfolding acquire current_owner
  acquire_sound fuel =
      Ensures->>? (MayDelete self) CanPanic (Spent fuel) FirstAs (OkOr Outcome Blamed) current_owner
        (fast_path self (claim_and_verify self fuel)) [] owner_found
        λ h o ext (metas, listing, first).
          fast_path-Acquires fuel (claim_and_verify self fuel) metas o h
            (claim_and_verify-Acquires fuel) listing first
    where
      FirstAs : History X → Option (EpochEntry X) → Type 0
      FirstAs h o = (metas : Metas X) × IsListed h metas × FirstOf metas h o

      owner_found : Keeps self (Spent fuel) FirstAs [] current_owner
      owner_found =
          list_epoch_metas-Keeps self (Spent fuel) FirstAs first_readable_entry []
            λ h metas ext listing.
              OkOr-map (MayDelete self) CanPanic (Spent fuel) (FirstOf metas) FirstAs Blamed
                (first_readable_entry metas) h
                (first_readable_entry-Keeps self (Spent fuel) metas h)
                λ h' o ext' first. (metas, IsListed-Extends h h' metas ext' listing, first)
