-- ===== src/Lock/Protocol/Entries.antt =====
-- Listing the files and reading one, whatever the store answers.
use bepository.Prelude.{Bytes, Option, none, some, ◌∷◌, ok, err, ◌≡◌, refl, ◌⊎◌, inl, inr}
use bepository.Lock.Epoch
use bepository.Lock.Epoch.{Epoch}
use bepository.Lock.Calls.{
  StoreError, not_found, already_exists, other, EpochFile, Packages, ObjectMeta, Error,
  object_store, serde, base32, clock_regression, cancelled,
}
use bepository.Lock.Calls.Logic.{
  Event, listed, got, created, headed, deleted, read_clock, History, Happened, Ensures, Extends,
  OkOr,
}
use bepository.Lock.Protocol.{
  EpochEntry, epoch_of, Metas, epoch_metas, sort_metas, list_epoch_metas, read_entry, highest_epoch,
  next_val, parse_entry, entry_named,
}

-- The error of a call, apart from `delete`, whose errors are dropped.
abbrev pub fails_with : {X : Packages} → Event X → Option StoreError
fails_with (listed (err e)) = some e
fails_with (listed (ok _)) = none
fails_with (got p (err e)) = some e
fails_with (got p (ok (err e))) = some e
fails_with (got p (ok (ok _))) = none
fails_with (created p b (err e)) = some e
fails_with (created p b (ok _)) = none
fails_with (headed p (err e)) = some e
fails_with (headed p (ok _)) = none
fails_with (deleted p r) = none
fails_with (read_clock t) = none

module _ {X : Packages} where
  -- The file was read, and this is what it says.
  pub record IsRead (h : History X) (entry : EpochEntry X) : Type 0 where
    pub bytes : Bytes
    pub answered : Happened (got entry.meta.location (ok (ok bytes))) h
    pub decoded : X.decode bytes ≡ some entry.file
    pub named : epoch_of entry.meta ≡ some entry.epoch

  pub IsRead-Extends :
      (h h' : History X) (entry : EpochEntry X) → Extends h h' → IsRead h entry → IsRead h' entry
  IsRead-Extends h h' entry ext r = record {
    bytes = r.bytes;
    answered = ext _ r.answered;
    decoded = r.decoded;
    named = r.named;
  }

  -- A file that was not there when it was read, or has no epoch for its name.
  abbrev pub Gone : History X → ObjectMeta X → Type 0
  Gone h m = Happened (got m.location (err not_found)) h ⊎ (epoch_of m ≡ none)

  abbrev pub ReadAs : ObjectMeta X → History X → Option (EpochEntry X) → Type 0
  ReadAs m h none = Gone h m
  ReadAs m h (some entry) = IsRead h entry × (entry.meta ≡ m)

  -- The store listed files, of which these have an epoch for their name.
  pub record IsListed (h : History X) (metas : Metas X) : Type 0 where
    pub files : Metas X
    pub answered : Happened (listed (ok files)) h
    pub sorted : metas ≡ sort_metas (epoch_metas files)

  pub IsListed-Extends :
      (h h' : History X) (metas : Metas X) → Extends h h' → IsListed h metas → IsListed h' metas
  IsListed-Extends h h' metas ext l = record {
    files = l.files;
    answered = ext _ l.answered;
    sorted = l.sorted;
  }

  -- What is to blame for an error: a call that failed, a text that is not that of a file or a file that
  -- has none, or a number that no epoch has.
  abbrev pub Blamed : History X → Error → Type 0
  Blamed h (object_store e) = (x : Event X) × Happened x h × (fails_with x ≡ some e)
  Blamed h serde =
      ((p : X.FilePath) × (bytes : Bytes) × Happened (got p (ok (ok bytes))) h
        × (X.decode bytes ≡ none))
      ⊎ ((content : EpochFile) × (X.encode content ≡ none))
  Blamed h (base32 e) =
      (metas : Metas X) × IsListed h metas × (Epoch.new (next_val (highest_epoch metas)) ≡ err e)
  Blamed h clock_regression = ⊥
  Blamed h cancelled = ⊥

  pub Blamed-Extends : (h h' : History X) (e : Error) → Extends h h' → Blamed h e → Blamed h' e
  Blamed-Extends h h' (object_store e) ext (x, happened, fails) = (x, ext _ happened, fails)
  Blamed-Extends h h' serde ext (inl (p, bytes, happened, is)) = inl (p, bytes, ext _ happened, is)
  Blamed-Extends h h' serde ext (inr unencoded) = inr unencoded
  Blamed-Extends h h' (base32 e) ext (metas, listing, is) =
      (metas, IsListed-Extends h h' metas ext listing, is)
  Blamed-Extends h h' clock_regression ext never = never
  Blamed-Extends h h' cancelled ext never = never

module _ {X : Packages} (May : History X → X.FilePath → Type 0)
    (Panics Spends : History X → Type 0) where
  pub list_epoch_metas-Ensures :
      (h : History X) → Ensures May Panics Spends (OkOr IsListed Blamed) h list_epoch_metas
  unfolding list_epoch_metas
  list_epoch_metas-Ensures h (err e) = (listed (err e), inl refl, refl)
  list_epoch_metas-Ensures h (ok files) = record {
    files = files;
    answered = inl refl;
    sorted = refl;
  }

  pub read_entry-Ensures :
      (m : ObjectMeta X) (h : History X)
      → Ensures May Panics Spends (OkOr (ReadAs m) Blamed) h (read_entry m)
  unfolding read_entry
  read_entry-Ensures m h (err not_found) = inl (inl refl)
  read_entry-Ensures m h (err already_exists) =
      (got m.location (err already_exists), inl refl, refl)
  read_entry-Ensures m h (err other) = (got m.location (err other), inl refl, refl)
  read_entry-Ensures m h (ok (err e)) = (got m.location (ok (err e)), inl refl, refl)
  read_entry-Ensures m h (ok (ok bytes)) = decoded (X.decode bytes) refl
    where
      named :
          (file : EpochFile)
          → X.decode bytes ≡ some file
          → (e : Option Epoch) → epoch_of m ≡ e
          → OkOr (ReadAs m) Blamed (got m.location (ok (ok bytes)) ∷ h) (entry_named m file e)
      named file read none is = inr is
      named file read (some e) is =
          (record { bytes = bytes; answered = inl refl; decoded = read; named = is }, refl)

      decoded :
          (f : Option EpochFile)
          → X.decode bytes ≡ f
          → OkOr (ReadAs m) Blamed (got m.location (ok (ok bytes)) ∷ h) (parse_entry m f)
      decoded none read = inl (m.location, bytes, inl refl, read)
      decoded (some file) read = named file read (epoch_of m) refl
