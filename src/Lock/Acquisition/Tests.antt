-- ===== src/Lock/Acquisition/Tests.antt =====
-- The lock on a store in memory, and the theorems at it.
use bepository.Prelude.{
  ℕ, ◌+◌, ◌≤◌, Bytes, codes, Bool, Option, none, some, List, [], ◌∷◌, ◌++◌, Result, ok, err, ◌≡◌,
  refl, leb, ltb, i64_max, ◌/◌, bytes_eq, length, if◌then◌else◌,
}
use bepository.Lock.Base32.{digit, to_base32, from_base32}
use bepository.Lock.Epoch.{Epoch, new, parse}
use bepository.Lock.Calls.{
  StoreError, not_found, already_exists, EpochFile, Packages, Body, Error, ◌>>?◌,
}
use bepository.Lock.Calls.Logic.{
  listed, got, created, headed, deleted, read_clock, History, Ensures, OkOr,
}
use bepository.Lock.Calls.Run.{Answers, Ending, returned, run}
use bepository.Lock.Protocol.{
  AcquisitionStatus, owner, queued, not_owner, Lock, Metas, partition_around, put_next_epoch,
  read_entry, expires_at,
}
use bepository.Lock.Protocol.Entries.{Blamed}
use bepository.Lock.Protocol.Claim.{
  IsOwn, MayDelete, CanPanic, ClaimedNext, conflicts, put_next_epoch_sound,
}
use bepository.Lock.Acquisition.{is_below, acquire, release, unsafe_break_locks}
use bepository.Lock.Acquisition.Acquire.{Outcome, acquire_sound}
use bepository.Lock.Acquisition.Break.{MayBreak, IsBroken, unsafe_break_locks_sound}
use bepository.Lock.Acquisition.Partition.{
  is_mine, is_above, filter_metas, any_meta, partition_around-eq-filter,
}
use bepository.Lock.Acquisition.Release.{MayRelease, Never, IsReleased, release_sound}

-- A path is its parts, the last one first.
abbrev filename_of : List Bytes → Option Bytes
filename_of [] = none
filename_of (s ∷ p) = some s

abbrev text_of : List Bytes → Bytes
text_of [] = []
text_of (s ∷ p) = text_of p ++ codes "/" ++ s

abbrev decode_file : Bytes → Option EpochFile
decode_file [] = none
decode_file (p ∷ []) = none
decode_file (p ∷ d ∷ holder) = some (record { holder = holder; priority = p; duration = d })

abbrev packages : Packages
packages = record {
  FilePath = List Bytes;
  text = text_of;
  filename = filename_of;
  join = λ p s. s ∷ p;
  filename-join = λ p s. refl;
  encode = λ file. some (file.priority ∷ file.duration ∷ file.holder);
  decode = decode_file;
  Time = ℕ;
  at_most = leb;
  Delta = ℕ;
  seconds = λ d. if ltb d (i64_max / 1000) then some d else none;
  checked_add = λ t d. some (t + d);
  max_utc = i64_max;
}

abbrev same_path : List Bytes → List Bytes → Bool
same_path p q = bytes_eq (text_of p) (text_of q)

-- The files of a store: a path, what is in it, and when it was made.
abbrev Files : Type 0
Files = List (List Bytes × Bytes × ℕ)

abbrev without : List Bytes → Files → Files
without p [] = []
without p ((q, b, t) ∷ files) =
    let rest = without p files in if same_path q p then rest else (q, b, t) ∷ rest

-- The files after the calls; a file is made at the second that is the number of calls before it.
abbrev files_after : Files → History packages → Files
files_after files [] = files
files_after files (created p b (ok _) ∷ h) = (p, b, 100 + length h) ∷ files_after files h
files_after files (created p b (err _) ∷ h) = files_after files h
files_after files (deleted p _ ∷ h) = without p (files_after files h)
files_after files (listed _ ∷ h) = files_after files h
files_after files (got _ _ ∷ h) = files_after files h
files_after files (headed _ _ ∷ h) = files_after files h
files_after files (read_clock _ ∷ h) = files_after files h

abbrev found_at : List Bytes → Files → Option (Bytes × ℕ)
found_at p [] = none
found_at p ((q, b, t) ∷ files) = if same_path q p then some (b, t) else found_at p files

abbrev metas_of : Files → Metas packages
metas_of [] = []
metas_of ((p, b, t) ∷ files) = record { location = p; last_modified = t } ∷ metas_of files

abbrev get_of : Option (Bytes × ℕ) → Body
get_of none = err not_found
get_of (some (b, t)) = ok (ok b)

abbrev head_of : Option (Bytes × ℕ) → Result StoreError ℕ
head_of none = err not_found
head_of (some (b, t)) = ok t

abbrev create_of : Option (Bytes × ℕ) → Result StoreError (Unit {0})
create_of none = ok tt
create_of (some _) = err already_exists

-- A store in memory that nobody else uses.
abbrev memory : Files → Answers packages
memory files = record {
  to_list = λ h. ok (metas_of (files_after files h));
  to_get = λ h p. get_of (found_at p (files_after files h));
  to_create = λ h p b. create_of (found_at p (files_after files h));
  to_head = λ h p. head_of (found_at p (files_after files h));
  to_delete = λ h p. ok tt;
  to_now = λ h. 100 + length h;
}

abbrev alice : Lock packages
alice = record { prefix = codes "locks" ∷ []; holder = codes "alice"; priority = 1; duration = 60 }

-- A file of Bob's with his priority and when it was made.
abbrev file_of_bob : ℕ → ℕ → List Bytes × Bytes × ℕ
file_of_bob priority made =
    (codes "00000004.json" ∷ codes "locks" ∷ [], priority ∷ 60 ∷ codes "bob", made)

abbrev statuses : Ending (Result Error AcquisitionStatus) → Option AcquisitionStatus
statuses (returned (ok status)) = some status
statuses (returned (err _)) = none
statuses _ = none

-- How Alice fares in a store with these files.
abbrev status_of : Files → Option AcquisitionStatus
status_of files = statuses (run (memory files) [] (acquire alice 3)).0

acquire_alone : status_of [] ≡ some (owner (record { val = 0; base32 = codes "00000000" }))
unfolding run acquire put_next_epoch digit ◌>>?◌ new to_base32 parse from_base32 read_entry
    expires_at
acquire_alone = refl

acquire_behind_expired :
    status_of (file_of_bob 5 10 ∷ []) ≡ some (owner (record { val = 5; base32 = codes "00000005" }))
unfolding run acquire put_next_epoch digit ◌>>?◌ new to_base32 parse from_base32 read_entry
    expires_at
acquire_behind_expired = refl

acquire_behind_fresh : status_of (file_of_bob 1 90 ∷ []) ≡ some not_owner
unfolding run acquire put_next_epoch digit ◌>>?◌ new to_base32 parse from_base32 read_entry
    expires_at
acquire_behind_fresh = refl

acquire_behind_minor : status_of (file_of_bob 0 90 ∷ []) ≡ some queued
unfolding run acquire put_next_epoch digit ◌>>?◌ new to_base32 parse from_base32 read_entry
    expires_at
acquire_behind_minor = refl

acquire_sound_example :
    Ensures
      (MayDelete alice)
      CanPanic
      (λ h. 3 ≤ conflicts h)
      (OkOr (Outcome alice) Blamed)
      []
      (acquire alice 3)
acquire_sound_example = acquire_sound alice 3

put_next_epoch_sound_example :
    Ensures IsOwn
      (λ h. ⊥)
      (λ h. 3 ≤ conflicts h)
      (OkOr (ClaimedNext alice) Blamed)
      []
      (put_next_epoch alice 3 (record { holder = codes "alice"; priority = 1; duration = 60 }))
put_next_epoch_sound_example =
    put_next_epoch_sound alice 3 (record { holder = codes "alice"; priority = 1; duration = 60 })

release_sound_example :
    Ensures
      (MayRelease alice)
      (Never alice)
      (Never alice)
      (OkOr (IsReleased alice) Blamed)
      []
      (release alice)
release_sound_example = release_sound alice

unsafe_break_locks_sound_example :
    Ensures MayBreak CanPanic
      (λ h. 3 ≤ conflicts h)
      (OkOr (IsBroken alice 3) Blamed)
      []
      (unsafe_break_locks alice 3)
unsafe_break_locks_sound_example = unsafe_break_locks_sound alice 3

abbrev metas_of_both : Metas packages
metas_of_both =
    metas_of (file_of_bob 1 90 ∷ ((codes "00000005.json" ∷ codes "locks" ∷ []), [], 95) ∷ [])

abbrev epoch_five : Epoch
epoch_five = record { val = 5; base32 = codes "00000005" }

partition_around-eq-filter_example : partition_around metas_of_both epoch_five ≡ (
  filter_metas (is_below epoch_five) metas_of_both,
  any_meta (is_mine epoch_five) metas_of_both,
  filter_metas (is_above epoch_five) metas_of_both,
)
partition_around-eq-filter_example = partition_around-eq-filter metas_of_both epoch_five

no_conflicts : conflicts (run (memory (file_of_bob 5 10 ∷ [])) [] (acquire alice 3)).1 ≡ 0
unfolding run acquire put_next_epoch digit ◌>>?◌ new to_base32 parse from_base32 read_entry
    expires_at
no_conflicts = refl
