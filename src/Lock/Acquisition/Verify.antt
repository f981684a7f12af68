-- ===== src/Lock/Acquisition/Verify.antt =====
-- `verify_ownership`: what each status says of the files that were listed and read.
use mathlib.Core.Path.{subst}
use bepository.Prelude.{
  Bool, true, false, Option, none, some, [], ◌∷◌, Result, ok, ◌≡◌, refl, ◌⊎◌, inl, inr, ltb, sym,
  if◌then◌else◌,
}
use bepository.Lock.Epoch.{Epoch, before}
use bepository.Lock.Calls.{StoreError, Packages, Fallible, done, ◌>>?◌}
use bepository.Lock.Calls.Logic.{deleted, History, Happened, Extends, OkOr, Ensures->>?}
use bepository.Lock.Protocol.{
  AcquisitionStatus, owner, queued, queued_backward_clock, yielded, failed, not_owner, Lock,
  EpochEntry, epoch_of, Metas, best_effort_delete, list_epoch_metas, partition_around,
}
use bepository.Lock.Protocol.Entries.{
  Blamed, IsRead, IsRead-Extends, Gone, IsListed, IsListed-Extends,
}
use bepository.Lock.Protocol.Claim.{IsClaimed, IsClaimed-Extends, MayDelete, CanPanic}
use bepository.Lock.Acquisition.{
  is_below, first_readable_entry, scavenge_below, should_yield, classify_loss, yield_or_own,
  verify_lowest, verify_partition, verify_ownership,
}
use bepository.Lock.Acquisition.Reads.{
  AllMetas, AllMetas-map, Gone-Extends, FirstOf, Keeps, list_epoch_metas-Keeps,
  first_readable_entry-Keeps,
}
use bepository.Lock.Acquisition.Scavenge.{
  IsRegressed, Regressed, Regressed-Extends, scavenge_below-Keeps,
}
use bepository.Lock.Acquisition.Partition.{
  is_mine, is_above, any_meta, filter_metas, partition_around-eq-filter, filter_metas-AllMetas,
  AllMetas-filter_metas,
}
use bepository.Lock.Acquisition.Yield.{
  IsOutranked, IsOutranked-Extends, Overruled, YieldsAs, should_yield-Keeps,
}

module _ {X : Packages} (self : Lock X) where
  -- Our file was listed after the claim, every listed file below it is gone, and none above it
  -- outranks us.
  pub record IsLowest (h : History X) (mine : Epoch) (ts : X.Time) : Type 0 where
    pub metas : Metas X
    pub listing : IsListed h metas
    pub present : any_meta (is_mine mine) metas ≡ true
    pub lowest : AllMetas (λ m. (is_below mine (epoch_of m) ≡ false) ⊎ Gone h m) metas
    pub unrivalled :
        AllMetas (λ m. (is_above mine (epoch_of m) ≡ false) ⊎ Overruled self mine ts h m) metas

  -- A file below ours is there.
  pub record IsBehind (h : History X) (mine : Epoch) : Type 0 where
    pub entry : EpochEntry X
    pub read : IsRead h entry
    pub below : before entry.epoch mine ≡ true

  -- Our file was not listed.
  abbrev pub IsMissing : History X → Epoch → Type 0
  IsMissing h mine = (metas : Metas X) × IsListed h metas × (any_meta (is_mine mine) metas ≡ false)

  abbrev pub IsDeleted : History X → X.FilePath → Type 0
  IsDeleted h p = (r : Result StoreError (Unit {0})) × Happened (deleted p r) h

  -- What a status says of our claim: `not_owner` is not said of one.
  abbrev pub Judged : Epoch → X.Time → X.FilePath → History X → AcquisitionStatus → Type 0
  Judged mine ts path h (owner e) = (e ≡ mine) × IsLowest h mine ts
  Judged mine ts path h queued =
      (b : IsBehind h mine) × (ltb b.entry.file.priority self.priority ≡ true)
  Judged mine ts path h queued_backward_clock = IsBehind h mine × IsRegressed mine ts h
  Judged mine ts path h yielded = IsDeleted h path × IsOutranked self mine ts h
  Judged mine ts path h failed =
      IsDeleted h path
      × (IsMissing h mine
          ⊎ ((b : IsBehind h mine) × (ltb b.entry.file.priority self.priority ≡ false)))
  Judged mine ts path h not_owner = ⊥

  first-IsBehind :
      (mine : Epoch) (metas : Metas X) (h : History X) (entry : EpochEntry X)
      → FirstOf metas h (some entry)
      → AllMetas (λ m. is_below mine (epoch_of m) ≡ true) metas
      → IsRead h entry × (before entry.epoch mine ≡ true)
  first-IsBehind mine [] h entry first all = absurd first
  first-IsBehind mine (m ∷ metas) h entry (inl (read, same)) (below, all) = (read, cc (read.named))
  first-IsBehind mine (m ∷ metas) h entry (inr (gone, first)) (below, all) =
      first-IsBehind mine metas h entry first all

  -- The claim, at the moment of the verification.
  module _ (Spends : History X → Type 0) (mine : Epoch) (ts : X.Time) (path : X.FilePath) where
    abbrev Verifies : History X → Fallible X AcquisitionStatus → Type 0
    Verifies h m = Keeps self Spends (Judged mine ts path) h m

    classify_loss-Verifies :
        (regression : Bool) (h : History X) (b : IsBehind h mine)
        → IsClaimed self h mine ts path
        → Regressed mine ts h regression
        → Verifies h (classify_loss self b.entry regression path)
    unfolding classify_loss
    classify_loss-Verifies true h b claimed regressed = (b, regressed)
    classify_loss-Verifies false h b claimed regressed =
        ranked (ltb b.entry.file.priority self.priority) refl
      where
        ranked :
            (r : Bool)
            → ltb b.entry.file.priority self.priority ≡ r
            → Verifies h
                (if r then done (ok queued) else best_effort_delete path (done (ok failed)))
        ranked true is = (b, is)
        ranked false is = (
          inl claimed.own,
          λ r. (
            (r, inl refl),
            inr (
              record {
                entry = b.entry;
                read = IsRead-Extends h (deleted path r ∷ h) b.entry (λ e. inr) b.read;
                below = b.below;
              },
              is,
            ),
          ),
        )

    verify_lowest-Verifies :
        (metas : Metas X) (regression : Bool) (o : Option (EpochEntry X)) (h : History X)
        → IsClaimed self h mine ts path
        → Regressed mine ts h regression
        → IsListed h metas
        → any_meta (is_mine mine) metas ≡ true
        → FirstOf (filter_metas (is_below mine) metas) h o
        → Verifies h
            (verify_lowest self mine ts path regression (filter_metas (is_above mine) metas) o)
    verify_lowest-Verifies metas regression (some entry) h claimed regressed listing present first =
        let (read, below) =
          first-IsBehind mine (filter_metas (is_below mine) metas) h entry first
            (filter_metas-AllMetas (is_below mine) metas) in
        classify_loss-Verifies regression h (record { entry = entry; read = read; below = below })
          claimed regressed
    verify_lowest-Verifies metas regression none h claimed regressed listing present gone =
        Ensures->>? (MayDelete self) CanPanic Spends (YieldsAs self mine ts higher)
          (OkOr (Judged mine ts path) Blamed) (should_yield self ts higher)
          (yield_or_own self mine path) h
          (should_yield-Keeps self mine ts Spends higher h
            (filter_metas-AllMetas (is_above mine) metas))
          decided
      where
        higher : Metas X
        higher = filter_metas (is_above mine) metas

        decided :
            (h' : History X) (b : Bool)
            → Extends h h'
            → YieldsAs self mine ts higher h' b
            → Verifies h' (yield_or_own self mine path b)
        decided h' true ext outranked = (
          inl (claimed.own.0, ext _ claimed.own.1),
          λ r. (
            (r, inl refl),
            IsOutranked-Extends self mine ts h' (deleted path r ∷ h') (λ e. inr) outranked,
          ),
        )
        decided h' false ext all = (
          refl,
          record {
            metas = metas;
            listing = IsListed-Extends h h' metas ext listing;
            present = present;
            lowest = AllMetas-filter_metas (Gone h') (is_below mine) metas (
                AllMetas-map (filter_metas (is_below mine) metas) (λ m. Gone-Extends h h' m ext)
                  gone);
            unrivalled =
                AllMetas-filter_metas (Overruled self mine ts h') (is_above mine) metas all;
          },
        )

    verify_partition-Verifies :
        (metas : Metas X) (regression : Bool) (h : History X)
        → IsClaimed self h mine ts path
        → Regressed mine ts h regression
        → IsListed h metas
        → (present : Bool) → any_meta (is_mine mine) metas ≡ present
        → Verifies h (
            verify_partition self mine ts path regression
              (filter_metas (is_below mine) metas, present, filter_metas (is_above mine) metas))
    verify_partition-Verifies metas regression h claimed regressed listing false absent = (
      inl claimed.own,
      λ r. (
        (r, inl refl),
        inl (metas, IsListed-Extends h (deleted path r ∷ h) metas (λ e. inr) listing, absent),
      ),
    )
    verify_partition-Verifies metas regression h claimed regressed listing true present =
        Ensures->>? (MayDelete self) CanPanic Spends (FirstOf lower)
          (OkOr (Judged mine ts path) Blamed) (first_readable_entry lower)
          (verify_lowest self mine ts path regression (filter_metas (is_above mine) metas)) h
          (first_readable_entry-Keeps self Spends lower h)
          (λ h' o ext first.
            verify_lowest-Verifies metas regression o h'
              (IsClaimed-Extends self h h' mine ts path ext claimed)
              (Regressed-Extends mine ts h h' regression ext regressed)
              (IsListed-Extends h h' metas ext listing) present first)
      where
        lower : Metas X
        lower = filter_metas (is_below mine) metas

    pub verify_ownership-Verifies :
        (h : History X)
        → IsClaimed self h mine ts path
        → Verifies h (verify_ownership self mine ts path)
    unfolding verify_ownership
    verify_ownership-Verifies h claimed =
        Ensures->>? (MayDelete self) CanPanic Spends (Regressed mine ts)
          (OkOr (Judged mine ts path) Blamed) (scavenge_below self ts mine) verified h
          (scavenge_below-Keeps self Spends mine ts h (path, claimed.own, claimed.time)) relisted
      where
        verified : Bool → Fallible X AcquisitionStatus
        verified regression = list_epoch_metas >>? λ metas.
            verify_partition self mine ts path regression (partition_around metas mine)

        relisted :
            (h' : History X) (regression : Bool)
            → Extends h h'
            → Regressed mine ts h' regression
            → Verifies h' (verified regression)
        relisted h' regression ext regressed =
            list_epoch_metas-Keeps self Spends (Judged mine ts path)
              (λ metas. verify_partition self mine ts path regression (partition_around metas mine))
              h'
              λ h'' metas ext' listing.
                subst (λ p. Verifies h'' (verify_partition self mine ts path regression p))
                  (sym (partition_around-eq-filter metas mine))
                  (verify_partition-Verifies metas regression h''
                    (IsClaimed-Extends self h h'' mine ts path
                      (λ e happened. ext' e (ext e happened)) claimed)
                    (Regressed-Extends mine ts h' h'' regression ext' regressed) listing
                    (any_meta (is_mine mine) metas) refl)
