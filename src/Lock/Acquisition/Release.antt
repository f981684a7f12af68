-- ===== src/Lock/Acquisition/Release.antt =====
-- bepository-lock/src/lib.rs, `release`: which files it may delete, and what it leaves.
use bepository.Prelude.{
  Bool, true, false, Option, none, some, [], ◌∷◌, ◌≡◌, refl, ap, ◌⊎◌, inl, inr, if◌then◌else◌,
}
use bepository.Lock.Calls.{Packages, ObjectMeta, Fallible}
use bepository.Lock.Calls.Logic.{deleted, History, Ensures, Extends, OkOr, OkOr-map, Ensures->>?}
use bepository.Lock.Protocol.{
  Lock, EpochEntry, is_owned_by, Metas, read_entry, list_epoch_metas, best_effort_delete,
}
use bepository.Lock.Protocol.Entries.{
  Blamed, IsRead, IsRead-Extends, Gone, ReadAs, IsListed, IsListed-Extends, read_entry-Ensures,
  list_epoch_metas-Ensures,
}
use bepository.Lock.Acquisition.{release_entry, release_loop, release}
use bepository.Lock.Acquisition.Reads.{AllMetas, Gone-Extends}
use bepository.Lock.Acquisition.Verify.{IsDeleted}

module _ {X : Packages} (self : Lock X) where
  -- A file that was read and is of this holder.
  abbrev pub MayRelease : History X → X.FilePath → Type 0
  MayRelease h p =
      (entry : EpochEntry X) × (entry.meta.location ≡ p)
      × IsRead h entry
      × (is_owned_by entry self.holder ≡ true)

  abbrev pub Never : History X → Type 0
  Never h = ⊥

  -- A file that was deleted, was gone, or is of another holder.
  abbrev pub Released : History X → ObjectMeta X → Type 0
  Released h m =
      IsDeleted self h m.location
      ⊎ Gone h m
      ⊎ ((entry : EpochEntry X) × IsRead h entry
          × (entry.meta ≡ m)
          × (is_owned_by entry self.holder ≡ false))

  abbrev Releases : {A : Type 0} → (History X → A → Type 0) → History X → Fallible X A → Type 0
  Releases P h m = Ensures MayRelease Never Never (OkOr P Blamed) h m

  abbrev AllReleased : Metas X → History X → Unit {0} → Type 0
  AllReleased metas h _ = AllMetas (Released h) metas

  Released-Extends :
      (h h' : History X) (m : ObjectMeta X) → Extends h h' → Released h m → Released h' m
  Released-Extends h h' m ext (inl (r, happened)) = inl (r, ext _ happened)
  Released-Extends h h' m ext (inr (inl gone)) = inr (inl (Gone-Extends h h' m ext gone))
  Released-Extends h h' m ext (inr (inr (entry, read, same, foreign))) =
      inr (inr (entry, IsRead-Extends h h' entry ext read, same, foreign))

  release_loop-Releases :
      (metas : Metas X) (h : History X) → Releases (AllReleased metas) h (release_loop self metas)
  unfolding release_loop
  release_loop-Releases [] h = tt
  release_loop-Releases (m ∷ metas) h =
      Ensures->>? MayRelease Never Never (ReadAs m) (OkOr (AllReleased (m ∷ metas)) Blamed)
        (read_entry m) (release_entry self rest) h (read_entry-Ensures MayRelease Never Never m h)
        (next (release_loop-Releases metas))
    where
      rest : Fallible X (Unit {0})
      rest = release_loop self metas

      go_on :
          ((h' : History X) → Releases (AllReleased metas) h' rest)
          → (h' : History X) → Released h' m
          → Releases (AllReleased (m ∷ metas)) h' rest
      go_on keeps h' released =
          OkOr-map MayRelease Never Never (AllReleased metas) (AllReleased (m ∷ metas)) Blamed rest
            h' (keeps h') λ h'' _ ext all. (Released-Extends h' h'' m ext released, all)

      by_owner :
          ((h' : History X) → Releases (AllReleased metas) h' rest)
          → (h' : History X) (entry : EpochEntry X) → IsRead h' entry
          → entry.meta ≡ m
          → (b : Bool) → is_owned_by entry self.holder ≡ b
          → Releases
              (AllReleased (m ∷ metas))
              h'
              (if b then best_effort_delete entry.meta.location rest else rest)
      by_owner keeps h' entry read same true own = (
        (entry, refl, read, own),
        λ r.
            go_on keeps (deleted entry.meta.location r ∷ h')
              (inl (r, inl (ap (λ (n : ObjectMeta X). deleted n.location r) same))),
      )
      by_owner keeps h' entry read same false foreign =
          go_on keeps h' (inr (inr (entry, read, same, foreign)))

      next :
          ((h' : History X) → Releases (AllReleased metas) h' rest)
          → (h' : History X) (o : Option (EpochEntry X)) → Extends h h'
          → ReadAs m h' o
          → Releases (AllReleased (m ∷ metas)) h' (release_entry self rest o)
      next keeps h' none ext gone = go_on keeps h' (inr (inl gone))
      next keeps h' (some entry) ext (read, same) =
          by_owner keeps h' entry read same (is_owned_by entry self.holder) refl

  -- The listing that `release` goes by, and what became of its files.
  abbrev pub IsReleased : History X → Unit {0} → Type 0
  IsReleased h _ = (metas : Metas X) × IsListed h metas × AllMetas (Released h) metas

  -- Whatever the store answers: `release` deletes no file but those it read that are of this holder; it
  -- does not panic; if it returns, it has tried to delete each listed file of this holder that it could
  -- read; an error is that of a call or of a text.
  pub release_sound : Ensures MayRelease Never Never (OkOr IsReleased Blamed) [] (release self)
  unfolding release
  release_sound =
      Ensures->>? MayRelease Never Never IsListed (OkOr IsReleased Blamed) list_epoch_metas
        (release_loop self) [] (list_epoch_metas-Ensures MayRelease Never Never [])
        λ h metas ext listing.
          OkOr-map MayRelease Never Never (AllReleased metas) IsReleased Blamed
            (release_loop self metas) h (release_loop-Releases metas h)
            λ h' _ ext' all. (metas, IsListed-Extends h h' metas ext' listing, all)
