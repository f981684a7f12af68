-- ===== src/Lock/Acquisition/Reads.antt =====
-- Listing, reading, and the search for the first file that can be read, as steps of larger programs.
use bepository.Prelude.{Option, none, some, [], ◌∷◌, ◌≡◌, ◌⊎◌, inl, inr}
use bepository.Lock.Calls.{Packages, ObjectMeta, Fallible, ◌>>?◌}
use bepository.Lock.Calls.Logic.{History, Ensures, Extends, OkOr, OkOr-map, Ensures->>?}
use bepository.Lock.Protocol.{Lock, EpochEntry, Metas, read_entry, list_epoch_metas}
use bepository.Lock.Protocol.Entries.{
  Blamed, IsRead, IsRead-Extends, Gone, ReadAs, IsListed, read_entry-Ensures,
  list_epoch_metas-Ensures,
}
use bepository.Lock.Protocol.Claim.{MayDelete, CanPanic}
use bepository.Lock.Acquisition.{first_readable_entry, found_or}

module _ {X : Packages} where
  abbrev pub AllMetas : (ObjectMeta X → Type 0) → Metas X → Type 0
  AllMetas P [] = Unit {0}
  AllMetas P (m ∷ metas) = P m × AllMetas P metas

  pub AllMetas-map :
      {P Q : ObjectMeta X → Type 0} (metas : Metas X)
      → ((m : ObjectMeta X) → P m → Q m)
      → AllMetas P metas
      → AllMetas Q metas
  AllMetas-map [] f all = tt
  AllMetas-map (m ∷ metas) f (p, all) = (f m p, AllMetas-map metas f all)

  pub Gone-Extends : (h h' : History X) (m : ObjectMeta X) → Extends h h' → Gone h m → Gone h' m
  Gone-Extends h h' m ext (inl gone) = inl (ext _ gone)
  Gone-Extends h h' m ext (inr named) = inr named

  -- The first of the files that could be read, those before it being gone; or all are gone.
  abbrev pub FirstOf : Metas X → History X → Option (EpochEntry X) → Type 0
  FirstOf metas h none = AllMetas (Gone h) metas
  FirstOf [] h (some entry) = ⊥
  FirstOf (m ∷ metas) h (some entry) =
      (IsRead h entry × (entry.meta ≡ m)) ⊎ (Gone h m × FirstOf metas h (some entry))

  pub FirstOf-IsRead :
      (metas : Metas X) (h : History X) (entry : EpochEntry X)
      → FirstOf metas h (some entry)
      → IsRead h entry
  FirstOf-IsRead [] h entry first = absurd first
  FirstOf-IsRead (m ∷ metas) h entry (inl (read, same)) = read
  FirstOf-IsRead (m ∷ metas) h entry (inr (gone, first)) = FirstOf-IsRead metas h entry first

  pub FirstOf-Extends :
      (metas : Metas X) (h h' : History X) (o : Option (EpochEntry X))
      → Extends h h'
      → FirstOf metas h o
      → FirstOf metas h' o
  FirstOf-Extends metas h h' none ext all = AllMetas-map metas (λ m. Gone-Extends h h' m ext) all
  FirstOf-Extends [] h h' (some entry) ext first = first
  FirstOf-Extends (m ∷ metas) h h' (some entry) ext (inl (read, same)) =
      inl (IsRead-Extends h h' entry ext read, same)
  FirstOf-Extends (m ∷ metas) h h' (some entry) ext (inr (gone, first)) =
      inr (Gone-Extends h h' m ext gone, FirstOf-Extends metas h h' (some entry) ext first)

  module _ (self : Lock X) (Spends : History X → Type 0) where
    abbrev pub Keeps : {A : Type 0} → (History X → A → Type 0) → History X → Fallible X A → Type 0
    Keeps P h m = Ensures (MayDelete self) CanPanic Spends (OkOr P Blamed) h m

    -- Reading a file, and what is done with it.
    pub read_entry-Keeps :
        {A : Type 0} (P : History X → A → Type 0) (m : ObjectMeta X)
        (f : Option (EpochEntry X) → Fallible X A) (h : History X)
        → ((h' : History X) (o : Option (EpochEntry X))
            → Extends h h'
            → ReadAs m h' o
            → Keeps P h' (f o))
        → Keeps P h (read_entry m >>? f)
    read_entry-Keeps P m f h next =
        Ensures->>? (MayDelete self) CanPanic Spends (ReadAs m) (OkOr P Blamed) (read_entry m) f h
          (read_entry-Ensures (MayDelete self) CanPanic Spends m h) next

    pub list_epoch_metas-Keeps :
        {A : Type 0} (P : History X → A → Type 0) (f : Metas X → Fallible X A) (h : History X)
        → ((h' : History X) (metas : Metas X)
            → Extends h h'
            → IsListed h' metas
            → Keeps P h' (f metas))
        → Keeps P h (list_epoch_metas >>? f)
    list_epoch_metas-Keeps P f h next =
        Ensures->>? (MayDelete self) CanPanic Spends IsListed (OkOr P Blamed) list_epoch_metas f h
          (list_epoch_metas-Ensures (MayDelete self) CanPanic Spends h) next

    pub first_readable_entry-Keeps :
        (metas : Metas X) (h : History X) → Keeps (FirstOf metas) h (first_readable_entry metas)
    unfolding first_readable_entry
    first_readable_entry-Keeps [] h = tt
    first_readable_entry-Keeps (m ∷ metas) h =
        read_entry-Keeps (FirstOf (m ∷ metas)) m (found_or (first_readable_entry metas)) h
          (next (first_readable_entry-Keeps metas))
      where
        prepend :
            (h' h'' : History X) (o : Option (EpochEntry X))
            → Gone h' m
            → Extends h' h''
            → FirstOf metas h'' o
            → FirstOf (m ∷ metas) h'' o
        prepend h' h'' none gone ext all = (Gone-Extends h' h'' m ext gone, all)
        prepend h' h'' (some entry) gone ext first = inr (Gone-Extends h' h'' m ext gone, first)

        next :
            ((h' : History X) → Keeps (FirstOf metas) h' (first_readable_entry metas))
            → (h' : History X) (o : Option (EpochEntry X)) → Extends h h'
            → ReadAs m h' o
            → Keeps (FirstOf (m ∷ metas)) h' (found_or (first_readable_entry metas) o)
        next rest h' none ext gone =
            OkOr-map (MayDelete self) CanPanic Spends (FirstOf metas) (FirstOf (m ∷ metas)) Blamed
              (first_readable_entry metas) h' (rest h')
              (λ h'' o ext' first. prepend h' h'' o gone ext' first)
        next rest h' (some entry) ext read = inl read
