-- ===== src/Lock/Acquisition/Yield.antt =====
-- The yield check: whether a file above ours outranks us.
use bepository.Prelude.{
  Bool, true, false, Option, none, some, [], ◌∷◌, ok, ◌≡◌, refl, ◌⊎◌, inl, inr, ltb, if◌then◌else◌,
}
use bepository.Lock.Epoch.{Epoch}
use bepository.Lock.Calls.{Packages, ObjectMeta, Fallible, done}
use bepository.Lock.Calls.Logic.{History, Extends, OkOr-map}
use bepository.Lock.Protocol.{Lock, EpochEntry, expires_at, earlier, epoch_of, Metas}
use bepository.Lock.Protocol.Entries.{Blamed, IsRead, IsRead-Extends, Gone, ReadAs}
use bepository.Lock.Protocol.Claim.{MayDelete, CanPanic}
use bepository.Lock.Acquisition.{outranks_until, yield_to, should_yield}
use bepository.Lock.Acquisition.Reads.{AllMetas, Gone-Extends, Keeps, read_entry-Keeps}
use bepository.Lock.Acquisition.Partition.{is_above}

module _ {X : Packages} (self : Lock X) (mine : Epoch) (ts : X.Time) where
  -- A file above ours has a higher priority and is not expired.
  pub record IsOutranked (h : History X) : Type 0 where
    pub entry : EpochEntry X
    pub read : IsRead h entry
    pub above : is_above mine (epoch_of entry.meta) ≡ true
    pub outranks : ltb self.priority entry.file.priority ≡ true
    pub expiry : X.Time
    pub expires : expires_at entry ≡ some expiry
    pub unexpired : earlier X ts expiry ≡ true

  pub IsOutranked-Extends : (h h' : History X) → Extends h h' → IsOutranked h → IsOutranked h'
  IsOutranked-Extends h h' ext o = record {
    entry = o.entry;
    read = IsRead-Extends h h' o.entry ext o.read;
    above = o.above;
    outranks = o.outranks;
    expiry = o.expiry;
    expires = o.expires;
    unexpired = o.unexpired;
  }

  -- A file that does not outrank us: it is gone, or was read and has no higher priority, or is expired.
  abbrev pub IsHarmless : EpochEntry X → Type 0
  IsHarmless entry =
      (ltb self.priority entry.file.priority ≡ false)
      ⊎ ((expiry : X.Time) × (expires_at entry ≡ some expiry) × (earlier X ts expiry ≡ false))

  abbrev pub Overruled : History X → ObjectMeta X → Type 0
  Overruled h m =
      Gone h m ⊎ ((entry : EpochEntry X) × IsRead h entry × (entry.meta ≡ m) × IsHarmless entry)

  abbrev pub YieldsAs : Metas X → History X → Bool → Type 0
  YieldsAs metas h true = IsOutranked h
  YieldsAs metas h false = AllMetas (Overruled h) metas

  Overruled-Extends :
      (h h' : History X) (m : ObjectMeta X) → Extends h h' → Overruled h m → Overruled h' m
  Overruled-Extends h h' m ext (inl gone) = inl (Gone-Extends h h' m ext gone)
  Overruled-Extends h h' m ext (inr (entry, read, same, harmless)) =
      inr (entry, IsRead-Extends h h' entry ext read, same, harmless)

  prepend :
      (m : ObjectMeta X) (metas : Metas X) (h h' : History X) (b : Bool)
      → Overruled h m
      → Extends h h'
      → YieldsAs metas h' b
      → YieldsAs (m ∷ metas) h' b
  prepend m metas h h' true over ext outranked = outranked
  prepend m metas h h' false over ext all = (Overruled-Extends h h' m ext over, all)

  module _ (Spends : History X → Type 0) where
    abbrev RestKeeps : Metas X → Fallible X Bool → Type 0
    RestKeeps metas m = (h : History X) → Keeps self Spends (YieldsAs metas) h m

    go_on :
        (m : ObjectMeta X) (metas : Metas X) (rest : Fallible X Bool) (h : History X)
        → RestKeeps metas rest
        → Overruled h m
        → Keeps self Spends (YieldsAs (m ∷ metas)) h rest
    go_on m metas rest h keeps over =
        OkOr-map (MayDelete self) CanPanic Spends (YieldsAs metas) (YieldsAs (m ∷ metas)) Blamed
          rest h (keeps h) (λ h' b ext q. prepend m metas h h' b over ext q)

    yield_to-Keeps :
        (m : ObjectMeta X) (metas : Metas X) (rest : Fallible X Bool) (h : History X)
        (entry : EpochEntry X)
        → RestKeeps metas rest
        → is_above mine (epoch_of m) ≡ true
        → IsRead h entry
        → entry.meta ≡ m
        → Keeps self Spends (YieldsAs (m ∷ metas)) h (yield_to self ts rest (some entry))
    yield_to-Keeps m metas rest h entry keeps above read same =
        ranked (ltb self.priority entry.file.priority) refl
      where
        timed :
            ltb self.priority entry.file.priority ≡ true
            → (expiry : X.Time) → expires_at entry ≡ some expiry
            → (b : Bool) → earlier X ts expiry ≡ b
            → Keeps self Spends (YieldsAs (m ∷ metas)) h (if b then done (ok true) else rest)
        timed rank expiry is true unexpired = record {
          entry = entry;
          read = read;
          above = cc;
          outranks = rank;
          expiry = expiry;
          expires = is;
          unexpired = unexpired;
        }
        timed rank expiry is false expired =
            go_on m metas rest h keeps (inr (entry, read, same, inr (expiry, is, expired)))

        expiring :
            ltb self.priority entry.file.priority ≡ true
            → (o : Option X.Time) → expires_at entry ≡ o
            → Keeps self Spends (YieldsAs (m ∷ metas)) h (outranks_until self ts rest o)
        expiring rank none is = (entry, read, is)
        expiring rank (some expiry) is = timed rank expiry is (earlier X ts expiry) refl

        ranked :
            (b : Bool)
            → ltb self.priority entry.file.priority ≡ b
            → Keeps self Spends
                (YieldsAs (m ∷ metas))
                h
                (if b then outranks_until self ts rest (expires_at entry) else rest)
        ranked true rank = expiring rank (expires_at entry) refl
        ranked false rank = go_on m metas rest h keeps (inr (entry, read, same, inl rank))

    pub should_yield-Keeps :
        (metas : Metas X) (h : History X)
        → AllMetas (λ m. is_above mine (epoch_of m) ≡ true) metas
        → Keeps self Spends (YieldsAs metas) h (should_yield self ts metas)
    unfolding should_yield
    should_yield-Keeps [] h all = tt
    should_yield-Keeps (m ∷ metas) h (above, all) =
        read_entry-Keeps self Spends (YieldsAs (m ∷ metas)) m
          (yield_to self ts (should_yield self ts metas)) h
          (next (λ h'. should_yield-Keeps metas h' all))
      where
        next :
            RestKeeps metas (should_yield self ts metas)
            → (h' : History X) (o : Option (EpochEntry X)) → Extends h h'
            → ReadAs m h' o
            → Keeps self Spends
                (YieldsAs (m ∷ metas))
                h'
                (yield_to self ts (should_yield self ts metas) o)
        next keeps h' none ext gone = go_on m metas (should_yield self ts metas) h' keeps (inl gone)
        next keeps h' (some entry) ext (read, same) =
            yield_to-Keeps m metas (should_yield self ts metas) h' entry keeps above read same
