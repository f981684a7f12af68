-- ===== src/Lock/Acquisition/Scavenge.antt =====
-- bepository-lock/src/lib.rs, `scavenge_below`: what it may delete, and what its flag says.
use bepository.Prelude.{
  Bool, true, false, ◌||◌, Option, none, some, [], ◌∷◌, ◌≡◌, refl, inl, inr, if◌then◌else◌,
  and_then,
}
use bepository.Lock.Epoch.{Epoch, before}
use bepository.Lock.Calls.{Packages, Fallible}
use bepository.Lock.Calls.Logic.{deleted, History, Extends}
use bepository.Lock.Protocol.{
  Lock, EpochEntry, expires_at, is_expired_at, is_owned_by, earlier, epoch_of, Metas,
  best_effort_delete,
}
use bepository.Lock.Protocol.Entries.{IsRead, IsRead-Extends, ReadAs}
use bepository.Lock.Protocol.Claim.{IsClaimTime, IsClaimTime-Extends, IsStale}
use bepository.Lock.Acquisition.{
  is_below, take_below, judge_entry, scavenge_entry, scavenge_loop, scavenge_below,
}
use bepository.Lock.Acquisition.Reads.{AllMetas, Keeps, read_entry-Keeps, list_epoch_metas-Keeps}

module _ {X : Packages} where
  -- A file below ours that is younger than our claim.
  abbrev pub IsRegressed : Epoch → X.Time → History X → Type 0
  IsRegressed mine ts h =
      (entry : EpochEntry X) × IsRead h entry
      × (before entry.epoch mine ≡ true)
      × (earlier X ts entry.meta.last_modified ≡ true)

  -- What the flag of the scavenging says.
  abbrev pub Regressed : Epoch → X.Time → History X → Bool → Type 0
  Regressed mine ts h true = IsRegressed mine ts h
  Regressed mine ts h false = Unit {0}

  pub Regressed-Extends :
      (mine : Epoch) (ts : X.Time) (h h' : History X) (b : Bool)
      → Extends h h'
      → Regressed mine ts h b
      → Regressed mine ts h' b
  Regressed-Extends mine ts h h' true ext (entry, read, below, later) =
      (entry, IsRead-Extends h h' entry ext read, below, later)
  Regressed-Extends mine ts h h' false ext is = tt

  module _ (self : Lock X) (Spends : History X → Type 0) where
    -- The rest of the scavenging, from a state where the flag is right.
    abbrev RestKeeps : Epoch → X.Time → (Bool → Fallible X Bool) → Type 0
    RestKeeps mine ts loop =
        (h : History X) (b : Bool)
        → IsClaimTime h ts
        → Regressed mine ts h b
        → Keeps self Spends (Regressed mine ts) h (loop b)

    judge_entry-Keeps :
        (mine : Epoch) (ts : X.Time) (loop : Bool → Fallible X Bool) (b : Bool)
        (entry : EpochEntry X) (h : History X)
        → RestKeeps mine ts loop
        → IsClaimTime h ts
        → Regressed mine ts h b
        → IsRead h entry
        → before entry.epoch mine ≡ true
        → (o : Option X.Time) → expires_at entry ≡ o
        → Keeps self Spends
            (Regressed mine ts)
            h
            (judge_entry self ts loop b entry (and_then o λ expiry. some (X.at_most expiry ts)))
    judge_entry-Keeps mine ts loop b entry h rest at regressed read below none is =
        (entry, read, is)
    judge_entry-Keeps mine ts loop b entry h rest at regressed read below (some expiry) is =
        judged (X.at_most expiry ts) refl (is_owned_by entry self.holder) refl
      where
        expired : X.at_most expiry ts ≡ true → is_expired_at entry ts ≡ some true
        expired e = cc

        scavenged :
            IsStale self h entry
            → Keeps self Spends
                (Regressed mine ts)
                h
                (best_effort_delete entry.meta.location (loop b))
        scavenged stale = (
          inr (entry, refl, stale),
          λ r.
              let h' = deleted entry.meta.location r ∷ h in
              rest h' b (IsClaimTime-Extends h h' ts (λ e. inr) at)
                (Regressed-Extends mine ts h h' b (λ e. inr) regressed),
        )

        kept :
            (later : Bool)
            → earlier X ts entry.meta.last_modified ≡ later
            → Keeps self Spends (Regressed mine ts) h (loop (if later then true else b))
        kept true is_later = rest h true at (entry, read, below, is_later)
        kept false is_later = rest h b at regressed

        judged :
            (e : Bool)
            → X.at_most expiry ts ≡ e
            → (own : Bool) → is_owned_by entry self.holder ≡ own
            → Keeps self Spends (Regressed mine ts) h (
                if e || own
                then best_effort_delete entry.meta.location (loop b)
                else loop (if earlier X ts entry.meta.last_modified then true else b))
        judged true e own o = scavenged (read, inr (ts, at, expired e))
        judged false e true o = scavenged (read, inl o)
        judged false e false o = kept (earlier X ts entry.meta.last_modified) refl

    abbrev AllBelow : Epoch → Metas X → Type 0
    AllBelow mine = AllMetas (λ m. is_below mine (epoch_of m) ≡ true)

    take_below-AllBelow : (mine : Epoch) (metas : Metas X) → AllBelow mine (take_below mine metas)
    unfolding take_below
    take_below-AllBelow mine [] = tt
    take_below-AllBelow mine (m ∷ metas) =
        taken (take_below-AllBelow mine metas) (is_below mine (epoch_of m)) refl
      where
        taken :
            AllBelow mine (take_below mine metas)
            → (b : Bool) → is_below mine (epoch_of m) ≡ b
            → AllBelow mine (if b then m ∷ take_below mine metas else [])
        taken all true is = (is, all)
        taken all false is = tt

    scavenge_loop-Keeps :
        (mine : Epoch) (ts : X.Time) (metas : Metas X)
        → AllBelow mine metas
        → RestKeeps mine ts (scavenge_loop self ts metas)
    unfolding scavenge_loop
    scavenge_loop-Keeps mine ts [] all h b at regressed = regressed
    scavenge_loop-Keeps mine ts (m ∷ metas) (below, all) h b at regressed =
        read_entry-Keeps self Spends (Regressed mine ts) m
          (scavenge_entry self ts (scavenge_loop self ts metas) b) h
          (next (scavenge_loop-Keeps mine ts metas all))
      where
        next :
            RestKeeps mine ts (scavenge_loop self ts metas)
            → (h' : History X) (o : Option (EpochEntry X)) → Extends h h'
            → ReadAs m h' o
            → Keeps self Spends
                (Regressed mine ts)
                h'
                (scavenge_entry self ts (scavenge_loop self ts metas) b o)
        next rest h' none ext gone =
            rest h' b (IsClaimTime-Extends h h' ts ext at)
              (Regressed-Extends mine ts h h' b ext regressed)
        next rest h' (some entry) ext (read, same) =
            judge_entry-Keeps mine ts (scavenge_loop self ts metas) b entry h' rest
              (IsClaimTime-Extends h h' ts ext at) (Regressed-Extends mine ts h h' b ext regressed)
              read (cc (read.named)) (expires_at entry) refl

    pub scavenge_below-Keeps :
        (mine : Epoch) (ts : X.Time) (h : History X)
        → IsClaimTime h ts
        → Keeps self Spends (Regressed mine ts) h (scavenge_below self ts mine)
    unfolding scavenge_below
    scavenge_below-Keeps mine ts h at =
        list_epoch_metas-Keeps self Spends (Regressed mine ts)
          (λ metas. scavenge_loop self ts (take_below mine metas) false) h
          λ h' metas ext listed.
            scavenge_loop-Keeps mine ts (take_below mine metas) (take_below-AllBelow mine metas) h'
              false (IsClaimTime-Extends h h' ts ext at) tt
