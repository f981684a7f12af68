-- ===== src/Lock/Acquisition/Break.antt =====
-- bepository-lock/src/lib.rs, `unsafe_break_locks`: which files it may delete, and what it leaves.
use bepository.Prelude.{
  ℕ, Bytes, Bool, true, false, Option, none, some, [], ◌∷◌, Result, ok, err, ◌≡◌, refl, ◌⊎◌, inl,
  inr, ◌≤◌, and_then, if◌then◌else◌,
}
use bepository.Lock.Epoch.{Epoch}
use bepository.Lock.Calls.{
  StoreError, not_found, already_exists, other, EpochFile, Packages, ObjectMeta, Body, Fallible,
  Error, get, bind,
}
use bepository.Lock.Calls.Logic.{
  got, deleted, History, Happened, Ensures, Extends, Extends-refl, OkOr, OkOr-map, Ensures-bind,
  Ensures->>?,
}
use bepository.Lock.Protocol.{
  Lock, EpochEntry, expires_at, is_expired_at, epoch_of, Metas, Claimed, same_epoch,
  list_epoch_metas, best_effort_delete, put_next_epoch,
}
use bepository.Lock.Protocol.Entries.{
  Blamed, Blamed-Extends, IsRead, IsRead-Extends, IsListed, IsListed-Extends,
  list_epoch_metas-Ensures,
}
use bepository.Lock.Protocol.Claim.{
  IsOwn, IsClaimTime, IsClaimTime-Extends, IsClaimed, IsClaimed-Extends, ClaimedAs, CanPanic,
  conflicts, put_next_epoch-Claims,
}
use bepository.Lock.Acquisition.{
  break_entry, break_file, break_body, break_meta, break_loop, break_listed, unsafe_break_locks,
}

module _ {X : Packages} where
  abbrev pub entry_of : ObjectMeta X → EpochFile → Epoch → EpochEntry X
  entry_of m file e = record { meta = m; file = file; epoch = e }

  -- A file was read that is not expired.
  abbrev pub IsActive : X.Time → History X → EpochEntry X → Type 0
  IsActive ts h entry = IsRead h entry × (is_expired_at entry ts ≡ some false)

  -- Why a file that was just read may be deleted: it is not in the format, or expired, or not the
  -- first one that is active.
  abbrev pub CanBreak : X.Time → History X → ObjectMeta X → Bytes → Type 0
  CanBreak ts h m bytes =
      (X.decode bytes ≡ none)
      ⊎ ((file : EpochFile) × (e : Epoch) × (X.decode bytes ≡ some file)
          × (epoch_of m ≡ some e)
          × ((is_expired_at (entry_of m file e) ts ≡ some true)
              ⊎ ((first : EpochEntry X) × IsActive ts h first)))

  abbrev pub MayBreak : History X → X.FilePath → Type 0
  MayBreak h p =
      IsOwn h p
      ⊎ ((ts : X.Time) × (h0 : History X) × (m : ObjectMeta X) × (bytes : Bytes) × (h
            ≡ got m.location (ok (ok bytes)) ∷ h0)
          × (m.location ≡ p)
          × IsClaimTime h0 ts
          × CanBreak ts h0 m bytes)

  -- A file that is not to be broken, or was.
  abbrev pub IsDealt : Epoch → History X → ObjectMeta X → Type 0
  IsDealt mine h m =
      ((r : Result StoreError (Unit {0})) × Happened (deleted m.location r) h)
      ⊎ Happened (got m.location (err not_found)) h
      ⊎ (epoch_of m ≡ none)
      ⊎ ((e : Epoch) × (epoch_of m ≡ some e) × (same_epoch e mine ≡ true))

  -- All files are dealt with but the first that is active: with `true` that one was met before.
  abbrev pub AllBroken : Epoch → X.Time → Metas X → Bool → History X → Type 0
  AllBroken mine ts [] found h = Unit {0}
  AllBroken mine ts (m ∷ metas) true h = IsDealt mine h m × AllBroken mine ts metas true h
  AllBroken mine ts (m ∷ metas) false h =
      (IsDealt mine h m × AllBroken mine ts metas false h)
      ⊎ (((entry : EpochEntry X) × IsActive ts h entry × (entry.meta ≡ m))
          × AllBroken mine ts metas true h)

  abbrev pub Found : X.Time → Bool → History X → Type 0
  Found ts true h = (first : EpochEntry X) × IsActive ts h first
  Found ts false h = Unit {0}

  IsDealt-Extends :
      (mine : Epoch) (h h' : History X) (m : ObjectMeta X)
      → Extends h h'
      → IsDealt mine h m
      → IsDealt mine h' m
  IsDealt-Extends mine h h' m ext (inl (r, happened)) = inl (r, ext _ happened)
  IsDealt-Extends mine h h' m ext (inr (inl gone)) = inr (inl (ext _ gone))
  IsDealt-Extends mine h h' m ext (inr (inr rest)) = inr (inr rest)

  pub Found-Extends :
      (ts : X.Time) (found : Bool) (h h' : History X)
      → Extends h h'
      → Found ts found h
      → Found ts found h'
  Found-Extends ts true h h' ext (first, (read, active)) =
      (first, (IsRead-Extends h h' first ext read, active))
  Found-Extends ts false h h' ext is = tt

  dealt_first :
      (mine : Epoch) (ts : X.Time) (m : ObjectMeta X) (metas : Metas X) (found : Bool)
      (h h' : History X)
      → IsDealt mine h m
      → Extends h h'
      → AllBroken mine ts metas found h'
      → AllBroken mine ts (m ∷ metas) found h'
  dealt_first mine ts m metas true h h' dealt ext all = (IsDealt-Extends mine h h' m ext dealt, all)
  dealt_first mine ts m metas false h h' dealt ext all =
      inl (IsDealt-Extends mine h h' m ext dealt, all)

  module _ (self : Lock X) (fuel : ℕ) where
    abbrev Spent : History X → Type 0
    Spent h = fuel ≤ conflicts h

    abbrev Breaks : {A : Type 0} → (History X → A → Type 0) → History X → Fallible X A → Type 0
    Breaks P h m = Ensures MayBreak CanPanic Spent (OkOr P Blamed) h m

    module _ (mine : Epoch) (ts : X.Time) (my_path : X.FilePath) where
      abbrev pub Emptied : Metas X → Bool → History X → Unit {0} → Type 0
      Emptied metas found h _ =
          AllBroken mine ts metas found h
          × ((r : Result StoreError (Unit {0})) × Happened (deleted my_path r) h)

      -- What the loop starts from.
      abbrev LoopState : Bool → History X → Type 0
      LoopState found h = IsOwn h my_path × IsClaimTime h ts × Found ts found h

      state-Extends :
          (found : Bool) (h h' : History X) → Extends h h' → LoopState found h → LoopState found h'
      state-Extends found h h' ext (own, at, is) = (
        (own.0, ext _ own.1),
        IsClaimTime-Extends h h' ts ext at,
        Found-Extends ts found h h' ext is,
      )

      -- The loop from here on.
      abbrev LoopBreaks : Metas X → (Bool → Fallible X (Unit {0})) → Type 0
      LoopBreaks metas loop =
          (h : History X) (found : Bool)
          → LoopState found h
          → Breaks (Emptied metas found) h (loop found)

      module _ (m : ObjectMeta X) (metas : Metas X) (loop : Bool → Fallible X (Unit {0}))
          (keeps : LoopBreaks metas loop) where
        abbrev HereBreaks : Bool → History X → Fallible X (Unit {0}) → Type 0
        HereBreaks found h p = Breaks (Emptied (m ∷ metas) found) h p

        go_on :
            (found : Bool) (h : History X)
            → LoopState found h
            → IsDealt mine h m
            → HereBreaks found h (loop found)
        go_on found h state dealt =
            OkOr-map MayBreak CanPanic Spent (Emptied metas found) (Emptied (m ∷ metas) found)
              Blamed (loop found) h (keeps h found state)
              λ h' _ ext (all, gone). (dealt_first mine ts m metas found h h' dealt ext all, gone)

        broken :
            (found : Bool) (h : History X) (bytes : Bytes)
            → LoopState found h
            → CanBreak ts h m bytes
            → HereBreaks found
                (got m.location (ok (ok bytes)) ∷ h)
                (best_effort_delete m.location (loop found))
        broken found h bytes (own, at, is) can = (
          inr (ts, h, m, bytes, refl, refl, at, can),
          λ r.
              go_on found _
                (state-Extends found h (deleted m.location r ∷ got m.location (ok (ok bytes)) ∷ h)
                  (λ e happened. inr (inr happened)) (own, at, is))
                (inl (r, inl refl)),
        )

        decided :
            (e : Epoch) (file : EpochFile) (h : History X) (bytes : Bytes)
            → epoch_of m ≡ some e
            → X.decode bytes ≡ some file
            → (found : Bool) → LoopState found h
            → (b : Bool) → is_expired_at (entry_of m file e) ts ≡ some b
            → HereBreaks found
                (got m.location (ok (ok bytes)) ∷ h)
                (break_entry self my_path loop found m (some b))
        decided e file h bytes named read true state true is =
            broken true h bytes state (inr (file, e, read, named, inl is))
        decided e file h bytes named read false state true is =
            broken false h bytes state (inr (file, e, read, named, inl is))
        decided e file h bytes named read true (own, at, first) false is =
            broken true h bytes (own, at, first) (inr (file, e, read, named, inr first))
        decided e file h bytes named read false (own, at, _) false is =
            OkOr-map MayBreak CanPanic Spent (Emptied metas true) (Emptied (m ∷ metas) false) Blamed
              (loop true) here
              (keeps here true (
                (own.0, inr own.1),
                IsClaimTime-Extends h here ts (λ e'. inr) at,
                (entry, (is_read, is)),
              ))
              λ h' _ ext (all, gone).
                (inr ((entry, (IsRead-Extends here h' entry ext is_read, is), refl), all), gone)
          where
            here : History X
            here = got m.location (ok (ok bytes)) ∷ h

            entry : EpochEntry X
            entry = entry_of m file e

            is_read : IsRead here entry
            is_read = record { bytes = bytes; answered = inl refl; decoded = read; named = named }

        break_file-Breaks :
            (e : Epoch) (found : Bool) (h : History X) (bytes : Bytes)
            → LoopState found h
            → epoch_of m ≡ some e
            → (o : Option EpochFile) → X.decode bytes ≡ o
            → HereBreaks found
                (got m.location (ok (ok bytes)) ∷ h)
                (break_file self ts my_path loop found m e o)
        break_file-Breaks e found h bytes state named none read =
            broken found h bytes state (inl read)
        break_file-Breaks e found h bytes state named (some file) read =
            timed (expires_at (entry_of m file e)) refl
          where
            expires :
                (expiry : X.Time)
                → expires_at (entry_of m file e) ≡ some expiry
                → is_expired_at (entry_of m file e) ts ≡ some (X.at_most expiry ts)
            expires expiry is = cc

            timed :
                (o : Option X.Time)
                → expires_at (entry_of m file e) ≡ o
                → HereBreaks found (got m.location (ok (ok bytes)) ∷ h) (
                    break_entry self my_path loop found m
                      (and_then o λ expiry. some (X.at_most expiry ts)))
            timed none is = (
              entry_of m file e,
              record { bytes = bytes; answered = inl refl; decoded = read; named = named },
              is,
            )
            timed (some expiry) is =
                decided e file h bytes named read found state (X.at_most expiry ts)
                  (expires expiry is)

        break_body-Breaks :
            (e : Epoch) (found : Bool) (h : History X)
            → LoopState found h
            → epoch_of m ≡ some e
            → (r : Body)
            → HereBreaks found (got m.location r ∷ h) (break_body self ts my_path loop found m e r)
        break_body-Breaks e found h state named (ok (ok bytes)) =
            break_file-Breaks e found h bytes state named (X.decode bytes) refl
        break_body-Breaks e found h state named (ok (err f)) =
            (got m.location (ok (err f)), inl refl, refl)
        break_body-Breaks e found h state named (err not_found) =
            go_on found _
              (state-Extends found h (got m.location (err not_found) ∷ h) (λ e'. inr) state)
              (inr (inl (inl refl)))
        break_body-Breaks e found h ((b, own), _, _) named (err already_exists) =
            (inl (b, inr own), λ r. (got m.location (err already_exists), inr (inl refl), refl))
        break_body-Breaks e found h ((b, own), _, _) named (err other) =
            (inl (b, inr own), λ r. (got m.location (err other), inr (inl refl), refl))

        break_meta-Breaks :
            (found : Bool) (h : History X)
            → LoopState found h
            → (o : Option Epoch) → epoch_of m ≡ o
            → HereBreaks found h (break_meta self mine ts my_path loop found m o)
        break_meta-Breaks found h state none named = go_on found h state (inr (inr (inl named)))
        break_meta-Breaks found h state (some e) named = ours (same_epoch e mine) refl
          where
            ours :
                (b : Bool)
                → same_epoch e mine ≡ b
                → HereBreaks found h (
                    if b
                    then loop found
                    else get m.location (break_body self ts my_path loop found m e))
            ours true same = go_on found h state (inr (inr (inr (e, named, same))))
            ours false apart = break_body-Breaks e found h state named

      break_loop-Breaks :
          (metas : Metas X) → LoopBreaks metas (break_loop self mine ts my_path metas)
      unfolding break_loop
      break_loop-Breaks [] h found (own, _, _) = (inl own, λ r. (tt, (r, inl refl)))
      break_loop-Breaks (m ∷ metas) h found state =
          break_meta-Breaks m metas (break_loop self mine ts my_path metas)
            (break_loop-Breaks metas) found h state (epoch_of m) refl

    -- What a return without an error says: a file was claimed, files were listed after that, all of them
    -- were dealt with but the first that is active at the time of the claim, and the claimed file was
    -- deleted.
    abbrev pub IsBroken : History X → Unit {0} → Type 0
    IsBroken h _ =
        (mine : Epoch) × (ts : X.Time) × (path : X.FilePath) × (metas : Metas X) × IsClaimed self h
          mine ts path
        × IsListed h metas
        × Emptied mine ts path metas false h tt

    break_listed-Breaks :
        (mine : Epoch) (ts : X.Time) (path : X.FilePath) (h : History X)
        → IsClaimed self h mine ts path
        → (r : Result Error (Metas X)) → OkOr IsListed Blamed h r
        → Breaks IsBroken h (break_listed self (mine, ts, path) r)
    break_listed-Breaks mine ts path h claimed (err e) blamed =
        (inl claimed.own, λ r. Blamed-Extends h (deleted path r ∷ h) e (λ x. inr) blamed)
    break_listed-Breaks mine ts path h claimed (ok metas) listing =
        OkOr-map MayBreak CanPanic Spent (Emptied mine ts path metas false) IsBroken Blamed
          (break_loop self mine ts path metas false) h
          (break_loop-Breaks mine ts path metas h false
            (claimed.own, (path, claimed.own, claimed.time), tt))
          λ h' _ ext emptied. (
            mine,
            ts,
            path,
            metas,
            IsClaimed-Extends self h h' mine ts path ext claimed,
            IsListed-Extends h h' metas ext listing,
            emptied,
          )

    breaker-Breaks :
        (claim : Claimed X) (h : History X)
        → ClaimedAs self h claim
        → Breaks IsBroken h (bind list_epoch_metas (break_listed self claim))
    breaker-Breaks (mine, ts, path) h claimed =
        Ensures-bind MayBreak CanPanic Spent (OkOr IsListed Blamed) (OkOr IsBroken Blamed)
          list_epoch_metas (break_listed self (mine, ts, path)) h h (Extends-refl h)
          (list_epoch_metas-Ensures MayBreak CanPanic Spent h)
          λ h' r ext listing.
            break_listed-Breaks mine ts path h'
              (IsClaimed-Extends self h h' mine ts path ext claimed) r listing

  -- Whatever the store answers: `unsafe_break_locks` deletes no file but the one it created and files
  -- it has just read that are not in the format, or expired when it made its claim, or not the first one
  -- that was not; if it returns, all listed files but the first active one are dealt with and its own
  -- file was deleted; an error is that of a call, of a text or of a number; it panics only at a file whose
  -- duration is out of range; and the fuel runs out only after as many conflicts.
  pub unsafe_break_locks_sound :
      (self : Lock X) (fuel : ℕ)
      → Ensures MayBreak CanPanic
          (λ h. fuel ≤ conflicts h)
          (OkOr (IsBroken self fuel) Blamed)
          []
          (unsafe_break_locks self fuel)
  unfolding unsafe_break_locks
  unsafe_break_locks_sound self fuel =
      Ensures->>? MayBreak CanPanic (Spent self fuel) (ClaimedAs self)
        (OkOr (IsBroken self fuel) Blamed) (put_next_epoch self fuel _)
        (λ claimed. bind list_epoch_metas (break_listed self claimed)) []
        (put_next_epoch-Claims self MayBreak (λ h p. inl) CanPanic fuel _ [])
        λ h claim ext claimed. breaker-Breaks self fuel claim h claimed
