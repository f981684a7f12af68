-- ===== src/Lock/Protocol/Claim.antt =====
-- bepository-lock/src/lib.rs, `put_next_epoch`: what a claim is, and which files may be deleted.
use bepository.Prelude.{
  ℕ, zero, suc, ◌+◌, ◌≤◌, ◌<◌, Bytes, true, Option, none, some, [], ◌∷◌, Result, ok, err, ◌≡◌, refl,
  ◌⊎◌, inl, inr, arith,
}
use bepository.Lock.Base32.{Base32Error}
use bepository.Lock.Epoch
use bepository.Lock.Epoch.{Epoch, json_filename, before}
use bepository.Lock.Epoch.Laws.{IsValid, new-eq-ok}
use bepository.Lock.Calls.{
  StoreError, not_found, already_exists, other, EpochFile, Packages, Fallible, Error, or_fail,
  ◌>>?◌,
}
use bepository.Lock.Calls.Logic.{
  listed, got, created, headed, deleted, read_clock, History, Happened, Ensures, Extends,
  Extends-refl, OkOr, Ensures-map,
}
use bepository.Lock.Protocol.{
  Lock, EpochEntry, expires_at, is_expired_at, is_owned_by, epoch_of, Metas, list_epoch_metas,
  highest_epoch, max_with, next_val, Claimed, headed_claim, created_claim, try_claim, claim_loop,
  put_next_epoch, claim_epoch, sort_metas, epoch_metas, listed_metas, encoded_claim, put_claim,
}
use bepository.Lock.Protocol.Entries.{Blamed, IsRead, IsListed, IsListed-Extends}

abbrev pub IsBelow : ℕ → Option Epoch → Type 0
IsBelow v none = Unit {0}
IsBelow v (some e) = e.val < v

max_with-IsBelow :
    (o rest : Option Epoch) (v : ℕ) → IsBelow v (max_with o rest) → IsBelow v o × IsBelow v rest
max_with-IsBelow none rest v b = (tt, b)
max_with-IsBelow (some e) none v b = (b, tt)
max_with-IsBelow (some e) (some f) v b = ground arith

module _ {X : Packages} where
  -- All epochs of the files are below a number.
  abbrev pub EpochsBelow : ℕ → Metas X → Type 0
  EpochsBelow v [] = Unit {0}
  EpochsBelow v (m ∷ metas) = IsBelow v (epoch_of m) × EpochsBelow v metas

  -- A file that this program created.
  abbrev pub IsOwn : History X → X.FilePath → Type 0
  IsOwn h p = (b : Bytes) × Happened (created p b (ok tt)) h

  -- The time of the claim, as the store tells it.
  abbrev pub IsClaimTime : History X → X.Time → Type 0
  IsClaimTime h ts = (p : X.FilePath) × IsOwn h p × Happened (headed p (ok ts)) h

  pub IsClaimTime-Extends :
      (h h' : History X) (ts : X.Time) → Extends h h' → IsClaimTime h ts → IsClaimTime h' ts
  IsClaimTime-Extends h h' ts ext (p, (b, own), headed_at) = (p, (b, ext _ own), ext _ headed_at)

  -- A file that was read, and is of this holder or was expired when the claim was made.
  abbrev pub IsStale : Lock X → History X → EpochEntry X → Type 0
  IsStale self h entry =
      IsRead h entry
      × ((is_owned_by entry self.holder ≡ true)
          ⊎ ((ts : X.Time) × IsClaimTime h ts × (is_expired_at entry ts ≡ some true)))

  abbrev pub MayDelete : Lock X → History X → X.FilePath → Type 0
  MayDelete self h p =
      IsOwn h p ⊎ ((entry : EpochEntry X) × (entry.meta.location ≡ p) × IsStale self h entry)

  -- A file was read whose duration is out of range.
  abbrev pub CanPanic : History X → Type 0
  CanPanic h = (entry : EpochEntry X) × IsRead h entry × (expires_at entry ≡ none)

  -- How often a file that was to be created was there already.
  abbrev pub conflicts : History X → ℕ
  conflicts [] = 0
  conflicts (created p b (err already_exists) ∷ h) = suc (conflicts h)
  conflicts (created p b (err not_found) ∷ h) = conflicts h
  conflicts (created p b (err other) ∷ h) = conflicts h
  conflicts (created p b (ok _) ∷ h) = conflicts h
  conflicts (listed r ∷ h) = conflicts h
  conflicts (got p r ∷ h) = conflicts h
  conflicts (headed p r ∷ h) = conflicts h
  conflicts (deleted p r ∷ h) = conflicts h
  conflicts (read_clock t ∷ h) = conflicts h

  pub record IsClaimed (self : Lock X) (h : History X) (e : Epoch) (ts : X.Time) (path : X.FilePath)
      : Type 0 where
    pub valid : IsValid e
    pub at : path ≡ X.join self.prefix (json_filename e)
    pub own : IsOwn h path
    pub time : Happened (headed path (ok ts)) h
    pub metas : Metas X
    pub listing : IsListed h metas
    pub above : EpochsBelow e.val metas

  pub IsClaimed-Extends :
      (self : Lock X) (h h' : History X) (e : Epoch) (ts : X.Time) (path : X.FilePath)
      → Extends h h'
      → IsClaimed self h e ts path
      → IsClaimed self h' e ts path
  IsClaimed-Extends self h h' e ts path ext c = record {
    valid = c.valid;
    at = c.at;
    own = (c.own.0, ext _ c.own.1);
    time = ext _ c.time;
    metas = c.metas;
    listing = IsListed-Extends h h' c.metas ext c.listing;
    above = c.above;
  }

  abbrev pub ClaimedAs : Lock X → History X → Claimed X → Type 0
  ClaimedAs self h (e, ts, path) = IsClaimed self h e ts path

  -- The last thing that happened is that these files were listed.
  abbrev pub JustListed : Metas X → History X → Type 0
  JustListed metas (listed (ok files) ∷ h) = metas ≡ sort_metas (epoch_metas files)
  JustListed metas h = ⊥

  -- The file was created directly after these files were listed.
  abbrev pub CreatedOver : X.FilePath → Metas X → History X → Type 0
  CreatedOver path metas [] = ⊥
  CreatedOver path metas (x ∷ h) =
      ((b : Bytes) × (x ≡ created path b (ok tt)) × JustListed metas h) ⊎ CreatedOver path metas h

  -- A claim whose number is above all those of the listing directly before its file was created.
  abbrev pub ClaimedNext : Lock X → History X → Claimed X → Type 0
  ClaimedNext self h (e, ts, path) =
      IsClaimed self h e ts path
      × (metas : Metas X) × CreatedOver path metas h
      × EpochsBelow e.val metas

  below_highest : (metas : Metas X) (v : ℕ) → IsBelow v (highest_epoch metas) → EpochsBelow v metas
  unfolding highest_epoch
  below_highest [] v b = tt
  below_highest (m ∷ metas) v b =
      let (first, rest) = max_with-IsBelow (epoch_of m) (highest_epoch metas) v b in
      (first, below_highest metas v rest)

next_above :
    (o : Option Epoch) (e : Epoch) → Epoch.new (next_val o) ≡ ok e → IsValid e × IsBelow e.val o
next_above none e made = ((new-eq-ok 0 e made).0, tt)
next_above (some h) e made =
    let (valid, same) = new-eq-ok (next_val (some h)) e made in (valid, ground (arith, valid.fits))

module _ {X : Packages} (self : Lock X) (May : History X → X.FilePath → Type 0)
    (May-IsOwn : (h : History X) (p : X.FilePath) → IsOwn h p → May h p)
    (Panics : History X → Type 0) (total : ℕ) where
  abbrev Claims : History X → Fallible X (Claimed X) → Type 0
  Claims h m = Ensures May Panics (λ h'. total ≤ conflicts h') (OkOr (ClaimedNext self) Blamed) h m

  abbrev ClaimsOne : History X → Fallible X (Claimed X) → Type 0
  ClaimsOne h m = Ensures May Panics (λ h'. total ≤ conflicts h') (OkOr (ClaimedAs self) Blamed) h m

  one_of_next : (h : History X) (m : Fallible X (Claimed X)) → Claims h m → ClaimsOne h m
  one_of_next h m claims =
      Ensures-map May Panics (λ h'. total ≤ conflicts h') (OkOr (ClaimedNext self) Blamed)
        (OkOr (ClaimedAs self) Blamed) m h h (Extends-refl h) claims (λ h' r _. weaker h' r)
    where
      weaker :
          (h' : History X) (r : Result Error (Claimed X))
          → OkOr (ClaimedNext self) Blamed h' r
          → OkOr (ClaimedAs self) Blamed h' r
      weaker h' (ok c) p = p.0
      weaker h' (err e) p = p

  -- One round, from the listing on; `again` is that of the next round.
  put_claim-Claims :
      (bytes : Bytes) (retry : Fallible X (Claimed X)) (fuel : ℕ) (h : History X) (metas : Metas X)
      → IsListed h metas
      → JustListed metas h
      → (r : Result Base32Error Epoch) → Epoch.new (next_val (highest_epoch metas)) ≡ r
      → total ≤ suc fuel + conflicts h
      → ((h' : History X) → total ≤ fuel + conflicts h' → Claims h' retry)
      → Claims h (put_claim self bytes retry r)
  put_claim-Claims bytes retry fuel h metas listing just (err e) is enough again =
      (metas, listing, is)
  put_claim-Claims bytes retry fuel h metas listing just (ok e) is enough again = created_as
    where
      path : X.FilePath
      path = X.join self.prefix (json_filename e)

      headed_as :
          (r : Result StoreError X.Time)
          → Claims (headed path r ∷ created path bytes (ok tt) ∷ h) (headed_claim e path r)
      headed_as (err f) = (
        May-IsOwn _ path (bytes, inr (inl refl)),
        λ r. (headed path (err f), inr (inl refl), refl),
      )
      headed_as (ok ts) =
          let (valid, above) = next_above (highest_epoch metas) e is in
          (
            record {
              valid = valid;
              at = refl;
              own = (bytes, inr (inl refl));
              time = inl refl;
              metas = metas;
              listing = IsListed-Extends h _ metas (λ x happened. inr (inr happened)) listing;
              above = below_highest metas e.val above;
            },
            metas,
            inr (inl (bytes, refl, just)),
            below_highest metas e.val above,
          )

      created_as :
          (r : Result StoreError (Unit {0}))
          → Claims (created path bytes r ∷ h) (created_claim e path retry r)
      created_as (ok _) = headed_as
      created_as (err already_exists) = again _ (omega arith)
      created_as (err not_found) = (created path bytes (err not_found), inl refl, refl)
      created_as (err other) = (created path bytes (err other), inl refl, refl)

  claim_loop-Claims :
      (fuel : ℕ) (bytes : Bytes) (h : History X)
      → total ≤ fuel + conflicts h
      → Claims h (claim_loop self fuel bytes)
  unfolding claim_loop list_epoch_metas ◌>>?◌
  claim_loop-Claims zero bytes h enough = omega arith
  claim_loop-Claims (suc fuel) bytes h enough = listed_claim (claim_loop-Claims fuel bytes)
    where
      listed_claim :
          ((h' : History X) → total ≤ fuel + conflicts h' → Claims h' (claim_loop self fuel bytes))
          → (r : Result StoreError (Metas X))
          → Claims
              (listed r ∷ h)
              (or_fail (try_claim self bytes (claim_loop self fuel bytes)) (listed_metas r))
      listed_claim again (err e) = (listed (err e), inl refl, refl)
      listed_claim again (ok files) =
          put_claim-Claims bytes (claim_loop self fuel bytes) fuel _
            (sort_metas (epoch_metas files))
            (record { files = files; answered = inl refl; sorted = refl }) refl
            (Epoch.new (next_val (highest_epoch (sort_metas (epoch_metas files))))) refl enough
            again

  pub put_next_epoch-Claims_next :
      (content : EpochFile) (h : History X) → Claims h (put_next_epoch self total content)
  unfolding put_next_epoch
  put_next_epoch-Claims_next content h = encoded (X.encode content) refl
    where
      encoded : (o : Option Bytes) → X.encode content ≡ o → Claims h (encoded_claim self total o)
      encoded none is = inr (content, is)
      encoded (some bytes) is = claim_loop-Claims total bytes h (omega arith)

  pub put_next_epoch-Claims :
      (content : EpochFile) (h : History X) → ClaimsOne h (put_next_epoch self total content)
  put_next_epoch-Claims content h =
      one_of_next h (put_next_epoch self total content) (put_next_epoch-Claims_next content h)

  pub claim_epoch-Claims : (h : History X) → ClaimsOne h (claim_epoch self total)
  unfolding claim_epoch
  claim_epoch-Claims h = put_next_epoch-Claims _ h

-- Whatever the store answers: `put_next_epoch` deletes no file but the one it created and does not
-- panic; if it returns, the epoch is valid, its file has the name of the epoch and was created by this
-- call, directly after a listing in which all files have smaller epochs, and the time is that the store
-- tells of the file; an error is that of a call, of a text or of a number; and the fuel runs out only
-- after as many attempts to create a file that was there.
pub put_next_epoch_sound :
    {X : Packages} (self : Lock X) (fuel : ℕ) (content : EpochFile)
    → Ensures IsOwn
        (λ h. ⊥)
        (λ h. fuel ≤ conflicts h)
        (OkOr (ClaimedNext self) Blamed)
        []
        (put_next_epoch self fuel content)
put_next_epoch_sound self fuel content =
    put_next_epoch-Claims_next self IsOwn (λ h p own. own) (λ h. ⊥) fuel content []
