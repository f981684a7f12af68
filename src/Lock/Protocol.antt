-- ===== src/Lock/Protocol.antt =====
-- bepository-lock/src/lib.rs: the lock's operations as programs over the calls of Lock.Calls. Log
-- lines are left out.
pub mod Entries
pub mod Claim
use bepository.Prelude.{
  ℕ, zero, suc, ◌+◌, ◌^◌, Bytes, codes, Bool, true, false, not, ◌&&◌, ◌||◌, Option, none, some,
  List, [], ◌∷◌, ◌++◌, Result, ok, err, and_then, is_some, ltb, leb, ◌==◌, if◌then◌else◌, bytes_eq,
  lex_lt, u64_mod, i64_max,
}
use bepository.Lock.Epoch
use bepository.Lock.Base32.{Base32Error}
use bepository.Lock.Epoch.{Epoch, json_filename, before}
use bepository.Lock.Calls.{
  StoreError, not_found, already_exists, other, EpochFile, Packages, ObjectMeta, Body, Prog, done,
  panic, spent, list, get, create, head, delete, now, bind, Error, object_store, serde, base32,
  Fallible, ◌>>?◌,
}

pub data AcquisitionStatus : Type 0 where
  owner : Epoch → AcquisitionStatus
  queued queued_backward_clock yielded failed not_owner : AcquisitionStatus

-- `Lock`, without the store.
pub record Lock (X : Packages) : Type 0 where
  pub prefix : X.FilePath
  pub holder : Bytes
  pub priority : ℕ
  pub duration : ℕ

pub record EpochEntry (X : Packages) : Type 0 where
  pub meta : ObjectMeta X
  pub file : EpochFile
  pub epoch : Epoch

-- `self.file.duration.try_into().unwrap_or(i64::MAX)`
abbrev pub dur_secs : EpochFile → ℕ
dur_secs file = if leb file.duration i64_max then file.duration else i64_max

abbrev pub or_max : (X : Packages) → Option X.Time → X.Time
or_max X none = X.max_utc
or_max X (some t) = t

-- `a < b` on times.
abbrev pub earlier : (X : Packages) → X.Time → X.Time → Bool
earlier X a b = not (X.at_most b a)

abbrev pub Metas : Packages → Type 0
Metas X = List (ObjectMeta X)

-- `==` compares both fields, which agree for parsed epochs.
abbrev pub same_epoch : Epoch → Epoch → Bool
same_epoch a b = (a.val == b.val) && bytes_eq a.base32 b.base32

-- `filter_map(…).max()`: of equals the last.
abbrev pub max_with : Option Epoch → Option Epoch → Option Epoch
max_with none rest = rest
max_with (some e) none = some e
max_with (some e) (some f) = if before f e then some e else some f

-- `map_or(0, |h| h.as_u64().checked_add(1).unwrap_or(h.as_u64()))`
abbrev pub next_val : Option Epoch → ℕ
next_val none = 0
next_val (some h) = if ltb (h.val + 1) u64_mod then h.val + 1 else h.val

abbrev pub Claimed : Packages → Type 0
Claimed X = Epoch × X.Time × X.FilePath

module _ {X : Packages} where
  -- `none` is the panic of `Duration::seconds`.
  unfoldable pub expires_at : EpochEntry X → Option X.Time
  expires_at entry =
      and_then (X.seconds (dur_secs entry.file))
        λ d. some (or_max X (X.checked_add entry.meta.last_modified d))

  abbrev pub is_expired_at : EpochEntry X → X.Time → Option Bool
  is_expired_at entry t = and_then (expires_at entry) λ expiry. some (X.at_most expiry t)

  abbrev pub is_owned_by : EpochEntry X → Bytes → Bool
  is_owned_by entry holder = bytes_eq entry.file.holder holder

  -- `m.location.filename().and_then(Epoch::parse)`
  abbrev pub epoch_of : ObjectMeta X → Option Epoch
  epoch_of m = and_then (X.filename m.location) Epoch.parse

  -- (lower, mine_present, higher), by the order of the numbers.
  abbrev pub place :
      Epoch → ObjectMeta X → Option Epoch → Metas X × Bool × Metas X → Metas X × Bool × Metas X
  place mine m none p = p
  place mine m (some e) (lower, mine_present, higher) =
      if before e mine
      then (m ∷ lower, mine_present, higher)
      else if same_epoch e mine
      then (lower, true, higher)
      else (lower, mine_present, m ∷ higher)

  unfoldable pub partition_around : Metas X → Epoch → Metas X × Bool × Metas X
  partition_around [] mine = ([], false, [])
  partition_around (m ∷ metas) mine = place mine m (epoch_of m) (partition_around metas mine)

  -- Swallows errors.
  abbrev pub best_effort_delete : {A : Type 0} → X.FilePath → Prog X A → Prog X A
  best_effort_delete path rest = delete path (λ _. rest)

  -- The filter of `list_epoch_metas`, and the sort by location.
  unfoldable pub epoch_metas : Metas X → Metas X
  epoch_metas [] = []
  epoch_metas (m ∷ metas) =
      let rest = epoch_metas metas in if is_some (epoch_of m) then m ∷ rest else rest

  unfoldable pub insert_meta : ObjectMeta X → Metas X → Metas X
  insert_meta m [] = m ∷ []
  insert_meta m (n ∷ metas) =
      let rest = insert_meta m metas in
      if lex_lt (X.text n.location) (X.text m.location) then n ∷ rest else m ∷ n ∷ metas

  unfoldable pub sort_metas : Metas X → Metas X
  unfolding insert_meta
  sort_metas [] = []
  sort_metas (m ∷ metas) = insert_meta m (sort_metas metas)

  abbrev pub listed_metas : Result StoreError (Metas X) → Result Error (Metas X)
  listed_metas (err e) = err (object_store e)
  listed_metas (ok metas) = ok (sort_metas (epoch_metas metas))

  unfoldable pub list_epoch_metas : Fallible X (Metas X)
  unfolding epoch_metas sort_metas
  list_epoch_metas = list (λ r. done (listed_metas r))

  abbrev pub entry_named :
      ObjectMeta X → EpochFile → Option Epoch → Result Error (Option (EpochEntry X))
  entry_named meta file none = ok none
  entry_named meta file (some epoch) =
      ok (some (record { meta = meta; file = file; epoch = epoch }))

  abbrev pub parse_entry : ObjectMeta X → Option EpochFile → Result Error (Option (EpochEntry X))
  parse_entry meta none = err serde
  parse_entry meta (some file) = entry_named meta file (epoch_of meta)

  abbrev pub read_body : ObjectMeta X → Body → Result Error (Option (EpochEntry X))
  read_body meta (ok (ok bytes)) = parse_entry meta (X.decode bytes)
  read_body meta (ok (err e)) = err (object_store e)
  read_body meta (err not_found) = ok none
  read_body meta (err already_exists) = err (object_store already_exists)
  read_body meta (err other) = err (object_store other)

  unfoldable pub read_entry : ObjectMeta X → Fallible X (Option (EpochEntry X))
  read_entry meta = get meta.location (λ r. done (read_body meta r))

  unfoldable pub highest_epoch : Metas X → Option Epoch
  highest_epoch [] = none
  highest_epoch (m ∷ metas) = max_with (epoch_of m) (highest_epoch metas)

  abbrev pub headed_claim : Epoch → X.FilePath → Result StoreError X.Time → Fallible X (Claimed X)
  headed_claim epoch path (ok ts) = done (ok (epoch, ts, path))
  headed_claim epoch path (err e) = best_effort_delete path (done (err (object_store e)))

  -- After the `put`: `retry` is the loop's next round.
  abbrev pub created_claim :
      Epoch
      → X.FilePath
      → Fallible X (Claimed X)
      → Result StoreError (Unit {0})
      → Fallible X (Claimed X)
  created_claim epoch path retry (ok _) = head path (headed_claim epoch path)
  created_claim epoch path retry (err already_exists) = retry
  created_claim epoch path retry (err not_found) = done (err (object_store not_found))
  created_claim epoch path retry (err other) = done (err (object_store other))

  module _ (self : Lock X) where
    abbrev pub put_claim :
        Bytes → Fallible X (Claimed X) → Result Base32Error Epoch → Fallible X (Claimed X)
    put_claim bytes retry (err e) = done (err (base32 e))
    put_claim bytes retry (ok epoch) =
        let path = X.join self.prefix (json_filename epoch) in
        create path bytes (created_claim epoch path retry)

    abbrev pub try_claim : Bytes → Fallible X (Claimed X) → Metas X → Fallible X (Claimed X)
    try_claim bytes retry metas = put_claim bytes retry (Epoch.new (next_val (highest_epoch metas)))

    -- The loop, with fuel for its retries.
    unfoldable pub claim_loop : ℕ → Bytes → Fallible X (Claimed X)
    unfolding list_epoch_metas highest_epoch
    claim_loop zero bytes = spent
    claim_loop (suc fuel) bytes =
        let retry = claim_loop fuel bytes in list_epoch_metas >>? try_claim bytes retry

    abbrev pub encoded_claim : ℕ → Option Bytes → Fallible X (Claimed X)
    encoded_claim fuel none = done (err serde)
    encoded_claim fuel (some bytes) = claim_loop fuel bytes

    unfoldable pub put_next_epoch : ℕ → EpochFile → Fallible X (Claimed X)
    unfolding claim_loop
    put_next_epoch fuel content = encoded_claim fuel (X.encode content)

    unfoldable pub claim_epoch : ℕ → Fallible X (Claimed X)
    unfolding put_next_epoch
    claim_epoch fuel =
        put_next_epoch fuel
          (record { holder = self.holder; priority = self.priority; duration = self.duration })
