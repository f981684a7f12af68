-- ===== src/Storage/Compaction/State.antt =====
-- bepository-storage/src/store.rs, CompactionState: which blocks the active compactions know live.
-- The map from job ids is an association list in the order of insertion.
use bepository.Prelude.{
  ℕ, ◌+◌, ◌%◌, ◌≡◌, Bytes, Bool, true, ◌&&◌, Option, none, some, List, [], ◌∷◌, ◌==◌, if◌then◌else◌,
  u64_mod,
}

-- The Bloom filter of the package `fastbloom`: what was inserted is contained, and stays so.
pub record Bloom (Item : Type 0) : Type 1 where
  pub Filter : Type 0
  pub empty : Filter
  pub insert : Item → Filter → Filter
  pub contains : Filter → Item → Bool
  pub contains-insert : (x : Item) (f : Filter) → contains (insert x f) x ≡ true
  pub contains-insert_other :
      (x y : Item) (f : Filter) → contains f x ≡ true → contains (insert y f) x ≡ true

pub record Blooms : Type 1 where
  pub hashes : Bloom Bytes
  pub seqs : Bloom ℕ

pub record CompactionJobState (B : Blooms) : Type 0 where
  pub known_live_hashes : B.hashes.Filter
  pub known_live_seqs : B.seqs.Filter

pub record CompactionState (B : Blooms) : Type 0 where
  pub jobs : List (ℕ × CompactionJobState B)
  pub next_job : ℕ

-- `HashMap::get`
abbrev pub find_job {ℓ} : {J : Type ℓ} → ℕ → List (ℕ × J) → Option J
find_job id [] = none
find_job id ((other, job) ∷ jobs) =
    let rest = find_job id jobs in if id == other then some job else rest

-- `HashMap::remove`
abbrev pub remove_job {ℓ} : {J : Type ℓ} → ℕ → List (ℕ × J) → List (ℕ × J)
remove_job id [] = []
remove_job id ((other, job) ∷ jobs) =
    let rest = remove_job id jobs in if id == other then rest else (other, job) ∷ rest

abbrev pub insert_some : {Item : Type 0} (b : Bloom Item) → Option Item → b.Filter → b.Filter
insert_some b none f = f
insert_some b (some x) f = b.insert x f

-- What the scan of a compaction inserts through the filters that it shares with its job.
pub data Insert : Type 0 where
  hash_of : Bytes → Insert
  seq_of : ℕ → Insert

module _ {B : Blooms} where
  abbrev pub new_state : CompactionState B
  new_state = record { jobs = []; next_job = 1 }

  -- The new state and the id of the job.
  unfoldable pub register :
      B.hashes.Filter → B.seqs.Filter → CompactionState B → CompactionState B × ℕ
  register known_live_hashes known_live_seqs s =
      let job_id = s.next_job in
      let job : CompactionJobState B = record {
        known_live_hashes = known_live_hashes;
        known_live_seqs = known_live_seqs;
      } in
      (
        record {
          jobs = (job_id, job) ∷ remove_job job_id s.jobs;
          next_job = (s.next_job + 1) % u64_mod;
        },
        job_id,
      )

  unfoldable pub unregister : ℕ → CompactionState B → CompactionState B
  unregister job_id s = record s { jobs = remove_job job_id s.jobs }

  abbrev pub record_in : Bytes → Option ℕ → CompactionJobState B → CompactionJobState B
  record_in hash seq job = record {
    known_live_hashes = B.hashes.insert hash job.known_live_hashes;
    known_live_seqs = insert_some B.seqs seq job.known_live_seqs;
  }

  abbrev pub record_in_all :
      Bytes → Option ℕ → List (ℕ × CompactionJobState B) → List (ℕ × CompactionJobState B)
  record_in_all hash seq [] = []
  record_in_all hash seq ((id, job) ∷ jobs) =
      (id, record_in hash seq job) ∷ record_in_all hash seq jobs

  unfoldable pub record_block_write : Bytes → Option ℕ → CompactionState B → CompactionState B
  record_block_write hash seq s = record s { jobs = record_in_all hash seq s.jobs }

  abbrev pub inserted : Insert → CompactionJobState B → CompactionJobState B
  inserted (hash_of hash) job = record job {
    known_live_hashes = B.hashes.insert hash job.known_live_hashes;
  }
  inserted (seq_of seq) job = record job { known_live_seqs = B.seqs.insert seq job.known_live_seqs }

  abbrev pub insert_at :
      ℕ → Insert → List (ℕ × CompactionJobState B) → List (ℕ × CompactionJobState B)
  insert_at id i [] = []
  insert_at id i ((other, job) ∷ jobs) =
      let rest = insert_at id i jobs in
      if id == other then (other, inserted i job) ∷ jobs else (other, job) ∷ rest

  unfoldable pub insert_shared : ℕ → Insert → CompactionState B → CompactionState B
  insert_shared id i s = record s { jobs = insert_at id i s.jobs }

  abbrev pub all_contain : Bytes → List (ℕ × CompactionJobState B) → Bool
  all_contain hash [] = true
  all_contain hash ((id, job) ∷ jobs) =
      B.hashes.contains job.known_live_hashes hash && all_contain hash jobs

  unfoldable pub is_block_safe : CompactionState B → Bytes → Bool
  is_block_safe s hash = all_contain hash s.jobs

  abbrev pub job_has_hash : Option (CompactionJobState B) → Bytes → Bool
  job_has_hash none hash = true
  job_has_hash (some job) hash = B.hashes.contains job.known_live_hashes hash

  abbrev pub job_has_seq : Option (CompactionJobState B) → ℕ → Bool
  job_has_seq none seq = true
  job_has_seq (some job) seq = B.seqs.contains job.known_live_seqs seq

  unfoldable pub known_live_hash_contains : CompactionState B → ℕ → Bytes → Bool
  known_live_hash_contains s job_id hash = job_has_hash (find_job job_id s.jobs) hash

  unfoldable pub known_live_seq_contains : CompactionState B → ℕ → ℕ → Bool
  known_live_seq_contains s job_id seq = job_has_seq (find_job job_id s.jobs) seq
