-- ===== src/Storage/Compaction/Live.antt =====
-- While a compaction runs, blocks are written and other compactions begin and end. What its job has
-- once known live stays so.
use mathlib.Core.Option
use bepository.Prelude.{
  ℕ, suc, ◌+◌, ◌≤◌, ◌<◌, ◌≡◌, refl, ◌⊎◌, inl, inr, ==_refl, length, Bytes, Bool, true, Option, none,
  some, List, [], ◌∷◌, ◌==◌, if◌then◌else◌, u64_mod, arith,
}
use bepository.Storage.Compaction.State.{
  Blooms, CompactionJobState, CompactionState, find_job, remove_job, record_in, job_has_hash,
  job_has_seq, register, unregister, record_block_write, record_in_all, Insert, hash_of, seq_of,
  inserted, insert_at, insert_shared, known_live_hash_contains, known_live_seq_contains,
}

-- What may happen to the shared state while one compaction runs.
pub data Event (B : Blooms) : Type 0 where
  block_written : Bytes → Option ℕ → Event B
  job_began : B.hashes.Filter → B.seqs.Filter → Event B
  job_ended : ℕ → Event B
  indexed : ℕ → Insert → Event B

module _ {B : Blooms} where
  abbrev pub apply : Event B → CompactionState B → CompactionState B
  apply (block_written hash seq) s = record_block_write hash seq s
  apply (job_began h q) s = (register h q s).0
  apply (job_ended other) s = unregister other s
  apply (indexed other i) s = insert_shared other i s

  abbrev pub run : List (Event B) → CompactionState B → CompactionState B
  run [] s = s
  run (e ∷ events) s = run events (apply e s)

  -- The events in which a hash, or a number, was written or inserted by the scan of a job.
  abbrev pub Gives : ℕ → Insert → Event B → Type 0
  Gives job (hash_of hash) (block_written h q) = h ≡ hash
  Gives job (seq_of seq) (block_written h q) = q ≡ some seq
  Gives job i (job_began h q) = ⊥
  Gives job i (job_ended other) = ⊥
  Gives job i (indexed other x) = (other ≡ job) × (x ≡ i)

  abbrev pub SomeGives : ℕ → Insert → List (Event B) → Type 0
  SomeGives job i [] = ⊥
  SomeGives job i (e ∷ events) = Gives job i e ⊎ SomeGives job i events

  -- What the job with a number knows live.
  abbrev pub knows : CompactionState B → ℕ → Insert → Bool
  knows s job (hash_of hash) = known_live_hash_contains s job hash
  knows s job (seq_of seq) = known_live_seq_contains s job seq

  pub find-record_in_all :
      (id : ℕ) (hash : Bytes) (seq : Option ℕ) (jobs : List (ℕ × CompactionJobState B))
      → find_job id (record_in_all hash seq jobs)
        ≡ Option.map (record_in hash seq) (find_job id jobs)
  find-record_in_all id hash seq [] = refl
  find-record_in_all id hash seq ((x, job) ∷ jobs) =
      ground (arith, find-record_in_all id hash seq jobs)

  find-remove_job :
      (id other : ℕ) (jobs : List (ℕ × CompactionJobState B))
      → find_job id (remove_job other jobs) ≡ (if id == other then none else find_job id jobs)
  find-remove_job id other [] = ground arith
  find-remove_job id other ((x, job) ∷ jobs) = ground (arith, find-remove_job id other jobs)

  find-insert_at :
      (id other : ℕ) (i : Insert) (jobs : List (ℕ × CompactionJobState B))
      → find_job id (insert_at other i jobs)
        ≡ (if id == other then Option.map (inserted i) (find_job id jobs) else find_job id jobs)
  find-insert_at id other i [] = ground arith
  find-insert_at id other i ((x, job) ∷ jobs) = ground (arith, find-insert_at id other i jobs)

  pub job_hash_recorded :
      (o : Option (CompactionJobState B)) (hash : Bytes) (seq : Option ℕ)
      → job_has_hash (Option.map (record_in hash seq) o) hash ≡ true
  job_hash_recorded none hash seq = refl
  job_hash_recorded (some job) hash seq = B.hashes.contains-insert hash job.known_live_hashes

  job_hash_kept :
      (o : Option (CompactionJobState B)) (h hash : Bytes) (seq : Option ℕ)
      → job_has_hash o hash ≡ true
      → job_has_hash (Option.map (record_in h seq) o) hash ≡ true
  job_hash_kept none h hash seq known = refl
  job_hash_kept (some job) h hash seq known =
      B.hashes.contains-insert_other hash h job.known_live_hashes known

  pub job_seq_recorded :
      (o : Option (CompactionJobState B)) (hash : Bytes) (seq : ℕ)
      → job_has_seq (Option.map (record_in hash (some seq)) o) seq ≡ true
  job_seq_recorded none hash seq = refl
  job_seq_recorded (some job) hash seq = B.seqs.contains-insert seq job.known_live_seqs

  job_seq_kept :
      (o : Option (CompactionJobState B)) (h : Bytes) (q : Option ℕ) (seq : ℕ)
      → job_has_seq o seq ≡ true
      → job_has_seq (Option.map (record_in h q) o) seq ≡ true
  job_seq_kept none h q seq known = refl
  job_seq_kept (some job) h none seq known = known
  job_seq_kept (some job) h (some q) seq known =
      B.seqs.contains-insert_other seq q job.known_live_seqs known

  job_hash_stays :
      (o : Option (CompactionJobState B)) (i : Insert) (hash : Bytes)
      → job_has_hash o hash ≡ true
      → job_has_hash (Option.map (inserted i) o) hash ≡ true
  job_hash_stays none i hash known = refl
  job_hash_stays (some job) (hash_of h) hash known =
      B.hashes.contains-insert_other hash h job.known_live_hashes known
  job_hash_stays (some job) (seq_of q) hash known = known

  job_seq_stays :
      (o : Option (CompactionJobState B)) (i : Insert) (seq : ℕ)
      → job_has_seq o seq ≡ true
      → job_has_seq (Option.map (inserted i) o) seq ≡ true
  job_seq_stays none i seq known = refl
  job_seq_stays (some job) (hash_of h) seq known = known
  job_seq_stays (some job) (seq_of q) seq known =
      B.seqs.contains-insert_other seq q job.known_live_seqs known

  job_hash_inserted :
      (o : Option (CompactionJobState B)) (hash : Bytes)
      → job_has_hash (Option.map (inserted (hash_of hash)) o) hash ≡ true
  job_hash_inserted none hash = refl
  job_hash_inserted (some job) hash = B.hashes.contains-insert hash job.known_live_hashes

  job_seq_inserted :
      (o : Option (CompactionJobState B)) (seq : ℕ)
      → job_has_seq (Option.map (inserted (seq_of seq)) o) seq ≡ true
  job_seq_inserted none seq = refl
  job_seq_inserted (some job) seq = B.seqs.contains-insert seq job.known_live_seqs

  -- The job that begins has another number, and a job that ends is not asked any more.
  find_began :
      (id : ℕ) (h : B.hashes.Filter) (q : B.seqs.Filter) (s : CompactionState B)
      → id < s.next_job
      → find_job id (register h q s).0.jobs ≡ find_job id s.jobs
  unfolding register
  find_began id h q s older = ground (arith, find-remove_job id s.next_job s.jobs)

  pub hash_kept :
      (e : Event B) (s : CompactionState B) (id : ℕ) (hash : Bytes)
      → id < s.next_job
      → known_live_hash_contains s id hash ≡ true
      → known_live_hash_contains (apply e s) id hash ≡ true
  unfolding known_live_hash_contains record_block_write unregister insert_shared
  hash_kept (block_written h q) s id hash older known =
      rw (find-record_in_all id h q s.jobs) (job_hash_kept (find_job id s.jobs) h hash q known)
  hash_kept (job_began h q) s id hash older known = rw (find_began id h q s older) known
  hash_kept (job_ended other) s id hash older known =
      rw (find-remove_job id other s.jobs) (ground (arith, known))
  hash_kept (indexed other i) s id hash older known =
      rw (find-insert_at id other i s.jobs)
        (ground (arith, known, job_hash_stays (find_job id s.jobs) i hash known))

  pub seq_kept :
      (e : Event B) (s : CompactionState B) (id seq : ℕ)
      → id < s.next_job
      → known_live_seq_contains s id seq ≡ true
      → known_live_seq_contains (apply e s) id seq ≡ true
  unfolding known_live_seq_contains record_block_write unregister insert_shared
  seq_kept (block_written h q) s id seq older known =
      rw (find-record_in_all id h q s.jobs) (job_seq_kept (find_job id s.jobs) h q seq known)
  seq_kept (job_began h q) s id seq older known = rw (find_began id h q s older) known
  seq_kept (job_ended other) s id seq older known =
      rw (find-remove_job id other s.jobs) (ground (arith, known))
  seq_kept (indexed other i) s id seq older known =
      rw (find-insert_at id other i s.jobs)
        (ground (arith, known, job_seq_stays (find_job id s.jobs) i seq known))

  -- The next number only grows, as long as it does not wrap around.
  pub next_job_grows :
      (e : Event B) (s : CompactionState B) (room : ℕ)
      → s.next_job + suc room < u64_mod
      → (s.next_job ≤ (apply e s).next_job) × ((apply e s).next_job + room < u64_mod)
  unfolding register unregister record_block_write insert_shared
  next_job_grows (block_written h q) s room fits = (omega arith, omega arith)
  next_job_grows (job_began h q) s room fits = (omega arith, omega arith)
  next_job_grows (job_ended other) s room fits = (omega arith, omega arith)
  next_job_grows (indexed other i) s room fits = (omega arith, omega arith)

  knows_kept :
      (e : Event B) (s : CompactionState B) (job : ℕ) (x : Insert)
      → job < s.next_job
      → knows s job x ≡ true
      → knows (apply e s) job x ≡ true
  knows_kept e s job (hash_of hash) older known = hash_kept e s job hash older known
  knows_kept e s job (seq_of seq) older known = seq_kept e s job seq older known

  knows_given :
      (e : Event B) (s : CompactionState B) (job : ℕ) (x : Insert)
      → Gives job x e
      → knows (apply e s) job x ≡ true
  unfolding known_live_hash_contains known_live_seq_contains record_block_write insert_shared
  knows_given (block_written h q) s job (hash_of hash) same =
      rw (← same)
        (rw (find-record_in_all job h q s.jobs) (job_hash_recorded (find_job job s.jobs) h q))
  knows_given (block_written h q) s job (seq_of seq) same = rw same (
      rw (find-record_in_all job h (some seq) s.jobs)
        (job_seq_recorded (find_job job s.jobs) h seq))
  knows_given (job_began h q) s job x never = absurd never
  knows_given (job_ended other) s job x never = absurd never
  knows_given (indexed other i) s job (hash_of hash) (here, same) =
      rw (here, same)
        (rw (find-insert_at job job (hash_of hash) s.jobs, ==_refl job)
          (job_hash_inserted (find_job job s.jobs) hash))
  knows_given (indexed other i) s job (seq_of seq) (here, same) =
      rw (here, same)
        (rw (find-insert_at job job (seq_of seq) s.jobs, ==_refl job)
          (job_seq_inserted (find_job job s.jobs) seq))

  -- What a job knows live, or is given by one of the events, it knows after them.
  pub known_after :
      (events : List (Event B)) (s : CompactionState B) (job : ℕ) (x : Insert)
      → job < s.next_job
      → s.next_job + length events < u64_mod
      → (knows s job x ≡ true) ⊎ SomeGives job x events
      → knows (run events s) job x ≡ true
  known_after [] s job x older fits (inl known) = known
  known_after [] s job x older fits (inr never) = absurd never
  known_after (e ∷ events) s job x older fits live =
      let (grows, room) = next_job_grows e s (length events) (omega arith) in
      known_after events (apply e s) job x (omega arith) room (next live)
    where
      next :
          (knows s job x ≡ true) ⊎ SomeGives job x (e ∷ events)
          → (knows (apply e s) job x ≡ true) ⊎ SomeGives job x events
      next (inl known) = inl (knows_kept e s job x older known)
      next (inr (inl gives)) = inl (knows_given e s job x gives)
      next (inr (inr later)) = inr later
