-- ===== src/Bep/Connection/Index/Cursor.antt =====
-- A batch of bepository-bep/src/connection.rs as a whole: the cursor of the peer moves last.
use bepository.Prelude.{
  ℕ, ◌<◌, ◌≡◌, ◌⊎◌, inl, inr, refl, false, Option, none, some, List, [], ◌∷◌, ◌++◌, All, All-append,
  Result, ok, err, u32_mod, arith,
}
use bepository.Prelude.Int.{ℤ}
use bepository.Bep.Errors.{StorageError, BepError}
use bepository.Bep.Proto.{FileInfo}
use bepository.Bep.Validate.{validate_file_info}
use bepository.Bep.Calls.{Backend, FolderId, UpdateResult, Call, Reply, ◌>>?◌}
use bepository.Bep.Calls.Logic.{Event, called, sent, told, History, Ensures}
use bepository.Bep.Retry.Ends.{
  Failed, fresh, at_once, later, Outcome, succeeded, gave_up, shut_down, retry_storage_op-Ensures,
}
use bepository.Bep.Connection.{ConnectionInner, ConnectionContext, retry, next_request_id}
use bepository.Bep.Connection.Pipeline.{
  IsSound, Keeps, Adds, Adds-refl, register-Adds, register-Keeps, next_request_id_total,
}
use bepository.Bep.Connection.Rules.{IsOrdinary, Rules, Ends, Goes, retry-Goes, >>?-To, >>?-Goes}
use bepository.Bep.Connection.Index.{
  get_folder, apply_files, fetch_needed, advance_cursor, apply_in_folder, apply_mutual,
  apply_remote_index,
}
use bepository.Bep.Connection.Index.Requests.{fetch_needed-Goes, apply_files-Goes}

-- A connection with fewer requests than ids.
pub record IsSized {B : Backend} (conn : ConnectionInner B) : Type 0 where
  pub sound : IsSound conn
  pub small : conn.max_pending_requests < u32_mod

pub Keeps-IsSized :
    {B : Backend} {s now : ConnectionInner B} → IsSized s → Keeps s now → IsSized now
Keeps-IsSized z keeps = record {
  sound = keeps.sound z.sound;
  small = omega (arith, keeps.same_max, z.small);
}

pub has_id :
    {B : Backend} (Spends : Type 0) (now : ConnectionInner B)
    → IsSized now
    → next_request_id now ≡ none
    → Spends
has_id Spends now z e = absurd (
    clash (next_request_id_total now z.sound z.small).0
      (next_request_id_total now z.sound z.small).1 e)
  where
    clash : (id : ℕ) → next_request_id now ≡ some id → next_request_id now ≡ none → ⊥
    clash id p q = cc

module _ {B : Backend} (ctx : ConnectionContext) (files : List FileInfo) (last_sequence : ℤ) where
  abbrev IsNoCursor : Event B → Type 0
  IsNoCursor (called (Call.set_remote_state handle device state) r) = ⊥
  IsNoCursor _ = Unit {0}

  -- `apply_update` succeeded for this file.
  abbrev pub WasApplied : B.Handle → FileInfo → History B → Type 0
  WasApplied handle file [] = ⊥
  WasApplied handle file (e ∷ h) =
      ((r : UpdateResult) × (e ≡ called (Call.apply_update handle file ctx.remote_device) (ok r)))
      ⊎ WasApplied handle file h

  -- Every one of the files passed the validation and was applied.
  abbrev pub AllApplied : B.Handle → List FileInfo → History B → Type 0
  AllApplied handle l h =
      All (λ file. (validate_file_info file ≡ ok tt) × WasApplied handle file h) l

  abbrev pub BeforeCursor : History B → Type 0
  BeforeCursor h = All IsNoCursor h

  -- The cursor is moved only to the end of the batch, when all its files are applied. Before that
  -- every other call is allowed, and after it none.
  abbrev pub CursorLast : History B → Call B → Type 0
  CursorLast h (Call.set_remote_state handle device state) =
      (device ≡ ctx.remote_device)
      × (state.max_sequence ≡ last_sequence)
      × AllApplied handle files h
  CursorLast h c = BeforeCursor h

  -- The last event is that the cursor was moved.
  abbrev pub Advanced : History B → Type 0
  Advanced (called (Call.set_remote_state handle device state) (ok v) ∷ h) =
      (device ≡ ctx.remote_device)
      × (state.max_sequence ≡ last_sequence)
      × AllApplied handle files h
  Advanced h = ⊥

  ordinary-IsNoCursor :
      (c : Call B) (r : Result StorageError (Reply c)) → IsOrdinary c → IsNoCursor (called c r)
  ordinary-IsNoCursor (Call.set_remote_state handle device state) r plain = plain
  ordinary-IsNoCursor _ r plain = tt

  ordinary-CursorLast :
      (h : History B) (c : Call B) → IsOrdinary c → BeforeCursor h → CursorLast h c
  ordinary-CursorLast h (Call.set_remote_state handle device state) plain before = absurd plain
  ordinary-CursorLast h _ plain before = before

  AllApplied-cons :
      (handle : B.Handle) (e : Event B) (l : List FileInfo) (h : History B)
      → AllApplied handle l h
      → AllApplied handle l (e ∷ h)
  AllApplied-cons handle e [] h all = tt
  AllApplied-cons handle e (file ∷ l) h ((valid, was), all) =
      ((valid, inr was), AllApplied-cons handle e l h all)

  -- What holds while the files of `finished` are applied.
  abbrev InBatch : B.Handle → List FileInfo → History B → Type 0
  InBatch handle finished h = BeforeCursor h × AllApplied handle finished h

  batch_rules :
      (handle : B.Handle) (finished : List FileInfo)
      → Rules CursorLast Keeps Adds ⊥ (InBatch handle finished) IsSized
  batch_rules handle finished = record {
    told_ok = λ h b j. ((tt, j.0), AllApplied-cons handle (told b) finished h j.1);
    sent_ok = λ h m r j. ((tt, j.0), AllApplied-cons handle (sent m r) finished h j.1);
    may = λ h c plain j. ordinary-CursorLast h c plain j.0;
    call_ok = λ h c r plain j.
        ((ordinary-IsNoCursor c r plain, j.0), AllApplied-cons handle (called c r) finished h j.1);
    stable = λ s now z keeps. Keeps-IsSized z keeps;
    kept = λ now. Adds-refl now;
    added = register-Adds;
    added_ok =
        λ block size block_no now z. Keeps-IsSized z (register-Keeps block size block_no now);
    runs_out = λ now z room e. has_id ⊥ now z e;
  }

  apply-InBatch :
      (handle : B.Handle) (finished : List FileInfo) (file : FileInfo) (h : History B)
      (r : UpdateResult)
      → validate_file_info file ≡ ok tt
      → InBatch handle finished h
      → InBatch handle
          (finished ++ (file ∷ []))
          (called (Call.apply_update handle file ctx.remote_device) (ok r) ∷ h)
  apply-InBatch handle finished file h r valid (before, all) =
      let event = called (Call.apply_update handle file ctx.remote_device) (ok r) in
      (
        (tt, before),
        All-append _ finished (file ∷ []) (AllApplied-cons handle event finished h all)
            ((valid, inl (r, refl)), tt),
      )

  -- The cursor's own call: it may fail and be tried again, with no other call in between.
  advance_cursor-Goes :
      (handle : B.Handle) (index_id : ℕ) (h : History B) (s : ConnectionInner B)
      → AllApplied handle files h
      → IsSized s
      → Goes CursorLast Keeps Adds ⊥ Advanced IsSized h s
          (advance_cursor ctx handle index_id last_sequence)
  advance_cursor-Goes handle index_id h s all z =
      retry_storage_op-Ensures CursorLast Keeps Adds ⊥ ctx.policy cursor h s (Ends Advanced IsSized)
        (λ n h' f. (refl, refl, still f)) (λ h' r o. outcome o)
    where
      cursor : Call B
      cursor =
          Call.set_remote_state handle ctx.remote_device
            (record { index_id = index_id; max_sequence = last_sequence })

      failed_once :
          (e : StorageError) (h' : History B)
          → AllApplied handle files h'
          → AllApplied handle files (called cursor (err e) ∷ h')
      failed_once e h' = AllApplied-cons handle (called cursor (err e)) files h'

      still :
          {n : ℕ} {h' : History B} → Failed ctx.policy cursor h n h' → AllApplied handle files h'
      still fresh = all
      still (at_once {n} {h'} e more f) = failed_once e h' (still f)
      still (later {n} {h'} e d more f) =
          AllApplied-cons handle (told false) files (called cursor (err e) ∷ h')
            (failed_once e h' (still f))

      outcome :
          {h' : History B} {r : Result BepError (Unit {0})}
          → Outcome ctx.policy cursor h h' r
          → Ends Advanced IsSized h' s r
      outcome (succeeded v bound f) = ((refl, refl, still f), z)
      outcome (gave_up e bound last f) = tt
      outcome (shut_down e d bound more f) = tt

  apply_in_folder-Goes :
      (handle : B.Handle) (index_id : ℕ) (h : History B) (s : ConnectionInner B)
      → BeforeCursor h
      → IsSized s
      → Goes CursorLast Keeps Adds ⊥ Advanced IsSized h s
          (apply_in_folder ctx files last_sequence index_id handle)
  unfolding apply_in_folder
  apply_in_folder-Goes handle index_id h s before z =
      >>?-To (batch_rules handle files) Advanced IsSized
        (apply_files ctx handle files [] >>? fetch_needed ctx handle)
        (λ _. advance_cursor ctx handle index_id last_sequence) h s
        (>>?-Goes (batch_rules handle files) (apply_files ctx handle files [])
          (fetch_needed ctx handle) h s
          (apply_files-Goes (batch_rules handle) ctx handle (apply-InBatch handle) files [] [] h s
            (before, tt) z)
          (λ h' s' needed j k.
            fetch_needed-Goes (batch_rules handle files) ctx handle needed h' s' j k))
        (λ h' s' _ j k. advance_cursor-Goes handle index_id h' s' j.1 k)

  -- A batch of file entries from the peer, whatever the storage and the peer answer and the other task
  -- of the connection does: the cursor of the peer is moved only after all other calls, only when
  -- every file of the batch passed the validation and was applied, and to the sequence number of the
  -- batch; if the batch ends without an error, it was moved. Every access keeps the requests in flight
  -- within their bound and apart, leaves no request waiting where there is room for it if none was,
  -- and adds to the queue only if there is no room. The batch always ends.
  pub apply_remote_index_sound :
      (folder_id : FolderId) (s : ConnectionInner B)
      → IsSized s
      → Ensures CursorLast Keeps Adds ⊥
          (Ends Advanced IsSized)
          []
          s
          (apply_remote_index ctx folder_id files last_sequence)
  unfolding apply_remote_index
  apply_remote_index_sound folder_id s z now keeps =
      (Adds-refl now, shared (get_folder folder_id now.mutual_folders))
    where
      anywhere : Rules CursorLast Keeps Adds ⊥ BeforeCursor IsSized
      anywhere = record {
        told_ok = λ h b j. (tt, j);
        sent_ok = λ h m r j. (tt, j);
        may = ordinary-CursorLast;
        call_ok = λ h c r plain j. (ordinary-IsNoCursor c r plain, j);
        stable = λ s' now' z' keeps'. Keeps-IsSized z' keeps';
        kept = λ now'. Adds-refl now';
        added = register-Adds;
        added_ok = λ block size block_no now' z'.
            Keeps-IsSized z' (register-Keeps block size block_no now');
        runs_out = λ now' z' room e. has_id ⊥ now' z' e;
      }

      shared :
          (o : Option ℕ)
          → Goes CursorLast Keeps Adds ⊥ Advanced IsSized [] now
              (apply_mutual ctx folder_id files last_sequence o)
      shared none = tt
      shared (some index_id) =
          >>?-To anywhere Advanced IsSized (retry ctx (Call.folder folder_id))
            (apply_in_folder ctx files last_sequence index_id) [] now
            (retry-Goes anywhere ctx (Call.folder folder_id) [] now tt tt (Keeps-IsSized z keeps))
            (λ h' s' handle j k. apply_in_folder-Goes handle index_id h' s' j k)
