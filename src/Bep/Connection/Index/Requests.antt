-- ===== src/Bep/Connection/Index/Requests.antt =====
-- The batches of bepository-bep/src/connection.rs: what the loops over the files and over their blocks
-- keep, and where they end.
use bepository.Prelude.{
  ℕ, suc, ◌^◌, Bool, true, false, List, [], ◌∷◌, ◌++◌, append-nil, append_assoc, Result, ok, err,
  ◌≡◌, refl, ltb, Bool-cases, inl, inr,
}
use bepository.Prelude.{sym}
use mathlib.Core.Path.{subst}
use bepository.Bep.Errors.{BepError}
use bepository.Bep.Proto.{BlockInfo, FileInfo}
use bepository.Bep.Conflict.{ConflictResolution}
use bepository.Bep.Validate.{validate_file_info}
use bepository.Bep.Calls.{Backend, UpdateResult, Call, or_fail, ◌>>?◌}
use bepository.Bep.Calls.Logic.{called, told, History}
use bepository.Bep.Connection.{
  ConnectionInner, ConnectionContext, Conn, retry, submit_or_defer_block, complete_and_notify,
  send_index_update, file_update,
}
use bepository.Bep.Connection.Rules.{
  Rules, Goes, retry-To, retry-Goes, send-Goes, >>?-Goes, >>?-To, complete_and_notify-Goes,
  submit_or_defer_block-Goes,
}
use bepository.Bep.Connection.Index.{
  block_of_file, request_missing, request_block, request_from, request_blocks, resolved, updated,
  apply_file, apply_files, fetch_needed,
}

module _ {B : Backend} {May : History B → Call B → Type 0}
    {Rely Promise : ConnectionInner B → ConnectionInner B → Type 0} {Spends : Type 0}
    {J : History B → Type 0} {K : ConnectionInner B → Type 0}
    (rules : Rules May Rely Promise Spends J K) (ctx : ConnectionContext) (handle : B.Handle) where
  request_from-Goes :
      (file : FileInfo) (blocks : List BlockInfo) (i : ℕ) (h : History B) (s : ConnectionInner B)
      → J h
      → K s
      → Goes May Rely Promise Spends J K h s (request_from ctx handle file blocks i)
  unfolding request_from
  request_from-Goes file [] i h s j k = (j, k)
  request_from-Goes file (block ∷ blocks) i h s j k =
      asked (λ h' s'. request_from-Goes file blocks (suc i) h' s')
    where
      Later : Type 0
      Later =
          (h' : History B) (s' : ConnectionInner B)
          → J h'
          → K s'
          → Goes May Rely Promise Spends J K h' s' (request_from ctx handle file blocks (suc i))

      missing :
          Later
          → (h' : History B) (s' : ConnectionInner B) (reused : Bool) → J h'
          → K s'
          → Goes May Rely Promise Spends J K h' s' (
              request_missing handle file block i
                (request_from ctx handle file blocks (suc i))
                reused)
      missing next h' s' true j' k' = next h' s' j' k'
      missing next h' s' false j' k' = elim (Bool-cases (ltb i (2 ^ 31))) [
        | inl small ↦ rw small (
            >>?-Goes rules (submit_or_defer_block (block_of_file handle file block) block.size i)
              (λ _. request_from ctx handle file blocks (suc i)) h' s'
              (submit_or_defer_block-Goes rules (block_of_file handle file block) block.size i h' s'
                j' k')
              (λ h'' s'' _. next h'' s''))
        | inr large ↦ rw large tt
      ]

      asked :
          Later
          → (b : Bool)
          → Goes May Rely Promise Spends J K (told b ∷ h) s (
              request_block ctx handle file block i (request_from ctx handle file blocks (suc i)) b)
      asked next true = (rules.told_ok h true j, k)
      asked next false =
          >>?-Goes rules
            (retry ctx (Call.reuse_block handle file.name block.offset block.hash block.size))
            (request_missing handle file block i (request_from ctx handle file blocks (suc i))) _ s
            (retry-Goes rules ctx
              (Call.reuse_block handle file.name block.offset block.hash block.size) _ s tt
              (rules.told_ok h false j) k)
            (missing next)

  pub fetch_needed-Goes :
      (needed : List FileInfo) (h : History B) (s : ConnectionInner B)
      → J h
      → K s
      → Goes May Rely Promise Spends J K h s (fetch_needed ctx handle needed)
  unfolding fetch_needed
  fetch_needed-Goes [] h s j k = (j, k)
  fetch_needed-Goes (fi ∷ fis) h s j k =
      >>?-Goes rules (request_blocks ctx handle fi >>? complete) (λ _. fetch_needed ctx handle fis)
        h s
        (>>?-Goes rules (request_blocks ctx handle fi) complete h s
          (request_from-Goes fi fi.blocks 0 h s j k)
          (λ h' s' _. complete_and_notify-Goes rules handle fi.name fi.version ctx h' s'))
        (λ h' s' _. fetch_needed-Goes fis h' s')
    where
      complete : Unit {0} → Conn B (Unit {0})
      complete _ = complete_and_notify handle fi.name fi.version ctx

-- The loop over the files: `J done` holds once the files `done` are applied.
module _ {B : Backend} {May : History B → Call B → Type 0}
    {Rely Promise : ConnectionInner B → ConnectionInner B → Type 0} {Spends : Type 0}
    {J : List FileInfo → History B → Type 0} {K : ConnectionInner B → Type 0}
    (rules : (finished : List FileInfo) → Rules May Rely Promise Spends (J finished) K)
    (ctx : ConnectionContext) (handle : B.Handle)
    (applies : (finished : List FileInfo) (file : FileInfo) (h : History B) (r : UpdateResult)
      → validate_file_info file ≡ ok tt
      → J finished h
      → J
          (finished ++ (file ∷ []))
          (called (Call.apply_update handle file ctx.remote_device) (ok r) ∷ h)) where
  resolved-Goes :
      (finished needed : List FileInfo) (r : Result BepError ConflictResolution) (h : History B)
      (s : ConnectionInner B)
      → J finished h
      → K s
      → Goes May Rely Promise Spends (J finished) K h s (or_fail (resolved ctx handle needed) r)
  resolved-Goes finished needed (err e) h s j k = tt
  resolved-Goes finished needed (ok r) h s j k =
      >>?-Goes (rules finished)
        (retry ctx (Call.resolve_conflict handle r.winner r.loser r.loser_path)) _ h s
        (retry-Goes (rules finished) ctx
          (Call.resolve_conflict handle r.winner r.loser r.loser_path) h s tt j k)
        (λ h' s' _ j' k'. (j', k'))

  updated-Goes :
      (finished needed : List FileInfo) (u : UpdateResult) (h : History B) (s : ConnectionInner B)
      → J finished h
      → K s
      → Goes May Rely Promise Spends (J finished) K h s (updated ctx handle needed u)
  unfolding send_index_update
  updated-Goes finished needed (UpdateResult.need_blocks fi) h s j k = (j, k)
  updated-Goes finished needed UpdateResult.no_action h s j k = (j, k)
  updated-Goes finished needed (UpdateResult.applied fi) h s j k =
      >>?-Goes (rules finished) (send_index_update fi (B.id_of handle)) _ h s
        (send-Goes (rules finished) (file_update (B.id_of handle) fi) h s j k)
        (λ h' s' _ j' k'. (j', k'))
  updated-Goes finished needed (UpdateResult.concurrent local remote) h s j k =
      resolved-Goes finished needed (ctx.resolve local ctx.local_device remote ctx.remote_device) h
        s j k

  apply_file-Goes :
      (finished needed : List FileInfo) (file : FileInfo) (h : History B) (s : ConnectionInner B)
      → J finished h
      → K s
      → Goes May Rely Promise Spends
          (J (finished ++ (file ∷ [])))
          K
          h
          s
          (apply_file ctx handle needed file)
  apply_file-Goes finished needed file h s j k = checked (validate_file_info file) refl
    where
      update : Conn B UpdateResult
      update = retry ctx (Call.apply_update handle file ctx.remote_device)

      checked :
          (r : Result BepError (Unit {0}))
          → validate_file_info file ≡ r
          → Goes May Rely Promise Spends
              (J (finished ++ (file ∷ [])))
              K
              h
              s
              (or_fail (λ _. update >>? updated ctx handle needed) r)
      checked (err e) invalid = tt
      checked (ok tt) valid =
          >>?-Goes (rules (finished ++ (file ∷ []))) update (updated ctx handle needed) h s
            (retry-To (rules finished) (J (finished ++ (file ∷ []))) ctx
              (Call.apply_update handle file ctx.remote_device) h s tt
              (λ h' r j'. applies finished file h' r valid j') j k)
            (λ h' s' u j' k'. updated-Goes (finished ++ (file ∷ [])) needed u h' s' j' k')

  pub apply_files-Goes :
      (files finished needed : List FileInfo) (h : History B) (s : ConnectionInner B)
      → J finished h
      → K s
      → Goes May Rely Promise Spends
          (J (finished ++ files))
          K
          h
          s
          (apply_files ctx handle files needed)
  unfolding apply_files
  apply_files-Goes [] finished needed h s j k =
      (subst (λ l. J l h) (sym (append-nil finished)) j, k)
  apply_files-Goes (file ∷ files) finished needed h s j k =
      >>?-To (rules (finished ++ (file ∷ []))) (J (finished ++ (file ∷ files))) K
        (apply_file ctx handle needed file) (apply_files ctx handle files) h s
        (apply_file-Goes finished needed file h s j k)
        (λ h' s' needed' j' k'.
          subst
            (λ l. Goes May Rely Promise Spends (J l) K h' s' (apply_files ctx handle files needed'))
            (append_assoc finished (file ∷ []) files)
            (apply_files-Goes files (finished ++ (file ∷ [])) needed' h' s' j' k'))
