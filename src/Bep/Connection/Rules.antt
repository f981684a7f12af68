-- ===== src/Bep/Connection/Rules.antt =====
-- Rules for the programs of bepository-bep/src/connection.rs: what their storage calls, messages and
-- accesses keep, for any two properties of the history and of the shared state.
use bepository.Prelude.{
  ℕ, Bytes, Bool, true, false, Option, none, some, ◌∷◌, Result, ok, err, ◌≡◌, refl,
}
use bepository.Prelude.Int.{ℤ}
use bepository.Bep.Errors.{StorageError, BepError}
use bepository.Bep.Proto.{Vector, FileInfo}
use bepository.Bep.Messages.{Message}
use bepository.Bep.Calls.{Backend, Call, Reply, done, send, ◌>>?◌}
use bepository.Bep.Calls.Logic.{called, sent, told, History, Ensures, OkOr, Ensures->>?}
use bepository.Bep.Retry.Ends.{
  Failed, fresh, at_once, later, Outcome, succeeded, gave_up, shut_down, retry_storage_op-Ensures,
}
use bepository.Bep.Connection.{
  FileBlock, ConnectionInner, ConnectionContext, Conn, retry, should_complete, complete_if,
  maybe_complete_file, notify, complete_and_notify, next_request_id, is_full, register,
  send_request, submitted, submit_or_defer_block, file_update, request_of,
}

-- Every call but the one that moves the cursor of the peer.
abbrev pub IsOrdinary : {B : Backend} → Call B → Type 0
IsOrdinary (Call.set_remote_state h device state) = ⊥
IsOrdinary _ = Unit {0}

-- How a program ends: unless there is an error, `J` holds of the history and `K` of the state.
abbrev pub Ends :
    {B : Backend} (J : History B → Type 0) (K : ConnectionInner B → Type 0) {A : Type 0}
    → History B
    → ConnectionInner B
    → Result BepError A
    → Type 0
Ends J K h s r = OkOr (λ h' s' a. J h' × K s') (λ h' s' e. Unit {0}) h s r

module _ {B : Backend} (May : History B → Call B → Type 0)
    (Rely Promise : ConnectionInner B → ConnectionInner B → Type 0) (Spends : Type 0)
    (J : History B → Type 0) (K : ConnectionInner B → Type 0) where
  -- `J` holds of the history and `K` of the state, whatever ordinary calls, messages and added
  -- requests there are, and whatever other tasks do.
  pub record Rules : Type 0 where
    pub told_ok : (h : History B) (b : Bool) → J h → J (told b ∷ h)
    pub sent_ok :
        (h : History B) (m : Message) (r : Result BepError (Unit {0})) → J h → J (sent m r ∷ h)
    pub may : (h : History B) (c : Call B) → IsOrdinary c → J h → May h c
    pub call_ok :
        (h : History B) (c : Call B) (r : Result StorageError (Reply c))
        → IsOrdinary c
        → J h
        → J (called c r ∷ h)
    pub stable : (s now : ConnectionInner B) → K s → Rely s now → K now
    pub kept : (now : ConnectionInner B) → Promise now now
    pub added :
        (block : FileBlock B) (size : ℤ) (block_no : ℕ) (now : ConnectionInner B)
        → Promise now (register block size block_no now)
    pub added_ok :
        (block : FileBlock B) (size : ℤ) (block_no : ℕ) (now : ConnectionInner B)
        → K now
        → K (register block size block_no now)
    pub runs_out :
        (now : ConnectionInner B)
        → K now
        → is_full now ≡ false
        → next_request_id now ≡ none
        → Spends

  abbrev pub Goes : {A : Type 0} → History B → ConnectionInner B → Conn B A → Type 0
  Goes {A} h s m = Ensures May Rely Promise Spends (Ends J K {A = A}) h s m

module _ {B : Backend} {May : History B → Call B → Type 0}
    {Rely Promise : ConnectionInner B → ConnectionInner B → Type 0} {Spends : Type 0}
    {J : History B → Type 0} {K : ConnectionInner B → Type 0}
    (rules : Rules May Rely Promise Spends J K) where
  Failed-J :
      (ctx : ConnectionContext) (c : Call B) (h : History B) {n : ℕ} {h' : History B}
      → IsOrdinary c
      → J h
      → Failed ctx.policy c h n h'
      → J h'
  Failed-J ctx c h plain j fresh = j
  Failed-J ctx c h plain j (at_once {n} {h'} e more f) =
      rules.call_ok h' c (err e) plain (Failed-J ctx c h plain j f)
  Failed-J ctx c h plain j (later {n} {h'} e d more f) =
      rules.told_ok _ false (rules.call_ok h' c (err e) plain (Failed-J ctx c h plain j f))

  -- A storage call that is retried: `J'` holds once it succeeded.
  pub retry-To :
      (J' : History B → Type 0) (ctx : ConnectionContext) (c : Call B) (h : History B)
      (s : ConnectionInner B)
      → IsOrdinary c
      → ((h' : History B) (v : Reply c) → J h' → J' (called c (ok v) ∷ h'))
      → J h
      → K s
      → Ensures May Rely Promise Spends (Ends J' K {A = Reply c}) h s (retry ctx c)
  retry-To J' ctx c h s plain step j k =
      retry_storage_op-Ensures May Rely Promise Spends ctx.policy c h s (Ends J' K)
        (λ n h' f. rules.may h' c plain (Failed-J ctx c h plain j f)) (λ h' r o. outcome o)
    where
      outcome :
          {h' : History B} {r : Result BepError (Reply c)}
          → Outcome ctx.policy c h h' r
          → Ends J' K h' s r
      outcome (succeeded {n} {h'} v bound f) = (step h' v (Failed-J ctx c h plain j f), k)
      outcome (gave_up e bound last f) = tt
      outcome (shut_down e d bound more f) = tt

  pub retry-Goes :
      (ctx : ConnectionContext) (c : Call B) (h : History B) (s : ConnectionInner B)
      → IsOrdinary c
      → J h
      → K s
      → Goes May Rely Promise Spends J K h s (retry ctx c)
  retry-Goes ctx c h s plain = retry-To J ctx c h s plain (λ h' v. rules.call_ok h' c (ok v) plain)

  -- A message, and nothing after it.
  pub send-Goes :
      (m : Message) (h : History B) (s : ConnectionInner B)
      → J h
      → K s
      → Goes May Rely Promise Spends J K h s (send m done)
  send-Goes m h s j k (ok done_) = (rules.sent_ok h m (ok done_) j, k)
  send-Goes m h s j k (err e) = tt

  -- `?` after a program that ends as the rules say.
  pub >>?-To :
      {A C : Type 0} (J' : History B → Type 0) (K' : ConnectionInner B → Type 0) (m : Conn B A)
      (f : A → Conn B C) (h : History B) (s : ConnectionInner B)
      → Goes May Rely Promise Spends J K h s m
      → ((h' : History B) (s' : ConnectionInner B) (a : A)
          → J h'
          → K s'
          → Goes May Rely Promise Spends J' K' h' s' (f a))
      → Goes May Rely Promise Spends J' K' h s (m >>? f)
  >>?-To J' K' m f h s p next =
      Ensures->>? May Rely Promise Spends (λ h' s' a. J h' × K s') (λ h' s' e. Unit {0})
        (Ends J' K') f (λ h' s' a both. next h' s' a both.0 both.1) (λ h' s' e j. tt) h s m p

  pub >>?-Goes :
      {A C : Type 0} (m : Conn B A) (f : A → Conn B C) (h : History B) (s : ConnectionInner B)
      → Goes May Rely Promise Spends J K h s m
      → ((h' : History B) (s' : ConnectionInner B) (a : A)
          → J h'
          → K s'
          → Goes May Rely Promise Spends J K h' s' (f a))
      → Goes May Rely Promise Spends J K h s (m >>? f)
  >>?-Goes m f = >>?-To J K m f

  pub complete_and_notify-Goes :
      (handle : B.Handle) (name : Bytes) (version : Option Vector) (ctx : ConnectionContext)
      (h : History B) (s : ConnectionInner B)
      → J h
      → K s
      → Goes May Rely Promise Spends J K h s (complete_and_notify handle name version ctx)
  unfolding complete_and_notify
  complete_and_notify-Goes handle name version ctx h s j k =
      >>?-Goes (maybe_complete_file handle name version ctx) (notify handle) h s looked told_peer
    where
      completed :
          (now : ConnectionInner B) (b : Bool)
          → K now
          → Goes May Rely Promise Spends J K h now (complete_if ctx handle name version b)
      completed now true k' = retry-Goes ctx (Call.complete_file handle name version) h now tt j k'
      completed now false k' = (j, k')

      looked : Goes May Rely Promise Spends J K h s (maybe_complete_file handle name version ctx)
      looked now rely = (
        rules.kept now,
        completed now (should_complete now (B.id_of handle) name) (rules.stable s now k rely),
      )

      told_peer :
          (h' : History B) (s' : ConnectionInner B) (o : Option FileInfo)
          → J h'
          → K s'
          → Goes May Rely Promise Spends J K h' s' (notify handle o)
      told_peer h' s' none j' k' = (j', k')
      told_peer h' s' (some fi) j' k' = send-Goes (file_update (B.id_of handle) fi) h' s' j' k'

  pub submit_or_defer_block-Goes :
      (block : FileBlock B) (size : ℤ) (block_no : ℕ) (h : History B) (s : ConnectionInner B)
      → J h
      → K s
      → Goes May Rely Promise Spends J K h s (submit_or_defer_block block size block_no)
  unfolding submit_or_defer_block
  submit_or_defer_block-Goes block size block_no h s j k now rely = (
    rules.added block size block_no now,
    after (is_full now) refl _ (rules.added_ok block size block_no now (rules.stable s now k rely)),
  )
    where
      sent_if :
          (o : Option ℕ)
          → is_full now ≡ false
          → next_request_id now ≡ o
          → (s' : ConnectionInner B) → K s'
          → Goes May Rely Promise Spends J K h s' (send_request block size block_no o)
      sent_if none room e s' k' = rules.runs_out now (rules.stable s now k rely) room e
      sent_if (some id) room e s' k' =
          send-Goes (Message.request (request_of block size block_no id)) h s' j k'

      after :
          (b : Bool)
          → is_full now ≡ b
          → (s' : ConnectionInner B) → K s'
          → Goes May Rely Promise Spends J K h s' (submitted block size block_no now b)
      after true full s' k' = (j, k')
      after false room s' k' = sent_if (next_request_id now) room refl s' k'
