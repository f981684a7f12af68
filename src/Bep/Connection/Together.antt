-- ===== src/Bep/Connection/Together.antt =====
-- The message task and the index task of a connection (bepository-bep/src/connection.rs) at once: their
-- calls, messages and accesses in any order.
use bepository.Prelude.{ℕ, Bool, List, [], ◌∷◌, Result, ok, err, inl, inr}
use bepository.Prelude.Int.{ℤ}
use bepository.Bep.Errors.{StorageError, BepError}
use bepository.Bep.Proto.{FileInfo}
use bepository.Bep.Messages.{Message, Response}
use bepository.Bep.Calls.{
  Backend, FolderId, Call, Reply, Prog, done, spent, call, send, access, cancelled, sleep,
}
use bepository.Bep.Calls.Logic.{called, sent, told, History, Ensures}
use bepository.Bep.Connection.{ConnectionInner, ConnectionContext, handle_response}
use bepository.Bep.Connection.Pipeline.{Keeps, Keeps-refl, Keeps-trans, Adds, Adds-refl, Adds-trans}
use bepository.Bep.Connection.Rules.{Ends}
use bepository.Bep.Connection.Index.{apply_remote_index}
use bepository.Bep.Connection.Index.Cursor.{
  IsSized, Keeps-IsSized, CursorLast, Advanced, apply_remote_index_sound,
}
use bepository.Bep.Connection.Drain.{Anything, Drained, handle_response-Drained}

-- A task: what it did, and what it still has to do.
pub record Task (B : Backend) (S A : Type 0) : Type 0 where
  pub past : History B
  pub rest : Prog B S A

abbrev pub task : {B : Backend} {S A : Type 0} → History B → Prog B S A → Task B S A
task h m = record { past = h; rest = m }

-- One step of a task on the shared state, whatever the storage, the peer and the token answer.
pub data Move (B : Backend) (S A : Type 0) : S → Task B S A → S → Task B S A → Type 0 where
  answered :
      {s : S} {h : History B} (c : Call B) (k : Result StorageError (Reply c) → Prog B S A)
      (r : Result StorageError (Reply c))
      → Move B S A s (task h (call c k)) s (task (called c r ∷ h) (k r))
  delivered :
      {s : S} {h : History B} (m : Message) (k : Result BepError (Unit {0}) → Prog B S A)
      (r : Result BepError (Unit {0}))
      → Move B S A s (task h (send m k)) s (task (sent m r ∷ h) (k r))
  asked :
      {s : S} {h : History B} (k : Bool → Prog B S A) (b : Bool)
      → Move B S A s (task h (cancelled k)) s (task (told b ∷ h) (k b))
  slept :
      {s : S} {h : History B} (d : ℕ) (k : Bool → Prog B S A) (b : Bool)
      → Move B S A s (task h (sleep d k)) s (task (told b ∷ h) (k b))
  accessed :
      {s : S} {h : History B} (f : S → S) (k : S → Prog B S A)
      → Move B S A s (task h (access f k)) (f s) (task h (k s))

-- What two tasks come to from a state, their steps in any order.
pub data Reaches (B : Backend) (S A C : Type 0) (s : S) (t : Task B S A) (u : Task B S C)
    : S → Task B S A → Task B S C → Type 0 where
  start : Reaches B S A C s t u s t u
  first :
      {s' s'' : S} {t' t'' : Task B S A} {u' : Task B S C}
      → Reaches B S A C s t u s' t' u'
      → Move B S A s' t' s'' t''
      → Reaches B S A C s t u s'' t'' u'
  second :
      {s' s'' : S} {t' : Task B S A} {u' u'' : Task B S C}
      → Reaches B S A C s t u s' t' u'
      → Move B S C s' u' s'' u''
      → Reaches B S A C s t u s'' t' u''

-- What is seen of a task where it stands: the call it makes next is allowed, it has not run out of
-- fuel, and if it has ended, `Post` holds.
abbrev pub Shows :
    {B : Backend} {S A : Type 0} (May : History B → Call B → Type 0)
    (Post : History B → S → A → Type 0)
    → S
    → History B
    → Prog B S A
    → Type 0
Shows May Post s h (done a) = Post h s a
Shows May Post s h spent = ⊥
Shows May Post s h (call c k) = May h c
Shows May Post s h _ = Unit {0}

module _ {B : Backend} {S : Type 0} {A : Type 0} (May : History B → Call B → Type 0)
    (Rely Promise : S → S → Type 0) (Post : History B → S → A → Type 0) where
  -- Since its last access the others kept to `Rely`, and what it still does is right.
  pub record IsRight (s : S) (t : Task B S A) : Type 0 where
    pub seen : S
    pub since : Rely seen s
    pub ensured : Ensures May Rely Promise ⊥ Post t.past seen t.rest

  Move-IsRight :
      {s s' : S} {t t' : Task B S A}
      → ((now : S) → Rely now now)
      → ((now : S) → Promise now now)
      → Move B S A s t s' t'
      → IsRight s t
      → Promise s s' × IsRight s' t'
  Move-IsRight {s} relies promises (answered c k r) i =
      (promises s, record { seen = i.seen; since = i.since; ensured = i.ensured.1 r })
  Move-IsRight {s} relies promises (delivered m k r) i =
      (promises s, record { seen = i.seen; since = i.since; ensured = i.ensured r })
  Move-IsRight {s} relies promises (asked k b) i =
      (promises s, record { seen = i.seen; since = i.since; ensured = i.ensured b })
  Move-IsRight {s} relies promises (slept d k b) i =
      (promises s, record { seen = i.seen; since = i.since; ensured = i.ensured b })
  Move-IsRight {s} relies promises (accessed f k) i =
      let both = i.ensured s i.since in
      (both.0, record { seen = f s; since = relies (f s); ensured = both.1 })

  IsRight-Shows :
      {s : S} {t : Task B S A}
      → ((h : History B) (s' now : S) (a : A) → Rely s' now → Post h s' a → Post h now a)
      → IsRight s t
      → Shows May Post s t.past t.rest
  IsRight-Shows {s} {t} stable i = shows t.past t.rest i.ensured
    where
      shows :
          (h : History B) (m : Prog B S A)
          → Ensures May Rely Promise ⊥ Post h i.seen m
          → Shows May Post s h m
      shows h (done a) e = stable h i.seen s a i.since e
      shows h spent e = e
      shows h (call c k) e = e.0
      shows h (send m k) e = tt
      shows h (access f k) e = tt
      shows h (cancelled k) e = tt
      shows h (sleep d k) e = tt

abbrev pub TaskResult : Type 0
TaskResult = Result BepError (Unit {0})

module _ {B : Backend} (ctx : ConnectionContext) (files : List FileInfo) (last_sequence : ℤ) where
  abbrev pub Ended : History B → ConnectionInner B → TaskResult → Type 0
  Ended = Ends (Advanced ctx files last_sequence) IsSized

  -- The requests are sound, and both tasks are right where they stand.
  record BothRight (s : ConnectionInner B) (t u : Task B (ConnectionInner B) TaskResult)
      : Type 0 where
    sized : IsSized s
    message : IsRight Anything Adds Keeps Drained s t
    index : IsRight (CursorLast ctx files last_sequence) Keeps Adds Ended s u

  Reaches-BothRight :
      {s : ConnectionInner B} {t u : Task B (ConnectionInner B) TaskResult} {s' : ConnectionInner B}
      {t' u' : Task B (ConnectionInner B) TaskResult}
      → BothRight s t u
      → Reaches B (ConnectionInner B) TaskResult TaskResult s t u s' t' u'
      → BothRight s' t' u'
  Reaches-BothRight both start = both
  Reaches-BothRight both (first r m) =
      let i = Reaches-BothRight both r in
      let moved = Move-IsRight Anything Adds Keeps Drained Adds-refl Keeps-refl m i.message in
      record {
        sized = Keeps-IsSized i.sized moved.0;
        message = moved.1;
        index = record {
          seen = i.index.seen;
          since = Keeps-trans i.index.since moved.0;
          ensured = i.index.ensured;
        };
      }
  Reaches-BothRight both (second r m) =
      let i = Reaches-BothRight both r in
      let moved =
        Move-IsRight (CursorLast ctx files last_sequence) Keeps Adds Ended Keeps-refl Adds-refl m
          i.index in
      record {
        sized = Keeps-IsSized i.sized moved.0.keeps;
        message = record {
          seen = i.message.seen;
          since = Adds-trans i.message.since moved.0;
          ensured = i.message.ensured;
        };
        index = moved.1;
      }

  Drained-Adds :
      (h : History B) (s now : ConnectionInner B) (r : TaskResult)
      → Adds s now
      → Drained h s r
      → Drained h now r
  Drained-Adds h s now (ok done_) adds (z, inl ready) =
      (Keeps-IsSized z adds.keeps, inl (adds.ready ready))
  Drained-Adds h s now (ok done_) adds (z, inr stopped) = (Keeps-IsSized z adds.keeps, inr stopped)
  Drained-Adds h s now (err e) adds d = tt

  Ended-Keeps :
      (h : History B) (s now : ConnectionInner B) (r : TaskResult)
      → Keeps s now
      → Ended h s r
      → Ended h now r
  Ended-Keeps h s now (ok done_) keeps (advanced, z) = (advanced, Keeps-IsSized z keeps)
  Ended-Keeps h s now (err e) keeps d = tt

  -- A response and a batch of file entries that are handled at once, their steps in any order and
  -- whatever the storage and the peer answer: in every state that is reached, the requests in flight
  -- are within their bound and apart. When the response is handled without an error, no request waits
  -- in the state of that moment and of every later one where there is room for it, or a shutdown was
  -- requested; and the cursor of the peer is moved only as the last call of the batch, when all its
  -- files were applied.
  pub together_sound :
      (folder_id : FolderId) (response : Response) (s s' : ConnectionInner B)
      (t u : Task B (ConnectionInner B) TaskResult)
      → IsSized s
      → Reaches B
          (ConnectionInner B)
          TaskResult
          TaskResult
          s
          (task [] (handle_response ctx response))
          (task [] (apply_remote_index ctx folder_id files last_sequence))
          s'
          t
          u
      → IsSized s'
        × Shows Anything Drained s' t.past t.rest
        × Shows (CursorLast ctx files last_sequence) Ended s' u.past u.rest
  together_sound folder_id response s s' t u z r = (
    both.sized,
    IsRight-Shows Anything Adds Keeps Drained Drained-Adds both.message,
    IsRight-Shows (CursorLast ctx files last_sequence) Keeps Adds Ended Ended-Keeps both.index,
  )
    where
      both : BothRight s' t u
      both =
          Reaches-BothRight
            (record {
              sized = z;
              message = record {
                seen = s;
                since = Adds-refl s;
                ensured = handle_response-Drained ctx response s z;
              };
              index = record {
                seen = s;
                since = Keeps-refl s;
                ensured = apply_remote_index_sound ctx files last_sequence folder_id s z;
              };
            })
            r
