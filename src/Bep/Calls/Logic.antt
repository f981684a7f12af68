-- ===== src/Bep/Calls/Logic.antt =====
-- What holds of a connection's program whatever the storage and the peer answer and whatever the
-- other tasks do to the shared state.
use bepository.Prelude.{Bool, List, ◌∷◌, Result, ok, err}
use bepository.Bep.Errors.{StorageError, BepError}
use bepository.Bep.Messages.{Message}
use bepository.Bep.Calls.{
  Backend, Call, Reply, Prog, done, spent, call, send, access, cancelled, sleep, bind, Fallible,
  or_fail, ◌>>?◌,
}

-- A call with its answer, a message with the outcome of sending it, or what the token said.
pub data Event (B : Backend) : Type 0 where
  called : (c : Call B) → Result StorageError (Reply c) → Event B
  sent : Message → Result BepError (Unit {0}) → Event B
  told : Bool → Event B

-- The events so far, the last one first.
abbrev pub History : Backend → Type 0
History B = List (Event B)

module _ {B : Backend} {S A : Type 0} where
  -- A call `c` is made only where `May` allows it after the events so far. Before each access, other
  -- tasks may change the state as `Rely` says, and each access keeps to `Promise`. Where the program
  -- ends, `Post` holds of the events, the state and the result; it runs out of fuel only if `Spends`.
  abbrev pub Ensures :
      (May : History B → Call B → Type 0) (Rely Promise : S → S → Type 0) (Spends : Type 0)
      (Post : History B → S → A → Type 0)
      → History B
      → S
      → Prog B S A
      → Type 0
  Ensures May Rely Promise Spends Post h s (done a) = Post h s a
  Ensures May Rely Promise Spends Post h s spent = Spends
  Ensures May Rely Promise Spends Post h s (call c k) =
      May h c
      × ((r : Result StorageError (Reply c))
          → Ensures May Rely Promise Spends Post (called c r ∷ h) s (k r))
  Ensures May Rely Promise Spends Post h s (send m k) =
      (r : Result BepError (Unit {0})) → Ensures May Rely Promise Spends Post (sent m r ∷ h) s (k r)
  Ensures May Rely Promise Spends Post h s (access f k) =
      (now : S)
      → Rely s now
      → Promise now (f now) × Ensures May Rely Promise Spends Post h (f now) (k now)
  Ensures May Rely Promise Spends Post h s (cancelled k) =
      (b : Bool) → Ensures May Rely Promise Spends Post (told b ∷ h) s (k b)
  Ensures May Rely Promise Spends Post h s (sleep d k) =
      (b : Bool) → Ensures May Rely Promise Spends Post (told b ∷ h) s (k b)

-- What holds of a result: one thing of a value, another of an error.
abbrev pub OkOr :
    {B : Backend} {S A : Type 0}
    → (History B → S → A → Type 0)
    → (History B → S → BepError → Type 0)
    → History B
    → S
    → Result BepError A
    → Type 0
OkOr P E h s (ok a) = P h s a
OkOr P E h s (err e) = E h s e

module _ {B : Backend} {S : Type 0} (May : History B → Call B → Type 0)
    (Rely Promise : S → S → Type 0) (Spends : Type 0) where
  pub Ensures-bind :
      {A C : Type 0} (P : History B → S → A → Type 0) (Q : History B → S → C → Type 0)
      (f : A → Prog B S C)
      → ((h : History B) (s : S) (a : A) → P h s a → Ensures May Rely Promise Spends Q h s (f a))
      → (h : History B) (s : S) (m : Prog B S A) → Ensures May Rely Promise Spends P h s m
      → Ensures May Rely Promise Spends Q h s (bind m f)
  unfolding bind
  Ensures-bind P Q f next h s (done a) p = next h s a p
  Ensures-bind P Q f next h s spent p = p
  Ensures-bind P Q f next h s (call c k) p =
      (p.0, λ r. Ensures-bind P Q f next (called c r ∷ h) s (k r) (p.1 r))
  Ensures-bind P Q f next h s (send m k) p =
      λ r. Ensures-bind P Q f next (sent m r ∷ h) s (k r) (p r)
  Ensures-bind P Q f next h s (access g k) p =
      λ now rely. ((p now rely).0, Ensures-bind P Q f next h (g now) (k now) (p now rely).1)
  Ensures-bind P Q f next h s (cancelled k) p =
      λ b. Ensures-bind P Q f next (told b ∷ h) s (k b) (p b)
  Ensures-bind P Q f next h s (sleep d k) p =
      λ b. Ensures-bind P Q f next (told b ∷ h) s (k b) (p b)

  -- The rule for `?`: the continuation is met only with a value, and an error passes through.
  pub Ensures->>? :
      {A C : Type 0} (P : History B → S → A → Type 0) (E : History B → S → BepError → Type 0)
      (Q : History B → S → Result BepError C → Type 0) (f : A → Fallible B S C)
      → ((h : History B) (s : S) (a : A) → P h s a → Ensures May Rely Promise Spends Q h s (f a))
      → ((h : History B) (s : S) (e : BepError) → E h s e → Q h s (err e))
      → (h : History B) (s : S) (m : Fallible B S A)
      → Ensures May Rely Promise Spends (OkOr P E) h s m
      → Ensures May Rely Promise Spends Q h s (m >>? f)
  unfolding ◌>>?◌
  Ensures->>? {A} P E Q f next fails h s m p =
      Ensures-bind (OkOr P E) Q (or_fail f) (λ h' s' r. result h' s' r) h s m p
    where
      result :
          (h' : History B) (s' : S) (r : Result BepError A)
          → OkOr P E h' s' r
          → Ensures May Rely Promise Spends Q h' s' (or_fail f r)
      result h' s' (ok a) holds = next h' s' a holds
      result h' s' (err e) holds = fails h' s' e holds

  -- A weaker conclusion.
  pub Ensures-map :
      {A : Type 0} (P Q : History B → S → A → Type 0)
      → ((h : History B) (s : S) (a : A) → P h s a → Q h s a)
      → (h : History B) (s : S) (m : Prog B S A) → Ensures May Rely Promise Spends P h s m
      → Ensures May Rely Promise Spends Q h s m
  Ensures-map P Q imp h s (done a) p = imp h s a p
  Ensures-map P Q imp h s spent p = p
  Ensures-map P Q imp h s (call c k) p =
      (p.0, λ r. Ensures-map P Q imp (called c r ∷ h) s (k r) (p.1 r))
  Ensures-map P Q imp h s (send m k) p = λ r. Ensures-map P Q imp (sent m r ∷ h) s (k r) (p r)
  Ensures-map P Q imp h s (access g k) p =
      λ now rely. ((p now rely).0, Ensures-map P Q imp h (g now) (k now) (p now rely).1)
  Ensures-map P Q imp h s (cancelled k) p = λ b. Ensures-map P Q imp (told b ∷ h) s (k b) (p b)
  Ensures-map P Q imp h s (sleep d k) p = λ b. Ensures-map P Q imp (told b ∷ h) s (k b) (p b)
