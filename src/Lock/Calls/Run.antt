-- ===== src/Lock/Calls/Run.antt =====
-- Running a program against given answers, and what `Ensures` says of every run.
use bepository.Prelude.{Bytes, List, ◌∷◌, Result}
use bepository.Lock.Calls.{
  StoreError, Packages, ObjectMeta, Body, Prog, done, panic, spent, list, get, create, head, delete,
  now,
}
use bepository.Lock.Calls.Logic.{
  listed, got, created, headed, deleted, read_clock, History, Ensures,
}

-- What the store and the clock answer, given all that was asked and answered before.
pub record Answers (X : Packages) : Type 0 where
  pub to_list : History X → Result StoreError (List (ObjectMeta X))
  pub to_get : History X → X.FilePath → Body
  pub to_create : History X → X.FilePath → Bytes → Result StoreError (Unit {0})
  pub to_head : History X → X.FilePath → Result StoreError X.Time
  pub to_delete : History X → X.FilePath → Result StoreError (Unit {0})
  pub to_now : History X → X.Time

pub data Ending (A : Type 0) : Type 0 where
  returned : A → Ending A
  panicked out_of_fuel : Ending A

module _ {X : Packages} {A : Type 0} (answers : Answers X) where
  -- How a program ends, and all its calls.
  unfoldable pub run : History X → Prog X A → Ending A × History X
  run h (done a) = (returned a, h)
  run h panic = (panicked, h)
  run h spent = (out_of_fuel, h)
  run h (list k) = let r = answers.to_list h in run (listed r ∷ h) (k r)
  run h (get p k) = let r = answers.to_get h p in run (got p r ∷ h) (k r)
  run h (create p b k) = let r = answers.to_create h p b in run (created p b r ∷ h) (k r)
  run h (head p k) = let r = answers.to_head h p in run (headed p r ∷ h) (k r)
  run h (delete p k) = let r = answers.to_delete h p in run (deleted p r ∷ h) (k r)
  run h (now k) = let t = answers.to_now h in run (read_clock t ∷ h) (k t)

  module _ (May : History X → X.FilePath → Type 0) (Panics Spends : History X → Type 0)
      (Post : History X → A → Type 0) where
    abbrev pub EndsWell : Ending A × History X → Type 0
    EndsWell (returned a, h) = Post h a
    EndsWell (panicked, h) = Panics h
    EndsWell (out_of_fuel, h) = Spends h

    -- What is ensured for all answers holds at the end of a run with these.
    pub run-EndsWell :
        (m : Prog X A) (h : History X) → Ensures May Panics Spends Post h m → EndsWell (run h m)
    unfolding run
    run-EndsWell (done a) h p = p
    run-EndsWell panic h p = p
    run-EndsWell spent h p = p
    run-EndsWell (list k) h p = run-EndsWell (k _) _ (p _)
    run-EndsWell (get l k) h p = run-EndsWell (k _) _ (p _)
    run-EndsWell (create l b k) h p = run-EndsWell (k _) _ (p _)
    run-EndsWell (head l k) h p = run-EndsWell (k _) _ (p _)
    run-EndsWell (delete l k) h (may, p) = run-EndsWell (k _) _ (p _)
    run-EndsWell (now k) h p = run-EndsWell (k _) _ (p _)
