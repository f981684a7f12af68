-- ===== src/Lock/Calls/Logic.antt =====
-- What holds of a program whatever its calls are answered: each call is allowed after the calls so
-- far, and each way to end is right after all of them.
use bepository.Prelude.{Bytes, List, [], ◌∷◌, Result, ok, err, ◌≡◌, ◌⊎◌, inr}
use bepository.Lock.Calls.{
  StoreError, Packages, ObjectMeta, Body, Prog, done, panic, spent, list, get, create, head, delete,
  now, bind, Error, Fallible, or_fail, ◌>>?◌,
}

-- A call with its answer.
pub data Event (X : Packages) : Type 0 where
  listed : Result StoreError (List (ObjectMeta X)) → Event X
  got : X.FilePath → Body → Event X
  created : X.FilePath → Bytes → Result StoreError (Unit {0}) → Event X
  headed : X.FilePath → Result StoreError X.Time → Event X
  deleted : X.FilePath → Result StoreError (Unit {0}) → Event X
  read_clock : X.Time → Event X

-- The calls so far, the last one first.
abbrev pub History : Packages → Type 0
History X = List (Event X)

abbrev pub Happened : {X : Packages} → Event X → History X → Type 0
Happened e [] = ⊥
Happened e (x ∷ h) = (x ≡ e) ⊎ Happened e h

module _ {X : Packages} {A : Type 0} where
  -- `May h p`: after the calls `h` the file `p` may be deleted. `Post h a`: the program may end with
  -- `a`; `Panics h`: it may panic; `Spends h`: it may run out of fuel.
  abbrev pub Ensures :
      (May : History X → X.FilePath → Type 0) (Panics Spends : History X → Type 0)
      (Post : History X → A → Type 0)
      → History X
      → Prog X A
      → Type 0
  Ensures May Panics Spends Post h (done a) = Post h a
  Ensures May Panics Spends Post h panic = Panics h
  Ensures May Panics Spends Post h spent = Spends h
  Ensures May Panics Spends Post h (list k) =
      (r : Result StoreError (List (ObjectMeta X)))
      → Ensures May Panics Spends Post (listed r ∷ h) (k r)
  Ensures May Panics Spends Post h (get p k) =
      (r : Body) → Ensures May Panics Spends Post (got p r ∷ h) (k r)
  Ensures May Panics Spends Post h (create p b k) =
      (r : Result StoreError (Unit {0})) → Ensures May Panics Spends Post (created p b r ∷ h) (k r)
  Ensures May Panics Spends Post h (head p k) =
      (r : Result StoreError X.Time) → Ensures May Panics Spends Post (headed p r ∷ h) (k r)
  Ensures May Panics Spends Post h (delete p k) =
      May h p
      × ((r : Result StoreError (Unit {0}))
          → Ensures May Panics Spends Post (deleted p r ∷ h) (k r))
  Ensures May Panics Spends Post h (now k) =
      (t : X.Time) → Ensures May Panics Spends Post (read_clock t ∷ h) (k t)

-- What holds of a result: one thing of a value, another of an error.
abbrev pub OkOr :
    {X : Packages} {A : Type 0}
    → (History X → A → Type 0)
    → (History X → Error → Type 0)
    → History X
    → Result Error A
    → Type 0
OkOr P E h (ok a) = P h a
OkOr P E h (err e) = E h e

module _ {X : Packages} where
  -- Nothing that happened is forgotten.
  abbrev pub Extends : History X → History X → Type 0
  Extends h h' = (e : Event X) → Happened e h → Happened e h'

  pub Extends-refl : (h : History X) → Extends h h
  Extends-refl h e happened = happened

  pub Extends-trans : (h h' h'' : History X) → Extends h h' → Extends h' h'' → Extends h h''
  Extends-trans h h' h'' p q e happened = q e (p e happened)

  pub Extends-cons : (x : Event X) (h h' : History X) → Extends h h' → Extends h (x ∷ h')
  Extends-cons x h h' p e happened = inr (p e happened)

module _ {X : Packages} (May : History X → X.FilePath → Type 0)
    (Panics Spends : History X → Type 0) where
  -- One program after another: the second starts from what the first ensures.
  pub Ensures-bind :
      {A B : Type 0} (P : History X → A → Type 0) (Q : History X → B → Type 0) (m : Prog X A)
      (f : A → Prog X B) (h0 h : History X)
      → Extends h0 h
      → Ensures May Panics Spends P h m
      → ((h' : History X) (a : A) → Extends h0 h' → P h' a → Ensures May Panics Spends Q h' (f a))
      → Ensures May Panics Spends Q h (bind m f)
  unfolding bind
  Ensures-bind P Q (done a) f h0 h ext p next = next h a ext p
  Ensures-bind P Q panic f h0 h ext p next = p
  Ensures-bind P Q spent f h0 h ext p next = p
  Ensures-bind P Q (list k) f h0 h ext p next =
      λ r. Ensures-bind P Q (k r) f h0 _ (Extends-cons _ h0 h ext) (p r) next
  Ensures-bind P Q (get l k) f h0 h ext p next =
      λ r. Ensures-bind P Q (k r) f h0 _ (Extends-cons _ h0 h ext) (p r) next
  Ensures-bind P Q (create l b k) f h0 h ext p next =
      λ r. Ensures-bind P Q (k r) f h0 _ (Extends-cons _ h0 h ext) (p r) next
  Ensures-bind P Q (head l k) f h0 h ext p next =
      λ r. Ensures-bind P Q (k r) f h0 _ (Extends-cons _ h0 h ext) (p r) next
  Ensures-bind P Q (delete l k) f h0 h ext (may, p) next =
      (may, λ r. Ensures-bind P Q (k r) f h0 _ (Extends-cons _ h0 h ext) (p r) next)
  Ensures-bind P Q (now k) f h0 h ext p next =
      λ t. Ensures-bind P Q (k t) f h0 _ (Extends-cons _ h0 h ext) (p t) next

  -- What is ensured may be weakened, after no fewer calls.
  pub Ensures-map :
      {A : Type 0} (P Q : History X → A → Type 0) (m : Prog X A) (h0 h : History X)
      → Extends h0 h
      → Ensures May Panics Spends P h m
      → ((h' : History X) (a : A) → Extends h0 h' → P h' a → Q h' a)
      → Ensures May Panics Spends Q h m
  Ensures-map P Q (done a) h0 h ext p next = next h a ext p
  Ensures-map P Q panic h0 h ext p next = p
  Ensures-map P Q spent h0 h ext p next = p
  Ensures-map P Q (list k) h0 h ext p next =
      λ r. Ensures-map P Q (k r) h0 _ (Extends-cons _ h0 h ext) (p r) next
  Ensures-map P Q (get l k) h0 h ext p next =
      λ r. Ensures-map P Q (k r) h0 _ (Extends-cons _ h0 h ext) (p r) next
  Ensures-map P Q (create l b k) h0 h ext p next =
      λ r. Ensures-map P Q (k r) h0 _ (Extends-cons _ h0 h ext) (p r) next
  Ensures-map P Q (head l k) h0 h ext p next =
      λ r. Ensures-map P Q (k r) h0 _ (Extends-cons _ h0 h ext) (p r) next
  Ensures-map P Q (delete l k) h0 h ext (may, p) next =
      (may, λ r. Ensures-map P Q (k r) h0 _ (Extends-cons _ h0 h ext) (p r) next)
  Ensures-map P Q (now k) h0 h ext p next =
      λ t. Ensures-map P Q (k t) h0 _ (Extends-cons _ h0 h ext) (p t) next

  -- With `?` the second runs only if the first gives a value; its errors are passed on.
  pub Ensures->>? :
      {A B : Type 0} (P : History X → A → Type 0) (Q : History X → Result Error B → Type 0)
      (m : Fallible X A) (f : A → Fallible X B) (h : History X)
      → Ensures May Panics Spends (OkOr P (λ h' e. Q h' (err e))) h m
      → ((h' : History X) (a : A) → Extends h h' → P h' a → Ensures May Panics Spends Q h' (f a))
      → Ensures May Panics Spends Q h (m >>? f)
  unfolding ◌>>?◌
  Ensures->>? {A} {B} P Q m f h p next =
      Ensures-bind (OkOr P (λ h' e. Q h' (err e))) Q m (or_fail f) h h (Extends-refl h) p go
    where
      go :
          (h' : History X) (r : Result Error A)
          → Extends h h'
          → OkOr P (λ h' e. Q h' (err e)) h' r
          → Ensures May Panics Spends Q h' (or_fail f r)
      go h' (ok a) ext p = next h' a ext p
      go h' (err e) ext p = p

  -- What is ensured of a value may be weakened; its errors say the same.
  pub OkOr-map :
      {A : Type 0} (P Q : History X → A → Type 0) (E : History X → Error → Type 0)
      (m : Fallible X A) (h : History X)
      → Ensures May Panics Spends (OkOr P E) h m
      → ((h' : History X) (a : A) → Extends h h' → P h' a → Q h' a)
      → Ensures May Panics Spends (OkOr Q E) h m
  OkOr-map {A} P Q E m h p next = Ensures-map (OkOr P E) (OkOr Q E) m h h (Extends-refl h) p go
    where
      go : (h' : History X) (r : Result Error A) → Extends h h' → OkOr P E h' r → OkOr Q E h' r
      go h' (ok a) ext q = next h' a ext q
      go h' (err e) ext q = q
