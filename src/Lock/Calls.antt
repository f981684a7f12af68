-- ===== src/Lock/Calls.antt =====
-- The calls that the lock makes: those of the `object_store` package, and the clock. A program is the
-- tree of its calls, so nothing is said of what others do to the store between two of them.
pub mod Logic
pub mod Run
use bepository.Prelude.{ℕ, Bytes, Bool, Option, none, some, List, Result, ok, err, ◌≡◌}
use bepository.Lock.Base32.{Base32Error}

-- `object_store::Error`, as far as the lock tells its cases apart.
pub data StoreError : Type 0 where
  not_found already_exists other : StoreError

pub record EpochFile : Type 0 where
  pub holder : Bytes
  pub priority : ℕ
  pub duration : ℕ

-- What the lock takes from packages: paths and their text, JSON, and the times of `chrono`. `seconds`
-- is `Duration::seconds`, which panics out of range: `none`.
pub record Packages : Type 1 where
  pub FilePath : Type 0
  pub text : FilePath → Bytes
  pub filename : FilePath → Option Bytes
  pub join : FilePath → Bytes → FilePath
  pub filename-join : (p : FilePath) (s : Bytes) → filename (join p s) ≡ some s
  pub encode : EpochFile → Option Bytes
  pub decode : Bytes → Option EpochFile
  pub Time : Type 0
  pub at_most : Time → Time → Bool
  pub Delta : Type 0
  pub seconds : ℕ → Option Delta
  pub checked_add : Time → Delta → Option Time
  pub max_utc : Time

-- `ObjectMeta`
pub record ObjectMeta (X : Packages) : Type 0 where
  pub location : X.FilePath
  pub last_modified : X.Time

-- `get` gives a response, whose body may still fail to arrive.
abbrev pub Body : Type 0
Body = Result StoreError (Result StoreError Bytes)

-- A program with a result in `A`. `spent` stands where the fuel of a loop has run out.
pub data Prog (X : Packages) (A : Type 0) : Type 0 where
  done : A → Prog X A
  panic : Prog X A
  spent : Prog X A
  list : (Result StoreError (List (ObjectMeta X)) → Prog X A) → Prog X A
  get : X.FilePath → (Body → Prog X A) → Prog X A
  create : X.FilePath → Bytes → (Result StoreError (Unit {0}) → Prog X A) → Prog X A
  head : X.FilePath → (Result StoreError X.Time → Prog X A) → Prog X A
  delete : X.FilePath → (Result StoreError (Unit {0}) → Prog X A) → Prog X A
  now : (X.Time → Prog X A) → Prog X A

module _ {X : Packages} {A B : Type 0} where
  unfoldable pub bind : Prog X A → (A → Prog X B) → Prog X B
  bind (done a) f = f a
  bind panic f = panic
  bind spent f = spent
  bind (list k) f = list (λ r. bind (k r) f)
  bind (get p k) f = get p (λ r. bind (k r) f)
  bind (create p b k) f = create p b (λ r. bind (k r) f)
  bind (head p k) f = head p (λ r. bind (k r) f)
  bind (delete p k) f = delete p (λ r. bind (k r) f)
  bind (now k) f = now (λ t. bind (k t) f)

-- The errors of the lock.
pub data Error : Type 0 where
  object_store : StoreError → Error
  serde clock_regression cancelled : Error
  base32 : Base32Error → Error

-- A program that may fail, and `?`.
abbrev pub Fallible : Packages → Type 0 → Type 0
Fallible X A = Prog X (Result Error A)

module _ {X : Packages} {A B : Type 0} where
  abbrev pub or_fail : (A → Fallible X B) → Result Error A → Fallible X B
  or_fail f (ok a) = f a
  or_fail f (err e) = done (err e)

  infixl 5 ◌>>?◌
  unfoldable pub ◌>>?◌ : Fallible X A → (A → Fallible X B) → Fallible X B
  unfolding bind
  m >>? f = bind m (or_fail f)
