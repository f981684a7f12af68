-- ===== src/Lock/Guard.antt =====
-- bepository-lock/src/guard.rs: a held lock that is renewed in the background. What each `acquire`
-- answers and how long it takes, how much longer than asked for each sleep takes, and the shutdown token
-- are a list of rounds; when a round begins follows from these. Instants are nanoseconds.
pub mod Expiry
use bepository.Prelude.{
  ℕ, ◌+◌, ◌-◌, ◌*◌, ◌/◌, ◌%◌, Bytes, codes, ◌++◌, Bool, true, false, Option, none, some, List, [],
  ◌∷◌, Result, ok, err, ltb, leb, if◌then◌else◌, u64_mod,
}
use bepository.Lock.Epoch.{Epoch}
use bepository.Lock.Calls.{Packages, Prog, done, bind, Error, clock_regression, cancelled}
use bepository.Lock.Protocol.{AcquisitionStatus, owner, queued_backward_clock, yielded, Lock}
use bepository.Lock.Acquisition.{release}

pub data LockLost : Type 0 where
  preempted : LockLost
  expired : (elapsed_secs threshold_secs : ℕ) → LockLost
  clock_went_back : LockLost
  shut_down : LockLost

-- How a sleep ends: it takes the time it was asked for and `late` nanoseconds more, and tells whether
-- the system's timer served, or it is cut short by the token.
pub data Sleep : Type 0 where
  slept : Bool → (late : ℕ) → Sleep
  cut : Sleep

-- A round of the renewal loop: what `acquire` answers, how long that takes, and the sleep after it.
pub record Round : Type 0 where
  pub answer : Result Error AcquisitionStatus
  pub took : ℕ
  pub sleep : Sleep

abbrev pub nanos : ℕ
nanos = 1_000_000_000

abbrev pub retry_interval : ℕ
retry_interval = 15

abbrev pub renew_interval : ℕ → ℕ
renew_interval lease = lease / 3

-- `lease * 2 / 3` on `u64`.
abbrev pub give_up_after : ℕ → ℕ
give_up_after lease = lease * 2 % u64_mod / 3

-- What a round decides: the lock is lost, or the last success and how long to sleep in seconds.
pub data Decision : Type 0 where
  lost : LockLost → Decision
  held : (last_success sleep_secs : ℕ) → Decision

abbrev pub judge : (lease last_success answered : ℕ) → Result Error AcquisitionStatus → Decision
judge lease last_success answered (ok (owner epoch)) = held answered (renew_interval lease)
judge lease last_success answered (ok yielded) = lost preempted
judge lease last_success answered (ok queued_backward_clock) = lost clock_went_back
judge lease last_success answered (ok _) = lost preempted
judge lease last_success answered (err e) = held last_success retry_interval

abbrev pub elapsed_secs : (last_success begins : ℕ) → ℕ
elapsed_secs last_success begins = (begins - last_success) / nanos

unfoldable pub decide : (lease last_success now : ℕ) → Round → Decision
decide lease last_success now r =
    let elapsed = elapsed_secs last_success now in
    if leb (give_up_after lease) elapsed
    then lost (expired elapsed (give_up_after lease))
    else judge lease last_success (now + r.took) r.answer

-- `cancellable_sleep` from some instant on, for some seconds; `rest` begins when it ends.
abbrev pub cancellable_sleep :
    (from secs : ℕ) → Sleep → (rest : ℕ → Option LockLost) → Option LockLost
cancellable_sleep from secs cut rest = some shut_down
cancellable_sleep from secs (slept use_systime late) rest = rest (from + secs * nanos + late)

abbrev pub then_sleep :
    (answered : ℕ) → (ℕ → ℕ → Option LockLost) → Sleep → Decision → Option LockLost
then_sleep answered rest sleep (lost reason) = some reason
then_sleep answered rest sleep (held last_success secs) =
    cancellable_sleep answered secs sleep (rest last_success)

-- The loop from the instant `now` on: `none` as long as the lock is held.
unfoldable pub renewal_rounds : (lease : ℕ) → List Round → (last_success now : ℕ) → Option LockLost
unfolding decide
renewal_rounds lease [] last_success now = none
renewal_rounds lease (r ∷ rs) last_success now =
    then_sleep (now + r.took) (renewal_rounds lease rs) r.sleep (decide lease last_success now r)

-- The first sleep, of a third of the lease, and the loop.
unfoldable pub renewal_loop : (lease acquired_at : ℕ) → Sleep → List Round → Option LockLost
unfolding renewal_rounds
renewal_loop lease acquired_at sleep rs =
    cancellable_sleep acquired_at (renew_interval lease) sleep (renewal_rounds lease rs acquired_at)

-- An attempt of `hold`: whether shutdown was requested before it or during it, what it answers, and
-- whether shutdown was requested during the wait after it.
pub record Attempt : Type 0 where
  pub cancelled_before : Bool
  pub answer : Result Error AcquisitionStatus
  pub cancelled_after : Bool

abbrev pub wait_or : Option (Result Error Epoch) → Bool → Option (Result Error Epoch)
wait_or rest true = some (err Error.cancelled)
wait_or rest false = rest

abbrev pub held_or :
    Option (Result Error Epoch)
    → Bool
    → Result Error AcquisitionStatus
    → Option (Result Error Epoch)
held_or rest after (err e) = some (err e)
held_or rest after (ok (owner epoch)) = some (ok epoch)
held_or rest after (ok queued_backward_clock) = some (err Error.clock_regression)
held_or rest after (ok _) = wait_or rest after

-- The loop of `hold` up to the acquired epoch: `none` as long as it goes on.
unfoldable pub hold : List Attempt → Option (Result Error Epoch)
hold [] = none
hold (a ∷ rest) =
    let later = hold rest in
    if a.cancelled_before
    then some (err Error.cancelled)
    else held_or later a.cancelled_after a.answer

-- The receiver of the reason, when the guard is released.
pub data Mailbox : Type 0 where
  reason : LockLost → Mailbox
  closed empty : Mailbox

abbrev pub report : Mailbox → Result LockLost (Unit {0})
report (reason why) = err why
report closed = err shut_down
report empty = ok tt

-- `LockGuard::release`: a failure to release is passed over.
unfoldable pub release_guard :
    {X : Packages} → Lock X → Mailbox → Prog X (Result LockLost (Unit {0}))
unfolding release bind
release_guard self mailbox = bind (release self) (λ outcome. done (report mailbox))
