-- ===== src/Lock/Guard/Expiry.antt =====
-- When the renewal loop of bepository-lock/src/guard.rs gives the lock up.
use bepository.Prelude.{
  ℕ, ◌+◌, ◌*◌, ◌/◌, Bool, u64_mod, true, ◌≤◌, ◌<◌, ◌≡◌, ◌↔◌, inl, inr, refl, sym, ◌∙◌, arith, none,
  some, List, [], ◌∷◌, Result, ok, err, length, leb, Bool-cases,
}
use mathlib.Core.Path.{subst}
use bepository.Lock.Epoch.{Epoch}
use bepository.Lock.Calls.{Error}
use bepository.Lock.Protocol.{
  AcquisitionStatus, owner, queued, queued_backward_clock, yielded, failed, not_owner,
}
use bepository.Lock.Guard.{
  LockLost, Sleep, slept, cut, Round, nanos, retry_interval, give_up_after, Decision, lost, held,
  judge, elapsed_secs, decide, then_sleep, renewal_rounds, renewal_loop, shut_down, expired,
}

-- The answers of `acquire` after which the lock is held, with the last success after them and the time
-- to sleep in seconds.
pub data Renews (lease last_success answered : ℕ)
    : Result Error AcquisitionStatus → (last' secs : ℕ) → Type 0 where
  renewed :
      (epoch : Epoch) → Renews lease last_success answered (ok (owner epoch)) answered (lease / 3)
  failed_once : (e : Error) → Renews lease last_success answered (err e) last_success 15

-- The whole seconds since an instant, and one more, are no more than two thirds of the lease.
abbrev pub InTime : (lease last_success now : ℕ) → Type 0
InTime lease last_success now = 3 * (elapsed_secs last_success now + 1) ≤ 2 * lease

-- In every round the attempt to renew begins in time after the last one that succeeded, and it succeeds,
-- and the next round begins a third of the lease after its answer, or it fails with an error, and the
-- next one begins fifteen seconds after that; the sleep may take longer and is not cut short.
abbrev pub AllHeld : (lease last_success now : ℕ) → List Round → Type 0
AllHeld lease last_success now [] = Unit {0}
AllHeld lease last_success now (r ∷ rs) =
    InTime lease last_success now
    × ((system : Bool) × (late : ℕ) × (r.sleep ≡ slept system late)
        × ((last' secs : ℕ) × Renews lease last_success (now + r.took) r.answer last' secs
            × AllHeld lease last' (now + r.took + secs * nanos + late) rs))

-- What a round decides, by what holds of it.
data Decides (lease last_success now : ℕ) (r : Round) : Decision → Type 0 where
  in_time :
      (last' secs : ℕ)
      → InTime lease last_success now
      → Renews lease last_success (now + r.took) r.answer last' secs
      → Decides lease last_success now r (held last' secs)
  gone :
      (why : LockLost)
      → ((last' secs : ℕ)
          → InTime lease last_success now
          → Renews lease last_success (now + r.took) r.answer last' secs
          → ⊥)
      → Decides lease last_success now r (lost why)

Renews-unowned :
    {lease last_success answered last' secs : ℕ} {status : AcquisitionStatus}
    → Renews lease last_success answered (ok status) last' secs
    → (epoch : Epoch) × (status ≡ owner epoch)
Renews-unowned (renewed epoch) = (epoch, refl)

-- The code's threshold, as long as twice the lease is a 64-bit number.
below_threshold :
    (lease elapsed : ℕ)
    → lease * 2 < u64_mod
    → (elapsed < give_up_after lease) ↔ (3 * (elapsed + 1) ≤ 2 * lease)
below_threshold lease elapsed fits = (λ early. omega arith, λ early. omega arith)

module _ (lease : ℕ) (fits : lease * 2 < u64_mod) where
  decide-Decides :
      (last_success now : ℕ) (r : Round)
      → Decides lease last_success now r (decide lease last_success now r)
  unfolding decide
  decide-Decides last_success now r =
      elim (Bool-cases (leb (give_up_after lease) (elapsed_secs last_success now))) [
        | inl late ↦ rw late (
            gone _ (λ last' secs early renews.
              absurd (too_late ((below_threshold lease _ fits).1 early) late)))
        | inr early ↦
            rw early
              (judged r.answer refl ((below_threshold lease _ fits).0 (ground (arith, early))))
      ]
    where
      too_late : {a b : ℕ} → a < b → leb b a ≡ true → ⊥
      too_late h e = ground (arith, h, e)

      unowned :
          (status : AcquisitionStatus) (why : LockLost)
          → ((epoch : Epoch) → status ≡ owner epoch → ⊥)
          → r.answer ≡ ok status
          → Decides lease last_success now r (lost why)
      unowned status why apart e = gone why (λ last' secs early renews.
          let o =
            Renews-unowned
              (subst (λ a. Renews lease last_success (now + r.took) a last' secs) e renews) in
          apart o.0 o.1)

      judged :
          (answer : Result Error AcquisitionStatus)
          → r.answer ≡ answer
          → InTime lease last_success now
          → Decides lease last_success now r (judge lease last_success (now + r.took) answer)
      judged (ok (owner epoch)) e early = in_time (now + r.took) _ early (
          subst (λ a. Renews lease last_success (now + r.took) a (now + r.took) (lease / 3)) (sym e)
            (renewed epoch))
      judged (err x) e early = in_time last_success _ early (
          subst (λ a. Renews lease last_success (now + r.took) a last_success 15) (sym e)
            (failed_once x))
      judged (ok queued) e early = unowned queued _ (λ epoch h. cc) e
      judged (ok queued_backward_clock) e early = unowned queued_backward_clock _ (λ epoch h. cc) e
      judged (ok yielded) e early = unowned yielded _ (λ epoch h. cc) e
      judged (ok failed) e early = unowned failed _ (λ epoch h. cc) e
      judged (ok not_owner) e early = unowned not_owner _ (λ epoch h. cc) e

  Renews-same :
      {last_success answered l l' q q' : ℕ} {answer : Result Error AcquisitionStatus}
      → Renews lease last_success answered answer l q
      → (answer' : Result Error AcquisitionStatus) → answer ≡ answer'
      → Renews lease last_success answered answer' l' q'
      → (l ≡ l') × (q ≡ q')
  Renews-same (renewed epoch) a e (renewed epoch') = (refl, refl)
  Renews-same (failed_once x) a e (failed_once x') = (refl, refl)
  Renews-same (renewed epoch) a e (failed_once x) = cc
  Renews-same (failed_once x) a e (renewed epoch) = cc

  slept-late : {b b' : Bool} {n n' : ℕ} → slept b n ≡ slept b' n' → n ≡ n'
  slept-late e = cc

  -- The loop goes on exactly as long as it keeps renewing in time: it holds the lock after some rounds
  -- exactly if each attempt began in time after the last success (the whole seconds since then, and one
  -- more, are no more than two thirds of the lease), and succeeded, and the next one begins a third of the
  -- lease later, or failed with an error, and the next one begins fifteen seconds later, each sleep being
  -- at most longer than asked for and not cut short. Twice the lease must be a 64-bit number.
  pub renewal_rounds-eq-none :
      (last_success now : ℕ) (rs : List Round)
      → (renewal_rounds lease rs last_success now ≡ none) ↔ AllHeld lease last_success now rs
  unfolding renewal_rounds
  renewal_rounds-eq-none last_success now [] = (λ h. tt, λ h. refl)
  renewal_rounds-eq-none last_success now (r ∷ rs) =
      split (λ l n. renewal_rounds-eq-none l n rs) (decide-Decides last_success now r) r.sleep refl
    where
      not_none : (why : LockLost) → some why ≡ none → ⊥
      not_none why h = cc

      not_cut : {b : Bool} {late : ℕ} → cut ≡ slept b late → ⊥
      not_cut h = cc

      split :
          ((l n : ℕ) → (renewal_rounds lease rs l n ≡ none) ↔ AllHeld lease l n rs)
          → {d : Decision} → Decides lease last_success now r d
          → (sleep : Sleep) → r.sleep ≡ sleep
          → (then_sleep (now + r.took) (renewal_rounds lease rs) sleep d ≡ none)
            ↔ AllHeld lease last_success now (r ∷ rs)
      split next (gone why never) sleep e = (
        λ h. absurd (not_none why h),
        λ (early, (b, late, s, (last', secs, renews, rest))).
            absurd (never last' secs early renews),
      )
      split next (in_time last' secs early renews) cut e =
          (λ h. absurd (not_none shut_down h), λ (_, (b, late, s, _)). absurd (not_cut (sym e ∙ s)))
      split next (in_time last' secs early renews) (slept b late) e = (
        λ h. (
          early,
          (
            b,
            late,
            e,
            (last', secs, renews, (next last' (now + r.took + secs * nanos + late)).0 h),
          ),
        ),
        λ (_, (b', late', s, (l, q, renews', rest))).
            (next last' (now + r.took + secs * nanos + late)).1
              (moved (Renews-same renews' r.answer refl renews) (slept-late (sym s ∙ e)) rest),
      )
        where
          moved :
              {l q late' : ℕ}
              → (l ≡ last') × (q ≡ secs)
              → late' ≡ late
              → AllHeld lease l (now + r.took + q * nanos + late') rs
              → AllHeld lease last' (now + r.took + secs * nanos + late) rs
          moved (same_l, same_q) same_late rest = rw (← same_l, ← same_q, ← same_late) rest

-- Every attempt to renew fails with an error.
abbrev pub AllFail : List Round → Type 0
AllFail [] = Unit {0}
AllFail (r ∷ rs) = ((e : Error) × (r.answer ≡ err e)) × AllFail rs

-- Why the loop ends if no renewal succeeds: more than two thirds of the lease are over, up to a second,
-- or it was asked to.
pub data GivesUp (lease : ℕ) : LockLost → Type 0 where
  too_late :
      (elapsed threshold : ℕ)
      → 2 * lease < 3 * (elapsed + 1)
      → GivesUp lease (expired elapsed threshold)
  asked_to : GivesUp lease shut_down

module _ (lease : ℕ) (fits : lease * 2 < u64_mod) where
  abbrev Ends : (last_success now : ℕ) → List Round → Type 0
  Ends last_success now rs =
      (why : LockLost) × (renewal_rounds lease rs last_success now ≡ some why) × GivesUp lease why

  -- One round with a failure: it is too late, or the sleep is cut short, or the rest decides.
  failed_round :
      (last_success now : ℕ) (r : Round) (rs : List Round) (e : Error)
      → r.answer ≡ err e
      → (InTime lease last_success now
          → (later : ℕ) → now + 15 * nanos ≤ later
          → Ends last_success later rs)
      → Ends last_success now (r ∷ rs)
  unfolding renewal_rounds decide
  failed_round last_success now r rs e failed_e next =
      elim (Bool-cases (leb (give_up_after lease) (elapsed_secs last_success now))) [
        | inl late ↦ rw late (expired _ _, refl, too_late _ _ (over (ground (arith, late))))
        | inr early ↦
            rw (early, failed_e)
              (slept_on r.sleep (next ((below_threshold lease _ fits).0 (ground (arith, early)))))
      ]
    where
      over : {n : ℕ} → give_up_after lease ≤ n → 2 * lease < 3 * (n + 1)
      over h = omega (arith, fits)

      slept_on :
          (sleep : Sleep)
          → ((later : ℕ) → now + 15 * nanos ≤ later → Ends last_success later rs)
          → (why : LockLost) × (then_sleep
                (now + r.took)
                (renewal_rounds lease rs)
                sleep
                (held last_success retry_interval)
              ≡ some why)
            × GivesUp lease why
      slept_on cut rest = (shut_down, refl, asked_to)
      slept_on (slept b late) rest =
          rest (now + r.took + retry_interval * nanos + late) (omega arith)

  gives_up :
      (last_success now passed : ℕ) (r : Round) (rs : List Round)
      → last_success + passed * nanos ≤ now
      → AllFail (r ∷ rs)
      → 2 * lease < 3 * (passed + 15 * length rs + 1)
      → Ends last_success now (r ∷ rs)
  gives_up last_success now passed r [] spent ((e, failed_e), rest) enough =
      failed_round last_success now r [] e failed_e (λ early. absurd (omega arith))
  gives_up last_success now passed r (r' ∷ rs) spent ((e, failed_e), rest) enough =
      failed_round last_success now r (r' ∷ rs) e failed_e (λ early later after.
        gives_up last_success later (passed + 15) r' rs (omega arith) rest (omega arith))

  -- If no renewal succeeds, the lock is given up: after the first sleep of a third of the lease and at most
  -- one round for each fifteen seconds of what is left of its two thirds, and one more, the loop has
  -- ended, because the whole seconds since the lock was acquired, and one more, were more than two thirds
  -- of the lease or because it was asked to stop. Twice the lease must be a 64-bit number.
  pub renewal_loop-GivesUp :
      (acquired_at : ℕ) (sleep : Sleep) (r : Round) (rs : List Round)
      → AllFail (r ∷ rs)
      → 2 * lease < 3 * (lease / 3 + 15 * length rs + 1)
      → (why : LockLost) × (renewal_loop lease acquired_at sleep (r ∷ rs) ≡ some why)
        × GivesUp lease why
  unfolding renewal_loop
  renewal_loop-GivesUp acquired_at cut r rs fails enough = (shut_down, refl, asked_to)
  renewal_loop-GivesUp acquired_at (slept b late) r rs fails enough =
      gives_up acquired_at (acquired_at + lease / 3 * nanos + late) (lease / 3) r rs (omega arith)
        fails enough
