-- ===== src/Bep/Retry/Ends.antt =====
-- The retry loop of bepository-bep/src/retry.rs ends: the rule for a storage call that is retried.
use bepository.Prelude.{
  ℕ, zero, suc, ◌+◌, ◌%◌, ◌≤◌, ◌<◌, ◌≡◌, refl, arith, Bool, true, false, Option, none, some, ◌∷◌,
  Result, ok, err, u32_mod,
}
use native.Mathlib.Decide.{dec_lt}
use bepository.Prelude.{sym, ◌∙◌}
use bepository.Bep.Errors.{StorageError, BepError}
use bepository.Bep.Calls.{Backend, Call, Reply, Fallible}
use bepository.Bep.Calls.Logic.{called, told, History, Ensures}
use bepository.Bep.Retry.{RetryPolicy, slept, delayed, attempted, retry_loop, retry_storage_op}

module _ {B : Backend} (policy : RetryPolicy) (c : Call B) (h : History B) where
  -- `c` failed so many times since `h`, and each time the policy told to try again.
  pub data Failed : ℕ → History B → Type 0 where
    fresh : Failed 0 h
    at_once :
        {n : ℕ} {h' : History B} (e : StorageError)
        → policy.next_delay n e ≡ some 0
        → Failed n h'
        → Failed (suc n) (called c (err e) ∷ h')
    later :
        {n : ℕ} {h' : History B} (e : StorageError) (d : ℕ)
        → policy.next_delay n e ≡ some (suc d)
        → Failed n h'
        → Failed (suc n) (told false ∷ called c (err e) ∷ h')

  -- How the operation ends after its retries: with the value of the last call, with the error of a
  -- failure that is not tried again, or by a shutdown during a wait.
  pub data Outcome : History B → Result BepError (Reply c) → Type 0 where
    succeeded :
        {n : ℕ} {h' : History B} (v : Reply c)
        → n ≤ policy.rounds
        → Failed n h'
        → Outcome (called c (ok v) ∷ h') (ok v)
    gave_up :
        {n : ℕ} {h' : History B} (e : StorageError)
        → n ≤ policy.rounds
        → policy.next_delay n e ≡ none
        → Failed n h'
        → Outcome (called c (err e) ∷ h') (err (policy.map_error e))
    shut_down :
        {n : ℕ} {h' : History B} (e : StorageError) (d : ℕ)
        → n ≤ policy.rounds
        → policy.next_delay n e ≡ some (suc d)
        → Failed n h'
        → Outcome (told true ∷ called c (err e) ∷ h') (err BepError.transient_io)

none-ne-some : {d : ℕ} → none ≡ some d → ⊥
none-ne-some h = cc

retried_before_end :
    (policy : RetryPolicy) (n : ℕ) (e : StorageError) (d : ℕ)
    → policy.next_delay n e ≡ some d
    → n < policy.rounds
retried_before_end policy n e d more = elim (dec_lt n policy.rounds) [
  | yes below ↦ below
  | no above ↦ absurd (none-ne-some (sym (policy.gives_up n e (omega arith)) ∙ more))
]

module _ {B : Backend} {S : Type 0} (May : History B → Call B → Type 0)
    (Rely Promise : S → S → Type 0) (Spends : Type 0) (policy : RetryPolicy) (c : Call B)
    (h : History B) (s : S) (P : History B → S → Result BepError (Reply c) → Type 0)
    (allowed : (n : ℕ) (h' : History B) → Failed policy c h n h' → May h' c)
    (ends : (h' : History B) (r : Result BepError (Reply c))
      → Outcome policy c h h' r
      → P h' s r) where
  -- One failure: `again` goes on in the right way after one more.
  attempted-Ensures :
      (n : ℕ) (h' : History B) (again : Fallible B S (Reply c))
      → ((h'' : History B)
          → n < policy.rounds
          → Failed policy c h (suc n) h''
          → Ensures May Rely Promise Spends P h'' s again)
      → n ≤ policy.rounds
      → Failed policy c h n h'
      → (r : Result StorageError (Reply c))
      → Ensures May Rely Promise Spends P (called c r ∷ h') s (attempted policy n again r)
  attempted-Ensures n h' again next bound failed (ok v) = ends _ _ (succeeded v bound failed)
  attempted-Ensures n h' again next bound failed (err e) = waited (policy.next_delay n e) refl
    where
      slept_on :
          (d : ℕ)
          → policy.next_delay n e ≡ some (suc d)
          → (b : Bool)
          → Ensures May Rely Promise Spends P (told b ∷ called c (err e) ∷ h') s (slept again b)
      slept_on d more false =
          next _ (retried_before_end policy n e (suc d) more) (later e d more failed)
      slept_on d more true = ends _ _ (shut_down e d bound more failed)

      waited :
          (o : Option ℕ)
          → policy.next_delay n e ≡ o
          → Ensures May Rely Promise Spends P
              (called c (err e) ∷ h')
              s
              (delayed again (policy.map_error e) o)
      waited none last = ends _ _ (gave_up e bound last failed)
      waited (some zero) more =
          next _ (retried_before_end policy n e 0 more) (at_once e more failed)
      waited (some (suc d)) more = slept_on d more

  retry_loop-Ensures :
      (fuel n : ℕ) (h' : History B)
      → n + fuel ≡ policy.rounds + 1
      → n ≤ policy.rounds
      → Failed policy c h n h'
      → Ensures May Rely Promise Spends P h' s (retry_loop policy c fuel n)
  unfolding retry_loop
  retry_loop-Ensures zero n h' sum bound failed = absurd (omega arith)
  retry_loop-Ensures (suc fuel) n h' sum bound failed = (
    allowed n h' failed,
    attempted-Ensures n h' (retry_loop policy c fuel ((n + 1) % u32_mod))
        (λ h'' below f.
          let wraps : ((n + 1) % u32_mod) ≡ suc n = omega (arith, policy.rounds_bound) in
          rw wraps (retry_loop-Ensures fuel (suc n) h'' (omega arith) below f))
        bound failed,
  )

  -- The rule: what holds of each outcome holds at the end, and the fuel is enough.
  pub retry_storage_op-Ensures : Ensures May Rely Promise Spends P h s (retry_storage_op policy c)
  unfolding retry_storage_op
  retry_storage_op-Ensures =
      retry_loop-Ensures (policy.rounds + 1) 0 h (omega arith) (omega arith) fresh

-- A storage operation that is retried always ends, whatever its calls are answered: after at most as
-- many retries as the policy allows, each of which it asked for, with the value of the last call, with
-- the error of a failure that the policy does not try again, or, if a shutdown is requested during a
-- wait, with a transient error. It makes no other call and touches no shared state.
pub retry_storage_op_ends :
    {B : Backend} {S : Type 0} (policy : RetryPolicy) (c : Call B) (h : History B) (s : S)
    → Ensures
        (λ h' c'. c' ≡ c)
        (λ s' now. Unit {0})
        (λ now now'. ⊥)
        ⊥
        (λ h' s' r. Outcome policy c h h' r × (s' ≡ s))
        h
        s
        (retry_storage_op policy c)
retry_storage_op_ends policy c h s =
    retry_storage_op-Ensures (λ h' c'. c' ≡ c) (λ s' now. Unit {0}) (λ now now'. ⊥) ⊥ policy c h s
      (λ h' s' r. Outcome policy c h h' r × (s' ≡ s)) (λ n h' f. refl) (λ h' r o. (o, refl))
