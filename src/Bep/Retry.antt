-- ===== src/Bep/Retry.antt =====
-- bepository-bep/src/retry.rs: which failures of the storage are tried again, and the loop that does
-- so. Durations are nanoseconds.
pub mod Ends
use bepository.Prelude.{
  ℕ, zero, suc, ◌+◌, ◌%◌, ◌≤◌, ◌<◌, ◌≡◌, refl, arith, Bool, true, false, Option, none, some, Result,
  ok, err, ltb, leb, if◌then◌else◌, u32_mod,
}
use bepository.Bep.Errors.{StorageError, BepError}
use bepository.Bep.Calls.{Backend, Call, Reply, Prog, done, spent, call, sleep, Fallible}

unfoldable pub standard_map_error : StorageError → BepError
standard_map_error StorageError.transient_io = BepError.transient_io
standard_map_error StorageError.corruption = BepError.corruption
standard_map_error (StorageError.unsupported_version found supported) =
    BepError.unsupported_version found supported
standard_map_error StorageError.standby = BepError.standby
standard_map_error StorageError.not_found = BepError.corruption
standard_map_error StorageError.invalid_input = BepError.peer_bad_message
standard_map_error StorageError.internal = BepError.internal

-- The trait `RetryPolicy`, for policies that give up after a number of retries, as all do here.
pub record RetryPolicy : Type 0 where
  pub next_delay : ℕ → StorageError → Option ℕ
  pub map_error : StorageError → BepError
  pub rounds : ℕ
  pub rounds_bound : rounds < u32_mod
  pub gives_up : (attempt : ℕ) (e : StorageError) → rounds ≤ attempt → next_delay attempt e ≡ none

-- `ExponentialBackoff::next_delay`. The delay is computed with floating-point numbers, so it is a
-- parameter: `delay_after attempt` is the base delay times the power of the multiplier, capped.
unfoldable pub exponential_delay : (ℕ → ℕ) → ℕ → ℕ → StorageError → Option ℕ
exponential_delay delay_after max_attempts attempt StorageError.transient_io =
    if leb max_attempts attempt then none else some (delay_after attempt)
exponential_delay delay_after max_attempts attempt _ = none

-- `NoRetry::next_delay`
unfoldable pub no_delay : ℕ → StorageError → Option ℕ
no_delay attempt e = none

-- `ImmediateRetry::next_delay`
unfoldable pub immediate_delay : ℕ → ℕ → StorageError → Option ℕ
immediate_delay max_attempts attempt StorageError.transient_io =
    if ltb attempt max_attempts then some 0 else none
immediate_delay max_attempts attempt _ = none

-- The three policies give up in time.
pub exponential_delay-eq-none :
    (delay_after : ℕ → ℕ) (max_attempts attempt : ℕ) (e : StorageError)
    → max_attempts ≤ attempt
    → exponential_delay delay_after max_attempts attempt e ≡ none
unfolding exponential_delay
exponential_delay-eq-none d m n StorageError.transient_io h = ground arith
exponential_delay-eq-none d m n e h = refl

pub immediate_delay-eq-none :
    (max_attempts attempt : ℕ) (e : StorageError)
    → max_attempts ≤ attempt
    → immediate_delay max_attempts attempt e ≡ none
unfolding immediate_delay
immediate_delay-eq-none m n StorageError.transient_io h = ground arith
immediate_delay-eq-none m n e h = refl

pub no_delay-eq-none : (attempt : ℕ) (e : StorageError) → 0 ≤ attempt → no_delay attempt e ≡ none
unfolding no_delay
no_delay-eq-none n e h = refl

unfoldable pub exponential_backoff :
    (ℕ → ℕ) → (max_attempts : ℕ) → max_attempts < u32_mod → RetryPolicy
exponential_backoff delay_after max_attempts bound = record {
  next_delay = exponential_delay delay_after max_attempts;
  map_error = standard_map_error;
  rounds = max_attempts;
  rounds_bound = bound;
  gives_up = exponential_delay-eq-none delay_after max_attempts;
}

unfoldable pub no_retry : RetryPolicy
no_retry = record {
  next_delay = no_delay;
  map_error = standard_map_error;
  rounds = 0;
  rounds_bound = omega arith;
  gives_up = no_delay-eq-none;
}

unfoldable pub immediate_retry : (max_attempts : ℕ) → max_attempts < u32_mod → RetryPolicy
immediate_retry max_attempts bound = record {
  next_delay = immediate_delay max_attempts;
  map_error = standard_map_error;
  rounds = max_attempts;
  rounds_bound = bound;
  gives_up = immediate_delay-eq-none max_attempts;
}

module _ {B : Backend} {S : Type 0} where
  -- After the wait: `true` if shutdown was requested first.
  abbrev pub slept : {A : Type 0} → Fallible B S A → Bool → Fallible B S A
  slept again false = again
  slept again true = done (err BepError.transient_io)

  -- A delay of zero only yields to the other tasks.
  abbrev pub delayed : {A : Type 0} → Fallible B S A → BepError → Option ℕ → Fallible B S A
  delayed again failure none = done (err failure)
  delayed again failure (some zero) = again
  delayed again failure (some (suc d)) = sleep (suc d) (slept again)

  abbrev pub attempted :
      {A : Type 0} → RetryPolicy → ℕ → Fallible B S A → Result StorageError A → Fallible B S A
  attempted policy attempt again (ok value) = done (ok value)
  attempted policy attempt again (err e) =
      delayed again (policy.map_error e) (policy.next_delay attempt e)

  -- The loop, with fuel for its rounds and the number of failures so far.
  unfoldable pub retry_loop :
      RetryPolicy → (c : Call B) → (fuel attempt : ℕ) → Fallible B S (Reply c)
  retry_loop policy c zero attempt = spent
  retry_loop policy c (suc fuel) attempt =
      call c (attempted policy attempt (retry_loop policy c fuel ((attempt + 1) % u32_mod)))

  unfoldable pub retry_storage_op : RetryPolicy → (c : Call B) → Fallible B S (Reply c)
  unfolding retry_loop
  retry_storage_op policy c = retry_loop policy c (policy.rounds + 1) 0
