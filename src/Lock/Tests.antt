-- ===== src/Lock/Tests.antt =====
-- Runs of the lock's epochs at fixed inputs, and the theorems at them.
use bepository.Prelude.{
  ◌*◌, ◌↔◌, [], ◌∷◌, none, true, err, ◌≡◌, refl, Bytes, codes, ◌++◌, some, ok, length, lex_lt, ltb,
  ◌≤◌, arith,
}
use bepository.Lock.Base32.{digit, to_base32, from_base32, strip_json, suffix, max_val}
use bepository.Lock.Base32.Decode.{from_base32-to_base32, to_base32-from_base32}
use bepository.Lock.Base32.Order.{lex_lt-to_base32}
use bepository.Lock.Epoch.{Epoch}
use bepository.Lock.Epoch.Laws.{IsValid}
use bepository.Lock.Calls.{Error}
use bepository.Lock.Protocol.{owner}
use bepository.Lock.Guard.{LockLost, expired, Round, slept, nanos, renewal_rounds, renewal_loop}
use bepository.Lock.Guard.Expiry.{
  AllHeld, AllFail, GivesUp, renewal_rounds-eq-none, renewal_loop-GivesUp,
}

abbrev name_of_five : Bytes
name_of_five = codes "00000005"

abbrev name_of_33 : Bytes
name_of_33 = codes "00000011"

to_base32_five : to_base32 5 ≡ ok name_of_five
unfolding to_base32 digit
to_base32_five = refl

to_base32_33 : to_base32 33 ≡ ok name_of_33
unfolding to_base32 digit
to_base32_33 = refl

from_base32_five : from_base32 (name_of_five ++ suffix) ≡ some 5
unfolding from_base32
from_base32_five = refl

from_base32-to_base32_example :
    (s : Bytes) × (to_base32 33 ≡ ok s)
    × (length s ≡ 8)
    × (from_base32 s ≡ some 33)
    × (from_base32 (s ++ suffix) ≡ some 33)
from_base32-to_base32_example = from_base32-to_base32 33 (omega arith)

to_base32-from_base32_example :
    (5 ≤ max_val) × (to_base32 5 ≡ ok (strip_json (name_of_five ++ suffix)))
to_base32-from_base32_example = to_base32-from_base32 (name_of_five ++ suffix) 5 from_base32_five

lex_lt-to_base32_example : lex_lt name_of_five name_of_33 ≡ ltb 5 33
lex_lt-to_base32_example = lex_lt-to_base32 5 33 name_of_five name_of_33 to_base32_five to_base32_33

abbrev five : Epoch
five = record { val = 5; base32 = name_of_five }

abbrev thirty_three : Epoch
thirty_three = record { val = 33; base32 = name_of_33 }

thirty_three-IsValid : IsValid thirty_three
thirty_three-IsValid = record { fits = omega arith; cached = to_base32_33 }

-- A renewal, or a failure, and a sleep of what was asked for.
abbrev renewed_now : Round
renewed_now = record { answer = ok (owner five); took = 1; sleep = slept true 0 }

abbrev failed_now : Round
failed_now = record { answer = err Error.cancelled; took = 1; sleep = slept true 0 }

renewal_rounds-eq-none_example :
    (renewal_rounds 60 (renewed_now ∷ failed_now ∷ failed_now ∷ []) 0 (20 * nanos) ≡ none)
    ↔ AllHeld 60 0 (20 * nanos) (renewed_now ∷ failed_now ∷ failed_now ∷ [])
renewal_rounds-eq-none_example =
    renewal_rounds-eq-none 60 (omega arith) 0 (20 * nanos)
      (renewed_now ∷ failed_now ∷ failed_now ∷ [])

still_held : renewal_rounds 60 (renewed_now ∷ failed_now ∷ failed_now ∷ []) 0 (20 * nanos) ≡ none
unfolding renewal_rounds
still_held = refl

given_up :
    renewal_rounds 60 (failed_now ∷ failed_now ∷ failed_now ∷ []) 0 (20 * nanos)
    ≡ some (expired 50 40)
unfolding renewal_rounds
given_up = refl

all_fail : AllFail (failed_now ∷ failed_now ∷ failed_now ∷ [])
all_fail = ((Error.cancelled, refl), ((Error.cancelled, refl), ((Error.cancelled, refl), tt)))

renewal_loop-GivesUp_example :
    (why : LockLost) × (renewal_loop 60 0 (slept true 0) (failed_now ∷ failed_now ∷ failed_now ∷ [])
      ≡ some why)
    × GivesUp 60 why
renewal_loop-GivesUp_example =
    renewal_loop-GivesUp 60 (omega arith) 0 (slept true 0) failed_now (failed_now ∷ failed_now ∷ [])
      all_fail (omega arith)
