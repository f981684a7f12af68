-- ===== src/Prelude/Utf8.antt =====
-- `std::str::from_utf8`: which byte strings are UTF-8, as an automaton over the bytes (RFC 3629).
use bepository.Prelude.{
  ℕ, ◌≡◌, ◌<◌, refl, Bool, true, false, ◌&&◌, Option, none, some, [], ◌∷◌, ◌++◌, Bytes, arith, ltb,
  leb, ◌==◌, if◌then◌else◌, and_then,
}

-- What may follow: a new character, or so many continuation bytes, the first in a narrower range
-- after E0, ED, F0 and F4.
pub data State : Type 0 where
  start one two three after_e0 after_ed after_f0 after_f4 : State

abbrev within : ℕ → ℕ → ℕ → State → Option State
within lo hi b next = if leb lo b && leb b hi then some next else none

first_byte : ℕ → Option State
first_byte b =
    if ltb b 0x80
    then some start
    else if leb 0xc2 b && leb b 0xdf
    then some one
    else if b == 0xe0
    then some after_e0
    else if b == 0xed
    then some after_ed
    else if leb 0xe1 b && leb b 0xef
    then some two
    else if b == 0xf0
    then some after_f0
    else if leb 0xf1 b && leb b 0xf3
    then some three
    else if b == 0xf4
    then some after_f4
    else none

pub step : State → ℕ → Option State
unfolding first_byte
step start b = first_byte b
step one b = within 0x80 0xbf b start
step two b = within 0x80 0xbf b one
step three b = within 0x80 0xbf b two
step after_e0 b = within 0xa0 0xbf b one
step after_ed b = within 0x80 0x9f b one
step after_f0 b = within 0x90 0xbf b two
step after_f4 b = within 0x80 0x8f b two

pub run : State → Bytes → Option State
run q [] = some q
run q (b ∷ s) = and_then (step q b) (λ r. run r s)

abbrev is_start : Option State → Bool
is_start (some start) = true
is_start _ = false

unfoldable pub is_utf8 : Bytes → Bool
unfolding run step
is_utf8 s = is_start (run start s)

-- The text itself, if it is one.
unfoldable pub from_utf8 : Bytes → Option Bytes
unfolding is_utf8
from_utf8 s = if is_utf8 s then some s else none

run-append : (xs ys : Bytes) (q : State) → run q (xs ++ ys) ≡ and_then (run q xs) (λ r. run r ys)
unfolding run
run-append [] ys q = refl
run-append (x ∷ xs) ys q = go (λ r. run-append xs ys r) (step q x)
  where
    go :
        ((r : State) → run r (xs ++ ys) ≡ and_then (run r xs) (λ t. run t ys))
        → (o : Option State)
        → and_then o (λ r. run r (xs ++ ys)) ≡ and_then (and_then o (λ r. run r xs)) (λ t. run t ys)
    go rec none = refl
    go rec (some r) = rec r

-- A slash stands only between characters.
step_slash : (q : State) → step q b'/' ≡ (if is_start (some q) then some start else none)
unfolding step
step_slash start = refl
step_slash _ = refl

-- Text split at a slash is two texts, and the other way round.
pub is_utf8-slash : (xs ys : Bytes) → is_utf8 (xs ++ b'/' ∷ ys) ≡ (is_utf8 xs && is_utf8 ys)
is_utf8-slash xs ys = go (run start xs) refl
  where
    go :
        (o : Option State)
        → run start xs ≡ o
        → is_utf8 (xs ++ b'/' ∷ ys) ≡ (is_utf8 xs && is_utf8 ys)
    go none e = unfold is_utf8 in (rw (run-append xs (b'/' ∷ ys) start, e))
    go (some start) e = unfold is_utf8 in (rw (run-append xs (b'/' ∷ ys) start, e))
    go (some _) e = unfold is_utf8 in (rw (run-append xs (b'/' ∷ ys) start, e))

-- Behind a whole text only the rest counts.
pub is_utf8-append : (xs ys : Bytes) → is_utf8 xs ≡ true → is_utf8 (xs ++ ys) ≡ is_utf8 ys
is_utf8-append xs ys h = go (run start xs) refl
  where
    go : (o : Option State) → run start xs ≡ o → is_utf8 (xs ++ ys) ≡ is_utf8 ys
    go none e = absurd (unfold is_utf8 in (ground arith))
    go (some start) e = unfold is_utf8 in (rw (run-append xs ys start, e))
    go (some one) e = absurd (unfold is_utf8 in (ground arith))
    go (some two) e = absurd (unfold is_utf8 in (ground arith))
    go (some three) e = absurd (unfold is_utf8 in (ground arith))
    go (some after_e0) e = absurd (unfold is_utf8 in (ground arith))
    go (some after_ed) e = absurd (unfold is_utf8 in (ground arith))
    go (some after_f0) e = absurd (unfold is_utf8 in (ground arith))
    go (some after_f4) e = absurd (unfold is_utf8 in (ground arith))

pub is_utf8_ascii : (b : ℕ) → b < 0x80 → is_utf8 (b ∷ []) ≡ true
is_utf8_ascii b h = unfold is_utf8 in (ground arith)

pub is_utf8-nil : is_utf8 [] ≡ true
is_utf8-nil = unfold is_utf8 in refl
