-- ===== src/Lock/Base32/Tables.antt =====
-- The alphabet's 32 characters, checked one by one.
use bepository.Prelude.{
  ◌≤◌, ◌+◌, ◌⊎◌, inl, inr, Bool-cases, ==_iff, if◌then◌else◌, ℕ, zero, suc, ◌<◌, Bool, true, false,
  not, ◌≡◌, refl, Option, none, some, [], ◌∷◌, Bytes, arith, ltb, ◌==◌, get_or, length,
}
use bepository.Lock.Base32.{alphabet, digit, position}

-- A test that holds of each number from `lo` on, `count` of them.
unfoldable pub holds_from : ℕ → ℕ → (ℕ → Bool) → Bool
holds_from lo zero test = true
holds_from lo (suc count) test = if test lo then holds_from (suc lo) count test else false

first_or_later : (lo d : ℕ) → lo ≤ d → (lo ≡ d) ⊎ (suc lo ≤ d)
first_or_later lo d above = elim (Bool-cases (lo == d)) [
  | inl first ↦ inl ((==_iff lo d).0 first)
  | inr later ↦ inr (ground arith)
]

holds_from_sound :
    (lo count : ℕ) (test : ℕ → Bool)
    → holds_from lo count test ≡ true
    → (d : ℕ) → lo ≤ d
    → d < lo + count
    → test d ≡ true
unfolding holds_from
holds_from_sound lo zero test all d above below = absurd (omega arith)
holds_from_sound lo (suc count) test all d above below = elim (first_or_later lo d above) [
  | inl first ↦ rw (← first) (ground arith)
  | inr later ↦ holds_from_sound (suc lo) count test (ground arith) d later (omega arith)
]

pub each_digit : (test : ℕ → Bool) (d : ℕ) → holds_from 0 32 test ≡ true → d < 32 → test d ≡ true
each_digit test d all below = holds_from_sound 0 32 test all d (omega arith) (omega arith)

abbrev same : Bool → Bool → Bool
same true b = b
same false b = not b

abbrev pub found_at : Option ℕ → ℕ → Bool
found_at none d = false
found_at (some i) d = i == d

-- The position of a digit's character is the digit.
pub position-digit : (d : ℕ) → d < 32 → position alphabet (digit d) ≡ some d
position-digit d h =
    ground (arith, each_digit (λ i. found_at (position alphabet (digit i)) i) d table h)
  where
    table : holds_from 0 32 (λ i. found_at (position alphabet (digit i)) i) ≡ true
    table = unfold holds_from position digit in refl

-- No character of the alphabet is the last one of ".json".
pub digit-ne-n : (d : ℕ) → d < 32 → (digit d == b'n') ≡ false
digit-ne-n d h = ground (arith, each_digit (λ i. not (digit i == b'n')) d table h)
  where
    table : holds_from 0 32 (λ i. not (digit i == b'n')) ≡ true
    table = unfold holds_from digit in refl

-- The alphabet is in the order of its characters.
pub ltb-digit : (d e : ℕ) → d < 32 → e < 32 → ltb (digit d) (digit e) ≡ ltb d e
ltb-digit d e h k = ground (
  arith,
  each_digit (λ j. same (ltb (digit d) (digit j)) (ltb d j)) e (each_digit row d table h) k,
)
  where
    row : ℕ → Bool
    row i = holds_from 0 32 (λ j. same (ltb (digit i) (digit j)) (ltb i j))

    table : holds_from 0 32 row ≡ true
    table = unfold holds_from digit in refl

-- A character that is found is the digit at its position.
pub digit_of_position :
    (xs : Bytes) (c i : ℕ) → position xs c ≡ some i → (i < length xs) × (get_or xs i 0 ≡ c)
unfolding position
digit_of_position [] c i h = cc
digit_of_position (x ∷ xs) c zero h = ground arith
digit_of_position (x ∷ xs) c (suc i) h = ground (arith, digit_of_position xs c i)

-- The alphabet is ASCII.
pub digit_lt : (d : ℕ) → d < 32 → digit d < 128
digit_lt d h = ground (arith, each_digit (λ i. ltb (digit i) 128) d table h)
  where
    table : holds_from 0 32 (λ i. ltb (digit i) 128) ≡ true
    table = unfold holds_from digit in refl
