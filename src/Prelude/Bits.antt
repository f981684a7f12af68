-- ===== src/Prelude/Bits.antt =====
-- `(x << 5) | y` where `y` fits in the bits that the shift clears: a sum.
use Prim.Native.Nat.{digits, bit_or, bit_or-bitwise, max}
use native.Mathlib.Nat.{pow-suc}
use bepository.Prelude.{ap, ℕ, zero, suc, ◌+◌, ◌*◌, ◌/◌, ◌%◌, ◌^◌, ◌≤◌, ◌<◌, ◌≡◌, refl, ◌∙◌, arith}

-- `bit_or` on `rounds` binary digits.
abbrev or_in : ℕ → ℕ → ℕ → ℕ
or_in rounds x y = digits (λ low. low) max rounds x y

or_in-none : (rounds y : ℕ) → or_in rounds 0 y ≡ y
or_in-none zero y = refl
or_in-none (suc rounds) y = refl

or_in-some :
    (rounds x y : ℕ)
    → or_in (suc rounds) (suc x) y ≡ max (suc x % 2) (y % 2) + 2 * or_in rounds (suc x / 2) (y / 2)
or_in-some rounds x y = omega arith

-- The shifted number has no low digits, so nothing meets in them.
or_in-even :
    (rounds half y : ℕ)
    → half * 2 ≤ suc rounds
    → or_in rounds half (y / 2) ≡ half + y / 2
    → or_in (suc rounds) (half * 2) y ≡ half * 2 + y
or_in-even rounds zero y fits rest = or_in-none (suc rounds) y ∙ omega arith
or_in-even rounds (suc half) y fits rest =
    let halved : suc (suc (half * 2)) / 2 ≡ suc half = omega arith in
    let doubled : suc half * 2 ≡ suc (suc (half * 2)) = omega arith in
    rw doubled (or_in-some rounds (suc (half * 2)) y ∙ rw halved (omega (arith, rest)))

or_in-empty : (rounds x : ℕ) → x ≤ rounds → or_in rounds x 0 ≡ x
or_in-empty rounds zero fits = or_in-none rounds 0
or_in-empty zero (suc x) fits = absurd (omega arith)
or_in-empty (suc rounds) (suc x) fits =
    omega (arith, or_in-some rounds x 0, or_in-empty rounds (suc x / 2) (omega arith))

-- `m` is the shifted number, and `p` the power of two by which it is shifted.
or_in-shifted :
    (k rounds x y p m : ℕ) → p ≡ 2 ^ k → m ≡ x * p → y < p → m ≤ rounds → or_in rounds m y ≡ m + y
or_in-shifted zero rounds x y p m power shifted small fits =
    let clear : y ≡ 0 = omega arith in rw clear (or_in-empty rounds m fits ∙ omega arith)
or_in-shifted (suc k) zero x y p m power shifted small fits =
    let clear : m ≡ 0 = omega arith in rw clear (omega arith)
or_in-shifted (suc k) (suc rounds) x y p m power shifted small fits =
    let q = 2 ^ k in
    let twice : p ≡ q * 2 = power ∙ pow-suc 2 k in
    let half : m ≡ x * q * 2 = shifted ∙ ap (λ t. x * t) twice ∙ omega arith in
    rw half (
      or_in-even rounds (x * q) y (omega arith)
        (or_in-shifted k rounds x (y / 2) q (x * q) refl refl (omega arith) (omega arith)))

pub bit_or_five : (x y : ℕ) → y < 32 → bit_or (x * 32) y ≡ x * 32 + y
bit_or_five x y small =
    bit_or-bitwise (x * 32) y
    ∙ or_in-shifted 5 (x * 32) x y 32 (x * 32) refl refl small (omega arith)
