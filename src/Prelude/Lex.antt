-- ===== src/Prelude/Lex.antt =====
-- The lexicographic order of byte strings.
use bepository.Prelude.{
  ℕ, ◌≡◌, refl, true, false, List, [], ◌∷◌, ◌++◌, Bytes, arith, ltb, if◌then◌else◌, length, lex_lt,
  bytes_eq,
}

-- Of two texts of the same length the last characters decide only if the rest is the same.
pub lex_lt-snoc :
    (xs ys : Bytes) (c d : ℕ)
    → length xs ≡ length ys
    → lex_lt (xs ++ c ∷ []) (ys ++ d ∷ [])
      ≡ (if lex_lt xs ys then true else if bytes_eq xs ys then ltb c d else false)
lex_lt-snoc [] [] c d h = ground arith
lex_lt-snoc [] (y ∷ ys) c d h = absurd (omega arith)
lex_lt-snoc (x ∷ xs) [] c d h = absurd (omega arith)
lex_lt-snoc (x ∷ xs) (y ∷ ys) c d h = ground (arith, lex_lt-snoc xs ys c d)

pub lex_lt_irrefl : (xs : Bytes) → lex_lt xs xs ≡ false
lex_lt_irrefl [] = refl
lex_lt_irrefl (x ∷ xs) = ground (arith, lex_lt_irrefl xs)

-- The order is total on byte strings.
pub lex_lt_asym : (xs ys : List ℕ) → lex_lt xs ys ≡ true → lex_lt ys xs ≡ false
lex_lt_asym [] [] h = cc
lex_lt_asym [] (y ∷ ys) h = refl
lex_lt_asym (x ∷ xs) [] h = cc
lex_lt_asym (x ∷ xs) (y ∷ ys) h = ground (arith, lex_lt_asym xs ys)

pub lex_lt_total : (xs ys : List ℕ) → lex_lt xs ys ≡ false → lex_lt ys xs ≡ false → xs ≡ ys
lex_lt_total [] [] h k = refl
lex_lt_total [] (y ∷ ys) h k = cc
lex_lt_total (x ∷ xs) [] h k = cc
lex_lt_total (x ∷ xs) (y ∷ ys) h k = ground (arith, lex_lt_total xs ys)
