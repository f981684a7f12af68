-- ===== src/Prelude/BigEndian.antt =====
-- `u64::to_be_bytes` and `u64::from_be_bytes`.
use native.Mathlib.Nat.{pow-suc}
use bepository.Prelude.{
  ℕ, zero, suc, ◌+◌, ◌*◌, ◌/◌, ◌%◌, ◌^◌, ◌<◌, ◌≡◌, refl, sym, ◌∙◌, [], ◌∷◌, ◌++◌, Bytes, arith, ltb,
  length, length-append, lex_lt, bytes_eq_iff,
}
use bepository.Prelude.Lex.{lex_lt-snoc, lex_lt_irrefl}

unfoldable pub to_be_bytes : ℕ → ℕ → Bytes
to_be_bytes zero v = []
to_be_bytes (suc n) v = to_be_bytes n (v / 256) ++ (v % 256) ∷ []

unfoldable pub from_be_bytes : ℕ → Bytes → ℕ
from_be_bytes acc [] = acc
from_be_bytes acc (b ∷ s) = from_be_bytes (acc * 256 + b) s

pub length-to_be_bytes : (n v : ℕ) → length (to_be_bytes n v) ≡ n
unfolding to_be_bytes
length-to_be_bytes zero v = refl
length-to_be_bytes (suc n) v = omega (
  arith,
  length-to_be_bytes n (v / 256),
  length-append (to_be_bytes n (v / 256)) ((v % 256) ∷ []),
)

from_be_bytes-append :
    (xs ys : Bytes) (acc : ℕ)
    → from_be_bytes acc (xs ++ ys) ≡ from_be_bytes (from_be_bytes acc xs) ys
unfolding from_be_bytes
from_be_bytes-append [] ys acc = refl
from_be_bytes-append (x ∷ xs) ys acc = from_be_bytes-append xs ys (acc * 256 + x)

pub from_be_bytes-to_be_bytes : (n v : ℕ) → v < 256 ^ n → from_be_bytes 0 (to_be_bytes n v) ≡ v
unfolding from_be_bytes to_be_bytes
from_be_bytes-to_be_bytes zero v h = omega arith
from_be_bytes-to_be_bytes (suc n) v h = omega (
  arith,
  from_be_bytes-to_be_bytes n (v / 256) (omega (arith, pow-suc 256 n)),
  from_be_bytes-append (to_be_bytes n (v / 256)) ((v % 256) ∷ []) 0,
)

-- Of the same width, the texts are in the order of the numbers.
pub lex_lt-to_be_bytes :
    (n a b : ℕ) → a < 256 ^ n → b < 256 ^ n → lex_lt (to_be_bytes n a) (to_be_bytes n b) ≡ ltb a b
unfolding to_be_bytes
lex_lt-to_be_bytes zero a b h k = ground arith
lex_lt-to_be_bytes (suc n) a b h k =
    let less =
      lex_lt-to_be_bytes n (a / 256) (b / 256) (omega (arith, pow-suc 256 n))
        (omega (arith, pow-suc 256 n)) in
    let more =
      lex_lt-to_be_bytes n (b / 256) (a / 256) (omega (arith, pow-suc 256 n))
        (omega (arith, pow-suc 256 n)) in
    let xs : Bytes = to_be_bytes n (a / 256) in
    let ys : Bytes = to_be_bytes n (b / 256) in
    let lengths : length xs ≡ length ys =
      length-to_be_bytes n (a / 256) ∙ sym (length-to_be_bytes n (b / 256)) in
    ground (
      arith,
      less,
      more,
      lex_lt-snoc xs ys (a % 256) (b % 256) lengths,
      bytes_eq_iff xs ys,
      lex_lt_irrefl xs,
    )
