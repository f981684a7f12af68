-- ===== src/Lock/Base32/Order.antt =====
-- The order of the encoded texts is the order of the numbers.
use native.Mathlib.Nat.{pow-suc}
use bepository.Prelude.{
  ℕ, zero, suc, ◌/◌, ◌%◌, ◌^◌, ◌≤◌, ◌<◌, ◌≡◌, sym, ◌∙◌, Bytes, arith, ok, ltb, length, lex_lt,
  bytes_eq_iff,
}
use bepository.Prelude.Lex.{lex_lt-snoc, lex_lt_irrefl}
use bepository.Lock.Base32.{digit, to_base32, max_val}
use bepository.Lock.Base32.Tables.{ltb-digit}
use bepository.Lock.Base32.Digits.{encode, length-encode, to_base32-eq-encode}

pub lex_lt-encode :
    (n a b : ℕ) → a < 32 ^ n → b < 32 ^ n → lex_lt (encode n a) (encode n b) ≡ ltb a b
unfolding encode
lex_lt-encode zero a b h k = ground arith
lex_lt-encode (suc n) a b h k =
    let less =
      lex_lt-encode n (a / 32) (b / 32) (omega (arith, pow-suc 32 n))
        (omega (arith, pow-suc 32 n)) in
    let more =
      lex_lt-encode n (b / 32) (a / 32) (omega (arith, pow-suc 32 n))
        (omega (arith, pow-suc 32 n)) in
    let xs : Bytes = encode n (a / 32) in
    let ys : Bytes = encode n (b / 32) in
    let lengths : length xs ≡ length ys =
      length-encode n (a / 32) ∙ sym (length-encode n (b / 32)) in
    ground (
      arith,
      less,
      more,
      lex_lt-snoc xs ys (digit (a % 32)) (digit (b % 32)) lengths,
      bytes_eq_iff xs ys,
      lex_lt_irrefl xs,
      ltb-digit (a % 32) (b % 32) (omega arith) (omega arith),
    )

pub to_base32-eq-ok : (a : ℕ) (s : Bytes) → to_base32 a ≡ ok s → (a ≤ max_val) × (s ≡ encode 8 a)
to_base32-eq-ok a s h =
    let fits : a ≤ max_val = unfold to_base32 in (ground arith) in
    (fits, cc (to_base32-eq-encode a fits))

-- Encoded numbers are ordered as texts exactly as they are ordered as numbers.
pub lex_lt-to_base32 :
    (a b : ℕ) (s t : Bytes) → to_base32 a ≡ ok s → to_base32 b ≡ ok t → lex_lt s t ≡ ltb a b
lex_lt-to_base32 a b s t h k =
    let fits = to_base32-eq-ok a s h in
    let fits' = to_base32-eq-ok b t k in
    rw (fits.1, fits'.1) (lex_lt-encode 8 a b (omega (arith, fits.0)) (omega (arith, fits'.0)))
