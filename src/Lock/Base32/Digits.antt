-- ===== src/Lock/Base32/Digits.antt =====
-- The encoder against a reference that writes the most significant digit first.
use mathlib.Core.List.{reverse, reverse-append}
use bepository.Prelude.{
  ℕ, zero, suc, ◌/◌, ◌%◌, ◌≤◌, ◌≡◌, true, refl, sym, ◌∙◌, ap, [], ◌∷◌, ◌++◌, Bytes, arith, ok,
  length, length-append, append_assoc, append-nil,
}
use bepository.Prelude.Utf8.{is_utf8, is_utf8-nil, is_utf8-append, is_utf8_ascii}
use bepository.Lock.Base32.Tables.{digit_lt}
use bepository.Lock.Base32.{digit, push_digits, to_base32, max_val}

-- The last `n` digits of `val`, most significant first.
unfoldable pub encode : ℕ → ℕ → Bytes
encode zero val = []
encode (suc n) val = encode n (val / 32) ++ digit (val % 32) ∷ []

reverse-push_digits :
    (n val : ℕ) (s : Bytes) → reverse (push_digits n val s) ≡ encode n val ++ reverse s
unfolding push_digits encode
reverse-push_digits zero val s = refl
reverse-push_digits (suc n) val s =
    reverse-push_digits n (val / 32) (s ++ digit (val % 32) ∷ [])
    ∙ ap (λ l. encode n (val / 32) ++ l) (reverse-append s (digit (val % 32) ∷ []))
    ∙ sym (append_assoc (encode n (val / 32)) (digit (val % 32) ∷ []) (reverse s))

pub to_base32-eq-encode : (val : ℕ) → val ≤ max_val → to_base32 val ≡ ok (encode 8 val)
unfolding to_base32
to_base32-eq-encode val h = ground (arith, reverse-push_digits 8 val [], append-nil (encode 8 val))

pub length-encode : (n val : ℕ) → length (encode n val) ≡ n
unfolding encode
length-encode zero val = refl
length-encode (suc n) val =
    omega (
      arith,
      length-encode n (val / 32),
      length-append (encode n (val / 32)) (digit (val % 32) ∷ []),
    )

pub encode-is_utf8 : (n val : ℕ) → is_utf8 (encode n val) ≡ true
unfolding encode
encode-is_utf8 zero val = is_utf8-nil
encode-is_utf8 (suc n) val =
    is_utf8-append (encode n (val / 32)) (digit (val % 32) ∷ []) (encode-is_utf8 n (val / 32))
    ∙ is_utf8_ascii (digit (val % 32)) (digit_lt (val % 32) (omega arith))
