-- ===== src/Lock/Base32/Decode.antt =====
-- Decoding and encoding are inverse to each other.
use Prim.Native.Nat.{bit_or}
use mathlib.Core.List.{reverse-append, reverse-reverse}
use native.Mathlib.Nat.{pow-suc, le_trans, pow-le-pow_right}
use bepository.Prelude.{
  ℕ, zero, suc, ◌+◌, ◌*◌, ◌/◌, ◌%◌, ◌^◌, ◌≤◌, ◌<◌, ◌≡◌, refl, sym, ◌∙◌, ap, Option, none, some, [],
  ◌∷◌, ◌++◌, Bytes, arith, ok, length, append_assoc, append-nil, and_then, shl64,
}
use bepository.Prelude.Bits.{bit_or_five}
use bepository.Lock.Base32.{
  alphabet, digit, position, read_digits, suffix, strip_json, from_base32, to_base32, max_val,
}
use bepository.Lock.Base32.Tables.{position-digit, digit-ne-n, digit_of_position}
use bepository.Lock.Base32.Digits.{encode, length-encode, to_base32-eq-encode}

read_digits-append :
    (xs ys : Bytes) (acc : ℕ)
    → read_digits acc (xs ++ ys) ≡ and_then (read_digits acc xs) (λ v. read_digits v ys)
unfolding read_digits
read_digits-append [] ys acc = refl
read_digits-append (x ∷ xs) ys acc = go (λ a. read_digits-append xs ys a) (position alphabet x)
  where
    go :
        ((a : ℕ) → read_digits a (xs ++ ys) ≡ and_then (read_digits a xs) (λ v. read_digits v ys))
        → (o : Option ℕ)
        → and_then o (λ idx. read_digits (bit_or (shl64 acc 5) idx) (xs ++ ys))
          ≡ and_then
              (and_then o (λ idx. read_digits (bit_or (shl64 acc 5) idx) xs))
              (λ v. read_digits v ys)
    go rec none = refl
    go rec (some idx) = rec (bit_or (shl64 acc 5) idx)

-- One more digit at the low end.
read_digit : (v d : ℕ) → v < 2 ^ 59 → d < 32 → read_digits v (digit d ∷ []) ≡ some (v * 32 + d)
unfolding read_digits
read_digit v d h k = ground (arith, position-digit d k, bit_or_five v d k)

pub read_digits-encode :
    (n val : ℕ) → val < 32 ^ n → val < 2 ^ 63 → read_digits 0 (encode n val) ≡ some val
unfolding encode
read_digits-encode zero val h k = unfold read_digits in (ground arith)
read_digits-encode (suc n) val h k =
    let shorter = read_digits-encode n (val / 32) (omega (arith, pow-suc 32 n)) (omega arith) in
    let last = read_digit (val / 32) (val % 32) (omega arith) (omega arith) in
    let whole : val / 32 * 32 + val % 32 ≡ val = omega arith in
    cc (read_digits-append (encode n (val / 32)) (digit (val % 32) ∷ []) 0, shorter, last, whole)

digits_fit : (k : ℕ) → k ≤ 7 → 32 ^ k ≤ 2 ^ 40
digits_fit k h = le_trans (pow-le-pow_right {n = 32} (omega arith) h) (omega arith)

encode-digit : (k acc d : ℕ) → d < 32 → encode (suc k) (acc * 32 + d) ≡ encode k acc ++ digit d ∷ []
unfolding encode
encode-digit k acc d h =
    let high : (acc * 32 + d) / 32 ≡ acc = omega arith in
    let low : (acc * 32 + d) % 32 ≡ d = omega arith in cc

-- A reading that succeeds starts with a digit, and goes on from the sum.
read_digits_cons :
    (c : ℕ) (s : Bytes) (acc v : ℕ)
    → acc < 2 ^ 59
    → read_digits acc (c ∷ s) ≡ some v
    → (d : ℕ) × (d < 32) × (digit d ≡ c) × (read_digits (acc * 32 + d) s ≡ some v)
read_digits_cons c s acc v b r = go (position alphabet c) refl
  where
    go :
        (o : Option ℕ)
        → position alphabet c ≡ o
        → (d : ℕ) × (d < 32) × (digit d ≡ c) × (read_digits (acc * 32 + d) s ≡ some v)
    go none found = unfold read_digits in (ground arith)
    go (some d) found =
        let small : d < 32 = unfold alphabet in (digit_of_position alphabet c d found).0 in
        let at : digit d ≡ c = unfold digit in (digit_of_position alphabet c d found).1 in
        (d, small, at, unfold read_digits in (ground (arith, bit_or_five acc d small)))

-- What was read so far, with the digits that follow, is what the encoder writes.
encode-read_digits :
    (s : Bytes) (k n acc v : ℕ)
    → n ≡ k + length s
    → n ≤ 8
    → acc < 32 ^ k
    → read_digits acc s ≡ some v
    → (v < 32 ^ n) × (encode n v ≡ encode k acc ++ s)
encode-read_digits [] k n acc v e small h r =
    let same : n ≡ k = omega arith in
    let read : acc ≡ v = unfold read_digits in (cc r) in
    (rw (same, ← read) h, rw (same, ← read) (sym (append-nil _)))
encode-read_digits (c ∷ s) k n acc v e tiny h r =
    let (d, small, at, next) =
      read_digits_cons c s acc v (omega (arith, digits_fit k (omega arith))) r in
    let (fits, whole) =
      encode-read_digits s (suc k) n (acc * 32 + d) v (omega arith) tiny
        (omega (arith, pow-suc 32 k)) next in
    (
      fits,
      whole
          ∙ ap (λ l. l ++ s) (encode-digit k acc d small)
          ∙ append_assoc (encode k acc) (digit d ∷ []) s
          ∙ ap (λ x. encode k acc ++ x ∷ s) at,
    )

-- Without the suffix the text is left alone, and with it the suffix goes.
strip_json-encode : (n val : ℕ) → strip_json (encode (suc n) val) ≡ encode (suc n) val
unfolding strip_json encode
strip_json-encode n val =
    rw (reverse-append (encode n (val / 32)) (digit (val % 32) ∷ []), strip_json)
      (ground (arith, digit-ne-n (val % 32) (omega arith)))

strip_json-append : (s : Bytes) → strip_json (s ++ suffix) ≡ s
unfolding strip_json
strip_json-append s = rw (reverse-append s suffix, strip_json) (reverse-reverse s)

from_base32-bare : (t s : Bytes) → strip_json t ≡ s → length s ≡ 8 → from_base32 t ≡ read_digits 0 s
unfolding from_base32
from_base32-bare t s e h = ground arith

-- Every number that fits in 40 bits is encoded, in eight characters, and reads back as itself,
-- with and without the file suffix.
pub from_base32-to_base32 :
    (val : ℕ)
    → val ≤ max_val
    → (s : Bytes) × (to_base32 val ≡ ok s)
      × (length s ≡ 8)
      × (from_base32 s ≡ some val)
      × (from_base32 (s ++ suffix) ≡ some val)
from_base32-to_base32 val h =
    let s : Bytes = encode 8 val in
    let read : read_digits 0 s ≡ some val = read_digits-encode 8 val (omega arith) (omega arith) in
    (
      s,
      to_base32-eq-encode val h,
      length-encode 8 val,
      from_base32-bare s s (strip_json-encode 7 val) (length-encode 8 val) ∙ read,
      from_base32-bare (s ++ suffix) s (strip_json-append s) (length-encode 8 val) ∙ read,
    )

from_base32_inv :
    (t : Bytes) (val : ℕ)
    → from_base32 t ≡ some val
    → (8 ≡ length (strip_json t)) × (read_digits 0 (strip_json t) ≡ some val)
unfolding from_base32
from_base32_inv t val h = ground arith

-- A text that is read gives a number that fits in 40 bits, and encoding that number gives the text
-- back, without its suffix.
pub to_base32-from_base32 :
    (t : Bytes) (val : ℕ)
    → from_base32 t ≡ some val
    → (val ≤ max_val) × (to_base32 val ≡ ok (strip_json t))
unfolding strip_json encode
to_base32-from_base32 t val h =
    let bare = from_base32_inv t val h in
    let (fits, same) =
      encode-read_digits (strip_json t) 0 8 0 val (omega (arith, bare.0)) (omega arith)
        (omega arith) bare.1 in
    let small : val ≤ max_val = omega arith in (small, to_base32-eq-encode val small ∙ ap ok same)
