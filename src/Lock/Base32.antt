-- ===== src/Lock/Base32.antt =====
-- bepository-lock/src/base32.rs: Crockford Base32 numbers of eight characters.
pub mod Tables
pub mod Digits
pub mod Decode
pub mod Order
use Prim.Native.Nat.{bit_or}
use mathlib.Core.List.{reverse}
use mathlib.Core.Option
use bepository.Prelude.{
  ℕ, zero, suc, ◌-◌, ◌^◌, Bytes, codes, Bool, Option, none, some, List, [], ◌∷◌, ◌++◌, Result, ok,
  err, ltb, ◌==◌, not, if◌then◌else◌, length, get_or, shr, shl64, low_bits, strip_prefix, and_then,
}

unfoldable pub alphabet : Bytes
alphabet = codes "0123456789ABCDEFGHJKMNPQRSTVWXYZ"

abbrev pub max_val : ℕ
max_val = 2 ^ 40 - 1

pub data Base32Error : Type 0 where
  overflow : ℕ → Base32Error

-- `ALPHABET[i]`; the index is below 32 at each use.
unfoldable pub digit : ℕ → ℕ
unfolding alphabet
digit i = get_or alphabet i 0

-- The rounds of the loop that pushes the low digit and shifts.
unfoldable pub push_digits : ℕ → ℕ → Bytes → Bytes
push_digits zero val s = s
push_digits (suc n) val s = push_digits n (shr val 5) (s ++ digit (low_bits val 5) ∷ [])

unfoldable pub to_base32 : ℕ → Result Base32Error Bytes
unfolding push_digits
to_base32 val = if ltb max_val val then err (overflow val) else ok (reverse (push_digits 8 val []))

-- `iter().position(|&x| x == c)`
unfoldable pub position : Bytes → ℕ → Option ℕ
position [] c = none
position (x ∷ xs) c = let rest = Option.map suc (position xs c) in if x == c then some 0 else rest

-- The loop over the characters: `val = (val << 5) | idx`.
unfoldable pub read_digits : ℕ → Bytes → Option ℕ
unfolding position alphabet
read_digits val [] = some val
read_digits val (c ∷ s) =
    and_then (position alphabet c) (λ idx. read_digits (bit_or (shl64 val 5) idx) s)

abbrev pub suffix : Bytes
suffix = codes ".json"

-- `s.strip_suffix(".json").unwrap_or(s)`
unfoldable pub strip_json : Bytes → Bytes
strip_json s = elim (strip_prefix (reverse suffix) (reverse s)) [ none ↦ s | some r ↦ reverse r ]

unfoldable pub from_base32 : Bytes → Option ℕ
unfolding strip_json read_digits
from_base32 s =
    let bare = strip_json s in if not (length bare == 8) then none else read_digits 0 bare
