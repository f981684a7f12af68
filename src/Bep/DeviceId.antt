-- ===== src/Bep/DeviceId.antt =====
-- bepository-bep/src/device_id.rs: the check digits of device ids.
pub mod Check
use bepository.Prelude.{
  ℕ, ◌+◌, ◌-◌, ◌*◌, ◌/◌, ◌%◌, Bytes, codes, Bool, true, false, not, ◌&&◌, Option, none, some, List,
  [], ◌∷◌, Result, ok, err, ◌>>=◌, ok_or, leb, if◌then◌else◌, get_or, u32_mod,
}

unfoldable pub alphabet : Bytes
alphabet = codes "ABCDEFGHIJKLMNOPQRSTUVWXYZ234567"

pub data DeviceIdError : Type 0 where
  invalid_length : ℕ → DeviceIdError
  invalid_character : ℕ → DeviceIdError
  invalid_check_digit : DeviceIdError

-- `lo..=hi`
abbrev pub between : ℕ → ℕ → ℕ → Bool
between lo hi c = leb lo c && leb c hi

unfoldable pub decode_char : ℕ → Option ℕ
decode_char c =
    if between b'A' b'Z' c
    then some (c - b'A')
    else if between b'a' b'z' c
    then some (c - b'a')
    else if between b'2' b'7' c
    then some (c - b'2' + 26)
    else none

-- The factor is 1 and 2 in turn; `double` says which.
abbrev pub weigh : Bool → ℕ → ℕ
weigh double val = let a = if double then 2 * val else val in a / 32 + a % 32

-- The loop over the characters, on a `u32`.
unfoldable pub luhn_sum : ℕ → Bool → Bytes → Result DeviceIdError ℕ
luhn_sum sum double [] = ok sum
luhn_sum sum double (ch ∷ group) = ok_or (decode_char ch) (invalid_character ch) >>= λ val.
    luhn_sum ((sum + weigh double val) % u32_mod) (not double) group

unfoldable pub luhn_check : Bytes → Result DeviceIdError ℕ
unfolding luhn_sum alphabet
luhn_check group = luhn_sum 0 false group >>= λ sum. ok (get_or alphabet ((32 - sum % 32) % 32) 0)
