-- ===== src/Lock/Epoch.antt =====
-- bepository-lock/src/epoch.rs: a lock epoch, a number with its Base32 text.
pub mod Laws
use bepository.Prelude.{
  ℕ, Bytes, Bool, Option, none, some, ◌++◌, Result, ok, err, ◌>>=◌, ltb, ◌==◌, and_then,
}
use bepository.Lock.Base32.{Base32Error, to_base32, from_base32, suffix}

pub record Epoch : Type 0 where
  pub val : ℕ
  pub base32 : Bytes

unfoldable pub new : ℕ → Result Base32Error Epoch
new val = do b ← to_base32 val; ok (record { val = val; base32 = b })

-- `Self::new(val).expect(…)`: no theorem below meets the `none` that stands for the panic here.
unfoldable pub expect_new : ℕ → Option Epoch
unfolding new
expect_new val = elim (new val) [ ok e ↦ some e | err _ ↦ none ]

unfoldable pub parse : Bytes → Option Epoch
unfolding expect_new
parse s = and_then (from_base32 s) expect_new

abbrev pub as_u64 : Epoch → ℕ
as_u64 e = e.val

abbrev pub as_base32 : Epoch → Bytes
as_base32 e = e.base32

abbrev pub json_filename : Epoch → Bytes
json_filename e = as_base32 e ++ suffix

-- `Ord` compares the numbers; `==` is derived, and compares both fields.
abbrev pub before : Epoch → Epoch → Bool
before a b = ltb a.val b.val
