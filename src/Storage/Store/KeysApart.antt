-- ===== src/Storage/Store/KeysApart.antt =====
-- The keys of the file index as keys of one database, and single writes to them.
use bepository.Prelude.{
  ℕ, ◌≤◌, ◌≡◌, refl, ap, ◌⊎◌, inl, inr, Bytes, Bool, true, false, Option, some, List, [], ◌∷◌, ◌++◌,
  bytes_eq, bytes_eq_iff, bytes_eq_refl, i64_max, arith,
}
use bepository.Prelude.BigEndian.{to_be_bytes, from_be_bytes-to_be_bytes}
use bepository.Storage.Keys.{ix_key, file_key, seq_prefix}
use bepository.Storage.Keys.RoundTrip.{parse_file_key-file_key}
use bepository.Storage.Keys.Split.{IsName}
use bepository.Storage.Store.Db.{Write, put, delete, write_one, applied}

abbrev pub seq_of : ℕ → Bytes
seq_of n = seq_prefix ++ to_be_bytes 8 n

-- The second byte of a key, which tells its kind.
abbrev pub kind_byte : Bytes → ℕ
kind_byte (m ∷ kind ∷ rest) = kind
kind_byte _ = 0

pub bytes_eq-apart : (a b : Bytes) → (a ≡ b → ⊥) → bytes_eq a b ≡ false
bytes_eq-apart a b apart = go (bytes_eq a b) refl
  where
    go : (r : Bool) → bytes_eq a b ≡ r → r ≡ false
    go true is = absurd (apart ((bytes_eq_iff a b).0 is))
    go false is = refl

pub file_key-ix_key : (name : Bytes) → file_key name ≡ ix_key → ⊥
unfolding file_key
file_key-ix_key name same = absurd (omega (arith, ap kind_byte same))

pub file_key-seq_of : (name : Bytes) (n : ℕ) → file_key name ≡ seq_of n → ⊥
unfolding file_key
file_key-seq_of name n same = absurd (omega (arith, ap kind_byte same))

pub seq_of-ix_key : (n : ℕ) → seq_of n ≡ ix_key → ⊥
seq_of-ix_key n same = absurd (omega (arith, ap kind_byte same))

pub file_key-injective : (a b : Bytes) → IsName a → IsName b → file_key a ≡ file_key b → a ≡ b
file_key-injective a b u v same =
    let p = parse_file_key-file_key a u in let q = parse_file_key-file_key b v in cc (p, q)

pub seq_of-injective : (a b : ℕ) → a ≤ i64_max → b ≤ i64_max → seq_of a ≡ seq_of b → a ≡ b
seq_of-injective a b small small' same =
    let p = from_be_bytes-to_be_bytes 8 a (omega arith) in
    let q = from_be_bytes-to_be_bytes 8 b (omega arith) in cc (p, q)

pub write_put-same : (k v : Bytes) (c : Bytes → Option Bytes) → write_one (put k v) c k ≡ some v
write_put-same k v c = rw (bytes_eq_refl k) refl

pub write_put-apart :
    (key v : Bytes) (c : Bytes → Option Bytes) (k : Bytes)
    → (k ≡ key → ⊥)
    → write_one (put key v) c k ≡ c k
write_put-apart key v c k apart = rw (bytes_eq-apart k key apart) refl

pub write_delete-apart :
    (key : Bytes) (c : Bytes → Option Bytes) (k : Bytes)
    → (k ≡ key → ⊥)
    → write_one (delete key) c k ≡ c k
write_delete-apart key c k apart = rw (bytes_eq-apart k key apart) refl

pub applied-append :
    (a b : List Write) (c : Bytes → Option Bytes) (k : Bytes)
    → applied (a ++ b) c k ≡ applied b (applied a c) k
unfolding applied
applied-append [] b c k = refl
applied-append (w ∷ a) b c k = applied-append a b (write_one w c) k

pub bytes_eq-cases : (a b : Bytes) → (a ≡ b) ⊎ (a ≡ b → ⊥)
bytes_eq-cases a b = go (bytes_eq a b) refl
  where
    go : (r : Bool) → bytes_eq a b ≡ r → (a ≡ b) ⊎ (a ≡ b → ⊥)
    go true is = inl ((bytes_eq_iff a b).0 is)
    go false is = inr (λ same. absurd (cc ((bytes_eq_iff a b).1 same)))
