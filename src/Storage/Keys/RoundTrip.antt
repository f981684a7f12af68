-- ===== src/Storage/Keys/RoundTrip.antt =====
-- Every key that holds a name or a hash parses back to what it was made from.
use bepository.Prelude.{
  ℕ, ◌+◌, ◌-◌, ◌≡◌, true, false, some, ◌∷◌, ◌++◌, Bytes, arith, ltb, length, length-append, take,
  take-append, drop-append,
}
use bepository.Prelude.Utf8.{is_utf8, from_utf8}
use bepository.Lock.Epoch.{Epoch, as_base32}
use bepository.Lock.Epoch.Laws.{IsValid, parse-as_base32, as_base32_text}
use bepository.Storage.Keys.{
  slash, hash_len, block_prefix, dirname, dir_and_base, after_field, file_key, parse_file_key,
  file_key_dir, block_reverse_key, parse_block_reverse_key, inbox_key, parse_inbox_key,
  block_pointer_key, parse_block_pointer_key, block_key_dir,
}
use bepository.Storage.Keys.Split.{
  IsName, split_name-IsParted, dir_and_base-is_utf8, rsplit_slashes-append, parse-dir_and_base,
}

-- A file key parses back to its name.
pub parse_file_key-file_key :
    (name : Bytes) → IsName name → parse_file_key (file_key name) ≡ some name
parse_file_key-file_key name h = unfold parse_file_key file_key in (parse-dir_and_base name h)

after_field-append :
    (n : ℕ) (xs s : Bytes) → length xs ≡ n → after_field n (xs ++ slash ∷ s) ≡ some s
after_field-append n xs s h = rw (← h) (rw (drop-append xs (slash ∷ s), after_field))

take_field : (n : ℕ) (xs s : Bytes) → length xs ≡ n → take n (xs ++ s) ≡ xs
take_field n xs s h = rw (← h) (take-append xs s)

-- The length test of the parsers passes where there is a field and a slash.
long_enough :
    (n : ℕ) (xs s : Bytes) → length xs ≡ n → ltb (length (xs ++ slash ∷ s)) (n + 1) ≡ false
long_enough n xs s h = ground (arith, length-append xs (slash ∷ s))

-- A reverse reference parses back to its hash and its name.
pub parse_block_reverse_key-block_reverse_key :
    (hash name : Bytes)
    → length hash ≡ hash_len
    → IsName name
    → parse_block_reverse_key (block_reverse_key hash name) ≡ some (hash, name)
unfolding parse_block_reverse_key block_reverse_key
parse_block_reverse_key-block_reverse_key hash name h v =
    let s : Bytes = dir_and_base name in
    ground (
      arith,
      long_enough hash_len hash s h,
      after_field-append hash_len hash s h,
      take_field hash_len hash (slash ∷ s) h,
      parse-dir_and_base name v,
    )

-- An inbox key parses back to its epoch and its name.
pub parse_inbox_key-inbox_key :
    (e : Epoch) (name : Bytes)
    → IsValid e
    → IsName name
    → parse_inbox_key (inbox_key e name) ≡ some (e, name)
unfolding parse_inbox_key inbox_key from_utf8
parse_inbox_key-inbox_key e name v w =
    let s : Bytes = dir_and_base name in
    let (long, text) = as_base32_text e v in
    ground (
      arith,
      long_enough 8 (as_base32 e) s long,
      after_field-append 8 (as_base32 e) s long,
      take_field 8 (as_base32 e) (slash ∷ s) long,
      (parse-as_base32 e v).0,
      parse-dir_and_base name w,
    )

-- A block pointer parses back to its hash, and to its directory.
pub parse_block_pointer_key-block_pointer_key :
    (dir hash : Bytes)
    → length hash ≡ hash_len
    → (is_utf8 dir ≡ true)
    → (parse_block_pointer_key (block_pointer_key dir hash) ≡ some hash)
      × (block_key_dir (block_pointer_key dir hash) ≡ some dir)
unfolding parse_block_pointer_key block_key_dir block_pointer_key from_utf8
parse_block_pointer_key-block_pointer_key dir hash h u =
    let tagged : Bytes = block_prefix ++ dir in
    let key : Bytes = tagged ++ slash ∷ hash in
    let total : length (dir ++ slash ∷ hash) ≡ length dir + 33 =
      omega (arith, length-append dir (slash ∷ hash)) in
    let at : length tagged ≡ length key - hash_len - 1 = omega (arith, total) in
    let at' : length tagged ≡ length key - (1 + hash_len) = omega (arith, total) in
    (
      ground (arith, total, after_field-append (length key - hash_len - 1) tagged hash at),
      ground (arith, total, take_field (length key - (1 + hash_len)) tagged (slash ∷ hash) at'),
    )

file_key_dir-file_key :
    (name : Bytes) → IsName name → file_key_dir (file_key name) ≡ some (dirname name)
unfolding file_key_dir file_key dirname from_utf8
file_key_dir-file_key name h =
    let (d, b, s) = split_name-IsParted name in
    ground
      (arith, s.split, dir_and_base-is_utf8 name d b s h.utf8, rsplit_slashes-append d b s.clean)
