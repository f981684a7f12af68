-- ===== src/Storage/Keys/Extractors.antt =====
-- The prefix extractors of store_keys.rs, which tell the database what part of a key its filters and
-- segments go by. The target is the bytes of a point or of a prefix.
use bepository.Prelude.{
  ℕ, ◌+◌, ◌≡◌, refl, ◌&&◌, ◌||◌, Option, none, some, [], ◌∷◌, ◌++◌, Bytes, length, length-append,
  take, take-append, leb, ◌==◌, if◌then◌else◌, starts_with, arith,
}
use bepository.Storage.Keys.{
  hash_len, slash, block_rev_prefix, dir_and_base, block_reverse_key, block_reverse_prefix,
}

abbrev pub br_filter_prefix_len : ℕ
br_filter_prefix_len = length block_rev_prefix + hash_len

-- `BrPrefixExtractor::prefix_len`
unfoldable pub br_prefix_len : Bytes → Option ℕ
br_prefix_len bytes =
    if leb br_filter_prefix_len (length bytes) && starts_with block_rev_prefix bytes
    then some br_filter_prefix_len
    else none

-- `BepSegmentExtractor::prefix_len`
unfoldable pub segment_prefix_len : Bytes → Option ℕ
segment_prefix_len [] = none
segment_prefix_len (x ∷ bytes) = if (x == b'b') || (x == b'm') then some 1 else none

long_prefix :
    (hash rest : Bytes)
    → length hash ≡ hash_len
    → br_prefix_len (block_rev_prefix ++ hash ++ rest) ≡ some br_filter_prefix_len
unfolding br_prefix_len
long_prefix hash rest h = ground (arith, length-append hash rest)

take_hash : (hash rest : Bytes) → length hash ≡ hash_len → take hash_len (hash ++ rest) ≡ hash
take_hash hash rest h = rw (← h) (take-append hash rest)

same_prefix :
    (hash rest : Bytes)
    → length hash ≡ hash_len
    → take br_filter_prefix_len (block_rev_prefix ++ hash ++ rest) ≡ block_rev_prefix ++ hash
same_prefix hash rest h = rw (take_hash hash rest h) refl

-- The scan for the reverse references of a hash of 32 bytes and the key of each such reference have the
-- same prefix, and it is the prefix that the filter goes by, so the filter hides none of them.
pub br_prefix_len-block_reverse_key :
    (hash name : Bytes)
    → length hash ≡ hash_len
    → (br_prefix_len (block_reverse_key hash name) ≡ some br_filter_prefix_len)
      × (br_prefix_len (block_reverse_prefix hash) ≡ some br_filter_prefix_len)
      × (take br_filter_prefix_len (block_reverse_key hash name)
          ≡ take br_filter_prefix_len (block_reverse_prefix hash))
unfolding block_reverse_key block_reverse_prefix
br_prefix_len-block_reverse_key hash name h = (
  long_prefix hash (slash ∷ dir_and_base name) h,
  long_prefix hash (slash ∷ []) h,
  rw (same_prefix hash (slash ∷ dir_and_base name) h, same_prefix hash (slash ∷ []) h) refl,
)
