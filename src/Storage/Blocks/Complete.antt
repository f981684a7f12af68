-- ===== src/Storage/Blocks/Complete.antt =====
-- When a staged file can be committed: which of its blocks get data from the old version.
use bepository.Prelude.{
  ◌≡◌, refl, Bytes, Bool, true, false, ◌&&◌, ◌||◌, Option, none, some, List, [], ◌∷◌, map, is_none,
  if◌then◌else◌, bytes_eq, arith,
}
use bepository.Storage.Proto.{BlockInfo, FileInfo}
use bepository.Storage.Blocks.{
  has_data, by_hash, take_data, carry_block, carry_block_pointers, is_complete,
}

-- Some block with data has the hash.
abbrev pub any_holder : List BlockInfo → Bytes → Bool
any_holder [] hash = false
any_holder (b ∷ l) hash = (has_data b && bytes_eq b.hash hash) || any_holder l hash

-- Every block has data, or its hash is that of an old block with data.
abbrev pub all_covered : List BlockInfo → List BlockInfo → Bool
all_covered old [] = true
all_covered old (b ∷ l) = (has_data b || any_holder old b.hash) && all_covered old l

abbrev data_of : Option BlockInfo → Bool
data_of none = false
data_of (some b) = has_data b

data_of-by_hash :
    (old : List BlockInfo) (hash : Bytes) → data_of (by_hash old hash) ≡ any_holder old hash
unfolding by_hash
data_of-by_hash [] hash = refl
data_of-by_hash (b ∷ l) hash = ground (arith, data_of-by_hash l hash)

has_data-carry_block :
    (old : List BlockInfo) (b : BlockInfo)
    → has_data (carry_block old b) ≡ (has_data b || any_holder old b.hash)
unfolding carry_block
has_data-carry_block old b = rw (← data_of-by_hash old b.hash) (go (by_hash old b.hash))
  where
    go :
        (o : Option BlockInfo)
        → has_data (if is_none b.blockseq && is_none b.inline_data then take_data b o else b)
          ≡ (has_data b || data_of o)
    go none = ground arith
    go (some src) = ground arith

is_complete-carry :
    (old l : List BlockInfo) → is_complete (map (carry_block old) l) ≡ all_covered old l
unfolding is_complete
is_complete-carry old [] = refl
is_complete-carry old (b ∷ l) = rw (has_data-carry_block old b, is_complete-carry old l) refl

-- With the pointers carried over, a file has no block without data exactly if each of its blocks had
-- data before, or has the hash of a block of the old version that had data.
pub is_complete-carry_block_pointers :
    (new old : FileInfo)
    → is_complete (carry_block_pointers new old).blocks ≡ all_covered old.blocks new.blocks
unfolding carry_block_pointers
is_complete-carry_block_pointers new old = is_complete-carry old.blocks new.blocks
