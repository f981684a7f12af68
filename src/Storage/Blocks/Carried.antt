-- ===== src/Storage/Blocks/Carried.antt =====
-- Carrying block pointers over from the old version of a file gives no block the data of another.
use mathlib.Core.Path.{subst}
use bepository.Prelude.{
  ℕ, ◌≡◌, refl, Bytes, Bool, true, false, ◌&&◌, Option, none, some, List, [], ◌∷◌, map, Result, ok,
  err, is_none, if◌then◌else◌, bytes_eq, bytes_eq_iff, arith,
}
use bepository.Bep.Errors.{StorageError}
use bepository.Storage.Proto.{BlockInfo, FileInfo}
use bepository.Storage.Blocks.{
  resolve_block_data, has_data, by_hash, take_data, carry_block, carry_block_pointers,
}

module _ (read : ℕ → Result StorageError (Option Bytes)) (sha256 : Bytes → Bytes) where
  abbrev pub HasHash : Result StorageError (Option Bytes) → Bytes → Type 0
  HasHash (ok (some content)) hash = sha256 content ≡ hash
  HasHash (ok none) hash = Unit {0}
  HasHash (err e) hash = Unit {0}

  -- Whatever a block resolves to has the block's hash.
  abbrev pub IsAddressed : BlockInfo → Type 0
  IsAddressed b = HasHash (resolve_block_data read b) b.hash

  abbrev pub AllAddressed : List BlockInfo → Type 0
  AllAddressed [] = Unit {0}
  AllAddressed (b ∷ l) = IsAddressed b × AllAddressed l

  by_hash-IsAddressed :
      (old : List BlockInfo) (hash : Bytes) (src : BlockInfo)
      → AllAddressed old
      → by_hash old hash ≡ some src
      → IsAddressed src × (src.hash ≡ hash)
  unfolding by_hash
  by_hash-IsAddressed [] hash src a found = absurd (cc found)
  by_hash-IsAddressed (b ∷ l) hash src (a, rest) found =
      go (has_data b && bytes_eq b.hash hash) refl found
        (λ later. by_hash-IsAddressed l hash src rest later)
    where
      go :
          (here : Bool)
          → (has_data b && bytes_eq b.hash hash) ≡ here
          → (if here then some b else by_hash l hash) ≡ some src
          → (by_hash l hash ≡ some src → IsAddressed src × (src.hash ≡ hash))
          → IsAddressed src × (src.hash ≡ hash)
      go true here same next =
          let it : b ≡ src = cc in
          subst (λ (s : BlockInfo). IsAddressed s × (s.hash ≡ hash)) it
            (a, (bytes_eq_iff b.hash hash).0 (ground arith))
      go false here later next = next later

  take_data-IsAddressed :
      (b : BlockInfo) (o : Option BlockInfo)
      → IsAddressed b
      → ((src : BlockInfo) → o ≡ some src → IsAddressed src × (src.hash ≡ b.hash))
      → IsAddressed (take_data b o)
  unfolding resolve_block_data
  take_data-IsAddressed b none own from = own
  take_data-IsAddressed b (some src) own from =
      let (addressed, same) = from src refl in
      subst (λ h. HasHash (resolve_block_data read src) h) same addressed

  carry_block-IsAddressed :
      (old : List BlockInfo) (b : BlockInfo)
      → AllAddressed old
      → IsAddressed b
      → IsAddressed (carry_block old b)
  unfolding carry_block
  carry_block-IsAddressed old b a own = go (is_none b.blockseq && is_none b.inline_data)
    where
      go : (bare : Bool) → IsAddressed (if bare then take_data b (by_hash old b.hash) else b)
      go true =
          take_data-IsAddressed b (by_hash old b.hash) own
            (λ src found. by_hash-IsAddressed old b.hash src a found)
      go false = own

  carry_blocks-IsAddressed :
      (old l : List BlockInfo)
      → AllAddressed old
      → AllAddressed l
      → AllAddressed (map (carry_block old) l)
  carry_blocks-IsAddressed old [] a own = tt
  carry_blocks-IsAddressed old (b ∷ l) a (own, rest) =
      (carry_block-IsAddressed old b a own, carry_blocks-IsAddressed old l a rest)

  -- If every block of the old and the new version of a file resolves to data with the block's hash,
  -- or to nothing, then so does every block of the new version with the pointers carried over,
  -- whatever blocks the numbers read as.
  pub carry_block_pointers-AllAddressed :
      (new old : FileInfo)
      → AllAddressed old.blocks
      → AllAddressed new.blocks
      → AllAddressed (carry_block_pointers new old).blocks
  unfolding carry_block_pointers
  carry_block_pointers-AllAddressed new old a own =
      carry_blocks-IsAddressed old.blocks new.blocks a own
