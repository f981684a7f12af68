-- ===== src/Bep/Validate/Blocks.antt =====
-- Which block lists are accepted, and that an accepted list tiles the file.
use mathlib.Core.Path.{subst}
use bepository.Prelude.{
  ap, ℕ, suc, ◌+◌, ◌≤◌, ◌<◌, ◌≡◌, ◌≢◌, refl, ◌↔◌, ◌⊎◌, inl, inr, Bool, ◌&&◌, List, [], ◌∷◌, arith,
  Result, ok, err, >>=-eq-ok, if◌then◌else◌, ltb, leb, length, i64_max,
}
use bepository.Prelude.Int.{ℤ, pos, negsuc, pos_part, ◌+ℤ◌, leb_ℤ, ltb_ℤ, eq_ℤ}
use bepository.Bep.Errors.{BepError}
use bepository.Bep.Proto.{BlockInfo, FileInfo}
use bepository.Bep.Validate.{
  max_block_size, check_block, check_blocks, validate_size_and_blocks, validate_file_info,
}

-- A block of a legal size with a SHA-256 hash that starts at `from`; it ends at `from + size`,
-- which fits in an `i64`.
pub record IsBlockAt (start : ℕ) (b : BlockInfo) (size : ℕ) : Type 0 where
  pub at : b.offset ≡ pos start
  pub sized : b.size ≡ pos size
  pub positive : 0 < size
  pub bounded : size ≤ max_block_size
  pub hashed : length b.hash ≡ 32
  pub fits : start + size ≤ i64_max

-- The blocks follow one another from `start` to `stop`, with no gap and no overlap.
abbrev pub Tiles : ℕ → List BlockInfo → ℕ → Type 0
Tiles start [] stop = start ≡ stop
Tiles start (b ∷ l) stop = (size : ℕ) × IsBlockAt start b size × Tiles (start + size) l stop

check_block-eq-ok :
    (start : ℕ) (b : BlockInfo) (next : ℤ)
    → check_block (pos start) b ≡ ok next
    → (size : ℕ) × IsBlockAt start b size × (next ≡ pos (start + size))
unfolding check_block ◌+ℤ◌
check_block-eq-ok start b next h = (pos_part b.size, ground arith, ground arith)

check_block_total :
    (start : ℕ) (b : BlockInfo) (size : ℕ)
    → IsBlockAt start b size
    → check_block (pos start) b ≡ ok (pos (start + size))
unfolding check_block ◌+ℤ◌
check_block_total start b size h = ground arith

check_blocks-Tiles :
    (l : List BlockInfo) (start : ℕ) (stop : ℤ)
    → check_blocks (pos start) l ≡ ok stop
    → (n : ℕ) × (stop ≡ pos n) × Tiles start l n
unfolding check_blocks
check_blocks-Tiles [] start stop h = (start, ground arith, refl)
check_blocks-Tiles (b ∷ l) start stop h =
    let (next, checked, rest) = >>=-eq-ok (check_block (pos start) b) (λ n. check_blocks n l) h in
    let (size, block, e) = check_block-eq-ok start b next checked in
    let (n, same, tiles) =
      check_blocks-Tiles l (start + size) stop (subst (λ t. check_blocks t l ≡ ok stop) e rest) in
    (n, same, (size, block, tiles))

check_blocks_of_Tiles :
    (l : List BlockInfo) (start stop : ℕ)
    → Tiles start l stop
    → check_blocks (pos start) l ≡ ok (pos stop)
unfolding check_blocks
check_blocks_of_Tiles [] start stop h = ap (λ n. ok (pos n)) h
check_blocks_of_Tiles (b ∷ l) start stop (size, block, tiles) =
    rw (check_block_total start b size block) (check_blocks_of_Tiles l (start + size) stop tiles)

abbrev AreWellFormed : ℤ → List BlockInfo → Type 0
AreWellFormed size l = (n : ℕ) × (size ≡ pos n) × ((l ≡ []) ⊎ Tiles 0 l n)

-- Where the size is not negative and there are blocks, only the end of the loop decides.
last_check :
    (n : ℕ) (b : BlockInfo) (l : List BlockInfo) (stop : ℤ)
    → check_blocks (pos 0) (b ∷ l) ≡ ok stop
    → validate_size_and_blocks (pos n) (b ∷ l)
      ≡ (if eq_ℤ stop (pos n) then ok tt else err BepError.peer_bad_message)
last_check n b l stop h = unfold validate_size_and_blocks in (rw h (ground arith))

accepted_sound :
    (size : ℤ) (l : List BlockInfo) → validate_size_and_blocks size l ≡ ok tt → AreWellFormed size l
accepted_sound (negsuc n) l h = absurd (unfold validate_size_and_blocks in (ground arith))
accepted_sound (pos n) [] h = (n, refl, inl refl)
accepted_sound (pos n) (b ∷ l) h = go (check_blocks (pos 0) (b ∷ l)) refl
  where
    go : (r : Result BepError ℤ) → check_blocks (pos 0) (b ∷ l) ≡ r → AreWellFormed (pos n) (b ∷ l)
    go (err e) failed = absurd (unfold validate_size_and_blocks in (ground arith))
    go (ok stop) checked =
        let (m, at, tiles) = check_blocks-Tiles (b ∷ l) 0 stop checked in
        let same : m ≡ n = ground (arith, last_check n b l stop checked) in
        (n, refl, inr (subst (Tiles 0 (b ∷ l)) same tiles))

accepted_empty : (n : ℕ) → validate_size_and_blocks (pos n) [] ≡ ok tt
accepted_empty n = unfold validate_size_and_blocks check_blocks in (ground arith)

accepted_complete :
    (n : ℕ) (l : List BlockInfo) → Tiles 0 l n → validate_size_and_blocks (pos n) l ≡ ok tt
accepted_complete n [] tiles = accepted_empty n
accepted_complete n (b ∷ l) tiles =
    ground (arith, last_check n b l (pos n) (check_blocks_of_Tiles (b ∷ l) 0 n tiles))

-- A file entry that needs no blocks, or whose blocks tile exactly its bytes.
abbrev pub IsWellFormed : FileInfo → Type 0
IsWellFormed f = (size : ℕ) × (f.size ≡ pos size) × ((f.blocks ≡ []) ⊎ Tiles 0 f.blocks size)

-- A file entry is accepted exactly if its size is not negative and it has no blocks, or its blocks
-- have legal sizes and hashes and follow one another from offset 0 to the file's size, with no gap
-- and no overlap.
pub validate_file_info_iff : (f : FileInfo) → (validate_file_info f ≡ ok tt) ↔ IsWellFormed f
unfolding validate_file_info
validate_file_info_iff f = (accepted_sound f.size f.blocks, complete)
  where
    complete : IsWellFormed f → validate_file_info f ≡ ok tt
    complete (n, sized, inl empty) = rw (sized, empty) (accepted_empty n)
    complete (n, sized, inr tiles) = rw sized (accepted_complete n f.blocks tiles)

-- The blocks of a list that hold the byte at a position.
abbrev pub holds : BlockInfo → ℕ → Bool
holds b i = leb_ℤ b.offset (pos i) && ltb_ℤ (pos i) (b.offset +ℤ b.size)

abbrev pub holders : List BlockInfo → ℕ → ℕ
holders [] i = 0
holders (b ∷ l) i = if holds b i then suc (holders l i) else holders l i

holds-block :
    (start size : ℕ) (b : BlockInfo) (i : ℕ)
    → IsBlockAt start b size
    → holds b i ≡ (leb start i && ltb i (start + size))
unfolding ◌+ℤ◌
holds-block start size b i h = rw (h.at, h.sized) (ground arith)

Tiles-le : (l : List BlockInfo) (start stop : ℕ) → Tiles start l stop → start ≤ stop
Tiles-le [] start stop h = omega arith
Tiles-le (b ∷ l) start stop (size, block, tiles) =
    omega (arith, Tiles-le l (start + size) stop tiles)

holders-Tiles :
    (l : List BlockInfo) (start stop i : ℕ)
    → Tiles start l stop
    → holders l i ≡ (if leb start i && ltb i stop then 1 else 0)
holders-Tiles [] start stop i h = ground arith
holders-Tiles (b ∷ l) start stop i (size, block, tiles) = ground (
  arith,
  holds-block start size b i block,
  Tiles-le l (start + size) stop tiles,
  holders-Tiles l (start + size) stop i tiles,
)

-- In an accepted file with blocks each byte of the file lies in exactly one block, and no block
-- reaches beyond the file's size.
pub accepted_blocks_partition :
    (f : FileInfo)
    → validate_file_info f ≡ ok tt
    → f.blocks ≢ []
    → (size : ℕ) × (f.size ≡ pos size)
      × ((i : ℕ) → holders f.blocks i ≡ (if ltb i size then 1 else 0))
accepted_blocks_partition f h some_block =
    let (size, sized, tiled) = (validate_file_info_iff f).0 h in
    (
      size,
      sized,
      λ i. elim tiled [
        | inl empty ↦ absurd (some_block empty)
        | inr tiles ↦ ground (arith, holders-Tiles f.blocks 0 size i tiles)
      ],
    )
