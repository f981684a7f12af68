-- ===== src/Bep/Validate.antt =====
-- bepository-bep/src/validate.rs: the checks on a file entry that a peer sent.
pub mod Blocks
use bepository.Prelude.{
  ℕ, ◌*◌, ◌≡◌, Bool, true, false, not, ◌&&◌, Option, none, some, List, [], ◌∷◌, Result, ok, err,
  ◌>>=◌, ◌>>◌, guard, ok_or, if◌then◌else◌, ◌==◌, length, i64_max,
}
use bepository.Prelude.Int.{ℤ, pos, ◌+ℤ◌, leb_ℤ, ltb_ℤ, eq_ℤ}
use bepository.Bep.Errors.{BepError}
use bepository.Bep.Proto.{BlockInfo, FileInfo}

-- 16 MiB
abbrev pub max_block_size : ℕ
max_block_size = 16 * 1024 * 1024

-- `i64::checked_add`, for a second argument that is not negative.
abbrev pub checked_add : ℤ → ℤ → Option ℤ
checked_add a b = let sum = a +ℤ b in if leb_ℤ sum (pos i64_max) then some sum else none

abbrev pub bad_message : BepError
bad_message = BepError.peer_bad_message

-- One round of the loop over the blocks: the next expected offset.
unfoldable pub check_block : ℤ → BlockInfo → Result BepError ℤ
check_block expected_offset block = do
  guard (ltb_ℤ (pos 0) block.size) bad_message
  guard (leb_ℤ block.size (pos max_block_size)) bad_message
  guard (length block.hash == 32) bad_message
  guard (eq_ℤ block.offset expected_offset) bad_message
  ok_or (checked_add expected_offset block.size) bad_message

unfoldable pub check_blocks : ℤ → List BlockInfo → Result BepError ℤ
unfolding check_block
check_blocks expected_offset [] = ok expected_offset
check_blocks expected_offset (block ∷ blocks) =
    check_block expected_offset block >>= λ next. check_blocks next blocks

abbrev is_empty : List BlockInfo → Bool
is_empty [] = true
is_empty (_ ∷ _) = false

-- The whole check, on the two fields that it reads.
unfoldable pub validate_size_and_blocks : ℤ → List BlockInfo → Result BepError (Unit {0})
unfolding check_blocks
validate_size_and_blocks size blocks = do
  guard (not (ltb_ℤ size (pos 0))) bad_message
  expected_offset ← check_blocks (pos 0) blocks
  guard (not (not (is_empty blocks) && not (eq_ℤ expected_offset size))) bad_message

unfoldable pub validate_file_info : FileInfo → Result BepError (Unit {0})
unfolding validate_size_and_blocks
validate_file_info file = validate_size_and_blocks file.size file.blocks
