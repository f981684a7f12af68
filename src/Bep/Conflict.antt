-- ===== src/Bep/Conflict.antt =====
-- bepository-bep/src/conflict.rs: version vectors, their comparison, and the resolution of
-- concurrent edits.
pub mod Values
mod Sort
mod Merge
pub mod Compare
pub mod Resolve
use Prim.Native.Nat.{compare}
use Prim.Native.Nat.Ordering.{lt, eq, gt}
use bepository.Prelude.{
  ℕ, ◌+◌, ◌%◌, Bytes, Bool, true, false, not, Option, none, some, List, [], ◌∷◌, ◌++◌, codes,
  Result, ok, err, ◌>>=◌, ltb, leb, ◌==◌, if◌then◌else◌, u64_mod, lex_lt, ne_bool,
}
use bepository.Bep.Errors.{BepError}
use bepository.Bep.Proto.{Counter, Vector, FileInfo}

-- `sort_by_key(|c| c.id)`, which is stable: an insertion sort.
unfoldable pub insert_counter : Counter → List Counter → List Counter
insert_counter c [] = c ∷ []
insert_counter c (d ∷ l) = if leb c.id d.id then c ∷ d ∷ l else d ∷ insert_counter c l

unfoldable pub sort_counters : List Counter → List Counter
sort_counters [] = []
sort_counters (c ∷ l) = insert_counter c (sort_counters l)

-- `windows(2)`: two neighbours with one id.
unfoldable pub has_repeat : List Counter → Bool
has_repeat [] = false
has_repeat (c ∷ []) = false
has_repeat (c ∷ d ∷ l) = let rest = has_repeat (d ∷ l) in if c.id == d.id then true else rest

unfoldable pub sorted_unique : Vector → Result BepError (List Counter)
sorted_unique v =
    let sorted = sort_counters v.counters in
    if has_repeat sorted then err BepError.peer_bad_message else ok sorted

pub data Ordering : Type 0 where
  greater less equal concurrent : Ordering

-- The rest of one list: a counter that the other side lacks counts if it is not zero.
unfoldable pub any_positive : List Counter → Bool → Bool
any_positive [] flag = flag
any_positive (c ∷ l) flag = any_positive l (if ltb 0 c.value then true else flag)

-- The `while` loop over both lists and the two loops after it, on `(a_dominated, b_dominated)`.
unfoldable pub merge : List Counter → List Counter → Bool → Bool → Bool × Bool
unfolding any_positive
merge [] ys a_dom b_dom = (a_dom, any_positive ys b_dom)
merge (a ∷ xs) [] a_dom b_dom = (any_positive (a ∷ xs) a_dom, b_dom)
merge (a ∷ xs) (b ∷ ys) a_dom b_dom = elim (compare a.id b.id) [
  | eq ↦
      merge xs ys (if ltb b.value a.value then true else a_dom)
        (if ltb a.value b.value then true else b_dom)
  | lt ↦ merge xs (b ∷ ys) (if ltb 0 a.value then true else a_dom) b_dom
  | gt ↦ merge (a ∷ xs) ys a_dom (if ltb 0 b.value then true else b_dom)
]

unfoldable pub verdict : Bool × Bool → Ordering
verdict (false, false) = equal
verdict (true, false) = greater
verdict (false, true) = less
verdict (true, true) = concurrent

unfoldable pub compare_vectors : Vector → Vector → Result BepError Ordering
unfolding sorted_unique verdict
compare_vectors a b = do
  a_sorted ← sorted_unique a
  b_sorted ← sorted_unique b
  ok (verdict (merge a_sorted b_sorted false false))

-- A sum of `u64` values, which wraps around where overflow is not checked.
unfoldable pub sum_values : List Counter → ℕ
sum_values [] = 0
sum_values (c ∷ l) = (c.value + sum_values l) % u64_mod

unfoldable pub total : Vector → Result BepError ℕ
unfolding sorted_unique sum_values
total v = sorted_unique v >>= λ _. ok (sum_values v.counters)

-- `version.as_ref().map(total).transpose()?.unwrap_or(0)`
unfoldable pub version_total : Option Vector → Result BepError ℕ
unfolding total
version_total none = ok 0
version_total (some v) = total v

abbrev pub DeviceId : Type 0
DeviceId = Bytes

-- The three rules, given the totals: (winner, loser).
unfoldable pub pick_winner : ℕ → ℕ → FileInfo → DeviceId → FileInfo → DeviceId → FileInfo × FileInfo
pick_winner a_total b_total a a_device b b_device =
    if not (a_total == b_total)
    then (if ltb b_total a_total then (a, b) else (b, a))
    else if ne_bool a.deleted b.deleted
    then (if not a.deleted then (a, b) else (b, a))
    else if lex_lt b_device a_device
    then (a, b)
    else (b, a)

unfoldable pub resolve_conflict :
    FileInfo → DeviceId → FileInfo → DeviceId → Result BepError (FileInfo × FileInfo)
unfolding version_total pick_winner
resolve_conflict a a_device b b_device = do
  a_total ← version_total a.version
  b_total ← version_total b.version
  ok (pick_winner a_total b_total a a_device b b_device)

pub record ConflictResolution : Type 0 where
  pub winner : FileInfo
  pub loser : FileInfo
  pub loser_path : Option Bytes

-- `BackupResolver`
pub backup_resolve : FileInfo → DeviceId → FileInfo → DeviceId → Result BepError ConflictResolution
unfolding resolve_conflict
backup_resolve local local_device remote remote_device = do
  (winner, loser) ← resolve_conflict local local_device remote remote_device
  ok (record {
    winner = winner;
    loser = loser;
    loser_path = some (loser.name ++ codes ".sync-conflict");
  })

-- `TheirsResolver` of bepository-cli/src/main.rs
pub theirs_resolve : FileInfo → DeviceId → FileInfo → DeviceId → Result BepError ConflictResolution
theirs_resolve local _ remote _ = ok (record { winner = remote; loser = local; loser_path = none })
