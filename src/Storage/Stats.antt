-- ===== src/Storage/Stats.antt =====
-- bepository-storage/src/stats.rs: what a compaction counts.
pub mod Buckets
use bepository.Prelude.{
  ℕ, zero, suc, ◌+◌, ◌-◌, ◌/◌, ◌%◌, ◌^◌, Bytes, Bool, true, false, not, ◌&&◌, List, [], ◌∷◌, length,
  ltb, leb, ◌==◌, if◌then◌else◌, bytes_eq, u64_mod,
}

-- A row's value as the database hands it to the filter.
pub data ValueDeletable : Type 0 where
  value : Bytes → ValueDeletable
  merge : Bytes → ValueDeletable
  tombstone : ValueDeletable

pub record RowEntry : Type 0 where
  pub key : Bytes
  pub value : ValueDeletable

-- `n += 1` on a `u64`
abbrev pub bump : ℕ → ℕ
bump n = (n + 1) % u64_mod

abbrev pub saturating_add : ℕ → ℕ → ℕ
saturating_add a b = if ltb (a + b) u64_mod then a + b else u64_mod - 1

-- The length of a number in bits, 64 - `leading_zeros()`.
unfoldable pub bit_length : ℕ → ℕ → ℕ
bit_length zero n = 0
bit_length (suc rounds) n = let rest = bit_length rounds (n / 2) in if n == 0 then 0 else suc rest

-- `-` on a `usize` of 64 bits: below 0 it wraps around, as without overflow checks.
abbrev pub usize_sub : ℕ → ℕ → ℕ
usize_sub a b = if leb b a then a - b else a + u64_mod - b

unfoldable pub bytes_bucket_index : ℕ → ℕ
bytes_bucket_index len =
    if ltb len 16
    then 0
    else if leb (2 ^ 27) len
    then 13
    else let bit = usize_sub 63 (64 - bit_length 64 len) in usize_sub bit 4 / 2 + 1

pub record PrefixStats : Type 0 where
  pub seen : ℕ
  pub tombstones_seen : ℕ
  pub dropped : ℕ
  pub bytes_total : ℕ
  pub bytes_max : ℕ
  pub bytes_hist : List ℕ

abbrev pub no_prefix_stats : PrefixStats
no_prefix_stats = record {
  seen = 0;
  tombstones_seen = 0;
  dropped = 0;
  bytes_total = 0;
  bytes_max = 0;
  bytes_hist = 0 ∷ 0 ∷ 0 ∷ 0 ∷ 0 ∷ 0 ∷ 0 ∷ 0 ∷ 0 ∷ 0 ∷ 0 ∷ 0 ∷ 0 ∷ 0 ∷ [];
}

-- `hist[i] += 1`; an index out of range, which is a panic, changes nothing here.
abbrev pub bump_at : ℕ → List ℕ → List ℕ
bump_at i [] = []
bump_at zero (n ∷ l) = bump n ∷ l
bump_at (suc i) (n ∷ l) = n ∷ bump_at i l

abbrev pub value_len : ValueDeletable → ℕ
value_len (value b) = length b
value_len (merge b) = length b
value_len tombstone = 0

abbrev pub is_tombstone : ValueDeletable → Bool
is_tombstone (value b) = false
is_tombstone (merge b) = false
is_tombstone tombstone = true

pub see_row : PrefixStats → RowEntry → PrefixStats
unfolding bytes_bucket_index
see_row s entry =
    let len = value_len entry.value in
    record {
      seen = bump s.seen;
      tombstones_seen =
          if is_tombstone entry.value then bump s.tombstones_seen else s.tombstones_seen;
      dropped = s.dropped;
      bytes_total = saturating_add s.bytes_total len;
      bytes_max = if ltb s.bytes_max len then len else s.bytes_max;
      bytes_hist = bump_at (bytes_bucket_index len) s.bytes_hist;
    }

abbrev pub see_drop : PrefixStats → PrefixStats
see_drop s = record s { dropped = bump s.dropped }

abbrev pub prefix_for : Bytes → Bytes
prefix_for [] = 0 ∷ 0 ∷ []
prefix_for (a ∷ []) = a ∷ 0 ∷ []
prefix_for (a ∷ b ∷ key) = a ∷ b ∷ []

-- `entry(prefix).or_default()` of the map from prefixes, followed by a change of what is there.
pub update_prefix :
    Bytes → (PrefixStats → PrefixStats) → List (Bytes × PrefixStats) → List (Bytes × PrefixStats)
update_prefix p f [] = (p, f no_prefix_stats) ∷ []
update_prefix p f ((q, s) ∷ l) =
    let rest = update_prefix p f l in if bytes_eq p q then (q, f s) ∷ l else (q, s) ∷ rest

pub record FilterStats : Type 0 where
  pub blocks_dropped : ℕ
  pub blocks_kept : ℕ
  pub refs_dropped : ℕ
  pub refs_kept : ℕ
  pub reverse_refs_tombstoned : ℕ
  pub reverse_refs_kept : ℕ
  pub inbox_tombstoned : ℕ
  pub inbox_kept : ℕ
  pub seqs_pruned : ℕ
  pub seqs_kept : ℕ
  pub tombstones_pruned : ℕ
  pub files_kept : ℕ
  pub metadata_kept : ℕ
  pub kept : ℕ
  pub prefix_stats : List (Bytes × PrefixStats)

unfoldable pub record_seen : FilterStats → Bytes → RowEntry → FilterStats
unfolding update_prefix see_row
record_seen s key entry = record s {
  prefix_stats = update_prefix (prefix_for key) (λ p. see_row p entry) s.prefix_stats;
}

unfoldable pub record_dropped : FilterStats → Bytes → FilterStats
unfolding update_prefix
record_dropped s key = record s {
  prefix_stats = update_prefix (prefix_for key) see_drop s.prefix_stats;
}
