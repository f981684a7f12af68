-- ===== src/Bep/Conflict/Resolve.antt =====
-- The sample tie-breaking strategy: which of two concurrent versions wins.
use bepository.Prelude.{
  ℕ, ◌≡◌, ◌≢◌, refl, ap, ◌⊎◌, inl, inr, false, arith, ok, err, lex_lt, Option, none, some,
}
use bepository.Prelude.Lex.{lex_lt_asym, lex_lt_total}
use bepository.Bep.Errors.{BepError}
use bepository.Bep.Proto.{Vector, FileInfo}
use bepository.Bep.Conflict.{DeviceId, version_total, sum_values, resolve_conflict, pick_winner}
use bepository.Bep.Conflict.Sort.{sorted_unique_cases}

pick_winner_swap :
    (m n : ℕ) (a b : FileInfo) (p q : DeviceId)
    → p ≢ q
    → pick_winner m n a p b q ≡ pick_winner n m b q a p
unfolding pick_winner
pick_winner_swap m n a b p q h =
    let differ : lex_lt p q ≡ false → lex_lt q p ≡ false → ⊥ = λ l r. h (lex_lt_total p q l r) in
    ground (arith, differ, lex_lt_asym q p, lex_lt_asym p q)

version_total_cases :
    (v : Option Vector)
    → ((n : ℕ) × (version_total v ≡ ok n)) ⊎ (version_total v ≡ err BepError.peer_bad_message)
unfolding version_total
version_total_cases none = inl (0, refl)
version_total_cases (some v) = elim (sorted_unique_cases v) [
  | inl (s, sorted, _, _, _) ↦ inl (sum_values v.counters, rw sorted)
  | inr (failed, _) ↦ inr (rw failed)
]

-- Two devices that resolve the same conflict agree: with the two sides exchanged the same file wins
-- and the same one loses, or both get the same error. The devices must differ.
pub resolve_conflict_symmetric :
    (a b : FileInfo) (p q : DeviceId) → p ≢ q → resolve_conflict a p b q ≡ resolve_conflict b q a p
unfolding resolve_conflict
resolve_conflict_symmetric a b p q h = elim (version_total_cases a.version) [
  | inr ea ↦ elim (version_total_cases b.version) [
    | inr eb ↦ rw (ea, eb)
    | inl (n, eb) ↦ rw (ea, eb)
  ]
  | inl (m, ea) ↦ elim (version_total_cases b.version) [
    | inr eb ↦ rw (ea, eb)
    | inl (n, eb) ↦ rw (ea, eb) (ap ok (pick_winner_swap m n a b p q h))
  ]
]
