-- ===== src/Bep/Conflict/Merge.antt =====
-- The two flags of the comparison loop, each on its own.
use Prim.Native.Nat.{compare}
use Prim.Native.Nat.Ordering.{lt, eq, gt}
use bepository.Prelude.{
  ℕ, suc, ◌<◌, ◌≡◌, inl, inr, Bool, true, false, ◌||◌, List, [], ◌∷◌, arith, ltb, ◌==◌,
  if◌then◌else◌, Bool-cases,
}
use bepository.Bep.Proto.{Counter}
use bepository.Bep.Conflict.{any_positive, merge}
use bepository.Bep.Conflict.Values.{value, IsAscending, value_below}

-- Does some counter of the first list exceed that of the second?
pub exceeds : List Counter → List Counter → Bool
exceeds [] ys = false
exceeds (a ∷ xs) [] = ltb 0 a.value || exceeds xs []
exceeds (a ∷ xs) (b ∷ ys) = elim (compare a.id b.id) [
  | eq ↦ ltb b.value a.value || exceeds xs ys
  | lt ↦ ltb 0 a.value || exceeds xs (b ∷ ys)
  | gt ↦ exceeds (a ∷ xs) ys
]

any_positive-eq-exceeds :
    (l : List Counter) (flag : Bool) → any_positive l flag ≡ (flag || exceeds l [])
unfolding any_positive exceeds
any_positive-eq-exceeds [] flag = ground arith
any_positive-eq-exceeds (c ∷ l) flag =
    ground (arith, any_positive-eq-exceeds l (if ltb 0 c.value then true else flag))

-- What the loop returns, with the flags that it started from.
abbrev IsMerged : List Counter → List Counter → Bool → Bool → Type 0
IsMerged xs ys a_dom b_dom =
    merge xs ys a_dom b_dom ≡ (a_dom || exceeds xs ys, b_dom || exceeds ys xs)

merge_step :
    (a b : Counter) (xs ys : List Counter) (a_dom b_dom : Bool)
    → ((p q : Bool) → IsMerged xs ys p q)
    → ((p q : Bool) → IsMerged xs (b ∷ ys) p q)
    → ((p q : Bool) → IsMerged (a ∷ xs) ys p q)
    → IsMerged (a ∷ xs) (b ∷ ys) a_dom b_dom
unfolding merge exceeds
merge_step a b xs ys a_dom b_dom both left right = ground (
  arith,
  both (if ltb b.value a.value then true else a_dom) (if ltb a.value b.value then true else b_dom),
  left (if ltb 0 a.value then true else a_dom) b_dom,
  right a_dom (if ltb 0 b.value then true else b_dom),
)

merge_left : (ys : List Counter) (a_dom b_dom : Bool) → IsMerged [] ys a_dom b_dom
unfolding merge exceeds
merge_left [] a_dom b_dom = ground (arith, any_positive-eq-exceeds [] b_dom)
merge_left (y ∷ ys) a_dom b_dom = ground (arith, any_positive-eq-exceeds (y ∷ ys) b_dom)

merge_right :
    (a : Counter) (xs : List Counter) (a_dom b_dom : Bool) → IsMerged (a ∷ xs) [] a_dom b_dom
unfolding merge exceeds
merge_right a xs a_dom b_dom = ground (arith, any_positive-eq-exceeds (a ∷ xs) a_dom)

pub merge-eq-exceeds : (xs ys : List Counter) (a_dom b_dom : Bool) → IsMerged xs ys a_dom b_dom
merge-eq-exceeds [] ys a_dom b_dom = merge_left ys a_dom b_dom
merge-eq-exceeds (a ∷ xs) [] a_dom b_dom = merge_right a xs a_dom b_dom
merge-eq-exceeds (a ∷ xs) (b ∷ ys) a_dom b_dom =
    merge_step a b xs ys a_dom b_dom (merge-eq-exceeds xs ys) (merge-eq-exceeds xs (b ∷ ys))
      (merge-eq-exceeds (a ∷ xs) ys)

-- Some id has a larger value on the left.
abbrev pub HasExcess : List Counter → List Counter → Type 0
HasExcess xs ys = (id : ℕ) × (value ys id < value xs id)

-- On ascending lists the flag is what it should be.
complete_step :
    (a b : Counter) (xs ys : List Counter) (lo mo id : ℕ)
    → IsAscending lo (a ∷ xs)
    → IsAscending mo (b ∷ ys)
    → (value ys id < value xs id → exceeds xs ys ≡ true)
    → (value (b ∷ ys) id < value xs id → exceeds xs (b ∷ ys) ≡ true)
    → (value ys id < value (a ∷ xs) id → exceeds (a ∷ xs) ys ≡ true)
    → value (b ∷ ys) id < value (a ∷ xs) id
    → exceeds (a ∷ xs) (b ∷ ys) ≡ true
unfolding exceeds
complete_step a b xs ys lo mo id h k both left right l =
    ground
      (arith, both, left, right, value_below xs (suc a.id) id h.1, value_below ys (suc b.id) id k.1)

complete_last :
    (a : Counter) (xs : List Counter) (id : ℕ)
    → (0 < value xs id → exceeds xs [] ≡ true)
    → 0 < value (a ∷ xs) id
    → exceeds (a ∷ xs) [] ≡ true
unfolding exceeds
complete_last a xs id rest l = ground (arith, rest)

pub exceeds_complete :
    (xs ys : List Counter) (lo mo id : ℕ)
    → IsAscending lo xs
    → IsAscending mo ys
    → value ys id < value xs id
    → exceeds xs ys ≡ true
exceeds_complete [] ys lo mo id h k l = absurd (omega arith)
exceeds_complete (a ∷ xs) [] lo mo id h k l =
    complete_last a xs id (exceeds_complete xs [] (suc a.id) mo id h.1 tt) l
exceeds_complete (a ∷ xs) (b ∷ ys) lo mo id h k l =
    complete_step a b xs ys lo mo id h k (exceeds_complete xs ys (suc a.id) (suc b.id) id h.1 k.1)
      (exceeds_complete xs (b ∷ ys) (suc a.id) mo id h.1 k)
      (exceeds_complete (a ∷ xs) ys lo (suc b.id) id h k.1) l

-- An excess further on stays one when the heads are put back.
excess_tails :
    (a b : Counter) (xs ys : List Counter)
    → IsAscending (suc a.id) xs
    → a.id ≡ b.id
    → HasExcess xs ys
    → HasExcess (a ∷ xs) (b ∷ ys)
excess_tails a b xs ys h same (id, more) = (id, ground (arith, value_below xs (suc a.id) id h))

excess_left :
    (a : Counter) (xs ys : List Counter)
    → IsAscending (suc a.id) xs
    → HasExcess xs ys
    → HasExcess (a ∷ xs) ys
excess_left a xs ys h (id, more) = (id, ground (arith, value_below xs (suc a.id) id h))

excess_right :
    (a b : Counter) (xs ys : List Counter)
    → IsAscending (suc a.id) xs
    → b.id < a.id
    → HasExcess (a ∷ xs) ys
    → HasExcess (a ∷ xs) (b ∷ ys)
excess_right a b xs ys h less (id, more) = (id, ground (arith, value_below xs (suc a.id) id h))

sound_last :
    (a : Counter) (xs : List Counter)
    → IsAscending (suc a.id) xs
    → (exceeds xs [] ≡ true → HasExcess xs [])
    → exceeds (a ∷ xs) [] ≡ true
    → HasExcess (a ∷ xs) []
unfolding exceeds
sound_last a xs h rest e = elim (Bool-cases (ltb 0 a.value)) [
  | inl positive ↦ (a.id, ground arith)
  | inr zero_here ↦ excess_left a xs [] h (rest (ground arith))
]

sound_step :
    (a b : Counter) (xs ys : List Counter)
    → IsAscending (suc a.id) xs
    → IsAscending (suc b.id) ys
    → (exceeds xs ys ≡ true → HasExcess xs ys)
    → (exceeds xs (b ∷ ys) ≡ true → HasExcess xs (b ∷ ys))
    → (exceeds (a ∷ xs) ys ≡ true → HasExcess (a ∷ xs) ys)
    → exceeds (a ∷ xs) (b ∷ ys) ≡ true
    → HasExcess (a ∷ xs) (b ∷ ys)
unfolding exceeds
sound_step a b xs ys h k both left right e = elim (Bool-cases (ltb b.id a.id)) [
  | inl after ↦ excess_right a b xs ys h (ground arith) (right (ground arith))
  | inr not_after ↦ elim (Bool-cases (a.id == b.id)) [
    | inl same ↦ elim (Bool-cases (ltb b.value a.value)) [
      | inl larger ↦ (a.id, ground arith)
      | inr not_larger ↦ excess_tails a b xs ys h (ground arith) (both (ground arith))
    ]
    | inr differ ↦ elim (Bool-cases (ltb 0 a.value)) [
      | inl positive ↦ (a.id, ground (arith, value_below ys (suc b.id) a.id k))
      | inr zero_here ↦ excess_left a xs (b ∷ ys) h (left (ground arith))
    ]
  ]
]

pub exceeds_sound :
    (xs ys : List Counter) (lo mo : ℕ)
    → IsAscending lo xs
    → IsAscending mo ys
    → exceeds xs ys ≡ true
    → HasExcess xs ys
exceeds_sound [] ys lo mo h k e = unfold exceeds in (cc)
exceeds_sound (a ∷ xs) [] lo mo h k e =
    sound_last a xs h.1 (exceeds_sound xs [] (suc a.id) mo h.1 tt) e
exceeds_sound (a ∷ xs) (b ∷ ys) lo mo h k e =
    sound_step a b xs ys h.1 k.1 (exceeds_sound xs ys (suc a.id) (suc b.id) h.1 k.1)
      (exceeds_sound xs (b ∷ ys) (suc a.id) mo h.1 k)
      (exceeds_sound (a ∷ xs) ys lo (suc b.id) h k.1) e
