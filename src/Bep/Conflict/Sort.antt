-- ===== src/Bep/Conflict/Sort.antt =====
-- What `sorted_unique` returns: the same counters, ascending, or an error where an id repeats.
use bepository.Prelude.{
  ℕ, suc, ◌≤◌, ◌<◌, ◌≡◌, refl, ◌⊎◌, inl, inr, true, false, List, [], ◌∷◌, arith, ◌==◌,
  if◌then◌else◌, ok, err, Bool-cases,
}
use bepository.Bep.Errors.{BepError}
use bepository.Bep.Proto.{Counter, Vector}
use bepository.Bep.Conflict.{insert_counter, sort_counters, has_repeat, sorted_unique}
use bepository.Bep.Conflict.Values.{value, count, HasNoRepeat, IsAscending}

value-insert_counter :
    (c : Counter) (l : List Counter) (id : ℕ)
    → value (insert_counter c l) id ≡ (if c.id == id then c.value else value l id)
unfolding insert_counter
value-insert_counter c [] id = refl
value-insert_counter c (d ∷ l) id = ground (arith, value-insert_counter c l id)

pub value-sort_counters : (l : List Counter) (id : ℕ) → value (sort_counters l) id ≡ value l id
unfolding sort_counters
value-sort_counters [] id = refl
value-sort_counters (c ∷ l) id =
    ground (arith, value-insert_counter c (sort_counters l) id, value-sort_counters l id)

count-insert_counter :
    (id : ℕ) (c : Counter) (l : List Counter)
    → count id (insert_counter c l) ≡ (if c.id == id then suc (count id l) else count id l)
unfolding insert_counter
count-insert_counter id c [] = refl
count-insert_counter id c (d ∷ l) = ground (arith, count-insert_counter id c l)

count-sort_counters : (id : ℕ) (l : List Counter) → count id (sort_counters l) ≡ count id l
unfolding sort_counters
count-sort_counters id [] = refl
count-sort_counters id (c ∷ l) =
    ground (arith, count-insert_counter id c (sort_counters l), count-sort_counters id l)

-- Ids ascending, with repeats.
abbrev IsSorted : ℕ → List Counter → Type 0
IsSorted lo [] = Unit
IsSorted lo (c ∷ l) = (lo ≤ c.id) × IsSorted c.id l

insert_counter-IsSorted :
    (c : Counter) (l : List Counter) (lo : ℕ)
    → lo ≤ c.id
    → IsSorted lo l
    → IsSorted lo (insert_counter c l)
unfolding insert_counter
insert_counter-IsSorted c [] lo h s = (h, tt)
insert_counter-IsSorted c (d ∷ l) lo h s = ground (arith, insert_counter-IsSorted c l d.id)

sort_counters-IsSorted : (l : List Counter) → IsSorted 0 (sort_counters l)
unfolding sort_counters
sort_counters-IsSorted [] = tt
sort_counters-IsSorted (c ∷ l) =
    insert_counter-IsSorted c (sort_counters l) 0 (omega arith) (sort_counters-IsSorted l)

IsAscending-of_sorted :
    (l : List Counter) (lo : ℕ) → IsSorted lo l → has_repeat l ≡ false → IsAscending lo l
unfolding has_repeat
IsAscending-of_sorted [] lo s h = tt
IsAscending-of_sorted (c ∷ []) lo s h = (s.0, tt)
IsAscending-of_sorted (c ∷ d ∷ l) lo s h = ground (arith, IsAscending-of_sorted (d ∷ l) (suc c.id))

count_below : (l : List Counter) (lo id : ℕ) → IsAscending lo l → id < lo → count id l ≡ 0
count_below [] lo id h k = refl
count_below (c ∷ l) lo id h k = ground (arith, count_below l (suc c.id) id h.1 (omega arith))

count_ascending : (l : List Counter) (lo id : ℕ) → IsAscending lo l → count id l ≤ 1
count_ascending [] lo id h = omega arith
count_ascending (c ∷ l) lo id h =
    ground (arith, count_ascending l (suc c.id) id h.1, count_below l (suc c.id) id h.1)

repeat_of_has_repeat : (l : List Counter) → has_repeat l ≡ true → (id : ℕ) × (2 ≤ count id l)
unfolding has_repeat
repeat_of_has_repeat [] h = cc
repeat_of_has_repeat (c ∷ []) h = cc
repeat_of_has_repeat (c ∷ d ∷ l) h = elim (Bool-cases (c.id == d.id)) [
  | inl same ↦ (c.id, ground arith)
  | inr differ ↦ let (id, twice) = repeat_of_has_repeat (d ∷ l) (ground arith) in (id, ground arith)
]

-- The two results, and what tells them apart.
pub sorted_unique_cases :
    (v : Vector)
    → ((s : List Counter) × (sorted_unique v ≡ ok s)
        × IsAscending 0 s
        × HasNoRepeat v.counters
        × ((id : ℕ) → value s id ≡ value v.counters id))
      ⊎ ((sorted_unique v ≡ err BepError.peer_bad_message) × ((id : ℕ) × (2 ≤ count id v.counters)))
sorted_unique_cases v = elim (Bool-cases (has_repeat (sort_counters v.counters))) [
  | inl repeats ↦
      let (id, twice) = repeat_of_has_repeat (sort_counters v.counters) repeats in
      inr (
        unfold sorted_unique in (rw repeats),
        (id, omega (arith, count-sort_counters id v.counters)),
      )
  | inr unique ↦
      let s : List Counter = sort_counters v.counters in
      let ascends = IsAscending-of_sorted s 0 (sort_counters-IsSorted v.counters) unique in
      inl (
        s,
        unfold sorted_unique in (rw unique),
        ascends,
        λ id. omega (arith, count_ascending s 0 id ascends, count-sort_counters id v.counters),
        value-sort_counters v.counters,
      )
]
