-- ===== src/Bep/Connection/Ids.antt =====
-- Request ids of bepository-bep/src/connection.rs: the search for a free one, and the table of the
-- requests in flight.
use bepository.Prelude.{
  ℕ, zero, suc, ◌+◌, ◌%◌, ◌≤◌, ◌<◌, ◌≡◌, ◌≢◌, refl, ◌∙◌, arith, true, false, Option, none, some,
  List, [], ◌∷◌, length, ◌==◌, ==_refl, Bool-cases, inl, inr, u32_mod,
}
use bepository.Bep.Connection.{find_id, remove_id, insert_id, contains_id, first_free}

module _ {V : Type 0} where
  contains-remove_self : (id : ℕ) (l : List (ℕ × V)) → contains_id id (remove_id id l) ≡ false
  unfolding contains_id remove_id
  contains-remove_self id [] = refl
  contains-remove_self id ((j, v) ∷ l) = ground (arith, contains-remove_self id l)

  contains-remove_other :
      (id j : ℕ) (l : List (ℕ × V)) → j ≢ id → contains_id j (remove_id id l) ≡ contains_id j l
  unfolding contains_id remove_id
  contains-remove_other id j [] apart = refl
  contains-remove_other id j ((i, v) ∷ l) apart = ground (arith, contains-remove_other id j l apart)

  free-remove :
      (id j : ℕ) (l : List (ℕ × V))
      → contains_id j l ≡ false
      → contains_id j (remove_id id l) ≡ false
  unfolding contains_id remove_id
  free-remove id j [] free = refl
  free-remove id j ((i, v) ∷ l) free = ground (arith, free-remove id j l)

  pub length-remove_le : (id : ℕ) (l : List (ℕ × V)) → length (remove_id id l) ≤ length l
  unfolding remove_id
  length-remove_le id [] = omega arith
  length-remove_le id ((j, v) ∷ l) = ground (arith, length-remove_le id l)

  length-remove_lt :
      (id : ℕ) (l : List (ℕ × V)) → contains_id id l ≡ true → length (remove_id id l) < length l
  unfolding remove_id contains_id
  length-remove_lt id [] h = cc
  length-remove_lt id ((j, v) ∷ l) h = ground (arith, length-remove_lt id l, length-remove_le id l)

  pub find-insert_self :
      (id : ℕ) (v : V) (l : List (ℕ × V)) → find_id id (insert_id id v l) ≡ some v
  unfolding find_id insert_id
  find-insert_self id v l = rw (==_refl id)

  find-remove_other :
      (id j : ℕ) (l : List (ℕ × V)) → j ≢ id → find_id j (remove_id id l) ≡ find_id j l
  unfolding find_id remove_id
  find-remove_other id j [] apart = refl
  find-remove_other id j ((i, v) ∷ l) apart = ground (arith, find-remove_other id j l apart)

  pub find-insert_other :
      (id j : ℕ) (v : V) (l : List (ℕ × V)) → j ≢ id → find_id j (insert_id id v l) ≡ find_id j l
  unfolding find_id insert_id
  find-insert_other id j v l apart = ground (arith, find-remove_other id j l apart)

  -- No two requests in flight share an id.
  abbrev pub IsDistinct : List (ℕ × V) → Type 0
  IsDistinct [] = Unit {0}
  IsDistinct ((j, v) ∷ l) = (contains_id j l ≡ false) × IsDistinct l

  pub remove_id-IsDistinct :
      (id : ℕ) (l : List (ℕ × V)) → IsDistinct l → IsDistinct (remove_id id l)
  unfolding remove_id
  remove_id-IsDistinct id [] d = tt
  remove_id-IsDistinct id ((j, v) ∷ l) (free, d) = elim (Bool-cases (j == id)) [
    | inl same ↦ rw same (remove_id-IsDistinct id l d)
    | inr other ↦ rw other (free-remove id j l free, remove_id-IsDistinct id l d)
  ]

  pub insert_id-IsDistinct :
      (id : ℕ) (v : V) (l : List (ℕ × V)) → IsDistinct l → IsDistinct (insert_id id v l)
  unfolding insert_id
  insert_id-IsDistinct id v l d = (contains-remove_self id l, remove_id-IsDistinct id l d)

  -- `n` ids from `id` on are all in flight.
  abbrev AllTaken : List (ℕ × V) → (n id : ℕ) → Type 0
  AllTaken l zero id = Unit {0}
  AllTaken l (suc n) id = (contains_id id l ≡ true) × AllTaken l n ((id + 1) % u32_mod)

  AllTaken-remove :
      (l : List (ℕ × V)) (n id d : ℕ)
      → id < u32_mod
      → 1 ≤ d
      → d + n ≤ u32_mod
      → AllTaken l n ((id + d) % u32_mod)
      → AllTaken (remove_id id l) n ((id + d) % u32_mod)
  AllTaken-remove l zero id d bound pos_d fits taken = tt
  AllTaken-remove l (suc n) id d bound pos_d fits (here, rest) =
      let shift : (((id + d) % u32_mod + 1) % u32_mod) ≡ (id + (d + 1)) % u32_mod = omega arith in
      let apart : ((id + d) % u32_mod) ≢ id = λ same. omega arith in
      (
        contains-remove_other id ((id + d) % u32_mod) l apart ∙ here,
        rw shift
            (AllTaken-remove l n id (d + 1) bound (omega arith) (omega arith) (rw shift at rest)),
      )

  length-le-taken :
      (n : ℕ) (l : List (ℕ × V)) (id : ℕ)
      → id < u32_mod
      → n ≤ u32_mod
      → AllTaken l n id
      → n ≤ length l
  length-le-taken zero l id bound fits taken = omega arith
  length-le-taken (suc n) l id bound fits (here, rest) = omega (
    arith,
    length-remove_lt id l here,
    length-le-taken n (remove_id id l) ((id + 1) % u32_mod) (omega arith) (omega arith)
        (AllTaken-remove l n id 1 bound (omega arith) (omega arith) rest),
  )

  first_free-eq-none :
      (l : List (ℕ × V)) (fuel id : ℕ) → first_free l fuel id ≡ none → AllTaken l fuel id
  unfolding first_free
  first_free-eq-none l zero id h = tt
  first_free-eq-none l (suc fuel) id h = elim (Bool-cases (contains_id id l)) [
    | inl taken ↦ (taken, first_free-eq-none l fuel ((id + 1) % u32_mod) (rw taken at h))
    | inr free ↦ cc (rw free at h)
  ]

  -- What the search finds is free.
  pub first_free-IsFree :
      (l : List (ℕ × V)) (fuel id j : ℕ) → first_free l fuel id ≡ some j → contains_id j l ≡ false
  unfolding first_free
  first_free-IsFree l zero id j h = cc
  first_free-IsFree l (suc fuel) id j h =
      ground (arith, first_free-IsFree l fuel ((id + 1) % u32_mod) j)

  -- The search ends: with fewer requests in flight than there are ids, one round more than there
  -- are requests finds a free id.
  pub first_free_total :
      (l : List (ℕ × V)) (id : ℕ)
      → id < u32_mod
      → length l < u32_mod
      → (j : ℕ) × (first_free l (length l + 1) id ≡ some j) × (contains_id j l ≡ false)
  first_free_total l id bound few = found (first_free l (length l + 1) id) refl
    where
      found :
          (o : Option ℕ)
          → first_free l (length l + 1) id ≡ o
          → (j : ℕ) × (first_free l (length l + 1) id ≡ some j) × (contains_id j l ≡ false)
      found none e = absurd (
          omega (
            arith,
            length-le-taken (length l + 1) l id bound (omega arith)
                (first_free-eq-none l (length l + 1) id e),
          ))
      found (some j) e = (j, e, first_free-IsFree l (length l + 1) id j e)
