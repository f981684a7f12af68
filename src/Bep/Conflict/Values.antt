-- ===== src/Bep/Conflict/Values.antt =====
-- A version vector as a function from counter ids to values, 0 where there is no counter.
use bepository.Prelude.{ℕ, suc, ◌≤◌, ◌<◌, ◌≡◌, refl, List, [], ◌∷◌, arith, ◌==◌, if◌then◌else◌}
use bepository.Bep.Proto.{Counter}

abbrev pub value : List Counter → ℕ → ℕ
value [] id = 0
value (c ∷ l) id = if c.id == id then c.value else value l id

-- How often an id occurs.
abbrev pub count : ℕ → List Counter → ℕ
count id [] = 0
count id (c ∷ l) = if c.id == id then suc (count id l) else count id l

abbrev pub HasNoRepeat : List Counter → Type 0
HasNoRepeat l = (id : ℕ) → count id l ≤ 1

-- Ids strictly ascending, the first one at least `lo`.
abbrev pub IsAscending : ℕ → List Counter → Type 0
IsAscending lo [] = Unit
IsAscending lo (c ∷ l) = (lo ≤ c.id) × IsAscending (suc c.id) l

pub value_below : (l : List Counter) (lo id : ℕ) → IsAscending lo l → id < lo → value l id ≡ 0
value_below [] lo id h k = refl
value_below (c ∷ l) lo id h k = ground (arith, value_below l (suc c.id) id h.1 (omega arith))
