-- ===== src/Storage/Keys/Split.antt =====
-- Splitting a name at its last slash, and the key part `<dir>//<basename>` back into the name.
use bepository.Prelude.{
  ◌≡◌, refl, sym, ap, ◌⊎◌, inl, inr, true, false, none, some, [], ◌∷◌, ◌++◌, Bytes, codes, arith,
  ◌==◌, starts_with, Bool-cases, ==_iff,
}
use bepository.Prelude.Utf8.{is_utf8, from_utf8, is_utf8-slash, is_utf8-nil}
use bepository.Storage.Keys.{
  slash, rsplit_slash, rsplit_slashes, tail_after, split_name, join_name, dir_and_base,
  parse_dir_and_base,
}

-- A file name as the folder stores it: UTF-8 text, and not an absolute path.
pub record IsName (name : Bytes) : Type 0 where
  pub utf8 : is_utf8 name ≡ true
  pub relative : starts_with (codes "/") name ≡ false

rsplit_slash-none : (s : Bytes) → rsplit_slash s ≡ none → rsplit_slashes s ≡ none
unfolding rsplit_slash rsplit_slashes
rsplit_slash-none [] h = refl
rsplit_slash-none (x ∷ []) h = refl
rsplit_slash-none (x ∷ y ∷ s) h = ground (arith, rsplit_slash-none (y ∷ s))

-- The last slash, if there is one.
pub rsplit_slash_cases :
    (s : Bytes)
    → (rsplit_slash s ≡ none)
      ⊎ ((d : Bytes) × (b : Bytes) × (rsplit_slash s ≡ some (d, b))
          × (s ≡ d ++ slash ∷ b)
          × (rsplit_slash b ≡ none))
unfolding rsplit_slash
rsplit_slash_cases [] = inl refl
rsplit_slash_cases (x ∷ s) = go (rsplit_slash_cases s)
  where
    go :
        (rsplit_slash s ≡ none)
          ⊎ ((d : Bytes) × (b : Bytes) × (rsplit_slash s ≡ some (d, b))
              × (s ≡ d ++ slash ∷ b)
              × (rsplit_slash b ≡ none))
        → (rsplit_slash (x ∷ s) ≡ none)
          ⊎ ((d : Bytes) × (b : Bytes) × (rsplit_slash (x ∷ s) ≡ some (d, b))
              × (x ∷ s ≡ d ++ slash ∷ b)
              × (rsplit_slash b ≡ none))
    go (inr (d, b, split, whole, clean)) = inr (x ∷ d, b, rw split, ap (λ l. x ∷ l) whole, clean)
    go (inl clean) = elim (Bool-cases (x == slash)) [
      | inl found ↦
          inr ([], s, rw (clean, found), ap (λ c. c ∷ s) ((==_iff x slash).0 found), clean)
      | inr other ↦ inl (rw (clean, other))
    ]

-- Without a slash no two stand together, also behind one more.
tail_after_clean : (b : Bytes) → rsplit_slash b ≡ none → tail_after slash b ≡ none
unfolding rsplit_slash
tail_after_clean [] h = refl
tail_after_clean (y ∷ s) h = ground arith

pub rsplit_slashes-append :
    (d b : Bytes) → rsplit_slash b ≡ none → rsplit_slashes (d ++ slash ∷ slash ∷ b) ≡ some (d, b)
unfolding rsplit_slashes
rsplit_slashes-append [] b h = rw (rsplit_slash-none b h, tail_after_clean b h)
rsplit_slashes-append (x ∷ d) b h = rw (rsplit_slashes-append d b h)

-- A name's two parts: a basename with no slash, behind a directory and a slash unless the name has
-- no slash at all.
pub record IsParted (name d b : Bytes) : Type 0 where
  pub split : split_name name ≡ (d, b)
  pub clean : rsplit_slash b ≡ none
  pub whole : ((d ≡ []) × (name ≡ b)) ⊎ (name ≡ d ++ slash ∷ b)

pub split_name-IsParted : (name : Bytes) → (d : Bytes) × (b : Bytes) × IsParted name d b
unfolding split_name
split_name-IsParted name = elim (rsplit_slash_cases name) [
  | inl clean ↦
      ([], name, record { split = rw (clean, split_name); clean = clean; whole = inl (refl, refl) })
  | inr (d, b, split, whole, clean) ↦
      (d, b, record { split = rw (split, split_name); clean = clean; whole = inr whole })
]

parts_are_utf8 :
    (name d b : Bytes)
    → IsParted name d b
    → is_utf8 name ≡ true
    → (is_utf8 d ≡ true) × (is_utf8 b ≡ true)
parts_are_utf8 name d b s h = elim s.whole [
  | inl (empty, same) ↦ (rw empty (unfold is_utf8 in refl), rw same at h)
  | inr whole ↦
      let both = rw (whole, is_utf8-slash d b) at h in (ground (arith, both), ground (arith, both))
]

join_name-split_name :
    (name d b : Bytes)
    → IsParted name d b
    → starts_with (codes "/") name ≡ false
    → join_name d b ≡ name
unfolding join_name
join_name-split_name name [] b s h = elim s.whole [
  | inl (empty, same) ↦ sym same
  | inr whole ↦ absurd (ground (arith, rw whole at h))
]
join_name-split_name name (x ∷ d) b s h = elim s.whole [
  | inl (empty, same) ↦ absurd (cc)
  | inr whole ↦ sym whole
]

pub dir_and_base-is_utf8 :
    (name d b : Bytes)
    → IsParted name d b
    → is_utf8 name ≡ true
    → is_utf8 (d ++ slash ∷ slash ∷ b) ≡ true
dir_and_base-is_utf8 name d b s h =
    let (ud, ub) = parts_are_utf8 name d b s h in
    rw (is_utf8-slash d (slash ∷ b), is_utf8-slash [] b, ud, ub, is_utf8-nil)

-- The key part reads back as the name.
pub parse-dir_and_base :
    (name : Bytes) → IsName name → parse_dir_and_base (dir_and_base name) ≡ some name
parse-dir_and_base name h =
    let (d, b, s) = split_name-IsParted name in
    let text : from_utf8 (d ++ slash ∷ slash ∷ b) ≡ some (d ++ slash ∷ slash ∷ b) =
      unfold from_utf8 in (rw (dir_and_base-is_utf8 name d b s h.utf8)) in
    unfold parse_dir_and_base in
    (rw (s.split) (
      rw text (
        rw (rsplit_slashes-append d b s.clean)
          (ap some (join_name-split_name name d b s h.relative)))))
