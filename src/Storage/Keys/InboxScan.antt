-- ===== src/Storage/Keys/InboxScan.antt =====
-- The prefix by which a compaction looks for the files in transfer, `inbox_key(epoch, "")`.
use bepository.Prelude.{
  ℕ, ◌≡◌, refl, sym, ap, ◌∙◌, Bool, true, false, [], ◌∷◌, ◌++◌, Bytes, codes, arith, starts_with,
  inl, inr,
}
use bepository.Lock.Epoch.{Epoch, as_base32}
use bepository.Storage.Keys.{slash, inbox_key, split_name, dirname, inbox_prefix}
use bepository.Storage.Keys.Split.{IsName, IsParted, split_name-IsParted}

starts_with_common : (p x y : Bytes) → starts_with (p ++ x) (p ++ y) ≡ starts_with x y
starts_with_common [] x y = refl
starts_with_common (c ∷ p) x y = ground (arith, starts_with_common p x y)

abbrev pub is_empty : Bytes → Bool
is_empty [] = true
is_empty (_ ∷ _) = false

slashes_first :
    (name d b : Bytes)
    → IsParted name d b
    → starts_with (codes "/") name ≡ false
    → starts_with (codes "//") (d ++ slash ∷ slash ∷ b) ≡ is_empty d
slashes_first name [] b s h = refl
slashes_first name (x ∷ d) b s h = elim s.whole [
  | inl (empty, _) ↦ absurd (cc)
  | inr whole ↦ ground (arith, rw whole at h)
]

inbox_key-split :
    (e : Epoch) (name d b : Bytes)
    → split_name name ≡ (d, b)
    → inbox_key e name ≡ (inbox_prefix ++ as_base32 e) ++ slash ∷ (d ++ slash ∷ slash ∷ b)
unfolding inbox_key
inbox_key-split e name d b h = rw h

starts_with_split :
    (p x y : Bytes) (c : ℕ) → starts_with (p ++ c ∷ x) (p ++ c ∷ y) ≡ starts_with x y
starts_with_split p x y c = starts_with_common p (c ∷ x) (c ∷ y) ∙ starts_with_common (c ∷ []) x y

split_name-nil : split_name [] ≡ ([], [])
unfolding split_name
split_name-nil = refl

-- The prefix meets the inbox key of a file exactly if the file lies in the folder's root: files in
-- transfer in any directory are not found by it.
pub inbox_key-root_prefix :
    (e : Epoch) (name : Bytes)
    → IsName name
    → starts_with (inbox_key e []) (inbox_key e name) ≡ is_empty (dirname name)
unfolding dirname
inbox_key-root_prefix e name h = found (split_name-IsParted name)
  where
    found :
        (d : Bytes) × (b : Bytes) × IsParted name d b
        → starts_with (inbox_key e []) (inbox_key e name) ≡ is_empty (dirname name)
    found (d, b, s) =
        rw
          (
            inbox_key-split e [] [] [] split_name-nil,
            inbox_key-split e name d b s.split,
            starts_with_split (inbox_prefix ++ as_base32 e) (codes "//") (d ++ slash ∷ slash ∷ b)
                slash,
            slashes_first name d b s h.relative,
          )
          (ap (λ p. is_empty (p.0)) (sym s.split))
