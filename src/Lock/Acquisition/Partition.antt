-- ===== src/Lock/Acquisition/Partition.antt =====
-- `partition_around` against its description by three independent tests.
use bepository.Prelude.{
  Bool, true, false, not, ◌&&◌, ◌||◌, Option, none, some, [], ◌∷◌, ◌≡◌, refl, ap, ◌∙◌, ◌⊎◌, inl,
  inr, if◌then◌else◌, arith,
}
use bepository.Lock.Epoch.{Epoch, before}
use bepository.Lock.Calls.{Packages, ObjectMeta}
use bepository.Lock.Protocol.{epoch_of, Metas, same_epoch, partition_around, place}
use bepository.Lock.Acquisition.{is_below}
use bepository.Lock.Acquisition.Reads.{AllMetas}

abbrev pub is_mine : Epoch → Option Epoch → Bool
is_mine mine none = false
is_mine mine (some e) = same_epoch e mine

abbrev pub is_above : Epoch → Option Epoch → Bool
is_above mine none = false
is_above mine (some e) = not (before e mine) && not (same_epoch e mine)

before-not_same : (e mine : Epoch) → before e mine ≡ true → same_epoch e mine ≡ false
before-not_same e mine below = ground arith

module _ {X : Packages} where
  unfoldable pub filter_metas : (Option Epoch → Bool) → Metas X → Metas X
  filter_metas test [] = []
  filter_metas test (m ∷ metas) =
      let rest = filter_metas test metas in if test (epoch_of m) then m ∷ rest else rest

  unfoldable pub any_meta : (Option Epoch → Bool) → Metas X → Bool
  any_meta test [] = false
  any_meta test (m ∷ metas) = test (epoch_of m) || any_meta test metas

  -- The files below ours, whether ours is there, and the files above ours: in the order of the list,
  -- and nothing else.
  pub partition_around-eq-filter :
      (metas : Metas X) (mine : Epoch)
      → partition_around metas mine ≡ (
        filter_metas (is_below mine) metas,
        any_meta (is_mine mine) metas,
        filter_metas (is_above mine) metas,
      )
  unfolding partition_around filter_metas any_meta
  partition_around-eq-filter [] mine = refl
  partition_around-eq-filter (m ∷ metas) mine =
      ap (place mine m (epoch_of m)) (partition_around-eq-filter metas mine) ∙ placed (epoch_of m)
    where
      lower : Metas X
      lower = filter_metas (is_below mine) metas

      present : Bool
      present = any_meta (is_mine mine) metas

      higher : Metas X
      higher = filter_metas (is_above mine) metas

      beside : Metas X → Bool → Metas X → Metas X × Bool × Metas X
      beside a b c = (a, b, c)

      tested :
          (b s : Bool)
          → (b ≡ true → s ≡ false)
          → (if b
              then (m ∷ lower, present, higher)
              else if s
              then (lower, true, higher)
              else (lower, present, m ∷ higher))
            ≡ beside
                (if b then m ∷ lower else lower)
                (s || present)
                (if not b && not s then m ∷ higher else higher)
      tested true true apart = absurd (cc (apart refl))
      tested true false apart = refl
      tested false true apart = refl
      tested false false apart = refl

      placed :
          (o : Option Epoch)
          → place mine m o (lower, present, higher)
            ≡ beside
                (if is_below mine o then m ∷ lower else lower)
                (is_mine mine o || present)
                (if is_above mine o then m ∷ higher else higher)
      placed none = refl
      placed (some e) = tested (before e mine) (same_epoch e mine) (before-not_same e mine)

  pub filter_metas-AllMetas :
      (test : Option Epoch → Bool) (metas : Metas X)
      → AllMetas (λ m. test (epoch_of m) ≡ true) (filter_metas test metas)
  unfolding filter_metas
  filter_metas-AllMetas test [] = tt
  filter_metas-AllMetas test (m ∷ metas) =
      kept (filter_metas-AllMetas test metas) (test (epoch_of m)) refl
    where
      kept :
          AllMetas (λ n. test (epoch_of n) ≡ true) (filter_metas test metas)
          → (b : Bool) → test (epoch_of m) ≡ b
          → AllMetas
              (λ n. test (epoch_of n) ≡ true)
              (if b then m ∷ filter_metas test metas else filter_metas test metas)
      kept all true is = (is, all)
      kept all false is = all

  -- What holds of the files that pass a test holds of every file, or it does not pass.
  pub AllMetas-filter_metas :
      (P : ObjectMeta X → Type 0) (test : Option Epoch → Bool) (metas : Metas X)
      → AllMetas P (filter_metas test metas)
      → AllMetas (λ m. (test (epoch_of m) ≡ false) ⊎ P m) metas
  unfolding filter_metas
  AllMetas-filter_metas P test [] all = tt
  AllMetas-filter_metas P test (m ∷ metas) all =
      either (AllMetas-filter_metas P test metas) (test (epoch_of m)) refl all
    where
      either :
          (AllMetas P (filter_metas test metas)
            → AllMetas (λ n. (test (epoch_of n) ≡ false) ⊎ P n) metas)
          → (b : Bool) → test (epoch_of m) ≡ b
          → AllMetas P (if b then m ∷ filter_metas test metas else filter_metas test metas)
          → AllMetas (λ n. (test (epoch_of n) ≡ false) ⊎ P n) (m ∷ metas)
      either rest true is (p, all) = (inr p, rest all)
      either rest false is all = (inl is, rest all)
