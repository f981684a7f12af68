-- ===== src/Storage/Proto/RoundTrip.antt =====
-- A file entry is the same after its way into the database and back, apart from what the database
-- does not keep of it.
use mathlib.Core.Option
use bepository.Prelude.{
  ◌≡◌, refl, ap, Option, none, some, List, [], ◌∷◌, map, ok, if◌then◌else◌, arith, ◌||◌,
}
use bepository.Prelude.Int.{ℤ, pos, eq_ℤ}
use bepository.Bep.Proto as Bep
use bepository.Storage.Proto.Convert.{
  bep_type_to_storage, storage_type_to_bep, counter_to_storage, counter_to_bep, vector_to_storage,
  vector_to_bep, block_to_storage, block_to_bep, xattr_to_storage, xattr_to_bep, xattrs_to_storage,
  xattrs_to_bep, unix_to_storage, unix_to_bep, windows_to_storage, windows_to_bep,
  platform_to_storage, platform_to_bep, file_to_storage, file_to_bep,
}

-- The types that the database tells apart: the old kinds of symbolic links become the new one, an
-- unknown type becomes a file.
abbrev pub canonical_type : ℤ → ℤ
canonical_type t =
    if eq_ℤ t (pos 1)
    then pos 1
    else if eq_ℤ t (pos 2) || eq_ℤ t (pos 3) || eq_ℤ t (pos 4)
    then pos 4
    else pos 0

type_round_trip : (t : ℤ) → storage_type_to_bep (bep_type_to_storage t) ≡ ok (canonical_type t)
unfolding storage_type_to_bep bep_type_to_storage
type_round_trip t = ground arith

module _ {ℓ κ} {A : Type ℓ} {B : Type κ} (f : A → B) (g : B → A)
    (back : (a : A) → g (f a) ≡ a) where
  map_back : (l : List A) → map g (map f l) ≡ l
  map_back [] = refl
  map_back (a ∷ l) = rw (back a, map_back l)

  Option-map_back : (o : Option A) → Option.map g (Option.map f o) ≡ o
  Option-map_back none = refl
  Option-map_back (some a) = ap some (back a)

vector_back : (v : Bep.Vector) → vector_to_bep (vector_to_storage v) ≡ v
vector_back v =
    ap (λ l. record { counters = l })
      (map_back counter_to_storage counter_to_bep (λ c. refl) v.counters)

xattrs_back : (x : Bep.XattrData) → xattrs_to_bep (xattrs_to_storage x) ≡ x
xattrs_back x =
    ap (λ l. record { xattrs = l }) (map_back xattr_to_storage xattr_to_bep (λ c. refl) x.xattrs)

xattrs_option :
    (o : Option Bep.XattrData) → Option.map xattrs_to_bep (Option.map xattrs_to_storage o) ≡ o
xattrs_option o = Option-map_back xattrs_to_storage xattrs_to_bep xattrs_back o

platform_back : (p : Bep.PlatformData) → platform_to_bep (platform_to_storage p) ≡ p
platform_back p = rw (
  Option-map_back unix_to_storage unix_to_bep (λ u. refl) p.unix,
  Option-map_back windows_to_storage windows_to_bep (λ w. refl) p.windows,
  xattrs_option p.linux,
  xattrs_option p.darwin,
  xattrs_option p.freebsd,
  xattrs_option p.netbsd,
)

-- A file entry that is stored and read back differs from the one sent only in its type, which is
-- the one that the database tells it from.
pub file_to_bep-file_to_storage :
    (f : Bep.FileInfo)
    → file_to_bep (file_to_storage f) ≡ ok (record f { file_type = canonical_type f.file_type })
unfolding file_to_bep file_to_storage
file_to_bep-file_to_storage f = rw (
  type_round_trip f.file_type,
  Option-map_back vector_to_storage vector_to_bep vector_back f.version,
  map_back block_to_storage block_to_bep (λ b. refl) f.blocks,
  Option-map_back platform_to_storage platform_to_bep platform_back f.platform,
)
