-- ===== src/Bep/Conflict/Compare.antt =====
-- The comparison of version vectors means what the order of their values means.
use bepository.Prelude.{
  ℕ, ◌≤◌, ◌<◌, ◌≡◌, refl, ◌↔◌, ◌⊎◌, inl, inr, Bool, true, false, List, arith, ok, err,
}
use bepository.Bep.Errors.{BepError}
use bepository.Bep.Proto.{Counter, Vector}
use bepository.Bep.Conflict.{
  Ordering, greater, less, equal, concurrent, sorted_unique, verdict, compare_vectors,
}
use bepository.Bep.Conflict.Values.{value, count, HasNoRepeat, IsAscending}
use bepository.Bep.Conflict.Sort.{sorted_unique_cases}
use bepository.Bep.Conflict.Merge.{exceeds, merge-eq-exceeds, exceeds_complete, exceeds_sound}

-- The value of a counter, 0 where the vector has none.
abbrev pub at : Vector → ℕ → ℕ
at v id = value v.counters id

-- Every counter of the second is at most that of the first.
abbrev pub Covers : Vector → Vector → Type 0
Covers a b = (id : ℕ) → at b id ≤ at a id

abbrev pub HasNewer : Vector → Vector → Type 0
HasNewer a b = (id : ℕ) × (at b id < at a id)

-- What each verdict says of the two vectors.
abbrev pub Means : Ordering → Vector → Vector → Type 0
Means equal a b = (id : ℕ) → at a id ≡ at b id
Means greater a b = Covers a b × HasNewer a b
Means less a b = Covers b a × HasNewer b a
Means concurrent a b = HasNewer a b × HasNewer b a

-- The flag of one side, read on the vectors before they were sorted.
flag_true :
    (s t : List Counter) (a b : Vector)
    → IsAscending 0 s
    → IsAscending 0 t
    → ((id : ℕ) → value s id ≡ at a id)
    → ((id : ℕ) → value t id ≡ at b id)
    → exceeds s t ≡ true
    → HasNewer a b
flag_true s t a b hs ht es et e =
    let (id, more) = exceeds_sound s t 0 0 hs ht e in (id, omega (arith, es id, et id))

flag_false :
    (s t : List Counter) (a b : Vector)
    → IsAscending 0 s
    → IsAscending 0 t
    → ((id : ℕ) → value s id ≡ at a id)
    → ((id : ℕ) → value t id ≡ at b id)
    → exceeds s t ≡ false
    → Covers b a
flag_false s t a b hs ht es et e id =
    ground (arith, exceeds_complete s t 0 0 id hs ht, es id, et id)

verdict-Means :
    (p q : Bool) (a b : Vector)
    → (p ≡ true → HasNewer a b)
    → (p ≡ false → Covers b a)
    → (q ≡ true → HasNewer b a)
    → (q ≡ false → Covers a b)
    → Means (verdict (p, q)) a b
unfolding verdict
verdict-Means true true a b pt pf qt qf = (pt refl, qt refl)
verdict-Means true false a b pt pf qt qf = (qf refl, pt refl)
verdict-Means false true a b pt pf qt qf = (pf refl, qt refl)
verdict-Means false false a b pt pf qt qf = λ id. omega (arith, pf refl id, qf refl id)

sorted_unique_total :
    (v : Vector)
    → HasNoRepeat v.counters
    → (s : List Counter) × (sorted_unique v ≡ ok s)
      × IsAscending 0 s
      × ((id : ℕ) → value s id ≡ at v id)
sorted_unique_total v h = elim (sorted_unique_cases v) [
  | inl (s, sorted, ascends, _, values) ↦ (s, sorted, ascends, values)
  | inr (_, (id, twice)) ↦ absurd (omega (arith, h id))
]

-- Two vectors without a repeated counter id always compare, and the verdict says how their values
-- are ordered: equal means the same value at every id, greater that the first is nowhere smaller
-- and somewhere larger, less the reverse, concurrent that each is somewhere larger.
pub compare_vectors_sound :
    (a b : Vector)
    → HasNoRepeat a.counters
    → HasNoRepeat b.counters
    → (o : Ordering) × (compare_vectors a b ≡ ok o) × Means o a b
unfolding compare_vectors
compare_vectors_sound a b ha hb =
    let (s, sa, hs, es) = sorted_unique_total a ha in
    let (t, sb, ht, et) = sorted_unique_total b hb in
    (
      verdict (exceeds s t, exceeds t s),
      rw (sa, sb) (rw (merge-eq-exceeds s t false false)),
      verdict-Means (exceeds s t) (exceeds t s) a b (flag_true s t a b hs ht es et)
          (flag_false s t a b hs ht es et) (flag_true t s b a ht hs et es)
          (flag_false t s b a ht hs et es),
    )

abbrev pub HasRepeat : Vector → Type 0
HasRepeat v = (id : ℕ) × (2 ≤ count id v.counters)

sorted_unique_error : (v : Vector) → (sorted_unique v ≡ err BepError.peer_bad_message) ↔ HasRepeat v
sorted_unique_error v = elim (sorted_unique_cases v) [
  | inl (s, sorted, _, unique, _) ↦ (λ e. cc, λ (id, twice). absurd (omega (arith, unique id)))
  | inr (failed, repeats) ↦ (λ e. repeats, λ r. failed)
]

repeat_of_error :
    (a b : Vector) → compare_vectors a b ≡ err BepError.peer_bad_message → HasRepeat a ⊎ HasRepeat b
unfolding compare_vectors
repeat_of_error a b e = elim (sorted_unique_cases a) [
  | inr (_, repeats) ↦ inl repeats
  | inl (s, sa, _, _, _) ↦ elim (sorted_unique_cases b) [
    | inr (_, repeats) ↦ inr repeats
    | inl (t, sb, _, _, _) ↦ absurd (ground (arith, sa, sb, e))
  ]
]

-- The comparison fails, with the error that blames the peer, exactly if one of the vectors repeats
-- a counter id.
pub compare_vectors_error :
    (a b : Vector)
    → (compare_vectors a b ≡ err BepError.peer_bad_message) ↔ (HasRepeat a ⊎ HasRepeat b)
unfolding compare_vectors
compare_vectors_error a b = (repeat_of_error a b, λ r. back r)
  where
    back : HasRepeat a ⊎ HasRepeat b → compare_vectors a b ≡ err BepError.peer_bad_message
    back (inl r) = rw ((sorted_unique_error a).1 r)
    back (inr r) = elim (sorted_unique_cases a) [
      | inr (failed, _) ↦ rw failed
      | inl (s, sa, _, _, _) ↦ rw (sa, (sorted_unique_error b).1 r)
    ]
