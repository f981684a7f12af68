-- ===== src/Storage/Stats/Buckets.antt =====
-- Which bucket of the histogram of bepository-storage/src/stats.rs a value is counted in.
use native.Mathlib.Nat.{pow-suc}
use bepository.Prelude.{
  ℕ, zero, suc, ◌+◌, ◌-◌, ap, ◌∙◌, ◌*◌, ◌/◌, ◌^◌, ◌≤◌, ◌<◌, ◌≡◌, inl, inr, refl, false, Bool-cases,
  arith, length, ltb, leb, ◌==◌, if◌then◌else◌,
}
use bepository.Storage.Stats.{bit_length, bytes_bucket_index, no_prefix_stats, usize_sub}

bit_length_zero : (rounds : ℕ) → bit_length rounds 0 ≡ 0
unfolding bit_length
bit_length_zero zero = refl
bit_length_zero (suc rounds) = refl

-- The powers of two around a number, by its length in bits.
record IsLength (n l : ℕ) : Type 0 where
  pred : ℕ
  is_suc : l ≡ suc pred
  low : 2 ^ pred ≤ n
  high : n < 2 ^ suc pred

bit_length-IsLength : (rounds n : ℕ) → 0 < n → n < 2 ^ rounds → IsLength n (bit_length rounds n)
unfolding bit_length
bit_length-IsLength zero n positive fits = absurd (omega (arith, fits))
bit_length-IsLength (suc rounds) n positive fits =
    let some_bit : (n == 0) ≡ false = ground (arith, positive) in
    rw some_bit (elim (Bool-cases (n / 2 == 0)) [
      | inl one ↦ last (ground (arith, one))
      | inr more ↦ rest (
          bit_length-IsLength rounds (n / 2) (ground (arith, more))
            (omega (arith, pow-suc 2 rounds)))
    ])
  where
    last : n / 2 ≡ 0 → IsLength n (suc (bit_length rounds (n / 2)))
    last h = record {
      pred = 0;
      is_suc = ap suc (ap (bit_length rounds) h ∙ bit_length_zero rounds);
      low = omega arith;
      high = omega arith;
    }

    rest :
        IsLength (n / 2) (bit_length rounds (n / 2)) → IsLength n (suc (bit_length rounds (n / 2)))
    rest half = record {
      pred = suc half.pred;
      is_suc = ap suc half.is_suc;
      low = omega (arith, half.low, pow-suc 2 half.pred);
      high = omega (arith, half.high, pow-suc 2 (suc half.pred));
    }

pow_mono : (m n : ℕ) → m ≤ n → 2 ^ m ≤ 2 ^ n
pow_mono m zero le = let same : m ≡ 0 = omega arith in rw same (omega arith)
pow_mono m (suc n) le = elim (Bool-cases (m == suc n)) [
  | inl top ↦ (let same : m ≡ suc n = ground (arith, top) in rw same (omega arith))
  | inr below ↦ omega (arith, pow-suc 2 n, pow_mono m n (ground (arith, below, le)))
]

pow_reflects : (m n : ℕ) → 2 ^ m < 2 ^ n → m < n
pow_reflects m n h = elim (Bool-cases (ltb m n)) [
  | inl below ↦ ground (arith, below)
  | inr above ↦ absurd (omega (arith, pow_mono n m (ground (arith, above))))
]

-- The least length that is counted in a bucket.
abbrev pub bucket_start : ℕ → ℕ
bucket_start zero = 0
bucket_start (suc i) = if i == 12 then 2 ^ 27 else 2 ^ (2 * i + 4)

-- A length is counted in this bucket, and it is one of the histogram.
pub record InBucket (len i : ℕ) : Type 0 where
  pub in_range : i < length no_prefix_stats.bytes_hist
  pub from : bucket_start i ≤ len
  pub to : i < 13 → len < bucket_start (suc i)

-- A value of any length is counted in the one bucket of the histogram that its length belongs to: up to
-- 15, then from each power of four from 16 on up to the next one, and from 2^27 on the last bucket.
pub bytes_bucket_index-InBucket : (len : ℕ) → InBucket len (bytes_bucket_index len)
unfolding bytes_bucket_index
bytes_bucket_index-InBucket len = elim (Bool-cases (ltb len 16)) [
  | inl small ↦
      rw small
        (record { in_range = omega arith; from = omega arith; to = λ h. ground (arith, small) })
  | inr more ↦ rw more (elim (Bool-cases (leb (2 ^ 27) len)) [
    | inl large ↦ rw large (record {
      in_range = omega arith;
      from = ground (arith, large);
      to = λ h. absurd (omega arith);
    })
    | inr less ↦ rw less (
        by_length (ground (arith, more)) (ground (arith, less)) _
          (bit_length-IsLength 64 len (ground (arith, more)) (ground (arith, less))))
  ])
]
  where
    placed :
        len < 2 ^ 27
        → (p i : ℕ) → i ≤ 11
        → 2 * i + 4 ≤ p
        → p < 2 * i + 6
        → 2 ^ p ≤ len
        → len < 2 ^ suc p
        → InBucket len (suc i)
    placed less p i small from to low high =
        let not_last : (i == 12) ≡ false = ground arith in
        record {
          in_range = omega arith;
          from = rw not_last (omega (arith, pow_mono (2 * i + 4) p from));
          to = λ h. elim (Bool-cases (suc i == 12)) [
            | inl last ↦ rw last less
            | inr other ↦ rw other (omega (arith, pow_mono (suc p) (2 * suc i + 4) (omega arith)))
          ];
        }

    by_length :
        16 ≤ len
        → len < 2 ^ 27
        → (l : ℕ) → IsLength len l
        → InBucket len (usize_sub (usize_sub 63 (64 - l)) 4 / 2 + 1)
    by_length more less l is =
        let bits : l ≡ suc is.pred = is.is_suc in
        let at_least : 4 < suc is.pred = pow_reflects 4 (suc is.pred) (omega (arith, is.high)) in
        let at_most : is.pred < 27 = pow_reflects is.pred 27 (omega (arith, is.low, less)) in
        let bucket : usize_sub (usize_sub 63 (64 - l)) 4 / 2 + 1 ≡ suc ((is.pred - 4) / 2) =
          ground (arith, bits, at_least, at_most) in
        rw bucket (
          placed less is.pred ((is.pred - 4) / 2) (omega (arith, at_most)) (omega (arith, at_least))
            (omega arith) is.low is.high)
