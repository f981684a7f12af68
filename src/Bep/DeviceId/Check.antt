-- ===== src/Bep/DeviceId/Check.antt =====
-- The check digit of a group tells the group from every other one that differs in one character.
use bepository.Prelude.{
  ℕ, ◌+◌, ◌-◌, ◌%◌, ◌<◌, ◌≡◌, refl, sym, ap, ◌∙◌, Bytes, Bool, true, false, not, Option, none, some,
  [], ◌∷◌, ◌++◌, Result, ok, ok_or, get_or, u32_mod, arith, >>=-eq-ok,
}
use bepository.Lock.Base32.{position}
use bepository.Lock.Base32.Tables.{holds_from, each_digit, found_at}
use bepository.Bep.DeviceId.{
  alphabet, DeviceIdError, invalid_character, decode_char, weigh, luhn_sum, luhn_check,
}

decode_char_small : (c v : ℕ) → decode_char c ≡ some v → v < 32
unfolding decode_char
decode_char_small c v h = ground arith

weigh_inj :
    (double : Bool) (v w s : ℕ)
    → v < 32
    → w < 32
    → (s + weigh double v) % 32 ≡ (s + weigh double w) % 32
    → v ≡ w
weigh_inj true v w s h k e = omega (arith, e)
weigh_inj false v w s h k e = omega (arith, e)

ok_or-eq-ok : (o : Option ℕ) (e : DeviceIdError) (v : ℕ) → ok_or o e ≡ ok v → o ≡ some v
ok_or-eq-ok none e v h = absurd (cc h)
ok_or-eq-ok (some w) e v h = cc

luhn_sum_cons :
    (s : ℕ) (double : Bool) (c : ℕ) (group : Bytes) (t : ℕ)
    → luhn_sum s double (c ∷ group) ≡ ok t
    → (v : ℕ) × (decode_char c ≡ some v)
      × (luhn_sum ((s + weigh double v) % u32_mod) (not double) group ≡ ok t)
unfolding luhn_sum
luhn_sum_cons s double c group t h =
    let (v, decoded, rest) =
      >>=-eq-ok (ok_or (decode_char c) (invalid_character c))
        (λ val. luhn_sum ((s + weigh double val) % u32_mod) (not double) group) h in
    (v, ok_or-eq-ok (decode_char c) (invalid_character c) v decoded, rest)

luhn_sum-nil : (s : ℕ) (double : Bool) (t : ℕ) → luhn_sum s double [] ≡ ok t → s ≡ t
unfolding luhn_sum
luhn_sum-nil s double t h = cc

cancel :
    (a b s t m : ℕ)
    → (a + (t + m) % u32_mod) % 32 ≡ (b + (s + m) % u32_mod) % 32
    → (a + t) % 32 ≡ (b + s) % 32
cancel a b s t m h = omega (arith, h)

apart :
    (a b s p q : ℕ)
    → (a + (s + q) % u32_mod) % 32 ≡ (b + (s + p) % u32_mod) % 32
    → a % 32 ≡ b % 32
    → (s + p) % 32 ≡ (s + q) % 32
apart a b s p q h e = omega (arith, h, e)

abbrev check_digit : ℕ → ℕ
check_digit i = get_or alphabet i 0

position-check_digit : (i : ℕ) → i < 32 → position alphabet (check_digit i) ≡ some i
position-check_digit i h =
    ground (arith, each_digit (λ j. found_at (position alphabet (check_digit j)) j) i table h)
  where
    table : holds_from 0 32 (λ j. found_at (position alphabet (check_digit j)) j) ≡ true
    table = unfold holds_from position alphabet in refl

abbrev check_of : ℕ → Result DeviceIdError ℕ
check_of sum = ok (check_digit ((32 - sum % 32) % 32))

same_sum : (s t check : ℕ) → check_of s ≡ ok check → check_of t ≡ ok check → s % 32 ≡ t % 32
same_sum s t check h k =
    let i : ℕ = (32 - s % 32) % 32 in
    let j : ℕ = (32 - t % 32) % 32 in
    let one = position-check_digit i (omega arith) in
    let two = position-check_digit j (omega arith) in let same : i ≡ j = cc in omega (arith, same)

-- The rest of the loop adds the same to every sum.
luhn_sum_shift :
    (double : Bool) (group : Bytes) (s t s' t' : ℕ)
    → luhn_sum s double group ≡ ok s'
    → luhn_sum t double group ≡ ok t'
    → (s' + t) % 32 ≡ (t' + s) % 32
luhn_sum_shift double [] s t s' t' h k =
    omega (arith, luhn_sum-nil s double s' h, luhn_sum-nil t double t' k)
luhn_sum_shift double (c ∷ group) s t s' t' h k =
    let (v, dv, hv) = luhn_sum_cons s double c group s' h in
    let (w, dw, kw) = luhn_sum_cons t double c group t' k in
    let same : v ≡ w = cc in
    let kv : luhn_sum ((t + weigh double v) % u32_mod) (not double) group ≡ ok t' = rw same kw in
    cancel s' t' s t (weigh double v) (luhn_sum_shift (not double) group _ _ s' t' hv kv)

luhn_sum_differs :
    (double : Bool) (front back : Bytes) (c d s s' t' : ℕ)
    → luhn_sum s double (front ++ c ∷ back) ≡ ok s'
    → luhn_sum s double (front ++ d ∷ back) ≡ ok t'
    → s' % 32 ≡ t' % 32
    → decode_char c ≡ decode_char d
luhn_sum_differs double [] back c d s s' t' h k e =
    let (v, dv, hv) = luhn_sum_cons s double c back s' h in
    let (w, dw, kw) = luhn_sum_cons s double d back t' k in
    let rest = luhn_sum_shift (not double) back _ _ s' t' hv kw in
    let same : v ≡ w =
      weigh_inj double v w s (decode_char_small c v dv) (decode_char_small d w dw)
        (apart s' t' s (weigh double v) (weigh double w) rest e) in
    dv ∙ ap some same ∙ sym dw
luhn_sum_differs double (x ∷ front) back c d s s' t' h k e =
    let (v, dv, hv) = luhn_sum_cons s double x (front ++ c ∷ back) s' h in
    let (w, dw, kw) = luhn_sum_cons s double x (front ++ d ∷ back) t' k in
    let same : v ≡ w = cc in luhn_sum_differs (not double) front back c d _ s' t' hv (rw same kw) e

-- Two groups that differ in one character only, and have the same check digit, do not differ: the
-- two characters stand for the same digit, as a letter and its lower case do. So a check digit
-- reveals every wrong character.
pub luhn_check-one_character :
    (front back : Bytes) (c d check : ℕ)
    → luhn_check (front ++ c ∷ back) ≡ ok check
    → luhn_check (front ++ d ∷ back) ≡ ok check
    → decode_char c ≡ decode_char d
unfolding luhn_check
luhn_check-one_character front back c d check h k =
    let (s', hs, hd) = >>=-eq-ok (luhn_sum 0 false (front ++ c ∷ back)) check_of h in
    let (t', ks, kd) = >>=-eq-ok (luhn_sum 0 false (front ++ d ∷ back)) check_of k in
    luhn_sum_differs false front back c d 0 s' t' hs ks (same_sum s' t' check hd kd)
