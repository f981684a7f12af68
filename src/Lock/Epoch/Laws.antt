-- ===== src/Lock/Epoch/Laws.antt =====
-- Epochs made by `new` or `parse`, and their texts.
use mathlib.Core.Path.{subst}
use bepository.Prelude.{
  >>=-eq-ok, true, length, sym, ℕ, ◌≤◌, ◌≡◌, refl, ap, ◌∙◌, Bytes, Option, none, some, ◌++◌, ok,
  arith, lex_lt,
}
use bepository.Lock.Base32.{to_base32, from_base32, strip_json, suffix, max_val}
use bepository.Lock.Base32.Decode.{from_base32-to_base32, to_base32-from_base32}
use bepository.Prelude.Utf8.{is_utf8}
use bepository.Lock.Base32.Digits.{encode, length-encode, to_base32-eq-encode, encode-is_utf8}
use bepository.Lock.Base32.Order.{lex_lt-to_base32, to_base32-eq-ok}
use bepository.Lock.Epoch.{Epoch, new, parse, as_base32, json_filename, before}

-- The cached text is that of the number: what `new` and `parse` make.
pub record IsValid (e : Epoch) : Type 0 where
  pub fits : e.val ≤ max_val
  pub cached : to_base32 e.val ≡ ok e.base32

-- `new` succeeds on every number of at most 40 bits.
pub new_total :
    (val : ℕ) → val ≤ max_val → (e : Epoch) × (new val ≡ ok e) × (e.val ≡ val) × IsValid e
unfolding new
new_total val h =
    let (s, encoded, _, _, _) = from_base32-to_base32 val h in
    (record { val = val; base32 = s }, rw encoded, refl, record { fits = h; cached = encoded })

-- `parse` does not panic: where the text reads as a number, `new` accepts that number. The epoch
-- is valid, and its text is the one that was parsed, without the file suffix.
pub parse_total :
    (s : Bytes) (val : ℕ)
    → from_base32 s ≡ some val
    → (e : Epoch) × (new val ≡ ok e) × (parse s ≡ some e) × (e.base32 ≡ strip_json s) × IsValid e
unfolding parse
parse_total s val h =
    let (fits, encoded) = to_base32-from_base32 s val h in
    (
      record { val = val; base32 = strip_json s },
      ground arith,
      ground arith,
      refl,
      record { fits = fits; cached = encoded },
    )

pub parse-eq-some :
    (s : Bytes) (e : Epoch) → parse s ≡ some e → IsValid e × (e.base32 ≡ strip_json s)
parse-eq-some s e h = go (from_base32 s) refl
  where
    go : (o : Option ℕ) → from_base32 s ≡ o → IsValid e × (e.base32 ≡ strip_json s)
    go none read = unfold parse in (ground arith)
    go (some val) read =
        let (e', _, parsed, text, valid) = parse_total s val read in
        let same : e' ≡ e = cc in
        (subst IsValid same valid, ap (λ (d : Epoch). d.base32) (sym same) ∙ text)

-- A valid epoch is what its text and its file name parse to.
pub parse-as_base32 :
    (e : Epoch) → IsValid e → (parse (as_base32 e) ≡ some e) × (parse (json_filename e) ≡ some e)
unfolding parse
parse-as_base32 e v =
    let (s, encoded, _, bare, file) = from_base32-to_base32 e.val v.fits in
    let same : s ≡ e.base32 = ground (arith, v.cached) in
    let read : from_base32 e.base32 ≡ some e.val = rw (← same) bare in
    let read' : from_base32 (e.base32 ++ suffix) ≡ some e.val = rw (← same) file in
    (ground (arith, v.cached), ground (arith, v.cached))

-- Valid epochs compare as their texts do, and are the same if their numbers are.
pub before-eq-lex_lt :
    (a b : Epoch) → IsValid a → IsValid b → lex_lt (as_base32 a) (as_base32 b) ≡ before a b
before-eq-lex_lt a b v w = lex_lt-to_base32 a.val b.val _ _ v.cached w.cached

pub eq_of_val : (a b : Epoch) → IsValid a → IsValid b → a.val ≡ b.val → a ≡ b
eq_of_val a b v w h = ground (arith, v.cached, w.cached)

-- The text of a valid epoch is eight characters of ASCII.
pub as_base32_text :
    (e : Epoch) → IsValid e → (length (as_base32 e) ≡ 8) × (is_utf8 (as_base32 e) ≡ true)
as_base32_text e v =
    let same : e.base32 ≡ encode 8 e.val =
      ground (arith, v.cached, to_base32-eq-encode e.val v.fits) in
    (rw same (length-encode 8 e.val), rw same (encode-is_utf8 8 e.val))

-- What `new` makes is valid, and holds the number it was asked for.
pub new-eq-ok : (val : ℕ) (e : Epoch) → new val ≡ ok e → IsValid e × (e.val ≡ val)
unfolding new
new-eq-ok val e made =
    let (s, encoded, same) =
      >>=-eq-ok (to_base32 val) (λ b. ok (record { val = val; base32 = b })) made in
    let (fits, _) = to_base32-eq-ok val s encoded in
    let it : record { val = val; base32 = s } ≡ e = cc same in
    subst (λ (d : Epoch). IsValid d × (d.val ≡ val)) it
      (record { fits = fits; cached = encoded }, refl)
