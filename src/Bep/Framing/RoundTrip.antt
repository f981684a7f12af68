-- ===== src/Bep/Framing/RoundTrip.antt =====
-- What bepository-bep/src/framing.rs writes reads back.
use mathlib.Core.Path.{subst}
use bepository.Prelude.{
  ℕ, ◌^◌, ◌≤◌, ◌<◌, ◌≡◌, refl, sym, ap, ◌∙◌, arith, Bytes, Bool, true, false, Option, none, some,
  ◌++◌, append_assoc, Result, ok, err, ◌>>=◌, >>=-eq-ok, ltb, leb, ==_refl, Bool-cases, inl, inr,
  length, length-append, take, drop, take-append, drop-append, ltb→lt, lt→ltb,
}
use bepository.Prelude.BigEndian.{to_be_bytes, length-to_be_bytes, from_be_bytes-to_be_bytes}
use bepository.Prelude.{u32_mod}
use bepository.Prelude.Int.{eq_ℤ}
use bepository.Bep.Errors.{BepError}
use bepository.Bep.Framing.{
  max_message_size, lz4, Header, FramePackages, read_exact, number_and_rest, read_uint, read_sized,
  read_prefixed, prefixed, decompress_sized, decompress_lz4, compress_lz4, unpack, with_header,
  read_message, frame, frame_packed, write_message,
}

read_exact-append : (xs ys : Bytes) → read_exact (length xs) (xs ++ ys) ≡ ok (xs, ys)
unfolding read_exact
read_exact-append xs ys =
    rw
      (
        le→leb (length xs) (length (xs ++ ys)) (omega (arith, length-append xs ys)),
        take-append,
        drop-append,
      )
      refl
  where
    le→leb : (a b : ℕ) → a ≤ b → leb a b ≡ true
    le→leb a b h = ground arith

read_uint-to_be_bytes :
    (width v : ℕ) (rest : Bytes)
    → v < 256 ^ width
    → read_uint width (to_be_bytes width v ++ rest) ≡ ok (v, rest)
unfolding read_uint
read_uint-to_be_bytes width v rest h =
    let taken : read_exact width (to_be_bytes width v ++ rest) ≡ ok (to_be_bytes width v, rest) =
      subst (λ n. read_exact n (to_be_bytes width v ++ rest) ≡ ok (to_be_bytes width v, rest))
        (length-to_be_bytes width v) (read_exact-append (to_be_bytes width v) rest) in
    ap (λ r. r >>= number_and_rest) taken
    ∙ ap (λ n. ok (n, rest)) (from_be_bytes-to_be_bytes width v h)

sized :
    (content rest : Bytes)
    → length content ≤ max_message_size
    → read_sized (length content, content ++ rest) ≡ ok (content, rest)
sized content rest h = rw (le→leb (length content) h) (read_exact-append content rest)
  where
    le→leb : (a : ℕ) → a ≤ max_message_size → leb a max_message_size ≡ true
    le→leb a k = ground arith

-- A block with its length reads back, with what follows it.
read_prefixed-prefixed :
    (width : ℕ) (content bytes rest : Bytes)
    → prefixed width content ≡ ok bytes
    → length content ≤ max_message_size
    → read_prefixed width (bytes ++ rest) ≡ ok (content, rest)
unfolding read_prefixed prefixed
read_prefixed-prefixed width content bytes rest e h =
    elim (Bool-cases (ltb (length content) (256 ^ width))) [
      | inr long ↦ absurd (failed (rw long at e))
      | inl short ↦ written (ltb→lt _ _ short) (rw short at e)
    ]
  where
    failed : ◌≡◌ {A = Result BepError Bytes} (err BepError.internal) (ok bytes) → ⊥
    failed k = cc

    same :
        ◌≡◌ {A = Result BepError Bytes}
          (ok (to_be_bytes width (length content) ++ content))
          (ok bytes)
        → to_be_bytes width (length content) ++ content ≡ bytes
    same k = cc

    written :
        length content < 256 ^ width
        → ◌≡◌ {A = Result BepError Bytes}
            (ok (to_be_bytes width (length content) ++ content))
            (ok bytes)
        → (read_uint width (bytes ++ rest) >>= read_sized) ≡ ok (content, rest)
    written short k =
        subst (λ b. (read_uint width (b ++ rest) >>= read_sized) ≡ ok (content, rest)) (same k)
          (ap (λ b. read_uint width b >>= read_sized)
              (append_assoc (to_be_bytes width (length content)) content rest)
            ∙ ap (λ r. r >>= read_sized)
                (read_uint-to_be_bytes width (length content) (content ++ rest) short)
            ∙ sized content rest h)

module _ (P : FramePackages) where
  -- A compressed body unpacks to the body.
  decompress_lz4-compress_lz4 :
      (body packed : Bytes)
      → compress_lz4 P body ≡ some packed
      → length body ≤ max_message_size
      → decompress_lz4 P packed ≡ ok body
  unfolding compress_lz4 decompress_lz4
  decompress_lz4-compress_lz4 body packed e small = elim (Bool-cases (ltb (length body) u32_mod)) [
    | inr long ↦ absurd (lost (rw long at e))
    | inl short ↦ subst (λ b. decompress_lz4 P b ≡ ok body) (same (rw short at e)) unpacked
  ]
    where
      size : Bytes
      size = to_be_bytes 4 (length body)

      lost : none ≡ some packed → ⊥
      lost k = cc

      same : some (size ++ P.compress body) ≡ some packed → size ++ P.compress body ≡ packed
      same k = cc

      long_enough : ltb (length (size ++ P.compress body)) 4 ≡ false
      long_enough =
          not_below (length (size ++ P.compress body)) (
            omega (arith, length-append size (P.compress body), length-to_be_bytes 4 (length body)))
        where
          not_below : (n : ℕ) → 4 ≤ n → ltb n 4 ≡ false
          not_below n h = ground arith

      prefix : take 4 (size ++ P.compress body) ≡ size
      prefix =
          subst (λ n. take n (size ++ P.compress body) ≡ size) (length-to_be_bytes 4 (length body))
            (take-append size (P.compress body))

      suffix : drop 4 (size ++ P.compress body) ≡ P.compress body
      suffix =
          subst (λ n. drop n (size ++ P.compress body) ≡ P.compress body)
            (length-to_be_bytes 4 (length body)) (drop-append size (P.compress body))

      fits : leb (length body) max_message_size ≡ true
      fits = within (length body) small
        where
          within : (n : ℕ) → n ≤ max_message_size → leb n max_message_size ≡ true
          within n h = ground arith

      whole : decompress_sized P (length body, P.compress body) ≡ ok body
      whole = rw (fits, P.decompress-compress body, ==_refl (length body)) refl

      unpacked : decompress_lz4 P (size ++ P.compress body) ≡ ok body
      unpacked =
          rw (long_enough, prefix, suffix, from_be_bytes-to_be_bytes 4 (length body) (omega arith))
            whole

  -- A frame reads back as its header and what its body unpacks to.
  read_message-frame :
      (header : Header) (content body bytes rest : Bytes)
      → frame P header content ≡ ok bytes
      → length content ≤ max_message_size
      → unpack P header content ≡ ok body
      → read_message P (bytes ++ rest) ≡ ok (record { header = header; body = body }, rest)
  unfolding read_message
  read_message-frame header content body bytes rest e small unpacked =
      let first = >>=-eq-ok (prefixed 2 (P.encode_header header)) _ e in
      let second = >>=-eq-ok (prefixed 4 content) _ first.2 in
      subst (λ b. read_message P (b ++ rest) ≡ ok (record { header = header; body = body }, rest))
        (same (first.0 ++ second.0) second.2)
        (ap (λ b. read_prefixed 2 b >>= with_header P) (append_assoc first.0 second.0 rest)
          ∙ ap (λ r. r >>= with_header P)
              (read_prefixed-prefixed 2 (P.encode_header header) first.0 (second.0 ++ rest) first.1
                (omega (arith, P.length-encode_header header)))
          ∙ body_read second.0 second.1)
    where
      same : (b : Bytes) → ◌≡◌ {A = Result BepError Bytes} (ok b) (ok bytes) → b ≡ bytes
      same b k = cc

      body_read :
          (written : Bytes)
          → prefixed 4 content ≡ ok written
          → with_header P (P.encode_header header, written ++ rest)
            ≡ ok (record { header = header; body = body }, rest)
      body_read written w =
          rw (P.decode-encode_header header, read_prefixed-prefixed 4 content written rest w small)
            (rw unpacked refl)

  -- The header as it is sent.
  abbrev pub sent_header : Bool → Header → Header
  sent_header true header = record header { compression = lz4 }
  sent_header false header = header

  -- What goes over the wire for a body.
  abbrev pub payload : Bool → Bytes → Bytes
  payload true body = to_be_bytes 4 (length body) ++ P.compress body
  payload false body = body

  compressed :
      (body : Bytes)
      → length body ≤ max_message_size
      → compress_lz4 P body ≡ some (payload true body)
  unfolding compress_lz4
  compressed body small = rw (lt→ltb (length body) u32_mod (omega arith)) refl

  -- A message that was written reads back, with what follows it on the stream: its header, marked if
  -- the body was compressed, and its body, for bodies and payloads of at most 500 MiB and a header that
  -- is not marked before.
  pub read_message-write_message :
      (header : Header) (body bytes rest : Bytes) (compress : Bool)
      → write_message P header body compress ≡ some (ok bytes)
      → length body ≤ max_message_size
      → length (payload compress body) ≤ max_message_size
      → eq_ℤ header.compression lz4 ≡ false
      → read_message P (bytes ++ rest)
        ≡ ok (record { header = sent_header compress header; body = body }, rest)
  unfolding write_message
  read_message-write_message header body bytes rest false e small fits plain =
      read_message-frame header body body bytes rest (same e) small (rw plain refl)
    where
      same :
          ◌≡◌ {A = Option (Result BepError Bytes)} (some (frame P header body)) (some (ok bytes))
          → frame P header body ≡ ok bytes
      same k = cc
  read_message-write_message header body bytes rest true e small fits plain =
      read_message-frame marked (payload true body) body bytes rest
        (same (ap (frame_packed P marked) (sym packed) ∙ e)) fits
        (decompress_lz4-compress_lz4 body (payload true body) packed small)
    where
      marked : Header
      marked = record header { compression = lz4 }

      packed : compress_lz4 P body ≡ some (payload true body)
      packed = compressed body small

      same :
          ◌≡◌ {A = Option (Result BepError Bytes)}
            (some (frame P marked (payload true body)))
            (some (ok bytes))
          → frame P marked (payload true body) ≡ ok bytes
      same k = cc
