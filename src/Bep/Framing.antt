-- ===== src/Bep/Framing.antt =====
-- bepository-bep/src/framing.rs: frames and hellos on a byte stream. A stream that is read is the bytes
-- that it will still give, and what is written is the bytes. A write that fails, which ends the
-- connection with a network error, is left out, as is the text of the hello.
pub mod RoundTrip
use bepository.Prelude.{
  ℕ, ◌+◌, ◌*◌, ◌^◌, ◌<◌, ◌≡◌, Bytes, Bool, true, false, Option, none, some, [], ◌∷◌, ◌++◌, Result,
  ok, err, ◌>>=◌, ◌>>◌, guard, ok_or, ltb, leb, ◌==◌, not, if◌then◌else◌, length, take, drop,
  u32_mod,
}
use bepository.Prelude.BigEndian.{to_be_bytes, from_be_bytes}
use bepository.Prelude.Int.{ℤ, pos, eq_ℤ}
use bepository.Bep.Errors.{BepError}

abbrev pub max_message_size : ℕ
max_message_size = 500 * 1024 * 1024

abbrev pub hello_magic : ℕ
hello_magic = 0x2EA7D90B

abbrev pub max_hello_size : ℕ
max_hello_size = 32 * 1024

-- `MessageCompression`, as the number of the field.
abbrev pub lz4 : ℤ
lz4 = pos 1

pub record Header : Type 0 where
  pub kind : ℤ
  pub compression : ℤ

pub record Hello : Type 0 where
  pub device_name : Bytes
  pub client_name : Bytes
  pub client_version : Bytes
  pub num_connections : ℤ
  pub timestamp : ℤ

-- The packages: the generated coding of headers and hellos, and `lz4_flex`. An encoded header is two
-- short fields.
pub record FramePackages : Type 0 where
  pub encode_header : Header → Bytes
  pub decode_header : Bytes → Option Header
  pub decode-encode_header : (h : Header) → decode_header (encode_header h) ≡ some h
  pub length-encode_header : (h : Header) → length (encode_header h) < 2 ^ 16
  pub encode_hello : Hello → Bytes
  pub decode_hello : Bytes → Option Hello
  pub compress : Bytes → Bytes
  pub decompress : Bytes → ℕ → Option Bytes
  pub decompress-compress : (b : Bytes) → decompress (compress b) (length b) ≡ some b

pub record RawMessage : Type 0 where
  pub header : Header
  pub body : Bytes

-- A reader gives a value and the rest of the stream.
abbrev pub Reader : Type 0 → Type 0
Reader A = Bytes → Result BepError (A × Bytes)

-- `read_exact`, with its error mapped: the stream may end too early.
unfoldable pub read_exact : ℕ → Reader Bytes
read_exact n s = if leb n (length s) then ok (take n s, drop n s) else err BepError.network_error

abbrev pub number_and_rest : Bytes × Bytes → Result BepError (ℕ × Bytes)
number_and_rest (b, s) = ok (from_be_bytes 0 b, s)

-- `read_u16` and `read_u32`, for their number of bytes.
unfoldable pub read_uint : ℕ → Reader ℕ
unfolding read_exact
read_uint n s = read_exact n s >>= number_and_rest

abbrev pub read_sized : ℕ × Bytes → Result BepError (Bytes × Bytes)
read_sized (len, s) = guard (leb len max_message_size) BepError.peer_bad_message >> read_exact len s

-- `read_header_prefixed`, with a length of two bytes, and `read_body_prefixed`, with one of four.
unfoldable pub read_prefixed : ℕ → Reader Bytes
unfolding read_uint
read_prefixed width s = read_uint width s >>= read_sized

-- `write_header_prefixed` and `write_body_prefixed`: what they write.
unfoldable pub prefixed : ℕ → Bytes → Result BepError Bytes
prefixed width content =
    if ltb (length content) (256 ^ width)
    then ok (to_be_bytes width (length content) ++ content)
    else err BepError.internal

module _ (P : FramePackages) where
  abbrev pub check_size : ℕ → Bytes → Result BepError Bytes
  check_size size found = guard (length found == size) BepError.peer_bad_message >> ok found

  abbrev pub decompress_sized : ℕ × Bytes → Result BepError Bytes
  decompress_sized (size, compressed) =
      guard (leb size max_message_size) BepError.peer_bad_message
      >> (ok_or (P.decompress compressed size) BepError.peer_bad_message >>= check_size size)

  unfoldable pub decompress_lz4 : Bytes → Result BepError Bytes
  decompress_lz4 content =
      if ltb (length content) 4
      then err BepError.peer_bad_message
      else decompress_sized (from_be_bytes 0 (take 4 content), drop 4 content)

  -- `none` is the panic on a body of 4 GiB or more.
  unfoldable pub compress_lz4 : Bytes → Option Bytes
  compress_lz4 content =
      if ltb (length content) u32_mod
      then some (to_be_bytes 4 (length content) ++ P.compress content)
      else none

  abbrev pub unpack : Header → Bytes → Result BepError Bytes
  unpack header body = if eq_ℤ header.compression lz4 then decompress_lz4 body else ok body

  abbrev pub with_body : Header → Bytes × Bytes → Result BepError (RawMessage × Bytes)
  with_body header (body, s) =
      unpack header body >>= λ b. ok (record { header = header; body = b }, s)

  abbrev pub with_header : Bytes × Bytes → Result BepError (RawMessage × Bytes)
  with_header (header_buf, s) =
      ok_or (P.decode_header header_buf) BepError.peer_bad_message >>= λ header.
      read_prefixed 4 s >>= with_body header

  unfoldable pub read_message : Reader RawMessage
  unfolding read_prefixed decompress_lz4
  read_message s = read_prefixed 2 s >>= with_header

  -- What `write_message` writes: `none` is the panic of `compress_lz4`.
  abbrev pub frame : Header → Bytes → Result BepError Bytes
  frame header body =
      prefixed 2 (P.encode_header header) >>= λ h. prefixed 4 body >>= λ b. ok (h ++ b)

  abbrev pub frame_packed : Header → Option Bytes → Option (Result BepError Bytes)
  frame_packed header none = none
  frame_packed header (some packed) = some (frame header packed)

  unfoldable pub write_message : Header → Bytes → (compress : Bool) → Option (Result BepError Bytes)
  unfolding prefixed compress_lz4
  write_message header body true =
      frame_packed (record header { compression = lz4 }) (compress_lz4 body)
  write_message header body false = some (frame header body)

  -- What `send_hello` writes; `none` is its panic.
  unfoldable pub send_hello : Hello → Option Bytes
  send_hello hello =
      let encoded = P.encode_hello hello in
      if ltb (length encoded) (2 ^ 16)
      then some (to_be_bytes 4 hello_magic ++ to_be_bytes 2 (length encoded) ++ encoded)
      else none

  abbrev pub is_nonempty : Bytes → Bool
  is_nonempty [] = false
  is_nonempty (b ∷ s) = true

  abbrev pub checked_hello : Bytes × Bytes → Result BepError (Hello × Bytes)
  checked_hello (buf, s) = ok_or (P.decode_hello buf) BepError.peer_bad_message >>= λ hello.
      guard (is_nonempty hello.client_name) BepError.peer_bad_hello
      >> guard (is_nonempty hello.device_name) BepError.peer_bad_hello
      >> ok (hello, s)

  abbrev pub sized_hello : ℕ × Bytes → Result BepError (Hello × Bytes)
  sized_hello (len, s) =
      guard (leb len max_hello_size) BepError.peer_bad_hello >> (read_exact len s >>= checked_hello)

  abbrev pub magic_hello : ℕ × Bytes → Result BepError (Hello × Bytes)
  magic_hello (magic, s) =
      guard (magic == hello_magic) BepError.peer_bad_hello >> (read_uint 2 s >>= sized_hello)

  unfoldable pub recv_hello : Reader Hello
  unfolding read_uint read_exact
  recv_hello s = read_uint 4 s >>= magic_hello
