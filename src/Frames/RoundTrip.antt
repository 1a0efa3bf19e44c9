-- ===== src/Frames/RoundTrip.antt =====
-- What `encode` writes, `decode` reads back.
use anvil_ring.Base.{
  ℕ, ◌+◌, ◌/◌, ◌%◌, ◌^◌, ◌≤◌, ◌<◌, ◌≡◌, refl, sym, ap, ap₂, ◌∙◌, some, [], ◌++◌, arith, Bytes,
  length, length-append, take-append, ok, ◌>>=◌,
}
use anvil_ring.Text.{from_utf8-ascii}
use anvil_ring.Text.Decimal.{
  to_decimal, from_str_radix-to_decimal, to_decimal-ascii, length-to_decimal,
}
use anvil_ring.Frames.{
  Frame, hello, welcome, open_frame, data_frame, resp_head, end_frame, half_end, ping, pong,
  go_away, header_len, max_payload, with_header, encode, decode, decode_body, decode_payload,
  decode_welcome, check_control, t_hello, t_welcome, t_open, t_data, t_end, t_ping, t_pong,
  t_goaway, t_half_end, t_resp_head, from_be_u16, from_be_u32,
}

-- The frames that the header can describe: ids of 16 bits, payloads within the cap, a u64 lease.
abbrev pub IsWire : Frame → Type 0
IsWire (hello credential) = length credential ≤ max_payload
IsWire (welcome lease_secs) = lease_secs < 2 ^ 64
IsWire (open_frame stream head) = (stream < 65536) × (length head ≤ max_payload)
IsWire (data_frame stream chunk) = (stream < 65536) × (length chunk ≤ max_payload)
IsWire (resp_head stream head) = (stream < 65536) × (length head ≤ max_payload)
IsWire (end_frame stream reason) = (stream < 65536) × (length reason ≤ max_payload)
IsWire (half_end stream) = stream < 65536
IsWire ping = Unit
IsWire pong = Unit
IsWire (go_away reason) = length reason ≤ max_payload

pub be_u16 : (n : ℕ) → n < 65536 → from_be_u16 (n / 256 % 256) (n % 256) ≡ n
be_u16 n h = omega arith

pub be_u32 :
    (n : ℕ)
    → n < 2 ^ 32
    → from_be_u32 (n / 16777216 % 256) (n / 65536 % 256) (n / 256 % 256) (n % 256) ≡ n
be_u32 n h = omega arith

decode_body-exact :
    (kind stream : ℕ) (payload rest : Bytes)
    → length payload ≤ max_payload
    → decode_body kind stream (length payload) (payload ++ rest)
      ≡ (decode_payload kind stream payload >>= check_control stream (header_len + length payload))
unfolding decode_body
decode_body-exact kind stream payload rest h =
    ground (arith, length-append payload rest, take-append payload rest)

pub decode-with_header :
    (kind stream : ℕ) (payload rest : Bytes)
    → stream < 65536
    → length payload ≤ max_payload
    → decode (with_header kind stream payload ++ rest)
      ≡ (decode_payload kind stream payload >>= check_control stream (header_len + length payload))
unfolding decode with_header
decode-with_header kind stream payload rest hs h =
    ap₂ (λ (s n : ℕ). decode_body kind s n (payload ++ rest)) (be_u16 stream hs)
      (be_u32 (length payload % 2 ^ 32) (omega arith) ∙ short)
    ∙ decode_body-exact kind stream payload rest h
  where
    short : length payload % 2 ^ 32 ≡ length payload
    short = omega arith

welcome_payload : (n : ℕ) → n < 2 ^ 64 → decode_welcome (to_decimal n) ≡ ok (welcome n)
unfolding decode_welcome
welcome_payload n h =
    rw (from_utf8-ascii (to_decimal n) (to_decimal-ascii n h)) (rw (from_str_radix-to_decimal n h))

length-with_header :
    (kind stream : ℕ) (payload : Bytes)
    → length (with_header kind stream payload) ≡ header_len + length payload
unfolding with_header
length-with_header kind stream payload = omega arith

read :
    (kind stream : ℕ) (payload rest : Bytes) (f : Frame)
    → stream < 65536
    → length payload ≤ max_payload
    → decode_payload kind stream payload ≡ ok f
    → check_control stream (header_len + length payload) f
      ≡ ok (some (f, header_len + length payload))
    → decode (with_header kind stream payload ++ rest)
      ≡ ok (some (f, length (with_header kind stream payload)))
read kind stream payload rest f hs h parsed control =
    decode-with_header kind stream payload rest hs h
    ∙ ap (λ r. r >>= check_control stream (header_len + length payload)) parsed
    ∙ control
    ∙ ap (λ (n : ℕ). ok (some (f, n))) (sym (length-with_header kind stream payload))

-- A frame that the header can describe, in front of any bytes, is read back, and exactly its own
-- bytes are consumed.
pub decode-encode :
    (f : Frame) (rest : Bytes)
    → IsWire f
    → decode (encode f ++ rest) ≡ ok (some (f, length (encode f)))
unfolding encode decode_payload
decode-encode (hello credential) rest h = read t_hello 0 credential rest _ (omega arith) h refl refl
decode-encode (welcome n) rest h =
    read t_welcome 0 (to_decimal n) rest _ (omega arith) (omega (arith, length-to_decimal n))
      (welcome_payload n h) refl
decode-encode (open_frame s head) rest (hs, h) = read t_open s head rest _ hs h refl refl
decode-encode (data_frame s chunk) rest (hs, h) = read t_data s chunk rest _ hs h refl refl
decode-encode (resp_head s head) rest (hs, h) = read t_resp_head s head rest _ hs h refl refl
decode-encode (end_frame s reason) rest (hs, h) = read t_end s reason rest _ hs h refl refl
decode-encode (half_end s) rest hs = read t_half_end s [] rest _ hs (omega arith) refl refl
decode-encode ping rest h = read t_ping 0 [] rest _ (omega arith) (omega arith) refl refl
decode-encode pong rest h = read t_pong 0 [] rest _ (omega arith) (omega arith) refl refl
decode-encode (go_away reason) rest h = read t_goaway 0 reason rest _ (omega arith) h refl refl
