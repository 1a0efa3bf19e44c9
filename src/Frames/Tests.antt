-- ===== src/Frames/Tests.antt =====
-- The theorems on frames at concrete inputs, and runs of the codec.
use anvil_ring.Base.{◌≤◌, ◌≡◌, refl, some, none, [], ◌∷◌, ◌++◌, arith, Bytes, length, take, ok, err}
use anvil_ring.Text.{from_utf8}
use anvil_ring.Text.Decimal.{to_decimal, from_str_radix}
use anvil_ring.Frames.{
  Frame, data_frame, ping, welcome, malformed, too_long, encode, decode, header_len,
}
use anvil_ring.Frames.RoundTrip.{IsWire, decode-encode}
use anvil_ring.Frames.Prefix.{decode-append, decode_partial}
use anvil_ring.Frames.Sound.{decode-IsWire, IsVerbatim}

abbrev chunk : Frame
chunk = data_frame 258 (7 ∷ 8 ∷ [])

abbrev chunk_bytes : Bytes
chunk_bytes = 4 ∷ 1 ∷ 2 ∷ 0 ∷ 0 ∷ 0 ∷ 2 ∷ 7 ∷ 8 ∷ []

encode-chunk : encode chunk ≡ chunk_bytes
unfolding encode
encode-chunk = refl

decode-chunk : decode chunk_bytes ≡ ok (some (chunk, 9))
unfolding decode
decode-chunk = refl

decode-lease : decode (encode (welcome 900)) ≡ ok (some (welcome 900, 10))
unfolding encode decode to_decimal from_utf8 from_str_radix
decode-lease = refl

-- A PING may carry bytes, which are dropped; one that names a stream is refused.
decode-ping : decode (6 ∷ 0 ∷ 0 ∷ 0 ∷ 0 ∷ 0 ∷ 1 ∷ 9 ∷ []) ≡ ok (some (ping, 8))
unfolding decode
decode-ping = refl

decode-ping_stream :
    decode (6 ∷ 0 ∷ 5 ∷ 0 ∷ 0 ∷ 0 ∷ 0 ∷ []) ≡ err (malformed "control frame with nonzero stream id")
unfolding decode
decode-ping_stream = refl

decode-too_long : decode (4 ∷ 0 ∷ 1 ∷ 255 ∷ 255 ∷ 255 ∷ 255 ∷ []) ≡ err (too_long 4294967295)
unfolding decode
decode-too_long = refl

decode-encode_example :
    decode (encode (welcome 0) ++ (9 ∷ [])) ≡ ok (some (welcome 0, length (encode (welcome 0))))
decode-encode_example = decode-encode (welcome 0) (9 ∷ []) (omega arith)

decode-append_example : decode (chunk_bytes ++ (1 ∷ [])) ≡ decode chunk_bytes
decode-append_example = decode-append chunk_bytes (1 ∷ []) (λ e. cc (decode-chunk))

decode_partial_example : decode (4 ∷ 1 ∷ 2 ∷ 0 ∷ 0 ∷ 0 ∷ 2 ∷ 7 ∷ []) ≡ ok none
decode_partial_example =
    decode_partial chunk (4 ∷ 1 ∷ 2 ∷ 0 ∷ 0 ∷ 0 ∷ 2 ∷ 7 ∷ []) 8 [] (omega arith) encode-chunk

decode-IsWire_example :
    IsWire chunk
    × (header_len ≤ 9)
    × (9 ≤ length chunk_bytes)
    × (IsVerbatim chunk → encode chunk ≡ take 9 chunk_bytes)
decode-IsWire_example = decode-IsWire chunk_bytes chunk 9 (omega arith) decode-chunk
