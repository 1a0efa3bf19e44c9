-- ===== src/Frames/Prefix.antt =====
-- `decode` on the front of a longer input.
use anvil_ring.Base.{
  ℕ, ◌≡◌, ◌≢◌, refl, some, none, [], ◌∷◌, ◌++◌, arith, Bytes, length, length-append, take-append_le,
  ok, Result-cases, inl, inr, append-nil,
}
use anvil_ring.Frames.{Frame, encode, decode, decode_body, from_be_u32}
use anvil_ring.Frames.RoundTrip.{IsWire, decode-encode}
use anvil_ring.Frames.Sound.{decode-consumed}

-- Once `decode` has answered with a frame or an error, more input does not change the answer.
pub decode-append : (buf more : Bytes) → decode buf ≢ ok none → decode (buf ++ more) ≡ decode buf
unfolding decode
decode-append (kind ∷ s1 ∷ s0 ∷ l3 ∷ l2 ∷ l1 ∷ l0 ∷ rest) more h =
    unfold decode_body in
    ground (arith, length-append rest more, take-append_le (from_be_u32 l3 l2 l1 l0) rest more)
decode-append _ more h = absurd (h refl)

-- Of a frame that the header can describe and that has not arrived whole, nothing is decoded and
-- nothing is consumed.
pub decode_partial :
    (f : Frame) (front : Bytes) (x : ℕ) (back : Bytes)
    → IsWire f
    → encode f ≡ front ++ (x ∷ back)
    → decode front ≡ ok none
decode_partial f front x back w e = elim (Result-cases (decode front)) [
  | inl (none, r) ↦ r
  | inl (some (g, n), r) ↦ ground (
    arith,
    whole,
    decode-append front (x ∷ back),
    decode-consumed front g n r,
    length-append front (x ∷ back),
  )
  | inr (bad, r) ↦ cc (whole, decode-append front (x ∷ back) (λ q. cc), r)
]
  where
    whole : decode (front ++ (x ∷ back)) ≡ ok (some (f, length (front ++ (x ∷ back))))
    whole = rw (append-nil, e) at (decode-encode f [] w)
