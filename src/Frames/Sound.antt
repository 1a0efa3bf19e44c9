-- ===== src/Frames/Sound.antt =====
-- What `decode` accepts.
use anvil_ring.Base.{
  ℕ, suc, sym, ap, ◌∙◌, ◌/◌, ◌%◌, true, refl, Result-cases, ◌+◌, ◌^◌, ◌≤◌, ◌<◌, ◌≡◌, some, [], ◌∷◌,
  arith, Bytes, IsByte, All, length, length-take, take, ok, Option-cases, inl, inr,
}
use anvil_ring.Text.{from_utf8}
use anvil_ring.Text.Decimal.{from_str_radix, from_str_radix-bounded}
use anvil_ring.Frames.{
  Frame, welcome, hello, open_frame, data_frame, resp_head, end_frame, half_end, ping, pong,
  go_away, header_len, max_payload, decode, decode_body, decode_payload, decode_welcome, encode,
  from_be_u16, from_be_u32, t_hello, t_open, t_data, t_end, t_goaway, t_half_end, t_resp_head,
  is_control, check_control, with_header,
}
use anvil_ring.Frames.RoundTrip.{IsWire}

decode_welcome-IsWire : (payload : Bytes) (f : Frame) → decode_welcome payload ≡ ok f → IsWire f
unfolding decode_welcome
decode_welcome-IsWire payload f h = elim (Option-cases (from_utf8 payload)) [
  | inl bad ↦ ground (arith, bad)
  | inr (s, text) ↦ elim (Option-cases (from_str_radix 10 s)) [
    | inl bad ↦ ground (arith, text, bad)
    | inr (n, e) ↦ ground (arith, text, e, from_str_radix-bounded 10 s n e)
  ]
]

decode_payload-IsWire :
    (kind stream : ℕ) (payload : Bytes) (f : Frame)
    → stream < 65536
    → length payload ≤ max_payload
    → decode_payload kind stream payload ≡ ok f
    → IsWire f
unfolding decode_payload
decode_payload-IsWire kind stream payload f hs h e = ground (arith, decode_welcome-IsWire payload f)

-- The facts behind an accepted frame.
record Parsed (kind stream len : ℕ) (rest : Bytes) (f : Frame) (n : ℕ) : Type 0 where
  capped : len ≤ max_payload
  present : len ≤ length rest
  parsed : decode_payload kind stream (take len rest) ≡ ok f
  total : n ≡ header_len + len
  control : is_control f ≡ true → stream ≡ 0

check_control-ok :
    (stream total : ℕ) (g f : Frame) (n : ℕ)
    → check_control stream total g ≡ ok (some (f, n))
    → (g ≡ f) × (total ≡ n) × (is_control g ≡ true → stream ≡ 0)
check_control-ok stream total g f n e = ground arith

decode_body-Parsed :
    (kind stream len : ℕ) (rest : Bytes) (f : Frame) (n : ℕ)
    → decode_body kind stream len rest ≡ ok (some (f, n))
    → Parsed kind stream len rest f n
unfolding decode_body
decode_body-Parsed kind stream len rest f n e =
    elim (Result-cases (decode_payload kind stream (take len rest))) [
      | inl (g, got) ↦ ground (arith, got, check_control-ok stream (header_len + len) g f n)
      | inr (x, bad) ↦ ground (arith, bad)
    ]

-- The frames whose payload is kept as it came; the decoder drops the payload of a PING or PONG and
-- reads the number of a WELCOME.
abbrev pub IsVerbatim : Frame → Type 0
IsVerbatim (welcome lease_secs) = ⊥
IsVerbatim ping = ⊥
IsVerbatim pong = ⊥
IsVerbatim _ = Unit

-- The header and the payload that a verbatim frame was read from.
abbrev ReadFrom : Frame → ℕ → ℕ → Bytes → Type 0
ReadFrom (hello credential) k s p = (k ≡ t_hello) × (p ≡ credential)
ReadFrom (welcome lease_secs) k s p = Unit
ReadFrom (open_frame stream head) k s p = (k ≡ t_open) × (s ≡ stream) × (p ≡ head)
ReadFrom (data_frame stream chunk) k s p = (k ≡ t_data) × (s ≡ stream) × (p ≡ chunk)
ReadFrom (resp_head stream head) k s p = (k ≡ t_resp_head) × (s ≡ stream) × (p ≡ head)
ReadFrom (end_frame stream reason) k s p = (k ≡ t_end) × (s ≡ stream) × (p ≡ reason)
ReadFrom (half_end stream) k s p = (k ≡ t_half_end) × (s ≡ stream) × (p ≡ [])
ReadFrom ping k s p = Unit
ReadFrom pong k s p = Unit
ReadFrom (go_away reason) k s p = (k ≡ t_goaway) × (p ≡ reason)

no_bytes : (p : Bytes) → length p ≡ 0 → p ≡ []
no_bytes [] h = refl
no_bytes (b ∷ bs) h = absurd (omega arith)

decode_payload-ReadFrom :
    (kind stream : ℕ) (payload : Bytes) (f : Frame)
    → decode_payload kind stream payload ≡ ok f
    → ReadFrom f kind stream payload
unfolding decode_payload decode_welcome
decode_payload-ReadFrom kind stream payload (half_end s) e = ground (arith, no_bytes payload)
decode_payload-ReadFrom kind stream payload (hello credential) e = ground arith
decode_payload-ReadFrom kind stream payload _ e = ground arith

ReadFrom-verbatim :
    (f : Frame) (kind stream : ℕ) (payload : Bytes)
    → ReadFrom f kind stream payload
    → (is_control f ≡ true → stream ≡ 0)
    → IsVerbatim f
    → encode f ≡ with_header kind stream payload
unfolding encode
ReadFrom-verbatim (hello credential) kind stream payload (k, p) c v = rw (k, p, c refl)
ReadFrom-verbatim (welcome lease_secs) kind stream payload r c v = absurd v
ReadFrom-verbatim (open_frame s head) kind stream payload (k, e, p) c v = rw (k, e, p)
ReadFrom-verbatim (data_frame s chunk) kind stream payload (k, e, p) c v = rw (k, e, p)
ReadFrom-verbatim (resp_head s head) kind stream payload (k, e, p) c v = rw (k, e, p)
ReadFrom-verbatim (end_frame s reason) kind stream payload (k, e, p) c v = rw (k, e, p)
ReadFrom-verbatim (half_end s) kind stream payload (k, e, p) c v = rw (k, e, p)
ReadFrom-verbatim ping kind stream payload r c v = absurd v
ReadFrom-verbatim pong kind stream payload r c v = absurd v
ReadFrom-verbatim (go_away reason) kind stream payload (k, p) c v = rw (k, p, c refl)

take_seven :
    (kind s1 s0 l3 l2 l1 l0 len : ℕ) (rest : Bytes)
    → take (header_len + len) (kind ∷ s1 ∷ s0 ∷ l3 ∷ l2 ∷ l1 ∷ l0 ∷ rest)
      ≡ kind ∷ s1 ∷ s0 ∷ l3 ∷ l2 ∷ l1 ∷ l0 ∷ take len rest
take_seven kind s1 s0 l3 l2 l1 l0 len rest =
    let seven : header_len + len ≡ suc (suc (suc (suc (suc (suc (suc len)))))) = omega arith in
    ap (λ (m : ℕ). take m (kind ∷ s1 ∷ s0 ∷ l3 ∷ l2 ∷ l1 ∷ l0 ∷ rest)) seven

be_bytes :
    (l3 l2 l1 l0 m : ℕ)
    → All IsByte (l3 ∷ l2 ∷ l1 ∷ l0 ∷ [])
    → m ≡ from_be_u32 l3 l2 l1 l0
    → (m % 2 ^ 32 / 16777216 % 256 ≡ l3)
      × (m % 2 ^ 32 / 65536 % 256 ≡ l2)
      × (m % 2 ^ 32 / 256 % 256 ≡ l1)
      × (m % 2 ^ 32 % 256 ≡ l0)
be_bytes l3 l2 l1 l0 m b e = omega arith

-- The header bytes are the ones that `to_be_bytes` writes.
with_header-take :
    (kind s1 s0 l3 l2 l1 l0 : ℕ) (rest : Bytes)
    → All IsByte (s1 ∷ s0 ∷ l3 ∷ l2 ∷ l1 ∷ l0 ∷ [])
    → from_be_u32 l3 l2 l1 l0 ≤ length rest
    → with_header kind (from_be_u16 s1 s0) (take (from_be_u32 l3 l2 l1 l0) rest)
      ≡ take (header_len + from_be_u32 l3 l2 l1 l0) (kind ∷ s1 ∷ s0 ∷ l3 ∷ l2 ∷ l1 ∷ l0 ∷ rest)
unfolding with_header
with_header-take kind s1 s0 l3 l2 l1 l0 rest b h =
    let len : ℕ = from_be_u32 l3 l2 l1 l0 in
    ground (
      arith,
      length-take len rest,
      take_seven kind s1 s0 l3 l2 l1 l0 len rest,
      be_bytes l3 l2 l1 l0 (length (take len rest)),
    )

decode-cons :
    (kind s1 s0 l3 l2 l1 l0 : ℕ) (rest : Bytes)
    → decode (kind ∷ s1 ∷ s0 ∷ l3 ∷ l2 ∷ l1 ∷ l0 ∷ rest)
      ≡ decode_body kind (from_be_u16 s1 s0) (from_be_u32 l3 l2 l1 l0) rest
unfolding decode
decode-cons kind s1 s0 l3 l2 l1 l0 rest = refl

-- A frame is made of bytes that are there.
pub decode-consumed :
    (buf : Bytes) (f : Frame) (n : ℕ) → decode buf ≡ ok (some (f, n)) → n ≤ length buf
decode-consumed (kind ∷ s1 ∷ s0 ∷ l3 ∷ l2 ∷ l1 ∷ l0 ∷ rest) f n e =
    let p =
      decode_body-Parsed kind (from_be_u16 s1 s0) (from_be_u32 l3 l2 l1 l0) rest f n
        (sym (decode-cons kind s1 s0 l3 l2 l1 l0 rest) ∙ e) in
    omega (arith, p.total, p.present)
decode-consumed _ f n e = unfold decode in cc

-- A frame decoded from bytes is one that the header can describe; it takes the header at least and
-- no more than is there, and it is encoded to what was consumed if it is of a kind with one encoding.
pub decode-IsWire :
    (buf : Bytes) (f : Frame) (n : ℕ)
    → All IsByte buf
    → decode buf ≡ ok (some (f, n))
    → IsWire f × (header_len ≤ n) × (n ≤ length buf) × (IsVerbatim f → encode f ≡ take n buf)
decode-IsWire (kind ∷ s1 ∷ s0 ∷ l3 ∷ l2 ∷ l1 ∷ l0 ∷ rest) f n (_, (b1, (b0, b))) e =
    let p =
      decode_body-Parsed kind (from_be_u16 s1 s0) (from_be_u32 l3 l2 l1 l0) rest f n
        (sym (decode-cons kind s1 s0 l3 l2 l1 l0 rest) ∙ e) in
    let len : ℕ = from_be_u32 l3 l2 l1 l0 in
    let payload : Bytes = take len rest in
    (
      decode_payload-IsWire kind (from_be_u16 s1 s0) payload f (omega arith)
          (omega (arith, p.capped, length-take len rest)) p.parsed,
      omega (arith, p.total),
      omega (arith, p.total, p.present),
      λ v.
          ReadFrom-verbatim f kind (from_be_u16 s1 s0) payload
            (decode_payload-ReadFrom kind (from_be_u16 s1 s0) payload f p.parsed) p.control v
          ∙ with_header-take kind s1 s0 l3 l2 l1 l0 rest
              (b1, (b0, (b.0, (b.1.0, (b.1.1.0, (b.1.1.1.0, tt)))))) p.present
          ∙ ap (λ (m : ℕ). take m (kind ∷ s1 ∷ s0 ∷ l3 ∷ l2 ∷ l1 ∷ l0 ∷ rest)) (sym p.total),
    )
decode-IsWire _ f n b e = unfold decode in cc
