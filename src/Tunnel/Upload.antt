-- ===== src/Tunnel/Upload.antt =====
-- A caller's upload from the hub's task to the body that the engine reads.
use anvil_ring.Base.{
  ℕ, ◌≤◌, ◌<◌, ◌≡◌, refl, sym, ap, ap₂, ◌∙◌, Bool, true, false, some, List, [], ◌∷◌, ◌++◌,
  append-nil, append_assoc, All, Bytes, get, nat_key, length, arith, ==_iff, ok,
}
use anvil_ring.Frames.{Frame, data_frame, half_end, encode}
use anvil_ring.Frames
use anvil_ring.Frames.RoundTrip.{IsWire, decode-encode}
use anvil_ring.Socket.{binary, whole}
use anvil_ring.Hub.Upload.{BodyFrame, chunk, trailers, broken_body, upload_frames, upload_result}
use anvil_ring.Tunnel.{StreamHandle, Tether, incoming, decode_message}
use anvil_ring.Tunnel.Pump.{request_body, BodyEnd, waiting, clean, behind}
use anvil_ring.Tunnel.Bounds.{Sound}
use anvil_ring.Tunnel.Steps.{Run, inputs_of, input_of, input_in}
use anvil_ring.Tunnel.Order.{Run-in_order}

-- The inputs that the frames are for the stream `id` when each comes as a binary message.
abbrev pub wire_inputs : ℕ → List Frame → List Bytes
wire_inputs id [] = []
wire_inputs id (f ∷ fs) = inputs_of id (incoming (binary (encode f))) ++ wire_inputs id fs

-- The bytes that the caller's body has.
abbrev pub body_chunks : List BodyFrame → List Bytes
body_chunks [] = []
body_chunks (chunk [] ∷ body) = body_chunks body
body_chunks (chunk (b ∷ bs) ∷ body) = (b ∷ bs) ∷ body_chunks body
body_chunks (trailers ∷ body) = body_chunks body
body_chunks (broken_body ∷ body) = []

abbrev pub Fits : BodyFrame → Type 0
Fits (chunk bs) = length bs ≤ Frames.max_payload
Fits trailers = Unit
Fits broken_body = Unit

-- The empty input that ends a body that the caller completes.
abbrev finish : List BodyFrame → List Bytes
finish [] = [] ∷ []
finish (chunk bs ∷ body) = finish body
finish (trailers ∷ body) = finish body
finish (broken_body ∷ body) = []

inputs_of-encode :
    (id : ℕ) (f : Frame) → IsWire f → inputs_of id (incoming (binary (encode f))) ≡ input_of id f
unfolding inputs_of decode_message
inputs_of-encode id f w =
    ap (λ bs. input_in id (whole (Frames.decode bs))) (sym (append-nil (encode f)))
    ∙ ap (λ r. input_in id (whole r)) (decode-encode f [] w)

data_input : (id : ℕ) (bs : Bytes) → input_of id (data_frame id bs) ≡ bs ∷ []
unfolding input_of
data_input id bs = ground (arith, ==_iff id id)

half_end_input : (id : ℕ) → input_of id (half_end id) ≡ [] ∷ []
unfolding input_of
half_end_input id = ground (arith, ==_iff id id)

wire_inputs-upload_frames :
    (id : ℕ) (body : List BodyFrame)
    → id < 65536
    → All Fits body
    → wire_inputs id (upload_frames id body) ≡ body_chunks body ++ finish body
unfolding upload_frames
wire_inputs-upload_frames id [] l h =
    ap (◌++ []) (inputs_of-encode id (half_end id) l ∙ half_end_input id)
wire_inputs-upload_frames id (chunk [] ∷ body) l (k, h) = wire_inputs-upload_frames id body l h
wire_inputs-upload_frames id (chunk (b ∷ bs) ∷ body) l (k, h) =
    ap (◌++ wire_inputs id (upload_frames id body))
      (inputs_of-encode id (data_frame id (b ∷ bs)) (l, k) ∙ data_input id (b ∷ bs))
    ∙ ap ((b ∷ bs) ∷◌) (wire_inputs-upload_frames id body l h)
wire_inputs-upload_frames id (trailers ∷ body) l (k, h) = wire_inputs-upload_frames id body l h
wire_inputs-upload_frames id (broken_body ∷ body) l (k, h) = refl

-- Where the body stands once the engine has read all the inputs.
abbrev pub end_of : List BodyFrame → BodyEnd
end_of [] = clean
end_of (chunk bs ∷ body) = end_of body
end_of (trailers ∷ body) = end_of body
end_of (broken_body ∷ body) = waiting

request_body-all :
    (body : List BodyFrame)
    → request_body (body_chunks body ++ finish body) false ≡ (body_chunks body, end_of body)
unfolding request_body
request_body-all [] = refl
request_body-all (chunk [] ∷ body) = request_body-all body
request_body-all (chunk (b ∷ bs) ∷ body) = ap (behind (b ∷ bs)) (request_body-all body)
request_body-all (trailers ∷ body) = request_body-all body
request_body-all (broken_body ∷ body) = refl

behind-clean :
    (c : Bytes) (p : List Bytes × BodyEnd) (chunks : List Bytes)
    → behind c p ≡ (chunks, clean)
    → (q : List Bytes) × (p ≡ (q, clean)) × (chunks ≡ c ∷ q)
behind-clean c (q, end) chunks e = (q, ground (arith, e), ground (arith, e))

-- A reader that has read a front of the inputs and sees the clean end has read them all.
request_body-clean :
    (body : List BodyFrame) (read rest : List Bytes) (gone : Bool) (chunks : List Bytes)
    → read ++ rest ≡ body_chunks body ++ finish body
    → request_body read gone ≡ (chunks, clean)
    → (chunks ≡ body_chunks body) × (upload_result body ≡ ok tt)
unfolding request_body upload_result
request_body-clean body [] rest true chunks e f = absurd ground (arith, f)
request_body-clean body [] rest false chunks e f = absurd ground (arith, f)
request_body-clean [] ([] ∷ read) rest gone chunks e f = ground (arith, f)
request_body-clean [] ((c ∷ cs) ∷ read) rest gone chunks e f = ground (arith, e)
request_body-clean (chunk [] ∷ body) (r ∷ read) rest gone chunks e f =
    request_body-clean body (r ∷ read) rest gone chunks e f
request_body-clean (trailers ∷ body) (r ∷ read) rest gone chunks e f =
    request_body-clean body (r ∷ read) rest gone chunks e f
request_body-clean (broken_body ∷ body) (r ∷ read) rest gone chunks e f = ground (arith, e)
request_body-clean (chunk (b ∷ bs) ∷ body) ([] ∷ read) rest gone chunks e f = ground (arith, e)
request_body-clean (chunk (b ∷ bs) ∷ body) ((c ∷ cs) ∷ read) rest gone chunks e f =
    let (q, g, h) = behind-clean (c ∷ cs) (request_body read gone) chunks f in
    ground (arith, h, e, request_body-clean body read rest gone q (ground (arith, e)) g)

-- The setting: the stream `id` has been opened with the pump of `h`, the session has run, the
-- tether was sent a front of what the hub's upload task sends, and the pump still has the stream.
module _ (id : ℕ) (h k : StreamHandle) (body : List BodyFrame) (ins outs later : List Bytes)
    (s s' : Tether) (sound : Sound s) (there : get id s.streams ≡ some h) (empty : h.held ≡ [])
    (run : Run id s ins outs s') (still_there : get id s'.streams ≡ some k) (same : k.pump ≡ h.pump)
    (reads : k.receiving ≡ true) (small : id < 65536) (fits : All Fits body)
    (sent_part : ins ++ later ≡ wire_inputs id (upload_frames id body)) where
  front : outs ++ (k.held ++ later) ≡ body_chunks body ++ finish body
  front =
      sym (append_assoc outs k.held later)
      ∙ ap (◌++ later)
          (Run-in_order id h k ins outs s s' sound there empty run still_there same reads)
      ∙ sent_part
      ∙ wire_inputs-upload_frames id body small fits

  -- When an engine's connection sees the clean end of a request's body, from a stream whose pump
  -- took all its inputs at the start and still reads, after any run of the tether's session in which
  -- the tether was sent a front of what the hub's upload task sends for a stream id of 16 bits and
  -- chunks within the frame cap, the caller's body was complete, and the connection has read exactly
  -- its bytes, in order.
  pub upload-genuine :
      (gone : Bool) (chunks : List Bytes)
      → request_body outs gone ≡ (chunks, clean)
      → (chunks ≡ body_chunks body) × (upload_result body ≡ ok tt)
  upload-genuine gone chunks e = request_body-clean body outs (k.held ++ later) gone chunks front e

  -- In the setting of the clean end, when all that the upload task sends has been sent and nothing
  -- waits for the pump, the engine's connection has read all of the caller's bytes in order, and sees
  -- the clean end if the caller's body was complete.
  pub upload-arrives :
      k.held ≡ [] → later ≡ [] → request_body outs false ≡ (body_chunks body, end_of body)
  upload-arrives e f =
      ap (λ bs. request_body bs false)
        (sym (append-nil outs) ∙ ap (outs ++◌) (ap₂ (λ a b. a ++ b) (sym e) (sym f)) ∙ front)
      ∙ request_body-all body
