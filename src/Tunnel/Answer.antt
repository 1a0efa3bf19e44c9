-- ===== src/Tunnel/Answer.antt =====
-- A response from the engine's connection to the body that the caller reads.
use anvil_ring.Base.{
  ℕ, ◌≡◌, refl, sym, ap, subst, ◌∙◌, Bool, true, false, Option, none, some, List, [], ◌∷◌, ◌++◌,
  append_assoc, Bytes, get, nat_key, arith,
}
use anvil_ring.Frames.{Frame, data_frame, resp_head, end_frame}
use anvil_ring.Hub.State.{StreamState, ResponseHead, pending}
use anvil_ring.Hub.Session.{mem}
use anvil_ring.Frontend.Response.{World, Move, reading, at_end, moves, response_of, data_frames}
use anvil_ring.Frontend.Response.Story.{Heads}
use anvil_ring.Frontend.Response.Genuine.{moves-genuine}
use anvil_ring.Tunnel.Pump.{
  ResponseFrame, chunk, trailers, broken_body, response_frames, end_reason, pump_frames,
}

-- The bytes that the engine's body has, and whether it comes to its end.
abbrev pub engine_chunks : List ResponseFrame → List Bytes
engine_chunks [] = []
engine_chunks (chunk [] ∷ body) = engine_chunks body
engine_chunks (chunk (b ∷ bs) ∷ body) = (b ∷ bs) ∷ engine_chunks body
engine_chunks (trailers ∷ body) = engine_chunks body
engine_chunks (broken_body ∷ body) = []

abbrev pub unbroken : List ResponseFrame → Bool
unbroken [] = true
unbroken (chunk bs ∷ body) = unbroken body
unbroken (trailers ∷ body) = unbroken body
unbroken (broken_body ∷ body) = false

response_frames-chunks :
    (id : ℕ) (body : List ResponseFrame)
    → response_frames id body ≡ (data_frames id (engine_chunks body), unbroken body)
unfolding response_frames
response_frames-chunks id [] = refl
response_frames-chunks id (chunk [] ∷ body) = response_frames-chunks id body
response_frames-chunks id (chunk (b ∷ bs) ∷ body) =
    ap (λ r. (data_frame id (b ∷ bs) ∷ r.0, r.1)) (response_frames-chunks id body)
response_frames-chunks id (trailers ∷ body) = response_frames-chunks id body
response_frames-chunks id (broken_body ∷ body) = refl

pump_frames-chunks :
    (id : ℕ) (head : Bytes) (body : List ResponseFrame)
    → pump_frames id head body
      ≡ resp_head id head
        ∷ (data_frames id (engine_chunks body) ++ (end_frame id (end_reason (unbroken body)) ∷ []))
unfolding pump_frames
pump_frames-chunks id head body = rw (response_frames-chunks id body) refl

-- Data up to an END is read in one way only.
data_frames-own :
    (id : ℕ) (xs ys : List Bytes) (r q : Bytes) (a b : List Frame)
    → data_frames id xs ++ (end_frame id r ∷ a) ≡ data_frames id ys ++ (end_frame id q ∷ b)
    → (xs ≡ ys) × (r ≡ q)
data_frames-own id [] [] r q a b e = (refl, ground (arith, e))
data_frames-own id [] (y ∷ ys) r q a b e = absurd ground (arith, e)
data_frames-own id (x ∷ xs) [] r q a b e = absurd ground (arith, e)
data_frames-own id (x ∷ xs) (y ∷ ys) r q a b e =
    let (d, k) = data_frames-own id xs ys r q a b (ground (arith, e)) in (ground (arith, e, d), k)

clean_reason : (b : Bool) → end_reason b ≡ [] → b ≡ true
clean_reason true e = refl
clean_reason false e = absurd ground (arith, e)

heads-own :
    (id : ℕ) (h k : Bytes) (a b : List Frame)
    → ◌≡◌ {A = List Frame} (resp_head id h ∷ a) (resp_head id k ∷ b)
    → (h ≡ k) × (a ≡ b)
heads-own id h k a b e = (ground (arith, e), ground (arith, e))

-- The reader's end, when the tether's frames are those of the pump.
pumped :
    (id : ℕ) (head k : Bytes) (body : List ResponseFrame) (taken : List Bytes)
    (rest more : List Frame)
    → (resp_head id k ∷ (data_frames id taken ++ (end_frame id [] ∷ rest))) ++ more
      ≡ pump_frames id head body
    → (unbroken body ≡ true) × (taken ≡ engine_chunks body) × (k ≡ head)
pumped id head k body taken rest more e =
    let (h, a) = heads-own id k head _ _ (
      ap (◌∷◌ (resp_head id k))
        (sym (append_assoc (data_frames id taken) (end_frame id [] ∷ rest) more))
      ∙ e
      ∙ pump_frames-chunks id head body) in
    let (d, r) =
      data_frames-own id taken (engine_chunks body) [] (end_reason (unbroken body)) (rest ++ more)
        [] a in
    (clean_reason (unbroken body) (sym r), d, h)

module _ (http_parse : Bytes → Option (ℕ × ResponseHead))
    (http_build : ResponseHead → Option ResponseHead) (id : ℕ) where
  -- Given a stream of the hub that is registered and to which nothing has come, and any frames of the
  -- tether, polls of the reader and an end of the session, in any order, where the frames for the
  -- stream are the first of those that the pump sends for the engine's response, in order: if the
  -- reader sees the clean end of the body, the engine's body has come to its end, the reader has read
  -- all of its bytes, in order, and the head that the pump sent parses alone.
  pub response-genuine :
      (w : World) (st : StreamState) (later : List Move) (head : Bytes) (body : List ResponseFrame)
      (more : List Frame)
      → mem id w.session.streams ≡ true
      → get id w.session.states ≡ some st
      → st.head ≡ none
      → st.chunks ≡ []
      → st.outcome ≡ pending
      → w.reader ≡ reading
      → w.taken ≡ []
      → response_of id later ++ more ≡ pump_frames id head body
      → (moves http_parse http_build id later w).reader ≡ at_end
      → (unbroken body ≡ true)
        × ((moves http_parse http_build id later w).taken ≡ engine_chunks body)
        × ((res : ResponseHead) × Heads http_parse http_build id head res)
  response-genuine w st later head body more on here h c p r t sent end =
      let (k, res, rest, e, x) =
        moves-genuine http_parse http_build id w st later on here h c p r t end in
      let (u, d, q) = pumped id head k body _ rest more (ap (λ y. y ++ more) (sym e) ∙ sent) in
      (u, d, (res, subst (λ y. Heads http_parse http_build id y res) q x))
