-- ===== src/Frontend/Response/Story.antt =====
-- What the tether's frames have made of a response, and what the reader has seen of it.
use anvil_ring.Base.{
  ℕ, ◌≡◌, refl, sym, ap, ◌∙◌, ◌⊎◌, true, false, Option, none, some, List, [], ◌∷◌, ◌++◌, append-nil,
  append_assoc, Bytes, nat_key, ◌==◌, ==_iff, arith, Bool-cases, inl, inr,
}
use anvil_ring.Frames.{
  Frame, hello, welcome, open_frame, data_frame, resp_head, end_frame, half_end, ping, pong,
  go_away,
}
use anvil_ring.Hub.State.{StreamState, ResponseHead, pending, complete, failed}
use anvil_ring.Hub.Session.{complete_stream, fail_stream, finish_upload}
use anvil_ring.Hub.Loop.{accepts, parse_head, final_head}
use anvil_ring.Hub.Loop.Stream.{View, given_head, given_data, given_end, registered, deliver}
use anvil_ring.Frontend.Response.{Reader, reading, at_end, interrupted, part_of, data_frames}

part_of-data_frames :
    (id : ℕ) (c : Bytes) (ds : List Bytes)
    → data_frames id (ds ++ (c ∷ [])) ≡ data_frames id ds ++ (data_frame id c ∷ [])
part_of-data_frames id c [] = refl
part_of-data_frames id c (d ∷ ds) = ap (◌∷◌ (data_frame id d)) (part_of-data_frames id c ds)

module _ (http_parse : Bytes → Option (ℕ × ResponseHead))
    (http_build : ResponseHead → Option ResponseHead) (id : ℕ) where
  -- The head is the only thing in its frame, and a final one.
  abbrev pub Heads : Bytes → ResponseHead → Type 0
  Heads head res = parse_head http_parse http_build head ≡ some (res, [])

  -- What has come of the stream after the frames `sent` of its response: it is interrupted, or has failed
  -- or ended without a head, or nothing has come, or a part of the response, or all of it.
  pub data Story (sent : List Frame) (v : View) (rd : Reader) (taken : List Bytes) : Type 0 where
    stopped : rd ≡ interrupted → Story sent v rd taken
    failing : v.0 ≡ false → v.1.outcome ≡ failed → rd ≡ reading → Story sent v rd taken
    headless : v.0 ≡ false → v.1.head ≡ none → rd ≡ reading → Story sent v rd taken
    fresh :
        sent ≡ []
        → v.1.head ≡ none
        → v.1.chunks ≡ []
        → v.1.outcome ≡ pending
        → rd ≡ reading
        → taken ≡ []
        → Story sent v rd taken
    streaming :
        (head : Bytes) (ds : List Bytes) (res : ResponseHead)
        → sent ≡ resp_head id head ∷ data_frames id ds
        → v.0 ≡ true
        → Heads head res
        → v.1.head ≡ some res
        → taken ++ v.1.chunks ≡ ds
        → v.1.outcome ≡ pending
        → rd ≡ reading
        → Story sent v rd taken
    done :
        (head : Bytes) (ds : List Bytes) (res : ResponseHead) (rest : List Frame)
        → sent ≡ resp_head id head ∷ (data_frames id ds ++ (end_frame id [] ∷ rest))
        → v.0 ≡ false
        → Heads head res
        → v.1.head ≡ some res
        → taken ++ v.1.chunks ≡ ds
        → v.1.outcome ≡ complete
        → (rd ≡ reading) ⊎ ((rd ≡ at_end) × (v.1.chunks ≡ []))
        → Story sent v rd taken

  -- A stream that is not registered changes no more.
  grow-off :
      (sent more : List Frame) (st : StreamState) (rd : Reader) (taken : List Bytes)
      → Story sent (false, st) rd taken
      → Story (sent ++ more) (false, st) rd taken
  grow-off sent more st rd taken (stopped e) = stopped e
  grow-off sent more st rd taken (failing a b c) = failing a b c
  grow-off sent more st rd taken (headless a b c) = headless a b c
  grow-off sent more st rd taken (fresh a b c d e f) = headless refl b e
  grow-off sent more st rd taken (streaming head ds res e on p h q o r) = absurd ground (arith, on)
  grow-off sent more st rd taken (done head ds res rest e off p h q o r) =
      done head ds res (rest ++ more)
        (ap (λ x. x ++ more) e
          ∙ ap (◌∷◌ (resp_head id head))
              (append_assoc (data_frames id ds) (end_frame id [] ∷ rest) more))
        refl p h q o r

  -- A part of the response for a stream that is registered.
  final-Heads :
      (st : StreamState) (head : Bytes) (res : ResponseHead)
      → final_head http_parse http_build st (parse_head http_parse http_build head) ≡ some res
      → Heads head res
  final-Heads st head res e =
      elim (parse_head http_parse http_build head)
          as (λ o. final_head http_parse http_build st o ≡ some res → o ≡ some (res, [])) [
            | none ↦ λ k. ground (arith, k)
            | some (r, []) ↦ λ k. ground (arith, k)
            | some (r, b ∷ bs) ↦ λ k. ground (arith, k)
          ]
        e

  head-again :
      (st : StreamState) (o : Option (ResponseHead × Bytes)) (res : ResponseHead)
      → st.head ≡ some res
      → final_head http_parse http_build st o ≡ none
  head-again st none res e = refl
  head-again st (some (r, b)) res e = ground (arith, e)

  given-first :
      (head : Bytes) (st : StreamState) (o : Option ResponseHead)
      → ((res : ResponseHead) → o ≡ some res → Heads head res)
      → st.chunks ≡ []
      → st.outcome ≡ pending
      → Story (resp_head id head ∷ []) (given_head st o) reading []
  unfolding fail_stream finish_upload
  given-first head st none k c p = failing refl refl refl
  given-first head st (some res) k c p = streaming head [] res refl refl (k res refl) refl c p refl

  given-early :
      (chunk : Bytes) (st : StreamState)
      → st.head ≡ none
      → Story (data_frame id chunk ∷ []) (given_data st chunk) reading []
  unfolding accepts fail_stream finish_upload
  given-early chunk st h = rw h (failing refl refl refl)

  given-over :
      (reason : Bytes) (st : StreamState)
      → st.head ≡ none
      → Story (end_frame id reason ∷ []) (given_end st reason) reading []
  unfolding complete_stream fail_stream finish_upload
  given-over [] st h = headless refl h refl
  given-over (b ∷ bs) st h = failing refl refl refl

  -- The first frame of the response.
  grow-fresh :
      (f : Frame) (st : StreamState)
      → st.head ≡ none
      → st.chunks ≡ []
      → st.outcome ≡ pending
      → Story (part_of id f) (registered http_parse http_build id f st) reading []
  unfolding part_of
  grow-fresh (resp_head i head) st h c p = elim (Bool-cases (i == id)) [
    | inl q ↦
        rw ((==_iff i id).0 q, (==_iff id id).1 refl)
          (given-first head st
            (final_head http_parse http_build st (parse_head http_parse http_build head))
            (final-Heads st head) c p)
    | inr q ↦ rw q (fresh refl h c p refl refl)
  ]
  grow-fresh (data_frame i chunk) st h c p = elim (Bool-cases (i == id)) [
    | inl q ↦ rw ((==_iff i id).0 q, (==_iff id id).1 refl) (given-early chunk st h)
    | inr q ↦ rw q (fresh refl h c p refl refl)
  ]
  grow-fresh (end_frame i reason) st h c p = elim (Bool-cases (i == id)) [
    | inl q ↦ rw ((==_iff i id).0 q, (==_iff id id).1 refl) (given-over reason st h)
    | inr q ↦ rw q (fresh refl h c p refl refl)
  ]
  grow-fresh (open_frame i head) st h c p = fresh refl h c p refl refl
  grow-fresh (half_end i) st h c p = fresh refl h c p refl refl
  grow-fresh (hello credential) st h c p = fresh refl h c p refl refl
  grow-fresh (welcome n) st h c p = fresh refl h c p refl refl
  grow-fresh (go_away reason) st h c p = fresh refl h c p refl refl
  grow-fresh ping st h c p = fresh refl h c p refl refl
  grow-fresh pong st h c p = fresh refl h c p refl refl

  -- The response so far, with all that the reader has taken and what waits for it.
  module _ (head : Bytes) (ds : List Bytes) (res : ResponseHead) (st : StreamState)
      (taken : List Bytes) (parses : Heads head res) (has : st.head ≡ some res)
      (all : taken ++ st.chunks ≡ ds) (open_yet : st.outcome ≡ pending) where
    abbrev so_far : List Frame
    so_far = resp_head id head ∷ data_frames id ds

    same-streaming : Story (so_far ++ []) (true, st) reading taken
    same-streaming = streaming head ds res (append-nil so_far) refl parses has all open_yet refl

    more-data :
        (chunk : Bytes)
        → Story (so_far ++ (data_frame id chunk ∷ [])) (given_data st chunk) reading taken
    unfolding fail_stream finish_upload
    more-data chunk = elim (Bool-cases (accepts chunk st)) [
      | inl e ↦ rw e (
          streaming head (ds ++ (chunk ∷ [])) res
            (ap (◌∷◌ (resp_head id head)) (sym (part_of-data_frames id chunk ds))) refl parses has
            (sym (append_assoc taken st.chunks (chunk ∷ [])) ∙ ap (λ x. x ++ (chunk ∷ [])) all)
            open_yet refl)
      | inr e ↦ rw e (failing refl refl refl)
    ]

    more-end :
        (reason : Bytes)
        → Story (so_far ++ (end_frame id reason ∷ [])) (given_end st reason) reading taken
    unfolding complete_stream fail_stream finish_upload
    more-end [] = done head ds res [] refl refl parses has all refl (inl refl)
    more-end (b ∷ bs) = failing refl refl refl

    more-head :
        (more : Bytes)
        → Story
            (so_far ++ (resp_head id more ∷ []))
            (given_head st
              (final_head http_parse http_build st (parse_head http_parse http_build more)))
            reading
            taken
    unfolding fail_stream finish_upload
    more-head more =
        rw (head-again st (parse_head http_parse http_build more) res has) (failing refl refl refl)

    grow-streaming :
        (f : Frame)
        → Story (so_far ++ part_of id f) (registered http_parse http_build id f st) reading taken
    unfolding part_of
    grow-streaming (resp_head i more) = elim (Bool-cases (i == id)) [
      | inl q ↦ rw ((==_iff i id).0 q, (==_iff id id).1 refl) (more-head more)
      | inr q ↦ rw q same-streaming
    ]
    grow-streaming (data_frame i chunk) = elim (Bool-cases (i == id)) [
      | inl q ↦ rw ((==_iff i id).0 q, (==_iff id id).1 refl) (more-data chunk)
      | inr q ↦ rw q same-streaming
    ]
    grow-streaming (end_frame i reason) = elim (Bool-cases (i == id)) [
      | inl q ↦ rw ((==_iff i id).0 q, (==_iff id id).1 refl) (more-end reason)
      | inr q ↦ rw q same-streaming
    ]
    grow-streaming (open_frame i more) = same-streaming
    grow-streaming (half_end i) = same-streaming
    grow-streaming (hello credential) = same-streaming
    grow-streaming (welcome n) = same-streaming
    grow-streaming (go_away reason) = same-streaming
    grow-streaming ping = same-streaming
    grow-streaming pong = same-streaming

  -- Any frame.
  grow-on :
      (sent : List Frame) (f : Frame) (st : StreamState) (rd : Reader) (taken : List Bytes)
      → Story sent (true, st) rd taken
      → Story (sent ++ part_of id f) (registered http_parse http_build id f st) rd taken
  grow-on sent f st rd taken (stopped e) = stopped e
  grow-on sent f st rd taken (failing off b c) = absurd ground (arith, off)
  grow-on sent f st rd taken (headless off b c) = absurd ground (arith, off)
  grow-on sent f st rd taken (fresh a b c d e g) = rw (a, e, g) (grow-fresh f st b c d)
  grow-on sent f st rd taken (streaming head ds res e on p h q o r) =
      rw (e, r) (grow-streaming head ds res st taken p h q o f)
  grow-on sent f st rd taken (done head ds res rest e off p h q o r) = absurd ground (arith, off)

  pub deliver-Story :
      (sent : List Frame) (f : Frame) (v : View) (rd : Reader) (taken : List Bytes)
      → Story sent v rd taken
      → Story (sent ++ part_of id f) (deliver http_parse http_build id f v) rd taken
  deliver-Story sent f (false, st) rd taken y = grow-off sent (part_of id f) st rd taken y
  deliver-Story sent f (true, st) rd taken y = grow-on sent f st rd taken y
