-- ===== src/Frontend/Response/Genuine.antt =====
-- The clean end of a response that the reader sees is the tether's.
use anvil_ring.Base.{
  ℕ, ◌≡◌, refl, sym, ap, subst, ◌∙◌, Bool, true, Option, none, some, List, [], ◌∷◌, ◌++◌,
  append-nil, append_assoc, Bytes, get, nat_key, ==_iff, arith, inl, inr,
}
use anvil_ring.Frames.{Frame, resp_head, end_frame}
use anvil_ring.Hub.State.{Session, StreamState, ResponseHead, pending}
use anvil_ring.Hub.Session.{mem}
use anvil_ring.Hub.Session.Close.{get-update}
use anvil_ring.Hub.Registry.{is_some}
use anvil_ring.Hub.Loop.{put}
use anvil_ring.Hub.Loop.Stream.{View, Shows, deliver, handle_frame-deliver}
use anvil_ring.Frontend.Response.{
  Reader, reading, at_end, interrupted, World, Move, hears, closes, polls, poll_when, read_on, move,
  moves, part_of, response_of, data_frames,
}
use anvil_ring.Frontend.Response.Story.{
  Story, Heads, stopped, failing, headless, fresh, streaming, done, deliver-Story,
}
use anvil_ring.Frontend.Response.Steps.{closed_view, close-Shows, close-Story, poll-Story}

module _ (http_parse : Bytes → Option (ℕ × ResponseHead))
    (http_build : ResponseHead → Option ResponseHead) (id : ℕ) where
  record Good (sent : List Frame) (w : World) : Type 0 where
    view : View
    shows : Shows id w.session view
    story : Story http_parse http_build id sent view w.reader w.taken

  -- The state that a poll leaves.
  put-Shows :
      (s : Session) (r : Bool) (st st' : StreamState)
      → Shows id s (r, st)
      → Shows id (put (λ x. st') id s) (r, st')
  put-Shows s r st st' (a, b) = (a, rw (get-update, (==_iff id id).1 refl, b) refl)

  read_on-Good :
      (sent : List Frame) (budget : Bool) (rd : Reader) (w : World)
      → w.reader ≡ rd
      → Good sent w
      → Good sent (read_on http_parse http_build id budget rd (get id w.session.states) w)
  read_on-Good sent budget at_end w e g = g
  read_on-Good sent budget interrupted w e g = g
  read_on-Good sent budget reading w e g =
      subst (λ o. Good sent (read_on http_parse http_build id budget reading o w)) (sym g.shows.1)
        (record {
          view = (g.view.0, (poll_when (is_some g.view.1.head) budget g.view.1 w.taken).1);
          shows = put-Shows w.session g.view.0 g.view.1 _ g.shows;
          story =
              poll-Story http_parse http_build id sent g.view.0 budget g.view.1 w.taken
                (subst (λ x. Story http_parse http_build id sent g.view x w.taken) e g.story);
        })

  move-Good :
      (sent : List Frame) (a : Move) (w : World)
      → Good sent w
      → Good (sent ++ response_of id (a ∷ [])) (move http_parse http_build id a w)
  unfolding move response_of
  move-Good sent (hears now f) w g = record {
    view = deliver http_parse http_build id f g.view;
    shows = handle_frame-deliver http_parse http_build id now f w.session g.view g.shows;
    story =
        subst
          (λ x.
            Story http_parse http_build id (sent ++ x) (deliver http_parse http_build id f g.view)
              w.reader w.taken)
          (sym (append-nil (part_of id f)))
          (deliver-Story http_parse http_build id sent f g.view w.reader w.taken g.story);
  }
  move-Good sent closes w g = rw (append-nil sent) (record {
    view = closed_view http_parse http_build id g.view;
    shows = close-Shows http_parse http_build id w.session g.view g.shows;
    story = close-Story http_parse http_build id sent g.view w.reader w.taken g.story;
  })
  move-Good sent (polls budget) w g =
      rw (append-nil sent) (read_on-Good sent budget w.reader w refl g)

  response_of-cons :
      (a : Move) (later : List Move)
      → response_of id (a ∷ later) ≡ response_of id (a ∷ []) ++ response_of id later
  unfolding response_of
  response_of-cons (hears now f) later = rw (append-nil (part_of id f)) refl
  response_of-cons closes later = refl
  response_of-cons (polls budget) later = refl

  moves-Good :
      (sent : List Frame) (later : List Move) (w : World)
      → Good sent w
      → Good (sent ++ response_of id later) (moves http_parse http_build id later w)
  unfolding moves response_of
  moves-Good sent [] w g = rw (append-nil sent) g
  moves-Good sent (a ∷ later) w g =
      subst (λ x. Good x (moves http_parse http_build id later (move http_parse http_build id a w)))
        (append_assoc sent (response_of id (a ∷ [])) (response_of id later)
          ∙ ap (λ x. sent ++ x) (sym (response_of-cons a later)))
        (moves-Good (sent ++ response_of id (a ∷ [])) later (move http_parse http_build id a w)
          (move-Good sent a w g))

  -- What the reader has seen at the end.
  ended-Story :
      (sent : List Frame) (v : View) (rd : Reader) (taken : List Bytes)
      → Story http_parse http_build id sent v rd taken
      → rd ≡ at_end
      → (head : Bytes) × (res : ResponseHead) × (rest : List Frame) × (sent
          ≡ resp_head id head ∷ (data_frames id taken ++ (end_frame id [] ∷ rest)))
        × Heads http_parse http_build id head res
        × (v.1.head ≡ some res)
  ended-Story sent v rd taken (stopped e) k = absurd ground (arith, e, k)
  ended-Story sent v rd taken (failing a b e) k = absurd ground (arith, e, k)
  ended-Story sent v rd taken (headless a b e) k = absurd ground (arith, e, k)
  ended-Story sent v rd taken (fresh a b c d e g) k = absurd ground (arith, e, k)
  ended-Story sent v rd taken (streaming head ds res e on p h q o r) k = absurd ground (arith, r, k)
  ended-Story sent v rd taken (done head ds res rest e off p h q o (inl r)) k =
      absurd ground (arith, r, k)
  ended-Story sent v rd taken (done head ds res rest e off p h q o (inr (r, n))) k =
      (head, res, rest, rw ((sym (append-nil taken) ∙ ap (λ x. taken ++ x) (sym n)) ∙ q) e, p, h)

  -- From a stream that is registered and to which nothing has come, through any frames of the tether,
  -- polls of the reader and an end of the session, in any order: if the reader sees the clean end of
  -- the body, then the tether's frames for the stream were a head that parses alone, one frame for each
  -- chunk that the reader has read, in order, and END without a reason.
  pub moves-genuine :
      (w : World) (st : StreamState) (later : List Move)
      → mem id w.session.streams ≡ true
      → get id w.session.states ≡ some st
      → st.head ≡ none
      → st.chunks ≡ []
      → st.outcome ≡ pending
      → w.reader ≡ reading
      → w.taken ≡ []
      → (moves http_parse http_build id later w).reader ≡ at_end
      → (head : Bytes) × (res : ResponseHead) × (rest : List Frame) × (response_of id later
          ≡ resp_head id head
            ∷ (data_frames id (moves http_parse http_build id later w).taken
                ++ (end_frame id [] ∷ rest)))
        × Heads http_parse http_build id head res
  moves-genuine w st later on here h c p r t end =
      let g =
        moves-Good [] later w
          (record { view = (true, st); shows = (on, here); story = fresh refl h c p r t }) in
      let (head, res, rest, e, x, y) = ended-Story (response_of id later) g.view _ _ g.story end in
      (head, res, rest, e, x)
