-- ===== src/Frontend/Response/Steps.antt =====
-- What the end of a session and a poll of the reader do to a response.
use anvil_ring.Base.{
  ℕ, ◌≡◌, refl, sym, ap, subst, ◌∙◌, Bool, true, false, Option, none, some, List, [], ◌∷◌, ◌++◌,
  append_assoc, Bytes, nat_key, arith, inl, inr,
}
use anvil_ring.Frames.{Frame, resp_head, end_frame}
use anvil_ring.Hub.State.{Session, StreamState, ResponseHead, pending, complete, failed}
use anvil_ring.Hub.Session.{fail_stream, finish_upload, mem, close}
use anvil_ring.Hub.Session.Close.{close_streams}
use anvil_ring.Hub.Registry.{is_some}
use anvil_ring.Hub.Loop.Stream.{View, Shows}
use anvil_ring.Frontend.{poll_next}
use anvil_ring.Frontend.Response.{Reader, reading, poll_when, data_frames}
use anvil_ring.Frontend.Response.Story.{
  Story, Heads, stopped, failing, headless, fresh, streaming, done,
}

module _ (http_parse : Bytes → Option (ℕ × ResponseHead))
    (http_build : ResponseHead → Option ResponseHead) (id : ℕ) where
  -- The end of the session.
  abbrev pub closed_view : View → View
  closed_view (false, st) = (false, st)
  closed_view (true, st) = (false, fail_stream st)

  pub close-Shows : (s : Session) (v : View) → Shows id s v → Shows id (close s) (closed_view v)
  unfolding close mem
  close-Shows s (false, st) (r, e) = (refl, rw ((close_streams s).1 id, r) e)
  close-Shows s (true, st) (r, e) = (refl, rw ((close_streams s).1 id, r, e) refl)

  pub close-Story :
      (sent : List Frame) (v : View) (rd : Reader) (taken : List Bytes)
      → Story http_parse http_build id sent v rd taken
      → Story http_parse http_build id sent (closed_view v) rd taken
  unfolding fail_stream finish_upload
  close-Story sent (false, st) rd taken y = y
  close-Story sent (true, st) rd taken (stopped e) = stopped e
  close-Story sent (true, st) rd taken (failing off b c) = absurd ground (arith, off)
  close-Story sent (true, st) rd taken (headless off b c) = absurd ground (arith, off)
  close-Story sent (true, st) rd taken (fresh a b c d e g) = failing refl refl e
  close-Story sent (true, st) rd taken (streaming head ds res e on p h q o r) = failing refl refl r
  close-Story sent (true, st) rd taken (done head ds res rest e off p h q o r) =
      absurd ground (arith, off)

  -- A poll of the reader.
  abbrev pub AfterPoll : List Frame → Bool → (Reader × List Bytes) × StreamState → Type 0
  AfterPoll sent r p = Story http_parse http_build id sent (r, p.1) p.0.0 p.0.1

  poll-without :
      (sent : List Frame) (r budget : Bool) (st : StreamState) (taken : List Bytes)
      → st.head ≡ none
      → Story http_parse http_build id sent (r, st) reading taken
      → AfterPoll sent r (poll_when (is_some st.head) budget st taken)
  poll-without sent r budget st taken h y =
      subst (λ b. AfterPoll sent r (poll_when b budget st taken)) (sym (ap is_some h)) y

  poll-failed :
      (sent : List Frame) (r budget : Bool) (st : StreamState) (taken : List Bytes) (b : Bool)
      → r ≡ false
      → st.outcome ≡ failed
      → AfterPoll sent r (poll_when b budget st taken)
  unfolding poll_next
  poll-failed sent r budget st taken false off e = failing off e refl
  poll-failed sent r budget st taken true off e = rw e (stopped refl)

  poll-streaming :
      (head : Bytes) (ds : List Bytes) (res : ResponseHead) (budget : Bool) (st : StreamState)
      (taken cs : List Bytes)
      → st.chunks ≡ cs
      → Heads http_parse http_build id head res
      → st.head ≡ some res
      → taken ++ cs ≡ ds
      → st.outcome ≡ pending
      → AfterPoll (resp_head id head ∷ data_frames id ds) true (poll_when true budget st taken)
  unfolding poll_next
  poll-streaming head ds res false st taken cs k p h q o =
      rw o (streaming head ds res refl refl p h (ap (λ x. taken ++ x) k ∙ q) refl refl)
  poll-streaming head ds res true st taken [] k p h q o =
      rw (o, k) (streaming head ds res refl refl p h q refl refl)
  poll-streaming head ds res true st taken (c ∷ cs) k p h q o =
      rw (o, k) (streaming head ds res refl refl p h (append_assoc taken (c ∷ []) cs ∙ q) refl refl)

  poll-done :
      (head : Bytes) (ds : List Bytes) (res : ResponseHead) (rest : List Frame) (budget : Bool)
      (st : StreamState) (taken cs : List Bytes)
      → st.chunks ≡ cs
      → Heads http_parse http_build id head res
      → st.head ≡ some res
      → taken ++ cs ≡ ds
      → st.outcome ≡ complete
      → AfterPoll
          (resp_head id head ∷ (data_frames id ds ++ (end_frame id [] ∷ rest)))
          false
          (poll_when true budget st taken)
  unfolding poll_next
  poll-done head ds res rest false st taken cs k p h q o =
      rw o (done head ds res rest refl refl p h (ap (λ x. taken ++ x) k ∙ q) refl (inl refl))
  poll-done head ds res rest true st taken [] k p h q o =
      rw (o, k) (done head ds res rest refl refl p h q refl (inr (refl, refl)))
  poll-done head ds res rest true st taken (c ∷ cs) k p h q o =
      rw (o, k)
        (done head ds res rest refl refl p h (append_assoc taken (c ∷ []) cs ∙ q) refl (inl refl))

  pub poll-Story :
      (sent : List Frame) (r budget : Bool) (st : StreamState) (taken : List Bytes)
      → Story http_parse http_build id sent (r, st) reading taken
      → AfterPoll sent r (poll_when (is_some st.head) budget st taken)
  poll-Story sent r budget st taken (stopped e) = absurd ground (arith, e)
  poll-Story sent r budget st taken (failing off o c) =
      poll-failed sent r budget st taken (is_some st.head) off o
  poll-Story sent r budget st taken (headless off h c) =
      poll-without sent r budget st taken h (headless off h c)
  poll-Story sent r budget st taken (fresh a h c d e g) =
      poll-without sent r budget st taken h (fresh a h c d e g)
  poll-Story sent r budget st taken (streaming head ds res e on p h q o rd) =
      rw (e, on, ap is_some h) (poll-streaming head ds res budget st taken st.chunks refl p h q o)
  poll-Story sent r budget st taken (done head ds res rest e off p h q o rd) =
      rw (e, off, ap is_some h) (poll-done head ds res rest budget st taken st.chunks refl p h q o)
