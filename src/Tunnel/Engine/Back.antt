-- ===== src/Tunnel/Engine/Back.antt =====
-- The head of an engine's response, from `forward_engine` through the hub's session to the caller.
use anvil_ring.Base.{
  ℕ, ◌≤◌, ◌≡◌, refl, sym, ap, subst, ◌∙◌, Bool, true, Option, none, some, List, [], Bytes, arith,
  length, drop, drop_all, le→leb, ==_iff, ok,
}
use anvil_ring.Frames.{Frame, resp_head}
use anvil_ring.Hub.State.{ResponseHead, Session, StreamState, max_pending_head}
use anvil_ring.Hub.Session.{head_poll, known}
use anvil_ring.Hub.Loop.{parse_head, handle_frame, session_of}
use anvil_ring.Hub.Loop.Stream.{Shows, deliver, handle_frame-deliver}
use anvil_ring.Headers.{strip_hop_by_hop}
use anvil_ring.Headers.Fields.{HeaderMap, values}
use anvil_ring.Headers.Strip.{Dropped, fields-strip_hop_by_hop, get_all-strip_hop_by_hop}
use anvil_ring.Headers.Print.{or_empty}
use anvil_ring.Headers.Wire.{status_wire, response_head-status_wire}
use anvil_ring.Tunnel.Engine.{reply_head}
use anvil_ring.Tunnel.Engine.Relay.{reply_head_iff}
use anvil_ring.Frontend.{Answer, forwarded, handle, republish, caller_status_for}
use anvil_ring.Frontend.Answers.{end_to_end-own}

drop_whole : (text : Bytes) → drop (length text) text ≡ []
drop_whole text = drop_all (length text) text (omega arith)

module _ (http_parse : Bytes → Option (ℕ × ResponseHead))
    (http_build : ResponseHead → Option ResponseHead) (text : Bytes) (res : ResponseHead)
    (reads : http_parse text ≡ some (length text, res)) (builds : http_build res ≡ some res)
    (fits : length text ≤ max_pending_head) where
  parses-alone : parse_head http_parse http_build text ≡ some (res, [])
  unfolding parse_head
  parses-alone =
      rw (reads, le→leb (length text) max_pending_head fits, builds, drop_whole text) refl

  deliver-own :
      (id : ℕ) (st : StreamState)
      → 200 ≤ res.status
      → st.head ≡ none
      → deliver http_parse http_build id (resp_head id text) (true, st)
        ≡ (true, record st { head = some res })
  deliver-own id st final fresh =
      rw ((==_iff id id).1 refl, parses-alone, le→leb 200 res.status final, fresh) refl

module _ {M : Type 0} ⦃h : HeaderMap M⦄ where
  -- The head that the hub reads: the status, and the fields that the tether has left.
  abbrev pub head_for : ℕ → M → ResponseHead
  head_for code m = record { status = code; headers = h.fields (strip_hop_by_hop m).1 }

module _ {M : Type 0} ⦃h : HeaderMap M⦄ (http_accepts : List (Bytes × Bytes) → Bool) where
  republish-own :
      (code : ℕ) (m : M)
      → 100 ≤ code
      → code ≤ 999
      → http_accepts (h.fields (strip_hop_by_hop m).1) ≡ true
      → ((republish http_accepts (head_for code m)).status ≡ code)
        × ((republish http_accepts (head_for code m)).headers ≡ h.fields (strip_hop_by_hop m).1)
  unfolding republish caller_status_for
  republish-own code m lo hi a =
      rw (end_to_end-own (h.fields (strip_hop_by_hop m).1) (fields-strip_hop_by_hop m), a)
        (ground arith, refl)

  -- The caller's answer to a response of the engine.
  pub record Relayed (code : ℕ) (m : M) (answer : Answer) : Type 0 where
    pub same_status : answer.status ≡ code
    pub same_fields : answer.headers ≡ h.fields (strip_hop_by_hop m).1
    pub dropped : (n : Bytes) → Dropped n m → values n answer.headers ≡ []
    pub kept : (n : Bytes) → ¬ Dropped n m → values n answer.headers ≡ h.get_all n m

  handle-Relayed :
      (code : ℕ) (m : M)
      → 200 ≤ code
      → code ≤ 999
      → http_accepts (h.fields (strip_hop_by_hop m).1) ≡ true
      → Relayed code m (handle http_accepts (forwarded (ok (some (head_for code m)))))
  unfolding handle
  handle-Relayed code m lo hi takes =
      let (a, b) = republish-own code m (omega (arith, lo)) hi takes in
      let left = λ (n : Bytes). ap (values n) b ∙ sym (h.get_all-fields n (strip_hop_by_hop m).1) in
      record {
        same_status = a;
        same_fields = b;
        dropped = λ n d. left n ∙ (get_all-strip_hop_by_hop n m).0 d;
        kept = λ n d. left n ∙ (get_all-strip_hop_by_hop n m).1 d;
      }

module _ {M : Type 0} ⦃h : HeaderMap M⦄ (http_parse : Bytes → Option (ℕ × ResponseHead))
    (http_build : ResponseHead → Option ResponseHead)
    (http_accepts : List (Bytes × Bytes) → Bool) where
  -- If the tether relays the head of an engine's response, the hub has a stream for it without a
  -- head, and the hub's parser reads the status line and the lines of the fields that the tether
  -- leaves, as a final head that fits and that the builders take, then the frame leaves the stream
  -- registered with that head, which the caller's side reads at once; its answer has the engine's
  -- status, no field that is hop-by-hop or that the engine's `Connection` names, and every other
  -- field with the engine's values, in order.
  pub reply_head-Relayed :
      (now id code : ℕ) (reason : Option Bytes) (m : M) (f : Frame) (s : Session) (st : StreamState)
      → reply_head id code reason m ≡ ok f
      → Shows id s (true, st)
      → st.head ≡ none
      → 200 ≤ code
      → code ≤ 999
      → length (status_wire code (or_empty reason) (h.fields (strip_hop_by_hop m).1))
        ≤ max_pending_head
      → http_parse (status_wire code (or_empty reason) (h.fields (strip_hop_by_hop m).1))
        ≡ some (
          length (status_wire code (or_empty reason) (h.fields (strip_hop_by_hop m).1)),
          head_for code m,
        )
      → http_build (head_for code m) ≡ some (head_for code m)
      → http_accepts (h.fields (strip_hop_by_hop m).1) ≡ true
      → (st' : StreamState) × Shows id
          (session_of (handle_frame http_parse http_build now f s))
          (true, st')
        × (head_poll st' ≡ known (head_for code m))
        × Relayed http_accepts code m
            (handle http_accepts (forwarded (ok (some (head_for code m)))))
  unfolding head_poll
  reply_head-Relayed now id code reason m f s st sent shows fresh lo hi fits reads builds takes =
      let text = status_wire code (or_empty reason) (h.fields (strip_hop_by_hop m).1) in
      let own : f ≡ resp_head id text =
        ((reply_head_iff id code reason m f).0 sent).1
        ∙ ap (resp_head id) (response_head-status_wire code reason m) in
      let st' = record st { head = some (head_for code m) } in
      let there : Shows id (session_of (handle_frame http_parse http_build now f s)) (true, st') =
        subst (Shows id (session_of (handle_frame http_parse http_build now f s)))
          (ap (λ x. deliver http_parse http_build id x (true, st)) own
            ∙ deliver-own http_parse http_build text (head_for code m) reads builds fits id st lo
                fresh)
          (handle_frame-deliver http_parse http_build id now f s (true, st) shows) in
      (st', there, refl, handle-Relayed http_accepts code m lo hi takes)
