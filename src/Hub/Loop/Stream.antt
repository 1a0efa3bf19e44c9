-- ===== src/Hub/Loop/Stream.antt =====
-- One stream of a session: what the frames of the tether do to it, as a machine of its own.
use anvil_ring.Base.{
  ℕ, ◌≡◌, refl, ap, ◌∙◌, Bool, true, false, Option, none, some, [], ◌∷◌, Bytes, bytes, get, nat_key,
  ◌==◌, ==_iff, if◌then◌else◌, Bool-cases, inl, inr,
}
use anvil_ring.Frames.{
  Frame, hello, welcome, open_frame, data_frame, resp_head, end_frame, half_end, ping, pong,
  go_away, stream_of,
}
use anvil_ring.Hub.State.{Session, StreamState, ResponseHead}
use anvil_ring.Hub.Session.{complete_stream, fail_stream, mem}
use anvil_ring.Hub.Session.Close.{get-update, mem-delete}
use anvil_ring.Hub.Loop.{
  Fault, fault, reply, session_of, target, refuse, turn_away, seen, accepts, with_chunk,
  handle_data, handle_end, parse_head, final_head, set_head, handle_head, dispatch, handle_frame,
}
use anvil_ring.Hub.Loop.Outcome.{
  sent-keeps, turn_away-result, refuse-result, seen-keeps, handle_frame-others,
}

-- Whether the stream is registered, and its state.
abbrev pub View : Type 0
View = Bool × StreamState

abbrev pub given_head : StreamState → Option ResponseHead → View
given_head st none = (false, fail_stream st)
given_head st (some res) = (true, record st { head = some res })

abbrev pub given_data : StreamState → Bytes → View
given_data st chunk =
    if accepts chunk st then (true, with_chunk chunk st) else (false, fail_stream st)

abbrev pub given_end : StreamState → Bytes → View
given_end st [] = (false, complete_stream st)
given_end st (b ∷ bs) = (false, fail_stream st)

-- The session has the stream in this view.
abbrev pub Shows : ℕ → Session → View → Type 0
Shows id s v = (mem id s.streams ≡ v.0) × (get id s.states ≡ some v.1)

own : (id : ℕ) → (id == id) ≡ true
own id = (==_iff id id).1 refl

target-on :
    (id : ℕ) (st : StreamState) (s : Session) → Shows id s (true, st) → target s id ≡ some st
unfolding target
target-on id st s (r, e) = rw (r, e) refl

target-off : (id : ℕ) (st : StreamState) (s : Session) → Shows id s (false, st) → target s id ≡ none
unfolding target
target-off id st s (r, e) = rw r refl

-- A refusal, and a reply to a frame of a stream that is not registered.
refuse-Shows :
    (id : ℕ) (reason : Bytes) (st : StreamState) (s : Session)
    → Shows id s (true, st)
    → Shows id (session_of (refuse id reason s)) (false, fail_stream st)
refuse-Shows id reason st s (r, e) =
    let (a, b) = refuse-result id reason s in
    (rw (b, mem-delete, own id) refl, rw (a, get-update, own id, e) refl)

turn_away-Shows :
    (id : ℕ) (reason : Bytes) (st : StreamState) (s : Session)
    → Shows id s (false, st)
    → Shows id (session_of (turn_away id reason s)) (false, st)
turn_away-Shows id reason st s (r, e) =
    let (a, b) = turn_away-result id reason s in (rw (b, mem-delete, own id) refl, rw (a, e) refl)

data-on :
    (id : ℕ) (chunk : Bytes) (st : StreamState) (s : Session)
    → Shows id s (true, st)
    → Shows id (session_of (handle_data id chunk (some st) s)) (given_data st chunk)
unfolding handle_data
data-on id chunk st s v = elim (Bool-cases (accepts chunk st)) [
  | inl fits ↦ rw fits (v.0, rw (get-update, own id, v.1) refl)
  | inr lost ↦ rw lost (refuse-Shows id (bytes "caller unavailable or response queue full") st s v)
]

data-off :
    (id : ℕ) (chunk : Bytes) (st : StreamState) (s : Session)
    → Shows id s (false, st)
    → Shows id (session_of (handle_data id chunk none s)) (false, st)
unfolding handle_data
data-off id chunk st s v =
    turn_away-Shows id (bytes "caller unavailable or response queue full") st s v

end-on :
    (id : ℕ) (reason : Bytes) (st : StreamState) (s : Session)
    → Shows id s (true, st)
    → Shows id (session_of (handle_end id reason (some st) s)) (given_end st reason)
unfolding handle_end
end-on id [] st s v = (rw (mem-delete, own id) refl, rw (get-update, own id, v.1) refl)
end-on id (b ∷ bs) st s v = (rw (mem-delete, own id) refl, rw (get-update, own id, v.1) refl)

set_head-on :
    (id : ℕ) (o : Option ResponseHead) (st : StreamState) (s : Session)
    → Shows id s (true, st)
    → Shows id (session_of (set_head id o s)) (given_head st o)
unfolding set_head
set_head-on id none st s v = refuse-Shows id (bytes "invalid response head") st s v
set_head-on id (some res) st s v = (v.0, rw (get-update, own id, v.1) refl)

Shows-reply :
    (id : ℕ) (v : View) (s : Session) (f : Frame) (e : Fault)
    → Shows id s v
    → Shows id (session_of (reply s f e)) v
Shows-reply id v s f e (r, t) =
    let (a, b) = sent-keeps s f e in (ap (mem id) b ∙ r, ap (get id) a ∙ t)

module _ (http_parse : Bytes → Option (ℕ × ResponseHead))
    (http_build : ResponseHead → Option ResponseHead) (id : ℕ) where
  -- What a frame does to a stream that is registered; one that is not keeps its state.
  abbrev pub registered : Frame → StreamState → View
  registered (resp_head i head) st =
      if i == id
      then given_head st
          (final_head http_parse http_build st (parse_head http_parse http_build head))
      else (true, st)
  registered (data_frame i chunk) st = if i == id then given_data st chunk else (true, st)
  registered (end_frame i reason) st = if i == id then given_end st reason else (true, st)
  registered (open_frame i head) st = (true, st)
  registered (half_end i) st = (true, st)
  registered (hello credential) st = (true, st)
  registered (welcome lease_secs) st = (true, st)
  registered (go_away reason) st = (true, st)
  registered ping st = (true, st)
  registered pong st = (true, st)

  abbrev pub deliver : Frame → View → View
  deliver f (false, st) = (false, st)
  deliver f (true, st) = registered f st

  deliver_other :
      (f : Frame) (v : View) → ((st : StreamState) → registered f st ≡ (true, st)) → deliver f v ≡ v
  deliver_other f (false, st) k = refl
  deliver_other f (true, st) k = k st

  seen-Shows :
      (now : ℕ) (f : Frame) (s : Session) (v : View) → Shows id s v → Shows id (seen now f s) v
  seen-Shows now f s v (r, e) =
      let (a, b) = seen-keeps now f s in (ap (mem id) b ∙ r, ap (get id) a ∙ e)

  -- Frames of the stream itself.
  head-own :
      (head : Bytes) (s : Session) (v : View)
      → Shows id s v
      → Shows id
          (session_of (dispatch http_parse http_build (resp_head id head) s))
          (deliver (resp_head id head) v)
  unfolding dispatch handle_head
  head-own head s (false, st) e = rw (target-off id st s e) e
  head-own head s (true, st) e =
      rw (target-on id st s e, own id)
        (set_head-on id
          (final_head http_parse http_build st (parse_head http_parse http_build head)) st s e)

  data-own :
      (chunk : Bytes) (s : Session) (v : View)
      → Shows id s v
      → Shows id
          (session_of (dispatch http_parse http_build (data_frame id chunk) s))
          (deliver (data_frame id chunk) v)
  unfolding dispatch
  data-own chunk s (false, st) e = rw (target-off id st s e) (data-off id chunk st s e)
  data-own chunk s (true, st) e = rw (target-on id st s e, own id) (data-on id chunk st s e)

  end-own :
      (reason : Bytes) (s : Session) (v : View)
      → Shows id s v
      → Shows id
          (session_of (dispatch http_parse http_build (end_frame id reason) s))
          (deliver (end_frame id reason) v)
  unfolding dispatch handle_end
  end-own reason s (false, st) e = rw (target-off id st s e) e
  end-own reason s (true, st) e = rw (target-on id st s e, own id) (end-on id reason st s e)

  -- Frames that are not of a stream.
  apart :
      (now : ℕ) (f : Frame) (s : Session) (v : View)
      → (stream_of f == id) ≡ false
      → Shows id s v
      → Shows id (session_of (handle_frame http_parse http_build now f s)) v
  apart now f s v ne (r, e) =
      let (a, b) = handle_frame-others http_parse http_build now f s id ne in (b ∙ r, a ∙ e)

  handle_frame_steps :
      (now : ℕ) (f : Frame) (s : Session)
      → handle_frame http_parse http_build now f s ≡ dispatch http_parse http_build f (seen now f s)
  unfolding handle_frame
  handle_frame_steps now f s = refl

  -- The branches on whether the frame names the stream.
  either :
      (now i : ℕ) (f : ℕ → Frame) (s : Session) (v : View)
      → stream_of (f i) ≡ i
      → Shows id s v
      → ((i == id) ≡ false → deliver (f i) v ≡ v)
      → ((t : Session)
          → Shows id t v
          → Shows id (session_of (dispatch http_parse http_build (f id) t)) (deliver (f id) v))
      → Shows id (session_of (handle_frame http_parse http_build now (f i) s)) (deliver (f i) v)
  either now i f s v n e other same = elim (Bool-cases (i == id)) [
    | inl q ↦
        rw ((==_iff i id).0 q, handle_frame_steps now (f id) s)
          (same (seen now (f id) s) (seen-Shows now (f id) s v e))
    | inr q ↦ rw (other q) (apart now (f i) s v (ap (λ x. x == id) n ∙ q) e)
  ]

  -- Frames of no stream.
  still :
      (now : ℕ) (f : Frame) (s : Session) (v : View)
      → Shows id s v
      → ((t : Session)
          → Shows id t v
          → Shows id (session_of (dispatch http_parse http_build f t)) v)
      → ((st : StreamState) → registered f st ≡ (true, st))
      → Shows id (session_of (handle_frame http_parse http_build now f s)) (deliver f v)
  still now f s v e k same =
      rw (deliver_other f v same, handle_frame_steps now f s)
        (k (seen now f s) (seen-Shows now f s v e))

  -- For a stream whose state the session holds, a frame of the tether does to its registration and its
  -- state what the machine of one stream does.
  pub handle_frame-deliver :
      (now : ℕ) (f : Frame) (s : Session) (v : View)
      → Shows id s v
      → Shows id (session_of (handle_frame http_parse http_build now f s)) (deliver f v)
  unfolding dispatch stream_of
  handle_frame-deliver now (resp_head i head) s v e =
      either now i (λ j. resp_head j head) s v refl e
        (λ q. deliver_other (resp_head i head) v (λ st. rw q refl)) (λ t. head-own head t v)
  handle_frame-deliver now (data_frame i chunk) s v e =
      either now i (λ j. data_frame j chunk) s v refl e
        (λ q. deliver_other (data_frame i chunk) v (λ st. rw q refl)) (λ t. data-own chunk t v)
  handle_frame-deliver now (end_frame i reason) s v e =
      either now i (λ j. end_frame j reason) s v refl e
        (λ q. deliver_other (end_frame i reason) v (λ st. rw q refl)) (λ t. end-own reason t v)
  handle_frame-deliver now ping s v e =
      still now ping s v e (λ t. Shows-reply id v t pong (fault "write PONG to tether failed"))
        (λ st. refl)
  handle_frame-deliver now pong s v e = still now pong s v e (λ t k. k) (λ st. refl)
  handle_frame-deliver now (open_frame i head) s v e =
      still now (open_frame i head) s v e (λ t k. k) (λ st. refl)
  handle_frame-deliver now (half_end i) s v e = still now (half_end i) s v e (λ t k. k) (λ st. refl)
  handle_frame-deliver now (hello c) s v e = still now (hello c) s v e (λ t k. k) (λ st. refl)
  handle_frame-deliver now (welcome n) s v e = still now (welcome n) s v e (λ t k. k) (λ st. refl)
  handle_frame-deliver now (go_away r) s v e = still now (go_away r) s v e (λ t k. k) (λ st. refl)
