-- ===== src/Hub/Loop/Complete.antt =====
-- When a stream is complete: nothing but the tether's END with no reason makes it so, and no part of
-- a response is dropped on the way.
use anvil_ring.Base.{
  ℕ, ◌≡◌, ◌⊎◌, refl, sym, ap, ◌∙◌, Bool, true, false, Option, none, some, [], ◌∷◌, Bytes, bytes,
  get, nat_key, ◌==◌, ==_iff, if◌then◌else◌, arith, Bool-cases, inl, inr,
}
use anvil_ring.Frames.{
  Frame, hello, welcome, open_frame, data_frame, resp_head, end_frame, half_end, ping, pong,
  go_away,
}
use anvil_ring.Hub.State.{Session, StreamState, ResponseHead, Outcome, pending, complete, failed}
use anvil_ring.Hub.Session.{complete_stream, fail_stream, finish_upload, update, mem}
use anvil_ring.Hub.Session.Close.{get-update, map_state, mem-delete}
use anvil_ring.Hub.Registry.{is_some}
use anvil_ring.Hub.Loop.{
  Fault, reply, session_of, target, refuse, seen, accepts, with_chunk, handle_data, handle_end,
  set_head, handle_head, dispatch, handle_frame,
}
use anvil_ring.Hub.Loop.Outcome.{sent-keeps, turn_away-result, refuse-result, seen-keeps}

abbrev pub is_complete : Outcome → Bool
is_complete pending = false
is_complete complete = true
is_complete failed = false

-- The caller of the stream may take its response for whole.
abbrev pub succeeded : Option StreamState → Bool
succeeded none = false
succeeded (some st) = is_complete st.outcome

-- No stream of `s'` is complete that was not in `s`.
record Quiet (s s' : Session) : Type 0 where
  quiet : (id : ℕ) → succeeded (get id s'.states) ≡ true → succeeded (get id s.states) ≡ true

loud :
    (s s' : Session) (id : ℕ)
    → Quiet s s'
    → succeeded (get id s.states) ≡ false
    → succeeded (get id s'.states) ≡ true
    → ⊥
loud s s' id q e h = cc (e, q.quiet id h)

Quiet-same : (s s' : Session) → s'.states ≡ s.states → Quiet s s'
Quiet-same s s' e = record { quiet = λ id h. (rw e at h) }

succeeded-update :
    (f : StreamState → StreamState) (i id : ℕ) (o : Option StreamState)
    → ((st : StreamState) → is_complete (f st).outcome ≡ true → is_complete st.outcome ≡ true)
    → succeeded (if i == id then map_state f o else o) ≡ true
    → succeeded o ≡ true
succeeded-update f i id none k h = ground arith
succeeded-update f i id (some st) k h = ground (arith, k st)

Quiet-reply : (s : Session) (f : Frame) (x : Fault) → Quiet s (session_of (reply s f x))
Quiet-reply s f x = Quiet-same s (session_of (reply s f x)) (sent-keeps s f x).0

Quiet-update :
    (i : ℕ) (f : StreamState → StreamState) (s s' : Session)
    → s'.states ≡ update f i s.states
    → ((st : StreamState) → is_complete (f st).outcome ≡ true → is_complete st.outcome ≡ true)
    → Quiet s s'
Quiet-update i f s s' e k = record {
  quiet = λ id h. succeeded-update f i id (get id s.states) k (rw (e, get-update) at h);
}

Quiet-refuse : (i : ℕ) (reason : Bytes) (s : Session) → Quiet s (session_of (refuse i reason s))
unfolding fail_stream finish_upload
Quiet-refuse i reason s = Quiet-update i fail_stream s _ (refuse-result i reason s).0 (λ st h. cc)

Quiet-data :
    (i : ℕ) (chunk : Bytes) (o : Option StreamState) (s : Session)
    → Quiet s (session_of (handle_data i chunk o s))
unfolding handle_data
Quiet-data i chunk none s = Quiet-same s _ (turn_away-result i _ s).0
Quiet-data i chunk (some st) s = elim (Bool-cases (accepts chunk st)) [
  | inl e ↦ rw e (Quiet-update i (with_chunk chunk) s _ refl (λ x h. h))
  | inr e ↦ rw e (Quiet-refuse i _ s)
]

Quiet-head : (i : ℕ) (o : Option ResponseHead) (s : Session) → Quiet s (session_of (set_head i o s))
unfolding set_head
Quiet-head i none s = Quiet-refuse i _ s
Quiet-head i (some res) s = Quiet-update i (λ x. record x { head = some res }) s _ refl (λ x h. h)

Quiet-abort :
    (i : ℕ) (b : ℕ) (reason : Bytes) (o : Option StreamState) (s : Session)
    → Quiet s (session_of (handle_end i (b ∷ reason) o s))
unfolding handle_end fail_stream finish_upload
Quiet-abort i b reason none s = Quiet-same s s refl
Quiet-abort i b reason (some st) s = Quiet-update i fail_stream s _ refl (λ x h. cc)

-- What END with no reason completes.
ended-completes :
    (i id : ℕ) (o : Option StreamState) (s : Session)
    → succeeded (get id s.states) ≡ false
    → succeeded (get id (session_of (handle_end i [] o s)).states) ≡ true
    → (i ≡ id) × (is_some o ≡ true)
unfolding handle_end
ended-completes i id none s e h = cc
ended-completes i id (some st) s e h = elim (Bool-cases (i == id)) [
  | inl same ↦ ((==_iff i id).0 same, refl)
  | inr other ↦ cc (ap succeeded (get-update complete_stream i id s.states), e, h, other)
]

target-mem :
    (i id : ℕ) (s : Session) → i ≡ id → is_some (target s i) ≡ true → mem id s.streams ≡ true
unfolding target
target-mem i id s e h = ground (arith, e)

module _ (http_parse : Bytes → Option (ℕ × ResponseHead))
    (http_build : ResponseHead → Option ResponseHead) where
  Quiet-answer :
      (i : ℕ) (head : Bytes) (o : Option StreamState) (s : Session)
      → Quiet s (session_of (handle_head http_parse http_build i head o s))
  unfolding handle_head
  Quiet-answer i head none s = Quiet-same s s refl
  Quiet-answer i head (some st) s = Quiet-head i _ s

  dispatch-completes :
      (f : Frame) (s : Session) (id : ℕ)
      → succeeded (get id s.states) ≡ false
      → succeeded (get id (session_of (dispatch http_parse http_build f s)).states) ≡ true
      → (f ≡ end_frame id []) × (mem id s.streams ≡ true)
  unfolding dispatch
  dispatch-completes ping s id e h = absurd (loud s _ id (Quiet-reply s pong _) e h)
  dispatch-completes pong s id e h = cc
  dispatch-completes (go_away r) s id e h = cc
  dispatch-completes (open_frame i head) s id e h = cc
  dispatch-completes (half_end i) s id e h = cc
  dispatch-completes (hello c) s id e h = cc
  dispatch-completes (welcome n) s id e h = cc
  dispatch-completes (resp_head i head) s id e h =
      absurd (loud s _ id (Quiet-answer i head (target s i) s) e h)
  dispatch-completes (data_frame i chunk) s id e h =
      absurd (loud s _ id (Quiet-data i chunk (target s i) s) e h)
  dispatch-completes (end_frame i []) s id e h =
      let (same, there) = ended-completes i id (target s i) s e h in
      (ap (λ x. end_frame x []) same, target-mem i id s same there)
  dispatch-completes (end_frame i (b ∷ bs)) s id e h =
      absurd (loud s _ id (Quiet-abort i b bs (target s i) s) e h)

  -- A stream that had not succeeded has succeeded after a frame only if the frame is END with no
  -- reason for that stream, and the stream is registered.
  pub handle_frame-completes :
      (now : ℕ) (f : Frame) (s : Session) (id : ℕ)
      → succeeded (get id s.states) ≡ false
      → succeeded (get id (session_of (handle_frame http_parse http_build now f s)).states) ≡ true
      → (f ≡ end_frame id []) × (mem id s.streams ≡ true)
  unfolding handle_frame
  handle_frame-completes now f s id e h =
      let (p, q) = seen-keeps now f s in
      let (a, b) = dispatch-completes f (seen now f s) id (rw p e) h in (a, sym (ap (mem id) q) ∙ b)

target-some :
    (id : ℕ) (st : StreamState) (s : Session) → target s id ≡ some st → get id s.states ≡ some st
unfolding target
target-some id st s e = ground arith

-- What DATA does to its stream.
abbrev pub Delivered : ℕ → Bytes → StreamState → Session → Type 0
Delivered id chunk st s' =
    ((accepts chunk st ≡ true) × (get id s'.states ≡ some (with_chunk chunk st)))
    ⊎ ((accepts chunk st ≡ false)
        × (get id s'.states ≡ some (fail_stream st))
        × (mem id s'.streams ≡ false))

-- DATA for a registered stream is handed on in order, or the stream fails and is unregistered.
pub handle_data-delivers :
    (id : ℕ) (chunk : Bytes) (st : StreamState) (s : Session)
    → target s id ≡ some st
    → Delivered id chunk st (session_of (handle_data id chunk (target s id) s))
unfolding handle_data
handle_data-delivers id chunk st s e =
    let same = (==_iff id id).1 refl in
    elim (Bool-cases (accepts chunk st)) [
      | inl fits ↦ inl (fits, rw (e, fits, get-update, same, target-some id st s e) refl)
      | inr lost ↦
          let (a, b) = refuse-result id (bytes "caller unavailable or response queue full") s in
          inr (
            lost,
            rw (e, lost, a, get-update, same, target-some id st s e) refl,
            rw (e, lost, b, mem-delete, same) refl,
          )
    ]
