-- ===== src/Hub/Loop/Outcome.antt =====
-- What a frame of the tether does to the streams of its session.
use anvil_ring.Base.{
  ℕ, ◌≡◌, ◌⊎◌, refl, ap, ◌∙◌, false, Option, none, some, [], ◌∷◌, Bytes, get, nat_key, ◌==◌, arith,
  Bool-cases, inl, inr,
}
use anvil_ring.Frames.{
  Frame, hello, welcome, open_frame, data_frame, resp_head, end_frame, half_end, ping, pong,
  go_away, stream_of,
}
use anvil_ring.Hub.State.{Session, StreamState, ResponseHead}
use anvil_ring.Hub.Session.{complete_stream, fail_stream, update, mem, delete, try_send}
use anvil_ring.Hub.Session.Close.{get-update, mem-delete}
use anvil_ring.Hub.Loop.{
  Fault, session_of, sent, reply, target, turn_away, refuse, seen, accepts, with_chunk, handle_data,
  handle_end, parse_head, final_head, set_head, handle_head, dispatch, handle_frame,
}

-- A reply leaves the streams.
pub sent-keeps :
    (s : Session) (f : Frame) (e : Fault)
    → ((session_of (reply s f e)).states ≡ s.states)
      × ((session_of (reply s f e)).streams ≡ s.streams)
unfolding reply sent try_send
sent-keeps s f e = ground arith

pub turn_away-result :
    (id : ℕ) (reason : Bytes) (s : Session)
    → ((session_of (turn_away id reason s)).states ≡ s.states)
      × ((session_of (turn_away id reason s)).streams ≡ delete id s.streams)
unfolding turn_away
turn_away-result id reason s = sent-keeps _ _ _

pub refuse-result :
    (id : ℕ) (reason : Bytes) (s : Session)
    → ((session_of (refuse id reason s)).states ≡ update fail_stream id s.states)
      × ((session_of (refuse id reason s)).streams ≡ delete id s.streams)
unfolding refuse
refuse-result id reason s = turn_away-result id reason _

-- Every other stream than `id` is registered and in the state that it was.
record Only (id : ℕ) (s s' : Session) : Type 0 where
  same :
      (j : ℕ)
      → (id == j) ≡ false
      → (get j s'.states ≡ get j s.states) × (mem j s'.streams ≡ mem j s.streams)

Only-update :
    (id : ℕ) (f : StreamState → StreamState) (s s' : Session)
    → s'.states ≡ update f id s.states
    → (s'.streams ≡ delete id s.streams) ⊎ (s'.streams ≡ s.streams)
    → Only id s s'
Only-update id f s s' e (inl h) = record {
  same = λ j ne. (rw (e, get-update, ne) refl, rw (h, mem-delete, ne) refl);
}
Only-update id f s s' e (inr h) = record { same = λ j ne. (rw (e, get-update, ne) refl, rw h refl) }

Only-same :
    (id : ℕ) (s s' : Session)
    → s'.states ≡ s.states
    → (s'.streams ≡ delete id s.streams) ⊎ (s'.streams ≡ s.streams)
    → Only id s s'
Only-same id s s' e (inl h) = record { same = λ j ne. (rw e refl, rw (h, mem-delete, ne) refl) }
Only-same id s s' e (inr h) = record { same = λ j ne. (rw e refl, rw h refl) }

handle_data-Only :
    (id : ℕ) (chunk : Bytes) (o : Option StreamState) (s : Session)
    → Only id s (session_of (handle_data id chunk o s))
unfolding handle_data
handle_data-Only id chunk none s =
    let (a, b) = turn_away-result id _ s in Only-same id s _ a (inl b)
handle_data-Only id chunk (some st) s = elim (Bool-cases (accepts chunk st)) [
  | inl e ↦ rw e (Only-update id (with_chunk chunk) s _ refl (inr refl))
  | inr e ↦ rw e (let (a, b) = refuse-result id _ s in Only-update id fail_stream s _ a (inl b))
]

handle_end-Only :
    (id : ℕ) (reason : Bytes) (o : Option StreamState) (s : Session)
    → Only id s (session_of (handle_end id reason o s))
unfolding handle_end
handle_end-Only id reason none s = Only-same id s s refl (inr refl)
handle_end-Only id [] (some st) s = Only-update id complete_stream s _ refl (inl refl)
handle_end-Only id (b ∷ bs) (some st) s = Only-update id fail_stream s _ refl (inl refl)

pub seen-keeps :
    (now : ℕ) (f : Frame) (s : Session)
    → ((seen now f s).states ≡ s.states) × ((seen now f s).streams ≡ s.streams)
unfolding seen
seen-keeps now f s = ground arith

set_head-Only :
    (id : ℕ) (o : Option ResponseHead) (s : Session) → Only id s (session_of (set_head id o s))
unfolding set_head
set_head-Only id none s =
    let (a, b) = refuse-result id _ s in Only-update id fail_stream s _ a (inl b)
set_head-Only id (some res) s =
    Only-update id (λ st. record st { head = some res }) s _ refl (inr refl)

module _ (http_parse : Bytes → Option (ℕ × ResponseHead))
    (http_build : ResponseHead → Option ResponseHead) where
  handle_head-Only :
      (id : ℕ) (head : Bytes) (o : Option StreamState) (s : Session)
      → Only id s (session_of (handle_head http_parse http_build id head o s))
  unfolding handle_head
  handle_head-Only id head none s = Only-same id s s refl (inr refl)
  handle_head-Only id head (some st) s =
      set_head-Only id (final_head http_parse http_build st (parse_head http_parse http_build head))
        s

  dispatch-Only :
      (f : Frame) (s : Session)
      → Only (stream_of f) s (session_of (dispatch http_parse http_build f s))
  unfolding dispatch stream_of
  dispatch-Only ping s = let (a, b) = sent-keeps s pong _ in Only-same 0 s _ a (inr b)
  dispatch-Only pong s = Only-same 0 s s refl (inr refl)
  dispatch-Only (go_away r) s = Only-same 0 s s refl (inr refl)
  dispatch-Only (open_frame id h) s = Only-same id s s refl (inr refl)
  dispatch-Only (half_end id) s = Only-same 0 s s refl (inr refl)
  dispatch-Only (hello c) s = Only-same 0 s s refl (inr refl)
  dispatch-Only (welcome n) s = Only-same 0 s s refl (inr refl)
  dispatch-Only (resp_head id head) s = handle_head-Only id head (target s id) s
  dispatch-Only (data_frame id chunk) s = handle_data-Only id chunk (target s id) s
  dispatch-Only (end_frame id reason) s = handle_end-Only id reason (target s id) s

  -- A frame leaves every stream but its own registered and in the state that it was.
  pub handle_frame-others :
      (now : ℕ) (f : Frame) (s : Session) (j : ℕ)
      → (stream_of f == j) ≡ false
      → (get j (session_of (handle_frame http_parse http_build now f s)).states ≡ get j s.states)
        × (mem j (session_of (handle_frame http_parse http_build now f s)).streams
            ≡ mem j s.streams)
  unfolding handle_frame
  handle_frame-others now f s j e =
      let (a, b) = (dispatch-Only f (seen now f s)).same j e in
      let (p, q) = seen-keeps now f s in (a ∙ ap (get j) p, b ∙ ap (mem j) q)
