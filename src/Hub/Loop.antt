-- ===== src/Hub/Loop.antt =====
-- `handle_tether` after HELLO: what the session's task does at each event, its teardown, and the
-- `StreamGuard` of a caller. `http_parse` and `http_build` are the crates `httparse` and `http`.
pub mod Outcome
pub mod Complete
pub mod Teardown
pub mod Guard
pub mod Stream
mod Tests
use anvil_ring.Base.{
  ℕ, zero, suc, ◌+◌, ◌-◌, ◌*◌, ◌≤◌, ◌<◌, ◌≡◌, Bool, true, false, not, ◌&&◌, ◌||◌, Option, none,
  some, List, [], ◌∷◌, ◌++◌, Bytes, bytes, String, Map, get, insert, nat_key, bytes_key, length,
  drop, ltb, leb, ◌==◌, if◌then◌else◌, Result, ok, err,
}
use anvil_ring.Frames.{
  Frame, hello, welcome, open_frame, data_frame, resp_head, end_frame, half_end, ping, pong,
  go_away, FrameError, decode,
}
pub use anvil_ring.Socket.{
  Message, binary, text_message, close_message, raw, ping_message, pong_message, Fault, bad_frame,
  fault, whole,
}
use anvil_ring.Hub.State.{
  Registry, Session, StreamState, ResponseHead, tether_silence, tether_ping_interval,
  max_pending_head,
}
use anvil_ring.Hub.Session.{
  complete_stream, fail_stream, abort_upload, send_chunk, TrySendError, full, closed_channel,
  try_send, mem, delete, update, close,
}
use anvil_ring.Hub.Registry.{is_active, detach, is_some}

-- `hub::decode`
unfoldable pub decode_message : Message → Result (Option Frame) Fault
decode_message (binary b) = whole (decode b)
decode_message (ping_message b) = ok none
decode_message (pong_message b) = ok none
decode_message (text_message b) = err (fault "peer sent Text; tunnel frames are binary")
decode_message (close_message b) = err (fault "peer sent Close")
decode_message (raw b) = err (fault "peer sent a raw frame we cannot classify")

-- What the task does next: it goes on, or the loop breaks with a result.
pub data Next : Type 0 where
  on : Session → Next
  broken : Result (Unit {0}) Fault → Session → Next

abbrev pub session_of : Next → Session
session_of (on s) = s
session_of (broken v s) = s

pub sent : Session → Fault → Result Session TrySendError → Next
sent s e (ok s') = on s'
sent s e (err x) = broken (err e) s

unfoldable pub reply : Session → Frame → Fault → Next
unfolding sent
reply s f e = sent s e (try_send s f)

-- `streams.lock().get(&id)`
unfoldable pub target : Session → ℕ → Option StreamState
target s id = if mem id s.streams then get id s.states else none

abbrev pub put : (StreamState → StreamState) → ℕ → Session → Session
put f id s = record s { states = update f id s.states }

abbrev pub unregister : ℕ → Session → Session
unregister id s = record s { streams = delete id s.streams }

-- The stream is unregistered and the tether is told to stop it.
unfoldable pub turn_away : ℕ → Bytes → Session → Next
unfolding reply
turn_away id reason s =
    reply (unregister id s) (end_frame id reason) (fault "tether command queue unavailable")

-- The tether's answer is refused: the stream fails.
unfoldable pub refuse : ℕ → Bytes → Session → Next
unfolding turn_away
refuse id reason s = turn_away id reason (put fail_stream id s)

abbrev pub frame_proves_liveness : Frame → Bool
frame_proves_liveness (hello c) = false
frame_proves_liveness (welcome n) = false
frame_proves_liveness (open_frame i h) = false
frame_proves_liveness (data_frame i b) = false
frame_proves_liveness (resp_head i h) = false
frame_proves_liveness (end_frame i r) = false
frame_proves_liveness (half_end i) = false
frame_proves_liveness ping = false
frame_proves_liveness pong = true
frame_proves_liveness (go_away r) = false

unfoldable pub seen : ℕ → Frame → Session → Session
seen now f s = if frame_proves_liveness f then record s { last_seen = now } else s

abbrev pub with_chunk : Bytes → StreamState → StreamState
with_chunk chunk st = record st { chunks = st.chunks ++ (chunk ∷ []) }

-- DATA is accepted behind a head, while the caller reads and its queue has room.
unfoldable pub accepts : Bytes → StreamState → Bool
accepts chunk st = is_some st.head && is_some (send_chunk st chunk)

unfoldable pub handle_data : ℕ → Bytes → Option StreamState → Session → Next
unfolding accepts refuse
handle_data id chunk none s = turn_away id (bytes "caller unavailable or response queue full") s
handle_data id chunk (some st) s =
    if accepts chunk st
    then on (put (with_chunk chunk) id s)
    else refuse id (bytes "caller unavailable or response queue full") s

unfoldable pub handle_end : ℕ → Bytes → Option StreamState → Session → Next
handle_end id reason none s = on s
handle_end id [] (some st) s = on (unregister id (put complete_stream id s))
handle_end id (b ∷ bs) (some st) s = on (unregister id (put fail_stream id s))

unfoldable pub set_head : ℕ → Option ResponseHead → Session → Next
unfolding refuse
set_head id none s = refuse id (bytes "invalid response head") s
set_head id (some res) s = on (put (λ st. record st { head = some res }) id s)

-- The task of a session: which session it serves, and its own variables.
pub record Task : Type 0 where
  pub id : Bytes
  pub generation : ℕ
  pub last_ping : ℕ
  pub revoked : Bool

pub data Event : Type 0 where
  lease_expired abort_changed ticked writer_closed socket_closed : Event
  incoming : Message → Event
  socket_failed : Fault → Event

abbrev pub pinged : ℕ → Task → Session → Result Session TrySendError → Next × Task
pinged now t s (ok s') = (on s', record t { last_ping = now })
pinged now t s (err e) = (broken (err (fault "write liveness PING to tether failed")) s, t)

unfoldable pub tick : Bool → ℕ → Task → Session → Next × Task
tick active now t s =
    if not active
    then (broken (ok tt) s, record t { revoked = true })
    else if ltb tether_silence (now - s.last_seen)
    then (broken (err (fault "tether silent past deadline")) s, t)
    else if leb tether_ping_interval (now - t.last_ping)
    then pinged now t s (try_send s ping)
    else (on s, t)

-- The loop goes on, or the task is over with the event that it reports and its result.
pub data EventKind : Type 0 where
  down_event revoked_event : EventKind

pub data Turn : Type 0 where
  going : Registry → Task → Turn
  over : Registry → EventKind → Result (Unit {0}) Fault → Turn

-- What follows the loop.
unfoldable pub teardown : Task → Session → Registry → Registry
teardown t s r =
    detach t.id t.generation (record r { sessions = insert t.generation (close s) r.sessions })

unfoldable pub settle : Next × Task → Registry → Turn
unfolding teardown
settle (on s, t) r = going (record r { sessions = insert t.generation s r.sessions }) t
settle (broken v s, t) r = over (teardown t s r) (if t.revoked then revoked_event else down_event) v

-- `StreamGuard::drop`: the upload stops and the stream is unregistered; the tether is told to stop,
-- unless the stream had ended, and if its queue is full the session is.
abbrev pub completed_of : Option StreamState → Bool
completed_of none = false
completed_of (some st) = st.completed

abbrev pub aborting : Session → Result Session TrySendError → Session
aborting s (ok s') = s'
aborting s (err full) = record s { abort = true }
aborting s (err closed_channel) = s

abbrev pub stop_upload : StreamState → StreamState
stop_upload st = record st { upload = abort_upload st.upload }

unfoldable pub drop_guard : ℕ → Session → Session
drop_guard id s =
    let s' = unregister id (put stop_upload id s) in
    if completed_of (get id s.states) then s' else aborting s' (try_send s' (end_frame id []))

module _ (http_parse : Bytes → Option (ℕ × ResponseHead))
    (http_build : ResponseHead → Option ResponseHead) where
  abbrev pub head_end : Bytes → Option (ℕ × ResponseHead) → Option (ResponseHead × Bytes)
  head_end input none = none
  head_end input (some (end, head)) =
      if leb end max_pending_head
      then elim (http_build head) [ none ↦ none | some res ↦ some (res, drop end input) ]
      else none

  unfoldable pub parse_head : Bytes → Option (ResponseHead × Bytes)
  parse_head input = head_end input (http_parse input)

  -- The filter of RESP_HEAD: a final status, nothing behind the head, and no head before it.
  abbrev pub final_head : StreamState → Option (ResponseHead × Bytes) → Option ResponseHead
  final_head st none = none
  final_head st (some (res, rest)) =
      if leb 200 res.status && (length rest == 0 && not (is_some st.head)) then some res else none

  unfoldable pub handle_head : ℕ → Bytes → Option StreamState → Session → Next
  unfolding set_head
  handle_head id head none s = on s
  handle_head id head (some st) s = set_head id (final_head st (parse_head head)) s

  -- `match frame`
  unfoldable pub dispatch : Frame → Session → Next
  unfolding handle_head handle_data handle_end
  dispatch ping s = reply s pong (fault "write PONG to tether failed")
  dispatch pong s = on s
  dispatch (go_away reason) s = broken (ok tt) s
  dispatch (open_frame id head) s =
      broken (err (fault "client sent OPEN; only the hub may initiate a request stream")) s
  dispatch (half_end id) s =
      broken (err (fault "client sent HALF_END; only the hub may finish a request body")) s
  dispatch (hello credential) s = broken (err (fault "unexpected HELLO/WELCOME mid-session")) s
  dispatch (welcome lease_secs) s = broken (err (fault "unexpected HELLO/WELCOME mid-session")) s
  dispatch (resp_head id head) s = handle_head id head (target s id) s
  dispatch (data_frame id chunk) s = handle_data id chunk (target s id) s
  dispatch (end_frame id reason) s = handle_end id reason (target s id) s

  unfoldable pub handle_frame : ℕ → Frame → Session → Next
  unfolding dispatch
  handle_frame now f s = dispatch f (seen now f s)

  -- `inp = stream.next()`
  abbrev pub received : ℕ → Session → Result (Option Frame) Fault → Next
  unfolding handle_frame
  received now s (err e) = broken (err e) s
  received now s (ok none) = on s
  received now s (ok (some f)) = handle_frame now f s

  -- The branches of `select!`; an aborted session breaks, and then `revoked` says whether it still
  -- is authorized.
  unfoldable pub step : Event → Bool → ℕ → Task → Session → Next × Task
  unfolding received tick decode_message
  step lease_expired active now t s = (broken (err (fault "authorization lease expired")) s, t)
  step abort_changed active now t s =
      if s.abort
      then (broken (err (fault "session cancelled")) s, record t { revoked = not active })
      else (on s, t)
  step ticked active now t s = tick active now t s
  step writer_closed active now t s = (broken (err (fault "tether writer closed")) s, t)
  step (incoming m) active now t s = (received now s (decode_message m), t)
  step (socket_failed e) active now t s = (broken (err e) s, t)
  step socket_closed active now t s = (broken (err (fault "tether closed")) s, t)

  pub turn_on : Event → ℕ → Task → Registry → Option Session → Turn
  unfolding settle step
  turn_on ev now t r none = going r t
  turn_on ev now t r (some s) = settle (step ev (is_active t.id now r) now t s) r

  -- One event of the task that serves the session `t.generation`, on the shared registry.
  unfoldable pub turn : Event → ℕ → Task → Registry → Turn
  unfolding turn_on
  turn ev now t r = turn_on ev now t r (get t.generation r.sessions)
