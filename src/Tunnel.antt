-- ===== src/Tunnel.antt =====
-- cargo/src/tunnel.rs: the tether's session with the hub (`run_session`), its streams and its
-- heartbeat. A time is a number of milliseconds.
pub mod Owned
pub mod Bounds
pub mod Steps
pub mod Inputs
pub mod Order
pub mod Config
pub mod Pump
pub mod Upload
pub mod Engine
pub mod Answer
pub mod Reframe
mod Tests
mod AnswerTests
use anvil_ring.Base.{
  ℕ, zero, suc, ◌+◌, ◌-◌, ◌*◌, ◌≤◌, ◌<◌, ◌≡◌, Bool, true, false, not, ◌&&◌, ◌||◌, Option, none,
  some, List, [], ◌∷◌, ◌++◌, Bytes, bytes, String, Map, get, insert, remove, nat_key, length, ltb,
  leb, ◌==◌, if◌then◌else◌, Result, ok, err,
}
use anvil_ring.Frames.{
  Frame, hello, welcome, open_frame, data_frame, resp_head, end_frame, half_end, ping, pong,
  go_away,
}
use anvil_ring.Socket.{
  Message, binary, text_message, close_message, raw, ping_message, pong_message, Fault, fault,
  whole,
}
use anvil_ring.Frames

abbrev pub max_concurrent_streams : ℕ
max_concurrent_streams = 64

abbrev pub stream_input_capacity : ℕ
stream_input_capacity = 64

abbrev pub ws_writer_capacity : ℕ
ws_writer_capacity = 256

abbrev pub ping_interval : ℕ
ping_interval = 10000

abbrev pub ping_timeout : ℕ
ping_timeout = 25000

-- `tunnel::decode`
unfoldable pub decode_message : Message → Result (Option Frame) Fault
decode_message (binary b) = whole (Frames.decode b)
decode_message (ping_message b) = ok none
decode_message (pong_message b) = ok none
decode_message (text_message b) = ok none
decode_message (close_message b) = err (fault "peer sent Close")
decode_message (raw b) = ok none

-- `StreamHandle`: the channel to the engine pump, with what waits in it and whether the pump still
-- holds its end, and the pump's task.
pub record StreamHandle : Type 0 where
  pub held : List Bytes
  pub receiving : Bool
  pub pump : ℕ

pub record Heartbeat : Type 0 where
  pub ping_tick : ℕ
  pub dead : ℕ
  pub overdue : ℕ
  pub pong_deadline : Option ℕ

abbrev pub heartbeat_at : ℕ → Heartbeat
heartbeat_at now = record {
  ping_tick = now + ping_interval;
  dead = now + ping_timeout;
  overdue = 0;
  pong_deadline = none;
}

abbrev pub mark_alive : Heartbeat → Heartbeat
mark_alive hb = record hb { overdue = 0 }

abbrev pub overdue_at : ℕ → Option ℕ → ℕ → ℕ
overdue_at now none n = n
overdue_at now (some dl) n = if leb dl now then n + 1 else n

unfoldable pub reset : ℕ → Heartbeat → Heartbeat
reset now hb =
    let n = overdue_at now hb.pong_deadline hb.overdue in
    record hb {
      ping_tick = now + ping_interval;
      overdue = n;
      dead = if leb 3 n then now else now + ping_timeout;
    }

-- The session: its streams, the queue of the socket's writer and whether the writer runs, the
-- pumps spawned so far (the stream and the head each was given; a pump's task is its place in the
-- list), and the tasks aborted so far.
pub record Tether : Type 0 where
  pub streams : Map ℕ StreamHandle
  pub queue : List Frame
  pub writer : Bool
  pub hb : Heartbeat
  pub spawned : List (ℕ × Bytes)
  pub aborted : List ℕ

abbrev pub full_queue : Fault
full_queue = fault "no available capacity"

abbrev pub closed_queue : Fault
closed_queue = fault "channel closed"

-- `tx.try_send(msg(..))`
unfoldable pub try_send : Tether → Frame → Result Tether Fault
try_send s f =
    if not s.writer
    then err closed_queue
    else if ltb (length s.queue) ws_writer_capacity
    then ok (record s { queue = s.queue ++ (f ∷ []) })
    else err full_queue

-- A handle that leaves the map is dropped, which aborts its pump.
abbrev pub drop_handle : Option StreamHandle → List ℕ → List ℕ
drop_handle none aborted = aborted
drop_handle (some h) aborted = h.pump ∷ aborted

unfoldable pub remove_stream : ℕ → Tether → Tether
remove_stream id s = record s {
  streams = remove id s.streams;
  aborted = drop_handle (get id s.streams) s.aborted;
}

-- `streams.insert`: the handle that the id had is dropped.
unfoldable pub insert_stream : ℕ → StreamHandle → Tether → Tether
insert_stream id h s = record s {
  streams = insert id h s.streams;
  aborted = drop_handle (get id s.streams) s.aborted;
}

pub data StreamInputResult : Type 0 where
  queued missing overloaded : StreamInputResult

-- `stream.tx.try_send(bytes)`
pub data InputSend : Type 0 where
  accepted : StreamHandle → InputSend
  full_input closed_input : InputSend

unfoldable pub send_input : Bytes → StreamHandle → InputSend
send_input chunk h =
    if not h.receiving
    then closed_input
    else if ltb (length h.held) stream_input_capacity
    then accepted (record h { held = h.held ++ (chunk ∷ []) })
    else full_input

unfoldable pub input_sent : ℕ → InputSend → Tether → StreamInputResult × Tether
unfolding remove_stream
input_sent id (accepted h) s = (queued, record s { streams = insert id h s.streams })
input_sent id full_input s = (overloaded, remove_stream id s)
input_sent id closed_input s = (queued, s)

unfoldable pub enqueue_on : ℕ → Bytes → Option StreamHandle → Tether → StreamInputResult × Tether
unfolding send_input input_sent
enqueue_on id chunk none s = (missing, s)
enqueue_on id chunk (some h) s = input_sent id (send_input chunk h) s

unfoldable pub enqueue_stream_input : ℕ → Bytes → Tether → StreamInputResult × Tether
unfolding enqueue_on
enqueue_stream_input id chunk s = enqueue_on id chunk (get id s.streams) s

-- What the loop does next: it goes round with the heartbeat re-armed (`fell`), goes round by
-- `continue` or from another arm (`on`), or ends.
pub data Next : Type 0 where
  fell on : Tether → Next
  broken : Result (Unit {0}) Fault → Tether → Next

abbrev pub sent : (Tether → Next) → Tether → Result Tether Fault → Next
sent next s (ok s') = next s'
sent next s (err e) = broken (err e) s

abbrev pub after_input : ℕ → StreamInputResult × Tether → Next
after_input id (queued, s) = fell s
after_input id (missing, s) = fell s
after_input id (overloaded, s) =
    sent fell s (try_send s (end_frame id (bytes "request body exceeded tether backpressure")))

abbrev pub new_handle : Tether → StreamHandle
new_handle s = record { held = []; receiving = true; pump = length s.spawned }

unfoldable pub spawn : ℕ → Bytes → Tether → Tether
unfolding insert_stream
spawn id head s = record (insert_stream id (new_handle s) s) {
  spawned = s.spawned ++ ((id, head) ∷ []);
}

unfoldable pub handle_open : ℕ → Bytes → Tether → Next
unfolding spawn
handle_open id head s =
    if leb max_concurrent_streams (length s.streams)
    then sent on s (try_send s (end_frame id (bytes "overloaded")))
    else fell (spawn id head s)

abbrev pub heard : Tether → Tether
heard s = record s { hb = record (mark_alive s.hb) { pong_deadline = none } }

-- `match frame`
unfoldable pub handle_frame : Frame → Tether → Next
unfolding handle_open enqueue_stream_input remove_stream
handle_frame ping s = sent fell s (try_send s pong)
handle_frame pong s = fell (heard s)
handle_frame (resp_head id head) s =
    broken (err (fault "hub sent RESP_HEAD; only the tether answers with a head")) s
handle_frame (go_away reason) s = broken (ok tt) s
handle_frame (open_frame id head) s = handle_open id head s
handle_frame (data_frame id chunk) s = after_input id (enqueue_stream_input id chunk s)
handle_frame (half_end id) s = after_input id (enqueue_stream_input id [] s)
handle_frame (end_frame id reason) s = fell (remove_stream id s)
handle_frame (hello credential) s = broken (err (fault "unexpected HELLO/WELCOME mid-session")) s
handle_frame (welcome lease_secs) s = broken (err (fault "unexpected HELLO/WELCOME mid-session")) s

unfoldable pub received : Result (Option Frame) Fault → Tether → Next
unfolding handle_frame
received (err e) s = broken (err e) s
received (ok none) s = on s
received (ok (some f)) s = handle_frame f s

pub data Event : Type 0 where
  completed : ℕ → Event
  lease_elapsed ping_due dead_due hub_closed : Event
  incoming : Message → Event
  socket_failed : Fault → Event

-- `let _ = tx.try_send(..)`
abbrev pub either_way : Tether → Result Tether Fault → Tether
either_way s (ok s') = s'
either_way s (err e) = s

abbrev pub rearm : ℕ → Tether → Tether
rearm now s = record s { hb = record s.hb { ping_tick = now + ping_interval } }

-- The arms of `select!`.
unfoldable pub step : Event → ℕ → Tether → Next
unfolding received remove_stream
step (completed id) now s = on (remove_stream id s)
step lease_elapsed now s =
    broken (ok tt) (either_way s (try_send s (go_away (bytes "lease refresh"))))
step ping_due now s = sent (λ s'. on (rearm now s')) s (try_send s ping)
step dead_due now s =
    broken (err (fault "heartbeat timeout: the hub did not answer before the liveness deadline")) s
step hub_closed now s = broken (err (fault "hub closed connection")) s
step (incoming m) now s = received (decode_message m) s
step (socket_failed e) now s = broken (err e) s

-- One turn of the loop. When it ends `serve_over` clears the streams, which drops their handles.
abbrev pub pumps_of : Map ℕ StreamHandle → List ℕ
pumps_of [] = []
pumps_of ((id, h) ∷ m) = h.pump ∷ pumps_of m

unfoldable pub clear : Tether → Tether
clear s = record s { streams = []; aborted = pumps_of s.streams ++ s.aborted }

pub data Turn : Type 0 where
  going : Tether → Turn
  over : Result (Unit {0}) Fault → Tether → Turn

unfoldable pub settle : ℕ → Next → Turn
unfolding clear reset
settle now (fell s) = going (record s { hb = reset now s.hb })
settle now (on s) = going s
settle now (broken v s) = over v (clear s)

unfoldable pub turn : Event → ℕ → Tether → Turn
unfolding step settle
turn ev now s = settle now (step ev now s)
