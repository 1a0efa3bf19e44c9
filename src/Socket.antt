-- ===== src/Socket.antt =====
-- What the two ends of the tunnel share: the messages of the WebSocket, and the failures of a
-- session's task, which are boxed errors in the program.
use anvil_ring.Base.{ℕ, Option, none, some, Bytes, String, Result, ok, err}
use anvil_ring.Frames.{Frame, FrameError}

-- `tungstenite::Message`
pub data Message : Type 0 where
  binary text_message close_message raw : Bytes → Message
  ping_message pong_message : Bytes → Message

pub data Fault : Type 0 where
  bad_frame : FrameError → Fault
  fault : String → Fault

abbrev pub whole : Result (Option (Frame × ℕ)) FrameError → Result (Option Frame) Fault
whole (err e) = err (bad_frame e)
whole (ok none) = err (fault "short tunnel frame")
whole (ok (some (frame, n))) = ok (some frame)
