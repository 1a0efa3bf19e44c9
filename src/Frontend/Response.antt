-- ===== src/Frontend/Response.antt =====
-- A response on its way through the hub: the tether's frames, the end of the session and the reader
-- of the body, in any order.
pub mod Story
pub mod Steps
pub mod Genuine
mod Tests
use anvil_ring.Base.{
  ℕ, ◌≡◌, refl, sym, ap, subst, ◌∙◌, ◌⊎◌, Bool, true, false, Option, none, some, List, [], ◌∷◌,
  ◌++◌, append-nil, append_assoc, map, Bytes, get, insert, get-insert_self, nat_key, ◌==◌, ==_iff,
  if◌then◌else◌, arith, Bool-cases, inl, inr, Result, ok, err,
}
use anvil_ring.Frames.{
  Frame, hello, welcome, open_frame, data_frame, resp_head, end_frame, half_end, ping, pong,
  go_away,
}
use anvil_ring.Hub.State.{Session, StreamState, ResponseHead, Outcome, pending, complete, failed}
use anvil_ring.Hub.Session.{complete_stream, fail_stream, finish_upload, mem, update, close}
use anvil_ring.Hub.Session.Close.{close_streams, get-update}
use anvil_ring.Hub.Registry.{is_some}
use anvil_ring.Hub.Loop.{session_of, accepts, with_chunk, parse_head, final_head, handle_frame, put}
use anvil_ring.Hub.Loop.Stream.{
  View, Shows, given_head, given_data, given_end, registered, deliver, handle_frame-deliver,
}
use anvil_ring.Frontend.{Body, live, Poll, waiting, ready, Polled, IoError, poll_next, shut}

-- How far the reader of the body is.
pub data Reader : Type 0 where
  reading at_end interrupted : Reader

pub record World : Type 0 where
  pub session : Session
  pub reader : Reader
  pub taken : List Bytes

-- What may happen: a frame of the tether, the end of its session, a poll of the reader.
pub data Move : Type 0 where
  hears : ℕ → Frame → Move
  closes : Move
  polls : Bool → Move

-- The reader goes on until its body ends or fails.
abbrev pub polled : List Bytes → Poll → Reader × List Bytes
polled taken waiting = (reading, taken)
polled taken (ready none) = (at_end, taken)
polled taken (ready (some (ok c))) = (reading, taken ++ (c ∷ []))
polled taken (ready (some (err e))) = (interrupted, taken)

-- The body is only made when the head is there.
abbrev pub poll_when : Bool → Bool → StreamState → List Bytes → (Reader × List Bytes) × StreamState
poll_when false budget st taken = ((reading, taken), st)
poll_when true budget st taken =
    let p = poll_next budget (live true) st in (polled taken p.answer, p.state)

module _ (http_parse : Bytes → Option (ℕ × ResponseHead))
    (http_build : ResponseHead → Option ResponseHead) (id : ℕ) where
  abbrev read_on : Bool → Reader → Option StreamState → World → World
  read_on budget at_end o w = w
  read_on budget interrupted o w = w
  read_on budget reading none w = w
  read_on budget reading (some st) w =
      let r = poll_when (is_some st.head) budget st w.taken in
      record { session = put (λ x. r.1) id w.session; reader = r.0.0; taken = r.0.1 }

  unfoldable pub move : Move → World → World
  unfolding poll_next
  move (hears now f) w = record w {
    session = session_of (handle_frame http_parse http_build now f w.session);
  }
  move closes w = record w { session = close w.session }
  move (polls budget) w = read_on budget w.reader (get id w.session.states) w

  unfoldable pub moves : List Move → World → World
  unfolding move
  moves [] w = w
  moves (a ∷ later) w = moves later (move a w)

-- The frames of the tether that are part of a response on the stream.
unfoldable pub part_of : ℕ → Frame → List Frame
part_of id (resp_head i head) = if i == id then resp_head i head ∷ [] else []
part_of id (data_frame i chunk) = if i == id then data_frame i chunk ∷ [] else []
part_of id (end_frame i reason) = if i == id then end_frame i reason ∷ [] else []
part_of id (open_frame i head) = []
part_of id (half_end i) = []
part_of id (hello credential) = []
part_of id (welcome lease_secs) = []
part_of id (go_away reason) = []
part_of id ping = []
part_of id pong = []

unfoldable pub response_of : ℕ → List Move → List Frame
unfolding part_of
response_of id [] = []
response_of id (hears now f ∷ later) = part_of id f ++ response_of id later
response_of id (closes ∷ later) = response_of id later
response_of id (polls budget ∷ later) = response_of id later

abbrev pub data_frames : ℕ → List Bytes → List Frame
data_frames id [] = []
data_frames id (c ∷ cs) = data_frame id c ∷ data_frames id cs
