-- ===== src/Tunnel/AnswerTests.antt =====
-- An engine's response on its way to a reader, and a head that is reframed.
use anvil_ring.Base.{
  ℕ, ◌≡◌, ◌≢◌, refl, true, Option, some, List, [], ◌∷◌, ◌++◌, Bytes, bytes, get, insert, remove,
  nat_key, length, All, arith,
}
use anvil_ring.Hub.State.{ResponseHead}
use anvil_ring.Hub.Session.{
  new_stream, mem, delete, update, send_chunk, complete_stream, finish_upload,
}
use anvil_ring.Hub.Registry.{fresh_session}
use anvil_ring.Hub.Loop.{
  handle_frame, dispatch, handle_head, handle_data, handle_end, set_head, parse_head, seen, target,
  accepts,
}
use anvil_ring.Frames.{resp_head, data_frame, end_frame}
use anvil_ring.Frontend.{poll_next}
use anvil_ring.Frontend.Response.{
  World, Move, reading, at_end, hears, polls, move, moves, part_of, response_of,
}
use anvil_ring.Frontend.Response.Story.{Heads}
use anvil_ring.Tunnel.Pump.{ResponseFrame, chunk, trailers, response_frames, pump_frames}
use anvil_ring.Tunnel.Answer.{engine_chunks, unbroken, response-genuine}
use anvil_ring.Tunnel.Reframe.{keep, at_colon, all_chunked, reframe_head_for_tunnel}
use anvil_ring.Tunnel.Reframe.Wire.{Line, wire}
use anvil_ring.Tunnel.Reframe.Filter.{Filtered, keep-plain, reframe_head-Filtered}

abbrev whole_head : Bytes → Option (ℕ × ResponseHead)
whole_head input = some (length input, record { status = 200; headers = [] })

abbrev built : ResponseHead → Option ResponseHead
built head = some head

abbrev waiting_one : World
waiting_one = record {
  session = record (fresh_session 0) {
    streams = 1 ∷ [];
    states = (1, new_stream) ∷ [];
    next_id = 2;
  };
  reader = reading;
  taken = [];
}

abbrev engine_body : List ResponseFrame
engine_body = chunk (bytes "hi") ∷ chunk [] ∷ trailers ∷ []

abbrev all_moves : List Move
all_moves =
    hears 5 (resp_head 1 (bytes "head"))
    ∷ hears 5 (data_frame 1 (bytes "hi"))
    ∷ polls true
    ∷ hears 5 (end_frame 1 [])
    ∷ polls true
    ∷ []

moves-one : (moves whole_head built 1 all_moves waiting_one).reader ≡ at_end
unfolding moves move handle_frame dispatch handle_head handle_data handle_end set_head parse_head
    seen target accepts send_chunk complete_stream finish_upload update delete mem get insert remove
    poll_next
moves-one = refl

start-one :
    (mem 1 waiting_one.session.streams ≡ true)
    × (get 1 waiting_one.session.states ≡ some new_stream)
unfolding mem get
start-one = (refl, refl)

sent-one : response_of 1 all_moves ++ [] ≡ pump_frames 1 (bytes "head") engine_body
unfolding response_of part_of pump_frames response_frames
sent-one = refl

response-genuine_example :
    (unbroken engine_body ≡ true)
    × ((moves whole_head built 1 all_moves waiting_one).taken ≡ engine_chunks engine_body)
    × ((res : ResponseHead) × Heads whole_head built 1 (bytes "head") res)
response-genuine_example =
    response-genuine whole_head built 1 waiting_one new_stream all_moves (bytes "head") engine_body
      [] start-one.0 start-one.1 refl refl refl refl refl sent-one moves-one

abbrev coding : Bytes
coding = bytes "Transfer-Encoding: chunked"

abbrev kind : Bytes
kind = bytes "A: b"

status-plain : All (λ c. c ≢ b'\r') (bytes "HTTP/1.1 200 OK")
status-plain = ground arith

lines-plain : All Line (coding ∷ kind ∷ [])
lines-plain = ground arith

status-kept : keep (bytes "HTTP/1.1 200 OK") ≡ true
unfolding keep at_colon all_chunked
status-kept = refl

reframe_head-Filtered_example :
    (left : List Bytes) × Filtered (coding ∷ kind ∷ []) left
    × (reframe_head_for_tunnel (wire (bytes "HTTP/1.1 200 OK") (coding ∷ kind ∷ []) ++ bytes "body")
        ≡ wire (bytes "HTTP/1.1 200 OK") left)
reframe_head-Filtered_example =
    reframe_head-Filtered (bytes "HTTP/1.1 200 OK") (coding ∷ kind ∷ []) (bytes "body") status-plain
      (keep-plain (bytes "HTTP/1.1 200 OK") status-kept) lines-plain
