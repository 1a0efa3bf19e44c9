-- ===== src/Frontend/Response/Tests.antt =====
-- A response of one chunk, read while it comes.
use anvil_ring.Base.{
  ℕ, ◌≡◌, refl, true, Option, some, List, [], ◌∷◌, ◌++◌, Bytes, bytes, get, insert, remove, nat_key,
  length,
}
use anvil_ring.Frames.{Frame, resp_head, data_frame, end_frame}
use anvil_ring.Hub.State.{ResponseHead}
use anvil_ring.Hub.Session.{
  new_stream, mem, delete, update, send_chunk, complete_stream, finish_upload,
}
use anvil_ring.Hub.Registry.{fresh_session}
use anvil_ring.Hub.Loop.{
  handle_frame, dispatch, handle_head, handle_data, handle_end, set_head, parse_head, seen, target,
  accepts,
}
use anvil_ring.Frontend.{poll_next}
use anvil_ring.Frontend.Response.{
  World, Move, reading, at_end, hears, polls, move, moves, response_of, data_frames,
}
use anvil_ring.Frontend.Response.Story.{Heads}
use anvil_ring.Frontend.Response.Genuine.{moves-genuine}

abbrev whole_head : Bytes → Option (ℕ × ResponseHead)
whole_head input = some (length input, record { status = 200; headers = [] })

abbrev built : ResponseHead → Option ResponseHead
built head = some head

abbrev waiting_one : World
waiting_one = record {
  session = record (fresh_session 0) {
    streams = 1 ∷ [];
    states = (1, new_stream) ∷ [];
    next_id = 2;
  };
  reader = reading;
  taken = [];
}

abbrev all_moves : List Move
all_moves =
    polls true
    ∷ hears 5 (resp_head 1 (bytes "head"))
    ∷ polls true
    ∷ hears 5 (data_frame 1 (bytes "hi"))
    ∷ polls true
    ∷ hears 5 (end_frame 1 [])
    ∷ polls true
    ∷ []

moves-one : (moves whole_head built 1 all_moves waiting_one).reader ≡ at_end
unfolding moves move handle_frame dispatch handle_head handle_data handle_end set_head parse_head
    seen target accepts send_chunk complete_stream finish_upload update delete mem get insert remove
    poll_next
moves-one = refl

start-one :
    (mem 1 waiting_one.session.streams ≡ true)
    × (get 1 waiting_one.session.states ≡ some new_stream)
unfolding mem get
start-one = (refl, refl)

moves-genuine_example :
    (head : Bytes) × (res : ResponseHead) × (rest : List Frame) × (response_of 1 all_moves
      ≡ resp_head 1 head
        ∷ (data_frames 1 (moves whole_head built 1 all_moves waiting_one).taken
            ++ (end_frame 1 [] ∷ rest)))
    × Heads whole_head built 1 head res
moves-genuine_example =
    moves-genuine whole_head built 1 waiting_one new_stream all_moves start-one.0 start-one.1 refl
      refl refl refl refl moves-one
