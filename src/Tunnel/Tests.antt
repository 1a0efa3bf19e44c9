-- ===== src/Tunnel/Tests.antt =====
-- Runs of the tether's session, and the theorems at concrete states.
use anvil_ring.Base.{
  ◌≡◌, refl, Bool, true, false, Option, none, some, List, [], ◌∷◌, ◌++◌, Bytes, bytes, get, nat_key,
  insert, remove, arith, ok, mem, bytes_eq, ◌↔◌, if◌then◌else◌,
}
use anvil_ring.Frames.{Frame, data_frame, half_end, open_frame, end_frame, encode}
use anvil_ring.Frames
use anvil_ring.Socket.{binary}
use anvil_ring.Hub.Upload.{BodyFrame, chunk, trailers, upload_frames, upload_result}
use anvil_ring.Tunnel.{
  Tether, StreamHandle, Event, incoming, dead_due, going, turn, decode_message, step, settle,
  received, handle_frame, handle_open, spawn, insert_stream, enqueue_stream_input, enqueue_on,
  send_input, input_sent, reset,
}
use anvil_ring.Tunnel.Bounds.{Sound, turn-Keeps, Keeps}
use anvil_ring.Tunnel.Steps.{
  Run, still, then_step, looped, took, opened, reachable-Sound, inputs_of, input_of,
}
use anvil_ring.Tunnel.Order.{Run-in_order}
use anvil_ring.Tunnel.Pump.{request_body, clean}
use anvil_ring.Tunnel.Upload.{upload-genuine, upload-arrives}
use anvil_ring.Tunnel.Config.{
  Uri, check_uri, url_is_loopback, trim_brackets, check_url, check_url_iff, IsSafe,
}

abbrev frame_event : Frame → Event
frame_event f = incoming (binary (encode f))

-- The state `s` with one stream, 3, at time 100, whose pump has `waiting`.
abbrev with_waiting : List Bytes → Tether
with_waiting waiting = record {
  streams = (3, record { held = waiting; receiving = true; pump = 0 }) ∷ [];
  queue = [];
  writer = true;
  hb = record { ping_tick = 10100; dead = 25100; overdue = 0; pong_deadline = none };
  spawned = (3, bytes "GET /") ∷ [];
  aborted = [];
}

abbrev handle_with : List Bytes → StreamHandle
handle_with waiting = record { held = waiting; receiving = true; pump = 0 }

open-Run : Run 3 (opened 0) [] [] (with_waiting [])
unfolding turn step settle received handle_frame handle_open spawn insert_stream decode_message
    Frames.decode encode insert inputs_of input_of enqueue_stream_input enqueue_on send_input
    input_sent reset get remove
open-Run = then_step still (looped (frame_event (open_frame 3 (bytes "GET /"))) 100 refl)

start-Sound : Sound (with_waiting [])
start-Sound = reachable-Sound 0 3 [] [] (with_waiting []) open-Run

data_turn :
    turn (frame_event (data_frame 3 (bytes "hi"))) 100 (with_waiting [])
    ≡ going (with_waiting (bytes "hi" ∷ []))
unfolding turn step settle received handle_frame handle_open spawn insert_stream decode_message
    Frames.decode encode insert inputs_of input_of enqueue_stream_input enqueue_on send_input
    input_sent reset get remove
data_turn = refl

half_end_turn :
    turn (frame_event (half_end 3)) 100 (with_waiting (bytes "hi" ∷ []))
    ≡ going (with_waiting (bytes "hi" ∷ [] ∷ []))
unfolding turn step settle received handle_frame handle_open spawn insert_stream decode_message
    Frames.decode encode insert inputs_of input_of enqueue_stream_input enqueue_on send_input
    input_sent reset get remove
half_end_turn = refl

upload-Run : Run 3 (with_waiting []) (bytes "hi" ∷ [] ∷ []) (bytes "hi" ∷ [] ∷ []) (with_waiting [])
unfolding turn step settle received handle_frame handle_open spawn insert_stream decode_message
    Frames.decode encode insert inputs_of input_of enqueue_stream_input enqueue_on send_input
    input_sent reset get remove
upload-Run =
    then_step
      (then_step
        (then_step
          (then_step still (looped (frame_event (data_frame 3 (bytes "hi"))) 100 data_turn))
          (looped (frame_event (half_end 3)) 100 half_end_turn))
        (took (handle_with (bytes "hi" ∷ [] ∷ [])) (bytes "hi") ([] ∷ []) refl refl))
      (took (handle_with ([] ∷ [])) [] [] refl refl)

abbrev greeting : List BodyFrame
greeting = chunk (bytes "hi") ∷ trailers ∷ []

Run-in_order_example : (bytes "hi" ∷ [] ∷ []) ++ [] ≡ (bytes "hi" ∷ [] ∷ [])
unfolding get
Run-in_order_example =
    Run-in_order 3 (handle_with []) (handle_with []) (bytes "hi" ∷ [] ∷ []) (bytes "hi" ∷ [] ∷ [])
      (with_waiting []) (with_waiting []) start-Sound refl refl upload-Run refl refl refl

upload-genuine_example : ((bytes "hi" ∷ []) ≡ (bytes "hi" ∷ [])) × (upload_result greeting ≡ ok tt)
unfolding turn step settle received handle_frame handle_open spawn insert_stream decode_message
    Frames.decode encode insert inputs_of input_of enqueue_stream_input enqueue_on send_input
    input_sent reset get remove upload_frames request_body
upload-genuine_example =
    upload-genuine 3 (handle_with []) (handle_with []) greeting (bytes "hi" ∷ [] ∷ [])
      (bytes "hi" ∷ [] ∷ []) [] (with_waiting []) (with_waiting []) start-Sound refl refl upload-Run
      refl refl refl (omega arith) (omega arith, (tt, tt)) refl false (bytes "hi" ∷ []) refl

upload-arrives_example : request_body (bytes "hi" ∷ [] ∷ []) false ≡ (bytes "hi" ∷ [], clean)
unfolding turn step settle received handle_frame handle_open spawn insert_stream decode_message
    Frames.decode encode insert inputs_of input_of enqueue_stream_input enqueue_on send_input
    input_sent reset get remove upload_frames
upload-arrives_example =
    upload-arrives 3 (handle_with []) (handle_with []) greeting (bytes "hi" ∷ [] ∷ [])
      (bytes "hi" ∷ [] ∷ []) [] (with_waiting []) (with_waiting []) start-Sound refl refl upload-Run
      refl refl refl (omega arith) (omega arith, (tt, tt)) refl refl refl

turn-Keeps_example : Keeps (turn dead_due 200 (with_waiting []))
turn-Keeps_example = turn-Keeps dead_due 200 (with_waiting []) start-Sound

-- Stand-ins for the parsers, which know one URL and one address.
abbrev one_uri : Bytes → Option Uri
one_uri url =
    if bytes_eq url (bytes "ws://[::1]:9")
    then some (record {
      scheme_str = some (bytes "ws");
      authority = some (bytes "[::1]:9");
      host = some (bytes "[::1]");
      query = none;
    })
    else none

abbrev one_ip : Bytes → Option Bool
one_ip host = if bytes_eq host (bytes "::1") then some true else none

check_url-one : check_url one_uri one_ip (λ b. b) (bytes "ws://[::1]:9") ≡ ok tt
unfolding check_url check_uri bytes_eq mem url_is_loopback trim_brackets
check_url-one = refl

check_url_iff_example :
    (check_url one_uri one_ip (λ b. b) (bytes "ws://[::1]:9") ≡ ok tt)
    ↔ ((uri : Uri) × IsSafe one_uri one_ip (λ b. b) (bytes "ws://[::1]:9") uri)
check_url_iff_example = check_url_iff one_uri one_ip (λ b. b) (bytes "ws://[::1]:9")
