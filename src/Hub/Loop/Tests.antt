-- ===== src/Hub/Loop/Tests.antt =====
-- The theorems on the session loop at concrete inputs. The head parser takes the whole input.
use anvil_ring.Base.{
  ℕ, ◌≡◌, refl, arith, true, false, Option, none, some, [], ◌∷◌, Bytes, bytes, get, insert, remove,
  bytes_key, nat_key, bytes_eq_iff, length, err,
}
use anvil_ring.Frames.{Frame, data_frame, end_frame}
use anvil_ring.Hub.State.{Registry, Session, StreamState, ResponseHead, default_lease}
use anvil_ring.Hub.Session.{new_stream, mem, delete, update, complete_stream, finish_upload}
use anvil_ring.Hub.Registry.{fresh_session}
use anvil_ring.Hub.Registry.Consistent.{Consistent}
use anvil_ring.Hub.Loop.{
  Task, socket_closed, over, down_event, turn, turn_on, settle, step, teardown, fault, session_of,
  handle_frame, dispatch, handle_end, seen, target,
}
use anvil_ring.Hub.Loop.Complete.{succeeded}
use anvil_ring.Hub.Loop.Teardown.{Gone, turn-Gone}
use anvil_ring.Hub.Loop.Stream.{Shows, deliver, handle_frame-deliver}

abbrev whole_head : Bytes → Option (ℕ × ResponseHead)
whole_head input = some (length input, record { status = 200; headers = [] })

abbrev built : ResponseHead → Option ResponseHead
built head = some head

-- The stream 1 has its head; the stream 2 has not.
abbrev headed : StreamState
headed = record new_stream { head = some (record { status = 200; headers = [] }) }

abbrev serving : Session
serving = record (fresh_session 0) {
  streams = 1 ∷ 2 ∷ [];
  states = (1, headed) ∷ (2, new_stream) ∷ [];
  next_id = 3;
}

abbrev hello_chunk : Frame
hello_chunk = data_frame 1 (bytes "hello")

ended-one :
    succeeded (get 1 (session_of (handle_frame whole_head built 5 (end_frame 1 []) serving)).states)
    ≡ true
unfolding get insert remove handle_frame dispatch handle_end seen target mem delete update
    complete_stream finish_upload
ended-one = refl

get-one : succeeded (get 1 serving.states) ≡ false
unfolding get
get-one = refl

target-one : target serving 1 ≡ some headed
unfolding get target mem
target-one = refl

abbrev task : Task
task = record { id = bytes "a"; generation = 1; last_ping = 0; revoked = false }

abbrev hub : Registry
hub = record {
  by_credential = [];
  by_id =
      (
        bytes "a",
        record {
          id = bytes "a";
          label = [];
          credential_hash = [];
          active = true;
          expires_at = none;
        },
      )
      ∷ [];
  live = (bytes "a", 1) ∷ [];
  sessions = (1, serving) ∷ [];
  next_generation = 2;
  lease = default_lease;
}

hub-Consistent : Consistent hub
unfolding get
hub-Consistent = record {
  ids = λ id t e. ground (arith, bytes_eq_iff (bytes "a") id);
  credentials = λ h id e. ground arith;
  registered = λ id g e. ground (arith, bytes_eq_iff (bytes "a") id);
  present = λ id g e. ground (arith, bytes_eq_iff (bytes "a") id);
  below = λ g e. ground arith;
  owner =
      λ id id' g e e'. ground (arith, bytes_eq_iff (bytes "a") id, bytes_eq_iff (bytes "a") id');
}

abbrev after : Registry
after = teardown task serving hub

turn-hub :
    turn whole_head built socket_closed 7 task hub
    ≡ over after down_event (err (fault "tether closed"))
unfolding turn turn_on settle step get
turn-hub = refl

turn-Gone_example : Gone (bytes "a") 1 hub after
turn-Gone_example =
    turn-Gone whole_head built socket_closed 7 task hub after down_event
      (err (fault "tether closed")) turn-hub

serving-one : Shows 1 serving (true, headed)
unfolding mem get
serving-one = (refl, refl)

handle_frame-deliver_example :
    Shows 1
      (session_of (handle_frame whole_head built 5 hello_chunk serving))
      (deliver whole_head built 1 hello_chunk (true, headed))
handle_frame-deliver_example =
    handle_frame-deliver whole_head built 1 5 hello_chunk serving (true, headed) serving-one
