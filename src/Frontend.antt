-- ===== src/Frontend.antt =====
-- cargo/src/frontend.rs: the streaming body of a response, and the answer to a caller.
pub mod Drain
pub mod Answers
pub mod Response
mod Tests
use anvil_ring.Base.{
  ℕ, zero, suc, Bool, true, false, not, ◌&&◌, Option, none, some, List, [], ◌∷◌, ◌++◌, Bytes, bytes,
  String, leb, bytes_eq, if◌then◌else◌, Result, ok, err,
}
use anvil_ring.Headers.{is_hop_by_hop}
use anvil_ring.Proxy.{authorized}
use anvil_ring.Hub.State.{
  StreamState, Outcome, pending, complete, failed, ResponseHead, ForwardError, no_tether, revoked,
  exhausted, tether_gone, tether_busy, caller_body,
}
use anvil_ring.Hub.Registry.{TetherState, up, stale, down}

-- `TunnelBody`: a live one knows whether its slot still holds the receiver; the receiver's channel
-- is in the stream state.
pub data Body : Type 0 where
  live : Bool → Body
  fixed : Bytes → Body

pub data IoError : Type 0 where
  unexpected_eof : String → IoError

pub data Poll : Type 0 where
  waiting : Poll
  ready : Option (Result Bytes IoError) → Poll

pub record Polled : Type 0 where
  pub answer : Poll
  pub body : Body
  pub state : StreamState

-- The receiver is dropped, or closed after completion; queued chunks can still be read.
abbrev pub shut : StreamState → StreamState
shut st = record st { receiver = false }

-- `poll_recv`: nothing while the task's budget is used up, else a chunk, or the end of a closed and
-- drained channel. The senders live as long as the body, so only `close` closes it.
abbrev pub recv : Bool → Bool → List Bytes → StreamState → Polled
recv false closed chunks st = record { answer = waiting; body = live true; state = st }
recv true closed (c ∷ cs) st = record {
  answer = ready (some (ok c));
  body = live true;
  state = record st { chunks = cs };
}
recv true true [] st = record { answer = ready none; body = live false; state = shut st }
recv true false [] st = record { answer = waiting; body = live true; state = st }

abbrev pub poll_live : Bool → Outcome → StreamState → Polled
poll_live budget failed st = record {
  answer = ready (some (err (unexpected_eof "upstream response interrupted")));
  body = live false;
  state = shut st;
}
poll_live budget complete st = recv budget true st.chunks (shut st)
poll_live budget pending st = recv budget false st.chunks st

-- `poll_next`; `budget` says whether the runtime lets the task receive now.
unfoldable pub poll_next : Bool → Body → StreamState → Polled
poll_next budget (fixed []) st = record { answer = ready none; body = fixed []; state = st }
poll_next budget (fixed (b ∷ bs)) st = record {
  answer = ready (some (ok (b ∷ bs)));
  body = fixed [];
  state = st;
}
poll_next budget (live false) st = record { answer = ready none; body = live false; state = st }
poll_next budget (live true) st = poll_live budget st.outcome st

-- `is_end_stream`
abbrev pub is_end_stream : Body → Bool
is_end_stream (live b) = false
is_end_stream (fixed []) = true
is_end_stream (fixed (b ∷ bs)) = false

-- `caller_status_for`; `StatusCode::from_u16` takes 100 to 999.
unfoldable pub caller_status_for : Option ℕ → ℕ
caller_status_for none = 502
caller_status_for (some code) = if leb 100 code && leb code 999 then code else 502

abbrev pub status_of : ForwardError → ℕ
status_of no_tether = 502
status_of tether_gone = 502
status_of revoked = 503
status_of tether_busy = 503
status_of exhausted = 429
status_of caller_body = 400

pub data Content : Type 0 where
  streamed : Content
  text : Bytes → Content

pub record Answer : Type 0 where
  pub status : ℕ
  pub headers : List (Bytes × Bytes)
  pub content : Content

abbrev pub error_response : ℕ → Answer
error_response status = record {
  status = status;
  headers = (bytes "content-length", bytes "0") ∷ [];
  content = text [];
}

abbrev pub is_up : TetherState → Bool
is_up (up n) = true
is_up (stale n) = false
is_up down = false

pub any_up : List (Bytes × Bytes × TetherState) → Bool
any_up [] = false
any_up ((id, label, s) ∷ rest) = if is_up s then true else any_up rest

unfoldable pub health : List (Bytes × Bytes × TetherState) → Answer
unfolding any_up
health status = record {
  status = 200;
  headers = [];
  content = text (if any_up status then bytes "ok tether-up\n" else bytes "ok tether-down\n");
}

-- The fields that cross this hop.
pub end_to_end : List (Bytes × Bytes) → List (Bytes × Bytes)
end_to_end [] = []
end_to_end ((name, value) ∷ hs) =
    let rest = end_to_end hs in if is_hop_by_hop name then rest else (name, value) ∷ rest

-- What a request comes to: the liveness check, a bad token, or an attempt to forward it, with the
-- head that `Forwarded::head` waits for.
pub data Request : Type 0 where
  liveness : List (Bytes × Bytes × TetherState) → Request
  unauthorized : Request
  forwarded : Result (Option ResponseHead) ForwardError → Request

-- What the checks of `handle` make of a request, from its method, path and `Authorization`, the
-- registry's status, the caller token, and what forwarding it comes to.
unfoldable pub admit_request :
    Bytes
    → Bytes
    → Option (Option Bytes)
    → Bytes
    → List (Bytes × Bytes × TetherState)
    → Result (Option ResponseHead) ForwardError
    → Request
unfolding authorized
admit_request method path header token status result =
    if bytes_eq method (bytes "GET") && bytes_eq path (bytes "/healthz")
    then liveness status
    else if not (authorized header token)
    then unauthorized
    else forwarded result

-- `http_accepts` is the response builder of the crate `http`: which fields it takes.
module _ (http_accepts : List (Bytes × Bytes) → Bool) where
  unfoldable pub republish : ResponseHead → Answer
  unfolding end_to_end
  republish head =
      if http_accepts (end_to_end head.headers)
      then record {
        status = caller_status_for (some head.status);
        headers = end_to_end head.headers;
        content = streamed;
      }
      else error_response 500

  -- `handle`
  unfoldable pub handle : Request → Answer
  unfolding republish health
  handle (liveness status) = health status
  handle unauthorized = error_response 401
  handle (forwarded (err e)) = error_response (status_of e)
  handle (forwarded (ok none)) = error_response (caller_status_for none)
  handle (forwarded (ok (some head))) = republish head
