-- ===== src/Tunnel/Engine/Tests.antt =====
-- The exchange with an engine at concrete requests and responses.
use anvil_ring.Base.{
  ℕ, ◌≤◌, ◌≡◌, ◌↔◌, refl, Bool, true, Option, none, some, get, nat_key, ◌++◌, List, [], ◌∷◌, Bytes,
  bytes, bytes_eq, bytes_eq_refl, mem, All, arith, length, if◌then◌else◌, Result, ok, err,
}
use anvil_ring.Text.{trim, trim_start, trim_end, split, is_whitespace, to_ascii_lowercase}
use anvil_ring.Text.Decimal.{to_decimal}
use anvil_ring.Socket.{Fault, fault}
use anvil_ring.Frames.{Frame, resp_head}
use anvil_ring.Hub.State.{ResponseHead, Session, StreamState, max_pending_head}
use anvil_ring.Headers.{
  contains, add_tokens, conditional, remove_all, remove_named, strip_hop_by_hop,
}
use anvil_ring.Headers.Fields.{values}
use anvil_ring.Headers.Assoc.{assoc_map, name_chars, text_chars, remove, fields, all_names}
use anvil_ring.Headers.Print.{encode_request_head, response_head}
use anvil_ring.Tunnel.Engine.{ParsedRequest, engine_request, check_codings, reply_head}
use anvil_ring.Tunnel.Engine.Laws.{Framed}
use anvil_ring.Tunnel.Engine.Relay.{OnlyChunked, engine_request-relays, reply_head_iff}
use anvil_ring.Tunnel.Engine.Back.{head_for, Relayed, reply_head-Relayed}
use anvil_ring.Frontend.{handle, forwarded}
use anvil_ring.Hub.Session.{new_stream, head_poll, known, mem as has}
use anvil_ring.Hub.Registry.{fresh_session}
use anvil_ring.Hub.Loop.{handle_frame, session_of}
use anvil_ring.Hub.Loop.Stream.{Shows}
use anvil_ring.Headers.Wire.{status_wire, request_wire}

abbrev get_text : Bytes
get_text = bytes "GET"

abbrev models : Bytes
models = bytes "/v1/models"

-- A caller's fields, and those that the hub leaves of them.
abbrev given : List (Bytes × Bytes)
given =
    (bytes "host", bytes "hub")
    ∷ (bytes "connection", bytes "X-Secret")
    ∷ (bytes "x-secret", bytes "s")
    ∷ (bytes "accept", bytes "*/*")
    ∷ []

abbrev left : List (Bytes × Bytes)
left = (bytes "accept", bytes "*/*") ∷ []

left-fields : assoc_map.fields (strip_hop_by_hop given).1 ≡ left
unfolding strip_hop_by_hop conditional add_tokens contains remove_all remove_named assoc_map
    name_chars text_chars remove values trim trim_start trim_end split is_whitespace
    to_ascii_lowercase bytes_eq mem fields
left-fields = refl

abbrev parsed : ParsedRequest
parsed = record {
  complete = true;
  method = some get_text;
  path = some models;
  headers = assoc_map.fields (strip_hop_by_hop given).1;
}

-- The caller's request as the tether has to read it, and a parser that knows this text alone.
abbrev get_models : Bytes
get_models =
    bytes "GET /v1/models HTTP/1.1"
    ++ (b'\r' ∷ b'\n' ∷ (bytes "accept: */*" ++ (b'\r' ∷ b'\n' ∷ b'\r' ∷ b'\n' ∷ [])))

abbrev parser : Bytes → Result ParsedRequest Fault
parser head = if bytes_eq head get_models then ok parsed else err (fault "invalid token")

parser-own :
    parser (request_wire get_text models (assoc_map.fields (strip_hop_by_hop given).1)) ≡ ok parsed
parser-own = rw (left-fields, bytes_eq_refl get_models) refl

abbrev takes_all : Bytes → Bytes → Bool
takes_all method path = true

left-build : assoc_map.build (assoc_map.fields (strip_hop_by_hop given).1) ≡ some left
unfolding assoc_map all_names name_chars to_ascii_lowercase mem
left-build = rw left-fields refl

address_text : assoc_map.from_str (bytes "127.0.0.1:8000") ≡ some (bytes "127.0.0.1:8000")
unfolding assoc_map text_chars
address_text = refl

engine_request-relays_example :
    (m' : List (Bytes × Bytes)) × (engine_request parser takes_all
        (ok (bytes "127.0.0.1:8000"))
        (encode_request_head get_text models given)
      ≡ ok (record { method = get_text; uri = models; headers = m' }))
    × Framed (bytes "127.0.0.1:8000") given m'
engine_request-relays_example =
    engine_request-relays parser takes_all get_text models (bytes "127.0.0.1:8000")
      (bytes "127.0.0.1:8000") given left parser-own refl left-build address_text

-- A response with a coding that is not `chunked` alone.
abbrev zipped : List (Bytes × Bytes)
zipped = (bytes "transfer-encoding", bytes "gzip, chunked") ∷ []

reply_head_iff_example :
    (reply_head 3 200 (some (bytes "OK")) zipped
      ≡ ok (resp_head 3 (response_head 200 (some (bytes "OK")) zipped)))
    ↔ (All
          (λ v. OnlyChunked (assoc_map.to_str v))
          (assoc_map.get_all (bytes "transfer-encoding") zipped)
        × ◌≡◌ {A = Frame}
            (resp_head 3 (response_head 200 (some (bytes "OK")) zipped))
            (resp_head 3 (response_head 200 (some (bytes "OK")) zipped)))
reply_head_iff_example =
    reply_head_iff 3 200 (some (bytes "OK")) zipped
      (resp_head 3 (response_head 200 (some (bytes "OK")) zipped))

-- The engine's response as the hub has to read it, and a parser that knows this text alone.
abbrev ok_text : Bytes
ok_text =
    bytes "HTTP/1.1 200 OK"
    ++ (b'\r' ∷ b'\n' ∷ (bytes "accept: */*" ++ (b'\r' ∷ b'\n' ∷ b'\r' ∷ b'\n' ∷ [])))

abbrev ok_frame : Frame
ok_frame = resp_head 3 (response_head 200 (some (bytes "OK")) given)

abbrev ok_read : ResponseHead
ok_read = record { status = 200; headers = left }

abbrev response_parser : Bytes → Option (ℕ × ResponseHead)
response_parser text = if bytes_eq text ok_text then some (length ok_text, ok_read) else none

response_parser-own :
    response_parser (status_wire 200 (bytes "OK") (assoc_map.fields (strip_hop_by_hop given).1))
    ≡ some (
      length (status_wire 200 (bytes "OK") (assoc_map.fields (strip_hop_by_hop given).1)),
      head_for 200 given,
    )
unfolding to_decimal
response_parser-own = rw (left-fields, bytes_eq_refl ok_text) refl

abbrev as_parsed : ResponseHead → Option ResponseHead
as_parsed res = some res

abbrev any_fields : List (Bytes × Bytes) → Bool
any_fields hs = true

ok_text-fits :
    length (status_wire 200 (bytes "OK") (assoc_map.fields (strip_hop_by_hop given).1))
    ≤ max_pending_head
unfolding to_decimal
ok_text-fits = rw left-fields (omega arith)

ok_frame-sent : reply_head 3 200 (some (bytes "OK")) given ≡ ok ok_frame
unfolding reply_head check_codings assoc_map name_chars text_chars values to_ascii_lowercase
    bytes_eq mem
ok_frame-sent = refl

abbrev serving : Session
serving = record (fresh_session 0) { streams = 3 ∷ []; states = (3, new_stream) ∷ [] }

serving-Shows : Shows 3 serving (true, new_stream)
unfolding get has
serving-Shows = (refl, refl)

reply_head-Relayed_example :
    (st' : StreamState) × Shows 3
      (session_of (handle_frame response_parser as_parsed 5 ok_frame serving))
      (true, st')
    × (head_poll st' ≡ known (head_for 200 given))
    × Relayed any_fields 200 given (handle any_fields (forwarded (ok (some (head_for 200 given)))))
reply_head-Relayed_example =
    reply_head-Relayed response_parser as_parsed any_fields 5 3 200 (some (bytes "OK")) given
      ok_frame serving new_stream ok_frame-sent serving-Shows refl (omega arith) (omega arith)
      ok_text-fits response_parser-own refl refl
