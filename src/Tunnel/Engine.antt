-- ===== src/Tunnel/Engine.antt =====
-- cargo/src/tunnel.rs, `forward_engine`: the request that the engine gets, and the head of its response
-- that goes back through the tunnel.
use anvil_ring.Base.{
  ℕ, ◌≡◌, Bool, true, false, not, ◌||◌, Option, none, some, List, [], ◌∷◌, Bytes, bytes,
  if◌then◌else◌, Result, ok, err, ok_or, ◌>>=◌,
}
use anvil_ring.Text.{trim, split, eq_ignore_ascii_case}
use anvil_ring.Socket.{Fault, fault}
use anvil_ring.Headers.{strip_hop_by_hop}
use anvil_ring.Headers.Fields.{HeaderMap, contains_key}
use anvil_ring.Headers.Print.{response_head}
use anvil_ring.Frames.{Frame, resp_head}
pub mod Laws
pub mod Relay
pub mod Back
mod Tests

-- `httparse::Request`, and whether its head was complete.
pub record ParsedRequest : Type 0 where
  pub complete : Bool
  pub method : Option Bytes
  pub path : Option Bytes
  pub headers : List (Bytes × Bytes)

pub record EngineRequest (M : Type 0) : Type 0 where
  pub method : Bytes
  pub uri : Bytes
  pub headers : M

-- A value of the response's `Transfer-Encoding` with a coding that is not `chunked`.
unfoldable pub any_unsupported : List Bytes → Bool
any_unsupported [] = false
any_unsupported (t ∷ ts) =
    not (eq_ignore_ascii_case (trim t) (bytes "chunked")) || any_unsupported ts

abbrev pub coding_check : Option Bytes → Result (Unit {0}) Fault
coding_check none = err (fault "failed to convert header to a str")
coding_check (some s) =
    if any_unsupported (split b',' s)
    then err (fault "unsupported upstream transfer coding")
    else ok tt

unfoldable pub check_codings : (Bytes → Option Bytes) → List Bytes → Result (Unit {0}) Fault
unfolding any_unsupported
check_codings to_str [] = ok tt
check_codings to_str (v ∷ vs) = coding_check (to_str v) >>= λ u. check_codings to_str vs

abbrev pub parsed_head : (Bytes → Result ParsedRequest Fault) → Bytes → Result ParsedRequest Fault
parsed_head http_parse head =
    http_parse head >>= λ p. if p.complete then ok p else err (fault "incomplete request head")

-- `http_parse` is `httparse::Request::parse`; `http_takes` says which method and target the builder of
-- the crate `http` takes.
module _ {M : Type 0} ⦃h : HeaderMap M⦄ where
  -- The fields for the engine, from those of the head and the text of its address.
  abbrev framed : M → M
  framed m =
      if contains_key (bytes "content-length") m
      then m
      else h.insert (bytes "transfer-encoding") (bytes "chunked") m

  unfoldable pub engine_headers : Bytes → M → M
  engine_headers host m =
      framed (h.remove (bytes "expect") (h.insert (bytes "host") host (strip_hop_by_hop m).1))

  module _ (http_parse : Bytes → Result ParsedRequest Fault)
      (http_takes : Bytes → Bytes → Bool) where
    abbrev build_request : Bytes → Bytes → List (Bytes × Bytes) → Option M
    build_request method path fs = if http_takes method path then h.build fs else none

    -- `addr` is what `loopback_authority` makes of the upstream's address, as `to_string` writes it.
    unfoldable pub engine_request : Result Bytes Fault → Bytes → Result (EngineRequest M) Fault
    unfolding engine_headers
    engine_request addr head = addr >>= λ a. parsed_head http_parse head >>= λ p.
        ok_or p.method (fault "missing method") >>= λ method.
        ok_or p.path (fault "missing path") >>= λ path.
        ok_or (build_request method path p.headers) (fault "invalid request headers") >>= λ m.
        ok_or (h.from_str a) (fault "failed to parse header value") >>= λ host.
        ok (record { method = method; uri = path; headers = engine_headers host m })

  -- The frame that carries the response's head to the hub, or the failure of the exchange.
  unfoldable pub reply_head : ℕ → ℕ → Option Bytes → M → Result Frame Fault
  unfolding check_codings
  reply_head id code reason m =
      check_codings h.to_str (h.get_all (bytes "transfer-encoding") m) >>= λ u.
      ok (resp_head id (response_head code reason m))
