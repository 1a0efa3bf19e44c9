-- ===== src/Proxy.antt =====
-- cargo/src/proxy.rs: the token check, the rule of the loopback upstream, and the guards of `handle`.
pub mod Guards
pub mod Relay
mod Tests
use anvil_ring.Base.{
  ℕ, zero, suc, ◌+◌, ◌*◌, ◌/◌, ◌%◌, ◌<◌, ◌≡◌, Bool, true, false, not, ◌&&◌, ◌||◌, Option, none,
  some, List, [], ◌∷◌, ◌++◌, Bytes, bytes, length, ltb, ◌==◌, if◌then◌else◌, Result, ok, err, ok_or,
  ◌>>=◌, mem, bytes_eq,
}
use anvil_ring.Text.{eq_ignore_ascii_case}
use anvil_ring.Text.Decimal.{from_str_radix}
use anvil_ring.Socket.{Fault, fault}
use anvil_ring.Tunnel.Config.{Uri, is_text, absent, trim_brackets}

-- `^` and `|` on the low `w` bits.
unfoldable pub bit_xor : ℕ → ℕ → ℕ → ℕ
bit_xor zero a b = 0
bit_xor (suc w) a b = (if a % 2 == b % 2 then 0 else 1) + 2 * bit_xor w (a / 2) (b / 2)

unfoldable pub bit_or : ℕ → ℕ → ℕ → ℕ
bit_or zero a b = 0
bit_or (suc w) a b = (if a % 2 == 0 && b % 2 == 0 then 0 else 1) + 2 * bit_or w (a / 2) (b / 2)

-- The loop of `constant_eq` over both slices, on `u8`.
unfoldable pub difference : ℕ → Bytes → Bytes → ℕ
unfolding bit_xor bit_or
difference diff [] b = diff
difference diff (x ∷ a) [] = diff
difference diff (x ∷ a) (y ∷ b) = difference (bit_or 8 diff (bit_xor 8 x y)) a b

unfoldable pub constant_eq : Bytes → Bytes → Bool
unfolding difference
constant_eq a b = if not (length a == length b) then false else difference 0 a b == 0

unfoldable pub strip_prefix : Bytes → Bytes → Option Bytes
strip_prefix [] s = some s
strip_prefix (p ∷ ps) [] = none
strip_prefix (p ∷ ps) (c ∷ s) = let rest = strip_prefix ps s in if p == c then rest else none

-- The value of `Authorization`, if there is one, as the text that `to_str` makes of it, if it does.
abbrev pub bearer_matches : Option Bytes → Bytes → Bool
bearer_matches none expected = false
bearer_matches (some got) expected = constant_eq got expected

unfoldable pub authorized : Option (Option Bytes) → Bytes → Bool
unfolding constant_eq strip_prefix
authorized none expected = false
authorized (some none) expected = false
authorized (some (some s)) expected = bearer_matches (strip_prefix (bytes "Bearer ") s) expected

-- `forward_uri`: the text that is parsed, from the upstream and the request's path and query.
abbrev pub or_http : Option Bytes → Bytes
or_http none = bytes "http"
or_http (some scheme) = scheme

abbrev pub or_root : Bytes → Bytes
or_root [] = bytes "/"
or_root (c ∷ cs) = c ∷ cs

abbrev pub query_text : Option Bytes → Bytes
query_text none = []
query_text (some q) = bytes "?" ++ q

unfoldable pub forward_text : Option Bytes → Option Bytes → Bytes → Option Bytes → Option Bytes
forward_text scheme none path query = none
forward_text scheme (some authority) path query =
    some (or_http scheme ++ (bytes "://" ++ (authority ++ (or_root path ++ query_text query))))

-- `contains("://")`
abbrev is_found : Option Bytes → Bool
is_found none = false
is_found (some rest) = true

unfoldable pub contains : Bytes → Bytes → Bool
unfolding strip_prefix
contains needle [] = is_found (strip_prefix needle [])
contains needle (c ∷ s) = is_found (strip_prefix needle (c ∷ s)) || contains needle s

-- `std::net::SocketAddr`, and `http::uri::Authority` as the rule reads it.
pub record SocketAddr (Ip : Type 0) : Type 0 where
  pub ip : Ip
  pub port : ℕ

pub record Authority : Type 0 where
  pub host : Bytes
  pub port : Option Bytes

abbrev pub invalid : Fault
invalid = fault "invalid loopback upstream authority"

-- The standard library parses addresses, the crate `http` URLs and authorities; `localhost` is
-- `Ipv4Addr::LOCALHOST`.
module _ {Ip : Type 0} (parse_uri : Bytes → Option Uri)
    (parse_addr : Bytes → Option (SocketAddr Ip)) (parse_ip : Bytes → Option Ip)
    (parse_authority : Bytes → Option Authority) (ip_is_loopback : Ip → Bool) (localhost : Ip) where
  abbrev pub uri_authority : Bytes → Option Uri → Result Bytes Fault
  uri_authority text none = err invalid
  uri_authority text (some uri) =
      if not (is_text uri.scheme_str (bytes "http")) || (not (absent uri.query) || mem b'#' text)
      then err invalid
      else ok_or uri.authority invalid

  unfoldable pub authority_of : Bytes → Result Bytes Fault
  unfolding contains
  authority_of text =
      if contains (bytes "://") text then uri_authority text (parse_uri text) else ok text

  abbrev pub parse_u16 : Bytes → Option ℕ → Result ℕ Fault
  parse_u16 text none = err invalid
  parse_u16 text (some n) = if ltb n 65536 then ok n else err invalid

  abbrev pub port_of : ℕ → Option Bytes → Result ℕ Fault
  port_of default_port none = ok default_port
  port_of default_port (some text) = parse_u16 text (from_str_radix 10 text)

  abbrev pub host_ip : Bytes → Result Ip Fault
  host_ip host =
      if eq_ignore_ascii_case host (bytes "localhost")
      then ok localhost
      else ok_or (parse_ip host) invalid

  abbrev pub named_addr : ℕ → Option Authority → Result (SocketAddr Ip) Fault
  named_addr default_port none = err invalid
  named_addr default_port (some a) = host_ip (trim_brackets a.host) >>= λ i.
      port_of default_port a.port >>= λ p. ok (record { ip = i; port = p })

  abbrev pub plain_addr : Bytes → ℕ → Option Ip → Result (SocketAddr Ip) Fault
  plain_addr text default_port none = named_addr default_port (parse_authority text)
  plain_addr text default_port (some i) = ok (record { ip = i; port = default_port })

  abbrev pub addr_of : Bytes → ℕ → Option (SocketAddr Ip) → Result (SocketAddr Ip) Fault
  addr_of text default_port none = plain_addr text default_port (parse_ip (trim_brackets text))
  addr_of text default_port (some addr) = ok addr

  abbrev pub if_loopback : SocketAddr Ip → Result (SocketAddr Ip) Fault
  if_loopback addr =
      if not (ip_is_loopback addr.ip)
      then err (fault "serving upstream must use loopback")
      else ok addr

  abbrev pub without_user : Bytes → ℕ → Result (SocketAddr Ip) Fault
  without_user authority default_port =
      if mem b'@' authority
      then err invalid
      else addr_of authority default_port (parse_addr authority) >>= if_loopback

  unfoldable pub loopback_authority : Bytes → ℕ → Result (SocketAddr Ip) Fault
  unfolding authority_of trim_brackets
  loopback_authority text default_port =
      authority_of text >>= λ authority. without_user authority default_port

  abbrev pub is_ok : Result (SocketAddr Ip) Fault → Bool
  is_ok (ok addr) = true
  is_ok (err e) = false

  unfoldable pub is_loopback : Bytes → Bool
  unfolding loopback_authority
  is_loopback upstream = is_ok (loopback_authority upstream 80)

  -- What `handle` does with a request: it answers with a status, or forwards.
  pub data Handled : Type 0 where
    answered : ℕ → Handled
    forwards : Handled

  abbrev pub may_call : Option Bytes → Option (Option Bytes) → Bool
  may_call none header = true
  may_call (some expected) header = authorized header expected

  unfoldable pub handle : Option Bytes → Bytes → Bytes → Bytes → Option (Option Bytes) → Handled
  unfolding is_loopback authorized
  handle token upstream method path header =
      if not (may_call token header)
      then answered 401
      else if not (is_loopback upstream)
      then answered 503
      else if bytes_eq method (bytes "GET") && bytes_eq path (bytes "/-ring/health")
      then answered 200
      else forwards
