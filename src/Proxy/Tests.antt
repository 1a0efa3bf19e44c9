-- ===== src/Proxy/Tests.antt =====
-- The proxy's guards at concrete requests.
use anvil_ring.Base.{
  ◌≡◌, refl, Bool, true, Option, none, some, ◌++◌, Bytes, bytes, All, IsByte, arith, bytes_eq,
  if◌then◌else◌, Result, ok, mem, subst, List, [], ◌∷◌,
}
use anvil_ring.Tunnel.Config.{Uri}
use anvil_ring.Socket.{Fault}
use anvil_ring.Text.{trim, trim_start, trim_end, split, is_whitespace, to_ascii_lowercase}
use anvil_ring.Headers.{add_tokens, conditional, remove_all, remove_named, strip_hop_by_hop}
use anvil_ring.Headers
use anvil_ring.Headers.Fields.{values}
use anvil_ring.Headers.Assoc.{assoc_map, name_chars, text_chars, remove}
use anvil_ring.Proxy.Relay.{
  Requested, Upstream, Parts, forward_uri, forward, Forwarded, forward-Forwarded,
}
use anvil_ring.Proxy.{
  authorized, SocketAddr, Authority, loopback_authority, handle, forwards, constant_eq,
  strip_prefix, difference, bit_or, bit_xor, contains, authority_of, is_loopback, forward_text,
}
use anvil_ring.Proxy.Guards.{handle-guarded}

abbrev key : Bytes
key = bytes "key"

key-bytes : All IsByte key
key-bytes = (omega arith, (omega arith, (omega arith, tt)))

forward_text-models :
    forward_text
      (some (bytes "http"))
      (some (bytes "127.0.0.1:8000"))
      (bytes "/v1/models")
      (some (bytes "extra=1"))
    ≡ some (bytes "http://127.0.0.1:8000/v1/models?extra=1")
unfolding forward_text
forward_text-models = refl

abbrev bearer_key : Option (Option Bytes)
bearer_key = some (some (bytes "Bearer key"))

bearer_key-bytes : All IsByte (bytes "Bearer key")
bearer_key-bytes = (
  omega arith,
  (
    omega arith,
    (
      omega arith,
      (
        omega arith,
        (
          omega arith,
          (omega arith, (omega arith, (omega arith, (omega arith, (omega arith, tt))))),
        ),
      ),
    ),
  ),
)

-- Stand-ins for the parsers: one address is known, `true` is the loopback address.
abbrev no_uri : Bytes → Option Uri
no_uri text = none

abbrev one_addr : Bytes → Option (SocketAddr Bool)
one_addr text =
    if bytes_eq text (bytes "127.0.0.1:9") then some (record { ip = true; port = 9 }) else none

abbrev no_ip : Bytes → Option Bool
no_ip text = none

abbrev no_authority : Bytes → Option Authority
no_authority text = none

handle-one :
    handle no_uri one_addr no_ip no_authority
      (λ b. b)
      true
      (some key)
      (bytes "127.0.0.1:9")
      (bytes "POST")
      (bytes "/v1")
      bearer_key
    ≡ forwards
unfolding handle is_loopback loopback_authority authority_of contains strip_prefix authorized
    constant_eq difference bit_or bit_xor bytes_eq mem
handle-one = refl

token-bytes : (expected : Bytes) → some key ≡ some expected → All IsByte expected
token-bytes expected e =
    let q : key ≡ expected = ground (arith, e) in subst (All IsByte) q key-bytes

handle-guarded_example :
    ((expected : Bytes)
      → some key ≡ some expected
      → bearer_key ≡ some (some (bytes "Bearer " ++ expected)))
    × (addr : SocketAddr Bool) × (loopback_authority no_uri one_addr no_ip no_authority
          (λ b. b)
          true
          (bytes "127.0.0.1:9")
          80
        ≡ ok addr)
    × (addr.ip ≡ true)
handle-guarded_example =
    handle-guarded no_uri one_addr no_ip no_authority (λ b. b) true (some key) (bytes "127.0.0.1:9")
      (bytes "POST") (bytes "/v1") bearer_key bearer_key-bytes token-bytes handle-one

-- A parser that knows the URL of the models.
abbrev models_uri : Uri
models_uri = record {
  scheme_str = some (bytes "http");
  authority = some (bytes "127.0.0.1:8000");
  host = some (bytes "127.0.0.1");
  query = none;
}

abbrev known_uri : Bytes → Option Uri
known_uri text =
    if bytes_eq text (bytes "http://127.0.0.1:8000/v1/models") then some models_uri else none

abbrev engine : Upstream
engine = record { scheme_str = none; authority = some (bytes "127.0.0.1:8000") }

abbrev named : List (Bytes × Bytes)
named =
    (bytes "connection", bytes "x-secret")
    ∷ (bytes "x-secret", bytes "s")
    ∷ (bytes "accept", bytes "*/*")
    ∷ []

abbrev sent_parts : Parts (List (Bytes × Bytes))
sent_parts = record {
  uri = models_uri;
  headers = (bytes "host", bytes "127.0.0.1:8000") ∷ (bytes "accept", bytes "*/*") ∷ [];
}

forward-models : forward known_uri engine (ok tt) (bytes "/v1/models") none named ≡ ok sent_parts
unfolding forward forward_uri forward_text strip_hop_by_hop conditional add_tokens Headers.contains
    remove_all remove_named assoc_map name_chars text_chars remove values trim trim_start trim_end
    split is_whitespace to_ascii_lowercase bytes_eq mem
forward-models = refl

forward-Forwarded_example :
    (◌≡◌ {A = Result (Unit {0}) Fault} (ok tt) (ok tt))
    × Requested known_uri engine (bytes "/v1/models") none models_uri
    × Forwarded (bytes "127.0.0.1:8000") named sent_parts.headers
forward-Forwarded_example =
    forward-Forwarded known_uri engine (ok tt) (bytes "/v1/models") none named sent_parts
      (bytes "127.0.0.1:8000") forward-models refl
