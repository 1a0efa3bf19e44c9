-- ===== src/Main.antt =====
-- cargo/src/main.rs: the modes of the program, the configuration that a mode starts with, and the
-- refresh of the hub's registrations.
pub mod Startup
mod Tests
use anvil_ring.Base.{
  ℕ, ◌≡◌, Bool, true, false, not, ◌&&◌, ◌||◌, Option, none, some, List, [], ◌∷◌, Bytes, bytes,
  bytes_eq, length, ◌==◌, if◌then◌else◌, Result, ok, err, ◌>>=◌,
}
use anvil_ring.Socket.{Fault, fault}
use anvil_ring.Hub.State.{Registry}
use anvil_ring.Hub.Registry.{Record, register, replace_records, clear_records}

-- What the arguments ask for; `exits` ends the process with a status.
pub data Mode : Type 0 where
  proxy hub tether version help : Mode
  admin : List Bytes → Mode
  exits : ℕ → Mode

abbrev pub is_version : Bytes → Bool
is_version arg = bytes_eq arg (bytes "--version") || bytes_eq arg (bytes "-V")

abbrev pub is_help : Bytes → Bool
is_help arg = bytes_eq arg (bytes "--help") || bytes_eq arg (bytes "-h")

abbrev pub alone : Bytes → Mode
alone arg =
    if bytes_eq arg (bytes "proxy")
    then proxy
    else if bytes_eq arg (bytes "hub")
    then hub
    else if bytes_eq arg (bytes "tether")
    then tether
    else if bytes_eq arg (bytes "admin")
    then admin []
    else if is_version arg
    then version
    else if is_help arg
    then help
    else exits 2

unfoldable pub mode_of : List Bytes → Mode
mode_of [] = proxy
mode_of (arg ∷ []) = alone arg
mode_of (mode ∷ other ∷ rest) =
    if bytes_eq mode (bytes "admin") then admin (other ∷ rest) else exits 2

abbrev pub is_empty : Bytes → Bool
is_empty [] = true
is_empty (b ∷ bs) = false

-- `run_proxy`: the token, from ANVIL_RING_TOKEN and ANVIL_RING_ALLOW_NO_AUTH; without one the
-- process exits.
abbrev pub without_token : Option Bytes → Result (Option Bytes) Fault
without_token none = err (fault "ANVIL_RING_TOKEN is unset or empty.")
without_token (some allow) =
    if bytes_eq allow (bytes "1")
    then ok none
    else err (fault "ANVIL_RING_TOKEN is unset or empty.")

unfoldable pub proxy_token : Option Bytes → Option Bytes → Result (Option Bytes) Fault
proxy_token none allow = without_token allow
proxy_token (some token) allow =
    if not (is_empty token) then ok (some token) else without_token allow

-- `run_hub`: the registrations that it starts with, from the state directory, as its snapshot comes
-- out, or from ANVIL_RING_DEMO_CREDENTIAL.
unfoldable pub start_registry :
    (Bytes → Bytes)
    → Option (Result (List Record) Fault)
    → Option Bytes
    → ℕ
    → Registry
    → Result Registry Fault
start_registry digest (some state) (some demo) now r =
    err (fault "ANVIL_RING_STATE_DIR and ANVIL_RING_DEMO_CREDENTIAL are mutually exclusive")
start_registry digest (some state) none now r =
    state >>= λ records. ok (replace_records records now r)
start_registry digest none (some credential) now r =
    if not (is_empty credential)
    then ok (register digest (bytes "demo-1") (bytes "demo rental") credential r)
    else err (fault "ANVIL_RING_STATE_DIR or a nonempty ANVIL_RING_DEMO_CREDENTIAL is required")
start_registry digest none none now r =
    err (fault "ANVIL_RING_STATE_DIR or a nonempty ANVIL_RING_DEMO_CREDENTIAL is required")

-- The frontend's address, as it is parsed, and its token.
abbrev pub caller_token : Option Bytes → Result Bytes Fault
caller_token none =
    err (fault "ANVIL_RING_CALLER_TOKEN is required when ANVIL_RING_FRONTEND_LISTEN is set")
caller_token (some token) =
    if not (is_empty token)
    then ok token
    else err (fault "ANVIL_RING_CALLER_TOKEN is required when ANVIL_RING_FRONTEND_LISTEN is set")

unfoldable pub frontend_config {ℓ} :
    {Addr : Type ℓ}
    → Option (Result Addr Fault)
    → Option Bytes
    → Result (Option (Addr × Bytes)) Fault
frontend_config none token = ok none
frontend_config (some parsed) token =
    parsed >>= λ addr. caller_token token >>= λ t. ok (some (addr, t))

-- One round of `refresh_registrations`: what the reader came to within its two seconds.
pub data Refresh : Type 0 where
  read : List Record → Refresh
  unavailable : Fault → Refresh
  timed_out : Refresh

unfoldable pub refresh : Refresh → ℕ → Registry → Registry
refresh (read records) now r = replace_records records now r
refresh (unavailable e) now r = clear_records now r
refresh timed_out now r = clear_records now r
