-- ===== src/Hub/State.antt =====
-- The hub's constants and records. Times and durations are in nanoseconds; what the source shares by
-- `Arc` is stored once and named by its key: a session by its generation, a stream state by its id.
use anvil_ring.Base.{
  ℕ, ◌+◌, ◌-◌, ◌*◌, ◌^◌, Bool, not, Option, none, some, List, Bytes, Map, ltb, ◌==◌, if◌then◌else◌,
}
use anvil_ring.Frames.{Frame}

abbrev pub second : ℕ
second = 1000000000

abbrev pub max_pending_head : ℕ
max_pending_head = 65536

-- `DEFAULT_LEASE`
abbrev pub default_lease : ℕ
default_lease = 900 * second

abbrev pub tether_ping_interval : ℕ
tether_ping_interval = 10 * second

abbrev pub tether_silence : ℕ
tether_silence = 45 * second

abbrev pub command_channel_capacity : ℕ
command_channel_capacity = 256

-- `mpsc::channel(64)` of `StreamState::new`
abbrev pub chunk_capacity : ℕ
chunk_capacity = 64

-- `tunnel::MAX_CONCURRENT_STREAMS`
abbrev pub max_concurrent_streams : ℕ
max_concurrent_streams = 64

pub record Tether : Type 0 where
  pub id : Bytes
  pub label : Bytes
  pub credential_hash : Bytes
  pub active : Bool
  pub expires_at : Option ℕ

pub record Lease : Type 0 where
  pub tether_id : Bytes
  pub ttl : ℕ

-- `StreamFailure::outcome`, 0, 1 and 2.
pub data Outcome : Type 0 where
  pending complete failed : Outcome

-- The upload task's handle: none yet, installed, or aborted.
pub data Upload : Type 0 where
  absent running aborted : Upload

pub record ResponseHead : Type 0 where
  pub status : ℕ
  pub headers : List (Bytes × Bytes)

-- `chunks` is what the bounded channel holds; `receiver` says that its reader is still there.
pub record StreamState : Type 0 where
  pub chunks : List Bytes
  pub receiver : Bool
  pub head : Option ResponseHead
  pub completed : Bool
  pub outcome : Outcome
  pub upload : Upload

-- `LiveSession`: `queue` is what its command channel holds, `writer` says that the writer still
-- reads it, `streams` are the ids of the registered streams, and `states` all stream states that
-- the session has made, which callers may hold longer.
pub record Session : Type 0 where
  pub queue : List Frame
  pub writer : Bool
  pub abort : Bool
  pub last_seen : ℕ
  pub streams : List ℕ
  pub states : Map ℕ StreamState
  pub closed : Bool
  pub next_id : ℕ

pub record Registry : Type 0 where
  pub by_credential : Map Bytes Bytes
  pub by_id : Map Bytes Tether
  pub live : Map Bytes ℕ
  pub sessions : Map ℕ Session
  pub next_generation : ℕ
  pub lease : ℕ

pub data ForwardError : Type 0 where
  no_tether revoked exhausted tether_gone tether_busy caller_body : ForwardError

-- `Duration::MAX`
abbrev pub duration_max : ℕ
duration_max = (2 ^ 64 - 1) * second + 999999999

-- `UNIX_EPOCH.checked_add` has no value past the seconds of an i64; then the time since `now`, if any
-- is left.
abbrev pub until : ℕ → ℕ → Option ℕ
until seconds now =
    if ltb (2 ^ 63 - 1) seconds
    then none
    else if seconds * second - now == 0
    then none
    else some (seconds * second - now)

abbrev pub remaining_of : Option ℕ → ℕ → Option ℕ
remaining_of none now = some duration_max
remaining_of (some seconds) now = until seconds now

-- `Tether::remaining`
unfoldable pub remaining : Tether → ℕ → Option ℕ
remaining t now = if not t.active then none else remaining_of t.expires_at now
