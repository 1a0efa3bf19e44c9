-- ===== src/Hub/Session.antt =====
-- `StreamState`, `StreamFailure`, and the queues and the admission of a `LiveSession`.
pub mod Close
mod Tests
use anvil_ring.Base.{
  ℕ, zero, suc, ◌+◌, ◌-◌, ◌*◌, ◌≤◌, ◌<◌, ◌≡◌, Bool, true, false, not, ◌&&◌, ◌||◌, Option, none,
  some, List, [], ◌∷◌, ◌++◌, Bytes, Map, get, insert, remove, nat_key, length, ltb, leb, ◌==◌,
  if◌then◌else◌, Result, ok, err, ◌>>=◌,
}
unfoldable pub use anvil_ring.Base.{mem}
use anvil_ring.Frames.{Frame}
use anvil_ring.Hub.State.{
  StreamState, Session, ResponseHead, Outcome, pending, complete, failed, Upload, absent, running,
  aborted, ForwardError, tether_gone, tether_busy, command_channel_capacity, chunk_capacity,
  max_concurrent_streams,
}

abbrev pub new_stream : StreamState
new_stream = record {
  chunks = [];
  receiver = true;
  head = none;
  completed = false;
  outcome = pending;
  upload = absent;
}

abbrev pub abort_upload : Upload → Upload
abort_upload absent = absent
abort_upload running = aborted
abort_upload aborted = aborted

unfoldable pub finish_upload : StreamState → StreamState
finish_upload s = record s { completed = true; upload = abort_upload s.upload }

unfoldable pub install_upload : StreamState → StreamState
install_upload s = record s { upload = if s.completed then aborted else running }

-- `StreamState::complete`
unfoldable pub complete_stream : StreamState → StreamState
unfolding finish_upload
complete_stream s = record (finish_upload s) { outcome = complete }

-- `StreamState::fail`
unfoldable pub fail_stream : StreamState → StreamState
unfolding finish_upload
fail_stream s = record (finish_upload s) { outcome = failed }

-- One look of `Forwarded::head`: the head, no head after the end, or another look later.
pub data HeadPoll : Type 0 where
  known : ResponseHead → HeadPoll
  no_head later : HeadPoll

abbrev pub head_of : Option ResponseHead → Bool → HeadPoll
head_of (some res) completed = known res
head_of none true = no_head
head_of none false = later

unfoldable pub head_poll : StreamState → HeadPoll
head_poll st = head_of st.head st.completed

-- `chunk_tx.try_send` of a chunk: refused if the reader is gone or the queue is full.
unfoldable pub send_chunk : StreamState → Bytes → Option StreamState
send_chunk s bytes =
    if s.receiver && ltb (length s.chunks) chunk_capacity
    then some (record s { chunks = s.chunks ++ (bytes ∷ []) })
    else none

pub data TrySendError : Type 0 where
  full closed_channel : TrySendError

-- `tx.try_send`
unfoldable pub try_send : Session → Frame → Result Session TrySendError
try_send s f =
    if not s.writer
    then err closed_channel
    else if ltb (length s.queue) command_channel_capacity
    then ok (record s { queue = s.queue ++ (f ∷ []) })
    else err full

-- A permit is a free place in the queue.
unfoldable pub reserve_stream_start : Session → Result (Unit {0}) ForwardError
reserve_stream_start s =
    if not s.writer
    then err tether_gone
    else if ltb (length s.queue) command_channel_capacity
    then ok tt
    else err tether_busy

unfoldable pub delete : ℕ → List ℕ → List ℕ
delete id [] = []
delete id (i ∷ is) = let rest = delete id is in if i == id then rest else i ∷ rest

-- The entry of a `HashMap` is replaced if there is one.
unfoldable pub admit : Session → ℕ → StreamState → Result Session ForwardError
unfolding delete
admit s id state =
    if s.closed
    then err tether_gone
    else if leb max_concurrent_streams (length s.streams)
    then err tether_busy
    else ok (record s { streams = id ∷ delete id s.streams; states = insert id state s.states })

-- A change to the stream state that `id` names, where there is one.
unfoldable pub update : (StreamState → StreamState) → ℕ → Map ℕ StreamState → Map ℕ StreamState
update f id states = elim (get id states) [ none ↦ states | some st ↦ insert id (f st) states ]

unfoldable pub fail_all : List ℕ → Map ℕ StreamState → Map ℕ StreamState
unfolding update
fail_all [] states = states
fail_all (id ∷ ids) states = update fail_stream id (fail_all ids states)

-- `LiveSession::close`
unfoldable pub close : Session → Session
unfolding fail_all
close s = record s { closed = true; streams = []; states = fail_all s.streams s.states }
