-- ===== src/Hub/Session/Tests.antt =====
-- Runs of a session on concrete inputs.
use anvil_ring.Base.{◌≡◌, refl, true, false, some, [], ◌∷◌, get, nat_key}
use anvil_ring.Hub.State.{Session}
use anvil_ring.Hub.Session.{new_stream, mem}

-- A session with the stream 1 registered, and the state of the stream 2 still held by a caller.
abbrev busy : Session
busy = record {
  queue = [];
  writer = true;
  abort = false;
  last_seen = 0;
  streams = 1 ∷ [];
  states = (1, new_stream) ∷ (2, new_stream) ∷ [];
  closed = false;
  next_id = 3;
}

busy-one : (mem 1 busy.streams ≡ true) × (get 1 busy.states ≡ some new_stream)
unfolding mem get
busy-one = (refl, refl)
