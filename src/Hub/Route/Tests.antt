-- ===== src/Hub/Route/Tests.antt =====
-- The theorems on routing at concrete inputs.
use anvil_ring.Base.{
  ◌≡◌, refl, arith, true, none, [], ◌∷◌, Bytes, bytes, get, bytes_key, nat_key, bytes_eq, ok, err,
}
use anvil_ring.Hub.State.{
  Registry, Tether, Session, no_tether, tether_gone, default_lease, remaining,
}
use anvil_ring.Hub.Session.{new_stream, close, admit, reserve_stream_start, mem}
use anvil_ring.Hub.Registry.{fresh_session, is_active}
use anvil_ring.Hub.Route.{
  Candidate, offer, offer_of, candidates, candidates_of, precedes, sort, place, choose,
  reserve_route, open_stream,
}
use anvil_ring.Hub.Route.Serving.{LeastLoaded, reserve_route-Routed}
use anvil_ring.Hub.Route.Open.{NoAlias, Opened, open_stream-Opened}

abbrev tether : Bytes → Tether
tether id = record { id = id; label = id; credential_hash = id; active = true; expires_at = none }

abbrev first : Bytes
first = bytes "a"

abbrev second_id : Bytes
second_id = bytes "b"

-- A session with one stream.
abbrev loaded : Session
loaded = record (fresh_session 0) { streams = 1 ∷ []; states = (1, new_stream) ∷ []; next_id = 2 }

-- Two tethers, of which the first has a stream already.
abbrev pair : Registry
pair = record {
  by_credential = [];
  by_id = (first, tether first) ∷ (second_id, tether second_id) ∷ [];
  live = (first, 1) ∷ (second_id, 2) ∷ [];
  sessions = (1, loaded) ∷ (2, fresh_session 0) ∷ [];
  next_generation = 3;
  lease = default_lease;
}

abbrev choice : Candidate
choice = record { load = 0; id = second_id; generation = 2; session = fresh_session 0 }

reserve_route-Routed_example : LeastLoaded pair 0 choice
unfolding reserve_route candidates candidates_of is_active remaining get bytes_eq sort place
    precedes choose offer offer_of reserve_stream_start
reserve_route-Routed_example = reserve_route-Routed pair 0

abbrev alone : Registry
alone = record pair { live = [] }

reserve_route-alone : reserve_route alone 0 ≡ err no_tether
unfolding reserve_route candidates candidates_of sort choose
reserve_route-alone = refl

loaded-NoAlias : NoAlias loaded
unfolding get mem
loaded-NoAlias = record { used = λ id e. ground arith; registered = λ id e. ground arith }

abbrev after : Session
after = (open_stream (bytes "GET") loaded).1

open-loaded : open_stream (bytes "GET") loaded ≡ (ok 2, after)
unfolding open_stream admit
open-loaded = refl

open_stream-Opened_example : Opened (bytes "GET") loaded 2 after
open_stream-Opened_example =
    open_stream-Opened (bytes "GET") loaded after 2 loaded-NoAlias open-loaded

abbrev shut : Session
shut = close loaded

abbrev shut_after : Session
shut_after = (open_stream [] shut).1

open-shut : open_stream [] shut ≡ (err tether_gone, shut_after)
unfolding open_stream admit close
open-shut = refl
