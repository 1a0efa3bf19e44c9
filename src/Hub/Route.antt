-- ===== src/Hub/Route.antt =====
-- `reserve_route`, `start_forward`, `forward` and `forward_any`: which session takes a request, and
-- the start of its stream. They run under the routing lock, and each is taken as one step: what the
-- session's own task does without that lock, such as its close, comes before it or after it.
pub mod Least
pub mod Serving
pub mod Open
mod Tests
use anvil_ring.Base.{
  ℕ, zero, suc, ◌+◌, ◌-◌, ◌*◌, ◌≤◌, ◌<◌, ◌≡◌, Bool, true, false, not, ◌&&◌, ◌||◌, Option, none,
  some, List, [], ◌∷◌, ◌++◌, Bytes, Map, get, insert, nat_key, bytes_key, length, ltb, leb, ◌==◌,
  if◌then◌else◌, Result, ok, err,
}
use anvil_ring.Frames.{Frame, open_frame}
use anvil_ring.Hub.State.{
  Registry, Session, ForwardError, no_tether, revoked, exhausted, tether_gone, tether_busy,
  caller_body, tether_silence, max_concurrent_streams,
}
use anvil_ring.Hub.Session.{new_stream, admit, update, install_upload, reserve_stream_start}
use anvil_ring.Hub.Registry.{active_at, is_active}

pub record Candidate : Type 0 where
  pub load : ℕ
  pub id : Bytes
  pub generation : ℕ
  pub session : Session

-- The filter of `reserve_route`.
abbrev pub eligible : Registry → ℕ → Bytes → Session → Bool
eligible r now id s =
    is_active id now r
    && (not s.closed && (s.writer && not (ltb tether_silence (now - s.last_seen))))

abbrev pub candidate : Registry → ℕ → Bytes → ℕ → Option Session → List Candidate → List Candidate
candidate r now id g none cs = cs
candidate r now id g (some s) cs =
    if eligible r now id s
    then record { load = length s.streams; id = id; generation = g; session = s } ∷ cs
    else cs

unfoldable pub candidates_of : Registry → ℕ → Map Bytes ℕ → List Candidate
candidates_of r now [] = []
candidates_of r now ((id, g) ∷ live) =
    candidate r now id g (get g r.sessions) (candidates_of r now live)

unfoldable pub candidates : Registry → ℕ → List Candidate
unfolding candidates_of
candidates r now = candidates_of r now r.live

-- `String` is ordered by its bytes.
pub bytes_leb : Bytes → Bytes → Bool
bytes_leb [] ys = true
bytes_leb (x ∷ xs) [] = false
bytes_leb (x ∷ xs) (y ∷ ys) = ltb x y || (x == y && bytes_leb xs ys)

unfoldable pub precedes : Candidate → Candidate → Bool
unfolding bytes_leb
precedes a b = ltb a.load b.load || (a.load == b.load && bytes_leb a.id b.id)

unfoldable pub place : Candidate → List Candidate → List Candidate
place c [] = c ∷ []
place c (d ∷ ds) = let rest = place c ds in if precedes c d then c ∷ (d ∷ ds) else d ∷ rest

-- `sort_by`
unfoldable pub sort : List Candidate → List Candidate
unfolding place
sort [] = []
sort (c ∷ cs) = place c (sort cs)

-- What one candidate of the list does: it takes the stream, is busy, or is passed over.
pub data Offer : Type 0 where
  taken full passed : Offer

unfoldable pub offer_of : Result (Unit {0}) ForwardError → Offer
offer_of (ok u) = taken
offer_of (err tether_busy) = full
offer_of (err no_tether) = passed
offer_of (err revoked) = passed
offer_of (err exhausted) = passed
offer_of (err tether_gone) = passed
offer_of (err caller_body) = passed

unfoldable pub offer : Candidate → Offer
unfolding offer_of
offer c =
    if leb max_concurrent_streams c.load || ltb 65535 c.session.next_id
    then full
    else offer_of (reserve_stream_start c.session)

unfoldable pub choose : Bool → List Candidate → Result Candidate ForwardError
choose busy [] = err (if busy then tether_busy else no_tether)
choose busy (c ∷ cs) = elim (offer c) [
  | taken ↦ ok c
  | full ↦ choose true cs
  | passed ↦ choose busy cs
]

unfoldable pub reserve_route : Registry → ℕ → Result Candidate ForwardError
unfolding choose sort
reserve_route r now = choose false (sort (candidates r now))

-- `start_forward` on the session: an id, the admission, and OPEN in the place that was reserved. The
-- upload task's handle is installed. The id is used up even if the admission is refused.
unfoldable pub open_stream : Bytes → Session → Result ℕ ForwardError × Session
open_stream head s =
    if ltb 65535 s.next_id
    then (err exhausted, s)
    else elim (admit (record s { next_id = s.next_id + 1 }) s.next_id new_stream) [
      | err e ↦ (err e, record s { next_id = s.next_id + 1 })
      | ok s' ↦ (
        ok s.next_id,
        record s' {
          queue = s'.queue ++ (open_frame s.next_id head ∷ []);
          states = update install_upload s.next_id s'.states;
        },
      )
    ]

unfoldable pub start_forward : Bytes → ℕ → Session → Registry → Result ℕ ForwardError × Registry
unfolding open_stream
start_forward head g s r =
    let (answer, s') = open_stream head s in
    (answer, record r { sessions = insert g s' r.sessions })

unfoldable pub forward_any : Bytes → ℕ → Registry → Result ℕ ForwardError × Registry
unfolding reserve_route start_forward
forward_any head now r = elim (reserve_route r now) [
  | err e ↦ (err e, r)
  | ok c ↦ start_forward head c.generation c.session r
]

abbrev pub reserved :
    Bytes
    → ℕ
    → Session
    → Registry
    → Result (Unit {0}) ForwardError
    → Result ℕ ForwardError × Registry
unfolding start_forward
reserved head g s r (err e) = (err e, r)
reserved head g s r (ok u) = start_forward head g s r

abbrev pub forward_on :
    Bytes → Bytes → ℕ → Registry → ℕ → Option Session → Result ℕ ForwardError × Registry
unfolding reserved
forward_on id head now r g none = (err no_tether, r)
forward_on id head now r g (some s) =
    if not (is_active id now r)
    then (err revoked, r)
    else reserved head g s r (reserve_stream_start s)

unfoldable pub forward : Bytes → Bytes → ℕ → Registry → Result ℕ ForwardError × Registry
unfolding forward_on
forward id head now r = elim (get id r.live) [
  | none ↦ (err no_tether, r)
  | some g ↦ forward_on id head now r g (get g r.sessions)
]
