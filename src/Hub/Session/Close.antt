-- ===== src/Hub/Session/Close.antt =====
-- What the end of a session does to its streams, and how many streams it admits.
use anvil_ring.Base.{
  ℕ, ◌≤◌, ◌≡◌, ◌≢◌, refl, true, false, Option, none, some, List, [], ◌∷◌, Map, get, nat_key,
  get-insert, ◌==◌, ==_iff, if◌then◌else◌, arith, length, Option-cases, inl, inr, ok, err,
}
use anvil_ring.Hub.State.{
  StreamState, Session, ResponseHead, ForwardError, tether_gone, tether_busy,
  max_concurrent_streams,
}
use anvil_ring.Hub.Session.{
  fail_stream, finish_upload, update, fail_all, close, admit, mem, delete, later, head_of,
  head_poll,
}

abbrev pub map_state : (StreamState → StreamState) → Option StreamState → Option StreamState
map_state f none = none
map_state f (some st) = some (f st)

pub get-update :
    (f : StreamState → StreamState) (id j : ℕ) (m : Map ℕ StreamState)
    → get j (update f id m) ≡ (if id == j then map_state f (get j m) else get j m)
unfolding update
get-update f id j m = elim (Option-cases (get id m)) [
  | inl e ↦ ground (arith, e, ==_iff id j)
  | inr (st, e) ↦ ground (arith, e, get-insert id j (f st) m, ==_iff id j)
]

fail_stream_twice : (st : StreamState) → fail_stream (fail_stream st) ≡ fail_stream st
unfolding fail_stream finish_upload
fail_stream_twice st = ground arith

get-fail_all :
    (j : ℕ) (ids : List ℕ) (m : Map ℕ StreamState)
    → get j (fail_all ids m) ≡ (if mem j ids then map_state fail_stream (get j m) else get j m)
unfolding fail_all mem
get-fail_all j [] m = refl
get-fail_all j (id ∷ ids) m = elim (Option-cases (get j m)) [
  | inl e ↦ ground (arith, e, get-fail_all j ids m, get-update fail_stream id j (fail_all ids m))
  | inr (st, e) ↦ ground (
    arith,
    e,
    get-fail_all j ids m,
    get-update fail_stream id j (fail_all ids m),
    fail_stream_twice st,
  )
]

-- A closed session refuses every admission, and each stream that was registered has failed; the
-- others are as they were.
pub close_streams :
    (s : Session)
    → ((id : ℕ) (st : StreamState) → admit (close s) id st ≡ err tether_gone)
      × ((id : ℕ)
          → get id (close s).states ≡ (
              if mem id s.streams
              then map_state fail_stream (get id s.states)
              else get id s.states))
unfolding close admit
close_streams s = ((λ id st. refl), (λ id. get-fail_all id s.streams s.states))

head_of-completed : (o : Option ResponseHead) → head_of o true ≢ later
head_of-completed none e = absurd ground (arith, e)
head_of-completed (some res) e = absurd ground (arith, e)

head_poll-fail : (st : StreamState) → head_poll (fail_stream st) ≢ later
unfolding head_poll fail_stream finish_upload
head_poll-fail st = head_of-completed st.head

-- After the end of its session no caller waits for the head of a stream that was registered.
pub head_poll-close :
    (s : Session) (id : ℕ) (st : StreamState)
    → mem id s.streams ≡ true
    → get id s.states ≡ some st
    → (st' : StreamState) × (get id (close s).states ≡ some st') × (head_poll st' ≢ later)
head_poll-close s id st on here =
    (fail_stream st, rw ((close_streams s).1 id, on, here) refl, head_poll-fail st)

length-delete : (id : ℕ) (ids : List ℕ) → length (delete id ids) ≤ length ids
unfolding delete
length-delete id [] = omega arith
length-delete id (i ∷ is) = ground (arith, length-delete id is)

-- Admission keeps a session at 64 streams at most, puts the new stream into the table, and refuses
-- an open session only when all 64 places are taken.
pub admit-bounded :
    (s : Session) (id : ℕ) (st : StreamState)
    → ((s' : Session) → admit s id st ≡ ok s' → length s'.streams ≤ max_concurrent_streams)
      × ((e : ForwardError)
          → admit s id st ≡ err e
          → s.closed ≡ false
          → (e ≡ tether_busy) × (max_concurrent_streams ≤ length s.streams))
unfolding admit
admit-bounded s id st =
    ((λ s' e. ground (arith, length-delete id s.streams)), (λ e q h. ground arith))

pub mem-delete :
    (id j : ℕ) (ids : List ℕ) → mem j (delete id ids) ≡ (if id == j then false else mem j ids)
unfolding mem delete
mem-delete id j [] = ground arith
mem-delete id j (i ∷ is) = ground (arith, mem-delete id j is)
