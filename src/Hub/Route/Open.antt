-- ===== src/Hub/Route/Open.antt =====
-- The start of a stream: its id is new, and OPEN is the last frame in the queue.
use anvil_ring.Base.{
  ℕ, ◌+◌, ◌≤◌, ◌<◌, ◌≡◌, ◌⊎◌, refl, subst, ap, ◌∙◌, true, false, none, some, [], ◌∷◌, ◌++◌, Bytes,
  get, insert, nat_key, get-insert, length, ◌==◌, ==_iff, if◌then◌else◌, ok, err, arith,
  Option-cases, Bool-cases, inl, inr,
}
use anvil_ring.Frames.{open_frame}
use anvil_ring.Hub.State.{
  Session, ForwardError, exhausted, tether_gone, tether_busy, max_concurrent_streams,
}
use anvil_ring.Hub.Session.{new_stream, install_upload, admit, update, mem, delete}
use anvil_ring.Hub.Session.Close.{get-update, mem-delete}
use anvil_ring.Hub.Registry.{is_some}
use anvil_ring.Hub.Route.{open_stream}

-- Every id that was handed out lies below the next one, and the registered ones were handed out.
pub record NoAlias (s : Session) : Type 0 where
  pub used : (id : ℕ) → is_some (get id s.states) ≡ true → id < s.next_id
  pub registered : (id : ℕ) → mem id s.streams ≡ true → is_some (get id s.states) ≡ true

-- A new stream: its id fits in 16 bits and no stream had it, OPEN with the request's head is queued
-- last, the upload runs, the other streams are as they were, and ids still do not collide.
pub record Opened (head : Bytes) (s : Session) (id : ℕ) (s' : Session) : Type 0 where
  pub fits : id ≤ 65535
  pub unused : get id s.states ≡ none
  pub queued : s'.queue ≡ s.queue ++ (open_frame id head ∷ [])
  pub started : get id s'.states ≡ some (install_upload new_stream)
  pub listed : mem id s'.streams ≡ true
  pub others :
      (j : ℕ)
      → (id == j) ≡ false
      → (get j s'.states ≡ get j s.states) × (mem j s'.streams ≡ mem j s.streams)
  pub distinct : NoAlias s'

unused_id : (s : Session) → NoAlias s → get s.next_id s.states ≡ none
unused_id s a = elim (Option-cases (get s.next_id s.states)) [
  | inl e ↦ e
  | inr (st, e) ↦ absurd (omega (arith, a.used s.next_id (ap is_some e)))
]

abbrev opened : Bytes → Session → Session
opened head s = record s {
  next_id = s.next_id + 1;
  streams = s.next_id ∷ delete s.next_id s.streams;
  states = update install_upload s.next_id (insert s.next_id new_stream s.states);
  queue = s.queue ++ (open_frame s.next_id head ∷ []);
}

module _ (head : Bytes) (s : Session) (a : NoAlias s) (small : s.next_id ≤ 65535) where
  get-opened :
      (j : ℕ)
      → get j (opened head s).states
        ≡ (if s.next_id == j then some (install_upload new_stream) else get j s.states)
  get-opened j =
      get-update install_upload s.next_id j (insert s.next_id new_stream s.states)
      ∙ elim (Bool-cases (s.next_id == j)) [
        | inl e ↦ rw (get-insert, e) refl
        | inr e ↦ rw (get-insert, e) refl
      ]

  mem-opened :
      (j : ℕ) → mem j (opened head s).streams ≡ (if s.next_id == j then true else mem j s.streams)
  unfolding mem
  mem-opened j = ground (arith, mem-delete s.next_id j s.streams)

  opened-Opened : Opened head s s.next_id (opened head s)
  opened-Opened =
      let same = (==_iff s.next_id s.next_id).1 refl in
      record {
        fits = small;
        unused = unused_id s a;
        queued = refl;
        started = get-opened s.next_id ∙ rw same refl;
        listed = mem-opened s.next_id ∙ rw same refl;
        others = λ j e. (get-opened j ∙ rw e refl, mem-opened j ∙ rw e refl);
        distinct = record {
          used = λ j h. ground (arith, get-opened j, a.used j, ==_iff s.next_id j);
          registered = λ j h. ground (arith, get-opened j, mem-opened j, a.registered j);
        };
      }

open_ok :
    (head : Bytes) (s s' : Session) (id : ℕ)
    → open_stream head s ≡ (ok id, s')
    → (s.next_id ≤ 65535) × (s.next_id ≡ id) × (opened head s ≡ s')
unfolding open_stream admit
open_ok head s s' id e = ground arith

-- In a session whose ids do not collide, the start of a stream, as one step, that succeeds opens a new
-- stream.
pub open_stream-Opened :
    (head : Bytes) (s s' : Session) (id : ℕ)
    → NoAlias s
    → open_stream head s ≡ (ok id, s')
    → Opened head s id s'
open_stream-Opened head s s' id a e =
    let (small, ei, es) = open_ok head s s' id e in
    subst (λ i. Opened head s i s') ei
      (subst (Opened head s s.next_id) es (opened-Opened head s a small))

-- A start that is refused leaves the queue, the streams and their states; the answer is that the ids
-- are used up, that the session is closed, or that it has 64 streams, and that is so.
pub open_stream-refused :
    (head : Bytes) (s s' : Session) (e : ForwardError)
    → open_stream head s ≡ (err e, s')
    → (s'.queue ≡ s.queue)
      × (s'.streams ≡ s.streams)
      × (s'.states ≡ s.states)
      × (((e ≡ exhausted) × (65535 < s.next_id))
          ⊎ (((e ≡ tether_gone) × (s.closed ≡ true))
              ⊎ ((e ≡ tether_busy) × (max_concurrent_streams ≤ length s.streams))))
unfolding open_stream admit
open_stream-refused head s s' e q = ground arith
