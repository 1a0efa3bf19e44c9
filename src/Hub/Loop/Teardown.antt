-- ===== src/Hub/Loop/Teardown.antt =====
-- What the end of a session's task leaves in the registry.
use anvil_ring.Base.{
  ℕ, ◌≡◌, refl, subst, Bool, true, false, Option, none, some, Bytes, get, insert, nat_key,
  bytes_key, get-insert, get-insert_self, get-remove, ==_iff, bytes_eq, Result, arith, Bool-cases,
  Result-cases, get-remove_self, inl, inr,
}
use anvil_ring.Frames.{ping}
use anvil_ring.Hub.State.{Registry, Session, ResponseHead}
use anvil_ring.Hub.Session.{close, try_send}
use anvil_ring.Hub.Registry.{detach, owns, is_active}
use anvil_ring.Hub.Registry.Consistent.{Consistent, known, detach-Consistent}
use anvil_ring.Hub.Loop.{
  Fault, Next, on, broken, Task, Event, EventKind, Turn, going, over, teardown, settle, step, turn,
  turn_on, tick, lease_expired, abort_changed, ticked, writer_closed, socket_closed, incoming,
  socket_failed,
}

insert-Consistent :
    (g : ℕ) (s : Session) (r : Registry)
    → known g r.sessions ≡ true
    → Consistent r
    → Consistent (record r { sessions = insert g s r.sessions })
insert-Consistent g s r there c = record {
  ids = c.ids;
  credentials = c.credentials;
  registered = c.registered;
  present = λ id h e. ground (arith, get-insert g h s r.sessions, c.present id h e);
  below =
      λ h e. ground (arith, get-insert g h s r.sessions, ==_iff g h, c.below h, c.below g there);
  owner = c.owner;
}

-- Whatever a turn ends in is consistent.
abbrev pub registry_of : Turn → Registry
registry_of (going r t) = r
registry_of (over r k v) = r

settle-Consistent :
    (n : Next × Task) (r : Registry)
    → known n.1.generation r.sessions ≡ true
    → Consistent r
    → Consistent (registry_of (settle n r))
unfolding settle teardown
settle-Consistent (on s, t) r there c = insert-Consistent t.generation s r there c
settle-Consistent (broken v s, t) r there c =
    detach-Consistent t.id t.generation _ (insert-Consistent t.generation (close s) r there c)

tick-task :
    (active : Bool) (now : ℕ) (t : Task) (s : Session)
    → ((tick active now t s).1.id ≡ t.id) × ((tick active now t s).1.generation ≡ t.generation)
unfolding tick
tick-task active now t s = elim (Result-cases (try_send s ping)) [
  | inl (s', e) ↦ ground (arith, e)
  | inr (x, e) ↦ ground (arith, e)
]

abbrev closed_in : Option Session → Bool
closed_in none = false
closed_in (some s) = s.closed

-- The session `g` of the tether `id` is over: it is closed, it does not serve the tether any more,
-- and the other tethers keep their sessions.
pub record Gone (id : Bytes) (g : ℕ) (r r' : Registry) : Type 0 where
  pub shut : closed_in (get g r'.sessions) ≡ true
  pub unserved : owns g (get id r'.live) ≡ false
  pub others : (j : Bytes) → bytes_eq id j ≡ false → get j r'.live ≡ get j r.live

teardown-Gone : (t : Task) (s : Session) (r : Registry) → Gone t.id t.generation r (teardown t s r)
unfolding teardown detach close
teardown-Gone t s r = elim (Bool-cases (owns t.generation (get t.id r.live))) [
  | inl mine ↦ rw mine (record {
    shut = rw get-insert_self refl;
    unserved = rw get-remove_self refl;
    others = λ j e. rw (get-remove, e) refl;
  })
  | inr other ↦
      rw other (record { shut = rw get-insert_self refl; unserved = other; others = λ j e. refl })
]

over_inj :
    (r r' : Registry) (k k' : EventKind) (v v' : Result (Unit {0}) Fault)
    → over r k v ≡ over r' k' v'
    → r ≡ r'
over_inj r r' k k' v v' e = cc

settle-Gone :
    (n : Next × Task) (r r' : Registry) (k : EventKind) (v : Result (Unit {0}) Fault)
    → settle n r ≡ over r' k v
    → Gone n.1.id n.1.generation r r'
unfolding settle
settle-Gone (on s, t) r r' k v q = cc
settle-Gone (broken x s, t) r r' k v q =
    subst (Gone t.id t.generation r) (over_inj _ r' _ k _ v q) (teardown-Gone t s r)

module _ (http_parse : Bytes → Option (ℕ × ResponseHead))
    (http_build : ResponseHead → Option ResponseHead) where
  step-task :
      (ev : Event) (active : Bool) (now : ℕ) (t : Task) (s : Session)
      → ((step http_parse http_build ev active now t s).1.id ≡ t.id)
        × ((step http_parse http_build ev active now t s).1.generation ≡ t.generation)
  unfolding step
  step-task lease_expired active now t s = (refl, refl)
  step-task abort_changed active now t s = ground arith
  step-task ticked active now t s = tick-task active now t s
  step-task writer_closed active now t s = (refl, refl)
  step-task (incoming m) active now t s = (refl, refl)
  step-task (socket_failed e) active now t s = (refl, refl)
  step-task socket_closed active now t s = (refl, refl)

  turn_on-Consistent :
      (ev : Event) (now : ℕ) (t : Task) (r : Registry) (o : Option Session)
      → get t.generation r.sessions ≡ o
      → Consistent r
      → Consistent (registry_of (turn_on http_parse http_build ev now t r o))
  unfolding turn_on
  turn_on-Consistent ev now t r none e c = c
  turn_on-Consistent ev now t r (some s) e c =
      settle-Consistent (step http_parse http_build ev (is_active t.id now r) now t s) r
        (rw ((step-task ev (is_active t.id now r) now t s).1, e) refl) c

  -- A turn of any session's task keeps the tables consistent, whatever the event.
  pub turn-Consistent :
      (ev : Event) (now : ℕ) (t : Task) (r : Registry)
      → Consistent r
      → Consistent (registry_of (turn http_parse http_build ev now t r))
  unfolding turn
  turn-Consistent ev now t r c = turn_on-Consistent ev now t r (get t.generation r.sessions) refl c

  turn_on-Gone :
      (ev : Event) (now : ℕ) (t : Task) (r r' : Registry) (k : EventKind)
      (v : Result (Unit {0}) Fault) (o : Option Session)
      → turn_on http_parse http_build ev now t r o ≡ over r' k v
      → Gone t.id t.generation r r'
  unfolding turn_on
  turn_on-Gone ev now t r r' k v none q = cc
  turn_on-Gone ev now t r r' k v (some s) q =
      let n = step http_parse http_build ev (is_active t.id now r) now t s in
      let (i, g) = step-task ev (is_active t.id now r) now t s in
      subst (λ x. Gone x t.generation r r') i
        (subst (λ x. Gone n.1.id x r r') g (settle-Gone n r r' k v q))

  -- The turn that ends a session's task closes the session and takes it out of service, and only it.
  pub turn-Gone :
      (ev : Event) (now : ℕ) (t : Task) (r r' : Registry) (k : EventKind)
      (v : Result (Unit {0}) Fault)
      → turn http_parse http_build ev now t r ≡ over r' k v
      → Gone t.id t.generation r r'
  unfolding turn
  turn-Gone ev now t r r' k v q = turn_on-Gone ev now t r r' k v (get t.generation r.sessions) q
