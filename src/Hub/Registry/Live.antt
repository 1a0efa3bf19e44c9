-- ===== src/Hub/Registry/Live.antt =====
-- Which session serves a tether: `attach`, `detach`, `register` and `revoke`.
use anvil_ring.Base.{
  ℕ, ◌≡◌, refl, Bool, true, false, ◌&&◌, Option, none, some, Bytes, Map, get, nat_key, bytes_key,
  get-insert, get-insert_self, get-remove_self, bytes_eq, bytes_eq_iff, bytes_eq_refl, ◌==◌, ==_iff,
  if◌then◌else◌, arith, Option-cases, Bool-cases, inl, inr,
}
use anvil_ring.Hub.State.{Registry, Tether, Lease, Session, remaining}
use anvil_ring.Hub.Session.{close}
use anvil_ring.Hub.Registry.{
  authorize, attach, detach, owns, revoke, deactivate, register, evict, cancel, install, may_attach,
  is_some, fresh_session,
}
use anvil_ring.Hub.Registry.Consistent.{
  Consistent, known, attach-some, evict_tables, evict_by_id, get-live-evict,
}
use anvil_ring.Hub.Registry.Authority.{authorize-Entitles}

-- A session that takes no more streams and was told to stop.
abbrev pub stopped : Option Session → Bool
stopped none = false
stopped (some s) = s.closed && s.abort

abbrev pub stop : Option Session → Option Session
stop none = none
stop (some s) = some (record (close s) { abort = true })

pub stopped-stop : (o : Option Session) → is_some o ≡ true → stopped (stop o) ≡ true
unfolding close
stopped-stop none e = cc
stopped-stop (some s) e = refl

pub get-cancel :
    (g h : ℕ) (m : Map ℕ Session)
    → get h (cancel g m) ≡ (if g == h then stop (get h m) else get h m)
unfolding cancel
get-cancel g h m = elim (Option-cases (get g m)) [
  | inl e ↦ ground (arith, e, ==_iff g h)
  | inr (s, e) ↦ ground (arith, e, get-insert g h (record (close s) { abort = true }) m, ==_iff g h)
]

get-sessions-evict :
    (id : Bytes) (h : ℕ) (r : Registry)
    → get h (evict id r).sessions
      ≡ (if owns h (get id r.live) then stop (get h r.sessions) else get h r.sessions)
unfolding evict
get-sessions-evict id h r = elim (Option-cases (get id r.live)) [
  | inl e ↦ rw (evict, e) refl
  | inr (g, e) ↦ rw (evict, e) (get-cancel g h r.sessions)
]

-- What taking the session of `id` out of service does to the sessions: its own stops, the other
-- tethers keep theirs, and no other session changes.
pub record TakenOut (id : Bytes) (live : Map Bytes ℕ) (sessions : Map ℕ Session) (r' : Registry)
    : Type 0 where
  pub gone : get id r'.live ≡ none
  pub ended : (g : ℕ) → get id live ≡ some g → stopped (get g r'.sessions) ≡ true
  pub others : (j : Bytes) → bytes_eq id j ≡ false → get j r'.live ≡ get j live
  pub untouched : (g : ℕ) → owns g (get id live) ≡ false → get g r'.sessions ≡ get g sessions

owns_self : (g : ℕ) (o : Option ℕ) → o ≡ some g → owns g o ≡ true
owns_self g o e = ground (arith, e)

evict-TakenOut :
    (id : Bytes) (r : Registry)
    → ((g : ℕ) → get id r.live ≡ some g → known g r.sessions ≡ true)
    → TakenOut id r.live r.sessions (evict id r)
evict-TakenOut id r present = record {
  gone = ground (arith, get-live-evict id r id, bytes_eq_iff id id);
  ended = λ g e.
      rw (get-sessions-evict, owns_self g _ e) (stopped-stop (get g r.sessions) (present g e));
  others = λ j e. ground (arith, get-live-evict id r j, e);
  untouched = λ g e. rw (get-sessions-evict, e) refl;
}

-- A revocation takes the tether's session out of service, and no other.
pub revoke-TakenOut :
    (id : Bytes) (r : Registry) → Consistent r → TakenOut id r.live r.sessions (revoke id r).0
unfolding revoke
revoke-TakenOut id r c = evict-TakenOut id _ (c.present id)

-- A session under the generation `g` takes over the tether `id`: it serves the tether and has no
-- streams, the predecessor stops, and the other tethers keep theirs. When the predecessor's task ends
-- later, its `detach` changes nothing; that of the new session leaves the tether without one.
pub record Replaces (id : Bytes) (now : ℕ) (r r' : Registry) (g : ℕ) : Type 0 where
  pub serves : get id r'.live ≡ some g
  pub fresh : get g r'.sessions ≡ some (fresh_session now)
  pub others : (j : Bytes) → bytes_eq id j ≡ false → get j r'.live ≡ get j r.live
  pub ended : (old : ℕ) → get id r.live ≡ some old → stopped (get old r'.sessions) ≡ true
  pub late : (old : ℕ) → get id r.live ≡ some old → detach id old r' ≡ r'
  pub last : get id (detach id g r').live ≡ none

module _ (id : Bytes) (now : ℕ) (r : Registry) (c : Consistent r) where
  newer : (old : ℕ) → get id r.live ≡ some old → (r.next_generation == old) ≡ false
  newer old e = ground (arith, c.present id old e, c.below old)

  install-Replaces : Replaces id now r (install id now (evict id r)) r.next_generation
  unfolding install detach
  install-Replaces =
      let (_, _, next, _) = evict_tables id r in
      let out = evict-TakenOut id r (c.present id) in
      record {
        serves = rw (next, get-insert_self) refl;
        fresh = rw (next, get-insert_self) refl;
        others = λ j e. rw (get-insert, e) (out.others j e);
        ended = λ old e. rw (next, get-insert, newer old e) (out.ended old e);
        late = λ old e. rw (next, get-insert_self, newer old e) refl;
        last =
            rw
              (
                next,
                get-insert_self,
                (==_iff r.next_generation r.next_generation).1 refl,
                get-remove_self,
              )
              refl;
      }

module _ (digest : Bytes → Bytes) where
  -- A registration takes the tether's session out of service, and no other.
  pub register-TakenOut :
      (id label credential : Bytes) (r : Registry)
      → Consistent r
      → TakenOut id r.live r.sessions (register digest id label credential r)
  unfolding register
  register-TakenOut id label credential r c = evict-TakenOut id _ (c.present id)

  may_attach-deactivate :
      (id credential : Bytes) (now : ℕ) (r : Registry) (m : Map Bytes Tether)
      → may_attach digest id credential now r (get id (deactivate id (get id m) m).0) ≡ false
  unfolding may_attach deactivate remaining
  may_attach-deactivate id credential now r m = elim (Option-cases (get id m)) [
    | inl e ↦ rw (e, deactivate, e) refl
    | inr (t, e) ↦ elim (Bool-cases t.active) [
      | inl on ↦ rw (e, deactivate, on, get-insert_self) refl
      | inr off ↦ rw (e, deactivate, off, e, remaining, off) refl
    ]
  ]

  -- After a revocation no credential attaches a session to the tether.
  pub revoke-attach :
      (id credential : Bytes) (now : ℕ) (r : Registry)
      → attach digest id credential now (revoke id r).0 ≡ none
  unfolding attach revoke
  revoke-attach id credential now r =
      rw (evict_by_id, may_attach-deactivate id credential now _ r.by_id) refl

  -- In consistent tables, a credential with a lease attaches at the same moment.
  pub authorize-attach :
      (credential : Bytes) (now : ℕ) (r : Registry) (lease : Lease)
      → Consistent r
      → authorize digest credential now r ≡ some lease
      → is_some (attach digest lease.tether_id credential now r) ≡ true
  unfolding attach may_attach
  authorize-attach credential now r lease c e =
      let (t, h) = authorize-Entitles digest credential now r lease c e in
      rw
        (
          h.found,
          h.remains,
          h.pointed,
          (bytes_eq_iff t.credential_hash (digest credential)).1 h.carries,
          bytes_eq_refl,
        )
        refl

  -- In consistent tables, a session that attaches replaces the tether's session.
  pub attach-Replaces :
      (id credential : Bytes) (now : ℕ) (r r' : Registry) (g : ℕ)
      → Consistent r
      → attach digest id credential now r ≡ some (r', g)
      → Replaces id now r r' g
  attach-Replaces id credential now r r' g c e =
      let (_, er, eg) = attach-some digest id credential now r r' g e in
      rw (er, eg) (install-Replaces id now r c)
