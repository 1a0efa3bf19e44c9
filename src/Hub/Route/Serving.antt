-- ===== src/Hub/Route/Serving.antt =====
-- `reserve_route` on the sessions of the registry: which of them can take a request, apart from the
-- filter and the loop of the code, and which of those it takes.
use anvil_ring.Base.{
  ℕ, ◌+◌, ◌*◌, ◌^◌, ◌≡◌, ◌≢◌, ◌<◌, ◌≤◌, ◌⊎◌, inl, inr, refl, true, false, none, some, [], ◌∷◌,
  Bytes, Map, get, nat_key, bytes_key, length, arith, Bool-cases, Option-cases, Result-cases, subst,
  Result, ok, err,
}
use anvil_ring.Hub.State.{
  Registry, Session, Tether, ForwardError, no_tether, tether_busy, remaining, second,
  tether_silence, command_channel_capacity, max_concurrent_streams,
}
use anvil_ring.Hub.Session.{reserve_stream_start}
use anvil_ring.Hub.Registry.{is_active}
use anvil_ring.Hub.Route.{
  Candidate, eligible, candidates_of, candidates, bytes_leb, precedes, offer, offer_of, taken, full,
  reserve_route,
}
use anvil_ring.Hub.Route.Least.{Has, All-Has, reserve_route-Least, reserve_route-refused}

-- A registration that is not revoked and, if it has an expiry, has not run out.
pub record Valid (now : ℕ) (t : Tether) : Type 0 where
  pub active : t.active ≡ true
  pub lasts : (e : ℕ) → t.expires_at ≡ some e → (e < 2 ^ 63) × (now < e * second)

-- The tether of the session is registered, and the session is open and not silent.
pub record Serves (r : Registry) (now : ℕ) (id : Bytes) (s : Session) : Type 0 where
  pub registration : (t : Tether) × (get id r.by_id ≡ some t) × Valid now t
  pub opened : s.closed ≡ false
  pub writes : s.writer ≡ true
  pub heard : now ≤ s.last_seen + tether_silence

-- The session has room for one more stream, an id for it, and a place in its queue for OPEN.
pub record HasRoom (s : Session) : Type 0 where
  pub streams : length s.streams < max_concurrent_streams
  pub ids : s.next_id < 2 ^ 16
  pub place : length s.queue < command_channel_capacity

-- The table has the entry.
abbrev pub Listed : Bytes → ℕ → Map Bytes ℕ → Type 0
Listed id g [] = ⊥
Listed id g ((j, h) ∷ live) = ((j ≡ id) × (h ≡ g)) ⊎ Listed id g live

Valid-remaining : (now : ℕ) (t : Tether) → Valid now t → remaining t now ≢ none
unfolding remaining
Valid-remaining now t v = elim (Option-cases t.expires_at) [
  | inl z ↦ ground (arith, v.active, z)
  | inr (e, z) ↦ ground (arith, v.active, z, v.lasts e z)
]

remaining-Valid : (now l : ℕ) (t : Tether) → remaining t now ≡ some l → Valid now t
unfolding remaining
remaining-Valid now l t e = record {
  active = ground (arith, e);
  lasts = λ d q. ground (arith, e, q);
}

eligible-Serves :
    (r : Registry) (now : ℕ) (id : Bytes) (s : Session)
    → eligible r now id s ≡ true
    → Serves r now id s
unfolding is_active
eligible-Serves r now id s e = elim (Option-cases (get id r.by_id)) [
  | inl q ↦ absurd ground (arith, e, q)
  | inr (t, q) ↦ elim (Option-cases (remaining t now)) [
    | inl z ↦ absurd ground (arith, e, q, z)
    | inr (l, z) ↦ record {
      registration = (t, q, remaining-Valid now l t z);
      opened = ground (arith, e);
      writes = ground (arith, e);
      heard = ground (arith, e);
    }
  ]
]

Serves-eligible :
    (r : Registry) (now : ℕ) (id : Bytes) (s : Session)
    → Serves r now id s
    → eligible r now id s ≡ true
unfolding is_active
Serves-eligible r now id s v =
    let (t, q, ok_now) = v.registration in
    elim (Option-cases (remaining t now)) [
      | inl z ↦ absurd (Valid-remaining now t ok_now z)
      | inr (l, z) ↦ ground (arith, q, z, v.opened, v.writes, v.heard)
    ]

offer-HasRoom :
    (c : Candidate) → c.load ≡ length c.session.streams → offer c ≡ taken → HasRoom c.session
unfolding offer offer_of reserve_stream_start
offer-HasRoom c l e = record {
  streams = ground (arith, l, e);
  ids = ground (arith, l, e);
  place = ground (arith, l, e);
}

HasRoom-offer :
    (c : Candidate)
    → c.load ≡ length c.session.streams
    → c.session.writer ≡ true
    → HasRoom c.session
    → offer c ≡ taken
unfolding offer offer_of reserve_stream_start
HasRoom-offer c l w h = ground (arith, l, w, h.streams, h.ids, h.place)

-- The candidate of a session.
abbrev candidate_for : Bytes → ℕ → Session → Candidate
candidate_for id g s = record { load = length s.streams; id = id; generation = g; session = s }

Has-candidates_of :
    (r : Registry) (now : ℕ) (id : Bytes) (g : ℕ) (s : Session) (live : Map Bytes ℕ)
    → Listed id g live
    → get g r.sessions ≡ some s
    → eligible r now id s ≡ true
    → Has (candidate_for id g s) (candidates_of r now live)
unfolding candidates_of
Has-candidates_of r now id g s [] m e p = elim m [ ]
Has-candidates_of r now id g s ((j, h) ∷ live) (inl (i, k)) e p = rw (i, k, e, p) (inl refl)
Has-candidates_of r now id g s ((j, h) ∷ live) (inr m) e p =
    let rest = Has-candidates_of r now id g s live m e p in
    elim (Option-cases (get h r.sessions)) [
      | inl q ↦ rw q rest
      | inr (t, q) ↦ elim (Bool-cases (eligible r now j t)) [
        | inl y ↦ rw (q, y) (inr rest)
        | inr n ↦ rw (q, n) rest
      ]
    ]

candidates_of-Listed :
    (r : Registry) (now : ℕ) (c : Candidate) (live : Map Bytes ℕ)
    → Has c (candidates_of r now live)
    → Listed c.id c.generation live
unfolding candidates_of
candidates_of-Listed r now c [] m = m
candidates_of-Listed r now c ((j, h) ∷ live) m = elim (Option-cases (get h r.sessions)) [
  | inl q ↦ inr (candidates_of-Listed r now c live (rw q at m))
  | inr (t, q) ↦ elim (Bool-cases (eligible r now j t)) [
    | inl y ↦ elim (rw (q, y) at m) as (λ x. Listed c.id c.generation ((j, h) ∷ live)) [
      | inl e ↦ rw e (inl (refl, refl))
      | inr rest ↦ inr (candidates_of-Listed r now c live rest)
    ]
    | inr n ↦ inr (candidates_of-Listed r now c live (rw (q, n) at m))
  ]
]

-- The session that a request is routed to, and what it has before every other that could take it.
pub record LeastLoaded (r : Registry) (now : ℕ) (c : Candidate) : Type 0 where
  pub listed : Listed c.id c.generation r.live
  pub stored : get c.generation r.sessions ≡ some c.session
  pub serves : Serves r now c.id c.session
  pub room : HasRoom c.session
  pub least :
      (id : Bytes) (g : ℕ) (s : Session)
      → Listed id g r.live
      → get g r.sessions ≡ some s
      → Serves r now id s
      → HasRoom s
      → (length c.session.streams < length s.streams)
        ⊎ ((length c.session.streams ≡ length s.streams) × (bytes_leb c.id id ≡ true))

precedes-load :
    (c d : Candidate)
    → c.load ≡ length c.session.streams
    → precedes c d ≡ true
    → (length c.session.streams < d.load)
      ⊎ ((length c.session.streams ≡ d.load) × (bytes_leb c.id d.id ≡ true))
unfolding precedes
precedes-load c d l e = ground (arith, l, e)

reserve_route-ok :
    (r : Registry) (now : ℕ) (c : Candidate) → reserve_route r now ≡ ok c → LeastLoaded r now c
unfolding candidates
reserve_route-ok r now c e =
    let a = reserve_route-Least r now c e in
    record {
      listed = candidates_of-Listed r now c r.live a.there;
      stored = a.routable.stored;
      serves = eligible-Serves r now c.id c.session a.routable.passes;
      room = offer-HasRoom c a.routable.counted a.takes;
      least = λ id g s m q v h. precedes-load c (candidate_for id g s) a.routable.counted (
          All-Has (λ d. offer d ≡ taken → precedes c d ≡ true) (candidate_for id g s)
            (candidates r now) a.least
            (Has-candidates_of r now id g s r.live m q (Serves-eligible r now id s v))
            (HasRoom-offer (candidate_for id g s) refl v.writes h));
    }

-- Where there is no route: no session of the live table that serves has room, and the answer says
-- busy, or that there is no tether, and then none serves.
pub record Refused (r : Registry) (now : ℕ) (e : ForwardError) : Type 0 where
  pub full :
      (id : Bytes) (g : ℕ) (s : Session)
      → Listed id g r.live
      → get g r.sessions ≡ some s
      → Serves r now id s
      → ¬ HasRoom s
  pub why :
      (e ≡ tether_busy)
      ⊎ ((e ≡ no_tether)
          × ((id : Bytes) (g : ℕ) (s : Session)
              → Listed id g r.live
              → get g r.sessions ≡ some s
              → ¬ Serves r now id s))

taken_not_full : (c : Candidate) → offer c ≡ taken → offer c ≡ full → ⊥
taken_not_full c t f = cc

reserve_route-err :
    (r : Registry) (now : ℕ) (e : ForwardError) → reserve_route r now ≡ err e → Refused r now e
unfolding candidates
reserve_route-err r now e q =
    let (all, why) = reserve_route-refused r now e q in
    let there =
      λ (id : Bytes) (g : ℕ) (s : Session) (m : Listed id g r.live) (k : get g r.sessions ≡ some s)
          (v : Serves r now id s).
        Has-candidates_of r now id g s r.live m k (Serves-eligible r now id s v) in
    record {
      full = λ id g s m k v h.
          taken_not_full (candidate_for id g s)
            (HasRoom-offer (candidate_for id g s) refl v.writes h)
            (All-Has (λ d. offer d ≡ full) (candidate_for id g s) (candidates r now) all
              (there id g s m k v));
      why = elim why [
        | inl b ↦ inl b
        | inr (n, z) ↦
            inr (n, λ id g s m k v. subst (Has (candidate_for id g s)) z (there id g s m k v))
      ];
    }

-- The outcomes of routing.
abbrev pub Routed : Registry → ℕ → Result Candidate ForwardError → Type 0
Routed r now (ok c) = LeastLoaded r now c
Routed r now (err e) = Refused r now e

-- A request is routed to a session of the live table whose tether is registered, not revoked and not
-- past its expiry, which is open, not silent and has room, and each other such session serves more
-- streams, or as many and its id does not come before. It is refused only if there is no such
-- session: with busy, or with no tether, and then no session would serve even with room.
pub reserve_route-Routed : (r : Registry) (now : ℕ) → Routed r now (reserve_route r now)
reserve_route-Routed r now = elim (Result-cases (reserve_route r now)) [
  | inl (c, e) ↦ rw e (reserve_route-ok r now c e)
  | inr (x, e) ↦ rw e (reserve_route-err r now x e)
]
