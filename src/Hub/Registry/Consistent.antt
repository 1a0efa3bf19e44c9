-- ===== src/Hub/Registry/Consistent.antt =====
-- The tables of the registry agree with one another, and every operation keeps them so.
use anvil_ring.Base.{
  ℕ, ◌+◌, ◌^◌, ◌<◌, ◌≡◌, ◌≢◌, sym, subst, Bool, true, false, Option, none, some, Bytes, Map, get,
  insert, remove, nat_key, bytes_key, get-insert, get-remove, bytes_eq, bytes_eq_iff, ==_iff,
  if◌then◌else◌, arith, Option-cases, Bool-cases, inl, inr,
}
use anvil_ring.Hub.State.{Registry, Tether, Session}
use anvil_ring.Hub.Session.{close}
use anvil_ring.Hub.Registry.{
  install, cancel, evict, forget, is_some, register, revoke, attach, detach, deactivate, owns,
  may_attach, fresh_session, new,
}

abbrev pub hash_of : Option Tether → Option Bytes
hash_of none = none
hash_of (some t) = some t.credential_hash

abbrev pub known : ℕ → Map ℕ Session → Bool
known g sessions = is_some (get g sessions)

-- A tether stands under its own id; a digest names the registration that carries it; a live session
-- belongs to a registered tether, is a session of the registry, and serves one tether only; the
-- generations so far lie below the next one.
pub record Consistent (r : Registry) : Type 0 where
  pub ids : (id : Bytes) (t : Tether) → get id r.by_id ≡ some t → t.id ≡ id
  pub credentials :
      (h id : Bytes) → get h r.by_credential ≡ some id → hash_of (get id r.by_id) ≡ some h
  pub registered : (id : Bytes) (g : ℕ) → get id r.live ≡ some g → is_some (get id r.by_id) ≡ true
  pub present : (id : Bytes) (g : ℕ) → get id r.live ≡ some g → known g r.sessions ≡ true
  pub below : (g : ℕ) → known g r.sessions ≡ true → g < r.next_generation
  pub owner : (id id' : Bytes) (g : ℕ) → get id r.live ≡ some g → get id' r.live ≡ some g → id ≡ id'

pub new-Consistent : (lease : ℕ) → Consistent (new lease)
unfolding get
new-Consistent lease = record {
  ids = λ id t e. cc;
  credentials = λ h id e. cc;
  registered = λ id g e. cc;
  present = λ id g e. cc;
  below = λ g e. cc;
  owner = λ id id' g e e'. cc;
}

pub known-cancel : (g j : ℕ) (m : Map ℕ Session) → known j (cancel g m) ≡ known j m
unfolding cancel
known-cancel g j m = elim (Option-cases (get g m)) [
  | inl e ↦ rw (e, cancel)
  | inr (s, e) ↦ ground (arith, e, get-insert g j (record (close s) { abort = true }) m, ==_iff g j)
]

-- What `evict` leaves.
module _ (id : Bytes) (r : Registry) where
  pub evict_tables :
      ((evict id r).by_id ≡ r.by_id)
      × ((evict id r).by_credential ≡ r.by_credential)
      × ((evict id r).next_generation ≡ r.next_generation)
      × ((evict id r).lease ≡ r.lease)
  unfolding evict
  evict_tables = ground arith

  pub get-live-evict :
      (j : Bytes) → get j (evict id r).live ≡ (if bytes_eq id j then none else get j r.live)
  unfolding evict
  get-live-evict j = elim (Option-cases (get id r.live)) [
    | inl e ↦ ground (arith, e, bytes_eq_iff id j)
    | inr (g, e) ↦ ground (arith, e, get-remove id j r.live)
  ]

  pub get-live-evict-some :
      (j : Bytes) (g : ℕ) → get j (evict id r).live ≡ some g → get j r.live ≡ some g
  get-live-evict-some j g e = ground (arith, get-live-evict j)

  pub known-evict : (g : ℕ) → known g (evict id r).sessions ≡ known g r.sessions
  unfolding evict
  known-evict g = elim (Option-cases (get id r.live)) [
    | inl e ↦ ground (arith, e)
    | inr (h, e) ↦ ground (arith, e, known-cancel h g r.sessions)
  ]

evict-Consistent : (id : Bytes) (r : Registry) → Consistent r → Consistent (evict id r)
evict-Consistent id r c =
    let (ids, creds, next, _) = evict_tables id r in
    record {
      ids = λ j t e. c.ids j t (rw ids at e);
      credentials = λ h j e. rw ids (c.credentials h j (rw creds at e));
      registered = λ j g e. rw ids (c.registered j g (get-live-evict-some id r j g e));
      present = λ j g e. rw known-evict (c.present j g (get-live-evict-some id r j g e));
      below = λ g e. rw next (c.below g (rw known-evict at e));
      owner = λ j j' g e e'.
          c.owner j j' g (get-live-evict-some id r j g e) (get-live-evict-some id r j' g e');
    }

-- The tables after a registration, before the old session goes.
forget-some :
    (id : Bytes) (r : Registry) (h j : Bytes)
    → Consistent r
    → get h (forget (get id r.by_id) r.by_credential) ≡ some j
    → (get h r.by_credential ≡ some j) × (j ≢ id)
unfolding forget
forget-some id r h j c e = elim (Option-cases (get id r.by_id)) [
  | inl gone ↦ ground (arith, gone, c.credentials h j)
  | inr (t, e') ↦ ground (
    arith,
    e',
    c.ids id t e',
    c.credentials h j,
    get-remove t.credential_hash h r.by_credential,
    bytes_eq_iff t.credential_hash h,
    bytes_eq_iff j t.id,
  )
]

-- The tables with the new registration, before the old session goes.
register_tables :
    (t : Tether) (r : Registry)
    → Consistent r
    → Consistent (record r {
      by_id = insert t.id t r.by_id;
      by_credential = insert t.credential_hash t.id (forget (get t.id r.by_id) r.by_credential);
    })
register_tables t r c = record {
  ids = λ j u e. ground (arith, get-insert t.id j t r.by_id, bytes_eq_iff t.id j, c.ids j u);
  credentials = λ h j e. ground (
    arith,
    get-insert t.credential_hash h t.id (forget (get t.id r.by_id) r.by_credential),
    bytes_eq_iff t.credential_hash h,
    get-insert t.id j t r.by_id,
    bytes_eq_iff t.id j,
    forget-some t.id r h j c,
    c.credentials h j,
  );
  registered = λ j g e. ground (arith, get-insert t.id j t r.by_id, c.registered j g e);
  present = c.present;
  below = c.below;
  owner = c.owner;
}

get-live-evict_self : (id : Bytes) (r : Registry) → get id (evict id r).live ≡ none
get-live-evict_self id r = ground (arith, get-live-evict id r id, bytes_eq_iff id id)

pub evict_by_id : (id : Bytes) (r : Registry) → (evict id r).by_id ≡ r.by_id
evict_by_id id r = (evict_tables id r).0

module _ (id : Bytes) (now : ℕ) (r : Registry) (c : Consistent r)
    (there : is_some (get id r.by_id) ≡ true) (idle : get id r.live ≡ none)
    (small : r.next_generation + 1 < 2 ^ 64) where
  install-owner :
      (j j' : Bytes) (g : ℕ)
      → get j (insert id r.next_generation r.live) ≡ some g
      → get j' (insert id r.next_generation r.live) ≡ some g
      → j ≡ j'
  install-owner j j' g e e' = ground (
    arith,
    get-insert id j r.next_generation r.live,
    get-insert id j' r.next_generation r.live,
    bytes_eq_iff id j,
    bytes_eq_iff id j',
    c.owner j j' g,
    c.present j g,
    c.present j' g,
    c.below g,
  )

  install-Consistent : Consistent (install id now r)
  unfolding install
  install-Consistent = record {
    ids = c.ids;
    credentials = c.credentials;
    registered = λ j g e.
        ground
          (arith, get-insert id j r.next_generation r.live, bytes_eq_iff id j, c.registered j g);
    present = λ j g e. ground (
      arith,
      get-insert id j r.next_generation r.live,
      get-insert r.next_generation g (fresh_session now) r.sessions,
      c.present j g,
    );
    below = λ g e.
        ground (arith, get-insert r.next_generation g (fresh_session now) r.sessions, c.below g);
    owner = install-owner;
  }

module _ (digest : Bytes → Bytes) where
  -- A registration keeps the tables consistent, whatever stood under its id or its digest.
  pub register-Consistent :
      (id label credential : Bytes) (r : Registry)
      → Consistent r
      → Consistent (register digest id label credential r)
  unfolding register
  register-Consistent id label credential r c = evict-Consistent id _ (
      register_tables
        (record {
          id = id;
          label = label;
          credential_hash = digest credential;
          active = true;
          expires_at = none;
        })
        r c)

  pub attach-some :
      (id credential : Bytes) (now : ℕ) (r r' : Registry) (g : ℕ)
      → attach digest id credential now r ≡ some (r', g)
      → (may_attach digest id credential now r (get id r.by_id) ≡ true)
        × (r' ≡ install id now (evict id r))
        × (g ≡ r.next_generation)
  unfolding attach
  attach-some id credential now r r' g e = ground arith

  may_attach-registered :
      (id credential : Bytes) (now : ℕ) (r : Registry)
      → may_attach digest id credential now r (get id r.by_id) ≡ true
      → is_some (get id r.by_id) ≡ true
  unfolding may_attach
  may_attach-registered id credential now r e = ground arith

  -- So does the start of a session, while the counter of generations does not wrap.
  pub attach-Consistent :
      (id credential : Bytes) (now : ℕ) (r r' : Registry) (g : ℕ)
      → Consistent r
      → r.next_generation + 1 < 2 ^ 64
      → attach digest id credential now r ≡ some (r', g)
      → Consistent r'
  unfolding attach
  attach-Consistent id credential now r r' g c h e =
      let (may, er, _) = attach-some id credential now r r' g e in
      let (_, _, next, _) = evict_tables id r in
      subst Consistent (sym er) (
        install-Consistent id now (evict id r) (evict-Consistent id r c)
          (rw evict_by_id (may_attach-registered id credential now r may))
          (get-live-evict_self id r) (rw next h))

deactivate_tables :
    (id : Bytes) (r : Registry)
    → Consistent r
    → Consistent (record r { by_id = (deactivate id (get id r.by_id) r.by_id).0 })
unfolding deactivate
deactivate_tables id r c = elim (Option-cases (get id r.by_id)) [
  | inl e ↦ rw (e, deactivate) c
  | inr (t, e) ↦ elim (Bool-cases t.active) [
    | inl on ↦
        rw (e, deactivate, on)
          (record {
            ids = λ j u q. ground (
              arith,
              get-insert id j (record t { active = false }) r.by_id,
              bytes_eq_iff id j,
              c.ids j u,
              c.ids id t e,
            );
            credentials = λ h j q. ground (
              arith,
              e,
              get-insert id j (record t { active = false }) r.by_id,
              bytes_eq_iff id j,
              c.credentials h j q,
            );
            registered = λ j g q.
                ground (
                  arith,
                  get-insert id j (record t { active = false }) r.by_id,
                  c.registered j g q,
                );
            present = c.present;
            below = c.below;
            owner = c.owner;
          })
    | inr off ↦ rw (e, deactivate, off) c
  ]
]

-- A revocation keeps the tables consistent.
pub revoke-Consistent : (id : Bytes) (r : Registry) → Consistent r → Consistent (revoke id r).0
unfolding revoke
revoke-Consistent id r c = evict-Consistent id _ (deactivate_tables id r c)

get-remove-some :
    (id : Bytes) (r : Registry) (j : Bytes) (g : ℕ)
    → get j (remove id r.live) ≡ some g
    → get j r.live ≡ some g
get-remove-some id r j g e = ground (arith, get-remove id j r.live)

pub detach-Consistent :
    (id : Bytes) (g : ℕ) (r : Registry) → Consistent r → Consistent (detach id g r)
unfolding detach
detach-Consistent id g r c = elim (Bool-cases (owns g (get id r.live))) [
  | inl mine ↦ rw mine (record {
    ids = c.ids;
    credentials = c.credentials;
    registered = λ j g' e. c.registered j g' (get-remove-some id r j g' e);
    present = λ j g' e. c.present j g' (get-remove-some id r j g' e);
    below = c.below;
    owner = λ j j' g' e e'.
        c.owner j j' g' (get-remove-some id r j g' e) (get-remove-some id r j' g' e');
  })
  | inr other ↦ rw other c
]
