-- ===== src/Hub/Registry.antt =====
-- `Registry`: registration, authorization, revocation, and which session serves a tether. `digest` is
-- the function of that name in hub.rs, which Hub.Handshake defines from SHA-256.
pub mod Consistent
pub mod Authority
pub mod Live
pub mod Replace
pub mod Reload
pub mod View
pub mod Refines
mod Tests
use anvil_ring.Base.{
  ℕ, zero, suc, ◌+◌, ◌-◌, ◌*◌, ◌%◌, ◌^◌, ◌≤◌, ◌<◌, ◌≡◌, Bool, true, false, not, ◌&&◌, ◌||◌, Option,
  none, some, List, [], ◌∷◌, ◌++◌, Bytes, Map, get, insert, remove, nat_key, bytes_key, bytes_eq,
  length, ltb, leb, ◌==◌, if◌then◌else◌, min, max, Result, ok, err, ◌>>=◌,
}
use anvil_ring.Hub.State.{Registry, Tether, Lease, Session, second, remaining, tether_silence}
use anvil_ring.Hub.Session.{close}

-- `Registry::new`
abbrev pub new : ℕ → Registry
new lease = record {
  by_credential = [];
  by_id = [];
  live = [];
  sessions = [];
  next_generation = 1;
  lease = max lease (5 * second);
}

-- `session.close()` and `abort_tx.send(true)`.
unfoldable pub cancel : ℕ → Map ℕ Session → Map ℕ Session
cancel g sessions = elim (get g sessions) [
  | none ↦ sessions
  | some s ↦ insert g (record (close s) { abort = true }) sessions
]

-- The live session of an id, if any, is taken out of the table and cancelled.
unfoldable pub evict : Bytes → Registry → Registry
unfolding cancel
evict id r = elim (get id r.live) [
  | none ↦ r
  | some g ↦ record r { live = remove id r.live; sessions = cancel g r.sessions }
]

-- The digest of an earlier registration goes, if it still names that registration.
abbrev pub same_id : Bytes → Option Bytes → Bool
same_id id none = false
same_id id (some id') = bytes_eq id' id

unfoldable pub forget : Option Tether → Map Bytes Bytes → Map Bytes Bytes
forget none credentials = credentials
forget (some previous) credentials =
    if same_id previous.id (get previous.credential_hash credentials)
    then remove previous.credential_hash credentials
    else credentials

abbrev pub is_some {ℓ} : {A : Type ℓ} → Option A → Bool
is_some none = false
is_some (some a) = true

abbrev pub option_eq : Option ℕ → Option ℕ → Bool
option_eq none none = true
option_eq none (some b) = false
option_eq (some a) none = false
option_eq (some a) (some b) = a == b

-- A session stays if its id is registered before and after with the same credential and expiry, and
-- is still authorized.
pub unchanged : ℕ → Option Tether → Option Tether → Bool
unchanged now none old = false
unchanged now (some next) none = false
unchanged now (some next) (some old) =
    is_some (remaining next now)
    && (bytes_eq next.credential_hash old.credential_hash
        && option_eq next.expires_at old.expires_at)

-- `live.retain`: the entries that stay, and the sessions with the others cancelled.
unfoldable pub retain : (Bytes → Bool) → Map Bytes ℕ → Map ℕ Session → Map Bytes ℕ × Map ℕ Session
unfolding cancel
retain keep [] sessions = ([], sessions)
retain keep ((id, g) ∷ live) sessions =
    let (live', sessions') = retain keep live sessions in
    if keep id then ((id, g) ∷ live', sessions') else (live', cancel g sessions')

-- A record of the durable store, as a registration.
pub record Record : Type 0 where
  pub id : Bytes
  pub label : Bytes
  pub credential_hash : Bytes
  pub active : Bool
  pub expires_at : ℕ

abbrev pub to_tether : Record → Tether
to_tether r = record {
  id = r.id;
  label = r.label;
  credential_hash = r.credential_hash;
  active = r.active;
  expires_at = some r.expires_at;
}

-- The records by id; a later record of an id replaces an earlier one.
pub index_ids : Map Bytes Tether → List Record → Map Bytes Tether
index_ids m [] = m
index_ids m (r ∷ rs) = index_ids (insert r.id (to_tether r) m) rs

pub index_credentials : Map Bytes Tether → Map Bytes Bytes
index_credentials [] = []
index_credentials ((id, t) ∷ m) = insert t.credential_hash t.id (index_credentials m)

unfoldable pub replace_records : List Record → ℕ → Registry → Registry
unfolding index_ids index_credentials retain unchanged
replace_records records now r =
    let replacement = index_ids [] records in
    let kept =
      retain (λ id. unchanged now (get id replacement) (get id r.by_id)) r.live r.sessions in
    record r {
      by_credential = index_credentials replacement;
      by_id = replacement;
      live = kept.0;
      sessions = kept.1;
    }

unfoldable pub clear_records : ℕ → Registry → Registry
unfolding replace_records
clear_records now r = replace_records [] now r

pub deactivate : Bytes → Option Tether → Map Bytes Tether → Map Bytes Tether × Bool
deactivate id none m = (m, false)
deactivate id (some t) m =
    if t.active then (insert id (record t { active = false }) m, true) else (m, false)

-- `revoke`: the new registry, and whether the call changed the registration.
unfoldable pub revoke : Bytes → Registry → Registry × Bool
unfolding deactivate evict
revoke id r =
    let (by_id, changed) = deactivate id (get id r.by_id) r.by_id in
    (evict id (record r { by_id = by_id }), changed)

-- `detach`: only the session that the table still names is taken out.
abbrev pub owns : ℕ → Option ℕ → Bool
owns g none = false
owns g (some g') = g' == g

unfoldable pub detach : Bytes → ℕ → Registry → Registry
detach id g r = if owns g (get id r.live) then record r { live = remove id r.live } else r

abbrev pub active_at : ℕ → Option Tether → Bool
active_at now none = false
active_at now (some t) = is_some (remaining t now)

unfoldable pub is_active : Bytes → ℕ → Registry → Bool
is_active id now r = active_at now (get id r.by_id)

abbrev pub fresh_session : ℕ → Session
fresh_session now = record {
  queue = [];
  writer = true;
  abort = false;
  last_seen = now;
  streams = [];
  states = [];
  closed = false;
  next_id = 1;
}

-- A new session under the next generation (`fetch_add` wraps), and its entry in the table.
unfoldable pub install : Bytes → ℕ → Registry → Registry
install id now r = record r {
  live = insert id r.next_generation r.live;
  sessions = insert r.next_generation (fresh_session now) r.sessions;
  next_generation = (r.next_generation + 1) % 2 ^ 64;
}

-- The last test of `authorize`: at least a second is left.
unfoldable pub lease_for : ℕ → Bytes → Option ℕ → Option Lease
lease_for lease id none = none
lease_for lease id (some left) =
    if ltb left second then none else some (record { tether_id = id; ttl = min lease left })

unfoldable pub lease_of : ℕ → Bytes → Option Tether → ℕ → Option Lease
unfolding lease_for
lease_of lease id none now = none
lease_of lease id (some t) now = lease_for lease id (remaining t now)

abbrev pub lease_by : ℕ → ℕ → Option Bytes → Map Bytes Tether → Option Lease
lease_by lease now none by_id = none
lease_by lease now (some id) by_id = lease_of lease id (get id by_id) now

module _ (digest : Bytes → Bytes) where
  unfoldable pub register : Bytes → Bytes → Bytes → Registry → Registry
  unfolding forget evict
  register id label credential r =
      let tether : Tether = record {
        id = id;
        label = label;
        credential_hash = digest credential;
        active = true;
        expires_at = none;
      } in
      let credentials = forget (get id r.by_id) r.by_credential in
      evict id (record r {
        by_id = insert id tether r.by_id;
        by_credential = insert (digest credential) id credentials;
      })

  unfoldable pub authorize : Bytes → ℕ → Registry → Option Lease
  authorize credential now r =
      lease_by r.lease now (get (digest credential) r.by_credential) r.by_id

  -- The test of `attach`, which repeats the authorization under the locks.
  unfoldable pub may_attach : Bytes → Bytes → ℕ → Registry → Option Tether → Bool
  may_attach id credential now r none = false
  may_attach id credential now r (some t) =
      is_some (remaining t now)
      && (bytes_eq t.credential_hash (digest credential)
          && same_id id (get (digest credential) r.by_credential))

  -- `attach`: the new registry and the generation of the session that it installs. The predecessor
  -- is closed and told to stop.
  unfoldable pub attach : Bytes → Bytes → ℕ → Registry → Option (Registry × ℕ)
  unfolding may_attach
  attach id credential now r =
      if may_attach id credential now r (get id r.by_id)
      then some (install id now (evict id r), r.next_generation)
      else none

-- `status`: a registered tether is up, stale or down.
pub data TetherState : Type 0 where
  up stale : ℕ → TetherState
  down : TetherState

abbrev pub session_state : ℕ → Option Session → TetherState
session_state now none = down
session_state now (some s) =
    if ltb tether_silence (now - s.last_seen)
    then stale (now - s.last_seen)
    else up (now - s.last_seen)

abbrev pub live_session : Registry → Bytes → Option Session
live_session r id = elim (get id r.live) [ none ↦ none | some g ↦ get g r.sessions ]

abbrev pub tether_state : Registry → ℕ → Tether → TetherState
tether_state r now t =
    if is_some (remaining t now) then session_state now (live_session r t.id) else down

unfoldable pub status : Registry → ℕ → List (Bytes × Bytes × TetherState)
status r now = report r.by_id
  where
    report : Map Bytes Tether → List (Bytes × Bytes × TetherState)
    report [] = []
    report ((id, t) ∷ m) = (t.id, t.label, tether_state r now t) ∷ report m
