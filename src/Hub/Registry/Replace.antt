-- ===== src/Hub/Registry/Replace.antt =====
-- `replace_records` and `clear_records`: which sessions survive a new snapshot.
use anvil_ring.Base.{
  ℕ, ◌≡◌, refl, ap, ◌∙◌, Bool, true, false, none, some, List, [], ◌∷◌, Bytes, Map, get, nat_key,
  bytes_key, bytes_eq, bytes_eq_iff, ==_iff, if◌then◌else◌, arith, Bool-cases, Option-cases, inl,
  inr, ◌^◌, Option, insert, get-insert, ◌*◌, ◌<◌, ◌↔◌,
}
use anvil_ring.Hub.State.{Registry, Session, Tether, remaining, second}
use anvil_ring.Hub.Session.{close}
use anvil_ring.Hub.Registry.{
  cancel, retain, unchanged, Record, to_tether, option_eq, index_ids, index_credentials,
  replace_records, clear_records, authorize,
}
use anvil_ring.Hub.Registry.Consistent.{Consistent, known, known-cancel}
use anvil_ring.Hub.Registry.Live.{stopped, stopped-stop, get-cancel}

module _ (keep : Bytes → Bool) where
  pub get-retain :
      (id : Bytes) (live : Map Bytes ℕ) (sessions : Map ℕ Session)
      → get id (retain keep live sessions).0 ≡ (if keep id then get id live else none)
  unfolding get retain
  get-retain id [] sessions = ground arith
  get-retain id ((j, g) ∷ live) sessions = elim (Bool-cases (bytes_eq j id)) [
    | inl e ↦ ground (arith, e, bytes_eq_iff j id, get-retain id live sessions)
    | inr e ↦ ground (arith, e, get-retain id live sessions)
  ]

  pub known-retain :
      (g : ℕ) (live : Map Bytes ℕ) (sessions : Map ℕ Session)
      → known g (retain keep live sessions).1 ≡ known g sessions
  unfolding retain
  known-retain g [] sessions = refl
  known-retain g ((j, h) ∷ live) sessions = elim (Bool-cases (keep j)) [
    | inl e ↦ rw e (known-retain g live sessions)
    | inr e ↦ rw e (known-cancel h g _ ∙ known-retain g live sessions)
  ]

  stopped-cancel :
      (g h : ℕ) (m : Map ℕ Session) → stopped (get g m) ≡ true → stopped (get g (cancel h m)) ≡ true
  unfolding close
  stopped-cancel g h m e = elim (Option-cases (get g m)) [
    | inl q ↦ ground (arith, q)
    | inr (s, q) ↦ ground (arith, q, get-cancel h g m)
  ]

  retain-stopped :
      (id : Bytes) (g : ℕ) (live : Map Bytes ℕ) (sessions : Map ℕ Session)
      → get id live ≡ some g
      → keep id ≡ false
      → known g sessions ≡ true
      → stopped (get g (retain keep live sessions).1) ≡ true
  unfolding get retain
  retain-stopped id g [] sessions e k there = cc
  retain-stopped id g ((j, h) ∷ live) sessions e k there = elim (Bool-cases (bytes_eq j id)) [
    | inl own ↦
        let same = (bytes_eq_iff j id).0 own in
        let it = own_entry own e in
        rw (ap keep same ∙ k, get-cancel, (==_iff h g).1 it)
          (stopped-stop (get g (retain keep live sessions).1)
            (known-retain g live sessions ∙ there))
    | inr other ↦
        let rest = retain-stopped id g live sessions (rw other at e) k there in
        elim (Bool-cases (keep j)) [
          | inl stays ↦ rw stays rest
          | inr goes ↦ rw goes (stopped-cancel g h (retain keep live sessions).1 rest)
        ]
  ]
    where
      own_entry :
          bytes_eq j id ≡ true → (if bytes_eq j id then some h else get id live) ≡ some g → h ≡ g
      own_entry own e = ground arith

-- The record that stands for an id: the last one of it.
pub last_of : Bytes → List Record → Option Record
last_of id [] = none
last_of id (q ∷ qs) = last_or id q (last_of id qs)
  where
    last_or : Bytes → Record → Option Record → Option Record
    last_or id q (some p) = some p
    last_or id q none = if bytes_eq q.id id then some q else none

-- A record under which the session of a registration stays: not revoked, not run out, its expiry
-- seconds of an i64, and with the
-- credential and the expiry that the registration had.
pub record Stays (now : ℕ) (q : Record) (old : Tether) : Type 0 where
  pub active : q.active ≡ true
  pub in_range : q.expires_at < 2 ^ 63
  pub lasts : now < q.expires_at * second
  pub credential : q.credential_hash ≡ old.credential_hash
  pub expiry : some q.expires_at ≡ old.expires_at

-- The same of an id that may have no record or no registration.
abbrev pub StaysOn : ℕ → Option Record → Option Tether → Type 0
StaysOn now none old = ⊥
StaysOn now (some q) none = ⊥
StaysOn now (some q) (some old) = Stays now q old

abbrev pub or_before : Option Record → Option Tether → Option Tether
or_before none old = old
or_before (some q) old = some (to_tether q)

get-index_ids :
    (id : Bytes) (m : Map Bytes Tether) (qs : List Record)
    → get id (index_ids m qs) ≡ or_before (last_of id qs) (get id m)
unfolding index_ids last_of
get-index_ids id m [] = refl
get-index_ids id m (q ∷ qs) = elim (Option-cases (last_of id qs)) [
  | inl e ↦ ground (
    arith,
    e,
    get-index_ids id (insert q.id (to_tether q) m) qs,
    get-insert q.id id (to_tether q) m,
  )
  | inr (p, e) ↦ ground (arith, e, get-index_ids id (insert q.id (to_tether q) m) qs)
]

option_eq_iff : (x y : Option ℕ) → (option_eq x y ≡ true) ↔ (x ≡ y)
option_eq_iff none none = ground arith
option_eq_iff none (some y) = ground arith
option_eq_iff (some x) none = ground arith
option_eq_iff (some x) (some y) = ground (arith, ==_iff x y)

unchanged-Stays :
    (now : ℕ) (q : Record) (old : Tether)
    → unchanged now (some (to_tether q)) (some old) ≡ true
    → Stays now q old
unfolding unchanged remaining
unchanged-Stays now q old e = record {
  active = ground (arith, e);
  in_range = ground (arith, e);
  lasts = ground (arith, e);
  credential = (bytes_eq_iff q.credential_hash old.credential_hash).0 (ground (arith, e));
  expiry = (option_eq_iff (some q.expires_at) old.expires_at).0 (ground (arith, e));
}

Stays-unchanged :
    (now : ℕ) (q : Record) (old : Tether)
    → Stays now q old
    → unchanged now (some (to_tether q)) (some old) ≡ true
unfolding unchanged remaining
Stays-unchanged now q old s = ground (
  arith,
  s.active,
  s.in_range,
  s.lasts,
  (bytes_eq_iff q.credential_hash old.credential_hash).1 s.credential,
  (option_eq_iff (some q.expires_at) old.expires_at).1 s.expiry,
)

unchanged_iff :
    (now : ℕ) (o : Option Record) (p : Option Tether)
    → (unchanged now (or_before o none) p ≡ true) ↔ StaysOn now o p
unfolding unchanged
unchanged_iff now none p = ground arith
unchanged_iff now (some q) none = ground arith
unchanged_iff now (some q) (some old) = (unchanged-Stays now q old, Stays-unchanged now q old)

module _ (records : List Record) (now : ℕ) (r : Registry) where
  abbrev keeps : Bytes → Bool
  keeps id = unchanged now (get id (index_ids [] records)) (get id r.by_id)

  keeps_iff : (id : Bytes) → (keeps id ≡ true) ↔ StaysOn now (last_of id records) (get id r.by_id)
  unfolding get
  keeps_iff id =
      rw (get-index_ids id [] records) (unchanged_iff now (last_of id records) (get id r.by_id))

  keeps_not : (id : Bytes) → ¬ StaysOn now (last_of id records) (get id r.by_id) → keeps id ≡ false
  keeps_not id n = elim (Bool-cases (keeps id)) [
    | inl e ↦ absurd (n ((keeps_iff id).0 e))
    | inr e ↦ e
  ]

  -- What survives a new snapshot: the sessions of the ids that stay; every other live session is closed
  -- and told to stop; and each id is registered with its last record.
  pub record Survives (r' : Registry) : Type 0 where
    pub kept :
        (id : Bytes)
        → StaysOn now (last_of id records) (get id r.by_id)
        → get id r'.live ≡ get id r.live
    pub gone :
        (id : Bytes) → ¬ StaysOn now (last_of id records) (get id r.by_id) → get id r'.live ≡ none
    pub ended :
        (id : Bytes) (g : ℕ)
        → get id r.live ≡ some g
        → ¬ StaysOn now (last_of id records) (get id r.by_id)
        → stopped (get g r'.sessions) ≡ true
    pub taken : (id : Bytes) → get id r'.by_id ≡ or_before (last_of id records) none

  pub replace_records-Survives : Consistent r → Survives (replace_records records now r)
  unfolding replace_records get
  replace_records-Survives c = record {
    kept = λ id s. get-retain keeps id r.live r.sessions ∙ rw ((keeps_iff id).1 s) refl;
    gone = λ id n. get-retain keeps id r.live r.sessions ∙ rw (keeps_not id n) refl;
    ended = λ id g e n.
        retain-stopped keeps id g r.live r.sessions e (keeps_not id n) (c.present id g e);
    taken = λ id. get-index_ids id [] records;
  }

-- What is left where authorization is cleared: no credential has a lease, no tether a session, and
-- every session that was live has been told to stop.
pub record Cleared (digest : Bytes → Bytes) (r r' : Registry) : Type 0 where
  pub leases : (credential : Bytes) (now : ℕ) → authorize digest credential now r' ≡ none
  pub live : (id : Bytes) → get id r'.live ≡ none
  pub stops : (id : Bytes) (g : ℕ) → get id r.live ≡ some g → stopped (get g r'.sessions) ≡ true

pub clear_records-Cleared :
    (digest : Bytes → Bytes) (now : ℕ) (r : Registry)
    → Consistent r
    → Cleared digest r (clear_records now r)
unfolding clear_records replace_records index_ids index_credentials unchanged authorize get last_of
clear_records-Cleared digest now r c =
    let s = replace_records-Survives [] now r c in
    record {
      leases = λ credential now'. refl;
      live = λ id. s.gone id (λ x. x);
      stops = λ id g e. s.ended id g e (λ x. x);
    }
