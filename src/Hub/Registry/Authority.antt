-- ===== src/Hub/Registry/Authority.antt =====
-- Who a credential speaks for: `authorize` against `register` and `revoke`.
use anvil_ring.Base.{
  ℕ, ◌≤◌, ◌≡◌, refl, sym, ap, ◌∙◌, true, false, Option, none, some, Bytes, Map, get, nat_key,
  bytes_key, get-insert, get-insert_self, get-remove, bytes_eq, bytes_eq_iff, if◌then◌else◌, arith,
  min, Option-cases, Bool-cases, inl, inr,
}
use anvil_ring.Hub.State.{Registry, Tether, Lease, remaining, second, duration_max}
use anvil_ring.Hub.Registry.{
  authorize, lease_of, lease_by, lease_for, revoke, deactivate, register, forget, evict,
}
use anvil_ring.Hub.Registry.Consistent.{Consistent, evict_tables}

-- The registration behind a lease: it carries the digest that was presented, it is active, at
-- least a second of it is left, and the lease ends no later than it does.
pub record Entitles (hash : Bytes) (now : ℕ) (lease : Lease) (r : Registry) (t : Tether)
    : Type 0 where
  pub pointed : get hash r.by_credential ≡ some lease.tether_id
  pub found : get lease.tether_id r.by_id ≡ some t
  pub named : t.id ≡ lease.tether_id
  pub carries : t.credential_hash ≡ hash
  pub active : t.active ≡ true
  pub left : ℕ
  pub remains : remaining t now ≡ some left
  pub enough : second ≤ left
  pub term : lease.ttl ≡ min r.lease left

abbrev pub without : Bytes → Option Lease → Option Lease
without id none = none
without id (some l) = if bytes_eq id l.tether_id then none else some l

lease_for-some :
    (bound left : ℕ) (id : Bytes) (l : Lease)
    → lease_for bound id (some left) ≡ some l
    → (l ≡ record { tether_id = id; ttl = min bound left }) × (second ≤ left)
unfolding lease_for
lease_for-some bound left id l e = ground arith

remaining-active : (t : Tether) (now left : ℕ) → remaining t now ≡ some left → t.active ≡ true
unfolding remaining
remaining-active t now left e = ground arith

-- A lease names the id that the digest led to.
lease_by-without :
    (bound now : ℕ) (id j : Bytes) (m : Map Bytes Tether)
    → without id (lease_by bound now (some j) m)
      ≡ (if bytes_eq id j then none else lease_by bound now (some j) m)
unfolding lease_of lease_for
lease_by-without bound now id j m = elim (Option-cases (get j m)) [
  | inl e ↦ ground (arith, e)
  | inr (t, e) ↦ elim (Option-cases (remaining t now)) [
    | inl over ↦ ground (arith, e, over)
    | inr (left, remains) ↦ ground (arith, e, remains)
  ]
]

lease_of-inactive :
    (bound now : ℕ) (id : Bytes) (t : Tether)
    → t.active ≡ false
    → lease_of bound id (some t) now ≡ none
unfolding lease_of lease_for remaining
lease_of-inactive bound now id t off = rw off refl

lease_by-deactivate :
    (bound now : ℕ) (id j : Bytes) (m : Map Bytes Tether)
    → lease_by bound now (some j) (deactivate id (get id m) m).0
      ≡ (if bytes_eq id j then none else lease_by bound now (some j) m)
unfolding deactivate lease_of
lease_by-deactivate bound now id j m = elim (Option-cases (get id m)) [
  | inl e ↦ ground (arith, e, bytes_eq_iff id j)
  | inr (t, e) ↦ ground (
    arith,
    e,
    bytes_eq_iff id j,
    get-insert id j (record t { active = false }) m,
    lease_of-inactive bound now id (record t { active = false }) refl,
    lease_of-inactive bound now id t,
  )
]

-- What is left of the digests when an earlier registration is forgotten.
pub get-forget-none :
    (id : Bytes) (r : Registry) (h : Bytes)
    → get h r.by_credential ≡ none
    → get h (forget (get id r.by_id) r.by_credential) ≡ none
unfolding forget
get-forget-none id r h e = elim (Option-cases (get id r.by_id)) [
  | inl gone ↦ ground (arith, gone)
  | inr (t, found) ↦ ground (arith, found, get-remove t.credential_hash h r.by_credential)
]

pub get-forget :
    (id : Bytes) (r : Registry) (h j : Bytes)
    → Consistent r
    → get h r.by_credential ≡ some j
    → get h (forget (get id r.by_id) r.by_credential) ≡ (if bytes_eq id j then none else some j)
unfolding forget
get-forget id r h j c e = elim (Option-cases (get id r.by_id)) [
  | inl gone ↦ ground (arith, gone, c.credentials h j e, bytes_eq_iff id j)
  | inr (t, found) ↦ ground (
    arith,
    found,
    c.ids id t found,
    c.credentials h j e,
    get-remove t.credential_hash h r.by_credential,
    bytes_eq_iff t.credential_hash h,
    bytes_eq_iff id j,
    bytes_eq_iff j t.id,
  )
]

module _ (digest : Bytes → Bytes) where
  authorize_by :
      (credential : Bytes) (now : ℕ) (r : Registry)
      → authorize digest credential now r
        ≡ lease_by r.lease now (get (digest credential) r.by_credential) r.by_id
  unfolding authorize
  authorize_by credential now r = refl

  pub authorize-some :
      (credential : Bytes) (now : ℕ) (r : Registry) (id : Bytes) (t : Tether)
      → get (digest credential) r.by_credential ≡ some id
      → get id r.by_id ≡ some t
      → authorize digest credential now r ≡ lease_for r.lease id (remaining t now)
  unfolding lease_of
  authorize-some credential now r id t e e' = rw (authorize_by, e, e')

  pub authorize-none :
      (credential : Bytes) (now : ℕ) (r : Registry)
      → get (digest credential) r.by_credential ≡ none
      → authorize digest credential now r ≡ none
  authorize-none credential now r e =
      authorize_by credential now r ∙ ap (λ o. lease_by r.lease now o r.by_id) e

  entitled :
      (credential : Bytes) (now : ℕ) (r : Registry) (lease : Lease) (id : Bytes) (t : Tether)
      (left : ℕ)
      → Consistent r
      → get (digest credential) r.by_credential ≡ some id
      → get id r.by_id ≡ some t
      → remaining t now ≡ some left
      → lease_for r.lease id (some left) ≡ some lease
      → Entitles (digest credential) now lease r t
  entitled credential now r lease id t left c named found remains e =
      let (el, enough) = lease_for-some r.lease left id lease e in
      rw el (record {
        pointed = named;
        found = found;
        named = c.ids id t found;
        carries = ground (arith, found, c.credentials (digest credential) id named);
        active = remaining-active t now left remains;
        left = left;
        remains = remains;
        enough = enough;
        term = refl;
      })

  -- In consistent tables, a lease is only given for a credential whose digest an active registration
  -- carries, of which at least a second is left, and it ends no later than that registration.
  pub authorize-Entitles :
      (credential : Bytes) (now : ℕ) (r : Registry) (lease : Lease)
      → Consistent r
      → authorize digest credential now r ≡ some lease
      → (t : Tether) × Entitles (digest credential) now lease r t
  unfolding lease_for
  authorize-Entitles credential now r lease c e =
      elim (Option-cases (get (digest credential) r.by_credential)) [
        | inl none_named ↦ (cc (e, authorize-none credential now r none_named))
        | inr (id, named) ↦ elim (Option-cases (get id r.by_id)) [
          | inl gone ↦ (cc (gone, c.credentials (digest credential) id named))
          | inr (t, found) ↦ elim (Option-cases (remaining t now)) [
            | inl over ↦
                (cc (
                  e,
                  authorize-some credential now r id t named found ∙ ap (lease_for r.lease id) over,
                ))
            | inr (left, remains) ↦ (
              t,
              entitled credential now r lease id t left c named found remains (
                  sym (ap (lease_for r.lease id) remains)
                  ∙ (sym (authorize-some credential now r id t named found) ∙ e)),
            )
          ]
        ]
      ]

  authorize-evict :
      (credential : Bytes) (now : ℕ) (id : Bytes) (r : Registry)
      → authorize digest credential now (evict id r) ≡ authorize digest credential now r
  unfolding authorize
  authorize-evict credential now id r =
      let (ids, creds, _, bound) = evict_tables id r in rw (ids, creds, bound) refl

  -- A revocation takes back the leases of its identity, whatever the credential, and no others.
  pub revoke-authorize :
      (id credential : Bytes) (now : ℕ) (r : Registry)
      → authorize digest credential now (revoke id r).0
        ≡ without id (authorize digest credential now r)
  unfolding revoke authorize
  revoke-authorize id credential now r =
      authorize-evict credential now id _
      ∙ elim (Option-cases (get (digest credential) r.by_credential)) [
        | inl e ↦ rw e refl
        | inr (j, e) ↦ rw e (
            lease_by-deactivate r.lease now id j r.by_id
            ∙ sym (lease_by-without r.lease now id j r.by_id))
      ]

  -- In consistent tables, a registration gives its credential a lease on the new identity, takes
  -- back the leases of that identity's earlier credential, and touches no others.
  pub register-authorize :
      (id label credential other : Bytes) (now : ℕ) (r : Registry)
      → Consistent r
      → authorize digest other now (register digest id label credential r) ≡ (
          if bytes_eq (digest credential) (digest other)
          then some (record { tether_id = id; ttl = min r.lease duration_max })
          else without id (authorize digest other now r))
  unfolding register authorize lease_of lease_for remaining
  register-authorize id label credential other now r c =
      authorize-evict other now id _
      ∙ elim (Bool-cases (bytes_eq (digest credential) (digest other))) [
        | inl same ↦ rw (get-insert, same, get-insert_self) refl
        | inr differs ↦ elim (Option-cases (get (digest other) r.by_credential)) [
          | inl e ↦ rw (get-insert, differs, get-forget-none id r (digest other) e, e) refl
          | inr (j, e) ↦ elim (Bool-cases (bytes_eq id j)) [
            | inl own ↦
                rw (get-insert, differs, get-forget id r (digest other) j c e, own, e)
                  (sym (lease_by-without r.lease now id j r.by_id ∙ rw own refl))
            | inr foreign ↦
                rw
                  (
                    get-insert,
                    differs,
                    get-forget id r (digest other) j c e,
                    foreign,
                    e,
                    get-insert,
                    foreign,
                  )
                  (sym (lease_by-without r.lease now id j r.by_id ∙ rw foreign refl))
          ]
        ]
      ]
