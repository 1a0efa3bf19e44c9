-- ===== src/Hub/Registry/Tests.antt =====
-- Runs of the registry on concrete inputs; the digest is the identity.
use anvil_ring.Base.{
  List, [], ◌∷◌, ◌++◌, All, ◌≡◌, ◌≢◌, refl, arith, true, none, some, Bytes, bytes, get, bytes_key,
  insert, remove, min, max, ◌*◌, if◌then◌else◌, bytes_eq,
}
use anvil_ring.Hub.State.{Registry, Tether, Lease, remaining, default_lease, duration_max, second}
use anvil_ring.Hub.Registry.{
  Record, replace_records, new, register, revoke, authorize, attach, install, evict, forget,
  may_attach, lease_of, lease_for, to_tether,
}
use anvil_ring.Hub.Registry.Consistent.{
  Consistent, new-Consistent, register-Consistent, attach-Consistent,
}
use anvil_ring.Hub.Registry.Authority.{
  Entitles, without, authorize-Entitles, revoke-authorize, register-authorize,
}
use anvil_ring.Hub.Registry.View.{
  Request, registers, revokes, attaches, detaches, apply_all, specify_all,
}
use anvil_ring.Hub.Registry.Refines.{lease_on, apply_all-refines}
use anvil_ring.Hub.Registry.Reload.{Distinct, replace_records-Consistent, replace_records-authorize}
use anvil_ring.Hub.Registry.Live.{Replaces, attach-Replaces}

abbrev plain : Bytes → Bytes
plain credential = credential

abbrev box : Bytes
box = bytes "box"

abbrev key : Bytes
key = bytes "key"

abbrev other : Bytes
other = bytes "other"

-- One tether, then its session.
abbrev one : Registry
one = register plain box key key (new default_lease)

abbrev attached : Registry
attached = install box 0 (evict box one)

one-Consistent : Consistent one
one-Consistent =
    register-Consistent plain box key key (new default_lease) (new-Consistent default_lease)

attach-one : attach plain box key 0 one ≡ some (attached, 1)
unfolding register attach get insert remove bytes_eq evict forget may_attach install remaining
attach-one = refl

attached-Consistent : Consistent attached
unfolding register evict get
attached-Consistent =
    attach-Consistent plain box key 0 one attached 1 one-Consistent (omega arith) attach-one

abbrev lease : Lease
lease = record { tether_id = box; ttl = default_lease }

authorize-one : authorize plain key 0 one ≡ some lease
unfolding register authorize get insert remove bytes_eq evict forget install remaining lease_of
    lease_for
authorize-one = refl

authorize-Entitles_example : (t : Tether) × Entitles key 0 lease one t
authorize-Entitles_example = authorize-Entitles plain key 0 one lease one-Consistent authorize-one

revoke-authorize_example :
    authorize plain key 0 (revoke box one).0 ≡ without box (authorize plain key 0 one)
revoke-authorize_example = revoke-authorize plain box key 0 one

register-authorize_example : authorize plain key 0 (register plain box key other one) ≡ (
    if bytes_eq other key
    then some (record { tether_id = box; ttl = min one.lease duration_max })
    else without box (authorize plain key 0 one))
register-authorize_example = register-authorize plain box key other key 0 one one-Consistent

attach-Replaces_example : Replaces box 0 one attached 1
attach-Replaces_example = attach-Replaces plain box key 0 one attached 1 one-Consistent attach-one

-- The snapshot has another credential for the tether.
abbrev rotated : List Record
rotated =
    record { id = box; label = key; credential_hash = other; active = true; expires_at = 100 } ∷ []

abbrev requests : List Request
requests = registers box key key ∷ attaches box key 1 ∷ detaches box 1 ∷ revokes box ∷ []

apply_all-refines_example :
    authorize plain key 2 (apply_all plain requests (new default_lease))
    ≡ lease_on plain
        (max default_lease (5 * second))
        2
        (specify_all plain requests (λ h. none) (plain key))
apply_all-refines_example = apply_all-refines plain requests default_lease key 2 (omega arith)

-- A snapshot of two records.
abbrev two_records : List Record
two_records =
    record { id = box; label = box; credential_hash = key; active = true; expires_at = 9 }
    ∷ record { id = other; label = other; credential_hash = other; active = true; expires_at = 9 }
    ∷ []

two_records-Distinct : Distinct two_records
two_records-Distinct = (((ground arith, ground arith), tt), (tt, tt))

replace_records-Consistent_example : Consistent (replace_records two_records 0 attached)
replace_records-Consistent_example =
    replace_records-Consistent two_records 0 attached two_records-Distinct attached-Consistent

replace_records-authorize_example :
    ((xs ys : List Record) (q : Record)
      → two_records ≡ xs ++ (q ∷ ys)
      → plain key ≡ q.credential_hash
      → authorize plain key 5 (replace_records two_records 0 attached)
        ≡ lease_for attached.lease q.id (remaining (to_tether q) 5))
    × (All (λ q. q.credential_hash ≢ plain key) two_records
        → authorize plain key 5 (replace_records two_records 0 attached) ≡ none)
replace_records-authorize_example =
    replace_records-authorize plain key 0 5 attached two_records two_records-Distinct
