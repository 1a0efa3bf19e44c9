-- ===== src/Hub/Handshake/Tests.antt =====
-- The handshake at a concrete input; the digest's bytes are those of the credential.
use anvil_ring.Base.{◌≡◌, refl, [], ◌∷◌, Bytes, bytes, get, insert, remove, bytes_key, bytes_eq}
use anvil_ring.Text.Decimal.{digit_char}
use anvil_ring.Frames.{decode}
use anvil_ring.Hub.State.{Registry, Lease, default_lease, remaining}
use anvil_ring.Hub.Registry.{
  new, register, authorize, attach, install, evict, forget, lease_of, lease_for,
}
use anvil_ring.Hub.Registry.Consistent.{Consistent, new-Consistent, register-Consistent}
use anvil_ring.Hub.Loop.{Message, binary, decode_message}
use anvil_ring.Hub.Handshake.{digest, hex_bytes, handshake, entered, welcome_of}
use anvil_ring.Hub.Handshake.Admission.{Admitted, handshake-Admitted}

abbrev same : Bytes → Bytes
same input = input

abbrev before : Registry
before = register (digest same) (bytes "box") [] (bytes "k") (new default_lease)

before-Consistent : Consistent before
before-Consistent =
    register-Consistent (digest same) (bytes "box") [] (bytes "k") (new default_lease)
      (new-Consistent default_lease)

abbrev first : Message
first = binary (1 ∷ 0 ∷ 0 ∷ 0 ∷ 0 ∷ 0 ∷ 1 ∷ bytes "k")

abbrev lease : Lease
lease = record { tether_id = bytes "box"; ttl = default_lease }

abbrev after : Registry
after = install (bytes "box") 1 (evict (bytes "box") before)

handshake-first :
    handshake same first 0 before 1 before ≡ entered (welcome_of lease ∷ []) lease after 1
unfolding digit_char hex_bytes handshake decode_message decode register authorize attach install
    evict forget digest get insert remove bytes_eq remaining lease_of lease_for
handshake-first = refl

handshake-Admitted_example : Admitted same first 0 before 1 before lease after 1
handshake-Admitted_example =
    handshake-Admitted same first 0 before 1 before (welcome_of lease ∷ []) lease after 1
      before-Consistent before-Consistent handshake-first
