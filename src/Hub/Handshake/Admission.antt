-- ===== src/Hub/Handshake/Admission.antt =====
-- Who gets in.
use anvil_ring.Base.{
  ℕ, ◌≡◌, refl, subst, ap, Option, none, some, List, [], Bytes, Result, ok, err, bytes_key,
}
use anvil_ring.Frames.{Frame}
use anvil_ring.Hub.State.{Registry, Lease, Tether}
use anvil_ring.Hub.Registry.{attach}
use anvil_ring.Hub.Registry.Consistent.{Consistent}
use anvil_ring.Hub.Registry.Authority.{Entitles, authorize-Entitles}
use anvil_ring.Hub.Registry.Live.{Replaces, attach-Replaces}
use anvil_ring.Hub.Loop.{Message, Fault, decode_message}
use anvil_ring.Hub.Handshake.{
  digest, hello_of, refused, entered, after_attach, leased, offered, handshake,
}

refused-ne :
    (gs : List Frame) (x : Fault) (fs : List Frame) (lease : Lease) (r : Registry) (g : ℕ)
    → refused gs x ≡ entered fs lease r g
    → ⊥
refused-ne gs x fs lease r g e = cc

module _ (sha256 : Bytes → Bytes) where
  -- Who enters: the message was HELLO with a credential that a registration entitles to the lease,
  -- and the session replaces the tether's.
  pub record Admitted (m : Message) (now : ℕ) (r : Registry) (later : ℕ) (r' : Registry)
      (lease : Lease) (r'' : Registry) (g : ℕ) : Type 0 where
    pub credential : Bytes
    pub said : hello_of (decode_message m) ≡ ok credential
    pub tether : Tether
    pub entitled : Entitles (digest sha256 credential) now lease r tether
    pub replaces : Replaces lease.tether_id later r' r'' g

  after_attach-entered :
      (lease lease' : Lease) (o : Option (Registry × ℕ)) (fs : List Frame) (r : Registry) (g : ℕ)
      → after_attach lease o ≡ entered fs lease' r g
      → (lease ≡ lease') × (o ≡ some (r, g))
  after_attach-entered lease lease' none fs r g e = cc
  after_attach-entered lease lease' (some (r', g')) fs r g e = (cc, cc)

  leased-entered :
      (credential : Bytes) (later : ℕ) (r' : Registry) (o : Option Lease) (fs : List Frame)
      (lease : Lease) (r'' : Registry) (g : ℕ)
      → leased sha256 credential later r' o ≡ entered fs lease r'' g
      → (o ≡ some lease)
        × (attach (digest sha256) lease.tether_id credential later r' ≡ some (r'', g))
  leased-entered credential later r' none fs lease r'' g e = cc
  leased-entered credential later r' (some l) fs lease r'' g e =
      let (same, there) = after_attach-entered l lease _ fs r'' g e in
      (
        ap some same,
        subst (λ x. attach (digest sha256) x.tether_id credential later r' ≡ some (r'', g)) same
            there,
      )

  offered-Admitted :
      (m : Message) (now : ℕ) (r : Registry) (later : ℕ) (r' : Registry) (fs : List Frame)
      (lease : Lease) (r'' : Registry) (g : ℕ) (o : Result Bytes Fault)
      → hello_of (decode_message m) ≡ o
      → Consistent r
      → Consistent r'
      → offered sha256 o now r later r' ≡ entered fs lease r'' g
      → Admitted m now r later r' lease r'' g
  offered-Admitted m now r later r' fs lease r'' g (err x) q c c' e =
      absurd (refused-ne [] x fs lease r'' g e)
  offered-Admitted m now r later r' fs lease r'' g (ok credential) q c c' e =
      let (given, installed) = leased-entered credential later r' _ fs lease r'' g e in
      let (t, h) = authorize-Entitles (digest sha256) credential now r lease c given in
      record {
        credential = credential;
        said = q;
        tether = t;
        entitled = h;
        replaces =
            attach-Replaces (digest sha256) lease.tether_id credential later r' r'' g c' installed;
      }

  -- A handshake on consistent tables that lets a session in was given HELLO with a credential that
  -- entitles it to the lease, and the session replaces the tether's.
  pub handshake-Admitted :
      (m : Message) (now : ℕ) (r : Registry) (later : ℕ) (r' : Registry) (fs : List Frame)
      (lease : Lease) (r'' : Registry) (g : ℕ)
      → Consistent r
      → Consistent r'
      → handshake sha256 m now r later r' ≡ entered fs lease r'' g
      → Admitted m now r later r' lease r'' g
  unfolding handshake
  handshake-Admitted m now r later r' fs lease r'' g c c' e =
      offered-Admitted m now r later r' fs lease r'' g (hello_of (decode_message m)) refl c c' e
