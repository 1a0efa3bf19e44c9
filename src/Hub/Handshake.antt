-- ===== src/Hub/Handshake.antt =====
-- `handle_tether` up to its loop: HELLO, the authorization, WELCOME, and the start of the session.
-- `sha256` is the crate `sha2`.
pub mod Admission
mod Tests
use anvil_ring.Base.{
  ℕ, ◌+◌, ◌/◌, ◌%◌, Bool, true, false, Option, none, some, List, [], ◌∷◌, ◌++◌, Bytes, bytes,
  Result, ok, err,
}
use anvil_ring.Text.Decimal.{digit_char}
use anvil_ring.Frames.{
  Frame, hello, welcome, open_frame, data_frame, resp_head, end_frame, half_end, ping, pong,
  go_away,
}
use anvil_ring.Hub.State.{Registry, Lease, second}
use anvil_ring.Hub.Registry.{authorize, attach}
use anvil_ring.Hub.Loop.{Message, Fault, fault, decode_message, Task}

-- `{b:02x}` of each byte.
unfoldable pub hex_bytes : Bytes → Bytes
hex_bytes [] = []
hex_bytes (b ∷ bs) = digit_char (b / 16 % 16) ∷ digit_char (b % 16) ∷ hex_bytes bs

-- `digest`
unfoldable pub digest : (Bytes → Bytes) → Bytes → Bytes
unfolding hex_bytes
digest sha256 input = hex_bytes (sha256 input)

-- The credential of the first message, which must be HELLO.
abbrev pub hello_of : Result (Option Frame) Fault → Result Bytes Fault
hello_of (err e) = err e
hello_of (ok none) = err (fault "no tunnel frame before HELLO")
hello_of (ok (some (hello credential))) = ok credential
hello_of (ok (some (welcome n))) = err (fault "expected HELLO")
hello_of (ok (some (open_frame i h))) = err (fault "expected HELLO")
hello_of (ok (some (data_frame i b))) = err (fault "expected HELLO")
hello_of (ok (some (resp_head i h))) = err (fault "expected HELLO")
hello_of (ok (some (end_frame i r))) = err (fault "expected HELLO")
hello_of (ok (some (half_end i))) = err (fault "expected HELLO")
hello_of (ok (some ping)) = err (fault "expected HELLO")
hello_of (ok (some pong)) = err (fault "expected HELLO")
hello_of (ok (some (go_away r))) = err (fault "expected HELLO")

-- The frames that the hub has sent, and the refusal or the session.
pub data Entry : Type 0 where
  refused : List Frame → Fault → Entry
  entered : List Frame → Lease → Registry → ℕ → Entry

abbrev pub unauthorized_frame : Frame
unauthorized_frame = go_away (bytes "unauthorized")

abbrev pub welcome_of : Lease → Frame
welcome_of lease = welcome (lease.ttl / second)

abbrev pub after_attach : Lease → Option (Registry × ℕ) → Entry
after_attach lease none =
    refused (welcome_of lease ∷ []) (fault "authorization changed during handshake")
after_attach lease (some (r, g)) = entered (welcome_of lease ∷ []) lease r g

module _ (sha256 : Bytes → Bytes) where
  abbrev pub leased : Bytes → ℕ → Registry → Option Lease → Entry
  leased credential later r' none = refused (unauthorized_frame ∷ []) (fault "unauthorized")
  leased credential later r' (some lease) =
      after_attach lease (attach (digest sha256) lease.tether_id credential later r')

  abbrev pub offered : Result Bytes Fault → ℕ → Registry → ℕ → Registry → Entry
  offered (err e) now r later r' = refused [] e
  offered (ok credential) now r later r' =
      leased credential later r' (authorize (digest sha256) credential now r)

  -- The registry is `r` when HELLO is judged and `r'` when the session attaches, after WELCOME.
  unfoldable pub handshake : Message → ℕ → Registry → ℕ → Registry → Entry
  handshake m now r later r' = offered (hello_of (decode_message m)) now r later r'
