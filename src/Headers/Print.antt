-- ===== src/Headers/Print.antt =====
-- The heads that cargo/src/hub.rs (`encode_request_head`) and cargo/src/tunnel.rs (`forward_engine`)
-- write: a first line, then a line for each field of a header map, then an empty line.
use anvil_ring.Base.{ℕ, List, [], ◌∷◌, ◌++◌, Bytes, bytes, Option, none, some}
use anvil_ring.Text.Decimal.{to_decimal}
use anvil_ring.Headers.{strip_hop_by_hop}
use anvil_ring.Headers.Fields.{HeaderMap}

abbrev pub crlf : Bytes
crlf = b'\r' ∷ b'\n' ∷ []

-- The loop over the fields, behind what is written already.
unfoldable pub write_fields : List (Bytes × Bytes) → Bytes → Bytes
write_fields [] out = out
write_fields ((name, value) ∷ fs) out =
    write_fields fs (out ++ (name ++ (bytes ": " ++ (value ++ crlf))))

abbrev pub or_empty : Option Bytes → Bytes
or_empty none = []
or_empty (some reason) = reason

module _ {M : Type 0} ⦃h : HeaderMap M⦄ where
  -- `encode_request_head`
  unfoldable pub encode_request_head : Bytes → Bytes → M → Bytes
  unfolding write_fields
  encode_request_head method path m =
      write_fields (h.fields (strip_hop_by_hop m).1)
        (method ++ (bytes " " ++ (path ++ (bytes " HTTP/1.1" ++ crlf))))
      ++ crlf

  -- The head of the engine's response as `forward_engine` writes it, with the code's reason, if it has one.
  unfoldable pub response_head : ℕ → Option Bytes → M → Bytes
  unfolding write_fields
  response_head code reason m =
      write_fields (h.fields (strip_hop_by_hop m).1)
        (bytes "HTTP/1.1 " ++ (to_decimal code ++ (bytes " " ++ (or_empty reason ++ crlf))))
      ++ crlf
