-- ===== src/Headers/Wire.antt =====
-- The lines of an HTTP/1.1 head (RFC 9112), and that the heads of `encode_request_head` in
-- cargo/src/hub.rs and of `forward_engine` in cargo/src/tunnel.rs are such.
use anvil_ring.Base.{ℕ, ◌≡◌, ap, ◌∙◌, List, [], ◌∷◌, ◌++◌, append_assoc, Bytes, bytes, Option}
use anvil_ring.Text.Decimal.{to_decimal}
use anvil_ring.Headers.{strip_hop_by_hop}
use anvil_ring.Headers.Fields.{HeaderMap}
use anvil_ring.Headers.Print.{crlf, write_fields, or_empty, encode_request_head, response_head}

-- Lines, each behind CR and LF, then the empty line.
abbrev pub header_lines : List (Bytes × Bytes) → Bytes
header_lines [] = b'\r' ∷ b'\n' ∷ b'\r' ∷ b'\n' ∷ []
header_lines ((name, value) ∷ fs) =
    b'\r' ∷ b'\n' ∷ (name ++ (b':' ∷ b' ' ∷ (value ++ header_lines fs)))

abbrev pub request_wire : Bytes → Bytes → List (Bytes × Bytes) → Bytes
request_wire method target fs =
    method ++ (b' ' ∷ (target ++ (bytes " HTTP/1.1" ++ header_lines fs)))

abbrev pub status_wire : ℕ → Bytes → List (Bytes × Bytes) → Bytes
status_wire code reason fs =
    bytes "HTTP/1.1 " ++ (to_decimal code ++ (b' ' ∷ (reason ++ header_lines fs)))

write_fields-header_lines :
    (fs : List (Bytes × Bytes)) (out : Bytes)
    → write_fields fs (out ++ crlf) ++ crlf ≡ out ++ header_lines fs
unfolding write_fields
write_fields-header_lines [] out = append_assoc out crlf crlf
write_fields-header_lines ((name, value) ∷ fs) out =
    ap (λ x. write_fields fs x ++ crlf) regroup
    ∙ write_fields-header_lines fs (out ++ (crlf ++ (name ++ (bytes ": " ++ value))))
    ∙ simp append_assoc
  where
    regroup :
        (out ++ crlf) ++ (name ++ (bytes ": " ++ (value ++ crlf)))
        ≡ (out ++ (crlf ++ (name ++ (bytes ": " ++ value)))) ++ crlf
    regroup = simp append_assoc

module _ {M : Type 0} ⦃h : HeaderMap M⦄ where
  pub encode_request_head-request_wire :
      (method path : Bytes) (m : M)
      → encode_request_head method path m
        ≡ request_wire method path (h.fields (strip_hop_by_hop m).1)
  unfolding encode_request_head
  encode_request_head-request_wire method path m =
      let fs = h.fields (strip_hop_by_hop m).1 in
      ap (λ x. write_fields fs x ++ crlf) (simp append_assoc)
      ∙ write_fields-header_lines fs (method ++ (bytes " " ++ (path ++ bytes " HTTP/1.1")))
      ∙ simp append_assoc

  pub response_head-status_wire :
      (code : ℕ) (reason : Option Bytes) (m : M)
      → response_head code reason m
        ≡ status_wire code (or_empty reason) (h.fields (strip_hop_by_hop m).1)
  unfolding response_head
  response_head-status_wire code reason m =
      let fs = h.fields (strip_hop_by_hop m).1 in
      ap (λ x. write_fields fs x ++ crlf) (simp append_assoc)
      ∙ write_fields-header_lines fs
          (bytes "HTTP/1.1 " ++ (to_decimal code ++ (bytes " " ++ or_empty reason)))
      ∙ simp append_assoc
