-- ===== src/Tunnel/Engine/Relay.antt =====
-- A request from the hub's head to the engine, and which responses are relayed.
use anvil_ring.Base.{
  ℕ, ◌≡◌, refl, sym, ◌∙◌, ◌↔◌, inl, inr, Bool, true, false, Option, none, some, List, [], ◌∷◌,
  Bytes, bytes, All, arith, Bool-cases, Result, ok,
}
use anvil_ring.Text.{trim, split, eq_ignore_ascii_case}
use anvil_ring.Socket.{Fault}
use anvil_ring.Frames.{Frame, resp_head}
use anvil_ring.Headers.{is_hop_by_hop, strip_hop_by_hop}
use anvil_ring.Headers.Fields.{HeaderMap}
use anvil_ring.Headers.Strip.{Dropped, Named, Named-strip, get_all-strip_hop_by_hop}
use anvil_ring.Headers.Wire.{request_wire, encode_request_head-request_wire}
use anvil_ring.Headers.Print.{encode_request_head, response_head}
use anvil_ring.Tunnel.Engine.{
  ParsedRequest, engine_headers, engine_request, any_unsupported, coding_check, check_codings,
  reply_head,
}
use anvil_ring.Tunnel.Engine.Laws.{own_name, Framed, engine_headers-Framed}

-- Codings that are all `chunked`, in any case.
abbrev pub OnlyChunked : Option Bytes → Type 0
OnlyChunked none = ⊥
OnlyChunked (some s) =
    All (λ t. eq_ignore_ascii_case (trim t) (bytes "chunked") ≡ true) (split b',' s)

any_unsupported_iff :
    (ts : List Bytes)
    → (any_unsupported ts ≡ false)
      ↔ All (λ t. eq_ignore_ascii_case (trim t) (bytes "chunked") ≡ true) ts
unfolding any_unsupported
any_unsupported_iff [] = ground arith
any_unsupported_iff (t ∷ ts) = ground (arith, any_unsupported_iff ts)

coding_check_iff : (o : Option Bytes) → (coding_check o ≡ ok tt) ↔ OnlyChunked o
coding_check_iff none = ground arith
coding_check_iff (some s) = ground (arith, any_unsupported_iff (split b',' s))

check_codings_iff :
    (to_str : Bytes → Option Bytes) (vs : List Bytes)
    → (check_codings to_str vs ≡ ok tt) ↔ All (λ v. OnlyChunked (to_str v)) vs
unfolding check_codings
check_codings_iff to_str [] = ground arith
check_codings_iff to_str (v ∷ vs) =
    ground (arith, coding_check_iff (to_str v), check_codings_iff to_str vs)

module _ {M : Type 0} ⦃h : HeaderMap M⦄ where
  -- The response of an engine is relayed exactly when each value of its `Transfer-Encoding` names no
  -- coding but `chunked`; then the frame has its head.
  pub reply_head_iff :
      (id code : ℕ) (reason : Option Bytes) (m : M) (f : Frame)
      → (reply_head id code reason m ≡ ok f) ↔ (
          All (λ v. OnlyChunked (h.to_str v)) (h.get_all (bytes "transfer-encoding") m)
          × (f ≡ resp_head id (response_head code reason m)))
  unfolding reply_head
  reply_head_iff id code reason m f =
      ground (arith, check_codings_iff h.to_str (h.get_all (bytes "transfer-encoding") m))

  -- What the hub strips, the tether would strip again.
  module _ (m m2 : M) (given : h.build (h.fields (strip_hop_by_hop m).1) ≡ some m2) where
    given-get_all : (n : Bytes) → h.get_all n m2 ≡ h.get_all n (strip_hop_by_hop m).1
    given-get_all n =
        h.get_all-build n (h.fields (strip_hop_by_hop m).1) m2 given
        ∙ sym (h.get_all-fields n (strip_hop_by_hop m).1)

    given-Named : (n : Bytes) → ¬ Named n m2
    given-Named n k = Named-strip n m (rw (given-get_all (bytes "connection")) at k)

    given-Dropped : (n : Bytes) → is_hop_by_hop n ≡ false → ¬ Dropped n m2
    given-Dropped n e (inl k) = absurd ground (arith, e, k)
    given-Dropped n e (inr k) = given-Named n k

    given-others :
        (host n : Bytes) (m' : M)
        → Framed host m2 m'
        → own_name n ≡ false
        → h.get_all n m' ≡ h.get_all n (strip_hop_by_hop m).1
    given-others host n m' f o = elim (Bool-cases (is_hop_by_hop n)) [
      | inl e ↦ f.dropped n o (inl e) ∙ sym ((get_all-strip_hop_by_hop n m).0 (inl e))
      | inr e ↦ f.kept n o (given-Dropped n e) ∙ given-get_all n
    ]

    Framed-given : (host : Bytes) (m' : M) → Framed host m2 m' → Framed host m m'
    Framed-given host m' f = record {
      host_only = f.host_only;
      no_expect = f.no_expect;
      one_framing = f.one_framing;
      dropped = λ n o d. given-others host n m' f o ∙ (get_all-strip_hop_by_hop n m).0 d;
      kept = λ n o d. given-others host n m' f o ∙ (get_all-strip_hop_by_hop n m).1 d;
    }

  module _ (http_parse : Bytes → Result ParsedRequest Fault)
      (http_takes : Bytes → Bytes → Bool) where
    -- A caller's request whose head the hub writes, when the tether's parser reads such a request line
    -- and the lines of the fields that the hub leaves, which the builder takes, and for which the engine's address is an upstream with a text that is a header
    -- value, is sent to the engine with the method and the target, the engine's `Host`, no `Expect`,
    -- exactly one framing, without the fields that are hop-by-hop or that the caller's `Connection`
    -- names, and with the values of every other field as the caller gave them, in order.
    pub engine_request-relays :
        (method path authority host : Bytes) (m m2 : M)
        → http_parse (request_wire method path (h.fields (strip_hop_by_hop m).1))
          ≡ ok (record {
            complete = true;
            method = some method;
            path = some path;
            headers = h.fields (strip_hop_by_hop m).1;
          })
        → http_takes method path ≡ true
        → h.build (h.fields (strip_hop_by_hop m).1) ≡ some m2
        → h.from_str authority ≡ some host
        → (m' : M) × (engine_request http_parse http_takes
              (ok authority)
              (encode_request_head method path m)
            ≡ ok (record { method = method; uri = path; headers = m' }))
          × Framed host m m'
    unfolding engine_request
    engine_request-relays method path authority host m m2 reads takes given text = (
      engine_headers host m2,
      rw (encode_request_head-request_wire method path m, reads, takes, given, text) refl,
      Framed-given m m2 given host (engine_headers host m2) (engine_headers-Framed host m2),
    )
