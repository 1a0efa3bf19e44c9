-- ===== src/Tunnel/Engine/Laws.antt =====
-- What the engine is sent, from the fields of the head that came through the tunnel.
use anvil_ring.Base.{
  ◌≡◌, refl, ap, subst, ◌∙◌, ◌≢◌, ◌⊎◌, inl, inr, Bool, true, false, ◌||◌, some, List, [], ◌∷◌,
  Bytes, bytes, arith, bytes_eq, if◌then◌else◌, Result, ok, ok_or, bind-ok, ok_or-ok, ok-injective,
}
use anvil_ring.Text.{eq_ignore_ascii_case}
use anvil_ring.Socket.{Fault, fault}
use anvil_ring.Headers.{is_hop_by_hop, strip_hop_by_hop}
use anvil_ring.Headers.Fields.{HeaderMap, first, is_some, contains_key}
use anvil_ring.Headers.Strip.{Dropped, get_all-strip_hop_by_hop}
use anvil_ring.Tunnel.Engine.{
  ParsedRequest, EngineRequest, framed, parsed_head, build_request, engine_headers, engine_request,
}

-- The names that `forward_engine` itself writes or takes away.
abbrev pub own_name : Bytes → Bool
own_name n =
    bytes_eq (bytes "host") n
    || (bytes_eq (bytes "expect") n || bytes_eq (bytes "transfer-encoding") n)

if-same : (b : Bool) (x : List Bytes) → (if b then x else x) ≡ x
if-same true x = refl
if-same false x = refl

framing_of :
    (cl : List Bytes)
    → (((if is_some (first cl) then cl else cl) ≢ [])
        × ((if is_some (first cl) then [] else bytes "chunked" ∷ []) ≡ []))
      ⊎ (((if is_some (first cl) then cl else cl) ≡ [])
          × ((if is_some (first cl) then [] else bytes "chunked" ∷ []) ≡ bytes "chunked" ∷ []))
framing_of [] = inr (refl, refl)
framing_of (v ∷ vs) = inl (ground arith, refl)

parsed_head_ok :
    (http_parse : Bytes → Result ParsedRequest Fault) (head : Bytes) (p : ParsedRequest)
    → parsed_head http_parse head ≡ ok p
    → (http_parse head ≡ ok p) × (p.complete ≡ true)
parsed_head_ok http_parse head p e = ground (arith, e)

module _ {M : Type 0} ⦃h : HeaderMap M⦄ where
  -- The fields for an engine at `host`, from those of the request: `Host` is the engine's, the body has
  -- exactly one framing, and all else is passed on but for the hop-by-hop fields.
  pub record Framed (host : Bytes) (m m' : M) : Type 0 where
    pub host_only : h.get_all (bytes "host") m' ≡ host ∷ []
    pub no_expect : h.get_all (bytes "expect") m' ≡ []
    pub one_framing :
        ((h.get_all (bytes "content-length") m' ≢ [])
          × (h.get_all (bytes "transfer-encoding") m' ≡ []))
        ⊎ ((h.get_all (bytes "content-length") m' ≡ [])
            × (h.get_all (bytes "transfer-encoding") m' ≡ bytes "chunked" ∷ []))
    pub dropped : (n : Bytes) → own_name n ≡ false → Dropped n m → h.get_all n m' ≡ []
    pub kept : (n : Bytes) → own_name n ≡ false → ¬ Dropped n m → h.get_all n m' ≡ h.get_all n m

  -- The map before the framing is chosen.
  abbrev addressed : Bytes → M → M
  addressed host m = h.remove (bytes "expect") (h.insert (bytes "host") host (strip_hop_by_hop m).1)

  get_all-addressed :
      (host n : Bytes) (m : M)
      → h.get_all n (addressed host m) ≡ (
          if bytes_eq (bytes "expect") n
          then []
          else if bytes_eq (bytes "host") n
          then host ∷ []
          else h.get_all n (strip_hop_by_hop m).1)
  get_all-addressed host n m = rw (
    h.get_all-remove (bytes "expect") n (h.insert (bytes "host") host (strip_hop_by_hop m).1),
    h.get_all-insert (bytes "host") host n (strip_hop_by_hop m).1
        (h.is_name-plain b'h' (bytes "ost") refl),
  )

  get_all-framed :
      (n : Bytes) (m : M)
      → h.get_all n (framed m) ≡ (
          if contains_key (bytes "content-length") m
          then h.get_all n m
          else if bytes_eq (bytes "transfer-encoding") n
          then bytes "chunked" ∷ []
          else h.get_all n m)
  get_all-framed n m = ground (
    arith,
    h.get_all-insert (bytes "transfer-encoding") (bytes "chunked") n m
        (h.is_name-plain b't' (bytes "ransfer-encoding") refl),
  )

  engine_headers_steps : (host : Bytes) (m : M) → engine_headers host m ≡ framed (addressed host m)
  unfolding engine_headers
  engine_headers_steps host m = refl

  engine_headers-own :
      (host : Bytes) (m : M)
      → (h.get_all (bytes "host") (framed (addressed host m)) ≡ host ∷ [])
        × (h.get_all (bytes "expect") (framed (addressed host m)) ≡ [])
  unfolding bytes_eq
  engine_headers-own host m = (
    rw (get_all-framed (bytes "host") (addressed host m), get_all-addressed host (bytes "host") m)
        (if-same (contains_key (bytes "content-length") (addressed host m)) (host ∷ [])),
    rw
        (
          get_all-framed (bytes "expect") (addressed host m),
          get_all-addressed host (bytes "expect") m,
        )
        (if-same (contains_key (bytes "content-length") (addressed host m)) []),
  )

  no_coding : (host : Bytes) (m : M) → h.get_all (bytes "transfer-encoding") (addressed host m) ≡ []
  unfolding bytes_eq is_hop_by_hop eq_ignore_ascii_case
  no_coding host m =
      get_all-addressed host (bytes "transfer-encoding") m
      ∙ (get_all-strip_hop_by_hop (bytes "transfer-encoding") m).0 (inl refl)

  framed-one :
      (m : M)
      → h.get_all (bytes "transfer-encoding") m ≡ []
      → ((h.get_all (bytes "content-length") (framed m) ≢ [])
          × (h.get_all (bytes "transfer-encoding") (framed m) ≡ []))
        ⊎ ((h.get_all (bytes "content-length") (framed m) ≡ [])
            × (h.get_all (bytes "transfer-encoding") (framed m) ≡ bytes "chunked" ∷ []))
  unfolding bytes_eq
  framed-one m e =
      rw
        (get_all-framed (bytes "transfer-encoding") m, get_all-framed (bytes "content-length") m, e)
        (framing_of (h.get_all (bytes "content-length") m))

  engine_headers-others :
      (host n : Bytes) (m : M)
      → own_name n ≡ false
      → h.get_all n (framed (addressed host m)) ≡ h.get_all n (strip_hop_by_hop m).1
  engine_headers-others host n m o =
      ground (arith, get_all-framed n (addressed host m), get_all-addressed host n m, o)

  -- What the engine is sent.
  pub engine_headers-Framed : (host : Bytes) (m : M) → Framed host m (engine_headers host m)
  engine_headers-Framed host m = rw (engine_headers_steps host m) (record {
    host_only = (engine_headers-own host m).0;
    no_expect = (engine_headers-own host m).1;
    one_framing = framed-one (addressed host m) (no_coding host m);
    dropped = λ n o d. engine_headers-others host n m o ∙ (get_all-strip_hop_by_hop n m).0 d;
    kept = λ n o d. engine_headers-others host n m o ∙ (get_all-strip_hop_by_hop n m).1 d;
  })

  module _ (http_parse : Bytes → Result ParsedRequest Fault)
      (http_takes : Bytes → Bytes → Bool) where
    -- The pieces of a request that is sent.
    pub record Sent (addr : Result Bytes Fault) (head : Bytes) (req : EngineRequest M)
        : Type 0 where
      pub authority : Bytes
      pub host : Bytes
      pub parsed : ParsedRequest
      pub given : M
      pub at_engine : addr ≡ ok authority
      pub host_text : h.from_str authority ≡ some host
      pub parses : http_parse head ≡ ok parsed
      pub whole_head : parsed.complete ≡ true
      pub same_method : parsed.method ≡ some req.method
      pub same_path : parsed.path ≡ some req.uri
      pub fields_given : h.build parsed.headers ≡ some given
      pub framed_for : Framed host given req.headers

    build_request_ok :
        (method path : Bytes) (fs : List (Bytes × Bytes)) (m : M)
        → build_request http_parse http_takes method path fs ≡ some m
        → h.build fs ≡ some m
    build_request_ok method path fs m e = ground (arith, e)

    engine_request-Sent :
        (addr : Result Bytes Fault) (head : Bytes) (req : EngineRequest M)
        → engine_request http_parse http_takes addr head ≡ ok req
        → Sent addr head req
    unfolding engine_request
    engine_request-Sent addr head req e =
        let (a, ea, e1) = bind-ok addr _ req e in
        let (p, ep, e2) = bind-ok (parsed_head http_parse head) _ req e1 in
        let (method, em, e3) = bind-ok (ok_or p.method (fault "missing method")) _ req e2 in
        let (path, et, e4) = bind-ok (ok_or p.path (fault "missing path")) _ req e3 in
        let (m, eb, e5) =
          bind-ok
            (ok_or (build_request http_parse http_takes method path p.headers)
              (fault "invalid request headers"))
            _ req e4 in
        let (host, eh, e6) =
          bind-ok (ok_or (h.from_str a) (fault "failed to parse header value")) _ req e5 in
        record {
          authority = a;
          host = host;
          parsed = p;
          given = m;
          at_engine = ea;
          host_text = ok_or-ok (h.from_str a) (fault "failed to parse header value") host eh;
          parses = (parsed_head_ok http_parse head p ep).0;
          whole_head = (parsed_head_ok http_parse head p ep).1;
          same_method =
              ok_or-ok p.method (fault "missing method") method em
              ∙ ap (λ r. some r.method) (ok-injective e6);
          same_path =
              ok_or-ok p.path (fault "missing path") path et
              ∙ ap (λ r. some r.uri) (ok-injective e6);
          fields_given = build_request_ok method path p.headers m (
              ok_or-ok (build_request http_parse http_takes method path p.headers)
                (fault "invalid request headers") m eb);
          framed_for =
              subst (Framed host m) (ap (λ r. r.headers) (ok-injective e6))
                (engine_headers-Framed host m);
        }
