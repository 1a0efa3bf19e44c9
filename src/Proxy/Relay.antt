-- ===== src/Proxy/Relay.antt =====
-- cargo/src/proxy.rs, `forward`, `rebuild_request` and `stream_through`: what the upstream gets, and
-- what comes back.
use anvil_ring.Base.{
  ℕ, ◌≡◌, ◌≢◌, ◌⊎◌, inl, inr, ◌++◌, Option-cases, refl, ap, subst, ◌∙◌, false, Option, none, some,
  List, [], ◌∷◌, Bytes, bytes, arith, bytes_eq, if◌then◌else◌, Result, ok, err, ok_or, ◌>>=◌,
  bind-ok, ok_or-ok, ok-injective,
}
use anvil_ring.Socket.{Fault, fault}
use anvil_ring.Headers.{strip_hop_by_hop}
use anvil_ring.Headers.Fields.{HeaderMap}
use anvil_ring.Headers.Strip.{Dropped, get_all-strip_hop_by_hop}
use anvil_ring.Tunnel.Config.{Uri}
use anvil_ring.Proxy.{forward_text, or_http, or_root, query_text}

pub record Upstream : Type 0 where
  pub scheme_str : Option Bytes
  pub authority : Option Bytes

-- The parts of a request that `forward` changes.
pub record Parts (M : Type 0) : Type 0 where
  pub uri : Uri
  pub headers : M

-- A response: its body is a stream, of chunks and of failures.
pub record Response (M : Type 0) : Type 0 where
  pub status : ℕ
  pub headers : M
  pub body : List (Result Bytes Fault)

-- The parser of URLs is the crate `http`'s.
abbrev pub parsed : (Bytes → Option Uri) → Option Bytes → Option Uri
parsed parse_uri none = none
parsed parse_uri (some text) = parse_uri text

unfoldable pub forward_uri : (Bytes → Option Uri) → Upstream → Bytes → Option Bytes → Option Uri
unfolding forward_text
forward_uri parse_uri upstream path query =
    parsed parse_uri (forward_text upstream.scheme_str upstream.authority path query)

-- The URL that a request goes to is read from the upstream's scheme, or `http` if it has none, its
-- authority, the path, or `/` if it is empty, and the query behind `?`, if there is one.
pub record Requested (parse_uri : Bytes → Option Uri) (upstream : Upstream) (path : Bytes)
    (query : Option Bytes) (uri : Uri) : Type 0 where
  pub scheme : Bytes
  pub host : Bytes
  pub target : Bytes
  pub suffix : Bytes
  pub has_scheme :
      (upstream.scheme_str ≡ some scheme) ⊎ ((upstream.scheme_str ≡ none) × (scheme ≡ bytes "http"))
  pub has_host : upstream.authority ≡ some host
  pub has_target : ((path ≡ []) × (target ≡ bytes "/")) ⊎ ((path ≢ []) × (target ≡ path))
  pub has_query :
      ((query ≡ none) × (suffix ≡ [])) ⊎ ((q : Bytes) × (query ≡ some q) × (suffix ≡ b'?' ∷ q))
  pub reads : parse_uri (scheme ++ (bytes "://" ++ (host ++ (target ++ suffix)))) ≡ some uri

scheme_of : (o : Option Bytes) → (o ≡ some (or_http o)) ⊎ ((o ≡ none) × (or_http o ≡ bytes "http"))
scheme_of none = inr (refl, refl)
scheme_of (some scheme) = inl refl

target_of :
    (path : Bytes)
    → ((path ≡ []) × (or_root path ≡ bytes "/")) ⊎ ((path ≢ []) × (or_root path ≡ path))
target_of [] = inl (refl, refl)
target_of (c ∷ cs) = inr ((λ e. cc), refl)

query_of :
    (o : Option Bytes)
    → ((o ≡ none) × (query_text o ≡ [])) ⊎ ((q : Bytes) × (o ≡ some q) × (query_text o ≡ b'?' ∷ q))
query_of none = inl (refl, refl)
query_of (some q) = inr (q, refl, refl)

forward_uri-Requested :
    (parse_uri : Bytes → Option Uri) (upstream : Upstream) (path : Bytes) (query : Option Bytes)
    (uri : Uri)
    → forward_uri parse_uri upstream path query ≡ some uri
    → Requested parse_uri upstream path query uri
unfolding forward_uri forward_text
forward_uri-Requested parse_uri upstream path query uri e = elim (Option-cases upstream.authority) [
  | inl q ↦ absurd ground (arith, rw q at e)
  | inr (host, q) ↦ record {
    scheme = or_http upstream.scheme_str;
    host = host;
    target = or_root path;
    suffix = query_text query;
    has_scheme = scheme_of upstream.scheme_str;
    has_host = q;
    has_target = target_of path;
    has_query = query_of query;
    reads = rw q at e;
  }
]

module _ {M : Type 0} ⦃h : HeaderMap M⦄ where
  abbrev pub with_host : Option Bytes → M → Result M Fault
  with_host none m = err (fault "failed to parse header value")
  with_host (some v) m = ok (h.insert (bytes "host") v m)

  -- `rebuild_request`: a fresh `Host` beside what survived the removal.
  abbrev pub rebuild_request : Option Bytes → M → Result M Fault
  rebuild_request none m = ok m
  rebuild_request (some authority) m = with_host (h.from_str authority) m

  -- `forward` up to the request that it sends; the connection to the upstream is made on the way.
  unfoldable pub forward :
      (Bytes → Option Uri)
      → Upstream
      → Result (Unit {0}) Fault
      → Bytes
      → Option Bytes
      → M
      → Result (Parts M) Fault
  unfolding forward_uri
  forward parse_uri upstream connected path query m =
      ok_or (forward_uri parse_uri upstream path query) (fault "unparseable request URI") >>= λ uri.
      ok_or upstream.authority (fault "upstream has no authority") >>= λ host. connected >>= λ io.
      rebuild_request uri.authority (strip_hop_by_hop m).1 >>= λ headers.
      ok (record { uri = uri; headers = headers })

  -- `stream_through`: every part is passed on as it is.
  abbrev pub stream_through : Response M → Response M
  stream_through res = record { status = res.status; headers = res.headers; body = res.body }

  -- What the upstream gets: its own `Host`, and all that is not hop-by-hop.
  pub record Forwarded (authority : Bytes) (m m' : M) : Type 0 where
    pub value : Bytes
    pub host_text : h.from_str authority ≡ some value
    pub host_only : h.get_all (bytes "host") m' ≡ value ∷ []
    pub dropped :
        (n : Bytes) → bytes_eq (bytes "host") n ≡ false → Dropped n m → h.get_all n m' ≡ []
    pub kept :
        (n : Bytes)
        → bytes_eq (bytes "host") n ≡ false
        → ¬ Dropped n m
        → h.get_all n m' ≡ h.get_all n m

  get_all-with_host :
      (v n : Bytes) (m : M)
      → h.get_all n (h.insert (bytes "host") v m)
        ≡ (if bytes_eq (bytes "host") n then v ∷ [] else h.get_all n m)
  get_all-with_host v n m =
      h.get_all-insert (bytes "host") v n m (h.is_name-plain b'h' (bytes "ost") refl)

  with_host-Forwarded :
      (authority : Bytes) (o : Option Bytes) (m m' : M)
      → h.from_str authority ≡ o
      → with_host o (strip_hop_by_hop m).1 ≡ ok m'
      → Forwarded authority m m'
  unfolding bytes_eq
  with_host-Forwarded authority none m m' e k = absurd ground (arith, k)
  with_host-Forwarded authority (some v) m m' e k =
      subst (Forwarded authority m) (ground (arith, k)) (record {
        value = v;
        host_text = e;
        host_only = get_all-with_host v (bytes "host") (strip_hop_by_hop m).1;
        dropped = λ n o d.
            rw (get_all-with_host v n (strip_hop_by_hop m).1, o)
              ((get_all-strip_hop_by_hop n m).0 d);
        kept = λ n o d.
            rw (get_all-with_host v n (strip_hop_by_hop m).1, o)
              ((get_all-strip_hop_by_hop n m).1 d);
      })

  rebuild-Forwarded :
      (authority : Bytes) (o : Option Bytes) (m m' : M)
      → o ≡ some authority
      → rebuild_request o (strip_hop_by_hop m).1 ≡ ok m'
      → Forwarded authority m m'
  rebuild-Forwarded authority none m m' e k = absurd ground (arith, e)
  rebuild-Forwarded authority (some a) m m' e k =
      with_host-Forwarded authority (h.from_str a) m m' (ap h.from_str (ground (arith, e))) k

  -- A request that is sent, to a URL with an authority, has the URL read from the upstream's scheme, or
  -- `http`, its authority, the request's path, or `/`, and its query, a connection has been made, and
  -- the fields are those of the caller but for the hop-by-hop ones, with that authority as the only
  -- `Host`.
  pub forward-Forwarded :
      (parse_uri : Bytes → Option Uri) (upstream : Upstream) (connected : Result (Unit {0}) Fault)
      (path : Bytes) (query : Option Bytes) (m : M) (sent : Parts M) (authority : Bytes)
      → forward parse_uri upstream connected path query m ≡ ok sent
      → sent.uri.authority ≡ some authority
      → (connected ≡ ok tt)
        × Requested parse_uri upstream path query sent.uri
        × Forwarded authority m sent.headers
  unfolding forward
  forward-Forwarded parse_uri upstream connected path query m sent authority e k =
      let (uri, eu, e1) =
        bind-ok
          (ok_or (forward_uri parse_uri upstream path query) (fault "unparseable request URI")) _
          sent e in
      let (host, eh, e2) =
        bind-ok (ok_or upstream.authority (fault "upstream has no authority")) _ sent e1 in
      let (io, ec, e3) = bind-ok connected _ sent e2 in
      let (headers, er, e4) =
        bind-ok (rebuild_request uri.authority (strip_hop_by_hop m).1) _ sent e3 in
      let same = ok-injective e4 in
      (
        ec,
        forward_uri-Requested parse_uri upstream path query sent.uri (
            ok_or-ok (forward_uri parse_uri upstream path query) (fault "unparseable request URI")
              uri eu
            ∙ ap (λ p. some p.uri) same),
        subst (λ p. Forwarded authority m p.headers) same
            (rebuild-Forwarded authority uri.authority m headers
              (ap (λ p. p.uri.authority) same ∙ k) er),
      )
