-- ===== src/Tunnel/Config.antt =====
-- The tether before a session runs: its credential, the URL that it dials, the wait between two
-- dials, the handshake, and when the session ends to authorize again.
use anvil_ring.Base.{
  ℕ, zero, suc, ◌*◌, ◌/◌, ◌%◌, ◌^◌, ◌≤◌, ◌<◌, ◌≡◌, ◌⊎◌, ◌↔◌, refl, ap, ◌∙◌, Bool, true, false, not,
  ◌&&◌, ◌||◌, Option, none, some, List, [], ◌∷◌, ◌++◌, Bytes, bytes, All, min, max, arith, ◌==◌,
  if◌then◌else◌, Result, ok, err, mem, bytes_eq, bytes_eq_iff, Bool-cases, inl, inr,
}
use anvil_ring.Frames.{Frame, welcome}
use anvil_ring.Socket.{Message, Fault, fault}
use anvil_ring.Tunnel.{decode_message}

-- `trim_cred`
abbrev pub is_blank : ℕ → Bool
is_blank b = b == 10 || b == 13 || b == 32 || b == 9

abbrev pub unless_blank : ℕ → Bytes → Bytes
unless_blank b [] = if is_blank b then [] else b ∷ []
unless_blank b (c ∷ cs) = b ∷ c ∷ cs

unfoldable pub trim_cred : Bytes → Bytes
trim_cred [] = []
trim_cred (b ∷ bs) = unless_blank b (trim_cred bs)

-- `t` is `v` without some blanks at its end.
abbrev pub BlankEnd : Bytes → Bytes → Type 0
BlankEnd v t = (w : Bytes) × (v ≡ t ++ w) × All (λ b. is_blank b ≡ true) w

unless_blank-end : (b : ℕ) (bs t : Bytes) → BlankEnd bs t → BlankEnd (b ∷ bs) (unless_blank b t)
unless_blank-end b bs [] (w, e, h) = elim (Bool-cases (is_blank b)) [
  | inl t ↦ rw t (b ∷ w, ap (b ∷◌) e, (t, h))
  | inr t ↦ rw t (w, ap (b ∷◌) e, h)
]
unless_blank-end b bs (c ∷ cs) (w, e, h) = (w, ap (b ∷◌) e, h)

trim_cred-end : (v : Bytes) → BlankEnd v (trim_cred v)
unfolding trim_cred
trim_cred-end [] = ([], refl, tt)
trim_cred-end (b ∷ bs) = unless_blank-end b bs (trim_cred bs) (trim_cred-end bs)

-- `v.last()`
abbrev pub ends_blank : Bytes → Bool
ends_blank [] = false
ends_blank (b ∷ []) = is_blank b
ends_blank (b ∷ c ∷ cs) = ends_blank (c ∷ cs)

unless_blank-last :
    (b : ℕ) (t : Bytes) → ends_blank t ≡ false → ends_blank (unless_blank b t) ≡ false
unless_blank-last b [] e = ground arith
unless_blank-last b (c ∷ cs) e = e

trim_cred-last : (v : Bytes) → ends_blank (trim_cred v) ≡ false
unfolding trim_cred
trim_cred-last [] = refl
trim_cred-last (b ∷ bs) = unless_blank-last b (trim_cred bs) (trim_cred-last bs)

-- A credential loses the blanks at its end, all of them, and nothing else.
pub trim_cred-trims : (v : Bytes) → BlankEnd v (trim_cred v) × (ends_blank (trim_cred v) ≡ false)
trim_cred-trims v = (trim_cred-end v, trim_cred-last v)

-- What the environment has: the credential's file as read, if its path is set, and the variable.
unfoldable pub credential_from_env : Option (Result Bytes Fault) → Option Bytes → Result Bytes Fault
unfolding trim_cred
credential_from_env (some (ok v)) env = ok (trim_cred v)
credential_from_env (some (err e)) env = err e
credential_from_env none (some v) = ok (trim_cred v)
credential_from_env none none =
    err (fault "no credential: set ANVIL_RING_CRED_FILE (preferred) or ANVIL_RING_CREDENTIAL.")

-- Milliseconds.
abbrev pub backoff_min : ℕ
backoff_min = 500

abbrev pub backoff_max : ℕ
backoff_max = 30000

unfoldable pub next_backoff : ℕ → ℕ
next_backoff backoff = min (backoff * 2) backoff_max

-- The wait that follows the dial with `n` dials before it, whatever these came to.
unfoldable pub backoff_after : ℕ → ℕ
unfolding next_backoff
backoff_after zero = backoff_min
backoff_after (suc n) = next_backoff (backoff_after n)

-- What the handshake gets from the socket.
pub data Arrival : Type 0 where
  message : Message → Arrival
  socket_error : Fault → Arrival
  silence socket_end : Arrival

pub data Welcomed : Type 0 where
  authorized : ℕ → Welcomed
  rejected : Fault → Welcomed
  listening : Welcomed

-- The loop that waits for WELCOME, on the arrivals so far. (The text names the frame that came.)
abbrev pub on_message : Result (Option Frame) Fault → Welcomed → Welcomed
on_message (err e) rest = rejected e
on_message (ok none) rest = rest
on_message (ok (some (welcome lease_secs))) rest = authorized lease_secs
on_message (ok (some f)) rest = rejected (fault "expected WELCOME")

unfoldable pub await_welcome : List Arrival → Welcomed
await_welcome [] = listening
await_welcome (silence ∷ rest) = rejected (fault "hub silent before WELCOME")
await_welcome (socket_end ∷ rest) = rejected (fault "closed before WELCOME")
await_welcome (socket_error e ∷ rest) = rejected e
await_welcome (message m ∷ rest) =
    let later = await_welcome rest in on_message (decode_message m) later

-- Seconds from WELCOME until the session ends to authorize again. The product of two u64 wraps.
unfoldable pub lease_window : ℕ → ℕ
lease_window lease =
    let lease_secs = if lease == 0 then 60 else lease in max (lease_secs * 3 % 2 ^ 64 / 4) 5

-- A lease of six seconds or more that does not overflow is refreshed at three quarters of it, five
-- seconds at least, so before it is over.
pub lease_window-early :
    (lease : ℕ)
    → 6 ≤ lease
    → lease * 3 < 2 ^ 64
    → (lease_window lease < lease)
      × (5 ≤ lease_window lease)
      × (lease_window lease * 4 ≤ max (lease * 3) 20)
unfolding lease_window
lease_window-early lease l b = ground arith

-- The wait before the next dial doubles from half a second, up to thirty seconds.
pub backoff_after-doubles : (n : ℕ) → backoff_after n ≡ min (500 * 2 ^ n) 30000
unfolding backoff_after next_backoff
backoff_after-doubles zero = omega arith
backoff_after-doubles (suc n) = omega (arith, backoff_after-doubles n)

-- `http::Uri` as the checks read it.
pub record Uri : Type 0 where
  pub scheme_str : Option Bytes
  pub authority : Option Bytes
  pub host : Option Bytes
  pub query : Option Bytes

-- `is_some_and(|s| s == text)`
abbrev pub is_text : Option Bytes → Bytes → Bool
is_text none text = false
is_text (some s) text = bytes_eq s text

abbrev pub plain_authority : Option Bytes → Bool
plain_authority none = false
plain_authority (some a) = not (mem b'@' a)

abbrev pub absent : Option Bytes → Bool
absent none = true
absent (some q) = false

-- `trim_matches(['[', ']'])`
abbrev is_bracket : ℕ → Bool
is_bracket c = c == b'[' || c == b']'

abbrev drop_brackets : Bytes → Bytes
drop_brackets [] = []
drop_brackets (c ∷ cs) = if is_bracket c then drop_brackets cs else c ∷ cs

abbrev unless_bracket : ℕ → Bytes → Bytes
unless_bracket c [] = if is_bracket c then [] else c ∷ []
unless_bracket c (d ∷ ds) = c ∷ d ∷ ds

abbrev drop_end_brackets : Bytes → Bytes
drop_end_brackets [] = []
drop_end_brackets (c ∷ cs) = unless_bracket c (drop_end_brackets cs)

unfoldable pub trim_brackets : Bytes → Bytes
trim_brackets cs = drop_end_brackets (drop_brackets cs)

is_text_iff : (o : Option Bytes) (t : Bytes) → (is_text o t ≡ true) ↔ (o ≡ some t)
is_text_iff none t = ground arith
is_text_iff (some s) t = ground (arith, bytes_eq_iff s t)

plain_authority-some :
    (o : Option Bytes)
    → plain_authority o ≡ true
    → (a : Bytes) × (o ≡ some a) × (mem b'@' a ≡ false)
plain_authority-some none e = absurd ground (arith, e)
plain_authority-some (some a) e = (a, refl, ground (arith, e))

absent-none : (o : Option Bytes) → absent o ≡ true → o ≡ none
absent-none none e = refl
absent-none (some q) e = absurd ground (arith, e)

-- The crate `http` parses URLs, the standard library addresses.
module _ {Ip : Type 0} (parse_uri : Bytes → Option Uri) (parse_ip : Bytes → Option Ip)
    (is_loopback : Ip → Bool) where
  abbrev pub loopback_ip : Option Ip → Bool
  loopback_ip none = false
  loopback_ip (some ip) = is_loopback ip

  abbrev pub host_is_loopback : Option Bytes → Bool
  host_is_loopback none = false
  host_is_loopback (some host) = loopback_ip (parse_ip (trim_brackets host))

  abbrev pub uri_is_loopback : Option Uri → Bool
  uri_is_loopback none = false
  uri_is_loopback (some uri) = host_is_loopback uri.host

  unfoldable pub url_is_loopback : Bytes → Bool
  unfolding trim_brackets
  url_is_loopback url = uri_is_loopback (parse_uri url)

  unfoldable pub check_uri : Bytes → Option Uri → Result (Unit {0}) Fault
  unfolding url_is_loopback
  check_uri url none = err (fault "invalid hub URL")
  check_uri url (some uri) =
      if not (is_text uri.scheme_str (bytes "ws") || is_text uri.scheme_str (bytes "wss"))
      then err (fault "hub URL must use wss (ws only for literal loopback)")
      else if not (plain_authority uri.authority) || (not (absent uri.query) || mem b'#' url)
      then err (fault "hub URL must not contain credentials, query parameters, or fragments")
      else if is_text uri.scheme_str (bytes "ws") && not (url_is_loopback url)
      then err (fault "plaintext ws requires a literal loopback address; use wss")
      else ok tt

  -- The checks of `dial`, before it connects.
  unfoldable pub check_url : Bytes → Result (Unit {0}) Fault
  unfolding check_uri
  check_url url = check_uri url (parse_uri url)

  -- What a URL must be.
  pub record IsSafe (url : Bytes) (uri : Uri) : Type 0 where
    pub parsed : parse_uri url ≡ some uri
    pub scheme :
        (uri.scheme_str ≡ some (bytes "wss"))
        ⊎ ((uri.scheme_str ≡ some (bytes "ws")) × (host_is_loopback uri.host ≡ true))
    pub authority : (a : Bytes) × (uri.authority ≡ some a) × (mem b'@' a ≡ false)
    pub query : uri.query ≡ none
    pub fragment : mem b'#' url ≡ false

  host_loopback :
      (url : Bytes) (uri : Uri)
      → parse_uri url ≡ some uri
      → url_is_loopback url ≡ host_is_loopback uri.host
  unfolding url_is_loopback
  host_loopback url uri e = rw e refl

  checked :
      (url : Bytes) (uri : Uri)
      → parse_uri url ≡ some uri
      → (check_uri url (some uri) ≡ ok tt)
      → IsSafe url uri
  unfolding check_uri
  checked url uri e c = record {
    parsed = e;
    scheme = ground (
      arith,
      c,
      host_loopback url uri e,
      is_text_iff uri.scheme_str (bytes "ws"),
      is_text_iff uri.scheme_str (bytes "wss"),
    );
    authority = plain_authority-some uri.authority (ground (arith, c));
    query = absent-none uri.query (ground (arith, c));
    fragment = ground (arith, c);
  }

  checks :
      (url : Bytes) (o : Option Uri)
      → parse_uri url ≡ o
      → check_uri url o ≡ ok tt
      → (uri : Uri) × IsSafe url uri
  unfolding check_uri
  checks url none e c = absurd ground (arith, c)
  checks url (some uri) e c = (uri, checked url uri e c)

  check_url-IsSafe : (url : Bytes) → check_url url ≡ ok tt → (uri : Uri) × IsSafe url uri
  unfolding check_url
  check_url-IsSafe url c = checks url (parse_uri url) refl c

  safe_checks :
      (url : Bytes) (uri : Uri)
      → IsSafe url uri
      → (uri.scheme_str ≡ some (bytes "wss"))
        ⊎ ((uri.scheme_str ≡ some (bytes "ws")) × (host_is_loopback uri.host ≡ true))
      → check_uri url (some uri) ≡ ok tt
  unfolding check_uri bytes_eq
  safe_checks url uri c (inl e) =
      let (a, f, g) = c.authority in rw (e, f, g, c.query, c.fragment) refl
  safe_checks url uri c (inr (e, l)) =
      let (a, f, g) = c.authority in
      rw (e, f, g, c.query, c.fragment, host_loopback url uri c.parsed, l) refl

  IsSafe-check_url : (url : Bytes) (uri : Uri) → IsSafe url uri → check_url url ≡ ok tt
  unfolding check_url
  IsSafe-check_url url uri c = ap (check_uri url) c.parsed ∙ safe_checks url uri c c.scheme

  -- The tether connects to exactly the URLs with the scheme `wss`, or `ws` and a host that parses
  -- as a loopback address, with an authority without `@`, no query and no `#`.
  pub check_url_iff : (url : Bytes) → (check_url url ≡ ok tt) ↔ ((uri : Uri) × IsSafe url uri)
  check_url_iff url = (check_url-IsSafe url, λ (uri, c). IsSafe-check_url url uri c)
