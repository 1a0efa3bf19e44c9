-- ===== src/Proxy/Guards.antt =====
-- The guards of the proxy: what a token must be, and where a request can go.
use anvil_ring.Base.{
  ℕ, zero, suc, ◌/◌, ◌^◌, ◌<◌, ◌≡◌, ◌↔◌, refl, ap, subst, ◌∙◌, Bool, true, false, Option, none,
  some, [], ◌∷◌, ◌++◌, Bytes, bytes, IsByte, All, length, arith, Result, ok, err, mem, bind-ok,
  Bool-cases, inl, inr,
}
use anvil_ring.Socket.{Fault}
use anvil_ring.Tunnel.Config.{Uri}
use anvil_ring.Proxy.{
  bit_xor, bit_or, difference, constant_eq, strip_prefix, authorized, bearer_matches, SocketAddr,
  Authority, loopback_authority, without_user, authority_of, if_loopback, addr_of, is_loopback,
  is_ok, forwards, may_call, handle,
}

bit_xor-zero : (w a b : ℕ) → a < 2 ^ w → b < 2 ^ w → bit_xor w a b ≡ 0 → a ≡ b
unfolding bit_xor
bit_xor-zero zero a b l m e = omega arith
bit_xor-zero (suc w) a b l m e =
    ground (arith, bit_xor-zero w (a / 2) (b / 2) (omega arith) (omega arith))

bit_xor_self : (w a : ℕ) → bit_xor w a a ≡ 0
unfolding bit_xor
bit_xor_self zero a = refl
bit_xor_self (suc w) a = ground (arith, bit_xor_self w (a / 2))

bit_or-zero : (w a b : ℕ) → a < 2 ^ w → b < 2 ^ w → bit_or w a b ≡ 0 → (a ≡ 0) × (b ≡ 0)
unfolding bit_or
bit_or-zero zero a b l m e = (omega arith, omega arith)
bit_or-zero (suc w) a b l m e =
    ground (arith, bit_or-zero w (a / 2) (b / 2) (omega arith) (omega arith))

bit_or_zero : (w : ℕ) → bit_or w 0 0 ≡ 0
unfolding bit_or
bit_or_zero zero = refl
bit_or_zero (suc w) = ground (arith, bit_or_zero w)

bit_xor-bounded : (w a b : ℕ) → bit_xor w a b < 2 ^ w
unfolding bit_xor
bit_xor-bounded zero a b = omega arith
bit_xor-bounded (suc w) a b = ground (arith, bit_xor-bounded w (a / 2) (b / 2))

bit_or-bounded : (w a b : ℕ) → bit_or w a b < 2 ^ w
unfolding bit_or
bit_or-bounded zero a b = omega arith
bit_or-bounded (suc w) a b = ground (arith, bit_or-bounded w (a / 2) (b / 2))

difference-zero :
    (diff : ℕ) (a b : Bytes)
    → diff < 256
    → length a ≡ length b
    → All IsByte a
    → All IsByte b
    → difference diff a b ≡ 0
    → (diff ≡ 0) × (a ≡ b)
unfolding difference
difference-zero diff [] [] l n p q e = (e, refl)
difference-zero diff [] (y ∷ b) l n p q e = absurd omega arith
difference-zero diff (x ∷ a) [] l n p q e = absurd omega arith
difference-zero diff (x ∷ a) (y ∷ b) l n (u, p) (v, q) e =
    let (f, g) =
      difference-zero (bit_or 8 diff (bit_xor 8 x y)) a b (bit_or-bounded 8 diff (bit_xor 8 x y))
        (omega arith) p q e in
    let (h, k) = bit_or-zero 8 diff (bit_xor 8 x y) l (bit_xor-bounded 8 x y) f in
    (h, ground (arith, g, bit_xor-zero 8 x y u v k))

difference_self : (a : Bytes) → difference 0 a a ≡ 0
unfolding difference
difference_self [] = refl
difference_self (x ∷ a) =
    ap (λ d. difference (bit_or 8 0 d) a a) (bit_xor_self 8 x)
    ∙ ap (λ d. difference d a a) (bit_or_zero 8)
    ∙ difference_self a

constant_eq-eq : (a b : Bytes) → All IsByte a → All IsByte b → constant_eq a b ≡ true → a ≡ b
unfolding constant_eq
constant_eq-eq a b p q e =
    (difference-zero 0 a b (omega arith) (ground (arith, e)) p q (ground (arith, e))).1

constant_eq_refl : (a : Bytes) → constant_eq a a ≡ true
unfolding constant_eq
constant_eq_refl a = ground (arith, difference_self a)

strip_prefix-append : (p s rest : Bytes) → strip_prefix p s ≡ some rest → s ≡ p ++ rest
unfolding strip_prefix
strip_prefix-append [] s rest e = ground (arith, e)
strip_prefix-append (p ∷ ps) [] rest e = absurd ground (arith, e)
strip_prefix-append (p ∷ ps) (c ∷ s) rest e = ground (arith, e, strip_prefix-append ps s rest)

strip_prefix_own : (p rest : Bytes) → strip_prefix p (p ++ rest) ≡ some rest
unfolding strip_prefix
strip_prefix_own [] rest = refl
strip_prefix_own (p ∷ ps) rest = ground (arith, strip_prefix_own ps rest)

-- A header whose text has bytes only.
abbrev pub HasBytes : Option (Option Bytes) → Type 0
HasBytes none = Unit
HasBytes (some none) = Unit
HasBytes (some (some s)) = All IsByte s

All-drop : (p rest : Bytes) → All IsByte (p ++ rest) → All IsByte rest
All-drop [] rest h = h
All-drop (p ∷ ps) rest (a, h) = All-drop ps rest h

bearer_eq :
    (o : Option Bytes) (s expected : Bytes)
    → strip_prefix (bytes "Bearer ") s ≡ o
    → All IsByte s
    → All IsByte expected
    → bearer_matches o expected ≡ true
    → s ≡ bytes "Bearer " ++ expected
bearer_eq none s expected e h p f = absurd ground (arith, f)
bearer_eq (some got) s expected e h p f =
    let q = strip_prefix-append (bytes "Bearer ") s got e in
    q
    ∙ ap (bytes "Bearer " ++◌)
        (constant_eq-eq got expected (All-drop (bytes "Bearer ") got (subst (All IsByte) q h)) p f)

authorized-header :
    (header : Option (Option Bytes)) (expected : Bytes)
    → HasBytes header
    → All IsByte expected
    → authorized header expected ≡ true
    → header ≡ some (some (bytes "Bearer " ++ expected))
unfolding authorized
authorized-header none expected h p e = absurd ground (arith, e)
authorized-header (some none) expected h p e = absurd ground (arith, e)
authorized-header (some (some s)) expected h p e =
    ap (λ t. some (some t)) (bearer_eq (strip_prefix (bytes "Bearer ") s) s expected refl h p e)

authorized_own :
    (expected : Bytes) → authorized (some (some (bytes "Bearer " ++ expected))) expected ≡ true
unfolding authorized
authorized_own expected =
    ap (λ o. bearer_matches o expected) (strip_prefix_own (bytes "Bearer ") expected)
    ∙ constant_eq_refl expected

-- A caller is let in by exactly one value of the header: `Bearer `, in that spelling, and the token.
pub authorized_iff :
    (header : Option (Option Bytes)) (expected : Bytes)
    → HasBytes header
    → All IsByte expected
    → (authorized header expected ≡ true) ↔ (header ≡ some (some (bytes "Bearer " ++ expected)))
authorized_iff header expected h p = (
  authorized-header header expected h p,
  λ e. ap (λ x. authorized x expected) e ∙ authorized_own expected,
)

module _ {Ip : Type 0} (parse_uri : Bytes → Option Uri)
    (parse_addr : Bytes → Option (SocketAddr Ip)) (parse_ip : Bytes → Option Ip)
    (parse_authority : Bytes → Option Authority) (ip_is_loopback : Ip → Bool) (localhost : Ip) where
  abbrev rule : Bytes → ℕ → Result (SocketAddr Ip) Fault
  rule = loopback_authority parse_uri parse_addr parse_ip parse_authority ip_is_loopback localhost

  if_loopback-ok :
      (a addr : SocketAddr Ip)
      → if_loopback parse_uri parse_addr parse_ip parse_authority ip_is_loopback localhost a
        ≡ ok addr
      → ip_is_loopback addr.ip ≡ true
  if_loopback-ok a addr e = elim (Bool-cases (ip_is_loopback a.ip)) [
    | inl t ↦ ground (arith, e, t)
    | inr t ↦ absurd ground (arith, e, t)
  ]

  without_user-ok :
      (authority : Bytes) (default_port : ℕ) (addr : SocketAddr Ip)
      → without_user parse_uri parse_addr parse_ip parse_authority ip_is_loopback localhost
          authority default_port
        ≡ ok addr
      → (mem b'@' authority ≡ false) × (ip_is_loopback addr.ip ≡ true)
  without_user-ok authority default_port addr e = elim (Bool-cases (mem b'@' authority)) [
    | inl t ↦ absurd ground (arith, e, t)
    | inr t ↦
        let (a, f, g) =
          bind-ok
            (addr_of parse_uri parse_addr parse_ip parse_authority ip_is_loopback localhost
              authority default_port (parse_addr authority))
            (if_loopback parse_uri parse_addr parse_ip parse_authority ip_is_loopback localhost)
            addr (rw t at e) in
        (t, if_loopback-ok a addr g)
  ]

  -- The address that the rule accepts is a loopback address, and comes from an authority without
  -- `@`.
  pub loopback_authority-loops :
      (text : Bytes) (default_port : ℕ) (addr : SocketAddr Ip)
      → rule text default_port ≡ ok addr
      → (ip_is_loopback addr.ip ≡ true)
        × (authority : Bytes) × (authority_of parse_uri parse_addr parse_ip parse_authority
              ip_is_loopback localhost text
            ≡ ok authority)
        × (mem b'@' authority ≡ false)
  unfolding loopback_authority
  loopback_authority-loops text default_port addr e =
      let (authority, f, g) =
        bind-ok
          (authority_of parse_uri parse_addr parse_ip parse_authority ip_is_loopback localhost text)
          (λ a.
            without_user parse_uri parse_addr parse_ip parse_authority ip_is_loopback localhost a
              default_port)
          addr e in
      let (h, k) = without_user-ok authority default_port addr g in (k, authority, f, h)

  may_call-token :
      (token : Option Bytes) (header : Option (Option Bytes))
      → HasBytes header
      → ((expected : Bytes) → token ≡ some expected → All IsByte expected)
      → may_call parse_uri parse_addr parse_ip parse_authority ip_is_loopback localhost token header
        ≡ true
      → (expected : Bytes) → token ≡ some expected
      → header ≡ some (some (bytes "Bearer " ++ expected))
  may_call-token none header h p e expected f = absurd ground (arith, f)
  may_call-token (some t) header h p e expected f =
      authorized-header header t h (p t refl) e
      ∙ ap (λ x. some (some (bytes "Bearer " ++ x))) (ground (arith, f))

  is_ok-some :
      (r : Result (SocketAddr Ip) Fault)
      → is_ok parse_uri parse_addr parse_ip parse_authority ip_is_loopback localhost r ≡ true
      → (addr : SocketAddr Ip) × (r ≡ ok addr)
  is_ok-some (ok addr) e = (addr, refl)
  is_ok-some (err x) e = absurd ground (arith, e)

  forwards-guards :
      (token : Option Bytes) (upstream method path : Bytes) (header : Option (Option Bytes))
      → handle parse_uri parse_addr parse_ip parse_authority ip_is_loopback localhost token upstream
          method path header
        ≡ forwards
      → (may_call parse_uri parse_addr parse_ip parse_authority ip_is_loopback localhost token
            header
          ≡ true)
        × (is_ok parse_uri parse_addr parse_ip parse_authority ip_is_loopback localhost
              (rule upstream 80)
            ≡ true)
  unfolding handle is_loopback
  forwards-guards token upstream method path header e = ground (arith, e)

  -- A request that the proxy forwards has passed both guards: where a token is configured, the
  -- header is `Bearer ` and the token, and the upstream's address is a loopback address.
  pub handle-guarded :
      (token : Option Bytes) (upstream method path : Bytes) (header : Option (Option Bytes))
      → HasBytes header
      → ((expected : Bytes) → token ≡ some expected → All IsByte expected)
      → handle parse_uri parse_addr parse_ip parse_authority ip_is_loopback localhost token upstream
          method path header
        ≡ forwards
      → ((expected : Bytes)
          → token ≡ some expected
          → header ≡ some (some (bytes "Bearer " ++ expected)))
        × (addr : SocketAddr Ip) × (rule upstream 80 ≡ ok addr)
        × (ip_is_loopback addr.ip ≡ true)
  handle-guarded token upstream method path header h p e =
      let (may, loops) = forwards-guards token upstream method path header e in
      let (addr, f) = is_ok-some (rule upstream 80) loops in
      (
        may_call-token token header h p may,
        addr,
        f,
        (loopback_authority-loops upstream 80 addr f).0,
      )
