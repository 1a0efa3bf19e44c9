-- ===== src/Main/Startup.antt =====
-- What the program needs before it listens, and what a refresh that fails leaves.
use anvil_ring.Base.{
  ℕ, ◌≡◌, ◌⊎◌, refl, Bool, true, false, Option, none, some, Bytes, bytes, bytes_key, nat_key,
  bytes_eq_iff, ok, arith, Bool-cases, inl, inr,
}
use anvil_ring.Hub.State.{Registry}
use anvil_ring.Hub.Registry.Consistent.{Consistent}
use anvil_ring.Hub.Registry.Replace.{Cleared, clear_records-Cleared}
use anvil_ring.Main.{
  proxy_token, is_empty, without_token, Refresh, read, unavailable, timed_out, refresh,
}

without_token-allowed :
    (allow t : Option Bytes) → without_token allow ≡ ok t → (t ≡ none) × (allow ≡ some (bytes "1"))
without_token-allowed none t e = absurd ground (arith, e)
without_token-allowed (some a) t e = ground (arith, e, bytes_eq_iff a (bytes "1"))

-- The proxy starts with the token that is set and not empty, or without one only if none is and
-- ANVIL_RING_ALLOW_NO_AUTH is 1.
pub proxy_token-guarded :
    (token allow t : Option Bytes)
    → proxy_token token allow ≡ ok t
    → ((s : Bytes) × (t ≡ some s) × (token ≡ some s) × (is_empty s ≡ false))
      ⊎ ((t ≡ none) × (allow ≡ some (bytes "1")))
unfolding proxy_token
proxy_token-guarded none allow t e = inr (without_token-allowed allow t e)
proxy_token-guarded (some s) allow t e = elim (Bool-cases (is_empty s)) [
  | inl f ↦ inr (without_token-allowed allow t (ground (arith, e, f)))
  | inr f ↦ inl (s, ground (arith, e, f), refl, f)
]

unfoldable pub read_nothing : Refresh → Bool
read_nothing (read records) = false
read_nothing (unavailable e) = true
read_nothing timed_out = true

-- A refresh of consistent tables whose reader fails, or takes too long, fails closed: no credential
-- has a lease, no tether a session, and every session that was live has been told to stop.
pub refresh-Cleared :
    (digest : Bytes → Bytes) (outcome : Refresh) (now : ℕ) (r : Registry)
    → read_nothing outcome ≡ true
    → Consistent r
    → Cleared digest r (refresh outcome now r)
unfolding refresh read_nothing
refresh-Cleared digest (read records) now r e c = absurd ground (arith, e)
refresh-Cleared digest (unavailable x) now r e c = clear_records-Cleared digest now r c
refresh-Cleared digest timed_out now r e c = clear_records-Cleared digest now r c
