-- ===== src/Main/Tests.antt =====
-- The modes, and the theorems at concrete inputs.
use anvil_ring.Base.{◌≡◌, ◌⊎◌, refl, false, none, some, [], ◌∷◌, Bytes, bytes, bytes_eq}
use anvil_ring.Hub.State.{Registry, default_lease}
use anvil_ring.Hub.Registry.{new, register}
use anvil_ring.Hub.Registry.Consistent.{Consistent, new-Consistent, register-Consistent}
use anvil_ring.Hub.Registry.Replace.{Cleared}
use anvil_ring.Main.{mode_of, proxy, admin, exits, proxy_token, is_empty, refresh, timed_out}
use anvil_ring.Main.Startup.{proxy_token-guarded, refresh-Cleared, read_nothing}

mode_of-empty : mode_of [] ≡ proxy
unfolding mode_of
mode_of-empty = refl

mode_of-admin : mode_of (bytes "admin" ∷ bytes "list" ∷ []) ≡ admin (bytes "list" ∷ [])
unfolding mode_of bytes_eq
mode_of-admin = refl

mode_of-extra : mode_of (bytes "hub" ∷ bytes "8443" ∷ []) ≡ exits 2
unfolding mode_of bytes_eq
mode_of-extra = refl

proxy_token-guarded_example :
    ((s : Bytes) × (some (bytes "key") ≡ some s)
      × (some (bytes "key") ≡ some s)
      × (is_empty s ≡ false))
    ⊎ ((some (bytes "key") ≡ none) × (none ≡ some (bytes "1")))
unfolding proxy_token
proxy_token-guarded_example =
    proxy_token-guarded (some (bytes "key")) none (some (bytes "key")) refl

abbrev same : Bytes → Bytes
same credential = credential

abbrev hub : Registry
hub = register same (bytes "box") (bytes "Box") (bytes "key") (new default_lease)

hub-Consistent : Consistent hub
hub-Consistent =
    register-Consistent same (bytes "box") (bytes "Box") (bytes "key") (new default_lease)
      (new-Consistent default_lease)

refresh-Cleared_example : Cleared same hub (refresh timed_out 7 hub)
unfolding read_nothing
refresh-Cleared_example = refresh-Cleared same timed_out 7 hub refl hub-Consistent
