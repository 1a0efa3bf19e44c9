-- ===== src/Headers/Tests.antt =====
-- Runs of the removal of hop-by-hop fields, on a list of fields, and the theorem there.
use anvil_ring.Base.{◌≡◌, refl, List, [], ◌∷◌, Bytes, bytes, bytes_eq, mem}
use anvil_ring.Text.{trim, trim_start, trim_end, split, is_whitespace, to_ascii_lowercase}
use anvil_ring.Headers.{
  contains, add_tokens, conditional, remove_all, remove_named, strip_hop_by_hop,
}
use anvil_ring.Headers.Fields.{values}
use anvil_ring.Headers.Strip.{Dropped, get_all-strip_hop_by_hop}
use anvil_ring.Headers.Assoc.{assoc_map, name_chars, text_chars, remove}

abbrev named : List (Bytes × Bytes)
named =
    (bytes "connection", bytes "X-Session-Token, Foo")
    ∷ (bytes "x-session-token", bytes "secret")
    ∷ (bytes "foo", bytes "bar")
    ∷ (bytes "authorization", bytes "Bearer real")
    ∷ []

strip-named : strip_hop_by_hop named ≡ (3, (bytes "authorization", bytes "Bearer real") ∷ [])
unfolding strip_hop_by_hop conditional add_tokens contains remove_all remove_named assoc_map
    name_chars text_chars remove values trim trim_start trim_end split is_whitespace
    to_ascii_lowercase bytes_eq mem
strip-named = refl

-- A field with two values is counted once.
abbrev repeated : List (Bytes × Bytes)
repeated = (bytes "connection", bytes "close") ∷ (bytes "connection", bytes "close") ∷ []

strip-repeated : (strip_hop_by_hop repeated).0 ≡ 1
unfolding strip_hop_by_hop conditional add_tokens contains remove_all remove_named assoc_map
    name_chars text_chars remove values trim trim_start trim_end split is_whitespace
    to_ascii_lowercase bytes_eq mem
strip-repeated = refl

get_all-strip_hop_by_hop_example :
    (Dropped (bytes "foo") named → assoc_map.get_all (bytes "foo") (strip_hop_by_hop named).1 ≡ [])
    × (¬ Dropped (bytes "foo") named
        → assoc_map.get_all (bytes "foo") (strip_hop_by_hop named).1
          ≡ assoc_map.get_all (bytes "foo") named)
get_all-strip_hop_by_hop_example = get_all-strip_hop_by_hop (bytes "foo") named
