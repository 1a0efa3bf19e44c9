-- ===== src/Headers.antt =====
-- cargo/src/headers.rs: the rule of the hop-by-hop header fields, and their removal. Names are byte
-- strings, the header map is the interface of Fields.
pub mod Fields
pub mod Strip
pub mod Print
pub mod Wire
pub mod Assoc
mod Tests
use anvil_ring.Base.{
  ℕ, ◌+◌, Bool, true, false, ◌||◌, Option, none, some, List, [], ◌∷◌, ◌++◌, Bytes, bytes, bytes_eq,
  if◌then◌else◌,
}
use anvil_ring.Text.{eq_ignore_ascii_case, trim, split}
use Fields.{HeaderMap, lower, get, is_some}

-- `ALWAYS_STRIP`
abbrev pub always_strip : List Bytes
always_strip =
    bytes "connection"
    ∷ bytes "keep-alive"
    ∷ bytes "proxy-authenticate"
    ∷ bytes "proxy-authorization"
    ∷ bytes "te"
    ∷ bytes "trailer"
    ∷ bytes "transfer-encoding"
    ∷ bytes "upgrade"
    ∷ bytes "host"
    ∷ []

pub any_name : List Bytes → Bytes → Bool
any_name [] name = false
any_name (h ∷ hs) name = eq_ignore_ascii_case h name || any_name hs name

unfoldable pub is_hop_by_hop : Bytes → Bool
unfolding any_name
is_hop_by_hop name = any_name always_strip name

-- `HashSet<String>`, in the order of the insertions.
unfoldable pub contains : Bytes → List Bytes → Bool
contains n [] = false
contains n (t ∷ ts) = bytes_eq t n || contains n ts

abbrev pub set_insert : Bytes → List Bytes → List Bytes
set_insert t set = if contains t set then set else set ++ (t ∷ [])

abbrev pub add_token : Bytes → List Bytes → List Bytes
add_token [] set = set
add_token (c ∷ t) set = set_insert (c ∷ t) set

unfoldable pub add_tokens : List Bytes → List Bytes → List Bytes
add_tokens [] set = set
add_tokens (p ∷ ps) set = add_tokens ps (add_token (lower (trim p)) set)

abbrev pub add_value : Option Bytes → List Bytes → List Bytes
add_value none set = set
add_value (some s) set = add_tokens (split b',' s) set

-- `into_iter().count()` on what `remove` answers: the first value, if there was one.
abbrev pub count : Bool → ℕ
count true = 1
count false = 0

-- `conditional`: the names that the values of `Connection` name, read by `to_str`.
unfoldable pub conditional : (Bytes → Option Bytes) → List Bytes → List Bytes → List Bytes
unfolding add_tokens contains
conditional to_str [] set = set
conditional to_str (v ∷ vs) set = conditional to_str vs (add_value (to_str v) set)

module _ {M : Type 0} ⦃h : HeaderMap M⦄ where
  -- The loops over the names, on the count and the map.
  unfoldable pub remove_all : List Bytes → ℕ → M → ℕ × M
  remove_all [] removed m = (removed, m)
  remove_all (n ∷ ns) removed m = remove_all ns (removed + count (is_some (get n m))) (h.remove n m)

  unfoldable pub remove_named : List Bytes → ℕ → M → ℕ × M
  remove_named [] removed m = (removed, m)
  remove_named (n ∷ ns) removed m =
      let there = count (is_some (get n m)) in
      let rest = remove_named ns (removed + there) (h.remove n m) in
      let skip = remove_named ns removed m in if h.is_name n then rest else skip

  unfoldable pub strip_hop_by_hop : M → ℕ × M
  unfolding conditional remove_all remove_named
  strip_hop_by_hop m =
      let names = conditional h.to_str (h.get_all (bytes "connection") m) [] in
      let (removed, rest) = remove_all always_strip 0 m in remove_named names removed rest
