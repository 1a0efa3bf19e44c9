-- ===== src/Chunked/Framing.antt =====
-- cargo/src/chunked.rs, `is_chunked`: whether a response says that its body is chunked.
use anvil_ring.Base.{Bool, false, ◌||◌, Option, none, some, List, [], ◌∷◌, Bytes, bytes}
use anvil_ring.Text.{trim, split, eq_ignore_ascii_case}
use anvil_ring.Headers.Fields.{HeaderMap, get}

unfoldable pub any_chunked : List Bytes → Bool
any_chunked [] = false
any_chunked (t ∷ ts) = eq_ignore_ascii_case (trim t) (bytes "chunked") || any_chunked ts

abbrev pub chunked_value : Option Bytes → Bool
chunked_value none = false
chunked_value (some s) = any_chunked (split b',' s)

abbrev pub chunked_first : (Bytes → Option Bytes) → Option Bytes → Bool
chunked_first to_str none = false
chunked_first to_str (some v) = chunked_value (to_str v)

module _ {M : Type 0} ⦃h : HeaderMap M⦄ where
  unfoldable pub is_chunked : M → Bool
  unfolding any_chunked
  is_chunked m = chunked_first h.to_str (get (bytes "transfer-encoding") m)
