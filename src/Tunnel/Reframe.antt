-- ===== src/Tunnel/Reframe.antt =====
-- cargo/src/tunnel.rs, `reframe_head_for_tunnel`, and where a head ends (cargo/src/hub.rs).
pub mod Wire
pub mod Filter
use anvil_ring.Base.{
  ℕ, suc, ◌+◌, ◌-◌, Bool, true, false, not, ◌&&◌, Option, none, some, List, [], ◌∷◌, ◌++◌, Bytes,
  bytes, take, drop, ◌==◌, bytes_eq, if◌then◌else◌,
}
use anvil_ring.Text.{from_utf8, trim, split, eq_ignore_ascii_case}

abbrev pub crlf : Bytes
crlf = b'\r' ∷ b'\n' ∷ []

-- `find_subslice` for a needle that is not empty: the first place where the needle starts.
unfoldable pub starts_with : Bytes → Bytes → Bool
starts_with [] s = true
starts_with (p ∷ ps) [] = false
starts_with (p ∷ ps) (c ∷ s) = c == p && starts_with ps s

abbrev pub one_later : Option ℕ → Option ℕ
one_later none = none
one_later (some i) = some (suc i)

unfoldable pub find_subslice : Bytes → Bytes → Option ℕ
unfolding starts_with
find_subslice [] needle = none
find_subslice (c ∷ hay) needle =
    let later = find_subslice hay needle in
    if starts_with needle (c ∷ hay) then some 0 else one_later later

abbrev pub end_after : ℕ → Option ℕ → Option ℕ → Option ℕ
end_after n (some i) other = some (i + n)
end_after n none other = other

unfoldable pub find_header_end : Bytes → Option ℕ
unfolding find_subslice
find_header_end head =
    end_after 4 (find_subslice head (crlf ++ crlf))
      (end_after 2 (find_subslice head (b'\n' ∷ b'\n' ∷ [])) none)

-- The name and the value of a line, at its first colon.
abbrev pub colon_later : ℕ → Option (Bytes × Bytes) → Option (Bytes × Bytes)
colon_later c none = none
colon_later c (some (name, value)) = some (c ∷ name, value)

unfoldable pub at_colon : Bytes → Option (Bytes × Bytes)
at_colon [] = none
at_colon (c ∷ line) =
    let later = at_colon line in if c == b':' then some ([], line) else colon_later c later

abbrev pub is_te : Option (List ℕ) → Bool
is_te none = false
is_te (some name) = eq_ignore_ascii_case (trim name) (bytes "transfer-encoding")

unfoldable pub all_chunked : List (List ℕ) → Bool
all_chunked [] = true
all_chunked (t ∷ ts) = eq_ignore_ascii_case (trim t) (bytes "chunked") && all_chunked ts

abbrev pub only_chunked : Option (List ℕ) → Bool
only_chunked none = false
only_chunked (some []) = false
only_chunked (some (c ∷ value)) = all_chunked (split b',' (c ∷ value))

abbrev pub keep_field : Option (Bytes × Bytes) → Bool
keep_field none = true
keep_field (some (name, value)) = not (is_te (from_utf8 name) && only_chunked (from_utf8 value))

unfoldable pub keep : Bytes → Bool
unfolding at_colon all_chunked
keep line = keep_field (at_colon line)

-- `strip_prefix(b"\n").unwrap_or(line)`
abbrev pub strip_newline : Bytes → Bytes
strip_newline [] = []
strip_newline (c ∷ line) = if c == b'\n' then line else c ∷ line

unfoldable pub field_lines : List Bytes → Bytes
unfolding keep
field_lines [] = []
field_lines (line ∷ lines) =
    let rest = field_lines lines in
    if keep (strip_newline line) then crlf ++ (strip_newline line ++ rest) else rest

abbrev pub head_lines : List Bytes → Bytes
head_lines [] = []
head_lines (line ∷ lines) = (if keep line then line else []) ++ field_lines lines

abbrev pub reframe_block : Bytes → Bytes
reframe_block block = head_lines (split b'\r' block) ++ (crlf ++ crlf)

abbrev pub reframe_at : Bytes → Option ℕ → Bytes
reframe_at head none = head
reframe_at head (some end) =
    if bytes_eq (drop (end - 4) (take end head)) (crlf ++ crlf)
    then reframe_block (take (end - 4) head)
    else head

unfoldable pub reframe_head_for_tunnel : Bytes → Bytes
unfolding find_header_end field_lines keep
reframe_head_for_tunnel head = reframe_at head (find_header_end head)
