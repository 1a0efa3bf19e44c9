-- ===== src/Chunked.antt =====
-- cargo/src/chunked.rs: the incremental decoder of HTTP/1.1 chunked bodies.
pub mod Loop
pub mod Split
pub mod Body
pub mod Framing
mod Tests
use anvil_ring.Base.{
  ℕ, zero, suc, ◌+◌, ◌-◌, ◌*◌, Bool, true, false, Option, none, some, List, [], ◌∷◌, ◌++◌, String,
  Bytes, length, take, drop, min, ltb, ◌==◌, ◌&&◌, not, if◌then◌else◌, Result, ok, err, bytes_eq,
}
use anvil_ring.Text.{from_utf8, trim, split, eq_ignore_ascii_case}
use anvil_ring.Text.Decimal.{from_str_radix}

-- `ChunkError::Malformed`.
pub data ChunkError : Type 0 where
  malformed : String → ChunkError

pub data Mode : Type 0 where
  size : Mode
  body : ℕ → Mode
  crlf : Mode
  finished : Mode

pub record Decoder : Type 0 where
  pub buf : Bytes
  pub mode : Mode

abbrev pub new : Decoder
new = record { buf = []; mode = size }

pub record Decoded : Type 0 where
  pub out : Bytes
  pub done : Bool

-- `buf.windows(2).position(|w| w == b"\r\n")`, as the line before it and the bytes behind it.
abbrev found_later : ℕ → Option (Bytes × Bytes) → Option (Bytes × Bytes)
found_later b none = none
found_later b (some (line, rest)) = some (b ∷ line, rest)

pub split_crlf : Bytes → Option (Bytes × Bytes)
split_crlf [] = none
split_crlf (a ∷ []) = none
split_crlf (a ∷ b ∷ rest) =
    if a == 13 && b == 10 then some ([], rest) else found_later a (split_crlf (b ∷ rest))

-- The size line up to its first `;`.
pub before_semicolon : Bytes → Bytes
before_semicolon [] = []
before_semicolon (c ∷ cs) = if c == b';' then [] else c ∷ before_semicolon cs

pub parse_size : Bytes → Result ℕ ChunkError
unfolding before_semicolon
parse_size line = elim (from_utf8 (before_semicolon line)) [
  | none ↦ err (malformed "size line not utf8")
  | some text ↦ elim (from_str_radix 16 (trim text)) [
    | none ↦ err (malformed "chunk size not hex")
    | some n ↦ ok n
  ]
]

-- What one round of the loop does: go on with more output, wait or end, or fail.
pub data Round : Type 0 where
  go : Decoder → Bytes → Round
  halt : Decoder → Bool → Round
  fail : Decoder → ChunkError → Round

-- A failing round has put `Done` in the place of the mode (`mem::replace`), and leaves the buffer.
pub failed : Bytes → ChunkError → Round
failed buf e = fail (record { buf = buf; mode = finished }) e

pub size_round : Bytes → Bytes → Bytes → Round
unfolding failed parse_size
size_round buf line rest = elim (parse_size line) [
  | err e ↦ failed buf e
  | ok n ↦
      if n == 0
      then halt (record { buf = []; mode = finished }) true
      else go (record { buf = rest; mode = body n }) []
]

pub body_round : Bytes → ℕ → Round
body_round buf remaining =
    let taken = min remaining (length buf) in
    let left = remaining - taken in
    if remaining == 0
    then go (record { buf = buf; mode = crlf }) []
    else if taken == 0
    then halt (record { buf = buf; mode = body remaining }) false
    else go (record { buf = drop taken buf; mode = if left == 0 then crlf else body left })
        (take taken buf)

pub crlf_round : Bytes → Round
unfolding failed
crlf_round [] = halt (record { buf = []; mode = crlf }) false
crlf_round (a ∷ []) = halt (record { buf = a ∷ []; mode = crlf }) false
crlf_round (a ∷ b ∷ rest) =
    if a == 13 && b == 10
    then go (record { buf = rest; mode = size }) []
    else failed (a ∷ b ∷ rest) (malformed "missing CRLF after chunk")

abbrev pub size_or_wait : Bytes → Option (Bytes × Bytes) → Round
unfolding size_round
size_or_wait buf none = halt (record { buf = buf; mode = size }) false
size_or_wait buf (some (line, rest)) = size_round buf line rest

pub round : Bytes → Mode → Round
unfolding size_or_wait body_round crlf_round split_crlf
round buf size = size_or_wait buf (split_crlf buf)
round buf (body remaining) = body_round buf remaining
round buf crlf = crlf_round buf
round buf finished = halt (record { buf = buf; mode = finished }) true

-- `stuck` is no value of the program: the loop ran out of fuel.
pub data Pushed : Type 0 where
  pushed : Result Decoded ChunkError → Decoder → Pushed
  stuck : Pushed

pub loop : ℕ → Decoder → Bytes → Pushed
unfolding round
loop zero d out = stuck
loop (suc fuel) d out = elim (round d.buf d.mode) [
  | go d' bs ↦ loop fuel d' (out ++ bs)
  | halt d' done ↦ pushed (ok (record { out = out; done = done })) d'
  | fail d' e ↦ pushed (err e) d'
]

-- Each round but the one that leaves an empty chunk takes a byte at least.
abbrev pub fuel_for : Bytes → ℕ
fuel_for buf = 2 * length buf + 2

unfoldable pub push : Decoder → Bytes → Pushed
unfolding loop
push d bytes =
    let buf = d.buf ++ bytes in loop (fuel_for buf) (record { buf = buf; mode = d.mode }) []

unfoldable pub feed_eof : Decoder → Result Bytes ChunkError × Decoder
feed_eof d = elim d.mode [
  | crlf ↦ (ok [], record { buf = []; mode = finished })
  | size ↦
      if length d.buf == 0
      then (ok [], d)
      else (err (malformed "eof mid chunk-size line"), record d { buf = [] })
  | body remaining ↦ (err (malformed "eof mid chunk body"), record d { buf = [] })
  | finished ↦ (ok [], d)
]
