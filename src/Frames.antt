-- ===== src/Frames.antt =====
-- cargo/src/frames.rs: the frames of the tunnel, their encoding and their decoding.
pub mod RoundTrip
pub mod Prefix
pub mod Sound
mod Tests
use anvil_ring.Base.{
  ℕ, ◌+◌, ◌*◌, ◌/◌, ◌%◌, ◌^◌, Bool, true, false, not, ◌&&◌, Option, none, some, List, [], ◌∷◌, ◌++◌,
  String, Bytes, length, take, ltb, ◌==◌, if◌then◌else◌, Result, ok, err, ok_or, ◌>>=◌,
}
use anvil_ring.Text.{from_utf8}
use anvil_ring.Text.Decimal.{from_str_radix, to_decimal}

abbrev pub header_len : ℕ
header_len = 7

-- `1 << 20`
abbrev pub max_payload : ℕ
max_payload = 1048576

abbrev pub t_hello : ℕ
t_hello = 0x01

abbrev pub t_welcome : ℕ
t_welcome = 0x02

abbrev pub t_open : ℕ
t_open = 0x03

abbrev pub t_data : ℕ
t_data = 0x04

abbrev pub t_end : ℕ
t_end = 0x05

abbrev pub t_ping : ℕ
t_ping = 0x06

abbrev pub t_pong : ℕ
t_pong = 0x07

abbrev pub t_goaway : ℕ
t_goaway = 0x08

abbrev pub t_half_end : ℕ
t_half_end = 0x09

abbrev pub t_resp_head : ℕ
t_resp_head = 0x0a

-- The stream id, where there is one, comes first. (`open` and `data` are reserved words here.)
pub data Frame : Type 0 where
  hello : Bytes → Frame
  welcome : ℕ → Frame
  open_frame : ℕ → Bytes → Frame
  data_frame : ℕ → Bytes → Frame
  resp_head : ℕ → Bytes → Frame
  end_frame : ℕ → Bytes → Frame
  half_end : ℕ → Frame
  ping : Frame
  pong : Frame
  go_away : Bytes → Frame

pub data FrameError : Type 0 where
  too_long : ℕ → FrameError
  unknown_type : ℕ → FrameError
  malformed : String → FrameError

unfoldable pub type_tag : Frame → ℕ
type_tag (hello credential) = t_hello
type_tag (welcome lease_secs) = t_welcome
type_tag (open_frame stream head) = t_open
type_tag (resp_head stream head) = t_resp_head
type_tag (data_frame stream chunk) = t_data
type_tag (end_frame stream reason) = t_end
type_tag ping = t_ping
type_tag pong = t_pong
type_tag (go_away reason) = t_goaway
type_tag (half_end stream) = t_half_end

-- `Frame::stream`. A HALF_END falls under the source's catch-all arm.
unfoldable pub stream_of : Frame → ℕ
stream_of (open_frame stream head) = stream
stream_of (data_frame stream chunk) = stream
stream_of (resp_head stream head) = stream
stream_of (end_frame stream reason) = stream
stream_of _ = 0

abbrev pub to_be_u16 : ℕ → Bytes
to_be_u16 n = (n / 256 % 256) ∷ (n % 256) ∷ []

abbrev pub to_be_u32 : ℕ → Bytes
to_be_u32 n = (n / 16777216 % 256) ∷ (n / 65536 % 256) ∷ (n / 256 % 256) ∷ (n % 256) ∷ []

abbrev pub from_be_u16 : ℕ → ℕ → ℕ
from_be_u16 b1 b0 = b1 * 256 + b0

abbrev pub from_be_u32 : ℕ → ℕ → ℕ → ℕ → ℕ
from_be_u32 b3 b2 b1 b0 = b3 * 16777216 + b2 * 65536 + b1 * 256 + b0

-- `payload.len() as u32` keeps the low 32 bits.
pub with_header : ℕ → ℕ → Bytes → Bytes
with_header kind stream payload =
    kind ∷ (to_be_u16 stream ++ (to_be_u32 (length payload % 2 ^ 32) ++ payload))

unfoldable pub encode : Frame → Bytes
unfolding with_header type_tag
encode (hello credential) = with_header t_hello 0 credential
encode (welcome lease_secs) = with_header t_welcome 0 (to_decimal lease_secs)
encode (open_frame stream head) = with_header t_open stream head
encode (data_frame stream chunk) = with_header t_data stream chunk
encode (resp_head stream head) = with_header t_resp_head stream head
encode (half_end stream) = with_header t_half_end stream []
encode (end_frame stream reason) = with_header t_end stream reason
encode ping = with_header t_ping 0 []
encode pong = with_header t_pong 0 []
encode (go_away reason) = with_header t_goaway 0 reason

pub decode_welcome : Bytes → Result Frame FrameError
decode_welcome payload = do
  s ← ok_or (from_utf8 payload) (malformed "welcome not utf8")
  lease_secs ← ok_or (from_str_radix 10 s) (malformed "bad lease")
  ok (welcome lease_secs)

-- The `match kind` of `decode`.
pub decode_payload : ℕ → ℕ → Bytes → Result Frame FrameError
decode_payload kind stream payload =
    if kind == t_hello
    then ok (hello payload)
    else if kind == t_welcome
    then decode_welcome payload
    else if kind == t_open
    then ok (open_frame stream payload)
    else if kind == t_data
    then ok (data_frame stream payload)
    else if kind == t_resp_head
    then ok (resp_head stream payload)
    else if kind == t_half_end
    then (if not (length payload == 0)
        then err (malformed "HALF_END must be empty")
        else ok (half_end stream))
    else if kind == t_end
    then ok (end_frame stream payload)
    else if kind == t_ping
    then ok ping
    else if kind == t_pong
    then ok pong
    else if kind == t_goaway
    then ok (go_away payload)
    else err (unknown_type kind)

abbrev pub is_control : Frame → Bool
is_control (hello credential) = true
is_control (welcome lease_secs) = true
is_control ping = true
is_control pong = true
is_control (go_away reason) = true
is_control _ = false

-- Control frames must not claim a stream.
abbrev pub check_control : ℕ → ℕ → Frame → Result (Option (Frame × ℕ)) FrameError
check_control stream total frame =
    if is_control frame && not (stream == 0)
    then err (malformed "control frame with nonzero stream id")
    else ok (some (frame, total))

pub decode_body : ℕ → ℕ → ℕ → Bytes → Result (Option (Frame × ℕ)) FrameError
decode_body kind stream len rest =
    if ltb max_payload len
    then err (too_long len)
    else if ltb (header_len + length rest) (header_len + len)
    then ok none
    else decode_payload kind stream (take len rest) >>= check_control stream (header_len + len)

-- `Frame::decode`: fewer than `header_len` bytes are no frame yet.
unfoldable pub decode : Bytes → Result (Option (Frame × ℕ)) FrameError
unfolding decode_body decode_payload decode_welcome
decode (kind ∷ s1 ∷ s0 ∷ l3 ∷ l2 ∷ l1 ∷ l0 ∷ rest) =
    decode_body kind (from_be_u16 s1 s0) (from_be_u32 l3 l2 l1 l0) rest
decode _ = ok none
