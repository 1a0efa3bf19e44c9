-- ===== src/Tunnel/Pump.antt =====
-- `forward_engine`: the request's body as the engine's connection reads it, and the frames that its
-- response becomes.
use anvil_ring.Base.{ℕ, Bool, true, false, if◌then◌else◌, List, [], ◌∷◌, ◌++◌, Bytes, bytes}
use anvil_ring.Frames.{Frame, data_frame, resp_head, end_frame}

-- How far the body has come: it waits for the hub, it is over, or it ends too early.
pub data BodyEnd : Type 0 where
  waiting clean unexpected_eof : BodyEnd

abbrev pub behind : Bytes → List Bytes × BodyEnd → List Bytes × BodyEnd
behind chunk (chunks, end) = (chunk ∷ chunks, end)

-- The stream that `unfold` makes of the channel's inputs, and of whether the session has dropped
-- its end of the channel. An empty input is HALF_END.
unfoldable pub request_body : List Bytes → Bool → List Bytes × BodyEnd
request_body [] gone = ([], if gone then unexpected_eof else waiting)
request_body ([] ∷ rest) gone = ([], clean)
request_body ((b ∷ bs) ∷ rest) gone = behind (b ∷ bs) (request_body rest gone)

-- What the engine's response body gives, frame by frame.
pub data ResponseFrame : Type 0 where
  chunk : Bytes → ResponseFrame
  trailers broken_body : ResponseFrame

-- The DATA frames of the response, and whether the pump reaches its end.
unfoldable pub response_frames : ℕ → List ResponseFrame → List Frame × Bool
response_frames id [] = ([], true)
response_frames id (chunk [] ∷ body) = response_frames id body
response_frames id (chunk (b ∷ bs) ∷ body) =
    let (frames, reached) = response_frames id body in (data_frame id (b ∷ bs) ∷ frames, reached)
response_frames id (trailers ∷ body) = response_frames id body
response_frames id (broken_body ∷ body) = ([], false)

-- All that the pump of a stream sends when the engine has answered with `head` and `body`, and
-- when it fails before.
abbrev pub end_reason : Bool → Bytes
end_reason true = []
end_reason false = bytes "engine request or response failed"

unfoldable pub pump_frames : ℕ → Bytes → List ResponseFrame → List Frame
unfolding response_frames
pump_frames id head body =
    let (frames, reached) = response_frames id body in
    resp_head id head ∷ (frames ++ (end_frame id (end_reason reached) ∷ []))

unfoldable pub failed_pump_frames : ℕ → List Frame
failed_pump_frames id = end_frame id (end_reason false) ∷ []
