-- ===== src/Hub/Upload.antt =====
-- The upload task of `forward_request`: the caller's body, frame by frame, to the tether.
use anvil_ring.Base.{ℕ, List, [], ◌∷◌, Bytes, bytes, get, nat_key, if◌then◌else◌, Result, ok, err}
use anvil_ring.Frames.{Frame, data_frame, half_end, end_frame}
use anvil_ring.Hub.State.{Session, ForwardError, caller_body}
use anvil_ring.Hub.Session.{fail_stream, try_send}
use anvil_ring.Hub.Loop.{put, completed_of, aborting}

-- What `body.frame()` gives until it gives nothing more.
pub data BodyFrame : Type 0 where
  chunk : Bytes → BodyFrame
  trailers broken_body : BodyFrame

-- The frames that the task sends, each once the queue has room, and its result while the tether's
-- queue is there.
unfoldable pub upload_frames : ℕ → List BodyFrame → List Frame
upload_frames id [] = half_end id ∷ []
upload_frames id (chunk [] ∷ body) = upload_frames id body
upload_frames id (chunk (b ∷ bs) ∷ body) = data_frame id (b ∷ bs) ∷ upload_frames id body
upload_frames id (trailers ∷ body) = upload_frames id body
upload_frames id (broken_body ∷ body) = []

unfoldable pub upload_result : List BodyFrame → Result (Unit {0}) ForwardError
upload_result [] = ok tt
upload_result (chunk bs ∷ body) = upload_result body
upload_result (trailers ∷ body) = upload_result body
upload_result (broken_body ∷ body) = err caller_body

-- What follows: a failed upload fails its stream, unless that has ended, and the tether is told.
unfoldable pub upload_over : ℕ → Result (Unit {0}) ForwardError → Session → Session
upload_over id (ok v) s = s
upload_over id (err e) s =
    let s' = put fail_stream id s in
    if completed_of (get id s.states)
    then s
    else aborting s' (try_send s' (end_frame id (bytes "request upload failed")))
