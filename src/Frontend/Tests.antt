-- ===== src/Frontend/Tests.antt =====
-- The theorems on the frontend at concrete inputs.
use anvil_ring.Base.{
  ◌≡◌, ◌<◌, refl, arith, Bool, true, Option, some, List, [], ◌∷◌, Bytes, bytes, ok, bytes_eq,
}
use anvil_ring.Proxy.{authorized, constant_eq, strip_prefix, difference, bit_or, bit_xor}
use anvil_ring.Hub.State.{StreamState, complete, ResponseHead}
use anvil_ring.Hub.Session.{new_stream}
use anvil_ring.Frontend.{
  live, forwarded, handle, republish, caller_status_for, poll_next, Answer, admit_request,
}
use anvil_ring.Frontend.Drain.{read, read-drains}
use anvil_ring.Frontend.Answers.{Answered, handle-Answered}

-- A complete response of two chunks.
abbrev done : StreamState
done = record new_stream { chunks = bytes "ab" ∷ bytes "c" ∷ []; outcome = complete }

read-drains_example : read 3 (live true) done ≡ (bytes "ab" ∷ bytes "c" ∷ [], true)
read-drains_example = read-drains done refl

read-done : read 7 (live true) done ≡ (bytes "ab" ∷ bytes "c" ∷ [], true)
unfolding read poll_next
read-done = refl

abbrev any_fields : List (Bytes × Bytes) → Bool
any_fields hs = true

abbrev teapot : ResponseHead
teapot = record {
  status = 302;
  headers = (bytes "Connection", bytes "x") ∷ (bytes "a", bytes "b") ∷ [];
}

handle-teapot : (handle any_fields (forwarded (ok (some teapot)))).status < 400
unfolding handle republish caller_status_for
handle-teapot = omega arith

-- The token `t`, and a caller that has it.
abbrev bearer_t : Option (Option Bytes)
bearer_t = some (some (bytes "Bearer t"))

abbrev answered : Answer
answered =
    handle any_fields
      (admit_request (bytes "POST") (bytes "/v1") bearer_t (bytes "t") [] (ok (some teapot)))

answered-low : answered.status < 400
unfolding admit_request handle republish caller_status_for bytes_eq authorized constant_eq
    strip_prefix difference bit_or bit_xor
answered-low = omega arith

handle-Answered_example :
    Answered any_fields
      (bytes "POST")
      (bytes "/v1")
      bearer_t
      (bytes "t")
      (ok (some teapot))
      answered
handle-Answered_example =
    handle-Answered any_fields (bytes "POST") (bytes "/v1") bearer_t (bytes "t") []
      (ok (some teapot)) answered-low
