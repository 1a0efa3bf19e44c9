-- ===== src/Frontend/Answers.antt =====
-- What a caller is told.
use anvil_ring.Base.{
  ℕ, ◌<◌, ◌≡◌, refl, Bool, false, Option, none, some, List, [], ◌∷◌, Bytes, Result, ok, err, arith,
  All, Bool-cases, inl, inr, ◌⊎◌, ◌&&◌, true, bytes, bytes_eq, bytes_eq_iff,
}
use anvil_ring.Text.{eq_ignore_ascii_case}
use anvil_ring.Headers.{is_hop_by_hop}
use anvil_ring.Hub.State.{
  ResponseHead, ForwardError, no_tether, revoked, exhausted, tether_gone, tether_busy, caller_body,
}
use anvil_ring.Hub.Registry.{TetherState}
use anvil_ring.Proxy.{authorized}
use anvil_ring.Frontend.{
  streamed, forwarded, error_response, caller_status_for, status_of, end_to_end, republish, handle,
  Answer, admit_request,
}

Clean : List (Bytes × Bytes) → Type 0
Clean hs = All (λ h. is_hop_by_hop h.0 ≡ false) hs

end_to_end-Clean : (hs : List (Bytes × Bytes)) → Clean (end_to_end hs)
unfolding Clean end_to_end
end_to_end-Clean [] = tt
end_to_end-Clean ((name, value) ∷ hs) = elim (Bool-cases (is_hop_by_hop name)) [
  | inl e ↦ rw e (end_to_end-Clean hs)
  | inr e ↦ rw e (e, end_to_end-Clean hs)
]

-- Fields that are all end-to-end cross as they are.
pub end_to_end-own :
    (hs : List (Bytes × Bytes)) → All (λ h. is_hop_by_hop h.0 ≡ false) hs → end_to_end hs ≡ hs
unfolding end_to_end
end_to_end-own [] a = refl
end_to_end-own ((name, value) ∷ hs) (e, a) = rw (e, end_to_end-own hs a) refl

error_response-Clean : (n : ℕ) → Clean (error_response n).headers
unfolding Clean is_hop_by_hop eq_ignore_ascii_case
error_response-Clean n = (refl, tt)

unauthorized_high : ¬ (401 < 400)
unauthorized_high h = omega (arith, h)

module _ (http_accepts : List (Bytes × Bytes) → Bool) where
  -- A forwarded request is answered with a status below 400 only by the engine's own head, whose
  -- status it is, and with the engine's body.
  pub handle-faithful :
      (r : Result (Option ResponseHead) ForwardError)
      → (handle http_accepts (forwarded r)).status < 400
      → (head : ResponseHead) × (r ≡ ok (some head))
        × ((handle http_accepts (forwarded r)).status ≡ head.status)
        × ((handle http_accepts (forwarded r)).content ≡ streamed)
  unfolding handle republish caller_status_for
  handle-faithful (ok none) h = absurd (omega (arith, h))
  handle-faithful (ok (some head)) h = (head, refl, ground arith, ground arith)
  handle-faithful (err no_tether) h = absurd (omega (arith, h))
  handle-faithful (err revoked) h = absurd (omega (arith, h))
  handle-faithful (err exhausted) h = absurd (omega (arith, h))
  handle-faithful (err tether_gone) h = absurd (omega (arith, h))
  handle-faithful (err tether_busy) h = absurd (omega (arith, h))
  handle-faithful (err caller_body) h = absurd (omega (arith, h))

  -- No hop-by-hop field of the engine's head crosses to the caller.
  pub handle-Clean :
      (r : Result (Option ResponseHead) ForwardError)
      → All (λ h. is_hop_by_hop h.0 ≡ false) (handle http_accepts (forwarded r)).headers
  unfolding handle republish Clean
  handle-Clean (err e) = error_response-Clean (status_of e)
  handle-Clean (ok none) = error_response-Clean (caller_status_for none)
  handle-Clean (ok (some head)) = elim (Bool-cases (http_accepts (end_to_end head.headers))) [
    | inl e ↦ rw e (end_to_end-Clean head.headers)
    | inr e ↦ rw e (error_response-Clean 500)
  ]

  -- What an answer below 400 says of the request: a liveness check, or a right token and the engine's own
  -- head.
  abbrev pub Answered :
      Bytes
      → Bytes
      → Option (Option Bytes)
      → Bytes
      → Result (Option ResponseHead) ForwardError
      → Answer
      → Type 0
  Answered method path header token result a =
      ((method ≡ bytes "GET") × (path ≡ bytes "/healthz"))
      ⊎ ((authorized header token ≡ true)
          × ((head : ResponseHead) × (result ≡ ok (some head))
              × (a.status ≡ head.status)
              × (a.content ≡ streamed)))

  -- A status below 400 is only given to a liveness check, or to a caller with a right token for the head
  -- of the engine, with the status of the head and the engine's body.
  pub handle-Answered :
      (method path : Bytes) (header : Option (Option Bytes)) (token : Bytes)
      (status : List (Bytes × Bytes × TetherState))
      (result : Result (Option ResponseHead) ForwardError)
      → (handle http_accepts (admit_request method path header token status result)).status < 400
      → Answered method path header token result
          (handle http_accepts (admit_request method path header token status result))
  unfolding admit_request handle
  handle-Answered method path header token status result h =
      elim (Bool-cases (bytes_eq method (bytes "GET") && bytes_eq path (bytes "/healthz"))) [
        | inl e ↦ inl (
            ground
              (arith, e, bytes_eq_iff method (bytes "GET"), bytes_eq_iff path (bytes "/healthz")))
        | inr e ↦ elim (Bool-cases (authorized header token)) [
          | inl a ↦ rw (e, a) (inr (refl, handle-faithful result (rw (e, a) at h)))
          | inr a ↦ absurd (unauthorized_high (rw (e, a) at h))
        ]
      ]
