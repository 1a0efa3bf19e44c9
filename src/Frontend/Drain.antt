-- ===== src/Frontend/Drain.antt =====
-- What a caller reads from the body of a response.
use anvil_ring.Base.{
  ℕ, zero, suc, ◌≡◌, refl, ap, ◌∙◌, Bool, true, false, none, some, List, [], ◌∷◌, Bytes, length, ok,
  err,
}
use anvil_ring.Hub.State.{StreamState, Outcome, pending, complete, failed}
use anvil_ring.Frontend.{Body, live, waiting, ready, shut, poll_next}

-- The chunks that the polls of a reader return, and whether the body then ended cleanly.
unfoldable pub read : ℕ → Body → StreamState → List Bytes × Bool
read zero b st = ([], false)
read (suc n) b st =
    let p = poll_next true b st in
    let rest = read n p.body p.state in
    elim p.answer [
      | waiting ↦ rest
      | ready o ↦ elim o [
        | none ↦ ([], true)
        | some x ↦ elim x [ ok c ↦ (c ∷ rest.0, rest.1) | err e ↦ ([], false) ]
      ]
    ]

read_all :
    (cs : List Bytes) (st : StreamState)
    → st.outcome ≡ complete
    → st.chunks ≡ cs
    → read (suc (length cs)) (live true) st ≡ (cs, true)
unfolding read poll_next
read_all [] st e h = rw (e, h) refl
read_all (c ∷ cs) st e h =
    rw (e, h)
      (ap (λ r. (c ∷ r.0, r.1))
        (read_all cs (record st { chunks = cs; receiver = false; outcome = complete }) refl refl))

-- A chunk, and what the rest of the polls says.
after_first :
    {P : Type 0} (c : Bytes) (cs out : List Bytes) (r : List Bytes × Bool)
    → ◌≡◌ {A = List Bytes × Bool} (c ∷ r.0, r.1) (out, true)
    → ((rest : List Bytes) → ◌≡◌ {A = List Bytes × Bool} r (rest, true) → P × (cs ≡ rest))
    → P × (c ∷ cs ≡ out)
after_first c cs out r q k =
    let (p, e) = k r.0 (ap (λ b. (r.0, b)) (ap (λ x. x.1) q)) in
    (p, ap (λ x. c ∷ x) e ∙ ap (λ x. x.0) q)

read_some :
    (n : ℕ) (o : Outcome) (cs : List Bytes) (st : StreamState) (out : List Bytes)
    → read n (live true) (record st { outcome = o; chunks = cs }) ≡ (out, true)
    → (o ≡ complete) × (cs ≡ out)
unfolding read poll_next
read_some zero o cs st out q = cc
read_some (suc n) pending [] st out q = read_some n pending [] st out q
read_some (suc n) pending (c ∷ cs) st out q = after_first c cs out _ q (read_some n pending cs st)
read_some (suc n) complete [] st out q = (refl, cc)
read_some (suc n) complete (c ∷ cs) st out q =
    after_first c cs out _ q (read_some n complete cs (shut st))
read_some (suc n) failed cs st out q = cc

-- A reader that polls often enough, while nothing else happens to the stream, reads a complete
-- response to its end: all the queued chunks, in order.
pub read-drains :
    (st : StreamState)
    → st.outcome ≡ complete
    → read (suc (length st.chunks)) (live true) st ≡ (st.chunks, true)
read-drains st e = read_all st.chunks st e refl

-- A reader sees the clean end of a body only if the response is complete and all that was queued
-- has been read.
pub read-genuine :
    (n : ℕ) (st : StreamState) (out : List Bytes)
    → read n (live true) st ≡ (out, true)
    → (st.outcome ≡ complete) × (st.chunks ≡ out)
read-genuine n st out q = read_some n st.outcome st.chunks st out q
