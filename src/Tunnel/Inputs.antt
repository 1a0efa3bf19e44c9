-- ===== src/Tunnel/Inputs.antt =====
-- The inputs of a stream reach its pump in order: what the pump took and what waits for it are what
-- the hub sent since the stream was opened.
use anvil_ring.Base.{
  ℕ, ◌≤◌, ◌≡◌, ◌⊎◌, refl, sym, ap, subst, ◌∙◌, true, Option, none, some, List, [], ◌∷◌, ◌++◌,
  append-nil, Bytes, get, nat_key, length, arith, get-insert, get-remove, length-append, Bool-cases,
  Result, ok, err, inl, inr, ==_iff, ◌==◌, if◌then◌else◌, leb,
}
use anvil_ring.Frames.{
  Frame, hello, welcome, open_frame, data_frame, resp_head, end_frame, half_end, ping, pong,
  go_away,
}
use anvil_ring.Socket.{Fault}
use anvil_ring.Tunnel.{
  StreamHandle, Tether, try_send, remove_stream, insert_stream, enqueue_on, enqueue_stream_input,
  InputSend, accepted, full_input, closed_input, send_input, input_sent, StreamInputResult, queued,
  missing, overloaded, Next, fell, on, broken, sent, after_input, spawn, new_handle, handle_open,
  handle_frame, received, Event, completed, lease_elapsed, ping_due, dead_due, hub_closed, incoming,
  socket_failed, step, settle, turn, Turn, going, over, decode_message, rearm,
}
use anvil_ring.Tunnel.Bounds.{try_send-queued, send_input-accepted}
use anvil_ring.Tunnel.Steps.{input_of, input_in, inputs_of, with_handle}

-- What becomes of the handle of the stream `id`: it is a new one, or the one that was there with
-- the inputs `is` behind those that waited.
abbrev pub Descends : ℕ → List Bytes → Tether → StreamHandle → Type 0
Descends id is s k =
    (h : StreamHandle) × (get id s.streams ≡ some h)
    × (k.pump ≡ h.pump)
    × (k.receiving ≡ true → (h.receiving ≡ true) × (k.held ≡ h.held ++ is))

pub record Kept (id : ℕ) (is : List Bytes) (s s' : Tether) : Type 0 where
  pub grows : length s.spawned ≤ length s'.spawned
  pub handle :
      (k : StreamHandle)
      → get id s'.streams ≡ some k
      → (k.pump ≡ length s.spawned) ⊎ Descends id is s k

same-Kept :
    (id : ℕ) (s s' : Tether) → s'.streams ≡ s.streams → s'.spawned ≡ s.spawned → Kept id [] s s'
same-Kept id s s' e f = record {
  grows = omega (arith, ap length f);
  handle = λ k g. inr (k, ap (get id) (sym e) ∙ g, refl, λ r. (r, sym (append-nil k.held)));
}

KeptNext : ℕ → List Bytes → Tether → Next → Type 0
KeptNext id is s (fell s') = Kept id is s s'
KeptNext id is s (on s') = Kept id is s s'
KeptNext id is s (broken v s') = Unit

remove_stream-Kept : (id j : ℕ) (s : Tether) → Kept id [] s (remove_stream j s)
unfolding remove_stream
remove_stream-Kept id j s = record {
  grows = omega arith;
  handle = λ k g.
      inr
        (k, ground (arith, get-remove j id s.streams, g), refl, λ r. (r, sym (append-nil k.held)));
}

-- A stream that is removed keeps whatever one likes.
remove_stream-gone :
    (id j : ℕ) (is : List Bytes) (s : Tether) → (j == id) ≡ true → Kept id is s (remove_stream j s)
unfolding remove_stream
remove_stream-gone id j is s u = record {
  grows = omega arith;
  handle = λ k g. absurd ground (arith, get-remove j id s.streams, g, u);
}

-- Only the streams and the pumps spawned count.
shown-Kept :
    (id : ℕ) (is : List Bytes) (s0 s s' : Tether)
    → s'.streams ≡ s.streams
    → s'.spawned ≡ s.spawned
    → Kept id is s0 s
    → Kept id is s0 s'
shown-Kept id is s0 s s' e f c = record {
  grows = omega (arith, c.grows, ap length f);
  handle = λ k g. c.handle k (ap (get id) (sym e) ∙ g);
}

sent-Kept :
    (id : ℕ) (is : List Bytes) (s0 : Tether) (next : Tether → Next) (s : Tether) (f : Frame)
    (r : Result Tether Fault)
    → try_send s f ≡ r
    → KeptNext id is s0 (next (record s { queue = s.queue ++ (f ∷ []) }))
    → KeptNext id is s0 (sent next s r)
unfolding KeptNext
sent-Kept id is s0 next s f (ok s') e k =
    subst (λ t. KeptNext id is s0 (next t)) (sym (try_send-queued s f s' e).0) k
sent-Kept id is s0 next s f (err x) e k = tt

open-Kept : (id j : ℕ) (head : Bytes) (s : Tether) → KeptNext id [] s (handle_open j head s)
unfolding KeptNext handle_open spawn insert_stream
open-Kept id j head s = elim (Bool-cases (leb 64 (length s.streams))) [
  | inl t ↦ rw t (sent-Kept id [] s on s _ (try_send s _) refl (same-Kept id s _ refl refl))
  | inr t ↦ rw t (record {
    grows = omega (arith, length-append s.spawned ((j, head) ∷ []));
    handle = λ k g. elim (Bool-cases (j == id)) [
      | inl u ↦ inl (ground (arith, get-insert j id (new_handle s) s.streams, u, g))
      | inr u ↦ inr (
        k,
        ground (arith, get-insert j id (new_handle s) s.streams, u, g),
        refl,
        λ r. (r, sym (append-nil k.held)),
      )
    ];
  })
]

-- The input of one stream, as `id` sees it.
input_for : ℕ → ℕ → Bytes → List Bytes
input_for id j chunk = if j == id then chunk ∷ [] else []

accepted-Kept :
    (id j : ℕ) (chunk : Bytes) (h k : StreamHandle) (s : Tether)
    → get j s.streams ≡ some h
    → send_input chunk h ≡ accepted k
    → Kept id (input_for id j chunk) s (with_handle j k s)
unfolding input_for
accepted-Kept id j chunk h k s e f =
    let (q, l) = send_input-accepted chunk h k f in
    record {
      grows = omega arith;
      handle = λ m g. elim (Bool-cases (j == id)) [
        | inl u ↦ inr (
          h,
          ground (arith, e, u, ==_iff j id),
          ground (arith, get-insert j id k s.streams, u, g, q),
          λ r. rw u (ground (arith, get-insert j id k s.streams, u, g, q, r)),
        )
        | inr u ↦ inr (
          m,
          ground (arith, get-insert j id k s.streams, u, g),
          refl,
          λ r. rw u (r, sym (append-nil m.held)),
        )
      ];
    }

-- Of a channel that its pump has left nothing more is asked.
closed-Kept :
    (id j : ℕ) (chunk : Bytes) (h : StreamHandle) (s : Tether)
    → get j s.streams ≡ some h
    → send_input chunk h ≡ closed_input
    → Kept id (input_for id j chunk) s s
unfolding input_for send_input
closed-Kept id j chunk h s e f = record {
  grows = omega arith;
  handle = λ m g. elim (Bool-cases (j == id)) [
    | inl u ↦ inr (m, g, refl, λ r. absurd ground (arith, e, f, g, r, u, ==_iff j id))
    | inr u ↦ inr (m, g, refl, λ r. rw u (r, sym (append-nil m.held)))
  ];
}

removed-Kept :
    (id j : ℕ) (chunk : Bytes) (s : Tether) → Kept id (input_for id j chunk) s (remove_stream j s)
unfolding input_for
removed-Kept id j chunk s = elim (Bool-cases (j == id)) [
  | inl u ↦ remove_stream-gone id j _ s u
  | inr u ↦ rw u (remove_stream-Kept id j s)
]

missing-Kept :
    (id j : ℕ) (chunk : Bytes) (s : Tether)
    → get j s.streams ≡ none
    → Kept id (input_for id j chunk) s s
unfolding input_for
missing-Kept id j chunk s e = record {
  grows = omega arith;
  handle = λ m g. elim (Bool-cases (j == id)) [
    | inl u ↦ absurd ground (arith, e, g, u, ==_iff j id)
    | inr u ↦ inr (m, g, refl, λ r. rw u (r, sym (append-nil m.held)))
  ];
}

KeptInput : ℕ → List Bytes → Tether → StreamInputResult × Tether → Type 0
KeptInput id is s (r, s') = Kept id is s s'

input_sent-Kept :
    (id j : ℕ) (chunk : Bytes) (h : StreamHandle) (r : InputSend) (s : Tether)
    → get j s.streams ≡ some h
    → send_input chunk h ≡ r
    → KeptInput id (input_for id j chunk) s (input_sent j r s)
unfolding KeptInput input_sent
input_sent-Kept id j chunk h (accepted k) s e f = accepted-Kept id j chunk h k s e f
input_sent-Kept id j chunk h full_input s e f = removed-Kept id j chunk s
input_sent-Kept id j chunk h closed_input s e f = closed-Kept id j chunk h s e f

enqueue-Kept :
    (id j : ℕ) (chunk : Bytes) (o : Option StreamHandle) (s : Tether)
    → get j s.streams ≡ o
    → KeptInput id (input_for id j chunk) s (enqueue_on j chunk o s)
unfolding KeptInput enqueue_on
enqueue-Kept id j chunk none s e = missing-Kept id j chunk s e
enqueue-Kept id j chunk (some h) s e = input_sent-Kept id j chunk h (send_input chunk h) s e refl

after_input-Kept :
    (id j : ℕ) (is : List Bytes) (s : Tether) (p : StreamInputResult × Tether)
    → KeptInput id is s p
    → KeptNext id is s (after_input j p)
unfolding KeptInput KeptNext
after_input-Kept id j is s (queued, s') c = c
after_input-Kept id j is s (missing, s') c = c
after_input-Kept id j is s (overloaded, s') c =
    sent-Kept id is s fell s' _ (try_send s' _) refl (shown-Kept id is s s' _ refl refl c)

handle_frame-Kept :
    (id : ℕ) (f : Frame) (s : Tether) → KeptNext id (input_of id f) s (handle_frame f s)
unfolding KeptNext handle_frame input_of enqueue_stream_input input_for
handle_frame-Kept id ping s =
    sent-Kept id [] s fell s _ (try_send s _) refl (same-Kept id s _ refl refl)
handle_frame-Kept id pong s = same-Kept id s _ refl refl
handle_frame-Kept id (resp_head j head) s = tt
handle_frame-Kept id (go_away reason) s = tt
handle_frame-Kept id (open_frame j head) s = open-Kept id j head s
handle_frame-Kept id (data_frame j chunk) s =
    after_input-Kept id j _ s _ (enqueue-Kept id j chunk (get j s.streams) s refl)
handle_frame-Kept id (half_end j) s =
    after_input-Kept id j _ s _ (enqueue-Kept id j [] (get j s.streams) s refl)
handle_frame-Kept id (end_frame j reason) s = remove_stream-Kept id j s
handle_frame-Kept id (hello credential) s = tt
handle_frame-Kept id (welcome lease_secs) s = tt

received-Kept :
    (id : ℕ) (r : Result (Option Frame) Fault) (s : Tether)
    → KeptNext id (input_in id r) s (received r s)
unfolding KeptNext received
received-Kept id (err e) s = tt
received-Kept id (ok none) s = same-Kept id s _ refl refl
received-Kept id (ok (some f)) s = handle_frame-Kept id f s

step-Kept :
    (id : ℕ) (ev : Event) (now : ℕ) (s : Tether) → KeptNext id (inputs_of id ev) s (step ev now s)
unfolding KeptNext step inputs_of
step-Kept id (completed j) now s = remove_stream-Kept id j s
step-Kept id lease_elapsed now s = tt
step-Kept id ping_due now s =
    sent-Kept id [] s (λ s'. on (rearm now s')) s _ (try_send s _) refl (same-Kept id s _ refl refl)
step-Kept id dead_due now s = tt
step-Kept id hub_closed now s = tt
step-Kept id (incoming m) now s = received-Kept id (decode_message m) s
step-Kept id (socket_failed e) now s = tt

KeptTurn : ℕ → List Bytes → Tether → Turn → Type 0
KeptTurn id is s (going s') = Kept id is s s'
KeptTurn id is s (over v s') = Unit

settle-Kept :
    (id : ℕ) (is : List Bytes) (now : ℕ) (s : Tether) (n : Next)
    → KeptNext id is s n
    → KeptTurn id is s (settle now n)
unfolding KeptNext KeptTurn settle
settle-Kept id is now s (fell s') c = shown-Kept id is s s' _ refl refl c
settle-Kept id is now s (on s') c = c
settle-Kept id is now s (broken v s') c = tt

pub turn-Kept :
    (id : ℕ) (ev : Event) (now : ℕ) (s s' : Tether)
    → turn ev now s ≡ going s'
    → Kept id (inputs_of id ev) s s'
unfolding turn KeptTurn
turn-Kept id ev now s s' e =
    subst (KeptTurn id (inputs_of id ev) s) e
      (settle-Kept id (inputs_of id ev) now s (step ev now s) (step-Kept id ev now s))
