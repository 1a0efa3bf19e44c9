-- ===== src/Tunnel/Bounds.antt =====
-- What every turn of the tether's session keeps: the bounds on streams and queues, and which
-- pumps run.
use anvil_ring.Base.{
  ℕ, ◌≤◌, ◌<◌, ◌≡◌, refl, sym, subst, true, Option, none, some, [], ◌∷◌, ◌++◌, Bytes, get, nat_key,
  length, mem, arith, get-insert, get-remove, length-append, length-remove, length-insert,
  length-insert_present, Bool-cases, Result, ok, err, inl, inr, leb,
}
use anvil_ring.Frames.{
  Frame, hello, welcome, open_frame, data_frame, resp_head, end_frame, half_end, ping, pong,
  go_away,
}
use anvil_ring.Socket.{Fault}
use anvil_ring.Tunnel.{
  StreamHandle, Tether, reset, try_send, remove_stream, insert_stream, enqueue_on,
  enqueue_stream_input, InputSend, accepted, full_input, closed_input, send_input, input_sent,
  StreamInputResult, queued, missing, overloaded, Next, fell, on, broken, sent, after_input, spawn,
  new_handle, handle_open, handle_frame, received, Event, completed, lease_elapsed, ping_due,
  dead_due, hub_closed, incoming, socket_failed, step, clear, settle, turn, Turn, going, over,
  decode_message, heard, rearm, either_way,
}
use anvil_ring.Tunnel.Owned.{Owned, remove-Owned, insert-Owned, held-Owned, cleared}

pub record Sound (s : Tether) : Type 0 where
  pub few : length s.streams ≤ 64
  pub short : (id : ℕ) (h : StreamHandle) → get id s.streams ≡ some h → length h.held ≤ 64
  pub room : length s.queue ≤ 256
  pub punctual : s.hb.overdue ≡ 0
  pub unarmed : s.hb.pong_deadline ≡ none
  pub owned : Owned s.streams s.aborted (length s.spawned)

-- What `try_send` does, where it does not refuse.
pub try_send-queued :
    (s : Tether) (f : Frame) (s' : Tether)
    → try_send s f ≡ ok s'
    → (s' ≡ record s { queue = s.queue ++ (f ∷ []) }) × (length s.queue < 256)
unfolding try_send
try_send-queued s f s' e = ground arith

queued-Sound :
    (s : Tether) (f : Frame)
    → length s.queue < 256
    → Sound s
    → Sound (record s { queue = s.queue ++ (f ∷ []) })
queued-Sound s f l c = record {
  few = c.few;
  short = c.short;
  room = omega (arith, length-append s.queue (f ∷ []));
  punctual = c.punctual;
  unarmed = c.unarmed;
  owned = c.owned;
}

pub try_send-Sound :
    (s : Tether) (f : Frame) (s' : Tether) → try_send s f ≡ ok s' → Sound s → Sound s'
try_send-Sound s f s' e c =
    let (q, l) = try_send-queued s f s' e in subst Sound (sym q) (queued-Sound s f l c)

pub SoundNext : Next → Type 0
SoundNext (fell s) = Sound s
SoundNext (on s) = Sound s
SoundNext (broken v s) = Sound s

sent-Sound :
    (next : Tether → Next) (s : Tether) (f : Frame) (r : Result Tether Fault)
    → try_send s f ≡ r
    → ((s' : Tether) → Sound s' → SoundNext (next s'))
    → Sound s
    → SoundNext (sent next s r)
unfolding SoundNext
sent-Sound next s f (ok s') e k c = k s' (try_send-Sound s f s' e c)
sent-Sound next s f (err x) e k c = c

pub remove_stream-Sound : (id : ℕ) (s : Tether) → Sound s → Sound (remove_stream id s)
unfolding remove_stream
remove_stream-Sound id s c = record {
  few = omega (arith, c.few, length-remove id s.streams);
  short = λ j h e. ground (arith, get-remove id j s.streams, c.short j h);
  room = c.room;
  punctual = c.punctual;
  unarmed = c.unarmed;
  owned = remove-Owned id s.streams s.aborted (length s.spawned) c.owned;
}

spawn-Sound :
    (id : ℕ) (head : Bytes) (s : Tether) → length s.streams < 64 → Sound s → Sound (spawn id head s)
unfolding spawn insert_stream
spawn-Sound id head s l c = record {
  few = omega (arith, length-insert id (new_handle s) s.streams);
  short = λ j h e. ground (arith, get-insert id j (new_handle s) s.streams, c.short j h);
  room = c.room;
  punctual = c.punctual;
  unarmed = c.unarmed;
  owned =
      subst (Owned _ _) (sym (length-append s.spawned ((id, head) ∷ [])))
        (insert-Owned id s.streams s.aborted (length s.spawned) c.owned (new_handle s) refl);
}

open-Sound : (id : ℕ) (head : Bytes) (s : Tether) → Sound s → SoundNext (handle_open id head s)
unfolding SoundNext handle_open
open-Sound id head s c = elim (Bool-cases (leb 64 (length s.streams))) [
  | inl t ↦ rw t (sent-Sound on s _ (try_send s _) refl (λ s' k. k) c)
  | inr t ↦ rw t (spawn-Sound id head s (ground (arith, t)) c)
]

abbrev SoundInput : StreamInputResult × Tether → Type 0
SoundInput (r, s) = Sound s

-- An input that is accepted waits behind the others of its stream.
pub send_input-accepted :
    (chunk : Bytes) (h k : StreamHandle)
    → send_input chunk h ≡ accepted k
    → (k ≡ record h { held = h.held ++ (chunk ∷ []) }) × (length h.held < 64)
unfolding send_input
send_input-accepted chunk h k e = ground arith

input_sent-Sound :
    (id : ℕ) (chunk : Bytes) (h : StreamHandle) (r : InputSend) (s : Tether)
    → get id s.streams ≡ some h
    → send_input chunk h ≡ r
    → Sound s
    → SoundInput (input_sent id r s)
unfolding input_sent
input_sent-Sound id chunk h full_input s e f c = remove_stream-Sound id s c
input_sent-Sound id chunk h closed_input s e f c = c
input_sent-Sound id chunk h (accepted k) s e f c =
    let (q, l) = send_input-accepted chunk h k f in
    record {
      few = omega (arith, c.few, length-insert_present id h k s.streams e);
      short = λ j m g.
          ground
            (arith, q, get-insert id j k s.streams, length-append h.held (chunk ∷ []), c.short j m);
      room = c.room;
      punctual = c.punctual;
      unarmed = c.unarmed;
      owned =
          held-Owned id s.streams s.aborted (length s.spawned) c.owned h k e (ground (arith, q));
    }

enqueue-Sound :
    (id : ℕ) (chunk : Bytes) (o : Option StreamHandle) (s : Tether)
    → get id s.streams ≡ o
    → Sound s
    → SoundInput (enqueue_on id chunk o s)
unfolding enqueue_on
enqueue-Sound id chunk none s e c = c
enqueue-Sound id chunk (some h) s e c = input_sent-Sound id chunk h (send_input chunk h) s e refl c

after_input-Sound :
    (id : ℕ) (p : StreamInputResult × Tether) → SoundInput p → SoundNext (after_input id p)
unfolding SoundNext
after_input-Sound id (queued, s) c = c
after_input-Sound id (missing, s) c = c
after_input-Sound id (overloaded, s) c = sent-Sound fell s _ (try_send s _) refl (λ s' k. k) c

heard-Sound : (s : Tether) → Sound s → Sound (heard s)
heard-Sound s c = record {
  few = c.few;
  short = c.short;
  room = c.room;
  punctual = refl;
  unarmed = refl;
  owned = c.owned;
}

handle_frame-Sound : (f : Frame) (s : Tether) → Sound s → SoundNext (handle_frame f s)
unfolding SoundNext handle_frame enqueue_stream_input
handle_frame-Sound ping s c = sent-Sound fell s _ (try_send s _) refl (λ s' k. k) c
handle_frame-Sound pong s c = heard-Sound s c
handle_frame-Sound (resp_head id head) s c = c
handle_frame-Sound (go_away reason) s c = c
handle_frame-Sound (open_frame id head) s c = open-Sound id head s c
handle_frame-Sound (data_frame id chunk) s c =
    after_input-Sound id _ (enqueue-Sound id chunk (get id s.streams) s refl c)
handle_frame-Sound (half_end id) s c =
    after_input-Sound id _ (enqueue-Sound id [] (get id s.streams) s refl c)
handle_frame-Sound (end_frame id reason) s c = remove_stream-Sound id s c
handle_frame-Sound (hello credential) s c = c
handle_frame-Sound (welcome lease_secs) s c = c

received-Sound : (r : Result (Option Frame) Fault) (s : Tether) → Sound s → SoundNext (received r s)
unfolding SoundNext received
received-Sound (err e) s c = c
received-Sound (ok none) s c = c
received-Sound (ok (some f)) s c = handle_frame-Sound f s c

rearm-Sound : (now : ℕ) (s : Tether) → Sound s → Sound (rearm now s)
rearm-Sound now s c = record {
  few = c.few;
  short = c.short;
  room = c.room;
  punctual = c.punctual;
  unarmed = c.unarmed;
  owned = c.owned;
}

either-Sound :
    (s : Tether) (f : Frame) (r : Result Tether Fault)
    → try_send s f ≡ r
    → Sound s
    → Sound (either_way s r)
either-Sound s f (ok s') e c = try_send-Sound s f s' e c
either-Sound s f (err x) e c = c

step-Sound : (ev : Event) (now : ℕ) (s : Tether) → Sound s → SoundNext (step ev now s)
unfolding SoundNext step
step-Sound (completed id) now s c = remove_stream-Sound id s c
step-Sound lease_elapsed now s c = either-Sound s _ (try_send s _) refl c
step-Sound ping_due now s c =
    sent-Sound (λ s'. on (rearm now s')) s _ (try_send s _) refl (rearm-Sound now) c
step-Sound dead_due now s c = c
step-Sound hub_closed now s c = c
step-Sound (incoming m) now s c = received-Sound (decode_message m) s c
step-Sound (socket_failed e) now s c = c

-- A session that has ended has no stream, and every pump that it spawned has been aborted.
unfoldable pub Ended : Tether → Type 0
Ended s =
    (s.streams ≡ [])
    × (length s.queue ≤ 256)
    × ((p : ℕ) → p < length s.spawned → mem p s.aborted ≡ true)

unfoldable pub Keeps : Turn → Type 0
Keeps (going s) = Sound s
Keeps (over v s) = Ended s

reset-Sound : (now : ℕ) (s : Tether) → Sound s → Sound (record s { hb = reset now s.hb })
unfolding reset
reset-Sound now s c = record {
  few = c.few;
  short = c.short;
  room = c.room;
  punctual = ground (arith, c.punctual, c.unarmed);
  unarmed = c.unarmed;
  owned = c.owned;
}

settle-Keeps : (now : ℕ) (n : Next) → SoundNext n → Keeps (settle now n)
unfolding SoundNext Keeps Ended settle clear
settle-Keeps now (fell s) c = reset-Sound now s c
settle-Keeps now (on s) c = c
settle-Keeps now (broken v s) c =
    (refl, c.room, cleared s.streams s.aborted (length s.spawned) c.owned)

-- A turn of the tether's loop keeps at most 64 streams, at most 64 inputs waiting for each and at
-- most 256 frames waiting for the socket, never counts a late pong, and lets a pump run exactly
-- while its handle is in the map; the turn that ends the session leaves no stream and no pump that
-- has not been aborted.
pub turn-Keeps : (ev : Event) (now : ℕ) (s : Tether) → Sound s → Keeps (turn ev now s)
unfolding turn
turn-Keeps ev now s c = settle-Keeps now (step ev now s) (step-Sound ev now s c)

pub turn-Sound :
    (ev : Event) (now : ℕ) (s s' : Tether) → turn ev now s ≡ going s' → Sound s → Sound s'
unfolding Keeps
turn-Sound ev now s s' e c = subst Keeps e (turn-Keeps ev now s c)
