-- ===== src/Tunnel/Steps.antt =====
-- The session with what runs beside its loop: the pumps that read their inputs, finish with them
-- and reply, and the writer of the socket; and how the inputs of one stream reach its pump.
use anvil_ring.Base.{
  ℕ, ◌≤◌, ◌≡◌, refl, ap, Bool, true, false, Option, none, some, List, [], ◌∷◌, ◌++◌, Bytes, get,
  insert, nat_key, length, arith, get-insert, length-insert_present, Result, ok, err, ◌==◌,
  if◌then◌else◌,
}
use anvil_ring.Frames.{Frame, data_frame, half_end}
use anvil_ring.Socket.{Fault}
use anvil_ring.Tunnel.{
  StreamHandle, Tether, heartbeat_at, try_send, Event, incoming, turn, going, decode_message,
}
use anvil_ring.Tunnel.Owned.{empty-Owned, held-Owned}
use anvil_ring.Tunnel.Bounds.{Sound, turn-Sound, try_send-Sound}

-- What a frame, and an event, puts into the channel of a stream.
unfoldable pub input_of : ℕ → Frame → List Bytes
input_of id (data_frame j chunk) = if j == id then chunk ∷ [] else []
input_of id (half_end j) = if j == id then [] ∷ [] else []
input_of id _ = []

abbrev pub input_in : ℕ → Result (Option Frame) Fault → List Bytes
input_in id (ok (some f)) = input_of id f
input_in id (ok none) = []
input_in id (err e) = []

unfoldable pub inputs_of : ℕ → Event → List Bytes
unfolding input_of
inputs_of id (incoming m) = input_in id (decode_message m)
inputs_of id _ = []

abbrev pub with_handle : ℕ → StreamHandle → Tether → Tether
with_handle id h s = record s { streams = insert id h s.streams }

-- One step of the session or of a task beside it, with what it offered to the pump of the stream
-- `id` and what that pump took.
pub data Step (id : ℕ) : List Bytes → List Bytes → Tether → Tether → Type 0 where
  looped :
      {s s' : Tether} (ev : Event) (now : ℕ)
      → turn ev now s ≡ going s'
      → Step id (inputs_of id ev) [] s s'
  took :
      {s : Tether} (h : StreamHandle) (chunk : Bytes) (rest : List Bytes)
      → get id s.streams ≡ some h
      → h.held ≡ chunk ∷ rest
      → Step id [] (chunk ∷ []) s (with_handle id (record h { held = rest }) s)
  other_took :
      {s : Tether} (j : ℕ) (h : StreamHandle) (chunk : Bytes) (rest : List Bytes)
      → (j == id) ≡ false
      → get j s.streams ≡ some h
      → h.held ≡ chunk ∷ rest
      → Step id [] [] s (with_handle j (record h { held = rest }) s)
  finished :
      {s : Tether} (j : ℕ) (h : StreamHandle)
      → get j s.streams ≡ some h
      → Step id [] [] s (with_handle j (record h { held = []; receiving = false }) s)
  replied : {s : Tether} (f : Frame) (s' : Tether) → try_send s f ≡ ok s' → Step id [] [] s s'
  written :
      {s : Tether} (f : Frame) (rest : List Frame)
      → s.queue ≡ f ∷ rest
      → Step id [] [] s (record s { queue = rest })
  writer_gone : {s : Tether} → Step id [] [] s (record s { writer = false; queue = [] })

pub data Run (id : ℕ) (s : Tether) : List Bytes → List Bytes → Tether → Type 0 where
  still : Run id s [] [] s
  then_step :
      {ins outs is os : List Bytes} {s' s'' : Tether}
      → Run id s ins outs s'
      → Step id is os s' s''
      → Run id s (ins ++ is) (outs ++ os) s''

-- The session as `serve_over` starts it, with HELLO sent.
abbrev pub opened : ℕ → Tether
opened now = record {
  streams = [];
  queue = [];
  writer = true;
  hb = heartbeat_at now;
  spawned = [];
  aborted = [];
}

opened-Sound : (now : ℕ) → Sound (opened now)
unfolding get
opened-Sound now = record {
  few = omega arith;
  short = λ id h e. ground arith;
  room = omega arith;
  punctual = refl;
  unarmed = refl;
  owned = empty-Owned;
}

with_handle-Sound :
    (id : ℕ) (h k : StreamHandle) (s : Tether)
    → get id s.streams ≡ some h
    → k.pump ≡ h.pump
    → length k.held ≤ 64
    → Sound s
    → Sound (with_handle id k s)
with_handle-Sound id h k s e u l c = record {
  few = omega (arith, c.few, length-insert_present id h k s.streams e);
  short = λ j m g. ground (arith, get-insert id j k s.streams, c.short j m);
  room = c.room;
  punctual = c.punctual;
  unarmed = c.unarmed;
  owned = held-Owned id s.streams s.aborted (length s.spawned) c.owned h k e u;
}

queue-Sound :
    (q : List Frame) (b : Bool) (s : Tether)
    → length q ≤ 256
    → Sound s
    → Sound (record s { queue = q; writer = b })
queue-Sound q b s l c = record {
  few = c.few;
  short = c.short;
  room = l;
  punctual = c.punctual;
  unarmed = c.unarmed;
  owned = c.owned;
}

Step-Sound : (id : ℕ) {is os : List Bytes} {s s' : Tether} → Step id is os s s' → Sound s → Sound s'
Step-Sound id {s = s} {s' = s'} (looped ev now e) c = turn-Sound ev now s s' e c
Step-Sound id {s = s} (took h chunk rest e f) c =
    with_handle-Sound id h (record h { held = rest }) s e refl
      (ground (arith, c.short id h e, ap length f)) c
Step-Sound id {s = s} (other_took j h chunk rest n e f) c =
    with_handle-Sound j h (record h { held = rest }) s e refl
      (ground (arith, c.short j h e, ap length f)) c
Step-Sound id {s = s} (finished j h e) c =
    with_handle-Sound j h (record h { held = []; receiving = false }) s e refl (omega arith) c
Step-Sound id {s = s} (replied f s' e) c = try_send-Sound s f s' e c
Step-Sound id {s = s} (written f rest e) c =
    queue-Sound rest s.writer s (ground (arith, c.room, ap length e)) c
Step-Sound id {s = s} writer_gone c = queue-Sound [] false s (omega arith) c

pub Run-Sound :
    (id : ℕ) {s s' : Tether} {ins outs : List Bytes} → Run id s ins outs s' → Sound s → Sound s'
Run-Sound id still c = c
Run-Sound id (then_step r t) c = Step-Sound id t (Run-Sound id r c)

-- Whatever happens from the start of a session on, it is sound.
pub reachable-Sound :
    (now id : ℕ) (ins outs : List Bytes) (s : Tether) → Run id (opened now) ins outs s → Sound s
reachable-Sound now id ins outs s r = Run-Sound id r (opened-Sound now)
