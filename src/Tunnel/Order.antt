-- ===== src/Tunnel/Order.antt =====
-- The order of a stream's inputs, over any run of the session.
use anvil_ring.Base.{
  ℕ, ◌<◌, ◌≡◌, refl, sym, ap, ◌∙◌, true, false, some, List, [], ◌∷◌, ◌++◌, append-nil, append_assoc,
  Bytes, get, get-insert_self, nat_key, length, arith, get-insert, Bool-cases, inl, inr, ◌==◌,
}
use anvil_ring.Tunnel.{StreamHandle, Tether}
use anvil_ring.Tunnel.Bounds.{Sound, try_send-queued}
use anvil_ring.Tunnel.Steps.{
  inputs_of, with_handle, Step, looped, took, other_took, finished, replied, written, writer_gone,
  Run, still, then_step,
}
use anvil_ring.Tunnel.Inputs.{Kept, turn-Kept}

-- While the pump `p` has the stream, what it took and what waits for it are the inputs so far.
record Follows (p id : ℕ) (ins outs : List Bytes) (s : Tether) : Type 0 where
  old : p < length s.spawned
  order :
      (k : StreamHandle)
      → get id s.streams ≡ some k
      → k.pump ≡ p
      → k.receiving ≡ true
      → outs ++ k.held ≡ ins

same-Follows :
    (p id : ℕ) (ins outs : List Bytes) (s s' : Tether)
    → get id s'.streams ≡ get id s.streams
    → s'.spawned ≡ s.spawned
    → Follows p id ins outs s
    → Follows p id (ins ++ []) (outs ++ []) s'
same-Follows p id ins outs s s' e f c = record {
  old = omega (arith, c.old, ap length f);
  order = λ k g u r. rw (append-nil ins, append-nil outs) (c.order k (sym e ∙ g) u r);
}

looped-Follows :
    (p id : ℕ) (ins outs is : List Bytes) (s s' : Tether)
    → Kept id is s s'
    → Follows p id ins outs s
    → Follows p id (ins ++ is) (outs ++ []) s'
looped-Follows p id ins outs is s s' kept c = record {
  old = omega (arith, c.old, kept.grows);
  order = λ k g u r. elim (kept.handle k g) [
    | inl v ↦ absurd omega (arith, c.old)
    | inr (h, e, v, w) ↦
        let (r', q) = w r in
        rw (append-nil outs, q, ← append_assoc outs h.held is, c.order h e (sym v ∙ u) r') refl
  ];
}

inserted_self :
    (id : ℕ) (h k : StreamHandle) (s : Tether)
    → get id (with_handle id h s).streams ≡ some k
    → h ≡ k
inserted_self id h k s g = ground (arith, get-insert_self id h s.streams, g)

took-Follows :
    (p id : ℕ) (ins outs rest : List Bytes) (chunk : Bytes) (h k : StreamHandle) (s : Tether)
    → get id s.streams ≡ some h
    → h.held ≡ chunk ∷ rest
    → Follows p id ins outs s
    → record h { held = rest } ≡ k
    → k.pump ≡ p
    → k.receiving ≡ true
    → (outs ++ (chunk ∷ [])) ++ k.held ≡ ins ++ []
took-Follows p id ins outs rest chunk h k s e f c q u r =
    rw (append-nil ins, append_assoc outs (chunk ∷ []) k.held)
      (ap (λ t. outs ++ (chunk ∷ t)) (sym (ap (λ m. m.held) q))
        ∙ ap (outs ++◌) (sym f)
        ∙ c.order h e (ap (λ m. m.pump) q ∙ u) (ap (λ m. m.receiving) q ∙ r))

finished-Follows :
    (p id j : ℕ) (ins outs : List Bytes) (h : StreamHandle) (s : Tether)
    → get j s.streams ≡ some h
    → Follows p id ins outs s
    → Follows p id
        (ins ++ [])
        (outs ++ [])
        (with_handle j (record h { held = []; receiving = false }) s)
finished-Follows p id j ins outs h s e c = record {
  old = c.old;
  order = λ k g u r. elim (Bool-cases (j == id)) [
    | inl t ↦
        absurd ground
          (arith, g, r, t, get-insert j id (record h { held = []; receiving = false }) s.streams)
    | inr t ↦
        rw (append-nil ins, append-nil outs)
          (c.order k
            (ground
              (arith, g, t, get-insert j id (record h { held = []; receiving = false }) s.streams))
            u r)
  ];
}

Step-Follows :
    (p id : ℕ) (ins outs : List Bytes) {is os : List Bytes} {s s' : Tether}
    → Step id is os s s'
    → Follows p id ins outs s
    → Follows p id (ins ++ is) (outs ++ os) s'
Step-Follows p id ins outs {s = s} {s' = s'} (looped ev now e) c =
    looped-Follows p id ins outs (inputs_of id ev) s s' (turn-Kept id ev now s s' e) c
Step-Follows p id ins outs {s = s} (took h chunk rest e f) c = record {
  old = c.old;
  order = λ k g u r.
      took-Follows p id ins outs rest chunk h k s e f c
        (inserted_self id (record h { held = rest }) k s g) u r;
}
Step-Follows p id ins outs {s = s} (other_took j h chunk rest n e f) c =
    same-Follows p id ins outs s _
      (get-insert j id (record h { held = rest }) s.streams ∙ rw n refl) refl c
Step-Follows p id ins outs {s = s} (finished j h e) c = finished-Follows p id j ins outs h s e c
Step-Follows p id ins outs {s = s} (replied f s' e) c =
    let q = (try_send-queued s f s' e).0 in
    same-Follows p id ins outs s s' (ap (λ t. get id t.streams) q) (ap (λ t. t.spawned) q) c
Step-Follows p id ins outs {s = s} (written f rest e) c = same-Follows p id ins outs s _ refl refl c
Step-Follows p id ins outs {s = s} writer_gone c = same-Follows p id ins outs s _ refl refl c

Run-Follows :
    (p id : ℕ) {s s' : Tether} {ins outs : List Bytes}
    → Run id s ins outs s'
    → Follows p id [] [] s
    → Follows p id ins outs s'
Run-Follows p id still c = c
Run-Follows p id (then_step {ins = ins} {outs = outs} r t) c =
    Step-Follows p id ins outs t (Run-Follows p id r c)

-- From the moment that a stream's pump has taken all its inputs, over any run of the session and
-- of the tasks beside it, as long as this pump has the stream and reads, the inputs that it took
-- with those that wait for it are those that the hub sent for the stream, in order.
pub Run-in_order :
    (id : ℕ) (h k : StreamHandle) (ins outs : List Bytes) (s s' : Tether)
    → Sound s
    → get id s.streams ≡ some h
    → h.held ≡ []
    → Run id s ins outs s'
    → get id s'.streams ≡ some k
    → k.pump ≡ h.pump
    → k.receiving ≡ true
    → outs ++ k.held ≡ ins
Run-in_order id h k ins outs s s' c e f r g u v =
    (Run-Follows h.pump id r (record {
      old = c.owned.bound id h e;
      order = λ m g' u' v'. ground (arith, e, f, g');
    })).order
      k g u v
