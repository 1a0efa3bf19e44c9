-- ===== src/Chunked/Split.antt =====
-- Where the reads end does not matter: `push` of two pieces is `push` of both together.
use anvil_ring.Base.{
  ℕ, zero, suc, ◌+◌, ◌-◌, ◌≤◌, ◌<◌, ◌≡◌, refl, sym, ap, subst, ap₂, ◌∙◌, Bool, true, false, [], ◌∷◌,
  ◌++◌, some, arith, Bytes, length, length-append, take, drop, take-append_le, drop-append_le,
  take_all, append-nil, append_assoc, drop_all, take-append_add, drop-append_add, min, ok, err,
  Option-cases, Result-cases, Bool-cases, ◌&&◌, ◌==◌, if◌then◌else◌, inl, inr,
}
use anvil_ring.Chunked.{
  ChunkError, malformed, Mode, size, body, crlf, finished, Decoder, go, halt, fail, Pushed, pushed,
  stuck, round, loop, push, fuel_for, split_crlf, size_round, body_round, crlf_round, parse_size,
  failed,
}
use anvil_ring.Chunked.Loop.{
  measure, empty_chunk-le, Round-cases, round-measure, run_halt, run_fail, loop_go, run, run_go,
  loop_halt, loop_fail, push-run,
}
use native.Mathlib.Decide.{dec_lt}

split_crlf-append :
    (buf more line rest : Bytes)
    → split_crlf buf ≡ some (line, rest)
    → split_crlf (buf ++ more) ≡ some (line, rest ++ more)
unfolding split_crlf
split_crlf-append [] more line rest e = cc
split_crlf-append (a ∷ []) more line rest e = cc
split_crlf-append (a ∷ b ∷ bs) more line rest e = elim (Option-cases (split_crlf (b ∷ bs))) [
  | inl stop ↦ ground (arith, stop)
  | inr ((l, r), found) ↦ ground (arith, found, split_crlf-append (b ∷ bs) more l r found)
]

abbrev extend : Decoder → Bytes → Decoder
extend d more = record d { buf = d.buf ++ more }

-- A round that finds at least one byte of the chunk.
take_round :
    (buf : Bytes) (n taken : ℕ)
    → 0 < taken
    → min n (length buf) ≡ taken
    → body_round buf n
      ≡ go
          (record {
            buf = drop taken buf;
            mode = if n - taken == 0 then crlf else body (n - taken);
          })
          (take taken buf)
unfolding body_round
take_round buf n taken h e = ground arith

full_round :
    (buf : Bytes) (n : ℕ)
    → suc n ≤ length buf
    → body_round buf (suc n)
      ≡ go (record { buf = drop (suc n) buf; mode = crlf }) (take (suc n) buf)
full_round buf n h = ground (arith, take_round buf (suc n) (suc n))

-- How a round on `buf` compares with the round that has `more` bytes behind.
data Extends (buf more : Bytes) (m : Mode) : Type 0 where
  waits : round buf m ≡ halt (record { buf = buf; mode = m }) false → Extends buf more m
  ends :
      (d d' : Decoder)
      → round buf m ≡ halt d true
      → round (buf ++ more) m ≡ halt d' true
      → Extends buf more m
  fails :
      (d d' : Decoder) (e : ChunkError)
      → round buf m ≡ fail d e
      → round (buf ++ more) m ≡ fail d' e
      → Extends buf more m
  goes :
      (d : Decoder) (bs : Bytes)
      → round buf m ≡ go d bs
      → round (buf ++ more) m ≡ go (extend d more) bs
      → Extends buf more m
  -- a chunk of which `buf` holds a part only
  short : (n : ℕ) → m ≡ body n → 0 < length buf → length buf < n → Extends buf more m

size-Extends : (buf more : Bytes) → Extends buf more size
unfolding round size_round failed
size-Extends buf more = elim (Option-cases (split_crlf buf)) [
  | inl stop ↦ waits (ground (arith, stop))
  | inr ((line, rest), found) ↦
      let longer = split_crlf-append buf more line rest found in
      elim (Result-cases (parse_size line)) [
        | inl (zero, got) ↦
            ends (record { buf = []; mode = finished }) (record { buf = []; mode = finished })
              (ground (arith, found, got)) (ground (arith, longer, got))
        | inl (suc n, got) ↦
            goes (record { buf = rest; mode = body (suc n) }) [] (ground (arith, found, got))
              (ground (arith, longer, got))
        | inr (x, bad) ↦
            fails (record { buf = buf; mode = finished })
              (record { buf = buf ++ more; mode = finished }) x (ground (arith, found, bad))
              (ground (arith, longer, bad))
      ]
]

body-Extends : (buf more : Bytes) (n : ℕ) → Extends buf more (body n)
unfolding round body_round
body-Extends buf more zero = goes (record { buf = buf; mode = crlf }) [] refl refl
body-Extends [] more (suc n) = waits (ground arith)
body-Extends (b ∷ bs) more (suc n) = elim (dec_lt (length (b ∷ bs)) (suc n)) [
  | yes part ↦ short (suc n) refl (omega arith) part
  | no whole ↦
      goes (record { buf = drop (suc n) (b ∷ bs); mode = crlf }) (take (suc n) (b ∷ bs))
        (full_round (b ∷ bs) n (omega arith))
        (full_round (b ∷ (bs ++ more)) n (omega (arith, length-append bs more))
          ∙ ap₂ (λ (r o : Bytes). go (record { buf = r; mode = crlf }) o)
              (drop-append_le (suc n) (b ∷ bs) more (omega arith))
              (take-append_le (suc n) (b ∷ bs) more (omega arith)))
]

crlf-Extends : (buf more : Bytes) → Extends buf more crlf
unfolding round crlf_round failed
crlf-Extends [] more = waits refl
crlf-Extends (a ∷ []) more = waits refl
crlf-Extends (a ∷ b ∷ rest) more = elim (Bool-cases (a == 13 && b == 10)) [
  | inl e ↦ goes (record { buf = rest; mode = size }) [] (rw e) (rw e)
  | inr e ↦
      fails (record { buf = a ∷ b ∷ rest; mode = finished })
        (record { buf = a ∷ b ∷ (rest ++ more); mode = finished })
        (malformed "missing CRLF after chunk") (rw e) (rw e)
]

round-Extends : (buf more : Bytes) (m : Mode) → Extends buf more m
round-Extends buf more size = size-Extends buf more
round-Extends buf more (body n) = body-Extends buf more n
round-Extends buf more crlf = crlf-Extends buf more
round-Extends buf more finished = unfold round in ends _ _ refl refl

-- What `push` of more bytes makes of a result.
abbrev Resumes : Bool → Bytes → Decoder → Bytes → Pushed → Type 0
Resumes true out d more p =
    (d' : Decoder) × (p ≡ pushed (ok (record { out = out; done = true })) d')
Resumes false out d more p = p ≡ run (extend d more) out

abbrev Agrees : Pushed → Bytes → Pushed → Type 0
Agrees (pushed (ok r) d) more p = Resumes r.done r.out d more p
Agrees (pushed (err e) d) more p = (d' : Decoder) × (p ≡ pushed (err e) d')
Agrees stuck more p = ⊥

-- A part of a chunk is handed out, and what follows continues it.
part_round :
    (buf : Bytes) (n : ℕ)
    → 0 < length buf
    → length buf < n
    → round buf (body n) ≡ go (record { buf = []; mode = body (n - length buf) }) buf
unfolding round
part_round buf n h k =
    ground
      (arith, take_round buf n (length buf), drop_all (length buf) buf, take_all (length buf) buf)

body_of : (buf : Bytes) (n : ℕ) → round buf (body n) ≡ body_round buf n
unfolding round
body_of buf n = refl

sub_sub : (n a b : ℕ) → n - (a + b) ≡ n - a - b
sub_sub n a b = omega arith

ap₃ {ℓ} :
    {A B C D : Type ℓ} (f : A → B → C → D) {a a' : A} {b b' : B} {c c' : C}
    → a ≡ a'
    → b ≡ b'
    → c ≡ c'
    → f a b c ≡ f a' b' c'
ap₃ f p q r = λ i. f (p i) (q i) (r i)

run_part :
    (buf more out : Bytes) (n : ℕ)
    → 0 < length buf
    → length buf < n
    → run (record { buf = buf ++ more; mode = body n }) out
      ≡ run (record { buf = more; mode = body (n - length buf) }) (out ++ buf)
run_part buf [] out n h k =
    ap (λ b. run (record { buf = b; mode = body n }) out) (append-nil buf)
    ∙ run_go (record { buf = buf; mode = body n }) out _ buf (part_round buf n h k)
run_part buf (m ∷ ms) out n h k =
    let more : Bytes = m ∷ ms in
    let left : ℕ = n - length buf in
    let taken : ℕ = min left (length more) in
    let both =
      take_round (buf ++ more) n (length buf + taken) (omega arith)
        (omega (arith, length-append buf more)) in
    let second = take_round more left taken (omega arith) (omega arith) in
    run_go (record { buf = buf ++ more; mode = body n }) out _ _ (body_of (buf ++ more) n ∙ both)
    ∙ ap₃
        (λ (b : Bytes) (l : ℕ) (o : Bytes).
          run (record { buf = b; mode = if l == 0 then crlf else body l }) o)
        (drop-append_add taken buf more) (sub_sub n (length buf) taken)
        (ap (◌++◌ out) (take-append_add taken buf more)
          ∙ sym (append_assoc out buf (take taken more)))
    ∙ sym (
        run_go (record { buf = more; mode = body left }) (out ++ buf) _ _
          (body_of more left ∙ second))

run-append_step :
    (fuel : ℕ) (d : Decoder) (out more : Bytes)
    → measure d < suc fuel
    → ((d' : Decoder) (bs : Bytes)
        → measure d' < fuel
        → Agrees (loop fuel d' (out ++ bs)) more (run (extend d' more) (out ++ bs)))
    → Extends d.buf more d.mode
    → Agrees (loop (suc fuel) d out) more (run (extend d more) out)
run-append_step fuel d out more h ih (waits e) = rw (loop_halt fuel d out d false e) refl
run-append_step fuel d out more h ih (ends d1 d2 e e') =
    rw (loop_halt fuel d out d1 true e) (d2, run_halt (extend d more) out d2 true e')
run-append_step fuel d out more h ih (fails d1 d2 x e e') =
    rw (loop_fail fuel d out d1 x e) (d2, run_fail (extend d more) out d2 x e')
run-append_step fuel d out more h ih (goes d1 bs e e') =
    rw (loop_go fuel d out d1 bs e, run_go (extend d more) out (extend d1 more) bs e')
      (ih d1 bs (omega (arith, round-measure d.buf d.mode d1 bs e)))
run-append_step fuel d out more h ih (short n e p q) =
    let d' : Decoder = record { buf = []; mode = body (n - length d.buf) } in
    let step : round d.buf d.mode ≡ go d' d.buf = ap (round d.buf) e ∙ part_round d.buf n p q in
    let whole : run (extend d more) out ≡ run (extend d' more) (out ++ d.buf) =
      ap (λ m. run (record { buf = d.buf ++ more; mode = m }) out) e
      ∙ run_part d.buf more out n p q in
    rw (loop_go fuel d out d' d.buf step, whole)
      (ih d' d.buf (omega (arith, round-measure d.buf d.mode d' d.buf step)))

run-append :
    (fuel : ℕ) (d : Decoder) (out more : Bytes)
    → measure d < fuel
    → Agrees (loop fuel d out) more (run (extend d more) out)
run-append zero d out more h = absurd (omega arith)
run-append (suc fuel) d out more h =
    run-append_step fuel d out more h (λ d' bs less. run-append fuel d' (out ++ bs) more less)
      (round-Extends d.buf more d.mode)

-- A piece with its rest: what `push` of both pieces together gives, from the two results.
abbrev pub join : Bytes → Pushed → Pushed
join out (pushed (ok r) d) = pushed (ok (record { out = out ++ r.out; done = r.done })) d
join out (pushed (err e) d) = pushed (err e) d
join out stuck = stuck

loop-join :
    (fuel : ℕ) (d : Decoder) (front out : Bytes)
    → loop fuel d (front ++ out) ≡ join front (loop fuel d out)
unfolding loop
loop-join zero d front out = refl
loop-join (suc fuel) d front out = elim (Round-cases (round d.buf d.mode)) [
  | inl (d', bs, e) ↦ rw (e, loop, append_assoc) (loop-join fuel d' front (out ++ bs))
  | inr (inl (d', done, e)) ↦ rw (e, loop)
  | inr (inr (d', x, e)) ↦ rw (e, loop)
]

run-join : (d : Decoder) (out : Bytes) → run d out ≡ join out (run d [])
unfolding run
run-join d out =
    ap (loop (suc (measure d)) d) (sym (append-nil out)) ∙ loop-join (suc (measure d)) d out []

push-Agrees : (d : Decoder) (b more : Bytes) → Agrees (push d b) more (push d (b ++ more))
unfolding push
push-Agrees d b more =
    let d' : Decoder = record d { buf = d.buf ++ b } in
    subst (Agrees (push d b) more)
      (ap (λ x. run (record d { buf = x }) []) (append_assoc d.buf b more)
        ∙ sym (push-run d (b ++ more)))
      (run-append (fuel_for d'.buf) d' [] more (omega (arith, empty_chunk-le d.mode)))

-- A read in two pieces, the first of which does not end the body: the output is the two outputs in
-- order, and the end, the error and the state are those of the second piece.
pub push-append :
    (d d' : Decoder) (b more out : Bytes)
    → push d b ≡ pushed (ok (record { out = out; done = false })) d'
    → push d (b ++ more) ≡ join out (push d' more)
push-append d d' b more out e =
    agreed ∙ run-join (extend d' more) out ∙ ap (join out) (sym (push-run d' more))
  where
    agreed : push d (b ++ more) ≡ run (extend d' more) out
    agreed = subst (λ p. Agrees p more (push d (b ++ more))) e (push-Agrees d b more)

-- Once the body has ended, more bytes in the same read change nothing.
pub push-append_ended :
    (d d' : Decoder) (b more out : Bytes)
    → push d b ≡ pushed (ok (record { out = out; done = true })) d'
    → (d'' : Decoder) × (push d (b ++ more) ≡ pushed (ok (record { out = out; done = true })) d'')
push-append_ended d d' b more out e =
    subst (λ p. Agrees p more (push d (b ++ more))) e (push-Agrees d b more)

-- A push that fails still fails, with the same error, when more bytes come with it.
pub push-append_failed :
    (d d' : Decoder) (b more : Bytes) (x : ChunkError)
    → push d b ≡ pushed (err x) d'
    → (d'' : Decoder) × (push d (b ++ more) ≡ pushed (err x) d'')
push-append_failed d d' b more x e =
    subst (λ p. Agrees p more (push d (b ++ more))) e (push-Agrees d b more)
