-- ===== src/Chunked/Loop.antt =====
-- The loop of `push` ends, and more fuel than it needs changes nothing.
use anvil_ring.Base.{
  ℕ, Bool, min, ◌-◌, zero, suc, ◌+◌, ◌*◌, ◌≤◌, ◌<◌, ◌≡◌, ◌≢◌, refl, sym, ◌∙◌, [], ◌∷◌, ◌++◌, some,
  arith, Bytes, length, length-drop, Result, ok, err, Option-cases, Result-cases, inl, inr, ◌⊎◌,
}
use anvil_ring.Chunked.{
  ChunkError, Mode, size, body, crlf, finished, Decoder, Decoded, Round, go, halt, fail, Pushed,
  pushed, stuck, round, loop, push, fuel_for, split_crlf, size_round, body_round, crlf_round,
  parse_size,
}

-- What is left to do: each byte counts for two, and an empty chunk for one more round.
abbrev pub empty_chunk : Mode → ℕ
empty_chunk (body zero) = 1
empty_chunk _ = 0

abbrev pub measure : Decoder → ℕ
measure d = 2 * length d.buf + empty_chunk d.mode

pub empty_chunk-le : (m : Mode) → empty_chunk m ≤ 1
empty_chunk-le size = omega arith
empty_chunk-le (body zero) = omega arith
empty_chunk-le (body (suc n)) = omega arith
empty_chunk-le crlf = omega arith
empty_chunk-le finished = omega arith

empty_chunk-pos : (n : ℕ) → n ≢ 0 → empty_chunk (body n) ≡ 0
empty_chunk-pos zero h = absurd (h refl)
empty_chunk-pos (suc n) h = refl

pub split_crlf-length :
    (buf : Bytes) (line rest : Bytes)
    → split_crlf buf ≡ some (line, rest)
    → length buf ≡ length line + length rest + 2
unfolding split_crlf
split_crlf-length [] line rest e = cc
split_crlf-length (a ∷ []) line rest e = cc
split_crlf-length (a ∷ b ∷ bs) line rest e = elim (Option-cases (split_crlf (b ∷ bs))) [
  | inl stop ↦ ground (arith, stop)
  | inr ((l, r), found) ↦ ground (arith, found, split_crlf-length (b ∷ bs) l r found)
]

size_round-measure :
    (buf line rest : Bytes) (d : Decoder) (bs : Bytes)
    → length rest < length buf
    → size_round buf line rest ≡ go d bs
    → measure d < 2 * length buf
unfolding size_round
size_round-measure buf line rest d bs h e = elim (Result-cases (parse_size line)) [
  | inl (n, got) ↦ ground (arith, got, empty_chunk-le (body n))
  | inr (x, bad) ↦ ground (arith, bad)
]

body_round-measure :
    (buf : Bytes) (n : ℕ) (d : Decoder) (bs : Bytes)
    → body_round buf n ≡ go d bs
    → measure d < 2 * length buf + empty_chunk (body n)
unfolding body_round
body_round-measure buf zero d bs e = ground arith
body_round-measure buf (suc n) d bs e =
    let taken : ℕ = min (suc n) (length buf) in
    ground (arith, length-drop taken buf, empty_chunk-pos (suc n - taken))

crlf_round-measure :
    (buf : Bytes) (d : Decoder) (bs : Bytes)
    → crlf_round buf ≡ go d bs
    → measure d < 2 * length buf + 0
unfolding crlf_round
crlf_round-measure [] d bs e = cc
crlf_round-measure (a ∷ []) d bs e = cc
crlf_round-measure (a ∷ b ∷ rest) d bs e = ground arith

-- A round by what it does, with its equation.
abbrev pub Does : Round → Type 0
Does r =
    ((d : Decoder) × (bs : Bytes) × (r ≡ go d bs))
    ⊎ (((d : Decoder) × (done : Bool) × (r ≡ halt d done))
        ⊎ ((d : Decoder) × (e : ChunkError) × (r ≡ fail d e)))

pub Round-cases : (r : Round) → Does r
Round-cases (go d bs) = inl (d, bs, refl)
Round-cases (halt d done) = inr (inl (d, done, refl))
Round-cases (fail d e) = inr (inr (d, e, refl))

pub round-measure :
    (buf : Bytes) (m : Mode) (d : Decoder) (bs : Bytes)
    → round buf m ≡ go d bs
    → measure d < measure (record { buf = buf; mode = m })
unfolding round
round-measure buf size d bs e = elim (Option-cases (split_crlf buf)) [
  | inl wait ↦ ground (arith, wait)
  | inr ((line, rest), found) ↦
      ground
        (arith, found, split_crlf-length buf line rest found, size_round-measure buf line rest d bs)
]
round-measure buf (body n) d bs e = body_round-measure buf n d bs e
round-measure buf crlf d bs e = crlf_round-measure buf d bs e
round-measure buf finished d bs e = cc

module _ (fuel : ℕ) (d : Decoder) (out : Bytes) where
  pub loop_go :
      (d' : Decoder) (bs : Bytes)
      → round d.buf d.mode ≡ go d' bs
      → loop (suc fuel) d out ≡ loop fuel d' (out ++ bs)
  unfolding loop
  loop_go d' bs e = rw (e, loop)

  pub loop_halt :
      (d' : Decoder) (done : Bool)
      → round d.buf d.mode ≡ halt d' done
      → loop (suc fuel) d out ≡ pushed (ok (record { out = out; done = done })) d'
  unfolding loop
  loop_halt d' done e = rw (e, loop)

  pub loop_fail :
      (d' : Decoder) (x : ChunkError)
      → round d.buf d.mode ≡ fail d' x
      → loop (suc fuel) d out ≡ pushed (err x) d'
  unfolding loop
  loop_fail d' x e = rw (e, loop)

pub Pushed-cases :
    (p : Pushed)
    → ((r : Result Decoded ChunkError) × (d : Decoder) × (p ≡ pushed r d)) ⊎ (p ≡ stuck)
Pushed-cases (pushed r d) = inl (r, d, refl)
Pushed-cases stuck = inr refl

-- With more fuel than there is to do, the loop ends.
loop-ne-stuck : (fuel : ℕ) (d : Decoder) (out : Bytes) → measure d < fuel → loop fuel d out ≢ stuck
loop-ne-stuck zero d out h = absurd (omega arith)
loop-ne-stuck (suc fuel) d out h = elim (Round-cases (round d.buf d.mode)) [
  | inl (d', bs, e) ↦
      rw (loop_go fuel d out d' bs e)
        (loop-ne-stuck fuel d' (out ++ bs) (omega (arith, round-measure d.buf d.mode d' bs e)))
  | inr (inl (d', done, e)) ↦ rw (loop_halt fuel d out d' done e) (λ p. cc)
  | inr (inr (d', x, e)) ↦ rw (loop_fail fuel d out d' x e) (λ p. cc)
]

-- Any fuel above the measure gives the same result.
pub loop_fuel :
    (f g : ℕ) (d : Decoder) (out : Bytes)
    → measure d < f
    → measure d < g
    → loop f d out ≡ loop g d out
loop_fuel zero g d out h k = absurd (omega arith)
loop_fuel (suc f) zero d out h k = absurd (omega arith)
loop_fuel (suc f) (suc g) d out h k = elim (Round-cases (round d.buf d.mode)) [
  | inl (d', bs, e) ↦
      let less = round-measure d.buf d.mode d' bs e in
      loop_go f d out d' bs e
      ∙ loop_fuel f g d' (out ++ bs) (omega (arith, less)) (omega (arith, less))
      ∙ sym (loop_go g d out d' bs e)
  | inr (inl (d', done, e)) ↦ loop_halt f d out d' done e ∙ sym (loop_halt g d out d' done e)
  | inr (inr (d', x, e)) ↦ loop_fail f d out d' x e ∙ sym (loop_fail g d out d' x e)
]

-- The loop with just enough fuel.
unfoldable pub run : Decoder → Bytes → Pushed
run d out = loop (suc (measure d)) d out

pub push-run : (d : Decoder) (bs : Bytes) → push d bs ≡ run (record d { buf = d.buf ++ bs }) []
unfolding push run
push-run d bs =
    let d' : Decoder = record d { buf = d.buf ++ bs } in
    loop_fuel (fuel_for d'.buf) (suc (measure d')) d' [] (omega (arith, empty_chunk-le d.mode))
      (omega arith)

pub run_go :
    (d : Decoder) (out : Bytes) (d' : Decoder) (bs : Bytes)
    → round d.buf d.mode ≡ go d' bs
    → run d out ≡ run d' (out ++ bs)
unfolding run
run_go d out d' bs e =
    loop_go (measure d) d out d' bs e
    ∙ loop_fuel _ _ d' (out ++ bs) (round-measure d.buf d.mode d' bs e) (omega arith)

push-ne-stuck : (d : Decoder) (bs : Bytes) → push d bs ≢ stuck
unfolding push
push-ne-stuck d bs =
    loop-ne-stuck _ (record d { buf = d.buf ++ bs }) [] (omega (arith, empty_chunk-le d.mode))

module _ (d : Decoder) (out : Bytes) where
  pub run_halt :
      (d' : Decoder) (done : Bool)
      → round d.buf d.mode ≡ halt d' done
      → run d out ≡ pushed (ok (record { out = out; done = done })) d'
  unfolding run
  run_halt d' done e = loop_halt (measure d) d out d' done e

  pub run_fail :
      (d' : Decoder) (x : ChunkError)
      → round d.buf d.mode ≡ fail d' x
      → run d out ≡ pushed (err x) d'
  unfolding run
  run_fail d' x e = loop_fail (measure d) d out d' x e

-- `push` ends on every decoder and every input, with a result or an error.
pub push-total :
    (d : Decoder) (bs : Bytes)
    → (r : Result Decoded ChunkError) × (d' : Decoder) × (push d bs ≡ pushed r d')
push-total d bs = elim (Pushed-cases (push d bs)) [
  | inl (r, d', e) ↦ (r, d', e)
  | inr e ↦ absurd (push-ne-stuck d bs e)
]
