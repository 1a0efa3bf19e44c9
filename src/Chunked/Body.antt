-- ===== src/Chunked/Body.antt =====
-- A chunked body in any reads is decoded to its chunks.
use anvil_ring.Base.{
  ℕ, ◌<◌, ◌^◌, ◌≡◌, ◌≢◌, refl, sym, ap, ◌∙◌, true, false, List, [], ◌∷◌, ◌++◌, some, none, map,
  All-append, length-append, arith, Bytes, length, All, concat, take-append, drop-append,
  append-nil, append_assoc, Result, ok, err, Option, Bool-cases, Result-cases, inl, inr,
}
use anvil_ring.Text.{from_utf8, from_utf8-ascii, trim, trim-plain, is_whitespace}
use anvil_ring.Text.Decimal.{
  to_hex, from_str_radix, from_str_radix-to_hex, IsHexChar, to_hex-IsHexChar,
}
use anvil_ring.Chunked.{
  ChunkError, size, body, crlf, finished, Decoder, Decoded, go, halt, Pushed, new, pushed, stuck,
  round, push, split_crlf, size_round, body_round, parse_size, before_semicolon,
}
use anvil_ring.Chunked.Loop.{push-total, run, run_go, run_halt, push-run}
use anvil_ring.Chunked.Split.{join, push-append, push-append_ended, push-append_failed}

-- A chunk on the wire: the length in hexadecimal, an extension, and the data.
pub record Chunk : Type 0 where
  pub ext : Bytes
  pub payload : Bytes

-- An extension is empty, or starts with `;`; it holds no CR.
abbrev pub IsExtension : Bytes → Type 0
IsExtension [] = Unit
IsExtension (c ∷ cs) = (c ≡ b';') × All (λ b. b ≢ 13) cs

abbrev pub IsChunk : Chunk → Type 0
IsChunk c = IsExtension c.ext × (0 < length c.payload) × (length c.payload < 2 ^ 64)

abbrev pub line_end : Bytes
line_end = 13 ∷ 10 ∷ []

pub size_line : Chunk → Bytes
size_line c = to_hex (length c.payload) ++ c.ext

-- The chunks, then the last-chunk line and whatever trailer follows it.
unfoldable pub wire : List Chunk → Bytes → Bytes
unfolding size_line
wire [] trailer = b'0' ∷ (line_end ++ trailer)
wire (c ∷ cs) trailer = size_line c ++ (line_end ++ (c.payload ++ (line_end ++ wire cs trailer)))

split_crlf-line :
    (line rest : Bytes)
    → All (λ b. b ≢ 13) line
    → split_crlf (line ++ (line_end ++ rest)) ≡ some (line, rest)
unfolding split_crlf
split_crlf-line [] rest h = refl
split_crlf-line (a ∷ []) rest (p, h) = ground arith
split_crlf-line (a ∷ b ∷ bs) rest (p, h) = ground (arith, split_crlf-line (b ∷ bs) rest h)

before_semicolon-ext :
    (hex ext : Bytes) → All IsHexChar hex → IsExtension ext → before_semicolon (hex ++ ext) ≡ hex
unfolding before_semicolon
before_semicolon-ext [] [] h e = refl
before_semicolon-ext [] (c ∷ cs) h (e, _) = rw e
before_semicolon-ext (x ∷ xs) ext (p, h) e = ground (arith, before_semicolon-ext xs ext h e)

hex_char-plain : (c : ℕ) → IsHexChar c → (c < 128) × (is_whitespace c ≡ false) × (c ≢ 13)
unfolding is_whitespace
hex_char-plain c h = ground arith

hex-plain :
    (cs : List ℕ)
    → All IsHexChar cs
    → All (λ c. c < 128) cs × All (λ c. is_whitespace c ≡ false) cs × All (λ c. c ≢ 13) cs
hex-plain [] h = (tt, tt, tt)
hex-plain (c ∷ cs) (p, h) =
    let (a, w, r) = hex_char-plain c p in
    let (as', ws, rs) = hex-plain cs h in ((a, as'), (w, ws), (r, rs))

parse_size-line : (c : Chunk) → IsChunk c → parse_size (size_line c) ≡ ok (length c.payload)
unfolding parse_size size_line
parse_size-line c (e, pos, small) =
    let hex = to_hex-IsHexChar (length c.payload) small in
    let (a, w, r) = hex-plain (to_hex (length c.payload)) hex in
    ground (
      arith,
      before_semicolon-ext (to_hex (length c.payload)) c.ext hex e,
      from_utf8-ascii (to_hex (length c.payload)) a,
      trim-plain (to_hex (length c.payload)) w,
      from_str_radix-to_hex (length c.payload) small,
    )

ext-no_cr : (ext : Bytes) → IsExtension ext → All (λ b. b ≢ 13) ext
ext-no_cr [] e = tt
ext-no_cr (c ∷ cs) (e, h) = (omega arith, h)

size_line-no_cr : (c : Chunk) → IsChunk c → All (λ b. b ≢ 13) (size_line c)
unfolding size_line
size_line-no_cr c (e, pos, small) =
    All-append _ (to_hex (length c.payload)) c.ext
      (hex-plain _ (to_hex-IsHexChar (length c.payload) small)).2 (ext-no_cr c.ext e)

-- The three rounds that a chunk takes.
size_step :
    (c : Chunk) (rest : Bytes)
    → IsChunk c
    → round (size_line c ++ (line_end ++ rest)) size
      ≡ go (record { buf = rest; mode = body (length c.payload) }) []
unfolding round size_round
size_step c rest h =
    ground
      (arith, split_crlf-line (size_line c) rest (size_line-no_cr c h), parse_size-line c h, h.1)

body_step :
    (data' rest : Bytes)
    → 0 < length data'
    → round (data' ++ rest) (body (length data')) ≡ go (record { buf = rest; mode = crlf }) data'
unfolding round body_round
body_step data' rest h =
    ground (arith, length-append data' rest, take-append data' rest, drop-append data' rest)

crlf_step :
    (rest : Bytes) → round (line_end ++ rest) crlf ≡ go (record { buf = rest; mode = size }) []
unfolding round
crlf_step rest = refl

last_step :
    (trailer : Bytes)
    → round (b'0' ∷ (line_end ++ trailer)) size ≡ halt (record { buf = []; mode = finished }) true
unfolding round size_round parse_size split_crlf from_utf8 trim from_str_radix
last_step trailer = refl

run_chunk :
    (c : Chunk) (rest out : Bytes)
    → IsChunk c
    → run
        (record {
          buf = size_line c ++ (line_end ++ (c.payload ++ (line_end ++ rest)));
          mode = size;
        })
        out
      ≡ run (record { buf = rest; mode = size }) (out ++ c.payload)
run_chunk c rest out h =
    let tail : Bytes = line_end ++ rest in
    run_go _ out _ [] (size_step c (c.payload ++ tail) h)
    ∙ run_go (record { buf = c.payload ++ tail; mode = body (length c.payload) }) (out ++ []) _
        c.payload (body_step c.payload tail h.1)
    ∙ run_go (record { buf = tail; mode = crlf }) ((out ++ []) ++ c.payload) _ [] (crlf_step rest)
    ∙ ap (run (record { buf = rest; mode = size })) (
        append-nil ((out ++ []) ++ c.payload) ∙ ap (λ (o : Bytes). o ++ c.payload) (append-nil out))

run-wire :
    (cs : List Chunk) (trailer out : Bytes)
    → All IsChunk cs
    → run (record { buf = wire cs trailer; mode = size }) out
      ≡ pushed
          (ok (record { out = out ++ concat (map (λ c. c.payload) cs); done = true }))
          (record { buf = []; mode = finished })
unfolding wire
run-wire [] trailer out h = rw append-nil (run_halt _ out _ true (last_step trailer))
run-wire (c ∷ cs) trailer out (p, h) =
    run_chunk c (wire cs trailer) out p
    ∙ run-wire cs trailer (out ++ c.payload) h
    ∙ ap (λ o. pushed (ok (record { out = o; done = true })) (record { buf = []; mode = finished }))
        (append_assoc out c.payload (concat (map (λ x. x.payload) cs)))

-- What the reader of a body does: one `push` for each read, until the end is reported.
pub feed : Decoder → List Bytes → Pushed
feed d [] = pushed (ok (record { out = []; done = false })) d
feed d (p ∷ ps) = elim (push d p) [
  | pushed (ok r) d' ↦ elim r.done [ true ↦ pushed (ok r) d' | false ↦ join r.out (feed d' ps) ]
  | pushed (err e) d' ↦ pushed (err e) d'
  | stuck ↦ stuck
]

-- The result without the decoder that is left.
abbrev pub result : Pushed → Option (Result Decoded ChunkError)
result (pushed r d) = some r
result stuck = none

abbrev join_result : Bytes → Option (Result Decoded ChunkError) → Option (Result Decoded ChunkError)
join_result out none = none
join_result out (some (ok r)) = some (ok (record { out = out ++ r.out; done = r.done }))
join_result out (some (err e)) = some (err e)

result-join : (out : Bytes) (p : Pushed) → result (join out p) ≡ join_result out (result p)
result-join out (pushed (ok r) d) = refl
result-join out (pushed (err e) d) = refl
result-join out stuck = refl

module _ (d d' : Decoder) (p : Bytes) (ps : List Bytes) where
  feed_ended :
      (out : Bytes)
      → push d p ≡ pushed (ok (record { out = out; done = true })) d'
      → feed d (p ∷ ps) ≡ pushed (ok (record { out = out; done = true })) d'
  unfolding feed
  feed_ended out e = rw (e, feed)

  feed_more :
      (out : Bytes)
      → push d p ≡ pushed (ok (record { out = out; done = false })) d'
      → feed d (p ∷ ps) ≡ join out (feed d' ps)
  unfolding feed
  feed_more out e = rw (e, feed)

  feed_failed :
      (x : ChunkError) → push d p ≡ pushed (err x) d' → feed d (p ∷ ps) ≡ pushed (err x) d'
  unfolding feed
  feed_failed x e = rw (e, feed)

feed_none :
    (out : Bytes) (d : Decoder)
    → result (join out (feed d [])) ≡ some (ok (record { out = out; done = false }))
unfolding feed
feed_none out d = ap (λ o. some (ok (record { out = o; done = false }))) (append-nil out)

-- By what the first read gives.
feed_cases :
    (d : Decoder) (p : Bytes) (ps : List Bytes)
    → ((d' : Decoder) (out : Bytes)
        → push d p ≡ pushed (ok (record { out = out; done = false })) d'
        → result (join out (feed d' ps)) ≡ result (push d (p ++ concat ps)))
    → result (feed d (p ∷ ps)) ≡ result (push d (p ++ concat ps))
feed_cases d p ps more =
    let (r0, d', e0) = push-total d p in
    elim (Result-cases r0) [
      | inl (r, er) ↦
          let e : push d p ≡ pushed (ok r) d' = e0 ∙ ap (λ x. pushed x d') er in
          elim (Bool-cases r.done) [
            | inl done ↦
                let e' : push d p ≡ pushed (ok (record { out = r.out; done = true })) d' =
                  e ∙ ap (λ b. pushed (ok (record { out = r.out; done = b })) d') done in
                ap result (feed_ended d d' p ps r.out e')
                ∙ sym (ap result (push-append_ended d d' p (concat ps) r.out e').1)
            | inr going ↦
                let e' : push d p ≡ pushed (ok (record { out = r.out; done = false })) d' =
                  e ∙ ap (λ b. pushed (ok (record { out = r.out; done = b })) d') going in
                ap result (feed_more d d' p ps r.out e') ∙ more d' r.out e'
          ]
      | inr (x, ex) ↦
          let e : push d p ≡ pushed (err x) d' = e0 ∙ ap (λ y. pushed y d') ex in
          ap result (feed_failed d d' p ps x e)
          ∙ sym (ap result (push-append_failed d d' p (concat ps) x e).1)
    ]

-- Reading in pieces gives what one read of all of them gives.
pub feed-concat :
    (d : Decoder) (p : Bytes) (ps : List Bytes)
    → result (feed d (p ∷ ps)) ≡ result (push d (p ++ concat ps))
feed-concat d p [] =
    feed_cases d p []
      λ d' out e. feed_none out d' ∙ sym (ap (λ b. result (push d b)) (append-nil p) ∙ ap result e)
feed-concat d p (q ∷ ps) = feed_cases d p (q ∷ ps) λ d' out e.
    result-join out (feed d' (q ∷ ps))
    ∙ ap (join_result out) (feed-concat d' q ps)
    ∙ sym (result-join out (push d' (q ++ concat ps)))
    ∙ sym (ap result (push-append d d' p (q ++ concat ps) out e))

-- A well-formed chunked body, with any extensions and any trailer, that arrives in any number of
-- reads cut anywhere, is decoded to its payloads in order, and its end is reported.
pub feed-wire :
    (cs : List Chunk) (trailer p : Bytes) (ps : List Bytes)
    → All IsChunk cs
    → p ++ concat ps ≡ wire cs trailer
    → result (feed new (p ∷ ps))
      ≡ some (ok (record { out = concat (map (λ c. c.payload) cs); done = true }))
feed-wire cs trailer p ps h e =
    feed-concat new p ps
    ∙ ap (λ b. result (push new b)) e
    ∙ ap result (push-run new (wire cs trailer) ∙ run-wire cs trailer [] h)
