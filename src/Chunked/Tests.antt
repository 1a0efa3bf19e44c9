-- ===== src/Chunked/Tests.antt =====
-- The theorems on chunked bodies at concrete inputs, and runs of the decoder.
use anvil_ring.Base.{
  ◌≡◌, refl, true, false, List, [], ◌∷◌, ◌++◌, some, arith, Bytes, bytes, concat, Result, ok, err,
}
use anvil_ring.Text.{from_utf8, trim}
use anvil_ring.Text.Decimal.{from_str_radix, to_hex}
use anvil_ring.Chunked.{
  ChunkError, malformed, size, body, finished, Decoder, Decoded, pushed, new, push,
}
use anvil_ring.Chunked.Loop.{push-total}
use anvil_ring.Chunked.Body.{Chunk, wire, feed, result, feed-concat, feed-wire}

abbrev lf : Bytes → Bytes
lf xs = 13 ∷ 10 ∷ xs

abbrev abc : Bytes
abc = bytes "3" ++ lf (bytes "abc" ++ lf [])

abbrev after_abc : Decoder
after_abc = record { buf = []; mode = size }

push-abc : push new abc ≡ pushed (ok (record { out = bytes "abc"; done = false })) after_abc
unfolding push from_utf8 trim from_str_radix
push-abc = refl

-- The front of a chunk is handed out as it comes, and never more than the chunk.
push-part :
    push new (bytes "9" ++ lf (bytes "data: "))
    ≡ pushed
        (ok (record { out = bytes "data: "; done = false }))
        (record { buf = []; mode = body 3 })
unfolding push from_utf8 trim from_str_radix
push-part = refl

abbrev bad : Decoder
bad = record { buf = bytes "xyz" ++ lf []; mode = finished }

push-bad : push new (bytes "xyz" ++ lf []) ≡ pushed (err (malformed "chunk size not hex")) bad
unfolding push from_utf8 trim from_str_radix
push-bad = refl

-- After an error the decoder answers that the body is complete.
push-after_bad : push bad [] ≡ pushed (ok (record { out = []; done = true })) bad
unfolding push
push-after_bad = refl

abbrev two : List Chunk
two =
    record { ext = bytes ";x=1"; payload = bytes "ab" }
    ∷ record { ext = []; payload = bytes "c" }
    ∷ []

abbrev cut : Bytes
cut = bytes "2;x=1" ++ lf (bytes "a")

abbrev cut_rest : Bytes
cut_rest = bytes "b" ++ lf (bytes "1" ++ lf (bytes "c" ++ lf (bytes "0" ++ lf (bytes "t: 1"))))

feed-wire_example :
    result (feed new (cut ∷ cut_rest ∷ [])) ≡ some (ok (record { out = bytes "abc"; done = true }))
unfolding to_hex wire
feed-wire_example = feed-wire two (bytes "t: 1") cut (cut_rest ∷ []) (omega arith) refl

feed-concat_example :
    result (feed new (abc ∷ abc ∷ [])) ≡ result (push new (abc ++ concat (abc ∷ [])))
feed-concat_example = feed-concat new abc (abc ∷ [])

push-total_example : (r : Result Decoded ChunkError) × (d' : Decoder) × (push new abc ≡ pushed r d')
push-total_example = push-total new abc
