-- ===== src/Decoder/Streams.antt =====
-- src/protocol/Encoder.ts and src/protocol/Decoder.ts: values and arrays of values that an encoder
-- adds to what it holds are read by a decoder that stands behind what it held before.
use kafka_node_ts.Prelude.{
  ℕ, ◌+◌, ◌^◌, ◌<◌, ◌≡◌, refl, ap, ◌∙◌, some, List, [], ◌∷◌, ◌++◌, length, length-append,
  append_assoc, All, arith,
}
use kafka_node_ts.Prelude.Int.{pos}
use kafka_node_ts.Prelude.Errors.{Result, ok}
use kafka_node_ts.Buffer.{Bytes, IsInt}
use kafka_node_ts.BasicTypes.Numbers.{Decode, RoundTrips}
use kafka_node_ts.Encoder.{Encoder, push_result, write_array, write_compact_array, build}
use kafka_node_ts.Encoder.Laws.{IsConsistent}
use kafka_node_ts.Decoder.{Decoder, Read, read_by, read_array, read_compact_array}
use kafka_node_ts.Decoder.Laws.{Reads, Sends, RoundTrips-Sends, array-Sends, compact_array-Sends}

-- The decoder over what `e` builds and what follows it, at the end of what `start` builds.
abbrev pub decoder_behind : (start e : Encoder) → Bytes → Decoder
decoder_behind start e post = record {
  buffer = build e ++ post;
  offset = pos (length (build start));
}

-- Reading what `e'` has behind `e`.
pub read_sent {ℓ} :
    {A : Type ℓ} (read : Read A) (b : Bytes) {v : A} (e e' : Encoder) (buffer rest : Bytes)
    → Reads read b v
    → build e' ≡ build e ++ b
    → buffer ≡ build e' ++ rest
    → read (record { buffer = buffer; offset = pos (length (build e)) })
      ≡ ok (v, record { buffer = buffer; offset = pos (length (build e')) })
read_sent read b {v = v} e e' buffer rest reads built known =
    reads buffer (build e) rest (length (build e))
      (known ∙ ap (λ (t : Bytes). t ++ rest) built ∙ append_assoc (build e) b rest) refl
    ∙ ap (λ (k : ℕ). ok (v, record { buffer = buffer; offset = pos k }))
        (omega (arith, ap length built, length-append (build e) b))

sent {ℓ} :
    {A : Type ℓ} (write : Encoder → A → Result Encoder) (read : Read A) {v : A} (e : Encoder)
    (post : Bytes)
    → IsConsistent e
    → Sends write read v
    → (e' : Encoder) × (write e v ≡ ok e')
      × (read (decoder_behind e e' post) ≡ ok (v, decoder_behind e' e' post))
sent write read e post h (b, appends, reads) =
    let (e', written, consistent, built) = appends e h in
    (e', written, read_sent read b e e' (build e' ++ post) post reads built refl)

module _ {ℓ} {A : Type ℓ} (encode : A → Result Bytes) (decode : Decode A) where
  All-Sends :
      (vs : List A)
      → All (RoundTrips encode decode) vs
      → All (Sends (λ e x. push_result e (encode x)) (read_by decode)) vs
  All-Sends [] h = h
  All-Sends (v ∷ vs) h = (RoundTrips-Sends encode decode v h.0, All-Sends vs h.1)

  -- A value that a pair of static functions round-trips: on an encoder whose size counts its bytes
  -- the method that pushes the encoded value succeeds, and the method that decodes it, behind what
  -- was written before, reads the value and stops behind it.
  pub value_write-read :
      (v : A) (e : Encoder) (post : Bytes)
      → RoundTrips encode decode v
      → IsConsistent e
      → (e' : Encoder) × (push_result e (encode v) ≡ ok e')
        × (read_by decode (decoder_behind e e' post) ≡ ok (v, decoder_behind e' e' post))
  value_write-read v e post h c =
      sent (λ e x. push_result e (encode x)) (read_by decode) e post c
        (RoundTrips-Sends encode decode v h)

  -- An array whose count fits an int32, of values that a pair of static functions round-trips, and
  -- an encoder whose size counts its bytes: `writeArray` takes the array, and `readArray`, behind what was written before, reads it and stops
  -- behind it.
  pub array_write-read :
      (vs : List A) (e : Encoder) (post : Bytes)
      → IsInt 4 (pos (length vs))
      → All (RoundTrips encode decode) vs
      → IsConsistent e
      → (e' : Encoder) × (write_array (λ e x. push_result e (encode x)) e (some vs) ≡ ok e')
        × (read_array (read_by decode) (decoder_behind e e' post)
            ≡ ok (some vs, decoder_behind e' e' post))
  array_write-read vs e post fits h c =
      sent (write_array (λ e x. push_result e (encode x))) (read_array (read_by decode)) e post c
        (array-Sends (λ e x. push_result e (encode x)) (read_by decode) vs fits (All-Sends vs h))

  -- An array of less than 2 ^ 31 - 1 values that a pair of static functions round-trips, and an
  -- encoder whose size counts its bytes: `writeCompactArray` takes the array, and `readCompactArray`, behind what was written before, reads it
  -- and stops behind it.
  pub compact_array_write-read :
      (vs : List A) (e : Encoder) (post : Bytes)
      → length vs + 1 < 2 ^ 31
      → All (RoundTrips encode decode) vs
      → IsConsistent e
      → (e' : Encoder) × (write_compact_array (λ e x. push_result e (encode x)) e (some vs) ≡ ok e')
        × (read_compact_array (read_by decode) (decoder_behind e e' post)
            ≡ ok (some vs, decoder_behind e' e' post))
  compact_array_write-read vs e post fits h c =
      sent (write_compact_array (λ e x. push_result e (encode x)))
        (read_compact_array (read_by decode)) e post c
        (compact_array-Sends (λ e x. push_result e (encode x)) (read_by decode) vs fits
          (All-Sends vs h))
