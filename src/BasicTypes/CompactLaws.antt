-- ===== src/BasicTypes/CompactLaws.antt =====
-- src/protocol/types/BasicTypes.ts: compact values come back.
use mathlib.Core.Path.{ap₂}
use kafka_node_ts.Prelude.{
  ℕ, ◌+◌, ◌^◌, ◌<◌, ◌≡◌, refl, ap, ◌∙◌, Option, none, some, List, [], ◌∷◌, ◌++◌, length,
  length-append, append-nil, append_assoc, All, arith,
}
use kafka_node_ts.Prelude.Int.{ℤ, pos}
use kafka_node_ts.Prelude.Errors.{Result, ok}
use kafka_node_ts.Buffer.{Bytes, slice}
use kafka_node_ts.Buffer.Numbers.{slice-at, text_range-at}
use kafka_node_ts.Buffer.Frontier.{put-next}
use kafka_node_ts.Text.{JsString, utf8, byte_length, from_utf8, to_string}
use kafka_node_ts.Text.RoundTrip.{IsText, from_utf8-utf8, write_string-next}
use kafka_node_ts.BasicTypes.Numbers.{Decode, RoundTrips}
use kafka_node_ts.BasicTypes.Varint.{read_length}
use kafka_node_ts.BasicTypes.VarintLaws.{
  count_bytes, size_of_length-eq, write_length-eq, read_length-eq, read_length_zero,
}
use kafka_node_ts.BasicTypes.Arrays.{encode_each, decode_each}
use kafka_node_ts.BasicTypes.ArrayLaws.{
  joined, copy_each-next, bytes_of, encode_each-eq, decode_each-eq, total_size-joined,
}
use kafka_node_ts.BasicTypes.Compact.{
  encode_compact_string, decode_compact_string, encode_compact_bytes, decode_compact_bytes,
  encode_compact_array, decode_compact_array,
}

-- A count in front of a body: what every compact encoder writes.
abbrev framed : ℕ → Bytes → Bytes
framed n body = count_bytes (n + 1) ++ body

-- A string that a compact count can stand in front of, without lone surrogates.
abbrev pub IsCompactString : Option JsString → Type 0
IsCompactString none = Unit
IsCompactString (some s) = IsText s × (byte_length s + 1 < 2 ^ 31)

encode_compact_string-eq :
    (s : JsString)
    → byte_length s + 1 < 2 ^ 31
    → encode_compact_string (some s) ≡ ok (framed (byte_length s) (utf8 s))
unfolding encode_compact_string
encode_compact_string-eq s h =
    let n : ℕ = byte_length s in
    rw (size_of_length-eq (n + 1) h) (
      rw (write_length-eq (n + 1) (length (count_bytes (n + 1)) + n) n h refl) (
        write_string-next (count_bytes (n + 1)) (length (count_bytes (n + 1))) n 0 s refl
          (omega arith)
        ∙ ap ok (append-nil _)))

encode_compact_bytes-eq :
    (b : Bytes) → length b + 1 < 2 ^ 31 → encode_compact_bytes (some b) ≡ ok (framed (length b) b)
unfolding encode_compact_bytes
encode_compact_bytes-eq b h =
    let n : ℕ = length b in
    rw (size_of_length-eq (n + 1) h) (
      rw (write_length-eq (n + 1) (length (count_bytes (n + 1)) + n) n h refl) (
        ap ok (
          put-next (count_bytes (n + 1)) (length (count_bytes (n + 1))) n 0 refl b (omega arith)
          ∙ append-nil _)))

-- A count that was read as `n + 1` stands for `n` and not for null.
module _ (buffer : Bytes) (i n o : ℕ)
    (read : read_length buffer (pos i) ≡ ok (pos (n + 1), pos o)) where
  decode_compact_string-some :
      decode_compact_string buffer (pos i)
      ≡ ok (some (to_string buffer (pos o) (pos (o + n))), pos (o + n))
  unfolding decode_compact_string
  decode_compact_string-some = rw read (ground arith)

  decode_compact_bytes-some :
      decode_compact_bytes buffer (pos i)
      ≡ ok (some (slice buffer (pos o) (pos (o + n))), pos (o + n))
  unfolding decode_compact_bytes
  decode_compact_bytes-some = rw read (ground arith)

  decode_compact_array-some {ℓ} :
      {A : Type ℓ} (decode : Decode A) {vs : List A} {end : ℤ}
      → decode_each decode n buffer (pos o) ≡ ok (vs, end)
      → decode_compact_array decode buffer (pos i) ≡ ok (some vs, end)
  unfolding decode_compact_array
  decode_compact_array-some decode e = rw read (ground arith)

module _ (buffer : Bytes) (i o : ℕ) (read : read_length buffer (pos i) ≡ ok (pos 0, pos o)) where
  decode_compact_string_null : decode_compact_string buffer (pos i) ≡ ok (none, pos o)
  unfolding decode_compact_string
  decode_compact_string_null = rw read

  decode_compact_bytes_null : decode_compact_bytes buffer (pos i) ≡ ok (none, pos o)
  unfolding decode_compact_bytes
  decode_compact_bytes_null = rw read

-- The count in front of a body is read back.
read_framed :
    (n : ℕ) (pre body post : Bytes)
    → n + 1 < 2 ^ 31
    → read_length (pre ++ (framed n body ++ post)) (pos (length pre))
      ≡ ok (pos (n + 1), pos (length pre + length (count_bytes (n + 1))))
read_framed n pre body post h =
    ap (λ (b : Bytes). read_length (pre ++ b) (pos (length pre)))
      (append_assoc (count_bytes (n + 1)) body post)
    ∙ read_length-eq (n + 1) pre (body ++ post) h

behind_count :
    (n : ℕ) (pre body post : Bytes)
    → pre ++ (framed n body ++ post) ≡ (pre ++ count_bytes (n + 1)) ++ (body ++ post)
behind_count n pre body post = simp append_assoc

module _ (n : ℕ) (pre body post : Bytes) (whole : n ≡ length body) where
  body_start : length pre + length (count_bytes (n + 1)) ≡ length (pre ++ count_bytes (n + 1))
  body_start = omega (arith, length-append pre (count_bytes (n + 1)))

  body_end : length pre + length (count_bytes (n + 1)) + n ≡ length pre + length (framed n body)
  body_end = omega (arith, length-append (count_bytes (n + 1)) body)

-- A nullable string without lone surrogates, of less than 2 ^ 31 - 1 bytes in UTF-8, is encoded in the
-- compact form, and `decodeCompactString` reads it back from its bytes at any place in a buffer.
pub decode_compact_string-encode :
    (v : Option JsString)
    → IsCompactString v
    → RoundTrips encode_compact_string decode_compact_string v
decode_compact_string-encode none h = (
  0 ∷ [],
  unfold encode_compact_string in refl,
  λ pre post.
      decode_compact_string_null (pre ++ (0 ∷ post)) (length pre) (length pre + 1)
        (read_length_zero pre post),
)
decode_compact_string-encode (some s) (t, h) =
    let n : ℕ = byte_length s in
    (
      framed n (utf8 s),
      encode_compact_string-eq s h,
      λ pre post.
          decode_compact_string-some (pre ++ (framed n (utf8 s) ++ post)) (length pre) n _
            (read_framed n pre (utf8 s) post h)
          ∙ ap₂ (λ (v : JsString) (e : ℕ). ok (some v, pos e))
              (rw (behind_count n pre (utf8 s) post) (
                ap from_utf8 (
                  text_range-at _ _ (pre ++ count_bytes (n + 1)) (utf8 s) post
                    (body_start n pre (utf8 s) post refl) refl)
                ∙ from_utf8-utf8 t))
              (body_end n pre (utf8 s) post refl),
    )

abbrev pub IsCompactBytes : Option Bytes → Type 0
IsCompactBytes none = Unit
IsCompactBytes (some b) = length b + 1 < 2 ^ 31

-- A nullable byte array of less than 2 ^ 31 - 1 bytes is encoded in the compact form, and
-- `decodeCompactBytes` reads it back from its bytes at any place in a buffer.
pub decode_compact_bytes-encode :
    (v : Option Bytes) → IsCompactBytes v → RoundTrips encode_compact_bytes decode_compact_bytes v
decode_compact_bytes-encode none h = (
  0 ∷ [],
  unfold encode_compact_bytes in refl,
  λ pre post.
      decode_compact_bytes_null (pre ++ (0 ∷ post)) (length pre) (length pre + 1)
        (read_length_zero pre post),
)
decode_compact_bytes-encode (some b) h =
    let n : ℕ = length b in
    (
      framed n b,
      encode_compact_bytes-eq b h,
      λ pre post.
          decode_compact_bytes-some (pre ++ (framed n b ++ post)) (length pre) n _
            (read_framed n pre b post h)
          ∙ ap₂ (λ (v : Bytes) (e : ℕ). ok (some v, pos e))
              (rw (behind_count n pre b post) (
                slice-at _ _ (pre ++ count_bytes (n + 1)) b post (body_start n pre b post refl)
                  refl))
              (body_end n pre b post refl),
    )

module _ {ℓ} {A : Type ℓ} (encode : A → Result Bytes) (decode : Decode A) where
  encode_compact_array-eq :
      (vs : List A) (encoded : List Bytes)
      → encode_each encode vs ≡ ok encoded
      → length vs + 1 < 2 ^ 31
      → encode_compact_array encode (some vs) ≡ ok (framed (length vs) (joined encoded))
  unfolding encode_compact_array
  encode_compact_array-eq vs encoded e h =
      let n : ℕ = length vs in
      let m : ℕ = length (joined encoded) in
      rw (e, size_of_length-eq (n + 1) h)
        (rw (total_size-joined (length (count_bytes (n + 1))) encoded) (
          rw (write_length-eq (n + 1) (length (count_bytes (n + 1)) + m) m h refl)
            (ap ok (copy_each-next encoded (count_bytes (n + 1)) _ m refl refl))))

  -- An array of less than 2 ^ 31 - 1 elements, each of which comes back, is encoded in the compact
  -- form, and `decodeCompactArray` reads it back from its bytes at any place in a buffer.
  pub decode_compact_array-encode :
      (vs : List A)
      → length vs + 1 < 2 ^ 31
      → All (RoundTrips encode decode) vs
      → RoundTrips (encode_compact_array encode) (decode_compact_array decode) (some vs)
  decode_compact_array-encode vs fits h =
      let n : ℕ = length vs in
      let bs : Bytes = joined (bytes_of encode decode vs h) in
      (
        framed n bs,
        encode_compact_array-eq vs _ (encode_each-eq encode decode vs h) fits,
        λ pre post.
            decode_compact_array-some (pre ++ (framed n bs ++ post)) (length pre) n _
              (read_framed n pre bs post fits) decode
              (ap₂ (λ (t : Bytes) (k : ℕ). decode_each decode n t (pos k))
                  (behind_count n pre bs post)
                  (omega (arith, length-append pre (count_bytes (n + 1))))
                ∙ decode_each-eq encode decode vs h (pre ++ count_bytes (n + 1)) post)
            ∙ ap (λ (k : ℕ). ok (some vs, pos k))
                (omega (
                  arith,
                  length-append pre (count_bytes (n + 1)),
                  length-append (count_bytes (n + 1)) bs,
                )),
      )
