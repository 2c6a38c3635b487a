-- ===== src/BasicTypes/StringLaws.antt =====
-- src/protocol/types/BasicTypes.ts: what `encodeString` and `encodeBytes` write, and that the
-- decoders read it back.
use kafka_node_ts.Prelude.{
  ℕ, ◌+◌, suc, ◌≡◌, refl, ap, ◌∙◌, sym, false, Option, none, some, [], ◌++◌, length, length-append,
  append-nil, append_assoc, arith,
}
use kafka_node_ts.Prelude.Int.{ℤ, pos, negsuc}
use kafka_node_ts.Prelude.Errors.{ok, err, range_error}
use kafka_node_ts.Buffer.{
  Bytes, IsInt, fits_int, to_pattern, int_bytes, be_bytes, read_int, write_int, slice,
}
use kafka_node_ts.Buffer.Numbers.{read_int-at, slice-at, text_range-at, length-be_bytes}
use kafka_node_ts.Buffer.Frontier.{write_int-next, put-next}
use kafka_node_ts.Text.{JsString, utf8, byte_length, to_string}
use kafka_node_ts.Text.RoundTrip.{IsText, from_utf8-utf8, write_string-next}
use kafka_node_ts.BasicTypes.Numbers.{Decodes}
use kafka_node_ts.BasicTypes.Strings.{encode_string, decode_string, encode_bytes, decode_bytes}

-- A string that the format can carry: no lone surrogate, and a length that fits an int16.
abbrev pub IsWireString : Option JsString → Type 0
IsWireString none = Unit
IsWireString (some s) = IsText s × IsInt 2 (pos (byte_length s))

abbrev pub string_bytes : Option JsString → Bytes
string_bytes none = int_bytes 2 (negsuc 0)
string_bytes (some s) = int_bytes 2 (pos (byte_length s)) ++ utf8 s

pub encode_string-eq :
    (v : Option JsString) → IsWireString v → encode_string v ≡ ok (string_bytes v)
unfolding encode_string
encode_string-eq none h = unfold be_bytes to_pattern in refl
encode_string-eq (some s) (t, h) =
    let n : ℕ = byte_length s in
    rw (write_int-next [] 0 (2 + n) n refl 2 (pos n) h refl) (
      write_string-next (int_bytes 2 (pos n)) 2 n 0 s
        (omega (arith, length-be_bytes 2 (to_pattern 2 (pos n)))) (omega arith)
      ∙ ap ok (append-nil _))

-- `rest` stands behind a length field of `w` bytes that starts at `length pre`.
pub behind_length :
    (w : ℕ) (n : ℤ) (pre body post : Bytes)
    → pre ++ ((int_bytes w n ++ body) ++ post) ≡ (pre ++ int_bytes w n) ++ (body ++ post)
behind_length w n pre body post = simp append_assoc

pub length-field : (w : ℕ) (n : ℤ) (pre : Bytes) → length (pre ++ int_bytes w n) ≡ length pre + w
length-field w n pre =
    omega (arith, length-append pre (int_bytes w n), length-be_bytes w (to_pattern w n))

-- The text behind the length field, and the offset behind the text.
text_behind :
    (w : ℕ) (s : JsString) (pre post : Bytes)
    → IsText s
    → let n : ℕ = byte_length s in
      to_string
        (pre ++ ((int_bytes w (pos n) ++ utf8 s) ++ post))
        (pos (length pre + w))
        (pos (length pre + w + n))
      ≡ s
text_behind w s pre post t =
    let n : ℕ = byte_length s in
    rw (behind_length w (pos n) pre (utf8 s) post) (
      rw
        (text_range-at (length pre + w) (length pre + w + n) (pre ++ int_bytes w (pos n)) (utf8 s)
          post (sym (length-field w (pos n) pre)) refl)
        (from_utf8-utf8 t))

pub field_then :
    (w : ℕ) (n : ℤ) (body : Bytes) (k : ℕ)
    → k + w + length body ≡ k + length (int_bytes w n ++ body)
field_then w n body k =
    omega (arith, length-append (int_bytes w n) body, length-be_bytes w (to_pattern w n))

module _ (buffer : Bytes) (i n : ℕ) where
  decode_string_null :
      read_int 2 buffer (pos i) ≡ ok (negsuc n)
      → decode_string buffer (pos i) ≡ ok (none, pos (i + 2))
  unfolding decode_string
  decode_string_null e = rw e

  decode_string-some :
      read_int 2 buffer (pos i) ≡ ok (pos n)
      → decode_string buffer (pos i)
        ≡ ok (some (to_string buffer (pos (i + 2)) (pos (i + 2 + n))), pos (i + 2 + n))
  unfolding decode_string
  decode_string-some e = rw e

  decode_bytes_null :
      read_int 4 buffer (pos i) ≡ ok (negsuc n)
      → decode_bytes buffer (pos i) ≡ ok (none, pos (i + 4))
  unfolding decode_bytes
  decode_bytes_null e = rw e

  decode_bytes-some :
      read_int 4 buffer (pos i) ≡ ok (pos n)
      → decode_bytes buffer (pos i)
        ≡ ok (some (slice buffer (pos (i + 4)) (pos (i + 4 + n))), pos (i + 4 + n))
  unfolding decode_bytes
  decode_bytes-some e = rw e

-- A length field in front of a body is read back.
pub read_field :
    (w : ℕ) (v : ℤ) (pre body post : Bytes)
    → IsInt (suc w) v
    → read_int (suc w) (pre ++ ((int_bytes (suc w) v ++ body) ++ post)) (pos (length pre)) ≡ ok v
read_field w v pre body post h =
    ap (λ (b : Bytes). read_int (suc w) (pre ++ b) (pos (length pre)))
      (append_assoc (int_bytes (suc w) v) body post)
    ∙ read_int-at w (length pre) v pre (body ++ post) refl h

pub decode_string-Decodes :
    (v : Option JsString) → IsWireString v → Decodes decode_string (string_bytes v) v
decode_string-Decodes none h pre post =
    decode_string_null _ (length pre) 0
      (read_int-at 1 (length pre) (negsuc 0) pre post refl (unfold fits_int in refl))
    ∙ ap (λ (k : ℕ). ok (none, pos (length pre + k))) (sym (length-be_bytes 2 _))
decode_string-Decodes (some s) (t, h) pre post =
    let n : ℕ = byte_length s in
    decode_string-some _ (length pre) n (read_field 1 (pos n) pre (utf8 s) post h)
    ∙ rw (text_behind 2 s pre post t) (rw (field_then 2 (pos n) (utf8 s) (length pre)))

-- A nullable string without lone surrogates, of less than 2 ^ 15 bytes in UTF-8, is encoded, and
-- `decodeString` reads it back from its bytes at any place in a buffer.
pub decode_string-encode_string :
    (v : Option JsString)
    → IsWireString v
    → (b : Bytes) × (encode_string v ≡ ok b) × Decodes decode_string b v
decode_string-encode_string v h = (string_bytes v, encode_string-eq v h, decode_string-Decodes v h)

-- A string of 2 ^ 15 bytes or more is refused with a RangeError.
pub encode_string_too_long :
    (s : JsString)
    → fits_int 2 (pos (byte_length s)) ≡ false
    → encode_string (some s) ≡ err range_error
unfolding encode_string write_int
encode_string_too_long s h = rw h

-- A byte array that the format can carry: its length fits an int32.
abbrev pub IsWireBytes : Option Bytes → Type 0
IsWireBytes none = Unit
IsWireBytes (some b) = IsInt 4 (pos (length b))

abbrev pub bytes_bytes : Option Bytes → Bytes
bytes_bytes none = int_bytes 4 (negsuc 0)
bytes_bytes (some b) = int_bytes 4 (pos (length b)) ++ b

pub encode_bytes-eq : (v : Option Bytes) → IsWireBytes v → encode_bytes v ≡ ok (bytes_bytes v)
unfolding encode_bytes
encode_bytes-eq none h = unfold be_bytes to_pattern in refl
encode_bytes-eq (some b) h =
    let n : ℕ = length b in
    rw (write_int-next [] 0 (4 + n) n refl 4 (pos n) h refl) (
      ap ok (
        put-next (int_bytes 4 (pos n)) 4 n 0
          (omega (arith, length-be_bytes 4 (to_pattern 4 (pos n)))) b (omega arith)
        ∙ append-nil _))

pub decode_bytes-Decodes :
    (v : Option Bytes) → IsWireBytes v → Decodes decode_bytes (bytes_bytes v) v
decode_bytes-Decodes none h pre post =
    decode_bytes_null _ (length pre) 0
      (read_int-at 3 (length pre) (negsuc 0) pre post refl (unfold fits_int in refl))
    ∙ ap (λ (k : ℕ). ok (none, pos (length pre + k))) (sym (length-be_bytes 4 _))
decode_bytes-Decodes (some b) h pre post =
    let n : ℕ = length b in
    decode_bytes-some _ (length pre) n (read_field 3 (pos n) pre b post h)
    ∙ rw (behind_length 4 (pos n) pre b post) (
        rw
          (slice-at (length pre + 4) (length pre + 4 + n) (pre ++ int_bytes 4 (pos n)) b post
            (sym (length-field 4 (pos n) pre)) refl)
          (rw (field_then 4 (pos n) b (length pre))))

-- A nullable byte array of less than 2 ^ 31 bytes is encoded, and `decodeBytes` reads it back from its
-- bytes at any place in a buffer.
pub decode_bytes-encode_bytes :
    (v : Option Bytes)
    → IsWireBytes v
    → (b : Bytes) × (encode_bytes v ≡ ok b) × Decodes decode_bytes b v
decode_bytes-encode_bytes v h = (bytes_bytes v, encode_bytes-eq v h, decode_bytes-Decodes v h)
