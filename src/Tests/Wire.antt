-- ===== src/Tests/Wire.antt =====
-- The wire format: src/protocol/types/BasicTypes.ts, src/protocol/Encoder.ts, src/protocol/Decoder.ts
-- and src/network/protocol/Headers.ts on concrete values.
use kafka_node_ts.Prelude.{
  ◌+◌, ◌≡◌, refl, inl, some, List, [], ◌∷◌, ◌++◌, length, All, if◌then◌else◌, arith,
}
use kafka_node_ts.Prelude.Int.{ℤ, pos, negsuc}
use kafka_node_ts.Prelude.Errors.{ok, err, range_error}
use kafka_node_ts.Buffer.{
  Bytes, alloc, IsInt, fits_int, write_int, put, be_bytes, to_pattern, of_pattern,
}
use kafka_node_ts.Prelude.{◌≢◌}
use kafka_node_ts.Prelude.Errors.{plain_error}
use kafka_node_ts.Serde.{serialize_integer, deserialize_integer, serialize_long, deserialize_long}
use kafka_node_ts.Serde.RoundTrip.{
  deserialize_integer-serialize_integer, deserialize_long-serialize_long,
}
use kafka_node_ts.Text.{JsString, utf8, write_string}
use kafka_node_ts.Text.RoundTrip.{IsText, nil, unit}
use kafka_node_ts.BasicTypes.Numbers.{Decodes, RoundTrips, encode_int16, decode_int16}
use kafka_node_ts.BasicTypes.NumberLaws.{
  int16, uint8, encoder_of, decoder_of, decoder_of-encoder_of,
}
use kafka_node_ts.BasicTypes.Bounds.{is_between, encoder_of-between}
use kafka_node_ts.BasicTypes.Strings.{encode_string, decode_string, encode_bytes, decode_bytes}
use kafka_node_ts.BasicTypes.StringLaws.{decode_string-encode_string, decode_bytes-encode_bytes}
use kafka_node_ts.BasicTypes.Arrays.{encode_array, decode_array}
use kafka_node_ts.BasicTypes.ArrayLaws.{decode_array-encode_array}
use kafka_node_ts.BasicTypes.Varint.{size_loop, write_loop, loop_fuel, read_length}
use kafka_node_ts.BasicTypes.VarintLaws.{count_bytes, read_length-eq}
use kafka_node_ts.BasicTypes.VarintFuel.{loop_fuel-enough}
use kafka_node_ts.BasicTypes.Compact.{
  encode_compact_string, decode_compact_string, encode_compact_bytes, decode_compact_bytes,
  encode_compact_array, decode_compact_array,
}
use kafka_node_ts.BasicTypes.CompactLaws.{
  decode_compact_string-encode, decode_compact_bytes-encode, decode_compact_array-encode,
}
use kafka_node_ts.Encoder.{Encoder, new_encoder, push_result, write_array, write_compact_array}
use kafka_node_ts.Encoder.Laws.{new_encoder-IsConsistent}
use kafka_node_ts.Decoder.{read_by, read_array, read_compact_array}
use kafka_node_ts.Decoder.Streams.{
  decoder_behind, value_write-read, array_write-read, compact_array_write-read,
}
use kafka_node_ts.Network.Headers.{RequestHeader, encode_request_header, decode_request_header}
use kafka_node_ts.Network.Headers.Laws.{Fits, decode_request_header-encode}

-- `-2`, and the string "hi".
abbrev minus_two : ℤ
minus_two = negsuc 1

abbrev hi : JsString
hi = 104 ∷ 105 ∷ []

abbrev two_numbers : List ℤ
two_numbers = pos 300 ∷ minus_two ∷ []

hi-IsText : IsText hi
hi-IsText = unit 104 (inl (omega arith)) (unit 105 (inl (omega arith)) nil)

-- Runs.
encode_int16_run : encode_int16 minus_two ≡ ok (255 ∷ 254 ∷ [])
unfolding encode_int16 write_int fits_int put be_bytes to_pattern
encode_int16_run = refl

encode_string_run : encode_string (some hi) ≡ ok (0 ∷ 2 ∷ 104 ∷ 105 ∷ [])
unfolding encode_string write_int fits_int utf8 write_string put be_bytes to_pattern
encode_string_run = refl

encode_compact_string_run : encode_compact_string (some hi) ≡ ok (3 ∷ 104 ∷ 105 ∷ [])
unfolding encode_compact_string write_string write_loop utf8 put size_loop
encode_compact_string_run = refl

read_length_run : read_length (172 ∷ 2 ∷ 9 ∷ []) (pos 0) ≡ ok (pos 300, pos 2)
unfolding read_length of_pattern
read_length_run = refl

-- The theorems.
decoder_of-encoder_of_example :
    (b : Bytes) × (encoder_of int16 minus_two ≡ ok b)
    × (length b ≡ 2)
    × Decodes (decoder_of int16) b minus_two
decoder_of-encoder_of_example = decoder_of-encoder_of int16 minus_two (unfold fits_int in refl)

encoder_of-between_example :
    (b : Bytes) × (length b ≡ 1)
    × (encoder_of uint8 (pos 256) ≡ (if is_between uint8 (pos 256) then ok b else err range_error))
encoder_of-between_example = encoder_of-between uint8 (pos 256)

decode_string-encode_string_example :
    (b : Bytes) × (encode_string (some hi) ≡ ok b) × Decodes decode_string b (some hi)
decode_string-encode_string_example =
    decode_string-encode_string (some hi) (hi-IsText, unfold fits_int utf8 in refl)

decode_bytes-encode_bytes_example :
    (b : Bytes) × (encode_bytes (some (7 ∷ 8 ∷ [])) ≡ ok b)
    × Decodes decode_bytes b (some (7 ∷ 8 ∷ []))
decode_bytes-encode_bytes_example =
    decode_bytes-encode_bytes (some (7 ∷ 8 ∷ [])) (unfold fits_int in refl)

int16_round : (v : ℤ) → IsInt 2 v → RoundTrips encode_int16 decode_int16 v
int16_round v h = let (b, e, l, d) = decoder_of-encoder_of int16 v h in (b, e, d)

two_rounds : All (RoundTrips encode_int16 decode_int16) two_numbers
two_rounds = (
  int16_round (pos 300) (unfold fits_int in refl),
  (int16_round minus_two (unfold fits_int in refl), tt),
)

decode_array-encode_array_example :
    RoundTrips (encode_array encode_int16) (decode_array decode_int16) (some two_numbers)
decode_array-encode_array_example =
    decode_array-encode_array encode_int16 decode_int16 two_numbers (unfold fits_int in refl)
      two_rounds

decode_compact_string-encode_example :
    RoundTrips encode_compact_string decode_compact_string (some hi)
decode_compact_string-encode_example =
    decode_compact_string-encode (some hi) (hi-IsText, unfold utf8 in omega arith)

decode_compact_bytes_run : RoundTrips encode_compact_bytes decode_compact_bytes (some (7 ∷ 8 ∷ []))
decode_compact_bytes_run = decode_compact_bytes-encode (some (7 ∷ 8 ∷ [])) (omega arith)

decode_compact_array-encode_example :
    RoundTrips
      (encode_compact_array encode_int16)
      (decode_compact_array decode_int16)
      (some two_numbers)
decode_compact_array-encode_example =
    decode_compact_array-encode encode_int16 decode_int16 two_numbers (omega arith) two_rounds

loop_fuel-enough_example :
    (size_loop 7 1 (pos 70000) ≡ size_loop loop_fuel 1 (pos 70000))
    × (write_loop 7 (alloc 3) 0 (pos 70000) ≡ write_loop loop_fuel (alloc 3) 0 (pos 70000))
loop_fuel-enough_example = loop_fuel-enough 2 1 0 (alloc 3) (pos 70000)

read_length-eq_example :
    read_length ((9 ∷ []) ++ (count_bytes 300 ++ (8 ∷ []))) (pos 1)
    ≡ ok (pos 300, pos (1 + length (count_bytes 300)))
read_length-eq_example = read_length-eq 300 (9 ∷ []) (8 ∷ []) (omega arith)

value_write-read_example :
    (e' : Encoder) × (push_result new_encoder (encode_int16 minus_two) ≡ ok e')
    × (read_by decode_int16 (decoder_behind new_encoder e' (9 ∷ []))
        ≡ ok (minus_two, decoder_behind e' e' (9 ∷ [])))
value_write-read_example =
    value_write-read encode_int16 decode_int16 minus_two new_encoder (9 ∷ []) two_rounds.1.0
      new_encoder-IsConsistent

array_write-read_example :
    (e' : Encoder) × (write_array
        (λ e x. push_result e (encode_int16 x))
        new_encoder
        (some two_numbers)
      ≡ ok e')
    × (read_array (read_by decode_int16) (decoder_behind new_encoder e' [])
        ≡ ok (some two_numbers, decoder_behind e' e' []))
array_write-read_example =
    array_write-read encode_int16 decode_int16 two_numbers new_encoder [] (unfold fits_int in refl)
      two_rounds new_encoder-IsConsistent

compact_array_write-read_example :
    (e' : Encoder) × (write_compact_array
        (λ e x. push_result e (encode_int16 x))
        new_encoder
        (some two_numbers)
      ≡ ok e')
    × (read_compact_array (read_by decode_int16) (decoder_behind new_encoder e' [])
        ≡ ok (some two_numbers, decoder_behind e' e' []))
compact_array_write-read_example =
    compact_array_write-read encode_int16 decode_int16 two_numbers new_encoder [] (omega arith)
      two_rounds new_encoder-IsConsistent

abbrev header : RequestHeader
header = record { api_key = pos 3; api_version = pos 8; correlation_id = pos 5; client_id = hi }

header-Fits : Fits header
header-Fits = record {
  key_fits = unfold fits_int in refl;
  version_fits = unfold fits_int in refl;
  id_fits = unfold fits_int in refl;
  client_text = hi-IsText;
  client_fits = unfold fits_int utf8 in refl;
}

decode_request_header-encode_example :
    (b : Bytes) × (encode_request_header header ≡ ok b) × (decode_request_header b ≡ ok header)
decode_request_header-encode_example = decode_request_header-encode header header-Fits

abbrev short_bytes : Bytes
short_bytes = 1 ∷ 2 ∷ []

two_bytes : length short_bytes ≢ 0
two_bytes e = omega arith

not_four : length short_bytes ≢ 4
not_four e = omega arith

not_eight : length short_bytes ≢ 8
not_eight e = omega arith

deserialize_integer-serialize_integer_example :
    (b : Bytes) × (serialize_integer (some minus_two) ≡ ok b)
    × (deserialize_integer (some b) ≡ ok minus_two)
    × (deserialize_integer (some short_bytes) ≡ err plain_error)
deserialize_integer-serialize_integer_example =
    deserialize_integer-serialize_integer minus_two short_bytes (unfold fits_int in refl) two_bytes
      not_four

deserialize_long_run :
    (b : Bytes) × (serialize_long (some minus_two) ≡ ok b)
    × (deserialize_long (some b) ≡ ok minus_two)
    × (deserialize_long (some short_bytes) ≡ err plain_error)
deserialize_long_run =
    deserialize_long-serialize_long minus_two short_bytes (unfold fits_int in refl) two_bytes
      not_eight
