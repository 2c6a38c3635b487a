-- ===== src/Tests/Messages.antt =====
-- src/protocol/RequestHeader.ts, requests/Request.ts and responses/Response.ts, src/errors and the
-- string serde of src/serde on concrete values.
use kafka_node_ts.Prelude.{
  ◌+◌, ◌≡◌, refl, inl, true, false, none, some, [], ◌∷◌, ◌++◌, length, arith,
}
use kafka_node_ts.Prelude.Int.{pos}
use kafka_node_ts.Prelude.Errors.{ok}
use kafka_node_ts.Buffer.{Bytes, fits_int, fits_uint, int_bytes, be_bytes}
use kafka_node_ts.Text.{JsString, utf8}
use kafka_node_ts.Text.Literals.{codes}
use kafka_node_ts.Text.RoundTrip.{IsText, nil, unit}
use kafka_node_ts.JsMap.{JsMap, string_key, get}
use kafka_node_ts.Encoder.{Encoder, new_encoder, write_int32, build}
use kafka_node_ts.Encoder.Laws.{new_encoder-IsConsistent}
use kafka_node_ts.Decoder.{new_decoder, read_int32}
use kafka_node_ts.Decoder.Streams.{decoder_behind}
use kafka_node_ts.BrokerConnection.Framing.{frame}
use kafka_node_ts.Message.Headers.{
  RequestHeader, new_request_header, encode_header, decode_header, header_size, ResponseHeader,
  encode_response_header,
}
use kafka_node_ts.Message.HeaderLaws.{
  Fits, received, decode_header-encode_header, write_int32-Appends, read_int32-Reads,
}
use kafka_node_ts.Message.Requests.{Request, to_buffer, parse}
use kafka_node_ts.Message.RequestLaws.{header_of, to_buffer-frame, parse-frame}
use kafka_node_ts.Errors.{KafkaErrorObject, from_error_code, topic_not_exists_error}
use kafka_node_ts.Errors.Codes.{topic_already_exists, error_code_value}
use kafka_node_ts.Errors.Laws.{Stands, from_error_code-Stands}
use kafka_node_ts.Serde.Shared.{
  StringSerdes, get_string_serde, configure_at, configure_each, serialize_at, deserialize_at,
  get-configure_at,
}
use kafka_node_ts.Serde.Strings.{Platform}

abbrev hi : JsString
hi = codes "hi"

hi-IsText : IsText hi
hi-IsText = unit 104 (inl (omega arith)) (unit 105 (inl (omega arith)) nil)

abbrev tagged : RequestHeader
tagged = record {
  api_key = pos 3;
  api_version = pos 9;
  correlation_id = pos 7;
  client_id = some hi;
  tag = pos 5;
}

abbrev empty : RequestHeader
empty = new_request_header (pos 0) (pos 0) (pos 0) none

tagged-Fits : Fits tagged
unfolding fits_int fits_uint utf8
tagged-Fits = record {
  key_fits = refl;
  version_fits = refl;
  id_fits = refl;
  client_fits = (hi-IsText, refl);
  tag_fits = refl;
}

decode_header-encode_header_example :
    (e' : Encoder) × (encode_header tagged (some new_encoder) ≡ ok (build e', e'))
    × (length (build e') ≡ length (build new_encoder) + header_size tagged)
    × (decode_header empty (decoder_behind new_encoder e' (9 ∷ []))
        ≡ ok (received empty tagged, decoder_behind e' e' (9 ∷ [])))
decode_header-encode_header_example =
    decode_header-encode_header empty tagged new_encoder (9 ∷ []) tagged-Fits
      new_encoder-IsConsistent

-- A request whose body is the number 1.
abbrev one : Request
one = record { api_key = pos 3; encode_body = λ e. write_int32 e (pos 1) }

one-Fits : Fits (header_of one (pos 1) (pos 7) none)
unfolding fits_int fits_uint
one-Fits = record {
  key_fits = refl;
  version_fits = refl;
  id_fits = refl;
  client_fits = tt;
  tag_fits = refl;
}

to_buffer-frame_example :
    (header : Bytes) × (to_buffer one (pos 1) (pos 7) none
      ≡ ok (frame (header ++ int_bytes 4 (pos 1))))
    × (length header ≡ header_size (header_of one (pos 1) (pos 7) none))
    × (decode_header empty (new_decoder (header ++ int_bytes 4 (pos 1)))
        ≡ ok (
          received empty (header_of one (pos 1) (pos 7) none),
          record { buffer = header ++ int_bytes 4 (pos 1); offset = pos (length header) },
        ))
to_buffer-frame_example =
    to_buffer-frame one (pos 1) (pos 7) none empty (int_bytes 4 (pos 1)) one-Fits
      (write_int32-Appends (pos 1) (unfold fits_int in refl))
      (unfold fits_int header_size be_bytes in refl)

abbrev seven : ResponseHeader
seven = record { correlation_id = pos 7 }

parse-frame_example :
    (header : Bytes) × (e : Encoder) × (encode_response_header seven none ≡ ok (header, e))
    × (parse read_int32 (frame (header ++ int_bytes 4 (pos 1)))
        ≡ ok (record { header = some seven; body = pos 1 }))
parse-frame_example =
    parse-frame read_int32 (pos 1) seven (int_bytes 4 (pos 1)) (unfold fits_int in refl)
      (read_int32-Reads (pos 1) (unfold fits_int in refl))

from_error_code-Stands_example :
    (e : KafkaErrorObject) × (from_error_code (pos 58) (some hi) ≡ some e)
    × Stands (pos 58) hi e
    × (from_error_code (pos 0) (some hi) ≡ none)
from_error_code-Stands_example = from_error_code-Stands (pos 58) 104 (105 ∷ []) (ground arith)

-- The code that the enum calls TOPIC_ALREADY_EXISTS stands for a topic that does not exist.
topic_already_exists_run :
    from_error_code (pos (error_code_value topic_already_exists)) none
    ≡ some (record {
      class = topic_not_exists_error;
      message = codes "Topic does not exist";
      error_code = none;
    })
unfolding from_error_code
topic_already_exists_run = refl

-- A platform whose encodings take a unit for a byte; no serde exists yet.
abbrev units : Platform
units = record { to_bytes = λ encoding s. ok s; to_text = λ encoding b. ok b }

abbrev latin_keys : JsMap JsString JsString
latin_keys =
    (codes "key.serializer.encoding", codes "latin1")
    ∷ (codes "key.deserializer.encoding", codes "latin1")
    ∷ []

abbrev none_yet : StringSerdes
none_yet = record { objects = []; instance_ref = none }

get-configure_at_example :
    let for_keys = get_string_serde none_yet in
    let for_values = get_string_serde for_keys.1 in
    let after =
      configure_each
        ((0, ([], false)) ∷ [])
        (configure_at for_keys.0 latin_keys true for_values.1) in
    (serialize_at units for_values.0 (some (233 ∷ [])) after ≡ ok (233 ∷ []))
    × (deserialize_at units for_values.0 (some (233 ∷ [])) after ≡ ok (233 ∷ []))
get-configure_at_example =
    get-configure_at units none_yet latin_keys ((0, ([], false)) ∷ []) 108 108 (codes "atin1")
      (codes "atin1") (233 ∷ []) 233 [] tt (unfold get in refl) (unfold get in refl) refl refl
      ((unfold get in refl, unfold get in refl), tt)
