-- ===== src/Message/Headers.antt =====
-- src/protocol/RequestHeader.ts, with its copy src/protocol/RequestEncoder.ts, and
-- src/protocol/ResponseHeader.ts: the headers as messages, written by an encoder and read by a decoder.
use kafka_node_ts.Prelude.{ℕ, ◌+◌, Bool, Option, none, some, if◌then◌else◌}
use kafka_node_ts.Prelude.Int.{ℤ, pos, leb_ℤ}
use kafka_node_ts.Prelude.Errors.{Result, ok, ◌>>=◌}
use kafka_node_ts.Buffer.{Bytes}
use kafka_node_ts.Text.{JsString, byte_length}
use kafka_node_ts.Encoder.{
  Encoder, new_encoder, write_int16, write_int32, write_uint16, write_string, build,
}
use kafka_node_ts.Decoder.{Read, read_int16, read_int32, read_uint16, read_string}

pub record RequestHeader : Type 0 where
  pub api_key : ℤ
  pub api_version : ℤ
  pub correlation_id : ℤ
  pub client_id : Option JsString
  pub tag : ℤ

-- `new RequestHeader(apiKey, apiVersion, correlationId, clientId)`
abbrev pub new_request_header :
    (api_key api_version correlation_id : ℤ) → Option JsString → RequestHeader
new_request_header api_key api_version correlation_id client_id = record {
  api_key = api_key;
  api_version = api_version;
  correlation_id = correlation_id;
  client_id = client_id;
  tag = pos 0;
}

-- The test for the tag field.
abbrev pub has_tag : ℤ → Bool
has_tag api_version = leb_ℤ (pos 2) api_version

abbrev pub write_tag : RequestHeader → Encoder → Result Encoder
write_tag h e = if has_tag h.api_version then write_uint16 e h.tag else ok e

-- What `encode` writes to the encoder.
unfoldable pub write_request_header : RequestHeader → Encoder → Result Encoder
write_request_header h e = do
  e ← write_int16 e h.api_key
  e ← write_int16 e h.api_version
  e ← write_int32 e h.correlation_id
  e ← write_string e h.client_id
  write_tag h e

-- `encoder || new Encoder()`
abbrev pub or_new_encoder : Option Encoder → Encoder
or_new_encoder none = new_encoder
or_new_encoder (some e) = e

-- What an encoder has built after a write, with the encoder.
abbrev pub built : Result Encoder → Result (Bytes × Encoder)
built r = do e ← r; ok (build e, e)

-- `encode(encoder)`: all that the encoder holds, and the encoder after it.
unfoldable pub encode_header : RequestHeader → Option Encoder → Result (Bytes × Encoder)
encode_header h encoder = built (write_request_header h (or_new_encoder encoder))

abbrev pub read_tag : RequestHeader → Read RequestHeader
read_tag h d =
    if has_tag h.api_version
    then (do (tag, d) ← read_uint16 d; ok (record h { tag = tag }, d))
    else ok (h, d)

-- `decode(decoder)`: the fields of the header `this` are replaced; without a tag field its tag stays.
unfoldable pub decode_header : RequestHeader → Read RequestHeader
decode_header this d = do
  (api_key, d) ← read_int16 d
  (api_version, d) ← read_int16 d
  (correlation_id, d) ← read_int32 d
  (client_id, d) ← read_string d
  read_tag
      (record {
        api_key = api_key;
        api_version = api_version;
        correlation_id = correlation_id;
        client_id = client_id;
        tag = this.tag;
      })
      d

abbrev pub client_id_size : Option JsString → ℕ
client_id_size none = 0
client_id_size (some client_id) = byte_length client_id

-- `size`
unfoldable pub header_size : RequestHeader → ℕ
header_size h =
    2 + 2 + 4 + 2 + client_id_size h.client_id + (if has_tag h.api_version then 2 else 0)

pub record ResponseHeader : Type 0 where
  pub correlation_id : ℤ

unfoldable pub encode_response_header : ResponseHeader → Option Encoder → Result (Bytes × Encoder)
encode_response_header h encoder = built (write_int32 (or_new_encoder encoder) h.correlation_id)

unfoldable pub decode_response_header : Read ResponseHeader
decode_response_header d = do
  (correlation_id, d) ← read_int32 d
  ok (record { correlation_id = correlation_id }, d)
