-- ===== src/Message/Requests.antt =====
-- src/protocol/requests/Request.ts and src/protocol/responses/Response.ts: a complete request and a
-- complete response. The body's class is not given there: its `encode` and `decode` are arguments.
use kafka_node_ts.Prelude.{Option, none, some, length}
use kafka_node_ts.Prelude.Int.{ℤ, pos, negsuc, ◌-ℤ◌}
use kafka_node_ts.Prelude.Errors.{Result, ok, ◌>>=◌}
use kafka_node_ts.Buffer.{Bytes, write_int, slice}
use kafka_node_ts.Text.{JsString}
use kafka_node_ts.Encoder.{Encoder, new_encoder, write_int32, build}
use kafka_node_ts.Decoder.{Read, new_decoder}
use kafka_node_ts.Message.Headers.{
  encode_header, ResponseHeader, decode_response_header, new_request_header,
}

-- `this.apiKey()` and `this.encode(encoder)` of a request.
pub record Request : Type 0 where
  pub api_key : ℤ
  pub encode_body : Encoder → Result Encoder

unfoldable pub to_buffer :
    Request → (api_version correlation_id : ℤ) → Option JsString → Result Bytes
to_buffer request api_version correlation_id client_id = do
  let header = new_request_header request.api_key api_version correlation_id client_id
  e ← write_int32 new_encoder (pos 0)
  (_, e) ← encode_header header (some e)
  e ← request.encode_body e
  let buffer = build e
  write_int 4 buffer (pos (length buffer) -ℤ pos 4) 0

-- A response with the header that was parsed, and what its `decode` made of the body.
pub record Response {ℓ} (A : Type ℓ) : Type ℓ where
  pub header : Option ResponseHeader
  pub body : A

unfoldable pub parse {ℓ} : {A : Type ℓ} → (decode_body : Read A) → Bytes → Result (Response A)
parse decode_body buffer = do
  (header, d) ← decode_response_header (new_decoder (slice buffer (pos 4) (pos (length buffer))))
  (body, _) ← decode_body d
  ok (record { header = some header; body = body })

abbrev pub correlation_id_in : Option ResponseHeader → ℤ
correlation_id_in none = negsuc 0
correlation_id_in (some header) = header.correlation_id

-- `correlationId()`
abbrev pub correlation_id_of {ℓ} : {A : Type ℓ} → Response A → ℤ
correlation_id_of response = correlation_id_in response.header
