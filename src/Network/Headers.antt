-- ===== src/Network/Headers.antt =====
-- src/network/protocol/Headers.ts: the headers in front of requests and responses.
pub mod Laws
use kafka_node_ts.Prelude.{ℕ, ◌+◌, Bool, true, false, [], ◌∷◌, if◌then◌else◌}
use kafka_node_ts.Prelude.Int.{ℤ, pos, negsuc, ltb_ℤ, is_negative, ◌+ℤ◌}
use kafka_node_ts.Prelude.Errors.{Result, ok, ◌>>=◌}
use kafka_node_ts.Buffer.{Bytes, alloc, write_int, read_int}
use kafka_node_ts.Text.{JsString, byte_length, write_string, to_string}

pub record RequestHeader : Type 0 where
  pub api_key : ℤ
  pub api_version : ℤ
  pub correlation_id : ℤ
  pub client_id : JsString

-- `this.clientId ? ... : ...`: an empty string counts as absent.
abbrev pub is_given : JsString → Bool
is_given [] = false
is_given (u ∷ s) = true

unfoldable pub encode_request_header : RequestHeader → Result Bytes
encode_request_header h = do
  let given = is_given h.client_id
  let client_id_length = if given then pos (byte_length h.client_id) else negsuc 0
  let text_size = if ltb_ℤ (pos 0) client_id_length then byte_length h.client_id else 0
  let buffer = alloc (10 + text_size)
  buffer ← write_int 2 buffer h.api_key 0
  buffer ← write_int 2 buffer h.api_version 2
  buffer ← write_int 4 buffer h.correlation_id 4
  if given
      then (write_int 2 buffer client_id_length 8 >>= λ b. write_string b h.client_id 10)
      else write_int 2 buffer (negsuc 0) 8

unfoldable pub decode_request_header : Bytes → Result RequestHeader
decode_request_header buffer = do
  api_key ← read_int 2 buffer (pos 0)
  api_version ← read_int 2 buffer (pos 2)
  correlation_id ← read_int 4 buffer (pos 4)
  client_id_length ← read_int 2 buffer (pos 8)
  let client_id =
      if is_negative client_id_length
      then []
      else to_string buffer (pos 10) (pos 10 +ℤ client_id_length)
  ok (record {
    api_key = api_key;
    api_version = api_version;
    correlation_id = correlation_id;
    client_id = client_id;
  })

pub record ResponseHeader : Type 0 where
  pub correlation_id : ℤ
  pub size : ℕ

unfoldable pub decode_response_header : Bytes → Result ResponseHeader
decode_response_header buffer = do
  correlation_id ← read_int 4 buffer (pos 0)
  ok (record { correlation_id = correlation_id; size = 4 })
