-- ===== src/BrokerConnection/Requests/Wire.antt =====
-- src/network/BrokerConnection.ts: the bytes that `send` writes to the socket.
use kafka_node_ts.Prelude.{
  ℕ, ◌+◌, ◌-◌, ◌≡◌, refl, ap, ◌∙◌, sym, [], ◌++◌, length, length-append, append-nil, append_assoc,
  ltb, if◌then◌else◌, arith,
}
use kafka_node_ts.Prelude.Int.{ℤ, pos}
use kafka_node_ts.Prelude.Errors.{Result, ok, err, ◌>>=◌, kafka_error}
use kafka_node_ts.Buffer.{Bytes, alloc, IsInt, int_bytes, write_int, copy, put}
use kafka_node_ts.Buffer.Numbers.{length-int_bytes}
use kafka_node_ts.Buffer.Frontier.{write_int-next, put-next}
use kafka_node_ts.Network.Headers.{RequestHeader, decode_request_header}
use kafka_node_ts.Network.Headers.Laws.{
  Fits, header_bytes, encode_request_header-eq, decode_request_header-encode,
}
use kafka_node_ts.BrokerConnection.Defs.{BrokerConnection}
use kafka_node_ts.BrokerConnection.Requests.{request_bytes}
use kafka_node_ts.BrokerConnection.Framing.{frame}

-- The header that `send` makes.
abbrev pub header_of : BrokerConnection → (api_key api_version correlation_id : ℤ) → RequestHeader
header_of c key version id = record {
  api_key = key;
  api_version = version;
  correlation_id = id;
  client_id = c.config.client_id;
}

module _ (header payload : Bytes) (fits : IsInt 4 (pos (length header + length payload))) where
  abbrev size : Bytes
  size = int_bytes 4 (pos (length header + length payload))

  body_size : length (header ++ payload) ≡ length header + length payload
  body_size = length-append header payload

  filled :
      (k : ℕ)
      → k ≡ length header + length payload
      → (do
        request ← write_int 4 (alloc (4 + length header + length payload)) (pos k) 0
        ok (copy payload (copy header request 4) (4 + length header)))
        ≡ ok (frame (header ++ payload))
  filled k e =
      rw
        (
          e,
          write_int-next [] 0 (4 + length header + length payload) (length header + length payload)
              refl 4 (pos (length header + length payload)) fits (omega arith),
        )
        (ap ok (
          ap (λ (b : Bytes). put b (4 + length header) payload)
            (put-next size 4 (length header + length payload) (length payload)
              (sym (length-int_bytes 4 (pos (length header + length payload)))) header
              (omega arith))
          ∙ put-next (size ++ header) (4 + length header) (length payload) 0
              (omega (
                arith,
                length-append size header,
                length-int_bytes 4 (pos (length header + length payload)),
              ))
              payload (omega arith)
          ∙ append-nil ((size ++ header) ++ payload)
          ∙ append_assoc size header payload
          ∙ ap (λ (n : ℕ). int_bytes 4 (pos n) ++ (header ++ payload)) (sym body_size)))

-- The bytes of a header that fits its fields decode to it.
pub decode_request_header-bytes :
    (h : RequestHeader) → Fits h → decode_request_header (header_bytes h) ≡ ok h
decode_request_header-bytes h f =
    let (b, encoded, decoded) = decode_request_header-encode h f in
    let known : ok b ≡ ok (header_bytes h) = sym encoded ∙ encode_request_header-eq h f in
    let same : b ≡ header_bytes h = cc known in ap decode_request_header (sym same) ∙ decoded

-- A request within the limit is one message, its header and its payload.
pub request_bytes-eq :
    (c : BrokerConnection) (key version id : ℤ) (payload : Bytes)
    → Fits (header_of c key version id)
    → IsInt 4 (pos (length (header_bytes (header_of c key version id)) + length payload))
    → request_bytes c key version id payload ≡ (
        if ltb c.config.max_request_size
          (4 + length (header_bytes (header_of c key version id)) + length payload)
        then err kafka_error
        else ok (frame (header_bytes (header_of c key version id) ++ payload)))
unfolding request_bytes
request_bytes-eq c key version id payload f fits =
    let h = header_of c key version id in
    rw (encode_request_header-eq h f) (
      ap
        (λ (r : Result Bytes).
          if ltb c.config.max_request_size (4 + length (header_bytes h) + length payload)
          then err kafka_error
          else r)
        (filled (header_bytes h) payload fits (4 + length (header_bytes h) + length payload - 4)
          (omega arith)))

-- A request whose header fits its fields and whose size fits an int32: if it is within the configured
-- limit, `send` writes one message, framed as the broker frames its own, which holds bytes that decode
-- to the header of the request, and behind them the payload; if not, it refuses with a KafkaError.
pub request_bytes-frame :
    (c : BrokerConnection) (key version id : ℤ) (payload : Bytes)
    → Fits (header_of c key version id)
    → IsInt 4 (pos (length (header_bytes (header_of c key version id)) + length payload))
    → (header : Bytes) × (decode_request_header header ≡ ok (header_of c key version id))
      × (request_bytes c key version id payload ≡ (
          if ltb c.config.max_request_size (4 + length header + length payload)
          then err kafka_error
          else ok (frame (header ++ payload))))
request_bytes-frame c key version id payload f fits = (
  header_bytes (header_of c key version id),
  decode_request_header-bytes (header_of c key version id) f,
  request_bytes-eq c key version id payload f fits,
)
