-- ===== src/BrokerConnection/Exchange.antt =====
-- src/network/BrokerConnection.ts: a request that is sent, and the response to it that arrives.
use kafka_node_ts.Prelude.{
  ℕ, ◌+◌, ◌≤◌, ◌≡◌, refl, ◌∙◌, true, Option, none, List, [], ◌∷◌, ◌++◌, length, All, if◌then◌else◌,
  arith,
}
use kafka_node_ts.Prelude.Int.{ℤ, pos, eq_ℤ_iff}
use kafka_node_ts.Prelude.Errors.{ok}
use kafka_node_ts.Buffer.{Bytes, IsInt, fits_int, int_bytes}
use kafka_node_ts.JsMap.{int_key, get, set, keys}
use kafka_node_ts.JsMap.Laws.{IsDistinct, get-set, set-IsDistinct}
use kafka_node_ts.BrokerConnection.Defs.{
  BrokerConnection, InFlightRequest, Output, resolves, emits_bytes_in, writes_socket, emits_request,
  emits_bytes_out, done, ◌then◌, or_default,
}
use kafka_node_ts.BrokerConnection.Socket.{is_connected}
use kafka_node_ts.BrokerConnection.Requests.{next_correlation_id, request_bytes, send}
use kafka_node_ts.BrokerConnection.Incoming.{handle_incoming_data, appended}
use kafka_node_ts.Network.Headers.{decode_request_header}
use kafka_node_ts.Network.Headers.Laws.{Fits, header_bytes}
use kafka_node_ts.BrokerConnection.Requests.Wire.{
  header_of, request_bytes-eq, decode_request_header-bytes,
}
use kafka_node_ts.BrokerConnection.Framing.{IsMessage, IsPartial, frame, stream}
use kafka_node_ts.BrokerConnection.Answers.{IsOther, Awaits, arrived-answers}

id-IsInt : (n : ℕ) → IsInt 4 (pos (next_correlation_id n))
unfolding fits_int next_correlation_id
id-IsInt n = ground arith

-- What `send` keeps of a request.
abbrev pub request_of :
    BrokerConnection
    → (now promise : ℕ) → (api_key api_version : ℤ) → Bytes
    → Option ℕ
    → InFlightRequest
request_of c now promise api_key api_version payload timeout = record {
  correlation_id = pos (next_correlation_id c.correlation_id_counter);
  sent_time = now;
  timeout = or_default timeout c.config.request_timeout;
  api_key = api_key;
  api_version = api_version;
  request_data = payload;
  promise = promise;
}

abbrev pub next_id : BrokerConnection → ℤ
next_id c = pos (next_correlation_id c.correlation_id_counter)

-- The connection with the request in flight.
abbrev pub sending : BrokerConnection → InFlightRequest → BrokerConnection
sending c r = record c {
  correlation_id_counter = next_correlation_id c.correlation_id_counter;
  in_flight_requests = set (next_id c) r c.in_flight_requests;
}

-- What `send` puts out for the bytes that it writes.
abbrev pub sent_outputs : BrokerConnection → (api_key api_version : ℤ) → Bytes → List Output
sent_outputs c key version bytes =
    emits_bytes_out (length bytes)
    ∷ emits_request key version (next_id c)
    ∷ writes_socket bytes
    ∷ []

module _ (now promise : ℕ) (key version : ℤ) (payload : Bytes) (timeout : Option ℕ)
    (c : BrokerConnection) where
  send-dispatches :
      (bytes : Bytes)
      → is_connected c ≡ true
      → request_bytes c key version (next_id c) payload ≡ ok bytes
      → send now promise key version payload timeout c
        ≡ done
            (sending c (request_of c now promise key version payload timeout))
            (sent_outputs c key version bytes)
  unfolding send
  send-dispatches bytes up e = rw (up, e)

  sending-Awaits :
      (r : InFlightRequest)
      → IsDistinct (keys c.in_flight_requests)
      → Awaits now (next_id c) r (sending c r)
  sending-Awaits r distinct = (
    get-set (next_id c) (next_id c) r c.in_flight_requests
        ∙ rw ((eq_ℤ_iff (next_id c) (next_id c)).1 refl) refl,
    set-IsDistinct (next_id c) r c.in_flight_requests distinct,
  )

-- A connected connection with no id in flight twice sends a request whose header fits its fields and
-- whose size is within the limit, an int32. Later bytes arrive that, behind those that were kept, are
-- messages with other correlation ids, then the response with the id of the request and some body, and
-- a rest with no complete message. Then `send` writes one frame that holds the header of the request
-- and its payload, the last output is that the promise of the request resolves with that body,
-- neither step throws, and the request is no longer in flight.
pub response-answers-send :
    (now later promise : ℕ) (key version : ℤ) (payload : Bytes) (timeout : Option ℕ)
    (c : BrokerConnection) (bytes body rest : Bytes) (ms : List Bytes)
    → is_connected c ≡ true
    → IsDistinct (keys c.in_flight_requests)
    → Fits (header_of c key version (next_id c))
    → IsInt 4 (pos (length (header_bytes (header_of c key version (next_id c))) + length payload))
    → 4 + length (header_bytes (header_of c key version (next_id c))) + length payload
      ≤ c.config.max_request_size
    → appended c.buffer bytes ≡ stream (ms ++ (int_bytes 4 (next_id c) ++ body) ∷ []) ++ rest
    → All IsMessage ms
    → All (IsOther (next_id c)) ms
    → IsInt 4 (pos (length (int_bytes 4 (next_id c) ++ body)))
    → IsPartial rest
    → (header : Bytes) × (d : BrokerConnection) × (out : List Output) × (decode_request_header
          header
        ≡ ok (header_of c key version (next_id c)))
      × ((send now promise key version payload timeout c then handle_incoming_data later bytes)
          ≡ done d (
              sent_outputs c key version (frame (header ++ payload))
              ++ (emits_bytes_in (length bytes) ∷ (out ++ resolves promise body ∷ []))))
      × (get (next_id c) d.in_flight_requests ≡ none)
response-answers-send now later promise key version payload timeout c bytes body rest ms up distinct
      f fits within arrives messages others long partial =
    let r = request_of c now promise key version payload timeout in
    let (d, out, handled, gone) =
      arrived-answers later (next_id c) r body (id-IsInt c.correlation_id_counter) bytes rest ms
        (sending c r) arrives messages others long partial
        (sending-Awaits now promise key version payload timeout c r distinct) in
    (
      header_bytes (header_of c key version (next_id c)),
      d,
      out,
      decode_request_header-bytes (header_of c key version (next_id c)) f,
      rw
          (send-dispatches now promise key version payload timeout c
            (frame (header_bytes (header_of c key version (next_id c)) ++ payload)) up
            (request_bytes-eq c key version (next_id c) payload f fits ∙ ground arith))
          (rw handled refl),
      gone,
    )
