-- ===== src/BrokerConnection/Requests.antt =====
-- src/network/BrokerConnection.ts: sending requests, and giving up on them.
pub mod Wire
use kafka_node_ts.Prelude.{
  ℕ, ◌+◌, ◌%◌, ◌-◌, Bool, Option, List, [], ◌∷◌, length, ltb, if◌then◌else◌,
}
use kafka_node_ts.Prelude.Int.{ℤ, pos}
use kafka_node_ts.Prelude.Errors.{
  Error, Result, ok, err, ◌>>=◌, disconnected, kafka_error, timed_out,
}
use kafka_node_ts.Buffer.{Bytes, alloc, copy, write_int}
use kafka_node_ts.JsMap.{JsMap, int_key, set, delete}
use kafka_node_ts.Network.Headers.{encode_request_header}
use kafka_node_ts.BrokerConnection.Defs.{
  BrokerConnection, InFlightRequest, Output, writes_socket, emits_request, emits_bytes_out, rejects,
  Effect, done, or_default,
}
use kafka_node_ts.BrokerConnection.Socket.{is_connected}

-- `(this.correlationIdCounter + 1) % 2147483647`
unfoldable pub next_correlation_id : ℕ → ℕ
next_correlation_id counter = (counter + 1) % 2147483647

-- The bytes on the wire: the size without its own field, the header, the payload.
unfoldable pub request_bytes :
    BrokerConnection → (api_key api_version correlation_id : ℤ) → Bytes → Result Bytes
request_bytes c api_key api_version correlation_id request_data = do
  header ← encode_request_header (record {
    api_key = api_key;
    api_version = api_version;
    correlation_id = correlation_id;
    client_id = c.config.client_id;
  })
  let total_size = 4 + length header + length request_data
  let filled = (do
    request ← write_int 4 (alloc total_size) (pos (total_size - 4)) 0
    ok (copy request_data (copy header request 4) (4 + length header)))
  if ltb c.config.max_request_size total_size then err kafka_error else filled

-- What `send` does once the bytes are there, or the exception that leaves it rejects its promise.
abbrev pub dispatch : BrokerConnection → InFlightRequest → Result Bytes → Effect
dispatch c request (err error) = done c (rejects request.promise error ∷ [])
dispatch c request (ok bytes) =
    done (record c { in_flight_requests = set request.correlation_id request c.in_flight_requests })
      (emits_bytes_out (length bytes)
        ∷ emits_request request.api_key request.api_version request.correlation_id
        ∷ writes_socket bytes
        ∷ [])

-- `send`, at the time `now`, returning the promise named `promise`.
unfoldable pub send :
    (now promise : ℕ) (api_key api_version : ℤ) (request_data : Bytes) (timeout : Option ℕ)
    → BrokerConnection
    → Effect
send now promise api_key api_version request_data timeout c =
    let id = next_correlation_id c.correlation_id_counter in
    let request : InFlightRequest = record {
      correlation_id = pos id;
      sent_time = now;
      timeout = or_default timeout c.config.request_timeout;
      api_key = api_key;
      api_version = api_version;
      request_data = request_data;
      promise = promise;
    } in
    if is_connected c
    then dispatch (record c { correlation_id_counter = id }) request
        (request_bytes c api_key api_version (pos id) request_data)
    else done c (rejects promise disconnected ∷ [])

-- The callback of `socket.write`, with an error.
unfoldable pub on_write_error :
    (correlation_id : ℤ) (promise : ℕ) → Error → BrokerConnection → Effect
on_write_error correlation_id promise error c =
    done (record c { in_flight_requests = delete correlation_id c.in_flight_requests })
      (rejects promise error ∷ [])

-- `age > request.timeout`
abbrev pub is_expired : ℕ → InFlightRequest → Bool
is_expired now r = ltb (r.sent_time + r.timeout) now

unfoldable pub expire : ℕ → JsMap ℤ InFlightRequest → JsMap ℤ InFlightRequest × List Output
expire now [] = ([], [])
expire now ((id, r) ∷ m) =
    let (kept, out) = expire now m in
    if is_expired now r then (kept, rejects r.promise timed_out ∷ out) else ((id, r) ∷ kept, out)

-- The round of the request timer, once a second while it runs.
unfoldable pub on_request_timer : ℕ → BrokerConnection → Effect
on_request_timer now c =
    done (record c { in_flight_requests = (expire now c.in_flight_requests).0 })
      (expire now c.in_flight_requests).1
