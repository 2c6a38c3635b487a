-- ===== src/BrokerConnection/Incoming.antt =====
-- src/network/BrokerConnection.ts: the bytes that arrive, cut into messages, and the responses.
pub mod Responses
use kafka_node_ts.Prelude.{
  ℕ, zero, suc, ◌+◌, ◌-◌, Bool, true, false, Option, none, some, List, [], ◌∷◌, ◌++◌, length, ltb,
  leb, if◌then◌else◌,
}
use kafka_node_ts.Prelude.Int.{ℤ, pos, negsuc, ◌+ℤ◌, ◌-ℤ◌, ltb_ℤ, eq_ℤ}
use kafka_node_ts.Prelude.Errors.{Error, Result, ok, err, ◌>>=◌}
use kafka_node_ts.Buffer.{Bytes, read_int, slice}
use kafka_node_ts.JsMap.{int_key, get, delete}
use kafka_node_ts.Network.Headers.{ResponseHeader, decode_response_header}
use kafka_node_ts.BrokerConnection.Defs.{
  BrokerConnection, InFlightRequest, Output, emits_response, emits_throttle, emits_bytes_in,
  resolves, Effect, done, ◌then◌, continue_with, returns, throws, out_of_fuel,
}
use kafka_node_ts.BrokerConnection.Socket.{on_error}

-- `if (throttleTimeMs > 0) this.emit('throttle', throttleTimeMs)`, if the bytes are there.
unfoldable pub throttle_outputs : Bytes → ℕ → Result (List Output)
throttle_outputs message size =
    if leb (size + 4) (length message)
    then (do
      throttle_time_ms ← read_int 4 message (pos size)
      ok (if ltb_ℤ (pos 0) throttle_time_ms then emits_throttle throttle_time_ms ∷ [] else []))
    else ok []

-- The rest of `handleResponse`, once the request is found and taken out.
abbrev pub answer :
    BrokerConnection
    → (id : ℤ) → List Output
    → InFlightRequest
    → Bytes
    → ℕ
    → Result (List Output)
    → Effect
answer c id out r message size (err error) = done c out then on_error error
answer c id out r message size (ok throttle) = done c (
    out
    ++ (throttle ++ (resolves r.promise (slice message (pos size) (pos (length message))) ∷ [])))

abbrev pub respond : ℕ → BrokerConnection → Bytes → ResponseHeader → Option InFlightRequest → Effect
respond now c message header none = done c []
respond now c message header (some r) =
    let id = header.correlation_id in
    answer (record c { in_flight_requests = delete id c.in_flight_requests }) id
      (emits_response r.api_key r.api_version id (pos now -ℤ pos r.sent_time) ∷ []) r message
      header.size (throttle_outputs message header.size)

abbrev pub respond_header : ℕ → BrokerConnection → Bytes → Result ResponseHeader → Effect
respond_header now c message (err error) = on_error error c
respond_header now c message (ok header) =
    respond now c message header (get header.correlation_id c.in_flight_requests)

-- `handleResponse`: what its `try` block throws goes to `onError`.
unfoldable pub handle_response : ℕ → Bytes → BrokerConnection → Effect
handle_response now message c = respond_header now c message (decode_response_header message)

-- The end of `handleIncomingData`: keep the unprocessed bytes.
unfoldable pub keep_rest : Bytes → ℤ → BrokerConnection → Effect
keep_rest buffer processed c =
    done
      (record c {
        buffer =
            if eq_ℤ processed (pos 0)
            then some buffer
            else if ltb_ℤ processed (pos (length buffer))
            then some (slice buffer processed (pos (length buffer)))
            else none;
      })
      []

-- One round, with the size that was read at `processed`.
abbrev pub process_message :
    (now : ℕ) (buffer : Bytes) (processed : ℤ)
    → (ℤ → BrokerConnection → Effect)
    → Result ℤ
    → BrokerConnection
    → Effect
process_message now buffer processed next (err error) c = record {
  conn = c;
  outputs = [];
  ending = throws error;
}
process_message now buffer processed next (ok size) c =
    let left = pos (length buffer) -ℤ processed -ℤ pos 4 in
    let start = processed +ℤ pos 4 in
    if ltb_ℤ left size
    then keep_rest buffer processed c
    else (handle_response now (slice buffer start (start +ℤ size)) c
        then next (processed +ℤ (pos 4 +ℤ size)))

-- The loop over complete messages; `processed` may fall, since a size may be negative.
unfoldable pub process : (fuel now : ℕ) (buffer : Bytes) (processed : ℤ) → BrokerConnection → Effect
process zero now buffer processed c = record { conn = c; outputs = []; ending = out_of_fuel }
process (suc fuel) now buffer processed c =
    let round =
      process_message now buffer processed (process fuel now buffer) (read_int 4 buffer processed)
        c in
    if ltb_ℤ processed (pos (length buffer))
    then (if ltb_ℤ (pos (length buffer) -ℤ processed) (pos 4)
        then keep_rest buffer processed c
        else round)
    else keep_rest buffer processed c

-- `Buffer.concat([this.buffer, data])`, or the data alone.
abbrev pub appended : Option Bytes → Bytes → Bytes
appended none bytes = bytes
appended (some kept) bytes = kept ++ bytes

-- A message takes four bytes at least, unless its size is negative.
unfoldable pub handle_incoming_data : ℕ → Bytes → BrokerConnection → Effect
handle_incoming_data now bytes c =
    let buffer = appended c.buffer bytes in
    done (record c { buffer = some buffer }) (emits_bytes_in (length bytes) ∷ [])
    then process (length buffer + 1) now buffer (pos 0)
