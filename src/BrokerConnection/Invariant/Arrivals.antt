-- ===== src/BrokerConnection/Invariant/Arrivals.antt =====
-- src/network/BrokerConnection.ts: the bytes that arrive keep the invariant.
use kafka_node_ts.Prelude.{
  ℕ, zero, suc, ◌+◌, inl, inr, Bool-cases, Option, none, some, List, [], ◌∷◌, length,
}
use kafka_node_ts.Prelude.Int.{ℤ, pos, ◌+ℤ◌, ◌-ℤ◌, ltb_ℤ}
use kafka_node_ts.Prelude.Errors.{Result, ok, err}
use kafka_node_ts.Buffer.{Bytes, read_int}
use kafka_node_ts.JsMap.{int_key, get}
use kafka_node_ts.Network.Headers.{decode_response_header, ResponseHeader}
use kafka_node_ts.BrokerConnection.Defs.{
  BrokerConnection, InFlightRequest, Output, emits_response, Effect, done,
}
use kafka_node_ts.BrokerConnection.Socket.{on_error}
use kafka_node_ts.BrokerConnection.Incoming.{
  throttle_outputs, answer, respond, respond_header, handle_response, keep_rest, process_message,
  process, appended, handle_incoming_data,
}
use kafka_node_ts.BrokerConnection.Invariant.{IsValid}
use kafka_node_ts.BrokerConnection.Invariant.Handlers.{
  then-IsValid, on_error-IsValid, delete-IsValid,
}

answer-IsValid :
    (c : BrokerConnection) (id : ℤ) (out : List Output) (r : InFlightRequest) (m : Bytes) (n : ℕ)
    (t : Result (List Output))
    → IsValid c
    → IsValid (answer c id out r m n t).conn
answer-IsValid c id out r m n (err error) h =
    then-IsValid (done c out) (on_error error) h (on_error-IsValid error)
answer-IsValid c id out r m n (ok throttle) h = h

respond-IsValid :
    (now : ℕ) (c : BrokerConnection) (m : Bytes) (header : ResponseHeader)
    (o : Option InFlightRequest)
    → IsValid c
    → IsValid (respond now c m header o).conn
respond-IsValid now c m header none h = h
respond-IsValid now c m header (some r) h =
    answer-IsValid _ header.correlation_id
      (emits_response r.api_key r.api_version header.correlation_id (pos now -ℤ pos r.sent_time)
        ∷ [])
      r m header.size (throttle_outputs m header.size) (delete-IsValid header.correlation_id c h)

respond_header-IsValid :
    (now : ℕ) (c : BrokerConnection) (m : Bytes) (r : Result ResponseHeader)
    → IsValid c
    → IsValid (respond_header now c m r).conn
respond_header-IsValid now c m (err error) h = on_error-IsValid error c h
respond_header-IsValid now c m (ok header) h =
    respond-IsValid now c m header (get header.correlation_id c.in_flight_requests) h

handle_response-IsValid :
    (now : ℕ) (m : Bytes) (c : BrokerConnection)
    → IsValid c
    → IsValid (handle_response now m c).conn
unfolding handle_response
handle_response-IsValid now m c h = respond_header-IsValid now c m (decode_response_header m) h

-- The bytes kept do not matter.
buffered : (c : BrokerConnection) (b : Option Bytes) → IsValid c → IsValid (record c { buffer = b })
buffered c b h = record {
  requests = h.requests;
  timer = h.timer;
  socket = h.socket;
  not_closing = h.not_closing;
  counter = h.counter;
  distinct = h.distinct;
}

keep_rest-IsValid :
    (buffer : Bytes) (processed : ℤ) (c : BrokerConnection)
    → IsValid c
    → IsValid (keep_rest buffer processed c).conn
unfolding keep_rest
keep_rest-IsValid buffer processed c h = buffered c _ h

process_message-IsValid :
    (now : ℕ) (buffer : Bytes) (processed : ℤ) (next : ℤ → BrokerConnection → Effect)
    (size : Result ℤ) (c : BrokerConnection)
    → ((i : ℤ) (c : BrokerConnection) → IsValid c → IsValid (next i c).conn)
    → IsValid c
    → IsValid (process_message now buffer processed next size c).conn
process_message-IsValid now buffer processed next (err error) c k h = h
process_message-IsValid now buffer processed next (ok size) c k h =
    elim (Bool-cases (ltb_ℤ (pos (length buffer) -ℤ processed -ℤ pos 4) size)) [
      | inl e ↦ rw e (keep_rest-IsValid buffer processed c h)
      | inr e ↦ rw e (
          then-IsValid _ (next (processed +ℤ (pos 4 +ℤ size))) (handle_response-IsValid now _ c h)
            (k (processed +ℤ (pos 4 +ℤ size))))
    ]

process-IsValid :
    (fuel now : ℕ) (buffer : Bytes) (processed : ℤ) (c : BrokerConnection)
    → IsValid c
    → IsValid (process fuel now buffer processed c).conn
unfolding process
process-IsValid zero now buffer processed c h = h
process-IsValid (suc fuel) now buffer processed c h =
    let round =
      process_message-IsValid now buffer processed (process fuel now buffer)
        (read_int 4 buffer processed) c (process-IsValid fuel now buffer) h in
    let kept = keep_rest-IsValid buffer processed c h in
    elim (Bool-cases (ltb_ℤ processed (pos (length buffer)))) [
      | inl e ↦ elim (Bool-cases (ltb_ℤ (pos (length buffer) -ℤ processed) (pos 4))) [
        | inl f ↦ rw (e, f) kept
        | inr f ↦ rw (e, f) round
      ]
      | inr e ↦ rw e kept
    ]

pub handle_incoming_data-IsValid :
    (now : ℕ) (bytes : Bytes) (c : BrokerConnection)
    → IsValid c
    → IsValid (handle_incoming_data now bytes c).conn
unfolding handle_incoming_data
handle_incoming_data-IsValid now bytes c h =
    process-IsValid (length (appended c.buffer bytes) + 1) now (appended c.buffer bytes) (pos 0) _
      (buffered c (some (appended c.buffer bytes)) h)
