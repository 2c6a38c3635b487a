-- ===== src/Tests/Exchange.antt =====
-- src/network/BrokerConnection.ts: a request and its response, between other messages.
use kafka_node_ts.Prelude.{
  ◌≡◌, refl, inl, none, List, [], ◌∷◌, ◌++◌, length, arith, ◌+◌, ◌≤◌, leb→le,
}
use kafka_node_ts.Prelude.Int.{pos}
use kafka_node_ts.Prelude.Errors.{ok}
use kafka_node_ts.Buffer.{
  Bytes, fits_int, be_bytes, to_pattern, read_int, of_pattern, be_value_from,
}
use kafka_node_ts.JsMap.{get, int_key}
use kafka_node_ts.Network.Headers.{decode_request_header}
use kafka_node_ts.BrokerConnection.{
  BrokerConnection, Output, emits_bytes_in, resolves, new_connection, done, ◌then◌,
}
use kafka_node_ts.BrokerConnection.Socket.{on_socket_connect, connect, is_connected}
use kafka_node_ts.BrokerConnection.Invariant.{step}
use kafka_node_ts.BrokerConnection.Invariant.Steps.{Reachable-IsValid}
use kafka_node_ts.Network.Headers.Laws.{header_bytes}
use kafka_node_ts.BrokerConnection.Requests.{next_correlation_id, send}
use kafka_node_ts.BrokerConnection.Requests.Wire.{header_of}
use kafka_node_ts.BrokerConnection.Incoming.{handle_incoming_data}
use kafka_node_ts.BrokerConnection.Framing.{frame}
use kafka_node_ts.BrokerConnection.Answers.{IsOther}
use kafka_node_ts.BrokerConnection.Exchange.{next_id, sent_outputs, response-answers-send}
use kafka_node_ts.Tests.Connection.{message, opened, open_header-Fits, open_fits, opened-Reachable}

-- A message for another request, the response to the request 1, and the first bytes of a third message.
abbrev arrived : Bytes
arrived = 0 ∷ 0 ∷ 0 ∷ 9 ∷ (message ++ (0 ∷ 0 ∷ 0 ∷ 6 ∷ 0 ∷ 0 ∷ 0 ∷ 1 ∷ 7 ∷ 8 ∷ 0 ∷ 0 ∷ []))

message-IsOther : IsOther (pos 1) message
unfolding read_int of_pattern be_value_from
message-IsOther = (pos 5, refl, λ e. cc e)

within_limit :
    4 + length (header_bytes (header_of opened (pos 3) (pos 0) (next_id opened))) + 1
    ≤ opened.config.max_request_size
unfolding step on_socket_connect connect new_connection be_bytes
within_limit = leb→le _ _ refl

response-answers-send_example :
    (header : Bytes) × (d : BrokerConnection) × (out : List Output) × (decode_request_header header
      ≡ ok (header_of opened (pos 3) (pos 0) (next_id opened)))
    × ((send 100 4 (pos 3) (pos 0) (9 ∷ []) none opened then handle_incoming_data 250 arrived)
        ≡ done d (
            sent_outputs opened (pos 3) (pos 0) (frame (header ++ (9 ∷ [])))
            ++ (emits_bytes_in 25 ∷ (out ++ resolves 4 (7 ∷ 8 ∷ []) ∷ []))))
    × (get (next_id opened) d.in_flight_requests ≡ none)
unfolding step on_socket_connect connect new_connection next_correlation_id is_connected
response-answers-send_example =
    response-answers-send 100 250 4 (pos 3) (pos 0) (9 ∷ []) none opened arrived (7 ∷ 8 ∷ [])
      (0 ∷ 0 ∷ []) (message ∷ []) refl (Reachable-IsValid opened-Reachable).distinct
      open_header-Fits open_fits within_limit (unfold be_bytes to_pattern in refl)
      ((omega arith, unfold fits_int in refl), tt) (message-IsOther, tt)
      (unfold fits_int be_bytes to_pattern in refl) (inl (omega arith))
