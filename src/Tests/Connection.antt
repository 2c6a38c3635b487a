-- ===== src/Tests/Connection.antt =====
-- src/network/BrokerConnection.ts: a connection that gets an answer in two pieces.
use kafka_node_ts.Prelude.{◌≡◌, refl, inl, true, none, some, [], ◌∷◌, ◌++◌, arith}
use kafka_node_ts.Prelude.Int.{negsuc, pos}
use kafka_node_ts.Buffer.{Bytes, fits_int, be_bytes, to_pattern}
use kafka_node_ts.BrokerConnection.{
  BrokerConnection, BrokerConnectionConfig, InFlightRequest, connected, emits_bytes_in,
  new_connection, done, ◌then◌,
}
use kafka_node_ts.BrokerConnection.Incoming.{handle_incoming_data}
use kafka_node_ts.BrokerConnection.Incoming.Responses.{Reaction, handle_response-Reaction}
use kafka_node_ts.BrokerConnection.Invariant.{
  Event, connects, socket_connects, sends, step, Reachable, starts, steps,
}
use kafka_node_ts.Prelude.Errors.{ok}
use kafka_node_ts.Buffer.{read_int, be_value_from, of_pattern}
use kafka_node_ts.BrokerConnection.{listen_error, out_of_fuel}
use kafka_node_ts.BrokerConnection.Incoming.{process}
use kafka_node_ts.BrokerConnection.{returns}
use kafka_node_ts.BrokerConnection.Framing.Pieces.{forget, visible, handle_incoming_data-append}
use kafka_node_ts.BrokerConnection.Socket.{on_socket_connect, connect}
use kafka_node_ts.Text.{utf8}
use kafka_node_ts.Text.RoundTrip.{nil}
use kafka_node_ts.Buffer.{IsInt}
use kafka_node_ts.Prelude.{if◌then◌else◌, ltb, length, ◌+◌}
use kafka_node_ts.Prelude.Errors.{err, kafka_error}
use kafka_node_ts.BrokerConnection.Framing.{frame}
use kafka_node_ts.Network.Headers.{decode_request_header}
use kafka_node_ts.Network.Headers.Laws.{Fits, header_bytes}
use kafka_node_ts.BrokerConnection.Requests.{request_bytes}
use kafka_node_ts.BrokerConnection.Requests.Wire.{header_of, request_bytes-frame}
use kafka_node_ts.BrokerConnection.Socket.{disconnect, on_disconnect}
use kafka_node_ts.BrokerConnection.Requests.{on_request_timer}
use kafka_node_ts.BrokerConnection.Settling.{
  IsConserved, on_request_timer-IsConserved, handle_response-IsConserved,
}
use kafka_node_ts.BrokerConnection.Incoming.{handle_response}
use kafka_node_ts.BrokerConnection.Framing.Stuck.{process-stuck}
use kafka_node_ts.BrokerConnection.Framing.{stream, handle_all}
use kafka_node_ts.BrokerConnection.Framing.Delivery.{kept, handle_incoming_data-stream}

-- An answer to the request 5, and a connection that waits for it and has its first bytes.
abbrev pub message : Bytes
message = 0 ∷ 0 ∷ 0 ∷ 5 ∷ 0 ∷ 0 ∷ 0 ∷ 0 ∷ 7 ∷ []

abbrev request : InFlightRequest
request = record {
  correlation_id = pos 5;
  sent_time = 100;
  timeout = 30000;
  api_key = pos 3;
  api_version = pos 0;
  request_data = [];
  promise = 1;
}

abbrev pub config : BrokerConnectionConfig
config = record {
  client_id = [];
  connection_timeout = none;
  socket_timeout = none;
  max_request_size = none;
  request_timeout = none;
}

abbrev waiting : BrokerConnection
waiting = record (new_connection config) {
  socket = true;
  state = connected;
  in_flight_requests = (pos 5, request) ∷ [];
  buffer = some (0 ∷ 0 ∷ 0 ∷ 9 ∷ 0 ∷ 0 ∷ []);
}

-- What arrives next: the rest of the answer, and the first bytes of another message.
abbrev next_bytes : Bytes
next_bytes = 0 ∷ 5 ∷ 0 ∷ 0 ∷ 0 ∷ 0 ∷ 7 ∷ 0 ∷ 0 ∷ []

handle_response-Reaction_example : Reaction 250 message waiting
handle_response-Reaction_example = handle_response-Reaction 250 message waiting (omega arith)

handle_incoming_data-stream_example :
    (handle_incoming_data 250 next_bytes waiting ≡ (
      done
        (record waiting { buffer = some (stream (message ∷ []) ++ (0 ∷ 0 ∷ [])) })
        (emits_bytes_in 9 ∷ [])
      then handle_all 250 (message ∷ [])
      then λ d. done (record d { buffer = kept (message ∷ []) (0 ∷ 0 ∷ []) }) []))
    × ((handle_incoming_data 250 next_bytes waiting).ending ≡ returns)
handle_incoming_data-stream_example =
    handle_incoming_data-stream 250 next_bytes (message ∷ []) (0 ∷ 0 ∷ []) waiting
      (unfold be_bytes to_pattern in refl) ((omega arith, unfold fits_int in refl), tt)
      (inl (omega arith))

-- A connection that has connected and sent one request.
abbrev pub opened : BrokerConnection
opened = (step socket_connects (step connects (new_connection config)).conn).conn

pub opened-Reachable : Reachable config opened
opened-Reachable =
    steps (step connects (new_connection config)).conn socket_connects
      (steps (new_connection config) connects starts)

abbrev sending : Event
sending = sends 100 1 (pos 3) (pos 0) [] none

-- The size -4, and a connection on which `error` has a listener.
abbrev negative : Bytes
negative = 255 ∷ 255 ∷ 255 ∷ 252 ∷ []

negative_size : read_int 4 negative (pos 0) ≡ ok (negsuc 3)
unfolding read_int of_pattern be_value_from
negative_size = refl

process-stuck_example :
    (process 1000 250 negative (pos 0) (listen_error opened)).ending ≡ out_of_fuel
process-stuck_example =
    process-stuck 250 negative negative_size (omega arith) 1000 (listen_error opened) refl

-- The same bytes, cut within the answer.
abbrev piece_1 : Bytes
piece_1 = 0 ∷ 5 ∷ 0 ∷ []

abbrev piece_2 : Bytes
piece_2 = 0 ∷ 0 ∷ 0 ∷ 7 ∷ 0 ∷ 0 ∷ []

handle_incoming_data-append_example :
    (forget (handle_incoming_data 250 piece_1 waiting then handle_incoming_data 250 piece_2).conn
      ≡ forget (handle_incoming_data 250 (piece_1 ++ piece_2) waiting).conn)
    × (visible
          (handle_incoming_data 250 piece_1 waiting then handle_incoming_data 250 piece_2).outputs
        ≡ visible (handle_incoming_data 250 (piece_1 ++ piece_2) waiting).outputs)
    × ((handle_incoming_data 250 piece_1 waiting then handle_incoming_data 250 piece_2).ending
        ≡ returns)
handle_incoming_data-append_example =
    handle_incoming_data-append 250 piece_1 piece_2 (message ∷ []) (0 ∷ 0 ∷ []) waiting
      (unfold be_bytes to_pattern in refl) ((omega arith, unfold fits_int in refl), tt)
      (inl (omega arith))

pub open_header-Fits : Fits (header_of opened (pos 3) (pos 0) (pos 1))
unfolding step on_socket_connect connect new_connection utf8 fits_int
open_header-Fits = record {
  key_fits = refl;
  version_fits = refl;
  id_fits = refl;
  client_text = nil;
  client_fits = refl;
}

pub open_fits : IsInt 4 (pos (length (header_bytes (header_of opened (pos 3) (pos 0) (pos 1))) + 1))
unfolding step on_socket_connect connect new_connection fits_int be_bytes
open_fits = refl

request_bytes-frame_example :
    (header : Bytes) × (decode_request_header header
      ≡ ok (header_of opened (pos 3) (pos 0) (pos 1)))
    × (request_bytes opened (pos 3) (pos 0) (pos 1) (9 ∷ []) ≡ (
        if ltb opened.config.max_request_size (4 + length header + 1)
        then err kafka_error
        else ok (frame (header ++ (9 ∷ [])))))
request_bytes-frame_example =
    request_bytes-frame opened (pos 3) (pos 0) (pos 1) (9 ∷ []) open_header-Fits open_fits

on_request_timer-IsConserved_example :
    IsConserved 1 waiting (disconnect waiting)
    × IsConserved 1 waiting (on_disconnect none waiting)
    × IsConserved 1 waiting (on_request_timer 90000 waiting)
on_request_timer-IsConserved_example = on_request_timer-IsConserved 1 90000 none waiting

handle_response-IsConserved_example : IsConserved 1 waiting (handle_response 250 message waiting)
handle_response-IsConserved_example =
    handle_response-IsConserved 1 250 message waiting (omega arith)
