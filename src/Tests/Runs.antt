-- ===== src/Tests/Runs.antt =====
-- src/network/BrokerConnection.ts: a run in which one request is answered and one cannot be written.
use kafka_node_ts.Prelude.{◌+◌, ◌≡◌, refl, ◌⊎◌, true, false, none, List, [], ◌∷◌}
use kafka_node_ts.Prelude.Int.{pos}
use kafka_node_ts.Prelude.Errors.{plain_error}
use kafka_node_ts.Network.Headers.{encode_request_header}
use kafka_node_ts.Buffer.{write_int, fits_int, put, be_bytes}
use kafka_node_ts.BrokerConnection.{new_connection, connected}
use kafka_node_ts.BrokerConnection.Socket.{is_in, connect, on_socket_connect, is_connected}
use kafka_node_ts.BrokerConnection.Requests.{send, request_bytes, next_correlation_id}
use kafka_node_ts.BrokerConnection.Invariant.{
  Event, connects, sends, socket_connects, socket_closes, write_fails, data_arrives, step,
}
use kafka_node_ts.JsMap.{get, set, int_key}
use kafka_node_ts.BrokerConnection.Settling.{times_settled, times_waiting}
use kafka_node_ts.BrokerConnection.Settling.Runs.{run, times_asked, AreOrderly, times_settled-run}
use kafka_node_ts.Tests.Connection.{config}

-- Two requests; the second one cannot be written; the first one is answered before the connection
-- closes.
abbrev events : List Event
events =
    connects
    ∷ socket_connects
    ∷ sends 100 1 (pos 3) (pos 0) (9 ∷ []) none
    ∷ sends 200 2 (pos 3) (pos 0) (9 ∷ []) none
    ∷ write_fails (pos 2) 2 plain_error
    ∷ data_arrives 250 (0 ∷ 0 ∷ 0 ∷ 5 ∷ 0 ∷ 0 ∷ 0 ∷ 1 ∷ 7 ∷ [])
    ∷ socket_closes false
    ∷ []

events-AreOrderly : AreOrderly events (new_connection config)
unfolding step connect new_connection on_socket_connect send is_connected next_correlation_id get
    set request_bytes encode_request_header write_int fits_int put be_bytes
events-AreOrderly = (tt, (tt, (refl, (refl, ((_, refl, refl), (tt, (tt, tt)))))))

times_settled-run_example :
    (times_settled 2 (run events (new_connection config)).1
        + times_waiting 2 (run events (new_connection config)).0.in_flight_requests
      ≡ times_asked 2 events)
    × ((is_in (run events (new_connection config)).0.state connected ≡ true)
        ⊎ (times_settled 2 (run events (new_connection config)).1 ≡ times_asked 2 events))
times_settled-run_example = times_settled-run 2 config events events-AreOrderly
