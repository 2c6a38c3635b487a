-- ===== src/BrokerConnection/Invariant.antt =====
-- src/network/BrokerConnection.ts: what holds of a connection between its handlers, in whatever
-- order calls, socket events and timers come.
pub mod Handlers
pub mod Arrivals
pub mod Steps
use kafka_node_ts.Prelude.{
  ℕ, zero, suc, ◌+◌, ◌-◌, ◌%◌, ◌<◌, ◌≡◌, ◌≢◌, refl, ◌⊎◌, inl, inr, Bool, true, false, Bool-cases,
  Option, none, some, ◌||◌, List, [], ◌∷◌, ◌++◌, length, ltb, All, if◌then◌else◌, arith,
}
use kafka_node_ts.Prelude.Int.{ℤ, pos, ◌+ℤ◌, ◌-ℤ◌, ltb_ℤ}
use kafka_node_ts.Prelude.Errors.{Error, Result, ok, err, disconnected as disconnected_error}
use kafka_node_ts.Buffer.{Bytes, read_int, slice}
use kafka_node_ts.JsMap.{JsMap, int_key, keys, get, set, delete}
use kafka_node_ts.JsMap.Laws.{IsDistinct, delete-IsDistinct, set-IsDistinct}
use kafka_node_ts.Network.Headers.{decode_response_header, ResponseHeader}
use kafka_node_ts.BrokerConnection.Defs.{
  BrokerConnection, BrokerConnectionConfig, InFlightRequest, Output, ConnectionState, disconnected,
  connecting, connected, closing, Ending, returns, throws, out_of_fuel, Effect, done, ◌then◌,
  continue_with, new_connection, listen_error, set_node_id,
}
use kafka_node_ts.BrokerConnection.Socket.{
  is_in, connect, disconnect, on_error, on_disconnect, is_connected, on_socket_connect,
  on_socket_error, on_socket_end, on_socket_close, on_connection_timeout, on_socket_timeout,
}
use kafka_node_ts.BrokerConnection.Requests.{
  next_correlation_id, request_bytes, dispatch, send, on_write_error, expire, is_expired,
  on_request_timer,
}
use kafka_node_ts.BrokerConnection.Incoming.{
  throttle_outputs, answer, respond, respond_header, handle_response, keep_rest, process_message,
  process, appended, handle_incoming_data,
}

-- What may happen to a connection: a method is called, or a handler is called back.
pub data Event : Type 0 where
  connects disconnects listens : Event
  gets_node_id : ℤ → Event
  sends :
      (now promise : ℕ) (api_key api_version : ℤ) (request_data : Bytes) (timeout : Option ℕ)
      → Event
  socket_connects socket_ends socket_times_out connection_times_out : Event
  socket_fails : Error → Event
  socket_closes : (had_error : Bool) → Event
  data_arrives : (now : ℕ) → Bytes → Event
  write_fails : (correlation_id : ℤ) (promise : ℕ) → Error → Event
  timer_ticks : (now : ℕ) → Event

unfoldable pub step : Event → BrokerConnection → Effect
step connects c = connect c
step disconnects c = disconnect c
step listens c = done (listen_error c) []
step (gets_node_id id) c = done (set_node_id id c) []
step (sends now promise key version bytes timeout) c = send now promise key version bytes timeout c
step socket_connects c = on_socket_connect c
step socket_ends c = on_socket_end c
step socket_times_out c = on_socket_timeout c
step connection_times_out c = on_connection_timeout c
step (socket_fails error) c = on_socket_error error c
step (socket_closes had_error) c = on_socket_close had_error c
step (data_arrives now bytes) c = handle_incoming_data now bytes c
step (write_fails id promise error) c = on_write_error id promise error c
step (timer_ticks now) c = on_request_timer now c

-- The connections that events lead to, from a new one.
pub data Reachable (given : BrokerConnectionConfig) : BrokerConnection → Type 0 where
  starts : Reachable given (new_connection given)
  steps : (c : BrokerConnection) (e : Event) → Reachable given c → Reachable given (step e c).conn

-- Requests are in flight, and their timer runs, only while connected; a disconnected connection has
-- no socket; no handler leaves the state `closing` behind; the ids stay in their range, and no two
-- requests in flight have the same.
pub record IsValid (c : BrokerConnection) : Type 0 where
  pub requests : (is_in c.state connected ≡ true) ⊎ (c.in_flight_requests ≡ [])
  pub timer : (is_in c.state connected ≡ true) ⊎ (c.request_timeout_interval ≡ false)
  pub socket : (is_in c.state disconnected ≡ false) ⊎ (c.socket ≡ false)
  pub not_closing : is_in c.state closing ≡ false
  pub counter : c.correlation_id_counter < 2147483647
  pub distinct : IsDistinct (keys c.in_flight_requests)
