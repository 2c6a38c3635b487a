-- ===== src/NetworkClient/Brokers.antt =====
-- src/network/NetworkClient.ts over src/network/BrokerConnection.ts: the connections that the client
-- awaits, with what their sockets bring in the meantime written down beforehand.
use kafka_node_ts.Prelude.{
  ℕ, zero, ◌&&◌, inl, inr, Bool-cases, if_taken, ◌≡◌, refl, ap, not, Bool, true, false, if_passed,
  Option, none, some, List, [], ◌∷◌, if◌then◌else◌,
}
use kafka_node_ts.Prelude.Int.{ℤ}
use kafka_node_ts.Prelude.Errors.{Result, ok, err, disconnected}
use kafka_node_ts.Buffer.{Bytes}
use kafka_node_ts.Text.{JsString}
use kafka_node_ts.BrokerConnection.{
  BrokerConnection, BrokerConnectionConfig, ConnectionState, disconnected as disconnected_state,
  connecting, connected, closing, Output, resolves, rejects, Effect, new_connection, set_node_id,
}
use kafka_node_ts.BrokerConnection.Socket.{
  is_in, connect, disconnect, is_connected, on_socket_connect, on_socket_end,
}
use kafka_node_ts.BrokerConnection.Requests.{send}
use kafka_node_ts.BrokerConnection.Incoming.{handle_incoming_data}
use kafka_node_ts.NetworkClient.Defs.{Connections}

-- What the socket brings while the client waits: it opens, or it ends, or bytes arrive.
pub data Answer : Type 0 where
  opens ends : Answer
  brings : Bytes → Answer

pub record Scripted : Type 0 where
  pub conn : BrokerConnection
  pub script : List Answer

-- How the promise 0 is settled.
abbrev settled : List Output → Option (Result Bytes)
settled [] = none
settled (resolves zero bytes ∷ out) = some (ok bytes)
settled (rejects zero error ∷ out) = some (err error)
settled (o ∷ out) = settled out

abbrev or_disconnected : Option (Result Bytes) → Result Bytes
or_disconnected none = err disconnected
or_disconnected (some r) = r

abbrev connect_answered : List Answer → BrokerConnection → Result {0} Unit × Scripted
connect_answered (opens ∷ script) c =
    (ok tt, record { conn = (on_socket_connect (connect c).conn).conn; script = script })
connect_answered (a ∷ script) c =
    (err disconnected, record { conn = (on_socket_end (connect c).conn).conn; script = script })
connect_answered [] c =
    (err disconnected, record { conn = (on_socket_end (connect c).conn).conn; script = [] })

abbrev connect_scripted : Scripted → Result {0} Unit × Scripted
connect_scripted s =
    if is_in s.conn.state connected then (ok tt, s) else connect_answered s.script s.conn

-- The request is written; then the socket brings its answer, or ends.
abbrev send_answered :
    Option (Result Bytes) → List Answer → BrokerConnection → Result Bytes × Scripted
send_answered (some r) script c = (r, record { conn = c; script = script })
send_answered none (brings bytes ∷ script) c =
    let e = handle_incoming_data 0 bytes c in
    (or_disconnected (settled e.outputs), record { conn = e.conn; script = script })
send_answered none (a ∷ script) c =
    (err disconnected, record { conn = (on_socket_end c).conn; script = script })
send_answered none [] c = (err disconnected, record { conn = (on_socket_end c).conn; script = [] })

abbrev send_scripted : ℤ → ℤ → Bytes → Option ℕ → Scripted → Result Bytes × Scripted
send_scripted api_key api_version request_data timeout s =
    let e = send 0 0 api_key api_version request_data timeout s.conn in
    send_answered (settled e.outputs) s.script e.conn

pub send_scripted_refuses :
    (api_key api_version : ℤ) (request_data : Bytes) (timeout : Option ℕ) (s : Scripted)
    → is_connected s.conn ≡ false
    → send_scripted api_key api_version request_data timeout s ≡ (err disconnected, s)
unfolding send
send_scripted_refuses api_key api_version request_data timeout s h =
    if_passed
      (λ (e : Effect). send_answered (settled e.outputs) s.script e.conn ≡ (err disconnected, s))
      (is_connected s.conn) _ h refl

not_both :
    (state : ConnectionState)
    → is_in state disconnected_state ≡ true
    → is_in state connected ≡ false
not_both disconnected_state h = refl
not_both connecting h = refl
not_both connected h = absurd (cc h)
not_both closing h = refl

pub disconnect_scripted_closes : (s : Scripted) → is_connected (disconnect s.conn).conn ≡ false
unfolding disconnect is_connected
disconnect_scripted_closes s = elim (Bool-cases (is_in s.conn.state disconnected_state)) [
  | inl down ↦
      if_taken (λ (e : Effect). is_connected e.conn ≡ false) (is_in s.conn.state disconnected_state)
        _ down (ap (λ (b : Bool). b && s.conn.socket) (not_both s.conn.state down))
  | inr up ↦
      if_passed (λ (e : Effect). is_connected e.conn ≡ false)
        (is_in s.conn.state disconnected_state) _ up refl
]

-- What the client relies on holds of `BrokerConnection`. The sockets of a host and a port bring the
-- answers that `answers` has for them.
abbrev pub broker_connections : (JsString → ℤ → List Answer) → Connections
broker_connections answers = record {
  Conn = Scripted;
  Settings = BrokerConnectionConfig × List Answer;
  new_conn = λ s. record { conn = new_connection s.0; script = s.1 };
  node_settings = λ first host port. (
    record {
      client_id = [];
      connection_timeout = none;
      socket_timeout = none;
      max_request_size = none;
      request_timeout = none;
    },
    answers host port,
  );
  connect = connect_scripted;
  disconnect = λ s. record s { conn = (disconnect s.conn).conn };
  is_open = λ s. not (is_in s.conn.state disconnected_state);
  is_connected = λ s. is_connected s.conn;
  set_node_id = λ n s. record s { conn = set_node_id n s.conn };
  send = send_scripted;
  send_refuses = send_scripted_refuses;
  disconnect_closes = disconnect_scripted_closes;
}
