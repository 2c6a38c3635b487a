-- ===== src/BrokerConnection/Defs.antt =====
-- src/network/BrokerConnection.ts: the state, the outputs and the effects.
use kafka_node_ts.Prelude.{
  ℕ, ◌==◌, Bool, true, false, Option, none, some, List, [], ◌++◌, if◌then◌else◌,
}
use kafka_node_ts.Prelude.Int.{ℤ, negsuc}
use kafka_node_ts.Prelude.Errors.{Error}
use kafka_node_ts.Buffer.{Bytes}
use kafka_node_ts.Text.{JsString}
use kafka_node_ts.JsMap.{JsMap}

-- What the constructor is given; `none` is a field left out.
pub record BrokerConnectionConfig : Type 0 where
  pub client_id : JsString
  pub connection_timeout : Option ℕ
  pub socket_timeout : Option ℕ
  pub max_request_size : Option ℕ
  pub request_timeout : Option ℕ

-- The configuration that the constructor keeps.
pub record Config : Type 0 where
  pub client_id : JsString
  pub connection_timeout : ℕ
  pub socket_timeout : ℕ
  pub max_request_size : ℕ
  pub request_timeout : ℕ

pub record InFlightRequest : Type 0 where
  pub correlation_id : ℤ
  pub sent_time : ℕ
  pub timeout : ℕ
  pub api_key : ℤ
  pub api_version : ℤ
  pub request_data : Bytes
  -- The promise that `resolve` and `reject` settle, by the name that the caller gave it.
  pub promise : ℕ

pub data ConnectionState : Type 0 where
  disconnected connecting connected closing : ConnectionState

-- What a handler does outside the object, in order.
pub data Output : Type 0 where
  opens_socket ends_socket : Output
  writes_socket : Bytes → Output
  emits_connect : Output
  emits_disconnect : Option Error → Output
  emits_error : Error → Output
  emits_request : (api_key api_version correlation_id : ℤ) → Output
  emits_response : (api_key api_version correlation_id duration : ℤ) → Output
  emits_throttle : ℤ → Output
  emits_bytes_out emits_bytes_in : ℕ → Output
  resolves : (promise : ℕ) → Bytes → Output
  rejects : (promise : ℕ) → Error → Output
  resolves_connect : Output
  rejects_connect : Error → Output

pub record BrokerConnection : Type 0 where
  pub config : Config
  pub socket : Bool
  pub state : ConnectionState
  pub connection_error : Option Error
  pub correlation_id_counter : ℕ
  pub in_flight_requests : JsMap ℤ InFlightRequest
  pub buffer : Option Bytes
  -- Whether the timers run: that of the connection attempt, and that of the request timeouts.
  pub connection_timeout : Bool
  pub request_timeout_interval : Bool
  pub node_id : ℤ
  -- Whether a listener of the event `error` was added by `on`.
  pub error_listener : Bool
  -- The listeners that further calls of `connect` added by `once`, to `connect` and to `error`.
  pub connect_waiters : ℕ
  pub error_waiters : ℕ

-- How a handler ends: it returns, or an exception leaves it. `out_of_fuel` is no end of the
-- program: the model's loop ran out of rounds.
pub data Ending : Type 0 where
  returns : Ending
  throws : Error → Ending
  out_of_fuel : Ending

pub record Effect : Type 0 where
  pub conn : BrokerConnection
  pub outputs : List Output
  pub ending : Ending

abbrev pub done : BrokerConnection → List Output → Effect
done c out = record { conn = c; outputs = out; ending = returns }

-- One part of a handler after another; an exception skips what follows.
abbrev pub continue_with :
    Ending → BrokerConnection → List Output → (BrokerConnection → Effect) → Effect
continue_with returns c out next = record {
  conn = (next c).conn;
  outputs = out ++ (next c).outputs;
  ending = (next c).ending;
}
continue_with (throws e) c out next = record { conn = c; outputs = out; ending = throws e }
continue_with out_of_fuel c out next = record { conn = c; outputs = out; ending = out_of_fuel }

infixl 5 ◌then◌
abbrev pub ◌then◌ : Effect → (BrokerConnection → Effect) → Effect
e then next = continue_with e.ending e.conn e.outputs next

-- `value || fallback` for a number that may be missing: 0 counts as missing.
abbrev pub or_default : Option ℕ → ℕ → ℕ
or_default none fallback = fallback
or_default (some n) fallback = if n == 0 then fallback else n

-- `new BrokerConnection(config)`
unfoldable pub new_connection : BrokerConnectionConfig → BrokerConnection
new_connection given = record {
  config = record {
    client_id = given.client_id;
    connection_timeout = or_default given.connection_timeout 10000;
    socket_timeout = or_default given.socket_timeout 30000;
    max_request_size = or_default given.max_request_size 104857600;
    request_timeout = or_default given.request_timeout 30000;
  };
  socket = false;
  state = disconnected;
  connection_error = none;
  correlation_id_counter = 0;
  in_flight_requests = [];
  buffer = none;
  connection_timeout = false;
  request_timeout_interval = false;
  node_id = negsuc 0;
  error_listener = false;
  connect_waiters = 0;
  error_waiters = 0;
}

-- `on('error', listener)`
abbrev pub listen_error : BrokerConnection → BrokerConnection
listen_error c = record c { error_listener = true }

-- `getNodeId` and `setNodeId`
abbrev pub get_node_id : BrokerConnection → ℤ
get_node_id c = c.node_id

unfoldable pub set_node_id : ℤ → BrokerConnection → BrokerConnection
set_node_id id c = record c { node_id = id }
