-- ===== src/BrokerConnection/Socket.antt =====
-- src/network/BrokerConnection.ts: connecting, disconnecting, and the events of the socket.
use kafka_node_ts.Prelude.{
  ◌+◌, Bool, true, false, ◌&&◌, ◌||◌, ltb, replicate, Option, none, some, List, [], ◌∷◌, ◌++◌, map,
  if◌then◌else◌,
}
use kafka_node_ts.Prelude.Errors.{Error, disconnected as disconnected_error, timed_out}
use kafka_node_ts.JsMap.{values}
use kafka_node_ts.BrokerConnection.Defs.{
  BrokerConnection, InFlightRequest, ConnectionState, disconnected, connecting, connected, closing,
  Output, opens_socket, ends_socket, emits_connect, emits_disconnect, emits_error, rejects,
  resolves_connect, rejects_connect, Effect, done, ◌then◌, throws,
}

abbrev pub is_in : ConnectionState → ConnectionState → Bool
is_in disconnected disconnected = true
is_in connecting connecting = true
is_in connected connected = true
is_in closing closing = true
is_in _ _ = false

-- `for (const request of this.inFlightRequests.values()) request.reject(error)`
abbrev pub reject_all : Error → List InFlightRequest → List Output
reject_all error requests = map (λ r. rejects r.promise error) requests

unfoldable pub disconnect : BrokerConnection → Effect
disconnect c =
    if is_in c.state disconnected
    then done c []
    else done
        (record c {
          state = disconnected;
          connection_timeout = false;
          request_timeout_interval = false;
          in_flight_requests = [];
          socket = false;
        })
        (reject_all disconnected_error (values c.in_flight_requests)
          ++ ((if c.socket then ends_socket ∷ [] else []) ++ (emits_disconnect none ∷ [])))

-- `onError`: emitting `error` calls the listeners; with none it throws the error, and `disconnect`
-- is not reached.
unfoldable pub on_error : Error → BrokerConnection → Effect
on_error error c =
    let heard = record c { connection_error = some error; error_waiters = 0 } in
    if c.error_listener || ltb 0 c.error_waiters
    then (done heard (emits_error error ∷ replicate c.error_waiters (rejects_connect error))
        then disconnect)
    else record {
      conn = record c { connection_error = some error };
      outputs = [];
      ending = throws error;
    }

-- `error || new DisconnectedError('Connection closed')`
abbrev pub cause : Option Error → Error
cause none = disconnected_error
cause (some error) = error

unfoldable pub on_disconnect : Option Error → BrokerConnection → Effect
on_disconnect error c =
    done
      (record c {
        state = disconnected;
        connection_timeout = false;
        request_timeout_interval = false;
        in_flight_requests = [];
        socket = false;
      })
      (reject_all (cause error) (values c.in_flight_requests)
        ++ (if is_in c.state connected then emits_disconnect error ∷ [] else []))

unfoldable pub is_connected : BrokerConnection → Bool
is_connected c = is_in c.state connected && c.socket

-- `connect`: at once if connected; while connecting the caller waits for the same attempt.
unfoldable pub connect : BrokerConnection → Effect
connect c =
    if is_in c.state connected
    then done c (resolves_connect ∷ [])
    else if is_in c.state connecting
    then done
        (record c { connect_waiters = c.connect_waiters + 1; error_waiters = c.error_waiters + 1 })
        []
    else done
        (record c {
          state = connecting;
          connection_error = none;
          socket = true;
          connection_timeout = true;
        })
        (opens_socket ∷ [])

-- The handlers that `connect` hangs on the socket.
unfoldable pub on_socket_connect : BrokerConnection → Effect
on_socket_connect c =
    done
      (record c {
        connection_timeout = false;
        state = connected;
        request_timeout_interval = true;
        connect_waiters = 0;
      })
      (emits_connect ∷ (replicate c.connect_waiters resolves_connect ++ (resolves_connect ∷ [])))

unfoldable pub on_socket_error : Error → BrokerConnection → Effect
on_socket_error error c = on_error error c then λ c. done c (rejects_connect error ∷ [])

unfoldable pub on_socket_end : BrokerConnection → Effect
on_socket_end c = on_disconnect (some disconnected_error) c then λ c.
    done c (rejects_connect disconnected_error ∷ [])

unfoldable pub on_socket_close : Bool → BrokerConnection → Effect
on_socket_close had_error c = if had_error then done c [] else on_disconnect none c

unfoldable pub on_connection_timeout : BrokerConnection → Effect
on_connection_timeout c = on_error timed_out c then λ c. done c (rejects_connect timed_out ∷ [])

unfoldable pub on_socket_timeout : BrokerConnection → Effect
on_socket_timeout c = on_error timed_out c
