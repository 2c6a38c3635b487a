-- ===== src/BrokerConnection/Invariant/Handlers.antt =====
-- src/network/BrokerConnection.ts: connecting and disconnecting keep the invariant.
use kafka_node_ts.Prelude.{
  ℕ, ◌≡◌, refl, ◌⊎◌, inl, inr, Bool, true, false, Bool-cases, Option, some, ◌||◌, [], ltb,
  if◌then◌else◌, arith,
}
use kafka_node_ts.Prelude.Int.{ℤ}
use kafka_node_ts.Prelude.Errors.{Error}
use kafka_node_ts.JsMap.{JsMap, int_key, keys, delete}
use kafka_node_ts.JsMap.Laws.{IsDistinct, delete-IsDistinct}
use kafka_node_ts.BrokerConnection.Defs.{
  BrokerConnection, BrokerConnectionConfig, InFlightRequest, disconnected, connecting, connected,
  Ending, returns, throws, out_of_fuel, Effect, ◌then◌, continue_with, new_connection,
}
use kafka_node_ts.BrokerConnection.Socket.{
  is_in, connect, disconnect, on_error, on_disconnect, on_socket_connect,
}
use kafka_node_ts.BrokerConnection.Invariant.{IsValid}

pub new_connection-IsValid : (given : BrokerConnectionConfig) → IsValid (new_connection given)
unfolding new_connection
new_connection-IsValid given = record {
  requests = inr refl;
  timer = inr refl;
  socket = inr refl;
  not_closing = refl;
  counter = omega arith;
  distinct = tt;
}

-- One part of a handler after another.
pub then-IsValid :
    (e : Effect) (f : BrokerConnection → Effect)
    → IsValid e.conn
    → ((c : BrokerConnection) → IsValid c → IsValid (f c).conn)
    → IsValid (e then f).conn
then-IsValid e f h k = go e.ending
  where
    go : (s : Ending) → IsValid (continue_with s e.conn e.outputs f).conn
    go returns = k e.conn h
    go (throws error) = h
    go out_of_fuel = h

-- What tears a connection down.
torn :
    (c : BrokerConnection)
    → IsValid c
    → IsValid (record c {
      state = disconnected;
      connection_timeout = false;
      request_timeout_interval = false;
      in_flight_requests = [];
      socket = false;
    })
torn c h = record {
  requests = inr refl;
  timer = inr refl;
  socket = inr refl;
  not_closing = refl;
  counter = h.counter;
  distinct = tt;
}

pub disconnect-IsValid : (c : BrokerConnection) → IsValid c → IsValid (disconnect c).conn
unfolding disconnect
disconnect-IsValid c h = elim (Bool-cases (is_in c.state disconnected)) [
  | inl e ↦ rw e h
  | inr e ↦ rw e (torn c h)
]

pub on_disconnect-IsValid :
    (error : Option Error) (c : BrokerConnection) → IsValid c → IsValid (on_disconnect error c).conn
unfolding on_disconnect
on_disconnect-IsValid error c h = torn c h

-- A handler that touches none of the fields that the invariant is about.
pub same :
    (c : BrokerConnection) (e : Option Error) (n : ℕ)
    → IsValid c
    → IsValid (record c { connection_error = e; error_waiters = n })
same c e n h = record {
  requests = h.requests;
  timer = h.timer;
  socket = h.socket;
  not_closing = h.not_closing;
  counter = h.counter;
  distinct = h.distinct;
}

pub on_error-IsValid :
    (error : Error) (c : BrokerConnection) → IsValid c → IsValid (on_error error c).conn
unfolding on_error
on_error-IsValid error c h = elim (Bool-cases (c.error_listener || ltb 0 c.error_waiters)) [
  | inl e ↦ rw e (disconnect-IsValid _ (same c (some error) 0 h))
  | inr e ↦ rw e (same c (some error) c.error_waiters h)
]

pub idle : {A : Type 0} {b : Bool} → b ≡ false → (b ≡ true) ⊎ A → A
idle e (inl f) = cc
idle e (inr a) = a

pub connect-IsValid : (c : BrokerConnection) → IsValid c → IsValid (connect c).conn
unfolding connect
connect-IsValid c h = elim (Bool-cases (is_in c.state connected)) [
  | inl e ↦ rw e h
  | inr e ↦ elim (Bool-cases (is_in c.state connecting)) [
    | inl f ↦
        rw (e, f)
          record {
            requests = h.requests;
            timer = h.timer;
            socket = h.socket;
            not_closing = h.not_closing;
            counter = h.counter;
            distinct = h.distinct;
          }
    | inr f ↦
        rw (e, f)
          record {
            requests = inr (idle e h.requests);
            timer = inr (idle e h.timer);
            socket = inl refl;
            not_closing = refl;
            counter = h.counter;
            distinct = h.distinct;
          }
  ]
]

pub on_socket_connect-IsValid :
    (c : BrokerConnection) → IsValid c → IsValid (on_socket_connect c).conn
unfolding on_socket_connect
on_socket_connect-IsValid c h = record {
  requests = inl refl;
  timer = inl refl;
  socket = inl refl;
  not_closing = refl;
  counter = h.counter;
  distinct = h.distinct;
}

-- Requests are taken out, and none is added to none.
pub shrunk :
    (c : BrokerConnection) (m : JsMap ℤ InFlightRequest)
    → IsValid c
    → (c.in_flight_requests ≡ [] → m ≡ [])
    → IsDistinct (keys m)
    → IsValid (record c { in_flight_requests = m })
shrunk c m h none_added d = record {
  requests = still h.requests;
  timer = h.timer;
  socket = h.socket;
  not_closing = h.not_closing;
  counter = h.counter;
  distinct = d;
}
  where
    still :
        (is_in c.state connected ≡ true) ⊎ (c.in_flight_requests ≡ [])
        → (is_in c.state connected ≡ true) ⊎ (m ≡ [])
    still (inl e) = inl e
    still (inr e) = inr (none_added e)

pub delete-IsValid :
    (id : ℤ) (c : BrokerConnection)
    → IsValid c
    → IsValid (record c { in_flight_requests = delete id c.in_flight_requests })
delete-IsValid id c h =
    shrunk c (delete id c.in_flight_requests) h (λ e. rw e (unfold delete in refl))
      (delete-IsDistinct id c.in_flight_requests h.distinct)
