-- ===== src/BrokerConnection/Invariant/Steps.antt =====
-- src/network/BrokerConnection.ts: every event keeps the invariant.
use kafka_node_ts.Prelude.{
  ℕ, ◌<◌, ◌≡◌, ◌≢◌, refl, inl, inr, Bool, true, false, Bool-cases, Option, none, some, ◌&&◌, [],
  ◌∷◌, All, if◌then◌else◌, arith,
}
use kafka_node_ts.Prelude.Int.{ℤ}
use kafka_node_ts.Prelude.Errors.{Result, ok, err, disconnected as disconnected_error, timed_out}
use kafka_node_ts.Buffer.{Bytes}
use kafka_node_ts.JsMap.{JsMap, int_key, keys}
use kafka_node_ts.JsMap.Laws.{IsDistinct, set-IsDistinct}
use kafka_node_ts.BrokerConnection.Defs.{
  BrokerConnection, BrokerConnectionConfig, InFlightRequest, connected, Effect, done, ◌then◌,
  listen_error, set_node_id,
}
use kafka_node_ts.BrokerConnection.Socket.{
  is_in, on_error, on_disconnect, is_connected, on_socket_error, on_socket_end, on_socket_close,
  on_connection_timeout, on_socket_timeout,
}
use kafka_node_ts.BrokerConnection.Requests.{
  next_correlation_id, dispatch, send, on_write_error, expire, is_expired, on_request_timer,
}
use kafka_node_ts.BrokerConnection.Invariant.{
  Event, step, Reachable, starts, steps, IsValid, connects, disconnects, listens, gets_node_id,
  sends, socket_connects, socket_ends, socket_times_out, connection_times_out, socket_fails,
  socket_closes, data_arrives, write_fails, timer_ticks,
}
use kafka_node_ts.BrokerConnection.Invariant.Handlers.{
  new_connection-IsValid, then-IsValid, disconnect-IsValid, on_disconnect-IsValid, on_error-IsValid,
  connect-IsValid, on_socket_connect-IsValid, delete-IsValid, shrunk,
}
use kafka_node_ts.BrokerConnection.Invariant.Arrivals.{handle_incoming_data-IsValid}

expire-All :
    (P : ℤ → Type 0) (now : ℕ) (m : JsMap ℤ InFlightRequest)
    → All P (keys m)
    → All P (keys (expire now m).0)
unfolding expire
expire-All P now [] h = tt
expire-All P now ((id, r) ∷ m) h = elim (Bool-cases (is_expired now r)) [
  | inl e ↦ rw e (expire-All P now m h.1)
  | inr e ↦ rw e (h.0, expire-All P now m h.1)
]

expire-IsDistinct :
    (now : ℕ) (m : JsMap ℤ InFlightRequest)
    → IsDistinct (keys m)
    → IsDistinct (keys (expire now m).0)
unfolding expire
expire-IsDistinct now [] h = tt
expire-IsDistinct now ((id, r) ∷ m) h = elim (Bool-cases (is_expired now r)) [
  | inl e ↦ rw e (expire-IsDistinct now m h.1)
  | inr e ↦ rw e (expire-All (λ j. j ≢ id) now m h.0, expire-IsDistinct now m h.1)
]

on_request_timer-IsValid :
    (now : ℕ) (c : BrokerConnection) → IsValid c → IsValid (on_request_timer now c).conn
unfolding on_request_timer
on_request_timer-IsValid now c h =
    shrunk c (expire now c.in_flight_requests).0 h (λ e. rw e (unfold expire in refl))
      (expire-IsDistinct now c.in_flight_requests h.distinct)

dispatch-IsValid :
    (c : BrokerConnection) (id : ℕ) (r : InFlightRequest) (b : Result Bytes)
    → IsValid c
    → id < 2147483647
    → is_in c.state connected ≡ true
    → IsValid (dispatch (record c { correlation_id_counter = id }) r b).conn
dispatch-IsValid c id r (err error) h lt e = record {
  requests = h.requests;
  timer = h.timer;
  socket = h.socket;
  not_closing = h.not_closing;
  counter = lt;
  distinct = h.distinct;
}
dispatch-IsValid c id r (ok bytes) h lt e = record {
  requests = inl e;
  timer = h.timer;
  socket = h.socket;
  not_closing = h.not_closing;
  counter = lt;
  distinct = set-IsDistinct r.correlation_id r c.in_flight_requests h.distinct;
}

next_correlation_id-lt : (n : ℕ) → next_correlation_id n < 2147483647
unfolding next_correlation_id
next_correlation_id-lt n = omega arith

first_true : (a b : Bool) → (a && b) ≡ true → a ≡ true
first_true true b h = refl
first_true false b h = h

either_way :
    (b : Bool) (x y : Effect)
    → (b ≡ true → IsValid x.conn)
    → IsValid y.conn
    → IsValid (if b then x else y).conn
either_way true x y p q = p refl
either_way false x y p q = q

send-IsValid :
    (now promise : ℕ) (key version : ℤ) (bytes : Bytes) (timeout : Option ℕ) (c : BrokerConnection)
    → IsValid c
    → IsValid (send now promise key version bytes timeout c).conn
unfolding send is_connected
send-IsValid now promise key version bytes timeout c h =
    either_way (is_connected c) _ _
      (λ e.
        dispatch-IsValid c (next_correlation_id c.correlation_id_counter) _ _ h
          (next_correlation_id-lt c.correlation_id_counter)
          (first_true (is_in c.state connected) c.socket e))
      h

on_socket_close-IsValid :
    (had_error : Bool) (c : BrokerConnection)
    → IsValid c
    → IsValid (on_socket_close had_error c).conn
unfolding on_socket_close
on_socket_close-IsValid true c h = h
on_socket_close-IsValid false c h = on_disconnect-IsValid none c h

renamed : (id : ℤ) (c : BrokerConnection) → IsValid c → IsValid (set_node_id id c)
unfolding set_node_id
renamed id c h = record {
  requests = h.requests;
  timer = h.timer;
  socket = h.socket;
  not_closing = h.not_closing;
  counter = h.counter;
  distinct = h.distinct;
}

listened : (c : BrokerConnection) → IsValid c → IsValid (listen_error c)
listened c h = record {
  requests = h.requests;
  timer = h.timer;
  socket = h.socket;
  not_closing = h.not_closing;
  counter = h.counter;
  distinct = h.distinct;
}

-- Every event, whatever it carries and however its handler ends, keeps the invariant of a connection.
pub step-IsValid : (e : Event) (c : BrokerConnection) → IsValid c → IsValid (step e c).conn
unfolding step on_socket_error on_socket_end on_connection_timeout on_socket_timeout on_write_error
    on_disconnect
step-IsValid connects c h = connect-IsValid c h
step-IsValid disconnects c h = disconnect-IsValid c h
step-IsValid listens c h = listened c h
step-IsValid (gets_node_id id) c h = renamed id c h
step-IsValid (sends now promise key version bytes timeout) c h =
    send-IsValid now promise key version bytes timeout c h
step-IsValid socket_connects c h = on_socket_connect-IsValid c h
step-IsValid socket_ends c h = on_disconnect-IsValid (some disconnected_error) c h
step-IsValid socket_times_out c h = on_error-IsValid timed_out c h
step-IsValid connection_times_out c h =
    then-IsValid (on_error timed_out c) (λ d. done d _) (on_error-IsValid timed_out c h) (λ d k. k)
step-IsValid (socket_fails error) c h =
    then-IsValid (on_error error c) (λ d. done d _) (on_error-IsValid error c h) (λ d k. k)
step-IsValid (socket_closes had_error) c h = on_socket_close-IsValid had_error c h
step-IsValid (data_arrives now bytes) c h = handle_incoming_data-IsValid now bytes c h
step-IsValid (write_fails id promise error) c h = delete-IsValid id c h
step-IsValid (timer_ticks now) c h = on_request_timer-IsValid now c h

pub Reachable-IsValid :
    {given : BrokerConnectionConfig} {c : BrokerConnection} → Reachable given c → IsValid c
Reachable-IsValid {given} starts = new_connection-IsValid given
Reachable-IsValid (steps c e r) = step-IsValid e c (Reachable-IsValid r)
