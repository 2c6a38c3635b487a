-- ===== src/BrokerConnection/Settling/Runs.antt =====
-- src/network/BrokerConnection.ts: in a run of calls, socket events and timers, every promise that `send`
-- hands out is settled once or waits.
use kafka_node_ts.Prelude.{
  ℕ, ◌+◌, ◌==◌, ◌≡◌, refl, ap, inl, inr, true, false, Bool-cases, none, some, List, [], ◌∷◌, ◌++◌,
  replicate, zero, suc, arith, ◌⊎◌,
}
use kafka_node_ts.Prelude.Int.{ℤ, pos, eq_ℤ}
use kafka_node_ts.Prelude.Errors.{
  Error, Result, ok, err, disconnected as disconnected_error, timed_out,
}
use kafka_node_ts.Buffer.{Bytes}
use kafka_node_ts.JsMap.{JsMap, int_key, get, set}
use kafka_node_ts.BrokerConnection.Defs.{
  BrokerConnection, BrokerConnectionConfig, InFlightRequest, Output, rejects_connect,
  resolves_connect, done, new_connection, set_node_id, connected, connecting,
}
use kafka_node_ts.BrokerConnection.Socket.{
  is_in, connect, on_error, on_disconnect, is_connected, on_socket_connect, on_socket_error,
  on_socket_end, on_socket_close, on_connection_timeout, on_socket_timeout,
}
use kafka_node_ts.BrokerConnection.Requests.{next_correlation_id, dispatch, send, on_write_error}
use kafka_node_ts.BrokerConnection.Invariant.{
  Event, connects, disconnects, listens, gets_node_id, sends, socket_connects, socket_ends,
  socket_times_out, connection_times_out, socket_fails, socket_closes, data_arrives, write_fails,
  timer_ticks, step, Reachable, starts, steps,
}
use kafka_node_ts.BrokerConnection.Invariant.Steps.{Reachable-IsValid}
use kafka_node_ts.BrokerConnection.Settling.{
  one_if, times_settled, times_waiting, IsConserved, times_settled-append, times_waiting-delete,
  on_request_timer-IsConserved,
}
use kafka_node_ts.BrokerConnection.Settling.Arrivals.{
  then-IsConserved, on_error-IsConserved, handle_incoming_data-IsConserved,
}

-- The connection after some events, and what they put out.
unfoldable pub run : List Event → BrokerConnection → BrokerConnection × List Output
run [] c = (c, [])
run (e ∷ es) c = let (d, out) = run es (step e c).conn in (d, (step e c).outputs ++ out)

-- How often `send` hands out a promise.
abbrev pub times_asked_by : ℕ → Event → ℕ
times_asked_by p (sends now promise key version bytes timeout) = one_if (promise == p)
times_asked_by p _ = 0

abbrev pub times_asked : ℕ → List Event → ℕ
times_asked p [] = 0
times_asked p (e ∷ es) = times_asked_by p e + times_asked p es

-- A request gets an id that is not in flight, as it does until the ids wrap around, and a write fails
-- while its request is in flight.
abbrev pub IsOrderly : Event → BrokerConnection → Type 0
IsOrderly (sends now promise key version bytes timeout) c =
    get (pos (next_correlation_id c.correlation_id_counter)) c.in_flight_requests ≡ none
IsOrderly (write_fails id promise error) c =
    (r : InFlightRequest) × (get id c.in_flight_requests ≡ some r) × (r.promise ≡ promise)
IsOrderly _ c = Unit

abbrev pub AreOrderly : List Event → BrokerConnection → Type 0
AreOrderly [] c = Unit
AreOrderly (e ∷ es) c = IsOrderly e c × AreOrderly es (step e c).conn

module _ (p : ℕ) where
  times_waiting-set :
      (id : ℤ) (r : InFlightRequest) (m : JsMap ℤ InFlightRequest)
      → get id m ≡ none
      → times_waiting p (set id r m) ≡ one_if (r.promise == p) + times_waiting p m
  unfolding get set
  times_waiting-set id r [] h = refl
  times_waiting-set id r ((j, q) ∷ m) h = elim (Bool-cases (eq_ℤ j id)) [
    | inl e ↦ let found : some q ≡ none = rw e at h in cc
    | inr e ↦
        let later : get id m ≡ none = rw e at h in
        rw e (omega (arith, times_waiting-set id r m later))
  ]

  told : (n : ℕ) → times_settled p (replicate n resolves_connect) ≡ 0
  told zero = refl
  told (suc n) = omega (arith, told n)

  connect-IsConserved : (c : BrokerConnection) → IsConserved p c (connect c)
  unfolding connect
  connect-IsConserved c = elim (Bool-cases (is_in c.state connected)) [
    | inl e ↦ rw e (omega arith)
    | inr e ↦ elim (Bool-cases (is_in c.state connecting)) [
      | inl f ↦ rw (e, f) (omega arith)
      | inr f ↦ rw (e, f) (omega arith)
    ]
  ]

  on_socket_connect-IsConserved : (c : BrokerConnection) → IsConserved p c (on_socket_connect c)
  unfolding on_socket_connect
  on_socket_connect-IsConserved c = omega (
    arith,
    times_settled-append p (replicate c.connect_waiters resolves_connect) (resolves_connect ∷ []),
    told c.connect_waiters,
  )

  refusing : (e : Error) (c : BrokerConnection) → IsConserved p c (done c (rejects_connect e ∷ []))
  refusing e c = omega arith

  on_write_error-IsConserved :
      (id : ℤ) (promise : ℕ) (error : Error) (c : BrokerConnection)
      → IsOrderly (write_fails id promise error) c
      → IsConserved p c (on_write_error id promise error c)
  unfolding on_write_error
  on_write_error-IsConserved id promise error c (r, found, same) =
      rw (← same) (omega (arith, times_waiting-delete p id r c.in_flight_requests found))

  dispatch-balanced :
      (c : BrokerConnection) (r : InFlightRequest) (bytes : Result Bytes)
      → get r.correlation_id c.in_flight_requests ≡ none
      → times_settled p (dispatch c r bytes).outputs
          + times_waiting p (dispatch c r bytes).conn.in_flight_requests
        ≡ times_waiting p c.in_flight_requests + one_if (r.promise == p)
  dispatch-balanced c r (err error) h = omega arith
  dispatch-balanced c r (ok bytes) h =
      omega (arith, times_waiting-set r.correlation_id r c.in_flight_requests h)

  -- What an event settles and what waits afterwards are what waited and what it asked for.
  step-balanced :
      (e : Event) (c : BrokerConnection)
      → IsOrderly e c
      → times_settled p (step e c).outputs + times_waiting p (step e c).conn.in_flight_requests
        ≡ times_waiting p c.in_flight_requests + times_asked_by p e
  unfolding step send on_socket_error on_socket_end on_socket_close on_connection_timeout
      on_socket_timeout set_node_id
  step-balanced connects c h = omega (arith, connect-IsConserved c)
  step-balanced disconnects c h = omega (arith, (on_request_timer-IsConserved p 0 none c).0)
  step-balanced listens c h = omega arith
  step-balanced (gets_node_id id) c h = omega arith
  step-balanced (sends now promise key version bytes timeout) c h =
      elim (Bool-cases (is_connected c)) [
        | inl e ↦ rw e (dispatch-balanced _ _ _ h)
        | inr e ↦ rw e (omega arith)
      ]
  step-balanced socket_connects c h = omega (arith, on_socket_connect-IsConserved c)
  step-balanced socket_ends c h = omega (
    arith,
    then-IsConserved p c (on_disconnect (some disconnected_error) c)
        (λ d. done d (rejects_connect disconnected_error ∷ []))
        (on_request_timer-IsConserved p 0 (some disconnected_error) c).1
        (refusing disconnected_error _),
  )
  step-balanced socket_times_out c h = omega (arith, on_error-IsConserved p timed_out c)
  step-balanced connection_times_out c h = omega (
    arith,
    then-IsConserved p c (on_error timed_out c) (λ d. done d (rejects_connect timed_out ∷ []))
        (on_error-IsConserved p timed_out c) (refusing timed_out _),
  )
  step-balanced (socket_fails error) c h = omega (
    arith,
    then-IsConserved p c (on_error error c) (λ d. done d (rejects_connect error ∷ []))
        (on_error-IsConserved p error c) (refusing error _),
  )
  step-balanced (socket_closes true) c h = omega arith
  step-balanced (socket_closes false) c h =
      omega (arith, (on_request_timer-IsConserved p 0 none c).1)
  step-balanced (data_arrives now bytes) c h =
      omega (arith, handle_incoming_data-IsConserved p now bytes c)
  step-balanced (write_fails id promise error) c h =
      omega (arith, on_write_error-IsConserved id promise error c h)
  step-balanced (timer_ticks now) c h = omega (arith, (on_request_timer-IsConserved p now none c).2)

  run-balanced :
      (es : List Event) (c : BrokerConnection)
      → AreOrderly es c
      → times_settled p (run es c).1 + times_waiting p (run es c).0.in_flight_requests
        ≡ times_waiting p c.in_flight_requests + times_asked p es
  unfolding run
  run-balanced [] c h = omega arith
  run-balanced (e ∷ es) c h = omega (
    arith,
    times_settled-append p (step e c).outputs (run es (step e c).conn).1,
    step-balanced e c h.0,
    run-balanced es (step e c).conn h.1,
  )

run-Reachable :
    (given : BrokerConnectionConfig) (es : List Event) (c : BrokerConnection)
    → Reachable given c
    → Reachable given (run es c).0
unfolding run
run-Reachable given [] c h = h
run-Reachable given (e ∷ es) c h = run-Reachable given es (step e c).conn (steps c e h)

-- Any run of calls, socket events, timers and arriving bytes from a new connection, in which each request
-- gets an id that is not in flight and a write fails only while its request is in flight. However often
-- `send` handed out a promise, so often it was settled or still waits for a request in flight; if the
-- connection is not connected at the end, it was settled that often.
pub times_settled-run :
    (p : ℕ) (given : BrokerConnectionConfig) (es : List Event)
    → AreOrderly es (new_connection given)
    → let end : BrokerConnection × List Output = run es (new_connection given) in
      (times_settled p end.1 + times_waiting p end.0.in_flight_requests ≡ times_asked p es)
      × ((is_in end.0.state connected ≡ true) ⊎ (times_settled p end.1 ≡ times_asked p es))
times_settled-run p given es h =
    let c = new_connection given in
    let fresh : times_waiting p c.in_flight_requests ≡ 0 = unfold new_connection in refl in
    let total = run-balanced p es c h in
    (
      omega (arith, total, fresh),
      elim (Reachable-IsValid (run-Reachable given es c starts)).requests [
        | inl up ↦ inl up
        | inr nothing ↦ inr (omega (arith, total, fresh, ap (times_waiting p) nothing))
      ],
    )
