-- ===== src/BrokerConnection/Settling/Arrivals.antt =====
-- src/network/BrokerConnection.ts: errors and the bytes that arrive settle the promises whose requests
-- they take out, and no other.
use kafka_node_ts.Prelude.{
  ℕ, zero, suc, ◌+◌, ◌<◌, ◌≡◌, refl, inl, inr, Bool-cases, ◌||◌, ltb, some, List, [], ◌∷◌, length,
  replicate, arith,
}
use native.Mathlib.Decide.{dec_le}
use kafka_node_ts.Prelude.Int.{ℤ, pos, ◌+ℤ◌, ◌-ℤ◌, ltb_ℤ}
use kafka_node_ts.Prelude.Errors.{Error, Result, ok, err, range_error}
use kafka_node_ts.Buffer.{Bytes, read_int, read_pattern}
use kafka_node_ts.Network.Headers.{decode_response_header}
use kafka_node_ts.BrokerConnection.Defs.{
  BrokerConnection, Output, emits_bytes_in, rejects_connect, emits_error, Effect, done, ◌then◌,
  continue_with, Ending, returns, throws, out_of_fuel,
}
use kafka_node_ts.BrokerConnection.Socket.{on_error, disconnect}
use kafka_node_ts.BrokerConnection.Incoming.{
  handle_response, keep_rest, process_message, process, appended, handle_incoming_data,
}
use kafka_node_ts.BrokerConnection.Settling.{
  times_settled, times_waiting, IsConserved, times_settled-append, disconnect-IsConserved,
  handle_response-IsConserved,
}

module _ (p : ℕ) where
  -- One part of a handler after another.
  continue_with-conserved :
      (n : ℕ) (ending : Ending) (c : BrokerConnection) (out : List Output)
      (next : BrokerConnection → Effect)
      → times_settled p out + times_waiting p c.in_flight_requests ≡ n
      → IsConserved p c (next c)
      → times_settled p (continue_with ending c out next).outputs
          + times_waiting p (continue_with ending c out next).conn.in_flight_requests
        ≡ n
  continue_with-conserved n returns c out next h k =
      omega (arith, times_settled-append p out (next c).outputs)
  continue_with-conserved n (throws error) c out next h k = h
  continue_with-conserved n out_of_fuel c out next h k = h

  pub then-IsConserved :
      (c : BrokerConnection) (e : Effect) (next : BrokerConnection → Effect)
      → IsConserved p c e
      → IsConserved p e.conn (next e.conn)
      → IsConserved p c (e then next)
  then-IsConserved c e next h k =
      continue_with-conserved (times_waiting p c.in_flight_requests) e.ending e.conn e.outputs next
        h k

  refused : (n : ℕ) (error : Error) → times_settled p (replicate n (rejects_connect error)) ≡ 0
  refused zero error = refl
  refused (suc n) error = omega (arith, refused n error)

  pub on_error-IsConserved :
      (error : Error) (c : BrokerConnection) → IsConserved p c (on_error error c)
  unfolding on_error
  on_error-IsConserved error c = elim (Bool-cases (c.error_listener || ltb 0 c.error_waiters)) [
    | inl e ↦ rw e (
        then-IsConserved c
          (done (record c { connection_error = some error; error_waiters = 0 })
            (emits_error error ∷ replicate c.error_waiters (rejects_connect error)))
          disconnect (omega (arith, refused c.error_waiters error)) (disconnect-IsConserved p _))
    | inr e ↦ rw e (omega arith)
  ]

  short_header :
      (m : Bytes) → length m < 4 → (error : Error) × (decode_response_header m ≡ err error)
  unfolding decode_response_header read_int read_pattern
  short_header m h = (range_error, ground arith)

  any_response-IsConserved :
      (now : ℕ) (m : Bytes) (c : BrokerConnection) → IsConserved p c (handle_response now m c)
  any_response-IsConserved now m c = elim (dec_le 4 (length m)) [
    | yes long ↦ handle_response-IsConserved p now m c long
    | no short ↦
        let (error, e) = short_header m (omega arith) in
        unfold handle_response in rw e (on_error-IsConserved error c)
  ]

  keep_rest-IsConserved :
      (buffer : Bytes) (processed : ℤ) (c : BrokerConnection)
      → IsConserved p c (keep_rest buffer processed c)
  unfolding keep_rest
  keep_rest-IsConserved buffer processed c = omega arith

  process_message-IsConserved :
      (now : ℕ) (buffer : Bytes) (processed : ℤ) (next : ℤ → BrokerConnection → Effect)
      (size : Result ℤ) (c : BrokerConnection)
      → ((i : ℤ) (d : BrokerConnection) → IsConserved p d (next i d))
      → IsConserved p c (process_message now buffer processed next size c)
  process_message-IsConserved now buffer processed next (err error) c k = omega arith
  process_message-IsConserved now buffer processed next (ok size) c k =
      elim (Bool-cases (ltb_ℤ (pos (length buffer) -ℤ processed -ℤ pos 4) size)) [
        | inl e ↦ rw e (keep_rest-IsConserved buffer processed c)
        | inr e ↦ rw e (
            then-IsConserved c _ (next (processed +ℤ (pos 4 +ℤ size)))
              (any_response-IsConserved now _ c) (k (processed +ℤ (pos 4 +ℤ size)) _))
      ]

  process-IsConserved :
      (fuel now : ℕ) (buffer : Bytes) (processed : ℤ) (c : BrokerConnection)
      → IsConserved p c (process fuel now buffer processed c)
  unfolding process
  process-IsConserved zero now buffer processed c = omega arith
  process-IsConserved (suc fuel) now buffer processed c =
      let round =
        process_message-IsConserved now buffer processed (process fuel now buffer)
          (read_int 4 buffer processed) c (process-IsConserved fuel now buffer) in
      let kept = keep_rest-IsConserved buffer processed c in
      elim (Bool-cases (ltb_ℤ processed (pos (length buffer)))) [
        | inl e ↦ elim (Bool-cases (ltb_ℤ (pos (length buffer) -ℤ processed) (pos 4))) [
          | inl f ↦ rw (e, f) kept
          | inr f ↦ rw (e, f) round
        ]
        | inr e ↦ rw e kept
      ]

  pub handle_incoming_data-IsConserved :
      (now : ℕ) (bytes : Bytes) (c : BrokerConnection)
      → IsConserved p c (handle_incoming_data now bytes c)
  unfolding handle_incoming_data
  handle_incoming_data-IsConserved now bytes c =
      then-IsConserved c
        (done (record c { buffer = some (appended c.buffer bytes) })
          (emits_bytes_in (length bytes) ∷ []))
        (process (length (appended c.buffer bytes) + 1) now (appended c.buffer bytes) (pos 0))
        (omega arith)
        (process-IsConserved (length (appended c.buffer bytes) + 1) now (appended c.buffer bytes)
          (pos 0) _)
