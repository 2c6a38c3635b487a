-- ===== src/BrokerConnection/Framing/Stuck.antt =====
-- src/network/BrokerConnection.ts: the loop of `handleIncomingData` on a message of size -4.
use kafka_node_ts.Prelude.{
  ℕ, zero, suc, ◌-◌, ◌≤◌, ◌≡◌, refl, ap, ◌∙◌, inl, inr, true, Bool-cases, some, [], length, take,
  drop, min, if◌then◌else◌, arith,
}
use kafka_node_ts.Prelude.Int.{pos, negsuc}
use kafka_node_ts.Prelude.Errors.{Error, ok, range_error}
use kafka_node_ts.Buffer.{Bytes, read_int, slice}
use kafka_node_ts.Network.Headers.{decode_response_header}
use kafka_node_ts.BrokerConnection.Defs.{
  BrokerConnection, disconnected, Effect, ◌then◌, returns, out_of_fuel,
}
use kafka_node_ts.BrokerConnection.Socket.{is_in, disconnect, on_error}
use kafka_node_ts.BrokerConnection.Incoming.{handle_response, process}

-- A listener of `error` stays, and the handler returns.
disconnect-listener :
    (c : BrokerConnection)
    → ((disconnect c).conn.error_listener ≡ c.error_listener) × ((disconnect c).ending ≡ returns)
unfolding disconnect
disconnect-listener c = elim (Bool-cases (is_in c.state disconnected)) [
  | inl e ↦ rw e (refl, refl)
  | inr e ↦ rw e (refl, refl)
]

on_error-listener :
    (error : Error) (c : BrokerConnection)
    → c.error_listener ≡ true
    → ((on_error error c).conn.error_listener ≡ true) × ((on_error error c).ending ≡ returns)
unfolding on_error
on_error-listener error c h = simp h (
    disconnect-listener
      (record c { connection_error = some error; error_listener = true; error_waiters = 0 }))

handle_response-empty :
    (now : ℕ) (c : BrokerConnection) → handle_response now [] c ≡ on_error range_error c
unfolding handle_response decode_response_header read_int
handle_response-empty now c = refl

module _ (now : ℕ) (buffer : Bytes) (size : read_int 4 buffer (pos 0) ≡ ok (negsuc 3))
    (long : 4 ≤ length buffer) where
  round :
      (fuel : ℕ) (c : BrokerConnection)
      → process (suc fuel) now buffer (pos 0) c ≡ (
          handle_response now (slice buffer (pos 4) (pos 0)) c then process fuel now buffer (pos 0))
  unfolding process
  round fuel c = rw size (ground arith)

  none_left : slice buffer (pos 4) (pos 0) ≡ []
  unfolding slice
  none_left = ap (λ (k : ℕ). take k (drop (min 4 (length buffer)) buffer)) none_between
    where
      none_between : min 0 (length buffer) - min 4 (length buffer) ≡ 0
      none_between = omega arith

  -- The buffer starts with the size -4, and `error` has a listener: the loop reads the same size again
  -- and again, and no number of rounds ends it.
  pub process-stuck :
      (fuel : ℕ) (c : BrokerConnection)
      → c.error_listener ≡ true
      → (process fuel now buffer (pos 0) c).ending ≡ out_of_fuel
  process-stuck zero c h = unfold process in refl
  process-stuck (suc fuel) c h =
      let (kept, returned) = on_error-listener range_error c h in
      ap (λ (e : Effect). e.ending)
        (round fuel c
          ∙ ap (λ (m : Bytes). handle_response now m c then process fuel now buffer (pos 0))
              none_left
          ∙ ap (λ (e : Effect). e then process fuel now buffer (pos 0))
              (handle_response-empty now c))
      ∙ rw returned (process-stuck fuel (on_error range_error c).conn kept)
