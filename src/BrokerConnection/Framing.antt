-- ===== src/BrokerConnection/Framing.antt =====
-- src/network/BrokerConnection.ts: the messages on the wire, and handling one after another.
pub mod Rounds
pub mod Delivery
pub mod Stuck
pub mod Cuts
pub mod Pieces
use kafka_node_ts.Prelude.{
  ℕ, zero, suc, ◌+◌, ◌-◌, ◌≤◌, ◌<◌, ◌≡◌, refl, ap, ◌∙◌, sym, fun_ext, ◌⊎◌, inl, inr, Bool, true,
  false, Option, none, some, List, [], ◌∷◌, ◌++◌, length, length-append, append-nil, append_assoc,
  All, drop-append, ltb, leb, leb→le, le→leb, lt→ltb, if◌then◌else◌, arith,
}
use kafka_node_ts.Prelude.Int.{ℤ, pos, negsuc, ◌+ℤ◌, ◌-ℤ◌, sub_ℕ, ltb_ℤ, eq_ℤ}
use kafka_node_ts.Prelude.Errors.{Error, Result, ok, err, ◌>>=◌}
use kafka_node_ts.Buffer.{Bytes, IsInt, int_bytes, read_int, read_pattern, slice}
use kafka_node_ts.Buffer.Numbers.{read_int-in, slice-at, length-int_bytes}
use kafka_node_ts.Network.Headers.{decode_response_header}
use kafka_node_ts.BrokerConnection.Defs.{
  BrokerConnection, Output, emits_bytes_in, Effect, done, ◌then◌, continue_with, Ending, returns,
  throws, out_of_fuel,
}
use kafka_node_ts.BrokerConnection.Incoming.Responses.{
  handle_response-Reaction, then_assoc, unknown, answered,
}
use kafka_node_ts.BrokerConnection.Incoming.{
  throttle_outputs, respond, respond_header, answer, handle_response, keep_rest, process_message,
  process, appended, handle_incoming_data,
}

-- A message as it stands on the wire: its size in four bytes, then the message.
abbrev pub frame : Bytes → Bytes
frame m = int_bytes 4 (pos (length m)) ++ m

abbrev pub stream : List Bytes → Bytes
stream [] = []
stream (m ∷ ms) = frame m ++ stream ms

-- A message that a broker sends: it holds a header, and its size fits the size field.
abbrev pub IsMessage : Bytes → Type 0
IsMessage m = (4 ≤ length m) × IsInt 4 (pos (length m))

-- Bytes that hold no complete message yet.
abbrev pub IsPartial : Bytes → Type 0
IsPartial rest =
    (length rest < 4) ⊎ ((n : ℕ) × (read_int 4 rest (pos 0) ≡ ok (pos n)) × (length rest < 4 + n))

-- `handleResponse` on one message after another.
unfoldable pub handle_all : ℕ → List Bytes → BrokerConnection → Effect
handle_all now [] c = done c []
handle_all now (m ∷ ms) c = handle_response now m c then handle_all now ms

-- A message with a header is handled with no exception.
pub handle_response-returns :
    (now : ℕ) (m : Bytes) (c : BrokerConnection)
    → 4 ≤ length m
    → (handle_response now m c).ending ≡ returns
handle_response-returns now m c h = elim (handle_response-Reaction now m c h) [
  | unknown id read missing e ↦ ap (λ (f : Effect). f.ending) e
  | answered id r out read found throttled e ↦ ap (λ (f : Effect). f.ending) e
]

pub handle_all-returns :
    (now : ℕ) (ms : List Bytes) (c : BrokerConnection)
    → All IsMessage ms
    → (handle_all now ms c).ending ≡ returns
unfolding handle_all
handle_all-returns now [] c h = refl
handle_all-returns now (m ∷ ms) c h =
    rw (handle_response-returns now m c h.0.0)
      (handle_all-returns now ms (handle_response now m c).conn h.1)
