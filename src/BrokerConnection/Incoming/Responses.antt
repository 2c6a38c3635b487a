-- ===== src/BrokerConnection/Incoming/Responses.antt =====
-- src/network/BrokerConnection.ts: `handleResponse` on a message with a header never throws.
use kafka_node_ts.Prelude.{
  ℕ, ◌+◌, ◌≤◌, ◌≡◌, refl, ap, inl, inr, none, some, List, [], ◌∷◌, ◌++◌, length, take, drop,
  append_assoc, leb, leb→le, le→leb, Bool-cases, Option-cases, if◌then◌else◌,
}
use kafka_node_ts.Prelude.Int.{ℤ, pos, ◌-ℤ◌, ltb_ℤ}
use kafka_node_ts.Prelude.Errors.{ok}
use kafka_node_ts.Buffer.{Bytes, read_int, of_pattern, be_value, slice}
use kafka_node_ts.JsMap.{int_key, get, delete}
use kafka_node_ts.Network.Headers.{decode_response_header}
use kafka_node_ts.BrokerConnection.Defs.{
  BrokerConnection, InFlightRequest, Output, emits_response, emits_throttle, resolves, Effect, done,
  ◌then◌, continue_with, Ending, returns, throws, out_of_fuel,
}
use kafka_node_ts.BrokerConnection.Incoming.{throttle_outputs, handle_response}

continue_prefix :
    (e : Ending) (c : BrokerConnection) (front out : List Output) (g : BrokerConnection → Effect)
    → continue_with e c (front ++ out) g
      ≡ record (continue_with e c out g) { outputs = front ++ (continue_with e c out g).outputs }
continue_prefix returns c front out g =
    ap (λ (o : List Output). record { conn = (g c).conn; outputs = o; ending = (g c).ending })
      (append_assoc front out (g c).outputs)
continue_prefix (throws e) c front out g = refl
continue_prefix out_of_fuel c front out g = refl

continue_assoc :
    (e : Ending) (c : BrokerConnection) (out : List Output) (f g : BrokerConnection → Effect)
    → (continue_with e c out f then g) ≡ continue_with e c out (λ c. f c then g)
continue_assoc returns c out f g = continue_prefix (f c).ending (f c).conn out (f c).outputs g
continue_assoc (throws e) c out f g = refl
continue_assoc out_of_fuel c out f g = refl

pub then_assoc :
    (a : Effect) (f g : BrokerConnection → Effect) → (a then f then g) ≡ (a then λ c. f c then g)
then_assoc a f g = continue_assoc a.ending a.conn a.outputs f g

pub read_int-ok : (w i : ℕ) (b : Bytes) → i + w ≤ length b → (v : ℤ) × (read_int w b (pos i) ≡ ok v)
unfolding read_int
read_int-ok w i b h =
    (of_pattern w (be_value (take w (drop i b))), rw (le→leb (i + w) (length b) h))

throttle-ok : (m : Bytes) (n : ℕ) → (out : List Output) × (throttle_outputs m n ≡ ok out)
unfolding throttle_outputs
throttle-ok m n = elim (Bool-cases (leb (n + 4) (length m))) [
  | inl long ↦
      let (v, e) = read_int-ok 4 n m (leb→le (n + 4) (length m) long) in
      (if ltb_ℤ (pos 0) v then emits_throttle v ∷ [] else [], rw (throttle_outputs, long, e))
  | inr short ↦ ([], rw (throttle_outputs, short))
]

-- What a message with a header does to a connection: nothing, or it answers one request.
pub data Reaction (now : ℕ) (m : Bytes) (c : BrokerConnection) : Type 0 where
  unknown :
      (id : ℤ)
      → read_int 4 m (pos 0) ≡ ok id
      → get id c.in_flight_requests ≡ none
      → handle_response now m c ≡ done c []
      → Reaction now m c
  answered :
      (id : ℤ) (r : InFlightRequest) (out : List Output)
      → read_int 4 m (pos 0) ≡ ok id
      → get id c.in_flight_requests ≡ some r
      → throttle_outputs m 4 ≡ ok out
      → handle_response now m c
        ≡ done
            (record c { in_flight_requests = delete id c.in_flight_requests })
            ((emits_response r.api_key r.api_version id (pos now -ℤ pos r.sent_time) ∷ [])
              ++ (out ++ (resolves r.promise (slice m (pos 4) (pos (length m))) ∷ [])))
      → Reaction now m c

-- A message of four bytes or more is either ignored, because no request in flight has its correlation
-- id, or it answers that request: the request is taken out, the event of the response and that of a
-- throttle time are emitted, and its promise is resolved with the bytes behind the header. No
-- exception leaves the handler.
pub handle_response-Reaction :
    (now : ℕ) (m : Bytes) (c : BrokerConnection) → 4 ≤ length m → Reaction now m c
unfolding handle_response decode_response_header
handle_response-Reaction now m c h =
    let (id, header) = read_int-ok 4 0 m h in
    elim (Option-cases (get id c.in_flight_requests)) [
      | inl e ↦ unknown id header e (rw (handle_response, decode_response_header, header, e))
      | inr (r, e) ↦
          let (out, t) = throttle-ok m 4 in
          answered id r out header e t (rw (handle_response, decode_response_header, header, e, t))
    ]
