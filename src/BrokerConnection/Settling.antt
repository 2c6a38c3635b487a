-- ===== src/BrokerConnection/Settling.antt =====
-- src/network/BrokerConnection.ts: a promise that waits for an answer is settled when its request is
-- taken out, and not before.
pub mod Arrivals
pub mod Runs
use kafka_node_ts.Prelude.{
  ℕ, ◌+◌, ◌≤◌, ◌≡◌, refl, ap, ◌∙◌, sym, inl, inr, ◌==◌, Bool, true, false, Bool-cases, Option, none,
  some, List, [], ◌∷◌, ◌++◌, length, leb, if◌then◌else◌, arith,
}
use kafka_node_ts.Prelude.Int.{ℤ, pos, ltb_ℤ, eq_ℤ}
use kafka_node_ts.Prelude.Errors.{Error, disconnected as disconnected_error, Result, ok, err, ◌>>=◌}
use kafka_node_ts.Buffer.{Bytes, read_int, slice}
use kafka_node_ts.JsMap.{JsMap, int_key, values, get, delete}
use kafka_node_ts.BrokerConnection.Defs.{
  BrokerConnection, InFlightRequest, disconnected, connected, Output, resolves, rejects,
  emits_throttle, emits_disconnect, ends_socket, Effect,
}
use kafka_node_ts.BrokerConnection.Socket.{is_in, reject_all, disconnect, on_disconnect, cause}
use kafka_node_ts.BrokerConnection.Requests.{is_expired, expire, on_request_timer}
use kafka_node_ts.BrokerConnection.Incoming.{throttle_outputs, handle_response}
use kafka_node_ts.BrokerConnection.Incoming.Responses.{handle_response-Reaction, unknown, answered}

abbrev pub one_if : Bool → ℕ
one_if true = 1
one_if false = 0

abbrev settles : ℕ → Output → ℕ
settles p (resolves q bytes) = one_if (q == p)
settles p (rejects q error) = one_if (q == p)
settles p _ = 0

-- How often a promise is settled by outputs, and for how many requests in flight it waits.
abbrev pub times_settled : ℕ → List Output → ℕ
times_settled p [] = 0
times_settled p (o ∷ out) = settles p o + times_settled p out

abbrev pub times_waiting : ℕ → JsMap ℤ InFlightRequest → ℕ
times_waiting p [] = 0
times_waiting p ((id, r) ∷ m) = one_if (r.promise == p) + times_waiting p m

-- What no longer waits has been settled.
abbrev pub IsConserved : ℕ → BrokerConnection → Effect → Type 0
IsConserved p c e =
    times_settled p e.outputs + times_waiting p e.conn.in_flight_requests
    ≡ times_waiting p c.in_flight_requests

pub times_settled-append :
    (p : ℕ) (xs ys : List Output)
    → times_settled p (xs ++ ys) ≡ times_settled p xs + times_settled p ys
times_settled-append p [] ys = omega arith
times_settled-append p (x ∷ xs) ys = omega (arith, times_settled-append p xs ys)

times_settled-reject_all :
    (p : ℕ) (e : Error) (m : JsMap ℤ InFlightRequest)
    → times_settled p (reject_all e (values m)) ≡ times_waiting p m
times_settled-reject_all p e [] = refl
times_settled-reject_all p e ((id, r) ∷ m) = omega (arith, times_settled-reject_all p e m)

times_waiting-expire :
    (p now : ℕ) (m : JsMap ℤ InFlightRequest)
    → times_settled p (expire now m).1 + times_waiting p (expire now m).0 ≡ times_waiting p m
unfolding expire
times_waiting-expire p now [] = refl
times_waiting-expire p now ((id, r) ∷ m) = elim (Bool-cases (is_expired now r)) [
  | inl e ↦ rw e (omega (arith, times_waiting-expire p now m))
  | inr e ↦ rw e (omega (arith, times_waiting-expire p now m))
]

pub times_waiting-delete :
    (p : ℕ) (id : ℤ) (r : InFlightRequest) (m : JsMap ℤ InFlightRequest)
    → get id m ≡ some r
    → one_if (r.promise == p) + times_waiting p (delete id m) ≡ times_waiting p m
unfolding get delete
times_waiting-delete p id r [] h = cc
times_waiting-delete p id r ((j, q) ∷ m) h = elim (Bool-cases (eq_ℤ j id)) [
  | inl e ↦
      let found : some q ≡ some r = rw e at h in
      let same : q ≡ r = cc found in
      rw e (ap (λ (x : InFlightRequest). one_if (x.promise == p) + times_waiting p m) (sym same))
  | inr e ↦
      let later : get id m ≡ some r = rw e at h in
      rw e (omega (arith, times_waiting-delete p id r m later))
]

quiet : (p : ℕ) (v : ℤ) (b : Bool) → times_settled p (if b then emits_throttle v ∷ [] else []) ≡ 0
quiet p v true = omega arith
quiet p v false = refl

same_list_of : (xs ys : List Output) → ok xs ≡ ok ys → xs ≡ ys
same_list_of xs ys h = cc h

times_settled-read :
    (p : ℕ) (r : Result ℤ) (out : List Output)
    → (do v ← r; ok (if ltb_ℤ (pos 0) v then emits_throttle v ∷ [] else [])) ≡ ok out
    → times_settled p out ≡ 0
times_settled-read p (err error) out h = cc
times_settled-read p (ok v) out h =
    ap (times_settled p) (sym (same_list_of _ out h)) ∙ quiet p v (ltb_ℤ (pos 0) v)

times_settled-throttle :
    (p : ℕ) (m : Bytes) (n : ℕ) (out : List Output)
    → throttle_outputs m n ≡ ok out
    → times_settled p out ≡ 0
unfolding throttle_outputs
times_settled-throttle p m n out h = elim (Bool-cases (leb (n + 4) (length m))) [
  | inl e ↦ times_settled-read p (read_int 4 m (pos n)) out (rw e at h)
  | inr e ↦
      let none : ok [] ≡ ok out = rw e at h in ap (times_settled p) (sym (same_list_of [] out none))
]

emitted :
    (p : ℕ) (b : Bool) (e : Option Error)
    → times_settled p (if b then emits_disconnect e ∷ [] else []) ≡ 0
emitted p true e = omega arith
emitted p false e = refl

ended :
    (p : ℕ) (b : Bool)
    → times_settled p ((if b then ends_socket ∷ [] else []) ++ (emits_disconnect none ∷ [])) ≡ 0
ended p true = omega arith
ended p false = omega arith

pub disconnect-IsConserved : (p : ℕ) (c : BrokerConnection) → IsConserved p c (disconnect c)
unfolding disconnect
disconnect-IsConserved p c = elim (Bool-cases (is_in c.state disconnected)) [
  | inl e ↦ rw e (omega arith)
  | inr e ↦ rw e (
      omega (
        arith,
        times_settled-append p (reject_all disconnected_error (values c.in_flight_requests))
            ((if c.socket then ends_socket ∷ [] else []) ++ (emits_disconnect none ∷ [])),
        ended p c.socket,
        times_settled-reject_all p disconnected_error c.in_flight_requests,
      ))
]

pub on_disconnect-IsConserved :
    (p : ℕ) (error : Option Error) (c : BrokerConnection) → IsConserved p c (on_disconnect error c)
unfolding on_disconnect
on_disconnect-IsConserved p error c = omega (
  arith,
  times_settled-append p (reject_all (cause error) (values c.in_flight_requests))
      (if is_in c.state connected then emits_disconnect error ∷ [] else []),
  emitted p (is_in c.state connected) error,
  times_settled-reject_all p (cause error) c.in_flight_requests,
)

-- Disconnecting, on the client's side or on the broker's, and a round of the request timer: whatever
-- requests they take out of those in flight, they settle each one's promise, and no other promise.
pub on_request_timer-IsConserved :
    (p now : ℕ) (error : Option Error) (c : BrokerConnection)
    → IsConserved p c (disconnect c)
      × IsConserved p c (on_disconnect error c)
      × IsConserved p c (on_request_timer now c)
unfolding on_request_timer
on_request_timer-IsConserved p now error c = (
  disconnect-IsConserved p c,
  on_disconnect-IsConserved p error c,
  times_waiting-expire p now c.in_flight_requests,
)

-- A message of four bytes or more settles the promise of the request that it takes out, and no other.
pub handle_response-IsConserved :
    (p now : ℕ) (m : Bytes) (c : BrokerConnection)
    → 4 ≤ length m
    → IsConserved p c (handle_response now m c)
handle_response-IsConserved p now m c h = elim (handle_response-Reaction now m c h) [
  | unknown id read missing e ↦ rw e (omega arith)
  | answered id r out read found throttled e ↦ rw e (
      omega (
        arith,
        times_settled-append p out (resolves r.promise (slice m (pos 4) (pos (length m))) ∷ []),
        times_settled-throttle p m 4 out throttled,
        times_waiting-delete p id r c.in_flight_requests found,
      ))
]
