-- ===== src/BrokerConnection/Answers.antt =====
-- src/network/BrokerConnection.ts: the response to a request in flight, between other messages that arrive.
use kafka_node_ts.Prelude.{
  ℕ, ◌≤◌, ◌≡◌, ◌≢◌, refl, ap, sym, ◌∙◌, inl, inr, false, Bool-cases, none, some, List, [], ◌∷◌,
  ◌++◌, length, length-append, append-nil, append_assoc, All, arith,
}
use mathlib.Core.Path.{ap₂}
use kafka_node_ts.Prelude.Int.{ℤ, pos, ◌-ℤ◌, eq_ℤ, eq_ℤ_iff}
use kafka_node_ts.Prelude.Errors.{ok}
use kafka_node_ts.Buffer.{Bytes, IsInt, int_bytes, read_int, slice}
use kafka_node_ts.Buffer.Numbers.{read_int-in, slice-at, length-int_bytes}
use kafka_node_ts.JsMap.{int_key, get, delete, keys}
use kafka_node_ts.JsMap.Laws.{IsDistinct, get-delete, delete-IsDistinct}
use kafka_node_ts.BrokerConnection.Defs.{
  BrokerConnection, InFlightRequest, Output, resolves, emits_response, emits_bytes_in, done,
}
use kafka_node_ts.BrokerConnection.Incoming.{handle_response, handle_incoming_data, appended}
use kafka_node_ts.BrokerConnection.Incoming.Responses.{handle_response-Reaction, unknown, answered}
use kafka_node_ts.BrokerConnection.Framing.{IsMessage, IsPartial, stream, handle_all}
use kafka_node_ts.BrokerConnection.Framing.Delivery.{kept, handle_incoming_data-eq}

-- A message with another correlation id.
abbrev pub IsOther : ℤ → Bytes → Type 0
IsOther k m = (j : ℤ) × (read_int 4 m (pos 0) ≡ ok j) × (j ≢ k)

module _ (now : ℕ) (k : ℤ) (r : InFlightRequest) where
  -- The request `r` is in flight under `k`, and no id is in flight twice.
  abbrev pub Awaits : BrokerConnection → Type 0
  Awaits c = (get k c.in_flight_requests ≡ some r) × IsDistinct (keys c.in_flight_requests)

  not_same : (id : ℤ) → id ≢ k → eq_ℤ id k ≡ false
  not_same id different = elim (Bool-cases (eq_ℤ id k)) [
    | inl same ↦ absurd (different ((eq_ℤ_iff id k).0 same))
    | inr other ↦ other
  ]

  other-Awaits :
      (m : Bytes) (c : BrokerConnection)
      → IsMessage m
      → IsOther k m
      → Awaits c
      → (d : BrokerConnection) × (out : List Output) × (handle_response now m c ≡ done d out)
        × Awaits d
  other-Awaits m c (long, fits) (j, read, different) (waits, distinct) =
      elim (handle_response-Reaction now m c long) [
        | unknown id found missing e ↦ (c, [], e, (waits, distinct))
        | answered id q out found taken throttled e ↦ (
          record c { in_flight_requests = delete id c.in_flight_requests },
          _,
          e,
          (
            get-delete id k c.in_flight_requests distinct
                ∙ rw (not_same id (λ same. different (cc (read, found, same)))) waits,
            delete-IsDistinct id c.in_flight_requests distinct,
          ),
        )
      ]

  module _ (body : Bytes) (fits : IsInt 4 k) where
    abbrev pub response : Bytes
    response = int_bytes 4 k ++ body

    read_response : read_int 4 response (pos 0) ≡ ok k
    read_response = read_int-in 3 0 k response [] body refl refl fits

    slice-response : slice response (pos 4) (pos (length response)) ≡ body
    slice-response =
        ap (λ (b : Bytes). slice b (pos 4) (pos (length response)))
          (ap (◌++◌ (int_bytes 4 k)) (sym (append-nil body)))
        ∙ slice-at 4 (length response) (int_bytes 4 k) body [] (sym (length-int_bytes 4 k))
            (omega (arith, length-append (int_bytes 4 k) body, length-int_bytes 4 k))

    response_long : 4 ≤ length response
    response_long = omega (arith, length-append (int_bytes 4 k) body, length-int_bytes 4 k)

    response-answers :
        (c : BrokerConnection)
        → Awaits c
        → (d : BrokerConnection) × (out : List Output) × (handle_response now response c
            ≡ done d (out ++ resolves r.promise body ∷ []))
          × (get k d.in_flight_requests ≡ none)
    response-answers c (waits, distinct) =
        elim (handle_response-Reaction now response c response_long) [
          | unknown id found missing e ↦ absurd (cc (found, read_response, missing, waits))
          | answered id q out found taken throttled e ↦
              let same_id : id ≡ k = cc (found, read_response) in
              let same : q ≡ r = cc (same_id, taken, waits) in
              let d : BrokerConnection = record c {
                in_flight_requests = delete id c.in_flight_requests;
              } in
              (
                d,
                emits_response q.api_key q.api_version id (pos now -ℤ pos q.sent_time) ∷ out,
                e
                    ∙ ap₂
                        (λ (p : ℕ) (b : Bytes). done d (
                          emits_response q.api_key q.api_version id (pos now -ℤ pos q.sent_time)
                          ∷ (out ++ resolves p b ∷ [])))
                        (ap (λ (x : InFlightRequest). x.promise) same) slice-response,
                get-delete id k c.in_flight_requests distinct ∙ rw ((eq_ℤ_iff id k).1 same_id) refl,
              )
        ]

    -- Among other messages the response answers the request.
    handle_all-answers :
        (ms : List Bytes) (c : BrokerConnection)
        → All IsMessage ms
        → All (IsOther k) ms
        → Awaits c
        → (d : BrokerConnection) × (out : List Output) × (handle_all now (ms ++ response ∷ []) c
            ≡ done d (out ++ resolves r.promise body ∷ []))
          × (get k d.in_flight_requests ≡ none)
    unfolding handle_all
    handle_all-answers [] c h o a =
        let (d, out, e, gone) = response-answers c a in
        (d, out, rw e (ap (done d) (append-nil _)), gone)
    handle_all-answers (m ∷ ms) c h o a =
        let (d₁, out₁, e₁, a₁) = other-Awaits m c h.0 o.0 a in
        let (d, out, e, gone) = handle_all-answers ms d₁ h.1 o.1 a₁ in
        (d, out₁ ++ out, rw e₁ (rw e (ap (done d) (sym (append_assoc out₁ out _)))), gone)

    All-response :
        (ms : List Bytes)
        → All IsMessage ms
        → IsInt 4 (pos (length response))
        → All IsMessage (ms ++ response ∷ [])
    All-response [] h fits_size = ((response_long, fits_size), tt)
    All-response (m ∷ ms) h fits_size = (h.0, All-response ms h.1 fits_size)

    pub arrived-answers :
        (bytes rest : Bytes) (ms : List Bytes) (c : BrokerConnection)
        → appended c.buffer bytes ≡ stream (ms ++ response ∷ []) ++ rest
        → All IsMessage ms
        → All (IsOther k) ms
        → IsInt 4 (pos (length response))
        → IsPartial rest
        → Awaits c
        → (d : BrokerConnection) × (out : List Output) × (handle_incoming_data now bytes c
            ≡ done d (emits_bytes_in (length bytes) ∷ (out ++ resolves r.promise body ∷ [])))
          × (get k d.in_flight_requests ≡ none)
    arrived-answers bytes rest ms c arrives h o long partial (waits, distinct) =
        let (d, out, handled, gone) =
          handle_all-answers ms (record c { buffer = some (stream (ms ++ response ∷ []) ++ rest) })
            h o (waits, distinct) in
        (
          record d { buffer = kept (ms ++ response ∷ []) rest },
          out,
          handle_incoming_data-eq now bytes (ms ++ response ∷ []) rest c arrives
                (All-response ms h long) partial
              ∙ rw handled (
                  ap
                    (λ (o : List Output).
                      done (record d { buffer = kept (ms ++ response ∷ []) rest })
                        (emits_bytes_in (length bytes) ∷ o))
                    (append-nil (out ++ resolves r.promise body ∷ []))),
          gone,
        )
