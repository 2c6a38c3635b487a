-- ===== src/BrokerConnection/Framing/Delivery.antt =====
-- src/network/BrokerConnection.ts: what `handleIncomingData` makes of the bytes that arrive.
use kafka_node_ts.Prelude.{
  ℕ, ◌+◌, ◌≤◌, ◌<◌, ◌≡◌, refl, ap, ◌∙◌, sym, fun_ext, Option, none, some, List, [], ◌∷◌, ◌++◌,
  length, length-append, append-nil, All, if◌then◌else◌, arith,
}
use kafka_node_ts.Prelude.Int.{pos}
use kafka_node_ts.Buffer.{Bytes, slice}
use kafka_node_ts.Buffer.Numbers.{slice-at}
use kafka_node_ts.BrokerConnection.Defs.{
  BrokerConnection, emits_bytes_in, Effect, done, ◌then◌, returns,
}
use kafka_node_ts.BrokerConnection.Incoming.Responses.{then_assoc}
use kafka_node_ts.BrokerConnection.Incoming.{keep_rest, process, appended, handle_incoming_data}
use kafka_node_ts.BrokerConnection.Framing.{
  frame, stream, IsMessage, IsPartial, handle_all, handle_all-returns,
}
use kafka_node_ts.BrokerConnection.Framing.Rounds.{process-stream, length-frame}

-- What is kept for the next bytes.
abbrev pub kept : List Bytes → Bytes → Option Bytes
kept [] rest = some rest
kept (m ∷ ms) [] = none
kept (m ∷ ms) (b ∷ rest) = some (b ∷ rest)

length-stream : (ms : List Bytes) → length ms ≤ length (stream ms)
length-stream [] = omega arith
length-stream (m ∷ ms) =
    omega (arith, length-append (frame m) (stream ms), length-frame m, length-stream ms)

module _ (k : ℕ) (buffer pre : Bytes) (c : BrokerConnection) (hk : k ≡ length pre)
    (positive : 0 < k) where
  keep_rest-none :
      buffer ≡ pre ++ [] → keep_rest buffer (pos k) c ≡ done (record c { buffer = none }) []
  unfolding keep_rest
  keep_rest-none hb = ground (arith, ap length hb, length-append {A = ℕ} pre [])

  keep_rest-some :
      (b : ℕ) (rest : Bytes)
      → buffer ≡ pre ++ (b ∷ rest)
      → keep_rest buffer (pos k) c ≡ done (record c { buffer = some (b ∷ rest) }) []
  unfolding keep_rest
  keep_rest-some b rest hb = rw cut (ground (arith, ap length hb, length-append pre (b ∷ rest)))
    where
      cut : slice buffer (pos k) (pos (length buffer)) ≡ b ∷ rest
      cut =
          ap (λ (x : Bytes). slice x (pos k) (pos (length buffer)))
            (hb ∙ ap (◌++◌ pre) (sym (append-nil (b ∷ rest))))
          ∙ slice-at k (length buffer) pre (b ∷ rest) [] hk
              (omega (arith, ap length hb, length-append pre (b ∷ rest)))

length-stream_lt : (m : Bytes) (ms : List Bytes) → 0 < 0 + length (stream (m ∷ ms))
length-stream_lt m ms = omega (arith, length-append (frame m) (stream ms), length-frame m)

keep_rest-stream :
    (ms : List Bytes) (rest : Bytes) (c : BrokerConnection)
    → keep_rest (stream ms ++ rest) (pos (0 + length (stream ms))) c
      ≡ done (record c { buffer = kept ms rest }) []
keep_rest-stream [] rest c = unfold keep_rest in refl
keep_rest-stream (m ∷ ms) [] c =
    keep_rest-none (0 + length (stream (m ∷ ms))) (stream (m ∷ ms) ++ []) (stream (m ∷ ms)) c
      (omega arith) (length-stream_lt m ms) refl
keep_rest-stream (m ∷ ms) (b ∷ rest) c =
    keep_rest-some (0 + length (stream (m ∷ ms))) (stream (m ∷ ms) ++ (b ∷ rest)) (stream (m ∷ ms))
      c (omega arith) (length-stream_lt m ms) b rest refl

-- The messages are handled one after another, and the rest is kept.
pub handle_incoming_data-eq :
    (now : ℕ) (bytes : Bytes) (ms : List Bytes) (rest : Bytes) (c : BrokerConnection)
    → appended c.buffer bytes ≡ stream ms ++ rest
    → All IsMessage ms
    → IsPartial rest
    → handle_incoming_data now bytes c ≡ (
        done (record c { buffer = some (stream ms ++ rest) }) (emits_bytes_in (length bytes) ∷ [])
        then handle_all now ms
        then λ d. done (record d { buffer = kept ms rest }) [])
unfolding handle_incoming_data
handle_incoming_data-eq now bytes ms rest c hb hm hr =
    ap
      (λ (b : Bytes).
        done (record c { buffer = some b }) (emits_bytes_in (length bytes) ∷ [])
        then process (length b + 1) now b (pos 0))
      hb
    ∙ ap (λ (f : BrokerConnection → Effect). arrived then f) (fun_ext loop)
    ∙ sym
        (then_assoc arrived (handle_all now ms) (λ d. done (record d { buffer = kept ms rest }) []))
  where
    arrived : Effect
    arrived =
        done (record c { buffer = some (stream ms ++ rest) }) (emits_bytes_in (length bytes) ∷ [])

    loop :
        (d : BrokerConnection)
        → process (length (stream ms ++ rest) + 1) now (stream ms ++ rest) (pos 0) d
          ≡ (handle_all now ms d then λ d. done (record d { buffer = kept ms rest }) [])
    loop d =
        process-stream ms (length (stream ms ++ rest) + 1) now (stream ms ++ rest) [] rest 0 d refl
          refl (omega (arith, length-append (stream ms) rest, length-stream ms)) hm hr
        ∙ ap (λ (f : BrokerConnection → Effect). handle_all now ms d then f)
            (fun_ext (keep_rest-stream ms rest))

-- The bytes that were kept and those that arrive, taken together, are complete messages, each of four
-- bytes or more, and a rest that holds no complete message. Then the messages are handled in their order,
-- each once, and the rest is kept; the loop ends within its rounds, and no exception leaves it.
pub handle_incoming_data-stream :
    (now : ℕ) (bytes : Bytes) (ms : List Bytes) (rest : Bytes) (c : BrokerConnection)
    → appended c.buffer bytes ≡ stream ms ++ rest
    → All IsMessage ms
    → IsPartial rest
    → (handle_incoming_data now bytes c ≡ (
        done (record c { buffer = some (stream ms ++ rest) }) (emits_bytes_in (length bytes) ∷ [])
        then handle_all now ms
        then λ d. done (record d { buffer = kept ms rest }) []))
      × ((handle_incoming_data now bytes c).ending ≡ returns)
handle_incoming_data-stream now bytes ms rest c hb hm hr =
    let eq = handle_incoming_data-eq now bytes ms rest c hb hm hr in
    (
      eq,
      ap (λ (e : Effect). e.ending) eq
          ∙ rw (handle_all-returns now ms (record c { buffer = some (stream ms ++ rest) }) hm) refl,
    )
