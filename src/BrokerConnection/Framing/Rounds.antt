-- ===== src/BrokerConnection/Framing/Rounds.antt =====
-- src/network/BrokerConnection.ts: the rounds of the loop of `handleIncomingData`.
use kafka_node_ts.Prelude.{
  ℕ, zero, suc, ◌+◌, ◌≤◌, ◌<◌, ◌≡◌, refl, ap, ◌∙◌, sym, fun_ext, inl, inr, List, [], ◌∷◌, ◌++◌,
  length, length-append, append_assoc, All, drop-append, leb, if◌then◌else◌, arith,
}
use kafka_node_ts.Prelude.Int.{pos}
use kafka_node_ts.Prelude.Errors.{ok}
use kafka_node_ts.Buffer.{Bytes, int_bytes, read_int, read_pattern, slice}
use kafka_node_ts.Buffer.Numbers.{read_int-in, slice-at, length-int_bytes}
use kafka_node_ts.BrokerConnection.Defs.{BrokerConnection, Effect, ◌then◌}
use kafka_node_ts.BrokerConnection.Incoming.Responses.{then_assoc}
use kafka_node_ts.BrokerConnection.Incoming.{handle_response, keep_rest, process}
use kafka_node_ts.BrokerConnection.Framing.{frame, stream, IsMessage, IsPartial, handle_all}

module _ (fuel now : ℕ) (buffer : Bytes) (i n : ℕ) (c : BrokerConnection) where
  process_round :
      read_int 4 buffer (pos i) ≡ ok (pos n)
      → i + 4 + n ≤ length buffer
      → process (suc fuel) now buffer (pos i) c ≡ (
          handle_response now (slice buffer (pos (i + 4)) (pos (i + 4 + n))) c
          then process fuel now buffer (pos (i + (4 + n))))
  unfolding process
  process_round e h = rw e (ground arith)

  process_partial :
      read_int 4 buffer (pos i) ≡ ok (pos n)
      → length buffer < i + 4 + n
      → process (suc fuel) now buffer (pos i) c ≡ keep_rest buffer (pos i) c
  unfolding process
  process_partial e h = rw e (ground arith)

process_short :
    (fuel now : ℕ) (buffer : Bytes) (i : ℕ) (c : BrokerConnection)
    → length buffer < i + 4
    → process (suc fuel) now buffer (pos i) c ≡ keep_rest buffer (pos i) c
unfolding process
process_short fuel now buffer i c h = ground arith

leb-add : (k a b : ℕ) → leb (k + a) (k + b) ≡ leb (0 + a) b
leb-add k a b = ground arith

-- A number is read from the end of a buffer as from the beginning of that end.
read_int-shift :
    (w : ℕ) (pre rest : Bytes)
    → read_int w (pre ++ rest) (pos (length pre)) ≡ read_int w rest (pos 0)
unfolding read_int read_pattern
read_int-shift w pre rest = rw (
  drop-append (length pre) pre rest refl,
  length-append pre rest,
  leb-add (length pre) w (length rest),
)

-- The buffer is not touched while its messages are handled.
process-partial :
    (fuel now : ℕ) (pre rest : Bytes) (c : BrokerConnection)
    → IsPartial rest
    → process (suc fuel) now (pre ++ rest) (pos (length pre)) c
      ≡ keep_rest (pre ++ rest) (pos (length pre)) c
process-partial fuel now pre rest c (inl short) =
    process_short fuel now (pre ++ rest) (length pre) c (omega (arith, length-append pre rest))
process-partial fuel now pre rest c (inr (n, size, cut)) =
    process_partial fuel now (pre ++ rest) (length pre) n c (read_int-shift 4 pre rest ∙ size)
      (omega (arith, length-append pre rest))

pub length-frame : (m : Bytes) → length (frame m) ≡ 4 + length m
length-frame m =
    omega
      (arith, length-append (int_bytes 4 (pos (length m))) m, length-int_bytes 4 (pos (length m)))

module _ (fuel now : ℕ) (buffer pre m tail : Bytes) (i : ℕ) (c : BrokerConnection)
    (hb : buffer ≡ pre ++ (frame m ++ tail)) (hi : i ≡ length pre) (h : IsMessage m) where
  frame-size : read_int 4 buffer (pos i) ≡ ok (pos (length m))
  frame-size =
      read_int-in 3 i (pos (length m)) buffer pre (m ++ tail)
        (hb ∙ ap (◌++◌ pre) (append_assoc (int_bytes 4 (pos (length m))) m tail)) hi h.1

  frame-room : i + 4 + length m ≤ length buffer
  frame-room = omega (
    arith,
    ap length hb,
    length-append pre (frame m ++ tail),
    length-append (frame m) tail,
    length-frame m,
  )

  frame-message : slice buffer (pos (i + 4)) (pos (i + 4 + length m)) ≡ m
  frame-message =
      ap (λ (b : Bytes). slice b (pos (i + 4)) (pos (i + 4 + length m))) around
      ∙ slice-at (i + 4) (i + 4 + length m) (pre ++ int_bytes 4 (pos (length m))) m tail
          (omega (
            arith,
            length-append pre (int_bytes 4 (pos (length m))),
            length-int_bytes 4 (pos (length m)),
          ))
          refl
    where
      around : buffer ≡ (pre ++ int_bytes 4 (pos (length m))) ++ (m ++ tail)
      around = hb ∙ simp (append_assoc)

  -- The first message of what is left is cut out whole.
  process-frame :
      process (suc fuel) now buffer (pos i) c
      ≡ (handle_response now m c then process fuel now buffer (pos (i + (4 + length m))))
  process-frame =
      process_round fuel now buffer i (length m) c frame-size frame-room
      ∙ ap
          (λ (b : Bytes).
            handle_response now b c then process fuel now buffer (pos (i + (4 + length m))))
          frame-message

process-end :
    (fuel now : ℕ) (buffer pre rest : Bytes) (i : ℕ) (c : BrokerConnection)
    → buffer ≡ pre ++ rest
    → i ≡ length pre
    → IsPartial rest
    → process (suc fuel) now buffer (pos i) c ≡ keep_rest buffer (pos i) c
process-end fuel now buffer pre rest i c hb hi hr =
    rw (hb, hi) (process-partial fuel now pre rest c hr)

pub process-stream :
    (ms : List Bytes) (fuel now : ℕ) (buffer pre rest : Bytes) (i : ℕ) (c : BrokerConnection)
    → buffer ≡ pre ++ (stream ms ++ rest)
    → i ≡ length pre
    → length ms < fuel
    → All IsMessage ms
    → IsPartial rest
    → process fuel now buffer (pos i) c
      ≡ (handle_all now ms c then keep_rest buffer (pos (i + length (stream ms))))
unfolding handle_all
process-stream ms zero now buffer pre rest i c hb hi hf hm hr = absurd (omega arith)
process-stream [] (suc fuel) now buffer pre rest i c hb hi hf hm hr =
    process-end fuel now buffer pre rest i c hb hi hr
    ∙ ap (λ (k : ℕ). keep_rest buffer (pos k) c) (omega arith)
process-stream (m ∷ ms) (suc fuel) now buffer pre rest i c hb hi hf hm hr =
    process-frame fuel now buffer pre m (stream ms ++ rest) i c regrouped hi hm.0
    ∙ ap (λ (f : BrokerConnection → Effect). handle_response now m c then f)
        (fun_ext (λ (d : BrokerConnection).
          process-stream ms fuel now buffer (pre ++ frame m) rest (i + (4 + length m)) d
            (regrouped ∙ sym (append_assoc pre (frame m) (stream ms ++ rest)))
            (omega (arith, length-append pre (frame m), length-frame m)) (omega arith) hm.1 hr
          ∙ ap (λ (k : ℕ). handle_all now ms d then keep_rest buffer (pos k))
              (omega (arith, length-append (frame m) (stream ms), length-frame m))))
    ∙ sym (
        then_assoc (handle_response now m c) (handle_all now ms)
          (keep_rest buffer (pos (i + length (stream (m ∷ ms))))))
  where
    regrouped : buffer ≡ pre ++ (frame m ++ (stream ms ++ rest))
    regrouped = hb ∙ ap (◌++◌ pre) (append_assoc (frame m) (stream ms) rest)
