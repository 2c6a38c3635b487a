-- ===== src/BrokerConnection/Framing/Pieces.antt =====
-- src/network/BrokerConnection.ts: how the network cuts the bytes into pieces makes no difference.
use mathlib.Core.Path.{subst}
use kafka_node_ts.Prelude.{
  ℕ, ◌≤◌, ◌≡◌, refl, ap, ◌∙◌, sym, fun_ext, inl, inr, Bool, true, false, Bool-cases, Option, none,
  some, List, [], ◌∷◌, ◌++◌, length, append-nil, append_assoc, All, if◌then◌else◌,
}
use kafka_node_ts.Buffer.{Bytes}
use kafka_node_ts.BrokerConnection.Defs.{
  BrokerConnection, Output, emits_bytes_in, Effect, ◌then◌, continue_with, returns,
}
use kafka_node_ts.BrokerConnection.Incoming.{handle_response, appended, handle_incoming_data}
use kafka_node_ts.BrokerConnection.Incoming.Responses.{
  handle_response-Reaction, unknown, answered, then_assoc,
}
use kafka_node_ts.BrokerConnection.Framing.{
  handle_response-returns, stream, IsMessage, IsPartial, handle_all, handle_all-returns,
}
use kafka_node_ts.BrokerConnection.Framing.Delivery.{kept, handle_incoming_data-eq}
use kafka_node_ts.Network.Headers.{decode_response_header}
use kafka_node_ts.BrokerConnection.Framing.Cuts.{stream-Cut}

abbrev with_buffer : Option Bytes → Effect → Effect
with_buffer b e = record e { conn = record e.conn { buffer = b } }

-- Handling a message neither reads nor writes the bytes kept.
handle_response-buffer :
    (now : ℕ) (m : Bytes) (c : BrokerConnection) (b : Option Bytes)
    → 4 ≤ length m
    → handle_response now m (record c { buffer = b }) ≡ with_buffer b (handle_response now m c)
unfolding handle_response decode_response_header
handle_response-buffer now m c b h = elim (handle_response-Reaction now m c h) [
  | unknown id read missing e ↦ rw (handle_response, decode_response_header, read, missing)
  | answered id r out read found throttled e ↦
      rw (handle_response, decode_response_header, read, found, throttled)
]

handle_all-buffer :
    (now : ℕ) (ms : List Bytes) (c : BrokerConnection) (b : Option Bytes)
    → All IsMessage ms
    → handle_all now ms (record c { buffer = b }) ≡ with_buffer b (handle_all now ms c)
unfolding handle_all
handle_all-buffer now [] c b h = refl
handle_all-buffer now (m ∷ ms) c b h = rw (
  handle_response-buffer now m c b h.0.0,
  handle_response-returns now m c h.0.0,
  handle_all-buffer now ms (handle_response now m c).conn b h.1,
)

handle_all-append :
    (now : ℕ) (xs ys : List Bytes) (c : BrokerConnection)
    → handle_all now (xs ++ ys) c ≡ (handle_all now xs c then handle_all now ys)
unfolding handle_all
handle_all-append now [] ys c = refl
handle_all-append now (x ∷ xs) ys c =
    ap (λ (f : BrokerConnection → Effect). handle_response now x c then f)
      (fun_ext (handle_all-append now xs ys))
    ∙ sym (then_assoc (handle_response now x c) (handle_all now xs) (handle_all now ys))

delivered :
    (now : ℕ) (bytes : Bytes) (ms : List Bytes) (rest : Bytes) (c : BrokerConnection)
    → appended c.buffer bytes ≡ stream ms ++ rest
    → All IsMessage ms
    → IsPartial rest
    → handle_incoming_data now bytes c ≡ record {
      conn = record (handle_all now ms c).conn { buffer = kept ms rest };
      outputs = emits_bytes_in (length bytes) ∷ (handle_all now ms c).outputs;
      ending = returns;
    }
delivered now bytes ms rest c hb hm hr =
    handle_incoming_data-eq now bytes ms rest c hb hm hr
    ∙ rw (
      handle_all-buffer now ms c (some (stream ms ++ rest)) hm,
      handle_all-returns now ms c hm,
      append-nil (handle_all now ms c).outputs,
    )

appended-append : (b : Option Bytes) (xs ys : Bytes) → appended b (xs ++ ys) ≡ appended b xs ++ ys
appended-append none xs ys = refl
appended-append (some b) xs ys = sym (append_assoc b xs ys)

appended-kept : (ms : List Bytes) (rest ys : Bytes) → appended (kept ms rest) ys ≡ rest ++ ys
appended-kept [] rest ys = refl
appended-kept (m ∷ ms) [] ys = refl
appended-kept (m ∷ ms) (b ∷ rest) ys = refl

-- A connection, with the bytes kept told apart only by what is appended to them.
abbrev pub forget : BrokerConnection → BrokerConnection
forget c = record c { buffer = some (appended c.buffer []) }

abbrev counts_bytes : Output → Bool
counts_bytes (emits_bytes_in n) = true
counts_bytes _ = false

-- The outputs, but for the counts of bytes that arrived.
abbrev pub visible : List Output → List Output
visible [] = []
visible (o ∷ out) = if counts_bytes o then visible out else o ∷ visible out

visible-append : (xs ys : List Output) → visible (xs ++ ys) ≡ visible xs ++ visible ys
visible-append [] ys = refl
visible-append (x ∷ xs) ys = elim (Bool-cases (counts_bytes x)) [
  | inl e ↦ rw e (visible-append xs ys)
  | inr e ↦ rw e (ap (λ (t : List Output). x ∷ t) (visible-append xs ys))
]

module _ (now : ℕ) (xs ys : Bytes) (front back : List Bytes) (left rest : Bytes)
    (c : BrokerConnection) (first : appended c.buffer xs ≡ stream front ++ left)
    (second : left ++ ys ≡ stream back ++ rest) (front_fine : All IsMessage front)
    (back_fine : All IsMessage back) (partial : IsPartial left) (hr : IsPartial rest) where
  abbrev one_after : BrokerConnection
  one_after = record (handle_all now front c).conn { buffer = kept front left }

  second_piece : handle_incoming_data now ys one_after ≡ record {
    conn = record (handle_all now back (handle_all now front c).conn).conn {
      buffer = kept back rest;
    };
    outputs =
        emits_bytes_in (length ys) ∷ (handle_all now back (handle_all now front c).conn).outputs;
    ending = returns;
  }
  second_piece =
      delivered now ys back rest one_after (appended-kept front left ys ∙ second) back_fine hr
      ∙ rw (handle_all-buffer now back (handle_all now front c).conn (kept front left) back_fine)

  two_pieces : (handle_incoming_data now xs c then handle_incoming_data now ys) ≡ record {
    conn = record (handle_all now back (handle_all now front c).conn).conn {
      buffer = kept back rest;
    };
    outputs =
        (emits_bytes_in (length xs) ∷ (handle_all now front c).outputs)
        ++ (emits_bytes_in (length ys)
            ∷ (handle_all now back (handle_all now front c).conn).outputs);
    ending = returns;
  }
  two_pieces =
      ap (λ (e : Effect). e then handle_incoming_data now ys)
        (delivered now xs front left c first front_fine partial)
      ∙ ap
          (λ (e : Effect).
            continue_with returns one_after
              (emits_bytes_in (length xs) ∷ (handle_all now front c).outputs) (λ d. e))
          second_piece

  one_piece :
      appended c.buffer (xs ++ ys) ≡ stream (front ++ back) ++ rest
      → All IsMessage (front ++ back)
      → handle_incoming_data now (xs ++ ys) c ≡ record {
        conn = record (handle_all now back (handle_all now front c).conn).conn {
          buffer = kept (front ++ back) rest;
        };
        outputs =
            emits_bytes_in (length (xs ++ ys))
            ∷ ((handle_all now front c).outputs
                ++ (handle_all now back (handle_all now front c).conn).outputs);
        ending = returns;
      }
  one_piece h hm =
      delivered now (xs ++ ys) (front ++ back) rest c h hm hr
      ∙ rw (handle_all-append now front back c, handle_all-returns now front c front_fine)

-- The bytes kept and those that arrive are, taken together, complete messages and a rest that holds
-- no complete message. Then it makes no difference whether the bytes arrive at once or in two pieces,
-- wherever they are cut: the connection is the same afterwards, the same promises are settled and the
-- same events emitted in the same order, but for the counts of bytes.
pub handle_incoming_data-append :
    (now : ℕ) (xs ys : Bytes) (ms : List Bytes) (rest : Bytes) (c : BrokerConnection)
    → appended c.buffer (xs ++ ys) ≡ stream ms ++ rest
    → All IsMessage ms
    → IsPartial rest
    → (forget (handle_incoming_data now xs c then handle_incoming_data now ys).conn
        ≡ forget (handle_incoming_data now (xs ++ ys) c).conn)
      × (visible (handle_incoming_data now xs c then handle_incoming_data now ys).outputs
          ≡ visible (handle_incoming_data now (xs ++ ys) c).outputs)
      × ((handle_incoming_data now xs c then handle_incoming_data now ys).ending ≡ returns)
handle_incoming_data-append now xs ys ms rest c hb hm hr =
    let cut =
      stream-Cut ms (appended c.buffer xs) ys rest (sym (appended-append c.buffer xs ys) ∙ hb) hm
        hr in
    let whole = cut.whole in
    let two =
      two_pieces now xs ys cut.front cut.back cut.left rest c cut.first cut.second cut.front_fine
        cut.back_fine cut.partial hr in
    let one =
      one_piece now xs ys cut.front cut.back cut.left rest c cut.first cut.second cut.front_fine
        cut.back_fine cut.partial hr (hb ∙ ap (λ (t : List Bytes). stream t ++ rest) whole)
        (subst (All IsMessage) whole hm) in
    let f : Effect = handle_all now cut.front c in
    let g : Effect = handle_all now cut.back f.conn in
    (
      ap (λ (e : Effect). forget e.conn) two
          ∙ ap (λ (b : Bytes). record g.conn { buffer = some b })
              (appended-kept cut.back rest [] ∙ sym (appended-kept (cut.front ++ cut.back) rest []))
          ∙ sym (ap (λ (e : Effect). forget e.conn) one),
      ap (λ (e : Effect). visible e.outputs) two
          ∙ visible-append f.outputs (emits_bytes_in (length ys) ∷ g.outputs)
          ∙ sym (visible-append f.outputs g.outputs)
          ∙ sym (ap (λ (e : Effect). visible e.outputs) one),
      ap (λ (e : Effect). e.ending) two,
    )
