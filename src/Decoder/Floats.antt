-- ===== src/Decoder/Floats.antt =====
-- src/protocol/Decoder.ts: reading floats and doubles, which reads what was written.
use kafka_node_ts.Prelude.{ℕ, ◌<◌, ◌^◌, ◌≡◌, refl, ap, ◌∙◌, ◌++◌, append_assoc}
use kafka_node_ts.Prelude.Errors.{ok}
use kafka_node_ts.Buffer.{Bytes}
use kafka_node_ts.BasicTypes.Floats.{
  Ieee, IsIeee, decode_float, decode_double, encode_float, encode_double,
}
use kafka_node_ts.BasicTypes.FloatLaws.{double-RoundTrips, float-RoundTrips}
use kafka_node_ts.Encoder.{Encoder, build}
use kafka_node_ts.Encoder.Floats.{write_float, write_double}
use kafka_node_ts.Encoder.Laws.{IsConsistent}
use kafka_node_ts.Decoder.{Read, read_by}
use kafka_node_ts.Decoder.Laws.{Sends, RoundTrips-Sends}
use kafka_node_ts.Decoder.Streams.{decoder_behind, read_sent}

module _ {Number : Type 0} (ieee : Ieee Number) where
  unfoldable pub read_float : Read Number
  read_float = read_by (decode_float ieee)

  unfoldable pub read_double : Read Number
  read_double = read_by (decode_double ieee)

  module _ (h : IsIeee ieee) where
    float-Sends : (n : ℕ) → n < 256 ^ 4 → Sends (write_float ieee) read_float (ieee.single_value n)
    unfolding write_float read_float
    float-Sends n small =
        RoundTrips-Sends (encode_float ieee) (decode_float ieee) (ieee.single_value n)
          (float-RoundTrips ieee h n small)

    double-Sends : (v : Number) → Sends (write_double ieee) read_double v
    unfolding write_double read_double
    double-Sends v =
        RoundTrips-Sends (encode_double ieee) (decode_double ieee) v (double-RoundTrips ieee h v)

    -- A platform whose numbers are kept in 64 bits, and in 32 bits when they can be read from them; an
    -- encoder whose size counts its bytes. It takes a double and then a float that can be read from 32
    -- bits, and a decoder that stands behind what was written before reads the two and stops behind
    -- them.
    pub write_double-read_double :
        (v : Number) (n : ℕ) (e : Encoder) (post : Bytes)
        → n < 256 ^ 4
        → IsConsistent e
        → (e₁ e₂ : Encoder) × (write_double ieee e v ≡ ok e₁)
          × (write_float ieee e₁ (ieee.single_value n) ≡ ok e₂)
          × (read_double (decoder_behind e e₂ post) ≡ ok (v, decoder_behind e₁ e₂ post))
          × (read_float (decoder_behind e₁ e₂ post)
              ≡ ok (ieee.single_value n, decoder_behind e₂ e₂ post))
    write_double-read_double v n e post small c =
        let (b₁, appends₁, reads₁) = double-Sends v in
        let (b₂, appends₂, reads₂) = float-Sends n small in
        let (e₁, written₁, c₁, built₁) = appends₁ e c in
        let (e₂, written₂, c₂, built₂) = appends₂ e₁ c₁ in
        let later : build e₂ ++ post ≡ build e₁ ++ (b₂ ++ post) =
          ap (λ (t : Bytes). t ++ post) built₂ ∙ append_assoc (build e₁) b₂ post in
        (
          e₁,
          e₂,
          written₁,
          written₂,
          read_sent read_double b₁ e e₁ (build e₂ ++ post) (b₂ ++ post) reads₁ built₁ later,
          read_sent read_float b₂ e₁ e₂ (build e₂ ++ post) post reads₂ built₂ refl,
        )
